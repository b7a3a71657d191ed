-- ===== src/Sections/Heading.antt =====
-- internal/application/entitydoc/sections.go: the patterns of a labelled heading, as functions of a line.
-- A line has no newline in it.
use spec_cli.Common.{ℕ, zero, suc, ◌+◌, Bool, true, false, not, Option, none, some}
use spec_cli.Common.{◌==◌, ◌&&◌, ◌||◌, nat_eq, string_eq, leb, if◌then◌else◌}
use Prim.Native.Char.{Char, code}
use Prim.Native.String.{String, [], ◌∷◌}
use spec_cli.Common.Text.{trim_space, trim_right_by, strip_prefix}

-- `\s`
unfoldable pub is_blank : ℕ → Bool
unfolding nat_eq
is_blank c = c == 32 || c == 9 || c == 10 || c == 12 || c == 13

abbrev prefixed : Char → Option (String × String) → Option (String × String)
prefixed c none = none
prefixed c (some (before, after)) = some (c ∷ before, after)

abbrev found_or : Option (String × String) → Option (String × String) → Option (String × String)
found_or none other = other
found_or (some parts) _ = some parts

-- What stands before and behind the last character of that code.
unfoldable pub split_last : ℕ → String → Option (String × String)
unfolding nat_eq
split_last sep [] = none
split_last sep (c ∷ s) =
    found_or (prefixed c (split_last sep s)) (if code c == sep then some ([], s) else none)

abbrev consed : Char → Option String → Option String
consed c none = none
consed c (some s) = some (c ∷ s)

-- The text without its last character, which has that code.
unfoldable pub strip_last : ℕ → String → Option String
unfolding nat_eq
strip_last sep [] = none
strip_last sep (c ∷ []) = if code c == sep then some [] else none
strip_last sep (c ∷ d ∷ s) = consed c (strip_last sep (d ∷ s))

abbrev pub every : (ℕ → Bool) → String → Bool
every p [] = true
every p (c ∷ s) = p (code c) && every p s

ends_blank : String → Bool
unfolding is_blank
ends_blank [] = false
ends_blank (c ∷ []) = is_blank (code c)
ends_blank (c ∷ d ∷ s) = ends_blank (d ∷ s)

-- `[^\s#()]` and `[^\s{}]`
unfoldable pub is_link_label : ℕ → Bool
unfolding is_blank nat_eq
is_link_label c = not (is_blank c || c == b'#' || c == b'(' || c == b')')

unfoldable pub is_suffix_label : ℕ → Bool
unfolding is_blank nat_eq
is_suffix_label c = not (is_blank c || c == b'{' || c == b'}')

-- A label and a title.
abbrev pub Label : Type 0
Label = Option (String × String)

abbrev link_parts : Option String → Option String → Label
link_parts (some title) (some label) =
    if not (title == "") && not (label == "") && every is_link_label label
    then some (label, trim_space title)
    else none
link_parts _ _ = none

abbrev suffix_parts : String → Option String → Label
suffix_parts before (some label) =
    if ends_blank before && not (label == "") && every is_suffix_label label
    then some (label, trim_space before)
    else none
suffix_parts before none = none

link_cut : Option (String × String) → Label
unfolding strip_last strip_prefix is_link_label trim_space
link_cut none = none
link_cut (some (before, after)) = link_parts (strip_last b']' before) (strip_prefix "#" after)

suffix_cut : Option (String × String) → Label
unfolding strip_prefix is_suffix_label ends_blank trim_space
suffix_cut none = none
suffix_cut (some (before, after)) = suffix_parts before (strip_prefix "#" after)

abbrev then_split : ℕ → Option String → Option (String × String)
then_split sep none = none
then_split sep (some s) = split_last sep s

abbrev then_last : ℕ → Option String → Option String
then_last sep none = none
then_last sep (some s) = strip_last sep s

-- `headingLinkLabelPattern`: `[title](#label)`
link_label : String → Label
unfolding link_cut split_last strip_last strip_prefix
link_label heading = link_cut (then_split b'(' (then_last b')' (strip_prefix "[" heading)))

-- `headingSuffixLabelPattern`: `title {#label}`
suffix_label : String → Label
unfolding suffix_cut split_last strip_last
suffix_label heading = suffix_cut (then_split b'{' (strip_last b'}' heading))

abbrev first_label : Label → Label → Label
first_label (some l) _ = some l
first_label none other = other

-- `ParseHeadingLabel`
unfoldable pub parse_heading_label : String → Label
unfolding link_label suffix_label trim_right_by is_blank
parse_heading_label heading =
    first_label (link_label (trim_right_by is_blank heading))
      (suffix_label (trim_right_by is_blank heading))

-- `^\s{0,3}`
skip_blanks : ℕ → String → String
unfolding is_blank
skip_blanks _ [] = []
skip_blanks zero s = s
skip_blanks (suc n) (c ∷ s) =
    let rest = skip_blanks n s in if is_blank (code c) then rest else c ∷ s

abbrev one_more : ℕ × String → ℕ × String
one_more (n, s) = (n + 1, s)

-- `#*`
hashes : String → ℕ × String
unfolding nat_eq
hashes [] = (0, [])
hashes (c ∷ s) = let rest = one_more (hashes s) in if code c == b'#' then rest else (0, c ∷ s)

starts_blank : String → Bool
unfolding is_blank
starts_blank [] = false
starts_blank (c ∷ s) = is_blank (code c)

-- The level of a labelled heading, its label and its title.
pub record HeadingMatch : Type 0 where
  pub level : ℕ
  pub label : String
  pub title : String

abbrev with_level : ℕ → Label → Option HeadingMatch
with_level n none = none
with_level n (some (label, title)) = some (record { level = n; label = label; title = title })

heading_after : ℕ × String → Option HeadingMatch
unfolding starts_blank parse_heading_label trim_space
heading_after (n, rest) =
    if leb 1 n && leb n 6 && starts_blank rest
    then with_level n (parse_heading_label (trim_space rest))
    else none

-- `headingPattern`, then `ParseHeadingLabel`.
unfoldable pub heading_of : String → Option HeadingMatch
unfolding heading_after hashes skip_blanks
heading_of line = heading_after (hashes (skip_blanks 3 line))
