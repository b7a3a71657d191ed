-- ===== src/Update/Lines.antt =====
-- internal/application/commands/update/internal/engine/writes.go: the edits of a body's lines.
pub mod Laws
pub mod Inserted
use spec_cli.Common.{
  ℕ, zero, suc, ◌+◌, ◌-◌, String, ◌<>◌, Bool, true, false, not, Option, none, some, List, [], ◌∷◌,
  ◌++◌,
}
use spec_cli.Common.{◌==◌, string_eq, nat_eq, if◌then◌else◌, length, take, drop}
use spec_cli.Common.Dict.{Dict, lookup}
use spec_cli.Common.Text.{trim_space}
use spec_cli.Sections.{
  SectionRange, SectionLayout, first_range, replace_crlf, split_lines, join_lines,
}

-- `splitRawLines`
unfoldable pub split_raw_lines : String → List String
unfolding split_lines replace_crlf
split_raw_lines value = if value == "" then [] else split_lines (replace_crlf value)

-- `replaceLines`
unfoldable pub replace_lines : List String → ℕ → ℕ → List String → List String
replace_lines lines from to inserted = take from lines ++ (inserted ++ drop to lines)

-- Blank lines are dropped from the front, or from the end.
unfoldable pub drop_blanks : List String → List String
drop_blanks [] = []
drop_blanks (l ∷ ls) = let rest = drop_blanks ls in if l == "" then rest else l ∷ ls

abbrev pub kept_line : String → List String → List String
kept_line l [] = if l == "" then [] else l ∷ []
kept_line l (m ∷ ms) = l ∷ m ∷ ms

unfoldable pub trim_blanks : List String → List String
trim_blanks [] = []
trim_blanks (l ∷ ls) = kept_line l (trim_blanks ls)

unfoldable pub ends_empty : List String → Bool
ends_empty [] = false
ends_empty (l ∷ []) = l == ""
ends_empty (_ ∷ m ∷ ms) = ends_empty (m ∷ ms)

-- `trimBoundaryBlanks`: blank lines at `around` go while the line before it is blank.
unfoldable pub trim_boundary_blanks : List String → ℕ → List String
unfolding drop_blanks ends_empty
trim_boundary_blanks lines around =
    take around lines
    ++ (if ends_empty (take around lines)
        then drop_blanks (drop around lines)
        else drop around lines)

-- `removeSectionRange`
unfoldable pub remove_section_range : List String → ℕ → ℕ → List String
unfolding replace_lines trim_boundary_blanks
remove_section_range lines from to = trim_boundary_blanks (replace_lines lines from to []) from

-- The labels before a label, the nearest first, and those behind it; `slices.Index` is the first place.
unfoldable pub order_around :
    String → List String → List String → Option (List String × List String)
order_around label before [] = none
order_around label before (l ∷ ls) =
    let rest = order_around label (l ∷ before) ls in if l == label then some (before, ls) else rest

abbrev pub first_some : Option SectionRange → Option SectionRange → Option SectionRange
first_some none other = other
first_some (some r) _ = some r

-- The first of the labels that has a section.
unfoldable pub nearest : List String → List SectionRange → Option SectionRange
unfolding first_range
nearest [] rs = none
nearest (l ∷ ls) rs = first_some (first_range l rs) (nearest ls rs)

abbrev pub end_line_or : ℕ → Option SectionRange → ℕ
end_line_or total none = total
end_line_or total (some r) = r.end_line

abbrev pub heading_line_or : ℕ → Option SectionRange → ℕ
heading_line_or total none = total
heading_line_or total (some r) = r.heading_line

abbrev pub position_in : List SectionRange → ℕ → Option (List String × List String) → ℕ
position_in rs total none = total
position_in rs total (some (before, behind)) =
    if end_line_or total (nearest before rs) == total
    then heading_line_or total (nearest behind rs)
    else end_line_or total (nearest before rs)

-- `insertAt`
unfoldable pub insert_position : SectionLayout → String → List String → ℕ
unfolding nearest order_around nat_eq
insert_position layout label order =
    position_in layout.section_ranges (length layout.lines) (order_around label [] order)

abbrev pub spaced : List String → List String
spaced [] = []
spaced (l ∷ ls) = (l ∷ ls) ++ ("" ∷ [])

abbrev pub spaced_behind : List String → List String
spaced_behind [] = []
spaced_behind (l ∷ ls) = "" ∷ l ∷ ls

-- `insertBlockWithSpacing`; a position past the end is the end.
unfoldable pub insert_block_with_spacing : List String → ℕ → List String → List String
unfolding trim_blanks drop_blanks
insert_block_with_spacing lines position block =
    spaced (trim_blanks (take position lines))
    ++ (block ++ spaced_behind (drop_blanks (drop position lines)))

unfoldable pub heading_line : String → String → String
heading_line title label = "## " <> title <> " {#" <> label <> "}"

-- `insertMissingSection`
unfoldable pub insert_missing_section :
    SectionLayout → String → String → String → List String → List String
unfolding insert_block_with_spacing insert_position heading_line split_raw_lines
insert_missing_section layout label title body order =
    insert_block_with_spacing layout.lines (insert_position layout label order)
      (heading_line title label ∷ split_raw_lines body)
