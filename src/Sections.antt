-- ===== src/Sections.antt =====
-- internal/application/entitydoc/sections.go: where the labelled sections of a document's body are.
pub mod Heading
pub mod Blocks
use spec_cli.Common.{ℕ, ◌+◌, String, Bool, true, false, not, Option, none, some, List, [], ◌∷◌}
use spec_cli.Common.{
  ◌==◌, ◌||◌, string_eq, nat_eq, if◌then◌else◌, ltb, length, take, drop, sort_by, select, map,
}
use Prim.Native.Char.{code}
use Prim.Native.String.{[] as empty, ◌∷◌ as cons_char}
use spec_cli.Common.Dict.{Dict, lookup, insert, contains, keys}
use spec_cli.Common.Text.{trim_space, split_on, join, str_lt}
use spec_cli.Sections.Heading.{HeadingMatch, heading_of}

-- `strings.ReplaceAll(s, "\r\n", "\n")`
unfoldable pub replace_crlf : String → String
unfolding nat_eq
replace_crlf empty = empty
replace_crlf (cons_char c empty) = cons_char c empty
replace_crlf (cons_char c (cons_char d s)) =
    let replaced = cons_char d (replace_crlf s) in
    let kept = cons_char c (replace_crlf (cons_char d s)) in
    if code c == 13 then if code d == 10 then replaced else kept else kept

-- `strings.Split(s, "\n")`
unfoldable pub split_lines : String → List String
unfolding split_on
split_lines s = split_on b'\n' "" s

-- `strings.Join(lines, "\n")`
unfoldable pub join_lines : List String → String
unfolding join
join_lines lines = join "\n" lines

pub record SectionRange : Type 0 where
  pub label : String
  pub title : String
  pub heading_line : ℕ
  pub body_start : ℕ
  pub end_line : ℕ
  pub heading_level : ℕ

-- `sectionStart`
pub record Start : Type 0 where
  pub line : ℕ
  pub heading : HeadingMatch

abbrev pub started : ℕ → Option HeadingMatch → List Start → List Start
started idx none rest = rest
started idx (some h) rest = record { line = idx; heading = h } ∷ rest

-- The loop over the lines, from an index on.
unfoldable pub starts : ℕ → List String → List Start
starts idx [] = []
starts idx (line ∷ lines) = started idx (heading_of line) (starts (idx + 1) lines)

-- The line of the next start, or the number of lines.
abbrev pub end_of : ℕ → List Start → ℕ
end_of total [] = total
end_of total (s ∷ _) = s.line

abbrev pub range_of : Start → ℕ → SectionRange
range_of s end_line = record {
  label = s.heading.label;
  title = s.heading.title;
  heading_line = s.line;
  body_start = s.line + 1;
  end_line = end_line;
  heading_level = s.heading.level;
}

-- The loop over the starts.
unfoldable pub ranges : ℕ → List Start → List SectionRange
ranges total [] = []
ranges total (s ∷ ss) = range_of s (end_of total ss) ∷ ranges total ss

count_of : Option ℕ → ℕ
count_of none = 0
count_of (some n) = n

-- `labelCounts[label]++`, over the starts.
unfoldable pub label_counts : Dict ℕ → List Start → Dict ℕ
unfolding lookup insert count_of
label_counts counts [] = counts
label_counts counts (s ∷ ss) =
    label_counts (insert s.heading.label (count_of (lookup s.heading.label counts) + 1) counts) ss

pub record SectionLayout : Type 0 where
  pub lines : List String
  pub section_ranges : List SectionRange
  pub label_count : Dict ℕ

unfoldable pub layout_of : List String → SectionLayout
unfolding starts ranges label_counts
layout_of lines = record {
  lines = lines;
  section_ranges = ranges (length lines) (starts 0 lines);
  label_count = label_counts [] (starts 0 lines);
}

-- `BuildSectionLayout`
unfoldable pub build_section_layout : String → SectionLayout
unfolding layout_of split_lines replace_crlf
build_section_layout body = layout_of (split_lines (replace_crlf body))

-- `FirstRange`
unfoldable pub first_range : String → List SectionRange → Option SectionRange
first_range label [] = none
first_range label (r ∷ rs) =
    let rest = first_range label rs in if r.label == label then some r else rest

-- `lines[from:to]`
abbrev pub slice : ℕ → ℕ → List String → List String
slice from to lines = drop from (take to lines)

-- `Body`
unfoldable pub body_of : List String → SectionRange → String
unfolding trim_space join_lines
body_of lines r = trim_space (join_lines (slice r.body_start r.end_line lines))

-- `DuplicateLabels`
unfoldable pub duplicate_labels : SectionLayout → List String
unfolding keys sort_by str_lt
duplicate_labels layout = sort_by str_lt (keys (select (λ (_, n). ltb 1 n) layout.label_count))

pub record SectionContent : Type 0 where
  pub title : String
  pub body : String

-- The loop over the ranges.
unfoldable pub unambiguous :
    List String → List String → Dict SectionContent → List SectionRange → Dict SectionContent
unfolding body_of insert
unambiguous duplicates lines sections [] = sections
unambiguous duplicates lines sections (r ∷ rs) =
    unambiguous duplicates lines
      (if contains duplicates r.label
        then sections
        else insert r.label (record { title = r.title; body = body_of lines r }) sections)
      rs

-- `ExtractSections`
unfoldable pub extract_sections : String → Dict SectionContent × List String
unfolding build_section_layout duplicate_labels unambiguous
extract_sections body =
    let layout = build_section_layout body in
    let duplicates = duplicate_labels layout in
    (unambiguous duplicates layout.lines [] layout.section_ranges, duplicates)
