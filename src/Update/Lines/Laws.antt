-- ===== src/Update/Lines/Laws.antt =====
-- internal/application/commands/update/internal/engine/writes.go: a body's sections after an edit.
use spec_cli.Common.{
  ◌≡◌, refl, sym, ◌∙◌, ap, subst, String, Bool, true, false, not, none, some, List, [], ◌∷◌, ◌++◌,
  arith, inl, inr,
}
use spec_cli.Common.{
  ◌==◌, string_eq, eq_self, eq_true, if◌then◌else◌, length, all, drop, take, Bool-cases,
}
use spec_cli.Common.{length-append, append_assoc, drop-append, take-append}
use spec_cli.Common.Dict.{Dict, lookup, insert}
use spec_cli.Sections.Heading.{heading_of}
use spec_cli.Sections.{SectionRange, layout_of, first_range}
use spec_cli.Sections.Blocks.{
  is_plain, preamble, from_heading, blocks, FoundAt, first_range-FoundAt, blocks-found,
  blocks-insert_found, preamble-from_heading, preamble-cut, starts_section, from_heading-starts,
  blocks-from_heading, blocks-append_section, preamble-append_section,
}
use spec_cli.Update.Lines.{
  replace_lines, remove_section_range, trim_boundary_blanks, drop_blanks, ends_empty,
}

blank_is_plain : (l : String) → l ≡ "" → not (is_plain l) ≡ true → ⊥
unfolding heading_of
blank_is_plain l e s = cc (subst (λ l. not (is_plain l) ≡ true) e s)

-- A labelled heading is no blank line.
pub drop_blanks-section : (ls : List String) → starts_section ls ≡ true → drop_blanks ls ≡ ls
unfolding drop_blanks
drop_blanks-section [] s = refl
drop_blanks-section (l ∷ ls) s = elim (Bool-cases (l == "")) [
  | inl e ↦ absurd (blank_is_plain l (eq_true l "" e) s)
  | inr e ↦ rw e refl
]

trim_boundary_blanks-section :
    (before behind : List String)
    → starts_section behind ≡ true
    → trim_boundary_blanks (before ++ behind) (length before) ≡ before ++ behind
unfolding trim_boundary_blanks
trim_boundary_blanks-section before behind s =
    rw (take-append before behind, drop-append before behind, drop_blanks-section behind s)
      (same (ends_empty before))
  where
    same : (b : Bool) → before ++ (if b then behind else behind) ≡ before ++ behind
    same true = refl
    same false = refl

module _ (label : String) (ls : List String) (r : SectionRange) (found : FoundAt label 0 ls r) where
  tail_split : ls ≡ (found.before ++ (found.head ∷ preamble found.tail)) ++ from_heading found.tail
  tail_split =
      found.splits
      ∙ ap (λ t. found.before ++ found.head ∷ t) (preamble-from_heading found.tail)
      ∙ sym (append_assoc found.before (found.head ∷ preamble found.tail) (from_heading found.tail))

  pub drop-end_line : drop r.end_line ls ≡ from_heading found.tail
  drop-end_line =
      ap (λ n. drop n ls)
        (found.end_at
          ∙ omega (arith, length-append found.before (found.head ∷ preamble found.tail)))
      ∙ ap (drop (length (found.before ++ (found.head ∷ preamble found.tail)))) tail_split
      ∙ drop-append (found.before ++ (found.head ∷ preamble found.tail)) (from_heading found.tail)

  take-heading_line : take r.heading_line ls ≡ found.before
  take-heading_line =
      ap (λ n. take n ls) (found.heading_at ∙ omega arith)
      ∙ ap (take (length found.before)) found.splits
      ∙ take-append found.before (found.head ∷ found.tail)

  take-body_start : take r.body_start ls ≡ found.before ++ (found.head ∷ [])
  take-body_start =
      ap (λ n. take n ls)
        (found.body_at ∙ omega (arith, length-append found.before (found.head ∷ [])))
      ∙ ap (take (length (found.before ++ (found.head ∷ []))))
          (found.splits ∙ sym (append_assoc found.before (found.head ∷ []) found.tail))
      ∙ take-append (found.before ++ (found.head ∷ [])) found.tail

  replace_lines-found :
      (ins : List String)
      → replace_lines ls r.body_start r.end_line ins
        ≡ found.before ++ (found.head ∷ (ins ++ from_heading found.tail))
  unfolding replace_lines
  replace_lines-found ins =
      ap (λ t. t ++ (ins ++ drop r.end_line ls)) take-body_start
      ∙ append_assoc found.before (found.head ∷ []) (ins ++ drop r.end_line ls)
      ∙ ap (λ d. found.before ++ (found.head ∷ (ins ++ d))) drop-end_line

  removed-found :
      remove_section_range ls r.heading_line r.end_line ≡ found.before ++ from_heading found.tail
  unfolding remove_section_range replace_lines
  removed-found =
      ap (λ t. trim_boundary_blanks (t ++ drop r.end_line ls) r.heading_line) take-heading_line
      ∙ ap (λ d. trim_boundary_blanks (found.before ++ d) r.heading_line) drop-end_line
      ∙ ap (trim_boundary_blanks (found.before ++ from_heading found.tail))
          (found.heading_at ∙ omega arith)
      ∙ trim_boundary_blanks-section found.before (from_heading found.tail)
          (from_heading-starts found.tail)

-- The first section of a label is left out.
abbrev pub erase_first : {A : Type 0} → String → Dict A → Dict A
erase_first label [] = []
erase_first label ((k, v) ∷ d) = if k == label then d else (k, v) ∷ erase_first label d

erase_first-append_none :
    {A : Type 0} (label : String) (a : A) (xs ys : Dict A)
    → lookup label xs ≡ none
    → erase_first label (xs ++ (label, a) ∷ ys) ≡ xs ++ ys
unfolding lookup
erase_first-append_none label a [] ys e = rw (eq_self label) refl
erase_first-append_none label a ((k, v) ∷ xs) ys e = elim (Bool-cases (k == label)) [
  | inl same ↦ cc (rw same at e)
  | inr other ↦ rw other (ap (◌∷◌ (k, v)) (erase_first-append_none label a xs ys (rw other at e)))
]

-- Replacing the lines of the first section with a label, by lines none of which is a labelled heading,
-- changes that section's lines and nothing else: the sections, their order and the lines in front of
-- them are those of before, with the new lines at that one section.
pub replace_lines-blocks :
    (label : String) (lines inserted : List String) (r : SectionRange)
    → first_range label (layout_of lines).section_ranges ≡ some r
    → all is_plain inserted ≡ true
    → let edited = replace_lines lines r.body_start r.end_line inserted in
      (blocks edited ≡ insert label inserted (blocks lines)) × (preamble edited ≡ preamble lines)
unfolding layout_of
replace_lines-blocks label lines inserted r e p =
    let found = first_range-FoundAt label 0 (length lines) lines r (omega arith) e in
    let edited = replace_lines-found label lines r found inserted in
    (
      ap blocks edited ∙ blocks-insert_found label lines r found inserted p,
      ap preamble edited
          ∙ preamble-cut found.head found.match found.labelled found.before
              (inserted ++ from_heading found.tail)
          ∙ sym (
              ap preamble found.splits
              ∙ preamble-cut found.head found.match found.labelled found.before found.tail),
    )

-- Removing the first section with a label leaves the other sections, with their lines and their order,
-- and the lines in front of them.
pub remove_section_range-blocks :
    (label : String) (lines : List String) (r : SectionRange)
    → first_range label (layout_of lines).section_ranges ≡ some r
    → let edited = remove_section_range lines r.heading_line r.end_line in
      (blocks edited ≡ erase_first label (blocks lines)) × (preamble edited ≡ preamble lines)
unfolding layout_of
remove_section_range-blocks label lines r e =
    let found = first_range-FoundAt label 0 (length lines) lines r (omega arith) e in
    let edited = removed-found label lines r found in
    let starts = from_heading-starts found.tail in
    (
      ap blocks edited
          ∙ blocks-append_section found.before (from_heading found.tail) starts
          ∙ ap (λ b. blocks found.before ++ b) (sym (blocks-from_heading found.tail))
          ∙ sym (
              ap (erase_first label) (blocks-found label lines r found)
              ∙ erase_first-append_none label (preamble found.tail) (blocks found.before)
                  (blocks found.tail) found.first),
      ap preamble edited
          ∙ preamble-append_section found.before (from_heading found.tail) starts
          ∙ sym (
              ap preamble found.splits
              ∙ preamble-cut found.head found.match found.labelled found.before found.tail),
    )
