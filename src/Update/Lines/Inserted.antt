-- ===== src/Update/Lines/Inserted.antt =====
-- internal/application/commands/update/internal/engine/writes.go: a body's sections after a new one is put in.
use spec_cli.Common.{
  ℕ, ◌≡◌, refl, sym, ◌∙◌, ap, subst, String, Bool, true, false, Option, none, some, List, [], ◌∷◌,
  ◌++◌, arith, ◌⊎◌, inl, inr,
}
use spec_cli.Common.{
  ◌==◌, string_eq, nat_eq, eq_true, if◌then◌else◌, length, all, drop, take, Bool-cases,
  Option-cases,
}
use spec_cli.Common.{append_assoc, drop-append, take-append-drop, drop_all}
use spec_cli.Common.Dict.{Dict, lookup}
use spec_cli.Sections.Heading.{HeadingMatch, heading_of}
use spec_cli.Sections.{SectionRange, layout_of, first_range}
use spec_cli.Sections.Blocks.{
  is_plain, preamble, blocks, FoundAt, first_range-FoundAt, starts_section, from_heading-starts,
  blocks-append_section, blocks-cut, lookup-append_none, lookup-here, blocks-plain, preamble-append,
}
use spec_cli.Update.Lines.{
  trim_blanks, kept_line, drop_blanks, spaced, spaced_behind, nearest, end_line_or, heading_line_or,
  order_around, position_in, insert_position, insert_block_with_spacing, heading_line,
  split_raw_lines, insert_missing_section,
}
use spec_cli.Update.Lines.Laws.{drop-end_line, drop_blanks-section}

-- The sections without the blank lines at their ends.
abbrev pub trimmed : Dict (List String) → Dict (List String)
trimmed [] = []
trimmed ((label, body) ∷ d) = (label, trim_blanks body) ∷ trimmed d

kept_cases :
    (l : String) (t : List String)
    → (kept_line l t ≡ l ∷ t) ⊎ ((t ≡ []) × (l ≡ "") × (kept_line l t ≡ []))
kept_cases l (m ∷ ms) = inl refl
kept_cases l [] = elim (Bool-cases (l == "")) [
  | inl e ↦ inr (refl, eq_true l "" e, rw e refl)
  | inr e ↦ inl (rw e refl)
]

blank_heading : heading_of "" ≡ none
unfolding heading_of
blank_heading = refl

-- Two documents with the same sections, up to blank lines at their ends.
record SameBut (x y : List String) : Type 0 where
  preambles : trim_blanks (preamble x) ≡ trim_blanks (preamble y)
  sections : trimmed (blocks x) ≡ trimmed (blocks y)

SameBut-cons : (l : String) (x y : List String) → SameBut x y → SameBut (l ∷ x) (l ∷ y)
unfolding preamble blocks trim_blanks
SameBut-cons l x y s = elim (Option-cases (heading_of l)) [
  | inl n ↦ record { preambles = rw n (ap (kept_line l) s.preambles); sections = rw n s.sections }
  | inr (h, n) ↦ record {
    preambles = rw n refl;
    sections = rw (n, s.preambles) (ap (λ d. (h.label, trim_blanks (preamble y)) ∷ d) s.sections);
  }
]

-- A blank line counts for nothing where only blank lines follow.
SameBut-blank : (x : List String) → SameBut [] x → SameBut [] ("" ∷ x)
unfolding preamble blocks trim_blanks string_eq
SameBut-blank x s = record {
  preambles = rw blank_heading (ap (kept_line "") s.preambles);
  sections = rw blank_heading s.sections;
}

trim_blanks-SameBut : (a : List String) → SameBut (trim_blanks a) a
unfolding trim_blanks
trim_blanks-SameBut [] = record { preambles = refl; sections = refl }
trim_blanks-SameBut (l ∷ a) = elim (kept_cases l (trim_blanks a)) [
  | inl e ↦ rw e (SameBut-cons l (trim_blanks a) a (trim_blanks-SameBut a))
  | inr (t, b, e) ↦ rw (e, b) (SameBut-blank a (subst (λ t. SameBut t a) t (trim_blanks-SameBut a)))
]

snoc-SameBut : (x : List String) → SameBut (x ++ "" ∷ []) x
snoc-SameBut [] =
    let blank = SameBut-blank [] (record { preambles = refl; sections = refl }) in
    record { preambles = sym blank.preambles; sections = sym blank.sections }
snoc-SameBut (l ∷ x) = SameBut-cons l (x ++ "" ∷ []) x (snoc-SameBut x)

spaced-SameBut : (x : List String) → SameBut (spaced x) x
spaced-SameBut [] = record { preambles = refl; sections = refl }
spaced-SameBut (l ∷ x) = snoc-SameBut (l ∷ x)

abbrev pub gap : List String → List String
gap [] = []
gap (_ ∷ _) = "" ∷ []

spaced_behind-gap : (b : List String) → spaced_behind b ≡ gap b ++ b
spaced_behind-gap [] = refl
spaced_behind-gap (l ∷ ls) = refl

all-append :
    (xs ys : List String)
    → all is_plain xs ≡ true
    → all is_plain ys ≡ true
    → all is_plain (xs ++ ys) ≡ true
all-append [] ys h k = k
all-append (x ∷ xs) ys h k = ground (arith, all-append xs ys)

gap-plain : (b : List String) → all is_plain (gap b) ≡ true
gap-plain [] = refl
gap-plain (l ∷ ls) = rw blank_heading refl

trimmed-append : (xs ys : Dict (List String)) → trimmed (xs ++ ys) ≡ trimmed xs ++ trimmed ys
trimmed-append [] ys = refl
trimmed-append (x ∷ xs) ys = ap (◌∷◌ (x.0, trim_blanks x.1)) (trimmed-append xs ys)

nearest-found :
    (labels : List String) (rs : List SectionRange) (r : SectionRange)
    → nearest labels rs ≡ some r
    → (l : String) × (first_range l rs ≡ some r)
unfolding nearest
nearest-found [] rs r e = cc
nearest-found (l ∷ ls) rs r e = elim (Option-cases (first_range l rs)) [
  | inl n ↦ nearest-found ls rs r (rw n at e)
  | inr (q, n) ↦ (l, n ∙ (rw n at e))
]

-- A line number at which a section starts, or the document ends.
abbrev IsBoundary : List String → ℕ → Type 0
IsBoundary lines n = starts_section (drop n lines) ≡ true

end-IsBoundary : (lines : List String) → IsBoundary lines (length lines)
end-IsBoundary lines = ap starts_section (drop_all (length lines) lines (omega arith))

module _ (lines : List String) (label : String) (r : SectionRange)
    (e : first_range label (layout_of lines).section_ranges ≡ some r) where
  found : FoundAt label 0 lines r
  unfolding layout_of
  found = first_range-FoundAt label 0 (length lines) lines r (omega arith) e

  end_line-IsBoundary : IsBoundary lines r.end_line
  end_line-IsBoundary =
      ap starts_section (drop-end_line label lines r found) ∙ from_heading-starts found.tail

  heading_line-IsBoundary : IsBoundary lines r.heading_line
  heading_line-IsBoundary =
      ap (λ n. starts_section (drop n lines)) (found.heading_at ∙ omega arith)
      ∙ ap (λ ls. starts_section (drop (length found.before) ls)) found.splits
      ∙ ap starts_section (drop-append found.before (found.head ∷ found.tail))
      ∙ rw found.labelled refl

module _ (lines : List String) where
  abbrev section_ranges : List SectionRange
  section_ranges = (layout_of lines).section_ranges

  end_line_or-IsBoundary :
      (o : Option SectionRange)
      → ((r : SectionRange) → o ≡ some r → (l : String) × (first_range l section_ranges ≡ some r))
      → IsBoundary lines (end_line_or (length lines) o)
  end_line_or-IsBoundary none f = end-IsBoundary lines
  end_line_or-IsBoundary (some r) f = let (l, e) = f r refl in end_line-IsBoundary lines l r e

  heading_line_or-IsBoundary :
      (o : Option SectionRange)
      → ((r : SectionRange) → o ≡ some r → (l : String) × (first_range l section_ranges ≡ some r))
      → IsBoundary lines (heading_line_or (length lines) o)
  heading_line_or-IsBoundary none f = end-IsBoundary lines
  heading_line_or-IsBoundary (some r) f =
      let (l, e) = f r refl in heading_line-IsBoundary lines l r e

  position_in-IsBoundary :
      (around : Option (List String × List String))
      → IsBoundary lines (position_in section_ranges (length lines) around)
  position_in-IsBoundary none = end-IsBoundary lines
  position_in-IsBoundary (some (before, behind)) =
      pick _ _ (end_line_or (length lines) (nearest before section_ranges) == length lines)
        (heading_line_or-IsBoundary (nearest behind section_ranges)
          (nearest-found behind section_ranges))
        (end_line_or-IsBoundary (nearest before section_ranges)
          (nearest-found before section_ranges))
    where
      pick :
          (m n : ℕ) (b : Bool)
          → IsBoundary lines m
          → IsBoundary lines n
          → IsBoundary lines (if b then m else n)
      pick m n true h k = h
      pick m n false h k = k

  insert_position-IsBoundary :
      (label : String) (order : List String)
      → IsBoundary lines (insert_position (layout_of lines) label order)
  unfolding insert_position layout_of
  insert_position-IsBoundary label order = position_in-IsBoundary (order_around label [] order)

-- What stands in front of an inserted block and behind it.
module _ (before behind ins : List String) (head : String) (h : HeadingMatch)
    (e : heading_of head ≡ some h) (p : all is_plain ins ≡ true)
    (s : starts_section behind ≡ true) where
  block_blocks :
      blocks (spaced (trim_blanks before) ++ ((head ∷ ins) ++ spaced_behind (drop_blanks behind)))
      ≡ blocks (spaced (trim_blanks before)) ++ (h.label, ins ++ gap behind) ∷ blocks behind
  block_blocks =
      ap (λ b. blocks (spaced (trim_blanks before) ++ ((head ∷ ins) ++ b)))
        (ap spaced_behind (drop_blanks-section behind s) ∙ spaced_behind-gap behind)
      ∙ blocks-cut head h e (spaced (trim_blanks before)) (ins ++ (gap behind ++ behind))
      ∙ ap (λ t. blocks (spaced (trim_blanks before)) ++ (h.label, preamble t) ∷ blocks t)
          (sym (append_assoc ins (gap behind) behind))
      ∙ ap
          (λ b.
            blocks (spaced (trim_blanks before))
            ++ (h.label, b) ∷ blocks ((ins ++ gap behind) ++ behind))
          (preamble-append (ins ++ gap behind) behind plain s)
      ∙ ap (λ b. blocks (spaced (trim_blanks before)) ++ (h.label, ins ++ gap behind) ∷ b)
          (blocks-plain (ins ++ gap behind) behind plain)
    where
      plain : all is_plain (ins ++ gap behind) ≡ true
      plain = all-append ins (gap behind) p (gap-plain behind)

spaced_before :
    (before : List String)
    → trimmed (blocks (spaced (trim_blanks before))) ≡ trimmed (blocks before)
spaced_before before =
    (spaced-SameBut (trim_blanks before)).sections ∙ (trim_blanks-SameBut before).sections

trim_blanks-gap : (ins behind : List String) → trim_blanks (ins ++ gap behind) ≡ trim_blanks ins
unfolding trim_blanks string_eq
trim_blanks-gap [] [] = refl
trim_blanks-gap [] (l ∷ ls) = refl
trim_blanks-gap (l ∷ ins) behind = ap (kept_line l) (trim_blanks-gap ins behind)

lookup-trimmed-none :
    (label : String) (d : Dict (List String))
    → lookup label (trimmed d) ≡ none
    → lookup label d ≡ none
unfolding lookup
lookup-trimmed-none label [] e = refl
lookup-trimmed-none label ((k, v) ∷ d) e = ground (arith, lookup-trimmed-none label d)

trimmed-lookup-none :
    (label : String) (d : Dict (List String))
    → lookup label d ≡ none
    → lookup label (trimmed d) ≡ none
unfolding lookup
trimmed-lookup-none label [] e = refl
trimmed-lookup-none label ((k, v) ∷ d) e = ground (arith, trimmed-lookup-none label d)

lookup-none_left :
    (label : String) (xs ys : Dict (List String))
    → lookup label (xs ++ ys) ≡ none
    → lookup label xs ≡ none
unfolding lookup
lookup-none_left label [] ys e = refl
lookup-none_left label ((k, v) ∷ xs) ys e = ground (arith, lookup-none_left label xs ys)

module _ (lines : List String) (label title body : String) (order : List String) (h : HeadingMatch)
    (e : heading_of (heading_line title label) ≡ some h) (named : h.label ≡ label)
    (p : all is_plain (split_raw_lines body) ≡ true) where
  abbrev position : ℕ
  position = insert_position (layout_of lines) label order

  abbrev new_lines : List String
  new_lines = insert_missing_section (layout_of lines) label title body order

  new_blocks :
      blocks new_lines
      ≡ blocks (spaced (trim_blanks (take position lines)))
        ++ (label, split_raw_lines body ++ gap (drop position lines)) ∷ blocks (drop position lines)
  unfolding insert_missing_section insert_block_with_spacing layout_of
  new_blocks =
      block_blocks (take position lines) (drop position lines) (split_raw_lines body)
        (heading_line title label) h e p (insert_position-IsBoundary lines label order)
      ∙ ap
          (λ l.
            blocks (spaced (trim_blanks (take position lines)))
            ++ (l, split_raw_lines body ++ gap (drop position lines))
              ∷ blocks (drop position lines))
          named

  old_blocks : blocks lines ≡ blocks (take position lines) ++ blocks (drop position lines)
  old_blocks =
      ap blocks (sym (take-append-drop position lines))
      ∙ blocks-append_section (take position lines) (drop position lines)
          (insert_position-IsBoundary lines label order)

  -- Where a section is put in, under a heading that reads back as its label and with lines none of
  -- which is a labelled heading, the document has the sections of before in their order, and the new
  -- one at some place among them; blank lines at the ends of sections are not counted.
  pub insert_missing_section-blocks :
      (before : Dict (List String)) × (behind : Dict (List String)) × (trimmed (blocks lines)
        ≡ before ++ behind)
      × (trimmed (blocks new_lines)
          ≡ before ++ (label, trim_blanks (split_raw_lines body)) ∷ behind)
  insert_missing_section-blocks = (
    trimmed (blocks (take position lines)),
    trimmed (blocks (drop position lines)),
    ap trimmed old_blocks
        ∙ trimmed-append (blocks (take position lines)) (blocks (drop position lines)),
    ap trimmed new_blocks
        ∙ trimmed-append (blocks (spaced (trim_blanks (take position lines)))) _
        ∙ ap
            (λ b.
              b
              ++ (label, trim_blanks (split_raw_lines body ++ gap (drop position lines)))
                ∷ trimmed (blocks (drop position lines)))
            (spaced_before (take position lines))
        ∙ ap
            (λ b.
              trimmed (blocks (take position lines))
              ++ (label, b) ∷ trimmed (blocks (drop position lines)))
            (trim_blanks-gap (split_raw_lines body) (drop position lines)),
  )

  -- If the heading line that is written reads back as the label, no line of the value is a labelled
  -- heading, and the document had no section of the label, then after the section is put in, the lines of
  -- the first section of the label are those of the value, with one blank line behind them unless it is
  -- put at the end of the document.
  pub insert_missing_section-lookup :
      lookup label (blocks lines) ≡ none
      → lookup label (blocks new_lines) ≡ some (split_raw_lines body ++ gap (drop position lines))
  insert_missing_section-lookup absent =
      ap (lookup label) new_blocks
      ∙ lookup-append_none label (blocks (spaced (trim_blanks (take position lines)))) _ none_before
      ∙ lookup-here label (split_raw_lines body ++ gap (drop position lines))
          (blocks (drop position lines))
    where
      none_before : lookup label (blocks (spaced (trim_blanks (take position lines)))) ≡ none
      none_before =
          lookup-trimmed-none label (blocks (spaced (trim_blanks (take position lines)))) (
            ap (lookup label) (spaced_before (take position lines))
            ∙ trimmed-lookup-none label (blocks (take position lines)) (
                lookup-none_left label (blocks (take position lines)) (blocks (drop position lines))
                  (sym (ap (lookup label) old_blocks) ∙ absent)))
