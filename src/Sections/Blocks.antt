-- ===== src/Sections/Blocks.antt =====
-- internal/application/entitydoc/sections.go: a document's sections as a list of labels with their lines,
-- and the line numbers of the layout against it.
use spec_cli.Common.{
  ℕ, ◌+◌, ◌≡◌, refl, sym, ◌∙◌, ap, String, Bool, true, false, not, Option, none, some, List, [],
  ◌∷◌, ◌++◌, arith, inl, inr,
}
use spec_cli.Common.{
  ◌==◌, string_eq, eq_self, eq_true, if◌then◌else◌, length, all, Bool-cases, Option-cases,
}
use spec_cli.Common.{append-nil}
use spec_cli.Common.Dict.{Dict, lookup, insert}
use spec_cli.Sections.Heading.{HeadingMatch, heading_of}
use spec_cli.Sections.{SectionRange, starts, end_of, range_of, ranges, first_range}

abbrev is_none {ℓ} : {A : Type ℓ} → Option A → Bool
is_none none = true
is_none (some _) = false

-- The line is no labelled heading.
abbrev pub is_plain : String → Bool
is_plain line = is_none (heading_of line)

-- The lines up to the first labelled heading, and those from it on.
unfoldable pub preamble : List String → List String
preamble [] = []
preamble (l ∷ ls) = let rest = preamble ls in if is_plain l then l ∷ rest else []

unfoldable pub from_heading : List String → List String
from_heading [] = []
from_heading (l ∷ ls) = let rest = from_heading ls in if is_plain l then rest else l ∷ ls

abbrev block_of : Option HeadingMatch → List String → Dict (List String) → Dict (List String)
block_of none body rest = rest
block_of (some h) body rest = (h.label, body) ∷ rest

-- The sections in their order, with their lines.
unfoldable pub blocks : List String → Dict (List String)
unfolding preamble
blocks [] = []
blocks (l ∷ ls) = block_of (heading_of l) (preamble ls) (blocks ls)

pub preamble-from_heading : (ls : List String) → ls ≡ preamble ls ++ from_heading ls
unfolding preamble from_heading
preamble-from_heading [] = refl
preamble-from_heading (l ∷ ls) = elim (Option-cases (heading_of l)) [
  | inl e ↦ rw e (ap (◌∷◌ l) (preamble-from_heading ls))
  | inr (h, e) ↦ rw e refl
]

-- A list that is empty or starts with a labelled heading.
abbrev pub starts_section : List String → Bool
starts_section [] = true
starts_section (l ∷ ls) = not (is_plain l)

pub from_heading-starts : (ls : List String) → starts_section (from_heading ls) ≡ true
unfolding from_heading
from_heading-starts [] = refl
from_heading-starts (l ∷ ls) = elim (Option-cases (heading_of l)) [
  | inl e ↦ rw e (from_heading-starts ls)
  | inr (h, e) ↦ rw (e, e) refl
]

pub preamble-plain : (ls : List String) → all is_plain (preamble ls) ≡ true
unfolding preamble
preamble-plain [] = refl
preamble-plain (l ∷ ls) = elim (Option-cases (heading_of l)) [
  | inl e ↦ rw (e, e) (preamble-plain ls)
  | inr (h, e) ↦ rw e refl
]

pub preamble-of_section : (ls : List String) → starts_section ls ≡ true → preamble ls ≡ []
unfolding preamble
preamble-of_section [] s = refl
preamble-of_section (l ∷ ls) s = elim (Option-cases (heading_of l)) [
  | inl e ↦ cc (rw e at s)
  | inr (h, e) ↦ rw e refl
]

pub preamble-append :
    (ins rest : List String)
    → all is_plain ins ≡ true
    → starts_section rest ≡ true
    → preamble (ins ++ rest) ≡ ins
unfolding preamble
preamble-append [] rest p s = preamble-of_section rest s
preamble-append (l ∷ ins) rest p s = elim (Option-cases (heading_of l)) [
  | inl e ↦ rw e (ap (◌∷◌ l) (preamble-append ins rest (rw e at p) s))
  | inr (h, e) ↦ cc (rw e at p)
]

pub blocks-plain :
    (ins rest : List String) → all is_plain ins ≡ true → blocks (ins ++ rest) ≡ blocks rest
unfolding blocks
blocks-plain [] rest p = refl
blocks-plain (l ∷ ins) rest p = elim (Option-cases (heading_of l)) [
  | inl e ↦ rw e (blocks-plain ins rest (rw e at p))
  | inr (h, e) ↦ cc (rw e at p)
]

pub blocks-from_heading : (ls : List String) → blocks ls ≡ blocks (from_heading ls)
blocks-from_heading ls =
    ap blocks (preamble-from_heading ls)
    ∙ blocks-plain (preamble ls) (from_heading ls) (preamble-plain ls)

module _ (head : String) (h : HeadingMatch) (e : heading_of head ≡ some h) where
  -- A labelled heading ends what stands before it.
  pub preamble-cut :
      (before tail : List String) → preamble (before ++ head ∷ tail) ≡ preamble before
  unfolding preamble
  preamble-cut [] tail = rw e refl
  preamble-cut (l ∷ before) tail =
      ap (λ r. if is_plain l then l ∷ r else []) (preamble-cut before tail)

  pub blocks-cut :
      (before tail : List String)
      → blocks (before ++ head ∷ tail) ≡ blocks before ++ (h.label, preamble tail) ∷ blocks tail
  unfolding blocks
  blocks-cut [] tail = rw e refl
  blocks-cut (l ∷ before) tail = elim (Option-cases (heading_of l)) [
    | inl n ↦ rw n (blocks-cut before tail)
    | inr (k, n) ↦
        rw (n, preamble-cut before tail)
          (ap (λ r. (k.label, preamble before) ∷ r) (blocks-cut before tail))
  ]

pub blocks-append_section :
    (before behind : List String)
    → starts_section behind ≡ true
    → blocks (before ++ behind) ≡ blocks before ++ blocks behind
unfolding blocks
blocks-append_section before [] s = ap blocks (append-nil before) ∙ sym (append-nil (blocks before))
blocks-append_section before (l ∷ ls) s = elim (Option-cases (heading_of l)) [
  | inl e ↦ cc (rw e at s)
  | inr (h, e) ↦
      blocks-cut l h e before ls ∙ ap (λ b. blocks before ++ b) (sym (blocks-cut l h e [] ls))
]

pub preamble-append_section :
    (before behind : List String)
    → starts_section behind ≡ true
    → preamble (before ++ behind) ≡ preamble before
unfolding preamble
preamble-append_section before [] s = ap preamble (append-nil before)
preamble-append_section before (l ∷ ls) s = elim (Option-cases (heading_of l)) [
  | inl e ↦ cc (rw e at s)
  | inr (h, e) ↦ preamble-cut l h e before ls
]

pub end_of-starts :
    (idx total : ℕ) (ls : List String)
    → total ≡ idx + length ls
    → end_of total (starts idx ls) ≡ idx + length (preamble ls)
unfolding starts preamble
end_of-starts idx total [] t = omega arith
end_of-starts idx total (l ∷ ls) t = elim (Option-cases (heading_of l)) [
  | inl e ↦ rw e (end_of-starts (idx + 1) total ls (omega arith) ∙ omega arith)
  | inr (h, e) ↦ rw e (omega arith)
]

-- Where the layout finds the first section of a label.
pub record FoundAt (label : String) (idx : ℕ) (ls : List String) (r : SectionRange) : Type 0 where
  pub before : List String
  pub head : String
  pub tail : List String
  pub splits : ls ≡ before ++ head ∷ tail
  pub match : HeadingMatch
  pub labelled : heading_of head ≡ some match
  pub same_label : match.label ≡ label
  pub first : lookup label (blocks before) ≡ none
  pub heading_at : r.heading_line ≡ idx + length before
  pub body_at : r.body_start ≡ idx + length before + 1
  pub end_at : r.end_line ≡ idx + length before + 1 + length (preamble tail)

lookup-other :
    (label : String) (h : HeadingMatch) (body : List String) (rest : Dict (List String))
    → (h.label == label) ≡ false
    → lookup label ((h.label, body) ∷ rest) ≡ lookup label rest
unfolding lookup
lookup-other label h body rest e = rw e refl

abbrev or_else : SectionRange → Option SectionRange → SectionRange
or_else r none = r
or_else r (some q) = q

pub first_range-FoundAt :
    (label : String) (idx total : ℕ) (ls : List String) (r : SectionRange)
    → total ≡ idx + length ls
    → first_range label (ranges total (starts idx ls)) ≡ some r
    → FoundAt label idx ls r
unfolding starts ranges first_range
first_range-FoundAt label idx total [] r t f = cc
first_range-FoundAt label idx total (l ∷ ls) r t f = elim (Option-cases (heading_of l)) [
  | inl e ↦
      let found = first_range-FoundAt label (idx + 1) total ls r (omega arith) (rw e at f) in
      skip found e
  | inr (h, e) ↦ elim (Bool-cases (h.label == label)) [
    | inl same ↦ here h e same (rw (e, same) at f)
    | inr other ↦
        after h e other
          (first_range-FoundAt label (idx + 1) total ls r (omega arith) (rw (e, other) at f))
  ]
]
  where
    skip : FoundAt label (idx + 1) ls r → heading_of l ≡ none → FoundAt label idx (l ∷ ls) r
    skip found e = record {
      before = l ∷ found.before;
      head = found.head;
      tail = found.tail;
      splits = ap (◌∷◌ l) found.splits;
      match = found.match;
      labelled = found.labelled;
      same_label = found.same_label;
      first = unfold blocks in rw e found.first;
      heading_at = found.heading_at ∙ omega arith;
      body_at = found.body_at ∙ omega arith;
      end_at = found.end_at ∙ omega arith;
    }

    here :
        (h : HeadingMatch)
        → heading_of l ≡ some h
        → (h.label == label) ≡ true
        → some (range_of (record { line = idx; heading = h }) (end_of total (starts (idx + 1) ls)))
          ≡ some r
        → FoundAt label idx (l ∷ ls) r
    here h e same f = record {
      before = [];
      head = l;
      tail = ls;
      splits = refl;
      match = h;
      labelled = e;
      same_label = eq_true h.label label same;
      first = unfold blocks lookup in refl;
      heading_at = at (λ r. r.heading_line) ∙ omega arith;
      body_at = at (λ r. r.body_start) ∙ omega arith;
      end_at = at (λ r. r.end_line) ∙ end_of-starts (idx + 1) total ls (omega arith) ∙ omega arith;
    }
      where
        at :
            (get : SectionRange → ℕ)
            → get r
              ≡ get (
                  range_of
                    (record { line = idx; heading = h })
                    (end_of total (starts (idx + 1) ls)))
        at get = ap (λ o. get (or_else r o)) (sym f)

    after :
        (h : HeadingMatch)
        → heading_of l ≡ some h
        → (h.label == label) ≡ false
        → FoundAt label (idx + 1) ls r
        → FoundAt label idx (l ∷ ls) r
    after h e other found = record {
      before = l ∷ found.before;
      head = found.head;
      tail = found.tail;
      splits = ap (◌∷◌ l) found.splits;
      match = found.match;
      labelled = found.labelled;
      same_label = found.same_label;
      first = unfold blocks lookup in rw (e, other) found.first;
      heading_at = found.heading_at ∙ omega arith;
      body_at = found.body_at ∙ omega arith;
      end_at = found.end_at ∙ omega arith;
    }

-- A label that the layout does not find is no section's.
pub first_range-none :
    (label : String) (idx total : ℕ) (ls : List String)
    → first_range label (ranges total (starts idx ls)) ≡ none
    → lookup label (blocks ls) ≡ none
unfolding starts ranges first_range blocks lookup
first_range-none label idx total [] f = refl
first_range-none label idx total (l ∷ ls) f = elim (Option-cases (heading_of l)) [
  | inl e ↦ rw e (first_range-none label (idx + 1) total ls (rw e at f))
  | inr (h, e) ↦ elim (Bool-cases (h.label == label)) [
    | inl same ↦ cc (rw (e, same) at f)
    | inr other ↦ rw (e, other) (first_range-none label (idx + 1) total ls (rw (e, other) at f))
  ]
]

pub lookup-append_none :
    {A : Type 0} (label : String) (xs ys : Dict A)
    → lookup label xs ≡ none
    → lookup label (xs ++ ys) ≡ lookup label ys
unfolding lookup
lookup-append_none label [] ys e = refl
lookup-append_none label ((k, v) ∷ xs) ys e = elim (Bool-cases (k == label)) [
  | inl same ↦ cc (rw same at e)
  | inr other ↦ rw other (lookup-append_none label xs ys (rw other at e))
]

pub lookup-here :
    {A : Type 0} (label : String) (a : A) (ys : Dict A) → lookup label ((label, a) ∷ ys) ≡ some a
unfolding lookup
lookup-here label a ys = rw (eq_self label) refl

insert-append_none :
    {A : Type 0} (label : String) (a b : A) (xs ys : Dict A)
    → lookup label xs ≡ none
    → insert label a (xs ++ (label, b) ∷ ys) ≡ xs ++ (label, a) ∷ ys
unfolding lookup insert
insert-append_none label a b [] ys e = rw (eq_self label) refl
insert-append_none label a b ((k, v) ∷ xs) ys e = elim (Bool-cases (k == label)) [
  | inl same ↦ cc (rw same at e)
  | inr other ↦ rw other (ap (◌∷◌ (k, v)) (insert-append_none label a b xs ys (rw other at e)))
]

module _ (label : String) (ls : List String) (r : SectionRange) (found : FoundAt label 0 ls r) where
  -- The sections of the document, cut at the one that was found.
  pub blocks-found :
      blocks ls ≡ blocks found.before ++ (label, preamble found.tail) ∷ blocks found.tail
  blocks-found =
      ap blocks found.splits
      ∙ blocks-cut found.head found.match found.labelled found.before found.tail
      ∙ ap (λ l. blocks found.before ++ (l, preamble found.tail) ∷ blocks found.tail)
          found.same_label

  pub lookup-found : lookup label (blocks ls) ≡ some (preamble found.tail)
  lookup-found =
      ap (lookup label) blocks-found
      ∙ lookup-append_none label (blocks found.before) _ found.first
      ∙ lookup-here label (preamble found.tail) (blocks found.tail)

  -- The same document with other lines under the heading.
  pub blocks-insert_found :
      (ins : List String)
      → all is_plain ins ≡ true
      → blocks (found.before ++ (found.head ∷ (ins ++ from_heading found.tail)))
        ≡ insert label ins (blocks ls)
  blocks-insert_found ins p =
      blocks-cut found.head found.match found.labelled found.before (ins ++ from_heading found.tail)
      ∙ ap
          (λ l.
            blocks found.before
            ++ (l, preamble (ins ++ from_heading found.tail))
              ∷ blocks (ins ++ from_heading found.tail))
          found.same_label
      ∙ ap (λ b. blocks found.before ++ (label, b) ∷ blocks (ins ++ from_heading found.tail))
          (preamble-append ins (from_heading found.tail) p (from_heading-starts found.tail))
      ∙ ap (λ b. blocks found.before ++ (label, ins) ∷ b)
          (blocks-plain ins (from_heading found.tail) p ∙ sym (blocks-from_heading found.tail))
      ∙ sym (
          ap (insert label ins) blocks-found
          ∙ insert-append_none label ins (preamble found.tail) (blocks found.before)
              (blocks found.tail) found.first)
