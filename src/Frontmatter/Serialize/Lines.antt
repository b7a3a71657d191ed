-- ===== src/Frontmatter/Serialize/Lines.antt =====
-- Texts without carriage returns, their lines, and what trimming does at their ends.
use spec_cli.Common.{
  ℕ, String, ◌<>◌, ◌≡◌, refl, sym, ◌∙◌, ap, Bool, true, false, not, List, [], ◌∷◌, ◌++◌, arith,
  Bool-cases, inl, inr,
}
use spec_cli.Common.{◌==◌, ◌&&◌, string_eq, nat_eq}
use Prim.Native.Char.{code}
use Prim.Native.String.{[] as empty, ◌∷◌ as cons_char}
use Prim.Native.Char.{Char}
use text.Mathlib.TextLemmas.{
  append-ne-nil_of_right_ne-nil, nil-append, append-nil, cons-append, append_assoc,
}
use spec_cli.Common.{◌≢◌, eq_true, eq_false}
use text.Mathlib.TextEquality.{Char-path}
use spec_cli.Common.Text.{trim_left_by, trim_right_by, split_on, join}
use spec_cli.Sections.{replace_crlf}
use spec_cli.Frontmatter.Serialize.{replace_cr, is_newline, is_line_end}

-- No carriage return.
abbrev pub no_cr : String → Bool
no_cr empty = true
no_cr (cons_char c s) = not (code c == 13) && no_cr s

pub replace_crlf-no_cr : (s : String) → no_cr s ≡ true → replace_crlf s ≡ s
unfolding replace_crlf
replace_crlf-no_cr empty h = refl
replace_crlf-no_cr (cons_char c empty) h = refl
replace_crlf-no_cr (cons_char c (cons_char d s)) h =
    ground (arith, replace_crlf-no_cr (cons_char d s))

pub replace_cr-no_cr : (s : String) → no_cr s ≡ true → replace_cr s ≡ s
unfolding replace_cr
replace_cr-no_cr empty h = refl
replace_cr-no_cr (cons_char c s) h = ground (arith, replace_cr-no_cr s)

pub no_cr-append : (s t : String) → no_cr (s <> t) ≡ (no_cr s && no_cr t)
no_cr-append empty t = rw nil-append refl
no_cr-append (cons_char c s) t = rw cons-append (ground (arith, no_cr-append s t))

pub no_cr-trim_left : (s : String) → no_cr s ≡ true → no_cr (trim_left_by is_newline s) ≡ true
unfolding trim_left_by
no_cr-trim_left empty h = refl
no_cr-trim_left (cons_char c s) h = ground (arith, no_cr-trim_left s)

pub no_cr-trim_right : (s : String) → no_cr s ≡ true → no_cr (trim_right_by is_line_end s) ≡ true
unfolding trim_right_by
no_cr-trim_right empty h = refl
no_cr-trim_right (cons_char c s) h = ground (arith, no_cr-trim_right s)

pub newline-append : (t : String) → ("\n" <> t) ≡ cons_char "\n" t
newline-append t = cons-append "\n" empty t ∙ ap (cons_char "\n") (nil-append t)

pub is_newline_char : (c : Char) → (code c == 10) ≡ true → c ≡ "\n"
is_newline_char c h = Char-path c "\n" (ground arith)

pub split_on-append :
    (cur s t : String) → split_on 10 cur (s <> ("\n" <> t)) ≡ split_on 10 cur s ++ split_on 10 "" t
unfolding split_on
split_on-append cur empty t = rw nil-append (ap (split_on 10 cur) (newline-append t))
split_on-append cur (cons_char c s) t = rw cons-append (elim (Bool-cases (code c == 10)) [
  | inl h ↦ rw h (ap (λ rest. cur ∷ rest) (split_on-append "" s t))
  | inr h ↦ rw h (split_on-append (cur <> cons_char c empty) s t)
])

pub snoc-append :
    (cur s : String) (c : Char) → (cur <> cons_char c empty) <> s ≡ cur <> cons_char c s
snoc-append cur s c = append_assoc cur (cons_char c empty) s ∙ rw (cons-append, nil-append) refl

pub join-cons :
    (a : String) (ls : List String) → ls ≢ [] → join "\n" (a ∷ ls) ≡ a <> ("\n" <> join "\n" ls)
unfolding join
join-cons a [] h = absurd (h refl)
join-cons a (l ∷ ls) h = refl

pub split_on-ne-nil : (cur s : String) → split_on 10 cur s ≢ []
unfolding split_on
split_on-ne-nil cur empty h = cc
split_on-ne-nil cur (cons_char c s) h = ground (arith, split_on-ne-nil (cur <> cons_char c empty) s)

pub join-split_on : (cur s : String) → join "\n" (split_on 10 cur s) ≡ cur <> s
unfolding split_on join
join-split_on cur empty = sym (append-nil cur)
join-split_on cur (cons_char c s) = elim (Bool-cases (code c == 10)) [
  | inl h ↦ rw h (
      join-cons cur (split_on 10 "" s) (split_on-ne-nil "" s)
      ∙ ap (λ rest. cur <> ("\n" <> rest)) (join-split_on "" s ∙ nil-append s)
      ∙ ap (λ rest. cur <> rest) (newline-append s)
      ∙ ap (λ d. cur <> cons_char d s) (sym (is_newline_char c h)))
  | inr h ↦ rw h (join-split_on (cur <> cons_char c empty) s ∙ snoc-append cur s c)
]

pub not_same : (a b : String) → a ≢ b → (a == b) ≡ false
not_same a b n = elim (Bool-cases (a == b)) [ inl h ↦ absurd (n (eq_true a b h)) | inr h ↦ h ]

-- What is trimmed away at the end of a text is trimmed behind any other.
pub trim_right-drops :
    (p : ℕ → Bool) (s t : String)
    → trim_right_by p t ≡ ""
    → trim_right_by p (s <> t) ≡ trim_right_by p s
unfolding trim_right_by
trim_right-drops p empty t h = ap (trim_right_by p) (nil-append t) ∙ h
trim_right-drops p (cons_char c s) t h = rw cons-append (rw (trim_right-drops p s t h) refl)

pub trim_right-keeps :
    (p : ℕ → Bool) (s t : String)
    → trim_right_by p t ≢ ""
    → trim_right_by p (s <> t) ≡ s <> trim_right_by p t
unfolding trim_right_by
trim_right-keeps p empty t n =
    ap (trim_right_by p) (nil-append t) ∙ sym (nil-append (trim_right_by p t))
trim_right-keeps p (cons_char c s) t n =
    rw (cons-append, trim_right-keeps p s t n)
      (rw (not_same (s <> trim_right_by p t) "" (append-ne-nil_of_right_ne-nil s n))
        (sym (cons-append c s (trim_right_by p t))))

pub trim_right-trim_right :
    (p : ℕ → Bool) (s : String) → trim_right_by p (trim_right_by p s) ≡ trim_right_by p s
unfolding trim_right_by
trim_right-trim_right p empty = refl
trim_right-trim_right p (cons_char c s) =
    elim (Bool-cases (trim_right_by p s == "" && p (code c))) [
      | inl h ↦ rw h refl
      | inr h ↦ rw h (rw (trim_right-trim_right p s) (rw h refl))
    ]

-- The text does not start with a newline.
abbrev pub starts_within : String → Bool
starts_within empty = true
starts_within (cons_char c s) = not (code c == 10)

pub starts-trim_left : (s : String) → starts_within (trim_left_by is_newline s) ≡ true
unfolding trim_left_by
starts-trim_left empty = refl
starts-trim_left (cons_char c s) = elim (Bool-cases (code c == 10)) [
  | inl h ↦ rw h (starts-trim_left s)
  | inr h ↦ rw h (rw h refl)
]

pub starts-trim_right :
    (s : String) → starts_within s ≡ true → starts_within (trim_right_by is_line_end s) ≡ true
unfolding trim_right_by
starts-trim_right empty h = refl
starts-trim_right (cons_char c s) h =
    elim (Bool-cases (trim_right_by is_line_end s == "" && is_line_end (code c))) [
      | inl k ↦ rw k refl
      | inr k ↦ rw k h
    ]

pub trim_left-starts :
    (s t : String)
    → starts_within s ≡ true
    → (s == "") ≡ false
    → trim_left_by is_newline (s <> t) ≡ s <> t
unfolding trim_left_by
trim_left-starts empty t h k = absurd (eq_false {A = String} "" "" k refl)
trim_left-starts (cons_char c s) t h k = rw cons-append (ground arith)
