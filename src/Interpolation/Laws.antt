-- ===== src/Interpolation/Laws.antt =====
-- internal/application/schema/expressions/interpolation.go: what scanning a template keeps.
use spec_cli.Common.{ℕ, String, ◌<>◌, ◌≡◌, refl, sym, ◌∙◌, ap, true, Bool-cases, inl, inr}
use spec_cli.Common.{◌==◌, ◌&&◌, nat_eq, string_eq, eq_true, arith, and_left, and_right}
use Prim.Native.Char.{Char, code}
use Prim.Native.String.{[] as empty, ◌∷◌ as cons_char}
use text.Mathlib.TextLemmas.{nil-append, append-nil, cons-append, append_assoc}
use text.Mathlib.TextEquality.{Char-path}
use spec_cli.Interpolation.{
  Scanner, at_start, advance, is_end, Pieces, no_more, unterminated, literal, interpolation,
  literal_if, Mode, in_literal, in_expression, scan,
}

-- The text that the pieces were scanned from.
unfoldable pub source_of : Pieces → String
source_of no_more = ""
source_of (unterminated s) = "${" <> s
source_of (literal s rest) = s <> source_of rest
source_of (interpolation s rest) = "${" <> (s <> ("}" <> source_of rest))

abbrev source_before : Mode → String → String
source_before in_literal seen = seen
source_before (in_expression _) seen = "${" <> seen

snoc-append :
    (seen s : String) (c : Char) → (seen <> cons_char c empty) <> s ≡ seen <> cons_char c s
snoc-append seen s c =
    append_assoc seen (cons_char c empty) s
    ∙ ap (λ t. seen <> t) (cons-append c empty s ∙ ap (cons_char c) (nil-append s))

source_of-literal_if :
    (seen : String) (rest : Pieces) → source_of (literal_if seen rest) ≡ seen <> source_of rest
unfolding source_of
source_of-literal_if seen rest = elim (Bool-cases (seen == "")) [
  | inl h ↦
      rw h (
        sym (nil-append (source_of rest)) ∙ ap (λ s. s <> source_of rest) (sym (eq_true seen "" h)))
  | inr h ↦ rw h refl
]

two_chars :
    (c d : Char) (s : String)
    → (code c == 36 && code d == 123) ≡ true
    → "${" <> s ≡ cons_char c (cons_char d s)
two_chars c d s h =
    let first = Char-path c "$" (ground (arith, and_left (code c == 36) (code d == 123) h)) in
    let second = Char-path d "{" (ground (arith, and_right (code c == 36) (code d == 123) h)) in
    cons-append "$" "{" s
    ∙ ap (cons_char "$") (cons-append "{" empty s ∙ ap (cons_char "{") (nil-append s))
    ∙ ap (λ i. cons_char i (cons_char "{" s)) (sym first)
    ∙ ap (λ i. cons_char c (cons_char i s)) (sym second)

one_char : (c : Char) (s : String) → (code c == 125) ≡ true → "}" <> s ≡ cons_char c s
one_char c s h =
    cons-append "}" empty s
    ∙ ap (cons_char "}") (nil-append s)
    ∙ ap (λ i. cons_char i s) (sym (Char-path c "}" (ground arith)))

end_is_brace : (c : ℕ) (s : Scanner) → is_end c s ≡ true → (c == 125) ≡ true
unfolding is_end
end_is_brace c s h = ground arith

scan-source :
    (mode : Mode) (seen s : String) → source_of (scan mode seen s) ≡ source_before mode seen <> s
unfolding scan source_of
scan-source in_literal seen empty = source_of-literal_if seen no_more
scan-source in_literal seen (cons_char c empty) =
    source_of-literal_if (seen <> cons_char c empty) no_more
    ∙ append-nil (seen <> cons_char c empty)
scan-source in_literal seen (cons_char c (cons_char d s)) =
    elim (Bool-cases (code c == 36 && code d == 123)) [
      | inl h ↦ rw h (
          source_of-literal_if seen (scan (in_expression at_start) "" s)
          ∙ ap (λ t. seen <> t) (scan-source (in_expression at_start) "" s ∙ two_chars c d s h))
      | inr h ↦ rw h (
          scan-source in_literal (seen <> cons_char c empty) (cons_char d s)
          ∙ snoc-append seen (cons_char d s) c)
    ]
scan-source (in_expression scanner) seen empty = sym (append-nil ("${" <> seen))
scan-source (in_expression scanner) seen (cons_char c s) =
    elim (Bool-cases (is_end (code c) scanner)) [
      | inl h ↦ rw h (
          ap (λ t. "${" <> (seen <> ("}" <> t))) (scan-source in_literal "" s ∙ nil-append s)
          ∙ ap (λ t. "${" <> (seen <> t)) (one_char c s (end_is_brace (code c) scanner h))
          ∙ sym (append_assoc "${" seen (cons_char c s)))
      | inr h ↦ rw h (
          scan-source (in_expression (advance (code c) scanner)) (seen <> cons_char c empty) s
          ∙ append_assoc "${" (seen <> cons_char c empty) s
          ∙ ap (λ t. "${" <> t) (snoc-append seen s c)
          ∙ sym (append_assoc "${" seen (cons_char c s)))
    ]

-- Scanning a template loses nothing: its literals and its interpolations, in their order, are its text, whether or not
-- the last interpolation has an end.
pub source_of-scan : (raw : String) → source_of (scan in_literal "" raw) ≡ raw
source_of-scan raw = scan-source in_literal "" raw ∙ nil-append raw
