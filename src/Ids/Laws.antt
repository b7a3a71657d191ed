-- ===== src/Ids/Laws.antt =====
-- internal/application/commands/internal/entityids/entityids.go: issued ids, read back, and the next one.
use spec_cli.Common.{ℕ, ◌<◌, ◌≤◌, ◌≡◌, ◌≢◌, sym, ◌∙◌, ap, String, ◌<>◌, Option, none, some}
use spec_cli.Common.{
  List, [], ◌∷◌, ◌++◌, arith, ◌==◌, string_eq, eq_self, Option-cases, Bool-cases, inl, inr,
}
use Prim.Native.String.{[] as empty, ◌∷◌ as cons_char}
use text.Mathlib.TextLemmas.{cons-ne-nil, nil-append, cons-append, append_assoc}
use spec_cli.Common.Text.{strip_prefix}
use spec_cli.Common.Decimal.{itoa, read-itoa, itoa-digits, itoa-ne-nil}
use spec_cli.Ids.{
  int_mod, format, read_suffix, parse_suffix, Issued, note_suffix, max_suffix, suffix_after,
  next_id,
}

strip_prefix-append : (p s : String) → strip_prefix p (p <> s) ≡ some s
unfolding strip_prefix
strip_prefix-append empty s = rw nil-append
strip_prefix-append (cons_char c p) s =
    rw (cons-append, strip_prefix) (rw eq_self (strip_prefix-append p s))

read_suffix-itoa : (n : ℕ) → n < int_mod → read_suffix (itoa n) ≡ some n
unfolding read_suffix
read_suffix-itoa n h = ground (arith, read-itoa n, itoa-digits n, itoa-ne-nil n)

parse_suffix-append :
    (prefix raw : String) → parse_suffix (prefix <> "-" <> raw) prefix ≡ read_suffix raw
unfolding parse_suffix
parse_suffix-append prefix raw =
    ap (λ i. parse_suffix i prefix) (sym (append_assoc prefix "-" raw))
    ∙ rw (strip_prefix-append (prefix <> "-") raw, parse_suffix)

-- An id that was issued for a prefix is read back to its number, if that fits an int of 64 bits.
pub parse_suffix-format :
    (prefix : String) (n : ℕ) → n < int_mod → parse_suffix (format prefix n) prefix ≡ some n
unfolding format
parse_suffix-format prefix n h = parse_suffix-append prefix (itoa n) ∙ read_suffix-itoa n h

zero-append : (s : String) → ("0" <> s) ≡ cons_char "0" s
zero-append s = cons-append "0" empty s ∙ ap (cons_char "0") (nil-append s)

read_suffix-padded : (n : ℕ) → n < int_mod → read_suffix (cons_char "0" (itoa n)) ≡ some n
unfolding read_suffix
read_suffix-padded n h = ground (arith, read-itoa n, itoa-digits n, cons-ne-nil "0" (itoa n))

-- If a number fits an int of 64 bits, the id with one zero in front of the number is read as that
-- number, and so is the id that is issued for it.
pub parse_suffix-padded :
    (prefix : String) (n : ℕ)
    → n < int_mod
    → (parse_suffix (prefix <> "-" <> "0" <> itoa n) prefix ≡ some n)
      × (parse_suffix (format prefix n) prefix ≡ some n)
parse_suffix-padded prefix n h = (
  ap (λ s. parse_suffix (prefix <> "-" <> s) prefix) (zero-append (itoa n))
      ∙ parse_suffix-append prefix (cons_char "0" (itoa n))
      ∙ read_suffix-padded n h,
  parse_suffix-format prefix n h,
)

abbrev AtLeast : Option ℕ → ℕ → Type 0
AtLeast none n = ⊥
AtLeast (some m) n = n ≤ m

module _ (type_name prefix : String) where
  -- The document has the type and an id of that number.
  abbrev IsIssued : Issued → ℕ → Type 0
  IsIssued d n = (d.type_name ≡ type_name) × (parse_suffix d.id prefix ≡ some n)

  note_suffix-grows :
      (d : Issued) (o : Option ℕ) (n : ℕ)
      → AtLeast o n
      → AtLeast (note_suffix type_name prefix o d) n
  unfolding note_suffix
  note_suffix-grows d none n h = absurd h
  note_suffix-grows d (some c) n h = elim (Bool-cases (d.type_name == type_name)) [
    | inr other ↦ rw other h
    | inl same ↦ elim (Option-cases (parse_suffix d.id prefix)) [
      | inl e ↦ rw (same, e, note_suffix) h
      | inr (s, e) ↦ rw (same, e, note_suffix) (ground arith)
    ]
  ]

  note_suffix-counts :
      (d : Issued) (o : Option ℕ) (n : ℕ)
      → IsIssued d n
      → AtLeast (note_suffix type_name prefix o d) n
  unfolding note_suffix
  note_suffix-counts d none n (t, p) = rw (t, eq_self, p, note_suffix) (omega arith)
  note_suffix-counts d (some c) n (t, p) = rw (t, eq_self, p, note_suffix) (ground arith)

  max_suffix-grows :
      (ds : List Issued) (o : Option ℕ) (n : ℕ)
      → AtLeast o n
      → AtLeast (max_suffix type_name prefix o ds) n
  unfolding max_suffix
  max_suffix-grows [] o n h = h
  max_suffix-grows (d ∷ ds) o n h =
      max_suffix-grows ds (note_suffix type_name prefix o d) n (note_suffix-grows d o n h)

  max_suffix-counts :
      (before after : List Issued) (d : Issued) (o : Option ℕ) (n : ℕ)
      → IsIssued d n
      → AtLeast (max_suffix type_name prefix o (before ++ d ∷ after)) n
  unfolding max_suffix
  max_suffix-counts [] after d o n h =
      max_suffix-grows after (note_suffix type_name prefix o d) n (note_suffix-counts d o n h)
  max_suffix-counts (b ∷ before) after d o n h =
      max_suffix-counts before after d (note_suffix type_name prefix o b) n h

  -- The id that add picks is that of no indexed document of the type, as long as the number after the
  -- largest one fits an int of 64 bits.
  pub next_id-fresh :
      (before after : List Issued) (d : Issued)
      → d.type_name ≡ type_name
      → suffix_after (max_suffix type_name prefix none (before ++ d ∷ after)) < int_mod
      → d.id ≢ next_id type_name prefix (before ++ d ∷ after)
  unfolding next_id
  next_id-fresh before after d t h e =
      let n = suffix_after (max_suffix type_name prefix none (before ++ d ∷ after)) in
      let read = ap (λ i. parse_suffix i prefix) e ∙ parse_suffix-format prefix n h in
      not_below (max_suffix type_name prefix none (before ++ d ∷ after))
        (max_suffix-counts before after d none n (t, read))
    where
      not_below : (o : Option ℕ) → AtLeast o (suffix_after o) → ⊥
      not_below none h = h
      not_below (some m) h = omega arith
