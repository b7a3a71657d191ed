-- ===== src/Write/Paths/Laws.antt =====
-- internal/application/commands/internal/writeargs/writeargs.go: the splitting of an argument.
use spec_cli.Common.{
  ℕ, ◌≡◌, ◌≢◌, ◌↔◌, refl, sym, ◌∙◌, ap, Bool, true, false, not, none, some, arith, ◌⊎◌, inl, inr,
  subst,
}
use spec_cli.Common.{◌==◌, ◌&&◌, nat_eq, string_eq, eq_self, eq_true, eq_false, Bool-cases}
use Prim.Native.Char.{Char, code}
use Prim.Native.String.{String, [], ◌∷◌, ◌++◌}
use mathlib.Core.Path.{ap₂}
use text.Mathlib.TextEquality.{Char-path}
use text.Mathlib.TextLemmas.{nil-append, cons-append}
use spec_cli.Common.Text.{trim_space}
use spec_cli.Errors.{ok, ok-injective, fail_not_ok}
use spec_cli.Write.Paths.{
  PathValue, Cut, cut_at, path_value_of, bad_operation, empty_path, parse_path_value,
}

-- No character has the code.
unfoldable pub lacks : ℕ → String → Bool
unfolding nat_eq
lacks sep [] = true
lacks sep (c ∷ s) = not (code c == sep) && lacks sep s

Cut-cases : (x : Cut) → (x ≡ none) ⊎ ((b : String) × (a : String) × (x ≡ some (b, a)))
Cut-cases none = inl refl
Cut-cases (some (b, a)) = inr (b, a, refl)

cut_at-append :
    (c : Char) (p v : String) → lacks (code c) p ≡ true → cut_at (code c) (p ++ c ∷ v) ≡ some (p, v)
unfolding cut_at lacks
cut_at-append c [] v h = rw (nil-append, cut_at) (rw (eq_self (code c)) refl)
cut_at-append c (d ∷ p) v h = rw (cons-append, cut_at) (ground (arith, cut_at-append c p v))

cut_at-some :
    (c : Char) (raw p v : String)
    → cut_at (code c) raw ≡ some (p, v)
    → (raw ≡ p ++ c ∷ v) × (lacks (code c) p ≡ true)
unfolding cut_at lacks
cut_at-some c [] p v h = cc
cut_at-some c (d ∷ s) p v h = elim (Bool-cases (code d == code c)) [
  | inl e ↦ here e (ground arith) (ground arith)
  | inr e ↦ elim (Cut-cases (cut_at (code c) s)) [
    | inl k ↦ ground arith
    | inr (b, a, k) ↦
        let (split, free) = cut_at-some c s b a k in
        there e b a split free (ground arith) (ground arith)
  ]
]
  where
    here :
        (code d == code c) ≡ true
        → "" ≡ p
        → s ≡ v
        → (d ∷ s ≡ p ++ c ∷ v) × (lacks (code c) p ≡ true)
    here e q r =
        subst (λ p. (d ∷ s ≡ p ++ c ∷ v) × (lacks (code c) p ≡ true)) q
          (ap₂ (◌∷◌) (Char-path d c (eq_true _ _ e)) r ∙ sym (nil-append (c ∷ v)), refl)

    there :
        (code d == code c) ≡ false
        → (b a : String) → s ≡ b ++ c ∷ a
        → lacks (code c) b ≡ true
        → d ∷ b ≡ p
        → a ≡ v
        → (d ∷ s ≡ p ++ c ∷ v) × (lacks (code c) p ≡ true)
    there e b a split free q r =
        subst (λ p. (d ∷ s ≡ p ++ c ∷ v) × (lacks (code c) p ≡ true)) q
          (
            ap (◌∷◌ d) split ∙ sym (cons-append d b (c ∷ a)) ∙ ap (λ x. (d ∷ b) ++ c ∷ x) r,
            rw e free,
          )

path_value_of-none : (raw : String) (r : PathValue) → path_value_of raw none ≢ ok r
unfolding path_value_of
path_value_of-none raw r h = ground arith

path_value_of-ok :
    (raw p v : String) (r : PathValue)
    → path_value_of raw (some (p, v)) ≡ ok r
    → (trim_space p ≢ "") × (r.path ≡ trim_space p) × (r.value ≡ v)
unfolding path_value_of bad_operation empty_path
path_value_of-ok raw p v r h = elim (Bool-cases (p == "")) [
  | inl e ↦ absurd (fail_not_ok (rw e at h))
  | inr e ↦ elim (Bool-cases (trim_space p == "")) [
    | inl k ↦ absurd (fail_not_ok (rw (e, k) at h))
    | inr k ↦
        let same = ok-injective (rw (e, k) at h) in
        (eq_false _ _ k, sym (ap (λ q. q.path) same), sym (ap (λ q. q.value) same))
  ]
]

path_value_of-full :
    (raw p v : String)
    → trim_space p ≢ ""
    → path_value_of raw (some (p, v)) ≡ ok (record { path = trim_space p; value = v })
unfolding path_value_of trim_space
path_value_of-full raw p v h = elim (Bool-cases (p == "")) [
  | inl e ↦ absurd (h (ap trim_space (eq_true p "" e)))
  | inr e ↦ ground arith
]

-- A write argument is accepted exactly when it is a path, an equals sign and a value, where the path
-- has no equals sign in it and is not blank; the value is all that stands behind that sign, and the
-- path is trimmed.
pub parse_path_value_iff :
    (raw : String) (r : PathValue)
    → (parse_path_value raw ≡ ok r) ↔ (
        (p : String) × (raw ≡ p ++ "=" ∷ r.value)
        × (lacks b'=' p ≡ true)
        × (trim_space p ≢ "")
        × (r.path ≡ trim_space p))
unfolding parse_path_value
parse_path_value_iff raw r = (split, join)
  where
    split :
        path_value_of raw (cut_at b'=' raw) ≡ ok r
        → (p : String) × (raw ≡ p ++ "=" ∷ r.value)
          × (lacks b'=' p ≡ true)
          × (trim_space p ≢ "")
          × (r.path ≡ trim_space p)
    split h = elim (Cut-cases (cut_at b'=' raw)) [
      | inl k ↦ absurd (path_value_of-none raw r (rw k at h))
      | inr (p, v, k) ↦
          let (parts, free) = cut_at-some "=" raw p v k in
          let (full, path, value) = path_value_of-ok raw p v r (rw k at h) in
          (p, parts ∙ ap (λ v. p ++ "=" ∷ v) (sym value), free, full, path)
    ]

    join :
        (p : String) × (raw ≡ p ++ "=" ∷ r.value)
          × (lacks b'=' p ≡ true)
          × (trim_space p ≢ "")
          × (r.path ≡ trim_space p)
        → path_value_of raw (cut_at b'=' raw) ≡ ok r
    join (p, parts, free, full, path) =
        ap (λ s. path_value_of raw (cut_at b'=' s)) parts
        ∙ ap (path_value_of raw) (cut_at-append "=" p r.value free)
        ∙ path_value_of-full raw p r.value full
        ∙ ap (λ q. ok (record { path = q; value = r.value })) (sym path)
