-- ===== src/Check/Nil.antt =====
-- When a list of issues is empty.
use spec_cli.Common.{
  ◌≡◌, refl, sym, ◌∙◌, ap, Bool, true, false, not, List, [], ◌∷◌, ◌++◌, ◌↔◌, map, sort_by, length,
  length-sort_by, arith,
}
use spec_cli.Common.{◌&&◌, ◌||◌, string_eq}
use spec_cli.Write.{Issue}
use spec_cli.Check.Rules.{unless}

module _ {ℓ} {A : Type ℓ} where
  pub append-nil_iff : (xs ys : List A) → (xs ++ ys ≡ []) ↔ ((xs ≡ []) × (ys ≡ []))
  append-nil_iff [] ys = (λ h. (refl, h), λ (_, h). h)
  append-nil_iff (x ∷ xs) ys = (λ h. cc, λ (h, _). cc)

  nil_of_length : (xs : List A) → length xs ≡ 0 → xs ≡ []
  nil_of_length [] h = refl
  nil_of_length (x ∷ xs) h = absurd (omega arith)

  pub sort_by-nil_iff : (less : A → A → Bool) (xs : List A) → (sort_by less xs ≡ []) ↔ (xs ≡ [])
  sort_by-nil_iff less xs = (
    λ h. nil_of_length xs (sym (length-sort_by less xs) ∙ ap length h),
    λ h. nil_of_length (sort_by less xs) (length-sort_by less xs ∙ ap length h),
  )

  pub map-nil_iff {ℓ'} : {B : Type ℓ'} (f : A → B) (xs : List A) → (map f xs ≡ []) ↔ (xs ≡ [])
  map-nil_iff f [] = (λ _. refl, λ _. refl)
  map-nil_iff f (x ∷ xs) = (λ h. cc, λ h. cc)

pub unless-nil_iff : (b : Bool) (i : Issue) → (unless b i ≡ []) ↔ (b ≡ true)
unless-nil_iff true i = (λ _. refl, λ _. refl)
unless-nil_iff false i = (λ h. cc, λ h. cc)

pub ↔-both {ℓ κ ℓ' κ'} :
    {A : Type ℓ} {B : Type κ} {C : Type ℓ'} {D : Type κ'} → A ↔ B → C ↔ D → (A × C) ↔ (B × D)
↔-both (f, g) (h, k) = (λ (a, c). (f a, h c), λ (b, d). (g b, k d))

infixr 2 ◌⟶◌
pub ◌⟶◌ {ℓ κ ℓ'} : {A : Type ℓ} {B : Type κ} {C : Type ℓ'} → A ↔ B → B ↔ C → A ↔ C
(f, g) ⟶ (h, k) = (λ a. h (f a), λ c. g (k c))

-- Two lists in a row are empty if each of them is.
pub both-nil {ℓ κ κ'} :
    {A : Type ℓ} {P : Type κ} {Q : Type κ'} (xs ys : List A)
    → (xs ≡ []) ↔ P
    → (ys ≡ []) ↔ Q
    → (xs ++ ys ≡ []) ↔ (P × Q)
both-nil xs ys p q = append-nil_iff xs ys ⟶ ↔-both p q

pub and_iff : (a b : Bool) → ((a && b) ≡ true) ↔ ((a ≡ true) × (b ≡ true))
and_iff true b = (λ h. (refl, h), λ (_, h). h)
and_iff false b = (λ h. cc, λ (h, _). h)

pub not_or_iff : (a b : Bool) → (not (a || b) ≡ true) ↔ ((a ≡ false) × (not b ≡ true))
not_or_iff true b = (λ h. cc, λ (h, _). cc)
not_or_iff false b = (λ h. (refl, h), λ (_, h). h)
