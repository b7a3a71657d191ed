-- ===== src/Read/Order/Contract.antt =====
-- What internal/application/readmodel/ordering/sort.go relies on: `sort.SliceStable` of the standard library.
use mathlib.Core.List.{Perm, Permᴰ}
use mathlib.Core.Logic.{∥∥₁_elim}
use native.Mathlib.Nat.{ℕ_set}
use spec_cli.Common.{
  ◌≡◌, refl, ◌∙◌, ap, suc, Bool, true, false, not, ◌&&◌, ◌||◌, List, [], ◌∷◌, all, All, length,
}
use spec_cli.Values.{Scalars}

module _ {A : Type 0} where
  -- On the elements of the list the test is asymmetric, and what it leaves undecided or denies is transitive.
  abbrev pub is_strict_weak : (A → A → Bool) → List A → Bool
  is_strict_weak lt xs =
      all
        (λ a.
          all (λ b. not (lt a b && lt b a) && all (λ c. lt a b || lt b c || not (lt a c)) xs) xs)
        xs

  -- Every element and each one behind it are related.
  abbrev pub Pairwise : (A → A → Type 0) → List A → Type 0
  Pairwise R [] = Unit {0}
  Pairwise R (x ∷ xs) = All (R x) xs × Pairwise R xs

  module _ (R Q : A → A → Type 0) (weaken : (a b : A) → R a b → Q a b) where
    All-weaken : (x : A) (xs : List A) → All (R x) xs → All (Q x) xs
    All-weaken x [] h = tt
    All-weaken x (y ∷ ys) (h, hs) = (weaken x y h, All-weaken x ys hs)

    pub Pairwise-weaken : (xs : List A) → Pairwise R xs → Pairwise Q xs
    Pairwise-weaken [] h = tt
    Pairwise-weaken (x ∷ xs) (h, hs) = (All-weaken x xs h, Pairwise-weaken xs hs)

-- What sort.SliceStable does with a slice: it only swaps elements.
abbrev pub Rearranges : (S : Scalars) {A : Type 0} → (A → A → Bool) → List A → Type 0
Rearranges S {A} lt xs = Perm (S.slice_stable A lt xs) xs

-- And if the test is a strict weak order of them, no element is left behind one that it is below.
abbrev pub Sorts : (S : Scalars) {A : Type 0} → (A → A → Bool) → List A → Type 0
Sorts S {A} lt xs =
    Rearranges S lt xs
    × (is_strict_weak lt xs ≡ true → Pairwise (λ a b. lt b a ≡ false) (S.slice_stable A lt xs))

Permᴰ-length : {A : Type 0} {xs ys : List A} → Permᴰ xs ys → length xs ≡ length ys
Permᴰ-length Permᴰ.nil = refl
Permᴰ-length (Permᴰ.cons e p) = ap suc (Permᴰ-length p)
Permᴰ-length (Permᴰ.swap e f) = refl
Permᴰ-length (Permᴰ.trans p q) = Permᴰ-length p ∙ Permᴰ-length q

pub Perm-length : {A : Type 0} {xs ys : List A} → Perm xs ys → length xs ≡ length ys
Perm-length {xs = xs} {ys = ys} p = ∥∥₁_elim p (ℕ_set (length xs) (length ys)) Permᴰ-length
