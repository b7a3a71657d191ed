-- ===== src/Read/Order/Uniform/Weak.antt =====
-- internal/application/readmodel/ordering/sort.go: on fields of one kind each the test of the sort is a strict
-- weak order.
use Prim.Native.Nat.{Ordering}
use spec_cli.Common.{
  ◌≡◌, ◌≢◌, refl, ap, String, Bool, true, false, not, ◌&&◌, ◌||◌, Option, none, some, List, [], ◌∷◌,
  arith, all, All,
}
use spec_cli.Values.{Scalars, Value}
use spec_cli.Read.Sort.{Direction, asc, desc, SortTerm}
use spec_cli.Read.Order.{
  EntityView, compare_literal_values, term_less, decided_or, less, resolve_read_value,
}
use spec_cli.Read.Order.Contract.{is_strict_weak}
use spec_cli.Read.Order.Compare.{IsAsymmetric, less-asym}
use spec_cli.Read.Order.Stable.{term_less-desc}
use spec_cli.Read.Order.Uniform.{Kind, IsWeak, absent_or_of_kind, IsTyped, Chains, compare-Chains}

-- The same of what a term says of three values in a row.
abbrev Passes : Option Bool → Option Bool → Option Bool → Type 0
Passes o₁ o₂ o₃ =
    o₁ ≢ some true → o₂ ≢ some true → (o₃ ≢ some true) × (o₃ ≡ none → (o₁ ≡ none) × (o₂ ≡ none))

abbrev ascending : Ordering → Option Bool
ascending Ordering.lt = some true
ascending Ordering.eq = none
ascending Ordering.gt = some false

ascending-eq : (c : Ordering) → ascending c ≡ none → c ≡ Ordering.eq
ascending-eq Ordering.lt h = cc
ascending-eq Ordering.eq h = refl
ascending-eq Ordering.gt h = cc

ascending-lt : (c : Ordering) → ascending c ≡ some true → c ≡ Ordering.lt
ascending-lt Ordering.lt h = refl
ascending-lt Ordering.eq h = cc
ascending-lt Ordering.gt h = cc

ascending-Passes :
    (c₁ c₂ c₃ : Ordering) → Chains c₁ c₂ c₃ → Passes (ascending c₁) (ascending c₂) (ascending c₃)
ascending-Passes c₁ c₂ c₃ chains h k =
    let r = chains (λ e. h (ap ascending e)) (λ e. k (ap ascending e)) in
    (
      λ e. r.0 (ascending-lt c₃ e),
      λ e. let s = r.1 (ascending-eq c₃ e) in (ap ascending s.0, ap ascending s.1),
    )

below_none : {A : Type 0} (b : Bool) → some b ≡ none → A
below_none b h = cc

decided-Passes :
    (o₁ o₂ o₃ : Option Bool) (r₁ r₂ r₃ : Bool)
    → Passes o₁ o₂ o₃
    → (r₁ ≡ false → r₂ ≡ false → r₃ ≡ false)
    → decided_or o₁ r₁ ≡ false
    → decided_or o₂ r₂ ≡ false
    → decided_or o₃ r₃ ≡ false
decided-Passes o₁ o₂ o₃ r₁ r₂ r₃ passes rest h k = ground arith

module _ {S : Scalars} (weak : IsWeak S) where
  term_less-asc :
      (v w : Value S) → term_less asc (some v) (some w) ≡ ascending (compare_literal_values v w)
  unfolding term_less
  term_less-asc v w = ground arith

  asc-Passes :
      (k : Kind) (x y z : Option (Value S))
      → absent_or_of_kind k x ≡ true
      → absent_or_of_kind k y ≡ true
      → absent_or_of_kind k z ≡ true
      → Passes (term_less asc x y) (term_less asc y z) (term_less asc x z)
  unfolding term_less
  asc-Passes k none none none a b c h j = (h, λ e. (refl, refl))
  asc-Passes k none none (some w) a b c h j = absurd (j refl)
  asc-Passes k none (some v) z a b c h j = absurd (h refl)
  asc-Passes k (some u) none none a b c h j = (h, below_none false)
  asc-Passes k (some u) none (some w) a b c h j = absurd (j refl)
  asc-Passes k (some u) (some v) none a b c h j = (j, below_none false)
  asc-Passes k (some u) (some v) (some w) a b c h j =
      let passes : Passes (term_less asc (some u) (some v)) (term_less asc (some v) (some w))
          (term_less asc (some u) (some w)) =
        rw (term_less-asc u v, term_less-asc v w, term_less-asc u w)
          (ascending-Passes (compare_literal_values u v) (compare_literal_values v w)
            (compare_literal_values u w) (compare-Chains weak k u v w a b c)) in
      passes h j

  module _ (asym : IsAsymmetric S) where
    term_less-Passes :
        (d : Direction) (k : Kind) (x y z : Option (Value S))
        → absent_or_of_kind k x ≡ true
        → absent_or_of_kind k y ≡ true
        → absent_or_of_kind k z ≡ true
        → Passes (term_less d x y) (term_less d y z) (term_less d x z)
    term_less-Passes asc k x y z a b c = asc-Passes k x y z a b c
    term_less-Passes desc k x y z a b c =
        rw (term_less-desc asym y x, term_less-desc asym z y, term_less-desc asym z x)
          (λ h j. let r = asc-Passes k z y x c b a j h in (r.0, λ e. let s = r.1 e in (s.1, s.0)))

    less-weak :
        (kinds : String → Kind) (ts : List SortTerm) (a b c : EntityView S)
        → IsTyped kinds ts a
        → IsTyped kinds ts b
        → IsTyped kinds ts c
        → less ts a b ≡ false
        → less ts b c ≡ false
        → less ts a c ≡ false
    unfolding less
    less-weak kinds [] a b c ha hb hc h k = refl
    less-weak kinds (t ∷ ts) a b c (ha, has) (hb, hbs) (hc, hcs) h k =
        let x = resolve_read_value a.view t.path in
        let y = resolve_read_value b.view t.path in
        let z = resolve_read_value c.view t.path in
        decided-Passes (term_less t.direction x y) (term_less t.direction y z)
          (term_less t.direction x z) (less ts a b) (less ts b c) (less ts a c)
          (term_less-Passes t.direction (kinds t.path) x y z ha hb hc)
          (less-weak kinds ts a b c has hbs hcs) h k

module _ {A : Type 0} (P : A → Type 0) (p : A → Bool) (sound : (x : A) → P x → p x ≡ true) where
  all_of : (xs : List A) → All P xs → all p xs ≡ true
  all_of [] h = refl
  all_of (x ∷ xs) (h, hs) = rw (sound x h, all_of xs hs) refl

either_side : (l r o : Bool) → (l ≡ false → r ≡ false → o ≡ false) → (l || r || not o) ≡ true
either_side l r o h = ground arith

both_true : (l r : Bool) → l ≡ true → r ≡ true → (l && r) ≡ true
both_true l r h k = ground arith

never_both : (l r : Bool) → (l ≡ true → r ≡ false) → not (l && r) ≡ true
never_both l r h = ground arith

-- If no two numbers are each below the other and what is not below is transitive (as where no number is a NaN), and
-- each path that is sorted by has values of one kind in all entities where it has one, numbers, truth values or
-- values compared by their printed forms, then the test of the sort is a strict weak order of the entities.
pub less-is_strict_weak :
    {S : Scalars} (kinds : String → Kind) (terms : List SortTerm) (entities : List (EntityView S))
    → IsAsymmetric S
    → IsWeak S
    → All (IsTyped kinds terms) entities
    → is_strict_weak (less terms) entities ≡ true
less-is_strict_weak {S} kinds terms entities asym weak typed =
    let lt = less {S = S} terms in
    let third = λ (a b : EntityView S). all (λ c. lt a b || lt b c || not (lt a c)) entities in
    let third_of = λ (a b : EntityView S) (ha : IsTyped kinds terms a) (hb : IsTyped kinds terms b).
      all_of (IsTyped kinds terms) (λ c. lt a b || lt b c || not (lt a c))
        (λ c hc.
          either_side (lt a b) (lt b c) (lt a c) (less-weak weak asym kinds terms a b c ha hb hc))
        entities typed in
    let second = λ (a b : EntityView S). not (lt a b && lt b a) && third a b in
    all_of (IsTyped kinds terms) (λ a. all (second a) entities)
      (λ a ha.
        all_of (IsTyped kinds terms) (second a)
          (λ b hb.
            both_true (not (lt a b && lt b a)) (third a b)
              (never_both (lt a b) (lt b a) (less-asym asym terms a b)) (third_of a b ha hb))
          entities typed)
      entities typed
