-- ===== src/Read/Order/Stable.antt =====
-- internal/application/readmodel/ordering/sort.go: where an entity stands in the list that sorting leaves.
use mathlib.Core.List.{Perm}
use Prim.Native.Nat.{Ordering}
use spec_cli.Common.{
  ◌≡◌, ◌≢◌, refl, subst, String, Bool, true, false, Option, none, some, List, [], ◌∷◌, arith,
}
use spec_cli.Common.Text.{str_lt}
use spec_cli.Values.{Scalars, Value, num, str, bool}
use spec_cli.Read.Sort.{Direction, asc, desc, SortTerm}
use spec_cli.Read.Order.{
  EntityView, compare_literal_values, term_less, decided_or, less, resolve_read_value,
  sort_entities,
}
use spec_cli.Read.Order.Contract.{is_strict_weak, Pairwise, Pairwise-weaken, Sorts}
use spec_cli.Read.Order.Compare.{IsAsymmetric, swap, compare_literal_values-swap}

swap_fixed : (o : Ordering) → o ≡ swap o → o ≡ Ordering.eq
swap_fixed Ordering.lt h = cc
swap_fixed Ordering.eq h = refl
swap_fixed Ordering.gt h = cc

passed_on : (o : Option Bool) (rest : Bool) → o ≡ none → decided_or o rest ≡ false → rest ≡ false
passed_on o rest e h = ground arith

module _ (S : Scalars) where
  numbers_ascend :
      (m n : S.Num)
      → term_less {S = S} asc (some (num n)) (some (num m)) ≢ some true
      → S.num_lt n m ≡ false
  unfolding term_less compare_literal_values
  numbers_ascend m n h = ground arith

  texts_ascend :
      (s t : String)
      → term_less {S = S} asc (some (str t)) (some (str s)) ≢ some true
      → str_lt t s ≡ false
  unfolding term_less compare_literal_values spec_cli.Read.Order.compare_texts
  texts_ascend s t h = ground arith

  true_last : term_less {S = S} asc (some (bool false)) (some (bool true)) ≡ some true
  unfolding term_less compare_literal_values spec_cli.Read.Order.compare_bools
  true_last = refl

module _ {S : Scalars} where
  -- An ascending order allows the first value in front of the second: an absent value comes first, and
  -- numbers, texts and truth values do not fall.
  abbrev pub Ascends : Option (Value S) → Option (Value S) → Type 0
  Ascends x y =
      (y ≡ none → x ≡ none)
      × ((m n : S.Num) → x ≡ some (num m) → y ≡ some (num n) → S.num_lt n m ≡ false)
      × ((s t : String) → x ≡ some (str s) → y ≡ some (str t) → str_lt t s ≡ false)
      × (x ≡ some (bool true) → y ≢ some (bool false))

  abbrev pub Leads : Direction → Option (Value S) → Option (Value S) → Type 0
  Leads asc x y = Ascends x y
  Leads desc x y = Ascends y x

  -- The first entity may stand in front of the second: by the first term, and by the next ones as long
  -- as the values of the terms are the same.
  abbrev pub Placed : List SortTerm → EntityView S → EntityView S → Type 0
  Placed [] a b = Unit {0}
  Placed (t ∷ ts) a b =
      Leads t.direction (resolve_read_value a.view t.path) (resolve_read_value b.view t.path)
      × (resolve_read_value a.view t.path ≡ resolve_read_value b.view t.path → Placed ts a b)

  absent_first : (x : Option (Value S)) → term_less asc none x ≢ some true → x ≡ none
  unfolding term_less
  absent_first none h = refl
  absent_first (some v) h = absurd (h refl)

  term_less-Ascends : (x y : Option (Value S)) → term_less asc y x ≢ some true → Ascends x y
  term_less-Ascends x y h = (
    λ e. absent_first x (subst (λ o. term_less asc o x ≢ some true) e h),
    λ m n e f. numbers_ascend S m n (rw (← e, ← f) h),
    λ s t e f. texts_ascend S s t (rw (← e, ← f) h),
    λ e f. h (rw (e, f) (true_last S)),
  )

  desc_of_swap :
      (v w : Value S)
      → compare_literal_values w v ≡ swap (compare_literal_values v w)
      → term_less desc (some w) (some v) ≡ term_less asc (some v) (some w)
  unfolding term_less
  desc_of_swap v w h = ground arith

  module _ (asym : IsAsymmetric S) where
    pub term_less-desc : (x y : Option (Value S)) → term_less {S = S} desc y x ≡ term_less asc x y
    unfolding term_less
    term_less-desc none none = refl
    term_less-desc none (some w) = refl
    term_less-desc (some v) none = refl
    term_less-desc (some v) (some w) = desc_of_swap v w (compare_literal_values-swap asym v w)

    term_less-Leads :
        (d : Direction) (x y : Option (Value S)) → term_less d y x ≢ some true → Leads d x y
    term_less-Leads asc x y h = term_less-Ascends x y h
    term_less-Leads desc x y h = term_less-Ascends y x (rw (← term_less-desc x y) h)

    term_less-same : (d : Direction) (x : Option (Value S)) → term_less d x x ≡ none
    unfolding term_less
    term_less-same d none = refl
    term_less-same d (some v) =
        ground
          (arith, swap_fixed (compare_literal_values v v) (compare_literal_values-swap asym v v))

    less-Placed : (ts : List SortTerm) (a b : EntityView S) → less ts b a ≡ false → Placed ts a b
    unfolding less
    less-Placed [] a b h = tt
    less-Placed (t ∷ ts) a b h =
        let x = resolve_read_value a.view t.path in
        let y = resolve_read_value b.view t.path in
        (
          term_less-Leads t.direction x y (λ e. absurd (ground arith)),
          λ same. less-Placed ts a b (
              passed_on (term_less t.direction y x) (less ts b a)
                (subst (λ z. term_less t.direction z x ≡ none) same (term_less-same t.direction x))
                h),
        )

-- If no two numbers are each below the other, sort.SliceStable sorts the matches whenever the code's test is a
-- strict weak order of them, and it is one of these, then the matches come back rearranged, and of any two the one
-- in front may stand there: in an ascending order an absent value comes before every other one and numbers, texts
-- and truth values do not fall, in a descending one the reverse, and the same by each later term while the values of
-- the terms before it are the same.
pub sort_entities-Placed :
    {S : Scalars} (entities : List (EntityView S)) (terms : List SortTerm)
    → IsAsymmetric S
    → Sorts S (less terms) entities
    → is_strict_weak (less terms) entities ≡ true
    → Perm (sort_entities entities terms) entities
      × Pairwise (Placed terms) (sort_entities entities terms)
unfolding sort_entities
sort_entities-Placed {S} entities terms asym sorts weak = (
  sorts.0,
  Pairwise-weaken (λ a b. less terms b a ≡ false) (Placed terms) (less-Placed asym terms)
      (S.slice_stable (EntityView S) (less terms) entities) (sorts.1 weak),
)
