-- ===== src/Read/Order/Uniform.antt =====
-- internal/application/readmodel/ordering/sort.go on fields of one kind each.
pub mod Weak
use Prim.Native.Nat.{Ordering}
use spec_cli.Common.{
  ◌≡◌, ◌≢◌, refl, sym, ◌∙◌, ap, subst, String, Bool, true, false, not, ◌&&◌, ◌||◌, Option, none,
  some, List, [], ◌∷◌, arith, all, All, inl, inr, Bool-cases,
}
use spec_cli.Common.Text.{str_lt}
use spec_cli.Common.TextOrder.{str_lt_total, str_lt_trans}
use spec_cli.Values.{Scalars, Value, null, bool, num, time, str, list, object, render}
use spec_cli.Read.Sort.{Direction, asc, desc, SortTerm}
use spec_cli.Read.Order.{
  EntityView, three_way, compare_texts, compare_bools, compare_literal_values, term_less,
  decided_or, less, resolve_read_value,
}
use spec_cli.Read.Order.Contract.{is_strict_weak}
use spec_cli.Read.Order.Compare.{IsAsymmetric, less-asym}
use spec_cli.Read.Order.Stable.{term_less-desc}

-- The values that are compared in the same way.
pub data Kind : Type 0 where
  number : Kind
  truth : Kind
  rendered : Kind

-- What the code relies on about `<` on float64, where no number is a NaN.
abbrev pub IsWeak : Scalars → Type 0
IsWeak S = (a b c : S.Num) → S.num_lt a b ≡ false → S.num_lt b c ≡ false → S.num_lt a c ≡ false

module _ {S : Scalars} where
  abbrev pub of_kind : Kind → Value S → Bool
  of_kind number (num _) = true
  of_kind number _ = false
  of_kind truth (bool _) = true
  of_kind truth _ = false
  of_kind rendered (num _) = false
  of_kind rendered (bool _) = false
  of_kind rendered _ = true

  -- An absent value is of every kind.
  abbrev pub absent_or_of_kind : Kind → Option (Value S) → Bool
  absent_or_of_kind k none = true
  absent_or_of_kind k (some v) = of_kind k v

  -- The entity's value of every term has the kind of the term's path.
  abbrev pub IsTyped : (String → Kind) → List SortTerm → EntityView S → Type 0
  IsTyped kinds terms e =
      All (λ t. absent_or_of_kind (kinds t.path) (resolve_read_value e.view t.path) ≡ true) terms

-- Of three values in a row, what the comparisons of neighbours say of the outer two.
abbrev Chains : Ordering → Ordering → Ordering → Type 0
Chains c₁ c₂ c₃ =
    c₁ ≢ Ordering.lt
    → c₂ ≢ Ordering.lt
    → (c₃ ≢ Ordering.lt) × (c₃ ≡ Ordering.eq → (c₁ ≡ Ordering.eq) × (c₂ ≡ Ordering.eq))

module _ {A : Type 0} (lt : A → A → Bool)
    (weak : (a b c : A) → lt a b ≡ false → lt b c ≡ false → lt a c ≡ false) where
  three_way-Chains :
      (a b c : A)
      → Chains
          (three_way (lt a b) (lt b a))
          (three_way (lt b c) (lt c b))
          (three_way (lt a c) (lt c a))
  three_way-Chains a b c h k =
      let ab : lt a b ≡ false = ground arith in
      let bc : lt b c ≡ false = ground arith in
      let ac = weak a b c ab bc in
      (
        ground arith,
        λ e.
            let ca : lt c a ≡ false = ground arith in
            (rw (ab, weak b c a bc ca) refl, rw (bc, weak c a b ca ab) refl),
      )

str_lt-weak : (s t u : String) → str_lt s t ≡ false → str_lt t u ≡ false → str_lt s u ≡ false
str_lt-weak s t u h k = elim (Bool-cases (str_lt s u)) [
  | inr below ↦ below
  | inl above ↦ elim (Bool-cases (str_lt t s)) [
    | inl first ↦ absurd (ground (arith, str_lt_trans t s u first above))
    | inr same ↦
        absurd (ground (arith, subst (λ v. str_lt v u ≡ true) (str_lt_total s t h same) above))
  ]
]

bool_lt : Bool → Bool → Bool
bool_lt a b = not a && b

bool_lt-weak : (a b c : Bool) → bool_lt a b ≡ false → bool_lt b c ≡ false → bool_lt a c ≡ false
unfolding bool_lt
bool_lt-weak a b c h k = ground arith

compare_bools_lem : (a b : Bool) → compare_bools a b ≡ three_way (bool_lt a b) (bool_lt b a)
unfolding compare_bools bool_lt
compare_bools_lem true true = refl
compare_bools_lem true false = refl
compare_bools_lem false true = refl
compare_bools_lem false false = refl

module _ {S : Scalars} where
  compare_rendered :
      (v w : Value S)
      → of_kind rendered v ≡ true
      → of_kind rendered w ≡ true
      → compare_literal_values v w
        ≡ three_way (str_lt (render v) (render w)) (str_lt (render w) (render v))
  unfolding compare_literal_values compare_texts render
  compare_rendered (num m) w h k = cc
  compare_rendered (bool b) w h k = cc
  compare_rendered v (num n) h k = cc
  compare_rendered v (bool c) h k = cc
  compare_rendered (str s) (str t) h k = refl
  compare_rendered (str s) null h k = refl
  compare_rendered (str s) (time t) h k = refl
  compare_rendered (str s) (list l) h k = refl
  compare_rendered (str s) (object o) h k = refl
  compare_rendered null w h k = refl
  compare_rendered (time t) w h k = refl
  compare_rendered (list l) w h k = refl
  compare_rendered (object o) w h k = refl

  module _ (weak : IsWeak S) where
    number-Chains :
        (u v w : Value S)
        → of_kind number u ≡ true
        → of_kind number v ≡ true
        → of_kind number w ≡ true
        → Chains
            (compare_literal_values u v)
            (compare_literal_values v w)
            (compare_literal_values u w)
    unfolding compare_literal_values
    number-Chains (num l) (num m) (num n) h k j = three_way-Chains S.num_lt weak l m n
    number-Chains (num l) (num m) _ h k j = cc
    number-Chains (num l) _ w h k j = cc
    number-Chains _ v w h k j = cc

  truth-Chains :
      (u v w : Value S)
      → of_kind truth u ≡ true
      → of_kind truth v ≡ true
      → of_kind truth w ≡ true
      → Chains
          (compare_literal_values u v)
          (compare_literal_values v w)
          (compare_literal_values u w)
  unfolding compare_literal_values
  truth-Chains (bool a) (bool b) (bool c) h k j =
      rw (compare_bools_lem a b, compare_bools_lem b c, compare_bools_lem a c)
        (three_way-Chains bool_lt bool_lt-weak a b c)
  truth-Chains (bool a) (bool b) _ h k j = cc
  truth-Chains (bool a) _ w h k j = cc
  truth-Chains _ v w h k j = cc

  rendered-Chains :
      (u v w : Value S)
      → of_kind rendered u ≡ true
      → of_kind rendered v ≡ true
      → of_kind rendered w ≡ true
      → Chains
          (compare_literal_values u v)
          (compare_literal_values v w)
          (compare_literal_values u w)
  rendered-Chains u v w h k j =
      rw (compare_rendered u v h k, compare_rendered v w k j, compare_rendered u w h j)
        (three_way-Chains str_lt str_lt-weak (render u) (render v) (render w))

module _ {S : Scalars} (weak : IsWeak S) where
  compare-Chains :
      (k : Kind) (u v w : Value S)
      → of_kind k u ≡ true
      → of_kind k v ≡ true
      → of_kind k w ≡ true
      → Chains
          (compare_literal_values u v)
          (compare_literal_values v w)
          (compare_literal_values u w)
  compare-Chains number = number-Chains weak
  compare-Chains truth = truth-Chains
  compare-Chains rendered = rendered-Chains
