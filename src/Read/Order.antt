-- ===== src/Read/Order.antt =====
-- internal/application/readmodel/ordering/sort.go: how entities are compared and put in order.
pub mod Contract
pub mod Compare
pub mod Total
pub mod Stable
pub mod Uniform
use Prim.Native.Nat.{Ordering}
use spec_cli.Common.{String, Bool, true, false, not, Option, none, some, List, [], ◌∷◌}
use spec_cli.Common.{◌||◌, ◌&&◌, ◌==◌, string_eq, if◌then◌else◌}
use spec_cli.Common.Text.{str_lt}
use spec_cli.Values.{Scalars, Value, null, bool, num, str, object, Fields, at, render}
use spec_cli.Read.Sort.{Direction, asc, desc, SortTerm, is_asc}
use spec_cli.Read.Select.{split_dots}

-- `EntityView`
pub record EntityView (S : Scalars) : Type 0 where
  pub type_name : String
  pub id : String
  pub view : Fields S
  pub where_context : Fields S
  pub duplicate_section_labels : List String

-- `switch { case a < b: -1; case a > b: 1; default: 0 }`
abbrev pub three_way : Bool → Bool → Ordering
three_way below above = if below then Ordering.lt else if above then Ordering.gt else Ordering.eq

compare_texts : String → String → Ordering
compare_texts a b = three_way (str_lt a b) (str_lt b a)

compare_bools : Bool → Bool → Ordering
compare_bools true true = Ordering.eq
compare_bools false false = Ordering.eq
compare_bools false true = Ordering.lt
compare_bools true false = Ordering.gt

unfoldable pub compare_literal_values : {S : Scalars} → Value S → Value S → Ordering
unfolding compare_texts compare_bools
compare_literal_values {S} (num m) (num n) = three_way (S.num_lt m n) (S.num_lt n m)
compare_literal_values (str s) (str t) = compare_texts s t
compare_literal_values (bool a) (bool b) = compare_bools a b
compare_literal_values a b = compare_texts (render a) (render b)

abbrev is_reported_leaf : String → Bool
is_reported_leaf leaf = leaf == "type" || leaf == "slug" || leaf == "reason"

-- `isOptionalRefLeaf`, on the parts of the path.
unfoldable pub is_optional_ref_leaf : List String → Bool
is_optional_ref_leaf (ns ∷ field ∷ leaf ∷ []) = ns == "refs" && is_reported_leaf leaf
is_optional_ref_leaf _ = false

-- A null at an optional leaf of a reference counts as absent.
unfoldable pub present_value : {S : Scalars} → Bool → Option (Value S) → Option (Value S)
present_value true (some null) = none
present_value _ o = o

unfoldable pub resolve_read_value : {S : Scalars} → Fields S → String → Option (Value S)
unfolding is_optional_ref_leaf present_value split_dots
resolve_read_value view path =
    present_value (is_optional_ref_leaf (split_dots path)) (at (object view) (split_dots path))

-- What one term says of two values: `some` decides, `none` passes on to the next term.
unfoldable pub term_less :
    {S : Scalars} → Direction → Option (Value S) → Option (Value S) → Option Bool
term_less d none none = none
term_less d none (some _) = some (is_asc d)
term_less d (some _) none = some (not (is_asc d))
term_less d (some v) (some w) = elim (compare_literal_values v w) [
  | Ordering.eq ↦ none
  | Ordering.lt ↦ some (is_asc d)
  | Ordering.gt ↦ some (not (is_asc d))
]

abbrev pub decided_or : Option Bool → Bool → Bool
decided_or (some decided) rest = decided
decided_or none rest = rest

-- The function that `SortEntities` sorts by.
unfoldable pub less : {S : Scalars} → List SortTerm → EntityView S → EntityView S → Bool
unfolding term_less
less [] a b = false
less (t ∷ ts) a b =
    decided_or
      (term_less t.direction (resolve_read_value a.view t.path) (resolve_read_value b.view t.path))
      (less ts a b)

unfoldable pub sort_entities :
    {S : Scalars} → List (EntityView S) → List SortTerm → List (EntityView S)
unfolding less
sort_entities {S} entities terms = S.slice_stable (EntityView S) (less terms) entities
