-- ===== src/Values.antt =====
-- internal/application/values/values.go: the dynamic values decoded from YAML (`any` in the source).
-- Go's numeric kinds and `time.Time` are parameters, with the operations the source applies to them.
pub mod Laws
pub mod Entries
use spec_cli.Common.{ℕ, String, ◌<>◌, Bool, true, false, not, Option, none, some, List, [], ◌∷◌}
use spec_cli.Common.{◌==◌, string_eq, bool_eq, if◌then◌else◌}
use spec_cli.Common.{map, sort_by}
use spec_cli.Common.Text.{join, str_lt}

-- What the standard library does with numbers (`float64(x)`, `<`, `==`, `%v`), with times and with slices.
pub record Scalars : Type 1 where
  pub Num : Type 0
  pub Time : Type 0
  pub num_eq : Num → Num → Bool
  pub num_lt : Num → Num → Bool
  pub num_text : Num → String
  -- `x == float64(int(x))`
  pub num_is_integer : Num → Bool
  pub time_eq : Time → Time → Bool
  -- `t.Format("2006-01-02")`
  pub date_text : Time → String
  -- `fmt.Sprintf("%v", t)`
  pub time_text : Time → String
  -- `sort.SliceStable`: the slice that is left in place of the given one.
  pub slice_stable : (A : Type 0) → (A → A → Bool) → List A → List A

mutual
  pub data Value (S : Scalars) : Type 0 where
    null : Value S
    bool : Bool → Value S
    num : S.Num → Value S
    time : S.Time → Value S
    str : String → Value S
    list : Items S → Value S
    object : Fields S → Value S

  pub data Items (S : Scalars) : Type 0 where
    nil : Items S
    cons : Value S → Items S → Items S

  pub data Fields (S : Scalars) : Type 0 where
    end : Fields S
    field : String → Value S → Fields S → Fields S

module _ {S : Scalars} where
  abbrev pub items : Items S → List (Value S)
  items nil = []
  items (cons v vs) = v ∷ items vs

  -- `v, ok := m[k]`
  unfoldable pub find : String → Fields S → Option (Value S)
  find k end = none
  find k (field j v fs) = if j == k then some v else find k fs

  -- `values.isFalse`; the kinds that reflection covers beyond these do not come out of YAML.
  unfoldable pub is_false : Value S → Bool
  is_false null = true
  is_false (bool b) = not b
  is_false (num n) = false
  is_false (time t) = false
  is_false (str s) = s == ""
  is_false (list nil) = true
  is_false (list (cons _ _)) = false
  is_false (object end) = true
  is_false (object (field _ _ _)) = false

  unfoldable pub is_truthy : Value S → Bool
  unfolding is_false
  is_truthy v = not (is_false v)

-- The value at a dotted path, read down through maps.
unfoldable pub at : {S : Scalars} → Value S → List String → Option (Value S)
at v [] = some v
at (object fs) (k ∷ path) = elim (find k fs) [ none ↦ none | some w ↦ at w path ]
at v (k ∷ path) = none

unfoldable mutual
  pub deep_copy : {S : Scalars} → Value S → Value S
  deep_copy null = null
  deep_copy (bool b) = bool b
  deep_copy (num n) = num n
  deep_copy (time t) = time t
  deep_copy (str s) = str s
  deep_copy (list vs) = list (copy_items vs)
  deep_copy (object fs) = object (copy_fields fs)

  pub copy_items : {S : Scalars} → Items S → Items S
  copy_items nil = nil
  copy_items (cons v vs) = cons (deep_copy v) (copy_items vs)

  pub copy_fields : {S : Scalars} → Fields S → Fields S
  copy_fields end = end
  copy_fields (field k v fs) = field k (deep_copy v) (copy_fields fs)

unfoldable mutual
  pub normalize_value : {S : Scalars} → Value S → Value S
  normalize_value null = null
  normalize_value (bool b) = bool b
  normalize_value (num n) = num n
  normalize_value {S} (time t) = str (S.date_text t)
  normalize_value (str s) = str s
  normalize_value (list vs) = list (normalize_items vs)
  normalize_value (object fs) = object (normalize_fields fs)

  pub normalize_items : {S : Scalars} → Items S → Items S
  normalize_items nil = nil
  normalize_items (cons v vs) = cons (normalize_value v) (normalize_items vs)

  -- The loop of `NormalizeMap` too.
  pub normalize_fields : {S : Scalars} → Fields S → Fields S
  normalize_fields end = end
  normalize_fields (field k v fs) = field k (normalize_value v) (normalize_fields fs)

-- `fmt.Sprintf("%v", v)`: a map is printed in the order of its keys.
unfoldable mutual
  unfolding join sort_by str_lt

  texts_of_items : {S : Scalars} → Items S → List String
  texts_of_items nil = []
  texts_of_items (cons v vs) = render v ∷ texts_of_items vs

  texts_of_fields : {S : Scalars} → Fields S → List (String × String)
  texts_of_fields end = []
  texts_of_fields (field k v fs) = (k, render v) ∷ texts_of_fields fs

  pub render : {S : Scalars} → Value S → String
  render null = "<nil>"
  render (bool b) = if b then "true" else "false"
  render {S} (num n) = S.num_text n
  render {S} (time t) = S.time_text t
  render (str s) = s
  render (list vs) = "[" <> join " " (texts_of_items vs) <> "]"
  render (object fs) =
      "map["
      <> join " "
          (map (λ (k, v). k <> ":" <> v) (sort_by (λ a b. str_lt a.0 b.0) (texts_of_fields fs)))
      <> "]"
