-- ===== src/Refs/Classify.antt =====
-- internal/application/entityrefs/refs.go: what a reference points at, as a read reports it.
use spec_cli.Common.{
  String, Bool, true, false, Option, none, some, List, [], ◌∷◌, ◌≡◌, refl, ◌↔◌, ◌≢◌, arith,
}
use spec_cli.Common.{◌==◌, string_eq, if◌then◌else◌, select, length, ◌<◌, all}
use spec_cli.Common.Dict.{Dict, lookup, contains}
use spec_cli.Common.Text.{trim_space}
use spec_cli.Values.{Scalars, Value, str, object, find}
use spec_cli.Read.Capability.{RefField}

pub record Identity : Type 0 where
  pub type_name : String
  pub id : String
  pub slug : String

pub data Reason : Type 0 where
  missing type_mismatch ambiguous : Reason

-- `Ref`; type, slug and reason are null where they are `none`.
pub record Ref : Type 0 where
  pub id : String
  pub resolved : Bool
  pub type_name : Option String
  pub slug : Option String
  pub reason : Option Reason

abbrev pub Index : Type 0
Index = Dict (List Identity)

-- `idIndex[targetID]`
abbrev pub targets_of : Option (List Identity) → List Identity
targets_of none = []
targets_of (some ts) = ts

-- `filterByTypes`
unfoldable pub filter_by_types : List Identity → List String → List Identity
filter_by_types targets [] = targets
filter_by_types targets (t ∷ ts) = select (λ target. contains (t ∷ ts) target.type_name) targets

abbrev hint_of : List Identity → Option String
hint_of [] = none
hint_of (t ∷ ts) = if all (λ u. u.type_name == t.type_name) ts then some t.type_name else none

-- `typeHint`
unfoldable pub type_hint : List Identity → List String → Option String
type_hint targets (only ∷ []) = some only
type_hint targets _ = hint_of targets

-- The reason for which a reference is not resolved.
reason_of : List Identity → List Identity → Reason
reason_of [] compatible = missing
reason_of (_ ∷ _) [] = type_mismatch
reason_of (_ ∷ _) (_ ∷ _) = ambiguous

classified : String → List String → List Identity → List Identity → Ref
unfolding reason_of type_hint
classified target_id allowed targets (t ∷ []) = record {
  id = target_id;
  resolved = true;
  type_name = some t.type_name;
  slug = some t.slug;
  reason = none;
}
classified target_id allowed targets compatible = record {
  id = target_id;
  resolved = false;
  type_name = type_hint compatible allowed;
  slug = none;
  reason = some (reason_of targets compatible);
}

-- `Classify`
unfoldable pub classify : String → RefField → Index → Ref
unfolding classified filter_by_types lookup
classify target_id spec index =
    let targets = targets_of (lookup target_id index) in
    classified target_id spec.allowed_types targets (filter_by_types targets spec.allowed_types)

-- `normalizeID`
normalize_id : String → Option String
unfolding trim_space
normalize_id raw = if trim_space raw == "" then none else some (trim_space raw)

id_text : {S : Scalars} → Option (Value S) → Option String
unfolding normalize_id
id_text (some (str s)) = normalize_id s
id_text _ = none

-- `ReadID`
unfoldable pub read_id : {S : Scalars} → Value S → Option String
unfolding id_text
read_id (str s) = normalize_id s
read_id (object fs) = id_text (find "id" fs)
read_id _ = none

abbrev Cases : List Identity → List Identity → Ref → Type 0
Cases targets compatible ref =
    ((ref.resolved ≡ true) ↔ (length compatible ≡ 1))
    × ((ref.reason ≡ some missing) ↔ (targets ≡ []))
    × ((ref.reason ≡ some type_mismatch) ↔ ((targets ≢ []) × (compatible ≡ [])))
    × ((ref.reason ≡ some ambiguous) ↔ (1 < length compatible))

classified-Cases :
    (target_id : String) (allowed : List String) (targets compatible : List Identity)
    → (targets ≡ [] → compatible ≡ [])
    → Cases targets compatible (classified target_id allowed targets compatible)
unfolding classified
classified-Cases id allowed [] [] h = (ground arith, ground arith, ground arith, ground arith)
classified-Cases id allowed (t ∷ ts) [] h = (ground arith, ground arith, ground arith, ground arith)
classified-Cases id allowed [] (c ∷ cs) h = absurd (ground (arith, h refl))
classified-Cases id allowed (t ∷ ts) (c ∷ []) h =
    (ground arith, ground arith, ground arith, ground arith)
classified-Cases id allowed (t ∷ ts) (c ∷ d ∷ cs) h =
    (ground arith, ground arith, ground arith, ground arith)

filter_by_types-nil : (allowed : List String) → filter_by_types [] allowed ≡ []
unfolding filter_by_types
filter_by_types-nil [] = refl
filter_by_types-nil (t ∷ ts) = refl

-- The three reasons and the resolved case, by the number of entities with the id and of those with an
-- allowed type among them: resolved exactly at one allowed, missing exactly at none at all, a type
-- mismatch exactly at some but none allowed, and ambiguous exactly at several allowed.
pub classify_cases :
    (target_id : String) (spec : RefField) (index : Index)
    → let targets = targets_of (lookup target_id index) in
      let compatible = filter_by_types targets spec.allowed_types in
      let ref = classify target_id spec index in
      ((ref.resolved ≡ true) ↔ (length compatible ≡ 1))
      × ((ref.reason ≡ some missing) ↔ (targets ≡ []))
      × ((ref.reason ≡ some type_mismatch) ↔ ((targets ≢ []) × (compatible ≡ [])))
      × ((ref.reason ≡ some ambiguous) ↔ (1 < length compatible))
unfolding classify
classify_cases target_id spec index =
    let targets = targets_of (lookup target_id index) in
    classified-Cases target_id spec.allowed_types targets
      (filter_by_types targets spec.allowed_types)
      (λ e. rw e (filter_by_types-nil spec.allowed_types))
