-- ===== src/Write/Values.antt =====
-- internal/application/commands/internal/writeops/resolve.go: the value that one operation writes.
pub mod Laws
pub mod Shape
use spec_cli.Common.{
  ℕ, suc, String, ◌<>◌, Bool, true, false, not, Option, none, some, List, [], ◌∷◌,
}
use spec_cli.Common.{◌==◌, ◌&&◌, string_eq, if◌then◌else◌}
use spec_cli.Common.Dict.{Dict, lookup}
use spec_cli.Common.Text.{trim_space}
use spec_cli.Errors
use spec_cli.Errors.{Code, Result, ok, fail, text, count, ◌>>=◌}
use spec_cli.Values.{
  Scalars, Value, null, bool, num, time, str, list, object, Items, nil, cons, Fields,
  normalize_value,
}
use spec_cli.Write.{
  WriteOperation, WriteOperationKind, set, set_file, unset, WritePathSpec, WritePathKind, meta, ref,
  section, MetaField, EntityTypeSpec,
}

-- What `os.ReadFile` and the decoder of YAML answer.
pub data Read (A : Type 0) : Type 0 where
  contents : A → Read A
  unreadable : String → Read A

contract_violation {ℓ} : {A : Type ℓ} → String → List (String × Errors.Detail) → Result A
unfolding Errors.new
contract_violation message details = fail (Errors.new Code.write_contract_violation message details)

not_an_id {ℓ} : {A : Type ℓ} → String → ℕ → Result A
unfolding contract_violation
not_an_id path idx =
    contract_violation ("value for path '" <> path <> "' must contain non-empty string entity ids")
      (("path", text path) ∷ ("index", count idx) ∷ [])

module _ {S : Scalars} where
  -- The test of `IsTypeCompatible` on the normalized value.
  compatible : String → Value S → Bool
  unfolding trim_space
  compatible kind (str s) =
      if kind == "string" then true else kind == "entityRef" && not (trim_space s == "")
  compatible kind (num n) = if kind == "integer" then S.num_is_integer n else kind == "number"
  compatible kind (bool b) = kind == "boolean"
  compatible kind (list vs) = kind == "array"
  compatible kind _ = false

  -- `IsTypeCompatible`
  unfoldable pub is_type_compatible : MetaField → Value S → Bool
  unfolding compatible normalize_value
  is_type_compatible field v = compatible field.field_type (normalize_value v)

  described : Value S → String
  described null = "null"
  described (str _) = "string"
  described (bool _) = "boolean"
  described (list _) = "array"
  described (num _) = "number"
  described (time _) = "time.Time"
  described (object _) = "map[string]interface {}"

  -- `DescribeValueType`
  unfoldable pub describe_value_type : Value S → String
  unfolding described normalize_value
  describe_value_type v = described (normalize_value v)

  -- The loop over the ids, from an index on.
  unfoldable pub entity_ids : String → ℕ → Items S → Result (Items S)
  unfolding not_an_id trim_space
  entity_ids path idx nil = ok nil
  entity_ids path idx (cons (str s) vs) =
      let rest = entity_ids path (suc idx) vs in
      if trim_space s == ""
      then not_an_id path idx
      else rest >>= λ ids. ok (cons (str (trim_space s)) ids)
  entity_ids path idx (cons _ vs) = not_an_id path idx

  entity_id_list : String → Value S → Result (Value S)
  unfolding entity_ids contract_violation describe_value_type
  entity_id_list path (list vs) = entity_ids path 0 vs >>= λ ids. ok (list ids)
  entity_id_list path v =
      contract_violation ("value for path '" <> path <> "' must be array of entity ids") (
        ("path", text path)
        ∷ ("expected_type", text "array")
        ∷ ("actual_type", text (describe_value_type v))
        ∷ [])

  parsed_value : String → Read (Value S) → Result (Value S)
  unfolding contract_violation
  parsed_value path (contents v) = ok v
  parsed_value path (unreadable reason) =
      contract_violation ("failed to parse value for path '" <> path <> "'")
        (("path", text path) ∷ ("reason", text reason) ∷ [])

  meta_value : String → MetaField → Value S → Result (Value S)
  unfolding contract_violation is_type_compatible describe_value_type normalize_value
  meta_value path field v =
      if is_type_compatible field v
      then ok (normalize_value v)
      else contract_violation
          ("value for path '" <> path <> "' does not match schema type '" <> field.field_type
            <> "'")
          (("path", text path)
            ∷ ("expected_type", text field.field_type)
            ∷ ("actual_type", text (describe_value_type v))
            ∷ [])

  unfoldable pub read_source : String → Read String → Result (Value S)
  unfolding Errors.new
  read_source path (contents s) = ok (str s)
  read_source path (unreadable reason) = fail (
      Errors.new Code.write_failed "failed to read --set-file source"
        (("path", text path) ∷ ("reason", text reason) ∷ []))

  entity_id : String → String → Result (Value S)
  unfolding contract_violation trim_space
  entity_id path raw =
      if trim_space raw == ""
      then contract_violation ("path '" <> path <> "' requires non-empty target entity id")
          (("path", text path) ∷ [])
      else ok (str (trim_space raw))

abbrev empty_field : MetaField
empty_field = record {
  name = "";
  field_type = "";
  is_entity_ref = false;
  is_entity_ref_array = false;
  ref_types = [];
  item_ref_types = [];
}

-- `typeSpec.MetaFields[name]`, the zero value where the field is not there.
abbrev pub field_of : String → EntityTypeSpec → MetaField
field_of name spec = elim (lookup name spec.meta_fields) [ none ↦ empty_field | some f ↦ f ]

module _ {S : Scalars} (read_file : String → Read String)
    (parse_yaml : String → Read (Value S)) where
  -- The switch on the kind of the path.
  unfoldable pub value_for : WriteOperation → MetaField → WritePathKind → Result (Value S)
  unfolding parsed_value meta_value entity_id_list entity_id
  value_for op field meta =
      parsed_value op.path (parse_yaml op.raw_value) >>= meta_value op.path field
  value_for op field ref =
      if field.is_entity_ref_array
      then parsed_value op.path (parse_yaml op.raw_value) >>= entity_id_list op.path
      else entity_id op.path op.raw_value
  value_for op field section = ok (str op.raw_value)

  -- `ResolveValue`
  unfoldable pub resolve_value : WriteOperation → WritePathSpec → EntityTypeSpec → Result (Value S)
  unfolding read_source value_for
  resolve_value op path spec = elim op.kind [
    | set_file ↦ read_source op.path (read_file op.raw_value)
    | set ↦ value_for op (field_of path.field_name spec) path.kind
    | unset ↦ value_for op (field_of path.field_name spec) path.kind
  ]
