-- ===== src/Write/Values/Shape.antt =====
-- internal/application/commands/internal/writeops/resolve.go: the form of the value that an operation resolves to.
use spec_cli.Common.{String, ◌≡◌, refl, sym, subst, Bool, true, false, inl, inr}
use spec_cli.Common.{◌==◌, string_eq, Bool-cases}
use spec_cli.Common.Text.{trim_space}
use spec_cli.Errors.{Gives, Gives-bind, Gives-map, Gives-any}
use spec_cli.Values.{Scalars, Value, null, bool, num, time, str, list, object}
use spec_cli.Write.{
  WriteOperation, WriteOperationKind, set, set_file, unset, WritePathKind, meta, ref, section,
  WritePathSpec, MetaField, EntityTypeSpec,
}
use spec_cli.Write.Values.{
  Read, contents, unreadable, resolve_value, read_source, value_for, field_of, entity_ids,
  entity_id_list, entity_id, parsed_value, contract_violation,
}

abbrev pub is_text : {S : Scalars} → Value S → Bool
is_text (str _) = true
is_text null = false
is_text (bool _) = false
is_text (num _) = false
is_text (time _) = false
is_text (list _) = false
is_text (object _) = false

abbrev pub is_list : {S : Scalars} → Value S → Bool
is_list (list _) = true
is_list null = false
is_list (bool _) = false
is_list (num _) = false
is_list (time _) = false
is_list (str _) = false
is_list (object _) = false

-- A value has the form that its path asks for; the flag says that the field is an array of references.
abbrev pub has_form : {S : Scalars} → Bool → WritePathKind → Value S → Bool
has_form _ meta v = true
has_form true ref v = is_list v
has_form false ref v = is_text v
has_form _ section v = is_text v

pub read_source-text :
    (S : Scalars) (path : String) (r : Read String)
    → Gives (λ v. is_text v ≡ true) (read_source {S = S} path r)
unfolding read_source
read_source-text S path (contents s) = refl
read_source-text S path (unreadable _) = tt

entity_id_list-list :
    (S : Scalars) (path : String) (v : Value S)
    → Gives (λ w. is_list w ≡ true) (entity_id_list path v)
unfolding entity_id_list contract_violation
entity_id_list-list S path (list vs) =
    Gives-bind (λ _. Unit {0}) (λ w. is_list w ≡ true) (entity_ids path 0 vs) _
      (Gives-any (entity_ids path 0 vs)) λ ids _. refl
entity_id_list-list S path null = tt
entity_id_list-list S path (bool _) = tt
entity_id_list-list S path (num _) = tt
entity_id_list-list S path (time _) = tt
entity_id_list-list S path (str _) = tt
entity_id_list-list S path (object _) = tt

entity_id-text :
    (S : Scalars) (path raw : String) → Gives (λ w. is_text {S = S} w ≡ true) (entity_id path raw)
unfolding entity_id contract_violation
entity_id-text S path raw = elim (Bool-cases (trim_space raw == "")) [
  | inl e ↦ rw e tt
  | inr e ↦ rw e refl
]

-- Only the path of a section takes its value from a file.
abbrev pub FileOnly : WriteOperationKind → WritePathKind → Type 0
FileOnly set_file at = at ≡ section
FileOnly set at = Unit {0}
FileOnly unset at = Unit {0}

module _ {S : Scalars} (read_file : String → Read String)
    (parse_yaml : String → Read (Value S)) where
  ref_value-has_form :
      (op : WriteOperation) (field : MetaField) (many : Bool)
      → field.is_entity_ref_array ≡ many
      → Gives (λ v. has_form many ref v ≡ true) (value_for read_file parse_yaml op field ref)
  unfolding value_for
  ref_value-has_form op field true h = rw h (
      Gives-bind (λ _. Unit {0}) (λ v. is_list v ≡ true)
        (parsed_value op.path (parse_yaml op.raw_value)) _
        (Gives-any (parsed_value op.path (parse_yaml op.raw_value)))
        λ v _. entity_id_list-list S op.path v)
  ref_value-has_form op field false h = rw h (entity_id-text S op.path op.raw_value)

  value_for-has_form :
      (op : WriteOperation) (field : MetaField) (at : WritePathKind)
      → Gives
          (λ v. has_form field.is_entity_ref_array at v ≡ true)
          (value_for read_file parse_yaml op field at)
  unfolding value_for
  value_for-has_form op field meta =
      Gives-map (λ _. Unit {0}) (λ _. true ≡ true) (λ _ _. refl) _ (Gives-any _)
  value_for-has_form op field ref = ref_value-has_form op field field.is_entity_ref_array refl
  value_for-has_form op field section = refl

  section_has_form :
      (many : Bool) (at : WritePathKind) (v : Value S)
      → at ≡ section
      → is_text v ≡ true
      → has_form many at v ≡ true
  section_has_form many at v s t = subst (λ k. has_form many k v ≡ true) (sym s) t

  pub resolve_value-has_form :
      (op : WriteOperation) (at : WritePathSpec) (spec : EntityTypeSpec) (kind : WriteOperationKind)
      → op.kind ≡ kind
      → FileOnly kind at.kind
      → Gives
          (λ v. has_form (field_of at.field_name spec).is_entity_ref_array at.kind v ≡ true)
          (resolve_value read_file parse_yaml op at spec)
  unfolding resolve_value
  resolve_value-has_form op at spec set h s =
      rw h (value_for-has_form op (field_of at.field_name spec) at.kind)
  resolve_value-has_form op at spec unset h s =
      rw h (value_for-has_form op (field_of at.field_name spec) at.kind)
  resolve_value-has_form op at spec set_file h s = rw h (
      Gives-map (λ v. is_text v ≡ true)
        (λ v. has_form (field_of at.field_name spec).is_entity_ref_array at.kind v ≡ true)
        (λ v t. section_has_form (field_of at.field_name spec).is_entity_ref_array at.kind v s t)
        (read_source op.path (read_file op.raw_value))
        (read_source-text S op.path (read_file op.raw_value)))
