-- ===== src/Write/Values/Laws.antt =====
-- internal/application/commands/internal/writeops/resolve.go: values against the paths they are written to.
use spec_cli.Common.{ℕ, suc, ◌≡◌, ◌≢◌, refl, ◌⊎◌, subst, ap, String, Bool, true, false, not, arith}
use spec_cli.Common.{◌==◌, ◌&&◌, string_eq, if◌then◌else◌, Bool-cases, inl, inr}
use spec_cli.Errors.{Result-cases, >>=-eq-ok, ok-injective, ok}
use spec_cli.Values.{
  Scalars, Value, null, bool, num, time, str, list, object, Items, nil, cons, Fields,
}
use spec_cli.Values.{field, end, normalize_value, normalize_items, normalize_fields}
use spec_cli.Write.{
  WriteOperation, WriteOperationKind, set, set_file, unset, WritePathSpec, WritePathKind, meta, ref,
  section, MetaField, EntityTypeSpec,
}
use spec_cli.Write.Values.{
  Read, is_type_compatible, entity_ids, entity_id_list, entity_id, meta_value, parsed_value,
  field_of, value_for, resolve_value, not_an_id, contract_violation,
}

mutual
  unfolding normalize_value

  normalize_value_idem :
      {S : Scalars} (v : Value S) → normalize_value (normalize_value v) ≡ normalize_value v
  normalize_value_idem null = refl
  normalize_value_idem (bool b) = refl
  normalize_value_idem (num n) = refl
  normalize_value_idem (time t) = refl
  normalize_value_idem (str s) = refl
  normalize_value_idem (list vs) = ap list (normalize_items_idem vs)
  normalize_value_idem (object fs) = ap object (normalize_fields_idem fs)

  normalize_items_idem :
      {S : Scalars} (vs : Items S) → normalize_items (normalize_items vs) ≡ normalize_items vs
  normalize_items_idem nil = refl
  normalize_items_idem (cons v vs) = ground (arith, normalize_value_idem v, normalize_items_idem vs)

  normalize_fields_idem :
      {S : Scalars} (fs : Fields S) → normalize_fields (normalize_fields fs) ≡ normalize_fields fs
  normalize_fields_idem end = refl
  normalize_fields_idem (field k v fs) =
      ground (arith, normalize_value_idem v, normalize_fields_idem fs)

module _ {S : Scalars} where
  is_id : Value S → Bool
  is_id (str s) = not (s == "")
  is_id _ = false

  are_ids : Items S → Bool
  are_ids nil = true
  are_ids (cons v vs) = is_id v && are_ids vs

  is_id_list : Value S → Bool
  is_id_list (list vs) = are_ids vs
  is_id_list _ = false

  is_str : Value S → Bool
  is_str (str _) = true
  is_str _ = false

  -- What a path of the kind may hold: a value of the field's schema type, one or more non-empty ids,
  -- or a text.
  unfoldable pub fits : WritePathKind → MetaField → Value S → Bool
  unfolding is_id is_id_list are_ids is_str
  fits meta f v = is_type_compatible f v
  fits ref f v = if f.is_entity_ref_array then is_id_list v else is_id v
  fits section f v = is_str v

  entity_ids-are_ids :
      (path : String) (idx : ℕ) (vs ids : Items S)
      → entity_ids path idx vs ≡ ok ids
      → are_ids ids ≡ true
  unfolding entity_ids are_ids is_id not_an_id contract_violation
  entity_ids-are_ids path idx nil ids h = ground arith
  entity_ids-are_ids path idx (cons (str s) vs) ids h =
      elim (Result-cases (entity_ids path (suc idx) vs)) [
        | inl (rest, e) ↦ let k = entity_ids-are_ids path (suc idx) vs rest e in ground arith
        | inr (r, e) ↦ ground arith
      ]
  entity_ids-are_ids path idx (cons _ vs) ids h = ground arith

  entity_id_list-is_id_list :
      (path : String) (v ids : Value S) → entity_id_list path v ≡ ok ids → is_id_list ids ≡ true
  unfolding entity_id_list is_id_list contract_violation
  entity_id_list-is_id_list path (list vs) ids h =
      let (found, e, r) = >>=-eq-ok (entity_ids path 0 vs) (λ xs. ok (list xs)) h in
      subst (λ w. is_id_list w ≡ true) (ok-injective r) (entity_ids-are_ids path 0 vs found e)
  entity_id_list-is_id_list path v ids h = ground arith

  meta_value-compatible :
      (path : String) (f : MetaField) (v w : Value S)
      → meta_value path f v ≡ ok w
      → is_type_compatible f w ≡ true
  unfolding meta_value is_type_compatible contract_violation
  meta_value-compatible path f v w h = ground (arith, normalize_value_idem v)

  entity_id-is_id : (path raw : String) (v : Value S) → entity_id path raw ≡ ok v → is_id v ≡ true
  unfolding entity_id is_id contract_violation
  entity_id-is_id path raw v h = ground arith

Kind-cases : (k : WriteOperationKind) → (k ≡ set_file) ⊎ (k ≡ set) ⊎ (k ≡ unset)
Kind-cases set = inr (inl refl)
Kind-cases set_file = inl refl
Kind-cases unset = inr (inr refl)

module _ {S : Scalars} (read_file : String → Read String)
    (parse_yaml : String → Read (Value S)) where
  value_for-fits :
      (op : WriteOperation) (f : MetaField) (kind : WritePathKind) (v : Value S)
      → value_for read_file parse_yaml op f kind ≡ ok v
      → fits kind f v ≡ true
  unfolding value_for fits is_str
  value_for-fits op f meta v h =
      let (w, _, k) =
        >>=-eq-ok (parsed_value op.path (parse_yaml op.raw_value)) (meta_value op.path f) h in
      meta_value-compatible op.path f w v k
  value_for-fits op f ref v h = elim (Bool-cases f.is_entity_ref_array) [
    | inl e ↦
        let (w, _, k) =
          >>=-eq-ok (parsed_value op.path (parse_yaml op.raw_value)) (entity_id_list op.path)
            (rw e at h) in
        rw e (entity_id_list-is_id_list op.path w v k)
    | inr e ↦ ground (arith, entity_id-is_id op.path op.raw_value v)
  ]
  value_for-fits op f section v h = ground arith

  -- A value that an operation other than --set-file resolves to fits the path: it has the schema type
  -- of the field, it is one non-empty entity id or a list of such ids, or it is a text.
  pub resolve_value-fits :
      (op : WriteOperation) (path : WritePathSpec) (spec : EntityTypeSpec) (v : Value S)
      → op.kind ≢ set_file
      → resolve_value read_file parse_yaml op path spec ≡ ok v
      → fits path.kind (field_of path.field_name spec) v ≡ true
  unfolding resolve_value
  resolve_value-fits op path spec v k h = elim (Kind-cases op.kind) [
    | inl e ↦ absurd (k e)
    | inr (inl e) ↦
        value_for-fits op (field_of path.field_name spec) path.kind v (rw (resolve_value, e) at h)
    | inr (inr e) ↦
        value_for-fits op (field_of path.field_name spec) path.kind v (rw (resolve_value, e) at h)
  ]
