-- ===== src/Add/Total.antt =====
-- internal/application/commands/add/internal/engine/writes.go: the type assertions of `applyWrites`, for a type
-- whose write model was built from a schema.
use spec_cli.Common.{
  String, ◌≡◌, ◌≢◌, refl, sym, ◌∙◌, subst, Bool, true, false, not, Option, none, some, List, [],
  ◌∷◌, arith, inl, inr,
}
use spec_cli.Common.{◌==◌, ◌||◌, string_eq, if◌then◌else◌, Bool-cases}
use spec_cli.Common.Dict.{lookup, contains}
use spec_cli.Errors.{Result, ok, fail, Gives}
use spec_cli.Read.Execute.{Run, done, refused, panicked, ◌>>=◌}
use spec_cli.Values.{Scalars, Value, null, bool, num, time, str, list, object}
use spec_cli.Write.{
  WriteOperation, WriteOperationKind, set, set_file, unset, WritePathKind, meta, ref, section,
  WritePathSpec, MetaField, EntityTypeSpec,
}
use spec_cli.Write.Values.{Read, resolve_value, field_of}
use spec_cli.Write.Values.Shape.{is_list, has_form, FileOnly, resolve_value-has_form}
use spec_cli.Write.Paths.{is_forbidden_write_path}
use spec_cli.Write.Capability.{SchemaEntity, build_entity, is_ref_field}
use spec_cli.Write.Capability.Listed.{stands, IsBuilt, build_entity-IsBuilt}
use spec_cli.Update.Preflight.{FileRead}
use spec_cli.Update.Apply.{text_of}
use spec_cli.Update.Apply.Total.{Safe, Safe-bind, Safe-not_panicked, text_of-Safe}
use spec_cli.Update.Apply.Changes.{Ends}
use spec_cli.Add.{
  Options, WriteResult, admit_file, admit_kind, undeclared, items_of, store_meta, store_ref,
  store_section, store, resolved, apply_at, apply_operations, nothing_written, provided, provide,
  from_file, from_stdin, apply_writes,
}

some-injective : {v w : WritePathSpec} → some v ≡ some w → v ≡ w
some-injective h = cc

no_scalar : (a b : Bool) → not (a || b) ≡ true → a ≡ false
no_scalar a b n = grind arith

Safe-bind_with {ℓ ℓ'} :
    {A : Type ℓ} {B : Type ℓ'} (Q : A → Type 0) (first : Run A) (next : A → Run B)
    → Safe first
    → Ends Q first
    → ((a : A) → Q a → Safe (next a))
    → Safe (first >>= next)
Safe-bind_with Q (done a) next s q step = step a q
Safe-bind_with Q (refused _) next s q step = tt
Safe-bind_with Q panicked next s q step = s

no_ref_field :
    (spec : EntityTypeSpec) (name : String) (found : Option MetaField)
    → lookup name spec.meta_fields ≡ found
    → not (is_ref_field found) ≡ true
    → (field_of name spec).is_entity_ref ≡ false
no_ref_field spec name none h n = rw (h, field_of) refl
no_ref_field spec name (some field) h n =
    rw (h, field_of) (no_scalar field.is_entity_ref field.is_entity_ref_array n)

module _ {S : Scalars} where
  items_of-Safe : (v : Value S) → is_list v ≡ true → Safe (items_of v)
  items_of-Safe (list _) t = tt
  items_of-Safe null t = cc
  items_of-Safe (bool _) t = cc
  items_of-Safe (num _) t = cc
  items_of-Safe (time _) t = cc
  items_of-Safe (str _) t = cc
  items_of-Safe (object _) t = cc

  store_ref-Safe :
      (many : Bool) (name : String) (v : Value S) (r : WriteResult S)
      → has_form many ref v ≡ true
      → Safe (store_ref many name v r)
  unfolding store_ref
  store_ref-Safe true name v r t = Safe-bind (items_of v) _ (items_of-Safe v t) λ _. tt
  store_ref-Safe false name v r t = Safe-bind (text_of v) _ (text_of-Safe v t) λ _. tt

  store_meta-Safe :
      (field : MetaField) (v : Value S) (r : WriteResult S)
      → field.is_entity_ref ≡ false
      → Safe (store_meta field v r)
  unfolding store_meta
  store_meta-Safe field v r n = rw n tt

  store-Safe :
      (spec : EntityTypeSpec) (at : WritePathKind) (name : String) (v : Value S) (r : WriteResult S)
      → stands spec.meta_fields at name ≡ true
      → has_form (field_of name spec).is_entity_ref_array at v ≡ true
      → Safe (store spec at name v r)
  unfolding store store_section
  store-Safe spec meta name v r s t =
      store_meta-Safe (field_of name spec) v r
        (no_ref_field spec name (lookup name spec.meta_fields) refl s)
  store-Safe spec ref name v r s t =
      store_ref-Safe (field_of name spec).is_entity_ref_array name v r t
  store-Safe spec section name v r s t = Safe-bind (text_of v) _ (text_of-Safe v t) λ _. tt

  module _ (read_file : String → Read String) (parse_yaml : String → Read (Value S))
      (spec : EntityTypeSpec) (built : IsBuilt spec) where
    admit_kind-FileOnly :
        (op : WriteOperation) (at : WritePathSpec) (kind : WriteOperationKind)
        → lookup op.path spec.allow_write_paths ≡ some at
        → Ends (λ _. FileOnly kind at.kind) (admit_kind spec op kind)
    unfolding admit_kind admit_file
    admit_kind-FileOnly op at set h = tt
    admit_kind-FileOnly op at unset h = tt
    admit_kind-FileOnly op at set_file h =
        elim (Bool-cases (contains spec.allow_set_file_paths op.path)) [
          | inl e ↦ rw e (
              let (other, found, s) = built.file_is_section op.path e in
              subst (λ a. a.kind ≡ section) (some-injective (sym found ∙ h)) s)
          | inr e ↦ rw e tt
        ]

    admit_kind-Safe :
        (op : WriteOperation) (kind : WriteOperationKind) → Safe (admit_kind spec op kind)
    unfolding admit_kind admit_file
    admit_kind-Safe op set = tt
    admit_kind-Safe op unset = tt
    admit_kind-Safe op set_file = elim (Bool-cases (contains spec.allow_set_file_paths op.path)) [
      | inl e ↦ rw e tt
      | inr e ↦ rw e tt
    ]

    resolved-Safe : (v : Result (Value S)) → Safe (resolved read_file parse_yaml v)
    unfolding resolved
    resolved-Safe (ok v) = tt
    resolved-Safe (fail e) = tt

    resolved-Ends :
        (P : Value S → Type 0) (v : Result (Value S))
        → Gives P v
        → Ends P (resolved read_file parse_yaml v)
    unfolding resolved
    resolved-Ends P (ok v) g = g
    resolved-Ends P (fail e) g = tt

    apply_at-Safe :
        (op : WriteOperation) (found : Option WritePathSpec) (r : WriteResult S)
        → lookup op.path spec.allow_write_paths ≡ found
        → Safe (apply_at read_file parse_yaml spec op found r)
    unfolding apply_at undeclared
    apply_at-Safe op none r h = elim (Bool-cases (is_forbidden_write_path op.path)) [
      | inl e ↦ rw e tt
      | inr e ↦ rw e tt
    ]
    apply_at-Safe op (some at) r h =
        let many = (field_of at.field_name spec).is_entity_ref_array in
        Safe-bind_with (λ _. FileOnly op.kind at.kind) (admit_kind spec op op.kind) _
          (admit_kind-Safe op op.kind) (admit_kind-FileOnly op at op.kind h)
          λ _ only.
            Safe-bind_with (λ v. has_form many at.kind v ≡ true)
              (resolved read_file parse_yaml (resolve_value read_file parse_yaml op at spec)) _
              (resolved-Safe (resolve_value read_file parse_yaml op at spec))
              (resolved-Ends (λ v. has_form many at.kind v ≡ true)
                (resolve_value read_file parse_yaml op at spec)
                (resolve_value-has_form read_file parse_yaml op at spec op.kind refl only))
              λ v t. store-Safe spec at.kind at.field_name v r (built.field_fits op.path at h) t

    apply_operations-Safe :
        (ops : List WriteOperation) (r : WriteResult S)
        → Safe (apply_operations read_file parse_yaml spec ops r)
    unfolding apply_operations
    apply_operations-Safe [] r = tt
    apply_operations-Safe (op ∷ ops) r =
        Safe-bind _ _ (apply_at-Safe op (lookup op.path spec.allow_write_paths) r refl)
          λ next. apply_operations-Safe ops next

  provide-Safe :
      (has_content : Bool) (body : Result String) (r : WriteResult S)
      → Safe (provide has_content body r)
  unfolding provide provided
  provide-Safe true (ok body) r = tt
  provide-Safe true (fail e) r = tt
  provide-Safe false body r = tt

  Safe-if :
      (b : Bool) (one other : Run (WriteResult S))
      → Safe one
      → Safe other
      → Safe (if b then one else other)
  Safe-if true one other s t = s
  Safe-if false one other s t = t

  from_file-Safe :
      (read_body : String → FileRead) (spec : EntityTypeSpec) (path : String) (r : WriteResult S)
      → Safe (from_file read_body spec path r)
  unfolding from_file
  from_file-Safe read_body spec path r =
      Safe-if (path == "") _ _ tt (provide-Safe spec.has_content _ r)

  from_stdin-Safe :
      (stdin : Read String) (spec : EntityTypeSpec) (given : Bool) (r : WriteResult S)
      → Safe (from_stdin stdin spec given r)
  unfolding from_stdin
  from_stdin-Safe stdin spec given r = Safe-if given _ _ (provide-Safe spec.has_content _ r) tt

-- Adding a document never panics, whatever the operations and the files, if the write model of its type was built
-- from a schema: the value of a field that is an array of references is then a list, and that of a reference or of
-- a section a text.
pub add_writes-not_panicked :
    {S : Scalars} (read_file : String → Read String) (parse_yaml : String → Read (Value S))
    (read_body : String → FileRead) (stdin : Read String) (opts : Options) (entity : SchemaEntity)
    → apply_writes read_file parse_yaml read_body stdin opts (build_entity entity) ≢ panicked
unfolding apply_writes
add_writes-not_panicked read_file parse_yaml read_body stdin opts entity =
    let spec = build_entity entity in
    Safe-not_panicked _ (
      Safe-bind (apply_operations read_file parse_yaml spec opts.operations nothing_written) _
        (apply_operations-Safe read_file parse_yaml spec (build_entity-IsBuilt entity)
          opts.operations nothing_written)
        λ r.
          Safe-bind (from_file read_body spec opts.content_file r) _
            (from_file-Safe read_body spec opts.content_file r)
            λ next. from_stdin-Safe stdin spec opts.content_stdin next)
