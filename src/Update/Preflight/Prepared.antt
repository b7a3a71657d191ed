-- ===== src/Update/Preflight/Prepared.antt =====
-- internal/application/commands/update/internal/engine/writes.go: what `preflight` lets through.
use spec_cli.Common.{String, ◌≡◌, refl, Bool, true, Option, none, some, List, [], ◌∷◌, inl, inr}
use spec_cli.Common.{string_eq, Bool-cases}
use spec_cli.Common.Dict.{lookup, contains}
use spec_cli.Errors.{Result, ok, fail, Gives, Gives-bind, Gives-then, Gives-any, Gives-map}
use spec_cli.Values.{Scalars, Value, null}
use spec_cli.Write.{
  WriteOperation, WriteOperationKind, set, set_file, unset, WritePathKind, meta, ref, section,
  WritePathSpec, EntityTypeSpec,
}
use spec_cli.Write.Values.{Read, resolve_value, read_source, value_for, field_of}
use spec_cli.Write.Values.Shape.{is_text, read_source-text}
use spec_cli.Update.Preflight.{
  Options, PreparedOperation, FileRead, check_reserved, check_listed, check_set_file, check_kind,
  not_allowed, path_violation, resolve_at, value_at, prepare_at, prepare, prepare_all, preflight,
  body_value, unsupported_kind,
}

-- The value of a section that is set is a text.
abbrev pub textual_kind : {S : Scalars} → WritePathKind → WriteOperationKind → Value S → Bool
textual_kind section set v = is_text v
textual_kind section set_file v = is_text v
textual_kind section unset v = true
textual_kind meta _ v = true
textual_kind ref _ v = true

abbrev pub is_textual : {S : Scalars} → Option WritePathSpec → WriteOperationKind → Value S → Bool
is_textual none kind v = true
is_textual (some at) kind v = textual_kind at.kind kind v

-- The paths that an operation of a kind may name.
abbrev pub listed_paths : EntityTypeSpec → WriteOperationKind → List String
listed_paths spec unset = spec.unset_paths
listed_paths spec set = spec.set_paths
listed_paths spec set_file = spec.set_paths

abbrev pub file_allowed : EntityTypeSpec → WriteOperationKind → String → Bool
file_allowed spec set_file path = contains spec.allow_set_file_paths path
file_allowed spec set path = true
file_allowed spec unset path = true

-- The operation was admitted, and prepared as what it is.
pub record IsPrepared {S : Scalars} (spec : EntityTypeSpec) (op : WriteOperation)
    (p : PreparedOperation S) : Type 0 where
  pub same_kind : p.kind ≡ op.kind
  pub same_path : p.path ≡ op.path
  pub spec_found : p.spec ≡ lookup op.path spec.allow_write_paths
  pub listed : contains (listed_paths spec op.kind) op.path ≡ true
  pub from_file : file_allowed spec op.kind op.path ≡ true
  pub textual : is_textual p.spec p.kind p.value ≡ true

abbrev pub ArePrepared :
    {S : Scalars} → EntityTypeSpec → List WriteOperation → List (PreparedOperation S) → Type 0
ArePrepared spec [] [] = Unit {0}
ArePrepared spec [] (_ ∷ _) = ⊥
ArePrepared spec (_ ∷ _) [] = ⊥
ArePrepared spec (op ∷ ops) (p ∷ ps) = IsPrepared spec op p × ArePrepared spec ops ps

check_listed-Gives :
    (paths : List String) (path : String)
    → Gives (λ _. contains paths path ≡ true) (check_listed paths path)
unfolding check_listed not_allowed path_violation
check_listed-Gives paths path = elim (Bool-cases (contains paths path)) [
  | inl e ↦ rw e refl
  | inr e ↦ rw e tt
]

check_set_file-Gives :
    (paths : List String) (path : String)
    → Gives (λ _. contains paths path ≡ true) (check_set_file paths path)
unfolding check_set_file path_violation
check_set_file-Gives paths path = elim (Bool-cases (contains paths path)) [
  | inl e ↦ rw e refl
  | inr e ↦ rw e tt
]

abbrev IsAdmitted : EntityTypeSpec → WriteOperationKind → String → Type 0
IsAdmitted spec kind path =
    (contains (listed_paths spec kind) path ≡ true) × (file_allowed spec kind path ≡ true)

check_kind-Gives :
    (spec : EntityTypeSpec) (kind : WriteOperationKind) (path : String)
    → Gives (λ _. IsAdmitted spec kind path) (check_kind spec kind path)
unfolding check_kind
check_kind-Gives spec unset path =
    Gives-map (λ _. contains spec.unset_paths path ≡ true) (λ _. IsAdmitted spec unset path)
      (λ _ e. (e, refl)) (check_listed spec.unset_paths path)
      (check_listed-Gives spec.unset_paths path)
check_kind-Gives spec set path =
    Gives-map (λ _. contains spec.set_paths path ≡ true) (λ _. IsAdmitted spec set path)
      (λ _ e. (e, refl)) (check_listed spec.set_paths path) (check_listed-Gives spec.set_paths path)
check_kind-Gives spec set_file path =
    Gives-then (contains spec.set_paths path ≡ true) (λ _. IsAdmitted spec set_file path)
      (check_listed spec.set_paths path) (check_set_file spec.allow_set_file_paths path)
      (check_listed-Gives spec.set_paths path)
      λ listed.
        Gives-map (λ _. contains spec.allow_set_file_paths path ≡ true)
          (λ _. IsAdmitted spec set_file path) (λ _ e. (listed, e))
          (check_set_file spec.allow_set_file_paths path)
          (check_set_file-Gives spec.allow_set_file_paths path)

Gives-true : {S : Scalars} (r : Result (Value S)) → Gives (λ _. true ≡ true) r
Gives-true (ok _) = refl
Gives-true (fail _) = tt

unset_textual : (S : Scalars) (at : WritePathKind) → textual_kind {S = S} at unset null ≡ true
unset_textual S meta = refl
unset_textual S ref = refl
unset_textual S section = refl

text_textual :
    {S : Scalars} (at : WritePathKind) (v : Value S)
    → is_text v ≡ true
    → textual_kind at set_file v ≡ true
text_textual meta v t = refl
text_textual ref v t = refl
text_textual section v t = t

module _ {S : Scalars} (read_file : String → Read String)
    (parse_yaml : String → Read (Value S)) where
  value_for-text :
      (op : WriteOperation) (spec : EntityTypeSpec) (at : WritePathKind) (name : String)
      → Gives
          (λ v. textual_kind at set v ≡ true)
          (value_for read_file parse_yaml op (field_of name spec) at)
  unfolding value_for
  value_for-text op spec section name = refl
  value_for-text op spec meta name = Gives-true _
  value_for-text op spec ref name = Gives-true _

  value_at-textual :
      (kind : WriteOperationKind) (spec : EntityTypeSpec) (op : WriteOperation)
      (found : Option WritePathSpec)
      → op.kind ≡ kind
      → Gives
          (λ v. is_textual found kind v ≡ true)
          (value_at read_file parse_yaml kind spec op found)
  unfolding value_at resolve_at resolve_value unsupported_kind
  value_at-textual unset spec op none h = refl
  value_at-textual unset spec op (some at) h = unset_textual S at.kind
  value_at-textual set spec op none h = Gives-true _
  value_at-textual set_file spec op none h = Gives-true _
  value_at-textual set spec op (some at) h = rw h (value_for-text op spec at.kind at.field_name)
  value_at-textual set_file spec op (some at) h = rw h (
      Gives-map _ _ (λ v t. text_textual at.kind v t) (read_source op.path (read_file op.raw_value))
        (read_source-text S op.path (read_file op.raw_value)))

  prepare_at-IsPrepared :
      (spec : EntityTypeSpec) (op : WriteOperation)
      → Gives (IsPrepared spec op) (prepare read_file parse_yaml spec op)
  unfolding prepare prepare_at
  prepare_at-IsPrepared spec op =
      let found = lookup op.path spec.allow_write_paths in
      Gives-then (Unit {0}) (IsPrepared spec op) (check_reserved found op.path) _
        (Gives-any (check_reserved found op.path))
        λ _.
          Gives-then (IsAdmitted spec op.kind op.path) (IsPrepared spec op)
            (check_kind spec op.kind op.path) _ (check_kind-Gives spec op.kind op.path)
            λ (listed, file).
              Gives-bind (λ v. is_textual found op.kind v ≡ true) (IsPrepared spec op)
                (value_at read_file parse_yaml op.kind spec op found) _
                (value_at-textual op.kind spec op found refl)
                λ v t. record {
                  same_kind = refl;
                  same_path = refl;
                  spec_found = refl;
                  listed = listed;
                  from_file = file;
                  textual = t;
                }

  prepare_all-ArePrepared :
      (spec : EntityTypeSpec) (ops : List WriteOperation)
      → Gives (ArePrepared spec ops) (prepare_all read_file parse_yaml spec ops)
  unfolding prepare_all
  prepare_all-ArePrepared spec [] = tt
  prepare_all-ArePrepared spec (op ∷ ops) =
      Gives-bind (IsPrepared spec op) (ArePrepared spec (op ∷ ops))
        (prepare read_file parse_yaml spec op) _ (prepare_at-IsPrepared spec op)
        λ p first.
          Gives-bind (ArePrepared spec ops) (ArePrepared spec (op ∷ ops))
            (prepare_all read_file parse_yaml spec ops) _ (prepare_all-ArePrepared spec ops)
            λ ps rest. (first, rest)

-- If `preflight` gives no error, it has prepared the operations one by one, in their order: each with its kind and
-- its path, and the specification of that path; a path that is set is listed as settable, one that is unset as
-- unsettable, one set from a file as settable from files; and the value for a section is a text.
pub preflight-ArePrepared :
    {S : Scalars} (read_file : String → Read String) (parse_yaml : String → Read (Value S))
    (read_body : String → FileRead) (stdin : Read String) (opts : Options) (spec : EntityTypeSpec)
    → Gives
        (λ (ps, _). ArePrepared spec opts.operations ps)
        (preflight read_file parse_yaml read_body stdin opts spec)
unfolding preflight
preflight-ArePrepared read_file parse_yaml read_body stdin opts spec =
    Gives-bind (ArePrepared spec opts.operations) (λ (ps, _). ArePrepared spec opts.operations ps) _
      _ (prepare_all-ArePrepared read_file parse_yaml spec opts.operations)
      λ ps all.
        Gives-bind (λ _. Unit {0}) (λ (ps, _). ArePrepared spec opts.operations ps)
          (body_value read_body stdin spec.has_content opts.body_file opts.body_operation) _
          (Gives-any _) λ body _. all
