-- ===== src/Add.antt =====
-- internal/application/commands/add/internal/engine/writes.go: what a new document is made of. The files that are
-- read, the standard input and the decoder of YAML are parameters.
pub mod Total
pub mod Execute
use spec_cli.Common.{String, ◌<>◌, Bool, true, false, not, Option, none, some, List, [], ◌∷◌}
use spec_cli.Common.{◌==◌, ◌&&◌, string_eq, if◌then◌else◌}
use spec_cli.Common.Dict.{Dict, lookup, insert, contains}
use spec_cli.Common.Text.{trim_space, join}
use spec_cli.Errors
use spec_cli.Errors.{Code, Result, ok, fail, text}
use spec_cli.Read.Execute.{Run, done, refused, panicked, ◌>>=◌}
use spec_cli.Values.{
  Scalars, Value, null, bool, num, time, str, list, object, Items, nil, cons, Fields, end,
  normalize_value,
}
use spec_cli.Values.Entries.{put}
use spec_cli.Update.Preflight.{FileRead, file_body, stdin_body}
use spec_cli.Update.Apply.{text_of, heading_title}
use spec_cli.Update.Lines.{heading_line}
use spec_cli.Write.{
  WriteOperation, WriteOperationKind, set, set_file, unset, WritePathKind, meta, ref, section,
  WritePathSpec, MetaField, EntityTypeSpec,
}
use spec_cli.Write.Values.{Read, resolve_value, field_of}
use spec_cli.Write.Paths.{is_forbidden_write_path}

-- `Options`
pub record Options : Type 0 where
  pub entity_type : String
  pub slug : String
  pub operations : List WriteOperation
  pub content_file : String
  pub content_stdin : Bool
  pub dry_run : Bool

-- `writeResult`
pub record WriteResult (S : Scalars) : Type 0 where
  pub frontmatter_values : Fields S
  pub meta_payload : Fields S
  pub ref_ids : Dict String
  pub ref_id_arrays : Dict (List String)
  pub section_bodies : Dict String
  pub whole_body : String
  pub whole_body_provided : Bool

-- The checks of one operation, by the specification of its path.
admit_file : EntityTypeSpec → WriteOperation → Run (Unit {0})
unfolding Errors.new
admit_file spec op =
    if contains spec.allow_set_file_paths op.path
    then done tt
    else refused (
        Errors.new Code.write_contract_violation
          ("--set-file is not allowed for path '" <> op.path <> "'") (("path", text op.path) ∷ []))

admit_kind : EntityTypeSpec → WriteOperation → WriteOperationKind → Run (Unit {0})
unfolding admit_file
admit_kind spec op set_file = admit_file spec op
admit_kind spec op set = done tt
admit_kind spec op unset = done tt

undeclared : {A : Type 0} → String → Run A
unfolding Errors.new is_forbidden_write_path
undeclared path =
    if is_forbidden_write_path path
    then refused (
        Errors.new Code.write_contract_violation
          ("write path '" <> path <> "' is forbidden by write contract") (("path", text path) ∷ []))
    else refused (
        Errors.new Code.write_contract_violation ("write path '" <> path <> "' is not allowed")
          (("path", text path) ∷ []))

module _ {S : Scalars} where
  -- `extractRefIDArray`
  unfoldable pub extract_ref_id_array : Items S → List String
  unfolding trim_space
  extract_ref_id_array nil = []
  extract_ref_id_array (cons (str s) vs) =
      let rest = extract_ref_id_array vs in if trim_space s == "" then rest else trim_space s ∷ rest
  extract_ref_id_array (cons _ vs) = extract_ref_id_array vs

  -- The type assertion `value.([]any)`.
  abbrev pub items_of : Value S → Run (Items S)
  items_of (list vs) = done vs
  items_of null = panicked
  items_of (bool _) = panicked
  items_of (num _) = panicked
  items_of (time _) = panicked
  items_of (str _) = panicked
  items_of (object _) = panicked

  -- The id of a reference is stored if there is one.
  with_ref_id : String → String → WriteResult S → WriteResult S
  unfolding insert
  with_ref_id name id r = if id == "" then r else record r { ref_ids = insert name id r.ref_ids }

  store_meta : MetaField → Value S → WriteResult S → Run (WriteResult S)
  unfolding put normalize_value with_ref_id trim_space
  store_meta field value r =
      let stored = record r { frontmatter_values = put field.name value r.frontmatter_values } in
      if field.is_entity_ref
      then (text_of value >>= λ s. done (with_ref_id field.name (trim_space s) stored))
      else done (record stored {
        meta_payload = put field.name (normalize_value value) stored.meta_payload;
      })

  store_ref : Bool → String → Value S → WriteResult S → Run (WriteResult S)
  unfolding put insert extract_ref_id_array with_ref_id trim_space
  store_ref true name value r = items_of value >>= λ vs. done (record r {
    frontmatter_values = put name value r.frontmatter_values;
    ref_id_arrays = insert name (extract_ref_id_array vs) r.ref_id_arrays;
  })
  store_ref false name value r = text_of value >>= λ s. done (
      with_ref_id name (trim_space s)
        (record r { frontmatter_values = put name (str (trim_space s)) r.frontmatter_values }))

  store_section : String → Value S → WriteResult S → Run (WriteResult S)
  unfolding insert
  store_section name value r =
      text_of value >>= λ s. done (record r { section_bodies = insert name s r.section_bodies })

  -- The switch on the kind of the path.
  store : EntityTypeSpec → WritePathKind → String → Value S → WriteResult S → Run (WriteResult S)
  unfolding store_meta store_ref store_section
  store spec meta name value r = store_meta (field_of name spec) value r
  store spec ref name value r = store_ref (field_of name spec).is_entity_ref_array name value r
  store spec section name value r = store_section name value r

  module _ (read_file : String → Read String) (parse_yaml : String → Read (Value S)) where
    resolved : {A : Type 0} → Result A → Run A
    resolved (ok a) = done a
    resolved (fail error) = refused error

    -- One round of the loop.
    apply_at :
        EntityTypeSpec → WriteOperation → Option WritePathSpec → WriteResult S → Run (WriteResult S)
    unfolding undeclared admit_kind resolved resolve_value store
    apply_at spec op none r = undeclared op.path
    apply_at spec op (some at) r = admit_kind spec op op.kind >>= λ _.
        resolved (resolve_value read_file parse_yaml op at spec) >>= λ value.
        store spec at.kind at.field_name value r

    -- The loop over the operations.
    unfoldable pub apply_operations :
        EntityTypeSpec → List WriteOperation → WriteResult S → Run (WriteResult S)
    unfolding apply_at lookup
    apply_operations spec [] r = done r
    apply_operations spec (op ∷ ops) r =
        apply_at spec op (lookup op.path spec.allow_write_paths) r >>= λ next.
        apply_operations spec ops next

  unfoldable pub nothing_written : WriteResult S
  nothing_written = record {
    frontmatter_values = end;
    meta_payload = end;
    ref_ids = [];
    ref_id_arrays = [];
    section_bodies = [];
    whole_body = "";
    whole_body_provided = false;
  }

  provided : WriteResult S → Result String → Run (WriteResult S)
  provided r (fail error) = refused error
  provided r (ok body) = done (record r { whole_body = body; whole_body_provided = true })

  -- A whole body is read only for a type with content.
  provide : Bool → Result String → WriteResult S → Run (WriteResult S)
  unfolding provided Errors.new
  provide has_content body r =
      if has_content
      then provided r body
      else refused (
          Errors.new Code.write_contract_violation
            "whole-body input is not allowed for entity type without content" [])

  from_file : (String → FileRead) → EntityTypeSpec → String → WriteResult S → Run (WriteResult S)
  unfolding provide file_body
  from_file read_body spec path r =
      if path == "" then done r else provide spec.has_content (file_body (read_body path)) r

  from_stdin : Read String → EntityTypeSpec → Bool → WriteResult S → Run (WriteResult S)
  unfolding provide stdin_body
  from_stdin stdin spec given r =
      if given then provide spec.has_content (stdin_body stdin) r else done r

-- `applyWrites` of add.
unfoldable pub apply_writes :
    {S : Scalars}
    → (String → Read String)
    → (String → Read (Value S))
    → (String → FileRead)
    → Read String
    → Options
    → EntityTypeSpec
    → Run (WriteResult S)
unfolding apply_operations nothing_written from_file from_stdin
apply_writes read_file parse_yaml read_body stdin opts spec =
    apply_operations read_file parse_yaml spec opts.operations nothing_written >>= λ r.
    from_file read_body spec opts.content_file r >>= λ r. from_stdin stdin spec opts.content_stdin r

-- A section of the new body.
unfoldable pub body_part : EntityTypeSpec → String → String → String
unfolding heading_line heading_title
body_part spec name body =
    if body == ""
    then heading_line (heading_title spec name) name
    else heading_line (heading_title spec name) name <> "\n" <> body

abbrev part_at : EntityTypeSpec → String → Option String → List String → List String
part_at spec name none rest = rest
part_at spec name (some body) rest = body_part spec name body ∷ rest

-- The loop over the sections, in the order of the schema.
unfoldable pub body_parts : EntityTypeSpec → Dict String → List String → List String
unfolding lookup body_part
body_parts spec bodies [] = []
body_parts spec bodies (name ∷ names) =
    part_at spec name (lookup name bodies) (body_parts spec bodies names)

-- `buildBody`
unfoldable pub build_body : {S : Scalars} → EntityTypeSpec → WriteResult S → String
unfolding body_parts join
build_body spec r = if r.whole_body_provided then r.whole_body else elim r.section_bodies [
  | [] ↦ ""
  | _ ∷ _ ↦ join "\n\n" (body_parts spec r.section_bodies spec.section_order)
]
