-- ===== src/Read/Load.antt =====
-- internal/application/readmodel/workspace: the documents of a workspace as the views that a read works on, and the
-- failures of internal/application/readissues. The files and the parser of YAML are parameters, and so is the widening
-- of a number to a float.
pub mod Shown
use spec_cli.Common.{
  String, ◌<>◌, Bool, true, false, not, Option, none, some, List, [], ◌∷◌, ◌++◌, sort_by,
}
use spec_cli.Common.{◌==◌, ◌&&◌, string_eq, if◌then◌else◌}
use spec_cli.Common.Dict.{Dict, lookup, insert, keys, contains}
use spec_cli.Common.Text.{str_lt}
use spec_cli.Errors
use spec_cli.Errors.{Code, AppError, Detail, text, records}
use spec_cli.Values.{
  Scalars, Value, null, bool, num, time, str, list, object, Items, nil, cons, Fields, end, field,
  find, normalize_value,
}
use spec_cli.Sections.{SectionContent, extract_sections}
use spec_cli.Write.Values.{Read, contents, unreadable}
use spec_cli.Update.Preflight.{FileRead}
use spec_cli.Update.Candidate.{read_string_field}
use spec_cli.Frontmatter.{Node, parse_frontmatter}
use spec_cli.Workspace.{Walk, scan_markdown_files, read_document}
use spec_cli.Refs.Classify.{
  Identity, Index, Ref, Reason, missing, type_mismatch, ambiguous, classify, read_id,
}
use spec_cli.Read.Capability.{
  Capability, EntityReadModel, RefField, RefCardinality, scalar_ref, array_ref,
}
use spec_cli.Read.Order.{EntityView}
use spec_cli.Read.Execute.{Run, done, refused, panicked, ◌>>=◌}

-- `NewReadError`
unfoldable pub read_error : String → String → String → List (String × Detail) → AppError
unfolding Errors.new
read_error message issue_message standard_ref details = Errors.new Code.read_failed message (
    details
    ++ (
      "validation.issues",
      records (
          (("level", "error")
            ∷ ("class", "InstanceError")
            ∷ ("message", issue_message)
            ∷ ("standard_ref", standard_ref)
            ∷ [])
          ∷ []),
    )
      ∷ [])

-- `parsedDocument`
pub record ParsedDocument (S : Scalars) : Type 0 where
  pub type_name : String
  pub id : String
  pub slug : String
  pub created_date : String
  pub updated_date : String
  pub revision : String
  pub frontmatter : Fields S
  pub sections : Dict String
  pub duplicate_section_labels : List String
  pub raw_content : String

abbrev text_or_empty : Option String → String
text_or_empty none = ""
text_or_empty (some s) = s

-- A builtin field that a document cannot be read without.
required_builtin : String → String → String → String → Run (Unit {0})
unfolding read_error string_eq
required_builtin message name standard_ref value =
    if value == ""
    then refused
        (read_error message ("built-in field '" <> name <> "' is required") standard_ref [])
    else done tt

abbrev pub bodies : Dict SectionContent → Dict String
bodies [] = []
bodies ((label, content) ∷ d) = (label, content.body) ∷ bodies d

abbrev pub section_fields : {S : Scalars} → Dict String → Fields S
section_fields [] = end
section_fields ((label, body) ∷ d) = field label (str body) (section_fields d)

-- The keys of a map, as `ordered.MapKeys` sorts them.
abbrev pub sorted_keys {ℓ} : {V : Type ℓ} → Dict V → List String
unfolding keys sort_by str_lt
sorted_keys d = sort_by str_lt (keys d)

reason_text : Reason → String
reason_text missing = "missing"
reason_text type_mismatch = "type_mismatch"
reason_text ambiguous = "ambiguous"

module _ {S : Scalars} where
  -- A field with a value is put in front.
  abbrev pub field_if : String → Option (Value S) → Fields S → Fields S
  field_if k none rest = rest
  field_if k (some v) rest = field k v rest

  abbrev pub mapped : (Value S → Value S) → Option (Value S) → Option (Value S)
  mapped f none = none
  mapped f (some v) = some (f v)

  -- `projectMetadata`: the fields of the document that are among the keys, normalized.
  unfoldable pub project_fields : (Value S → Value S) → Fields S → List String → Fields S
  unfolding find
  project_fields normalize frontmatter [] = end
  project_fields normalize frontmatter (k ∷ ks) =
      field_if k (mapped normalize (find k frontmatter)) (project_fields normalize frontmatter ks)

  abbrev section_value : Option String → Option (Value S)
  section_value none = none
  section_value (some body) = some (str body)

  -- `buildWhereSections`
  unfoldable pub where_sections : Dict String → List String → Fields S
  unfolding lookup
  where_sections sections [] = end
  where_sections sections (name ∷ names) =
      field_if name (section_value (lookup name sections)) (where_sections sections names)

  abbrev text_or_null : Option String → Value S
  text_or_null none = null
  text_or_null (some s) = str s

  abbrev reason_or_null : Option Reason → Value S
  unfolding reason_text
  reason_or_null none = null
  reason_or_null (some r) = str (reason_text r)

  -- `ToPublicObject`: the reason is shown where there is none to resolve.
  unfoldable pub public_ref : Ref → Value S
  unfolding reason_text
  public_ref ref = object (
      field "resolved" (bool ref.resolved) (
        field "id" (str ref.id) (
          field "type" (text_or_null ref.type_name) (
            field "slug" (text_or_null ref.slug)
              (if ref.resolved then end else field "reason" (reason_or_null ref.reason) end)))))

  -- `toWhereRefObject`
  unfoldable pub where_ref : Ref → Value S
  unfolding reason_text
  where_ref ref = object (
      field "resolved" (bool ref.resolved) (
        field "id" (str ref.id) (
          field "type" (text_or_null ref.type_name) (
            field "slug" (text_or_null ref.slug)
              (field "reason" (reason_or_null ref.reason) end)))))

-- `invalidRefReadError`
invalid_ref {ℓ} : {A : Type ℓ} → String → Run A
unfolding read_error
invalid_ref name = refused (
    read_error "failed to compute refs"
      ("refs field '" <> name <> "' has invalid value in frontmatter") "6"
      (("field", text name) ∷ []))

classified_ref : Index → String → RefField → Option String → Run Ref
unfolding classify invalid_ref
classified_ref index name spec none = invalid_ref name
classified_ref index name spec (some id) = done (classify id spec index)

-- The public value of a reference field, and the one that a filter sees, if there is one.
abbrev pub Resolved : Scalars → Type 0
Resolved S = Value S × Option (Value S)

module _ {S : Scalars} (index : Index) where
  -- `resolveScalarRef`
  unfoldable pub resolve_scalar_ref : String → RefField → Value S → Run (Resolved S)
  unfolding classified_ref read_id public_ref where_ref
  resolve_scalar_ref name spec null = done (null, none)
  resolve_scalar_ref name spec v = classified_ref index name spec (read_id v) >>= λ ref.
      done (public_ref ref, some (where_ref ref))

  -- The loop over the items of an array.
  unfoldable pub resolve_items : String → RefField → Items S → Run (Items S × Items S)
  unfolding classified_ref read_id public_ref where_ref
  resolve_items name spec nil = done (nil, nil)
  resolve_items name spec (cons null vs) =
      resolve_items name spec vs >>= λ (shown, filtered). done (cons null shown, cons null filtered)
  resolve_items name spec (cons v vs) =
      let rest = resolve_items name spec vs in
      classified_ref index name spec (read_id v) >>= λ ref. rest >>= λ (shown, filtered).
      done (cons (public_ref ref) shown, cons (where_ref ref) filtered)

  -- `resolveArrayRef`
  unfoldable pub resolve_array_ref : String → RefField → Value S → Run (Resolved S)
  unfolding resolve_items invalid_ref
  resolve_array_ref name spec null = done (null, some null)
  resolve_array_ref name spec (list vs) =
      resolve_items name spec vs >>= λ (shown, filtered). done (list shown, some (list filtered))
  resolve_array_ref name spec _ = invalid_ref name

  resolve_one : String → RefField → RefCardinality → Option (Value S) → Run (Resolved S)
  unfolding resolve_scalar_ref resolve_array_ref
  resolve_one name spec cardinality none = done (null, none)
  resolve_one name spec array_ref (some v) = resolve_array_ref name spec v
  resolve_one name spec scalar_ref (some v) = resolve_scalar_ref name spec v

  unfoldable pub resolve_declared : String → Option RefField → Option (Value S) → Run (Resolved S)
  unfolding resolve_one
  resolve_declared name none raw = done (null, none)
  resolve_declared name (some spec) raw = resolve_one name spec spec.cardinality raw

  -- `resolveReferences`, over the sorted names of the fields.
  unfoldable pub resolve_references :
      Dict RefField → Fields S → List String → Run (Fields S × Fields S)
  unfolding resolve_declared lookup find
  resolve_references specs frontmatter [] = done (end, end)
  resolve_references specs frontmatter (name ∷ names) =
      let rest = resolve_references specs frontmatter names in
      resolve_declared name (lookup name specs) (find name frontmatter) >>= λ (shown, filtered).
      rest >>= λ (shown_rest, filtered_rest).
      done (field name shown shown_rest, field_if name filtered filtered_rest)

abbrev listed : Option (List Identity) → List Identity
listed none = []
listed (some is) = is

abbrev identity_of : {S : Scalars} → ParsedDocument S → Identity
identity_of d = record { type_name = d.type_name; id = d.id; slug = d.slug }

-- `buildIDIndex`
unfoldable pub id_index : {S : Scalars} → List (ParsedDocument S) → Index → Index
unfolding insert lookup
id_index [] index = index
id_index (d ∷ ds) index =
    id_index ds (insert d.id (listed (lookup d.id index) ++ identity_of d ∷ []) index)

-- The files, the parser and the decoder of YAML, the hash of `Revision`, and the widening of a number.
pub record Sources (S : Scalars) : Type 0 where
  pub walk : Walk
  pub read_file : String → FileRead
  pub unmarshal : String → Read Node
  pub decode : Node → Read (Fields S)
  pub revision : String → String
  pub widen : S.Num → S.Num

module _ {S : Scalars} (widen : S.Num → S.Num) where
  unfoldable mutual
    -- `normalizeForFilter`
    pub for_filter : Value S → Value S
    for_filter null = null
    for_filter (bool b) = bool b
    for_filter (num n) = num (widen n)
    for_filter (time t) = str (S.date_text t)
    for_filter (str s) = str s
    for_filter (list vs) = list (items_for_filter vs)
    for_filter (object fs) = object (fields_for_filter fs)

    pub items_for_filter : Items S → Items S
    items_for_filter nil = nil
    items_for_filter (cons v vs) = cons (for_filter v) (items_for_filter vs)

    pub fields_for_filter : Fields S → Fields S
    fields_for_filter end = end
    fields_for_filter (field k v fs) = field k (for_filter v) (fields_for_filter fs)

abbrev pub model_of : Option EntityReadModel → EntityReadModel
model_of none = record { meta_fields = []; ref_fields = []; sections = [] }
model_of (some model) = model

-- `len(allowedTypes) > 0` and the type is not among them.
abbrev pub is_left_out : List String → String → Bool
is_left_out [] name = false
is_left_out (t ∷ ts) name = not (contains (t ∷ ts) name)

known_type : String → Option EntityReadModel → Run EntityReadModel
unfolding read_error
known_type name (some model) = done model
known_type name none = refused (
    read_error "failed to determine entity type"
      ("entity type '" <> name <> "' is not declared in schema.entity") "5.3" [])

module _ {S : Scalars} (sources : Sources S) where
  parsed_document : String → Fields S → String → ParsedDocument S
  unfolding read_string_field extract_sections
  parsed_document raw fields body = record {
    type_name = text_or_empty (read_string_field "type" fields);
    id = text_or_empty (read_string_field "id" fields);
    slug = text_or_empty (read_string_field "slug" fields);
    created_date = text_or_empty (read_string_field "createdDate" fields);
    updated_date = text_or_empty (read_string_field "updatedDate" fields);
    revision = sources.revision raw;
    frontmatter = fields;
    sections = bodies (extract_sections body).0;
    duplicate_section_labels = (extract_sections body).1;
    raw_content = body;
  }

  identified : ParsedDocument S → Run (ParsedDocument S)
  unfolding required_builtin
  identified d =
      required_builtin "failed to determine entity type" "type" "5.3" d.type_name >>= λ _.
      required_builtin "failed to determine entity id" "id" "11.1" d.id >>= λ _.
      required_builtin "failed to determine entity slug" "slug" "11.2" d.slug >>= λ _. done d

  from_text : String → Read (Fields S × String) → Run (ParsedDocument S)
  unfolding identified parsed_document read_error
  from_text raw (unreadable reason) =
      refused (read_error "failed to parse workspace document" reason "11" [])
  from_text raw (contents (fields, body)) = identified (parsed_document raw fields body)

  -- `parseDocument`
  unfoldable pub parse_document : String → Run (ParsedDocument S)
  unfolding from_text read_document parse_frontmatter
  parse_document path = read_document (sources.read_file path) >>= λ raw.
      from_text raw (parse_frontmatter sources.unmarshal sources.decode raw)

  -- The first loop of `LoadEntities`.
  unfoldable pub parse_documents : List String → Run (List (ParsedDocument S))
  unfolding parse_document
  parse_documents [] = done []
  parse_documents (path ∷ paths) =
      let rest = parse_documents paths in parse_document path >>= λ d. rest >>= λ ds. done (d ∷ ds)

  -- The second loop: every type is declared.
  unfoldable pub known_types : Capability → List (ParsedDocument S) → Run (Unit {0})
  unfolding known_type lookup
  known_types capability [] = done tt
  known_types capability (d ∷ ds) =
      let rest = known_types capability ds in
      known_type d.type_name (lookup d.type_name capability.entity_types) >>= λ _. rest

  builtins : ParsedDocument S → Fields S → Fields S
  builtins d rest = field "type" (str d.type_name) (
      field "id" (str d.id) (
        field "slug" (str d.slug) (
          field "revision" (str d.revision) (
            field "createdDate" (str d.created_date)
              (field "updatedDate" (str d.updated_date) rest)))))

  shown_parts : ParsedDocument S → Fields S → Fields S → Fields S → Fields S
  unfolding builtins
  shown_parts d meta refs sections = builtins d (
      field "meta" (object meta) (
        field "refs" (object refs) (
          field "content"
            (object (field "raw" (str d.raw_content) (field "sections" (object sections) end)))
            end)))

  -- The two views of a document.
  unfoldable pub view_of : EntityReadModel → ParsedDocument S → Fields S × Fields S → EntityView S
  unfolding shown_parts project_fields where_sections normalize_value for_filter
  view_of model d (refs, filtered) = record {
    type_name = d.type_name;
    id = d.id;
    view =
        shown_parts d (project_fields normalize_value d.frontmatter (sorted_keys model.meta_fields))
          refs (section_fields d.sections);
    where_context =
        shown_parts d
          (project_fields (for_filter sources.widen) d.frontmatter (sorted_keys model.meta_fields))
          filtered (where_sections d.sections (sorted_keys model.sections));
    duplicate_section_labels = d.duplicate_section_labels;
  }

  -- One round of the last loop.
  unfoldable pub load_entity : Capability → Index → ParsedDocument S → Run (EntityView S)
  unfolding resolve_references view_of lookup
  load_entity capability index d =
      let model = model_of (lookup d.type_name capability.entity_types) in
      resolve_references index model.ref_fields d.frontmatter (sorted_keys model.ref_fields)
      >>= λ refs. done (view_of model d refs)

  -- The last loop.
  unfoldable pub load_views :
      Capability → List String → Index → List (ParsedDocument S) → Run (List (EntityView S))
  unfolding load_entity
  load_views capability filters index [] = done []
  load_views capability filters index (d ∷ ds) =
      let rest = load_views capability filters index ds in
      if is_left_out filters d.type_name
      then rest
      else (load_entity capability index d >>= λ v. rest >>= λ vs. done (v ∷ vs))

  -- `LoadEntities`
  unfoldable pub load_entities : Capability → List String → Run (List (EntityView S))
  unfolding scan_markdown_files parse_documents known_types load_views id_index
  load_entities capability filters = scan_markdown_files sources.walk >>= λ files.
      parse_documents files >>= λ documents. known_types capability documents >>= λ _.
      load_views capability filters (id_index documents []) documents
