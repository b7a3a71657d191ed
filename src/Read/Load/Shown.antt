-- ===== src/Read/Load/Shown.antt =====
-- internal/application/readmodel/workspace: what the views of the documents show.
use spec_cli.Common.{
  String, ◌≡◌, refl, sym, ◌∙◌, ap, subst, Bool, true, false, not, Option, none, some, List, [], ◌∷◌,
  sort_by, insert_by, select, Bool-cases, inl, inr, arith, All,
}
use spec_cli.Common.{◌==◌, ◌||◌, string_eq, if◌then◌else◌, eq_true}
use spec_cli.Common.Dict.{Dict, lookup, keys, contains}
use spec_cli.Common.Text.{str_lt}
use spec_cli.Values.{Scalars, Value, object, Fields, field, find, normalize_value}
use spec_cli.Refs.Classify.{Index}
use spec_cli.Read.Capability.{Capability, EntityReadModel, RefField}
use spec_cli.Read.Order.{EntityView}
use spec_cli.Read.Execute.{Run, done, refused, panicked}
use spec_cli.Update.Apply.Changes.{Ends, Ends-bind, Ends-map}
use spec_cli.Workspace.{scan_markdown_files}
use spec_cli.Read.Load.{
  ParsedDocument, Sources, mapped, field_if, Resolved, sorted_keys, project_fields,
  resolve_declared, resolve_references, id_index, known_type, known_types, parse_documents,
  shown_parts, builtins, view_of, model_of, load_entity, is_left_out, load_views, load_entities,
}

contains-insert_by :
    (less : String → String → Bool) (x : String) (xs : List String) (k : String)
    → contains (insert_by less x xs) k ≡ (x == k || contains xs k)
unfolding insert_by
contains-insert_by less x [] k = refl
contains-insert_by less x (y ∷ ys) k = grind (arith, contains-insert_by less x ys k)

contains-sort_by :
    (less : String → String → Bool) (xs : List String) (k : String)
    → contains (sort_by less xs) k ≡ contains xs k
unfolding sort_by
contains-sort_by less [] k = refl
contains-sort_by less (x ∷ xs) k =
    contains-insert_by less x (sort_by less xs) k
    ∙ ap (λ b. x == k || b) (contains-sort_by less xs k)

contains-sorted_keys :
    {V : Type 0} (d : Dict V) (k : String) → contains (sorted_keys d) k ≡ contains (keys d) k
unfolding sorted_keys
contains-sorted_keys d k = contains-sort_by str_lt (keys d) k

Ends-done : {A : Type 0} (out : Run A) → Ends (λ a. out ≡ done a) out
Ends-done (done a) = refl
Ends-done (refused e) = tt
Ends-done panicked = tt

drop_false : (a b : Bool) → a ≡ false → (a || b) ≡ true → b ≡ true
drop_false true b h k = cc
drop_false false b h k = k

false_not_true : false ≡ true → ⊥
false_not_true h = cc

known_type-Ends :
    (name : String) (o : Option EntityReadModel)
    → Ends (λ model. o ≡ some model) (known_type name o)
unfolding known_type
known_type-Ends name (some model) = refl
known_type-Ends name none = tt

module _ {S : Scalars} where
  first : Option (Value S) → Option (Value S) → Option (Value S)
  first none rest = rest
  first (some v) rest = some v

  find-field_if :
      (j k : String) (o : Option (Value S)) (rest : Fields S)
      → find k (field_if j o rest) ≡ (if j == k then first o (find k rest) else find k rest)
  unfolding find first
  find-field_if j k none rest = elim (Bool-cases (j == k)) [ inl h ↦ rw h refl | inr h ↦ rw h refl ]
  find-field_if j k (some v) rest = refl

  first-mapped :
      (f : Value S → Value S) (o : Option (Value S)) (b : Bool)
      → first (mapped f o) (if b then mapped f o else none) ≡ mapped f o
  unfolding first
  first-mapped f none true = refl
  first-mapped f none false = refl
  first-mapped f (some v) b = refl

  find-project_fields :
      (f : Value S → Value S) (fm : Fields S) (ks : List String) (k : String)
      → find k (project_fields f fm ks) ≡ (if contains ks k then mapped f (find k fm) else none)
  unfolding project_fields find
  find-project_fields f fm [] k = refl
  find-project_fields f fm (j ∷ ks) k =
      find-field_if j k (mapped f (find j fm)) (project_fields f fm ks)
      ∙ elim (Bool-cases (j == k)) [
        | inl h ↦ rw h (
            ap (first (mapped f (find j fm))) (find-project_fields f fm ks k)
            ∙ ap
                (λ i.
                  first (mapped f (find i fm))
                    (if contains ks k then mapped f (find k fm) else none))
                (eq_true j k h)
            ∙ first-mapped f (find k fm) (contains ks k))
        | inr h ↦ rw h (find-project_fields f fm ks k)
      ]

  -- Every reference field is shown as what it is resolved to.
  abbrev pub RefsShown : Index → Dict RefField → Fields S → List String → Fields S → Type 0
  RefsShown index specs fm names shown =
      (name : String)
      → contains names name ≡ true
      → (r : Resolved S) × (resolve_declared index name (lookup name specs) (find name fm) ≡ done r)
        × (find name shown ≡ some r.0)

  RefsShown-field :
      (index : Index) (specs : Dict RefField) (fm : Fields S) (n : String) (names : List String)
      (r : Resolved S) (rest : Fields S)
      → resolve_declared index n (lookup n specs) (find n fm) ≡ done r
      → RefsShown index specs fm names rest
      → RefsShown index specs fm (n ∷ names) (field n r.0 rest)
  unfolding find
  RefsShown-field index specs fm n names r rest known shown name h = elim (Bool-cases (n == name)) [
    | inl k ↦
        let same = eq_true n name k in
        (
          r,
          ap (λ i. resolve_declared index i (lookup i specs) (find i fm)) (sym same) ∙ known,
          rw k refl,
        )
    | inr k ↦
        let before = shown name (drop_false (n == name) (contains names name) k h) in
        (before.0, before.1, rw k before.2)
  ]

  resolve_references-RefsShown :
      (index : Index) (specs : Dict RefField) (fm : Fields S) (names : List String)
      → Ends
          (λ refs. RefsShown index specs fm names refs.0)
          (resolve_references index specs fm names)
  unfolding resolve_references
  resolve_references-RefsShown index specs fm [] = λ name h. absurd (false_not_true h)
  resolve_references-RefsShown index specs fm (n ∷ names) =
      Ends-bind (λ r. resolve_declared index n (lookup n specs) (find n fm) ≡ done r)
        (λ refs. RefsShown index specs fm (n ∷ names) refs.0)
        (resolve_declared index n (lookup n specs) (find n fm)) _
        (Ends-done (resolve_declared index n (lookup n specs) (find n fm)))
        λ r known.
          Ends-bind (λ rest. RefsShown index specs fm names rest.0)
            (λ refs. RefsShown index specs fm (n ∷ names) refs.0)
            (resolve_references index specs fm names) _
            (resolve_references-RefsShown index specs fm names)
            λ rest shown. RefsShown-field index specs fm n names r rest.0 known shown

  -- What the view of a document shows: its metadata are those fields of the document that the schema declares,
  -- normalized, and its references those that the schema declares, as they are resolved.
  abbrev pub Shows : Index → EntityReadModel → ParsedDocument S → EntityView S → Type 0
  Shows index model d v =
      (v.type_name ≡ d.type_name)
      × (v.id ≡ d.id)
      × (v.duplicate_section_labels ≡ d.duplicate_section_labels)
      × ((meta : Fields S) × (find "meta" v.view ≡ some (object meta))
          × ((k : String)
              → find k meta ≡ (
                  if contains (keys model.meta_fields) k
                  then mapped normalize_value (find k d.frontmatter)
                  else none)))
      × ((refs : Fields S) × (find "refs" v.view ≡ some (object refs))
          × ((name : String)
              → contains (keys model.ref_fields) name ≡ true
              → (r : Resolved S) × (resolve_declared index name (lookup name model.ref_fields)
                    (find name d.frontmatter)
                  ≡ done r)
                × (find name refs ≡ some r.0)))

  view_of-Shows :
      (sources : Sources S) (index : Index) (model : EntityReadModel) (d : ParsedDocument S)
      (refs : Fields S × Fields S)
      → RefsShown index model.ref_fields d.frontmatter (sorted_keys model.ref_fields) refs.0
      → Shows index model d (view_of sources model d refs)
  unfolding view_of shown_parts builtins find string_eq
  view_of-Shows sources index model d refs shown = (
    refl,
    refl,
    refl,
    (
      project_fields normalize_value d.frontmatter (sorted_keys model.meta_fields),
      refl,
      λ k.
          find-project_fields normalize_value d.frontmatter (sorted_keys model.meta_fields) k
          ∙ ap (λ b. if b then mapped normalize_value (find k d.frontmatter) else none)
              (contains-sorted_keys model.meta_fields k),
    ),
    (refs.0, refl, λ name h. shown name (contains-sorted_keys model.ref_fields name ∙ h)),
  )

  -- The views are those of the documents, one by one.
  abbrev pub ShowAll : Capability → Index → List (ParsedDocument S) → List (EntityView S) → Type 0
  ShowAll capability index [] [] = Unit {0}
  ShowAll capability index [] (v ∷ vs) = ⊥
  ShowAll capability index (d ∷ ds) [] = ⊥
  ShowAll capability index (d ∷ ds) (v ∷ vs) =
      ((model : EntityReadModel) × (lookup d.type_name capability.entity_types ≡ some model)
        × Shows index model d v)
      × ShowAll capability index ds vs

  -- The document has a type that the filters ask for, or there are none.
  abbrev pub is_asked_for : List String → ParsedDocument S → Bool
  is_asked_for filters d = not (is_left_out filters d.type_name)

  -- The type of every document is declared.
  abbrev pub AreKnown : Capability → List (ParsedDocument S) → Type 0
  AreKnown capability ds =
      All
        (λ d. (model : EntityReadModel) × (lookup d.type_name capability.entity_types ≡ some model))
        ds

  known_types-AreKnown :
      (sources : Sources S) (capability : Capability) (ds : List (ParsedDocument S))
      → Ends (λ _. AreKnown capability ds) (known_types sources capability ds)
  unfolding known_types
  known_types-AreKnown sources capability [] = tt
  known_types-AreKnown sources capability (d ∷ ds) =
      Ends-bind (λ model. lookup d.type_name capability.entity_types ≡ some model)
        (λ _. AreKnown capability (d ∷ ds))
        (known_type d.type_name (lookup d.type_name capability.entity_types))
        (λ _. known_types sources capability ds)
        (known_type-Ends d.type_name (lookup d.type_name capability.entity_types))
        λ model known.
          Ends-map (λ _. AreKnown capability ds) _ (λ _ rest. ((model, known), rest))
            (known_types sources capability ds) (known_types-AreKnown sources capability ds)

  load_entity-Shows :
      (sources : Sources S) (capability : Capability) (index : Index) (d : ParsedDocument S)
      (model : EntityReadModel)
      → lookup d.type_name capability.entity_types ≡ some model
      → Ends (Shows index model d) (load_entity sources capability index d)
  unfolding load_entity
  load_entity-Shows sources capability index d model known =
      subst (λ m. Ends (Shows index m d) (load_entity sources capability index d))
        (ap model_of known)
        (let m = model_of (lookup d.type_name capability.entity_types) in
          Ends-bind
            (λ refs. RefsShown index m.ref_fields d.frontmatter (sorted_keys m.ref_fields) refs.0)
            (Shows index m d)
            (resolve_references index m.ref_fields d.frontmatter (sorted_keys m.ref_fields))
            (λ refs. done (view_of sources m d refs))
            (resolve_references-RefsShown index m.ref_fields d.frontmatter
              (sorted_keys m.ref_fields))
            λ refs shown. view_of-Shows sources index m d refs shown)

  load_views-ShowAll :
      (sources : Sources S) (capability : Capability) (filters : List String) (index : Index)
      (ds : List (ParsedDocument S))
      → AreKnown capability ds
      → Ends
          (ShowAll capability index (select (is_asked_for filters) ds))
          (load_views sources capability filters index ds)
  unfolding load_views
  load_views-ShowAll sources capability filters index [] known = tt
  load_views-ShowAll sources capability filters index (d ∷ ds) ((model, here), known) =
      elim (Bool-cases (is_left_out filters d.type_name)) [
        | inl h ↦ rw h (load_views-ShowAll sources capability filters index ds known)
        | inr h ↦ rw h (
            Ends-bind (Shows index model d) _ (load_entity sources capability index d) _
              (load_entity-Shows sources capability index d model here)
              λ v shows.
                Ends-bind (ShowAll capability index (select (is_asked_for filters) ds)) _
                  (load_views sources capability filters index ds) (λ vs. done (v ∷ vs))
                  (load_views-ShowAll sources capability filters index ds known)
                  λ vs all_shown. ((model, here, shows), all_shown))
      ]

-- When the entities of a workspace are loaded, every document of it was read and has a declared type, whether or not
-- its type is asked for, and the views
-- are those of the documents of the types that are asked for, in the order of their paths: with the type, the id and
-- the repeated sections of the document, the metadata that the schema declares, normalized, and every reference field
-- that it declares, as it is resolved among the ids of all documents.
pub load_entities-ShowAll :
    {S : Scalars} (sources : Sources S) (capability : Capability) (filters : List String)
    → Ends
        (λ views.
          (files : List String) × (documents : List (ParsedDocument S)) × (scan_markdown_files
              sources.walk
            ≡ done files)
          × (parse_documents sources files ≡ done documents)
          × AreKnown capability documents
          × ShowAll capability
              (id_index documents [])
              (select (is_asked_for filters) documents)
              views)
        (load_entities sources capability filters)
unfolding load_entities
load_entities-ShowAll sources capability filters =
    Ends-bind (λ files. scan_markdown_files sources.walk ≡ done files) _
      (scan_markdown_files sources.walk) _ (Ends-done (scan_markdown_files sources.walk))
      λ files scanned.
        Ends-bind (λ documents. parse_documents sources files ≡ done documents) _
          (parse_documents sources files) _ (Ends-done (parse_documents sources files))
          λ documents parsed.
            Ends-bind (λ _. AreKnown capability documents) _
              (known_types sources capability documents) _
              (known_types-AreKnown sources capability documents)
              λ _ known.
                Ends-map
                  (ShowAll capability (id_index documents [])
                    (select (is_asked_for filters) documents))
                  _ (λ views shown. (files, documents, scanned, parsed, known, shown))
                  (load_views sources capability filters (id_index documents []) documents)
                  (load_views-ShowAll sources capability filters (id_index documents []) documents
                    known)
