-- ===== src/Write/Capability/Listed.antt =====
-- internal/application/schema/capabilities/write/builder.go: the paths of an entity type.
use spec_cli.Common.{
  String, ◌≡◌, refl, sym, ◌∙◌, ap, subst, Bool, true, false, not, some, List, [], ◌∷◌, ◌++◌, map,
  arith, inl, inr,
}
use spec_cli.Common.{◌==◌, ◌||◌, string_eq, if◌then◌else◌, Bool-cases, All}
use spec_cli.Common.Dict.{Dict, lookup, insert, keys, has, contains, lookup-insert}
use spec_cli.Write.{WritePathKind, meta, ref, section, WritePathSpec, MetaField, EntityTypeSpec}
use spec_cli.Write.Capability.{
  SchemaEntity, is_there, allow_all, build_entity, build_fields, field_path, section_path,
  is_ref_field, ordered_keys, dedupe_sorted,
}
use spec_cli.Write.Capability.Order.{contains-append, contains-dedupe_sorted}

or_left : (a b : Bool) → (a || b) ≡ false → a ≡ false
or_left a b h = grind arith

or_right : (a b : Bool) → (a || b) ≡ false → b ≡ false
or_right a b h = grind arith

first_of : (a b : Bool) → (a || b) ≡ true → b ≡ false → a ≡ true
first_of a b h n = grind arith

swapped : (a b : Bool) → (a || (b || false)) ≡ (b || a)
swapped a b = grind arith

some-injective : {v w : WritePathSpec} → some v ≡ some w → v ≡ w
some-injective h = cc

has-insert :
    (j k : String) (v : WritePathSpec) (d : Dict WritePathSpec)
    → has j (insert k v d) ≡ (k == j || has j d)
has-insert j k v d =
    ap is_there (lookup-insert j k v d)
    ∙ (elim (Bool-cases (k == j)) [ inl e ↦ rw e refl | inr e ↦ rw e refl ])

has-allow_all :
    (j : String) (ps d : Dict WritePathSpec)
    → has j (allow_all ps d) ≡ (contains (keys ps) j || has j d)
unfolding allow_all keys
has-allow_all j [] d = refl
has-allow_all j ((k, v) ∷ ps) d =
    has-allow_all j ps (insert k v d) ∙ rw (has-insert j k v d) (grind arith)

module _ (P : WritePathSpec → Type 0) where
  abbrev AllStand : Dict WritePathSpec → Type 0
  AllStand ps = All (λ (_, at). P at) ps

  insert-AllStand :
      (k : String) (v : WritePathSpec) (d : Dict WritePathSpec)
      → P v
      → AllStand d
      → AllStand (insert k v d)
  unfolding insert
  insert-AllStand k v [] p all = (p, tt)
  insert-AllStand k v ((j, w) ∷ d) p (q, all) = elim (Bool-cases (j == k)) [
    | inl e ↦ rw e (p, all)
    | inr e ↦ rw e (q, insert-AllStand k v d p all)
  ]

  allow_all-AllStand :
      (ps d : Dict WritePathSpec) → AllStand ps → AllStand d → AllStand (allow_all ps d)
  unfolding allow_all
  allow_all-AllStand [] d all rest = rest
  allow_all-AllStand ((k, v) ∷ ps) d (p, all) rest =
      allow_all-AllStand ps (insert k v d) all (insert-AllStand k v d p rest)

  lookup-AllStand :
      (k : String) (d : Dict WritePathSpec) (v : WritePathSpec)
      → lookup k d ≡ some v
      → AllStand d
      → P v
  unfolding lookup
  lookup-AllStand k [] v h all = cc
  lookup-AllStand k ((j, w) ∷ d) v h (p, all) = elim (Bool-cases (j == k)) [
    | inl e ↦
        subst P (some-injective (subst (λ b. (if b then some w else lookup k d) ≡ some v) e h)) p
    | inr e ↦
        lookup-AllStand k d v (subst (λ b. (if b then some w else lookup k d) ≡ some v) e h) all
  ]

  lookup-allow_all_other :
      (j : String) (ps d : Dict WritePathSpec)
      → contains (keys ps) j ≡ false
      → lookup j (allow_all ps d) ≡ lookup j d
  unfolding allow_all keys
  lookup-allow_all_other j [] d n = refl
  lookup-allow_all_other j ((k, v) ∷ ps) d n =
      lookup-allow_all_other j ps (insert k v d) (or_right _ _ n)
      ∙ lookup-insert j k v d
      ∙ rw (or_left (k == j) (contains (keys ps) j) n) refl

  lookup-allow_all :
      (j : String) (ps d : Dict WritePathSpec)
      → contains (keys ps) j ≡ true
      → AllStand ps
      → (v : WritePathSpec) × (lookup j (allow_all ps d) ≡ some v) × P v
  unfolding allow_all keys
  lookup-allow_all j [] d h all = cc
  lookup-allow_all j ((k, v) ∷ ps) d h (p, all) = elim (Bool-cases (contains (keys ps) j)) [
    | inl e ↦ lookup-allow_all j ps (insert k v d) e all
    | inr e ↦ (
      v,
      lookup-allow_all_other j ps (insert k v d) e
          ∙ lookup-insert j k v d
          ∙ rw (first_of (k == j) (contains (keys ps) j) h e) refl,
      p,
    )
  ]

-- What a specification says of the field that it names: a reference path names a reference field, and a meta path
-- does not.
abbrev pub stands : Dict MetaField → WritePathKind → String → Bool
stands fields meta name = not (is_ref_field (lookup name fields))
stands fields ref name = is_ref_field (lookup name fields)
stands fields section name = true

abbrev IsField : Dict MetaField → WritePathSpec → Type 0
IsField fields at = stands fields at.kind at.field_name ≡ true

abbrev IsSection : WritePathSpec → Type 0
IsSection at = at.kind ≡ section

field_path-IsField :
    (fields : Dict MetaField) (name : String) → IsField fields (field_path fields name).1
unfolding field_path
field_path-IsField fields name = elim (Bool-cases (is_ref_field (lookup name fields))) [
  | inl e ↦ rw e e
  | inr e ↦ rw e (rw e refl)
]

all_fields_fit :
    (fields : Dict MetaField) (names : List String)
    → AllStand (IsField fields) (map (field_path fields) names)
all_fields_fit fields [] = tt
all_fields_fit fields (n ∷ ns) = (field_path-IsField fields n, all_fields_fit fields ns)

section_paths-AllStand :
    (P : WritePathSpec → Type 0)
    → ((name : String) → P (record { kind = section; field_name = name }))
    → (names : List String) → AllStand P (map section_path names)
unfolding section_path
section_paths-AllStand P p [] = tt
section_paths-AllStand P p (n ∷ ns) = (p n, section_paths-AllStand P p ns)

-- In the model that is built for an entity type, the specification of a path fits the field that it names, and a
-- path that may be set from a file is a section's.
pub record IsBuilt (spec : EntityTypeSpec) : Type 0 where
  pub field_fits :
      (path : String) (at : WritePathSpec)
      → lookup path spec.allow_write_paths ≡ some at
      → stands spec.meta_fields at.kind at.field_name ≡ true
  pub file_is_section :
      (path : String)
      → contains spec.allow_set_file_paths path ≡ true
      → (at : WritePathSpec) × (lookup path spec.allow_write_paths ≡ some at) × (at.kind ≡ section)

pub build_entity-IsBuilt : (entity : SchemaEntity) → IsBuilt (build_entity entity)
unfolding build_entity
build_entity-IsBuilt entity =
    let fields = build_fields entity.fields in
    let field_paths = map (field_path fields) (ordered_keys entity.field_order entity.fields) in
    let names = ordered_keys entity.titles_order entity.section_titles in
    record {
      field_fits = λ path at h.
          lookup-AllStand (IsField fields) path
            (allow_all (map section_path names) (allow_all field_paths [])) at h
            (allow_all-AllStand (IsField fields) (map section_path names) (allow_all field_paths [])
              (section_paths-AllStand (IsField fields) (λ _. refl) names)
              (allow_all-AllStand (IsField fields) field_paths []
                (all_fields_fit fields (ordered_keys entity.field_order entity.fields)) tt));
      file_is_section = λ path h.
          lookup-allow_all IsSection path (map section_path names) (allow_all field_paths []) h
            (section_paths-AllStand IsSection (λ _. refl) names);
    }

same_paths :
    (fields sections : Dict WritePathSpec) (path : String)
    → contains (dedupe_sorted (keys fields ++ keys sections)) path
      ≡ has path (allow_all sections (allow_all fields []))
unfolding lookup
same_paths fields sections path =
    contains-dedupe_sorted (keys fields ++ keys sections) path
    ∙ contains-append (keys fields) (keys sections) path
    ∙ sym (
        has-allow_all path sections (allow_all fields [])
        ∙ rw (has-allow_all path fields [])
            (swapped (contains (keys sections) path) (contains (keys fields) path)))

-- In the model that is built for an entity type, the paths that may be set and those that may be unset are the
-- same, and they are the paths that have a specification.
pub build_entity-listed :
    (entity : SchemaEntity) (path : String)
    → let spec = build_entity entity in
      (contains spec.set_paths path ≡ has path spec.allow_write_paths)
      × (contains spec.unset_paths path ≡ has path spec.allow_write_paths)
unfolding build_entity
build_entity-listed entity path =
    let fields =
      map (field_path (build_fields entity.fields))
        (ordered_keys entity.field_order entity.fields) in
    let sections = map section_path (ordered_keys entity.titles_order entity.section_titles) in
    (same_paths fields sections path, same_paths fields sections path)
