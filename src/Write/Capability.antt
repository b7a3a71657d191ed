-- ===== src/Write/Capability.antt =====
-- internal/application/schema/capabilities/write/builder.go, and internal/application/collections/collections.go:
-- what may be written to an entity type, out of the compiled schema. A Go map that is ranged over is an association
-- list without double keys.
pub mod Order
pub mod Listed
use spec_cli.Common.{
  ℕ, String, ◌<>◌, Bool, true, false, not, Option, none, some, List, [], ◌∷◌, ◌++◌, map,
}
use spec_cli.Common.{◌==◌, ◌&&◌, ◌||◌, string_eq, nat_eq, if◌then◌else◌, length, select, sort_by}
use spec_cli.Common.Dict.{Dict, lookup, insert, keys, has, contains}
use spec_cli.Common.Text.{str_lt}
use spec_cli.Write.{WritePathKind, meta, ref, section, WritePathSpec, MetaField, EntityTypeSpec}

-- `ValueKind`; `other` stands for a kind that the source does not name.
pub data ValueKind : Type 0 where
  unknown string number integer boolean array entity_ref other : ValueKind

-- `TypeName`
unfoldable pub type_name : ValueKind → String
type_name string = "string"
type_name number = "number"
type_name integer = "integer"
type_name boolean = "boolean"
type_name array = "array"
type_name entity_ref = "entityRef"
type_name unknown = "unknown"
type_name other = "unknown"

pub data RefCardinality : Type 0 where
  scalar_ref array_ref : RefCardinality

pub record RefSpec : Type 0 where
  pub cardinality : RefCardinality
  pub allowed_types : List String

-- The items of an array: what the builder reads of their `ValueSpec`.
pub record ItemSpec : Type 0 where
  pub item_ref : Option RefSpec

-- `MetaField` and `ValueSpec` of the compiled schema, `Section` as its title, and `EntityType`.
pub record SchemaField : Type 0 where
  pub name : String
  pub kind : ValueKind
  pub ref_spec : Option RefSpec
  pub items : Option ItemSpec

pub record SchemaEntity : Type 0 where
  pub fields : Dict SchemaField
  pub field_order : List String
  pub section_titles : Dict String
  pub titles_order : List String
  pub has_content : Bool

-- The loop of `OrderedKeys` over the declared keys; `seen` are those that it has kept.
unfoldable pub declared_keys {ℓ} : {V : Type ℓ} → List String → List String → Dict V → List String
unfolding lookup
declared_keys seen [] d = []
declared_keys seen (k ∷ ks) d =
    let kept = k ∷ declared_keys (k ∷ seen) ks d in
    let rest = declared_keys seen ks d in
    if not (has k d) then rest else if contains seen k then rest else kept

-- `OrderedKeys`
unfoldable pub ordered_keys {ℓ} : {V : Type ℓ} → List String → Dict V → List String
unfolding declared_keys keys sort_by str_lt
ordered_keys declared d =
    let ordered = declared_keys [] declared d in
    if length ordered == length d
    then ordered
    else ordered ++ sort_by str_lt (select (λ k. not (contains ordered k)) (keys d))

abbrev pub is_scalar : Option RefSpec → Bool
is_scalar none = false
is_scalar (some r) = elim r.cardinality [ scalar_ref ↦ true | array_ref ↦ false ]

abbrev pub types_of : Option RefSpec → List String
types_of none = []
types_of (some r) = r.allowed_types

-- The reference of the items of an array field.
abbrev pub array_ref_of : ValueKind → Option ItemSpec → Option RefSpec
array_ref_of array (some i) = i.item_ref
array_ref_of array none = none
array_ref_of unknown _ = none
array_ref_of string _ = none
array_ref_of number _ = none
array_ref_of integer _ = none
array_ref_of boolean _ = none
array_ref_of entity_ref _ = none
array_ref_of other _ = none

abbrev pub is_there : {A : Type 0} → Option A → Bool
is_there none = false
is_there (some _) = true

-- `buildMetaField`, with the fields that writing and resolving read.
unfoldable pub build_meta_field : SchemaField → MetaField
unfolding type_name
build_meta_field field = record {
  name = field.name;
  field_type = type_name field.kind;
  is_entity_ref = is_scalar field.ref_spec;
  is_entity_ref_array = is_there (array_ref_of field.kind field.items);
  ref_types = types_of field.ref_spec;
  item_ref_types = types_of (array_ref_of field.kind field.items);
}

unfoldable pub build_fields : Dict SchemaField → Dict MetaField
unfolding build_meta_field
build_fields [] = []
build_fields ((k, field) ∷ d) = (k, build_meta_field field) ∷ build_fields d

abbrev pub is_ref_field : Option MetaField → Bool
is_ref_field none = false
is_ref_field (some field) = field.is_entity_ref || field.is_entity_ref_array

-- The path of a field, and what it stands for.
unfoldable pub field_path : Dict MetaField → String → String × WritePathSpec
unfolding lookup
field_path fields name =
    if is_ref_field (lookup name fields)
    then ("refs." <> name, record { kind = ref; field_name = name })
    else ("meta." <> name, record { kind = meta; field_name = name })

unfoldable pub section_path : String → String × WritePathSpec
section_path name = ("content.sections." <> name, record { kind = section; field_name = name })

unfoldable pub allow_all : List (String × WritePathSpec) → Dict WritePathSpec → Dict WritePathSpec
unfolding insert
allow_all [] d = d
allow_all ((path, spec) ∷ ps) d = allow_all ps (insert path spec d)

-- The loop of `dedupeSorted`; `last` is the one that was kept before.
unfoldable pub dedupe_from : Option String → List String → List String
dedupe_from last [] = []
dedupe_from none (x ∷ xs) = x ∷ dedupe_from (some x) xs
dedupe_from (some y) (x ∷ xs) =
    let rest = dedupe_from (some x) xs in if y == x then rest else x ∷ rest

-- `dedupeSorted`
unfoldable pub dedupe_sorted : List String → List String
unfolding dedupe_from sort_by str_lt
dedupe_sorted values = dedupe_from none (sort_by str_lt values)

-- `Build`, for one entity type.
unfoldable pub build_entity : SchemaEntity → EntityTypeSpec
unfolding ordered_keys build_fields field_path section_path allow_all dedupe_sorted keys
build_entity entity =
    let fields = build_fields entity.fields in
    let field_paths = map (field_path fields) (ordered_keys entity.field_order entity.fields) in
    let section_paths = map section_path (ordered_keys entity.titles_order entity.section_titles) in
    record {
      meta_fields = fields;
      meta_field_order = ordered_keys entity.field_order entity.fields;
      sections = entity.section_titles;
      section_order = ordered_keys entity.titles_order entity.section_titles;
      has_content = entity.has_content;
      allow_write_paths = allow_all section_paths (allow_all field_paths []);
      allow_set_file_paths = keys section_paths;
      set_paths = dedupe_sorted (keys field_paths ++ keys section_paths);
      unset_paths = dedupe_sorted (keys field_paths ++ keys section_paths);
    }
