-- ===== src/Read/Capability.antt =====
-- internal/application/schema/capabilities/read/builder.go: what the read side knows of the entity
-- types, and the questions of internal/application/selectors about reference fields.
use spec_cli.Common.{String, Bool, true, false, none, some, List, [], ◌∷◌, ◌||◌, Eq}
use spec_cli.Common.Dict.{Dict, lookup, has, contains}

pub data FieldKind : Type 0 where
  unknown string date number boolean array : FieldKind

FieldKind-discrete : Discrete FieldKind
FieldKind-discrete = hlevel

instance unfoldable pub kind_eq : Eq FieldKind
unfolding FieldKind-discrete
kind_eq = record { dec = FieldKind-discrete }

-- `MetaField`, with the fields that selectors and sorts read.
pub record MetaField : Type 0 where
  pub kind : FieldKind
  pub required : Bool

pub data RefCardinality : Type 0 where
  scalar_ref array_ref : RefCardinality

pub record RefField : Type 0 where
  pub cardinality : RefCardinality
  pub allowed_types : List String

pub record Section : Type 0 where
  pub required : Bool

pub record EntityReadModel : Type 0 where
  pub meta_fields : Dict MetaField
  pub ref_fields : Dict RefField
  pub sections : Dict Section

pub record Capability : Type 0 where
  pub entity_types : Dict EntityReadModel
  pub entity_order : List String

abbrev empty_model : EntityReadModel
empty_model = record { meta_fields = []; ref_fields = []; sections = [] }

-- `capability.EntityTypes[typeName]`, the zero value where the type is not there.
unfoldable pub entity_type : Capability → String → EntityReadModel
entity_type capability name = elim (lookup name capability.entity_types) [
  | none ↦ empty_model
  | some m ↦ m
]

abbrev ref_leaves : List String
ref_leaves = "id" ∷ "resolved" ∷ "type" ∷ "slug" ∷ "reason" ∷ []

-- `IsRefLeaf`
unfoldable pub is_ref_leaf : String → Bool
is_ref_leaf name = contains ref_leaves name

module _ (field : String) (capability : Capability) where
  -- `HasRefField`
  unfoldable pub has_ref_field : List String → Bool
  unfolding entity_type
  has_ref_field [] = false
  has_ref_field (t ∷ ts) = has field (entity_type capability t).ref_fields || has_ref_field ts

  -- The loop of `RefLeafCompatibility`: (compatible, exists).
  unfoldable pub ref_leaf_from : List String → Bool → Bool → Bool × Bool
  unfolding entity_type
  ref_leaf_from [] has_scalar present = (has_scalar, present)
  ref_leaf_from (t ∷ ts) has_scalar present =
      elim (lookup field (entity_type capability t).ref_fields) [
        | none ↦ ref_leaf_from ts has_scalar present
        | some spec ↦ elim spec.cardinality [
          | array_ref ↦ (false, true)
          | scalar_ref ↦ ref_leaf_from ts true true
        ]
      ]

  unfoldable pub ref_leaf_compatibility : List String → Bool × Bool
  unfolding ref_leaf_from
  ref_leaf_compatibility active = ref_leaf_from active false false
