-- ===== src/Write.antt =====
-- internal/application/commands/internal/writemodel/types.go and the write capability: what add and
-- update share.
pub mod Values
pub mod Paths
pub mod Capability
use spec_cli.Common.{ℕ, String, Bool, true, false, Option, none, some, List, [], ◌∷◌}
use spec_cli.Common.Dict.{Dict}
use spec_cli.Values.{Scalars, Value, Fields}

pub data WriteOperationKind : Type 0 where
  set set_file unset : WriteOperationKind

pub record WriteOperation : Type 0 where
  pub kind : WriteOperationKind
  pub path : String
  pub raw_value : String

pub data WritePathKind : Type 0 where
  meta ref section : WritePathKind

pub record WritePathSpec : Type 0 where
  pub kind : WritePathKind
  pub field_name : String

-- `MetaField`, with the fields that writing and resolving read.
pub record MetaField : Type 0 where
  pub name : String
  pub field_type : String
  pub is_entity_ref : Bool
  pub is_entity_ref_array : Bool
  pub ref_types : List String
  pub item_ref_types : List String

-- `EntityWriteModel`, with the fields that writing reads; a section is its title.
pub record EntityTypeSpec : Type 0 where
  pub meta_fields : Dict MetaField
  pub meta_field_order : List String
  pub sections : Dict String
  pub section_order : List String
  pub has_content : Bool
  pub allow_write_paths : Dict WritePathSpec
  pub allow_set_file_paths : List String
  pub set_paths : List String
  pub unset_paths : List String

-- `WorkspaceEntity` and `ResolvedRef`, with the fields that a reference takes over.
pub record WorkspaceEntity (S : Scalars) : Type 0 where
  pub path_abs : String
  pub type_name : String
  pub id : String
  pub slug : String
  pub dir_path : String
  pub meta : Fields S

pub record ResolvedRef (S : Scalars) : Type 0 where
  pub type_name : String
  pub id : String
  pub slug : String
  pub dir_path : String
  pub meta : Fields S

-- `domainvalidation.Issue`, with the parts that differ; the level, the class and the entity of the
-- candidate are the same for all of a run.
pub record Issue : Type 0 where
  pub code : String
  pub message : String
  pub standard_ref : String
  pub field : String
