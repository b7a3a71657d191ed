-- ===== src/Workspace/Add.antt =====
-- internal/application/commands/add/internal/workspace/snapshot.go: the workspace that a new entity is placed against.
pub mod Laws
use spec_cli.Common.{ℕ, String, Option, none, some, List, [], ◌∷◌, ◌++◌}
use spec_cli.Common.Dict.{Dict, lookup, insert}
use spec_cli.Read.Execute.{Run, done, refused, panicked, ◌>>=◌}
use spec_cli.Values.{Scalars, Fields}
use spec_cli.Write.{WorkspaceEntity}
use spec_cli.Write.Values.{Read, contents, unreadable}
use spec_cli.Update.Preflight.{FileRead}
use spec_cli.Ids.{parse_suffix, larger}
use spec_cli.Frontmatter.{Node, parse_frontmatter}
use spec_cli.Workspace.{
  Walk, scan_markdown_files, read_document, for_each, Identity, identity_of, placed, add_to,
  add_slug,
}

-- `Snapshot`; a type without an entry in `max_suffix_by_type` is one with the -1 of the source.
pub record Snapshot (S : Scalars) : Type 0 where
  pub workspace_path : String
  pub entities : List (WorkspaceEntity S)
  pub entities_by_id : Dict (List (WorkspaceEntity S))
  pub slugs_by_type : Dict (Dict (List (WorkspaceEntity S)))
  pub max_suffix_by_type : Dict ℕ
  pub existing_paths : List String

-- The functions of the operating system, of YAML and of path/filepath.
pub record Sources (S : Scalars) : Type 0 where
  pub walk : Walk
  pub read_file : String → FileRead
  pub unmarshal : String → Read Node
  pub decode : Node → Read (Fields S)
  pub relative : String → String → Read String
  pub dir : String → String

note_number : String → Option ℕ → Dict ℕ → Dict ℕ
unfolding insert lookup
note_number type_name none d = d
note_number type_name (some suffix) d = insert type_name (larger (lookup type_name d) suffix) d

-- The highest suffix of each type, with the prefixes of the known types.
unfoldable pub note_type : Option String → String → String → Dict ℕ → Dict ℕ
unfolding note_number parse_suffix
note_type none type_name id d = d
note_type (some prefix) type_name id d = note_number type_name (parse_suffix id prefix) d

module _ {S : Scalars} (sources : Sources S) (prefixes : Dict String) where
  -- An entity is entered into the indexes.
  unfoldable pub enter : WorkspaceEntity S → Snapshot S → Snapshot S
  unfolding add_to add_slug note_type lookup
  enter e s = record s {
    entities = s.entities ++ e ∷ [];
    entities_by_id = add_to e.id e s.entities_by_id;
    slugs_by_type = add_slug e s.slugs_by_type;
    max_suffix_by_type =
        note_type (lookup e.type_name prefixes) e.type_name e.id s.max_suffix_by_type;
  }

  enter_named : String → Fields S → Option Identity → Snapshot S → Run (Snapshot S)
  unfolding enter placed
  enter_named path fields none s = done s
  enter_named path fields (some who) s =
      placed sources.dir path who fields (sources.relative s.workspace_path path) >>= λ e.
      done (enter e s)

  enter_parsed : String → Read (Fields S × String) → Snapshot S → Run (Snapshot S)
  unfolding enter_named identity_of
  enter_parsed path (unreadable _) s = done s
  enter_parsed path (contents (fields, body)) s = enter_named path fields (identity_of fields) s

  -- One round of the loop over the files.
  unfoldable pub enter_file : String → Snapshot S → Run (Snapshot S)
  unfolding enter_parsed read_document parse_frontmatter
  enter_file path s = read_document (sources.read_file path) >>= λ raw.
      enter_parsed path (parse_frontmatter sources.unmarshal sources.decode raw)
        (record s { existing_paths = path ∷ s.existing_paths })

  unfoldable pub empty_snapshot : String → Snapshot S
  empty_snapshot workspace_path = record {
    workspace_path = workspace_path;
    entities = [];
    entities_by_id = [];
    slugs_by_type = [];
    max_suffix_by_type = [];
    existing_paths = [];
  }

  -- `BuildSnapshot`
  unfoldable pub build_snapshot : String → Run (Snapshot S)
  unfolding scan_markdown_files for_each enter_file empty_snapshot
  build_snapshot workspace_path = scan_markdown_files sources.walk >>= λ files.
      for_each enter_file files (empty_snapshot workspace_path)
