-- ===== src/Workspace/Update.antt =====
-- internal/application/commands/update/internal/workspace (snapshot.go, frontmatter.go): the workspace that an update
-- works in, and the documents that its target may be.
pub mod Laws
use spec_cli.Common.{String, Option, none, some, Bool, true, false, not, List, [], ◌∷◌, ◌++◌}
use spec_cli.Common.{◌==◌, ◌&&◌, string_eq, if◌then◌else◌}
use spec_cli.Common.Dict.{Dict}
use spec_cli.Common.Text.{trim_space}
use spec_cli.Read.Execute.{Run, done, refused, panicked, ◌>>=◌}
use spec_cli.Values.{Scalars, Fields, str}
use spec_cli.Values.Entries.{put}
use spec_cli.Write.{WorkspaceEntity}
use spec_cli.Write.Values.{Read, contents, unreadable}
use spec_cli.Update.Preflight.{FileRead}
use spec_cli.Update.Candidate.{read_string_field}
use spec_cli.Update.Execute.{TargetMatch}
use spec_cli.Frontmatter.{Node, parse_frontmatter}
use spec_cli.Frontmatter.Locate.{extract_id_lenient}
use spec_cli.Workspace.{
  Walk, scan_markdown_files, read_document, for_each, Identity, identity_of, placed, add_to,
  add_slug,
}

-- `Snapshot`
pub record Snapshot (S : Scalars) : Type 0 where
  pub workspace_path : String
  pub entities : List (WorkspaceEntity S)
  pub entities_by_id : Dict (List (WorkspaceEntity S))
  pub slugs_by_type : Dict (Dict (List (WorkspaceEntity S)))
  pub existing_paths : List String
  pub target_matches : List TargetMatch

-- The functions of the operating system, of YAML and of path/filepath.
pub record Sources (S : Scalars) : Type 0 where
  pub walk : Walk
  pub read_file : String → FileRead
  pub unmarshal : String → Read Node
  pub decode : Node → Read (Fields S)
  pub clean : String → String
  pub relative : String → String → Read String
  pub dir : String → String

module _ {S : Scalars} where
  dated : String → Option String → Fields S → Fields S
  unfolding put
  dated key none fields = fields
  dated key (some value) fields = put key (str value) fields

  -- `normalizeBuiltinDate`
  unfoldable pub normalize_builtin_date : String → Fields S → Fields S
  unfolding dated read_string_field
  normalize_builtin_date key fields = dated key (read_string_field key fields) fields

  dates_normalized : Read (Fields S × String) → Read (Fields S × String)
  unfolding normalize_builtin_date
  dates_normalized (contents (fields, body)) =
      contents
        (normalize_builtin_date "updatedDate" (normalize_builtin_date "createdDate" fields), body)
  dates_normalized (unreadable reason) = unreadable reason

-- The lenient id of the document is the wanted one.
unfoldable pub is_wanted : String → Option String → Bool
unfolding string_eq
is_wanted wanted none = false
is_wanted wanted (some id) = not (wanted == "") && id == wanted

module _ {S : Scalars} (sources : Sources S) where
  -- `ParseWithNormalizedDates`
  unfoldable pub parse_with_normalized_dates : String → Read (Fields S × String)
  unfolding dates_normalized parse_frontmatter
  parse_with_normalized_dates raw =
      dates_normalized (parse_frontmatter sources.unmarshal sources.decode raw)

  -- The document may be the target.
  unfoldable pub matching : String → String → Bool
  unfolding is_wanted extract_id_lenient
  matching wanted raw = is_wanted wanted (extract_id_lenient sources.unmarshal sources.decode raw)

  unfoldable pub note_target : String → String → String → Snapshot S → Snapshot S
  unfolding matching
  note_target wanted path raw s =
      if matching wanted raw
      then record s {
        target_matches = s.target_matches ++ record { path_abs = path; raw = raw } ∷ [];
      }
      else s

  enter : WorkspaceEntity S → Snapshot S → Snapshot S
  unfolding add_to add_slug
  enter e s = record s {
    entities = s.entities ++ e ∷ [];
    entities_by_id = add_to e.id e s.entities_by_id;
    slugs_by_type = add_slug e s.slugs_by_type;
  }

  enter_named : String → Fields S → Option Identity → Snapshot S → Run (Snapshot S)
  unfolding enter placed
  enter_named path fields none s = done s
  enter_named path fields (some who) s =
      placed sources.dir path who fields (sources.relative s.workspace_path path) >>= λ e.
      done (enter e s)

  enter_parsed : String → Read (Fields S × String) → Snapshot S → Run (Snapshot S)
  unfolding enter_named identity_of
  enter_parsed path (unreadable _) s = done s
  enter_parsed path (contents (fields, body)) s = enter_named path fields (identity_of fields) s

  -- A document that was read, at its clean path.
  enter_raw : String → String → String → Snapshot S → Run (Snapshot S)
  unfolding enter_parsed note_target parse_with_normalized_dates
  enter_raw wanted path raw s =
      enter_parsed path (parse_with_normalized_dates raw) (note_target wanted path raw s)

  -- One round of the loop over the files.
  unfoldable pub enter_file : String → String → Snapshot S → Run (Snapshot S)
  unfolding enter_raw read_document
  enter_file wanted path s =
      let at = sources.clean path in
      read_document (sources.read_file at) >>= λ raw.
      enter_raw wanted at raw (record s { existing_paths = at ∷ s.existing_paths })

  unfoldable pub empty_snapshot : String → Snapshot S
  empty_snapshot workspace_path = record {
    workspace_path = workspace_path;
    entities = [];
    entities_by_id = [];
    slugs_by_type = [];
    existing_paths = [];
    target_matches = [];
  }

  -- `BuildSnapshot`
  unfoldable pub build_snapshot : String → String → Run (Snapshot S)
  unfolding scan_markdown_files for_each enter_file empty_snapshot trim_space
  build_snapshot workspace_path target_id = scan_markdown_files sources.walk >>= λ files.
      for_each (enter_file (trim_space target_id)) files (empty_snapshot workspace_path)
