-- ===== src/Workspace/Delete.antt =====
-- internal/application/commands/delete/internal/workspace: the documents that delete decides from.
use spec_cli.Common.{String, Option, none, some, [], ◌∷◌, ◌++◌}
use spec_cli.Common.{◌==◌, ◌||◌, string_eq, if◌then◌else◌}
use spec_cli.Common.Text.{trim_space}
use spec_cli.Read.Execute.{Run, done, ◌>>=◌}
use spec_cli.Values.{Scalars, Fields, normalize_fields}
use spec_cli.Write.Values.{Read, contents, unreadable}
use spec_cli.Update.Preflight.{FileRead}
use spec_cli.Update.Candidate.{read_string_field}
use spec_cli.Delete.{Snapshot, ParsedDocument}
use spec_cli.Frontmatter.{Node, parse_frontmatter}
use spec_cli.Frontmatter.Locate.{extract_id_lenient}
use spec_cli.Workspace.{Walk, scan_markdown_files, read_document, for_each}
use spec_cli.Workspace.Update.{is_wanted}

-- The functions of the operating system and of YAML, and the hash of `Revision`.
pub record Sources (S : Scalars) : Type 0 where
  pub walk : Walk
  pub read_file : String → FileRead
  pub unmarshal : String → Read Node
  pub decode : Node → Read (Fields S)
  pub revision : String → String

abbrev text_or_empty : Option String → String
text_or_empty none = ""
text_or_empty (some s) = s

module _ {S : Scalars} (sources : Sources S) where
  -- `ParseDocument`, with the fields that delete takes over.
  unfoldable pub parse_document : String → String → Fields S → ParsedDocument S
  unfolding read_string_field normalize_fields
  parse_document path raw fields = record {
    path_abs = path;
    type_name = text_or_empty (read_string_field "type" fields);
    id = text_or_empty (read_string_field "id" fields);
    revision = sources.revision raw;
    frontmatter = normalize_fields fields;
  }

  note_document : ParsedDocument S → Snapshot S → Snapshot S
  unfolding string_eq
  note_document d s =
      if d.type_name == "" || d.id == "" then s else record s { documents = s.documents ++ d ∷ [] }

  note_parsed : String → String → Read (Fields S × String) → Snapshot S → Snapshot S
  unfolding note_document parse_document
  note_parsed path raw (unreadable _) s = s
  note_parsed path raw (contents (fields, body)) s =
      note_document (parse_document path raw fields) s

  note_target : String → String → String → Snapshot S → Snapshot S
  unfolding is_wanted extract_id_lenient
  note_target wanted path raw s =
      if is_wanted wanted (extract_id_lenient sources.unmarshal sources.decode raw)
      then record s { target_matches = s.target_matches ++ path ∷ [] }
      else s

  -- One round of the loop over the files.
  unfoldable pub enter_file : String → String → Snapshot S → Run (Snapshot S)
  unfolding read_document note_parsed note_target parse_frontmatter
  enter_file wanted path s = read_document (sources.read_file path) >>= λ raw. done (
      note_parsed path raw (parse_frontmatter sources.unmarshal sources.decode raw)
        (note_target wanted path raw s))

  -- `BuildSnapshot`
  unfoldable pub build_snapshot : String → Run (Snapshot S)
  unfolding scan_markdown_files for_each enter_file trim_space
  build_snapshot target_id = scan_markdown_files sources.walk >>= λ files.
      for_each (enter_file (trim_space target_id)) files
        (record { documents = []; target_matches = [] })
