-- ===== src/Tests/Samples.antt =====
-- Sample data for writing: an update, a schema, a run of the storage.
use spec_cli.Common.{String, true, false, none, some, [], ◌∷◌, ◌++◌, ◌<>◌}
use spec_cli.Values.{Value, str, num, Fields, end, field}
use spec_cli.IoFailure.{Failure, not_there, other_failure}
use spec_cli.Write.{set}
use spec_cli.Write.Values.{Read, contents, unreadable}
use spec_cli.Write.Capability.{SchemaEntity, ValueKind, RefCardinality}
use spec_cli.Update.Preflight
use spec_cli.Update.Preflight.{FileRead, file_failed, keep_body}
use spec_cli.Update.Apply
use spec_cli.Update.Apply.{field_set}
use spec_cli.Update.Execute
use spec_cli.Update.Execute.{Services}
use spec_cli.Update.Storage.{Answers, succeeded}
use spec_cli.Update.Storage.Move.{both_refused}
use spec_cli.Delete.{Disk}
use spec_cli.Add
use spec_cli.Tests.Data.{numbers, set_rank}

-- An update that sets the rank of a document, with a decoder that knows the one value.
abbrev pub update_options : Preflight.Options
update_options = record {
  id = "DOC-1";
  operations = set_rank ∷ [];
  body_operation = keep_body;
  body_file = "";
  expect_revision = "";
  dry_run = false;
}

abbrev pub no_file : String → Read String
no_file _ = unreadable "no such file"

abbrev pub no_body_file : String → FileRead
no_body_file _ = file_failed (record { kind = not_there; detail = "no such file" })

abbrev pub seven : String → Read (Value numbers)
seven _ = contents (num 7)

abbrev pub ranked : Fields numbers
ranked = field "rank" (num 3) (field "owner" (str "U-1") end)

abbrev pub reranked : Apply.WriteResult numbers
reranked = record {
  frontmatter = field "rank" (num 7) (field "owner" (str "U-1") end);
  body = "text";
  user_changed = true;
  changes = field_set "meta.rank" (some (num 3)) (num 7) ∷ [];
}

-- A type of the schema with a field, a reference and a section.
abbrev pub note_schema : SchemaEntity
note_schema = record {
  fields =
      ("rank", record { name = "rank"; kind = ValueKind.integer; ref_spec = none; items = none })
      ∷ (
        "owner",
        record {
          name = "owner";
          kind = ValueKind.entity_ref;
          ref_spec =
              some
                (record { cardinality = RefCardinality.scalar_ref; allowed_types = "user" ∷ [] });
          items = none;
        },
      )
      ∷ [];
  field_order = "owner" ∷ [];
  section_titles = ("goal", "The goal") ∷ [];
  titles_order = "goal" ∷ [];
  has_content = true;
}

abbrev pub note_options : Add.Options
note_options = record {
  entity_type = "note";
  slug = "ship";
  operations =
      record { kind = set; path = "refs.owner"; raw_value = "U-1" }
      ∷ record { kind = set; path = "content.sections.goal"; raw_value = "Ship it." }
      ∷ [];
  content_file = "";
  content_stdin = false;
  dry_run = false;
}

abbrev pub no_failure : Failure
no_failure = record { kind = other_failure; detail = "disk full" }

-- The answers of a run without a failure.
abbrev pub all_succeeds : Answers
all_succeeds = record (both_refused ".tmp" ".backup" no_failure no_failure) {
  rename_back = succeeded;
  rename_target = succeeded;
}

abbrev pub two_files : Disk
two_files = ("/a.md", "old") ∷ ("/b.md", "other") ∷ []

-- Services that know one document, find no issues and leave every path as it is.
abbrev pub plain_services : Services numbers
plain_services = record {
  parse = λ _.
      contents
        (field "type" (str "doc") (field "id" (str "DOC-1") (field "rank" (num 3) end)), "text");
  revision = λ raw. raw;
  hash = λ s. s;
  today = "2026-01-02";
  evaluate_path = λ _. ("a.md", []);
  check = λ _ path_issues ref_issues. path_issues ++ ref_issues;
  serialize = λ _. contents "new";
  join = λ directory path. directory <> path;
  relative = λ _ _. contents "a.md";
  clean = λ path. path;
  stat = λ _. false;
  read_file = no_file;
  parse_yaml = seven;
  read_body = no_body_file;
  stdin = unreadable "closed";
}

abbrev pub one_match : Execute.Snapshot numbers
one_match = record {
  workspace_path = "/";
  entities_by_id = [];
  existing_paths = "/a.md" ∷ "/b.md" ∷ [];
  target_matches = record { path_abs = "/a.md"; raw = "old" } ∷ [];
}
