-- ===== src/Tests/Sources.antt =====
-- A sample workspace: a YAML whose only content is the id of a document.
use spec_cli.Common.{String, true, false, none, [], ◌∷◌, ◌<>◌}
use spec_cli.Common.{◌==◌, string_eq, if◌then◌else◌}
use spec_cli.Values.{str, Value, Fields, end, field, null}
use spec_cli.Write.{WorkspaceEntity}
use spec_cli.Write.Values.{Read, contents, unreadable}
use spec_cli.Update.Preflight.{FileRead, file_contents}
use spec_cli.Frontmatter.{Node, node, Kind, no_nodes}
use spec_cli.Workspace.{Walk, walked}
use spec_cli.Workspace.Add
use spec_cli.Workspace.Update
use spec_cli.Check.Rules.{Evaluated, evaluated, FieldRules}
use spec_cli.Check.Entity.{CheckModel}
use spec_cli.Add.Execute
use spec_cli.Add.{Options}
use spec_cli.Read.Load
use spec_cli.Tests.Data.{numbers, set_rank}
use spec_cli.Tests.Samples.{no_file, no_body_file, seven}

abbrev pub as_mapping : String → Read Node
as_mapping text = contents (node Kind.mapping text no_nodes)

abbrev pub fields_of : String → Fields numbers
fields_of id = field "type" (str "doc") (field "id" (str id) (field "slug" (str id) end))

abbrev pub as_fields : Node → Read (Fields numbers)
as_fields (node _ id _) = contents (fields_of id)

abbrev pub first_text : String
first_text = "---\nDOC-1\n---\ntext\n"

abbrev pub text_at : String → FileRead
text_at path =
    if path == "/a.md" then file_contents first_text else file_contents "---\nDOC-2\n---\n"

abbrev pub two_documents : Walk
two_documents = walked (
    record { path = "/b.md"; is_dir = false; ext = ".md" }
    ∷ record { path = "/a.md"; is_dir = false; ext = ".MD" }
    ∷ record { path = "/c.txt"; is_dir = false; ext = ".txt" }
    ∷ [])

abbrev pub add_sources : Add.Sources numbers
add_sources = record {
  walk = two_documents;
  read_file = text_at;
  unmarshal = as_mapping;
  decode = as_fields;
  relative = λ _ path. contents path;
  dir = λ _. ".";
}

abbrev pub update_sources : Update.Sources numbers
update_sources = record {
  walk = two_documents;
  read_file = text_at;
  unmarshal = as_mapping;
  decode = as_fields;
  clean = λ path. path;
  relative = λ _ path. contents path;
  dir = λ _. ".";
}

abbrev pub indexed_as : String → String → WorkspaceEntity numbers
indexed_as path id = record {
  path_abs = path;
  type_name = "doc";
  id = id;
  slug = id;
  dir_path = "";
  meta = end;
}

abbrev pub add_snapshot : Add.Snapshot numbers
add_snapshot = record {
  workspace_path = "/";
  entities = indexed_as "/a.md" "DOC-1" ∷ indexed_as "/b.md" "DOC-2" ∷ [];
  entities_by_id =
      ("DOC-1", indexed_as "/a.md" "DOC-1" ∷ []) ∷ ("DOC-2", indexed_as "/b.md" "DOC-2" ∷ []) ∷ [];
  slugs_by_type =
      (
        "doc",
        ("DOC-1", indexed_as "/a.md" "DOC-1" ∷ [])
            ∷ ("DOC-2", indexed_as "/b.md" "DOC-2" ∷ [])
            ∷ [],
      )
      ∷ [];
  max_suffix_by_type = ("doc", 2) ∷ [];
  existing_paths = "/b.md" ∷ "/a.md" ∷ [];
}

abbrev pub rank_rules : FieldRules numbers String String
rank_rules = record {
  name = "rank";
  field_type = "integer";
  requirement = record { always = true; expr = none; path = "" };
  enum = [];
  const = none;
  item_type = none;
  unique_items = false;
  min_items = none;
  max_items = none;
}

abbrev pub rank_model : CheckModel numbers String String
rank_model = record {
  id_prefix = "DOC";
  fields = ("rank", rank_rules) ∷ [];
  field_order = "rank" ∷ [];
  sections = [];
  section_order = [];
}

abbrev pub as_null : String → Value numbers → Evaluated (Value numbers)
as_null _ _ = evaluated null

abbrev pub as_itself : String → Value numbers → Evaluated String
as_itself t _ = evaluated t

abbrev pub add_services : Execute.Services numbers String String
add_services = record {
  read_file = no_file;
  parse_yaml = seven;
  read_body = no_body_file;
  stdin = unreadable "closed";
  today = "2026-01-02";
  eval = as_null;
  render = as_itself;
  is_date = λ _. true;
  evaluate_path = λ _. ("c.md", []);
  marshal = λ _. contents "id: DOC-3\n";
  windows = false;
  revision = λ raw. raw;
  join = λ directory path. directory <> path;
  clean = λ path. path;
  stat = λ _. false;
}

abbrev pub add_options : Options
add_options = record {
  entity_type = "doc";
  slug = "third";
  operations = set_rank ∷ [];
  content_file = "";
  content_stdin = false;
  dry_run = false;
}

abbrev pub read_sources : Load.Sources numbers
read_sources = record {
  walk = two_documents;
  read_file = text_at;
  unmarshal = as_mapping;
  decode = as_fields;
  revision = λ raw. raw;
  widen = λ n. n;
}
