-- ===== src/Tests/Data.antt =====
-- Sample documents, plans and requests: numbers are natural ones, and times are their dates.
use spec_cli.Common.{
  ℕ, String, true, false, none, List, [], ◌∷◌, ◌==◌, nat_eq, string_eq, ltb, sort_by,
}
use spec_cli.Common.Decimal.{itoa}
use spec_cli.Values.{Scalars, str, num, object, Fields, end, field}
use spec_cli.Selectors.{insert, new_tree}
use spec_cli.Read.Capability.{Capability, EntityReadModel, number, scalar_ref}
use spec_cli.Read.Sort.{SortTerm, desc, id_asc}
use spec_cli.Read.Order.{EntityView}
use spec_cli.Read.Execute.{QueryPlan, RootPlan, SectionAccess}
use spec_cli.Read.Planner
use spec_cli.Write.{
  MetaField, EntityTypeSpec, WritePathSpec, WriteOperation, set, WritePathKind, WorkspaceEntity,
}
use spec_cli.Delete
use spec_cli.Delete.{ParsedDocument, Snapshot, SourceSlot, Slots}

abbrev pub numbers : Scalars
numbers = record {
  Num = ℕ;
  Time = String;
  num_eq = λ m n. m == n;
  num_lt = ltb;
  num_text = itoa;
  num_is_integer = λ _. true;
  time_eq = λ s t. s == t;
  date_text = λ s. s;
  time_text = λ s. s;
  slice_stable = λ A. sort_by;
}

abbrev pub view_of : String → ℕ → Fields numbers
view_of id rank =
    field "id" (str id)
      (field "meta" (object (field "rank" (num rank) end)) (field "slug" (str "s") end))

abbrev pub entity_of : String → ℕ → EntityView numbers
entity_of id rank = record {
  type_name = "doc";
  id = id;
  view = view_of id rank;
  where_context = view_of id rank;
  duplicate_section_labels = [];
}

abbrev pub entities : List (EntityView numbers)
entities = entity_of "DOC-1" 2 ∷ entity_of "DOC-2" 9 ∷ []

abbrev pub by_rank : SortTerm
by_rank = record { path = "meta.rank"; direction = desc }

abbrev pub no_access : SectionAccess
no_access = record { all = false; names = [] }

abbrev pub root : RootPlan
root = record { entity_type = "doc"; limit = 1; offset = 0; effective_sort = by_rank ∷ id_asc ∷ [] }

abbrev pub plan : QueryPlan numbers
plan = record {
  select_tree = insert new_tree ("meta" ∷ "rank" ∷ []);
  where_plan = none;
  root_plans = root ∷ [];
  select_sections = no_access;
  where_sections = no_access;
}

abbrev pub doc_model : EntityReadModel
doc_model = record {
  meta_fields = ("rank", record { kind = number; required = true }) ∷ [];
  ref_fields = ("owner", record { cardinality = scalar_ref; allowed_types = "user" ∷ [] }) ∷ [];
  sections = ("Goal", record { required = false }) ∷ [];
}

abbrev pub capability : Capability
capability = record { entity_types = ("doc", doc_model) ∷ []; entity_order = "doc" ∷ [] }

abbrev pub options : Planner.Options
options = record {
  type_filters = [];
  where_expr = "";
  selects = "meta.rank" ∷ [];
  sorts = by_rank ∷ [];
  scoped_sorts = [];
  limit = 10;
  scoped_limits = ("doc", 1) ∷ [];
  offset = 0;
  scoped_offsets = [];
}

abbrev pub document : String → String → Fields numbers → ParsedDocument numbers
document path id frontmatter = record {
  path_abs = path;
  type_name = "doc";
  id = id;
  revision = "sha256:1";
  frontmatter = frontmatter;
}

abbrev pub snapshot : Snapshot numbers
snapshot = record {
  documents =
      document "/a.md" "DOC-1" end
      ∷ document "/b.md" "DOC-2" (field "owner" (str "DOC-1") end)
      ∷ [];
  target_matches = "/a.md" ∷ [];
}

abbrev pub slots : Slots
slots = ("doc", record { field_name = "owner"; cardinality = scalar_ref } ∷ []) ∷ []

abbrev pub delete_options : Delete.Options
delete_options = record { id = "DOC-1"; expect_revision = ""; dry_run = false }

abbrev pub rank_field : MetaField
rank_field = record {
  name = "rank";
  field_type = "integer";
  is_entity_ref = false;
  is_entity_ref_array = false;
  ref_types = [];
  item_ref_types = [];
}

abbrev pub doc_type : EntityTypeSpec
doc_type = record {
  meta_fields = ("rank", rank_field) ∷ [];
  meta_field_order = "rank" ∷ [];
  sections = [];
  section_order = [];
  has_content = false;
  allow_write_paths = ("meta.rank", record { kind = WritePathKind.meta; field_name = "rank" }) ∷ [];
  allow_set_file_paths = [];
  set_paths = "meta.rank" ∷ [];
  unset_paths = [];
}

abbrev pub rank_path : WritePathSpec
rank_path = record { kind = WritePathKind.meta; field_name = "rank" }

abbrev pub set_rank : WriteOperation
set_rank = record { kind = set; path = "meta.rank"; raw_value = "7" }

abbrev pub owner : WorkspaceEntity numbers
owner = record {
  path_abs = "/u.md";
  type_name = "user";
  id = "U-1";
  slug = "ann";
  dir_path = "users";
  meta = end;
}
