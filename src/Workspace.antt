-- ===== src/Workspace.antt =====
-- internal/application/entitydoc/scan.go and the parts that the three functions `BuildSnapshot` of add, update and
-- delete share: the files of the workspace, one after the other. What the operating system answers, and the functions
-- of path/filepath, are parameters.
pub mod Index
pub mod Add
pub mod Update
pub mod Delete
use spec_cli.Common.{
  String, ◌<>◌, Bool, true, false, not, Option, none, some, List, [], ◌∷◌, ◌++◌, map, sort_by,
}
use spec_cli.Common.{◌==◌, ◌&&◌, ◌||◌, string_eq, if◌then◌else◌}
use spec_cli.Common.Dict.{Dict, lookup, insert, contains}
use spec_cli.Common.Text.{trim_space, str_lt}
use spec_cli.Errors
use spec_cli.Errors.{Code, Result, ok, fail, text}
use spec_cli.IoFailure
use spec_cli.IoFailure.{Failure}
use spec_cli.Read.Execute.{Run, done, refused, panicked, ◌>>=◌}
use spec_cli.Values.{Scalars, Value, Fields, end, field, normalize_value}
use spec_cli.Write.{WorkspaceEntity}
use spec_cli.Write.Values.{Read, contents, unreadable}
use spec_cli.Update.Preflight.{FileRead, file_contents, file_failed}
use spec_cli.Update.Candidate.{read_string_field}

-- What `filepath.WalkDir` shows of a file or a directory.
pub record Entry : Type 0 where
  pub path : String
  pub is_dir : Bool
  pub ext : String

pub data Walk : Type 0 where
  walked : List Entry → Walk
  not_walked : Failure → Walk

-- `strings.EqualFold(ext, ".md")`
abbrev pub is_markdown : String → Bool
is_markdown ext = ext == ".md" || ext == ".MD" || ext == ".Md" || ext == ".mD"

unfoldable pub markdown_files : List Entry → List String
unfolding string_eq
markdown_files [] = []
markdown_files (e ∷ es) =
    let rest = markdown_files es in
    if not e.is_dir && is_markdown e.ext then e.path ∷ rest else rest

-- `ScanMarkdownFiles`
unfoldable pub scan_markdown_files : Walk → Run (List String)
unfolding markdown_files sort_by str_lt Errors.new IoFailure.details
scan_markdown_files (walked entries) = done (sort_by str_lt (markdown_files entries))
scan_markdown_files (not_walked failure) =
    refused (Errors.new Code.read_failed "failed to scan workspace" (IoFailure.details failure))

-- `os.ReadFile` of a document.
unfoldable pub read_document : FileRead → Run String
unfolding Errors.new IoFailure.details
read_document (file_contents raw) = done raw
read_document (file_failed failure) =
    refused
      (Errors.new Code.read_failed "failed to read workspace document" (IoFailure.details failure))

-- The loop over the files.
unfoldable pub for_each {ℓ} : {A : Type ℓ} → (String → A → Run A) → List String → A → Run A
for_each step [] a = done a
for_each step (path ∷ paths) a = step path a >>= λ next. for_each step paths next

-- The builtin fields that a document is indexed by.
pub record Identity : Type 0 where
  pub type_name : String
  pub id : String
  pub slug : String

abbrev identity : Option String → Option String → Option String → Option Identity
identity (some type_name) (some id) (some slug) =
    some (record { type_name = type_name; id = id; slug = slug })
identity (some _) (some _) none = none
identity (some _) none _ = none
identity none _ _ = none

abbrev builtin_keys : List String
builtin_keys = "type" ∷ "id" ∷ "slug" ∷ "createdDate" ∷ "updatedDate" ∷ []

-- `path.Dir` of the relative path, where `.` is the root.
abbrev dir_path : String → String
dir_path dir = if dir == "." then "" else dir

module _ {S : Scalars} where
  -- `!hasType || !hasID || !hasSlug`
  unfoldable pub identity_of : Fields S → Option Identity
  unfolding read_string_field
  identity_of fields =
      identity (read_string_field "type" fields) (read_string_field "id" fields)
        (read_string_field "slug" fields)

  -- `BuildMeta`
  unfoldable pub build_meta : Fields S → Fields S
  unfolding normalize_value string_eq
  build_meta end = end
  build_meta (field k v fs) =
      let rest = build_meta fs in
      if contains builtin_keys k then rest else field k (normalize_value v) rest

  unfoldable pub placed :
      (String → String) → String → Identity → Fields S → Read String → Run (WorkspaceEntity S)
  unfolding build_meta Errors.new string_eq
  placed dir path who fields (contents rel) = done (record {
    path_abs = path;
    type_name = who.type_name;
    id = who.id;
    slug = who.slug;
    dir_path = dir_path (dir rel);
    meta = build_meta fields;
  })
  placed dir path who fields (unreadable reason) = refused (
      Errors.new Code.read_failed "failed to resolve workspace-relative path"
        (("reason", text reason) ∷ []))

  abbrev pub indexed : Option (List (WorkspaceEntity S)) → List (WorkspaceEntity S)
  indexed none = []
  indexed (some es) = es

  -- `m[k] = append(m[k], e)`
  unfoldable pub add_to :
      String → WorkspaceEntity S → Dict (List (WorkspaceEntity S)) → Dict (List (WorkspaceEntity S))
  unfolding insert lookup
  add_to key e d = insert key (indexed (lookup key d) ++ e ∷ []) d

  abbrev pub of_type : Option (Dict (List (WorkspaceEntity S))) → Dict (List (WorkspaceEntity S))
  of_type none = []
  of_type (some d) = d

  -- The index by type and slug.
  unfoldable pub add_slug :
      WorkspaceEntity S
      → Dict (Dict (List (WorkspaceEntity S)))
      → Dict (Dict (List (WorkspaceEntity S)))
  unfolding add_to insert lookup
  add_slug e d = insert e.type_name (add_to e.slug e (of_type (lookup e.type_name d))) d
