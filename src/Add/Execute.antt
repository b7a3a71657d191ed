-- ===== src/Add/Execute.antt =====
-- internal/application/commands/add/internal/engine (execute.go, validation.go): a new entity, from the snapshot of a
-- workspace to an answer and a disk. The expression engine, the encoder of YAML, the path of a candidate and what the
-- operating system answers are parameters.
pub mod Safe
use spec_cli.Common.{
  ℕ, String, ◌<>◌, Bool, true, false, not, Option, none, some, List, [], ◌∷◌, ◌++◌, map,
}
use spec_cli.Common.{◌==◌, ◌&&◌, string_eq, if◌then◌else◌}
use spec_cli.Common.Dict.{Dict, lookup}
use spec_cli.Errors
use spec_cli.Errors.{Code, AppError, Result, ok, fail, text, records}
use spec_cli.Read.Execute.{Run, done, refused, panicked, ◌>>=◌}
use spec_cli.Values.{Scalars, Value, str, Fields, end, field}
use spec_cli.Values.Entries.{put}
use spec_cli.Write.{EntityTypeSpec, WorkspaceEntity, Issue}
use spec_cli.Write.Values.{Read, contents, unreadable}
use spec_cli.Refs.Resolve.{resolve}
use spec_cli.Delete.{Disk}
use spec_cli.Update.Preflight.{FileRead}
use spec_cli.Update.Candidate.{Candidate, resolve_refs}
use spec_cli.Update.Storage.{Answers, write_new, is_new_path_conflict}
use spec_cli.Ids.{format, suffix_after}
use spec_cli.Check.Rules.{Evaluated}
use spec_cli.Check.Entity.{CheckModel, Workspace, check}
use spec_cli.Frontmatter.Serialize.{Content, serialize}
use spec_cli.Workspace.Add.{Snapshot}
use spec_cli.Add
use spec_cli.Add.{Options, apply_writes, build_body}

-- What the engine calls outside of the model.
pub record Services (S : Scalars) (Expr Template : Type 0) : Type 0 where
  pub read_file : String → Read String
  pub parse_yaml : String → Read (Value S)
  pub read_body : String → FileRead
  pub stdin : Read String
  pub today : String
  pub eval : Expr → Value S → Evaluated (Value S)
  pub render : Template → Value S → Evaluated String
  pub is_date : String → Bool
  pub evaluate_path : Candidate S → String × List Issue
  pub marshal : List (String × Content S) → Read String
  pub windows : Bool
  pub revision : String → String
  pub join : String → String → String
  pub clean : String → String
  pub stat : String → Bool

-- The answer, with the candidate in place of its payload.
pub record Added (S : Scalars) : Type 0 where
  pub dry_run : Bool
  pub entity : Candidate S
  pub revision : String

abbrev issue_record : Issue → List (String × String)
issue_record i =
    ("code", i.code)
    ∷ ("message", i.message)
    ∷ ("standard_ref", i.standard_ref)
    ∷ ("field", i.field)
    ∷ []

-- `validationFailedError`
unfoldable pub validation_failed : List Issue → AppError
unfolding Errors.new
validation_failed issues =
    Errors.new Code.validation_failed "created entity failed validation"
      (("validation.issues", records (map issue_record issues)) ∷ [])

abbrev no_matching_case : Issue
no_matching_case = record {
  code = "instance.pathTemplate.no_matching_case";
  message = "pathTemplate has no matching case for created entity";
  standard_ref = "8.4";
  field = "schema.pathTemplate";
}

unfoldable pub no_issues : List Issue → Run (Unit {0})
unfolding validation_failed
no_issues [] = done tt
no_issues (i ∷ is) = refused (validation_failed (i ∷ is))

module _ {S : Scalars} where
  -- The values of the writes over those of the builtin fields.
  unfoldable pub put_all : Fields S → Fields S → Fields S
  unfolding put
  put_all end fields = fields
  put_all (field k v rest) fields = put_all rest (put k v fields)

module _ {S : Scalars} {Expr Template : Type 0} (services : Services S Expr Template)
    (opts : Options) where
  -- `candidateID`
  unfoldable pub candidate_id : CheckModel S Expr Template → Snapshot S → String
  unfolding format lookup
  candidate_id model snapshot =
      format model.id_prefix (suffix_after (lookup opts.entity_type snapshot.max_suffix_by_type))

  unfoldable pub new_frontmatter : String → Add.WriteResult S → Fields S
  unfolding put_all
  new_frontmatter id r = put_all r.frontmatter_values (
      field "type" (str opts.entity_type) (
        field "id" (str id) (
          field "slug" (str opts.slug) (
            field "createdDate" (str services.today)
              (field "updatedDate" (str services.today) end)))))

  -- The candidate, with its references.
  unfoldable pub unplaced :
      EntityTypeSpec → CheckModel S Expr Template → Snapshot S → Add.WriteResult S → Candidate S
  unfolding candidate_id new_frontmatter resolve_refs build_body
  unplaced spec model snapshot r =
      let id = candidate_id model snapshot in
      resolve_refs spec snapshot.entities_by_id (record {
        type_name = opts.entity_type;
        id = id;
        slug = opts.slug;
        created_date = services.today;
        updated_date = services.today;
        frontmatter = new_frontmatter id r;
        meta = r.meta_payload;
        ref_ids = r.ref_ids;
        ref_id_arrays = r.ref_id_arrays;
        refs = [];
        ref_arrays = [];
        body = build_body spec r;
        path_rel = "";
        path_abs = "";
      })

  placed_at : Snapshot S → String → Candidate S → Candidate S
  unfolding string_eq
  placed_at snapshot path c =
      if path == ""
      then c
      else record c { path_rel = path; path_abs = services.join snapshot.workspace_path path }

  -- The candidate, with its references and its path.
  unfoldable pub candidate_of :
      EntityTypeSpec → CheckModel S Expr Template → Snapshot S → Add.WriteResult S → Candidate S
  unfolding unplaced placed_at
  candidate_of spec model snapshot r =
      let c = unplaced spec model snapshot r in placed_at snapshot (services.evaluate_path c).0 c

  -- A new document competes with every one of the workspace.
  abbrev pub workspace_of : Snapshot S → Workspace S
  workspace_of snapshot = record {
    entities_by_id = snapshot.entities_by_id;
    slugs_by_type = snapshot.slugs_by_type;
    own_path = "";
  }

  -- `validateCandidate`, with the issues of the path and of the references.
  unfoldable pub issues_of :
      EntityTypeSpec → CheckModel S Expr Template → Snapshot S → Add.WriteResult S → List Issue
  unfolding candidate_of unplaced check resolve
  issues_of spec model snapshot r =
      let c = unplaced spec model snapshot r in
      check services.eval services.render services.is_date model (workspace_of snapshot)
        (candidate_of spec model snapshot r) (services.evaluate_path c).1
        (resolve snapshot.entities_by_id spec c.frontmatter).issues

  free_path : Snapshot S → Candidate S → Run (Unit {0})
  unfolding is_new_path_conflict Errors.new string_eq
  free_path snapshot c =
      if not (c.path_rel == "")
        && is_new_path_conflict services.clean services.stat c.path_abs snapshot.existing_paths
      then refused (
          Errors.new Code.path_conflict "canonical entity path already exists"
            (("path", text c.path_rel) ∷ []))
      else done tt

  serialized : Read String → Run String
  unfolding Errors.new
  serialized (contents payload) = done payload
  serialized (unreadable reason) = refused (
      Errors.new Code.internal_error "failed to serialize created document"
        (("reason", text reason) ∷ []))

  -- The text of the document.
  written_out :
      EntityTypeSpec
      → CheckModel S Expr Template
      → Snapshot S
      → Add.WriteResult S
      → Run (Add.WriteResult S × String)
  unfolding serialized serialize candidate_of
  written_out spec model snapshot r =
      serialized (
        serialize services.is_date services.marshal services.windows spec
          (candidate_of spec model snapshot r))
      >>= λ payload. done (r, payload)

  -- The checks of the candidate, and its text.
  judged :
      EntityTypeSpec
      → CheckModel S Expr Template
      → Snapshot S
      → Add.WriteResult S
      → Run (Add.WriteResult S × String)
  unfolding no_issues issues_of written_out
  judged spec model snapshot r =
      no_issues (issues_of spec model snapshot r) >>= λ _. written_out spec model snapshot r

  -- The path of the candidate, before its checks.
  placed :
      EntityTypeSpec
      → CheckModel S Expr Template
      → Snapshot S
      → Add.WriteResult S
      → Run (Add.WriteResult S × String)
  unfolding free_path candidate_of judged
  placed spec model snapshot r =
      free_path snapshot (candidate_of spec model snapshot r) >>= λ _. judged spec model snapshot r

  -- Up to the text of the document.
  unfoldable pub prepared :
      EntityTypeSpec → CheckModel S Expr Template → Snapshot S → Run (Add.WriteResult S × String)
  unfolding apply_writes placed
  prepared spec model snapshot =
      apply_writes services.read_file services.parse_yaml services.read_body services.stdin opts
        spec
      >>= λ r. placed spec model snapshot r

  answer : Candidate S → String → Added S
  answer c payload = record {
    dry_run = opts.dry_run;
    entity = c;
    revision = services.revision payload;
  }

  stored : Candidate S → String → Result (Unit {0}) × Disk → Run (Added S) × Disk
  unfolding answer
  stored c payload (fail error, disk) = (refused error, disk)
  stored c payload (ok _, disk) = (done (answer c payload), disk)

  write_or_not : Bool → Answers → Candidate S → String → Disk → Run (Added S) × Disk
  unfolding answer stored write_new validation_failed string_eq
  write_or_not true os c payload disk = (done (answer c payload), disk)
  write_or_not false os c payload disk =
      if c.path_abs == ""
      then (refused (validation_failed (no_matching_case ∷ [])), disk)
      else stored c payload (write_new os c.path_abs payload disk)

  finish :
      Answers
      → EntityTypeSpec
      → CheckModel S Expr Template
      → Snapshot S
      → Run (Add.WriteResult S × String)
      → Disk
      → Run (Added S) × Disk
  unfolding write_or_not candidate_of
  finish os spec model snapshot (refused error) disk = (refused error, disk)
  finish os spec model snapshot panicked disk = (panicked, disk)
  finish os spec model snapshot (done (r, payload)) disk =
      write_or_not opts.dry_run os (candidate_of spec model snapshot r) payload disk

  -- `Execute`
  unfoldable pub execute :
      Answers
      → EntityTypeSpec
      → CheckModel S Expr Template
      → Snapshot S
      → Disk
      → Run (Added S) × Disk
  unfolding finish prepared
  execute os spec model snapshot disk =
      finish os spec model snapshot (prepared spec model snapshot) disk
