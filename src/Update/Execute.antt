-- ===== src/Update/Execute.antt =====
-- internal/application/commands/update/internal/engine/execute.go: an update, from the snapshot of a workspace to
-- an answer and a disk. The decoder, the hash, the serializer, the path and the checks of a candidate are
-- parameters (`Services`), and so are the answers of the operating system.
pub mod Safe
pub mod Frame
use spec_cli.Common.{
  String, ◌<>◌, Bool, true, false, not, Option, none, some, List, [], ◌∷◌, ◌++◌, map, length,
}
use spec_cli.Common.{◌==◌, ◌&&◌, string_eq, if◌then◌else◌}
use spec_cli.Common.Dict.{Dict, lookup}
use spec_cli.Errors
use spec_cli.Errors.{Code, AppError, Result, ok, fail, text, count, records}
use spec_cli.Read.Execute.{Run, done, refused, panicked, ◌>>=◌}
use spec_cli.Values.{Scalars, Value, str, Fields}
use spec_cli.Values.Entries.{put}
use spec_cli.Write.{EntityTypeSpec, WorkspaceEntity, Issue}
use spec_cli.Write.Values.{Read, contents, unreadable}
use spec_cli.Refs.Resolve.{resolve}
use spec_cli.Delete.{Disk}
use spec_cli.Update.Preflight.{Options, FileRead}
use spec_cli.Update.Apply
use spec_cli.Update.Apply.{Change, apply_writes}
use spec_cli.Update.Candidate.{Candidate, build_candidate, hydrate, resolve_refs, read_string_field}
use spec_cli.Update.Storage.{Answers, persist, is_path_conflict}

pub record TargetMatch : Type 0 where
  pub path_abs : String
  pub raw : String

-- `Snapshot`, with what `Execute` reads itself.
pub record Snapshot (S : Scalars) : Type 0 where
  pub workspace_path : String
  pub entities_by_id : Dict (List (WorkspaceEntity S))
  pub existing_paths : List String
  pub target_matches : List TargetMatch

-- What the engine calls: `ParseWithNormalizedDates`, the hash of `Revision` and of changed texts, the date of today,
-- `pathcalc.Evaluate`, `entitycheck.Check`, `markdown.Serialize`, and the functions of path/filepath.
pub record Services (S : Scalars) : Type 0 where
  pub parse : String → Read (Fields S × String)
  pub revision : String → String
  pub hash : String → String
  pub today : String
  pub evaluate_path : Candidate S → String × List Issue
  pub check : Candidate S → List Issue → List Issue → List Issue
  pub serialize : Candidate S → Read String
  pub join : String → String → String
  pub relative : String → String → Read String
  pub clean : String → String
  pub stat : String → Bool
  pub read_file : String → Read String
  pub parse_yaml : String → Read (Value S)
  pub read_body : String → FileRead
  pub stdin : Read String

-- The answer, with the candidate in place of its payload.
pub record Updated (S : Scalars) : Type 0 where
  pub dry_run : Bool
  pub updated : Bool
  pub noop : Bool
  pub changes : List (Change S)
  pub entity : Candidate S
  pub revision : String

-- A located target with the writes applied.
pub record Prepared (S : Scalars) : Type 0 where
  pub target : TargetMatch
  pub spec : EntityTypeSpec
  pub result : Apply.WriteResult S

read_error {ℓ} : {A : Type ℓ} → String → String → String → Run A
unfolding Errors.new
read_error message key value =
    refused (Errors.new Code.read_failed message ((key, text value) ∷ []))

-- `locateTarget`
unfoldable pub locate_target : List TargetMatch → String → Run TargetMatch
unfolding Errors.new
locate_target [] id =
    refused (Errors.new Code.entity_not_found "target entity is not found" (("id", text id) ∷ []))
locate_target (t ∷ []) id = done t
locate_target (t ∷ u ∷ ts) id = refused (
    Errors.new Code.target_ambiguous "target id is ambiguous"
      (("id", text id) ∷ ("matches", count (length (t ∷ u ∷ ts))) ∷ []))

unfoldable pub parsed : {A : Type 0} → String → Read A → Run A
unfolding read_error
parsed message (contents a) = done a
parsed message (unreadable reason) = read_error message "reason" reason

required_field : String → String → Option String → Run String
unfolding read_error
required_field message key none = read_error message "field" key
required_field message key (some s) = done s

check_id : String → String → Run (Unit {0})
unfolding Errors.new
check_id expected actual =
    if actual == expected
    then done tt
    else refused (
        Errors.new Code.read_failed "target document id does not match requested --id"
          (("expected_id", text expected) ∷ ("actual_id", text actual) ∷ []))

known_type : String → Option EntityTypeSpec → Run EntityTypeSpec
unfolding Errors.new
known_type name (some spec) = done spec
known_type name none = refused (
    Errors.new Code.entity_type_unknown ("unknown entity type: " <> name)
      (("entity_type", text name) ∷ []))

-- The guard on the expected revision; the empty one asks for none.
unfoldable pub check_revision : String → String → Run (Unit {0})
unfolding Errors.new
check_revision expected current =
    if not (expected == "") && not (expected == current)
    then refused (
        Errors.new Code.concurrency_conflict "--expect-revision does not match current revision"
          (("expected_revision", text expected) ∷ ("current_revision", text current) ∷ []))
    else done tt

abbrev issue_record : Issue → List (String × String)
issue_record i =
    ("code", i.code)
    ∷ ("message", i.message)
    ∷ ("standard_ref", i.standard_ref)
    ∷ ("field", i.field)
    ∷ []

-- `validationFailedError`
unfoldable pub validation_failed : List Issue → AppError
unfolding Errors.new
validation_failed issues =
    Errors.new Code.validation_failed "updated entity failed validation"
      (("validation.issues", records (map issue_record issues)) ∷ [])

abbrev path_mismatch : Issue
path_mismatch = record {
  code = "instance.pathTemplate.path_mismatch";
  message = "entity path does not match canonical pathTemplate result";
  standard_ref = "8.6";
  field = "schema.pathTemplate";
}

abbrev no_matching_case : Issue
no_matching_case = record {
  code = "instance.pathTemplate.no_matching_case";
  message = "pathTemplate has no matching case for updated entity";
  standard_ref = "8.4";
  field = "schema.pathTemplate";
}

unfoldable pub no_issues : List Issue → Run (Unit {0})
unfolding validation_failed
no_issues [] = done tt
no_issues (i ∷ is) = refused (validation_failed (i ∷ is))

module _ {S : Scalars} (services : Services S) (opts : Options) where
  -- A changed document gets the date of today.
  unfoldable pub stamped : Apply.WriteResult S → Fields S
  unfolding put
  stamped r =
      if r.user_changed then put "updatedDate" (str services.today) r.frontmatter else r.frontmatter

  with_path : Snapshot S → String → Candidate S → Candidate S
  with_path snapshot path c =
      if path == ""
      then c
      else record c { path_rel = path; path_abs = services.join snapshot.workspace_path path }

  -- The candidate, with its references and its path.
  unfoldable pub candidate_of : EntityTypeSpec → Snapshot S → Apply.WriteResult S → Candidate S
  unfolding build_candidate hydrate resolve_refs stamped with_path
  candidate_of spec snapshot r =
      let c =
        resolve_refs spec snapshot.entities_by_id
          (hydrate spec (build_candidate (stamped r) r.body)) in
      with_path snapshot (services.evaluate_path c).0 c

  -- The issues of the candidate: those of its path and of its references go into the check.
  unfoldable pub issues_of : EntityTypeSpec → Snapshot S → Apply.WriteResult S → List Issue
  unfolding candidate_of build_candidate hydrate resolve_refs stamped resolve
  issues_of spec snapshot r =
      let c =
        resolve_refs spec snapshot.entities_by_id
          (hydrate spec (build_candidate (stamped r) r.body)) in
      services.check (candidate_of spec snapshot r) (services.evaluate_path c).1
        (resolve snapshot.entities_by_id spec c.frontmatter).issues

  answer : Bool → Apply.WriteResult S → Candidate S → String → Updated S
  answer changed r c revision = record {
    dry_run = opts.dry_run;
    updated = changed;
    noop = not changed;
    changes = r.changes;
    entity = c;
    revision = revision;
  }

  -- Without a change there is nothing to write, but the document must be where its path says.
  unchanged_answer : TargetMatch → Apply.WriteResult S → Candidate S → String → Run (Updated S)
  unfolding answer validation_failed
  unchanged_answer target r c original =
      if c.path_rel == original
      then done (answer false r c (services.revision target.raw))
      else refused (validation_failed (path_mismatch ∷ []))

  -- The write, if it is not a dry run.
  stored :
      Apply.WriteResult S → Candidate S → String → Result (Unit {0}) × Disk → Run (Updated S) × Disk
  unfolding answer
  stored r c payload (fail error, disk) = (refused error, disk)
  stored r c payload (ok _, disk) = (done (answer true r c (services.revision payload)), disk)

  write_or_not :
      Bool
      → Answers
      → TargetMatch
      → Apply.WriteResult S
      → Candidate S
      → String
      → Disk
      → Run (Updated S) × Disk
  unfolding answer stored persist
  write_or_not true os target r c payload disk =
      (done (answer true r c (services.revision payload)), disk)
  write_or_not false os target r c payload disk =
      stored r c payload (persist services.clean os target.path_abs c.path_abs payload disk)

  serialized :
      Answers
      → TargetMatch
      → Apply.WriteResult S
      → Candidate S
      → Read String
      → Disk
      → Run (Updated S) × Disk
  unfolding write_or_not Errors.new
  serialized os target r c (contents payload) disk =
      write_or_not opts.dry_run os target r c payload disk
  serialized os target r c (unreadable reason) disk = (
    refused (
        Errors.new Code.internal_error "failed to serialize updated document"
          (("reason", text reason) ∷ [])),
    disk,
  )

  changed_answer :
      Answers
      → TargetMatch
      → Snapshot S
      → Apply.WriteResult S
      → Candidate S
      → Disk
      → Run (Updated S) × Disk
  unfolding serialized validation_failed is_path_conflict Errors.new
  changed_answer os target snapshot r c disk =
      if c.path_abs == ""
      then (refused (validation_failed (no_matching_case ∷ [])), disk)
      else if is_path_conflict services.clean services.stat c.path_abs snapshot.existing_paths
          target.path_abs
      then (
        refused (
            Errors.new Code.path_conflict "canonical entity path already exists"
              (("path", text c.path_rel) ∷ [])),
        disk,
      )
      else serialized os target r c (services.serialize c) disk

  -- Up to the applied writes.
  unfoldable pub prepared : Dict EntityTypeSpec → Snapshot S → Run (Prepared S)
  unfolding locate_target parsed required_field read_string_field check_id known_type lookup
      check_revision apply_writes
  prepared types snapshot = locate_target snapshot.target_matches opts.id >>= λ target.
      parsed "failed to parse target frontmatter" (services.parse target.raw)
      >>= λ (frontmatter, body).
          required_field "failed to determine entity type" "type"
            (read_string_field "type" frontmatter)
          >>= λ type_name.
              required_field "failed to determine entity id" "id"
                (read_string_field "id" frontmatter)
              >>= λ id. check_id opts.id id >>= λ _.
                  known_type type_name (lookup type_name types) >>= λ spec.
                  check_revision opts.expect_revision (services.revision target.raw) >>= λ _.
                  apply_writes services.hash services.read_file services.parse_yaml
                    services.read_body services.stdin opts spec frontmatter body
                  >>= λ result. done (record { target = target; spec = spec; result = result })

  -- The checks of the candidate, and the path that the document has.
  unfoldable pub judged : Snapshot S → Prepared S → Run (Prepared S × String)
  unfolding no_issues issues_of parsed
  judged snapshot p = no_issues (issues_of p.spec snapshot p.result) >>= λ _.
      parsed "failed to resolve source relative path"
        (services.relative snapshot.workspace_path p.target.path_abs)
      >>= λ original. done (p, original)

  finish : Answers → Snapshot S → Run (Prepared S × String) → Disk → Run (Updated S) × Disk
  unfolding changed_answer unchanged_answer candidate_of
  finish os snapshot (refused error) disk = (refused error, disk)
  finish os snapshot panicked disk = (panicked, disk)
  finish os snapshot (done (p, original)) disk =
      let c = candidate_of p.spec snapshot p.result in
      if p.result.user_changed
      then changed_answer os p.target snapshot p.result c disk
      else (unchanged_answer p.target p.result c original, disk)

  -- `Execute`
  unfoldable pub execute :
      Answers → Dict EntityTypeSpec → Snapshot S → Disk → Run (Updated S) × Disk
  unfolding finish prepared judged
  execute os types snapshot disk =
      finish os snapshot (prepared types snapshot >>= λ p. judged snapshot p) disk
