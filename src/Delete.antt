-- ===== src/Delete.antt =====
-- internal/application/commands/delete/internal/engine: locating the target, the revision check, the
-- references that block, and the removal.
pub mod Laws
use spec_cli.Common.{ℕ, String, ◌<>◌, Bool, true, false, not, Option, none, some, List, [], ◌∷◌}
use spec_cli.Common.{◌==◌, ◌&&◌, ◌||◌, string_eq, if◌then◌else◌, length, sort_by}
use spec_cli.Common.Dict.{Dict, lookup, contains, erase}
use spec_cli.Common.Text.{trim_space, str_lt}
use spec_cli.Errors
use spec_cli.Errors.{Code, AppError, Result, ok, fail, ◌>>=◌, text, count, records}
use spec_cli.Values.{Scalars, Value, str, list, Items, nil, cons, Fields, find}
use spec_cli.Read.Capability.{RefCardinality, scalar_ref, array_ref}

pub record Options : Type 0 where
  pub id : String
  pub expect_revision : String
  pub dry_run : Bool

pub record ParsedDocument (S : Scalars) : Type 0 where
  pub path_abs : String
  pub type_name : String
  pub id : String
  pub revision : String
  pub frontmatter : Fields S

-- `Snapshot`; of a target match the engine reads only the path.
pub record Snapshot (S : Scalars) : Type 0 where
  pub documents : List (ParsedDocument S)
  pub target_matches : List String

pub record SourceSlot : Type 0 where
  pub field_name : String
  pub cardinality : RefCardinality

pub record BlockingReference : Type 0 where
  pub source_id : String
  pub source_type : String
  pub field : String

-- `SlotsBySourceType`
abbrev pub Slots : Type 0
Slots = Dict (List SourceSlot)

module _ {S : Scalars} where
  -- `FindTargetDocument`
  unfoldable pub find_target_document : List (ParsedDocument S) → String → Option (ParsedDocument S)
  find_target_document [] path = none
  find_target_document (d ∷ ds) path =
      if d.path_abs == path then some d else find_target_document ds path

  -- `target.Type == "" || target.ID == "" || target.ID != requestedID || target.Revision == ""`
  abbrev pub is_unusable : String → ParsedDocument S → Bool
  is_unusable requested d =
      d.type_name == "" || d.id == "" || not (d.id == requested) || d.revision == ""

  usable_target : String → Option (ParsedDocument S) → Result (ParsedDocument S)
  unfolding Errors.new
  usable_target requested none = fail (
      Errors.new Code.revision_unavailable "target revision is unavailable"
        (("id", text requested) ∷ []))
  usable_target requested (some d) =
      if is_unusable requested d
      then fail (
          Errors.new Code.revision_unavailable "target revision is unavailable"
            (("id", text requested) ∷ []))
      else ok d

  locate_in : String → List (ParsedDocument S) → List String → Result (ParsedDocument S)
  unfolding Errors.new usable_target find_target_document
  locate_in requested documents [] =
      fail (
        Errors.new Code.entity_not_found "target entity is not found" (("id", text requested) ∷ []))
  locate_in requested documents (path ∷ []) =
      usable_target requested (find_target_document documents path)
  locate_in requested documents (p ∷ q ∷ ps) = fail (
      Errors.new Code.ambiguous_entity_id "target id is ambiguous"
        (("id", text requested) ∷ ("matches", count (length (p ∷ q ∷ ps))) ∷ []))

  -- `locateTarget`
  unfoldable pub locate_target : String → Snapshot S → Result (ParsedDocument S)
  unfolding locate_in
  locate_target requested snapshot = locate_in requested snapshot.documents snapshot.target_matches

  names_target : String → Value S → Bool
  unfolding trim_space
  names_target target_id (str s) = trim_space s == target_id
  names_target target_id _ = false

  some_item_names : String → Items S → Bool
  unfolding names_target
  some_item_names target_id nil = false
  some_item_names target_id (cons v vs) = names_target target_id v || some_item_names target_id vs

  array_names : String → Value S → Bool
  unfolding some_item_names
  array_names target_id (list vs) = some_item_names target_id vs
  array_names target_id _ = false

  -- `slotMatchesTarget`; a Go `[]string` does not come out of decoded YAML.
  unfoldable pub slot_matches_target : Value S → RefCardinality → String → Bool
  unfolding names_target array_names trim_space
  slot_matches_target v scalar_ref target_id =
      not (trim_space target_id == "") && names_target (trim_space target_id) v
  slot_matches_target v array_ref target_id =
      not (trim_space target_id == "") && array_names (trim_space target_id) v

  -- The slot of the source document names the target.
  unfoldable pub slot_blocks : ParsedDocument S → ParsedDocument S → SourceSlot → Bool
  unfolding slot_matches_target find
  slot_blocks target source slot = elim (find slot.field_name source.frontmatter) [
    | none ↦ false
    | some raw ↦ slot_matches_target raw slot.cardinality target.id
  ]

  abbrev pub blocking_of : ParsedDocument S → SourceSlot → BlockingReference
  blocking_of source slot = record {
    source_id = source.id;
    source_type = source.type_name;
    field = slot.field_name;
  }

-- `source.Type + "\x00" + source.ID + "\x00" + slot.FieldName`, as its three parts.
abbrev same_key : BlockingReference → BlockingReference → Bool
same_key a b = a.source_type == b.source_type && a.source_id == b.source_id && a.field == b.field

-- `seen[key]`
abbrev seen_before : BlockingReference → List BlockingReference → Bool
seen_before b [] = false
seen_before b (c ∷ cs) = same_key c b || seen_before b cs

abbrev slots_of : Option (List SourceSlot) → List SourceSlot
slots_of none = []
slots_of (some ss) = ss

module _ {S : Scalars} where
  -- The loop over the slots of one source document, with the references found so far.
  blocking_slots :
      ParsedDocument S
      → ParsedDocument S
      → List SourceSlot
      → List BlockingReference
      → List BlockingReference
  unfolding slot_blocks
  blocking_slots target source [] found = found
  blocking_slots target source (slot ∷ slots) found = blocking_slots target source slots (
      if slot_blocks target source slot && not (seen_before (blocking_of source slot) found)
      then blocking_of source slot ∷ found
      else found)

  -- The loop over the documents. The order in which references are found is lost in the sorting.
  unfoldable pub blocking_from :
      Slots
      → ParsedDocument S
      → List (ParsedDocument S)
      → List BlockingReference
      → List BlockingReference
  unfolding blocking_slots lookup
  blocking_from slots target [] found = found
  blocking_from slots target (source ∷ sources) found = blocking_from slots target sources (
      if source.path_abs == target.path_abs
      then found
      else blocking_slots target source (slots_of (lookup source.type_name slots)) found)

-- The function that the references are sorted by.
unfoldable pub blocking_less : BlockingReference → BlockingReference → Bool
unfolding str_lt
blocking_less a b =
    if not (a.source_type == b.source_type)
    then str_lt a.source_type b.source_type
    else if not (a.source_id == b.source_id)
    then str_lt a.source_id b.source_id
    else str_lt a.field b.field

module _ {S : Scalars} where
  -- `findBlockingReferences`
  unfoldable pub find_blocking_references :
      Slots → Snapshot S → ParsedDocument S → List BlockingReference
  unfolding blocking_from blocking_less sort_by
  find_blocking_references slots snapshot target =
      sort_by blocking_less (blocking_from slots target snapshot.documents [])

abbrev reference_record : BlockingReference → List (String × String)
reference_record b =
    ("source_id", b.source_id) ∷ ("source_type", b.source_type) ∷ ("field", b.field) ∷ []

abbrev reference_records : List BlockingReference → List (List (String × String))
reference_records [] = []
reference_records (b ∷ bs) = reference_record b ∷ reference_records bs

-- The files of the workspace, by path, and what comes of a removal: the answer of `os.Remove`, or the
-- failure that the environment asks to inject in its place.
abbrev pub Disk : Type 0
Disk = Dict String

pub data Removal : Type 0 where
  removed permission_denied missing_file failed injected : Removal

delete_failure : String → AppError
unfolding Errors.new
delete_failure reason =
    Errors.new Code.write_failed "failed to delete target entity document"
      (("reason", text reason) ∷ [])

injected_failure : String → AppError
unfolding Errors.new
injected_failure message = Errors.new Code.write_failed message (("reason", text message) ∷ [])

-- `deleteDocument`, from what comes of the removal.
deletion : Removal → String → Disk → Result (Unit {0}) × Disk
unfolding delete_failure injected_failure erase
deletion removed path disk = (ok tt, erase path disk)
deletion permission_denied path disk = (fail (delete_failure "permission denied"), disk)
deletion missing_file path disk = (fail (delete_failure "target file is missing"), disk)
deletion failed path disk = (fail (delete_failure "filesystem delete failed"), disk)
deletion injected path disk =
    (fail (injected_failure "injected delete failure before remove commit"), disk)

-- `deleteDocument`
unfoldable pub delete_document : (String → Removal) → String → Disk → Result (Unit {0}) × Disk
unfolding deletion
delete_document remove path disk = deletion (remove path) path disk

-- The response: whether it was a dry run, and the target's id and revision.
pub record Deleted : Type 0 where
  pub dry_run : Bool
  pub id : String
  pub revision : String

module _ {S : Scalars} (remove : String → Removal) (opts : Options) (slots : Slots) where
  abbrev response : ParsedDocument S → Deleted
  response target = record { dry_run = opts.dry_run; id = target.id; revision = target.revision }

  -- After the checks.
  remove_target : ParsedDocument S → Disk → Result Deleted × Disk
  unfolding delete_document
  remove_target target disk =
      if opts.dry_run
      then (ok (response target), disk)
      else let (result, disk') = delete_document remove target.path_abs disk in
        (result >>= λ _. ok (response target), disk')

  check_references : ParsedDocument S → List BlockingReference → Disk → Result Deleted × Disk
  unfolding remove_target Errors.new
  check_references target [] disk = remove_target target disk
  check_references target (b ∷ bs) disk = (
    fail (
        Errors.new Code.delete_blocked_by_refs "delete is blocked by incoming entityRef references"
          (("blocking_refs", records (reference_records (b ∷ bs))) ∷ [])),
    disk,
  )

  check_revision : Snapshot S → ParsedDocument S → Disk → Result Deleted × Disk
  unfolding check_references Errors.new
  check_revision snapshot target disk =
      if not (opts.expect_revision == "") && not (opts.expect_revision == target.revision)
      then (
        fail (
            Errors.new Code.concurrency_conflict "--expect-revision does not match current revision"
              (("expected_revision", text opts.expect_revision)
                ∷ ("current_revision", text target.revision)
                ∷ [])),
        disk,
      )
      else check_references target (find_blocking_references slots snapshot target) disk

  -- `Execute`
  unfoldable pub execute : Snapshot S → Disk → Result Deleted × Disk
  unfolding check_revision
  execute snapshot disk = elim (locate_target opts.id snapshot) [
    | fail e ↦ (fail e, disk)
    | ok target ↦ check_revision snapshot target disk
  ]
