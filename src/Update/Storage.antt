-- ===== src/Update/Storage.antt =====
-- internal/application/commands/update/internal/engine/storage.go: how an updated document gets to its file,
-- and internal/application/commands/add/internal/engine/storage.go: how a new one does. What the operating
-- system answers to each call is an argument; a rename or a removal that fails changes nothing.
pub mod Safe
pub mod Move
use spec_cli.Common.{String, ◌<>◌, Bool, true, false, not, Option, none, some, List, [], ◌∷◌}
use spec_cli.Common.{◌==◌, ◌&&◌, ◌||◌, string_eq, if◌then◌else◌}
use spec_cli.Common.Dict.{Dict, lookup, insert, erase, contains}
use spec_cli.Errors
use spec_cli.Errors.{Code, AppError, Detail, Result, ok, fail, text}
use spec_cli.IoFailure
use spec_cli.IoFailure.{Failure, not_there}
use spec_cli.Delete.{Disk}

pub data Answer : Type 0 where
  succeeded : Answer
  refused : Failure → Answer

-- What `os.CreateTemp` answers.
pub data Created : Type 0 where
  created : String → Created
  not_created : Failure → Created

-- The answers in one run, by the call; `written` is what is in the file after a write that failed.
pub record Answers : Type 0 where
  pub inject : Bool
  pub mkdir : Answer
  pub create_temp : Created
  pub write : Answer
  pub written : String
  pub sync : Answer
  pub close : Answer
  pub reserve : Created
  pub reserve_close : Answer
  pub reserve_remove : Answer
  pub rename_source : Answer
  pub rename_back : Answer
  pub rename_target : Answer
  pub remove_backup : Answer
  pub drop_temp : Answer
  pub drop_backup : Answer

io_failed : String → Failure → AppError
unfolding Errors.new IoFailure.details
io_failed message failure = Errors.new Code.write_failed message (IoFailure.details failure)

abbrev put_at : String → Option String → Disk → Disk
put_at path none disk = disk
put_at path (some content) disk = insert path content disk

-- `os.Rename` that succeeds.
unfoldable pub moved : String → String → Disk → Disk
unfolding lookup insert erase
moved from to disk = put_at to (lookup from disk) (erase from disk)

-- `_ = os.Remove(path)`
unfoldable pub dropped : Answer → String → Disk → Disk
unfolding erase
dropped succeeded path disk = erase path disk
dropped (refused _) path disk = disk

-- The calls on the temporary file after it was created: writing, flushing and closing it.
fill_temp : Answer → Answer → Answer → String → String → String → Disk → Result String × Disk
unfolding io_failed insert
fill_temp (refused f) sync close written temp payload disk =
    (fail (io_failed "failed to write temporary file" f), insert temp written disk)
fill_temp succeeded (refused f) close written temp payload disk =
    (fail (io_failed "failed to flush temporary file" f), insert temp payload disk)
fill_temp succeeded succeeded (refused f) written temp payload disk =
    (fail (io_failed "failed to close temporary file" f), insert temp payload disk)
fill_temp succeeded succeeded succeeded written temp payload disk =
    (ok temp, insert temp payload disk)

abbrev filled : Answers → String → String → Disk → Result String × Disk
filled os temp payload disk = fill_temp os.write os.sync os.close os.written temp payload disk

unfoldable pub temp_file : Created → Answers → String → Disk → Result String × Disk
unfolding fill_temp io_failed
temp_file (not_created f) os payload disk =
    (fail (io_failed "failed to create temporary file" f), disk)
temp_file (created temp) os payload disk = filled os temp payload disk

-- `writeTempFile`
unfoldable pub write_temp_file : Answers → String → Disk → Result String × Disk
unfolding temp_file
write_temp_file os payload disk = temp_file os.create_temp os payload disk

-- The rename of `writeAtomically`, and its deferred removal.
renamed : Answer → Answer → String → String → Disk → Result (Unit {0}) × Disk
unfolding io_failed moved dropped
renamed (refused f) drop temp target disk =
    (fail (io_failed "failed to atomically write target file" f), dropped drop temp disk)
renamed succeeded drop temp target disk = (ok tt, dropped drop temp (moved temp target disk))

commit_atomically : Answers → String → Result String × Disk → Result (Unit {0}) × Disk
unfolding renamed
commit_atomically os target (fail e, disk) = (fail e, disk)
commit_atomically os target (ok temp, disk) = renamed os.rename_target os.drop_temp temp target disk

no_directory : Failure → Result (Unit {0})
unfolding io_failed
no_directory f = fail (io_failed "failed to create parent directories for target path" f)

in_directory : Answer → Disk → Result (Unit {0}) × Disk → Result (Unit {0}) × Disk
unfolding no_directory
in_directory (refused f) disk out = (no_directory f, disk)
in_directory succeeded disk out = out

-- `writeAtomically` of update.
unfoldable pub write_atomically : Answers → String → String → Disk → Result (Unit {0}) × Disk
unfolding commit_atomically write_temp_file in_directory
write_atomically os target payload disk =
    in_directory os.mkdir disk (commit_atomically os target (write_temp_file os payload disk))

-- `writeAtomically` of add: the deferred removal is there before the file is filled.
drop_if_failed : Answer → String → Result String × Disk → Result String × Disk
unfolding dropped
drop_if_failed drop temp (fail e, disk) = (fail e, dropped drop temp disk)
drop_if_failed drop temp (ok t, disk) = (ok t, disk)

new_file : Created → Answers → String → Disk → Result String × Disk
unfolding drop_if_failed fill_temp io_failed
new_file (not_created f) os payload disk =
    (fail (io_failed "failed to create temporary file" f), disk)
new_file (created temp) os payload disk =
    drop_if_failed os.drop_temp temp (filled os temp payload disk)

unfoldable pub write_new : Answers → String → String → Disk → Result (Unit {0}) × Disk
unfolding commit_atomically new_file in_directory
write_new os target payload disk =
    in_directory os.mkdir disk
      (commit_atomically os target (new_file os.create_temp os payload disk))

-- The calls on the file that reserves a path: closing and removing it.
free_path : Answer → Answer → String → Disk → Result String × Disk
unfolding io_failed insert erase
free_path (refused f) remove path disk =
    (fail (io_failed "failed to close temporary rollback file path" f), insert path "" disk)
free_path succeeded (refused f) path disk =
    (fail (io_failed "failed to prepare temporary rollback file path" f), insert path "" disk)
free_path succeeded succeeded path disk = (ok path, erase path (insert path "" disk))

reserved : Created → Answer → Answer → Disk → Result String × Disk
unfolding free_path io_failed
reserved (not_created f) close remove disk =
    (fail (io_failed "failed to create temporary rollback file path" f), disk)
reserved (created path) close remove disk = free_path close remove path disk

-- `reserveTempPath`
unfoldable pub reserve_temp_path : Answers → Disk → Result String × Disk
unfolding reserved
reserve_temp_path os disk = reserved os.reserve os.reserve_close os.reserve_remove disk

write_failed : String → String → AppError
unfolding Errors.new
write_failed message reason = Errors.new Code.write_failed message (("reason", text reason) ∷ [])

-- `injectedWriteFailureError`
rolled_back : String → AppError
unfolding write_failed
rolled_back message = write_failed message message

not_rolled_back : String → String → String → AppError
unfolding Errors.new
not_rolled_back message reason rollback =
    Errors.new Code.write_failed message
      (("reason", text reason) ∷ ("rollback_reason", text rollback) ∷ [])

abbrev injected_message : String
injected_message = "injected write failure after source backup before move commit"

-- A backup that is not there any more needs no removal.
kept_backup : Failure → Result (Unit {0})
unfolding io_failed
kept_backup failure = elim failure.kind [
  | not_there ↦ ok tt
  | _ ↦ fail (io_failed "updated document moved but failed to cleanup source backup" failure)
]

removed_backup : Answer → String → Disk → Result (Unit {0}) × Disk
unfolding kept_backup erase
removed_backup succeeded backup disk = (ok tt, erase backup disk)
removed_backup (refused f) backup disk = (kept_backup f, disk)

-- The rollback of the source: the error if it succeeds, and the one if it fails.
rollback :
    Answer → AppError → (Failure → AppError) → String → String → Disk → Result (Unit {0}) × Disk
unfolding moved
rollback succeeded done_error failed_error source backup disk =
    (fail done_error, moved backup source disk)
rollback (refused f) done_error failed_error source backup disk = (fail (failed_error f), disk)

-- From the injected failure on.
commit_move :
    Bool → Answer → Answers → String → String → String → String → Disk → Result (Unit {0}) × Disk
unfolding rollback removed_backup write_failed rolled_back not_rolled_back moved
commit_move true _ os source target temp backup disk =
    rollback os.rename_back (rolled_back injected_message)
      (λ b.
        not_rolled_back (injected_message <> "; rollback failed")
          (injected_message <> "; rollback failed") b.detail)
      source backup disk
commit_move false (refused f) os source target temp backup disk =
    rollback os.rename_back (write_failed "failed to move updated document to target path" f.detail)
      (λ b. not_rolled_back "failed to move updated document and rollback source" f.detail b.detail)
      source backup disk
commit_move false succeeded os source target temp backup disk =
    removed_backup os.remove_backup backup (moved temp target disk)

-- From the rename of the source on; the deferred removals come behind.
move_files : Answer → Answers → String → String → String → String → Disk → Result (Unit {0}) × Disk
unfolding io_failed commit_move moved
move_files (refused f) os source target temp backup disk =
    (fail (io_failed "failed to prepare source file move" f), disk)
move_files succeeded os source target temp backup disk =
    commit_move os.inject os.rename_target os source target temp backup (moved source backup disk)

with_drops : Answers → String → String → Result (Unit {0}) × Disk → Result (Unit {0}) × Disk
unfolding dropped
with_drops os temp backup (result, disk) =
    (result, dropped os.drop_temp temp (dropped os.drop_backup backup disk))

with_backup : Answers → String → String → String → Result String × Disk → Result (Unit {0}) × Disk
unfolding with_drops move_files dropped
with_backup os source target temp (fail e, disk) = (fail e, dropped os.drop_temp temp disk)
with_backup os source target temp (ok backup, disk) =
    with_drops os temp backup (move_files os.rename_source os source target temp backup disk)

with_temp : Answers → String → String → Result String × Disk → Result (Unit {0}) × Disk
unfolding with_backup reserve_temp_path
with_temp os source target (fail e, disk) = (fail e, disk)
with_temp os source target (ok temp, disk) =
    with_backup os source target temp (reserve_temp_path os disk)

-- `writeWithMove`
unfoldable pub write_with_move :
    Answers → String → String → String → Disk → Result (Unit {0}) × Disk
unfolding with_temp write_temp_file in_directory
write_with_move os source target payload disk =
    in_directory os.mkdir disk (with_temp os source target (write_temp_file os payload disk))

-- `persist`; the cleaning of a path is the standard library's.
unfoldable pub persist :
    (String → String) → Answers → String → String → String → Disk → Result (Unit {0}) × Disk
unfolding write_atomically write_with_move rolled_back
persist clean os source target payload disk =
    if clean source == clean target
    then if os.inject
      then (fail (rolled_back "injected write failure before atomic write commit"), disk)
      else write_atomically os (clean target) payload disk
    else write_with_move os (clean source) (clean target) payload disk

-- `isPathConflict` of update; `stat` answers whether there is such a file.
unfoldable pub is_path_conflict :
    (String → String) → (String → Bool) → String → List String → String → Bool
is_path_conflict clean stat target existing ignored =
    not (target == "")
    && not (clean target == clean ignored)
    && (contains existing (clean target) || stat (clean target))

-- `isPathConflict` of add.
unfoldable pub is_new_path_conflict :
    (String → String) → (String → Bool) → String → List String → Bool
is_new_path_conflict clean stat target existing =
    not (target == "") && (contains existing (clean target) || stat (clean target))
