-- ===== src/Update/Storage/Move.antt =====
-- internal/application/commands/update/internal/engine/storage.go: the files after an updated document was
-- moved, and after a rollback that failed.
use spec_cli.Common.{
  String, ◌≡◌, refl, sym, ◌∙◌, subst, Bool, true, false, not, Option, none, some, arith, ◌⊎◌, inl,
  inr,
}
use spec_cli.Common.{◌==◌, string_eq, eq_self, eq_true, eq_false_comm, if◌then◌else◌, Bool-cases}
use spec_cli.Common.Dict.{lookup, insert, erase, lookup-erase}
use spec_cli.Errors.{AppError, Result, ok, fail}
use spec_cli.IoFailure.{Failure, Kind, not_permitted, not_there, other_failure}
use spec_cli.Delete.{Disk}
use spec_cli.Update.Storage.{
  Answer, succeeded, refused, Created, created, not_created, Answers, moved, dropped,
  write_temp_file, temp_file, free_path, fill_temp, reserved, reserve_temp_path, kept_backup,
  removed_backup, rollback, commit_move, move_files, with_drops, with_backup, with_temp,
  in_directory, no_directory, write_with_move,
}
use spec_cli.Update.Storage.Safe.{
  is_path, lookup-moved, lookup-dropped_other, lookup-insert_other, lookup-insert_here, Unchanged,
  Filled, temp_file-Filled,
}

-- What a path holds after the move: the payload is at the target, and the source is gone.
abbrev pub after_move : String → String → String → String → Option String → Option String
after_move source target payload p before =
    if target == p then some payload else if source == p then none else before

-- The outcome of a run for one path, by what the path held before and what it holds now.
abbrev pub MovedAt :
    Answers
    → String
    → String
    → String
    → String
    → Option String
    → Result (Unit {0})
    → Option String
    → Type 0
MovedAt os source target payload p before result now =
    ((result ≡ ok tt) × (now ≡ after_move source target payload p before))
    ⊎ ((e : AppError) × (result ≡ fail e)
        × ((now ≡ before)
            ⊎ ((now ≡ after_move source target payload p before)
                × ((f : Failure) × (os.remove_backup ≡ refused f)))
            ⊎ ((f : Failure) × (os.rename_back ≡ refused f))))

-- The path is neither of the two temporary ones.
pub record IsFresh (os : Answers) (p : String) : Type 0 where
  pub no_temp : is_path os.create_temp p ≡ false
  pub no_backup : is_path os.reserve p ≡ false

-- The two temporary paths are not the same.
abbrev pub are_apart : Created → Created → Bool
are_apart (created t) c = not (is_path c t)
are_apart (not_created _) c = true

Reserved : Created → Disk → Result String × Disk → Type 0
Reserved c disk out =
    ((backup : String) × (c ≡ created backup)
      × (out ≡ (ok backup, erase backup (insert backup "" disk))))
    ⊎ ((e : AppError) × (after : Disk) × (out ≡ (fail e, after)) × Unchanged (is_path c) disk after)

reserved-Reserved :
    (c : Created) (close remove : Answer) (disk : Disk)
    → Reserved c disk (reserved c close remove disk)
unfolding reserved free_path Reserved
reserved-Reserved (not_created f) close remove disk = inr (_, _, refl, λ p n. refl)
reserved-Reserved (created b) (refused f) remove disk =
    inr (_, _, refl, λ p n. lookup-insert_other b p "" disk n)
reserved-Reserved (created b) succeeded (refused f) disk =
    inr (_, _, refl, λ p n. lookup-insert_other b p "" disk n)
reserved-Reserved (created b) succeeded succeeded disk = inl (b, refl, refl)

MovedAt-failed :
    (os : Answers) (source target payload p : String) (before now : Option String) (e : AppError)
    → now ≡ before
    → MovedAt os source target payload p before (fail e) now
MovedAt-failed os source target payload p before now e same = inr (e, refl, inl same)

not-true : (b : Bool) → not b ≡ true → b ≡ false
not-true b h = grind arith

-- A path that was reserved and is free again.
lookup-freed :
    (backup q : String) (disk : Disk)
    → (backup == q) ≡ false
    → lookup q (erase backup (insert backup "" disk)) ≡ lookup q disk
lookup-freed backup q disk n =
    lookup-erase q backup (insert backup "" disk) ∙ rw n (lookup-insert_other backup q "" disk n)

module _ (os : Answers) (source target temp backup payload old p : String) (disk : Disk)
    (held : lookup source disk ≡ some old) (filled : lookup temp disk ≡ some payload)
    (n_temp : (temp == p) ≡ false) (n_backup : (backup == p) ≡ false)
    (backup_temp : (backup == temp) ≡ false) (source_temp : (source == temp) ≡ false) where
  abbrev away : Disk
  away = moved source backup disk

  -- The outcome of a part of the run that starts with the files of `disk`.
  abbrev Moved : Result (Unit {0}) × Disk → Type 0
  Moved out = MovedAt os source target payload p (lookup p disk) out.0 (lookup p out.1)

  lookup-away : lookup p away ≡ (if source == p then none else lookup p disk)
  lookup-away = lookup-moved source backup p old disk held ∙ rw n_backup refl

  backed_up : lookup backup away ≡ some old
  backed_up = lookup-moved source backup backup old disk held ∙ rw (eq_self backup) refl

  still_filled : lookup temp away ≡ some payload
  still_filled =
      lookup-moved source backup temp old disk held ∙ rw (backup_temp, source_temp) filled

  lookup-back : lookup p (moved backup source away) ≡ lookup p disk
  lookup-back =
      lookup-moved backup source p old away backed_up
      ∙ rw n_backup (elim (Bool-cases (source == p)) [
        | inl e ↦ rw e (sym (subst (λ q. lookup q disk ≡ some old) (eq_true source p e) held))
        | inr e ↦ rw e (lookup-away ∙ rw e refl)
      ])

  lookup-arrived :
      lookup p (moved temp target away) ≡ after_move source target payload p (lookup p disk)
  lookup-arrived =
      lookup-moved temp target p payload away still_filled ∙ rw (n_temp, lookup-away) refl

  rollback-Moved :
      (a : Answer) (done_error : AppError) (failed_error : Failure → AppError)
      → os.rename_back ≡ a
      → Moved (rollback a done_error failed_error source backup away)
  unfolding rollback
  rollback-Moved succeeded done_error failed_error same = inr (_, refl, inl lookup-back)
  rollback-Moved (refused f) done_error failed_error same = inr (_, refl, inr (inr (f, same)))

  kept_backup-Moved :
      (f : Failure) (k : Kind)
      → f.kind ≡ k
      → os.remove_backup ≡ refused f
      → Moved (kept_backup f, moved temp target away)
  unfolding kept_backup
  kept_backup-Moved f not_there k same = rw k (inl (refl, lookup-arrived))
  kept_backup-Moved f not_permitted k same =
      rw k (inr (_, refl, inr (inl (lookup-arrived, (f, same)))))
  kept_backup-Moved f other_failure k same =
      rw k (inr (_, refl, inr (inl (lookup-arrived, (f, same)))))

  removed_backup-Moved :
      (a : Answer) → os.remove_backup ≡ a → Moved (removed_backup a backup (moved temp target away))
  unfolding removed_backup
  removed_backup-Moved succeeded same =
      inl (refl, lookup-erase p backup (moved temp target away) ∙ rw n_backup lookup-arrived)
  removed_backup-Moved (refused f) same = kept_backup-Moved f f.kind refl same

  commit_move-Moved :
      (inject : Bool) (a : Answer) → Moved (commit_move inject a os source target temp backup away)
  unfolding commit_move
  commit_move-Moved true a = rollback-Moved os.rename_back _ _ refl
  commit_move-Moved false (refused f) = rollback-Moved os.rename_back _ _ refl
  commit_move-Moved false succeeded = removed_backup-Moved os.remove_backup refl

  move_files-Moved : (a : Answer) → Moved (move_files a os source target temp backup disk)
  unfolding move_files
  move_files-Moved succeeded = commit_move-Moved os.inject os.rename_target
  move_files-Moved (refused f) = inr (_, refl, inl refl)

  lookup-with_drops :
      (out : Result (Unit {0}) × Disk) → lookup p (with_drops os temp backup out).1 ≡ lookup p out.1
  unfolding with_drops
  lookup-with_drops (r, after) =
      lookup-dropped_other os.drop_temp temp p (dropped os.drop_backup backup after) n_temp
      ∙ lookup-dropped_other os.drop_backup backup p after n_backup

  with_drops-Moved :
      (out : Result (Unit {0}) × Disk) → Moved out → Moved (with_drops os temp backup out)
  unfolding with_drops
  with_drops-Moved (r, after) m =
      subst (MovedAt os source target payload p (lookup p disk) r)
        (sym (lookup-with_drops (r, after))) m

  move-Moved :
      Moved
        (with_drops os temp backup (move_files os.rename_source os source target temp backup disk))
  move-Moved =
      with_drops-Moved (move_files os.rename_source os source target temp backup disk)
        (move_files-Moved os.rename_source)

-- The paths of the documents are not those of the temporary files.
abbrev Run : Answers → String → String → String → String → Disk → Result (Unit {0}) × Disk → Type 0
Run os source target payload p disk out =
    MovedAt os source target payload p (lookup p disk) out.0 (lookup p out.1)

module _ (os : Answers) (source target payload old p : String) (disk : Disk)
    (held : lookup source disk ≡ some old) (apart : are_apart os.create_temp os.reserve ≡ true)
    (fresh : IsFresh os p) (source_fresh : IsFresh os source) where
  Run-later :
      (later : Disk) (out : Result (Unit {0}) × Disk)
      → lookup p later ≡ lookup p disk
      → Run os source target payload p later out
      → Run os source target payload p disk out
  Run-later later (r, after) same m =
      subst (λ o. MovedAt os source target payload p o r (lookup p after)) same m

  apart_paths :
      (temp backup : String)
      → os.create_temp ≡ created temp
      → os.reserve ≡ created backup
      → (backup == temp) ≡ false
  apart_paths temp backup made made_backup = not-true (backup == temp) (
      subst (λ c. not (is_path c temp) ≡ true) made_backup
        (subst (λ c. are_apart c os.reserve ≡ true) made apart))

  with_backup-Run :
      (temp : String) (out : Result String × Disk)
      → os.create_temp ≡ created temp
      → Reserved os.reserve (insert temp payload disk) out
      → Run os source target payload p disk (with_backup os source target temp out)
  unfolding with_backup Reserved
  with_backup-Run temp out made (inr (e, after, o, unchanged)) =
      let n_temp = subst (λ c. is_path c p ≡ false) made fresh.no_temp in
      rw o (
        inr (
          e,
          refl,
          inl (
              lookup-dropped_other os.drop_temp temp p after n_temp
              ∙ unchanged p fresh.no_backup
              ∙ lookup-insert_other temp p payload disk n_temp),
        ))
  with_backup-Run temp out made (inl (backup, made_backup, o)) =
      let n_temp = subst (λ c. is_path c p ≡ false) made fresh.no_temp in
      let n_backup = subst (λ c. is_path c p ≡ false) made_backup fresh.no_backup in
      let source_temp = subst (λ c. is_path c source ≡ false) made source_fresh.no_temp in
      let source_backup =
        subst (λ c. is_path c source ≡ false) made_backup source_fresh.no_backup in
      let backup_temp = apart_paths temp backup made made_backup in
      let later = erase backup (insert backup "" (insert temp payload disk)) in
      rw o (
        Run-later later
          (with_drops os temp backup
            (move_files os.rename_source os source target temp backup later))
          (lookup-freed backup p (insert temp payload disk) n_backup
            ∙ lookup-insert_other temp p payload disk n_temp)
          (move-Moved os source target temp backup payload old p later
            (lookup-freed backup source (insert temp payload disk) source_backup
              ∙ lookup-insert_other temp source payload disk source_temp
              ∙ held)
            (lookup-freed backup temp (insert temp payload disk) backup_temp
              ∙ lookup-insert_here temp payload disk)
            n_temp n_backup backup_temp (eq_false_comm temp source source_temp)))

  with_temp-Run :
      (out : Result String × Disk)
      → Filled os.create_temp payload disk out
      → Run os source target payload p disk (with_temp os source target out)
  unfolding with_temp reserve_temp_path
  with_temp-Run out (inl (temp, made, o)) = rw o (
      with_backup-Run temp _ made
        (reserved-Reserved os.reserve os.reserve_close os.reserve_remove _))
  with_temp-Run out (inr (e, after, o, unchanged)) =
      rw o (inr (e, refl, inl (unchanged p fresh.no_temp)))

  in_directory-Run :
      (a : Answer) (out : Result (Unit {0}) × Disk)
      → Run os source target payload p disk out
      → Run os source target payload p disk (in_directory a disk out)
  unfolding in_directory no_directory
  in_directory-Run (refused f) out m = inr (_, refl, inl refl)
  in_directory-Run succeeded out m = m

-- An update that moves the document, at any path but the two temporary ones: if it reports success, the payload
-- is at the target, nothing is at the source, and every other path is as before. If it reports an error, the path
-- is as before; or the backup could not be removed, and the move is done; or the rollback itself was refused.
-- The source exists, and the temporary paths differ from the source and from each other.
pub write_with_move-MovedAt :
    (os : Answers) (source target payload old p : String) (disk : Disk)
    → lookup source disk ≡ some old
    → are_apart os.create_temp os.reserve ≡ true
    → IsFresh os p
    → IsFresh os source
    → let out = write_with_move os source target payload disk in
      MovedAt os source target payload p (lookup p disk) out.0 (lookup p out.1)
unfolding write_with_move write_temp_file
write_with_move-MovedAt os source target payload old p disk held apart fresh source_fresh =
    in_directory-Run os source target payload old p disk held apart fresh source_fresh os.mkdir _ (
      with_temp-Run os source target payload old p disk held apart fresh source_fresh _
        (temp_file-Filled os.create_temp os payload disk))

-- The answers of a run in which everything succeeds up to the rename to the target, which is refused, and so is
-- the rename of the backup back to the source.
abbrev pub both_refused : String → String → Failure → Failure → Answers
both_refused temp backup forward back = record {
  inject = false;
  mkdir = succeeded;
  create_temp = created temp;
  write = succeeded;
  written = "";
  sync = succeeded;
  close = succeeded;
  reserve = created backup;
  reserve_close = succeeded;
  reserve_remove = succeeded;
  rename_source = succeeded;
  rename_back = refused back;
  rename_target = refused forward;
  remove_backup = succeeded;
  drop_temp = succeeded;
  drop_backup = succeeded;
}

-- If the rename to the target and the rename back are both refused, the deferred removals delete the backup,
-- which is the only copy of the document: afterwards neither the source nor the backup nor the temporary path
-- holds anything, and every other path, the target with it, is as before. The source exists and is neither of
-- the two temporary paths.
pub write_with_move-both_refused :
    (source target temp backup payload old p : String) (forward back : Failure) (disk : Disk)
    → lookup source disk ≡ some old
    → (temp == source) ≡ false
    → (backup == source) ≡ false
    → lookup p
        (write_with_move (both_refused temp backup forward back) source target payload disk).1
      ≡ (if temp == p
          then none
          else if backup == p
          then none
          else if source == p
          then none
          else lookup p disk)
unfolding write_with_move write_temp_file temp_file fill_temp in_directory with_temp with_backup
    reserve_temp_path reserved free_path with_drops move_files commit_move rollback dropped
write_with_move-both_refused source target temp backup payload old p forward back disk held n_temp
      n_backup =
    let filled = insert temp payload disk in
    let later = erase backup (insert backup "" filled) in
    let held_later =
      lookup-freed backup source filled n_backup
      ∙ lookup-insert_other temp source payload disk n_temp
      ∙ held in
    rw (lookup-erase p temp (erase backup (moved source backup later))) (
      rw (lookup-erase p backup (moved source backup later)) (
        rw (lookup-moved source backup p old later held_later) (elim (Bool-cases (temp == p)) [
          | inl e ↦ rw e refl
          | inr e ↦ rw e (elim (Bool-cases (backup == p)) [
            | inl b ↦ rw b refl
            | inr b ↦ rw b (
                rw (lookup-freed backup p filled b ∙ lookup-insert_other temp p payload disk e)
                  refl)
          ])
        ])))
