-- ===== src/Delete/Laws.antt =====
-- internal/application/commands/delete/internal/engine: what blocks a delete, and the disk after one.
use spec_cli.Common.{◌≡◌, ◌⊎◌, inl, inr, refl, sym, ◌∙◌, ap, String, Bool, true, false, not}
use spec_cli.Common.{List, [], ◌∷◌, arith, ◌==◌, ◌&&◌, ◌||◌, string_eq}
use spec_cli.Common.{any, length, length-sort_by, sort_by, Bool-cases}
use spec_cli.Common.Dict.{lookup, erase}
use spec_cli.Errors.{AppError, Result-cases, Result, ok, fail}
use spec_cli.Values.{Scalars}
use spec_cli.Delete.{
  Options, ParsedDocument, Snapshot, SourceSlot, BlockingReference, Slots, slot_blocks, slots_of,
  seen_before, blocking_of, blocking_slots, blocking_from, blocking_less, find_blocking_references,
  Disk, Removal, removed, permission_denied, missing_file, failed, injected, Deleted, execute,
  locate_target, check_revision, check_references, remove_target, delete_document, deletion,
  response,
}

abbrev pub is_empty : {A : Type 0} → List A → Bool
is_empty [] = true
is_empty (_ ∷ _) = false

and_true : (b : Bool) → b ≡ (b && true)
and_true b = ground arith

and-not-or_left : (a b c : Bool) → ((a && not b) && not c) ≡ (a && not (b || c))
and-not-or_left a b c = ground arith

module _ {S : Scalars} (slots : Slots) (target : ParsedDocument S) where
  -- Another document has a reference field that names the target.
  abbrev pub refers : ParsedDocument S → Bool
  refers d =
      not (d.path_abs == target.path_abs)
      && any (slot_blocks target d) (slots_of (lookup d.type_name slots))

  blocking_slots-empty :
      (d : ParsedDocument S) (ss : List SourceSlot) (found : List BlockingReference)
      → is_empty (blocking_slots target d ss found)
        ≡ (is_empty found && not (any (slot_blocks target d) ss))
  unfolding blocking_slots
  blocking_slots-empty d [] [] = refl
  blocking_slots-empty d [] (b ∷ bs) = refl
  blocking_slots-empty d (s ∷ ss) [] = elim (Bool-cases (slot_blocks target d s)) [
    | inl h ↦ rw h (blocking_slots-empty d ss (blocking_of d s ∷ []))
    | inr h ↦ rw h (blocking_slots-empty d ss [])
  ]
  blocking_slots-empty d (s ∷ ss) (b ∷ bs) =
      elim (Bool-cases (slot_blocks target d s && not (seen_before (blocking_of d s) (b ∷ bs)))) [
        | inl h ↦ rw h (blocking_slots-empty d ss (blocking_of d s ∷ b ∷ bs))
        | inr h ↦ rw h (blocking_slots-empty d ss (b ∷ bs))
      ]

  blocking_from-empty :
      (ds : List (ParsedDocument S)) (found : List BlockingReference)
      → is_empty (blocking_from slots target ds found) ≡ (is_empty found && not (any refers ds))
  unfolding blocking_from
  blocking_from-empty [] found = and_true (is_empty found)
  blocking_from-empty (d ∷ ds) found = elim (Bool-cases (d.path_abs == target.path_abs)) [
    | inl h ↦ rw h (blocking_from-empty ds found)
    | inr h ↦
        rw h (
          blocking_from-empty ds _ ∙ rw blocking_slots-empty (and-not-or_left (is_empty found) _ _))
  ]

is_empty-length : {A : Type 0} (xs ys : List A) → length xs ≡ length ys → is_empty xs ≡ is_empty ys
is_empty-length [] [] h = refl
is_empty-length [] (y ∷ ys) h = absurd (omega arith)
is_empty-length (x ∷ xs) [] h = absurd (omega arith)
is_empty-length (x ∷ xs) (y ∷ ys) h = refl

is_empty-sort_by :
    {A : Type 0} (less : A → A → Bool) (xs : List A) → is_empty (sort_by less xs) ≡ is_empty xs
is_empty-sort_by less xs = is_empty-length (sort_by less xs) xs (length-sort_by less xs)

-- A delete is blocked exactly when another document of the snapshot, told by its path, has a reference
-- field of its type that names the target's id.
pub find_blocking_references_iff :
    {S : Scalars} (slots : Slots) (snapshot : Snapshot S) (target : ParsedDocument S)
    → is_empty (find_blocking_references slots snapshot target)
      ≡ not (any (refers slots target) snapshot.documents)
unfolding find_blocking_references
find_blocking_references_iff slots snapshot target =
    is_empty-sort_by blocking_less (blocking_from slots target snapshot.documents [])
    ∙ blocking_from-empty slots target snapshot.documents []

abbrev pub as_dry : Result Deleted → Result Deleted
as_dry (ok d) = ok (record d { dry_run = true })
as_dry (fail e) = fail e

module _ {S : Scalars} (slots : Slots) (snapshot : Snapshot S) where
  -- What has to hold for a delete to touch the disk.
  pub record MayRemove (opts : Options) (target : ParsedDocument S) : Type 0 where
    pub real : opts.dry_run ≡ false
    pub located : locate_target opts.id snapshot ≡ ok target
    pub revision : (opts.expect_revision ≡ "") ⊎ (opts.expect_revision ≡ target.revision)
    pub unreferenced : any (refers slots target) snapshot.documents ≡ false

  nothing_blocks :
      (target : ParsedDocument S)
      → find_blocking_references slots snapshot target ≡ []
      → any (refers slots target) snapshot.documents ≡ false
  nothing_blocks target h =
      not_true _ (sym (find_blocking_references_iff slots snapshot target) ∙ ap is_empty h)
    where
      not_true : (b : Bool) → not b ≡ true → b ≡ false
      not_true true h = cc
      not_true false h = refl

  module _ (remove : String → Removal) where
    -- The disk is as it was, or the target was one to remove, and is removed.
    abbrev pub Safe : Options → Disk → ParsedDocument S → Result Deleted × Disk → Type 0
    Safe opts disk target out =
        (out.1 ≡ disk)
        ⊎ (MayRemove opts target
            × (out.1 ≡ erase target.path_abs disk)
            × ((d : Deleted) × (out.0 ≡ ok d)))

    deletion_cases :
        (r : Removal) (path : String) (disk : Disk)
        → (deletion r path disk ≡ (ok tt, erase path disk))
          ⊎ ((e : AppError) × (deletion r path disk ≡ (fail e, disk)))
    unfolding deletion
    deletion_cases removed path disk = inl refl
    deletion_cases permission_denied path disk = inr (_, refl)
    deletion_cases missing_file path disk = inr (_, refl)
    deletion_cases failed path disk = inr (_, refl)
    deletion_cases injected path disk = inr (_, refl)

    remove_target-Safe :
        (opts : Options) (target : ParsedDocument S) (disk : Disk)
        → (opts.dry_run ≡ false → MayRemove opts target)
        → Safe opts disk target (remove_target remove opts slots target disk)
    unfolding remove_target delete_document
    remove_target-Safe opts target disk may = elim (Bool-cases opts.dry_run) [
      | inl h ↦ inl (rw h refl)
      | inr h ↦ elim (deletion_cases (remove target.path_abs) target.path_abs disk) [
        | inl e ↦ inr (may h, rw (h, e) refl, (response remove opts slots target, rw (h, e) refl))
        | inr (_, e) ↦ inl (rw (h, e) refl)
      ]
    ]

    check_references-Safe :
        (opts : Options) (target : ParsedDocument S) (disk : Disk) (bs : List BlockingReference)
        → (opts.dry_run ≡ false → bs ≡ [] → MayRemove opts target)
        → Safe opts disk target (check_references remove opts slots target bs disk)
    unfolding check_references
    check_references-Safe opts target disk [] may =
        remove_target-Safe opts target disk (λ h. may h refl)
    check_references-Safe opts target disk (b ∷ bs) may = inl refl

    revision_matches :
        (opts : Options) (revision : String)
        → (not (opts.expect_revision == "") && not (opts.expect_revision == revision)) ≡ false
        → (opts.expect_revision ≡ "") ⊎ (opts.expect_revision ≡ revision)
    revision_matches opts revision h = ground arith

    check_revision-Safe :
        (opts : Options) (target : ParsedDocument S) (disk : Disk)
        → locate_target opts.id snapshot ≡ ok target
        → Safe opts disk target (check_revision remove opts slots snapshot target disk)
    unfolding check_revision
    check_revision-Safe opts target disk located =
        elim (Bool-cases
          (not (opts.expect_revision == "") && not (opts.expect_revision == target.revision))) [
            | inl h ↦ inl (rw h refl)
            | inr h ↦ rw h (
                check_references-Safe opts target disk
                  (find_blocking_references slots snapshot target)
                  (λ real e. record {
                    real = real;
                    located = located;
                    revision = revision_matches opts target.revision h;
                    unreferenced = nothing_blocks target e;
                  }))
          ]

    -- Whatever comes of the removal of a file, a delete leaves the disk as it was, or it succeeds and
    -- removes the file of the one located target, which is not a dry run, not at another revision
    -- than the expected one, and not named by a reference field of another document.
    pub execute_safe :
        (opts : Options) (disk : Disk)
        → let out = execute remove opts slots snapshot disk in
          (out.1 ≡ disk)
          ⊎ ((target : ParsedDocument S) × MayRemove opts target
              × (out.1 ≡ erase target.path_abs disk)
              × ((d : Deleted) × (out.0 ≡ ok d)))
    unfolding execute
    execute_safe opts disk = elim (Result-cases (locate_target opts.id snapshot)) [
      | inr (e, h) ↦ inl (rw (execute, h) refl)
      | inl (target, h) ↦
          rw (execute, h)
            (elim (check_revision-Safe opts target disk h) [
              | inl e ↦ inl e
              | inr (may, gone, answered) ↦ inr (target, may, gone, answered)
            ])
    ]

  -- A dry run answers what the real run answers where the operating system removes the file, marked as
  -- dry, and leaves the disk alone.
  pub execute_dry :
      (opts : Options) (disk : Disk)
      → execute (λ _. removed) (record opts { dry_run = true }) slots snapshot disk ≡ (
        as_dry (execute (λ _. removed) (record opts { dry_run = false }) slots snapshot disk).0,
        disk,
      )
  unfolding execute check_revision check_references remove_target delete_document deletion
  execute_dry opts disk = ground arith
