-- ===== src/Update/Execute/Safe.antt =====
-- internal/application/commands/update/internal/engine/execute.go: when an update changes the disk.
use spec_cli.Common.{String, ◌≡◌, refl, Bool, true, false, not, List, [], ◌∷◌, ◌⊎◌, inl, inr}
use spec_cli.Common.{◌==◌, ◌&&◌, string_eq, if◌then◌else◌}
use spec_cli.Common.Dict.{Dict, lookup}
use spec_cli.Errors.{AppError, Result, ok, fail}
use spec_cli.Read.Execute.{Run, done, refused, panicked, ◌>>=◌}
use spec_cli.Values.{Scalars}
use spec_cli.Write.{EntityTypeSpec, Issue}
use spec_cli.Write.Values.{Read, contents, unreadable}
use spec_cli.Delete.{Disk}
use spec_cli.Update.Preflight.{Options}
use spec_cli.Update.Apply
use spec_cli.Update.Apply.{apply_writes}
use spec_cli.Update.Candidate.{Candidate, read_string_field}
use spec_cli.Update.Storage.{Answers, persist, is_path_conflict}
use spec_cli.Update.Apply.Changes.{Ends, Ends-any, Ends-bind}
use spec_cli.Update.Execute.{
  TargetMatch, Snapshot, Services, Updated, Prepared, locate_target, parsed, required_field,
  check_id, known_type, check_revision, no_issues, candidate_of, issues_of, stored, write_or_not,
  serialized, changed_answer, prepared, judged, finish, execute,
}

-- A revision is expected, and it is another one.
abbrev pub is_stale : String → String → Bool
is_stale expected current = not (expected == "") && not (expected == current)

refused_or :
    (b : Bool) (e : AppError) (u : Unit {0})
    → Ends (λ _. b ≡ false) (if b then refused e else done u)
refused_or true e u = tt
refused_or false e u = refl

module _ {S : Scalars} (services : Services S) (opts : Options) (os : Answers) where
  -- The disk is as it was, or it was written to for a run that is not dry, to a path without a conflict.
  abbrev Stored : TargetMatch → Snapshot S → Candidate S → Disk → Disk → Type 0
  Stored target snapshot c disk after =
      (after ≡ disk)
      ⊎ ((payload : String) × (opts.dry_run ≡ false)
          × (is_path_conflict services.clean services.stat c.path_abs snapshot.existing_paths
                target.path_abs
              ≡ false)
          × (after ≡ (persist services.clean os target.path_abs c.path_abs payload disk).1))

  stored-disk :
      (r : Apply.WriteResult S) (c : Candidate S) (payload : String)
      (out : Result (Unit {0}) × Disk)
      → (stored services opts r c payload out).1 ≡ out.1
  unfolding stored
  stored-disk r c payload (ok _, disk) = refl
  stored-disk r c payload (fail _, disk) = refl

  write_or_not-Stored :
      (dry : Bool) (target : TargetMatch) (snapshot : Snapshot S) (r : Apply.WriteResult S)
      (c : Candidate S) (payload : String) (disk : Disk)
      → opts.dry_run ≡ dry
      → is_path_conflict services.clean services.stat c.path_abs snapshot.existing_paths
          target.path_abs
        ≡ false
      → Stored target snapshot c disk (write_or_not services opts dry os target r c payload disk).1
  unfolding write_or_not
  write_or_not-Stored true target snapshot r c payload disk d n = inl refl
  write_or_not-Stored false target snapshot r c payload disk d n = inr (
    payload,
    d,
    n,
    stored-disk r c payload (persist services.clean os target.path_abs c.path_abs payload disk),
  )

  serialized-Stored :
      (target : TargetMatch) (snapshot : Snapshot S) (r : Apply.WriteResult S) (c : Candidate S)
      (payload : Read String) (disk : Disk)
      → is_path_conflict services.clean services.stat c.path_abs snapshot.existing_paths
          target.path_abs
        ≡ false
      → Stored target snapshot c disk (serialized services opts os target r c payload disk).1
  unfolding serialized
  serialized-Stored target snapshot r c (contents payload) disk n =
      write_or_not-Stored opts.dry_run target snapshot r c payload disk refl n
  serialized-Stored target snapshot r c (unreadable reason) disk n = inl refl

  if_refused :
      (target : TargetMatch) (snapshot : Snapshot S) (c : Candidate S) (disk : Disk) (b : Bool)
      (one other : Run (Updated S) × Disk)
      → one.1 ≡ disk
      → (b ≡ false → Stored target snapshot c disk other.1)
      → Stored target snapshot c disk (if b then one else other).1
  if_refused target snapshot c disk true one other same step = inl same
  if_refused target snapshot c disk false one other same step = step refl

  changed_answer-Stored :
      (target : TargetMatch) (snapshot : Snapshot S) (r : Apply.WriteResult S) (c : Candidate S)
      (disk : Disk)
      → Stored target snapshot c disk (changed_answer services opts os target snapshot r c disk).1
  unfolding changed_answer
  changed_answer-Stored target snapshot r c disk =
      if_refused target snapshot c disk (c.path_abs == "") _ _ refl λ _.
        if_refused target snapshot c disk
          (is_path_conflict services.clean services.stat c.path_abs snapshot.existing_paths
            target.path_abs)
          _ _ refl λ free. serialized-Stored target snapshot r c (services.serialize c) disk free

  locate_target-Ends :
      (ts : List TargetMatch) (id : String) → Ends (λ t. ts ≡ t ∷ []) (locate_target ts id)
  unfolding locate_target
  locate_target-Ends [] id = tt
  locate_target-Ends (t ∷ []) id = refl
  locate_target-Ends (t ∷ u ∷ ts) id = tt

  check_revision-Ends :
      (expected current : String)
      → Ends (λ _. is_stale expected current ≡ false) (check_revision expected current)
  unfolding check_revision
  check_revision-Ends expected current = refused_or (is_stale expected current) _ tt

  no_issues-Ends : (is : List Issue) → Ends (λ _. is ≡ []) (no_issues is)
  unfolding no_issues
  no_issues-Ends [] = refl
  no_issues-Ends (i ∷ is) = tt

  -- What is known of a run that got past the checks.
  abbrev IsLocated : Snapshot S → Prepared S → Type 0
  IsLocated snapshot p =
      (snapshot.target_matches ≡ p.target ∷ [])
      × (is_stale opts.expect_revision (services.revision p.target.raw) ≡ false)

  prepared-Ends :
      (types : Dict EntityTypeSpec) (snapshot : Snapshot S)
      → Ends (IsLocated snapshot) (prepared services opts types snapshot)
  unfolding prepared
  prepared-Ends types snapshot =
      Ends-bind (λ t. snapshot.target_matches ≡ t ∷ []) (IsLocated snapshot)
        (locate_target snapshot.target_matches opts.id) _
        (locate_target-Ends snapshot.target_matches opts.id)
        λ target located.
          passing (parsed "failed to parse target frontmatter" (services.parse target.raw)) _
            λ document.
              passing
                (required_field "failed to determine entity type" "type"
                  (read_string_field "type" document.0))
                _
                λ type_name.
                  passing
                    (required_field "failed to determine entity id" "id"
                      (read_string_field "id" document.0))
                    _
                    λ id. passing (check_id opts.id id) _ λ _.
                      passing (known_type type_name (lookup type_name types)) _ λ spec.
                        Ends-bind
                          (λ _.
                            is_stale opts.expect_revision (services.revision target.raw) ≡ false)
                          (IsLocated snapshot)
                          (check_revision opts.expect_revision (services.revision target.raw)) _
                          (check_revision-Ends opts.expect_revision (services.revision target.raw))
                          λ _ fresh.
                            passing
                              (apply_writes services.hash services.read_file services.parse_yaml
                                services.read_body services.stdin opts spec document.0 document.1)
                              (λ result.
                                done (record { target = target; spec = spec; result = result }))
                              λ result. (located, fresh)
    where
      passing :
          {A : Type 0} (first : Run A) (next : A → Run (Prepared S))
          → ((a : A) → Ends (IsLocated snapshot) (next a))
          → Ends (IsLocated snapshot) (first >>= next)
      passing first next step =
          Ends-bind (λ _. Unit {0}) (IsLocated snapshot) first next (Ends-any first) λ a _. step a

  abbrev IsJudged : Snapshot S → Prepared S × String → Type 0
  IsJudged snapshot (p, _) =
      IsLocated snapshot p × (issues_of services opts p.spec snapshot p.result ≡ [])

  judged-Ends :
      (snapshot : Snapshot S) (p : Prepared S)
      → IsLocated snapshot p
      → Ends (IsJudged snapshot) (judged services opts snapshot p)
  unfolding judged
  judged-Ends snapshot p located =
      Ends-bind (λ _. issues_of services opts p.spec snapshot p.result ≡ []) (IsJudged snapshot) _ _
        (no_issues-Ends (issues_of services opts p.spec snapshot p.result))
        λ _ fine.
          Ends-bind (λ _. Unit {0}) (IsJudged snapshot)
            (parsed "failed to resolve source relative path"
              (services.relative snapshot.workspace_path p.target.path_abs))
            _ (Ends-any _) λ original _. (located, fine)

  -- The disk was not touched, or written to as `persist` does it, for a run that was checked.
  abbrev pub Outcome : Snapshot S → Disk → Disk → Type 0
  Outcome snapshot disk after =
      (after ≡ disk)
      ⊎ ((p : Prepared S) × (payload : String) × (snapshot.target_matches ≡ p.target ∷ [])
          × (is_stale opts.expect_revision (services.revision p.target.raw) ≡ false)
          × (issues_of services opts p.spec snapshot p.result ≡ [])
          × (p.result.user_changed ≡ true)
          × (opts.dry_run ≡ false)
          × (is_path_conflict services.clean services.stat
                (candidate_of services opts p.spec snapshot p.result).path_abs
                snapshot.existing_paths p.target.path_abs
              ≡ false)
          × (after
              ≡ (persist services.clean os p.target.path_abs
                  (candidate_of services opts p.spec snapshot p.result).path_abs payload disk).1))

  either_answer :
      (snapshot : Snapshot S) (disk : Disk) (b : Bool) (one other : Run (Updated S) × Disk)
      → (b ≡ true → Outcome snapshot disk one.1)
      → other.1 ≡ disk
      → Outcome snapshot disk (if b then one else other).1
  either_answer snapshot disk true one other step same = step refl
  either_answer snapshot disk false one other step same = inl same

  Stored-Outcome :
      (snapshot : Snapshot S) (p : Prepared S) (original : String) (disk after : Disk)
      → IsJudged snapshot (p, original)
      → p.result.user_changed ≡ true
      → Stored p.target snapshot (candidate_of services opts p.spec snapshot p.result) disk after
      → Outcome snapshot disk after
  Stored-Outcome snapshot p original disk after judge h (inl e) = inl e
  Stored-Outcome snapshot p original disk after ((located, fresh), fine) h
        (inr (payload, wet, free, same)) =
      inr (p, payload, located, fresh, fine, h, wet, free, same)

  finish-Outcome :
      (snapshot : Snapshot S) (out : Run (Prepared S × String)) (disk : Disk)
      → Ends (IsJudged snapshot) out
      → Outcome snapshot disk (finish services opts os snapshot out disk).1
  unfolding finish
  finish-Outcome snapshot (done (p, original)) disk judge =
      either_answer snapshot disk p.result.user_changed _ _
        (λ h. Stored-Outcome snapshot p original disk _ judge h (
          changed_answer-Stored p.target snapshot p.result
            (candidate_of services opts p.spec snapshot p.result) disk))
        refl
  finish-Outcome snapshot (refused e) disk judge = inl refl
  finish-Outcome snapshot panicked disk judge = inl refl

-- Whatever the services and the operating system answer, an update leaves the disk as it was, or it has written the
-- located target as `persist` does: then there was exactly one match, not at another revision than the expected
-- one; the candidate had no issues, and its path no conflict; something was changed; and it was not a dry run.
pub update-safe :
    {S : Scalars} (services : Services S) (opts : Options) (os : Answers)
    (types : Dict EntityTypeSpec) (snapshot : Snapshot S) (disk : Disk)
    → Outcome services opts os snapshot disk (execute services opts os types snapshot disk).1
unfolding execute
update-safe services opts os types snapshot disk = finish-Outcome services opts os snapshot _ disk (
    Ends-bind (IsLocated services opts os snapshot) (IsJudged services opts os snapshot)
      (prepared services opts types snapshot) _ (prepared-Ends services opts os types snapshot)
      (judged-Ends services opts os snapshot))
