-- ===== src/Add/Execute/Safe.antt =====
-- internal/application/commands/add/internal/engine/execute.go: when add changes the disk.
use spec_cli.Common.{
  String, ◌≡◌, refl, sym, ◌∙◌, ap, subst, Bool, true, false, not, Option, none, some, List, [], ◌∷◌,
  ◌⊎◌, inl, inr, All, Option-cases, select, arith,
}
use spec_cli.Common.{◌==◌, ◌&&◌, string_eq, if◌then◌else◌, eq_self}
use spec_cli.Common.Dict.{Dict, lookup}
use spec_cli.Errors.{AppError, Result, ok, fail}
use spec_cli.Read.Execute.{Run, done, refused, panicked}
use spec_cli.Values.{Scalars}
use spec_cli.Write.{EntityTypeSpec, WorkspaceEntity, Issue}
use spec_cli.Write.Values.{Read, contents, unreadable}
use spec_cli.Delete.{Disk}
use spec_cli.Update.Storage.{Answers, write_new, is_new_path_conflict}
use spec_cli.Update.Candidate.{Candidate, resolve_refs}
use spec_cli.Update.Apply.Changes.{Ends, Ends-any, Ends-bind}
use spec_cli.Refs.Resolve.{resolve}
use spec_cli.Check.Entity.{CheckModel, slug_holders}
use spec_cli.Check.Entity.Conforms.{Conforms, OnlyOwn, check-Conforms}
use spec_cli.Frontmatter.Serialize.{serialize}
use spec_cli.Workspace.{indexed, of_type}
use spec_cli.Workspace.Add.{Snapshot, Sources, build_snapshot}
use spec_cli.Workspace.Add.Laws.{IsIndexed, build_snapshot-IsIndexed}
use mathlib.Core.Bool.{cond}
use spec_cli.Add
use spec_cli.Add.{Options, apply_writes}
use spec_cli.Add.Execute.{
  Services, Added, no_issues, unplaced, placed_at, candidate_of, workspace_of, issues_of, free_path,
  serialized, written_out, judged, placed, prepared, stored, write_or_not, finish, execute,
}

refused_or :
    (b : Bool) (e : AppError) (u : Unit {0})
    → Ends (λ _. b ≡ false) (if b then refused e else done u)
refused_or true e u = tt
refused_or false e u = refl

no_issues-Ends : (is : List Issue) → Ends (λ _. is ≡ []) (no_issues is)
unfolding no_issues
no_issues-Ends [] = refl
no_issues-Ends (i ∷ is) = tt

module _ {S : Scalars} where
  -- Nothing is its own place, so that no entity is there.
  none_own : (es : List (WorkspaceEntity S)) → OnlyOwn "" es → es ≡ []
  none_own [] h = refl
  none_own (e ∷ es) (h, _) = absurd (ground (arith, eq_self {A = String} ""))

  slug_holders-indexed :
      (o : Option (Dict (List (WorkspaceEntity S)))) (slug : String)
      → slug_holders o slug ≡ indexed (lookup slug (of_type o))
  unfolding lookup
  slug_holders-indexed none slug = refl
  slug_holders-indexed (some d) slug = elim (Option-cases (lookup slug d)) [
    | inl h ↦ rw h refl
    | inr (es, h) ↦ rw h refl
  ]

  not_first :
      (b : Bool) (e : WorkspaceEntity S) (rest : List (WorkspaceEntity S))
      → cond b (e ∷ rest) rest ≡ []
      → (b ≡ false) × (rest ≡ [])
  not_first true e rest h = cc
  not_first false e rest h = (refl, h)

  none_selected :
      (p : WorkspaceEntity S → Bool) (es : List (WorkspaceEntity S))
      → select p es ≡ []
      → All (λ e. p e ≡ false) es
  none_selected p [] h = tt
  none_selected p (e ∷ es) h =
      let (first, rest) = not_first (p e) e (select p es) h in (first, none_selected p es rest)

drop_true : (a b : Bool) → a ≡ false → (not a && b) ≡ false → b ≡ false
drop_true true b h k = cc
drop_true false b h k = k

empty_path_free :
    (clean : String → String) (stat : String → Bool) (existing : List String)
    → is_new_path_conflict clean stat "" existing ≡ false
unfolding is_new_path_conflict string_eq
empty_path_free clean stat existing = refl

module _ {S : Scalars} {Expr Template : Type 0} (services : Services S Expr Template)
    (opts : Options) (os : Answers) (spec : EntityTypeSpec) (model : CheckModel S Expr Template)
    (snapshot : Snapshot S) where
  abbrev pub in_conflict : String → Bool
  in_conflict path = is_new_path_conflict services.clean services.stat path snapshot.existing_paths

  -- What is known of the writes and the text of a run that got past the checks.
  abbrev IsPrepared : Add.WriteResult S × String → Type 0
  IsPrepared (r, payload) =
      (in_conflict (candidate_of services opts spec model snapshot r).path_abs ≡ false)
      × (issues_of services opts spec model snapshot r ≡ [])
      × (serialize services.is_date services.marshal services.windows spec
            (candidate_of services opts spec model snapshot r)
          ≡ contents payload)

  free_path-Ends :
      (c : Candidate S)
      → Ends
          (λ _. (not (c.path_rel == "") && in_conflict c.path_abs) ≡ false)
          (free_path services opts snapshot c)
  unfolding free_path
  free_path-Ends c = refused_or _ _ tt

  -- Without a path there is nothing to be in conflict with.
  either_free :
      (b : Bool) (c d : Candidate S)
      → c.path_abs ≡ ""
      → (d.path_rel == "") ≡ b
      → (not ((if b then c else d).path_rel == "") && in_conflict (if b then c else d).path_abs)
        ≡ false
      → in_conflict (if b then c else d).path_abs ≡ false
  either_free true c d h k free =
      ap in_conflict h ∙ empty_path_free services.clean services.stat snapshot.existing_paths
  either_free false c d h k free = drop_true (d.path_rel == "") (in_conflict d.path_abs) k free

  candidate_of-free :
      (r : Add.WriteResult S)
      → (not ((candidate_of services opts spec model snapshot r).path_rel == "")
          && in_conflict (candidate_of services opts spec model snapshot r).path_abs)
        ≡ false
      → in_conflict (candidate_of services opts spec model snapshot r).path_abs ≡ false
  unfolding candidate_of placed_at unplaced resolve_refs
  candidate_of-free r free =
      let c = unplaced services opts spec model snapshot r in
      let path = (services.evaluate_path c).0 in
      let d = record c { path_rel = path; path_abs = services.join snapshot.workspace_path path } in
      either_free (path == "") c d refl refl free

  serialized-Ends :
      (out : Read String) → Ends (λ payload. out ≡ contents payload) (serialized services opts out)
  unfolding serialized
  serialized-Ends (contents payload) = refl
  serialized-Ends (unreadable reason) = tt

  written_out-Ends :
      (r : Add.WriteResult S)
      → in_conflict (candidate_of services opts spec model snapshot r).path_abs ≡ false
      → issues_of services opts spec model snapshot r ≡ []
      → Ends IsPrepared (written_out services opts spec model snapshot r)
  unfolding written_out
  written_out-Ends r free fine =
      let text =
        serialize services.is_date services.marshal services.windows spec
          (candidate_of services opts spec model snapshot r) in
      Ends-bind (λ payload. text ≡ contents payload) IsPrepared (serialized services opts text)
        (λ payload. done (r, payload)) (serialized-Ends text) λ payload same. (free, fine, same)

  judged-Ends :
      (r : Add.WriteResult S)
      → in_conflict (candidate_of services opts spec model snapshot r).path_abs ≡ false
      → Ends IsPrepared (judged services opts spec model snapshot r)
  unfolding judged
  judged-Ends r free =
      Ends-bind (λ _. issues_of services opts spec model snapshot r ≡ []) IsPrepared
        (no_issues (issues_of services opts spec model snapshot r))
        (λ _. written_out services opts spec model snapshot r)
        (no_issues-Ends (issues_of services opts spec model snapshot r))
        λ _ fine. written_out-Ends r free fine

  placed-Ends :
      (r : Add.WriteResult S) → Ends IsPrepared (placed services opts spec model snapshot r)
  unfolding placed
  placed-Ends r =
      let c = candidate_of services opts spec model snapshot r in
      Ends-bind (λ _. (not (c.path_rel == "") && in_conflict c.path_abs) ≡ false) IsPrepared
        (free_path services opts snapshot c) (λ _. judged services opts spec model snapshot r)
        (free_path-Ends c) λ _ free. judged-Ends r (candidate_of-free r free)

  prepared-Ends : Ends IsPrepared (prepared services opts spec model snapshot)
  unfolding prepared
  prepared-Ends =
      Ends-bind (λ _. Unit {0}) IsPrepared
        (apply_writes services.read_file services.parse_yaml services.read_body services.stdin opts
          spec)
        (λ r. placed services opts spec model snapshot r) (Ends-any _) λ r _. placed-Ends r

  -- The disk is as it was, or the text of a candidate was written, as `write_new` does it, to a path without a
  -- conflict, for a run that was not dry; the candidate conforms, and no entity has its id, or its type and slug.
  abbrev pub Outcome : Disk → Disk → Type 0
  Outcome disk after =
      (after ≡ disk)
      ⊎ ((r : Add.WriteResult S) × (payload : String) × (opts.dry_run ≡ false)
          × (((candidate_of services opts spec model snapshot r).path_abs == "") ≡ false)
          × (in_conflict (candidate_of services opts spec model snapshot r).path_abs ≡ false)
          × Conforms services.eval services.render services.is_date model
              (workspace_of services opts snapshot)
              (candidate_of services opts spec model snapshot r)
          × All (λ e. (e.id == (candidate_of services opts spec model snapshot r).id) ≡ false)
              snapshot.entities
          × All
              (λ e.
                (e.type_name == (candidate_of services opts spec model snapshot r).type_name
                  && e.slug == (candidate_of services opts spec model snapshot r).slug)
                ≡ false)
              snapshot.entities
          × (serialize services.is_date services.marshal services.windows spec
                (candidate_of services opts spec model snapshot r)
              ≡ contents payload)
          × (after
              ≡ (write_new os (candidate_of services opts spec model snapshot r).path_abs payload
                  disk).1))

  module _ (indexed_by : Dict String) (knows : IsIndexed indexed_by snapshot) where
    -- Nothing has the id or the slug of a candidate without issues.
    Conforms-new :
        (c : Candidate S)
        → Conforms services.eval services.render services.is_date model
            (workspace_of services opts snapshot)
            c
        → All (λ e. (e.id == c.id) ≡ false) snapshot.entities
          × All (λ e. (e.type_name == c.type_name && e.slug == c.slug) ≡ false) snapshot.entities
    Conforms-new c (_, ((unique_id, unique_slug), _)) =
        let (by_id, by_slug, _) = knows in
        (
          none_selected _ snapshot.entities (sym (by_id c.id) ∙ none_own _ unique_id),
          none_selected _ snapshot.entities (
              sym (by_slug c.type_name c.slug)
              ∙ none_own _ (
                  subst (OnlyOwn "")
                    (slug_holders-indexed (lookup c.type_name snapshot.slugs_by_type) c.slug)
                    unique_slug)),
        )

    conforming :
        (r : Add.WriteResult S)
        → issues_of services opts spec model snapshot r ≡ []
        → Conforms services.eval services.render services.is_date model
            (workspace_of services opts snapshot)
            (candidate_of services opts spec model snapshot r)
    unfolding issues_of
    conforming r fine =
        let c = unplaced services opts spec model snapshot r in
        let known =
          check-Conforms services.eval services.render services.is_date model
            (workspace_of services opts snapshot) (candidate_of services opts spec model snapshot r)
            (services.evaluate_path c).1
            (resolve snapshot.entities_by_id spec c.frontmatter).issues in
        (known.0 fine).1.1

    stored-disk :
        (c : Candidate S) (payload : String) (out : Result (Unit {0}) × Disk)
        → (stored services opts c payload out).1 ≡ out.1
    unfolding stored
    stored-disk c payload (ok _, disk) = refl
    stored-disk c payload (fail _, disk) = refl

    if_written :
        (b : Bool) (disk : Disk) (one other : Run (Added S) × Disk)
        → one.1 ≡ disk
        → (b ≡ false → Outcome disk other.1)
        → Outcome disk (if b then one else other).1
    if_written true disk one other same step = inl same
    if_written false disk one other same step = step refl

    write_or_not-Outcome :
        (dry : Bool) (r : Add.WriteResult S) (payload : String) (disk : Disk)
        → opts.dry_run ≡ dry
        → IsPrepared (r, payload)
        → Outcome disk
            (write_or_not services opts dry os
              (candidate_of services opts spec model snapshot r)
              payload
              disk).1
    unfolding write_or_not
    write_or_not-Outcome true r payload disk d p = inl refl
    write_or_not-Outcome false r payload disk d (free, fine, same) =
        let c = candidate_of services opts spec model snapshot r in
        let conforms = conforming r fine in
        if_written (c.path_abs == "") disk _ _ refl λ placed. inr (
          r,
          payload,
          d,
          placed,
          free,
          conforms,
          (Conforms-new c conforms).0,
          (Conforms-new c conforms).1,
          same,
          stored-disk c payload (write_new os c.path_abs payload disk),
        )

    finish-Outcome :
        (out : Run (Add.WriteResult S × String)) (disk : Disk)
        → Ends IsPrepared out
        → Outcome disk (finish services opts os spec model snapshot out disk).1
    unfolding finish
    finish-Outcome (refused e) disk p = inl refl
    finish-Outcome panicked disk p = inl refl
    finish-Outcome (done (r, payload)) disk p =
        write_or_not-Outcome opts.dry_run r payload disk refl p

-- Whatever the services and the operating system answer, add leaves the disk as it was, or it has written the text of
-- a candidate to a path without a conflict, and was not a dry run. If the snapshot was built from the workspace, the
-- candidate then conforms to the schema, and no entity of the workspace has its id, or its type and slug.
pub add-safe :
    {S : Scalars} {Expr Template : Type 0} (services : Services S Expr Template) (opts : Options)
    (os : Answers) (spec : EntityTypeSpec) (model : CheckModel S Expr Template)
    (sources : Sources S) (prefixes : Dict String) (workspace_path : String) (snapshot : Snapshot S)
    (disk : Disk)
    → build_snapshot sources prefixes workspace_path ≡ done snapshot
    → Outcome services opts os spec model snapshot disk
        (execute services opts os spec model snapshot disk).1
unfolding execute
add-safe services opts os spec model sources prefixes workspace_path snapshot disk built =
    finish-Outcome services opts os spec model snapshot prefixes
      (subst (Ends (IsIndexed prefixes)) built
        (build_snapshot-IsIndexed sources prefixes workspace_path))
      (prepared services opts spec model snapshot) disk
      (prepared-Ends services opts os spec model snapshot)
