-- ===== src/Update/Execute/Frame.antt =====
-- internal/application/commands/update/internal/engine/execute.go: the fields of the candidate that an update
-- does not concern.
use spec_cli.Common.{◌≡◌, refl, ◌∙◌, ap, String, false, any, inl, inr, Bool-cases}
use spec_cli.Common.{◌==◌, string_eq}
use spec_cli.Common.Dict.{lookup}
use spec_cli.Values.{Scalars, str, Fields, find}
use spec_cli.Values.Entries.{find-put}
use spec_cli.Read.Execute.{done}
use spec_cli.Write.{EntityTypeSpec}
use spec_cli.Update.Preflight.{Options}
use spec_cli.Update.Apply.{WriteResult, apply_writes}
use spec_cli.Update.Apply.Frame.{names_field, apply_writes-untouched}
use spec_cli.Update.Candidate.{Candidate, build_candidate, hydrate, resolve_refs}
use spec_cli.Update.Candidate.Frame.{
  hydrate-frontmatter, resolve_refs-frontmatter, build_candidate-frontmatter,
}
use spec_cli.Update.Execute.{Services, Snapshot, stamped, with_path, candidate_of}

module _ {S : Scalars} (services : Services S) (opts : Options) where
  with_path-frontmatter :
      (snapshot : Snapshot S) (path : String) (c : Candidate S)
      → (with_path services opts snapshot path c).frontmatter ≡ c.frontmatter
  unfolding with_path
  with_path-frontmatter snapshot path c = elim (Bool-cases (path == "")) [
    | inl h ↦ rw h refl
    | inr h ↦ rw h refl
  ]

  candidate_of-frontmatter :
      (spec : EntityTypeSpec) (snapshot : Snapshot S) (r : WriteResult S)
      → (candidate_of services opts spec snapshot r).frontmatter ≡ stamped services opts r
  unfolding candidate_of
  candidate_of-frontmatter spec snapshot r =
      let built = build_candidate (stamped services opts r) r.body in
      let c = resolve_refs spec snapshot.entities_by_id (hydrate spec built) in
      with_path-frontmatter snapshot (services.evaluate_path c).0 c
      ∙ resolve_refs-frontmatter spec snapshot.entities_by_id (hydrate spec built)
      ∙ hydrate-frontmatter spec built
      ∙ build_candidate-frontmatter (stamped services opts r) r.body

  stamped-untouched :
      (r : WriteResult S) (f : String)
      → ("updatedDate" == f) ≡ false
      → find f (stamped services opts r) ≡ find f r.frontmatter
  unfolding stamped
  stamped-untouched r f n = elim (Bool-cases r.user_changed) [
    | inl h ↦ rw h (find-put f "updatedDate" (str services.today) r.frontmatter ∙ rw n refl)
    | inr h ↦ rw h refl
  ]

-- After the write operations are applied, the date is stamped and the candidate is built, a field of the frontmatter
-- that no operation names, other than updatedDate, is what it was before the update.
pub candidate_of-untouched :
    {S : Scalars} (services : Services S) (opts : Options) (spec : EntityTypeSpec)
    (snapshot : Snapshot S) (frontmatter : Fields S) (body f : String) (r : WriteResult S)
    → any (λ op. names_field f (lookup op.path spec.allow_write_paths)) opts.operations ≡ false
    → ("updatedDate" == f) ≡ false
    → apply_writes services.hash services.read_file services.parse_yaml services.read_body
        services.stdin opts spec frontmatter body
      ≡ done r
    → find f (candidate_of services opts spec snapshot r).frontmatter ≡ find f frontmatter
candidate_of-untouched services opts spec snapshot frontmatter body f r n d h =
    ap (find f) (candidate_of-frontmatter services opts spec snapshot r)
    ∙ stamped-untouched services opts r f d
    ∙ apply_writes-untouched services.hash services.read_file services.parse_yaml services.read_body
        services.stdin opts spec frontmatter body f r n h
