-- ===== src/Workspace/Add/Laws.antt =====
-- internal/application/commands/add/internal/workspace/snapshot.go: what the snapshot of add knows of the workspace.
use spec_cli.Common.{
  ℕ, String, ◌≡◌, refl, sym, ◌∙◌, ap, true, false, Option, none, some, List, [], ◌∷◌, ◌++◌, map,
  Bool-cases, inl, inr,
}
use spec_cli.Common.{◌==◌, string_eq, eq_true, eq_self, Option-cases}
use spec_cli.Common.Dict.{Dict, lookup, lookup-insert}
use spec_cli.Read.Execute.{Run}
use spec_cli.Values.{Scalars, Fields}
use spec_cli.Write.{WorkspaceEntity}
use spec_cli.Write.Values.{Read, contents, unreadable}
use spec_cli.Ids.{Issued, parse_suffix, larger, max_suffix, note_suffix}
use spec_cli.Update.Apply.Changes.{Ends, Ends-any, Ends-bind}
use spec_cli.Frontmatter.{parse_frontmatter}
use spec_cli.Workspace.{scan_markdown_files, read_document, for_each, Identity, identity_of, placed}
use spec_cli.Workspace.Index.{Indexes, add_to-Indexes, IndexesSlugs, add_slug-IndexesSlugs}
use spec_cli.Workspace.Add.{
  Snapshot, Sources, note_number, note_type, enter, enter_named, enter_parsed, enter_file,
  empty_snapshot, build_snapshot,
}

-- The result of a loop has a property that every round keeps.
for_each-Ends {ℓ} :
    {A : Type ℓ} (P : A → Type 0) (step : String → A → Run A)
    → ((path : String) (a : A) → P a → Ends P (step path a))
    → (paths : List String) (a : A) → P a
    → Ends P (for_each step paths a)
unfolding for_each
for_each-Ends P step keeps [] a p = p
for_each-Ends P step keeps (path ∷ paths) a p =
    Ends-bind P P (step path a) _ (keeps path a p) λ next q. for_each-Ends P step keeps paths next q

abbrev noted : Option ℕ → Option ℕ → Option ℕ
noted current none = current
noted current (some n) = some (larger current n)

lookup-note_number-same :
    (t : String) (p : Option ℕ) (d : Dict ℕ) → lookup t (note_number t p d) ≡ noted (lookup t d) p
unfolding note_number
lookup-note_number-same t none d = refl
lookup-note_number-same t (some n) d = rw lookup-insert (rw (eq_self t) refl)

lookup-note_number-other :
    (t u : String) (p : Option ℕ) (d : Dict ℕ)
    → (u == t) ≡ false
    → lookup t (note_number u p d) ≡ lookup t d
unfolding note_number
lookup-note_number-other t u none d h = refl
lookup-note_number-other t u (some n) d h = rw lookup-insert (rw h refl)

lookup-note_type-other :
    (t u id : String) (o : Option String) (d : Dict ℕ)
    → (u == t) ≡ false
    → lookup t (note_type o u id d) ≡ lookup t d
unfolding note_type
lookup-note_type-other t u id none d h = refl
lookup-note_type-other t u id (some prefix) d h =
    lookup-note_number-other t u (parse_suffix id prefix) d h

note_suffix-same :
    (t prefix : String) (current : Option ℕ) (i : Issued)
    → (i.type_name == t) ≡ true
    → note_suffix t prefix current i ≡ noted current (parse_suffix i.id prefix)
unfolding note_suffix
note_suffix-same t prefix current i h =
    rw h (elim (Option-cases (parse_suffix i.id prefix)) [
      | inl k ↦ rw k refl
      | inr (n, k) ↦ rw k refl
    ])

note_suffix-other :
    (t prefix : String) (current : Option ℕ) (i : Issued)
    → (i.type_name == t) ≡ false
    → note_suffix t prefix current i ≡ current
unfolding note_suffix
note_suffix-other t prefix current i h = rw h refl

lookup-note_type-same :
    (t prefix id : String) (o : Option String) (d : Dict ℕ)
    → o ≡ some prefix
    → lookup t (note_type o t id d) ≡ noted (lookup t d) (parse_suffix id prefix)
unfolding note_type
lookup-note_type-same t prefix id o d h =
    rw h (lookup-note_number-same t (parse_suffix id prefix) d)

module _ {S : Scalars} where
  abbrev pub issued : WorkspaceEntity S → Issued
  issued e = record { type_name = e.type_name; id = e.id }

  -- The number of every known type is the largest one of its entities.
  abbrev pub Counts : Dict String → List (WorkspaceEntity S) → Dict ℕ → Type 0
  Counts prefixes es d =
      (t prefix : String)
      → lookup t prefixes ≡ some prefix
      → lookup t d ≡ max_suffix t prefix none (map issued es)

  max_suffix-snoc :
      (t prefix : String) (o : Option ℕ) (es : List (WorkspaceEntity S)) (e : WorkspaceEntity S)
      → max_suffix t prefix o (map issued (es ++ e ∷ []))
        ≡ note_suffix t prefix (max_suffix t prefix o (map issued es)) (issued e)
  unfolding max_suffix
  max_suffix-snoc t prefix o [] e = refl
  max_suffix-snoc t prefix o (x ∷ es) e =
      max_suffix-snoc t prefix (note_suffix t prefix o (issued x)) es e

  enter-Counts :
      (prefixes : Dict String) (e : WorkspaceEntity S) (es : List (WorkspaceEntity S)) (d : Dict ℕ)
      → Counts prefixes es d
      → Counts prefixes (es ++ e ∷ []) (note_type (lookup e.type_name prefixes) e.type_name e.id d)
  enter-Counts prefixes e es d counts t prefix known = elim (Bool-cases (e.type_name == t)) [
    | inl h ↦
        let same = eq_true e.type_name t h in
        ap (λ u. lookup t (note_type (lookup u prefixes) u e.id d)) same
        ∙ lookup-note_type-same t prefix e.id (lookup t prefixes) d known
        ∙ ap (λ c. noted c (parse_suffix e.id prefix)) (counts t prefix known)
        ∙ sym (note_suffix-same t prefix (max_suffix t prefix none (map issued es)) (issued e) h)
        ∙ sym (max_suffix-snoc t prefix none es e)
    | inr h ↦
        lookup-note_type-other t e.type_name e.id (lookup e.type_name prefixes) d h
        ∙ counts t prefix known
        ∙ sym (note_suffix-other t prefix (max_suffix t prefix none (map issued es)) (issued e) h)
        ∙ sym (max_suffix-snoc t prefix none es e)
  ]

  -- The indexes and the numbers are those of the entities.
  abbrev pub IsIndexed : Dict String → Snapshot S → Type 0
  IsIndexed prefixes s =
      Indexes (λ e. e.id) s.entities s.entities_by_id
      × IndexesSlugs s.entities s.slugs_by_type
      × Counts prefixes s.entities s.max_suffix_by_type

  module _ (sources : Sources S) (prefixes : Dict String) where
    enter-IsIndexed :
        (e : WorkspaceEntity S) (s : Snapshot S)
        → IsIndexed prefixes s
        → IsIndexed prefixes (enter sources prefixes e s)
    unfolding enter
    enter-IsIndexed e s (by_id, by_slug, counts) = (
      add_to-Indexes (λ x. x.id) e s.entities s.entities_by_id by_id,
      add_slug-IndexesSlugs e s.entities s.slugs_by_type by_slug,
      enter-Counts prefixes e s.entities s.max_suffix_by_type counts,
    )

    enter_named-IsIndexed :
        (path : String) (fields : Fields S) (who : Option Identity) (s : Snapshot S)
        → IsIndexed prefixes s
        → Ends (IsIndexed prefixes) (enter_named sources prefixes path fields who s)
    unfolding enter_named
    enter_named-IsIndexed path fields none s p = p
    enter_named-IsIndexed path fields (some who) s p =
        Ends-bind (λ _. Unit {0}) (IsIndexed prefixes)
          (placed sources.dir path who fields (sources.relative s.workspace_path path)) _
          (Ends-any _) λ e _. enter-IsIndexed e s p

    enter_parsed-IsIndexed :
        (path : String) (out : Read (Fields S × String)) (s : Snapshot S)
        → IsIndexed prefixes s
        → Ends (IsIndexed prefixes) (enter_parsed sources prefixes path out s)
    unfolding enter_parsed
    enter_parsed-IsIndexed path (unreadable _) s p = p
    enter_parsed-IsIndexed path (contents (fields, body)) s p =
        enter_named-IsIndexed path fields (identity_of fields) s p

    enter_file-IsIndexed :
        (path : String) (s : Snapshot S)
        → IsIndexed prefixes s
        → Ends (IsIndexed prefixes) (enter_file sources prefixes path s)
    unfolding enter_file
    enter_file-IsIndexed path s p =
        Ends-bind (λ _. Unit {0}) (IsIndexed prefixes) (read_document (sources.read_file path)) _
          (Ends-any _)
          λ raw _.
            enter_parsed-IsIndexed path (parse_frontmatter sources.unmarshal sources.decode raw) _ p

    -- When the snapshot of add is built, its index by id and its index by type and slug hold just the entities with
    -- that id, or with that type and slug, in their order, and the number of each known type is the largest one
    -- that an entity of the type has in its id.
    pub build_snapshot-IsIndexed :
        (workspace_path : String)
        → Ends (IsIndexed prefixes) (build_snapshot sources prefixes workspace_path)
    unfolding build_snapshot empty_snapshot max_suffix
    build_snapshot-IsIndexed workspace_path =
        Ends-bind (λ _. Unit {0}) (IsIndexed prefixes) (scan_markdown_files sources.walk) _
          (Ends-any _)
          λ files _.
            for_each-Ends (IsIndexed prefixes) (enter_file sources prefixes) enter_file-IsIndexed
              files (empty_snapshot sources prefixes workspace_path)
              (λ _. refl, λ _ _. refl, λ _ _ _. refl)
