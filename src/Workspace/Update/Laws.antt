-- ===== src/Workspace/Update/Laws.antt =====
-- internal/application/commands/update/internal/workspace/snapshot.go: which documents may be the target of an update.
use spec_cli.Common.{
  String, ◌≡◌, refl, sym, ◌∙◌, ap, Option, none, some, List, [], ◌∷◌, ◌++◌, Bool-cases, inl, inr,
}
use spec_cli.Common.{string_eq, if◌then◌else◌}
use spec_cli.Common.Text.{trim_space, str_lt}
use spec_cli.Common.{sort_by}
use spec_cli.Read.Execute.{done, ◌>>=◌}
use spec_cli.Values.{Scalars, Fields}
use spec_cli.Write.Values.{Read, contents, unreadable}
use spec_cli.Update.Preflight.{FileRead, file_contents, file_failed}
use spec_cli.Update.Execute.{TargetMatch}
use spec_cli.Update.Apply.Changes.{Ends, Ends-any, Ends-bind, Ends-map}
use spec_cli.Workspace.{
  Walk, walked, not_walked, markdown_files, scan_markdown_files, read_document, for_each, Identity,
  identity_of, placed,
}
use spec_cli.Workspace.Update.{
  Snapshot, Sources, matching, note_target, enter, enter_named, enter_parsed, enter_raw, enter_file,
  empty_snapshot, parse_with_normalized_dates, build_snapshot,
}

append_assoc {ℓ} : {A : Type ℓ} (xs ys zs : List A) → (xs ++ ys) ++ zs ≡ xs ++ (ys ++ zs)
append_assoc [] ys zs = refl
append_assoc (x ∷ xs) ys zs = ap (λ rest. x ∷ rest) (append_assoc xs ys zs)

append_nil {ℓ} : {A : Type ℓ} (xs : List A) → xs ++ [] ≡ xs
append_nil [] = refl
append_nil (x ∷ xs) = ap (λ rest. x ∷ rest) (append_nil xs)

module _ {S : Scalars} (sources : Sources S) (wanted : String) where
  abbrev pub target_in : String → FileRead → List TargetMatch
  target_in path (file_failed _) = []
  target_in path (file_contents raw) =
      if matching sources wanted raw then record { path_abs = path; raw = raw } ∷ [] else []

  -- The documents whose lenient id is the wanted one, at their clean paths.
  abbrev pub targets : List String → List TargetMatch
  targets [] = []
  targets (path ∷ paths) =
      target_in (sources.clean path) (sources.read_file (sources.clean path)) ++ targets paths

  -- The matches are those from before and the given ones.
  abbrev HasMore : List TargetMatch → List TargetMatch → Snapshot S → Type 0
  HasMore before more s = s.target_matches ≡ before ++ more

  note_target-matches :
      (path raw : String) (s : Snapshot S)
      → (note_target sources wanted path raw s).target_matches
        ≡ s.target_matches ++ target_in path (file_contents raw)
  unfolding note_target
  note_target-matches path raw s = elim (Bool-cases (matching sources wanted raw)) [
    | inl h ↦ rw h refl
    | inr h ↦ rw h (sym (append_nil s.target_matches))
  ]

  abbrev Keeps : Snapshot S → Snapshot S → Type 0
  Keeps s t = t.target_matches ≡ s.target_matches

  enter_named-Keeps :
      (path : String) (fields : Fields S) (who : Option Identity) (s : Snapshot S)
      → Ends (Keeps s) (enter_named sources path fields who s)
  unfolding enter_named enter
  enter_named-Keeps path fields none s = refl
  enter_named-Keeps path fields (some who) s =
      Ends-bind (λ _. Unit {0}) (Keeps s)
        (placed sources.dir path who fields (sources.relative s.workspace_path path))
        (λ e. done (enter sources e s)) (Ends-any _) λ e _. refl

  enter_parsed-Keeps :
      (path : String) (out : Read (Fields S × String)) (s : Snapshot S)
      → Ends (Keeps s) (enter_parsed sources path out s)
  unfolding enter_parsed
  enter_parsed-Keeps path (unreadable _) s = refl
  enter_parsed-Keeps path (contents (fields, body)) s =
      enter_named-Keeps path fields (identity_of fields) s

  enter_raw-HasMore :
      (path raw : String) (s : Snapshot S)
      → Ends
          (HasMore s.target_matches (target_in path (file_contents raw)))
          (enter_raw sources wanted path raw s)
  unfolding enter_raw
  enter_raw-HasMore path raw s =
      Ends-map (Keeps (note_target sources wanted path raw s)) _
        (λ t keeps. keeps ∙ note_target-matches path raw s)
        (enter_parsed sources path (parse_with_normalized_dates sources raw)
          (note_target sources wanted path raw s))
        (enter_parsed-Keeps path (parse_with_normalized_dates sources raw)
          (note_target sources wanted path raw s))

  read_then-HasMore :
      (path : String) (out : FileRead) (s : Snapshot S)
      → Ends
          (HasMore s.target_matches (target_in path out))
          (read_document out >>= λ raw. enter_raw sources wanted path raw s)
  unfolding read_document
  read_then-HasMore path (file_contents raw) s = enter_raw-HasMore path raw s
  read_then-HasMore path (file_failed _) s = tt

  enter_file-HasMore :
      (path : String) (s : Snapshot S)
      → Ends
          (HasMore s.target_matches
            (target_in (sources.clean path) (sources.read_file (sources.clean path))))
          (enter_file sources wanted path s)
  unfolding enter_file
  enter_file-HasMore path s =
      read_then-HasMore (sources.clean path) (sources.read_file (sources.clean path))
        (record s { existing_paths = sources.clean path ∷ s.existing_paths })

  for_each-HasMore :
      (paths : List String) (s : Snapshot S)
      → Ends
          (HasMore s.target_matches (targets paths))
          (for_each (enter_file sources wanted) paths s)
  unfolding for_each
  for_each-HasMore [] s = sym (append_nil s.target_matches)
  for_each-HasMore (path ∷ paths) s =
      let here = target_in (sources.clean path) (sources.read_file (sources.clean path)) in
      Ends-bind (HasMore s.target_matches here) (HasMore s.target_matches (here ++ targets paths))
        (enter_file sources wanted path s) (λ next. for_each (enter_file sources wanted) paths next)
        (enter_file-HasMore path s)
        λ next more.
          Ends-map (HasMore next.target_matches (targets paths)) _
            (λ t rest.
              rest
              ∙ ap (λ ms. ms ++ targets paths) more
              ∙ append_assoc s.target_matches here (targets paths))
            (for_each (enter_file sources wanted) paths next) (for_each-HasMore paths next)

-- The files that a walk shows.
abbrev pub shown : Walk → List String
shown (walked entries) = sort_by str_lt (markdown_files entries)
shown (not_walked _) = []

-- When the snapshot of an update is built, its target matches are just the Markdown files of the workspace whose id,
-- as the lenient search finds it, is the requested one, in the order of their paths.
pub build_snapshot-targets :
    {S : Scalars} (sources : Sources S) (workspace_path target_id : String)
    → Ends
        (λ s. s.target_matches ≡ targets sources (trim_space target_id) (shown sources.walk))
        (build_snapshot sources workspace_path target_id)
unfolding build_snapshot empty_snapshot
build_snapshot-targets sources workspace_path target_id = from_walk sources.walk
  where
    from_walk :
        (walk : Walk)
        → Ends
            (λ s. s.target_matches ≡ targets sources (trim_space target_id) (shown walk))
            (scan_markdown_files walk >>= λ files.
              for_each
                (enter_file sources (trim_space target_id))
                files
                (empty_snapshot sources workspace_path))
    from_walk (walked entries) =
        for_each-HasMore sources (trim_space target_id) (sort_by str_lt (markdown_files entries))
          (empty_snapshot sources workspace_path)
    from_walk (not_walked failure) = tt
