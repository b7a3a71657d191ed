-- ===== src/Check/Entity/Conforms.antt =====
-- internal/application/commands/internal/entitycheck/entitycheck.go: a candidate has no issues exactly if it conforms
-- to the schema and to the workspace.
use spec_cli.Common.{
  ℕ, String, ◌≡◌, refl, sym, ◌∙◌, ap, Bool, true, false, not, Option, none, some, List, [], ◌∷◌,
  ◌++◌, ◌↔◌, arith, all, All, sort_by, insert_by,
}
use spec_cli.Common.{◌==◌, ◌&&◌, ◌||◌, string_eq, Bool-cases, inl, inr}
use spec_cli.Common.Text.{trim_space, str_lt}
use spec_cli.Common.Dict.{Dict, lookup, contains}
use spec_cli.Values.{Scalars, Value, find}
use spec_cli.Sections.{SectionContent, extract_sections}
use spec_cli.Ids.{parse_suffix}
use spec_cli.Write.{Issue, WorkspaceEntity}
use spec_cli.Update.Candidate.{Candidate}
use spec_cli.Check.Rules.{Evaluated, evaluated, eval_error, unless, evaluate_required}
use spec_cli.Check.Rules.Fits.{Fits, check_value-nil_iff}
use spec_cli.Check.Nil.{and_iff, unless-nil_iff, both-nil, map-nil_iff, sort_by-nil_iff, ◌⟶◌}
use spec_cli.Check.Entity.{
  CheckModel, Workspace, is_slug, is_own, has_conflict, holders, slug_holders, field_keys,
  build_context, builtin_keys, issue_less, rules_of, section_rules_of, builtin_issues,
  conflict_issues, key_issues, required_issues, field_issues, title_issues, section_issues, each,
  duplicate_issue, found_issues, check,
}

-- What is required is there, and what is there is right; the requirement itself has a value.
abbrev pub Meets : {A : Type 0} → Evaluated Bool → (A → Type 0) → Option A → Type 0
Meets (eval_error m) P o = ⊥
Meets (evaluated true) P none = ⊥
Meets (evaluated false) P none = Unit {0}
Meets (evaluated _) P (some a) = P a

each-nil_iff :
    {A : Type 0} (f : A → List Issue) (P : A → Type 0)
    → ((a : A) → (f a ≡ []) ↔ P a)
    → (xs : List A) → (each f xs ≡ []) ↔ All P xs
unfolding each
each-nil_iff f P step [] = (λ _. tt, λ _. refl)
each-nil_iff f P step (x ∷ xs) = both-nil (f x) (each f xs) (step x) (each-nil_iff f P step xs)

all-insert_by :
    (less : String → String → Bool) (p : String → Bool) (x : String) (xs : List String)
    → all p (insert_by less x xs) ≡ (p x && all p xs)
unfolding insert_by
all-insert_by less p x [] = refl
all-insert_by less p x (y ∷ ys) = grind (arith, all-insert_by less p x ys)

all-sort_by :
    (less : String → String → Bool) (p : String → Bool) (xs : List String)
    → all p (sort_by less xs) ≡ all p xs
unfolding sort_by
all-sort_by less p [] = refl
all-sort_by less p (x ∷ xs) =
    all-insert_by less p x (sort_by less xs) ∙ ap (λ b. p x && b) (all-sort_by less p xs)

same_bool : {a b : Bool} → a ≡ b → (a ≡ true) ↔ (b ≡ true)
same_bool h = (λ k. sym h ∙ k, λ k. h ∙ k)

key_issues-nil_iff :
    (allowed ks : List String) → (key_issues allowed ks ≡ []) ↔ (all (contains allowed) ks ≡ true)
unfolding key_issues
key_issues-nil_iff allowed [] = (λ _. refl, λ _. refl)
key_issues-nil_iff allowed (k ∷ ks) =
    both-nil (unless (contains allowed k) _) _ (unless-nil_iff (contains allowed k) _)
      (key_issues-nil_iff allowed ks)
    ⟶ (
      λ h. (and_iff (contains allowed k) (all (contains allowed) ks)).1 h,
      λ h. (and_iff (contains allowed k) (all (contains allowed) ks)).0 h,
    )

required_issues-nil_iff :
    {A : Type 0} (r : Evaluated Bool) (failed missing : Issue) (o : Option A)
    (judge : A → List Issue) (P : A → Type 0)
    → ((a : A) → (judge a ≡ []) ↔ P a)
    → (required_issues r failed missing o judge ≡ []) ↔ Meets r P o
required_issues-nil_iff (eval_error m) failed missing none judge P step = (λ h. cc, λ h. absurd h)
required_issues-nil_iff (eval_error m) failed missing (some a) judge P step =
    (λ h. cc, λ h. absurd h)
required_issues-nil_iff (evaluated true) failed missing none judge P step = (λ h. cc, λ h. absurd h)
required_issues-nil_iff (evaluated false) failed missing none judge P step = (λ _. tt, λ _. refl)
required_issues-nil_iff (evaluated true) failed missing (some a) judge P step = step a
required_issues-nil_iff (evaluated false) failed missing (some a) judge P step = step a

-- Every holder of the value is the document itself.
abbrev pub OnlyOwn : {S : Scalars} → String → List (WorkspaceEntity S) → Type 0
OnlyOwn own es = All (λ e. is_own own e ≡ true) es

has_conflict-OnlyOwn :
    {S : Scalars} (own : String) (es : List (WorkspaceEntity S))
    → (not (has_conflict own es) ≡ true) ↔ OnlyOwn own es
unfolding has_conflict
has_conflict-OnlyOwn own [] = (λ _. tt, λ _. refl)
has_conflict-OnlyOwn own (e ∷ es) = elim (Bool-cases (is_own own e)) [
  | inl h ↦ rw h (
      (λ k. (refl, (has_conflict-OnlyOwn own es).0 k), λ (_, k). (has_conflict-OnlyOwn own es).1 k))
  | inr h ↦ rw h ((λ k. cc, λ (k, _). cc))
]

module _ {S : Scalars} where
  -- No other document has the id, and none of the type the slug.
  abbrev pub IsUnique : Workspace S → Candidate S → Type 0
  IsUnique w c =
      OnlyOwn w.own_path (holders (lookup c.id w.entities_by_id))
      × OnlyOwn w.own_path (slug_holders (lookup c.type_name w.slugs_by_type) c.slug)

  conflict_issues-nil_iff :
      (w : Workspace S) (c : Candidate S) → (conflict_issues w c ≡ []) ↔ IsUnique w c
  unfolding conflict_issues
  conflict_issues-nil_iff w c =
      let by_id = holders (lookup c.id w.entities_by_id) in
      let by_slug = slug_holders (lookup c.type_name w.slugs_by_type) c.slug in
      both-nil (unless (not (has_conflict w.own_path by_id)) _)
        (unless (not (has_conflict w.own_path by_slug)) _)
        (unless-nil_iff (not (has_conflict w.own_path by_id)) _
          ⟶ has_conflict-OnlyOwn w.own_path by_id)
        (unless-nil_iff (not (has_conflict w.own_path by_slug)) _
          ⟶ has_conflict-OnlyOwn w.own_path by_slug)

-- A section has the title that the schema gives it, if it gives one.
abbrev pub Titled : String → SectionContent → Type 0
Titled title content = (trim_space title == "" || content.title == title) ≡ true

title_issues-nil_iff :
    (name title : String) (content : SectionContent)
    → (title_issues name title content ≡ []) ↔ Titled title content
unfolding title_issues
title_issues-nil_iff name title content =
    unless-nil_iff (trim_space title == "" || content.title == title) _

module _ {S : Scalars} {Expr Template : Type 0} (eval : Expr → Value S → Evaluated (Value S))
    (render : Template → Value S → Evaluated String) (is_date : String → Bool) where
  -- The builtin fields have their formats.
  abbrev pub BuiltinsRight : CheckModel S Expr Template → Candidate S → Type 0
  BuiltinsRight model c =
      (is_slug c.slug ≡ true)
      × (((n : ℕ) × (parse_suffix c.id model.id_prefix ≡ some n))
          × ((is_date c.created_date ≡ true) × (is_date c.updated_date ≡ true)))

  suffix-nil_iff :
      (o : Option ℕ) (i : Issue)
      → (elim o [ none ↦ i ∷ [] | some _ ↦ [] ] ≡ []) ↔ ((n : ℕ) × (o ≡ some n))
  suffix-nil_iff none i = (λ h. cc, λ (_, h). cc)
  suffix-nil_iff (some n) i = (λ _. (n, refl), λ _. refl)

  builtin_issues-nil_iff :
      (model : CheckModel S Expr Template) (c : Candidate S)
      → (builtin_issues eval render is_date model c ≡ []) ↔ BuiltinsRight model c
  unfolding builtin_issues
  builtin_issues-nil_iff model c =
      both-nil (unless (is_slug c.slug) _) _ (unless-nil_iff (is_slug c.slug) _) (
        both-nil _ _ (suffix-nil_iff (parse_suffix c.id model.id_prefix) _) (
          both-nil (unless (is_date c.created_date) _) (unless (is_date c.updated_date) _)
            (unless-nil_iff (is_date c.created_date) _)
            (unless-nil_iff (is_date c.updated_date) _)))

  -- The field is there if it is required, and fits its rules if it is there.
  abbrev pub FieldRight : CheckModel S Expr Template → Candidate S → String → Type 0
  FieldRight model c name =
      let rules = rules_of eval render is_date (lookup name model.fields) in
      let context = build_context c in
      Meets (evaluate_required (λ e. eval e context) (λ t. render t context) rules.requirement)
        (Fits (λ e. eval e context) (λ t. render t context) rules) (find name c.frontmatter)

  field_issues-nil_iff :
      (model : CheckModel S Expr Template) (c : Candidate S) (name : String)
      → (field_issues eval render is_date model c name ≡ []) ↔ FieldRight model c name
  unfolding field_issues
  field_issues-nil_iff model c name =
      let rules = rules_of eval render is_date (lookup name model.fields) in
      let context = build_context c in
      required_issues-nil_iff _ _ _ (find name c.frontmatter) _ _
        (check_value-nil_iff (λ e. eval e context) (λ t. render t context) rules)

  -- The section is there if it is required, and has its title if it is there.
  abbrev pub SectionRight :
      CheckModel S Expr Template → Candidate S → Dict SectionContent → String → Type 0
  SectionRight model c sections name =
      let rules = section_rules_of eval render is_date (lookup name model.sections) in
      let context = build_context c in
      Meets (evaluate_required (λ e. eval e context) (λ t. render t context) rules.requirement)
        (Titled rules.title) (lookup name sections)

  section_issues-nil_iff :
      (model : CheckModel S Expr Template) (c : Candidate S) (sections : Dict SectionContent)
      (name : String)
      → (section_issues eval render is_date model c sections name ≡ [])
        ↔ SectionRight model c sections name
  unfolding section_issues
  section_issues-nil_iff model c sections name =
      let rules = section_rules_of eval render is_date (lookup name model.sections) in
      required_issues-nil_iff _ _ _ (lookup name sections) _ _
        (title_issues-nil_iff name rules.title)

  -- What the schema and the workspace ask of a candidate: the fields it has, the fields and sections it needs.
  abbrev pub Conforms : CheckModel S Expr Template → Workspace S → Candidate S → Type 0
  Conforms model w c =
      BuiltinsRight model c
      × (IsUnique w c
          × ((all (contains (builtin_keys ++ model.field_order)) (field_keys c.frontmatter) ≡ true)
              × (All (FieldRight model c) model.field_order
                  × (((extract_sections c.body).1 ≡ [])
                      × All (SectionRight model c (extract_sections c.body).0)
                          model.section_order))))

  found_issues-nil_iff :
      (model : CheckModel S Expr Template) (w : Workspace S) (c : Candidate S)
      (path_issues ref_issues : List Issue)
      → (found_issues eval render is_date model w c path_issues ref_issues ≡ [])
        ↔ ((path_issues ≡ []) × ((ref_issues ≡ []) × Conforms model w c))
  unfolding found_issues
  found_issues-nil_iff model w c path_issues ref_issues =
      let sections = extract_sections c.body in
      let allowed = builtin_keys ++ model.field_order in
      both-nil path_issues _ (λ h. h, λ h. h)
        (both-nil ref_issues _ (λ h. h, λ h. h)
          (both-nil _ _ (builtin_issues-nil_iff model c) (
            both-nil _ _ (conflict_issues-nil_iff w c) (
              both-nil _ _
                (key_issues-nil_iff allowed (sort_by str_lt (field_keys c.frontmatter))
                  ⟶ same_bool (all-sort_by str_lt (contains allowed) (field_keys c.frontmatter)))
                (both-nil _ _ (each-nil_iff _ _ (field_issues-nil_iff model c) model.field_order) (
                  both-nil _ _ (map-nil_iff duplicate_issue sections.1) (
                    each-nil_iff _ _ (section_issues-nil_iff model c sections.0)
                      model.section_order)))))))

  -- A candidate has no issues exactly if its path and its references have none and it conforms to the schema and
  -- to the workspace.
  pub check-Conforms :
      (model : CheckModel S Expr Template) (w : Workspace S) (c : Candidate S)
      (path_issues ref_issues : List Issue)
      → (check eval render is_date model w c path_issues ref_issues ≡ [])
        ↔ ((path_issues ≡ []) × ((ref_issues ≡ []) × Conforms model w c))
  unfolding check
  check-Conforms model w c path_issues ref_issues =
      sort_by-nil_iff issue_less (found_issues eval render is_date model w c path_issues ref_issues)
      ⟶ found_issues-nil_iff model w c path_issues ref_issues
