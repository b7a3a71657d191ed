-- ===== src/Check/Entity.antt =====
-- internal/application/commands/internal/entitycheck/entitycheck.go: `Check`, for a candidate that add or update is
-- about to write; and `BuildContext` of schemarules/rules.go. Parsing a date is a parameter.
pub mod Conforms
use spec_cli.Common.{
  ℕ, String, ◌<>◌, Bool, true, false, not, Option, none, some, List, [], ◌∷◌, ◌++◌, all, map,
  select, sort_by,
}
use spec_cli.Common.{◌==◌, ◌&&◌, ◌||◌, string_eq, if◌then◌else◌, leb}
use Prim.Native.Char.{code}
use Prim.Native.String.{[] as empty, ◌∷◌ as cons_char}
use spec_cli.Common.Text.{trim_space, split_on, str_lt}
use spec_cli.Common.Dict.{Dict, lookup, contains}
use spec_cli.Values.{
  Scalars, Value, null, bool, num, time, str, list, object, Items, nil, cons, Fields, end, field,
  find,
}
use spec_cli.Values.Entries.{put}
use spec_cli.Sections.{SectionContent, extract_sections}
use spec_cli.Ids.{parse_suffix}
use spec_cli.Pathcalc.{path_or_default}
use spec_cli.Write.{Issue, WorkspaceEntity, ResolvedRef}
use spec_cli.Update.Candidate.{Candidate}
use spec_cli.Check.Rules.{
  Evaluated, evaluated, eval_error, Requirement, FieldRules, issue, unless, evaluate_required,
  check_value,
}

-- `SectionSpec`
pub record SectionRules (Expr : Type 0) : Type 0 where
  pub title : String
  pub requirement : Requirement Expr

-- `EntityWriteModel`, with the fields that the checks read.
pub record CheckModel (S : Scalars) (Expr Template : Type 0) : Type 0 where
  pub id_prefix : String
  pub fields : Dict (FieldRules S Expr Template)
  pub field_order : List String
  pub sections : Dict (SectionRules Expr)
  pub section_order : List String

-- `Workspace`
pub record Workspace (S : Scalars) : Type 0 where
  pub entities_by_id : Dict (List (WorkspaceEntity S))
  pub slugs_by_type : Dict (Dict (List (WorkspaceEntity S)))
  pub own_path : String

-- `[a-z0-9]`
abbrev pub slug_char : ℕ → Bool
slug_char c = (leb b'a' c && leb c b'z') || (leb b'0' c && leb c b'9')

abbrev pub slug_chars : String → Bool
slug_chars empty = true
slug_chars (cons_char c s) = slug_char (code c) && slug_chars s

-- `slugPattern`: parts of such characters, none of them empty, with dashes between them.
unfoldable pub is_slug : String → Bool
unfolding split_on string_eq
is_slug s = all (λ part. not (part == "") && slug_chars part) (split_on b'-' "" s)

module _ {S : Scalars} where
  abbrev pub is_own : String → WorkspaceEntity S → Bool
  is_own own e = not (own == "") && e.path_abs == own

  -- `hasConflict`
  unfoldable pub has_conflict : String → List (WorkspaceEntity S) → Bool
  unfolding string_eq
  has_conflict own [] = false
  has_conflict own (e ∷ es) = let rest = has_conflict own es in if is_own own e then rest else true

  abbrev pub holders : Option (List (WorkspaceEntity S)) → List (WorkspaceEntity S)
  holders none = []
  holders (some es) = es

  abbrev pub slug_holders :
      Option (Dict (List (WorkspaceEntity S))) → String → List (WorkspaceEntity S)
  slug_holders none slug = []
  slug_holders (some by_slug) slug = holders (lookup slug by_slug)

  abbrev pub field_keys : Fields S → List String
  field_keys end = []
  field_keys (field k _ fs) = k ∷ field_keys fs

  ref_object : ResolvedRef S → Value S
  ref_object r = object (
      field "id" (str r.id) (
        field "type" (str r.type_name)
          (field "slug" (str r.slug) (field "dirPath" (str r.dir_path) end))))

  ref_objects : List (ResolvedRef S) → Items S
  unfolding ref_object
  ref_objects [] = nil
  ref_objects (r ∷ rs) = cons (ref_object r) (ref_objects rs)

  unknown_refs : Dict String → Fields S → Fields S
  unfolding put
  unknown_refs [] fs = fs
  unknown_refs ((k, _) ∷ d) fs = unknown_refs d (put k null fs)

  known_refs : Dict (ResolvedRef S) → Fields S → Fields S
  unfolding put ref_object
  known_refs [] fs = fs
  known_refs ((k, r) ∷ d) fs = known_refs d (put k (ref_object r) fs)

  known_arrays : Dict (List (ResolvedRef S)) → Fields S → Fields S
  unfolding put ref_objects
  known_arrays [] fs = fs
  known_arrays ((k, rs) ∷ d) fs = known_arrays d (put k (list (ref_objects rs)) fs)

  -- `BuildContext`
  unfoldable pub build_context : Candidate S → Value S
  unfolding unknown_refs known_refs known_arrays
  build_context c = object (
      field "type" (str c.type_name) (
        field "id" (str c.id) (
          field "slug" (str c.slug) (
            field "createdDate" (str c.created_date) (
              field "updatedDate" (str c.updated_date) (
                field "meta" (object c.meta) (
                  field "refs"
                    (object
                      (known_arrays c.ref_arrays (known_refs c.refs (unknown_refs c.ref_ids end))))
                    end)))))))

abbrev pub builtin_keys : List String
builtin_keys = "type" ∷ "id" ∷ "slug" ∷ "createdDate" ∷ "updatedDate" ∷ []

-- The order of the issues: code, field, message.
unfoldable pub issue_less : Issue → Issue → Bool
unfolding str_lt
issue_less a b =
    if not (a.code == b.code)
    then str_lt a.code b.code
    else if not (a.field == b.field)
    then str_lt a.field b.field
    else str_lt a.message b.message

module _ {S : Scalars} where
  -- The uniqueness of the id and, in its type, of the slug.
  unfoldable pub conflict_issues : Workspace S → Candidate S → List Issue
  unfolding has_conflict lookup
  conflict_issues w c =
      unless (not (has_conflict w.own_path (holders (lookup c.id w.entities_by_id))))
        (issue "global.id_duplicate" ("id '" <> c.id <> "' is duplicated") "11.1" "frontmatter.id")
      ++ unless
          (not (has_conflict w.own_path (slug_holders (lookup c.type_name w.slugs_by_type) c.slug)))
          (issue "global.slug_duplicate_by_type"
            ("slug '" <> c.slug <> "' is duplicated for type '" <> c.type_name <> "'") "11.2"
            "frontmatter.slug")

-- The keys that the schema does not have, in their order.
unfoldable pub key_issues : List String → List String → List Issue
key_issues allowed [] = []
key_issues allowed (k ∷ ks) =
    unless (contains allowed k) (
      issue "frontmatter.field_not_allowed" ("field '" <> k <> "' is not allowed by schema") "12.3"
        ("frontmatter." <> k))
    ++ key_issues allowed ks

-- What is there and what is required: `failed` is the issue of a condition without a value.
abbrev pub required_issues :
    {A : Type 0} → Evaluated Bool → Issue → Issue → Option A → (A → List Issue) → List Issue
required_issues (eval_error m) failed missing none judge = failed ∷ []
required_issues (eval_error m) failed missing (some a) judge = failed ∷ judge a
required_issues (evaluated true) failed missing none judge = missing ∷ []
required_issues (evaluated false) failed missing none judge = []
required_issues (evaluated _) failed missing (some a) judge = judge a

unfoldable pub title_issues : String → String → SectionContent → List Issue
unfolding trim_space
title_issues name title content = unless (trim_space title == "" || content.title == title) (
    issue "content.section_title_mismatch"
      ("section '" <> name <> "' title must exactly match '" <> title <> "'") "12.2"
      ("content.sections." <> name))

unfoldable pub each : {A : Type 0} → (A → List Issue) → List A → List Issue
each f [] = []
each f (a ∷ rest) = f a ++ each f rest

abbrev pub duplicate_issue : String → Issue
duplicate_issue label =
    issue "content.section_label_duplicate" ("section label '" <> label <> "' is duplicated") "12.2"
      ("content.sections." <> label)

module _ {S : Scalars} {Expr Template : Type 0} (eval : Expr → Value S → Evaluated (Value S))
    (render : Template → Value S → Evaluated String) (is_date : String → Bool) where
  abbrev empty_rules : FieldRules S Expr Template
  empty_rules = record {
    name = "";
    field_type = "";
    requirement = record { always = false; expr = none; path = "" };
    enum = [];
    const = none;
    item_type = none;
    unique_items = false;
    min_items = none;
    max_items = none;
  }

  abbrev pub rules_of : Option (FieldRules S Expr Template) → FieldRules S Expr Template
  rules_of none = empty_rules
  rules_of (some r) = r

  abbrev pub section_rules_of : Option (SectionRules Expr) → SectionRules Expr
  section_rules_of none = record {
    title = "";
    requirement = record { always = false; expr = none; path = "" };
  }
  section_rules_of (some r) = r

  -- The formats of the builtin fields.
  unfoldable pub builtin_issues : CheckModel S Expr Template → Candidate S → List Issue
  unfolding is_slug parse_suffix
  builtin_issues model c =
      unless (is_slug c.slug) (
        issue "builtin.slug_format_invalid" "slug must match ^[a-z0-9]+(?:-[a-z0-9]+)*$" "11.2"
          "frontmatter.slug")
      ++ (elim (parse_suffix c.id model.id_prefix) [
        | none ↦
            issue "builtin.id_format_invalid"
              ("id must match prefix '" <> model.id_prefix <> "-<number>'") "11.1" "frontmatter.id"
            ∷ []
        | some _ ↦ []
      ]
          ++ (unless (is_date c.created_date) (
                issue "builtin.date_format_invalid"
                  "field 'createdDate' must be in YYYY-MM-DD format" "11.3"
                  "frontmatter.createdDate")
              ++ unless (is_date c.updated_date) (
                  issue "builtin.date_format_invalid"
                    "field 'updatedDate' must be in YYYY-MM-DD format" "11.4"
                    "frontmatter.updatedDate")))

  -- One round of the loop over the fields.
  unfoldable pub field_issues : CheckModel S Expr Template → Candidate S → String → List Issue
  unfolding evaluate_required check_value build_context lookup find path_or_default
  field_issues model c name =
      let rules = rules_of (lookup name model.fields) in
      let context = build_context c in
      required_issues
        (evaluate_required (λ e. eval e context) (λ t. render t context) rules.requirement)
        (issue "meta.required_expression_evaluation_failed"
          ("failed to evaluate required for field '" <> name <> "'") "11.6"
          (path_or_default rules.requirement.path ("schema.meta.fields." <> name <> ".required")))
        (issue "meta.required_missing" ("required field '" <> name <> "' is missing") "11.5"
          ("frontmatter." <> name))
        (find name c.frontmatter) (check_value (λ e. eval e context) (λ t. render t context) rules)

  -- One round of the loop over the sections.
  unfoldable pub section_issues :
      CheckModel S Expr Template → Candidate S → Dict SectionContent → String → List Issue
  unfolding evaluate_required title_issues build_context lookup path_or_default
  section_issues model c sections name =
      let rules = section_rules_of (lookup name model.sections) in
      let context = build_context c in
      required_issues
        (evaluate_required (λ e. eval e context) (λ t. render t context) rules.requirement)
        (issue "content.required_expression_evaluation_failed"
          ("failed to evaluate required for section '" <> name <> "'") "11.6"
          (path_or_default rules.requirement.path
            ("schema.content.sections." <> name <> ".required")))
        (issue "content.required_missing" ("required content section '" <> name <> "' is missing")
          "12.2" ("content.sections." <> name))
        (lookup name sections) (title_issues name rules.title)

  -- The issues of `Check`, in the order in which they are found.
  unfoldable pub found_issues :
      CheckModel S Expr Template → Workspace S → Candidate S → List Issue → List Issue → List Issue
  unfolding builtin_issues conflict_issues key_issues field_issues section_issues each
      extract_sections sort_by str_lt
  found_issues model w c path_issues ref_issues =
      let (sections, duplicates) = extract_sections c.body in
      path_issues
      ++ (ref_issues
          ++ (builtin_issues model c
              ++ (conflict_issues w c
                  ++ (key_issues (builtin_keys ++ model.field_order)
                        (sort_by str_lt (field_keys c.frontmatter))
                      ++ (each (field_issues model c) model.field_order
                          ++ (map duplicate_issue duplicates
                              ++ each (section_issues model c sections) model.section_order))))))

  -- `Check` of entitycheck.
  unfoldable pub check :
      CheckModel S Expr Template → Workspace S → Candidate S → List Issue → List Issue → List Issue
  unfolding found_issues sort_by issue_less
  check model w c path_issues ref_issues =
      sort_by issue_less (found_issues model w c path_issues ref_issues)
