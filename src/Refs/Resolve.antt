-- ===== src/Refs/Resolve.antt =====
-- internal/application/commands/internal/refresolve/resolver.go: the references of a candidate that is
-- about to be written.
use spec_cli.Common.{
  ℕ, ◌+◌, String, ◌<>◌, Bool, false, not, Option, none, some, List, [], ◌∷◌, ◌++◌,
}
use spec_cli.Common.{◌==◌, string_eq, nat_eq, if◌then◌else◌, length}
use spec_cli.Common.Dict.{Dict, lookup, insert, contains}
use spec_cli.Common.Text.{trim_space}
use spec_cli.Common.Decimal.{itoa}
use spec_cli.Values.{Scalars, Value, str, list, Items, nil, cons, Fields, find}
use spec_cli.Write.{MetaField, EntityTypeSpec, WorkspaceEntity, ResolvedRef, Issue}

-- What `Resolve` returns, and the two fields of the candidate that it fills.
pub record Resolution (S : Scalars) : Type 0 where
  pub resolved : Dict (ResolvedRef S)
  pub resolved_arrays : Dict (List (ResolvedRef S))
  pub issues : List Issue
  pub ref_ids : Dict String
  pub ref_id_arrays : Dict (List String)

abbrev pub start : {S : Scalars} → Resolution S
start = record {
  resolved = [];
  resolved_arrays = [];
  issues = [];
  ref_ids = [];
  ref_id_arrays = [];
}

issue : String → String → String → Issue
issue code message field = record {
  code = code;
  message = message;
  standard_ref = "11.5";
  field = field;
}

abbrev report : {S : Scalars} → Issue → Resolution S → Resolution S
report i r = record r { issues = r.issues ++ i ∷ [] }

-- `readRefIDArray`
unfoldable pub read_ref_id_array : {S : Scalars} → Items S → Option (List String)
unfolding trim_space
read_ref_id_array nil = some []
read_ref_id_array (cons (str s) vs) = elim (read_ref_id_array vs) [
  | none ↦ none
  | some rest ↦ if trim_space s == "" then none else some (trim_space s ∷ rest)
]
read_ref_id_array (cons _ vs) = none

-- `len(refTypes) > 0 && !contains(refTypes, target.Type)`
abbrev pub is_outside : List String → String → Bool
is_outside [] t = false
is_outside (r ∷ rs) t = not (contains (r ∷ rs) t)

-- The one target of an id, or the issue.
pub data Target (S : Scalars) : Type 0 where
  target : WorkspaceEntity S → Target S
  trouble : Issue → Target S

module _ {S : Scalars} where
  abbrev pub as_ref : WorkspaceEntity S → ResolvedRef S
  as_ref e = record {
    type_name = e.type_name;
    id = e.id;
    slug = e.slug;
    dir_path = e.dir_path;
    meta = e.meta;
  }

  abbrev pub entities_of : Option (List (WorkspaceEntity S)) → List (WorkspaceEntity S)
  entities_of none = []
  entities_of (some es) = es

  -- `place` is the reference as a message names it, and `field` as an issue does.
  unfoldable pub target_of :
      String → String → List String → String → List (WorkspaceEntity S) → Target S
  unfolding issue
  target_of place field ref_types id [] = trouble (
      issue "meta.entityRef_target_missing"
        ("entityRef '" <> place <> "' points to missing id '" <> id <> "'") field)
  target_of place field ref_types id (e ∷ []) =
      if is_outside ref_types e.type_name
      then trouble (
          issue "meta.entityRef_type_mismatch"
            ("entityRef '" <> place <> "' points to type '" <> e.type_name <> "' outside refType")
            field)
      else target e
  target_of place field ref_types id (_ ∷ _ ∷ _) = trouble (
      issue "meta.entityRef_target_ambiguous"
        ("entityRef '" <> place <> "' points to ambiguous id '" <> id <> "'") field)

  module _ (entities_by_id : Dict (List (WorkspaceEntity S))) where
    -- The inner loop over the ids of an array: the resolved items and the issues.
    resolve_items : String → List String → ℕ → List String → List (ResolvedRef S) × List Issue
    unfolding target_of lookup itoa
    resolve_items name ref_types idx [] = ([], [])
    resolve_items name ref_types idx (id ∷ ids) =
        let place = name <> "[" <> itoa idx <> "]" in
        let (items, issues) = resolve_items name ref_types (idx + 1) ids in
        elim (target_of place ("frontmatter." <> place) ref_types id
          (entities_of (lookup id entities_by_id))) [
            | trouble i ↦ (items, i ∷ issues)
            | target e ↦ (as_ref e ∷ items, issues)
          ]

    resolve_array : String → MetaField → Option (List String) → Resolution S → Resolution S
    unfolding resolve_items issue insert nat_eq
    resolve_array name spec none r =
        report
          (issue "meta.required_type_mismatch"
            ("field '" <> name <> "' must be array of non-empty string target ids")
            ("frontmatter." <> name))
          r
    resolve_array name spec (some ids) r =
        let (items, issues) = resolve_items name spec.item_ref_types 0 ids in
        record r {
          ref_id_arrays = insert name ids r.ref_id_arrays;
          issues = r.issues ++ issues;
          resolved_arrays = elim issues [
            | [] ↦
                if length items == length ids
                then insert name items r.resolved_arrays
                else r.resolved_arrays
            | _ ∷ _ ↦ r.resolved_arrays
          ];
        }

    resolve_id : String → MetaField → String → Resolution S → Resolution S
    unfolding target_of lookup insert string_eq
    resolve_id name spec id r =
        if id == ""
        then r
        else elim (target_of name ("frontmatter." <> name) spec.ref_types id
            (entities_of (lookup id entities_by_id))) [
              | trouble i ↦ record (report i r) { ref_ids = insert name id r.ref_ids }
              | target e ↦ record r {
                ref_ids = insert name id r.ref_ids;
                resolved = insert name (as_ref e) r.resolved;
              }
            ]

    abbrev array_ids : Value S → Option (List String)
    array_ids (list vs) = read_ref_id_array vs
    array_ids _ = none

    resolve_scalar : String → MetaField → Value S → Resolution S → Resolution S
    unfolding resolve_id trim_space issue
    resolve_scalar name spec (str s) r = resolve_id name spec (trim_space s) r
    resolve_scalar name spec _ r =
        report
          (issue "meta.required_type_mismatch" ("field '" <> name <> "' must be string target id")
            ("frontmatter." <> name))
          r

    -- One round of the loop over the fields.
    unfoldable pub resolve_field :
        String → Option MetaField → Option (Value S) → Resolution S → Resolution S
    unfolding resolve_array resolve_scalar
    resolve_field name none raw r = r
    resolve_field name (some spec) none r = r
    resolve_field name (some spec) (some raw) r =
        if spec.is_entity_ref_array
        then resolve_array name spec (array_ids raw) r
        else if spec.is_entity_ref
        then resolve_scalar name spec raw r
        else r

    resolve_fields : EntityTypeSpec → Fields S → List String → Resolution S → Resolution S
    unfolding resolve_field find lookup
    resolve_fields type_spec frontmatter [] r = r
    resolve_fields type_spec frontmatter (name ∷ names) r =
        resolve_fields type_spec frontmatter names
          (resolve_field name (lookup name type_spec.meta_fields) (find name frontmatter) r)

    -- `Resolve`
    unfoldable pub resolve : EntityTypeSpec → Fields S → Resolution S
    unfolding resolve_fields
    resolve type_spec frontmatter =
        resolve_fields type_spec frontmatter type_spec.meta_field_order start
