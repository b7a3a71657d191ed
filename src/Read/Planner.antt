-- ===== src/Read/Planner.antt =====
-- internal/application/readmodel/engine/planner.go: the plan of a read query. What where.go makes of the
-- filter text is an argument of the plan.
pub mod Laws
use spec_cli.Common.{ℕ, String, ◌<>◌, Bool, true, false, Option, none, some, List, [], ◌∷◌, ◌++◌}
use spec_cli.Common.{◌==◌, ◌||◌, string_eq, if◌then◌else◌, sort_by, any}
use spec_cli.Common.Dict.{Dict, lookup, has, contains, keys}
use spec_cli.Common.Text.{trim_space, str_lt}
use spec_cli.Errors
use spec_cli.Errors.{Code, Result, ok, fail, text, ◌>>=◌, ◌>>◌}
use spec_cli.Values.{Scalars}
use spec_cli.Read.Capability.{Capability}
use spec_cli.Read.Select.{build_select_tree}
use spec_cli.Read.Sort.{SortTerm, build_effective_sort}
use spec_cli.Read.Execute.{SectionAccess, WherePlan, RootPlan, QueryPlan}

-- `Options`
pub record Options : Type 0 where
  pub type_filters : List String
  pub where_expr : String
  pub selects : List String
  pub sorts : List SortTerm
  pub scoped_sorts : Dict (List SortTerm)
  pub limit : ℕ
  pub scoped_limits : Dict ℕ
  pub offset : ℕ
  pub scoped_offsets : Dict ℕ

abbrev pub default_selects : List String
default_selects = "type" ∷ "id" ∷ "slug" ∷ "meta" ∷ "refs" ∷ []

abbrev pub requested_selects : List String → List String
requested_selects [] = default_selects
requested_selects (s ∷ ss) = s ∷ ss

-- The first occurrence of each name, in order; the names in `seen` are left out.
unfoldable pub distinct : List String → List String → List String
distinct seen [] = []
distinct seen (x ∷ xs) =
    let known = distinct seen xs in
    let new = distinct (x ∷ seen) xs in if contains seen x then known else x ∷ new

-- `sortedScopes`, `sortedEntityTypes`
unfoldable pub sorted_names : List String → List String
unfolding distinct sort_by str_lt
sorted_names names = sort_by str_lt (distinct [] names)

-- `validateTypeFilters`
unfoldable pub validate_type_filters : List String → Capability → Result (Unit {0})
unfolding Errors.new
validate_type_filters [] capability = ok tt
validate_type_filters (t ∷ ts) capability =
    let rest = validate_type_filters ts capability in
    if has t capability.entity_types
    then rest
    else fail (
        Errors.new Code.entity_type_unknown ("unknown entity type: " <> t)
          (("entity_type", text t) ∷ []))

-- `resolveActiveTypeSet`
unfoldable pub resolve_active_type_set : List String → Capability → List String
unfolding distinct sorted_names keys
resolve_active_type_set [] capability = elim capability.entity_order [
  | [] ↦ sorted_names (keys capability.entity_types)
  | t ∷ ts ↦ t ∷ ts
]
resolve_active_type_set (t ∷ ts) capability = distinct [] (t ∷ ts)

abbrev pub scopes_of : Options → List String
scopes_of opts = keys opts.scoped_limits ++ keys opts.scoped_offsets ++ keys opts.scoped_sorts

module _ (capability : Capability) (active : List String) where
  -- The loop over the sorted scopes.
  unfoldable pub validate_scopes : List String → Result (Unit {0})
  unfolding Errors.new
  validate_scopes [] = ok tt
  validate_scopes (scope ∷ scopes) =
      let rest = validate_scopes scopes in
      if has scope capability.entity_types
      then if contains active scope
        then rest
        else fail (
            Errors.new Code.invalid_args ("scoped entity type is not active: " <> scope)
              (("entity_type", text scope) ∷ []))
      else fail (
          Errors.new Code.entity_type_unknown ("unknown scoped entity type: " <> scope)
            (("entity_type", text scope) ∷ []))

  -- `validateScopedEntityTypes`
  unfoldable pub validate_scoped_entity_types : Options → Result (Unit {0})
  unfolding validate_scopes sorted_names
  validate_scoped_entity_types opts = validate_scopes (sorted_names (scopes_of opts))

-- The value a map has for a type, or the one that stands for all types.
abbrev pub scoped {ℓ} : {A : Type ℓ} → Option A → A → A
scoped none a = a
scoped (some b) a = b

abbrev sort_types {ℓ} : {A : Type ℓ} → Option A → String → List String → List String
sort_types none name active = active
sort_types (some _) name active = name ∷ []

-- One round of `buildRootPlans`.
unfoldable pub build_root_plan : Options → Capability → List String → String → Result RootPlan
unfolding lookup
build_root_plan opts capability active name = do
  effective ←
      build_effective_sort capability (scoped (lookup name opts.scoped_sorts) opts.sorts)
        (sort_types (lookup name opts.scoped_sorts) name active)
  ok (record {
    entity_type = name;
    limit = scoped (lookup name opts.scoped_limits) opts.limit;
    offset = scoped (lookup name opts.scoped_offsets) opts.offset;
    effective_sort = effective;
  })

-- `buildRootPlans`
unfoldable pub build_root_plans :
    Options → Capability → List String → List String → Result (List RootPlan)
unfolding build_root_plan
build_root_plans opts capability active [] = ok []
build_root_plans opts capability active (name ∷ names) = do
  root ← build_root_plan opts capability active name
  roots ← build_root_plans opts capability active names
  ok (root ∷ roots)

-- `selectSectionAccess`
unfoldable pub select_section_access : List String → SectionAccess
unfolding trim_space
select_section_access selects = record {
  all = any (λ s. trim_space s == "content.sections") selects;
  names = [];
}

abbrev no_sections : SectionAccess
no_sections = record { all = false; names = [] }

module _ {S : Scalars}
    (compile_where : String → Capability → List String → Result (WherePlan S)) where
  compiled : String → Capability → List String → Result (Option (WherePlan S))
  compiled source capability active =
      if source == "" then ok none else compile_where source capability active >>= λ w. ok (some w)

  abbrev sections_of : Option (WherePlan S) → SectionAccess
  sections_of none = no_sections
  sections_of (some w) = w.sections

  -- `BuildPlan`
  unfoldable pub build_plan : Options → Capability → Result (QueryPlan S)
  unfolding validate_type_filters resolve_active_type_set compiled validate_scoped_entity_types
      build_root_plans select_section_access
  build_plan opts capability = do
    let active = resolve_active_type_set opts.type_filters capability
    let selects = requested_selects opts.selects
    validate_type_filters opts.type_filters capability
    tree ← build_select_tree capability active selects
    where_plan ← compiled opts.where_expr capability active
    validate_scoped_entity_types capability active opts
    roots ← build_root_plans opts capability active active
    ok (record {
      select_tree = tree;
      where_plan = where_plan;
      root_plans = roots;
      select_sections = select_section_access selects;
      where_sections = sections_of where_plan;
    })
