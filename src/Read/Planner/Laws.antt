-- ===== src/Read/Planner/Laws.antt =====
-- What an accepted plan covers.
use spec_cli.Common.{
  String, ◌≡◌, refl, sym, ◌∙◌, ap, subst, Bool, true, false, not, List, [], ◌∷◌, arith,
}
use spec_cli.Common.{
  ◌==◌, ◌||◌, ◌&&◌, ◌≢◌, eq_self, string_eq, eq_true, insert_by, sort_by, map, All,
}
use spec_cli.Common.Dict.{lookup, contains}
use spec_cli.Common.Text.{str_lt}
use mathlib.Core.Path.{ap₂}
use spec_cli.Errors.{>>=-eq-ok, ok-injective, Result, ok, ◌>>=◌}
use spec_cli.Values.{Scalars}
use spec_cli.Read.Capability.{Capability}
use spec_cli.Read.Sort.{SortTerm, ends_in_id, build_effective_sort}
use spec_cli.Read.Sort.Laws.{build_effective_sort-ok}
use spec_cli.Read.Execute.{WherePlan, RootPlan, QueryPlan}
use spec_cli.Read.Planner.{
  Options, distinct, sorted_names, resolve_active_type_set, scoped, sort_types, scopes_of,
  validate_scopes, validate_scoped_entity_types, build_root_plan, build_root_plans, build_plan,
}

contains-eq :
    (xs : List String) (x s : String)
    → contains xs x ≡ true
    → (x == s) ≡ true
    → contains xs s ≡ true
contains-eq xs x s h e = ap (contains xs) (sym (eq_true x s e)) ∙ h

contains-eq_rev :
    (xs : List String) (x s : String)
    → contains xs s ≡ true
    → (x == s) ≡ true
    → contains xs x ≡ true
contains-eq_rev xs x s h e = ap (contains xs) (eq_true x s e) ∙ h

contains-distinct :
    (seen xs : List String) (s : String)
    → (contains (distinct seen xs) s || contains seen s) ≡ (contains xs s || contains seen s)
unfolding distinct
contains-distinct seen [] s = refl
contains-distinct seen (x ∷ xs) s =
    ground
      (arith, contains-distinct seen xs s, contains-distinct (x ∷ seen) xs s, contains-eq seen x s)

contains-insert_by :
    (less : String → String → Bool) (x : String) (xs : List String) (s : String)
    → contains (insert_by less x xs) s ≡ (x == s || contains xs s)
unfolding insert_by
contains-insert_by less x [] s = refl
contains-insert_by less x (y ∷ ys) s = ground (arith, contains-insert_by less x ys s)

contains-sort_by :
    (less : String → String → Bool) (xs : List String) (s : String)
    → contains (sort_by less xs) s ≡ contains xs s
unfolding sort_by
contains-sort_by less [] s = refl
contains-sort_by less (x ∷ xs) s =
    contains-insert_by less x (sort_by less xs) s
    ∙ ap (λ b. x == s || b) (contains-sort_by less xs s)

validate_scopes-ok :
    (capability : Capability) (active scopes : List String) (s : String)
    → validate_scopes capability active scopes ≡ ok tt
    → contains scopes s ≡ true
    → contains active s ≡ true
unfolding validate_scopes
validate_scopes-ok capability active [] s h k = cc
validate_scopes-ok capability active (x ∷ xs) s h k =
    ground (arith, validate_scopes-ok capability active xs s, contains-eq active x s)

contains-sorted_names :
    (xs : List String) (s : String) → contains (sorted_names xs) s ≡ contains xs s
unfolding sorted_names
contains-sorted_names xs s =
    contains-sort_by str_lt (distinct [] xs) s ∙ ground (arith, contains-distinct [] xs s)

module _ (opts : Options) (capability : Capability) where
  -- The root plan has the limits of its type, and an order that ends in the ascending id.
  pub record IsPlanned (root : RootPlan) : Type 0 where
    pub limited : root.limit ≡ scoped (lookup root.entity_type opts.scoped_limits) opts.limit
    pub shifted : root.offset ≡ scoped (lookup root.entity_type opts.scoped_offsets) opts.offset
    pub ordered : ends_in_id root.effective_sort ≡ true

  abbrev planned : String → List SortTerm → RootPlan
  planned name effective = record {
    entity_type = name;
    limit = scoped (lookup name opts.scoped_limits) opts.limit;
    offset = scoped (lookup name opts.scoped_offsets) opts.offset;
    effective_sort = effective;
  }

  build_root_plan-ok :
      (active : List String) (name : String) (root : RootPlan)
      → build_root_plan opts capability active name ≡ ok root
      → (root.entity_type ≡ name) × IsPlanned root
  unfolding build_root_plan
  build_root_plan-ok active name root h =
      let (effective, e, r) =
        >>=-eq-ok
          (build_effective_sort capability (scoped (lookup name opts.scoped_sorts) opts.sorts)
            (sort_types (lookup name opts.scoped_sorts) name active))
          (λ effective. ok (planned name effective)) h in
      subst (λ root. (root.entity_type ≡ name) × IsPlanned root) (ok-injective r)
        (
          refl,
          record {
            limited = refl;
            shifted = refl;
            ordered = (build_effective_sort-ok capability _ effective _ e).0;
          },
        )

  build_root_plans-ok :
      (active names : List String) (roots : List RootPlan)
      → build_root_plans opts capability active names ≡ ok roots
      → (map (λ r. r.entity_type) roots ≡ names) × All IsPlanned roots
  unfolding build_root_plans
  build_root_plans-ok active [] roots h =
      subst (λ roots. (map (λ r. r.entity_type) roots ≡ []) × All IsPlanned roots) (ok-injective h)
        (refl, tt)
  build_root_plans-ok active (n ∷ ns) roots h =
      let (root, e, r) =
        >>=-eq-ok (build_root_plan opts capability active n)
          (λ root. build_root_plans opts capability active ns >>= λ rest. ok (root ∷ rest)) h in
      let (rest, f, q) =
        >>=-eq-ok (build_root_plans opts capability active ns) (λ rest. ok (root ∷ rest)) r in
      let (named, is_planned) = build_root_plan-ok active n root e in
      let (names, are_planned) = build_root_plans-ok active ns rest f in
      subst (λ roots. (map (λ r. r.entity_type) roots ≡ n ∷ ns) × All IsPlanned roots)
        (ok-injective q) (ap₂ (◌∷◌) named names, (is_planned, are_planned))

build_plan-steps :
    {S : Scalars} (compile_where : String → Capability → List String → Result (WherePlan S))
    (opts : Options) (capability : Capability) (plan : QueryPlan S)
    → build_plan compile_where opts capability ≡ ok plan
    → let active = resolve_active_type_set opts.type_filters capability in
      (validate_scopes capability active (sorted_names (scopes_of opts)) ≡ ok tt)
      × (build_root_plans opts capability active active ≡ ok plan.root_plans)
unfolding build_plan validate_scoped_entity_types
build_plan-steps compile_where opts capability plan h = ground arith

-- An accepted plan has one root for each active type, in their order; every root has the limit and
-- the offset of its type, or the general ones where its type has none, and an order that ends in the
-- ascending id; and no limit, offset or order is given for a type that is not active.
pub build_plan-ok :
    {S : Scalars} (compile_where : String → Capability → List String → Result (WherePlan S))
    (opts : Options) (capability : Capability) (plan : QueryPlan S)
    → build_plan compile_where opts capability ≡ ok plan
    → let active = resolve_active_type_set opts.type_filters capability in
      (map (λ r. r.entity_type) plan.root_plans ≡ active)
      × All (IsPlanned opts capability) plan.root_plans
      × ((s : String) → contains (scopes_of opts) s ≡ true → contains active s ≡ true)
unfolding build_plan
build_plan-ok compile_where opts capability plan h =
    let active = resolve_active_type_set opts.type_filters capability in
    let (scopes, roots) = build_plan-steps compile_where opts capability plan h in
    let (names, planned) =
      build_root_plans-ok opts capability active active plan.root_plans roots in
    (
      names,
      planned,
      λ s k.
          validate_scopes-ok capability active (sorted_names (scopes_of opts)) s scopes
            (contains-sorted_names (scopes_of opts) s ∙ k),
    )

abbrev pub has_no_repeats : List String → Bool
has_no_repeats [] = true
has_no_repeats (x ∷ xs) = not (contains xs x) && has_no_repeats xs

distinct-unseen :
    (seen xs : List String) (s : String)
    → contains seen s ≡ true
    → contains (distinct seen xs) s ≡ false
unfolding distinct
distinct-unseen seen [] s h = refl
distinct-unseen seen (x ∷ xs) s h =
    ground
      (arith, distinct-unseen seen xs s, distinct-unseen (x ∷ seen) xs s, contains-eq_rev seen x s)

distinct-no_repeats : (seen xs : List String) → has_no_repeats (distinct seen xs) ≡ true
unfolding distinct
distinct-no_repeats seen [] = refl
distinct-no_repeats seen (x ∷ xs) = ground (
  arith,
  distinct-no_repeats seen xs,
  distinct-no_repeats (x ∷ seen) xs,
  distinct-unseen (x ∷ seen) xs x,
  eq_self x,
)

-- The types of a filter are the active ones, and no type is active twice.
pub resolve_active_type_set-filtered :
    (capability : Capability) (filters : List String)
    → filters ≢ []
    → let active = resolve_active_type_set filters capability in
      (has_no_repeats active ≡ true) × ((s : String) → contains active s ≡ contains filters s)
unfolding resolve_active_type_set
resolve_active_type_set-filtered capability [] h = absurd (h refl)
resolve_active_type_set-filtered capability (t ∷ ts) h =
    (distinct-no_repeats [] (t ∷ ts), λ s. ground (arith, contains-distinct [] (t ∷ ts) s))
