-- ===== src/Tests/Reads.antt =====
-- Reading: selectors, orders, pages and plans at concrete inputs.
use spec_cli.Common.{
  ℕ, ◌≡◌, ◌≢◌, refl, ◌+◌, ◌<◌, ◌≤◌, ◌⊎◌, ◌↔◌, String, Bool, true, false, Option, none, some, List,
  [], ◌∷◌, ◌++◌, ◌-◌, arith,
}
use spec_cli.Common.{◌==◌, ◌||◌, string_eq, eq_false, any, all, length, take, drop, All, map}
use spec_cli.Common.Dict.{contains}
use spec_cli.Common.Text.{str_lt}
use spec_cli.Common.Decimal.{itoa}
use spec_cli.Errors
use spec_cli.Errors.{Result, ok, fail}
use spec_cli.Values.{Value, Fields, end, field, object, num, str, at, find}
use spec_cli.Selectors.{Node, new_tree}
use spec_cli.Selectors.Cover.{is_prefix, insert_all}
use spec_cli.Read.Capability.{Capability, has_ref_field}
use spec_cli.Read.Select.{build_select_tree, meta_selector}
use spec_cli.Read.Select.Laws.{project_entity-keeps, project_entity-hides, parts_of}
use spec_cli.Read.Projection.{project_entity}
use spec_cli.Read.Sort.{SortTerm, id_asc, ends_in_id, requested_or_default, build_effective_sort}
use spec_cli.Read.Order.{less, sort_entities, compare_literal_values, resolve_read_value}
use Prim.Native.Nat.{Ordering}
use mathlib.Core.List.{Perm}
use spec_cli.Read.Order.Contract.{Pairwise}
use spec_cli.Tests.Sorting.{entities-Sorts, numbers-IsAsymmetric}
use spec_cli.Read.Order.Total.{build_effective_sort-less_total}
use spec_cli.Read.Order.Stable.{sort_entities-Placed, Placed}
use spec_cli.Read.Execute.{
  RootPlan, WherePlan, QueryPlan, Run, done, panicked, execute_root, match_entities, project_page,
}
use spec_cli.Read.Execute.Paging.{follow, follow_all, answer}
use spec_cli.Read.Execute.Answer.{
  execute_root-refines, execute_root_total, matched, page, projections,
}
use spec_cli.Read.Execute.Overflow.{execute_root-panicked_iff}
use spec_cli.Read.Execute.Answer.{readable}
use spec_cli.Read.Execute.{int_mod}
use spec_cli.Read.Planner.{build_plan, resolve_active_type_set, scopes_of}
use spec_cli.Read.Planner.Laws.{build_plan-ok, IsPlanned}
use spec_cli.Tests.Data.{
  numbers, entities, entity_of, view_of, plan, root, by_rank, capability, options,
}

abbrev ranked : List (Fields numbers)
ranked = projections plan (entity_of "DOC-2" 9 ∷ entity_of "DOC-1" 2 ∷ [])

follow_all_example : follow plan entities root 3 0 ≡ some ranked
unfolding match_entities project_page sort_entities less string_eq resolve_read_value at find
    compare_literal_values spec_cli.Common.sort_by
follow_all_example =
    follow_all plan entities root entities refl ranked entities-Sorts.0 refl (omega arith)
      (omega arith)

execute_root-refines_example :
    answer plan entities root (projections plan (page plan entities root)) 2 1
    ≡ answer plan entities root
        (projections plan (page plan entities root))
        (length (matched plan entities root))
        (length (page plan entities root))
unfolding execute_root match_entities project_page sort_entities less string_eq resolve_read_value
    at find compare_literal_values spec_cli.Common.sort_by spec_cli.Read.Execute.paginate_entities
    spec_cli.Read.Execute.Answer.passes spec_cli.Read.Execute.page_info
execute_root-refines_example =
    execute_root-refines plan entities root
      (answer plan entities root (projections plan (page plan entities root)) 2 1) refl

execute_root_total_example :
    execute_root plan entities root
    ≡ done (
        answer plan entities root
          (projections plan (page plan entities root))
          (length (matched plan entities root))
          (length (page plan entities root)))
unfolding match_entities project_page sort_entities less string_eq resolve_read_value at find
    compare_literal_values spec_cli.Common.sort_by spec_cli.Read.Execute.Answer.evaluates
    spec_cli.Read.Execute.Answer.passes
execute_root_total_example = execute_root_total plan entities root refl refl (omega arith)

abbrev far_root : RootPlan
far_root = record root { offset = 1; limit = 9223372036854775807 }

-- The sum of this offset and this limit does not fit an int of 64 bits, and the page is not empty.
execute_root-overflow_test : execute_root plan entities far_root ≡ panicked
unfolding execute_root match_entities sort_entities string_eq
    spec_cli.Read.Execute.paginate_entities spec_cli.Common.sort_by resolve_read_value at find
    compare_literal_values
execute_root-overflow_test = refl

execute_root-panicked_iff_example : (execute_root plan entities far_root ≡ panicked) ↔ (
    (all (readable plan far_root.entity_type) entities ≡ true)
    × (far_root.limit ≢ 0)
    × (far_root.offset < length (matched plan entities far_root))
    × (int_mod ≤ far_root.offset + far_root.limit))
unfolding spec_cli.Read.Execute.Answer.passes string_eq
execute_root-panicked_iff_example =
    execute_root-panicked_iff plan entities far_root entities-Sorts.0

abbrev rank_tree : Node
rank_tree = insert_all new_tree (parts_of ("meta.rank" ∷ "meta" ∷ []))

project_entity-keeps_example :
    at (object (project_entity (view_of "DOC-1" 2) rank_tree)) ("meta" ∷ "rank" ∷ []) ≡ some (num 2)
unfolding build_select_tree at find string_eq spec_cli.Common.Text.trim_space
    spec_cli.Read.Select.split_dots spec_cli.Common.Dict.lookup insert_all spec_cli.Selectors.insert
    is_prefix
project_entity-keeps_example =
    project_entity-keeps capability ("doc" ∷ []) ("meta.rank" ∷ "meta" ∷ []) rank_tree refl
      (view_of "DOC-1" 2) "meta" ("rank" ∷ []) (num 2) refl refl

project_entity-hides_example :
    any
      (λ s. is_prefix s ("meta" ∷ "rank" ∷ []) || is_prefix ("meta" ∷ "rank" ∷ []) s)
      (parts_of ("meta.rank" ∷ "meta" ∷ []))
    ≡ true
unfolding build_select_tree at find project_entity string_eq spec_cli.Common.Text.trim_space
    spec_cli.Read.Select.split_dots spec_cli.Common.Dict.lookup insert_all spec_cli.Selectors.insert
    spec_cli.Values.deep_copy
project_entity-hides_example =
    project_entity-hides capability ("doc" ∷ []) ("meta.rank" ∷ "meta" ∷ []) rank_tree refl
      (view_of "DOC-1" 2) "meta" ("rank" ∷ []) (num 2) refl

build_effective_sort-less_total_example :
    (less (by_rank ∷ id_asc ∷ []) (entity_of "DOC-1" 2) (entity_of "DOC-2" 2) ≡ true)
    ⊎ (less (by_rank ∷ id_asc ∷ []) (entity_of "DOC-2" 2) (entity_of "DOC-1" 2) ≡ true)
unfolding build_effective_sort find spec_cli.Read.Sort.validate_terms
    spec_cli.Read.Sort.validate_sort_path spec_cli.Common.Dict.lookup string_eq
    spec_cli.Read.Select.split_dots has_ref_field ends_in_id
build_effective_sort-less_total_example =
    build_effective_sort-less_total capability (by_rank ∷ []) (by_rank ∷ id_asc ∷ []) ("doc" ∷ [])
      (entity_of "DOC-1" 2) (entity_of "DOC-2" 2) "DOC-1" "DOC-2" numbers-IsAsymmetric refl refl
      refl (eq_false "DOC-1" "DOC-2" refl)

sort_entities-Placed_example :
    Perm (sort_entities entities (by_rank ∷ id_asc ∷ [])) entities
    × Pairwise (Placed (by_rank ∷ id_asc ∷ [])) (sort_entities entities (by_rank ∷ id_asc ∷ []))
unfolding less resolve_read_value at find compare_literal_values string_eq str_lt
sort_entities-Placed_example =
    sort_entities-Placed entities (by_rank ∷ id_asc ∷ []) numbers-IsAsymmetric entities-Sorts refl

-- The comparison of numbers and texts goes in a circle.
compare_literal_values-cycle_test :
    (compare_literal_values {S = numbers} (num 9) (num 10) ≡ Ordering.lt)
    × (compare_literal_values {S = numbers} (num 10) (str "5") ≡ Ordering.lt)
    × (compare_literal_values {S = numbers} (str "5") (num 9) ≡ Ordering.lt)
unfolding compare_literal_values str_lt itoa spec_cli.Values.render
compare_literal_values-cycle_test = (refl, refl, refl)

abbrev no_where : String → Capability → List String → Result (WherePlan numbers)
no_where _ _ _ = fail (Errors.new Errors.Code.invalid_query "" [])

abbrev sample_plan : QueryPlan numbers
sample_plan = record plan { select_tree = insert_all new_tree (parts_of ("meta.rank" ∷ [])) }

build_plan-ok_example :
    (map (λ r. r.entity_type) sample_plan.root_plans ≡ resolve_active_type_set [] capability)
    × All (IsPlanned options capability) sample_plan.root_plans
    × ((s : String)
        → contains (scopes_of options) s ≡ true
        → contains (resolve_active_type_set [] capability) s ≡ true)
unfolding build_plan build_select_tree spec_cli.Read.Select.split_dots build_effective_sort
    spec_cli.Read.Sort.validate_terms spec_cli.Read.Sort.validate_sort_path has_ref_field insert_all
    spec_cli.Selectors.insert ends_in_id
build_plan-ok_example = build_plan-ok no_where options capability sample_plan refl
