-- ===== src/Read/Execute.antt =====
-- internal/application/readmodel/engine/execute.go: filter, sort, page and project, for each root.
pub mod Paging
pub mod Answer
pub mod Overflow
use spec_cli.Common.{
  ℕ, ◌+◌, ◌-◌, ◌^◌, String, ◌<>◌, Bool, true, false, not, Option, none, some, List, [], ◌∷◌, ◌≡◌,
  refl,
}
use spec_cli.Common.{
  ◌||◌, ◌==◌, nat_eq, string_eq, if◌then◌else◌, ltb, leb, take, drop, length, map, min,
}
use spec_cli.Common.Dict.{contains}
use spec_cli.Errors
use spec_cli.Errors.{Code, AppError, text}
use spec_cli.Values.{Scalars, Value, object, Fields, is_truthy}
use spec_cli.Selectors.{Node}
use spec_cli.Read.Sort.{SortTerm, asc, desc, Direction}
use spec_cli.Read.Order.{EntityView, sort_entities}
use spec_cli.Read.Projection.{project_entity}

-- A run of Go code: a result, an `*AppError`, or a panic.
pub data Run {ℓ} (A : Type ℓ) : Type ℓ where
  done : A → Run A
  refused : AppError → Run A
  panicked : Run A

infixl 5 ◌>>=◌
abbrev pub ◌>>=◌ {ℓ ℓ'} : {T : Type ℓ} {U : Type ℓ'} → Run T → (T → Run U) → Run U
panicked >>= next = panicked
refused error >>= next = refused error
done value >>= next = next value

-- Inversion of a bind that is done.
pub >>=-eq-done {ℓ ℓ'} :
    {T : Type ℓ} {U : Type ℓ'} (first : Run T) (next : T → Run U) {b : U}
    → (first >>= next) ≡ done b
    → (t : T) × (first ≡ done t) × (next t ≡ done b)
>>=-eq-done panicked next same = cc
>>=-eq-done (refused error) next same = cc
>>=-eq-done (done value) next same = (value, refl, same)

pub record SectionAccess : Type 0 where
  pub all : Bool
  pub names : List String

-- `Touches`
unfoldable pub touches : SectionAccess → String → Bool
touches access label = access.all || contains access.names label

-- What the JMESPath library answers for a document.
pub data Searched (S : Scalars) : Type 0 where
  found : Value S → Searched S
  search_error : String → Searched S

-- `WherePlan`; the compiled query is a function of the third-party library.
pub record WherePlan (S : Scalars) : Type 0 where
  pub source : String
  pub search : Value S → Searched S
  pub sections : SectionAccess

pub record RootPlan : Type 0 where
  pub entity_type : String
  pub limit : ℕ
  pub offset : ℕ
  pub effective_sort : List SortTerm

-- `QueryPlan`, with the fields that `Execute` reads.
pub record QueryPlan (S : Scalars) : Type 0 where
  pub select_tree : Node
  pub where_plan : Option (WherePlan S)
  pub root_plans : List RootPlan
  pub select_sections : SectionAccess
  pub where_sections : SectionAccess

pub record PageInfo : Type 0 where
  pub limit : ℕ
  pub offset : ℕ
  pub returned : ℕ
  pub has_more : Bool
  pub next_offset : Option ℕ
  pub effective_sort : List String

pub record RootField (S : Scalars) : Type 0 where
  pub entity_type : String
  pub items : List (Fields S)
  pub total_count : ℕ
  pub page_info : PageInfo

-- `ambiguousSection`: the first repeated label that the access set reaches.
unfoldable pub ambiguous_section : List String → SectionAccess → Option String
unfolding touches
ambiguous_section [] access = none
ambiguous_section (label ∷ labels) access =
    let rest = ambiguous_section labels access in if touches access label then some label else rest

unfoldable pub duplicate_section_error : {S : Scalars} → EntityView S → String → String → AppError
unfolding Errors.new
duplicate_section_error entity label via =
    Errors.new Code.read_failed "failed to read requested content sections" (
      ("reason", text ("section label '" <> label <> "' is duplicated"))
      ∷ ("section", text label)
      ∷ ("id", text entity.id)
      ∷ ("type", text entity.type_name)
      ∷ ("via", text via)
      ∷ [])

unfoldable pub evaluate_error : String → AppError
unfolding Errors.new
evaluate_error reason =
    Errors.new Code.read_failed "failed to evaluate --where expression"
      (("reason", text reason) ∷ [])

-- The sum of two `int`s of 64 bits is negative from here on.
abbrev pub int_mod : ℕ
int_mod = 2 ^ 63

-- `paginateEntities`. A negative end is a slice bound out of range.
unfoldable pub paginate_entities {ℓ} : {A : Type ℓ} → List A → ℕ → ℕ → Run (List A)
unfolding nat_eq
paginate_entities entities offset limit =
    if limit == 0
    then done []
    else if leb (length entities) offset
    then done []
    else if ltb (offset + limit) int_mod
    then done (take (min (offset + limit) (length entities) - offset) (drop offset entities))
    else panicked

direction_text : Direction → String
direction_text asc = "asc"
direction_text desc = "desc"

unfoldable pub sort_terms_to_strings : List SortTerm → List String
unfolding direction_text
sort_terms_to_strings = map (λ t. t.path <> ":" <> direction_text t.direction)

module _ {S : Scalars} (plan : QueryPlan S) where
  -- The filter's answer for one entity of the root's type: whether it is kept.
  unfoldable pub keeps : Option (WherePlan S) → EntityView S → Run Bool
  unfolding is_truthy evaluate_error
  keeps none entity = done true
  keeps (some w) entity = elim (w.search (object entity.where_context)) [
    | search_error reason ↦ refused (evaluate_error reason)
    | found v ↦ done (is_truthy v)
  ]

  -- The first loop over the entities.
  unfoldable pub match_entities : String → List (EntityView S) → Run (List (EntityView S))
  unfolding keeps ambiguous_section duplicate_section_error
  match_entities root [] = done []
  match_entities root (e ∷ es) =
      let rest = match_entities root es in
      if not (e.type_name == root)
      then rest
      else elim (ambiguous_section e.duplicate_section_labels plan.where_sections) [
        | some label ↦ refused (duplicate_section_error e label "--where")
        | none ↦ keeps plan.where_plan e >>= λ kept.
            if kept then (rest >>= λ matched. done (e ∷ matched)) else rest
      ]

  -- The loop over the page.
  unfoldable pub project_page : List (EntityView S) → Run (List (Fields S))
  unfolding ambiguous_section duplicate_section_error project_entity
  project_page [] = done []
  project_page (e ∷ es) =
      let rest = project_page es in
      elim (ambiguous_section e.duplicate_section_labels plan.select_sections) [
        | some label ↦ refused (duplicate_section_error e label "--select")
        | none ↦ rest >>= λ items. done (project_entity e.view plan.select_tree ∷ items)
      ]

  -- The page info, from the number of matches and of returned entities.
  unfoldable pub page_info : RootPlan → ℕ → ℕ → PageInfo
  unfolding sort_terms_to_strings
  page_info root matched returned =
      let more = ltb (root.offset + returned) matched in
      record {
        limit = root.limit;
        offset = root.offset;
        returned = returned;
        has_more = more;
        next_offset = if more then some (root.offset + returned) else none;
        effective_sort = sort_terms_to_strings root.effective_sort;
      }

  -- One round of the loop over the root plans.
  unfoldable pub execute_root : List (EntityView S) → RootPlan → Run (RootField S)
  execute_root entities root = do
    matched ← match_entities root.entity_type entities
    paged ← paginate_entities (sort_entities matched root.effective_sort) root.offset root.limit
    items ← project_page paged
    done (record {
      entity_type = root.entity_type;
      items = items;
      total_count = length matched;
      page_info = page_info root (length matched) (length paged);
    })

  execute_roots : List (EntityView S) → List RootPlan → Run (List (RootField S))
  unfolding execute_root
  execute_roots entities [] = done []
  execute_roots entities (root ∷ roots) = do
    first ← execute_root entities root
    rest ← execute_roots entities roots
    done (first ∷ rest)

  unfoldable pub execute : List (EntityView S) → Run (List (RootField S))
  unfolding execute_roots
  execute entities = execute_roots entities plan.root_plans
