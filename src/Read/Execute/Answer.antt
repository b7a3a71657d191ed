-- ===== src/Read/Execute/Answer.antt =====
-- What an answered root holds, told without the loops, and when a root is answered at all.
use spec_cli.Common.{ℕ, ◌+◌, ◌<◌, ◌≡◌, refl, String, Bool, true, false, not, ◌&&◌, ◌||◌}
use spec_cli.Common.{
  Option, none, some, List, [], ◌∷◌, map, arith, ◌==◌, string_eq, nat_eq, if◌then◌else◌,
}
use spec_cli.Common.{drop_all, select, all, take, drop, length, Option-cases, Bool-cases, inl, inr}
use spec_cli.Values.{Scalars, object, Fields, is_truthy}
use spec_cli.Read.Projection.{project_entity}
use spec_cli.Read.Order.{EntityView, sort_entities}
use spec_cli.Read.Execute.{
  Run, done, ◌>>=◌, >>=-eq-done, found, search_error, WherePlan, QueryPlan, RootPlan, RootField,
  ambiguous_section, keeps, match_entities, project_page, paginate_entities, int_mod, execute_root,
}
use spec_cli.Read.Execute.Paging.{
  project_page_inv, project_page-cons, project_page-nil, take-nil, take-min, paginate_entities_lem,
  answer, execute_root_lem,
}

module _ {S : Scalars} where
  -- The filter is true of the entity.
  unfoldable pub passes : Option (WherePlan S) → EntityView S → Bool
  passes none e = true
  passes (some w) e = elim (w.search (object e.where_context)) [
    | found v ↦ is_truthy v
    | search_error _ ↦ false
  ]

  -- The filter can be evaluated for the entity.
  unfoldable pub evaluates : Option (WherePlan S) → EntityView S → Bool
  evaluates none e = true
  evaluates (some w) e = elim (w.search (object e.where_context)) [
    | found v ↦ true
    | search_error _ ↦ false
  ]

  keeps_lem :
      (plan : QueryPlan S) (w : Option (WherePlan S)) (e : EntityView S)
      → evaluates w e ≡ true
      → keeps plan w e ≡ done (passes w e)
  unfolding keeps evaluates passes
  keeps_lem plan none e h = refl
  keeps_lem plan (some w) e h = ground arith

  keeps-done :
      (plan : QueryPlan S) (w : Option (WherePlan S)) (e : EntityView S) (b : Bool)
      → keeps plan w e ≡ done b
      → (evaluates w e ≡ true) × (b ≡ passes w e)
  unfolding keeps evaluates passes
  keeps-done plan none e b h = (refl, ground arith)
  keeps-done plan (some w) e b h = ground arith

abbrev unambiguous : Option String → Bool
unambiguous none = true
unambiguous (some _) = false

module _ {S : Scalars} (plan : QueryPlan S) (root : String) where
  abbrev pub matches : EntityView S → Bool
  matches e = (e.type_name == root) && passes plan.where_plan e

  -- The entity is of another type, or repeats no section that the filter reads and can be filtered.
  abbrev pub readable : EntityView S → Bool
  readable e =
      not (e.type_name == root)
      || (unambiguous (ambiguous_section e.duplicate_section_labels plan.where_sections)
          && evaluates plan.where_plan e)

  abbrev prepend : EntityView S → List (EntityView S) → Run (List (EntityView S))
  prepend e matched = done (e ∷ matched)

  after_keeps : EntityView S → List (EntityView S) → Bool → Run (List (EntityView S))
  after_keeps e es kept =
      if kept then (match_entities plan root es >>= prepend e) else match_entities plan root es

  pub match_entities-done :
      (es ms : List (EntityView S))
      → match_entities plan root es ≡ done ms
      → (all readable es ≡ true) × (ms ≡ select matches es)
  unfolding match_entities
  match_entities-done [] ms h = (refl, ground arith)
  match_entities-done (e ∷ es) ms h = elim (Bool-cases (e.type_name == root)) [
    | inr differ ↦ ground (arith, match_entities-done es ms)
    | inl same ↦
        elim (Option-cases (ambiguous_section e.duplicate_section_labels plan.where_sections)) [
          | inr (label, a) ↦ absurd (ground arith)
          | inl a ↦
              let (kept, k, r) =
                >>=-eq-done (keeps plan plan.where_plan e) (after_keeps e es) {b = ms}
                  (unfold after_keeps in ground arith) in
              let (ev, is) = keeps-done plan plan.where_plan e kept k in
              elim (Bool-cases kept) [
                | inl t ↦
                    let (m, q, last) =
                      >>=-eq-done (match_entities plan root es) (prepend e) {b = ms}
                        (unfold after_keeps in ground arith) in
                    ground (arith, match_entities-done es m q)
                | inr f ↦
                    ground (arith, match_entities-done es ms (unfold after_keeps in ground arith))
              ]
        ]
  ]

  pub match_entities_of_readable :
      (es : List (EntityView S))
      → all readable es ≡ true
      → match_entities plan root es ≡ done (select matches es)
  unfolding match_entities
  match_entities_of_readable [] h = refl
  match_entities_of_readable (e ∷ es) h =
      ground (arith, match_entities_of_readable es, keeps_lem plan plan.where_plan e)

module _ {S : Scalars} (plan : QueryPlan S) where
  abbrev pub selectable : EntityView S → Bool
  selectable e = unambiguous (ambiguous_section e.duplicate_section_labels plan.select_sections)

  abbrev pub projections : List (EntityView S) → List (Fields S)
  projections = map (λ e. project_entity e.view plan.select_tree)

  project_page-done :
      (es : List (EntityView S)) (items : List (Fields S))
      → project_page plan es ≡ done items
      → (all selectable es ≡ true) × (items ≡ projections es)
  project_page-done [] items h = (refl, project_page-nil plan items h)
  project_page-done (e ∷ es) items h =
      let (a, rest, r, same) = project_page_inv plan e es items h in
      let (others, ih) = project_page-done es rest r in (rw (a, others), rw (same, ih))

  project_page_of_selectable :
      (es : List (EntityView S))
      → all selectable es ≡ true
      → project_page plan es ≡ done (projections es)
  project_page_of_selectable [] h = unfold project_page in refl
  project_page_of_selectable (e ∷ es) h =
      elim (Option-cases (ambiguous_section e.duplicate_section_labels plan.select_sections)) [
        | inl a ↦
            project_page-cons plan e es (projections es) a
              (project_page_of_selectable es (rw a at h))
        | inr (label, a) ↦ absurd (ground arith)
      ]

paginate_entities-done :
    {A : Type 0} (xs paged : List A) (o l : ℕ)
    → paginate_entities xs o l ≡ done paged
    → paged ≡ take l (drop o xs)
unfolding paginate_entities
paginate_entities-done xs paged o l h = ground (arith, take-min xs o l, drop_all o xs, take-nil l)

module _ {S : Scalars} (plan : QueryPlan S) (entities : List (EntityView S)) (root : RootPlan) where
  -- The entities of the root's type for which the filter is true.
  abbrev pub matched : List (EntityView S)
  matched = select (matches plan root.entity_type) entities

  -- From the offset on, at most the limit's worth of the matches in their order.
  abbrev pub page : List (EntityView S)
  page = take root.limit (drop root.offset (sort_entities matched root.effective_sort))

  abbrev after_items :
      List (EntityView S) → List (EntityView S) → List (Fields S) → Run (RootField S)
  after_items ms paged items = done (answer plan entities root items (length ms) (length paged))

  after_page : List (EntityView S) → List (EntityView S) → Run (RootField S)
  after_page ms paged = project_page plan paged >>= after_items ms paged

  after_match : List (EntityView S) → Run (RootField S)
  after_match ms =
      paginate_entities (sort_entities ms root.effective_sort) root.offset root.limit
      >>= after_page ms

  -- Whenever a root is answered, its items are the projections of the page of the sorted matches, and
  -- its counts are those of all matches and of the page.
  pub execute_root-refines :
      (r : RootField S)
      → execute_root plan entities root ≡ done r
      → r ≡ answer plan entities root (projections plan page) (length matched) (length page)
  unfolding execute_root after_match after_page
  execute_root-refines r h =
      let (ms, m, h₁) =
        >>=-eq-done (match_entities plan root.entity_type entities) after_match {b = r} h in
      let (readables, is_ms) = match_entities-done plan root.entity_type entities ms m in
      let (paged, p, h₂) =
        >>=-eq-done
          (paginate_entities (sort_entities ms root.effective_sort) root.offset root.limit)
          (after_page ms) {b = r} h₁ in
      let (items, i, h₃) =
        >>=-eq-done (project_page plan paged) (after_items ms paged) {b = r} h₂ in
      let (selectables, is_items) = project_page-done plan paged items i in
      let is_page =
        paginate_entities-done (sort_entities ms root.effective_sort) paged root.offset root.limit
          p in
      cc

  -- A root is answered, with those items and counts, if every entity of its type can be filtered and
  -- repeats no section that the filter reads, no entity of the page repeats a section that is
  -- selected, and the sum of offset and limit fits an int of 64 bits.
  pub execute_root_total :
      all (readable plan root.entity_type) entities ≡ true
      → all (selectable plan) page ≡ true
      → root.offset + root.limit < int_mod
      → execute_root plan entities root
        ≡ done (answer plan entities root (projections plan page) (length matched) (length page))
  execute_root_total h k fits =
      execute_root_lem plan entities root matched page (projections plan page)
        (match_entities_of_readable plan root.entity_type entities h)
        (paginate_entities_lem (sort_entities matched root.effective_sort) root.offset root.limit
          fits)
        (project_page_of_selectable plan page k)
