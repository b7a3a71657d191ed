-- ===== src/Read/Execute/Paging.antt =====
-- internal/application/readmodel/engine/execute.go: one page, and a chain of pages.
use spec_cli.Common.{ℕ, zero, suc, ◌+◌, ◌-◌, ◌≤◌, ◌<◌, ◌≡◌, refl, sym, ◌∙◌, ap}
use spec_cli.Common.{Option, none, some, List, [], ◌∷◌, ◌++◌, arith, nat_eq}
use spec_cli.Common.{ltb, take, drop, length, min, length-take, length-drop}
use spec_cli.Common.{
  Option-cases, drop-drop, drop_all, take_all, take-append-rest, ltb→lt, ltb_false→le, Bool-cases,
  inl, inr, ◌≢◌,
}
use mathlib.Core.Option
use native.Mathlib.Decide.{dec_le}
use spec_cli.Values.{Scalars}
use spec_cli.Read.Execute.{
  Run, done, panicked, ◌>>=◌, >>=-eq-done, paginate_entities, int_mod, RootPlan, QueryPlan,
}
use spec_cli.Read.Execute.{
  page_info, project_page, ambiguous_section, refused, execute_root, RootField, match_entities,
}
use spec_cli.Read.Order.{EntityView, sort_entities, less}
use spec_cli.Read.Order.Contract.{Rearranges, Perm-length}
use spec_cli.Read.Projection.{project_entity}
use spec_cli.Values.{Fields}

module _ {A : Type 0} where
  take-zero : (xs : List A) → take 0 xs ≡ []
  take-zero xs = refl

  pub take-nil : (n : ℕ) → ◌≡◌ {A = List A} (take n []) []
  take-nil zero = refl
  take-nil (suc n) = refl

  pub take-min :
      (xs : List A) (o l : ℕ) → take (min (o + l) (length xs) - o) (drop o xs) ≡ take l (drop o xs)
  take-min xs o l = elim (dec_le (o + l) (length xs)) [
    | yes h ↦ ap (λ n. take n (drop o xs)) (omega arith)
    | no h ↦
        take_all _ (drop o xs) (omega (arith, length-drop o xs))
        ∙ sym (take_all l (drop o xs) (omega (arith, length-drop o xs)))
  ]

  -- Where the sum of offset and limit fits an int, the page is the limit's worth of entities from
  -- the offset on.
  pub paginate_entities_lem :
      (xs : List A) (o l : ℕ)
      → o + l < int_mod
      → paginate_entities xs o l ≡ done (take l (drop o xs))
  unfolding paginate_entities
  paginate_entities_lem xs o l h = ground (arith, take-min xs o l, drop_all o xs, take-nil l)

module _ {S : Scalars} (plan : QueryPlan S) where
  pub project_page_inv :
      (e : EntityView S) (es : List (EntityView S)) (items : List (Fields S))
      → project_page plan (e ∷ es) ≡ done items
      → (ambiguous_section e.duplicate_section_labels plan.select_sections ≡ none)
        × (rest : List (Fields S)) × (project_page plan es ≡ done rest)
        × (items ≡ project_entity e.view plan.select_tree ∷ rest)
  unfolding project_page
  project_page_inv e es items h =
      elim (Option-cases (ambiguous_section e.duplicate_section_labels plan.select_sections)) [
        | inl a ↦
            let step =
              λ (zs : List (Fields S)). done (project_entity e.view plan.select_tree ∷ zs) in
            let (rest, r, same) =
              >>=-eq-done (project_page plan es) step {b = items} (ground arith) in
            (a, rest, r, ground arith)
        | inr (label, a) ↦ absurd (ground arith)
      ]

  pub project_page-cons :
      (e : EntityView S) (es : List (EntityView S)) (rest : List (Fields S))
      → ambiguous_section e.duplicate_section_labels plan.select_sections ≡ none
      → project_page plan es ≡ done rest
      → project_page plan (e ∷ es) ≡ done (project_entity e.view plan.select_tree ∷ rest)
  unfolding project_page
  project_page-cons e es rest a h = ground arith

  pub project_page-nil : (items : List (Fields S)) → project_page plan [] ≡ done items → items ≡ []
  unfolding project_page
  project_page-nil items h = ground arith

  project_page-take :
      (n : ℕ) (es : List (EntityView S)) (items : List (Fields S))
      → project_page plan es ≡ done items
      → project_page plan (take n es) ≡ done (take n items)
  project_page-take zero es items h = unfold project_page in refl
  project_page-take (suc n) [] items h = rw (project_page-nil items h) (unfold project_page in refl)
  project_page-take (suc n) (e ∷ es) items h =
      let (a, rest, r, same) = project_page_inv e es items h in
      rw same (project_page-cons e (take n es) (take n rest) a (project_page-take n es rest r))

  project_page-drop :
      (n : ℕ) (es : List (EntityView S)) (items : List (Fields S))
      → project_page plan es ≡ done items
      → project_page plan (drop n es) ≡ done (drop n items)
  project_page-drop zero es items h = h
  project_page-drop (suc n) [] items h = rw (project_page-nil items h) (unfold project_page in refl)
  project_page-drop (suc n) (e ∷ es) items h =
      let (a, rest, r, same) = project_page_inv e es items h in
      rw same (project_page-drop n es rest r)

  length-project_page :
      (es : List (EntityView S)) (items : List (Fields S))
      → project_page plan es ≡ done items
      → length items ≡ length es
  length-project_page [] items h = rw (project_page-nil items h)
  length-project_page (e ∷ es) items h =
      let (a, rest, r, same) = project_page_inv e es items h in
      rw same (ap suc (length-project_page es rest r))

module _ {S : Scalars} (plan : QueryPlan S) (entities : List (EntityView S)) (root : RootPlan) where
  abbrev pub answer : List (Fields S) → ℕ → ℕ → RootField S
  answer items matched returned = record {
    entity_type = root.entity_type;
    items = items;
    total_count = matched;
    page_info = page_info plan root matched returned;
  }

  pub execute_root_lem :
      (ms paged : List (EntityView S)) (items : List (Fields S))
      → match_entities plan root.entity_type entities ≡ done ms
      → paginate_entities (sort_entities ms root.effective_sort) root.offset root.limit ≡ done paged
      → project_page plan paged ≡ done items
      → execute_root plan entities root ≡ done (answer items (length ms) (length paged))
  unfolding execute_root
  execute_root_lem ms paged items h k l = rw (h, ◌>>=◌, k, ◌>>=◌, l)

-- A client that asks for the page at an offset, then for the page at its `next_offset`, and so on,
-- and puts the items together. `none`: a page was refused, or the fuel ran out.
module _ {S : Scalars} (plan : QueryPlan S) (entities : List (EntityView S)) (root : RootPlan) where
  abbrev page_at : ℕ → Run (RootField S)
  page_at offset = execute_root plan entities (record root { offset = offset })

  unfoldable pub follow : ℕ → ℕ → Option (List (Fields S))
  follow zero offset = none
  follow (suc fuel) offset = elim (page_at offset) [
    | refused e ↦ none
    | panicked ↦ none
    | done r ↦ elim r.page_info.next_offset [
      | none ↦ some r.items
      | some next ↦ Option.map (λ rest. r.items ++ rest) (follow fuel next)
    ]
  ]

  module _ (ms : List (EntityView S))
      (matched : match_entities plan root.entity_type entities ≡ done ms) (items : List (Fields S))
      (rearranged : Rearranges S (less root.effective_sort) ms)
      (projected : project_page plan (sort_entities ms root.effective_sort) ≡ done items)
      (fits : length ms + root.limit < int_mod) where
    page_at_lem :
        (o : ℕ)
        → o ≤ length ms
        → page_at o
          ≡ done (
              answer plan entities
                (record root { offset = o })
                (take root.limit (drop o items))
                (length ms)
                (length (take root.limit (drop o items))))
    page_at_lem o h =
        let sorted = sort_entities ms root.effective_sort in
        let page = take root.limit (drop o sorted) in
        let cut =
          project_page-take plan root.limit (drop o sorted) (drop o items)
            (project_page-drop plan o sorted items projected) in
        execute_root_lem plan entities (record root { offset = o }) ms page
          (take root.limit (drop o items)) matched
          (paginate_entities_lem sorted o root.limit (omega arith)) cut
        ∙ ap
            (λ n. done (
              answer plan entities (record root { offset = o }) (take root.limit (drop o items))
                (length ms) n))
            (sym (length-project_page plan page (take root.limit (drop o items)) cut))

    length-items : length items ≡ length ms
    length-items =
        length-project_page plan (sort_entities ms root.effective_sort) items projected
        ∙ unfold sort_entities in Perm-length rearranged

    follow_from :
        (fuel o : ℕ)
        → root.limit ≢ 0
        → o ≤ length ms
        → length ms - o < fuel
        → follow fuel o ≡ some (drop o items)
    unfolding follow page_info
    follow_from zero o n h k = absurd (omega arith)
    follow_from (suc fuel) o n h k =
        let page = take root.limit (drop o items) in
        let len : length page ≡ min root.limit (length ms - o) =
          omega (arith, length-take root.limit (drop o items), length-drop o items, length-items) in
        elim (Bool-cases (ltb (o + length page) (length ms))) [
          | inl more ↦
              rw
                (
                  page_at_lem o h,
                  follow,
                  more,
                  follow_from fuel (o + length page) n (omega (arith, ltb→lt _ _ more))
                      (omega (arith, ltb→lt _ _ more)),
                )
                (ap some (
                  rw (← drop-drop (length page) o items)
                    (take-append-rest root.limit (drop o items))))
          | inr last ↦
              rw (page_at_lem o h, follow, last)
                (ap some (
                  take_all root.limit (drop o items)
                    (omega (arith, ltb_false→le _ _ last, length-drop o items, length-items))))
        ]

    -- If the matches can be read and all of them projected, sort.SliceStable only rearranges them, the limit
    -- is not 0, and the number of matches and the limit together fit an int of 64 bits, then following
    -- `next_offset` from the start ends within one request more than there are matches, and has returned
    -- the projections of all matches, each once and in their order.
    pub follow_all : root.limit ≢ 0 → follow (suc (length ms)) 0 ≡ some items
    follow_all n = follow_from (suc (length ms)) 0 n (omega arith) (omega arith)
