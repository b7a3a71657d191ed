-- ===== src/Read/Execute/Overflow.antt =====
-- internal/application/readmodel/engine/execute.go: when the end of a page does not fit an int.
use spec_cli.Common.{
  ◌+◌, ◌≤◌, ◌<◌, ◌≡◌, ◌≢◌, ◌↔◌, ◌⊎◌, inl, inr, refl, sym, ◌∙◌, ap, ℕ, String, true, Option, none,
  some, List, [], ◌∷◌, length, arith, all, Bool-cases, Option-cases,
}
use spec_cli.Common.{◌==◌, string_eq, nat_eq}
use spec_cli.Errors.{AppError}
use spec_cli.Values.{Scalars}
use spec_cli.Read.Order.{EntityView, sort_entities, less}
use spec_cli.Read.Order.Contract.{Rearranges, Perm-length}
use spec_cli.Read.Execute.{
  Run, done, refused, panicked, ◌>>=◌, WherePlan, QueryPlan, RootPlan, ambiguous_section, keeps,
  match_entities, project_page, paginate_entities, int_mod, execute_root, RootField,
}
use spec_cli.Read.Execute.Paging.{answer}
use spec_cli.Read.Execute.Answer.{
  matched, readable, match_entities-done, match_entities_of_readable,
}

>>=-panicked :
    {A B : Type 0} (r : Run A) (f : A → Run B)
    → (r >>= f) ≡ panicked
    → r ≢ panicked
    → (a : A) × (r ≡ done a) × (f a ≡ panicked)
>>=-panicked (done a) f h n = (a, refl, h)
>>=-panicked (refused e) f h n = cc
>>=-panicked panicked f h n = absurd (n refl)

Run-cases :
    {A : Type 0} (r : Run A)
    → ((a : A) × (r ≡ done a)) ⊎ ((e : AppError) × (r ≡ refused e)) ⊎ (r ≡ panicked)
Run-cases (done a) = inl (a, refl)
Run-cases (refused e) = inr (inl (e, refl))
Run-cases panicked = inr (inr refl)

>>=-not_panicked :
    {A B : Type 0} (r : Run A) (f : A → Run B)
    → r ≢ panicked
    → ((a : A) → f a ≢ panicked)
    → (r >>= f) ≢ panicked
>>=-not_panicked (done a) f n m = m a
>>=-not_panicked (refused e) f n m = λ h. cc
>>=-not_panicked panicked f n m = λ h. n refl

done_not_panicked : {A : Type 0} (a : A) → done a ≢ panicked
done_not_panicked a h = cc

refused_not_panicked : {A : Type 0} (e : AppError) → ◌≢◌ {A = Run A} (refused e) panicked
refused_not_panicked e h = cc

module _ {S : Scalars} (plan : QueryPlan S) where
  keeps-not_panicked : (w : Option (WherePlan S)) (e : EntityView S) → keeps plan w e ≢ panicked
  unfolding keeps
  keeps-not_panicked none e h = cc
  keeps-not_panicked (some w) e h = ground arith

  match_entities-not_panicked :
      (root : String) (es : List (EntityView S)) → match_entities plan root es ≢ panicked
  unfolding match_entities
  match_entities-not_panicked root [] = done_not_panicked []
  match_entities-not_panicked root (e ∷ es) =
      let rest = match_entities-not_panicked root es in
      elim (Bool-cases (e.type_name == root)) [
        | inr differ ↦ rw differ rest
        | inl same ↦
            elim (Option-cases (ambiguous_section e.duplicate_section_labels plan.where_sections)) [
              | inr (label, a) ↦ rw (same, a) (refused_not_panicked _)
              | inl a ↦
                  rw (same, a)
                    (>>=-not_panicked (keeps plan plan.where_plan e) _
                      (keeps-not_panicked plan.where_plan e)
                      λ kept. elim (Bool-cases kept) [
                        | inl k ↦ rw k (
                            >>=-not_panicked (match_entities plan root es) _ rest
                              λ ms. done_not_panicked (e ∷ ms))
                        | inr k ↦ rw k rest
                      ])
            ]
      ]

  project_page-not_panicked : (es : List (EntityView S)) → project_page plan es ≢ panicked
  unfolding project_page
  project_page-not_panicked [] = done_not_panicked []
  project_page-not_panicked (e ∷ es) =
      elim (Option-cases (ambiguous_section e.duplicate_section_labels plan.select_sections)) [
        | inr (label, a) ↦ rw (project_page, a) (refused_not_panicked _)
        | inl a ↦
            rw (project_page, a)
              (>>=-not_panicked (project_page plan es) _ (project_page-not_panicked es)
                λ items. done_not_panicked _)
      ]

paginate_entities-panicked :
    {A : Type 0} (xs : List A) (o l : ℕ)
    → paginate_entities xs o l ≡ panicked
    → (l ≢ 0) × (o < length xs) × (int_mod ≤ o + l)
unfolding paginate_entities
paginate_entities-panicked xs o l h = (ground arith, ground arith, ground arith)

paginate_entities_overflow :
    {A : Type 0} (xs : List A) (o l : ℕ)
    → l ≢ 0
    → o < length xs
    → int_mod ≤ o + l
    → paginate_entities xs o l ≡ panicked
unfolding paginate_entities
paginate_entities_overflow xs o l n h k = ground arith

module _ {S : Scalars} (plan : QueryPlan S) (entities : List (EntityView S)) (root : RootPlan) where
  after_page : List (EntityView S) → List (EntityView S) → Run (RootField S)
  after_page ms paged = project_page plan paged >>= λ items.
      done (answer plan entities root items (length ms) (length paged))

  after_match : List (EntityView S) → Run (RootField S)
  after_match ms =
      paginate_entities (sort_entities ms root.effective_sort) root.offset root.limit
      >>= after_page ms

  after_page-not_panicked : (ms paged : List (EntityView S)) → after_page ms paged ≢ panicked
  unfolding after_page
  after_page-not_panicked ms paged =
      >>=-not_panicked (project_page plan paged) _ (project_page-not_panicked plan paged)
        λ items. done_not_panicked _

  after_match-panicked :
      (ms : List (EntityView S))
      → after_match ms ≡ panicked
      → paginate_entities (sort_entities ms root.effective_sort) root.offset root.limit ≡ panicked
  unfolding after_match
  after_match-panicked ms h =
      elim (Run-cases
        (paginate_entities (sort_entities ms root.effective_sort) root.offset root.limit)) [
          | inl (paged, p) ↦
              absurd (after_page-not_panicked ms paged (sym (ap (λ r. r >>= after_page ms) p) ∙ h))
          | inr (inl (e, p)) ↦
              absurd (refused_not_panicked e (sym (ap (λ r. r >>= after_page ms) p) ∙ h))
          | inr (inr p) ↦ p
        ]

  -- If sort.SliceStable only rearranges the matches, a root is a panic exactly if every entity of its type can be
  -- filtered and repeats no section that the filter reads, the limit is not 0, there is a match at the offset, and
  -- the sum of offset and limit does not fit an int of 64 bits.
  pub execute_root-panicked_iff :
      Rearranges S (less root.effective_sort) (matched plan entities root)
      → (execute_root plan entities root ≡ panicked) ↔ (
          (all (readable plan root.entity_type) entities ≡ true)
          × (root.limit ≢ 0)
          × (root.offset < length (matched plan entities root))
          × (int_mod ≤ root.offset + root.limit))
  unfolding execute_root sort_entities after_match after_page
  execute_root-panicked_iff rearranged = (
    λ h.
        let (ms, m, k) =
          >>=-panicked (match_entities plan root.entity_type entities) after_match h
            (match_entities-not_panicked plan root.entity_type entities) in
        let (readables, is_ms) = match_entities-done plan root.entity_type entities ms m in
        let (limited, below, over) =
          paginate_entities-panicked (sort_entities ms root.effective_sort) root.offset root.limit
            (after_match-panicked ms k) in
        let same =
          ap (λ l. length (sort_entities l root.effective_sort)) is_ms ∙ Perm-length rearranged in
        (readables, limited, omega (arith, same), over),
    λ (readables, limited, below, over).
        let sorted = sort_entities (matched plan entities root) root.effective_sort in
        rw (
          match_entities_of_readable plan root.entity_type entities readables,
          ◌>>=◌,
          paginate_entities_overflow sorted root.offset root.limit limited
              (omega (arith, Perm-length rearranged)) over,
        ),
  )
