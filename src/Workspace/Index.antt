-- ===== src/Workspace/Index.antt =====
-- The indexes of the workspace: an entity that is added is found under its key, behind those that were there.
use spec_cli.Common.{
  String, ◌≡◌, refl, sym, ◌∙◌, ap, Bool, List, [], ◌∷◌, ◌++◌, select, Bool-cases, inl, inr,
}
use spec_cli.Common.{◌==◌, ◌&&◌, string_eq, if◌then◌else◌, eq_true}
use spec_cli.Common.Dict.{Dict, lookup, lookup-insert}
use spec_cli.Values.{Scalars}
use spec_cli.Write.{WorkspaceEntity}
use spec_cli.Workspace.{indexed, add_to, of_type, add_slug}

pub select-snoc {ℓ} :
    {A : Type ℓ} (p : A → Bool) (xs : List A) (x : A)
    → select p (xs ++ x ∷ []) ≡ (if p x then select p xs ++ x ∷ [] else select p xs)
unfolding select
select-snoc p [] x = elim (Bool-cases (p x)) [ inl h ↦ rw h refl | inr h ↦ rw h refl ]
select-snoc p (y ∷ ys) x = elim (Bool-cases (p y)) [
  | inl k ↦ elim (Bool-cases (p x)) [
    | inl h ↦ rw (k, h) (ap (λ rest. y ∷ rest) (select-snoc p ys x ∙ rw h refl))
    | inr h ↦ rw (k, h) (ap (λ rest. y ∷ rest) (select-snoc p ys x ∙ rw h refl))
  ]
  | inr k ↦ rw k (select-snoc p ys x)
]

module _ {S : Scalars} where
  -- The entities under a key are those of the list that have the key, in their order.
  abbrev pub Indexes :
      (WorkspaceEntity S → String)
      → List (WorkspaceEntity S)
      → Dict (List (WorkspaceEntity S))
      → Type 0
  Indexes key es d = (k : String) → indexed (lookup k d) ≡ select (λ e. key e == k) es

  lookup-add_to :
      (j k : String) (e : WorkspaceEntity S) (d : Dict (List (WorkspaceEntity S)))
      → indexed (lookup j (add_to k e d))
        ≡ (if k == j then indexed (lookup j d) ++ e ∷ [] else indexed (lookup j d))
  unfolding add_to
  lookup-add_to j k e d = elim (Bool-cases (k == j)) [
    | inl h ↦ rw (lookup-insert, h) (ap (λ i. indexed (lookup i d) ++ e ∷ []) (eq_true k j h))
    | inr h ↦ rw (lookup-insert, h) refl
  ]

  pub add_to-Indexes :
      (key : WorkspaceEntity S → String) (e : WorkspaceEntity S) (es : List (WorkspaceEntity S))
      (d : Dict (List (WorkspaceEntity S)))
      → Indexes key es d
      → Indexes key (es ++ e ∷ []) (add_to (key e) e d)
  add_to-Indexes key e es d h j =
      lookup-add_to j (key e) e d
      ∙ ap (λ xs. if key e == j then xs ++ e ∷ [] else xs) (h j)
      ∙ sym (select-snoc (λ x. key x == j) es e)

  -- The entities of a type and a slug are those of the list, in their order.
  abbrev pub IndexesSlugs :
      List (WorkspaceEntity S) → Dict (Dict (List (WorkspaceEntity S))) → Type 0
  IndexesSlugs es d =
      (t slug : String)
      → indexed (lookup slug (of_type (lookup t d)))
        ≡ select (λ e. e.type_name == t && e.slug == slug) es

  lookup-add_slug :
      (t slug : String) (e : WorkspaceEntity S) (d : Dict (Dict (List (WorkspaceEntity S))))
      → indexed (lookup slug (of_type (lookup t (add_slug e d)))) ≡ (
          if e.type_name == t && e.slug == slug
          then indexed (lookup slug (of_type (lookup t d))) ++ e ∷ []
          else indexed (lookup slug (of_type (lookup t d))))
  unfolding add_slug
  lookup-add_slug t slug e d = elim (Bool-cases (e.type_name == t)) [
    | inl h ↦
        rw (lookup-insert, h)
          (lookup-add_to slug e.slug e (of_type (lookup e.type_name d))
            ∙ ap
                (λ i.
                  if e.slug == slug
                  then indexed (lookup slug (of_type (lookup i d))) ++ e ∷ []
                  else indexed (lookup slug (of_type (lookup i d))))
                (eq_true e.type_name t h))
    | inr h ↦ rw (lookup-insert, h) refl
  ]

  pub add_slug-IndexesSlugs :
      (e : WorkspaceEntity S) (es : List (WorkspaceEntity S))
      (d : Dict (Dict (List (WorkspaceEntity S))))
      → IndexesSlugs es d
      → IndexesSlugs (es ++ e ∷ []) (add_slug e d)
  add_slug-IndexesSlugs e es d h t slug =
      lookup-add_slug t slug e d
      ∙ ap (λ xs. if e.type_name == t && e.slug == slug then xs ++ e ∷ [] else xs) (h t slug)
      ∙ sym (select-snoc (λ x. x.type_name == t && x.slug == slug) es e)
