-- ===== src/Read/Projection/Laws.antt =====
-- What a projection keeps and what it hides.
use spec_cli.Common.{
  ◌≡◌, refl, sym, ◌∙◌, ap, String, Bool, true, false, Option, none, some, List, [], ◌∷◌,
}
use spec_cli.Common.{
  arith, ◌==◌, string_eq, ◌||◌, any, All, ◌≢◌, Bool-cases, eq_true, or_false, Option-cases, inl,
  inr,
}
use spec_cli.Values.{Scalars, Value, null, object, list, bool, num, time, str, Fields, find, at}
use mathlib.Core.Option.{some-injective}
use spec_cli.Values.Laws.{deep_copy_lem}
use spec_cli.Selectors.{Node, node, Children, child, find_child, new_tree, insert}
use spec_cli.Selectors.Cover.{
  meets, meets_root, meets_inv, meets_of_child, is_prefix, insert_all, meets-insert_all_new,
}
use spec_cli.Read.Projection.{value_or_null, project_value, project_map, project_entity}

module _ {S : Scalars} where
  abbrev projected : Option Node → Option (Value S) → Option (Value S)
  projected none o = none
  projected (some n) o = some (value_or_null o (project_value n))

  find-project_map :
      (k : String) (cs : Children) (fs : Fields S)
      → find k (project_map cs fs) ≡ projected (find_child k cs) (find k fs)
  unfolding find project_value find_child
  find-project_map k Children.end fs = refl
  find-project_map k (child j n cs) fs = elim (Bool-cases (j == k)) [
    | inl same ↦
        rw same (ap (λ i. some (value_or_null (find i fs) (project_value n))) (eq_true j k same))
    | inr differ ↦ rw differ (find-project_map k cs fs)
  ]

  at-object_inv :
      (fs : Fields S) (w : Value S) (k : String) (path : List String)
      → at (object fs) (k ∷ path) ≡ some w
      → (u : Value S) × (find k fs ≡ some u) × (at u path ≡ some w)
  unfolding at
  at-object_inv fs w k path h = elim (Option-cases (find k fs)) [
    | inl e ↦ absurd (ground arith)
    | inr (u, e) ↦ (u, e, ground arith)
  ]

  at_inv :
      (v w : Value S) (k : String) (path : List String)
      → at v (k ∷ path) ≡ some w
      → (fs : Fields S) × (v ≡ object fs)
  unfolding at
  at_inv (object fs) w k path h = (fs, refl)
  at_inv null w k path h = cc
  at_inv (bool b) w k path h = cc
  at_inv (num n) w k path h = cc
  at_inv (time t) w k path h = cc
  at_inv (str s) w k path h = cc
  at_inv (list l) w k path h = cc

  project_value-object :
      (cs : Children) (fs : Fields S)
      → project_value (node false cs) (object fs) ≡ object (project_map cs fs)
  unfolding project_value
  project_value-object cs fs = refl

  project_value-flat :
      (cs : Children) (v w : Value S) (k : String) (path : List String)
      → at (project_value (node false cs) v) (k ∷ path) ≡ some w
      → (fs : Fields S) × (v ≡ object fs)
  unfolding project_value at
  project_value-flat cs (object fs) w k path h = (fs, refl)
  project_value-flat cs null w k path h = cc
  project_value-flat cs (bool b) w k path h = cc
  project_value-flat cs (num n) w k path h = cc
  project_value-flat cs (time t) w k path h = cc
  project_value-flat cs (str s) w k path h = cc
  project_value-flat cs (list l) w k path h = cc

  at-object :
      (fs : Fields S) (k : String) (path : List String) (u : Value S)
      → find k fs ≡ some u
      → at (object fs) (k ∷ path) ≡ at u path
  unfolding at
  at-object fs k path u h = ground arith

  at-null : (path : List String) (w : Value S) → at null path ≡ some w → path ≡ []
  unfolding at
  at-null [] w h = refl
  at-null (k ∷ path) w h = cc

  -- A path that the tree covers has the same value after the projection.
  pub at-project_value :
      (path : List String) (t : Node) (v w : Value S)
      → meets false t path ≡ true
      → at v path ≡ some w
      → at (project_value t v) path ≡ some w
  at-project_value path (node true cs) v w c h = unfold project_value in rw (deep_copy_lem, h)
  at-project_value [] (node false cs) v w c h = unfold meets in cc
  at-project_value (k ∷ path) (node false cs) v w c h =
      let (n, found, under) = meets_inv false cs k path c in
      let (fs, shape) = at_inv v w k path h in
      let (u, has_u, at_u) = at-object_inv fs w k path (rw (← shape) h) in
      rw (shape, project_value-object)
        (at-object _ k path (project_value n u) (rw (find-project_map, found, has_u))
          ∙ at-project_value path n u w under at_u)

  projected_inv :
      (o : Option Node) (s : Option (Value S)) (u : Value S)
      → projected o s ≡ some u
      → (n : Node) × (o ≡ some n) × (value_or_null s (project_value n) ≡ u)
  projected_inv none s u h = cc
  projected_inv (some n) s u h = (n, refl, some-injective _ _ h)

  meets_of_source :
      (n : Node) (path : List String) (s : Option (Value S)) (u w : Value S)
      → value_or_null s (project_value n) ≡ u
      → at u path ≡ some w
      → ((x : Value S) → at (project_value n x) path ≡ some w → meets true n path ≡ true)
      → meets true n path ≡ true
  meets_of_source n path none u w e a rec = rw (at-null path w (rw e a)) (meets_root n)
  meets_of_source n path (some x) u w e a rec = rec x (rw e a)

  -- A path that has a value after the projection lies at, below or above a selected node.
  pub meets_of_at-project_value :
      (path : List String) (t : Node) (v w : Value S)
      → at (project_value t v) path ≡ some w
      → meets true t path ≡ true
  meets_of_at-project_value path (node true cs) v w h = unfold meets in refl
  meets_of_at-project_value [] (node false cs) v w h = unfold meets in refl
  meets_of_at-project_value (k ∷ path) (node false cs) v w h =
      let (fs, shape) = project_value-flat cs v w k path h in
      let (u, has_u, at_u) =
        at-object_inv (project_map cs fs) w k path (rw (← project_value-object cs fs, ← shape) h) in
      let (n, found, is_u) =
        projected_inv (find_child k cs) (find k fs) u (sym (find-project_map k cs fs) ∙ has_u) in
      meets_of_child true cs k path n found (
        meets_of_source n path (find k fs) u w is_u at_u
          (λ x e. meets_of_at-project_value path n x w e))

  project_entity-value :
      (cs : Children) (entity : Fields S)
      → object (project_entity entity (node false cs))
        ≡ project_value (node false cs) (object entity)
  unfolding project_entity project_value
  project_entity-value cs entity = refl

any-or_false :
    (p : List String → Bool) (ss : List (List String)) → any (λ s. p s || false) ss ≡ any p ss
any-or_false p [] = refl
any-or_false p (s ∷ ss) = rw (or_false, any-or_false p ss)

insert-inner :
    (cs : Children) (s : List String)
    → (cs' : Children) × (insert (node false cs) s ≡ node false cs')
unfolding insert
insert-inner cs [] = (cs, refl)
insert-inner cs (p ∷ []) = (_, refl)
insert-inner cs (p ∷ q ∷ s) = (_, refl)

insert_all-inner :
    (ss : List (List String)) (cs : Children)
    → (cs' : Children) × (insert_all (node false cs) ss ≡ node false cs')
unfolding insert_all
insert_all-inner [] cs = (cs, refl)
insert_all-inner (s ∷ ss) cs =
    let (cs₁, e) = insert-inner cs s in let (cs₂, e') = insert_all-inner ss cs₁ in (cs₂, rw e e')

-- The map of an entity cut down by the tree of the given selectors.
abbrev pub selected : {S : Scalars} → List (List String) → Fields S → Value S
selected ss entity = object (project_entity entity (insert_all new_tree ss))

selected-project_value :
    {S : Scalars} (ss : List (List String)) (entity : Fields S)
    → selected ss entity ≡ project_value (insert_all new_tree ss) (object entity)
selected-project_value ss entity =
    let (cs, e) = insert_all-inner ss Children.end in rw e (project_entity-value cs entity)

module _ {S : Scalars} (ss : List (List String)) (h : All (λ s. s ≢ []) ss) where
  pub at-selected :
      (entity : Fields S) (key : String) (path : List String) (w : Value S)
      → any (λ s. is_prefix s (key ∷ path)) ss ≡ true
      → at (object entity) (key ∷ path) ≡ some w
      → at (selected ss entity) (key ∷ path) ≡ some w
  at-selected entity key path w covered e = rw selected-project_value (
      at-project_value (key ∷ path) (insert_all new_tree ss) (object entity) w
        (meets-insert_all_new false ss key path h ∙ any-or_false _ ss ∙ covered) e)

  pub overlaps_of_at-selected :
      (entity : Fields S) (key : String) (path : List String) (w : Value S)
      → at (selected ss entity) (key ∷ path) ≡ some w
      → any (λ s. is_prefix s (key ∷ path) || is_prefix (key ∷ path) s) ss ≡ true
  overlaps_of_at-selected entity key path w e =
      sym (meets-insert_all_new true ss key path h)
      ∙ meets_of_at-project_value (key ∷ path) (insert_all new_tree ss) (object entity) w
          (rw (← selected-project_value ss entity) e)
