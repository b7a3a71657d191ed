-- ===== src/Selectors/Cover.antt =====
-- What a selector tree selects, told by the selectors alone.
use spec_cli.Common.{◌≡◌, refl, ◌≢◌, String, Bool, true, false, Option, none, some, List, [], ◌∷◌}
use spec_cli.Common.{arith, ◌&&◌, ◌||◌, ◌==◌, string_eq, if◌then◌else◌, any, All, Option-cases}
use spec_cli.Common.{
  Bool-cases, eq_true, eq_self, eq_false_comm, or_idle, or_assoc, or_false, sym, ◌∙◌, subst, inl,
  inr,
}
use spec_cli.Selectors.{Node, Children, node, end, child, new_tree, find_child, put_child}
use spec_cli.Selectors.{child_or_new, insert}

unfoldable pub is_prefix : List String → List String → Bool
is_prefix [] path = true
is_prefix (p ∷ ps) [] = false
is_prefix (p ∷ ps) (q ∷ path) = let rest = is_prefix ps path in if p == q then rest else false

-- The tree that `Insert` builds from a list of selectors, in their order.
unfoldable pub insert_all : Node → List (List String) → Node
insert_all tree [] = tree
insert_all tree (s ∷ ss) = insert_all (insert tree s) ss

find-put :
    (j k : String) (n : Node) (cs : Children)
    → find_child j (put_child k n cs) ≡ (if k == j then some n else find_child j cs)
unfolding find_child put_child
find-put j k n end = refl
find-put j k n (child i m cs) = ground (arith, find-put j k n cs)

is_prefix-cons :
    (p q : String) (s path : List String)
    → is_prefix (p ∷ s) (q ∷ path) ≡ (if p == q then is_prefix s path else false)
unfolding is_prefix
is_prefix-cons p q s path = refl

-- With `inner` false a path meets the tree if it lies at or below a terminal node; with `inner` true
-- also if it lies above one.
module _ (inner : Bool) where
  unfoldable pub meets : Node → List String → Bool
  meets (node true cs) path = true
  meets (node false cs) [] = inner
  meets (node false cs) (part ∷ path) = elim (find_child part cs) [
    | none ↦ false
    | some n ↦ meets n path
  ]

  abbrev pub overlaps : List String → List String → Bool
  overlaps selector path = is_prefix selector path || (inner && is_prefix path selector)

  abbrev below : Option Node → List String → Bool
  below none path = false
  below (some n) path = meets n path

  meets-node :
      (cs : Children) (p : String) (path : List String)
      → meets (node false cs) (p ∷ path) ≡ below (find_child p cs) path
  unfolding meets
  meets-node cs p path = below-elim (find_child p cs)
    where
      below-elim :
          (o : Option Node)
          → elim o as (λ _. Bool) [ none ↦ false | some n ↦ meets n path ] ≡ below o path
      below-elim none = refl
      below-elim (some n) = refl

  below-child_or_new :
      (o : Option Node) (s path : List String)
      → (meets (child_or_new o) path || overlaps s path) ≡ (below o path || overlaps s path)
  unfolding meets find_child is_prefix
  below-child_or_new none s [] = ground arith
  below-child_or_new none s (p ∷ path) = refl
  below-child_or_new (some n) s path = refl

  below-put :
      (p q : String) (n : Node) (cs : Children) (path : List String)
      → below (find_child q (put_child p n cs)) path
        ≡ (if p == q then meets n path else below (find_child q cs) path)
  below-put p q n cs path =
      rw find-put
        (elim (p == q)
          as (λ b.
            below (if b then some n else find_child q cs) path
            ≡ (if b then meets n path else below (find_child q cs) path)) [
              | true ↦ refl
              | false ↦ refl
            ])

  meets-put :
      (p q : String) (s path : List String) (deeper : Node) (cs : Children)
      → meets deeper path ≡ (below (find_child p cs) path || overlaps s path)
      → meets (node false (put_child p deeper cs)) (q ∷ path)
        ≡ (meets (node false cs) (q ∷ path) || overlaps (p ∷ s) (q ∷ path))
  meets-put p q s path deeper cs ih = elim (Bool-cases (p == q)) [
    | inl same ↦
        let e = eq_true p q same in
        rw (meets-node, meets-node, below-put, is_prefix-cons, is_prefix-cons, same)
          (subst
            (λ k. meets deeper path ≡ (
              below (find_child k cs) path
              || (is_prefix s path || (inner && (if k == p then is_prefix path s else false)))))
            e (rw eq_self ih))
    | inr differ ↦
        rw
          (
            meets-node,
            meets-node,
            below-put,
            is_prefix-cons,
            is_prefix-cons,
            differ,
            eq_false_comm p q differ,
          )
          (or_idle (below (find_child q cs) path) inner)
  ]

  -- Inserting a selector adds what it overlaps, and takes nothing away.
  pub meets-insert :
      (tree : Node) (selector path : List String)
      → selector ≢ []
      → meets (insert tree selector) path ≡ (meets tree path || overlaps selector path)
  unfolding insert meets
  meets-insert (node true cs) s path h = refl
  meets-insert (node false cs) [] path h = absurd (h refl)
  meets-insert (node false cs) (p ∷ []) [] h = unfold is_prefix in ground arith
  meets-insert (node false cs) (p ∷ []) (q ∷ path) h =
      meets-put p q [] path (node true end) cs (unfold is_prefix in ground arith)
  meets-insert (node false cs) (p ∷ r ∷ s) [] h = unfold is_prefix in ground arith
  meets-insert (node false cs) (p ∷ r ∷ s) (q ∷ path) h =
      let t = child_or_new (find_child p cs) in
      meets-put p q (r ∷ s) path (insert t (r ∷ s)) cs
        (meets-insert t (r ∷ s) path (λ e. cc) ∙ below-child_or_new (find_child p cs) (r ∷ s) path)

  pub meets-insert_all :
      (ss : List (List String)) (tree : Node) (path : List String)
      → All (λ s. s ≢ []) ss
      → meets (insert_all tree ss) path ≡ (meets tree path || any (λ s. overlaps s path) ss)
  unfolding insert_all
  meets-insert_all [] tree path h = sym (or_false _)
  meets-insert_all (s ∷ ss) tree path (p, h) =
      rw (meets-insert_all ss (insert tree s) path h, meets-insert tree s path p)
        (or_assoc (meets tree path) (overlaps s path) (any (λ t. overlaps t path) ss))

  pub meets_inv :
      (cs : Children) (k : String) (path : List String)
      → meets (node false cs) (k ∷ path) ≡ true
      → (n : Node) × (find_child k cs ≡ some n) × (meets n path ≡ true)
  unfolding meets
  meets_inv cs k path h = elim (Option-cases (find_child k cs)) [
    | inl e ↦ absurd (ground arith)
    | inr (n, e) ↦ (n, e, ground arith)
  ]

  pub meets_of_child :
      (cs : Children) (k : String) (path : List String) (n : Node)
      → find_child k cs ≡ some n
      → meets n path ≡ true
      → meets (node false cs) (k ∷ path) ≡ true
  meets_of_child cs k path n e h = rw (meets-node, e) h

  -- A tree built from non-empty selectors meets a non-empty path exactly when some selector
  -- overlaps it: neither the order of the selectors nor an overlap between them matters.
  pub meets-insert_all_new :
      (ss : List (List String)) (key : String) (path : List String)
      → All (λ s. s ≢ []) ss
      → meets (insert_all new_tree ss) (key ∷ path) ≡ any (λ s. overlaps s (key ∷ path)) ss
  meets-insert_all_new ss key path h =
      meets-insert_all ss new_tree (key ∷ path) h ∙ unfold meets find_child in refl

pub meets_root : (t : Node) → meets true t [] ≡ true
unfolding meets
meets_root (node true cs) = refl
meets_root (node false cs) = refl
