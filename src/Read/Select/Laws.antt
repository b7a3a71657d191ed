-- ===== src/Read/Select/Laws.antt =====
-- Which selectors are accepted, and what an accepted set of them returns.
use spec_cli.Common.{String, ◌<>◌, ◌≡◌, ◌≢◌, ◌↔◌, ap, Bool, true, false, ◌||◌, some, List}
use spec_cli.Common.{[], ◌∷◌, map, arith, any, All, string_eq}
use spec_cli.Common.Dict.{has}
use spec_cli.Common.Text.{trim_space, split_on}
use spec_cli.Errors.{ok}
use spec_cli.Values.{Scalars, Value, object, Fields, at}
use spec_cli.Selectors.{Node, new_tree, insert}
use spec_cli.Selectors.Cover.{is_prefix, insert_all}
use spec_cli.Read.Projection.{project_entity}
use spec_cli.Read.Projection.Laws.{selected, at-selected, overlaps_of_at-selected}
use spec_cli.Read.Capability.{Capability, entity_type, has_ref_field}
use spec_cli.Read.Select.{meta_selector, select_tree_from, build_select_tree, split_dots}
use Prim.Native.String.{[] as empty, ◌∷◌ as cons_char}
use Prim.Native.Nat.{ℕ}

-- The parts of the selectors that a request gives.
abbrev pub parts_of : List String → List (List String)
parts_of = map (λ s. split_dots (trim_space s))

abbrev pub declares_meta : Capability → String → String → Bool
declares_meta capability field t = has field (entity_type capability t).meta_fields

-- The loop over the types ends well exactly when no active type declares the field as a reference
-- and some active type declares it as a meta field.
meta_selector_from :
    (capability : Capability) (s field : String) (active : List String) (seen : Bool)
    → (meta_selector capability s field active seen ≡ ok tt) ↔ (
        (has_ref_field field capability active ≡ false)
        × ((seen || any (declares_meta capability field) active) ≡ true))
unfolding meta_selector has_ref_field
meta_selector_from capability s field [] true = ground arith
meta_selector_from capability s field [] false = ground arith
meta_selector_from capability s field (t ∷ ts) seen = ground (
  arith,
  meta_selector_from capability s field ts true,
  meta_selector_from capability s field ts seen,
)

split_on-ne-nil : (sep : ℕ) (cur s : String) → split_on sep cur s ≢ []
unfolding split_on
split_on-ne-nil sep cur empty h = cc
split_on-ne-nil sep cur (cons_char c s) h =
    ground (arith, split_on-ne-nil sep (cur <> cons_char c empty) s)

parts_of-All : (ss : List String) → All (λ s. s ≢ []) (parts_of ss)
unfolding split_dots
parts_of-All [] = tt
parts_of-All (s ∷ ss) = (split_on-ne-nil b'.' "" (trim_space s), parts_of-All ss)

select_tree_from-ok :
    (capability : Capability) (active ss : List String) (t tree : Node)
    → select_tree_from capability active t ss ≡ ok tree
    → tree ≡ insert_all t (parts_of ss)
unfolding select_tree_from insert_all
select_tree_from-ok capability active [] t tree h = ground arith
select_tree_from-ok capability active (s ∷ ss) t tree h =
    select_tree_from-ok capability active ss (insert t (split_dots (trim_space s))) tree
      (ground arith)

-- A selector meta.<field> is accepted exactly when some active type declares the field as a meta
-- field and no active type declares it as a reference.
pub meta_selector_iff :
    (capability : Capability) (s field : String) (active : List String)
    → (meta_selector capability s field active false ≡ ok tt) ↔ (
        (has_ref_field field capability active ≡ false)
        × (any (declares_meta capability field) active ≡ true))
meta_selector_iff capability s field active = meta_selector_from capability s field active false

module _ {S : Scalars} (capability : Capability) (active selects : List String) (tree : Node)
    (built : build_select_tree capability active selects ≡ ok tree) (entity : Fields S) where
  tree_of_selects : tree ≡ insert_all new_tree (parts_of selects)
  tree_of_selects =
      select_tree_from-ok capability active selects new_tree tree
        (unfold build_select_tree in built)

  selected-tree : object (project_entity entity tree) ≡ selected (parts_of selects) entity
  selected-tree = ap (λ t. object (project_entity entity t)) tree_of_selects

  -- Whenever a request's selectors are accepted, a path at or below one of them that has a value in the
  -- entity has the same value in the returned one, whatever the order and overlap of the selectors.
  pub project_entity-keeps :
      (key : String) (path : List String) (w : Value S)
      → any (λ s. is_prefix s (key ∷ path)) (parts_of selects) ≡ true
      → at (object entity) (key ∷ path) ≡ some w
      → at (object (project_entity entity tree)) (key ∷ path) ≡ some w
  project_entity-keeps key path w covered e =
      rw selected-tree
        (at-selected (parts_of selects) (parts_of-All selects) entity key path w covered e)

  -- Whenever a request's selectors are accepted, a path with a value in the returned entity lies at,
  -- below or above one of them: nothing else is returned.
  pub project_entity-hides :
      (key : String) (path : List String) (w : Value S)
      → at (object (project_entity entity tree)) (key ∷ path) ≡ some w
      → any (λ s. is_prefix s (key ∷ path) || is_prefix (key ∷ path) s) (parts_of selects) ≡ true
  project_entity-hides key path w e =
      overlaps_of_at-selected (parts_of selects) (parts_of-All selects) entity key path w
        (rw (← selected-tree) e)
