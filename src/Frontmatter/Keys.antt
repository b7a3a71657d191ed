-- ===== src/Frontmatter/Keys.antt =====
-- internal/application/yamlnodes/nodes.go: no duplicate is found exactly if every mapping has distinct keys.
use spec_cli.Common.{
  ℕ, ◌+◌, String, ◌≡◌, refl, Bool, true, false, Option, none, some, List, [], ◌∷◌, ◌↔◌,
}
use spec_cli.Common.{string_eq, if◌then◌else◌}
use spec_cli.Common.Dict.{contains}
use spec_cli.Frontmatter.{
  document, mapping, sequence, other, Node, node, Nodes, no_nodes, and_node, DuplicateKey, join_dot,
  or_else, item_path, find_duplicate, in_children, in_pairs, in_items,
}

-- Every mapping in the node has distinct keys; a key without a value does not count.
abbrev mutual
  pub Apart : Node → Type 0
  Apart (node document v ns) = AllApart ns
  Apart (node mapping v ns) = KeysApart ns []
  Apart (node sequence v ns) = AllApart ns
  Apart (node other v ns) = Unit {0}

  pub AllApart : Nodes → Type 0
  AllApart no_nodes = Unit {0}
  AllApart (and_node n ns) = Apart n × AllApart ns

  pub KeysApart : Nodes → List String → Type 0
  KeysApart no_nodes seen = Unit {0}
  KeysApart (and_node k no_nodes) seen = Unit {0}
  KeysApart (and_node (node _ key _) (and_node n ns)) seen =
      (contains seen key ≡ false) × (Apart n × KeysApart ns (key ∷ seen))

or_else-none_iff :
    {A B : Type 0} (one rest : Option DuplicateKey)
    → (one ≡ none) ↔ A
    → (rest ≡ none) ↔ B
    → (or_else one rest ≡ none) ↔ (A × B)
or_else-none_iff none rest (f, g) (h, k) = (λ e. (f refl, h e), λ (a, b). k b)
or_else-none_iff (some d) rest (f, g) (h, k) = (λ e. cc, λ (a, b). absurd (some_not_none (g a)))
  where
    some_not_none : some d ≡ none → ⊥
    some_not_none e = cc

if_found_iff :
    {A : Type 0} (b : Bool) (d : DuplicateKey) (rest : Option DuplicateKey)
    → (rest ≡ none) ↔ A
    → ((if b then some d else rest) ≡ none) ↔ ((b ≡ false) × A)
if_found_iff true d rest (f, g) = (λ e. cc, λ (e, _). cc)
if_found_iff false d rest (f, g) = (λ e. (refl, f e), λ (_, a). g a)

mutual
  unfolding find_duplicate in_children in_pairs in_items

  in_node-none_iff : (n : Node) (path : String) → (find_duplicate n path ≡ none) ↔ Apart n
  in_node-none_iff (node document v ns) path = in_children-none_iff ns path
  in_node-none_iff (node mapping v ns) path = in_pairs-none_iff ns path []
  in_node-none_iff (node sequence v ns) path = in_items-none_iff ns path 0
  in_node-none_iff (node other v ns) path = (λ _. tt, λ _. refl)

  in_children-none_iff : (ns : Nodes) (path : String) → (in_children ns path ≡ none) ↔ AllApart ns
  in_children-none_iff no_nodes path = (λ _. tt, λ _. refl)
  in_children-none_iff (and_node n ns) path =
      or_else-none_iff (find_duplicate n path) (in_children ns path) (in_node-none_iff n path)
        (in_children-none_iff ns path)

  in_pairs-none_iff :
      (ns : Nodes) (path : String) (seen : List String)
      → (in_pairs ns path seen ≡ none) ↔ KeysApart ns seen
  in_pairs-none_iff no_nodes path seen = (λ _. tt, λ _. refl)
  in_pairs-none_iff (and_node (node _ _ _) no_nodes) path seen = (λ _. tt, λ _. refl)
  in_pairs-none_iff (and_node (node _ key _) (and_node n ns)) path seen =
      if_found_iff (contains seen key) _ _ (
        or_else-none_iff (find_duplicate n (join_dot path key)) (in_pairs ns path (key ∷ seen))
          (in_node-none_iff n (join_dot path key)) (in_pairs-none_iff ns path (key ∷ seen)))

  in_items-none_iff :
      (ns : Nodes) (path : String) (i : ℕ) → (in_items ns path i ≡ none) ↔ AllApart ns
  in_items-none_iff no_nodes path i = (λ _. tt, λ _. refl)
  in_items-none_iff (and_node n ns) path i =
      or_else-none_iff (find_duplicate n (item_path path i)) (in_items ns path (i + 1))
        (in_node-none_iff n (item_path path i)) (in_items-none_iff ns path (i + 1))

-- No duplicate key is found in a node exactly if the keys of every mapping in it are distinct.
pub find_duplicate-none_iff : (n : Node) (path : String) → (find_duplicate n path ≡ none) ↔ Apart n
find_duplicate-none_iff n path = in_node-none_iff n path
