-- ===== src/Selectors.antt =====
-- internal/application/selectors/selectors.go: the tree that a set of dotted selectors builds.
pub mod Cover
use spec_cli.Common.{String, Bool, true, false, Option, none, some, List, [], ◌∷◌}
use spec_cli.Common.{◌==◌, string_eq, if◌then◌else◌}

-- `Node`; its children are a map, written as a list of named nodes.
mutual
  pub data Node : Type 0 where
    node : (terminal : Bool) → Children → Node

  pub data Children : Type 0 where
    end : Children
    child : String → Node → Children → Children

abbrev pub new_tree : Node
new_tree = node false end

-- `child, exists := current.Children[part]`
unfoldable pub find_child : String → Children → Option Node
find_child k end = none
find_child k (child j n cs) = if j == k then some n else find_child k cs

-- `current.Children[part] = child`
unfoldable pub put_child : String → Node → Children → Children
put_child k n end = child k n end
put_child k n (child j m cs) = if j == k then child k n cs else child j m (put_child k n cs)

-- The child that the loop goes on with, created where it is missing.
abbrev pub child_or_new : Option Node → Node
child_or_new none = new_tree
child_or_new (some n) = n

-- `Insert`, with the loop over the parts as a recursion; the source changes the tree in place.
unfoldable pub insert : Node → List String → Node
unfolding find_child put_child
insert (node true cs) parts = node true cs
insert (node false cs) [] = node false cs
insert (node false cs) (part ∷ []) = node false (put_child part (node true end) cs)
insert (node false cs) (part ∷ next ∷ rest) =
    node false (put_child part (insert (child_or_new (find_child part cs)) (next ∷ rest)) cs)
