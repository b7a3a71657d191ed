-- ===== src/Read/Projection.antt =====
-- internal/application/readmodel/engine/select.go: cutting an entity down to what was selected.
pub mod Laws
use spec_cli.Common.{String, Bool, true, false, Option, none, some, List, [], ◌∷◌}
use spec_cli.Values.{Scalars, Value, null, object, list, Fields, end, field, find, deep_copy}
use spec_cli.Selectors.{Node, node, Children, child}
use spec_cli.Selectors

-- A missing key of the source is written as null.
abbrev pub value_or_null : {S : Scalars} → Option (Value S) → (Value S → Value S) → Value S
value_or_null none f = null
value_or_null (some v) f = f v

-- `projectValue` and `projectMap`. The source fills the resulting map in the order of the sorted
-- keys; each key is written once, so the map does not depend on the order.
unfoldable mutual
  pub project_value : {S : Scalars} → Node → Value S → Value S
  project_value (node true cs) v = deep_copy v
  project_value (node false cs) (object fs) = object (project_map cs fs)
  project_value (node false cs) v = null

  pub project_map : {S : Scalars} → Children → Fields S → Fields S
  project_map Children.end fs = end
  project_map (child k n cs) fs =
      field k (value_or_null (find k fs) (project_value n)) (project_map cs fs)

-- `projectEntity`: the root of the tree is never terminal.
unfoldable pub project_entity : {S : Scalars} → Fields S → Node → Fields S
unfolding project_map
project_entity entity (node terminal cs) = project_map cs entity
