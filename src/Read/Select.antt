-- ===== src/Read/Select.antt =====
-- internal/application/readmodel/engine/select.go: checking selectors and building their tree.
pub mod Laws
use spec_cli.Common.{String, ◌<>◌, Bool, true, false, Option, none, some, List, [], ◌∷◌}
use spec_cli.Common.{◌&&◌, ◌==◌, string_eq, if◌then◌else◌}
use spec_cli.Common.Dict.{has, contains}
use spec_cli.Common.Text.{trim_space, split_on}
use spec_cli.Errors
use spec_cli.Errors.{Code, Result, ok, fail, ◌>>=◌, ◌>>◌}
use spec_cli.Selectors.{Node, new_tree, insert}
use spec_cli.Read.Capability.{
  Capability, entity_type, has_ref_field, is_ref_leaf, ref_leaf_compatibility,
}

abbrev pub builtin_selectors : List String
builtin_selectors =
    "type" ∷ "id" ∷ "slug" ∷ "revision" ∷ "createdDate" ∷ "updatedDate" ∷ "meta" ∷ "refs"
    ∷ "content.raw" ∷ "content.sections" ∷ []

-- `strings.Split(s, ".")`
unfoldable pub split_dots : String → List String
unfolding split_on
split_dots s = split_on b'.' "" s

unknown_selector : String → Result (Unit {0})
unfolding Errors.new
unknown_selector s =
    fail (Errors.new Code.invalid_args ("unknown projection-namespace selector '" <> s <> "'") [])

forbidden_selector : String → String → Result (Unit {0})
unfolding Errors.new
forbidden_selector s why =
    fail (Errors.new Code.invalid_args ("selector '" <> s <> "' is forbidden" <> why) [])

module _ (capability : Capability) (selector : String) where
  -- The loop over the active types for a selector `meta.<field>`.
  unfoldable pub meta_selector : String → List String → Bool → Result (Unit {0})
  unfolding entity_type unknown_selector forbidden_selector
  meta_selector field [] has_meta = if has_meta then ok tt else unknown_selector selector
  meta_selector field (t ∷ ts) has_meta =
      let here = has field (entity_type capability t).meta_fields in
      let rest = meta_selector field ts (if here then true else has_meta) in
      if has field (entity_type capability t).ref_fields
      then forbidden_selector selector " for entityRef field"
      else rest

  ref_selector : Bool × Bool → Result (Unit {0})
  unfolding unknown_selector forbidden_selector
  ref_selector (compatible, present) =
      if present
      then if compatible
        then ok tt
        else forbidden_selector selector
            ": path-based ref leaf requires scalar ref in active type set"
      else unknown_selector selector

  section_selector : String → List String → Result (Unit {0})
  unfolding entity_type unknown_selector
  section_selector name [] = unknown_selector selector
  section_selector name (t ∷ ts) =
      let rest = section_selector name ts in
      if has name (entity_type capability t).sections then ok tt else rest

  -- The tests on `parts` after the built-in selectors.
  selector_parts : List String → List String → Result (Unit {0})
  unfolding meta_selector ref_selector section_selector unknown_selector
  selector_parts active (ns ∷ field ∷ []) =
      if ns == "meta"
      then meta_selector field active false
      else if ns == "refs" && has_ref_field field capability active
      then ok tt
      else unknown_selector selector
  selector_parts active (ns ∷ a ∷ b ∷ []) =
      if ns == "refs"
      then if is_ref_leaf b
        then ref_selector (ref_leaf_compatibility a capability active)
        else unknown_selector selector
      else if ns == "content" && a == "sections"
      then section_selector b active
      else unknown_selector selector
  selector_parts active _ = unknown_selector selector

unfoldable pub validate_selector : Capability → List String → String → Result (Unit {0})
unfolding selector_parts
validate_selector capability active selector =
    if contains builtin_selectors selector
    then ok tt
    else selector_parts capability selector active (split_dots selector)

-- The loop of `buildSelectTree`.
select_tree_from : Capability → List String → Node → List String → Result Node
unfolding validate_selector Errors.new
select_tree_from capability active tree [] = ok tree
select_tree_from capability active tree (s ∷ ss) =
    let trimmed = trim_space s in
    let rest = select_tree_from capability active (insert tree (split_dots trimmed)) ss in
    if trimmed == ""
    then fail (Errors.new Code.invalid_args "selector cannot be empty" [])
    else validate_selector capability active trimmed >> rest

unfoldable pub build_select_tree : Capability → List String → List String → Result Node
unfolding select_tree_from
build_select_tree capability active selects = select_tree_from capability active new_tree selects
