-- ===== src/Read/Sort.antt =====
-- internal/application/readmodel/engine/sort.go: checking sort terms, and the effective order.
pub mod Laws
use spec_cli.Common.{String, ◌<>◌, Bool, true, false, Option, none, some, List, [], ◌∷◌, ◌++◌}
use spec_cli.Common.{◌&&◌, ◌||◌, ◌==◌, string_eq, if◌then◌else◌}
use spec_cli.Common.Dict.{has, lookup}
use spec_cli.Common.Text.{split_on}
use spec_cli.Errors
use spec_cli.Errors.{Code, Result, ok, fail, ◌>>=◌, ◌>>◌}
use spec_cli.Read.Capability.{
  Capability, entity_type, has_ref_field, FieldKind, string, date, number,
}
use spec_cli.Read.Capability.{boolean, kind_eq, array_ref, scalar_ref, is_ref_leaf}
use spec_cli.Read.Select.{split_dots}

pub data Direction : Type 0 where
  asc desc : Direction

abbrev pub is_asc : Direction → Bool
is_asc asc = true
is_asc desc = false

pub record SortTerm : Type 0 where
  pub path : String
  pub direction : Direction

abbrev pub id_asc : SortTerm
id_asc = record { path = "id"; direction = asc }

-- `builtinSortKinds`
abbrev builtin_sort_kinds : List (String × FieldKind)
builtin_sort_kinds =
    ("type", string)
    ∷ ("id", string)
    ∷ ("slug", string)
    ∷ ("revision", string)
    ∷ ("createdDate", date)
    ∷ ("updatedDate", date)
    ∷ ("content.raw", string)
    ∷ []

unfoldable pub is_orderable : FieldKind → Bool
is_orderable string = true
is_orderable date = true
is_orderable number = true
is_orderable boolean = true
is_orderable _ = false

-- The last term is ascending id.
unfoldable pub ends_in_id : List SortTerm → Bool
ends_in_id [] = false
ends_in_id (t ∷ []) = t.path == "id" && is_asc t.direction
ends_in_id (_ ∷ u ∷ ts) = ends_in_id (u ∷ ts)

abbrev pub requested_or_default : List SortTerm → List SortTerm
requested_or_default [] = id_asc ∷ []
requested_or_default (t ∷ ts) = t ∷ ts

invalid_sort : String → Result (Unit {0})
unfolding Errors.new
invalid_sort path =
    fail (Errors.new Code.invalid_args ("invalid filter-namespace sort field '" <> path <> "'") [])

bad_sort : String → String → Result (Unit {0})
unfolding Errors.new
bad_sort path why =
    fail (Errors.new Code.invalid_query ("invalid sort field '" <> path <> "': " <> why) [])

-- `kinds[kind] = struct{}{}`, on a set kept as a list.
add_kind : FieldKind → List FieldKind → List FieldKind
add_kind k [] = k ∷ []
add_kind k (j ∷ ks) = if j == k then j ∷ ks else j ∷ add_kind k ks

-- `validateSortKinds`
validate_sort_kinds : String → List FieldKind → Result (Unit {0})
unfolding invalid_sort bad_sort is_orderable
validate_sort_kinds path [] = invalid_sort path
validate_sort_kinds path (k ∷ []) = if is_orderable k then ok tt else invalid_sort path
validate_sort_kinds path (_ ∷ _ ∷ _) =
    bad_sort path "incompatible sort kinds across active type set"

module _ (capability : Capability) where
  gather_meta : String → List FieldKind → List String → List FieldKind
  unfolding entity_type add_kind
  gather_meta field kinds [] = kinds
  gather_meta field kinds (t ∷ ts) =
      gather_meta field
        (if has field (entity_type capability t).ref_fields
          then kinds
          else elim (lookup field (entity_type capability t).meta_fields) [
            | none ↦ kinds
            | some spec ↦ add_kind spec.kind kinds
          ])
        ts

  gather_section : String → List FieldKind → List String → List FieldKind
  unfolding entity_type add_kind
  gather_section name kinds [] = kinds
  gather_section name kinds (t ∷ ts) =
      gather_section name
        (if has name (entity_type capability t).sections then add_kind string kinds else kinds) ts

  gather_ref : String → String → List FieldKind → List String → Result (List FieldKind)
  unfolding entity_type add_kind bad_sort Errors.new
  gather_ref field leaf kinds [] = ok kinds
  gather_ref field leaf kinds (t ∷ ts) = elim (lookup field (entity_type capability t).ref_fields) [
    | none ↦ gather_ref field leaf kinds ts
    | some spec ↦ elim spec.cardinality [
      | array_ref ↦ fail (
          Errors.new Code.invalid_query
            ("invalid sort field 'refs." <> field <> "." <> leaf
              <> "': path-based ref leaf is forbidden for array refs in active type set")
            [])
      | scalar_ref ↦
          gather_ref field leaf (add_kind (if leaf == "resolved" then boolean else string) kinds) ts
    ]
  ]

  -- The tests on `parts` after the built-in fields.
  sort_parts : List String → String → List String → Result (Unit {0})
  unfolding gather_meta gather_section gather_ref validate_sort_kinds invalid_sort Errors.new
  sort_parts active path (ns ∷ field ∷ []) =
      if ns == "meta"
      then if has_ref_field field capability active
        then fail (
            Errors.new Code.invalid_args
              ("sort field '" <> path <> "' is forbidden for entityRef field; use refs." <> field)
              [])
        else validate_sort_kinds path (gather_meta field [] active)
      else invalid_sort path
  sort_parts active path (ns ∷ a ∷ b ∷ []) =
      if ns == "content" && a == "sections"
      then validate_sort_kinds path (gather_section b [] active)
      else if ns == "refs"
      then if is_ref_leaf b
        then gather_ref a b [] active >>= validate_sort_kinds path
        else invalid_sort path
      else invalid_sort path
  sort_parts active path _ = invalid_sort path

  unfoldable pub validate_sort_path : List String → String → Result (Unit {0})
  unfolding sort_parts is_orderable invalid_sort
  validate_sort_path active path = elim (lookup path builtin_sort_kinds) [
    | none ↦ sort_parts active path (split_dots path)
    | some kind ↦ if is_orderable kind then ok tt else invalid_sort path
  ]

  -- The loop over the requested terms.
  unfoldable pub validate_terms : List String → List SortTerm → Result (Unit {0})
  validate_terms active [] = ok tt
  validate_terms active (t ∷ ts) = validate_sort_path active t.path >> validate_terms active ts

  unfoldable pub build_effective_sort : List SortTerm → List String → Result (List SortTerm)
  build_effective_sort requested active = do
    let terms = requested_or_default requested
    validate_terms active terms
    ok (if ends_in_id terms then terms else terms ++ (id_asc ∷ []))
