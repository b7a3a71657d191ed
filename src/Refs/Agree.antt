-- ===== src/Refs/Agree.antt =====
-- internal/application/commands/internal/refresolve/resolver.go against internal/application/entityrefs/refs.go:
-- one reference, written and read.
use spec_cli.Common.{String, true, false, some, List, [], ◌∷◌, ◌≡◌, refl, arith, map}
use spec_cli.Common.{string_eq, ◌∙◌, ap}
use spec_cli.Common.Dict.{Dict, lookup}
use spec_cli.Values.{Scalars}
use spec_cli.Read.Capability.{RefField}
use spec_cli.Write.{WorkspaceEntity}
use spec_cli.Refs.Classify.{Identity, Index, targets_of, filter_by_types, classify}
use spec_cli.Refs.Resolve.{target, target_of, is_outside, entities_of}

filter_by_types-single :
    (types : List String) (e : Identity)
    → is_outside types e.type_name ≡ false
    → filter_by_types (e ∷ []) types ≡ e ∷ []
unfolding filter_by_types
filter_by_types-single [] e h = refl
filter_by_types-single (t ∷ ts) e h = ground arith

module _ {S : Scalars} where
  abbrev pub identity_of : WorkspaceEntity S → Identity
  identity_of e = record { type_name = e.type_name; id = e.id; slug = e.slug }

  target_of-single :
      (place field id : String) (types : List String) (es : List (WorkspaceEntity S))
      (e : WorkspaceEntity S)
      → target_of place field types id es ≡ target e
      → (es ≡ e ∷ []) × (is_outside types e.type_name ≡ false)
  unfolding target_of
  target_of-single place field id types [] e h = cc
  target_of-single place field id types (d ∷ []) e h = ground arith
  target_of-single place field id types (d ∷ c ∷ es) e h = cc

  -- If a write binds an id to an entity, and the index of the reads holds for the id the identities of
  -- the same entities, then a read of that reference under the same allowed types is resolved and
  -- reports the type and the slug of that entity.
  pub target_of-classify :
      (place field id : String) (spec : RefField) (by_id : Dict (List (WorkspaceEntity S)))
      (index : Index) (e : WorkspaceEntity S)
      → targets_of (lookup id index) ≡ map identity_of (entities_of (lookup id by_id))
      → target_of place field spec.allowed_types id (entities_of (lookup id by_id)) ≡ target e
      → ((classify id spec index).resolved ≡ true)
        × ((classify id spec index).type_name ≡ some e.type_name)
        × ((classify id spec index).slug ≡ some e.slug)
  unfolding classify
  target_of-classify place field id spec by_id index e same h =
      let (single, inside) = target_of-single place field id spec.allowed_types _ e h in
      let targets : targets_of (lookup id index) ≡ identity_of e ∷ [] =
        same ∙ ap (map identity_of) single in
      let kept = filter_by_types-single spec.allowed_types (identity_of e) inside in
      (rw (targets, kept), rw (targets, kept), rw (targets, kept))
