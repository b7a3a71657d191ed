-- ===== src/Update/Candidate/Frame.antt =====
-- internal/application/commands/update/internal/engine: building a candidate, reading its metadata and resolving its
-- references leave its frontmatter alone.
use spec_cli.Common.{
  ◌≡◌, refl, ◌∙◌, String, List, [], ◌∷◌, Option, none, some, inl, inr, Bool-cases,
}
use spec_cli.Common.Dict.{Dict}
use spec_cli.Values.{Scalars, Value, str, list, Fields, find}
use spec_cli.Write.{EntityTypeSpec, WorkspaceEntity, MetaField}
use spec_cli.Update.Candidate.{
  Candidate, build_candidate, hydrate, hydrate_from, hydrate_field, hydrate_ref, hydrate_array,
  with_ref_id, nonempty, field_of, resolve_refs,
}

module _ {S : Scalars} where
  with_ref_id-frontmatter :
      (name : String) (o : Option String) (c : Candidate S)
      → (with_ref_id name o c).frontmatter ≡ c.frontmatter
  unfolding with_ref_id
  with_ref_id-frontmatter name none c = refl
  with_ref_id-frontmatter name (some id) c = refl

  hydrate_ref-frontmatter :
      (name : String) (v : Value S) (c : Candidate S)
      → (hydrate_ref name v c).frontmatter ≡ c.frontmatter
  unfolding hydrate_ref
  hydrate_ref-frontmatter name (str s) c = with_ref_id-frontmatter name (nonempty s) c
  hydrate_ref-frontmatter name _ c = refl

  hydrate_array-frontmatter :
      (name : String) (v : Value S) (c : Candidate S)
      → (hydrate_array name v c).frontmatter ≡ c.frontmatter
  unfolding hydrate_array
  hydrate_array-frontmatter name (list vs) c = refl
  hydrate_array-frontmatter name _ c = refl

  hydrate_field-frontmatter :
      (name : String) (field : MetaField) (o : Option (Value S)) (c : Candidate S)
      → (hydrate_field name field o c).frontmatter ≡ c.frontmatter
  unfolding hydrate_field
  hydrate_field-frontmatter name field none c = refl
  hydrate_field-frontmatter name field (some value) c = elim (Bool-cases field.is_entity_ref) [
    | inl h ↦ rw h (hydrate_ref-frontmatter name value c)
    | inr h ↦ elim (Bool-cases field.is_entity_ref_array) [
      | inl k ↦ rw (h, k) (hydrate_array-frontmatter name value c)
      | inr k ↦ rw (h, k) refl
    ]
  ]

  hydrate_from-frontmatter :
      (spec : EntityTypeSpec) (names : List String) (c : Candidate S)
      → (hydrate_from spec names c).frontmatter ≡ c.frontmatter
  unfolding hydrate_from
  hydrate_from-frontmatter spec [] c = refl
  hydrate_from-frontmatter spec (name ∷ names) c =
      let next = hydrate_field name (field_of name spec) (find name c.frontmatter) c in
      hydrate_from-frontmatter spec names next
      ∙ hydrate_field-frontmatter name (field_of name spec) (find name c.frontmatter) c

  pub hydrate-frontmatter :
      (spec : EntityTypeSpec) (c : Candidate S) → (hydrate spec c).frontmatter ≡ c.frontmatter
  unfolding hydrate
  hydrate-frontmatter spec c = hydrate_from-frontmatter spec spec.meta_field_order c

  pub resolve_refs-frontmatter :
      (spec : EntityTypeSpec) (entities_by_id : Dict (List (WorkspaceEntity S))) (c : Candidate S)
      → (resolve_refs spec entities_by_id c).frontmatter ≡ c.frontmatter
  unfolding resolve_refs
  resolve_refs-frontmatter spec entities_by_id c = refl

  pub build_candidate-frontmatter :
      (fs : Fields S) (body : String) → (build_candidate fs body).frontmatter ≡ fs
  unfolding build_candidate
  build_candidate-frontmatter fs body = refl
