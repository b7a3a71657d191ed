-- ===== src/Update/Candidate.antt =====
-- internal/application/commands/update/internal/engine/execute.go: the candidate that an update makes of the
-- changed document, and `ReadStringField` of internal/application/entitydoc/frontmatter.go.
pub mod Frame
use spec_cli.Common.{String, Option, none, some, List, [], ◌∷◌}
use spec_cli.Common.{◌==◌, string_eq, if◌then◌else◌}
use spec_cli.Common.Dict.{Dict, insert}
use spec_cli.Common.Text.{trim_space}
use spec_cli.Values.{Scalars, Value, time, str, list, Fields, end, find, normalize_value}
use spec_cli.Values.Entries.{put}
use spec_cli.Sections.{replace_crlf}
use spec_cli.Refs.Resolve.{read_ref_id_array, resolve}
use spec_cli.Write.{MetaField, EntityTypeSpec, WorkspaceEntity, ResolvedRef}
use spec_cli.Write.Values.{field_of}

-- `Candidate`, without what is computed behind its checks.
pub record Candidate (S : Scalars) : Type 0 where
  pub type_name : String
  pub id : String
  pub slug : String
  pub created_date : String
  pub updated_date : String
  pub frontmatter : Fields S
  pub meta : Fields S
  pub ref_ids : Dict String
  pub ref_id_arrays : Dict (List String)
  pub refs : Dict (ResolvedRef S)
  pub ref_arrays : Dict (List (ResolvedRef S))
  pub body : String
  pub path_rel : String
  pub path_abs : String

nonempty : String → Option String
unfolding trim_space
nonempty s = if trim_space s == "" then none else some (trim_space s)

abbrev text_or_empty : Option String → String
text_or_empty none = ""
text_or_empty (some s) = s

-- One bad item leaves no ids.
abbrev ids_or_none : Option (List String) → List String
ids_or_none none = []
ids_or_none (some ids) = ids

module _ {S : Scalars} where
  text_field : Option (Value S) → Option String
  unfolding nonempty
  text_field (some (str s)) = nonempty s
  text_field (some (time t)) = nonempty (S.date_text t)
  text_field _ = none

  -- `ReadStringField`
  unfoldable pub read_string_field : String → Fields S → Option String
  unfolding text_field find
  read_string_field key fields = text_field (find key fields)

  -- `buildCandidate`
  unfoldable pub build_candidate : Fields S → String → Candidate S
  unfolding read_string_field replace_crlf
  build_candidate frontmatter body = record {
    type_name = text_or_empty (read_string_field "type" frontmatter);
    id = text_or_empty (read_string_field "id" frontmatter);
    slug = text_or_empty (read_string_field "slug" frontmatter);
    created_date = text_or_empty (read_string_field "createdDate" frontmatter);
    updated_date = text_or_empty (read_string_field "updatedDate" frontmatter);
    frontmatter = frontmatter;
    meta = end;
    ref_ids = [];
    ref_id_arrays = [];
    refs = [];
    ref_arrays = [];
    body = replace_crlf body;
    path_rel = "";
    path_abs = "";
  }

  with_ref_id : String → Option String → Candidate S → Candidate S
  unfolding insert
  with_ref_id name none c = c
  with_ref_id name (some id) c = record c { ref_ids = insert name id c.ref_ids }

  hydrate_ref : String → Value S → Candidate S → Candidate S
  unfolding with_ref_id nonempty
  hydrate_ref name (str s) c = with_ref_id name (nonempty s) c
  hydrate_ref name _ c = c

  hydrate_array : String → Value S → Candidate S → Candidate S
  unfolding insert read_ref_id_array
  hydrate_array name (list vs) c = record c {
    ref_id_arrays = insert name (ids_or_none (read_ref_id_array vs)) c.ref_id_arrays;
  }
  hydrate_array name _ c = c

  hydrate_field : String → MetaField → Option (Value S) → Candidate S → Candidate S
  unfolding hydrate_ref hydrate_array put normalize_value
  hydrate_field name field none c = c
  hydrate_field name field (some value) c =
      if field.is_entity_ref
      then hydrate_ref name value c
      else if field.is_entity_ref_array
      then hydrate_array name value c
      else record c { meta = put name (normalize_value value) c.meta }

  hydrate_from : EntityTypeSpec → List String → Candidate S → Candidate S
  unfolding hydrate_field find
  hydrate_from spec [] c = c
  hydrate_from spec (name ∷ names) c =
      hydrate_from spec names (hydrate_field name (field_of name spec) (find name c.frontmatter) c)

  -- `hydrateMetaAndRefIDs`
  unfoldable pub hydrate : EntityTypeSpec → Candidate S → Candidate S
  unfolding hydrate_from
  hydrate spec c = hydrate_from spec spec.meta_field_order c

  -- The candidate takes over what `Resolve` has found; the ids that it had before are dropped.
  unfoldable pub resolve_refs :
      EntityTypeSpec → Dict (List (WorkspaceEntity S)) → Candidate S → Candidate S
  unfolding resolve
  resolve_refs spec entities_by_id c =
      let found = resolve entities_by_id spec c.frontmatter in
      record c {
        refs = found.resolved;
        ref_arrays = found.resolved_arrays;
        ref_ids = found.ref_ids;
        ref_id_arrays = found.ref_id_arrays;
      }
