-- ===== src/Update/Apply.antt =====
-- internal/application/commands/update/internal/engine/writes.go: `applyWrites`, which changes the frontmatter
-- and the body one operation after the other and lists the changes. The hash of a text is a parameter.
pub mod Changes
pub mod Frame
pub mod Total
use spec_cli.Common.{String, Bool, true, false, not, Option, none, some, List, [], ◌∷◌, ◌++◌}
use spec_cli.Common.{◌==◌, string_eq, if◌then◌else◌}
use spec_cli.Common.Dict.{lookup}
use spec_cli.Common.Text.{trim_space}
use spec_cli.Errors
use spec_cli.Errors.{Code, Result, ok, fail, text}
use spec_cli.Read.Execute.{Run, done, refused, panicked, ◌>>=◌}
use spec_cli.Values.{
  Scalars, Value, null, bool, num, time, str, list, object, Fields, find, normalize_value,
  copy_fields,
}
use spec_cli.Values.Entries.{literal_equal, put, remove}
use spec_cli.Sections.{
  SectionRange, SectionLayout, build_section_layout, first_range, slice, replace_crlf, join_lines,
}
use spec_cli.Update.Lines.{
  replace_lines, split_raw_lines, remove_section_range, insert_missing_section,
}
use spec_cli.Update.Preflight.{
  BodyOperationKind, keep_body, replace_file, replace_stdin, clear, Options, PreparedOperation,
  FileRead, preflight,
}
use spec_cli.Write.{
  WriteOperationKind, set, set_file, unset, WritePathKind, meta, ref, section, WritePathSpec,
  EntityTypeSpec,
}
use spec_cli.Write.Values.{Read}

-- An entry of `Changes`; a hash is absent where the section was not there.
pub data Change (S : Scalars) : Type 0 where
  field_set : String → Option (Value S) → Value S → Change S
  field_unset : String → Value S → Change S
  section_set : String → Option String → String → Change S
  section_unset : String → String → Change S
  body_replaced : String → String → Change S
  body_cleared : String → String → Change S

-- `writeResult`
pub record WriteResult (S : Scalars) : Type 0 where
  pub frontmatter : Fields S
  pub body : String
  pub user_changed : Bool
  pub changes : List (Change S)

module _ {S : Scalars} where
  -- An entry is listed, with the change that it stands for.
  abbrev pub with_fields : Fields S → Change S → WriteResult S → WriteResult S
  with_fields fields change r = record r {
    frontmatter = fields;
    user_changed = true;
    changes = r.changes ++ (change ∷ []);
  }

  abbrev pub with_body : String → Change S → WriteResult S → WriteResult S
  with_body body change r = record r {
    body = body;
    user_changed = true;
    changes = r.changes ++ (change ∷ []);
  }

  abbrev pub before_of : Option (Value S) → Option (Value S)
  before_of none = none
  before_of (some v) = some (normalize_value v)

  is_same : Option (Value S) → Value S → Bool
  unfolding literal_equal normalize_value
  is_same none after = false
  is_same (some before) after = literal_equal (normalize_value before) after

  -- The branch of a meta field or a reference that is set.
  unfoldable pub set_field : String → String → Value S → WriteResult S → WriteResult S
  unfolding is_same find put normalize_value
  set_field path name value r =
      let after = normalize_value value in
      let before = find name r.frontmatter in
      if is_same before after
      then r
      else with_fields (put name after r.frontmatter) (field_set path (before_of before) after) r

  unset_found : String → String → Option (Value S) → WriteResult S → WriteResult S
  unfolding remove normalize_value
  unset_found path name none r = r
  unset_found path name (some before) r =
      with_fields (remove name r.frontmatter) (field_unset path (normalize_value before)) r

  -- The branch of one that is unset.
  unfoldable pub unset_field : String → String → WriteResult S → WriteResult S
  unfolding unset_found find
  unset_field path name r = unset_found path name (find name r.frontmatter) r

  -- The type assertion `op.Value.(string)`.
  abbrev pub text_of : Value S → Run String
  text_of (str s) = done s
  text_of null = panicked
  text_of (bool _) = panicked
  text_of (num _) = panicked
  text_of (time _) = panicked
  text_of (list _) = panicked
  text_of (object _) = panicked

titled : String → Option String → String
unfolding trim_space
titled label none = label
titled label (some title) = if trim_space title == "" then label else title

-- The title of a section that is missing: its label, where the schema gives none.
unfoldable pub heading_title : EntityTypeSpec → String → String
unfolding titled lookup
heading_title spec label = titled label (lookup label spec.sections)

module _ {S : Scalars} (hash : String → String) (spec : EntityTypeSpec) where
  set_section_in :
      String → String → String → SectionLayout → Option SectionRange → WriteResult S → WriteResult S
  unfolding join_lines replace_lines split_raw_lines insert_missing_section heading_title
  set_section_in path label after layout none r =
      with_body
        (join_lines
          (insert_missing_section layout label (heading_title spec label) after spec.section_order))
        (section_set path none (hash after)) r
  set_section_in path label after layout (some range) r =
      let before = join_lines (slice range.body_start range.end_line layout.lines) in
      if before == after
      then r
      else with_body
          (join_lines
            (replace_lines layout.lines range.body_start range.end_line (split_raw_lines after)))
          (section_set path (some (hash before)) (hash after)) r

  -- The branch of a section that is set.
  unfoldable pub set_section : String → String → String → WriteResult S → WriteResult S
  unfolding set_section_in build_section_layout first_range
  set_section path label after r =
      let layout = build_section_layout r.body in
      set_section_in path label after layout (first_range label layout.section_ranges) r

  unset_section_in : String → SectionLayout → Option SectionRange → WriteResult S → WriteResult S
  unfolding join_lines remove_section_range
  unset_section_in path layout none r = r
  unset_section_in path layout (some range) r =
      with_body (join_lines (remove_section_range layout.lines range.heading_line range.end_line))
        (section_unset path
          (hash (join_lines (slice range.body_start range.end_line layout.lines))))
        r

  -- The branch of one that is unset.
  unfoldable pub unset_section : String → String → WriteResult S → WriteResult S
  unfolding unset_section_in build_section_layout first_range
  unset_section path label r =
      let layout = build_section_layout r.body in
      unset_section_in path layout (first_range label layout.section_ranges) r

  unfoldable pub apply_field :
      WriteOperationKind → String → String → Value S → WriteResult S → WriteResult S
  unfolding set_field unset_field
  apply_field unset path name value r = unset_field path name r
  apply_field set path name value r = set_field path name value r
  apply_field set_file path name value r = set_field path name value r

  apply_section :
      WriteOperationKind → String → String → Value S → WriteResult S → Run (WriteResult S)
  unfolding set_section unset_section
  apply_section unset path label value r = done (unset_section path label r)
  apply_section set path label value r =
      text_of value >>= λ after. done (set_section path label after r)
  apply_section set_file path label value r =
      text_of value >>= λ after. done (set_section path label after r)

  apply_kind :
      WritePathKind
      → WriteOperationKind
      → String
      → String
      → Value S
      → WriteResult S
      → Run (WriteResult S)
  unfolding apply_field apply_section
  apply_kind meta kind path name value r = done (apply_field kind path name value r)
  apply_kind ref kind path name value r = done (apply_field kind path name value r)
  apply_kind section kind path name value r = apply_section kind path name value r

  apply_at :
      Option WritePathSpec
      → WriteOperationKind
      → String
      → Value S
      → WriteResult S
      → Run (WriteResult S)
  unfolding apply_kind Errors.new
  apply_at none kind path value r =
      refused
        (Errors.new Code.internal_error "unsupported write-path kind" (("kind", text "") ∷ []))
  apply_at (some at) kind path value r = apply_kind at.kind kind path at.field_name value r

  -- The loop over the prepared operations.
  unfoldable pub apply_all : List (PreparedOperation S) → WriteResult S → Run (WriteResult S)
  unfolding apply_at
  apply_all [] r = done r
  apply_all (op ∷ ops) r =
      apply_at op.spec op.kind op.path op.value r >>= λ next. apply_all ops next

  body_after : String → String → Change S → WriteResult S → WriteResult S
  body_after before next change r = if before == next then r else with_body next change r

  -- The whole-body operation, which comes last.
  unfoldable pub apply_body : BodyOperationKind → String → WriteResult S → WriteResult S
  unfolding body_after
  apply_body keep_body value r = r
  apply_body replace_file value r =
      body_after r.body value (body_replaced (hash r.body) (hash value)) r
  apply_body replace_stdin value r =
      body_after r.body value (body_replaced (hash r.body) (hash value)) r
  apply_body clear value r = body_after r.body "" (body_cleared (hash r.body) (hash "")) r

  -- `cloneMap`, and the line ends of the body.
  unfoldable pub unchanged : Fields S → String → WriteResult S
  unfolding copy_fields replace_crlf
  unchanged frontmatter body = record {
    frontmatter = copy_fields frontmatter;
    body = replace_crlf body;
    user_changed = false;
    changes = [];
  }

  apply_prepared :
      BodyOperationKind
      → Fields S
      → String
      → Result (List (PreparedOperation S) × String)
      → Run (WriteResult S)
  unfolding apply_all apply_body unchanged
  apply_prepared operation frontmatter body (fail error) = refused error
  apply_prepared operation frontmatter body (ok (prepared, value)) =
      apply_all prepared (unchanged frontmatter body) >>= λ r. done (apply_body operation value r)

-- `applyWrites`
unfoldable pub apply_writes :
    {S : Scalars}
    → (String → String)
    → (String → Read String)
    → (String → Read (Value S))
    → (String → FileRead)
    → Read String
    → Options
    → EntityTypeSpec
    → Fields S
    → String
    → Run (WriteResult S)
unfolding apply_prepared preflight
apply_writes hash read_file parse_yaml read_body stdin opts spec frontmatter body =
    apply_prepared hash spec opts.body_operation frontmatter body
      (preflight read_file parse_yaml read_body stdin opts spec)
