-- ===== src/Update/Apply/Frame.antt =====
-- internal/application/commands/update/internal/engine/writes.go: the fields of the frontmatter after an update,
-- those that an operation names and those that none does.
use spec_cli.Common.{
  String, ◌≡◌, refl, ◌∙◌, subst, Bool, true, false, Option, none, some, List, [], ◌∷◌, ◌⊎◌, inl,
  inr, arith,
}
use spec_cli.Common.{◌==◌, ◌||◌, string_eq, eq_self, if◌then◌else◌, Bool-cases, any}
use spec_cli.Common.Dict.{lookup}
use spec_cli.Errors.{Result, ok, fail, Gives, Gives-map}
use spec_cli.Read.Execute.{done}
use spec_cli.Values.{Scalars, Value, Fields, find, normalize_value}
use spec_cli.Values.Laws.{copy_fields_lem}
use spec_cli.Values.Entries.{literal_equal, find-put, find-remove}
use spec_cli.Sections.{SectionRange, SectionLayout, build_section_layout, first_range}
use spec_cli.Update.Preflight.{
  BodyOperationKind, keep_body, replace_file, replace_stdin, clear, Options, PreparedOperation,
  FileRead, preflight,
}
use spec_cli.Update.Apply.{
  WriteResult, is_same, set_field, unset_found, unset_field, set_section_in, set_section,
  unset_section_in, unset_section, apply_field, apply_section, apply_kind, apply_at, apply_all,
  body_after, apply_body, unchanged, apply_prepared, apply_writes, text_of,
}
use spec_cli.Update.Preflight.Prepared.{ArePrepared, preflight-ArePrepared}
use spec_cli.Update.Apply.Changes.{Ends, Ends-any, Ends-bind, Ends-map}
use spec_cli.Write.{
  WriteOperation, WriteOperationKind, set, set_file, unset, WritePathKind, meta, ref, section,
  WritePathSpec, EntityTypeSpec,
}
use spec_cli.Write.Values.{Read}

or_left : (a b : Bool) → (a || b) ≡ false → a ≡ false
or_left a b h = grind arith

or_right : (a b : Bool) → (a || b) ≡ false → b ≡ false
or_right a b h = grind arith

abbrev pub names_kind : String → WritePathKind → String → Bool
names_kind f section name = false
names_kind f meta name = name == f
names_kind f ref name = name == f

-- The path stands for that field of the frontmatter.
abbrev pub names_field : String → Option WritePathSpec → Bool
names_field f none = false
names_field f (some at) = names_kind f at.kind at.field_name

-- What a field holds after an operation on it: nothing after `unset`, else the value, or one that counts as it.
abbrev pub HoldsAfter : {S : Scalars} → WriteOperationKind → Value S → Option (Value S) → Type 0
HoldsAfter unset value found = found ≡ none
HoldsAfter set value found =
    (found ≡ some (normalize_value value))
    ⊎ ((old : _) × (found ≡ some old)
        × (literal_equal (normalize_value old) (normalize_value value) ≡ true))
HoldsAfter set_file value found =
    (found ≡ some (normalize_value value))
    ⊎ ((old : _) × (found ≡ some old)
        × (literal_equal (normalize_value old) (normalize_value value) ≡ true))

module _ {S : Scalars} where
  same-found :
      (o : Option (Value S)) (after : Value S)
      → is_same o after ≡ true
      → (old : Value S) × (o ≡ some old) × (literal_equal (normalize_value old) after ≡ true)
  unfolding is_same
  same-found none after h = cc
  same-found (some old) after h = (old, refl, h)

  set_field-HoldsAfter :
      (path name : String) (v : Value S) (r : WriteResult S)
      → HoldsAfter set v (find name (set_field path name v r).frontmatter)
  unfolding set_field
  set_field-HoldsAfter path name v r =
      elim (Bool-cases (is_same (find name r.frontmatter) (normalize_value v))) [
        | inl e ↦ rw e (inr (same-found (find name r.frontmatter) (normalize_value v) e))
        | inr e ↦
            rw e
              (inl (find-put name name (normalize_value v) r.frontmatter ∙ rw (eq_self name) refl))
      ]

  unset_found-none :
      (path name : String) (o : Option (Value S)) (r : WriteResult S)
      → find name r.frontmatter ≡ o
      → find name (unset_found path name o r).frontmatter ≡ none
  unfolding unset_found
  unset_found-none path name none r h = h
  unset_found-none path name (some v) r h =
      find-remove name name r.frontmatter ∙ rw (eq_self name) refl

  set_field-other :
      (path name f : String) (v : Value S) (r : WriteResult S)
      → (name == f) ≡ false
      → find f (set_field path name v r).frontmatter ≡ find f r.frontmatter
  unfolding set_field
  set_field-other path name f v r n =
      elim (Bool-cases (is_same (find name r.frontmatter) (normalize_value v))) [
        | inl e ↦ rw e refl
        | inr e ↦ rw e (find-put f name (normalize_value v) r.frontmatter ∙ rw n refl)
      ]

  unset_found-other :
      (path name f : String) (o : Option (Value S)) (r : WriteResult S)
      → (name == f) ≡ false
      → find f (unset_found path name o r).frontmatter ≡ find f r.frontmatter
  unfolding unset_found
  unset_found-other path name f none r n = refl
  unset_found-other path name f (some v) r n = find-remove f name r.frontmatter ∙ rw n refl

-- After an operation on a field of the frontmatter, the field is gone if the operation was an unset, and else it
-- holds the value, dates written as texts; or what it held before, if that counts as the same value.
pub apply_field-HoldsAfter :
    {S : Scalars} (hash : String → String) (spec : EntityTypeSpec) (kind : WriteOperationKind)
    (path name : String) (value : Value S) (r : WriteResult S)
    → HoldsAfter kind value (find name (apply_field hash spec kind path name value r).frontmatter)
unfolding apply_field unset_field
apply_field-HoldsAfter hash spec unset path name value r =
    unset_found-none path name (find name r.frontmatter) r refl
apply_field-HoldsAfter hash spec set path name value r = set_field-HoldsAfter path name value r
apply_field-HoldsAfter hash spec set_file path name value r = set_field-HoldsAfter path name value r

module _ {S : Scalars} (hash : String → String) (spec : EntityTypeSpec) (f : String) where
  abbrev Kept : WriteResult S → WriteResult S → Type 0
  Kept before after = find f after.frontmatter ≡ find f before.frontmatter

  either_branch : (b : Bool) (r next : WriteResult S) → Kept r next → Kept r (if b then r else next)
  either_branch true r next g = refl
  either_branch false r next g = g

  set_section_in-Kept :
      (path label after : String) (layout : SectionLayout) (o : Option SectionRange)
      (r : WriteResult S)
      → Kept r (set_section_in hash spec path label after layout o r)
  unfolding set_section_in
  set_section_in-Kept path label after layout none r = refl
  set_section_in-Kept path label after layout (some range) r = either_branch _ r _ refl

  unset_section_in-Kept :
      (path : String) (layout : SectionLayout) (o : Option SectionRange) (r : WriteResult S)
      → Kept r (unset_section_in hash spec path layout o r)
  unfolding unset_section_in
  unset_section_in-Kept path layout none r = refl
  unset_section_in-Kept path layout (some range) r = refl

  set_section-Kept :
      (path label after : String) (r : WriteResult S)
      → Kept r (set_section hash spec path label after r)
  unfolding set_section
  set_section-Kept path label after r =
      set_section_in-Kept path label after (build_section_layout r.body)
        (first_range label (build_section_layout r.body).section_ranges) r

  unset_section-Kept :
      (path label : String) (r : WriteResult S) → Kept r (unset_section hash spec path label r)
  unfolding unset_section
  unset_section-Kept path label r =
      unset_section_in-Kept path (build_section_layout r.body)
        (first_range label (build_section_layout r.body).section_ranges) r

  apply_section-Kept :
      (kind : WriteOperationKind) (path label : String) (v : Value S) (r : WriteResult S)
      → Ends (Kept r) (apply_section hash spec kind path label v r)
  unfolding apply_section
  apply_section-Kept unset path label v r = unset_section-Kept path label r
  apply_section-Kept set path label v r =
      Ends-bind (λ _. Unit {0}) (Kept r) (text_of v) _ (Ends-any (text_of v))
        λ s _. set_section-Kept path label s r
  apply_section-Kept set_file path label v r =
      Ends-bind (λ _. Unit {0}) (Kept r) (text_of v) _ (Ends-any (text_of v))
        λ s _. set_section-Kept path label s r

  apply_field-Kept :
      (kind : WriteOperationKind) (path name : String) (v : Value S) (r : WriteResult S)
      → (name == f) ≡ false
      → Kept r (apply_field hash spec kind path name v r)
  unfolding apply_field unset_field
  apply_field-Kept unset path name v r n =
      unset_found-other path name f (find name r.frontmatter) r n
  apply_field-Kept set path name v r n = set_field-other path name f v r n
  apply_field-Kept set_file path name v r n = set_field-other path name f v r n

  apply_kind-Kept :
      (at : WritePathKind) (kind : WriteOperationKind) (path name : String) (v : Value S)
      (r : WriteResult S)
      → names_kind f at name ≡ false
      → Ends (Kept r) (apply_kind hash spec at kind path name v r)
  unfolding apply_kind
  apply_kind-Kept meta kind path name v r n = apply_field-Kept kind path name v r n
  apply_kind-Kept ref kind path name v r n = apply_field-Kept kind path name v r n
  apply_kind-Kept section kind path name v r n = apply_section-Kept kind path name v r

  apply_at-Kept :
      (at : Option WritePathSpec) (kind : WriteOperationKind) (path : String) (v : Value S)
      (r : WriteResult S)
      → names_field f at ≡ false
      → Ends (Kept r) (apply_at hash spec at kind path v r)
  unfolding apply_at
  apply_at-Kept none kind path v r n = tt
  apply_at-Kept (some at) kind path v r n = apply_kind-Kept at.kind kind path at.field_name v r n

  apply_all-Kept :
      (ops : List (PreparedOperation S)) (r : WriteResult S)
      → any (λ op. names_field f op.spec) ops ≡ false
      → Ends (Kept r) (apply_all hash spec ops r)
  unfolding apply_all
  apply_all-Kept [] r n = refl
  apply_all-Kept (op ∷ ops) r n =
      Ends-bind (Kept r) (Kept r) _ _
        (apply_at-Kept op.spec op.kind op.path op.value r (or_left _ _ n))
        λ next g.
          Ends-map (Kept next) (Kept r) (λ last k. k ∙ g) (apply_all hash spec ops next)
            (apply_all-Kept ops next (or_right _ _ n))

  apply_body-Kept :
      (op : BodyOperationKind) (value : String) (r : WriteResult S)
      → Kept r (apply_body hash spec op value r)
  unfolding apply_body body_after
  apply_body-Kept keep_body value r = refl
  apply_body-Kept replace_file value r = either_branch _ r _ refl
  apply_body-Kept replace_stdin value r = either_branch _ r _ refl
  apply_body-Kept clear value r = either_branch _ r _ refl

  apply_prepared-Kept :
      (op : BodyOperationKind) (fs : Fields S) (body : String)
      (prepared : Result (List (PreparedOperation S) × String))
      → Gives (λ (ps, _). any (λ p. names_field f p.spec) ps ≡ false) prepared
      → Ends (Kept (unchanged hash spec fs body)) (apply_prepared hash spec op fs body prepared)
  unfolding apply_prepared
  apply_prepared-Kept op fs body (fail e) n = tt
  apply_prepared-Kept op fs body (ok (prepared, value)) n =
      Ends-bind (Kept (unchanged hash spec fs body)) (Kept (unchanged hash spec fs body)) _ _
        (apply_all-Kept prepared (unchanged hash spec fs body) n)
        λ r g. apply_body-Kept op value r ∙ g

names_of-prepared :
    {S : Scalars} (f : String) (spec : EntityTypeSpec) (ops : List WriteOperation)
    (ps : List (PreparedOperation S))
    → ArePrepared spec ops ps
    → any (λ p. names_field f p.spec) ps
      ≡ any (λ op. names_field f (lookup op.path spec.allow_write_paths)) ops
names_of-prepared f spec [] [] all = refl
names_of-prepared f spec (op ∷ ops) (p ∷ ps) (first, rest) =
    rw (first.spec_found, names_of-prepared f spec ops ps rest) refl
names_of-prepared f spec [] (p ∷ ps) all = absurd all
names_of-prepared f spec (op ∷ ops) [] all = absurd all

-- A field of the frontmatter that no operation names is what it was before the operations were applied.
pub apply_writes-untouched :
    {S : Scalars} (hash : String → String) (read_file : String → Read String)
    (parse_yaml : String → Read (Value S)) (read_body : String → FileRead) (stdin : Read String)
    (opts : Options) (spec : EntityTypeSpec) (frontmatter : Fields S) (body f : String)
    (r : WriteResult S)
    → any (λ op. names_field f (lookup op.path spec.allow_write_paths)) opts.operations ≡ false
    → apply_writes hash read_file parse_yaml read_body stdin opts spec frontmatter body ≡ done r
    → find f r.frontmatter ≡ find f frontmatter
unfolding apply_writes unchanged
apply_writes-untouched hash read_file parse_yaml read_body stdin opts spec frontmatter body f r n
      h =
    subst (λ fs. find f r.frontmatter ≡ find f fs) (copy_fields_lem frontmatter)
      (subst (Ends (Kept hash spec f (unchanged hash spec frontmatter body))) h (
        apply_prepared-Kept hash spec f opts.body_operation frontmatter body
          (preflight read_file parse_yaml read_body stdin opts spec)
          (Gives-map _ _ (λ (ps, body) all. names_of-prepared f spec opts.operations ps all ∙ n)
            (preflight read_file parse_yaml read_body stdin opts spec)
            (preflight-ArePrepared read_file parse_yaml read_body stdin opts spec))))
