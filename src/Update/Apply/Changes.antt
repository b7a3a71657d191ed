-- ===== src/Update/Apply/Changes.antt =====
-- internal/application/commands/update/internal/engine/writes.go: an update that lists no change has changed
-- nothing, and the assertions on the values of sections never fail.
use spec_cli.Common.{
  String, ◌≡◌, ◌≢◌, refl, sym, ◌∙◌, ap, subst, Bool, true, false, Option, none, some, List, [], ◌∷◌,
  ◌++◌, ◌⊎◌, inl, inr,
}
use spec_cli.Common.{string_eq, if◌then◌else◌}
use spec_cli.Errors.{Result, ok, fail}
use spec_cli.Read.Execute.{Run, done, refused, panicked, ◌>>=◌}
use spec_cli.Values.{Scalars, Value, Fields}
use spec_cli.Values.Laws.{copy_fields_lem}
use spec_cli.Sections.{SectionRange, SectionLayout, build_section_layout, first_range, replace_crlf}
use spec_cli.Update.Preflight.{
  BodyOperationKind, keep_body, replace_file, replace_stdin, clear, Options, PreparedOperation,
  FileRead, preflight,
}
use spec_cli.Update.Apply.{
  Change, WriteResult, with_fields, with_body, set_field, unset_found, unset_field, set_section_in,
  set_section, unset_section_in, unset_section, apply_field, apply_section, apply_kind, apply_at,
  apply_all, body_after, apply_body, unchanged, apply_prepared, apply_writes, text_of,
}
use spec_cli.Write.{
  WriteOperationKind, set, set_file, unset, WritePathKind, meta, ref, section, WritePathSpec,
  EntityTypeSpec,
}
use spec_cli.Write.Values.{Read}

-- Something was listed, and the flag says so.
abbrev pub Listed : {S : Scalars} → WriteResult S → Type 0
Listed r = (r.user_changed ≡ true) × (r.changes ≢ [])

abbrev Grown : {S : Scalars} → WriteResult S → WriteResult S → Type 0
Grown before after = (after ≡ before) ⊎ Listed after

snoc-nonempty : {S : Scalars} (cs : List (Change S)) (c : Change S) → cs ++ (c ∷ []) ≢ []
snoc-nonempty [] c = λ h. cc
snoc-nonempty (d ∷ cs) c = λ h. cc

Grown-trans : {S : Scalars} {a b c : WriteResult S} → Grown a b → Grown b c → Grown a c
Grown-trans (inl e) (inl f) = inl (f ∙ e)
Grown-trans (inr l) (inl f) = inr (subst Listed (sym f) l)
Grown-trans g (inr l) = inr l

-- What a run that is done gives.
abbrev pub Ends {ℓ} : {A : Type ℓ} → (A → Type 0) → Run A → Type 0
Ends P (done a) = P a
Ends P (refused _) = Unit {0}
Ends P panicked = Unit {0}

pub Ends-any {ℓ} : {A : Type ℓ} (out : Run A) → Ends (λ _. Unit {0}) out
Ends-any (done a) = tt
Ends-any (refused _) = tt
Ends-any panicked = tt

pub Ends-bind {ℓ ℓ'} :
    {A : Type ℓ} {B : Type ℓ'} (Q : A → Type 0) (P : B → Type 0) (first : Run A) (next : A → Run B)
    → Ends Q first
    → ((a : A) → Q a → Ends P (next a))
    → Ends P (first >>= next)
Ends-bind Q P (done a) next q step = step a q
Ends-bind Q P (refused _) next q step = tt
Ends-bind Q P panicked next q step = tt

pub Ends-map {ℓ} :
    {A : Type ℓ} (P Q : A → Type 0)
    → ((a : A) → P a → Q a)
    → (out : Run A) → Ends P out
    → Ends Q out
Ends-map P Q f (done a) p = f a p
Ends-map P Q f (refused _) p = tt
Ends-map P Q f panicked p = tt

module _ {S : Scalars} where
  with_fields-Grown :
      (fs : Fields S) (c : Change S) (r : WriteResult S) → Grown r (with_fields fs c r)
  with_fields-Grown fs c r = inr (refl, snoc-nonempty r.changes c)

  with_body-Grown :
      (body : String) (c : Change S) (r : WriteResult S) → Grown r (with_body body c r)
  with_body-Grown body c r = inr (refl, snoc-nonempty r.changes c)

  kept_or : (b : Bool) (r next : WriteResult S) → Grown r next → Grown r (if b then r else next)
  kept_or true r next g = inl refl
  kept_or false r next g = g

  set_field-Grown :
      (path name : String) (v : Value S) (r : WriteResult S) → Grown r (set_field path name v r)
  unfolding set_field
  set_field-Grown path name v r = kept_or _ r _ (with_fields-Grown _ _ r)

  unset_found-Grown :
      (path name : String) (o : Option (Value S)) (r : WriteResult S)
      → Grown r (unset_found path name o r)
  unfolding unset_found
  unset_found-Grown path name none r = inl refl
  unset_found-Grown path name (some v) r = with_fields-Grown _ _ r

  apply_field-Grown :
      (kind : WriteOperationKind) (path name : String) (v : Value S) (hash : String → String)
      (spec : EntityTypeSpec) (r : WriteResult S)
      → Grown r (apply_field hash spec kind path name v r)
  unfolding apply_field unset_field
  apply_field-Grown unset path name v hash spec r = unset_found-Grown path name _ r
  apply_field-Grown set path name v hash spec r = set_field-Grown path name v r
  apply_field-Grown set_file path name v hash spec r = set_field-Grown path name v r

module _ {S : Scalars} (hash : String → String) (spec : EntityTypeSpec) where
  set_section_in-Grown :
      (path label after : String) (layout : SectionLayout) (o : Option SectionRange)
      (r : WriteResult S)
      → Grown r (set_section_in hash spec path label after layout o r)
  unfolding set_section_in
  set_section_in-Grown path label after layout none r = with_body-Grown _ _ r
  set_section_in-Grown path label after layout (some range) r =
      kept_or _ r _ (with_body-Grown _ _ r)

  unset_section_in-Grown :
      (path : String) (layout : SectionLayout) (o : Option SectionRange) (r : WriteResult S)
      → Grown r (unset_section_in hash spec path layout o r)
  unfolding unset_section_in
  unset_section_in-Grown path layout none r = inl refl
  unset_section_in-Grown path layout (some range) r = with_body-Grown _ _ r

  set_section-Grown :
      (path label after : String) (r : WriteResult S)
      → Grown r (set_section hash spec path label after r)
  unfolding set_section
  set_section-Grown path label after r =
      set_section_in-Grown path label after (build_section_layout r.body)
        (first_range label (build_section_layout r.body).section_ranges) r

  unset_section-Grown :
      (path label : String) (r : WriteResult S) → Grown r (unset_section hash spec path label r)
  unfolding unset_section
  unset_section-Grown path label r =
      unset_section_in-Grown path (build_section_layout r.body)
        (first_range label (build_section_layout r.body).section_ranges) r

  set_text-Grown :
      (path label : String) (v : Value S) (r : WriteResult S)
      → Ends (Grown r) (text_of v >>= λ after. done (set_section hash spec path label after r))
  set_text-Grown path label v r =
      Ends-bind (λ _. Unit {0}) (Grown r) (text_of v) _ (Ends-any (text_of v))
        λ s _. set_section-Grown path label s r

  apply_section-Grown :
      (kind : WriteOperationKind) (path label : String) (v : Value S) (r : WriteResult S)
      → Ends (Grown r) (apply_section hash spec kind path label v r)
  unfolding apply_section
  apply_section-Grown unset path label v r = unset_section-Grown path label r
  apply_section-Grown set path label v r = set_text-Grown path label v r
  apply_section-Grown set_file path label v r = set_text-Grown path label v r

  apply_kind-Grown :
      (at : WritePathKind) (kind : WriteOperationKind) (path name : String) (v : Value S)
      (r : WriteResult S)
      → Ends (Grown r) (apply_kind hash spec at kind path name v r)
  unfolding apply_kind
  apply_kind-Grown meta kind path name v r = apply_field-Grown kind path name v hash spec r
  apply_kind-Grown ref kind path name v r = apply_field-Grown kind path name v hash spec r
  apply_kind-Grown section kind path name v r = apply_section-Grown kind path name v r

  apply_at-Grown :
      (at : Option WritePathSpec) (kind : WriteOperationKind) (path : String) (v : Value S)
      (r : WriteResult S)
      → Ends (Grown r) (apply_at hash spec at kind path v r)
  unfolding apply_at
  apply_at-Grown none kind path v r = tt
  apply_at-Grown (some at) kind path v r = apply_kind-Grown at.kind kind path at.field_name v r

  apply_all-Grown :
      (ops : List (PreparedOperation S)) (r : WriteResult S)
      → Ends (Grown r) (apply_all hash spec ops r)
  unfolding apply_all
  apply_all-Grown [] r = inl refl
  apply_all-Grown (op ∷ ops) r =
      Ends-bind (Grown r) (Grown r) _ _ (apply_at-Grown op.spec op.kind op.path op.value r)
        λ next g.
          Ends-map (Grown next) (Grown r) (λ last. Grown-trans g) (apply_all hash spec ops next)
            (apply_all-Grown ops next)

  apply_body-Grown :
      (op : BodyOperationKind) (value : String) (r : WriteResult S)
      → Grown r (apply_body hash spec op value r)
  unfolding apply_body body_after
  apply_body-Grown keep_body value r = inl refl
  apply_body-Grown replace_file value r = kept_or _ r _ (with_body-Grown _ _ r)
  apply_body-Grown replace_stdin value r = kept_or _ r _ (with_body-Grown _ _ r)
  apply_body-Grown clear value r = kept_or _ r _ (with_body-Grown _ _ r)

  apply_prepared-Grown :
      (op : BodyOperationKind) (fs : Fields S) (body : String)
      (prepared : Result (List (PreparedOperation S) × String))
      → Ends (Grown (unchanged hash spec fs body)) (apply_prepared hash spec op fs body prepared)
  unfolding apply_prepared
  apply_prepared-Grown op fs body (fail e) = tt
  apply_prepared-Grown op fs body (ok (prepared, value)) =
      Ends-bind (Grown (unchanged hash spec fs body)) (Grown (unchanged hash spec fs body)) _ _
        (apply_all-Grown prepared (unchanged hash spec fs body))
        λ r g. Grown-trans g (apply_body-Grown op value r)

-- An update that is done has either listed nothing, not raised the flag, left the frontmatter as it was and the
-- body too, but for its line ends; or it has listed a change and raised the flag.
pub apply_writes-changes :
    {S : Scalars} (hash : String → String) (read_file : String → Read String)
    (parse_yaml : String → Read (Value S)) (read_body : String → FileRead) (stdin : Read String)
    (opts : Options) (spec : EntityTypeSpec) (frontmatter : Fields S) (body : String)
    (r : WriteResult S)
    → apply_writes hash read_file parse_yaml read_body stdin opts spec frontmatter body ≡ done r
    → ((r.user_changed ≡ false)
        × (r.changes ≡ [])
        × (r.frontmatter ≡ frontmatter)
        × (r.body ≡ replace_crlf body))
      ⊎ ((r.user_changed ≡ true) × (r.changes ≢ []))
unfolding apply_writes unchanged
apply_writes-changes hash read_file parse_yaml read_body stdin opts spec frontmatter body r h =
    elim (subst (Ends (Grown (unchanged hash spec frontmatter body))) h (
      apply_prepared-Grown hash spec opts.body_operation frontmatter body
        (preflight read_file parse_yaml read_body stdin opts spec))) [
          | inl e ↦ inl (
            ap (λ x. x.user_changed) e,
            ap (λ x. x.changes) e,
            ap (λ x. x.frontmatter) e ∙ copy_fields_lem frontmatter,
            ap (λ x. x.body) e,
          )
          | inr l ↦ inr l
        ]
