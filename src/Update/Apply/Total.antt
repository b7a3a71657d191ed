-- ===== src/Update/Apply/Total.antt =====
-- internal/application/commands/update/internal/engine/writes.go: the type assertion of `applyWrites` on the value
-- of a section.
use spec_cli.Common.{String, ◌≡◌, ◌≢◌, subst, true, Option, none, some, List, [], ◌∷◌}
use spec_cli.Errors.{Result, ok, fail, Gives}
use spec_cli.Read.Execute.{Run, done, refused, panicked, ◌>>=◌}
use spec_cli.Values.{Scalars, Value, null, bool, num, time, str, list, object, Fields}
use spec_cli.Write.{
  WriteOperation, WriteOperationKind, set, set_file, unset, WritePathKind, meta, ref, section,
  WritePathSpec, EntityTypeSpec,
}
use spec_cli.Write.Values.{Read}
use spec_cli.Write.Values.Shape.{is_text}
use spec_cli.Update.Preflight.{BodyOperationKind, Options, PreparedOperation, FileRead}
use spec_cli.Update.Preflight.Prepared.{
  textual_kind, is_textual, ArePrepared, preflight-ArePrepared,
}
use spec_cli.Update.Apply.{
  WriteResult, apply_section, apply_kind, apply_at, apply_all, apply_prepared, apply_writes,
  text_of, unchanged,
}

abbrev pub Safe {ℓ} : {A : Type ℓ} → Run A → Type 0
Safe (done _) = Unit {0}
Safe (refused _) = Unit {0}
Safe panicked = ⊥

pub Safe-bind {ℓ ℓ'} :
    {A : Type ℓ} {B : Type ℓ'} (first : Run A) (next : A → Run B)
    → Safe first
    → ((a : A) → Safe (next a))
    → Safe (first >>= next)
Safe-bind (done a) next s step = step a
Safe-bind (refused _) next s step = tt
Safe-bind panicked next s step = s

pub Safe-not_panicked {ℓ} : {A : Type ℓ} (out : Run A) → Safe out → out ≢ panicked
Safe-not_panicked out s h = subst Safe h s

pub text_of-Safe : {S : Scalars} (v : Value S) → is_text v ≡ true → Safe (text_of v)
text_of-Safe (str s) t = tt
text_of-Safe null t = cc
text_of-Safe (bool _) t = cc
text_of-Safe (num _) t = cc
text_of-Safe (time _) t = cc
text_of-Safe (list _) t = cc
text_of-Safe (object _) t = cc

module _ {S : Scalars} (hash : String → String) (spec : EntityTypeSpec) where
  apply_kind-Safe :
      (at : WritePathKind) (kind : WriteOperationKind) (path name : String) (v : Value S)
      (r : WriteResult S)
      → textual_kind at kind v ≡ true
      → Safe (apply_kind hash spec at kind path name v r)
  unfolding apply_kind apply_section
  apply_kind-Safe meta kind path name v r t = tt
  apply_kind-Safe ref kind path name v r t = tt
  apply_kind-Safe section unset path name v r t = tt
  apply_kind-Safe section set path name v r t = Safe-bind (text_of v) _ (text_of-Safe v t) λ _. tt
  apply_kind-Safe section set_file path name v r t =
      Safe-bind (text_of v) _ (text_of-Safe v t) λ _. tt

  apply_at-Safe :
      (at : Option WritePathSpec) (kind : WriteOperationKind) (path : String) (v : Value S)
      (r : WriteResult S)
      → is_textual at kind v ≡ true
      → Safe (apply_at hash spec at kind path v r)
  unfolding apply_at
  apply_at-Safe none kind path v r t = tt
  apply_at-Safe (some at) kind path v r t = apply_kind-Safe at.kind kind path at.field_name v r t

  apply_all-Safe :
      (ops : List WriteOperation) (ps : List (PreparedOperation S)) (r : WriteResult S)
      → ArePrepared spec ops ps
      → Safe (apply_all hash spec ps r)
  unfolding apply_all
  apply_all-Safe ops [] r all = tt
  apply_all-Safe [] (p ∷ ps) r all = absurd all
  apply_all-Safe (op ∷ ops) (p ∷ ps) r (first, rest) =
      Safe-bind _ _ (apply_at-Safe p.spec p.kind p.path p.value r first.textual)
        λ next. apply_all-Safe ops ps next rest

  apply_prepared-Safe :
      (ops : List WriteOperation) (op : BodyOperationKind) (fs : Fields S) (body : String)
      (prepared : Result (List (PreparedOperation S) × String))
      → Gives (λ (ps, _). ArePrepared spec ops ps) prepared
      → Safe (apply_prepared hash spec op fs body prepared)
  unfolding apply_prepared
  apply_prepared-Safe ops op fs body (fail e) all = tt
  apply_prepared-Safe ops op fs body (ok (ps, value)) all =
      Safe-bind _ _ (apply_all-Safe ops ps (unchanged hash spec fs body) all) λ r. tt

-- An update never panics, whatever the schema, the operations and the files: after `preflight` every value that is
-- taken for the text of a section is a text.
pub apply_writes-not_panicked :
    {S : Scalars} (hash : String → String) (read_file : String → Read String)
    (parse_yaml : String → Read (Value S)) (read_body : String → FileRead) (stdin : Read String)
    (opts : Options) (spec : EntityTypeSpec) (frontmatter : Fields S) (body : String)
    → apply_writes hash read_file parse_yaml read_body stdin opts spec frontmatter body ≢ panicked
unfolding apply_writes
apply_writes-not_panicked hash read_file parse_yaml read_body stdin opts spec frontmatter body =
    Safe-not_panicked _ (
      apply_prepared-Safe hash spec opts.operations opts.body_operation frontmatter body _
        (preflight-ArePrepared read_file parse_yaml read_body stdin opts spec))
