-- ===== src/Update/Preflight.antt =====
-- internal/application/commands/update/internal/engine/writes.go and model: the operations of an update are
-- checked against the write contract, and their values resolved, before anything is changed. The files that
-- are read, the standard input and the decoder of YAML are parameters.
pub mod Prepared
use spec_cli.Common.{String, ◌<>◌, Bool, true, false, not, Option, none, some, List, [], ◌∷◌}
use spec_cli.Common.{◌==◌, ◌&&◌, string_eq, if◌then◌else◌}
use spec_cli.Common.Dict.{lookup, contains}
use spec_cli.Errors
use spec_cli.Errors.{Code, Result, ok, fail, text, ◌>>=◌, ◌>>◌}
use spec_cli.IoFailure
use spec_cli.IoFailure.{Failure}
use spec_cli.Values.{Scalars, Value, null, Fields}
use spec_cli.Write.{
  WriteOperation, WriteOperationKind, set, set_file, unset, WritePathSpec, EntityTypeSpec,
}
use spec_cli.Write.Values.{Read, contents, unreadable, resolve_value, read_source}
use spec_cli.Write.Paths.{is_forbidden_write_path}

-- `BodyOperationKind`
pub data BodyOperationKind : Type 0 where
  keep_body replace_file replace_stdin clear : BodyOperationKind

pub record Options : Type 0 where
  pub id : String
  pub operations : List WriteOperation
  pub body_operation : BodyOperationKind
  pub body_file : String
  pub expect_revision : String
  pub dry_run : Bool

-- `preparedOperation`; a path without a specification has the zero one, whose kind is none of the three.
pub record PreparedOperation (S : Scalars) : Type 0 where
  pub kind : WriteOperationKind
  pub path : String
  pub spec : Option WritePathSpec
  pub value : Value S

-- What reading the file of the body answers.
pub data FileRead : Type 0 where
  file_contents : String → FileRead
  file_failed : Failure → FileRead

path_violation : String → String → Result (Unit {0})
unfolding Errors.new
path_violation message path =
    fail (Errors.new Code.write_contract_violation message (("path", text path) ∷ []))

pub not_allowed : String → Result (Unit {0})
unfolding path_violation
not_allowed path = path_violation ("write path '" <> path <> "' is not allowed") path

unsupported_kind : {A : Type 0} → Result A
unfolding Errors.new
unsupported_kind =
    fail (Errors.new Code.internal_error "unsupported write-path kind" (("kind", text "") ∷ []))

-- A path that the type does not declare is refused as forbidden where the standard reserves it.
check_reserved : Option WritePathSpec → String → Result (Unit {0})
unfolding is_forbidden_write_path path_violation
check_reserved (some _) path = ok tt
check_reserved none path =
    if is_forbidden_write_path path
    then path_violation ("write path '" <> path <> "' is forbidden by write contract") path
    else ok tt

check_listed : List String → String → Result (Unit {0})
unfolding not_allowed
check_listed paths path = if contains paths path then ok tt else not_allowed path

check_set_file : List String → String → Result (Unit {0})
unfolding path_violation
check_set_file paths path =
    if contains paths path
    then ok tt
    else path_violation ("--set-file is not allowed for path '" <> path <> "'") path

check_kind : EntityTypeSpec → WriteOperationKind → String → Result (Unit {0})
unfolding check_listed check_set_file
check_kind spec unset path = check_listed spec.unset_paths path
check_kind spec set path = check_listed spec.set_paths path
check_kind spec set_file path =
    check_listed spec.set_paths path >> check_set_file spec.allow_set_file_paths path

module _ {S : Scalars} (read_file : String → Read String)
    (parse_yaml : String → Read (Value S)) where
  -- `ResolveValue`, whose `default` is a path without a specification.
  resolve_at : EntityTypeSpec → WriteOperation → Option WritePathSpec → Result (Value S)
  unfolding resolve_value read_source unsupported_kind
  resolve_at spec op (some path_spec) = resolve_value read_file parse_yaml op path_spec spec
  resolve_at spec op none = elim op.kind [
    | set_file ↦ read_source op.path (read_file op.raw_value)
    | set ↦ unsupported_kind
    | unset ↦ unsupported_kind
  ]

  value_at :
      WriteOperationKind → EntityTypeSpec → WriteOperation → Option WritePathSpec → Result (Value S)
  unfolding resolve_at
  value_at unset spec op found = ok null
  value_at set spec op found = resolve_at spec op found
  value_at set_file spec op found = resolve_at spec op found

  -- One round of the loop of `preflight`.
  prepare_at : EntityTypeSpec → WriteOperation → Option WritePathSpec → Result (PreparedOperation S)
  unfolding check_reserved check_kind value_at
  prepare_at spec op found =
      check_reserved found op.path
      >> (check_kind spec op.kind op.path
          >> (value_at op.kind spec op found >>= λ value.
              ok (record { kind = op.kind; path = op.path; spec = found; value = value })))

  unfoldable pub prepare : EntityTypeSpec → WriteOperation → Result (PreparedOperation S)
  unfolding prepare_at lookup
  prepare spec op = prepare_at spec op (lookup op.path spec.allow_write_paths)

  -- The loop of `preflight`.
  unfoldable pub prepare_all :
      EntityTypeSpec → List WriteOperation → Result (List (PreparedOperation S))
  unfolding prepare
  prepare_all spec [] = ok []
  prepare_all spec (op ∷ ops) =
      prepare spec op >>= λ first. prepare_all spec ops >>= λ rest. ok (first ∷ rest)

whole_body_refused : Result String
unfolding Errors.new
whole_body_refused = fail (
    Errors.new Code.write_contract_violation
      "whole-body input is not allowed for entity type without content" [])

unfoldable pub file_body : FileRead → Result String
unfolding Errors.new IoFailure.details
file_body (file_contents s) = ok s
file_body (file_failed failure) =
    fail (Errors.new Code.write_failed "failed to read --content-file" (IoFailure.details failure))

unfoldable pub stdin_body : Read String → Result String
unfolding Errors.new
stdin_body (contents s) = ok s
stdin_body (unreadable reason) =
    fail
      (Errors.new Code.write_failed "failed to read --content-stdin" (("reason", text reason) ∷ []))

-- The value of the whole body, which only a replacement reads.
unfoldable pub body_value :
    (String → FileRead) → Read String → Bool → String → BodyOperationKind → Result String
unfolding whole_body_refused file_body stdin_body
body_value read_body stdin has_content file keep_body = ok ""
body_value read_body stdin has_content file replace_file =
    if has_content then file_body (read_body file) else whole_body_refused
body_value read_body stdin has_content file replace_stdin =
    if has_content then stdin_body stdin else whole_body_refused
body_value read_body stdin has_content file clear =
    if has_content then ok "" else whole_body_refused

-- `preflight`
unfoldable pub preflight :
    {S : Scalars}
    → (String → Read String)
    → (String → Read (Value S))
    → (String → FileRead)
    → Read String
    → Options
    → EntityTypeSpec
    → Result (List (PreparedOperation S) × String)
unfolding prepare_all body_value
preflight read_file parse_yaml read_body stdin opts spec =
    prepare_all read_file parse_yaml spec opts.operations >>= λ prepared.
    body_value read_body stdin spec.has_content opts.body_file opts.body_operation >>= λ body.
    ok (prepared, body)
