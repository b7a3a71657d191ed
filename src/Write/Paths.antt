-- ===== src/Write/Paths.antt =====
-- internal/application/commands/internal/writeargs/writeargs.go, and which paths writeops refuses: the
-- arguments that add and update share.
pub mod Laws
pub mod Normalized
use spec_cli.Common.{ℕ, Bool, true, false, not, Option, none, some, List}
use spec_cli.Common.{◌==◌, ◌&&◌, ◌||◌, nat_eq, string_eq, if◌then◌else◌}
use Prim.Native.Char.{Char, code}
use Prim.Native.String.{String, [], ◌∷◌}
use spec_cli.Common.Dict.{contains}
use spec_cli.Common.Text.{trim_space, split_on, strip_prefix}
use spec_cli.Errors
use spec_cli.Errors.{Code, Result, ok, fail, text, ◌>>=◌}
use spec_cli.Write.{WriteOperation, WriteOperationKind, set_file}

pub record PathValue : Type 0 where
  pub path : String
  pub value : String

abbrev pub Cut : Type 0
Cut = Option (String × String)

abbrev pub prefixed : Char → Cut → Cut
prefixed c none = none
prefixed c (some (before, after)) = some (c ∷ before, after)

-- What stands before and behind the first character of that code.
unfoldable pub cut_at : ℕ → String → Cut
unfolding nat_eq
cut_at sep [] = none
cut_at sep (c ∷ s) =
    let rest = cut_at sep s in if code c == sep then some ([], s) else prefixed c rest

bad_operation : {A : Type 0} → String → Result A
unfolding Errors.new
bad_operation raw = fail (
    Errors.new Code.invalid_args "write operation must match <path=value>"
      (List.◌∷◌ ("value", text raw) List.[]))

empty_path : {A : Type 0} → Result A
unfolding Errors.new
empty_path = fail (Errors.new Code.invalid_args "write path cannot be empty" List.[])

path_value_of : String → Cut → Result PathValue
unfolding bad_operation empty_path trim_space
path_value_of raw none = bad_operation raw
path_value_of raw (some (before, after)) =
    if before == ""
    then bad_operation raw
    else if trim_space before == ""
    then empty_path
    else ok (record { path = trim_space before; value = after })

-- `ParsePathValue`
unfoldable pub parse_path_value : String → Result PathValue
unfolding path_value_of cut_at
parse_path_value raw = path_value_of raw (cut_at b'=' raw)

-- `ParseSetFile`
unfoldable pub parse_set_file : String → Result PathValue
unfolding Errors.new trim_space
parse_set_file raw = parse_path_value raw >>= λ parsed.
    if trim_space parsed.value == ""
    then fail (Errors.new Code.invalid_args "--set-file requires non-empty file path" List.[])
    else ok parsed

abbrev pub has_prefix : String → String → Bool
has_prefix p s = elim (strip_prefix p s) [ none ↦ false | some _ ↦ true ]

-- `HasSectionWrite`
unfoldable pub has_section_write : List WriteOperation → Bool
has_section_write List.[] = false
has_section_write (List.◌∷◌ op ops) =
    has_prefix "content.sections." op.path || has_section_write ops

abbrev pub builtin_paths : List String
builtin_paths =
    List.◌∷◌ "type"
      (List.◌∷◌ "id" (List.◌∷◌ "slug" (List.◌∷◌ "createdDate" (List.◌∷◌ "updatedDate" List.[]))))

abbrev pub content_paths : List String
content_paths = List.◌∷◌ "content" (List.◌∷◌ "content.raw" (List.◌∷◌ "content.sections" List.[]))

-- `parts[2]` is a leaf of the referenced entity.
third_is_leaf : List String → Bool
unfolding string_eq
third_is_leaf (List.◌∷◌ _ (List.◌∷◌ _ (List.◌∷◌ leaf _))) =
    leaf == "id" || leaf == "type" || leaf == "slug"
third_is_leaf _ = false

-- `IsForbiddenWritePath`
unfoldable pub is_forbidden_write_path : String → Bool
unfolding third_is_leaf split_on strip_prefix
is_forbidden_write_path path =
    contains builtin_paths path
    || contains content_paths path
    || (has_prefix "refs." path && third_is_leaf (split_on b'.' "" path))

-- What `filepath.Abs` answers.
pub data Absolute : Type 0 where
  absolute : String → Absolute
  abs_error : String → Absolute

-- One round of `NormalizeOperationPaths` for a `--set-file`.
normalized_operation : WriteOperation → Absolute → Result WriteOperation
unfolding Errors.new
normalized_operation op (absolute path) = ok (record op { raw_value = path })
normalized_operation op (abs_error reason) = fail (
    Errors.new Code.invalid_args "failed to resolve --set-file path"
      (List.◌∷◌ ("path", text op.path) (List.◌∷◌ ("reason", text reason) List.[])))

abbrev is_set_file : WriteOperationKind → Bool
is_set_file set_file = true
is_set_file _ = false

module _ (is_abs : String → Bool) (abs : String → Absolute) (require_absolute : Bool) where
  normalize_operation : WriteOperation → Result WriteOperation
  unfolding normalized_operation Errors.new
  normalize_operation op =
      if is_set_file op.kind
      then if require_absolute && not (is_abs op.raw_value)
        then fail (
            Errors.new Code.invalid_args
              "--set-file path must be absolute when --require-absolute-paths is enabled"
              (List.◌∷◌ ("path", text op.path) List.[]))
        else normalized_operation op (abs op.raw_value)
      else ok op

  -- `NormalizeOperationPaths`
  unfoldable pub normalize_operation_paths : List WriteOperation → Result (List WriteOperation)
  unfolding normalize_operation
  normalize_operation_paths List.[] = ok List.[]
  normalize_operation_paths (List.◌∷◌ op ops) = normalize_operation op >>= λ next.
      normalize_operation_paths ops >>= λ rest. ok (List.◌∷◌ next rest)

  -- `NormalizeContentFile`
  unfoldable pub normalize_content_file : String → Result String
  unfolding Errors.new
  normalize_content_file path =
      if require_absolute && not (is_abs path)
      then fail (
          Errors.new Code.invalid_args
            "--content-file must be absolute when --require-absolute-paths is enabled" List.[])
      else elim (abs path) [
        | absolute resolved ↦ ok resolved
        | abs_error reason ↦ fail (
            Errors.new Code.invalid_args "failed to resolve --content-file path"
              (List.◌∷◌ ("reason", text reason) List.[]))
      ]
