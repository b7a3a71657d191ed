-- ===== src/Frontmatter/Serialize.antt =====
-- internal/application/commands/internal/markdown/serializer.go: the text of a document. The encoder of YAML and the
-- parser of dates are parameters.
pub mod Lines
pub mod Stable
use spec_cli.Common.{
  ℕ, String, ◌<>◌, Bool, true, false, not, Option, none, some, List, [], ◌∷◌, ◌++◌, sort_by,
}
use spec_cli.Common.{◌==◌, ◌&&◌, ◌||◌, string_eq, nat_eq, if◌then◌else◌}
use Prim.Native.Char.{code}
use Prim.Native.String.{[] as empty, ◌∷◌ as cons_char}
use spec_cli.Common.Dict.{contains}
use spec_cli.Common.Text.{trim_space, trim_left_by, trim_right_by, str_lt}
use spec_cli.Values.{Scalars, Value, null, bool, num, time, str, list, object, Fields, find}
use spec_cli.Sections.{replace_crlf}
use spec_cli.Write.{EntityTypeSpec}
use spec_cli.Write.Values.{Read, contents, unreadable}
use spec_cli.Check.Entity.{field_keys}
use spec_cli.Update.Candidate.{Candidate}

-- `builtinFrontmatterOrder`
abbrev pub builtin_order : List String
builtin_order = "type" ∷ "id" ∷ "slug" ∷ "createdDate" ∷ "updatedDate" ∷ []

-- What stands behind a key: a date as it is, or a value for the encoder.
pub data Content (S : Scalars) : Type 0 where
  date : String → Content S
  encoded : Value S → Content S

-- The keys that are neither builtin nor in the schema.
unfoldable pub extra_keys : List String → List String → List String
extra_keys known [] = []
extra_keys known (key ∷ keys) =
    let rest = extra_keys known keys in if contains known key then rest else key ∷ rest

module _ {S : Scalars} (is_date : String → Bool) where
  abbrev date_of : Value S → Content S
  unfolding trim_space
  date_of (time t) = date (S.date_text t)
  date_of (str s) = if is_date (trim_space s) then date (trim_space s) else encoded (str s)
  date_of v = encoded v

  -- `buildBuiltinDateNode`
  unfoldable pub content_of : String → Value S → Content S
  unfolding trim_space string_eq
  content_of key v = if key == "createdDate" || key == "updatedDate" then date_of v else encoded v

  abbrev entry : String → Option (Value S) → List (String × Content S) → List (String × Content S)
  entry key none rest = rest
  entry key (some v) rest = (key, content_of key v) ∷ rest

  -- The entries of those keys that are there.
  unfoldable pub entries_of : List String → Fields S → List (String × Content S)
  unfolding find content_of
  entries_of [] fields = []
  entries_of (key ∷ keys) fields = entry key (find key fields) (entries_of keys fields)

  -- The mapping of the frontmatter, in its order.
  unfoldable pub mapping_of : EntityTypeSpec → Fields S → List (String × Content S)
  unfolding entries_of extra_keys sort_by str_lt
  mapping_of spec fields =
      let known = builtin_order ++ spec.meta_field_order in
      entries_of builtin_order fields
      ++ (entries_of spec.meta_field_order fields
          ++ entries_of (sort_by str_lt (extra_keys known (field_keys fields))) fields)

-- `strings.TrimSuffix(s, "\n")`
unfoldable pub trim_newline : String → String
unfolding nat_eq
trim_newline empty = empty
trim_newline (cons_char c empty) = if code c == 10 then empty else cons_char c empty
trim_newline (cons_char c (cons_char d s)) = cons_char c (trim_newline (cons_char d s))

-- `strings.ReplaceAll(s, "\r", "\n")`
unfoldable pub replace_cr : String → String
unfolding nat_eq
replace_cr empty = empty
replace_cr (cons_char c s) =
    let rest = replace_cr s in if code c == 13 then "\n" <> rest else cons_char c rest

-- `strings.ReplaceAll(s, "\n", "\r\n")`
unfoldable pub to_crlf : String → String
unfolding nat_eq
to_crlf empty = empty
to_crlf (cons_char c s) =
    let rest = to_crlf s in if code c == 10 then "\r\n" <> rest else cons_char c rest

-- `applyPlatformNewlines`
unfoldable pub apply_platform_newlines : Bool → String → String
unfolding replace_cr replace_crlf to_crlf
apply_platform_newlines windows value =
    let normalized = replace_cr (replace_crlf value) in
    if windows then to_crlf normalized else normalized

abbrev pub is_newline : ℕ → Bool
is_newline c = c == 10

abbrev pub is_line_end : ℕ → Bool
is_line_end c = c == 13 || c == 10

-- `withTrailingNewline`
unfoldable pub with_trailing_newline : String → String
unfolding trim_right_by nat_eq
with_trailing_newline value = trim_right_by is_line_end value <> "\n"

-- `normalizeDocumentBody`
unfoldable pub normalize_document_body : String → String
unfolding trim_left_by replace_crlf nat_eq
normalize_document_body body = trim_left_by is_newline (replace_crlf body)

abbrev pub body_tail : String → String
body_tail body = if body == "" then "" else "\n\n" <> body

-- The document of a frontmatter and a body.
unfoldable pub document_text : Bool → String → String → String
unfolding apply_platform_newlines with_trailing_newline normalize_document_body string_eq
document_text windows frontmatter body = apply_platform_newlines windows (
    with_trailing_newline
      ("---\n" <> (frontmatter <> ("\n---" <> body_tail (normalize_document_body body)))))

module _ {S : Scalars} (is_date : String → Bool) (marshal : List (String × Content S) → Read String)
    (windows : Bool) where
  written : String → Read String → Read String
  unfolding document_text trim_newline
  written body (contents raw) = contents (document_text windows (trim_newline raw) body)
  written body (unreadable reason) = unreadable reason

  -- `Serialize`
  unfoldable pub serialize : EntityTypeSpec → Candidate S → Read String
  unfolding written mapping_of
  serialize spec c = written c.body (marshal (mapping_of is_date spec c.frontmatter))
