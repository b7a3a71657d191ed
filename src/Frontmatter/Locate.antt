-- ===== src/Frontmatter/Locate.antt =====
-- internal/application/entitydoc/locate.go: the id of a document whose frontmatter may be broken.
use spec_cli.Common.{String, ◌≡◌, ◌∙◌, ap, Bool, Option, none, some, List, [], ◌∷◌}
use spec_cli.Common.{◌==◌, ◌&&◌, ◌||◌, string_eq, nat_eq, if◌then◌else◌, ℕ}
use Prim.Native.Char.{code}
use Prim.Native.String.{[] as empty, ◌∷◌ as cons_char}
use spec_cli.Common.Text.{trim_space, strip_prefix, trim_left_by}
use spec_cli.Write.Paths.{has_prefix}
use spec_cli.Values.{Scalars, Fields}
use spec_cli.Sections.{split_lines, join_lines}
use spec_cli.Write.Values.{Read, contents, unreadable}
use spec_cli.Update.Candidate.{read_string_field}
use spec_cli.Frontmatter.{
  document, mapping, sequence, other, Node, node, DuplicateKey, Split, unopened, unclosed, split,
  split_document, document_lines, first_content_node, find_duplicate, decoded, no_duplicates,
  in_mapping, unmarshalled, parse_split, parse_frontmatter, decoded_id, mapping_id, root_id,
  extract_id_from_yaml,
}

-- `\s` of a regular expression.
abbrev is_regexp_space : ℕ → Bool
is_regexp_space c = c == 32 || c == 9 || c == 10 || c == 12 || c == 13

-- The text between quotes, if the text behind the first one ends with the other.
unfoldable pub up_to_quote : ℕ → String → Option String
unfolding nat_eq
up_to_quote q empty = none
up_to_quote q (cons_char c empty) = if code c == q then some "" else none
up_to_quote q (cons_char c (cons_char d s)) = elim (up_to_quote q (cons_char d s)) [
  | none ↦ none
  | some inner ↦ some (cons_char c inner)
]

abbrev unquoted : String → Option String → String
unfolding trim_space
unquoted s none = s
unquoted s (some inner) = trim_space inner

-- A quote in front asks for the same one at the end.
without_quotes : String → String
unfolding unquoted up_to_quote nat_eq
without_quotes empty = ""
without_quotes (cons_char c s) =
    if code c == 39
    then unquoted (cons_char c s) (up_to_quote 39 s)
    else if code c == 34
    then unquoted (cons_char c s) (up_to_quote 34 s)
    else cons_char c s

-- `trimWrappingQuotes`
unfoldable pub trim_wrapping_quotes : String → String
unfolding without_quotes trim_space
trim_wrapping_quotes value = without_quotes (trim_space value)

-- The text in front of the first ` #`.
unfoldable pub before_comment : String → Option String
unfolding nat_eq
before_comment empty = none
before_comment (cons_char c empty) = none
before_comment (cons_char c (cons_char d s)) =
    let rest = before_comment (cons_char d s) in
    if code c == 32 && code d == 35
    then some ""
    else elim rest [ none ↦ none | some t ↦ some (cons_char c t) ]

uncommented : String → Option String → String
unfolding trim_space
uncommented value none = value
uncommented value (some t) = trim_space t

nonempty_id : String → Option String
unfolding string_eq
nonempty_id value = if value == "" then none else some value

-- The value of a line that `locatorIDPattern` matches.
id_value : String → Option String
unfolding nonempty_id trim_wrapping_quotes uncommented before_comment trim_space string_eq
id_value raw =
    if raw == ""
    then none
    else nonempty_id
        (trim_wrapping_quotes (uncommented (trim_space raw) (before_comment (trim_space raw))))

after_colon : Option String → Option String
unfolding id_value trim_left_by nat_eq
after_colon none = none
after_colon (some raw) = id_value (trim_left_by is_regexp_space raw)

after_key : Option String → Option String
unfolding after_colon strip_prefix trim_left_by nat_eq
after_key none = none
after_key (some rest) = after_colon (strip_prefix ":" (trim_left_by is_regexp_space rest))

-- One line: neither empty nor a comment, `id`, a colon and a value.
unfoldable pub line_id : String → Option String
unfolding after_key trim_space strip_prefix string_eq
line_id line =
    let trimmed = trim_space line in
    if trimmed == "" || has_prefix "#" trimmed then none else after_key (strip_prefix "id" trimmed)

abbrev pub or_next : Option String → Option String → Option String
or_next none rest = rest
or_next (some id) rest = some id

unfoldable pub first_id : List String → Option String
unfolding line_id
first_id [] = none
first_id (line ∷ lines) = or_next (line_id line) (first_id lines)

-- `extractIDFromLines`
unfoldable pub extract_id_from_lines : String → Option String
unfolding first_id split_lines
extract_id_from_lines text = first_id (split_lines text)

module _ {S : Scalars} (unmarshal : String → Read Node) (decode : Node → Read (Fields S)) where
  located : Split → Option String
  unfolding extract_id_from_yaml extract_id_from_lines join_lines
  located unopened = none
  located (unclosed lines) = extract_id_from_lines (join_lines lines)
  located (split above below) =
      or_next (extract_id_from_yaml unmarshal decode (join_lines above))
        (extract_id_from_lines (join_lines above))

  -- `ExtractIDLenient`
  unfoldable pub extract_id_lenient : String → Option String
  unfolding located split_document document_lines
  extract_id_lenient raw = located (split_document (document_lines raw))

  decoded_id-decoded :
      (body : String) (out : Read (Fields S)) (fields : Fields S) (rest : String)
      → decoded unmarshal decode body out ≡ contents (fields, rest)
      → decoded_id unmarshal decode out ≡ read_string_field "id" fields
  unfolding decoded decoded_id
  decoded_id-decoded body (contents found) fields rest h = cc
  decoded_id-decoded body (unreadable reason) fields rest h = cc

  mapping_id-no_duplicates :
      (body : String) (n : Node) (d : Option DuplicateKey) (fields : Fields S) (rest : String)
      → no_duplicates unmarshal decode body n d ≡ contents (fields, rest)
      → decoded_id unmarshal decode (decode n) ≡ read_string_field "id" fields
  unfolding no_duplicates
  mapping_id-no_duplicates body n none fields rest h =
      decoded_id-decoded body (decode n) fields rest h
  mapping_id-no_duplicates body n (some d) fields rest h = cc

  mapping_id-in_mapping :
      (body : String) (o : Option Node) (fields : Fields S) (rest : String)
      → in_mapping unmarshal decode body o ≡ contents (fields, rest)
      → mapping_id unmarshal decode o ≡ read_string_field "id" fields
  unfolding in_mapping mapping_id
  mapping_id-in_mapping body none fields rest h = cc
  mapping_id-in_mapping body (some (node mapping v ns)) fields rest h =
      mapping_id-no_duplicates body (node mapping v ns) (find_duplicate (node mapping v ns) "")
        fields rest h
  mapping_id-in_mapping body (some (node document v ns)) fields rest h = cc
  mapping_id-in_mapping body (some (node sequence v ns)) fields rest h = cc
  mapping_id-in_mapping body (some (node other v ns)) fields rest h = cc

  root_id-unmarshalled :
      (body : String) (root : Read Node) (fields : Fields S) (rest : String)
      → unmarshalled unmarshal decode body root ≡ contents (fields, rest)
      → root_id unmarshal decode root ≡ read_string_field "id" fields
  unfolding unmarshalled root_id
  root_id-unmarshalled body (contents root) fields rest h =
      mapping_id-in_mapping body (first_content_node root) fields rest h
  root_id-unmarshalled body (unreadable reason) fields rest h = cc

  located-parse_split :
      (s : Split) (fields : Fields S) (body id : String)
      → parse_split unmarshal decode s ≡ contents (fields, body)
      → read_string_field "id" fields ≡ some id
      → located s ≡ some id
  unfolding parse_split located extract_id_from_yaml
  located-parse_split unopened fields body id h k = cc
  located-parse_split (unclosed lines) fields body id h k = cc
  located-parse_split (split above below) fields body id h k =
      ap (λ o. or_next o (extract_id_from_lines (join_lines above)))
        (root_id-unmarshalled (join_lines below) (unmarshal (join_lines above)) fields body h ∙ k)

  -- The lenient search for the id of a document finds the id that the parsed frontmatter has.
  pub extract_id_lenient-parsed :
      (raw : String) (fields : Fields S) (body id : String)
      → parse_frontmatter unmarshal decode raw ≡ contents (fields, body)
      → read_string_field "id" fields ≡ some id
      → extract_id_lenient raw ≡ some id
  unfolding parse_frontmatter extract_id_lenient
  extract_id_lenient-parsed raw fields body id h k =
      located-parse_split (split_document (document_lines raw)) fields body id h k
