-- ===== src/Frontmatter.antt =====
-- internal/application/entitydoc (frontmatter.go, locate.go, document.go) and internal/application/yamlnodes/nodes.go:
-- a document as its frontmatter and its body. The parser and the decoder of YAML are parameters.
pub mod Keys
pub mod Serialize
pub mod Locate
use spec_cli.Common.{
  ℕ, ◌+◌, String, ◌<>◌, Bool, true, false, not, Option, none, some, List, [], ◌∷◌,
}
use spec_cli.Common.{◌==◌, ◌&&◌, ◌||◌, string_eq, nat_eq, if◌then◌else◌}
use Prim.Native.Char.{code}
use Prim.Native.String.{[] as empty, ◌∷◌ as cons_char}
use spec_cli.Common.Dict.{contains}
use spec_cli.Common.Text.{trim_space, strip_prefix, trim_left_by}
use spec_cli.Common.Decimal.{itoa}
use spec_cli.Values.{Scalars, Fields}
use spec_cli.Sections.{replace_crlf, split_lines, join_lines}
use spec_cli.Write.Values.{Read, contents, unreadable}
use spec_cli.Update.Candidate.{read_string_field}

-- The kinds of `yaml.Node` that the code tells apart.
pub data Kind : Type 0 where
  document : Kind
  mapping : Kind
  sequence : Kind
  other : Kind

-- `yaml.Node`, with the fields that the code reads: `Kind`, `Value` and `Content`.
mutual
  pub data Node : Type 0 where
    node : Kind → String → Nodes → Node

  pub data Nodes : Type 0 where
    no_nodes : Nodes
    and_node : Node → Nodes → Nodes

-- `DuplicateKey`
pub record DuplicateKey : Type 0 where
  pub path : String
  pub key : String

-- `FirstContentNode`; the root that it is given is there.
unfoldable pub first_content_node : Node → Option Node
first_content_node (node document v no_nodes) = none
first_content_node (node document v (and_node n ns)) = some n
first_content_node (node mapping v ns) = some (node mapping v ns)
first_content_node (node sequence v ns) = some (node sequence v ns)
first_content_node (node other v ns) = some (node other v ns)

-- `joinDot`
unfoldable pub join_dot : String → String → String
unfolding string_eq
join_dot base part = if base == "" then part else if part == "" then base else base <> "." <> part

abbrev pub or_else : Option DuplicateKey → Option DuplicateKey → Option DuplicateKey
or_else (some d) rest = some d
or_else none rest = rest

abbrev pub item_path : String → ℕ → String
unfolding itoa
item_path path i = path <> "[" <> itoa i <> "]"

-- `FindDuplicateMappingKey`, and its three loops.
unfoldable mutual
  unfolding join_dot itoa string_eq

  pub find_duplicate : Node → String → Option DuplicateKey
  find_duplicate (node document v ns) path = in_children ns path
  find_duplicate (node mapping v ns) path = in_pairs ns path []
  find_duplicate (node sequence v ns) path = in_items ns path 0
  find_duplicate (node other v ns) path = none

  pub in_children : Nodes → String → Option DuplicateKey
  in_children no_nodes path = none
  in_children (and_node n ns) path = or_else (find_duplicate n path) (in_children ns path)

  pub in_pairs : Nodes → String → List String → Option DuplicateKey
  in_pairs no_nodes path seen = none
  in_pairs (and_node k no_nodes) path seen = none
  in_pairs (and_node (node _ key _) (and_node n ns)) path seen =
      let inside = find_duplicate n (join_dot path key) in
      let rest = in_pairs ns path (key ∷ seen) in
      if contains seen key
      then some (record { path = join_dot path key; key = key })
      else or_else inside rest

  pub in_items : Nodes → String → ℕ → Option DuplicateKey
  in_items no_nodes path i = none
  in_items (and_node n ns) path i =
      or_else (find_duplicate n (item_path path i)) (in_items ns path (i + 1))

-- `lines[idx] == "---" || lines[idx] == "..."`
abbrev pub is_closing : String → Bool
is_closing line = line == "---" || line == "..."

abbrev before : String → Option (List String × List String) → Option (List String × List String)
before line none = none
before line (some (above, below)) = some (line ∷ above, below)

-- The lines above and below the first closing delimiter.
unfoldable pub at_closing : List String → Option (List String × List String)
unfolding string_eq
at_closing [] = none
at_closing (line ∷ lines) =
    let rest = at_closing lines in if is_closing line then some ([], lines) else before line rest

-- The lines of a document: without a start, without an end of the frontmatter, or with both.
pub data Split : Type 0 where
  unopened : Split
  unclosed : List String → Split
  split : List String → List String → Split

abbrev closed_at : List String → Option (List String × List String) → Split
closed_at lines none = unclosed lines
closed_at lines (some (above, below)) = split above below

unfoldable pub split_document : List String → Split
unfolding at_closing string_eq
split_document [] = unopened
split_document (line ∷ lines) =
    if line == "---" then closed_at lines (at_closing lines) else unopened

-- The lines of a document as both functions read it.
unfoldable pub document_lines : String → List String
unfolding split_lines replace_crlf
document_lines raw = split_lines (replace_crlf raw)

module _ {S : Scalars} (unmarshal : String → Read Node) (decode : Node → Read (Fields S)) where
  decoded : String → Read (Fields S) → Read (Fields S × String)
  decoded body (contents fields) = contents (fields, body)
  decoded body (unreadable reason) = unreadable ("frontmatter decode failed: " <> reason)

  no_duplicates : String → Node → Option DuplicateKey → Read (Fields S × String)
  unfolding decoded
  no_duplicates body n none = decoded body (decode n)
  no_duplicates body n (some d) =
      unreadable ("frontmatter contains duplicate key '" <> d.key <> "'")

  in_mapping : String → Option Node → Read (Fields S × String)
  unfolding no_duplicates find_duplicate
  in_mapping body (some (node mapping v ns)) =
      no_duplicates body (node mapping v ns) (find_duplicate (node mapping v ns) "")
  in_mapping body _ = unreadable "frontmatter root must be a yaml mapping"

  unmarshalled : String → Read Node → Read (Fields S × String)
  unfolding in_mapping first_content_node
  unmarshalled body (contents root) = in_mapping body (first_content_node root)
  unmarshalled body (unreadable reason) = unreadable ("frontmatter is not valid yaml: " <> reason)

  parse_split : Split → Read (Fields S × String)
  unfolding unmarshalled join_lines
  parse_split unopened = unreadable "frontmatter must start with '---' on the first line"
  parse_split (unclosed _) = unreadable "frontmatter closing delimiter ('---' or '...') is missing"
  parse_split (split above below) = unmarshalled (join_lines below) (unmarshal (join_lines above))

  -- `ParseFrontmatter`
  unfoldable pub parse_frontmatter : String → Read (Fields S × String)
  unfolding parse_split split_document document_lines
  parse_frontmatter raw = parse_split (split_document (document_lines raw))

  decoded_id : Read (Fields S) → Option String
  unfolding read_string_field
  decoded_id (contents fields) = read_string_field "id" fields
  decoded_id (unreadable _) = none

  mapping_id : Option Node → Option String
  unfolding decoded_id
  mapping_id (some (node mapping v ns)) = decoded_id (decode (node mapping v ns))
  mapping_id _ = none

  root_id : Read Node → Option String
  unfolding mapping_id first_content_node
  root_id (contents root) = mapping_id (first_content_node root)
  root_id (unreadable _) = none

  -- `extractIDFromYAML`
  unfoldable pub extract_id_from_yaml : String → Option String
  unfolding root_id
  extract_id_from_yaml text = root_id (unmarshal text)
