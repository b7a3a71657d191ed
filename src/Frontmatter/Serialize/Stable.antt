-- ===== src/Frontmatter/Serialize/Stable.antt =====
-- internal/application/commands/internal/markdown/serializer.go and internal/application/entitydoc/frontmatter.go: a
-- document that was written is read back, and writing it again changes nothing.
use spec_cli.Common.{String, ◌<>◌, ◌≡◌, refl, sym, ◌∙◌, ap, true, false, Bool-cases, inl, inr}
use spec_cli.Common.{◌==◌, string_eq, nat_eq, if◌then◌else◌}
use text.Mathlib.TextLemmas.{
  append_assoc, nil-append, cons-ne-nil, append-ne-nil_of_right_ne-nil, append-nil, cons-append,
}
use spec_cli.Common.{◌≢◌, eq_true, eq_false}
use spec_cli.Common.Text.{trim_left_by, trim_right_by}
use spec_cli.Sections.{replace_crlf}
use mathlib.Core.Path.{ap₂}
use spec_cli.Common.{and_right, not, arith}
use spec_cli.Values.{Scalars, Fields}
use spec_cli.Write.Values.{Read, contents, unreadable}
use spec_cli.Sections.{split_lines, join_lines}
use spec_cli.Common.Text.{split_on}
use spec_cli.Common.{List, [], ◌∷◌, ◌++◌, all, some}
use spec_cli.Common.{Option, none}
use spec_cli.Frontmatter.{
  DuplicateKey, document, mapping, sequence, other, node, decoded, no_duplicates, in_mapping,
  find_duplicate, first_content_node, split, is_closing, at_closing, split_document, Node,
  parse_frontmatter, parse_split, unmarshalled, document_lines,
}
use spec_cli.Frontmatter.Serialize.{
  replace_cr, apply_platform_newlines, is_newline, is_line_end, with_trailing_newline,
  normalize_document_body, body_tail, document_text,
}
use spec_cli.Frontmatter.Serialize.Lines.{
  no_cr, newline-append, split_on-append, join-split_on, starts_within, trim_left-starts,
  starts-trim_left, starts-trim_right, trim_right-trim_right, replace_crlf-no_cr, replace_cr-no_cr,
  no_cr-append, no_cr-trim_left, no_cr-trim_right, trim_right-drops, trim_right-keeps,
}

-- The body as the serializer writes it, without its end.
abbrev pub core : String → String
core body = trim_right_by is_line_end (normalize_document_body body)

-- The body that a written document has when it is read.
unfoldable pub stored_body : String → String
stored_body body = if core body == "" then "" else "\n" <> (core body <> "\n")

tail-empty : trim_right_by is_line_end (body_tail "") ≡ body_tail (trim_right_by is_line_end "")
unfolding string_eq trim_right_by nat_eq
tail-empty = refl

newlines_trimmed : trim_right_by is_line_end "\n\n" ≡ ""
unfolding trim_right_by nat_eq string_eq
newlines_trimmed = refl

dashes_kept : trim_right_by is_line_end "\n---" ≡ "\n---"
unfolding trim_right_by nat_eq string_eq
dashes_kept = refl

trim_right-tail :
    (b : String) → trim_right_by is_line_end (body_tail b) ≡ body_tail (trim_right_by is_line_end b)
trim_right-tail b = elim (Bool-cases (b == "")) [
  | inl h ↦ rw (eq_true b "" h) tail-empty
  | inr h ↦ rw h (elim (Bool-cases (trim_right_by is_line_end b == "")) [
    | inl k ↦ rw k (trim_right-drops is_line_end "\n\n" b (eq_true _ _ k) ∙ newlines_trimmed)
    | inr k ↦ rw k (trim_right-keeps is_line_end "\n\n" b (eq_false _ _ k))
  ])
]

trim_right-dashes :
    (t : String) → trim_right_by is_line_end ("\n---" <> t) ≡ "\n---" <> trim_right_by is_line_end t
trim_right-dashes t = elim (Bool-cases (trim_right_by is_line_end t == "")) [
  | inl k ↦
      trim_right-drops is_line_end "\n---" t (eq_true _ _ k)
      ∙ dashes_kept
      ∙ sym (ap (λ s. "\n---" <> s) (eq_true _ _ k) ∙ append-nil "\n---")
  | inr k ↦ trim_right-keeps is_line_end "\n---" t (eq_false _ _ k)
]

trim_right-document :
    (fm t : String)
    → trim_right_by is_line_end ("---\n" <> (fm <> ("\n---" <> t)))
      ≡ "---\n" <> (fm <> ("\n---" <> trim_right_by is_line_end t))
trim_right-document fm t =
    trim_right-keeps is_line_end "---\n" (fm <> ("\n---" <> t)) (λ e. inner_kept (sym inner ∙ e))
    ∙ ap (λ s. "---\n" <> s) inner
  where
    dashes_stay : "\n---" <> trim_right_by is_line_end t ≢ ""
    dashes_stay e =
        cons-ne-nil "\n" _ (sym (cons-append "\n" "---" (trim_right_by is_line_end t)) ∙ e)

    inner :
        trim_right_by is_line_end (fm <> ("\n---" <> t))
        ≡ fm <> ("\n---" <> trim_right_by is_line_end t)
    inner =
        trim_right-keeps is_line_end fm ("\n---" <> t)
          (λ e. dashes_stay (sym (trim_right-dashes t) ∙ e))
        ∙ ap (λ s. fm <> s) (trim_right-dashes t)

    inner_kept : fm <> ("\n---" <> trim_right_by is_line_end t) ≢ ""
    inner_kept = append-ne-nil_of_right_ne-nil fm dashes_stay

literals_plain :
    (no_cr "---\n" ≡ true) × (no_cr "\n---" ≡ true) × (no_cr "\n\n" ≡ true) × (no_cr "\n" ≡ true)
unfolding nat_eq
literals_plain = (refl, refl, refl, refl)

no_cr-both : (s t : String) → no_cr s ≡ true → no_cr t ≡ true → no_cr (s <> t) ≡ true
no_cr-both s t h k = no_cr-append s t ∙ (rw h k)

no_cr-tail : (b : String) → no_cr b ≡ true → no_cr (body_tail b) ≡ true
no_cr-tail b h = elim (Bool-cases (b == "")) [
  | inl k ↦ rw k refl
  | inr k ↦ rw k (no_cr-both "\n\n" b literals_plain.2 h)
]

no_cr-core : (body : String) → no_cr body ≡ true → no_cr (core body) ≡ true
unfolding normalize_document_body
no_cr-core body h = no_cr-trim_right (normalize_document_body body) (
    ap (λ s. no_cr (trim_left_by is_newline s)) (replace_crlf-no_cr body h)
    ∙ no_cr-trim_left body h)

no_cr-whole :
    (fm body : String)
    → no_cr fm ≡ true
    → no_cr body ≡ true
    → no_cr (("---\n" <> (fm <> ("\n---" <> body_tail (core body)))) <> "\n") ≡ true
no_cr-whole fm body h k =
    no_cr-both _ "\n"
      (no_cr-both "---\n" _ literals_plain.0 (
        no_cr-both fm _ h
          (no_cr-both "\n---" _ literals_plain.1 (no_cr-tail (core body) (no_cr-core body k)))))
      literals_plain.3

-- The text of a document without carriage returns.
document_text-plain :
    (fm body : String)
    → no_cr fm ≡ true
    → no_cr body ≡ true
    → document_text false fm body ≡ ("---\n" <> (fm <> ("\n---" <> body_tail (core body)))) <> "\n"
unfolding document_text apply_platform_newlines with_trailing_newline
document_text-plain fm body h k =
    let whole = ("---\n" <> (fm <> ("\n---" <> body_tail (core body)))) <> "\n" in
    ap (λ s. replace_cr (replace_crlf (s <> "\n")))
      (trim_right-document fm (body_tail (normalize_document_body body))
        ∙ ap (λ s. "---\n" <> (fm <> ("\n---" <> s)))
            (trim_right-tail (normalize_document_body body)))
    ∙ ap replace_cr (replace_crlf-no_cr whole (no_cr-whole fm body h k))
    ∙ replace_cr-no_cr whole (no_cr-whole fm body h k)

tail-stored : (body : String) → body_tail (core body) <> "\n" ≡ "\n" <> stored_body body
unfolding stored_body
tail-stored body = elim (Bool-cases (core body == "")) [
  | inl h ↦ rw h refl
  | inr h ↦ rw h (append_assoc "\n\n" (core body) "\n" ∙ append_assoc "\n" "\n" (core body <> "\n"))
]

-- The text of a document, by its lines.
document_text-lines :
    (fm body : String)
    → no_cr fm ≡ true
    → no_cr body ≡ true
    → document_text false fm body
      ≡ "---" <> ("\n" <> (fm <> ("\n" <> ("---" <> ("\n" <> stored_body body)))))
document_text-lines fm body h k =
    document_text-plain fm body h k
    ∙ append_assoc "---\n" (fm <> ("\n---" <> body_tail (core body))) "\n"
    ∙ ap (λ s. "---\n" <> s)
        (append_assoc fm ("\n---" <> body_tail (core body)) "\n"
          ∙ ap (λ s. fm <> s)
              (append_assoc "\n---" (body_tail (core body)) "\n"
                ∙ ap (λ s. "\n---" <> s) (tail-stored body)
                ∙ append_assoc "\n" "---" ("\n" <> stored_body body)))
    ∙ append_assoc "---" "\n" (fm <> ("\n" <> ("---" <> ("\n" <> stored_body body))))

at_closing-append :
    (above below : List String)
    → all (λ line. not (is_closing line)) above ≡ true
    → at_closing (above ++ "---" ∷ below) ≡ some (above, below)
unfolding at_closing
at_closing-append [] below h = refl
at_closing-append (line ∷ above) below h = elim (Bool-cases (is_closing line)) [
  | inl k ↦ absurd (ground arith)
  | inr k ↦ rw k (rw (at_closing-append above below (and_right (not (is_closing line)) _ h)) refl)
]

split_lines-dashes : split_lines "---" ≡ "---" ∷ []
unfolding split_lines split_on nat_eq
split_lines-dashes = refl

split_lines-append :
    (s t : String) → split_lines (s <> ("\n" <> t)) ≡ split_lines s ++ split_lines t
unfolding split_lines
split_lines-append s t = split_on-append "" s t

join-split_lines : (s : String) → join_lines (split_lines s) ≡ s
unfolding split_lines join_lines
join-split_lines s = join-split_on "" s ∙ nil-append s

-- The lines of a document of a frontmatter and what stands below it.
split_document-lines :
    (fm rest : String)
    → all (λ line. not (is_closing line)) (split_lines fm) ≡ true
    → split_document (split_lines ("---" <> ("\n" <> (fm <> ("\n" <> ("---" <> ("\n" <> rest)))))))
      ≡ split (split_lines fm) (split_lines rest)
unfolding split_document
split_document-lines fm rest h =
    rw
      (
        split_lines-append "---" (fm <> ("\n" <> ("---" <> ("\n" <> rest)))),
        split_lines-dashes,
        split_lines-append fm ("---" <> ("\n" <> rest)),
        split_lines-append "---" rest,
        split_lines-dashes,
      )
      (rw (at_closing-append (split_lines fm) (split_lines rest) h) refl)

no_cr-lines :
    (fm rest : String)
    → no_cr fm ≡ true
    → no_cr rest ≡ true
    → no_cr ("---" <> ("\n" <> (fm <> ("\n" <> ("---" <> ("\n" <> rest)))))) ≡ true
unfolding nat_eq
no_cr-lines fm rest h k =
    let below = "---" <> ("\n" <> rest) in
    no_cr-both "---" ("\n" <> (fm <> ("\n" <> below))) refl (
      no_cr-both "\n" (fm <> ("\n" <> below)) refl (
        no_cr-both fm ("\n" <> below) h (
          no_cr-both "\n" below refl
            (no_cr-both "---" ("\n" <> rest) refl (no_cr-both "\n" rest refl k)))))

-- Reading a document up to the end of its frontmatter.
module _ {S : Scalars} (unmarshal : String → Read Node) (decode : Node → Read (Fields S)) where
  parse_frontmatter-lines :
      (fm rest : String)
      → no_cr fm ≡ true
      → no_cr rest ≡ true
      → all (λ line. not (is_closing line)) (split_lines fm) ≡ true
      → parse_frontmatter unmarshal decode
          ("---" <> ("\n" <> (fm <> ("\n" <> ("---" <> ("\n" <> rest))))))
        ≡ unmarshalled unmarshal decode rest (unmarshal fm)
  unfolding parse_frontmatter parse_split document_lines
  parse_frontmatter-lines fm rest h k closed =
      ap (λ s. parse_split unmarshal decode (split_document (split_lines s)))
        (replace_crlf-no_cr ("---" <> ("\n" <> (fm <> ("\n" <> ("---" <> ("\n" <> rest))))))
          (no_cr-lines fm rest h k))
      ∙ ap (parse_split unmarshal decode) (split_document-lines fm rest closed)
      ∙ ap₂ (λ s u. unmarshalled unmarshal decode s (unmarshal u)) (join-split_lines rest)
          (join-split_lines fm)

newline_trimmed_left :
    (s : String) → trim_left_by is_newline ("\n" <> s) ≡ trim_left_by is_newline s
unfolding trim_left_by nat_eq
newline_trimmed_left s = ap (trim_left_by is_newline) (newline-append s)

newline_trimmed_right : trim_right_by is_line_end "\n" ≡ ""
unfolding trim_right_by nat_eq string_eq
newline_trimmed_right = refl

-- A body between newlines is what trimming leaves of it.
trim-wrapped :
    (c : String)
    → starts_within c ≡ true
    → trim_right_by is_line_end c ≡ c
    → (c == "") ≡ false
    → trim_right_by is_line_end (trim_left_by is_newline ("\n" <> (c <> "\n"))) ≡ c
trim-wrapped c starts trimmed n =
    ap (trim_right_by is_line_end)
      (newline_trimmed_left (c <> "\n") ∙ trim_left-starts c "\n" starts n)
    ∙ trim_right-drops is_line_end c "\n" newline_trimmed_right
    ∙ trimmed

core-plain :
    (s : String) → no_cr s ≡ true → core s ≡ trim_right_by is_line_end (trim_left_by is_newline s)
unfolding normalize_document_body
core-plain s h =
    ap (λ r. trim_right_by is_line_end (trim_left_by is_newline r)) (replace_crlf-no_cr s h)

core-starts : (s : String) → no_cr s ≡ true → starts_within (core s) ≡ true
core-starts s h =
    ap starts_within (core-plain s h)
    ∙ starts-trim_right (trim_left_by is_newline s) (starts-trim_left s)

core-empty : core "" ≡ ""
unfolding normalize_document_body replace_crlf trim_left_by trim_right_by
core-empty = refl

no_cr-stored_body : (body : String) → no_cr body ≡ true → no_cr (stored_body body) ≡ true
unfolding stored_body
no_cr-stored_body body h = elim (Bool-cases (core body == "")) [
  | inl k ↦ rw k refl
  | inr k ↦ rw k (
      no_cr-both "\n" _ literals_plain.3
        (no_cr-both (core body) "\n" (no_cr-core body h) literals_plain.3))
]

stored_nothing : (body : String) → (core body == "") ≡ true → stored_body body ≡ ""
unfolding stored_body
stored_nothing body k = rw k refl

stored_something :
    (body : String) → (core body == "") ≡ false → stored_body body ≡ "\n" <> (core body <> "\n")
unfolding stored_body
stored_something body k = rw k refl

-- Writing what was read gives the same body.
core-stored_body : (body : String) → no_cr body ≡ true → core (stored_body body) ≡ core body
core-stored_body body h = elim (Bool-cases (core body == "")) [
  | inl k ↦ ap core (stored_nothing body k) ∙ core-empty ∙ sym (eq_true (core body) "" k)
  | inr k ↦
      core-plain (stored_body body) (no_cr-stored_body body h)
      ∙ ap (λ s. trim_right_by is_line_end (trim_left_by is_newline s)) (stored_something body k)
      ∙ trim-wrapped (core body) (core-starts body h)
          (trim_right-trim_right is_line_end (normalize_document_body body)) k
]

-- The fields do not depend on the body.
module _ {S : Scalars} (unmarshal : String → Read Node) (decode : Node → Read (Fields S))
    (one two : String) (fields : Fields S) where
  decoded-body :
      (r : Read (Fields S))
      → decoded unmarshal decode one r ≡ contents (fields, one)
      → decoded unmarshal decode two r ≡ contents (fields, two)
  unfolding decoded
  decoded-body (contents found) h = cc
  decoded-body (unreadable reason) h = cc

  no_duplicates-body :
      (n : Node) (d : Option DuplicateKey)
      → no_duplicates unmarshal decode one n d ≡ contents (fields, one)
      → no_duplicates unmarshal decode two n d ≡ contents (fields, two)
  unfolding no_duplicates
  no_duplicates-body n none h = decoded-body (decode n) h
  no_duplicates-body n (some d) h = cc

  in_mapping-body :
      (o : Option Node)
      → in_mapping unmarshal decode one o ≡ contents (fields, one)
      → in_mapping unmarshal decode two o ≡ contents (fields, two)
  unfolding in_mapping
  in_mapping-body none h = cc
  in_mapping-body (some (node mapping v ns)) h =
      no_duplicates-body (node mapping v ns) (find_duplicate (node mapping v ns) "") h
  in_mapping-body (some (node document v ns)) h = cc
  in_mapping-body (some (node sequence v ns)) h = cc
  in_mapping-body (some (node other v ns)) h = cc

  unmarshalled-body :
      (root : Read Node)
      → unmarshalled unmarshal decode one root ≡ contents (fields, one)
      → unmarshalled unmarshal decode two root ≡ contents (fields, two)
  unfolding unmarshalled
  unmarshalled-body (contents root) h = in_mapping-body (first_content_node root) h
  unmarshalled-body (unreadable reason) h = cc

-- If the frontmatter alone is read as some fields, has no line that closes it and, as the body, no carriage
-- return, then on a system other than Windows the document of both is read as these fields and the body between
-- newlines, and writing it again with the body that was read gives the same document.
pub document_text-stable :
    {S : Scalars} (unmarshal : String → Read Node) (decode : Node → Read (Fields S))
    (fm body : String) (fields : Fields S)
    → no_cr fm ≡ true
    → no_cr body ≡ true
    → all (λ line. not (is_closing line)) (split_lines fm) ≡ true
    → parse_frontmatter unmarshal decode ("---\n" <> (fm <> "\n---\n")) ≡ contents (fields, "")
    → (parse_frontmatter unmarshal decode (document_text false fm body)
        ≡ contents (fields, stored_body body))
      × (document_text false fm (stored_body body) ≡ document_text false fm body)
document_text-stable unmarshal decode fm body fields h k closed alone =
    let read = parse_frontmatter-lines unmarshal decode fm in
    (
      ap (parse_frontmatter unmarshal decode) (document_text-lines fm body h k)
          ∙ read (stored_body body) h (no_cr-stored_body body k) closed
          ∙ unmarshalled-body unmarshal decode "" (stored_body body) fields (unmarshal fm) (
              sym (read "" h refl closed)
              ∙ ap (parse_frontmatter unmarshal decode)
                  (sym (append_assoc "---" "\n" (fm <> ("\n" <> ("---" <> ("\n" <> ""))))))
              ∙ alone),
      document_text-plain fm (stored_body body) h (no_cr-stored_body body k)
          ∙ ap (λ c. ("---\n" <> (fm <> ("\n---" <> body_tail c))) <> "\n")
              (core-stored_body body k)
          ∙ sym (document_text-plain fm body h k),
    )
