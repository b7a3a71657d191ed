-- ===== src/Tests/Edits.antt =====
-- Updating and adding documents at concrete inputs.
use spec_cli.Common.{
  ◌≡◌, ◌≢◌, ◌⊎◌, refl, String, List, true, false, some, none, [], ◌∷◌, length, any, Option,
}
use spec_cli.Common.Dict.{lookup, insert, has, contains}
use spec_cli.Errors.{Gives}
use spec_cli.Read.Execute.{panicked}
use spec_cli.Values.{find, Value}
use spec_cli.Sections.{SectionRange, replace_crlf, layout_of}
use spec_cli.Sections.Blocks.{blocks, preamble}
use spec_cli.Write.Values.{unreadable}
use spec_cli.Write.Capability.{build_entity}
use spec_cli.Write.Capability.Listed.{build_entity-listed}
use spec_cli.Update.Preflight.{preflight}
use spec_cli.Update.Preflight.Prepared.{ArePrepared, preflight-ArePrepared}
use spec_cli.Update.Apply.{apply_writes}
use spec_cli.Update.Apply.Changes.{apply_writes-changes}
use spec_cli.Update.Apply.Total.{apply_writes-not_panicked}
use spec_cli.Update.Lines.{
  replace_lines, remove_section_range, insert_missing_section, split_raw_lines,
}
use spec_cli.Update.Lines.Laws.{replace_lines-blocks, remove_section_range-blocks, erase_first}
use spec_cli.Update.Lines.Inserted.{insert_missing_section-lookup}
use spec_cli.Update.Execute.{execute, candidate_of}
use spec_cli.Update.Execute.Frame.{candidate_of-untouched}
use spec_cli.Update.Execute.Safe.{Outcome, update-safe}
use spec_cli.Update.Storage.{write_atomically, write_with_move}
use spec_cli.Update.Storage.Safe.{AtomicAt, write_atomically-AtomicAt}
use spec_cli.Update.Storage.Move.{
  MovedAt, both_refused, write_with_move-MovedAt, write_with_move-both_refused,
}
use spec_cli.Add
use spec_cli.Add.Total.{add_writes-not_panicked}
use spec_cli.Pathcalc.{PathCase, always, expression, rendered, evaluate, is_outside}
use spec_cli.Pathcalc.Chosen.{PathFrom, evaluate-PathFrom}
use spec_cli.Tests.Data.{numbers, doc_type, set_rank}
use spec_cli.Tests.Samples.{
  update_options, no_file, no_body_file, seven, ranked, reranked, note_schema, note_options,
  all_succeeds, no_failure, two_files, plain_services, one_match,
}

apply_writes-changes_example :
    ((reranked.user_changed ≡ false)
      × (reranked.changes ≡ [])
      × (reranked.frontmatter ≡ ranked)
      × (reranked.body ≡ replace_crlf "text"))
    ⊎ ((reranked.user_changed ≡ true) × (reranked.changes ≢ []))
unfolding apply_writes
apply_writes-changes_example =
    apply_writes-changes (λ s. s) no_file seven no_body_file (unreadable "closed") update_options
      doc_type ranked "text" reranked refl

candidate_of-untouched_example :
    find "owner"
      (candidate_of plain_services update_options doc_type one_match reranked).frontmatter
    ≡ find "owner" ranked
unfolding apply_writes
candidate_of-untouched_example =
    candidate_of-untouched plain_services update_options doc_type one_match ranked "text" "owner"
      reranked refl refl refl

apply_writes-not_panicked_example :
    apply_writes
      (λ s. s)
      no_file
      seven
      no_body_file
      (unreadable "closed")
      update_options
      doc_type
      ranked
      "text"
    ≢ panicked
apply_writes-not_panicked_example =
    apply_writes-not_panicked (λ s. s) no_file seven no_body_file (unreadable "closed")
      update_options doc_type ranked "text"

preflight-ArePrepared_example :
    Gives
      (λ (ps, _). ArePrepared doc_type (set_rank ∷ []) ps)
      (preflight no_file seven no_body_file (unreadable "closed") update_options doc_type)
preflight-ArePrepared_example =
    preflight-ArePrepared no_file seven no_body_file (unreadable "closed") update_options doc_type

build_entity-listed_example :
    (contains (build_entity note_schema).set_paths "refs.owner"
      ≡ has "refs.owner" (build_entity note_schema).allow_write_paths)
    × (contains (build_entity note_schema).unset_paths "refs.owner"
        ≡ has "refs.owner" (build_entity note_schema).allow_write_paths)
build_entity-listed_example = build_entity-listed note_schema "refs.owner"

add_writes-not_panicked_example :
    Add.apply_writes no_file seven no_body_file
      (unreadable "closed")
      note_options
      (build_entity note_schema)
    ≢ panicked
add_writes-not_panicked_example =
    add_writes-not_panicked no_file seven no_body_file (unreadable "closed") note_options
      note_schema

write_atomically-AtomicAt_example :
    AtomicAt "/a.md" "new" two_files "/b.md" (write_atomically all_succeeds "/a.md" "new" two_files)
unfolding spec_cli.Common.string_eq
write_atomically-AtomicAt_example =
    write_atomically-AtomicAt all_succeeds "/a.md" "new" "/b.md" two_files refl

write_with_move-MovedAt_example :
    let out = write_with_move all_succeeds "/a.md" "/c.md" "new" two_files in
    MovedAt all_succeeds "/a.md" "/c.md" "new" "/c.md" none out.0 (lookup "/c.md" out.1)
unfolding lookup spec_cli.Common.string_eq
write_with_move-MovedAt_example =
    write_with_move-MovedAt all_succeeds "/a.md" "/c.md" "new" "old" "/c.md" two_files refl refl
      (record { no_temp = refl; no_backup = refl }) (record { no_temp = refl; no_backup = refl })

write_with_move-both_refused_example :
    lookup "/a.md"
      (write_with_move
        (both_refused ".tmp" ".backup" no_failure no_failure)
        "/a.md"
        "/c.md"
        "new"
        two_files).1
    ≡ none
unfolding lookup spec_cli.Common.string_eq
write_with_move-both_refused_example =
    write_with_move-both_refused "/a.md" "/c.md" ".tmp" ".backup" "new" "old" "/a.md" no_failure
      no_failure two_files refl refl refl

abbrev body_lines : List String
body_lines = "intro" ∷ "# A {#a}" ∷ "x" ∷ "# B {#b}" ∷ "y" ∷ []

abbrev a_range : SectionRange
a_range = record {
  label = "a";
  title = "A";
  heading_line = 1;
  body_start = 2;
  end_line = 3;
  heading_level = 1;
}

replace_lines-blocks_example :
    let edited = replace_lines body_lines 2 3 ("z" ∷ "w" ∷ []) in
    (blocks edited ≡ insert "a" ("z" ∷ "w" ∷ []) (blocks body_lines))
    × (preamble edited ≡ preamble body_lines)
unfolding spec_cli.Sections.first_range layout_of spec_cli.Sections.Heading.heading_of
replace_lines-blocks_example =
    replace_lines-blocks "a" body_lines ("z" ∷ "w" ∷ []) a_range refl refl

remove_section_range-blocks_example :
    let edited = remove_section_range body_lines 1 3 in
    (blocks edited ≡ erase_first "a" (blocks body_lines)) × (preamble edited ≡ preamble body_lines)
unfolding spec_cli.Sections.first_range layout_of spec_cli.Sections.Heading.heading_of
remove_section_range-blocks_example = remove_section_range-blocks "a" body_lines a_range refl

insert_missing_section-lookup_example :
    lookup "c"
      (blocks (insert_missing_section (layout_of body_lines) "c" "C" "new" ("a" ∷ "c" ∷ "b" ∷ [])))
    ≡ some ("new" ∷ "" ∷ [])
unfolding spec_cli.Sections.Heading.heading_of spec_cli.Update.Lines.heading_line split_raw_lines
    lookup blocks layout_of insert_missing_section
insert_missing_section-lookup_example =
    insert_missing_section-lookup body_lines "c" "C" "new" ("a" ∷ "c" ∷ "b" ∷ [])
      (record { level = 2; label = "c"; title = "C" }) refl refl refl refl

update-safe_example :
    Outcome plain_services update_options all_succeeds one_match two_files
      (execute plain_services update_options all_succeeds
        (("doc", doc_type) ∷ [])
        one_match
        two_files).1
update-safe_example =
    update-safe plain_services update_options all_succeeds (("doc", doc_type) ∷ []) one_match
      two_files

-- The run of that example writes the document.
update_test :
    lookup "/a.md"
      (execute plain_services update_options all_succeeds
        (("doc", doc_type) ∷ [])
        one_match
        two_files).1
    ≡ some "new"
unfolding lookup execute
update_test = refl

-- A pattern of two cases, the first of which has a condition that cannot be evaluated.
abbrev broken_first : List (PathCase String String)
broken_first =
    record {
      when = expression "bad";
      when_path = "schema.when";
      use_template = "x.md";
      use_path = "";
    }
    ∷ record { when = always; when_path = ""; use_template = "docs/a.md"; use_path = "" }
    ∷ []

abbrev fails : String → Option (Value numbers)
fails _ = none

evaluate-PathFrom_example :
    let out = evaluate fails rendered (λ path. path) broken_first in
    (out.0 ≡ "") ⊎ PathFrom fails rendered (λ path. path) broken_first out.0 out.1
evaluate-PathFrom_example = evaluate-PathFrom fails rendered (λ path. path) broken_first

path_test : (evaluate fails rendered (λ path. path) broken_first).0 ≡ "docs/a.md"
unfolding evaluate spec_cli.Common.Text.strip_prefix
path_test = refl

-- The parent of the workspace is taken for a path inside it.
parent_test : is_outside ".." ≡ false
unfolding is_outside spec_cli.Common.Text.strip_prefix
parent_test = refl
