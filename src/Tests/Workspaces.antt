-- ===== src/Tests/Workspaces.antt =====
-- Reading a workspace, checking and adding documents at concrete inputs.
use spec_cli.Common.{◌≡◌, refl, String, true, false, some, none, [], ◌∷◌, ◌↔◌, ◌<>◌}
use spec_cli.Common.Dict.{lookup}
use spec_cli.Common.Text.{trim_space}
use spec_cli.Read.Execute.{Run, done, refused, panicked}
use spec_cli.Common.{ℕ, Option, length}
use spec_cli.Write.Values.{contents}
use spec_cli.Update.Apply.Changes.{Ends}
use spec_cli.Update.Candidate.{build_candidate}
use spec_cli.Frontmatter.{node, Kind, no_nodes, and_node, parse_frontmatter, find_duplicate}
use spec_cli.Frontmatter.Keys.{Apart, find_duplicate-none_iff}
use spec_cli.Frontmatter.Locate.{extract_id_lenient, extract_id_lenient-parsed}
use spec_cli.Frontmatter.Serialize.{document_text}
use spec_cli.Frontmatter.Serialize.Stable.{stored_body, document_text-stable}
use spec_cli.Workspace.Add
use spec_cli.Workspace.Add.Laws.{IsIndexed, build_snapshot-IsIndexed}
use spec_cli.Workspace.Update
use spec_cli.Workspace.Update.Laws.{targets, shown, build_snapshot-targets}
use spec_cli.Check.Entity.{check}
use spec_cli.Write.{Issue}
use spec_cli.Common.{List}
use spec_cli.Check.Entity.Conforms.{Conforms, check-Conforms}
use spec_cli.Add.Execute.{execute}
use spec_cli.Add.Execute.Safe.{Outcome, add-safe}
use spec_cli.Interpolation.{scan, in_literal, no_more, literal, interpolation}
use spec_cli.Interpolation.Laws.{source_of, source_of-scan}
use spec_cli.Tests.Data.{doc_type}
use spec_cli.Tests.Samples.{all_succeeds, two_files}
use spec_cli.Read.Load.{load_entities, parse_documents, id_index, ParsedDocument}
use spec_cli.Read.Load.Shown.{ShowAll, AreKnown, is_asked_for, load_entities-ShowAll}
use spec_cli.Workspace.{scan_markdown_files}
use spec_cli.Common.{select}
use spec_cli.Tests.Data.{capability, numbers}
use spec_cli.Tests.Sources.{
  read_sources, as_mapping, fields_of, as_fields, first_text, add_sources, update_sources,
  add_snapshot, rank_model, as_null, as_itself, add_services, add_options, two_documents,
}

find_duplicate-none_iff_example :
    (find_duplicate
        (node Kind.mapping "" (
          and_node
            (node Kind.other "a" no_nodes)
            (and_node (node Kind.other "1" no_nodes) no_nodes)))
        ""
      ≡ none)
    ↔ Apart (
        node Kind.mapping "" (
          and_node
            (node Kind.other "a" no_nodes)
            (and_node (node Kind.other "1" no_nodes) no_nodes)))
find_duplicate-none_iff_example =
    find_duplicate-none_iff
      (node Kind.mapping "" (
        and_node (node Kind.other "a" no_nodes) (and_node (node Kind.other "1" no_nodes) no_nodes)))
      ""

extract_id_lenient-parsed_example :
    extract_id_lenient as_mapping as_fields first_text ≡ some "DOC-1"
unfolding parse_frontmatter spec_cli.Update.Candidate.read_string_field
extract_id_lenient-parsed_example =
    extract_id_lenient-parsed as_mapping as_fields first_text (fields_of "DOC-1") "text\n" "DOC-1"
      refl refl

document_text-stable_example :
    (parse_frontmatter as_mapping as_fields (document_text false "DOC-1" "\n\ntext\n\n")
      ≡ contents (fields_of "DOC-1", stored_body "\n\ntext\n\n"))
    × (document_text false "DOC-1" (stored_body "\n\ntext\n\n")
        ≡ document_text false "DOC-1" "\n\ntext\n\n")
unfolding spec_cli.Common.nat_eq spec_cli.Sections.split_lines spec_cli.Common.string_eq
    parse_frontmatter
document_text-stable_example =
    document_text-stable as_mapping as_fields "DOC-1" "\n\ntext\n\n" (fields_of "DOC-1") refl refl
      refl refl

-- That document, and the body that it is read with.
document_text_test :
    (document_text false "DOC-1" "\n\ntext\n\n" ≡ "---\nDOC-1\n---\n\ntext\n")
    × (stored_body "\n\ntext\n\n" ≡ "\ntext\n")
unfolding document_text stored_body
document_text_test = (refl, refl)

build_snapshot-IsIndexed_example :
    Ends
      (IsIndexed (("doc", "DOC") ∷ []))
      (Add.build_snapshot add_sources (("doc", "DOC") ∷ []) "/")
build_snapshot-IsIndexed_example = build_snapshot-IsIndexed add_sources (("doc", "DOC") ∷ []) "/"

add_snapshot_test : Add.build_snapshot add_sources (("doc", "DOC") ∷ []) "/" ≡ done add_snapshot
unfolding Add.build_snapshot spec_cli.Common.string_eq spec_cli.Common.Dict.lookup
add_snapshot_test = refl

build_snapshot-targets_example :
    Ends
      (λ s. s.target_matches ≡ targets update_sources (trim_space "DOC-1") (shown two_documents))
      (Update.build_snapshot update_sources "/" "DOC-1")
build_snapshot-targets_example = build_snapshot-targets update_sources "/" "DOC-1"

-- The one target of that example.
targets_test :
    targets update_sources "DOC-1" (shown two_documents)
    ≡ record { path_abs = "/a.md"; raw = first_text } ∷ []
unfolding spec_cli.Common.sort_by spec_cli.Workspace.markdown_files spec_cli.Common.Text.str_lt
    Update.matching
targets_test = refl

check-Conforms_example :
    (check as_null as_itself
        (λ _. true)
        rank_model
        (record { entities_by_id = []; slugs_by_type = []; own_path = "" })
        (build_candidate (fields_of "DOC-1") "")
        []
        []
      ≡ [])
    ↔ ((◌≡◌ {A = List Issue} [] [])
        × ((◌≡◌ {A = List Issue} [] [])
            × Conforms as_null as_itself
                (λ _. true)
                rank_model
                (record { entities_by_id = []; slugs_by_type = []; own_path = "" })
                (build_candidate (fields_of "DOC-1") "")))
check-Conforms_example =
    check-Conforms as_null as_itself (λ _. true) rank_model
      (record { entities_by_id = []; slugs_by_type = []; own_path = "" })
      (build_candidate (fields_of "DOC-1") "") [] []

add-safe_example :
    Outcome add_services add_options all_succeeds doc_type rank_model add_snapshot two_files
      (execute add_services add_options all_succeeds doc_type rank_model add_snapshot two_files).1
add-safe_example =
    add-safe add_services add_options all_succeeds doc_type rank_model add_sources
      (("doc", "DOC") ∷ []) "/" add_snapshot two_files add_snapshot_test

-- The run of that example writes the document.
add_test :
    lookup "/c.md"
      (execute add_services add_options all_succeeds doc_type rank_model add_snapshot two_files).1
    ≡ some "---\nid: DOC-3\n---\n"
unfolding lookup execute spec_cli.Sections.Heading.heading_of
add_test = refl

load_entities-ShowAll_example :
    Ends
      (λ views.
        (files : List String) × (documents : List (ParsedDocument numbers)) × (scan_markdown_files
            read_sources.walk
          ≡ done files)
        × (parse_documents read_sources files ≡ done documents)
        × AreKnown capability documents
        × ShowAll capability
            (id_index documents [])
            (select (is_asked_for ("doc" ∷ [])) documents)
            views)
      (load_entities read_sources capability ("doc" ∷ []))
load_entities-ShowAll_example = load_entities-ShowAll read_sources capability ("doc" ∷ [])

abbrev how_many : {A : Type 0} → Run (List A) → Option ℕ
how_many (done xs) = some (length xs)
how_many (refused _) = none
how_many panicked = none

-- Both documents are loaded.
load_entities_test : how_many (load_entities read_sources capability ("doc" ∷ [])) ≡ some 2
unfolding load_entities
load_entities_test = refl

source_of-scan_example :
    source_of (scan in_literal "" "docs/${slug || '}'}.md") ≡ "docs/${slug || '}'}.md"
source_of-scan_example = source_of-scan "docs/${slug || '}'}.md"

-- A brace in quotes does not end an interpolation.
scan_test :
    scan in_literal "" "docs/${slug || '}'}.md"
    ≡ literal "docs/" (interpolation "slug || '}'" (literal ".md" no_more))
unfolding scan
scan_test = refl
