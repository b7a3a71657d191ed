-- ===== src/Tests/Writes.antt =====
-- Writing: ids, references, values, arguments and deletes at concrete inputs.
use spec_cli.Common.{◌≡◌, ◌≢◌, refl, ◌⊎◌, ◌↔◌, String, ◌<>◌, true, false, not, some, [], ◌∷◌, ◌++◌}
use spec_cli.Common.{string_eq, any, ltb→lt}
use Prim.Native.String.{◌∷◌ as cons_char}
use spec_cli.Common.Text.{trim_space}
use spec_cli.Common.Dict.{lookup, erase}
use spec_cli.Errors.{ok}
use spec_cli.Values.{Value, end, num}
use spec_cli.Ids.{format, parse_suffix, Issued, next_id}
use spec_cli.Ids.Laws.{next_id-fresh}
use spec_cli.Read.Capability.{RefField, scalar_ref}
use spec_cli.Refs.Classify.{Index, classify}
use spec_cli.Refs.Resolve.{target_of}
use spec_cli.Refs.Agree.{identity_of, target_of-classify}
use spec_cli.Write.Values.{Read, contents, resolve_value, field_of}
use spec_cli.Write.Values.Laws.{fits, resolve_value-fits}
use spec_cli.Write.Paths.{PathValue, parse_path_value}
use spec_cli.Write.Paths.Laws.{lacks, parse_path_value_iff}
use spec_cli.Write.{WriteOperation, set_file}
use spec_cli.Write.Paths.{Absolute, absolute}
use spec_cli.Delete.{
  Disk, Removal, removed, Deleted, execute, find_blocking_references, ParsedDocument,
}
use spec_cli.Delete.Laws.{
  is_empty, refers, find_blocking_references_iff, MayRemove, execute_safe, execute_dry, as_dry,
}
use spec_cli.Tests.Data.{
  numbers, doc_type, rank_path, set_rank, owner, snapshot, slots, delete_options, document,
}

abbrev issued : Issued
issued = record { type_name = "doc"; id = "DOC-7" }

next_id-fresh_example : issued.id ≢ next_id "doc" "DOC" ([] ++ issued ∷ [])
unfolding spec_cli.Ids.max_suffix parse_suffix string_eq
next_id-fresh_example = next_id-fresh "doc" "DOC" [] [] issued refl (ltb→lt _ _ refl)

abbrev owner_ref : RefField
owner_ref = record { cardinality = scalar_ref; allowed_types = "user" ∷ [] }

abbrev index : Index
index = ("U-1", identity_of owner ∷ []) ∷ []

target_of-classify_example :
    ((classify "U-1" owner_ref index).resolved ≡ true)
    × ((classify "U-1" owner_ref index).type_name ≡ some "user")
    × ((classify "U-1" owner_ref index).slug ≡ some "ann")
unfolding lookup target_of string_eq
target_of-classify_example =
    target_of-classify "owner" "frontmatter.owner" "U-1" owner_ref (("U-1", owner ∷ []) ∷ []) index
      owner refl refl

abbrev no_file : String → Read String
no_file path = contents ""

abbrev seven : String → Read (Value numbers)
seven raw = contents (num 7)

resolve_value-fits_example :
    fits {S = numbers} rank_path.kind (field_of rank_path.field_name doc_type) (num 7) ≡ true
unfolding resolve_value lookup
resolve_value-fits_example =
    resolve_value-fits no_file seven set_rank rank_path doc_type (num 7) (λ e. cc) refl

abbrev title : PathValue
title = record { path = "meta.title"; value = "a=b" }

parse_path_value_iff_example : (parse_path_value "meta.title=a=b" ≡ ok title) ↔ (
    (p : String) × ("meta.title=a=b" ≡ p <> cons_char "=" title.value)
    × (lacks b'=' p ≡ true)
    × (trim_space p ≢ "")
    × (title.path ≡ trim_space p))
parse_path_value_iff_example = parse_path_value_iff "meta.title=a=b" title

abbrev from_file : WriteOperation
from_file = record { kind = set_file; path = "content.sections.Goal"; raw_value = "goal.md" }

abbrev under_root : String → Absolute
under_root path = absolute ("/w/" <> path)

abbrev disk : Disk
disk = ("/a.md", "a") ∷ ("/b.md", "b") ∷ []

abbrev target_document : ParsedDocument numbers
target_document = document "/a.md" "DOC-1" end

find_blocking_references_iff_example :
    is_empty (find_blocking_references slots snapshot target_document)
    ≡ not (any (refers slots target_document) snapshot.documents)
find_blocking_references_iff_example = find_blocking_references_iff slots snapshot target_document

execute_safe_example :
    let out = execute (λ _. removed) delete_options slots snapshot disk in
    (out.1 ≡ disk)
    ⊎ ((target : ParsedDocument numbers) × MayRemove slots snapshot delete_options target
        × (out.1 ≡ erase target.path_abs disk)
        × ((d : Deleted) × (out.0 ≡ ok d)))
execute_safe_example = execute_safe slots snapshot (λ _. removed) delete_options disk

execute_dry_example :
    execute (λ _. removed) (record delete_options { dry_run = true }) slots snapshot disk ≡ (
      as_dry
          (execute
            (λ _. removed)
            (record delete_options { dry_run = false })
            slots
            snapshot
            disk).0,
      disk,
    )
execute_dry_example = execute_dry slots snapshot delete_options disk

-- A document whose reference names the target blocks the delete; without it the file goes.
blocked_test : is_empty (find_blocking_references slots snapshot target_document) ≡ false
unfolding find_blocking_references
blocked_test = refl

deleted_test : (execute (λ _. removed) delete_options [] snapshot disk).1 ≡ ("/b.md", "b") ∷ []
unfolding execute spec_cli.Delete.locate_target string_eq find_blocking_references
deleted_test = refl
