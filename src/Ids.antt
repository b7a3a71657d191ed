-- ===== src/Ids.antt =====
-- internal/application/commands/internal/entityids/entityids.go, and how add picks the next id from
-- it (add/internal/workspace/snapshot.go, add/internal/engine/execute.go).
pub mod Laws
use spec_cli.Common.{
  ℕ, ◌+◌, ◌^◌, String, ◌<>◌, Bool, true, false, not, Option, none, some, List, [], ◌∷◌,
}
use spec_cli.Common.{◌==◌, ◌&&◌, string_eq, if◌then◌else◌, ltb}
use spec_cli.Common.Text.{strip_prefix}
use spec_cli.Common.Decimal.{itoa, all_digits, read_from}

-- The first number that is no `int` of 64 bits.
abbrev pub int_mod : ℕ
int_mod = 2 ^ 63

-- `Format`
unfoldable pub format : String → ℕ → String
unfolding itoa
format prefix suffix = prefix <> "-" <> itoa suffix

-- The tests on `rawSuffix`, and `strconv.Atoi`, which refuses a number out of range.
read_suffix : String → Option ℕ
unfolding all_digits read_from string_eq
read_suffix raw =
    if not (raw == "") && all_digits raw
    then if ltb (read_from 0 raw) int_mod then some (read_from 0 raw) else none
    else none

-- `ParseSuffix`
unfoldable pub parse_suffix : String → String → Option ℕ
unfolding strip_prefix read_suffix
parse_suffix id prefix = elim (strip_prefix (prefix <> "-") id) [
  | none ↦ none
  | some raw ↦ read_suffix raw
]

-- An indexed document of the workspace, as far as its id goes.
pub record Issued : Type 0 where
  pub type_name : String
  pub id : String

-- `!exists || suffix > current`
abbrev pub larger : Option ℕ → ℕ → ℕ
larger none suffix = suffix
larger (some current) suffix = if ltb current suffix then suffix else current

-- The loop body for one document; `none` is the -1 of the source.
unfoldable pub note_suffix : String → String → Option ℕ → Issued → Option ℕ
note_suffix type_name prefix current d =
    if d.type_name == type_name
    then elim (parse_suffix d.id prefix) [
      | none ↦ current
      | some suffix ↦ some (larger current suffix)
    ]
    else current

-- `MaxSuffixByType[typeName]` after the loop over the documents.
unfoldable pub max_suffix : String → String → Option ℕ → List Issued → Option ℕ
unfolding note_suffix
max_suffix type_name prefix current [] = current
max_suffix type_name prefix current (d ∷ ds) =
    max_suffix type_name prefix (note_suffix type_name prefix current d) ds

abbrev pub suffix_after : Option ℕ → ℕ
suffix_after none = 0
suffix_after (some m) = m + 1

-- `nextSuffix` and `candidateID` of add.
unfoldable pub next_id : String → String → List Issued → String
unfolding format max_suffix
next_id type_name prefix issued =
    format prefix (suffix_after (max_suffix type_name prefix none issued))
