-- ===== src/Write/Capability/Order.antt =====
-- internal/application/schema/capabilities/write/builder.go: sorting and deduplicating a list of paths keeps the
-- paths that it has.
use spec_cli.Common.{
  String, ◌≡◌, refl, ◌∙◌, ap, Bool, false, Option, none, some, List, [], ◌∷◌, ◌++◌, arith,
}
use spec_cli.Common.{◌==◌, ◌||◌, string_eq, sort_by, insert_by}
use spec_cli.Common.Dict.{contains}
use spec_cli.Write.Capability.{dedupe_from, dedupe_sorted}

pub contains-append :
    (xs ys : List String) (a : String) → contains (xs ++ ys) a ≡ (contains xs a || contains ys a)
contains-append [] ys a = refl
contains-append (x ∷ xs) ys a = grind (arith, contains-append xs ys a)

contains-insert_by :
    (less : String → String → Bool) (x : String) (xs : List String) (a : String)
    → contains (insert_by less x xs) a ≡ (x == a || contains xs a)
unfolding insert_by
contains-insert_by less x [] a = refl
contains-insert_by less x (y ∷ ys) a = grind (arith, contains-insert_by less x ys a)

pub contains-sort_by :
    (less : String → String → Bool) (xs : List String) (a : String)
    → contains (sort_by less xs) a ≡ contains xs a
unfolding sort_by
contains-sort_by less [] a = refl
contains-sort_by less (x ∷ xs) a =
    contains-insert_by less x (sort_by less xs) a
    ∙ ap (λ b. x == a || b) (contains-sort_by less xs a)

abbrev is_last : Option String → String → Bool
is_last none a = false
is_last (some y) a = y == a

contains-dedupe_from :
    (last : Option String) (xs : List String) (a : String)
    → (is_last last a || contains (dedupe_from last xs) a) ≡ (is_last last a || contains xs a)
unfolding dedupe_from
contains-dedupe_from last [] a = refl
contains-dedupe_from none (x ∷ xs) a = contains-dedupe_from (some x) xs a
contains-dedupe_from (some y) (x ∷ xs) a = grind (arith, contains-dedupe_from (some x) xs a)

pub contains-dedupe_sorted :
    (xs : List String) (a : String) → contains (dedupe_sorted xs) a ≡ contains xs a
unfolding dedupe_sorted
contains-dedupe_sorted xs a = contains-dedupe_from none (sort_by _ xs) a ∙ contains-sort_by _ xs a
