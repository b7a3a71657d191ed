-- ===== src/Read/Sort/Laws.antt =====
-- The effective order of a root.
use spec_cli.Common.{◌≡◌, String, true, List, [], ◌∷◌, ◌++◌, arith, ◌⊎◌}
use spec_cli.Common.{string_eq, eq_self}
use spec_cli.Errors.{ok}
use spec_cli.Read.Capability.{Capability}
use spec_cli.Read.Sort.{SortTerm, id_asc, ends_in_id, requested_or_default, build_effective_sort}

ends_in_id-append : (ts : List SortTerm) → ends_in_id (ts ++ id_asc ∷ []) ≡ true
unfolding ends_in_id
ends_in_id-append [] = rw eq_self
ends_in_id-append (t ∷ []) = rw eq_self
ends_in_id-append (t ∷ u ∷ ts) = ends_in_id-append (u ∷ ts)

-- An accepted order ends in the ascending id, and is the requested one, or the default one if none
-- was requested, with nothing but that term added behind it.
pub build_effective_sort-ok :
    (capability : Capability) (requested terms : List SortTerm) (active : List String)
    → build_effective_sort capability requested active ≡ ok terms
    → (ends_in_id terms ≡ true)
      × ((terms ≡ requested_or_default requested)
          ⊎ (terms ≡ requested_or_default requested ++ id_asc ∷ []))
unfolding build_effective_sort
build_effective_sort-ok capability requested terms active h =
    ground (arith, ends_in_id-append (requested_or_default requested))
