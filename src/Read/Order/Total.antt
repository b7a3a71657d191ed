-- ===== src/Read/Order/Total.antt =====
-- internal/application/readmodel/ordering/sort.go under the orders of engine/sort.go: ids that
-- differ.
use spec_cli.Common.{◌≡◌, ◌≢◌, String, true, List, ◌⊎◌}
use spec_cli.Errors.{ok}
use spec_cli.Values.{Scalars}
use spec_cli.Read.Capability.{Capability}
use spec_cli.Read.Sort.{SortTerm, build_effective_sort}
use spec_cli.Read.Sort.Laws.{build_effective_sort-ok}
use spec_cli.Read.Order.{EntityView, less}
use spec_cli.Read.Order.Compare.{IsAsymmetric, HasId, less_total}

-- If no two numbers are each below the other, then under an accepted order, whatever terms were
-- requested, one of two entities whose views have different texts as ids comes before the other.
pub build_effective_sort-less_total :
    {S : Scalars} (capability : Capability) (requested terms : List SortTerm) (active : List String)
    (a b : EntityView S) (i j : String)
    → IsAsymmetric S
    → build_effective_sort capability requested active ≡ ok terms
    → HasId a i
    → HasId b j
    → i ≢ j
    → (less terms a b ≡ true) ⊎ (less terms b a ≡ true)
build_effective_sort-less_total capability requested terms active a b i j asym h ha hb n =
    less_total a b i j ha hb n asym terms
      (build_effective_sort-ok capability requested terms active h).0
