-- ===== src/Tests/Sorting.antt =====
-- A sort that does with the sample documents what sort.SliceStable promises.
use mathlib.Core.List.{Perm}
use mathlib.Core.List.Perm
use spec_cli.Common.{
  ◌≡◌, true, String, arith, if◌then◌else◌, ◌==◌, string_eq, Bool, List, [], ◌∷◌, refl, sort_by,
  insert_by, inl, inr, Bool-cases,
}
use spec_cli.Read.Sort.{id_asc}
use spec_cli.Read.Order.{less}
use spec_cli.Read.Order.Contract.{Sorts, is_strict_weak}
use spec_cli.Read.Order.Compare.{IsAsymmetric}
use spec_cli.Read.Order.Uniform.{Kind, number, rendered, IsWeak}
use spec_cli.Read.Order.Uniform.Weak.{less-is_strict_weak}
use spec_cli.Tests.Data.{numbers, entities, by_rank}

module _ {A : Type 0} (lt : A → A → Bool) where
  insert_by-perm : (x : A) (xs : List A) → Perm (insert_by lt x xs) (x ∷ xs)
  unfolding insert_by
  insert_by-perm x [] = Perm.refl (x ∷ [])
  insert_by-perm x (y ∷ ys) = elim (Bool-cases (lt y x)) [
    | inl h ↦ rw h (Perm.trans (Perm.cons y (insert_by-perm x ys)) (Perm.swap x y ys))
    | inr h ↦ rw h (Perm.refl (x ∷ y ∷ ys))
  ]

  pub sort_by-perm : (xs : List A) → Perm (sort_by lt xs) xs
  unfolding sort_by
  sort_by-perm [] = Perm.refl []
  sort_by-perm (x ∷ xs) =
      Perm.trans (insert_by-perm x (sort_by lt xs)) (Perm.cons x (sort_by-perm xs))

kinds : String → Kind
kinds path = if path == "meta.rank" then number else rendered

numbers-IsWeak : IsWeak numbers
numbers-IsWeak a b c h k = ground arith

pub numbers-IsAsymmetric : IsAsymmetric numbers
numbers-IsAsymmetric m n h = ground arith

less-is_strict_weak_example : is_strict_weak (less (by_rank ∷ id_asc ∷ [])) entities ≡ true
unfolding kinds spec_cli.Read.Order.resolve_read_value spec_cli.Values.at spec_cli.Values.find
    spec_cli.Common.string_eq
less-is_strict_weak_example =
    less-is_strict_weak kinds (by_rank ∷ id_asc ∷ []) entities numbers-IsAsymmetric numbers-IsWeak
      ((refl, (refl, tt)), ((refl, (refl, tt)), tt))

-- By rank in the descending order, then by id.
pub entities-Sorts : Sorts numbers (less (by_rank ∷ id_asc ∷ [])) entities
unfolding less spec_cli.Read.Order.resolve_read_value spec_cli.Values.at spec_cli.Values.find
    spec_cli.Read.Order.compare_literal_values sort_by spec_cli.Common.string_eq
    spec_cli.Common.Text.str_lt spec_cli.Common.insert_by
entities-Sorts = (sort_by-perm (less (by_rank ∷ id_asc ∷ [])) entities, λ _. ((refl, tt), (tt, tt)))
