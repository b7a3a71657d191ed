-- ===== src/Read/Order/Compare.antt =====
-- Swapping the two sides of a comparison.
use Prim.Native.Nat.{Ordering}
use spec_cli.Common.{
  ◌≡◌, refl, String, Bool, true, false, not, Option, none, some, List, [], ◌∷◌, arith,
}
use spec_cli.Common.{◌==◌, ◌&&◌, string_eq, eq_true, and_left, subst, ◌≢◌, ◌⊎◌}
use spec_cli.Common.Text.{str_lt}
use spec_cli.Common.TextOrder.{str_lt_asym, str_lt_total}
use mathlib.Core.Option
use spec_cli.Values.{Scalars, Value, null, bool, num, time, str, list, object, render, find, at}
use spec_cli.Read.Sort.{Direction, asc, desc, SortTerm, is_asc, ends_in_id}
use spec_cli.Read.Order.{
  three_way, compare_texts, compare_literal_values, term_less, decided_or, less, EntityView,
  resolve_read_value,
}

-- What the code relies on about `<` on float64.
abbrev pub IsAsymmetric : Scalars → Type 0
IsAsymmetric S = (m n : S.Num) → S.num_lt m n ≡ true → S.num_lt n m ≡ false

abbrev pub swap : Ordering → Ordering
swap Ordering.lt = Ordering.gt
swap Ordering.eq = Ordering.eq
swap Ordering.gt = Ordering.lt

three_way-swap : (a b : Bool) → (a ≡ true → b ≡ false) → three_way b a ≡ swap (three_way a b)
three_way-swap true true h = absurd (ground (arith, h refl))
three_way-swap true false h = refl
three_way-swap false true h = refl
three_way-swap false false h = refl

compare_texts-swap : (s t : String) → compare_texts t s ≡ swap (compare_texts s t)
unfolding compare_texts
compare_texts-swap s t = three_way-swap (str_lt s t) (str_lt t s) (str_lt_asym s t)

module _ {S : Scalars} (asym : IsAsymmetric S) where
  pub compare_literal_values-swap :
      (v w : Value S) → compare_literal_values w v ≡ swap (compare_literal_values v w)
  unfolding compare_literal_values
  compare_literal_values-swap (num m) (num n) = three_way-swap _ _ (asym m n)
  compare_literal_values-swap (str s) (str t) = compare_texts-swap s t
  compare_literal_values-swap (bool true) (bool true) = refl
  compare_literal_values-swap (bool true) (bool false) = refl
  compare_literal_values-swap (bool false) (bool true) = refl
  compare_literal_values-swap (bool false) (bool false) = refl
  compare_literal_values-swap null null = compare_texts-swap (render null) (render null)
  compare_literal_values-swap (time t) null = compare_texts-swap (render (time t)) (render null)
  compare_literal_values-swap (list l) null = compare_texts-swap (render (list l)) (render null)
  compare_literal_values-swap (object o) null = compare_texts-swap (render (object o)) (render null)
  compare_literal_values-swap v w = compare_texts-swap (render v) (render w)

  term_less-swap :
      (d : Direction) (x y : Option (Value S)) → term_less d y x ≡ Option.map not (term_less d x y)
  unfolding term_less
  term_less-swap asc none none = refl
  term_less-swap desc none none = refl
  term_less-swap asc none (some w) = refl
  term_less-swap desc none (some w) = refl
  term_less-swap asc (some v) none = refl
  term_less-swap desc (some v) none = refl
  term_less-swap asc (some v) (some w) = ground (arith, compare_literal_values-swap v w)
  term_less-swap desc (some v) (some w) = ground (arith, compare_literal_values-swap v w)

  -- No two entities are each before the other.
  pub less-asym :
      (ts : List SortTerm) (a b : EntityView S) → less ts a b ≡ true → less ts b a ≡ false
  unfolding less
  less-asym [] a b h = refl
  less-asym (t ∷ ts) a b h = ground (
    arith,
    less-asym ts a b,
    term_less-swap t.direction (resolve_read_value a.view t.path)
        (resolve_read_value b.view t.path),
  )

decided_last :
    (x y : Option Bool) (r s : Bool)
    → x ≢ none
    → y ≡ Option.map not x
    → (decided_or x r ≡ true) ⊎ (decided_or y s ≡ true)
decided_last x y r s n e = ground arith

decided_next :
    (x y : Option Bool) (r s : Bool)
    → y ≡ Option.map not x
    → (r ≡ true) ⊎ (s ≡ true)
    → (decided_or x r ≡ true) ⊎ (decided_or y s ≡ true)
decided_next x y r s e h = ground arith

-- An id that is a text, as every entity of the index has one.
abbrev pub HasId : {S : Scalars} → EntityView S → String → Type 0
HasId e i = find "id" e.view ≡ some (str i)

id_value :
    {S : Scalars} (e : EntityView S) (i : String)
    → HasId e i
    → resolve_read_value e.view "id" ≡ some (str i)
unfolding resolve_read_value at
id_value e i h = ground arith

three_way_of_ne : (s t : String) → s ≢ t → three_way (str_lt s t) (str_lt t s) ≢ Ordering.eq
three_way_of_ne s t n e = n (str_lt_total s t (ground arith) (ground arith))

module _ {S : Scalars} (a b : EntityView S) (i j : String) (ha : HasId a i) (hb : HasId b j)
    (n : i ≢ j) where
  term_less_ids : term_less {S = S} asc (some (str i)) (some (str j)) ≢ none
  unfolding term_less compare_literal_values
  term_less_ids = ground (arith, three_way_of_ne i j n)

  last_term :
      (p : String) (d : Direction)
      → (p == "id" && is_asc d) ≡ true
      → term_less d (resolve_read_value a.view p) (resolve_read_value b.view p) ≢ none
  last_term p desc h e = absurd (ground arith)
  last_term p asc h e = term_less_ids (
      rw (← id_value a i ha, ← id_value b j hb)
        (subst
          (λ q. term_less asc (resolve_read_value a.view q) (resolve_read_value b.view q) ≡ none)
          (eq_true p "id" (and_left _ _ h)) e))

  -- A list of terms that ends in the ascending id decides between any two entities with different ids.
  pub less_total :
      IsAsymmetric S
      → (ts : List SortTerm) → ends_in_id ts ≡ true
      → (less ts a b ≡ true) ⊎ (less ts b a ≡ true)
  unfolding less ends_in_id
  less_total asym [] h = cc
  less_total asym (t ∷ []) h = decided_last _ _ false false (last_term t.path t.direction h) (
      term_less-swap asym t.direction (resolve_read_value a.view t.path)
        (resolve_read_value b.view t.path))
  less_total asym (t ∷ u ∷ ts) h =
      decided_next _ _ (less (u ∷ ts) a b) (less (u ∷ ts) b a)
        (term_less-swap asym t.direction (resolve_read_value a.view t.path)
          (resolve_read_value b.view t.path))
        (less_total asym (u ∷ ts) h)
