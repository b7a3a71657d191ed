-- ===== src/Common/TextOrder.antt =====
-- The order of texts: it is asymmetric, total and transitive.
use Prim.Native.Char.{Char, code}
use Prim.Native.String.{String, [], ◌∷◌}
use mathlib.Core.Path.{◌≡◌, refl, ap₂}
use mathlib.Core.Bool.{true, false}
use native.Mathlib.Omega.{arith}
use text.Mathlib.TextEquality.{Char-path}
use spec_cli.Common.Text.{str_lt}

pub str_lt_asym : (s t : String) → str_lt s t ≡ true → str_lt t s ≡ false
unfolding str_lt
str_lt_asym s [] h = cc
str_lt_asym [] (d ∷ t) h = refl
str_lt_asym (c ∷ s) (d ∷ t) h = ground (arith, str_lt_asym s t)

pub str_lt_irrefl : (s : String) → str_lt s s ≡ false
unfolding str_lt
str_lt_irrefl [] = refl
str_lt_irrefl (c ∷ s) = ground (arith, str_lt_irrefl s)

-- Two texts neither of which is below the other are the same.
pub str_lt_total : (s t : String) → str_lt s t ≡ false → str_lt t s ≡ false → s ≡ t
unfolding str_lt
str_lt_total [] [] h k = refl
str_lt_total [] (d ∷ t) h k = cc
str_lt_total (c ∷ s) [] h k = cc
str_lt_total (c ∷ s) (d ∷ t) h k =
    ap₂ String.◌∷◌ (code_injective c d (ground arith))
      (str_lt_total s t (ground arith) (ground arith))
  where
    code_injective : (c d : Char) → code c ≡ code d → c ≡ d
    code_injective c d e = Char-path c d e

pub str_lt_trans : (s t u : String) → str_lt s t ≡ true → str_lt t u ≡ true → str_lt s u ≡ true
unfolding str_lt
str_lt_trans s t [] h k = cc
str_lt_trans s [] (e ∷ u) h k = cc
str_lt_trans [] (d ∷ t) (e ∷ u) h k = refl
str_lt_trans (c ∷ s) (d ∷ t) (e ∷ u) h k = ground (arith, str_lt_trans s t u)
