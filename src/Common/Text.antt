-- ===== src/Common/Text.antt =====
-- Go's `strings` and `strconv` functions that the code calls, over code points. A text of the model is
-- valid UTF-8; the byte order of Go's `<` is the order of code points on such texts.
use Prim.Native.Nat.{ℕ}
use Prim.Native.Char.{code}
use Prim.Native.String.{String, [], ◌∷◌, ◌++◌}
use mathlib.Core.Bool.{Bool, true, false, ◌&&◌, ◌||◌}
use mathlib.Core.Option.{Option, none, some}
use mathlib.Core.List.{List}
use spec_cli.Common.Tests.{◌==◌, nat_eq, string_eq, ltb, leb, if◌then◌else◌}

-- `unicode.IsSpace`
unfoldable pub is_space : ℕ → Bool
unfolding nat_eq
is_space c =
    (leb 9 c && leb c 13)
    || c == 32
    || c == 0x85
    || c == 0xa0
    || c == 0x1680
    || (leb 0x2000 c && leb c 0x200a)
    || c == 0x2028
    || c == 0x2029
    || c == 0x202f
    || c == 0x205f
    || c == 0x3000

-- `strings.TrimLeftFunc`
unfoldable pub trim_left_by : (ℕ → Bool) → String → String
trim_left_by p [] = []
trim_left_by p (c ∷ s) = let rest = trim_left_by p s in if p (code c) then rest else c ∷ s

-- `strings.TrimRightFunc`
unfoldable pub trim_right_by : (ℕ → Bool) → String → String
unfolding string_eq
trim_right_by p [] = []
trim_right_by p (c ∷ s) =
    let rest = trim_right_by p s in if rest == "" && p (code c) then [] else c ∷ rest

-- `strings.TrimSpace`
unfoldable pub trim_space : String → String
unfolding trim_left_by trim_right_by is_space
trim_space s = trim_right_by is_space (trim_left_by is_space s)

-- `strings.Split` with a separator of one character.
unfoldable pub split_on : ℕ → String → String → List String
unfolding nat_eq
split_on sep cur [] = List.◌∷◌ cur List.[]
split_on sep cur (c ∷ s) =
    let closed = List.◌∷◌ cur (split_on sep "" s) in
    let longer = split_on sep (cur ++ c ∷ []) s in if code c == sep then closed else longer

-- `strings.Join`
unfoldable pub join : String → List String → String
join sep List.[] = ""
join sep (List.◌∷◌ s List.[]) = s
join sep (List.◌∷◌ s (List.◌∷◌ t ts)) = s ++ sep ++ join sep (List.◌∷◌ t ts)

-- `<` on strings.
unfoldable pub str_lt : String → String → Bool
str_lt s [] = false
str_lt [] (d ∷ t) = true
str_lt (c ∷ s) (d ∷ t) =
    let rest = str_lt s t in
    if ltb (code c) (code d) then true else if ltb (code d) (code c) then false else rest

-- `strings.HasPrefix` and `strings.TrimPrefix` together.
unfoldable pub strip_prefix : String → String → Option String
unfolding nat_eq
strip_prefix [] s = some s
strip_prefix (c ∷ p) [] = none
strip_prefix (c ∷ p) (d ∷ s) =
    let rest = strip_prefix p s in if code c == code d then rest else none
