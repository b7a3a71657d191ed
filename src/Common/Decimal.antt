-- ===== src/Common/Decimal.antt =====
-- `strconv.Itoa` on numbers that are not negative, and the digits that `strconv.Atoi` reads.
use Prim.Native.Char.{Char, code}
use Prim.Native.String.{String, [], ◌∷◌}
use Prim.Native.Nat.{ℕ, zero, suc, ◌+◌, ◌-◌, ◌*◌, ◌/◌, ◌%◌, ◌<◌}
use mathlib.Core.Path.{◌≡◌, refl, ◌∙◌, ap}
use mathlib.Core.Bool.{Bool, true, ◌&&◌}
use native.Mathlib.Omega.{arith}
use spec_cli.Common.Tests.{◌==◌, nat_eq, leb, if◌then◌else◌, Bool-cases, eq_true, eq_false}
use mathlib.Core.Logic.{inl, inr, ◌≢◌}
use text.Mathlib.TextLemmas.{cons-ne-nil}

digit : ℕ → Char
digit zero = "0"
digit (suc zero) = "1"
digit (suc (suc zero)) = "2"
digit (suc (suc (suc zero))) = "3"
digit (suc (suc (suc (suc zero)))) = "4"
digit (suc (suc (suc (suc (suc zero))))) = "5"
digit (suc (suc (suc (suc (suc (suc zero)))))) = "6"
digit (suc (suc (suc (suc (suc (suc (suc zero))))))) = "7"
digit (suc (suc (suc (suc (suc (suc (suc (suc zero)))))))) = "8"
digit _ = "9"

-- The digits of a number in front of a text. The fuel is above the number.
digits_from : ℕ → ℕ → String → String
unfolding digit nat_eq
digits_from zero n acc = acc
digits_from (suc fuel) n acc =
    let rest = digits_from fuel (n / 10) (digit (n % 10) ∷ acc) in
    if n / 10 == 0 then digit (n % 10) ∷ acc else rest

unfoldable pub itoa : ℕ → String
unfolding digits_from
itoa n = digits_from (suc n) n []

-- `ch >= '0' && ch <= '9'` for every character.
unfoldable pub all_digits : String → Bool
all_digits [] = true
all_digits (c ∷ s) = leb b'0' (code c) && leb (code c) b'9' && all_digits s

-- The number that digits stand for, behind a number already read.
unfoldable pub read_from : ℕ → String → ℕ
read_from v [] = v
read_from v (c ∷ s) = read_from (v * 10 + (code c - b'0')) s

digit-code : (d : ℕ) → d < 10 → code (digit d) ≡ d + b'0'
unfolding digit
digit-code zero h = refl
digit-code (suc zero) h = refl
digit-code (suc (suc zero)) h = refl
digit-code (suc (suc (suc zero))) h = refl
digit-code (suc (suc (suc (suc zero)))) h = refl
digit-code (suc (suc (suc (suc (suc zero))))) h = refl
digit-code (suc (suc (suc (suc (suc (suc zero)))))) h = refl
digit-code (suc (suc (suc (suc (suc (suc (suc zero))))))) h = refl
digit-code (suc (suc (suc (suc (suc (suc (suc (suc zero)))))))) h = refl
digit-code (suc (suc (suc (suc (suc (suc (suc (suc (suc zero))))))))) h = refl
digit-code (suc (suc (suc (suc (suc (suc (suc (suc (suc (suc d)))))))))) h = absurd (omega arith)

digits_from-read :
    (fuel n : ℕ) (acc : String) → n < fuel → read_from 0 (digits_from fuel n acc) ≡ read_from n acc
unfolding digits_from read_from
digits_from-read zero n acc h = absurd (omega arith)
digits_from-read (suc fuel) n acc h = elim (Bool-cases (n / 10 == 0)) [
  | inl done ↦ rw done (
      ap (λ v. read_from v acc)
        (omega (arith, digit-code (n % 10) (omega arith), eq_true (n / 10) 0 done)))
  | inr more ↦ rw more (
      digits_from-read fuel (n / 10) (digit (n % 10) ∷ acc)
        (omega (arith, eq_false (n / 10) 0 more))
      ∙ ap (λ v. read_from v acc) (omega (arith, digit-code (n % 10) (omega arith))))
]

digits_from-digits :
    (fuel n : ℕ) (acc : String) → all_digits acc ≡ true → all_digits (digits_from fuel n acc) ≡ true
unfolding digits_from all_digits
digits_from-digits zero n acc h = h
digits_from-digits (suc fuel) n acc h =
    ground (arith, digit-code (n % 10), digits_from-digits fuel (n / 10) (digit (n % 10) ∷ acc))

pub read-itoa : (n : ℕ) → read_from 0 (itoa n) ≡ n
unfolding itoa
read-itoa n = digits_from-read (suc n) n [] (omega arith) ∙ unfold read_from in refl

pub itoa-digits : (n : ℕ) → all_digits (itoa n) ≡ true
unfolding itoa
itoa-digits n = digits_from-digits (suc n) n [] (unfold all_digits in refl)

digits_from-ne-nil : (fuel n : ℕ) (c : Char) (acc : String) → digits_from fuel n (c ∷ acc) ≢ []
unfolding digits_from
digits_from-ne-nil zero n c acc e = cons-ne-nil c acc e
digits_from-ne-nil (suc fuel) n c acc e = elim (Bool-cases (n / 10 == 0)) [
  | inl done ↦ cons-ne-nil _ _ (rw done at e)
  | inr more ↦ digits_from-ne-nil fuel (n / 10) (digit (n % 10)) (c ∷ acc) (rw more at e)
]

pub itoa-ne-nil : (n : ℕ) → itoa n ≢ []
unfolding itoa digits_from
itoa-ne-nil n e = elim (Bool-cases (n / 10 == 0)) [
  | inl done ↦ cons-ne-nil _ _ (rw done at e)
  | inr more ↦ digits_from-ne-nil n (n / 10) (digit (n % 10)) [] (rw more at e)
]
