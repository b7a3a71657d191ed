-- ===== src/Errors.antt =====
-- internal/domain/errors/codes.go: the error every command reports, and its exit code.
use spec_cli.Common.{ℕ, String, List, ◌≡◌, refl, ◌⊎◌, inl, inr}

pub data Code : Type 0 where
  invalid_args invalid_config : Code
  schema_not_found schema_read_error schema_parse_error schema_invalid schema_projection_error :
      Code
  entity_type_unknown entity_not_found target_ambiguous ambiguous_entity_id : Code
  path_conflict id_conflict slug_conflict : Code
  write_contract_violation validation_failed concurrency_conflict revision_unavailable : Code
  delete_blocked_by_refs invalid_query invalid_query_result graphql_projection_error : Code
  read_failed write_failed internal_error capability_unsupported not_implemented : Code

-- A value in the details of an error.
pub data Detail : Type 0 where
  text : String → Detail
  count : ℕ → Detail
  records : List (List (String × String)) → Detail

unfoldable pub exit_code_for : Code → ℕ
exit_code_for Code.invalid_args = 2
exit_code_for Code.invalid_config = 2
exit_code_for Code.invalid_query = 2
exit_code_for Code.entity_type_unknown = 2
exit_code_for Code.read_failed = 3
exit_code_for Code.write_failed = 3
exit_code_for Code.schema_not_found = 4
exit_code_for Code.schema_read_error = 4
exit_code_for Code.schema_parse_error = 4
exit_code_for Code.schema_invalid = 4
exit_code_for Code.schema_projection_error = 4
exit_code_for Code.graphql_projection_error = 4
exit_code_for Code.internal_error = 5
exit_code_for _ = 1

pub record AppError : Type 0 where
  pub code : Code
  pub message : String
  pub details : List (String × Detail)
  pub exit_code : ℕ

-- `New`
unfoldable pub new : Code → String → List (String × Detail) → AppError
unfolding exit_code_for
new code message details = record {
  code = code;
  message = message;
  details = details;
  exit_code = exit_code_for code;
}

-- A Go result `(T, *AppError)`.
pub data Result {ℓ} (A : Type ℓ) : Type ℓ where
  ok : A → Result A
  fail : AppError → Result A

infixl 5 ◌>>=◌ ◌>>◌
abbrev pub ◌>>=◌ {ℓ ℓ'} : {T : Type ℓ} {U : Type ℓ'} → Result T → (T → Result U) → Result U
fail error >>= next = fail error
ok value >>= next = next value

-- A check, and what runs after it.
abbrev pub ◌>>◌ {ℓ} : {U : Type ℓ} → Result (Unit {0}) → Result U → Result U
fail error >> next = fail error
ok _ >> next = next

pub Result-cases {ℓ} :
    {A : Type ℓ} (r : Result A) → ((a : A) × (r ≡ ok a)) ⊎ ((e : AppError) × (r ≡ fail e))
Result-cases (ok a) = inl (a, refl)
Result-cases (fail e) = inr (e, refl)

pub fail_not_ok : {A : Type 0} {e : AppError} {a : A} → fail e ≡ ok a → ⊥
fail_not_ok h = cc

pub ok-injective : {A : Type 0} {a b : A} → ok a ≡ ok b → a ≡ b
ok-injective h = cc

-- Inversion of a bind that gives a result.
pub >>=-eq-ok :
    {T U : Type 0} (first : Result T) (next : T → Result U) {u : U}
    → (first >>= next) ≡ ok u
    → (t : T) × (first ≡ ok t) × (next t ≡ ok u)
>>=-eq-ok (fail error) next same = cc
>>=-eq-ok (ok value) next same = (value, refl, same)

-- What a result that is no error has.
abbrev pub Gives {ℓ} : {A : Type ℓ} → (A → Type 0) → Result A → Type 0
Gives P (ok a) = P a
Gives P (fail _) = Unit {0}

pub Gives-bind {ℓ ℓ'} :
    {A : Type ℓ} {B : Type ℓ'} (Q : A → Type 0) (P : B → Type 0) (first : Result A)
    (next : A → Result B)
    → Gives Q first
    → ((a : A) → Q a → Gives P (next a))
    → Gives P (first >>= next)
Gives-bind Q P (ok a) next q step = step a q
Gives-bind Q P (fail _) next q step = tt

pub Gives-then {ℓ} :
    {B : Type ℓ} (Q : Type 0) (P : B → Type 0) (check : Result (Unit {0})) (next : Result B)
    → Gives (λ _. Q) check
    → (Q → Gives P next)
    → Gives P (check >> next)
Gives-then Q P (ok tt) next q step = step q
Gives-then Q P (fail _) next q step = tt

pub Gives-any {ℓ} : {A : Type ℓ} (r : Result A) → Gives (λ _. Unit {0}) r
Gives-any (ok _) = tt
Gives-any (fail _) = tt

pub Gives-map {ℓ} :
    {A : Type ℓ} (P Q : A → Type 0) → ((a : A) → P a → Q a) → (r : Result A) → Gives P r → Gives Q r
Gives-map P Q f (ok a) p = f a p
Gives-map P Q f (fail _) p = tt
