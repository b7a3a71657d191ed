-- ===== src/Interpolation.antt =====
-- internal/application/schema/expressions (interpolation.go, and `StringifyInterpolationValue` of evaluator.go): the
-- templates of a schema. Compiling an expression, evaluating it and printing a number are parameters. A compile error
-- is without its offset.
pub mod Laws
use spec_cli.Common.{
  ℕ, suc, ◌+◌, ◌-◌, String, ◌<>◌, Bool, true, false, not, Option, none, some, List, [], ◌∷◌,
}
use spec_cli.Common.{◌==◌, ◌&&◌, ◌||◌, nat_eq, string_eq, if◌then◌else◌}
use Prim.Native.Char.{code}
use Prim.Native.String.{[] as empty, ◌∷◌ as cons_char}
use spec_cli.Common.Text.{trim_space}
use spec_cli.Values.{Scalars, Value, null, bool, num, time, str, list, object}
use spec_cli.Check.Rules.{Evaluated, evaluated, eval_error}

-- The variables of `findInterpolationEnd`: the quote that the scanner is in, if any, and the depths.
pub record Scanner : Type 0 where
  pub quote : Option ℕ
  pub escaped : Bool
  pub braces : ℕ
  pub brackets : ℕ
  pub parens : ℕ

abbrev pub at_start : Scanner
at_start = record { quote = none; escaped = false; braces = 0; brackets = 0; parens = 0 }

-- One round of its loop inside a quote.
abbrev in_quote : ℕ → ℕ → Scanner → Scanner
in_quote q c s =
    if s.escaped
    then record s { escaped = false }
    else if c == 92
    then record s { escaped = true }
    else if c == q
    then record s { quote = none }
    else s

-- The switch on a character outside of quotes; the end is tested before.
abbrev outside : ℕ → Scanner → Scanner
outside c s =
    if c == 39 || c == 34 || c == 96
    then record s { quote = some c }
    else if c == 123
    then record s { braces = suc s.braces }
    else if c == 125
    then record s { braces = s.braces - 1 }
    else if c == 91
    then record s { brackets = suc s.brackets }
    else if c == 93
    then record s { brackets = s.brackets - 1 }
    else if c == 40
    then record s { parens = suc s.parens }
    else if c == 41
    then record s { parens = s.parens - 1 }
    else s

abbrev advance_by : Option ℕ → ℕ → Scanner → Scanner
advance_by none c s = outside c s
advance_by (some q) c s = in_quote q c s

unfoldable pub advance : ℕ → Scanner → Scanner
unfolding nat_eq
advance c s = advance_by s.quote c s

abbrev unquoted : Option ℕ → Bool
unquoted none = true
unquoted (some _) = false

-- The closing brace of the interpolation.
unfoldable pub is_end : ℕ → Scanner → Bool
unfolding nat_eq
is_end c s = unquoted s.quote && c == 125 && s.braces == 0 && s.brackets == 0 && s.parens == 0

-- The literals and the texts between `${` and its end, up to the end of the template or to an interpolation
-- without an end.
pub data Pieces : Type 0 where
  no_more : Pieces
  unterminated : String → Pieces
  literal : String → Pieces → Pieces
  interpolation : String → Pieces → Pieces

-- An empty literal is left out.
abbrev literal_if : String → Pieces → Pieces
literal_if text rest = if text == "" then rest else literal text rest

-- The two loops over a template, in a literal and behind `${`, with the text since its start.
pub data Mode : Type 0 where
  in_literal : Mode
  in_expression : Scanner → Mode

unfoldable pub scan : Mode → String → String → Pieces
unfolding nat_eq string_eq is_end advance
scan in_literal seen empty = literal_if seen no_more
scan in_literal seen (cons_char c empty) = literal_if (seen <> cons_char c empty) no_more
scan in_literal seen (cons_char c (cons_char d s)) =
    let opened = scan (in_expression at_start) "" s in
    let kept = scan in_literal (seen <> cons_char c empty) (cons_char d s) in
    if code c == 36 && code d == 123 then literal_if seen opened else kept
scan (in_expression scanner) seen empty = unterminated seen
scan (in_expression scanner) seen (cons_char c s) =
    let closed = scan in_literal "" s in
    let longer = scan (in_expression (advance (code c) scanner)) (seen <> cons_char c empty) s in
    if is_end (code c) scanner then interpolation seen closed else longer

pub data Compiled (A : Type 0) : Type 0 where
  compiled : A → Compiled A
  compile_error : String → String → Compiled A

-- `TemplatePart`
pub data TemplatePart (Expr : Type 0) : Type 0 where
  text : String → TemplatePart Expr
  expression : Expr → TemplatePart Expr

syntax_error {ℓ} : {A : Type ℓ} → (String → String → A) → A
syntax_error error =
    error "schema.interpolation.syntax_error" "unterminated interpolation, missing closing '}'"

-- `literalContainsBraces`
unfoldable pub contains_braces : String → Bool
unfolding nat_eq
contains_braces empty = false
contains_braces (cons_char c s) = code c == 123 || code c == 125 || contains_braces s

legacy_in : Pieces → Compiled Bool
unfolding contains_braces syntax_error
legacy_in no_more = compiled false
legacy_in (unterminated _) = syntax_error compile_error
legacy_in (literal t rest) =
    let next = legacy_in rest in if contains_braces t then compiled true else next
legacy_in (interpolation _ rest) = legacy_in rest

-- `ContainsLegacyPlaceholder`
unfoldable pub contains_legacy_placeholder : String → Compiled Bool
unfolding legacy_in scan
contains_legacy_placeholder raw = legacy_in (scan in_literal "" raw)

module _ {Expr : Type 0} (compile : String → Compiled Expr) where
  abbrev with_part :
      TemplatePart Expr → Compiled (List (TemplatePart Expr)) → Compiled (List (TemplatePart Expr))
  with_part part (compiled parts) = compiled (part ∷ parts)
  with_part part (compile_error code message) = compile_error code message

  abbrev with_expression :
      Compiled Expr → Compiled (List (TemplatePart Expr)) → Compiled (List (TemplatePart Expr))
  with_expression (compiled e) rest = with_part (expression e) rest
  with_expression (compile_error code message) rest = compile_error code message

  -- The parts, up to the first error.
  unfoldable pub compile_pieces : Pieces → Compiled (List (TemplatePart Expr))
  unfolding trim_space syntax_error string_eq
  compile_pieces no_more = compiled []
  compile_pieces (unterminated _) = syntax_error compile_error
  compile_pieces (literal t rest) = with_part (text t) (compile_pieces rest)
  compile_pieces (interpolation e rest) =
      let next = compile_pieces rest in
      if trim_space e == ""
      then compile_error "schema.interpolation.empty_expression"
          "interpolation ${...} must contain a non-empty expression"
      else with_expression (compile (trim_space e)) next

  at_least_one : String → Compiled (List (TemplatePart Expr)) → Compiled (List (TemplatePart Expr))
  at_least_one raw (compiled []) = compiled (text raw ∷ [])
  at_least_one raw (compiled (p ∷ ps)) = compiled (p ∷ ps)
  at_least_one raw (compile_error code message) = compile_error code message

  -- `compileTemplateWithMode`
  unfoldable pub compile_template : String → Compiled (List (TemplatePart Expr))
  unfolding at_least_one compile_pieces scan
  compile_template raw = at_least_one raw (compile_pieces (scan in_literal "" raw))

  single : Compiled (List (TemplatePart Expr)) → Compiled Expr
  single (compiled (expression e ∷ [])) = compiled e
  single (compile_error code message) = compile_error code message
  single (compiled _) =
      compile_error "schema.expression.invalid_scalar_interpolation"
        "value must be a single interpolation in form ${expr}"

  -- `CompileScalarInterpolation`
  unfoldable pub compile_scalar_interpolation : String → Compiled Expr
  unfolding single compile_template
  compile_scalar_interpolation raw = single (compile_template raw)

unsupported : String → Evaluated String
unsupported kind = eval_error ("interpolation result has unsupported type " <> kind)

abbrev joined : Evaluated String → Evaluated String → Evaluated String
joined (evaluated s) (evaluated t) = evaluated (s <> t)
joined (evaluated s) (eval_error m) = eval_error m
joined (eval_error m) rest = eval_error m

module _ {S : Scalars} (number_text : S.Num → String) where
  -- `StringifyInterpolationValue`
  unfoldable pub stringify : Value S → Evaluated String
  unfolding unsupported
  stringify (str s) = evaluated s
  stringify (bool true) = evaluated "true"
  stringify (bool false) = evaluated "false"
  stringify (num n) = evaluated (number_text n)
  stringify null = eval_error "interpolation result must be string, number, or boolean"
  stringify (time _) = unsupported "time.Time"
  stringify (list _) = unsupported "[]interface {}"
  stringify (object _) = unsupported "map[string]interface {}"

  printed : Evaluated (Value S) → Evaluated String
  unfolding stringify
  printed (evaluated v) = stringify v
  printed (eval_error m) = eval_error m

  module _ {Expr : Type 0} (eval : Expr → Evaluated (Value S)) where
    -- `RenderTemplate`
    unfoldable pub render_template : List (TemplatePart Expr) → Evaluated String
    unfolding printed
    render_template [] = evaluated ""
    render_template (text t ∷ parts) = joined (evaluated t) (render_template parts)
    render_template (expression e ∷ parts) = joined (printed (eval e)) (render_template parts)
