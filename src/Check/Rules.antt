-- ===== src/Check/Rules.antt =====
-- internal/application/commands/internal/schemarules/rules.go and internal/application/schema/rulevalues: the value
-- of a field against the rules of the schema. Evaluating expressions and rendering templates are parameters.
pub mod Fits
use spec_cli.Common.{
  ℕ, suc, String, ◌<>◌, Bool, true, false, not, Option, none, some, List, [], ◌∷◌, ◌++◌, any, all,
  length,
}
use spec_cli.Common.{◌==◌, ◌&&◌, ◌||◌, string_eq, if◌then◌else◌, ltb}
use spec_cli.Common.Text.{trim_space}
use spec_cli.Common.Decimal.{itoa}
use spec_cli.Common.Dict.{Dict, lookup}
use spec_cli.Values.{
  Scalars, Value, null, bool, num, time, str, list, object, Items, nil, cons, items, is_truthy,
  normalize_value,
}
use spec_cli.Values.Entries.{literal_equal}
use spec_cli.Write.{Issue}

-- A result of the expression engine, or the message of its error.
pub data Evaluated (A : Type 0) : Type 0 where
  evaluated : A → Evaluated A
  eval_error : String → Evaluated A

-- `RuleValue`
pub data RuleValue (S : Scalars) (Template : Type 0) : Type 0 where
  literal : Value S → RuleValue S Template
  template : Template → RuleValue S Template

-- `Required`, `RequiredExpr` and `RequiredPath` of a field or a section.
pub record Requirement (Expr : Type 0) : Type 0 where
  pub always : Bool
  pub expr : Option Expr
  pub path : String

-- `MetaField`, with the fields that the checks read; a bound or a constant is absent where it has no `Has...`.
pub record FieldRules (S : Scalars) (Expr Template : Type 0) : Type 0 where
  pub name : String
  pub field_type : String
  pub requirement : Requirement Expr
  pub enum : List (RuleValue S Template)
  pub const : Option (RuleValue S Template)
  pub item_type : Option String
  pub unique_items : Bool
  pub min_items : Option ℕ
  pub max_items : Option ℕ

pub issue : String → String → String → String → Issue
issue code message standard_ref place = record {
  code = code;
  message = message;
  standard_ref = standard_ref;
  field = place;
}

-- The issue, if the test fails.
abbrev pub unless : Bool → Issue → List Issue
unless b i = if b then [] else i ∷ []

module _ {S : Scalars} where
  -- The switch of `Check` on the type, for a value that is no array; `IsValueOfType` has the same tests.
  unfoldable pub has_type : String → Value S → Bool
  unfolding trim_space
  has_type kind (str s) =
      if kind == "string" then true else kind == "entityRef" && not (trim_space s == "")
  has_type kind (num n) = if kind == "integer" then S.num_is_integer n else kind == "number"
  has_type kind (bool b) = kind == "boolean"
  has_type kind _ = false

  -- `IsValueOfType`
  unfoldable pub is_value_of_type : Value S → String → Bool
  unfolding has_type normalize_value trim_space
  is_value_of_type v kind = has_type (trim_space kind) (normalize_value v)

  -- Some later item equals the item.
  abbrev pub repeated : Value S → List (Value S) → Bool
  repeated v vs = any (λ w. literal_equal v w) vs

  abbrev pub at_least : Option ℕ → List (Value S) → Bool
  at_least none vs = true
  at_least (some n) vs = not (ltb (length vs) n)

  abbrev pub at_most : Option ℕ → List (Value S) → Bool
  at_most none vs = true
  at_most (some n) vs = not (ltb n (length vs))

  abbrev pub all_of_type : Option String → List (Value S) → Bool
  all_of_type none vs = true
  all_of_type (some kind) vs = all (λ v. is_value_of_type v kind) vs

abbrev pub number_of : Option ℕ → ℕ
number_of none = 0
number_of (some n) = n

module _ {S : Scalars} {Expr Template : Type 0} (eval : Expr → Evaluated (Value S))
    (render : Template → Evaluated String) where
  required_by : Evaluated (Value S) → Evaluated Bool
  unfolding is_truthy
  required_by (evaluated v) = evaluated (is_truthy v)
  required_by (eval_error m) = eval_error m

  abbrev required_of : Bool → Option Expr → Evaluated Bool
  required_of always none = evaluated always
  required_of always (some e) = required_by (eval e)

  -- `EvaluateRequired`
  unfoldable pub evaluate_required : Requirement Expr → Evaluated Bool
  unfolding required_by
  evaluate_required r = required_of r.always r.expr

  rendered_value : Evaluated String → Evaluated (Value S)
  rendered_value (evaluated s) = evaluated (str s)
  rendered_value (eval_error m) = eval_error m

  -- `Resolve`
  unfoldable pub resolve_rule : RuleValue S Template → Evaluated (Value S)
  unfolding rendered_value
  resolve_rule (literal v) = evaluated v
  resolve_rule (template t) = rendered_value (render t)

  abbrev also : Evaluated (Value S) → Evaluated (List (Value S)) → Evaluated (List (Value S))
  also (eval_error m) rest = eval_error m
  also (evaluated v) (eval_error m) = eval_error m
  also (evaluated v) (evaluated vs) = evaluated (v ∷ vs)

  -- `ResolveAll`
  unfoldable pub resolve_all : List (RuleValue S Template) → Evaluated (List (Value S))
  unfolding resolve_rule
  resolve_all [] = evaluated []
  resolve_all (r ∷ rs) = also (resolve_rule r) (resolve_all rs)

  module _ (rules : FieldRules S Expr Template) where
    abbrev pub field_issue : String → String → String → Issue
    field_issue code message standard_ref =
        issue code message standard_ref ("frontmatter." <> rules.name)

    type_mismatch : String → Issue
    type_mismatch expected =
        field_issue "meta.required_type_mismatch"
          ("field '" <> rules.name <> "' must be " <> expected) "11.5"

    not_unique : Issue
    not_unique =
        field_issue "meta.required_array_unique_items"
          ("field '" <> rules.name <> "' requires unique items") "11.5"

    -- One issue for each item that a later one equals.
    unfoldable pub unique_issues : List (Value S) → List Issue
    unfolding not_unique literal_equal
    unique_issues [] = []
    unique_issues (v ∷ vs) = unless (not (repeated v vs)) not_unique ++ unique_issues vs

    -- The rules of an array.
    unfoldable pub array_issues : List (Value S) → List Issue
    unfolding unique_issues is_value_of_type itoa
    array_issues vs =
        unless (at_least rules.min_items vs) (
          field_issue "meta.required_array_min_items"
            ("field '"
              <> rules.name
              <> "' requires at least "
              <> itoa (number_of rules.min_items)
              <> " items")
            "11.5")
        ++ (unless (at_most rules.max_items vs) (
              field_issue "meta.required_array_max_items"
                ("field '"
                  <> rules.name
                  <> "' allows at most "
                  <> itoa (number_of rules.max_items)
                  <> " items")
                "11.5")
            ++ ((if rules.unique_items then unique_issues vs else [])
                ++ unless (all_of_type rules.item_type vs) (
                    field_issue "meta.required_array_items_mismatch"
                      ("field '" <> rules.name <> "' contains item with unsupported type") "11.5")))

    -- The kinds that the switch knows, besides an array; other kinds are not checked.
    unfoldable pub expected_kind : String → Option String
    unfolding string_eq
    expected_kind kind =
        if kind == "string"
        then some "string"
        else if kind == "integer"
        then some "integer"
        else if kind == "number"
        then some "number"
        else if kind == "boolean"
        then some "boolean"
        else if kind == "entityRef"
        then some "non-empty string"
        else none

    kind_issues : Option String → Value S → List Issue
    unfolding type_mismatch has_type
    kind_issues none v = []
    kind_issues (some expected) v = unless (has_type rules.field_type v) (type_mismatch expected)

    array_type_issues : Value S → List Issue
    unfolding array_issues type_mismatch
    array_type_issues (list vs) = array_issues (items vs)
    array_type_issues _ = type_mismatch "array" ∷ []

    -- The switch on the type.
    unfoldable pub type_issues : Value S → List Issue
    unfolding array_type_issues kind_issues expected_kind
    type_issues v =
        if rules.field_type == "array"
        then array_type_issues v
        else kind_issues (expected_kind rules.field_type) v

    enum_issues_of : Evaluated (List (Value S)) → Value S → List Issue
    unfolding literal_equal
    enum_issues_of (eval_error m) v =
        field_issue "meta.required_enum_interpolation_failed"
          ("field '" <> rules.name <> "' enum interpolation failed: " <> m) "9.4"
        ∷ []
    enum_issues_of (evaluated vs) v = unless (any (λ w. literal_equal w v) vs) (
        field_issue "meta.required_enum_mismatch"
          ("field '" <> rules.name <> "' value is outside enum") "11.5")

    abbrev enum_issues : List (RuleValue S Template) → Value S → List Issue
    enum_issues [] v = []
    enum_issues (r ∷ rs) v = enum_issues_of (resolve_all (r ∷ rs)) v

    const_issues_of : Evaluated (Value S) → Value S → List Issue
    unfolding literal_equal
    const_issues_of (eval_error m) v =
        field_issue "meta.required_const_interpolation_failed"
          ("field '" <> rules.name <> "' const interpolation failed: " <> m) "9.4"
        ∷ []
    const_issues_of (evaluated w) v = unless (literal_equal w v) (
        field_issue "meta.required_value_mismatch"
          ("field '" <> rules.name <> "' must match schema const") "11.5")

    abbrev const_issues : Option (RuleValue S Template) → Value S → List Issue
    const_issues none v = []
    const_issues (some r) v = const_issues_of (resolve_rule r) v

    -- `Check` of schemarules.
    unfoldable pub check_value : Value S → List Issue
    unfolding type_issues enum_issues_of const_issues_of resolve_all resolve_rule normalize_value
    check_value raw =
        let v = normalize_value raw in
        type_issues v ++ (enum_issues rules.enum v ++ const_issues rules.const v)
