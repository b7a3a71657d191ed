-- ===== src/Pathcalc.antt =====
-- internal/application/commands/internal/pathcalc/evaluator.go: the path of a document, from the cases of its
-- type's pattern. The evaluation of expressions and templates and the cleaning of a path are parameters.
pub mod Chosen
use spec_cli.Common.{String, ◌<>◌, Bool, true, false, not, Option, none, some, List, [], ◌∷◌, ◌++◌}
use spec_cli.Common.{◌==◌, ◌||◌, string_eq, nat_eq, if◌then◌else◌}
use Prim.Native.Char.{Char, code}
use Prim.Native.String.{[] as empty, ◌∷◌ as cons_char}
use spec_cli.Common.Text.{trim_space}
use spec_cli.Values.{Scalars, Value, is_truthy}
use spec_cli.Write.{Issue}
use spec_cli.Write.Paths.{has_prefix}

-- `HasWhen`, `WhenExpr` and `When` of a case.
pub data When (Expr : Type 0) : Type 0 where
  always : When Expr
  expression : Expr → When Expr
  fixed : Bool → When Expr

pub record PathCase (Expr Template : Type 0) : Type 0 where
  pub when : When Expr
  pub when_path : String
  pub use_template : Template
  pub use_path : String

-- What rendering a template gives: a text, or the label of the error.
pub data Rendered : Type 0 where
  rendered : String → Rendered
  unresolved : String → Rendered

-- `issues.PathOrDefault`
unfoldable pub path_or_default : String → String → String
unfolding trim_space
path_or_default path other = if trim_space path == "" then other else path

issue : String → String → String → String → Issue
issue code message standard_ref field = record {
  code = code;
  message = message;
  standard_ref = standard_ref;
  field = field;
}

unfoldable pub no_matching_case : Issue
unfolding issue
no_matching_case =
    issue "instance.pathTemplate.no_matching_case"
      "pathTemplate has no matching case for created entity" "8.4" "schema.pathTemplate"

unfoldable pub when_failed : String → Issue
unfolding issue path_or_default
when_failed path =
    issue "instance.pathTemplate.when_evaluation_failed"
      "failed to evaluate pathTemplate.when expression" "8.4"
      (path_or_default path "schema.pathTemplate.when")

unfoldable pub placeholder_unresolved : String → String → Issue
unfolding issue path_or_default
placeholder_unresolved message path =
    issue "instance.pathTemplate.placeholder_unresolved" message "8.6"
      (path_or_default path "schema.pathTemplate")

-- `strings.ReplaceAll(s, "\\", "/")`
unfoldable pub to_slashes : String → String
unfolding nat_eq
to_slashes empty = empty
to_slashes (cons_char c s) =
    let rest = to_slashes s in if code c == 92 then "/" <> rest else cons_char c rest

-- `normalized` is outside of the workspace, by the tests of the source.
unfoldable pub is_outside : String → Bool
unfolding string_eq
is_outside path = path == "." || has_prefix "../" path || has_prefix "/" path

module _ {S : Scalars} {Expr Template : Type 0} (eval : Expr → Option (Value S))
    (render : Template → Rendered) (clean : String → String) where
  truth : Option (Value S) → Option Bool
  unfolding is_truthy
  truth none = none
  truth (some v) = some (is_truthy v)

  -- Whether a case applies, or nothing where its condition cannot be evaluated.
  unfoldable pub applies : When Expr → Option Bool
  unfolding truth
  applies always = some true
  applies (expression e) = truth (eval e)
  applies (fixed b) = some b

  abbrev with_issue :
      Issue
      → List Issue × Option (PathCase Expr Template)
      → List Issue × Option (PathCase Expr Template)
  with_issue i (is, found) = (i ∷ is, found)

  decided :
      Option Bool
      → PathCase Expr Template
      → List Issue × Option (PathCase Expr Template)
      → List Issue × Option (PathCase Expr Template)
  unfolding when_failed
  decided none c rest = with_issue (when_failed c.when_path) rest
  decided (some true) c rest = ([], some c)
  decided (some false) c rest = rest

  -- The loop over the cases.
  unfoldable pub select_case :
      List (PathCase Expr Template) → List Issue × Option (PathCase Expr Template)
  unfolding decided applies
  select_case [] = ([], none)
  select_case (c ∷ cs) = decided (applies c.when) c (select_case cs)

  unfoldable pub within : String → String → List Issue → String × List Issue
  unfolding is_outside placeholder_unresolved
  within use_path path issues =
      if is_outside path
      then (
        "",
        issues ++ (placeholder_unresolved "pathTemplate resolved outside workspace" use_path ∷ []),
      )
      else (path, issues)

  rendered_path : String → Rendered → List Issue → String × List Issue
  unfolding within placeholder_unresolved to_slashes
  rendered_path use_path (rendered s) issues = within use_path (clean (to_slashes s)) issues
  rendered_path use_path (unresolved label) issues = (
    "",
    issues
        ++ (placeholder_unresolved ("pathTemplate placeholder cannot be resolved: " <> label)
              use_path
            ∷ []),
  )

  selected_path : List Issue × Option (PathCase Expr Template) → String × List Issue
  unfolding rendered_path no_matching_case
  selected_path (issues, none) = ("", issues ++ (no_matching_case ∷ []))
  selected_path (issues, some c) = rendered_path c.use_path (render c.use_template) issues

  -- `Evaluate`
  unfoldable pub evaluate : List (PathCase Expr Template) → String × List Issue
  unfolding selected_path select_case
  evaluate cases = selected_path (select_case cases)
