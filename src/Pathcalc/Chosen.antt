-- ===== src/Pathcalc/Chosen.antt =====
-- internal/application/commands/internal/pathcalc/evaluator.go: which case gives the path of a document.
use spec_cli.Common.{
  String, ◌≡◌, refl, ap, Bool, true, false, Option, none, some, List, [], ◌∷◌, ◌++◌, ◌⊎◌, inl, inr,
}
use spec_cli.Common.{string_eq, if◌then◌else◌, Bool-cases}
use spec_cli.Values.{Scalars, Value}
use spec_cli.Write.{Issue}
use spec_cli.Pathcalc.{
  PathCase, Rendered, rendered, unresolved, when_failed, to_slashes, is_outside, applies, decided,
  select_case, within, rendered_path, selected_path, evaluate,
}

module _ {S : Scalars} {Expr Template : Type 0} (eval : Expr → Option (Value S))
    (render : Template → Rendered) (clean : String → String) where
  abbrev pub Cases : Type 0
  Cases = List (PathCase Expr Template)

  abbrev issue_if : Option Bool → String → List Issue → List Issue
  issue_if none path rest = when_failed path ∷ rest
  issue_if (some _) path rest = rest

  -- The issues of the cases whose condition cannot be evaluated.
  abbrev pub failures : Cases → List Issue
  failures [] = []
  failures (c ∷ cs) = issue_if (applies eval render clean c.when) c.when_path (failures cs)

  abbrev holds : Option Bool → Bool
  holds none = false
  holds (some b) = b

  -- None of the cases applies.
  abbrev pub none_applies : Cases → Bool
  none_applies [] = true
  none_applies (c ∷ cs) =
      if holds (applies eval render clean c.when) then false else none_applies cs

  -- The first case that applies, and the issues of those before it.
  abbrev pub FirstAt : Cases → List Issue → PathCase Expr Template → Type 0
  FirstAt cases issues c =
      (before : Cases) × (behind : Cases) × (cases ≡ before ++ c ∷ behind)
      × (applies eval render clean c.when ≡ some true)
      × (none_applies before ≡ true)
      × (issues ≡ failures before)

  abbrev ChosenIn : Cases → List Issue × Option (PathCase Expr Template) → Type 0
  ChosenIn cases (issues, some c) = FirstAt cases issues c
  ChosenIn cases (issues, none) = (none_applies cases ≡ true) × (issues ≡ failures cases)

  decided-ChosenIn :
      (a : Option Bool) (d : PathCase Expr Template) (cs : Cases)
      (rest : List Issue × Option (PathCase Expr Template))
      → applies eval render clean d.when ≡ a
      → ChosenIn cs rest
      → ChosenIn (d ∷ cs) (decided eval render clean a d rest)
  unfolding decided
  decided-ChosenIn (some true) d cs rest e chosen = ([], cs, refl, e, refl, refl)
  decided-ChosenIn (some false) d cs (is, none) e (n, i) = (rw e n, rw e i)
  decided-ChosenIn (some false) d cs (is, some c) e (before, behind, splits, this, n, i) =
      (d ∷ before, behind, ap (λ xs. d ∷ xs) splits, this, rw e n, rw e i)
  decided-ChosenIn none d cs (is, none) e (n, i) =
      (rw e n, rw e (ap (λ xs. when_failed d.when_path ∷ xs) i))
  decided-ChosenIn none d cs (is, some c) e (before, behind, splits, this, n, i) = (
    d ∷ before,
    behind,
    ap (λ xs. d ∷ xs) splits,
    this,
    rw e n,
    rw e (ap (λ xs. when_failed d.when_path ∷ xs) i),
  )

  select_case-ChosenIn : (cases : Cases) → ChosenIn cases (select_case eval render clean cases)
  unfolding select_case
  select_case-ChosenIn [] = (refl, refl)
  select_case-ChosenIn (d ∷ cs) =
      decided-ChosenIn (applies eval render clean d.when) d cs (select_case eval render clean cs)
        refl (select_case-ChosenIn cs)

  -- The text of the first case that applies, with slashes and cleaned, is not outside of the workspace.
  abbrev pub PathFrom : Cases → String → List Issue → Type 0
  PathFrom cases path issues =
      (c : PathCase Expr Template) × (text : String) × FirstAt cases issues c
      × (render c.use_template ≡ rendered text)
      × (path ≡ clean (to_slashes text))
      × (is_outside path ≡ false)

  abbrev Evaluated : Cases → String × List Issue → Type 0
  Evaluated cases (path, issues) = (path ≡ "") ⊎ PathFrom cases path issues

  rendered_path-Evaluated :
      (cases : Cases) (c : PathCase Expr Template) (r : Rendered) (issues : List Issue)
      → FirstAt cases issues c
      → render c.use_template ≡ r
      → Evaluated cases (rendered_path eval render clean c.use_path r issues)
  unfolding rendered_path within
  rendered_path-Evaluated cases c (unresolved label) issues first e = inl refl
  rendered_path-Evaluated cases c (rendered text) issues first e =
      elim (Bool-cases (is_outside (clean (to_slashes text)))) [
        | inl o ↦ rw o (inl refl)
        | inr o ↦ rw o (inr (c, text, first, e, refl, o))
      ]

  selected_path-Evaluated :
      (cases : Cases) (found : List Issue × Option (PathCase Expr Template))
      → ChosenIn cases found
      → Evaluated cases (selected_path eval render clean found)
  unfolding selected_path
  selected_path-Evaluated cases (issues, none) chosen = inl refl
  selected_path-Evaluated cases (issues, some c) chosen =
      rendered_path-Evaluated cases c (render c.use_template) issues chosen refl

-- A path is given, or it is empty. A path that is given is the cleaned text of the first case that applies, where a
-- case whose condition cannot be evaluated does not apply; the issues are those of such cases before it; and the path
-- is not `.` and begins neither with `../` nor with `/`.
pub evaluate-PathFrom :
    {S : Scalars} {Expr Template : Type 0} (eval : Expr → Option (Value S))
    (render : Template → Rendered) (clean : String → String) (cases : List (PathCase Expr Template))
    → let out = evaluate eval render clean cases in
      (out.0 ≡ "") ⊎ PathFrom eval render clean cases out.0 out.1
unfolding evaluate
evaluate-PathFrom eval render clean cases =
    selected_path-Evaluated eval render clean cases (select_case eval render clean cases)
      (select_case-ChosenIn eval render clean cases)
