-- ===== src/IoFailure.antt =====
-- internal/application/iofailure/iofailure.go: what an error of the filesystem is reported as.
use spec_cli.Common.{String, List, [], ◌∷◌}
use spec_cli.Errors.{Detail, text}

-- What `errors.Is` tells of an error.
pub data Kind : Type 0 where
  not_permitted not_there other_failure : Kind

-- An error of the operating system, with its text.
pub record Failure : Type 0 where
  pub kind : Kind
  pub detail : String

-- `Reason`
unfoldable pub reason : Kind → String
reason not_permitted = "permission denied"
reason not_there = "not found"
reason other_failure = "i/o error"

-- `Details`
unfoldable pub details : Failure → List (String × Detail)
unfolding reason
details failure = ("reason", text (reason failure.kind)) ∷ ("detail", text failure.detail) ∷ []
