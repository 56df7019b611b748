-- ===== src/Checker.antt =====
-- checker/: what a checker is, and the four checkers.
pub mod ResponseBody
pub mod ResponseHeader
pub mod ResponseDb
pub mod ResponseSchema
use gonkey.Base.{ℕ, ℤ, List, [], ◌≡◌}
use gonkey.Base.Text.{Text}
use gonkey.Base.Outcome.{Outcome, ok, fail, panic, ◌>>=◌}
use gonkey.Models.{Test, Result, ResultError}

-- The errors that end the run, where a checker cannot do its work.
pub data CheckFailure : Type 0 where
  invalid_json_in_response : Text → ℤ → CheckFailure
  db_query_not_found db_response_not_found : Text → CheckFailure
  db_failed response_is_not_json : CheckFailure
  invalid_expected_row invalid_actual_row : Text → ℕ → Text → CheckFailure

-- The interface `CheckerInterface`: a checker gets the result by a pointer, and may change it.
abbrev pub Checker : Type 0
Checker = Test → Result → Outcome CheckFailure (List ResultError × Result)

-- The errors of a checker that leaves the result as it is.
abbrev pub unchanged :
    Result
    → Outcome CheckFailure (List ResultError)
    → Outcome CheckFailure (List ResultError × Result)
unchanged result m = m >>= λ errs. ok (errs, result)

pub unchanged-ok :
    (result : Result) (m : Outcome CheckFailure (List ResultError))
    → unchanged result m ≡ ok ([], result)
    → m ≡ ok []
unchanged-ok result (ok errs) h = cc
unchanged-ok result (fail e) h = cc
unchanged-ok result panic h = cc
