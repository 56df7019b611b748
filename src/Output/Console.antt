-- ===== src/Output/Console.antt =====
-- output/console_colored/console_colored.go and output/testing/testing.go: what is shown of each test.
pub mod Dots
use gonkey.Base.{
  ℕ, suc, ◌+◌, ◌%◌, Bool, true, false, Option, none, some, List, [], ◌∷◌, ◌++◌, if◌then◌else◌,
  nat_beq,
}
use gonkey.Base.Text.{Text}
use gonkey.Models.{Test, Result, Summary, ResultError}

pub data Shown : Type 0 where
  report : Text → Shown
  dot newline : Shown
  failed_of : ℕ → ℕ → Shown

abbrev pub dots_per_line : ℕ
dots_per_line = 80

pub record Console : Type 0 where
  pub verbose : Bool
  pub dots : ℕ

unfoldable pub new_output : Bool → Console
new_output verbose = record { verbose = verbose; dots = 0 }

-- `Passed` of models/result.go.
abbrev pub no_errors : List ResultError → Bool
no_errors [] = true
no_errors (e ∷ errs) = false

abbrev pub passed : Result → Bool
passed result = no_errors result.errors

abbrev pub show_report : Option Text → Console → Option (Console × List Shown)
show_report none o = none
show_report (some text) o = some (o, report text ∷ [])

abbrev pub show_dot : Console → Console × List Shown
show_dot o =
    let n = suc o.dots in
    (record o { dots = n }, dot ∷ (if nat_beq (n % dots_per_line) 0 then newline ∷ [] else []))

-- `render` is the template of `renderResult`, which takes the test, as it was sent, from the result; `none` is the error
-- of executing it.
unfoldable pub process :
    (Result → Option Text) → Test → Result → Console → Option (Console × List Shown)
process render t result o = process_if (passed result) o.verbose
  where
    process_if : Bool → Bool → Option (Console × List Shown)
    process_if true false = some (show_dot o)
    process_if _ _ = show_report (render result) o

abbrev pub show_summary : Summary → List Shown
show_summary summary = failed_of summary.failed summary.total ∷ []

-- The output for the package testing: the text given to `testing.T.Error`, if any.
abbrev testing_if : Bool → Option Text → Option (List Text)
testing_if true text = some []
testing_if false none = none
testing_if false (some text) = some (text ∷ [])

unfoldable pub process_testing : (Result → Option Text) → Test → Result → Option (List Text)
process_testing render t result = testing_if (passed result) (render result)
