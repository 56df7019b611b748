-- ===== src/Command/Main.antt =====
-- main.go: the command.
use gonkey.Base.{
  ℕ, Bool, true, false, not, ◌&&◌, ◌||◌, some, List, [], ◌∷◌, ◌++◌, if◌then◌else◌, ◌==◌,
}
use gonkey.Base.Text.{Text, codes, text_eq, has_prefix, trim_right}
use gonkey.Base.Outcome.{Outcome, ok, fail, panic, guard, ◌>>◌}
use gonkey.Models.{Summary}
use gonkey.Variables.{new}
use gonkey.Runner.{RunError, run}
use gonkey.Command.Parts.{body, schema, db, console, allure, Setup, Parts, env_of}

pub record Flags : Type 0 where
  pub host : Text
  pub spec_path : Text
  pub tests_location : Text
  pub db_dsn : Text
  pub fixtures_location : Text
  pub allure_report : Bool
  pub verbose : Bool

-- The arguments of `log.Fatal`.
pub data Fatal : Type 0 where
  hostname_not_provided no_tests_location db_failed db_dsn_needed : Fatal
  run_failed : RunError → Fatal

unfoldable pub full_host : Text → Text
full_host host =
    trim_right
      (if not (has_prefix host (codes "http://")) && not (has_prefix host (codes "https://"))
        then codes "http://" ++ host
        else host)
      b'/'

abbrev pub given : Text → Bool
given s = not (s == [])

abbrev pub when : {A : Type 0} → Bool → A → List A
when true a = a ∷ []
when false a = []

-- From the flags to the runner.
unfoldable pub configure : (Text → Bool) → Flags → Outcome Fatal Setup
unfolding full_host
configure open_db flags = do
  guard (given flags.host) hostname_not_provided
  guard (given flags.tests_location) no_tests_location
  guard (not (given flags.db_dsn) || open_db flags.db_dsn) db_failed
  guard (not (given flags.fixtures_location) || given flags.db_dsn) db_dsn_needed
  ok (record {
    host = full_host flags.host;
    tests_location = flags.tests_location;
    has_fixtures = given flags.db_dsn && given flags.fixtures_location;
    has_mocks = false;
    checkers =
        body
        ∷ (when (given flags.spec_path) (schema flags.spec_path) ++ when (given flags.db_dsn) db);
    outputs = console flags.verbose ∷ when flags.allure_report allure;
  })

-- How the process ends: with a status, with `log.Fatal`, or with a panic.
pub data Exit : Type 0 where
  exited : ℕ → Exit
  fatal : Fatal → Exit
  crashed : Exit

abbrev pub exit_of : Outcome RunError Summary → Exit
exit_of (ok summary) = if summary.success then exited 0 else exited 1
exit_of (fail e) = fatal (run_failed e)
exit_of panic = crashed

module _ {Schema : Type 0} (parts : Parts Schema) where
  abbrev pub run_setup : Outcome Fatal Setup → Exit
  run_setup (ok setup) =
      exit_of (run (env_of parts setup) (some (parts.load_tests setup.tests_location)) new []).0
  run_setup (fail e) = fatal e
  run_setup panic = crashed

  unfoldable pub main : Flags → Exit
  unfolding configure run
  main flags = run_setup (configure parts.open_db flags)
