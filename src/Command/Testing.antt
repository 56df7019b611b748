-- ===== src/Command/Testing.antt =====
-- runner/runner_testing.go: a run inside a test of the package testing.
use gonkey.Base.{Bool, Option, none, some, [], ◌∷◌}
use gonkey.Base.Text.{Text, codes}
use gonkey.Base.Outcome.{Outcome, ok, fail, panic}
use gonkey.Models.{Summary}
use gonkey.Variables.{new}
use gonkey.Runner.{RunError, run}
use gonkey.Command.Parts.{body, header, db, allure, testing, Setup, Parts, env_of}
use gonkey.Command.Main.{given, when}

-- `server_url` is `none` where the server is nil; the mocks and the database are there or nil.
pub record RunWithTestingParams : Type 0 where
  pub server_url : Option Text
  pub tests_dir : Text
  pub mocks : Bool
  pub db : Bool

abbrev pub setup_of : (Text → Text) → RunWithTestingParams → Text → Setup
setup_of getenv params url = record {
  host = url;
  tests_location = params.tests_dir;
  has_fixtures = params.db;
  has_mocks = params.mocks;
  checkers = body ∷ header ∷ when params.db db;
  outputs = testing ∷ when (given (getenv (codes "GONKEY_ALLURE_DIR"))) allure;
}

-- Whether `t.Fatal` was called, and with what.
abbrev fatal_of : Outcome RunError Summary → Outcome RunError (Unit {0})
fatal_of (ok summary) = ok tt
fatal_of (fail e) = fail e
fatal_of panic = panic

module _ {Schema : Type 0} (parts : Parts Schema) where
  abbrev run_at : RunWithTestingParams → Option Text → Outcome RunError (Unit {0})
  run_at params none = panic
  run_at params (some url) =
      let setup = setup_of parts.world.getenv params url in
      fatal_of (run (env_of parts setup) (some (parts.load_tests setup.tests_location)) new []).0

  unfoldable pub run_with_testing : RunWithTestingParams → Outcome RunError (Unit {0})
  unfolding run
  run_with_testing params = run_at params params.server_url
