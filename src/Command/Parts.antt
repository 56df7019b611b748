-- ===== src/Command/Parts.antt =====
-- What main.go and runner/runner_testing.go put together.
use gonkey.Base.{ℤ, Bool, true, false, Option, none, some, List, map}
use gonkey.Base.Text.{Text}
use gonkey.Base.Outcome.{Outcome, ok}
use gonkey.Value.{Value, Runtime}
use gonkey.Models.{Test, Result}
use gonkey.Checker.{Checker}
use gonkey.Checker.ResponseBody
use gonkey.Checker.ResponseHeader
use gonkey.Checker.ResponseDb
use gonkey.Checker.ResponseSchema.{Swagger, Validity, new_checker}
use gonkey.Output.Console.{process, process_testing, new_output}
use gonkey.Runner.{Call, Env}
use gonkey.Command.Script.{System, ScriptError, Printed, cmd_run}

pub data CheckerKind : Type 0 where
  body header db : CheckerKind
  schema : Text → CheckerKind

pub data OutputKind : Type 0 where
  console : Bool → OutputKind
  allure testing : OutputKind

-- A runner's configuration, its checkers and outputs in the order in which they are added.
pub record Setup : Type 0 where
  pub host : Text
  pub tests_location : Text
  pub has_fixtures : Bool
  pub has_mocks : Bool
  pub checkers : List CheckerKind
  pub outputs : List OutputKind

-- The packages and the world that the parts use. `world` answers for the fixtures, the mocks and the service;
-- `load_spec` is the expanded document of `loads.Spec`, and `load_tests` what the loader of YAML files gives.
pub record Parts (Schema : Type 0) : Type 0 where
  pub world : Env
  pub runtime : Runtime
  pub unmarshal : Text → Option Value
  pub canonical : Text → Text
  pub diff : Value → Value → Text
  pub db_query : List Call → Text → Option (List (Option Text) × Bool)
  pub to_lower : Text → Text
  pub to_upper : Text → Text
  pub against_schema : Schema → Value → Validity
  pub load_spec : Text → Option (Swagger Schema)
  pub render_console : Result → Option Text
  pub render_testing : Result → Option Text
  pub system : List Call → System
  pub open_db : Text → Bool
  pub load_tests : Text → Option (List Test)

module _ {Schema : Type 0} (parts : Parts Schema) where
  abbrev pub checker_of : CheckerKind → List Call → Checker
  checker_of body log = ResponseBody.check parts.runtime parts.unmarshal
  checker_of header log = ResponseHeader.check parts.runtime parts.canonical
  checker_of db log = ResponseDb.check parts.unmarshal parts.diff (parts.db_query log)
  checker_of (schema location) log =
      new_checker parts.to_lower parts.to_upper parts.unmarshal parts.against_schema
        (parts.load_spec location)

  abbrev pub is_some : {A : Type 0} → Option A → Bool
  is_some none = false
  is_some (some a) = true

  -- Whether the output returns no error; that of Allure never does.
  abbrev pub output_of : OutputKind → List Call → Test → Result → Bool
  output_of (console verbose) log t result =
      is_some (process parts.render_console t result (new_output verbose))
  output_of allure log t result = true
  output_of testing log t result = is_some (process_testing parts.render_testing t result)

  abbrev is_ok : Outcome ScriptError (List Printed) → Bool
  is_ok (ok printed) = true
  is_ok _ = false

  abbrev pub script_of : List Call → Text → ℤ → Bool
  script_of log path timeout = is_ok (cmd_run path timeout (parts.system log))

  abbrev pub env_of : Setup → Env
  env_of setup = record parts.world {
    host = setup.host;
    has_fixtures_loader = setup.has_fixtures;
    has_mocks = setup.has_mocks;
    has_mocks_loader = setup.has_mocks;
    checkers = map checker_of setup.checkers;
    outputs = map output_of setup.outputs;
    script_ok = script_of;
  }
