-- ===== src/Examples/Commands.antt =====
-- The command, the outputs and the checker of schemas on concrete inputs.
use gonkey.Base.{
  ℕ, pos, ◌≡◌, ◌/◌, refl, Bool, true, false, Option, none, some, List, [], ◌∷◌, map, int_eq,
}
use gonkey.Base.Text.{Text, codes, text_eq, text_beq}
use gonkey.Base.Dict.{lookup}
use gonkey.Base.Outcome.{ok}
use gonkey.Value.{Value}
use gonkey.Models.{Test, Result, ResultError, path, get_method}
use gonkey.Checker.ResponseBody
use gonkey.Checker.ResponseSchema.{
  Response, Operation, PathItem, Swagger, Validity, method_to_operation, find_operation,
  find_response, validate_response_against_swagger, check,
}
use gonkey.Checker.ResponseSchema.Described.{Found, Describes, Reports, check-Found}
use gonkey.Output.Allure.{Allure, Suite}
use gonkey.Output.Allure.Report
use gonkey.Output.Allure.Cases.{Processed}
use gonkey.Output.Allure.Whole.{process_all-report, process_all, cases_of}
use gonkey.Output.Console
use gonkey.Output.Console.{Shown}
use gonkey.Output.Console.Dots
use gonkey.Output.Console.Dots.{
  outputs-report, dots_in, newlines_in, reports_in, passes, failing, rendered, testing_all,
}
use gonkey.Command.Script.{done}
use gonkey.Command.Parts.{Parts}
use gonkey.Command.Main.{Flags}
use gonkey.Examples.Documents.{runtime}
use gonkey.Examples.Running.{test, result, env, unmarshal, diff}

abbrev operation : Operation Text
operation = record {
  responses = some (record {
    status_code_responses = (pos 200, record { headers = []; schema = codes "s" }) ∷ [];
    default = none;
  });
}

abbrev swagger : Swagger Text
swagger = record {
  base_path = [];
  paths = some (
      (
        codes "/users",
        record {
          get = none;
          put = none;
          post = some operation;
          delete = none;
          options = none;
          head = none;
          patch = none;
        },
      )
      ∷ []);
}

abbrev same : Text → Text
same s = s

abbrev upper : Text → Text
upper s = codes "POST"

abbrev against : Text → Value → Validity
against s v = Validity.single_error s

abbrev schema_errors : List ResultError
schema_errors = ResultError.schema_error (codes "s") ∷ []

checked : check same upper unmarshal against swagger test result ≡ ok (schema_errors, result)
unfolding check validate_response_against_swagger find_response find_operation method_to_operation
    text_beq lookup
checked = refl

check-Found_example :
    (result ≡ result)
    × (actual : Value) × (unmarshal result.response_body ≡ some actual)
    × (paths : List (Text × PathItem Text)) × (swagger.paths ≡ some paths)
    × (found : Option (Operation Text)) × Found same upper unmarshal against swagger.base_path
        (path test)
        (get_method test)
        paths
        found
    × (response : Option (Response Text)) × Describes same upper unmarshal against
        result.response_status_code found response
    × Reports same upper unmarshal against actual response schema_errors
check-Found_example =
    check-Found same upper unmarshal against swagger test result result schema_errors checked

abbrev message : ResultError → Text
message e = codes "failed"

abbrev join_path : Text → Text → Text
join_path dir name = dir

abbrev marshal : Suite → Option Text
marshal s = none

abbrev uuid : ℕ → Text
uuid n = codes "u"

abbrev unwritable : Text → Bool
unwritable name = false

abbrev failed_result : Result
failed_result = record result { errors = schema_errors; db_query = codes "SELECT 1" }

abbrev processed : List Processed
processed =
    record { start = 1000; end = 2000; test = test; result = result }
    ∷ record { start = 3000; end = 4000; test = test; result = failed_result }
    ∷ []

process_all-report_example :
    (a : Allure) × (process_all uuid unwritable join_path marshal
        (codes "d")
        message
        processed
        (Report.new_output uuid unwritable join_path marshal (codes "d") message 0 (codes "Gonkey"))
      ≡ ok a)
    × (map (λ (s : Suite). s.cases) a.suites
        ≡ cases_of uuid unwritable join_path marshal (codes "d") message 0 processed ∷ [])
process_all-report_example =
    process_all-report uuid unwritable join_path marshal (codes "d") message processed 0
      (codes "Gonkey")

abbrev render : Result → Text
render r = r.path

abbrev shown_tests : List (Test × Result)
shown_tests = (test, result) ∷ (test, failed_result) ∷ []

outputs-report_example :
    (shown : List Shown) × (Dots.process_all render shown_tests (Console.new_output false)
      ≡ some (record { verbose = false; dots = passes shown_tests }, shown))
    × (dots_in shown ≡ passes shown_tests)
    × (newlines_in shown ≡ passes shown_tests / 80)
    × (reports_in shown ≡ rendered render (failing shown_tests))
    × (testing_all render shown_tests ≡ some (rendered render (failing shown_tests)))
outputs-report_example = outputs-report render shown_tests

abbrev some_render : Result → Option Text
some_render r = some r.path

abbrev flags : Flags
flags = record {
  host = codes "h";
  spec_path = [];
  tests_location = codes "tests";
  db_dsn = [];
  fixtures_location = [];
  allure_report = true;
  verbose = false;
}

abbrev parts : Parts Text
parts = record {
  world = env;
  runtime = runtime;
  unmarshal = unmarshal;
  canonical = same;
  diff = diff;
  db_query = λ log q. none;
  to_lower = same;
  to_upper = upper;
  against_schema = against;
  load_spec = λ location. none;
  render_console = some_render;
  render_testing = some_render;
  system = λ log. record {
    stdout_pipe = true;
    start = λ s. true;
    selected = λ timeout. done true;
    getpgid = true;
    kill = true;
    scanned = [];
  };
  open_db = λ dsn. true;
  load_tests = λ location. some (test ∷ []);
}
