-- ===== src/Runner.antt =====
-- runner/runner.go: the run of the tests. Every effect outside the program is a `Call`; `Env` says how
-- the world answers a call after those before it.
pub mod Request
pub mod Plan
pub mod Totals
pub mod Carry
use gonkey.Base.{
  ℕ, ℤ, suc, Bool, true, false, not, ◌&&◌, Option, none, some, List, [], ◌∷◌, ◌++◌, map,
  if◌then◌else◌, int_eq, is_positive, nat_beq, ◌==◌,
}
use gonkey.Base.Text.{Text, codes, text_eq, contains}
use gonkey.Base.Dict.{Dict, lookup}
use gonkey.Base.Outcome
use gonkey.Base.Outcome.{Outcome, ok, fail, panic, or_fail, guard}
use gonkey.Yaml.{Yaml}
use gonkey.Models.{
  Test, Result, ResultError, mock_error, Summary, VariablesToSet, get_variables,
  get_variables_to_set, fixtures, service_mocks, before_script_path, before_script_timeout, pause,
}
use gonkey.Variables.{Variables, load, apply, merge}
use gonkey.Variables.Response.{ResponseError, from_response}
use gonkey.Checker.{Checker, CheckFailure}
use Request.{HttpRequest, Http, Headers, new_request, actual_request_body, get_header}

pub data Call : Type 0 where
  load_fixtures : List Text → Call
  reset_definitions reset_running_context end_running_context : Call
  load_mocks : Dict Text Yaml → Call
  run_script : Text → ℤ → Call
  sleep : ℤ → Call
  send : HttpRequest → Call
  check_with : ℕ → Call
  report_to : ℕ → Result → Call

-- The body is `none` where reading it fails.
pub record Response : Type 0 where
  pub status_code : ℤ
  pub status : Text
  pub header : Headers
  pub body : Option Text

pub data RunError : Type 0 where
  loading_failed client_failed fixtures_failed mocks_failed script_failed : RunError
  request_failed send_failed read_failed output_failed : RunError
  check_failed : CheckFailure → RunError
  variables_failed : ResponseError → RunError

-- The configuration of a runner, and the world around it. The three parts of `Config` that may be nil
-- are there where their flag is true.
pub record Env : Type 0 where
  pub host : Text
  pub has_fixtures_loader : Bool
  pub has_mocks : Bool
  pub has_mocks_loader : Bool
  pub checkers : List (List Call → Checker)
  pub outputs : List (List Call → Test → Result → Bool)
  pub http : Http
  pub get_json : Text → Text → Option Text
  pub getenv : Text → Text
  pub client_ok : Bool
  pub fixtures_ok : List Call → List Text → Bool
  pub mocks_ok : List Call → Dict Text Yaml → Bool
  pub script_ok : List Call → Text → ℤ → Bool
  pub respond : List Call → HttpRequest → Option Response
  pub mock_errors : List Call → List Text

abbrev pub Run : Type 0 → Type 0
Run A = List Call → Outcome RunError A × List Call

abbrev pub continue : {A B : Type 0} → Outcome RunError A → (A → Run B) → Run B
continue (ok a) f log = f a log
continue (fail e) f log = (fail e, log)
continue panic f log = (panic, log)

infixl 5 ◌>>=◌ ◌>>◌
abbrev pub ◌>>=◌ : {A B : Type 0} → Run A → (A → Run B) → Run B
◌>>=◌ m f log = let (r, log') = m log in continue r f log'

abbrev pub ◌>>◌ : {A B : Type 0} → Run A → Run B → Run B
m >> k = m >>= λ _. k

abbrev pub lift : {A : Type 0} → Outcome RunError A → Run A
lift r log = (r, log)

-- A call, and what came of it.
abbrev pub call : {A : Type 0} → Call → (List Call → Outcome RunError A) → Run A
call c answer log = (answer log, log ++ c ∷ [])

abbrev pub done : Outcome RunError (Unit {0})
done = ok tt

abbrev pub check_result : {A : Type 0} → Outcome CheckFailure A → Outcome RunError A
check_result (ok a) = ok a
check_result (fail e) = fail (check_failed e)
check_result panic = panic

abbrev pub set_result : Outcome ResponseError Variables → Variables → Outcome RunError Variables
set_result (ok vars) vs = ok (merge vs vars)
set_result (fail e) vs = fail (variables_failed e)
set_result panic vs = panic

-- The variables to set for a status; a missing entry is a nil map, which ranges as an empty one.
abbrev pub entry : VariablesToSet → ℤ → Dict Text Text
entry m code = elim (lookup code m) [ none ↦ [] | some names ↦ names ]

module _ (env : Env) where
  abbrev pub is_json : Text → Text → Bool
  is_json content_type body = contains content_type (codes "json") && not (body == [])

  abbrev pub set_templates :
      Option VariablesToSet → Text → Text → ℤ → Variables → Outcome RunError Variables
  set_templates none content_type body code vs = ok vs
  set_templates (some m) content_type body code vs =
      set_result (from_response env.get_json (entry m code) body (is_json content_type body)) vs

  unfoldable pub set_variables_from_response :
      Test → Text → Text → ℤ → Variables → Outcome RunError Variables
  set_variables_from_response t content_type body code vs =
      set_templates (get_variables_to_set t) content_type body code vs

  unfoldable pub load_test_fixtures : Bool → Option (List Text) → Run (Unit {0})
  load_test_fixtures true (some names) =
      call (load_fixtures names) λ log. guard (env.fixtures_ok log names) fixtures_failed
  load_test_fixtures _ _ = lift done

  unfoldable pub reset_mocks : Bool → Run (Unit {0})
  reset_mocks true = call reset_definitions (λ _. done) >> call reset_running_context (λ _. done)
  reset_mocks false = lift done

  unfoldable pub load_test_mocks : Bool → Option (Dict Text Yaml) → Run (Unit {0})
  load_test_mocks true (some defs) =
      call (load_mocks defs) λ log. guard (env.mocks_ok log defs) mocks_failed
  load_test_mocks _ _ = lift done

  unfoldable pub run_before_script : Text → ℤ → Run (Unit {0})
  run_before_script [] timeout = lift done
  run_before_script (c ∷ p) timeout =
      call (run_script (c ∷ p) timeout)
        λ log. guard (env.script_ok log (c ∷ p) timeout) script_failed

  unfoldable pub sleep_if : Bool → ℤ → Run (Unit {0})
  sleep_if true n = call (sleep n) λ _. done
  sleep_if false n = lift done

  unfoldable pub make_pause : ℤ → Run (Unit {0})
  make_pause n = sleep_if (is_positive n) n

  unfoldable pub end_mocks : Bool → Run (List ResultError)
  end_mocks true = call end_running_context λ log. ok (map mock_error (env.mock_errors log))
  end_mocks false = lift (ok [])

  -- The loop over the checkers, the next of which is number `i`.
  unfoldable pub run_checkers : ℕ → List (List Call → Checker) → Test → Result → Run Result
  run_checkers i [] t result = lift (ok result)
  run_checkers i (check ∷ checkers) t result = do
    out ← call (check_with i) λ log. check_result (check log t result)
    run_checkers (suc i) checkers t
        (let result' = out.1 in record result' { errors = result'.errors ++ out.0 })

  abbrev pub result_of : Test → HttpRequest → Response → Text → List ResultError → Result
  result_of t req resp body errs = record {
    path = req.url_path;
    query = req.raw_query;
    request_body = actual_request_body req;
    response_status_code = resp.status_code;
    response_status = resp.status;
    response_content_type = get_header env.http (codes "Content-Type") resp.header;
    response_body = body;
    response_headers = resp.header;
    errors = errs;
    db_query = [];
    db_response = [];
    test = t;
  }

  abbrev pub finish : Variables → Test → Response → Text → Result → Run (Result × Variables)
  finish vs t resp body result = do
    vars ←
        lift (set_variables_from_response t result.response_content_type body resp.status_code vs)
    lift (ok (result, vars))

  abbrev pub judge : Variables → Test → HttpRequest → Response → Text → Run (Result × Variables)
  judge vs t req resp body = do
    errs ← end_mocks env.has_mocks
    result ← run_checkers 0 env.checkers t (result_of t req resp body errs)
    finish vs t resp body result

  -- From the request on.
  unfoldable pub exchange : Variables → Test → HttpRequest → Run (Result × Variables)
  unfolding end_mocks run_checkers
  exchange vs t req = do
    resp ← call (send req) λ log. or_fail send_failed (env.respond log req)
    body ← lift (or_fail read_failed resp.body)
    judge vs t req resp body

  abbrev perform_test : Variables → Test → Run (Result × Variables)
  perform_test vs t = do
    load_test_fixtures env.has_fixtures_loader (fixtures t)
    reset_mocks env.has_mocks
    load_test_mocks env.has_mocks_loader (service_mocks t)
    run_before_script (before_script_path t) (before_script_timeout t)
    make_pause (pause t)
    req ← lift (or_fail request_failed (new_request env.http env.host t))
    exchange vs t req

  -- The variables as the test leaves them stand beside the result; an error ends the run.
  unfoldable pub execute_test : Variables → Test → Run (Result × Variables)
  execute_test vs t =
      let loaded = load (get_variables t) vs in
      perform_test loaded (apply env.getenv (some loaded) t)

  unfoldable pub process_outputs :
      ℕ → List (List Call → Test → Result → Bool) → Test → Result → Run (Unit {0})
  process_outputs i [] t result = lift done
  process_outputs i (o ∷ outputs) t result = do
    call (report_to i result) λ log. guard (o log t result) output_failed
    process_outputs (suc i) outputs t result

  abbrev pub count_failed : List ResultError → ℕ → ℕ
  count_failed [] n = n
  count_failed (e ∷ errs) n = suc n

  abbrev pub summary : ℕ → ℕ → Summary
  summary total failed = record { success = nat_beq failed 0; failed = failed; total = total }

  unfoldable pub run_tests : List Test → Variables → ℕ → ℕ → Run Summary
  run_tests [] vs total failed = lift (ok (summary total failed))
  run_tests (t ∷ tests) vs total failed = do
    out ← execute_test vs t
    process_outputs 0 env.outputs t out.0
    run_tests tests out.1 (suc total) (count_failed out.0.errors failed)

  -- The tests that the loader gives, `none` where it fails; no loader at all is the empty run.
  unfoldable pub run : Option (Option (List Test)) → Variables → Run Summary
  unfolding run_tests
  run none vs = lift (ok (summary 0 0))
  run (some loaded) vs = do
    tests ← lift (or_fail loading_failed loaded)
    lift (guard env.client_ok client_failed)
    run_tests tests vs 0 0
