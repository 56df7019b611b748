-- ===== src/Examples/Running.antt =====
-- variables/, checker/ and runner/ on a concrete test and server.
use gonkey.Base.{
  pos, ◌≡◌, ◌≢◌, ◌↔◌, refl, Bool, true, false, Option, none, some, List, [], ◌∷◌, int_eq, All,
}
use gonkey.Base.Text.{Text, codes, text_eq, text_beq, contains, has_prefix}
use gonkey.Base.Dict.{lookup, later, insert}
use gonkey.Base.Outcome.{Outcome, ok, panic}
use gonkey.Value.{Value, string, depth}
use gonkey.Compare.Branch.{compare, compare_branch, leaf_match_type}
use gonkey.Compare.Regex.{find_expr}
use gonkey.Runner.Request.{new_request}
use gonkey.Models.{Test, TestDefinition, Result, Summary, get_variables, get_response_headers}
use gonkey.Variables.{Variables, new_variable, load, merge, add, get, apply, quote_meta, perform}
use gonkey.Variables.Pattern.{match_variable, match_name, is_word}
use gonkey.Variables.Match.{match_variable_iff, match_name_iff, IsPlaceholder, IsWord}
use gonkey.Variables.Store.{lookup-load, get-merge, lookup-add, as_variable, or_else, environment}
use gonkey.Variables.Response.{ValueAt, from_response}
use gonkey.Checker.ResponseBody
use gonkey.Checker.ResponseHeader
use gonkey.Checker.ResponseHeader.{Expected, check-Expected}
use gonkey.Checker.ResponseDb
use gonkey.Checker.ResponseDb.Rows.{DbAgrees, check-DbAgrees}
use gonkey.Checker.ResponseDb.NoPanic.{check-no_panic}
use gonkey.Runner.{
  Call, RunError, Env, entry, execute_test, run_tests, load_test_fixtures, reset_mocks,
  load_test_mocks, run_before_script, make_pause, sleep_if, exchange, process_outputs,
  set_variables_from_response,
}
use gonkey.Runner.Plan.{Follows, planned, execute_test-Follows}
use gonkey.Runner.Totals.{Runs, failures, run_tests-Runs}
use gonkey.Runner.Carry.{set_variables-plain_text, get-set_variables}
use gonkey.Examples.Documents.{runtime}

abbrev pub definition : TestDefinition
definition = record {
  name = codes "create";
  variables = (codes "id", codes "7") ∷ [];
  variables_to_set = some ((pos 200, (codes "token", codes "t") ∷ []) ∷ []);
  method = codes "post";
  request_url = codes "/users";
  query_params = [];
  request_tmpl = [];
  response_tmpls = (pos 200, codes "ok") ∷ [];
  response_headers = [];
  before_script_params = record { path_tmpl = []; timeout = pos 0 };
  headers_val = [];
  cookies_val = [];
  cases = [];
  comparison_params = record {
    ignore_values = false;
    ignore_arrays_ordering = false;
    disallow_extra_fields = false;
  };
  fixture_files = some (codes "users" ∷ []);
  mocks_definition = none;
  pause_value = pos 0;
  db_query_tmpl = [];
  db_response_tmpl = none;
}

abbrev pub test : Test
test = record {
  definition = definition;
  request = codes "{}";
  responses = (pos 200, codes "ok") ∷ [];
  response_headers = (pos 200, (codes "Server", codes "s") ∷ []) ∷ [];
  before_script = [];
  db_query = codes "SELECT 1";
  db_response = some (codes "1" ∷ []);
}

abbrev pub result : Result
result = record {
  path = codes "/users";
  query = [];
  request_body = codes "{}";
  response_status_code = pos 200;
  response_status = codes "200 OK";
  response_content_type = codes "text/plain";
  response_body = codes "ok";
  response_headers = (codes "Server", codes "s" ∷ []) ∷ [];
  errors = [];
  db_query = [];
  db_response = [];
  test = test;
}

-- A JSON text is read as a text, and every query gives one row.
abbrev pub unmarshal : Text → Option Value
unmarshal s = some (string s)

abbrev pub diff : Value → Value → Text
diff v w = []

abbrev db : Text → Option (List (Option Text) × Bool)
db q = some (some (codes "1") ∷ [], true)

-- A server that answers each request with a text.
abbrev pub env : Env
env = record {
  host = codes "http://h";
  has_fixtures_loader = true;
  has_mocks = true;
  has_mocks_loader = false;
  checkers = (λ _. ResponseBody.check runtime unmarshal) ∷ [];
  outputs = (λ _ _ _. true) ∷ [];
  http = record {
    to_upper = λ s. s;
    make_request =
        λ m u b. some (record { method = m; url_path = u; raw_query = []; header = []; body = b });
    canonical = λ s. s;
    add_cookie = λ k v h. h;
  };
  get_json = λ body path. some path;
  getenv = λ _. [];
  client_ok = true;
  fixtures_ok = λ _ _. true;
  mocks_ok = λ _ _. true;
  script_ok = λ _ _ _. true;
  respond = λ _ _. some (record {
    status_code = pos 200;
    status = codes "200 OK";
    header = [];
    body = some (codes "ok");
  });
  mock_errors = λ _. [];
}

abbrev old : Variables
old = (codes "id", new_variable (codes "id") (codes "1")) ∷ []

abbrev taken : Variables
taken = (codes "token", new_variable (codes "token") (codes "t")) ∷ []

match_variable_iff_example :
    (match_variable (codes "{{ $id }}/x") ≡ some (codes "id", codes "/x")) ↔ (
      (codes "id" ≢ [])
      × IsWord (codes "id")
      × IsPlaceholder (codes "{{ $id }}/x") (codes "id") (codes "/x"))
match_variable_iff_example = match_variable_iff (codes "id") (codes "{{ $id }}/x") (codes "/x")

match_name_iff_example :
    (match_name (codes "id") (codes "{{ $id }}/x") ≡ some (codes "/x"))
    ↔ IsPlaceholder (codes "{{ $id }}/x") (codes "id") (codes "/x")
match_name_iff_example = match_name_iff (codes "id") (codes "{{ $id }}/x") (codes "/x")

lookup-load_example :
    lookup (codes "id") (load definition.variables old)
    ≡ later
        (as_variable (codes "id") (lookup (codes "id") definition.variables))
        (lookup (codes "id") old)
unfolding lookup
lookup-load_example = lookup-load (codes "id") definition.variables old (refl, tt)

get-merge_example :
    get (λ _. []) (merge old taken) (codes "token")
    ≡ or_else
        (lookup (codes "token") taken)
        (or_else (lookup (codes "token") old) (environment (λ _. []) (codes "token")))
unfolding lookup
get-merge_example = get-merge (λ _. []) old taken (codes "token") (refl, tt)

lookup-add_example :
    lookup (codes "id") (add (new_variable (codes "id") (codes "2")) old)
    ≡ some (new_variable (codes "id") (codes "2"))
unfolding is_word
lookup-add_example = lookup-add (codes "id") (codes "2") old (refl, (refl, tt))

check-Expected_example :
    (ResponseHeader.check runtime (λ k. k) test result ≡ ok ([], result))
    ↔ Expected runtime (λ k. k) result (get_response_headers test result.response_status_code)
check-Expected_example = check-Expected runtime (λ k. k) test result

check-DbAgrees_example :
    ((r : Result) × (ResponseDb.check unmarshal diff db test result ≡ ok ([], r)))
    ↔ DbAgrees unmarshal diff db test
check-DbAgrees_example = check-DbAgrees unmarshal diff db test result

check-no_panic_example : ResponseDb.check unmarshal diff db test result ≢ panic
check-no_panic_example = check-no_panic unmarshal diff db test result

execute_test-Follows_example :
    Follows
      (execute_test env old test)
      (planned env (apply env.getenv (some (load (get_variables test) old)) test))
execute_test-Follows_example = execute_test-Follows env old test

set_variables-plain_text_example :
    ((vs' : Variables) × (set_variables_from_response env test
          (codes "text/html")
          (codes "gone")
          (pos 404)
          old
        ≡ ok vs'))
    ↔ ((name : Text) × (path : Text) × (entry
            ((pos 200, (codes "token", codes "t") ∷ []) ∷ [])
            (pos 404)
          ≡ (name, path) ∷ []))
unfolding contains
set_variables-plain_text_example =
    set_variables-plain_text env test ((pos 200, (codes "token", codes "t") ∷ []) ∷ [])
      (codes "text/html") (codes "gone") (pos 404) old refl refl

abbrev document_type : Text
document_type = codes "application/json"

get-set_variables_example :
    ValueAt env.get_json
      (codes "{}")
      (codes "token")
      (some (codes "t"))
      (get env.getenv old (codes "token"))
      (get env.getenv (merge old taken) (codes "token"))
unfolding lookup contains set_variables_from_response quote_meta text_beq is_word from_response add
    insert new_variable
get-set_variables_example =
    get-set_variables env test ((pos 200, (codes "token", codes "t") ∷ []) ∷ []) document_type
      (codes "{}") (pos 200) old (merge old taken) (codes "token") refl refl (refl, tt)
      ((refl, (refl, (refl, (refl, (refl, tt))))), tt) refl

abbrev ended : Outcome RunError Summary × List Call
ended = run_tests env (test ∷ []) old 0 0 []

abbrev totals : Summary
totals = record { success = true; failed = 0; total = 1 }

ran : run_tests env (test ∷ []) old 0 0 [] ≡ (ok totals, ended.1)
unfolding run_tests execute_test load_test_fixtures apply reset_mocks load_test_mocks
    run_before_script make_pause sleep_if new_request exchange ResponseBody.check lookup insert
    contains set_variables_from_response from_response process_outputs text_beq load compare
    find_expr perform leaf_match_type has_prefix compare_branch depth
ran = refl

run_tests-Runs_example :
    (results : List Result) × Runs env old [] (test ∷ []) results ended.1
    × (totals.total ≡ 1)
    × (totals.failed ≡ failures env results)
    × ((totals.success ≡ true) ↔ All (λ r. r.errors ≡ []) results)
run_tests-Runs_example = run_tests-Runs env (test ∷ []) old [] ended.1 totals ran
