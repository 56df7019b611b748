-- ===== src/Models.antt =====
-- The test cases: testloader/yaml_file/test_definition.go and test.go, and models/. A slice or map that
-- the program tests against nil is an `Option`.
use gonkey.Base.{ℕ, ℤ, Bool, not, Option, none, some, List, [], ◌∷◌}
use gonkey.Base.{int_eq}
use gonkey.Base.Text.{Text}
use gonkey.Base.Dict.{Dict, lookup, insert}
use gonkey.Yaml.{Yaml}
use gonkey.Compare.Branch.{CompareError}

pub record ComparisonParams : Type 0 where
  pub ignore_values : Bool
  pub ignore_arrays_ordering : Bool
  pub disallow_extra_fields : Bool

pub record BeforeScriptParams : Type 0 where
  pub path_tmpl : Text
  pub timeout : ℤ

-- The arguments of a template.
abbrev pub Args : Type 0
Args = Dict Text Yaml

pub record CaseData : Type 0 where
  pub request_args : Args
  pub response_args : Dict ℤ Args
  pub before_script_args : Args
  pub db_query_args : Args
  pub db_response_args : Args
  pub db_response : Option (List Text)

abbrev pub VariablesToSet : Type 0
VariablesToSet = Dict ℤ (Dict Text Text)

pub record TestDefinition : Type 0 where
  pub name : Text
  pub variables : Dict Text Text
  pub variables_to_set : Option VariablesToSet
  pub method : Text
  pub request_url : Text
  pub query_params : Text
  pub request_tmpl : Text
  pub response_tmpls : Dict ℤ Text
  pub response_headers : Dict ℤ (Dict Text Text)
  pub before_script_params : BeforeScriptParams
  pub headers_val : Dict Text Text
  pub cookies_val : Dict Text Text
  pub cases : List CaseData
  pub comparison_params : ComparisonParams
  pub fixture_files : Option (List Text)
  pub mocks_definition : Option (Dict Text Yaml)
  pub pause_value : ℤ
  pub db_query_tmpl : Text
  pub db_response_tmpl : Option (List Text)

-- The struct `Test`. Its own `ResponseHeaders` hide those of the definition.
pub record Test : Type 0 where
  pub definition : TestDefinition
  pub request : Text
  pub responses : Dict ℤ Text
  pub response_headers : Dict ℤ (Dict Text Text)
  pub before_script : Text
  pub db_query : Text
  pub db_response : Option (List Text)

-- The methods of the interface `TestInterface`.
abbrev pub to_query : Test → Text
to_query t = t.definition.query_params

abbrev pub get_method : Test → Text
get_method t = t.definition.method

abbrev pub path : Test → Text
path t = t.definition.request_url

abbrev pub get_request : Test → Text
get_request t = t.request

-- `ToJSON` never fails.
abbrev pub to_json : Test → Text
to_json t = t.request

abbrev pub get_responses : Test → Dict ℤ Text
get_responses t = t.responses

abbrev pub get_response : Test → ℤ → Option Text
get_response t code = lookup code t.responses

abbrev pub get_response_headers : Test → ℤ → Option (Dict Text Text)
get_response_headers t code = lookup code t.response_headers

abbrev pub needs_checking_values : Test → Bool
needs_checking_values t = not t.definition.comparison_params.ignore_values

abbrev pub get_name : Test → Text
get_name t = t.definition.name

abbrev pub ignore_arrays_ordering : Test → Bool
ignore_arrays_ordering t = t.definition.comparison_params.ignore_arrays_ordering

abbrev pub disallow_extra_fields : Test → Bool
disallow_extra_fields t = t.definition.comparison_params.disallow_extra_fields

abbrev pub fixtures : Test → Option (List Text)
fixtures t = t.definition.fixture_files

abbrev pub service_mocks : Test → Option (Dict Text Yaml)
service_mocks t = t.definition.mocks_definition

abbrev pub pause : Test → ℤ
pause t = t.definition.pause_value

abbrev pub before_script_path : Test → Text
before_script_path t = t.before_script

abbrev pub before_script_timeout : Test → ℤ
before_script_timeout t = t.definition.before_script_params.timeout

abbrev pub cookies : Test → Dict Text Text
cookies t = t.definition.cookies_val

abbrev pub headers : Test → Dict Text Text
headers t = t.definition.headers_val

abbrev pub db_query_string : Test → Text
db_query_string t = t.db_query

abbrev pub db_response_json : Test → Option (List Text)
db_response_json t = t.db_response

abbrev pub get_variables : Test → Dict Text Text
get_variables t = t.definition.variables

abbrev pub get_variables_to_set : Test → Option VariablesToSet
get_variables_to_set t = t.definition.variables_to_set

-- A copy of the struct; the setters assign whole fields, so nothing is shared that they change.
abbrev pub clone : Test → Test
clone t = t

abbrev pub set_query : Text → Test → Test
set_query val t = record t { definition = record t.definition { query_params = val } }

abbrev pub set_method : Text → Test → Test
set_method val t = record t { definition = record t.definition { method = val } }

abbrev pub set_path : Text → Test → Test
set_path val t = record t { definition = record t.definition { request_url = val } }

abbrev pub set_request : Text → Test → Test
set_request val t = record t { request = val }

abbrev pub set_responses : Dict ℤ Text → Test → Test
set_responses val t = record t { responses = val }

abbrev pub set_headers : Dict Text Text → Test → Test
set_headers val t = record t { definition = record t.definition { headers_val = val } }

-- `UnmarshalYAML`: `plain` and `paths` are what the YAML package makes of the node as a map of names
-- and as a map of maps.
abbrev one_variable : Dict ℤ Text → VariablesToSet → VariablesToSet
one_variable [] res = res
one_variable ((code, name) ∷ plain) res = one_variable plain (insert code ((name, []) ∷ []) res)

unfoldable pub unmarshal_variables_to_set :
    Option (Dict ℤ Text) → Option VariablesToSet → Option VariablesToSet
unmarshal_variables_to_set (some plain) paths = some (one_variable plain [])
unmarshal_variables_to_set none paths = paths

-- The errors that a test collects: those of the checkers; the mocks' and those of the JSON
-- schemas as the texts of their messages.
pub data ResultError : Type 0 where
  comparison : CompareError → ResultError
  server_responded_with : ℤ → ResultError
  could_not_parse_response : ResultError
  header_not_included : Text → ResultError
  header_does_not_match : Text → Text → ResultError
  db_items_do_not_match : Text → Text → ResultError
  db_quantity_does_not_match : ℕ → ℕ → Text → ResultError
  mock_error schema_error : Text → ResultError

-- models/result.go. `test` is the test as it was sent.
pub record Result : Type 0 where
  pub path : Text
  pub query : Text
  pub request_body : Text
  pub response_status_code : ℤ
  pub response_status : Text
  pub response_content_type : Text
  pub response_body : Text
  pub response_headers : Dict Text (List Text)
  pub errors : List ResultError
  pub db_query : Text
  pub db_response : List Text
  pub test : Test

pub record Summary : Type 0 where
  pub success : Bool
  pub failed : ℕ
  pub total : ℕ
