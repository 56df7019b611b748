-- ===== src/Checker/ResponseBody.antt =====
-- checker/response_body/response_body.go: the expected response of a test against the one that came.
use gonkey.Base.{
  ◌≡◌, ◌≢◌, Bool, not, ◌&&◌, Option, none, some, List, [], ◌∷◌, map, if◌then◌else◌, int_eq, ◌==◌,
}
use gonkey.Base.Text.{Text, codes, text_eq, contains}
use gonkey.Base.Dict.{lookup}
use gonkey.Base.Search.{Holds}
use gonkey.Base.Outcome.{Outcome, ok, fail}
use gonkey.Value.{Value, string, Runtime}
use gonkey.Compare.Branch.{CompareParams, default_params, compare}
use gonkey.Compare.Agrees.{LeafAgrees, Agrees}
use gonkey.Models.{
  Test, Result, ResultError, comparison, server_responded_with, could_not_parse_response,
  get_response, get_name, needs_checking_values, ignore_arrays_ordering, disallow_extra_fields,
}
use gonkey.Checker.{CheckFailure, Checker, unchanged, invalid_json_in_response}

-- The fields of the parameters, from the test.
abbrev pub params_of : Test → CompareParams
params_of t = record {
  ignore_values = not (needs_checking_values t);
  ignore_arrays_ordering = ignore_arrays_ordering t;
  disallow_extra_fields = disallow_extra_fields t;
}

-- `unmarshal` is `json.Unmarshal` into an empty interface.
module _ (rt : Runtime) (unmarshal : Text → Option Value) where
  -- The part of `compareJsonBody` after the expected body is decoded.
  abbrev compare_actual : Test → Value → Option Value → List ResultError
  compare_actual t expected none = could_not_parse_response ∷ []
  compare_actual t expected (some actual) =
      map comparison (compare rt expected actual (params_of t))

  abbrev compare_decoded : Test → Result → Option Value → Outcome CheckFailure (List ResultError)
  compare_decoded t result none =
      fail (invalid_json_in_response (get_name t) result.response_status_code)
  compare_decoded t result (some expected) =
      ok (compare_actual t expected (unmarshal result.response_body))

  unfoldable pub compare_json_body : Test → Text → Result → Outcome CheckFailure (List ResultError)
  compare_json_body t expected_body result = compare_decoded t result (unmarshal expected_body)

  abbrev is_json : Result → Text → Bool
  is_json result expected_body =
      contains result.response_content_type (codes "json") && not (expected_body == [])

  abbrev check_response : Test → Result → Option Text → Outcome CheckFailure (List ResultError)
  check_response t result none = ok (server_responded_with result.response_status_code ∷ [])
  check_response t result (some expected_body) =
      if is_json result expected_body
      then compare_json_body t expected_body result
      else ok (
          map comparison
            (compare rt (string expected_body) (string result.response_body) default_params))

  unfoldable pub check : Checker
  check t result =
      unchanged result (check_response t result (get_response t result.response_status_code))

  -- The response calls itself JSON, and a body is expected.
  abbrev pub AsJson : Result → Text → Type 0
  AsJson result body = Holds (codes "json") result.response_content_type × (body ≢ [])

  -- The comparison that a test asks for.
  abbrev pub asked_params : Test → CompareParams
  asked_params t = record {
    ignore_values = t.definition.comparison_params.ignore_values;
    ignore_arrays_ordering = t.definition.comparison_params.ignore_arrays_ordering;
    disallow_extra_fields = t.definition.comparison_params.disallow_extra_fields;
  }

  -- What a response must be: JSON that agrees with the expected JSON as the test asks for, or else a text that
  -- is the expected one or matches it.
  pub data BodyAgrees : Test → Result → Type 0 where
    json :
        {t : Test} {result : Result} (body : Text) (expected actual : Value)
        → lookup result.response_status_code t.responses ≡ some body
        → AsJson result body
        → unmarshal body ≡ some expected
        → unmarshal result.response_body ≡ some actual
        → Agrees rt (asked_params t) expected actual
        → BodyAgrees t result
    plain :
        {t : Test} {result : Result} (body : Text)
        → lookup result.response_status_code t.responses ≡ some body
        → ¬ AsJson result body
        → LeafAgrees rt (string body) (string result.response_body)
        → BodyAgrees t result
