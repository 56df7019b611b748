-- ===== src/Mocks/Constraint.antt =====
-- mocks/request_constraint.go: what a definition checks of a request.
use gonkey.Base.{
  Bool, true, false, not, ◌&&◌, Option, none, some, List, [], ◌∷◌, ◌++◌, map, if◌then◌else◌, ◌==◌,
  nat_beq,
}
use gonkey.Base.Text.{Text, text_eq, text_beq, text_lt}
use gonkey.Base.Dict.{Dict, lookup}
use gonkey.Base.Outcome.{Outcome, ok, or_fail, ◌>>=◌}
use gonkey.Sort.{sort_by}
use gonkey.Value.{Value, Runtime}
use gonkey.Compare.Branch.{CompareParams, CompareError, compare}

-- A request as it reaches the server of a mock: `header` is `Header.Get`, `query` is `URL.Query`, and the
-- body is `none` where it cannot be read, however often that is tried.
pub record ServerRequest : Type 0 where
  pub method : Text
  pub url_path : Text
  pub query : Dict Text (List Text)
  pub header : Text → Text
  pub body : Option Text

-- The implementations of the interface `verifier`. A regular expression stands with its text.
pub data Verifier : Type 0 where
  nop_constraint : Verifier
  body_matches_json : Value → Verifier
  method_constraint : Text → Verifier
  header_constraint : Text → Text → Option (Text × (Text → Bool)) → Verifier
  query_constraint : Dict Text (List Text) → Verifier

-- The arguments of each message, in the order of the message.
pub data ConstraintError : Type 0 where
  read_failed request_is_empty bad_json : ConstraintError
  comparison : CompareError → ConstraintError
  method_does_not_match : Text → Text → ConstraintError
  header_is_missing : Text → ConstraintError
  header_value_does_not_match : Text → Text → Text → ConstraintError
  header_does_not_match_regexp : Text → Text → Text → ConstraintError
  parameter_is_missing : Text → ConstraintError
  parameters_are_not_equal : Text → List Text → List Text → ConstraintError

-- The errors of the constructors of constraints.
pub data BadConstraint : Type 0 where
  invalid_json invalid_regexp invalid_query : BadConstraint

abbrev pub body_params : CompareParams
body_params = record {
  ignore_values = false;
  ignore_arrays_ordering = true;
  disallow_extra_fields = false;
}

-- `reflect.DeepEqual` on two slices of strings.
unfoldable pub texts_beq : List Text → List Text → Bool
texts_beq [] [] = true
texts_beq (s ∷ ss) (t ∷ ts) = text_beq s t && texts_beq ss ts
texts_beq _ _ = false

abbrev pub sorted : List Text → List Text
sorted = sort_by text_lt

-- One parameter of the expected query. Both lists are sorted in place: the one of the request is a copy, and
-- sorting the expected one once more changes nothing.
unfoldable pub verify_parameter : Text → List Text → Option (List Text) → List ConstraintError
unfolding texts_beq
verify_parameter key want none = parameter_is_missing key ∷ []
verify_parameter key want (some got) =
    if texts_beq (sorted got) (sorted want)
    then []
    else parameters_are_not_equal key (sorted got) (sorted want) ∷ []

unfoldable pub verify_query : Dict Text (List Text) → Dict Text (List Text) → List ConstraintError
unfolding verify_parameter
verify_query [] got = []
verify_query ((key, want) ∷ expected) got =
    verify_parameter key want (lookup key got) ++ verify_query expected got

-- `equal_fold` is `strings.EqualFold`. The message names the method of the request as the expected one.
unfoldable pub verify_method : (Text → Text → Bool) → Text → Text → List ConstraintError
verify_method equal_fold method actual =
    if equal_fold actual method then [] else method_does_not_match actual method ∷ []

abbrev pub verify_regexp : Text → Text → Option (Text × (Text → Bool)) → List ConstraintError
verify_regexp header value none = []
verify_regexp header value (some (re, matches)) =
    if matches value then [] else header_does_not_match_regexp header value re ∷ []

-- A header with an empty value counts as missing, an empty expected value as none.
unfoldable pub verify_header :
    Text → Text → Option (Text × (Text → Bool)) → Text → List ConstraintError
verify_header header expected re value =
    if value == []
    then header_is_missing header ∷ []
    else if not (expected == []) && not (expected == value)
    then header_value_does_not_match header value expected ∷ []
    else verify_regexp header value re

-- `unmarshal` is `json.Unmarshal` into an empty interface, `parse_query` is `url.ParseQuery`.
module _ (rt : Runtime) (unmarshal : Text → Option Value) where
  abbrev pub compare_body : Value → Option Value → List ConstraintError
  compare_body expected none = bad_json ∷ []
  compare_body expected (some actual) = map comparison (compare rt expected actual body_params)

  unfoldable pub verify_body : Value → Option Text → List ConstraintError
  verify_body expected none = read_failed ∷ []
  verify_body expected (some []) = request_is_empty ∷ []
  verify_body expected (some (c ∷ body)) = compare_body expected (unmarshal (c ∷ body))

  -- `Verify` of each constraint.
  unfoldable pub verify : (Text → Text → Bool) → Verifier → ServerRequest → List ConstraintError
  unfolding verify_body verify_method verify_header verify_query
  verify equal_fold nop_constraint r = []
  verify equal_fold (body_matches_json expected) r = verify_body expected r.body
  verify equal_fold (method_constraint method) r = verify_method equal_fold method r.method
  verify equal_fold (header_constraint header value re) r =
      verify_header header value re (r.header header)
  verify equal_fold (query_constraint expected) r = verify_query expected r.query

  unfoldable pub new_body_matches_json : Text → Outcome BadConstraint Verifier
  new_body_matches_json expected = do
    value ← or_fail invalid_json (unmarshal expected)
    ok (body_matches_json value)

  unfoldable pub new_header_constraint : Text → Text → Text → Outcome BadConstraint Verifier
  new_header_constraint header value [] = ok (header_constraint header value none)
  new_header_constraint header value (c ∷ re) = do
    compiled ← or_fail invalid_regexp (rt.compile_regexp (c ∷ re))
    ok (header_constraint header value (some (c ∷ re, compiled)))

-- A leading question mark is left out.
abbrev without_mark : Text → Text
without_mark [] = []
without_mark (c ∷ query) = if nat_beq c b'?' then query else c ∷ query

unfoldable pub new_query_constraint :
    (Text → Option (Dict Text (List Text))) → Text → Outcome BadConstraint Verifier
new_query_constraint parse_query query = do
  expected ← or_fail invalid_query (parse_query (without_mark query))
  ok (query_constraint expected)
