-- ===== src/Checker/ResponseSchema.antt =====
-- checker/response_schema/response_schema.go: the response against the operations of a Swagger document. The
-- records have what the checker reads of the structs of the package spec.
pub mod Described
use mathlib.Core.List.{Mem}
use gonkey.Base.{
  ℕ, ℤ, ◌≡◌, ◌≢◌, ◌⊎◌, inl, inr, refl, ap, Bool, true, false, Option, none, some, List, [], ◌∷◌,
  ◌++◌, map, if◌then◌else◌, ◌==◌, int_eq, All, Bool-cases, Option-cases,
}
use gonkey.Base.Text.{Text, codes, text_eq, text_beq, text_beq_iff}
use gonkey.Base.Dict.{Dict, lookup}
use gonkey.Base.Outcome.{
  Outcome, ok, fail, panic, or_fail, or_panic, ◌>>=◌, >>=-eq-ok, ok-injective, or_fail-eq-ok,
}
use gonkey.Value.{Value}
use gonkey.Models.{Test, Result, ResultError, schema_error, path, get_method}
use gonkey.Checker.{CheckFailure, Checker, unchanged, response_is_not_json}

-- `Schema` stands for the schemas, which only the package validate looks into.
pub record Response (Schema : Type 0) : Type 0 where
  pub headers : List Text
  pub schema : Schema

pub record Responses (Schema : Type 0) : Type 0 where
  pub status_code_responses : Dict ℤ (Response Schema)
  pub default : Option (Response Schema)

-- `responses` is `none` where the pointer is nil, `paths` too.
pub record Operation (Schema : Type 0) : Type 0 where
  pub responses : Option (Responses Schema)

pub record PathItem (Schema : Type 0) : Type 0 where
  pub get : Option (Operation Schema)
  pub put : Option (Operation Schema)
  pub post : Option (Operation Schema)
  pub delete : Option (Operation Schema)
  pub options : Option (Operation Schema)
  pub head : Option (Operation Schema)
  pub patch : Option (Operation Schema)

pub record Swagger (Schema : Type 0) : Type 0 where
  pub base_path : Text
  pub paths : Option (Dict Text (PathItem Schema))

-- What `validate.AgainstSchema` returns, each error as its message.
pub data Validity : Type 0 where
  valid : Validity
  composite_error : List Text → Validity
  single_error : Text → Validity

abbrev pub validity_errors : Validity → List ResultError
validity_errors valid = []
validity_errors (composite_error messages) = map schema_error messages
validity_errors (single_error message) = schema_error message ∷ []

-- `to_lower` and `to_upper` are those of the package strings, `unmarshal` is `json.Unmarshal` into an empty
-- interface, `against_schema` is `validate.AgainstSchema` with the default formats.
module _ {Schema : Type 0} (to_lower to_upper : Text → Text) (unmarshal : Text → Option Value)
    (against_schema : Schema → Value → Validity) where
  unfoldable pub method_to_operation : PathItem Schema → Text → Option (Operation Schema)
  method_to_operation p method =
      let upper = to_upper method in
      if upper == codes "GET"
      then p.get
      else if upper == codes "PUT"
      then p.put
      else if upper == codes "POST"
      then p.post
      else if upper == codes "DELETE"
      then p.delete
      else if upper == codes "OPTIONS"
      then p.options
      else if upper == codes "HEAD"
      then p.head
      else if upper == codes "PATCH"
      then p.patch
      else none

  abbrev first : Option (Operation Schema) → Option (Operation Schema) → Option (Operation Schema)
  first (some operation) later = some operation
  first none later = later

  -- The loop of `findResponse` over the paths.
  unfoldable pub find_operation :
      Text → Text → Text → Dict Text (PathItem Schema) → Option (Operation Schema)
  unfolding method_to_operation
  find_operation base test_path test_method [] = none
  find_operation base test_path test_method ((p, item) ∷ paths) =
      let later = find_operation base test_path test_method paths in
      if to_lower test_path == to_lower (base ++ p)
      then first (method_to_operation item test_method) later
      else later

  abbrev pub or_default :
      Option (Response Schema) → Option (Response Schema) → Option (Response Schema)
  or_default (some response) default = some response
  or_default none default = default

  abbrev pub response_of :
      ℤ → Option (Operation Schema) → Outcome CheckFailure (Option (Response Schema))
  response_of status_code none = ok none
  response_of status_code (some operation) = or_panic operation.responses >>= λ r.
      ok (or_default (lookup status_code r.status_code_responses) r.default)

  unfoldable pub find_response :
      Swagger Schema → Text → Text → ℤ → Outcome CheckFailure (Option (Response Schema))
  unfolding find_operation
  find_response swagger test_path test_method status_code = do
    paths ← or_panic swagger.paths
    response_of status_code (find_operation swagger.base_path test_path test_method paths)

  -- The check of the headers does nothing.
  abbrev pub response_errors : Value → Option (Response Schema) → List ResultError
  response_errors actual none = []
  response_errors actual (some response) = validity_errors (against_schema response.schema actual)

  unfoldable pub validate_response_against_swagger :
      Text → Text → ℤ → Value → Swagger Schema → Outcome CheckFailure (List ResultError)
  unfolding find_response
  validate_response_against_swagger test_path method status_code actual swagger = do
    response ← find_response swagger test_path method status_code
    ok (response_errors actual response)

  unfoldable pub check : Swagger Schema → Checker
  unfolding validate_response_against_swagger
  check swagger t result = unchanged result do
    actual ← or_fail response_is_not_json (unmarshal result.response_body)
    validate_response_against_swagger (path t) (get_method t) result.response_status_code actual
        swagger

  -- `NewChecker`, given the expanded document if it can be loaded. A nil checker panics when it is called.
  unfoldable pub new_checker : Option (Swagger Schema) → Checker
  unfolding check
  new_checker none t result = panic
  new_checker (some swagger) t result = check swagger t result
