-- ===== src/Checker/ResponseHeader.antt =====
-- checker/response_header/response_header.go: the expected headers against those that came.
use gonkey.Base.{
  ◌≡◌, ◌↔◌, refl, Bool, true, false, Option, none, some, List, [], ◌∷◌, ◌++◌, if◌then◌else◌, int_eq,
  Bool-cases, inl, inr, append-eq-nil, arith,
}
use gonkey.Base.Text.{Text, text_eq}
use gonkey.Base.Dict.{Dict, lookup}
use gonkey.Base.Outcome.{ok}
use gonkey.Value.{string, Runtime}
use gonkey.Compare.Branch.{CompareError, default_params, compare}
use gonkey.Compare.Agrees.{Agrees}
use gonkey.Compare.Sound.{compare-Agrees}
use gonkey.Models.{
  Test, Result, ResultError, header_not_included, header_does_not_match, get_response_headers,
}
use gonkey.Checker.{Checker, unchanged}

-- `canonical` is `textproto.CanonicalMIMEHeaderKey`.
module _ (rt : Runtime) (canonical : Text → Text) where
  abbrev no_errors : List CompareError → Bool
  no_errors [] = true
  no_errors (e ∷ errs) = false

  -- The loop over the values of a header; it does not stop at the first that is found.
  unfoldable pub find_value : Text → List Text → Bool → Bool
  find_value v [] found = found
  find_value v (actual ∷ values) found =
      find_value v values
        (if no_errors (compare rt (string v) (string actual) default_params) then true else found)

  abbrev check_header : Text → Text → Option (List Text) → List ResultError
  check_header k v none = header_not_included k ∷ []
  check_header k v (some values) =
      if find_value v values false then [] else header_does_not_match k v ∷ []

  unfoldable pub check_headers : Dict Text Text → Dict Text (List Text) → List ResultError
  unfolding find_value
  check_headers [] actual = []
  check_headers ((k, v) ∷ expected) actual =
      check_header (canonical k) v (lookup (canonical k) actual) ++ check_headers expected actual

  -- No entry and an empty one are the same.
  abbrev check_expected : Result → Option (Dict Text Text) → List ResultError
  check_expected result none = []
  check_expected result (some expected) = check_headers expected result.response_headers

  unfoldable pub check : Checker
  unfolding check_headers
  check t result =
      unchanged result
        (ok (check_expected result (get_response_headers t result.response_status_code)))

  -- One of the values agrees with the expected one.
  pub data SomeAgrees (v : Text) : List Text → Type 0 where
    here :
        {actual : Text} {values : List Text}
        → Agrees rt default_params (string v) (string actual)
        → SomeAgrees v (actual ∷ values)
    there :
        {actual : Text} {values : List Text} → SomeAgrees v values → SomeAgrees v (actual ∷ values)

  pub data HeadersAgree (actual : Dict Text (List Text)) : Dict Text Text → Type 0 where
    no_header : HeadersAgree actual []
    one_header :
        {k v : Text} {expected : Dict Text Text} (values : List Text)
        → lookup (canonical k) actual ≡ some values
        → SomeAgrees v values
        → HeadersAgree actual expected
        → HeadersAgree actual ((k, v) ∷ expected)

  abbrev pub Expected : Result → Option (Dict Text Text) → Type 0
  Expected result none = Unit
  Expected result (some expected) = HeadersAgree result.response_headers expected

  find_value-true : (v : Text) (values : List Text) → find_value v values true ≡ true
  unfolding find_value
  find_value-true v [] = refl
  find_value-true v (a ∷ values) = ground (arith, find_value-true v values)

  no_errors-nil : (errs : List CompareError) → no_errors errs ≡ true → errs ≡ []
  no_errors-nil [] h = refl
  no_errors-nil (e ∷ errs) h = cc

  find_value_sound :
      (v : Text) (values : List Text) → find_value v values false ≡ true → SomeAgrees v values
  unfolding find_value
  find_value_sound v [] h = cc
  find_value_sound v (a ∷ values) h =
      elim (Bool-cases (no_errors (compare rt (string v) (string a) default_params))) [
        | inl t ↦ here ((compare-Agrees rt _ _ _).0 (no_errors-nil _ t))
        | inr f ↦ there (find_value_sound v values (cc (h, f)))
      ]

  find_value_complete :
      (v : Text) (values : List Text) (b : Bool)
      → SomeAgrees v values
      → find_value v values b ≡ true
  unfolding find_value
  find_value_complete v _ b (here {values = values} agree) =
      rw ((compare-Agrees rt _ _ _).1 agree) (find_value-true v values)
  find_value_complete v _ b (there s) = find_value_complete v _ _ s

  header_sound :
      (k v : Text) (o : Option (List Text))
      → check_header k v o ≡ []
      → (values : List Text) × (o ≡ some values) × SomeAgrees v values
  header_sound k v none h = cc
  header_sound k v (some values) h = elim (Bool-cases (find_value v values false)) [
    | inl t ↦ (values, refl, find_value_sound v values t)
    | inr f ↦ cc
  ]

  headers_sound :
      (expected : Dict Text Text) (actual : Dict Text (List Text))
      → check_headers expected actual ≡ []
      → HeadersAgree actual expected
  unfolding check_headers
  headers_sound [] actual h = no_header
  headers_sound ((k, v) ∷ expected) actual h =
      let (first, rest) = (append-eq-nil _ _).0 h in
      let (values, found, s) = header_sound _ v _ first in
      one_header values found s (headers_sound expected actual rest)

  headers_complete :
      (actual : Dict Text (List Text)) {expected : Dict Text Text}
      → HeadersAgree actual expected
      → check_headers expected actual ≡ []
  unfolding check_headers
  headers_complete actual no_header = refl
  headers_complete actual (one_header values found s rest) =
      rw (found, find_value_complete _ values false s) (headers_complete actual rest)

  Expected-iff :
      (result : Result) (o : Option (Dict Text Text))
      → (check_expected result o ≡ []) ↔ Expected result o
  Expected-iff result none = (λ _. tt, λ _. refl)
  Expected-iff result (some expected) = (headers_sound expected _, headers_complete _)

  -- The checker of headers finds no error exactly where each header that the test expects of the status
  -- came with a value that agrees.
  pub check-Expected :
      (t : Test) (result : Result)
      → (check t result ≡ ok ([], result))
        ↔ Expected result (get_response_headers t result.response_status_code)
  unfolding check
  check-Expected t result =
      let (sound, complete) =
        Expected-iff result (get_response_headers t result.response_status_code) in
      (λ h. sound cc, λ g. cc (complete g))
