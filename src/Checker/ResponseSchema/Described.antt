-- ===== src/Checker/ResponseSchema/Described.antt =====
-- checker/response_schema/response_schema.go: which description of a response counts, and what is reported of it.
use gonkey.Base.{
  ◌≡◌, ◌≢◌, ◌⊎◌, inl, inr, refl, ap, sym, subst, ℤ, map, if◌then◌else◌, ◌==◌, ◌∙◌, Option, none,
  some, List, [], ◌∷◌, ◌++◌, int_eq, All, Bool-cases, Option-cases,
}
use gonkey.Base.Text.{Text, codes, text_eq, text_beq, text_beq_iff}
use gonkey.Base.Dict.{Dict, lookup}
use gonkey.Base.Search.{iff-false}
use gonkey.Base.Outcome.{
  ok, or_fail, or_panic, >>=-eq-ok, ok-injective, or_fail-eq-ok, or_panic-eq-ok,
}
use gonkey.Value.{Value}
use gonkey.Models.{Test, Result, ResultError, schema_error, path, get_method}
use gonkey.Checker.{response_is_not_json}
use gonkey.Checker.ResponseSchema.{
  Response, Responses, Operation, PathItem, Swagger, Validity, valid, composite_error, single_error,
  validity_errors, or_default, method_to_operation, find_operation, response_of, find_response,
  response_errors, validate_response_against_swagger, check,
}

module _ {Schema : Type 0} (to_lower to_upper : Text → Text) (unmarshal : Text → Option Value)
    (against_schema : Schema → Value → Validity) where
  -- The operations of a path, by the method that each is for.
  abbrev offered : PathItem Schema → List (Text × Option (Operation Schema))
  offered item =
      (codes "GET", item.get)
      ∷ (codes "PUT", item.put)
      ∷ (codes "POST", item.post)
      ∷ (codes "DELETE", item.delete)
      ∷ (codes "OPTIONS", item.options)
      ∷ (codes "HEAD", item.head)
      ∷ (codes "PATCH", item.patch)
      ∷ []

  -- What is offered for a method: nothing for one that is not in the list.
  abbrev Offers :
      List (Text × Option (Operation Schema)) → Text → Option (Operation Schema) → Type 0
  Offers [] method operation = operation ≡ none
  Offers ((name, there) ∷ rest) method operation =
      ((method ≡ name) × (operation ≡ there)) ⊎ ((method ≢ name) × Offers rest method operation)

  abbrev among : List (Text × Option (Operation Schema)) → Text → Option (Operation Schema)
  among [] method = none
  among ((name, there) ∷ rest) method = if method == name then there else among rest method

  among-Offers :
      (items : List (Text × Option (Operation Schema))) (method : Text)
      → Offers items method (among items method)
  among-Offers [] method = refl
  among-Offers ((name, there) ∷ rest) method = elim (Bool-cases (text_beq method name)) [
    | inl t ↦ rw t (inl ((text_beq_iff method name).0 t, refl))
    | inr f ↦ rw f (
        inr
          (iff-false (text_beq method name) (text_beq_iff method name) f, among-Offers rest method))
  ]

  -- The operation of a path for a method, whatever the case of the method.
  abbrev pub IsFor : Text → PathItem Schema → Option (Operation Schema) → Type 0
  IsFor method item operation = Offers (offered item) (to_upper method) operation

  method_to_operation-IsFor :
      (method : Text) (item : PathItem Schema)
      → IsFor method item
          (method_to_operation to_lower to_upper unmarshal against_schema item method)
  unfolding method_to_operation
  method_to_operation-IsFor method item = among-Offers (offered item) (to_upper method)

  -- A path of the document that is that of the test up to case, with an operation for its method.
  abbrev Takes : Text → Text → Text → Text × PathItem Schema → Operation Schema → Type 0
  Takes base test_path method named operation =
      (to_lower test_path ≡ to_lower (base ++ named.0)) × IsFor method named.1 (some operation)

  abbrev NotTaken : Text → Text → Text → Text × PathItem Schema → Type 0
  NotTaken base test_path method named =
      (to_lower test_path ≢ to_lower (base ++ named.0)) ⊎ IsFor method named.1 none

  -- The first operation that takes the test, or none where no path does.
  abbrev pub Found :
      Text → Text → Text → Dict Text (PathItem Schema) → Option (Operation Schema) → Type 0
  Found base test_path method paths none = All (NotTaken base test_path method) paths
  Found base test_path method paths (some operation) =
      (before : Dict Text (PathItem Schema)) × (named : Text × PathItem Schema) × (after : Dict Text
        (PathItem Schema))
      × (paths ≡ before ++ named ∷ after)
      × All (NotTaken base test_path method) before
      × Takes base test_path method named operation

  pass :
      (base test_path method : Text) (named : Text × PathItem Schema)
      (paths : Dict Text (PathItem Schema)) (found : Option (Operation Schema))
      → NotTaken base test_path method named
      → Found base test_path method paths found
      → Found base test_path method (named ∷ paths) found
  pass base test_path method named paths none h rest = (h, rest)
  pass base test_path method named paths (some operation) h
        (before, taken, after, split, passed, takes) =
      (named ∷ before, taken, after, ap (λ x. named ∷ x) split, (h, passed), takes)

  find_operation-Found :
      (base test_path method : Text) (paths : Dict Text (PathItem Schema))
      → Found base test_path method paths
          (find_operation to_lower to_upper unmarshal against_schema base test_path method paths)
  unfolding find_operation
  find_operation-Found base test_path method [] = tt
  find_operation-Found base test_path method ((p, item) ∷ paths) =
      elim (Bool-cases (text_beq (to_lower test_path) (to_lower (base ++ p)))) [
        | inl t ↦
            let offers = method_to_operation-IsFor method item in
            rw t
              (elim (Option-cases
                (method_to_operation to_lower to_upper unmarshal against_schema item method)) [
                  | inl e ↦ rw e (
                      pass base test_path method (p, item) paths _
                        (inr (subst (IsFor method item) e offers))
                        (find_operation-Found base test_path method paths))
                  | inr (operation, e) ↦ rw e (
                    [],
                    (p, item),
                    paths,
                    refl,
                    tt,
                    ((text_beq_iff _ _).0 t, subst (IsFor method item) e offers),
                  )
                ])
        | inr f ↦ rw f (
            pass base test_path method (p, item) paths _
              (inl (λ e. cc (f, (text_beq_iff (to_lower test_path) (to_lower (base ++ p))).1 e)))
              (find_operation-Found base test_path method paths))
      ]

  -- The description of a response for a status: its own where there is one, and else the default one.
  abbrev pub Describes : ℤ → Option (Operation Schema) → Option (Response Schema) → Type 0
  Describes status none response = response ≡ none
  Describes status (some operation) response =
      (r : Responses Schema) × (operation.responses ≡ some r)
      × (((own : Response Schema) × (lookup status r.status_code_responses ≡ some own)
            × (response ≡ some own))
          ⊎ ((lookup status r.status_code_responses ≡ none) × (response ≡ r.default)))

  -- The errors that a validation stands for.
  abbrev pub Tells : Validity → List ResultError → Type 0
  Tells valid errs = errs ≡ []
  Tells (composite_error messages) errs = errs ≡ map schema_error messages
  Tells (single_error message) errs = errs ≡ schema_error message ∷ []

  abbrev pub Reports : Value → Option (Response Schema) → List ResultError → Type 0
  Reports actual none errs = errs ≡ []
  Reports actual (some response) errs = Tells (against_schema response.schema actual) errs

  or_default-Describes :
      (own default : Option (Response Schema))
      → ((x : Response Schema) × (own ≡ some x)
          × (or_default to_lower to_upper unmarshal against_schema own default ≡ some x))
        ⊎ ((own ≡ none)
            × (or_default to_lower to_upper unmarshal against_schema own default ≡ default))
  or_default-Describes (some x) default = inl (x, refl, refl)
  or_default-Describes none default = inr (refl, refl)

  response_of-Describes :
      (status : ℤ) (operation : Option (Operation Schema)) (response : Option (Response Schema))
      → response_of to_lower to_upper unmarshal against_schema status operation ≡ ok response
      → Describes status operation response
  response_of-Describes status none response h = sym (ok-injective h)
  response_of-Describes status (some operation) response h =
      let (r, e, h₁) = >>=-eq-ok (or_panic operation.responses) _ h in
      (
        r,
        or_panic-eq-ok operation.responses e,
        subst
            (λ x.
              ((own : Response Schema) × (lookup status r.status_code_responses ≡ some own)
                × (x ≡ some own))
              ⊎ ((lookup status r.status_code_responses ≡ none) × (x ≡ r.default)))
            (ok-injective h₁)
            (or_default-Describes (lookup status r.status_code_responses) r.default),
      )

  validity-Tells : (v : Validity) → Tells v (validity_errors v)
  validity-Tells valid = refl
  validity-Tells (composite_error messages) = refl
  validity-Tells (single_error message) = refl

  errors-Reports :
      (actual : Value) (response : Option (Response Schema))
      → Reports actual response
          (response_errors to_lower to_upper unmarshal against_schema actual response)
  errors-Reports actual none = refl
  errors-Reports actual (some response) = validity-Tells (against_schema response.schema actual)

  -- A check that ends has read the response as JSON and leaves the result as it is. It takes the first path of the
  -- document that is that of the test up to case and has an operation for its method. It reports what the validation
  -- by the schema of the described response for the status reports, or for the default one; and nothing where
  -- no path takes the test or there is neither.
  pub check-Found :
      (swagger : Swagger Schema) (t : Test) (result after : Result) (errs : List ResultError)
      → check to_lower to_upper unmarshal against_schema swagger t result ≡ ok (errs, after)
      → (after ≡ result)
        × (actual : Value) × (unmarshal result.response_body ≡ some actual)
        × (paths : Dict Text (PathItem Schema)) × (swagger.paths ≡ some paths)
        × (found : Option (Operation Schema)) × Found swagger.base_path
            (path t)
            (get_method t)
            paths
            found
        × (response : Option (Response Schema)) × Describes result.response_status_code found
            response
        × Reports actual response errs
  unfolding check validate_response_against_swagger find_response
  check-Found swagger t result after errs h =
      let (errs', h₁, h₂) = >>=-eq-ok _ (λ errs'. ok (errs', result)) h in
      let (actual, h₃, h₄) =
        >>=-eq-ok (or_fail response_is_not_json (unmarshal result.response_body)) _ h₁ in
      let (response, h₅, h₆) =
        >>=-eq-ok
          (find_response to_lower to_upper unmarshal against_schema swagger (path t) (get_method t)
            result.response_status_code)
          _ h₄ in
      let (paths, h₇, h₈) = >>=-eq-ok (or_panic swagger.paths) _ h₅ in
      let same = ok-injective h₂ in
      (
        sym (ap (λ x. x.1) same),
        actual,
        or_fail-eq-ok _ _ h₃,
        paths,
        or_panic-eq-ok swagger.paths h₇,
        find_operation to_lower to_upper unmarshal against_schema swagger.base_path (path t)
            (get_method t) paths,
        find_operation-Found swagger.base_path (path t) (get_method t) paths,
        response,
        response_of-Describes result.response_status_code _ response h₈,
        subst (Reports actual response) (ok-injective h₆ ∙ ap (λ x. x.0) same)
            (errors-Reports actual response),
      )
