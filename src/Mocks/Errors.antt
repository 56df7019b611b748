-- ===== src/Mocks/Errors.antt =====
-- mocks/ in a test of the runner: the errors of all services.
use gonkey.Base.{
  ◌≡◌, refl, sym, ap, ap₂, ◌∙◌, Bool, Option, none, some, List, [], ◌∷◌, ◌++◌, Bool-cases, inl, inr,
  All,
}
use gonkey.Base.Text.{Text, codes, text_eq, text_beq}
use gonkey.Base.Dict.{Dict}
use gonkey.Base.Outcome.{ok}
use gonkey.Value.{Value, Runtime}
use gonkey.Yaml.{Yaml}
use gonkey.Mocks.Constraint.{ServerRequest}
use gonkey.Mocks.Definition.{Definition, MockError, reset}
use gonkey.Mocks.Calls.{expected_errors}
use gonkey.Mocks.Service.{ServiceMock, Mocks, wrapped, set_at, append_some, end_running_context}
use gonkey.Mocks.Isolation.{fresh, fresh_service, fresh-cons, Reach, Reach-fresh}
use gonkey.Mocks.Reported.{session, IsFresh, chosen, request_errors, session-errors}
use gonkey.Mocks.Load.Definitions.{load_definition}
use gonkey.Mocks.Load.Services.{load}
use gonkey.Mocks.Load.Fresh.{load_definition-fresh}
use gonkey.Mocks.Load.Effect.{with_service-ok}
use gonkey.Mocks.Service.{reset_running_context, reset_definitions}
use gonkey.Mocks.Tested.{
  for_service, for_others, latest, last_of, set_each, set_each-nil, serve_each, serve_each-nil,
  tested_after, tested, tested_after-cons,
}

module _ (rt : Runtime) (unmarshal : Text → Option Value) (equal_fold : Text → Text → Bool) where
  abbrev pub HasDefault : Text × ServiceMock → Type 0
  HasDefault named = (d : Definition) × (named.1.default_definition ≡ some d)

  abbrev FreshSet : Text × Definition → Type 0
  FreshSet set = reset set.1 ≡ set.1

  -- What a service must report of the requests that were sent to it.
  abbrev service_errors :
      Text → Option Definition → List ServerRequest → Option Definition → List MockError
  service_errors name given requests none = []
  service_errors name given requests (some d) = wrapped name (
      request_errors rt unmarshal equal_fold name (chosen rt unmarshal equal_fold given d) requests
      ++ expected_errors rt unmarshal equal_fold (chosen rt unmarshal equal_fold given d) requests)

  abbrev pub expected_of_all :
      List (Text × Definition) → List (Text × ServerRequest) → Mocks → List MockError
  expected_of_all sets requests [] = []
  expected_of_all sets requests ((name, m) ∷ mocks) =
      service_errors m.service_name (last_of (for_service name sets)) (for_service name requests)
        m.default_definition
      ++ expected_of_all (for_others name sets) (for_others name requests) mocks

  latest-IsFresh :
      (d : Definition) (o : Option Definition)
      → reset d ≡ d
      → IsFresh rt unmarshal equal_fold o
      → IsFresh rt unmarshal equal_fold (latest d o)
  latest-IsFresh d none h i = h
  latest-IsFresh d (some e) h i = i

  last_of-IsFresh :
      (name : Text) (sets : List (Text × Definition))
      → All FreshSet sets
      → IsFresh rt unmarshal equal_fold (last_of (for_service name sets))
  last_of-IsFresh name [] h = tt
  last_of-IsFresh name ((service, d) ∷ sets) h = elim (Bool-cases (text_beq name service)) [
    | inl t ↦
        rw t
          (latest-IsFresh d (last_of (for_service name sets)) h.0 (last_of-IsFresh name sets h.1))
    | inr f ↦ rw f (last_of-IsFresh name sets h.1)
  ]

  for_others-FreshSet :
      (name : Text) (sets : List (Text × Definition))
      → All FreshSet sets
      → All FreshSet (for_others name sets)
  for_others-FreshSet name [] h = tt
  for_others-FreshSet name ((service, d) ∷ sets) h = elim (Bool-cases (text_beq name service)) [
    | inl t ↦ rw t (for_others-FreshSet name sets h.1)
    | inr f ↦ rw f (h.0, for_others-FreshSet name sets h.1)
  ]

  session-service_errors :
      (given : Option Definition) (requests : List ServerRequest) (named : Text × ServiceMock)
      → IsFresh rt unmarshal equal_fold given
      → HasDefault named
      → session rt unmarshal equal_fold given requests named.1
        ≡ some (service_errors named.1.service_name given requests named.1.default_definition)
  session-service_errors given requests named fresh_set (d, h) =
      session-errors rt unmarshal equal_fold given requests named.1 d fresh_set h
      ∙ ap (λ x. some (service_errors named.1.service_name given requests x)) (sym h)

  tested-expected :
      (sets : List (Text × Definition)) (requests : List (Text × ServerRequest)) (mocks : Mocks)
      → All FreshSet sets
      → All HasDefault mocks
      → tested rt unmarshal equal_fold sets requests mocks
        ≡ some (expected_of_all sets requests mocks)
  unfolding reset_running_context reset_definitions end_running_context
  tested-expected sets requests [] f h =
      ap (λ x. end_running_context (serve_each rt unmarshal equal_fold requests x))
        (set_each-nil sets)
      ∙ ap end_running_context (serve_each-nil rt unmarshal equal_fold requests)
  tested-expected sets requests ((name, m) ∷ mocks) f h =
      ap (tested_after rt unmarshal equal_fold sets requests)
        (fresh-cons rt unmarshal equal_fold name m mocks)
      ∙ tested_after-cons rt unmarshal equal_fold sets requests name (fresh_service m) (fresh mocks)
      ∙ ap₂ append_some
          (session-service_errors (last_of (for_service name sets)) (for_service name requests)
            (name, m) (last_of-IsFresh name sets f) h.0)
          (tested-expected (for_others name sets) (for_others name requests) mocks
            (for_others-FreshSet name sets f) h.1)

  module _ (parse_query : Text → Option (Dict Text (List Text)))
      (read_file : Text → Option Text) where
    -- The definitions that the documents of a test case describe.
    abbrev pub LoadsAs : Dict Text Yaml → List (Text × Definition) → Type 0
    LoadsAs [] [] = Unit
    LoadsAs ((name, raw) ∷ documents) ((service, d) ∷ sets) =
        (name ≡ service)
        × (load_definition rt unmarshal parse_query read_file (codes "$") raw ≡ ok d)
        × LoadsAs documents sets
    LoadsAs _ _ = ⊥

    load-LoadsAs :
        (documents : Dict Text Yaml) (mocks mocks' : Mocks)
        → load rt unmarshal parse_query read_file documents mocks ≡ (mocks', ok tt)
        → (sets : List (Text × Definition)) × LoadsAs documents sets
          × All FreshSet sets
          × (mocks' ≡ set_each sets mocks)
    unfolding load set_each
    load-LoadsAs [] mocks mocks' h = ([], tt, tt, sym (ap (λ x. x.0) h))
    load-LoadsAs ((name, raw) ∷ documents) mocks mocks' h =
        let (d, h₁, h₂) =
          with_service-ok name _
            (load_definition rt unmarshal parse_query read_file (codes "$") raw) _ mocks mocks' h in
        let (sets, loads, f, e) = load-LoadsAs documents (set_at name d mocks) mocks' h₂ in
        (
          (name, d) ∷ sets,
          (refl, h₁, loads),
          (load_definition-fresh rt unmarshal parse_query read_file (codes "$") raw d h₁, f),
          e,
        )

    -- Whatever happened to the mocks before a test: where the resets of the test do not panic and its definitions load,
    -- each service reports at the end the errors of the requests that the test sent to it and of their counts, by the
    -- definition that the test gives it and else by its default one, and it reports nothing else.
    pub test-expected_of_all :
        (documents : Dict Text Yaml) (requests : List (Text × ServerRequest))
        (initial mocks ready loaded : Mocks)
        → Reach rt unmarshal equal_fold initial mocks
        → All HasDefault initial
        → fresh mocks ≡ some ready
        → load rt unmarshal parse_query read_file documents ready ≡ (loaded, ok tt)
        → (sets : List (Text × Definition)) × LoadsAs documents sets
          × (end_running_context (serve_each rt unmarshal equal_fold requests loaded)
              ≡ some (expected_of_all sets requests initial))
    test-expected_of_all documents requests initial mocks ready loaded reach h r l =
        let (sets, loads, f, e) = load-LoadsAs documents ready loaded l in
        (
          sets,
          loads,
          ap (λ x. end_running_context (serve_each rt unmarshal equal_fold requests x)) e
              ∙ ap (tested_after rt unmarshal equal_fold sets requests)
                  (sym r ∙ Reach-fresh rt unmarshal equal_fold initial mocks reach)
              ∙ tested-expected sets requests initial f h,
        )
