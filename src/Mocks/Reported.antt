-- ===== src/Mocks/Reported.antt =====
-- mocks/service_mock.go: the errors that a service reports at the end of a test.
use gonkey.Base.{
  ℤ, pos, ◌≡◌, refl, sym, ap, ap₂, ◌∙◌, Bool, Option, none, some, List, [], ◌∷◌, ◌++◌, append-nil,
  append_assoc, Bool-cases, inl, inr, some-injective,
}
use gonkey.Base.Text.{Text}
use gonkey.Value.{Value, Runtime}
use gonkey.Mocks.Constraint.{ServerRequest}
use gonkey.Mocks.Definition.{
  Definition, Reply, Variants, definition, no_reply, nop_reply, constant_reply, uri_vary_reply,
  method_vary_reply, no_variants, variant, MockError, Written, Test, is_uri, is_method, Handled,
  verify_all, execute, handle_request, try_variants, reset, reset_reply, reset_variants,
  end_context,
}
use gonkey.Mocks.Calls.{serve_all, expected_errors, end_context-expected_errors}
use gonkey.Mocks.Resets.{reset-left, reset-reset, reset-serve_all}
use gonkey.Mocks.Service.{
  ServiceMock, service_with, serve_http, set_definition, reset_definition, reset_service,
  end_service, wrapped,
}

abbrev pub answer : {S : Type 0} → Handled S → List MockError × List Written
answer h = (h.errors, h.written)

module _ (rt : Runtime) (unmarshal : Text → Option Value) (equal_fold : Text → Text → Bool) where
  mutual
    unfolding execute reset

    execute-reset :
        (r : ServerRequest) (d : Definition)
        → answer (execute rt unmarshal equal_fold r (reset d))
          ≡ answer (execute rt unmarshal equal_fold r d)
    execute-reset r (definition path cs reply n expected) =
        ap (λ x. (verify_all rt unmarshal equal_fold cs r ++ x.0, x.1))
          (handle_request-reset r reply)

    handle_request-reset :
        (r : ServerRequest) (reply : Reply)
        → answer (handle_request rt unmarshal equal_fold r (reset_reply reply))
          ≡ answer (handle_request rt unmarshal equal_fold r reply)
    handle_request-reset r no_reply = refl
    handle_request-reset r nop_reply = refl
    handle_request-reset r (constant_reply body code hs) = refl
    handle_request-reset r (uri_vary_reply base vs) =
        try_variants-reset (pos 404) (is_uri base) r vs
    handle_request-reset r (method_vary_reply vs) =
        try_variants-reset (pos 405) (is_method rt unmarshal equal_fold) r vs

    try_variants-reset :
        (status : ℤ) (test : Test) (r : ServerRequest) (vs : Variants)
        → answer (try_variants rt unmarshal equal_fold status test r (reset_variants vs))
          ≡ answer (try_variants rt unmarshal equal_fold status test r vs)
    try_variants-reset status test r no_variants = refl
    try_variants-reset status test r (variant key def rest) = elim (Bool-cases (test key r)) [
      | inl t ↦ rw t (execute-reset r def)
      | inr f ↦ rw f (try_variants-reset status test r rest)
    ]

  -- What a definition reports of a request and answers to it does not depend on the requests before it.
  pub execute-serve_all :
      (r : ServerRequest) (rs : List ServerRequest) (d : Definition)
      → answer (execute rt unmarshal equal_fold r (serve_all rt unmarshal equal_fold rs d))
        ≡ answer (execute rt unmarshal equal_fold r d)
  execute-serve_all r rs d =
      sym (execute-reset r (serve_all rt unmarshal equal_fold rs d))
      ∙ ap (λ x. answer (execute rt unmarshal equal_fold r x))
          (reset-serve_all rt unmarshal equal_fold rs d)
      ∙ execute-reset r d

  unfoldable pub serve_requests : List ServerRequest → ServiceMock → ServiceMock
  serve_requests [] m = m
  serve_requests (r ∷ rs) m = serve_requests rs (serve_http rt unmarshal equal_fold r m).left

  -- The errors that the requests leave, each definition as the requests before have changed it.
  abbrev reported : Text → Definition → List ServerRequest → List MockError
  reported name d [] = []
  reported name d (r ∷ rs) =
      wrapped name (execute rt unmarshal equal_fold r d).errors
      ++ reported name (execute rt unmarshal equal_fold r d).left rs

  -- The errors of each request by itself.
  abbrev pub request_errors : Text → Definition → List ServerRequest → List MockError
  request_errors name d [] = []
  request_errors name d (r ∷ rs) =
      wrapped name (execute rt unmarshal equal_fold r d).errors ++ request_errors name d rs

  reported-same :
      (name : Text) (rs : List ServerRequest) (d e : Definition)
      → reset d ≡ reset e
      → reported name d rs ≡ request_errors name e rs
  reported-same name [] d e h = refl
  reported-same name (r ∷ rs) d e h =
      ap₂ (λ xs ys. wrapped name xs ++ ys)
        (ap (λ x. x.0)
          (sym (execute-reset r d)
            ∙ ap (λ x. answer (execute rt unmarshal equal_fold r x)) h
            ∙ execute-reset r e))
        (reported-same name rs _ e (reset-left rt unmarshal equal_fold r d ∙ h))

  end-set :
      (rs : List ServerRequest) (name : Text) (default : Option Definition) (d : Definition)
      (errs : List MockError) (addr : Option Text)
      → end_service (serve_requests rs (service_with name default (some d) errs addr))
        ≡ some (
            wrapped name (
              (errs ++ reported name d rs) ++ end_context (serve_all rt unmarshal equal_fold rs d)))
  unfolding end_service serve_requests serve_http serve_all
  end-set [] name default d errs addr =
      ap (λ x. some (wrapped name (x ++ end_context d))) (sym (append-nil errs))
  end-set (r ∷ rs) name default d errs addr =
      end-set rs name default _ _ addr
      ∙ ap
          (λ x.
            some (wrapped name (x ++ end_context (serve_all rt unmarshal equal_fold (r ∷ rs) d))))
          (append_assoc errs _ _)

  end-default :
      (rs : List ServerRequest) (name : Text) (d : Definition) (errs : List MockError)
      (addr : Option Text)
      → end_service (serve_requests rs (service_with name (some d) none errs addr))
        ≡ some (
            wrapped name (
              (errs ++ reported name d rs) ++ end_context (serve_all rt unmarshal equal_fold rs d)))
  unfolding end_service serve_requests serve_http serve_all
  end-default [] name d errs addr =
      ap (λ x. some (wrapped name (x ++ end_context d))) (sym (append-nil errs))
  end-default (r ∷ rs) name d errs addr =
      end-default rs name _ _ addr
      ∙ ap
          (λ x.
            some (wrapped name (x ++ end_context (serve_all rt unmarshal equal_fold (r ∷ rs) d))))
          (append_assoc errs _ _)

  -- After the reset both kinds of definition report alike.
  total-errors :
      (rs : List ServerRequest) (name : Text) (d : Definition)
      → wrapped name (
          reported name (reset d) rs
          ++ end_context (serve_all rt unmarshal equal_fold rs (reset d)))
        ≡ wrapped name (request_errors name d rs ++ expected_errors rt unmarshal equal_fold d rs)
  total-errors rs name d =
      ap₂ (λ xs ys. wrapped name (xs ++ ys)) (reported-same name rs (reset d) d (reset-reset d))
        (end_context-expected_errors rt unmarshal equal_fold d rs)

  -- A test as a service sees it: the resets, the definition of the test if it has one, the requests, and the
  -- errors at the end.
  abbrev pub given_to : Option Definition → ServiceMock → ServiceMock
  given_to none m = m
  given_to (some def) m = set_definition def m

  abbrev pub after_reset :
      Option Definition → List ServerRequest → Option ServiceMock → Option (List MockError)
  after_reset given rs none = none
  after_reset given rs (some m) = end_service (serve_requests rs (given_to given m))

  abbrev pub session :
      Option Definition → List ServerRequest → ServiceMock → Option (List MockError)
  session given rs m = after_reset given rs (reset_service (reset_definition m))

  abbrev pub IsFresh : Option Definition → Type 0
  IsFresh none = Unit
  IsFresh (some def) = reset def ≡ def

  abbrev pub chosen : Option Definition → Definition → Definition
  chosen none default = default
  chosen (some def) default = def

  session_fields :
      (given : Option Definition) (rs : List ServerRequest) (name : Text)
      (default old : Option Definition) (errs : List MockError) (addr : Option Text)
      (d : Definition)
      → IsFresh given
      → default ≡ some d
      → session given rs (service_with name default old errs addr)
        ≡ some (
            wrapped name (
              request_errors name (chosen given d) rs
              ++ expected_errors rt unmarshal equal_fold (chosen given d) rs))
  unfolding reset_service reset_definition set_definition
  session_fields given rs name none old errs addr d fresh h = cc
  session_fields none rs name (some e) old errs addr d fresh h =
      end-default rs name (reset e) [] addr
      ∙ ap some (total-errors rs name e)
      ∙ ap
          (λ x. some (
            wrapped name
              (request_errors name x rs ++ expected_errors rt unmarshal equal_fold x rs)))
          (some-injective h)
  session_fields (some g) rs name (some e) old errs addr d fresh h =
      end-set rs name (some (reset e)) g [] addr
      ∙ ap
          (λ x. some (
            wrapped name
              (reported name x rs ++ end_context (serve_all rt unmarshal equal_fold rs x))))
          (sym fresh)
      ∙ ap some (total-errors rs name g)

  pub session-errors :
      (given : Option Definition) (rs : List ServerRequest) (m : ServiceMock) (d : Definition)
      → IsFresh given
      → m.default_definition ≡ some d
      → session given rs m
        ≡ some (
            wrapped m.service_name (
              request_errors m.service_name (chosen given d) rs
              ++ expected_errors rt unmarshal equal_fold (chosen given d) rs))
  session-errors given rs m d fresh h =
      session_fields given rs m.service_name m.default_definition m.set m.errors m.address d fresh h
