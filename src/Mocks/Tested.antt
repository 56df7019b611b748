-- ===== src/Mocks/Tested.antt =====
-- mocks/ as the runner uses it in a test: the resets, the definitions of the test, the requests to all services, and
-- the errors at the end.
use gonkey.Base.{
  ◌≡◌, refl, sym, ap, ◌∙◌, Bool, Option, none, some, List, [], ◌∷◌, if◌then◌else◌, ◌==◌, Bool-cases,
  inl, inr,
}
use gonkey.Base.Text.{Text, text_eq, text_beq}
use gonkey.Value.{Value, Runtime}
use gonkey.Mocks.Constraint.{ServerRequest}
use gonkey.Mocks.Definition.{Definition, MockError}
use gonkey.Mocks.Service.{
  ServiceMock, Mocks, serve_at, set_at, set_definition, cons_some, append_some, end_service,
  end_running_context,
}
use gonkey.Mocks.Isolation.{fresh}
use gonkey.Mocks.Reported.{serve_requests, after_reset, given_to}

-- What is meant for a service, and for the services after it.
abbrev pub for_service {ℓ} : {A : Type ℓ} → Text → List (Text × A) → List A
for_service name [] = []
for_service name ((service, a) ∷ rest) =
    if name == service then a ∷ for_service name rest else for_service name rest

abbrev pub for_others {ℓ} : {A : Type ℓ} → Text → List (Text × A) → List (Text × A)
for_others name [] = []
for_others name ((service, a) ∷ rest) =
    if name == service then for_others name rest else (service, a) ∷ for_others name rest

abbrev pub latest : Definition → Option Definition → Option Definition
latest d none = some d
latest d (some e) = some e

abbrev pub last_of : List Definition → Option Definition
last_of [] = none
last_of (d ∷ ds) = latest d (last_of ds)

unfoldable pub set_each : List (Text × Definition) → Mocks → Mocks
set_each [] mocks = mocks
set_each ((service, def) ∷ sets) mocks = set_each sets (set_at service def mocks)

abbrev set_all : List Definition → ServiceMock → ServiceMock
set_all [] m = m
set_all (d ∷ ds) m = set_all ds (set_definition d m)

pub set_each-nil : (sets : List (Text × Definition)) → set_each sets [] ≡ []
unfolding set_each set_at
set_each-nil [] = refl
set_each-nil (s ∷ sets) = set_each-nil sets

set_each-cons :
    (sets : List (Text × Definition)) (name : Text) (m : ServiceMock) (mocks : Mocks)
    → set_each sets ((name, m) ∷ mocks)
      ≡ (name, set_all (for_service name sets) m) ∷ set_each (for_others name sets) mocks
unfolding set_each set_at
set_each-cons [] name m mocks = refl
set_each-cons ((service, def) ∷ sets) name m mocks = elim (Bool-cases (text_beq name service)) [
  | inl t ↦ rw t (set_each-cons sets name (set_definition def m) mocks)
  | inr f ↦ rw f (set_each-cons sets name m (set_at service def mocks))
]

module _ (rt : Runtime) (unmarshal : Text → Option Value) (equal_fold : Text → Text → Bool) where
  unfoldable pub serve_each : List (Text × ServerRequest) → Mocks → Mocks
  serve_each [] mocks = mocks
  serve_each ((service, r) ∷ requests) mocks =
      serve_each requests (serve_at rt unmarshal equal_fold service r mocks)

  pub serve_each-nil : (requests : List (Text × ServerRequest)) → serve_each requests [] ≡ []
  unfolding serve_each serve_at
  serve_each-nil [] = refl
  serve_each-nil (r ∷ requests) = serve_each-nil requests

  serve_each-cons :
      (requests : List (Text × ServerRequest)) (name : Text) (m : ServiceMock) (mocks : Mocks)
      → serve_each requests ((name, m) ∷ mocks)
        ≡ (name, serve_requests rt unmarshal equal_fold (for_service name requests) m)
          ∷ serve_each (for_others name requests) mocks
  unfolding serve_each serve_at serve_requests
  serve_each-cons [] name m mocks = refl
  serve_each-cons ((service, r) ∷ requests) name m mocks =
      elim (Bool-cases (text_beq name service)) [
        | inl t ↦ rw t (serve_each-cons requests name _ mocks)
        | inr f ↦
            rw f
              (serve_each-cons requests name m (serve_at rt unmarshal equal_fold service r mocks))
      ]

  -- After the resets.
  abbrev pub tested_after :
      List (Text × Definition)
      → List (Text × ServerRequest)
      → Option Mocks
      → Option (List MockError)
  tested_after sets requests none = none
  tested_after sets requests (some mocks) =
      end_running_context (serve_each requests (set_each sets mocks))

  abbrev pub tested :
      List (Text × Definition) → List (Text × ServerRequest) → Mocks → Option (List MockError)
  tested sets requests mocks = tested_after sets requests (fresh mocks)

  given_to-latest :
      (d : Definition) (o : Option Definition) (m : ServiceMock)
      → given_to rt unmarshal equal_fold o (set_definition d m)
        ≡ given_to rt unmarshal equal_fold (latest d o) m
  unfolding set_definition
  given_to-latest d none m = refl
  given_to-latest d (some e) m = refl

  given_to-last :
      (ds : List Definition) (m : ServiceMock)
      → set_all ds m ≡ given_to rt unmarshal equal_fold (last_of ds) m
  given_to-last [] m = refl
  given_to-last (d ∷ ds) m =
      given_to-last ds (set_definition d m) ∙ given_to-latest d (last_of ds) m

  append_some-none : (o : Option (List MockError)) → append_some o none ≡ none
  append_some-none none = refl
  append_some-none (some errs) = refl

  -- Each service has its own part in a test.
  pub tested_after-cons :
      (sets : List (Text × Definition)) (requests : List (Text × ServerRequest)) (name : Text)
      (first : Option ServiceMock) (rest : Option Mocks)
      → tested_after sets requests (cons_some name first rest)
        ≡ append_some
            (after_reset rt unmarshal equal_fold
              (last_of (for_service name sets))
              (for_service name requests)
              first)
            (tested_after (for_others name sets) (for_others name requests) rest)
  unfolding end_running_context
  tested_after-cons sets requests name none none = refl
  tested_after-cons sets requests name none (some mocks) = refl
  tested_after-cons sets requests name (some m) none = sym (append_some-none _)
  tested_after-cons sets requests name (some m) (some mocks) =
      ap (λ x. end_running_context (serve_each requests x)) (set_each-cons sets name m mocks)
      ∙ ap end_running_context (
          serve_each-cons requests name (set_all (for_service name sets) m)
            (set_each (for_others name sets) mocks))
      ∙ ap
          (λ x.
            append_some
              (end_service (serve_requests rt unmarshal equal_fold (for_service name requests) x))
              (end_running_context
                (serve_each (for_others name requests) (set_each (for_others name sets) mocks))))
          (given_to-last (for_service name sets) m)
