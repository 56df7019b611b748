-- ===== src/Runner/Plan.antt =====
-- runner/runner.go: the order of the calls of `executeTest`.
use gonkey.Base.{
  ℕ, ℤ, suc, ◌≡◌, refl, sym, ap, subst, ◌∙◌, Bool, true, false, Option, none, some, List, [], ◌∷◌,
  ◌++◌, append_assoc, append-nil, is_positive, if◌then◌else◌,
}
use gonkey.Base.Text.{Text}
use gonkey.Base.Dict.{Dict}
use gonkey.Base.Outcome.{Outcome, ok, fail, panic, or_fail, ok-injective}
use gonkey.Yaml.{Yaml}
use gonkey.Models.{
  Test, Result, ResultError, get_variables, fixtures, service_mocks, before_script_path,
  before_script_timeout, pause,
}
use gonkey.Variables.{Variables, load, apply}
use gonkey.Checker.{Checker}
use gonkey.Runner.Request.{HttpRequest, new_request}
use gonkey.Runner.{
  Call, load_fixtures, reset_definitions, reset_running_context, end_running_context, load_mocks,
  run_script, sleep, send, check_with, Env, Run, RunError, Response, continue, ◌>>=◌, lift, call,
  load_test_fixtures, reset_mocks, load_test_mocks, run_before_script, sleep_if, make_pause,
  end_mocks, run_checkers, exchange, finish, judge, execute_test, result_of, send_failed,
  read_failed, request_failed, set_variables_from_response, done,
}

-- All of the planned calls where the action returns a value, the first of them where it does not.
abbrev pub Progress : {A : Type 0} → Outcome RunError A → List Call → List Call → Type 0
Progress (ok a) new plan = new ≡ plan
Progress (fail e) new plan = (rest : List Call) × (new ++ rest ≡ plan)
Progress panic new plan = (rest : List Call) × (new ++ rest ≡ plan)

pub record Follows {A : Type 0} (m : Run A) (plan : List Call) : Type 0 where
  pub follow :
      (log : List Call) → (new : List Call) × ((m log).1 ≡ log ++ new) × Progress (m log).0 new plan

Progress-shift :
    {A : Type 0} (r : Outcome RunError A) (p1 n2 p2 : List Call)
    → Progress r n2 p2
    → Progress r (p1 ++ n2) (p1 ++ p2)
Progress-shift (ok a) p1 n2 p2 h = ap (λ n. p1 ++ n) h
Progress-shift (fail e) p1 n2 p2 (rest, h) = (rest, append_assoc p1 n2 rest ∙ ap (λ n. p1 ++ n) h)
Progress-shift panic p1 n2 p2 (rest, h) = (rest, append_assoc p1 n2 rest ∙ ap (λ n. p1 ++ n) h)

fail-not-ok : {A : Type 0} {x : RunError} {a : A} → ◌≡◌ {A = Outcome RunError A} (fail x) (ok a) → ⊥
fail-not-ok e = cc

module _ {A B : Type 0} where
  Follows-continue :
      (f : A → Run B) (p1 p2 : List Call)
      → (log n1 : List Call) (r : Outcome RunError A) (l : List Call)
      → ((a : A) → r ≡ ok a → Follows (f a) p2)
      → l ≡ log ++ n1
      → Progress r n1 p1
      → (new : List Call) × ((continue r f l).1 ≡ log ++ new)
        × Progress (continue r f l).0 new (p1 ++ p2)
  Follows-continue f p1 p2 log n1 (ok a) l k e c =
      let (n2, e2, c2) = (k a refl).follow l in
      (
        p1 ++ n2,
        e2 ∙ (ap (λ x. x ++ n2) (e ∙ ap (λ x. log ++ x) c) ∙ append_assoc log p1 n2),
        Progress-shift (f a l).0 p1 n2 p2 c2,
      )
  Follows-continue f p1 p2 log n1 (fail x) l k e (rest, c) =
      (n1, e, (rest ++ p2, sym (append_assoc n1 rest p2) ∙ ap (λ n. n ++ p2) c))
  Follows-continue f p1 p2 log n1 panic l k e (rest, c) =
      (n1, e, (rest ++ p2, sym (append_assoc n1 rest p2) ∙ ap (λ n. n ++ p2) c))

  Follows-bind :
      (m : Run A) (f : A → Run B) (p1 p2 : List Call)
      → Follows m p1
      → ((a : A) → Follows (f a) p2)
      → Follows (m >>= f) (p1 ++ p2)
  Follows-bind m f p1 p2 h k = record {
    follow = λ log.
        let (n1, e, c) = h.follow log in
        Follows-continue f p1 p2 log n1 (m log).0 (m log).1 (λ a _. k a) e c;
  }

  Follows-bind-last :
      (m : Run A) (f : A → Run B) (p : List Call)
      → Follows m p
      → ((a : A) → Follows (f a) [])
      → Follows (m >>= f) p
  Follows-bind-last m f p h k = subst (Follows (m >>= f)) (append-nil p) (Follows-bind m f p [] h k)

  Follows-lift-bind :
      (r : Outcome RunError A) (f : A → Run B) (p : List Call)
      → ((a : A) → r ≡ ok a → Follows (f a) p)
      → Follows (lift r >>= f) p
  Follows-lift-bind (ok a) f p k = record { follow = λ log. (k a refl).follow log }
  Follows-lift-bind (fail e) f p k = record {
    follow = λ log. ([], sym (append-nil log), (p, refl));
  }
  Follows-lift-bind panic f p k = record { follow = λ log. ([], sym (append-nil log), (p, refl)) }

Follows-lift : {A : Type 0} (a : A) → Follows (lift (ok a)) []
Follows-lift a = record { follow = λ log. ([], sym (append-nil log), refl) }

Progress-one : {A : Type 0} (c : Call) (r : Outcome RunError A) → Progress r (c ∷ []) (c ∷ [])
Progress-one c (ok a) = refl
Progress-one c (fail e) = ([], refl)
Progress-one c panic = ([], refl)

Follows-call :
    {A : Type 0} (c : Call) (answer : List Call → Outcome RunError A)
    → Follows (call c answer) (c ∷ [])
Follows-call c answer = record { follow = λ log. (c ∷ [], refl, Progress-one c (answer log)) }

-- The calls of a test, in order.
abbrev fixture_calls : Bool → Option (List Text) → List Call
fixture_calls true (some names) = load_fixtures names ∷ []
fixture_calls _ _ = []

abbrev reset_calls : Bool → List Call
reset_calls true = reset_definitions ∷ reset_running_context ∷ []
reset_calls false = []

abbrev mock_calls : Bool → Option (Dict Text Yaml) → List Call
mock_calls true (some defs) = load_mocks defs ∷ []
mock_calls _ _ = []

abbrev script_calls : Text → ℤ → List Call
script_calls [] timeout = []
script_calls (c ∷ p) timeout = run_script (c ∷ p) timeout ∷ []

abbrev pause_calls : ℤ → List Call
pause_calls n = if is_positive n then sleep n ∷ [] else []

abbrev end_calls : Bool → List Call
end_calls true = end_running_context ∷ []
end_calls false = []

abbrev check_calls : ℕ → List (List Call → Checker) → List Call
check_calls i [] = []
check_calls i (c ∷ checkers) = check_with i ∷ check_calls (suc i) checkers

module _ (env : Env) where
  abbrev exchange_calls : Option HttpRequest → List Call
  exchange_calls none = []
  exchange_calls (some req) =
      (send req ∷ []) ++ (end_calls env.has_mocks ++ check_calls 0 env.checkers)

  abbrev pub planned : Test → List Call
  planned t =
      fixture_calls env.has_fixtures_loader (fixtures t)
      ++ (reset_calls env.has_mocks
          ++ (mock_calls env.has_mocks_loader (service_mocks t)
              ++ (script_calls (before_script_path t) (before_script_timeout t)
                  ++ (pause_calls (pause t) ++ exchange_calls (new_request env.http env.host t)))))

  fixtures-follow :
      (b : Bool) (o : Option (List Text)) → Follows (load_test_fixtures env b o) (fixture_calls b o)
  unfolding load_test_fixtures
  fixtures-follow true (some names) = Follows-call _ _
  fixtures-follow true none = Follows-lift tt
  fixtures-follow false o = Follows-lift tt

  reset-Follows : (b : Bool) → Follows (reset_mocks env b) (reset_calls b)
  unfolding reset_mocks
  reset-Follows true =
      Follows-bind (call reset_definitions (λ _. done))
        (λ _. call reset_running_context (λ _. done)) (reset_definitions ∷ [])
        (reset_running_context ∷ []) (Follows-call _ _) (λ _. Follows-call _ _)
  reset-Follows false = Follows-lift tt

  mocks-follow :
      (b : Bool) (o : Option (Dict Text Yaml)) → Follows (load_test_mocks env b o) (mock_calls b o)
  unfolding load_test_mocks
  mocks-follow true (some defs) = Follows-call _ _
  mocks-follow true none = Follows-lift tt
  mocks-follow false o = Follows-lift tt

  script-Follows : (p : Text) (n : ℤ) → Follows (run_before_script env p n) (script_calls p n)
  unfolding run_before_script
  script-Follows [] n = Follows-lift tt
  script-Follows (c ∷ p) n = Follows-call _ _

  sleep-Follows : (b : Bool) (n : ℤ) → Follows (sleep_if env b n) (if b then sleep n ∷ [] else [])
  unfolding sleep_if
  sleep-Follows true n = Follows-call _ _
  sleep-Follows false n = Follows-lift tt

  pause-Follows : (n : ℤ) → Follows (make_pause env n) (pause_calls n)
  unfolding make_pause
  pause-Follows n = sleep-Follows (is_positive n) n

  end-Follows : (b : Bool) → Follows (end_mocks env b) (end_calls b)
  unfolding end_mocks
  end-Follows true = Follows-call _ _
  end-Follows false = Follows-lift []

  checkers-follow :
      (i : ℕ) (checkers : List (List Call → Checker)) (t : Test) (result : Result)
      → Follows (run_checkers env i checkers t result) (check_calls i checkers)
  unfolding run_checkers
  checkers-follow i [] t result = Follows-lift result
  checkers-follow i (c ∷ checkers) t result =
      Follows-bind _ _ (check_with i ∷ []) (check_calls (suc i) checkers) (Follows-call _ _)
        (λ out. checkers-follow (suc i) checkers t _)

  finish-Follows :
      (vs : Variables) (t : Test) (resp : Response) (body : Text) (result : Result)
      → Follows (finish env vs t resp body result) []
  finish-Follows vs t resp body result =
      Follows-lift-bind
        (set_variables_from_response env t result.response_content_type body resp.status_code vs)
        (λ vars. lift (ok (result, vars))) [] λ vars _. Follows-lift (result, vars)

  judge-Follows :
      (vs : Variables) (t : Test) (req : HttpRequest) (resp : Response) (body : Text)
      → Follows
          (judge env vs t req resp body)
          (end_calls env.has_mocks ++ check_calls 0 env.checkers)
  judge-Follows vs t req resp body =
      let checked = λ (errs : List ResultError).
        run_checkers env 0 env.checkers t (result_of env t req resp body errs) in
      Follows-bind (end_mocks env env.has_mocks)
        (λ errs. checked errs >>= finish env vs t resp body) (end_calls env.has_mocks)
        (check_calls 0 env.checkers) (end-Follows env.has_mocks)
        λ errs.
          Follows-bind-last (checked errs) (finish env vs t resp body) (check_calls 0 env.checkers)
            (checkers-follow 0 env.checkers t _) (finish-Follows vs t resp body)

  exchange-Follows :
      (vs : Variables) (t : Test) (req : HttpRequest)
      → Follows (exchange env vs t req) (exchange_calls (some req))
  unfolding exchange
  exchange-Follows vs t req =
      Follows-bind (call (send req) λ log. or_fail send_failed (env.respond log req))
        (λ resp. lift (or_fail read_failed resp.body) >>= judge env vs t req resp) (send req ∷ [])
        (end_calls env.has_mocks ++ check_calls 0 env.checkers) (Follows-call (send req) _)
        λ resp.
          Follows-lift-bind (or_fail read_failed resp.body) (judge env vs t req resp) _
            λ body _. judge-Follows vs t req resp body

  request-Follows :
      (vs : Variables) (t : Test) (o : Option HttpRequest)
      → Follows (lift (or_fail request_failed o) >>= exchange env vs t) (exchange_calls o)
  request-Follows vs t none =
      Follows-lift-bind (fail request_failed) (exchange env vs t) [] λ req e. absurd (fail-not-ok e)
  request-Follows vs t (some req) =
      Follows-lift-bind (ok req) (exchange env vs t) (exchange_calls (some req)) λ a e.
        subst (λ r. Follows (exchange env vs t r) (exchange_calls (some req))) (ok-injective e)
          (exchange-Follows vs t req)

  -- A test makes the planned calls in the planned order: all of them where it returns a result, and the
  -- first of them where it fails.
  pub execute_test-Follows :
      (vs : Variables) (t : Test)
      → Follows
          (execute_test env vs t)
          (planned (apply env.getenv (some (load (get_variables t) vs)) t))
  unfolding execute_test
  execute_test-Follows vs t =
      let loaded = load (get_variables t) vs in
      let t' = apply env.getenv (some loaded) t in
      Follows-bind _ _ _ _ (fixtures-follow env.has_fixtures_loader (fixtures t')) λ _.
        Follows-bind _ _ _ _ (reset-Follows env.has_mocks) λ _.
          Follows-bind _ _ _ _ (mocks-follow env.has_mocks_loader (service_mocks t')) λ _.
            Follows-bind _ _ _ _ (script-Follows (before_script_path t') (before_script_timeout t'))
              λ _.
                Follows-bind _ _ _ _ (pause-Follows (pause t'))
                  λ _. request-Follows loaded t' (new_request env.http env.host t')
