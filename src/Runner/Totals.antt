-- ===== src/Runner/Totals.antt =====
-- runner/runner.go: what the summary of a run counts.
use gonkey.Base.{
  ℕ, suc, ◌+◌, ◌≡◌, ◌↔◌, refl, sym, ap, ap₂, ◌∙◌, subst, true, List, [], ◌∷◌, length, arith,
  nat_beq_iff, All,
}
use gonkey.Base.Outcome.{Outcome, ok, fail, panic}
use gonkey.Models.{Test, Result, ResultError, Summary}
use gonkey.Variables.{Variables}
use gonkey.Runner.{
  Call, Env, Run, RunError, continue, execute_test, process_outputs, run_tests, summary,
  count_failed,
}

pub continue-ok :
    {A B : Type 0} (r : Outcome RunError A) (f : A → Run B) (log : List Call) {b : B}
    {end : List Call}
    → continue r f log ≡ (ok b, end)
    → (a : A) × (r ≡ ok a) × (f a log ≡ (ok b, end))
continue-ok (ok a) f log h = (a, refl, h)
continue-ok (fail e) f log h = cc
continue-ok panic f log h = cc

ended :
    {s s' : Summary} {l l' : List Call}
    → ◌≡◌ {A = Outcome RunError Summary × List Call} (ok s, l) (ok s', l')
    → (s ≡ s') × (l ≡ l')
ended h = (cc, cc)

-- The tests run one after the other, each with the variables that the one before left and after the calls
-- that were made so far.
module _ (env : Env) where
  pub data Runs : Variables → List Call → List Test → List Result → List Call → Type 0 where
    finished : (vs : Variables) (log : List Call) → Runs vs log [] [] log
    next :
        {vs : Variables} {log : List Call} {t : Test} {tests : List Test} {results : List Result}
        {end : List Call} (result : Result) (vs' : Variables)
        → (execute_test env vs t log).0 ≡ ok (result, vs')
        → (process_outputs env 0 env.outputs t result (execute_test env vs t log).1).0 ≡ ok tt
        → Runs vs'
            (process_outputs env 0 env.outputs t result (execute_test env vs t log).1).1
            tests
            results
            end
        → Runs vs log (t ∷ tests) (result ∷ results) end

  -- 1 for a test with errors, and 0 for one without.
  abbrev pub one_if_failed : List ResultError → ℕ
  one_if_failed [] = 0
  one_if_failed (e ∷ errs) = 1

  abbrev pub failures : List Result → ℕ
  failures [] = 0
  failures (result ∷ results) = one_if_failed result.errors + failures results

  count_failed-one_if_failed :
      (errs : List ResultError) (n : ℕ) → count_failed env errs n ≡ one_if_failed errs + n
  count_failed-one_if_failed [] n = omega arith
  count_failed-one_if_failed (e ∷ errs) n = omega arith

  tests-Runs :
      (tests : List Test) (vs : Variables) (total failed : ℕ) (log end : List Call) (s : Summary)
      → run_tests env tests vs total failed log ≡ (ok s, end)
      → (results : List Result) × Runs vs log tests results end
        × (s ≡ summary env (total + length tests) (failed + failures results))
  unfolding run_tests
  tests-Runs [] vs total failed log end s h = (
    [],
    subst (Runs vs log [] []) (ended h).1 (finished vs log),
    sym (ended h).0 ∙ ap₂ (summary env) (omega arith) (omega arith),
  )
  tests-Runs (t ∷ tests) vs total failed log end s h =
      let ((result, vs'), done1, h1) = continue-ok (execute_test env vs t log).0 _ _ h in
      let (u, done2, h2) = continue-ok (process_outputs env 0 env.outputs t result _).0 _ _ h1 in
      let (results, runs, e) =
        tests-Runs tests vs' (suc total) (count_failed env result.errors failed) _ end s h2 in
      (
        result ∷ results,
        next result vs' done1 done2 runs,
        e
            ∙ ap₂ (summary env) (omega arith)
                (omega (arith, count_failed-one_if_failed result.errors failed)),
      )

  one_if_failed-zero :
      (errs : List ResultError) (n : ℕ) → (one_if_failed errs + n ≡ 0) ↔ ((errs ≡ []) × (n ≡ 0))
  one_if_failed-zero [] n = (λ h. (refl, omega arith), λ h. omega (arith, h.1))
  one_if_failed-zero (e ∷ errs) n = (λ h. absurd (omega arith), λ h. cc)

  failures-zero :
      (results : List Result) → (failures results ≡ 0) ↔ All (λ r. r.errors ≡ []) results
  failures-zero [] = (λ _. tt, λ _. refl)
  failures-zero (r ∷ results) =
      let (split, both) = one_if_failed-zero r.errors (failures results) in
      let (sound, complete) = failures-zero results in
      (λ h. ((split h).0, sound (split h).1), λ h. both (h.0, complete h.1))

  -- Where a run returns a summary, it has run all of its tests in order, each from the variables and the
  -- calls that the one before left; it counts each test once, as failed once each of those with errors,
  -- and it is a success exactly where no test has errors.
  pub run_tests-Runs :
      (tests : List Test) (vs : Variables) (log end : List Call) (s : Summary)
      → run_tests env tests vs 0 0 log ≡ (ok s, end)
      → (results : List Result) × Runs vs log tests results end
        × (s.total ≡ length tests)
        × (s.failed ≡ failures results)
        × ((s.success ≡ true) ↔ All (λ r. r.errors ≡ []) results)
  run_tests-Runs tests vs log end s h =
      let (results, runs, e) = tests-Runs tests vs 0 0 log end s h in
      let count = failures-zero results in
      let test = nat_beq_iff (0 + failures results) 0 in
      (
        results,
        runs,
        ap (λ r. r.total) e ∙ omega arith,
        ap (λ r. r.failed) e ∙ omega arith,
        (
          λ t. count.0 (omega (arith, test.0 (sym (ap (λ r. r.success) e) ∙ t))),
          λ all. ap (λ r. r.success) e ∙ test.1 (omega (arith, count.1 all)),
        ),
      )
