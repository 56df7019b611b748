-- ===== src/Output/Console/Dots.antt =====
-- output/: the dots and the reports of a whole run.
use gonkey.Base.{
  ℕ, suc, ◌+◌, ◌/◌, ◌%◌, ◌≡◌, refl, ap, ◌∙◌, true, false, Option, none, some, List, [], ◌∷◌, ◌++◌,
  if◌then◌else◌, arith, nat_beq, Bool-cases, inl, inr,
}
use gonkey.Base.Text.{Text}
use gonkey.Models.{Test, Result}
use gonkey.Output.Console.{
  Shown, report, dot, newline, Console, passed, process, process_testing, new_output,
}

-- The tests that failed, and how many passed.
abbrev pub failing : List (Test × Result) → List (Test × Result)
failing [] = []
failing ((t, result) ∷ tests) = if passed result then failing tests else (t, result) ∷ failing tests

abbrev pub passes : List (Test × Result) → ℕ
passes [] = 0
passes ((t, result) ∷ tests) = if passed result then suc (passes tests) else passes tests

abbrev pub dots_in : List Shown → ℕ
dots_in [] = 0
dots_in (dot ∷ shown) = suc (dots_in shown)
dots_in (_ ∷ shown) = dots_in shown

abbrev pub newlines_in : List Shown → ℕ
newlines_in [] = 0
newlines_in (newline ∷ shown) = suc (newlines_in shown)
newlines_in (_ ∷ shown) = newlines_in shown

abbrev pub reports_in : List Shown → List Text
reports_in [] = []
reports_in (report text ∷ shown) = text ∷ reports_in shown
reports_in (_ ∷ shown) = reports_in shown

module _ (render : Result → Text) where
  abbrev always : Result → Option Text
  always result = some (render result)

  abbrev pub rendered : List (Test × Result) → List Text
  rendered [] = []
  rendered ((t, result) ∷ tests) = render result ∷ rendered tests

  abbrev joined : List Shown → Option (Console × List Shown) → Option (Console × List Shown)
  joined before none = none
  joined before (some (o, shown)) = some (o, before ++ shown)

  abbrev then_process :
      Option (Console × List Shown)
      → (Console → Option (Console × List Shown))
      → Option (Console × List Shown)
  then_process none next = none
  then_process (some (o, shown)) next = joined shown (next o)

  unfoldable pub process_all : List (Test × Result) → Console → Option (Console × List Shown)
  unfolding process
  process_all [] o = some (o, [])
  process_all ((t, result) ∷ tests) o = then_process (process always t result o) (process_all tests)

  -- The invariant: from `n` dots on.
  record Shows (tests : List (Test × Result)) (n : ℕ) (out : Option (Console × List Shown))
      : Type 0 where
    shown : List Shown
    ends : out ≡ some (record { verbose = false; dots = n + passes tests }, shown)
    dotted : dots_in shown ≡ passes tests
    broken : newlines_in shown + n / 80 ≡ (n + passes tests) / 80
    reported : reports_in shown ≡ rendered (failing tests)

  one_more : (n p : ℕ) → suc n + p ≡ n + suc p
  one_more n p = omega arith

  full_line :
      (n p k : ℕ)
      → nat_beq (suc n % 80) 0 ≡ true
      → k + suc n / 80 ≡ (suc n + p) / 80
      → suc k + n / 80 ≡ (n + suc p) / 80
  full_line n p k h e = ground (arith, h, e)

  same_line :
      (n p k : ℕ)
      → nat_beq (suc n % 80) 0 ≡ false
      → k + suc n / 80 ≡ (suc n + p) / 80
      → k + n / 80 ≡ (n + suc p) / 80
  same_line n p k h e = ground (arith, h, e)

  abbrev quiet : ℕ → Console
  quiet n = record { verbose = false; dots = n }

  plus_zero : (n : ℕ) → n ≡ n + 0
  plus_zero n = omega arith

  broken_none : (n : ℕ) → 0 + n / 80 ≡ (n + 0) / 80
  broken_none n = omega arith

  passing :
      (t : Test) (result : Result) (tests : List (Test × Result)) (n : ℕ)
      → passed result ≡ true
      → Shows tests (suc n) (process_all tests (quiet (suc n)))
      → Shows ((t, result) ∷ tests) n (process_all ((t, result) ∷ tests) (quiet n))
  unfolding process_all process
  passing t result tests n h rest = elim (Bool-cases (nat_beq (suc n % 80) 0)) [
    | inl full ↦ record {
      shown = dot ∷ newline ∷ rest.shown;
      ends =
          rw (h, full, rest.ends)
            (ap (λ d. some (quiet d, dot ∷ newline ∷ rest.shown)) (one_more n (passes tests)));
      dotted = rw h (ap suc rest.dotted);
      broken = rw h (full_line n (passes tests) (newlines_in rest.shown) full rest.broken);
      reported = rw h rest.reported;
    }
    | inr more ↦ record {
      shown = dot ∷ rest.shown;
      ends =
          rw (h, more, rest.ends)
            (ap (λ d. some (quiet d, dot ∷ rest.shown)) (one_more n (passes tests)));
      dotted = rw h (ap suc rest.dotted);
      broken = rw h (same_line n (passes tests) (newlines_in rest.shown) more rest.broken);
      reported = rw h rest.reported;
    }
  ]

  failing_test :
      (t : Test) (result : Result) (tests : List (Test × Result)) (n : ℕ)
      → passed result ≡ false
      → Shows tests n (process_all tests (quiet n))
      → Shows ((t, result) ∷ tests) n (process_all ((t, result) ∷ tests) (quiet n))
  unfolding process_all process
  failing_test t result tests n h rest = record {
    shown = report (render result) ∷ rest.shown;
    ends = rw (h, rest.ends) refl;
    dotted = rw h rest.dotted;
    broken = rw h rest.broken;
    reported = rw h (ap (λ x. render result ∷ x) rest.reported);
  }

  all-Shows : (tests : List (Test × Result)) (n : ℕ) → Shows tests n (process_all tests (quiet n))
  unfolding process_all
  all-Shows [] n = record {
    shown = [];
    ends = ap (λ d. some (quiet d, [])) (plus_zero n);
    dotted = refl;
    broken = broken_none n;
    reported = refl;
  }
  all-Shows ((t, result) ∷ tests) n = elim (Bool-cases (passed result)) [
    | inl h ↦ passing t result tests n h (all-Shows tests (suc n))
    | inr h ↦ failing_test t result tests n h (all-Shows tests n)
  ]

  pub testing_all : List (Test × Result) → Option (List Text)
  unfolding process_testing
  testing_all [] = some []
  testing_all ((t, result) ∷ tests) = both (process_testing always t result) (testing_all tests)
    where
      both : Option (List Text) → Option (List Text) → Option (List Text)
      both (some xs) (some ys) = some (xs ++ ys)
      both _ _ = none

  testing_all-failing :
      (tests : List (Test × Result)) → testing_all tests ≡ some (rendered (failing tests))
  unfolding testing_all process_testing
  testing_all-failing [] = refl
  testing_all-failing ((t, result) ∷ tests) = elim (Bool-cases (passed result)) [
    | inl h ↦ rw (h, testing_all-failing tests) refl
    | inr h ↦ rw (h, testing_all-failing tests) refl
  ]

  from_zero : (p : ℕ) → 0 + p ≡ p
  from_zero p = omega arith

  lines : (k p : ℕ) → k + 0 / 80 ≡ (0 + p) / 80 → k ≡ p / 80
  lines k p h = omega (arith, h)

  -- Where every report can be rendered, the console output that is not verbose shows a dot for each test that passed
  -- and ends a line after every 80 of them, and it shows the reports of the tests that failed, in order; the output
  -- for the package testing reports the same tests.
  pub outputs-report :
      (tests : List (Test × Result))
      → (shown : List Shown) × (process_all tests (new_output false)
          ≡ some (quiet (passes tests), shown))
        × (dots_in shown ≡ passes tests)
        × (newlines_in shown ≡ passes tests / 80)
        × (reports_in shown ≡ rendered (failing tests))
        × (testing_all tests ≡ some (rendered (failing tests)))
  unfolding new_output
  outputs-report tests =
      let s = all-Shows tests 0 in
      (
        s.shown,
        s.ends ∙ ap (λ d. some (quiet d, s.shown)) (from_zero (passes tests)),
        s.dotted,
        lines (newlines_in s.shown) (passes tests) s.broken,
        s.reported,
        testing_all-failing tests,
      )
