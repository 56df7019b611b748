-- ===== src/Output/Allure.antt =====
-- output/allure_report/: the report for Allure. beans/suite.go, beans/test.go, beans/attachment.go and beans/step.go
-- are the records, allure.go the operations on the current suite, allure_report.go the output that uses them.
pub mod Report
pub mod Cases
pub mod Whole
use gonkey.Base.{
  ℕ, zero, suc, ◌+◌, ◌-◌, ◌/◌, Bool, true, false, Option, none, some, List, [], ◌∷◌, ◌++◌, length,
  if◌then◌else◌, ◌==◌,
}
use gonkey.Base.Text.{Text, codes, text_eq, text_beq, has_prefix, join}
use gonkey.Base.Outcome.{Outcome, ok, fail, panic, ◌>>=◌}
use gonkey.Models.{Test, Result, ResultError, get_name}

pub record Attachment : Type 0 where
  pub title : Text
  pub type : Text
  pub size : ℕ
  pub source : Text

pub record Step : Type 0 where
  pub status : Text
  pub start : ℕ
  pub stop : ℕ
  pub name : Text

pub record TestCase : Type 0 where
  pub status : Text
  pub start : ℕ
  pub stop : ℕ
  pub name : Text
  pub labels : List (Text × Text)
  pub attachments : List Attachment
  pub failure_msg : Text
  pub failure_trace : Text

-- The maps `currentState` and `currentStep` have, for a suite, the case and the step that were started last. The
-- case is the last one of the suite; the step stands in no case.
pub record Suite : Type 0 where
  pub start : ℕ
  pub end : ℕ
  pub name : Text
  pub cases : List TestCase
  pub current_step : Option Step

-- The files that are written stand with their contents; `uuids` counts the identifiers that were made.
pub record Allure : Type 0 where
  pub suites : List Suite
  pub files : List (Text × Text)
  pub uuids : ℕ

pub data ReportError : Type 0 where
  marshal_failed write_failed : ReportError

-- A time is a number of nanoseconds, `none` the zero time, for which `now` is read.
unfoldable pub stamp : ℕ → Option ℕ → ℕ
stamp now none = now / 1000
stamp now (some t) = t / 1000

unfoldable pub new_test_case : ℕ → Text → Option ℕ → TestCase
unfolding stamp
new_test_case now name start = record {
  status = [];
  start = stamp now start;
  stop = 0;
  name = name;
  labels = [];
  attachments = [];
  failure_msg = [];
  failure_trace = [];
}

unfoldable pub new_step : ℕ → Text → Option ℕ → Step
unfolding stamp
new_step now name start = record { status = []; start = stamp now start; stop = 0; name = name }

unfoldable pub new_suite : ℕ → Text → Option ℕ → Suite
unfolding stamp
new_suite now name start = record {
  start = stamp now start;
  end = 0;
  name = name;
  cases = [];
  current_step = none;
}

-- `strings.Split` with a separator that is not empty: `skip` bytes of it are still to be passed over.
split_from : Text → ℕ → Text → Text → List Text
unfolding has_prefix
split_from sep skip current [] = current ∷ []
split_from sep (suc skip) current (c ∷ s) = split_from sep skip current s
split_from sep zero current (c ∷ s) =
    let found = has_prefix (c ∷ s) sep in
    let rest =
      split_from sep (if found then length sep - 1 else 0) (if found then [] else current ++ c ∷ [])
        s in
    if found then current ∷ rest else rest

unfoldable pub split : Text → Text → List Text
unfolding split_from
split s sep = split_from sep 0 [] s

-- The separator of a message and its trace: a tab and "race".
abbrev pub trace_mark : Text
trace_mark = 9 ∷ codes "race"

abbrev pub first : List Text → Text
first [] = []
first (s ∷ ss) = s

abbrev pub others : List Text → List Text
others [] = []
others (s ∷ ss) = ss

abbrev pub set_failure : Option Text → TestCase → TestCase
set_failure none t = t
set_failure (some err) t =
    let msg = split err trace_mark in
    record t { failure_msg = first msg; failure_trace = join (10 ∷ []) (others msg) }

-- `TestCase.End`
unfoldable pub end_test : ℕ → Text → Option Text → Option ℕ → TestCase → TestCase
unfolding stamp split join
end_test now status err end t = set_failure err (record t { stop = stamp now end; status = status })

abbrev pub add_label : Text → Text → TestCase → TestCase
add_label name value t = record t { labels = t.labels ++ (name, value) ∷ [] }

abbrev pub attach : Attachment → TestCase → TestCase
attach a t = record t { attachments = t.attachments ++ a ∷ [] }

unfoldable pub update_last : (TestCase → TestCase) → List TestCase → List TestCase
update_last f [] = []
update_last f (c ∷ []) = f c ∷ []
update_last f (c ∷ d ∷ cs) = c ∷ update_last f (d ∷ cs)

-- A change of the current suite; without one `GetCurrentSuite` panics.
abbrev pub on_suite :
    (Suite → Outcome ReportError Suite) → List Suite → Outcome ReportError (List Suite)
on_suite f [] = panic
on_suite f (s ∷ suites) = f s >>= λ s'. ok (s' ∷ suites)

abbrev pub on_current : (Suite → Outcome ReportError Suite) → Allure → Outcome ReportError Allure
on_current f a = on_suite f a.suites >>= λ suites'. ok (record a { suites = suites' })

unfoldable pub start_suite : ℕ → Text → Option ℕ → Allure → Allure
unfolding new_suite
start_suite now name start a = record a { suites = a.suites ++ new_suite now name start ∷ [] }

unfoldable pub start_case : ℕ → Text → Option ℕ → Allure → Outcome ReportError Allure
unfolding new_test_case new_step
start_case now test_name start = on_current λ (s : Suite). ok (record s {
  cases = s.cases ++ new_test_case now test_name start ∷ [];
  current_step = some (new_step now test_name start);
})

-- The label of the case that `StartCase` returned.
unfoldable pub label_case : Text → Text → Allure → Outcome ReportError Allure
unfolding update_last
label_case name value =
    on_current λ (s : Suite). ok (record s { cases = update_last (add_label name value) s.cases })

unfoldable pub end_case : ℕ → Text → Option Text → Option ℕ → Allure → Outcome ReportError Allure
unfolding update_last end_test
end_case now status err end =
    on_current
      λ (s : Suite). ok (record s { cases = update_last (end_test now status err end) s.cases })

abbrev stepped : Option Step → (Step → Suite) → Outcome ReportError Suite
stepped none f = panic
stepped (some step) f = ok (f step)

-- `StartStep` asks the current step for its parent, which no step has: it panics, whether or not there is a step.
unfoldable pub start_step : Allure → Outcome ReportError Allure
start_step = on_current λ (s : Suite). panic

-- The parent, which is none, becomes the current step.
unfoldable pub end_step : Allure → Outcome ReportError Allure
end_step =
    on_current λ (s : Suite). stepped s.current_step (λ step. record s { current_step = none })

unfoldable pub pending_case : ℕ → Text → Option ℕ → Allure → Outcome ReportError Allure
unfolding start_case end_case
pending_case now test_name start a =
    start_case now test_name start a
    >>= end_case now (codes "pending") (some (codes "test ignored")) start

-- Nothing calls it; `step_func` is what it runs in between.
unfoldable pub create_step :
    (Allure → Outcome ReportError Allure) → Allure → Outcome ReportError Allure
unfolding start_step end_step
create_step step_func a = do started ← start_step a; ran ← step_func started; end_step ran
