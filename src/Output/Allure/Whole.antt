-- ===== src/Output/Allure/Whole.antt =====
-- output/allure_report/: the report on a whole run.
use gonkey.Base.{
  ℕ, suc, ◌≡◌, refl, sym, ap, ◌∙◌, Bool, Option, none, some, List, [], ◌∷◌, ◌++◌, map, append_assoc,
  append-nil,
}
use gonkey.Base.Text.{Text, codes}
use gonkey.Base.Outcome.{Outcome, ok, ◌>>=◌}
use gonkey.Models.{Test, ResultError, get_name}
use gonkey.Output.Allure.{
  Step, TestCase, Suite, Allure, ReportError, stamp, new_test_case, new_step, add_label, attach,
  start_case, label_case, end_case, start_suite, new_suite,
}
use gonkey.Output.Allure.Report.{
  request_text, response_text, add_attachment, status_of, failure_of, db_attachments, process,
  new_output,
}
use gonkey.Output.Allure.Cases.{
  Processed, report, attachment, more, no_query, db_list, after, case_of, next_free,
  label_case-last, end_case-last, then_ok, attached, db_attached, ended-case,
}

module _ (uuid : ℕ → Text) (writes : Text → Bool) (join_path : Text → Text → Text)
    (marshal : Suite → Option Text) (target_dir : Text) (message : ResultError → Text) where
  started : ℕ → Test → TestCase
  unfolding new_test_case
  started now t = new_test_case now (get_name t) (some now)

  process-case :
      (p : Processed) (s : Suite) (cs : List TestCase) (step : Option Step) (suites : List Suite)
      (files : List (Text × Text)) (n : ℕ)
      → (files' : List (Text × Text)) × (step' : Option Step) × (process uuid writes join_path
            marshal target_dir message p.start p.end p.test p.result
            (report s cs step suites files n)
          ≡ ok (
              report s
                (cs ++ case_of uuid writes join_path marshal target_dir message n p ∷ [])
                step'
                suites
                files'
                (next_free uuid writes join_path marshal target_dir message n p)))
  unfolding process start_case new_test_case new_step stamp
  process-case p s cs step suites files n =
      let fresh_case : TestCase = new_test_case p.start (get_name p.test) (some p.start) in
      let step' : Option Step = some (new_step p.start (get_name p.test) (some p.start)) in
      let labelled : TestCase = add_label (codes "story") p.result.path fresh_case in
      let asked : TestCase =
        attach
          (attachment uuid writes join_path marshal target_dir message n (codes "Request")
            (request_text p.result))
          labelled in
      let answered : TestCase =
        attach
          (attachment uuid writes join_path marshal target_dir message (suc n) (codes "Response")
            (response_text p.result))
          asked in
      let files1 : List (Text × Text) =
        more uuid writes join_path marshal target_dir message (request_text p.result) n files in
      let files2 : List (Text × Text) =
        more uuid writes join_path marshal target_dir message (response_text p.result) (suc n)
          files1 in
      let (files', queried) =
        db_attached uuid writes join_path marshal target_dir message p.result s cs answered step'
          suites files2 (suc (suc n)) in
      let done : Allure → Outcome ReportError Allure =
        end_case p.end (status_of uuid writes join_path marshal target_dir message p.result.errors)
          (failure_of uuid writes join_path marshal target_dir message p.result.errors)
          (some p.end) in
      let query : Allure → Outcome ReportError Allure = λ (a : Allure).
        db_attachments uuid writes join_path marshal target_dir message p.result a >>= done in
      let respond : Allure → Outcome ReportError Allure = λ (a : Allure).
        add_attachment uuid writes join_path marshal target_dir message (codes "Response")
          (response_text p.result) a
        >>= query in
      let ask : Allure → Outcome ReportError Allure = λ (a : Allure).
        add_attachment uuid writes join_path marshal target_dir message (codes "Request")
          (request_text p.result) a
        >>= respond in
      (
        files',
        step',
        then_ok
            (label_case (codes "story") p.result.path
              (report s (cs ++ fresh_case ∷ []) step' suites files n))
            ask (label_case-last (codes "story") p.result.path s cs fresh_case step' suites files n)
            (then_ok
              (add_attachment uuid writes join_path marshal target_dir message (codes "Request")
                (request_text p.result) (report s (cs ++ labelled ∷ []) step' suites files n))
              respond
              (attached uuid writes join_path marshal target_dir message (codes "Request")
                (request_text p.result) s cs labelled step' suites files n)
              (then_ok
                (add_attachment uuid writes join_path marshal target_dir message (codes "Response")
                  (response_text p.result)
                  (report s (cs ++ asked ∷ []) step' suites files1 (suc n)))
                query
                (attached uuid writes join_path marshal target_dir message (codes "Response")
                  (response_text p.result) s cs asked step' suites files1 (suc n))
                (then_ok
                  (db_attachments uuid writes join_path marshal target_dir message p.result
                    (report s (cs ++ answered ∷ []) step' suites files2 (suc (suc n))))
                  done queried
                  (end_case-last p.end
                      (status_of uuid writes join_path marshal target_dir message p.result.errors)
                      (failure_of uuid writes join_path marshal target_dir message p.result.errors)
                      (some p.end) s cs
                      (record answered {
                        attachments =
                            answered.attachments
                            ++ db_list uuid writes join_path marshal target_dir message
                                (no_query uuid writes join_path marshal target_dir message p.result)
                                (suc (suc n)) p.result;
                      })
                      step' suites files'
                      (after uuid writes join_path marshal target_dir message
                        (no_query uuid writes join_path marshal target_dir message p.result)
                        (suc (suc n)))
                    ∙ ap
                        (λ c. ok (
                          report s (cs ++ c ∷ []) step' suites files'
                            (next_free uuid writes join_path marshal target_dir message n p)))
                        (ended-case uuid writes join_path marshal target_dir message n p.start p.end
                          (get_name p.test) p.result.path p.result.errors
                          (answered.attachments
                            ++ db_list uuid writes join_path marshal target_dir message
                                (no_query uuid writes join_path marshal target_dir message p.result)
                                (suc (suc n)) p.result)))))),
      )

  -- The tests in their order.
  unfoldable pub process_all : List Processed → Allure → Outcome ReportError Allure
  unfolding process
  process_all [] a = ok a
  process_all (p ∷ ps) a =
      process uuid writes join_path marshal target_dir message p.start p.end p.test p.result a
      >>= process_all ps

  abbrev pub cases_of : ℕ → List Processed → List TestCase
  cases_of n [] = []
  cases_of n (p ∷ ps) =
      case_of uuid writes join_path marshal target_dir message n p
      ∷ cases_of (next_free uuid writes join_path marshal target_dir message n p) ps

  process_all-cases :
      (ps : List Processed) (s : Suite) (cs : List TestCase) (step : Option Step)
      (suites : List Suite) (files : List (Text × Text)) (n : ℕ)
      → (a : Allure) × (process_all ps (report s cs step suites files n) ≡ ok a)
        × (map (λ (x : Suite). x.cases) a.suites
            ≡ (cs ++ cases_of n ps) ∷ map (λ (x : Suite). x.cases) suites)
  unfolding process_all
  process_all-cases [] s cs step suites files n = (
    report s cs step suites files n,
    refl,
    ap (λ x. x ∷ map (λ (x : Suite). x.cases) suites) (sym (append-nil cs)),
  )
  process_all-cases (p ∷ ps) s cs step suites files n =
      let (files', step', e) = process-case p s cs step suites files n in
      let (a, rest, same) =
        process_all-cases ps s
          (cs ++ case_of uuid writes join_path marshal target_dir message n p ∷ []) step' suites
          files' (next_free uuid writes join_path marshal target_dir message n p) in
      (
        a,
        then_ok
            (process uuid writes join_path marshal target_dir message p.start p.end p.test p.result
              (report s cs step suites files n))
            (process_all ps) e rest,
        same ∙ ap (λ x. x ∷ map (λ (x : Suite). x.cases) suites) (append_assoc cs _ _),
      )

  -- Whatever tests are processed, and whichever files cannot be written, the output does not panic, and its report
  -- then has one suite with one case for each test, in order: with the name, the path and the times, passed exactly
  -- where the test has no errors and else failed with their messages, cut at the mark of a trace, and with the
  -- attachments for the query and body of the request and for the body of the response, and for the SQL query and
  -- its rows where there was one.
  pub process_all-report :
      (ps : List Processed) (now : ℕ) (suite_name : Text)
      → (a : Allure) × (process_all ps
            (new_output uuid writes join_path marshal target_dir message now suite_name)
          ≡ ok a)
        × (map (λ (s : Suite). s.cases) a.suites ≡ cases_of 0 ps ∷ [])
  unfolding new_output start_suite new_suite
  process_all-report ps now suite_name =
      process_all-cases ps (new_suite now suite_name (some now)) [] none [] [] 0
