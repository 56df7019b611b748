-- ===== src/Output/Allure/Cases.antt =====
-- output/allure_report/: the cases of the report, one for each test that was processed.
use gonkey.Base.{
  ℕ, suc, ◌≡◌, refl, sym, ap, ◌∙◌, ◌/◌, append-nil, Bool, true, false, Option, some, List, [], ◌∷◌,
  ◌++◌, length, ◌==◌, Bool-cases, inl, inr, append_assoc,
}
use gonkey.Base.Text.{Text, codes, text_eq, text_beq, join}
use gonkey.Base.Outcome.{Outcome, ok, ◌>>=◌}
use gonkey.Models.{Test, Result, ResultError, get_name}
use gonkey.Output.Allure.{
  Attachment, Step, TestCase, Suite, Allure, ReportError, stamp, split, trace_mark, first, others,
  add_label, attach, end_test, update_last, label_case, end_case,
}
use gonkey.Output.Allure.Report.{
  file_name, query_text, db_response_text, write_buffer, add_attachment, attach_cases, add_file,
  messages, status_of, failure_of, db_attachments,
}

update_last-append :
    (f : TestCase → TestCase) (cs : List TestCase) (c : TestCase)
    → update_last f (cs ++ c ∷ []) ≡ cs ++ f c ∷ []
unfolding update_last
update_last-append f [] c = refl
update_last-append f (d ∷ []) c = refl
update_last-append f (d ∷ e ∷ cs) c = ap (λ x. d ∷ x) (update_last-append f (e ∷ cs) c)

-- A report whose current suite has the cases `cs`.
abbrev pub report :
    Suite → List TestCase → Option Step → List Suite → List (Text × Text) → ℕ → Allure
report s cs step suites files uuids = record {
  suites = record s { cases = cs; current_step = step } ∷ suites;
  files = files;
  uuids = uuids;
}

pub label_case-last :
    (name value : Text) (s : Suite) (cs : List TestCase) (c : TestCase) (step : Option Step)
    (suites : List Suite) (files : List (Text × Text)) (uuids : ℕ)
    → label_case name value (report s (cs ++ c ∷ []) step suites files uuids)
      ≡ ok (report s (cs ++ add_label name value c ∷ []) step suites files uuids)
unfolding label_case
label_case-last name value s cs c step suites files uuids =
    ap (λ x. ok (report s x step suites files uuids))
      (update_last-append (add_label name value) cs c)

pub end_case-last :
    (now : ℕ) (status : Text) (err : Option Text) (end : Option ℕ) (s : Suite) (cs : List TestCase)
    (c : TestCase) (step : Option Step) (suites : List Suite) (files : List (Text × Text))
    (uuids : ℕ)
    → end_case now status err end (report s (cs ++ c ∷ []) step suites files uuids)
      ≡ ok (report s (cs ++ end_test now status err end c ∷ []) step suites files uuids)
unfolding end_case
end_case-last now status err end s cs c step suites files uuids =
    ap (λ x. ok (report s x step suites files uuids))
      (update_last-append (end_test now status err end) cs c)

attach_cases-last :
    (a : Attachment) (cs : List TestCase) (c : TestCase) (s : Suite)
    → attach_cases a (cs ++ c ∷ []) s ≡ ok (record s { cases = cs ++ attach a c ∷ [] })
unfolding update_last
attach_cases-last a [] c s = refl
attach_cases-last a (d ∷ cs) c s =
    ap (λ x. ok (record s { cases = x })) (update_last-append (attach a) (d ∷ cs) c)

pub then_ok :
    {A B : Type 0} (o : Outcome ReportError A) (f : A → Outcome ReportError B) {a : A}
    {r : Outcome ReportError B}
    → o ≡ ok a
    → f a ≡ r
    → (o >>= f) ≡ r
then_ok o f e h = ap (λ x. x >>= f) e ∙ h

-- What the attachments and the verdict of a case must be. The back slash and the n stand for themselves.
abbrev asked_text : Result → Text
asked_text result =
    codes "Query: " ++ (result.query ++ (codes " \\n Body: " ++ result.request_body))

abbrev answered_text : Result → Text
answered_text result = codes "Body: " ++ result.response_body

abbrev sql_text : Result → Text
sql_text result = codes "SQL string: " ++ result.db_query

abbrev rows_text : Result → Text
rows_text result = codes "Respone: [" ++ (join (codes " ") result.db_response ++ codes "]")

abbrev pub verdict : List ResultError → Text
verdict [] = codes "passed"
verdict (e ∷ errs) = codes "failed"

-- The parts of a text that is cut at the mark: what stands before the first one, and the rest, by lines.
abbrev before_mark : List Text → Text
before_mark [] = []
before_mark (part ∷ parts) = part

abbrev after_mark : List Text → Text
after_mark [] = []
after_mark (part ∷ parts) = join (10 ∷ []) parts

-- One test that was processed, between two readings of the clock.
pub record Processed : Type 0 where
  pub start : ℕ
  pub end : ℕ
  pub test : Test
  pub result : Result

module _ (uuid : ℕ → Text) (writes : Text → Bool) (join_path : Text → Text → Text)
    (marshal : Suite → Option Text) (target_dir : Text) (message : ResultError → Text) where
  abbrev pub attachment : ℕ → Text → Text → Attachment
  attachment n title content = record {
    title = title;
    type = codes "text/plain";
    size = length content;
    source = uuid n ++ codes "-attachment.txt";
  }

  abbrev pub more : Text → ℕ → List (Text × Text) → List (Text × Text)
  more content n files =
      add_file uuid writes join_path marshal target_dir message
        (file_name uuid writes join_path marshal target_dir message n) content files

  pub attached :
      (title content : Text) (s : Suite) (cs : List TestCase) (c : TestCase) (step : Option Step)
      (suites : List Suite) (files : List (Text × Text)) (uuids : ℕ)
      → add_attachment uuid writes join_path marshal target_dir message title content
          (report s (cs ++ c ∷ []) step suites files uuids)
        ≡ ok (
            report s
              (cs ++ attach (attachment uuids title content) c ∷ [])
              step
              suites
              (more content uuids files)
              (suc uuids))
  unfolding add_attachment write_buffer
  attached title content s cs c step suites files uuids =
      ap
        (λ x. (x >>= λ s'. ok (s' ∷ suites)) >>= λ ss.
          ok (record { suites = ss; files = more content uuids files; uuids = suc uuids }))
        (attach_cases-last (attachment uuids title content) cs c
          (record s { cases = cs ++ c ∷ []; current_step = step }))

  abbrev pub db_list : Bool → ℕ → Result → List Attachment
  db_list true n result = []
  db_list false n result =
      attachment n (codes "Db Query") (sql_text result)
      ∷ attachment (suc n) (codes "Db Response") (rows_text result)
      ∷ []

  abbrev pub after : Bool → ℕ → ℕ
  after true n = n
  after false n = suc (suc n)

  -- Whether the test asked the database nothing.
  abbrev pub no_query : Result → Bool
  no_query result = result.db_query == []

  pub db_attached :
      (result : Result) (s : Suite) (cs : List TestCase) (c : TestCase) (step : Option Step)
      (suites : List Suite) (files : List (Text × Text)) (n : ℕ)
      → (files' : List (Text × Text)) × (db_attachments uuid writes join_path marshal target_dir
            message result
            (report s (cs ++ c ∷ []) step suites files n)
          ≡ ok (
              report s
                (cs
                  ++ record c { attachments = c.attachments ++ db_list (no_query result) n result }
                    ∷ [])
                step
                suites
                files'
                (after (no_query result) n)))
  db_attached result s cs c step suites files n = elim (Bool-cases (text_beq result.db_query [])) [
    | inl t ↦ rw t (
      files,
      ap (λ x. ok (report s (cs ++ record c { attachments = x } ∷ []) step suites files n))
          (sym (append-nil c.attachments)),
    )
    | inr f ↦ rw f (
      more (db_response_text result) (suc n) (more (query_text result) n files),
      then_ok
          (add_attachment uuid writes join_path marshal target_dir message (codes "Db Query")
            (query_text result) (report s (cs ++ c ∷ []) step suites files n))
          (add_attachment uuid writes join_path marshal target_dir message (codes "Db Response")
            (db_response_text result))
          (attached (codes "Db Query") (query_text result) s cs c step suites files n)
          (attached (codes "Db Response") (db_response_text result) s cs _ step suites
              (more (query_text result) n files) (suc n)
            ∙ ap
                (λ x. ok (
                  report s (cs ++ record c { attachments = x } ∷ []) step suites
                    (more (db_response_text result) (suc n) (more (query_text result) n files))
                    (suc (suc n))))
                (append_assoc c.attachments _ _)),
    )
  ]

  -- The messages of the errors, each with a new line behind it, cut where a tab and "race" stand.
  abbrev lines_of : List ResultError → Text
  lines_of [] = []
  lines_of (e ∷ errs) = message e ++ (10 ∷ lines_of errs)

  abbrev failure_text : List ResultError → Text
  failure_text [] = []
  failure_text (e ∷ errs) = before_mark (split (lines_of (e ∷ errs)) (9 ∷ codes "race"))

  abbrev trace_text : List ResultError → Text
  trace_text [] = []
  trace_text (e ∷ errs) = after_mark (split (lines_of (e ∷ errs)) (9 ∷ codes "race"))

  messages-lines_of :
      (errs : List ResultError)
      → messages uuid writes join_path marshal target_dir message errs ≡ lines_of errs
  messages-lines_of [] = refl
  messages-lines_of (e ∷ errs) = ap (λ x. message e ++ (10 ∷ x)) (messages-lines_of errs)

  cut-parts :
      (parts : List Text)
      → ◌≡◌ {A = Text × Text}
          (first parts, join (10 ∷ []) (others parts))
          (before_mark parts, after_mark parts)
  unfolding join
  cut-parts [] = refl
  cut-parts (part ∷ parts) = refl

  -- What the report must say of a test, with the number of the first identifier that is free for its attachments.
  abbrev pub case_of : ℕ → Processed → TestCase
  case_of n p = record {
    status = verdict p.result.errors;
    start = p.start / 1000;
    stop = p.end / 1000;
    name = get_name p.test;
    labels = (codes "story", p.result.path) ∷ [];
    attachments =
        attachment n (codes "Request") (asked_text p.result)
        ∷ attachment (suc n) (codes "Response") (answered_text p.result)
        ∷ db_list (no_query p.result) (suc (suc n)) p.result;
    failure_msg = failure_text p.result.errors;
    failure_trace = trace_text p.result.errors;
  }

  abbrev pub next_free : ℕ → Processed → ℕ
  next_free n p = after (no_query p.result) (suc (suc n))

  pub ended-case :
      (n start end : ℕ) (name path : Text) (errs : List ResultError) (attachments : List Attachment)
      → end_test end
          (status_of uuid writes join_path marshal target_dir message errs)
          (failure_of uuid writes join_path marshal target_dir message errs)
          (some end)
          (record {
            status = [];
            start = start / 1000;
            stop = 0;
            name = name;
            labels = (codes "story", path) ∷ [];
            attachments = attachments;
            failure_msg = [];
            failure_trace = [];
          })
        ≡ record {
          status = verdict errs;
          start = start / 1000;
          stop = end / 1000;
          name = name;
          labels = (codes "story", path) ∷ [];
          attachments = attachments;
          failure_msg = failure_text errs;
          failure_trace = trace_text errs;
        }
  unfolding end_test stamp
  ended-case n start end name path [] attachments = refl
  ended-case n start end name path (e ∷ errs) attachments =
      ap
        (λ x. record {
          status = codes "failed";
          start = start / 1000;
          stop = end / 1000;
          name = name;
          labels = (codes "story", path) ∷ [];
          attachments = attachments;
          failure_msg = x.0;
          failure_trace = x.1;
        })
        (cut-parts (
            split (messages uuid writes join_path marshal target_dir message (e ∷ errs)) trace_mark)
          ∙ ap (λ x. (before_mark (split x trace_mark), after_mark (split x trace_mark)))
              (messages-lines_of (e ∷ errs)))
