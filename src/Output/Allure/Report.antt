-- ===== src/Output/Allure/Report.antt =====
-- output/allure_report/allure_report.go, and the files that allure.go writes.
use gonkey.Base.{ℕ, suc, Bool, Option, none, some, List, [], ◌∷◌, ◌++◌, length, if◌then◌else◌, ◌==◌}
use gonkey.Base.Text.{Text, codes, text_eq, join}
use gonkey.Base.Outcome.{Outcome, ok, panic, ◌>>=◌}
use gonkey.Models.{Test, Result, ResultError, get_name}
use gonkey.Output.Allure.{
  Attachment, TestCase, Suite, Allure, ReportError, marshal_failed, write_failed, stamp, attach,
  update_last, on_current, start_suite, start_case, label_case, end_case,
}

-- `getBufferInfo`, whatever the buffer.
abbrev pub mime : Text
mime = codes "text/plain"

abbrev pub ext : Text
ext = codes "txt"

-- The case that was started last, without which it panics.
abbrev pub attach_cases : Attachment → List TestCase → Suite → Outcome ReportError Suite
attach_cases a [] s = panic
attach_cases a (c ∷ cs) s = ok (record s { cases = update_last (attach a) (c ∷ cs) })

-- The texts of the four attachments. The texts are in back quotes, so that "\n" stands for itself.
abbrev pub request_text : Result → Text
request_text result =
    codes "Query: " ++ (result.query ++ ((32 ∷ 92 ∷ codes "n Body: ") ++ result.request_body))

abbrev pub response_text : Result → Text
response_text result = codes "Body: " ++ result.response_body

abbrev pub query_text : Result → Text
query_text result = codes "SQL string: " ++ result.db_query

-- The verb %s on a slice.
abbrev pub db_response_text : Result → Text
db_response_text result = codes "Respone: [" ++ (join (codes " ") result.db_response ++ codes "]")

-- `uuid` makes the identifiers, `writes` says which files can be written, `join_path` is `filepath.Join`,
-- `marshal` is `xml.Marshal`, and `message` the text of an error.
module _ (uuid : ℕ → Text) (writes : Text → Bool) (join_path : Text → Text → Text)
    (marshal : Suite → Option Text) (target_dir : Text) (message : ResultError → Text) where
  abbrev pub file_name : ℕ → Text
  file_name n = uuid n ++ (codes "-attachment." ++ ext)

  abbrev pub add_file : Text → Text → List (Text × Text) → List (Text × Text)
  add_file name content files =
      if writes (join_path target_dir name)
      then files ++ (join_path target_dir name, content) ∷ []
      else files

  -- The error of writing is dropped by `AddAttachment`.
  unfoldable pub write_buffer : Text → Allure → Allure
  write_buffer content a = record a {
    files = add_file (file_name a.uuids) content a.files;
    uuids = suc a.uuids;
  }

  unfoldable pub add_attachment : Text → Text → Allure → Outcome ReportError Allure
  unfolding write_buffer update_last
  add_attachment title content a =
      on_current
        (λ (s : Suite).
          attach_cases
            (record {
              title = title;
              type = mime;
              size = length content;
              source = file_name a.uuids;
            })
            s.cases s)
        (write_buffer content a)

  -- The suite stays the first where it cannot be written.
  abbrev written : Option Text → Text → Suite → List Suite → Allure → Allure × Option ReportError
  written none name s suites a = (record a { suites = s ∷ suites }, some marshal_failed)
  written (some content) name s suites a =
      if writes name
      then (
        record a { suites = suites; files = a.files ++ (name, content) ∷ []; uuids = suc a.uuids },
        none,
      )
      else (record a { suites = s ∷ suites; uuids = suc a.uuids }, some write_failed)

  abbrev ended : List TestCase → Suite → List Suite → Allure → Allure × Option ReportError
  ended [] s suites a = (record a { suites = suites }, none)
  ended (c ∷ cs) s suites a =
      written (marshal s) (join_path target_dir (uuid a.uuids ++ codes "-testsuite.xml")) s suites a

  abbrev end_first : ℕ → List Suite → Allure → Outcome ReportError (Allure × Option ReportError)
  end_first end [] a = panic
  end_first end (s ∷ suites) a = ok (ended s.cases (record s { end = end }) suites a)

  -- `EndSuite` with the error it returns, which `Finalize` drops.
  unfoldable pub end_suite :
      ℕ → Option ℕ → Allure → Outcome ReportError (Allure × Option ReportError)
  unfolding stamp
  end_suite now end a = end_first (stamp now end) a.suites a

  unfoldable pub finalize : ℕ → Allure → Outcome ReportError Allure
  unfolding end_suite
  finalize now a = end_suite now (some now) a >>= λ done. ok done.0

  unfoldable pub new_output : ℕ → Text → Allure
  unfolding start_suite
  new_output now suite_name =
      start_suite now suite_name (some now) (record { suites = []; files = []; uuids = 0 })

  abbrev pub messages : List ResultError → Text
  messages [] = []
  messages (e ∷ errs) = message e ++ (10 ∷ messages errs)

  abbrev pub status_of : List ResultError → Text
  status_of [] = codes "passed"
  status_of (e ∷ errs) = codes "failed"

  abbrev pub failure_of : List ResultError → Option Text
  failure_of [] = none
  failure_of (e ∷ errs) = some (messages (e ∷ errs))

  abbrev pub db_attachments : Result → Allure → Outcome ReportError Allure
  db_attachments result a =
      if result.db_query == []
      then ok a
      else (add_attachment (codes "Db Query") (query_text result) a
          >>= add_attachment (codes "Db Response") (db_response_text result))

  -- `start` and `end` are the two readings of the clock.
  unfoldable pub process : ℕ → ℕ → Test → Result → Allure → Outcome ReportError Allure
  unfolding start_case label_case end_case add_attachment
  process start end t result a = do
    started ← start_case start (get_name t) (some start) a
    labelled ← label_case (codes "story") result.path started
    asked ← add_attachment (codes "Request") (request_text result) labelled
    answered ← add_attachment (codes "Response") (response_text result) asked
    queried ← db_attachments result answered
    end_case end (status_of result.errors) (failure_of result.errors) (some end) queried
