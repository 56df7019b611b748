-- ===== src/Checker/ResponseDb.antt =====
-- checker/response_db/response_db.go: the rows that a query gives after the request against the
-- expected ones.
pub mod Rows
pub mod NoPanic
use gonkey.Base.{
  ℕ, suc, ◌≡◌, ◌≢◌, ◌↔◌, refl, Bool, true, false, not, ◌&&◌, Option, none, some, List, [], ◌∷◌,
  ◌++◌, if◌then◌else◌, nat_beq, ◌==◌, length, get_elem?, arith, Bool-cases, Option-cases, inl, inr,
}
use gonkey.Base.Text.{Text, codes, text_eq}
use gonkey.Base.Outcome.{Outcome, ok, fail, panic, ◌>>=◌, ◌>>◌, or_fail, or_panic}
use gonkey.Value.{Value}
use gonkey.Models.{
  Test, Result, ResultError, db_items_do_not_match, db_quantity_does_not_match, get_name,
  db_query_string, db_response_json,
}
use gonkey.Checker.{
  CheckFailure, Checker, db_query_not_found, db_response_not_found, db_failed, invalid_expected_row,
  invalid_actual_row,
}

-- The text of a query up to its first semicolon.
unfoldable pub before_semicolon : Text → Text
before_semicolon [] = []
before_semicolon (c ∷ s) = if nat_beq c b';' then [] else c ∷ before_semicolon s

abbrev pub to_json_query : Text → Text
to_json_query q = codes "SELECT row_to_json(rows) FROM (" ++ (before_semicolon q ++ codes ") rows;")

-- `rows.Scan` on each row, then `rows.Err`, which is true where it is nil.
unfoldable pub scan_rows : List (Option Text) → Bool → Outcome CheckFailure (List Text)
scan_rows [] true = ok []
scan_rows [] false = fail db_failed
scan_rows (row ∷ rows) err = do
  json_string ← or_fail db_failed row
  db_response ← scan_rows rows err
  ok (json_string ∷ db_response)

unfoldable pub compare_db_response_length : List Text → List Text → Text → List ResultError
compare_db_response_length expected actual query =
    if nat_beq (length expected) (length actual)
    then []
    else db_quantity_does_not_match (length expected) (length actual) query ∷ []

-- `unmarshal` is `json.Unmarshal` into an empty interface, `diff` is `pretty.Compare`, and `db_query` is
-- `db.Query` with what `Scan` gives for each row and whether `Err` is nil.
module _ (unmarshal : Text → Option Value) (diff : Value → Value → Text)
    (db_query : Text → Option (List (Option Text) × Bool)) where
  unfoldable pub new_query : Text → Outcome CheckFailure (List Text)
  unfolding scan_rows before_semicolon
  new_query q = do
    answer ← or_fail db_failed (db_query (to_json_query q))
    scan_rows answer.0 answer.1

  unfoldable pub compare_db_response_row : Value → Value → Text → List ResultError
  compare_db_response_row expected actual query =
      if diff expected actual == []
      then []
      else db_items_do_not_match query (diff expected actual) ∷ []

  -- The loop of `compareDbResp`, at row `i`.
  unfoldable pub compare_rows :
      Text → Text → ℕ → List Text → List Text → Outcome CheckFailure (List ResultError)
  unfolding compare_db_response_row
  compare_rows name query i [] actual = ok []
  compare_rows name query i (row ∷ rows) actual = do
    expected_json ← or_fail (invalid_expected_row name i row) (unmarshal row)
    actual_row ← or_panic (get_elem? actual i)
    actual_json ← or_fail (invalid_actual_row name i actual_row) (unmarshal actual_row)
    errs ← compare_rows name query (suc i) rows actual
    ok (compare_db_response_row expected_json actual_json query ++ errs)

  abbrev pub compare_db_resp : Test → List Text → Result → Outcome CheckFailure (List ResultError)
  compare_db_resp t expected result =
      compare_rows (get_name t) result.db_query 0 expected result.db_response

  abbrev compare_all :
      Test
      → List Text
      → Result
      → List ResultError
      → Outcome CheckFailure (List ResultError × Result)
  compare_all t expected result (err ∷ errs) = ok (err ∷ [], result)
  compare_all t expected result [] = do errs ← compare_db_resp t expected result; ok (errs, result)

  abbrev check_query : Test → Result → List Text → Outcome CheckFailure (List ResultError × Result)
  check_query t result expected = do
    actual ← new_query (db_query_string t)
    let result' = record result { db_query = db_query_string t; db_response = actual } in
        compare_all t expected result'
          (compare_db_response_length expected result'.db_response result'.db_query)

  abbrev check_given :
      Test → Result → Text → Option (List Text) → Outcome CheckFailure (List ResultError × Result)
  check_given t result [] none = ok ([], result)
  check_given t result [] (some expected) = fail (db_query_not_found (get_name t))
  check_given t result (c ∷ q) none = fail (db_response_not_found (get_name t))
  check_given t result (c ∷ q) (some expected) = check_query t result expected

  unfoldable pub check : Checker
  unfolding compare_rows compare_db_response_length new_query
  check t result = check_given t result (db_query_string t) (db_response_json t)
