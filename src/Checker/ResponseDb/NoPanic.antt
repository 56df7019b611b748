-- ===== src/Checker/ResponseDb/NoPanic.antt =====
-- checker/response_db/response_db.go: the index of `compareDbResp` stays in range.
use gonkey.Base.{
  ℕ, zero, suc, ◌+◌, ◌<◌, ◌≡◌, ◌≢◌, refl, Bool, true, false, Option, none, some, List, [], ◌∷◌,
  length, get_elem?, arith, nat_beq, nat_beq_iff, Bool-cases, inl, inr,
}
use gonkey.Base.Text.{Text}
use gonkey.Base.Outcome.{Outcome, ok, fail, panic, or_fail, or_panic, ◌>>=◌}
use gonkey.Value.{Value}
use gonkey.Models.{Test, Result, db_query_string}
use gonkey.Checker.{CheckFailure, db_failed}
use gonkey.Checker.ResponseDb.{
  compare_db_response_length, compare_rows, new_query, scan_rows, check, compare_all, check_query,
  check_given, to_json_query,
}

>>=-no_panic :
    {E A B : Type 0} (m : Outcome E A) (f : A → Outcome E B)
    → m ≢ panic
    → ((a : A) → m ≡ ok a → f a ≢ panic)
    → (m >>= f) ≢ panic
>>=-no_panic (ok a) f m_ok f_ok = f_ok a refl
>>=-no_panic (fail e) f m_ok f_ok = λ h. cc
>>=-no_panic panic f m_ok f_ok = absurd (m_ok refl)

or_fail-no_panic : {E A : Type 0} (e : E) (o : Option A) → or_fail e o ≢ panic
or_fail-no_panic e none = λ h. cc
or_fail-no_panic e (some a) = λ h. cc

in_range :
    (i : ℕ) (xs : List Text) → i < length xs → or_panic {E = CheckFailure} (get_elem? xs i) ≢ panic
in_range i [] h = absurd (omega arith)
in_range zero (x ∷ xs) h = λ e. cc
in_range (suc i) (x ∷ xs) h = in_range i xs (omega arith)

scan_rows-no_panic : (rows : List (Option Text)) (err : Bool) → scan_rows rows err ≢ panic
unfolding scan_rows
scan_rows-no_panic [] true = λ h. cc
scan_rows-no_panic [] false = λ h. cc
scan_rows-no_panic (row ∷ rows) err =
    >>=-no_panic _ _ (or_fail-no_panic _ row)
      (λ a _. >>=-no_panic _ _ (scan_rows-no_panic rows err) (λ texts _. λ h. cc))

module _ (unmarshal : Text → Option Value) (diff : Value → Value → Text)
    (db_query : Text → Option (List (Option Text) × Bool)) where
  compare_rows-no_panic :
      (name q : Text) (i : ℕ) (rows actual : List Text)
      → i + length rows ≡ length actual
      → compare_rows unmarshal diff db_query name q i rows actual ≢ panic
  unfolding compare_rows
  compare_rows-no_panic name q i [] actual l = λ h. cc
  compare_rows-no_panic name q i (row ∷ rows) actual l =
      >>=-no_panic _ _ (or_fail-no_panic _ (unmarshal row)) λ x _.
        >>=-no_panic _ _ (in_range i actual (omega arith)) λ a _.
          >>=-no_panic _ _ (or_fail-no_panic _ (unmarshal a)) λ y _.
            >>=-no_panic _ _ (compare_rows-no_panic name q (suc i) rows actual (omega arith))
              λ errs _. λ h. cc

  all-no_panic :
      (t : Test) (result : Result) (expected : List Text)
      → compare_all unmarshal diff db_query t expected result
          (compare_db_response_length expected result.db_response result.db_query)
        ≢ panic
  unfolding compare_db_response_length
  all-no_panic t result expected =
      elim (Bool-cases (nat_beq (length expected) (length result.db_response))) [
        | inl e ↦ rw e (
            >>=-no_panic _ _
              (compare_rows-no_panic _ _ 0 expected result.db_response
                (omega (arith, (nat_beq_iff (length expected) (length result.db_response)).0 e)))
              (λ errs _. λ h. cc))
        | inr n ↦ rw n (λ h. cc)
      ]

  new_query-no_panic : (q : Text) → new_query unmarshal diff db_query q ≢ panic
  unfolding new_query
  new_query-no_panic q =
      >>=-no_panic {A = List (Option Text) × Bool} _ _
        (or_fail-no_panic db_failed (db_query (to_json_query q)))
        (λ answer _. scan_rows-no_panic answer.0 answer.1)

  query-no_panic :
      (t : Test) (result : Result) (expected : List Text)
      → check_query unmarshal diff db_query t result expected ≢ panic
  query-no_panic t result expected =
      >>=-no_panic (new_query unmarshal diff db_query _) _ (new_query-no_panic _) (λ actual _.
        all-no_panic t (record result { db_query = db_query_string t; db_response = actual })
          expected)

  given-no_panic :
      (t : Test) (result : Result) (q : Text) (o : Option (List Text))
      → check_given unmarshal diff db_query t result q o ≢ panic
  given-no_panic t result [] none = λ h. cc
  given-no_panic t result [] (some expected) = λ h. cc
  given-no_panic t result (c ∷ q) none = λ h. cc
  given-no_panic t result (c ∷ q) (some expected) = query-no_panic t result expected

  -- The checker of the database does not panic: the rows that it compares are as many on both sides.
  pub check-no_panic : (t : Test) (result : Result) → check unmarshal diff db_query t result ≢ panic
  unfolding check
  check-no_panic t result = given-no_panic t result _ _
