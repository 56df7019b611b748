-- ===== src/Checker/ResponseDb/Rows.antt =====
-- checker/response_db/response_db.go: which rows the checker accepts.
use gonkey.Base.{
  some-injective, ℕ, zero, suc, ◌≡◌, ◌≢◌, ◌↔◌, refl, sym, ap, ◌∙◌, Bool, Option, none, some, List,
  [], ◌∷◌, length, get_elem?, arith, append-eq-nil,
}
use gonkey.Base.Text.{Text, text_eq}
use gonkey.Base.Outcome.{ok, or_fail, or_panic, >>=-eq-ok, ok-injective, or_fail-eq-ok}
use gonkey.Value.{Value}
use gonkey.Models.{Test, Result, ResultError, db_query_string, db_response_json}
use gonkey.Checker.ResponseDb.{
  compare_db_response_length, compare_db_response_row, compare_rows, new_query, check, compare_all,
  check_query, check_given,
}

abbrev drop : ℕ → List Text → List Text
drop zero xs = xs
drop (suc i) [] = []
drop (suc i) (x ∷ xs) = drop i xs

get_elem?-drop :
    (i : ℕ) (actual : List Text) {a : Text} {post : List Text}
    → drop i actual ≡ a ∷ post
    → (get_elem? actual i ≡ some a) × (drop (suc i) actual ≡ post)
get_elem?-drop zero [] e = cc
get_elem?-drop zero (x ∷ xs) e = (cc, cc)
get_elem?-drop (suc i) [] e = cc
get_elem?-drop (suc i) (x ∷ xs) e = get_elem?-drop i xs e

or_panic-eq-ok : {F A : Type 0} (o : Option A) {a : A} → or_panic {E = F} o ≡ ok a → o ≡ some a
or_panic-eq-ok none h = cc
or_panic-eq-ok (some a) h = cc

module _ (unmarshal : Text → Option Value) (diff : Value → Value → Text)
    (db_query : Text → Option (List (Option Text) × Bool)) where
  -- Row by row, two JSON texts with no difference.
  pub data RowsAgree : List Text → List Text → Type 0 where
    no_row : RowsAgree [] []
    one_row :
        {row actual_row : Text} {rows actual : List Text} (x y : Value)
        → unmarshal row ≡ some x
        → unmarshal actual_row ≡ some y
        → diff x y ≡ []
        → RowsAgree rows actual
        → RowsAgree (row ∷ rows) (actual_row ∷ actual)

  row-eq-nil :
      (x y : Value) (q : Text)
      → (compare_db_response_row unmarshal diff db_query x y q ≡ []) ↔ (diff x y ≡ [])
  unfolding compare_db_response_row
  row-eq-nil x y q = ground (arith, text_eq.equal_iff (diff x y) [])

  rows_sound :
      (name q : Text) (i : ℕ) (rows actual post : List Text)
      → drop i actual ≡ post
      → length rows ≡ length post
      → compare_rows unmarshal diff db_query name q i rows actual ≡ ok []
      → RowsAgree rows post
  unfolding compare_rows
  rows_sound name q i [] actual [] d l h = no_row
  rows_sound name q i [] actual (a ∷ post) d l h = absurd (omega arith)
  rows_sound name q i (row ∷ rows) actual [] d l h = absurd (omega arith)
  rows_sound name q i (row ∷ rows) actual (a ∷ post) d l h =
      let (x, found_x, h1) = >>=-eq-ok (or_fail _ (unmarshal row)) _ h in
      let (a', found_a, h2) = >>=-eq-ok (or_panic (get_elem? actual i)) _ h1 in
      let (y, found_y, h3) = >>=-eq-ok (or_fail _ (unmarshal a')) _ h2 in
      let (errs, rest, h4) =
        >>=-eq-ok (compare_rows unmarshal diff db_query name q (suc i) rows actual) _ h3 in
      let (at_i, next) = get_elem?-drop i actual d in
      let same_row = some-injective (sym (or_panic-eq-ok _ found_a) ∙ at_i) in
      let none_found =
        (append-eq-nil (compare_db_response_row unmarshal diff db_query x y q) errs).0
          (ok-injective h4) in
      one_row x y (or_fail-eq-ok _ _ found_x)
        (ap unmarshal (sym same_row) ∙ or_fail-eq-ok _ _ found_y)
        ((row-eq-nil x y q).0 none_found.0)
        (rows_sound name q (suc i) rows actual post next (omega arith) (rest ∙ ap ok none_found.1))

  rows_complete :
      (name q : Text) (i : ℕ) (actual : List Text) {rows post : List Text}
      → drop i actual ≡ post
      → RowsAgree rows post
      → compare_rows unmarshal diff db_query name q i rows actual ≡ ok []
  unfolding compare_rows
  rows_complete name q i actual d no_row = refl
  rows_complete name q i actual d (one_row x y found_x found_y same rest) =
      let (at_i, next) = get_elem?-drop i actual d in
      rw
        (
          found_x,
          at_i,
          found_y,
          rows_complete name q (suc i) actual next rest,
          (row-eq-nil x y q).1 same,
        )
        refl

  RowsAgree-length : {rows actual : List Text} → RowsAgree rows actual → length rows ≡ length actual
  RowsAgree-length no_row = refl
  RowsAgree-length (one_row x y _ _ _ rest) = ap suc (RowsAgree-length rest)

  length-eq-nil :
      (rows actual : List Text) (q : Text)
      → (compare_db_response_length rows actual q ≡ []) ↔ (length rows ≡ length actual)
  unfolding compare_db_response_length
  length-eq-nil rows actual q = ground arith

  -- Nothing was asked for, or the query gave the expected rows.
  pub data DbAgrees (t : Test) : Type 0 where
    nothing : db_query_string t ≡ [] → db_response_json t ≡ none → DbAgrees t
    rows :
        (expected actual : List Text)
        → db_query_string t ≢ []
        → db_response_json t ≡ some expected
        → new_query unmarshal diff db_query (db_query_string t) ≡ ok actual
        → RowsAgree expected actual
        → DbAgrees t

  all_sound :
      (t : Test) (result r : Result) (expected : List Text) (errs : List ResultError)
      → compare_all unmarshal diff db_query t expected result errs ≡ ok ([], r)
      → (errs ≡ [])
        × (compare_rows unmarshal diff db_query t.definition.name result.db_query 0 expected
              result.db_response
            ≡ ok [])
  all_sound t result r expected (e ∷ errs) h = cc
  all_sound t result r expected [] h =
      let (errs, found, next) = >>=-eq-ok (compare_rows unmarshal diff db_query _ _ _ _ _) _ h in
      (refl, found ∙ ap (λ p. ok p.0) (ok-injective next))

  query_sound :
      (t : Test) (result r : Result) (expected : List Text)
      → check_query unmarshal diff db_query t result expected ≡ ok ([], r)
      → (actual : List Text) × (new_query unmarshal diff db_query (db_query_string t) ≡ ok actual)
        × RowsAgree expected actual
  query_sound t result r expected h =
      let (actual, found, h1) =
        >>=-eq-ok (new_query unmarshal diff db_query (db_query_string t)) _ h in
      let (same_length, same_rows) = all_sound t _ r expected _ h1 in
      (
        actual,
        found,
        rows_sound _ _ 0 expected actual actual refl
            ((length-eq-nil expected actual _).0 same_length) same_rows,
      )

  given_sound :
      (t : Test) (result r : Result) (q : Text) (o : Option (List Text))
      → db_query_string t ≡ q
      → db_response_json t ≡ o
      → check_given unmarshal diff db_query t result q o ≡ ok ([], r)
      → DbAgrees t
  given_sound t result r [] none eq eo h = nothing eq eo
  given_sound t result r [] (some expected) eq eo h = cc
  given_sound t result r (c ∷ q) none eq eo h = cc
  given_sound t result r (c ∷ q) (some expected) eq eo h =
      let (actual, found, agree) = query_sound t result r expected h in
      rows expected actual (λ e. cc (e, eq)) eo found agree

  query_complete :
      (t : Test) (result : Result) (expected actual : List Text)
      → new_query unmarshal diff db_query (db_query_string t) ≡ ok actual
      → RowsAgree expected actual
      → (r : Result) × (check_query unmarshal diff db_query t result expected ≡ ok ([], r))
  query_complete t result expected actual found agree = (
    record result { db_query = db_query_string t; db_response = actual },
    rw
        (
          found,
          (length-eq-nil expected actual (db_query_string t)).1 (RowsAgree-length agree),
          rows_complete t.definition.name (db_query_string t) 0 actual refl agree,
        )
        refl,
  )

  given_complete :
      (t : Test) (result : Result) (q : Text) (expected actual : List Text)
      → q ≢ []
      → new_query unmarshal diff db_query (db_query_string t) ≡ ok actual
      → RowsAgree expected actual
      → (r : Result) × (check_given unmarshal diff db_query t result q (some expected) ≡ ok ([], r))
  given_complete t result [] expected actual n found agree = absurd (n refl)
  given_complete t result (c ∷ q) expected actual n found agree =
      query_complete t result expected actual found agree

  check_complete :
      (t : Test) (result : Result)
      → DbAgrees t
      → (r : Result) × (check unmarshal diff db_query t result ≡ ok ([], r))
  unfolding check
  check_complete t result (nothing eq eo) = (result, rw (eq, eo) refl)
  check_complete t result (rows expected actual n eo found agree) =
      rw eo (given_complete t result (db_query_string t) expected actual n found agree)

  -- The checker of the database finds no error exactly where nothing was asked for, or the query of the test
  -- gave the expected rows, one by one.
  pub check-DbAgrees :
      (t : Test) (result : Result)
      → ((r : Result) × (check unmarshal diff db_query t result ≡ ok ([], r))) ↔ DbAgrees t
  unfolding check
  check-DbAgrees t result =
      (λ h. given_sound t result h.0 _ _ refl refl h.1, check_complete t result)
