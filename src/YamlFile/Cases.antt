-- ===== src/YamlFile/Cases.antt =====
-- testloader/yaml_file/parser.go: the tests of a definition, one for each of its cases.
use gonkey.Base.{ℕ, ℤ, suc, ◌≡◌, Option, none, some, List, [], ◌∷◌, ◌++◌, int_eq}
use gonkey.Base.Text.{Text, codes, decimal}
use gonkey.Base.Dict.{Dict, lookup, insert}
use gonkey.Base.Outcome.{Outcome, ok, or_fail, ◌>>=◌}
use gonkey.Models.{Args, CaseData, Test, TestDefinition}

pub data ParseError : Type 0 where
  read_failed bad_yaml bad_template stat_failed read_dir_failed db_response_failed : ParseError

-- What an execution that failed leaves, where its error is overwritten or never read.
abbrev pub text_or_empty : Option Text → Text
text_or_empty none = []
text_or_empty (some s) = s

-- `parse` is `template.Parse`; a template's `Execute` may fail.
module _ (parse : Text → Option (Args → Option Text)) where
  -- A template that is parsed and executed at once, with the error of its execution dropped.
  unfoldable pub fill : Text → Args → Outcome ParseError Text
  fill tmpl args = do t ← or_fail bad_template (parse tmpl); ok (text_or_empty (t args))

  abbrev response_for : Text → Option Args → Outcome ParseError Text
  response_for tpl none = ok tpl
  response_for tpl (some args) = fill tpl args

  -- The loop over the responses: those without arguments are taken as they are.
  unfoldable pub fill_responses :
      Dict ℤ Args → Dict ℤ Text → Dict ℤ Text → Outcome ParseError (Dict ℤ Text)
  unfolding fill
  fill_responses args [] responses = ok responses
  fill_responses args ((status, tpl) ∷ tmpls) responses = do
    response ← response_for tpl (lookup status args)
    fill_responses args tmpls (insert status response responses)

  -- Here the error of an execution counts.
  unfoldable pub fill_db_response : Args → List Text → Outcome ParseError (List Text)
  fill_db_response args [] = ok []
  fill_db_response args (tpl ∷ tmpls) = do
    t ← or_fail bad_template (parse tpl)
    row ← or_fail db_response_failed (t args)
    rows ← fill_db_response args tmpls
    ok (row ∷ rows)

  -- A nil or empty list of the definition stays as it is.
  abbrev db_response_tmpls : Args → Option (List Text) → Outcome ParseError (Option (List Text))
  db_response_tmpls args none = ok none
  db_response_tmpls args (some []) = ok (some [])
  db_response_tmpls args (some (tpl ∷ tmpls)) = do
    rows ← fill_db_response args (tpl ∷ tmpls)
    ok (some rows)

  abbrev db_response_of :
      CaseData → Option (List Text) → Option (List Text) → Outcome ParseError (Option (List Text))
  db_response_of c (some rows) tmpls = ok (some rows)
  db_response_of c none tmpls = db_response_tmpls c.db_response_args tmpls

  abbrev pub case_name : Text → ℕ → Text
  case_name name i = name ++ (codes " #" ++ decimal i)

  unfoldable pub make_case :
      TestDefinition → (Args → Option Text) → ℕ → CaseData → Outcome ParseError Test
  unfolding fill_responses fill_db_response
  make_case d request_tmpl i c = do
    responses ← fill_responses c.response_args d.response_tmpls []
    before_script ← fill d.before_script_params.path_tmpl c.before_script_args
    db_query ← fill d.db_query_tmpl c.db_query_args
    db_response ← db_response_of c c.db_response d.db_response_tmpl
    ok (record {
      definition = record d { name = case_name d.name i };
      request = text_or_empty (request_tmpl c.request_args);
      responses = responses;
      response_headers = d.response_headers;
      before_script = before_script;
      db_query = db_query;
      db_response = db_response;
    })

  unfoldable pub make_cases :
      TestDefinition → (Args → Option Text) → ℕ → List CaseData → Outcome ParseError (List Test)
  make_cases d request_tmpl i [] = ok []
  make_cases d request_tmpl i (c ∷ cases) = do
    test ← make_case d request_tmpl i c
    tests ← make_cases d request_tmpl (suc i) cases
    ok (test ∷ tests)

  abbrev pub as_it_is : TestDefinition → Test
  as_it_is d = record {
    definition = d;
    request = d.request_tmpl;
    responses = d.response_tmpls;
    response_headers = d.response_headers;
    before_script = d.before_script_params.path_tmpl;
    db_query = d.db_query_tmpl;
    db_response = d.db_response_tmpl;
  }

  abbrev tests_of : TestDefinition → List CaseData → Outcome ParseError (List Test)
  tests_of d [] = ok (as_it_is d ∷ [])
  tests_of d (c ∷ cases) = do
    request_tmpl ← or_fail bad_template (parse d.request_tmpl)
    make_cases d request_tmpl 0 (c ∷ cases)

  unfoldable pub make_test_from_definition : TestDefinition → Outcome ParseError (List Test)
  unfolding make_case make_cases
  make_test_from_definition d = tests_of d d.cases

  -- The loop over the definitions of a file.
  unfoldable pub make_tests : List TestDefinition → Outcome ParseError (List Test)
  make_tests [] = ok []
  make_tests (d ∷ definitions) = do
    test_cases ← make_test_from_definition d
    tests ← make_tests definitions
    ok (test_cases ++ tests)

  -- The one test of a definition without cases.
  abbrev pub AsGiven : TestDefinition → Test → Type 0
  AsGiven d test =
      (test.definition ≡ d)
      × (test.request ≡ d.request_tmpl)
      × (test.responses ≡ d.response_tmpls)
      × (test.response_headers ≡ d.response_headers)
      × (test.before_script ≡ d.before_script_params.path_tmpl)
      × (test.db_query ≡ d.db_query_tmpl)
      × (test.db_response ≡ d.db_response_tmpl)

  -- What the execution of a template gives: the empty text where it fails.
  abbrev pub Executes : Option Text → Text → Type 0
  Executes none s = s ≡ []
  Executes (some text) s = s ≡ text

  abbrev pub Fills : Text → Args → Text → Type 0
  Fills tmpl args s = (t : Args → Option Text) × (parse tmpl ≡ some t) × Executes (t args) s

  -- The test of the case with number `i`.
  abbrev pub OfCase : TestDefinition → ℕ → CaseData → Test → Type 0
  OfCase d i c test =
      (test.definition ≡ record d { name = d.name ++ (codes " #" ++ decimal i) })
      × Fills d.request_tmpl c.request_args test.request
      × Fills d.before_script_params.path_tmpl c.before_script_args test.before_script
      × Fills d.db_query_tmpl c.db_query_args test.db_query
      × (test.response_headers ≡ d.response_headers)

  -- The tests of the cases `i` and on, by number.
  pub data Numbered (d : TestDefinition) : ℕ → List CaseData → List Test → Type 0 where
    no_case : {i : ℕ} → Numbered d i [] []
    one_case :
        {i : ℕ} {c : CaseData} {cases : List CaseData} {tests : List Test} (test : Test)
        → OfCase d i c test
        → Numbered d (suc i) cases tests
        → Numbered d i (c ∷ cases) (test ∷ tests)
