-- ===== src/Examples/Files.antt =====
-- testloader/yaml_file/ on a concrete directory and definition.
use gonkey.Base.{◌≡◌, Option, none, some, List, [], ◌∷◌, int_eq}
use gonkey.Base.Text.{Text, codes}
use gonkey.Models.{Args, CaseData, Test, TestDefinition}
use gonkey.YamlFile.Cases.{as_it_is}
use gonkey.YamlFile.Walk.{
  Node, file, dir, no_entries, entry, parse_tests_with_cases, parse_all, Selects,
  parse_tests-selected,
}
use gonkey.Examples.Running.{definition}

-- A template whose execution fails.
abbrev template : Text → Option (Args → Option Text)
template s = some (λ args. none)

abbrev one_case : CaseData
one_case = record {
  request_args = [];
  response_args = [];
  before_script_args = [];
  db_query_args = [];
  db_response_args = [];
  db_response = none;
}

abbrev with_case : TestDefinition
with_case = record definition { cases = one_case ∷ [] }

abbrev made : Test
made = record (as_it_is template with_case) {
  definition = record with_case { name = codes "create #0" };
  request = [];
}

abbrev cases_dir : Node
cases_dir = dir (
    entry (codes "a.yml") file
      (entry (codes "notes.txt") file (entry (codes "b.yaml") file no_entries)))

abbrev read : Text → Option Text
read path = some []

abbrev no_definitions : Text → Option (List TestDefinition)
no_definitions content = some []

parse_tests-selected_example :
    (files : List (Option Text)) × Selects read no_definitions template
      (codes "b")
      (codes "cases")
      cases_dir
      files
    × (parse_tests_with_cases read no_definitions template
          (codes "b")
          (codes "cases")
          (some cases_dir)
        ≡ parse_all read no_definitions template (codes "b") files)
parse_tests-selected_example =
    parse_tests-selected read no_definitions template (codes "b") (codes "cases") cases_dir
