-- ===== src/Fixtures/World.antt =====
-- What the fixtures loader stands on: the file system, the YAML and JSON packages, the database; and
-- its error values.
use gonkey.Base.{ℕ, Bool, Option, List}
use gonkey.Base.Text.{Text}
use gonkey.Base.Dict.{Dict}
use gonkey.Base.Outcome.{Outcome}
use gonkey.Yaml.{Yaml}
use gonkey.Fixtures.Row.{Any}

pub record Fixture : Type 0 where
  pub inherits : List Text
  pub tables : List (Yaml × Yaml)
  pub templates : List (Yaml × Yaml)

pub data FixtureError : Type 0 where
  unable_to_load : Text → FixtureError → FixtureError
  stat_failed read_failed bad_yaml begin_failed scan_failed bad_row_json : FixtureError
  expected_array marshal_failed : FixtureError
  duplicating_template duplicating_ref : Text → FixtureError
  undefined_reference undefined_field invalid_reference incorrect_eval : Text → FixtureError
  exec_failed query_failed : Text → FixtureError
  unable_to_process : Text → ℕ → Text → FixtureError → FixtureError
  -- The model's own: the recursion over the files runs on fuel.
  out_of_fuel : FixtureError

abbrev pub Result : Type 0 → Type 0
Result A = Outcome FixtureError A

-- The statements that reach the database, in order.
pub data Event : Type 0 where
  begin : Event
  exec : Text → Event
  query : Text → Event
  commit : Event
  rollback : Event

-- `stat` tells whether `os.Stat` succeeds. The database answers by what was sent to it so far: an
-- `Exec` succeeds or not, a `Query` fails or gives rows, each with the text that `Scan` reads.
pub record World : Type 0 where
  pub stat : Text → Bool
  pub read_file : Text → Option Text
  pub unmarshal : Text → Option Fixture
  pub marshal : Any → Option Text
  pub format_float : ℕ → Text
  pub begin_ok : Bool
  pub exec_ok : List Event → Text → Bool
  pub query_rows : List Event → Text → Option (List (Option Text))
  pub decode_row : Text → Option (Dict Text Any)
