-- ===== src/Mocks/Load/Services.antt =====
-- mocks/loader.go: the definitions of a test case, put in place of those of the services they name.
use gonkey.Base.{Option, none, some, List, [], ◌∷◌}
use gonkey.Base.Text.{Text, codes, text_eq}
use gonkey.Base.Dict.{Dict, lookup}
use gonkey.Base.Outcome.{Outcome, ok, fail, panic}
use gonkey.Value.{Value, Runtime}
use gonkey.Yaml.{Yaml}
use gonkey.Mocks.Definition.{Definition}
use gonkey.Mocks.Service.{ServiceMock, Mocks, set_at}
use gonkey.Mocks.Load.Keys.{LoadError, service_mock_not_defined, unable_to_load_definition}
use gonkey.Mocks.Load.Definitions.{load_definition}

-- The mocks as `Load` leaves them, and its result: definitions that were set before an error stay.
abbrev pub Loaded : Type 0
Loaded = Mocks × Outcome LoadError (Unit {0})

abbrev pub with_service :
    Text
    → Option ServiceMock
    → Outcome LoadError Definition
    → (Definition → Loaded)
    → Mocks
    → Loaded
with_service name none def next mocks = (mocks, fail (service_mock_not_defined name))
with_service name (some m) (ok def) next mocks = next def
with_service name (some m) (fail e) next mocks = (mocks, fail (unable_to_load_definition name e))
with_service name (some m) panic next mocks = (mocks, panic)

module _ (rt : Runtime) (unmarshal : Text → Option Value)
    (parse_query : Text → Option (Dict Text (List Text))) (read_file : Text → Option Text) where
  unfoldable pub load : Dict Text Yaml → Mocks → Loaded
  unfolding load_definition set_at
  load [] mocks = (mocks, ok tt)
  load ((name, raw) ∷ mocks_definition) mocks =
      with_service name (lookup name mocks)
        (load_definition rt unmarshal parse_query read_file (codes "$") raw)
        (λ def. load mocks_definition (set_at name def mocks)) mocks
