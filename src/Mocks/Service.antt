-- ===== src/Mocks/Service.antt =====
-- mocks/service_mock.go and mocks.go: the services with their definitions, servers and collected errors.
use gonkey.Base.{Bool, Option, none, some, List, [], ◌∷◌, ◌++◌, map, if◌then◌else◌, ◌==◌}
use gonkey.Base.Text.{Text, codes, text_eq}
use gonkey.Base.Dict.{Dict, insert}
use gonkey.Base.Outcome.{Outcome, ok, fail, panic, ◌>>=◌}
use gonkey.Value.{Value, Runtime}
use gonkey.Mocks.Constraint.{ServerRequest}
use gonkey.Mocks.Definition.{
  Definition, MockError, service_error, Handled, new_definition, nop_reply, calls_no_constraint,
  execute, reset, end_context,
}

-- `mock` is a pointer to a definition that was set, or else to the default one, so that the requests of a
-- service without a set definition change its default one. The address stands for the server.
pub record ServiceMock : Type 0 where
  pub service_name : Text
  pub default_definition : Option Definition
  pub set : Option Definition
  pub errors : List MockError
  pub address : Option Text

-- A service by its fields.
abbrev pub service_with :
    Text → Option Definition → Option Definition → List MockError → Option Text → ServiceMock
service_with name default given errs addr = record {
  service_name = name;
  default_definition = default;
  set = given;
  errors = errs;
  address = addr;
}

unfoldable pub new_service_mock : Text → Option Definition → ServiceMock
new_service_mock name mock = record {
  service_name = name;
  default_definition = mock;
  set = none;
  errors = [];
  address = none;
}

unfoldable pub set_definition : Definition → ServiceMock → ServiceMock
set_definition def m = record m { set = some def }

unfoldable pub reset_definition : ServiceMock → ServiceMock
reset_definition m = record m { set = none }

abbrev or_default : Option Definition → Option Definition → Option Definition
or_default (some def) default = some def
or_default none default = default

abbrev pub mock : ServiceMock → Option Definition
mock m = or_default m.set m.default_definition

-- A change of the definition behind the pointer.
abbrev change : Option Definition → Definition → ServiceMock → ServiceMock
change (some old) def m = record m { set = some def }
change none def m = record m { default_definition = some def }

abbrev pub wrapped : Text → List MockError → List MockError
wrapped name errs = map (service_error name) errs

-- `ServerAddr` panics where the server is not started.
abbrev pub server_addr : ServiceMock → Option Text
server_addr m = m.address

pub data StartError : Type 0 where
  listen_failed : Text → StartError

abbrev pub with_address : Option Text → ServiceMock → Outcome StartError ServiceMock
with_address none m = fail (listen_failed m.service_name)
with_address (some addr) m = ok (record m { address = some addr })

-- `listen` is the address that `net.Listen` gives to a service, if it does.
unfoldable pub start_server : (Text → Option Text) → ServiceMock → Outcome StartError ServiceMock
start_server listen m = with_address (listen m.service_name) m

abbrev pub shut : Option Text → ServiceMock → Outcome StartError ServiceMock
shut none m = panic
shut (some addr) m = ok (record m { address = none })

-- A server that is not there panics.
unfoldable pub shutdown_server : ServiceMock → Outcome StartError ServiceMock
shutdown_server m = shut m.address m

-- `none` where there is no definition, which panics.
abbrev reset_mock : Option Definition → ServiceMock → Option ServiceMock
reset_mock none m = none
reset_mock (some def) m = some (change m.set (reset def) (record m { errors = [] }))

unfoldable pub reset_service : ServiceMock → Option ServiceMock
reset_service m = reset_mock (mock m) m

abbrev end_mock : Option Definition → ServiceMock → Option (List MockError)
end_mock none m = none
end_mock (some def) m = some (wrapped m.service_name (m.errors ++ end_context def))

-- The stored errors are wrapped once more, in place or in a copy; nothing reads them before the next reset.
unfoldable pub end_service : ServiceMock → Option (List MockError)
end_service m = end_mock (mock m) m

abbrev pub Mocks : Type 0
Mocks = Dict Text ServiceMock

unfoldable pub new_mocks : List ServiceMock → Mocks → Mocks
new_mocks [] mocks = mocks
new_mocks (v ∷ vs) mocks = new_mocks vs (insert v.service_name v mocks)

unfoldable pub new_nop : List Text → Mocks → Mocks
unfolding new_definition new_service_mock
new_nop [] mocks = mocks
new_nop (name ∷ names) mocks = new_nop names (
    insert name
      (new_service_mock name (some (new_definition (codes "$") [] nop_reply calls_no_constraint)))
      mocks)

unfoldable pub reset_definitions : Mocks → Mocks
unfolding reset_definition
reset_definitions [] = []
reset_definitions ((name, m) ∷ mocks) = (name, reset_definition m) ∷ reset_definitions mocks

abbrev pub cons_some : Text → Option ServiceMock → Option Mocks → Option Mocks
cons_some name (some m) (some mocks) = some ((name, m) ∷ mocks)
cons_some name _ _ = none

unfoldable pub reset_running_context : Mocks → Option Mocks
unfolding reset_service
reset_running_context [] = some []
reset_running_context ((name, m) ∷ mocks) =
    cons_some name (reset_service m) (reset_running_context mocks)

abbrev pub append_some : Option (List MockError) → Option (List MockError) → Option (List MockError)
append_some (some errs) (some more) = some (errs ++ more)
append_some _ _ = none

unfoldable pub end_running_context : Mocks → Option (List MockError)
unfolding end_service
end_running_context [] = some []
end_running_context ((name, m) ∷ mocks) = append_some (end_service m) (end_running_context mocks)

unfoldable pub shutdown : Mocks → Outcome StartError Mocks
unfolding shutdown_server
shutdown [] = ok []
shutdown ((name, m) ∷ mocks) = do
  m' ← shutdown_server m
  rest ← shutdown mocks
  ok ((name, m') ∷ rest)

abbrev pub after_failure : StartError → Outcome StartError Mocks → Outcome StartError Mocks
after_failure e (ok mocks) = fail e
after_failure e (fail e') = fail e'
after_failure e panic = panic

abbrev pub started_or :
    Outcome StartError ServiceMock
    → (ServiceMock → Outcome StartError Mocks)
    → (StartError → Outcome StartError Mocks)
    → Outcome StartError Mocks
started_or (ok m) next failed = next m
started_or (fail e) next failed = failed e
started_or panic next failed = panic

-- `Start` shuts all services down where one of them does not start: those before it, itself and those after.
unfoldable pub start_from : (Text → Option Text) → Mocks → Mocks → Outcome StartError Mocks
unfolding start_server shutdown
start_from listen before [] = ok before
start_from listen before ((name, m) ∷ mocks) =
    started_or (start_server listen m) (λ m'. start_from listen (before ++ (name, m') ∷ []) mocks)
      (λ e. after_failure e (shutdown (before ++ (name, m) ∷ mocks)))

unfoldable pub start : (Text → Option Text) → Mocks → Outcome StartError Mocks
start listen mocks = start_from listen [] mocks

module _ (rt : Runtime) (unmarshal : Text → Option Value) (equal_fold : Text → Text → Bool) where
  abbrev serve_mock : ServerRequest → Option Definition → ServiceMock → Handled ServiceMock
  serve_mock r none m = record { errors = []; written = []; left = m }
  serve_mock r (some def) m =
      let h = execute rt unmarshal equal_fold r def in
      record {
        errors = h.errors;
        written = h.written;
        left =
            change m.set h.left (record m { errors = m.errors ++ wrapped m.service_name h.errors });
      }

  -- `ServeHTTP`, which holds the lock of the service from its beginning to its end.
  unfoldable pub serve_http : ServerRequest → ServiceMock → Handled ServiceMock
  serve_http r m = serve_mock r (mock m) m

  -- The service of a name, with a request served.
  unfoldable pub serve_at : Text → ServerRequest → Mocks → Mocks
  unfolding serve_http
  serve_at service r [] = []
  serve_at service r ((name, m) ∷ mocks) =
      if name == service
      then (name, (serve_http r m).left) ∷ mocks
      else (name, m) ∷ serve_at service r mocks

-- `service.SetDefinition` on the service of a name.
unfoldable pub set_at : Text → Definition → Mocks → Mocks
unfolding set_definition
set_at service def [] = []
set_at service def ((name, m) ∷ mocks) =
    if name == service
    then (name, set_definition def m) ∷ mocks
    else (name, m) ∷ set_at service def mocks
