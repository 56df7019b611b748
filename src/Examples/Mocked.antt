-- ===== src/Examples/Mocked.antt =====
-- mocks/ on a concrete service, its definitions and requests.
use gonkey.Base.{ℤ, pos, ◌≡◌, refl, Option, none, some, List, [], ◌∷◌, if◌then◌else◌, ◌==◌}
use gonkey.Base.Text.{Text, codes, text_eq, text_beq}
use gonkey.Base.Dict.{Dict, lookup}
use gonkey.Base.Outcome.{ok, panic}
use gonkey.Value.{Value, nil}
use gonkey.Yaml.{Yaml, string, mapping, no_entries, entry}
use gonkey.Mocks.Constraint.{ServerRequest, Verifier, method_constraint, query_constraint}
use gonkey.Mocks.Definition.{
  Definition, definition, nop_reply, new_definition, uri_vary_reply, no_variants, variant, execute,
  reset, end_context,
}
use gonkey.Mocks.Calls.{serve_all, expected_errors, end_context-expected_errors}
use gonkey.Mocks.Accepts.{Accepts}
use gonkey.Mocks.Service.{
  set_definition, reset_definition, reset_definitions, reset_service, reset_running_context,
  serve_http, end_running_context, ServiceMock, Mocks, serve_at, set_at, start,
}
use gonkey.Mocks.Isolation.{fresh, Step, Reach, served, loaded, later, Reach-fresh}
use gonkey.Mocks.Isolation
use gonkey.Mocks.Tested.{serve_each}
use gonkey.Mocks.Errors.{LoadsAs, expected_of_all, test-expected_of_all}
use gonkey.Mocks.Reported.{answer, execute-serve_all}
use gonkey.Mocks.Starting.{start-listening}
use gonkey.Mocks.Load.Keys.{lookup_key, validate_map_keys, key_in}
use gonkey.Mocks.Load.Definitions.{load_definition, load_strategy, strategy_keys}
use gonkey.Mocks.Load.Services.{load}
use gonkey.Mocks.Load.Effect.{load-ok}
use gonkey.Mocks.Load.Printed.{
  Spec, spec, uri_vary, constant, no_specs, spec_at, method_is_get, print_spec, denote,
}
use gonkey.Mocks.Load.Denotes.{load_definition-print_spec}
use gonkey.Examples.Documents.{runtime}

abbrev unmarshal : Text → Option Value
unmarshal s = some nil

abbrev parse_query : Text → Option (Dict Text (List Text))
parse_query s = some ((s, codes "1" ∷ []) ∷ [])

abbrev read_file : Text → Option Text
read_file s = none

abbrev get_request : ServerRequest
get_request = record {
  method = codes "GET";
  url_path = codes "/a";
  query = (codes "id", codes "1" ∷ codes "2" ∷ []) ∷ [];
  header = λ k. [];
  body = some (codes "{}");
}

abbrev post_request : ServerRequest
post_request = record get_request { method = codes "POST" }

abbrev below : Definition
below = definition (codes "$.uriVary./a") [] nop_reply 0 (pos 1)

abbrev root : Definition
root =
    definition (codes "$") (method_constraint (codes "GET") ∷ [])
      (uri_vary_reply (codes "/") (variant (codes "a") below no_variants)) 0 (pos 3)

end_context-expected_errors_example :
    end_context
      (serve_all runtime unmarshal text_beq (get_request ∷ post_request ∷ []) (reset root))
    ≡ expected_errors runtime unmarshal text_beq root (get_request ∷ post_request ∷ [])
end_context-expected_errors_example =
    end_context-expected_errors runtime unmarshal text_beq root (get_request ∷ post_request ∷ [])

abbrev ids : Verifier
ids = query_constraint ((codes "id", codes "2" ∷ codes "1" ∷ []) ∷ [])

abbrev service : ServiceMock
service = record {
  service_name = codes "s";
  default_definition = some root;
  set = none;
  errors = [];
  address = none;
}

abbrev services : Mocks
services = (codes "s", service) ∷ []

abbrev used : Mocks
used =
    serve_at runtime unmarshal text_beq (codes "s") post_request (set_at (codes "s") below services)

reached : Reach runtime unmarshal text_beq services used
reached =
    later (later Isolation.start (loaded services (codes "s") below))
      (served _ (codes "s") post_request)

Reach-fresh_example : fresh used ≡ fresh services
Reach-fresh_example = Reach-fresh runtime unmarshal text_beq services used reached

execute-serve_all_example :
    answer (
      execute runtime unmarshal text_beq get_request
        (serve_all runtime unmarshal text_beq (post_request ∷ []) root))
    ≡ answer (execute runtime unmarshal text_beq get_request root)
execute-serve_all_example =
    execute-serve_all runtime unmarshal text_beq get_request (post_request ∷ []) root

abbrev two_services : Mocks
two_services = (codes "s", service) ∷ (codes "t", record service { service_name = codes "t" }) ∷ []

abbrev only_first : Text → Option Text
only_first name = if name == codes "s" then some (codes ":1") else none

start-listening_example : start only_first two_services ≡ panic
unfolding text_beq
start-listening_example = start-listening only_first two_services (refl, (refl, tt))

abbrev nop_document : Yaml
nop_document = mapping (entry (string (codes "strategy")) (string (codes "nop")) no_entries)

abbrev nop_definition : Definition
nop_definition = definition (codes "$") [] nop_reply 0 (ℤ.negsuc 0)

nop_loaded :
    load_definition runtime unmarshal parse_query read_file (codes "$") nop_document
    ≡ ok nop_definition
unfolding load_definition load_strategy strategy_keys lookup_key validate_map_keys text_beq key_in
    new_definition
nop_loaded = refl

load-ok_example :
    lookup (codes "s") (set_at (codes "s") nop_definition services)
    ≡ some (record service { set = some nop_definition })
unfolding load load_definition load_strategy strategy_keys lookup_key validate_map_keys text_beq
    key_in lookup set_at new_definition
load-ok_example =
    load-ok runtime unmarshal parse_query read_file ((codes "s", nop_document) ∷ []) services
      (set_at (codes "s") nop_definition services) (codes "s") (refl, tt) refl

abbrev description : Spec
description =
    spec (method_is_get ∷ [])
      (uri_vary (some (codes "/api")) (
        spec_at (codes "a")
          (spec [] (constant (codes "{}") (some (pos 201)) (some ((codes "k", codes "v") ∷ [])))
            (some (pos 1)))
          no_specs))
      none

load_definition-print_spec_example :
    load_definition runtime unmarshal parse_query read_file (codes "$") (print_spec description)
    ≡ denote runtime unmarshal parse_query read_file (codes "$") description
load_definition-print_spec_example =
    load_definition-print_spec runtime unmarshal parse_query read_file (codes "$") description

abbrev ready_services : Mocks
ready_services = (codes "s", service) ∷ []

abbrev loaded_services : Mocks
loaded_services = (codes "s", record service { set = some nop_definition }) ∷ []

abbrev documents : Dict Text Yaml
documents = (codes "s", nop_document) ∷ []

abbrev sent : List (Text × ServerRequest)
sent = (codes "s", post_request) ∷ []

used_ready : fresh used ≡ some ready_services
unfolding serve_at serve_http set_at set_definition reset_running_context reset_definitions
    reset_service reset_definition reset execute text_beq
used_ready = refl

loaded_by_documents :
    load runtime unmarshal parse_query read_file documents ready_services ≡ (loaded_services, ok tt)
unfolding load load_definition load_strategy strategy_keys lookup_key validate_map_keys text_beq
    key_in lookup set_at set_definition new_definition
loaded_by_documents = refl

test-expected_of_all_example :
    (sets : List (Text × Definition)) × LoadsAs runtime unmarshal text_beq parse_query read_file
      documents sets
    × (end_running_context (serve_each runtime unmarshal text_beq sent loaded_services)
        ≡ some (expected_of_all runtime unmarshal text_beq sets sent services))
test-expected_of_all_example =
    test-expected_of_all runtime unmarshal text_beq parse_query read_file documents sent services
      used ready_services loaded_services reached ((root, refl), tt) used_ready loaded_by_documents
