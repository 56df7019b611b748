-- ===== src/Mocks/Load/Definitions.antt =====
-- mocks/loader.go: the definitions with their strategies. Looking a key up and loading the mapping that is found
-- there are one recursion here, which follows the structure of the document.
use gonkey.Base.{ℤ, pos, Option, none, some, List, [], ◌∷◌, ◌++◌, if◌then◌else◌, ◌==◌}
use gonkey.Base.Text.{Text, codes, text_eq}
use gonkey.Base.Dict.{Dict}
use gonkey.Base.Outcome.{Outcome, ok, fail, or_fail, or_panic, ◌>>=◌, ◌>>◌}
use gonkey.Value.{Value, Runtime}
use gonkey.Yaml.{Yaml, Mapping, no_entries, entry, mapping, int, as_string, as_int}
use gonkey.Mocks.Definition.{
  Definition, Reply, Variants, no_variants, variant, nop_reply, new_definition, new_uri_vary_reply,
  new_method_vary_reply, new_constant_reply, new_file_reply, calls_no_constraint,
}
use gonkey.Mocks.Load.Keys.{
  LoadError, is_key, lookup_key, validate_map_keys, string_or_fail, definition_must_be_key_values,
  requires_strategy, unknown_strategy, requires_map, headers_must_be_a_map,
  headers_require_string_keys, headers_require_string_values,
}
use gonkey.Mocks.Load.Constraints.{load_constraints}

abbrev pub strategy_name : Text → Option Yaml → Outcome LoadError Text
strategy_name path none = fail (requires_strategy path)
strategy_name path (some v) = or_fail (requires_strategy path) (as_string v)

-- `calls` counts only where it is an integer.
abbrev pub calls_constraint : Option Yaml → ℤ
calls_constraint (some (int n)) = n
calls_constraint _ = calls_no_constraint

abbrev pub status_code : Option Yaml → Outcome LoadError ℤ
status_code none = ok (pos 200)
status_code (some v) = or_panic (as_int v)

abbrev pub base_path : Option Yaml → Outcome LoadError Text
base_path none = ok []
base_path (some v) = or_panic (as_string v)

-- The keys of a mapping are distinct, so each assignment adds an entry.
unfoldable pub load_header_entries : Mapping → Outcome LoadError (Dict Text Text)
load_header_entries no_entries = ok []
load_header_entries (entry k v m) = do
  key ← or_fail headers_require_string_keys (as_string k)
  value ← or_fail headers_require_string_values (as_string v)
  rest ← load_header_entries m
  ok ((key, value) ∷ rest)

abbrev pub load_headers : Option Yaml → Outcome LoadError (Dict Text Text)
load_headers none = ok []
load_headers (some (mapping m)) = load_header_entries m
load_headers (some _) = fail headers_must_be_a_map

unfoldable pub strategy_keys : Text → List Text
strategy_keys name =
    codes "requestConstraints"
    ∷ codes "strategy"
    ∷ codes "calls"
    ∷ (if name == codes "uriVary"
        then codes "basePath" ∷ codes "uris" ∷ []
        else if name == codes "methodVary"
        then codes "methods" ∷ []
        else if name == codes "file"
        then codes "filename" ∷ codes "statusCode" ∷ codes "headers" ∷ []
        else if name == codes "constant"
        then codes "body" ∷ codes "statusCode" ∷ codes "headers" ∷ []
        else [])

unfoldable pub load_constant_strategy : Mapping → Outcome LoadError Reply
unfolding lookup_key load_header_entries
load_constant_strategy def = do
  body ← string_or_fail (codes "body") (lookup_key (codes "body") def)
  status ← status_code (lookup_key (codes "statusCode") def)
  headers ← load_headers (lookup_key (codes "headers") def)
  ok (new_constant_reply body status headers)

unfoldable pub load_file_strategy : (Text → Option Text) → Mapping → Outcome LoadError Reply
unfolding lookup_key load_header_entries new_file_reply
load_file_strategy read_file def = do
  filename ← string_or_fail (codes "filename") (lookup_key (codes "filename") def)
  status ← status_code (lookup_key (codes "statusCode") def)
  headers ← load_headers (lookup_key (codes "headers") def)
  ok (new_file_reply read_file filename status headers)

-- `below` loads the mapping that stands under a key, at the path of the strategy.
unfoldable pub load_uri_vary_strategy :
    Mapping → (Text → Outcome LoadError Variants) → Outcome LoadError Reply
unfolding lookup_key new_uri_vary_reply
load_uri_vary_strategy def below = do
  base ← base_path (lookup_key (codes "basePath") def)
  uris ← below (codes "uris")
  ok (new_uri_vary_reply base uris)

unfoldable pub load_method_vary_strategy :
    (Text → Outcome LoadError Variants) → Outcome LoadError Reply
load_method_vary_strategy below = do
  methods ← below (codes "methods")
  ok (new_method_vary_reply methods)

-- `read_file` is `ioutil.ReadFile`.
unfoldable pub load_strategy :
    (Text → Option Text)
    → Text
    → Mapping
    → (Text → Outcome LoadError Variants)
    → Outcome LoadError Reply
unfolding load_uri_vary_strategy load_method_vary_strategy load_file_strategy load_constant_strategy
load_strategy read_file name def below =
    if name == codes "nop"
    then ok nop_reply
    else if name == codes "uriVary"
    then load_uri_vary_strategy def below
    else if name == codes "methodVary"
    then load_method_vary_strategy below
    else if name == codes "file"
    then load_file_strategy read_file def
    else if name == codes "constant"
    then load_constant_strategy def
    else fail (unknown_strategy name)

module _ (rt : Runtime) (unmarshal : Text → Option Value)
    (parse_query : Text → Option (Dict Text (List Text))) (read_file : Text → Option Text) where
  unfoldable mutual
    pub load_definition : Text → Yaml → Outcome LoadError Definition
    load_definition path (mapping def) = do
      constraints ←
          load_constraints rt unmarshal parse_query path
            (lookup_key (codes "requestConstraints") def)
      name ← strategy_name path (lookup_key (codes "strategy") def)
      reply ←
          load_strategy read_file name def (λ key. load_below key (path ++ (codes "." ++ name)) def)
      validate_map_keys (strategy_keys name) def
      ok (new_definition path constraints reply (calls_constraint (lookup_key (codes "calls") def)))
    load_definition path _ = fail (definition_must_be_key_values path)

    -- The mapping that stands under a key.
    pub load_below : Text → Text → Mapping → Outcome LoadError Variants
    load_below key path no_entries = ok no_variants
    load_below key path (entry k v m) =
        if is_key key k then load_variants key path v else load_below key path m

    pub load_variants : Text → Text → Yaml → Outcome LoadError Variants
    load_variants key path (mapping m) = load_entries path m
    load_variants key path _ = fail (requires_map key)

    pub load_entries : Text → Mapping → Outcome LoadError Variants
    load_entries path no_entries = ok no_variants
    load_entries path (entry k v m) = do
      name ← or_panic (as_string k)
      def ← load_definition (path ++ (codes "." ++ name)) v
      rest ← load_entries path m
      ok (variant name def rest)
