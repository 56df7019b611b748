-- ===== src/Mocks/Load/Printed.antt =====
-- mocks/loader.go: the documents that the loader is for, as typed descriptions, and how they are written in YAML.
use gonkey.Base.{ℕ, ℤ, pos, suc, Option, none, some, List, [], ◌∷◌, ◌++◌}
use gonkey.Base.Text.{Text, codes}
use gonkey.Base.Dict.{Dict}
use gonkey.Base.Outcome.{Outcome, ok, ◌>>=◌}
use gonkey.Value.{Value, Runtime}
use gonkey.Yaml.{Yaml, Seq, Mapping, int, string, seq, mapping, no_nodes, node, no_entries, entry}
use gonkey.Mocks.Constraint.{
  Verifier, nop_constraint, method_constraint, new_body_matches_json, new_header_constraint,
  new_query_constraint,
}
use gonkey.Mocks.Definition.{
  Definition, Reply, Variants, definition, nop_reply, constant_reply, method_vary_reply,
  no_variants, variant, new_uri_vary_reply, new_file_reply, calls_no_constraint,
}
use gonkey.Mocks.Load.Keys.{LoadError, not_empty}
use gonkey.Mocks.Load.Constraints.{from_new, numbered}

-- A constraint of each kind; the options are the keys that may be left out.
pub data ConstraintSpec : Type 0 where
  nop method_is_get method_is_post : ConstraintSpec
  body_matches_json query_matches method_is : Text → ConstraintSpec
  header_is : Text → Option Text → Option Text → ConstraintSpec

-- A definition: its constraints, its strategy and the calls it expects.
mutual
  pub data Spec : Type 0 where
    spec : List ConstraintSpec → Strategy → Option ℤ → Spec

  pub data Strategy : Type 0 where
    nop_strategy : Strategy
    constant file : Text → Option ℤ → Option (Dict Text Text) → Strategy
    uri_vary : Option Text → Specs → Strategy
    method_vary : Specs → Strategy

  pub data Specs : Type 0 where
    no_specs : Specs
    spec_at : Text → Spec → Specs → Specs

-- An entry that may be left out.
abbrev pub optional : Text → Option Yaml → Mapping → Mapping
optional key none m = m
optional key (some v) m = entry (string key) v m

abbrev pub text_node : Option Text → Option Yaml
text_node none = none
text_node (some s) = some (string s)

abbrev pub int_node : Option ℤ → Option Yaml
int_node none = none
int_node (some n) = some (int n)

unfoldable pub print_constraint : ConstraintSpec → Mapping
print_constraint nop = entry (string (codes "kind")) (string (codes "nop")) no_entries
print_constraint method_is_get =
    entry (string (codes "kind")) (string (codes "methodIsGET")) no_entries
print_constraint method_is_post =
    entry (string (codes "kind")) (string (codes "methodIsPOST")) no_entries
print_constraint (body_matches_json body) =
    entry (string (codes "kind")) (string (codes "bodyMatchesJSON"))
      (entry (string (codes "body")) (string body) no_entries)
print_constraint (query_matches query) =
    entry (string (codes "kind")) (string (codes "queryMatches"))
      (entry (string (codes "expectedQuery")) (string query) no_entries)
print_constraint (method_is method) =
    entry (string (codes "kind")) (string (codes "methodIs"))
      (entry (string (codes "method")) (string method) no_entries)
print_constraint (header_is header value regexp) =
    entry (string (codes "kind")) (string (codes "headerIs")) (
      entry (string (codes "header")) (string header) (
        optional (codes "value") (text_node value)
          (optional (codes "regexp") (text_node regexp) no_entries)))

abbrev pub print_constraints : List ConstraintSpec → Seq
print_constraints [] = no_nodes
print_constraints (c ∷ cs) = node (mapping (print_constraint c)) (print_constraints cs)

-- No constraints are written as no key.
abbrev pub constraints_node : List ConstraintSpec → Option Yaml
constraints_node [] = none
constraints_node (c ∷ cs) = some (seq (print_constraints (c ∷ cs)))

abbrev pub print_headers : Dict Text Text → Mapping
print_headers [] = no_entries
print_headers ((k, v) ∷ headers) = entry (string k) (string v) (print_headers headers)

abbrev pub headers_node : Option (Dict Text Text) → Option Yaml
headers_node none = none
headers_node (some headers) = some (mapping (print_headers headers))

abbrev pub name_of : Strategy → Text
name_of nop_strategy = codes "nop"
name_of (constant body status headers) = codes "constant"
name_of (file filename status headers) = codes "file"
name_of (uri_vary base uris) = codes "uriVary"
name_of (method_vary methods) = codes "methodVary"

-- The keys that all strategies share, before those of the strategy.
abbrev pub common : List ConstraintSpec → Text → Option ℤ → Mapping → Mapping
common cs name calls m =
    optional (codes "requestConstraints") (constraints_node cs) (
      entry (string (codes "strategy")) (string name) (optional (codes "calls") (int_node calls) m))

abbrev pub reply_keys : Text → Text → Option ℤ → Option (Dict Text Text) → Mapping
reply_keys key text status headers = entry (string key) (string text) (
    optional (codes "statusCode") (int_node status)
      (optional (codes "headers") (headers_node headers) no_entries))

unfoldable mutual
  pub print_spec : Spec → Yaml
  print_spec (spec cs strategy calls) =
      mapping (common cs (name_of strategy) calls (print_strategy strategy))

  pub print_strategy : Strategy → Mapping
  print_strategy nop_strategy = no_entries
  print_strategy (constant body status headers) = reply_keys (codes "body") body status headers
  print_strategy (file filename status headers) =
      reply_keys (codes "filename") filename status headers
  print_strategy (uri_vary base uris) =
      optional (codes "basePath") (text_node base) (print_below (codes "uris") uris)
  print_strategy (method_vary methods) = print_below (codes "methods") methods

  -- No definitions are written as no key.
  pub print_below : Text → Specs → Mapping
  print_below key no_specs = no_entries
  print_below key (spec_at name s rest) =
      entry (string key) (mapping (entry (string name) (print_spec s) (print_specs rest)))
        no_entries

  pub print_specs : Specs → Mapping
  print_specs no_specs = no_entries
  print_specs (spec_at name s rest) = entry (string name) (print_spec s) (print_specs rest)

abbrev pub or_else {ℓ} : {A : Type ℓ} → A → Option A → A
or_else default none = default
or_else default (some a) = a

abbrev pub not_empty_if : Text → Option Text → Outcome LoadError Text
not_empty_if key none = ok []
not_empty_if key (some s) = not_empty key s

-- What each description means. Besides the constructors of the constraints, only the strings that may not be
-- empty can fail.
module _ (rt : Runtime) (unmarshal : Text → Option Value)
    (parse_query : Text → Option (Dict Text (List Text))) (read_file : Text → Option Text) where
  unfoldable pub denote_constraint : ConstraintSpec → Outcome LoadError Verifier
  denote_constraint nop = ok nop_constraint
  denote_constraint method_is_get = ok (method_constraint (codes "GET"))
  denote_constraint method_is_post = ok (method_constraint (codes "POST"))
  denote_constraint (body_matches_json body) = from_new (new_body_matches_json rt unmarshal body)
  denote_constraint (query_matches query) = from_new (new_query_constraint parse_query query)
  denote_constraint (method_is method) =
      not_empty (codes "method") method >>= λ name. ok (method_constraint name)
  denote_constraint (header_is header value regexp) = do
    name ← not_empty (codes "header") header
    re ← not_empty_if (codes "regexp") regexp
    from_new (new_header_constraint rt unmarshal name (or_else [] value) re)

  abbrev pub denote_constraints : Text → ℕ → List ConstraintSpec → Outcome LoadError (List Verifier)
  denote_constraints path i [] = ok []
  denote_constraints path i (c ∷ cs) = do
    constraint ← numbered path (suc i) (denote_constraint c)
    rest ← denote_constraints path (suc i) cs
    ok (constraint ∷ rest)

  unfoldable mutual
    pub denote : Text → Spec → Outcome LoadError Definition
    denote path (spec cs strategy calls) = do
      verifiers ← denote_constraints path 0 cs
      reply ← denote_strategy (path ++ (codes "." ++ name_of strategy)) strategy
      ok (definition path verifiers reply 0 (or_else calls_no_constraint calls))

    pub denote_strategy : Text → Strategy → Outcome LoadError Reply
    denote_strategy path nop_strategy = ok nop_reply
    denote_strategy path (constant body status headers) =
        ok (constant_reply body (or_else (pos 200) status) (or_else [] headers))
    denote_strategy path (file filename status headers) =
        ok (new_file_reply read_file filename (or_else (pos 200) status) (or_else [] headers))
    denote_strategy path (uri_vary base uris) =
        denote_specs path uris >>= λ variants. ok (new_uri_vary_reply (or_else [] base) variants)
    denote_strategy path (method_vary methods) =
        denote_specs path methods >>= λ variants. ok (method_vary_reply variants)

    pub denote_specs : Text → Specs → Outcome LoadError Variants
    denote_specs path no_specs = ok no_variants
    denote_specs path (spec_at name s rest) = do
      def ← denote (path ++ (codes "." ++ name)) s
      variants ← denote_specs path rest
      ok (variant name def variants)
