-- ===== src/Mocks/Load/Constraints.antt =====
-- mocks/loader.go: the constraints of a definition.
use gonkey.Base.{ℕ, suc, Option, none, some, List, [], ◌∷◌, if◌then◌else◌, ◌==◌}
use gonkey.Base.Text.{Text, codes, text_eq}
use gonkey.Base.Dict.{Dict}
use gonkey.Base.Outcome.{Outcome, ok, fail, panic, or_fail, ◌>>=◌, ◌>>◌}
use gonkey.Value.{Value, Runtime}
use gonkey.Yaml.{Yaml, Mapping, mapping, as_string, as_seq}
use gonkey.Mocks.Constraint.{
  Verifier, BadConstraint, nop_constraint, method_constraint, new_body_matches_json,
  new_header_constraint, new_query_constraint,
}
use gonkey.Mocks.Load.Keys.{
  LoadError, lookup_key, validate_map_keys, string_or_fail, not_empty, must_be_map, must_be_string,
  unknown_constraint, bad_constraint, constraints_require_array, unable_to_load_constraint,
}

abbrev pub from_new : Outcome BadConstraint Verifier → Outcome LoadError Verifier
from_new (ok v) = ok v
from_new (fail e) = fail (bad_constraint e)
from_new panic = panic

-- A key that may be missing; the string of it, or the empty one.
abbrev optional_string : Text → Option Yaml → Outcome LoadError Text
optional_string key none = ok []
optional_string key (some v) = or_fail (must_be_string key) (as_string v)

abbrev optional_not_empty : Text → Option Yaml → Outcome LoadError Text
optional_not_empty key none = ok []
optional_not_empty key (some v) = or_fail (must_be_string key) (as_string v) >>= not_empty key

-- The keys that `loadConstraintOfKind` allows.
unfoldable pub constraint_keys : Text → List Text
constraint_keys kind =
    codes "kind"
    ∷ (if kind == codes "bodyMatchesJSON"
        then codes "body" ∷ []
        else if kind == codes "queryMatches"
        then codes "expectedQuery" ∷ []
        else if kind == codes "methodIs"
        then codes "method" ∷ []
        else if kind == codes "headerIs"
        then codes "header" ∷ codes "value" ∷ codes "regexp" ∷ []
        else [])

abbrev pub numbered : Text → ℕ → Outcome LoadError Verifier → Outcome LoadError Verifier
numbered path i (ok c) = ok c
numbered path i (fail e) = fail (unable_to_load_constraint path i e)
numbered path i panic = panic

module _ (rt : Runtime) (unmarshal : Text → Option Value)
    (parse_query : Text → Option (Dict Text (List Text))) where
  unfoldable pub load_body_matches_json_constraint : Mapping → Outcome LoadError Verifier
  unfolding lookup_key
  load_body_matches_json_constraint def = do
    body ← string_or_fail (codes "body") (lookup_key (codes "body") def)
    from_new (new_body_matches_json rt unmarshal body)

  unfoldable pub load_query_matches_constraint : Mapping → Outcome LoadError Verifier
  unfolding lookup_key
  load_query_matches_constraint def = do
    query ← string_or_fail (codes "expectedQuery") (lookup_key (codes "expectedQuery") def)
    from_new (new_query_constraint parse_query query)

  unfoldable pub load_method_is_constraint : Mapping → Outcome LoadError Verifier
  unfolding lookup_key
  load_method_is_constraint def = do
    method ← string_or_fail (codes "method") (lookup_key (codes "method") def)
    name ← not_empty (codes "method") method
    ok (method_constraint name)

  unfoldable pub load_header_is_constraint : Mapping → Outcome LoadError Verifier
  unfolding lookup_key
  load_header_is_constraint def = do
    text ← string_or_fail (codes "header") (lookup_key (codes "header") def)
    header ← not_empty (codes "header") text
    value ← optional_string (codes "value") (lookup_key (codes "value") def)
    regexp ← optional_not_empty (codes "regexp") (lookup_key (codes "regexp") def)
    from_new (new_header_constraint rt unmarshal header value regexp)

  -- The switch of `loadConstraintOfKind`.
  unfoldable pub load_constraint_of_kind : Text → Mapping → Outcome LoadError Verifier
  load_constraint_of_kind kind def =
      if kind == codes "nop"
      then ok nop_constraint
      else if kind == codes "bodyMatchesJSON"
      then load_body_matches_json_constraint def
      else if kind == codes "queryMatches"
      then load_query_matches_constraint def
      else if kind == codes "methodIsGET"
      then ok (method_constraint (codes "GET"))
      else if kind == codes "methodIsPOST"
      then ok (method_constraint (codes "POST"))
      else if kind == codes "methodIs"
      then load_method_is_constraint def
      else if kind == codes "headerIs"
      then load_header_is_constraint def
      else fail (unknown_constraint kind)

  unfoldable pub load_constraint : Yaml → Outcome LoadError Verifier
  unfolding load_constraint_of_kind constraint_keys
  load_constraint (mapping def) = do
    kind ← string_or_fail (codes "kind") (lookup_key (codes "kind") def)
    c ← load_constraint_of_kind kind def
    validate_map_keys (constraint_keys kind) def
    ok c
  load_constraint _ = fail must_be_map

  -- The loop of `loadDefinition`; the message counts from 1.
  unfoldable pub load_each_constraint : Text → ℕ → List Yaml → Outcome LoadError (List Verifier)
  unfolding load_constraint
  load_each_constraint path i [] = ok []
  load_each_constraint path i (c ∷ cs) = do
    constraint ← numbered path (suc i) (load_constraint c)
    rest ← load_each_constraint path (suc i) cs
    ok (constraint ∷ rest)

  abbrev not_empty_seq : Text → List Yaml → Outcome LoadError (List Verifier)
  not_empty_seq path [] = fail (constraints_require_array path)
  not_empty_seq path (c ∷ cs) = load_each_constraint path 0 (c ∷ cs)

  abbrev pub load_constraints : Text → Option Yaml → Outcome LoadError (List Verifier)
  load_constraints path none = ok []
  load_constraints path (some v) =
      or_fail (constraints_require_array path) (as_seq v) >>= not_empty_seq path
