-- ===== src/Mocks/Load/RoundTrip.antt =====
-- mocks/loader.go: loading what a description is written as.
use gonkey.Base.{◌≡◌, refl, ◌∙◌, true, false, Option, none, some, List, [], ◌∷◌}
use gonkey.Base.Text.{Text, codes, text_eq, text_beq}
use gonkey.Base.Dict.{Dict}
use gonkey.Base.Outcome.{Outcome, ok, fail, panic, ◌>>=◌}
use gonkey.Value.{Value, Runtime}
use gonkey.Yaml.{Yaml, Mapping, mapping}
use gonkey.Mocks.Constraint.{Verifier}
use gonkey.Mocks.Load.Keys.{LoadError, lookup_key, key_in, validate_map_keys}
use gonkey.Mocks.Load.Constraints.{
  load_constraint, load_body_matches_json_constraint, load_query_matches_constraint,
  load_method_is_constraint, load_header_is_constraint, load_constraint_of_kind, constraint_keys,
}
use gonkey.Mocks.Load.Definitions.{load_header_entries}
use gonkey.Mocks.Load.Printed.{
  ConstraintSpec, nop, method_is_get, method_is_post, body_matches_json, query_matches, method_is,
  header_is, optional, print_constraint, print_headers, denote_constraint,
}

-- A key that may be left out does not matter for the others, and may be there where it is allowed.
pub lookup-optional :
    (j key : Text) (o : Option Yaml) (m : Mapping)
    → text_beq key j ≡ false
    → lookup_key j (optional key o m) ≡ lookup_key j m
unfolding lookup_key
lookup-optional j key none m h = refl
lookup-optional j key (some v) m h = rw h refl

pub lookup-optional_self :
    (key : Text) (o : Option Yaml) (m : Mapping)
    → text_beq key key ≡ true
    → lookup_key key m ≡ none
    → lookup_key key (optional key o m) ≡ o
unfolding lookup_key
lookup-optional_self key none m h absent = absent
lookup-optional_self key (some v) m h absent = rw h refl

pub validate-optional :
    (allowed : List Text) (key : Text) (o : Option Yaml) (m : Mapping)
    → key_in key allowed ≡ true
    → validate_map_keys allowed m ≡ ok tt
    → validate_map_keys allowed (optional key o m) ≡ ok tt
unfolding validate_map_keys
validate-optional allowed key none m h valid = valid
validate-optional allowed key (some v) m h valid = rw h valid

pub print_headers-load :
    (headers : Dict Text Text) → load_header_entries (print_headers headers) ≡ ok headers
unfolding load_header_entries
print_headers-load [] = refl
print_headers-load ((k, v) ∷ headers) = rw (print_headers-load headers) refl

-- The two optional keys of a constraint on a header do not matter for each other.
module _ (rt : Runtime) (unmarshal : Text → Option Value)
    (parse_query : Text → Option (Dict Text (List Text))) where
  load_header-printed :
      (read_file : Text → Option Text) (header : Text) (value regexp : Option Text)
      → load_header_is_constraint rt unmarshal parse_query
          (print_constraint (header_is header value regexp))
        ≡ denote_constraint rt unmarshal parse_query read_file (header_is header value regexp)
  unfolding load_header_is_constraint print_constraint denote_constraint lookup_key text_beq
  load_header-printed read_file [] value regexp = refl
  load_header-printed read_file (c ∷ header) none none = refl
  load_header-printed read_file (c ∷ header) none (some []) = refl
  load_header-printed read_file (c ∷ header) none (some (d ∷ re)) = refl
  load_header-printed read_file (c ∷ header) (some value) none = refl
  load_header-printed read_file (c ∷ header) (some value) (some []) = refl
  load_header-printed read_file (c ∷ header) (some value) (some (d ∷ re)) = refl

  -- All the keys that a constraint is written with are allowed for its kind.
  checked-valid :
      (o : Outcome LoadError Verifier) (checked : Outcome LoadError (Unit {0}))
      → checked ≡ ok tt
      → (o >>= λ c. checked >>= λ _. ok c) ≡ o
  checked-valid (ok c) checked h = rw h refl
  checked-valid (fail e) checked h = refl
  checked-valid panic checked h = refl

  header-valid :
      (header : Text) (value regexp : Option Text)
      → validate_map_keys
          (constraint_keys (codes "headerIs"))
          (print_constraint (header_is header value regexp))
        ≡ ok tt
  unfolding validate_map_keys constraint_keys print_constraint text_beq key_in
  header-valid header none none = refl
  header-valid header none (some re) = refl
  header-valid header (some value) none = refl
  header-valid header (some value) (some re) = refl

  pub load_constraint-printed :
      (read_file : Text → Option Text) (c : ConstraintSpec)
      → load_constraint rt unmarshal parse_query (mapping (print_constraint c))
        ≡ denote_constraint rt unmarshal parse_query read_file c
  unfolding load_constraint load_constraint_of_kind constraint_keys lookup_key validate_map_keys
      print_constraint denote_constraint text_beq key_in load_body_matches_json_constraint
      load_query_matches_constraint load_method_is_constraint
  load_constraint-printed read_file nop = refl
  load_constraint-printed read_file method_is_get = refl
  load_constraint-printed read_file method_is_post = refl
  load_constraint-printed read_file (body_matches_json body) = checked-valid _ (ok tt) refl
  load_constraint-printed read_file (query_matches query) = checked-valid _ (ok tt) refl
  load_constraint-printed read_file (method_is []) = refl
  load_constraint-printed read_file (method_is (c ∷ method)) = refl
  load_constraint-printed read_file (header_is header value regexp) =
      checked-valid _ _ (header-valid header value regexp)
      ∙ load_header-printed read_file header value regexp
