-- ===== src/Mocks/Load/Keys.antt =====
-- mocks/loader.go: the errors of the loader, and what it asks of the keys of a mapping.
use gonkey.Base.{ℕ, Bool, false, ◌||◌, Option, none, some, List, [], ◌∷◌, if◌then◌else◌, ◌==◌}
use gonkey.Base.Text.{Text, text_eq}
use gonkey.Base.Outcome.{Outcome, ok, fail, or_fail, or_panic, ◌>>=◌}
use gonkey.Yaml.{Yaml, Mapping, string, no_entries, entry, as_string}
use gonkey.Mocks.Constraint.{BadConstraint}

-- The arguments of each message; `requires_key` and `must_be_string` name the key of the message.
pub data LoadError : Type 0 where
  service_mock_not_defined : Text → LoadError
  unable_to_load_definition : Text → LoadError → LoadError
  definition_must_be_key_values : Text → LoadError
  constraints_require_array : Text → LoadError
  unable_to_load_constraint : Text → ℕ → LoadError → LoadError
  requires_strategy : Text → LoadError
  unknown_strategy unknown_constraint : Text → LoadError
  requires_map requires_key must_be_string : Text → LoadError
  headers_must_be_a_map headers_require_string_keys headers_require_string_values : LoadError
  must_be_map : LoadError
  bad_constraint : BadConstraint → LoadError
  unexpected_key : Text → List Text → LoadError

abbrev pub is_key : Text → Yaml → Bool
is_key key (string s) = s == key
is_key key _ = false

-- `v, ok := def[key]`
unfoldable pub lookup_key : Text → Mapping → Option Yaml
lookup_key key no_entries = none
lookup_key key (entry k v m) = if is_key key k then some v else lookup_key key m

unfoldable pub key_in : Text → List Text → Bool
key_in k [] = false
key_in k (ak ∷ allowed) = ak == k || key_in k allowed

-- A key that is not a string panics.
unfoldable pub validate_map_keys : List Text → Mapping → Outcome LoadError (Unit {0})
unfolding key_in
validate_map_keys allowed no_entries = ok tt
validate_map_keys allowed (entry key v m) = do
  k ← or_panic (as_string key)
  if key_in k allowed then validate_map_keys allowed m else fail (unexpected_key k allowed)

-- A key that must be there and have a string.
abbrev pub string_or_fail : Text → Option Yaml → Outcome LoadError Text
string_or_fail key none = fail (requires_key key)
string_or_fail key (some v) = or_fail (must_be_string key) (as_string v)

-- The same, and the string may not be empty.
abbrev pub not_empty : Text → Text → Outcome LoadError Text
not_empty key [] = fail (must_be_string key)
not_empty key (c ∷ s) = ok (c ∷ s)
