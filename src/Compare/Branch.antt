-- ===== src/Compare/Branch.antt =====
-- `Compare`, `compareBranch` and the functions that compare leaves.
use gonkey.Base.{
  ℕ, zero, suc, Bool, true, false, not, ◌&&◌, ◌||◌, Option, none, some, List, [], ◌∷◌, ◌++◌,
  if◌then◌else◌, length, nat_beq, bool_beq, ◌==◌,
}
use gonkey.Base.Text.{Text, text_eq, codes, decimal, text_beq}
use gonkey.Value.{
  Value, nil, bool, float64, string, array, object, Items, Fields, no_fields, field, Runtime,
  elements, count_fields, find_field, depth,
}
use gonkey.Compare.Regex.{find_expr}
use gonkey.Compare.Represent.{sort_array}

pub record CompareParams : Type 0 where
  pub ignore_values : Bool
  pub ignore_arrays_ordering : Bool
  pub disallow_extra_fields : Bool

-- The zero value of the struct.
abbrev pub default_params : CompareParams
default_params = record {
  ignore_values = false;
  ignore_arrays_ordering = false;
  disallow_extra_fields = false;
}

-- The calls of `makeError`: the path, and what stands behind "expected" and "actual" for each of its
-- messages. The last one is the model's own: `compareBranch` runs on fuel.
pub data CompareError : Type 0 where
  types_do_not_match : Text → Text → Text → CompareError
  array_lengths_do_not_match : Text → ℕ → ℕ → CompareError
  map_lengths_do_not_match : Text → ℕ → ℕ → CompareError
  key_is_missing : Text → Text → CompareError
  values_do_not_match : Text → Value → Value → CompareError
  type_mismatch : Text → Text → CompareError
  can_not_compile_regex : Text → CompareError
  value_does_not_match_regex : Text → Value → Value → CompareError
  out_of_fuel : CompareError

abbrev pub get_type : Value → Text
get_type nil = codes "nil"
get_type (bool b) = codes "bool"
get_type (float64 x) = codes "float64"
get_type (string s) = codes "string"
get_type (array xs) = codes "array"
get_type (object fs) = codes "map"

unfoldable pub is_scalar_type : Text → Bool
unfolding text_beq
is_scalar_type t = not (t == codes "array" || t == codes "map")

-- `leafMatchType`: a text that is marked as a regular expression, or a pure value.
pub data LeafsMatchType : Type 0 where
  pure regex : LeafsMatchType

abbrev pub as_match_type : Option Text → LeafsMatchType
as_match_type none = pure
as_match_type (some e) = regex

unfoldable pub leaf_match_type : Value → LeafsMatchType
leaf_match_type (string s) = as_match_type (find_expr s)
leaf_match_type _ = pure

abbrev pub expr_or_empty : Option Text → Text
expr_or_empty none = []
expr_or_empty (some e) = e

unfoldable pub retrieve_regex_str : Text → Text
retrieve_regex_str s = expr_or_empty (find_expr s)

abbrev pub index_path : Text → ℕ → Text
index_path path i = path ++ (codes "[" ++ (decimal i ++ codes "]"))

abbrev pub key_path : Text → Text → Text
key_path path key = path ++ (codes "." ++ key)

-- `compareBranch` of a child, with the parameters that it hands down.
abbrev pub Recurse : Type 0
Recurse = Text → Value → Value → List CompareError

-- The loop over two arrays of one length.
unfoldable pub compare_elements : Recurse → Text → ℕ → List Value → List Value → List CompareError
compare_elements rec path i (e ∷ es) (a ∷ as') =
    rec (index_path path i) e a ++ compare_elements rec path (suc i) es as'
compare_elements rec path i _ _ = []

unfoldable pub compare_arrays : Recurse → Text → List Value → List Value → List CompareError
unfolding compare_elements
compare_arrays rec path es as' =
    if nat_beq (length es) (length as')
    then compare_elements rec path 0 es as'
    else array_lengths_do_not_match path (length es) (length as') ∷ []

-- One key of the expected map.
unfoldable pub compare_key : Recurse → Text → Text → Value → Option Value → List CompareError
compare_key rec path key expected none = key_is_missing path key ∷ []
compare_key rec path key expected (some actual) = rec (key_path path key) expected actual

unfoldable pub compare_keys : Recurse → Text → Fields → Fields → List CompareError
unfolding compare_key
compare_keys rec path no_fields actual = []
compare_keys rec path (field key v rest) actual =
    compare_key rec path key v (find_field key actual) ++ compare_keys rec path rest actual

unfoldable pub compare_maps : CompareParams → Recurse → Text → Fields → Fields → List CompareError
unfolding compare_keys
compare_maps params rec path expected actual =
    if params.disallow_extra_fields && not (nat_beq (count_fields expected) (count_fields actual))
    then map_lengths_do_not_match path (count_fields expected) (count_fields actual) ∷ []
    else compare_keys rec path expected actual

module _ (rt : Runtime) where
  -- `==` on two interface values. Arrays and maps do not reach it.
  unfoldable pub same_value : Value → Value → Bool
  same_value nil nil = true
  same_value (bool a) (bool b) = bool_beq a b
  same_value (float64 a) (float64 b) = rt.float_eq a b
  same_value (string s) (string t) = s == t
  same_value _ _ = false

  unfoldable pub compare_pure : Text → Value → Value → List CompareError
  unfolding same_value
  compare_pure path expected actual =
      if same_value expected actual then [] else values_do_not_match path expected actual ∷ []

  -- The last three steps of `compareRegex`: compile, match, report.
  unfoldable pub match_regex : Text → Option (Text → Bool) → Text → Text → List CompareError
  match_regex path none expected value = can_not_compile_regex path ∷ []
  match_regex path (some rx) expected value =
      if rx value then [] else value_does_not_match_regex path (string expected) (string value) ∷ []

  unfoldable pub compare_regex : Text → Value → Value → List CompareError
  unfolding match_regex retrieve_regex_str
  compare_regex path (string expected) (string value) =
      match_regex path (rt.compile_regexp (retrieve_regex_str expected)) expected value
  compare_regex path (string expected) actual = type_mismatch path (get_type actual) ∷ []
  compare_regex path expected actual = type_mismatch path (get_type expected) ∷ []

  abbrev compare_leaf_of : LeafsMatchType → Text → Value → Value → List CompareError
  compare_leaf_of pure = compare_pure
  compare_leaf_of regex = compare_regex

  unfoldable pub compare_leafs : Text → Value → Value → List CompareError
  unfolding compare_pure compare_regex leaf_match_type
  compare_leafs path expected actual =
      compare_leaf_of (leaf_match_type expected) path expected actual

  module _ (params : CompareParams) where
    abbrev pub arranged : Items → List Value
    arranged xs = if params.ignore_arrays_ordering then sort_array rt (elements xs) else elements xs

    -- The arrays and the maps; a scalar gets here where values are ignored.
    unfoldable pub compare_children : Recurse → Text → Value → Value → List CompareError
    compare_children rec path (array es) (array as') =
        compare_arrays rec path (arranged es) (arranged as')
    compare_children rec path (object es) (object as') = compare_maps params rec path es as'
    compare_children rec path expected actual = []

    unfoldable pub compare_branch : ℕ → Recurse
    compare_branch zero path expected actual = out_of_fuel ∷ []
    compare_branch (suc fuel) path expected actual =
        if not (get_type expected == get_type actual)
        then types_do_not_match path (get_type expected) (get_type actual) ∷ []
        else if is_scalar_type (get_type actual) && not params.ignore_values
        then compare_leafs path expected actual
        else compare_children (compare_branch fuel) path expected actual

  -- The fuel is the depth of the expected document, which each call lowers.
  unfoldable pub compare : Value → Value → CompareParams → List CompareError
  unfolding compare_branch is_scalar_type compare_leafs compare_children compare_arrays compare_maps
      sort_array
  compare expected actual params =
      compare_branch params (depth expected) (codes "$") expected actual
