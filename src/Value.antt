-- ===== src/Value.antt =====
-- What `encoding/json` decodes into an `interface{}`: the documents that the package compare/ walks.
-- A float64 is the number that its 64 bits spell; what the program asks of it is in `Runtime`.
use gonkey.Base.{ℕ, suc, max, Bool, List, [], ◌∷◌, Option, none, some, if◌then◌else◌}
use gonkey.Base.{◌==◌}
use gonkey.Base.Text.{Text, text_eq}

mutual
  pub data Value : Type 0 where
    nil : Value
    bool : Bool → Value
    float64 : ℕ → Value
    string : Text → Value
    array : Items → Value
    object : Fields → Value

  pub data Items : Type 0 where
    no_items : Items
    item : Value → Items → Items

  -- The entries of a `map[string]interface{}`, in the order in which the program visits them.
  pub data Fields : Type 0 where
    no_fields : Fields
    field : Text → Value → Fields → Fields

-- What the program takes from Go's runtime on numbers and patterns: `==` on float64 (no reflexive
-- test, because of NaN), the verb %v on it, and a pattern of the package regexp with its
-- `MatchString` (`none` where `regexp.Compile` refuses it).
pub record Runtime : Type 0 where
  pub float_eq : ℕ → ℕ → Bool
  pub format_float : ℕ → Text
  pub compile_regexp : Text → Option (Text → Bool)

abbrev pub elements : Items → List Value
elements no_items = []
elements (item v xs) = v ∷ elements xs

abbrev pub count_fields : Fields → ℕ
count_fields no_fields = 0
count_fields (field k v fs) = suc (count_fields fs)

unfoldable pub find_field : Text → Fields → Option Value
find_field k no_fields = none
find_field k (field j v fs) = if j == k then some v else find_field k fs

-- How deep a document nests.
unfoldable mutual
  pub depth : Value → ℕ
  depth nil = 1
  depth (bool b) = 1
  depth (float64 x) = 1
  depth (string s) = 1
  depth (array xs) = suc (depth_items xs)
  depth (object fs) = suc (depth_fields fs)

  pub depth_items : Items → ℕ
  depth_items no_items = 0
  depth_items (item v xs) = max (depth v) (depth_items xs)

  pub depth_fields : Fields → ℕ
  depth_fields no_fields = 0
  depth_fields (field k v fs) = max (depth v) (depth_fields fs)
