-- ===== src/Compare/Represent.antt =====
-- `representAnythingAsString` and `sortArray`: the order that `IgnoreArraysOrdering` imposes.
use gonkey.Base.{◌≡◌, refl, Bool, true, false, List, [], ◌∷◌, map, ap}
use gonkey.Base.Text.{Text, codes, text_lt, join}
use gonkey.Sort.{sort_by, map-sort_by}
use gonkey.Value.{
  Value, nil, bool, float64, string, array, object, Items, no_items, item, Fields, no_fields, field,
  Runtime, elements,
}

abbrev pub format_bool : Bool → Text
format_bool true = codes "true"
format_bool false = codes "false"

-- Map keys ascending, each followed by the text of its value.
abbrev pub key_lt : Text × Text → Text × Text → Bool
key_lt a b = text_lt a.0 b.0

abbrev pub flatten_chunks : List (Text × Text) → List Text
flatten_chunks [] = []
flatten_chunks ((k, s) ∷ rest) = k ∷ s ∷ flatten_chunks rest

module _ (rt : Runtime) where
  -- An array is sorted by these texts before they are joined: sorting the elements and then taking
  -- their texts is sorting the texts.
  unfoldable mutual
    pub represent : Value → Text
    represent nil = []
    represent (bool b) = format_bool b
    represent (float64 x) = rt.format_float x
    represent (string s) = s
    represent (array xs) = join (codes ".") (sort_by text_lt (represent_items xs))
    represent (object fs) = join (codes ".") (flatten_chunks (sort_by key_lt (represent_fields fs)))

    pub represent_items : Items → List Text
    represent_items no_items = []
    represent_items (item v xs) = represent v ∷ represent_items xs

    pub represent_fields : Fields → List (Text × Text)
    represent_fields no_fields = []
    represent_fields (field k v fs) = (k, represent v) ∷ represent_fields fs

  unfoldable pub sort_array : List Value → List Value
  sort_array = sort_by (λ a b. text_lt (represent a) (represent b))

  represent_items_lem : (xs : Items) → represent_items xs ≡ map represent (elements xs)
  unfolding represent
  represent_items_lem no_items = refl
  represent_items_lem (item v xs) = ap (λ l. represent v ∷ l) (represent_items_lem xs)

  -- The texts of a sorted array are the sorted texts of its elements, as `represent` joins them.
  pub map-sort_array :
      (xs : Items) → map represent (sort_array (elements xs)) ≡ sort_by text_lt (represent_items xs)
  unfolding sort_array
  map-sort_array xs = rw (represent_items_lem xs) (map-sort_by text_lt represent (elements xs))
