-- ===== src/Compare/Reading.antt =====
-- The text by which an array is sorted under `IgnoreArraysOrdering`, and the sorted array, described by what they are.
use mathlib.Core.Path.{fun_ext}
use gonkey.Base.{◌≡◌, ◌↔◌, refl, sym, ap, ap₂, subst, ◌∙◌, true, false, List, [], ◌∷◌, map}
use gonkey.Base.Text.{Text, codes, text_lt, join}
use gonkey.Sort.{sort_by, map-sort_by}
use gonkey.Sort.Stable.{SortedBy, sort_by-SortedBy, SortedBy-sort_by}
use gonkey.Value.{
  Value, nil, bool, float64, string, array, object, Items, no_items, item, Fields, no_fields, field,
  Runtime, elements,
}
use gonkey.Compare.Represent.{
  represent, represent_items, represent_fields, sort_array, map-sort_array, key_lt, flatten_chunks,
}

-- The keys of a map with the texts of their values.
abbrev pub readings : (Value → Text) → Fields → List (Text × Text)
readings r no_fields = []
readings r (field k v fs) = (k, r v) ∷ readings r fs

abbrev pub side_by_side : List (Text × Text) → List Text
side_by_side [] = []
side_by_side ((k, s) ∷ rest) = k ∷ s ∷ side_by_side rest

module _ (rt : Runtime) where
  -- How a document reads: nothing for null, an array as its elements in the order of their texts, and a map as its
  -- keys, ascending, each with the text of its value, with dots in between.
  pub record IsReading (r : Value → Text) : Type 0 where
    pub of_nil : r nil ≡ []
    pub of_true : r (bool true) ≡ codes "true"
    pub of_false : r (bool false) ≡ codes "false"
    pub of_number : (x : _) → r (float64 x) ≡ rt.format_float x
    pub of_text : (s : Text) → r (string s) ≡ s
    pub of_array :
        (xs : Items) (ys : List Value)
        → SortedBy r (elements xs) ys
        → r (array xs) ≡ join (codes ".") (map r ys)
    pub of_map :
        (fs : Fields) (entries : List (Text × Text))
        → SortedBy (λ e. e.0) (readings r fs) entries
        → r (object fs) ≡ join (codes ".") (side_by_side entries)

  side_by_side-flatten_chunks : (es : List (Text × Text)) → side_by_side es ≡ flatten_chunks es
  side_by_side-flatten_chunks [] = refl
  side_by_side-flatten_chunks ((k, s) ∷ es) = ap (λ x. k ∷ s ∷ x) (side_by_side-flatten_chunks es)

  represent_fields-readings : (fs : Fields) → readings (represent rt) fs ≡ represent_fields rt fs
  unfolding represent
  represent_fields-readings no_fields = refl
  represent_fields-readings (field k v fs) =
      ap (λ x. (k, represent rt v) ∷ x) (represent_fields-readings fs)

  represent-array :
      (xs : Items) (ys : List Value)
      → SortedBy (represent rt) (elements xs) ys
      → represent rt (array xs) ≡ join (codes ".") (map (represent rt) ys)
  unfolding represent sort_array
  represent-array xs ys s = ap (join (codes ".")) (
      sym (map-sort_array rt xs)
      ∙ ap (map (represent rt)) (sym (SortedBy-sort_by (represent rt) (elements xs) ys s)))

  represent-map :
      (fs : Fields) (entries : List (Text × Text))
      → SortedBy (λ e. e.0) (readings (represent rt) fs) entries
      → represent rt (object fs) ≡ join (codes ".") (side_by_side entries)
  unfolding represent
  represent-map fs entries s = ap (join (codes ".")) (
      ap (λ es. flatten_chunks (sort_by key_lt es)) (sym (represent_fields-readings fs))
      ∙ ap flatten_chunks (sym (SortedBy-sort_by (λ e. e.0) (readings (represent rt) fs) entries s))
      ∙ sym (side_by_side-flatten_chunks entries))

  -- The texts of the code are how documents read.
  pub represent-IsReading : IsReading (represent rt)
  unfolding represent
  represent-IsReading = record {
    of_nil = refl;
    of_true = refl;
    of_false = refl;
    of_number = λ x. refl;
    of_text = λ s. refl;
    of_array = represent-array;
    of_map = represent-map;
  }

  module _ (r : Value → Text) (h : IsReading r) where
    mutual
      unfolding represent

      one_reading : (v : Value) → r v ≡ represent rt v
      one_reading nil = h.of_nil
      one_reading (bool true) = h.of_true
      one_reading (bool false) = h.of_false
      one_reading (float64 x) = h.of_number x
      one_reading (string s) = h.of_text s
      one_reading (array xs) =
          h.of_array xs (sort_by (λ a b. text_lt (r a) (r b)) (elements xs))
            (sort_by-SortedBy r (elements xs))
          ∙ ap (join (codes "."))
              (map-sort_by text_lt r (elements xs) ∙ ap (sort_by text_lt) (one_reading_items xs))
      one_reading (object fs) =
          h.of_map fs (sort_by key_lt (readings r fs)) (sort_by-SortedBy (λ e. e.0) (readings r fs))
          ∙ ap (join (codes ".")) (
              side_by_side-flatten_chunks (sort_by key_lt (readings r fs))
              ∙ ap (λ es. flatten_chunks (sort_by key_lt es)) (one_reading_fields fs))

      one_reading_items : (xs : Items) → map r (elements xs) ≡ represent_items rt xs
      one_reading_items no_items = refl
      one_reading_items (item v xs) = ap₂ (λ s ss. s ∷ ss) (one_reading v) (one_reading_items xs)

      one_reading_fields : (fs : Fields) → readings r fs ≡ represent_fields rt fs
      one_reading_fields no_fields = refl
      one_reading_fields (field k v fs) =
          ap₂ (λ s ss. (k, s) ∷ ss) (one_reading v) (one_reading_fields fs)

    -- The elements in the order of their texts are the array that the code sorts.
    pub SortedBy-sort_array : (xs ys : List Value) → SortedBy r xs ys → ys ≡ sort_array rt xs
    unfolding sort_array
    SortedBy-sort_array xs ys s =
        SortedBy-sort_by (represent rt) xs ys
          (subst (λ key. SortedBy key xs ys) (fun_ext one_reading) s)

  pub sort_array-SortedBy : (xs : List Value) → SortedBy (represent rt) xs (sort_array rt xs)
  unfolding sort_array
  sort_array-SortedBy xs = sort_by-SortedBy (represent rt) xs

  -- A function from documents to texts is the one by which the code sorts exactly where it gives the texts that
  -- documents read as: nothing for null, "true" or "false", the text of a number, a text itself, the texts of the
  -- elements of an array in ascending order, and the keys of a map in ascending order, each with the text of its
  -- value, with dots in between.
  pub represent-IsReading_iff :
      (r : Value → Text) → IsReading r ↔ ((v : Value) → r v ≡ represent rt v)
  represent-IsReading_iff r =
      (λ h. one_reading r h, λ e. subst IsReading (sym (fun_ext e)) represent-IsReading)
