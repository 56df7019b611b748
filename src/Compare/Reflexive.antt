-- ===== src/Compare/Reflexive.antt =====
-- A document agrees with itself.
use gonkey.Base.{
  ◌≡◌, refl, ◌≢◌, true, false, Option, none, some, List, [], ◌∷◌, All, Bool-cases, inl, inr, sym,
  ◌∙◌,
}
use gonkey.Base.Text.{Text, text_eq, text_beq, text_beq_iff}
use gonkey.Sort.{All-sort_by}
use gonkey.Value.{
  Value, nil, bool, float64, string, array, object, Items, no_items, item, Fields, no_fields, field,
  Runtime, elements, find_field,
}
use gonkey.Compare.Regex.{find_expr}
use gonkey.Compare.Represent.{sort_array}
use gonkey.Compare.Branch.{CompareParams, arranged, compare}
use gonkey.Compare.Agrees.{
  bools, floats, strings, nils, same_nil, same_bool, same_float, same_text, SameScalar, LeafAgrees,
  Agrees, ignored, leaf, maps, AllAgree, no_more, one_more, FieldsAgree, no_field, one_field,
}
use gonkey.Compare.Sound.{compare-Agrees}
use gonkey.Compare.Parts.{arrays}

-- The keys of `part` lead to its values in `whole`.
abbrev Found : Fields → Fields → Type 0
Found whole no_fields = Unit
Found whole (field k v fs) = (find_field k whole ≡ some v) × Found whole fs

module _ (rt : Runtime) where
  -- A document of a map without duplicate keys, with no text that is read as a regular expression and
  -- no number that differs from itself.
  abbrev mutual
    pub IsPlain : Value → Type 0
    IsPlain nil = Unit
    IsPlain (bool b) = Unit
    IsPlain (float64 x) = rt.float_eq x x ≡ true
    IsPlain (string s) = find_expr s ≡ none
    IsPlain (array xs) = ArePlain xs
    IsPlain (object fs) = IsPlainMap fs

    pub ArePlain : Items → Type 0
    ArePlain no_items = Unit
    ArePlain (item v xs) = IsPlain v × ArePlain xs

    pub IsPlainMap : Fields → Type 0
    IsPlainMap no_fields = Unit
    IsPlainMap (field k v fs) = (find_field k fs ≡ none) × IsPlain v × IsPlainMap fs

-- Adding an entry with a new key in front loses none of the others.
Found-field :
    (k : Text) (v : Value) (whole part : Fields)
    → ((j : Text) (w : Value) → find_field j whole ≡ some w → text_beq k j ≡ false)
    → Found whole part
    → Found (field k v whole) part
unfolding find_field
Found-field k v whole no_fields new h = tt
Found-field k v whole (field j w fs) new h =
    (rw (new j w h.0) h.0, Found-field k v whole fs new h.1)

new_key :
    (k : Text) (fs : Fields)
    → find_field k fs ≡ none
    → (j : Text) (w : Value) → find_field j fs ≡ some w
    → text_beq k j ≡ false
new_key k fs n j w f = elim (Bool-cases (text_beq k j)) [
  | inl t ↦ let e = (text_beq_iff k j).0 t in absurd (none≢some w (sym n ∙ (rw e f)))
  | inr u ↦ u
]
  where
    none≢some : (w : Value) → ◌≢◌ {A = Option Value} none (some w)
    none≢some w e = cc

module _ (rt : Runtime) where
  Found-self : (fs : Fields) → IsPlainMap rt fs → Found fs fs
  unfolding find_field
  Found-self no_fields h = tt
  Found-self (field k v fs) h =
      (rw ((text_beq_iff k k).1 refl), Found-field k v fs fs (new_key k fs h.0) (Found-self fs h.2))

  module _ (p : CompareParams) where
    scalar_self : (v : Value) → SameScalar v v → LeafAgrees rt v v → Agrees rt p v v
    scalar_self v s l = elim (Bool-cases p.ignore_values) [ inl t ↦ ignored t s | inr f ↦ leaf f l ]

    AllAgree-self : (vs : List Value) → All (λ v. Agrees rt p v v) vs → AllAgree rt p vs vs
    AllAgree-self [] h = no_more
    AllAgree-self (v ∷ vs) h = one_more h.0 (AllAgree-self vs h.1)

    arranged_self :
        (xs : Items)
        → All (λ v. Agrees rt p v v) (elements xs)
        → All (λ v. Agrees rt p v v) (arranged rt p xs)
    unfolding sort_array
    arranged_self xs h =
        elim (Bool-cases p.ignore_arrays_ordering)
          as (λ _. All (λ v. Agrees rt p v v) (arranged rt p xs)) [
            | inl i ↦ simp i (All-sort_by (λ v. Agrees rt p v v) _ (elements xs) h)
            | inr i ↦ simp i h
          ]

    mutual
      pub Agrees-self : (v : Value) → IsPlain rt v → Agrees rt p v v
      Agrees-self nil h = scalar_self nil nils same_nil
      Agrees-self (bool b) h = scalar_self (bool b) (bools b b) (same_bool b b refl)
      Agrees-self (float64 x) h = scalar_self (float64 x) (floats x x) (same_float x x h)
      Agrees-self (string s) h = scalar_self (string s) (strings s s) (same_text s s h refl)
      Agrees-self (array xs) h =
          arrays rt p xs xs
            (AllAgree-self (arranged rt p xs) (arranged_self xs (elements_self xs h)))
      Agrees-self (object fs) h = maps fs fs (λ _. refl) (fields_self fs fs (Found-self fs h) h)

      elements_self : (xs : Items) → ArePlain rt xs → All (λ v. Agrees rt p v v) (elements xs)
      elements_self no_items h = tt
      elements_self (item v xs) h = (Agrees-self v h.0, elements_self xs h.1)

      fields_self :
          (fs whole : Fields) → Found whole fs → IsPlainMap rt fs → FieldsAgree rt p whole fs
      fields_self no_fields whole f h = no_field
      fields_self (field k v fs) whole f h =
          one_field f.0 (Agrees-self v h.1) (fields_self fs whole f.1 h.2)

  -- A plain document compared with itself gives no error, under any parameters.
  pub compare_self :
      (v : Value) (params : CompareParams) → IsPlain rt v → compare rt v v params ≡ []
  compare_self v params h = (compare-Agrees rt v v params).1 (Agrees-self params v h)
