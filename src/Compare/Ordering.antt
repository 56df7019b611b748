-- ===== src/Compare/Ordering.antt =====
-- `IgnoreArraysOrdering`: where it makes the order of an array irrelevant, and where it does not.
use mathlib.Core.List.{Permᴰ}
use gonkey.Base.{ℕ, ◌≡◌, Bool-cases, inl, inr, true, [], ◌∷◌, All}
use gonkey.Base.Text.{Text, codes, text_beq, decimal}
use gonkey.Sort.{sort_by}
use gonkey.Sort.Stable.{text_lt_irreflexive}
use gonkey.Sort.Perm.{text_key-IsOrder, sort_by-Permᴰ}
use gonkey.Value.{Value, float64, string, array, Items, no_items, item, Runtime, elements, depth}
use gonkey.Compare.Represent.{represent, sort_array}
use gonkey.Compare.Branch.{CompareParams, types_do_not_match, arranged, compare}
use gonkey.Compare.Reflexive.{ArePlain, Agrees-self}
use gonkey.Compare.Sound.{compare-Agrees}
use gonkey.Compare.Parts.{arrays, Agrees-arrays}

module _ (rt : Runtime) where
  arranged-Permᴰ :
      (p : CompareParams) (P : Value → Type 0)
      → ((v w : Value) → P v → P w → represent rt v ≡ represent rt w → v ≡ w)
      → (xs ys : Items) → Permᴰ (elements xs) (elements ys)
      → All P (elements xs)
      → p.ignore_arrays_ordering ≡ true
      → arranged rt p xs ≡ arranged rt p ys
  unfolding sort_array
  arranged-Permᴰ p P inj xs ys d h i =
      rw i (sort_by-Permᴰ (text_key-IsOrder P (represent rt) inj) d h)

  -- A plain array agrees with every reordering of itself under `IgnoreArraysOrdering`, if the texts by
  -- which the elements are sorted tell them apart.
  pub compare-Permᴰ :
      (params : CompareParams) (P : Value → Type 0)
      → ((v w : Value) → P v → P w → represent rt v ≡ represent rt w → v ≡ w)
      → (xs ys : Items) → Permᴰ (elements xs) (elements ys)
      → All P (elements xs)
      → params.ignore_arrays_ordering ≡ true
      → ArePlain rt xs
      → compare rt (array xs) (array ys) params ≡ []
  compare-Permᴰ params P inj xs ys d h i plain =
      let self = Agrees-arrays rt params (Agrees-self rt params (array xs) plain) in
      (compare-Agrees rt (array xs) (array ys) params).1
        (arrays rt params xs ys (rw (← arranged-Permᴰ params P inj xs ys d h i) self))

  -- A number and a text that reads the same are not told apart by the sort: the array is then compared
  -- in the order given, and a reordering of it is reported as two differences of type.
  pub compare-tie :
      (x : ℕ) (t : Text) (params : CompareParams)
      → rt.format_float x ≡ t
      → compare rt
          (array (item (float64 x) (item (string t) no_items)))
          (array (item (string t) (item (float64 x) no_items)))
          params
        ≡ types_do_not_match (codes "$[0]") (codes "float64") (codes "string")
          ∷ types_do_not_match (codes "$[1]") (codes "string") (codes "float64")
          ∷ []
  unfolding compare represent decimal text_beq depth sort_by
  compare-tie x t params e = elim (Bool-cases params.ignore_arrays_ordering) [
    | inl i ↦ simp (i, e, text_lt_irreflexive)
    | inr i ↦ simp i
  ]
