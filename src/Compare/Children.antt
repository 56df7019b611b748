-- ===== src/Compare/Children.antt =====
-- The loops over arrays and maps find no error exactly where the children agree.
use gonkey.Base.{
  ℕ, suc, ◌≤◌, ◌≡◌, refl, ◌↔◌, true, List, [], ◌∷◌, arith, length, nat_beq, All, append-eq-nil,
  Bool-cases, Option-cases, inl, inr, nat_beq_iff,
}
use gonkey.Base.Text.{Text}
use gonkey.Value.{
  Value, Items, no_items, item, Fields, no_fields, field, Runtime, elements, count_fields,
  find_field, depth, depth_items, depth_fields,
}
use gonkey.Sort.{All-sort_by}
use gonkey.Compare.Represent.{sort_array}
use gonkey.Compare.Branch.{
  CompareParams, arranged, compare_elements, compare_arrays, compare_key, compare_keys,
  compare_maps, Recurse, key_path, index_path,
}
use gonkey.Compare.Agrees.{Agrees, AllAgree, no_more, one_more, FieldsAgree, no_field, one_field}
use gonkey.Compare.Parts.{AllAgree-cons, AllAgree-length, FieldsAgree-field}

-- Documents that are at most `n` deep.
abbrev pub DepthAtMost : ℕ → Value → Type 0
DepthAtMost n v = depth v ≤ n

elements-depth : (n : ℕ) (xs : Items) → depth_items xs ≤ n → All (DepthAtMost n) (elements xs)
unfolding depth
elements-depth n no_items h = tt
elements-depth n (item v xs) h = (omega arith, elements-depth n xs (omega arith))

-- The test of the lengths, apart from the loop over the keys.
compare_maps-split :
    (p : CompareParams) (rec : Recurse) (path : Text) (es as' : Fields)
    → (compare_maps p rec path es as' ≡ []) ↔ (
        (p.disallow_extra_fields ≡ true → count_fields es ≡ count_fields as')
        × (compare_keys rec path es as' ≡ []))
unfolding compare_maps
compare_maps-split p rec path es as' = elim (Bool-cases p.disallow_extra_fields) [
  | inl t ↦ elim (Bool-cases (nat_beq (count_fields es) (count_fields as'))) [
    | inl q ↦ rw (t, q) (λ h. (λ _. (nat_beq_iff _ _).0 q, h), λ g. g.1)
    | inr q ↦ rw (t, q) (λ h. cc, λ g. cc (q, (nat_beq_iff _ _).1 (g.0 refl)))
  ]
  | inr f ↦ rw f (λ h. (λ c. cc, h), λ g. g.1)
]

module _ (rt : Runtime) where
  module _ (p : CompareParams) where
    pub arranged-depth :
        (n : ℕ) (xs : Items) → depth_items xs ≤ n → All (DepthAtMost n) (arranged rt p xs)
    unfolding sort_array
    arranged-depth n xs h = elim (Bool-cases p.ignore_arrays_ordering) [
      | inl i ↦ rw i (All-sort_by (DepthAtMost n) _ (elements xs) (elements-depth n xs h))
      | inr i ↦ rw i (elements-depth n xs h)
    ]

    -- What the induction on the fuel gives for the children.
    abbrev pub Decides : ℕ → Recurse → Type 0
    Decides n rec =
        (path : Text) (e a : Value) → depth e ≤ n → (rec path e a ≡ []) ↔ Agrees rt p e a

    module _ (n : ℕ) (rec : Recurse) (ih : Decides n rec) where
      compare_elements_iff :
          (path : Text) (i : ℕ) (es as' : List Value)
          → length es ≡ length as'
          → All (DepthAtMost n) es
          → (compare_elements rec path i es as' ≡ []) ↔ AllAgree rt p es as'
      unfolding compare_elements
      compare_elements_iff path i [] [] l h = (λ _. no_more, λ _. refl)
      compare_elements_iff path i [] (a ∷ as') l h = absurd (omega arith)
      compare_elements_iff path i (e ∷ es) [] l h = absurd (omega arith)
      compare_elements_iff path i (e ∷ es) (a ∷ as') l h =
          let (here0, here1) = ih (index_path path i) e a h.0 in
          let (rest0, rest1) = compare_elements_iff path (suc i) es as' (omega arith) h.1 in
          let (split, joined) = append-eq-nil (rec (index_path path i) e a) _ in
          (
            λ k. one_more (here0 (split k).0) (rest0 (split k).1),
            λ g. joined (here1 (AllAgree-cons rt p g).0, rest1 (AllAgree-cons rt p g).1),
          )

      pub compare_arrays_iff :
          (path : Text) (es as' : List Value)
          → All (DepthAtMost n) es
          → (compare_arrays rec path es as' ≡ []) ↔ AllAgree rt p es as'
      unfolding compare_arrays
      compare_arrays_iff path es as' h = elim (Bool-cases (nat_beq (length es) (length as'))) [
        | inl t ↦ rw t (compare_elements_iff path 0 es as' ((nat_beq_iff _ _).0 t) h)
        | inr f ↦ rw f (λ k. cc, λ g. cc (f, (nat_beq_iff _ _).1 (AllAgree-length rt p g)))
      ]

      compare_keys_sound :
          (path : Text) (es as' : Fields)
          → depth_fields es ≤ n
          → compare_keys rec path es as' ≡ []
          → FieldsAgree rt p as' es
      unfolding compare_keys depth
      compare_keys_sound path no_fields as' d h = no_field
      compare_keys_sound path (field k v es) as' d h =
          let (here, rest) = (append-eq-nil (compare_key rec path k v (find_field k as')) _).0 h in
          elim (Option-cases (find_field k as')) [
            | inl m ↦ ground arith
            | inr (a, f) ↦
                one_field f ((ih (key_path path k) v a (omega arith)).0 (rw f at here))
                  (compare_keys_sound path es as' (omega arith) rest)
          ]

      compare_keys_complete :
          (path : Text) (es as' : Fields)
          → depth_fields es ≤ n
          → FieldsAgree rt p as' es
          → compare_keys rec path es as' ≡ []
      unfolding compare_keys depth
      compare_keys_complete path no_fields as' d g = refl
      compare_keys_complete path (field k v es) as' d g =
          let (a, f, h, rest) = FieldsAgree-field rt p g in
          rw f (
            (append-eq-nil (rec (key_path path k) v a) _).1 (
              (ih (key_path path k) v a (omega arith)).1 h,
              compare_keys_complete path es as' (omega arith) rest,
            ))

      pub compare_maps_iff :
          (path : Text) (es as' : Fields)
          → depth_fields es ≤ n
          → (compare_maps p rec path es as' ≡ []) ↔ (
              (p.disallow_extra_fields ≡ true → count_fields es ≡ count_fields as')
              × FieldsAgree rt p as' es)
      compare_maps_iff path es as' d =
          let (sound, complete) = compare_maps-split p rec path es as' in
          (
            λ h. ((sound h).0, compare_keys_sound path es as' d (sound h).1),
            λ g. complete (g.0, compare_keys_complete path es as' d g.1),
          )
