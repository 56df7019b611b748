-- ===== src/Compare/Sound.antt =====
-- `Compare` finds no error exactly in the documents that agree.
use gonkey.Base.{ℕ, zero, suc, ◌≤◌, ◌≡◌, ◌↔◌, true, false, [], ◌∷◌, arith, Bool-cases, inl, inr}
use gonkey.Base.Text.{Text, codes, text_beq, text_beq_iff}
use gonkey.Value.{Value, nil, array, object, Runtime, depth}
use gonkey.Compare.Branch.{
  CompareParams, arranged, compare_leafs, compare_children, compare_branch, compare, is_scalar_type,
  get_type, types_do_not_match,
}
use gonkey.Compare.Agrees.{SameScalar, nils, bools, floats, strings, Agrees, ignored, leaf, maps}
use gonkey.Compare.Parts.{
  arrays, SameType, scalars, both_arrays, both_objects, get_type-SameType, compare_leafs_sound,
  compare_leafs_complete, Agrees-type, Agrees-leaf, Agrees-arrays, Agrees-maps,
}
use gonkey.Compare.Children.{Decides, arranged-depth, compare_arrays_iff, compare_maps_iff}

depth-pos : (v : Value) → 1 ≤ depth v
unfolding depth
depth-pos nil = omega arith
depth-pos (array xs) = omega arith
depth-pos (object fs) = omega arith
depth-pos _ = omega arith

module _ (rt : Runtime) where
  module _ (p : CompareParams) where
    -- One round of `compareBranch` on two scalars of one type.
    scalar_ignored :
        (n : ℕ) (path : Text) {e a : Value}
        → SameScalar e a
        → p.ignore_values ≡ true
        → compare_branch rt p (suc n) path e a ≡ []
    unfolding compare_branch is_scalar_type text_beq compare_children
    scalar_ignored n path nils i = rw i
    scalar_ignored n path (bools a b) i = rw i
    scalar_ignored n path (floats a b) i = rw i
    scalar_ignored n path (strings s t) i = rw i

    scalar_compared :
        (n : ℕ) (path : Text) {e a : Value}
        → SameScalar e a
        → p.ignore_values ≡ false
        → compare_branch rt p (suc n) path e a ≡ compare_leafs rt path e a
    unfolding compare_branch is_scalar_type text_beq
    scalar_compared n path nils i = rw i
    scalar_compared n path (bools a b) i = rw i
    scalar_compared n path (floats a b) i = rw i
    scalar_compared n path (strings s t) i = rw i

    compare_scalars_iff :
        (n : ℕ) (path : Text) {e a : Value}
        → SameScalar e a
        → (compare_branch rt p (suc n) path e a ≡ []) ↔ Agrees rt p e a
    compare_scalars_iff n path {e} {a} s = elim (Bool-cases p.ignore_values) [
      | inl t ↦ (λ _. ignored t s, λ _. scalar_ignored n path s t)
      | inr f ↦ rw (scalar_compared n path s f) (
        λ h. leaf f (compare_leafs_sound rt path e a s h),
        λ g. compare_leafs_complete rt path e a (Agrees-leaf rt p g s f),
      )
    ]

    types_differ :
        (n : ℕ) (path : Text) (e a : Value)
        → text_beq (get_type e) (get_type a) ≡ false
        → compare_branch rt p (suc n) path e a
          ≡ types_do_not_match path (get_type e) (get_type a) ∷ []
    unfolding compare_branch
    types_differ n path e a f = rw f

    SameType-iff :
        (n : ℕ)
        → Decides rt p n (compare_branch rt p n)
        → (path : Text) {e a : Value} → SameType e a
        → depth e ≤ suc n
        → (compare_branch rt p (suc n) path e a ≡ []) ↔ Agrees rt p e a
    unfolding compare_branch is_scalar_type text_beq compare_children depth
    SameType-iff n ih path (scalars s) d = compare_scalars_iff n path s
    SameType-iff n ih path (both_arrays es as') d =
        let (sound, complete) =
          compare_arrays_iff rt p n (compare_branch rt p n) ih path (arranged rt p es)
            (arranged rt p as') (arranged-depth rt p n es (omega arith)) in
        (λ h. arrays rt p es as' (sound h), λ g. complete (Agrees-arrays rt p g))
    SameType-iff n ih path (both_objects es as') d =
        let (sound, complete) =
          compare_maps_iff rt p n (compare_branch rt p n) ih path es as' (omega arith) in
        (λ h. maps es as' (sound h).0 (sound h).1, λ g. complete (Agrees-maps rt p g))

    -- With fuel for the expected document, no error is agreement.
    pub compare_branch_iff : (n : ℕ) → Decides rt p n (compare_branch rt p n)
    compare_branch_iff zero path e a d = absurd (omega (arith, depth-pos e))
    compare_branch_iff (suc n) path e a d = elim (Bool-cases (text_beq (get_type e) (get_type a))) [
      | inl t ↦ SameType-iff n (compare_branch_iff n) path (get_type-SameType e a t) d
      | inr f ↦ (
        λ h. cc (types_differ n path e a f),
        λ g. cc (f, (text_beq_iff _ _).1 (Agrees-type rt p g)),
      )
    ]

  pub compare-Agrees :
      (expected actual : Value) (params : CompareParams)
      → (compare rt expected actual params ≡ []) ↔ Agrees rt params expected actual
  unfolding compare
  compare-Agrees e a p = compare_branch_iff p (depth e) (codes "$") e a (omega arith)
