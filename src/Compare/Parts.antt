-- ===== src/Compare/Parts.antt =====
-- Agreement taken apart, and the leaves.
use gonkey.Base.{
  ◌≡◌, refl, sym, subst, ◌∙◌, true, false, some, List, [], ◌∷◌, arith, length, Bool-cases,
  Option-cases, inl, inr, bool_beq_iff,
}
use gonkey.Base.Text.{Text, text_beq, text_beq_iff}
use gonkey.Value.{
  Value, nil, bool, float64, string, array, object, Items, Fields, field, Runtime, elements,
  count_fields, find_field,
}
use gonkey.Compare.Regex.{find_expr}
use gonkey.Compare.Represent.{represent, sort_array}
use gonkey.Compare.Reading.{represent-IsReading, sort_array-SortedBy, SortedBy-sort_array}
use gonkey.Compare.Branch.{CompareParams, arranged, compare_leafs, get_type}
use gonkey.Compare.Agrees.{
  SameScalar, nils, bools, floats, strings, LeafAgrees, same_nil, same_bool, same_float, same_text,
  matched, Agrees, ignored, leaf, in_order, sorted, maps, AllAgree, no_more, one_more, FieldsAgree,
  one_field,
}

-- Values of one type, as `getType` tells types apart.
pub data SameType : Value → Value → Type 0 where
  scalars : {e a : Value} → SameScalar e a → SameType e a
  both_arrays : (es as' : Items) → SameType (array es) (array as')
  both_objects : (es as' : Fields) → SameType (object es) (object as')

pub get_type-SameType : (e a : Value) → text_beq (get_type e) (get_type a) ≡ true → SameType e a
unfolding text_beq
get_type-SameType nil nil h = scalars nils
get_type-SameType (bool a) (bool b) h = scalars (bools a b)
get_type-SameType (float64 a) (float64 b) h = scalars (floats a b)
get_type-SameType (string s) (string t) h = scalars (strings s t)
get_type-SameType (array es) (array as') h = both_arrays es as'
get_type-SameType (object es) (object as') h = both_objects es as'
get_type-SameType _ _ h = cc

pub SameScalar-type : {e a : Value} → SameScalar e a → get_type e ≡ get_type a
SameScalar-type nils = refl
SameScalar-type (bools a b) = refl
SameScalar-type (floats a b) = refl
SameScalar-type (strings s t) = refl

module _ (rt : Runtime) where
  pub compare_leafs_sound :
      (path : Text) (e a : Value)
      → SameScalar e a
      → compare_leafs rt path e a ≡ []
      → LeafAgrees rt e a
  unfolding compare_leafs
  compare_leafs_sound path _ _ nils h = same_nil
  compare_leafs_sound path _ _ (bools a b) h = same_bool a b (ground (arith, bool_beq_iff a b))
  compare_leafs_sound path _ _ (floats a b) h = same_float a b (ground arith)
  compare_leafs_sound path _ _ (strings s t) h = elim (Option-cases (find_expr s)) [
    | inl n ↦ same_text s t n (ground (arith, text_beq_iff s t))
    | inr (e, f) ↦ elim (Option-cases (rt.compile_regexp e)) [
      | inl c ↦ ground arith
      | inr (rx, c) ↦ matched s t e rx f c (ground arith)
    ]
  ]

  pub compare_leafs_complete :
      (path : Text) (e a : Value) → LeafAgrees rt e a → compare_leafs rt path e a ≡ []
  unfolding compare_leafs
  compare_leafs_complete path _ _ same_nil = refl
  compare_leafs_complete path _ _ (same_bool a b h) = ground (arith, bool_beq_iff a b)
  compare_leafs_complete path _ _ (same_float a b h) = ground arith
  compare_leafs_complete path _ _ (same_text s t n h) = ground (arith, text_beq_iff s t)
  compare_leafs_complete path _ _ (matched s t e rx f c h) = ground arith

  pub LeafAgrees-type : {e a : Value} → LeafAgrees rt e a → get_type e ≡ get_type a
  LeafAgrees-type same_nil = refl
  LeafAgrees-type (same_bool a b h) = refl
  LeafAgrees-type (same_float a b h) = refl
  LeafAgrees-type (same_text s t n h) = refl
  LeafAgrees-type (matched s t e rx f c h) = refl

  module _ (p : CompareParams) where
    -- Agreement, taken apart.
    pub Agrees-type : {e a : Value} → Agrees rt p e a → get_type e ≡ get_type a
    Agrees-type (ignored i s) = SameScalar-type s
    Agrees-type (leaf i l) = LeafAgrees-type l
    Agrees-type (in_order es as' o h) = refl
    Agrees-type (sorted es as' r xs ys o i s t h) = refl
    Agrees-type (maps es as' c h) = refl

    pub Agrees-leaf :
        {e a : Value}
        → Agrees rt p e a
        → SameScalar e a
        → p.ignore_values ≡ false
        → LeafAgrees rt e a
    Agrees-leaf (ignored i s) ss f = cc
    Agrees-leaf (leaf i l) ss f = l
    Agrees-leaf (in_order es as' o h) ss f = elim ss [ ]
    Agrees-leaf (sorted es as' r xs ys o i s t h) ss f = elim ss [ ]
    Agrees-leaf (maps es as' c h) ss f = elim ss [ ]

    arranged_off : (xs : Items) → p.ignore_arrays_ordering ≡ false → arranged rt p xs ≡ elements xs
    arranged_off xs f = rw f refl

    arranged_on :
        (xs : Items)
        → p.ignore_arrays_ordering ≡ true
        → arranged rt p xs ≡ sort_array rt (elements xs)
    arranged_on xs t = rw t refl

    AllAgree-both :
        {xs xs' ys ys' : List Value}
        → xs ≡ xs'
        → ys ≡ ys'
        → AllAgree rt p xs ys
        → AllAgree rt p xs' ys'
    AllAgree-both {xs' = xs'} {ys = ys} e f h =
        subst (λ zs. AllAgree rt p xs' zs) f (subst (λ zs. AllAgree rt p zs ys) e h)

    pub Agrees-arrays :
        {es as' : Items}
        → Agrees rt p (array es) (array as')
        → AllAgree rt p (arranged rt p es) (arranged rt p as')
    Agrees-arrays (ignored i s) = elim s [ ]
    Agrees-arrays (leaf i l) = elim l [ ]
    Agrees-arrays (in_order es as' o h) =
        AllAgree-both (sym (arranged_off es o)) (sym (arranged_off as' o)) h
    Agrees-arrays (sorted es as' r xs ys o i s t h) =
        AllAgree-both (SortedBy-sort_array rt r i (elements es) xs s ∙ sym (arranged_on es o))
          (SortedBy-sort_array rt r i (elements as') ys t ∙ sym (arranged_on as' o)) h

    -- The arrays as the code arranges them.
    pub arrays :
        (es as' : Items)
        → AllAgree rt p (arranged rt p es) (arranged rt p as')
        → Agrees rt p (array es) (array as')
    arrays es as' h = elim (Bool-cases p.ignore_arrays_ordering) [
      | inl t ↦
          sorted es as' (represent rt) (sort_array rt (elements es)) (sort_array rt (elements as'))
            t (represent-IsReading rt) (sort_array-SortedBy rt (elements es))
            (sort_array-SortedBy rt (elements as'))
            (AllAgree-both (arranged_on es t) (arranged_on as' t) h)
      | inr f ↦ in_order es as' f (AllAgree-both (arranged_off es f) (arranged_off as' f) h)
    ]

    pub Agrees-maps :
        {es as' : Fields}
        → Agrees rt p (object es) (object as')
        → (p.disallow_extra_fields ≡ true → count_fields es ≡ count_fields as')
          × FieldsAgree rt p as' es
    Agrees-maps (ignored i s) = elim s [ ]
    Agrees-maps (leaf i l) = elim l [ ]
    Agrees-maps (maps es as' c h) = (c, h)

    pub AllAgree-cons :
        {e a : Value} {es as' : List Value}
        → AllAgree rt p (e ∷ es) (a ∷ as')
        → Agrees rt p e a × AllAgree rt p es as'
    AllAgree-cons (one_more h k) = (h, k)

    pub AllAgree-length : {es as' : List Value} → AllAgree rt p es as' → length es ≡ length as'
    AllAgree-length no_more = refl
    AllAgree-length (one_more h k) = omega (arith, AllAgree-length k)

    pub FieldsAgree-field :
        {k : Text} {e : Value} {es as' : Fields}
        → FieldsAgree rt p as' (field k e es)
        → (a : Value) × (find_field k as' ≡ some a) × Agrees rt p e a × FieldsAgree rt p as' es
    FieldsAgree-field (one_field {a = a} f h k) = (a, f, h, k)
