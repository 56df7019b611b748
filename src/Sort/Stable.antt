-- ===== src/Sort/Stable.antt =====
-- What a sort by a text does to a slice, and that this leaves no choice: the texts ascend, and the elements with one
-- text keep their order.
use gonkey.Base.{
  ◌≡◌, refl, sym, ap, ap₂, ◌∙◌, subst, Bool, true, false, List, [], ◌∷◌, if◌then◌else◌, arith, All,
  Bool-cases, inl, inr,
}
use gonkey.Base.Text.{Text, text_lt, text_beq, text_beq_iff}
use gonkey.Sort.{insert_by, sort_by, All-insert_by}
use gonkey.Sort.Perm.{text_lt_asymmetric, text_lt_transitive, text_lt_connected}

pub text_lt_irreflexive : (t : Text) → text_lt t t ≡ false
unfolding text_lt
text_lt_irreflexive [] = refl
text_lt_irreflexive (a ∷ t) = ground (arith, text_lt_irreflexive t)

not_less_trans : (s t u : Text) → text_lt s t ≡ false → text_lt t u ≡ false → text_lt s u ≡ false
not_less_trans s t u h k = elim (Bool-cases (text_lt s u)) [
  | inl l ↦ elim (Bool-cases (text_lt t s)) [
    | inl m ↦ cc (k, text_lt_transitive t s u m l)
    | inr m ↦ subst (λ x. text_lt x u ≡ false) (sym (text_lt_connected s t h m)) k
  ]
  | inr n ↦ n
]

module _ {ℓ} {A : Type ℓ} (key : A → Text) where
  -- The elements with one text, in their order.
  abbrev pub of_key : Text → List A → List A
  of_key t [] = []
  of_key t (x ∷ xs) = if text_beq (key x) t then x ∷ of_key t xs else of_key t xs

  -- The text of no later element is less.
  abbrev pub Ascends : List A → Type 0
  Ascends [] = Unit
  Ascends (x ∷ xs) = All (λ y. text_lt (key y) (key x) ≡ false) xs × Ascends xs

  abbrev pub SortedBy : List A → List A → Type ℓ
  SortedBy xs ys = Ascends ys × ((t : Text) → of_key t xs ≡ of_key t ys)

  abbrev less : A → A → Bool
  less a b = text_lt (key a) (key b)

  All-not_less :
      (x y : A) (zs : List A)
      → text_lt (key y) (key x) ≡ false
      → All (λ z. text_lt (key z) (key y) ≡ false) zs
      → All (λ z. text_lt (key z) (key x) ≡ false) zs
  All-not_less x y [] h a = tt
  All-not_less x y (z ∷ zs) h a =
      (not_less_trans (key z) (key y) (key x) a.0 h, All-not_less x y zs h a.1)

  insert_by-Ascends : (x : A) (ys : List A) → Ascends ys → Ascends (insert_by less x ys)
  unfolding insert_by
  insert_by-Ascends x [] a = (tt, tt)
  insert_by-Ascends x (y ∷ ys) a = elim (Bool-cases (text_lt (key y) (key x))) [
    | inl t ↦ rw t (
      All-insert_by (λ z. text_lt (key z) (key y) ≡ false) less x ys
          (text_lt_asymmetric (key y) (key x) t) a.0,
      insert_by-Ascends x ys a.1,
    )
    | inr f ↦ rw f ((f, All-not_less x y ys f a.0), a)
  ]

  -- Two elements of which one is less do not have one text.
  passes :
      (t : Text) (x y : A) (ys : List A)
      → text_lt (key y) (key x) ≡ true
      → of_key t (y ∷ x ∷ ys) ≡ of_key t (x ∷ y ∷ ys)
  passes t x y ys l = elim (Bool-cases (text_beq (key x) t)) [
    | inl p ↦ elim (Bool-cases (text_beq (key y) t)) [
      | inl q ↦
          let e : key x ≡ t = (text_beq_iff (key x) t).0 p in
          let e' : key y ≡ t = (text_beq_iff (key y) t).0 q in cc (l, e, e', text_lt_irreflexive t)
      | inr q ↦ rw (p, q) refl
    ]
    | inr p ↦ rw p refl
  ]

  insert_by-of_key :
      (t : Text) (x : A) (ys : List A) → of_key t (x ∷ ys) ≡ of_key t (insert_by less x ys)
  unfolding insert_by
  insert_by-of_key t x [] = refl
  insert_by-of_key t x (y ∷ ys) = elim (Bool-cases (text_lt (key y) (key x))) [
    | inl l ↦ rw l (
        sym (passes t x y ys l)
        ∙ ap (λ zs. if text_beq (key y) t then y ∷ zs else zs) (insert_by-of_key t x ys))
    | inr f ↦ rw f refl
  ]

  -- The sort does it.
  pub sort_by-SortedBy : (xs : List A) → SortedBy xs (sort_by less xs)
  unfolding sort_by
  sort_by-SortedBy [] = (tt, λ t. refl)
  sort_by-SortedBy (x ∷ xs) =
      let (ascends, same) = sort_by-SortedBy xs in
      (
        insert_by-Ascends x (sort_by less xs) ascends,
        λ t.
            ap (λ zs. if text_beq (key x) t then x ∷ zs else zs) (same t)
            ∙ insert_by-of_key t x (sort_by less xs),
      )

  of_key-head {κ} :
      (P : A → Type κ) (t : Text) (xs : List A) (a : A) (rest : List A)
      → All P xs
      → of_key t xs ≡ a ∷ rest
      → P a
  of_key-head P t [] a rest h e = cc
  of_key-head P t (x ∷ xs) a rest h e = elim (Bool-cases (text_beq (key x) t)) [
    | inl p ↦ subst P (cc (rw p at e)) h.0
    | inr f ↦ of_key-head P t xs a rest h.1 (rw f at e)
  ]

  of_key_self : (x : A) (xs : List A) → of_key (key x) (x ∷ xs) ≡ x ∷ of_key (key x) xs
  of_key_self x xs = rw ((text_beq_iff (key x) (key x)).1 refl) refl

  head_not_less :
      (y z : A) (ys zs : List A)
      → Ascends (z ∷ zs)
      → of_key (key y) (y ∷ ys) ≡ of_key (key y) (z ∷ zs)
      → text_lt (key y) (key z) ≡ false
  head_not_less y z ys zs a same =
      of_key-head (λ w. text_lt (key w) (key z) ≡ false) (key y) (z ∷ zs) y (of_key (key y) ys)
        (text_lt_irreflexive (key z), a.0) (sym same ∙ of_key_self y ys)

  sorted_heads :
      (y z : A) (ys zs : List A)
      → Ascends (y ∷ ys)
      → Ascends (z ∷ zs)
      → ((t : Text) → of_key t (y ∷ ys) ≡ of_key t (z ∷ zs))
      → y ≡ z
  sorted_heads y z ys zs a b same =
      let below = head_not_less y z ys zs b (same (key y)) in
      let above = head_not_less z y zs ys a (sym (same (key z))) in
      let e : key y ≡ key z = text_lt_connected (key y) (key z) below above in
      let joined : y ∷ of_key (key y) ys ≡ z ∷ of_key (key z) zs =
        sym (of_key_self y ys) ∙ same (key y) ∙ ap (λ t. of_key t (z ∷ zs)) e ∙ of_key_self z zs in
      cc joined

  sorted_tails :
      (t : Text) (y : A) (ys zs : List A)
      → of_key t (y ∷ ys) ≡ of_key t (y ∷ zs)
      → of_key t ys ≡ of_key t zs
  sorted_tails t y ys zs h = elim (Bool-cases (text_beq (key y) t)) [
    | inl p ↦ cc (rw p at h)
    | inr f ↦ rw f at h
  ]

  one_sorted :
      (ys zs : List A)
      → Ascends ys
      → Ascends zs
      → ((t : Text) → of_key t ys ≡ of_key t zs)
      → ys ≡ zs
  one_sorted [] [] a b same = refl
  one_sorted [] (z ∷ zs) a b same = cc (same (key z), of_key_self z zs)
  one_sorted (y ∷ ys) [] a b same = cc (same (key y), of_key_self y ys)
  one_sorted (y ∷ ys) (z ∷ zs) a b same =
      let e = sorted_heads y z ys zs a b same in
      let rest : (t : Text) → of_key t (y ∷ ys) ≡ of_key t (y ∷ zs) =
        λ t. same t ∙ ap (λ x. of_key t (x ∷ zs)) (sym e) in
      ap₂ (λ x xs. x ∷ xs) e (one_sorted ys zs a.1 b.1 (λ t. sorted_tails t y ys zs (rest t)))

  -- Nothing else does.
  pub SortedBy-sort_by : (xs ys : List A) → SortedBy xs ys → ys ≡ sort_by less xs
  SortedBy-sort_by xs ys (ascends, same) =
      let (ascends', same') = sort_by-SortedBy xs in
      one_sorted ys (sort_by less xs) ascends ascends' (λ t. sym (same t) ∙ same' t)
