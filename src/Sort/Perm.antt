-- ===== src/Sort/Perm.antt =====
-- A sorted slice does not depend on the order of its elements, where the order tells them apart.
use mathlib.Core.List.{Permᴰ}
use mathlib.Core.List.Permᴰ
use mathlib.Core.Path.{ap₂}
use gonkey.Base.{
  ◌≡◌, refl, subst, ◌∙◌, Bool, true, false, List, [], ◌∷◌, arith, All, Bool-cases, inl, inr, ◌↔◌,
}
use gonkey.Base.Text.{Text, text_lt}
use gonkey.Sort.{insert_by, sort_by, All-sort_by}

-- `less` is a strict order that is total on the elements with `P`.
pub record IsOrder {ℓ κ} {A : Type ℓ} (P : A → Type κ) (less : A → A → Bool) : Type (ℓ ⊔ κ) where
  pub asymmetric : (a b : A) → less a b ≡ true → less b a ≡ false
  pub transitive : (a b c : A) → less a b ≡ true → less b c ≡ true → less a c ≡ true
  pub connected : (a b : A) → P a → P b → less a b ≡ false → less b a ≡ false → a ≡ b

module _ {ℓ κ} {A : Type ℓ} {P : A → Type κ} {less : A → A → Bool} (o : IsOrder P less) where
  insert_by_comm :
      (x y : A) (zs : List A)
      → P x
      → P y
      → All P zs
      → insert_by less x (insert_by less y zs) ≡ insert_by less y (insert_by less x zs)
  unfolding insert_by
  insert_by_comm x y [] px py h = ground (arith, o.asymmetric x y, o.connected x y px py)
  insert_by_comm x y (z ∷ zs) px py h = ground (
    arith,
    insert_by_comm x y zs px py h.1,
    o.asymmetric x y,
    o.connected x y px py,
    o.asymmetric x z,
    o.connected x z px h.0,
    o.asymmetric y z,
    o.connected y z py h.0,
    o.transitive x y z,
    o.transitive y x z,
    o.transitive z x y,
    o.transitive z y x,
    o.transitive x z y,
    o.transitive y z x,
  )

  All-Permᴰ : {xs ys : List A} → Permᴰ xs ys → All P xs → All P ys
  All-Permᴰ Permᴰ.nil h = h
  All-Permᴰ (Permᴰ.cons e d) h = (subst P e h.0, All-Permᴰ d h.1)
  All-Permᴰ (Permᴰ.swap e f) h = (subst P f h.1.0, (subst P e h.0, h.1.1))
  All-Permᴰ (Permᴰ.trans d e) h = All-Permᴰ e (All-Permᴰ d h)

  pub sort_by-Permᴰ : {xs ys : List A} → Permᴰ xs ys → All P xs → sort_by less xs ≡ sort_by less ys
  unfolding sort_by
  sort_by-Permᴰ Permᴰ.nil h = refl
  sort_by-Permᴰ (Permᴰ.cons e d) h = ap₂ (insert_by less) e (sort_by-Permᴰ d h.1)
  sort_by-Permᴰ (Permᴰ.swap {a = a} {b = b} {l = l} e f) h =
      insert_by_comm a b (sort_by less l) h.0 h.1.0 (All-sort_by P less l h.1.1)
      ∙ ap₂ (λ x y. insert_by less x (insert_by less y (sort_by less l))) f e
  sort_by-Permᴰ (Permᴰ.trans d e) h = sort_by-Permᴰ d h ∙ sort_by-Permᴰ e (All-Permᴰ d h)

pub text_lt_asymmetric : (s t : Text) → text_lt s t ≡ true → text_lt t s ≡ false
unfolding text_lt
text_lt_asymmetric [] [] h = cc
text_lt_asymmetric [] (b ∷ t) h = refl
text_lt_asymmetric (a ∷ s) [] h = cc
text_lt_asymmetric (a ∷ s) (b ∷ t) h = ground (arith, text_lt_asymmetric s t)

pub text_lt_transitive :
    (s t u : Text) → text_lt s t ≡ true → text_lt t u ≡ true → text_lt s u ≡ true
unfolding text_lt
text_lt_transitive s [] u h k = cc
text_lt_transitive s (b ∷ t) [] h k = cc
text_lt_transitive [] (b ∷ t) (c ∷ u) h k = refl
text_lt_transitive (a ∷ s) (b ∷ t) (c ∷ u) h k = ground (arith, text_lt_transitive s t u)

pub text_lt_connected : (s t : Text) → text_lt s t ≡ false → text_lt t s ≡ false → s ≡ t
unfolding text_lt
text_lt_connected [] [] h k = refl
text_lt_connected [] (b ∷ t) h k = cc
text_lt_connected (a ∷ s) [] h k = cc
text_lt_connected (a ∷ s) (b ∷ t) h k = ground (arith, text_lt_connected s t)

-- Elements ordered by a text that tells those with `P` apart.
pub text_key-IsOrder {ℓ κ} :
    {A : Type ℓ} (P : A → Type κ) (key : A → Text)
    → ((a b : A) → P a → P b → key a ≡ key b → a ≡ b)
    → IsOrder P (λ a b. text_lt (key a) (key b))
text_key-IsOrder P key inj = record {
  asymmetric = λ a b. text_lt_asymmetric (key a) (key b);
  transitive = λ a b c. text_lt_transitive (key a) (key b) (key c);
  connected = λ a b pa pb h k. inj a b pa pb (text_lt_connected (key a) (key b) h k);
}

-- Sorting permutes.
module _ {ℓ} {A : Type ℓ} (less : A → A → Bool) where
  insert_by-same : (x : A) (ys : List A) → Permᴰ (x ∷ ys) (insert_by less x ys)
  unfolding insert_by
  insert_by-same x [] = Permᴰ.refl (x ∷ [])
  insert_by-same x (y ∷ ys) = elim (Bool-cases (less y x)) [
    | inl t ↦ rw t (Permᴰ.trans (Permᴰ.swap refl refl) (Permᴰ.cons refl (insert_by-same x ys)))
    | inr f ↦ rw f (Permᴰ.refl (x ∷ y ∷ ys))
  ]

  pub sort_by-same : (xs : List A) → Permᴰ xs (sort_by less xs)
  unfolding sort_by
  sort_by-same [] = Permᴰ.nil
  sort_by-same (x ∷ xs) =
      Permᴰ.trans (Permᴰ.cons refl (sort_by-same xs)) (insert_by-same x (sort_by less xs))

Text-IsOrder : IsOrder {A = Text} (λ _. Unit {0}) text_lt
Text-IsOrder = text_key-IsOrder (λ _. Unit) (λ s. s) (λ a b _ _ e. e)

All-Unit : (xs : List Text) → All (λ _. Unit {0}) xs
All-Unit [] = tt
All-Unit (x ∷ xs) = (tt, All-Unit xs)

-- Two lists of texts are the same when sorted exactly where one is a permutation of the other.
pub sort_by-eq_iff : (xs ys : List Text) → (sort_by text_lt xs ≡ sort_by text_lt ys) ↔ Permᴰ xs ys
sort_by-eq_iff xs ys = (
  λ e.
      Permᴰ.trans (subst (Permᴰ xs) e (sort_by-same text_lt xs))
        (Permᴰ.symm (sort_by-same text_lt ys)),
  λ d. sort_by-Permᴰ Text-IsOrder d (All-Unit xs),
)
