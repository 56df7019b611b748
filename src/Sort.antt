-- ===== src/Sort.antt =====
-- `sort.Slice` and `sort.Strings`, as the insertion sort that they run on slices of at most twelve elements: it is
-- stable, which `sort.Slice` does not promise on longer ones.
pub mod Perm
pub mod Stable
use gonkey.Base.{true, false, Bool, List, [], ◌∷◌, map, if◌then◌else◌, ◌≡◌, refl, All, arith}

module _ {ℓ} {A : Type ℓ} where
  unfoldable pub insert_by : (A → A → Bool) → A → List A → List A
  insert_by less x [] = x ∷ []
  insert_by less x (y ∷ ys) = if less y x then y ∷ insert_by less x ys else x ∷ y ∷ ys

  unfoldable pub sort_by : (A → A → Bool) → List A → List A
  unfolding insert_by
  sort_by less [] = []
  sort_by less (x ∷ xs) = insert_by less x (sort_by less xs)

  All-if {κ} :
      (P : A → Type κ) (t : Bool) (xs ys : List A)
      → All P xs
      → All P ys
      → All P (if t then xs else ys)
  All-if P true xs ys h k = h
  All-if P false xs ys h k = k

  pub All-insert_by {κ} :
      (P : A → Type κ) (less : A → A → Bool) (x : A) (ys : List A)
      → P x
      → All P ys
      → All P (insert_by less x ys)
  unfolding insert_by
  All-insert_by P less x [] px h = (px, h)
  All-insert_by P less x (y ∷ ys) px h =
      All-if P (less y x) _ _ (h.0, All-insert_by P less x ys px h.1) (px, h)

  pub All-sort_by {κ} :
      (P : A → Type κ) (less : A → A → Bool) (xs : List A) → All P xs → All P (sort_by less xs)
  unfolding sort_by
  All-sort_by P less [] h = h
  All-sort_by P less (x ∷ xs) h =
      All-insert_by P less x (sort_by less xs) h.0 (All-sort_by P less xs h.1)

-- Sorting by a key and then reading the keys is sorting the keys.
module _ {ℓ κ} {A : Type ℓ} {K : Type κ} (less : K → K → Bool) (key : A → K) where
  map-insert_by :
      (x : A) (ys : List A)
      → map key (insert_by (λ a b. less (key a) (key b)) x ys) ≡ insert_by less (key x) (map key ys)
  unfolding insert_by
  map-insert_by x [] = refl
  map-insert_by x (y ∷ ys) = ground (arith, map-insert_by x ys)

  pub map-sort_by :
      (xs : List A) → map key (sort_by (λ a b. less (key a) (key b)) xs) ≡ sort_by less (map key xs)
  unfolding sort_by
  map-sort_by [] = refl
  map-sort_by (x ∷ xs) =
      ground (arith, map-sort_by xs, map-insert_by x (sort_by (λ a b. less (key a) (key b)) xs))
