-- ===== src/Base/Dict.antt =====
-- Go's maps as association lists. The order of the list stands for the order in which `range` visits
-- the entries, which Go leaves open.
use mathlib.Core.Path.{◌≡◌, refl, sym, subst, ◌∙◌}
use mathlib.Core.Logic.{◌≢◌, inl, inr}
use mathlib.Core.List.{List, [], ◌∷◌}
use mathlib.Core.Option.{Option, none, some}
use native.Mathlib.Omega.{arith}
use gonkey.Base.Tests.{Eq, ◌==◌, if◌then◌else◌, Bool-cases}

abbrev pub Dict {ℓ κ} : Type ℓ → Type κ → Type (ℓ ⊔ κ)
Dict K V = List (K × V)

-- The first value that is present.
abbrev pub later {κ} : {V : Type κ} → Option V → Option V → Option V
later (some v) o = some v
later none o = o

module _ {ℓ κ} {K : Type ℓ} {V : Type κ} ⦃e : Eq K⦄ where
  -- `v, ok := m[k]`
  unfoldable pub lookup : K → Dict K V → Option V
  lookup key [] = none
  lookup key ((j, x) ∷ rest) = if j == key then some x else lookup key rest

  -- `m[k] = v`
  unfoldable pub insert : K → V → Dict K V → Dict K V
  insert key x [] = (key, x) ∷ []
  insert key x ((j, old) ∷ rest) =
      if j == key then (key, x) ∷ rest else (j, old) ∷ insert key x rest

  -- `for k, v := range new { m[k] = v }`
  unfoldable pub insert_all : Dict K V → Dict K V → Dict K V
  insert_all m [] = m
  insert_all m ((k, v) ∷ new) = insert_all (insert k v m) new

  pub lookup-insert :
      (key j : K) (x : V) (dict : Dict K V)
      → lookup j (insert key x dict) ≡ (if key == j then some x else lookup j dict)
  unfolding insert lookup
  lookup-insert key j x [] = refl
  lookup-insert key j x ((i, old) ∷ rest) =
      ground
        (lookup-insert key j x rest, e.equal_iff key j, e.equal_iff i key, e.equal_iff i j, arith)

  pub lookup-insert_self : (k : K) (v : V) (m : Dict K V) → lookup k (insert k v m) ≡ some v
  lookup-insert_self k v m = ground (arith, lookup-insert k k v m, e.equal_iff k k)

  pub lookup-insert_ne :
      (k j : K) (v : V) (m : Dict K V) → k ≢ j → lookup j (insert k v m) ≡ lookup j m
  lookup-insert_ne k j v m h = ground (arith, lookup-insert k j v m, e.equal_iff k j)

  -- A map as `range` can visit it: no key twice.
  abbrev pub IsMap : Dict K V → Type κ
  IsMap [] = Unit
  IsMap ((k, v) ∷ m) = (lookup k m ≡ none) × IsMap m

  pub insert-IsMap : (k : K) (v : V) (m : Dict K V) → IsMap m → IsMap (insert k v m)
  unfolding lookup insert
  insert-IsMap k v [] h = (refl, tt)
  insert-IsMap k v ((j, w) ∷ m) h = elim (Bool-cases (j == k)) [
    | inl t ↦ rw t (subst (λ i. lookup i m ≡ none) ((e.equal_iff j k).0 t) h.0, h.1)
    | inr f ↦ rw f (
      lookup-insert_ne k j v m (λ q. cc (f, (e.equal_iff j k).1 (sym q))) ∙ h.0,
      insert-IsMap k v m h.1,
    )
  ]

  -- Lookups after a loop of assignments: the new entries first, then the old ones.
  pub lookup-insert_all :
      (j : K) (m new : Dict K V)
      → IsMap new
      → lookup j (insert_all m new) ≡ later (lookup j new) (lookup j m)
  unfolding lookup insert_all
  lookup-insert_all j m [] h = refl
  lookup-insert_all j m ((k, v) ∷ new) h =
      ground (arith, lookup-insert_all j (insert k v m) new, lookup-insert k j v m, e.equal_iff k j)
