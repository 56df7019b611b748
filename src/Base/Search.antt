-- ===== src/Base/Search.antt =====
-- The searches of the package strings against the parts that they find.
use mathlib.Core.Path.{◌≡◌, refl, sym, ap, subst}
use mathlib.Core.Logic.{◌≢◌, ◌↔◌, ◌⊎◌, inl, inr}
use mathlib.Core.Bool.{Bool, true, false, ◌||◌}
use mathlib.Core.List.{[], ◌∷◌, ◌++◌}
use Prim.Native.Nat.{ℕ}
use native.Mathlib.Omega.{arith}
use gonkey.Base.Tests.{nat_beq, nat_beq_iff, Bool-cases}
use gonkey.Base.Text.{
  Text, text_beq, text_beq_iff, has_prefix, has_suffix, contains, trim_right, trim_right_step,
}

abbrev pub StartsWith : Text → Text → Type 0
StartsWith part s = (back : Text) × (s ≡ part ++ back)

abbrev pub EndsWith : Text → Text → Type 0
EndsWith part s = (front : Text) × (s ≡ front ++ part)

-- The part stands somewhere in the text.
abbrev pub Holds : Text → Text → Type 0
Holds part s = (front : Text) × (back : Text) × (s ≡ front ++ (part ++ back))

pub or_iff : (a b : Bool) → ((a || b) ≡ true) ↔ ((a ≡ true) ⊎ (b ≡ true))
or_iff true b = (λ _. inl refl, λ _. refl)
or_iff false b = (λ h. inr h, λ h. elim h [ inl e ↦ cc | inr e ↦ e ])

prefix_sound : (s t : Text) → has_prefix s t ≡ true → StartsWith t s
unfolding has_prefix
prefix_sound s [] h = (s, refl)
prefix_sound [] (b ∷ t) h = cc
prefix_sound (a ∷ s) (b ∷ t) h =
    let (back, e) = prefix_sound s t (ground arith) in
    (back, cc (e, (nat_beq_iff a b).0 (ground arith)))

prefix_append : (t back : Text) → has_prefix (t ++ back) t ≡ true
unfolding has_prefix
prefix_append [] back = refl
prefix_append (b ∷ t) back = ground (arith, prefix_append t back)

pub has_prefix_iff : (s t : Text) → (has_prefix s t ≡ true) ↔ StartsWith t s
has_prefix_iff s t = (
  prefix_sound s t,
  λ (back, e). subst (λ x. has_prefix x t ≡ true) (sym e) (prefix_append t back),
)

suffix_append : (front t : Text) → has_suffix (front ++ t) t ≡ true
unfolding has_suffix
suffix_append [] [] = ground (arith, text_beq_iff [] [])
suffix_append [] (b ∷ t) = ground (arith, text_beq_iff (b ∷ t) (b ∷ t))
suffix_append (a ∷ front) t = ground (arith, suffix_append front t)

suffix_sound : (s t : Text) → has_suffix s t ≡ true → EndsWith t s
unfolding has_suffix
suffix_sound [] t h = ([], (text_beq_iff [] t).0 h)
suffix_sound (a ∷ s) t h = elim ((or_iff (text_beq (a ∷ s) t) (has_suffix s t)).0 h) [
  | inl e ↦ ([], (text_beq_iff (a ∷ s) t).0 e)
  | inr f ↦ let (front, e) = suffix_sound s t f in (a ∷ front, ap (λ x. a ∷ x) e)
]

pub has_suffix_iff : (s t : Text) → (has_suffix s t ≡ true) ↔ EndsWith t s
has_suffix_iff s t = (
  suffix_sound s t,
  λ (front, e). subst (λ x. has_suffix x t ≡ true) (sym e) (suffix_append front t),
)

contains_sound : (s t : Text) → contains s t ≡ true → Holds t s
unfolding contains
contains_sound [] t h = let (back, e) = (has_prefix_iff [] t).0 h in ([], back, e)
contains_sound (a ∷ s) t h = elim ((or_iff (has_prefix (a ∷ s) t) (contains s t)).0 h) [
  | inl p ↦ let (back, e) = (has_prefix_iff (a ∷ s) t).0 p in ([], back, e)
  | inr c ↦ let (front, back, e) = contains_sound s t c in (a ∷ front, back, ap (λ x. a ∷ x) e)
]

contains-prefix : (s t : Text) → has_prefix s t ≡ true → contains s t ≡ true
unfolding contains
contains-prefix [] t h = h
contains-prefix (a ∷ s) t h = ground arith

contains_append : (front t back : Text) → contains (front ++ (t ++ back)) t ≡ true
unfolding contains
contains_append [] t back = contains-prefix (t ++ back) t (prefix_append t back)
contains_append (a ∷ front) t back = ground (arith, contains_append front t back)

pub contains_iff : (s t : Text) → (contains s t ≡ true) ↔ Holds t s
contains_iff s t = (
  contains_sound s t,
  λ (front, back, e). subst (λ x. contains x t ≡ true) (sym e) (contains_append front t back),
)

-- A test that decides a proposition, where it fails.
pub iff-false : {P : Type 0} (b : Bool) → ((b ≡ true) ↔ P) → b ≡ false → ¬ P
iff-false b (f, g) e p = cc (e, g p)

pub iff-not_true : {P : Type 0} (b : Bool) → ((b ≡ true) ↔ P) → ¬ P → b ≡ false
iff-not_true true (f, g) n = absurd (n (f refl))
iff-not_true false (f, g) n = refl

-- A list of one byte, any number of times.
pub data Repeats (c : ℕ) : Text → Type 0 where
  no_times : Repeats c []
  once_more : {s : Text} → Repeats c s → Repeats c (c ∷ s)

-- What is left of a text without the bytes `c` at its end.
abbrev pub Trims : ℕ → Text → Text → Type 0
Trims c s left =
    (cut : Text) × Repeats c cut × (s ≡ left ++ cut) × ((front : Text) → left ≢ front ++ c ∷ [])

nil≢snoc : (front : Text) (c : ℕ) → ◌≢◌ {A = Text} [] (front ++ c ∷ [])
nil≢snoc [] c e = cc
nil≢snoc (a ∷ front) c e = cc

one≢snoc : (a c : ℕ) → a ≢ c → (front : Text) → ◌≢◌ {A = Text} (a ∷ []) (front ++ c ∷ [])
one≢snoc a c n [] e = n cc
one≢snoc a c n (b ∷ front) e = nil≢snoc front c cc

longer≢snoc :
    (a b c : ℕ) (left : Text)
    → ((front : Text) → ◌≢◌ {A = Text} (b ∷ left) (front ++ c ∷ []))
    → (front : Text) → ◌≢◌ {A = Text} (a ∷ b ∷ left) (front ++ c ∷ [])
longer≢snoc a b c left n [] e = cc
longer≢snoc a b c left n (d ∷ front) e = n front cc

step-Trims : (c a : ℕ) (s left : Text) → Trims c s left → Trims c (a ∷ s) (trim_right_step c a left)
unfolding trim_right_step
step-Trims c a s [] (cut, r, e, n) = elim (Bool-cases (nat_beq a c)) [
  | inl t ↦
      let same : a ≡ c = (nat_beq_iff a c).0 t in
      rw t (c ∷ cut, once_more r, cc (e, same), λ front. nil≢snoc front c)
  | inr f ↦
      rw f (cut, r, ap (λ x. a ∷ x) e, one≢snoc a c (iff-false (nat_beq a c) (nat_beq_iff a c) f))
]
step-Trims c a s (b ∷ left) (cut, r, e, n) = (cut, r, ap (λ x. a ∷ x) e, longer≢snoc a b c left n)

pub trim_right-Trims : (s : Text) (c : ℕ) → Trims c s (trim_right s c)
unfolding trim_right
trim_right-Trims [] c = ([], no_times, refl, λ front. nil≢snoc front c)
trim_right-Trims (a ∷ s) c = step-Trims c a s (trim_right s c) (trim_right-Trims s c)
