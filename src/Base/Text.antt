-- ===== src/Base/Text.antt =====
-- Go's `string` as the list of its bytes, and what the program uses of the packages strings, strconv
-- and fmt on it.
use Prim.Native.Char.{code}
use Prim.Native.String.{String}
use Prim.Native.Nat.{ℕ, zero, suc, ◌+◌, ◌/◌, ◌%◌}
use mathlib.Core.Path.{◌≡◌, refl}
use mathlib.Core.Logic.{◌↔◌}
use mathlib.Core.Bool.{Bool, true, false, ◌&&◌, ◌||◌}
use mathlib.Core.List.{List, [], ◌∷◌, ◌++◌}
use native.Mathlib.Omega.{arith}
use gonkey.Base.Tests.{nat_beq, ltb, if◌then◌else◌, Eq}

abbrev pub Text : Type 0
Text = List ℕ

-- The bytes of an ASCII literal.
abbrev pub codes : String → Text
codes String.[] = []
codes (String.◌∷◌ c s) = code c ∷ codes s

unfoldable pub text_beq : Text → Text → Bool
text_beq [] [] = true
text_beq (a ∷ s) (b ∷ t) = nat_beq a b && text_beq s t
text_beq _ _ = false

pub text_beq_iff : (s t : Text) → (text_beq s t ≡ true) ↔ (s ≡ t)
unfolding text_beq
text_beq_iff [] [] = (λ _. refl, λ _. refl)
text_beq_iff [] (b ∷ t) = ground arith
text_beq_iff (a ∷ s) [] = ground arith
text_beq_iff (a ∷ s) (b ∷ t) = ground (arith, text_beq_iff s t)

instance abbrev pub text_eq : Eq Text
text_eq = record { equal = text_beq; equal_iff = text_beq_iff }

-- `strings.Compare(s, t) < 0`: the order by bytes.
unfoldable pub text_lt : Text → Text → Bool
text_lt s [] = false
text_lt [] (b ∷ t) = true
text_lt (a ∷ s) (b ∷ t) = ltb a b || (nat_beq a b && text_lt s t)

-- `strings.HasPrefix`, `strings.HasSuffix` and `strings.Contains`.
unfoldable pub has_prefix : Text → Text → Bool
has_prefix s [] = true
has_prefix [] (b ∷ t) = false
has_prefix (a ∷ s) (b ∷ t) = nat_beq a b && has_prefix s t

unfoldable pub has_suffix : Text → Text → Bool
unfolding text_beq
has_suffix [] t = text_beq [] t
has_suffix (a ∷ s) t = text_beq (a ∷ s) t || has_suffix s t

unfoldable pub contains : Text → Text → Bool
unfolding has_prefix
contains [] t = has_prefix [] t
contains (a ∷ s) t = has_prefix (a ∷ s) t || contains s t

-- `strings.Join`
unfoldable pub join : Text → List Text → Text
join sep [] = []
join sep (s ∷ []) = s
join sep (s ∷ t ∷ rest) = s ++ (sep ++ join sep (t ∷ rest))

-- `strings.TrimRight(s, c)` and `strings.TrimLeft(s, c)` for one byte `c`.
unfoldable pub trim_right_step : ℕ → ℕ → Text → Text
trim_right_step c a [] = if nat_beq a c then [] else a ∷ []
trim_right_step c a (b ∷ t) = a ∷ b ∷ t

unfoldable pub trim_right : Text → ℕ → Text
unfolding trim_right_step
trim_right [] c = []
trim_right (a ∷ s) c = trim_right_step c a (trim_right s c)

unfoldable pub trim_left : Text → ℕ → Text
trim_left [] c = []
trim_left (a ∷ s) c = let rest = trim_left s c in if nat_beq a c then rest else a ∷ s

-- The verb %d on a number that is not negative. Each round divides by ten, so `suc n` rounds are
-- enough for `n`.
digits : ℕ → ℕ → Text → Text
digits zero n out = out
digits (suc fuel) n out =
    let more = digits fuel (n / 10) ((48 + n % 10) ∷ out) in
    if ltb n 10 then (48 + n) ∷ out else more

unfoldable pub decimal : ℕ → Text
unfolding digits
decimal n = digits (suc n) n []

decimal_207 : decimal 207 ≡ codes "207"
unfolding decimal
decimal_207 = refl

join_three : join (codes ", ") (codes "a" ∷ codes "b" ∷ codes "c" ∷ []) ≡ codes "a, b, c"
unfolding join
join_three = refl

trim_right_slashes : trim_right (codes "a/b//") b'/' ≡ codes "a/b"
unfolding trim_right
trim_right_slashes = refl
