-- ===== src/Variables/Pattern.antt =====
-- The expressions {{\s*\$(\w+)\s*}} and {{\s*\$name\s*}}. Their parts begin with different bytes, so a
-- match at a place is found from left to right, without trying again.
use gonkey.Base.{
  ℕ, zero, suc, Bool, ◌&&◌, ◌||◌, Option, none, some, List, [], ◌∷◌, ◌++◌, if◌then◌else◌, nat_beq,
  leb, length,
}
use gonkey.Base.Text.{Text, codes}

-- \s and \w
unfoldable pub is_space : ℕ → Bool
is_space c = nat_beq c 32 || nat_beq c 9 || nat_beq c 10 || nat_beq c 12 || nat_beq c 13

unfoldable pub is_word : ℕ → Bool
is_word c =
    leb b'0' c && leb c b'9'
    || leb b'A' c && leb c b'Z'
    || leb b'a' c && leb c b'z'
    || nat_beq c b'_'

unfoldable pub skip_spaces : Text → Text
unfolding is_space
skip_spaces [] = []
skip_spaces (c ∷ s) = let rest = skip_spaces s in if is_space c then rest else c ∷ s

-- \w*, and what follows it
abbrev in_word : ℕ → Text × Text → Text × Text
in_word c (w, rest) = (c ∷ w, rest)

unfoldable pub take_word : Text → Text × Text
unfolding is_word
take_word [] = ([], [])
take_word (c ∷ s) = let more = in_word c (take_word s) in if is_word c then more else ([], c ∷ s)

-- What is left of a text behind a literal one.
unfoldable pub after : Text → Text → Option Text
after [] s = some s
after (p ∷ ps) [] = none
after (p ∷ ps) (c ∷ s) = if nat_beq p c then after ps s else none

infixl 5 ◌>>=◌
abbrev pub ◌>>=◌ {ℓ κ} : {A : Type ℓ} {B : Type κ} → Option A → (A → Option B) → Option B
none >>= f = none
some a >>= f = f a

-- \s*}}
unfoldable pub close : Text → Option Text
unfolding after skip_spaces
close s = after (codes "}}") (skip_spaces s)

abbrev pub close_word : Text × Text → Option (Text × Text)
close_word ([], rest) = none
close_word (c ∷ w, rest) = do rest' ← close rest; some (c ∷ w, rest')

-- {{\s*\$
unfoldable pub open_brace : Text → Option Text
unfolding after skip_spaces
open_brace s = do s1 ← after (codes "{{") s; after (codes "$") (skip_spaces s1)

-- The variable of a match that begins here, and what follows the match.
unfoldable pub match_variable : Text → Option (Text × Text)
match_variable s = do s1 ← open_brace s; close_word (take_word s1)

-- What follows a match for this name that begins here.
unfoldable pub match_name : Text → Text → Option Text
match_name name s = do s1 ← open_brace s; s2 ← after name s1; close s2

-- `FindAllStringSubmatch(str, -1)`: the matches that do not overlap, from the left. Each round takes a
-- byte at least, so the length of the text is enough fuel.
unfoldable pub find_all : ℕ → Text → List Text
unfolding match_variable open_brace close take_word
find_all zero s = []
find_all (suc fuel) [] = []
find_all (suc fuel) (c ∷ s) = elim (match_variable (c ∷ s)) [
  | none ↦ find_all fuel s
  | some (name, rest) ↦ name ∷ find_all fuel rest
]

unfoldable pub used_variables : Text → List Text
unfolding find_all
used_variables s = find_all (length s) s

-- `ReplaceAllLiteral`
unfoldable pub replace : ℕ → Text → Text → Text → Text
unfolding match_name open_brace close after
replace zero name value s = s
replace (suc fuel) name value [] = []
replace (suc fuel) name value (c ∷ s) = elim (match_name name (c ∷ s)) [
  | none ↦ c ∷ replace fuel name value s
  | some rest ↦ value ++ replace fuel name value rest
]

unfoldable pub replace_all : Text → Text → Text → Text
unfolding replace
replace_all name value s = replace (length s) name value s
