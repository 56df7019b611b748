-- ===== src/Fixtures/Names.antt =====
-- Lists of names, as `inArray` searches them.
use gonkey.Base.{◌≡◌, refl, false, ◌||◌, List, [], ◌∷◌, ◌++◌, arith}
use gonkey.Base.Text.{Text, text_beq, text_beq_iff}
use gonkey.Fixtures.Query.{in_array}

pub in_array-snoc :
    (x f : Text) (files : List Text)
    → in_array x (files ++ f ∷ []) ≡ in_array x files || text_beq x f
unfolding in_array
in_array-snoc x f [] = ground arith
in_array-snoc x f (e ∷ files) = ground (arith, in_array-snoc x f files)

-- No text twice.
abbrev pub IsDistinct : List Text → Type 0
IsDistinct [] = Unit
IsDistinct (x ∷ xs) = (in_array x xs ≡ false) × IsDistinct xs

pub IsDistinct-snoc :
    (xs : List Text) (x : Text) → IsDistinct xs → in_array x xs ≡ false → IsDistinct (xs ++ x ∷ [])
unfolding in_array
IsDistinct-snoc [] x d n = (refl, tt)
IsDistinct-snoc (y ∷ xs) x d n = (
  ground (arith, in_array-snoc y x xs, text_beq_iff x y, text_beq_iff y x),
  IsDistinct-snoc xs x d.1 (ground arith),
)
