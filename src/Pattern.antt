-- ===== src/Pattern.antt =====
-- The patterns ^\$name\((.+)\)$ of the program: an opening, a group and a closing bracket.
use gonkey.Base.{
  ap, ◌∙◌, ◌≡◌, refl, ◌↔◌, ◌≢◌, false, Option, none, some, [], ◌∷◌, ◌++◌, arith, if◌then◌else◌,
  nat_beq,
}
use gonkey.Base.Text.{Text}

-- What is left of a text behind a prefix.
unfoldable pub strip : Text → Text → Option Text
strip [] s = some s
strip (c ∷ p) [] = none
strip (c ∷ p) (a ∷ s) = if nat_beq c a then strip p s else none

-- `(.+)\)$`: the text up to the closing bracket that ends it; a dot matches all but a line feed.
unfoldable pub group : Text → Option Text
group [] = none
group (a ∷ []) = if nat_beq a b')' then some [] else none
group (a ∷ b ∷ s) =
    if nat_beq a 10 then none else elim (group (b ∷ s)) [ none ↦ none | some m ↦ some (a ∷ m) ]

not_empty : Option Text → Option Text
not_empty none = none
not_empty (some []) = none
not_empty (some (a ∷ m)) = some (a ∷ m)

strip_group : Option Text → Option Text
unfolding not_empty group
strip_group none = none
strip_group (some s) = not_empty (group s)

-- `rx.FindStringSubmatch(s)[1]` for the pattern with this opening, or `none` where it returns nil
unfoldable pub find_group : Text → Text → Option Text
unfolding strip_group strip
find_group opening s = strip_group (strip opening s)

-- No line feed in it.
abbrev pub IsLine : Text → Type 0
IsLine [] = Unit
IsLine (a ∷ s) = (nat_beq a 10 ≡ false) × IsLine s

strip_sound : (p s t : Text) → strip p s ≡ some t → s ≡ p ++ t
unfolding strip
strip_sound [] s t h = ground arith
strip_sound (c ∷ p) [] t h = cc
strip_sound (c ∷ p) (a ∷ s) t h = ground (arith, strip_sound p s t)

strip-append : (p t : Text) → strip p (p ++ t) ≡ some t
unfolding strip
strip-append [] t = refl
strip-append (c ∷ p) t = ground (arith, strip-append p t)

group_sound : (s m : Text) → group s ≡ some m → (s ≡ m ++ b')' ∷ []) × IsLine m
unfolding group
group_sound [] m h = cc
group_sound (a ∷ []) [] h = ground arith
group_sound (a ∷ []) (x ∷ m) h = ground arith
group_sound (a ∷ b ∷ s) [] h = ground arith
group_sound (a ∷ b ∷ s) (x ∷ m) h = ground (arith, group_sound (b ∷ s) m)

group-append : (m : Text) → IsLine m → group (m ++ b')' ∷ []) ≡ some m
unfolding group
group-append [] h = refl
group-append (a ∷ []) h = ground arith
group-append (a ∷ b ∷ m) h = ground (arith, group-append (b ∷ m))

find-append : (m : Text) → m ≢ [] → IsLine m → strip_group (some (m ++ b')' ∷ [])) ≡ some m
unfolding strip_group
find-append [] ne line = absurd (ne refl)
find-append (a ∷ m) ne line = ground (arith, group-append (a ∷ m))

-- A closed group that is not empty.
not_empty_sound : (o : Option Text) (m : Text) → not_empty o ≡ some m → (o ≡ some m) × (m ≢ [])
unfolding not_empty
not_empty_sound none m h = cc
not_empty_sound (some []) m h = cc
not_empty_sound (some (a ∷ g)) m h = (h, λ e. cc)

module _ (opening : Text) where
  strip_group_sound :
      (s : Text) (o : Option Text) (m : Text)
      → strip opening s ≡ o
      → strip_group o ≡ some m
      → (s ≡ opening ++ (m ++ b')' ∷ [])) × (m ≢ []) × IsLine m
  unfolding strip_group
  strip_group_sound s none m e h = cc
  strip_group_sound s (some t) m e h =
      let (g, ne) = not_empty_sound (group t) m h in
      let (closed, line) = group_sound t m g in
      (strip_sound opening s t e ∙ ap (λ r. opening ++ r) closed, ne, line)

  strip_group_complete :
      (s m : Text)
      → (s ≡ opening ++ (m ++ b')' ∷ [])) × (m ≢ []) × IsLine m
      → strip_group (strip opening s) ≡ some m
  strip_group_complete s m (e, ne, line) =
      rw e (rw (strip-append opening (m ++ b')' ∷ [])) (find-append m ne line))

  -- The text is the opening, one line that is not empty, and a closing bracket.
  pub find_group_iff :
      (s m : Text)
      → (find_group opening s ≡ some m) ↔ ((s ≡ opening ++ (m ++ b')' ∷ [])) × (m ≢ []) × IsLine m)
  unfolding find_group
  find_group_iff s m = (strip_group_sound s (strip opening s) m refl, strip_group_complete s m)
