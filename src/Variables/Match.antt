-- ===== src/Variables/Match.antt =====
-- What the two expressions match, in terms of the text alone.
use gonkey.Base.{
  ◌≡◌, ◌≢◌, refl, ap, subst, ◌∙◌, ◌↔◌, true, false, Option, none, some, [], ◌∷◌, ◌++◌, arith,
  Bool-cases, inl, inr, All,
}
use gonkey.Base.Text.{Text, codes}
use gonkey.Variables.Pattern.{
  is_space, is_word, skip_spaces, take_word, after, close, open_brace, match_variable, match_name,
  close_word, ◌>>=◌,
}

-- A text of blanks, and a word.
abbrev pub IsBlank : Text → Type 0
IsBlank = All (λ c. is_space c ≡ true)

abbrev pub IsWord : Text → Type 0
IsWord = All (λ c. is_word c ≡ true)

-- The text does not begin with a blank, or with a byte of a word.
abbrev NoSpace : Text → Type 0
NoSpace [] = Unit
NoSpace (c ∷ s) = is_space c ≡ false

abbrev NoWord : Text → Type 0
NoWord [] = Unit
NoWord (c ∷ s) = is_word c ≡ false

bind-some :
    {A B : Type 0} (m : Option A) (f : A → Option B) {b : B}
    → (m >>= f) ≡ some b
    → (a : A) × (m ≡ some a) × (f a ≡ some b)
bind-some none f h = cc
bind-some (some a) f h = (a, refl, h)

after-append : (p s : Text) → after p (p ++ s) ≡ some s
unfolding after
after-append [] s = refl
after-append (c ∷ p) s = ground (arith, after-append p s)

after_sound : (p s t : Text) → after p s ≡ some t → s ≡ p ++ t
unfolding after
after_sound [] s t h = ground arith
after_sound (c ∷ p) [] t h = cc
after_sound (c ∷ p) (a ∷ s) t h = ground (arith, after_sound p s t)

skip_spaces-append : (b s : Text) → IsBlank b → NoSpace s → skip_spaces (b ++ s) ≡ s
unfolding skip_spaces
skip_spaces-append [] [] h n = refl
skip_spaces-append [] (c ∷ s) h n = rw n
skip_spaces-append (c ∷ b) s h n = rw h.0 (skip_spaces-append b s h.1 n)

-- The blanks that were skipped.
skip_spaces_sound : (s : Text) → (b : Text) × IsBlank b × (s ≡ b ++ skip_spaces s)
unfolding skip_spaces
skip_spaces_sound [] = ([], tt, refl)
skip_spaces_sound (c ∷ s) =
    let (b, blank, e) = skip_spaces_sound s in
    elim (Bool-cases (is_space c)) [
      | inl t ↦ (c ∷ b, (t, blank), rw t (ap (λ r. c ∷ r) e))
      | inr u ↦ ([], tt, rw u refl)
    ]

take_word-append : (w s : Text) → IsWord w → NoWord s → take_word (w ++ s) ≡ (w, s)
unfolding take_word
take_word-append [] [] h n = refl
take_word-append [] (c ∷ s) h n = rw n
take_word-append (c ∷ w) s h n = rw h.0 (rw (take_word-append w s h.1 n))

take_word_sound : (s : Text) → IsWord (take_word s).0 × (s ≡ (take_word s).0 ++ (take_word s).1)
unfolding take_word
take_word_sound [] = (tt, refl)
take_word_sound (c ∷ s) = elim (Bool-cases (is_word c)) [
  | inl t ↦ let (w, e) = take_word_sound s in rw t ((t, w), ap (λ r. c ∷ r) e)
  | inr u ↦ rw u (tt, refl)
]

close-append : (b rest : Text) → IsBlank b → close (b ++ (codes "}}" ++ rest)) ≡ some rest
unfolding close is_space
close-append b rest h =
    rw (skip_spaces-append b (codes "}}" ++ rest) h refl) (after-append (codes "}}") rest)

close_sound :
    (s rest : Text) → close s ≡ some rest → (b : Text) × IsBlank b × (s ≡ b ++ (codes "}}" ++ rest))
unfolding close
close_sound s rest h =
    let (b, blank, e) = skip_spaces_sound s in
    (b, blank, e ∙ ap (λ r. b ++ r) (after_sound (codes "}}") (skip_spaces s) rest h))

open_brace-append :
    (b rest : Text) → IsBlank b → open_brace (codes "{{" ++ (b ++ (codes "$" ++ rest))) ≡ some rest
unfolding open_brace is_space
open_brace-append b rest h =
    rw (skip_spaces-append b (codes "$" ++ rest) h refl) (after-append (codes "$") rest)

open_brace_sound :
    (s rest : Text)
    → open_brace s ≡ some rest
    → (b : Text) × IsBlank b × (s ≡ codes "{{" ++ (b ++ (codes "$" ++ rest)))
unfolding open_brace
open_brace_sound s rest h =
    let (s1, e1, h1) = bind-some (after (codes "{{") s) _ h in
    let (b, blank, e) = skip_spaces_sound s1 in
    (
      b,
      blank,
      after_sound (codes "{{") s s1 e1
          ∙ ap (λ r. codes "{{" ++ r)
              (e ∙ ap (λ r. b ++ r) (after_sound (codes "$") (skip_spaces s1) rest h1)),
    )

-- {{ $name }} with any blanks, and what follows it.
abbrev pub IsPlaceholder : Text → Text → Text → Type 0
IsPlaceholder s name rest =
    (b1 : Text) × (b2 : Text) × IsBlank b1
    × IsBlank b2
    × (s ≡ codes "{{" ++ (b1 ++ (codes "$" ++ (name ++ (b2 ++ (codes "}}" ++ rest))))))

match_name_sound : (name s rest : Text) → match_name name s ≡ some rest → IsPlaceholder s name rest
unfolding match_name
match_name_sound name s rest h =
    let (s1, e1, h1) = bind-some (open_brace s) _ h in
    let (s2, e2, h2) = bind-some (after name s1) _ h1 in
    let (b1, blank1, p1) = open_brace_sound s s1 e1 in
    let (b2, blank2, p2) = close_sound s2 rest h2 in
    (
      b1,
      b2,
      blank1,
      blank2,
      p1
          ∙ ap (λ r. codes "{{" ++ (b1 ++ (codes "$" ++ r)))
              (after_sound name s1 s2 e2 ∙ ap (λ r. name ++ r) p2),
    )

match_name_complete :
    (name s rest : Text) → IsPlaceholder s name rest → match_name name s ≡ some rest
unfolding match_name
match_name_complete name s rest (b1, b2, blank1, blank2, e) = rw e (
    rw (open_brace-append b1 (name ++ (b2 ++ (codes "}}" ++ rest))) blank1)
      (rw (after-append name (b2 ++ (codes "}}" ++ rest))) (close-append b2 rest blank2)))

-- The expression of a variable matches at a place exactly where its placeholder stands.
pub match_name_iff :
    (name s rest : Text) → (match_name name s ≡ some rest) ↔ IsPlaceholder s name rest
match_name_iff name s rest = (match_name_sound name s rest, match_name_complete name s rest)

-- A word that ends in a placeholder ends before the blanks.
NoWord-close : (b rest : Text) → IsBlank b → NoWord (b ++ (codes "}}" ++ rest))
unfolding is_word is_space
NoWord-close [] rest h = refl
NoWord-close (c ∷ b) rest h = ground arith

close_word_complete :
    (w : Text) (s rest : Text) → w ≢ [] → close s ≡ some rest → close_word (w, s) ≡ some (w, rest)
close_word_complete [] s rest ne h = absurd (ne refl)
close_word_complete (c ∷ w) s rest ne h = rw h

close_word_sound :
    (w s name rest : Text)
    → close_word (w, s) ≡ some (name, rest)
    → (w ≢ []) × (w ≡ name) × (close s ≡ some rest)
close_word_sound [] s name rest h = cc
close_word_sound (c ∷ w) s name rest h =
    let (rest', e, h') = bind-some (close s) _ h in (λ n. cc, ground arith, ground arith)

match_variable_sound :
    (name s rest : Text)
    → match_variable s ≡ some (name, rest)
    → (name ≢ []) × IsWord name × IsPlaceholder s name rest
unfolding match_variable
match_variable_sound name s rest h =
    let (s1, e1, h1) = bind-some (open_brace s) _ h in
    let (ne, same, h2) = close_word_sound (take_word s1).0 (take_word s1).1 name rest h1 in
    let (word, split) = take_word_sound s1 in
    let (b1, blank1, p1) = open_brace_sound s s1 e1 in
    let (b2, blank2, p2) = close_sound (take_word s1).1 rest h2 in
    (
      subst (λ n. n ≢ []) same ne,
      subst IsWord same word,
      (
        b1,
        b2,
        blank1,
        blank2,
        p1
            ∙ ap (λ r. codes "{{" ++ (b1 ++ (codes "$" ++ r)))
                (split ∙ (ap (λ n. n ++ (take_word s1).1) same ∙ ap (λ r. name ++ r) p2)),
      ),
    )

match_variable_complete :
    (name s rest : Text)
    → name ≢ []
    → IsWord name
    → IsPlaceholder s name rest
    → match_variable s ≡ some (name, rest)
unfolding match_variable
match_variable_complete name s rest ne word (b1, b2, blank1, blank2, e) = rw e (
    rw (open_brace-append b1 (name ++ (b2 ++ (codes "}}" ++ rest))) blank1) (
      rw (take_word-append name (b2 ++ (codes "}}" ++ rest)) word (NoWord-close b2 rest blank2)) (
        close_word_complete name (b2 ++ (codes "}}" ++ rest)) rest ne
          (close-append b2 rest blank2))))

-- The expression that finds the names matches at a place exactly where the placeholder of a word stands.
pub match_variable_iff :
    (name s rest : Text)
    → (match_variable s ≡ some (name, rest))
      ↔ ((name ≢ []) × IsWord name × IsPlaceholder s name rest)
match_variable_iff name s rest =
    (match_variable_sound name s rest, λ h. match_variable_complete name s rest h.0 h.1 h.2)
