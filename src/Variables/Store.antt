-- ===== src/Variables/Store.antt =====
-- Which value a name stands for.
use gonkey.Base.{
  ℕ, ◌≡◌, refl, ap, true, false, Option, none, some, [], ◌∷◌, arith, if◌then◌else◌, ◌==◌,
}
use gonkey.Base.Text.{Text, codes, text_eq, text_beq_iff}
use gonkey.Base.Dict.{Dict, lookup, insert, later, IsMap, lookup-insert, lookup-insert_all}
use gonkey.Variables.{Variable, Variables, quote_meta, is_meta, new_variable, load, merge, add, get}
use gonkey.Variables.Match.{IsWord}
use gonkey.Variables.Pattern.{is_word}

abbrev pub as_variable : Text → Option Text → Option Variable
as_variable n none = none
as_variable n (some v) = some (new_variable n v)

-- Loading puts the given values in front of the old ones.
pub lookup-load :
    (j : Text) (vars : Dict Text Text) (vs : Variables)
    → IsMap vars
    → lookup j (load vars vs) ≡ later (as_variable j (lookup j vars)) (lookup j vs)
unfolding lookup load
lookup-load j [] vs h = refl
lookup-load j ((n, v) ∷ vars) vs h = ground (
  arith,
  lookup-load j vars (insert n (new_variable n v) vs),
  lookup-insert n j (new_variable n v) vs,
  text_beq_iff n j,
)

-- The bytes of a word have no meaning in an expression.
word-not-meta : (c : ℕ) → is_word c ≡ true → is_meta c (codes "\\.+*?()|[]{}^$") ≡ false
unfolding is_word is_meta
word-not-meta c h = ground arith

quote_meta-word : (s : Text) → IsWord s → quote_meta s ≡ s
unfolding quote_meta
quote_meta-word [] h = refl
quote_meta-word (c ∷ s) h = rw (word-not-meta c h.0) (ap (λ t. c ∷ t) (quote_meta-word s h.1))

abbrev pub environment : (Text → Text) → Text → Option Variable
environment getenv name = if getenv name == [] then none else some (new_variable name (getenv name))

abbrev pub or_else : {A : Type 0} → Option A → Option A → Option A
or_else (some a) o = some a
or_else none o = o

-- What a name stands for after a merge: the value of the given variables, else the old one, else that of
-- the environment if it is not empty.
pub get-merge :
    (getenv : Text → Text) (vs vars : Variables) (name : Text)
    → IsMap vars
    → get getenv (merge vs vars) name
      ≡ or_else (lookup name vars) (or_else (lookup name vs) (environment getenv name))
unfolding get merge
get-merge getenv vs vars name h = ground (arith, lookup-insert_all name vs vars h)

pub name-new_variable : (name value : Text) → IsWord name → (new_variable name value).name ≡ name
unfolding new_variable
name-new_variable name value h = quote_meta-word name h

-- A variable whose name is a word is found under its name once it was added.
pub lookup-add :
    (name value : Text) (vs : Variables)
    → IsWord name
    → lookup name (add (new_variable name value) vs) ≡ some (new_variable name value)
unfolding add
lookup-add name value vs h =
    let v = new_variable name value in
    ground (
      arith,
      lookup-insert v.name name v vs,
      text_beq_iff v.name name,
      name-new_variable name value h,
    )
