-- ===== src/Fixtures/Literal.antt =====
-- `quoteLiteral` and `toDbValue`: values as SQL text.
use gonkey.Base.{
  ◌&&◌, ℕ, ◌≡◌, refl, Bool, true, false, ◌||◌, Option, none, some, [], ◌∷◌, ◌++◌, arith, nat_beq,
  nat_beq_iff, ap, if◌then◌else◌, Bool-cases, inl, inr, append_assoc,
}
use gonkey.Base.Text.{Text, codes}

-- `strings.Replace(s, c, cc, -1)` for one byte `c`.
unfoldable pub double : ℕ → Text → Text
double c [] = []
double c (a ∷ s) = if nat_beq a c then a ∷ a ∷ double c s else a ∷ double c s

abbrev pub backslash : ℕ
backslash = 92

abbrev pub quote : ℕ
quote = 39

unfoldable pub has_byte : ℕ → Text → Bool
has_byte c [] = false
has_byte c (a ∷ s) = nat_beq a c || has_byte c s

abbrev pub escape_mark : Bool → Text
escape_mark true = codes "E"
escape_mark false = []

unfoldable pub quote_literal : Text → Text
unfolding double has_byte
quote_literal s =
    escape_mark (has_byte backslash s)
    ++ (quote ∷ (double backslash (double quote s) ++ quote ∷ []))

-- A byte in front of what was read.
abbrev push : ℕ → Option (Text × Text) → Option (Text × Text)
push a none = none
push a (some (t, rest)) = some (a ∷ t, rest)

-- How PostgreSQL reads a string constant: up to a quote that is not doubled, and in the form that
-- begins with E a backslash takes the byte behind it. (The escapes with a letter or a digit behind the
-- backslash do not occur here, and are left out: `none`.)
unfoldable pub read_body : Bool → Text → Option (Text × Text)
read_body escapes [] = none
read_body escapes (a ∷ []) = if nat_beq a quote then some ([], []) else none
read_body escapes (a ∷ b ∷ s) =
    if nat_beq a quote
    then if nat_beq b quote then push quote (read_body escapes s) else some ([], b ∷ s)
    else if escapes && nat_beq a backslash
    then if nat_beq b backslash then push backslash (read_body escapes s) else none
    else push a (read_body escapes (b ∷ s))

unfoldable pub read_literal : Text → Option (Text × Text)
unfolding read_body
read_literal [] = none
read_literal (a ∷ []) = none
read_literal (a ∷ b ∷ s) =
    if nat_beq a quote
    then read_body false (b ∷ s)
    else if nat_beq a b'E' && nat_beq b quote
    then read_body true s
    else none

-- The text behind the constant does not begin with a quote, which would go on with it.
abbrev pub NoQuote : Text → Type 0
NoQuote [] = Unit
NoQuote (a ∷ s) = nat_beq a quote ≡ false

read_body-end :
    (escapes : Bool) (rest : Text)
    → NoQuote rest
    → read_body escapes (quote ∷ rest) ≡ some ([], rest)
unfolding read_body
read_body-end escapes [] n = refl
read_body-end escapes (r ∷ rest) n = ground arith

-- A byte that means itself, in front of a text that is not empty.
read_body-plain :
    (escapes : Bool) (a : ℕ) (t rest : Text)
    → nat_beq a quote ≡ false
    → nat_beq a backslash ≡ false
    → read_body escapes (a ∷ (t ++ quote ∷ rest)) ≡ push a (read_body escapes (t ++ quote ∷ rest))
unfolding read_body
read_body-plain escapes a [] rest q e = ground arith
read_body-plain escapes a (b ∷ t) rest q e = ground arith

abbrev doubled : Text → Text
doubled s = double backslash (double quote s)

doubled-quote : (s : Text) → doubled (quote ∷ s) ≡ quote ∷ quote ∷ doubled s
unfolding double
doubled-quote s = refl

doubled-backslash : (s : Text) → doubled (backslash ∷ s) ≡ backslash ∷ backslash ∷ doubled s
unfolding double
doubled-backslash s = refl

doubled-plain :
    (a : ℕ) (s : Text)
    → nat_beq a quote ≡ false
    → nat_beq a backslash ≡ false
    → doubled (a ∷ s) ≡ a ∷ doubled s
unfolding double
doubled-plain a s q b = rw q (rw b)

-- Reading back a doubled pair.
read_body-quotes :
    (escapes : Bool) (t : Text)
    → read_body escapes (quote ∷ quote ∷ t) ≡ push quote (read_body escapes t)
unfolding read_body
read_body-quotes escapes t = refl

read_body-backslashes :
    (t : Text) → read_body true (backslash ∷ backslash ∷ t) ≡ push backslash (read_body true t)
unfolding read_body
read_body-backslashes t = refl

-- The text may be read with escapes, or it has none to read.
abbrev Readable : Bool → Text → Type 0
Readable true s = Unit
Readable false s = has_byte backslash s ≡ false

Readable-tail : (escapes : Bool) (a : ℕ) (s : Text) → Readable escapes (a ∷ s) → Readable escapes s
unfolding has_byte
Readable-tail true a s h = tt
Readable-tail false a s h = ground arith

Readable-backslash : (escapes : Bool) (s : Text) → Readable escapes (backslash ∷ s) → escapes ≡ true
unfolding has_byte
Readable-backslash true s h = refl
Readable-backslash false s h = cc

read_body-doubled :
    (escapes : Bool) (s rest : Text)
    → NoQuote rest
    → Readable escapes s
    → read_body escapes (doubled s ++ quote ∷ rest) ≡ some (s, rest)
read_body-doubled escapes [] rest n h = unfold double in read_body-end escapes rest n
read_body-doubled escapes (a ∷ s) rest n h =
    let ih = read_body-doubled escapes s rest n (Readable-tail escapes a s h) in
    elim (Bool-cases (nat_beq a quote)) [
      | inl q ↦ let e = (nat_beq_iff a quote).0 q in rw (e, doubled-quote, read_body-quotes, ih)
      | inr q ↦ elim (Bool-cases (nat_beq a backslash)) [
        | inl b ↦
            let e = (nat_beq_iff a backslash).0 b in
            let t = Readable-backslash escapes s (rw e at h) in
            rw e (
              rw doubled-backslash
                (rw t (rw read_body-backslashes (rw t at (ap (push backslash) ih)))))
        | inr b ↦
            rw (doubled-plain a s q b) (rw (read_body-plain escapes a (doubled s) rest q b) (rw ih))
      ]
    ]

read_literal-plain :
    (t rest : Text)
    → read_literal (quote ∷ (t ++ quote ∷ rest)) ≡ read_body false (t ++ quote ∷ rest)
unfolding read_literal
read_literal-plain [] rest = refl
read_literal-plain (b ∷ t) rest = refl

-- PostgreSQL reads a quoted text as the text itself, wherever no quote follows.
pub read_literal-quote_literal :
    (s rest : Text) → NoQuote rest → read_literal (quote_literal s ++ rest) ≡ some (s, rest)
unfolding quote_literal
read_literal-quote_literal s rest n =
    let closed = append_assoc (doubled s) (quote ∷ []) rest in
    elim (Bool-cases (has_byte backslash s)) [
      | inl b ↦ rw b (rw closed (unfold read_literal in read_body-doubled true s rest n tt))
      | inr b ↦ rw b (rw closed (rw read_literal-plain (read_body-doubled false s rest n b)))
    ]
