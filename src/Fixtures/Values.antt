-- ===== src/Fixtures/Values.antt =====
-- fixtures/loader.go: what the columns of a row are given.
use gonkey.Base.{
  ℕ, ℤ, pos, negsuc, suc, ◌≡◌, ◌≢◌, ◌⊎◌, inl, inr, refl, subst, sym, ap, ◌∙◌, Bool, true, false,
  Option, none, some, List, [], ◌∷◌, ◌++◌, append-nil, nat_beq, nat_beq_iff, Bool-cases,
}
use gonkey.Base.Text.{Text, codes, text_eq, decimal}
use gonkey.Base.Dict.{lookup}
use gonkey.Base.Outcome
use gonkey.Base.Outcome.{ok, fail, panic, ok-injective}
use gonkey.Base.Search.{iff-false}
use gonkey.Value.{Value}
use gonkey.Yaml.{Yaml}
use gonkey.Fixtures.Literal.{quote_literal, read_literal, read_literal-quote_literal}
use gonkey.Fixtures.Row.{Any, yaml, json, Row, RowsDict}
use gonkey.Fixtures.Query.{
  format_int, to_db_value, quote_json, processed, db_value, db_values_row, resolve_expression,
}
use gonkey.Fixtures.World.{World, Result}

-- A constant that PostgreSQL reads as the text, and nothing behind it.
abbrev pub ReadsAs : Text → Text → Type 0
ReadsAs s v = read_literal v ≡ some (s, [])

abbrev pub IsNumber : ℤ → Text → Type 0
IsNumber (pos n) v = v ≡ decimal n
IsNumber (negsuc n) v = v ≡ codes "-" ++ decimal (suc n)

abbrev pub IsTruth : Bool → Text → Type 0
IsTruth true v = v ≡ codes "true"
IsTruth false v = v ≡ codes "false"

module _ (w : World) where
  -- A list or a map, as its JSON.
  abbrev pub IsJson : Any → Text → Type 0
  IsJson value v = (encoded : Text) × (w.marshal value ≡ some encoded) × ReadsAs encoded v

  -- What stands for a value that is not a text.
  abbrev pub StandsFor : Any → Text → Type 0
  StandsFor (yaml Yaml.null) v = v ≡ codes "NULL"
  StandsFor (yaml (Yaml.int i)) v = IsNumber i v
  StandsFor (yaml (Yaml.float64 x)) v = v ≡ w.format_float x
  StandsFor (yaml (Yaml.bool b)) v = IsTruth b v
  StandsFor (json Value.nil) v = v ≡ codes "NULL"
  StandsFor (json (Value.float64 x)) v = v ≡ w.format_float x
  StandsFor (json (Value.bool b)) v = IsTruth b v
  StandsFor value v = IsJson value v

  module _ (refs : RowsDict) where
    -- A text that begins with a dollar sign is an expression, any other a constant.
    abbrev pub IsTextValue : Text → Text → Type 0
    IsTextValue [] v = ReadsAs [] v
    IsTextValue (c ∷ s) v =
        ((c ≡ b'$') × (resolve_expression w refs (c ∷ s) ≡ ok v)) ⊎ ((c ≢ b'$') × ReadsAs (c ∷ s) v)

    abbrev pub IsColumnValue : Option Any → Text → Type 0
    IsColumnValue none v = v ≡ codes "default"
    IsColumnValue (some (yaml (Yaml.string s))) v = IsTextValue s v
    IsColumnValue (some (json (Value.string s))) v = IsTextValue s v
    IsColumnValue (some value) v = StandsFor value v

    -- One value for each column, in order.
    abbrev pub ColumnValues : Row → List Text → List Text → Type 0
    ColumnValues row [] [] = Unit
    ColumnValues row (name ∷ fields) (v ∷ vs) =
        IsColumnValue (lookup name row) v × ColumnValues row fields vs
    ColumnValues row _ _ = ⊥

  quoted-ReadsAs : (s : Text) → ReadsAs s (quote_literal s)
  quoted-ReadsAs s =
      ap read_literal (sym (append-nil (quote_literal s))) ∙ read_literal-quote_literal s [] tt

  constant-ReadsAs :
      (s v : Text) → ◌≡◌ {A = Result Text} (ok (quote_literal s)) (ok v) → ReadsAs s v
  constant-ReadsAs s v h = subst (ReadsAs s) (ok-injective h) (quoted-ReadsAs s)

  quote_json-IsJson :
      (value : Any) (v : Text) → quote_json (w.marshal value) ≡ ok v → IsJson value v
  quote_json-IsJson value v h = of_encoded (w.marshal value) refl h
    where
      of_encoded : (o : Option Text) → w.marshal value ≡ o → quote_json o ≡ ok v → IsJson value v
      of_encoded none e k = cc
      of_encoded (some encoded) e k = (encoded, e, constant-ReadsAs encoded v k)

  digits-IsNumber :
      (i : ℤ) (v : Text) → ◌≡◌ {A = Result Text} (ok (format_int i)) (ok v) → IsNumber i v
  unfolding format_int
  digits-IsNumber (pos n) v h = sym (ok-injective h)
  digits-IsNumber (negsuc n) v h = sym (ok-injective h)

  module _ (refs : RowsDict) (t : Text) (i : ℕ) where
    processed-ok :
        (name : Text) (o : Result Text) (v : Text) → processed name i t o ≡ ok v → o ≡ ok v
    processed-ok name (ok s) v h = h
    processed-ok name (fail e) v h = cc
    processed-ok name panic v h = cc

    text-IsTextValue :
        (name s v : Text)
        → db_value w refs t i name (some (yaml (Yaml.string s))) ≡ ok v
        → IsTextValue refs s v
    unfolding db_value to_db_value
    text-IsTextValue name [] v h = constant-ReadsAs [] v (processed-ok name _ v h)
    text-IsTextValue name (c ∷ s) v h = elim (Bool-cases (nat_beq c b'$')) [
      | inl d ↦ inl ((nat_beq_iff c b'$').0 d, rw d at h)
      | inr n ↦ inr (
        iff-false (nat_beq c b'$') (nat_beq_iff c b'$') n,
        constant-ReadsAs (c ∷ s) v (processed-ok name _ v (rw n at h)),
      )
    ]

    value-IsColumnValue :
        (name : Text) (o : Option Any) (v : Text)
        → db_value w refs t i name o ≡ ok v
        → IsColumnValue refs o v
    unfolding db_value to_db_value
    value-IsColumnValue name none v h = sym (ok-injective h)
    value-IsColumnValue name (some (yaml (Yaml.string s))) v h = text-IsTextValue name s v h
    value-IsColumnValue name (some (json (Value.string s))) v h = text-IsTextValue name s v h
    value-IsColumnValue name (some (yaml Yaml.null)) v h = sym (ok-injective h)
    value-IsColumnValue name (some (yaml (Yaml.int n))) v h = digits-IsNumber n v h
    value-IsColumnValue name (some (yaml (Yaml.float64 x))) v h = sym (ok-injective h)
    value-IsColumnValue name (some (yaml (Yaml.bool true))) v h = sym (ok-injective h)
    value-IsColumnValue name (some (yaml (Yaml.bool false))) v h = sym (ok-injective h)
    value-IsColumnValue name (some (json Value.nil)) v h = sym (ok-injective h)
    value-IsColumnValue name (some (json (Value.float64 x))) v h = sym (ok-injective h)
    value-IsColumnValue name (some (json (Value.bool true))) v h = sym (ok-injective h)
    value-IsColumnValue name (some (json (Value.bool false))) v h = sym (ok-injective h)
    value-IsColumnValue name (some (yaml (Yaml.seq s))) v h =
        quote_json-IsJson (yaml (Yaml.seq s)) v (processed-ok name _ v h)
    value-IsColumnValue name (some (yaml (Yaml.mapping m))) v h =
        quote_json-IsJson (yaml (Yaml.mapping m)) v (processed-ok name _ v h)
    value-IsColumnValue name (some (json (Value.array xs))) v h =
        quote_json-IsJson (json (Value.array xs)) v (processed-ok name _ v h)
    value-IsColumnValue name (some (json (Value.object fs))) v h =
        quote_json-IsJson (json (Value.object fs)) v (processed-ok name _ v h)

    -- Where a row is accepted, each column is given, in order, "default" if the row has no such field, and else what
    -- stands for the value: what the expression resolves to for a text that begins with a dollar sign, a constant
    -- that reads as the text for any other, NULL for null, the digits of a number, "true" or "false", and a constant
    -- that reads as its JSON for a list or a map.
    pub db_values_row-ColumnValues :
        (row : Row) (fields vs : List Text)
        → db_values_row w refs t i row fields ≡ ok vs
        → ColumnValues refs row fields vs
    unfolding db_values_row
    db_values_row-ColumnValues row [] [] h = tt
    db_values_row-ColumnValues row [] (v ∷ vs) h = cc
    db_values_row-ColumnValues row (name ∷ fields) vs h =
        let (v, here, h') = Outcome.>>=-eq-ok (db_value w refs t i name (lookup name row)) _ h in
        let (rest, below, e) = Outcome.>>=-eq-ok (db_values_row w refs t i row fields) _ h' in
        subst (ColumnValues refs row (name ∷ fields)) (ok-injective e) (
          value-IsColumnValue name (lookup name row) v here,
          db_values_row-ColumnValues row fields rest below,
        )
