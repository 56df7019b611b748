-- ===== src/Fixtures/Refs.antt =====
-- References: rows that extend a named row, and expressions that name a field of an inserted row.
use gonkey.Base.{
  ℕ, ◌≤◌, ◌≡◌, refl, false, Option, none, some, [], ◌∷◌, ◌++◌, arith, if◌then◌else◌, length,
  nat_beq, ltb,
}
use gonkey.Base.Text.{Text, codes, text_eq, text_beq_iff, has_prefix}
use gonkey.Base.Dict.{lookup, later, insert_all, IsMap, lookup-insert_all}
use gonkey.Base.Outcome.{ok}
use gonkey.Fixtures.Row.{Any, Row, RowsDict, text_of, is_dollar, without_dollars, resolve_reference}
use gonkey.Fixtures.Query.{
  to_db_value, split_dot, field_reference, resolve_field_reference, resolve_expression, row_field,
  field_of, reference_value,
}
use gonkey.Fixtures.World.{World, Result}
use gonkey.Fixtures.Files.{extend}

lookup-without_dollars :
    (j : Text) (row : Row)
    → lookup j (without_dollars row) ≡ (if is_dollar j then none else lookup j row)
unfolding lookup without_dollars
lookup-without_dollars j [] = ground arith
lookup-without_dollars j ((k, v) ∷ row) =
    ground (arith, lookup-without_dollars j row, text_beq_iff k j)

resolve_reference-some :
    (refs : RowsDict) (name : Text) (target : Row)
    → lookup name refs ≡ some target
    → resolve_reference refs name ≡ some (without_dollars target)
unfolding resolve_reference
resolve_reference-some refs name target l = rw (l, resolve_reference)

-- A row that extends a named row: its own fields, then those of the named row, of which the names with
-- a dollar sign are left behind.
pub lookup-extend :
    (refs : RowsDict) (row target : Row) (base : Any) (name j : Text)
    → IsMap row
    → lookup (codes "$extend") row ≡ some base
    → text_of base ≡ some name
    → lookup name refs ≡ some target
    → (out : Row) × (extend refs row ≡ ok out)
      × (lookup j out ≡ later (lookup j row) (if is_dollar j then none else lookup j target))
unfolding extend
lookup-extend refs row target base name j m e t l = (
  insert_all (without_dollars target) row,
  simp (e, t) (simp (resolve_reference-some refs name target l)),
  rw (lookup-insert_all j (without_dollars target) row m) (rw (lookup-without_dollars j target)),
)

-- No dot in a name.
abbrev pub NoDot : Text → Type 0
NoDot [] = Unit
NoDot (a ∷ s) = (nat_beq a b'.' ≡ false) × NoDot s

split_dot-append :
    (name field : Text) → NoDot name → split_dot (name ++ b'.' ∷ field) ≡ some (name, field)
unfolding split_dot
split_dot-append [] field h = refl
split_dot-append (a ∷ name) field h = rw h.0 (rw (split_dot-append name field h.1))

-- What a reference is worth in the statement.
abbrev pub field_text : World → Option Any → Result Text
field_text w none = ok []
field_text w (some v) = to_db_value w v

abbrev pub referenced : World → Text → Option Row → Result Text
referenced w field none = ok []
referenced w field (some row) = field_text w (lookup field row)

short : (n : ℕ) → 5 ≤ n → ltb n 5 ≡ false
short n h = ground arith

field_of-lookup :
    (w : World) (field : Text) (o : Option Any)
    → reference_value w (field_of field o) ≡ field_text w o
field_of-lookup w field none = refl
field_of-lookup w field (some v) = refl

row_field-lookup :
    (w : World) (name field : Text) (o : Option Row)
    → reference_value w (row_field name field o) ≡ referenced w field o
row_field-lookup w name field none = refl
row_field-lookup w name field (some row) = field_of-lookup w field (lookup field row)

resolve_field_reference-split :
    (refs : RowsDict) (c d : ℕ) (name field : Text)
    → NoDot (c ∷ name)
    → resolve_field_reference refs (b'$' ∷ c ∷ (name ++ b'.' ∷ d ∷ field))
      ≡ row_field (c ∷ name) (d ∷ field) (lookup (c ∷ name) refs)
unfolding resolve_field_reference field_reference
resolve_field_reference-split refs c d name field n =
    rw (split_dot-append (b'$' ∷ c ∷ name) (d ∷ field) (refl, n))

-- The expression $name.field is worth the field of the inserted row of that name, as an SQL value. Where
-- there is no such row, or it has no such field, the text is empty and no error is reported.
pub resolve_expression-reference :
    (w : World) (refs : RowsDict) (c d : ℕ) (name field : Text)
    → NoDot (c ∷ name)
    → has_prefix (b'$' ∷ c ∷ (name ++ b'.' ∷ d ∷ field)) (codes "$eval") ≡ false
    → 5 ≤ length (b'$' ∷ c ∷ (name ++ b'.' ∷ d ∷ field))
    → resolve_expression w refs (b'$' ∷ c ∷ (name ++ b'.' ∷ d ∷ field))
      ≡ referenced w (d ∷ field) (lookup (c ∷ name) refs)
unfolding resolve_expression
resolve_expression-reference w refs c d name field n p l = rw (short _ l) (
    rw p (
      rw (resolve_field_reference-split refs c d name field n)
        (row_field-lookup w (c ∷ name) (d ∷ field) (lookup (c ∷ name) refs))))
