-- ===== src/Fixtures/Columns.antt =====
-- The columns of an INSERT: the field names of the rows, ascending, each once, and a value for each in
-- every row.
use gonkey.Base.{
  ◌≡◌, refl, ◌∙◌, Bool, true, false, not, ◌&&◌, ◌||◌, List, [], ◌∷◌, ◌++◌, arith, Bool-cases, inl,
  inr,
}
use gonkey.Base.Text.{Text, text_eq, text_beq, text_beq_iff, text_lt}
use gonkey.Sort.{insert_by, sort_by}
use gonkey.Sort.Perm.{text_lt_connected}
use gonkey.Fixtures.Row.{Row, is_dollar}
use gonkey.Fixtures.Query.{in_array, add_names, collect_fields, fields_of}
use gonkey.Fixtures.Names.{in_array-snoc, IsDistinct, IsDistinct-snoc}

-- The names that a row, or some row, has.
abbrev pub row_has : Text → Row → Bool
row_has n [] = false
row_has n ((k, v) ∷ row) = text_beq n k || row_has n row

abbrev pub some_row_has : Text → List Row → Bool
some_row_has n [] = false
some_row_has n (row ∷ rows) = row_has n row || some_row_has n rows

or_false : (a b : Bool) → a || b ≡ false → b ≡ false
or_false a b h = ground arith

add_names-in_array :
    (n : Text) (row : Row) (fields : List Text)
    → in_array n (add_names row fields) ≡ in_array n fields || (not (is_dollar n) && row_has n row)
unfolding add_names
add_names-in_array n [] fields = ground arith
add_names-in_array n ((k, v) ∷ row) fields = elim (Bool-cases (is_dollar k || in_array k fields)) [
  | inl t ↦ rw t (ground (arith, add_names-in_array n row fields, text_beq_iff n k))
  | inr u ↦ rw u (
      ground (
        arith,
        add_names-in_array n row (fields ++ k ∷ []),
        in_array-snoc n k fields,
        text_beq_iff n k,
      ))
]

collect_fields-in_array :
    (n : Text) (rows : List Row) (fields : List Text)
    → in_array n (collect_fields rows fields)
      ≡ in_array n fields || (not (is_dollar n) && some_row_has n rows)
unfolding collect_fields
collect_fields-in_array n [] fields = ground arith
collect_fields-in_array n (row ∷ rows) fields =
    ground (
      arith,
      collect_fields-in_array n rows (add_names row fields),
      add_names-in_array n row fields,
    )

insert_by-in_array :
    (n x : Text) (xs : List Text)
    → in_array n (insert_by text_lt x xs) ≡ text_beq n x || in_array n xs
unfolding insert_by in_array
insert_by-in_array n x [] = ground arith
insert_by-in_array n x (y ∷ ys) = ground (arith, insert_by-in_array n x ys)

sort_by-in_array : (n : Text) (xs : List Text) → in_array n (sort_by text_lt xs) ≡ in_array n xs
unfolding sort_by in_array
sort_by-in_array n [] = refl
sort_by-in_array n (x ∷ xs) =
    ground (arith, sort_by-in_array n xs, insert_by-in_array n x (sort_by text_lt xs))

add_names-IsDistinct :
    (row : Row) (fields : List Text) → IsDistinct fields → IsDistinct (add_names row fields)
unfolding add_names
add_names-IsDistinct [] fields d = d
add_names-IsDistinct ((k, v) ∷ row) fields d =
    elim (Bool-cases (is_dollar k || in_array k fields)) [
      | inl t ↦ rw t (add_names-IsDistinct row fields d)
      | inr u ↦ rw u (
          add_names-IsDistinct row (fields ++ k ∷ [])
            (IsDistinct-snoc fields k d (or_false (is_dollar k) (in_array k fields) u)))
    ]

collect_fields-IsDistinct :
    (rows : List Row) (fields : List Text)
    → IsDistinct fields
    → IsDistinct (collect_fields rows fields)
unfolding collect_fields
collect_fields-IsDistinct [] fields d = d
collect_fields-IsDistinct (row ∷ rows) fields d =
    collect_fields-IsDistinct rows (add_names row fields) (add_names-IsDistinct row fields d)

-- The first of the names, if there is one, stands behind `x`.
abbrev pub IsBelow : Text → List Text → Type 0
IsBelow x [] = Unit
IsBelow x (y ∷ ys) = text_lt x y ≡ true

-- Strictly ascending: no name twice.
abbrev pub IsAscending : List Text → Type 0
IsAscending [] = Unit
IsAscending (x ∷ xs) = IsBelow x xs × IsAscending xs

IsBelow-insert_by :
    (y x : Text) (ys : List Text)
    → IsBelow y ys
    → text_lt y x ≡ true
    → IsBelow y (insert_by text_lt x ys)
unfolding insert_by
IsBelow-insert_by y x [] b h = h
IsBelow-insert_by y x (z ∷ zs) b h = elim (Bool-cases (text_lt z x)) [
  | inl t ↦ rw t b
  | inr u ↦ rw u h
]

insert_by-IsAscending :
    (x : Text) (ys : List Text)
    → IsAscending ys
    → in_array x ys ≡ false
    → IsAscending (insert_by text_lt x ys)
unfolding insert_by in_array
insert_by-IsAscending x [] a n = (tt, tt)
insert_by-IsAscending x (y ∷ ys) a n = elim (Bool-cases (text_lt y x)) [
  | inl t ↦ rw t (IsBelow-insert_by y x ys a.0 t, insert_by-IsAscending x ys a.1 (ground arith))
  | inr u ↦ rw u (ground (arith, text_lt_connected x y, text_beq_iff x y), a)
]

sort_by-IsAscending : (xs : List Text) → IsDistinct xs → IsAscending (sort_by text_lt xs)
unfolding sort_by
sort_by-IsAscending [] d = tt
sort_by-IsAscending (x ∷ xs) d =
    insert_by-IsAscending x (sort_by text_lt xs) (sort_by-IsAscending xs d.1)
      (sort_by-in_array x xs ∙ d.0)

-- The columns are ascending, each once, and exactly the names of the rows without a dollar sign; the
-- order in which the maps are visited does not show.
pub fields_of-columns :
    (rows : List Row)
    → IsAscending (fields_of rows)
      × ((n : Text) → in_array n (fields_of rows) ≡ not (is_dollar n) && some_row_has n rows)
fields_of-columns rows =
    unfold fields_of in_array in
    (
      sort_by-IsAscending (collect_fields rows []) (collect_fields-IsDistinct rows [] tt),
      λ n. sort_by-in_array n (collect_fields rows []) ∙ collect_fields-in_array n rows [],
    )
