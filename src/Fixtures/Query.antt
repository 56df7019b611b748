-- ===== src/Fixtures/Query.antt =====
-- `buildInsertQuery` and the expressions in it.
use gonkey.Base.{
  ℕ, suc, ℤ, pos, negsuc, Bool, true, false, ◌||◌, Option, none, some, List, [], ◌∷◌, ◌++◌, map,
  nat_beq, ltb, if◌then◌else◌, length, ◌==◌,
}
use gonkey.Base.Text.{Text, codes, text_eq, text_lt, decimal, join, has_prefix}
use gonkey.Base.Dict.{lookup}
use gonkey.Base.Outcome.{ok, fail, panic, ◌>>=◌}
use gonkey.Pattern.{find_group}
use gonkey.Sort.{sort_by}
use gonkey.Value.{Value}
use gonkey.Yaml.{Yaml}
use gonkey.Fixtures.Literal.{quote_literal}
use gonkey.Fixtures.Row.{Any, yaml, json, Row, RowsDict, text_of, is_dollar}
use gonkey.Fixtures.World.{
  World, Result, undefined_reference, undefined_field, invalid_reference, incorrect_eval,
  marshal_failed, unable_to_process,
}

unfoldable pub format_int : ℤ → Text
format_int (pos n) = decimal n
format_int (negsuc n) = codes "-" ++ decimal (suc n)

abbrev pub format_bool : Bool → Text
format_bool true = codes "true"
format_bool false = codes "false"

-- The last step of `toDbValue`.
abbrev pub quote_json : Option Text → Result Text
quote_json none = fail marshal_failed
quote_json (some encoded) = ok (quote_literal encoded)

unfoldable pub to_db_value : World → Any → Result Text
to_db_value w (yaml Yaml.null) = ok (codes "NULL")
to_db_value w (yaml (Yaml.string s)) = ok (quote_literal s)
to_db_value w (yaml (Yaml.int i)) = ok (format_int i)
to_db_value w (yaml (Yaml.float64 x)) = ok (w.format_float x)
to_db_value w (yaml (Yaml.bool b)) = ok (format_bool b)
to_db_value w (json Value.nil) = ok (codes "NULL")
to_db_value w (json (Value.string s)) = ok (quote_literal s)
to_db_value w (json (Value.float64 x)) = ok (w.format_float x)
to_db_value w (json (Value.bool b)) = ok (format_bool b)
to_db_value w value = quote_json (w.marshal value)

-- `strings.SplitN(ref, ".", 2)`, where it has two parts.
abbrev in_front : ℕ → Option (Text × Text) → Option (Text × Text)
in_front a none = none
in_front a (some (s, t)) = some (a ∷ s, t)

unfoldable pub split_dot : Text → Option (Text × Text)
split_dot [] = none
split_dot (a ∷ s) = if nat_beq a b'.' then some ([], s) else in_front a (split_dot s)

-- `target[parts[1]]`
abbrev pub field_of : Text → Option Any → Result Any
field_of field none = fail (undefined_field field)
field_of field (some v) = ok v

abbrev pub row_field : Text → Text → Option Row → Result Any
row_field name field none = fail (undefined_reference name)
row_field name field (some target) = field_of field (lookup field target)

-- The parts, once their lengths are tested; the first byte of the name is the dollar sign.
unfoldable pub field_reference : RowsDict → Text → Option (Text × Text) → Result Any
field_reference refs ref (some (d ∷ n ∷ name, f ∷ field)) =
    row_field (n ∷ name) (f ∷ field) (lookup (n ∷ name) refs)
field_reference refs ref _ = fail (invalid_reference ref)

unfoldable pub resolve_field_reference : RowsDict → Text → Result Any
resolve_field_reference refs ref = field_reference refs ref (split_dot ref)

abbrev pub eval_of : Text → Option Text → Result Text
eval_of expr none = fail (incorrect_eval expr)
eval_of expr (some m) = ok (codes "(" ++ (m ++ codes ")"))

-- The error of the reference is dropped, and the text is empty.
abbrev pub reference_value : World → Result Any → Result Text
reference_value w (ok value) = to_db_value w value
reference_value w (fail e) = ok []
reference_value w panic = panic

-- `expr[:5]` panics where the expression is shorter.
unfoldable pub resolve_expression : World → RowsDict → Text → Result Text
resolve_expression w refs expr =
    if ltb (length expr) 5
    then panic
    else if has_prefix expr (codes "$eval")
    then eval_of expr (find_group (codes "$eval(") expr)
    else reference_value w (resolve_field_reference refs expr)

-- The field names of the first pass, each once, in the order of their first appearance.
unfoldable pub in_array : Text → List Text → Bool
in_array needle [] = false
in_array needle (e ∷ haystack) = if needle == e then true else in_array needle haystack

unfoldable pub add_names : Row → List Text → List Text
add_names [] fields = fields
add_names ((name, v) ∷ row) fields =
    add_names row (if is_dollar name || in_array name fields then fields else fields ++ name ∷ [])

unfoldable pub collect_fields : List Row → List Text → List Text
collect_fields [] fields = fields
collect_fields (row ∷ rows) fields = collect_fields rows (add_names row fields)

unfoldable pub fields_of : List Row → List Text
unfolding collect_fields add_names
fields_of rows = sort_by text_lt (collect_fields rows [])

-- An error of `toDbValue` names the field, the row and the table.
abbrev pub processed : Text → ℕ → Text → Result Text → Result Text
processed name i t (ok s) = ok s
processed name i t (fail e) = fail (unable_to_process name i t e)
processed name i t panic = panic

module _ (w : World) (refs : RowsDict) (t : Text) where
  -- One value: an expression if it is a text that begins with a dollar sign.
  abbrev text_value : ℕ → Text → Any → Option Text → Result Text
  text_value i name value none = processed name i t (to_db_value w value)
  text_value i name value (some s) =
      if is_dollar s then resolve_expression w refs s else processed name i t (to_db_value w value)

  unfoldable pub db_value : ℕ → Text → Option Any → Result Text
  unfolding resolve_expression resolve_field_reference field_reference split_dot to_db_value
  db_value i name none = ok (codes "default")
  db_value i name (some value) = text_value i name value (text_of value)

  unfoldable pub db_values_row : ℕ → Row → List Text → Result (List Text)
  unfolding db_value
  db_values_row i row [] = ok []
  db_values_row i row (name ∷ fields) = do
    v ← db_value i name (lookup name row)
    rest ← db_values_row i row fields
    ok (v ∷ rest)

  unfoldable pub db_values : ℕ → List Text → List Row → Result (List Text)
  unfolding db_values_row
  db_values i fields [] = ok []
  db_values i fields (row ∷ rows) = do
    vs ← db_values_row i row fields
    rest ← db_values (suc i) fields rows
    ok ((codes "(" ++ (join (codes ", ") vs ++ codes ")")) ∷ rest)

  abbrev pub table_alias : Text
  table_alias = t ++ codes "_table_gonkey"

  abbrev pub quote_field : Text → Text
  quote_field field = codes "\"" ++ (field ++ codes "\"")

  abbrev pub insert_query : List Text → List Text → Text
  insert_query fields values =
      codes "INSERT INTO \""
      ++ (t
          ++ (codes "\" AS "
              ++ (table_alias
                  ++ (codes " ("
                      ++ (join (codes ", ") (map quote_field fields)
                          ++ (codes ") VALUES "
                              ++ (join (codes ", ") values
                                  ++ (codes " RETURNING row_to_json("
                                      ++ (table_alias ++ codes ")")))))))))

  unfoldable pub build_insert_query : List Row → Result Text
  unfolding fields_of db_values
  build_insert_query rows = do
    values ← db_values 0 (fields_of rows) rows
    ok (insert_query (fields_of rows) values)
