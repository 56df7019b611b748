-- ===== src/Examples/Loading.antt =====
-- fixtures/ on a concrete world.
use gonkey.Base.{
  ◌≡◌, refl, true, not, ◌&&◌, none, some, List, [], ◌∷◌, ◌++◌, if◌then◌else◌, arith, pos,
}
use gonkey.Base.Text.{Text, codes, text_eq, decimal, text_beq, text_beq_iff, has_prefix}
use gonkey.Base.Dict.{lookup, later}
use gonkey.Base.Outcome.{ok}
use gonkey.Yaml.{Yaml}
use gonkey.Fixtures.Literal.{quote_literal, read_literal, read_literal-quote_literal}
use gonkey.Fixtures.Row.{yaml, Row, RowsDict, is_dollar}
use gonkey.Fixtures.World.{World, Event, begin, rollback}
use gonkey.Fixtures.Query.{in_array, fields_of, format_int, db_values_row, resolve_expression}
use gonkey.Fixtures.Files.{LoadContext, new_context, extend, load_names}
use gonkey.Fixtures.Tables.{load_tables}
use gonkey.Fixtures.Sends.{Case, AllPending}
use gonkey.Fixtures.Order.{AfterWriting, load_tables-Sends}
use gonkey.Fixtures.Finite.{EndsNamed, load_names_ends}
use gonkey.Fixtures.Refs.{lookup-extend, resolve_expression-reference, referenced}
use gonkey.Fixtures.Columns.{IsAscending, some_row_has, fields_of-columns}
use gonkey.Fixtures.Values.{ColumnValues, db_values_row-ColumnValues}

-- One file, which inherits itself.
abbrev the_file : Text
the_file = codes "fixtures/users.yml"

abbrev world : World
world = record {
  stat = text_beq the_file;
  read_file = λ _. some [];
  unmarshal = λ _. some (record { inherits = codes "users" ∷ []; tables = []; templates = [] });
  marshal = λ _. none;
  format_float = λ _. codes "1.5";
  begin_ok = true;
  exec_ok = λ log q. true;
  query_rows = λ log q. some [];
  decode_row = λ _. none;
}

abbrev row : Row
row = (codes "id", yaml (Yaml.int (pos 1))) ∷ (codes "$name", yaml (Yaml.string (codes "bob"))) ∷ []

abbrev other_row : Row
other_row = (codes "$extend", yaml (Yaml.string (codes "bob"))) ∷ []

abbrev refs : RowsDict
refs = (codes "bob", row) ∷ []

abbrev context : LoadContext
context = record new_context { tables = record { name = codes "users"; rows = row ∷ [] } ∷ [] }

read_literal-quote_literal_example :
    read_literal (quote_literal (codes "it's") ++ codes ", 1") ≡ some (codes "it's", codes ", 1")
read_literal-quote_literal_example = read_literal-quote_literal (codes "it's") (codes ", 1") refl

load_tables-Sends_example :
    (new : List Event) × ((load_tables world (codes "fix") context []).1
      ≡ [] ++ (begin ∷ (new ++ rollback ∷ [])))
    × Case
        (AfterWriting world (codes "fix") context)
        AllPending
        (load_tables world (codes "fix") context []).0
        new
load_tables-Sends_example = load_tables-Sends world (codes "fix") context [] refl

the_file-only : (c : Text) → world.stat c ≡ true → in_array c (the_file ∷ []) ≡ true
unfolding in_array
the_file-only c h = ground (arith, text_beq_iff the_file c, text_beq_iff c the_file)

load_names_ends_example :
    EndsNamed world
      (record { location = codes "fixtures" })
      (the_file ∷ [])
      the_file-only
      (load_names world (record { location = codes "fixtures" }) 2 (codes "users" ∷ []) new_context)
load_names_ends_example =
    load_names_ends world (record { location = codes "fixtures" }) (the_file ∷ []) the_file-only 2
      (codes "users" ∷ []) (omega arith)

lookup-extend_example :
    (out : Row) × (extend refs other_row ≡ ok out)
    × (lookup (codes "id") out
        ≡ later
            (lookup (codes "id") other_row)
            (if is_dollar (codes "id") then none else lookup (codes "id") row))
unfolding lookup text_beq
lookup-extend_example =
    lookup-extend refs other_row row (yaml (Yaml.string (codes "bob"))) (codes "bob") (codes "id")
      (refl, tt) refl refl refl

resolve_expression-reference_example :
    resolve_expression world refs (codes "$bob.id")
    ≡ referenced world (codes "id") (lookup (codes "bob") refs)
unfolding has_prefix
resolve_expression-reference_example =
    resolve_expression-reference world refs b'b' b'i' (codes "ob") (codes "d")
      (refl, (refl, (refl, tt))) refl (omega arith)

fields_of-columns_example :
    IsAscending (fields_of (row ∷ other_row ∷ []))
    × ((n : Text)
        → in_array n (fields_of (row ∷ other_row ∷ []))
          ≡ not (is_dollar n) && some_row_has n (row ∷ other_row ∷ []))
fields_of-columns_example = fields_of-columns (row ∷ other_row ∷ [])

db_values_row-ColumnValues_example :
    ColumnValues world [] row (codes "id" ∷ codes "zip" ∷ []) (codes "1" ∷ codes "default" ∷ [])
unfolding lookup text_beq format_int decimal db_values_row
db_values_row-ColumnValues_example =
    db_values_row-ColumnValues world [] (codes "users") 0 row (codes "id" ∷ codes "zip" ∷ [])
      (codes "1" ∷ codes "default" ∷ []) refl
