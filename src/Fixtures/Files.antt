-- ===== src/Fixtures/Files.antt =====
-- `Loader.Load`, as far as it gathers the data from the files: `loadFile` and `loadYml`.
use gonkey.Base.{ℕ, zero, suc, Option, none, some, List, [], ◌∷◌, ◌++◌, if◌then◌else◌}
use gonkey.Base.Text.{Text, codes, text_eq, trim_right}
use gonkey.Base.Dict.{lookup, insert, insert_all}
use gonkey.Base.Outcome.{ok, fail, panic, or_fail, or_panic, ◌>>=◌}
use gonkey.Yaml.{Yaml, as_string, as_seq, as_mapping}
use gonkey.Fixtures.Row.{Any, yaml, Row, RowsDict, text_of, resolve_reference}
use gonkey.Fixtures.Query.{in_array}
use gonkey.Fixtures.World.{
  World, Result, stat_failed, read_failed, bad_yaml, duplicating_template, undefined_reference,
  expected_array, out_of_fuel, unable_to_load,
}

pub record LoadedTable : Type 0 where
  pub name : Text
  pub rows : List Row

pub record LoadContext : Type 0 where
  pub files : List Text
  pub tables : List LoadedTable
  pub refs_definition : RowsDict
  pub refs_inserted : RowsDict

abbrev pub new_context : LoadContext
new_context = record { files = []; tables = []; refs_definition = []; refs_inserted = [] }

pub record Loader : Type 0 where
  pub location : Text

unfoldable pub new_loader : Text → Loader
new_loader location = record { location = trim_right location b'/' }

-- `$extend`: the base row, overridden by the row.
abbrev extend_with : RowsDict → Row → Option Any → Result Row
extend_with refs row none = ok row
extend_with refs row (some base) = do
  name ← or_panic (text_of base)
  base_row ← or_fail (undefined_reference name) (resolve_reference refs name)
  ok (insert_all base_row row)

unfoldable pub extend : RowsDict → Row → Result Row
extend refs row = extend_with refs row (lookup (codes "$extend") row)

-- The fields of a mapping, one assignment after the other.
unfoldable pub row_of : List (Yaml × Yaml) → Row → Result Row
row_of [] row = ok row
row_of ((k, v) ∷ fields) row = do
  key ← or_panic (as_string k)
  row_of fields (insert key (yaml v) row)

abbrev pub new_template : Text → Option Row → Result (Unit {0})
new_template name none = ok tt
new_template name (some row) = fail (duplicating_template name)

unfoldable pub load_template : Yaml × Yaml → LoadContext → Result LoadContext
unfolding row_of extend
load_template (key, value) ctx = do
  name ← or_panic (as_string key)
  _ ← new_template name (lookup name ctx.refs_definition)
  fields ← or_panic (as_mapping value)
  own ← row_of fields []
  row ← extend ctx.refs_definition own
  ok (record ctx { refs_definition = insert name row ctx.refs_definition })

unfoldable pub load_templates : List (Yaml × Yaml) → LoadContext → Result LoadContext
unfolding load_template
load_templates [] ctx = ok ctx
load_templates (t ∷ templates) ctx = load_template t ctx >>= load_templates templates

unfoldable pub rows_of : List Yaml → Result (List Row)
unfolding row_of
rows_of [] = ok []
rows_of (y ∷ ys) = do
  fields ← or_panic (as_mapping y)
  row ← row_of fields []
  rest ← rows_of ys
  ok (row ∷ rest)

unfoldable pub load_source_table : Yaml × Yaml → LoadContext → Result LoadContext
unfolding rows_of
load_source_table (key, value) ctx = do
  source_rows ← or_fail expected_array (as_seq value)
  rows ← rows_of source_rows
  name ← or_panic (as_string key)
  ok (record ctx { tables = ctx.tables ++ (record { name = name; rows = rows }) ∷ [] })

unfoldable pub load_source_tables : List (Yaml × Yaml) → LoadContext → Result LoadContext
unfolding load_source_table
load_source_tables [] ctx = ok ctx
load_source_tables (t ∷ tables) ctx = load_source_table t ctx >>= load_source_tables tables

-- `loadFile` for the inherited files.
abbrev pub LoadFile : Type 0
LoadFile = Text → LoadContext → Result LoadContext

unfoldable pub load_inherits : LoadFile → List Text → LoadContext → Result LoadContext
load_inherits rec [] ctx = ok ctx
load_inherits rec (name ∷ names) ctx = rec name ctx >>= load_inherits rec names

module _ (w : World) (f : Loader) where
  unfoldable pub load_yml : LoadFile → Text → LoadContext → Result LoadContext
  unfolding load_inherits load_templates load_source_tables
  load_yml rec content ctx = do
    fixture ← or_fail bad_yaml (w.unmarshal content)
    ctx1 ← load_inherits rec fixture.inherits ctx
    ctx2 ← load_templates fixture.templates ctx1
    load_source_tables fixture.tables ctx2

  abbrev pub candidates : Text → List Text
  candidates name =
      (f.location ++ (codes "/" ++ name))
      ∷ (f.location ++ (codes "/" ++ (name ++ codes ".yml")))
      ∷ (f.location ++ (codes "/" ++ (name ++ codes ".yaml")))
      ∷ []

  -- The first candidate that exists.
  unfoldable pub find_file : List Text → Option Text
  find_file [] = none
  find_file (c ∷ cs) = if w.stat c then some c else find_file cs

  unfoldable pub open_file : LoadFile → Option Text → LoadContext → Result LoadContext
  unfolding load_yml
  open_file rec none ctx = fail stat_failed
  open_file rec (some file) ctx = if in_array file ctx.files then ok ctx else do
    content ← or_fail read_failed (w.read_file file)
    load_yml rec content (record ctx { files = ctx.files ++ file ∷ [] })

  unfoldable pub load_file : ℕ → LoadFile
  unfolding open_file find_file
  load_file zero name ctx = fail out_of_fuel
  load_file (suc fuel) name ctx = open_file (load_file fuel) (find_file (candidates name)) ctx

  abbrev pub named_error : Text → Result LoadContext → Result LoadContext
  named_error name (ok ctx) = ok ctx
  named_error name (fail e) = fail (unable_to_load name e)
  named_error name panic = panic

  -- The first loop of `Load`.
  unfoldable pub load_names : ℕ → List Text → LoadContext → Result LoadContext
  unfolding load_file
  load_names fuel [] ctx = ok ctx
  load_names fuel (name ∷ names) ctx =
      named_error name (load_file fuel name ctx) >>= load_names fuel names
