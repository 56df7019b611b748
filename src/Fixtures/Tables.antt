-- ===== src/Fixtures/Tables.antt =====
-- `loadTables`: the statements that reach the database.
use gonkey.Base.{ℕ, Bool, true, false, Option, none, some, List, [], ◌∷◌, ◌++◌, if◌then◌else◌}
use gonkey.Base.Text.{Text, codes, text_eq}
use gonkey.Base.Dict.{lookup, insert}
use gonkey.Base.Outcome
use gonkey.Base.Outcome.{Outcome, ok, fail, panic, or_fail, or_panic}
use gonkey.Fixtures.Row.{Any, Row, RowsDict, text_of}
use gonkey.Fixtures.Query.{build_insert_query, in_array}
use gonkey.Fixtures.Files.{Loader, LoadContext, LoadedTable, new_context, extend, load_names}
use gonkey.Fixtures.World.{
  World, Result, Event, begin, exec, query, commit, rollback, begin_failed, exec_failed,
  query_failed, scan_failed, bad_row_json, duplicating_ref,
}

-- What was sent to the database stays sent, whatever comes after it.
abbrev pub Db : Type 0 → Type 0
Db A = List Event → Result A × List Event

abbrev pub continue : {A B : Type 0} → Result A → (A → Db B) → Db B
continue (ok a) f log = f a log
continue (fail e) f log = (fail e, log)
continue panic f log = (panic, log)

infixl 5 ◌>>=◌ ◌>>◌
abbrev pub ◌>>=◌ : {A B : Type 0} → Db A → (A → Db B) → Db B
◌>>=◌ m f log = let (r, log') = m log in continue r f log'

abbrev pub ◌>>◌ : {A B : Type 0} → Db A → Db B → Db B
m >> k = m >>= λ _. k

abbrev pub lift : {A : Type 0} → Result A → Db A
lift r log = (r, log)

-- From `Begin` on, `Rollback` is called when the function returns: the log has the call also after `Commit`, where the
-- package database/sql sends nothing for it. The statements in between go through `f.db`, not the transaction.
abbrev pub transaction : {A : Type 0} → Bool → Db A → Db A
transaction true body log = let (r, log') = body (log ++ begin ∷ []) in (r, log' ++ rollback ∷ [])
transaction false body log = (fail begin_failed, log ++ begin ∷ [])

module _ (w : World) where
  -- `f.db.Exec` and `f.db.Query`
  abbrev pub send_exec : Text → Db (Unit {0})
  send_exec q log = (if w.exec_ok log q then ok tt else fail (exec_failed q), log ++ exec q ∷ [])

  abbrev pub send_query : Text → Db (List (Option Text))
  send_query q log = (or_fail (query_failed q) (w.query_rows log q), log ++ query q ∷ [])

  abbrev pub truncate_query : Text → Text
  truncate_query name = codes "TRUNCATE TABLE \"" ++ (name ++ codes "\" CASCADE")

  unfoldable pub truncate_table : Text → Db (Unit {0})
  truncate_table name = send_exec (truncate_query name)

  -- The first loop of `loadTables`, with the tables that are truncated already.
  unfoldable pub truncate_tables : List Text → List LoadedTable → Db (Unit {0})
  unfolding truncate_table
  truncate_tables truncated [] = lift (ok tt)
  truncate_tables truncated (lt ∷ tables) = elim (in_array lt.name truncated) [
    | true ↦ truncate_tables truncated tables
    | false ↦ truncate_table lt.name >> truncate_tables (lt.name ∷ truncated) tables
  ]

  unfoldable pub extend_rows : RowsDict → List Row → Result (List Row)
  unfolding extend
  extend_rows refs [] = ok []
  extend_rows refs (row ∷ rows) =
      Outcome.◌>>=◌ (extend refs row)
        λ row'. Outcome.◌>>=◌ (extend_rows refs rows) λ rows'. ok (row' ∷ rows')

  -- A row that the database returned, for a row with a `$name`.
  abbrev new_ref : Text → Option Row → Result (Unit {0})
  new_ref name none = ok tt
  new_ref name (some row) = fail (duplicating_ref name)

  unfoldable pub populate : LoadContext → Row → Option Text → Option Any → Result LoadContext
  populate ctx row scanned none = ok ctx
  populate ctx row scanned (some n) = Outcome.◌>>=◌ (or_panic (text_of n)) λ name.
      Outcome.◌>>=◌ (new_ref name (lookup name ctx.refs_definition)) λ _.
        Outcome.◌>>=◌ (or_fail scan_failed scanned) λ row_json.
          Outcome.◌>>=◌ (or_fail bad_row_json (w.decode_row row_json)) λ values. ok (record ctx {
            refs_definition = insert name row ctx.refs_definition;
            refs_inserted = insert name values ctx.refs_inserted;
          })

  unfoldable pub read_inserted : List Row → List (Option Text) → LoadContext → Result LoadContext
  unfolding populate
  read_inserted (row ∷ rows) (scanned ∷ inserted) ctx =
      Outcome.◌>>=◌ (populate ctx row scanned (lookup (codes "$name") row))
        (read_inserted rows inserted)
  read_inserted _ _ ctx = ok ctx

  unfoldable pub load_table : LoadContext → Text → List Row → Db LoadContext
  unfolding extend_rows build_insert_query read_inserted
  load_table ctx t rows = do
    rows' ← lift (extend_rows ctx.refs_definition rows)
    q ← lift (build_insert_query w ctx.refs_inserted t rows')
    inserted ← send_query q
    lift (read_inserted rows' inserted ctx)

  -- A table without rows is passed over.
  unfoldable pub load_rows : LoadContext → Text → List Row → Db LoadContext
  load_rows ctx t [] = lift (ok ctx)
  load_rows ctx t (row ∷ rows) = load_table ctx t (row ∷ rows)

  -- The second loop of `loadTables`.
  unfoldable pub load_each : List LoadedTable → LoadContext → Db LoadContext
  unfolding load_table load_rows
  load_each [] ctx = lift (ok ctx)
  load_each (lt ∷ tables) ctx = load_rows ctx lt.name lt.rows >>= load_each tables

  -- The text of the statement is a constant of the program.
  module _ (fix_query : Text) where
    unfoldable pub fix_sequences : Db (Unit {0})
    fix_sequences = send_exec fix_query

    unfoldable pub write_tables : LoadContext → Db (Unit {0})
    unfolding truncate_tables load_each fix_sequences
    write_tables ctx = do
      truncate_tables [] ctx.tables
      load_each ctx.tables ctx
      fix_sequences
      λ log. (ok tt, log ++ commit ∷ [])

    unfoldable pub load_tables : LoadContext → Db (Unit {0})
    load_tables ctx = transaction w.begin_ok (write_tables ctx)

    unfoldable pub load : ℕ → Loader → List Text → Db (Unit {0})
    unfolding load_names load_tables write_tables
    load fuel f names = do ctx ← lift (load_names w f fuel names new_context); load_tables ctx
