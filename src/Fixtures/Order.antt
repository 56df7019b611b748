-- ===== src/Fixtures/Order.antt =====
-- The statements of a load: all tables are truncated, each once, before the first row is written.
use gonkey.Base.{◌≡◌, refl, true, List, [], ◌∷◌, ◌++◌, All-append}
use gonkey.Base.Text.{Text, text_eq}
use gonkey.Base.Outcome
use gonkey.Base.Outcome.{Outcome, ok, fail, panic, ok-injective}
use gonkey.Fixtures.Row.{Row, RowsDict}
use gonkey.Fixtures.Query.{in_array, build_insert_query, insert_query, fields_of, db_values}
use gonkey.Fixtures.World.{World, Event, begin, exec, query, commit, rollback}
use gonkey.Fixtures.Files.{LoadContext, LoadedTable}
use gonkey.Fixtures.Tables.{
  send_exec, send_query, truncate_tables, extend_rows, read_inserted, load_table, load_rows,
  load_each, write_tables, load_tables,
}
use gonkey.Fixtures.Sends.{
  Case, Sends, Sends-weaken, Sends-bind, Sends-lift, transaction-Sends, Sends-bind-lift,
  Sends-lift-all, Sends-exec, Sends-query, Pending, AllPending,
}
use gonkey.Fixtures.Names.{IsDistinct}
use gonkey.Fixtures.Truncated.{
  has_table, truncations, Truncated, truncations-pending, AfterTruncating, truncate_tables-Sends,
}

module _ (w : World) where
  -- One INSERT into the table, if it has rows.
  abbrev pub Inserted : Text → List Row → List Event → Type 0
  Inserted t [] new = new ≡ []
  Inserted t (_ ∷ _) new =
      (refs : RowsDict) × (fields : List Text) × (values : List Text) × (new
        ≡ query (insert_query w refs t fields values) ∷ [])

  -- The tables in order.
  abbrev pub Inserts : List LoadedTable → List Event → Type 0
  Inserts [] new = new ≡ []
  Inserts (lt ∷ tables) new =
      (n1 : List Event) × (n2 : List Event) × (new ≡ n1 ++ n2)
      × Inserted lt.name lt.rows n1
      × Inserts tables n2

  abbrev AfterInserts : List LoadedTable → LoadContext → List Event → Type 0
  AfterInserts tables _ new = Inserts tables new × AllPending new

  abbrev AfterInsert : Text → List Row → LoadContext → List Event → Type 0
  AfterInsert t rows _ new = Inserted t rows new × AllPending new

  build_insert_query-query :
      (refs : RowsDict) (t : Text) (rows : List Row) (q : Text)
      → build_insert_query w refs t rows ≡ ok q
      → (fields : List Text) × (values : List Text) × (insert_query w refs t fields values ≡ q)
  unfolding build_insert_query
  build_insert_query-query refs t rows q h =
      let (values, _, e) = Outcome.>>=-eq-ok (db_values w refs t 0 (fields_of rows) rows) _ h in
      (fields_of rows, values, ok-injective e)

  load_table-Sends :
      (ctx : LoadContext) (t : Text) (row : Row) (more : List Row)
      → Sends (load_table w ctx t (row ∷ more)) (AfterInsert t (row ∷ more)) AllPending
  unfolding load_table
  load_table-Sends ctx t row more =
      let rows : List Row = row ∷ more in
      let Q = AfterInsert t rows in
      Sends-bind-lift (extend_rows w ctx.refs_definition rows) _ Q AllPending tt λ rows' _.
        Sends-bind-lift (build_insert_query w ctx.refs_inserted t rows') _ Q AllPending tt
          λ q built.
            Sends-bind (λ _ n. n ≡ query q ∷ []) Q AllPending (send_query w q) _
              (Sends-query w q (λ _ n. n ≡ query q ∷ []) AllPending (λ _. refl) (tt, tt))
              λ inserted n1 e.
                Sends-lift-all (read_inserted w rows' inserted ctx) (λ b n2. Q b (n1 ++ n2))
                  (λ n2. AllPending (n1 ++ n2))
                  (λ c.
                    let (fields, values, same) =
                      build_insert_query-query ctx.refs_inserted t rows' q built in
                    ((ctx.refs_inserted, fields, values, rw e (rw same refl)), rw e (tt, tt)))
                  (rw e (tt, tt))

  load_rows-Sends :
      (ctx : LoadContext) (t : Text) (rows : List Row)
      → Sends (load_rows w ctx t rows) (AfterInsert t rows) AllPending
  unfolding load_rows
  load_rows-Sends ctx t [] = Sends-lift (ok ctx) (AfterInsert t []) AllPending (refl, tt)
  load_rows-Sends ctx t (row ∷ rows) = load_table-Sends ctx t row rows

  load_each-Sends :
      (tables : List LoadedTable) (ctx : LoadContext)
      → Sends (load_each w tables ctx) (AfterInserts tables) AllPending
  unfolding load_each
  load_each-Sends [] ctx = Sends-lift (ok ctx) (AfterInserts []) AllPending (refl, tt)
  load_each-Sends (lt ∷ tables) ctx =
      Sends-bind (AfterInsert lt.name lt.rows) (AfterInserts (lt ∷ tables)) AllPending
        (load_rows w ctx lt.name lt.rows) _ (load_rows-Sends ctx lt.name lt.rows)
        λ c n1 h.
          Sends-weaken (load_each w tables c) (AfterInserts tables)
            (λ b n2. AfterInserts (lt ∷ tables) b (n1 ++ n2)) AllPending
            (λ n2. AllPending (n1 ++ n2)) (load_each-Sends tables c)
            (λ b n2 k. ((n1, n2, refl, h.0, k.0), All-append Pending n1 n2 h.1 k.1))
            (λ n2 k. All-append Pending n1 n2 h.1 k)

  module _ (fix : Text) where
    -- What a load that succeeds sends between its `Begin` and its `Rollback`.
    abbrev pub Written : LoadContext → List Event → Type 0
    Written ctx new =
        (names : List Text) × (inserts : List Event) × IsDistinct names
        × ((n : Text) → in_array n names ≡ has_table n ctx.tables)
        × Inserts ctx.tables inserts
        × (new ≡ truncations w names ++ (inserts ++ (exec fix ∷ commit ∷ [])))

    abbrev pub AfterWriting : LoadContext → Unit {0} → List Event → Type 0
    AfterWriting ctx _ new = Written ctx new

    -- The parts of a load, put together.
    Written-parts :
        (ctx : LoadContext) (n1 n2 n3 : List Event)
        → Truncated w [] ctx.tables n1
        → Inserts ctx.tables n2
        → n3 ≡ exec fix ∷ []
        → Written ctx (n1 ++ (n2 ++ (n3 ++ commit ∷ [])))
    unfolding in_array
    Written-parts ctx n1 n2 n3 t i e =
        (t.names, n2, t.distinct, t.exactly, i, rw (← t.sent) (rw e refl))

    Sends-commit :
        (ctx : LoadContext) (n1 n2 n3 : List Event)
        → Truncated w [] ctx.tables n1
        → Inserts ctx.tables n2
        → n3 ≡ exec fix ∷ []
        → Sends {A = Unit {0}}
            (λ log. (ok tt, log ++ commit ∷ []))
            (λ b n. AfterWriting ctx b (n1 ++ (n2 ++ (n3 ++ n))))
            (λ n. AllPending (n1 ++ (n2 ++ (n3 ++ n))))
    Sends-commit ctx n1 n2 n3 t i e log = (commit ∷ [], refl, Written-parts ctx n1 n2 n3 t i e)

    Truncated-pending :
        (seen : List Text) (tables : List LoadedTable) (new : List Event)
        → Truncated w seen tables new
        → AllPending new
    Truncated-pending seen tables new t = rw t.sent (truncations-pending w t.names)

    write_tables-Sends :
        (ctx : LoadContext) → Sends (write_tables w fix ctx) (AfterWriting ctx) AllPending
    unfolding write_tables
    write_tables-Sends ctx =
        Sends-bind (AfterTruncating w [] ctx.tables) (AfterWriting ctx) AllPending
          (truncate_tables w [] ctx.tables) _ (truncate_tables-Sends w [] ctx.tables)
          λ _ n1 t.
            let p1 = Truncated-pending [] ctx.tables n1 t in
            let F1 : List Event → Type 0 = λ n. AllPending (n1 ++ n) in
            Sends-bind (AfterInserts ctx.tables) (λ b n. AfterWriting ctx b (n1 ++ n)) F1
              (load_each w ctx.tables ctx) _
              (Sends-weaken (load_each w ctx.tables ctx) (AfterInserts ctx.tables)
                (AfterInserts ctx.tables) AllPending F1 (load_each-Sends ctx.tables ctx)
                (λ b n h. h) (λ n h. All-append Pending n1 n p1 h))
              λ _ n2 i.
                let F2 : List Event → Type 0 = λ n. AllPending (n1 ++ (n2 ++ n)) in
                Sends-bind (λ _ n. n ≡ exec fix ∷ []) (λ b n. AfterWriting ctx b (n1 ++ (n2 ++ n)))
                  F2 (send_exec w fix) _
                  (Sends-exec w fix (λ _ n. n ≡ exec fix ∷ []) F2 refl
                    (All-append Pending n1 (n2 ++ exec fix ∷ []) p1
                      (All-append Pending n2 (exec fix ∷ []) i.1 (tt, tt))))
                  λ _ n3 e. Sends-commit ctx n1 n2 n3 t i.0 e

    -- Where the transaction begins, the statements of a load stand between its `Begin` and its
    -- `Rollback`. If the load succeeds, they are one TRUNCATE for each table that the files name and for
    -- no other, then one INSERT for each table with rows, in order, then the repair of the sequences and
    -- the `Commit`. If it fails or panics, there is no `Commit` among them.
    pub load_tables-Sends :
        (ctx : LoadContext) (log : List Event)
        → w.begin_ok ≡ true
        → (new : List Event) × ((load_tables w fix ctx log).1
            ≡ log ++ (begin ∷ (new ++ rollback ∷ [])))
          × Case (AfterWriting ctx) AllPending (load_tables w fix ctx log).0 new
    unfolding load_tables
    load_tables-Sends ctx log b =
        transaction-Sends w.begin_ok (write_tables w fix ctx) (AfterWriting ctx) AllPending b
          (write_tables-Sends ctx) log
