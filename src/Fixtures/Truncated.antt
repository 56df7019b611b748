-- ===== src/Fixtures/Truncated.antt =====
-- fixtures/loader.go: the first loop of `loadTables` truncates each table once.
use gonkey.Base.{
  ◌≡◌, refl, ap, Bool, true, false, ◌||◌, List, [], ◌∷◌, ◌++◌, arith, map, Bool-cases, inl, inr,
  not, ◌&&◌,
}
use gonkey.Base.Text.{Text, text_eq, text_beq, text_beq_iff}
use gonkey.Base.Outcome.{ok}
use gonkey.Fixtures.Query.{in_array}
use gonkey.Fixtures.World.{World, Event, exec}
use gonkey.Fixtures.Files.{LoadedTable}
use gonkey.Fixtures.Tables.{◌>>◌, truncate_query, truncate_table, truncate_tables}
use gonkey.Fixtures.Sends.{Sends, Sends-weaken, Sends-bind, Sends-lift, Sends-exec, AllPending}
use gonkey.Fixtures.Names.{IsDistinct}

-- The loader has a table of this name.
abbrev pub has_table : Text → List LoadedTable → Bool
has_table n [] = false
has_table n (lt ∷ tables) = text_beq n lt.name || has_table n tables

none_left : (b : Bool) → false ≡ not b && false
none_left true = refl
none_left false = refl

module _ (w : World) where
  abbrev pub truncations : List Text → List Event
  truncations names = map (λ n. exec (truncate_query w n)) names

  -- The names of the truncated tables: those not in `seen`, each once.
  pub record Truncated (seen : List Text) (tables : List LoadedTable) (new : List Event)
      : Type 0 where
    pub names : List Text
    pub sent : new ≡ truncations names
    pub distinct : IsDistinct names
    pub exactly : (n : Text) → in_array n names ≡ not (in_array n seen) && has_table n tables

  pub truncations-pending : (names : List Text) → AllPending (truncations names)
  truncations-pending [] = tt
  truncations-pending (n ∷ names) = (tt, truncations-pending names)

  -- A table whose name was seen.
  Truncated-seen :
      (seen : List Text) (lt : LoadedTable) (tables : List LoadedTable) (new : List Event)
      → in_array lt.name seen ≡ true
      → Truncated seen tables new
      → Truncated seen (lt ∷ tables) new
  Truncated-seen seen lt tables new t h = record {
    names = h.names;
    sent = h.sent;
    distinct = h.distinct;
    exactly = λ n. ground (arith, h.exactly n, text_beq_iff n lt.name);
  }

  -- A new name in front.
  Truncated-new :
      (seen : List Text) (lt : LoadedTable) (tables : List LoadedTable) (n1 n2 : List Event)
      → in_array lt.name seen ≡ false
      → n1 ≡ exec (truncate_query w lt.name) ∷ []
      → Truncated (lt.name ∷ seen) tables n2
      → Truncated seen (lt ∷ tables) (n1 ++ n2)
  unfolding in_array
  Truncated-new seen lt tables n1 n2 u e h = record {
    names = lt.name ∷ h.names;
    sent = rw e (ap (λ l. exec (truncate_query w lt.name) ∷ l) h.sent);
    distinct = (ground (arith, h.exactly lt.name, text_beq_iff lt.name lt.name), h.distinct);
    exactly = λ n. ground (arith, h.exactly n, text_beq_iff n lt.name);
  }

  truncate_table-Sends :
      (name : Text)
      → Sends (truncate_table w name) (λ _ new. new ≡ exec (truncate_query w name) ∷ []) AllPending
  unfolding truncate_table
  truncate_table-Sends name = Sends-exec w (truncate_query w name) _ AllPending refl (tt, tt)

  Truncated-nil : (seen : List Text) → Truncated seen [] []
  unfolding in_array
  Truncated-nil seen = record {
    names = [];
    sent = refl;
    distinct = tt;
    exactly = λ n. none_left (in_array n seen);
  }

  truncate_tables-seen :
      (seen : List Text) (lt : LoadedTable) (tables : List LoadedTable)
      → in_array lt.name seen ≡ true
      → truncate_tables w seen (lt ∷ tables) ≡ truncate_tables w seen tables
  unfolding truncate_tables
  truncate_tables-seen seen lt tables t = rw (t, truncate_tables)

  truncate_tables-new :
      (seen : List Text) (lt : LoadedTable) (tables : List LoadedTable)
      → in_array lt.name seen ≡ false
      → truncate_tables w seen (lt ∷ tables)
        ≡ (truncate_table w lt.name >> truncate_tables w (lt.name ∷ seen) tables)
  unfolding truncate_tables
  truncate_tables-new seen lt tables u = rw (u, truncate_tables)

  abbrev pub AfterTruncating : List Text → List LoadedTable → Unit {0} → List Event → Type 0
  AfterTruncating seen tables _ new = Truncated seen tables new

  pub truncate_tables-Sends :
      (seen : List Text) (tables : List LoadedTable)
      → Sends (truncate_tables w seen tables) (AfterTruncating seen tables) AllPending
  truncate_tables-Sends seen [] =
      unfold truncate_tables in
      Sends-lift (ok tt) (AfterTruncating seen []) AllPending (Truncated-nil seen)
  truncate_tables-Sends seen (lt ∷ tables) =
      let all = AfterTruncating seen (lt ∷ tables) in
      let rest = truncate_tables-Sends seen tables in
      let rest' = truncate_tables-Sends (lt.name ∷ seen) tables in
      elim (Bool-cases (in_array lt.name seen)) [
        | inl t ↦ rw (truncate_tables-seen seen lt tables t) (
            Sends-weaken (truncate_tables w seen tables) (AfterTruncating seen tables) all
              AllPending AllPending rest (λ _ n h. Truncated-seen seen lt tables n t h) (λ n h. h))
        | inr u ↦ rw (truncate_tables-new seen lt tables u) (
            Sends-bind (λ _ new. new ≡ exec (truncate_query w lt.name) ∷ []) all AllPending
              (truncate_table w lt.name) (λ _. truncate_tables w (lt.name ∷ seen) tables)
              (truncate_table-Sends lt.name)
              λ _ n1 e.
                Sends-weaken (truncate_tables w (lt.name ∷ seen) tables)
                  (AfterTruncating (lt.name ∷ seen) tables) (λ _ n2. all tt (n1 ++ n2)) AllPending
                  (λ n2. AllPending (n1 ++ n2)) rest'
                  (λ _ n2 h. Truncated-new seen lt tables n1 n2 u e h) (λ n2 h. rw e (tt, h)))
      ]
