-- ===== src/Fixtures/Sends.antt =====
-- Postconditions of database actions, on the statements that they send.
use gonkey.Base.{
  ◌≡◌, refl, ap, sym, ◌∙◌, Bool, true, false, Option, List, [], ◌∷◌, ◌++◌, All, Bool-cases,
  Option-cases, inl, inr, append-nil, append_assoc,
}
use gonkey.Base.Text.{Text, text_eq}
use gonkey.Base.Outcome.{ok, fail, panic}
use gonkey.Fixtures.World.{World, Result, Event, begin, exec, query, rollback}
use gonkey.Fixtures.Tables.{continue, transaction, Db, ◌>>=◌, lift, send_exec, send_query}

-- What an action sends and returns: `P` of its value and its statements, or `F` of its statements where
-- it fails or panics.
abbrev pub Case :
    {A : Type 0}
    → (A → List Event → Type 0)
    → (List Event → Type 0)
    → Result A
    → List Event
    → Type 0
Case P F (ok a) new = P a new
Case P F (fail e) new = F new
Case P F panic new = F new

abbrev pub Sends : {A : Type 0} → Db A → (A → List Event → Type 0) → (List Event → Type 0) → Type 0
Sends m P F =
    (log : List Event) → (new : List Event) × ((m log).1 ≡ log ++ new) × Case P F (m log).0 new

pub Case-shift :
    {A : Type 0} (P : A → List Event → Type 0) (F : List Event → Type 0) (r : Result A)
    (n1 n2 : List Event)
    → Case (λ a n. P a (n1 ++ n)) (λ n. F (n1 ++ n)) r n2
    → Case P F r (n1 ++ n2)
Case-shift P F (ok a) n1 n2 h = h
Case-shift P F (fail e) n1 n2 h = h
Case-shift P F panic n1 n2 h = h

Case-weaken :
    {A : Type 0} (P Q : A → List Event → Type 0) (F G : List Event → Type 0) (r : Result A)
    (new : List Event)
    → ((a : A) (n : List Event) → P a n → Q a n)
    → ((n : List Event) → F n → G n)
    → Case P F r new
    → Case Q G r new
Case-weaken P Q F G (ok a) new p f c = p a new c
Case-weaken P Q F G (fail e) new p f c = f new c
Case-weaken P Q F G panic new p f c = f new c

module _ {A B : Type 0} (P : A → List Event → Type 0) (Q : B → List Event → Type 0)
    (F : List Event → Type 0) where
  Sends-continue :
      (f : A → Db B)
      → ((a : A) (n1 : List Event)
          → P a n1
          → Sends (f a) (λ b n2. Q b (n1 ++ n2)) (λ n2. F (n1 ++ n2)))
      → (log n1 : List Event) (r : Result A) (l : List Event) → l ≡ log ++ n1
      → Case P F r n1
      → (new : List Event) × ((continue r f l).1 ≡ log ++ new) × Case Q F (continue r f l).0 new
  Sends-continue f k log n1 (ok a) l e c =
      let (n2, e2, c2) = k a n1 c l in
      (
        n1 ++ n2,
        e2 ∙ (ap (λ x. x ++ n2) e ∙ append_assoc log n1 n2),
        Case-shift Q F (f a l).0 n1 n2 c2,
      )
  Sends-continue f k log n1 (fail x) l e c = (n1, e, c)
  Sends-continue f k log n1 panic l e c = (n1, e, c)

  pub Sends-bind :
      (m : Db A) (f : A → Db B)
      → Sends m P F
      → ((a : A) (n1 : List Event)
          → P a n1
          → Sends (f a) (λ b n2. Q b (n1 ++ n2)) (λ n2. F (n1 ++ n2)))
      → Sends (m >>= f) Q F
  Sends-bind m f h k log =
      let (n1, e, c) = h log in Sends-continue f k log n1 (m log).0 (m log).1 e c

pub Sends-weaken :
    {A : Type 0} (m : Db A) (P Q : A → List Event → Type 0) (F G : List Event → Type 0)
    → Sends m P F
    → ((a : A) (n : List Event) → P a n → Q a n)
    → ((n : List Event) → F n → G n)
    → Sends m Q G
Sends-weaken m P Q F G h p f log =
    let (new, e, c) = h log in (new, e, Case-weaken P Q F G (m log).0 new p f c)

-- Statements inside the transaction.
abbrev pub Pending : Event → Type 0
Pending (exec q) = Unit
Pending (query q) = Unit
Pending _ = ⊥

abbrev pub AllPending : List Event → Type 0
AllPending = All Pending

pub Sends-lift :
    {A : Type 0} (r : Result A) (P : A → List Event → Type 0) (F : List Event → Type 0)
    → Case P F r []
    → Sends (lift r) P F
Sends-lift (ok a) P F h log = ([], sym (append-nil log), h)
Sends-lift (fail e) P F h log = ([], sym (append-nil log), h)
Sends-lift panic P F h log = ([], sym (append-nil log), h)

pub Sends-bind-lift :
    {A B : Type 0} (r : Result A) (f : A → Db B) (Q : B → List Event → Type 0)
    (F : List Event → Type 0)
    → F []
    → ((a : A) → r ≡ ok a → Sends (f a) Q F)
    → Sends (lift r >>= f) Q F
Sends-bind-lift (ok a) f Q F h k log = k a refl log
Sends-bind-lift (fail e) f Q F h k log = ([], sym (append-nil log), h)
Sends-bind-lift panic f Q F h k log = ([], sym (append-nil log), h)

-- A last step that sends nothing.
pub Sends-lift-all :
    {A : Type 0} (r : Result A) (P : A → List Event → Type 0) (F : List Event → Type 0)
    → ((a : A) → P a [])
    → F []
    → Sends (lift r) P F
Sends-lift-all (ok a) P F p f = Sends-lift (ok a) P F (p a)
Sends-lift-all (fail e) P F p f = Sends-lift (fail e) P F f
Sends-lift-all panic P F p f = Sends-lift panic P F f

pub transaction-Sends :
    {A : Type 0} (b : Bool) (body : Db A) (P : A → List Event → Type 0) (F : List Event → Type 0)
    → b ≡ true
    → Sends body P F
    → (log : List Event)
    → (new : List Event) × ((transaction b body log).1 ≡ log ++ (begin ∷ (new ++ rollback ∷ [])))
      × Case P F (transaction b body log).0 new
transaction-Sends true body P F b h log =
    let (new, e, c) = h (log ++ begin ∷ []) in
    (
      new,
      ap (λ l. l ++ rollback ∷ []) e
          ∙ (append_assoc (log ++ begin ∷ []) new (rollback ∷ [])
              ∙ append_assoc log (begin ∷ []) (new ++ rollback ∷ [])),
      c,
    )
transaction-Sends false body P F b h log = cc

module _ (w : World) where
  pub Sends-exec :
      (q : Text) (P : Unit {0} → List Event → Type 0) (F : List Event → Type 0)
      → P tt (exec q ∷ [])
      → F (exec q ∷ [])
      → Sends (send_exec w q) P F
  Sends-exec q P F p f log = elim (Bool-cases (w.exec_ok log q)) [
    | inl t ↦ (exec q ∷ [], refl, rw t p)
    | inr u ↦ (exec q ∷ [], refl, rw u f)
  ]

  pub Sends-query :
      (q : Text) (P : List (Option Text) → List Event → Type 0) (F : List Event → Type 0)
      → ((rows : List (Option Text)) → P rows (query q ∷ []))
      → F (query q ∷ [])
      → Sends (send_query w q) P F
  Sends-query q P F p f log = elim (Option-cases (w.query_rows log q)) [
    | inl e ↦ (query q ∷ [], refl, rw e f)
    | inr (rows, e) ↦ (query q ∷ [], refl, rw e (p rows))
  ]
