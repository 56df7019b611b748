-- ===== src/Mocks/Starting.antt =====
-- mocks/mocks.go: starting the servers of all services, and what happens where one does not start.
use gonkey.Base.{
  ◌≡◌, refl, sym, ap, ◌∙◌, Bool, true, false, ◌&&◌, Option, none, some, [], ◌∷◌, ◌++◌, append-nil,
  append_assoc, All, if◌then◌else◌,
}
use gonkey.Base.Text.{Text}
use gonkey.Base.Outcome.{Outcome, ok, panic, ◌>>=◌}
use gonkey.Mocks.Service.{
  ServiceMock, StartError, Mocks, start_server, shutdown_server, shutdown, start_from, start, shut,
  with_address, started_or, after_failure,
}

abbrev NotStarted : Text × ServiceMock → Type 0
NotStarted named = named.1.address ≡ none

abbrev is_some : {A : Type 0} → Option A → Bool
is_some none = false
is_some (some a) = true

-- Whether every service is given an address.
abbrev all_listen : (Text → Option Text) → Mocks → Bool
all_listen listen [] = true
all_listen listen ((name, m) ∷ mocks) = is_some (listen m.service_name) && all_listen listen mocks

-- The services with their addresses.
abbrev pub listening : (Text → Option Text) → Mocks → Mocks
listening listen [] = []
listening listen ((name, m) ∷ mocks) =
    (name, record m { address = listen m.service_name }) ∷ listening listen mocks

shut-panic :
    (addr : Option Text) (m : ServiceMock) (k : ServiceMock → Outcome StartError Mocks)
    → ((m' : ServiceMock) → k m' ≡ panic)
    → (shut addr m >>= k) ≡ panic
shut-panic none m k h = refl
shut-panic (some addr) m k h = h _

shutdown_server-panic :
    (m : ServiceMock) (k : ServiceMock → Outcome StartError Mocks)
    → ((m' : ServiceMock) → k m' ≡ panic)
    → (shutdown_server m >>= k) ≡ panic
unfolding shutdown_server
shutdown_server-panic m k h = shut-panic m.address m k h

-- Shutting down panics at the first service that has no server.
shutdown-not_started :
    (before : Mocks) (name : Text) (m : ServiceMock) (rest : Mocks)
    → m.address ≡ none
    → shutdown (before ++ (name, m) ∷ rest) ≡ panic
unfolding shutdown shutdown_server
shutdown-not_started [] name m rest h = rw h refl
shutdown-not_started ((j, n) ∷ before) name m rest h =
    ap (λ x. shutdown_server n >>= λ n'. x >>= λ rest'. ok ((j, n') ∷ rest'))
      (shutdown-not_started before name m rest h)
    ∙ shutdown_server-panic n (λ n'. panic) (λ n'. refl)

started-given :
    (listen : Text → Option Text) (before : Mocks) (name : Text) (m : ServiceMock) (rest : Mocks)
    (given : Option Text)
    → m.address ≡ none
    → ((before' : Mocks)
        → start_from listen before' rest
          ≡ (if all_listen listen rest then ok (before' ++ listening listen rest) else panic))
    → started_or
        (with_address given m)
        (λ m'. start_from listen (before ++ (name, m') ∷ []) rest)
        (λ e. after_failure e (shutdown (before ++ (name, m) ∷ rest)))
      ≡ (if is_some given && all_listen listen rest
          then ok (before ++ (name, record m { address = given }) ∷ listening listen rest)
          else panic)
started-given listen before name m rest none h ih =
    ap (after_failure _) (shutdown-not_started before name m rest h)
started-given listen before name m rest (some addr) h ih =
    ih (before ++ (name, record m { address = some addr }) ∷ [])
    ∙ ap (λ x. if all_listen listen rest then ok x else panic)
        (append_assoc before ((name, record m { address = some addr }) ∷ [])
          (listening listen rest))

start-step :
    (listen : Text → Option Text) (before : Mocks) (name : Text) (m : ServiceMock) (rest : Mocks)
    (given : Option Text)
    → listen m.service_name ≡ given
    → m.address ≡ none
    → ((before' : Mocks)
        → start_from listen before' rest
          ≡ (if all_listen listen rest then ok (before' ++ listening listen rest) else panic))
    → start_from listen before ((name, m) ∷ rest) ≡ (
        if is_some given && all_listen listen rest
        then ok (before ++ (name, record m { address = given }) ∷ listening listen rest)
        else panic)
unfolding start_from start_server
start-step listen before name m rest given e h ih =
    ap
      (λ x.
        started_or (with_address x m) (λ m'. start_from listen (before ++ (name, m') ∷ []) rest)
          (λ e. after_failure e (shutdown (before ++ (name, m) ∷ rest))))
      e
    ∙ started-given listen before name m rest given h ih

start_from-listening :
    (listen : Text → Option Text) (before mocks : Mocks)
    → All NotStarted mocks
    → start_from listen before mocks
      ≡ (if all_listen listen mocks then ok (before ++ listening listen mocks) else panic)
unfolding start_from
start_from-listening listen before [] h = ap ok (sym (append-nil before))
start_from-listening listen before ((name, m) ∷ rest) h =
    start-step listen before name m rest (listen m.service_name) refl h.0
      (λ b. start_from-listening listen b rest h.1)

-- Where no service is started yet, starting them either gives every service its address or panics: no error
-- is returned. It panics exactly where some service gets no address, since the servers are then shut down, that
-- of this service too.
pub start-listening :
    (listen : Text → Option Text) (mocks : Mocks)
    → All NotStarted mocks
    → start listen mocks ≡ (if all_listen listen mocks then ok (listening listen mocks) else panic)
unfolding start
start-listening listen mocks h = start_from-listening listen [] mocks h
