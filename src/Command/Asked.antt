-- ===== src/Command/Asked.antt =====
-- main.go: the flags that are accepted, and the runner that they ask for.
use gonkey.Base.{
  ◌≡◌, ◌≢◌, ◌↔◌, ◌⊎◌, inl, inr, refl, ap, subst, map, Bool, true, false, not, ◌&&◌, ◌||◌, Option,
  none, some, List, [], ◌∷◌, ◌++◌, Bool-cases,
}
use gonkey.Base.Text.{Text, codes, text_beq, has_prefix}
use gonkey.Base.Search.{StartsWith, Trims, has_prefix_iff, trim_right-Trims}
use gonkey.Base.Outcome.{Outcome, ok, guard, ok-injective, ◌>>◌}
use gonkey.Checker.{Checker}
use gonkey.Checker.ResponseBody
use gonkey.Checker.ResponseDb
use gonkey.Checker.ResponseSchema.{new_checker}
use gonkey.Output.Console
use gonkey.Models.{Test, Result}
use gonkey.Runner.{Call, Env}
use gonkey.Command.Parts.{
  body, schema, db, console, allure, Setup, Parts, env_of, checker_of, output_of, is_some,
}
use gonkey.Command.Main.{
  hostname_not_provided, no_tests_location, db_failed, db_dsn_needed, full_host, given, when, Flags,
  Fatal, configure,
}

-- A flag asks for a part.
abbrev pub Asks : {A : Type 0} → Text → A → List A → Type 0
Asks flag a asked = ((flag ≡ []) × (asked ≡ [])) ⊎ ((flag ≢ []) × (asked ≡ a ∷ []))

abbrev pub AsksIf : {A : Type 0} → Bool → A → List A → Type 0
AsksIf true a asked = asked ≡ a ∷ []
AsksIf false a asked = asked ≡ []

-- The host and the tests are named, the database, if there is one, can be opened, and there is one where fixtures
-- are named.
abbrev pub IsComplete : (Text → Bool) → Flags → Type 0
IsComplete open_db flags =
    (flags.host ≢ [])
    × (flags.tests_location ≢ [])
    × ((flags.db_dsn ≡ []) ⊎ (open_db flags.db_dsn ≡ true))
    × ((flags.fixtures_location ≡ []) ⊎ (flags.db_dsn ≢ []))

-- A host has a scheme.
abbrev pub HasScheme : Text → Type 0
HasScheme host = StartsWith (codes "http://") host ⊎ StartsWith (codes "https://") host

-- The host with a scheme, without the slashes at its end.
abbrev pub IsAddress : Text → Text → Type 0
IsAddress host address =
    (HasScheme host × Trims b'/' host address)
    ⊎ ((¬ HasScheme host) × Trims b'/' (codes "http://" ++ host) address)

given_iff : (s : Text) → (given s ≡ true) ↔ (s ≢ [])
unfolding text_beq
given_iff [] = (λ h. cc, λ n. absurd (n refl))
given_iff (a ∷ s) = (λ _ e. cc, λ _. refl)

unless : (s : Text) (b : Bool) → (not (given s) || b) ≡ true → (s ≡ []) ⊎ (b ≡ true)
unfolding text_beq
unless [] b h = inl refl
unless (c ∷ s) b h = inr h

both_given : (s t : Text) → (s ≡ []) ⊎ (t ≢ []) → ((given t && given s) ≡ true) ↔ (s ≢ [])
unfolding text_beq
both_given s [] o = (λ h. cc, λ n. elim o [ inl e ↦ absurd (n e) | inr m ↦ absurd (m refl) ])
both_given s (c ∷ t) o = given_iff s

full_host-IsAddress : (host : Text) → IsAddress host (full_host host)
unfolding full_host
full_host-IsAddress host = elim (Bool-cases (has_prefix host (codes "http://"))) [
  | inl t ↦
      rw t (inl (inl ((has_prefix_iff host (codes "http://")).0 t), trim_right-Trims host b'/'))
  | inr f ↦ elim (Bool-cases (has_prefix host (codes "https://"))) [
    | inl t ↦
        rw (f, t)
          (inl (inr ((has_prefix_iff host (codes "https://")).0 t), trim_right-Trims host b'/'))
    | inr g ↦
        rw (f, g)
          (inr (
            λ h. elim h [
              | inl p ↦ cc (f, (has_prefix_iff host (codes "http://")).1 p)
              | inr p ↦ cc (g, (has_prefix_iff host (codes "https://")).1 p)
            ],
            trim_right-Trims (codes "http://" ++ host) b'/',
          ))
  ]
]

guarded :
    {B : Type 0} (b : Bool) (e : Fatal) (o : Outcome Fatal B) {r : B}
    → (guard b e >> o) ≡ ok r
    → (b ≡ true) × (o ≡ ok r)
guarded true e o h = (refl, h)
guarded false e o h = cc

map-Asks :
    {A B : Type 0} (f : A → B) (flag : Text) (a : A) → Asks flag (f a) (map f (when (given flag) a))
unfolding text_beq
map-Asks f [] a = inl (refl, refl)
map-Asks f (c ∷ flag) a = inr (λ e. cc, refl)

map-AsksIf : {A B : Type 0} (f : A → B) (b : Bool) (a : A) → AsksIf b (f a) (map f (when b a))
map-AsksIf f true a = refl
map-AsksIf f false a = refl

map-both : {A B : Type 0} (f : A → B) (xs ys : List A) → map f (xs ++ ys) ≡ map f xs ++ map f ys
map-both f [] ys = refl
map-both f (x ∷ xs) ys = ap (λ zs. f x ∷ zs) (map-both f xs ys)

-- The guards on the flags, and what passes them.
configure-IsComplete :
    (open_db : Text → Bool) (flags : Flags) (setup : Setup)
    → configure open_db flags ≡ ok setup
    → IsComplete open_db flags
      × (record {
        host = full_host flags.host;
        tests_location = flags.tests_location;
        has_fixtures = given flags.db_dsn && given flags.fixtures_location;
        has_mocks = false;
        checkers =
            body
            ∷ (when (given flags.spec_path) (schema flags.spec_path)
                ++ when (given flags.db_dsn) db);
        outputs = console flags.verbose ∷ when flags.allure_report allure;
      }
          ≡ setup)
unfolding configure
configure-IsComplete open_db flags setup h =
    let (host, h₁) = guarded (given flags.host) hostname_not_provided _ h in
    let (tests, h₂) = guarded (given flags.tests_location) no_tests_location _ h₁ in
    let (opened, h₃) = guarded (not (given flags.db_dsn) || open_db flags.db_dsn) db_failed _ h₂ in
    let (needed, h₄) =
      guarded (not (given flags.fixtures_location) || given flags.db_dsn) db_dsn_needed _ h₃ in
    let named : (flags.fixtures_location ≡ []) ⊎ (flags.db_dsn ≢ []) =
      elim (unless flags.fixtures_location (given flags.db_dsn) needed) [
        | inl e ↦ inl e
        | inr g ↦ inr ((given_iff flags.db_dsn).0 g)
      ] in
    (
      (
        (given_iff flags.host).0 host,
        (given_iff flags.tests_location).0 tests,
        unless flags.db_dsn (open_db flags.db_dsn) opened,
        named,
      ),
      ok-injective h₄,
    )

module _ {Schema : Type 0} (parts : Parts Schema) where
  -- An output for the console: it returns no error exactly where there is something to show.
  abbrev pub IsConsole : Bool → (List Call → Test → Result → Bool) → Type 0
  IsConsole verbose output =
      (log : List Call) (t : Test) (result : Result)
      → (output log t result ≡ true) ↔ (
          (shown : Console.Console × List Console.Shown) × (Console.process parts.render_console t
              result (Console.new_output verbose)
            ≡ some shown))

  -- A runner as the flags ask for it: bodies are always checked, a specification if there is one, and a database if
  -- there is one; there are fixtures exactly where they are named.
  pub record IsAsked (flags : Flags) (env : Env) : Type 0 where
    pub address : IsAddress flags.host env.host
    pub fixtures : (env.has_fixtures_loader ≡ true) ↔ (flags.fixtures_location ≢ [])
    pub mocks : (env.has_mocks ≡ false) × (env.has_mocks_loader ≡ false)
    pub checkers :
        (of_spec of_db : List (List Call → Checker)) × Asks flags.spec_path
          (λ log.
            new_checker parts.to_lower parts.to_upper parts.unmarshal parts.against_schema
              (parts.load_spec flags.spec_path))
          of_spec
        × Asks flags.db_dsn
            (λ log. ResponseDb.check parts.unmarshal parts.diff (parts.db_query log))
            of_db
        × (env.checkers
            ≡ (λ log. ResponseBody.check parts.runtime parts.unmarshal) ∷ (of_spec ++ of_db))
    pub outputs :
        (on_console : List Call → Test → Result → Bool) × (of_report : List
          (List Call → Test → Result → Bool))
        × IsConsole flags.verbose on_console
        × AsksIf flags.allure_report (λ log t result. true) of_report
        × (env.outputs ≡ on_console ∷ of_report)

  is_some_iff : {A : Type 0} (o : Option A) → (is_some parts o ≡ true) ↔ ((a : A) × (o ≡ some a))
  is_some_iff none = (λ h. cc, λ (a, e). cc)
  is_some_iff (some a) = (λ _. (a, refl), λ _. refl)

  -- What the command puts together is what its flags ask for.
  pub configure-IsAsked :
      (flags : Flags) (setup : Setup)
      → configure parts.open_db flags ≡ ok setup
      → IsComplete parts.open_db flags
        × IsAsked flags (env_of parts setup)
        × (flags.tests_location ≡ setup.tests_location)
  configure-IsAsked flags setup h =
      let (complete, e) = configure-IsComplete parts.open_db flags setup h in
      let checks = checker_of parts in
      (
        complete,
        subst (λ x. IsAsked flags (env_of parts x)) e
            (record {
              address = full_host-IsAddress flags.host;
              fixtures = both_given flags.fixtures_location flags.db_dsn complete.3;
              mocks = (refl, refl);
              checkers = (
                map (checker_of parts) (when (given flags.spec_path) (schema flags.spec_path)),
                map (checker_of parts) (when (given flags.db_dsn) db),
                map-Asks (checker_of parts) flags.spec_path (schema flags.spec_path),
                map-Asks (checker_of parts) flags.db_dsn db,
                ap (λ zs. checker_of parts body ∷ zs)
                    (map-both (checker_of parts)
                      (when (given flags.spec_path) (schema flags.spec_path))
                      (when (given flags.db_dsn) db)),
              );
              outputs = (
                output_of parts (console flags.verbose),
                map (output_of parts) (when flags.allure_report allure),
                λ log t result. is_some_iff (
                    Console.process parts.render_console t result
                      (Console.new_output flags.verbose)),
                map-AsksIf (output_of parts) flags.allure_report allure,
                refl,
              );
            }),
        ap (λ (x : Setup). x.tests_location) e,
      )
