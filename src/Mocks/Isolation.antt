-- ===== src/Mocks/Isolation.antt =====
-- mocks/: what a test finds of the tests before it.
use gonkey.Base.{
  some-injective, subst, ◌≡◌, refl, sym, ap, ap₂, ◌∙◌, Bool, Option, none, some, List, [], ◌∷◌,
  Bool-cases, inl, inr,
}
use gonkey.Base.Text.{Text, text_eq, text_beq}
use gonkey.Value.{Value, Runtime}
use gonkey.Mocks.Constraint.{ServerRequest}
use gonkey.Mocks.Definition.{Definition, MockError, reset}
use gonkey.Mocks.Resets.{reset-left, reset-reset}
use gonkey.Mocks.Service.{
  ServiceMock, set_definition, reset_definition, serve_http, reset_service, Mocks,
  reset_definitions, reset_running_context, service_with, cons_some, serve_at, set_at,
}

-- The two resets that the runner makes before a test.
abbrev pub fresh : Mocks → Option Mocks
fresh mocks = reset_running_context (reset_definitions mocks)

abbrev pub fresh_service : ServiceMock → Option ServiceMock
fresh_service m = reset_service (reset_definition m)

module _ (rt : Runtime) (unmarshal : Text → Option Value) (equal_fold : Text → Text → Bool) where
  -- What happens to the mocks while tests run: a request is served, a definition is set, or one of the resets is
  -- made. The first two hold the lock of their service; the resets hold none, and are taken to happen between them.
  pub data Step : Mocks → Mocks → Type 0 where
    served :
        (mocks : Mocks) (service : Text) (r : ServerRequest)
        → Step mocks (serve_at rt unmarshal equal_fold service r mocks)
    loaded :
        (mocks : Mocks) (service : Text) (def : Definition) → Step mocks (set_at service def mocks)
    restored : (mocks : Mocks) → Step mocks (reset_definitions mocks)
    reset_counts :
        {mocks mocks' : Mocks} → reset_running_context mocks ≡ some mocks' → Step mocks mocks'

  pub data Reach (mocks : Mocks) : Mocks → Type 0 where
    start : Reach mocks mocks
    later : {mocks1 mocks2 : Mocks} → Reach mocks mocks1 → Step mocks1 mocks2 → Reach mocks mocks2

  fresh-serve_fields :
      (r : ServerRequest) (name : Text) (default given : Option Definition) (errs : List MockError)
      (addr : Option Text)
      → fresh_service
          (serve_http rt unmarshal equal_fold r (service_with name default given errs addr)).left
        ≡ fresh_service (service_with name default given errs addr)
  unfolding serve_http reset_service reset_definition
  fresh-serve_fields r name none none errs addr = refl
  fresh-serve_fields r name (some def) none errs addr =
      ap (λ d. some (service_with name (some d) none [] addr))
        (reset-left rt unmarshal equal_fold r def)
  fresh-serve_fields r name none (some def) errs addr = refl
  fresh-serve_fields r name (some def) (some given) errs addr = refl

  fresh-serve :
      (r : ServerRequest) (m : ServiceMock)
      → fresh_service (serve_http rt unmarshal equal_fold r m).left ≡ fresh_service m
  fresh-serve r m =
      fresh-serve_fields r m.service_name m.default_definition m.set m.errors m.address

  fresh_after :
      (m m' : ServiceMock)
      → fresh_service m' ≡ fresh_service m
      → (x : ServiceMock) → m' ≡ x
      → fresh_service x ≡ fresh_service m
  fresh_after m m' h x e = subst (λ y. fresh_service y ≡ fresh_service m) e h

  fresh-reset_fields :
      (name : Text) (default given : Option Definition) (errs : List MockError) (addr : Option Text)
      (m' : ServiceMock)
      → reset_service (service_with name default given errs addr) ≡ some m'
      → fresh_service m' ≡ fresh_service (service_with name default given errs addr)
  unfolding reset_service reset_definition
  fresh-reset_fields name none none errs addr m' h = cc
  fresh-reset_fields name (some def) none errs addr m' h =
      fresh_after (service_with name (some def) none errs addr)
        (service_with name (some (reset def)) none [] addr)
        (ap (λ d. some (service_with name (some d) none [] addr)) (reset-reset def)) m'
        (some-injective h)
  fresh-reset_fields name none (some given) errs addr m' h =
      fresh_after (service_with name none (some given) errs addr)
        (service_with name none (some (reset given)) [] addr) refl m' (some-injective h)
  fresh-reset_fields name (some def) (some given) errs addr m' h =
      fresh_after (service_with name (some def) (some given) errs addr)
        (service_with name (some def) (some (reset given)) [] addr) refl m' (some-injective h)

  fresh-reset :
      (m m' : ServiceMock) → reset_service m ≡ some m' → fresh_service m' ≡ fresh_service m
  fresh-reset m m' h =
      fresh-reset_fields m.service_name m.default_definition m.set m.errors m.address m' h

  pub fresh-cons :
      (name : Text) (m : ServiceMock) (mocks : Mocks)
      → fresh ((name, m) ∷ mocks) ≡ cons_some name (fresh_service m) (fresh mocks)
  unfolding reset_running_context reset_definitions
  fresh-cons name m mocks = refl

  fresh-serve_at :
      (service : Text) (r : ServerRequest) (mocks : Mocks)
      → fresh (serve_at rt unmarshal equal_fold service r mocks) ≡ fresh mocks
  unfolding serve_at reset_running_context reset_definitions
  fresh-serve_at service r [] = refl
  fresh-serve_at service r ((name, m) ∷ mocks) = elim (Bool-cases (text_beq name service)) [
    | inl t ↦ rw t (ap (λ x. cons_some name x (fresh mocks)) (fresh-serve r m))
    | inr f ↦ rw f (ap (cons_some name (fresh_service m)) (fresh-serve_at service r mocks))
  ]

  fresh-set_at :
      (service : Text) (def : Definition) (mocks : Mocks)
      → fresh (set_at service def mocks) ≡ fresh mocks
  unfolding set_at reset_running_context reset_definitions set_definition reset_definition
  fresh-set_at service def [] = refl
  fresh-set_at service def ((name, m) ∷ mocks) = elim (Bool-cases (text_beq name service)) [
    | inl t ↦ rw t refl
    | inr f ↦ rw f (ap (cons_some name (fresh_service m)) (fresh-set_at service def mocks))
  ]

  fresh-restored : (mocks : Mocks) → fresh (reset_definitions mocks) ≡ fresh mocks
  unfolding reset_running_context reset_definitions reset_definition
  fresh-restored [] = refl
  fresh-restored ((name, m) ∷ mocks) = ap (cons_some name (fresh_service m)) (fresh-restored mocks)

  fresh-reset_cons :
      (name : Text) (m : ServiceMock) (mocks : Mocks) (first : Option ServiceMock)
      (rest : Option Mocks) (after : Mocks)
      → ((m' : ServiceMock) → first ≡ some m' → fresh_service m' ≡ fresh_service m)
      → ((mocks' : Mocks) → rest ≡ some mocks' → fresh mocks' ≡ fresh mocks)
      → cons_some name first rest ≡ some after
      → fresh after ≡ fresh ((name, m) ∷ mocks)
  fresh-reset_cons name m mocks none none after h₁ h₂ e = cc
  fresh-reset_cons name m mocks none (some mocks') after h₁ h₂ e = cc
  fresh-reset_cons name m mocks (some m') none after h₁ h₂ e = cc
  fresh-reset_cons name m mocks (some m') (some mocks') after h₁ h₂ e =
      subst (λ x. fresh x ≡ fresh ((name, m) ∷ mocks)) (some-injective e)
        (fresh-cons name m' mocks'
          ∙ ap₂ (cons_some name) (h₁ m' refl) (h₂ mocks' refl)
          ∙ sym (fresh-cons name m mocks))

  fresh-reset_counts :
      (mocks after : Mocks) → reset_running_context mocks ≡ some after → fresh after ≡ fresh mocks
  unfolding reset_running_context
  fresh-reset_counts [] after e = subst (λ x. fresh x ≡ fresh []) (some-injective e) refl
  fresh-reset_counts ((name, m) ∷ mocks) after e =
      fresh-reset_cons name m mocks (reset_service m) (reset_running_context mocks) after
        (fresh-reset m) (fresh-reset_counts mocks) e

  fresh-Step : (mocks mocks' : Mocks) → Step mocks mocks' → fresh mocks' ≡ fresh mocks
  fresh-Step mocks _ (served _ service r) = fresh-serve_at service r mocks
  fresh-Step mocks _ (loaded _ service def) = fresh-set_at service def mocks
  fresh-Step mocks _ (restored _) = fresh-restored mocks
  fresh-Step mocks mocks' (reset_counts e) = fresh-reset_counts mocks mocks' e

  -- Whatever requests were served, definitions set and resets made since the mocks were in some state, the two
  -- resets at the beginning of a test end alike: both panic, or both leave the same mocks.
  pub Reach-fresh : (mocks mocks' : Mocks) → Reach mocks mocks' → fresh mocks' ≡ fresh mocks
  Reach-fresh mocks _ start = refl
  Reach-fresh mocks mocks' (later {mocks1 = mocks1} {mocks2 = _} before step) =
      fresh-Step mocks1 mocks' step ∙ Reach-fresh mocks mocks1 before
