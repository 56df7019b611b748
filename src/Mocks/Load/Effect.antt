-- ===== src/Mocks/Load/Effect.antt =====
-- mocks/loader.go: what loading the definitions of a test case does to the services.
use gonkey.Base.{
  ◌≡◌, refl, sym, ap, ◌∙◌, subst, Option, none, some, List, [], ◌∷◌, if◌then◌else◌, ◌==◌,
  Bool-cases, inl, inr, arith,
}
use gonkey.Base.Text.{Text, codes, text_eq, text_beq, text_beq_iff}
use gonkey.Base.Dict.{Dict, lookup, IsMap}
use gonkey.Base.Outcome.{Outcome, ok, fail, panic}
use gonkey.Value.{Value, Runtime}
use gonkey.Yaml.{Yaml}
use gonkey.Mocks.Definition.{Definition}
use gonkey.Mocks.Service.{ServiceMock, Mocks, set_definition, set_at}
use gonkey.Mocks.Load.Keys.{LoadError}
use gonkey.Mocks.Load.Definitions.{load_definition}
use gonkey.Mocks.Load.Services.{Loaded, with_service, load}

abbrev put : Definition → Option ServiceMock → Option ServiceMock
put def none = none
put def (some m) = some (set_definition def m)

-- What becomes of a service: the definition of the test replaces its own, where there is one.
abbrev loaded_into : Option (Outcome LoadError Definition) → Option ServiceMock → Option ServiceMock
loaded_into none m = m
loaded_into (some (ok def)) m = put def m
loaded_into (some _) m = none

abbrev map_load :
    (Yaml → Outcome LoadError Definition) → Option Yaml → Option (Outcome LoadError Definition)
map_load f none = none
map_load f (some raw) = some (f raw)

lookup-set_at :
    (j name : Text) (def : Definition) (mocks : Mocks)
    → lookup j (set_at name def mocks)
      ≡ (if name == j then put def (lookup j mocks) else lookup j mocks)
unfolding lookup set_at
lookup-set_at j name def [] = elim (Bool-cases (text_beq name j)) [
  | inl t ↦ rw t refl
  | inr f ↦ rw f refl
]
lookup-set_at j name def ((i, m) ∷ mocks) = ground (
  arith,
  lookup-set_at j name def mocks,
  text_beq_iff i name,
  text_beq_iff i j,
  text_beq_iff name j,
)

pub with_service-ok :
    (name : Text) (m : Option ServiceMock) (def : Outcome LoadError Definition)
    (next : Definition → Loaded) (mocks mocks' : Mocks)
    → with_service name m def next mocks ≡ (mocks', ok tt)
    → (d : Definition) × (def ≡ ok d) × (next d ≡ (mocks', ok tt))
with_service-ok name none def next mocks mocks' h = cc
with_service-ok name (some m) (ok d) next mocks mocks' h = (d, refl, h)
with_service-ok name (some m) (fail e) next mocks mocks' h = cc
with_service-ok name (some m) panic next mocks mocks' h = cc

module _ (rt : Runtime) (unmarshal : Text → Option Value)
    (parse_query : Text → Option (Dict Text (List Text))) (read_file : Text → Option Text) where
  abbrev load_root : Yaml → Outcome LoadError Definition
  load_root = load_definition rt unmarshal parse_query read_file (codes "$")

  -- The first definition is set, and no later one is for the same service.
  put-first :
      (j name : Text) (raw : Yaml) (def : Definition) (rest : Dict Text Yaml) (mocks : Mocks)
      → load_root raw ≡ ok def
      → lookup name rest ≡ none
      → loaded_into (map_load load_root (lookup j rest)) (lookup j (set_at name def mocks))
        ≡ loaded_into (map_load load_root (lookup j ((name, raw) ∷ rest))) (lookup j mocks)
  unfolding lookup
  put-first j name raw def rest mocks h absent = elim (Bool-cases (text_beq name j)) [
    | inl t ↦
        ap (λ x. loaded_into (map_load load_root x) (lookup j (set_at name def mocks)))
          (subst (λ i. lookup i rest ≡ none) ((text_beq_iff name j).0 t) absent)
        ∙ rw (lookup-set_at j name def mocks, t)
            (sym (ap (λ x. loaded_into (some x) (lookup j mocks)) h))
    | inr f ↦ rw (lookup-set_at j name def mocks, f) refl
  ]

  -- Where the definitions of a test case load without an error, each service is afterwards what it was, with the
  -- definition that the document under its name describes in place of its own where there is such a document.
  pub load-ok :
      (mocks_definition : Dict Text Yaml) (mocks mocks' : Mocks) (service : Text)
      → IsMap mocks_definition
      → load rt unmarshal parse_query read_file mocks_definition mocks ≡ (mocks', ok tt)
      → lookup service mocks'
        ≡ loaded_into (map_load load_root (lookup service mocks_definition)) (lookup service mocks)
  unfolding load lookup
  load-ok [] mocks mocks' service distinct h = ap (lookup service) (sym (ap (λ x. x.0) h))
  load-ok ((name, raw) ∷ rest) mocks mocks' service distinct h =
      let (d, h₁, h₂) = with_service-ok name (lookup name mocks) (load_root raw) _ mocks mocks' h in
      load-ok rest (set_at name d mocks) mocks' service distinct.1 h₂
      ∙ put-first service name raw d rest mocks h₁ distinct.0
