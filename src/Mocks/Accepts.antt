-- ===== src/Mocks/Accepts.antt =====
-- mocks/request_constraint.go: which requests a constraint accepts.
use mathlib.Core.List.{Permᴰ}
use gonkey.Base.{◌≡◌, ◌≢◌, ◌⊎◌, Bool, true, false, Option, none, some, List, [], ◌∷◌}
use gonkey.Base.Text.{Text, text_eq}
use gonkey.Base.Dict.{Dict, lookup}
use gonkey.Value.{Value, Runtime}
use gonkey.Compare.Agrees.{Agrees}
use gonkey.Mocks.Constraint.{
  ServerRequest, Verifier, nop_constraint, body_matches_json, method_constraint, header_constraint,
  query_constraint,
}

-- The parameter is there, with the same values in any order.
abbrev pub HasValues : List Text → Option (List Text) → Type 0
HasValues want none = ⊥
HasValues want (some got) = Permᴰ got want

abbrev pub HasParameters : Dict Text (List Text) → Dict Text (List Text) → Type 0
HasParameters [] got = Unit
HasParameters ((key, want) ∷ expected) got =
    HasValues want (lookup key got) × HasParameters expected got

abbrev pub Matches : Option (Text × (Text → Bool)) → Text → Type 0
Matches none value = Unit
Matches (some (re, matches)) value = matches value ≡ true

abbrev pub HeaderIs : Text → Option (Text × (Text → Bool)) → Text → Type 0
HeaderIs expected re value =
    (value ≢ []) × ((expected ≡ []) ⊎ (expected ≡ value)) × Matches re value

module _ (rt : Runtime) (unmarshal : Text → Option Value) (equal_fold : Text → Text → Bool) where
  -- JSON that agrees with the expected value, with the order of arrays ignored and other keys allowed.
  abbrev pub JsonAgrees : Value → Option Value → Type 0
  JsonAgrees expected none = ⊥
  JsonAgrees expected (some actual) =
      Agrees rt
        (record {
          ignore_values = false;
          ignore_arrays_ordering = true;
          disallow_extra_fields = false;
        })
        expected actual

  abbrev pub BodyIs : Value → Option Text → Type 0
  BodyIs expected none = ⊥
  BodyIs expected (some body) = (body ≢ []) × JsonAgrees expected (unmarshal body)

  abbrev pub Accepts : Verifier → ServerRequest → Type 0
  Accepts nop_constraint r = Unit
  Accepts (body_matches_json expected) r = BodyIs expected r.body
  Accepts (method_constraint method) r = equal_fold r.method method ≡ true
  Accepts (header_constraint header expected re) r = HeaderIs expected re (r.header header)
  Accepts (query_constraint expected) r = HasParameters expected r.query
