-- ===== src/Runner/Carry.antt =====
-- runner/runner.go: the variables that a response leaves for the tests after it.
use gonkey.Base.{
  ℤ, ◌≡◌, ◌↔◌, refl, sym, ap, ◌∙◌, subst, Bool, true, false, Option, none, some, [], ◌∷◌, arith,
  int_eq,
}
use gonkey.Base.Text.{Text, text_eq}
use gonkey.Base.Dict.{Dict, lookup, IsMap, insert-IsMap}
use gonkey.Base.Outcome.{Outcome, ok, fail, panic, or_fail, >>=-eq-ok, ok-injective}
use gonkey.Models.{Test, VariablesToSet, get_variables_to_set}
use gonkey.Variables.{Variable, Variables, new_variable, add, new, get, merge}
use gonkey.Variables.Store.{get-merge, or_else, environment}
use gonkey.Variables.Response.{
  ResponseError, from_json, from_plain_text, from_response, AllWords, ValueAt,
  from_response-ValueAt,
}
use gonkey.Runner.{Env, entry, is_json, set_result, set_templates, set_variables_from_response}

merged-ok :
    (r : Outcome ResponseError Variables) (vs : Variables) {vs' : Variables}
    → set_result r vs ≡ ok vs'
    → (vars : Variables) × (r ≡ ok vars) × (vs' ≡ merge vs vars)
merged-ok (ok vars) vs h = (vars, refl, cc)
merged-ok (fail e) vs h = cc
merged-ok panic vs h = cc

add-IsMap : (v : Variable) (vs : Variables) → IsMap vs → IsMap (add v vs)
unfolding add
add-IsMap v vs h = insert-IsMap v.name v vs h

module _ (get_json : Text → Text → Option Text) where
  from_json-IsMap :
      (body : Text) (to_set : Dict Text Text) (vars out : Variables)
      → IsMap vars
      → from_json get_json body to_set vars ≡ ok out
      → IsMap out
  unfolding from_json
  from_json-IsMap body [] vars out m h = subst (λ vs. IsMap vs) (ok-injective h) m
  from_json-IsMap body ((name, path) ∷ to_set) vars out m h =
      let (value, found, next) = >>=-eq-ok (or_fail _ (get_json body path)) _ h in
      from_json-IsMap body to_set (add (new_variable name value) vars) out
        (add-IsMap (new_variable name value) vars m) next

  from_response-IsMap :
      (body : Text) (to_set : Dict Text Text) (out : Variables)
      → from_response get_json to_set body true ≡ ok out
      → IsMap out
  unfolding from_response
  from_response-IsMap body to_set out h = from_json-IsMap body to_set new out tt h

  from_plain-one :
      (to_set : Dict Text Text) (body : Text) (out : Variables)
      → from_response get_json to_set body false ≡ ok out
      → (name : Text) × (path : Text) × (to_set ≡ (name, path) ∷ [])
  unfolding from_response from_plain_text
  from_plain-one [] body out h = cc
  from_plain-one ((name, path) ∷ []) body out h = (name, path, refl)
  from_plain-one (a ∷ b ∷ to_set) body out h = cc

module _ (env : Env) where
  set_variables-eq :
      (t : Test) (m : VariablesToSet) (content_type body : Text) (code : ℤ) (vs : Variables)
      (b : Bool)
      → get_variables_to_set t ≡ some m
      → is_json env content_type body ≡ b
      → set_variables_from_response env t content_type body code vs
        ≡ set_result (from_response env.get_json (entry m code) body b) vs
  unfolding set_variables_from_response
  set_variables-eq t m content_type body code vs b given json =
      ap (λ o. set_templates env o content_type body code vs) given
      ∙ ap (λ c. set_result (from_response env.get_json (entry m code) body c) vs) json

  plain_complete :
      (to_set : Dict Text Text) (body : Text) (vs : Variables) {name path : Text}
      → to_set ≡ (name, path) ∷ []
      → (vs' : Variables) × (set_result (from_response env.get_json to_set body false) vs ≡ ok vs')
  unfolding from_response from_plain_text
  plain_complete to_set body vs {name = name} e =
      (merge vs (add (new_variable name body) new), rw e refl)

  carried :
      (body : Text) (name : Text) (o : Option Text) (vs vars : Variables)
      → IsMap vars
      → ValueAt env.get_json body name o none (lookup name vars)
      → ValueAt env.get_json body name o
          (get env.getenv vs name)
          (get env.getenv (merge vs vars) name)
  unfolding get
  carried body name none vs vars m e = get-merge env.getenv vs vars name m ∙ ground (arith, e)
  carried body name (some path) vs vars m (value, found, e) = (
    value,
    found,
    get-merge env.getenv vs vars name m
        ∙ ap (λ o. or_else o (or_else (lookup name vs) (environment env.getenv name))) e,
  )

  -- Of a response that is not JSON, or empty, a test that sets variables accepts exactly the statuses for
  -- which it sets one variable; any other status, also one that it does not mention, ends the run.
  pub set_variables-plain_text :
      (t : Test) (m : VariablesToSet) (content_type body : Text) (code : ℤ) (vs : Variables)
      → get_variables_to_set t ≡ some m
      → is_json env content_type body ≡ false
      → ((vs' : Variables) × (set_variables_from_response env t content_type body code vs ≡ ok vs'))
        ↔ ((name : Text) × (path : Text) × (entry m code ≡ (name, path) ∷ []))
  unfolding set_variables_from_response
  set_variables-plain_text t m content_type body code vs given plain =
      let e = set_variables-eq t m content_type body code vs false given plain in
      (
        λ h.
            let (vars, one, _) =
              merged-ok (from_response env.get_json (entry m code) body false) vs (sym e ∙ h.1) in
            from_plain-one env.get_json (entry m code) body vars one,
        λ g. let (vs', done) = plain_complete (entry m code) body vs g.2 in (vs', e ∙ done),
      )

  -- After a JSON response to a test whose names for the status are words, each of these names stands for
  -- the value at its path, which the response has; every other name stands for what it stood for before.
  pub get-set_variables :
      (t : Test) (m : VariablesToSet) (content_type body : Text) (code : ℤ) (vs vs' : Variables)
      (name : Text)
      → get_variables_to_set t ≡ some m
      → is_json env content_type body ≡ true
      → IsMap (entry m code)
      → AllWords env.get_json (entry m code)
      → set_variables_from_response env t content_type body code vs ≡ ok vs'
      → ValueAt env.get_json body name
          (lookup name (entry m code))
          (get env.getenv vs name)
          (get env.getenv vs' name)
  unfolding set_variables_from_response
  get-set_variables t m content_type body code vs vs' name given json distinct words h =
      let e = set_variables-eq t m content_type body code vs true given json in
      let (vars, found, merged) =
        merged-ok (from_response env.get_json (entry m code) body true) vs (sym e ∙ h) in
      subst
        (λ out.
          ValueAt env.get_json body name (lookup name (entry m code)) (get env.getenv vs name)
            (get env.getenv out name))
        (sym merged)
        (carried body name _ vs vars
          (from_response-IsMap env.get_json body (entry m code) vars found)
          (from_response-ValueAt env.get_json body (entry m code) vars name distinct words found))
