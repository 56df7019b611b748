-- ===== src/Variables/Response.antt =====
-- variables/response_parser.go: variables from a response.
use gonkey.Base.{
  ℕ, ◌≡◌, ap, sym, ◌∙◌, Bool, true, false, Option, none, some, List, [], ◌∷◌, map, arith,
  if◌then◌else◌, length, Bool-cases, inl, inr, subst,
}
use gonkey.Base.Text.{Text, text_eq, text_beq, text_beq_iff}
use gonkey.Base.Dict.{Dict, lookup, IsMap, lookup-insert}
use gonkey.Base.Outcome.{Outcome, ok, fail, or_fail, ◌>>=◌, >>=-eq-ok, or_fail-eq-ok}
use gonkey.Variables.{Variable, Variables, new_variable, add, new}
use gonkey.Variables.Match.{IsWord}
use gonkey.Variables.Store.{name-new_variable, lookup-add}

pub data ResponseError : Type 0 where
  path_does_not_exist : Text → ResponseError
  count_of_variables : ℕ → ResponseError

abbrev pub names : Dict Text Text → List Text
names m = map (λ e. e.0) m

-- `get` is a `gjson.Get`: the text of the value at a path of a document, if there is one.
module _ (get : Text → Text → Option Text) where
  -- The names and paths stay side by side.
  unfoldable pub from_json : Text → Dict Text Text → Variables → Outcome ResponseError Variables
  from_json body [] vars = ok vars
  from_json body ((name, path) ∷ to_set) vars = do
    res ← or_fail (path_does_not_exist path) (get body path)
    from_json body to_set (add (new_variable name res) vars)

  unfoldable pub from_plain_text : List Text → Text → Outcome ResponseError Variables
  from_plain_text (name ∷ []) body = ok (add (new_variable name body) new)
  from_plain_text names body = fail (count_of_variables (length names))

  unfoldable pub from_response : Dict Text Text → Text → Bool → Outcome ResponseError Variables
  unfolding from_json from_plain_text
  from_response to_set body is_json =
      if is_json then from_json body to_set new else from_plain_text (names to_set) body

  abbrev pub AllWords : Dict Text Text → Type 0
  AllWords [] = Unit
  AllWords ((name, path) ∷ to_set) = IsWord name × AllWords to_set

  -- What a name is set to: the value at its path.
  abbrev pub ValueAt : Text → Text → Option Text → Option Variable → Option Variable → Type 0
  ValueAt body name none old out = out ≡ old
  ValueAt body name (some path) old out =
      (value : Text) × (get body path ≡ some value) × (out ≡ some (new_variable name value))

  lookup-add_other :
      (n name value : Text) (vars : Variables)
      → IsWord n
      → text_beq n name ≡ false
      → lookup name (add (new_variable n value) vars) ≡ lookup name vars
  unfolding add
  lookup-add_other n name value vars w f =
      let v = new_variable n value in
      ground (
        arith,
        lookup-insert v.name name v vars,
        text_beq_iff v.name name,
        text_beq_iff n name,
        name-new_variable n value w,
      )

  ValueAt-none :
      (body : Text) (name : Text) (o : Option Text) (old out : Option Variable)
      → o ≡ none
      → ValueAt body name o old out
      → out ≡ old
  ValueAt-none body name none old out e h = h
  ValueAt-none body name (some p) old out e h = cc

  name_iff : (a b : Text) → text_beq a b ≡ true → a ≡ b
  name_iff a b = (text_beq_iff a b).0

  -- The value that the loop leaves under a name.
  from_json-lookup :
      (body : Text) (to_set : Dict Text Text) (vars out : Variables) (name : Text)
      → IsMap to_set
      → AllWords to_set
      → from_json body to_set vars ≡ ok out
      → ValueAt body name (lookup name to_set) (lookup name vars) (lookup name out)
  unfolding from_json lookup
  from_json-lookup body [] vars out name m w h = cc
  from_json-lookup body ((n, p) ∷ to_set) vars out name m w h =
      let (value, found, next) = >>=-eq-ok (or_fail (path_does_not_exist p) (get body p)) _ h in
      let ih =
        from_json-lookup body to_set (add (new_variable n value) vars) out name m.1 w.1 next in
      elim (Bool-cases (text_beq n name)) [
        | inl t ↦
            let e = name_iff n name t in
            rw t (
              value,
              or_fail-eq-ok _ _ found,
              ValueAt-none body name (lookup name to_set)
                    (lookup name (add (new_variable n value) vars)) (lookup name out)
                    (ap (λ k. lookup k to_set) (sym e) ∙ m.0) ih
                  ∙ (ap (λ k. lookup k (add (new_variable n value) vars)) (sym e)
                      ∙ (lookup-add n value vars w.0 ∙ ap (λ k. some (new_variable k value)) e)),
            )
        | inr f ↦ rw f (
            subst (λ o. ValueAt body name (lookup name to_set) o (lookup name out))
              (lookup-add_other n name value vars w.0 f) ih)
      ]

  -- Where variables are taken from a JSON response, with words as names, each name stands for the value at
  -- its path, which the response has; no other name is set.
  pub from_response-ValueAt :
      (body : Text) (to_set : Dict Text Text) (out : Variables) (name : Text)
      → IsMap to_set
      → AllWords to_set
      → from_response to_set body true ≡ ok out
      → ValueAt body name (lookup name to_set) none (lookup name out)
  unfolding from_response lookup
  from_response-ValueAt body to_set out name m w h = from_json-lookup body to_set new out name m w h
