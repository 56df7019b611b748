-- ===== src/Variables.antt =====
-- variables/: the variables of a run and their substitution into the texts of a test.
pub mod Pattern
pub mod Match
pub mod Store
pub mod Response
use gonkey.Base.{
  ℕ, ℤ, Bool, true, false, ◌||◌, Option, none, some, List, [], ◌∷◌, ◌++◌, if◌then◌else◌, nat_beq,
  length, ◌==◌,
}
use gonkey.Base.{int_eq}
use gonkey.Base.Text.{Text, codes, text_eq}
use gonkey.Base.Dict.{Dict, lookup, insert, insert_all}
use gonkey.Models.{
  Test, to_query, get_method, path, get_request, get_responses, headers, clone, set_query,
  set_method, set_path, set_request, set_responses, set_headers,
}
use Pattern.{used_variables, replace_all}

-- `pattern` is the name in the expression that `rx` was compiled from.
pub record Variable : Type 0 where
  pub name : Text
  pub value : Text
  pub default_value : Text
  pub pattern : Text

-- `regexp.QuoteMeta`: a backslash in front of \.+*?()|[]{}^$.
unfoldable pub is_meta : ℕ → List ℕ → Bool
is_meta c [] = false
is_meta c (m ∷ ms) = nat_beq c m || is_meta c ms

unfoldable pub quote_meta : Text → Text
unfolding is_meta
quote_meta [] = []
quote_meta (c ∷ s) =
    if is_meta c (codes "\\.+*?()|[]{}^$") then 92 ∷ c ∷ quote_meta s else c ∷ quote_meta s

unfoldable pub new_variable : Text → Text → Variable
unfolding quote_meta
new_variable name value = record {
  name = quote_meta name;
  value = value;
  default_value = value;
  pattern = name;
}

-- `Perform`
unfoldable pub perform_variable : Variable → Text → Text
unfolding replace_all
perform_variable v str = replace_all v.pattern v.value str

abbrev pub Variables : Type 0
Variables = Dict Text Variable

abbrev pub new : Variables
new = []

unfoldable pub load : Dict Text Text → Variables → Variables
unfolding new_variable
load [] vs = vs
load ((n, v) ∷ variables) vs = load variables (insert n (new_variable n v) vs)

unfoldable pub set : Text → Text → Variables → Variables
unfolding new_variable
set name value vs = insert name (new_variable name value) vs

unfoldable pub merge : Variables → Variables → Variables
merge vs vars = insert_all vs vars

abbrev pub len : Variables → ℕ
len vs = length vs

-- Stored under the quoted name.
unfoldable pub add : Variable → Variables → Variables
add v vs = insert v.name v vs

module _ (getenv : Text → Text) where
  -- `none` where the environment has no such variable, or an empty one.
  unfoldable pub new_from_environment : Text → Option Variable
  unfolding new_variable
  new_from_environment name =
      if getenv name == [] then none else some (new_variable name (getenv name))

  abbrev or_environment : Text → Option Variable → Option Variable
  or_environment name (some v) = some v
  or_environment name none = new_from_environment name

  unfoldable pub get : Variables → Text → Option Variable
  unfolding new_from_environment
  get vs name = or_environment name (lookup name vs)

  abbrev perform_one : Option Variable → Text → Text
  perform_one none str = str
  perform_one (some v) str = perform_variable v str

  -- The loop over the names that the text uses.
  unfoldable pub perform_names : Variables → List Text → Text → Text
  unfolding get perform_variable
  perform_names vs [] str = str
  perform_names vs (k ∷ names) str = perform_names vs names (perform_one (get vs k) str)

  unfoldable pub perform : Variables → Text → Text
  unfolding perform_names used_variables
  perform vs str = perform_names vs (used_variables str) str

  unfoldable pub perform_headers : Variables → Dict Text Text → Dict Text Text → Dict Text Text
  unfolding perform
  perform_headers vs [] res = res
  perform_headers vs ((k, v) ∷ hs) res = perform_headers vs hs (insert k (perform vs v) res)

  unfoldable pub perform_responses : Variables → Dict ℤ Text → Dict ℤ Text → Dict ℤ Text
  unfolding perform
  perform_responses vs [] res = res
  perform_responses vs ((k, v) ∷ rs) res = perform_responses vs rs (insert k (perform vs v) res)

  unfoldable pub apply : Option Variables → Test → Test
  unfolding perform perform_headers perform_responses
  apply none t = clone t
  apply (some vs) t =
      let t1 = set_query (perform vs (to_query (clone t))) (clone t) in
      let t2 = set_method (perform vs (get_method t1)) t1 in
      let t3 = set_path (perform vs (path t2)) t2 in
      let t4 = set_request (perform vs (get_request t3)) t3 in
      let t5 = set_responses (perform_responses vs (get_responses t4) []) t4 in
      set_headers (perform_headers vs (headers t5) []) t5
