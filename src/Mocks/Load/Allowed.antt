-- ===== src/Mocks/Load/Allowed.antt =====
-- mocks/loader.go: the keys of what a description is written as, and which of them are allowed.
use gonkey.Base.{ℤ, ◌≡◌, refl, ◌∙◌, true, false, Option, none, List}
use gonkey.Base.Text.{Text, codes, text_eq, text_beq}
use gonkey.Base.Dict.{Dict}
use gonkey.Base.Outcome.{ok}
use gonkey.Yaml.{Mapping, no_entries}
use gonkey.Mocks.Load.Keys.{lookup_key, key_in, validate_map_keys}
use gonkey.Mocks.Load.Definitions.{strategy_keys}
use gonkey.Mocks.Load.Printed.{
  ConstraintSpec, Strategy, Specs, nop_strategy, constant, file, uri_vary, method_vary, no_specs,
  spec_at, text_node, int_node, constraints_node, headers_node, name_of, common, reply_keys,
  print_spec, print_strategy, print_below,
}
use gonkey.Mocks.Load.RoundTrip.{lookup-optional, validate-optional}

-- A key that belongs to a strategy.
pub record NotCommon (j : Text) : Type 0 where
  pub not_constraints : text_beq (codes "requestConstraints") j ≡ false
  pub not_strategy : text_beq (codes "strategy") j ≡ false
  pub not_calls : text_beq (codes "calls") j ≡ false

pub lookup-common :
    (j : Text) (cs : List ConstraintSpec) (name : Text) (calls : Option ℤ) (m : Mapping)
    → NotCommon j
    → lookup_key j (common cs name calls m) ≡ lookup_key j m
unfolding lookup_key
lookup-common j cs name calls m other =
    lookup-optional j (codes "requestConstraints") (constraints_node cs) _ other.not_constraints
    ∙ rw (other.not_strategy) (lookup-optional j (codes "calls") (int_node calls) m other.not_calls)

-- No strategy has a key of those that all share.
lookup-reply_keys :
    (j key text : Text) (status : Option ℤ) (headers : Option (Dict Text Text))
    → text_beq key j ≡ false
    → text_beq (codes "statusCode") j ≡ false
    → text_beq (codes "headers") j ≡ false
    → lookup_key j (reply_keys key text status headers) ≡ none
unfolding lookup_key
lookup-reply_keys j key text status headers h₁ h₂ h₃ = rw h₁ (
    lookup-optional j (codes "statusCode") (int_node status) _ h₂
    ∙ lookup-optional j (codes "headers") (headers_node headers) no_entries h₃)

pub lookup-print_below :
    (j key : Text) (uris : Specs)
    → text_beq key j ≡ false
    → lookup_key j (print_below key uris) ≡ none
unfolding lookup_key print_spec
lookup-print_below j key no_specs h = refl
lookup-print_below j key (spec_at name s rest) h = rw h refl

-- A key that belongs to no strategy.
pub record Shared (j : Text) : Type 0 where
  pub not_body : text_beq (codes "body") j ≡ false
  pub not_filename : text_beq (codes "filename") j ≡ false
  pub not_status : text_beq (codes "statusCode") j ≡ false
  pub not_headers : text_beq (codes "headers") j ≡ false
  pub not_base : text_beq (codes "basePath") j ≡ false
  pub not_uris : text_beq (codes "uris") j ≡ false
  pub not_methods : text_beq (codes "methods") j ≡ false

pub lookup-print_strategy :
    (j : Text) (strategy : Strategy) → Shared j → lookup_key j (print_strategy strategy) ≡ none
unfolding lookup_key print_spec
lookup-print_strategy j nop_strategy other = refl
lookup-print_strategy j (constant body status headers) other =
    lookup-reply_keys j (codes "body") body status headers other.not_body other.not_status
      other.not_headers
lookup-print_strategy j (file name status headers) other =
    lookup-reply_keys j (codes "filename") name status headers other.not_filename other.not_status
      other.not_headers
lookup-print_strategy j (uri_vary base uris) other =
    lookup-optional j (codes "basePath") (text_node base) _ other.not_base
    ∙ lookup-print_below j (codes "uris") uris other.not_uris
lookup-print_strategy j (method_vary methods) other =
    lookup-print_below j (codes "methods") methods other.not_methods

pub constraints-Shared : Shared (codes "requestConstraints")
unfolding text_beq
constraints-Shared = record {
  not_body = refl;
  not_filename = refl;
  not_status = refl;
  not_headers = refl;
  not_base = refl;
  not_uris = refl;
  not_methods = refl;
}

pub calls-Shared : Shared (codes "calls")
unfolding text_beq
calls-Shared = record {
  not_body = refl;
  not_filename = refl;
  not_status = refl;
  not_headers = refl;
  not_base = refl;
  not_uris = refl;
  not_methods = refl;
}

-- All keys are allowed.
validate-reply_keys :
    (allowed : List Text) (key text : Text) (status : Option ℤ) (headers : Option (Dict Text Text))
    → key_in key allowed ≡ true
    → key_in (codes "statusCode") allowed ≡ true
    → key_in (codes "headers") allowed ≡ true
    → validate_map_keys allowed (reply_keys key text status headers) ≡ ok tt
unfolding validate_map_keys
validate-reply_keys allowed key text status headers h₁ h₂ h₃ = rw h₁ (
    validate-optional allowed (codes "statusCode") (int_node status) _ h₂
      (validate-optional allowed (codes "headers") (headers_node headers) no_entries h₃ refl))

validate-print_below :
    (allowed : List Text) (key : Text) (uris : Specs)
    → key_in key allowed ≡ true
    → validate_map_keys allowed (print_below key uris) ≡ ok tt
unfolding validate_map_keys print_spec
validate-print_below allowed key no_specs h = refl
validate-print_below allowed key (spec_at name s rest) h = rw h refl

validate-strategy :
    (strategy : Strategy)
    → validate_map_keys (strategy_keys (name_of strategy)) (print_strategy strategy) ≡ ok tt
unfolding validate_map_keys strategy_keys print_spec text_beq key_in
validate-strategy nop_strategy = refl
validate-strategy (constant body status headers) =
    validate-reply_keys (strategy_keys (codes "constant")) (codes "body") body status headers refl
      refl refl
validate-strategy (file name status headers) =
    validate-reply_keys (strategy_keys (codes "file")) (codes "filename") name status headers refl
      refl refl
validate-strategy (uri_vary base uris) =
    validate-optional (strategy_keys (codes "uriVary")) (codes "basePath") (text_node base) _ refl
      (validate-print_below (strategy_keys (codes "uriVary")) (codes "uris") uris refl)
validate-strategy (method_vary methods) =
    validate-print_below (strategy_keys (codes "methodVary")) (codes "methods") methods refl

pub validate-common :
    (cs : List ConstraintSpec) (strategy : Strategy) (calls : Option ℤ)
    → validate_map_keys
        (strategy_keys (name_of strategy))
        (common cs (name_of strategy) calls (print_strategy strategy))
      ≡ ok tt
unfolding validate_map_keys strategy_keys text_beq key_in
validate-common cs strategy calls =
    validate-optional (strategy_keys (name_of strategy)) (codes "requestConstraints")
      (constraints_node cs) _ refl
      (validate-optional (strategy_keys (name_of strategy)) (codes "calls") (int_node calls) _ refl
        (validate-strategy strategy))
