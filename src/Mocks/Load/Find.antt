-- ===== src/Mocks/Load/Find.antt =====
-- mocks/loader.go: the keys of what a description is written as, looked up.
use gonkey.Base.{ℤ, ◌≡◌, refl, ◌∙◌, true, false, Option, some, List}
use gonkey.Base.Text.{Text, codes, text_eq, text_beq}
use gonkey.Base.Dict.{Dict}
use gonkey.Yaml.{Mapping, string, no_entries}
use gonkey.Mocks.Load.Keys.{lookup_key}
use gonkey.Mocks.Load.Printed.{
  ConstraintSpec, Strategy, Specs, optional, text_node, int_node, constraints_node, headers_node,
  name_of, common, reply_keys, print_strategy, print_below,
}
use gonkey.Mocks.Load.RoundTrip.{lookup-optional, lookup-optional_self}
use gonkey.Mocks.Load.Allowed.{
  NotCommon, lookup-common, lookup-print_below, lookup-print_strategy, constraints-Shared,
  calls-Shared,
}

pub find-constraints :
    (cs : List ConstraintSpec) (strategy : Strategy) (calls : Option ℤ)
    → lookup_key
        (codes "requestConstraints")
        (common cs (name_of strategy) calls (print_strategy strategy))
      ≡ constraints_node cs
unfolding lookup_key text_beq
find-constraints cs strategy calls =
    lookup-optional_self (codes "requestConstraints") (constraints_node cs) _ refl (
      lookup-optional (codes "requestConstraints") (codes "calls") (int_node calls) _ refl
      ∙ lookup-print_strategy (codes "requestConstraints") strategy constraints-Shared)

pub find-strategy :
    (cs : List ConstraintSpec) (name : Text) (calls : Option ℤ) (m : Mapping)
    → lookup_key (codes "strategy") (common cs name calls m) ≡ some (string name)
unfolding lookup_key text_beq
find-strategy cs name calls m =
    lookup-optional (codes "strategy") (codes "requestConstraints") (constraints_node cs) _ refl

pub find-calls :
    (cs : List ConstraintSpec) (strategy : Strategy) (calls : Option ℤ)
    → lookup_key (codes "calls") (common cs (name_of strategy) calls (print_strategy strategy))
      ≡ int_node calls
unfolding lookup_key text_beq
find-calls cs strategy calls =
    lookup-optional (codes "calls") (codes "requestConstraints") (constraints_node cs) _ refl
    ∙ lookup-optional_self (codes "calls") (int_node calls) _ refl
        (lookup-print_strategy (codes "calls") strategy calls-Shared)

-- The keys of a strategy that answers with a text.
status_code-NotCommon : NotCommon (codes "statusCode")
unfolding text_beq
status_code-NotCommon = record { not_constraints = refl; not_strategy = refl; not_calls = refl }

headers-NotCommon : NotCommon (codes "headers")
unfolding text_beq
headers-NotCommon = record { not_constraints = refl; not_strategy = refl; not_calls = refl }

pub find-text :
    (cs : List ConstraintSpec) (name : Text) (calls : Option ℤ) (key text : Text)
    (status : Option ℤ) (headers : Option (Dict Text Text))
    → NotCommon key
    → text_beq key key ≡ true
    → lookup_key key (common cs name calls (reply_keys key text status headers))
      ≡ some (string text)
unfolding lookup_key
find-text cs name calls key text status headers other same =
    lookup-common key cs name calls _ other ∙ rw same refl

pub find-status :
    (cs : List ConstraintSpec) (name : Text) (calls : Option ℤ) (key text : Text)
    (status : Option ℤ) (headers : Option (Dict Text Text))
    → text_beq key (codes "statusCode") ≡ false
    → lookup_key (codes "statusCode") (common cs name calls (reply_keys key text status headers))
      ≡ int_node status
unfolding lookup_key text_beq
find-status cs name calls key text status headers other =
    lookup-common (codes "statusCode") cs name calls (reply_keys key text status headers)
      status_code-NotCommon
    ∙ rw other (
        lookup-optional_self (codes "statusCode") (int_node status) _ refl (
          lookup-optional (codes "statusCode") (codes "headers") (headers_node headers) no_entries
            refl))

pub find-headers :
    (cs : List ConstraintSpec) (name : Text) (calls : Option ℤ) (key text : Text)
    (status : Option ℤ) (headers : Option (Dict Text Text))
    → text_beq key (codes "headers") ≡ false
    → lookup_key (codes "headers") (common cs name calls (reply_keys key text status headers))
      ≡ headers_node headers
unfolding lookup_key text_beq
find-headers cs name calls key text status headers other =
    lookup-common (codes "headers") cs name calls (reply_keys key text status headers)
      headers-NotCommon
    ∙ rw other (
        lookup-optional (codes "headers") (codes "statusCode") (int_node status) _ refl
        ∙ lookup-optional_self (codes "headers") (headers_node headers) no_entries refl refl)

pub find-base :
    (cs : List ConstraintSpec) (name : Text) (calls : Option ℤ) (base : Option Text) (uris : Specs)
    → lookup_key (codes "basePath") (
        common cs name calls
          (optional (codes "basePath") (text_node base) (print_below (codes "uris") uris)))
      ≡ text_node base
unfolding lookup_key text_beq
find-base cs name calls base uris =
    lookup-common (codes "basePath") cs name calls
      (optional (codes "basePath") (text_node base) (print_below (codes "uris") uris))
      (record { not_constraints = refl; not_strategy = refl; not_calls = refl })
    ∙ lookup-optional_self (codes "basePath") (text_node base) _ refl
        (lookup-print_below (codes "basePath") (codes "uris") uris refl)
