-- ===== src/Mocks/Load/Replies.antt =====
-- mocks/loader.go: the replies of constant and file strategies, loaded from what a description is written as.
use gonkey.Base.{ℤ, pos, ◌≡◌, refl, Option, none, some, List, []}
use gonkey.Base.Text.{Text, codes, text_eq, text_beq}
use gonkey.Base.Dict.{Dict}
use gonkey.Base.Outcome.{ok}
use gonkey.Yaml.{Mapping}
use gonkey.Mocks.Definition.{new_file_reply, constant_reply, calls_no_constraint}
use gonkey.Mocks.Load.Definitions.{
  calls_constraint, base_path, status_code, load_headers, load_file_strategy,
  load_constant_strategy,
}
use gonkey.Mocks.Load.Printed.{
  ConstraintSpec, Specs, optional, text_node, int_node, headers_node, common, reply_keys,
  print_below, or_else,
}
use gonkey.Mocks.Load.Find.{find-text, find-status, find-headers}
use gonkey.Mocks.Load.RoundTrip.{print_headers-load}

abbrev pub uri_mapping : Option Text → Specs → Mapping
uri_mapping base uris =
    optional (codes "basePath") (text_node base) (print_below (codes "uris") uris)

load_headers-printed :
    (headers : Option (Dict Text Text))
    → load_headers (headers_node headers) ≡ ok (or_else [] headers)
load_headers-printed none = refl
load_headers-printed (some headers) = print_headers-load headers

status_code-printed :
    (status : Option ℤ) → status_code (int_node status) ≡ ok (or_else (pos 200) status)
status_code-printed none = refl
status_code-printed (some n) = refl

pub calls-printed :
    (calls : Option ℤ) → calls_constraint (int_node calls) ≡ or_else calls_no_constraint calls
calls-printed none = refl
calls-printed (some n) = refl

pub base_path-printed : (base : Option Text) → base_path (text_node base) ≡ ok (or_else [] base)
base_path-printed none = refl
base_path-printed (some base) = refl

pub load_constant-printed :
    (cs : List ConstraintSpec) (name : Text) (calls : Option ℤ) (body : Text) (status : Option ℤ)
    (headers : Option (Dict Text Text))
    → load_constant_strategy (common cs name calls (reply_keys (codes "body") body status headers))
      ≡ ok (constant_reply body (or_else (pos 200) status) (or_else [] headers))
unfolding load_constant_strategy text_beq
load_constant-printed cs name calls body status headers =
    rw
      (
        find-text cs name calls (codes "body") body status headers
            (record { not_constraints = refl; not_strategy = refl; not_calls = refl }) refl,
        find-status cs name calls (codes "body") body status headers refl,
        find-headers cs name calls (codes "body") body status headers refl,
        status_code-printed status,
        load_headers-printed headers,
      )
      refl

pub load_file-printed :
    (read_file : Text → Option Text) (cs : List ConstraintSpec) (name : Text) (calls : Option ℤ)
    (filename : Text) (status : Option ℤ) (headers : Option (Dict Text Text))
    → load_file_strategy read_file
        (common cs name calls (reply_keys (codes "filename") filename status headers))
      ≡ ok (new_file_reply read_file filename (or_else (pos 200) status) (or_else [] headers))
unfolding load_file_strategy text_beq
load_file-printed read_file cs name calls filename status headers =
    rw
      (
        find-text cs name calls (codes "filename") filename status headers
            (record { not_constraints = refl; not_strategy = refl; not_calls = refl }) refl,
        find-status cs name calls (codes "filename") filename status headers refl,
        find-headers cs name calls (codes "filename") filename status headers refl,
        status_code-printed status,
        load_headers-printed headers,
      )
      refl
