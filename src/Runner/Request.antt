-- ===== src/Runner/Request.antt =====
-- runner/request.go: the request of a test. The package net/http stands in `Http`.
use gonkey.Base.{Option, none, some, List, [], ◌∷◌, ◌++◌, if◌then◌else◌, ◌==◌}
use gonkey.Base.Text.{Text, codes, text_eq}
use gonkey.Base.Dict.{Dict, lookup, insert}
use gonkey.Models.{Test, to_json, get_method, path, to_query, headers, cookies}

abbrev pub Headers : Type 0
Headers = Dict Text (List Text)

pub record HttpRequest : Type 0 where
  pub method : Text
  pub url_path : Text
  pub raw_query : Text
  pub header : Headers
  pub body : Text

-- `strings.ToUpper`, `http.NewRequest` on a method, a URL and a body, the canonical form of a header's
-- name, and what `AddCookie` does to the headers.
pub record Http : Type 0 where
  pub to_upper : Text → Text
  pub make_request : Text → Text → Text → Option HttpRequest
  pub canonical : Text → Text
  pub add_cookie : Text → Text → Headers → Headers

module _ (http : Http) where
  abbrev values_of : Option (List Text) → List Text
  values_of none = []
  values_of (some values) = values

  abbrev first_value : List Text → Text
  first_value [] = []
  first_value (v ∷ values) = v

  -- The methods of `http.Header`.
  abbrev pub get_header : Text → Headers → Text
  get_header k h = first_value (values_of (lookup (http.canonical k) h))

  abbrev pub add_header : Text → Text → Headers → Headers
  add_header k v h =
      insert (http.canonical k) (values_of (lookup (http.canonical k) h) ++ (v ∷ [])) h

  abbrev pub set_header : Text → Text → Headers → Headers
  set_header k v h = insert (http.canonical k) (v ∷ []) h

  unfoldable pub add_headers : Dict Text Text → Headers → Headers
  add_headers [] h = h
  add_headers ((k, v) ∷ hs) h = add_headers hs (add_header k v h)

  unfoldable pub add_cookies : Dict Text Text → Headers → Headers
  add_cookies [] h = h
  add_cookies ((k, v) ∷ cs) h = add_cookies cs (http.add_cookie k v h)

  unfoldable pub with_content_type : Headers → Headers
  with_content_type h =
      if get_header (codes "Content-Type") h == []
      then set_header (codes "Content-Type") (codes "application/json") h
      else h

  abbrev filled : Test → Option HttpRequest → Option HttpRequest
  filled t none = none
  filled t (some req) = some (record req {
    header = with_content_type (add_cookies (cookies t) (add_headers (headers t) req.header));
  })

  unfoldable pub new_request : Text → Test → Option HttpRequest
  unfolding add_headers add_cookies with_content_type
  new_request host t = filled t (
      http.make_request (http.to_upper (get_method t)) (host ++ (path t ++ to_query t)) (to_json t))

-- The body is a buffer, whose copies read as the same text.
abbrev pub actual_request_body : HttpRequest → Text
actual_request_body req = req.body
