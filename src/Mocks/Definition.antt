-- ===== src/Mocks/Definition.antt =====
-- mocks/definition.go and reply_strategy.go: a definition counts the requests that reach it, checks them and
-- answers them, and may hand them to the definitions below it.
use gonkey.Base.{
  ℕ, ℤ, pos, negsuc, suc, Bool, not, ◌&&◌, Option, none, some, List, [], ◌∷◌, ◌++◌, map,
  if◌then◌else◌, ◌==◌, int_eq,
}
use gonkey.Base.Text.{Text, codes, text_eq, trim_left, trim_right}
use gonkey.Base.Dict.{Dict}
use gonkey.Value.{Value, Runtime}
use gonkey.Mocks.Constraint.{Verifier, ConstraintError, ServerRequest, verify}

-- The calls of an `http.ResponseWriter`.
pub data Written : Type 0 where
  add_header : Text → Text → Written
  write_header : ℤ → Written
  write : Text → Written

-- The errors of mocks/error.go around those of a constraint, and the one of a count.
pub data MockError : Type 0 where
  request_constraint_error : Verifier → ConstraintError → MockError
  calls_do_not_match : Text → ℤ → ℕ → MockError
  service_error : Text → MockError → MockError

-- The path, the constraints, the reply, the calls so far and the expected ones.
mutual
  pub data Definition : Type 0 where
    definition : Text → List Verifier → Reply → ℕ → ℤ → Definition

  -- The strategies; `no_reply` is a nil one.
  pub data Reply : Type 0 where
    no_reply nop_reply : Reply
    constant_reply : Text → ℤ → Dict Text Text → Reply
    uri_vary_reply : Text → Variants → Reply
    method_vary_reply : Variants → Reply

  -- The map of definitions below, in the order in which it is visited.
  pub data Variants : Type 0 where
    no_variants : Variants
    variant : Text → Definition → Variants → Variants

abbrev pub calls_no_constraint : ℤ
calls_no_constraint = negsuc 0

unfoldable pub new_definition : Text → List Verifier → Reply → ℤ → Definition
new_definition path constraints strategy calls_constraint =
    definition path constraints strategy 0 calls_constraint

unfoldable pub new_uri_vary_reply : Text → Variants → Reply
new_uri_vary_reply base_path variants =
    uri_vary_reply (trim_right base_path b'/' ++ codes "/") variants

abbrev pub new_method_vary_reply : Variants → Reply
new_method_vary_reply = method_vary_reply

abbrev pub new_constant_reply : Text → ℤ → Dict Text Text → Reply
new_constant_reply = constant_reply

-- The error of reading the file is dropped.
abbrev content_or_empty : Option Text → Text
content_or_empty none = []
content_or_empty (some content) = content

unfoldable pub new_file_reply : (Text → Option Text) → Text → ℤ → Dict Text Text → Reply
new_file_reply read_file filename status_code headers =
    constant_reply (content_or_empty (read_file filename)) status_code headers

abbrev pub add_all : Dict Text Text → List Written
add_all headers = map (λ h. add_header h.0 h.1) headers

-- Which variant takes a request: by the path, or by the method.
abbrev pub Test : Type 0
Test = Text → ServerRequest → Bool

unfoldable pub is_uri : Text → Test
is_uri base_path uri r = (base_path ++ trim_left uri b'/') == r.url_path

-- What handling a request reports and writes, and what it leaves.
pub record Handled (S : Type 0) : Type 0 where
  pub errors : List MockError
  pub written : List Written
  pub left : S

-- `equal_fold` is `strings.EqualFold`, `unmarshal` is `json.Unmarshal` into an empty interface.
module _ (rt : Runtime) (unmarshal : Text → Option Value) (equal_fold : Text → Text → Bool) where
  abbrev pub is_method : Test
  is_method method r = equal_fold r.method method

  unfoldable pub verify_all : List Verifier → ServerRequest → List MockError
  unfolding verify
  verify_all [] r = []
  verify_all (c ∷ constraints) r =
      map (request_constraint_error c) (verify rt unmarshal equal_fold c r)
      ++ verify_all constraints r

  abbrev pub matches : Test → ServerRequest → Text → Bool
  matches test r key = test key r

  -- `Execute` and `HandleRequest`; the status where no variant takes the request.
  unfoldable mutual
    pub execute : ServerRequest → Definition → Handled Definition
    execute r (definition path constraints reply calls expected) =
        let below = handle_request r reply in
        record {
          errors = verify_all constraints r ++ below.errors;
          written = below.written;
          left = definition path constraints below.left (suc calls) expected;
        }

    pub handle_request : ServerRequest → Reply → Handled Reply
    handle_request r no_reply = record { errors = []; written = []; left = no_reply }
    handle_request r nop_reply = record {
      errors = [];
      written = write_header (pos 204) ∷ [];
      left = nop_reply;
    }
    handle_request r (constant_reply body status_code headers) = record {
      errors = [];
      written = add_all headers ++ (write_header status_code ∷ write body ∷ []);
      left = constant_reply body status_code headers;
    }
    handle_request r (uri_vary_reply base_path variants) =
        let below = try_variants (pos 404) (is_uri base_path) r variants in
        record {
          errors = below.errors;
          written = below.written;
          left = uri_vary_reply base_path below.left;
        }
    handle_request r (method_vary_reply variants) =
        let below = try_variants (pos 405) is_method r variants in
        record {
          errors = below.errors;
          written = below.written;
          left = method_vary_reply below.left;
        }

    pub try_variants : ℤ → Test → ServerRequest → Variants → Handled Variants
    try_variants status test r no_variants = record {
      errors = [];
      written = write_header status ∷ [];
      left = no_variants;
    }
    try_variants status test r (variant key def rest) =
        let here = execute r def in
        let later = try_variants status test r rest in
        if test key r
        then record {
          errors = here.errors;
          written = here.written;
          left = variant key here.left rest;
        }
        else record {
          errors = later.errors;
          written = later.written;
          left = variant key def later.left;
        }

-- `ResetRunningContext` of a definition, and of a strategy that has it.
unfoldable mutual
  pub reset : Definition → Definition
  reset (definition path constraints reply calls expected) =
      definition path constraints (reset_reply reply) 0 expected

  pub reset_reply : Reply → Reply
  reset_reply (uri_vary_reply base_path variants) =
      uri_vary_reply base_path (reset_variants variants)
  reset_reply (method_vary_reply variants) = method_vary_reply (reset_variants variants)
  reset_reply reply = reply

  pub reset_variants : Variants → Variants
  reset_variants no_variants = no_variants
  reset_variants (variant key def rest) = variant key (reset def) (reset_variants rest)

abbrev pub call_errors : Text → ℕ → ℤ → List MockError
call_errors path calls expected =
    if not (expected == calls_no_constraint) && not (pos calls == expected)
    then calls_do_not_match path expected calls ∷ []
    else []

-- `EndRunningContext`: the errors of the definitions below come first.
unfoldable mutual
  pub end_context : Definition → List MockError
  end_context (definition path constraints reply calls expected) =
      end_reply reply ++ call_errors path calls expected

  pub end_reply : Reply → List MockError
  end_reply (uri_vary_reply base_path variants) = end_variants variants
  end_reply (method_vary_reply variants) = end_variants variants
  end_reply reply = []

  pub end_variants : Variants → List MockError
  end_variants no_variants = []
  end_variants (variant key def rest) = end_context def ++ end_variants rest
