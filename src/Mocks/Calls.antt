-- ===== src/Mocks/Calls.antt =====
-- mocks/definition.go: the counters of nested definitions against the requests that were served.
use gonkey.Base.{
  ℕ, zero, ℤ, pos, negsuc, suc, nat_beq, ◌+◌, ◌≡◌, refl, ap, ap₂, ◌∙◌, Bool, not, Option, List, [],
  ◌∷◌, ◌++◌, if◌then◌else◌, arith, length, Bool-cases, inl, inr,
}
use gonkey.Base.Text.{Text}
use gonkey.Base.Dict.{Dict}
use gonkey.Value.{Value, Runtime}
use gonkey.Mocks.Constraint.{ServerRequest, Verifier}
use gonkey.Mocks.Definition.{
  Definition, Reply, Variants, definition, no_reply, nop_reply, constant_reply, uri_vary_reply,
  method_vary_reply, no_variants, variant, MockError, Test, is_uri, is_method, execute,
  handle_request, try_variants, reset, reset_reply, reset_variants, call_errors, end_context,
  calls_do_not_match, end_reply, end_variants,
}

-- The requests of a list that pass a test.
abbrev pub select : (ServerRequest → Bool) → List ServerRequest → List ServerRequest
select p [] = []
select p (r ∷ rs) = if p r then r ∷ select p rs else select p rs

module _ (rt : Runtime) (unmarshal : Text → Option Value) (equal_fold : Text → Text → Bool) where
  -- One request after the other.
  unfoldable pub serve_all : List ServerRequest → Definition → Definition
  serve_all [] d = d
  serve_all (r ∷ rs) d = serve_all rs (execute rt unmarshal equal_fold r d).left

  abbrev handle_all : List ServerRequest → Reply → Reply
  handle_all [] reply = reply
  handle_all (r ∷ rs) reply = handle_all rs (handle_request rt unmarshal equal_fold r reply).left

  abbrev try_all : ℤ → Test → List ServerRequest → Variants → Variants
  try_all status test [] vs = vs
  try_all status test (r ∷ rs) vs =
      try_all status test rs (try_variants rt unmarshal equal_fold status test r vs).left

  -- What is wrong with a number of calls: nothing where -1 is expected, which stands for any number, or
  -- where it is the expected one.
  abbrev pub wrong_number : Text → ℕ → ℤ → List MockError
  wrong_number path n (negsuc zero) = []
  wrong_number path n (negsuc (suc k)) = calls_do_not_match path (negsuc (suc k)) n ∷ []
  wrong_number path n (pos k) = if nat_beq n k then [] else calls_do_not_match path (pos k) n ∷ []

  call_errors-wrong_number :
      (path : Text) (n : ℕ) (expected : ℤ)
      → call_errors path n expected ≡ wrong_number path n expected
  call_errors-wrong_number path n (negsuc zero) = refl
  call_errors-wrong_number path n (negsuc (suc k)) = ground arith
  call_errors-wrong_number path n (pos k) = ground arith

  -- What a definition must report at the end of a test in which it was given the requests `rs`: for itself
  -- the number of them, and for each definition below the same of the requests that it is the first to match.
  abbrev mutual
    pub expected_errors : Definition → List ServerRequest → List MockError
    expected_errors (definition path constraints reply calls expected) rs =
        expected_reply reply rs ++ wrong_number path (length rs) expected

    pub expected_reply : Reply → List ServerRequest → List MockError
    expected_reply (uri_vary_reply base_path variants) rs =
        expected_variants (is_uri base_path) variants rs
    expected_reply (method_vary_reply variants) rs =
        expected_variants (is_method rt unmarshal equal_fold) variants rs
    expected_reply reply rs = []

    pub expected_variants : Test → Variants → List ServerRequest → List MockError
    expected_variants test no_variants rs = []
    expected_variants test (variant key def rest) rs =
        expected_errors def (select (test key) rs)
        ++ expected_variants test rest (select (λ r. not (test key r)) rs)

  zero_plus : (n : ℕ) → n ≡ 0 + n
  zero_plus n = omega arith

  plus_zero : (n : ℕ) → n + 0 ≡ n
  plus_zero n = omega arith

  moved : (m n : ℕ) → m + suc n ≡ suc m + n
  moved m n = omega arith

  serve_all-definition :
      (rs : List ServerRequest) (path : Text) (cs : List Verifier) (reply : Reply) (n : ℕ)
      (expected : ℤ)
      → serve_all rs (definition path cs reply n expected)
        ≡ definition path cs (handle_all rs reply) (length rs + n) expected
  unfolding serve_all execute
  serve_all-definition [] path cs reply n expected =
      ap (λ k. definition path cs reply k expected) (zero_plus n)
  serve_all-definition (r ∷ rs) path cs reply n expected =
      serve_all-definition rs path cs (handle_request rt unmarshal equal_fold r reply).left (suc n)
        expected
      ∙ ap (λ k. definition path cs (handle_all (r ∷ rs) reply) k expected) (moved (length rs) n)

  handle_all-uri :
      (rs : List ServerRequest) (base : Text) (vs : Variants)
      → handle_all rs (uri_vary_reply base vs)
        ≡ uri_vary_reply base (try_all (pos 404) (is_uri base) rs vs)
  unfolding execute
  handle_all-uri [] base vs = refl
  handle_all-uri (r ∷ rs) base vs = handle_all-uri rs base _

  handle_all-method :
      (rs : List ServerRequest) (vs : Variants)
      → handle_all rs (method_vary_reply vs)
        ≡ method_vary_reply (try_all (pos 405) (is_method rt unmarshal equal_fold) rs vs)
  unfolding execute
  handle_all-method [] vs = refl
  handle_all-method (r ∷ rs) vs = handle_all-method rs _

  handle_all-none : (rs : List ServerRequest) → handle_all rs no_reply ≡ no_reply
  unfolding execute
  handle_all-none [] = refl
  handle_all-none (r ∷ rs) = handle_all-none rs

  handle_all-nop : (rs : List ServerRequest) → handle_all rs nop_reply ≡ nop_reply
  unfolding execute
  handle_all-nop [] = refl
  handle_all-nop (r ∷ rs) = handle_all-nop rs

  handle_all-constant :
      (rs : List ServerRequest) (body : Text) (code : ℤ) (hs : Dict Text Text)
      → handle_all rs (constant_reply body code hs) ≡ constant_reply body code hs
  unfolding execute
  handle_all-constant [] body code hs = refl
  handle_all-constant (r ∷ rs) body code hs = handle_all-constant rs body code hs

  try_all-none :
      (status : ℤ) (test : Test) (rs : List ServerRequest)
      → try_all status test rs no_variants ≡ no_variants
  unfolding execute
  try_all-none status test [] = refl
  try_all-none status test (r ∷ rs) = try_all-none status test rs

  -- The requests are shared out: the first variant has those that it matches, the others have the rest.
  try_all-variant :
      (status : ℤ) (test : Test) (rs : List ServerRequest) (key : Text) (def : Definition)
      (rest : Variants)
      → try_all status test rs (variant key def rest)
        ≡ variant key
            (serve_all (select (test key) rs) def)
            (try_all status test (select (λ r. not (test key r)) rs) rest)
  unfolding execute serve_all
  try_all-variant status test [] key def rest = refl
  try_all-variant status test (r ∷ rs) key def rest = elim (Bool-cases (test key r)) [
    | inl t ↦ rw t (try_all-variant status test rs key _ rest)
    | inr f ↦ rw f (try_all-variant status test rs key def _)
  ]

  mutual
    unfolding reset end_context

    end-expected :
        (d : Definition) (rs : List ServerRequest)
        → end_context (serve_all rs (reset d)) ≡ expected_errors d rs
    end-expected (definition path cs reply n expected) rs =
        ap end_context (serve_all-definition rs path cs (reset_reply reply) 0 expected)
        ∙ ap₂ (λ xs k. xs ++ call_errors path k expected) (end-expected_reply reply rs)
            (plus_zero (length rs))
        ∙ ap (λ k. expected_reply reply rs ++ k)
            (call_errors-wrong_number path (length rs) expected)

    end-expected_reply :
        (reply : Reply) (rs : List ServerRequest)
        → end_reply (handle_all rs (reset_reply reply)) ≡ expected_reply reply rs
    end-expected_reply (uri_vary_reply base vs) rs =
        ap end_reply (handle_all-uri rs base (reset_variants vs))
        ∙ end-expected_variants (pos 404) (is_uri base) vs rs
    end-expected_reply (method_vary_reply vs) rs =
        ap end_reply (handle_all-method rs (reset_variants vs))
        ∙ end-expected_variants (pos 405) (is_method rt unmarshal equal_fold) vs rs
    end-expected_reply no_reply rs = ap end_reply (handle_all-none rs)
    end-expected_reply nop_reply rs = ap end_reply (handle_all-nop rs)
    end-expected_reply (constant_reply body code hs) rs =
        ap end_reply (handle_all-constant rs body code hs)

    end-expected_variants :
        (status : ℤ) (test : Test) (vs : Variants) (rs : List ServerRequest)
        → end_variants (try_all status test rs (reset_variants vs)) ≡ expected_variants test vs rs
    end-expected_variants status test no_variants rs = ap end_variants (try_all-none status test rs)
    end-expected_variants status test (variant key def rest) rs =
        ap end_variants (try_all-variant status test rs key (reset def) (reset_variants rest))
        ∙ ap₂ (λ xs ys. xs ++ ys) (end-expected def (select (test key) rs))
            (end-expected_variants status test rest (select (λ r. not (test key r)) rs))

  -- After a reset, and whatever requests were served since, a definition reports at the end what the
  -- requests alone tell: for itself and for each definition below it, that the number of the requests that
  -- reached it is not the expected one, where one is expected.
  pub end_context-expected_errors :
      (d : Definition) (rs : List ServerRequest)
      → end_context (serve_all rs (reset d)) ≡ expected_errors d rs
  end_context-expected_errors d rs = end-expected d rs
