-- ===== src/Mocks/Resets.antt =====
-- mocks/definition.go: what a reset of a definition leaves.
use gonkey.Base.{ℤ, pos, ◌≡◌, refl, ap, ap₂, ◌∙◌, Bool, Option, List, [], ◌∷◌, Bool-cases, inl, inr}
use gonkey.Base.Text.{Text}
use gonkey.Value.{Value, Runtime}
use gonkey.Mocks.Constraint.{ServerRequest}
use gonkey.Mocks.Definition.{
  Definition, Reply, Variants, definition, no_reply, nop_reply, constant_reply, uri_vary_reply,
  method_vary_reply, no_variants, variant, Test, is_uri, is_method, execute, handle_request,
  try_variants, reset, reset_reply, reset_variants,
}
use gonkey.Mocks.Calls.{serve_all}

mutual
  unfolding reset

  pub reset-reset : (d : Definition) → reset (reset d) ≡ reset d
  reset-reset (definition path cs reply n expected) =
      ap (λ x. definition path cs x 0 expected) (reset_reply-reset reply)

  reset_reply-reset : (reply : Reply) → reset_reply (reset_reply reply) ≡ reset_reply reply
  reset_reply-reset no_reply = refl
  reset_reply-reset nop_reply = refl
  reset_reply-reset (constant_reply body code hs) = refl
  reset_reply-reset (uri_vary_reply base vs) = ap (uri_vary_reply base) (reset_variants-reset vs)
  reset_reply-reset (method_vary_reply vs) = ap method_vary_reply (reset_variants-reset vs)

  reset_variants-reset : (vs : Variants) → reset_variants (reset_variants vs) ≡ reset_variants vs
  reset_variants-reset no_variants = refl
  reset_variants-reset (variant key def rest) =
      ap₂ (variant key) (reset-reset def) (reset_variants-reset rest)

module _ (rt : Runtime) (unmarshal : Text → Option Value) (equal_fold : Text → Text → Bool) where
  mutual
    unfolding execute reset

    pub reset-left :
        (r : ServerRequest) (d : Definition)
        → reset (execute rt unmarshal equal_fold r d).left ≡ reset d
    reset-left r (definition path cs reply n expected) =
        ap (λ x. definition path cs x 0 expected) (reset_reply-left r reply)

    reset_reply-left :
        (r : ServerRequest) (reply : Reply)
        → reset_reply (handle_request rt unmarshal equal_fold r reply).left ≡ reset_reply reply
    reset_reply-left r no_reply = refl
    reset_reply-left r nop_reply = refl
    reset_reply-left r (constant_reply body code hs) = refl
    reset_reply-left r (uri_vary_reply base vs) =
        ap (uri_vary_reply base) (reset_variants-left (pos 404) (is_uri base) r vs)
    reset_reply-left r (method_vary_reply vs) =
        ap method_vary_reply
          (reset_variants-left (pos 405) (is_method rt unmarshal equal_fold) r vs)

    reset_variants-left :
        (status : ℤ) (test : Test) (r : ServerRequest) (vs : Variants)
        → reset_variants (try_variants rt unmarshal equal_fold status test r vs).left
          ≡ reset_variants vs
    reset_variants-left status test r no_variants = refl
    reset_variants-left status test r (variant key def rest) = elim (Bool-cases (test key r)) [
      | inl t ↦ rw t (ap (λ x. variant key x (reset_variants rest)) (reset-left r def))
      | inr f ↦ rw f (ap (variant key (reset def)) (reset_variants-left status test r rest))
    ]

  pub reset-serve_all :
      (rs : List ServerRequest) (d : Definition)
      → reset (serve_all rt unmarshal equal_fold rs d) ≡ reset d
  unfolding serve_all
  reset-serve_all [] d = refl
  reset-serve_all (r ∷ rs) d =
      reset-serve_all rs (execute rt unmarshal equal_fold r d).left ∙ reset-left r d
