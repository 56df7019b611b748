-- ===== src/Mocks/Load/Fresh.antt =====
-- mocks/loader.go: the counters of loaded definitions.
use gonkey.Base.{
  ◌≡◌, refl, ap, ap₂, subst, Bool, true, false, Option, List, ◌++◌, if◌then◌else◌, ◌==◌,
}
use gonkey.Base.Text.{Text, codes, text_eq}
use gonkey.Base.Dict.{Dict}
use gonkey.Base.Outcome.{Outcome, ok, fail, or_panic, ◌>>=◌, >>=-eq-ok, ok-injective}
use gonkey.Value.{Value, Runtime}
use gonkey.Yaml.{
  Yaml, Mapping, no_entries, entry, mapping, null, bool, int, float64, string, seq, as_string,
}
use gonkey.Mocks.Definition.{
  Definition, Reply, Variants, method_vary_reply, variant, new_definition, new_file_reply,
  new_uri_vary_reply, reset, reset_reply, reset_variants,
}
use gonkey.Mocks.Load.Keys.{LoadError, is_key, lookup_key, validate_map_keys, string_or_fail}
use gonkey.Mocks.Load.Constraints.{load_constraints}
use gonkey.Mocks.Load.Definitions.{
  base_path, status_code, load_headers, strategy_name, calls_constraint, strategy_keys,
  load_strategy, load_uri_vary_strategy, load_method_vary_strategy, load_file_strategy,
  load_constant_strategy, load_definition, load_below, load_variants, load_entries,
}

if-both : {A : Type 0} (P : A → Type 0) (b : Bool) (x y : A) → P x → P y → P (if b then x else y)
if-both P true x y px py = px
if-both P false x y px py = py

-- What holds of the value that is returned, if one is.
record Ensures {A : Type 0} (P : A → Type 0) (o : Outcome LoadError A) : Type 0 where
  holds : (a : A) → o ≡ ok a → P a

Ensures-ok : {A : Type 0} {P : A → Type 0} {a : A} → P a → Ensures P (ok a)
Ensures-ok {P = P} p = record { holds = λ b e. subst P (ok-injective e) p }

Ensures-fail : {A : Type 0} {P : A → Type 0} {e : LoadError} → Ensures P (fail e)
Ensures-fail = record { holds = λ b e. cc }

Ensures-then :
    {A B : Type 0} {P : B → Type 0} (o : Outcome LoadError A) (f : A → Outcome LoadError B)
    → ((a : A) → Ensures P (f a))
    → Ensures P (o >>= f)
Ensures-then o f next = record {
  holds = λ b e. let (a, h₁, h₂) = >>=-eq-ok o f e in (next a).holds b h₂;
}

Ensures-bind :
    {A B : Type 0} {Q : A → Type 0} {P : B → Type 0} (o : Outcome LoadError A)
    (f : A → Outcome LoadError B)
    → Ensures Q o
    → ((a : A) → Q a → Ensures P (f a))
    → Ensures P (o >>= f)
Ensures-bind o f first next = record {
  holds = λ b e. let (a, h₁, h₂) = >>=-eq-ok o f e in (next a (first.holds a h₁)).holds b h₂;
}

-- A result that a reset leaves as it is.
abbrev FreshDefinition : Outcome LoadError Definition → Type 0
FreshDefinition = Ensures (λ d. reset d ≡ d)

abbrev FreshReply : Outcome LoadError Reply → Type 0
FreshReply = Ensures (λ reply. reset_reply reply ≡ reply)

abbrev FreshVariants : Outcome LoadError Variants → Type 0
FreshVariants = Ensures (λ vs. reset_variants vs ≡ vs)

load_uri_vary_strategy-FreshReply :
    (def : Mapping) (below : Text → Outcome LoadError Variants)
    → ((key : Text) → FreshVariants (below key))
    → FreshReply (load_uri_vary_strategy def below)
unfolding load_uri_vary_strategy new_uri_vary_reply reset
load_uri_vary_strategy-FreshReply def below fresh =
    Ensures-then (base_path (lookup_key (codes "basePath") def)) _ (λ base.
      Ensures-bind (below (codes "uris")) _ (fresh (codes "uris"))
        (λ vs h. Ensures-ok (ap (new_uri_vary_reply base) h)))

load_method_vary_strategy-FreshReply :
    (below : Text → Outcome LoadError Variants)
    → ((key : Text) → FreshVariants (below key))
    → FreshReply (load_method_vary_strategy below)
unfolding load_method_vary_strategy reset
load_method_vary_strategy-FreshReply below fresh =
    Ensures-bind (below (codes "methods")) _ (fresh (codes "methods"))
      (λ vs h. Ensures-ok (ap method_vary_reply h))

load_file_strategy-FreshReply :
    (read_file : Text → Option Text) (def : Mapping) → FreshReply (load_file_strategy read_file def)
unfolding load_file_strategy new_file_reply reset
load_file_strategy-FreshReply read_file def =
    Ensures-then (string_or_fail (codes "filename") (lookup_key (codes "filename") def)) _ (λ f.
      Ensures-then (status_code (lookup_key (codes "statusCode") def)) _ (λ status.
        Ensures-then (load_headers (lookup_key (codes "headers") def)) _
          (λ headers. Ensures-ok refl)))

load_constant_strategy-FreshReply : (def : Mapping) → FreshReply (load_constant_strategy def)
unfolding load_constant_strategy reset
load_constant_strategy-FreshReply def =
    Ensures-then (string_or_fail (codes "body") (lookup_key (codes "body") def)) _ (λ f.
      Ensures-then (status_code (lookup_key (codes "statusCode") def)) _ (λ status.
        Ensures-then (load_headers (lookup_key (codes "headers") def)) _
          (λ headers. Ensures-ok refl)))

load_strategy-FreshReply :
    (read_file : Text → Option Text) (name : Text) (def : Mapping)
    (below : Text → Outcome LoadError Variants)
    → ((key : Text) → FreshVariants (below key))
    → FreshReply (load_strategy read_file name def below)
unfolding load_strategy reset
load_strategy-FreshReply read_file name def below fresh =
    if-both FreshReply (name == codes "nop") _ _ (Ensures-ok refl) (
      if-both FreshReply (name == codes "uriVary") _ _
        (load_uri_vary_strategy-FreshReply def below fresh)
        (if-both FreshReply (name == codes "methodVary") _ _
          (load_method_vary_strategy-FreshReply below fresh)
          (if-both FreshReply (name == codes "file") _ _
            (load_file_strategy-FreshReply read_file def)
            (if-both FreshReply (name == codes "constant") _ _
              (load_constant_strategy-FreshReply def) Ensures-fail))))

module _ (rt : Runtime) (unmarshal : Text → Option Value)
    (parse_query : Text → Option (Dict Text (List Text))) (read_file : Text → Option Text) where
  mutual
    unfolding load_definition reset new_definition

    definition-fresh :
        (path : Text) (y : Yaml)
        → FreshDefinition (load_definition rt unmarshal parse_query read_file path y)
    definition-fresh path (mapping def) =
        Ensures-then
          (load_constraints rt unmarshal parse_query path
            (lookup_key (codes "requestConstraints") def))
          _
          (λ cs. Ensures-then (strategy_name path (lookup_key (codes "strategy") def)) _ (λ name.
            Ensures-bind
              (load_strategy read_file name def (λ key.
                load_below rt unmarshal parse_query read_file key (path ++ (codes "." ++ name))
                  def))
              _ (load_strategy-FreshReply read_file name def _ (λ key. below-fresh key _ def))
              (λ reply h. Ensures-then (validate_map_keys (strategy_keys name) def) _ (λ checked.
                Ensures-ok (
                  ap
                    (λ x.
                      new_definition path cs x (calls_constraint (lookup_key (codes "calls") def)))
                    h)))))
    definition-fresh path null = Ensures-fail
    definition-fresh path (bool b) = Ensures-fail
    definition-fresh path (int n) = Ensures-fail
    definition-fresh path (float64 n) = Ensures-fail
    definition-fresh path (string s) = Ensures-fail
    definition-fresh path (seq s) = Ensures-fail

    below-fresh :
        (key path : Text) (m : Mapping)
        → FreshVariants (load_below rt unmarshal parse_query read_file key path m)
    below-fresh key path no_entries = Ensures-ok refl
    below-fresh key path (entry k v m) =
        if-both FreshVariants (is_key key k) _ _ (variants-fresh key path v)
          (below-fresh key path m)

    variants-fresh :
        (key path : Text) (y : Yaml)
        → FreshVariants (load_variants rt unmarshal parse_query read_file key path y)
    variants-fresh key path (mapping m) = entries-fresh path m
    variants-fresh key path null = Ensures-fail
    variants-fresh key path (bool b) = Ensures-fail
    variants-fresh key path (int n) = Ensures-fail
    variants-fresh key path (float64 n) = Ensures-fail
    variants-fresh key path (string s) = Ensures-fail
    variants-fresh key path (seq s) = Ensures-fail

    entries-fresh :
        (path : Text) (m : Mapping)
        → FreshVariants (load_entries rt unmarshal parse_query read_file path m)
    entries-fresh path no_entries = Ensures-ok refl
    entries-fresh path (entry k v m) = Ensures-then (or_panic (as_string k)) _ (λ name.
        Ensures-bind
          (load_definition rt unmarshal parse_query read_file (path ++ (codes "." ++ name)) v) _
          (definition-fresh _ v)
          (λ def h.
            Ensures-bind (load_entries rt unmarshal parse_query read_file path m) _
              (entries-fresh path m) (λ rest hs. Ensures-ok (ap₂ (variant name) h hs))))

  -- A definition as it is loaded is what a reset of it leaves: neither it nor any definition below it has counted
  -- calls, so that a test may use it without a reset.
  pub load_definition-fresh :
      (path : Text) (y : Yaml) (d : Definition)
      → load_definition rt unmarshal parse_query read_file path y ≡ ok d
      → reset d ≡ d
  load_definition-fresh path y d h = (definition-fresh path y).holds d h
