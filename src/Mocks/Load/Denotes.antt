-- ===== src/Mocks/Load/Denotes.antt =====
-- mocks/loader.go: definitions with their strategies, loaded from what a description is written as.
use gonkey.Base.{
  ℕ, ℤ, suc, ◌≡◌, refl, ap, ap₂, ◌∙◌, true, false, Option, none, some, List, [], ◌∷◌, ◌++◌,
}
use gonkey.Base.Text.{Text, codes, text_eq, text_beq}
use gonkey.Base.Dict.{Dict}
use gonkey.Base.Outcome.{Outcome, ok, ◌>>=◌}
use gonkey.Value.{Value, Runtime}
use gonkey.Yaml.{Yaml, Mapping, mapping, nodes}
use gonkey.Mocks.Definition.{
  Reply, Variants, new_uri_vary_reply, calls_no_constraint, new_definition, method_vary_reply,
  variant,
}
use gonkey.Mocks.Load.Keys.{LoadError}
use gonkey.Mocks.Load.Constraints.{load_each_constraint, load_constraints}
use gonkey.Mocks.Load.Definitions.{
  load_definition, load_strategy, load_below, load_entries, load_uri_vary_strategy,
  load_method_vary_strategy,
}
use gonkey.Mocks.Load.Printed.{
  ConstraintSpec, Spec, Strategy, Specs, spec, nop_strategy, constant, file, uri_vary, method_vary,
  no_specs, spec_at, optional, text_node, int_node, print_constraints, constraints_node, name_of,
  common, print_spec, print_strategy, print_below, print_specs, or_else, denote_constraints, denote,
  denote_strategy, denote_specs,
}
use gonkey.Mocks.Load.Find.{find-constraints, find-strategy, find-calls, find-base}
use gonkey.Mocks.Load.Allowed.{NotCommon, validate-common}
use gonkey.Mocks.Load.RoundTrip.{load_constraint-printed}
use gonkey.Mocks.Load.Replies.{
  uri_mapping, load_constant-printed, load_file-printed, calls-printed, base_path-printed,
}

module _ (rt : Runtime) (unmarshal : Text → Option Value)
    (parse_query : Text → Option (Dict Text (List Text))) (read_file : Text → Option Text) where
  load_each-printed :
      (path : Text) (i : ℕ) (cs : List ConstraintSpec)
      → load_each_constraint rt unmarshal parse_query path i (nodes (print_constraints cs))
        ≡ denote_constraints rt unmarshal parse_query read_file path i cs
  unfolding load_each_constraint
  load_each-printed path i [] = refl
  load_each-printed path i (c ∷ cs) =
      rw
        (
          load_constraint-printed rt unmarshal parse_query read_file c,
          load_each-printed path (suc i) cs,
        )
        refl

  load_constraints-printed :
      (path : Text) (cs : List ConstraintSpec)
      → load_constraints rt unmarshal parse_query path (constraints_node cs)
        ≡ denote_constraints rt unmarshal parse_query read_file path 0 cs
  load_constraints-printed path [] = refl
  load_constraints-printed path (c ∷ cs) = load_each-printed path 0 (c ∷ cs)

  load_below-optional :
      (key path j : Text) (o : Option Yaml) (m : Mapping)
      → text_beq j key ≡ false
      → load_below rt unmarshal parse_query read_file key path (optional j o m)
        ≡ load_below rt unmarshal parse_query read_file key path m
  unfolding load_definition
  load_below-optional key path j none m h = refl
  load_below-optional key path j (some v) m h = rw h refl

  load_below-common :
      (key path : Text) (cs : List ConstraintSpec) (name : Text) (calls : Option ℤ) (m : Mapping)
      → NotCommon key
      → load_below rt unmarshal parse_query read_file key path (common cs name calls m)
        ≡ load_below rt unmarshal parse_query read_file key path m
  unfolding load_definition
  load_below-common key path cs name calls m other =
      load_below-optional key path (codes "requestConstraints") (constraints_node cs) _
        other.not_constraints
      ∙ rw (other.not_strategy)
          (load_below-optional key path (codes "calls") (int_node calls) m other.not_calls)

  -- What is left to show of a definition is its reply.
  assemble :
      (path : Text) (cs : List ConstraintSpec) (strategy : Strategy) (calls : Option ℤ)
      (reply : Outcome LoadError Reply)
      → (let def = common cs (name_of strategy) calls (print_strategy strategy) in
          load_strategy read_file (name_of strategy) def (λ key.
            load_below rt unmarshal parse_query read_file key
              (path ++ (codes "." ++ name_of strategy))
              def)
          ≡ reply)
      → load_definition rt unmarshal parse_query read_file path
          (mapping (common cs (name_of strategy) calls (print_strategy strategy)))
        ≡ (denote_constraints rt unmarshal parse_query read_file path 0 cs >>= λ verifiers.
            reply >>= λ r. ok (new_definition path verifiers r (or_else calls_no_constraint calls)))
  unfolding load_definition
  assemble path cs strategy calls reply h =
      rw
        (
          find-constraints cs strategy calls,
          load_constraints-printed path cs,
          find-strategy cs (name_of strategy) calls (print_strategy strategy),
          h,
          validate-common cs strategy calls,
          find-calls cs strategy calls,
          calls-printed calls,
        )
        refl

  load_uri_vary-printed :
      (cs : List ConstraintSpec) (calls : Option ℤ) (base : Option Text) (uris : Specs)
      (below : Text → Outcome LoadError Variants) (variants : Outcome LoadError Variants)
      → below (codes "uris") ≡ variants
      → load_uri_vary_strategy
          (common cs
            (codes "uriVary")
            calls
            (optional (codes "basePath") (text_node base) (print_below (codes "uris") uris)))
          below
        ≡ (variants >>= λ vs. ok (new_uri_vary_reply (or_else [] base) vs))
  unfolding load_uri_vary_strategy
  load_uri_vary-printed cs calls base uris below variants h =
      rw (find-base cs (codes "uriVary") calls base uris, base_path-printed base, h) refl

  uris-NotCommon : NotCommon (codes "uris")
  unfolding text_beq
  uris-NotCommon = record { not_constraints = refl; not_strategy = refl; not_calls = refl }

  methods-NotCommon : NotCommon (codes "methods")
  unfolding text_beq
  methods-NotCommon = record { not_constraints = refl; not_strategy = refl; not_calls = refl }

  mutual
    unfolding load_definition denote print_spec load_strategy load_method_vary_strategy
        new_definition text_beq

    spec-denotes :
        (path : Text) (s : Spec)
        → load_definition rt unmarshal parse_query read_file path (print_spec s)
          ≡ denote rt unmarshal parse_query read_file path s
    spec-denotes path (spec cs strategy calls) =
        assemble path cs strategy calls _
          (strategy-denotes (path ++ (codes "." ++ name_of strategy)) cs calls strategy)

    strategy-denotes :
        (path : Text) (cs : List ConstraintSpec) (calls : Option ℤ) (strategy : Strategy)
        → (let def = common cs (name_of strategy) calls (print_strategy strategy) in
            load_strategy read_file
              (name_of strategy)
              def
              (λ key. load_below rt unmarshal parse_query read_file key path def))
          ≡ denote_strategy rt unmarshal parse_query read_file path strategy
    strategy-denotes path cs calls nop_strategy = refl
    strategy-denotes path cs calls (constant body status headers) =
        load_constant-printed cs (codes "constant") calls body status headers
    strategy-denotes path cs calls (file filename status headers) =
        load_file-printed read_file cs (codes "file") calls filename status headers
    strategy-denotes path cs calls (uri_vary base uris) =
        load_uri_vary-printed cs calls base uris
          (λ key.
            load_below rt unmarshal parse_query read_file key path
              (common cs (codes "uriVary") calls (uri_mapping base uris)))
          (denote_specs rt unmarshal parse_query read_file path uris)
          (load_below-common (codes "uris") path cs (codes "uriVary") calls (uri_mapping base uris)
              uris-NotCommon
            ∙ load_below-optional (codes "uris") path (codes "basePath") (text_node base)
                (print_below (codes "uris") uris) refl
            ∙ below-denotes (codes "uris") path uris refl)
    strategy-denotes path cs calls (method_vary methods) =
        ap (λ x. x >>= λ variants. ok (method_vary_reply variants))
          (load_below-common (codes "methods") path cs (codes "methodVary") calls
              (print_below (codes "methods") methods) methods-NotCommon
            ∙ below-denotes (codes "methods") path methods refl)

    below-denotes :
        (key path : Text) (specs : Specs)
        → text_beq key key ≡ true
        → load_below rt unmarshal parse_query read_file key path (print_below key specs)
          ≡ denote_specs rt unmarshal parse_query read_file path specs
    below-denotes key path no_specs same = refl
    below-denotes key path (spec_at name s rest) same = rw same (
        ap₂ (λ x y. x >>= λ def. y >>= λ variants. ok (variant name def variants))
          (spec-denotes (path ++ (codes "." ++ name)) s) (entries-denotes path rest))

    entries-denotes :
        (path : Text) (specs : Specs)
        → load_entries rt unmarshal parse_query read_file path (print_specs specs)
          ≡ denote_specs rt unmarshal parse_query read_file path specs
    entries-denotes path no_specs = refl
    entries-denotes path (spec_at name s rest) =
        ap₂ (λ x y. x >>= λ def. y >>= λ variants. ok (variant name def variants))
          (spec-denotes (path ++ (codes "." ++ name)) s) (entries-denotes path rest)

  -- Whatever description of a mock is written in YAML, with each of the strategies and kinds of constraint as the
  -- loader names them (`queryMatches` for the one on the query), with any of the keys that the loader lets be left
  -- out (`uris` and `methods` among them) and nested to any depth, the loader gives back what the description means.
  pub load_definition-print_spec :
      (path : Text) (s : Spec)
      → load_definition rt unmarshal parse_query read_file path (print_spec s)
        ≡ denote rt unmarshal parse_query read_file path s
  load_definition-print_spec path s = spec-denotes path s
