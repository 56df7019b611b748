-- ===== src/YamlFile/Walk.antt =====
-- testloader/yaml_file/yaml_file.go: the files of a directory that are read, and in which order.
use gonkey.Base.{
  ◌≡◌, ◌≢◌, ◌↔◌, ◌⊎◌, refl, sym, ap, Bool, true, false, not, ◌||◌, Option, none, some, List, [],
  ◌∷◌, ◌++◌, if◌then◌else◌, ◌==◌, Bool-cases, inl, inr, append_assoc, append-nil,
}
use gonkey.Base.Text.{Text, codes, text_eq, text_beq, text_beq_iff, contains, has_suffix}
use gonkey.Base.Search.{EndsWith, Holds, or_iff, has_suffix_iff, contains_iff, iff-false}
use gonkey.Base.Outcome.{Outcome, ok, fail, panic, or_fail, ◌>>=◌}
use gonkey.Models.{Args, Test, TestDefinition}
use gonkey.YamlFile.Cases.{
  ParseError, read_failed, bad_yaml, stat_failed, read_dir_failed, make_tests,
}

-- What `os.Stat` and `ioutil.ReadDir` see: a file, or a directory with its entries in order, or one that
-- cannot be read.
mutual
  pub data Node : Type 0 where
    file unreadable : Node
    dir : Entries → Node

  pub data Entries : Type 0 where
    no_entries : Entries
    entry : Text → Node → Entries → Entries

unfoldable pub is_yml_file : Text → Bool
is_yml_file name = has_suffix name (codes ".yaml") || has_suffix name (codes ".yml")

-- `!fi.IsDir() && !isYmlFile(fi.Name())`
abbrev pub passed_over : Text → Node → Bool
passed_over name file = not (is_yml_file name)
passed_over name _ = false

abbrev child : Text → Text → Text
child path name = path ++ (codes "/" ++ name)

-- `unmarshal` is `yaml.Unmarshal` into the definitions.
module _ (read_file : Text → Option Text) (unmarshal : Text → Option (List TestDefinition))
    (parse : Text → Option (Args → Option Text)) where
  unfoldable pub parse_test_definition_file : Text → Outcome ParseError (List Test)
  unfolding make_tests
  parse_test_definition_file path = do
    content ← or_fail read_failed (read_file path)
    definitions ← or_fail bad_yaml (unmarshal content)
    make_tests parse definitions

  module _ (file_filter : Text) where
    unfoldable pub fits_filter : Text → Bool
    fits_filter name = if file_filter == [] then true else contains name file_filter

    unfoldable mutual
      unfolding parse_test_definition_file fits_filter is_yml_file

      pub lookup_path : Text → Node → Outcome ParseError (List Test)
      lookup_path path file = if fits_filter path then parse_test_definition_file path else ok []
      lookup_path path unreadable = fail read_dir_failed
      lookup_path path (dir es) = lookup_entries path es

      pub lookup_entries : Text → Entries → Outcome ParseError (List Test)
      lookup_entries path no_entries = ok []
      lookup_entries path (entry name node es) =
          let rest = lookup_entries path es in
          let found = lookup_path (child path name) node in
          if passed_over name node
          then rest
          else found >>= λ more. rest >>= λ tests. ok (more ++ tests)

    -- `parseTestsWithCases` on what is at the location, if anything is.
    unfoldable pub parse_tests_with_cases : Text → Option Node → Outcome ParseError (List Test)
    parse_tests_with_cases path none = fail stat_failed
    parse_tests_with_cases path (some node) = lookup_path path node

    -- A name of a file with definitions.
    abbrev pub IsYaml : Text → Type 0
    IsYaml name = EndsWith (codes ".yaml") name ⊎ EndsWith (codes ".yml") name

    -- A path that is asked for.
    abbrev pub IsWanted : Text → Type 0
    IsWanted path = (file_filter ≡ []) ⊎ Holds file_filter path

    -- The files that are to be read, in order; `none` stands for a directory that cannot be read. A directory is
    -- entered whatever its name is.
    mutual
      pub data Selects : Text → Node → List (Option Text) → Type 0 where
        wanted : {path : Text} → IsWanted path → Selects path file (some path ∷ [])
        unwanted : {path : Text} → ¬ IsWanted path → Selects path file []
        no_reading : {path : Text} → Selects path unreadable (none ∷ [])
        entered :
            {path : Text} {es : Entries} {files : List (Option Text)}
            → SelectsIn path es files
            → Selects path (dir es) files

      pub data SelectsIn : Text → Entries → List (Option Text) → Type 0 where
        at_end : {path : Text} → SelectsIn path no_entries []
        other_file :
            {path name : Text} {es : Entries} {files : List (Option Text)}
            → ¬ IsYaml name
            → SelectsIn path es files
            → SelectsIn path (entry name file es) files
        yaml_file :
            {path name : Text} {es : Entries} {here files : List (Option Text)}
            → IsYaml name
            → Selects (path ++ (codes "/" ++ name)) file here
            → SelectsIn path es files
            → SelectsIn path (entry name file es) (here ++ files)
        below :
            {path name : Text} {node : Node} {es : Entries} {here files : List (Option Text)}
            → file ≢ node
            → Selects (path ++ (codes "/" ++ name)) node here
            → SelectsIn path es files
            → SelectsIn path (entry name node es) (here ++ files)

    abbrev parse_selected : Option Text → Outcome ParseError (List Test)
    parse_selected none = fail read_dir_failed
    parse_selected (some path) = parse_test_definition_file path

    -- The files one after the other, up to the first error.
    abbrev pub parse_all : List (Option Text) → Outcome ParseError (List Test)
    parse_all [] = ok []
    parse_all (f ∷ files) =
        parse_selected f >>= λ more. parse_all files >>= λ tests. ok (more ++ tests)

    -- One more list of tests in front.
    bind-append :
        (m n : Outcome ParseError (List Test)) (more : List Test)
        → ((m >>= λ b. n >>= λ c. ok (b ++ c)) >>= λ tests. ok (more ++ tests))
          ≡ (m >>= λ b. ok (more ++ b)) >>= λ d. n >>= λ c. ok (d ++ c)
    bind-append (ok b) (ok c) more = ap ok (sym (append_assoc more b c))
    bind-append (ok b) (fail e) more = refl
    bind-append (ok b) panic more = refl
    bind-append (fail e) n more = refl
    bind-append panic n more = refl

    bind-front :
        (m p n : Outcome ParseError (List Test))
        → (m >>= λ more. (p >>= λ b. n >>= λ c. ok (b ++ c)) >>= λ tests. ok (more ++ tests))
          ≡ (m >>= λ more. p >>= λ b. ok (more ++ b)) >>= λ d. n >>= λ c. ok (d ++ c)
    bind-front (ok more) p n = bind-append p n more
    bind-front (fail e) p n = refl
    bind-front panic p n = refl

    bind-nil : (m : Outcome ParseError (List Test)) → (m >>= λ tests. ok ([] ++ tests)) ≡ m
    bind-nil (ok tests) = refl
    bind-nil (fail e) = refl
    bind-nil panic = refl

    bind-last : (m : Outcome ParseError (List Test)) → (m >>= λ more. ok (more ++ [])) ≡ m
    bind-last (ok tests) = ap ok (append-nil tests)
    bind-last (fail e) = refl
    bind-last panic = refl

    parse_all-append :
        (xs ys : List (Option Text))
        → parse_all (xs ++ ys)
          ≡ (parse_all xs >>= λ more. parse_all ys >>= λ tests. ok (more ++ tests))
    parse_all-append [] ys = sym (bind-nil (parse_all ys))
    parse_all-append (f ∷ xs) ys =
        rw (parse_all-append xs ys) (bind-front (parse_selected f) (parse_all xs) (parse_all ys))

    is_yml_file_iff : (name : Text) → (is_yml_file name ≡ true) ↔ IsYaml name
    unfolding is_yml_file
    is_yml_file_iff name =
        let (split, joined) =
          or_iff (has_suffix name (codes ".yaml")) (has_suffix name (codes ".yml")) in
        let (yaml_sound, yaml_complete) = has_suffix_iff name (codes ".yaml") in
        let (yml_sound, yml_complete) = has_suffix_iff name (codes ".yml") in
        (
          λ h. elim (split h) [ inl e ↦ inl (yaml_sound e) | inr e ↦ inr (yml_sound e) ],
          λ h. elim h [
            | inl e ↦ joined (inl (yaml_complete e))
            | inr e ↦ joined (inr (yml_complete e))
          ],
        )

    fits_filter_iff : (path : Text) → (fits_filter path ≡ true) ↔ IsWanted path
    unfolding fits_filter
    fits_filter_iff path =
        let (found, finds) = contains_iff path file_filter in
        elim (Bool-cases (text_beq file_filter [])) [
          | inl t ↦ rw t (λ h. inl ((text_beq_iff file_filter []).0 t), λ h. refl)
          | inr f ↦ rw f (
            λ h. inr (found h),
            λ h. elim h [ inl e ↦ cc (f, (text_beq_iff file_filter []).1 e) | inr e ↦ finds e ],
          )
        ]

    -- What is read at a path, as the files that are selected there.
    abbrev Reads : Text → Node → Outcome ParseError (List Test) → Type 0
    Reads path node o =
        (files : List (Option Text)) × Selects path node files × (o ≡ parse_all files)

    abbrev ReadsIn : Text → Entries → Outcome ParseError (List Test) → Type 0
    ReadsIn path es o =
        (files : List (Option Text)) × SelectsIn path es files × (o ≡ parse_all files)

    file-Reads :
        (path : Text)
        → Reads path file (if fits_filter path then parse_test_definition_file path else ok [])
    file-Reads path = elim (Bool-cases (fits_filter path)) [
      | inl t ↦ rw t (
        some path ∷ [],
        wanted ((fits_filter_iff path).0 t),
        sym (bind-last (parse_test_definition_file path)),
      )
      | inr f ↦ rw f ([], unwanted (iff-false (fits_filter path) (fits_filter_iff path) f), refl)
    ]

    joined-parse_all :
        {o rest : Outcome ParseError (List Test)} (here files : List (Option Text))
        → o ≡ parse_all here
        → rest ≡ parse_all files
        → (o >>= λ more. rest >>= λ tests. ok (more ++ tests)) ≡ parse_all (here ++ files)
    joined-parse_all here files e f = rw (e, f) (sym (parse_all-append here files))

    mutual
      unfolding lookup_path

      lookup_path-Reads : (path : Text) (node : Node) → Reads path node (lookup_path path node)
      lookup_path-Reads path file = file-Reads path
      lookup_path-Reads path unreadable = (none ∷ [], no_reading, refl)
      lookup_path-Reads path (dir es) =
          let (files, selects, e) = entries-Reads path es in (files, entered selects, e)

      entries-Reads : (path : Text) (es : Entries) → ReadsIn path es (lookup_entries path es)
      entries-Reads path no_entries = ([], at_end, refl)
      entries-Reads path (entry name file es) =
          let (here, selects, e) = lookup_path-Reads (child path name) file in
          let (files, others, f) = entries-Reads path es in
          elim (Bool-cases (is_yml_file name)) [
            | inl t ↦ rw t (
              here ++ files,
              yaml_file ((is_yml_file_iff name).0 t) selects others,
              joined-parse_all here files e f,
            )
            | inr u ↦ rw u (
              files,
              other_file (iff-false (is_yml_file name) (is_yml_file_iff name) u) others,
              f,
            )
          ]
      entries-Reads path (entry name unreadable es) =
          let (here, selects, e) = lookup_path-Reads (child path name) unreadable in
          let (files, others, f) = entries-Reads path es in
          (here ++ files, below (λ q. cc) selects others, joined-parse_all here files e f)
      entries-Reads path (entry name (dir entries) es) =
          let (here, selects, e) = lookup_path-Reads (child path name) (dir entries) in
          let (files, others, f) = entries-Reads path es in
          (here ++ files, below (λ q. cc) selects others, joined-parse_all here files e f)

    -- The loader reads the selected files in order and joins their tests: a file at the location itself, and below
    -- it the files whose name ends in .yaml or .yml, in every directory, each where its path contains the filter or
    -- the filter is empty. It ends at the first file or directory that cannot be read or parsed.
    pub parse_tests-selected :
        (path : Text) (node : Node)
        → (files : List (Option Text)) × Selects path node files
          × (parse_tests_with_cases path (some node) ≡ parse_all files)
    unfolding parse_tests_with_cases
    parse_tests-selected path node = lookup_path-Reads path node
