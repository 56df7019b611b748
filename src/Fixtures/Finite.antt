-- ===== src/Fixtures/Finite.antt =====
-- fixtures/loader.go: the end of loading files that may inherit from one another in a cycle.
use gonkey.Base.{
  ℕ, zero, suc, ◌≤◌, ◌<◌, ◌≡◌, true, false, some, List, [], ◌∷◌, ◌++◌, arith, if◌then◌else◌, length,
  Bool-cases, Option-cases, inl, inr, ◌-◌, subst,
}
use gonkey.Base.Text.{Text, text_eq, text_beq_iff}
use gonkey.Base.Outcome.{ok, fail, panic, ◌>>=◌, or_fail}
use gonkey.Fixtures.Query.{in_array}
use gonkey.Fixtures.Names.{in_array-snoc, IsDistinct, IsDistinct-snoc}
use gonkey.Fixtures.World.{World, Result, unable_to_load}
use gonkey.Fixtures.Files.{
  LoadContext, new_context, Loader, LoadFile, named_error, load_templates, load_source_tables,
  load_inherits, load_yml, find_file, candidates, open_file, load_file, load_names,
}
use gonkey.Fixtures.Reading.{
  IsReal, Post, Post-bind, Whatever, Post-weaken, Post-or_fail, SameFiles, load_templates-Post,
  load_source_tables-Post,
}

-- The files of `universe` that were not read yet.
unread : List Text → List Text → ℕ
unread [] files = 0
unread (u ∷ universe) files =
    if in_array u files then unread universe files else suc (unread universe files)

unread-snoc-le :
    (universe files : List Text) (f : Text)
    → unread universe (files ++ f ∷ []) ≤ unread universe files
unfolding unread
unread-snoc-le [] files f = omega arith
unread-snoc-le (u ∷ universe) files f =
    ground (arith, in_array-snoc u f files, unread-snoc-le universe files f)

unread-snoc-lt :
    (universe files : List Text) (f : Text)
    → in_array f universe ≡ true
    → in_array f files ≡ false
    → unread universe (files ++ f ∷ []) < unread universe files
unfolding unread in_array
unread-snoc-lt [] files f h n = cc
unread-snoc-lt (u ∷ universe) files f h n = ground (
  arith,
  in_array-snoc u f files,
  unread-snoc-le universe files f,
  unread-snoc-lt universe files f,
  text_beq_iff f u,
  text_beq_iff u f,
)

unread-le-length : (universe files : List Text) → unread universe files ≤ length universe
unfolding unread
unread-le-length [] files = omega arith
unread-le-length (u ∷ universe) files = ground (arith, unread-le-length universe files)

-- `universe` lists the files that exist.
module _ (w : World) (f : Loader) (universe : List Text) where
  -- At most `n` files are left to read, and none was read twice.
  abbrev Left : ℕ → LoadContext → Type 0
  Left n ctx = (unread universe ctx.files ≤ n) × IsDistinct ctx.files

  -- What the fuel gives for inherited files.
  abbrev RecEnds : ℕ → LoadFile → Type 0
  RecEnds n rec = (name : Text) (ctx : LoadContext) → Left n ctx → Post (Left n) (rec name ctx)

  load_inherits-Post :
      (n : ℕ) (rec : LoadFile)
      → RecEnds n rec
      → (names : List Text) (ctx : LoadContext) → Left n ctx
      → Post (Left n) (load_inherits rec names ctx)
  unfolding load_inherits
  load_inherits-Post n rec ends [] ctx l = l
  load_inherits-Post n rec ends (name ∷ names) ctx l =
      Post-bind (Left n) (Left n) (rec name ctx) _ (ends name ctx l)
        (load_inherits-Post n rec ends names)

  load_yml-Post :
      (n : ℕ) (rec : LoadFile)
      → RecEnds n rec
      → (content : Text) (ctx : LoadContext) → Left n ctx
      → Post (Left n) (load_yml w f rec content ctx)
  unfolding load_yml
  load_yml-Post n rec ends content ctx l =
      Post-bind Whatever (Left n) (or_fail _ (w.unmarshal content)) _
        (Post-or_fail _ (w.unmarshal content) tt)
        λ fixture _.
          Post-bind (Left n) (Left n) (load_inherits rec fixture.inherits ctx) _
            (load_inherits-Post n rec ends fixture.inherits ctx l)
            λ c1 l1.
              Post-bind (SameFiles c1) (Left n) (load_templates fixture.templates c1) _
                (load_templates-Post fixture.templates c1)
                λ c2 e2.
                  Post-weaken (SameFiles c2) (Left n) (load_source_tables fixture.tables c2)
                    (load_source_tables-Post fixture.tables c2) λ c3 e3. rw e3 (rw e2 l1)

  module _ (exists : (c : Text) → w.stat c ≡ true → in_array c universe ≡ true) where
    find_file-exists :
        (cs : List Text) (file : Text)
        → find_file w f cs ≡ some file
        → in_array file universe ≡ true
    unfolding find_file
    find_file-exists [] file h = cc
    find_file-exists (c ∷ cs) file h = elim (Bool-cases (w.stat c)) [
      | inl t ↦
          let e : c ≡ file = ground arith in subst (λ x. in_array x universe ≡ true) e (exists c t)
      | inr u ↦ find_file-exists cs file (rw u at h)
    ]

    -- A file that exists and is new leaves one less to read.
    open_new-Post :
        (n : ℕ) (rec : LoadFile)
        → ((m : ℕ) → m < n → RecEnds m rec)
        → (file : Text) (ctx : LoadContext) → in_array file universe ≡ true
        → in_array file ctx.files ≡ false
        → Left n ctx
        → Post (Left n) (open_file w f rec (some file) ctx)
    unfolding open_file
    open_new-Post n rec ends file ctx known new l =
        let fewer = unread-snoc-lt universe ctx.files file known new in
        rw new (
          Post-bind Whatever (Left n) (or_fail _ (w.read_file file)) _
            (Post-or_fail _ (w.read_file file) tt)
            λ content _.
              Post-weaken (Left (n - 1)) (Left n) _
                (load_yml-Post (n - 1) rec (ends (n - 1) (omega arith)) content _
                  (omega arith, IsDistinct-snoc ctx.files file l.1 new))
                λ c h. (omega arith, h.1))

    open_file-Post :
        (n : ℕ) (rec : LoadFile)
        → ((m : ℕ) → m < n → RecEnds m rec)
        → (cs : List Text) (ctx : LoadContext) → Left n ctx
        → Post (Left n) (open_file w f rec (find_file w f cs) ctx)
    open_file-Post n rec ends cs ctx l = elim (Option-cases (find_file w f cs)) [
      | inl e ↦ rw e (unfold open_file in tt)
      | inr (file, e) ↦ elim (Bool-cases (in_array file ctx.files)) [
        | inl old ↦ rw e (unfold open_file in rw old l)
        | inr new ↦ rw e (open_new-Post n rec ends file ctx (find_file-exists cs file e) new l)
      ]
    ]

    load_file-Post : (fuel n : ℕ) → n < fuel → RecEnds n (load_file w f fuel)
    unfolding load_file
    load_file-Post zero n h name ctx l = absurd (omega arith)
    load_file-Post (suc fuel) n h name ctx l =
        open_file-Post n (load_file w f fuel) (λ m lt. load_file-Post fuel m (omega arith))
          (candidates w f name) ctx l

    -- `Load` names the fixture in an error.
    abbrev pub EndsNamed : Result LoadContext → Type 0
    EndsNamed (ok ctx) = IsDistinct ctx.files
    EndsNamed (fail (unable_to_load name e)) = IsReal e
    EndsNamed (fail e) = ⊥
    EndsNamed panic = Unit

    named_error-Ends :
        (n : ℕ) (name : Text) (r : Result LoadContext) (rest : LoadContext → Result LoadContext)
        → Post (Left n) r
        → ((c : LoadContext) → Left n c → EndsNamed (rest c))
        → EndsNamed (named_error w f name r >>= rest)
    named_error-Ends n name (ok c) rest h k = k c h
    named_error-Ends n name (fail e) rest h k = h
    named_error-Ends n name panic rest h k = tt

    load_names-Ends :
        (fuel n : ℕ)
        → n < fuel
        → (names : List Text) (ctx : LoadContext) → Left n ctx
        → EndsNamed (load_names w f fuel names ctx)
    unfolding load_names
    load_names-Ends fuel n h [] ctx l = l.1
    load_names-Ends fuel n h (name ∷ names) ctx l =
        named_error-Ends n name (load_file w f fuel name ctx) _ (load_file-Post fuel n h name ctx l)
          (load_names-Ends fuel n h names)

    -- With one more unit of fuel than there are files, whatever they inherit: the loading of the files
    -- returns, panics or gives an error that names its fixture, and never for want of fuel; a context
    -- that it returns lists no file twice.
    pub load_names_ends :
        (fuel : ℕ) (names : List Text)
        → length universe < fuel
        → EndsNamed (load_names w f fuel names new_context)
    load_names_ends fuel names h =
        load_names-Ends fuel (length universe) h names new_context
          (unread-le-length universe [], tt)
