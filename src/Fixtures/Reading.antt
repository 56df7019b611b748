-- ===== src/Fixtures/Reading.antt =====
-- fixtures/loader.go: the tables and templates of a file, on the way to the end of the loading.
use gonkey.Base.{◌≡◌, refl, Option, none, some, List, [], ◌∷◌, arith}
use gonkey.Base.Text.{Text, text_eq}
use gonkey.Base.Outcome.{ok, fail, panic, ◌>>=◌, or_panic, or_fail}
use gonkey.Base.Dict.{lookup}
use gonkey.Yaml.{Yaml, as_string, as_seq, as_mapping}
use gonkey.Fixtures.Row.{Row, RowsDict}
use gonkey.Fixtures.World.{Result, FixtureError, out_of_fuel}
use gonkey.Fixtures.Files.{
  LoadContext, extend, new_template, row_of, rows_of, load_template, load_templates,
  load_source_table, load_source_tables,
}

-- An error of the program, and not the end of the fuel.
abbrev pub IsReal : FixtureError → Type 0
IsReal out_of_fuel = ⊥
IsReal _ = Unit

-- What holds of a result: `P` of its value, or a real error.
abbrev pub Post : {A : Type 0} → (A → Type 0) → Result A → Type 0
Post P (ok a) = P a
Post P (fail e) = IsReal e
Post P panic = Unit

pub Post-bind :
    {A B : Type 0} (P : A → Type 0) (Q : B → Type 0) (m : Result A) (f : A → Result B)
    → Post P m
    → ((a : A) → P a → Post Q (f a))
    → Post Q (m >>= f)
Post-bind P Q (ok a) f h k = k a h
Post-bind P Q (fail e) f h k = h
Post-bind P Q panic f h k = tt

abbrev pub Whatever : {A : Type 0} → A → Type 0
Whatever _ = Unit

pub Post-weaken :
    {A : Type 0} (P Q : A → Type 0) (r : Result A) → Post P r → ((a : A) → P a → Q a) → Post Q r
Post-weaken P Q (ok a) h k = k a h
Post-weaken P Q (fail e) h k = h
Post-weaken P Q panic h k = tt

Post-or_panic : {A : Type 0} (o : Option A) → Post Whatever (or_panic {E = FixtureError} o)
Post-or_panic none = tt
Post-or_panic (some a) = tt

pub Post-or_fail :
    {A : Type 0} (e : FixtureError) (o : Option A) → IsReal e → Post Whatever (or_fail e o)
Post-or_fail e none h = h
Post-or_fail e (some a) h = tt

row_of-Post : (fields : List (Yaml × Yaml)) (row : Row) → Post Whatever (row_of fields row)
unfolding row_of
row_of-Post [] row = tt
row_of-Post ((k, v) ∷ fields) row =
    Post-bind Whatever Whatever (or_panic (as_string k)) _ (Post-or_panic (as_string k))
      λ key _. row_of-Post fields _

rows_of-Post : (ys : List Yaml) → Post Whatever (rows_of ys)
unfolding rows_of
rows_of-Post [] = tt
rows_of-Post (y ∷ ys) =
    Post-bind Whatever Whatever (or_panic (as_mapping y)) _ (Post-or_panic (as_mapping y))
      λ fields _.
        Post-bind Whatever Whatever (row_of fields []) _ (row_of-Post fields [])
          λ row _. Post-bind Whatever Whatever (rows_of ys) _ (rows_of-Post ys) λ rest _. tt

extend-Post : (refs : RowsDict) (row : Row) → Post Whatever (extend refs row)
unfolding extend
extend-Post refs row = ground arith

-- The files that were read stay the same.
abbrev pub SameFiles : LoadContext → LoadContext → Type 0
SameFiles ctx ctx' = ctx'.files ≡ ctx.files

new_template-Post : (name : Text) (o : Option Row) → Post Whatever (new_template name o)
new_template-Post name none = tt
new_template-Post name (some row) = tt

load_template-Post :
    (t : Yaml × Yaml) (ctx : LoadContext) → Post (SameFiles ctx) (load_template t ctx)
unfolding load_template
load_template-Post (key, value) ctx =
    let refs = ctx.refs_definition in
    Post-bind Whatever (SameFiles ctx) (or_panic (as_string key)) _ (Post-or_panic (as_string key))
      λ name _.
        Post-bind Whatever (SameFiles ctx) (new_template name (lookup name refs)) _
          (new_template-Post name (lookup name refs))
          λ _ _.
            Post-bind Whatever (SameFiles ctx) (or_panic (as_mapping value)) _
              (Post-or_panic (as_mapping value))
              λ fields _.
                Post-bind Whatever (SameFiles ctx) (row_of fields []) _ (row_of-Post fields [])
                  λ own _.
                    Post-bind Whatever (SameFiles ctx) (extend refs own) _ (extend-Post refs own)
                      λ row _. refl

load_source_table-Post :
    (t : Yaml × Yaml) (ctx : LoadContext) → Post (SameFiles ctx) (load_source_table t ctx)
unfolding load_source_table
load_source_table-Post (key, value) ctx =
    Post-bind Whatever (SameFiles ctx) (or_fail _ (as_seq value)) _
      (Post-or_fail _ (as_seq value) tt)
      λ source_rows _.
        Post-bind Whatever (SameFiles ctx) (rows_of source_rows) _ (rows_of-Post source_rows)
          λ rows _.
            Post-bind Whatever (SameFiles ctx) (or_panic (as_string key)) _
              (Post-or_panic (as_string key)) λ name _. refl

pub load_templates-Post :
    (ts : List (Yaml × Yaml)) (ctx : LoadContext) → Post (SameFiles ctx) (load_templates ts ctx)
unfolding load_templates
load_templates-Post [] ctx = refl
load_templates-Post (t ∷ ts) ctx =
    Post-bind (SameFiles ctx) (SameFiles ctx) (load_template t ctx) _ (load_template-Post t ctx)
      λ c e. rw (← e) (load_templates-Post ts c)

pub load_source_tables-Post :
    (ts : List (Yaml × Yaml)) (ctx : LoadContext) → Post (SameFiles ctx) (load_source_tables ts ctx)
unfolding load_source_tables
load_source_tables-Post [] ctx = refl
load_source_tables-Post (t ∷ ts) ctx =
    Post-bind (SameFiles ctx) (SameFiles ctx) (load_source_table t ctx) _
      (load_source_table-Post t ctx) λ c e. rw (← e) (load_source_tables-Post ts c)
