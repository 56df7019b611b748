-- ===== src/Fixtures/Row.antt =====
-- Rows, and the references between them.
use gonkey.Base.{Bool, false, Option, none, some, [], ◌∷◌, nat_beq, if◌then◌else◌}
use gonkey.Base.Text.{Text, text_eq}
use gonkey.Base.Dict.{Dict, lookup}
use gonkey.Value.{Value}
use gonkey.Yaml.{Yaml}

-- A field of a row, from a YAML file or from a row that the database returned.
pub data Any : Type 0 where
  yaml : Yaml → Any
  json : Value → Any

abbrev pub Row : Type 0
Row = Dict Text Any

abbrev pub RowsDict : Type 0
RowsDict = Dict Text Row

-- `value.(string)`
abbrev pub text_of : Any → Option Text
text_of (yaml (Yaml.string s)) = some s
text_of (json (Value.string s)) = some s
text_of _ = none

-- `len(k) > 0 && k[0] == '$'`
abbrev pub is_dollar : Text → Bool
is_dollar [] = false
is_dollar (a ∷ s) = nat_beq a b'$'

-- The copy of a base row, without its $-records.
unfoldable pub without_dollars : Row → Row
without_dollars [] = []
without_dollars ((k, v) ∷ row) =
    if is_dollar k then without_dollars row else (k, v) ∷ without_dollars row

-- `resolveReference`: `none` where the reference is undefined.
unfoldable pub resolve_reference : RowsDict → Text → Option Row
unfolding without_dollars
resolve_reference refs name = elim (lookup name refs) [
  | none ↦ none
  | some target ↦ some (without_dollars target)
]
