-- ===== src/Compare/Regex.antt =====
-- The pattern ^\$matchRegexp\((.+)\)$ that marks an expected text as a regular expression.
use gonkey.Base.{◌≡◌, ◌↔◌, ◌≢◌, Option, some, [], ◌∷◌, ◌++◌}
use gonkey.Base.Text.{Text, codes}
use gonkey.Pattern.{find_group, IsLine, find_group_iff}

abbrev pub opening : Text
opening = codes "$matchRegexp("

-- `regexExprRx.FindStringSubmatch(s)[1]`, or `none` where it returns nil
unfoldable pub find_expr : Text → Option Text
unfolding find_group
find_expr = find_group opening

-- A text is read as a regular expression exactly when it is the opening, one line that is not empty,
-- and a closing bracket; the expression is that line.
pub find_expr_iff :
    (s m : Text)
    → (find_expr s ≡ some m) ↔ ((s ≡ opening ++ (m ++ b')' ∷ [])) × (m ≢ []) × IsLine m)
unfolding find_expr
find_expr_iff = find_group_iff opening
