-- ===== src/Examples/Documents.antt =====
-- compare/ on concrete documents.
use mathlib.Core.List.{Permᴰ}
use gonkey.Base.{◌≡◌, ◌↔◌, ◌≢◌, refl, sym, ap, ◌∙◌, true, false, some, [], ◌∷◌, ◌++◌, nat_beq}
use gonkey.Base.Text.{Text, codes, text_beq}
use gonkey.Pattern.{IsLine}
use gonkey.Value.{
  Value, float64, string, array, object, Items, no_items, item, no_fields, field, Runtime,
  find_field,
}
use gonkey.Compare.Regex.{opening, find_expr, find_expr_iff}
use gonkey.Compare.Represent.{represent}
use gonkey.Compare.Reading.{IsReading, represent-IsReading_iff}
use gonkey.Compare.Branch.{CompareParams, compare, types_do_not_match}
use gonkey.Compare.Agrees.{Agrees}
use gonkey.Compare.Reflexive.{compare_self}
use gonkey.Compare.Ordering.{compare-Permᴰ, compare-tie}

-- Numbers that read as "1", and patterns that match the text that they spell.
abbrev pub runtime : Runtime
runtime = record {
  float_eq = nat_beq;
  format_float = λ _. codes "1";
  compile_regexp = λ e. some (text_beq e);
}

abbrev any_order : CompareParams
any_order = record {
  ignore_values = false;
  ignore_arrays_ordering = true;
  disallow_extra_fields = true;
}

abbrev letters : Items
letters = item (string (codes "a")) (item (string (codes "b")) no_items)

abbrev letters' : Items
letters' = item (string (codes "b")) (item (string (codes "a")) no_items)

abbrev document : Value
document = object (field (codes "id") (float64 7) (field (codes "tags") (array letters) no_fields))

compare_self_example : compare runtime document document any_order ≡ []
unfolding find_field find_expr text_beq
compare_self_example =
    compare_self runtime document any_order (refl, refl, (refl, (refl, (refl, tt)), tt))

-- The documents that are texts.
abbrev IsString : Value → Type 0
IsString v = (s : Text) × (v ≡ string s)

represent-injective :
    (v w : Value) → IsString v → IsString w → represent runtime v ≡ represent runtime w → v ≡ w
unfolding represent
represent-injective v w (s, e) (t, f) h =
    let same : represent runtime (string s) ≡ represent runtime (string t) =
      sym (ap (represent runtime) e) ∙ (h ∙ ap (represent runtime) f) in
    e ∙ (ap string same ∙ sym f)

compare-Permᴰ_example : compare runtime (array letters) (array letters') any_order ≡ []
unfolding find_expr
compare-Permᴰ_example =
    compare-Permᴰ runtime any_order IsString represent-injective letters letters'
      (Permᴰ.swap refl refl) ((codes "a", refl), ((codes "b", refl), tt)) refl (refl, (refl, tt))

compare-tie_example :
    compare runtime
      (array (item (float64 5) (item (string (codes "1")) no_items)))
      (array (item (string (codes "1")) (item (float64 5) no_items)))
      any_order
    ≡ types_do_not_match (codes "$[0]") (codes "float64") (codes "string")
      ∷ types_do_not_match (codes "$[1]") (codes "string") (codes "float64")
      ∷ []
compare-tie_example = compare-tie runtime 5 (codes "1") any_order refl

find_expr_iff_example : (find_expr (codes "$matchRegexp(a+)") ≡ some (codes "a+")) ↔ (
    (codes "$matchRegexp(a+)" ≡ opening ++ (codes "a+" ++ b')' ∷ []))
    × (codes "a+" ≢ [])
    × IsLine (codes "a+"))
find_expr_iff_example = find_expr_iff (codes "$matchRegexp(a+)") (codes "a+")

represent-IsReading_iff_example :
    IsReading runtime (represent runtime)
    ↔ ((v : Value) → represent runtime v ≡ represent runtime v)
represent-IsReading_iff_example = represent-IsReading_iff runtime (represent runtime)
