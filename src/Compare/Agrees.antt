-- ===== src/Compare/Agrees.antt =====
-- What `Compare` promises, with no path, order of work or error in it: when an actual document agrees
-- with an expected one.
use gonkey.Base.{ℕ, ◌≡◌, Bool, true, false, none, some, List, [], ◌∷◌}
use gonkey.Base.Text.{Text}
use gonkey.Value.{
  Value, nil, bool, float64, string, array, object, Items, Fields, no_fields, field, Runtime,
  elements, count_fields, find_field,
}
use gonkey.Compare.Regex.{find_expr}
use gonkey.Sort.Stable.{SortedBy}
use gonkey.Compare.Reading.{IsReading}
use gonkey.Compare.Branch.{CompareParams}

-- Two scalars of one type.
pub data SameScalar : Value → Value → Type 0 where
  nils : SameScalar nil nil
  bools : (a b : Bool) → SameScalar (bool a) (bool b)
  floats : (a b : ℕ) → SameScalar (float64 a) (float64 b)
  strings : (s t : Text) → SameScalar (string s) (string t)

module _ (rt : Runtime) where
  -- Equal leaves, or a text that its expected regular expression matches.
  pub data LeafAgrees : Value → Value → Type 0 where
    same_nil : LeafAgrees nil nil
    same_bool : (a b : Bool) → a ≡ b → LeafAgrees (bool a) (bool b)
    same_float : (a b : ℕ) → rt.float_eq a b ≡ true → LeafAgrees (float64 a) (float64 b)
    same_text : (s t : Text) → find_expr s ≡ none → s ≡ t → LeafAgrees (string s) (string t)
    matched :
        (s t e : Text) (rx : Text → Bool)
        → find_expr s ≡ some e
        → rt.compile_regexp e ≡ some rx
        → rx t ≡ true
        → LeafAgrees (string s) (string t)

  module _ (p : CompareParams) where
    -- Arrays agree element by element: in their order, or, where it is ignored, in the order of the texts by which
    -- the elements read, those with one text in the order they have.
    mutual
      pub data Agrees : Value → Value → Type 0 where
        ignored : {e a : Value} → p.ignore_values ≡ true → SameScalar e a → Agrees e a
        leaf : {e a : Value} → p.ignore_values ≡ false → LeafAgrees e a → Agrees e a
        in_order :
            (es as' : Items)
            → p.ignore_arrays_ordering ≡ false
            → AllAgree (elements es) (elements as')
            → Agrees (array es) (array as')
        sorted :
            (es as' : Items) (reading : Value → Text) (es' as'' : List Value)
            → p.ignore_arrays_ordering ≡ true
            → IsReading rt reading
            → SortedBy reading (elements es) es'
            → SortedBy reading (elements as') as''
            → AllAgree es' as''
            → Agrees (array es) (array as')
        maps :
            (es as' : Fields)
            → (p.disallow_extra_fields ≡ true → count_fields es ≡ count_fields as')
            → FieldsAgree as' es
            → Agrees (object es) (object as')

      -- One by one, and as many on both sides.
      pub data AllAgree : List Value → List Value → Type 0 where
        no_more : AllAgree [] []
        one_more :
            {e a : Value} {es as' : List Value}
            → Agrees e a
            → AllAgree es as'
            → AllAgree (e ∷ es) (a ∷ as')

      -- Each expected key is there, with a value that agrees.
      pub data FieldsAgree : Fields → Fields → Type 0 where
        no_field : {as' : Fields} → FieldsAgree as' no_fields
        one_field :
            {k : Text} {e a : Value} {es as' : Fields}
            → find_field k as' ≡ some a
            → Agrees e a
            → FieldsAgree as' es
            → FieldsAgree as' (field k e es)
