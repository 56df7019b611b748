-- ===== src/Yaml.antt =====
-- What `gopkg.in/yaml.v2` decodes into an `interface{}`: the documents that fixtures and mocks are
-- written in. A mapping keeps its entries in order, as a `yaml.MapSlice` does; where the program
-- decodes into a map, the order is the one in which `range` visits it.
use gonkey.Base.{ℕ, Bool, ℤ, List, [], ◌∷◌, Option, none, some}
use gonkey.Base.Text.{Text}

mutual
  pub data Yaml : Type 0 where
    null : Yaml
    bool : Bool → Yaml
    int : ℤ → Yaml
    float64 : ℕ → Yaml
    string : Text → Yaml
    seq : Seq → Yaml
    mapping : Mapping → Yaml

  pub data Seq : Type 0 where
    no_nodes : Seq
    node : Yaml → Seq → Seq

  pub data Mapping : Type 0 where
    no_entries : Mapping
    entry : Yaml → Yaml → Mapping → Mapping

abbrev pub nodes : Seq → List Yaml
nodes no_nodes = []
nodes (node y ys) = y ∷ nodes ys

abbrev pub entries : Mapping → List (Yaml × Yaml)
entries no_entries = []
entries (entry k v m) = (k, v) ∷ entries m

-- The type assertions `y.(string)`, `y.(int)`, `y.([]interface{})` and the one on mappings.
abbrev pub as_string : Yaml → Option Text
as_string (string s) = some s
as_string _ = none

abbrev pub as_int : Yaml → Option ℤ
as_int (int i) = some i
as_int _ = none

abbrev pub as_seq : Yaml → Option (List Yaml)
as_seq (seq ys) = some (nodes ys)
as_seq _ = none

abbrev pub as_mapping : Yaml → Option (List (Yaml × Yaml))
as_mapping (mapping m) = some (entries m)
as_mapping _ = none
