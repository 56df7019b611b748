-- ===== src/Command/Exits.antt =====
-- main.go: what the exit status of the command says.
use gonkey.Base.{◌≡◌, some, List, []}
use gonkey.Base.Text.{Text}
use gonkey.Base.Outcome.{Outcome}
use gonkey.Models.{Test, Result}
use gonkey.Variables.{Variables, new}
use gonkey.Runner.{Call, Env}
use gonkey.Runner.Totals.{Runs}
use gonkey.Command.Parts.{Parts}

module _ {Schema : Type 0} (parts : Parts Schema) where
  -- A runner whose tests were loaded from a location and executed in order, with their results.
  abbrev pub Executed : Text → Env → List Result → Type 0
  Executed location env results =
      (tests : List Test) × (parts.load_tests location ≡ some tests)
      × (end : List Call) × Runs env new [] tests results end
