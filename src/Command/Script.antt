-- ===== src/Command/Script.antt =====
-- cmd_runner/cmd_runner.go and cmd_runner_windows.go: a script with a time limit.
use gonkey.Base.{ℤ, pos, Bool, true, List, ◌∷◌, map, if◌then◌else◌, is_positive}
use gonkey.Base.Text.{Text, trim_right}
use gonkey.Base.Outcome.{Outcome, ok, guard, ◌>>=◌, ◌>>◌}

-- Which channel is ready first: that of the timer, or the one with the result of `Wait`.
pub data Selected : Type 0 where
  after_timeout : Selected
  done : Bool → Selected

pub data Printed : Type 0 where
  killed : ℤ → Printed
  finished_successfully : Printed
  line : Text → Printed

pub data ScriptError : Type 0 where
  pipe_failed start_failed getpgid_failed kill_failed finished_with_error : ScriptError

-- The calls of the system for a command, whether each succeeds; `scanned` is what can be read of the output.
pub record System : Type 0 where
  pub stdout_pipe : Bool
  pub start : Text → Bool
  pub selected : ℤ → Selected
  pub getpgid : Bool
  pub kill : Bool
  pub scanned : List Text

abbrev pub limit : ℤ → ℤ
limit timeout = if is_positive timeout then timeout else pos 3

abbrev pub wait_for : System → ℤ → Selected → Outcome ScriptError Printed
wait_for system timeout after_timeout = do
  guard system.getpgid getpgid_failed
  guard system.kill kill_failed
  ok (killed timeout)
wait_for system timeout (done success) = do
  guard success finished_with_error
  ok finished_successfully

-- What is printed. A script that is killed is no error.
unfoldable pub cmd_run : Text → ℤ → System → Outcome ScriptError (List Printed)
cmd_run script_path timeout system = do
  guard system.stdout_pipe pipe_failed
  guard (system.start (trim_right script_path b'\n')) start_failed
  first ← wait_for system (limit timeout) (system.selected (limit timeout))
  ok (first ∷ map line system.scanned)

-- On Windows the process is killed by itself, without its group.
unfoldable pub cmd_run_windows : Text → ℤ → System → Outcome ScriptError (List Printed)
unfolding cmd_run
cmd_run_windows script_path timeout system =
    cmd_run script_path timeout (record system { getpgid = true })
