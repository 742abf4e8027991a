-- ===== src/Gate/Step.antt =====
-- The steps of the action: `run`, `read_status` and `gate`.
use weavegate.Prelude.{
  ℕ, ◌+◌, String, Bool, false, not, ◌&&◌, Option, none, some, List, ◌==◌, string_eq, nat_eq,
  list_eq, if◌then◌else◌,
}
use weavegate.Gate.Status.{FilePath, Disk, RunResult, partial, no_run, parse_run}

-- A process ends with an exit code, or by a signal, which Python reports as a negative number.
pub data Return : Type 0 where
  exited : ℕ → Return
  signaled : ℕ → Return

pub data Process : Type 0 where
  not_launched : Process
  -- Whether the logs were written, and the lines of its output.
  ended : Return → (logged : Bool) → List String → Process

pub record Status : Type 0 where
  pub exit_code : Option ℕ
  pub result : RunResult

unfoldable pub shell_code : Return → ℕ
shell_code (exited n) = n
shell_code (signaled n) = 128 + n

unfoldable pub run : Disk → FilePath → Process → Status
run disk root not_launched = record {
  exit_code = none;
  result = partial no_run "Action could not launch or inspect weavegate";
}
run disk root (ended code logged stdout) = record {
  exit_code = some (shell_code code);
  result =
      if logged
      then parse_run disk root stdout
      else partial no_run "Action could not launch or inspect weavegate";
}

-- `status.json`, or what stands for one that cannot be read.
unfoldable pub read_status : Option Status → Status
read_status none = record {
  exit_code = none;
  result = partial no_run "Run status unavailable; install or execution failed.";
}
read_status (some status) = status

is_code : ℕ → Option ℕ → Bool
is_code n none = false
is_code n (some m) = m == n

-- The exit status of the gate step.
unfoldable pub gate : String → Option Status → ℕ
unfolding is_code
gate upload_outcome stored =
    let status = read_status stored in
    if not (upload_outcome == "success")
    then 1
    else if is_code 0 status.exit_code
        && (status.result.evidence_complete
            && (is_code 2 status.result.artifact_version && status.result.verdict == "PASS"))
    then 0
    else 1
