-- ===== src/Harness/Trial.antt =====
-- `command_valid` and `trial` of evidence.py: the outcome of one arm from its retained receipts.
use Prim.Native.String.{◌++◌ as str_append}
use weavegate.Prelude.{
  ℕ, String, Bool, true, false, not, ◌&&◌, ◌||◌, Option, none, some, List, [], ◌∷◌, leb, ltb, all,
  elem, ◌==◌, string_eq, nat_eq, list_eq, if◌then◌else◌,
}
use weavegate.Prelude.Dict
use weavegate.Prelude.Dict.{Dict, is_some}
use weavegate.Prelude.Text.{has_text}
use weavegate.Prelude.Result.{Result, Check, ok, err, ◌>>=◌, ◌>>◌, need}

-- An exit code, which is negative for a signal.
pub data Code : Type 0 where
  code : ℕ → Code
  signal : ℕ → Code

-- The invocation that the manifest froze for a step, `expand_command` applied.
pub record Invocation : Type 0 where
  pub argv : List String
  pub cwd : String
  pub env_text : String
  pub redacted : List String

pub record Receipt : Type 0 where
  pub step : String
  pub invocation : Invocation
  pub started : Bool
  pub finished : Bool
  pub interrupted : Bool
  pub timeout : Bool
  pub containment_proven : Bool
  pub exit : Option Code
  pub error : Option String
  -- `none` where the value is no number that is at least zero.
  pub seconds : Option ℕ
  pub started_at : ℕ
  pub started_date : String
  pub ended_at : ℕ

-- What the manifest registers for a step.
pub record Spec : Type 0 where
  pub invocation : Invocation
  pub timeout_seconds : ℕ

pub record Registration : Type 0 where
  pub registered_at : ℕ
  pub date : String

unfoldable pub invocation_beq : Invocation → Invocation → Bool
invocation_beq a b =
    a.argv == b.argv && (a.cwd == b.cwd && (a.env_text == b.env_text && a.redacted == b.redacted))

abbrev is_none {ℓ} : {A : Type ℓ} → Option A → Bool
is_none none = true
is_none (some _) = false

at_least : ℕ → Option ℕ → Bool
at_least n none = false
at_least n (some m) = leb n m

-- The tests on a command that has finished.
unfoldable pub timing_valid : Spec → String → Receipt → Check
unfolding at_least
timing_valid spec step r = if not r.finished then ok tt else (do
  need (is_some r.seconds && leb r.started_at r.ended_at)
      (str_append "invalid command timing: " step)
  need
      (not (
        r.started
        && (not r.timeout
            && (not r.interrupted
                && (is_none r.error && at_least spec.timeout_seconds r.seconds)))))
      (str_append "command exceeded registered budget: " step))

-- The time at which the command began.
unfoldable pub command_valid : Spec → Registration → String → Receipt → Result ℕ
command_valid spec registration step r = do
  need (r.step == step && invocation_beq r.invocation spec.invocation)
      (str_append "command differs from frozen invocation: " step)
  need (ltb registration.registered_at r.started_at)
      (str_append "measurement predates registration: " step)
  timing_valid spec step r
  need (not (elem step ("prepare" ∷ "run" ∷ [])) || r.started_date == registration.date)
      (str_append "command ran outside registered UTC date: " step)
  ok r.started_at

is_zero : Option Code → Bool
is_zero (some (code n)) = n == 0
is_zero _ = false

unfoldable pub succeeded : Option Receipt → Bool
unfolding is_zero
succeeded none = false
succeeded (some r) =
    r.started
    && (r.finished && (not r.interrupted && (is_zero r.exit && (not r.timeout && is_none r.error))))

unfoldable pub steps : List String
steps = "prepare" ∷ "run" ∷ "observe" ∷ "check" ∷ "cleanup" ∷ []

-- The variables of the loop over the steps.
pub record Scan : Type 0 where
  pub commands : Dict String Receipt
  pub validation_error : Option String
  pub previous_end : Option ℕ

-- `attempt.json`.
pub record Attempt : Type 0 where
  pub state : String
  pub reason : String
  pub observation_error : String
  pub cleanup_inputs_valid : Bool

pub data Classification : Type 0 where
  not_started operational_failure quality_failure complete : Classification

pub record Row : Type 0 where
  pub classification : Classification
  pub reason : String
  pub started : Bool
  pub cleanup_proven : Bool

-- The retained files of an arm. A receipt is absent, unreadable or read. `cleanup_valid` and
-- `observation` stand for those functions on this directory.
pub record Directory : Type 0 where
  pub pair_exists : Bool
  pub attempt : Option (Result Attempt)
  pub receipt : String → Option (Result Receipt)
  pub cleanup_valid : Check
  pub observation : Check

unfoldable pub advance : Receipt → Scan → Check → Scan
advance r s (err message) = record s { validation_error = some message }
advance r s (ok _) = if r.finished then record s { previous_end = some r.ended_at } else s

module _ (specs : String → Spec) (registration : Registration) where
  after_previous : Option ℕ → ℕ → Bool
  after_previous none begin = true
  after_previous (some end) begin = leb end begin

  unfoldable pub in_sequence : String → Receipt → Option ℕ → Check
  unfolding after_previous
  in_sequence step r previous = do
    begin ← command_valid (specs step) registration step r
    need (after_previous previous begin)
        (str_append "command chronology differs from registered sequence: " step)

  unfoldable pub scan_step : String → Option (Result Receipt) → Scan → Scan
  scan_step step none s = s
  scan_step step (some (err message)) s = record s { validation_error = some message }
  scan_step step (some (ok r)) s =
      advance r (record s { commands = Dict.put step r s.commands })
        (in_sequence step r s.previous_end)

  unfoldable pub scan : Directory → List String → Scan → Scan
  scan dir [] s = s
  scan dir (step ∷ rest) s = scan dir rest (scan_step step (dir.receipt step) s)

abbrev pub empty_scan : Scan
empty_scan = record { commands = []; validation_error = none; previous_end = none }

all_contained : Dict String Receipt → Bool
all_contained commands = all (λ (e : String × Receipt). e.1.containment_proven) commands

passes : Check → Bool
passes (ok _) = true
passes (err _) = false

unfoldable pub cleanup_proven : Directory → Attempt → Dict String Receipt → Bool
unfolding all_contained passes
cleanup_proven dir attempt commands =
    attempt.cleanup_inputs_valid && (all_contained commands && passes dir.cleanup_valid)

unfoldable pub code_beq : Code → Code → Bool
code_beq (code a) (code b) = a == b
code_beq (signal a) (signal b) = a == b
code_beq _ _ = false

unfoldable pub is_expected : List Code → Option Code → Bool
is_expected codes none = false
is_expected [] (some c) = false
is_expected (d ∷ codes) (some c) = code_beq c d || is_expected codes (some c)

abbrev pub judged : Classification → String → Row → Row
judged c reason row = record row { classification = c; reason = reason }

-- A run that ended with an exit code which is not among the expected ones.
unfoldable pub unexpected : Receipt → Row → Row
unfolding is_expected code_beq
unexpected r row =
    if is_expected (code 0 ∷ code 2 ∷ code 3 ∷ []) r.exit
    then judged quality_failure
        (if is_expected (code 3 ∷ []) r.exit then "flaky_exit" else "unexpected_outcome") row
    else judged operational_failure "unexpected_exit" row

unfoldable pub observed : Directory → Attempt → Dict String Receipt → Row → Row
observed dir attempt commands row =
    if not (succeeded (Dict.get "observe" commands) && succeeded (Dict.get "check" commands))
    then judged quality_failure "evidence_incomplete" row
    else if not (attempt.state == "finished")
    then judged quality_failure "interrupted_collection" row
    else of_observation dir.observation
  where
    of_observation : Check → Row
    of_observation (ok _) = judged complete "" row
    of_observation (err message) = judged quality_failure message row

-- The outcome of the run command.
unfoldable pub run_outcome :
    Directory → Attempt → Dict String Receipt → List Code → Option Receipt → Row → Row
run_outcome dir attempt commands expected none row =
    judged operational_failure "interrupted_collection" row
run_outcome dir attempt commands expected (some r) row =
    if r.interrupted || not r.finished
    then judged operational_failure "interrupted_collection" row
    else if r.timeout
    then judged operational_failure "budget_expired" row
    else if has_text r.error || not r.started
    then judged operational_failure (if r.started then "execution_failed" else "spawn_failed") row
    else if not (is_expected expected r.exit)
    then unexpected r row
    else observed dir attempt commands row

unfoldable pub judge : Directory → Attempt → Scan → List Code → Row → Row
judge dir attempt s expected row =
    if not row.cleanup_proven
    then judged quality_failure "cleanup_unproven" row
    else if is_some s.validation_error
    then judged quality_failure (text_of s.validation_error) row
    else if not (attempt.observation_error == "")
    then judged quality_failure attempt.observation_error row
    else if attempt.reason == "registered_date_expired" && is_none (Dict.get "run" s.commands)
    then judged not_started "registered_date_expired" row
    else if not (attempt.reason == "")
    then judged operational_failure attempt.reason row
    else if not (succeeded (Dict.get "prepare" s.commands))
    then judged operational_failure "prepare_failed" row
    else run_outcome dir attempt s.commands expected (Dict.get "run" s.commands) row
  where
    text_of : Option String → String
    text_of none = ""
    text_of (some message) = message

has_started : Option Receipt → Bool
has_started none = false
has_started (some r) = r.started

-- The row before the outcome is judged.
unfoldable pub first_row : Directory → Attempt → Scan → Row
unfolding has_started
first_row dir attempt s = record {
  classification = not_started;
  reason = attempt.reason;
  started = has_started (Dict.get "run" s.commands);
  cleanup_proven = cleanup_proven dir attempt s.commands;
}

is_empty : Dict String Receipt → Bool
is_empty [] = true
is_empty _ = false

module _ (specs : String → Spec) (registration : Registration) (expected : List Code) where
  unfoldable pub trial_of : Directory → Attempt → Row
  unfolding is_empty
  trial_of dir attempt =
      let s = scan specs registration dir steps empty_scan in
      let row = first_row dir attempt s in
      if elem attempt.reason ("registered_date_expired" ∷ "cleanup_unproven" ∷ [])
        && is_empty s.commands
      then row
      else judge dir attempt s expected row

  never : String → Row
  never reason = record {
    classification = not_started;
    reason = reason;
    started = false;
    cleanup_proven = false;
  }

  unfoldable pub of_attempt : Directory → Option (Result Attempt) → Result Row
  unfolding never
  of_attempt dir none =
      ok (never (if dir.pair_exists then "interrupted_collection" else "slot_not_collected"))
  of_attempt dir (some (err message)) = err message
  of_attempt dir (some (ok attempt)) = ok (trial_of dir attempt)

  unfoldable pub trial : Directory → Result Row
  trial dir = of_attempt dir dir.attempt
