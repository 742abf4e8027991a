-- ===== src/Harness/Collector.antt =====
-- The lifecycle of a block in collector.py: `Collection.arm`, `cleanup`, and the loop over the arms.
pub mod Reuse
pub mod Steps
use weavegate.Prelude.{
  ℕ, String, Bool, true, false, not, ◌&&◌, ◌||◌, Option, none, some, List, [], ◌∷◌, ◌++◌,
  if◌then◌else◌,
}
use weavegate.Prelude.Result.{Check, ok, err}

-- How a call ends: it returns, it raises one of EVIDENCE_ERRORS, or any other exception.
pub data Exit : Type 0 where
  normal : Exit
  evidence : (message : String) → Exit
  interrupt : Exit

-- What the world answers for one arm. `entering` is the making of its directory and of attempt.json.
-- `execute` is `execution.execute` of a step, and whether its
-- receipt is `succeeded`; `contained` is its `containment_proven`, `violates` that the guard found an
-- error at the step's boundary. `today` is `current_date` on entry and `still_today` after `prepare`.
-- `pins`, `pins_after` and `cleanup_pins` are the three calls of `verify_execution_pins` in `cleanup`,
-- `guards` and `admits` are the check of the guard and the pins before a step, `inputs` the inventory that `cleanup` saves, `proof` is
-- `cleanup_valid`, and `finishing` is `finish`.
pub record Arm : Type 0 where
  pub name : String
  pub entering : Exit
  pub today : Bool
  pub still_today : Bool
  pub guards : String → Check
  pub admits : String → Check
  pub execute : String → Bool × Exit
  pub contained : String → Bool
  pub violates : String → Bool
  pub observation : Check
  pub pins : Bool
  pub cleanup_pins : Check
  pub inputs : Exit
  pub proof : Check
  pub pins_after : Check
  pub finishing : Exit

-- What the collector keeps across the arms; `log` lists the commands executed.
pub record Session : Type 0 where
  pub contained : Bool
  pub clean : Bool
  pub log : List (String × String)

-- attempt.json.
pub record Attempt : Type 0 where
  pub reason : String
  pub observation_error : String
  pub cleanup_inputs_valid : Bool

unfoldable pub entered : Attempt
entered = record { reason = ""; observation_error = ""; cleanup_inputs_valid = false }

unfoldable pub exit_of : Check → Exit
exit_of (ok _) = normal
exit_of (err message) = evidence message

-- The session after a command, whose boundary is not read once the guard has an error.
unfoldable pub executed : Arm → String → Session → Session
executed a step s = record s {
  contained = s.contained && (not s.clean || (a.violates step || a.contained step));
  clean = s.clean && not (a.violates step);
  log = s.log ++ (a.name, step) ∷ [];
}

-- A step that is not admitted is not executed.
unfoldable pub admitted : Arm → String → Session → Check → Session × Bool × Exit
admitted a step s (ok _) = let (result, exit) = a.execute step in (executed a step s, result, exit)
admitted a step s (err message) = (s, false, evidence message)

-- The guard's own check comes first, and raises again after an error.
abbrev pub spoiled : Session → Session
spoiled s = record s { clean = false }

unfoldable pub guarded_by : Arm → String → Session → Check → Session × Bool × Exit
guarded_by a step s (ok _) = admitted a step s (a.admits step)
guarded_by a step s (err message) = (spoiled s, false, evidence message)

unfoldable pub guarded : Arm → String → Session → Bool → Session × Bool × Exit
guarded a step s true = guarded_by a step s (a.guards step)
guarded a step s false = (s, false, evidence "guard error")

-- `command`, and with `teardown=True`, which needs neither the guard nor the pins.
unfoldable pub command : Arm → String → Session → Session × Bool × Exit
command a step s = guarded a step s s.clean

unfoldable pub teardown : Arm → Session → Session × Bool × Exit
teardown a s = let (result, exit) = a.execute "cleanup" in (executed a "cleanup" s, result, exit)

abbrev with_reason : String → Attempt → Attempt
with_reason reason t = record t { reason = reason }

-- What follows a call that returned.
abbrev pub next :
    Session × Bool × Exit
    → Attempt
    → (Session → Bool → Session × Attempt × Exit)
    → Session × Attempt × Exit
next (s, result, normal) t rest = rest s result
next (s, result, evidence message) t rest = (s, t, evidence message)
next (s, result, interrupt) t rest = (s, t, interrupt)

unfoldable pub observed : Check → Attempt → Attempt × Exit
observed (ok _) t = (t, normal)
observed (err message) t = (record t { observation_error = message }, evidence message)

-- `observation`, and the check that follows where it holds.
unfoldable pub checked_by : Arm → Session → Attempt × Exit → Session × Attempt × Exit
checked_by a s (t, normal) = next (command a "check" s) t (λ s' r. (s', t, normal))
checked_by a s (t, e) = (s, t, e)

-- What follows `prepare`, by whether it succeeded and whether the date is still that of the slot.
unfoldable pub proceed : Arm → Session → Bool → Bool → Session × Attempt × Exit
proceed a s false today = (s, entered, normal)
proceed a s true false = (s, with_reason "registered_date_expired" entered, normal)
proceed a s true true = next (command a "run" s) entered (λ s1 _.
    next (command a "observe" s1) entered
      (λ s2 _. checked_by a s2 (observed a.observation entered)))

-- The `try` block of `arm`.
unfoldable pub attempt : Arm → Session → Session × Attempt × Exit
attempt a s =
    next (command a "prepare" s) entered (λ s1 prepared. proceed a s1 prepared a.still_today)

-- Its `except` clauses: whether the exception goes on, and the reason that is kept.
unfoldable pub settled : Attempt → Exit → Attempt
settled t normal = t
settled t (evidence message) = with_reason message t
settled t interrupt = with_reason "interrupted_collection" t

abbrev pub is_interrupt : Exit → Bool
is_interrupt interrupt = true
is_interrupt _ = false

abbrev passes : Check → Bool
passes (ok _) = true
passes (err _) = false

-- What `cleanup` decides once its command has been executed: the proof and the pins hold, all
-- commands were contained, and the guard has no error.
unfoldable pub verdict : Arm → Session → Bool
verdict a s = passes a.proof && (passes a.pins_after && (a.pins && (s.contained && s.clean)))

-- An inventory that could not be saved, or a command that raised, leaves no valid cleanup.
unfoldable pub returned : Exit → Exit → Bool
returned normal normal = true
returned _ _ = false

-- Whether the exception of the inventory or of the command goes on past `cleanup`.
unfoldable pub passes_on : Exit → Exit → Bool
passes_on inputs exit = is_interrupt exit || (is_interrupt inputs && not (is_evidence exit))
  where
    is_evidence : Exit → Bool
    is_evidence (evidence _) = true
    is_evidence _ = false

abbrev saved : Session → Arm → Exit
saved s a = if s.clean then a.inputs else normal

-- `cleanup`: the session, whether the cleanup is valid, and whether an interrupt goes on. The
-- command is executed whether the inventory was saved or not, but not without its own pins.
unfoldable pub tear_down : Arm → Session → Check → Session × Bool × Bool
tear_down a s (err message) = (s, false, false)
tear_down a s (ok _) =
    let (s', _, exit) = teardown a s in
    (s', returned (saved s a) exit && verdict a s', passes_on (saved s a) exit)

unfoldable pub cleanup : Arm → Session → Session × Bool × Bool
cleanup a s = tear_down a s a.cleanup_pins

abbrev is_normal : Exit → Bool
is_normal normal = true
is_normal _ = false

-- `arm`, with `finish`, which `cleanup` calls last: the session, the attempt, and whether an
-- exception leaves it.
unfoldable pub arm : Arm → Session → Session × Attempt × Bool
arm a s =
    let (s1, t, exit) = attempt a s in
    let (s2, valid, raised) = cleanup a s1 in
    (
      s2,
      record (settled t exit) { cleanup_inputs_valid = valid },
      is_interrupt exit || (raised || not (is_normal a.finishing)),
    )

-- What the loop of `collect_locked` ends with.
pub record Collected : Type 0 where
  pub session : Session
  pub safe : Bool
  pub interrupted : Bool
  pub attempts : List (String × Attempt)

unfoldable pub skip_reason : Bool → String
skip_reason safe = if safe then "registered_date_expired" else "cleanup_unproven"

-- An arm that is not run, and one that is.
unfoldable pub skip : Arm → Collected → Collected
skip a c = record c {
  attempts = c.attempts ++ (a.name, with_reason (skip_reason c.safe) entered) ∷ [];
}

unfoldable pub enter : Arm → Collected → Collected
enter a c =
    let (s, t, raised) = arm a c.session in
    record c {
      session = s;
      safe = t.cleanup_inputs_valid;
      interrupted = raised;
      attempts = c.attempts ++ (a.name, t) ∷ [];
    }

-- The body of the loop, with what the other arms make of each of its ends. An exception ends it.
unfoldable pub choose : Arm → Collected → (skipped more : Collected) → Collected
choose a c skipped more =
    if not (is_normal a.entering)
    then record c { interrupted = true }
    else if not c.safe || not a.today
    then (if is_normal a.finishing then skipped else record c { interrupted = true })
    else if (enter a c).interrupted
    then enter a c
    else more

-- The loop over the arms of a slot; `c` is what it has so far.
unfoldable pub collect_arms : List Arm → Collected → Collected
collect_arms [] c = c
collect_arms (a ∷ arms) c =
    choose a c (collect_arms arms (skip a c)) (collect_arms arms (enter a c))

abbrev pub fresh_session : Session
fresh_session = record { contained = true; clean = true; log = [] }

unfoldable pub collect : List Arm → Collected
collect arms =
    collect_arms arms
      (record { session = fresh_session; safe = true; interrupted = false; attempts = [] })

-- The reason that `finalize` writes to stopped.json.
unfoldable pub stop_reason : Collected → Option String
stop_reason c =
    if not c.safe || c.interrupted
    then some (if not c.safe then "cleanup_unproven" else "interrupted_collection")
    else none
