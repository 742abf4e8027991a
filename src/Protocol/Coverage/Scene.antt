-- ===== src/Protocol/Coverage/Scene.antt =====
-- What `coverage` asks of a step: its event, its message, its effects and the rest of its arguments.
use weavegate.Prelude.{
  ℕ, suc, String, Bool, true, false, ◌&&◌, Option, none, some, List, [], ◌∷◌, elem, subset, ltb,
  ◌==◌, string_eq, if◌then◌else◌,
}
use weavegate.Protocol.Message.{Peer, peer_eq, Identity, Frame}
use weavegate.Protocol.State.{
  Event, stop_call, invoke_call, invoke_rejected, worker_arrives, exhaust_outbound_sequence,
  exhaust_arrivals, command_exception, cancel_context, runtime_arrive_returns, completion,
  stderr_bytes, other, input, exchange, Action, local, receive, Step,
}
use weavegate.Protocol.Emissions.{type_of}

-- `exit_code`: the status of a process, or the signal that ended it.
pub data ExitCode : Type 0 where
  exited : ℕ → ExitCode
  signalled : ℕ → ExitCode

-- The arguments of an event that `history` does not read.
pub data Detail : Type 0 where
  no_detail : Detail
  call : (call_id : String) → Detail
  context : String → Detail
  results : (expected_error : String) → (call_ids : List String) → Detail
  exit : ExitCode → Detail
  clock : (elapsed_ms : ℕ) → Detail
  gate : Identity → Detail

-- A step with the rest of its arguments, which are those of its event.
pub record Scene : Type 0 where
  pub step : Step
  pub detail : Detail

-- `step['event']`.
unfoldable pub name_of : Event → String
name_of (stop_call _) = "stop_call"
name_of (invoke_call _ _ _) = "invoke_call"
name_of (invoke_rejected _ _ _) = "invoke_rejected"
name_of (worker_arrives _) = "worker_arrives"
name_of (exhaust_outbound_sequence _) = "exhaust_outbound_sequence"
name_of (exhaust_arrivals _ _) = "exhaust_arrivals"
name_of (command_exception _ _) = "command_exception"
name_of (cancel_context _) = "cancel_context"
name_of (runtime_arrive_returns _ _) = "runtime_arrive_returns"
name_of (completion _ _) = "completion"
name_of (stderr_bytes _) = "stderr_bytes"
name_of (other name) = name

unfoldable pub is_event : String → Scene → Bool
unfolding name_of
is_event name s = named s.step.action
  where
    named : Action → Bool
    named (local e) = name_of e == name
    named (receive f d) = false

unfoldable pub is_message : String → Scene → Bool
unfolding type_of
is_message kind s = typed s.step.action
  where
    typed : Action → Bool
    typed (local e) = false
    typed (receive f d) = type_of f.body == kind

-- `event(step, name, peer)` and `message(step, kind, peer)`.
unfoldable pub event_at : String → Peer → Scene → Bool
event_at name peer s = is_event name s && s.step.peer == peer

unfoldable pub message_at : String → Peer → Scene → Bool
message_at kind peer s = is_message kind s && s.step.peer == peer

-- `step.get('delivery') == 'exchange'`, and `'input'`.
unfoldable pub is_exchange : Scene → Bool
is_exchange s = delivered s.step.action
  where
    delivered : Action → Bool
    delivered (receive f exchange) = true
    delivered _ = false

unfoldable pub is_injected : Scene → Bool
is_injected s = delivered s.step.action
  where
    delivered : Action → Bool
    delivered (receive f input) = true
    delivered _ = false

abbrev pub expects : String → Scene → Bool
expects effect s = elem effect s.step.expect

abbrev pub expects_all : List String → Scene → Bool
expects_all effects s = subset effects s.step.expect

-- `s['frame']`, of a step that receives.
abbrev pub frame_of : Scene → Option Frame
frame_of s = received s.step.action
  where
    received : Action → Option Frame
    received (local e) = none
    received (receive f d) = some f

-- `[i for i, s in enumerate(steps) if predicate(s)]`, from the place `i` on.
unfoldable pub indices_from : ℕ → (Scene → Bool) → List Scene → List ℕ
indices_from i p [] = []
indices_from i p (s ∷ rest) =
    let more = indices_from (suc i) p rest in if p s then i ∷ more else more

unfoldable pub indices : (Scene → Bool) → List Scene → List ℕ
indices p steps = indices_from 0 p steps

abbrev pub first {ℓ} : {A : Type ℓ} → List A → Option A
first [] = none
first (x ∷ _) = some x

abbrev pub last {ℓ} : {A : Type ℓ} → List A → Option A
last [] = none
last (x ∷ []) = some x
last (x ∷ y ∷ xs) = last (y ∷ xs)

-- `a < b` on places that may be missing; a comparison with a missing one fails.
abbrev pub before : Option ℕ → Option ℕ → Bool
before (some i) (some j) = ltb i j
before _ _ = false

-- `p(steps[i])`, at a place that may be missing.
abbrev pub holds_at {ℓ} : {A : Type ℓ} → (A → Bool) → Option A → Bool
holds_at p none = false
holds_at p (some s) = p s

-- The first step that a predicate holds of: `steps[indices(steps, predicate)[0]]`.
unfoldable pub first_that : (Scene → Bool) → List Scene → Option Scene
first_that p [] = none
first_that p (s ∷ rest) = if p s then some s else first_that p rest

unfoldable pub last_that : (Scene → Bool) → List Scene → Option Scene
last_that p [] = none
last_that p (s ∷ rest) = or_this (last_that p rest)
  where
    or_this : Option Scene → Option Scene
    or_this none = if p s then some s else none
    or_this (some t) = some t
