-- ===== src/Protocol/Coverage/Order.antt =====
-- The coverage rules on the order of a case's steps.
use weavegate.Prelude.{
  ℕ, ◌-◌, String, Bool, true, false, not, ◌&&◌, ◌||◌, Option, none, some, List, [], ◌∷◌, all, any,
  keep, elem, min, ◌==◌, string_eq, nat_eq, list_eq, if◌then◌else◌,
}
use weavegate.Protocol.Message.{
  go, java, peer_eq, Identity, identity_eq, Start, Frame, Body, start, accepted, arrive, release,
  terminal, cancel, invoke, stop,
}
use weavegate.Protocol.State.{runtime_arrive_returns, cancel_context, Action, local}
use weavegate.Protocol.Emissions.{type_of}
use weavegate.Protocol.Coverage.Scene.{
  Detail, call, results, clock, gate, Scene, is_event, is_message, event_at, message_at,
  is_exchange, expects, expects_all, frame_of, indices, first, last, before, holds_at, first_that,
  last_that,
}
use weavegate.Protocol.Coverage.Wire.{Covered, only_go, exit_nonzero, frame_is, frame_at}

unfoldable pub returns_with : String → Scene → Bool
returns_with result s = returned s.step.action
  where
    returned : Action → Bool
    returned (local (runtime_arrive_returns i r)) = r == result
    returned _ = false

unfoldable pub error_expected : List String → Detail → Bool
error_expected errors (results e ids) = elem e errors
error_expected errors _ = false

-- `steps[i]['args']['call_id'] in steps[j]['args']['call_ids']`.
unfoldable pub call_among : Option Scene → Option Scene → Bool
call_among (some s) (some t) = among s.detail t.detail
  where
    among : Detail → Detail → Bool
    among (call id) (results e ids) = elem id ids
    among _ _ = false
call_among _ _ = false

unfoldable pub is_death : Scene → Bool
is_death s = event_at "child_exit" go s && expects "cancel_bridge" s

unfoldable pub is_unwind : Scene → Bool
is_unwind s =
    event_at "runtime_arrive_returns" go s
    && (returns_with "cancelled" s && expects_all ("no_release" ∷ "no_bridge_tasks" ∷ []) s)

unfoldable pub is_reaping_stop : Scene → Bool
is_reaping_stop s = event_at "stop_call" go s && expects "child_reaped" s

unfoldable pub is_stop_check : Scene → Bool
is_stop_check s =
    event_at "check_stop_results" go s
    && (error_expected ("transport_failure" ∷ []) s.detail
        && expects_all ("reset_rejected" ∷ "no_worker_result" ∷ "no_bridge_tasks" ∷ []) s)

unfoldable pub process_death_cleanup : Covered → Bool
process_death_cleanup c =
    let death = first (indices is_death c.own) in
    let unwind = first (indices is_unwind c.own) in
    let stopped = first (indices is_reaping_stop c.own) in
    let checked = first (indices is_stop_check c.own) in
    only_go c
    && (c.prefix == "arrived"
        && (before death unwind
            && (before unwind stopped
                && (before stopped checked
                    && call_among (first_that is_reaping_stop c.own)
                        (first_that is_stop_check c.own)))))

-- `on_wire` tells the rule `late_wire_fault` from `late_process_fault`.
unfoldable pub is_late_fault : Bool → Scene → Bool
is_late_fault on_wire s = if on_wire then message_at "fatal" go s else event_at "child_exit" go s

unfoldable pub late_fault : Bool → Covered → List Scene → Bool
late_fault on_wire c steps =
    let provisional = first (indices (is_event "provisional_evaluation") steps) in
    let fault = first (indices (is_late_fault on_wire) steps) in
    elem go c.case.targets
    && (before (last (indices (message_at "terminal" go) steps)) provisional
        && (before provisional fault
            && (before fault (first (indices (is_event "complete_evaluation") steps))
                && (holds_at (expects "invalidate_evaluation")
                      (first_that (is_late_fault on_wire) steps)
                    && holds_at
                        (λ s.
                          is_event "check_operation_result" s
                          && error_expected ("transport_failure" ∷ "adapter_failure" ∷ []) s.detail)
                        (last steps)))))

pub data Phase : Type 0 where
  startup stopping canceling fatality active_stop : Phase

unfoldable pub clock_of : Phase → String
clock_of startup = "advance_startup_clock"
clock_of stopping = "advance_stop_clock"
clock_of canceling = "advance_cancel_cleanup_clock"
clock_of fatality = "advance_fatal_cleanup_clock"
clock_of active_stop = "advance_cancel_cleanup_clock"

unfoldable pub trigger_effect : Phase → String
trigger_effect startup = "arm_startup_watchdog"
trigger_effect stopping = "arm_stop_watchdog"
trigger_effect _ = "arm_cleanup_watchdog"

unfoldable pub trigger_type : Phase → String
trigger_type startup = "start"
trigger_type stopping = "stop"
trigger_type canceling = "cancel"
trigger_type fatality = "fatal"
trigger_type active_stop = "cancel"

abbrev start_of : Option Frame → Option Start
start_of none = none
start_of (some f) = of_body f.body
  where
    of_body : Body → Option Start
    of_body (start s) = some s
    of_body _ = none

abbrev pub stop_budget : Option Frame → Option ℕ
stop_budget none = none
stop_budget (some f) = of_body f.body
  where
    of_body : Body → Option ℕ
    of_body (stop ms) = some ms
    of_body _ = none

abbrev startup_ms : Option Start → Option ℕ
startup_ms none = none
startup_ms (some s) = some s.startup_ms

abbrev cancel_ms : Option Start → Option ℕ
cancel_ms none = none
cancel_ms (some s) = some s.cancel_ms

unfoldable pub budget_of : Phase → Option Start → Option Frame → Option ℕ
budget_of startup begun stopped = startup_ms begun
budget_of stopping begun none = cancel_ms begun
budget_of stopping begun (some f) = stop_budget (some f)
budget_of _ begun stopped = cancel_ms begun

unfoldable pub elapsed_is : ℕ → Detail → Bool
elapsed_is ms (clock elapsed) = elapsed == ms
elapsed_is ms _ = false

-- The clock stands at the last moment of the budget, and then at its end.
unfoldable pub two_clocks : Option ℕ → List Scene → Bool
two_clocks (some budget) (a ∷ b ∷ []) =
    not (budget == 0)
    && (elapsed_is (budget - 1) a.detail
        && (elapsed_is budget b.detail
            && (expects "no_child_exit" a
                && (expects "force_nonzero_exit" b && expects "no_stopped" b))))
two_clocks _ _ = false

abbrev second {ℓ} : {A : Type ℓ} → List A → Option A
second (x ∷ y ∷ xs) = some y
second _ = none

unfoldable pub reason_is : String → Option Frame → Bool
reason_is reason none = false
reason_is reason (some f) = of_body f.body
  where
    of_body : Body → Bool
    of_body (cancel i w r) = r == reason
    of_body _ = false

abbrev less : Option ℕ → Option ℕ → Bool
less = before

-- The stop of an active invocation keeps the earlier deadline of its cancellation.
unfoldable pub keeps_deadline : Phase → Option ℕ → List Scene → Bool
keeps_deadline active_stop budget steps =
    let canceled = last_that (message_at "cancel" java) steps in
    let stopped = last_that (message_at "stop" java) steps in
    reason_is "stop" (frame_at canceled)
    && (holds_at (expects "arm_cleanup_watchdog") canceled
        && (holds_at (expects "retain_earlier_cleanup_deadline") stopped
            && less budget (stop_budget (frame_at stopped))))
keeps_deadline _ budget steps = true

unfoldable pub is_cleanup : Scene → Bool
is_cleanup s =
    is_event "completion" s
    || (is_event "application_cleanup_complete" s || is_event "stop_half_deadline" s)

unfoldable pub is_trigger : Phase → Scene → Bool
is_trigger phase s = message_at (trigger_type phase) java s && expects (trigger_effect phase) s

unfoldable pub watchdog : Phase → Covered → List Scene → Bool
watchdog phase c steps =
    let ticks = indices (event_at (clock_of phase) java) steps in
    let budget =
      budget_of phase (start_of (frame_at (first_that (is_message "start") steps)))
        (frame_at (last_that (message_at "stop" java) steps)) in
    elem java c.case.targets
    && (two_clocks budget (keep (event_at (clock_of phase) java) steps)
        && (before (last (indices (is_trigger phase) steps)) (first ticks)
            && (before (first ticks) (second ticks)
                && (before (second ticks) (last (indices (event_at "child_exit" go) steps))
                    && (any (event_at "hold_cleanup" java) steps
                        && (not (any is_cleanup c.own)
                            && (holds_at
                                  (λ s.
                                    event_at "child_exit" go s
                                    && (exit_nonzero s.detail && expects "reset_rejected" s))
                                  (last steps)
                                && keeps_deadline phase budget steps)))))))

-- The invocation and the worker that a body names.
unfoldable pub names : String → String → Body → Bool
names invocation worker (invoke i w _) = i == invocation && w == worker
names invocation worker (accepted i w) = i == invocation && w == worker
names invocation worker (arrive b) = b.invocation == invocation && b.worker == worker
names invocation worker (release b) = b.invocation == invocation && b.worker == worker
names invocation worker (terminal t) = t.invocation == invocation && t.worker == worker
names invocation worker (cancel i w _) = i == invocation && w == worker
names invocation worker _ = false

abbrev gate_of : Detail → Option Identity
gate_of (gate i) = some i
gate_of _ = none

unfoldable pub gate_at : Option Scene → Option Identity
gate_at none = none
gate_at (some s) = gate_of s.detail

unfoldable pub gate_is : Identity → Scene → Bool
gate_is i s = same (gate_of s.detail)
  where
    same : Option Identity → Bool
    same none = false
    same (some j) = j == i

unfoldable pub returns_nil : Identity → Scene → Bool
returns_nil i s = returned s.step.action
  where
    returned : Action → Bool
    returned (local (runtime_arrive_returns j r)) = j == i && r == "nil"
    returned _ = false

unfoldable pub cancels : Identity → Scene → Bool
cancels i s = canceled s.step.action
  where
    canceled : Action → Bool
    canceled (local (cancel_context invocation)) = invocation == i.invocation
    canceled _ = false

unfoldable pub is_ready : Scene → Bool
is_ready s = is_event "runtime_arrive_returns" s && expects "enqueue_held" s

unfoldable pub is_output : Scene → Bool
is_output s = is_exchange s && s.step.peer == java

-- `[s['frame']['type'] for s in outputs]`.
unfoldable pub types_of : List Scene → List String
types_of [] = []
types_of (s ∷ rest) = typed (frame_of s) (types_of rest)
  where
    typed : Option Frame → List String → List String
    typed none more = more
    typed (some f) more = type_of f.body ∷ more

abbrev earlier : Option ℕ → Option ℕ → Option ℕ
earlier (some i) (some j) = some (min i j)
earlier _ _ = none

unfoldable pub releases : Identity → Option Frame → Bool
releases i none = false
releases i (some f) = of_body f.body
  where
    of_body : Body → Bool
    of_body (release j) = j == i
    of_body _ = false

-- What both rules of the race ask for the gate `identity` that is held.
unfoldable pub raced : List String → Covered → List Scene → Identity → Bool
raced types c steps identity =
    let canceled = first (indices (is_event "cancel_context") steps) in
    let resumed = first (indices (is_event "resume_release_enqueue") steps) in
    let ready = first (indices is_ready steps) in
    let outputs = keep is_output c.own in
    before (first (indices (is_event "hold_release_enqueue") steps)) ready
    && (before ready (earlier canceled resumed)
        && (holds_at (expects "cancel_latched_atomically")
              (first_that (is_event "cancel_context") steps)
            && (holds_at (returns_nil identity) (first_that is_ready steps)
                && (holds_at (gate_is identity)
                      (first_that (is_event "resume_release_enqueue") steps)
                    && (holds_at (cancels identity) (first_that (is_event "cancel_context") steps)
                        && (types_of outputs == types
                            && all
                                (λ s.
                                  frame_is (λ f. names identity.invocation identity.worker f.body)
                                    (frame_of s))
                                outputs))))))

unfoldable pub cancel_wins : Covered → List Scene → Identity → Bool
cancel_wins c steps identity =
    raced ("cancel" ∷ []) c steps identity
    && (before (first (indices (is_event "cancel_context") steps))
          (first (indices (is_event "resume_release_enqueue") steps))
        && (holds_at (expects "no_release") (first_that (is_event "resume_release_enqueue") steps)
            && not (any (is_message "release") c.own)))

unfoldable pub enqueue_wins : Covered → List Scene → Identity → Bool
enqueue_wins c steps identity =
    raced ("release" ∷ "cancel" ∷ []) c steps identity
    && (before (first (indices (is_event "resume_release_enqueue") steps))
          (first (indices (is_event "cancel_context") steps))
        && (holds_at (expects "release_enqueued_atomically")
              (first_that (is_event "resume_release_enqueue") steps)
            && releases identity (frame_at (first (keep is_output c.own)))))

unfoldable pub held :
    (Covered → List Scene → Identity → Bool) → Covered → List Scene → Option Identity → Bool
held rule c steps none = false
held rule c steps (some identity) = rule c steps identity

-- The gate that is held, under a rule of the race.
unfoldable pub race : (Covered → List Scene → Identity → Bool) → Covered → List Scene → Bool
race rule c steps =
    only_go c && held rule c steps (gate_at (first_that (is_event "hold_release_enqueue") steps))
