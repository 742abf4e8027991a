-- ===== src/Protocol/Coverage/Rules.antt =====
-- The other coverage rules, and `coverage` itself.
use weavegate.Prelude.{
  String, Bool, true, false, not, ◌&&◌, Option, none, some, List, [], ◌∷◌, ◌==◌, string_eq, nat_eq,
  list_eq, if◌then◌else◌,
}
use weavegate.Protocol.Message.{go, java, peer_eq, WireError}
use weavegate.Protocol.Coverage.Scene.{
  Detail, context, Scene, is_event, event_at, message_at, is_exchange, is_injected, expects,
  expects_all, frame_of, indices, first, last, before, holds_at, first_that, last_that,
}
use weavegate.Protocol.Coverage.Wire.{
  Covered, only_go, only_java, both_targets, go_wire_matrix, java_wire_matrix, retired_rule,
  duplicate, readiness_rejection, exception_input, callback_terminal, incremented_arrival,
  terminal_of, error_of, transaction_unknown, fatal_of_kind, exit_nonzero, frame_is,
}
use weavegate.Protocol.Coverage.Order.{
  returns_with, process_death_cleanup, late_fault, startup, stopping, canceling, fatality,
  active_stop, watchdog, cancel_wins, enqueue_wins, race,
}

abbrev error_is : String → Option WireError → Bool
error_is kind none = false
error_is kind (some e) = e.kind == kind

abbrev context_is : String → Detail → Bool
context_is name (context c) = c == name
context_is name _ = false

is_retirement : Scene → Bool
is_retirement s =
    message_at "terminal" go s
    && (error_is "cancelled" (error_of (terminal_of s)) && expects "retire_invocation" s)

unfoldable pub canceled_reuse : Covered → Bool
unfolding is_retirement
canceled_reuse c =
    before (first (indices is_retirement c.own)) (last (indices (event_at "invoke_call" go) c.own))
    && holds_at (λ s. context_is "fresh" s.detail) (last_that (event_at "invoke_call" go) c.own)

unfoldable pub normal_active_stop : Covered → Bool
normal_active_stop c =
    let ended = first (indices (message_at "terminal" go) c.own) in
    c.prefix == "arrived"
    && (before
          (first (
            indices (λ s. is_event "runtime_arrive_returns" s && returns_with "cancelled" s) c.own))
          ended
        && (before ended (first (indices (message_at "stopped" go) c.own))
            && holds_at (expects "stop_still_pending")
                (first_that (message_at "stopped" go) c.own)))

unfoldable pub parent_startup_cleanup : Covered → Bool
parent_startup_cleanup c =
    let cutoff = first (indices (event_at "stop_half_deadline" go) c.own) in
    only_go c
    && (before (first (indices (event_at "startup_deadline" go) c.own)) cutoff
        && (before cutoff (first (indices (event_at "child_exit" go) c.own))
            && (holds_at (expects "kill_child")
                  (first_that (event_at "stop_half_deadline" go) c.own)
                && holds_at (expects_all ("child_reaped" ∷ "startup_error" ∷ "reset_rejected" ∷ []))
                    (first_that (event_at "child_exit" go) c.own))))

is_transaction_fault : Scene → Bool
is_transaction_fault s = message_at "fatal" go s && (is_exchange s && fatal_of_kind "transaction" s)

unfoldable pub unknown_outcome_fatal : Covered → Bool
unfolding is_transaction_fault
unknown_outcome_fatal c =
    both_targets c
    && (before (first (indices (λ s. event_at "completion" java s && transaction_unknown s) c.own))
          (first (indices is_transaction_fault c.own))
        && holds_at
            (expects_all (
              "latch_adapter_fault" ∷ "no_worker_result" ∷ "abort_run" ∷ "quarantine_fixture" ∷ []))
            (first_that is_transaction_fault c.own))

is_bad_version : Scene → Bool
is_bad_version s =
    message_at "start" java s
    && (is_injected s && (frame_is (λ f. not (f.v == 1)) (frame_of s) && expects "fatal_version" s))

is_version_fault : Scene → Bool
is_version_fault s =
    message_at "fatal" go s
    && (is_exchange s && (fatal_of_kind "version" s && frame_is (λ f. f.seq == 1) (frame_of s)))

is_failed_exit : Scene → Bool
is_failed_exit s = event_at "child_exit" go s && exit_nonzero s.detail

unfoldable pub version_rejection : Covered → Bool
unfolding is_bad_version is_version_fault is_failed_exit
version_rejection c =
    let fault = first (indices is_version_fault c.own) in
    only_java c
    && (before (first (indices is_bad_version c.own)) fault
        && (before fault (first (indices is_failed_exit c.own))
            && holds_at (expects_all ("no_ready" ∷ "no_terminal" ∷ "no_stopped" ∷ []))
                (first_that is_failed_exit c.own)))

-- `REQUIRED`.
unfoldable pub required : List String
required =
    "duplicate_go" ∷ "duplicate_java" ∷ "late_process_fault" ∷ "late_wire_fault"
    ∷ "startup_watchdog" ∷ "stop_watchdog" ∷ "cancel_watchdog" ∷ "fatal_watchdog"
    ∷ "active_stop_watchdog" ∷ "cancel_wins_enqueue" ∷ "enqueue_wins_cancel" ∷ "readiness_rejection"
    ∷ "canceled_reuse" ∷ "normal_active_stop" ∷ "exception_input" ∷ "parent_startup_cleanup"
    ∷ "callback_terminal" ∷ "unknown_outcome_fatal" ∷ "version_rejection" ∷ "incremented_arrival"
    ∷ "retired_terminal_identical" ∷ "retired_terminal_conflict" ∷ "process_death_cleanup"
    ∷ "java_wire_matrix" ∷ "go_wire_matrix" ∷ []

-- The rules of `required`, which are the only ones that `validate` passes.
unfoldable pub coverage : String → Covered → List Scene → Bool
coverage rule c steps =
    if rule == "go_wire_matrix"
    then go_wire_matrix c
    else if rule == "java_wire_matrix"
    then java_wire_matrix c
    else if rule == "retired_terminal_identical"
    then retired_rule true c steps
    else if rule == "retired_terminal_conflict"
    then retired_rule false c steps
    else if rule == "process_death_cleanup"
    then process_death_cleanup c
    else if rule == "duplicate_go"
    then duplicate go c
    else if rule == "duplicate_java"
    then duplicate java c
    else if rule == "late_wire_fault"
    then late_fault true c steps
    else if rule == "late_process_fault"
    then late_fault false c steps
    else if rule == "startup_watchdog"
    then watchdog startup c steps
    else if rule == "stop_watchdog"
    then watchdog stopping c steps
    else if rule == "cancel_watchdog"
    then watchdog canceling c steps
    else if rule == "fatal_watchdog"
    then watchdog fatality c steps
    else if rule == "active_stop_watchdog"
    then watchdog active_stop c steps
    else if rule == "cancel_wins_enqueue"
    then race cancel_wins c steps
    else if rule == "enqueue_wins_cancel"
    then race enqueue_wins c steps
    else if rule == "readiness_rejection"
    then readiness_rejection c
    else if rule == "canceled_reuse"
    then canceled_reuse c
    else if rule == "normal_active_stop"
    then normal_active_stop c
    else if rule == "exception_input"
    then exception_input c
    else if rule == "parent_startup_cleanup"
    then parent_startup_cleanup c
    else if rule == "callback_terminal"
    then callback_terminal c
    else if rule == "unknown_outcome_fatal"
    then unknown_outcome_fatal c
    else if rule == "version_rejection"
    then version_rejection c
    else if rule == "incremented_arrival"
    then incremented_arrival c
    else false
