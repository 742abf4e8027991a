-- ===== src/Protocol/Vectors/Others.antt =====
-- The other cases of single rules of docs/reference/testdata/external-sut-v1.json.
use weavegate.Prelude.{false, true, none, some, [], ◌∷◌}
use weavegate.Protocol.Message.{go, java, invoke, accepted, release, terminal, cancel, fatal}
use weavegate.Protocol.State.{
  stop_call, invoke_call, command_exception, cancel_context, runtime_arrive_returns, completion,
  other,
}
use weavegate.Protocol.Coverage.Scene.{
  no_detail, context, results, exit, exited, clock, gate as held,
}
use weavegate.Protocol.Coverage.Wire.{Covered}
use weavegate.Protocol.Vectors.Parts.{
  call, gate, failure, ended, raised, facts, frame, happens, sends, injects, covered,
}

abbrev pub mysql_lock_timeout_case : Covered
mysql_lock_timeout_case = covered "mysql_lock_timeout" (go ∷ java ∷ []) "released" (
    happens java (command_exception call (raised "synthetic lock timeout" 1205 "HY000")) no_detail
      ("record_source_exception" ∷ "no_terminal" ∷ [])
    ∷ happens java (completion none (facts true "rolled_back" "returned")) no_detail
        ("send_terminal" ∷ [])
    ∷ sends go
        (frame 4
          (terminal (
            ended call "w1" "rolled_back" "returned"
              (some (failure "mysql" "synthetic lock timeout" 1205 "HY000"))))
          "terminal 25")
        ("worker_result_error" ∷ "failure_class_error" ∷ "close_result_channel" ∷ [])
    ∷ [])

abbrev pub post_commit_exception_case : Covered
post_commit_exception_case = covered "post_commit_exception" (go ∷ java ∷ []) "released" (
    happens java (command_exception call (raised "synthetic after-commit failure" 0 "")) no_detail
      ("record_source_exception" ∷ "no_terminal" ∷ [])
    ∷ happens java (completion none (facts true "committed" "returned")) no_detail
        ("send_terminal" ∷ [])
    ∷ sends go
        (frame 4
          (terminal (
            ended call "w1" "committed" "returned"
              (some (failure "application" "synthetic after-commit failure" 0 ""))))
          "terminal 26")
        ("worker_result_error" ∷ "failure_class_error" ∷ "close_result_channel" ∷ [])
    ∷ [])

abbrev pub completion_callback_too_early_case : Covered
completion_callback_too_early_case =
    covered "completion_callback_too_early" (go ∷ java ∷ []) "released" (
      happens java (completion none (facts false "committed" "held")) no_detail ("no_terminal" ∷ [])
      ∷ happens java (completion none (facts true "committed" "held")) no_detail
          ("no_terminal" ∷ [])
      ∷ happens java (completion none (facts true "committed" "returned")) no_detail
          ("send_terminal" ∷ [])
      ∷ sends go (frame 4 (terminal (ended call "w1" "committed" "returned" none)) "terminal 6")
          ("worker_result_nil" ∷ "close_result_channel" ∷ "retire_invocation" ∷ [])
      ∷ [])

abbrev pub unknown_commit_outcome_case : Covered
unknown_commit_outcome_case = covered "unknown_commit_outcome" (go ∷ java ∷ []) "released" (
    happens java (completion none (facts true "unknown" "returned")) no_detail
      ("fatal_transaction" ∷ "no_terminal" ∷ [])
    ∷ sends go (frame 4 (fatal "transaction" "transaction outcome unknown") "fatal 27")
        ("latch_adapter_fault" ∷ "no_worker_result" ∷ "abort_run" ∷ "quarantine_fixture" ∷ [])
    ∷ [])

abbrev pub cancel_cleanup_deadline_case : Covered
cancel_cleanup_deadline_case = covered "cancel_cleanup_deadline" (go ∷ java ∷ []) "arrived" (
    happens java (other "hold_cleanup") no_detail ("rollback_barrier_armed" ∷ [])
    ∷ happens go (cancel_context call) no_detail ("cancel_bridge" ∷ "send_cancel" ∷ [])
    ∷ sends java (frame 3 (cancel call "w1" "context") "cancel 15") (
        "cancel_latched" ∷ "wake_gate_exceptionally" ∷ "arm_cleanup_watchdog"
        ∷ "request_jdbc_cancel" ∷ [])
    ∷ happens go (runtime_arrive_returns (gate call "w1" 1 "after_read") "cancelled") no_detail
        ("no_release" ∷ [])
    ∷ happens java (other "advance_cancel_cleanup_clock") (clock 999)
        ("cleanup_still_blocked" ∷ "no_child_exit" ∷ "no_terminal" ∷ "no_stopped" ∷ [])
    ∷ happens java (other "advance_cancel_cleanup_clock") (clock 1000) (
        "fatal_cleanup" ∷ "force_nonzero_exit" ∷ "no_terminal" ∷ "no_stopped" ∷ "no_cleanup_success"
        ∷ [])
    ∷ sends go (frame 4 (fatal "cleanup" "cancellation cleanup deadline exceeded") "fatal 28")
        ("latch_adapter_fault" ∷ "no_worker_result" ∷ "abort_run" ∷ "quarantine_fixture" ∷ [])
    ∷ happens go (stop_call (some 5000)) no_detail (
        "set_single_deadline" ∷ "await_reaping" ∷ "retain_adapter_fault" ∷ "no_stopped_required"
        ∷ [])
    ∷ happens go (other "child_exit") (exit (exited 1)) (
        "child_reaped" ∷ "stop_error" ∷ "quarantine_fixture" ∷ "reset_rejected" ∷ "no_worker_result"
        ∷ [])
    ∷ [])

abbrev pub fatal_after_terminals_case : Covered
fatal_after_terminals_case = covered "fatal_after_terminals" (go ∷ []) "completed" (
    happens go (other "begin_evaluation") no_detail
      ("evaluation_started" ∷ "fault_supervision_active" ∷ [])
    ∷ happens go (other "provisional_evaluation") no_detail
        ("hold_evaluation_return" ∷ "no_run_success" ∷ [])
    ∷ injects go (frame 5 (fatal "cleanup" "application cleanup failed") "fatal 32")
        ("latch_adapter_fault" ∷ "invalidate_evaluation" ∷ "abort_run" ∷ "quarantine_fixture" ∷ [])
    ∷ happens go (other "complete_evaluation") no_detail
        ("discard_provisional_evaluation" ∷ "retain_adapter_fault" ∷ "no_run_success" ∷ [])
    ∷ happens go (other "check_operation_result") (results "adapter_failure" [])
        ("operation_error" ∷ "no_run_success" ∷ [])
    ∷ [])

abbrev pub duplicate_invoke_java_case : Covered
duplicate_invoke_java_case = covered "duplicate_invoke_java" (java ∷ []) "active" (
    injects java (frame 2 (invoke call "w1" "assign") "invoke 2")
      ("ignore_duplicate" ∷ "no_redispatch" ∷ "no_reply" ∷ [])
    ∷ [])

abbrev pub cancel_wins_release_enqueue_case : Covered
cancel_wins_release_enqueue_case = covered "cancel_wins_release_enqueue" (go ∷ []) "arrived" (
    happens go (other "hold_release_enqueue") (held (gate call "w1" 1 "after_read"))
      ("release_barrier_armed" ∷ [])
    ∷ happens go (runtime_arrive_returns (gate call "w1" 1 "after_read") "nil") no_detail
        ("release_candidate_ready" ∷ "enqueue_held" ∷ "no_release" ∷ [])
    ∷ happens go (cancel_context call) no_detail
        ("cancel_latched_atomically" ∷ "cancel_bridge" ∷ "send_cancel" ∷ [])
    ∷ happens go (other "resume_release_enqueue") (held (gate call "w1" 1 "after_read"))
        ("no_release" ∷ [])
    ∷ sends java (frame 3 (cancel call "w1" "context") "cancel 15") (
        "cancel_latched" ∷ "arm_cleanup_watchdog" ∷ "wake_gate_exceptionally"
        ∷ "request_jdbc_cancel" ∷ [])
    ∷ [])

abbrev pub release_enqueue_wins_cancel_case : Covered
release_enqueue_wins_cancel_case = covered "release_enqueue_wins_cancel" (go ∷ []) "arrived" (
    happens go (other "hold_release_enqueue") (held (gate call "w1" 1 "after_read"))
      ("release_barrier_armed" ∷ [])
    ∷ happens go (runtime_arrive_returns (gate call "w1" 1 "after_read") "nil") no_detail
        ("release_candidate_ready" ∷ "enqueue_held" ∷ "no_release" ∷ [])
    ∷ happens go (other "resume_release_enqueue") (held (gate call "w1" 1 "after_read"))
        ("release_enqueued_atomically" ∷ "send_release" ∷ [])
    ∷ happens go (cancel_context call) no_detail
        ("cancel_latched_atomically" ∷ "cancel_bridge" ∷ "send_cancel" ∷ [])
    ∷ sends java (frame 3 (release (gate call "w1" 1 "after_read")) "release 5")
        ("wake_exact_gate" ∷ [])
    ∷ sends java (frame 4 (cancel call "w1" "context") "cancel 33")
        ("cancel_latched" ∷ "arm_cleanup_watchdog" ∷ "request_jdbc_cancel" ∷ [])
    ∷ [])

abbrev pub retired_terminal_identical_case : Covered
retired_terminal_identical_case = covered "retired_terminal_identical" (go ∷ []) "completed" (
    happens go (invoke_call "44444444444444444444444444444444" "w1" "assign") (context "fresh")
      ("reserve_invocation" ∷ "send_invoke" ∷ "result_channel_created" ∷ [])
    ∷ sends java (frame 4 (invoke "44444444444444444444444444444444" "w1" "assign") "invoke 17")
        ("reserve_invocation" ∷ "dispatch_once" ∷ [])
    ∷ sends go (frame 5 (accepted "44444444444444444444444444444444" "w1") "accepted 18")
        ("mark_accepted" ∷ [])
    ∷ injects go (frame 6 (terminal (ended call "w1" "committed" "returned" none)) "terminal 34") (
        "consume_retired_invocation" ∷ "no_worker_result" ∷ "no_new_worker_effect" ∷ "no_fatal"
        ∷ "no_reply" ∷ [])
    ∷ happens java
        (completion (some "44444444444444444444444444444444") (facts true "committed" "returned"))
        no_detail ("send_terminal" ∷ "retire_invocation" ∷ [])
    ∷ sends go
        (frame 7
          (terminal (ended "44444444444444444444444444444444" "w1" "committed" "returned" none))
          "terminal 35")
        ("worker_result_nil" ∷ "close_result_channel" ∷ "retire_invocation" ∷ [])
    ∷ [])

abbrev pub retired_terminal_conflict_case : Covered
retired_terminal_conflict_case = covered "retired_terminal_conflict" (go ∷ []) "completed" (
    happens go (invoke_call "44444444444444444444444444444444" "w1" "assign") (context "fresh")
      ("reserve_invocation" ∷ "send_invoke" ∷ "result_channel_created" ∷ [])
    ∷ sends java (frame 4 (invoke "44444444444444444444444444444444" "w1" "assign") "invoke 17")
        ("reserve_invocation" ∷ "dispatch_once" ∷ [])
    ∷ sends go (frame 5 (accepted "44444444444444444444444444444444" "w1") "accepted 18")
        ("mark_accepted" ∷ [])
    ∷ injects go
        (frame 6
          (terminal (
            ended call "w1" "committed" "returned"
              (some (failure "application" "conflicting retired outcome" 0 ""))))
          "terminal 36")
        ("fatal_protocol" ∷ "no_worker_result" ∷ "abort_run" ∷ [])
    ∷ sends java (frame 5 (fatal "protocol" "conflicting retired terminal") "fatal 37")
        ("script_records_fatal" ∷ [])
    ∷ [])
