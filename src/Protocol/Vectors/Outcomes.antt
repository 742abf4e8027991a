-- ===== src/Protocol/Vectors/Outcomes.antt =====
-- The first cases of single rules of docs/reference/testdata/external-sut-v1.json.
use weavegate.Prelude.{false, true, none, some, [], ◌∷◌}
use weavegate.Protocol.Message.{
  go, java, start, ready, invoke, accepted, arrive, release, terminal, cancel, stop, stopped, fatal,
}
use weavegate.Protocol.State.{
  stop_call, invoke_call, worker_arrives, command_exception, cancel_context, runtime_arrive_returns,
  completion, other,
}
use weavegate.Protocol.Coverage.Scene.{
  no_detail, context, results, exit, exited, call as call_named,
}
use weavegate.Protocol.Coverage.Wire.{Covered}
use weavegate.Protocol.Vectors.Parts.{
  session_id, call, gate, begin, failure, ended, raised, facts, frame, happens, sends, injects,
  covered,
}

abbrev pub incremented_arrival_case : Covered
incremented_arrival_case = covered "incremented_arrival" (go ∷ java ∷ []) "released" (
    happens java (worker_arrives (gate call "w1" 2 "before_write")) no_detail
      ("install_gate" ∷ "send_arrive" ∷ [])
    ∷ sends go (frame 4 (arrive (gate call "w1" 2 "before_write")) "arrive 7")
        ("client_arrive_once" ∷ "no_release_before_runtime_return" ∷ [])
    ∷ happens go (runtime_arrive_returns (gate call "w1" 2 "before_write") "nil") no_detail
        ("send_release" ∷ [])
    ∷ sends java (frame 4 (release (gate call "w1" 2 "before_write")) "release 8")
        ("wake_exact_gate" ∷ [])
    ∷ happens java (completion none (facts true "committed" "returned")) no_detail
        ("send_terminal" ∷ [])
    ∷ sends go (frame 5 (terminal (ended call "w1" "committed" "returned" none)) "terminal 9")
        ("worker_result_nil" ∷ "close_result_channel" ∷ "retire_invocation" ∷ [])
    ∷ [])

abbrev pub stop_active_invocation_case : Covered
stop_active_invocation_case = covered "stop_active_invocation" (go ∷ java ∷ []) "arrived" (
    happens go (stop_call (some 5000)) (call_named "active-stop") (
      "set_single_deadline" ∷ "close_admission" ∷ "cancel_bridge" ∷ "send_cancel" ∷ "send_stop"
      ∷ "call_pending" ∷ [])
    ∷ sends java (frame 3 (cancel call "w1" "stop") "cancel 10") (
        "cancel_latched" ∷ "wake_gate_exceptionally" ∷ "arm_cleanup_watchdog"
        ∷ "request_jdbc_cancel" ∷ "no_terminal" ∷ [])
    ∷ sends java (frame 4 (stop 2500) "stop 11") (
        "close_admission" ∷ "retain_earlier_cleanup_deadline" ∷ "await_active_cleanup"
        ∷ "no_stopped" ∷ [])
    ∷ happens go (runtime_arrive_returns (gate call "w1" 1 "after_read") "cancelled") no_detail
        ("no_release" ∷ [])
    ∷ happens java (completion none (facts false "rolled_back" "held")) no_detail
        ("no_terminal" ∷ "no_stopped" ∷ [])
    ∷ happens java (completion none (facts true "rolled_back" "held")) no_detail
        ("no_terminal" ∷ "no_stopped" ∷ [])
    ∷ happens java (completion none (facts true "rolled_back" "returned")) no_detail
        ("send_terminal" ∷ "retire_invocation" ∷ "no_stopped" ∷ [])
    ∷ sends go
        (frame 4
          (terminal (
            ended call "w1" "rolled_back" "returned"
              (some (failure "cancelled" "cancelled by stop" 0 ""))))
          "terminal 12")
        ("worker_result_cancelled" ∷ "close_result_channel" ∷ "retire_invocation"
          ∷ "stop_still_pending" ∷ [])
    ∷ happens java (other "application_cleanup_complete") no_detail ("send_stopped" ∷ [])
    ∷ sends go (frame 5 stopped "stopped 13") ("await_eof_and_exit" ∷ "stop_still_pending" ∷ [])
    ∷ happens go (other "child_exit") (exit (exited 0)) ("stop_ok" ∷ "reset_allowed" ∷ [])
    ∷ happens go (other "check_stop_results") (results "" ("active-stop" ∷ []))
        ("all_calls_return_success" ∷ [])
    ∷ [])

abbrev pub rollback_case : Covered
rollback_case = covered "rollback" (go ∷ java ∷ []) "released" (
    happens java (command_exception call (raised "synthetic rollback failure" 0 "")) no_detail
      ("record_source_exception" ∷ "no_terminal" ∷ [])
    ∷ happens java (completion none (facts true "rolled_back" "returned")) no_detail
        ("send_terminal" ∷ [])
    ∷ sends go
        (frame 4
          (terminal (
            ended call "w1" "rolled_back" "returned"
              (some (failure "application" "synthetic rollback failure" 0 ""))))
          "terminal 14")
        ("worker_result_error" ∷ "close_result_channel" ∷ "retire_invocation" ∷ [])
    ∷ [])

abbrev pub cancel_at_arrival_case : Covered
cancel_at_arrival_case = covered "cancel_at_arrival" (go ∷ java ∷ []) "arrived" (
    happens go (cancel_context call) no_detail ("cancel_bridge" ∷ "send_cancel" ∷ [])
    ∷ sends java (frame 3 (cancel call "w1" "context") "cancel 15") (
        "cancel_latched" ∷ "wake_gate_exceptionally" ∷ "arm_cleanup_watchdog"
        ∷ "request_jdbc_cancel" ∷ [])
    ∷ happens go (runtime_arrive_returns (gate call "w1" 1 "after_read") "cancelled") no_detail
        ("no_release" ∷ [])
    ∷ happens java (completion none (facts true "rolled_back" "returned")) no_detail
        ("send_terminal" ∷ "retire_invocation" ∷ [])
    ∷ sends go
        (frame 4
          (terminal (
            ended call "w1" "rolled_back" "returned"
              (some (failure "cancelled" "cancelled by context" 0 ""))))
          "terminal 16")
        ("worker_result_cancelled" ∷ "close_result_channel" ∷ "retire_invocation"
          ∷ "supplied_invocation_context_cancelled" ∷ [])
    ∷ happens go (invoke_call "44444444444444444444444444444444" "w1" "assign") (context "fresh")
        ("reserve_invocation" ∷ "send_invoke" ∷ "result_channel_created" ∷ [])
    ∷ sends java (frame 4 (invoke "44444444444444444444444444444444" "w1" "assign") "invoke 17")
        ("reserve_invocation" ∷ "dispatch_once" ∷ [])
    ∷ sends go (frame 5 (accepted "44444444444444444444444444444444" "w1") "accepted 18")
        ("mark_accepted" ∷ [])
    ∷ happens java
        (completion (some "44444444444444444444444444444444") (facts true "committed" "returned"))
        no_detail ("send_terminal" ∷ "retire_invocation" ∷ [])
    ∷ sends go
        (frame 6
          (terminal (ended "44444444444444444444444444444444" "w1" "committed" "returned" none))
          "terminal 19")
        ("worker_result_nil" ∷ "close_result_channel" ∷ "retire_invocation" ∷ [])
    ∷ [])

abbrev pub process_death_case : Covered
process_death_case = covered "process_death" (go ∷ []) "arrived" (
    happens go (other "child_exit") (exit (exited 137)) (
      "latch_transport_fault" ∷ "cancel_bridge" ∷ "no_worker_result" ∷ "abort_run"
      ∷ "quarantine_fixture" ∷ [])
    ∷ happens go (runtime_arrive_returns (gate call "w1" 1 "after_read") "cancelled") no_detail
        ("no_release" ∷ "no_bridge_tasks" ∷ [])
    ∷ happens go (stop_call (some 5000)) (call_named "death-stop") (
        "set_single_deadline" ∷ "close_pipes" ∷ "child_reaped" ∷ "retain_transport_fault"
        ∷ "no_stopped_required" ∷ [])
    ∷ happens go (other "check_stop_results") (results "transport_failure" ("death-stop" ∷ [])) (
        "all_calls_return_same_failure" ∷ "no_worker_result" ∷ "no_bridge_tasks" ∷ "reset_rejected"
        ∷ [])
    ∷ [])

abbrev pub death_after_terminals_case : Covered
death_after_terminals_case = covered "death_after_terminals" (go ∷ []) "completed" (
    happens go (other "begin_evaluation") no_detail
      ("evaluation_started" ∷ "fault_supervision_active" ∷ [])
    ∷ happens go (other "provisional_evaluation") no_detail
        ("hold_evaluation_return" ∷ "no_run_success" ∷ [])
    ∷ happens go (other "child_exit") (exit (exited 0)) (
        "latch_transport_fault" ∷ "invalidate_evaluation" ∷ "abort_run" ∷ "quarantine_fixture" ∷ [])
    ∷ happens go (other "complete_evaluation") no_detail
        ("discard_provisional_evaluation" ∷ "retain_transport_fault" ∷ "no_run_success" ∷ [])
    ∷ happens go (other "check_operation_result") (results "transport_failure" [])
        ("operation_error" ∷ "no_run_success" ∷ [])
    ∷ [])

abbrev pub duplicate_frame_case : Covered
duplicate_frame_case = covered "duplicate_frame" (go ∷ []) "arrived" (
    injects go (frame 3 (arrive (gate call "w1" 1 "after_read")) "arrive 4")
      ("ignore_duplicate" ∷ "no_client_arrive" ∷ "no_reply" ∷ [])
    ∷ [])

abbrev pub version_mismatch_case : Covered
version_mismatch_case = covered "version_mismatch" (java ∷ []) "new" (
    injects java
      (record (frame 1 (start (begin 2 10000 1000)) "start 20") { v = 2; session = session_id })
      ("fatal_version" ∷ "no_command_start" ∷ [])
    ∷ sends go (frame 1 (fatal "version" "unsupported wire version 2") "fatal 21")
        ("script_records_fatal" ∷ [])
    ∷ happens go (other "child_exit") (exit (exited 1))
        ("script_observes_nonzero_exit" ∷ "no_ready" ∷ "no_terminal" ∷ "no_stopped" ∷ [])
    ∷ [])

abbrev pub readiness_mismatch_case : Covered
readiness_mismatch_case = covered "readiness_mismatch" (go ∷ []) "new" (
    sends java (frame 1 (start (begin 2 10000 1000)) "start 0")
      ("initialize_application" ∷ "validate_registration" ∷ "probe_database" ∷ [])
    ∷ happens java (other "readiness_complete") no_detail ("send_ready" ∷ [])
    ∷ injects go
        (frame 1
          (ready (record {
            commands = "other" ∷ [];
            points = "after_read" ∷ "before_write" ∷ [];
            capacity = 2;
          }))
          "ready 22")
        ("startup_error" ∷ "no_invoke" ∷ "latch_startup_fault" ∷ "send_fatal" ∷ [])
    ∷ sends java (frame 2 (fatal "startup" "ready registration mismatch") "fatal 23")
        ("close_admission" ∷ "begin_bounded_cleanup" ∷ "no_stopped" ∷ [])
    ∷ happens go (stop_call (some 5000)) (call_named "mismatch-stop") (
        "set_single_deadline" ∷ "best_effort_stop" ∷ "retain_startup_fault" ∷ "no_stopped_required"
        ∷ [])
    ∷ happens go (other "stop_half_deadline") no_detail ("kill_child" ∷ "await_reaping" ∷ [])
    ∷ happens go (other "child_exit") (exit (exited 137)) (
        "child_reaped" ∷ "stop_error" ∷ "quarantine_fixture" ∷ "reset_rejected"
        ∷ "startup_error_preserved" ∷ [])
    ∷ [])

abbrev pub startup_deadline_case : Covered
startup_deadline_case = covered "startup_deadline" (go ∷ []) "new" (
    sends java (frame 1 (start (begin 2 10000 1000)) "start 0")
      ("initialize_application" ∷ "validate_registration" ∷ "probe_database" ∷ [])
    ∷ happens go (other "startup_deadline") no_detail
        ("latch_startup_error" ∷ "begin_detached_cleanup" ∷ "close_pipes" ∷ "no_invoke" ∷ [])
    ∷ happens go (other "stop_half_deadline") no_detail
        ("kill_child" ∷ "await_reaping" ∷ "no_start_return" ∷ [])
    ∷ happens go (other "child_exit") (exit (exited 137))
        ("child_reaped" ∷ "startup_error" ∷ "quarantine_fixture" ∷ "reset_rejected" ∷ [])
    ∷ [])

abbrev pub mysql_deadlock_case : Covered
mysql_deadlock_case = covered "mysql_deadlock" (go ∷ java ∷ []) "released" (
    happens java (command_exception call (raised "synthetic deadlock" 1213 "40001")) no_detail
      ("record_source_exception" ∷ "no_terminal" ∷ [])
    ∷ happens java (completion none (facts true "rolled_back" "returned")) no_detail
        ("send_terminal" ∷ [])
    ∷ sends go
        (frame 4
          (terminal (
            ended call "w1" "rolled_back" "returned"
              (some (failure "mysql" "synthetic deadlock" 1213 "40001"))))
          "terminal 24")
        ("worker_result_error" ∷ "failure_class_mysql_deadlock" ∷ "close_result_channel" ∷ [])
    ∷ [])
