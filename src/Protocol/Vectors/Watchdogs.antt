-- ===== src/Protocol/Vectors/Watchdogs.antt =====
-- The cases of the watchdogs of docs/reference/testdata/external-sut-v1.json.
use weavegate.Prelude.{some, [], ◌∷◌}
use weavegate.Protocol.Message.{go, java, start, cancel, stop, fatal}
use weavegate.Protocol.State.{stop_call, runtime_arrive_returns, other}
use weavegate.Protocol.Coverage.Scene.{no_detail, exit, exited, clock, call as call_named}
use weavegate.Protocol.Coverage.Wire.{Covered}
use weavegate.Protocol.Vectors.Parts.{call, gate, begin, frame, happens, sends, covered}

abbrev pub java_fatal_cleanup_watchdog_expires_case : Covered
java_fatal_cleanup_watchdog_expires_case =
    covered "java_fatal_cleanup_watchdog_expires" (go ∷ java ∷ []) "arrived" (
      happens java (other "hold_cleanup") no_detail ("rollback_barrier_armed" ∷ [])
      ∷ happens go (runtime_arrive_returns (gate call "w1" 1 "after_read") "protocol_error")
          no_detail ("no_release" ∷ "latch_adapter_fault" ∷ "send_fatal" ∷ "abort_run" ∷ [])
      ∷ sends java (frame 3 (fatal "protocol" "runtime arrival failed") "fatal 29") (
          "close_admission" ∷ "cancel_latched" ∷ "wake_gate_exceptionally" ∷ "arm_cleanup_watchdog"
          ∷ "request_jdbc_cancel" ∷ "begin_bounded_cleanup" ∷ "no_terminal" ∷ "no_stopped" ∷ [])
      ∷ happens go (stop_call (some 5000)) (call_named "fatal-stop") (
          "set_single_deadline" ∷ "best_effort_stop" ∷ "retain_adapter_fault"
          ∷ "no_stopped_required" ∷ [])
      ∷ happens java (other "advance_fatal_cleanup_clock") (clock 999)
          ("cleanup_still_blocked" ∷ "no_child_exit" ∷ "no_terminal" ∷ "no_stopped" ∷ [])
      ∷ happens java (other "advance_fatal_cleanup_clock") (clock 1000)
          ("force_nonzero_exit" ∷ "no_terminal" ∷ "no_stopped" ∷ "no_cleanup_success" ∷ [])
      ∷ happens go (other "child_exit") (exit (exited 1)) (
          "child_reaped" ∷ "no_worker_result" ∷ "stop_error" ∷ "retain_adapter_fault"
          ∷ "quarantine_fixture" ∷ "reset_rejected" ∷ [])
      ∷ [])

abbrev pub java_startup_watchdog_expires_case : Covered
java_startup_watchdog_expires_case =
    covered "java_startup_watchdog_expires" (go ∷ java ∷ []) "new" (
      happens java (other "hold_cleanup") no_detail ("initialization_barrier_armed" ∷ [])
      ∷ sends java (frame 1 (start (begin 2 10000 1000)) "start 0") (
          "arm_startup_watchdog" ∷ "initialize_application" ∷ "initialization_blocked" ∷ "no_ready"
          ∷ [])
      ∷ happens java (other "advance_startup_clock") (clock 9999)
          ("initialization_still_blocked" ∷ "no_ready" ∷ "no_child_exit" ∷ [])
      ∷ happens java (other "advance_startup_clock") (clock 10000)
          ("fatal_startup" ∷ "force_nonzero_exit" ∷ "no_ready" ∷ "no_terminal" ∷ "no_stopped" ∷ [])
      ∷ sends go (frame 1 (fatal "startup" "startup deadline exceeded") "fatal 30")
          ("latch_startup_fault" ∷ "startup_error" ∷ "no_invoke" ∷ [])
      ∷ happens go (stop_call (some 5000)) (call_named "startup-watchdog-stop") (
          "set_single_deadline" ∷ "await_reaping" ∷ "retain_startup_fault" ∷ "no_stopped_required"
          ∷ [])
      ∷ happens go (other "child_exit") (exit (exited 1)) (
          "child_reaped" ∷ "startup_error_preserved" ∷ "stop_error" ∷ "quarantine_fixture"
          ∷ "reset_rejected" ∷ [])
      ∷ [])

abbrev pub java_stop_watchdog_expires_case : Covered
java_stop_watchdog_expires_case =
    covered "java_stop_watchdog_expires" (go ∷ java ∷ []) "completed" (
      happens java (other "hold_cleanup") no_detail ("application_shutdown_barrier_armed" ∷ [])
      ∷ happens go (stop_call (some 5000)) (call_named "stop-watchdog")
          ("set_single_deadline" ∷ "send_stop" ∷ "call_pending" ∷ [])
      ∷ sends java (frame 4 (stop 2500) "stop 11") (
          "arm_stop_watchdog" ∷ "close_admission" ∷ "application_cleanup_blocked" ∷ "no_stopped"
          ∷ [])
      ∷ happens java (other "advance_stop_clock") (clock 2499)
          ("cleanup_still_blocked" ∷ "no_stopped" ∷ "no_child_exit" ∷ [])
      ∷ happens java (other "advance_stop_clock") (clock 2500)
          ("fatal_shutdown" ∷ "force_nonzero_exit" ∷ "no_stopped" ∷ "no_cleanup_success" ∷ [])
      ∷ sends go (frame 5 (fatal "shutdown" "stop deadline exceeded") "fatal 31")
          ("latch_adapter_fault" ∷ "no_stop_success" ∷ "quarantine_fixture" ∷ [])
      ∷ happens go (other "child_exit") (exit (exited 1)) (
          "child_reaped" ∷ "stop_error" ∷ "retain_adapter_fault" ∷ "quarantine_fixture"
          ∷ "reset_rejected" ∷ [])
      ∷ [])

abbrev pub active_stop_cancel_watchdog_expires_case : Covered
active_stop_cancel_watchdog_expires_case =
    covered "active_stop_cancel_watchdog_expires" (go ∷ java ∷ []) "arrived" (
      happens java (other "hold_cleanup") no_detail ("rollback_barrier_armed" ∷ [])
      ∷ happens go (stop_call (some 5000)) (call_named "active-stop") (
          "set_single_deadline" ∷ "close_admission" ∷ "cancel_bridge" ∷ "send_cancel" ∷ "send_stop"
          ∷ "call_pending" ∷ [])
      ∷ sends java (frame 3 (cancel call "w1" "stop") "cancel 10") (
          "cancel_latched" ∷ "wake_gate_exceptionally" ∷ "arm_cleanup_watchdog"
          ∷ "request_jdbc_cancel" ∷ "no_terminal" ∷ [])
      ∷ sends java (frame 4 (stop 2500) "stop 11") (
          "close_admission" ∷ "retain_earlier_cleanup_deadline" ∷ "await_active_cleanup"
          ∷ "no_stopped" ∷ [])
      ∷ happens go (runtime_arrive_returns (gate call "w1" 1 "after_read") "cancelled") no_detail
          ("no_release" ∷ [])
      ∷ happens java (other "advance_cancel_cleanup_clock") (clock 999)
          ("cleanup_still_blocked" ∷ "no_child_exit" ∷ "no_terminal" ∷ "no_stopped" ∷ [])
      ∷ happens java (other "advance_cancel_cleanup_clock") (clock 1000) (
          "fatal_cleanup" ∷ "force_nonzero_exit" ∷ "no_terminal" ∷ "no_stopped"
          ∷ "no_cleanup_success" ∷ [])
      ∷ sends go (frame 4 (fatal "cleanup" "cancellation cleanup deadline exceeded") "fatal 28")
          ("latch_adapter_fault" ∷ "no_worker_result" ∷ "abort_run" ∷ "quarantine_fixture" ∷ [])
      ∷ happens go (other "child_exit") (exit (exited 1)) (
          "child_reaped" ∷ "stop_error" ∷ "retain_adapter_fault" ∷ "quarantine_fixture"
          ∷ "reset_rejected" ∷ [])
      ∷ [])
