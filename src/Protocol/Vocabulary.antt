-- ===== src/Protocol/Vocabulary.antt =====
-- The closed vocabularies of scripts/check-external-sut-vectors.py.
use weavegate.Prelude.{String, List, [], ◌∷◌}

-- Local events that a step may name.
unfoldable pub events : List String
events =
    "advance_cancel_cleanup_clock" ∷ "advance_fatal_cleanup_clock" ∷ "advance_startup_clock"
    ∷ "advance_stop_clock" ∷ "application_cleanup_complete" ∷ "begin_evaluation" ∷ "cancel_context"
    ∷ "check_operation_result" ∷ "check_stop_results" ∷ "child_exit" ∷ "command_exception"
    ∷ "complete_evaluation" ∷ "completion" ∷ "exhaust_arrivals" ∷ "exhaust_outbound_sequence"
    ∷ "hold_cleanup" ∷ "hold_release_enqueue" ∷ "invoke_call" ∷ "invoke_rejected" ∷ "jdbc_blocked"
    ∷ "launch_child" ∷ "provisional_evaluation" ∷ "readiness_complete" ∷ "resume_release_enqueue"
    ∷ "runtime_arrive_returns" ∷ "startup_before_write" ∷ "startup_deadline" ∷ "stderr_bytes"
    ∷ "stop_call" ∷ "stop_deadline" ∷ "stop_half_deadline" ∷ "wait_arrive_timeout"
    ∷ "worker_arrives" ∷ []

-- Expectation labels.
unfoldable pub expectations : List String
expectations =
    "abort_run" ∷ "all_calls_return_same_failure" ∷ "all_calls_return_success"
    ∷ "application_cleanup_blocked" ∷ "application_shutdown_barrier_armed" ∷ "arm_cleanup_watchdog"
    ∷ "arm_startup_watchdog" ∷ "arm_stop_watchdog" ∷ "await_active_cleanup" ∷ "await_eof_and_exit"
    ∷ "await_reaping" ∷ "begin_bounded_cleanup" ∷ "begin_detached_cleanup" ∷ "best_effort_stop"
    ∷ "call_pending" ∷ "cancel_bridge" ∷ "cancel_latched" ∷ "cancel_latched_atomically"
    ∷ "cancel_startup" ∷ "child_reaped" ∷ "cleanup_still_blocked" ∷ "client_arrive_once"
    ∷ "close_admission" ∷ "close_control_stream" ∷ "close_pipes" ∷ "close_pool_and_application"
    ∷ "close_result_channel" ∷ "committed_terminal_unchanged" ∷ "consume_cancelled_arrival"
    ∷ "consume_retired_invocation" ∷ "database_lock_released" ∷ "discard_provisional_evaluation"
    ∷ "dispatch_once" ∷ "drop_foreign_session" ∷ "enqueue_held" ∷ "evaluation_started"
    ∷ "exit_nonzero" ∷ "failure_class_error" ∷ "failure_class_mysql_deadlock" ∷ "fatal_cleanup"
    ∷ "fatal_protocol" ∷ "fatal_shutdown" ∷ "fatal_startup" ∷ "fatal_transaction" ∷ "fatal_version"
    ∷ "fault_supervision_active" ∷ "force_nonzero_exit" ∷ "hold_evaluation_return"
    ∷ "ignore_cancelled_gate" ∷ "ignore_duplicate" ∷ "initialization_barrier_armed"
    ∷ "initialization_blocked" ∷ "initialization_still_blocked" ∷ "initialize_application"
    ∷ "install_gate" ∷ "invalidate_evaluation" ∷ "kill_child" ∷ "latch_adapter_fault"
    ∷ "latch_startup_error" ∷ "latch_startup_fault" ∷ "latch_stop_timeout_failure"
    ∷ "latch_transport_fault" ∷ "mark_accepted" ∷ "no_arrive_for_w2" ∷ "no_child_exit"
    ∷ "no_cleanup_success" ∷ "no_client_arrive" ∷ "no_command_start" ∷ "no_fatal" ∷ "no_handle"
    ∷ "no_invoke" ∷ "no_new_deadline" ∷ "no_nil_stop_result" ∷ "no_protocol_effect" ∷ "no_ready"
    ∷ "no_redispatch" ∷ "no_release" ∷ "no_release_before_runtime_return" ∷ "no_reply" ∷ "no_resume"
    ∷ "no_rollback" ∷ "no_run_success" ∷ "no_runtime_finish" ∷ "no_second_child"
    ∷ "no_second_terminal" ∷ "no_start_frame" ∷ "no_start_return" ∷ "no_stop_frame"
    ∷ "no_stop_success" ∷ "no_stopped" ∷ "no_stopped_required" ∷ "no_wire_output"
    ∷ "admission_rejected" ∷ "no_terminal" ∷ "no_transport_fault" ∷ "no_worker_block"
    ∷ "no_worker_result" ∷ "operation_context_error" ∷ "operation_error"
    ∷ "owned_child_waiting_start" ∷ "pending_arrival_resolves" ∷ "prevent_command_start"
    ∷ "probe_database" ∷ "quarantine_fixture" ∷ "record_source_exception" ∷ "release_barrier_armed"
    ∷ "release_candidate_ready" ∷ "release_enqueued_atomically" ∷ "request_jdbc_cancel"
    ∷ "reserve_invocation" ∷ "reset_allowed" ∷ "reset_rejected" ∷ "result_channel_created"
    ∷ "retain_adapter_fault" ∷ "retain_earlier_cleanup_deadline" ∷ "retain_startup_fault"
    ∷ "retain_transport_fault" ∷ "retained_tail_matches_digest" ∷ "retire_invocation"
    ∷ "return_latched_failure" ∷ "reuse_deadline" ∷ "rollback_barrier_armed" ∷ "runtime_db_blocked"
    ∷ "script_holds_response" ∷ "script_observes_nonzero_exit" ∷ "script_records_cancel"
    ∷ "script_records_fatal" ∷ "send_arrive" ∷ "send_cancel" ∷ "send_fatal" ∷ "send_invoke"
    ∷ "send_ready" ∷ "send_release" ∷ "send_stop" ∷ "send_stopped" ∷ "send_terminal"
    ∷ "sequence_unchanged" ∷ "set_single_deadline" ∷ "start_returns_handle"
    ∷ "start_returns_no_handle" ∷ "startup_error" ∷ "startup_error_preserved" ∷ "stop_error"
    ∷ "stop_ok" ∷ "stop_still_pending" ∷ "supplied_invocation_context_cancelled"
    ∷ "unstarted_outcome" ∷ "validate_registration" ∷ "wake_exact_gate" ∷ "wake_gate_exceptionally"
    ∷ "worker_outcome_preserved" ∷ "worker_result_cancelled" ∷ "worker_result_error"
    ∷ "worker_result_nil" ∷ "no_bridge_tasks" ∷ "no_new_worker_effect"
    ∷ "outbound_sequence_at_limit" ∷ "arrival_sequence_at_limit" ∷ "fatal_without_wire" ∷ []

unfoldable pub fatal_kinds : List String
fatal_kinds =
    "version" ∷ "protocol" ∷ "startup" ∷ "transport" ∷ "transaction" ∷ "cleanup" ∷ "shutdown" ∷ []
