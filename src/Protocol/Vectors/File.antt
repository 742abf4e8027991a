-- ===== src/Protocol/Vectors/File.antt =====
-- The file as a whole, which `validate` accepts, and the theorem of `validate` at it.
use weavegate.Prelude.{
  ℕ, ◌<◌, String, ◌&&◌, true, false, List, [], ◌∷◌, ◌≡◌, ◌↔◌, ◌⊎◌, refl, arith, All, elem, length,
  string_eq,
}
use weavegate.Prelude.Text.{codes}
use weavegate.Protocol.Framing.{Bytes}
use weavegate.Protocol.Framing.Frames.{IsByte, encode, to_hex, framed-exact, from_hex-inverse}
use weavegate.Protocol.Framing.Premises.{cut_short, mismatch, validate_framing-Framed}
use weavegate.Protocol.Coverage.Exclusive.{coverage-exclusive}
use weavegate.Prelude.Result.{ok}
use weavegate.Protocol.Coverage.Wire.{Covered}
use weavegate.Protocol.Validate.{Vectors, validate}
use weavegate.Protocol.Valid.{Valid, validate-Valid}
use weavegate.Protocol.Vectors.Prefixes.{prefixes}
use weavegate.Protocol.Vectors.Frames.{vectors, json, fragmented_valid_frame}
use weavegate.Protocol.Vectors.Outcomes.{
  incremented_arrival_case, stop_active_invocation_case, rollback_case, cancel_at_arrival_case,
  process_death_case, death_after_terminals_case, duplicate_frame_case, version_mismatch_case,
  readiness_mismatch_case, startup_deadline_case, mysql_deadlock_case,
}
use weavegate.Protocol.Vectors.JavaWire.{
  java_unknown_command_case, java_unknown_point_case, java_wrong_direction_case,
  java_immutable_worker_case, java_semantic_duplicate_start_case,
  java_semantic_duplicate_invoke_case, java_released_arrival_duplicate_case,
  java_retired_cancel_case, java_sequence_gap_case, java_capacity_exceeded_case,
  java_outbound_sequence_exhausted_case, java_arrival_sequence_exhausted_case,
}
use weavegate.Protocol.Vectors.GoWire.{
  go_wrong_direction_case, go_unknown_point_case, go_immutable_worker_case,
  go_semantic_duplicate_start_case, go_semantic_duplicate_invoke_case,
  go_released_arrival_duplicate_case, go_unknown_command_case, go_capacity_exceeded_case,
  go_outbound_sequence_exhausted_case, go_arrival_sequence_exhausted_case,
}
use weavegate.Protocol.Vectors.Watchdogs.{
  java_fatal_cleanup_watchdog_expires_case, java_startup_watchdog_expires_case,
  java_stop_watchdog_expires_case, active_stop_cancel_watchdog_expires_case,
}
use weavegate.Protocol.Vectors.Others.{
  mysql_lock_timeout_case, post_commit_exception_case, completion_callback_too_early_case,
  unknown_commit_outcome_case, cancel_cleanup_deadline_case, fatal_after_terminals_case,
  duplicate_invoke_java_case, cancel_wins_release_enqueue_case, release_enqueue_wins_cancel_case,
  retired_terminal_identical_case, retired_terminal_conflict_case,
}
use weavegate.Prelude.Dict
use weavegate.Prelude.Result.{for_each}
use weavegate.Prelude.Text.{is_space, is_stripped, is_hex, decimal, utf8_length, has_text}
use weavegate.Protocol.Message.{peer_beq, identity_beq, ready_beq, start_beq, terminal_beq}
use weavegate.Protocol.Vocabulary.{events, expectations, fatal_kinds}
use weavegate.Protocol.Shape.{name_string, frame_shape}
use weavegate.Protocol.State.{bound_to, last_arrival_of}
use weavegate.Protocol.Premise.{injected_premise}
use weavegate.Protocol.Local.{
  stop_call_step, invoke_call_step, invoke_rejected_step, worker_arrives_step,
  exhaust_arrivals_step, runtime_return_step, or_first, known_facts, complete_for, known_event,
  stderr_step, local_step,
}
use weavegate.Protocol.Exchange.{
  accept_step, arrive_step, release_step, set_default, cancel_step, error_source, retire,
  terminal_guard, completion_guard, terminal_step, exchange_step,
}
use weavegate.Protocol.Receive.{
  direction_ok, wrong_way, ready_check, retired_terminal, input_step, deliver, fresh_step,
  stale_check, sequenced_step, bound_step, wrong_way_check, receive_step, act, history_step,
  run_steps, history,
}
use weavegate.Protocol.Expand.{expand_items, expand_within, expand}
use weavegate.Protocol.Emissions.{
  type_of, sends, is_output, find_output, take_output, effect_outputs, step_outputs, emissions_from,
  emissions,
}
use weavegate.Protocol.Coverage.Scene.{
  name_of, is_event, is_message, event_at, message_at, is_exchange, is_injected, indices_from,
  indices, first_that, last_that,
}
use weavegate.Protocol.Coverage.Wire.{
  only_go, only_java, both_targets, go_wire_cases, java_wire_cases, effects_of, fatal_answer,
  go_wire_matrix, java_wire_matrix, terminal_of, call_of, retired_bodies, retired_rule, duplicate,
  readiness_rejection, exception_input, facts_are, three_completions, callback_terminal,
  transaction_unknown, fatal_of_kind, exit_nonzero, incremented_arrival,
}
use weavegate.Protocol.Coverage.Order.{
  returns_with, error_expected, call_among, is_death, is_unwind, is_reaping_stop, is_stop_check,
  process_death_cleanup, is_late_fault, late_fault, clock_of, trigger_effect, trigger_type,
  budget_of, elapsed_is, two_clocks, reason_is, keeps_deadline, is_cleanup, is_trigger, watchdog,
  names, gate_at, gate_is, returns_nil, cancels, is_ready, is_output as order_is_output, types_of,
  releases, raced, cancel_wins, enqueue_wins, held, race,
}
use weavegate.Protocol.Coverage.Rules.{
  canceled_reuse, normal_active_stop, parent_startup_cleanup, unknown_outcome_fatal,
  version_rejection, required, coverage,
}
use weavegate.Protocol.Framing.{
  header, payload, framed, optional_fields, framing, hex_value, from_hex, is_even, drop_spaces,
  strips_to_braces, sum, document_shape, value_of, parsed, fragmented_check, trailing_check,
  unknown_field_check, rejection, control_of, negative_check, control_check, premise, entry_ok,
  validate_framing,
}
use weavegate.Protocol.Validate.{
  run_case, run_cases, covers, rule_check, matrix_check, framing_check,
}

abbrev cases : List Covered
cases =
    incremented_arrival_case ∷ stop_active_invocation_case ∷ rollback_case ∷ cancel_at_arrival_case
    ∷ process_death_case ∷ death_after_terminals_case ∷ duplicate_frame_case ∷ version_mismatch_case
    ∷ readiness_mismatch_case ∷ startup_deadline_case ∷ mysql_deadlock_case
    ∷ mysql_lock_timeout_case ∷ post_commit_exception_case ∷ completion_callback_too_early_case
    ∷ unknown_commit_outcome_case ∷ cancel_cleanup_deadline_case
    ∷ java_fatal_cleanup_watchdog_expires_case ∷ java_startup_watchdog_expires_case
    ∷ java_stop_watchdog_expires_case ∷ fatal_after_terminals_case ∷ duplicate_invoke_java_case
    ∷ cancel_wins_release_enqueue_case ∷ release_enqueue_wins_cancel_case
    ∷ active_stop_cancel_watchdog_expires_case ∷ retired_terminal_identical_case
    ∷ retired_terminal_conflict_case ∷ java_unknown_command_case ∷ java_unknown_point_case
    ∷ java_wrong_direction_case ∷ java_immutable_worker_case ∷ java_semantic_duplicate_start_case
    ∷ java_semantic_duplicate_invoke_case ∷ java_released_arrival_duplicate_case
    ∷ java_retired_cancel_case ∷ java_sequence_gap_case ∷ java_capacity_exceeded_case
    ∷ java_outbound_sequence_exhausted_case ∷ java_arrival_sequence_exhausted_case
    ∷ go_wrong_direction_case ∷ go_unknown_point_case ∷ go_immutable_worker_case
    ∷ go_semantic_duplicate_start_case ∷ go_semantic_duplicate_invoke_case
    ∷ go_released_arrival_duplicate_case ∷ go_unknown_command_case ∷ go_capacity_exceeded_case
    ∷ go_outbound_sequence_exhausted_case ∷ go_arrival_sequence_exhausted_case ∷ []

abbrev file : Vectors
file = record {
  vector_format = 1;
  wire_version = 1;
  prefixes = prefixes;
  cases = cases;
  framing = vectors;
  coverage =
      ("duplicate_go", "duplicate_frame" ∷ [])
      ∷ ("duplicate_java", "duplicate_invoke_java" ∷ [])
      ∷ ("late_process_fault", "death_after_terminals" ∷ [])
      ∷ ("late_wire_fault", "fatal_after_terminals" ∷ [])
      ∷ ("startup_watchdog", "java_startup_watchdog_expires" ∷ [])
      ∷ ("stop_watchdog", "java_stop_watchdog_expires" ∷ [])
      ∷ ("cancel_watchdog", "cancel_cleanup_deadline" ∷ [])
      ∷ ("fatal_watchdog", "java_fatal_cleanup_watchdog_expires" ∷ [])
      ∷ ("active_stop_watchdog", "active_stop_cancel_watchdog_expires" ∷ [])
      ∷ ("cancel_wins_enqueue", "cancel_wins_release_enqueue" ∷ [])
      ∷ ("enqueue_wins_cancel", "release_enqueue_wins_cancel" ∷ [])
      ∷ ("readiness_rejection", "readiness_mismatch" ∷ [])
      ∷ ("canceled_reuse", "cancel_at_arrival" ∷ [])
      ∷ ("normal_active_stop", "stop_active_invocation" ∷ [])
      ∷ (
        "exception_input",
        "rollback" ∷ "mysql_deadlock" ∷ "mysql_lock_timeout" ∷ "post_commit_exception" ∷ [],
      )
      ∷ ("parent_startup_cleanup", "startup_deadline" ∷ [])
      ∷ ("callback_terminal", "completion_callback_too_early" ∷ [])
      ∷ ("unknown_outcome_fatal", "unknown_commit_outcome" ∷ [])
      ∷ ("version_rejection", "version_mismatch" ∷ [])
      ∷ ("incremented_arrival", "incremented_arrival" ∷ [])
      ∷ ("retired_terminal_identical", "retired_terminal_identical" ∷ [])
      ∷ ("retired_terminal_conflict", "retired_terminal_conflict" ∷ [])
      ∷ ("process_death_cleanup", "process_death" ∷ [])
      ∷ (
        "java_wire_matrix",
        "java_unknown_command" ∷ "java_unknown_point" ∷ "java_wrong_direction"
            ∷ "java_immutable_worker" ∷ "java_semantic_duplicate_start"
            ∷ "java_semantic_duplicate_invoke" ∷ "java_released_arrival_duplicate"
            ∷ "java_retired_cancel" ∷ "java_sequence_gap" ∷ "java_capacity_exceeded"
            ∷ "java_outbound_sequence_exhausted" ∷ "java_arrival_sequence_exhausted" ∷ [],
      )
      ∷ (
        "go_wire_matrix",
        "go_wrong_direction" ∷ "go_unknown_point" ∷ "go_immutable_worker"
            ∷ "go_semantic_duplicate_start" ∷ "go_semantic_duplicate_invoke"
            ∷ "go_released_arrival_duplicate" ∷ "go_unknown_command" ∷ "go_capacity_exceeded"
            ∷ "go_outbound_sequence_exhausted" ∷ "go_arrival_sequence_exhausted" ∷ [],
      )
      ∷ [];
}

abbrev digest : List ℕ → String
digest bytes = ""

file_run : validate digest json file ≡ ok tt
unfolding Dict.get Dict.put Dict.remove for_each is_space is_stripped is_hex decimal utf8_length
    has_text peer_beq identity_beq ready_beq start_beq terminal_beq events expectations fatal_kinds
    name_string frame_shape bound_to last_arrival_of injected_premise stop_call_step
    invoke_call_step invoke_rejected_step worker_arrives_step exhaust_arrivals_step
    runtime_return_step or_first known_facts complete_for known_event stderr_step local_step
    accept_step arrive_step release_step set_default cancel_step error_source retire terminal_guard
    completion_guard terminal_step exchange_step direction_ok wrong_way ready_check retired_terminal
    input_step deliver fresh_step stale_check sequenced_step bound_step wrong_way_check receive_step
    act history_step run_steps history expand_items expand_within expand type_of sends is_output
    find_output take_output effect_outputs step_outputs emissions_from emissions name_of is_event
    is_message event_at message_at is_exchange is_injected indices_from indices first_that last_that
    only_go only_java both_targets go_wire_cases java_wire_cases effects_of fatal_answer
    go_wire_matrix java_wire_matrix terminal_of call_of retired_bodies retired_rule duplicate
    readiness_rejection exception_input facts_are three_completions callback_terminal
    transaction_unknown fatal_of_kind exit_nonzero incremented_arrival returns_with error_expected
    call_among is_death is_unwind is_reaping_stop is_stop_check process_death_cleanup is_late_fault
    late_fault clock_of trigger_effect trigger_type budget_of elapsed_is two_clocks reason_is
    keeps_deadline is_cleanup is_trigger watchdog names gate_at gate_is returns_nil cancels is_ready
    order_is_output types_of releases raced cancel_wins enqueue_wins held race canceled_reuse
    normal_active_stop parent_startup_cleanup unknown_outcome_fatal version_rejection required
    coverage header payload framed optional_fields framing hex_value from_hex is_even drop_spaces
    strips_to_braces sum document_shape value_of parsed fragmented_check trailing_check
    unknown_field_check rejection control_of negative_check control_check premise entry_ok
    validate_framing run_case run_cases covers rule_check matrix_check framing_check validate
file_run = refl

validate-Valid_example : Valid digest json file
validate-Valid_example = validate-Valid digest json file file_run

fragmented_run : validate_framing json fragmented_valid_frame ≡ ok tt
unfolding for_each framed header payload validate_framing from_hex hex_value is_even optional_fields
    framing premise fragmented_check document_shape value_of sum frame_shape is_hex name_string
    is_space is_stripped peer_beq Dict.get entry_ok
fragmented_run = refl

validate_framing-Framed_example :
    (elem fragmented_valid_frame.id cut_short ≡ true)
      × (framed (from_hex fragmented_valid_frame.input_hex) ≡ mismatch)
    ⊎ (elem fragmented_valid_frame.id cut_short ≡ false)
      × (framed (from_hex fragmented_valid_frame.input_hex)
          ≡ ok (payload (from_hex fragmented_valid_frame.input_hex)))
validate_framing-Framed_example = validate_framing-Framed json fragmented_valid_frame fragmented_run

abbrev two_bytes : Bytes
two_bytes = 123 ∷ 125 ∷ []

framed-exact_example :
    (framed (encode two_bytes) ≡ ok two_bytes)
    ↔ ((encode two_bytes ≡ encode two_bytes) × (length two_bytes < 4294967296))
framed-exact_example = framed-exact (encode two_bytes) two_bytes (omega arith)

from_hex-inverse_example :
    (from_hex (to_hex two_bytes) ≡ two_bytes)
    × (to_hex (from_hex (codes "7b7d")) ≡ codes "7b7d")
    × All IsByte (from_hex (codes "7b7d"))
unfolding is_even
from_hex-inverse_example = from_hex-inverse two_bytes (codes "7b7d") (omega arith) refl refl

coverage-exclusive_example :
    ((coverage "cancel_wins_enqueue" cancel_wins_release_enqueue_case
          cancel_wins_release_enqueue_case.own
        && coverage "enqueue_wins_cancel" cancel_wins_release_enqueue_case
            cancel_wins_release_enqueue_case.own)
      ≡ false)
    × ((coverage "retired_terminal_identical" cancel_wins_release_enqueue_case
            cancel_wins_release_enqueue_case.own
          && coverage "retired_terminal_conflict" cancel_wins_release_enqueue_case
              cancel_wins_release_enqueue_case.own)
        ≡ false)
coverage-exclusive_example =
    coverage-exclusive cancel_wins_release_enqueue_case cancel_wins_release_enqueue_case.own
