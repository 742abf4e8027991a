-- ===== src/Protocol/Vectors/JavaWire.antt =====
-- The cases of Java's wire matrix of docs/reference/testdata/external-sut-v1.json.
use weavegate.Prelude.{[], ◌∷◌}
use weavegate.Protocol.Message.{go, java, start, ready, invoke, accepted, release, cancel, fatal}
use weavegate.Protocol.State.{
  invoke_call, worker_arrives, exhaust_outbound_sequence, exhaust_arrivals,
}
use weavegate.Protocol.Coverage.Scene.{no_detail, context}
use weavegate.Protocol.Coverage.Wire.{Covered}
use weavegate.Protocol.Vectors.Parts.{call, gate, begin, frame, happens, sends, injects, covered}

abbrev pub java_unknown_command_case : Covered
java_unknown_command_case = covered "java_unknown_command" (java ∷ []) "ready" (
    happens go (invoke_call call "w1" "unregistered") (context "fresh")
      ("reserve_invocation" ∷ "send_invoke" ∷ "result_channel_created" ∷ [])
    ∷ sends java (frame 2 (invoke call "w1" "unregistered") "invoke 38")
        ("fatal_protocol" ∷ "no_terminal" ∷ [])
    ∷ sends go (frame 2 (fatal "protocol" "unknown command") "fatal 39")
        ("script_records_fatal" ∷ [])
    ∷ [])

abbrev pub java_unknown_point_case : Covered
java_unknown_point_case = covered "java_unknown_point" (java ∷ []) "active" (
    happens java (worker_arrives (gate call "w1" 1 "unregistered_point")) no_detail
      ("fatal_protocol" ∷ "no_terminal" ∷ [])
    ∷ sends go (frame 3 (fatal "protocol" "unknown sync point") "fatal 40")
        ("script_records_fatal" ∷ [])
    ∷ [])

abbrev pub java_wrong_direction_case : Covered
java_wrong_direction_case = covered "java_wrong_direction" (java ∷ []) "ready" (
    injects java
      (frame 2
        (ready (record {
          commands = "assign" ∷ [];
          points = "after_read" ∷ "before_write" ∷ [];
          capacity = 2;
        }))
        "ready 41")
      ("fatal_protocol" ∷ "no_terminal" ∷ [])
    ∷ sends go (frame 2 (fatal "protocol" "wrong message direction") "fatal 42")
        ("script_records_fatal" ∷ [])
    ∷ [])

abbrev pub java_immutable_worker_case : Covered
java_immutable_worker_case = covered "java_immutable_worker" (java ∷ []) "active" (
    injects java (frame 3 (cancel call "w2" "stop") "cancel 43")
      ("fatal_protocol" ∷ "no_terminal" ∷ [])
    ∷ sends go (frame 3 (fatal "protocol" "invocation binding changed") "fatal 44")
        ("script_records_fatal" ∷ [])
    ∷ [])

abbrev pub java_semantic_duplicate_start_case : Covered
java_semantic_duplicate_start_case = covered "java_semantic_duplicate_start" (java ∷ []) "ready" (
    injects java (frame 2 (start (begin 2 10000 1000)) "start 45")
      ("fatal_protocol" ∷ "no_terminal" ∷ [])
    ∷ sends go (frame 2 (fatal "protocol" "duplicate start") "fatal 46")
        ("script_records_fatal" ∷ [])
    ∷ [])

abbrev pub java_semantic_duplicate_invoke_case : Covered
java_semantic_duplicate_invoke_case =
    covered "java_semantic_duplicate_invoke" (java ∷ []) "active" (
      injects java (frame 3 (invoke call "w1" "assign") "invoke 47")
        ("fatal_protocol" ∷ "no_redispatch" ∷ [])
      ∷ sends go (frame 3 (fatal "protocol" "duplicate invocation") "fatal 48")
          ("script_records_fatal" ∷ [])
      ∷ [])

abbrev pub java_released_arrival_duplicate_case : Covered
java_released_arrival_duplicate_case =
    covered "java_released_arrival_duplicate" (java ∷ []) "released" (
      injects java (frame 4 (release (gate call "w1" 1 "after_read")) "release 49")
        ("no_fatal" ∷ "no_reply" ∷ [])
      ∷ [])

abbrev pub java_retired_cancel_case : Covered
java_retired_cancel_case = covered "java_retired_cancel" (java ∷ []) "completed" (
    injects java (frame 4 (cancel call "w1" "context") "cancel 33") ("no_fatal" ∷ "no_reply" ∷ [])
    ∷ [])

abbrev pub java_sequence_gap_case : Covered
java_sequence_gap_case = covered "java_sequence_gap" (java ∷ []) "ready" (
    injects java (frame 3 (invoke call "w1" "assign") "invoke 47")
      ("fatal_protocol" ∷ "no_terminal" ∷ [])
    ∷ sends go (frame 2 (fatal "protocol" "sequence gap") "fatal 50") ("script_records_fatal" ∷ [])
    ∷ [])

abbrev pub java_capacity_exceeded_case : Covered
java_capacity_exceeded_case = covered "java_capacity_exceeded" (java ∷ []) "ready" (
    happens go (invoke_call call "w1" "assign") (context "fresh")
      ("reserve_invocation" ∷ "send_invoke" ∷ "result_channel_created" ∷ [])
    ∷ sends java (frame 2 (invoke call "w1" "assign") "invoke 2")
        ("reserve_invocation" ∷ "dispatch_once" ∷ [])
    ∷ sends go (frame 2 (accepted call "w1") "accepted 3") ("mark_accepted" ∷ [])
    ∷ happens go (invoke_call "44444444444444444444444444444444" "w2" "assign") (context "fresh")
        ("reserve_invocation" ∷ "send_invoke" ∷ "result_channel_created" ∷ [])
    ∷ sends java (frame 3 (invoke "44444444444444444444444444444444" "w2" "assign") "invoke 51")
        ("reserve_invocation" ∷ "dispatch_once" ∷ [])
    ∷ sends go (frame 3 (accepted "44444444444444444444444444444444" "w2") "accepted 52")
        ("mark_accepted" ∷ [])
    ∷ happens go (invoke_call "55555555555555555555555555555555" "w3" "assign") (context "fresh")
        ("reserve_invocation" ∷ "send_invoke" ∷ "result_channel_created" ∷ [])
    ∷ sends java (frame 4 (invoke "55555555555555555555555555555555" "w3" "assign") "invoke 53")
        ("fatal_protocol" ∷ "no_terminal" ∷ [])
    ∷ sends go (frame 4 (fatal "protocol" "capacity exceeded") "fatal 54")
        ("script_records_fatal" ∷ [])
    ∷ [])

abbrev pub java_outbound_sequence_exhausted_case : Covered
java_outbound_sequence_exhausted_case =
    covered "java_outbound_sequence_exhausted" (java ∷ []) "ready" (
      happens java (exhaust_outbound_sequence 100000) no_detail ("outbound_sequence_at_limit" ∷ [])
      ∷ happens go (invoke_call call "w1" "assign") (context "fresh")
          ("reserve_invocation" ∷ "send_invoke" ∷ "result_channel_created" ∷ [])
      ∷ sends java (frame 2 (invoke call "w1" "assign") "invoke 2")
          ("fatal_without_wire" ∷ "no_terminal" ∷ [])
      ∷ [])

abbrev pub java_arrival_sequence_exhausted_case : Covered
java_arrival_sequence_exhausted_case =
    covered "java_arrival_sequence_exhausted" (java ∷ []) "active" (
      happens java (exhaust_arrivals call 100000) no_detail ("arrival_sequence_at_limit" ∷ [])
      ∷ happens java (worker_arrives (gate call "w1" 100001 "after_read")) no_detail
          ("fatal_protocol" ∷ "no_terminal" ∷ [])
      ∷ sends go (frame 3 (fatal "protocol" "arrival sequence exhausted") "fatal 55")
          ("script_records_fatal" ∷ [])
      ∷ [])
