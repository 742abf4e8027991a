-- ===== src/Protocol/Vectors/GoWire.antt =====
-- The cases of Go's wire matrix of docs/reference/testdata/external-sut-v1.json.
use weavegate.Prelude.{[], ◌∷◌}
use weavegate.Protocol.Message.{go, java, start, invoke, accepted, arrive, fatal}
use weavegate.Protocol.State.{
  invoke_call, invoke_rejected, exhaust_outbound_sequence, exhaust_arrivals,
}
use weavegate.Protocol.Coverage.Scene.{no_detail, context}
use weavegate.Protocol.Coverage.Wire.{Covered}
use weavegate.Protocol.Vectors.Parts.{call, gate, begin, frame, happens, sends, injects, covered}

abbrev pub go_wrong_direction_case : Covered
go_wrong_direction_case = covered "go_wrong_direction" (go ∷ []) "ready" (
    injects go (frame 2 (invoke call "w1" "assign") "invoke 2")
      ("fatal_protocol" ∷ "no_worker_result" ∷ [])
    ∷ sends java (frame 2 (fatal "protocol" "external SUT session failed") "fatal 56")
        ("script_records_fatal" ∷ [])
    ∷ [])

abbrev pub go_unknown_point_case : Covered
go_unknown_point_case = covered "go_unknown_point" (go ∷ []) "active" (
    injects go (frame 3 (arrive (gate call "w1" 1 "missing")) "arrive 57")
      ("fatal_protocol" ∷ "no_worker_result" ∷ [])
    ∷ sends java (frame 3 (fatal "protocol" "external SUT session failed") "fatal 58")
        ("script_records_fatal" ∷ [])
    ∷ [])

abbrev pub go_immutable_worker_case : Covered
go_immutable_worker_case = covered "go_immutable_worker" (go ∷ []) "active" (
    injects go (frame 3 (arrive (gate call "w2" 1 "after_read")) "arrive 59")
      ("fatal_protocol" ∷ "no_worker_result" ∷ [])
    ∷ sends java (frame 3 (fatal "protocol" "external SUT session failed") "fatal 58")
        ("script_records_fatal" ∷ [])
    ∷ [])

abbrev pub go_semantic_duplicate_start_case : Covered
go_semantic_duplicate_start_case = covered "go_semantic_duplicate_start" (go ∷ []) "ready" (
    injects go (frame 2 (start (begin 2 10000 1000)) "start 45")
      ("fatal_protocol" ∷ "no_worker_result" ∷ [])
    ∷ sends java (frame 2 (fatal "protocol" "external SUT session failed") "fatal 56")
        ("script_records_fatal" ∷ [])
    ∷ [])

abbrev pub go_semantic_duplicate_invoke_case : Covered
go_semantic_duplicate_invoke_case = covered "go_semantic_duplicate_invoke" (go ∷ []) "active" (
    injects go (frame 3 (invoke call "w1" "assign") "invoke 47")
      ("fatal_protocol" ∷ "no_worker_result" ∷ [])
    ∷ sends java (frame 3 (fatal "protocol" "external SUT session failed") "fatal 58")
        ("script_records_fatal" ∷ [])
    ∷ [])

abbrev pub go_released_arrival_duplicate_case : Covered
go_released_arrival_duplicate_case = covered "go_released_arrival_duplicate" (go ∷ []) "released" (
    injects go (frame 4 (arrive (gate call "w1" 1 "after_read")) "arrive 60")
      ("fatal_protocol" ∷ "no_worker_result" ∷ [])
    ∷ sends java (frame 4 (fatal "protocol" "external SUT session failed") "fatal 61")
        ("script_records_fatal" ∷ [])
    ∷ [])

abbrev pub go_unknown_command_case : Covered
go_unknown_command_case = covered "go_unknown_command" (go ∷ []) "ready" (
    happens go (invoke_rejected "w1" "missing" "unknown_command") no_detail
      ("admission_rejected" ∷ "no_wire_output" ∷ [])
    ∷ [])

abbrev pub go_capacity_exceeded_case : Covered
go_capacity_exceeded_case = covered "go_capacity_exceeded" (go ∷ []) "ready" (
    happens go (invoke_call call "w1" "assign") (context "fresh")
      ("reserve_invocation" ∷ "send_invoke" ∷ "result_channel_created" ∷ [])
    ∷ sends java (frame 2 (invoke call "w1" "assign") "invoke 2") ("dispatch_once" ∷ [])
    ∷ sends go (frame 2 (accepted call "w1") "accepted 3") ("mark_accepted" ∷ [])
    ∷ happens go (invoke_call "44444444444444444444444444444444" "w2" "assign") (context "fresh")
        ("reserve_invocation" ∷ "send_invoke" ∷ "result_channel_created" ∷ [])
    ∷ sends java (frame 3 (invoke "44444444444444444444444444444444" "w2" "assign") "invoke 51")
        ("dispatch_once" ∷ [])
    ∷ sends go (frame 3 (accepted "44444444444444444444444444444444" "w2") "accepted 52")
        ("mark_accepted" ∷ [])
    ∷ happens go (invoke_rejected "w3" "assign" "capacity") no_detail
        ("admission_rejected" ∷ "no_wire_output" ∷ [])
    ∷ [])

abbrev pub go_outbound_sequence_exhausted_case : Covered
go_outbound_sequence_exhausted_case = covered "go_outbound_sequence_exhausted" (go ∷ []) "ready" (
    happens go (exhaust_outbound_sequence 100000) no_detail ("outbound_sequence_at_limit" ∷ [])
    ∷ happens go (invoke_call call "w1" "assign") (context "fresh")
        ("fatal_without_wire" ∷ "no_worker_result" ∷ [])
    ∷ [])

abbrev pub go_arrival_sequence_exhausted_case : Covered
go_arrival_sequence_exhausted_case = covered "go_arrival_sequence_exhausted" (go ∷ []) "active" (
    happens go (exhaust_arrivals call 100000) no_detail ("arrival_sequence_at_limit" ∷ [])
    ∷ injects go (frame 3 (arrive (gate call "w1" 100000 "after_read")) "arrive 62")
        ("fatal_protocol" ∷ "no_client_arrive" ∷ [])
    ∷ sends java (frame 3 (fatal "protocol" "external SUT session failed") "fatal 58")
        ("script_records_fatal" ∷ [])
    ∷ [])
