-- ===== src/Protocol/Vectors/Prefixes.antt =====
-- The prefixes of docs/reference/testdata/external-sut-v1.json.
use weavegate.Prelude.{true, none, List, [], ◌∷◌}
use weavegate.Prelude.Dict.{Dict}
use weavegate.Protocol.Message.{go, java, start, ready, invoke, accepted, arrive, release, terminal}
use weavegate.Protocol.State.{
  invoke_call, worker_arrives, runtime_arrive_returns, completion, other,
}
use weavegate.Protocol.Coverage.Scene.{no_detail, context}
use weavegate.Protocol.Coverage.Scene.{Scene}
use weavegate.Protocol.Expand.{Item, prefix_named, step}
use weavegate.Protocol.Vectors.Parts.{call, gate, begin, ended, facts, frame, happens, sends}
use weavegate.Prelude.{String}

abbrev pub new_prefix : List (Item Scene)
new_prefix = []

abbrev pub ready_prefix : List (Item Scene)
ready_prefix =
    step (
      sends java (frame 1 (start (begin 2 10000 1000)) "start 0")
        ("initialize_application" ∷ "validate_registration" ∷ "probe_database" ∷ []))
    ∷ step (happens java (other "readiness_complete") no_detail ("send_ready" ∷ []))
    ∷ step (
        sends go
          (frame 1
            (ready (record {
              commands = "assign" ∷ [];
              points = "after_read" ∷ "before_write" ∷ [];
              capacity = 2;
            }))
            "ready 1")
          ("start_returns_handle" ∷ []))
    ∷ []

abbrev pub active_prefix : List (Item Scene)
active_prefix =
    prefix_named "ready"
    ∷ step (
        happens go (invoke_call call "w1" "assign") (context "fresh")
          ("reserve_invocation" ∷ "send_invoke" ∷ "result_channel_created" ∷ []))
    ∷ step (
        sends java (frame 2 (invoke call "w1" "assign") "invoke 2")
          ("reserve_invocation" ∷ "dispatch_once" ∷ []))
    ∷ step (sends go (frame 2 (accepted call "w1") "accepted 3") ("mark_accepted" ∷ []))
    ∷ []

abbrev pub arrived_prefix : List (Item Scene)
arrived_prefix =
    prefix_named "active"
    ∷ step (
        happens java (worker_arrives (gate call "w1" 1 "after_read")) no_detail
          ("install_gate" ∷ "send_arrive" ∷ []))
    ∷ step (
        sends go (frame 3 (arrive (gate call "w1" 1 "after_read")) "arrive 4")
          ("client_arrive_once" ∷ "no_release_before_runtime_return" ∷ []))
    ∷ []

abbrev pub released_prefix : List (Item Scene)
released_prefix =
    prefix_named "arrived"
    ∷ step (
        happens go (runtime_arrive_returns (gate call "w1" 1 "after_read") "nil") no_detail
          ("send_release" ∷ []))
    ∷ step (
        sends java (frame 3 (release (gate call "w1" 1 "after_read")) "release 5")
          ("wake_exact_gate" ∷ []))
    ∷ []

abbrev pub completed_prefix : List (Item Scene)
completed_prefix =
    prefix_named "released"
    ∷ step (
        happens java (completion none (facts true "committed" "returned")) no_detail
          ("send_terminal" ∷ []))
    ∷ step (
        sends go (frame 4 (terminal (ended call "w1" "committed" "returned" none)) "terminal 6")
          ("worker_result_nil" ∷ "close_result_channel" ∷ "retire_invocation" ∷ []))
    ∷ []

abbrev pub prefixes : Dict String (List (Item Scene))
prefixes =
    ("new", new_prefix)
    ∷ ("ready", ready_prefix)
    ∷ ("active", active_prefix)
    ∷ ("arrived", arrived_prefix)
    ∷ ("released", released_prefix)
    ∷ ("completed", completed_prefix)
    ∷ []
