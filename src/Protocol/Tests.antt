-- ===== src/Protocol/Tests.antt =====
-- One accepted case of the wire protocol, and the theorems of `history` at it.
use weavegate.Prelude.{ℕ, List, [], ◌∷◌, String, ◌≡◌, refl, true, some, none, string_eq}
use weavegate.Prelude.Dict
use weavegate.Prelude.Dict.{Dict, is_some}
use weavegate.Prelude.Text.{is_space, is_stripped, is_hex}
use weavegate.Prelude.Result.{ok}
use weavegate.Protocol.Message.{
  go, java, Identity, Start, Terminal, Body, Frame, start, ready, invoke, accepted, arrive, release,
  terminal, fatal, peer_beq, identity_beq, ready_beq, start_beq, terminal_beq,
}
use weavegate.Protocol.Vocabulary.{events, expectations, fatal_kinds}
use weavegate.Protocol.Shape.{name_string, frame_shape}
use weavegate.Protocol.State.{
  Case, Step, History, local, receive, input, exchange, initial, other, invoke_call, worker_arrives,
  runtime_arrive_returns, completion, bound_to, last_arrival_of,
}
use weavegate.Protocol.Premise.{injected_premise}
use weavegate.Protocol.Local.{local_step, known_event, known_facts}
use weavegate.Protocol.Exchange.{
  exchange_step, accept_step, arrive_step, release_step, terminal_step, terminal_guard,
  completion_guard, error_source, retire,
}
use weavegate.Protocol.Receive.{
  history, run_steps, history_step, act, receive_step, wrong_way, wrong_way_check, direction_ok,
  bound_step, sequenced_step, stale_check, fresh_step, ready_check, deliver, input_step,
}
use weavegate.Protocol.Invariant.{Inv}
use weavegate.Protocol.Sequence.{Sequenced}
use weavegate.Protocol.Latch.{Frozen, run_steps-Frozen}
use weavegate.Protocol.Growth.{Grows, run_steps-Grows}
use weavegate.Protocol.Promise.{
  Released, Inert, history-Inv, history-Sequenced, release-Released, injected-Inert,
}

abbrev no_digest : List ℕ → String
no_digest bytes = ""

abbrev pub id_of_run : String
id_of_run = "0123456789abcdef0123456789abcdef"

abbrev pub call : String
call = "fedcba9876543210fedcba9876543210"

abbrev pub frame : ℕ → Body → String → Frame
frame n b payload = record {
  v = 1;
  run = id_of_run;
  session = id_of_run;
  seq = n;
  body = b;
  payload = payload;
}

abbrev gate : Identity
gate = record { invocation = call; worker = "t1"; arrival = 1; point = "read" }

abbrev to_start : Start
to_start = record {
  variant = "mysql";
  params = [];
  commands = "assign" ∷ [];
  points = "read" ∷ [];
  capacity = 2;
  database = record {
    driver = "mysql";
    host = "db";
    port = 3306;
    name = "app";
    username = "root";
    password = "";
  };
  startup_ms = 1000;
  cancel_ms = 1000;
}

abbrev ended : Terminal
ended = record {
  invocation = call;
  worker = "t1";
  transaction = "committed";
  connection = "returned";
  error = none;
}

abbrev to_go : ℕ → Body → String → Step
to_go n b payload = record {
  peer = go;
  expect = "call_pending" ∷ [];
  action = receive (frame n b payload) exchange;
}

abbrev pub to_java : ℕ → Body → String → Step
to_java n b payload = record {
  peer = java;
  expect = "call_pending" ∷ [];
  action = receive (frame n b payload) exchange;
}

abbrev opened : List Step
opened =
    to_java 1 (start to_start) "start"
    ∷ to_go 1 (ready (record { commands = "assign" ∷ []; points = "read" ∷ []; capacity = 2 }))
        "ready"
    ∷ record {
      peer = go;
      expect = "call_pending" ∷ [];
      action = local (invoke_call call "t1" "assign");
    }
    ∷ to_java 2 (invoke call "t1" "assign") "invoke"
    ∷ to_go 2 (accepted call "t1") "accepted"
    ∷ record { peer = java; expect = "call_pending" ∷ []; action = local (worker_arrives gate) }
    ∷ to_go 3 (arrive gate) "arrive"
    ∷ record {
      peer = go;
      expect = "call_pending" ∷ [];
      action = local (runtime_arrive_returns gate "nil");
    }
    ∷ []

abbrev pub one_case : Case
one_case = record { id = "two_workers"; execution = "isolated"; targets = go ∷ java ∷ [] }

abbrev opened_state : History
opened_state = record initial {
  seq_go = (1, "ready") ∷ (2, "accepted") ∷ (3, "arrive") ∷ [];
  seq_java = (1, "start") ∷ (2, "invoke") ∷ [];
  invocations = (call, ("t1", "assign")) ∷ [];
  active = ("t1", call) ∷ [];
  outstanding = (call, gate) ∷ [];
  last_arrival = (call, 1) ∷ [];
  accepted = call ∷ [];
  returned = (call, (gate, "nil")) ∷ [];
  binding = some (id_of_run, id_of_run);
  start = some to_start;
}

opened_run : history no_digest one_case opened ≡ ok opened_state
unfolding Dict.get Dict.put Dict.remove is_space is_stripped is_hex peer_beq identity_beq ready_beq
    start_beq terminal_beq events expectations fatal_kinds name_string frame_shape bound_to
    last_arrival_of local_step known_event known_facts exchange_step accept_step arrive_step
    release_step terminal_step history run_steps history_step act receive_step wrong_way
    wrong_way_check direction_ok bound_step sequenced_step stale_check fresh_step ready_check
    deliver
opened_run = refl

abbrev release_one : Step
release_one = to_java 3 (release gate) "release"

abbrev released_state : History
released_state = record opened_state {
  seq_java = (1, "start") ∷ (2, "invoke") ∷ (3, "release") ∷ [];
  outstanding = [];
}

release_run : history_step no_digest one_case release_one opened_state ≡ ok released_state
unfolding Dict.get Dict.put Dict.remove is_space is_stripped is_hex peer_beq identity_beq
    expectations name_string frame_shape exchange_step release_step history_step act receive_step
    wrong_way direction_ok bound_step sequenced_step stale_check fresh_step ready_check deliver
release_run = refl

release-Released_example : Released gate opened_state released_state
release-Released_example =
    release-Released no_digest one_case opened opened_state released_state release_one
      (frame 3 (release gate) "release") gate opened_run refl refl release_run

history-Inv_example : Inv opened_state
history-Inv_example = history-Inv no_digest one_case opened opened_state opened_run

history-Sequenced_example : Sequenced opened_state
history-Sequenced_example = history-Sequenced no_digest one_case opened opened_state opened_run

-- A terminal that reports what the completion reported.
abbrev closing : List Step
closing =
    release_one
    ∷ record {
      peer = java;
      expect = "call_pending" ∷ [];
      action = local (
          completion none
            (record { proxy_exited = true; transaction = "committed"; lease = "returned" }));
    }
    ∷ record {
      peer = go;
      expect = "close_result_channel" ∷ [];
      action = receive (frame 4 (terminal ended) "terminal") exchange;
    }
    ∷ []

abbrev closed_state : History
closed_state = record released_state {
  seq_go = (1, "ready") ∷ (2, "accepted") ∷ (3, "arrive") ∷ (4, "terminal") ∷ [];
  active = [];
  completed = call ∷ [];
  cleanup =
      (call, record { proxy_exited = true; transaction = "committed"; lease = "returned" }) ∷ [];
  terminals = (call, ended) ∷ [];
}

closing_run : run_steps no_digest one_case closing opened_state ≡ ok closed_state
unfolding Dict.get Dict.put Dict.remove is_space is_stripped is_hex peer_beq identity_beq
    terminal_beq expectations name_string frame_shape bound_to local_step known_facts exchange_step
    release_step terminal_step terminal_guard completion_guard error_source retire run_steps
    history_step act receive_step wrong_way direction_ok bound_step sequenced_step stale_check
    fresh_step ready_check deliver
closing_run = refl

run_steps-Grows_example : Grows opened_state closed_state
run_steps-Grows_example =
    run_steps-Grows no_digest one_case closing opened_state closed_state closing_run

-- A protocol fault, then a stop call.
abbrev faulted_state : History
faulted_state = record opened_state {
  seq_java = (1, "start") ∷ (2, "invoke") ∷ (3, "fatal") ∷ [];
  fatal_seen = true;
}

abbrev after_fault : List Step
after_fault =
    record {
      peer = go;
      expect = "call_pending" ∷ [];
      action = receive (frame 4 (fatal "protocol" "bad frame") "fatal4") exchange;
    }
    ∷ record { peer = java; expect = "kill_child" ∷ []; action = local (other "child_exit") }
    ∷ []

abbrev last_state : History
last_state = record faulted_state {
  seq_go = (1, "ready") ∷ (2, "accepted") ∷ (3, "arrive") ∷ (4, "fatal4") ∷ [];
}

after_run : run_steps no_digest one_case after_fault faulted_state ≡ ok last_state
unfolding Dict.get Dict.put is_space is_stripped is_hex peer_beq identity_beq events expectations
    fatal_kinds name_string frame_shape local_step known_event exchange_step run_steps history_step
    act receive_step wrong_way direction_ok bound_step sequenced_step stale_check fresh_step
    ready_check deliver
after_run = refl

run_steps-Frozen_example : Frozen faulted_state last_state
run_steps-Frozen_example =
    run_steps-Frozen no_digest one_case after_fault faulted_state last_state refl after_run

-- An injected start that repeats the first one is a fault, and leaves no trace but its number.
abbrev duplicate_case : Case
duplicate_case = record {
  id = "java_semantic_duplicate_start";
  execution = "isolated";
  targets = java ∷ [];
}

abbrev duplicate_start : Step
duplicate_start = record {
  peer = java;
  expect = "fatal_protocol" ∷ [];
  action = receive (frame 3 (start to_start) "start3") input;
}

abbrev injected_state : History
injected_state = record opened_state {
  seq_java = (1, "start") ∷ (2, "invoke") ∷ (3, "start3") ∷ [];
}

injected_run :
    history_step no_digest duplicate_case duplicate_start opened_state ≡ ok injected_state
unfolding Dict.get Dict.put is_space is_stripped is_hex peer_beq start_beq ready_beq identity_beq
    expectations name_string frame_shape injected_premise history_step act receive_step wrong_way
    direction_ok bound_step sequenced_step stale_check fresh_step ready_check deliver input_step
injected_run = refl

injected-Inert_example : Inert opened_state injected_state
injected-Inert_example =
    injected-Inert no_digest duplicate_case opened_state injected_state duplicate_start
      (frame 3 (start to_start) "start3") refl injected_run
