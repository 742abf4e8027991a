-- ===== src/Protocol/Vectors/Parts.antt =====
-- The parts of which docs/reference/testdata/external-sut-v1.json is made.
use weavegate.Prelude.{ℕ, String, Bool, Option, List, [], ◌∷◌}
use weavegate.Protocol.Message.{Peer, Identity, WireError, Terminal, Start, Body, Frame}
use weavegate.Protocol.State.{Exception, Facts, Event, local, receive, input, exchange}
use weavegate.Protocol.Coverage.Scene.{Detail, Scene}
use weavegate.Protocol.Coverage.Wire.{Covered}

abbrev pub run_id : String
run_id = "11111111111111111111111111111111"

abbrev pub session_id : String
session_id = "22222222222222222222222222222222"

abbrev pub call : String
call = "33333333333333333333333333333333"

abbrev pub gate : String → String → ℕ → String → Identity
gate i w n p = record { invocation = i; worker = w; arrival = n; point = p }

abbrev pub begin : ℕ → ℕ → ℕ → Start
begin capacity startup_ms cancel_ms = record {
  variant = "fixed";
  params = ("request_id", "1") ∷ [];
  commands = "assign" ∷ [];
  points = "after_read" ∷ "before_write" ∷ [];
  capacity = capacity;
  database = record {
    driver = "mysql";
    host = "127.0.0.1";
    port = 33060;
    name = "weavegate";
    username = "synthetic";
    password = "synthetic-only";
  };
  startup_ms = startup_ms;
  cancel_ms = cancel_ms;
}

abbrev pub failure : String → String → ℕ → String → WireError
failure k m n s = record { kind = k; message = m; mysql_code = n; sql_state = s }

abbrev pub ended : String → String → String → String → Option WireError → Terminal
ended i w t c e = record { invocation = i; worker = w; transaction = t; connection = c; error = e }

abbrev pub raised : String → ℕ → String → Exception
raised m n s = record { message = m; vendor_code = n; sql_state = s }

abbrev pub facts : Bool → String → String → Facts
facts p t l = record { proxy_exited = p; transaction = t; lease = l }

-- A label stands for the compact text of the frame: equal frames have equal labels.
abbrev pub frame : ℕ → Body → String → Frame
frame n b label = record {
  v = 1;
  run = run_id;
  session = session_id;
  seq = n;
  body = b;
  payload = label;
}

abbrev pub happens : Peer → Event → Detail → List String → Scene
happens p e d effects = record {
  step = record { peer = p; expect = effects; action = local e };
  detail = d;
}

abbrev pub sends : Peer → Frame → List String → Scene
sends p f effects = record {
  step = record { peer = p; expect = effects; action = receive f exchange };
  detail = Detail.no_detail;
}

abbrev pub injects : Peer → Frame → List String → Scene
injects p f effects = record {
  step = record { peer = p; expect = effects; action = receive f input };
  detail = Detail.no_detail;
}

abbrev pub covered : String → List Peer → String → List Scene → Covered
covered id targets prefix own = record {
  case = record { id = id; execution = "isolated"; targets = targets };
  prefix = prefix;
  own = own;
}
