-- ===== src/Protocol/State.antt =====
-- Steps of a case, and the variables of `history`.
use weavegate.Prelude.{ℕ, String, Bool, false, Option, none, some, List, [], ◌==◌, string_eq}
use weavegate.Prelude.Dict
use weavegate.Prelude.Dict.{Dict}
use weavegate.Protocol.Message.{Peer, Identity, Terminal, Start, Frame}

pub record Exception : Type 0 where
  pub message : String
  pub vendor_code : ℕ
  pub sql_state : String

-- What a `completion` event reports.
pub record Facts : Type 0 where
  pub proxy_exited : Bool
  pub transaction : String
  pub lease : String

pub record Stderr : Type 0 where
  pub segments : List (List ℕ × ℕ)
  pub byte_count : ℕ
  pub retained_bytes : ℕ
  pub retained_sha256 : String

-- The local events that `history` looks at, with the arguments that it reads; `other` is any
-- event else, by its name.
pub data Event : Type 0 where
  stop_call : (budget_ms : Option ℕ) → Event
  invoke_call : (invocation worker command : String) → Event
  invoke_rejected : (worker command reason : String) → Event
  worker_arrives : Identity → Event
  exhaust_outbound_sequence : (limit : ℕ) → Event
  exhaust_arrivals : (invocation : String) (limit : ℕ) → Event
  command_exception : (invocation : String) → Exception → Event
  cancel_context : (invocation : String) → Event
  runtime_arrive_returns : Identity → (result : String) → Event
  completion : (invocation : Option String) → Facts → Event
  stderr_bytes : Stderr → Event
  other : (name : String) → Event

pub data Delivery : Type 0 where
  input exchange : Delivery

pub data Action : Type 0 where
  local : Event → Action
  receive : Frame → Delivery → Action

pub record Step : Type 0 where
  pub peer : Peer
  pub expect : List String
  pub action : Action

pub record Case : Type 0 where
  pub id : String
  pub execution : String
  pub targets : List Peer

pub record History : Type 0 where
  pub seq_go : Dict ℕ String
  pub seq_java : Dict ℕ String
  pub invocations : Dict String (String × String)
  pub active : Dict String String
  pub sources : Dict String Exception
  pub reasons : Dict String String
  pub outstanding : Dict String Identity
  pub completed : List String
  pub canceled : List String
  pub pending_arrivals : Dict String Identity
  pub last_arrival : Dict String ℕ
  pub exhausted_arrivals : List String
  pub accepted : List String
  pub bridges : Dict String Identity
  pub returned : Dict String (Identity × String)
  pub cleanup : Dict String Facts
  pub terminals : Dict String Terminal
  pub fatal_seen : Bool
  pub binding : Option (String × String)
  pub start : Option Start
  pub stop_seen : Bool

abbrev pub initial : History
initial = record {
  seq_go = [];
  seq_java = [];
  invocations = [];
  active = [];
  sources = [];
  reasons = [];
  outstanding = [];
  completed = [];
  canceled = [];
  pending_arrivals = [];
  last_arrival = [];
  exhausted_arrivals = [];
  accepted = [];
  bridges = [];
  returned = [];
  cleanup = [];
  terminals = [];
  fatal_seen = false;
  binding = none;
  start = none;
  stop_seen = false;
}

-- `invocations.get(i, (None,))[0] == worker`.
abbrev matches_worker : String → Option (String × String) → Bool
matches_worker worker none = false
matches_worker worker (some (w, _)) = w == worker

unfoldable pub bound_to : History → String → String → Bool
bound_to s invocation worker = matches_worker worker (Dict.get invocation s.invocations)

-- `last_arrival.get(i, 0)`.
abbrev or_zero : Option ℕ → ℕ
or_zero none = 0
or_zero (some n) = n

unfoldable pub last_arrival_of : History → String → ℕ
last_arrival_of s invocation = or_zero (Dict.get invocation s.last_arrival)
