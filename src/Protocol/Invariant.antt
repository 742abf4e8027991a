-- ===== src/Protocol/Invariant.antt =====
-- What holds between the steps of an accepted history: the maps of `history` agree.
pub mod Gate
pub mod Calls
pub mod Steps
use weavegate.Prelude.{ℕ, ◌≤◌, ◌<◌, String, ◌≡◌, true, none, some, elem, string_eq}
use weavegate.Prelude.Dict
use weavegate.Prelude.Dict.{is_some}
use weavegate.Protocol.Message.{Identity, Terminal}
use weavegate.Protocol.State.{History, bound_to, last_arrival_of}

pub record Inv (s : History) : Type 0 where
  -- An accepted invocation was called through a Go handle.
  pub accepted_bound :
      (i : String) → elem i s.accepted ≡ true → is_some (Dict.get i s.invocations) ≡ true
  -- A live gate stands under its own invocation, for the worker that it was called with.
  pub outstanding_key :
      (i : String) (b : Identity) → Dict.get i s.outstanding ≡ some b → b.invocation ≡ i
  pub outstanding_bound :
      (i : String) (b : Identity) → Dict.get i s.outstanding ≡ some b → bound_to s i b.worker ≡ true
  pub outstanding_accepted :
      (i : String) (b : Identity) → Dict.get i s.outstanding ≡ some b → elem i s.accepted ≡ true
  pub outstanding_alone :
      (i : String) (b : Identity)
      → Dict.get i s.outstanding ≡ some b
      → Dict.get i s.pending_arrivals ≡ none
  -- A bridge that waits on the runtime belongs to a live gate.
  pub bridge_outstanding :
      (i : String) (b : Identity)
      → Dict.get i s.bridges ≡ some b
      → Dict.get i s.outstanding ≡ some b
  -- What has returned is older than what waits.
  pub bridge_fresh :
      (i : String) (b r : Identity) (x : String)
      → Dict.get i s.bridges ≡ some b
      → Dict.get i s.returned ≡ some (r, x)
      → r.arrival < b.arrival
  pub pending_fresh :
      (i : String) (b r : Identity) (x : String)
      → Dict.get i s.pending_arrivals ≡ some b
      → Dict.get i s.returned ≡ some (r, x)
      → r.arrival < b.arrival
  pub returned_old :
      (i : String) (r : Identity) (x : String)
      → Dict.get i s.returned ≡ some (r, x)
      → r.arrival ≤ last_arrival_of s i
  pub bridge_last :
      (i : String) (b : Identity) → Dict.get i s.bridges ≡ some b → b.arrival ≤ last_arrival_of s i
  pub last_bounded : (i : String) → last_arrival_of s i ≤ 100000
  -- A terminal ends an accepted invocation, and retires it.
  pub terminal_accepted :
      (i : String) (t : Terminal) → Dict.get i s.terminals ≡ some t → elem i s.accepted ≡ true
  pub completed_terminal :
      (i : String) → elem i s.completed ≡ true → is_some (Dict.get i s.terminals) ≡ true
  -- A busy worker runs an invocation that was called for it.
  pub active_bound : (w i : String) → Dict.get w s.active ≡ some i → bound_to s i w ≡ true
