-- ===== src/Protocol/Local.antt =====
-- The local events of `history`.
use weavegate.Prelude.{
  ℕ, zero, suc, ◌+◌, ◌-◌, String, Bool, false, not, ◌&&◌, ◌||◌, Option, none, some, List, [], ◌∷◌,
  ◌++◌, leb, ltb, elem, ◌==◌, string_eq, nat_eq, length, if◌then◌else◌,
}
use weavegate.Prelude.Dict
use weavegate.Prelude.Dict.{Dict, is_some}
use weavegate.Prelude.Result.{Result, ok, err, ◌>>◌, need}
use weavegate.Protocol.Message.{Peer, go, java, Identity, Start, identity_eq, same_body}
use weavegate.Protocol.Vocabulary.{events}
use weavegate.Protocol.Shape.{integer}
use weavegate.Protocol.State.{
  History, Event, Facts, Stderr, stop_call, invoke_call, invoke_rejected, worker_arrives,
  exhaust_outbound_sequence, exhaust_arrivals, command_exception, cancel_context,
  runtime_arrive_returns, completion, stderr_bytes, other, bound_to, last_arrival_of,
}

-- `effects[0] == 'set_single_deadline' if 'set_single_deadline' in effects else ...`.
deadline_first : List String → Bool
deadline_first effects =
    if elem "set_single_deadline" effects
    then head_is effects
    else elem "reuse_deadline" effects || elem "no_new_deadline" effects
  where
    head_is : List String → Bool
    head_is [] = false
    head_is (e ∷ _) = e == "set_single_deadline"

budget_in_range : Option ℕ → Bool
budget_in_range none = false
budget_in_range (some ms) = integer ms 1 2147483647

unfoldable pub stop_call_step : Option ℕ → List String → History → Result History
unfolding budget_in_range deadline_first
stop_call_step budget effects s = do
  need (budget_in_range budget) "local Stop budget"
  need (deadline_first effects) "Stop deadline must precede writes"
  ok s

unfoldable pub invoke_call_step : String → String → String → History → Result History
invoke_call_step i w c s = do
  need (not (is_some (Dict.get i s.invocations)) && not (is_some (Dict.get w s.active)))
      "duplicate/unretired Go reservation"
  ok (record s { invocations = Dict.put i (w, c) s.invocations; active = Dict.put w i s.active })

at_capacity : String → String → Option Start → History → Bool
at_capacity w c none s = false
at_capacity w c (some b) s =
    elem c b.commands && (not (is_some (Dict.get w s.active)) && leb b.capacity (length s.active))

unfoldable pub invoke_rejected_step :
    String → String → String → List String → History → Result History
unfolding at_capacity
invoke_rejected_step w c reason effects s = do
  need
      (elem reason ("unknown_command" ∷ "capacity" ∷ [])
        && (elem "admission_rejected" effects && elem "no_wire_output" effects))
      "rejected invocation shape/evidence"
  need (if reason == "unknown_command" then not (c == "assign") else at_capacity w c s.start s)
      "rejected invocation premise"
  ok s

unfoldable pub worker_arrives_step : Identity → History → Result History
unfolding bound_to last_arrival_of
worker_arrives_step b s = do
  need (bound_to s b.invocation b.worker) "arrival event changes invocation binding"
  need
      (not (is_some (Dict.get b.invocation s.outstanding))
        && not (is_some (Dict.get b.invocation s.pending_arrivals)))
      "arrival event while gate is live"
  need (b.arrival == last_arrival_of s b.invocation + 1) "arrival event does not increment"
  ok (record s { pending_arrivals = Dict.put b.invocation b s.pending_arrivals })

unfoldable pub exhaust_arrivals_step : String → ℕ → List String → History → Result History
exhaust_arrivals_step i limit effects s = do
  need
      (limit == 100000
        && (is_some (Dict.get i s.invocations) && elem "arrival_sequence_at_limit" effects))
      "arrival exhaustion setup"
  ok (record s {
    last_arrival = Dict.put i 100000 s.last_arrival;
    exhausted_arrivals = i ∷ s.exhausted_arrivals;
  })

-- `bridges.pop` takes the bridge away whatever it holds; a bridge of another identity raises.
unfoldable pub runtime_return_step : Identity → String → History → Result History
runtime_return_step b result s = do
  need (same_body (Dict.get b.invocation s.outstanding) b) "runtime return changes arrival binding"
  need (same_body (Dict.get b.invocation s.bridges) b) "runtime return lacks live bridge"
  ok (record s {
    bridges = Dict.remove b.invocation s.bridges;
    returned = Dict.put b.invocation (b, result) s.returned;
  })

-- `a.get('invocation', next(iter(invocations), None))`.
unfoldable pub or_first : Option String → Dict String (String × String) → Option String
or_first (some i) d = some i
or_first none [] = none
or_first none ((i, _) ∷ _) = some i

unfoldable pub known_facts : Facts → Bool
known_facts f =
    elem f.transaction ("committed" ∷ "rolled_back" ∷ "not_started" ∷ "unknown" ∷ [])
    && elem f.lease ("held" ∷ "returned" ∷ "not_acquired" ∷ "close_failed" ∷ [])

unfoldable pub complete_for : Option String → Facts → History → Result History
complete_for none f s = err "completion lacks accepted invocation"
complete_for (some i) f s = do
  need (elem i s.accepted) "completion lacks accepted invocation"
  need (known_facts f) "completion facts"
  ok (record s { cleanup = Dict.put i f s.cleanup })

-- `b''.join(bytes * repeat)`.
repeated : List ℕ → ℕ → List ℕ
repeated bytes zero = []
repeated bytes (suc n) = bytes ++ repeated bytes n

joined : List (List ℕ × ℕ) → List ℕ
unfolding repeated
joined [] = []
joined ((bytes, n) ∷ rest) = repeated bytes n ++ joined rest

drop : ℕ → List ℕ → List ℕ
drop zero xs = xs
drop (suc n) [] = []
drop (suc n) (x ∷ xs) = drop n xs

unfoldable pub known_event : String → Bool
unfolding events
known_event name = elem name events

-- The peer of the step, the event, and the step's effects. `sha256` is `hashlib.sha256(_).hexdigest()`.
module _ (sha256 : List ℕ → String) where
  unfoldable pub stderr_step : Stderr → History → Result History
  unfolding joined drop
  stderr_step e s =
      let raw = joined e.segments in
      do
        need
            (length raw == e.byte_count
              && (ltb 0 e.retained_bytes && ltb e.retained_bytes (length raw)))
            "stderr input size"
        need (sha256 (drop (length raw - e.retained_bytes) raw) == e.retained_sha256)
            "stderr retained content"
        ok s

  unfoldable pub local_step : Peer → Event → List String → History → Result History
  unfolding stop_call_step invoke_call_step invoke_rejected_step worker_arrives_step
      exhaust_arrivals_step runtime_return_step or_first complete_for stderr_step
  local_step p (stop_call budget) effects s = stop_call_step budget effects s
  local_step go (invoke_call i w c) effects s = invoke_call_step i w c s
  local_step go (invoke_rejected w c r) effects s = invoke_rejected_step w c r effects s
  local_step java (worker_arrives b) effects s = worker_arrives_step b s
  local_step p (exhaust_outbound_sequence limit) effects s = do
    need (limit == 100000 && elem "outbound_sequence_at_limit" effects) "outbound exhaustion setup"
    ok s
  local_step p (exhaust_arrivals i limit) effects s = exhaust_arrivals_step i limit effects s
  local_step java (command_exception i e) effects s =
      ok (record s { sources = Dict.put i e s.sources })
  local_step go (cancel_context i) effects s = do
    need (is_some (Dict.get i s.invocations)) "cancel lacks invocation"
    ok (record s { canceled = i ∷ s.canceled })
  local_step go (runtime_arrive_returns b r) effects s = runtime_return_step b r s
  local_step java (completion i f) effects s = complete_for (or_first i s.invocations) f s
  local_step p (stderr_bytes e) effects s = stderr_step e s
  local_step p (other name) effects s = do
    need (known_event name) "local event shape/vocabulary"
    ok s
  -- An event that is looked at for the other peer only.
  local_step p _ effects s = ok s
