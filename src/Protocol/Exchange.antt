-- ===== src/Protocol/Exchange.antt =====
-- The exchanged frames of `history`: what each message type requires and changes.
use Prim.Native.String.{◌++◌ as str_append}
use weavegate.Prelude.{
  ℕ, suc, String, Bool, true, false, not, ◌&&◌, ◌||◌, Option, none, some, List, [], ◌∷◌, ltb, elem,
  ◌==◌, string_eq, nat_eq, if◌then◌else◌,
}
use weavegate.Prelude.Dict
use weavegate.Prelude.Dict.{Dict, is_some}
use weavegate.Prelude.Result.{Result, Check, ok, ◌>>◌, need}
use weavegate.Protocol.Message.{
  java, peer_eq, Identity, Terminal, WireError, Body, identity_eq, same_body, returned_nil, invoke,
  accepted, arrive, release, terminal, cancel, stop,
}
use weavegate.Protocol.State.{History, Facts, Exception, Case, bound_to}

-- `effects.index(x)`; the length where it is absent, which the source tests before.
index : String → List String → ℕ
index x [] = 0
index x (y ∷ ys) = if y == x then 0 else suc (index x ys)

abbrev called : Option (String × String) → String → String → Bool
called none w c = false
called (some (v, d)) w c = v == w && d == c

unfoldable pub accept_step : String → String → History → Result History
unfolding bound_to
accept_step i w s = do
  need (bound_to s i w) "accepted changes invocation binding"
  need (not (elem i s.accepted)) "invocation accepted twice"
  ok (record s { accepted = i ∷ s.accepted })

unfoldable pub arrive_step : Identity → History → Result History
unfolding bound_to
arrive_step b s = do
  need (bound_to s b.invocation b.worker) "arrival changes invocation binding"
  need
      (same_body (Dict.get b.invocation s.pending_arrivals) b
        && not (is_some (Dict.get b.invocation s.outstanding)))
      "arrival lacks matching gate event"
  need (elem b.invocation s.accepted) "arrival before accepted"
  ok (record s {
    outstanding = Dict.put b.invocation b s.outstanding;
    bridges = Dict.put b.invocation b s.bridges;
    last_arrival = Dict.put b.invocation b.arrival s.last_arrival;
    pending_arrivals = Dict.remove b.invocation s.pending_arrivals;
  })

unfoldable pub release_step : Identity → History → Result History
release_step b s = do
  need (same_body (Dict.get b.invocation s.outstanding) b) "release lacks matching arrival"
  need (returned_nil (Dict.get b.invocation s.returned) b)
      "release before successful runtime return"
  ok (record s { outstanding = Dict.remove b.invocation s.outstanding })

unfoldable pub set_default : String → String → Dict String String → Dict String String
set_default k v d = if is_some (Dict.get k d) then d else Dict.put k v d

unfoldable pub cancel_step :
    Case → String → String → String → List String → History → Result History
unfolding bound_to index set_default
cancel_step c i w reason effects s = do
  need (bound_to s i w) "cancel changes invocation binding"
  need
      (not (elem "request_jdbc_cancel" effects && elem java c.targets)
        || (not (elem "cancel_latched" effects)
            || (elem "arm_cleanup_watchdog" effects
                && ltb (index "arm_cleanup_watchdog" effects)
                    (index "request_jdbc_cancel" effects))))
      "Java cancellation watchdog must precede JDBC cancel"
  ok (record s { reasons = set_default i reason s.reasons; canceled = i ∷ s.canceled })

-- The facts of the completion agree with the terminal.
abbrev pub facts_agree : Option Facts → Terminal → Bool
facts_agree none t = false
facts_agree (some f) t = f.transaction == t.transaction && f.lease == t.connection

abbrev pub proxy_left : Option Facts → Bool
proxy_left none = false
proxy_left (some f) = f.proxy_exited

cancelled_by : Option String → String → Bool
cancelled_by none message = false
cancelled_by (some reason) message = message == str_append "cancelled by " reason

raised : Option Exception → WireError → Bool
raised none e = false
raised (some x) e =
    x.message == e.message && (x.vendor_code == e.mysql_code && x.sql_state == e.sql_state)

unfoldable pub error_source : Option WireError → String → History → Check
unfolding cancelled_by raised
error_source none i s = ok tt
error_source (some e) i s =
    if e.kind == "cancelled"
    then need (cancelled_by (Dict.get i s.reasons) e.message) "cancellation message/source"
    else need (raised (Dict.get i s.sources) e) "terminal exception lacks independent source"

-- `active.pop(worker)` and `completed.add(invocation)` of a terminal that closes its channel.
unfoldable pub retire : Terminal → List String → History → History
retire t effects s =
    if elem "close_result_channel" effects
    then record s { active = Dict.remove t.worker s.active; completed = t.invocation ∷ s.completed }
    else s

-- What a terminal requires of its invocation.
unfoldable pub terminal_guard : Terminal → History → Check
unfolding bound_to
terminal_guard t s = do
  need (bound_to s t.invocation t.worker) "terminal changes invocation binding"
  need (elem t.invocation s.accepted && not (is_some (Dict.get t.invocation s.terminals)))
      "terminal before accepted or repeated terminal"
  need
      (not (is_some (Dict.get t.invocation s.bridges))
        && not (is_some (Dict.get t.invocation s.pending_arrivals)))
      "terminal before bridge/gate cleanup"
  need
      (not (is_some (Dict.get t.invocation s.outstanding))
        || is_some (Dict.get t.invocation s.reasons))
      "terminal with outstanding gate"

-- The completion that the terminal reports.
unfoldable pub completion_guard : Terminal → History → Check
completion_guard t s = do
  need (facts_agree (Dict.get t.invocation s.cleanup) t) "terminal contradicts completion facts"
  need (t.transaction == "not_started" || proxy_left (Dict.get t.invocation s.cleanup))
      "terminal before proxy exit"

unfoldable pub terminal_step : Case → Terminal → List String → History → Result History
terminal_step c t effects s = do
  terminal_guard t s
  completion_guard t s
  if elem java c.targets then error_source t.error t.invocation s else ok tt
  need (not (t.transaction == "not_started") || elem "no_worker_result" effects)
      "unstarted WorkerResult contradicts G5"
  ok (
      retire t effects (record s {
        outstanding = Dict.remove t.invocation s.outstanding;
        terminals = Dict.put t.invocation t s.terminals;
      }))

unfoldable pub exchange_step : Case → Body → List String → History → Result History
exchange_step c (invoke i w command) effects s = do
  need (called (Dict.get i s.invocations) w command) "invoke lacks Go Handle call"
  ok s
exchange_step c (accepted i w) effects s = accept_step i w s
exchange_step c (arrive b) effects s = arrive_step b s
exchange_step c (release b) effects s = release_step b s
exchange_step c (cancel i w r) effects s = cancel_step c i w r effects s
exchange_step c (terminal t) effects s = terminal_step c t effects s
exchange_step c (stop ms) effects s = ok (record s { stop_seen = true })
exchange_step c _ effects s = ok s
