-- ===== src/Protocol/Promise.antt =====
-- What `history` promises of a case that it accepts.
use weavegate.Prelude.{
  ℕ, ◌≤◌, List, String, ◌≡◌, refl, sym, ap, true, false, Option-cases, some, none, ◌∙◌, arith, inl,
  inr, elem, nat_eq, string_eq,
}
use weavegate.Prelude.Dict
use weavegate.Prelude.Dict.{Dict, is_some, is_some-true}
use weavegate.Prelude.Result.{ok}
use weavegate.Protocol.Message.{
  Peer, go, java, Body, Identity, Frame, start, ready, invoke, release, same_body_eq,
  returned_nil_eq,
}
use weavegate.Protocol.State.{
  Case, Step, Delivery, History, initial, receive, input, exchange, bound_to, last_arrival_of,
}
use weavegate.Protocol.Exchange.{exchange_step, release_step}
use weavegate.Protocol.Receive.{
  deliver, fresh_step, sequenced_step, bound_step, receive_step, wrong_way, stale_check, act,
  history_step, run_steps, history,
}
use weavegate.Protocol.Cases.{
  noted, joined, fresh_step-deliver, history_step-act, dropped, stale, fresh, receive_step-Outcome,
}
use weavegate.Protocol.Invariant.{Inv}
use weavegate.Protocol.Invariant.Steps.{run_steps-Inv}
use weavegate.Protocol.Sequence.{Sequenced, run_steps-Sequenced}

initial-Inv : Inv initial
unfolding Dict.get bound_to last_arrival_of
initial-Inv = ground arith

initial-Sequenced : Sequenced initial
unfolding Dict.get
initial-Sequenced = record { go_dense = λ n. ground arith; java_dense = λ n. ground arith }

-- An exchanged frame is never dropped: it is the next of its receiver, and takes effect.
exchanged-sequenced :
    (c : Case) (p : Peer) (f : Frame) (effects : List String) (s s' : History)
    → sequenced_step c p f exchange effects s ≡ ok s'
    → fresh_step c p f exchange effects s ≡ ok s'
unfolding sequenced_step stale_check
exchanged-sequenced c p f effects s s' h = ground arith

exchanged-bound :
    (c : Case) (p : Peer) (f : Frame) (effects : List String) (s s' : History)
    → bound_step c p f exchange effects s ≡ ok s'
    → fresh_step c p f exchange effects (joined f s) ≡ ok s'
unfolding bound_step
exchanged-bound c p f effects s s' h =
    exchanged-sequenced c p f effects (joined f s) s' (ground arith)

module _ (sha256 : List ℕ → String) (c : Case) (steps : List Step) (s : History) where
  history-run : history sha256 c steps ≡ ok s → run_steps sha256 c steps initial ≡ ok s
  unfolding history
  history-run h = ground arith

  -- When `history` accepts a case, the maps that it keeps agree in the state that it ends in: an
  -- accepted invocation was called, a live gate stands under its own accepted invocation and
  -- bound worker, a bridge belongs to a live gate and is newer than what has returned, no arrival
  -- passes 100000, a terminal ends an accepted invocation, a completed invocation has its
  -- terminal, and a busy worker runs an invocation called for it.
  pub history-Inv : history sha256 c steps ≡ ok s → Inv s
  history-Inv h = run_steps-Inv sha256 c steps initial s (history-run h) initial-Inv

  -- When `history` accepts a case, the sequence numbers that each peer has taken are those from
  -- one to their number, without a gap.
  pub history-Sequenced : history sha256 c steps ≡ ok s → Sequenced s
  history-Sequenced h =
      (run_steps-Sequenced sha256 c steps initial s (history-run h) initial-Sequenced).0

wrong_way-exchange : (id : String) (p : Peer) (b : Body) → wrong_way id p b exchange ≡ false
unfolding wrong_way
wrong_way-exchange id go (invoke i w c) = refl
wrong_way-exchange id go (start b) = refl
wrong_way-exchange id go _ = refl
wrong_way-exchange id java (ready b) = refl
wrong_way-exchange id java _ = refl

exchanged-delivered :
    (c : Case) (p : Peer) (f : Frame) (effects : List String) (s s' : History)
    → receive_step c p f exchange effects s ≡ ok s'
    → exchange_step c f.body effects (noted p f (joined f s)) ≡ ok s'
unfolding receive_step deliver
exchanged-delivered c p f effects s s' h =
    let straight = wrong_way-exchange c.id p f.body in
    let taken = exchanged-bound c p f effects s s' (ground arith) in
    fresh_step-deliver c p f exchange effects (joined f s) s' taken

-- The variables that an injected frame leaves as they are.
pub record Inert (s t : History) : Type 0 where
  pub invocations : t.invocations ≡ s.invocations
  pub active : t.active ≡ s.active
  pub outstanding : t.outstanding ≡ s.outstanding
  pub pending_arrivals : t.pending_arrivals ≡ s.pending_arrivals
  pub accepted : t.accepted ≡ s.accepted
  pub bridges : t.bridges ≡ s.bridges
  pub returned : t.returned ≡ s.returned
  pub cleanup : t.cleanup ≡ s.cleanup
  pub terminals : t.terminals ≡ s.terminals
  pub completed : t.completed ≡ s.completed
  pub canceled : t.canceled ≡ s.canceled
  pub reasons : t.reasons ≡ s.reasons
  pub stop_seen : t.stop_seen ≡ s.stop_seen

noted-Inert : (p : Peer) (f : Frame) (s : History) → Inert s (noted p f (joined f s))
noted-Inert go f s = ground arith
noted-Inert java f s = ground arith

-- The whole handshake that lies behind a release.
pub record Released (b : Identity) (s t : History) : Type 0 where
  pub returned : Dict.get b.invocation s.returned ≡ some (b, "nil")
  pub no_bridge : Dict.get b.invocation s.bridges ≡ none
  pub was_open : Dict.get b.invocation s.outstanding ≡ some b
  pub accepted : elem b.invocation s.accepted ≡ true
  pub bound : bound_to s b.invocation b.worker ≡ true
  pub bounded : b.arrival ≤ last_arrival_of s b.invocation
  pub closed : Dict.get b.invocation t.outstanding ≡ none

release_step-Released :
    (b : Identity) (s n t : History) → Inv s → Inert s n → release_step b n ≡ ok t → Released b s t
unfolding release_step
release_step-Released b s n t v m h =
    let live = same_body_eq (Dict.get b.invocation n.outstanding) b in
    let back = returned_nil_eq (Dict.get b.invocation n.returned) b in
    let gone = Dict.get-remove b.invocation b.invocation n.outstanding in
    let gates = m.outstanding in
    let returns = m.returned in
    let same = string_eq.beq_iff b.invocation b.invocation in
    record {
      returned = ground (arith, back);
      no_bridge = elim (Option-cases (Dict.get b.invocation s.bridges)) [
        | inl e ↦ e
        | inr (x, e) ↦ ground (
          arith,
          live,
          back,
          v.bridge_outstanding b.invocation x e,
          v.bridge_fresh b.invocation x b "nil" e,
        )
      ];
      was_open = ground (arith, live);
      accepted = ground (arith, live, v.outstanding_accepted b.invocation b);
      bound = ground (arith, live, v.outstanding_bound b.invocation b);
      bounded = ground (arith, back, v.returned_old b.invocation b "nil");
      closed = ground (arith, gone, same);
    }

delivered-input :
    (c : Case) (b : Body) (effects : List String) (s t : History)
    → deliver c b input effects s ≡ ok t
    → t ≡ s
unfolding deliver
delivered-input c b effects s t h = ground arith

input-Inert :
    (c : Case) (p : Peer) (f : Frame) (effects : List String) (s t : History)
    → receive_step c p f input effects s ≡ ok t
    → Inert s t
input-Inert c p f effects s t h = elim (receive_step-Outcome c p f input effects s t h).1 [
  | dropped e ↦ ground arith
  | stale e ↦ ground arith
  | fresh next unseen g ↦
      let same =
        delivered-input c f.body effects (noted p f (joined f s)) t
          (fresh_step-deliver c p f input effects (joined f s) t g) in
      rw same (noted-Inert p f s)
]

module _ (sha256 : List ℕ → String) (c : Case) (s t : History) (step : Step) (f : Frame) where
  step-receive :
      (d : Delivery)
      → step.action ≡ receive f d
      → history_step sha256 c step s ≡ ok t
      → receive_step c step.peer f d step.expect s ≡ ok t
  unfolding act
  step-receive d e h =
      let go = history_step-act sha256 c step s t h in sym (ap (λ a. act sha256 c step a s) e) ∙ go

  -- A step that injects a frame changes no invocation, gate, bridge, completion, terminal,
  -- cancellation or stop of the case, whatever the frame.
  pub injected-Inert :
      step.action ≡ receive f input → history_step sha256 c step s ≡ ok t → Inert s t
  injected-Inert e h = input-Inert c step.peer f step.expect s t (step-receive input e h)

module _ (sha256 : List ℕ → String) (c : Case) (steps : List Step) (s t : History) (step : Step)
    (f : Frame) where
  -- In an accepted case, a `release` is exchanged only for the identity whose gate is open: its
  -- invocation was accepted for that worker, the runtime has returned nil for exactly this
  -- identity, no bridge waits for the invocation any more, and the gate is closed afterwards.
  pub release-Released :
      (b : Identity)
      → history sha256 c steps ≡ ok s
      → step.action ≡ receive f exchange
      → f.body ≡ release b
      → history_step sha256 c step s ≡ ok t
      → Released b s t
  unfolding exchange_step
  release-Released b accepts e body h =
      let taken =
        exchanged-delivered c step.peer f step.expect s t
          (step-receive sha256 c s t step f exchange e h) in
      let step_taken =
        sym (ap (λ a. exchange_step c a step.expect (noted step.peer f (joined f s))) body)
        ∙ taken in
      release_step-Released b s (noted step.peer f (joined f s)) t
        (history-Inv sha256 c steps s accepts) (noted-Inert step.peer f s) step_taken
