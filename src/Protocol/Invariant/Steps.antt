-- ===== src/Protocol/Invariant/Steps.antt =====
-- Every step of an accepted history keeps the invariant.
use weavegate.Prelude.{
  ℕ, ◌≤◌, List, [], ◌∷◌, String, ◌≡◌, refl, some, none, arith, Option, nat_eq, string_eq,
}
use weavegate.Prelude.Result.{ok, >>=-eq-ok}
use weavegate.Protocol.Message.{
  Peer, go, java, Body, Frame, accepted, arrive, release, terminal, cancel,
}
use weavegate.Protocol.Shape.{frame_shape, frame_shape-arrive}
use weavegate.Protocol.State.{
  Case, Facts, Step, Action, Delivery, Event, History, local, receive, input, exchange, invoke_call,
  worker_arrives, exhaust_arrivals, runtime_arrive_returns, completion, bound_to, last_arrival_of,
}
use weavegate.Protocol.Local.{local_step, complete_for, or_first}
use weavegate.Protocol.Exchange.{exchange_step, cancel_step}
use weavegate.Protocol.Receive.{deliver, fresh_step, receive_step, act, history_step, run_steps}
use weavegate.Protocol.Cases.{
  noted, joined, dropped, stale, fresh, fresh_step-deliver, receive_step-Outcome, history_step-act,
}
use weavegate.Protocol.Invariant.{Inv}
use weavegate.Protocol.Invariant.Gate.{
  arrive_step-Inv, worker_arrives_step-Inv, runtime_return_step-Inv, release_step-Inv,
  exhaust_arrivals_step-Inv,
}
use weavegate.Protocol.Invariant.Calls.{accept_step-Inv, invoke_call_step-Inv, terminal_step-Inv}

-- The variables that the invariant reads.
pub record SameMaps (s t : History) : Type 0 where
  pub invocations : t.invocations ≡ s.invocations
  pub active : t.active ≡ s.active
  pub outstanding : t.outstanding ≡ s.outstanding
  pub completed : t.completed ≡ s.completed
  pub pending_arrivals : t.pending_arrivals ≡ s.pending_arrivals
  pub last_arrival : t.last_arrival ≡ s.last_arrival
  pub accepted : t.accepted ≡ s.accepted
  pub bridges : t.bridges ≡ s.bridges
  pub returned : t.returned ≡ s.returned
  pub terminals : t.terminals ≡ s.terminals

SameMaps-Inv : (s t : History) → SameMaps s t → Inv s → Inv t
unfolding bound_to last_arrival_of
SameMaps-Inv s t m v = record {
  accepted_bound = λ i e. ground (arith, v.accepted_bound i);
  outstanding_key = λ i c e. ground (arith, v.outstanding_key i c);
  outstanding_bound = λ i c e. ground (arith, v.outstanding_bound i c);
  outstanding_accepted = λ i c e. ground (arith, v.outstanding_accepted i c);
  outstanding_alone = λ i c e. ground (arith, v.outstanding_alone i c);
  bridge_outstanding = λ i c e. ground (arith, v.bridge_outstanding i c);
  bridge_fresh = λ i c r x e f. ground (arith, v.bridge_fresh i c r x);
  pending_fresh = λ i c r x e f. ground (arith, v.pending_fresh i c r x);
  returned_old = λ i r x e. ground (arith, v.returned_old i r x);
  bridge_last = λ i c e. ground (arith, v.bridge_last i c);
  last_bounded = λ i. ground (arith, v.last_bounded i);
  terminal_accepted = λ i t e. ground (arith, v.terminal_accepted i t);
  completed_terminal = λ i e. ground (arith, v.completed_terminal i);
  active_bound = λ w i e. ground (arith, v.active_bound w i);
}

complete_for-SameMaps :
    (i : Option String) (f : Facts) (s s' : History) → complete_for i f s ≡ ok s' → SameMaps s s'
unfolding complete_for
complete_for-SameMaps none f s s' h = ground arith
complete_for-SameMaps (some i) f s s' h = ground arith

module _ (sha256 : List ℕ → String) where
  local_step-Inv :
      (p : Peer) (e : Event) (effects : List String) (s s' : History)
      → local_step sha256 p e effects s ≡ ok s'
      → Inv s
      → Inv s'
  unfolding local_step
  local_step-Inv go (invoke_call i w c) effects s s' h v = invoke_call_step-Inv s s' i w c h v
  local_step-Inv java (worker_arrives b) effects s s' h v = worker_arrives_step-Inv b s s' h v
  local_step-Inv p (exhaust_arrivals i n) effects s s' h v =
      exhaust_arrivals_step-Inv i n effects s s' h v
  local_step-Inv go (runtime_arrive_returns b r) effects s s' h v =
      runtime_return_step-Inv b s s' r h v
  local_step-Inv java (completion i f) effects s s' h v =
      SameMaps-Inv s s' (complete_for-SameMaps (or_first i s.invocations) f s s' h) v
  local_step-Inv p _ effects s s' h v = SameMaps-Inv s s' (ground arith) v

cancel_step-SameMaps :
    (c : Case) (i w r : String) (effects : List String) (s s' : History)
    → cancel_step c i w r effects s ≡ ok s'
    → SameMaps s s'
unfolding cancel_step
cancel_step-SameMaps c i w r effects s s' h = ground arith

-- The `arrive` case asks for the limit that `frame_shape` has tested.
abbrev Bounded : Body → Type 0
Bounded (arrive b) = b.arrival ≤ 100000
Bounded _ = Unit

exchange_step-Inv :
    (c : Case) (b : Body) (effects : List String) (s s' : History)
    → Bounded b
    → exchange_step c b effects s ≡ ok s'
    → Inv s
    → Inv s'
unfolding exchange_step
exchange_step-Inv c (accepted i w) effects s s' k h v = accept_step-Inv s s' i w h v
exchange_step-Inv c (arrive b) effects s s' k h v = arrive_step-Inv b s s' k h v
exchange_step-Inv c (release b) effects s s' k h v = release_step-Inv b s s' h v
exchange_step-Inv c (cancel i w r) effects s s' k h v =
    SameMaps-Inv s s' (cancel_step-SameMaps c i w r effects s s' h) v
exchange_step-Inv c (terminal t) effects s s' k h v = terminal_step-Inv s s' c t effects h v
exchange_step-Inv c _ effects s s' k h v = SameMaps-Inv s s' (ground arith) v

deliver-Inv :
    (c : Case) (b : Body) (d : Delivery) (effects : List String) (s s' : History)
    → Bounded b
    → deliver c b d effects s ≡ ok s'
    → Inv s
    → Inv s'
unfolding deliver
deliver-Inv c b input effects s s' k h v = SameMaps-Inv s s' (ground arith) v
deliver-Inv c b exchange effects s s' k h v = exchange_step-Inv c b effects s s' k h v

noted-SameMaps : (p : Peer) (f : Frame) (s : History) → SameMaps s (noted p f s)
noted-SameMaps go f s = ground arith
noted-SameMaps java f s = ground arith

fresh_step-Inv :
    (c : Case) (p : Peer) (f : Frame) (d : Delivery) (effects : List String) (s s' : History)
    → Bounded f.body
    → fresh_step c p f d effects s ≡ ok s'
    → Inv s
    → Inv s'
fresh_step-Inv c p f d effects s s' k h v =
    deliver-Inv c f.body d effects (noted p f s) s' k (fresh_step-deliver c p f d effects s s' h)
      (SameMaps-Inv s (noted p f s) (noted-SameMaps p f s) v)

shape-Bounded : (f : Frame) (b : Body) → f.body ≡ b → frame_shape f ≡ ok tt → Bounded b
shape-Bounded f (arrive b) e h = frame_shape-arrive f b e h
shape-Bounded f _ e h = tt

receive_step-Inv :
    (c : Case) (p : Peer) (f : Frame) (d : Delivery) (effects : List String) (s s' : History)
    → receive_step c p f d effects s ≡ ok s'
    → Inv s
    → Inv s'
receive_step-Inv c p f d effects s s' h v =
    let (shape, outcome) = receive_step-Outcome c p f d effects s s' h in
    let w : Inv (joined f s) = SameMaps-Inv s (joined f s) (ground arith) v in
    elim outcome [
      | dropped e ↦ rw e v
      | stale e ↦ rw e w
      | fresh next unseen g ↦
          fresh_step-Inv c p f d effects (joined f s) s' (shape-Bounded f f.body refl shape) g w
    ]

module _ (sha256 : List ℕ → String) (c : Case) where
  act-Inv :
      (step : Step) (a : Action) (s s' : History) → act sha256 c step a s ≡ ok s' → Inv s → Inv s'
  unfolding act
  act-Inv step (local e) s s' h v = local_step-Inv sha256 step.peer e step.expect s s' h v
  act-Inv step (receive f d) s s' h v = receive_step-Inv c step.peer f d step.expect s s' h v

  pub history_step-Inv :
      (step : Step) (s s' : History) → history_step sha256 c step s ≡ ok s' → Inv s → Inv s'
  history_step-Inv step s s' h v =
      act-Inv step step.action s s' (history_step-act sha256 c step s s' h) v

  -- From a state in which the maps agree, an accepted run of steps leads to one in which they agree.
  pub run_steps-Inv :
      (steps : List Step) (s s' : History) → run_steps sha256 c steps s ≡ ok s' → Inv s → Inv s'
  unfolding run_steps
  run_steps-Inv [] s s' h v = ground arith
  run_steps-Inv (step ∷ steps) s s' h v =
      let (t, first, rest) =
        >>=-eq-ok (history_step sha256 c step s) (run_steps sha256 c steps) h in
      run_steps-Inv steps t s' rest (history_step-Inv step s t first v)
