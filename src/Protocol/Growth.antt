-- ===== src/Protocol/Growth.antt =====
-- What an accepted history never takes back.
use weavegate.Prelude.{
  ℕ, List, [], ◌∷◌, String, ◌≡◌, true, Option, some, none, arith, elem, nat_eq, string_eq,
}
use weavegate.Prelude.Dict
use weavegate.Prelude.Dict.{Dict, is_some}
use weavegate.Prelude.Result.{ok, >>=-eq-ok}
use weavegate.Protocol.Message.{
  Peer, go, java, Body, Terminal, Identity, Frame, accepted, arrive, release, terminal, cancel,
}
use weavegate.Protocol.State.{
  Case, Step, Action, Delivery, Event, Facts, History, local, receive, input, exchange, invoke_call,
  completion,
}
use weavegate.Protocol.Local.{local_step, complete_for, or_first, invoke_call_step}
use weavegate.Protocol.Exchange.{
  exchange_step, accept_step, arrive_step, release_step, cancel_step, terminal_guard, terminal_step,
  retire, set_default,
}
use weavegate.Protocol.Receive.{deliver, fresh_step, act, history_step, run_steps, receive_step}
use weavegate.Protocol.Cases.{
  noted, joined, dropped, stale, fresh, receive_step-Outcome, fresh_step-deliver, history_step-act,
}

pub record Grows (s t : History) : Type 0 where
  pub invocations :
      (i : String) (x : String × String)
      → Dict.get i s.invocations ≡ some x
      → Dict.get i t.invocations ≡ some x
  pub terminals :
      (i : String) (x : Terminal)
      → Dict.get i s.terminals ≡ some x
      → Dict.get i t.terminals ≡ some x
  pub reasons :
      (i : String) (x : String) → Dict.get i s.reasons ≡ some x → Dict.get i t.reasons ≡ some x
  pub accepted : (i : String) → elem i s.accepted ≡ true → elem i t.accepted ≡ true
  pub completed : (i : String) → elem i s.completed ≡ true → elem i t.completed ≡ true
  pub canceled : (i : String) → elem i s.canceled ≡ true → elem i t.canceled ≡ true
  pub binding : (b : String × String) → s.binding ≡ some b → t.binding ≡ some b
  pub fatal_seen : s.fatal_seen ≡ true → t.fatal_seen ≡ true

Grows-refl : (s t : History) → t ≡ s → Grows s t
Grows-refl s t e = ground arith

Grows-trans : (s t u : History) → Grows s t → Grows t u → Grows s u
Grows-trans s t u h k = record {
  invocations = λ i x g. k.invocations i x (h.invocations i x g);
  terminals = λ i x g. k.terminals i x (h.terminals i x g);
  reasons = λ i x g. k.reasons i x (h.reasons i x g);
  accepted = λ i g. k.accepted i (h.accepted i g);
  completed = λ i g. k.completed i (h.completed i g);
  canceled = λ i g. k.canceled i (h.canceled i g);
  binding = λ b g. k.binding b (h.binding b g);
  fatal_seen = λ g. k.fatal_seen (h.fatal_seen g);
}

invoke_call_step-Grows :
    (i w c : String) (s s' : History) → invoke_call_step i w c s ≡ ok s' → Grows s s'
unfolding invoke_call_step
invoke_call_step-Grows i w c s s' h = record {
  invocations =
      λ j x g. ground (arith, string_eq.beq_iff i j, Dict.get-put i j (w, c) s.invocations);
  terminals = λ j x g. ground arith;
  reasons = λ j x g. ground arith;
  accepted = λ j g. ground arith;
  completed = λ j g. ground arith;
  canceled = λ j g. ground arith;
  binding = λ b g. ground arith;
  fatal_seen = λ g. ground arith;
}

complete_for-Grows :
    (i : Option String) (f : Facts) (s s' : History) → complete_for i f s ≡ ok s' → Grows s s'
unfolding complete_for
complete_for-Grows none f s s' h = ground arith
complete_for-Grows (some i) f s s' h = ground arith

local_step-Grows :
    (sha256 : List ℕ → String) (p : Peer) (e : Event) (effects : List String) (s s' : History)
    → local_step sha256 p e effects s ≡ ok s'
    → Grows s s'
unfolding local_step
local_step-Grows sha256 java (completion i f) effects s s' h =
    complete_for-Grows (or_first i s.invocations) f s s' h
local_step-Grows sha256 go (invoke_call i w c) effects s s' h = invoke_call_step-Grows i w c s s' h
local_step-Grows sha256 p _ effects s s' h = ground arith

cancel_step-Grows :
    (c : Case) (i w r : String) (effects : List String) (s s' : History)
    → cancel_step c i w r effects s ≡ ok s'
    → Grows s s'
unfolding cancel_step set_default
cancel_step-Grows c i w r effects s s' h = record {
  invocations = λ j x g. ground arith;
  terminals = λ j x g. ground arith;
  reasons = λ j x g. ground (arith, string_eq.beq_iff i j, Dict.get-put i j r s.reasons);
  accepted = λ j g. ground arith;
  completed = λ j g. ground arith;
  canceled = λ j g. ground arith;
  binding = λ b g. ground arith;
  fatal_seen = λ g. ground arith;
}

terminal_guard-fresh :
    (t : Terminal) (s : History)
    → terminal_guard t s ≡ ok tt
    → is_some (Dict.get t.invocation s.terminals) ≡ true
    → ⊥
unfolding terminal_guard
terminal_guard-fresh t s h k = ground arith

terminal_step-parts :
    (c : Case) (t : Terminal) (effects : List String) (s s' : History)
    → terminal_step c t effects s ≡ ok s'
    → (terminal_guard t s ≡ ok tt)
      × (s'
          ≡ retire t effects (record s {
            outstanding = Dict.remove t.invocation s.outstanding;
            terminals = Dict.put t.invocation t s.terminals;
          }))
unfolding terminal_step
terminal_step-parts c t effects s s' h = ground arith

terminal_step-Grows :
    (c : Case) (t : Terminal) (effects : List String) (s s' : History)
    → terminal_step c t effects s ≡ ok s'
    → Grows s s'
unfolding retire
terminal_step-Grows c t effects s s' h =
    let (guard, e) = terminal_step-parts c t effects s s' h in
    let new = terminal_guard-fresh t s guard in
    record {
      invocations = λ j x g. ground arith;
      terminals = λ j x g.
          ground (
            arith,
            new,
            string_eq.beq_iff t.invocation j,
            Dict.get-put t.invocation j t s.terminals,
          );
      reasons = λ j x g. ground arith;
      accepted = λ j g. ground arith;
      completed = λ j g. ground arith;
      canceled = λ j g. ground arith;
      binding = λ b g. ground arith;
      fatal_seen = λ g. ground arith;
    }

accept_step-Grows : (i w : String) (s s' : History) → accept_step i w s ≡ ok s' → Grows s s'
unfolding accept_step
accept_step-Grows i w s s' h = ground arith

arrive_step-Grows : (b : Identity) (s s' : History) → arrive_step b s ≡ ok s' → Grows s s'
unfolding arrive_step
arrive_step-Grows b s s' h = ground arith

release_step-Grows : (b : Identity) (s s' : History) → release_step b s ≡ ok s' → Grows s s'
unfolding release_step
release_step-Grows b s s' h = ground arith

exchange_step-Grows :
    (c : Case) (b : Body) (effects : List String) (s s' : History)
    → exchange_step c b effects s ≡ ok s'
    → Grows s s'
unfolding exchange_step
exchange_step-Grows c (accepted i w) effects s s' h = accept_step-Grows i w s s' h
exchange_step-Grows c (arrive b) effects s s' h = arrive_step-Grows b s s' h
exchange_step-Grows c (release b) effects s s' h = release_step-Grows b s s' h
exchange_step-Grows c (cancel i w r) effects s s' h = cancel_step-Grows c i w r effects s s' h
exchange_step-Grows c (terminal t) effects s s' h = terminal_step-Grows c t effects s s' h
exchange_step-Grows c _ effects s s' h = ground arith

deliver-Grows :
    (c : Case) (b : Body) (d : Delivery) (effects : List String) (s s' : History)
    → deliver c b d effects s ≡ ok s'
    → Grows s s'
unfolding deliver
deliver-Grows c b input effects s s' h = ground arith
deliver-Grows c b exchange effects s s' h = exchange_step-Grows c b effects s s' h

noted-Grows : (p : Peer) (f : Frame) (s : History) → Grows s (noted p f s)
noted-Grows go f s = ground arith
noted-Grows java f s = ground arith

joined-Grows : (f : Frame) (s : History) → Grows s (joined f s)
joined-Grows f s = ground arith

fresh_step-Grows :
    (c : Case) (p : Peer) (f : Frame) (d : Delivery) (effects : List String) (s s' : History)
    → fresh_step c p f d effects s ≡ ok s'
    → Grows s s'
fresh_step-Grows c p f d effects s s' h =
    Grows-trans s (noted p f s) s' (noted-Grows p f s) (
      deliver-Grows c f.body d effects (noted p f s) s' (fresh_step-deliver c p f d effects s s' h))

receive_step-Grows :
    (c : Case) (p : Peer) (f : Frame) (d : Delivery) (effects : List String) (s s' : History)
    → receive_step c p f d effects s ≡ ok s'
    → Grows s s'
receive_step-Grows c p f d effects s s' h = elim (receive_step-Outcome c p f d effects s s' h).1 [
  | dropped e ↦ Grows-refl s s' e
  | stale e ↦ rw e (joined-Grows f s)
  | fresh next unseen g ↦
      Grows-trans s (joined f s) s' (joined-Grows f s)
        (fresh_step-Grows c p f d effects (joined f s) s' g)
]

module _ (sha256 : List ℕ → String) (c : Case) where
  act-Grows :
      (step : Step) (a : Action) (s s' : History) → act sha256 c step a s ≡ ok s' → Grows s s'
  unfolding act
  act-Grows step (local e) s s' h = local_step-Grows sha256 step.peer e step.expect s s' h
  act-Grows step (receive f d) s s' h = receive_step-Grows c step.peer f d step.expect s s' h

  -- Along any accepted run of steps, no invocation changes its worker or command, no terminal is
  -- replaced or lost, the first cancellation reason of an invocation stands, no invocation leaves
  -- the accepted, completed or cancelled ones, the session binding stays, and so does a fault.
  pub run_steps-Grows :
      (steps : List Step) (s s' : History) → run_steps sha256 c steps s ≡ ok s' → Grows s s'
  unfolding run_steps
  run_steps-Grows [] s s' h = Grows-refl s s' (ground arith)
  run_steps-Grows (step ∷ steps) s s' h =
      let (t, first, rest) =
        >>=-eq-ok (history_step sha256 c step s) (run_steps sha256 c steps) h in
      Grows-trans s t s' (act-Grows step step.action s t (history_step-act sha256 c step s t first))
        (run_steps-Grows steps t s' rest)
