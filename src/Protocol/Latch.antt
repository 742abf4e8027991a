-- ===== src/Protocol/Latch.antt =====
-- After `fatal` the frames of a session open, release and end nothing.
use weavegate.Prelude.{
  ℕ, List, [], ◌∷◌, String, ◌≡◌, true, Option, some, none, arith, nat_eq, string_eq,
}
use weavegate.Prelude.Result.{ok, >>=-eq-ok}
use weavegate.Protocol.Message.{Peer, go, java, Body, Frame, stop, fatal}
use weavegate.Protocol.State.{
  Case, Step, Action, Delivery, Event, Facts, History, local, receive, input, exchange, completion,
}
use weavegate.Protocol.Local.{local_step, complete_for, or_first}
use weavegate.Protocol.Exchange.{exchange_step}
use weavegate.Protocol.Receive.{
  deliver, fresh_step, receive_step, allowed_after_fatal, act, history_step, run_steps,
}
use weavegate.Protocol.Cases.{
  noted, joined, dropped, stale, fresh, receive_step-Outcome, history_step-act,
}

-- What only frames before `fatal` change.
pub record Frozen (s t : History) : Type 0 where
  pub accepted : t.accepted ≡ s.accepted
  pub outstanding : t.outstanding ≡ s.outstanding
  pub terminals : t.terminals ≡ s.terminals
  pub completed : t.completed ≡ s.completed
  pub fatal_seen : t.fatal_seen ≡ true

Frozen-trans : (s t u : History) → Frozen s t → Frozen t u → Frozen s u
Frozen-trans s t u h k = ground arith

complete_for-Frozen :
    (i : Option String) (f : Facts) (s s' : History)
    → s.fatal_seen ≡ true
    → complete_for i f s ≡ ok s'
    → Frozen s s'
unfolding complete_for
complete_for-Frozen none f s s' l h = ground arith
complete_for-Frozen (some i) f s s' l h = ground arith

-- No local event opens, releases or ends anything.
local_step-Frozen :
    (sha256 : List ℕ → String) (p : Peer) (e : Event) (effects : List String) (s s' : History)
    → s.fatal_seen ≡ true
    → local_step sha256 p e effects s ≡ ok s'
    → Frozen s s'
unfolding local_step
local_step-Frozen sha256 java (completion i f) effects s s' l h =
    complete_for-Frozen (or_first i s.invocations) f s s' l h
local_step-Frozen sha256 p _ effects s s' l h = ground arith

-- Of the frames that a latched session may still see, none changes more than `stop_seen`.
deliver-Frozen :
    (c : Case) (b : Body) (d : Delivery) (effects : List String) (s s' : History)
    → allowed_after_fatal b effects ≡ true
    → s.fatal_seen ≡ true
    → deliver c b d effects s ≡ ok s'
    → Frozen s s'
unfolding deliver exchange_step
deliver-Frozen c (fatal k m) input effects s s' a l h = ground arith
deliver-Frozen c (fatal k m) exchange effects s s' a l h = ground arith
deliver-Frozen c (stop ms) input effects s s' a l h = ground arith
deliver-Frozen c (stop ms) exchange effects s s' a l h = ground arith
deliver-Frozen c _ d effects s s' a l h = cc

-- A latched session takes a fresh frame only if it is `fatal` or a best-effort `stop`.
fresh_step-allowed :
    (c : Case) (p : Peer) (f : Frame) (d : Delivery) (effects : List String) (s s' : History)
    → s.fatal_seen ≡ true
    → fresh_step c p f d effects s ≡ ok s'
    → (allowed_after_fatal f.body effects ≡ true)
      × (deliver c f.body d effects (noted p f s) ≡ ok s')
unfolding fresh_step
fresh_step-allowed c p f d effects s s' l h = ground arith

noted-Frozen : (p : Peer) (f : Frame) (s : History) → s.fatal_seen ≡ true → Frozen s (noted p f s)
noted-Frozen go f s l = ground arith
noted-Frozen java f s l = ground arith

fresh_step-Frozen :
    (c : Case) (p : Peer) (f : Frame) (d : Delivery) (effects : List String) (s s' : History)
    → s.fatal_seen ≡ true
    → fresh_step c p f d effects s ≡ ok s'
    → Frozen s s'
fresh_step-Frozen c p f d effects s s' l h =
    let (allowed, step) = fresh_step-allowed c p f d effects s s' l h in
    let n = noted-Frozen p f s l in
    Frozen-trans s (noted p f s) s' n
      (deliver-Frozen c f.body d effects (noted p f s) s' allowed n.fatal_seen step)

receive_step-Frozen :
    (c : Case) (p : Peer) (f : Frame) (d : Delivery) (effects : List String) (s s' : History)
    → s.fatal_seen ≡ true
    → receive_step c p f d effects s ≡ ok s'
    → Frozen s s'
receive_step-Frozen c p f d effects s s' l h =
    elim (receive_step-Outcome c p f d effects s s' h).1 [
      | dropped e ↦ ground arith
      | stale e ↦ ground arith
      | fresh next unseen g ↦
          let k = fresh_step-Frozen c p f d effects (joined f s) s' l g in
          Frozen-trans s (joined f s) s' (ground arith) k
    ]

module _ (sha256 : List ℕ → String) (c : Case) where
  act-Frozen :
      (step : Step) (a : Action) (s s' : History)
      → s.fatal_seen ≡ true
      → act sha256 c step a s ≡ ok s'
      → Frozen s s'
  unfolding act
  act-Frozen step (local e) s s' l h = local_step-Frozen sha256 step.peer e step.expect s s' l h
  act-Frozen step (receive f d) s s' l h = receive_step-Frozen c step.peer f d step.expect s s' l h

  -- Once a fatal frame was seen, whatever steps follow in an accepted history: no invocation is
  -- accepted, no gate opens or is released, no terminal is recorded, no invocation is retired, and
  -- the fault stays latched.
  pub run_steps-Frozen :
      (steps : List Step) (s s' : History)
      → s.fatal_seen ≡ true
      → run_steps sha256 c steps s ≡ ok s'
      → Frozen s s'
  unfolding run_steps
  run_steps-Frozen [] s s' l h = ground arith
  run_steps-Frozen (step ∷ steps) s s' l h =
      let (t, first, rest) =
        >>=-eq-ok (history_step sha256 c step s) (run_steps sha256 c steps) h in
      let k = act-Frozen step step.action s t l (history_step-act sha256 c step s t first) in
      Frozen-trans s t s' k (run_steps-Frozen steps t s' k.fatal_seen rest)
