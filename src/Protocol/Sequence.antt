-- ===== src/Protocol/Sequence.antt =====
-- The sequence numbers that each receiver has taken, and the payloads under them.
use weavegate.Prelude.{
  ℕ, ◌+◌, List, [], ◌∷◌, String, ◌≡◌, sym, ap, ◌&&◌, Option, some, none, ◌∙◌, arith, length, leb,
  ltb, nat_eq, string_eq,
}
use weavegate.Prelude.Dict
use weavegate.Prelude.Dict.{Dict, is_some, length-put}
use weavegate.Prelude.Result.{ok, >>=-eq-ok}
use weavegate.Protocol.Message.{Peer, go, java, Body, Terminal, Frame, terminal, cancel}
use weavegate.Protocol.State.{
  Case, Step, Action, Delivery, Event, Facts, History, local, receive, input, exchange, completion,
}
use weavegate.Protocol.Local.{local_step, complete_for, or_first}
use weavegate.Protocol.Exchange.{
  exchange_step, accept_step, arrive_step, release_step, cancel_step, terminal_step, retire,
}
use weavegate.Protocol.Receive.{
  deliver, fresh_step, seen_by, act, history_step, run_steps, receive_step,
}
use weavegate.Protocol.Cases.{
  noted, joined, dropped, stale, fresh, receive_step-Outcome, fresh_step-deliver, history_step-act,
  seen_by-joined,
}

-- The sequence numbers taken are those from one to their number.
abbrev pub Dense : Dict ℕ String → Type 0
Dense d = (n : ℕ) → is_some (Dict.get n d) ≡ (ltb 0 n && leb n (length d))

-- What `t` has taken extends what `s` has: no payload is replaced.
abbrev pub Extends : Dict ℕ String → Dict ℕ String → Type 0
Extends d e = (n : ℕ) (x : String) → Dict.get n d ≡ some x → Dict.get n e ≡ some x

pub record Sequenced (s : History) : Type 0 where
  pub go_dense : Dense s.seq_go
  pub java_dense : Dense s.seq_java

record SameSeen (s t : History) : Type 0 where
  go_same : t.seq_go ≡ s.seq_go
  java_same : t.seq_java ≡ s.seq_java

pub record Taken (s t : History) : Type 0 where
  pub go_taken : Extends s.seq_go t.seq_go
  pub java_taken : Extends s.seq_java t.seq_java

put-Dense :
    (f : Frame) (d : Dict ℕ String)
    → f.seq ≡ length d + 1
    → Dict.get f.seq d ≡ none
    → Dense d
    → Dense (Dict.put f.seq f.payload d)
put-Dense f d next unseen w n = ground (
  arith,
  nat_eq.beq_iff f.seq n,
  Dict.get-put f.seq n f.payload d,
  length-put f.seq f.payload d unseen,
  w n,
)

put-Extends :
    (f : Frame) (d : Dict ℕ String)
    → Dict.get f.seq d ≡ none
    → Extends d (Dict.put f.seq f.payload d)
put-Extends f d unseen n x g =
    ground (arith, nat_eq.beq_iff f.seq n, Dict.get-put f.seq n f.payload d)

SameSeen-Sequenced : (s t : History) → SameSeen s t → Sequenced s → Sequenced t
SameSeen-Sequenced s t e w = record {
  go_dense = λ n. rw e.go_same (w.go_dense n);
  java_dense = λ n. rw e.java_same (w.java_dense n);
}

SameSeen-Taken : (s t : History) → SameSeen s t → Taken s t
SameSeen-Taken s t e = record {
  go_taken = λ n x g. ground (arith, e.go_same);
  java_taken = λ n x g. ground (arith, e.java_same);
}

Taken-trans : (s t u : History) → Taken s t → Taken t u → Taken s u
Taken-trans s t u h k = record {
  go_taken = λ n x g. k.go_taken n x (h.go_taken n x g);
  java_taken = λ n x g. k.java_taken n x (h.java_taken n x g);
}

noted-Sequenced :
    (p : Peer) (f : Frame) (s : History)
    → f.seq ≡ length (seen_by p s) + 1
    → Dict.get f.seq (seen_by p s) ≡ none
    → Sequenced s
    → Sequenced (noted p f s)
noted-Sequenced go f s next unseen w = record {
  go_dense = put-Dense f s.seq_go next unseen w.go_dense;
  java_dense = w.java_dense;
}
noted-Sequenced java f s next unseen w = record {
  go_dense = w.go_dense;
  java_dense = put-Dense f s.seq_java next unseen w.java_dense;
}

noted-Taken :
    (p : Peer) (f : Frame) (s : History)
    → Dict.get f.seq (seen_by p s) ≡ none
    → Taken s (noted p f s)
noted-Taken go f s unseen = record {
  go_taken = put-Extends f s.seq_go unseen;
  java_taken = λ n x g. g;
}
noted-Taken java f s unseen = record {
  go_taken = λ n x g. g;
  java_taken = put-Extends f s.seq_java unseen;
}

complete_for-SameSeen :
    (i : Option String) (f : Facts) (s s' : History) → complete_for i f s ≡ ok s' → SameSeen s s'
unfolding complete_for
complete_for-SameSeen none f s s' h = ground arith
complete_for-SameSeen (some i) f s s' h = ground arith

local_step-SameSeen :
    (sha256 : List ℕ → String) (p : Peer) (e : Event) (effects : List String) (s s' : History)
    → local_step sha256 p e effects s ≡ ok s'
    → SameSeen s s'
unfolding local_step
local_step-SameSeen sha256 java (completion i f) effects s s' h =
    complete_for-SameSeen (or_first i s.invocations) f s s' h
local_step-SameSeen sha256 p _ effects s s' h = ground arith

cancel_step-SameSeen :
    (c : Case) (i w r : String) (effects : List String) (s s' : History)
    → cancel_step c i w r effects s ≡ ok s'
    → SameSeen s s'
unfolding cancel_step
cancel_step-SameSeen c i w r effects s s' h = ground arith

terminal_step-SameSeen :
    (c : Case) (t : Terminal) (effects : List String) (s s' : History)
    → terminal_step c t effects s ≡ ok s'
    → SameSeen s s'
unfolding terminal_step retire
terminal_step-SameSeen c t effects s s' h = ground arith

deliver-SameSeen :
    (c : Case) (b : Body) (d : Delivery) (effects : List String) (s s' : History)
    → deliver c b d effects s ≡ ok s'
    → SameSeen s s'
unfolding deliver exchange_step accept_step arrive_step release_step
deliver-SameSeen c b input effects s s' h = ground arith
deliver-SameSeen c (cancel i w r) exchange effects s s' h =
    cancel_step-SameSeen c i w r effects s s' h
deliver-SameSeen c (terminal t) exchange effects s s' h = terminal_step-SameSeen c t effects s s' h
deliver-SameSeen c _ exchange effects s s' h = ground arith

module _ (c : Case) (p : Peer) (f : Frame) (d : Delivery) (effects : List String)
    (s s' : History) where
  fresh_step-SameSeen : fresh_step c p f d effects s ≡ ok s' → SameSeen (noted p f s) s'
  fresh_step-SameSeen h =
      deliver-SameSeen c f.body d effects (noted p f s) s'
        (fresh_step-deliver c p f d effects s s' h)

joined-Sequenced : (f : Frame) (s : History) → Sequenced s → Sequenced (joined f s)
joined-Sequenced f s w = record { go_dense = w.go_dense; java_dense = w.java_dense }

kept : (s t : History) → SameSeen s t → Sequenced s → Sequenced t × Taken s t
kept s t same w = (SameSeen-Sequenced s t same w, SameSeen-Taken s t same)

receive_step-Sequenced :
    (c : Case) (p : Peer) (f : Frame) (d : Delivery) (effects : List String) (s s' : History)
    → receive_step c p f d effects s ≡ ok s'
    → Sequenced s
    → Sequenced s' × Taken s s'
receive_step-Sequenced c p f d effects s s' h w =
    elim (receive_step-Outcome c p f d effects s s' h).1 [
      | dropped e ↦ kept s s' (ground arith) w
      | stale e ↦ kept s s' (ground arith) w
      | fresh next unseen g ↦
          let same = fresh_step-SameSeen c p f d effects (joined f s) s' g in
          let path = seen_by-joined p f s in
          let next' = next ∙ ap (λ d. length d + 1) (sym path) in
          let unseen' = ap (Dict.get f.seq) path ∙ unseen in
          let t = noted p f (joined f s) in
          (
            SameSeen-Sequenced t s' same
                (noted-Sequenced p f (joined f s) next' unseen' (joined-Sequenced f s w)),
            Taken-trans s t s'
                (Taken-trans s (joined f s) t (SameSeen-Taken s (joined f s) (ground arith))
                  (noted-Taken p f (joined f s) unseen'))
                (SameSeen-Taken t s' same),
          )
    ]

module _ (sha256 : List ℕ → String) (c : Case) where
  act-Sequenced :
      (step : Step) (a : Action) (s s' : History)
      → act sha256 c step a s ≡ ok s'
      → Sequenced s
      → Sequenced s' × Taken s s'
  unfolding act
  act-Sequenced step (local e) s s' h w =
      kept s s' (local_step-SameSeen sha256 step.peer e step.expect s s' h) w
  act-Sequenced step (receive f d) s s' h w =
      receive_step-Sequenced c step.peer f d step.expect s s' h w

  -- From a state in which each receiver has taken the sequence numbers from one on without a gap,
  -- an accepted run leads to such a state, and no payload under a taken number changes.
  pub run_steps-Sequenced :
      (steps : List Step) (s s' : History)
      → run_steps sha256 c steps s ≡ ok s'
      → Sequenced s
      → Sequenced s' × Taken s s'
  unfolding run_steps
  run_steps-Sequenced [] s s' h w = kept s s' (ground arith) w
  run_steps-Sequenced (step ∷ steps) s s' h w =
      let (t, first, rest) =
        >>=-eq-ok (history_step sha256 c step s) (run_steps sha256 c steps) h in
      let (v, taken) =
        act-Sequenced step step.action s t (history_step-act sha256 c step s t first) w in
      let (last, more) = run_steps-Sequenced steps t s' rest v in
      (last, Taken-trans s t s' taken more)
