-- ===== src/Protocol/Invariant/Gate.antt =====
-- Arrivals, runtime returns and releases keep the invariant.
use weavegate.Prelude.{ℕ, List, ◌≤◌, String, ◌≡◌, arith, string_eq}
use weavegate.Prelude.Dict
use weavegate.Prelude.Dict.{get-put, get-remove}
use weavegate.Prelude.Result.{ok}
use weavegate.Protocol.Message.{Identity, same_body_eq, returned_nil_eq}
use weavegate.Protocol.State.{History, bound_to, last_arrival_of}
use weavegate.Protocol.Local.{worker_arrives_step, exhaust_arrivals_step, runtime_return_step}
use weavegate.Protocol.Exchange.{arrive_step, release_step}
use weavegate.Protocol.Invariant.{Inv}

module _ (b : Identity) (s s' : History) where
  pub arrive_step-Inv : b.arrival ≤ 100000 → arrive_step b s ≡ ok s' → Inv s → Inv s'
  unfolding arrive_step bound_to last_arrival_of
  arrive_step-Inv a h v =
      let same = λ (i : String). string_eq.beq_iff b.invocation i in
      let put_outstanding = λ (i : String). get-put b.invocation i b s.outstanding in
      let put_bridges = λ (i : String). get-put b.invocation i b s.bridges in
      let gate = same_body_eq (Dict.get b.invocation s.pending_arrivals) b in
      let put_last = λ (i : String). get-put b.invocation i b.arrival s.last_arrival in
      record {
        accepted_bound = λ i e. ground (arith, v.accepted_bound i);
        outstanding_key = λ i c e. ground (arith, v.outstanding_key i c, same i, put_outstanding i);
        outstanding_bound =
            λ i c e. ground (arith, v.outstanding_bound i c, same i, put_outstanding i);
        outstanding_accepted =
            λ i c e. ground (arith, v.outstanding_accepted i c, same i, put_outstanding i);
        outstanding_alone = λ i c e. ground (
          arith,
          v.outstanding_alone i c,
          same i,
          put_outstanding i,
          get-remove b.invocation i s.pending_arrivals,
        );
        bridge_outstanding = λ i c e.
            ground (arith, v.bridge_outstanding i c, same i, put_outstanding i, put_bridges i);
        bridge_fresh = λ i c r x e f.
            ground
              (arith, v.bridge_fresh i c r x, v.pending_fresh i b r x, same i, put_bridges i, gate);
        pending_fresh = λ i c r x e f.
            ground (
              arith,
              v.pending_fresh i c r x,
              same i,
              get-remove b.invocation i s.pending_arrivals,
            );
        returned_old = λ i r x e.
            ground (arith, v.returned_old i r x, v.pending_fresh i b r x, same i, put_last i, gate);
        bridge_last = λ i c e. ground (arith, v.bridge_last i c, same i, put_bridges i, put_last i);
        last_bounded = λ i. ground (arith, v.last_bounded i, same i, put_last i);
        terminal_accepted = λ i t e. ground (arith, v.terminal_accepted i t);
        completed_terminal = λ i e. ground (arith, v.completed_terminal i);
        active_bound = λ w i e. ground (arith, v.active_bound w i);
      }

  pub worker_arrives_step-Inv : worker_arrives_step b s ≡ ok s' → Inv s → Inv s'
  unfolding worker_arrives_step bound_to last_arrival_of
  worker_arrives_step-Inv h v =
      let same = λ (i : String). string_eq.beq_iff b.invocation i in
      let put_pending = λ (i : String). get-put b.invocation i b s.pending_arrivals in
      record {
        accepted_bound = λ i e. ground (arith, v.accepted_bound i);
        outstanding_key = λ i c e. ground (arith, v.outstanding_key i c);
        outstanding_bound = λ i c e. ground (arith, v.outstanding_bound i c);
        outstanding_accepted = λ i c e. ground (arith, v.outstanding_accepted i c);
        outstanding_alone = λ i c e. ground (arith, v.outstanding_alone i c, same i, put_pending i);
        bridge_outstanding = λ i c e. ground (arith, v.bridge_outstanding i c);
        bridge_fresh = λ i c r x e f. ground (arith, v.bridge_fresh i c r x);
        pending_fresh = λ i c r x e f.
            ground (arith, v.pending_fresh i c r x, v.returned_old i r x, same i, put_pending i);
        returned_old = λ i r x e. ground (arith, v.returned_old i r x);
        bridge_last = λ i c e. ground (arith, v.bridge_last i c);
        last_bounded = λ i. ground (arith, v.last_bounded i);
        terminal_accepted = λ i t e. ground (arith, v.terminal_accepted i t);
        completed_terminal = λ i e. ground (arith, v.completed_terminal i);
        active_bound = λ w i e. ground (arith, v.active_bound w i);
      }

  pub runtime_return_step-Inv :
      (result : String) → runtime_return_step b result s ≡ ok s' → Inv s → Inv s'
  unfolding runtime_return_step bound_to last_arrival_of
  runtime_return_step-Inv result h v =
      let same = λ (i : String). string_eq.beq_iff b.invocation i in
      let put_returned = λ (i : String). get-put b.invocation i (b, result) s.returned in
      let live = same_body_eq (Dict.get b.invocation s.outstanding) b in
      let bridge = same_body_eq (Dict.get b.invocation s.bridges) b in
      let rest = λ (i : String). get-remove b.invocation i s.bridges in
      record {
        accepted_bound = λ i e. ground (arith, v.accepted_bound i);
        outstanding_key = λ i c e. ground (arith, v.outstanding_key i c);
        outstanding_bound = λ i c e. ground (arith, v.outstanding_bound i c);
        outstanding_accepted = λ i c e. ground (arith, v.outstanding_accepted i c);
        outstanding_alone = λ i c e. ground (arith, v.outstanding_alone i c);
        bridge_outstanding = λ i c e. ground (arith, v.bridge_outstanding i c, rest i);
        bridge_fresh =
            λ i c r x e f. ground (arith, v.bridge_fresh i c r x, same i, rest i, put_returned i);
        pending_fresh = λ i c r x e f.
            ground (
              arith,
              v.pending_fresh i c r x,
              same i,
              put_returned i,
              v.outstanding_alone i b,
              live,
            );
        returned_old = λ i r x e.
            ground (arith, v.returned_old i r x, same i, put_returned i, v.bridge_last i r, bridge);
        bridge_last = λ i c e. ground (arith, v.bridge_last i c, rest i);
        last_bounded = λ i. ground (arith, v.last_bounded i);
        terminal_accepted = λ i t e. ground (arith, v.terminal_accepted i t);
        completed_terminal = λ i e. ground (arith, v.completed_terminal i);
        active_bound = λ w i e. ground (arith, v.active_bound w i);
      }

  pub release_step-Inv : release_step b s ≡ ok s' → Inv s → Inv s'
  unfolding release_step bound_to last_arrival_of
  release_step-Inv h v =
      let same = λ (i : String). string_eq.beq_iff b.invocation i in
      let live = same_body_eq (Dict.get b.invocation s.outstanding) b in
      let back = returned_nil_eq (Dict.get b.invocation s.returned) b in
      let rest = λ (i : String). get-remove b.invocation i s.outstanding in
      record {
        accepted_bound = λ i e. ground (arith, v.accepted_bound i);
        outstanding_key = λ i c e. ground (arith, v.outstanding_key i c, rest i);
        outstanding_bound = λ i c e. ground (arith, v.outstanding_bound i c, rest i);
        outstanding_accepted = λ i c e. ground (arith, v.outstanding_accepted i c, rest i);
        outstanding_alone = λ i c e. ground (arith, v.outstanding_alone i c, rest i);
        bridge_outstanding = λ i c e. ground (
          arith,
          v.bridge_outstanding i c,
          same i,
          rest i,
          live,
          back,
          v.bridge_fresh i c b "nil",
        );
        bridge_fresh = λ i c r x e f. ground (arith, v.bridge_fresh i c r x);
        pending_fresh = λ i c r x e f. ground (arith, v.pending_fresh i c r x);
        returned_old = λ i r x e. ground (arith, v.returned_old i r x);
        bridge_last = λ i c e. ground (arith, v.bridge_last i c);
        last_bounded = λ i. ground (arith, v.last_bounded i);
        terminal_accepted = λ i t e. ground (arith, v.terminal_accepted i t);
        completed_terminal = λ i e. ground (arith, v.completed_terminal i);
        active_bound = λ w i e. ground (arith, v.active_bound w i);
      }

pub exhaust_arrivals_step-Inv :
    (i : String) (limit : ℕ) (effects : List String) (s s' : History)
    → exhaust_arrivals_step i limit effects s ≡ ok s'
    → Inv s
    → Inv s'
unfolding exhaust_arrivals_step bound_to last_arrival_of
exhaust_arrivals_step-Inv k limit effects s s' h v =
    let put_last = λ (i : String). get-put k i 100000 s.last_arrival in
    record {
      accepted_bound = λ i e. ground (arith, v.accepted_bound i);
      outstanding_key = λ i c e. ground (arith, v.outstanding_key i c);
      outstanding_bound = λ i c e. ground (arith, v.outstanding_bound i c);
      outstanding_accepted = λ i c e. ground (arith, v.outstanding_accepted i c);
      outstanding_alone = λ i c e. ground (arith, v.outstanding_alone i c);
      bridge_outstanding = λ i c e. ground (arith, v.bridge_outstanding i c);
      bridge_fresh = λ i c r x e f. ground (arith, v.bridge_fresh i c r x);
      pending_fresh = λ i c r x e f. ground (arith, v.pending_fresh i c r x);
      returned_old = λ i r x e. ground (arith, v.returned_old i r x, v.last_bounded i, put_last i);
      bridge_last = λ i c e. ground (arith, v.bridge_last i c, v.last_bounded i, put_last i);
      last_bounded = λ i. ground (arith, v.last_bounded i, put_last i);
      terminal_accepted = λ i t e. ground (arith, v.terminal_accepted i t);
      completed_terminal = λ i e. ground (arith, v.completed_terminal i);
      active_bound = λ w i e. ground (arith, v.active_bound w i);
    }
