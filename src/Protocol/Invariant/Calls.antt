-- ===== src/Protocol/Invariant/Calls.antt =====
-- Calls, acceptances and terminals keep the invariant.
use weavegate.Prelude.{List, String, ◌≡◌, arith, string_eq}
use weavegate.Prelude.Dict
use weavegate.Prelude.Dict.{get-put, get-remove}
use weavegate.Prelude.Result.{ok}
use weavegate.Protocol.Message.{Terminal}
use weavegate.Protocol.State.{Case, History, bound_to, last_arrival_of}
use weavegate.Protocol.Local.{invoke_call_step}
use weavegate.Protocol.Exchange.{accept_step, terminal_step, terminal_guard, retire}
use weavegate.Protocol.Invariant.{Inv}

module _ (s s' : History) where
  pub accept_step-Inv : (k w : String) → accept_step k w s ≡ ok s' → Inv s → Inv s'
  unfolding accept_step bound_to last_arrival_of
  accept_step-Inv k w h v =
      let same = λ (i : String). string_eq.beq_iff k i in
      let new = λ (i : String). string_eq.beq_iff i k in
      record {
        accepted_bound = λ i e. ground (arith, v.accepted_bound i, same i, new i);
        outstanding_key = λ i c e. ground (arith, v.outstanding_key i c);
        outstanding_bound = λ i c e. ground (arith, v.outstanding_bound i c);
        outstanding_accepted = λ i c e. ground (arith, v.outstanding_accepted i c, same i, new i);
        outstanding_alone = λ i c e. ground (arith, v.outstanding_alone i c);
        bridge_outstanding = λ i c e. ground (arith, v.bridge_outstanding i c);
        bridge_fresh = λ i c r x e f. ground (arith, v.bridge_fresh i c r x);
        pending_fresh = λ i c r x e f. ground (arith, v.pending_fresh i c r x);
        returned_old = λ i r x e. ground (arith, v.returned_old i r x);
        bridge_last = λ i c e. ground (arith, v.bridge_last i c);
        last_bounded = λ i. ground (arith, v.last_bounded i);
        terminal_accepted = λ i t e. ground (arith, v.terminal_accepted i t, same i, new i);
        completed_terminal = λ i e. ground (arith, v.completed_terminal i);
        active_bound = λ w i e. ground (arith, v.active_bound w i);
      }

  pub invoke_call_step-Inv : (k w c : String) → invoke_call_step k w c s ≡ ok s' → Inv s → Inv s'
  unfolding invoke_call_step bound_to last_arrival_of
  invoke_call_step-Inv k w' c' h v =
      let put_call = λ (i : String). get-put k i (w', c') s.invocations in
      let same = λ (i : String). string_eq.beq_iff k i in
      let put_active = λ (w : String). get-put w' w k s.active in
      record {
        accepted_bound = λ i e. ground (arith, v.accepted_bound i, put_call i);
        outstanding_key = λ i c e. ground (arith, v.outstanding_key i c);
        outstanding_bound = λ i c e. ground (arith, v.outstanding_bound i c, put_call i, same i);
        outstanding_accepted = λ i c e. ground (arith, v.outstanding_accepted i c);
        outstanding_alone = λ i c e. ground (arith, v.outstanding_alone i c);
        bridge_outstanding = λ i c e. ground (arith, v.bridge_outstanding i c);
        bridge_fresh = λ i c r x e f. ground (arith, v.bridge_fresh i c r x);
        pending_fresh = λ i c r x e f. ground (arith, v.pending_fresh i c r x);
        returned_old = λ i r x e. ground (arith, v.returned_old i r x);
        bridge_last = λ i c e. ground (arith, v.bridge_last i c);
        last_bounded = λ i. ground (arith, v.last_bounded i);
        terminal_accepted = λ i t e. ground (arith, v.terminal_accepted i t);
        completed_terminal = λ i e. ground (arith, v.completed_terminal i);
        active_bound = λ w i e.
            ground
              (arith, v.active_bound w i, put_call i, put_active w, same i, string_eq.beq_iff w' w);
      }

  retire-Inv :
      (u : Terminal) (effects : List String)
      → terminal_guard u s ≡ ok tt
      → s'
        ≡ retire u effects (record s {
          outstanding = Dict.remove u.invocation s.outstanding;
          terminals = Dict.put u.invocation u s.terminals;
        })
      → Inv s
      → Inv s'
  unfolding terminal_guard retire bound_to last_arrival_of
  retire-Inv u effects guard h v =
      let same = λ (i : String). string_eq.beq_iff u.invocation i in
      let new = λ (i : String). string_eq.beq_iff i u.invocation in
      let rest = λ (i : String). get-remove u.invocation i s.outstanding in
      let idle = λ (w : String). get-remove u.worker w s.active in
      let ended = λ (i : String). get-put u.invocation i u s.terminals in
      record {
        accepted_bound = λ i e. ground (arith, v.accepted_bound i);
        outstanding_key = λ i c e. ground (arith, v.outstanding_key i c, rest i);
        outstanding_bound = λ i c e. ground (arith, v.outstanding_bound i c, rest i);
        outstanding_accepted = λ i c e. ground (arith, v.outstanding_accepted i c, rest i);
        outstanding_alone = λ i c e. ground (arith, v.outstanding_alone i c, rest i);
        bridge_outstanding = λ i c e. ground (arith, v.bridge_outstanding i c, rest i, same i);
        bridge_fresh = λ i c r x e f. ground (arith, v.bridge_fresh i c r x);
        pending_fresh = λ i c r x e f. ground (arith, v.pending_fresh i c r x);
        returned_old = λ i r x e. ground (arith, v.returned_old i r x);
        bridge_last = λ i c e. ground (arith, v.bridge_last i c);
        last_bounded = λ i. ground (arith, v.last_bounded i);
        terminal_accepted = λ i t e. ground (arith, v.terminal_accepted i t, ended i, same i);
        completed_terminal = λ i e. ground (arith, v.completed_terminal i, ended i, same i, new i);
        active_bound = λ w i e. ground (arith, v.active_bound w i, idle w);
      }

  pub terminal_step-Inv :
      (c : Case) (t : Terminal) (effects : List String)
      → terminal_step c t effects s ≡ ok s'
      → Inv s
      → Inv s'
  unfolding terminal_step
  terminal_step-Inv c t effects h v = retire-Inv t effects (ground arith) (ground arith) v
