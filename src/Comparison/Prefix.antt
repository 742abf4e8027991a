-- ===== src/Comparison/Prefix.antt =====
-- What a retained campaign has done: an ordered prefix of its slots, without a gap.
use weavegate.Prelude.{
  Bool, true, false, ◌&&◌, Option, none, some, List, [], ◌∷◌, ◌≡◌, ◌⊎◌, ◌↔◌, refl, sym, ap, ◌∙◌,
  arith, subset, and-true, length, string_eq, nat_eq,
}
use weavegate.Prelude.Result.{Result, ok, need, need-eq-ok, >>=-eq-ok}
use weavegate.Comparison.Trace.{Slot}
use weavegate.Comparison.Progress.{
  Stop, Checkpoint, SlotState, Campaign, stop_beq, is_none, take, ids, slot_accounted, stop_check,
  is_last, scan_slot, scan_slots, verify_all, sealed_check, completion_check, retained_progress,
}

-- A slot that the campaign left behind: without a stop, and either declared unsupported and not
-- executed, or cleaned.
pub record Settled (campaign : Campaign) (slot : Slot) : Type 0 where
  pub state : SlotState
  pub read : campaign.state slot.id ≡ ok state
  pub unstopped : state.stop ≡ none
  pub accounted :
      ((is_none (campaign.declared slot) ≡ false) × (campaign.command_exists slot.id ≡ false))
      ⊎ (state.cleanup_proven ≡ true)

-- All of the slots but the last are settled.
unfoldable pub SettledBeforeLast : Campaign → List Slot → Type 0
SettledBeforeLast campaign [] = Unit
SettledBeforeLast campaign (slot ∷ rest) =
    (is_last rest ≡ false → Settled campaign slot) × SettledBeforeLast campaign rest

stop_check-early : (slot : Slot) (o : Option Stop) → stop_check slot false o ≡ ok tt → o ≡ none
unfolding stop_check
stop_check-early slot none h = refl
stop_check-early slot (some s) h = ground arith

slot_accounted-cases :
    (campaign : Campaign) (slot : Slot) (state : SlotState)
    → slot_accounted campaign slot state ≡ ok tt
    → state.stop ≡ none
    → ((is_none (campaign.declared slot) ≡ false) × (campaign.command_exists slot.id ≡ false))
      ⊎ (state.cleanup_proven ≡ true)
unfolding slot_accounted
slot_accounted-cases campaign slot state h e = ground arith

scan_slot-parts :
    (campaign : Campaign) (slot : Slot) (last : Bool) (stopped found : Option Stop)
    → scan_slot campaign slot last stopped ≡ ok found
    → (state : SlotState) × (campaign.state slot.id ≡ ok state)
      × (slot_accounted campaign slot state ≡ ok tt)
      × (stop_check slot last state.stop ≡ ok tt)
unfolding scan_slot
scan_slot-parts campaign slot last stopped found h =
    let (state, read, rest) = >>=-eq-ok (campaign.state slot.id) _ h in
    (state, read, ground arith, ground arith)

scan_slot-Settled :
    (campaign : Campaign) (slot : Slot) (stopped found : Option Stop)
    → scan_slot campaign slot false stopped ≡ ok found
    → Settled campaign slot
scan_slot-Settled campaign slot stopped found h =
    let (state, read, accounted, stop) = scan_slot-parts campaign slot false stopped found h in
    let unstopped = stop_check-early slot state.stop stop in
    record {
      state = state;
      read = read;
      unstopped = unstopped;
      accounted = slot_accounted-cases campaign slot state accounted unstopped;
    }

scan_slots-Settled :
    (campaign : Campaign) (slots : List Slot) (stopped found : Option Stop)
    → scan_slots campaign slots stopped ≡ ok found
    → SettledBeforeLast campaign slots
unfolding scan_slots SettledBeforeLast
scan_slots-Settled campaign [] stopped found h = tt
scan_slots-Settled campaign (slot ∷ rest) stopped found h =
    let (mid, first, later) =
      >>=-eq-ok (scan_slot campaign slot (is_last rest) stopped) (scan_slots campaign rest) h in
    (
      λ e.
          scan_slot-Settled campaign slot stopped mid
            (ap (λ b. scan_slot campaign slot b stopped) (sym e) ∙ first),
      scan_slots-Settled campaign rest mid found later,
    )

-- What a retained campaign shows.
pub record Retained (campaign : Campaign) (slots : List Slot) (progress : Checkpoint) : Type 0 where
  pub only_prefix : subset campaign.names (ids (take (length campaign.names) slots)) ≡ true
  pub whole_prefix : subset (ids (take (length campaign.names) slots)) campaign.names ≡ true
  pub settled : SettledBeforeLast campaign (take (length campaign.names) slots)
  pub idle : is_none progress.active ≡ true
  pub finished :
      (progress.complete ≡ true)
      ↔ ((length campaign.names ≡ length slots) × (is_none progress.stopped ≡ true))

sealed_check-idle :
    (campaign : Campaign) (progress : Checkpoint)
    → sealed_check campaign progress ≡ ok tt
    → is_none progress.active ≡ true
unfolding sealed_check
sealed_check-idle campaign progress h =
    let (registration, read, rest) = >>=-eq-ok (campaign.registered progress) _ h in ground arith

stop_beq-none : (a b : Option Stop) → stop_beq a b ≡ true → is_none a ≡ is_none b
stop_beq-none none none h = refl
stop_beq-none none (some b) h = cc
stop_beq-none (some a) none h = cc
stop_beq-none (some a) (some b) h = refl

completion_check-finished :
    (campaign : Campaign) (slots : List Slot) (progress : Checkpoint) (stopped : Option Stop)
    → completion_check campaign slots progress stopped ≡ ok tt
    → (progress.complete ≡ true)
      ↔ ((length campaign.names ≡ length slots) × (is_none progress.stopped ≡ true))
unfolding completion_check
completion_check-finished campaign slots progress stopped h = (
  λ c. ground (
    arith,
    stop_beq-none progress.stopped stopped,
    nat_eq.beq_iff (length campaign.names) (length slots),
  ),
  λ c. ground (
    arith,
    stop_beq-none progress.stopped stopped,
    nat_eq.beq_iff (length campaign.names) (length slots),
  ),
)

ok_injective : (a b : Checkpoint) → Result.ok a ≡ Result.ok b → a ≡ b
ok_injective a b h = ground arith

-- A campaign is taken up again only where it was left in order: the consumed slots are exactly the
-- first ones of the plan, all of them before the last one are settled, nothing is unfinished, and
-- the checkpoint says complete exactly when every planned slot is consumed and nothing stopped.
pub retained_progress-Retained :
    (campaign : Campaign) (slots : List Slot) (progress : Checkpoint)
    → retained_progress campaign slots ≡ ok progress
    → Retained campaign slots progress
unfolding retained_progress
retained_progress-Retained campaign slots progress h =
    let consumed = take (length campaign.names) slots in
    let (u, prefix, h1) =
      >>=-eq-ok
        (need (subset campaign.names (ids consumed) && subset (ids consumed) campaign.names)
          "consumed slots are not an ordered prefix")
        _ h in
    let (v, verified, h2) = >>=-eq-ok (verify_all campaign campaign.names) _ h1 in
    let (found, read, h3) = >>=-eq-ok campaign.checkpoint _ h2 in
    let (w, sealing, h4) = >>=-eq-ok (sealed_check campaign found) _ h3 in
    let (stopped, scanned, h5) = >>=-eq-ok (scan_slots campaign consumed none) _ h4 in
    let (x, completion, same) = >>=-eq-ok (completion_check campaign slots found stopped) _ h5 in
    let e : found ≡ progress = ok_injective found progress same in
    let both =
      need-eq-ok (subset campaign.names (ids consumed) && subset (ids consumed) campaign.names) _
        prefix in
    let (only, whole) =
      and-true (subset campaign.names (ids consumed)) (subset (ids consumed) campaign.names) both in
    record {
      only_prefix = only;
      whole_prefix = whole;
      settled = scan_slots-Settled campaign consumed none stopped scanned;
      idle =
          ap (λ (c : Checkpoint). is_none c.active) (sym e)
          ∙ sealed_check-idle campaign found sealing;
      finished = rw (sym e) (completion_check-finished campaign slots found stopped completion);
    }
