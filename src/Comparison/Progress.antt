-- ===== src/Comparison/Progress.antt =====
-- `save_progress` and `retained_progress` of support.py: the checkpoint of a campaign.
use weavegate.Prelude.{
  ℕ, zero, suc, String, Bool, true, false, not, ◌&&◌, ◌||◌, Option, none, some, List, [], ◌∷◌,
  subset, length, ◌==◌, string_eq, nat_eq, list_eq, if◌then◌else◌,
}
use weavegate.Prelude.Result.{Result, Check, ok, err, ◌>>=◌, ◌>>◌, need}
use weavegate.Comparison.Trace.{Slot}
use weavegate.Comparison.Reduce.{slot_beq}

-- Why a campaign stopped, and at which slot.
pub record Stop : Type 0 where
  pub slot : String
  pub reason : String

-- `checkpoint.json`. The sealed slots are names with their digests; the registration is its text.
pub record Checkpoint : Type 0 where
  pub slots : List (String × String)
  pub active : Option String
  pub stopped : Option Stop
  pub registration : Option String
  pub complete : Bool

-- `slot.json`, as far as progress is concerned.
pub record SlotState : Type 0 where
  pub slot : Slot
  pub unsupported : Option String
  pub cleanup_proven : Bool
  pub stop : Option Stop

-- What is retained of a campaign. `verified` is `verify` of a slot's directory, `registered` is
-- `retained_registration`, and `declared` is the slot's entry of `unsupported_declarations`.
pub record Campaign : Type 0 where
  pub measurement : Bool
  pub names : List String
  pub verified : String → Check
  pub digest : String → String
  pub checkpoint : Result Checkpoint
  pub registered : Checkpoint → Result (Option String)
  pub state : String → Result SlotState
  pub declared : Slot → Option String
  pub command_exists : String → Bool
  -- `stopped.json`: absent, or what it holds.
  pub marker : Option (Result (Option Stop))

abbrev pub stop_beq : Option Stop → Option Stop → Bool
stop_beq none none = true
stop_beq (some a) (some b) = a.slot == b.slot && a.reason == b.reason
stop_beq _ _ = false

abbrev pub text_beq : Option String → Option String → Bool
text_beq none none = true
text_beq (some a) (some b) = a == b
text_beq _ _ = false

abbrev pub is_none {ℓ} : {A : Type ℓ} → Option A → Bool
is_none none = true
is_none (some _) = false

-- `slots[:n]`, and the IDs of slots.
unfoldable pub take : ℕ → List Slot → List Slot
take zero slots = []
take (suc n) [] = []
take (suc n) (s ∷ slots) = s ∷ take n slots

unfoldable pub ids : List Slot → List String
ids [] = []
ids (s ∷ slots) = s.id ∷ ids slots

unfoldable pub verify_all : Campaign → List String → Check
verify_all campaign [] = ok tt
verify_all campaign (n ∷ names) = do campaign.verified n; verify_all campaign names

sealed : Campaign → List String → List (String × String)
sealed campaign [] = []
sealed campaign (n ∷ names) = (n, campaign.digest n) ∷ sealed campaign names

same_entries : List (String × String) → List (String × String) → Bool
same_entries xs ys = within xs ys && within ys xs
  where
    holds : String → String → List (String × String) → Bool
    holds k v [] = false
    holds k v ((j, w) ∷ ys) = (j == k && w == v) || holds k v ys

    within : List (String × String) → List (String × String) → Bool
    within [] ys = true
    within ((k, v) ∷ xs) ys = holds k v ys && within xs ys

-- A declared slot was not executed; any other was cleaned, or the campaign stopped at it.
unfoldable pub slot_accounted : Campaign → Slot → SlotState → Check
slot_accounted campaign slot state =
    if is_none (campaign.declared slot)
    then need (state.cleanup_proven || not (is_none state.stop))
        "allocation cleanup unproven without sealed stop checkpoint"
    else need (not (campaign.command_exists slot.id)) "unsupported slot was executed/unregistered"

-- A stop is sealed in the last slot only.
unfoldable pub stop_check : Slot → Bool → Option Stop → Check
stop_check slot last none = ok tt
stop_check slot last (some stop) =
    need (stop.slot == slot.id && (not (stop.reason == "") && last))
      "slot follows sealed stop checkpoint"

abbrev pub latest : Option Stop → Option Stop → Option Stop
latest none before = before
latest (some stop) before = some stop

abbrev pub is_last : List Slot → Bool
is_last [] = true
is_last _ = false

unfoldable pub scan_slot : Campaign → Slot → Bool → Option Stop → Result (Option Stop)
scan_slot campaign slot last stopped = do
  state ← campaign.state slot.id
  need (slot_beq state.slot slot) "slot identity differs"
  need (text_beq state.unsupported (campaign.declared slot)) "unsupported slot declaration differs"
  slot_accounted campaign slot state
  stop_check slot last state.stop
  ok (latest state.stop stopped)

-- The loop over the consumed slots, with the stop that it has found.
unfoldable pub scan_slots : Campaign → List Slot → Option Stop → Result (Option Stop)
scan_slots campaign [] stopped = ok stopped
scan_slots campaign (slot ∷ rest) stopped = do
  found ← scan_slot campaign slot (is_last rest) stopped
  scan_slots campaign rest found

marker_check : Option (Result (Option Stop)) → Option Stop → Check
marker_check none stopped = ok tt
marker_check (some (err message)) stopped = err message
marker_check (some (ok marked)) stopped =
    need (stop_beq marked stopped) "stop marker differs from sealed checkpoint"

some_consumed : List String → Bool
some_consumed [] = false
some_consumed _ = true

unfoldable pub sealed_check : Campaign → Checkpoint → Check
unfolding sealed same_entries some_consumed
sealed_check campaign progress = do
  registration ← campaign.registered progress
  need
      (not (campaign.measurement && (some_consumed campaign.names || not (is_none progress.active)))
        || not (is_none registration))
      "registration missing from consumed checkpoint"
  need (same_entries progress.slots (sealed campaign campaign.names))
      "retained slots differ from progress checkpoint"
  need (is_none progress.active) "unfinished checkpoint; no replacement attempts"

-- `progress['complete'] is (...)`.
unfoldable pub completion_check : Campaign → List Slot → Checkpoint → Option Stop → Check
unfolding marker_check
completion_check campaign slots progress stopped = do
  need (stop_beq progress.stopped stopped) "stop differs from sealed checkpoint"
  need
      (if length campaign.names == length slots && is_none stopped
        then progress.complete
        else not progress.complete)
      "completion checkpoint differs from retained slots"
  marker_check campaign.marker stopped

unfoldable pub retained_progress : Campaign → List Slot → Result Checkpoint
retained_progress campaign slots =
    let consumed = take (length campaign.names) slots in
    do
      need (subset campaign.names (ids consumed) && subset (ids consumed) campaign.names)
          "consumed slots are not an ordered prefix"
      verify_all campaign campaign.names
      progress ← campaign.checkpoint
      sealed_check campaign progress
      stopped ← scan_slots campaign consumed none
      completion_check campaign slots progress stopped
      ok progress

-- The checkpoint that `save_progress` writes; `planned` is the number of slots of `order`.
unfoldable pub save_progress :
    ℕ → Option Checkpoint → List (String × String) → Option String → Option Stop → Checkpoint
save_progress planned old consumed active stopped = record {
  slots = consumed;
  active = active;
  stopped = stopped;
  registration = registration_of old;
  complete = length consumed == planned && (is_none active && is_none stopped);
}
  where
    registration_of : Option Checkpoint → Option String
    registration_of none = none
    registration_of (some c) = c.registration
