-- ===== src/Comparison/Reduce.antt =====
-- `reduce_slot` and `detected_in_budget` of analyze.py: one slot's status from its sealed evidence.
use weavegate.Prelude.{
  ℕ, String, Bool, true, false, not, ◌&&◌, ◌||◌, Option, none, some, List, [], ◌∷◌, ◌++◌, leb, ltb,
  ◌==◌, string_eq, nat_eq, list_eq, if◌then◌else◌,
}
use weavegate.Prelude.Result.{Result, Check, ok, err, ◌>>=◌, ◌>>◌, need}
use weavegate.Prelude.Text.{Text, codes, after_prefix, has_text}
use weavegate.Comparison.Timing.{Membership, unknown, in_budget, membership}
use weavegate.Comparison.Trace.{Slot}

pub data SlotStatus : Type 0 where
  not_started unsupported preparation_failed operational_failed quality_failed budget_exhausted
        complete :
      SlotStatus

-- What `command_receipt` lets through; times are whole nanoseconds.
pub record Command : Type 0 where
  pub started : Bool
  pub finished : Bool
  pub interrupted : Bool
  pub timeout : Bool
  pub containment_proven : Bool
  pub seconds : ℕ
  pub error : Option String

-- `run.command.json`: absent, refused by `command_receipt`, or a receipt.
pub data RunCommand : Type 0 where
  absent : RunCommand
  refused : (started : Bool) (message : String) → RunCommand
  receipt : Command → RunCommand

-- What `baseline` or `product` makes of the original evidence.
pub record Evidence : Type 0 where
  pub quality_reasons : List String
  pub operational_reasons : List String
  pub evidence_absence : Option String
  pub receipt_valid : Option Bool
  pub first_event : Option (ℕ × ℕ)
  pub usable_first_event : Option (ℕ × ℕ)

-- `slot.json`. The collector's receipt time is absent, or a pair of numbers, or else.
pub data Received : Type 0 where
  not_recorded : Received
  recorded : Option (ℕ × ℕ) → Received

pub record State : Type 0 where
  pub slot : Slot
  pub unsupported : Option String
  pub integrity_errors : List String
  pub containment_errors : List String
  pub error : Option String
  pub cleanup_error : Option String
  pub interrupted : Bool
  pub cleanup_proven : Bool
  pub received : Received
  -- `none` where no observation is retained, else what `resource_observations` says of it.
  pub resources : Option Check

-- The sealed directory of a slot. `state` is `verify` and then the reading of `slot.json`.
pub record Files : Type 0 where
  pub exists : Bool
  pub state : Result State
  pub command : RunCommand
  pub baseline : Slot → Command → Result Evidence
  pub product : Slot → Command → Result Evidence

pub record Row : Type 0 where
  pub status : SlotStatus
  pub reasons : List String
  pub started : Bool
  pub evidence : Option Evidence
  pub cleanup_proven : Bool
  pub first_event_membership : Membership
  pub usable_evidence : Option (ℕ × ℕ)
  pub usable_membership : Membership

unfoldable pub slot_beq : Slot → Slot → Bool
slot_beq a b =
    a.id == b.id
    && (a.block == b.block
        && (a.cache == b.cache
            && (a.workload == b.workload
                && (a.variant == b.variant && (a.arm == b.arm && a.cap_seconds == b.cap_seconds)))))

abbrev same_text : Option String → Option String → Bool
same_text none none = true
same_text (some a) (some b) = a == b
same_text _ _ = false

unfoldable pub listed : Option String → List String
listed none = []
listed (some e) = if e == "" then [] else e ∷ []

unfoldable pub when : Bool → String → List String
when true reason = reason ∷ []
when false reason = []

-- Lifecycle failures of the collector.
unfoldable pub lifecycle : State → List String
unfolding listed when
lifecycle s =
    s.integrity_errors
    ++ s.containment_errors
    ++ listed s.error
    ++ listed s.cleanup_error
    ++ when s.interrupted "collector interrupted"
    ++ when (not s.cleanup_proven) "allocation cleanup unproven"

no_evidence : String → Evidence
no_evidence reason = record {
  quality_reasons = [];
  operational_reasons = reason ∷ [];
  evidence_absence = none;
  receipt_valid = none;
  first_event = none;
  usable_first_event = none;
}

or_invalid : Result Evidence → Evidence
unfolding no_evidence
or_invalid (ok e) = e
or_invalid (err message) = no_evidence "missing/invalid evidence"

-- `arm.startswith('B')`.
is_baseline : String → Bool
is_baseline arm = found (after_prefix (codes "B") (codes arm))
  where
    found : Option Text → Bool
    found none = false
    found (some _) = true

unfoldable pub evidence_of : Files → Slot → RunCommand → Evidence
unfolding no_evidence or_invalid is_baseline
evidence_of files slot absent = no_evidence "missing/invalid command receipt"
evidence_of files slot (refused started message) = no_evidence "missing/invalid command receipt"
evidence_of files slot (receipt c) =
    or_invalid (if is_baseline slot.arm then files.baseline slot c else files.product slot c)

is_empty : List String → Bool
is_empty [] = true
is_empty _ = false

abbrev or_else : Bool → Option Bool → Bool
or_else d none = d
or_else d (some b) = b

-- Whether a usable receipt may count: the evidence was read, is not absent, and is valid.
unfoldable pub evidence_valid : Files → Slot → RunCommand → Bool
unfolding is_empty is_baseline
evidence_valid files slot (receipt c) =
    of_result (if is_baseline slot.arm then files.baseline slot c else files.product slot c)
  where
    of_result : Result Evidence → Bool
    of_result (err message) = false
    of_result (ok e) =
        not (has_text e.evidence_absence) && or_else (is_empty e.quality_reasons) e.receipt_valid
evidence_valid files slot _ = false

unfoldable pub command_failures : RunCommand → List String
unfolding when
command_failures (receipt c) =
    when (has_text c.error || (not c.started || not c.containment_proven))
      "command spawn/containment failure"
    ++ when (not c.finished || c.interrupted) "command unfinished/interrupted"
command_failures _ = []

good_receipt : Command → Option (ℕ × ℕ) → Bool
good_receipt c none = false
good_receipt c (some (low, high)) = leb c.seconds low && low == high

-- The collector's receipt time, and the failure that an invalid one is.
unfoldable pub receipt_time : RunCommand → Received → Option (ℕ × ℕ) × List String
unfolding good_receipt
receipt_time (receipt c) (recorded times) =
    if good_receipt c times then (times, []) else (none, "invalid collector receipt time" ∷ [])
receipt_time _ _ = (none, [])

unfoldable pub resource_failures : Bool → Option Check → List String
resource_failures measurement (some (ok _)) = []
resource_failures measurement (some (err message)) = message ∷ []
resource_failures true none = "resource observation missing/invalid" ∷ []
resource_failures false none = []

-- `command['timeout'] or command['seconds'] > slot['cap_seconds']`; `None` is false.
unfoldable pub budget_expired : Slot → RunCommand → Bool
budget_expired slot (receipt c) = c.timeout || ltb slot.cap_seconds c.seconds
budget_expired slot _ = false

abbrev has_started : RunCommand → Bool
has_started absent = false
has_started (refused started message) = started
has_started (receipt c) = c.started

unfoldable pub status_of : List String → List String → Bool → SlotStatus
unfolding is_empty
status_of operational quality expired =
    if not (is_empty operational)
    then operational_failed
    else if not (is_empty quality)
    then quality_failed
    else if expired
    then budget_exhausted
    else complete

unfoldable pub operational_of : Files → Slot → Bool → State → List String
operational_of files slot measurement state =
    (evidence_of files slot files.command).operational_reasons
    ++ lifecycle state
    ++ command_failures files.command
    ++ (receipt_time files.command state.received).1
    ++ resource_failures measurement state.resources

unfoldable pub early : SlotStatus → List String → Row
early status reasons = record {
  status = status;
  reasons = reasons;
  started = false;
  evidence = none;
  cleanup_proven = false;
  first_event_membership = unknown;
  usable_evidence = none;
  usable_membership = unknown;
}

-- A slot whose command was run, or was to be.
unfoldable pub reduce_run : Files → Slot → Bool → State → Row
reduce_run files slot measurement state =
    let evidence = evidence_of files slot files.command in
    let operational = operational_of files slot measurement state in
    let usable =
      if evidence_valid files slot files.command
      then (receipt_time files.command state.received).0
      else none in
    record {
      status = status_of operational evidence.quality_reasons (budget_expired slot files.command);
      reasons = operational ++ evidence.quality_reasons;
      started = has_started files.command;
      evidence = some evidence;
      cleanup_proven = state.cleanup_proven;
      first_event_membership = membership evidence.first_event slot.cap_seconds;
      usable_evidence = usable;
      usable_membership = membership usable slot.cap_seconds;
    }

is_absent : RunCommand → Bool
is_absent absent = true
is_absent _ = false

preparation_reasons : State → List String
preparation_reasons state =
    if not (has_text state.error)
    then "preparation incomplete" ∷ lifecycle state
    else lifecycle state

listed_reason : Option String → List String
listed_reason none = []
listed_reason (some e) = e ∷ []

unfoldable pub reduce_supported : Files → Slot → Bool → State → Result Row
unfolding early is_absent preparation_reasons listed_reason
reduce_supported files slot measurement state =
    if has_text state.unsupported
    then (do
      need (is_absent files.command) "unsupported slot was executed/unregistered"
      ok (early unsupported (listed_reason state.unsupported ++ lifecycle state)))
    else ok (
        if is_absent files.command
        then record (early preparation_failed (preparation_reasons state)) {
          cleanup_proven = state.cleanup_proven;
        }
        else reduce_run files slot measurement state)

unfoldable pub reduce_state : Files → Slot → Option String → Bool → State → Result Row
reduce_state files slot declared measurement state = do
  need (slot_beq state.slot slot) "slot identity differs"
  need (same_text state.unsupported declared) "unsupported slot declaration differs"
  reduce_supported files slot measurement state

-- `declared` is the slot's entry of `unsupported_declarations`; `measurement` is the phase.
unfoldable pub reduce_slot : Files → Slot → Option String → Bool → Result Row
unfolding early listed_reason
reduce_slot files slot declared measurement =
    if not files.exists
    then ok (
        if has_text declared
        then early unsupported (listed_reason declared)
        else early not_started [])
    else files.state >>= reduce_state files slot declared measurement

is_in_budget : Membership → Bool
is_in_budget in_budget = true
is_in_budget _ = false

usable_event : Option Evidence → Option (ℕ × ℕ)
usable_event none = none
usable_event (some e) = e.usable_first_event

unfoldable pub detected_in_budget : Slot → Row → Bool
unfolding is_in_budget is_baseline usable_event
detected_in_budget slot row =
    is_in_budget row.first_event_membership
    && is_in_budget (
        if is_baseline slot.arm
        then membership (usable_event row.evidence) slot.cap_seconds
        else row.usable_membership)
