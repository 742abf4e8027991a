-- ===== src/Comparison/ProgressTests.antt =====
-- A campaign with one of its two slots consumed.
use weavegate.Prelude.{String, true, false, none, some, List, [], ◌∷◌, ◌≡◌, refl, string_eq}
use weavegate.Prelude.Result.{ok}
use weavegate.Comparison.Trace.{Slot}
use weavegate.Comparison.Reduce.{slot_beq}
use weavegate.Comparison.Progress.{
  Campaign, Checkpoint, retained_progress, save_progress, verify_all, take, ids, scan_slots,
  scan_slot, slot_accounted, stop_check, sealed_check, completion_check,
}
use weavegate.Comparison.Prefix.{Retained, retained_progress-Retained}

abbrev slot_named : String → Slot
slot_named id = record {
  id = id;
  block = 1;
  cache = "cold";
  workload = "quota";
  variant = "fixed";
  arm = "B1";
  cap_seconds = 600;
}

abbrev two_slots : List Slot
two_slots = slot_named "a" ∷ slot_named "b" ∷ []

abbrev one_checkpoint : Checkpoint
one_checkpoint = record {
  slots = ("a", "digest") ∷ [];
  active = none;
  stopped = none;
  registration = some "r";
  complete = false;
}

abbrev one_campaign : Campaign
one_campaign = record {
  measurement = true;
  names = "a" ∷ [];
  verified = λ n. ok tt;
  digest = λ n. "digest";
  checkpoint = ok one_checkpoint;
  registered = λ c. ok c.registration;
  state = λ n.
      ok (record { slot = slot_named n; unsupported = none; cleanup_proven = true; stop = none });
  declared = λ s. none;
  command_exists = λ n. true;
  marker = none;
}

-- The checkpoint is the one that `save_progress` writes.
one_saved : save_progress 2 (some one_checkpoint) (("a", "digest") ∷ []) none none ≡ one_checkpoint
unfolding save_progress
one_saved = refl

one_retained : retained_progress one_campaign two_slots ≡ ok one_checkpoint
unfolding retained_progress verify_all take ids scan_slots scan_slot slot_accounted stop_check
    sealed_check completion_check slot_beq
one_retained = refl

retained_progress-Retained_example : Retained one_campaign two_slots one_checkpoint
retained_progress-Retained_example =
    retained_progress-Retained one_campaign two_slots one_checkpoint one_retained
