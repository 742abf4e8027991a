-- ===== src/Comparison/Tests.antt =====
-- Small receipts of the control comparison, and the theorems at them.
use mathlib.Core.List.{Memᴰ}
use weavegate.Prelude.{
  ℕ, ◌+◌, ◌≤◌, ◌<◌, String, true, false, none, some, List, [], ◌∷◌, ◌≡◌, ◌↔◌, refl, string_eq,
  nat_eq,
}
use weavegate.Prelude.{length}
use weavegate.Prelude.Dict
use weavegate.Prelude.Text.{has_text}
use weavegate.Prelude.Result.{ok}
use weavegate.Comparison.Timing.{
  Span, Stages, stages, measure, measure_one, roots, span_check, span_checks, is_leaf,
  leaf_intervals, sort, insert, not_after, sweep, bound, membership, in_budget, late,
}
use weavegate.Comparison.Coverage.{Measures, stages-Measures}
use weavegate.Comparison.Budget.{membership-exact}
use weavegate.Comparison.Candidates.{w1, w2, Pass, walk, points_of, candidate_steps, passed}
use weavegate.Comparison.Interleavings.{candidate_steps-exact}
use weavegate.Comparison.Trace.{
  TraceEvent, Trace, Schedule, Slot, range, is_resolved, resolved, same_places, skip_ok, timeout_ok,
  validate_trace,
}
use weavegate.Comparison.Replay.{Followed, validate_trace-Followed}
use weavegate.Comparison.Reduce.{
  Command, receipt, Evidence, State, not_recorded, Files, reduce_slot, reduce_state,
  reduce_supported, reduce_run, evidence_of, operational_of, lifecycle, listed, when,
  command_failures, receipt_time, resource_failures, status_of, budget_expired, slot_beq, complete,
}
use weavegate.Comparison.Complete.{Whole, reduce_slot-Whole}

abbrev span : ℕ → ℕ → String → ℕ → ℕ → Span
span id parent name start duration = record {
  id = id;
  parent_id = parent;
  name = name;
  start_ns = start;
  duration_ns = duration;
}

abbrev some_spans : List Span
some_spans =
    span 1 0 "command" 10 100
    ∷ span 2 1 "replay" 15 90
    ∷ span 3 2 "fixture_reset" 40 20
    ∷ span 4 2 "adapter_start" 20 30
    ∷ []

abbrev some_stages : Stages
some_stages = record {
  durations =
      ("command", 100 ∷ [])
      ∷ ("replay", 90 ∷ [])
      ∷ ("fixture_reset", 20 ∷ [])
      ∷ ("adapter_start", 30 ∷ [])
      ∷ [];
  covered = 40;
  remainder = 160;
}

stages_run : stages some_spans 200 false ≡ ok (some some_stages)
unfolding stages measure measure_one roots span_check span_checks is_leaf leaf_intervals sort insert
    not_after sweep Dict.get Dict.put
stages_run = refl

stages-Measures_example :
    (root : Span) × (roots some_spans ≡ root ∷ []) × Measures some_spans root 200 some_stages
stages-Measures_example = stages-Measures some_spans 200 false some_stages stages_run

bound_run : bound (some 5) (some 10) (some 12) ≡ some (5, 7)
unfolding bound
bound_run = refl

membership-exact_example :
    ((membership (some (5, 7)) 7 ≡ in_budget) ↔ ((offset : ℕ) → offset + 10 ≤ 12 → offset + 5 ≤ 7))
    × ((membership (some (5, 7)) 7 ≡ late) ↔ ((offset : ℕ) → offset + 10 ≤ 12 → 7 < offset + 5))
membership-exact_example = membership-exact 5 10 12 (5, 7) 7 bound_run

abbrev trace_event : ℕ → String → String → String → ℕ → String → TraceEvent
trace_event n kind worker point step status = record {
  seq = n;
  kind = kind;
  worker = worker;
  point = point;
  step = step;
  status = status;
}

abbrev some_trace : Trace
some_trace = record {
  schedule_ref = "sch_1";
  terminals =
      record { worker = some "t1"; state = "done"; failure_class = "none" }
      ∷ record { worker = some "t2"; state = "done"; failure_class = "none" }
      ∷ [];
  events =
      trace_event 1 "point_released" "t1" "read" 0 ""
      ∷ trace_event 2 "point_timeout" "t2" "read" 0 "timeout_inferred"
      ∷ trace_event 3 "point_released" "t2" "read" 1 ""
      ∷ [];
}

abbrev some_schedule : Schedule
some_schedule = record {
  id = "sch_1";
  steps = record { worker = "t1"; point = "read" } ∷ record { worker = "t2"; point = "read" } ∷ [];
}

abbrev some_slot : Slot
some_slot = record {
  id = "slot-1";
  block = 1;
  cache = "cold";
  workload = "matching";
  variant = "vulnerable";
  arm = "T-R";
  cap_seconds = 300;
}

trace_run : validate_trace some_trace some_schedule some_slot ≡ ok (1, 0)
unfolding validate_trace resolved is_resolved same_places skip_ok timeout_ok range
trace_run = refl

validate_trace-Followed_example : Followed some_trace some_schedule some_slot
validate_trace-Followed_example =
    validate_trace-Followed some_trace some_schedule some_slot (1, 0) trace_run

abbrev some_evidence : Evidence
some_evidence = record {
  quality_reasons = [];
  operational_reasons = [];
  evidence_absence = none;
  receipt_valid = some true;
  first_event = none;
  usable_first_event = none;
}

abbrev some_command : Command
some_command = record {
  started = true;
  finished = true;
  interrupted = false;
  timeout = false;
  containment_proven = true;
  seconds = 12;
  error = none;
}

abbrev some_state : State
some_state = record {
  slot = some_slot;
  unsupported = none;
  integrity_errors = [];
  containment_errors = [];
  error = none;
  cleanup_error = none;
  interrupted = false;
  cleanup_proven = true;
  received = not_recorded;
  resources = none;
}

abbrev some_files : Files
some_files = record {
  exists = true;
  state = ok some_state;
  command = receipt some_command;
  baseline = λ s c. ok some_evidence;
  product = λ s c. ok some_evidence;
}

slot_run :
    reduce_slot some_files some_slot none false
    ≡ ok (reduce_run some_files some_slot false some_state)
unfolding reduce_slot reduce_state reduce_supported slot_beq has_text
slot_run = refl

slot_complete : (reduce_run some_files some_slot false some_state).status ≡ complete
unfolding reduce_run evidence_of operational_of lifecycle listed when command_failures has_text
    receipt_time resource_failures status_of budget_expired
slot_complete = refl

reduce_slot-Whole_example :
    (some_files.exists ≡ true)
    × ((state : State) × (c : Command) × (e : Evidence) × (some_files.state ≡ ok state)
        × Whole some_files some_slot state c e)
reduce_slot-Whole_example =
    reduce_slot-Whole some_files some_slot none false
      (reduce_run some_files some_slot false some_state) slot_run slot_complete

six_candidates : length (candidate_steps "matching") ≡ 6
unfolding candidate_steps walk points_of
six_candidates = refl

seventy_candidates : length (candidate_steps "quota") ≡ 70
unfolding candidate_steps walk points_of
seventy_candidates = refl

abbrev alternating : List Pass
alternating =
    (w1, "after_read_request")
    ∷ (w2, "after_read_request")
    ∷ (w2, "before_insert_assignment")
    ∷ (w1, "before_insert_assignment")
    ∷ []

candidate_steps-exact_example : Memᴰ alternating (candidate_steps "matching") ↔ (
    (passed w1 alternating ≡ points_of "matching") × (passed w2 alternating ≡ points_of "matching"))
candidate_steps-exact_example = candidate_steps-exact "matching" alternating
