-- ===== src/Comparison/Trace.antt =====
-- `validate_trace` of analyze.py: the product's trace against the saved schedule.
use weavegate.Prelude.{
  ℕ, zero, suc, String, Bool, true, false, not, ◌&&◌, ◌||◌, Option, none, some, List, [], ◌∷◌, map,
  ltb, all, any, keep, distinct, subset, length, ◌==◌, string_eq, nat_eq, list_eq, if◌then◌else◌,
}
use weavegate.Prelude.Result.{Result, ok, ◌>>◌, need}

pub record TraceEvent : Type 0 where
  pub seq : ℕ
  pub kind : String
  pub worker : String
  pub point : String
  -- The index of the step that the event resolves; it is read of those events only.
  pub step : ℕ
  pub status : String

pub record Ending : Type 0 where
  pub worker : Option String
  pub state : String
  pub failure_class : String

pub record Trace : Type 0 where
  pub schedule_ref : String
  pub terminals : List Ending
  pub events : List TraceEvent

-- A step of a schedule: a worker and its point.
pub record Place : Type 0 where
  pub worker : String
  pub point : String

pub record Schedule : Type 0 where
  pub id : String
  pub steps : List Place

pub record Slot : Type 0 where
  pub id : String
  pub block : ℕ
  pub cache : String
  pub workload : String
  pub variant : String
  pub arm : String
  pub cap_seconds : ℕ

clean_ending : Ending → Bool
clean_ending e = e.state == "done" && e.failure_class == "none"

-- The workers of the endings that name one.
workers_of : List Ending → List (Option String)
workers_of [] = []
workers_of (e ∷ es) = e.worker ∷ workers_of es

named : List (Option String) → Option (List String)
named [] = some []
named (none ∷ ws) = none
named (some w ∷ ws) = add w (named ws)
  where
    add : String → Option (List String) → Option (List String)
    add w none = none
    add w (some vs) = if w == "" then none else some (w ∷ vs)

covers_workers : Option (List String) → List Place → Bool
covers_workers none steps = false
covers_workers (some workers) steps =
    let scheduled = map (λ (p : Place). p.worker) steps in
    distinct workers && (subset workers scheduled && subset scheduled workers)

-- `list(range(first, first + len(xs)))`.
unfoldable pub range : ℕ → ℕ → List ℕ
range first zero = []
range first (suc n) = first ∷ range (suc first) n

unfoldable pub is_resolved : TraceEvent → Bool
is_resolved e = e.kind == "point_released" || e.kind == "step_terminal_skipped"

unfoldable pub resolved : List TraceEvent → List TraceEvent
resolved events = keep is_resolved events

unfoldable pub same_places : List TraceEvent → List Place → Bool
same_places [] [] = true
same_places (e ∷ es) (p ∷ ps) = e.worker == p.worker && (e.point == p.point && same_places es ps)
same_places _ _ = false

explained_skip : Slot → List TraceEvent → TraceEvent → Bool
explained_skip slot events e =
    slot.workload == "matching"
    && (slot.variant == "fixed"
        && (e.point == "before_insert_assignment"
            && any (λ d. d.kind == "worker_done" && (d.worker == e.worker && ltb d.seq e.seq))
                events))

unfoldable pub skip_ok : Slot → List TraceEvent → TraceEvent → Bool
unfolding explained_skip
skip_ok slot events e = not (e.kind == "step_terminal_skipped") || explained_skip slot events e

unfoldable pub timeout_ok : List TraceEvent → TraceEvent → Bool
unfolding is_resolved
timeout_ok events e =
    not (e.kind == "point_timeout")
    || (e.status == "timeout_inferred"
        && any
            (λ d.
              is_resolved d && (d.worker == e.worker && (d.point == e.point && ltb e.seq d.seq)))
            events)

count_kind : String → List TraceEvent → ℕ
count_kind kind [] = 0
count_kind kind (e ∷ es) =
    let rest = count_kind kind es in if e.kind == kind then suc rest else rest

-- The inferred blocks and the terminal skips.
unfoldable pub validate_trace : Trace → Schedule → Slot → Result (ℕ × ℕ)
unfolding clean_ending workers_of named covers_workers count_kind
validate_trace trace saved slot = do
  need (trace.schedule_ref == saved.id) "trace schedule differs"
  need (length trace.terminals == 2 && all clean_ending trace.terminals) "terminal failure"
  need (covers_workers (named (workers_of trace.terminals)) saved.steps)
      "terminal workers differ from schedule"
  need (map (λ (e : TraceEvent). e.seq) trace.events == range 1 (length trace.events))
      "trace sequence differs"
  need (not (any (λ (e : TraceEvent). e.kind == "worker_failed") trace.events)) "worker failure"
  need (same_places (resolved trace.events) saved.steps) "requested/resolved schedule differs"
  need (map (λ (e : TraceEvent). e.step) (resolved trace.events) == range 0 (length saved.steps))
      "resolved step index differs"
  need (all (skip_ok slot trace.events) (resolved trace.events)) "unexplained skipped step"
  need (all (timeout_ok trace.events) trace.events) "unresolved inferred block"
  ok (count_kind "point_timeout" trace.events, count_kind "step_terminal_skipped" trace.events)
