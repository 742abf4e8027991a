-- ===== src/Harness/Timeline/Tests.antt =====
-- One CI attempt with two overlapping jobs and one that was skipped.
use weavegate.Prelude.{
  ℕ, ◌+◌, ◌*◌, ◌≤◌, ◌≡◌, refl, String, Option, some, [], ◌∷◌, map, length, ◌==◌, string_eq, nat_eq,
  if◌then◌else◌,
}
use weavegate.Prelude.Text.{has_text}
use weavegate.Prelude.Result.{Result, ok, err}
use weavegate.Harness.Timeline.{
  Step, Job, Snapshot, Inventory, Endpoint, tasks, cap, jobs_of, endpoint, attempt_valid,
  same_counts, total_is, own_job, includes, is_conclusion, only, latest, earliest, runner_time,
  first_start, last_of, is_runner, counted, stamp, task_completed, completions, interval, intervals,
  job_ends, workflow_bounds,
}
use weavegate.Harness.Sweep.{concurrency, edges, before, insert, sorted, peak}
use weavegate.Harness.Sweep.Peak.{running, concurrency-running}
use weavegate.Harness.Timeline.Bounds.{endpoint-bounds}

abbrev some_times : String → Result ℕ
some_times text =
    if text == "created"
    then ok 100
    else if text == "a"
    then ok 110
    else if text == "b"
    then ok 120
    else if text == "c"
    then ok 130
    else if text == "d"
    then ok 140
    else err "no time"

abbrev some_step : Step
some_step = record { name = "check"; conclusion = some "success"; completed_at = some "c" }

abbrev some_job : ℕ → Option String → String → String → Job
some_job n conclusion start end = record {
  id = n;
  run_id = 7;
  run_attempt = 1;
  name = if n == 1 then "acceptance" else "extra";
  head_sha = "5ac1";
  conclusion = conclusion;
  started_at = some start;
  completed_at = some end;
  runner_id = some n;
  steps = some_step ∷ [];
}

abbrev some_snapshot : Snapshot
some_snapshot = record {
  repository = "weavegate/weavegate";
  run = record {
    id = 7;
    status = "completed";
    run_attempt = 1;
    head_sha = "5ac1";
    created_at = some "created";
    updated_at = some "b";
  };
  pages =
      record {
        total_count = 3;
        jobs =
            some_job 1 (some "success") "a" "c"
            ∷ some_job 2 (some "failure") "b" "d"
            ∷ some_job 3 (some "skipped") "c" "d"
            ∷ [];
      }
      ∷ [];
}

abbrev some_inventory : Inventory
some_inventory = record {
  repository = "weavegate/weavegate";
  execution_sha = "5ac1";
  tasks = map (λ (t : String). (t, record { job = "acceptance"; step = "check" })) tasks;
}

abbrev some_endpoint : Endpoint
some_endpoint = record {
  validation = 20;
  queue_inclusive = 30;
  initial_queue = 10;
  runner_time = 40;
  peak_runner_concurrency = 2;
}

endpoint_run : endpoint some_times some_snapshot some_inventory ≡ ok some_endpoint
unfolding endpoint attempt_valid same_counts jobs_of total_is own_job includes is_conclusion only
    latest earliest runner_time first_start last_of edges before insert sorted peak concurrency
    is_runner counted stamp task_completed completions interval intervals job_ends workflow_bounds
    has_text
endpoint_run = refl

-- A job that begins as another ends does not run beside it.
half_open_run : concurrency ((1, 3) ∷ (3, 5) ∷ (2, 2) ∷ []) ≡ 1
unfolding concurrency edges before insert sorted peak
half_open_run = refl

endpoint-bounds_example :
    (◌≡◌ {A = ℕ} 30 (10 + 20))
    × (30 ≤ cap)
    × (40 ≤ length (jobs_of some_snapshot.pages) * cap)
    × (2 ≤ length (jobs_of some_snapshot.pages))
endpoint-bounds_example =
    endpoint-bounds some_times some_snapshot some_inventory some_endpoint endpoint_run

concurrency-running_example :
    ((t : ℕ) → running t ((1, 3) ∷ (2, 5) ∷ []) ≤ concurrency ((1, 3) ∷ (2, 5) ∷ []))
    × ((n : ℕ)
        → ((t : ℕ) → running t ((1, 3) ∷ (2, 5) ∷ []) ≤ n)
        → concurrency ((1, 3) ∷ (2, 5) ∷ []) ≤ n)
concurrency-running_example = concurrency-running ((1, 3) ∷ (2, 5) ∷ [])
