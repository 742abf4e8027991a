-- ===== src/Harness/Timeline.antt =====
-- `endpoint` and `workflow_bounds` of ci.py: the durations of a CI attempt from the provider's
-- records of its run and its jobs. Times are whole microseconds, which is what `timestamp` reads.
pub mod Times
pub mod Bounds
mod Tests
use Prim.Native.String.{◌++◌ as str_append}
use weavegate.Prelude.{
  ℕ, zero, suc, ◌+◌, ◌-◌, String, Bool, true, false, not, ◌&&◌, ◌||◌, Option, none, some, List, [],
  ◌∷◌, ◌++◌, map, length, leb, ltb, max, min, all, keep, elem, distinct, ◌==◌, string_eq, nat_eq,
  if◌then◌else◌,
}
use weavegate.Prelude.Dict.{Dict, is_some}
use weavegate.Prelude.Text.{has_text}
use weavegate.Harness.Sweep.{concurrency}
use weavegate.Prelude.Result.{Result, Check, ok, err, ◌>>=◌, ◌>>◌, need}

-- Optional texts may be null in the provider's answer.
pub record Step : Type 0 where
  pub name : String
  pub conclusion : Option String
  pub completed_at : Option String

pub record Job : Type 0 where
  pub id : ℕ
  pub run_id : ℕ
  pub run_attempt : ℕ
  pub name : String
  pub head_sha : String
  pub conclusion : Option String
  pub started_at : Option String
  pub completed_at : Option String
  pub runner_id : Option ℕ
  pub steps : List Step

pub record Page : Type 0 where
  pub total_count : ℕ
  pub jobs : List Job

pub record Run : Type 0 where
  pub id : ℕ
  pub status : String
  pub run_attempt : ℕ
  pub head_sha : String
  pub created_at : Option String
  pub updated_at : Option String

pub record Snapshot : Type 0 where
  pub repository : String
  pub run : Run
  pub pages : List Page

pub record Mapping : Type 0 where
  pub job : String
  pub step : String

-- The inventory with the tasks of one arm.
pub record Inventory : Type 0 where
  pub repository : String
  pub execution_sha : String
  pub tasks : Dict String Mapping

pub record Endpoint : Type 0 where
  pub validation : ℕ
  pub queue_inclusive : ℕ
  pub initial_queue : ℕ
  -- The sum whose minutes are `runner_minutes`.
  pub runner_time : ℕ
  pub peak_runner_concurrency : ℕ

abbrev pub tasks : List String
tasks =
    "go" ∷ "java" ∷ "explore" ∷ "replay" ∷ "rollback" ∷ "death" ∷ "cancellation" ∷ "accounting"
    ∷ "upload" ∷ []

unfoldable pub is_conclusion : String → Option String → Bool
is_conclusion text none = false
is_conclusion text (some t) = t == text

unfoldable pub same_counts : List Page → Bool
same_counts [] = false
same_counts (p ∷ ps) = all (λ (q : Page). q.total_count == p.total_count) ps

unfoldable pub jobs_of : List Page → List Job
jobs_of [] = []
jobs_of (p ∷ ps) = p.jobs ++ jobs_of ps

unfoldable pub total_is : ℕ → List Page → Bool
total_is n [] = false
total_is n (p ∷ ps) = n == p.total_count

unfoldable pub own_job : Run → Inventory → Job → Bool
own_job run inventory j =
    j.run_id == run.id && (j.run_attempt == 1 && j.head_sha == inventory.execution_sha)

unfoldable pub includes : Dict String Mapping → List String → Bool
includes mappings [] = true
includes mappings (t ∷ ts) =
    elem t (map (λ (e : String × Mapping). e.0) mappings) && includes mappings ts

-- The tests on the run, its pages and its jobs.
unfoldable pub attempt_valid : Snapshot → Inventory → Check
attempt_valid snapshot inventory = do
  let run = snapshot.run
  let jobs = jobs_of snapshot.pages
  need (not (run.id == 0)) "CI run ID must be a positive integer"
  need
      (run.status == "completed"
        && (run.run_attempt == 1
            && (run.head_sha == inventory.execution_sha
                && snapshot.repository == inventory.repository)))
      "CI attempt/repository/revision mismatch"
  need (same_counts snapshot.pages) "inconsistent jobs pages"
  need (all (λ (j : Job). not (j.id == 0) && not (j.run_id == 0)) jobs)
      "CI job and run IDs must be positive integers"
  need (total_is (length jobs) snapshot.pages && distinct (map (λ (j : Job). j.id) jobs))
      "missing or duplicated jobs pages"
  need (all (own_job run inventory) jobs) "jobs belong to another run/attempt/revision"
  need (includes inventory.tasks tasks) "incomplete frozen logical acceptance bundle"

-- A list of one item.
unfoldable pub only {ℓ} : {A : Type ℓ} → String → List A → Result A
only message (x ∷ []) = ok x
only message _ = err message

unfoldable pub latest : ℕ → List ℕ → ℕ
latest t [] = t
latest t (u ∷ us) = max u (latest t us)

unfoldable pub earliest : ℕ → List (ℕ × ℕ) → ℕ
earliest t [] = t
earliest t ((a, b) ∷ rest) = min a (earliest t rest)

unfoldable pub runner_time : List (ℕ × ℕ) → ℕ
runner_time [] = 0
runner_time ((a, b) ∷ rest) = (b - a) + runner_time rest

-- `min` and `max` of an empty sequence raise.
unfoldable pub first_start : List (ℕ × ℕ) → Result ℕ
first_start [] = err "no started jobs"
first_start ((a, b) ∷ rest) = ok (earliest a rest)

unfoldable pub last_of : List ℕ → Result ℕ
last_of [] = err "max() iterable argument is empty"
last_of (t ∷ ts) = ok (latest t ts)

unfoldable pub is_runner : Option ℕ → Bool
is_runner none = false
is_runner (some r) = not (r == 0)

-- A job whose use of a runner counts.
unfoldable pub counted : Job → Bool
counted j = not (is_conclusion "skipped" j.conclusion) && is_some j.started_at

abbrev pub cap : ℕ
cap = 5400000000

-- `timestamp` is that of common.py, on a text.
module _ (timestamp : String → Result ℕ) where
  unfoldable pub stamp : Option String → Result ℕ
  stamp none = err "timestamp must be a UTC string"
  stamp (some text) = timestamp text

  unfoldable pub task_completed : List Job → String × Mapping → Result ℕ
  task_completed jobs (task, mapping) = do
    job ←
        only (str_append "required logical job incomplete: " task)
          (keep (λ (j : Job). j.name == mapping.job) jobs)
    need (is_conclusion "success" job.conclusion)
        (str_append "required logical job incomplete: " task)
    need (has_text job.started_at) (str_append "missing required job start: " task)
    need (has_text job.completed_at) (str_append "missing required job completion: " task)
    step ←
        only (str_append "required logical step incomplete: " task)
          (keep (λ (s : Step). s.name == mapping.step) job.steps)
    need (is_conclusion "success" step.conclusion && has_text step.completed_at)
        (str_append "required logical step incomplete: " task)
    stamp job.completed_at

  unfoldable pub completions : List Job → Dict String Mapping → Result (List ℕ)
  completions jobs [] = ok []
  completions jobs (t ∷ ts) = do c ← task_completed jobs t; cs ← completions jobs ts; ok (c ∷ cs)

  unfoldable pub interval : Job → Result (ℕ × ℕ)
  interval job = do
    need (is_runner job.runner_id) "missing/invalid started-job runner identity"
    need (has_text job.completed_at) "censored runner use"
    start ← stamp job.started_at
    end ← stamp job.completed_at
    need (leb start end) "negative provider duration"
    ok (start, end)

  unfoldable pub intervals : List Job → Result (List (ℕ × ℕ))
  intervals [] = ok []
  intervals (j ∷ js) =
      let rest = intervals js in
      if counted j then (do i ← interval j; is ← rest; ok (i ∷ is)) else rest

  unfoldable pub job_ends : List Job → Result (List ℕ)
  job_ends [] = ok []
  job_ends (j ∷ js) =
      let rest = job_ends js in
      if counted j then (do t ← stamp j.completed_at; ts ← rest; ok (t ∷ ts)) else rest

  unfoldable pub workflow_bounds : Snapshot → Result (ℕ × ℕ)
  workflow_bounds snapshot = do
    times ← job_ends (jobs_of snapshot.pages)
    created ← stamp snapshot.run.created_at
    updated ← stamp snapshot.run.updated_at
    ok (created, latest updated times)

  unfoldable pub endpoint : Snapshot → Inventory → Result Endpoint
  endpoint snapshot inventory = do
    attempt_valid snapshot inventory
    completed ← completions (jobs_of snapshot.pages) inventory.tasks
    is ← intervals (jobs_of snapshot.pages)
    first ← first_start is
    bundle ← last_of completed
    (created, finished) ← workflow_bounds snapshot
    need (not (ltb first created) && (not (ltb bundle first) && not (ltb (created + cap) finished)))
        "invalid/capped workflow boundaries"
    ok (record {
      validation = bundle - first;
      queue_inclusive = bundle - created;
      initial_queue = first - created;
      runner_time = runner_time is;
      peak_runner_concurrency = concurrency is;
    })
