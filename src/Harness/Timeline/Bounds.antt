-- ===== src/Harness/Timeline/Bounds.antt =====
-- What the durations of a CI attempt satisfy.
use weavegate.Prelude.{
  ℕ, ◌+◌, ◌-◌, ◌*◌, ◌≤◌, ◌≡◌, ap, ◌∙◌, String, true, not, ◌&&◌, List, [], ◌∷◌, length, leb, ltb,
  keep, ◌==◌, string_eq, arith, Bool-cases, inl, inr, All,
}
use weavegate.Prelude.Dict.{Dict}
use weavegate.Prelude.Text.{has_text}
use weavegate.Prelude.Result.{Result, ok-injective, ok, need, >>=-eq-ok, need-eq-ok}
use weavegate.Harness.Timeline.{
  Step, Job, Snapshot, Mapping, Inventory, Endpoint, is_conclusion, jobs_of, attempt_valid, only,
  latest, runner_time, first_start, last_of, counted, cap, is_runner, stamp, task_completed,
  completions, interval, intervals, job_ends, workflow_bounds, endpoint,
}
use weavegate.Harness.Sweep.{concurrency}
use mathlib.Core.List.{Memᴰ}
use mathlib.Core.List.Memᴰ.{head, tail}
use weavegate.Harness.Timeline.Times.{
  keep-Memᴰ, only-Memᴰ, success-counted, runner_time-within, grow, concurrency-length,
  last_of-below, first_start-above, product, span, Span,
}

module _ (timestamp : String → Result ℕ) where
  -- The end of a counted job is no later than the end of the workflow.
  job_ends-latest :
      (jobs : List Job) (times : List ℕ) (t c : ℕ) (j : Job)
      → job_ends timestamp jobs ≡ ok times
      → Memᴰ j jobs
      → counted j ≡ true
      → stamp timestamp j.completed_at ≡ ok c
      → c ≤ latest t times
  unfolding job_ends latest
  job_ends-latest [] times t c j h m is_counted ends = elim m [ ]
  job_ends-latest (k ∷ ks) times t c j h (head e) is_counted ends =
      let counted' : counted k ≡ true = rw (← e) is_counted in
      let h1 = rw counted' at h in
      let (u, eu, h2) = >>=-eq-ok (stamp timestamp k.completed_at) _ h1 in
      let (rest, er, h3) = >>=-eq-ok (job_ends timestamp ks) _ h2 in
      let own : stamp timestamp k.completed_at ≡ ok c = rw (← e) ends in
      let same : u ≡ c = cc in let list : u ∷ rest ≡ times = cc in rw (← list) (omega arith)
  job_ends-latest (k ∷ ks) times t c j h (tail m) is_counted ends = elim (Bool-cases (counted k)) [
    | inl e ↦
        (let h1 = rw e at h in
          let (u, eu, h2) = >>=-eq-ok (stamp timestamp k.completed_at) _ h1 in
          let (rest, er, h3) = >>=-eq-ok (job_ends timestamp ks) _ h2 in
          let list : u ∷ rest ≡ times = cc in
          rw (← list) (omega (arith, job_ends-latest ks rest t c j er m is_counted ends)))
    | inr e ↦ job_ends-latest ks times t c j (rw e at h) m is_counted ends
  ]

  -- A completed task is the end of a counted job.
  task_completed-job :
      (jobs : List Job) (task : String × Mapping) (c : ℕ)
      → task_completed timestamp jobs task ≡ ok c
      → (j : Job) × Memᴰ j jobs × (counted j ≡ true) × (stamp timestamp j.completed_at ≡ ok c)
  unfolding task_completed
  task_completed-job jobs (task, mapping) c h =
      let (j, one, h1) = >>=-eq-ok (only _ (keep (λ (j : Job). j.name == mapping.job) jobs)) _ h in
      let (_, success, h2) = >>=-eq-ok (need (is_conclusion "success" j.conclusion) _) _ h1 in
      let (_, started, h3) = >>=-eq-ok (need (has_text j.started_at) _) _ h2 in
      let (_, _, h4) = >>=-eq-ok (need (has_text j.completed_at) _) _ h3 in
      let (s, _, h5) =
        >>=-eq-ok (only _ (keep (λ (s : Step). s.name == mapping.step) j.steps)) _ h4 in
      let (_, _, h6) =
        >>=-eq-ok (need (is_conclusion "success" s.conclusion && has_text s.completed_at) _) _ h5 in
      (
        j,
        keep-Memᴰ _ j jobs (only-Memᴰ _ j _ one),
        success-counted j (need-eq-ok _ _ success) (need-eq-ok _ _ started),
        h6,
      )

  completions-latest :
      (jobs : List Job) (mappings : Dict String Mapping) (cs times : List ℕ) (t : ℕ)
      → job_ends timestamp jobs ≡ ok times
      → completions timestamp jobs mappings ≡ ok cs
      → All (λ c. c ≤ latest t times) cs
  unfolding completions
  completions-latest jobs [] cs times t ends h = let list : [] ≡ cs = cc in rw (← list) tt
  completions-latest jobs (m ∷ ms) cs times t ends h =
      let (c, ec, h1) = >>=-eq-ok (task_completed timestamp jobs m) _ h in
      let (rest, er, h2) = >>=-eq-ok (completions timestamp jobs ms) _ h1 in
      let (j, mem, is_counted, at_c) = task_completed-job jobs m c ec in
      let list : c ∷ rest ≡ cs = cc in
      rw (← list) (
        job_ends-latest jobs times t c j ends mem is_counted at_c,
        completions-latest jobs ms rest times t ends er,
      )

  interval-stamps :
      (j : Job) (i : ℕ × ℕ)
      → interval timestamp j ≡ ok i
      → (stamp timestamp j.started_at ≡ ok i.0) × (stamp timestamp j.completed_at ≡ ok i.1)
  unfolding interval
  interval-stamps j i h =
      let (_, _, h1) = >>=-eq-ok (need (is_runner j.runner_id) _) _ h in
      let (_, _, h2) = >>=-eq-ok (need (has_text j.completed_at) _) _ h1 in
      let (start, es, h3) = >>=-eq-ok (stamp timestamp j.started_at) _ h2 in
      let (end, ee, h4) = >>=-eq-ok (stamp timestamp j.completed_at) _ h3 in
      let (_, _, h5) = >>=-eq-ok (need (leb start end) _) _ h4 in
      let pair : (start, end) ≡ i = cc in
      (es ∙ ap (λ (p : ℕ × ℕ). ok p.0) pair, ee ∙ ap (λ (p : ℕ × ℕ). ok p.1) pair)

  intervals-latest :
      (jobs : List Job) (is : List (ℕ × ℕ)) (times : List ℕ) (t : ℕ)
      → job_ends timestamp jobs ≡ ok times
      → intervals timestamp jobs ≡ ok is
      → All (λ i. i.1 ≤ latest t times) is × (length is ≤ length jobs)
  unfolding intervals job_ends latest
  intervals-latest [] is times t ends h = let list : [] ≡ is = cc in rw (← list) (tt, omega arith)
  intervals-latest (j ∷ js) is times t ends h = elim (Bool-cases (counted j)) [
    | inl e ↦
        (let (i, ei, h1) = >>=-eq-ok (interval timestamp j) _ (rw e at h) in
          let (rest, er, h2) = >>=-eq-ok (intervals timestamp js) _ h1 in
          let (u, eu, k1) = >>=-eq-ok (stamp timestamp j.completed_at) _ (rw e at ends) in
          let (more, em, k2) = >>=-eq-ok (job_ends timestamp js) _ k1 in
          let (start, end) = interval-stamps j i ei in
          let same : u ≡ i.1 = cc in
          let list : i ∷ rest ≡ is = cc in
          let list' : u ∷ more ≡ times = cc in
          let (within, short) = intervals-latest js rest more t em er in
          (
            grow i u t rest is more times list list' same within,
            rw (← list) (omega (arith, short)),
          ))
    | inr e ↦
        (let (within, short) = intervals-latest js is times t (rw e at ends) (rw e at h) in
          (within, omega arith))
  ]

  parts-bounds :
      (jobs : List Job) (mappings : Dict String Mapping) (completed : List ℕ) (is : List (ℕ × ℕ))
      (times : List ℕ) (created updated first bundle : ℕ)
      → job_ends timestamp jobs ≡ ok times
      → completions timestamp jobs mappings ≡ ok completed
      → intervals timestamp jobs ≡ ok is
      → first_start is ≡ ok first
      → last_of completed ≡ ok bundle
      → Span created first bundle (latest updated times)
      → (bundle - created ≡ (first - created) + (bundle - first))
        × (bundle - created ≤ cap)
        × (runner_time is ≤ length jobs * cap)
        × (concurrency is ≤ length jobs)
  parts-bounds jobs mappings completed is times created updated first bundle et ec ei ef eb s =
      let finished = latest updated times in
      let ended =
        last_of-below finished bundle completed eb
          (completions-latest jobs mappings completed times updated et ec) in
      let (within, short) = intervals-latest jobs is times updated et ei in
      let used = runner_time-within first finished is (first_start-above first is ef) within in
      let queued = s.queued in
      let ran = s.ran in
      let capped = s.capped in
      (
        omega arith,
        omega arith,
        product _ _ _ (finished - first) cap used short (omega arith),
        omega (arith, concurrency-length is),
      )

  workflow_bounds-parts :
      (snapshot : Snapshot) (created finished : ℕ)
      → workflow_bounds timestamp snapshot ≡ ok (created, finished)
      → (times : List ℕ) × (updated : ℕ) × (job_ends timestamp (jobs_of snapshot.pages) ≡ ok times)
        × (latest updated times ≡ finished)
  unfolding workflow_bounds
  workflow_bounds-parts snapshot created finished h =
      let (times, et, h1) = >>=-eq-ok (job_ends timestamp (jobs_of snapshot.pages)) _ h in
      let (c, _, h2) = >>=-eq-ok (stamp timestamp snapshot.run.created_at) _ h1 in
      let (updated, _, h3) = >>=-eq-ok (stamp timestamp snapshot.run.updated_at) _ h2 in
      (
        times,
        updated,
        et,
        ap (λ (p : ℕ × ℕ). p.1) (ok-injective (c, latest updated times) (created, finished) h3),
      )

-- The durations of a CI attempt that is accepted fit together: the inclusive queue time is the
-- initial queue time and the validation time; it is within the cap of ninety minutes; the runners
-- were in use for no longer than the cap for each job of the attempt; and the peak concurrency is at
-- most the number of jobs.
pub endpoint-bounds :
    (timestamp : String → Result ℕ) (snapshot : Snapshot) (inventory : Inventory) (e : Endpoint)
    → endpoint timestamp snapshot inventory ≡ ok e
    → (e.queue_inclusive ≡ e.initial_queue + e.validation)
      × (e.queue_inclusive ≤ cap)
      × (e.runner_time ≤ length (jobs_of snapshot.pages) * cap)
      × (e.peak_runner_concurrency ≤ length (jobs_of snapshot.pages))
unfolding endpoint
endpoint-bounds timestamp snapshot inventory e h =
    let jobs = jobs_of snapshot.pages in
    let (_, _, h1) = >>=-eq-ok (attempt_valid snapshot inventory) _ h in
    let (completed, ec, h2) = >>=-eq-ok (completions timestamp jobs inventory.tasks) _ h1 in
    let (is, ei, h3) = >>=-eq-ok (intervals timestamp jobs) _ h2 in
    let (first, ef, h4) = >>=-eq-ok (first_start is) _ h3 in
    let (bundle, eb, h5) = >>=-eq-ok (last_of completed) _ h4 in
    let ((created, finished), ew, h6) = >>=-eq-ok (workflow_bounds timestamp snapshot) _ h5 in
    let (_, fits, h7) =
      >>=-eq-ok
        (need
          (not (ltb first created)
            && (not (ltb bundle first) && not (ltb (created + cap) finished)))
          _)
        _ h6 in
    let (times, updated, et, same) = workflow_bounds-parts timestamp snapshot created finished ew in
    let s : Span created first bundle (latest updated times) =
      rw same (span created first bundle finished (need-eq-ok _ _ fits)) in
    rw (← ok-injective _ e h7) (
      parts-bounds timestamp jobs inventory.tasks completed is times created updated first bundle et
        ec ei ef eb s)
