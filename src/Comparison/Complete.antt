-- ===== src/Comparison/Complete.antt =====
-- What a complete slot, and a detection in the budget, rest on.
use weavegate.Prelude.{
  ◌≤◌, String, Bool, true, false, not, ◌||◌, Option, none, some, List, [], ◌∷◌, ◌++◌, ◌≡◌, refl,
  sym, ap, ◌∙◌, arith, string_eq, nat_eq,
}
use weavegate.Prelude.Text.{has_text}
use weavegate.Prelude.Result.{ok, ◌>>=◌, >>=-eq-ok}
use weavegate.Comparison.Trace.{Slot}
use weavegate.Comparison.Reduce.{
  complete, Command, RunCommand, absent, refused, receipt, Evidence, State, Files, Row, lifecycle,
  evidence_of, command_failures, receipt_time, resource_failures, budget_expired, status_of, listed,
  when, operational_of, reduce_run, reduce_slot, reduce_state, reduce_supported, early,
}

-- Everything that a complete slot's evidence shows.
pub record Whole (files : Files) (slot : Slot) (state : State) (c : Command) (e : Evidence)
    : Type 0 where
  pub run : files.command ≡ receipt c
  pub started : c.started ≡ true
  pub finished : c.finished ≡ true
  pub uninterrupted : c.interrupted ≡ false
  pub no_error : has_text c.error ≡ false
  pub contained : c.containment_proven ≡ true
  pub in_time : c.timeout ≡ false
  pub within : c.seconds ≤ slot.cap_seconds
  pub reduced : evidence_of files slot files.command ≡ e
  pub good : (e.quality_reasons ≡ []) × (e.operational_reasons ≡ [])
  pub cleaned : state.cleanup_proven ≡ true
  pub untroubled :
      (has_text state.error ≡ false)
      × (has_text state.cleanup_error ≡ false)
      × (state.interrupted ≡ false)

append-empty {ℓ} : {A : Type ℓ} (xs ys : List A) → xs ++ ys ≡ [] → (xs ≡ []) × (ys ≡ [])
append-empty [] ys h = (refl, h)
append-empty (x ∷ xs) ys h = cc

status_of-complete :
    (operational quality : List String) (expired : Bool)
    → status_of operational quality expired ≡ complete
    → (operational ≡ []) × (quality ≡ []) × (expired ≡ false)
unfolding status_of
status_of-complete [] [] false h = (refl, refl, refl)
status_of-complete [] [] true h = cc
status_of-complete [] (q ∷ qs) expired h = cc
status_of-complete (o ∷ os) quality expired h = cc

listed-empty : (o : Option String) → listed o ≡ [] → has_text o ≡ false
unfolding listed has_text
listed-empty none h = refl
listed-empty (some e) h = ground arith

when-empty : (b : Bool) (reason : String) → when b reason ≡ [] → b ≡ false
unfolding when
when-empty true reason h = cc
when-empty false reason h = refl

lifecycle-empty :
    (s : State)
    → lifecycle s ≡ []
    → (s.cleanup_proven ≡ true)
      × (has_text s.error ≡ false)
      × (has_text s.cleanup_error ≡ false)
      × (s.interrupted ≡ false)
unfolding lifecycle
lifecycle-empty s h =
    let (h1, p) = append-empty _ (when (not s.cleanup_proven) "allocation cleanup unproven") h in
    let (h2, n) = append-empty _ (when s.interrupted "collector interrupted") h1 in
    let (h3, f) = append-empty _ (listed s.cleanup_error) h2 in
    let (h4, e) = append-empty _ (listed s.error) h3 in
    let proven = when-empty (not s.cleanup_proven) "allocation cleanup unproven" p in
    (
      ground arith,
      listed-empty s.error e,
      listed-empty s.cleanup_error f,
      when-empty s.interrupted "collector interrupted" n,
    )

command_failures-empty :
    (c : Command)
    → command_failures (receipt c) ≡ []
    → (has_text c.error ≡ false)
      × (c.started ≡ true)
      × (c.containment_proven ≡ true)
      × (c.finished ≡ true)
      × (c.interrupted ≡ false)
unfolding command_failures
command_failures-empty c h =
    let (spawn, h1) =
      append-empty
        (when (has_text c.error || (not c.started || not c.containment_proven))
          "command spawn/containment failure")
        _ h in
    let first =
      when-empty (has_text c.error || (not c.started || not c.containment_proven))
        "command spawn/containment failure" spawn in
    let second = when-empty (not c.finished || c.interrupted) "command unfinished/interrupted" h1 in
    (ground arith, ground arith, ground arith, ground arith, ground arith)

-- Without a receipt the evidence names an operational reason.
evidence_of-receipt :
    (files : Files) (slot : Slot) (run : RunCommand)
    → (evidence_of files slot run).operational_reasons ≡ []
    → (c : Command) × (run ≡ receipt c)
unfolding evidence_of
evidence_of-receipt files slot absent h = cc
evidence_of-receipt files slot (refused s m) h = cc
evidence_of-receipt files slot (receipt c) h = (c, refl)

budget_expired-false :
    (slot : Slot) (c : Command)
    → budget_expired slot (receipt c) ≡ false
    → (c.timeout ≡ false) × (c.seconds ≤ slot.cap_seconds)
unfolding budget_expired
budget_expired-false slot c h = ground arith

reduce_run-Whole :
    (files : Files) (slot : Slot) (measurement : Bool) (state : State)
    → (reduce_run files slot measurement state).status ≡ complete
    → (c : Command) × (e : Evidence) × Whole files slot state c e
unfolding reduce_run operational_of
reduce_run-Whole files slot measurement state h =
    let e = evidence_of files slot files.command in
    let (operational, quality, expired) =
      status_of-complete _ e.quality_reasons (budget_expired slot files.command) h in
    let (h1, resources) =
      append-empty _ (resource_failures measurement state.resources) operational in
    let (h2, times) = append-empty _ (receipt_time files.command state.received).1 h1 in
    let (h3, failures) = append-empty _ (command_failures files.command) h2 in
    let (own, life) = append-empty e.operational_reasons (lifecycle state) h3 in
    let (c, run) = evidence_of-receipt files slot files.command own in
    let (no_error, started, contained, finished, uninterrupted) =
      command_failures-empty c (ap command_failures (sym run) ∙ failures) in
    let (in_time, within) =
      budget_expired-false slot c (ap (budget_expired slot) (sym run) ∙ expired) in
    let (cleaned, error, cleanup, interrupted) = lifecycle-empty state life in
    (
      c,
      e,
      record {
        run = run;
        started = started;
        finished = finished;
        uninterrupted = uninterrupted;
        no_error = no_error;
        contained = contained;
        in_time = in_time;
        within = within;
        reduced = refl;
        good = (quality, own);
        cleaned = cleaned;
        untroubled = (error, cleanup, interrupted);
      },
    )

reduce_state-run :
    (files : Files) (slot : Slot) (declared : Option String) (measurement : Bool) (state : State)
    (row : Row)
    → reduce_state files slot declared measurement state ≡ ok row
    → row.status ≡ complete
    → row ≡ reduce_run files slot measurement state
unfolding reduce_state reduce_supported early
reduce_state-run files slot declared measurement state row h k = ground arith

reduce_slot-state :
    (files : Files) (slot : Slot) (declared : Option String) (measurement : Bool) (row : Row)
    → reduce_slot files slot declared measurement ≡ ok row
    → row.status ≡ complete
    → (files.exists ≡ true)
      × ((files.state >>= reduce_state files slot declared measurement) ≡ ok row)
unfolding reduce_slot early
reduce_slot-state files slot declared measurement row h k = ground arith

reduce_slot-run :
    (files : Files) (slot : Slot) (declared : Option String) (measurement : Bool) (row : Row)
    → reduce_slot files slot declared measurement ≡ ok row
    → row.status ≡ complete
    → (files.exists ≡ true)
      × ((state : State) × (files.state ≡ ok state)
          × (row ≡ reduce_run files slot measurement state))
reduce_slot-run files slot declared measurement row h k =
    let (there, bound) = reduce_slot-state files slot declared measurement row h k in
    let (state, read, rest) =
      >>=-eq-ok files.state (reduce_state files slot declared measurement) bound in
    (there, (state, read, reduce_state-run files slot declared measurement state row rest k))

pub reduce_slot-Whole :
    (files : Files) (slot : Slot) (declared : Option String) (measurement : Bool) (row : Row)
    → reduce_slot files slot declared measurement ≡ ok row
    → row.status ≡ complete
    → (files.exists ≡ true)
      × ((state : State) × (c : Command) × (e : Evidence) × (files.state ≡ ok state)
          × Whole files slot state c e)
reduce_slot-Whole files slot declared measurement row h k =
    let (there, (state, read, r)) = reduce_slot-run files slot declared measurement row h k in
    let (c, e, whole) =
      reduce_run-Whole files slot measurement state (ap (λ (x : Row). x.status) (sym r) ∙ k) in
    (there, (state, c, e, read, whole))
