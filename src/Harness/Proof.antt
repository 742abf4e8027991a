-- ===== src/Harness/Proof.antt =====
-- What a complete arm rests on.
use weavegate.Prelude.{
  ℕ, ◌<◌, String, true, false, Option, none, some, List, [], ◌∷◌, ◌≡◌, refl, sym, ap, ◌∙◌, inl, inr,
  arith, ◌⊎◌, Bool-cases, ltb→lt, elem, ◌==◌, string_eq, nat_eq,
}
use weavegate.Prelude.Dict
use weavegate.Prelude.Dict.{Dict, is_some, is_some-false}
use weavegate.Prelude.Text.{has_text}
use weavegate.Prelude.Result.{Result, Check, ok, err, >>=-eq-ok}
use weavegate.Harness.Trial.{
  Code, Receipt, Spec, Registration, command_valid, succeeded, steps, Scan, Attempt, not_started,
  complete, Row, Directory, in_sequence, advance, scan_step, scan, empty_scan, cleanup_proven,
  is_expected, unexpected, observed, run_outcome, judge, first_row, trial_of, of_attempt, trial,
}

-- The scan's error is not lost.
scan-error :
    (specs : String → Spec) (registration : Registration) (dir : Directory) (names : List String)
    (s : Scan)
    → (scan specs registration dir names s).validation_error ≡ none
    → s.validation_error ≡ none
unfolding scan scan_step advance
scan-error specs registration dir [] s h = h
scan-error specs registration dir (step ∷ rest) s h = scan_step-error (dir.receipt step) (
    scan-error specs registration dir rest (scan_step specs registration step (dir.receipt step) s)
      h)
  where
    scan_step-error :
        (o : Option (Result Receipt))
        → (scan_step specs registration step o s).validation_error ≡ none
        → s.validation_error ≡ none
    scan_step-error none k = k
    scan_step-error (some (err m)) k = cc
    scan_step-error (some (ok r)) k = ground arith

-- Every receipt that is there reads, and is valid for its step.
pub record Valid (specs : String → Spec) (registration : Registration) (step : String) (r : Receipt)
    : Type 0 where
  pub begun : command_valid (specs step) registration step r ≡ ok r.started_at
  pub after_registration : registration.registered_at < r.started_at

command_valid-Valid :
    (specs : String → Spec) (registration : Registration) (step : String) (r : Receipt) (begin : ℕ)
    → command_valid (specs step) registration step r ≡ ok begin
    → (begin ≡ r.started_at) × (registration.registered_at < r.started_at)
unfolding command_valid
command_valid-Valid specs registration step r begin h =
    ground (arith, ltb→lt registration.registered_at r.started_at)

in_sequence-Valid :
    (specs : String → Spec) (registration : Registration) (step : String) (r : Receipt)
    (previous : Option ℕ)
    → in_sequence specs registration step r previous ≡ ok tt
    → Valid specs registration step r
unfolding in_sequence
in_sequence-Valid specs registration step r previous h =
    let (begin, valid, rest) = >>=-eq-ok (command_valid (specs step) registration step r) _ h in
    let (same, after) = command_valid-Valid specs registration step r begin valid in
    record { begun = valid ∙ ap ok same; after_registration = after }

advance-ok :
    (r : Receipt) (s : Scan) (o : Check) → (advance r s o).validation_error ≡ none → o ≡ ok tt
unfolding advance
advance-ok r s (err m) h = cc
advance-ok r s (ok u) h = refl

scan_step-Valid :
    (specs : String → Spec) (registration : Registration) (step : String)
    (o : Option (Result Receipt)) (s : Scan)
    → (scan_step specs registration step o s).validation_error ≡ none
    → (o ≡ none) ⊎ ((r : Receipt) × (o ≡ some (ok r)) × Valid specs registration step r)
unfolding scan_step
scan_step-Valid specs registration step none s h = inl refl
scan_step-Valid specs registration step (some (err m)) s h = cc
scan_step-Valid specs registration step (some (ok r)) s h =
    inr (r, refl, in_sequence-Valid specs registration step r s.previous_end (advance-ok r _ _ h))

scan-Valid :
    (specs : String → Spec) (registration : Registration) (dir : Directory) (names : List String)
    (s : Scan)
    → (scan specs registration dir names s).validation_error ≡ none
    → (step : String) → elem step names ≡ true
    → (dir.receipt step ≡ none)
      ⊎ ((r : Receipt) × (dir.receipt step ≡ some (ok r)) × Valid specs registration step r)
unfolding scan
scan-Valid specs registration dir [] s h step m = cc
scan-Valid specs registration dir (name ∷ rest) s h step m =
    let s' = scan_step specs registration name (dir.receipt name) s in
    elim (Bool-cases (step == name)) [
      | inl e ↦
          let same = (string_eq.beq_iff step name).0 e in
          let here =
            scan_step-Valid specs registration name (dir.receipt name) s
              (scan-error specs registration dir rest s' h) in
          rw same here
      | inr e ↦ scan-Valid specs registration dir rest s' h step (ground arith)
    ]

-- What the row of a complete arm shows of its run, observation and check.
pub record Ran (dir : Directory) (attempt : Attempt) (commands : Dict String Receipt)
    (expected : List Code) (r : Receipt) : Type 0 where
  pub run : Dict.get "run" commands ≡ some r
  pub started : r.started ≡ true
  pub finished : r.finished ≡ true
  pub uninterrupted : r.interrupted ≡ false
  pub in_time : r.timeout ≡ false
  pub no_error : has_text r.error ≡ false
  pub exit_expected : is_expected expected r.exit ≡ true
  pub observed : succeeded (Dict.get "observe" commands) ≡ true
  pub checked : succeeded (Dict.get "check" commands) ≡ true
  pub attempt_finished : attempt.state ≡ "finished"
  pub observation_valid : dir.observation ≡ ok tt

observed-complete :
    (dir : Directory) (attempt : Attempt) (commands : Dict String Receipt) (row : Row)
    → (observed dir attempt commands row).classification ≡ complete
    → (succeeded (Dict.get "observe" commands) ≡ true)
      × (succeeded (Dict.get "check" commands) ≡ true)
      × (attempt.state ≡ "finished")
      × (dir.observation ≡ ok tt)
unfolding observed
observed-complete dir attempt commands row h =
    ground (arith, string_eq.beq_iff attempt.state "finished")

unexpected-incomplete : (r : Receipt) (row : Row) → (unexpected r row).classification ≡ complete → ⊥
unfolding unexpected
unexpected-incomplete r row h = ground arith

run_outcome-complete :
    (dir : Directory) (attempt : Attempt) (commands : Dict String Receipt) (expected : List Code)
    (r : Receipt) (row : Row)
    → (run_outcome dir attempt commands expected (some r) row).classification ≡ complete
    → (r.started ≡ true)
      × (r.finished ≡ true)
      × (r.interrupted ≡ false)
      × (r.timeout ≡ false)
      × (has_text r.error ≡ false)
      × (is_expected expected r.exit ≡ true)
      × ((observed dir attempt commands row).classification ≡ complete)
unfolding run_outcome
run_outcome-complete dir attempt commands expected r row h =
    ground (arith, unexpected-incomplete r row)

run_outcome-Ran :
    (dir : Directory) (attempt : Attempt) (commands : Dict String Receipt) (expected : List Code)
    (o : Option Receipt) (row : Row)
    → Dict.get "run" commands ≡ o
    → (run_outcome dir attempt commands expected o row).classification ≡ complete
    → (r : Receipt) × Ran dir attempt commands expected r
unfolding run_outcome
run_outcome-Ran dir attempt commands expected none row e h = cc
run_outcome-Ran dir attempt commands expected (some r) row e h =
    let (started, finished, uninterrupted, in_time, no_error, exit, rest) =
      run_outcome-complete dir attempt commands expected r row h in
    let (o, c, f, v) = observed-complete dir attempt commands row rest in
    (
      r,
      record {
        run = e;
        started = started;
        finished = finished;
        uninterrupted = uninterrupted;
        in_time = in_time;
        no_error = no_error;
        exit_expected = exit;
        observed = o;
        checked = c;
        attempt_finished = f;
        observation_valid = v;
      },
    )

judge-complete :
    (dir : Directory) (attempt : Attempt) (s : Scan) (expected : List Code) (row : Row)
    → (judge dir attempt s expected row).classification ≡ complete
    → (row.cleanup_proven ≡ true)
      × (s.validation_error ≡ none)
      × (attempt.observation_error ≡ "")
      × (attempt.reason ≡ "")
      × (succeeded (Dict.get "prepare" s.commands) ≡ true)
      × ((run_outcome dir attempt s.commands expected
            (Dict.get "run" s.commands)
            row).classification
          ≡ complete)
unfolding judge
judge-complete dir attempt s expected row h = ground (
  arith,
  is_some-false s.validation_error,
  string_eq.beq_iff attempt.observation_error "",
  string_eq.beq_iff attempt.reason "",
)

module _ (specs : String → Spec) (registration : Registration) (expected : List Code)
    (dir : Directory) where
  abbrev pub scanned : Scan
  scanned = scan specs registration dir steps empty_scan

  -- What a complete arm's directory holds.
  pub record Complete (attempt : Attempt) (r : Receipt) : Type 0 where
    pub read : dir.attempt ≡ some (ok attempt)
    pub no_reason : (attempt.reason ≡ "") × (attempt.observation_error ≡ "")
    pub cleaned : cleanup_proven dir attempt scanned.commands ≡ true
    pub prepared : succeeded (Dict.get "prepare" scanned.commands) ≡ true
    pub ran : Ran dir attempt scanned.commands expected r
    pub valid :
        (step : String)
        → elem step steps ≡ true
        → (dir.receipt step ≡ none)
          ⊎ ((q : Receipt) × (dir.receipt step ≡ some (ok q)) × Valid specs registration step q)

  first_row-proven :
      (attempt : Attempt)
      → (first_row dir attempt scanned).cleanup_proven ≡ cleanup_proven dir attempt scanned.commands
  unfolding first_row
  first_row-proven attempt = refl

  first_row-not_started :
      (attempt : Attempt) → (first_row dir attempt scanned).classification ≡ not_started
  unfolding first_row
  first_row-not_started attempt = refl

  trial_of-judged :
      (attempt : Attempt)
      → (trial_of specs registration expected dir attempt).classification ≡ complete
      → (judge dir attempt scanned expected (first_row dir attempt scanned)).classification
        ≡ complete
  unfolding trial_of
  trial_of-judged attempt h = ground (arith, first_row-not_started attempt)

  trial_of-Complete :
      (attempt : Attempt)
      → dir.attempt ≡ some (ok attempt)
      → (trial_of specs registration expected dir attempt).classification ≡ complete
      → (r : Receipt) × Complete attempt r
  trial_of-Complete attempt read h =
      let row = first_row dir attempt scanned in
      let judgement = trial_of-judged attempt h in
      let (cleaned, no_error, no_observation_error, no_reason, prepared, outcome) =
        judge-complete dir attempt scanned expected row judgement in
      let (r, ran) =
        run_outcome-Ran dir attempt scanned.commands expected (Dict.get "run" scanned.commands) row
          refl outcome in
      (
        r,
        record {
          read = read;
          no_reason = (no_reason, no_observation_error);
          cleaned = sym (first_row-proven attempt) ∙ cleaned;
          prepared = prepared;
          ran = ran;
          valid = scan-Valid specs registration dir steps empty_scan no_error;
        },
      )

  of_attempt-Complete :
      (o : Option (Result Attempt)) (row : Row)
      → dir.attempt ≡ o
      → of_attempt specs registration expected dir o ≡ ok row
      → row.classification ≡ complete
      → (attempt : Attempt) × (r : Receipt) × Complete attempt r
  unfolding of_attempt
  of_attempt-Complete none row e h k = ground arith
  of_attempt-Complete (some (err m)) row e h k = cc
  of_attempt-Complete (some (ok attempt)) row e h k =
      let (r, whole) = trial_of-Complete attempt e (ground arith) in (attempt, r, whole)

  -- An arm is complete only if each retained receipt is the frozen invocation of its step, begun
  -- after the registration; the prepare, observe and check commands succeeded; the run ended by
  -- itself in its time with an expected exit code; the observation is valid; the attempt finished
  -- without a reason against it; and the cleanup is proven.
  pub trial-Complete :
      (row : Row)
      → trial specs registration expected dir ≡ ok row
      → row.classification ≡ complete
      → (attempt : Attempt) × (r : Receipt) × Complete attempt r
  unfolding trial
  trial-Complete row h k = of_attempt-Complete dir.attempt row refl h k
