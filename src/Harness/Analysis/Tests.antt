-- ===== src/Harness/Analysis/Tests.antt =====
-- A pair of E2, a decision of E1 and an account.
use weavegate.Prelude.{
  ℕ, ◌≤◌, ◌≡◌, refl, String, true, false, some, List, [], ◌∷◌, All, map, keep, ltb, leb, nat_beq,
  string_eq,
}
use weavegate.Prelude.Dict
use weavegate.Prelude.Dict.{Dict}
use weavegate.Prelude.Result.{ok}
use weavegate.Harness.Trial.{Classification, operational_failure, complete}
use weavegate.Harness.Analysis.{
  Arm, class_name, is_complete, found, lag_reasons, failure, facts_differ, pair_reasons, e1,
  improvement_demonstrated, Floats, Estimate, Decision, Evidence, primary, primary_metric,
  resource_names, cost_metrics, total, has_reasons, status_of, threshold, unshown, incomplete,
  undefined_costs, confirm, decide,
}
use weavegate.Harness.Analysis.Pairs.{Window, Agrees, pair_reasons-Agrees}
use weavegate.Harness.Analysis.Shown.{Demonstrated, decide-Demonstrated}
use weavegate.Harness.Accounting.{Row, count_of, bump, tally, in_group, account}
use weavegate.Harness.Accounting.Sums.{sum_values, occurrences, account-sum}

abbrev some_arm : ℕ → ℕ → Arm ℕ
some_arm begin end = record {
  classification = complete;
  reason = "";
  facts = ("engine", 4) ∷ [];
  created = some begin;
  completed = some end;
}

pair_run :
    pair_reasons nat_beq true
      ("engine" ∷ [])
      (some_arm 500 900)
      (some_arm 10 400)
      (some_arm 10 400)
      (some_arm 500 900)
    ≡ ok []
unfolding pair_reasons failure is_complete facts_differ found lag_reasons Dict.get
pair_run = refl

pair_reasons-Agrees_example :
    ((some_arm 500 900).classification ≡ complete)
    × ((some_arm 10 400).classification ≡ complete)
    × All (Agrees nat_beq (some_arm 500 900) (some_arm 10 400)) ("engine" ∷ [])
    × ((true ≡ true) → Window (some 400) (some 500))
pair_reasons-Agrees_example =
    pair_reasons-Agrees nat_beq true ("engine" ∷ []) (some_arm 500 900) (some_arm 10 400)
      (some_arm 10 400) (some_arm 500 900) pair_run

-- Ratios in percent stand for the floats.
abbrev percents : Floats
percents = record {
  Float = ℕ;
  gt = λ a b. ltb b a;
  ge = λ a b. leb b a;
  threshold_e1 = 85;
  threshold_e2 = 80;
  cost_limit = 110;
  one = 100;
}

abbrev some_estimate : Estimate ℕ
some_estimate = record { n = 30; ratio = some 70; interval = some (some (60, 90)) }

abbrev some_evidence : Evidence ℕ
some_evidence = record {
  confirmation = true;
  pair_reasons = ("example-fixed-replay-01-001", []) ∷ [];
  deviations = false;
  strata = ("example-fixed-replay", 10 ∷ 10 ∷ 10 ∷ []) ∷ [];
  results = λ workload metric. ok some_estimate;
}

abbrev some_decision : Decision
some_decision = record {
  status = improvement_demonstrated;
  reasons = [];
  higher_resource_cost = [];
  undefined_resource_ratios = [];
}

decide_run : decide percents e1 some_evidence ≡ ok some_decision
unfolding decide confirm primary primary_metric resource_names cost_metrics total has_reasons
    status_of threshold unshown incomplete undefined_costs found Dict.get
decide_run = refl

decide-Demonstrated_example : Demonstrated percents e1 some_evidence
decide-Demonstrated_example =
    decide-Demonstrated percents e1 some_evidence some_decision decide_run refl

abbrev some_row : Classification → String → Row
some_row c reason = record {
  workload = "example";
  arm = "baseline";
  classification = c;
  reason = reason;
  started = true;
}

abbrev some_rows : List Row
some_rows =
    some_row complete "" ∷ some_row operational_failure "budget_expired" ∷ some_row complete "" ∷ []

account_run :
    (account some_rows "example" "baseline").classes
    ≡ ("complete", 2) ∷ ("operational_failure", 1) ∷ []
unfolding account tally bump count_of in_group class_name Dict.get Dict.put
account_run = refl

account-sum_example :
    (sum_values (account some_rows "example" "baseline").classes
      ≡ (account some_rows "example" "baseline").planned)
    × ((c : Classification)
        → count_of (Dict.get (class_name c) (account some_rows "example" "baseline").classes)
          ≡ occurrences (class_name c) (
              map
                (λ (r : Row). class_name r.classification)
                (keep (in_group "example" "baseline") some_rows)))
    × ((account some_rows "example" "baseline").started
        ≤ (account some_rows "example" "baseline").planned)
    × (sum_values (account some_rows "example" "baseline").reasons
        ≤ (account some_rows "example" "baseline").planned)
account-sum_example = account-sum some_rows "example" "baseline"
