-- ===== src/Harness/Analysis.antt =====
-- The pairs and the decision of `analyze_locked` in analysis.py.
pub mod Shown
pub mod Pairs
mod Tests
use weavegate.Prelude.{
  ℕ, ◌+◌, String, Bool, true, false, not, ◌&&◌, ◌||◌, Option, none, some, List, [], ◌∷◌, ◌++◌, leb,
  any, ◌==◌, string_eq, nat_eq, if◌then◌else◌,
}
use weavegate.Prelude.Dict
use weavegate.Prelude.Dict.{Dict}
use weavegate.Prelude.Result.{Result, ok, err, ◌>>=◌}
use weavegate.Harness.Trial.{
  Classification, not_started, operational_failure, quality_failure, complete,
}

-- The row of an arm. `created` and `completed` are what `timestamp` makes of its CI facts, in
-- microseconds, and `none` where there is no such fact or no such time.
pub record Arm (Fact : Type 0) : Type 0 where
  pub classification : Classification
  pub reason : String
  pub facts : Dict String Fact
  pub created : Option ℕ
  pub completed : Option ℕ

unfoldable pub class_name : Classification → String
class_name not_started = "not_started"
class_name operational_failure = "operational_failure"
class_name quality_failure = "quality_failure"
class_name complete = "complete"

unfoldable pub is_complete : Classification → Bool
is_complete complete = true
is_complete _ = false

unfoldable pub found {ℓ} : {A : Type ℓ} → Option A → Result A
found none = err "KeyError"
found (some a) = ok a

unfoldable pub lag_reasons : (completed created : Option ℕ) → List String
lag_reasons (some a) (some b) =
    if leb a b && leb b (a + 300000000) then [] else "pairing_window_missed" ∷ []
lag_reasons _ _ = "pairing_window_missing" ∷ []

abbrev pub is_nonempty {ℓ} : {A : Type ℓ} → List A → Bool
is_nonempty [] = false
is_nonempty (_ ∷ _) = true

-- `json_equal` is that of common.py.
module _ {Fact : Type 0} (json_equal : Fact → Fact → Bool) where
  unfoldable pub failure : Arm Fact → List String
  failure r =
      if is_complete r.classification
      then []
      else (if r.reason == "" then class_name r.classification else r.reason) ∷ []

  -- `any` over the keys.
  unfoldable pub facts_differ : List String → Arm Fact → Arm Fact → Result Bool
  facts_differ [] b w = ok false
  facts_differ (key ∷ keys) b w = do
    let rest = facts_differ keys b w
    x ← found (Dict.get key b.facts)
    y ← found (Dict.get key w.facts)
    if json_equal x y then rest else ok true

  -- The arms are the baseline and the candidate, and then the first and the second in time.
  unfoldable pub pair_reasons :
      (e2 : Bool) → List String → (b w first second : Arm Fact) → Result (List String)
  pair_reasons e2 keys b w first second =
      let failed = failure b ++ failure w in
      if is_nonempty failed then ok failed else (do
        differ ← facts_differ keys b w
        ok (
            if differ
            then "paired_facts_mismatch" ∷ []
            else if e2
            then lag_reasons first.completed second.created
            else []))

pub data Experiment : Type 0 where
  e1 e2 other : Experiment

pub data Status : Type 0 where
  descriptive accounting_only no_positive_claim improvement_demonstrated : Status

-- Python's floating-point numbers, as far as the decision uses them.
pub record Floats : Type 1 where
  pub Float : Type 0
  pub gt : Float → Float → Bool
  pub ge : Float → Float → Bool
  pub threshold_e1 : Float
  pub threshold_e2 : Float
  pub cost_limit : Float
  pub one : Float

pub record Estimate (Float : Type 0) : Type 0 where
  pub n : ℕ
  pub ratio : Option Float
  -- The interval has no ratio where a bootstrap ratio cannot be represented.
  pub interval : Option (Option (Float × Float))

pub record Decision : Type 0 where
  pub status : Status
  pub reasons : List String
  pub higher_resource_cost : List String
  pub undefined_resource_ratios : List String

-- What the analysis has computed before it decides.
pub record Evidence (Float : Type 0) : Type 0 where
  pub confirmation : Bool
  pub pair_reasons : Dict String (List String)
  pub deviations : Bool
  pub strata : Dict String (List ℕ)
  pub results : String → String → Result (Estimate Float)

unfoldable pub primary : Experiment → String
primary e1 = "example-fixed-replay"
primary _ = "external-acceptance"

unfoldable pub primary_metric : Experiment → String
primary_metric e1 = "gate_seconds"
primary_metric _ = "validation_seconds"

abbrev pub e1_resources : List String
e1_resources =
    "cpu_seconds" ∷ "peak_memory_bytes" ∷ "containers_created" ∷ "peak_containers"
    ∷ "disk_write_bytes" ∷ "artifact_bytes" ∷ "cache_bytes" ∷ []

unfoldable pub resource_names : Experiment → List String
resource_names e1 = e1_resources
resource_names _ = "runner_minutes" ∷ "peak_runner_concurrency" ∷ []

unfoldable pub cost_metrics : Experiment → List String
cost_metrics e1 = e1_resources
cost_metrics _ = "runner_minutes" ∷ []

unfoldable pub total : List ℕ → ℕ
total [] = 0
total (n ∷ ns) = n + total ns

unfoldable pub has_reasons : Dict String (List String) → Bool
has_reasons [] = false
has_reasons ((block, reasons) ∷ d) = is_nonempty reasons || has_reasons d

abbrev pub reason_if : Bool → String → List String
reason_if c reason = if c then reason ∷ [] else []

unfoldable pub status_of : List String → Status
status_of [] = improvement_demonstrated
status_of (_ ∷ _) = no_positive_claim

module _ (f : Floats) where
  unfoldable pub threshold : Experiment → f.Float
  threshold e1 = f.threshold_e1
  threshold _ = f.threshold_e2

  -- The test of the primary endpoint, true where the improvement is not shown.
  unfoldable pub unshown : f.Float → Option f.Float → Option (Option (f.Float × f.Float)) → Bool
  unshown limit none interval = true
  unshown limit (some r) none = true
  unshown limit (some r) (some none) = true
  unshown limit (some r) (some (some (low, high))) = f.gt r limit || f.ge high f.one

  unfoldable pub incomplete : (String → Result (Estimate f.Float)) → ℕ → List String → Result Bool
  incomplete results count [] = ok false
  incomplete results count (name ∷ names) = do
    let rest = incomplete results count names
    e ← results name
    if e.n == count then rest else ok true

  unfoldable pub undefined_costs :
      (String → Result (Estimate f.Float)) → List String → Result (List String × List String)
  undefined_costs results [] = ok ([], [])
  undefined_costs results (name ∷ names) = do
    e ← results name
    (higher, undefined) ← undefined_costs results names
    ok (place name e.ratio higher undefined)
    where
      place : String → Option f.Float → List String → List String → List String × List String
      place name none higher undefined = (higher, name ∷ undefined)
      place name (some r) higher undefined =
          (reason_if (f.gt r f.cost_limit) name ++ higher, undefined)

  unfoldable pub confirm : Experiment → Evidence f.Float → Result Decision
  confirm experiment v = do
    let results = v.results (primary experiment)
    endpoint ← results (primary_metric experiment)
    counts ← found (Dict.get (primary experiment) v.strata)
    missing ← incomplete results (total counts) (resource_names experiment)
    (higher, undefined) ← undefined_costs results (cost_metrics experiment)
    let reasons =
        reason_if (has_reasons v.pair_reasons) "incomplete_or_invalid_planned_pairs"
        ++ (reason_if v.deviations "registered_deviation_requires_descriptive_reporting"
            ++ (reason_if missing "resource_measurements_incomplete"
                ++ reason_if (unshown (threshold experiment) endpoint.ratio endpoint.interval)
                    "practical_improvement_not_demonstrated"))
    ok (record {
      status = status_of reasons;
      reasons = reasons;
      higher_resource_cost = higher;
      undefined_resource_ratios = undefined;
    })

  abbrev plain : Status → List String → Decision
  plain status reasons = record {
    status = status;
    reasons = reasons;
    higher_resource_cost = [];
    undefined_resource_ratios = [];
  }

  unfoldable pub decide : Experiment → Evidence f.Float → Result Decision
  decide other v = ok (plain accounting_only ("protocol_analysis_not_implemented" ∷ []))
  decide e1 v = if v.confirmation then confirm e1 v else ok (plain descriptive [])
  decide e2 v = if v.confirmation then confirm e2 v else ok (plain descriptive [])
