-- ===== src/Harness/Accounting.antt =====
-- The accounting of the rows in `analyze_locked` of analysis.py.
pub mod Sums
use weavegate.Prelude.{
  ℕ, suc, String, Bool, true, false, not, ◌&&◌, Option, none, some, List, [], ◌∷◌, map, keep,
  length, ◌==◌, string_eq, if◌then◌else◌,
}
use weavegate.Prelude.Dict
use weavegate.Prelude.Dict.{Dict}
use weavegate.Harness.Trial.{Classification}
use weavegate.Harness.Analysis.{class_name}

-- The fields of a row that are counted.
pub record Row : Type 0 where
  pub workload : String
  pub arm : String
  pub classification : Classification
  pub reason : String
  pub started : Bool

pub record Account : Type 0 where
  -- `Counter` of the classifications; `planned`, `started` and `reasons` are keys beside them.
  pub classes : Dict String ℕ
  pub planned : ℕ
  pub started : ℕ
  pub reasons : Dict String ℕ

unfoldable pub count_of : Option ℕ → ℕ
count_of none = 0
count_of (some n) = n

-- `Counter`: one more of the key.
unfoldable pub bump : String → Dict String ℕ → Dict String ℕ
bump key d = Dict.put key (suc (count_of (Dict.get key d))) d

unfoldable pub tally : Dict String ℕ → List String → Dict String ℕ
tally d [] = d
tally d (key ∷ keys) = tally (bump key d) keys

unfoldable pub in_group : String → String → Row → Bool
in_group workload arm r = r.workload == workload && r.arm == arm

unfoldable pub account : List Row → (workload arm : String) → Account
account rows workload arm =
    let arm_rows = keep (in_group workload arm) rows in
    record {
      classes = tally [] (map (λ (r : Row). class_name r.classification) arm_rows);
      planned = length arm_rows;
      started = length (keep (λ (r : Row). r.started) arm_rows);
      reasons =
          tally []
            (map (λ (r : Row). r.reason) (keep (λ (r : Row). not (r.reason == "")) arm_rows));
    }
