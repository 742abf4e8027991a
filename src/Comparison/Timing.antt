-- ===== src/Comparison/Timing.antt =====
-- Timing receipts of analyze.py: `bound`, `membership` and `stages`. Times are whole nanoseconds.
use weavegate.Prelude.{
  ℕ, ◌+◌, ◌-◌, max, String, Bool, true, false, not, ◌&&◌, ◌||◌, Option, none, some, List, [], ◌∷◌,
  ◌++◌, leb, ltb, elem, keep, get_elem?, ◌==◌, string_eq, nat_eq, if◌then◌else◌,
}
use weavegate.Prelude.Dict
use weavegate.Prelude.Dict.{Dict}
use weavegate.Prelude.Result.{Result, Check, ok, err, ◌>>◌, need}

-- An end on an inner clock as an interval on the outer one: the outer clock may have run before
-- the inner one started. `none` is a value that is no number.
unfoldable pub bound : Option ℕ → Option ℕ → Option ℕ → Option (ℕ × ℕ)
bound (some local_end) (some local_duration) (some whole) =
    if leb local_end local_duration && leb local_duration whole
    then some (local_end, (local_end + whole) - local_duration)
    else none
bound _ _ _ = none

pub data Membership : Type 0 where
  unknown in_budget late budget_membership_unknown : Membership

unfoldable pub membership : Option (ℕ × ℕ) → ℕ → Membership
membership none cap = unknown
membership (some (low, high)) cap =
    if leb high cap then in_budget else if ltb cap low then late else budget_membership_unknown

pub record Span : Type 0 where
  pub id : ℕ
  pub parent_id : ℕ
  pub name : String
  pub start_ns : ℕ
  pub duration_ns : ℕ

abbrev pub end_ns : Span → ℕ
end_ns s = s.start_ns + s.duration_ns

pub record Stages : Type 0 where
  pub durations : Dict String (List ℕ)
  pub covered : ℕ
  pub remainder : ℕ

-- `totals[name].append(duration)`.
abbrev or_empty : Option (List ℕ) → List ℕ
or_empty none = []
or_empty (some ds) = ds

totals : Dict String (List ℕ) → List Span → Dict String (List ℕ)
totals d [] = d
totals d (s ∷ spans) =
    totals (Dict.put s.name (or_empty (Dict.get s.name d) ++ s.duration_ns ∷ []) d) spans

abbrev pub Interval : Type 0
Interval = ℕ × ℕ

-- The order of Python's pairs.
unfoldable pub not_after : Interval → Interval → Bool
not_after (a, b) (c, d) = ltb a c || (a == c && leb b d)

unfoldable pub insert : Interval → List Interval → List Interval
insert x [] = x ∷ []
insert x (y ∷ ys) = let rest = insert x ys in if not_after x y then x ∷ y ∷ ys else y ∷ rest

-- `sorted(intervals)`.
unfoldable pub sort : List Interval → List Interval
sort [] = []
sort (x ∷ xs) = insert x (sort xs)

-- The loop over the sorted intervals; `previous` is how far they have reached.
unfoldable pub sweep : ℕ → ℕ → List Interval → ℕ
sweep union previous [] = union
sweep union previous ((a, b) ∷ intervals) =
    sweep (union + (b - max a previous)) (max previous b) intervals

nests : Option Span → Span → Bool
nests none s = false
nests (some p) s = leb p.start_ns s.start_ns && leb (end_ns s) (end_ns p)

-- The tests on one span, at its index, under the root.
unfoldable pub span_check : List Span → Span → ℕ → Span → Check
unfolding nests
span_check spans root index s = do
  need (s.id == index + 1 && ltb s.parent_id s.id) "invalid timing hierarchy"
  need (index == 0 || ltb 0 s.parent_id) "unrooted timing span"
  need (leb root.start_ns s.start_ns && leb (end_ns s) (end_ns root)) "invalid timing interval"
  need (s.parent_id == 0 || nests (get_elem? spans (s.parent_id - 1)) s) "span outside parent"

unfoldable pub span_checks : List Span → Span → ℕ → List Span → Check
span_checks spans root index [] = ok tt
span_checks spans root index (s ∷ rest) = do
  span_check spans root index s
  span_checks spans root (index + 1) rest

unfoldable pub is_leaf : Span → Bool
is_leaf s =
    not (elem s.name ("command" ∷ "execution" ∷ "schedule_run" ∷ "replay" ∷ "explore_pass" ∷ []))

-- The intervals of the spans that hold no other stage.
unfoldable pub leaf_intervals : List Span → List Interval
leaf_intervals [] = []
leaf_intervals (s ∷ spans) =
    let rest = leaf_intervals spans in if is_leaf s then (s.start_ns, end_ns s) ∷ rest else rest

is_empty : List Span → Bool
is_empty [] = true
is_empty _ = false

unfoldable pub roots : List Span → List Span
roots spans = keep (λ (s : Span). s.name == "command") spans

unfoldable pub measure : List Span → Span → ℕ → Result (Option Stages)
unfolding totals
measure spans root seconds =
    let covered = sweep 0 root.start_ns (sort (leaf_intervals spans)) in
    do
      need (root.id == 1 && root.parent_id == 0) "invalid command timing root"
      need (leb root.duration_ns seconds) "command timing exceeds invocation"
      span_checks spans root 0 spans
      need (leb covered seconds) "negative outer remainder"
      ok (
          some (record {
            durations = totals [] spans;
            covered = covered;
            remainder = seconds - covered;
          }))

unfoldable pub measure_one : List Span → ℕ → List Span → Result (Option Stages)
measure_one spans seconds (root ∷ []) = measure spans root seconds
measure_one spans seconds _ = err "one command timing root required"

-- `none` stands for timing that is allowed to be missing.
unfoldable pub stages : List Span → ℕ → Bool → Result (Option Stages)
unfolding is_empty
stages spans seconds allow_missing =
    if allow_missing && is_empty spans then ok none else measure_one spans seconds (roots spans)
