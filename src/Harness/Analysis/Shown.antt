-- ===== src/Harness/Analysis/Shown.antt =====
-- What a demonstrated improvement rests on.
use weavegate.Prelude.{
  ℕ, ◌≡◌, ◌≢◌, refl, ap, ◌∙◌, String, Bool, true, false, Option, none, some, List, [], ◌∷◌, ◌++◌,
  All, ◌==◌, nat_eq, string_eq, or-false, Bool-cases, inl, inr,
}
use weavegate.Prelude.Dict
use weavegate.Prelude.Dict.{Dict}
use weavegate.Prelude.Result.{Result, ok-injective, ok, >>=-eq-ok}
use weavegate.Harness.Analysis.Pairs.{found-eq-ok}
use weavegate.Harness.Analysis.{
  Experiment, e1, e2, other, no_positive_claim, improvement_demonstrated, Floats, Estimate,
  Decision, Evidence, primary, primary_metric, resource_names, cost_metrics, total, found,
  has_reasons, reason_if, status_of, threshold, unshown, incomplete, undefined_costs, confirm,
  decide,
}

has_reasons-All : (d : Dict String (List String)) → has_reasons d ≡ false → All (λ e. e.1 ≡ []) d
unfolding has_reasons
has_reasons-All [] h = tt
has_reasons-All ((block, []) ∷ d) h = (refl, has_reasons-All d h)
has_reasons-All ((block, r ∷ rs) ∷ d) h = cc

-- The primary endpoint: the ratio is at most the limit, and the upper bound of its interval is
-- below one.
pub record Improved (f : Floats) (limit : f.Float) (e : Estimate f.Float) : Type 0 where
  pub ratio : f.Float
  pub low : f.Float
  pub high : f.Float
  pub is_ratio : e.ratio ≡ some ratio
  pub is_interval : e.interval ≡ some (some (low, high))
  pub within : f.gt ratio limit ≡ false
  pub below_one : f.ge high f.one ≡ false

unshown-Improved :
    (f : Floats) (limit : f.Float) (e : Estimate f.Float)
    → unshown f limit e.ratio e.interval ≡ false
    → Improved f limit e
unfolding unshown
unshown-Improved f limit e h = shown e.ratio e.interval refl refl h
  where
    shown :
        (ratio : Option f.Float) (interval : Option (Option (f.Float × f.Float)))
        → e.ratio ≡ ratio
        → e.interval ≡ interval
        → unshown f limit ratio interval ≡ false
        → Improved f limit e
    shown none interval p q k = cc
    shown (some r) none p q k = cc
    shown (some r) (some none) p q k = cc
    shown (some r) (some (some (low, high))) p q k =
        let (a, b) = or-false (f.gt r limit) (f.ge high f.one) k in
        record {
          ratio = r;
          low = low;
          high = high;
          is_ratio = p;
          is_interval = q;
          within = a;
          below_one = b;
        }

-- The estimate of a metric counts every planned pair.
pub Counted : (f : Floats) → (String → Result (Estimate f.Float)) → ℕ → String → Type 0
Counted f results count name = (e : Estimate f.Float) × (results name ≡ ok e) × (e.n ≡ count)

incomplete-All :
    (f : Floats) (results : String → Result (Estimate f.Float)) (count : ℕ) (names : List String)
    → incomplete f results count names ≡ ok false
    → All (Counted f results count) names
unfolding incomplete Counted
incomplete-All f results count [] h = tt
incomplete-All f results count (name ∷ names) h =
    let (e, ee, h1) = >>=-eq-ok (results name) _ h in
    elim (Bool-cases (e.n == count)) [
      | inl q ↦ (
        (e, ee, (nat_eq.beq_iff e.n count).0 q),
        incomplete-All f results count names (rw q at h1),
      )
      | inr q ↦ (let h2 = rw q at h1 in cc)
    ]

reasons-none :
    (a b c d : Bool) (w x y z : String)
    → status_of (reason_if a w ++ (reason_if b x ++ (reason_if c y ++ reason_if d z)))
      ≡ improvement_demonstrated
    → (a ≡ false) × (b ≡ false) × (c ≡ false) × (d ≡ false)
unfolding status_of
reasons-none true b c d w x y z h = elim (distinct_status h) [ ]
  where
    distinct_status : no_positive_claim ≡ improvement_demonstrated → ⊥
    distinct_status e = cc
reasons-none false true c d w x y z h = cc
reasons-none false false true d w x y z h = cc
reasons-none false false false true w x y z h = cc
reasons-none false false false false w x y z h = (refl, refl, refl, refl)

pub record Demonstrated (f : Floats) (x : Experiment) (v : Evidence f.Float) : Type 0 where
  pub analysed : x ≢ other
  pub confirmed : v.confirmation ≡ true
  pub pairs : All (λ e. e.1 ≡ []) v.pair_reasons
  pub undeviated : v.deviations ≡ false
  pub counts : List ℕ
  pub planned : Dict.get (primary x) v.strata ≡ some counts
  pub measured : All (Counted f (v.results (primary x)) (total counts)) (resource_names x)
  pub endpoint : Estimate f.Float
  pub is_endpoint : v.results (primary x) (primary_metric x) ≡ ok endpoint
  pub improved : Improved f (threshold f x) endpoint

confirm-Demonstrated :
    (f : Floats) (x : Experiment) (v : Evidence f.Float) (d : Decision)
    → confirm f x v ≡ ok d
    → x ≢ other
    → v.confirmation ≡ true
    → d.status ≡ improvement_demonstrated
    → Demonstrated f x v
unfolding confirm
confirm-Demonstrated f x v d h known phase shown =
    let results = v.results (primary x) in
    let (e, ee, h1) = >>=-eq-ok (results (primary_metric x)) _ h in
    let (counts, ec, h2) = >>=-eq-ok (found (Dict.get (primary x) v.strata)) _ h1 in
    let (missing, em, h3) =
      >>=-eq-ok (incomplete f results (total counts) (resource_names x)) _ h2 in
    let (costs, _, h4) = >>=-eq-ok (undefined_costs f results (cost_metrics x)) _ h3 in
    let status = ap (λ (k : Decision). k.status) (ok-injective _ d h4) ∙ shown in
    let (a, b, c, g) =
      reasons-none (has_reasons v.pair_reasons) v.deviations missing
        (unshown f (threshold f x) e.ratio e.interval) _ _ _ _ status in
    record {
      analysed = known;
      confirmed = phase;
      pairs = has_reasons-All v.pair_reasons a;
      undeviated = b;
      counts = counts;
      planned = found-eq-ok _ counts ec;
      measured = incomplete-All f results (total counts) (resource_names x) (em ∙ ap ok c);
      endpoint = e;
      is_endpoint = ee;
      improved = unshown-Improved f (threshold f x) e g;
    }

-- An improvement is only said to be demonstrated in the confirmation phase of E1 or E2, where no
-- planned pair has a reason against it, no deviation is registered, each resource was measured in
-- every planned pair of the primary workload, and its endpoint has a ratio that is at most the
-- threshold with an interval whose upper bound is below one.
pub decide-Demonstrated :
    (f : Floats) (x : Experiment) (v : Evidence f.Float) (d : Decision)
    → decide f x v ≡ ok d
    → d.status ≡ improvement_demonstrated
    → Demonstrated f x v
unfolding decide confirm
decide-Demonstrated f other v d h shown =
    let status = ap (λ (k : Decision). k.status) (ok-injective _ d h) ∙ shown in cc
decide-Demonstrated f e1 v d h shown = elim (Bool-cases v.confirmation) [
  | inl q ↦ confirm-Demonstrated f e1 v d (rw q at h) (λ e. cc) q shown
  | inr q ↦
      (let status = ap (λ (k : Decision). k.status) (ok-injective _ d (rw q at h)) ∙ shown in cc)
]
decide-Demonstrated f e2 v d h shown = elim (Bool-cases v.confirmation) [
  | inl q ↦ confirm-Demonstrated f e2 v d (rw q at h) (λ e. cc) q shown
  | inr q ↦
      (let status = ap (λ (k : Decision). k.status) (ok-injective _ d (rw q at h)) ∙ shown in cc)
]
