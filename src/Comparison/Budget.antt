-- ===== src/Comparison/Budget.antt =====
-- What `membership` says of an event whose time is known on an inner clock.
use weavegate.Prelude.{ℕ, ◌+◌, ◌-◌, ◌≤◌, ◌<◌, some, ◌≡◌, ◌↔◌, arith, leb→le}
use weavegate.Comparison.Timing.{bound, membership, in_budget, late}

module _ (local_end local_duration whole : ℕ) (interval : ℕ × ℕ) (cap : ℕ) where
  bound-parts :
      bound (some local_end) (some local_duration) (some whole) ≡ some interval
      → (local_end ≤ local_duration)
        × (local_duration ≤ whole)
        × (interval.0 ≡ local_end)
        × (interval.1 ≡ (local_end + whole) - local_duration)
  unfolding bound
  bound-parts h = ground (arith, leb→le local_end local_duration, leb→le local_duration whole)

  membership-parts :
      ((membership (some interval) cap ≡ in_budget) ↔ (interval.1 ≤ cap))
      × ((interval.0 ≤ interval.1) → (membership (some interval) cap ≡ late) ↔ (cap < interval.0))
  unfolding membership
  membership-parts = (ground arith, λ o. ground arith)

  -- An event is counted in the budget exactly when it is, wherever the inner clock started, and
  -- counted late exactly when it is late wherever that clock started: the two verdicts claim
  -- nothing that the timing leaves open, and miss nothing that it settles.
  pub membership-exact :
      bound (some local_end) (some local_duration) (some whole) ≡ some interval
      → ((membership (some interval) cap ≡ in_budget)
          ↔ ((offset : ℕ) → offset + local_duration ≤ whole → offset + local_end ≤ cap))
        × ((membership (some interval) cap ≡ late)
            ↔ ((offset : ℕ) → offset + local_duration ≤ whole → cap < offset + local_end))
  membership-exact h =
      let (ends, fits, low, high) = bound-parts h in
      let (budget, lateness) = membership-parts in
      let ordered : interval.0 ≤ interval.1 = omega (arith, low, high, ends, fits) in
      (
        (
          λ m offset f. let b = budget.0 m in omega (arith, low, high, ends, fits, b, f),
          λ all. budget.1 (
              let last = all (whole - local_duration) (omega arith) in
              omega (arith, low, high, ends, fits, last)),
        ),
        (
          λ m offset f. let l = (lateness ordered).0 m in omega (arith, low, l),
          λ all.
              (lateness ordered).1 (let first = all 0 (omega arith) in omega (arith, low, first)),
        ),
      )
