-- ===== src/Comparison/Sweep.antt =====
-- What the sweep of `stages` measures: the time that some stage covers.
use weavegate.Prelude.{
  ℕ, zero, suc, ◌+◌, ◌-◌, ◌≤◌, ◌<◌, max, Bool, true, false, ◌&&◌, ◌||◌, List, [], ◌∷◌, ◌≡◌, refl,
  ap, ◌∙◌, inl, inr, arith, leb, ltb, leb→le, Bool-cases, string_eq, nat_eq, if◌then◌else◌,
}
use weavegate.Comparison.Timing.{Interval, sweep}

-- How many of the `n` numbers from `low` on pass the test.
unfoldable pub count : (ℕ → Bool) → ℕ → ℕ → ℕ
count p low zero = 0
count p low (suc n) = let rest = count p (suc low) n in if p low then suc rest else rest

-- The nanosecond that starts at `t` lies in one of the intervals.
unfoldable pub is_covered : List Interval → ℕ → Bool
is_covered [] t = false
is_covered ((a, b) ∷ intervals) t = (leb a t && ltb t b) || is_covered intervals t

pub count-cong :
    (p q : ℕ → Bool) (low n : ℕ)
    → ((t : ℕ) → low ≤ t → t < low + n → p t ≡ q t)
    → count p low n ≡ count q low n
unfolding count
count-cong p q low zero h = refl
count-cong p q low (suc n) h =
    let rest = count-cong p q (suc low) n (λ t l u. h t (omega arith) (omega arith)) in
    let here = h low (omega arith) (omega arith) in ground (arith, rest, here)

count-all :
    (p : ℕ → Bool) (low n : ℕ) → ((t : ℕ) → low ≤ t → t < low + n → p t ≡ true) → count p low n ≡ n
unfolding count
count-all p low zero h = refl
count-all p low (suc n) h =
    let rest = count-all p (suc low) n (λ t l u. h t (omega arith) (omega arith)) in
    let here = h low (omega arith) (omega arith) in ground (arith, rest, here)

count-none :
    (p : ℕ → Bool) (low n : ℕ) → ((t : ℕ) → low ≤ t → t < low + n → p t ≡ false) → count p low n ≡ 0
unfolding count
count-none p low zero h = refl
count-none p low (suc n) h =
    let rest = count-none p (suc low) n (λ t l u. h t (omega arith) (omega arith)) in
    let here = h low (omega arith) (omega arith) in ground (arith, rest, here)

count-add : (p : ℕ → Bool) (low n m : ℕ) → count p low (n + m) ≡ count p low n + count p (low + n) m
unfolding count
count-add p low zero m =
    let same : count p low (0 + m) ≡ count p low m = ap (count p low) (omega arith) in
    let moved : count p (low + 0) m ≡ count p low m = ap (λ k. count p k m) (omega arith) in
    ground (arith, same, moved)
count-add p low (suc n) m =
    let rest = count-add p (suc low) n m in
    let more : count p low (suc n + m) ≡ count p low (suc (n + m)) =
      ap (count p low) {y = suc (n + m)} (omega arith) in
    let later : count p (suc low + n) m ≡ count p (low + suc n) m =
      ap (λ k. count p k m) (omega arith) in
    ground (arith, rest, more, later)

-- The intervals start at `a` or later.
unfoldable pub StartsAfter : ℕ → List Interval → Type 0
StartsAfter a [] = Unit
StartsAfter a ((c, d) ∷ intervals) = (a ≤ c) × StartsAfter a intervals

-- The intervals are sorted by their starts and end by `limit`.
unfoldable pub Ordered : ℕ → List Interval → Type 0
unfolding StartsAfter
Ordered limit [] = Unit
Ordered limit ((a, b) ∷ intervals) =
    (a ≤ b) × (b ≤ limit) × StartsAfter a intervals × Ordered limit intervals

is_covered-early :
    (a t : ℕ) (intervals : List Interval)
    → StartsAfter a intervals
    → t < a
    → is_covered intervals t ≡ false
unfolding is_covered StartsAfter
is_covered-early a t [] s h = refl
is_covered-early a t ((c, d) ∷ intervals) (here, s) h =
    ground (arith, is_covered-early a t intervals s h)

module _ (limit a b previous : ℕ) (intervals : List Interval) where
  -- An interval that ends before the sweep's place adds nothing.
  behind :
      b ≤ previous
      → count (is_covered ((a, b) ∷ intervals)) previous (limit - previous)
        ≡ count (is_covered intervals) previous (limit - previous)
  unfolding is_covered
  behind h = count-cong _ _ previous (limit - previous) (λ t l u. ground arith)

  -- One that ends later adds what lies between the sweep's place, or its start, and its end.
  ahead :
      previous < b
      → a ≤ b
      → b ≤ limit
      → StartsAfter a intervals
      → count (is_covered ((a, b) ∷ intervals)) previous (limit - previous)
        ≡ (b - max a previous) + count (is_covered intervals) b (limit - b)
  unfolding is_covered
  ahead h o l s =
      let p = is_covered ((a, b) ∷ intervals) in
      let m = max a previous in
      let none_before : count p previous (m - previous) ≡ 0 =
        count-none p previous (m - previous)
          (λ t low up. ground (arith, is_covered-early a t intervals s)) in
      let all_within : count p m (b - m) ≡ b - m =
        count-all p m (b - m) (λ t low up. ground arith) in
      let rest : count p b (limit - b) ≡ count (is_covered intervals) b (limit - b) =
        count-cong p (is_covered intervals) b (limit - b) (λ t low up. ground arith) in
      let first : count p previous (limit - previous)
          ≡ count p previous ((m - previous) + (limit - m)) =
        ap (count p previous) (omega arith) in
      let second : count p (previous + (m - previous)) (limit - m)
          ≡ count p m ((b - m) + (limit - b)) =
        ap (λ k. count p k (limit - m)) (omega arith) ∙ ap (count p m) (omega arith) in
      let third : count p (m + (b - m)) (limit - b) ≡ count p b (limit - b) =
        ap (λ k. count p k (limit - b)) (omega arith) in
      omega (
        arith,
        none_before,
        all_within,
        rest,
        first,
        second,
        third,
        count-add p previous (m - previous) (limit - m),
        count-add p m (b - m) (limit - b),
      )

pub sweep-count :
    (limit union previous : ℕ) (intervals : List Interval)
    → Ordered limit intervals
    → previous ≤ limit
    → sweep union previous intervals
      ≡ union + count (is_covered intervals) previous (limit - previous)
unfolding sweep Ordered is_covered
sweep-count limit union previous [] o h =
    let nothing = count-none (is_covered []) previous (limit - previous) (λ t l u. refl) in
    omega (arith, nothing)
sweep-count limit union previous ((a, b) ∷ intervals) (len, fits, after, o) h =
    elim (Bool-cases (leb b previous)) [
      | inl e ↦
          let le = leb→le b previous e in
          let rest =
            sweep-count limit (union + (b - max a previous)) (max previous b) intervals o
              (omega arith) in
          let place : count (is_covered intervals) (max previous b) (limit - max previous b)
              ≡ count (is_covered intervals) previous (limit - previous) =
            ap (λ k. count (is_covered intervals) k (limit - k)) (omega arith) in
          omega (arith, rest, place, behind limit a b previous intervals le)
      | inr e ↦
          let lt : previous < b = ground arith in
          let rest =
            sweep-count limit (union + (b - max a previous)) (max previous b) intervals o
              (omega arith) in
          let place : count (is_covered intervals) (max previous b) (limit - max previous b)
              ≡ count (is_covered intervals) b (limit - b) =
            ap (λ k. count (is_covered intervals) k (limit - k)) (omega arith) in
          omega (arith, rest, place, ahead limit a b previous intervals lt len fits after)
    ]
