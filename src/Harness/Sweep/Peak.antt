-- ===== src/Harness/Sweep/Peak.antt =====
-- The peak of the sweep is the most intervals that contain one instant.
use weavegate.Prelude.{
  ℕ, suc, ◌+◌, ◌-◌, ◌*◌, ◌≤◌, ◌<◌, ◌≡◌, refl, List, [], ◌∷◌, ◌++◌, All, All-map, arith, leb, ltb,
  max, tests, Bool-cases, inl, inr, true, false, ◌&&◌, if◌then◌else◌,
}
use weavegate.Harness.Sweep.{Edge, starts, ends, edges, before, insert, sorted, peak, concurrency}

-- How many of the half-open intervals contain the instant.
unfoldable pub running : ℕ → List (ℕ × ℕ) → ℕ
running t [] = 0
running t ((a, b) ∷ is) = let rest = running t is in if leb a t && ltb t b then suc rest else rest

-- How many starts, and how many ends, there are at the instant or before it.
unfoldable begun_by : ℕ → List (ℕ × Edge) → ℕ
begun_by t [] = 0
begun_by t ((u, starts) ∷ es) = let rest = begun_by t es in if leb u t then suc rest else rest
begun_by t ((u, ends) ∷ es) = begun_by t es

unfoldable ended_by : ℕ → List (ℕ × Edge) → ℕ
ended_by t [] = 0
ended_by t ((u, starts) ∷ es) = ended_by t es
ended_by t ((u, ends) ∷ es) = let rest = ended_by t es in if leb u t then suc rest else rest

unfoldable rank : ℕ × Edge → ℕ
rank (t, ends) = 2 * t
rank (t, starts) = 2 * t + 1

abbrev Ordered : List (ℕ × Edge) → Type 0
Ordered [] = Unit
Ordered (e ∷ es) = All (λ f. rank e ≤ rank f) es × Ordered es

before-rank : (e f : ℕ × Edge) → before e f ≡ true → rank e ≤ rank f
unfolding before rank
before-rank (t, ends) (u, ends) h = grind tests
before-rank (t, ends) (u, starts) h = grind tests
before-rank (t, starts) (u, ends) h = grind tests
before-rank (t, starts) (u, starts) h = grind tests

not_before-rank : (e f : ℕ × Edge) → before e f ≡ false → rank f ≤ rank e
unfolding before rank
not_before-rank (t, ends) (u, ends) h = ground arith
not_before-rank (t, ends) (u, starts) h = ground arith
not_before-rank (t, starts) (u, ends) h = ground arith
not_before-rank (t, starts) (u, starts) h = ground arith

insert-All :
    (n : ℕ) (e : ℕ × Edge) (es : List (ℕ × Edge))
    → n ≤ rank e
    → All (λ f. n ≤ rank f) es
    → All (λ f. n ≤ rank f) (insert e es)
unfolding insert
insert-All n e [] h k = (h, tt)
insert-All n e (f ∷ fs) h (here, k) = elim (Bool-cases (before e f)) [
  | inl b ↦ rw b (h, (here, k))
  | inr b ↦ rw b (here, insert-All n e fs h k)
]

insert-Ordered : (e : ℕ × Edge) (es : List (ℕ × Edge)) → Ordered es → Ordered (insert e es)
unfolding insert
insert-Ordered e [] h = (tt, tt)
insert-Ordered e (f ∷ fs) (here, h) = elim (Bool-cases (before e f)) [
  | inl b ↦ rw b (
      let first = before-rank e f b in
      (
        (
          first,
          All-map (λ g. rank f ≤ rank g) (λ g. rank e ≤ rank g) (λ g le. omega arith) fs here,
        ),
        (here, h),
      ))
  | inr b ↦ rw b (insert-All (rank f) e fs (not_before-rank e f b) here, insert-Ordered e fs h)
]

sorted-Ordered : (es : List (ℕ × Edge)) → Ordered (sorted es)
unfolding sorted
sorted-Ordered [] = tt
sorted-Ordered (e ∷ es) = insert-Ordered e (sorted es) (sorted-Ordered es)

insert-counts :
    (t : ℕ) (e : ℕ × Edge) (es : List (ℕ × Edge))
    → (begun_by t (insert e es) ≡ begun_by t (e ∷ es))
      × (ended_by t (insert e es) ≡ ended_by t (e ∷ es))
unfolding insert begun_by ended_by
insert-counts t e [] = (refl, refl)
insert-counts t (u, starts) ((v, starts) ∷ fs) = ground (arith, insert-counts t (u, starts) fs)
insert-counts t (u, starts) ((v, ends) ∷ fs) = ground (arith, insert-counts t (u, starts) fs)
insert-counts t (u, ends) ((v, starts) ∷ fs) = ground (arith, insert-counts t (u, ends) fs)
insert-counts t (u, ends) ((v, ends) ∷ fs) = ground (arith, insert-counts t (u, ends) fs)

sorted-counts :
    (t : ℕ) (es : List (ℕ × Edge))
    → (begun_by t (sorted es) ≡ begun_by t es) × (ended_by t (sorted es) ≡ ended_by t es)
unfolding sorted begun_by ended_by
sorted-counts t [] = (refl, refl)
sorted-counts t ((u, starts) ∷ es) =
    ground (arith, sorted-counts t es, insert-counts t (u, starts) (sorted es))
sorted-counts t ((u, ends) ∷ es) =
    ground (arith, sorted-counts t es, insert-counts t (u, ends) (sorted es))

append-counts :
    (t : ℕ) (es fs : List (ℕ × Edge))
    → (begun_by t (es ++ fs) ≡ begun_by t es + begun_by t fs)
      × (ended_by t (es ++ fs) ≡ ended_by t es + ended_by t fs)
unfolding begun_by ended_by
append-counts t [] fs = (omega arith, omega arith)
append-counts t ((u, starts) ∷ es) fs = ground (arith, append-counts t es fs)
append-counts t ((u, ends) ∷ es) fs = ground (arith, append-counts t es fs)

-- The intervals that have begun are running or have ended.
edges-running :
    (t : ℕ) (is : List (ℕ × ℕ))
    → (begun_by t (edges ends is) ≡ 0)
      × (ended_by t (edges starts is) ≡ 0)
      × (begun_by t (edges starts is) ≡ running t is + ended_by t (edges ends is))
unfolding edges begun_by ended_by running
edges-running t [] = (refl, refl, refl)
edges-running t ((a, b) ∷ is) = ground (arith, edges-running t is)

-- Before its first entry a sweep counts nothing.
late :
    (t n : ℕ) (es : List (ℕ × Edge))
    → 2 * t + 1 < n
    → All (λ f. n ≤ rank f) es
    → (begun_by t es ≡ 0) × (ended_by t es ≡ 0)
unfolding begun_by ended_by rank
late t n [] h k = (refl, refl)
late t n ((u, starts) ∷ es) h (here, k) = ground (arith, late t n es h k)
late t n ((u, ends) ∷ es) h (here, k) = ground (arith, late t n es h k)

after_rank : (t u : ℕ) (side : Edge) → leb u t ≡ false → 2 * t + 1 < rank (u, side)
unfolding rank
after_rank t u starts c = ground arith
after_rank t u ends c = ground arith

late_end :
    (t : ℕ) (es : List (ℕ × Edge)) → All (λ f. rank (t, starts) ≤ rank f) es → ended_by t es ≡ 0
unfolding ended_by rank
late_end t [] k = refl
late_end t ((u, starts) ∷ es) (here, k) = late_end t es k
late_end t ((u, ends) ∷ es) (here, k) = ground (arith, late_end t es k)

peak_mono : (b e h : ℕ) (es : List (ℕ × Edge)) → h ≤ peak b e h es
unfolding peak
peak_mono b e h [] = omega arith
peak_mono b e h ((u, starts) ∷ es) = omega (arith, peak_mono (suc b) e (max h (suc b - e)) es)
peak_mono b e h ((u, ends) ∷ es) = omega (arith, peak_mono b (suc e) (max h (b - suc e)) es)

peak-above :
    (t b e h : ℕ) (es : List (ℕ × Edge))
    → Ordered es
    → b - e ≤ h
    → (b + begun_by t es) - (e + ended_by t es) ≤ peak b e h es
unfolding peak begun_by ended_by
peak-above t b e h [] o k = omega arith
peak-above t b e h ((u, starts) ∷ es) (first, o) k =
    let next = peak-above t (suc b) e (max h (suc b - e)) es o (omega arith) in
    let least = peak_mono (suc b) e (max h (suc b - e)) es in
    elim (Bool-cases (leb u t)) [
      | inl c ↦ rw c (omega (arith, next))
      | inr c ↦
          rw c (omega (arith, least, late t (rank (u, starts)) es (after_rank t u starts c) first))
    ]
peak-above t b e h ((u, ends) ∷ es) (first, o) k =
    let next = peak-above t b (suc e) (max h (b - suc e)) es o (omega arith) in
    let least = peak_mono b (suc e) (max h (b - suc e)) es in
    elim (Bool-cases (leb u t)) [
      | inl c ↦ rw c (omega (arith, next))
      | inr c ↦
          rw c (omega (arith, least, late t (rank (u, ends)) es (after_rank t u ends c) first))
    ]

peak-below :
    (n b e h : ℕ) (es : List (ℕ × Edge))
    → Ordered es
    → h ≤ n
    → b - e ≤ n
    → ((t : ℕ) → (b + begun_by t es) - (e + ended_by t es) ≤ n)
    → peak b e h es ≤ n
unfolding peak begun_by ended_by
peak-below n b e h [] o hn k all = hn
peak-below n b e h ((u, starts) ∷ es) (first, o) hn k all =
    let now : suc b - e ≤ n = ground (arith, all u, late_end u es first) in
    peak-below n (suc b) e (max h (suc b - e)) es o (omega arith) now (λ t. later t now)
  where
    later : (t : ℕ) → suc b - e ≤ n → (suc b + begun_by t es) - (e + ended_by t es) ≤ n
    later t now = elim (Bool-cases (leb u t)) [
      | inl c ↦ (let seen = all t in let seen' = rw c at seen in omega (arith, seen'))
      | inr c ↦ omega (arith, now, late t (rank (u, starts)) es (after_rank t u starts c) first)
    ]
peak-below n b e h ((u, ends) ∷ es) (first, o) hn k all =
    peak-below n b (suc e) (max h (b - suc e)) es o (omega arith) (omega arith) (λ t. later t)
  where
    later : (t : ℕ) → (b + begun_by t es) - (suc e + ended_by t es) ≤ n
    later t = elim (Bool-cases (leb u t)) [
      | inl c ↦ (let seen = all t in let seen' = rw c at seen in omega (arith, seen'))
      | inr c ↦ omega (arith, k, late t (rank (u, ends)) es (after_rank t u ends c) first)
    ]

counts :
    (t : ℕ) (is : List (ℕ × ℕ))
    → begun_by t (sorted (edges starts is ++ edges ends is))
        - ended_by t (sorted (edges starts is ++ edges ends is))
      ≡ running t is
counts t is =
    let (b, e) = sorted-counts t (edges starts is ++ edges ends is) in
    let (b', e') = append-counts t (edges starts is) (edges ends is) in
    let (x, y, z) = edges-running t is in omega arith

-- The peak concurrency is the most jobs that ran at one time: at every instant no more than the
-- peak are running, an end counting as the first instant at which its job no longer runs, and every
-- number that bounds the running jobs at all times bounds the peak.
pub concurrency-running :
    (is : List (ℕ × ℕ))
    → ((t : ℕ) → running t is ≤ concurrency is)
      × ((n : ℕ) → ((t : ℕ) → running t is ≤ n) → concurrency is ≤ n)
unfolding concurrency
concurrency-running is = (λ t. above t, λ n h. below n h)
  where
    es : List (ℕ × Edge)
    es = sorted (edges starts is ++ edges ends is)

    ordered : Ordered es
    ordered = sorted-Ordered (edges starts is ++ edges ends is)

    above : (t : ℕ) → running t is ≤ peak 0 0 0 es
    above t = omega (arith, counts t is, peak-above t 0 0 0 es ordered (omega arith))

    below : (n : ℕ) → ((t : ℕ) → running t is ≤ n) → peak 0 0 0 es ≤ n
    below n h =
        peak-below n 0 0 0 es ordered (omega arith) (omega arith)
          (λ t. omega (arith, counts t is, h t))
