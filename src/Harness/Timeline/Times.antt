-- ===== src/Harness/Timeline/Times.antt =====
-- Bounds on the first and the last of the times of ci.py, on their sum and on the peak.
use weavegate.Prelude.{
  ℕ, ◌+◌, ◌-◌, ◌*◌, ◌≤◌, ◌≡◌, refl, String, Bool, true, false, not, ◌&&◌, Option, none, some, List,
  [], ◌∷◌, length, ltb, keep, string_eq, arith, Bool-cases, inl, inr, All-map, All,
}
use weavegate.Prelude.Dict.{is_some}
use weavegate.Prelude.Text.{has_text}
use weavegate.Prelude.Result.{ok}
use weavegate.Harness.Timeline.{
  Job, is_conclusion, only, latest, earliest, runner_time, first_start, last_of, counted, cap,
}
use weavegate.Harness.Sweep.{concurrency}
use weavegate.Harness.Sweep.Peak.{running, concurrency-running}
use native.Mathlib.Nat.{le_trans, mul-le-mul}
use mathlib.Core.List.{Memᴰ}
use mathlib.Core.List.Memᴰ.{head, tail}

pub keep-Memᴰ {ℓ} :
    {A : Type ℓ} (p : A → Bool) (x : A) (xs : List A) → Memᴰ x (keep p xs) → Memᴰ x xs
keep-Memᴰ p x [] m = m
keep-Memᴰ p x (y ∷ xs) m = elim (Bool-cases (p y)) [
  | inl e ↦ (elim (rw e at m) [ head q ↦ head q | tail n ↦ tail (keep-Memᴰ p x xs n) ])
  | inr e ↦ tail (keep-Memᴰ p x xs (rw e at m))
]

pub only-Memᴰ {ℓ} :
    {A : Type ℓ} (message : String) (x : A) (xs : List A) → only message xs ≡ ok x → Memᴰ x xs
unfolding only
only-Memᴰ message x [] h = cc
only-Memᴰ message x (y ∷ []) h = head cc
only-Memᴰ message x (y ∷ (z ∷ xs)) h = cc

success-kept :
    (c : Option String) → is_conclusion "success" c ≡ true → is_conclusion "skipped" c ≡ false
unfolding is_conclusion
success-kept none h = refl
success-kept (some t) h = let e : t ≡ "success" = (string_eq.beq_iff t "success").0 h in rw e refl

has_text-present : (o : Option String) → has_text o ≡ true → is_some o ≡ true
unfolding has_text
has_text-present none h = cc
has_text-present (some t) h = refl

pub success-counted :
    (j : Job)
    → is_conclusion "success" j.conclusion ≡ true
    → has_text j.started_at ≡ true
    → counted j ≡ true
unfolding counted
success-counted j h k = ground (arith, success-kept j.conclusion h, has_text-present j.started_at k)

earliest-above : (n t : ℕ) (is : List (ℕ × ℕ)) → n ≤ earliest t is → (n ≤ t) × All (λ i. n ≤ i.0) is
unfolding earliest
earliest-above n t [] h = (h, tt)
earliest-above n t ((a, b) ∷ is) h =
    let (le, rest) = earliest-above n t is (omega arith) in (le, (omega arith, rest))

latest-floor : (t : ℕ) (ts : List ℕ) → t ≤ latest t ts
unfolding latest
latest-floor t [] = omega arith
latest-floor t (u ∷ us) = omega (arith, latest-floor t us)

latest-below : (n t : ℕ) (ts : List ℕ) → t ≤ n → All (λ u. u ≤ n) ts → latest t ts ≤ n
unfolding latest
latest-below n t [] h k = h
latest-below n t (u ∷ us) h (here, k) = omega (arith, latest-below n t us h k)

-- Intervals within a time take no longer than that, each.
pub runner_time-within :
    (from to : ℕ) (is : List (ℕ × ℕ))
    → All (λ i. from ≤ i.0) is
    → All (λ i. i.1 ≤ to) is
    → runner_time is ≤ length is * (to - from)
unfolding runner_time
runner_time-within from to [] h k = omega arith
runner_time-within from to ((a, b) ∷ is) (ha, h) (kb, k) =
    ground (arith, runner_time-within from to is h k)

pub grow :
    (i : ℕ × ℕ) (u t : ℕ) (rest is : List (ℕ × ℕ)) (more times : List ℕ)
    → i ∷ rest ≡ is
    → u ∷ more ≡ times
    → u ≡ i.1
    → All (λ k. k.1 ≤ latest t more) rest
    → All (λ k. k.1 ≤ latest t times) is
unfolding latest
grow i u t rest is more times e e' same h =
    let here : i.1 ≤ latest t times = rw (← e') (omega arith) in
    let up : latest t more ≤ latest t times = rw (← e') (omega arith) in
    rw (← e) (
      here,
      All-map (λ k. k.1 ≤ latest t more) (λ k. k.1 ≤ latest t times) (λ k le. omega arith) rest h,
    )

running-length : (t : ℕ) (is : List (ℕ × ℕ)) → running t is ≤ length is
unfolding running
running-length t [] = omega arith
running-length t ((a, b) ∷ is) = ground (arith, running-length t is)

pub concurrency-length : (is : List (ℕ × ℕ)) → concurrency is ≤ length is
concurrency-length is = (concurrency-running is).1 (length is) (λ t. running-length t is)

pub last_of-below : (n b : ℕ) (ts : List ℕ) → last_of ts ≡ ok b → All (λ c. c ≤ n) ts → b ≤ n
unfolding last_of
last_of-below n b [] h k = cc
last_of-below n b (t ∷ ts) h (here, k) =
    let e : latest t ts ≡ b = cc in rw (← e) (latest-below n t ts here k)

pub first_start-above : (f : ℕ) (is : List (ℕ × ℕ)) → first_start is ≡ ok f → All (λ i. f ≤ i.0) is
unfolding first_start
first_start-above f [] h = tt
first_start-above f ((a, b) ∷ is) h =
    let e : earliest a is ≡ f = cc in earliest-above f a is (omega arith)

pub product : (r n m d c : ℕ) → r ≤ n * d → n ≤ m → d ≤ c → r ≤ m * c
product r n m d c h k l = le_trans h (mul-le-mul k l)

-- The order of the times that the last test of `endpoint` establishes.
pub record Span (created first bundle finished : ℕ) : Type 0 where
  pub queued : created ≤ first
  pub ran : first ≤ bundle
  pub capped : finished ≤ created + cap

pub span :
    (c f b g : ℕ)
    → (not (ltb f c) && (not (ltb b f) && not (ltb (c + cap) g))) ≡ true
    → Span c f b g
span c f b g h = record { queued = ground arith; ran = ground arith; capped = ground arith }
