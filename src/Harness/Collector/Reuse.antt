-- ===== src/Harness/Collector/Reuse.antt =====
-- What the loop over the arms does once a cleanup is not proven.
use weavegate.Prelude.{
  ◌≡◌, ◌⊎◌, inl, inr, refl, ap, arith, String, Bool, true, false, none, some, List, [], ◌∷◌, ◌++◌,
  All, All-append, length, length-append, ◌+◌, Bool-cases,
}
use weavegate.Harness.Collector.{
  Arm, Session, Attempt, Collected, entered, arm, skip, enter, choose, collect_arms, collect,
  stop_reason, skip_reason, fresh_session,
}

contradiction : {b : Bool} → b ≡ true → b ≡ false → ⊥
contradiction h k = cc

-- Nothing is executed, and the block stays unsafe.
Quarantined : Collected → Collected → Type 0
Quarantined c d = (d.session ≡ c.session) × (d.safe ≡ false)

collect_arms-Quarantined :
    (arms : List Arm) (c : Collected) → c.safe ≡ false → Quarantined c (collect_arms arms c)
unfolding collect_arms choose skip Quarantined
collect_arms-Quarantined [] c e = (refl, e)
collect_arms-Quarantined (a ∷ arms) c e = ground (arith, collect_arms-Quarantined arms (skip a c) e)

collect_arms-unsafe :
    (arms : List Arm) (c : Collected) → c.safe ≡ false → (collect_arms arms c).safe ≡ false
unfolding Quarantined
collect_arms-unsafe arms c e = (collect_arms-Quarantined arms c e).1

-- Once the cleanup of an arm is not proven, the other arms of the block execute no command, and the
-- campaign is stopped for that reason.
pub collect_arms-stopped :
    (arms : List Arm) (c : Collected)
    → c.safe ≡ false
    → ((collect_arms arms c).session.log ≡ c.session.log)
      × (stop_reason (collect_arms arms c) ≡ some "cleanup_unproven")
unfolding Quarantined stop_reason
collect_arms-stopped arms c e =
    let (same, unsafe) = collect_arms-Quarantined arms c e in
    (ap (λ (s : Session). s.log) same, rw unsafe refl)

-- An attempt whose cleanup is proven, or that was skipped because its date had passed.
pub data Accounted : String × Attempt → Type 0 where
  proven : (name : String) (t : Attempt) → t.cleanup_inputs_valid ≡ true → Accounted (name, t)
  expired :
      (name : String) (t : Attempt) → t.reason ≡ "registered_date_expired" → Accounted (name, t)

-- What the loop adds to the attempts: one for each arm, all accounted for.
Complete : Collected → List Arm → Collected → Type 0
Complete c arms d =
    (All Accounted c.attempts → All Accounted d.attempts)
    × (length d.attempts ≡ length c.attempts + length arms)

Undisturbed : Collected → Type 0
Undisturbed d = (d.safe ≡ true) × (d.interrupted ≡ false)

module _ (a : Arm) (arms : List Arm) (c : Collected) where
  longer :
      (t : Attempt) (c' d : Collected)
      → c'.attempts ≡ c.attempts ++ (a.name, t) ∷ []
      → Accounted (a.name, t)
      → Complete c' arms d
      → Complete c (a ∷ arms) d
  unfolding Complete
  longer t c' d e here (all, count) = (
    λ h. all (rw e (All-append Accounted c.attempts ((a.name, t) ∷ []) h (here, tt))),
    let n = length-append c.attempts ((a.name, t) ∷ []) in
        let m = ap length e in omega (arith, count, m, n),
  )

none_more : (c : Collected) → Complete c [] c
unfolding Complete
none_more c = (λ h. h, omega arith)

module _ (a : Arm) (arms : List Arm) (c : Collected) where
  skip-longer :
      (d : Collected)
      → (skip a c).safe ≡ true
      → Complete (skip a c) arms d
      → Complete c (a ∷ arms) d
  unfolding skip skip_reason
  skip-longer d safe h =
      longer a arms c (record entered { reason = skip_reason c.safe }) (skip a c) d refl
        (expired _ _ (rw safe refl)) h

  enter-longer :
      (d : Collected)
      → (enter a c).safe ≡ true
      → Complete (enter a c) arms d
      → Complete c (a ∷ arms) d
  unfolding enter
  enter-longer d safe h = longer a arms c (arm a c.session).1 (enter a c) d refl (proven _ _ safe) h

-- The block ends safe only if it was safe.
safe-before : (arms : List Arm) (c : Collected) → Undisturbed (collect_arms arms c) → c.safe ≡ true
unfolding Undisturbed
safe-before arms c (safe, _) = elim (Bool-cases c.safe) [
  | inl e ↦ e
  | inr e ↦ absurd (contradiction safe (collect_arms-unsafe arms c e))
]

-- The two ways in which the body goes on.
choose-cases :
    (a : Arm) (c skipped more : Collected)
    → Undisturbed (choose a c skipped more)
    → (choose a c skipped more ≡ skipped) ⊎ (choose a c skipped more ≡ more)
unfolding choose Undisturbed
choose-cases a c skipped more u = ground arith

collect_arms-Complete :
    (arms : List Arm) (c : Collected)
    → Undisturbed (collect_arms arms c)
    → Complete c arms (collect_arms arms c)
unfolding collect_arms
collect_arms-Complete [] c u = none_more c
collect_arms-Complete (a ∷ arms) c u =
    let skipped = collect_arms arms (skip a c) in
    let more = collect_arms arms (enter a c) in
    elim (choose-cases a c skipped more u) [
      | inl e ↦
          let u' : Undisturbed skipped = rw e at u in
          rw e (
            skip-longer a arms c skipped (safe-before arms (skip a c) u')
              (collect_arms-Complete arms (skip a c) u'))
      | inr e ↦
          let u' : Undisturbed more = rw e at u in
          rw e (
            enter-longer a arms c more (safe-before arms (enter a c) u')
              (collect_arms-Complete arms (enter a c) u'))
    ]

undisturbed : (d : Collected) → stop_reason d ≡ none → Undisturbed d
unfolding stop_reason Undisturbed
undisturbed d h = ground arith

pub collect-Accounted :
    (arms : List Arm)
    → stop_reason (collect arms) ≡ none
    → All Accounted (collect arms).attempts × (length (collect arms).attempts ≡ length arms)
unfolding stop_reason collect Complete Undisturbed
collect-Accounted arms h =
    let start : Collected = record {
      session = fresh_session;
      safe = true;
      interrupted = false;
      attempts = [];
    } in
    let (all, count) = collect_arms-Complete arms start (undisturbed (collect_arms arms start) h) in
    (all tt, omega (arith, count))
