-- ===== src/Comparison/Replay.antt =====
-- What a validated trace shows: the schedule was followed, step by step.
use weavegate.Prelude.{
  ℕ, suc, ◌≤◌, ◌<◌, String, Bool, true, ◌&&◌, List, [], ◌∷◌, map, All, ◌≡◌, ◌≢◌, refl, sym, ap, ◌∙◌,
  inl, inr, arith, all, any, keep, length, Bool-cases, ltb, ◌==◌, string_eq, nat_eq, list_eq,
  list_beq_iff,
}
use weavegate.Prelude.Result.{ok}
use weavegate.Comparison.Trace.{
  TraceEvent, Trace, Place, Schedule, Slot, range, is_resolved, resolved, same_places, skip_ok,
  timeout_ok, validate_trace,
}

-- The events come in the order of their sequence numbers, all after `n`.
unfoldable pub Increasing : ℕ → List TraceEvent → Type 0
Increasing n [] = Unit
Increasing n (e ∷ es) = (n < e.seq) × Increasing e.seq es

Increasing-lower : (m n : ℕ) (es : List TraceEvent) → m ≤ n → Increasing n es → Increasing m es
unfolding Increasing
Increasing-lower m n [] h i = tt
Increasing-lower m n (e ∷ es) h (first, i) = (omega arith, i)

range-Increasing :
    (n : ℕ) (es : List TraceEvent)
    → map (λ (e : TraceEvent). e.seq) es ≡ range (suc n) (length es)
    → Increasing n es
unfolding range Increasing
range-Increasing n [] h = tt
range-Increasing n (e ∷ es) h =
    let head : e.seq ≡ suc n = ground arith in
    let tail : map (λ (e : TraceEvent). e.seq) es ≡ range (suc (suc n)) (length es) =
      ground arith in
    (
      omega (arith, head),
      Increasing-lower e.seq (suc n) es (omega (arith, head)) (range-Increasing (suc n) es tail),
    )

keep-Increasing :
    (n : ℕ) (es : List TraceEvent) → Increasing n es → Increasing n (keep is_resolved es)
unfolding Increasing
keep-Increasing n [] i = tt
keep-Increasing n (e ∷ es) (first, i) =
    let rest = keep-Increasing e.seq es i in
    elim (Bool-cases (is_resolved e)) [
      | inl t ↦ rw t (first, rest)
      | inr t ↦ rw t (Increasing-lower n e.seq (keep is_resolved es) (omega arith) rest)
    ]

-- The schedule has the place as a step.
unfoldable pub has_place : String → String → List Place → Bool
has_place worker point steps = any (λ (p : Place). p.worker == worker && p.point == point) steps

unfoldable pub place_of : TraceEvent → Place
place_of e = record { worker = e.worker; point = e.point }

same_places-map :
    (es : List TraceEvent) (ps : List Place) → same_places es ps ≡ true → map place_of es ≡ ps
unfolding same_places place_of
same_places-map [] [] h = refl
same_places-map [] (p ∷ ps) h = cc
same_places-map (e ∷ es) [] h = cc
same_places-map (e ∷ es) (p ∷ ps) h = ground (
  arith,
  string_eq.beq_iff e.worker p.worker,
  string_eq.beq_iff e.point p.point,
  same_places-map es ps,
)

-- A later event that resolves the place of `e`.
resolves : TraceEvent → TraceEvent → Bool
resolves e d = is_resolved d && (d.worker == e.worker && (d.point == e.point && ltb e.seq d.seq))

resolved-place :
    (e : TraceEvent) (es : List TraceEvent)
    → any (resolves e) es ≡ true
    → has_place e.worker e.point (map place_of (keep is_resolved es)) ≡ true
unfolding resolves has_place place_of
resolved-place e [] h = cc
resolved-place e (d ∷ es) h = elim (Bool-cases (is_resolved d)) [
  | inl t ↦ rw t (ground (arith, resolved-place e es))
  | inr t ↦ rw t (resolved-place e es (ground arith))
]

-- How a run followed its schedule.
pub record Followed (trace : Trace) (saved : Schedule) (slot : Slot) : Type 0 where
  pub in_order : Increasing 0 (resolved trace.events)
  pub places : map place_of (resolved trace.events) ≡ saved.steps
  pub released :
      slot.variant ≢ "fixed" → All (λ e. e.kind ≡ "point_released") (resolved trace.events)
  pub unblocked :
      All
        (λ e. e.kind ≡ "point_timeout" → has_place e.worker e.point saved.steps ≡ true)
        trace.events

parts :
    (trace : Trace) (saved : Schedule) (slot : Slot) (counts : ℕ × ℕ)
    → validate_trace trace saved slot ≡ ok counts
    → ((map (λ (e : TraceEvent). e.seq) trace.events == range 1 (length trace.events)) ≡ true)
      × (same_places (resolved trace.events) saved.steps ≡ true)
      × (all (skip_ok slot trace.events) (resolved trace.events) ≡ true)
      × (all (timeout_ok trace.events) trace.events ≡ true)
unfolding validate_trace
parts trace saved slot counts h = ground arith

released-or-skipped :
    (slot : Slot) (events : List TraceEvent) (e : TraceEvent)
    → slot.variant ≢ "fixed"
    → is_resolved e ≡ true
    → skip_ok slot events e ≡ true
    → e.kind ≡ "point_released"
unfolding is_resolved skip_ok
released-or-skipped slot events e v r h =
    ground
      (arith, string_eq.beq_iff slot.variant "fixed", string_eq.beq_iff e.kind "point_released")

timeout-place :
    (events : List TraceEvent) (e : TraceEvent) (steps : List Place)
    → map place_of (resolved events) ≡ steps
    → timeout_ok events e ≡ true
    → e.kind ≡ "point_timeout"
    → has_place e.worker e.point steps ≡ true
unfolding resolved timeout_ok resolves
timeout-place events e steps p h k =
    let later : any (resolves e) events ≡ true =
      ground (arith, string_eq.beq_iff e.kind "point_timeout") in
    ap (has_place e.worker e.point) (sym p) ∙ resolved-place e events later

skips-released :
    (slot : Slot) (events es : List TraceEvent)
    → slot.variant ≢ "fixed"
    → all (skip_ok slot events) (keep is_resolved es) ≡ true
    → All (λ e. e.kind ≡ "point_released") (keep is_resolved es)
skips-released slot events [] v h = tt
skips-released slot events (e ∷ es) v h = elim (Bool-cases (is_resolved e)) [
  | inl t ↦
      let both : all (skip_ok slot events) (e ∷ keep is_resolved es) ≡ true = ground arith in
      rw t (
        released-or-skipped slot events e v t (ground arith),
        skips-released slot events es v (ground arith),
      )
  | inr t ↦ rw t (skips-released slot events es v (ground arith))
]

timeouts-unblocked :
    (events es : List TraceEvent) (steps : List Place)
    → map place_of (resolved events) ≡ steps
    → all (timeout_ok events) es ≡ true
    → All (λ e. e.kind ≡ "point_timeout" → has_place e.worker e.point steps ≡ true) es
timeouts-unblocked events [] steps p h = tt
timeouts-unblocked events (e ∷ es) steps p h = (
  λ k. timeout-place events e steps p (ground arith) k,
  timeouts-unblocked events es steps p (ground arith),
)

-- A trace that is valid for a saved schedule resolved exactly the schedule's steps, in their
-- order and one after the other; in any run but of a fixed variant each of them was released; and
-- whatever was inferred to block stood at a step of the schedule.
pub validate_trace-Followed :
    (trace : Trace) (saved : Schedule) (slot : Slot) (counts : ℕ × ℕ)
    → validate_trace trace saved slot ≡ ok counts
    → Followed trace saved slot
unfolding resolved
validate_trace-Followed trace saved slot counts h =
    let (seqs, same, skips, timeouts) = parts trace saved slot counts h in
    let places = same_places-map (resolved trace.events) saved.steps same in
    record {
      in_order =
          keep-Increasing 0 trace.events
            (range-Increasing 0 trace.events ((list_beq_iff _ _).0 seqs));
      places = places;
      released = λ v. skips-released slot trace.events trace.events v skips;
      unblocked = timeouts-unblocked trace.events trace.events saved.steps places timeouts;
    }
