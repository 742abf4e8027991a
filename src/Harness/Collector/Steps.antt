-- ===== src/Harness/Collector/Steps.antt =====
-- The commands of one arm: their order, the cleanup at the end, and what a valid cleanup shows.
use weavegate.Prelude.{
  ◌≡◌, refl, ap, sym, ◌∙◌, arith, String, Bool, true, false, List, [], ◌∷◌, ◌++◌, map, All,
  All-append,
}
use mathlib.Core.List.{append-nil, append_assoc, map-append}
use weavegate.Prelude.Result.{Check, ok, err}
use weavegate.Harness.Collector.{
  Arm, Exit, normal, evidence, interrupt, Session, Attempt, entered, executed, admitted, command,
  guarded, guarded_by, spoiled, proceed, teardown, next, observed, checked_by, attempt, returned,
  verdict, tear_down, cleanup, arm, saved, passes,
}

-- The commands that an arm adds to the log, in order.
Adds : Arm → Session → Session → List String → Type 0
Adds a s s' steps = s'.log ≡ s.log ++ map (λ step. (a.name, step)) steps

-- The commands before the cleanup: each only after those before it.
pub data Begun : List String → Type 0 where
  nothing : Begun []
  prepared : Begun ("prepare" ∷ [])
  ran : Begun ("prepare" ∷ "run" ∷ [])
  observing : Begun ("prepare" ∷ "run" ∷ "observe" ∷ [])
  checked : Begun ("prepare" ∷ "run" ∷ "observe" ∷ "check" ∷ [])

-- The command of a step was contained, and left the guard without an error.
abbrev pub Contained : Arm → String → Type 0
Contained a step = (a.contained step ≡ true) × (a.violates step ≡ false)

-- The session after some of the commands.
record Ran (a : Arm) (s : Session) (steps : List String) (s' : Session) : Type 0 where
  adds : Adds a s s' steps
  contains :
      s'.contained ≡ true
      → s'.clean ≡ true
      → (s.contained ≡ true) × (s.clean ≡ true) × All (Contained a) steps

module _ (a : Arm) where
  executed-Contained :
      (step : String) (s : Session)
      → (executed a step s).contained ≡ true
      → (executed a step s).clean ≡ true
      → (s.contained ≡ true) × (s.clean ≡ true) × Contained a step
  unfolding executed
  executed-Contained step s h k = ground arith

  Ran-nothing : (s : Session) → Ran a s [] s
  unfolding Adds
  Ran-nothing s = record { adds = sym (append-nil s.log); contains = λ h k. (h, k, tt) }

  Ran-executed :
      (s : Session) (steps : List String) (s' : Session) (step : String)
      → Ran a s steps s'
      → Ran a s (steps ++ step ∷ []) (executed a step s')
  unfolding Adds executed
  Ran-executed s steps s' step r = record {
    adds =
        ap (λ l. l ++ (a.name, step) ∷ []) r.adds
        ∙ (append_assoc s.log (map (λ step. (a.name, step)) steps) ((a.name, step) ∷ [])
            ∙ ap (λ l. s.log ++ l) (sym (map-append (λ step. (a.name, step)) steps (step ∷ []))));
    contains = λ h k.
        let (h', k', here) = executed-Contained step s' h k in
        let (h0, k0, all) = r.contains h' k' in
        (h0, k0, All-append (Contained a) steps (step ∷ []) all (here, tt));
  }

  -- What holds of the session whether a step is executed or not, and however it ends.
  stage :
      (P : Session → Type 0) (step : String) (s : Session) (t : Attempt)
      (rest : Session → Bool → Session × Attempt × Exit)
      → ((s' : Session) → P s' → P (spoiled s'))
      → P s
      → P (executed a step s)
      → ((b : Bool) → P (rest (executed a step s) b).0)
      → P (next (command a step s) t rest).0
  unfolding command guarded guarded_by admitted
  stage P step s t rest spoil before after go = allow s.clean
    where
      finish : (result : Bool × Exit) → P (next (executed a step s, result.0, result.1) t rest).0
      finish (b, normal) = go b
      finish (b, evidence m) = after
      finish (b, interrupt) = after

      admit : (c : Check) → P (next (admitted a step s c) t rest).0
      admit (ok u) = finish (a.execute step)
      admit (err m) = before

      guard : (c : Check) → P (next (guarded_by a step s c) t rest).0
      guard (ok u) = admit (a.admits step)
      guard (err m) = spoil s before

      allow : (b : Bool) → P (next (guarded a step s b) t rest).0
      allow true = guard (a.guards step)
      allow false = before

  module _ (P : Session → Type 0) (spoil : (s' : Session) → P s' → P (spoiled s')) (s : Session)
      (p2 : P (executed a "observe" s)) (p3 : P (executed a "check" (executed a "observe" s))) where
    checked_by-session : (r : Attempt × Exit) → P (checked_by a (executed a "observe" s) r).0
    unfolding checked_by
    checked_by-session (t, normal) =
        stage P "check" (executed a "observe" s) t _ spoil p2 p3 (λ b. p3)
    checked_by-session (t, evidence m) = p2
    checked_by-session (t, interrupt) = p2

  -- What follows `prepare`, by the sessions that it may end with.
  proceed-session :
      (P : Session → Type 0) (s : Session) (prepared today : Bool)
      → ((s' : Session) → P s' → P (spoiled s'))
      → P s
      → P (executed a "run" s)
      → P (executed a "observe" (executed a "run" s))
      → P (executed a "check" (executed a "observe" (executed a "run" s)))
      → P (proceed a s prepared today).0
  unfolding proceed
  proceed-session P s false today spoil p0 p1 p2 p3 = p0
  proceed-session P s true false spoil p0 p1 p2 p3 = p0
  proceed-session P s true true spoil p0 p1 p2 p3 = stage P "run" s entered _ spoil p0 p1 (λ b.
      stage P "observe" (executed a "run" s) entered _ spoil p1 p2 (λ c.
        checked_by-session P spoil (executed a "run" s) p2 p3 (observed a.observation entered)))

  Begins : Session → Session → Type 0
  Begins s s' = (steps : List String) × Begun steps × Ran a s steps s'

  Begins-spoiled : (s s' : Session) → Begins s s' → Begins s (spoiled s')
  unfolding Begins Adds
  Begins-spoiled s s' (steps, begun, trace) =
      (steps, begun, record { adds = trace.adds; contains = λ h k. cc })

  attempt-Begins : (s : Session) → Begins s (attempt a s).0
  unfolding attempt Begins
  attempt-Begins s =
      let s1 = executed a "prepare" s in
      let s2 = executed a "run" s1 in
      let s3 = executed a "observe" s2 in
      let r1 = Ran-executed s [] s "prepare" (Ran-nothing s) in
      let r2 = Ran-executed s _ s1 "run" r1 in
      let r3 = Ran-executed s _ s2 "observe" r2 in
      let r4 = Ran-executed s _ s3 "check" r3 in
      let b1 : Begins s s1 = (_, prepared, r1) in
      stage (Begins s) "prepare" s entered _ (Begins-spoiled s) (_, nothing, Ran-nothing s) b1
        (λ b.
          proceed-session (Begins s) s1 b a.still_today (Begins-spoiled s) b1 (_, ran, r2)
            (_, observing, r3) (_, checked, r4))

-- The cleanup, where its pins let it run.
abbrev pub ending : Check → List String
ending (ok _) = "cleanup" ∷ []
ending (err _) = []

passes-ok : (c : Check) → passes c ≡ true → c ≡ ok tt
passes-ok (ok u) h = refl
passes-ok (err m) h = cc

returned-normal : (i e : Exit) → returned i e ≡ true → e ≡ normal
unfolding returned
returned-normal normal normal h = refl
returned-normal normal (evidence m) h = cc
returned-normal normal interrupt h = cc
returned-normal (evidence m) e h = cc
returned-normal interrupt e h = cc

module _ (a : Arm) (s : Session) where
  tear_down-Ran :
      (steps : List String) (s' : Session) (pins : Check)
      → Ran a s steps s'
      → Ran a s (steps ++ ending pins) (tear_down a s' pins).0
  unfolding tear_down teardown
  tear_down-Ran steps s' (ok u) r = Ran-executed a s steps s' "cleanup" r
  tear_down-Ran steps s' (err m) r = rw (append-nil steps) r

  arm-Ran :
      (steps : List String) × Begun steps × Ran a s (steps ++ ending a.cleanup_pins) (arm a s).0
  unfolding arm cleanup Begins
  arm-Ran =
      let (steps, begun, trace) = attempt-Begins a s in
      (steps, begun, tear_down-Ran steps (attempt a s).0 a.cleanup_pins trace)

  -- Whatever its commands do, fail or are interrupted, an arm executes some of prepare, run, observe
  -- and check, each only after those before it, and then cleanup, exactly once and last, if the
  -- inputs of the cleanup are as they were pinned.
  pub arm-Traced :
      (steps : List String) × Begun steps
      × ((arm a s).0.log ≡ s.log ++ map (λ step. (a.name, step)) (steps ++ ending a.cleanup_pins))
  unfolding Adds
  arm-Traced = let (steps, begun, trace) = arm-Ran in (steps, begun, trace.adds)

  tear_down-valid :
      (s' : Session) (pins : Check)
      → (tear_down a s' pins).1 ≡ true
      → (pins ≡ ok tt)
        × (a.proof ≡ ok tt)
        × (a.pins_after ≡ ok tt)
        × (a.pins ≡ true)
        × ((a.execute "cleanup").1 ≡ normal)
        × ((tear_down a s' pins).0.contained ≡ true)
        × ((tear_down a s' pins).0.clean ≡ true)
  unfolding tear_down teardown verdict
  tear_down-valid s' (ok u) h = ground (
    arith,
    passes-ok a.proof,
    passes-ok a.pins_after,
    returned-normal (saved s' a) (a.execute "cleanup").1,
  )
  tear_down-valid s' (err m) h = cc

  All-ending :
      (steps : List String) {e f : List String}
      → e ≡ f
      → All (Contained a) (steps ++ e)
      → All (Contained a) (steps ++ f)
  All-ending steps p h = rw (← p) h

  -- An arm whose cleanup is valid ran its cleanup to the end; every command that it executed was
  -- contained and left the guard without an error, as did the session before it; and the proof of
  -- cleanup and the pins held, before it and after it.
  pub arm-Reusable :
      (arm a s).1.cleanup_inputs_valid ≡ true
      → (steps : List String) × Begun steps
        × ((arm a s).0.log ≡ s.log ++ map (λ step. (a.name, step)) (steps ++ "cleanup" ∷ []))
        × All (Contained a) (steps ++ "cleanup" ∷ [])
        × (s.contained ≡ true)
        × (s.clean ≡ true)
        × ((a.execute "cleanup").1 ≡ normal)
        × (a.cleanup_pins ≡ ok tt)
        × (a.proof ≡ ok tt)
        × (a.pins_after ≡ ok tt)
        × (a.pins ≡ true)
  unfolding arm cleanup Adds
  arm-Reusable h =
      let (steps, begun, trace) = arm-Ran in
      let (cleanup_pins, proof, pins_after, pins, ended, contained, clean) =
        tear_down-valid (attempt a s).0 a.cleanup_pins h in
      let (before, unbroken, all) = trace.contains contained clean in
      let same : ending a.cleanup_pins ≡ "cleanup" ∷ [] = ap ending cleanup_pins in
      (
        steps,
        begun,
        trace.adds ∙ ap (λ e. s.log ++ map (λ step. (a.name, step)) (steps ++ e)) same,
        All-ending steps same all,
        before,
        unbroken,
        ended,
        cleanup_pins,
        proof,
        pins_after,
        pins,
      )
