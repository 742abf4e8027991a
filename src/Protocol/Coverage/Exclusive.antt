-- ===== src/Protocol/Coverage/Exclusive.antt =====
-- Rules that no case can exercise together.
use weavegate.Prelude.{
  ℕ, ◌≡◌, refl, arith, String, Bool, true, false, ◌&&◌, Option, none, some, List, [], ◌∷◌, keep,
  string_eq, list_eq, list_beq_iff, and-true,
}
use weavegate.Protocol.Message.{go, Identity, Terminal}
use weavegate.Protocol.Coverage.Scene.{
  Scene, is_event, is_message, is_exchange, is_injected, event_at, first_that, first,
}
use weavegate.Protocol.Coverage.Wire.{
  Covered, only_go, retired_rule, retired_bodies, body_at, call_at,
}
use weavegate.Protocol.Coverage.Order.{
  raced, cancel_wins, enqueue_wins, race, held, gate_at, is_output, types_of,
}
use weavegate.Protocol.Coverage.Rules.{coverage}

module _ (c : Covered) (steps : List Scene) where
  raced-types :
      (types : List String) (i : Identity)
      → raced types c steps i ≡ true
      → types_of (keep is_output c.own) ≡ types
  unfolding raced
  raced-types types i h = ground (arith, list_beq_iff (types_of (keep is_output c.own)) types)

  cancel_wins-types :
      (i : Identity)
      → cancel_wins c steps i ≡ true
      → types_of (keep is_output c.own) ≡ "cancel" ∷ []
  unfolding cancel_wins
  cancel_wins-types i h =
      raced-types ("cancel" ∷ []) i ((and-true (raced ("cancel" ∷ []) c steps i) _ h).0)

  enqueue_wins-types :
      (i : Identity)
      → enqueue_wins c steps i ≡ true
      → types_of (keep is_output c.own) ≡ "release" ∷ "cancel" ∷ []
  unfolding enqueue_wins
  enqueue_wins-types i h =
      raced-types ("release" ∷ "cancel" ∷ []) i
        ((and-true (raced ("release" ∷ "cancel" ∷ []) c steps i) _ h).0)

  held-gate :
      (rule : Covered → List Scene → Identity → Bool) (o : Option Identity)
      → held rule c steps o ≡ true
      → (i : Identity) × (rule c steps i ≡ true)
  unfolding held
  held-gate rule none h = cc
  held-gate rule (some i) h = (i, h)

  race-held :
      (rule : Covered → List Scene → Identity → Bool)
      → race rule c steps ≡ true
      → (i : Identity) × (rule c steps i ≡ true)
  unfolding race
  race-held rule h =
      held-gate rule (gate_at (first_that (is_event "hold_release_enqueue") steps))
        ((and-true (only_go c) _ h).1)

  races-apart : race cancel_wins c steps ≡ true → race enqueue_wins c steps ≡ true → ⊥
  races-apart h k =
      let (i, a) = race-held cancel_wins h in
      let (j, b) = race-held enqueue_wins k in
      let e = cancel_wins-types i a in let f = enqueue_wins-types j b in cc

  bodies-apart :
      (o l : Option (ℕ × Terminal)) (r : Option (String × String))
      → retired_bodies true o l r ≡ true
      → retired_bodies false o l r ≡ true
      → ⊥
  unfolding retired_bodies
  bodies-apart (some (n, p)) (some (m, q)) (some (i, w)) h k = ground arith
  bodies-apart none l r h k = cc
  bodies-apart (some x) none r h k = cc
  bodies-apart (some x) (some y) none h k = cc

  retired-apart : retired_rule true c steps ≡ true → retired_rule false c steps ≡ true → ⊥
  unfolding retired_rule
  retired-apart h k =
      let old = body_at (first (keep (λ s. is_message "terminal" s && is_exchange s) steps)) in
      let late = body_at (first (keep (λ s. is_message "terminal" s && is_injected s) c.own)) in
      let call = call_at (first (keep (event_at "invoke_call" go) c.own)) in
      bodies-apart old late call ((and-true _ _ ((and-true (only_go c) _ h).1)).1)
        ((and-true _ _ ((and-true (only_go c) _ k).1)).1)

both-false : (a b : Bool) → (a ≡ true → b ≡ true → ⊥) → (a && b) ≡ false
both-false true true h = absurd (h refl refl)
both-false true false h = refl
both-false false b h = refl

-- No case covers both orders of the race between a cancellation and an enqueued release, and none
-- covers both a late terminal frame that repeats the retired one and one that contradicts it.
pub coverage-exclusive :
    (c : Covered) (steps : List Scene)
    → ((coverage "cancel_wins_enqueue" c steps && coverage "enqueue_wins_cancel" c steps) ≡ false)
      × ((coverage "retired_terminal_identical" c steps
            && coverage "retired_terminal_conflict" c steps)
          ≡ false)
unfolding coverage
coverage-exclusive c steps =
    (both-false _ _ (races-apart c steps), both-false _ _ (retired-apart c steps))
