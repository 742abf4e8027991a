-- ===== src/Protocol/Emissions/Matching.antt =====
-- Each frame that `emissions` asks for has a place of its own.
use weavegate.Prelude.{
  ℕ, suc, ◌+◌, ◌-◌, ◌≤◌, String, Bool, true, false, Option, none, some, List, [], ◌∷◌, ◌≡◌, refl,
  arith, elem, distinct, get_elem?, Bool-cases, Option-cases, inl, inr, ap, sym, ◌∙◌, length,
  string_eq, nat_eq, if◌then◌else◌,
}
use weavegate.Prelude.Dict.{is_some}
use weavegate.Prelude.Result.{Result, ok, ◌>>=◌, >>=-eq-ok}
use weavegate.Protocol.Message.{Peer, peer_eq}
use weavegate.Protocol.State.{Case, Step, Action, local, receive, input, exchange}
use weavegate.Protocol.Emissions.{
  sends, is_output, find_output, take_output, effect_outputs, step_outputs, emissions_from,
  emissions,
}

-- The frames that the effects promise.
unfoldable pub promised : List String → ℕ
promised [] = 0
promised (effect ∷ effects) =
    let rest = promised effects in if is_some (sends effect) then suc rest else rest

unfoldable pub promised_by : List Peer → List Step → ℕ
promised_by targets [] = 0
promised_by targets (s ∷ rest) =
    let more = promised_by targets rest in
    if elem s.peer targets then promised s.expect + more else more

abbrev exchanged_action : Action → Bool
exchanged_action (local e) = false
exchanged_action (receive f input) = false
exchanged_action (receive f exchange) = true

-- An exchanged frame stands at the place.
abbrev pub is_exchanged : Option Step → Bool
is_exchanged none = false
is_exchanged (some s) = exchanged_action s.action

is_output-exchanged :
    (expected : String) (peer : Peer) (a : Action)
    → is_output expected peer a ≡ true
    → exchanged_action a ≡ true
unfolding is_output
is_output-exchanged expected peer (local e) h = cc
is_output-exchanged expected peer (receive f input) h = cc
is_output-exchanged expected peer (receive f exchange) h = refl

-- The places used are different, and an exchanged frame stands at each.
pub record Matched (steps : List Step) (used : List ℕ) : Type 0 where
  pub apart : distinct used ≡ true
  pub exchanged : (i : ℕ) → elem i used ≡ true → is_exchanged (get_elem? steps i) ≡ true

find_output-found :
    (used : List ℕ) (expected : String) (peer : Peer) (i : ℕ) (rest : List Step) (j : ℕ) (s : Step)
    → find_output used expected peer i rest ≡ some (j, s)
    → (elem j used ≡ false) × (i ≤ j) × (is_exchanged (get_elem? rest (j - i)) ≡ true)
unfolding find_output
find_output-found used expected peer i [] j s h = cc
find_output-found used expected peer i (x ∷ rest) j s h = ground (
  arith,
  is_output-exchanged expected peer x.action,
  find_output-found used expected peer (suc i) rest j s,
)

ok_injective : {a b : List ℕ} → Result.ok a ≡ Result.ok b → a ≡ b
ok_injective h = ground arith

module _ (steps : List Step) where
  -- `rest` is what follows the first `i` steps.
  Follows : ℕ → List Step → Type 0
  Follows i rest = (k : ℕ) → get_elem? rest k ≡ get_elem? steps (i + k)

  add-Matched :
      (i j : ℕ) (rest : List Step) (used : List ℕ)
      → Follows i rest
      → elem j used ≡ false
      → i ≤ j
      → is_exchanged (get_elem? rest (j - i)) ≡ true
      → Matched steps used
      → Matched steps (j ∷ used)
  unfolding Follows
  add-Matched i j rest used f unused later there m =
      let place : get_elem? rest (j - i) ≡ get_elem? steps j =
        f (j - i) ∙ ap (get_elem? steps) (omega arith) in
      record {
        apart = ground (arith, m.apart);
        exchanged = λ k e. ground (arith, place, nat_eq.beq_iff k j, m.exchanged k);
      }

  take_output-Matched :
      (fatal_kind : Option String) (expected : String) (peer : Peer) (i : ℕ) (rest : List Step)
      (used more : List ℕ)
      → Follows i rest
      → take_output fatal_kind (find_output used expected peer i rest) used ≡ ok more
      → Matched steps used
      → Matched steps more × (length more ≡ suc (length used))
  unfolding take_output
  take_output-Matched fatal_kind expected peer i rest used more f h m =
      elim (Option-cases (find_output used expected peer i rest)) [
        | inl e ↦ ground arith
        | inr ((j, s), e) ↦
            let (unused, later, there) = find_output-found used expected peer i rest j s e in
            let added : more ≡ j ∷ used = ground arith in
            (rw added (add-Matched i j rest used f unused later there m), ground arith)
      ]

  effect_outputs-Matched :
      (sent : Option (String × Option String)) (peer : Peer) (i : ℕ) (rest : List Step)
      (used more : List ℕ)
      → Follows i rest
      → effect_outputs sent peer i rest used ≡ ok more
      → Matched steps used
      → Matched steps more
        × (length more ≡ (if is_some sent then suc (length used) else length used))
  unfolding effect_outputs
  effect_outputs-Matched none peer i rest used more f h m =
      (rw (sym (ok_injective h)) m, ground arith)
  effect_outputs-Matched (some (expected, fatal_kind)) peer i rest used more f h m =
      take_output-Matched fatal_kind expected peer i rest used more f h m

  step_outputs-Matched :
      (effects : List String) (peer : Peer) (i : ℕ) (rest : List Step) (used more : List ℕ)
      → Follows i rest
      → step_outputs effects peer i rest used ≡ ok more
      → Matched steps used
      → Matched steps more × (length more ≡ promised effects + length used)
  unfolding step_outputs promised
  step_outputs-Matched [] peer i rest used more f h m = (rw (sym (ok_injective h)) m, ground arith)
  step_outputs-Matched (effect ∷ effects) peer i rest used more f h m =
      let (mid, first, last) =
        >>=-eq-ok (effect_outputs (sends effect) peer i rest used)
          (step_outputs effects peer i rest) h in
      let (m', size) = effect_outputs-Matched (sends effect) peer i rest used mid f first m in
      let (m'', size') = step_outputs-Matched effects peer i rest mid more f last m' in
      (m'', ground arith)

  Follows-next : (i : ℕ) (s : Step) (rest : List Step) → Follows i (s ∷ rest) → Follows (suc i) rest
  unfolding Follows
  Follows-next i s rest f = λ k. f (suc k) ∙ ap (get_elem? steps) (omega arith)

  Follows-start : Follows 0 steps
  unfolding Follows
  Follows-start = λ k. ap (get_elem? steps) (omega arith)

  emissions_from-Matched :
      (targets : List Peer) (i : ℕ) (rest : List Step) (used more : List ℕ)
      → Follows i rest
      → emissions_from targets i rest used ≡ ok more
      → Matched steps used
      → Matched steps more × (length more ≡ promised_by targets rest + length used)
  unfolding emissions_from promised_by
  emissions_from-Matched targets i [] used more f h m = (rw (sym (ok_injective h)) m, ground arith)
  emissions_from-Matched targets i (s ∷ rest) used more f h m =
      let f' = Follows-next i s rest f in
      elim (Bool-cases (elem s.peer targets)) [
        | inl e ↦
            let both =
              ap
                (λ b.
                  if b
                  then (step_outputs s.expect s.peer (suc i) rest used
                      >>= emissions_from targets (suc i) rest)
                  else emissions_from targets (suc i) rest used)
                (sym e)
              ∙ h in
            let (mid, first, last) =
              >>=-eq-ok (step_outputs s.expect s.peer (suc i) rest used)
                (emissions_from targets (suc i) rest) both in
            let (m', size) =
              step_outputs-Matched s.expect s.peer (suc i) rest used mid f' first m in
            let (m'', size') = emissions_from-Matched targets (suc i) rest mid more f' last m' in
            (m'', ground arith)
        | inr e ↦
            let (m', size) =
              emissions_from-Matched targets (suc i) rest used more f' (ground arith) m in
            (m', ground arith)
      ]

pub emissions-Matched :
    (c : Case) (steps : List Step) (used : List ℕ)
    → emissions c steps ≡ ok used
    → Matched steps used × (length used ≡ promised_by c.targets steps)
unfolding emissions
emissions-Matched c steps used h =
    let (m, size) =
      emissions_from-Matched steps c.targets 0 steps [] used (Follows-start steps) h
        (record { apart = refl; exchanged = λ i e. ground arith }) in
    (m, ground arith)
