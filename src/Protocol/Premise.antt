-- ===== src/Protocol/Premise.antt =====
-- `injected_premise`: the lifecycle premise that an injected input declares by its case.
use weavegate.Prelude.{
  ◌+◌, String, Bool, true, false, not, ◌&&◌, Option, none, some, List, [], ◌∷◌, ltb, all, elem,
  ◌==◌, string_eq, nat_eq, if◌then◌else◌,
}
use weavegate.Prelude.Dict
use weavegate.Prelude.Dict.{Dict, is_some}
use weavegate.Protocol.Message.{
  Body, Identity, Start, Ready, start, ready, invoke, accepted, arrive, release, terminal, cancel,
  stop, stopped, fatal, identity_eq, returned_nil, start_beq, ready_beq, start_ready,
}
use weavegate.Protocol.State.{History, bound_to, last_arrival_of}

-- `body.get('invocation')`.
abbrev pub invocation_of : Body → Option String
invocation_of (invoke i w c) = some i
invocation_of (accepted i w) = some i
invocation_of (arrive b) = some b.invocation
invocation_of (release b) = some b.invocation
invocation_of (terminal t) = some t.invocation
invocation_of (cancel i w r) = some i
invocation_of _ = none

abbrev has_invocation : Dict String (String × String) → Option String → Bool
has_invocation d none = false
has_invocation d (some i) = is_some (Dict.get i d)

abbrev same_identity : Option Identity → Identity → Bool
same_identity none b = false
same_identity (some a) b = a == b

abbrev called_with : Option (String × String) → String → String → Bool
called_with none w c = false
called_with (some (v, d)) w c = v == w && d == c

abbrev same_start : Option Start → Start → Bool
same_start none b = false
same_start (some a) b = start_beq a b

abbrev knows_point : Option Start → String → Bool
knows_point none p = false
knows_point (some a) p = elem p a.points

abbrev other_readiness : Option Start → Ready → Bool
other_readiness none b = false
other_readiness (some a) b = not (ready_beq b (start_ready a))

-- `set(invocations) <= completed`.
abbrev all_completed : Dict String (String × String) → List String → Bool
all_completed d completed = all (λ (e : String × (String × String)). elem e.0 completed) d

abbrev is_empty {ℓ} : {A : Type ℓ} → List A → Bool
is_empty [] = true
is_empty _ = false

go_arrival_premise : String → Identity → History → Bool
go_arrival_premise case_id b s =
    is_some (Dict.get b.invocation s.invocations)
    && (not (elem b.invocation s.completed)
        && (not (is_some (Dict.get b.invocation s.outstanding))
            && (let worker_matches = bound_to s b.invocation b.worker in
                let point_known = knows_point s.start b.point in
                let next_arrival = b.arrival == last_arrival_of s b.invocation + 1 in
                if case_id == "go_unknown_point"
                then worker_matches && (next_arrival && (b.point == "missing" && not point_known))
                else if case_id == "go_immutable_worker"
                then not worker_matches && (point_known && next_arrival)
                else worker_matches
                  && (point_known
                      && (elem b.invocation s.exhausted_arrivals && b.arrival == 100000)))))

arrive_premise : String → List String → Identity → History → Bool
unfolding go_arrival_premise bound_to
arrive_premise id effects b s =
    let current = Dict.get b.invocation s.outstanding in
    if elem id ("go_unknown_point" ∷ "go_immutable_worker" ∷ "go_arrival_sequence_exhausted" ∷ [])
    then go_arrival_premise id b s
    else if id == "go_released_arrival_duplicate"
    then not (is_some current) && returned_nil (Dict.get b.invocation s.returned) b
    else if id == "late_arrival_after_cancel"
    then elem b.invocation s.canceled && bound_to s b.invocation b.worker
    else if id == "stale_session"
    then is_some (Dict.get b.invocation s.invocations)
      && (not (is_some current) && elem "client_arrive_once" effects)
    else if id == "retired_invocation_worker_reuse"
    then elem b.invocation s.completed && bound_to s b.invocation b.worker
    else if id == "unknown_invocation"
    then not (is_some (Dict.get b.invocation s.invocations))
    else false

future_of : Option Identity → Identity → Bool
future_of none b = false
future_of (some c) b =
    (b.invocation == c.invocation && (b.worker == c.worker && b.point == c.point))
    && ltb c.arrival b.arrival

elsewhere_of : Option Identity → Identity → Bool
elsewhere_of none b = false
elsewhere_of (some c) b =
    (b.invocation == c.invocation && (b.worker == c.worker && b.arrival == c.arrival))
    && not (b.point == c.point)

release_premise : String → Identity → History → Bool
unfolding future_of elsewhere_of bound_to
release_premise id b s =
    let current = Dict.get b.invocation s.outstanding in
    if id == "java_released_arrival_duplicate"
    then not (is_some current) && returned_nil (Dict.get b.invocation s.returned) b
    else if id == "cancel_racing_release"
    then elem b.invocation s.canceled && same_identity current b
    else if id == "retired_invocation_worker_reuse"
    then elem b.invocation s.completed && bound_to s b.invocation b.worker
    else if id == "unknown_invocation"
    then not (is_some (Dict.get b.invocation s.invocations))
    else if id == "future_release"
    then future_of current b
    else if id == "wrong_point_release"
    then elsewhere_of current b
    else if id == "release_before_arrival"
    then bound_to s b.invocation b.worker && not (is_some current)
    else false

-- The tests of `injected_premise`, sorted by the message's type.
unfoldable pub injected_premise : String → Body → List String → History → Bool
unfolding arrive_premise release_premise bound_to
injected_premise id (arrive b) effects s = arrive_premise id effects b s
injected_premise id (release b) effects s = release_premise id b s
injected_premise id (invoke i w c) effects s =
    if id == "go_wrong_direction"
    then elem "fatal_protocol" effects
    else if elem id ("go_semantic_duplicate_invoke" ∷ "java_semantic_duplicate_invoke" ∷ [])
    then called_with (Dict.get i s.invocations) w c
    else if id == "unknown_invocation"
    then not (is_some (Dict.get i s.invocations))
    else false
injected_premise id (start b) effects s =
    if elem id ("go_semantic_duplicate_start" ∷ "java_semantic_duplicate_start" ∷ [])
    then same_start s.start b && elem "fatal_protocol" effects
    else id == "unknown_invocation"
injected_premise id (cancel i w r) effects s =
    if id == "java_immutable_worker"
    then is_some (Dict.get i s.invocations) && not (bound_to s i w)
    else if id == "java_retired_cancel"
    then elem i s.completed && bound_to s i w
    else if id == "unknown_invocation"
    then not (is_some (Dict.get i s.invocations))
    else false
injected_premise id (terminal t) effects s =
    if id == "terminal_while_arrived"
    then is_some (Dict.get t.invocation s.outstanding) && bound_to s t.invocation t.worker
    else if id == "unknown_invocation"
    then not (is_some (Dict.get t.invocation s.invocations))
    else false
injected_premise id (accepted i w) effects s =
    id == "unknown_invocation" && not (is_some (Dict.get i s.invocations))
injected_premise id (ready b) effects s =
    if id == "readiness_mismatch" then other_readiness s.start b else id == "unknown_invocation"
injected_premise id stopped effects s =
    if id == "unsolicited_startup_stopped" then not s.stop_seen else id == "unknown_invocation"
injected_premise id (fatal k m) effects s =
    if id == "fatal_after_terminals"
    then not (is_empty s.invocations) && all_completed s.invocations s.completed
    else id == "unknown_invocation"
injected_premise id (stop ms) effects s = id == "unknown_invocation"
