-- ===== src/Protocol/Coverage/Wire.antt =====
-- The coverage rules on what a case puts on the wire.
use weavegate.Prelude.{
  ℕ, String, Bool, true, false, not, ◌&&◌, ◌||◌, Option, none, some, List, [], ◌∷◌, ◌++◌, all, any,
  keep, elem, subset, length, ltb, ◌==◌, string_eq, nat_eq, list_eq, if◌then◌else◌,
}
use weavegate.Prelude.Dict
use weavegate.Prelude.Dict.{Dict}
use weavegate.Protocol.Message.{
  Peer, go, java, peer_eq, Identity, identity_eq, Frame, Terminal, WireError, Body, terminal,
  arrive, release, fatal, terminal_beq,
}
use weavegate.Protocol.State.{invoke_call, completion, Action, local, receive, Case}
use weavegate.Protocol.Coverage.Scene.{
  Scene, is_message, event_at, message_at, is_exchange, is_injected, expects, frame_of, first,
  Detail, exit, exited, signalled,
}

-- A case with its prefix and its own steps.
pub record Covered : Type 0 where
  pub case : Case
  pub prefix : String
  pub own : List Scene

unfoldable pub only_go : Covered → Bool
only_go c = c.case.targets == go ∷ []

unfoldable pub only_java : Covered → Bool
only_java c = c.case.targets == java ∷ []

unfoldable pub both_targets : Covered → Bool
both_targets c = c.case.targets == go ∷ java ∷ []

unfoldable pub go_wire_cases : Dict String String
go_wire_cases =
    ("go_wrong_direction", "ready")
    ∷ ("go_unknown_point", "active")
    ∷ ("go_immutable_worker", "active")
    ∷ ("go_semantic_duplicate_start", "ready")
    ∷ ("go_semantic_duplicate_invoke", "active")
    ∷ ("go_released_arrival_duplicate", "released")
    ∷ ("go_unknown_command", "ready")
    ∷ ("go_capacity_exceeded", "ready")
    ∷ ("go_outbound_sequence_exhausted", "ready")
    ∷ ("go_arrival_sequence_exhausted", "active")
    ∷ []

unfoldable pub java_wire_cases : Dict String String
java_wire_cases =
    ("java_unknown_command", "ready")
    ∷ ("java_unknown_point", "active")
    ∷ ("java_wrong_direction", "ready")
    ∷ ("java_immutable_worker", "active")
    ∷ ("java_semantic_duplicate_start", "ready")
    ∷ ("java_semantic_duplicate_invoke", "active")
    ∷ ("java_released_arrival_duplicate", "released")
    ∷ ("java_retired_cancel", "completed")
    ∷ ("java_sequence_gap", "ready")
    ∷ ("java_capacity_exceeded", "ready")
    ∷ ("java_outbound_sequence_exhausted", "ready")
    ∷ ("java_arrival_sequence_exhausted", "active")
    ∷ []

-- `cases.get(id) == prefix`.
abbrev prefix_is : String → Option String → Bool
prefix_is prefix none = false
prefix_is prefix (some p) = p == prefix

-- `[effect for step in own if step['peer'] == peer for effect in step['expect']]`.
unfoldable pub effects_of : Peer → List Scene → List String
effects_of peer [] = []
effects_of peer (s ∷ own) =
    (if s.step.peer == peer then s.step.expect else []) ++ effects_of peer own

-- A fatal frame of the target goes out, and is expected.
unfoldable pub fatal_answer : Peer → Peer → List Scene → Bool
fatal_answer target receiver own =
    elem "fatal_protocol" (effects_of target own)
    && any (λ s. message_at "fatal" receiver s && is_exchange s) own

unfoldable pub go_wire_matrix : Covered → Bool
go_wire_matrix c =
    let effects = effects_of go c.own in
    only_go c
    && prefix_is c.prefix (Dict.get c.case.id go_wire_cases)
    && (if c.case.id == "go_unknown_command" || c.case.id == "go_capacity_exceeded"
        then subset ("admission_rejected" ∷ "no_wire_output" ∷ []) effects
        else if c.case.id == "go_outbound_sequence_exhausted"
        then subset ("outbound_sequence_at_limit" ∷ "fatal_without_wire" ∷ []) effects
        else fatal_answer go java c.own)

unfoldable pub java_wire_matrix : Covered → Bool
java_wire_matrix c =
    let effects = effects_of java c.own in
    only_java c
    && prefix_is c.prefix (Dict.get c.case.id java_wire_cases)
    && (if c.case.id == "java_released_arrival_duplicate" || c.case.id == "java_retired_cancel"
        then subset ("no_fatal" ∷ "no_reply" ∷ []) effects
        else if c.case.id == "java_outbound_sequence_exhausted"
        then subset ("outbound_sequence_at_limit" ∷ "fatal_without_wire" ∷ []) effects
        else fatal_answer java go c.own)

-- The terminal body of a step, with its sequence number.
unfoldable pub terminal_of : Scene → Option (ℕ × Terminal)
terminal_of s = received s.step.action
  where
    body_of : ℕ → Body → Option (ℕ × Terminal)
    body_of n (terminal t) = some (n, t)
    body_of n _ = none

    received : Action → Option (ℕ × Terminal)
    received (local e) = none
    received (receive f d) = body_of f.seq f.body

-- The invocation and the worker of an `invoke_call`.
unfoldable pub call_of : Scene → Option (String × String)
call_of s = called s.step.action
  where
    called : Action → Option (String × String)
    called (local (invoke_call invocation worker command)) = some (invocation, worker)
    called _ = none

-- The earlier terminal, the late one, and the call that reuses the worker between them.
unfoldable pub retired_bodies :
    Bool → Option (ℕ × Terminal) → Option (ℕ × Terminal) → Option (String × String) → Bool
retired_bodies identical (some (n, previous)) (some (m, incoming)) (some (invocation, worker)) =
    worker == previous.worker
    && (not (invocation == previous.invocation)
        && (ltb n m
            && (incoming.invocation == previous.invocation
                && (if identical
                    then terminal_beq incoming previous
                    else not (terminal_beq incoming previous)))))
retired_bodies identical _ _ _ = false

abbrev pub body_at : Option Scene → Option (ℕ × Terminal)
body_at none = none
body_at (some s) = terminal_of s

abbrev pub call_at : Option Scene → Option (String × String)
call_at none = none
call_at (some s) = call_of s

-- `identical` tells the rule `retired_terminal_identical` from `retired_terminal_conflict`.
unfoldable pub retired_rule : Bool → Covered → List Scene → Bool
retired_rule identical c steps =
    let old = keep (λ s. is_message "terminal" s && is_exchange s) steps in
    let late = keep (λ s. is_message "terminal" s && is_injected s) c.own in
    let calls = keep (event_at "invoke_call" go) c.own in
    only_go c
    && (length late == 1
        && retired_bodies identical (body_at (first old)) (body_at (first late))
            (call_at (first calls)))

abbrev pub is_nonempty {ℓ} : {A : Type ℓ} → List A → Bool
is_nonempty [] = false
is_nonempty _ = true

unfoldable pub duplicate : Peer → Covered → Bool
duplicate peer c =
    let duplicates =
      keep (λ s. is_injected s && (s.step.peer == peer && expects "ignore_duplicate" s)) c.own in
    elem peer c.case.targets
    && (is_nonempty duplicates
        && all
            (λ s.
              expects "no_reply" s
              && expects (if peer == java then "no_redispatch" else "no_client_arrive") s)
            duplicates)

unfoldable pub readiness_rejection : Covered → Bool
readiness_rejection c =
    only_go c
    && any (λ s. message_at "ready" go s && (is_injected s && expects "startup_error" s)) c.own

abbrev pub error_of : Option (ℕ × Terminal) → Option WireError
error_of none = none
error_of (some (_, t)) = t.error

abbrev has_error : Option WireError → Bool
has_error none = false
has_error (some _) = true

unfoldable pub exception_input : Covered → Bool
exception_input c =
    elem java c.case.targets
    && (any (event_at "command_exception" java) c.own
        && any (λ s. message_at "terminal" go s && has_error (error_of (terminal_of s))) c.own)

-- The facts of a `completion` that names no invocation.
unfoldable pub facts_are : Bool → String → String → Scene → Bool
facts_are proxy_exited transaction lease s = completed s.step.action
  where
    same_bool : Bool → Bool → Bool
    same_bool true b = b
    same_bool false b = not b

    completed : Action → Bool
    completed (local (completion none f)) =
        same_bool f.proxy_exited proxy_exited && (f.transaction == transaction && f.lease == lease)
    completed _ = false

abbrev committed_without_error : Option (ℕ × Terminal) → Bool
committed_without_error none = false
committed_without_error (some (_, t)) =
    t.transaction == "committed" && (t.connection == "returned" && not (has_error t.error))

unfoldable pub three_completions : List Scene → Bool
three_completions (a ∷ b ∷ c ∷ []) =
    facts_are false "committed" "held" a
    && (facts_are true "committed" "held" b && facts_are true "committed" "returned" c)
three_completions _ = false

unfoldable pub callback_terminal : Covered → Bool
callback_terminal c =
    let terminals = keep (λ s. message_at "terminal" go s && is_exchange s) c.own in
    both_targets c
    && (length terminals == 1
        && (three_completions (keep (event_at "completion" java) c.own)
            && committed_without_error (body_at (first terminals))))

unfoldable pub transaction_unknown : Scene → Bool
transaction_unknown s = completed s.step.action
  where
    completed : Action → Bool
    completed (local (completion _ f)) = f.transaction == "unknown"
    completed _ = false

unfoldable pub fatal_of_kind : String → Scene → Bool
fatal_of_kind kind s = received s.step.action
  where
    kind_is : Body → Bool
    kind_is (fatal k m) = k == kind
    kind_is _ = false

    received : Action → Bool
    received (local e) = false
    received (receive f d) = kind_is f.body

abbrev pub frame_is : (Frame → Bool) → Option Frame → Bool
frame_is p none = false
frame_is p (some f) = p f

unfoldable pub exit_nonzero : Detail → Bool
exit_nonzero (exit (exited n)) = not (n == 0)
exit_nonzero (exit (signalled n)) = true
exit_nonzero _ = false

abbrev pub body_identity : Option Frame → Option Identity
body_identity none = none
body_identity (some f) = of_body f.body
  where
    of_body : Body → Option Identity
    of_body (arrive i) = some i
    of_body (release i) = some i
    of_body _ = none

abbrev second_arrival : Option Identity → Option Identity → Bool
second_arrival (some i) (some j) = i == j && (i.arrival == 2 && i.point == "before_write")
second_arrival _ _ = false

abbrev pub frame_at : Option Scene → Option Frame
frame_at none = none
frame_at (some s) = frame_of s

unfoldable pub incremented_arrival : Covered → Bool
incremented_arrival c =
    let arrivals = keep (λ s. message_at "arrive" go s && is_exchange s) c.own in
    let releases = keep (λ s. message_at "release" java s && is_exchange s) c.own in
    both_targets c
    && (length arrivals == 1
        && (length releases == 1
            && (c.prefix == "released"
                && second_arrival (body_identity (frame_at (first arrivals)))
                    (body_identity (frame_at (first releases))))))
