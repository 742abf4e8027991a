-- ===== src/Protocol/Receive.antt =====
-- The received frames of `history`, its `receive` steps, and the loop over a case.
use weavegate.Prelude.{
  ℕ, ◌+◌, String, Bool, true, false, not, ◌&&◌, ◌||◌, Option, none, some, List, [], ◌∷◌, elem,
  distinct, subset, ◌==◌, string_eq, nat_eq, length, if◌then◌else◌,
}
use weavegate.Prelude.Dict
use weavegate.Prelude.Dict.{Dict, is_some}
use weavegate.Prelude.Result.{Result, Check, ok, ◌>>=◌, ◌>>◌, need}
use weavegate.Protocol.Message.{
  Peer, go, java, peer_eq, Start, Terminal, Body, Frame, identity_eq, ready_beq, start_ready,
  terminal_beq, start, ready, invoke, release, terminal, cancel, stop, fatal,
}
use weavegate.Protocol.Vocabulary.{expectations}
use weavegate.Protocol.Shape.{frame_shape}
use weavegate.Protocol.State.{
  History, Step, Action, Case, Delivery, local, receive, input, exchange, initial,
}
use weavegate.Protocol.Premise.{injected_premise}
use weavegate.Protocol.Local.{local_step}
use weavegate.Protocol.Exchange.{exchange_step}

abbrev pub is_input : Delivery → Bool
is_input input = true
is_input exchange = false

-- `t in TO_JAVA`.
abbrev to_java : Body → Bool
to_java (start _) = true
to_java (invoke _ _ _) = true
to_java (release _) = true
to_java (cancel _ _ _) = true
to_java (stop _) = true
to_java _ = false

-- `t == 'fatal' or (peer == 'java') == (t in TO_JAVA)`.
unfoldable pub direction_ok : Peer → Body → Bool
direction_ok p (fatal _ _) = true
direction_ok java b = to_java b
direction_ok go b = not (to_java b)

-- The injected frames that a case sends in the wrong direction on purpose.
unfoldable pub wrong_way : String → Peer → Body → Delivery → Bool
wrong_way id java (ready _) input = id == "java_wrong_direction"
wrong_way id go (invoke _ _ _) input =
    id == "go_wrong_direction" || id == "go_semantic_duplicate_invoke"
wrong_way id go (start _) input = id == "go_semantic_duplicate_start"
wrong_way _ _ _ _ = false

abbrev pub seen_by : Peer → History → Dict ℕ String
seen_by go s = s.seq_go
seen_by java s = s.seq_java

abbrev pub see : Peer → ℕ → String → History → History
see go n payload s = record s { seq_go = Dict.put n payload s.seq_go }
see java n payload s = record s { seq_java = Dict.put n payload s.seq_java }

abbrev pub is_fatal : Body → Bool
is_fatal (fatal _ _) = true
is_fatal _ = false

-- A frame that may follow `fatal`.
abbrev pub allowed_after_fatal : Body → List String → Bool
allowed_after_fatal (fatal _ _) effects = true
allowed_after_fatal (stop _) effects = elem "no_stopped_required" effects
allowed_after_fatal _ effects = false

abbrev pub note_start : Body → Option Start → Option Start
note_start (start b) old = some b
note_start _ old = old

only_go : List Peer → Bool
only_go (go ∷ []) = true
only_go _ = false

unfoldable pub ready_check : Case → Body → Delivery → List String → Option Start → Check
unfolding only_go
ready_check c (ready b) d effects (some a) =
    need
      (ready_beq b (start_ready a)
        || (only_go c.targets && (is_input d && elem "startup_error" effects)))
      "mismatched ready must be Go-only input"
ready_check c _ d effects _ = ok tt

abbrev same_terminal : Option Terminal → Terminal → Bool
same_terminal none t = false
same_terminal (some a) t = terminal_beq t a

unfoldable pub retired_terminal : Case → Terminal → List String → History → Check
retired_terminal c t effects s =
    let equal = same_terminal (Dict.get t.invocation s.terminals) t in
    do
      need (c.id == "retired_terminal_identical" || c.id == "retired_terminal_conflict")
          "undeclared retired terminal input"
      need
          (if equal
            then c.id == "retired_terminal_identical"
            else not (c.id == "retired_terminal_identical"))
          "retired terminal body premise"
      need
          (if equal
            then subset
                ("consume_retired_invocation" ∷ "no_worker_result" ∷ "no_new_worker_effect"
                  ∷ "no_fatal" ∷ "no_reply" ∷ [])
                effects
            else subset ("fatal_protocol" ∷ "no_worker_result" ∷ "abort_run" ∷ []) effects)
          "retired terminal effects"

-- An injected input changes no variable but those of `sequenced_step`.
unfoldable pub input_step : Case → Body → List String → History → Check
unfolding retired_terminal
input_step c (terminal t) effects s =
    if elem t.invocation s.completed
    then retired_terminal c t effects s
    else need (injected_premise c.id (terminal t) effects s)
        "injected input lacks declared lifecycle premise"
input_step c b effects s =
    need (injected_premise c.id b effects s) "injected input lacks declared lifecycle premise"

unfoldable pub deliver : Case → Body → Delivery → List String → History → Result History
deliver c b input effects s = do input_step c b effects s; ok s
deliver c b exchange effects s = exchange_step c b effects s

-- A fresh frame: the fatal latch, `start`, and the delivery.
unfoldable pub fresh_step : Case → Peer → Frame → Delivery → List String → History → Result History
fresh_step c p f d effects s =
    let s' = record (see p f.seq f.payload s) {
      fatal_seen = is_fatal f.body || s.fatal_seen;
      start = note_start f.body s.start;
    } in
    do
      need (not s.fatal_seen || allowed_after_fatal f.body effects) "normal frame after fatal"
      ready_check c f.body d effects s'.start
      deliver c f.body d effects s'

abbrev is_payload : Option String → String → Bool
is_payload none p = false
is_payload (some q) p = q == p

unfoldable pub stale_check : Option String → Frame → Delivery → List String → Check
stale_check old f d effects =
    if is_payload old f.payload
    then need (is_input d && (elem "ignore_duplicate" effects && elem "no_reply" effects))
        "exact duplicate effects"
    else need (is_input d && elem "fatal_protocol" effects) "unmarked sequence conflict/gap"

-- The next sequence number of the receiver, or a duplicate, conflict or gap that leaves no trace.
unfoldable pub sequenced_step :
    Case → Peer → Frame → Delivery → List String → History → Result History
sequenced_step c p f d effects s =
    if is_some (Dict.get f.seq (seen_by p s)) || not (f.seq == length (seen_by p s) + 1)
    then (do stale_check (Dict.get f.seq (seen_by p s)) f d effects; ok s)
    else fresh_step c p f d effects s

abbrev pub same_binding : Option (String × String) → String → String → Bool
same_binding none run session = true
same_binding (some (r, t)) run session = r == run && t == session

abbrev pub bind : Option (String × String) → String → String → Option (String × String)
bind none run session = some (run, session)
bind (some x) run session = some x

unfoldable pub bound_step : Case → Peer → Frame → Delivery → List String → History → Result History
bound_step c p f d effects s =
    if same_binding s.binding f.run f.session
    then sequenced_step c p f d effects (record s { binding = bind s.binding f.run f.session })
    else (do
      need (is_input d && elem "drop_foreign_session" effects)
          "foreign session must be injected and dropped"
      ok s)

needs_premise : String → Bool
needs_premise id = elem id ("go_semantic_duplicate_start" ∷ "go_semantic_duplicate_invoke" ∷ [])

unfoldable pub wrong_way_check : Case → Body → List String → History → Check
unfolding needs_premise
wrong_way_check c b effects s = do
  need (elem "fatal_protocol" effects) "wrong direction must be rejected"
  need (not (needs_premise c.id) || injected_premise c.id b effects s)
      "semantic duplicate lacks prior matching body"

unfoldable pub receive_step :
    Case → Peer → Frame → Delivery → List String → History → Result History
receive_step c p f d effects s = do
  frame_shape f
  need (not (is_input d) || elem p c.targets) "injected input has no target receiver"
  if wrong_way c.id p f.body d then (do wrong_way_check c f.body effects s; ok s) else do
    need (direction_ok p f.body) "message direction"
    if f.v == 1 then bound_step c p f d effects s else (do
      need (is_input d && elem "fatal_version" effects) "unmarked incompatible version"
      ok s)

abbrev is_nonempty {ℓ} : {A : Type ℓ} → List A → Bool
is_nonempty [] = false
is_nonempty _ = true

module _ (sha256 : List ℕ → String) where
  unfoldable pub act : Case → Step → Action → History → Result History
  act c step (local e) s = local_step sha256 step.peer e step.expect s
  act c step (receive f d) s = receive_step c step.peer f d step.expect s

  unfoldable pub history_step : Case → Step → History → Result History
  history_step c step s = do
    need (is_nonempty step.expect) "step receiver/effects"
    need (subset step.expect expectations) "unknown expectation label"
    act c step step.action s

  unfoldable pub run_steps : Case → List Step → History → Result History
  run_steps c [] s = ok s
  run_steps c (step ∷ steps) s = do s' ← history_step c step s; run_steps c steps s'

  unfoldable pub history : Case → List Step → Result History
  history c steps = do
    need (c.execution == "isolated" && (is_nonempty c.targets && distinct c.targets)) "case scope"
    run_steps c steps initial
