-- ===== src/Protocol/Emissions.antt =====
-- `emissions`: each frame that a step is expected to send is exchanged later.
pub mod Matching
use Prim.Native.String.{◌++◌ as str_append}
use weavegate.Prelude.{
  ℕ, suc, ◌+◌, ◌-◌, ◌≤◌, String, Bool, true, false, not, ◌&&◌, Option, none, some, List, [], ◌∷◌,
  map, ◌≡◌, refl, arith, elem, distinct, get_elem?, Bool-cases, Option-cases, inl, inr, ap, sym,
  ◌∙◌, length, ◌==◌, string_eq, nat_eq, if◌then◌else◌,
}
use weavegate.Prelude.Dict
use weavegate.Prelude.Dict.{Dict, is_some}
use weavegate.Prelude.Result.{Result, ok, err, ◌>>=◌, ◌>>◌, need, >>=-eq-ok}
use weavegate.Protocol.Message.{
  Peer, peer_eq, Body, start, ready, invoke, accepted, arrive, release, terminal, cancel, stop,
  stopped, fatal,
}
use weavegate.Protocol.Vocabulary.{fatal_kinds}
use weavegate.Protocol.State.{Case, Step, Action, local, receive, input, exchange}

-- `frame['type']`.
unfoldable pub type_of : Body → String
type_of (start _) = "start"
type_of (ready _) = "ready"
type_of (invoke _ _ _) = "invoke"
type_of (accepted _ _) = "accepted"
type_of (arrive _) = "arrive"
type_of (release _) = "release"
type_of (terminal _) = "terminal"
type_of (cancel _ _ _) = "cancel"
type_of (stop _) = "stop"
type_of stopped = "stopped"
type_of (fatal _ _) = "fatal"

message_effects : Dict String String
message_effects =
    ("send_ready", "ready")
    ∷ ("send_invoke", "invoke")
    ∷ ("send_arrive", "arrive")
    ∷ ("send_release", "release")
    ∷ ("send_cancel", "cancel")
    ∷ ("send_stop", "stop")
    ∷ ("send_stopped", "stopped")
    ∷ ("send_terminal", "terminal")
    ∷ ("send_fatal", "fatal")
    ∷ []

fatal_effects : Dict String String
unfolding fatal_kinds
fatal_effects = map (λ (kind : String). (str_append "fatal_" kind, kind)) fatal_kinds

abbrev expected_of : Option String → Option String → Option (String × Option String)
expected_of none none = none
expected_of (some kind) fatal_kind = some (kind, fatal_kind)
expected_of none (some fatal_kind) = some ("fatal", some fatal_kind)

-- The type of the frame that an effect sends, and the kind of a `fatal`.
unfoldable pub sends : String → Option (String × Option String)
unfolding message_effects fatal_effects
sends effect = expected_of (Dict.get effect message_effects) (Dict.get effect fatal_effects)

unfoldable pub is_output : String → Peer → Action → Bool
is_output expected peer (local e) = false
is_output expected peer (receive f input) = false
is_output expected peer (receive f exchange) = type_of f.body == expected

-- The first later exchange of that type to the other peer that no effect has used.
unfoldable pub find_output : List ℕ → String → Peer → ℕ → List Step → Option (ℕ × Step)
find_output used expected peer i [] = none
find_output used expected peer i (s ∷ rest) =
    if not (elem i used) && (not (s.peer == peer) && is_output expected peer s.action)
    then some (i, s)
    else find_output used expected peer (suc i) rest

kind_is : String → Body → Bool
kind_is kind (fatal k m) = k == kind
kind_is kind _ = false

fatal_kind_is : Option String → Action → Bool
unfolding kind_is
fatal_kind_is none a = true
fatal_kind_is (some kind) (receive f d) = kind_is kind f.body
fatal_kind_is (some kind) (local e) = false

unfoldable pub take_output : Option String → Option (ℕ × Step) → List ℕ → Result (List ℕ)
unfolding fatal_kind_is
take_output fatal_kind none used = err "lacks explicit wire exchange"
take_output fatal_kind (some (i, s)) used = do
  need (fatal_kind_is fatal_kind s.action) "emits wrong fatal kind"
  ok (i ∷ used)

unfoldable pub effect_outputs :
    Option (String × Option String) → Peer → ℕ → List Step → List ℕ → Result (List ℕ)
effect_outputs none peer i rest used = ok used
effect_outputs (some (expected, fatal_kind)) peer i rest used =
    take_output fatal_kind (find_output used expected peer i rest) used

-- `i` is the place of `rest` among the steps.
unfoldable pub step_outputs : List String → Peer → ℕ → List Step → List ℕ → Result (List ℕ)
step_outputs [] peer i rest used = ok used
step_outputs (effect ∷ effects) peer i rest used = do
  more ← effect_outputs (sends effect) peer i rest used
  step_outputs effects peer i rest more

-- The places of the frames that the expected effects of the targets account for.
unfoldable pub emissions_from : List Peer → ℕ → List Step → List ℕ → Result (List ℕ)
emissions_from targets i [] used = ok used
emissions_from targets i (s ∷ rest) used =
    if elem s.peer targets
    then (do
      more ← step_outputs s.expect s.peer (suc i) rest used
      emissions_from targets (suc i) rest more)
    else emissions_from targets (suc i) rest used

unfoldable pub emissions : Case → List Step → Result (List ℕ)
emissions c steps = emissions_from c.targets 0 steps []
