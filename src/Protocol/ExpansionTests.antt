-- ===== src/Protocol/ExpansionTests.antt =====
-- The theorems of `expand` and `emissions` at a small case.
use weavegate.Prelude.{ℕ, ◌≤◌, List, [], ◌∷◌, String, ◌≡◌, ◌≢◌, refl, true, arith, string_eq}
use weavegate.Prelude.Dict
use weavegate.Prelude.Dict.{Dict, is_some}
use weavegate.Protocol.Expand.{Item, step, prefix_named, expand, expand_within, expand_items}
use weavegate.Protocol.Expand.Depth.{Reaches, expand-deep_enough, expand-acyclic}
use weavegate.Protocol.Emissions.{
  emissions, emissions_from, step_outputs, effect_outputs, find_output, take_output, sends,
  is_output, type_of,
}
use weavegate.Protocol.Emissions.Matching.{Matched, promised_by, emissions-Matched}
use weavegate.Prelude.Result.{ok}
use weavegate.Protocol.Message.{go, invoke, peer_beq}
use weavegate.Protocol.Vocabulary.{fatal_kinds}
use weavegate.Protocol.State.{Step, local, invoke_call}
use weavegate.Protocol.Tests.{call, to_java, one_case}

abbrev some_prefixes : Dict String (List (Item ℕ))
some_prefixes = ("new", step 1 ∷ []) ∷ ("ready", prefix_named "new" ∷ step 2 ∷ []) ∷ []

ready_expanded : expand some_prefixes "ready" ≡ ok (1 ∷ 2 ∷ [])
unfolding expand expand_within expand_items Dict.get
ready_expanded = refl

expand-deep_enough_example : expand_within 5 some_prefixes "ready" [] ≡ expand some_prefixes "ready"
expand-deep_enough_example = expand-deep_enough some_prefixes "ready" 5 (omega arith)

expand-acyclic_example :
    (is_some (Dict.get "ready" some_prefixes) ≡ true)
    × (2 ≤ 10000)
    × ((other : String)
        → Reaches some_prefixes "ready" other
        → (is_some (Dict.get other some_prefixes) ≡ true) × (other ≢ "ready"))
expand-acyclic_example = expand-acyclic some_prefixes "ready" (1 ∷ 2 ∷ []) ready_expanded

-- A call that promises the exchange of its invocation.
abbrev promising : List Step
promising =
    record {
      peer = go;
      expect = "send_invoke" ∷ [];
      action = local (invoke_call call "t1" "assign");
    }
    ∷ to_java 1 (invoke call "t1" "assign") "invoke"
    ∷ []

emissions_run : emissions one_case promising ≡ ok (1 ∷ [])
unfolding emissions emissions_from step_outputs effect_outputs find_output take_output sends
    is_output type_of peer_beq fatal_kinds Dict.get
emissions_run = refl

emissions-Matched_example :
    Matched promising (1 ∷ []) × (1 ≡ promised_by one_case.targets promising)
emissions-Matched_example = emissions-Matched one_case promising (1 ∷ []) emissions_run
