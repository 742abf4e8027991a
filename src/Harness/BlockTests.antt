-- ===== src/Harness/BlockTests.antt =====
-- A guarded directory and a block of two arms, and the theorems of the guard and the collector there.
use weavegate.Prelude.{
  ◌≡◌, refl, String, true, false, none, some, List, [], ◌∷◌, ◌++◌, map, All, length, string_eq,
  list_eq,
}
use weavegate.Prelude.Dict
use weavegate.Prelude.Result.{Check, ok, err, for_each}
use weavegate.Harness.Trial.{steps}
use weavegate.Harness.Guard.{
  Relative, World, Guard, Action, hook, enter, make, boundary, complete, run, act, check,
  check_with, checked, after, mkdir, checkpoint, command_complete, adopt, adopt_entry, step_files,
  suffixes, control, command_files, same_inode, same_entry, protected_check, added_check, below,
}
use weavegate.Harness.Guard.Kept.{rewrites, check-append_only, run-stopped}
use weavegate.Harness.Collector.{
  Arm, normal, interrupt, Collected, arm, collect_arms, collect, stop_reason, fresh_session,
  executed, admitted, guarded, guarded_by, command, teardown, proceed, observed, checked_by,
  attempt, verdict, returned, passes_on, tear_down, cleanup, skip, enter as enter_arm, choose,
}
use weavegate.Harness.Collector.Reuse.{Accounted, collect_arms-stopped, collect-Accounted}
use weavegate.Harness.Collector.Steps.{Begun, Contained, ending, arm-Traced, arm-Reusable}

abbrev any_path : Relative → World → Check
any_path directory w = ok tt

abbrev campaign : Relative
campaign = "campaign.json" ∷ []

abbrev arm_directory : Relative
arm_directory = "blocks" ∷ "b1" ∷ "baseline" ∷ []

abbrev frozen : World
frozen = record {
  files = (campaign, some "c0") ∷ ("blocks" ∷ [], none) ∷ ("blocks" ∷ "b1" ∷ [], none) ∷ [];
  regular = true;
  lock = (1, 7);
}

abbrev watching : Guard
watching = record { hashes = frozen.files; active = none; error = none; lock_stat = (1, 7) }

-- The directory after the step `run`: its three files and a log of the hook.
abbrev after_hook : World
after_hook = record frozen {
  files =
      frozen.files
      ++ (arm_directory, none)
        ∷ (arm_directory ++ "run.command.json" ∷ [], some "d1")
        ∷ (arm_directory ++ "run.stdout" ∷ [], some "d2")
        ∷ (arm_directory ++ "run.stderr" ∷ [], some "d3")
        ∷ (arm_directory ++ "log" ∷ [], some "d4")
        ∷ [];
}

abbrev lifecycle : List Action
lifecycle =
    make arm_directory
    ∷ enter arm_directory
    ∷ hook after_hook
    ∷ complete arm_directory "run"
    ∷ boundary
    ∷ []

lifecycle_run :
    (let (w, g) = run any_path lifecycle (frozen, watching) in (check any_path [] w g).1 ≡ ok tt)
unfolding run act check check_with checked after mkdir checkpoint command_complete adopt adopt_entry
    step_files suffixes control command_files steps same_inode same_entry protected_check
    added_check below for_each Dict.get Dict.put
lifecycle_run = refl

check-append_only_example :
    Dict.get campaign (run any_path lifecycle (frozen, watching)).0.files ≡ some (some "c0")
unfolding Dict.get rewrites
check-append_only_example =
    check-append_only any_path campaign (some "c0") lifecycle frozen watching lifecycle_run refl
      refl

run-stopped_example :
    ((run any_path lifecycle (frozen, record watching { error = some "changed" })).1.error
      ≡ some "changed")
    × ((run any_path lifecycle (frozen, record watching { error = some "changed" })).1.hashes
        ≡ frozen.files)
    × ((writing : List Relative) (w' : World)
        → (check any_path writing w'
            (run any_path lifecycle (frozen, record watching { error = some "changed" })).1).1
          ≡ err "changed")
run-stopped_example =
    run-stopped any_path "changed" lifecycle frozen (record watching { error = some "changed" })
      refl

abbrev quiet : String → Arm
quiet name = record {
  name = name;
  entering = normal;
  today = true;
  still_today = true;
  guards = λ step. ok tt;
  admits = λ step. ok tt;
  execute = λ step. (true, normal);
  contained = λ step. true;
  violates = λ step. false;
  observation = ok tt;
  pins = true;
  cleanup_pins = ok tt;
  inputs = normal;
  proof = ok tt;
  pins_after = ok tt;
  finishing = normal;
}

arm-Traced_example :
    (steps : List String) × Begun steps
    × ((arm (record (quiet "baseline") { execute = λ step. (true, interrupt) }) fresh_session).0.log
        ≡ [] ++ map (λ step. ("baseline", step)) (steps ++ ending (ok tt)))
arm-Traced_example =
    arm-Traced (record (quiet "baseline") { execute = λ step. (true, interrupt) }) fresh_session

quiet_valid : (arm (quiet "baseline") fresh_session).1.cleanup_inputs_valid ≡ true
unfolding arm cleanup tear_down teardown verdict returned attempt command guarded guarded_by
    admitted executed proceed observed checked_by
quiet_valid = refl

arm-Reusable_example :
    (steps : List String) × Begun steps
    × ((arm (quiet "baseline") fresh_session).0.log
        ≡ [] ++ map (λ step. ("baseline", step)) (steps ++ "cleanup" ∷ []))
    × All (Contained (quiet "baseline")) (steps ++ "cleanup" ∷ [])
    × (fresh_session.contained ≡ true)
    × (fresh_session.clean ≡ true)
    × (((quiet "baseline").execute "cleanup").1 ≡ normal)
    × ((quiet "baseline").cleanup_pins ≡ ok tt)
    × ((quiet "baseline").proof ≡ ok tt)
    × ((quiet "baseline").pins_after ≡ ok tt)
    × ((quiet "baseline").pins ≡ true)
arm-Reusable_example = arm-Reusable (quiet "baseline") fresh_session quiet_valid

abbrev unsafe : Collected
unsafe = record { session = fresh_session; safe = false; interrupted = false; attempts = [] }

collect_arms-stopped_example :
    ((collect_arms (quiet "baseline" ∷ quiet "candidate" ∷ []) unsafe).session.log ≡ [])
    × (stop_reason (collect_arms (quiet "baseline" ∷ quiet "candidate" ∷ []) unsafe)
        ≡ some "cleanup_unproven")
collect_arms-stopped_example =
    collect_arms-stopped (quiet "baseline" ∷ quiet "candidate" ∷ []) unsafe refl

abbrev both : List Arm
both = quiet "baseline" ∷ record (quiet "candidate") { today = false } ∷ []

both_run : stop_reason (collect both) ≡ none
unfolding stop_reason collect collect_arms choose enter_arm skip arm cleanup tear_down teardown
    verdict returned passes_on attempt command guarded guarded_by admitted executed proceed observed
    checked_by
both_run = refl

collect-Accounted_example :
    All Accounted (collect both).attempts × (length (collect both).attempts ≡ length both)
collect-Accounted_example = collect-Accounted both both_run
