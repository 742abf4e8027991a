-- ===== src/Harness/Guard.antt =====
-- `BundleGuard` of storage.py: what hooks may write, and what the collector owns.
pub mod Kept
use weavegate.Prelude.{
  ℕ, String, Bool, true, false, not, ◌&&◌, ◌||◌, Option, none, some, List, [], ◌∷◌, ◌++◌, elem, all,
  keep, ◌==◌, string_eq, nat_eq, list_eq, if◌then◌else◌,
}
use Prim.Native.String.{◌++◌ as str_append}
use weavegate.Prelude.Dict
use weavegate.Prelude.Dict.{Dict, is_some}
use weavegate.Prelude.Result.{Result, Check, ok, err, ◌>>=◌, ◌>>◌, need, for_each}
use weavegate.Harness.Trial.{steps}

-- A path below the campaign's root, its parts in order.
abbrev pub Relative : Type 0
Relative = List String

-- `bundle_inventory`: the digest of each file, and `none` for a directory.
abbrev pub Inventory : Type 0
Inventory = Dict Relative (Option String)

-- The campaign's directory. `regular` is false where `bundle_inventory` raises, at a symbolic link
-- or an entry that is no file; `lock` is the device and inode of the lock.
pub record World : Type 0 where
  pub files : Inventory
  pub regular : Bool
  pub lock : ℕ × ℕ

pub record Guard : Type 0 where
  pub hashes : Inventory
  pub active : Option Relative
  pub error : Option String
  pub lock_stat : ℕ × ℕ

unfoldable pub control : List String
control = "attempt.json" ∷ "trial.json" ∷ "redactions.json" ∷ "cleanup-inputs.json" ∷ []

unfoldable pub suffixes : List String
suffixes = ".command.json" ∷ ".stdout" ∷ ".stderr" ∷ []

-- The three files of a step, in a directory.
unfoldable pub step_files : Relative → String → List Relative
step_files directory step = of suffixes
  where
    of : List String → List Relative
    of [] = []
    of (s ∷ more) = (directory ++ str_append step s ∷ []) ∷ of more

unfoldable pub command_files : List String → List String
command_files [] = []
command_files (step ∷ more) =
    str_append step ".command.json"
    ∷ str_append step ".stdout"
    ∷ str_append step ".stderr"
    ∷ command_files more

-- What a path has below a directory: `active in path.parents`, with the rest.
unfoldable pub below : Relative → Relative → Option Relative
below [] [] = none
below [] (p ∷ ps) = some (p ∷ ps)
below (d ∷ ds) [] = none
below (d ∷ ds) (p ∷ ps) = if d == p then below ds ps else none

abbrev is_owned_name : Option Relative → Bool
is_owned_name (some (name ∷ [])) = elem name (control ++ command_files steps)
is_owned_name _ = false

unfoldable pub same_inode : ℕ × ℕ → ℕ × ℕ → Bool
same_inode (a, b) (c, d) = a == c && b == d

unfoldable pub same_entry : Option (Option String) → Option String → Bool
same_entry none h = false
same_entry (some none) none = true
same_entry (some none) (some d) = false
same_entry (some (some c)) none = false
same_entry (some (some c)) (some d) = c == d

-- An entry that the guard recorded is as it was, unless the collector is writing it.
unfoldable pub protected_check : List Relative → Inventory → Relative × Option String → Check
protected_check writing actual (name, checksum) =
    need (elem name writing || same_entry (Dict.get name actual) checksum)
      "protected evidence changed during collection"

abbrev below_active : Option Relative → Relative → Option Relative
below_active none name = none
below_active (some active) name = below active name

-- A new entry lies in the arm's directory, and is none of the collector's files.
unfoldable pub added_check : List Relative → Guard → Relative × Option String → Check
added_check writing g (name, checksum) =
    if is_some (Dict.get name g.hashes) || elem name writing then ok tt else (do
      need (is_some (below_active g.active name)) "unregistered evidence added during collection"
      need (not (is_owned_name (below_active g.active name))) "hook wrote collector-owned file")

abbrev active_paths : (Relative → World → Check) → Option Relative → World → Check
active_paths valid none w = ok tt
active_paths valid (some directory) w = valid directory w

abbrev pub noted : Check → Guard → Guard
noted (ok _) g = g
noted (err message) g = record g { error = some message }

-- What follows a check, which nothing does where it raised.
unfoldable pub after : Guard × Check → World → (Guard → World × Guard) → World × Guard
after (g, ok _) w next = next g
after (g, err message) w next = (w, g)

unfoldable pub adopt_entry : Relative → Option (Option String) → Inventory → Inventory
adopt_entry path none hashes = hashes
adopt_entry path (some h) hashes = Dict.put path h hashes

-- The loop of `command_complete` over the step's files.
unfoldable pub adopt : List Relative → World → Guard → Guard
adopt [] w g = g
adopt (path ∷ paths) w g =
    let rest =
      adopt paths w (record g { hashes = adopt_entry path (Dict.get path w.files) g.hashes }) in
    if is_some (Dict.get path g.hashes)
    then record g { error = some "command executed twice" }
    else rest

-- What happens to the directory: a hook leaves it in any state, or the collector calls the guard.
pub data Action : Type 0 where
  hook : World → Action
  enter : (active : Relative) → Action
  make : Relative → Action
  write : Relative → String → Action
  boundary : Action
  complete : (directory : Relative) (step : String) → Action

-- `validate_paths` of redaction.py on the active directory.
module _ (validate_paths : Relative → World → Check) where
  unfoldable pub checked : List Relative → World → Guard → Check
  checked writing w g = do
    need (same_inode g.lock_stat w.lock) "protected campaign lock replaced during collection"
    active_paths validate_paths g.active w
    need w.regular "non-regular entry in bundle"
    for_each (protected_check writing w.files) g.hashes
    for_each (added_check writing g) w.files

  -- `check(writing)`: the guard after it, and whether it raised. The first error stays.
  unfoldable pub check_with : List Relative → World → Guard → Option String → Guard × Check
  check_with writing w g none = (noted (checked writing w g) g, checked writing w g)
  check_with writing w g (some message) = (g, err message)

  unfoldable pub check : List Relative → World → Guard → Guard × Check
  check writing w g = check_with writing w g g.error

  -- `mkdir(path)`, which raises where the path exists.
  unfoldable pub mkdir : Relative → World → Guard → World × Guard
  mkdir path w g = after (check [] w g) w (λ g'.
      if is_some (Dict.get path w.files) then (w, g') else (
        record w { files = Dict.put path none w.files },
        record g' { hashes = Dict.put path none g'.hashes },
      ))

  -- `own(path, value)`, with the digest of the value's text.
  unfoldable pub own : Relative → String → World → Guard → World × Guard
  own path value w g = after (check [] w g) w (λ g'. (
    record w { files = Dict.put path (some value) w.files },
    record g' { hashes = Dict.put path (some value) g'.hashes },
  ))

  unfoldable pub checkpoint : World → Guard → World × Guard
  checkpoint w g = after (check [] w g) w (λ g'. (w, record g' { hashes = w.files }))

  unfoldable pub command_complete : Relative → String → World → Guard → World × Guard
  command_complete directory step w g =
      after (check (step_files directory step) w g) w
        (λ g'. (w, adopt (step_files directory step) w g'))

  unfoldable pub act : Action → World × Guard → World × Guard
  act (hook w') (w, g) = (w', g)
  act (enter directory) (w, g) = (w, record g { active = some directory })
  act (make path) (w, g) = mkdir path w g
  act (write path value) (w, g) = own path value w g
  act boundary (w, g) = checkpoint w g
  act (complete directory step) (w, g) = command_complete directory step w g

  unfoldable pub run : List Action → World × Guard → World × Guard
  run [] s = s
  run (a ∷ actions) s = run actions (act a s)
