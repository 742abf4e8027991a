-- ===== src/Gate/Status.antt =====
-- The run's status: `parse_run`, `run`, `read_status` and `gate`.
use weavegate.Prelude.{
  ℕ, String, Bool, true, false, not, ◌&&◌, ◌||◌, Option, none, some, List, [], ◌∷◌, all, elem, keep,
  length, ◌==◌, string_eq, nat_eq, list_eq, if◌then◌else◌,
}
use weavegate.Prelude.Result.{Result, Check, ok, err, ◌>>=◌, ◌>>◌, need}
use weavegate.Prelude.Text.{Text, codes, between, after_prefix, first_line, last_is}

-- An absolute path, its last component first.
abbrev pub FilePath : Type 0
FilePath = List String

-- `path.parent`, which is the root's own for the root.
abbrev pub parent : FilePath → FilePath
parent [] = []
parent (_ ∷ p) = p

abbrev pub name : FilePath → String
name [] = ""
name (n ∷ _) = n

pub record Manifest : Type 0 where
  pub artifact_version : ℕ
  pub run_id : String

-- The version of an artifact, and the ID under its `schedule` where it has one.
pub record Scenario : Type 0 where
  pub artifact_version : ℕ
  pub schedule : Option Text

-- What the calls on files return; `none` stands for an exception that `parse_run` catches.
pub record Disk : Type 0 where
  pub resolve : String → Option FilePath
  pub is_dir : FilePath → Bool
  pub is_file : FilePath → Bool
  pub read_manifest : FilePath → Option Manifest
  pub read_scenario : FilePath → Option Scenario
  pub read_version : FilePath → Option ℕ
  pub read_text : FilePath → Option Text
  pub copy : FilePath → Bool

pub record RunResult : Type 0 where
  pub run_directory : Option FilePath
  pub report_path : Option FilePath
  pub schedule_id : Text
  pub verdict : String
  pub evidence_complete : Bool
  pub artifact_version : Option ℕ
  pub evidence_note : String

unfoldable pub base_files : List String
base_files =
    "manifest.json" ∷ "scenario.json" ∷ "observation.json" ∷ "trace.json" ∷ "report.json"
    ∷ "report.md" ∷ []

is_schedule_digit : ℕ → Bool
is_schedule_digit c = between b'0' b'9' c || between b'a' b'f' c

-- `SCHEDULE.fullmatch`.
unfoldable pub is_schedule : Text → Bool
unfolding is_schedule_digit
is_schedule t = after (after_prefix (codes "sch_") t)
  where
    after : Option Text → Bool
    after none = false
    after (some digits) = length digits == 12 && all is_schedule_digit digits

-- The end of a headline: nothing, or a parenthesis that the line ends with.
closes : Text → Bool
closes [] = true
closes t = in_parentheses (after_prefix (codes " (") t)
  where
    in_parentheses : Option Text → Bool
    in_parentheses none = false
    in_parentheses (some rest) = last_is b')' rest

verdict_in : List String → Text → Option String
unfolding closes
verdict_in [] line = none
verdict_in (v ∷ vs) line =
    let rest = verdict_in vs line in first v rest (after_prefix (codes v) line)
  where
    first : String → Option String → Option Text → Option String
    first v rest none = rest
    first v rest (some t) = if closes t then some v else rest

-- `HEADLINE.match` and its first group.
unfoldable pub headline : Text → Option String
unfolding verdict_in
headline report = of_title (after_prefix (codes "## weavegate: ") report)
  where
    of_line : Option (Text × Text) → Option String
    of_line none = none
    of_line (some (line, _)) = verdict_in ("PASS" ∷ "FAIL" ∷ "FLAKY" ∷ []) line

    of_title : Option Text → Option String
    of_title none = none
    of_title (some t) = of_line (first_line t)

abbrev pub or_fail {ℓ} : {A : Type ℓ} → String → Option A → Result A
or_fail message none = err message
or_fail message (some a) = ok a

unfoldable pub missing : Disk → FilePath → List String
missing disk dir = keep (λ n. not (disk.is_file (n ∷ dir))) base_files

-- The tests on what was read.
unfoldable pub agreement :
    Manifest → Scenario → ℕ → ℕ → Option String → FilePath → Result (ℕ × String × Option Text)
agreement manifest scenario observation report found dir = do
  need
      (scenario.artifact_version == manifest.artifact_version
        && (observation == manifest.artifact_version
            && (report == manifest.artifact_version
                && elem manifest.artifact_version (2 ∷ 3 ∷ []))))
      "inconsistent artifact versions"
  need (manifest.run_id == name dir) "manifest run ID does not match directory"
  verdict ← or_fail "report headline is missing" found
  ok (manifest.artifact_version, verdict, scenario.schedule)

-- The `try` block of `parse_run`, up to the schedule: the version, the verdict and the schedule.
unfoldable pub read_run : Disk → FilePath → Result (ℕ × String × Option Text)
read_run disk dir = do
  manifest ← or_fail "manifest" (disk.read_manifest ("manifest.json" ∷ dir))
  scenario ← or_fail "scenario" (disk.read_scenario ("scenario.json" ∷ dir))
  observation ← or_fail "observation" (disk.read_version ("observation.json" ∷ dir))
  report ← or_fail "report" (disk.read_version ("report.json" ∷ dir))
  text ← or_fail "report text" (disk.read_text ("report.md" ∷ dir))
  agreement manifest scenario observation report (headline text) dir

unfoldable pub schedule_check : Disk → FilePath → Option Text → Check
schedule_check disk dir none = ok tt
schedule_check disk dir (some id) =
    need (is_schedule id && disk.is_file ("schedule.json" ∷ dir)) "schedule evidence is incomplete"

abbrev pub copied : Disk → FilePath → Option Text → Bool
copied disk dir none = true
copied disk dir (some id) = disk.copy ("schedule.json" ∷ dir)

abbrev pub id_or_empty : Option Text → Text
id_or_empty none = []
id_or_empty (some id) = id

abbrev pub partial : RunResult → String → RunResult
partial r message = record r { evidence_note = message }

unfoldable pub finish_run :
    Disk → FilePath → RunResult → Result (ℕ × String × Option Text) → RunResult
finish_run disk dir r (err message) = partial r message
finish_run disk dir r (ok (version, verdict, schedule)) = checked (schedule_check disk dir schedule)
  where
    checked : Check → RunResult
    checked (err message) = partial r message
    checked (ok _) =
        if copied disk dir schedule
        then record r {
          schedule_id = id_or_empty schedule;
          artifact_version = some version;
          verdict = verdict;
          evidence_complete = true;
          evidence_note = "Complete run evidence retained.";
        }
        else partial (record r { schedule_id = id_or_empty schedule }) "copy"

abbrev pub no_run : RunResult
no_run = record {
  run_directory = none;
  report_path = none;
  schedule_id = [];
  verdict = "";
  evidence_complete = false;
  artifact_version = none;
  evidence_note = "No run directory printed.";
}

abbrev pub last_line : List String → Option String
last_line [] = none
last_line (l ∷ []) = some l
last_line (l ∷ k ∷ ls) = last_line (k ∷ ls)

unfoldable pub is_nothing : List String → Bool
is_nothing [] = true
is_nothing _ = false

abbrev pub found_run : Disk → FilePath → RunResult
found_run disk dir = record no_run {
  run_directory = some dir;
  report_path = if disk.is_file ("report.md" ∷ dir) then some ("report.md" ∷ dir) else none;
}

unfoldable pub inspect : Disk → FilePath → Option FilePath → RunResult
unfolding is_nothing
inspect disk root none = no_run
inspect disk root (some dir) =
    let found = found_run disk dir in
    if parent dir == "runs" ∷ root && disk.is_dir dir
    then (if is_nothing (missing disk dir)
        then finish_run disk dir found (read_run disk dir)
        else partial found "Missing run files")
    else no_run

unfoldable pub inspect_line : Disk → FilePath → Option String → RunResult
inspect_line disk root none = no_run
inspect_line disk root (some line) = inspect disk root (disk.resolve line)

-- `stdout` by its lines.
unfoldable pub parse_run : Disk → FilePath → List String → RunResult
parse_run disk root stdout = inspect_line disk root (last_line stdout)
