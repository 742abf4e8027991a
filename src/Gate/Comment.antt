-- ===== src/Gate/Comment.antt =====
-- The comment on a pull request: `report_embed_obstacle`, `fenced_report`, `comment_body`.
use weavegate.Prelude.{
  ℕ, zero, suc, ◌+◌, ◌-◌, max, String, Bool, true, false, not, ◌&&◌, ◌||◌, Option, none, some, List,
  [], ◌∷◌, ◌++◌, leb, any, elem, ◌==◌, string_eq, nat_eq, list_eq, if◌then◌else◌,
}
use weavegate.Prelude.Text.{Text, codes, between, decimal, after_prefix, last_is, utf8_length}
use weavegate.Gate.Status.{FilePath, name, is_schedule}
use weavegate.Gate.Step.{Status}
use weavegate.Gate.Names.{
  is_safe_name, is_repository, is_version, is_run_id, Url, server_origin, server_host,
}

unfoldable pub comment_limit : ℕ
comment_limit = 65536

-- The lengths of `re.findall('`+', text)`, the last run's so far in `run`: the longest of them.
unfoldable pub longest_run : ℕ → ℕ → Text → ℕ
longest_run run longest [] = max longest run
longest_run run longest (c ∷ t) =
    if c == 0x60 then longest_run (suc run) longest t else longest_run 0 (max longest run) t

unfoldable pub repeated : ℕ → ℕ → Text
repeated c zero = []
repeated c (suc n) = c ∷ repeated c n

unfoldable pub fence : Text → ℕ
fence t = max 4 (longest_run 0 0 t + 1)

-- `unicodedata.category(char) == 'Cc'`.
is_control : ℕ → Bool
is_control c = between 0 31 c || between 127 159 c

-- A report is its bytes decoded, or bytes that are not UTF-8.
unfoldable pub obstacle_of : Option Text → Bool
unfolding is_control
obstacle_of none = true
obstacle_of (some text) = not (last_is 10 text) || any (λ c. not (c == 10) && is_control c) text

unfoldable pub fenced_report : Text → Text
fenced_report text =
    codes "<!-- weavegate-report-begin -->\n"
    ++ repeated 0x60 (fence text)
    ++ codes "text\n"
    ++ text
    ++ repeated 0x60 (fence text)
    ++ codes "\n<!-- weavegate-report-end -->\n"

-- What is read of the report: too large a file is not read, and bytes may not be UTF-8.
pub data Report : Type 0 where
  too_large : Report
  undecodable : Report
  decoded : Text → Report

pub record Context : Type 0 where
  pub repository : String
  pub run_id : String
  pub server_url : String
  pub artifact_name : String
  pub artifact_url : String
  pub upload_outcome : String
  pub version : String

-- `value if test else ''`.
abbrev checked : (Text → Bool) → String → Text
checked test value = if test (codes value) then codes value else []

abbrev is_set : Text → Bool
is_set [] = false
is_set _ = true

join : Text → List Text → Text
join separator [] = []
join separator (t ∷ []) = t
join separator (t ∷ u ∷ ts) = t ++ separator ++ join separator (u ∷ ts)

-- `line[0].upper() + line[1:]`, on a line that starts with an ASCII character.
upper_first : Text → Text
upper_first [] = []
upper_first (c ∷ t) = (if between b'a' b'z' c then c - 32 else c) ∷ t

verdict_of : String → Text
verdict_of v = if elem v ("PASS" ∷ "FAIL" ∷ "FLAKY" ∷ []) then codes v else []

code_text : Option ℕ → Text
code_text none = codes "unavailable"
code_text (some n) = decimal n

run_name_of : Option FilePath → Text
run_name_of none = []
run_name_of (some p) = checked is_safe_name (name p)

starts_https : Text → Bool
starts_https t = has (after_prefix (codes "https://") t)
  where
    has : Option Text → Bool
    has none = false
    has (some _) = true

-- `split_url` is `urllib.parse.urlsplit`, with `none` for its `ValueError`.
module _ (split_url : String → Option Url) where
  unfoldable pub uploaded : Context → Bool
  unfolding starts_https
  uploaded context =
      context.upload_outcome == "success" && starts_https (codes context.artifact_url)

  schedule_of : Status → Text
  schedule_of status =
      if is_schedule status.result.schedule_id then status.result.schedule_id else []

  -- `server_url and repository and run_id`.
  has_run : Context → Bool
  has_run context =
      is_set (server_origin split_url context.server_url)
      && (is_set (checked is_repository context.repository)
          && is_set (checked is_run_id context.run_id))

  facts : Status → Context → List Text
  unfolding uploaded schedule_of has_run verdict_of
  facts status context =
      when (is_set (verdict_of status.result.verdict))
        (codes "Report verdict **" ++ verdict_of status.result.verdict ++ codes "**")
      ++ when (is_set (schedule_of status)) (codes "schedule `" ++ schedule_of status ++ codes "`")
      ++ ((if uploaded context
            then codes "[evidence artifact](" ++ codes context.artifact_url ++ codes ")"
            else codes "evidence upload did not succeed, so this run has no downloadable evidence")
          ∷ [])
      ++ when (has_run context) (
          codes "[workflow run "
          ++ checked is_run_id context.run_id
          ++ codes "]("
          ++ server_origin split_url context.server_url
          ++ codes "/"
          ++ checked is_repository context.repository
          ++ codes "/actions/runs/"
          ++ checked is_run_id context.run_id
          ++ codes ")")
    where
      when : Bool → Text → List Text
      when true t = t ∷ []
      when false t = []

  unfoldable pub head_of : Status → Context → Text
  unfolding facts code_text join upper_first
  head_of status context =
      codes "<!-- weavegate-gate-comment v1 -->\n### weavegate gate: process exit code "
      ++ code_text status.exit_code
      ++ codes "\n\n"
      ++ upper_first (join (codes " · ") (facts status context))
      ++ codes "\n\n"

  replay_commands : Status → Context → Text
  unfolding schedule_of
  replay_commands status context =
      let repository = checked is_repository context.repository in
      let host = server_host split_url context.server_url in
      codes "2. Download the artifact and import its schedule from the repository root:\n\n"
      ++ codes "   ```sh\n"
      ++ codes "   gh run download "
      ++ checked is_run_id context.run_id
      ++ codes " --repo "
      ++ (if host == codes "github.com" then repository else host ++ codes "/" ++ repository)
      ++ codes " --name "
      ++ checked is_safe_name context.artifact_name
      ++ codes " --dir weavegate-evidence\n"
      ++ codes "   mkdir -p .weavegate/schedules\n"
      ++ codes "   cp weavegate-evidence/schedule.json .weavegate/schedules/"
      ++ schedule_of status
      ++ codes ".json\n"
      ++ codes "   ```\n\n"

  replay_section : Status → Context → Text
  unfolding schedule_of has_run replay_commands
  replay_section status context =
      let version = checked is_version context.version in
      codes "<details>\n<summary>Replay schedule <code>"
      ++ schedule_of status
      ++ codes "</code></summary>\n\n"
      ++ codes "1. Check out the revision this workflow run tested and install weavegate"
      ++ (if is_set version then codes " `" ++ version ++ codes "`.\n" else codes ".\n")
      ++ (if has_run context && is_set (checked is_safe_name context.artifact_name)
          then replay_commands status context
          else codes
              "2. Download the artifact and copy its `schedule.json` to `.weavegate/schedules/"
            ++ schedule_of status
            ++ codes ".json` under the repository root.\n")
      ++ codes
          "3. From the repository root, run the command on the report's `replay:` line. If that line contains a backslash escape it is a display form; rebuild the command from its original argument values.\n"
      ++ codes
          "\nThe [CI gate how-to](https://github.com/weavegate/weavegate/blob/main/docs/howto/ci-gate.md#pull-request-comment) describes this comment and the replay in full.\n\n</details>\n\n"

  unfoldable pub tail_of : Status → Context → Text
  unfolding schedule_of uploaded replay_section
  tail_of status context =
      (if uploaded context && is_set (schedule_of status)
        then replay_section status context
        else [])
      ++ codes "Set `comment: 'false'` on the weavegate action to turn this comment off.\n"

  unfoldable pub embedding : Text → Text
  embedding text =
      codes
        "<details>\n<summary>Stored <code>report.md</code>, unchanged and shown as literal text</summary>\n\n"
      ++ fenced_report text
      ++ codes "\n</details>\n\n"

  unfoldable pub not_embedded : Status → ℕ → Context → String → Text
  unfolding uploaded run_name_of
  not_embedded status size context obstacle =
      let run_name = run_name_of status.result.run_directory in
      codes "The stored `report.md` ("
      ++ decimal size
      ++ codes " bytes) is not embedded here: "
      ++ codes obstacle
      ++ codes ". It was not truncated."
      ++ (if uploaded context && is_set run_name
          then codes " Read `runs/" ++ run_name ++ codes "/report.md` in the evidence artifact."
          else [])
      ++ codes "\n\n"

  unfoldable pub oversized : String
  oversized = "the comment would exceed GitHub's 65536-character limit"

  -- The body, and whether the report is in it.
  unfoldable pub comment_body : Status → Report → ℕ → Context → Text × Bool
  comment_body status report size context = wrap report
    where
      refused : String → Text × Bool
      refused obstacle = (
        head_of status context
            ++ not_embedded status size context obstacle
            ++ tail_of status context,
        false,
      )

      wrap : Report → Text × Bool
      wrap too_large = refused oversized
      wrap undecodable = refused "it contains bytes that a comment cannot carry unchanged"
      wrap (decoded text) =
          let body = head_of status context ++ embedding text ++ tail_of status context in
          if obstacle_of (some text)
          then refused "it contains bytes that a comment cannot carry unchanged"
          else if leb (utf8_length body) comment_limit
          then (body, true)
          else refused oversized
