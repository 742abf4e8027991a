-- ===== src/Gate/Tests.antt =====
-- A passing run on a small disk, and the theorems of the gate at it.
use weavegate.Prelude.{
  ℕ, ◌≤◌, ◌<◌, String, true, false, Option, none, some, List, [], ◌∷◌, ◌++◌, ◌≡◌, ◌↔◌, ◌⊎◌, refl,
}
use weavegate.Prelude.Result.{ok}
use weavegate.Prelude.Text.{Text, codes, utf8_length}
use weavegate.Gate.Status.{FilePath, name, Disk, Manifest, Scenario, read_run, agreement, headline}
use weavegate.Gate.Step.{Process, ended, exited, gate, run}
use weavegate.Gate.Names.{Url}
use weavegate.Gate.Comment.{
  decoded, Context, comment_body, head_of, tail_of, embedding, obstacle_of, fence, repeated,
}
use weavegate.Gate.Status.{no_run}
use weavegate.Gate.Step.{Status}
use weavegate.Gate.Verdict.{Evidence, gate-Evidence}
use weavegate.Gate.Agreement.{read_run-consistent}
use weavegate.Gate.Fence.{fence-longer, comment_body-embeds}
use weavegate.Gate.Names.{is_repository}
use weavegate.Gate.Step.{read_status}
use weavegate.Gate.Comment.{comment_limit}
use weavegate.Gate.Post.{
  created, Job, answered, is_stored, report_of, body_of, forward, send, decide_comment, is_positive,
}
use weavegate.Gate.Sent.{Sent, decide_comment-Sent}

abbrev one_root : FilePath
one_root = "evidence" ∷ "tmp" ∷ []

abbrev one_dir : FilePath
one_dir = "run_1" ∷ "runs" ∷ one_root

abbrev one_disk : Disk
one_disk = record {
  resolve = λ line. some one_dir;
  is_dir = λ p. true;
  is_file = λ p. true;
  read_manifest = λ p. some (record { artifact_version = 2; run_id = "run_1" });
  read_scenario = λ p. some (record { artifact_version = 2; schedule = none });
  read_version = λ p. some 2;
  read_text = λ p. some (codes "## weavegate: PASS\n");
  copy = λ p. true;
}

abbrev one_process : Process
one_process = ended (exited 0) true ("/tmp/evidence/runs/run_1" ∷ [])

abbrev upload : String
upload = "success"

gate-Evidence_example : (gate upload (some (run one_disk one_root one_process)) ≡ 0) ↔ (
    (upload ≡ "success")
    × ((stdout : List String) × (one_process ≡ ended (exited 0) true stdout)
        × Evidence one_disk one_root stdout))
gate-Evidence_example = gate-Evidence one_disk one_root upload one_process

one_read : read_run one_disk one_dir ≡ ok (2, "PASS", none)
unfolding read_run agreement headline
one_read = refl

abbrev version : ℕ
version = 2

read_run-consistent_example :
    ((version ≡ 2) ⊎ (version ≡ 3))
    × (one_disk.read_version ("observation.json" ∷ one_dir) ≡ some version)
    × (one_disk.read_version ("report.json" ∷ one_dir) ≡ some version)
    × ((m : Manifest) × (one_disk.read_manifest ("manifest.json" ∷ one_dir) ≡ some m)
        × (m.artifact_version ≡ 2)
        × (m.run_id ≡ name one_dir))
    × ((s : Scenario) × (one_disk.read_scenario ("scenario.json" ∷ one_dir) ≡ some s)
        × (s.artifact_version ≡ 2)
        × (s.schedule ≡ none))
    × ((t : Text) × (one_disk.read_text ("report.md" ∷ one_dir) ≡ some t)
        × (headline t ≡ some "PASS"))
read_run-consistent_example = read_run-consistent one_disk one_dir version "PASS" none one_read

fence-longer_example : (3 < fence (codes "a```b")) × (4 ≤ fence (codes "a```b"))
unfolding repeated
fence-longer_example = fence-longer (codes "a```b") (codes "a") (codes "b") 3 refl

abbrev no_url : String → Option Url
no_url value = none

abbrev one_context : Context
one_context = record {
  repository = "weavegate/weavegate";
  run_id = "7";
  server_url = "";
  artifact_name = "";
  artifact_url = "";
  upload_outcome = "failure";
  version = "";
}

abbrev one_status : Status
one_status = record { exit_code = some 0; result = no_run }

abbrev one_report : Text
one_report = codes "## weavegate: PASS\n"

abbrev one_body : Text
one_body =
    head_of no_url one_status one_context
    ++ embedding no_url one_report
    ++ tail_of no_url one_status one_context

comment_body-embeds_example :
    (comment_body no_url one_status (decoded one_report) 19 one_context ≡ (one_body, true)) ↔ (
      (text : Text) × (decoded one_report ≡ decoded text)
      × (obstacle_of (some text) ≡ false)
      × (utf8_length one_body ≤ 65536)
      × (one_body
          ≡ head_of no_url one_status one_context
            ++ embedding no_url text
            ++ tail_of no_url one_status one_context))
comment_body-embeds_example =
    comment_body-embeds no_url one_status 19 one_context (decoded one_report) one_body

-- A run whose report is stored, and a pull request to comment on.
abbrev passed_status : Status
passed_status = record {
  exit_code = some 0;
  result = record no_run { report_path = some ("report.md" ∷ one_dir); verdict = "PASS" };
}

abbrev one_job : Job
one_job = record {
  requested = "true";
  number = some 12;
  head = none;
  root = one_root;
  status = some passed_status;
  is_file = λ p. true;
  size = λ p. some 19;
  read = λ p. some (decoded one_report);
  token = "secret";
  context = one_context;
  post = λ b. created "https://example.org/comment";
}

one_sent :
    (decide_comment no_url one_job).sent ≡ some (body_of no_url one_job (19, decoded one_report))
unfolding decide_comment is_positive is_repository read_status send is_stored forward report_of
    answered comment_limit
one_sent = refl

decide_comment-Sent_example :
    (path : FilePath) × Sent no_url one_job (body_of no_url one_job (19, decoded one_report)) path
decide_comment-Sent_example =
    decide_comment-Sent no_url one_job (body_of no_url one_job (19, decoded one_report)) one_sent
