-- ===== src/Gate/Sent.antt =====
-- When a comment is sent, and what it is.
use weavegate.Prelude.{
  ℕ, String, true, Option, none, some, ◌∷◌, ◌≡◌, ◌≢◌, refl, arith, string_eq, nat_eq, list_eq,
  list_beq_iff,
}
use weavegate.Prelude.Text.{Text, codes}
use weavegate.Gate.Names.{Url, is_repository}
use weavegate.Gate.Status.{FilePath, parent}
use weavegate.Gate.Step.{read_status}
use weavegate.Gate.Comment.{Report}
use weavegate.Gate.Post.{
  Answer, created, http_error, failed, Job, skipped, answered, is_stored, report_of, body_of,
  forward, send, decide_comment, is_positive,
}

-- Why a body was sent.
pub record Sent (split_url : String → Option Url) (job : Job) (body : Text) (path : FilePath)
    : Type 0 where
  pub requested : job.requested ≡ "true"
  pub pull_request : is_positive job.number ≡ true
  pub repository : is_repository (codes job.context.repository) ≡ true
  pub reported : (read_status job.status).result.report_path ≡ some path
  pub of_this_run : parent (parent path) ≡ "runs" ∷ job.root
  pub a_file : job.is_file path ≡ true
  pub authorized : job.token ≢ ""
  pub file : ℕ × Report
  pub stored : report_of job path ≡ some file
  pub unchanged : body ≡ body_of split_url job file

answered-sent : (job : Job) (body : Text) (a : Answer) → (answered job body a).sent ≡ some body
unfolding answered
answered-sent job body (created url) = refl
answered-sent job body (http_error n) = ground arith
answered-sent job body failed = refl

skipped-sent : (detail : String) → (skipped detail).sent ≡ none
unfolding skipped
skipped-sent detail = refl

module _ (split_url : String → Option Url) (job : Job) (body : Text) where
  forward-sent :
      (o : Option (ℕ × Report))
      → (forward split_url job o).sent ≡ some body
      → (job.token ≢ "")
        × (file : ℕ × Report) × (o ≡ some file)
        × (body ≡ body_of split_url job file)
  unfolding forward skipped
  forward-sent none h = cc
  forward-sent (some file) h =
      let sent =
        answered-sent job (body_of split_url job file) (job.post (body_of split_url job file)) in
      let no_token = skipped-sent "no token is available" in
      (λ e. ground (arith, string_eq.beq_iff job.token ""), file, refl, ground arith)

  send-sent :
      (path : FilePath)
      → (send split_url job (some path)).sent ≡ some body
      → (parent (parent path) ≡ "runs" ∷ job.root)
        × (job.is_file path ≡ true)
        × ((forward split_url job (report_of job path)).sent ≡ some body)
  unfolding send is_stored
  send-sent path h =
      let no_report = skipped-sent "this run has no stored report" in
      (
        ground (arith, list_beq_iff (parent (parent path)) ("runs" ∷ job.root)),
        ground arith,
        ground arith,
      )

  decide_comment-sent :
      (decide_comment split_url job).sent ≡ some body
      → (job.requested ≡ "true")
        × (is_positive job.number ≡ true)
        × (is_repository (codes job.context.repository) ≡ true)
        × ((send split_url job (read_status job.status).result.report_path).sent ≡ some body)
  unfolding decide_comment skipped
  decide_comment-sent h = ground (arith, string_eq.beq_iff job.requested "true")

  send-some :
      (o : Option FilePath)
      → (read_status job.status).result.report_path ≡ o
      → (send split_url job o).sent ≡ some body
      → (path : FilePath) × ((read_status job.status).result.report_path ≡ some path)
        × ((send split_url job (some path)).sent ≡ some body)
  unfolding send skipped
  send-some none e h = cc
  send-some (some path) e h = (path, e, h)

  -- A body is sent to GitHub only when the comment was asked for, for a pull request, to a
  -- repository with a well-formed name, with a token, and for a report that is a file of a run of
  -- this job; and the body is the comment on that report and nothing else.
  pub decide_comment-Sent :
      (decide_comment split_url job).sent ≡ some body
      → (path : FilePath) × Sent split_url job body path
  decide_comment-Sent h =
      let (requested, number, repository, sent) = decide_comment-sent h in
      let (path, report, last) = send-some (read_status job.status).result.report_path refl sent in
      let (inside, is_file, forwarded) = send-sent path last in
      let (authorized, file, stored, same) = forward-sent (report_of job path) forwarded in
      (
        path,
        record {
          requested = requested;
          pull_request = number;
          repository = repository;
          reported = report;
          of_this_run = inside;
          a_file = is_file;
          authorized = authorized;
          file = file;
          stored = stored;
          unchanged = same;
        },
      )
