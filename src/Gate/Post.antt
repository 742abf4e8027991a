-- ===== src/Gate/Post.antt =====
-- `decide_comment` of actions-gate.py: whether the comment is posted.
use weavegate.Prelude.{
  ℕ, String, Bool, true, false, not, ◌&&◌, Option, none, some, [], ◌∷◌, leb, ltb, elem, ◌==◌,
  string_eq, nat_eq, list_eq, if◌then◌else◌,
}
use weavegate.Prelude.Text.{Text, codes}
use weavegate.Gate.Names.{Url, is_repository}
use weavegate.Gate.Status.{FilePath, parent}
use weavegate.Gate.Step.{Status, read_status}
use weavegate.Gate.Comment.{Report, too_large, Context, comment_limit, comment_body}

-- The answer to the request: the comment's address, an HTTP error, or any other failure.
pub data Answer : Type 0 where
  created : String → Answer
  http_error : ℕ → Answer
  failed : Answer

-- The variables and files that the step reads. `number` is the pull request's number where the event
-- has one that is an integer, `head` the full name of its head repository. `size` and `read` are
-- `none` where the call raises.
pub record Job : Type 0 where
  pub requested : String
  pub number : Option ℕ
  pub head : Option (Option String)
  pub root : FilePath
  pub status : Option Status
  pub is_file : FilePath → Bool
  pub size : FilePath → Option ℕ
  pub read : FilePath → Option Report
  pub token : String
  pub context : Context
  pub post : Text → Answer

-- The outcome, its detail, the HTTP code the detail ends with, the comment's address, and the body
-- that was sent, if one was. The class of an exception is left out of the detail.
pub record Decision : Type 0 where
  pub outcome : String
  pub detail : String
  pub code : Option ℕ
  pub url : String
  pub sent : Option Text

unfoldable pub skipped : String → Decision
skipped detail = record { outcome = "skipped"; detail = detail; code = none; url = ""; sent = none }

unfoldable pub is_positive : Option ℕ → Bool
is_positive none = false
is_positive (some n) = ltb 0 n

-- The head's repository is another one.
is_fork : Option (Option String) → String → Bool
is_fork none repository = false
is_fork (some none) repository = true
is_fork (some (some name)) repository = not (name == repository)

unfoldable pub answered : Job → Text → Answer → Decision
unfolding is_fork skipped
answered job body (created url) = record {
  outcome = "posted";
  detail = "the stored report was posted";
  code = none;
  url = url;
  sent = some body;
}
answered job body (http_error n) =
    if elem n (401 ∷ 403 ∷ 404 ∷ [])
    then record (skipped (
        if is_fork job.head job.context.repository
        then "a fork pull request gets a read-only token"
        else "the token cannot write pull request comments")) { code = some n; sent = some body }
    else record {
      outcome = "failed";
      detail = "GitHub answered HTTP";
      code = some n;
      url = "";
      sent = some body;
    }
answered job body failed = record {
  outcome = "failed";
  detail = "the comment request did not complete";
  code = none;
  url = "";
  sent = some body;
}

-- A report of a run of this root, which is a file.
unfoldable pub is_stored : Job → FilePath → Bool
is_stored job path = parent (parent path) == "runs" ∷ job.root && job.is_file path

-- The size of the report, and its bytes where they are not too many for a comment.
unfoldable pub report_of : Job → FilePath → Option (ℕ × Report)
report_of job path = sized (job.size path)
  where
    paired : ℕ → Option Report → Option (ℕ × Report)
    paired size none = none
    paired size (some report) = some (size, report)

    sized : Option ℕ → Option (ℕ × Report)
    sized none = none
    sized (some size) =
        paired size (if leb size comment_limit then job.read path else some too_large)

module _ (split_url : String → Option Url) where
  unfoldable pub body_of : Job → ℕ × Report → Text
  body_of job (size, report) =
      (comment_body split_url (read_status job.status) report size job.context).0

  unfoldable pub forward : Job → Option (ℕ × Report) → Decision
  forward job none = skipped "this run has no stored report"
  forward job (some file) =
      if job.token == ""
      then skipped "no token is available"
      else answered job (body_of job file) (job.post (body_of job file))

  unfoldable pub send : Job → Option FilePath → Decision
  send job none = skipped "this run has no stored report"
  send job (some path) =
      if not (is_stored job path)
      then skipped "this run has no stored report"
      else forward job (report_of job path)

  unfoldable pub decide_comment : Job → Decision
  unfolding is_positive
  decide_comment job =
      if job.requested == "false"
      then record {
        outcome = "disabled";
        detail = "the comment input is false";
        code = none;
        url = "";
        sent = none;
      }
      else if not (job.requested == "true")
      then skipped "the comment input must be true or false"
      else if not (is_positive job.number)
      then skipped "the workflow event is not a pull request"
      else if not (is_repository (codes job.context.repository))
      then skipped "the repository name is unavailable"
      else send job (read_status job.status).result.report_path
