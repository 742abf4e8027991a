-- ===== src/Lib.antt =====
-- The Python tools of weavegate: the checker of the external wire protocol, the composite action
-- that gates a build, and the reducers of the two experiments. Each is a function of what it reads,
-- and is modelled as that function.
--
-- Parts, and the files that model them:
--   * scripts/check-external-sut-vectors.py checks vectors of the protocol between the Go parent and
--     the Java child. Protocol/Message holds the frames, Protocol/Vocabulary the closed vocabularies,
--     Protocol/Shape `string` and `frame_shape`. `history` keeps twenty-one variables, which are the
--     fields of Protocol/State.History, and reads a case step by step: Protocol/Local is its local
--     events, Protocol/Premise `injected_premise`, Protocol/Exchange the exchanged frames by their
--     type, and Protocol/Receive the order of the tests on a received frame and the loop. Protocol/
--     Expand and Protocol/Emissions are `expand` and `emissions`, which `validate` calls before and
--     after `history`. Protocol/Coverage holds the rules of `coverage`, Protocol/Framing `framed` and
--     `validate_framing`, and Protocol/Validate is `validate`, which puts these together for a vector
--     file; Protocol/Vectors is docs/reference/testdata/external-sut-v1.json, less the cases that no
--     coverage rule names. The other modules of Protocol prove what accepted cases have in common.
--   * scripts/actions-gate.py installs and runs weavegate, keeps its evidence and decides. Gate/Status
--     is `parse_run`, Gate/Step `run`, `read_status` and `gate`, Gate/Names the regular expressions,
--     Gate/Comment `report_embed_obstacle`, `fenced_report` and `comment_body`, Gate/Post
--     `decide_comment`. A run's status passes from `run` to `gate` and to `decide_comment` through
--     status.json.
--   * experiments/control-comparison/runner/analyze.py reduces the evidence of a slot. Comparison/
--     Timing is `bound`, `membership` and `stages`, Comparison/Trace `validate_trace`, Comparison/
--     Reduce `reduce_slot` and `detected_in_budget`. Comparison/Candidates is `candidates` and
--     Comparison/Progress `save_progress` and `retained_progress` of support.py beside it.
--   * experiments/gate-performance/harness/evidence.py reduces the receipts of an arm: Harness/Trial
--     is `command_valid` and `trial`, with `succeeded` of execution.py and STEPS of plan.py. Harness/
--     Hashes is `hashes_valid`, with `child` of common.py and the collector's files of storage.py.
--     Harness/Teardown is `cleanup_valid` of evidence.py, over what each file that it reads holds.
--     Harness/Timeline is `endpoint` and `workflow_bounds` of ci.py, and Harness/Sweep its sweep of the
--     concurrent jobs.
--     Harness/Analysis is the reasons against a pair and the decision of `analyze_locked` in
--     analysis.py, and Harness/Accounting its counts of each arm.
--     Harness/Order is `order` of common.py, the slots of a campaign.
--     Harness/Guard is `BundleGuard` of storage.py, over a directory that hooks change at will, and
--     Harness/Collector the lifecycle of a block in collector.py: each arm of a slot is prepared,
--     run, observed, checked and cleaned up, and its outcome decides whether the next one is run.
--
-- Conventions. A Python exception is `err` with its message (Prelude/Result), and what catches it
-- matches on it. A dict is a list of entries in insertion order (Prelude/Dict), a set a list. JSON is
-- read outside the model: a value that the source tests for its type has that type here, and a frame
-- carries its compact JSON text. Python's integers are natural numbers where the source admits no
-- negative ones; seconds are whole nanoseconds, and microseconds where
-- a provider reports them. Text is a `String`, or its code points where the
-- source looks inside (Prelude/Text).
--
-- Parameters stand for what is not under the repository's sources: SHA-256 in `history` and behind
-- the keys of `order`, JSON in `validate_framing`, the files that the action reads
-- (Gate/Status.Disk), `urllib.parse.urlsplit` in the comment, `datetime.fromisoformat` behind
-- `timestamp` in `endpoint`, and the floating-point comparisons of the decision. Functions of the
-- sources that are not modelled are parameters too: `post_comment` in `decide_comment`, `baseline`
-- and `product` in `reduce_slot`, the results of `cleanup_valid` and of `observation` in `trial`,
-- `json_equal` in the reasons against a pair, the verification of seals and
-- `retained_registration` in `retained_progress`.
--
-- Bounds. `expand` recurses on a depth of one more than the number of prefixes, and a theorem shows
-- that a greater depth changes nothing: a call takes a prefix that was not seen. All other loops are
-- structural on lists. `decimal` takes one round for each digit, and is given more than there are.
--
-- Not modelled: the self-test of the protocol checker; download and installation, the job summary;
-- the reduction of baseline and product evidence and the printed report; the estimates of
-- analysis.py, which are floating-point statistics, and its checks on the bundle; `snapshot` and
-- `validate_inventory` of ci.py; how a command is executed, redacted and frozen in a plan; the
-- release scripts; and the Go and Java programs.
mod Prelude
pub mod Protocol
pub mod Gate
pub mod Comparison
pub mod Harness
