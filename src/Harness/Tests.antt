-- ===== src/Harness/Tests.antt =====
-- A complete arm, and the theorem of `trial` at it.
use weavegate.Prelude.{
  ℕ, String, true, false, Option, none, some, List, [], ◌∷◌, ◌≡◌, ◌≢◌, refl, ◌==◌, nat_eq,
  string_eq, list_eq, if◌then◌else◌,
}
use weavegate.Prelude.Dict
use weavegate.Prelude.Text.{Text, codes, has_text}
use weavegate.Prelude.Result.{ok}
use weavegate.Harness.Trial.{
  code, Invocation, Receipt, Spec, Registration, Attempt, Directory, Row, complete, trial, trial_of,
  of_attempt, scan, scan_step, advance, in_sequence, command_valid, timing_valid, invocation_beq,
  succeeded, steps, first_row, cleanup_proven, judge, run_outcome, observed, is_expected, code_beq,
}
use weavegate.Prelude.Result.{Result, for_each}
use weavegate.Harness.Teardown.{
  CleanupProof, Inputs, cleanup_valid, input_identities, file_identity, live_identity,
  control_identities, control, is_name_of, joined, holds, added, unaliased, fresh_file,
}
use weavegate.Harness.Teardown.Fresh.{Made, cleanup_valid-Made}
use weavegate.Harness.Proof.{Complete, trial-Complete}
use weavegate.Harness.Hashes.{
  Parts, Files, pieces, parts_of, descend, child, owned_names, same_file, is_owned, is_owned_path,
  entry_valid, entries_valid, hashes_valid,
}
use weavegate.Harness.Original.{Original, hashes_valid-Original}
use mathlib.Core.List.{Memᴰ}

abbrev some_invocation : Invocation
some_invocation = record { argv = "make" ∷ []; cwd = "/bundle"; env_text = "{}"; redacted = [] }

abbrev some_spec : String → Spec
some_spec step = record { invocation = some_invocation; timeout_seconds = 60 }

abbrev some_registration : Registration
some_registration = record { registered_at = 5; date = "2026-01-02" }

abbrev some_receipt : String → ℕ → Receipt
some_receipt step at = record {
  step = step;
  invocation = some_invocation;
  started = true;
  finished = true;
  interrupted = false;
  timeout = false;
  containment_proven = true;
  exit = some (code 0);
  error = none;
  seconds = some 1;
  started_at = at;
  started_date = "2026-01-02";
  ended_at = at;
}

abbrev some_attempt : Attempt
some_attempt = record {
  state = "finished";
  reason = "";
  observation_error = "";
  cleanup_inputs_valid = true;
}

abbrev some_directory : Directory
some_directory = record {
  pair_exists = true;
  attempt = some (ok some_attempt);
  receipt = λ step. some (ok (some_receipt step 10));
  cleanup_valid = ok tt;
  observation = ok tt;
}

abbrev some_row : Row
some_row = record { classification = complete; reason = ""; started = true; cleanup_proven = true }

trial_run : trial some_spec some_registration (code 0 ∷ []) some_directory ≡ ok some_row
unfolding trial trial_of of_attempt scan scan_step advance in_sequence command_valid timing_valid
    invocation_beq succeeded steps first_row cleanup_proven judge run_outcome has_text observed
    is_expected code_beq Dict.get Dict.put
trial_run = refl

trial-Complete_example :
    (attempt : Attempt) × (r : Receipt) × Complete some_spec some_registration
      (code 0 ∷ [])
      some_directory
      attempt
      r
trial-Complete_example =
    trial-Complete some_spec some_registration (code 0 ∷ []) some_directory some_row trial_run refl

-- An arm with one file of evidence, in a folder, beside the collector's record of the attempt.
abbrev report_parts : Parts
report_parts = codes "out" ∷ codes "report.json" ∷ []

abbrev some_files : Files
some_files = record {
  is_symlink = λ p. false;
  identity = λ p.
      if p == report_parts
      then some (1, 5)
      else if p == codes "attempt.json" ∷ []
      then some (1, 2)
      else none;
  digest = λ p. "d41d8c";
}

abbrev some_evidence : List (Text × Option String)
some_evidence = (codes "out/report.json", some "d41d8c") ∷ []

hashes_run : hashes_valid some_files some_evidence ≡ ok tt
unfolding hashes_valid entries_valid entry_valid is_owned_path is_owned same_file owned_names steps
    child descend parts_of pieces
hashes_run = refl

hashes_valid-Original_example :
    (some_evidence ≢ [])
    × ((entry : Text × Option String) → Memᴰ entry some_evidence → Original some_files entry)
hashes_valid-Original_example = hashes_valid-Original some_files some_evidence hashes_run

-- The arm after a cleanup that retained its own report.
abbrev cleaned_files : Files
cleaned_files = record some_files {
  identity = λ p.
      if p == report_parts
      then some (1, 5)
      else if p == codes "old.json" ∷ []
      then some (1, 3)
      else if p == codes "attempt.json" ∷ []
      then some (1, 2)
      else none;
}

abbrev some_proof : CleanupProof
some_proof = record { proven = true; evidence = some_evidence }

abbrev some_inputs : Inputs
some_inputs = record {
  paths = (codes "old.json", some "e5") ∷ (codes "out", none) ∷ [];
  identities = (1, 3) ∷ [];
}

cleanup_run :
    cleanup_valid cleaned_files
      (ok (some_receipt "cleanup" 10))
      (ok some_proof)
      (ok some_inputs)
      true
    ≡ ok tt
unfolding cleanup_valid succeeded hashes_valid entries_valid entry_valid is_owned_path is_owned
    same_file owned_names steps child descend parts_of pieces input_identities file_identity
    live_identity control_identities control is_name_of joined holds added unaliased fresh_file
    for_each
cleanup_run = refl

cleanup_valid-Made_example :
    (c : Receipt) × (p : CleanupProof) × (inputs : Inputs) × (◌≡◌ {A = Result Receipt}
      (ok (some_receipt "cleanup" 10))
      (ok c))
    × (◌≡◌ {A = Result CleanupProof} (ok some_proof) (ok p))
    × (◌≡◌ {A = Result Inputs} (ok some_inputs) (ok inputs))
    × (succeeded (some c) ≡ true)
    × (p.proven ≡ true)
    × (p.evidence ≢ [])
    × ((entry : Text × Option String)
        → Memᴰ entry p.evidence
        → Made cleaned_files inputs true entry)
cleanup_valid-Made_example =
    cleanup_valid-Made cleaned_files (ok (some_receipt "cleanup" 10)) (ok some_proof)
      (ok some_inputs) true cleanup_run
