-- ===== src/Gate/Verdict.antt =====
-- What the exit status of the gate step says of the run.
use weavegate.Prelude.{
  ℕ, String, Bool, true, false, Option, none, some, List, [], ◌∷◌, ◌≡◌, ◌↔◌, refl, ap, ◌∙◌, arith,
  string_eq, nat_eq, list_eq, list_beq_iff,
}
use weavegate.Prelude.Result.{Result, ok, err}
use weavegate.Prelude.Text.{Text}
use weavegate.Gate.Status.{
  FilePath, parent, Disk, RunResult, missing, read_run, schedule_check, finish_run, no_run,
  found_run, is_nothing, inspect_line, inspect, parse_run, copied, last_line,
}
use weavegate.Gate.Step.{
  Return, exited, signaled, Process, not_launched, ended, Status, shell_code, run, read_status,
  gate,
}

-- The directory that the process printed last holds the whole evidence of a PASS.
pub record Evidence (disk : Disk) (root : FilePath) (stdout : List String) : Type 0 where
  pub dir : FilePath
  pub line : String
  pub schedule : Option Text
  pub printed : last_line stdout ≡ some line
  pub resolved : disk.resolve line ≡ some dir
  pub inside : parent dir ≡ "runs" ∷ root
  pub directory : disk.is_dir dir ≡ true
  pub complete : missing disk dir ≡ []
  pub read : read_run disk dir ≡ ok (2, "PASS", schedule)
  pub scheduled : schedule_check disk dir schedule ≡ ok tt
  pub kept : copied disk dir schedule ≡ true

-- What the gate step looks at.
Passing : RunResult → Type 0
Passing r = (r.evidence_complete ≡ true) × (r.artifact_version ≡ some 2) × (r.verdict ≡ "PASS")

gate-zero :
    (upload : String) (s : Status)
    → gate upload (some s) ≡ 0
    → (upload ≡ "success") × (s.exit_code ≡ some 0) × Passing s.result
unfolding gate read_status Passing
gate-zero upload s h =
    ground (arith, string_eq.beq_iff upload "success", string_eq.beq_iff s.result.verdict "PASS")

gate-pass :
    (upload : String) (s : Status)
    → upload ≡ "success"
    → s.exit_code ≡ some 0
    → Passing s.result
    → gate upload (some s) ≡ 0
unfolding gate read_status Passing
gate-pass upload s u e p =
    ground (arith, string_eq.beq_iff upload "success", string_eq.beq_iff s.result.verdict "PASS")

checked-Passing :
    (disk : Disk) (dir : FilePath) (r : RunResult) (version : ℕ) (verdict : String)
    (schedule : Option Text)
    → r.evidence_complete ≡ false
    → Passing (finish_run disk dir r (ok (version, verdict, schedule)))
    → (version ≡ 2)
      × (verdict ≡ "PASS")
      × (schedule_check disk dir schedule ≡ ok tt)
      × (copied disk dir schedule ≡ true)
unfolding finish_run Passing
checked-Passing disk dir r version verdict schedule f p = ground arith

finish_run-Passing :
    (disk : Disk) (dir : FilePath) (r : RunResult) (o : Result (ℕ × String × Option Text))
    → r.evidence_complete ≡ false
    → Passing (finish_run disk dir r o)
    → (schedule : Option Text) × (o ≡ ok (2, "PASS", schedule))
      × (schedule_check disk dir schedule ≡ ok tt)
      × (copied disk dir schedule ≡ true)
unfolding finish_run Passing
finish_run-Passing disk dir r (err m) f p = ground arith
finish_run-Passing disk dir r (ok (version, verdict, schedule)) f p =
    let (v, w, checks, copies) = checked-Passing disk dir r version verdict schedule f p in
    (
      schedule,
      ap (λ n. ok (n, verdict, schedule)) v ∙ ap (λ w'. ok (2, w', schedule)) w,
      checks,
      copies,
    )

finish_run-pass :
    (disk : Disk) (dir : FilePath) (r : RunResult) (schedule : Option Text)
    → schedule_check disk dir schedule ≡ ok tt
    → copied disk dir schedule ≡ true
    → Passing (finish_run disk dir r (ok (2, "PASS", schedule)))
unfolding finish_run Passing
finish_run-pass disk dir r schedule h k = ground arith

is_nothing-eq : (xs : List String) → is_nothing xs ≡ true → xs ≡ []
unfolding is_nothing
is_nothing-eq [] h = refl
is_nothing-eq (x ∷ xs) h = cc

nothing-is_nothing : (xs : List String) → xs ≡ [] → is_nothing xs ≡ true
unfolding is_nothing
nothing-is_nothing [] h = refl
nothing-is_nothing (x ∷ xs) h = cc

-- `inspect` in a directory, by the answer of `read_run`.
inspect-finish :
    (disk : Disk) (root dir : FilePath)
    → Passing (inspect disk root (some dir))
    → (parent dir ≡ "runs" ∷ root)
      × (disk.is_dir dir ≡ true)
      × (missing disk dir ≡ [])
      × Passing (finish_run disk dir (found_run disk dir) (read_run disk dir))
unfolding inspect Passing
inspect-finish disk root dir p =
    ground (arith, list_beq_iff (parent dir) ("runs" ∷ root), is_nothing-eq (missing disk dir))

inspect-pass :
    (disk : Disk) (root dir : FilePath)
    → parent dir ≡ "runs" ∷ root
    → disk.is_dir dir ≡ true
    → missing disk dir ≡ []
    → Passing (finish_run disk dir (found_run disk dir) (read_run disk dir))
    → Passing (inspect disk root (some dir))
unfolding inspect Passing
inspect-pass disk root dir i d m p =
    ground (arith, list_beq_iff (parent dir) ("runs" ∷ root), nothing-is_nothing (missing disk dir))

no_run-fails : Passing no_run → ⊥
unfolding Passing
no_run-fails p = cc

module _ (disk : Disk) (root : FilePath) (stdout : List String) where
  inspect-Evidence :
      (line : String) (o : Option FilePath)
      → last_line stdout ≡ some line
      → disk.resolve line ≡ o
      → Passing (inspect disk root o)
      → Evidence disk root stdout
  unfolding inspect
  inspect-Evidence line none e r p = elim (no_run-fails p) [ ]
  inspect-Evidence line (some dir) e r p =
      let (i, d, m, q) = inspect-finish disk root dir p in
      let (schedule, read, checks, copies) =
        finish_run-Passing disk dir (found_run disk dir) (read_run disk dir) refl q in
      record {
        dir = dir;
        line = line;
        schedule = schedule;
        printed = e;
        resolved = r;
        inside = i;
        directory = d;
        complete = m;
        read = read;
        scheduled = checks;
        kept = copies;
      }

  inspect_line-Evidence :
      (o : Option String)
      → last_line stdout ≡ o
      → Passing (inspect_line disk root o)
      → Evidence disk root stdout
  unfolding inspect_line
  inspect_line-Evidence none e p = elim (no_run-fails p) [ ]
  inspect_line-Evidence (some line) e p = inspect-Evidence line (disk.resolve line) e refl p

  parse_run-Passing : Passing (parse_run disk root stdout) → Evidence disk root stdout
  unfolding parse_run
  parse_run-Passing p = inspect_line-Evidence (last_line stdout) refl p

  Evidence-parse_run : Evidence disk root stdout → Passing (parse_run disk root stdout)
  unfolding parse_run inspect_line
  Evidence-parse_run v =
      let finished =
        finish_run-pass disk v.dir (found_run disk v.dir) v.schedule v.scheduled v.kept in
      let read : Passing (finish_run disk v.dir (found_run disk v.dir) (read_run disk v.dir)) =
        rw v.read finished in
      let inspected = inspect-pass disk root v.dir v.inside v.directory v.complete read in
      rw v.printed (rw v.resolved inspected)

not_launched-fails :
    (disk : Disk) (root : FilePath) (upload : String)
    → gate upload (some (run disk root not_launched)) ≡ 0
    → ⊥
unfolding run
not_launched-fails disk root upload h =
    let (u, e, p) = gate-zero upload (run disk root not_launched) h in cc

run-ended :
    (disk : Disk) (root : FilePath) (code : Return) (logged : Bool) (stdout : List String)
    → (run disk root (ended code logged stdout)).exit_code ≡ some 0
    → Passing (run disk root (ended code logged stdout)).result
    → (code ≡ exited 0) × (logged ≡ true) × Passing (parse_run disk root stdout)
unfolding run shell_code Passing
run-ended disk root (exited n) logged stdout e p = ground arith
run-ended disk root (signaled n) logged stdout e p = ground arith

accepted :
    (disk : Disk) (root : FilePath) (upload : String) (process : Process)
    → gate upload (some (run disk root process)) ≡ 0
    → (upload ≡ "success")
      × ((stdout : List String) × (process ≡ ended (exited 0) true stdout)
          × Evidence disk root stdout)
accepted disk root upload not_launched h = elim (not_launched-fails disk root upload h) [ ]
accepted disk root upload (ended code logged stdout) h =
    let (u, e, p) = gate-zero upload (run disk root (ended code logged stdout)) h in
    let (c, l, q) = run-ended disk root code logged stdout e p in
    (
      u,
      (
        stdout,
        ap (λ r. ended r logged stdout) c ∙ ap (λ b. ended (exited 0) b stdout) l,
        parse_run-Passing disk root stdout q,
      ),
    )

ended-passes :
    (disk : Disk) (root : FilePath) (upload : String) (stdout : List String)
    → upload ≡ "success"
    → Evidence disk root stdout
    → gate upload (some (run disk root (ended (exited 0) true stdout))) ≡ 0
unfolding run shell_code
ended-passes disk root upload stdout u v =
    gate-pass upload (run disk root (ended (exited 0) true stdout)) u refl
      (Evidence-parse_run disk root stdout v)

passes :
    (disk : Disk) (root : FilePath) (upload : String) (process : Process)
    → (upload ≡ "success")
      × ((stdout : List String) × (process ≡ ended (exited 0) true stdout)
          × Evidence disk root stdout)
    → gate upload (some (run disk root process)) ≡ 0
passes disk root upload process (u, (stdout, e, v)) =
    rw e (ended-passes disk root upload stdout u v)

-- The gate step ends with 0 exactly when the upload succeeded, weavegate was launched and ended
-- with exit code 0, its output was logged, and the directory that it printed last holds the whole
-- evidence: a run of this root with every file, artifacts of version 2 that agree and name the
-- run, a report that is headed PASS, and the schedule where there is one.
pub gate-Evidence :
    (disk : Disk) (root : FilePath) (upload : String) (process : Process)
    → (gate upload (some (run disk root process)) ≡ 0) ↔ (
        (upload ≡ "success")
        × ((stdout : List String) × (process ≡ ended (exited 0) true stdout)
            × Evidence disk root stdout))
gate-Evidence disk root upload process =
    (accepted disk root upload process, passes disk root upload process)
