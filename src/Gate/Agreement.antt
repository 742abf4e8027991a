-- ===== src/Gate/Agreement.antt =====
-- The artifacts that `parse_run` reads agree.
use weavegate.Prelude.{
  ℕ, String, Option, none, some, ◌∷◌, ◌≡◌, ap, ◌∙◌, ◌⊎◌, arith, string_eq, nat_eq, list_eq,
}
use weavegate.Prelude.Result.{ok, >>=-eq-ok}
use weavegate.Prelude.Text.{Text}
use weavegate.Gate.Status.{
  FilePath, name, Manifest, Scenario, Disk, or_fail, agreement, headline, read_run,
}

or_fail-eq {ℓ} : {A : Type ℓ} (m : String) (o : Option A) {a : A} → or_fail m o ≡ ok a → o ≡ some a
or_fail-eq m none h = cc
or_fail-eq m (some a) h = ground arith

versions_agree :
    (m : Manifest) (s : Scenario) (o r : ℕ) (head : Option String) (dir : FilePath) (version : ℕ)
    (verdict : String) (schedule : Option Text)
    → agreement m s o r head dir ≡ ok (version, verdict, schedule)
    → (((version ≡ 2) ⊎ (version ≡ 3))
        × (s.artifact_version ≡ version)
        × (o ≡ version)
        × (r ≡ version))
      × (m.run_id ≡ name dir)
      × (head ≡ some verdict)
      × (m.artifact_version ≡ version)
      × (s.schedule ≡ schedule)
unfolding agreement
versions_agree m s o r head dir version verdict schedule h = ground (
  arith,
  nat_eq.beq_iff s.artifact_version m.artifact_version,
  nat_eq.beq_iff o m.artifact_version,
  nat_eq.beq_iff r m.artifact_version,
  nat_eq.beq_iff m.artifact_version 2,
  nat_eq.beq_iff m.artifact_version 3,
  string_eq.beq_iff m.run_id (name dir),
)

-- A run that reads as complete is one run throughout: its four JSON artifacts state one version,
-- which is 2 or 3, its manifest names the directory, and its report is headed by the verdict.
pub read_run-consistent :
    (disk : Disk) (dir : FilePath) (version : ℕ) (verdict : String) (schedule : Option Text)
    → read_run disk dir ≡ ok (version, verdict, schedule)
    → ((version ≡ 2) ⊎ (version ≡ 3))
      × (disk.read_version ("observation.json" ∷ dir) ≡ some version)
      × (disk.read_version ("report.json" ∷ dir) ≡ some version)
      × ((m : Manifest) × (disk.read_manifest ("manifest.json" ∷ dir) ≡ some m)
          × (m.artifact_version ≡ version)
          × (m.run_id ≡ name dir))
      × ((s : Scenario) × (disk.read_scenario ("scenario.json" ∷ dir) ≡ some s)
          × (s.artifact_version ≡ version)
          × (s.schedule ≡ schedule))
      × ((t : Text) × (disk.read_text ("report.md" ∷ dir) ≡ some t) × (headline t ≡ some verdict))
unfolding read_run
read_run-consistent disk dir version verdict schedule h =
    let (m, at_manifest, h1) =
      >>=-eq-ok (or_fail "manifest" (disk.read_manifest ("manifest.json" ∷ dir))) _ h in
    let (s, at_scenario, h2) =
      >>=-eq-ok (or_fail "scenario" (disk.read_scenario ("scenario.json" ∷ dir))) _ h1 in
    let (o, at_observation, h3) =
      >>=-eq-ok (or_fail "observation" (disk.read_version ("observation.json" ∷ dir))) _ h2 in
    let (r, at_report, h4) =
      >>=-eq-ok (or_fail "report" (disk.read_version ("report.json" ∷ dir))) _ h3 in
    let (t, at_text, h5) =
      >>=-eq-ok (or_fail "report text" (disk.read_text ("report.md" ∷ dir))) _ h4 in
    let ((either, sv, ov, rv), named, head, out, sched) =
      versions_agree m s o r (headline t) dir version verdict schedule h5 in
    (
      either,
      or_fail-eq _ _ at_observation ∙ ap some ov,
      or_fail-eq _ _ at_report ∙ ap some rv,
      (m, or_fail-eq _ _ at_manifest, out, named),
      (s, or_fail-eq _ _ at_scenario, sv, sched),
      (t, or_fail-eq _ _ at_text, head),
    )
