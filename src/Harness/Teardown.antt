-- ===== src/Harness/Teardown.antt =====
-- `cleanup_valid` of evidence.py: whether the cleanup of an arm is proven.
pub mod Fresh
use weavegate.Prelude.{
  ℕ, String, Bool, true, false, not, ◌&&◌, ◌||◌, Option, none, some, List, [], ◌∷◌, ◌++◌, any, elem,
  ◌==◌, string_eq, nat_eq, list_eq, if◌then◌else◌,
}
use weavegate.Prelude.Dict.{Dict}
use weavegate.Prelude.Result.{Result, Check, ok, err, ◌>>=◌, ◌>>◌, need, for_each}
use weavegate.Prelude.Text.{Text, codes}
use weavegate.Harness.Trial.{Receipt, succeeded}
use weavegate.Harness.Hashes.{Parts, Files, child, hashes_valid, same_file}

-- cleanup.json.
pub record CleanupProof : Type 0 where
  pub proven : Bool
  pub evidence : List (Text × Option String)

-- cleanup-inputs.json: the digest of each file before the cleanup, `none` for a directory, and the
-- device and inode of each file.
pub record Inputs : Type 0 where
  pub paths : Dict Text (Option String)
  pub identities : List (ℕ × ℕ)

unfoldable pub control : List Text
control =
    codes "attempt.json"
    ∷ codes "trial.json"
    ∷ codes "redactions.json"
    ∷ codes "cleanup-inputs.json"
    ∷ []

-- `str(path.relative_to(directory))`.
unfoldable pub joined : Parts → Text
joined [] = []
joined (p ∷ []) = p
joined (p ∷ q ∷ ps) = p ++ b'/' ∷ joined (q ∷ ps)

unfoldable pub is_name_of : Dict Text (Option String) → Text → Bool
is_name_of [] name = false
is_name_of ((k, v) ∷ d) name = k == name || is_name_of d name

-- The identities that are appended for a path, if it is a file that still exists.
unfoldable pub live_identity : Option (ℕ × ℕ) → List (ℕ × ℕ)
live_identity none = []
live_identity (some i) = i ∷ []

-- Directories are left out.
unfoldable pub file_identity : Option String → Option (ℕ × ℕ) → List (ℕ × ℕ)
file_identity none i = []
file_identity (some d) i = live_identity i

unfoldable pub input_identities : Files → Dict Text (Option String) → Result (List (ℕ × ℕ))
input_identities files [] = ok []
input_identities files ((name, checksum) ∷ more) = do
  path ← child files name
  rest ← input_identities files more
  ok (file_identity checksum (files.identity path) ++ rest)

unfoldable pub control_identities : Files → List Text → List (ℕ × ℕ)
control_identities files [] = []
control_identities files (name ∷ names) =
    live_identity (files.identity (name ∷ [])) ++ control_identities files names

unfoldable pub holds : List (ℕ × ℕ) → ℕ × ℕ → Bool
holds [] i = false
holds (j ∷ js) i = same_file (some j) i || holds js i

-- An entry of the proof is retained under a path that the cleanup added.
unfoldable pub added : Files → Inputs → Text × Option String → Check
added files inputs (name, digest) = do
  path ← child files name
  need (not (is_name_of inputs.paths (joined path)))
      "cleanup proof must retain originals created by cleanup"

unfoldable pub fresh_file : List (ℕ × ℕ) → Option (ℕ × ℕ) → Check
fresh_file identities none = err "no such file"
fresh_file identities (some i) =
    need (not (holds identities i)) "cleanup proof aliases pre-cleanup evidence"

unfoldable pub unaliased : Files → List (ℕ × ℕ) → Text × Option String → Check
unaliased files identities (name, digest) = do
  path ← child files name
  fresh_file identities (files.identity path)

abbrev pub is_nonempty {ℓ} : {A : Type ℓ} → List A → Bool
is_nonempty [] = false
is_nonempty _ = true

-- `boundary` is `collection_boundary`; each file is read, or could not be.
unfoldable pub cleanup_valid :
    Files → Result Receipt → Result CleanupProof → Result Inputs → (boundary : Bool) → Check
cleanup_valid files command proof inputs boundary = do
  c ← command
  need (succeeded (some c)) "cleanup command failed"
  p ← proof
  need p.proven "missing cleanup proof"
  hashes_valid files p.evidence
  i ← inputs
  need (is_nonempty i.paths) "missing cleanup input inventory"
  live ← input_identities files i.paths
  let identities =
      (if boundary then i.identities else []) ++ (live ++ control_identities files control)
  need (not (is_name_of i.paths (codes "cleanup.json")))
      "cleanup proof must retain originals created by cleanup"
  for_each (added files i) p.evidence
  for_each (unaliased files identities) p.evidence
