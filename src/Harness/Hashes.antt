-- ===== src/Harness/Hashes.antt =====
-- `hashes_valid` of evidence.py and `child` of common.py: the files that an observation names.
use weavegate.Prelude.{
  ℕ, String, Bool, false, not, ◌&&◌, ◌||◌, Option, none, some, List, [], ◌∷◌, ◌++◌, elem, keep,
  ◌==◌, string_eq, nat_eq, list_eq, if◌then◌else◌,
}
use weavegate.Prelude.Result.{Result, Check, ok, err, ◌>>=◌, ◌>>◌, need}
use weavegate.Prelude.Text.{Text, codes}
use weavegate.Harness.Trial.{steps}

-- The parts of a path below the directory of the arm, the first one first.
abbrev pub Parts : Type 0
Parts = List Text

-- The files of the arm's directory: `identity` is the device and inode that `stat` finds, and `none`
-- where there is no file.
pub record Files : Type 0 where
  pub is_symlink : Parts → Bool
  pub identity : Parts → Option (ℕ × ℕ)
  pub digest : Parts → String

-- `str.split('/')`.
unfoldable pub pieces : Text → List Text
pieces [] = [] ∷ []
pieces (c ∷ t) = let rest = pieces t in if c == b'/' then [] ∷ rest else push c rest
  where
    push : ℕ → List Text → List Text
    push c [] = (c ∷ []) ∷ []
    push c (p ∷ ps) = (c ∷ p) ∷ ps

-- `Path(name).parts` of a relative path: empty pieces and `.` are no parts.
unfoldable pub parts_of : Text → Parts
unfolding pieces
parts_of name = keep (λ p. not (p == [] || p == b'.' ∷ [])) (pieces name)

is_absolute : Text → Bool
is_absolute [] = false
is_absolute (c ∷ _) = c == b'/'

-- No symbolic link from `result`, the path so far, down the rest.
unfoldable pub descend : Files → Parts → Parts → Result Parts
descend files result [] = ok result
descend files result (part ∷ parts) =
    need (not (files.is_symlink (result ++ part ∷ []))) "symlink in bundle"
    >> descend files (result ++ part ∷ []) parts

unfoldable pub child : Files → Text → Result Parts
unfolding is_absolute
child files name =
    let parts = parts_of name in
    need (not (name == [] || elem 0 name)) "unsafe relative path"
    >> need (not (is_absolute name || (parts == [] || elem (codes "..") parts)))
        "unsafe relative path"
    >> descend files [] parts

-- `CONTROL | COMMAND_FILES`.
unfoldable pub owned_names : List Text
owned_names =
    codes "attempt.json"
    ∷ codes "trial.json"
    ∷ codes "redactions.json"
    ∷ codes "cleanup-inputs.json"
    ∷ of_steps steps
  where
    of_steps : List String → List Text
    of_steps [] = []
    of_steps (step ∷ more) =
        (codes step ++ codes ".command.json")
        ∷ (codes step ++ codes ".stdout")
        ∷ (codes step ++ codes ".stderr")
        ∷ of_steps more

-- The same device and inode.
unfoldable pub same_file : Option (ℕ × ℕ) → ℕ × ℕ → Bool
same_file none _ = false
same_file (some (dev, ino)) (dev', ino') = dev == dev' && ino == ino'

-- `identity in owned_identities`, the identities of the names that exist.
unfoldable pub is_owned : Files → List Text → ℕ × ℕ → Bool
unfolding same_file
is_owned files [] i = false
is_owned files (name ∷ names) i = same_file (files.identity (name ∷ [])) i || is_owned files names i

-- The path of an owned file itself.
unfoldable pub is_owned_path : Parts → Bool
is_owned_path (name ∷ []) = elem name owned_names
is_owned_path _ = false

-- One entry, past `stat`. A digest that is no string is `none`.
unfoldable pub entry_valid : Files → Parts → Option String → Option (ℕ × ℕ) → Check
entry_valid files path expected none = err "no such file"
entry_valid files path expected (some i) =
    need (not (is_owned files owned_names i)) "original evidence aliases collector-owned file"
    >> need (is_digest expected) "retained evidence hash mismatch"
  where
    is_digest : Option String → Bool
    is_digest none = false
    is_digest (some d) = files.digest path == d

unfoldable pub entries_valid : Files → List (Text × Option String) → Check
entries_valid files [] = ok tt
entries_valid files ((name, expected) ∷ more) = do
  path ← child files name
  need (not (is_owned_path path)) "collector-owned file is not original evidence"
      >> entry_valid files path expected (files.identity path)
      >> entries_valid files more

unfoldable pub hashes_valid : Files → List (Text × Option String) → Check
hashes_valid files [] = err "missing original evidence"
hashes_valid files evidence = entries_valid files evidence
