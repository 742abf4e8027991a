-- ===== src/Comparison/Candidates.antt =====
-- `candidates` of support.py: the schedules of two workers that pass the same points.
use weavegate.Prelude.{
  ℕ, zero, suc, ◌+◌, String, List, [], ◌∷◌, ◌++◌, length, ◌==◌, string_eq, if◌then◌else◌,
}

pub data Worker : Type 0 where
  w1 w2 : Worker

-- A step: the worker, and the point that it passes.
abbrev pub Pass : Type 0
Pass = Worker × String

-- `walk(nexts, steps)`, with the points that each worker has left in place of `nexts`. Every call
-- takes a point off one of the lists, so `fuel` that counts both is enough.
unfoldable pub walk : ℕ → List String → List String → List Pass → List (List Pass)
walk fuel [] [] steps = steps ∷ []
walk zero _ _ steps = []
walk (suc fuel) (x ∷ xs) [] steps = walk fuel xs [] (steps ++ (w1, x) ∷ [])
walk (suc fuel) [] (y ∷ ys) steps = walk fuel [] ys (steps ++ (w2, y) ∷ [])
walk (suc fuel) (x ∷ xs) (y ∷ ys) steps =
    walk fuel xs (y ∷ ys) (steps ++ (w1, x) ∷ []) ++ walk fuel (x ∷ xs) ys (steps ++ (w2, y) ∷ [])

unfoldable pub points_of : String → List String
points_of workload =
    if workload == "matching"
    then "after_read_request" ∷ "before_insert_assignment" ∷ []
    else "before_read" ∷ "after_read" ∷ "before_write" ∷ "after_commit" ∷ []

-- The steps of each candidate; its ID is a hash of them.
unfoldable pub candidate_steps : String → List (List Pass)
candidate_steps workload =
    let points = points_of workload in walk (length points + length points) points points []

-- The points that a worker passes in a schedule.
unfoldable pub passed : Worker → List Pass → List String
passed w [] = []
passed w1 ((w1, p) ∷ steps) = p ∷ passed w1 steps
passed w1 ((w2, p) ∷ steps) = passed w1 steps
passed w2 ((w1, p) ∷ steps) = passed w2 steps
passed w2 ((w2, p) ∷ steps) = p ∷ passed w2 steps
