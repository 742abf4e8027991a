-- ===== src/Harness/Sweep.antt =====
-- The sweep of `endpoint` in ci.py over the intervals in which runners were in use.
pub mod Peak
use weavegate.Prelude.{ℕ, suc, ◌-◌, Bool, List, [], ◌∷◌, ◌++◌, leb, ltb, max, if◌then◌else◌}

-- An interval gives a start and an end.
pub data Edge : Type 0 where
  ends starts : Edge

unfoldable pub edges : Edge → List (ℕ × ℕ) → List (ℕ × Edge)
edges side [] = []
edges ends ((a, b) ∷ is) = let rest = edges ends is in if ltb a b then (b, ends) ∷ rest else rest
edges starts ((a, b) ∷ is) =
    let rest = edges starts is in if ltb a b then (a, starts) ∷ rest else rest

-- At one time an end precedes a start.
unfoldable pub before : ℕ × Edge → ℕ × Edge → Bool
before (t, ends) (u, e) = leb t u
before (t, starts) (u, ends) = ltb t u
before (t, starts) (u, starts) = leb t u

unfoldable pub insert : ℕ × Edge → List (ℕ × Edge) → List (ℕ × Edge)
insert e [] = e ∷ []
insert e (f ∷ fs) = let rest = insert e fs in if before e f then e ∷ (f ∷ fs) else f ∷ rest

unfoldable pub sorted : List (ℕ × Edge) → List (ℕ × Edge)
sorted [] = []
sorted (e ∷ es) = insert e (sorted es)

-- `active` is what `begun` is above `ended`; where it is below zero it raises no peak.
unfoldable pub peak : (begun ended highest : ℕ) → List (ℕ × Edge) → ℕ
peak begun ended highest [] = highest
peak begun ended highest ((t, starts) ∷ es) =
    peak (suc begun) ended (max highest (suc begun - ended)) es
peak begun ended highest ((t, ends) ∷ es) =
    peak begun (suc ended) (max highest (begun - suc ended)) es

unfoldable pub concurrency : List (ℕ × ℕ) → ℕ
concurrency is = peak 0 0 0 (sorted (edges starts is ++ edges ends is))
