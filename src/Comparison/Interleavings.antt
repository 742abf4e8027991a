-- ===== src/Comparison/Interleavings.antt =====
-- The candidates are all the schedules, and only schedules.
use mathlib.Core.Path.{subst}
use mathlib.Core.List.{Memᴰ, append_assoc, append-nil}
use mathlib.Core.List.Memᴰ.{head, cast, append_left, append_right}
use weavegate.Prelude.{
  All-map, All-Memᴰ, ℕ, zero, suc, ◌+◌, ◌≤◌, String, List, [], ◌∷◌, ◌++◌, All, All-append, length,
  ◌≡◌, ◌↔◌, refl, sym, ap, ◌∙◌, arith,
}
use weavegate.Comparison.Candidates.{Worker, w1, w2, Pass, walk, points_of, candidate_steps, passed}

passed-append : (w : Worker) (s t : List Pass) → passed w (s ++ t) ≡ passed w s ++ passed w t
unfolding passed
passed-append w1 [] t = refl
passed-append w2 [] t = refl
passed-append w1 ((w1, p) ∷ s) t = ap (◌∷◌ p) (passed-append w1 s t)
passed-append w1 ((w2, p) ∷ s) t = passed-append w1 s t
passed-append w2 ((w1, p) ∷ s) t = passed-append w2 s t
passed-append w2 ((w2, p) ∷ s) t = ap (◌∷◌ p) (passed-append w2 s t)

-- What is left for the two workers comes after the steps so far.
Passes : List String → List String → List Pass → List Pass → Type 0
Passes xs ys steps s = (passed w1 s ≡ passed w1 steps ++ xs) × (passed w2 s ≡ passed w2 steps ++ ys)

Passes-w1 :
    (x : String) (xs ys : List String) (steps s : List Pass)
    → Passes xs ys (steps ++ (w1, x) ∷ []) s
    → Passes (x ∷ xs) ys steps s
unfolding Passes passed
Passes-w1 x xs ys steps s (h, k) = (
  h
      ∙ ap (λ l. l ++ xs) (passed-append w1 steps ((w1, x) ∷ []))
      ∙ append_assoc (passed w1 steps) (x ∷ []) xs,
  k ∙ ap (λ l. l ++ ys) (passed-append w2 steps ((w1, x) ∷ []) ∙ append-nil (passed w2 steps)),
)

Passes-w2 :
    (y : String) (xs ys : List String) (steps s : List Pass)
    → Passes xs ys (steps ++ (w2, y) ∷ []) s
    → Passes xs (y ∷ ys) steps s
unfolding Passes passed
Passes-w2 y xs ys steps s (h, k) = (
  h ∙ ap (λ l. l ++ xs) (passed-append w1 steps ((w2, y) ∷ []) ∙ append-nil (passed w1 steps)),
  k
      ∙ ap (λ l. l ++ ys) (passed-append w2 steps ((w2, y) ∷ []))
      ∙ append_assoc (passed w2 steps) (y ∷ []) ys,
)

walk-Passes :
    (fuel : ℕ) (xs ys : List String) (steps : List Pass)
    → All (Passes xs ys steps) (walk fuel xs ys steps)
unfolding walk Passes
walk-Passes zero [] [] steps =
    ((sym (append-nil (passed w1 steps)), sym (append-nil (passed w2 steps))), tt)
walk-Passes (suc fuel) [] [] steps =
    ((sym (append-nil (passed w1 steps)), sym (append-nil (passed w2 steps))), tt)
walk-Passes zero (x ∷ xs) ys steps = tt
walk-Passes zero [] (y ∷ ys) steps = tt
walk-Passes (suc fuel) (x ∷ xs) [] steps =
    All-map _ _ (Passes-w1 x xs [] steps) (walk fuel xs [] (steps ++ (w1, x) ∷ []))
      (walk-Passes fuel xs [] (steps ++ (w1, x) ∷ []))
walk-Passes (suc fuel) [] (y ∷ ys) steps =
    All-map _ _ (Passes-w2 y [] ys steps) (walk fuel [] ys (steps ++ (w2, y) ∷ []))
      (walk-Passes fuel [] ys (steps ++ (w2, y) ∷ []))
walk-Passes (suc fuel) (x ∷ xs) (y ∷ ys) steps =
    let one = walk fuel xs (y ∷ ys) (steps ++ (w1, x) ∷ []) in
    let two = walk fuel (x ∷ xs) ys (steps ++ (w2, y) ∷ []) in
    All-append (Passes (x ∷ xs) (y ∷ ys) steps) one two
      (All-map _ _ (Passes-w1 x xs (y ∷ ys) steps) one
        (walk-Passes fuel xs (y ∷ ys) (steps ++ (w1, x) ∷ [])))
      (All-map _ _ (Passes-w2 y (x ∷ xs) ys steps) two
        (walk-Passes fuel (x ∷ xs) ys (steps ++ (w2, y) ∷ [])))

-- A schedule that a call finds is found by the call before it.
walk-w1 :
    (fuel : ℕ) (x : String) (xs ys : List String) (steps s : List Pass)
    → Memᴰ s (walk fuel xs ys (steps ++ (w1, x) ∷ []))
    → Memᴰ s (walk (suc fuel) (x ∷ xs) ys steps)
unfolding walk
walk-w1 fuel x xs [] steps s m = m
walk-w1 fuel x xs (y ∷ ys) steps s m = append_left (walk fuel (x ∷ xs) ys (steps ++ (w2, y) ∷ [])) m

walk-w2 :
    (fuel : ℕ) (y : String) (xs ys : List String) (steps s : List Pass)
    → Memᴰ s (walk fuel xs ys (steps ++ (w2, y) ∷ []))
    → Memᴰ s (walk (suc fuel) xs (y ∷ ys) steps)
unfolding walk
walk-w2 fuel y [] ys steps s m = m
walk-w2 fuel y (x ∷ xs) ys steps s m =
    append_right (walk fuel xs (y ∷ ys) (steps ++ (w1, x) ∷ [])) m

walk-complete :
    (fuel : ℕ) (t steps : List Pass)
    → length (passed w1 t) + length (passed w2 t) ≤ fuel
    → Memᴰ (steps ++ t) (walk fuel (passed w1 t) (passed w2 t) steps)
unfolding walk passed
walk-complete zero [] steps h = head (append-nil steps)
walk-complete (suc fuel) [] steps h = head (append-nil steps)
walk-complete zero ((w1, p) ∷ t) steps h = ground arith
walk-complete zero ((w2, p) ∷ t) steps h = ground arith
walk-complete (suc fuel) ((w1, p) ∷ t) steps h =
    walk-w1 fuel p (passed w1 t) (passed w2 t) steps (steps ++ (w1, p) ∷ t) (
      cast (sym (append_assoc steps ((w1, p) ∷ []) t))
        (walk-complete fuel t (steps ++ (w1, p) ∷ []) (omega arith)))
walk-complete (suc fuel) ((w2, p) ∷ t) steps h =
    walk-w2 fuel p (passed w1 t) (passed w2 t) steps (steps ++ (w2, p) ∷ t) (
      cast (sym (append_assoc steps ((w2, p) ∷ []) t))
        (walk-complete fuel t (steps ++ (w2, p) ∷ []) (omega arith)))

found :
    (s : List Pass) (points : List String)
    → passed w1 s ≡ points
    → passed w2 s ≡ points
    → Memᴰ s (walk (length points + length points) points points [])
found s points h k =
    let sized : length (passed w1 s) + length (passed w2 s) ≡ length points + length points =
      ap (λ (l : List String). length l + length (passed w2 s)) h
      ∙ ap (λ (l : List String). length points + length l) k in
    let raw = walk-complete (length points + length points) s [] (omega (arith, sized)) in
    let first =
      ap (λ (l : List String). Memᴰ s (walk (length points + length points) l (passed w2 s) []))
        h in
    let second =
      ap (λ (l : List String). Memᴰ s (walk (length points + length points) points l [])) k in
    subst (λ (X : Type 0). X) (first ∙ second) raw

-- A sequence of steps is among the candidates of a workload exactly when each of the two workers
-- passes the workload's points in it, all of them and in their order.
pub candidate_steps-exact :
    (workload : String) (s : List Pass)
    → Memᴰ s (candidate_steps workload)
      ↔ ((passed w1 s ≡ points_of workload) × (passed w2 s ≡ points_of workload))
unfolding candidate_steps Passes passed
candidate_steps-exact workload s =
    let points = points_of workload in
    let depth = length points + length points in
    (
      λ m.
          All-Memᴰ (Passes points points []) s (candidate_steps workload)
            (walk-Passes depth points points []) m,
      λ (h, k). found s points h k,
    )
