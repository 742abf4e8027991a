-- ===== src/Harness/Accounting/Sums.antt =====
-- The counts of an account are complete.
use weavegate.Prelude.{
  ℕ, suc, ◌+◌, ◌≤◌, ◌≡◌, refl, String, Bool, not, List, [], ◌∷◌, map, keep, length, ◌==◌, string_eq,
  arith, if◌then◌else◌,
}
use weavegate.Prelude.Dict
use weavegate.Prelude.Dict.{Dict}
use weavegate.Harness.Accounting.{Row, count_of, bump, tally, in_group, account}
use weavegate.Harness.Trial.{Classification}
use weavegate.Harness.Analysis.{class_name}

-- The sum of the counts.
unfoldable pub sum_values : Dict String ℕ → ℕ
sum_values [] = 0
sum_values ((k, n) ∷ d) = n + sum_values d

-- How often the key is in the list.
unfoldable pub occurrences : String → List String → ℕ
occurrences key [] = 0
occurrences key (k ∷ ks) = let rest = occurrences key ks in if k == key then suc rest else rest

bump-sum : (key : String) (d : Dict String ℕ) → sum_values (bump key d) ≡ suc (sum_values d)
unfolding bump sum_values count_of Dict.put Dict.get
bump-sum key [] = omega arith
bump-sum key ((k, n) ∷ d) = ground (arith, bump-sum key d)

tally-sum :
    (d : Dict String ℕ) (keys : List String)
    → sum_values (tally d keys) ≡ sum_values d + length keys
unfolding tally
tally-sum d [] = omega arith
tally-sum d (key ∷ keys) = omega (arith, tally-sum (bump key d) keys, bump-sum key d)

bump-count :
    (key k : String) (d : Dict String ℕ)
    → count_of (Dict.get key (bump k d))
      ≡ (if k == key then suc (count_of (Dict.get key d)) else count_of (Dict.get key d))
unfolding bump count_of
bump-count key k d =
    ground (arith, Dict.get-put k key (suc (count_of (Dict.get k d))) d, string_eq.beq_iff k key)

tally-count :
    (key : String) (d : Dict String ℕ) (keys : List String)
    → count_of (Dict.get key (tally d keys)) ≡ count_of (Dict.get key d) + occurrences key keys
unfolding tally occurrences
tally-count key d [] = omega arith
tally-count key d (k ∷ ks) = ground (arith, tally-count key (bump k d) ks, bump-count key k d)

length-map {ℓ κ} :
    {A : Type ℓ} {B : Type κ} (f : A → B) (xs : List A) → length (map f xs) ≡ length xs
length-map f [] = refl
length-map f (x ∷ xs) = omega (arith, length-map f xs)

length-keep {ℓ} : {A : Type ℓ} (p : A → Bool) (xs : List A) → length (keep p xs) ≤ length xs
length-keep p [] = omega arith
length-keep p (x ∷ xs) = ground (arith, length-keep p xs)

pub account-sum :
    (rows : List Row) (workload arm : String)
    → (sum_values (account rows workload arm).classes ≡ (account rows workload arm).planned)
      × ((c : Classification)
          → count_of (Dict.get (class_name c) (account rows workload arm).classes)
            ≡ occurrences (class_name c) (
                map (λ (r : Row). class_name r.classification) (keep (in_group workload arm) rows)))
      × ((account rows workload arm).started ≤ (account rows workload arm).planned)
      × (sum_values (account rows workload arm).reasons ≤ (account rows workload arm).planned)
unfolding account sum_values count_of Dict.get
account-sum rows workload arm =
    let chosen = keep (in_group workload arm) rows in
    let named = keep (λ (r : Row). not (r.reason == "")) chosen in
    (
      omega (
        arith,
        tally-sum [] (map (λ (r : Row). class_name r.classification) chosen),
        length-map (λ (r : Row). class_name r.classification) chosen,
      ),
      λ c. omega (
        arith,
        tally-count (class_name c) [] (map (λ (r : Row). class_name r.classification) chosen),
      ),
      length-keep (λ (r : Row). r.started) chosen,
      omega (
        arith,
        tally-sum [] (map (λ (r : Row). r.reason) named),
        length-map (λ (r : Row). r.reason) named,
        length-keep (λ (r : Row). not (r.reason == "")) chosen,
      ),
    )
