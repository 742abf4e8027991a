-- ===== src/Harness/Order/Balanced.antt =====
-- Every block of a date has one slot, and the arms come first equally often.
use weavegate.Prelude.{
  ℕ, zero, suc, ◌+◌, ◌/◌, ◌%◌, ◌≤◌, ◌<◌, ◌≡◌, refl, sym, ◌∙◌, ap, String, Bool, true, false, ◌||◌,
  List, [], ◌∷◌, map, elem, length, ltb, ◌==◌, nat_eq, arith, ltb→lt, Bool-cases, inl, inr,
  if◌then◌else◌,
}
use weavegate.Harness.Order.{Slot, ids_from, insert_block, sort_blocks, first_of, half_of, slots_of}

-- How many items of a list pass a test.
unfoldable pub count_if {ℓ} : {A : Type ℓ} → (A → Bool) → List A → ℕ
count_if p [] = 0
count_if p (x ∷ xs) = let rest = count_if p xs in if p x then suc rest else rest

insert-count :
    (p : ℕ → Bool) (key : ℕ → ℕ) (b : ℕ) (bs : List ℕ)
    → count_if p (insert_block key b bs) ≡ count_if p (b ∷ bs)
unfolding count_if insert_block
insert-count p key b [] = refl
insert-count p key b (c ∷ cs) = ground (arith, insert-count p key b cs)

sort-count :
    (p : ℕ → Bool) (key : ℕ → ℕ) (bs : List ℕ) → count_if p (sort_blocks key bs) ≡ count_if p bs
unfolding count_if sort_blocks
sort-count p key [] = refl
sort-count p key (b ∷ bs) =
    ground (arith, sort-count p key bs, insert-count p key b (sort_blocks key bs))

count-map {ℓ κ} :
    {A : Type ℓ} {B : Type κ} (p : B → Bool) (f : A → B) (xs : List A)
    → count_if p (map f xs) ≡ count_if (λ x. p (f x)) xs
unfolding count_if
count-map p f [] = refl
count-map p f (x ∷ xs) = ground (arith, count-map p f xs)

is_block : ℕ → ℕ → Bool
is_block b c = c == b

count-below : (b first count : ℕ) → b < first → count_if (is_block b) (ids_from first count) ≡ 0
unfolding count_if ids_from is_block
count-below b first zero h = refl
count-below b first (suc count) h = ground (arith, count-below b (suc first) count (omega arith))

count-ids :
    (b first count : ℕ)
    → first ≤ b
    → b < first + count
    → count_if (is_block b) (ids_from first count) ≡ 1
unfolding count_if ids_from is_block
count-ids b first zero h k = omega arith
count-ids b first (suc count) h k = elim (Bool-cases (ltb first b)) [
  | inl q ↦
      (let l = ltb→lt first b q in
        ground (arith, count-ids b (suc first) count (omega arith) (omega arith)))
  | inr q ↦ ground (arith, count-below b (suc first) count (ground arith))
]

count_false : (bs : List ℕ) → count_if (λ (b : ℕ). false) bs ≡ 0
unfolding count_if
count_false [] = refl
count_false (b ∷ bs) = count_false bs

self : (b : ℕ) → (b == b) ≡ true
self b = ground arith

-- Two tests that differ at most on an item that is not in the list.
count_apart :
    (p q : ℕ → Bool) (x : ℕ) (bs : List ℕ)
    → count_if (is_block x) bs ≡ 0
    → ((y : ℕ) → (y == x) ≡ false → p y ≡ q y)
    → count_if p bs ≡ count_if q bs
unfolding count_if is_block
count_apart p q x [] h k = refl
count_apart p q x (y ∷ bs) h k = elim (Bool-cases (y == x)) [
  | inl e ↦ (let h' = rw e at h in omega (arith, h'))
  | inr e ↦ (let h' = rw e at h in ground (arith, k y e, count_apart p q x bs h' k))
]

first-count :
    (n : ℕ) (bs : List ℕ)
    → ((b : ℕ) → count_if (is_block b) bs ≤ 1)
    → n ≤ length bs
    → count_if (λ b. elem b (first_of n bs)) bs ≡ n
unfolding count_if first_of is_block
first-count zero bs h k = count_false bs
first-count (suc n) [] h k = omega arith
first-count (suc n) (b ∷ bs) h k =
    let here : suc (count_if (is_block b) bs) ≤ 1 = (let own = h b in rw (self b) at own) in
    let once : (y : ℕ) → count_if (is_block y) bs ≤ 1 = λ y. ground (arith, h y) in
    let rest = first-count n bs once (omega arith) in
    let apart =
      count_apart (λ y. y == b || elem y (first_of n bs)) (λ y. elem y (first_of n bs)) b bs
        (omega arith) (λ y e. ap (λ c. c || elem y (first_of n bs)) e) in
    rw (self b) (omega (arith, apart, rest))

count-length : (bs : List ℕ) → count_if (λ (b : ℕ). true) bs ≡ length bs
unfolding count_if
count-length [] = refl
count-length (b ∷ bs) = omega (arith, count-length bs)

length-ids : (first count : ℕ) → length (ids_from first count) ≡ count
unfolding ids_from
length-ids first zero = refl
length-ids first (suc count) = omega (arith, length-ids (suc first) count)

ids-once : (b first count : ℕ) → count_if (is_block b) (ids_from first count) ≤ 1
unfolding count_if ids_from is_block
ids-once b first zero = omega arith
ids-once b first (suc count) = elim (Bool-cases (ltb b (suc first))) [
  | inl q ↦ ground (arith, count-below b (suc first) count (ltb→lt b (suc first) q))
  | inr q ↦ ground (arith, ids-once b (suc first) count)
]

length-sort : (key : ℕ → ℕ) (bs : List ℕ) → length (sort_blocks key bs) ≡ length bs
length-sort key bs =
    omega (arith, count-length (sort_blocks key bs), sort-count (λ b. true) key bs, count-length bs)

half_of-eq :
    (date_index count : ℕ)
    → half_of date_index count ≡ (if date_index % 2 == 0 then count / 2 else (count + 1) / 2)
unfolding half_of
half_of-eq date_index count = elim (Bool-cases (date_index % 2 == 0)) [
  | inl q ↦ rw q (omega arith)
  | inr q ↦ rw q (omega arith)
]

half_of-le : (date_index count : ℕ) → half_of date_index count ≤ count
unfolding half_of
half_of-le date_index count = elim (Bool-cases (date_index % 2 == 0)) [
  | inl q ↦ rw q (omega arith)
  | inr q ↦ rw q (omega arith)
]

-- The blocks of a date: each of them has exactly one slot, there are as many slots as are planned,
-- and the baseline comes first in half of them, where the odd one of an odd number goes to the
-- baseline on odd dates and to the candidate on even ones.
pub slots_of-balanced :
    (key : String → ℕ → ℕ → String → ℕ) (workload : String) (date_index count : ℕ) (date : String)
    → ((b : ℕ)
        → 1 ≤ b
        → b ≤ count
        → count_if (λ (s : Slot). s.block_id == b) (slots_of key workload date_index count date)
          ≡ 1)
      × (count_if (λ (s : Slot). true) (slots_of key workload date_index count date) ≡ count)
      × (count_if (λ (s : Slot). s.baseline_first) (slots_of key workload date_index count date)
          ≡ (if date_index % 2 == 0 then count / 2 else (count + 1) / 2))
unfolding slots_of is_block
slots_of-balanced key workload date_index count date = (
  λ b low high. of_slots (λ (s : Slot). s.block_id == b) ∙ count-ids b 1 count low (omega arith),
  of_slots (λ (s : Slot). true) ∙ count-length ids ∙ length-ids 1 count,
  of_slots (λ (s : Slot). s.baseline_first)
      ∙ sym (sort-count (λ b. elem b (first_of half ordered)) order_key ids)
      ∙ first-count half ordered once short
      ∙ half_of-eq date_index count,
)
  where
    ids : List ℕ
    ids = ids_from 1 count

    order_key : ℕ → ℕ
    order_key b = key workload date_index b "order"

    ordered : List ℕ
    ordered = sort_blocks order_key ids

    half : ℕ
    half = half_of date_index count

    slot : ℕ → Slot
    slot b = record {
      workload = workload;
      date_slot = date_index;
      block_id = b;
      date = date;
      baseline_first = elem b (first_of half ordered);
    }

    sequence_key : ℕ → ℕ
    sequence_key b = key workload date_index b "sequence"

    of_slots :
        (p : Slot → Bool)
        → count_if p (map slot (sort_blocks sequence_key ids)) ≡ count_if (λ b. p (slot b)) ids
    of_slots p =
        count-map p slot (sort_blocks sequence_key ids)
        ∙ sort-count (λ b. p (slot b)) sequence_key ids

    once : (b : ℕ) → count_if (is_block b) ordered ≤ 1
    once b = omega (arith, sort-count (is_block b) order_key ids, ids-once b 1 count)

    short : half ≤ length ordered
    short =
        omega (arith, length-sort order_key ids, length-ids 1 count, half_of-le date_index count)
