-- ===== src/Harness/Order.antt =====
-- `order` of common.py: the slots of a campaign and which arm comes first in each.
pub mod Balanced
mod Tests
use weavegate.Prelude.{
  ℕ, zero, suc, ◌+◌, ◌*◌, ◌/◌, ◌%◌, String, Bool, true, false, not, ◌&&◌, ◌||◌, Option, none, some,
  List, [], ◌∷◌, ◌++◌, map, get_elem?, elem, ltb, leb, ◌==◌, nat_eq, if◌then◌else◌,
}
use weavegate.Prelude.Result.{Result, ok, err, ◌>>=◌}

-- Numbers stand for the padded texts of the date slot and the block.
pub record Slot : Type 0 where
  pub workload : String
  pub date_slot : ℕ
  pub block_id : ℕ
  pub date : String
  -- `['baseline', 'candidate']`, otherwise the other way round.
  pub baseline_first : Bool

-- `first, ..., first + count - 1`.
unfoldable pub ids_from : ℕ → ℕ → List ℕ
ids_from first zero = []
ids_from first (suc count) = first ∷ ids_from (suc first) count

-- The order of the pairs of a key and a block.
unfoldable pub precedes : (ℕ → ℕ) → ℕ → ℕ → Bool
precedes key a b = ltb (key a) (key b) || (key a == key b && leb a b)

unfoldable pub insert_block : (ℕ → ℕ) → ℕ → List ℕ → List ℕ
insert_block key b [] = b ∷ []
insert_block key b (c ∷ cs) =
    let rest = insert_block key b cs in if precedes key b c then b ∷ (c ∷ cs) else c ∷ rest

unfoldable pub sort_blocks : (ℕ → ℕ) → List ℕ → List ℕ
sort_blocks key [] = []
sort_blocks key (b ∷ bs) = insert_block key b (sort_blocks key bs)

-- `xs[:n]`.
unfoldable pub first_of : ℕ → List ℕ → List ℕ
first_of zero bs = []
first_of (suc n) [] = []
first_of (suc n) (b ∷ bs) = b ∷ first_of n bs

unfoldable pub half_of : (date_index count : ℕ) → ℕ
half_of date_index count = count / 2 + (if date_index % 2 == 0 then 0 else count % 2)

-- `key` is the SHA-256 of the seed, the experiment, the phase, the workload, the date slot, the
-- block and the suffix, as a number.
module _ (key : String → ℕ → ℕ → String → ℕ) (workload : String) where
  unfoldable pub slots_of : (date_index count : ℕ) → (date : String) → List Slot
  slots_of date_index count date =
      let ids = ids_from 1 count in
      let first =
        first_of (half_of date_index count)
          (sort_blocks (λ b. key workload date_index b "order") ids) in
      map
        (λ b. record {
          workload = workload;
          date_slot = date_index;
          block_id = b;
          date = date;
          baseline_first = elem b first;
        })
        (sort_blocks (λ b. key workload date_index b "sequence") ids)

  -- The dates of a workload, from `date_index` on.
  unfoldable pub order_dates : List String → (date_index : ℕ) → List ℕ → Result (List Slot)
  order_dates dates date_index [] = ok []
  order_dates [] date_index (zero ∷ counts) = order_dates [] (suc date_index) counts
  order_dates [] date_index (suc count ∷ counts) = err "list index out of range"
  order_dates (date ∷ dates) date_index (count ∷ counts) = do
    rest ← order_dates dates (suc date_index) counts
    ok (slots_of date_index count date ++ rest)

-- The strata come sorted by workload.
unfoldable pub order :
    (String → ℕ → ℕ → String → ℕ) → List String → List (String × List ℕ) → Result (List Slot)
order key dates [] = ok []
order key dates ((workload, counts) ∷ strata) = do
  slots ← order_dates key workload dates 1 counts
  rest ← order key dates strata
  ok (slots ++ rest)
