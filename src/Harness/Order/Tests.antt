-- ===== src/Harness/Order/Tests.antt =====
-- Three blocks on an odd date.
use weavegate.Prelude.{
  ℕ, ◌+◌, ◌-◌, ◌/◌, ◌%◌, ◌≤◌, ◌≡◌, refl, String, Bool, true, false, [], ◌∷◌, ◌==◌, nat_eq,
  string_eq, if◌then◌else◌,
}
use weavegate.Prelude.Result.{ok}
use weavegate.Harness.Order.{
  Slot, ids_from, precedes, insert_block, sort_blocks, first_of, half_of, slots_of, order_dates,
  order,
}
use weavegate.Harness.Order.Balanced.{count_if, slots_of-balanced}

abbrev some_key : String → ℕ → ℕ → String → ℕ
some_key workload date_index b suffix = if suffix == "order" then 9 - b else b % 3

abbrev some_slot : ℕ → Bool → Slot
some_slot b first = record {
  workload = "replay";
  date_slot = 1;
  block_id = b;
  date = "2026-10-13";
  baseline_first = first;
}

order_run :
    order some_key ("2026-10-13" ∷ []) (("replay", 3 ∷ []) ∷ [])
    ≡ ok (some_slot 3 true ∷ some_slot 1 false ∷ some_slot 2 true ∷ [])
unfolding order order_dates slots_of half_of first_of sort_blocks insert_block precedes ids_from
order_run = refl

slots_of-balanced_example :
    ((b : ℕ)
      → 1 ≤ b
      → b ≤ 3
      → count_if (λ (s : Slot). s.block_id == b) (slots_of some_key "replay" 1 3 "2026-10-13") ≡ 1)
    × (count_if (λ (s : Slot). true) (slots_of some_key "replay" 1 3 "2026-10-13") ≡ 3)
    × (count_if (λ (s : Slot). s.baseline_first) (slots_of some_key "replay" 1 3 "2026-10-13")
        ≡ (if 1 % 2 == 0 then 3 / 2 else (3 + 1) / 2))
slots_of-balanced_example = slots_of-balanced some_key "replay" 1 3 "2026-10-13"
