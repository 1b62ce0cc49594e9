-- ===== src/Nodeversion/Fields.antt =====
-- The tests and marks of the version word as arithmetic on its bits.
use incll.Base.{ℕ, ◌+◌, ◌-◌, ◌*◌, ◌/◌, ◌%◌, ◌^◌, ◌<◌, bit_and, ◌≡◌, arith, ◌∙◌, not, ◌==◌}
use incll.Bits.Flags.{and_bit, or_bit, and_field}
use incll.Bits.Split.{bit_and_split}
use incll.Nodeversion.{has, mark_insert, mark_split, unlock_mask, split_unlock_mask}

pub has_bit : (k v : ℕ) → has v (2 ^ k) ≡ not (v / 2 ^ k % 2 * 2 ^ k == 0)
has_bit k v = rw (and_bit k v)

pub mark_insert-sum : (v : ℕ) → mark_insert v ≡ v + (1 - v / 2 % 2) * 2
unfolding mark_insert
mark_insert-sum v = or_bit 1 v ∙ omega arith

pub mark_split-sum : (v : ℕ) → mark_split v ≡ v + (1 - v / 4 % 2) * 4
unfolding mark_split
mark_split-sum v = or_bit 2 v ∙ omega arith

-- Bits 3 to 27 and 29 to 31.
pub unlock_mask-sum :
    (v : ℕ) → v < 2 ^ 32 → bit_and v unlock_mask ≡ v / 2 ^ 29 * 2 ^ 29 + v % 2 ^ 28 / 8 * 8
unlock_mask-sum v h = ground (
  arith,
  bit_and_split 28 (v / 2 ^ 28) (v % 2 ^ 28) 14 ((2 ^ 25 - 1) * 2 ^ 3),
  and_field 3 25 (v % 2 ^ 28),
  and_field 1 3 (v / 2 ^ 28),
)

-- Bits 9 to 27, 29 and 31.
pub split_unlock_mask-sum :
    (v : ℕ)
    → v < 2 ^ 32
    → bit_and v split_unlock_mask
      ≡ v / 2 ^ 31 * 2 ^ 31 + v / 2 ^ 29 % 2 * 2 ^ 29 + v % 2 ^ 28 / 2 ^ 9 * 2 ^ 9
split_unlock_mask-sum v h = ground (
  arith,
  bit_and_split 28 (v / 2 ^ 28) (v % 2 ^ 28) 10 ((2 ^ 19 - 1) * 2 ^ 9),
  bit_and_split 2 (v / 2 ^ 28 / 4) (v / 2 ^ 28 % 4) 2 2,
  and_field 9 19 (v % 2 ^ 28),
  and_bit 1 (v / 2 ^ 28 / 4),
  and_bit 1 (v / 2 ^ 28 % 4),
)
