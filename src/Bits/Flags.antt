-- ===== src/Bits/Flags.antt =====
-- Single bits and fields of a word under the bit operations, in a form that `omega` reads.
use native.Mathlib.Nat.{one-le-pow, mod-lt, div-add-mod', mod-mod, add-mul}
use incll.Base.{ℕ, ◌+◌, ◌-◌, ◌*◌, ◌/◌, ◌%◌, ◌^◌, ◌<◌, bit_and, bit_or, ◌≡◌, sym, ap, arith, ◌∙◌}
use incll.Bits.Step.{bit_or_step}
use incll.Bits.Split.{bit_and_split, bit_or_split}
use incll.Bits.Zero.{bit_and-zero, bit_or-zero, zero-bit_or, bit_and_mask}

pos : (k : ℕ) → 0 < 2 ^ k
pos k = one-le-pow k 2 (omega arith)

halves : (k v : ℕ) → v ≡ v / 2 ^ k * 2 ^ k + v % 2 ^ k
halves k v = sym (div-add-mod' v (2 ^ k))

-- `v & (((1 << w) - 1) << k)`
pub and_field : (k w v : ℕ) → bit_and v ((2 ^ w - 1) * 2 ^ k) ≡ v / 2 ^ k % 2 ^ w * 2 ^ k
and_field k w v =
    ap (λ (t : ℕ). bit_and t ((2 ^ w - 1) * 2 ^ k)) (halves k v)
    ∙ ground (
      arith,
      pos k,
      mod-lt v (pos k),
      bit_and_split k (v / 2 ^ k) (v % 2 ^ k) (2 ^ w - 1) 0,
      bit_and-zero (v % 2 ^ k),
      bit_and_mask w (v / 2 ^ k),
    )

-- `v & (1 << k)`
pub and_bit : (k v : ℕ) → bit_and v (2 ^ k) ≡ v / 2 ^ k % 2 * 2 ^ k
and_bit k v = ground (arith, and_field k 1 v)

bit_or-one : (a : ℕ) → bit_or a 1 ≡ a + (1 - a % 2)
bit_or-one a = omega (arith, bit_or_step a 1, bit_or-zero (a / 2))

-- `v | (1 << k)`
pub or_bit : (k v : ℕ) → bit_or v (2 ^ k) ≡ v + (1 - v / 2 ^ k % 2) * 2 ^ k
or_bit k v =
    ap (λ (t : ℕ). bit_or t (2 ^ k)) (halves k v)
    ∙ ground (
      arith,
      pos k,
      mod-lt v (pos k),
      halves k v,
      bit_or_split k (v / 2 ^ k) (v % 2 ^ k) 1 0,
      bit_or-zero (v % 2 ^ k),
      ap (λ (t : ℕ). t * 2 ^ k) (bit_or-one (v / 2 ^ k)),
      add-mul (v / 2 ^ k) (1 - v / 2 ^ k % 2) (2 ^ k),
    )

-- Fields that do not overlap add up.
pub or_disjoint : (k q r : ℕ) → r < 2 ^ k → bit_or (q * 2 ^ k) r ≡ q * 2 ^ k + r
or_disjoint k q r h = ground (arith, pos k, bit_or_split k q 0 0 r, bit_or-zero q, zero-bit_or r)

-- A field is put into a word that has zeros there.
pub or_insert :
    (k q r s : ℕ) → r < 2 ^ k → bit_or (q * 2 ^ k + r) (s * 2 ^ k) ≡ bit_or q s * 2 ^ k + r
or_insert k q r s h = ground (arith, pos k, bit_or_split k q r s 0, bit_or-zero r)

-- Clearing `w` bits from bit `k` on, in a word of `n` bits.
pub and_clear :
    (k v m : ℕ) → bit_and v (m * 2 ^ k + (2 ^ k - 1)) ≡ bit_and (v / 2 ^ k) m * 2 ^ k + v % 2 ^ k
and_clear k v m =
    ap (λ (t : ℕ). bit_and t (m * 2 ^ k + (2 ^ k - 1))) (halves k v)
    ∙ ground (
      arith,
      pos k,
      mod-lt v (pos k),
      bit_and_split k (v / 2 ^ k) (v % 2 ^ k) m (2 ^ k - 1),
      bit_and_mask k (v % 2 ^ k),
      mod-mod v (2 ^ k),
    )

pub bit_or-seven : (r : ℕ) → bit_or r 7 ≡ r / 8 * 8 + 7
bit_or-seven r = omega (
  arith,
  bit_or_step r 7,
  bit_or_step (r / 2) 3,
  bit_or_step (r / 2 / 2) 1,
  bit_or-zero (r / 2 / 2 / 2),
)
