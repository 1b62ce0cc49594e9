-- ===== src/Bits/Zero.antt =====
-- Zero, a word with itself, and low masks under the bit operations.
use mathlib.Core.WellFounded
use Prim.Native.Nat.{differ, bit_and-bitwise, bit_or-bitwise, bit_xor-bitwise}
use native.Mathlib.Nat.{one-le-pow}
use incll.Base.{
  ℕ, zero, suc, ◌-◌, ◌*◌, ◌/◌, ◌%◌, ◌^◌, ◌<◌, bit_and, bit_or, bit_xor, ◌≡◌, refl, arith,
}
use incll.Base.Order.{lt_wf}
use incll.Bits.Step.{bit_and_step, bit_or_step, bit_xor_step}
use incll.Bits.Split.{bit_and_split}

pub zero-bit_and : (b : ℕ) → bit_and 0 b ≡ 0
zero-bit_and b = bit_and-bitwise 0 b

pub zero-bit_or : (b : ℕ) → bit_or 0 b ≡ b
zero-bit_or b = bit_or-bitwise 0 b

pub zero-bit_xor : (b : ℕ) → bit_xor 0 b ≡ b
zero-bit_xor b = bit_xor-bitwise 0 b

-- Each goes from `a / 2` to `a`.
module _ (op : ℕ → ℕ) (good : ℕ → ℕ) (base : op 0 ≡ good 0)
    (step : (a : ℕ) → 0 < a → op (a / 2) ≡ good (a / 2) → op a ≡ good a) where
  by_halves : (a : ℕ) → op a ≡ good a
  by_halves a = WellFounded.induction lt_wf {C = λ k. op k ≡ good k} a go
    where
      go : (n : ℕ) → ((m : ℕ) → m < n → op m ≡ good m) → op n ≡ good n
      go zero ih = base
      go (suc n) ih = step (suc n) (omega arith) (ih (suc n / 2) (omega arith))

pub bit_and-zero : (a : ℕ) → bit_and a 0 ≡ 0
bit_and-zero =
    by_halves (λ a. bit_and a 0) (λ a. 0) refl λ a h ih. omega (arith, bit_and_step a 0, ih)

pub bit_or-zero : (a : ℕ) → bit_or a 0 ≡ a
bit_or-zero = by_halves (λ a. bit_or a 0) (λ a. a) refl λ a h ih. omega (arith, bit_or_step a 0, ih)

differ_zero : (a : ℕ) → differ a 0 ≡ a
differ_zero zero = refl
differ_zero (suc a) = refl

differ_self : (a : ℕ) → differ a a ≡ 0
differ_self zero = refl
differ_self (suc a) = differ_self a

pub bit_xor-zero : (a : ℕ) → bit_xor a 0 ≡ a
bit_xor-zero =
    by_halves (λ a. bit_xor a 0) (λ a. a) refl
      λ a h ih. omega (arith, bit_xor_step a 0, ih, differ_zero (a % 2))

pub bit_xor_self : (a : ℕ) → bit_xor a a ≡ 0
bit_xor_self =
    by_halves (λ a. bit_xor a a) (λ a. 0) refl
      λ a h ih. omega (arith, bit_xor_step a a, ih, differ_self (a % 2))

-- A mask of the `k` low bits is the remainder by `2 ^ k`.
mask_fits : (k r : ℕ) → r < 2 ^ k → bit_and r (2 ^ k - 1) ≡ r
mask_fits zero r h = ground (arith, bit_and-zero r)
mask_fits (suc k) r h = ground (
  arith,
  bit_and_step r (2 ^ suc k - 1),
  one-le-pow k 2,
  two_pow_suc,
  mask_fits k (r / 2) (omega (arith, two_pow_suc)),
)
  where
    two_pow_suc : 2 ^ suc k ≡ 2 * 2 ^ k
    two_pow_suc = omega arith

pub bit_and_mask : (k a : ℕ) → bit_and a (2 ^ k - 1) ≡ a % 2 ^ k
bit_and_mask k a = ground (
  arith,
  one-le-pow k 2,
  bit_and_split k (a / 2 ^ k) (a % 2 ^ k) 0 (2 ^ k - 1),
  bit_and-zero (a / 2 ^ k),
  mask_fits k (a % 2 ^ k),
)
