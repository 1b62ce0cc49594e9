-- ===== src/Bits/Split.antt =====
-- A bitwise operation works on each of two fields of a word by itself.
use native.Mathlib.Nat.{pow-suc}
use Prim.Native.Nat.{differ}
use incll.Base.{
  ℕ, zero, suc, ◌+◌, ◌*◌, ◌/◌, ◌%◌, ◌^◌, ◌<◌, min, max, bit_and, bit_or, bit_xor, ◌≡◌, arith,
}
use incll.Bits.Step.{bit_and_step, bit_or_step, bit_xor_step}

pub mul-pow_suc : (c n : ℕ) → c * 2 ^ suc n ≡ 2 * (c * 2 ^ n)
mul-pow_suc c n = let power : 2 ^ suc n ≡ 2 * 2 ^ n = omega arith in rw power (omega arith)

module _ (op f : ℕ → ℕ → ℕ) (step : (a b : ℕ) → op a b ≡ op (a / 2) (b / 2) * 2 + f (a % 2) (b % 2))
    (digit : (a b : ℕ) → f (a % 2) (b % 2) < 2) where
  op-zero : op 0 0 ≡ 0
  op-zero = omega (arith, step 0 0, digit 0 0)

  pub op-lt : (k a b : ℕ) → a < 2 ^ k → b < 2 ^ k → op a b < 2 ^ k
  op-lt zero a b ha hb =
      let ea : a ≡ 0 = omega arith in
      let eb : b ≡ 0 = omega arith in rw (ea, eb, op-zero) (omega arith)
  op-lt (suc k) a b ha hb = omega (
    arith,
    step a b,
    digit a b,
    pow-suc 2 k,
    op-lt k (a / 2) (b / 2) (omega (arith, pow-suc 2 k)) (omega (arith, pow-suc 2 k)),
  )

  pub op_split :
      (k q r s t : ℕ)
      → r < 2 ^ k
      → t < 2 ^ k
      → op (q * 2 ^ k + r) (s * 2 ^ k + t) ≡ op q s * 2 ^ k + op r t
  op_split zero q r s t hr ht =
      let er : r ≡ 0 = omega arith in let et : t ≡ 0 = omega arith in ground (arith, op-zero)
  op_split (suc k) q r s t hr ht = ground (
    arith,
    step (q * 2 ^ suc k + r) (s * 2 ^ suc k + t),
    step r t,
    mul-pow_suc q k,
    mul-pow_suc s k,
    mul-pow_suc (op q s) k,
    pow-suc 2 k,
    op_split k q (r / 2) s (t / 2) (omega (arith, pow-suc 2 k)) (omega (arith, pow-suc 2 k)),
  )

pub bit_and-lt : (k a b : ℕ) → a < 2 ^ k → b < 2 ^ k → bit_and a b < 2 ^ k
bit_and-lt = op-lt bit_and min bit_and_step (λ a b. omega arith)

pub bit_or-lt : (k a b : ℕ) → a < 2 ^ k → b < 2 ^ k → bit_or a b < 2 ^ k
bit_or-lt = op-lt bit_or max bit_or_step (λ a b. omega arith)

differ-lt : (a b : ℕ) → differ (a % 2) (b % 2) < 2
differ-lt a b = go (a % 2) (b % 2) (omega arith) (omega arith)
  where
    go : (x y : ℕ) → x < 2 → y < 2 → differ x y < 2
    go zero y hx hy = hy
    go (suc zero) zero hx hy = omega arith
    go (suc zero) (suc y) hx hy = omega arith
    go (suc (suc x)) y hx hy = absurd (omega arith)

pub bit_xor-lt : (k a b : ℕ) → a < 2 ^ k → b < 2 ^ k → bit_xor a b < 2 ^ k
bit_xor-lt = op-lt bit_xor differ bit_xor_step differ-lt

pub bit_and_split :
    (k q r s t : ℕ)
    → r < 2 ^ k
    → t < 2 ^ k
    → bit_and (q * 2 ^ k + r) (s * 2 ^ k + t) ≡ bit_and q s * 2 ^ k + bit_and r t
bit_and_split = op_split bit_and min bit_and_step (λ a b. omega arith)

pub bit_or_split :
    (k q r s t : ℕ)
    → r < 2 ^ k
    → t < 2 ^ k
    → bit_or (q * 2 ^ k + r) (s * 2 ^ k + t) ≡ bit_or q s * 2 ^ k + bit_or r t
bit_or_split = op_split bit_or max bit_or_step (λ a b. omega arith)

pub bit_xor_split :
    (k q r s t : ℕ)
    → r < 2 ^ k
    → t < 2 ^ k
    → bit_xor (q * 2 ^ k + r) (s * 2 ^ k + t) ≡ bit_xor q s * 2 ^ k + bit_xor r t
bit_xor_split = op_split bit_xor differ bit_xor_step differ-lt
