-- ===== src/Bits/Nibble.antt =====
-- Words as sequences of 4-bit fields, lowest first, and the bit operations field by field.
use native.Mathlib.Nat.{
  pow-suc, pow-succ', div-div-eq-div-mul, mod-one, mul-add-mod_self_left, mod-eq_of_lt, mod-lt,
  div-add-mod, one-le-pow,
}
use incll.Base.{
  ℕ, zero, suc, ◌+◌, ◌-◌, ◌*◌, ◌/◌, ◌%◌, ◌^◌, ◌≤◌, ◌<◌, bit_and, bit_or, bit_xor, ◌≡◌, refl, ap,
  arith, ltb, ◌∙◌, if◌then◌else◌,
}
use incll.Bits.Split.{bit_and_split, bit_or_split, bit_xor_split, bit_and-lt, bit_or-lt, bit_xor-lt}

unfoldable pub nibble : ℕ → ℕ → ℕ
nibble x zero = x % 16
nibble x (suc k) = nibble (x / 16) k

pub nibble-lt : (k x : ℕ) → nibble x k < 16
unfolding nibble
nibble-lt zero x = omega arith
nibble-lt (suc k) x = nibble-lt k (x / 16)

pub nibble-zero : (k : ℕ) → nibble 0 k ≡ 0
unfolding nibble
nibble-zero zero = refl
nibble-zero (suc k) = nibble-zero k

-- Two words of `n` fields are equal if their fields are.
pub nibble_ext :
    (n x y : ℕ) → x < 16 ^ n → y < 16 ^ n → ((k : ℕ) → k < n → nibble x k ≡ nibble y k) → x ≡ y
unfolding nibble
nibble_ext zero x y hx hy h = omega arith
nibble_ext (suc n) x y hx hy h = omega (
  arith,
  h 0 (omega arith),
  nibble_ext n (x / 16) (y / 16) (omega (arith, pow-suc 16 n)) (omega (arith, pow-suc 16 n))
      (λ k lt. h (suc k) (omega arith)),
)

module _ (op : ℕ → ℕ → ℕ)
    (split : (q r s t : ℕ)
      → r < 2 ^ 4
      → t < 2 ^ 4
      → op (q * 2 ^ 4 + r) (s * 2 ^ 4 + t) ≡ op q s * 2 ^ 4 + op r t)
    (op-lt : (a b : ℕ) → a < 2 ^ 4 → b < 2 ^ 4 → op a b < 2 ^ 4) where
  nibble_op : (k a b : ℕ) → nibble (op a b) k ≡ op (nibble a k) (nibble b k)
  unfolding nibble
  nibble_op zero a b =
      ground (arith, split (a / 16) (a % 16) (b / 16) (b % 16), op-lt (a % 16) (b % 16))
  nibble_op (suc k) a b = ground (
    arith,
    split (a / 16) (a % 16) (b / 16) (b % 16),
    op-lt (a % 16) (b % 16),
    nibble_op k (a / 16) (b / 16),
  )

pub nibble-bit_and : (k a b : ℕ) → nibble (bit_and a b) k ≡ bit_and (nibble a k) (nibble b k)
nibble-bit_and = nibble_op bit_and (bit_and_split 4) (bit_and-lt 4)

pub nibble-bit_or : (k a b : ℕ) → nibble (bit_or a b) k ≡ bit_or (nibble a k) (nibble b k)
nibble-bit_or = nibble_op bit_or (bit_or_split 4) (bit_or-lt 4)

pub nibble-bit_xor : (k a b : ℕ) → nibble (bit_xor a b) k ≡ bit_xor (nibble a k) (nibble b k)
nibble-bit_xor = nibble_op bit_xor (bit_xor_split 4) (bit_xor-lt 4)

mul-pow-suc : (x j : ℕ) → x * 16 ^ suc j ≡ 16 * (x * 16 ^ j)
mul-pow-suc x j = omega (arith, ap (λ (t : ℕ). x * t) (pow-suc 16 j))

-- A left shift by `j` fields.
pub nibble-shl : (j k x : ℕ) → nibble (x * 16 ^ j) k ≡ (if ltb k j then 0 else nibble x (k - j))
unfolding nibble
nibble-shl zero k x = ground arith
nibble-shl (suc j) zero x = ground (arith, mul-pow-suc x j)
nibble-shl (suc j) (suc k) x = ground (arith, mul-pow-suc x j, nibble-shl j k x)

-- A right shift by `j` fields.
pub nibble-shr : (j k x : ℕ) → nibble (x / 16 ^ j) k ≡ nibble x (j + k)
unfolding nibble
nibble-shr zero k x = ground arith
nibble-shr (suc j) k x =
    let e : suc j + k ≡ suc (j + k) = omega arith in
    rw (pow-succ' 16 j, ← div-div-eq-div-mul x 16 (16 ^ j), e) (nibble-shr j k (x / 16))

-- The lowest field and the rest of a remainder.
mod-pow-suc : (m x : ℕ) → x % 16 ^ suc m ≡ 16 * (x / 16 % 16 ^ m) + x % 16
mod-pow-suc m x =
    rw (pow-succ' 16 m) (
      ap (λ (t : ℕ). t % (16 * p)) whole ∙ mul-add-mod_self_left (16 * p) q low ∙ mod-eq_of_lt fits)
  where
    p : ℕ
    p = 16 ^ m

    q : ℕ
    q = x / 16 / p

    low : ℕ
    low = 16 * (x / 16 % p) + x % 16

    whole : x ≡ 16 * p * q + low
    whole = omega (arith, div-add-mod (x / 16) p)

    fits : low < 16 * p
    fits = omega (arith, mod-lt (x / 16) {m = p} (one-le-pow m 16 (omega arith)))

-- The fields that a word of `m` fields keeps.
pub nibble-low : (m k x : ℕ) → nibble (x % 16 ^ m) k ≡ (if ltb k m then nibble x k else 0)
unfolding nibble
nibble-low zero zero x = ground arith
nibble-low zero (suc k) x = ground (arith, mod-one x, nibble-zero k)
nibble-low (suc m) zero x = ground (arith, mod-pow-suc m x)
nibble-low (suc m) (suc k) x = ground (arith, mod-pow-suc m x, nibble-low m k (x / 16))

-- A word of `m` fields has no more of them.
pub nibble_above : (m k x : ℕ) → x < 16 ^ m → m ≤ k → nibble x k ≡ 0
nibble_above m k x fits h = rw (← mod-eq_of_lt fits) (nibble-low m k x ∙ ground arith)

pub nibble_ones : (m k : ℕ) → nibble (16 ^ m - 1) k ≡ (if ltb k m then 15 else 0)
unfolding nibble
nibble_ones zero k = rw (nibble-zero k) (ground arith)
nibble_ones (suc m) zero = ground (arith, pow-suc 16 m, one-le-pow m 16)
nibble_ones (suc m) (suc k) = ground (arith, pow-suc 16 m, one-le-pow m 16, nibble_ones m k)

-- The complement in a word of `n` fields.
pub nibble_complement :
    (n k x : ℕ) → x < 16 ^ n → k < n → nibble (16 ^ n - 1 - x) k ≡ 15 - nibble x k
unfolding nibble
nibble_complement zero k x hx hk = absurd (omega arith)
nibble_complement (suc n) zero x hx hk = omega (arith, pow-suc 16 n)
nibble_complement (suc n) (suc k) x hx hk = ground (
  arith,
  pow-suc 16 n,
  nibble_complement n k (x / 16) (omega (arith, pow-suc 16 n)) (omega arith),
)
