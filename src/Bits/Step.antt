-- ===== src/Bits/Step.antt =====
-- What the native `bit_and`, `bit_or` and `bit_xor` do to the last binary digit and to the rest.
use Prim.Native.Nat.{digits, bitwise, bit_and-bitwise, bit_or-bitwise, bit_xor-bitwise}
use Prim.Native.Nat.{differ}
use incll.Base.{
  ℕ, zero, suc, ◌+◌, ◌-◌, ◌*◌, ◌/◌, ◌%◌, ◌≤◌, min, max, bit_and, bit_or, bit_xor, ◌≡◌, refl, ◌∙◌,
  ap, arith,
}

-- `digits` recurses on a count of rounds; rounds beyond the first operand change nothing.
module _ (tail : ℕ → ℕ) (digit : ℕ → ℕ → ℕ) where
  one_more :
      (rounds x y : ℕ)
      → x ≤ rounds
      → digits tail digit (suc rounds) x y ≡ digits tail digit rounds x y
  one_more zero zero y h = refl
  one_more zero (suc x) y h = absurd (omega arith)
  one_more (suc rounds) zero y h = refl
  one_more (suc rounds) (suc x) y h =
      ap (λ rest. rest * 2 + digit (suc x % 2) (y % 2))
        (one_more rounds (suc x / 2) (y / 2) (omega arith))

  spare :
      (extra rounds x y : ℕ)
      → rounds ≡ extra + x
      → digits tail digit rounds x y ≡ digits tail digit x x y
  spare zero rounds x y e = ap (λ n. digits tail digit n x y) (omega (arith, e))
  spare (suc extra) rounds x y e =
      let fewer : rounds ≡ suc (extra + x) = omega (arith, e) in
      ap (λ n. digits tail digit n x y) fewer
      ∙ one_more (extra + x) x y (omega arith)
      ∙ spare extra (extra + x) x y refl

  last_digit :
      (x y : ℕ)
      → bitwise tail digit (suc x) y
        ≡ bitwise tail digit (suc x / 2) (y / 2) * 2 + digit (suc x % 2) (y % 2)
  last_digit x y =
      let half : ℕ = suc x / 2 in
      ap (λ rest. rest * 2 + digit (suc x % 2) (y % 2))
        (spare (x - half) x half (y / 2) (omega arith))

pub bit_xor_step : (x y : ℕ) → bit_xor x y ≡ bit_xor (x / 2) (y / 2) * 2 + differ (x % 2) (y % 2)
bit_xor_step zero y = rw (bit_xor-bitwise, bit_xor-bitwise) (omega arith)
bit_xor_step (suc x) y = rw (bit_xor-bitwise, bit_xor-bitwise) (last_digit (λ n. n) differ x y)

pub bit_and_step : (x y : ℕ) → bit_and x y ≡ bit_and (x / 2) (y / 2) * 2 + min (x % 2) (y % 2)
bit_and_step zero y = rw (bit_and-bitwise, bit_and-bitwise) (omega arith)
bit_and_step (suc x) y = rw (bit_and-bitwise, bit_and-bitwise) (last_digit (λ n. 0) min x y)

pub bit_or_step : (x y : ℕ) → bit_or x y ≡ bit_or (x / 2) (y / 2) * 2 + max (x % 2) (y % 2)
bit_or_step zero y = rw (bit_or-bitwise, bit_or-bitwise) (omega arith)
bit_or_step (suc x) y = rw (bit_or-bitwise, bit_or-bitwise) (last_digit (λ n. n) max x y)
