-- ===== src/Base/Word.antt =====
-- Unsigned 64-bit words as native numbers below 2 ^ 64, with the wrap-around written out.
use Prim.Native.Nat.{ℕ, ◌+◌, ◌-◌, ◌*◌, ◌/◌, ◌%◌, ◌^◌}

abbrev pub u64 : ℕ → ℕ
u64 x = x % 2 ^ 64

abbrev pub shl64 : ℕ → ℕ → ℕ
shl64 x k = u64 (x * 2 ^ k)

abbrev pub shr : ℕ → ℕ → ℕ
shr x k = x / 2 ^ k

abbrev pub add64 : ℕ → ℕ → ℕ
add64 a b = u64 (a + b)

-- 2 ^ 64 is added first, since `-` on ℕ stops at 0.
abbrev pub sub64 : ℕ → ℕ → ℕ
sub64 a b = u64 (a + 2 ^ 64 - b)

-- `~x`
abbrev pub not64 : ℕ → ℕ
not64 x = 2 ^ 64 - 1 - x
