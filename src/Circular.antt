-- ===== src/Circular.antt =====
-- circular_int.hh, `circular_int<uint64_t>`, the type of epochs: unsigned words that are compared
-- by the sign of their wrapped difference.
pub mod Order
pub mod Examples
use incll.Base.{ℕ, ◌^◌, add64, sub64, Bool, not, ◌||◌, leb, ◌==◌, if◌then◌else◌}

-- `++v`, `v += x`
unfoldable pub increment : ℕ → ℕ
increment v = add64 v 1

unfoldable pub decrement : ℕ → ℕ
decrement v = sub64 v 1

unfoldable pub plus : ℕ → ℕ → ℕ
plus v x = add64 v x

unfoldable pub minus : ℕ → ℕ → ℕ
minus v x = sub64 v x

unfoldable pub next_nonzero : ℕ → ℕ
next_nonzero v = let x = add64 v 1 in add64 x (if x == 0 then 1 else 0)

-- Whether `difference_type(a - b)` is negative: the sign bit of the word.
unfoldable pub less : ℕ → ℕ → Bool
less a b = leb (2 ^ 63) (sub64 a b)

unfoldable pub less_equal : ℕ → ℕ → Bool
less_equal a b = leb (2 ^ 63) (sub64 a b) || (sub64 a b == 0)

-- `operator<=`
unfoldable pub at_most : ℕ → ℕ → Bool
unfolding less
at_most v x = not (less x v)
