-- ===== src/Circular/Order.antt =====
-- The circular order on 64-bit words.
use incll.Base.{ℕ, ◌+◌, ◌-◌, ◌^◌, ◌<◌, ◌≡◌, ◌≢◌, arith, true, false, not, ◌||◌, ◌==◌, if◌then◌else◌}
use incll.Circular.{plus, minus, next_nonzero, less, less_equal, at_most}

-- A word is not less than itself. It is less than each of the 2 ^ 63 - 1 words that follow it, also
-- past the wrap, and none of these is less than it or than itself; stepping on and back gives the
-- word. Of two words half the range apart each is less than the other.
pub less-plus :
    (v d : ℕ)
    → v < 2 ^ 64
    → 0 < d
    → d < 2 ^ 63
    → (less v (plus v d) ≡ true)
      × (less (plus v d) v ≡ false)
      × (minus (plus v d) d ≡ v)
      × (less v v ≡ false)
      × (less (plus v d) (plus v d) ≡ false)
      × (less v (plus v (2 ^ 63)) ≡ true)
      × (less (plus v (2 ^ 63)) v ≡ true)
unfolding less plus minus
less-plus v d h p q = (
  ground arith,
  ground arith,
  omega arith,
  ground arith,
  ground arith,
  ground arith,
  ground arith,
)

-- `next_nonzero` of a word is the word after it, but 1 after the greatest one; it is never 0, and
-- the word is less than it.
pub next_nonzero_lem :
    (v : ℕ)
    → v < 2 ^ 64
    → (0 < next_nonzero v)
      × (less v (next_nonzero v) ≡ true)
      × (next_nonzero v ≡ (if v == 2 ^ 64 - 1 then 1 else v + 1))
unfolding next_nonzero less
next_nonzero_lem v h = (ground arith, ground arith, ground arith)

-- On two words that are not half the range apart, `less_equal` and `operator<=` agree, and say
-- that one is less than the other or the same; exactly one is less unless they are the same.
pub less_equal-at_most :
    (a b : ℕ)
    → a < 2 ^ 64
    → b < 2 ^ 64
    → a ≢ b + 2 ^ 63
    → b ≢ a + 2 ^ 63
    → (less_equal a b ≡ at_most a b)
      × (at_most a b ≡ (less a b || (a == b)))
      × (less b a ≡ not (at_most a b))
unfolding less_equal at_most less
less_equal-at_most a b h k p q = (ground arith, ground arith, ground arith)
