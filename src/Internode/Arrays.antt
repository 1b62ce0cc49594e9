-- ===== src/Internode/Arrays.antt =====
-- The loops over the arrays of a node, entry by entry.
use incll.Base.{ℕ, zero, suc, ◌+◌, ◌≤◌, ◌≡◌, arith}
use incll.Internode.{store, copy, copy_up, copy_down}

-- Moving up from the last entry on reads each entry before it is overwritten.
pub copy_up-copy :
    (n : ℕ) (a : ℕ → ℕ) (p xp j : ℕ) → xp ≤ p → copy_up a p xp n j ≡ copy a (p + 1) a (xp + 1) n j
unfolding copy_up copy store
copy_up-copy zero a p xp j h = ground arith
copy_up-copy (suc n) a p xp j h =
    ground (arith, copy_up-copy n (store a (p + suc n) (a (xp + suc n))) p xp j h)

-- Moving down from the first entry on does so too.
pub copy_down-copy :
    (n : ℕ) (a : ℕ → ℕ) (p xp j : ℕ) → p ≤ xp → copy_down a p xp n j ≡ copy a (p + 1) a (xp + 1) n j
unfolding copy_down copy store
copy_down-copy zero a p xp j h = ground arith
copy_down-copy (suc n) a p xp j h =
    ground (arith, copy_down-copy n (store a (p + 1) (a (xp + 1))) (p + 1) (xp + 1) j)
