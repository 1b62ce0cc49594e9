-- ===== src/Base/Below.antt =====
-- Facts about all numbers below a bound, by running a test on each of them.
use Prim.Native.Nat.{ℕ, zero, suc, ◌<◌}
use mathlib.Core.Path.{◌≡◌, refl, ◌∙◌, ap}
use mathlib.Core.Logic.{inl, inr}
use mathlib.Core.Bool.{Bool, true, false, ◌&&◌}
use native.Mathlib.Omega.{arith}
use incll.Base.Tests.{◌==◌, ==_iff, Bool-cases}
use incll.Base.Lists.{get_or, replicate}

abbrev pub all_below : ℕ → (ℕ → Bool) → Bool
all_below zero p = true
all_below (suc n) p = p n && all_below n p

pub and-left : (a b : Bool) → (a && b) ≡ true → a ≡ true
and-left true b h = refl
and-left false b h = h

pub and-right : (a b : Bool) → (a && b) ≡ true → b ≡ true
and-right true b h = h
and-right false b h = absurd (ground arith)

pub all_below_lem : (n : ℕ) (p : ℕ → Bool) → all_below n p ≡ true → (j : ℕ) → j < n → p j ≡ true
all_below_lem zero p h j l = absurd (omega arith)
all_below_lem (suc n) p h j l = elim (Bool-cases (j == n)) [
  | inl e ↦ ap p ((==_iff j n).0 e) ∙ and-left (p n) (all_below n p) h
  | inr e ↦ all_below_lem n p (and-right (p n) (all_below n p) h) j (ground arith)
]

pub get_or-replicate {ℓ} : (P : ℕ → Type ℓ) (n a j : ℕ) → P a → P 0 → P (get_or (replicate n a) j 0)
get_or-replicate P zero a j pa pz = pz
get_or-replicate P (suc n) a zero pa pz = pa
get_or-replicate P (suc n) a (suc j) pa pz = get_or-replicate P n a j pa pz
