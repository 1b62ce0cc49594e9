-- ===== src/Neighbour/Examples.antt =====
-- The two leaves of one internode, at the addresses 2 and 3.
use incll.Base.{ℕ, zero, suc, ◌+◌, ◌^◌, ◌≤◌, ◌≡◌, ◌⊎◌, refl, arith, ◌==◌, if◌then◌else◌, some}
use incll.Nodeversion
use incll.Internode.{find_child_idx, find_from}
use incll.Descent.Tree.{IsTip, IsTree}
use incll.Descent.Examples.{store, Half, is_inner}
use incll.Neighbour.{get_max_leaf, get_min_leaf, child_before, get_prev_safe, get_next_safe}
use incll.Neighbour.Range.{IsPlace, get_next_safe-get_prev_safe}

get_next_safe_test : get_next_safe store 3 2 ≡ some 3
unfolding get_next_safe get_min_leaf find_child_idx find_from Nodeversion.isleaf
get_next_safe_test = refl

get_prev_safe_test : get_prev_safe store 3 3 ≡ some 2
unfolding get_prev_safe get_max_leaf child_before find_child_idx find_from Nodeversion.isleaf
get_prev_safe_test = refl

first_leaf : IsPlace store Half 1 0 2 0 100
unfolding Nodeversion.isleaf
first_leaf = (
  0,
  0,
  2 ^ 64,
  λ e. absurd (omega (arith, e)),
  omega arith,
  refl,
  λ q h e. absurd (omega (arith, h)),
  refl,
  refl,
  is_inner,
  λ q h. trees q h,
  (refl, refl, refl),
)
  where
    trees :
        (q : ℕ)
        → q ≤ 1
        → IsTree store Half 0 (q + 2) (if q == 0 then 0 else 100) (if q == 1 then 2 ^ 64 else 100)
    trees zero h = record {
      clean = refl;
      kind = refl;
      content = (λ e. absurd (omega (arith, e)), λ e. refl);
    }
    trees (suc zero) h = record {
      clean = refl;
      kind = refl;
      content = (λ e. refl, λ e. absurd (omega (arith, e)));
    }
    trees (suc (suc q)) h = absurd (omega (arith, h))

get_next_safe-get_prev_safe_example :
    (((leaf high : ℕ) × (get_next_safe store 3 2 ≡ some leaf) × IsTip store Half leaf 100 high)
      ⊎ ((get_next_safe store 3 2 ≡ some 0) × (◌≡◌ {A = ℕ} 100 (2 ^ 64))))
    × (((leaf low : ℕ) × (get_prev_safe store 3 2 ≡ some leaf) × IsTip store Half leaf low 0)
        ⊎ ((get_prev_safe store 3 2 ≡ some 0) × (◌≡◌ {A = ℕ} 0 0)))
get_next_safe-get_prev_safe_example =
    get_next_safe-get_prev_safe store Half 1 3 2 0 100 (omega arith) first_leaf
