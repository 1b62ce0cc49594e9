-- ===== src/Neighbour/Ends.antt =====
-- The index of a child, and the first and the last leaf below a node.
use mathlib.Core.Path.{subst}
use incll.Base.{
  ℕ, zero, suc, ◌+◌, ◌≤◌, ◌<◌, ◌≡◌, ◌≢◌, inl, inr, refl, ap, ◌∙◌, arith, true, false, ◌==◌, ==_iff,
  ==_ne, ==_refl, Bool-cases, if◌then◌else◌, some,
}
use incll.Internode.{find_from}
use incll.Descent.{Store}
use incll.Descent.Tree.{lower, above, IsTip, IsTree}
use incll.Neighbour.{get_max_leaf, get_min_leaf}

-- The search for a child finds it, where no earlier one is the same.
pub find_from_lem :
    (child : ℕ → ℕ) (c n i j : ℕ)
    → i ≤ j
    → j < i + n
    → child j ≡ c
    → ((q : ℕ) → i ≤ q → q < j → child q ≢ c)
    → find_from child c i n ≡ some j
unfolding find_from
find_from_lem child c zero i j h l e other = absurd (omega (arith, h, l))
find_from_lem child c (suc n) i j h l e other = elim (Bool-cases (i == j)) [
  | inl b ↦
      let at : i ≡ j = (==_iff i j).0 b in
      let here : (child i == c) ≡ true = (==_iff (child i) c).1 (ap child at ∙ e) in
      rw here (ap some at)
  | inr b ↦
      let lt : i < j = ground (arith, b, h) in
      let no_match : (child i == c) ≡ false = ==_ne (child i) c (other i (omega arith) lt) in
      rw no_match (
        find_from_lem child c n (i + 1) j (omega (arith, lt)) (omega (arith, l)) e
          (λ q a. other q (omega (arith, a))))
]

module _ (s : Store) (Tip : ℕ → ℕ → ℕ → Type 0) where
  pub get_max_leaf-IsTip :
      (h fuel a lo hi : ℕ)
      → h < fuel
      → IsTree s Tip h a lo hi
      → (leaf low : ℕ) × (get_max_leaf s fuel a ≡ some leaf) × IsTip s Tip leaf low hi
  unfolding get_max_leaf
  get_max_leaf-IsTip h zero a lo hi f tree = absurd (omega (arith, f))
  get_max_leaf-IsTip zero (suc fuel) a lo hi f tip = (a, lo, rw (tip.kind) refl, tip)
  get_max_leaf-IsTip (suc h) (suc fuel) a lo hi f (inl tip) = (a, lo, rw (tip.kind) refl, tip)
  get_max_leaf-IsTip (suc h) (suc fuel) a lo hi f (inr (inner, children)) =
      let n : ℕ = (s.inner a).nkeys in
      let r =
        get_max_leaf-IsTip h fuel ((s.inner a).child n) (lower s a lo n) (above s a hi n)
          (omega (arith, f)) (children n (omega arith)) in
      let last : above s a hi n ≡ hi =
        ap (λ b. if b then hi else (s.inner a).ikey0 n) (==_refl n) in
      let there : ((s.inner a).child n == 0) ≡ false = ==_ne _ 0 (inner.children n (omega arith)) in
      (r.0, r.1, rw (inner.kind, there) (r.2), subst (IsTip s Tip r.0 r.1) last r.3)

  pub get_min_leaf-IsTip :
      (h fuel a lo hi : ℕ)
      → h < fuel
      → IsTree s Tip h a lo hi
      → (leaf high : ℕ) × (get_min_leaf s fuel a ≡ some leaf) × IsTip s Tip leaf lo high
  unfolding get_min_leaf
  get_min_leaf-IsTip h zero a lo hi f tree = absurd (omega (arith, f))
  get_min_leaf-IsTip zero (suc fuel) a lo hi f tip = (a, hi, rw (tip.kind) refl, tip)
  get_min_leaf-IsTip (suc h) (suc fuel) a lo hi f (inl tip) = (a, hi, rw (tip.kind) refl, tip)
  get_min_leaf-IsTip (suc h) (suc fuel) a lo hi f (inr (inner, children)) =
      let r =
        get_min_leaf-IsTip h fuel ((s.inner a).child 0) lo (above s a hi 0) (omega (arith, f))
          (children 0 (omega arith)) in
      let there : ((s.inner a).child 0 == 0) ≡ false = ==_ne _ 0 (inner.children 0 (omega arith)) in
      (r.0, r.1, rw (inner.kind, there) (r.2), r.3)
