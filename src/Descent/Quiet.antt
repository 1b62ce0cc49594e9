-- ===== src/Descent/Quiet.antt =====
-- The way to the leaf while no other thread writes.
use mathlib.Core.Path.{subst}
use incll.Base.{
  ℕ, zero, suc, ◌+◌, ◌-◌, ◌*◌, ◌^◌, ◌≤◌, ◌<◌, ◌≡◌, ◌≢◌, inl, inr, refl, sym, ap, ◌∙◌, arith, Bool,
  true, false, ◌==◌, ==_ne, if◌then◌else◌,
}
use incll.Bits.Zero.{bit_xor_self}
use incll.Nodeversion
use incll.Ksearch.Bounds.{IsSorted, IsUpper, rank}
use incll.Ksearch.Agree.{key_upper_bound_by_lem}
use incll.Slice.{compare}
use incll.Internode.{Internode}
use incll.Descent.{
  Store, Position, climbing, descending, found, compare_key, upper, stable, advance, run,
}
use incll.Descent.Tree.{IsClean, lower, above, IsInner, IsTip, IsTree, IsBelow}

rank-compare :
    (a b : ℕ)
    → ((rank (compare a b) ≤ 1) → a ≤ b)
      × ((0 < rank (compare a b)) → b ≤ a)
      × ((rank (compare a b) ≡ 0) → a < b)
      × (a < b → rank (compare a b) ≡ 0)
unfolding compare
rank-compare a b = ground arith

IsSorted-compare_key :
    (ikey : ℕ) (n : Internode)
    → ((i j : ℕ) → i < j → j < n.nkeys → n.ikey0 i < n.ikey0 j)
    → IsSorted (λ i. i) (compare_key ikey n) n.nkeys
unfolding compare_key
IsSorted-compare_key ikey n inc i j l h r =
    (rank-compare ikey (n.ikey0 j)).3
      (omega (arith, (rank-compare ikey (n.ikey0 i)).0 r, inc i j l h))

-- The child that the search of a node tells has the slice in its range.
upper-range :
    (s : Store) (a ikey lo hi : ℕ)
    → IsInner s a
    → lo ≤ ikey
    → ikey < hi
    → (upper ikey (s.inner a) ≤ (s.inner a).nkeys)
      × (lower s a lo (upper ikey (s.inner a)) ≤ ikey)
      × (ikey < above s a hi (upper ikey (s.inner a)))
unfolding upper compare_key
upper-range s a ikey lo hi inner low high =
    let n : Internode = s.inner a in
    let u : ℕ = upper ikey n in
    let l =
      key_upper_bound_by_lem (λ i. i) (compare_key ikey n) n.nkeys
        (IsSorted-compare_key ikey n inner.increasing) in
    let up : IsUpper (λ i. i) (compare_key ikey n) n.nkeys u = l.0 in
    (
      up.inside,
      if_both_le (u == 0) lo (n.ikey0 (u - 1)) ikey (λ e. low)
          (λ e.
            let some : 0 < u = ground (arith, e) in
            (rank-compare ikey (n.ikey0 (u - 1))).1 (up.before (u - 1) (omega (arith, some)))),
      if_both_lt (u == n.nkeys) hi (n.ikey0 u) ikey (λ e. high)
          (λ e.
            let less : u < n.nkeys = ground (arith, e, up.inside) in
            (rank-compare ikey (n.ikey0 u)).2 (up.after u (omega arith) less)),
    )
  where
    if_both_le :
        (b : Bool) (x y z : ℕ) → (b ≡ true → x ≤ z) → (b ≡ false → y ≤ z) → (if b then x else y) ≤ z
    if_both_le true x y z f g = f refl
    if_both_le false x y z f g = g refl

    if_both_lt :
        (b : Bool) (x y z : ℕ) → (b ≡ true → z < x) → (b ≡ false → z < y) → z < (if b then x else y)
    if_both_lt true x y z f g = f refl
    if_both_lt false x y z f g = g refl

pub has_changed_self : (v : ℕ) → Nodeversion.has_changed v v ≡ false
unfolding Nodeversion.has_changed
has_changed_self v = rw (bit_xor_self v) refl

module _ (s : Store) (Tip : ℕ → ℕ → ℕ → Type 0) (this ikey : ℕ) where
  abbrev go : ℕ → ℕ → Position → Position
  go t count p = run this ikey (λ i. s) t count p

  found_stays : (count t n v : ℕ) → go t count (found n v) ≡ found n v
  unfolding run
  found_stays zero t n v = refl
  found_stays (suc count) t n v = found_stays count (t + 1) n v

  -- The search ends at a leaf that may hold the slice, with its version.
  abbrev Arrives : ℕ → ℕ → Position → Type 0
  Arrives t count p =
      (n lo hi : ℕ) × (go t count p ≡ found n (s.version n))
      × IsTip s Tip n lo hi
      × (lo ≤ ikey)
      × (ikey < hi)

  at_tip :
      (n lo hi t count : ℕ)
      → IsTip s Tip n lo hi
      → lo ≤ ikey
      → ikey < hi
      → 1 ≤ count
      → Arrives t count (descending n (s.version n))
  unfolding run
  at_tip n lo hi t zero tip l h c = absurd (omega (arith, c))
  at_tip n lo hi t (suc count) tip l h c =
      (n, lo, hi, rw (tip.kind) (found_stays count (t + 1) n (s.version n)), tip, l, h)

  tree-IsClean : (h a lo hi : ℕ) → IsTree s Tip h a lo hi → IsClean (s.version a)
  tree-IsClean zero a lo hi tip = tip.clean
  tree-IsClean (suc h) a lo hi (inl tip) = tip.clean
  tree-IsClean (suc h) a lo hi (inr (inner, children)) = inner.clean

  -- Four steps lead from a node to a child.
  one_level :
      (n t count : ℕ)
      → IsInner s n
      → upper ikey (s.inner n) ≤ (s.inner n).nkeys
      → IsClean (s.version ((s.inner n).child (upper ikey (s.inner n))))
      → go t (suc (suc (suc (suc count)))) (descending n (s.version n))
        ≡ go (t + 1 + 1 + 1 + 1) count (
            descending
              ((s.inner n).child (upper ikey (s.inner n)))
              (s.version ((s.inner n).child (upper ikey (s.inner n)))))
  unfolding run advance stable
  one_level n t count inner le clean =
      let some : ((s.inner n).child (upper ikey (s.inner n)) == 0) ≡ false =
        ==_ne _ 0 (inner.children (upper ikey (s.inner n)) le) in
      rw (inner.kind, some, clean, has_changed_self (s.version n)) refl

  four : (c : ℕ) → 4 ≤ c → c ≡ suc (suc (suc (suc (c - 4))))
  four c h = omega (arith, h)

  descend :
      (h n lo hi t count : ℕ)
      → IsTree s Tip h n lo hi
      → lo ≤ ikey
      → ikey < hi
      → 4 * h + 1 ≤ count
      → Arrives t count (descending n (s.version n))
  descend zero n lo hi t count tip l b c = at_tip n lo hi t count tip l b (omega (arith, c))
  descend (suc h) n lo hi t count (inl tip) l b c =
      at_tip n lo hi t count tip l b (omega (arith, c))
  descend (suc h) n lo hi t count (inr (inner, children)) l b c =
      let kp : ℕ = upper ikey (s.inner n) in
      let r = upper-range s n ikey lo hi inner l b in
      let child : ℕ = (s.inner n).child kp in
      let rest = children kp r.0 in
      let a =
        descend h child (lower s n lo kp) (above s n hi kp) (t + 1 + 1 + 1 + 1) (count - 4) rest r.1
          r.2 (omega (arith, c)) in
      let size : count ≡ suc (suc (suc (suc (count - 4)))) = four count (omega (arith, c)) in
      (
        a.0,
        a.1,
        a.2,
        ap (λ c. go t c (descending n (s.version n))) size
            ∙ one_level n t (count - 4) inner r.0 (tree-IsClean h child _ _ rest)
            ∙ a.3,
        a.4,
        a.5,
        a.6,
      )

  root_step :
      (n t count : ℕ)
      → IsClean (s.version n)
      → Nodeversion.is_root (s.version n) ≡ true
      → go t (suc count) (climbing n) ≡ go (t + 1) count (descending n (s.version n))
  unfolding run advance stable
  root_step n t count clean root = rw (clean, root) refl

  climb_step :
      (n t count : ℕ)
      → IsClean (s.version n)
      → Nodeversion.is_root (s.version n) ≡ false
      → s.parent n ≢ 0
      → go t (suc (suc count)) (climbing n) ≡ go (t + 1 + 1) count (climbing (s.parent n))
  unfolding run advance stable
  climb_step n t count clean other some = rw (clean, other, ==_ne (s.parent n) 0 some) refl

  -- From a node of a layer that no other thread writes to, `n` parents below its root, the search
  -- for a slice ends within `2 n + 4 h + 2` steps, for a tree of at most `h` levels of internodes.
  -- It ends at a leaf which the keys above allow to hold the slice, with that leaf's version.
  pub run-IsTree :
      (n a root h count : ℕ) (t : ℕ)
      → IsBelow s Tip n a root
      → IsTree s Tip h root 0 (2 ^ 64)
      → ikey < 2 ^ 64
      → 2 * n + 4 * h + 2 ≤ count
      → (leaf lo hi : ℕ) × (run this ikey (λ i. s) t count (climbing a)
          ≡ found leaf (s.version leaf))
        × IsTip s Tip leaf lo hi
        × (lo ≤ ikey)
        × (ikey < hi)
  run-IsTree zero a root h zero t b tree small le = absurd (omega (arith, le))
  run-IsTree zero a root h (suc count) t (same, clean, top) tree small le =
      let d =
        descend h a 0 (2 ^ 64) (t + 1) count
          (subst (λ r. IsTree s Tip h r 0 (2 ^ 64)) (sym same) tree) (omega arith) small
          (omega (arith, le)) in
      (d.0, d.1, d.2, root_step a t count clean top ∙ d.3, d.4, d.5, d.6)
  run-IsTree (suc n) a root h zero t b tree small le = absurd (omega (arith, le))
  run-IsTree (suc n) a root h (suc zero) t b tree small le = absurd (omega (arith, le))
  run-IsTree (suc n) a root h (suc (suc count)) t (clean, other, some, rest) tree small le =
      let d =
        run-IsTree n (s.parent a) root h count (t + 1 + 1) rest tree small (omega (arith, le)) in
      (d.0, d.1, d.2, climb_step a t count clean other some ∙ d.3, d.4, d.5, d.6)
