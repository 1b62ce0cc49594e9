-- ===== src/Neighbour/Range.antt =====
-- The leaf beside a leaf holds the slices beside its own.
use mathlib.Core.Path.{subst}
use incll.Base.{
  ℕ, zero, suc, ◌+◌, ◌-◌, ◌^◌, ◌≤◌, ◌<◌, ◌≡◌, ◌≢◌, ◌⊎◌, inl, inr, refl, sym, ap, ◌∙◌, arith, true,
  false, ltb, ◌==◌, ==_iff, ==_ne, Bool-cases, if◌then◌else◌, Option, none, some,
}
use incll.Internode.{find_child_idx}
use incll.Descent.{Store}
use incll.Descent.Tree.{lower, above, IsInner, IsTip, IsTree}
use incll.Neighbour.Ends.{find_from_lem, get_max_leaf-IsTip, get_min_leaf-IsTip}
use incll.Neighbour.{get_max_leaf, get_min_leaf, child_before, get_prev_safe, get_next_safe}

module _ (s : Store) (Tip : ℕ → ℕ → ℕ → Type 0) where
  -- The node `c` stands `n` parents below the root of a tree, of which the nodes beside those on
  -- the way up are trees of the heights that they should have; `h` is that of `c`.
  abbrev pub IsPlace : ℕ → ℕ → ℕ → ℕ → ℕ → Type 0
  IsPlace zero h c lo hi = (s.parent c ≡ 0) × (lo ≡ 0) × (hi ≡ 2 ^ 64)
  IsPlace (suc n) h c lo hi =
      (j low high : ℕ) × (s.parent c ≢ 0)
      × (j ≤ (s.inner (s.parent c)).nkeys)
      × ((s.inner (s.parent c)).child j ≡ c)
      × ((q : ℕ) → q < j → (s.inner (s.parent c)).child q ≢ c)
      × (lo ≡ lower s (s.parent c) low j)
      × (hi ≡ above s (s.parent c) high j)
      × IsInner s (s.parent c)
      × ((q : ℕ)
          → q ≤ (s.inner (s.parent c)).nkeys
          → IsTree s Tip h ((s.inner (s.parent c)).child q) (lower s (s.parent c) low q)
              (above s (s.parent c) high q))
      × IsPlace n (suc h) (s.parent c) low high

  idx_of :
      (c j : ℕ)
      → j ≤ (s.inner (s.parent c)).nkeys
      → (s.inner (s.parent c)).child j ≡ c
      → ((q : ℕ) → q < j → (s.inner (s.parent c)).child q ≢ c)
      → find_child_idx c (s.inner (s.parent c)) ≡ some j
  unfolding find_child_idx
  idx_of c j h e other =
      find_from_lem ((s.inner (s.parent c)).child) c ((s.inner (s.parent c)).nkeys + 1) 0 j
        (omega arith) (omega (arith, h)) e (λ q a b. other q b)

  -- A round of each loop at the child `j` of the parent `a`
  abbrev round_up : ℕ → ℕ → ℕ → Option ℕ
  round_up fuel a j =
      if ltb j (s.inner a).nkeys
      then if (s.inner a).child (j + 1) == 0
        then none
        else get_min_leaf s fuel ((s.inner a).child (j + 1))
      else get_next_safe s fuel a

  abbrev round_down : ℕ → ℕ → ℕ → Option ℕ
  round_down fuel a j =
      if child_before s (s.inner a) j == 0
      then get_prev_safe s fuel a
      else get_max_leaf s fuel (child_before s (s.inner a) j)

  get_next_safe-round_up :
      (fuel c j : ℕ)
      → s.parent c ≢ 0
      → find_child_idx c (s.inner (s.parent c)) ≡ some j
      → get_next_safe s (suc fuel) c ≡ round_up fuel (s.parent c) j
  unfolding get_next_safe
  get_next_safe-round_up fuel c j up e = rw (==_ne (s.parent c) 0 up, e) refl

  get_prev_safe-round_down :
      (fuel c j : ℕ)
      → s.parent c ≢ 0
      → find_child_idx c (s.inner (s.parent c)) ≡ some j
      → get_prev_safe s (suc fuel) c ≡ round_down fuel (s.parent c) j
  unfolding get_prev_safe
  get_prev_safe-round_down fuel c j up e = rw (==_ne (s.parent c) 0 up, e) refl

  next_begin : (a low high j : ℕ) → j < (s.inner a).nkeys → lower s a low (j + 1) ≡ above s a high j
  next_begin a low high j l =
      let e : (j + 1 == 0) ≡ false = ground arith in
      let f : (j == (s.inner a).nkeys) ≡ false = ground (arith, l) in
      let g : j + 1 - 1 ≡ j = omega arith in rw (e, f, g) refl

  no_child : (fuel a : ℕ) → round_down fuel a 0 ≡ get_prev_safe s fuel a
  unfolding child_before
  no_child fuel a = refl

  some_child :
      (fuel a j : ℕ)
      → (s.inner a).child j ≢ 0
      → round_down fuel a (suc j) ≡ get_max_leaf s fuel ((s.inner a).child j)
  unfolding child_before
  some_child fuel a j there =
      let e : ltb 0 (suc j) ≡ true = ground arith in
      let g : suc j - 1 ≡ j = omega arith in rw (e, g, ==_ne _ 0 there) refl

  prev_end :
      (a low high j : ℕ) → suc j ≤ (s.inner a).nkeys → above s a high j ≡ lower s a low (suc j)
  prev_end a low high j l =
      let e : (suc j == 0) ≡ false = ground arith in
      let f : (j == (s.inner a).nkeys) ≡ false = ground (arith, l) in
      let g : suc j - 1 ≡ j = omega arith in rw (e, f, g) refl

  -- From a leaf whose slices end below `hi`, with fuel for the way up and down, `get_next_safe`
  -- returns the leaf whose slices begin at `hi`, or null if there is nothing from `hi` on.
  get_next_safe_lem :
      (n h fuel c lo hi : ℕ)
      → n + h + n < fuel
      → IsPlace n h c lo hi
      → ((leaf high : ℕ) × (get_next_safe s fuel c ≡ some leaf) × IsTip s Tip leaf hi high)
        ⊎ ((get_next_safe s fuel c ≡ some 0) × (hi ≡ 2 ^ 64))
  unfolding get_next_safe
  get_next_safe_lem n h zero c lo hi f p = absurd (omega (arith, f))
  get_next_safe_lem zero h (suc fuel) c lo hi f (root, low, high) =
      let e : (s.parent c == 0) ≡ true = (==_iff _ 0).1 root in inr (rw e refl, high)
  get_next_safe_lem (suc n) h (suc fuel) c lo hi f
        (j, low, high, up, inside, child, other, el, eh, inner, trees, rest) =
      let a : ℕ = s.parent c in
      let top : ℕ = (s.inner a).nkeys in
      let r = get_next_safe-round_up fuel c j up (idx_of c j inside child other) in
      elim (Bool-cases (ltb j top)) [
        | inl e ↦
            let less : j < top = ground (arith, e) in
            let l =
              get_min_leaf-IsTip s Tip h fuel ((s.inner a).child (j + 1)) (lower s a low (j + 1))
                (above s a high (j + 1)) (omega (arith, f)) (trees (j + 1) (omega (arith, less))) in
            let there : ((s.inner a).child (j + 1) == 0) ≡ false =
              ==_ne _ 0 (inner.children (j + 1) (omega (arith, less))) in
            inl (
              l.0,
              l.1,
              r ∙ rw (e, there) (l.2),
              subst (λ x. IsTip s Tip (l.0) x (l.1)) (next_begin a low high j less ∙ sym eh) (l.3),
            )
        | inr e ↦
            let last : j ≡ top = ground (arith, e, inside) in
            let same : hi ≡ high =
              eh ∙ ap (λ b. if b then high else (s.inner a).ikey0 j) ((==_iff j top).1 last) in
            let go : get_next_safe s (suc fuel) c ≡ get_next_safe s fuel a = r ∙ rw e refl in
            elim (get_next_safe_lem n (suc h) fuel a low high (omega (arith, f)) rest) [
              | inl (leaf, end, is, tip) ↦
                  inl (leaf, end, go ∙ is, subst (λ x. IsTip s Tip leaf x end) (sym same) tip)
              | inr (is, whole) ↦ inr (go ∙ is, same ∙ whole)
            ]
      ]

  -- From a leaf whose slices begin at `lo`, with fuel for the way up and down, `get_prev_safe`
  -- returns the leaf whose slices end below `lo`, or null if there is nothing below `lo`.
  get_prev_safe_lem :
      (n h fuel c lo hi : ℕ)
      → n + h + n < fuel
      → IsPlace n h c lo hi
      → ((leaf low : ℕ) × (get_prev_safe s fuel c ≡ some leaf) × IsTip s Tip leaf low lo)
        ⊎ ((get_prev_safe s fuel c ≡ some 0) × (lo ≡ 0))
  unfolding get_prev_safe
  get_prev_safe_lem n h zero c lo hi f p = absurd (omega (arith, f))
  get_prev_safe_lem zero h (suc fuel) c lo hi f (root, low, high) =
      let e : (s.parent c == 0) ≡ true = (==_iff _ 0).1 root in inr (rw e refl, low)
  get_prev_safe_lem (suc n) h (suc fuel) c lo hi f
        (zero, low, high, up, inside, child, other, el, eh, inner, trees, rest) =
      let a : ℕ = s.parent c in
      let go : get_prev_safe s (suc fuel) c ≡ get_prev_safe s fuel a =
        get_prev_safe-round_down fuel c 0 up (idx_of c 0 inside child other) ∙ no_child fuel a in
      elim (get_prev_safe_lem n (suc h) fuel a low high (omega (arith, f)) rest) [
        | inl (leaf, begin, is, tip) ↦
            inl (leaf, begin, go ∙ is, subst (λ x. IsTip s Tip leaf begin x) (sym el) tip)
        | inr (is, whole) ↦ inr (go ∙ is, el ∙ whole)
      ]
  get_prev_safe_lem (suc n) h (suc fuel) c lo hi f
        (suc j, low, high, up, inside, child, other, el, eh, inner, trees, rest) =
      let a : ℕ = s.parent c in
      let l =
        get_max_leaf-IsTip s Tip h fuel ((s.inner a).child j) (lower s a low j) (above s a high j)
          (omega (arith, f)) (trees j (omega (arith, inside))) in
      inl (
        l.0,
        l.1,
        get_prev_safe-round_down fuel c (suc j) up (idx_of c (suc j) inside child other)
            ∙ some_child fuel a j (inner.children j (omega (arith, inside)))
            ∙ l.2,
        subst (λ x. IsTip s Tip (l.0) (l.1) x) (prev_end a low high j inside ∙ sym el) (l.3),
      )

  -- Let the leaf `c` hold the slices from `lo` on below `hi`, `n` parents below the root of a layer,
  -- where the nodes beside the way up are trees that hold the slices told by the keys above. With
  -- more fuel than `2 n`, `get_next_safe` returns the leaf whose slices begin at `hi`, or null if
  -- `hi` is the end, and `get_prev_safe` the one whose slices end below `lo`, or null if `lo` is 0.
  pub get_next_safe-get_prev_safe :
      (n fuel c lo hi : ℕ)
      → n + n < fuel
      → IsPlace n 0 c lo hi
      → (((leaf high : ℕ) × (get_next_safe s fuel c ≡ some leaf) × IsTip s Tip leaf hi high)
          ⊎ ((get_next_safe s fuel c ≡ some 0) × (hi ≡ 2 ^ 64)))
        × (((leaf low : ℕ) × (get_prev_safe s fuel c ≡ some leaf) × IsTip s Tip leaf low lo)
            ⊎ ((get_prev_safe s fuel c ≡ some 0) × (lo ≡ 0)))
  get_next_safe-get_prev_safe n fuel c lo hi f p = (
    get_next_safe_lem n 0 fuel c lo hi (omega (arith, f)) p,
    get_prev_safe_lem n 0 fuel c lo hi (omega (arith, f)) p,
  )
