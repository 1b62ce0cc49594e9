-- ===== src/Lookup/Slots.antt =====
-- The search for a key in a leaf finds the slot that the key fits.
use incll.Base.{ℕ, ◌≤◌, ◌<◌, ◌≡◌, ◌⊎◌, inl, inr, refl, sym, ap, ◌∙◌, arith, none, some}
use incll.Kpermuter
use incll.Ksearch.Bounds.{IsSorted, IsLower, rank}
use incll.Ksearch.Agree.{key_lower_bound_by_lem}
use incll.Slice.{compare}
use incll.Key.{Key, compare_ikey}
use incll.Leaf.{Leaf}
use incll.Lookup.{compare_key, lower}
use incll.Lookup.Layer.{IsIncreasing}

module _ (k : Key) where
  pub compare_ikey-null :
      (ikey keylenx : ℕ)
      → rank (compare_ikey k ikey keylenx) ≡ 1
      → (k.ikey0 ≡ ikey) × (((8 < k.len) × (8 < keylenx)) ⊎ ((k.len ≤ 8) × (k.len ≡ keylenx)))
  unfolding compare_ikey compare
  compare_ikey-null ikey keylenx = ground arith

  pub null-compare_ikey :
      (ikey keylenx : ℕ)
      → k.ikey0 ≡ ikey
      → ((8 < k.len) × (8 < keylenx)) ⊎ ((k.len ≤ 8) × (k.len ≡ keylenx))
      → rank (compare_ikey k ikey keylenx) ≡ 1
  unfolding compare_ikey compare
  null-compare_ikey ikey keylenx = ground arith

  compare_ikey_mono :
      (i1 l1 i2 l2 : ℕ)
      → (i1 < i2) ⊎ ((i1 ≡ i2) × (l1 ≤ 8) × (l1 < l2))
      → rank (compare_ikey k i1 l1) ≤ 1
      → rank (compare_ikey k i2 l2) ≡ 0
  unfolding compare_ikey compare
  compare_ikey_mono i1 l1 i2 l2 = ground arith

  module _ (n : Leaf) (increasing : IsIncreasing n) where
    abbrev size : ℕ
    size = Kpermuter.size n.permutation

    abbrev slot : ℕ → ℕ
    slot i = Kpermuter.elem n.permutation i

    -- The slot of the place `i` has the key.
    abbrev Equal : ℕ → Type 0
    Equal p = rank (compare_key k n p) ≡ 1

    sorted : IsSorted slot (compare_key k n) size
    unfolding compare_key
    sorted i j l h r = compare_ikey_mono _ _ _ _ (increasing i j l h (slot i) (slot j) refl refl) r

    IsLower-lower : IsLower slot (compare_key k n) size (lower k n)
    unfolding lower
    IsLower-lower = (key_lower_bound_by_lem slot (compare_key k n) size sorted).0

    -- The search finds the slot with the key, if there is one.
    pub lower_cases :
        ((i p : ℕ) × (i < size)
          × (p ≡ slot i)
          × (rank (compare_key k n p) ≡ 1)
          × ((lower k n).p ≡ some p))
        ⊎ (((i p : ℕ) → i < size → p ≡ slot i → rank (compare_key k n p) ≡ 1 → ⊥)
            × ((lower k n).p ≡ none))
    lower_cases =
        let l = IsLower-lower in
        let i : ℕ = (lower k n).i in
        elim (l.here) [
          | inl (h, e, f) ↦ inl (i, slot i, h, refl, e, f)
          | inr (after, f) ↦
              let never : (j p : ℕ) → j < size → p ≡ slot j → rank (compare_key k n p) ≡ 1 → ⊥ =
                λ j p h e r.
                  let r2 : rank (compare_key k n (slot j)) ≡ 1 =
                    ap (λ q. rank (compare_key k n q)) (sym e) ∙ r in
                  let at : j ≡ i → rank (compare_key k n (slot j)) ≡ 0 = λ s.
                    ap (λ q. rank (compare_key k n (slot q))) s ∙ after (omega (arith, s, h)) in
                  ground (arith, r2, at, l.before j, l.after j, h) in
              inr (never, f)
        ]
