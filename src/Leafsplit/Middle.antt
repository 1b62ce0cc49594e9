-- ===== src/Leafsplit/Middle.antt =====
-- The search for the place where a leaf is split.
use mathlib.Core.Bool.{true≢false}
use incll.Base.{
  ℕ, zero, suc, ◌+◌, ◌-◌, ◌≤◌, ◌<◌, ◌≡◌, ◌≢◌, inl, inr, sym, ap, ◌∙◌, arith, true, false, not, ◌&&◌,
  ltb, leb, ◌==◌, Bool-cases, ==_iff, le_or_lt,
}
use incll.Leafsplit.{search_mid, find_mid}

-- What the two tests of a round say
found-right : (r size k a : ℕ) → (leb r size && not (k == a)) ≡ true → (r ≤ size) × (k ≢ a)
found-right r size k a e = ground (arith, e)

not_found-right : (r size k a : ℕ) → (leb r size && not (k == a)) ≡ false → r ≤ size → a ≡ k
not_found-right r size k a e h = ground (arith, e, h)

found-left : (l k a : ℕ) → (ltb 0 l && not (k == a)) ≡ true → (0 < l) × (k ≢ a)
found-left l k a e = ground (arith, e)

not_found-left : (l k a : ℕ) → (ltb 0 l && not (k == a)) ≡ false → 0 < l → a ≡ k
not_found-left l k a e h = ground (arith, e, h)

module _ (after : ℕ → ℕ) (size : ℕ) where
  -- A place between two items of different slices
  abbrev pub IsBoundary : ℕ → Type 0
  IsBoundary m = (0 < m) × (m ≤ size) × (after m ≢ after (m - 1))

  module _ (k j : ℕ) (in_range : j ≤ size) (other : after j ≢ k) where
    wider :
        (l r : ℕ)
        → (r ≤ size → after r ≡ k)
        → (0 < l → after (l - 1) ≡ k)
        → ((i : ℕ) → l ≤ i → i < r → i ≤ size → after i ≡ k)
        → (i : ℕ) → l - 1 ≤ i
        → i < r + 1
        → i ≤ size
        → after i ≡ k
    wider l r hr hl same i a b c = elim (le_or_lt i l) [
      | inl lt ↦ let e : l - 1 ≡ i = omega (arith, lt) in ap after (sym e) ∙ hl (omega (arith, lt))
      | inr le ↦ elim (le_or_lt i r) [
        | inl lt ↦ same i le lt c
        | inr ge ↦ let e : r ≡ i = omega (arith, ge) in ap after (sym e) ∙ hr (omega (arith, e))
      ]
    ]

    search_mid-IsBoundary :
        (fuel l r : ℕ)
        → l < r
        → l ≤ size
        → l ≤ fuel
        → size + 1 ≤ r + fuel
        → ((i : ℕ) → l ≤ i → i < r → i ≤ size → after i ≡ k)
        → IsBoundary (search_mid after size k fuel l r)
    unfolding search_mid
    search_mid-IsBoundary zero l r lr ls hl hr same =
        absurd (other (same j (omega arith) (omega arith) in_range))
    search_mid-IsBoundary (suc fuel) l r lr ls hl hr same =
        elim (Bool-cases (leb r size && not (k == after r))) [
          | inl e ↦
              let f = found-right r size k (after r) e in
              rw e (
                omega arith,
                f.0,
                λ q.
                    f.1
                      (sym (same (r - 1) (omega arith) (omega arith) (omega (arith, f.0))) ∙ sym q),
              )
          | inr e ↦ elim (Bool-cases (ltb 0 l && not (k == after (l - 1)))) [
            | inl g ↦
                let f = found-left l k (after (l - 1)) g in
                rw (e, g) (f.0, ls, λ q. f.1 (sym (same l (omega arith) lr ls) ∙ q))
            | inr g ↦
                rw (e, g)
                  (search_mid-IsBoundary fuel (l - 1) (r + 1) (omega arith) (omega arith)
                    (omega arith) (omega arith)
                    (wider l r (not_found-right r size k (after r) e)
                      (not_found-left l k (after (l - 1)) g) same))
          ]
        ]

  -- Where the leaf has an item of another slice than the one in the middle, the search ends within
  -- its rounds at a place between items of different slices, so that no slice is on both sides.
  pub find_mid-IsBoundary :
      (mid j : ℕ)
      → 0 < mid
      → mid ≤ size
      → j ≤ size
      → after j ≢ after mid
      → IsBoundary (find_mid after size mid)
  unfolding find_mid
  find_mid-IsBoundary mid j pos le in_range other =
      elim (Bool-cases (after mid == after (mid - 1))) [
        | inl e ↦ rw e (
            search_mid-IsBoundary (after mid) j in_range other (size + 1) (mid - 1) (mid + 1)
              (omega arith) (omega arith) (omega arith) (omega arith)
              (two_equal mid ((==_iff (after mid) (after (mid - 1))).0 e)))
        | inr e ↦ rw e (pos, le, λ q. true≢false (sym ((==_iff _ _).1 q) ∙ e))
      ]
    where
      two_equal :
          (m : ℕ)
          → after m ≡ after (m - 1)
          → (i : ℕ) → m - 1 ≤ i
          → i < m + 1
          → i ≤ size
          → after i ≡ after m
      two_equal m q i a b c = elim (le_or_lt i m) [
        | inl lt ↦ let e : i ≡ m - 1 = omega (arith, lt) in ap after e ∙ sym q
        | inr ge ↦ let e : i ≡ m = omega (arith, ge) in ap after e
      ]
