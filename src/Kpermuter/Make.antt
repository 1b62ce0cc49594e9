-- ===== src/Kpermuter/Make.antt =====
-- `make_sorted` at the width of a leaf, by running it for every size and position.
use incll.Base.{
  ℕ, ◌+◌, ◌-◌, ◌^◌, ◌≤◌, ◌<◌, ◌≡◌, min, refl, arith, true, Bool, ◌&&◌, ltb, ◌==◌, ==_iff,
  if◌then◌else◌, all_below, all_below_lem, and-left, and-right,
}
use incll.Kpermuter.{size, elem, make_sorted, make_empty, back}
use incll.Kpermuter.Valid.{IsPermuter}

-- The slots in use come in order, the free ones behind them the other way round.
abbrev pub sorted_elem : ℕ → ℕ → ℕ
sorted_elem n j = if ltb j n then j else 13 - j + n

sorted_test : ℕ → Bool
sorted_test n =
    ((size (make_sorted 14 n) == n) && ltb (make_sorted 14 n) (2 ^ 64))
    && all_below 14 (λ j. elem (make_sorted 14 n) j == sorted_elem n j)

module _ (n : ℕ) (h : n ≤ 14) where
  passes : sorted_test n ≡ true
  unfolding sorted_test size elem make_sorted make_empty
  passes = all_below_lem 15 sorted_test refl n (omega arith)

  new_size : size (make_sorted 14 n) ≡ n
  unfolding sorted_test
  new_size = (==_iff _ _).0 (and-left _ _ (and-left _ _ passes))

  new_elem : (j : ℕ) → j < 14 → elem (make_sorted 14 n) j ≡ sorted_elem n j
  unfolding sorted_test
  new_elem j l = (==_iff _ _).0 (
      all_below_lem 14 (λ k. elem (make_sorted 14 n) k == sorted_elem n k) (and-right _ _ passes) j
        l)

  pub make_sorted-lt : make_sorted 14 n < 2 ^ 64
  unfolding sorted_test
  make_sorted-lt =
      let b : ltb (make_sorted 14 n) (2 ^ 64) ≡ true =
        and-right (size (make_sorted 14 n) == n) (ltb (make_sorted 14 n) (2 ^ 64))
          (and-left _ _ passes) in
      ground arith

  -- For a leaf of 14 slots and at most 14 keys, `make_sorted` has that size and permutes the slots;
  -- the first positions hold the slots in order, and the last position, which is taken next, holds
  -- slot `n`, the first free one, or slot 13 where none is free.
  pub make_sorted_lem :
      IsPermuter 14 (make_sorted 14 n)
      × (size (make_sorted 14 n) ≡ n)
      × ((j : ℕ) → j < n → elem (make_sorted 14 n) j ≡ j)
      × (back 14 (make_sorted 14 n) ≡ min n 13)
  unfolding back
  make_sorted_lem = (
    record {
      word = make_sorted-lt;
      narrow = omega arith;
      sized = omega (arith, new_size);
      bounded = λ j l. ground (arith, new_elem j);
      distinct = λ i j k l e. ground (arith, new_elem i, new_elem j);
    },
    new_size,
    λ j l. ground (arith, new_elem j),
    ground (arith, new_elem 13),
  )
