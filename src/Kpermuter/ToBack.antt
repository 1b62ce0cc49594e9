-- ===== src/Kpermuter/ToBack.antt =====
-- `remove_to_back`, element by element.
use incll.Base.{
  ℕ, ◌+◌, ◌-◌, ◌*◌, ◌^◌, ◌≤◌, ◌<◌, bit_and, ◌≡◌, arith, leb, ◌==◌, if◌then◌else◌, shl64, shr, not64,
  sub64,
}
use incll.Bits.Split.{bit_and-lt}
use incll.Bits.Zero.{zero-bit_or, bit_or-zero}
use incll.Bits.Nibble.{nibble, nibble-bit_or}
use incll.Kpermuter.{size, elem, mask16, remove_to_back}
use incll.Kpermuter.Fields.{
  size-nibble, elem-nibble, nibble-shl64, nibble-shr_fields, nibble-low16, nibble-high16,
  nibble-sub_one,
}

pub mask16-lt : (i : ℕ) → mask16 i < 2 ^ 64
unfolding mask16
mask16-lt i = omega arith

-- Double complement.
not64-not64 : (i : ℕ) → not64 (not64 (mask16 i)) ≡ mask16 i
not64-not64 i = omega (arith, mask16-lt i)

-- The word without the fields above `width`.
cleared : ℕ → ℕ → ℕ
cleared width x_ = bit_and x_ (mask16 width)

module _ (width x_ : ℕ) (small : x_ < 2 ^ 64) (fits : width ≤ 15) where
  nibble-cleared : (k : ℕ) → nibble (cleared width x_) k ≡ (if leb k width then nibble x_ k else 0)
  unfolding cleared
  nibble-cleared k = ground (arith, nibble-low16 k width x_)

  cleared-lt : cleared width x_ < 2 ^ 64
  unfolding cleared
  cleared-lt = bit_and-lt 64 x_ (mask16 width) small (mask16-lt width)

  module _ (i : ℕ) (below : i < width) (held : 0 < size x_) where
    low :
        (k : ℕ)
        → nibble (bit_and (sub64 (cleared width x_) 1) (not64 (not64 (mask16 i)))) k
          ≡ (if k == 0 then nibble x_ 0 - 1 else if leb k i then nibble x_ k else 0)
    low k = rw (not64-not64 i) (
        ground (
          arith,
          size-nibble x_,
          nibble-low16 k i (sub64 (cleared width x_) 1),
          nibble-sub_one k (cleared width x_) cleared-lt,
          nibble-cleared k,
          nibble-cleared 0,
        ))

    down :
        (k : ℕ)
        → k ≤ width
        → nibble (bit_and (shr (cleared width x_) 4) (not64 (mask16 i))) k
          ≡ (if leb k i then 0 else if k == width then 0 else nibble x_ (k + 1))
    down k hk = ground (
      arith,
      nibble-high16 k i (shr (cleared width x_) 4),
      nibble-shr_fields k 1 (cleared width x_),
      nibble-cleared (k + 1),
    )

    up :
        (k : ℕ)
        → k ≤ width
        → nibble (shl64 (bit_and (cleared width x_) (not64 (mask16 i))) (4 * (width - i - 1))) k
          ≡ (if k == width then nibble x_ (i + 1) else 0)
    up k hk = ground (
      arith,
      nibble-shl64 k (width - i - 1) (bit_and (cleared width x_) (not64 (mask16 i))),
      nibble-high16 (k - (width - i - 1)) i (cleared width x_),
      nibble-cleared (k - (width - i - 1)),
    )

    remove_to_back_fields :
        (k : ℕ)
        → k ≤ width
        → nibble (remove_to_back width x_ i) k ≡ (
            if k == 0
            then nibble x_ 0 - 1
            else if leb k i
            then nibble x_ k
            else if k == width
            then nibble x_ (i + 1)
            else nibble x_ (k + 1))
    unfolding remove_to_back cleared
    remove_to_back_fields k hk =
        rw (nibble-bit_or k _ _, nibble-bit_or k _ _, low k, down k hk, up k hk)
          (ground (
            arith,
            zero-bit_or 0,
            zero-bit_or (nibble x_ (i + 1)),
            zero-bit_or (nibble x_ (k + 1)),
            bit_or-zero (nibble x_ (k + 1)),
            bit_or-zero (nibble x_ k),
            bit_or-zero (nibble x_ 0 - 1),
          ))

-- For a word of width at most 15 that is not empty, and a position below the width:
-- `remove_to_back` shrinks the size by one, moves all elements after position `i`, also the free
-- ones, down by one, and puts the element of position `i` last.
pub remove_to_back_lem :
    (width x i : ℕ)
    → width ≤ 15
    → x < 2 ^ 64
    → 0 < size x
    → i < width
    → let q = remove_to_back width x i in
      (size q ≡ size x - 1)
      × (elem q (width - 1) ≡ elem x i)
      × ((j : ℕ) → j < i → elem q j ≡ elem x j)
      × ((j : ℕ) → i ≤ j → j + 1 < width → elem q j ≡ elem x (j + 1))
remove_to_back_lem width x i fits small held below = (
  ground (arith, size-nibble q, size-nibble x, fields 0),
  ground (arith, elem-nibble q (width - 1), elem-nibble x i, fields width),
  λ j h. ground (arith, elem-nibble q j, elem-nibble x j, fields (j + 1)),
  λ j h hs. ground (arith, elem-nibble q j, elem-nibble x (j + 1), fields (j + 1)),
)
  where
    q : ℕ
    q = remove_to_back width x i

    fields :
        (k : ℕ)
        → k ≤ width
        → nibble q k ≡ (
            if k == 0
            then nibble x 0 - 1
            else if leb k i
            then nibble x k
            else if k == width
            then nibble x (i + 1)
            else nibble x (k + 1))
    fields = remove_to_back_fields width x small fits i below held
