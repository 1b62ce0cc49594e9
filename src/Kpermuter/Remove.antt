-- ===== src/Kpermuter/Remove.antt =====
-- `remove`, element by element.
use incll.Base.{
  ℕ, ◌+◌, ◌-◌, ◌*◌, ◌^◌, ◌≤◌, ◌<◌, bit_and, ◌≡◌, arith, ltb, leb, ◌==◌, ◌∙◌, inl, inr, Bool-cases,
  ◌&&◌, if◌then◌else◌, shl64, shr, not64, sub64,
}
use incll.Bits.Zero.{zero-bit_or, bit_or-zero}
use incll.Bits.Nibble.{
  nibble, nibble-lt, nibble-bit_or, nibble-bit_and, nibble_above, nibble_complement,
}
use incll.Kpermuter.{size, elem, mask16, remove}
use incll.Kpermuter.Fields.{
  size-nibble, elem-nibble, nibble-shl64, nibble-shr_fields, nibble-sub_one, and_select, and_drop,
  nibble-mask16,
}

-- The mask of the fields `i + 1` to `s`.
abbrev rot_mask : ℕ → ℕ → ℕ
rot_mask s i = shl64 (mask16 (s - i - 1)) (4 * (i + 1))

module _ (s i : ℕ) (below : i < s) (fits : s ≤ 15) where
  nibble-rot_mask : (k : ℕ) → nibble (rot_mask s i) k ≡ (if leb (i + 1) k && leb k s then 15 else 0)
  nibble-rot_mask k = ground (
    arith,
    nibble_above 16 k (rot_mask s i) (omega arith),
    nibble-shl64 k (i + 1) (mask16 (s - i - 1)),
    nibble-mask16 (k - (i + 1)) (s - i - 1),
  )

  nibble-rotated :
      (k x : ℕ)
      → nibble (bit_and x (rot_mask s i)) k ≡ (if leb (i + 1) k && leb k s then nibble x k else 0)
  nibble-rotated k x =
      rw (nibble-bit_and k x (rot_mask s i))
        (and_select _ _ (leb (i + 1) k && leb k s) (nibble-lt k x) (nibble-rot_mask k))

  nibble-unrotated :
      (k x : ℕ)
      → k < 16
      → nibble (bit_and x (not64 (rot_mask s i))) k
        ≡ (if leb (i + 1) k && leb k s then 0 else nibble x k)
  nibble-unrotated k x hk = rw (nibble-bit_and k x (not64 (rot_mask s i))) (
      and_drop _ _ (leb (i + 1) k && leb k s) (nibble-lt k x) (
        nibble_complement 16 k (rot_mask s i) (omega arith) hk ∙ ground (arith, nibble-rot_mask k)))

module _ (x i : ℕ) (small : x < 2 ^ 64) (below : i < size x) (fits : size x ≤ 15) where
  down :
      (k : ℕ)
      → k < 16
      → nibble (bit_and (shr (bit_and x (rot_mask (size x) i)) 4) (rot_mask (size x) i)) k
        ≡ (if leb (i + 1) k && ltb k (size x) then nibble x (k + 1) else 0)
  down k hk = ground (
    arith,
    nibble-rotated (size x) i below fits k (shr (bit_and x (rot_mask (size x) i)) 4),
    nibble-shr_fields k 1 (bit_and x (rot_mask (size x) i)),
    nibble-rotated (size x) i below fits (k + 1) x,
  )

  up :
      (k : ℕ)
      → k < 16
      → nibble
          (bit_and
            (shl64 (bit_and x (rot_mask (size x) i)) (4 * (size x - i - 1)))
            (rot_mask (size x) i))
          k
        ≡ (if k == size x then nibble x (i + 1) else 0)
  up k hk = ground (
    arith,
    nibble-rotated (size x) i below fits k
        (shl64 (bit_and x (rot_mask (size x) i)) (4 * (size x - i - 1))),
    nibble-shl64 k (size x - i - 1) (bit_and x (rot_mask (size x) i)),
    nibble-rotated (size x) i below fits (k - (size x - i - 1)) x,
  )

  -- The fields of the new word.
  remove_fields :
      (width k : ℕ)
      → k < 16
      → nibble (remove width x i) k ≡ (
          if k == 0
          then nibble x 0 - 1
          else if leb (i + 1) k && ltb k (size x)
          then nibble x (k + 1)
          else if k == size x
          then nibble x (i + 1)
          else nibble x k)
  unfolding remove
  remove_fields width k hk = elim (Bool-cases (size x == i + 1)) [
    | inl e ↦ rw e (ground (arith, size-nibble x, nibble-sub_one k x))
    | inr e ↦
        rw
          (
            e,
            nibble-bit_or k _ _,
            nibble-bit_or k _ _,
            nibble-unrotated (size x) i below fits k (sub64 x 1) hk,
            down k hk,
            up k hk,
          )
          (ground (
            arith,
            size-nibble x,
            nibble-sub_one k x,
            zero-bit_or 0,
            zero-bit_or (nibble x (i + 1)),
            zero-bit_or (nibble x (k + 1)),
            bit_or-zero (nibble x (k + 1)),
            bit_or-zero (nibble x k),
            bit_or-zero (nibble x 0 - 1),
          ))
  ]

-- For a position in use: `remove` shrinks the size by one, moves the elements after position `i`
-- down by one and the element of position `i` to the first free position; the others stay.
pub remove_lem :
    (width x i : ℕ)
    → x < 2 ^ 64
    → size x ≤ 15
    → i < size x
    → let q = remove width x i in
      (size q ≡ size x - 1)
      × (elem q (size q) ≡ elem x i)
      × ((j : ℕ) → j < i → elem q j ≡ elem x j)
      × ((j : ℕ) → i ≤ j → j < size q → elem q j ≡ elem x (j + 1))
      × ((j : ℕ) → size x ≤ j → j < 15 → elem q j ≡ elem x j)
remove_lem width x i small fits below = (
  new_size,
  ground (arith, new_size, size-nibble x, elem-nibble q (size q), elem-nibble x i, fields (size x)),
  λ j h. ground (arith, elem-nibble q j, elem-nibble x j, fields (j + 1)),
  λ j h hs. ground (arith, new_size, elem-nibble q j, elem-nibble x (j + 1), fields (j + 1)),
  λ j h hs. ground (arith, elem-nibble q j, elem-nibble x j, fields (j + 1)),
)
  where
    q : ℕ
    q = remove width x i

    fields :
        (k : ℕ)
        → k < 16
        → nibble q k ≡ (
            if k == 0
            then nibble x 0 - 1
            else if leb (i + 1) k && ltb k (size x)
            then nibble x (k + 1)
            else if k == size x
            then nibble x (i + 1)
            else nibble x k)
    fields = remove_fields x i small below fits width

    new_size : size q ≡ size x - 1
    new_size = ground (arith, size-nibble q, size-nibble x, fields 0)
