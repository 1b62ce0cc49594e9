-- ===== src/Kpermuter/Insert.antt =====
-- `insert_from_back`, element by element.
use incll.Base.{
  ℕ, ◌+◌, ◌-◌, ◌*◌, ◌^◌, ◌≤◌, ◌<◌, bit_and, ◌≡◌, refl, arith, ltb, ◌==◌, if◌then◌else◌, shl64,
  not64, add64,
}
use incll.Bits.Zero.{zero-bit_or, bit_or-zero}
use incll.Bits.Nibble.{nibble, nibble-lt, nibble-bit_or}
use incll.Kpermuter.{size, elem, back, mask16, mask256, insert_from_back}
use incll.Kpermuter.Fields.{
  size-nibble, elem-nibble, nibble_small, nibble-shl64, nibble-low16, nibble-high256,
  nibble-add_one,
}

back-lt : (width x : ℕ) → back width x < 16
unfolding back
back-lt width x = rw (elem-nibble x (width - 1)) (nibble-lt (width - 1 + 1) x)

module _ (x i : ℕ) (small : x < 2 ^ 64) (room : size x < 15) (below : i < 15) where
  low :
      (k : ℕ)
      → nibble (bit_and (add64 x 1) (mask16 i)) k
        ≡ (if ltb k (i + 1) then (if k == 0 then nibble x 0 + 1 else nibble x k) else 0)
  low k = ground (arith, size-nibble x, nibble-low16 k i (add64 x 1), nibble-add_one k x)

  slot :
      (v k : ℕ) → v < 16 → k < 16 → nibble (shl64 v (4 * i + 4)) k ≡ (if k == i + 1 then v else 0)
  slot v k hv hk =
      let e : 4 * i + 4 ≡ 4 * (i + 1) = omega arith in
      rw e (ground (arith, nibble-shl64 k (i + 1) v, nibble_small (k - (i + 1)) v))

  high :
      (k : ℕ)
      → k < 16
      → nibble (bit_and (shl64 x 4) (not64 (mask256 i))) k
        ≡ (if ltb k (i + 2) then 0 else nibble x (k - 1))
  high k hk = ground (arith, nibble-high256 k i (shl64 x 4), nibble-shl64 k 1 x)

  -- The fields of the new word.
  insert_fields :
      (width k : ℕ)
      → k < 16
      → nibble (insert_from_back width x i).0 k ≡ (
          if k == 0
          then nibble x 0 + 1
          else if ltb k (i + 1)
          then nibble x k
          else if k == i + 1
          then back width x
          else nibble x (k - 1))
  unfolding insert_from_back
  insert_fields width k hk =
      rw
        (
          nibble-bit_or k _ _,
          nibble-bit_or k _ _,
          low k,
          slot (back width x) k (back-lt width x) hk,
          high k hk,
        )
        (ground (
          arith,
          zero-bit_or 0,
          zero-bit_or (nibble x (k - 1)),
          zero-bit_or (back width x),
          bit_or-zero (back width x),
          bit_or-zero (nibble x k),
          bit_or-zero (nibble x 0 + 1),
        ))

-- For a word of width at most 15 with room, and a position below the width: `insert_from_back`
-- returns the last element and puts it at position `i`; the size grows by one, the elements before
-- `i` stay, and those from `i` on move up by one.
pub insert_from_back_lem :
    (width x i : ℕ)
    → width ≤ 15
    → x < 2 ^ 64
    → i < width
    → size x < width
    → let (q, v) = insert_from_back width x i in
      (v ≡ elem x (width - 1))
      × (size q ≡ size x + 1)
      × (elem q i ≡ v)
      × ((j : ℕ) → j < i → elem q j ≡ elem x j)
      × ((j : ℕ) → i < j → j < width → elem q j ≡ elem x (j - 1))
insert_from_back_lem width x i fits small below room = (
  unfold insert_from_back back in refl,
  ground (arith, size-nibble (insert_from_back width x i).0, size-nibble x, fields 0),
  ground (arith, elem-nibble (insert_from_back width x i).0 i, fields (i + 1), returned),
  λ j h.
      ground (arith, elem-nibble (insert_from_back width x i).0 j, elem-nibble x j, fields (j + 1)),
  λ j h hw.
      ground (
        arith,
        elem-nibble (insert_from_back width x i).0 j,
        elem-nibble x (j - 1),
        fields (j + 1),
      ),
)
  where
    fields :
        (k : ℕ)
        → k < 16
        → nibble (insert_from_back width x i).0 k ≡ (
            if k == 0
            then nibble x 0 + 1
            else if ltb k (i + 1)
            then nibble x k
            else if k == i + 1
            then back width x
            else nibble x (k - 1))
    fields = insert_fields x i small (omega arith) (omega arith) width

    returned : (insert_from_back width x i).1 ≡ back width x
    returned = unfold insert_from_back in refl
