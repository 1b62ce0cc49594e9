-- ===== src/Kpermuter.antt =====
-- kpermuter.hh: a permutation of up to 15 slots in one 64-bit word. The lowest 4 bits hold the
-- size, and element `i` is the 4-bit field `i + 1`. The storage is that of `width > 7`; the
-- pointer to the object is replaced by its word `x_`, and a method that changes the word returns
-- the new one.
pub mod Fields
pub mod Insert
pub mod Remove
pub mod ToBack
pub mod Valid
pub mod Make
pub mod Examples
use incll.Base.{
  ℕ, ◌+◌, ◌-◌, ◌*◌, bit_and, bit_or, bit_xor, shr, shl64, add64, sub64, not64, if◌then◌else◌, ◌==◌,
}

-- `sized_kpermuter_info<2>`
abbrev pub initial_value : ℕ
initial_value = 0x0123456789ABCDE0

abbrev pub full_value : ℕ
full_value = 0xEDCBA98765432100

abbrev pub max_width : ℕ
max_width = 15

unfoldable pub size : ℕ → ℕ
size x = bit_and x 15

-- `operator[]`
unfoldable pub elem : ℕ → ℕ → ℕ
elem x i = bit_and (shr x (4 * i + 4)) 15

unfoldable pub value_from : ℕ → ℕ → ℕ
value_from x i = shr x (4 * (i + 1))

unfoldable pub set_size : ℕ → ℕ → ℕ
set_size x n = bit_or (bit_and x (not64 15)) n

-- `((value_type) 16 << (i << 2)) - 1`
unfoldable pub mask16 : ℕ → ℕ
mask16 i = sub64 (shl64 16 (4 * i)) 1

-- `((value_type) 256 << (i << 2)) - 1`
unfoldable pub mask256 : ℕ → ℕ
mask256 i = sub64 (shl64 256 (4 * i)) 1

module _ (width : ℕ) where
  unfoldable pub make_empty : ℕ
  make_empty = bit_and (shr initial_value (4 * (max_width - width))) (not64 15)

  unfoldable pub make_sorted : ℕ → ℕ
  make_sorted n =
      let mask = sub64 (if n == width then 0 else shl64 16 (4 * n)) 1 in
      bit_or (bit_or (shl64 make_empty (4 * n)) (bit_and full_value mask)) n

  unfoldable pub back : ℕ → ℕ
  back x = elem x (width - 1)

  unfoldable pub insert_from_back : ℕ → ℕ → ℕ × ℕ
  insert_from_back x i =
      let value = back x in
      (
        bit_or (bit_or (bit_and (add64 x 1) (mask16 i)) (shl64 value (4 * i + 4)))
            (bit_and (shl64 x 4) (not64 (mask256 i))),
        value,
      )

  unfoldable pub insert_selected : ℕ → ℕ → ℕ → ℕ
  insert_selected x di si =
      let value = elem x si in
      let mask = mask256 si in
      bit_or
        (bit_or (bit_or (bit_and (add64 x 1) (mask16 di)) (shl64 value (4 * di + 4)))
          (bit_and (bit_and (shl64 x 4) mask) (not64 (mask256 di))))
        (bit_and x (not64 mask))

  unfoldable pub remove : ℕ → ℕ → ℕ
  remove x i =
      if size x == i + 1
      then sub64 x 1
      else (let rot_amount = 4 * (size x - i - 1) in
          let rot_mask = shl64 (mask16 (size x - i - 1)) (4 * (i + 1)) in
          bit_or
            (bit_or (bit_and (sub64 x 1) (not64 rot_mask))
              (bit_and (shr (bit_and x rot_mask) 4) rot_mask))
            (bit_and (shl64 (bit_and x rot_mask) rot_amount) rot_mask))

  unfoldable pub remove_to_back : ℕ → ℕ → ℕ
  remove_to_back x_ i =
      let mask = not64 (mask16 i) in
      let x = bit_and x_ (mask16 width) in
      bit_or (bit_or (bit_and (sub64 x 1) (not64 mask)) (bit_and (shr x 4) mask))
        (shl64 (bit_and x mask) (4 * (width - i - 1)))

  unfoldable pub rotate : ℕ → ℕ → ℕ → ℕ
  rotate x_ i j =
      let mask = sub64 (if i == width then 0 else shl64 16 (4 * i)) 1 in
      let x = bit_and x_ (mask16 width) in
      bit_or (bit_or (bit_and x mask) (bit_and (shr x (4 * (j - i))) (not64 mask)))
        (shl64 (bit_and x (not64 mask)) (4 * (width - j)))

unfoldable pub exchange : ℕ → ℕ → ℕ → ℕ
exchange x i j =
    let diff = bit_and (bit_xor (shr x (4 * i)) (shr x (4 * j))) 240 in
    bit_xor x (bit_or (shl64 diff (4 * i)) (shl64 diff (4 * j)))
