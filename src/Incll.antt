-- ===== src/Incll.antt =====
-- masstree_struct.hh, `leaf<P>::incll_lv_`: one 64-bit word that logs a value of the leaf inside
-- the value's own cache line. Bits 0-2 hold the index of the slot in its line, bits 3-55 the
-- value, bits 56-62 the low 7 bits of the epoch, bit 63 a flag. A method that changes `data_`
-- returns the new word; `globalepoch` is an argument, and `lv` is the leaf's array of values.
pub mod Laws
pub mod Examples
use incll.Base.{ℕ, ◌+◌, bit_and, bit_or, shr, shl64, not64, Bool, not, ◌==◌, List, set}

abbrev pub idx_mask : ℕ
idx_mask = 7

abbrev pub not_logged_bit : ℕ
not_logged_bit = 0x8000000000000000

abbrev pub lv_mask : ℕ
lv_mask = 0x00FFFFFFFFFFFFF8

abbrev pub lv_idx_mask : ℕ
lv_idx_mask = 0x00FFFFFFFFFFFFFF

abbrev pub le_mask : ℕ
le_mask = 0x7F00000000000000

abbrev pub ge_mask : ℕ
ge_mask = 0x7F

abbrev pub epoch_shift : ℕ
epoch_shift = 56

abbrev pub invalid_idx : ℕ
invalid_idx = 7

abbrev pub lv_idx_ge_mask : ℕ
lv_idx_ge_mask = 0x7FFFFFFFFFFFFFFF

-- `KEY_LW` is 14, `KEY_MID` half of it.
abbrev pub key_mid : ℕ
key_mid = 7

unfoldable pub get_cl_idx : ℕ → ℕ
get_cl_idx data_ = bit_and data_ idx_mask

unfoldable pub set_cl_idx : ℕ → ℕ → ℕ
set_cl_idx data_ p = bit_or (bit_and data_ (not64 idx_mask)) p

unfoldable pub invalidate_cl : ℕ → ℕ
invalidate_cl data_ = bit_or data_ invalid_idx

unfoldable pub get_loggedepoch : ℕ → ℕ
get_loggedepoch data_ = shr (bit_and data_ le_mask) epoch_shift

unfoldable pub set_loggedepoch : ℕ → ℕ → ℕ
set_loggedepoch data_ e =
    bit_or (bit_and data_ (not64 le_mask)) (shl64 (bit_and e ge_mask) epoch_shift)

-- The constructor, from what the memory held.
unfoldable pub incll_lv : ℕ → ℕ → ℕ
incll_lv data_ globalepoch = invalidate_cl (set_loggedepoch (bit_and data_ 0) globalepoch)

unfoldable pub is_not_logged : ℕ → Bool
is_not_logged data_ = not (bit_and data_ not_logged_bit == 0)

unfoldable pub set_not_logged : ℕ → ℕ
set_not_logged data_ = bit_or data_ not_logged_bit

unfoldable pub reset_not_logged : ℕ → ℕ
reset_not_logged data_ = bit_and data_ (not64 not_logged_bit)

unfoldable pub set_lv : ℕ → ℕ → ℕ
set_lv data_ lv = bit_or (bit_and data_ (not64 lv_mask)) lv

unfoldable pub get_lv : ℕ → ℕ
get_lv data_ = bit_and data_ lv_mask

unfoldable pub set_lv_idx : ℕ → ℕ → ℕ → ℕ
set_lv_idx data_ lv p = bit_or (bit_or (bit_and data_ (not64 lv_idx_mask)) lv) p

unfoldable pub set_lv_idx_ge : ℕ → ℕ → ℕ → ℕ → ℕ
set_lv_idx_ge data_ lv p globalepoch =
    bit_or (bit_or (bit_or (bit_and data_ (not64 lv_idx_ge_mask)) lv) p)
      (shl64 (bit_and globalepoch ge_mask) epoch_shift)

unfoldable pub recover_lv : ℕ → List ℕ → List ℕ
recover_lv data_ lv = set lv (bit_and data_ idx_mask) (bit_and data_ lv_mask)

unfoldable pub recover_lv2 : ℕ → List ℕ → List ℕ
recover_lv2 data_ lv = set lv (bit_and data_ idx_mask + key_mid) (bit_and data_ lv_mask)

unfoldable pub is_le_diff : ℕ → ℕ → Bool
is_le_diff data_ globalepoch =
    not (shr (bit_and data_ le_mask) epoch_shift == bit_and globalepoch ge_mask)

unfoldable pub is_cl_valid : ℕ → Bool
is_cl_valid data_ = not (bit_and data_ invalid_idx == invalid_idx)
