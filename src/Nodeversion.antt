-- ===== src/Nodeversion.antt =====
-- nodeversion.hh, `nodeversion<nodeversion_parameters<uint32_t>>`: the version word of a node.
-- Bit 0 is the lock, bits 1 and 2 mark an insertion and a split in progress, bits 3 to 8 and 9 to
-- 27 count insertions and splits, and bits 29 to 31 are flags. A method that changes `v_` returns
-- the new word. Fences have no effect on a single word, and are left out.
pub mod Fields
pub mod Unlock
pub mod Lock
pub mod Examples
use incll.Base.{
  ℕ, zero, suc, ◌+◌, ◌-◌, ◌*◌, ◌%◌, ◌^◌, bit_and, bit_or, bit_xor, Bool, true, false, not, ltb, leb,
  ◌==◌, if◌then◌else◌, Option, none, some, List, [], ◌∷◌,
}

abbrev pub lock_bit : ℕ
lock_bit = 2 ^ 0

abbrev pub inserting_shift : ℕ
inserting_shift = 1

abbrev pub inserting_bit : ℕ
inserting_bit = 2 ^ 1

abbrev pub splitting_bit : ℕ
splitting_bit = 2 ^ 2

abbrev pub dirty_mask : ℕ
dirty_mask = 6

abbrev pub vinsert_lowbit : ℕ
vinsert_lowbit = 2 ^ 3

abbrev pub vsplit_lowbit : ℕ
vsplit_lowbit = 2 ^ 9

abbrev pub unused1_bit : ℕ
unused1_bit = 2 ^ 28

abbrev pub deleted_bit : ℕ
deleted_bit = 2 ^ 29

abbrev pub root_bit : ℕ
root_bit = 2 ^ 30

abbrev pub isleaf_bit : ℕ
isleaf_bit = 2 ^ 31

abbrev pub u32 : ℕ → ℕ
u32 x = x % 2 ^ 32

abbrev pub not32 : ℕ → ℕ
not32 x = 2 ^ 32 - 1 - x

abbrev pub split_unlock_mask : ℕ
split_unlock_mask = not32 (bit_or (bit_or root_bit unused1_bit) (vsplit_lowbit - 1))

abbrev pub unlock_mask : ℕ
unlock_mask = not32 (bit_or unused1_bit (vinsert_lowbit - 1))

abbrev pub version_counter_mask : ℕ
version_counter_mask = not32 0x3FFFFFFF

-- `v & mask` as a truth value
abbrev pub has : ℕ → ℕ → Bool
has v mask = not (bit_and v mask == 0)

unfoldable pub nodeversion : Bool → ℕ
nodeversion isleaf = if isleaf then isleaf_bit else 0

unfoldable pub isleaf : ℕ → Bool
isleaf v = has v isleaf_bit

unfoldable pub locked : ℕ → Bool
locked v = has v lock_bit

unfoldable pub inserting : ℕ → Bool
inserting v = has v inserting_bit

unfoldable pub splitting : ℕ → Bool
splitting v = has v splitting_bit

unfoldable pub deleted : ℕ → Bool
deleted v = has v deleted_bit

unfoldable pub is_root : ℕ → Bool
is_root v = has v root_bit

unfoldable pub has_changed : ℕ → ℕ → Bool
has_changed v x = ltb lock_bit (bit_xor x v)

unfoldable pub has_split : ℕ → ℕ → Bool
has_split v x = leb vsplit_lowbit (bit_xor x v)

-- `stable`: the values that the spinning reads find, one after the other. `none` means that all of
-- them are dirty.
unfoldable pub stable : List ℕ → Option ℕ
stable [] = none
stable (x ∷ xs) = let rest = stable xs in if has x dirty_mask then rest else some x

-- One round of `lock`: the compare-and-exchange on the word `v`, with what the thread expects. The
-- result is the word and, if the lock was taken, the version returned.
unfoldable pub lock_round : ℕ → ℕ → ℕ × Option ℕ
lock_round v expected =
    if not (has expected lock_bit)
    then (if v == expected
        then (bit_or expected lock_bit, some (bit_or expected lock_bit))
        else (v, none))
    else (v, none)

-- `unlock(x)`, which stores the new word.
unfoldable pub unlock : ℕ → ℕ
unlock x =
    if has x splitting_bit
    then bit_and (u32 (x + vsplit_lowbit)) split_unlock_mask
    else bit_and (u32 (x + u32 (bit_and x inserting_bit * 2 ^ 2))) unlock_mask

unfoldable pub mark_insert : ℕ → ℕ
mark_insert v = bit_or v inserting_bit

unfoldable pub clear_unlock : ℕ → ℕ
clear_unlock v = bit_and v (not32 lock_bit)

unfoldable pub clear_insert : ℕ → ℕ
clear_insert v = bit_and v (not32 inserting_bit)

unfoldable pub clear_version_counter_bits : ℕ → ℕ
clear_version_counter_bits v = bit_and v version_counter_mask

unfoldable pub mark_split : ℕ → ℕ
mark_split v = bit_or v splitting_bit

unfoldable pub mark_change : ℕ → Bool → ℕ
mark_change v is_split = bit_or v (((if is_split then 1 else 0) + 1) * 2 ^ inserting_shift)

unfoldable pub mark_deleted : ℕ → ℕ
mark_deleted v = bit_or v (bit_or deleted_bit splitting_bit)

unfoldable pub mark_deleted_tree : ℕ → ℕ
mark_deleted_tree v = bit_or v deleted_bit

unfoldable pub mark_root : ℕ → ℕ
mark_root v = bit_or v root_bit

unfoldable pub mark_nonroot : ℕ → ℕ
mark_nonroot v = bit_and v (not32 root_bit)

unfoldable pub unlocked_version_value : ℕ → ℕ
unlocked_version_value v = bit_and v unlock_mask
