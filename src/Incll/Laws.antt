-- ===== src/Incll/Laws.antt =====
-- The fields of the word as arithmetic, and what each setter does to each field.
use incll.Base.{
  ℕ, ◌+◌, ◌*◌, ◌/◌, ◌%◌, ◌^◌, ◌<◌, bit_and, bit_or, ◌≡◌, refl, arith, ◌∙◌, not64, shl64, true,
  false, not, ◌==◌, List, set,
}
use incll.Bits.Zero.{bit_and_mask}
use incll.Bits.Flags.{and_field, and_bit, or_disjoint, or_insert, and_clear, bit_or-seven}
use incll.Incll.{
  get_cl_idx, invalidate_cl, get_loggedepoch, set_loggedepoch, set_lv_idx_ge, get_lv, is_cl_valid,
  is_le_diff, le_mask, recover_lv, recover_lv2,
}

pub get_cl_idx-mod : (d : ℕ) → get_cl_idx d ≡ d % 8
unfolding get_cl_idx
get_cl_idx-mod d = bit_and_mask 3 d

pub get_lv-field : (d : ℕ) → get_lv d ≡ d / 8 % 2 ^ 53 * 8
unfolding get_lv
get_lv-field d = and_field 3 53 d

pub get_loggedepoch-field : (d : ℕ) → get_loggedepoch d ≡ d / 2 ^ 56 % 128
unfolding get_loggedepoch
get_loggedepoch-field d = omega (arith, and_field 56 7 d)

pub invalidate_cl-sum : (d : ℕ) → invalidate_cl d ≡ d / 8 * 8 + 7
unfolding invalidate_cl
invalidate_cl-sum d = bit_or-seven d

pub is_cl_valid-mod : (d : ℕ) → is_cl_valid d ≡ not (d % 8 == 7)
unfolding is_cl_valid
is_cl_valid-mod d = rw (bit_and_mask 3 d)

keep_outside : (d : ℕ) → d < 2 ^ 64 → bit_and d (not64 le_mask) ≡ d / 2 ^ 63 * 2 ^ 63 + d % 2 ^ 56
keep_outside d h = and_clear 56 d 0x80 ∙ omega (arith, and_bit 7 (d / 2 ^ 56))

-- The epoch goes between the flag and the lower fields.
add_epoch :
    (b lo e : ℕ)
    → lo < 2 ^ 56
    → bit_or (b * 2 ^ 63 + lo) (shl64 (e % 128) 56) ≡ b * 2 ^ 63 + e % 128 * 2 ^ 56 + lo
add_epoch b lo e h = ground (arith, or_insert 56 (b * 128) lo (e % 128), or_disjoint 7 b (e % 128))

pub set_loggedepoch-sum :
    (d e : ℕ)
    → d < 2 ^ 64
    → set_loggedepoch d e ≡ d / 2 ^ 63 * 2 ^ 63 + e % 128 * 2 ^ 56 + d % 2 ^ 56
unfolding set_loggedepoch
set_loggedepoch-sum d e h =
    rw (keep_outside d h, bit_and_mask 7 e) (add_epoch (d / 2 ^ 63) (d % 2 ^ 56) e (omega arith))

pub set_lv_idx_ge-sum :
    (d v p e : ℕ)
    → d < 2 ^ 64
    → v < 2 ^ 56
    → v % 8 ≡ 0
    → p < 8
    → set_lv_idx_ge d v p e ≡ d / 2 ^ 63 * 2 ^ 63 + e % 128 * 2 ^ 56 + v + p
unfolding set_lv_idx_ge
set_lv_idx_ge-sum d v p e hd hv aligned hp =
    rw (and_bit 63 d, or_disjoint 63 (d / 2 ^ 63 % 2) v (omega arith), bit_and_mask 7 e, with_idx)
      (add_epoch (d / 2 ^ 63 % 2) (v + p) e (omega arith) ∙ omega arith)
  where
    with_idx : bit_or (d / 2 ^ 63 % 2 * 2 ^ 63 + v) p ≡ d / 2 ^ 63 % 2 * 2 ^ 63 + (v + p)
    with_idx = ground (arith, or_disjoint 3 ((d / 2 ^ 63 % 2 * 2 ^ 63 + v) / 8) p)

-- What the setters do to the fields.
module _ (d e : ℕ) (h : d < 2 ^ 64) where
  pub set_loggedepoch-lt : set_loggedepoch d e < 2 ^ 64
  set_loggedepoch-lt = omega (arith, set_loggedepoch-sum d e h)

  pub get_loggedepoch-set_loggedepoch : get_loggedepoch (set_loggedepoch d e) ≡ e % 128
  get_loggedepoch-set_loggedepoch =
      rw (get_loggedepoch-field, set_loggedepoch-sum d e h) (omega arith)

  pub get_cl_idx-set_loggedepoch : get_cl_idx (set_loggedepoch d e) ≡ get_cl_idx d
  get_cl_idx-set_loggedepoch =
      rw (get_cl_idx-mod (set_loggedepoch d e), get_cl_idx-mod d, set_loggedepoch-sum d e h)
        (omega arith)

  pub get_lv-set_loggedepoch : get_lv (set_loggedepoch d e) ≡ get_lv d
  get_lv-set_loggedepoch =
      rw (get_lv-field (set_loggedepoch d e), get_lv-field d, set_loggedepoch-sum d e h)
        (omega arith)

pub invalidate_cl-lt : (d : ℕ) → d < 2 ^ 64 → invalidate_cl d < 2 ^ 64
invalidate_cl-lt d h = omega (arith, invalidate_cl-sum d)

pub get_cl_idx-invalidate_cl : (d : ℕ) → get_cl_idx (invalidate_cl d) ≡ 7
get_cl_idx-invalidate_cl d = rw (get_cl_idx-mod, invalidate_cl-sum d) (omega arith)

-- The word is taken as valid exactly when its index is none of the seven ones.
pub is_cl_valid-idx : (d : ℕ) → is_cl_valid d ≡ not (get_cl_idx d == 7)
is_cl_valid-idx d = rw (is_cl_valid-mod d, get_cl_idx-mod d)

module _ (d v p e : ℕ) (hd : d < 2 ^ 64) (hv : v < 2 ^ 56) (aligned : v % 8 ≡ 0) (hp : p < 8) where
  pub set_lv_idx_ge-lt : set_lv_idx_ge d v p e < 2 ^ 64
  set_lv_idx_ge-lt = omega (arith, set_lv_idx_ge-sum d v p e hd hv aligned hp)

  pub get_loggedepoch-set_lv_idx_ge : get_loggedepoch (set_lv_idx_ge d v p e) ≡ e % 128
  get_loggedepoch-set_lv_idx_ge =
      rw (get_loggedepoch-field, set_lv_idx_ge-sum d v p e hd hv aligned hp) (omega arith)

  pub get_cl_idx-set_lv_idx_ge : get_cl_idx (set_lv_idx_ge d v p e) ≡ p
  get_cl_idx-set_lv_idx_ge =
      rw (get_cl_idx-mod, set_lv_idx_ge-sum d v p e hd hv aligned hp) (omega arith)

  pub get_lv-set_lv_idx_ge : get_lv (set_lv_idx_ge d v p e) ≡ v
  get_lv-set_lv_idx_ge = rw (get_lv-field, set_lv_idx_ge-sum d v p e hd hv aligned hp) (omega arith)

-- A value of 56 bits with the low three clear that `set_lv_idx_ge` logs for one of seven slots is
-- what recovery writes to that slot, in either half of the leaf, also after the epoch is set again;
-- the word is valid, carries the low 7 bits of the epoch, and shows no difference to it.
pub recover-set_lv_idx_ge :
    (d v p e : ℕ) (lv : List ℕ)
    → d < 2 ^ 64
    → v < 2 ^ 56
    → v % 8 ≡ 0
    → p < 7
    → let w = set_loggedepoch (set_lv_idx_ge d v p e) e in
      (recover_lv w lv ≡ set lv p v)
      × (recover_lv2 w lv ≡ set lv (p + 7) v)
      × (is_cl_valid w ≡ true)
      × (get_loggedepoch w ≡ e % 128)
      × (is_le_diff w e ≡ false)
unfolding recover_lv recover_lv2 get_cl_idx get_lv is_le_diff get_loggedepoch
recover-set_lv_idx_ge d v p e lv hd hv aligned hp =
    let s = set_lv_idx_ge d v p e in
    let b = set_lv_idx_ge-lt d v p e hd hv aligned (omega arith) in
    let idx =
      get_cl_idx-set_loggedepoch s e b
      ∙ get_cl_idx-set_lv_idx_ge d v p e hd hv aligned (omega arith) in
    let val =
      get_lv-set_loggedepoch s e b ∙ get_lv-set_lv_idx_ge d v p e hd hv aligned (omega arith) in
    let ep = get_loggedepoch-set_loggedepoch s e b in
    (
      rw (idx, val) refl,
      rw (idx, val) refl,
      rw (is_cl_valid-idx (set_loggedepoch s e), idx) (ground arith),
      ep,
      rw (ep, bit_and_mask 7 e) (ground arith),
    )
