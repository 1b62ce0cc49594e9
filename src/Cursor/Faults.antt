-- ===== src/Cursor/Faults.antt =====
-- First updates of leaves whose lines hold an older log, and in late epochs.
use incll.Base.{
  ℕ, ◌≤◌, ◌≡◌, ◌≢◌, refl, arith, true, false, ◌==◌, ltb, leb, Bool-cases, set, ==_ne, ==_refl, inl,
  inr,
}
use incll.Incll.{get_loggedepoch}
use incll.Incll.Laws.{get_loggedepoch-field}
use incll.Leaf.{Leaf, save_cl1_2_update, restart}
use incll.Leaf.Content.{IsCommitted}
use incll.Cursor.{store_value}
use incll.Cursor.Ops.{begin}

leb_refl : (a : ℕ) → leb a a ≡ true
leb_refl a = ground arith

-- The leaf that a failure leaves after a first update in epoch `ge`.
abbrev failed_update : ℕ → ℕ → ℕ → ℕ → Leaf → Leaf
failed_update now ge p v n = restart now ge (store_value p v (save_cl1_2_update ge p (begin n)))

-- When line 0 still holds a permutation from another epoch than `ge`, a first update in epoch `ge`
-- does not clear it: after a failure in that epoch the old permutation is put back, and the update
-- stays.
pub update-stale_cl0 :
    (now ge p v : ℕ) (n : Leaf)
    → n.loggedepoch ≢ ge
    → n.cl0_idx ≢ 7
    → ((failed_update now ge p v n).permutation ≡ n.perm_cl0)
      × ((failed_update now ge p v n).lv ≡ set n.lv p v)
unfolding restart store_value save_cl1_2_update
update-stale_cl0 now ge p v n old stale = elim (Bool-cases (ltb p 7)) [
  | inl e ↦
      rw (==_ne n.loggedepoch ge old, e, leb_refl ge, ==_refl ge, ==_ne n.cl0_idx 7 stale)
        (refl, refl)
  | inr e ↦
      rw (==_ne n.loggedepoch ge old, e, leb_refl ge, ==_refl ge, ==_ne n.cl0_idx 7 stale)
        (refl, refl)
]

narrow_epoch : (d ge : ℕ) → 128 ≤ ge → (get_loggedepoch d == ge) ≡ false
narrow_epoch d ge h = ==_ne _ _ (omega (arith, get_loggedepoch-field d))

-- From epoch 128 on, the 7 bits of the logged epoch never equal the failed epoch: after a failure in
-- such an epoch a first update of a committed leaf, whose in-cache-line logs were unused, stays.
pub update-wide_epoch :
    (now ge p v : ℕ) (n : Leaf)
    → IsCommitted ge n
    → 128 ≤ ge
    → (failed_update now ge p v n).lv ≡ set n.lv p v
unfolding restart store_value save_cl1_2_update
update-wide_epoch now ge p v n c wide =
    let old = ==_ne n.loggedepoch ge (omega (arith, c.old)) in
    elim (Bool-cases (ltb p 7)) [
      | inl e ↦
          rw
            (
              old,
              e,
              leb_refl ge,
              ==_refl ge,
              c.clean.cl0,
              narrow_epoch _ ge wide,
              narrow_epoch _ ge wide,
            )
            refl
      | inr e ↦
          rw
            (
              old,
              e,
              leb_refl ge,
              ==_refl ge,
              c.clean.cl0,
              narrow_epoch _ ge wide,
              narrow_epoch _ ge wide,
            )
            refl
    ]
