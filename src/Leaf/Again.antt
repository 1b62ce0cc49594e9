-- ===== src/Leaf/Again.antt =====
-- Recovery of a leaf that has been recovered.
use incll.Base.{ℕ, ◌^◌, ◌<◌, ◌≡◌, refl, ◌∙◌}
use incll.Incll.{invalidate_cl}
use incll.Incll.Laws.{get_cl_idx-set_loggedepoch, get_cl_idx-invalidate_cl, invalidate_cl-lt}
use incll.Leaf.{Leaf, lazy_recovery, recover_final}
use incll.Leaf.Content.{IsClean}
use incll.Leaf.Undoes.{
  Undoes, unchanged, by_cl0, by_cl1, by_cl2, undo_cl0, undo_cl1, undo_cl2, undo_none, valid_of,
  invalid_of,
}

recover_final-IsClean :
    (globalepoch : ℕ) (n : Leaf)
    → n.lv_cl1 < 2 ^ 64
    → n.lv_cl2 < 2 ^ 64
    → IsClean (recover_final globalepoch n)
unfolding recover_final
recover_final-IsClean ge n h1 h2 = record {
  cl0 = refl;
  cl1 =
      get_cl_idx-set_loggedepoch (invalidate_cl n.lv_cl1) _ (invalidate_cl-lt n.lv_cl1 h1)
      ∙ get_cl_idx-invalidate_cl n.lv_cl1;
  cl2 =
      get_cl_idx-set_loggedepoch (invalidate_cl n.lv_cl2) _ (invalidate_cl-lt n.lv_cl2 h2)
      ∙ get_cl_idx-invalidate_cl n.lv_cl2;
}

module _ (ge fe : ℕ) (n0 n : Leaf) (h1 : n.lv_cl1 < 2 ^ 64) (h2 : n.lv_cl2 < 2 ^ 64) where
  lazy_recovery-IsClean : Undoes fe n0 n → IsClean (lazy_recovery ge fe n)
  lazy_recovery-IsClean (unchanged c same) =
      rw (undo_none ge fe n c.cl0 (invalid_of _ c.cl1) (invalid_of _ c.cl2)) c
  lazy_recovery-IsClean (by_cl0 le c perm same) =
      rw (undo_cl0 ge fe n le c) (recover_final-IsClean ge _ h1 h2)
  lazy_recovery-IsClean (by_cl1 le c l p hp i saved k) =
      rw (undo_cl1 ge fe n le c l (valid_of _ p hp i)) (recover_final-IsClean ge _ h1 h2)
  lazy_recovery-IsClean (by_cl2 le c j l p hp i saved k) =
      rw (undo_cl2 ge fe n le c (invalid_of _ j) l (valid_of _ p hp i))
        (recover_final-IsClean ge _ h1 h2)

  -- For a leaf from which recovery restores another one, whichever log it uses, recovery leaves
  -- none of the three logs in use, and a second recovery for any failed epoch, as after a failure
  -- during the first one, changes nothing.
  pub lazy_recovery_again :
      (later_ge later_fe : ℕ)
      → Undoes fe n0 n
      → IsClean (lazy_recovery ge fe n)
        × (lazy_recovery later_ge later_fe (lazy_recovery ge fe n) ≡ lazy_recovery ge fe n)
  lazy_recovery_again later_ge later_fe u =
      let c = lazy_recovery-IsClean u in
      (
        c,
        undo_none later_ge later_fe (lazy_recovery ge fe n) c.cl0 (invalid_of _ c.cl1)
            (invalid_of _ c.cl2),
      )
