-- ===== src/Cursor/Examples.antt =====
-- A leaf with two keys, operations on it, and the theorems applied to them.
use incll.Base.{
  All, ℕ, ◌%◌, ◌^◌, ◌≤◌, ◌<◌, ◌≡◌, refl, sym, ◌∙◌, arith, true, false, ◌==◌, ==_iff, List, [], ◌∷◌,
  length, set, replicate, all_below_lem, get_or-replicate,
}
use mathlib.Core.Bool.{true≢false}
use incll.Incll
use incll.Kpermuter
use incll.Kpermuter.Valid.{IsPermuter}
use incll.Leaf.{
  Leaf, State, restart, record_node, save_cl1_2_update, save_cl0_insert, lazy_recovery,
}
use incll.Leaf.Content.{IsClean, SameContent, IsCommitted}
use incll.Cursor.{Op, update, insert, remove, op_states, run, store_value}
use incll.Cursor.Ops.{begin}
use incll.Cursor.First.{save_cl1_2_update-first}
use incll.Cursor.Phase.{Touched, restated}
use incll.Cursor.Recorders.{IsSettled, second_change}
use incll.Leaf.Again.{lazy_recovery_again}
use incll.Leaf.Undoes.{by_cl0, lazy_recovery-SameContent}
use incll.Cursor.Safety.{crash_safe, logged_once}
use incll.Cursor.Faults.{update-stale_cl0, update-wide_epoch}

-- The sorted word with two slots in use.
abbrev two_slots : ℕ
two_slots = 0xDCBA98765432102

two_slots-elem : (j : ℕ) → j < 14 → Kpermuter.elem two_slots j ≡ j
unfolding Kpermuter.elem
two_slots-elem j h =
    (==_iff _ _).0 (all_below_lem 14 (λ k. Kpermuter.elem two_slots k == k) refl j h)

two_slots-IsPermuter : IsPermuter 14 two_slots
unfolding Kpermuter.size
two_slots-IsPermuter = record {
  word = omega arith;
  narrow = omega arith;
  sized = omega arith;
  bounded = λ j h. rw (two_slots-elem j h) h;
  distinct = λ i j hi hj e. sym (two_slots-elem i hi) ∙ e ∙ two_slots-elem j hj;
}

-- A leaf that epoch `e` has left, with two keys.
abbrev two_keys : ℕ → Leaf
two_keys e = record {
  version = 2 ^ 31;
  not_logged = false;
  cl0_idx = 7;
  loggedepoch = e;
  modstate = 0;
  keylenx = replicate 14 8;
  permutation = two_slots;
  perm_cl0 = 0;
  ksuf = 0;
  ikey0 = 100 ∷ 200 ∷ replicate 12 0;
  next = 0;
  prev = 0;
  parent = 0;
  lv_cl1 = 7;
  lv = replicate 14 4096;
  lv_cl2 = 7;
}

two_keys-IsCommitted : (e ge : ℕ) → e < ge → IsCommitted ge (two_keys e)
unfolding Incll.get_cl_idx
two_keys-IsCommitted e ge h = record {
  old = h;
  clean = record { cl0 = refl; cl1 = refl; cl2 = refl };
  permuter = two_slots-IsPermuter;
  word1 = omega arith;
  word2 = omega arith;
  aligned = λ p. get_or-replicate (λ v. v % 8 ≡ 0) 14 4096 p refl refl;
  narrow = λ p. get_or-replicate (λ v. v < 2 ^ 56) 14 4096 p (omega arith) (omega arith);
}

abbrev some_ops : List Op
some_ops = update 1 8192 ∷ insert 1 150 20 4352 4104 (λ n. n) ∷ remove 0 ∷ []

crash_safe_example :
    All
      (λ s. SameContent (two_keys 4) (restart 6 5 s))
      (run 5 some_ops (begin (two_keys 4))
        ∷ op_states 5 (update 8 0) (run 5 some_ops (begin (two_keys 4))))
crash_safe_example =
    crash_safe 5 (two_keys 4) (two_keys-IsCommitted 4 5 (omega arith)) (omega arith) 6 some_ops
      (update 8 0) (omega arith, ((λ n. (refl, refl)), (tt, tt))) (omega arith)

logged_once_example : length ((run 5 some_ops (begin (two_keys 4))).log) ≤ 1
logged_once_example =
    logged_once 5 (two_keys 4) (two_keys-IsCommitted 4 5 (omega arith)) (omega arith) some_ops
      (omega arith, ((λ n. (refl, refl)), (tt, tt)))

-- A leaf into which epoch 4 has put a third key under line 0: slot 13, at position 0.
abbrev three_keys : Leaf
three_keys = record (two_keys 4) {
  cl0_idx = 0;
  perm_cl0 = two_slots;
  permutation = 0xCBA987654321D03;
}

update-stale_cl0_example :
    ((restart 6 5 (store_value 0 8192 (save_cl1_2_update 5 0 (begin three_keys)))).permutation
      ≡ two_slots)
    × ((restart 6 5 (store_value 0 8192 (save_cl1_2_update 5 0 (begin three_keys)))).lv
        ≡ set three_keys.lv 0 8192)
update-stale_cl0_example =
    update-stale_cl0 6 5 0 8192 three_keys (λ e. omega (arith, e)) (λ e. omega (arith, e))

update-wide_epoch_example :
    (restart 201 200 (store_value 0 8192 (save_cl1_2_update 200 0 (begin (two_keys 4))))).lv
    ≡ set (two_keys 4).lv 0 8192
update-wide_epoch_example =
    update-wide_epoch 201 200 0 8192 (two_keys 4) (two_keys-IsCommitted 4 200 (omega arith))
      (omega arith)

-- After an update of slot 1, under line 1.
abbrev updated : State
updated = store_value 1 8192 (save_cl1_2_update 5 1 (begin (two_keys 4)))

updated-unlogged : updated.node.not_logged ≡ true
unfolding store_value save_cl1_2_update
updated-unlogged = refl

updated-Touched : Touched 5 (two_keys 4) updated
unfolding store_value save_cl1_2_update
updated-Touched =
    save_cl1_2_update-first 5 (two_keys 4) (two_keys-IsCommitted 4 5 (omega arith)) (2 ^ 31) 0 1
      (set (two_keys 4).lv 1 8192) (omega arith) (omega arith) refl

second_change_example :
    IsSettled 5 (two_keys 4) (record_node 5 (record updated { node = restated (updated.node) 2 0 }))
    × IsSettled 5
        (two_keys 4)
        (save_cl0_insert 5 (record updated { node = restated (updated.node) 2 0 }))
    × IsSettled 5 (two_keys 4) (save_cl1_2_update 5 3 updated)
second_change_example =
    second_change 5 (two_keys 4) (two_keys-IsCommitted 4 5 (omega arith)) updated 2 0 3
      updated-Touched (λ e. absurd (true≢false (sym updated-unlogged ∙ e)))

-- The leaf with a third key put in by the failed epoch, slot 13 at position 0.
abbrev half_inserted : Leaf
half_inserted = record (two_keys 5) {
  cl0_idx = 0;
  perm_cl0 = two_slots;
  permutation = 0xCBA987654321D03;
}

lazy_recovery-SameContent_example : SameContent (two_keys 4) (lazy_recovery 6 5 half_inserted)
lazy_recovery-SameContent_example =
    lazy_recovery-SameContent 6 5 (two_keys 4) half_inserted
      (by_cl0 refl refl refl (λ j h. record { key = refl; keylen = refl; value = refl }))

lazy_recovery_again_example :
    IsClean (lazy_recovery 6 5 half_inserted)
    × (lazy_recovery 7 6 (lazy_recovery 6 5 half_inserted) ≡ lazy_recovery 6 5 half_inserted)
lazy_recovery_again_example =
    lazy_recovery_again 6 5 (two_keys 4) half_inserted (omega arith) (omega arith) 7 6
      (by_cl0 refl refl refl (λ j h. record { key = refl; keylen = refl; value = refl }))
