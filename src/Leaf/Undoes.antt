-- ===== src/Leaf/Undoes.antt =====
-- The ways in which a leaf keeps older content, and recovery in each of them.
use incll.Base.{ℕ, ◌+◌, ◌<◌, ◌≡◌, refl, arith, Bool, true, false, List, set}
use incll.Incll.{get_cl_idx, get_loggedepoch, get_lv, is_cl_valid, recover_lv, recover_lv2}
use incll.Incll.Laws.{is_cl_valid-idx}
use incll.Leaf.{Leaf, lazy_recovery, recover_final}
use incll.Leaf.Content.{SameSlots, SameContent, IsClean}

-- Keys as they were, and the values but for the one that a line has logged.
pub record SameKeys (n0 n : Leaf) : Type 0 where
  pub order : n.permutation ≡ n0.permutation
  pub keys : n.ikey0 ≡ n0.ikey0
  pub keylens : n.keylenx ≡ n0.keylenx

pub data Undoes (fe : ℕ) (n0 n : Leaf) : Type 0 where
  unchanged : IsClean n → SameContent n0 n → Undoes fe n0 n
  by_cl0 :
      n.loggedepoch ≡ fe
      → n.cl0_idx ≡ 0
      → n.perm_cl0 ≡ n0.permutation
      → SameSlots n0 n
      → Undoes fe n0 n
  by_cl1 :
      n.loggedepoch ≡ fe
      → n.cl0_idx ≡ 7
      → get_loggedepoch n.lv_cl1 ≡ fe
      → (p : ℕ) → p < 7
      → get_cl_idx n.lv_cl1 ≡ p
      → set n.lv p (get_lv n.lv_cl1) ≡ n0.lv
      → SameKeys n0 n
      → Undoes fe n0 n
  by_cl2 :
      n.loggedepoch ≡ fe
      → n.cl0_idx ≡ 7
      → get_cl_idx n.lv_cl1 ≡ 7
      → get_loggedepoch n.lv_cl2 ≡ fe
      → (p : ℕ) → p < 7
      → get_cl_idx n.lv_cl2 ≡ p
      → set n.lv (p + 7) (get_lv n.lv_cl2) ≡ n0.lv
      → SameKeys n0 n
      → Undoes fe n0 n

recover_lv-set : (d : ℕ) (lv : List ℕ) → recover_lv d lv ≡ set lv (get_cl_idx d) (get_lv d)
unfolding recover_lv get_cl_idx get_lv
recover_lv-set d lv = refl

recover_lv2-set : (d : ℕ) (lv : List ℕ) → recover_lv2 d lv ≡ set lv (get_cl_idx d + 7) (get_lv d)
unfolding recover_lv2 get_cl_idx get_lv
recover_lv2-set d lv = refl

SameKeys-SameSlots : (n0 n : Leaf) → SameKeys n0 n → n.lv ≡ n0.lv → SameSlots n0 n
SameKeys-SameSlots n0 n k e j h = record {
  key = rw k.keys refl;
  keylen = rw k.keylens refl;
  value = rw e refl;
}

-- The four cases of `undo_incll`, by what the three logs say.
module _ (globalepoch fe : ℕ) (n : Leaf) where
  pub undo_cl0 :
      n.loggedepoch ≡ fe
      → n.cl0_idx ≡ 0
      → lazy_recovery globalepoch fe n
        ≡ recover_final globalepoch (record n { permutation = n.perm_cl0 })
  unfolding lazy_recovery
  undo_cl0 e c = ground arith

  pub undo_cl1 :
      n.loggedepoch ≡ fe
      → n.cl0_idx ≡ 7
      → get_loggedepoch n.lv_cl1 ≡ fe
      → is_cl_valid n.lv_cl1 ≡ true
      → lazy_recovery globalepoch fe n
        ≡ recover_final globalepoch (record n { lv = recover_lv n.lv_cl1 n.lv })
  unfolding lazy_recovery
  undo_cl1 e c l v = ground arith

  pub undo_cl2 :
      n.loggedepoch ≡ fe
      → n.cl0_idx ≡ 7
      → is_cl_valid n.lv_cl1 ≡ false
      → get_loggedepoch n.lv_cl2 ≡ fe
      → is_cl_valid n.lv_cl2 ≡ true
      → lazy_recovery globalepoch fe n
        ≡ recover_final globalepoch (record n { lv = recover_lv2 n.lv_cl2 n.lv })
  unfolding lazy_recovery
  undo_cl2 e c i l v = ground arith

  pub undo_none :
      n.cl0_idx ≡ 7
      → is_cl_valid n.lv_cl1 ≡ false
      → is_cl_valid n.lv_cl2 ≡ false
      → lazy_recovery globalepoch fe n ≡ n
  unfolding lazy_recovery
  undo_none c i j = ground arith

pub valid_of : (d p : ℕ) → p < 7 → get_cl_idx d ≡ p → is_cl_valid d ≡ true
valid_of d p h e = rw (is_cl_valid-idx d) (ground arith)

pub invalid_of : (d : ℕ) → get_cl_idx d ≡ 7 → is_cl_valid d ≡ false
invalid_of d e = rw (is_cl_valid-idx d, e) refl

recover_final-SameContent :
    (globalepoch : ℕ) (n0 n : Leaf)
    → SameContent n0 n
    → SameContent n0 (recover_final globalepoch n)
unfolding recover_final
recover_final-SameContent globalepoch n0 n c = record {
  order = c.order;
  slots = λ j h. let s = c.slots j h in record { key = s.key; keylen = s.keylen; value = s.value };
}

-- Whichever of the three in-cache-line logs keeps the old content, or none of them where nothing
-- has changed, `lazy_recovery` for the failed epoch brings that content back.
pub lazy_recovery-SameContent :
    (globalepoch fe : ℕ) (n0 n : Leaf)
    → Undoes fe n0 n
    → SameContent n0 (lazy_recovery globalepoch fe n)
lazy_recovery-SameContent ge fe n0 n (unchanged c same) =
    rw (undo_none ge fe n c.cl0 (invalid_of _ c.cl1) (invalid_of _ c.cl2)) same
lazy_recovery-SameContent ge fe n0 n (by_cl0 le c perm same) = rw (undo_cl0 ge fe n le c) (
    recover_final-SameContent ge n0 _ (record {
      order = perm;
      slots = λ j h. let s = same j h in record { key = s.key; keylen = s.keylen; value = s.value };
    }))
lazy_recovery-SameContent ge fe n0 n (by_cl1 le c l p hp i saved k) =
    rw (undo_cl1 ge fe n le c l (valid_of _ p hp i)) (
      recover_final-SameContent ge n0 _ (record {
        order = k.order;
        slots =
            SameKeys-SameSlots n0 _ (record { order = k.order; keys = k.keys; keylens = k.keylens })
              (rw (recover_lv-set n.lv_cl1 n.lv, i) saved);
      }))
lazy_recovery-SameContent ge fe n0 n (by_cl2 le c j l p hp i saved k) =
    rw (undo_cl2 ge fe n le c (invalid_of _ j) l (valid_of _ p hp i)) (
      recover_final-SameContent ge n0 _ (record {
        order = k.order;
        slots =
            SameKeys-SameSlots n0 _ (record { order = k.order; keys = k.keys; keylens = k.keylens })
              (rw (recover_lv2-set n.lv_cl2 n.lv, i) saved);
      }))

-- The flags, the version and the state of the leaf play no part in it.
pub Undoes-status :
    {fe : ℕ} {n0 n : Leaf} (b : Bool) (v m : ℕ)
    → Undoes fe n0 n
    → Undoes fe n0 (record n { not_logged = b; version = v; modstate = m })
Undoes-status b v m (unchanged c same) =
    unchanged (record { cl0 = c.cl0; cl1 = c.cl1; cl2 = c.cl2 })
      (record {
        order = same.order;
        slots = λ j h.
            let s = same.slots j h in record { key = s.key; keylen = s.keylen; value = s.value };
      })
Undoes-status b v m (by_cl0 le c perm same) =
    by_cl0 le c perm
      (λ j h. let s = same j h in record { key = s.key; keylen = s.keylen; value = s.value })
Undoes-status b v m (by_cl1 le c l p hp i saved k) =
    by_cl1 le c l p hp i saved (record { order = k.order; keys = k.keys; keylens = k.keylens })
Undoes-status b v m (by_cl2 le c j l p hp i saved k) =
    by_cl2 le c j l p hp i saved (record { order = k.order; keys = k.keys; keylens = k.keylens })
