-- ===== src/Cursor/Recorders.antt =====
-- `record_node`, `save_cl0_insert` and `save_cl1_2_update` on a leaf that has changed within the
-- epoch.
use incll.Base.{ℕ, ◌≡◌, refl, false}
use incll.Incll.Laws.{get_cl_idx-invalidate_cl}
use incll.Leaf.{Leaf, State, record_node, save_cl0_insert, save_cl1_2_update, invalidate_cls}
use incll.Leaf.Content.{IsClean, IsCommitted}
use incll.Cursor.Phase.{
  Touched, in_line, recorded, IsRecorded, restated, epoch_test, record_node-in_line,
  save_cl0_insert-second, save_cl1_2_update-second,
}

-- The external log has the leaf, and none of its in-cache-line logs counts.
pub record IsSettled (globalepoch : ℕ) (n0 : Leaf) (s : State) : Type 0 where
  pub recorded : IsRecorded globalepoch n0 s
  pub clean : IsClean s.node

invalidate_cls-IsClean : (n : Leaf) → IsClean (invalidate_cls n)
unfolding invalidate_cls
invalidate_cls-IsClean n = record {
  cl0 = refl;
  cl1 = get_cl_idx-invalidate_cl n.lv_cl1;
  cl2 = get_cl_idx-invalidate_cl n.lv_cl2;
}

IsClean-unlogged :
    (n : Leaf) (v m : ℕ)
    → IsClean n
    → IsClean (record n { not_logged = false; version = v; modstate = m })
IsClean-unlogged n v m c = record { cl0 = c.cl0; cl1 = c.cl1; cl2 = c.cl2 }

module _ (ge : ℕ) (n0 : Leaf) (c : IsCommitted ge n0) where
  record_node-IsClean :
      (s : State) (v m : ℕ)
      → Touched ge n0 s
      → (s.node.not_logged ≡ false → IsClean s.node)
      → IsClean (record_node ge (record s { node = restated (s.node) v m })).node
  unfolding record_node
  record_node-IsClean s v m (in_line e f l u) clean =
      rw (epoch_test ge n0 c s e, f)
        (invalidate_cls-IsClean
          (record (s.node) { not_logged = false; loggedepoch = ge; version = v; modstate = m }))
  record_node-IsClean s v m (recorded e f r l u) clean =
      rw (epoch_test ge n0 c s e, f) (IsClean-unlogged s.node v m (clean f))

  save_cl0_insert-IsClean :
      (s : State) (v m : ℕ)
      → Touched ge n0 s
      → (s.node.not_logged ≡ false → IsClean s.node)
      → IsClean (save_cl0_insert ge (record s { node = restated (s.node) v m })).node
  unfolding save_cl0_insert
  save_cl0_insert-IsClean s v m (in_line e f l u) clean =
      rw (epoch_test ge n0 c s e, f)
        (invalidate_cls-IsClean (record (s.node) { not_logged = false; version = v; modstate = m }))
  save_cl0_insert-IsClean s v m (recorded e f r l u) clean =
      rw (epoch_test ge n0 c s e, f) (IsClean-unlogged s.node v m (clean f))

  save_cl1_2_update-IsClean :
      (s : State) (p : ℕ)
      → Touched ge n0 s
      → (s.node.not_logged ≡ false → IsClean s.node)
      → IsClean (save_cl1_2_update ge p s).node
  unfolding save_cl1_2_update
  save_cl1_2_update-IsClean s p (in_line e f l u) clean =
      rw (epoch_test ge n0 c s e, f)
        (invalidate_cls-IsClean (record (s.node) { not_logged = false }))
  save_cl1_2_update-IsClean s p (recorded e f r l u) clean =
      rw (epoch_test ge n0 c s e, f)
        (IsClean-unlogged s.node s.node.version s.node.modstate (clean f))

  -- Let a leaf have changed within the epoch, under an in-cache-line log or recorded in the external
  -- log, and let none of its in-cache-line logs count in the second case. Whatever has become of its
  -- version and state, a second change finds or makes the leaf recorded in the external log, whether
  -- it calls `record_node`, `save_cl0_insert` or `save_cl1_2_update`: the epoch is current, the one
  -- record still undoes to the committed leaf, and no in-cache-line log counts.
  pub second_change :
      (s : State) (v m p : ℕ)
      → Touched ge n0 s
      → (s.node.not_logged ≡ false → IsClean s.node)
      → IsSettled ge n0 (record_node ge (record s { node = restated (s.node) v m }))
        × IsSettled ge n0 (save_cl0_insert ge (record s { node = restated (s.node) v m }))
        × IsSettled ge n0 (save_cl1_2_update ge p s)
  second_change s v m p t clean = (
    record {
      recorded = record_node-in_line ge n0 c s v m t;
      clean = record_node-IsClean s v m t clean;
    },
    record {
      recorded = save_cl0_insert-second ge n0 c s v m t;
      clean = save_cl0_insert-IsClean s v m t clean;
    },
    record {
      recorded = save_cl1_2_update-second ge n0 c s p t;
      clean = save_cl1_2_update-IsClean s p t clean;
    },
  )
