-- ===== src/Leaf.antt =====
-- masstree_struct.hh, `leaf<P>` with INCLL, masstree_insert.hh and masstree_remove.hh: one leaf
-- of 14 slots, its in-cache-line logs, and the operations of a cursor on it. `globalepoch` and
-- `failedepoch` are arguments. Of the external log a leaf's own records are kept, oldest first:
-- they are copies of the leaf, and `Extlog` has the buffer that holds them.
pub mod Content
pub mod Undoes
pub mod Again
use incll.Base.{
  ℕ, zero, suc, ◌+◌, ◌-◌, ◌≤◌, ◌<◌, Bool, true, false, not, ◌&&◌, ◌||◌, ltb, leb, ◌==◌,
  if◌then◌else◌, Option, none, some, List, [], ◌∷◌, ◌++◌, get_or, set,
}
use incll.Incll.{
  invalid_idx, key_mid, set_lv_idx_ge, set_loggedepoch, get_loggedepoch, invalidate_cl, is_cl_valid,
  recover_lv, recover_lv2,
}
use incll.Kpermuter
use incll.Nodeversion

abbrev pub width : ℕ
width = 14

abbrev pub modstate_insert : ℕ
modstate_insert = 0

abbrev pub modstate_remove : ℕ
modstate_remove = 1

abbrev pub modstate_deleted_layer : ℕ
modstate_deleted_layer = 2

abbrev pub ksuf_keylenx : ℕ
ksuf_keylenx = 64

abbrev pub layer_keylenx : ℕ
layer_keylenx = 128

-- Pointers are addresses, 0 for null; `lv` holds the words `u_.x` of the leaf values.
pub record Leaf : Type 0 where
  pub version : ℕ
  pub not_logged : Bool
  pub cl0_idx : ℕ
  pub loggedepoch : ℕ
  pub modstate : ℕ
  pub keylenx : List ℕ
  pub permutation : ℕ
  pub perm_cl0 : ℕ
  pub ksuf : ℕ
  pub ikey0 : List ℕ
  pub next : ℕ
  pub prev : ℕ
  pub parent : ℕ
  pub lv_cl1 : ℕ
  pub lv : List ℕ
  pub lv_cl2 : ℕ

-- A leaf with its records in the external log since the last checkpoint.
pub record State : Type 0 where
  pub node : Leaf
  pub log : List Leaf

unfoldable pub invalidate_cls : Leaf → Leaf
invalidate_cls n = record n {
  cl0_idx = invalid_idx;
  lv_cl1 = invalidate_cl n.lv_cl1;
  lv_cl2 = invalidate_cl n.lv_cl2;
}

-- `update_epochs(e)`; without an argument it takes the global epoch.
unfoldable pub update_epochs : Leaf → ℕ → Leaf
update_epochs n e = record n {
  loggedepoch = e;
  lv_cl1 = set_loggedepoch n.lv_cl1 e;
  lv_cl2 = set_loggedepoch n.lv_cl2 e;
}

-- `GH::node_logger->record(this)`
unfoldable pub record_log : State → State
record_log s = record s { log = s.log ++ s.node ∷ [] }

unfoldable pub record_node : ℕ → State → State
unfolding record_log invalidate_cls
record_node globalepoch s =
    if not (s.node.loggedepoch == globalepoch) || s.node.not_logged
    then (let logged = record_log (record s { node = record (s.node) { not_logged = false } }) in
        record logged {
          node = invalidate_cls (record (logged.node) { loggedepoch = globalepoch });
        })
    else s

unfoldable pub save_cl0_insert : ℕ → State → State
unfolding record_log invalidate_cls update_epochs
save_cl0_insert globalepoch s =
    if not (s.node.loggedepoch == globalepoch)
    then (let n : Leaf = record (s.node) { perm_cl0 = s.node.permutation; cl0_idx = 0 } in
        record s { node = record (update_epochs n globalepoch) { not_logged = true } })
    else if s.node.not_logged
    then (let logged = record_log (record s { node = record (s.node) { not_logged = false } }) in
        record logged { node = invalidate_cls logged.node })
    else s

-- The word of the line that holds slot `p` takes the old value.
unfoldable pub save_value : ℕ → ℕ → Leaf → Leaf
save_value globalepoch p n =
    if ltb p key_mid
    then record n { lv_cl1 = set_lv_idx_ge n.lv_cl1 (get_or n.lv p 0) p globalepoch }
    else record n { lv_cl2 = set_lv_idx_ge n.lv_cl2 (get_or n.lv p 0) (p - key_mid) globalepoch }

unfoldable pub save_cl1_2_update : ℕ → ℕ → State → State
unfolding record_log invalidate_cls update_epochs save_value
save_cl1_2_update globalepoch p s =
    if not (s.node.loggedepoch == globalepoch)
    then (let n = save_value globalepoch p s.node in
        record s { node = record (update_epochs n globalepoch) { not_logged = true } })
    else if s.node.not_logged
    then (let logged = record_log (record s { node = record (s.node) { not_logged = false } }) in
        record logged { node = invalidate_cls logged.node })
    else s

unfoldable pub reset_state : Leaf → Leaf
reset_state n =
    let cleared : ℕ = Nodeversion.clear_version_counter_bits n.version in
    record n { version = Nodeversion.clear_unlock cleared; modstate = modstate_insert }

unfoldable pub fix_all : Leaf → Leaf
unfolding reset_state
fix_all n = reset_state n

-- `globalepoch - 1` of unsigned words: the epochs start at 1.
unfoldable pub recover_final : ℕ → Leaf → Leaf
unfolding invalidate_cls update_epochs
recover_final globalepoch n = update_epochs (invalidate_cls n) (globalepoch - 1)

unfoldable pub undo_incll : ℕ → ℕ → Leaf → Leaf
unfolding recover_final
undo_incll globalepoch fe n =
    if (n.loggedepoch == fe) && not (n.cl0_idx == invalid_idx)
    then recover_final globalepoch (record n { permutation = n.perm_cl0 })
    else if (get_loggedepoch n.lv_cl1 == fe) && is_cl_valid n.lv_cl1
    then recover_final globalepoch (record n { lv = recover_lv n.lv_cl1 n.lv })
    else if (get_loggedepoch n.lv_cl2 == fe) && is_cl_valid n.lv_cl2
    then recover_final globalepoch (record n { lv = recover_lv2 n.lv_cl2 n.lv })
    else n

unfoldable pub lazy_recovery : ℕ → ℕ → Leaf → Leaf
unfolding undo_incll
lazy_recovery globalepoch fe n = if leb n.loggedepoch fe then undo_incll globalepoch fe n else n

-- What the external log's `undo` does to this leaf: each record is copied back and fixed.
unfoldable pub undo_log : List Leaf → Leaf → Leaf
undo_log [] n = n
undo_log (r ∷ rs) n = undo_log rs (fix_all r)

-- Restart after a failure in epoch `fe`: the log first, then the first visit of the leaf.
unfoldable pub restart : ℕ → ℕ → State → Leaf
unfolding undo_log lazy_recovery
restart globalepoch fe s = lazy_recovery globalepoch fe (undo_log s.log s.node)
