-- ===== src/Descent.antt =====
-- masstree_struct.hh, `node_base<P>::reach_leaf`: the way from a node to the leaf of its layer that
-- is responsible for a slice. Each step reads the shared memory once, and another thread may change
-- it before the next; a search among the keys of a node counts as one read. The spinning reads of
-- `stable` stay where they are.
pub mod Tree
pub mod Quiet
pub mod Way
pub mod Reads
pub mod Examples
use incll.Base.{ℕ, zero, suc, ◌+◌, ◌-◌, Bool, true, false, ◌==◌, if◌then◌else◌}
use incll.Ksearch.{Sign, negative, null, positive, key_upper_bound_by}
use incll.Slice.{compare}
use incll.Internode.{Internode}
use incll.Leaf.{Leaf}
use incll.Nodeversion

-- The nodes by their addresses, 0 for null. The versions and parents of all nodes stand apart.
pub record Store : Type 0 where
  pub version : ℕ → ℕ
  pub parent : ℕ → ℕ
  pub inner : ℕ → Internode
  pub leaf : ℕ → Leaf

-- Where a search is: before it reads the version of a node that may be the root, or that node's
-- parent; at a node with a stable version; with the index of a child; with a child; with the
-- child's version; at a node that has changed; before and after it compares the last key again,
-- and where that must be repeated; at its end.
pub data Position : Type 0 where
  climbing orphan : ℕ → Position
  descending : ℕ → ℕ → Position
  chosen reading : ℕ → ℕ → ℕ → Position
  checked : ℕ → ℕ → ℕ → ℕ → Position
  changed : ℕ → ℕ → Position
  comparing recomparing : ℕ → ℕ → ℕ → Position
  compared : ℕ → ℕ → ℕ → Sign → Position
  found : ℕ → ℕ → Position

-- `internode::compare_key`
unfoldable pub compare_key : ℕ → Internode → ℕ → Sign
unfolding compare
compare_key ikey n p = compare ikey (n.ikey0 p)

-- `bound_type::upper`: `nodeparams` chooses the binary search.
unfoldable pub upper : ℕ → Internode → ℕ
upper ikey n = key_upper_bound_by (λ i. i) (compare_key ikey n) n.nkeys

-- One round of `stable`: what to do with the word if it is clean
unfoldable pub stable : ℕ → Position → Position → Position
stable v spin next = if Nodeversion.has v Nodeversion.dirty_mask then spin else next

-- A step from `this` on
unfoldable pub advance : ℕ → ℕ → Store → Position → Position
unfolding compare_key stable
advance this ikey s (climbing n) =
    stable (s.version n) (climbing n)
      (if Nodeversion.is_root (s.version n) then descending n (s.version n) else orphan n)
advance this ikey s (orphan n) = climbing (if s.parent n == 0 then n else s.parent n)
advance this ikey s (descending n v) =
    if Nodeversion.isleaf v then found n v else chosen n v (upper ikey (s.inner n))
advance this ikey s (chosen n v kp) =
    if (s.inner n).child kp == 0 then climbing this else reading n v ((s.inner n).child kp)
advance this ikey s (reading n v c) =
    stable (s.version c) (reading n v c) (checked n v c (s.version c))
advance this ikey s (checked n v c w) =
    if Nodeversion.has_changed (s.version n) v then changed n v else descending c w
advance this ikey s (changed n oldv) = stable (s.version n) (changed n oldv) (
    if Nodeversion.has_split oldv (s.version n)
    then comparing n (s.version n) (s.version n)
    else descending n (s.version n))
advance this ikey s (comparing n v u) =
    compared n v u (compare_key ikey (s.inner n) ((s.inner n).nkeys - 1))
advance this ikey s (compared n v u cmp) =
    if Nodeversion.has_changed (s.version n) u
    then recomparing n v u
    else elim cmp [ negative ↦ descending n v | null ↦ descending n v | positive ↦ climbing this ]
advance this ikey s (recomparing n v u) =
    stable (s.version n) (recomparing n v u) (comparing n v (s.version n))
advance this ikey s (found n v) = found n v

-- `count` steps from the time `t` on, in a memory that changes with the time
unfoldable pub run : ℕ → ℕ → (ℕ → Store) → ℕ → ℕ → Position → Position
unfolding advance
run this ikey mem t zero p = p
run this ikey mem t (suc count) p = run this ikey mem (t + 1) count (advance this ikey (mem t) p)
