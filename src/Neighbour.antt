-- ===== src/Neighbour.antt =====
-- masstree_struct.hh, `get_max_leaf`, `get_min_leaf`, `get_prev_safe` and `get_next_safe`: the
-- leaves beside a leaf, found over the parents and not over the links between the leaves, as the
-- external log does when it undoes a failed epoch. The result is an address, 0 for null; `none` is an
-- assertion that fails, or the end of the fuel; the assertions that the leaf found is not the one at
-- hand are left out.
pub mod Ends
pub mod Range
pub mod Examples
use incll.Base.{
  ℕ, zero, suc, ◌+◌, ◌-◌, Bool, true, false, ltb, ◌==◌, if◌then◌else◌, Option, none, some,
}
use incll.Nodeversion
use incll.Internode.{Internode, find_child_idx}
use incll.Descent.{Store}

module _ (s : Store) where
  unfoldable pub get_max_leaf : ℕ → ℕ → Option ℕ
  get_max_leaf zero n = none
  get_max_leaf (suc fuel) n =
      let last : ℕ = (s.inner n).child ((s.inner n).nkeys) in
      let below : Option ℕ = get_max_leaf fuel last in
      if Nodeversion.isleaf (s.version n) then some n else if last == 0 then none else below

  unfoldable pub get_min_leaf : ℕ → ℕ → Option ℕ
  get_min_leaf zero n = none
  get_min_leaf (suc fuel) n =
      let bound : Option ℕ = get_min_leaf fuel ((s.inner n).child 0) in
      let normal : Option ℕ = get_min_leaf fuel ((s.inner n).child 1) in
      if Nodeversion.isleaf (s.version n)
      then some n
      else if (s.inner n).child 0 == 0
      then if (s.inner n).child 1 == 0 then none else normal
      else bound

  -- The child in front of the one at `idx`, or 0
  unfoldable pub child_before : Internode → ℕ → ℕ
  child_before pin idx = if ltb 0 idx then pin.child (idx - 1) else 0

  -- The loops, from the node `cn` on
  unfoldable pub get_prev_safe : ℕ → ℕ → Option ℕ
  unfolding get_max_leaf child_before
  get_prev_safe zero cn = none
  get_prev_safe (suc fuel) cn =
      let pn : ℕ = s.parent cn in
      let up : Option ℕ = get_prev_safe fuel pn in
      if pn == 0 then some 0 else (elim (find_child_idx cn (s.inner pn)) [
        | none ↦ none
        | some idx ↦
            if child_before (s.inner pn) idx == 0
            then up
            else get_max_leaf fuel (child_before (s.inner pn) idx)
      ])

  unfoldable pub get_next_safe : ℕ → ℕ → Option ℕ
  unfolding get_min_leaf
  get_next_safe zero cn = none
  get_next_safe (suc fuel) cn =
      let pn : ℕ = s.parent cn in
      let up : Option ℕ = get_next_safe fuel pn in
      if pn == 0 then some 0 else (elim (find_child_idx cn (s.inner pn)) [
        | none ↦ none
        | some idx ↦
            let beside : ℕ = (s.inner pn).child (idx + 1) in
            let least : Option ℕ = get_min_leaf fuel beside in
            if ltb idx ((s.inner pn).nkeys) then if beside == 0 then none else least else up
      ])
