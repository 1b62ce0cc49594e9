-- ===== src/Ksearch.antt =====
-- ksearch.hh: the bounds of a key among the keys of a node, by binary and by linear search. The
-- node is given by its size, its permutation and the comparison of the key with a slot. The loops
-- take fuel; the number of keys is enough.
pub mod Bounds
pub mod Loops
pub mod Agree
pub mod Examples
use incll.Base.{ℕ, zero, suc, ◌+◌, ◌/◌, ltb, if◌then◌else◌, Option, none, some}

-- The sign of a comparator's result.
pub data Sign : Type 0 where
  negative null positive : Sign

-- `p` is -1, here `none`, where the key is not found.
pub record KeyIndexedPosition : Type 0 where
  pub i : ℕ
  pub p : Option ℕ

module _ (perm : ℕ → ℕ) (comparator : ℕ → Sign) where
  unfoldable pub upper_loop : ℕ → ℕ → ℕ → ℕ
  upper_loop zero l r = l
  upper_loop (suc fuel) l r =
      let m : ℕ = (l + r) / 2 in
      let left : ℕ = upper_loop fuel l m in
      let right : ℕ = upper_loop fuel (m + 1) r in
      if ltb l r
      then (elim (comparator (perm m)) [ negative ↦ left | null ↦ m + 1 | positive ↦ right ])
      else l

  unfoldable pub lower_loop : ℕ → ℕ → ℕ → KeyIndexedPosition
  lower_loop zero l r = record { i = l; p = none }
  lower_loop (suc fuel) l r =
      let m : ℕ = (l + r) / 2 in
      let left : KeyIndexedPosition = lower_loop fuel l m in
      let right : KeyIndexedPosition = lower_loop fuel (m + 1) r in
      if ltb l r
      then (elim (comparator (perm m)) [
        | negative ↦ left
        | null ↦ record { i = m; p = some (perm m) }
        | positive ↦ right
      ])
      else record { i = l; p = none }

  unfoldable pub find_upper_loop : ℕ → ℕ → ℕ → ℕ
  find_upper_loop zero l r = l
  find_upper_loop (suc fuel) l r =
      let next : ℕ = find_upper_loop fuel (l + 1) r in
      if ltb l r
      then (elim (comparator (perm l)) [ negative ↦ l | null ↦ next | positive ↦ next ])
      else l

  unfoldable pub find_lower_loop : ℕ → ℕ → ℕ → KeyIndexedPosition
  find_lower_loop zero l r = record { i = l; p = none }
  find_lower_loop (suc fuel) l r =
      let next : KeyIndexedPosition = find_lower_loop fuel (l + 1) r in
      if ltb l r
      then (elim (comparator (perm l)) [
        | negative ↦ record { i = l; p = none }
        | null ↦ record { i = l; p = some (perm l) }
        | positive ↦ next
      ])
      else record { i = l; p = none }

  unfoldable pub key_upper_bound_by : ℕ → ℕ
  key_upper_bound_by size = upper_loop size 0 size

  unfoldable pub key_lower_bound_by : ℕ → KeyIndexedPosition
  key_lower_bound_by size = lower_loop size 0 size

  unfoldable pub key_find_upper_bound_by : ℕ → ℕ
  key_find_upper_bound_by size = find_upper_loop size 0 size

  unfoldable pub key_find_lower_bound_by : ℕ → KeyIndexedPosition
  key_find_lower_bound_by size = find_lower_loop size 0 size
