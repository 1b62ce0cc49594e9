-- ===== src/Lookup.antt =====
-- masstree_get.hh, `unlocked_tcursor<P>::find_unlocked` and `basic_table<P>::get`, with
-- `leaf<P>::ksuf_matches` and `advance_to_key` of masstree_struct.hh: the search for a key from the
-- root of the tree, layer by layer, by a thread that no other one disturbs. Keys and suffixes stand
-- in the memory `mem`; `ksuf` tells the place of the suffix of a slot, of which `Ksuf` has the bags.
-- A step leads from one label of the code to the next, `count` bounds the steps of `reach_leaf`,
-- and `none` is a wait that no other thread ends.
pub mod Layer
pub mod Slots
pub mod Suffix
pub mod Round
pub mod Refines
pub mod Advance
pub mod Linked
pub mod Examples
use incll.Base.{
  ℕ, zero, suc, ◌+◌, ◌-◌, ◌%◌, Bool, true, false, not, ◌&&◌, ◌||◌, ltb, ◌==◌, if◌then◌else◌, Option,
  none, some, get_or,
}
use incll.Ksearch.{Sign, negative, null, positive, KeyIndexedPosition, key_lower_bound_by}
use incll.Kpermuter
use incll.Nodeversion
use incll.Slice.{compare, equals_sloppy}
use incll.Key.{Key, compare_ikey, key, shift_by}
use incll.Leaf.{Leaf, ksuf_keylenx, layer_keylenx, lazy_recovery}
use incll.Descent.{
  Store, Position, climbing, orphan, descending, chosen, reading, checked, changed, comparing,
  recomparing, compared, found, run,
}

pub record Str : Type 0 where
  pub s : ℕ
  pub len : ℕ

-- The result of `ksuf_matches`: 0, 1, or a negative number, of which the absolute value is kept
pub data Match : Type 0 where
  different same : Match
  layer : ℕ → Match

-- Where a search is: at `retry` and at `forward` of `find_unlocked`, and at its end
pub data Label : Type 0 where
  retry : Key → ℕ → Label
  forward : Key → ℕ → ℕ → ℕ → Label
  done : Option ℕ → Label

unfoldable pub compare_key : Key → Leaf → ℕ → Sign
unfolding compare_ikey
compare_key k n bp = compare_ikey k (get_or n.ikey0 bp 0) (get_or n.keylenx bp 0)

-- `bound_type::lower`: `nodeparams` chooses the binary search.
unfoldable pub lower : Key → Leaf → KeyIndexedPosition
lower k n =
    key_lower_bound_by (Kpermuter.elem n.permutation) (compare_key k n)
      (Kpermuter.size n.permutation)

-- The slot of the last key: `perm[perm.size() - 1]`. With no key the index is -1 and the word is
-- shifted by no bits, so that it is the size that is taken for a slot.
unfoldable pub last_slot : ℕ → ℕ
last_slot perm =
    let size : ℕ = Kpermuter.size perm in if size == 0 then size else Kpermuter.elem perm (size - 1)

-- The thread reads the last key once, since no other one changes the node.
unfoldable pub stable_last_key_compare : Key → Leaf → Sign
unfolding compare_key last_slot
stable_last_key_compare k n = compare_key k n (last_slot n.permutation)

-- `safe_next`, without the mark in the lowest bit
unfoldable pub safe_next : Leaf → ℕ
safe_next n = n.next - n.next % 2

-- `stable_annotated` of the node
unfoldable pub stable_version : Store → ℕ → Option ℕ
stable_version s n =
    if Nodeversion.has (s.version n) Nodeversion.dirty_mask then none else some (s.version n)

-- Whether the loop of `advance_to_key` goes on from the leaf `n` of version `v`
unfoldable pub goes_on : Store → Key → ℕ → ℕ → Bool
unfolding safe_next
goes_on s k n v =
    not (Nodeversion.deleted v)
    && not (safe_next (s.leaf n) == 0)
    && (elim (compare k.ikey0 (get_or (s.leaf (safe_next (s.leaf n))).ikey0 0 0)) [
      | negative ↦ false
      | null ↦ true
      | positive ↦ true
    ])

-- That loop, with fuel
unfoldable pub leaf_walk : Store → Key → ℕ → ℕ → ℕ → Option (ℕ × ℕ)
unfolding goes_on stable_version safe_next
leaf_walk s k zero n v = none
leaf_walk s k (suc fuel) n v =
    let rest : ℕ → Option (ℕ × ℕ) = leaf_walk s k fuel (safe_next (s.leaf n)) in
    if goes_on s k n v
    then (elim (stable_version s (safe_next (s.leaf n))) [ none ↦ none | some w ↦ rest w ])
    else some (n, v)

-- The leaf and its version, of the leaf `n` that had the version `oldv`
unfoldable pub advance_to_key : ℕ → Store → Key → ℕ → ℕ → Option (ℕ × ℕ)
unfolding stable_version stable_last_key_compare leaf_walk
advance_to_key fuel s k n oldv = elim (stable_version s n) [
  | none ↦ none
  | some v ↦
      if Nodeversion.has_split v oldv
      then (elim (stable_last_key_compare k (s.leaf n)) [
        | negative ↦ some (n, v)
        | null ↦ some (n, v)
        | positive ↦ leaf_walk s k fuel n v
      ])
      else some (n, v)
]

-- The leaf that `reach_leaf` has returned, with its version
unfoldable pub landed : Position → Option (ℕ × ℕ)
landed (found n v) = some (n, v)
landed _ = none

unfoldable pub ended : Store → Label → Option (Store × Option ℕ)
ended s (retry k root) = none
ended s (forward k root n v) = none
ended s (done r) = some (s, r)

module _ (mem : ℕ → ℕ) (ksuf : ℕ → ℕ → Str) where
  -- The slot `p` of the leaf at the address `a`
  unfoldable pub ksuf_matches : ℕ → Leaf → ℕ → Key → Match
  ksuf_matches a n p k =
      let keylenx : ℕ = get_or n.keylenx p 0 in
      let t : Str = ksuf a p in
      if ltb keylenx ksuf_keylenx
      then same
      else if keylenx == layer_keylenx
      then layer 8
      else if (t.len == (k.len - 8)) && equals_sloppy mem t.s (k.s + 8) t.len
      then same
      else different

  -- The end of a round: where it leads without a change of the leaf, whose `lv` was read
  unfoldable pub conclude : Key → Match → ℕ → Label
  unfolding shift_by
  conclude k different lv = done none
  conclude k same lv = done (some lv)
  conclude k (layer n) lv = retry (shift_by mem n k) lv

  -- `match` for the position that the search of the leaf tells, with the value there
  unfoldable pub look : ℕ → Leaf → Key → Match × ℕ
  unfolding lower ksuf_matches
  look a n k = elim ((lower k n).p) [
    | none ↦ (different, 0)
    | some p ↦ (ksuf_matches a n p k, get_or n.lv p 0)
  ]

  module _ (globalepoch failedepoch count : ℕ) where
    -- `n_->lazy_recovery(failedepoch)`
    unfoldable pub visit : ℕ → Store → Store
    visit n s = record s {
      leaf = λ a. if a == n then lazy_recovery globalepoch failedepoch (s.leaf a) else s.leaf a;
    }

    unfoldable pub step : Store → Label → Option (Store × Label)
    unfolding visit look conclude advance_to_key landed
    step s (retry k root) = elim (landed (run root k.ikey0 (λ t. s) 0 count (climbing root))) [
      | none ↦ none
      | some r ↦ some (visit (r.0) s, forward k root (r.0) (r.1))
    ]
    step s (forward k root n v) =
        if Nodeversion.deleted v
        then some (s, retry k root)
        else if Nodeversion.has_changed (s.version n) v
        then (elim (advance_to_key count s k n v) [
          | none ↦ none
          | some r ↦ some (s, forward k root (r.0) (r.1))
        ])
        else (let r = look n (s.leaf n) k in some (s, conclude k (r.0) (r.1)))
    step s (done r) = some (s, done r)

    unfoldable pub steps : ℕ → Store → Label → Option (Store × Label)
    unfolding step
    steps zero s l = some (s, l)
    steps (suc fuel) s l = elim (step s l) [ none ↦ none | some r ↦ steps fuel (r.0) (r.1) ]

    -- `none`: there is no end within the fuel.
    unfoldable pub find_unlocked : ℕ → Store → Key → ℕ → Option (Store × Option ℕ)
    unfolding steps ended
    find_unlocked fuel s k root = elim (steps fuel s (retry k root)) [
      | none ↦ none
      | some r ↦ ended (r.0) (r.1)
    ]

    -- The key is the string of `len` characters at `a`.
    unfoldable pub get : ℕ → Store → ℕ → ℕ → ℕ → Option (Store × Option ℕ)
    unfolding find_unlocked
    get fuel s root a len = find_unlocked fuel s (key mem a len) root
