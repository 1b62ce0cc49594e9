-- ===== src/Leafsplit.antt =====
-- masstree_split.hh, `leaf<P>::split_into`, and `assign_initialize` of masstree_struct.hh: how a
-- full leaf gives its upper part to a new leaf. The leaves stand at the addresses `this_at` and
-- `nr_at` of the store of links. Suffixes go to the leaf's bag and are left out.
pub mod Middle
pub mod Fill
pub mod Right
pub mod Examples
use incll.Base.{
  ℕ, zero, suc, ◌+◌, ◌-◌, ◌/◌, Bool, not, ◌&&◌, ltb, leb, ◌==◌, if◌then◌else◌, get_or, set, bit_and,
  shr,
}
use incll.Kpermuter
use incll.Leaf.{Leaf, width, ksuf_keylenx}
use incll.Leaflink.{Links, link_split}

-- A key to be inserted: its slice and its length.
pub record Key : Type 0 where
  pub ikey : ℕ
  pub length : ℕ

unfoldable pub assign_initialize : ℕ → Key → Leaf → Leaf
assign_initialize p ka n = record n {
  lv = set n.lv p 0;
  ikey0 = set n.ikey0 p ka.ikey;
  keylenx = set n.keylenx p (if ltb 8 ka.length then ksuf_keylenx else ka.length);
}

unfoldable pub assign_initialize_from : ℕ → Leaf → ℕ → Leaf → Leaf
assign_initialize_from p x xp n = record n {
  lv = set n.lv p (get_or x.lv xp 0);
  ikey0 = set n.ikey0 p (get_or x.ikey0 xp 0);
  keylenx = set n.keylenx p (get_or x.keylenx xp 0);
}

unfoldable pub ikey_after_insert : Leaf → ℕ → ℕ → Key → ℕ → ℕ
ikey_after_insert this perm i ka ka_i =
    if ltb i ka_i
    then get_or this.ikey0 (Kpermuter.elem perm i) 0
    else if i == ka_i
    then ka.ikey
    else get_or this.ikey0 (Kpermuter.elem perm (i - 1)) 0

-- The rounds of the search for a place between different slices, to both sides. `l` is `midl + 1`:
-- it stays 0 where `midl` is negative.
unfoldable pub search_mid : (ℕ → ℕ) → ℕ → ℕ → ℕ → ℕ → ℕ → ℕ
search_mid after size mid_ikey zero l midr = midr
search_mid after size mid_ikey (suc fuel) l midr =
    let further : ℕ = search_mid after size mid_ikey fuel (l - 1) (midr + 1) in
    if leb midr size && not (mid_ikey == after midr)
    then midr
    else if ltb 0 l && not (mid_ikey == after (l - 1))
    then l
    else further

unfoldable pub first_mid : ℕ → ℕ → Links → ℕ → ℕ
first_mid size p h this_at =
    if (p == 0) && (h.prev this_at == 0)
    then 1
    else if (p == size) && (h.next this_at == 0)
    then size
    else width / 2 + 1

-- The position of the first item that goes to the new leaf.
unfoldable pub find_mid : (ℕ → ℕ) → ℕ → ℕ → ℕ
unfolding search_mid
find_mid after size mid =
    if after mid == after (mid - 1)
    then search_mid after size (after mid) (size + 1) (mid - 1) (mid + 1)
    else mid

-- `count` rounds of the loop that fills the new leaf, from item `x`; `pv` holds the slots to come.
unfoldable pub fill : Leaf → ℕ → Key → ℕ → ℕ → ℕ → ℕ → Leaf → Leaf
unfolding assign_initialize assign_initialize_from
fill this p ka mid zero x pv nr = nr
fill this p ka mid (suc count) x pv nr =
    let own : Leaf = assign_initialize (x - mid) ka nr in
    let moved : Leaf = assign_initialize_from (x - mid) this (bit_and pv 15) nr in
    fill this p ka mid count (x + 1) (if x == p then pv else shr pv 4)
      (if x == p then own else moved)

pub record Split : Type 0 where
  pub right : Leaf
  pub links : Links
  pub split_ikey : ℕ
  pub split_type : ℕ

-- The part of `split_into` behind the search
unfoldable pub split_at : ℕ → ℕ → Leaf → Leaf → ℕ → Key → Links → ℕ → Split
unfolding fill
split_at this_at nr_at this nr p ka h mid =
    let perml : ℕ = this.permutation in
    let size : ℕ = Kpermuter.size perml in
    let pv : ℕ = Kpermuter.value_from perml (mid - (if ltb p mid then 1 else 0)) in
    let filled : Leaf = fill this p ka mid (size + 1 - mid) mid pv nr in
    let sorted : ℕ = Kpermuter.make_sorted width (size + 1 - mid) in
    let permr : ℕ = if leb mid p then Kpermuter.remove_to_back width sorted (p - mid) else sorted in
    record {
      right = record filled { permutation = permr };
      links = link_split this_at nr_at h;
      split_ikey = get_or filled.ikey0 0 0;
      split_type = if leb mid p then 1 + (if mid == size then 1 else 0) else 0;
    }

unfoldable pub split_into : ℕ → ℕ → Leaf → Leaf → ℕ → Key → Links → Split
unfolding first_mid find_mid ikey_after_insert split_at
split_into this_at nr_at this nr p ka h =
    let size : ℕ = Kpermuter.size this.permutation in
    let mid : ℕ =
      find_mid (λ i. ikey_after_insert this this.permutation i ka p) size
        (first_mid size p h this_at) in
    split_at this_at nr_at this nr p ka h mid
