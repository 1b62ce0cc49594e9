-- ===== src/Internode.antt =====
-- masstree_struct.hh and masstree_split.hh, `internode<P>`: a node of keys and children, and its
-- split. Arrays are functions of the index; nodes are named by their addresses. The parent
-- pointers of the children, their locks and the calls of `lock_persistent` are kept in `World`.
pub mod Arrays
pub mod Halves
pub mod Parents
pub mod Examples
use incll.Base.{
  ℕ, zero, suc, ◌+◌, ◌-◌, ◌/◌, Bool, true, false, not, ◌&&◌, ◌||◌, ltb, leb, ◌==◌, if◌then◌else◌,
  Option, none, some, List, [], ◌∷◌, ◌++◌,
}
use incll.Nodeversion

pub record Internode : Type 0 where
  pub version : ℕ
  pub nkeys : ℕ
  pub height : ℕ
  pub ikey0 : ℕ → ℕ
  pub child : ℕ → ℕ

pub record World : Type 0 where
  pub parent : ℕ → ℕ
  pub locked : ℕ → Bool
  pub persisted : List ℕ

-- `a[i] = v`
unfoldable pub store : (ℕ → ℕ) → ℕ → ℕ → ℕ → ℕ
store a i v j = if j == i then v else a j

-- `memcpy(a + p, x + xp, n)` and, on the same array, `memmove`
unfoldable pub copy : (ℕ → ℕ) → ℕ → (ℕ → ℕ) → ℕ → ℕ → ℕ → ℕ
copy a p x xp n j = if leb p j && ltb j (p + n) then x (xp + (j - p)) else a j

unfoldable pub set_parent : ℕ → ℕ → World → World
set_parent c n w = record w { parent = store w.parent c n }

-- Besides, `assign` makes the node the parent of the child.
unfoldable pub assign : ℕ → ℕ → ℕ → Internode → Internode
assign p ikey c n = record n { child = store n.child (p + 1) c; ikey0 = store n.ikey0 p ikey }

unfoldable pub shift_from : ℕ → Internode → ℕ → ℕ → Internode → Internode
shift_from p x xp n this = record this {
  ikey0 = copy this.ikey0 p x.ikey0 xp n;
  child = copy this.child (p + 1) x.child (xp + 1) n;
}

-- The loop of `shift_up`, from the last child on down.
unfoldable pub copy_up : (ℕ → ℕ) → ℕ → ℕ → ℕ → ℕ → ℕ
copy_up a p xp zero = a
copy_up a p xp (suc n) = copy_up (store a (p + suc n) (a (xp + suc n))) p xp n

unfoldable pub shift_up : ℕ → ℕ → ℕ → Internode → Internode
unfolding copy_up
shift_up p xp n this = record this {
  ikey0 = copy this.ikey0 p this.ikey0 xp n;
  child = copy_up this.child p xp n;
}

-- The loop of `shift_down`, from the first child on up.
unfoldable pub copy_down : (ℕ → ℕ) → ℕ → ℕ → ℕ → ℕ → ℕ
copy_down a p xp zero = a
copy_down a p xp (suc n) = copy_down (store a (p + 1) (a (xp + 1))) (p + 1) (xp + 1) n

unfoldable pub shift_down : ℕ → ℕ → ℕ → Internode → Internode
unfolding copy_down
shift_down p xp n this = record this {
  ikey0 = copy this.ikey0 p this.ikey0 xp n;
  child = copy_down this.child p xp n;
}

-- The index of the first child from `i` on that is `c`, of the `n` next ones.
unfoldable pub find_from : (ℕ → ℕ) → ℕ → ℕ → ℕ → Option ℕ
find_from child c i zero = none
find_from child c i (suc n) =
    let rest = find_from child c (i + 1) n in if child i == c then some i else rest

-- `none` stands for -1, which the assertion after the loop excludes.
unfoldable pub find_child_idx : ℕ → Internode → Option ℕ
unfolding find_from
find_child_idx c n = find_from n.child c 0 (n.nkeys + 1)

-- One round of the loop that gives the children of `nr` their new parent.
unfoldable pub adopt : ℕ → ℕ → World → World
unfolding set_parent
adopt nr c w =
    set_parent c nr (if not (w.locked c) then record w { persisted = w.persisted ++ c ∷ [] } else w)

unfoldable pub adopt_all : ℕ → (ℕ → ℕ) → ℕ → ℕ → World → World
unfolding adopt
adopt_all nr child i zero w = w
adopt_all nr child i (suc n) w = adopt_all nr child (i + 1) n (adopt nr (child i) w)

-- What `split_into` leaves: the node, the new node, the key between them, and its result, `none`
-- for -1.
pub record Split : Type 0 where
  pub left : Internode
  pub right : Internode
  pub split_ikey : ℕ
  pub place : Option ℕ

module _ (width : ℕ) where
  unfoldable pub middle : ℕ → ℕ
  middle split_type = if split_type == 2 then width else (width + 1) / 2

  -- The part of `split_into` before the children are given their parent.
  unfoldable pub move_right : Internode → Internode → ℕ → ℕ → ℕ → ℕ → Internode × ℕ
  unfolding shift_from assign
  move_right this nr p ka value mid =
      let empty : Internode = record nr { nkeys = width + 1 - (mid + 1) } in
      if ltb p mid
      then (
        shift_from 0 this mid (width - mid)
            (record empty { child = store empty.child 0 (this.child mid) }),
        this.ikey0 (mid - 1),
      )
      else if p == mid
      then (
        shift_from 0 this mid (width - mid) (record empty { child = store empty.child 0 value }),
        ka,
      )
      else (let start : Internode = record empty {
        child = store empty.child 0 (this.child (mid + 1));
      } in
          let first : Internode = shift_from 0 this (mid + 1) (p - (mid + 1)) start in
          let second : Internode = assign (p - (mid + 1)) ka value first in
          (shift_from (p + 1 - (mid + 1)) this p (width - p) second, this.ikey0 mid))

  unfoldable pub split_into : Internode → Internode → ℕ → ℕ → ℕ → ℕ → Split
  unfolding move_right
  split_into this nr p ka value split_type =
      let mid : ℕ = middle split_type in
      let moved = move_right this nr p ka value mid in
      let marked : Internode = record this { version = Nodeversion.mark_split this.version } in
      if ltb p mid
      then record {
        left = record marked { nkeys = mid - 1 };
        right = moved.0;
        split_ikey = moved.1;
        place = some p;
      }
      else record {
        left = record marked { nkeys = mid };
        right = moved.0;
        split_ikey = moved.1;
        place = none;
      }

-- `nr->assign` of the inserted child, where `split_into` calls it
unfoldable pub assign_world : ℕ → ℕ → ℕ → ℕ → World → World
unfolding set_parent
assign_world nr p value mid w = if ltb mid p then set_parent value nr w else w

-- What `split_into` does to the children of the new node `nr`, `right` being its contents.
unfoldable pub split_world : ℕ → ℕ → ℕ → ℕ → Internode → World → World
unfolding adopt_all assign_world
split_world nr p value mid right w =
    adopt_all nr right.child 0 (right.nkeys + 1) (assign_world nr p value mid w)

-- `p->assign` of the inserted child in `make_split`, if (kp >= 0)
unfoldable pub place_world : Option ℕ → ℕ → ℕ → World → World
unfolding set_parent
place_world none this value w = w
place_world (some kp) this value w = set_parent value this w

-- The parents after `split_into` of the node `this` at the address `a` into it and `nr` at `b`, and
-- after the insertion of `value` that follows
unfoldable pub split_parents : ℕ → ℕ → ℕ → Internode → Internode → ℕ → ℕ → ℕ → ℕ → World → World
unfolding split_into split_world place_world
split_parents width a b this nr p ka value split_type w =
    let s : Split = split_into width this nr p ka value split_type in
    place_world s.place a value (split_world b p value (middle width split_type) s.right w)

-- The insertion of a child behind position `kp` of `make_split`.
unfoldable pub insert_child : ℕ → ℕ → ℕ → Internode → Internode
unfolding shift_up assign
insert_child kp ikey c p =
    let shifted : Internode = shift_up (kp + 1) kp (p.nkeys - kp) p in
    let put : Internode = assign kp ikey c shifted in record put { nkeys = put.nkeys + 1 }

-- `if (kp >= 0)` after a split
unfoldable pub insert_place : Option ℕ → ℕ → ℕ → Internode → Internode
unfolding insert_child
insert_place none ikey c p = p
insert_place (some kp) ikey c p = insert_child kp ikey c p
