-- ===== src/Cursor.antt =====
-- masstree_insert.hh and masstree_remove.hh, as far as they change the leaf that the cursor holds:
-- where `find_insert` logs, which slot it takes, and what `finish` stores. The search before is in
-- `Ksearch`; here its result is given.
pub mod Stores
pub mod Phase
pub mod Recorders
pub mod First
pub mod Ops
pub mod Safety
pub mod Faults
pub mod Examples
use incll.Base.{
  ℕ, ◌+◌, ◌≤◌, ◌<◌, ◌≡◌, Bool, true, false, not, ◌||◌, ◌&&◌, ltb, leb, ◌==◌, if◌then◌else◌, Option,
  none, some, List, [], ◌∷◌, ◌++◌, get_or, set,
}
use incll.Leaf.{
  Leaf, State, width, modstate_insert, modstate_remove, ksuf_keylenx, layer_keylenx, record_node,
  save_cl0_insert, save_cl1_2_update,
}
use incll.Kpermuter
use incll.Nodeversion

-- How `find_insert` goes on: with the slot of a key that is present, with a layer below the slot
-- of a key that shares the slice, with a free slot, or with a split.
pub data Next : Type 0 where
  present new_layer free : ℕ → Next
  must_split : Next

unfoldable pub last : State → List State → State
last s [] = s
last s (t ∷ ts) = last t ts

-- A sequence of stores to the leaf, in the order of the program, and the states after each of them
unfoldable pub after : List (Leaf → Leaf) → State → List State
after [] s = []
after (store ∷ stores) s = let t : State = record s { node = store s.node } in t ∷ after stores t

-- `leaf<P>::assign` of a key of `len` bytes. For a longer key `assign_ksuf` then leaves the pointer
-- `bag` in `ksuf_`; the bags themselves are in `Ksuf`.
unfoldable pub assign : ℕ → ℕ → ℕ → ℕ → List (Leaf → Leaf)
assign p ikey len bag =
    (λ n. record n { lv = set n.lv p 0 })
    ∷ (λ n. record n { ikey0 = set n.ikey0 p ikey })
    ∷ (if leb len 8
        then (λ n. record n { keylenx = set n.keylenx p len }) ∷ []
        else (λ n. record n { keylenx = set n.keylenx p ksuf_keylenx })
          ∷ (λ n. record n { ksuf = bag })
          ∷ [])

-- A key may be put into the leaf after removals only once readers will retry.
unfoldable pub enter_insert : Leaf → List (Leaf → Leaf)
enter_insert n =
    if not (n.modstate == modstate_insert)
    then (λ n. record n { version = Nodeversion.mark_insert n.version })
      ∷ (λ n. record n { modstate = modstate_insert })
      ∷ []
    else []

-- Position 0 holds the lower bound of the leaf, and is not taken for another key.
unfoldable pub may_take : ℕ → ℕ → Leaf → Bool
may_take p ikey n = not (p == 0) || (n.prev == 0) || (get_or n.ikey0 0 0 == ikey)

-- Here and below: the states after each store, and how it goes on from the last one. A function
-- that logs counts as one store.
unfoldable pub take_slot : ℕ → ℕ → ℕ → ℕ → State → List State × Next
unfolding after assign
take_slot globalepoch ikey len bag s =
    let p = Kpermuter.back width s.node.permutation in
    if ltb (Kpermuter.size s.node.permutation) width && may_take p ikey s.node
    then (let saved = save_cl0_insert globalepoch s in
        (saved ∷ after (assign p ikey len bag) saved, free p))
    else (record_node globalepoch s ∷ [], must_split)

unfoldable pub find_absent : ℕ → ℕ → ℕ → ℕ → State → List State × Next
unfolding enter_insert take_slot last
find_absent globalepoch ikey len bag s =
    let entered : List State = after (enter_insert s.node) s in
    let taken : List State × Next = take_slot globalepoch ikey len bag (last s entered) in
    (entered ++ taken.0, taken.1)

-- What the search for the key has found, by `state_` and `kx_.p`: the key in a slot, another key
-- with the same slice in a slot, or neither.
pub data Match : Type 0 where
  key_at slice_at : ℕ → Match
  no_match : Match

unfoldable pub find_insert : ℕ → Match → ℕ → ℕ → ℕ → State → List State × Next
unfolding find_absent
find_insert globalepoch (key_at p) ikey len bag s =
    (save_cl1_2_update globalepoch p s ∷ [], present p)
find_insert globalepoch (slice_at p) ikey len bag s = (record_node globalepoch s ∷ [], new_layer p)
find_insert globalepoch no_match ikey len bag s = find_absent globalepoch ikey len bag s

-- `lp.value() = v`
unfoldable pub store_value : ℕ → ℕ → State → State
store_value p v s = record s { node = record (s.node) { lv = set s.node.lv p v } }

unfoldable pub finish_insert : ℕ → State → State
finish_insert i s = record s {
  node = record (s.node) {
    permutation = (Kpermuter.insert_from_back width s.node.permutation i).0;
  };
}

-- `finish_remove` up to the test for an empty leaf.
unfoldable pub finish_remove : ℕ → Leaf → List (Leaf → Leaf)
finish_remove i n =
    (if n.modstate == modstate_insert
      then (λ n. record n { version = Nodeversion.mark_insert n.version })
        ∷ (λ n. record n { modstate = modstate_remove })
        ∷ []
      else [])
    ++ (λ n. record n { permutation = Kpermuter.remove width n.permutation i }) ∷ []

-- An operation on the leaf. `body` is what `make_split` or `make_new_layer` does to it, `bag` the
-- pointer to the bag of suffixes once the suffix of the key is in it.
pub data Op : Type 0 where
  update : (p v : ℕ) → Op
  insert : (i ikey len bag v : ℕ) → (body : Leaf → Leaf) → Op
  layer : (p : ℕ) → (body : Leaf → Leaf) → Op
  remove : (i : ℕ) → Op

-- The states after `find_insert`: the value is stored, and a new key counts from `finish` on.
unfoldable pub insert_states : ℕ → ℕ → (Leaf → Leaf) → Next → State → List State
unfolding store_value finish_insert
insert_states i v body (free p) s = let t : State = store_value p v s in t ∷ finish_insert i t ∷ []
insert_states i v body (present p) s = store_value p v s ∷ []
insert_states i v body _ s = record s { node = body s.node } ∷ []

unfoldable pub insert_all : ℕ → ℕ → (Leaf → Leaf) → List State × Next → State → List State
unfolding insert_states
insert_all i v body r s = r.0 ++ insert_states i v body r.1 (last s r.0)

-- The states in which an operation leaves the leaf after each of its stores.
unfoldable pub op_states : ℕ → Op → State → List State
unfolding insert_all find_insert finish_remove
op_states globalepoch (update p v) s =
    insert_all 0 v (λ n. n) (find_insert globalepoch (key_at p) 0 0 0 s) s
op_states globalepoch (insert i ikey len bag v body) s =
    insert_all i v body (find_insert globalepoch no_match ikey len bag s) s
op_states globalepoch (layer p body) s =
    insert_all 0 0 body (find_insert globalepoch (slice_at p) 0 0 0 s) s
op_states globalepoch (remove i) s =
    let t : State = record_node globalepoch s in t ∷ after (finish_remove i t.node) t

unfoldable pub run : ℕ → List Op → State → State
unfolding op_states
run globalepoch [] s = s
run globalepoch (op ∷ ops) s = run globalepoch ops (last s (op_states globalepoch op s))
