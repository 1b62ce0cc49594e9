-- ===== src/Internode/Halves.antt =====
-- Inserting a child into a node that has room, and into a full one by a split.
use incll.Base.{
  ℕ, ◌+◌, ◌-◌, ◌≤◌, ◌<◌, ◌≡◌, refl, ap, ◌∙◌, arith, ltb, leb, ◌==◌, if◌then◌else◌, Bool-cases, inl,
  inr,
}
use incll.Internode.{
  Internode, Split, store, copy, insert_child, insert_place, middle, move_right, split_into,
}
use incll.Nodeversion
use incll.Internode.Arrays.{copy_up-copy}

-- The keys and children of a node once `ikey` and `c` are inserted at position `p`.
abbrev pub inserted_key : Internode → ℕ → ℕ → ℕ → ℕ
inserted_key n p ikey j = if ltb j p then n.ikey0 j else if j == p then ikey else n.ikey0 (j - 1)

abbrev pub inserted_child : Internode → ℕ → ℕ → ℕ → ℕ
inserted_child n p c j = if leb j p then n.child j else if j == p + 1 then c else n.child (j - 1)

pub insert_child_lem :
    (n : Internode) (p ikey c : ℕ)
    → p ≤ n.nkeys
    → let m = insert_child p ikey c n in
      (m.nkeys ≡ n.nkeys + 1)
      × ((j : ℕ) → j ≤ n.nkeys → m.ikey0 j ≡ inserted_key n p ikey j)
      × ((j : ℕ) → j ≤ n.nkeys + 1 → m.child j ≡ inserted_child n p c j)
unfolding insert_child copy store
insert_child_lem n p ikey c h = (
  refl,
  λ j l. ground arith,
  λ j l. ground (arith, copy_up-copy (n.nkeys - p) n.child (p + 1) p j),
)

-- A split halves the node as it would be with the new child in it: the left node, once the child
-- is put at the place that the split returns, the key between, and the right node.
pub record IsSplit (n : Internode) (p ikey c mid width : ℕ) (s : Split) : Type 0 where
  pub left_size : (insert_place s.place ikey c s.left).nkeys ≡ mid
  pub left_keys :
      (j : ℕ) → j < mid → (insert_place s.place ikey c s.left).ikey0 j ≡ inserted_key n p ikey j
  pub left_children :
      (j : ℕ) → j ≤ mid → (insert_place s.place ikey c s.left).child j ≡ inserted_child n p c j
  pub between : s.split_ikey ≡ inserted_key n p ikey mid
  pub right_size : s.right.nkeys ≡ width - mid
  pub right_keys : (j : ℕ) → j < width - mid → s.right.ikey0 j ≡ inserted_key n p ikey (mid + 1 + j)
  pub right_children :
      (j : ℕ) → j ≤ width - mid → s.right.child j ≡ inserted_child n p c (mid + 1 + j)

module _ (width : ℕ) (n nr : Internode) (p ikey c mid : ℕ) (inside : p ≤ width) (low : 0 < mid)
    (high : mid ≤ width) where
  abbrev moved : Internode × ℕ
  moved = move_right width n nr p ikey c mid

  move_between : moved.1 ≡ inserted_key n p ikey mid
  unfolding move_right
  move_between = ground arith

  move_size : moved.0.nkeys ≡ width - mid
  unfolding move_right
  move_size = ground arith

  move_keys : (j : ℕ) → j < width - mid → moved.0.ikey0 j ≡ inserted_key n p ikey (mid + 1 + j)
  unfolding move_right store copy
  move_keys j h = elim (Bool-cases (ltb p mid)) [
    | inl e ↦ rw e (ground arith)
    | inr e ↦ elim (Bool-cases (p == mid)) [
      | inl s ↦ rw (e, s) (ground arith)
      | inr s ↦ rw (e, s) (ground arith)
    ]
  ]

  move_children : (j : ℕ) → j ≤ width - mid → moved.0.child j ≡ inserted_child n p c (mid + 1 + j)
  unfolding move_right store copy
  move_children j h = elim (Bool-cases (ltb p mid)) [
    | inl e ↦ rw e (ground arith)
    | inr e ↦ elim (Bool-cases (p == mid)) [
      | inl s ↦ rw (e, s) (ground arith)
      | inr s ↦ rw (e, s) (ground arith)
    ]
  ]

middle-pos : (width split_type : ℕ) → 0 < width → 0 < middle width split_type
unfolding middle
middle-pos width split_type h = ground arith

middle-le : (width split_type : ℕ) → middle width split_type ≤ width
unfolding middle
middle-le width split_type = ground arith

module _ (width : ℕ) (n nr : Internode) (p ikey c split_type : ℕ) where
  abbrev mid : ℕ
  mid = middle width split_type

  abbrev whole : Split
  whole = split_into width n nr p ikey c split_type

  split_right : whole.right ≡ (move_right width n nr p ikey c mid).0
  unfolding split_into
  split_right = elim (Bool-cases (ltb p mid)) [ inl e ↦ rw e refl | inr e ↦ rw e refl ]

  split_between : whole.split_ikey ≡ (move_right width n nr p ikey c mid).1
  unfolding split_into
  split_between = elim (Bool-cases (ltb p mid)) [ inl e ↦ rw e refl | inr e ↦ rw e refl ]

  -- The left node is `n` with fewer keys, and the child put in if it belongs there.
  split_left :
      n.nkeys ≡ width
      → p ≤ width
      → let left = insert_place whole.place ikey c whole.left in
        (left.nkeys ≡ mid)
        × ((j : ℕ) → j < mid → left.ikey0 j ≡ inserted_key n p ikey j)
        × ((j : ℕ) → j ≤ mid → left.child j ≡ inserted_child n p c j)
  unfolding split_into insert_place
  split_left full inside = elim (Bool-cases (ltb p mid)) [
    | inl e ↦
        let marked : Internode = record n {
          version = Nodeversion.mark_split n.version;
          nkeys = mid - 1;
        } in
        let put = insert_child_lem marked p ikey c (ground arith) in
        rw e (ground (arith, put.0), (λ j h. put.1 j (ground arith)), λ j h. put.2 j (ground arith))
    | inr e ↦ rw e (refl, (λ j h. ground arith), λ j h. ground arith)
  ]

-- Splitting a full node and inserting a child between them halves the keys and children that the
-- node would have with the child inserted: the left node, with the child put at the place that
-- `split_into` returns, takes the first `mid` keys, the key after them goes up, and the new node
-- takes the others; `mid` is the width for the third kind of split and half the width otherwise.
pub split_into_lem :
    (width : ℕ) (n nr : Internode) (p ikey c split_type : ℕ)
    → 0 < width
    → n.nkeys ≡ width
    → p ≤ width
    → IsSplit n p ikey c (middle width split_type) width (split_into width n nr p ikey c split_type)
split_into_lem width n nr p ikey c split_type pos full inside =
    let m = middle width split_type in
    let low : 0 < m = middle-pos width split_type pos in
    let high : m ≤ width = middle-le width split_type in
    let left = split_left width n nr p ikey c split_type full inside in
    let right = split_right width n nr p ikey c split_type in
    record {
      left_size = left.0;
      left_keys = left.1;
      left_children = left.2;
      between =
          split_between width n nr p ikey c split_type
          ∙ move_between width n nr p ikey c m inside low high;
      right_size = ap (λ r. r.nkeys) right ∙ move_size width n nr p ikey c m inside low high;
      right_keys =
          λ j h. ap (λ r. r.ikey0 j) right ∙ move_keys width n nr p ikey c m inside low high j h;
      right_children = λ j h.
          ap (λ r. r.child j) right ∙ move_children width n nr p ikey c m inside low high j h;
    }
