-- ===== src/Internode/Parents.antt =====
-- The search for a child, and the parents that a split gives to the children it moves.
use mathlib.Core.List.{append_assoc, append-nil}
use incll.Base.{
  Bool, List, [], ◌∷◌, ◌++◌, ℕ, zero, suc, ◌+◌, ◌-◌, ◌≤◌, ◌<◌, ◌≡◌, ◌≢◌, refl, sym, ap, ◌∙◌, arith,
  ◌==◌, ==_iff, ==_ne, ==_refl, true, false, ltb, if◌then◌else◌, Option, none, some, Bool-cases,
  inl, inr, Option-cases,
}
use incll.Internode.{
  Internode, World, Split, store, set_parent, adopt, adopt_all, find_from, find_child_idx, middle,
  split_into, assign_world, split_world, place_world, split_parents,
}
use incll.Internode.Halves.{IsSplit, split_into_lem, inserted_child}

-- The first place of `c` among `n` children from `i` on.
pub data IsFirst (child : ℕ → ℕ) (c i n : ℕ) (r : Option ℕ) : Type 0 where
  found :
      (j : ℕ)
      → r ≡ some j
      → i ≤ j
      → j < i + n
      → child j ≡ c
      → ((k : ℕ) → i ≤ k → k < j → child k ≢ c)
      → IsFirst child c i n r
  missing : r ≡ none → ((k : ℕ) → i ≤ k → k < i + n → child k ≢ c) → IsFirst child c i n r

find_from-IsFirst : (child : ℕ → ℕ) (c i n : ℕ) → IsFirst child c i n (find_from child c i n)
unfolding find_from
find_from-IsFirst child c i zero = missing refl (λ k a b. absurd (omega arith))
find_from-IsFirst child c i (suc n) = elim (Bool-cases (child i == c)) [
  | inl e ↦
      rw e (
        found i refl (omega arith) (omega arith) ((==_iff _ _).0 e) (λ k a b. absurd (omega arith)))
  | inr e ↦ rw e (elim (find_from-IsFirst child c (i + 1) n) [
    | found j r a b same before ↦ found j r (omega arith) (omega arith) same (λ k l m.
        elim (Bool-cases (k == i)) [
          | inl s ↦ λ q. ground (arith, e, sym (ap child ((==_iff k i).0 s)) ∙ q)
          | inr s ↦ before k (ground arith) m
        ])
    | missing r none_of ↦ missing r (λ k l m. elim (Bool-cases (k == i)) [
      | inl s ↦ λ q. ground (arith, e, sym (ap child ((==_iff k i).0 s)) ∙ q)
      | inr s ↦ none_of k (ground arith) (omega arith)
    ])
  ])
]

-- `find_child_idx` returns the first index, from 0 to the number of keys, at which the child
-- stands, and -1 exactly where it stands at none.
pub find_child_idx_lem :
    (c : ℕ) (n : Internode) → IsFirst n.child c 0 (n.nkeys + 1) (find_child_idx c n)
unfolding find_child_idx
find_child_idx_lem c n = find_from-IsFirst n.child c 0 (n.nkeys + 1)

adopt-parent :
    (nr d : ℕ) (w : World) (c : ℕ) → (adopt nr d w).parent c ≡ (if c == d then nr else w.parent c)
unfolding adopt set_parent store
adopt-parent nr d w c = elim (Bool-cases (w.locked d)) [ inl e ↦ rw e refl | inr e ↦ rw e refl ]

-- Giving children their parent sets it for all of them, and for no other node.
adopt_all-parent :
    (nr : ℕ) (child : ℕ → ℕ) (n i : ℕ) (w : World) (c : ℕ)
    → (adopt_all nr child i n w).parent c
      ≡ elim (find_from child c i n) [ none ↦ w.parent c | some j ↦ nr ]
unfolding adopt_all find_from
adopt_all-parent nr child zero i w c = refl
adopt_all-parent nr child (suc n) i w c =
    let ih = adopt_all-parent nr child n (i + 1) (adopt nr (child i) w) c in
    elim (Option-cases (find_from child c (i + 1) n)) [
      | inl q ↦ rw (ih, q, adopt-parent nr (child i) w c) (ground arith)
      | inr q ↦ rw (ih, q.1) (ground arith)
    ]

-- Each child of the new node has it as its parent, and every node that is neither a child of it nor
-- the inserted child keeps the parent from before.
split_world_lem :
    (nr p value mid : ℕ) (right : Internode) (w : World)
    → let after = split_world nr p value mid right w in
      ((j : ℕ) → j ≤ right.nkeys → after.parent (right.child j) ≡ nr)
      × ((c : ℕ)
          → c ≢ value
          → ((j : ℕ) → j ≤ right.nkeys → right.child j ≢ c)
          → after.parent c ≡ w.parent c)
unfolding split_world assign_world set_parent store
split_world_lem nr p value mid right w = (
  λ j h.
      let all = adopt_all-parent nr right.child (right.nkeys + 1) 0 _ (right.child j) in
      elim (find_from-IsFirst right.child (right.child j) 0 (right.nkeys + 1)) [
        | found k r a b same before ↦ all ∙ rw r refl
        | missing r none_of ↦ absurd (none_of j (omega arith) (omega arith) refl)
      ],
  λ c other outside.
      let all = adopt_all-parent nr right.child (right.nkeys + 1) 0 _ c in
      elim (find_from-IsFirst right.child c 0 (right.nkeys + 1)) [
        | found k r a b same before ↦ absurd (outside k (omega arith) same)
        | missing r none_of ↦ all ∙ rw r (ground (arith, other))
      ],
)

-- The children that are not locked, of `n` from index `i` on
abbrev pub unlocked : (ℕ → Bool) → (ℕ → ℕ) → ℕ → ℕ → List ℕ
unlocked locked child i zero = []
unlocked locked child i (suc n) =
    let rest = unlocked locked child (i + 1) n in if locked (child i) then rest else child i ∷ rest

adopt_all-persisted :
    (nr : ℕ) (child : ℕ → ℕ) (n i : ℕ) (w : World)
    → (adopt_all nr child i n w).persisted ≡ w.persisted ++ unlocked w.locked child i n
unfolding adopt_all adopt set_parent
adopt_all-persisted nr child zero i w = sym (append-nil w.persisted)
adopt_all-persisted nr child (suc n) i w = elim (Bool-cases (w.locked (child i))) [
  | inl e ↦ adopt_all-persisted nr child n (i + 1) (adopt nr (child i) w) ∙ rw e refl
  | inr e ↦
      adopt_all-persisted nr child n (i + 1) (adopt nr (child i) w)
      ∙ rw e (append_assoc w.persisted (child i ∷ []) (unlocked w.locked child (i + 1) n))
]

module _ (width a b : ℕ) (n nr : Internode) (p ikey c split_type : ℕ) (w : World) where
  abbrev mid : ℕ
  mid = middle width split_type

  abbrev whole : Split
  whole = split_into width n nr p ikey c split_type

  abbrev halved : World
  halved = split_world b p c mid whole.right w

  abbrev after : World
  after = split_parents width a b n nr p ikey c split_type w

  place-left : ltb p mid ≡ true → whole.place ≡ some p
  unfolding split_into
  place-left e = rw e refl

  place-right : ltb p mid ≡ false → whole.place ≡ none
  unfolding split_into
  place-right e = rw e refl

  after-left : ltb p mid ≡ true → (d : ℕ) → after.parent d ≡ (if d == c then a else halved.parent d)
  unfolding split_parents place_world set_parent store
  after-left e d = ap (λ x. (place_world x a c halved).parent d) (place-left e)

  after-right : ltb p mid ≡ false → (d : ℕ) → after.parent d ≡ halved.parent d
  unfolding split_parents place_world
  after-right e d = ap (λ x. (place_world x a c halved).parent d) (place-right e)

  -- A node that is not the inserted child has the parent that `split_into` leaves.
  after-other : (d : ℕ) → d ≢ c → after.parent d ≡ halved.parent d
  after-other d ne = elim (Bool-cases (ltb p mid)) [
    | inl e ↦ after-left e d ∙ rw (==_ne d c ne) refl
    | inr e ↦ after-right e d
  ]

  halved-persisted :
      halved.persisted
      ≡ w.persisted ++ unlocked w.locked whole.right.child 0 (whole.right.nkeys + 1)
  unfolding split_world assign_world set_parent
  halved-persisted =
      adopt_all-persisted b whole.right.child (whole.right.nkeys + 1) 0 (assign_world b p c mid w)
      ∙ elim (Bool-cases (ltb mid p)) [ inl e ↦ rw e refl | inr e ↦ rw e refl ]

  after-persisted : after.persisted ≡ halved.persisted
  unfolding split_parents place_world set_parent
  after-persisted = elim (Bool-cases (ltb p mid)) [
    | inl e ↦ ap (λ x. (place_world x a c halved).persisted) (place-left e)
    | inr e ↦ ap (λ x. (place_world x a c halved).persisted) (place-right e)
  ]

  module _ (pos : 0 < width) (full : n.nkeys ≡ width) (inside : p ≤ width) where
    split : IsSplit n p ikey c mid width whole
    split = split_into_lem width n nr p ikey c split_type pos full inside

    -- A child that is not put into the left node is one of the right node.
    inserted-right : ltb p mid ≡ false → whole.right.child (p - mid) ≡ c
    inserted-right e =
        let le : mid ≤ p = ground (arith, e) in
        let place : mid + 1 + (p - mid) ≡ p + 1 = omega (arith, le) in
        split.right_children (p - mid) (omega (arith, inside))
        ∙ ap (inserted_child n p c) place
        ∙ own_place
      where
        own_place : inserted_child n p c (p + 1) ≡ c
        own_place = ground arith

    after-inserted : after.parent c ≡ (if ltb p mid then a else b)
    after-inserted = elim (Bool-cases (ltb p mid)) [
      | inl e ↦ after-left e c ∙ rw (e, ==_refl c) refl
      | inr e ↦
          let le : p - mid ≤ whole.right.nkeys = omega (arith, split.right_size, inside) in
          after-right e c
          ∙ ap halved.parent (sym (inserted-right e))
          ∙ (split_world_lem b p c mid whole.right w).0 (p - mid) le
          ∙ rw e refl
    ]

    -- Let a full node at the address `a` be split into it and a new one at `b`, with a child
    -- inserted at position `p`. Afterwards the parent of the inserted child is the left node where
    -- the position is below the middle and the new node otherwise, beyond the middle already before
    -- the loop over the children; every other child of the new node has that as its parent; and all
    -- other nodes keep their parent. `lock_persistent` is called for the children of the new node that are
    -- not locked, in their order, and for no other node.
    pub split_parents_lem :
        (after.parent c ≡ (if ltb p mid then a else b))
        × (mid < p → (assign_world b p c mid w).parent c ≡ b)
        × ((j : ℕ)
            → j ≤ width - mid
            → whole.right.child j ≢ c
            → after.parent (whole.right.child j) ≡ b)
        × ((d : ℕ)
            → d ≢ c
            → ((j : ℕ) → j ≤ width - mid → whole.right.child j ≢ d)
            → after.parent d ≡ w.parent d)
        × (after.persisted ≡ w.persisted ++ unlocked w.locked whole.right.child 0 (width - mid + 1))
    unfolding assign_world set_parent store
    split_parents_lem =
        let lem = split_world_lem b p c mid whole.right w in
        let size : whole.right.nkeys ≡ width - mid = split.right_size in
        (
          after-inserted,
          (λ h. let beyond : ltb mid p ≡ true = ground (arith, h) in rw (beyond, ==_refl c) refl),
          (λ j h ne. after-other (whole.right.child j) ne ∙ lem.0 j (omega (arith, size, h))),
          (λ d ne outside.
              after-other d ne ∙ lem.1 d ne (λ j h. outside j (omega (arith, size, h)))),
          after-persisted
              ∙ halved-persisted
              ∙ ap (λ x. w.persisted ++ unlocked w.locked whole.right.child 0 (x + 1)) size,
        )
