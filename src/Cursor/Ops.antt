-- ===== src/Cursor/Ops.antt =====
-- One operation of a cursor, in every state between its stores.
use mathlib.Core.Path.{subst}
use incll.Base.{
  All, All-append, All-map, ℕ, ◌<◌, ◌≡◌, refl, sym, ap, ◌∙◌, arith, ◌==◌, ltb, Bool-cases, ◌&&◌,
  List, [], ◌∷◌, get_or, set, set-set, set-get_or, inl, inr,
}
use incll.Kpermuter
use incll.Nodeversion
use incll.Leaf.{
  Leaf, State, width, record_node, save_cl0_insert, save_cl1_2_update, modstate_insert,
}
use incll.Leaf.Content.{IsCommitted}
use incll.Cursor.{
  Next, Op, update, insert, layer, remove, op_states, insert_states, insert_all, take_slot,
  find_insert, enter_insert, assign, store_value, finish_remove, may_take, free, must_split,
  find_absent, after, last,
}
use incll.Cursor.Stores.{last-append, last-All, Keeps, after-All, IsClosed, slot-All}
use incll.Cursor.Phase.{
  Touched, Phase, untouched, touched, IsRecorded, IsRecorded-store, IsRecorded-Touched, restated,
  Touched-restated, record_node-first, record_node-in_line, save_cl0_insert-second,
  save_cl1_2_update-second,
}
use incll.Cursor.First.{
  save_cl0_insert-IsInserting, IsInserting, IsInserting-Touched, IsInserting-IsClosed,
  save_cl1_2_update-first, save_cl1_2_update-lv,
}

-- `make_split` and `make_new_layer` change neither the epoch nor the flag of the leaf.
abbrev pub KeepsEpoch : (Leaf → Leaf) → Type 0
KeepsEpoch body =
    (n : Leaf) → ((body n).loggedepoch ≡ n.loggedepoch) × ((body n).not_logged ≡ n.not_logged)

abbrev pub IsValid : Op → Type 0
IsValid (update p v) = p < width
IsValid (insert i ikey len bag v body) = KeepsEpoch body
IsValid (layer p body) = KeepsEpoch body
IsValid (remove i) = Unit

abbrev pub begin : Leaf → State
begin n = record { node = n; log = [] }

module _ (ge : ℕ) (n0 : Leaf) (c : IsCommitted ge n0) (small : ge < 128) where
  IsRecorded-Phase : (s : State) → IsRecorded ge n0 s → Phase ge n0 s
  IsRecorded-Phase s r = touched (IsRecorded-Touched r)

  IsRecorded-IsClosed : (p : ℕ) → IsClosed p (IsRecorded ge n0)
  IsRecorded-IsClosed p = record {
    value = λ a t. IsRecorded-store _ refl refl;
    key = λ a t. IsRecorded-store _ refl refl;
    keylen = λ a t. IsRecorded-store _ refl refl;
    bag = λ a t. IsRecorded-store _ refl refl;
    permutation = λ a t. IsRecorded-store _ refl refl;
  }

  body-Phase :
      (body : Leaf → Leaf) (s : State)
      → KeepsEpoch body
      → IsRecorded ge n0 s
      → All (Phase ge n0) (s ∷ record s { node = body s.node } ∷ [])
  body-Phase body s k r = (
    IsRecorded-Phase s r,
    (IsRecorded-Phase _ (IsRecorded-store _ (k s.node).0 (k s.node).1 r), tt),
  )

  remove-Phase :
      (i : ℕ) (s : State)
      → IsRecorded ge n0 s
      → All (Phase ge n0) (s ∷ after (finish_remove i s.node) s)
  unfolding finish_remove
  remove-Phase i s r = (
    IsRecorded-Phase s r,
    All-map (IsRecorded ge n0) (Phase ge n0) _ IsRecorded-Phase
        (after-All (IsRecorded ge n0) (finish_remove i s.node) s stores r),
  )
    where
      stores : All (Keeps (IsRecorded ge n0)) (finish_remove i s.node)
      stores = elim (Bool-cases (s.node.modstate == modstate_insert)) [
        | inl e ↦ rw e (
          (λ t. IsRecorded-store _ refl refl),
          ((λ t. IsRecorded-store _ refl refl), ((λ t. IsRecorded-store _ refl refl), tt)),
        )
        | inr e ↦ rw e ((λ t. IsRecorded-store _ refl refl), tt)
      ]

  module _ (i v : ℕ) (body : Leaf → Leaf) (keeps : KeepsEpoch body) where
    -- The rest of an operation that goes on from `s` as `r` says
    abbrev Goes : State → List State × Next → Type 0
    Goes s r = All (Phase ge n0) r.0 × All (Phase ge n0) (insert_states i v body r.1 (last s r.0))

    Goes-insert_all :
        (s : State) (r : List State × Next) → Goes s r → All (Phase ge n0) (insert_all i v body r s)
    unfolding insert_all
    Goes-insert_all s r g = All-append (Phase ge n0) r.0 _ g.0 g.1

    split-Goes : (s t : State) → IsRecorded ge n0 t → Goes s (t ∷ [], must_split)
    unfolding insert_states last
    split-Goes s t r = let b = body-Phase body t keeps r in ((b.0, tt), b.1)

    module _ (ikey len bag : ℕ) where
      slot-Goes :
          (P : State → Type 0) (p : ℕ) (s saved : State)
          → IsClosed p P
          → ((t : State) → P t → Phase ge n0 t)
          → P saved
          → Goes s (saved ∷ after (assign p ikey len bag) saved, free p)
      unfolding last
      slot-Goes P p s saved closed f h =
          let all = slot-All p P closed i v ikey len bag body saved h in
          ((f saved h, All-map P (Phase ge n0) _ f all.0), All-map P (Phase ge n0) _ f all.1)

      -- The first change of the epoch.
      take_slot-first :
          (w m : ℕ) → let s = begin (restated n0 w m) in Goes s (take_slot ge ikey len bag s)
      unfolding take_slot
      take_slot-first w m =
          let p = Kpermuter.back width n0.permutation in
          let s : State = begin (restated n0 w m) in
          elim (Bool-cases
            (ltb (Kpermuter.size n0.permutation) width && may_take p ikey (restated n0 w m))) [
              | inl e ↦
                  let room : Kpermuter.size n0.permutation < width = ground (arith, e) in
                  rw e (
                    slot-Goes (IsInserting ge n0 c p) p s (save_cl0_insert ge s)
                      (IsInserting-IsClosed ge n0 c p)
                      (λ t h. touched (IsInserting-Touched ge n0 c p t room refl h))
                      (save_cl0_insert-IsInserting ge n0 c w m p))
              | inr e ↦ rw e (split-Goes s (record_node ge s) (record_node-first ge n0 c w m))
            ]

      -- A later change of the epoch.
      take_slot-second : (s : State) → Touched ge n0 s → Goes s (take_slot ge ikey len bag s)
      unfolding take_slot
      take_slot-second s t =
          let p = Kpermuter.back width s.node.permutation in
          elim (Bool-cases
            (ltb (Kpermuter.size s.node.permutation) width && may_take p ikey s.node)) [
              | inl e ↦ rw e (
                  slot-Goes (IsRecorded ge n0) p s (save_cl0_insert ge s) (IsRecorded-IsClosed p)
                    IsRecorded-Phase
                    (save_cl0_insert-second ge n0 c s s.node.version s.node.modstate t))
              | inr e ↦ rw e (
                  split-Goes s (record_node ge s)
                    (record_node-in_line ge n0 c s s.node.version s.node.modstate t))
            ]

      -- The version and the state are stored first.
      find_absent-Goes :
          (P : State → Type 0) (s : State)
          → Keeps P (λ n. record n { version = Nodeversion.mark_insert n.version })
          → ((a : ℕ) → Keeps P (λ n. record n { modstate = a }))
          → ((t : State) → P t → Phase ge n0 t)
          → ((t : State) → P t → Goes t (take_slot ge ikey len bag t))
          → P s
          → Goes s (find_absent ge ikey len bag s)
      unfolding find_absent enter_insert
      find_absent-Goes P s mark state f goes h =
          let stores : All (Keeps P) (enter_insert s.node) =
            elim (Bool-cases (s.node.modstate == modstate_insert)) [
              | inl e ↦ rw e tt
              | inr e ↦ rw e (mark, (state modstate_insert, tt))
            ] in
          let xs : List State = after (enter_insert s.node) s in
          let all = after-All P (enter_insert s.node) s stores h in
          let g = goes (last s xs) (last-All P s xs h all) in
          (
            All-append (Phase ge n0) xs _ (All-map P (Phase ge n0) xs f all) g.0,
            subst
                (λ x.
                  All (Phase ge n0)
                    (insert_states i v body (take_slot ge ikey len bag (last s xs)).1 x))
                (sym (last-append s xs (take_slot ge ikey len bag (last s xs)).0)) g.1,
          )

      abbrev IsBefore : State → Type 0
      IsBefore s = (w m : ℕ) × (s.node ≡ restated n0 w m) × (s.log ≡ [])

      find_absent-first : (s : State) → IsBefore s → Goes s (find_absent ge ikey len bag s)
      find_absent-first s before =
          find_absent-Goes IsBefore s
            (λ t (w, m, e, l). (
              Nodeversion.mark_insert w,
              m,
              ap (λ (n : Leaf). record n { version = Nodeversion.mark_insert n.version }) e,
              l,
            ))
            (λ a t (w, m, e, l). (w, a, ap (λ (n : Leaf). record n { modstate = a }) e, l))
            (λ t (w, m, e, l). untouched w m e l)
            (λ t (w, m, e, l).
              subst (λ x. Goes x (take_slot ge ikey len bag x))
                (λ j. record { node = sym e j; log = sym l j }) (take_slot-first w m))
            before

      find_absent-second : (s : State) → Touched ge n0 s → Goes s (find_absent ge ikey len bag s)
      find_absent-second s =
          find_absent-Goes (Touched ge n0) s (λ t. Touched-restated _ _)
            (λ a t. Touched-restated _ _) (λ t h. touched h) take_slot-second

  -- One operation as the first of the epoch.
  pub op_states-first :
      (w m : ℕ) (op : Op)
      → IsValid op
      → All (Phase ge n0) (op_states ge op (begin (restated n0 w m)))
  unfolding op_states insert_all insert_states find_insert store_value last
  op_states-first w m (update p v) h =
      let s = save_cl1_2_update ge p (begin (restated n0 w m)) in
      let same = ap (λ lv. set lv p (get_or n0.lv p 0)) (save_cl1_2_update-lv ge n0 c w m p) in
      (
        touched
            (save_cl1_2_update-first ge n0 c w m p s.node.lv h small (same ∙ set-get_or n0.lv p 0)),
        (
          touched (
              save_cl1_2_update-first ge n0 c w m p (set s.node.lv p v) h small
                (set-set s.node.lv p v (get_or n0.lv p 0) ∙ same ∙ set-get_or n0.lv p 0)),
          tt,
        ),
      )
  op_states-first w m (insert i ikey len bag v body) h =
      let s : State = begin (restated n0 w m) in
      Goes-insert_all i v body h s _
        (find_absent-first i v body h ikey len bag s (w, m, refl, refl))
  op_states-first w m (layer p body) h = body-Phase body _ h (record_node-first ge n0 c w m)
  op_states-first w m (remove i) h = remove-Phase i _ (record_node-first ge n0 c w m)

  -- One operation later in the epoch.
  pub op_states-second :
      (op : Op) (s : State) → IsValid op → Touched ge n0 s → All (Phase ge n0) (op_states ge op s)
  unfolding op_states insert_all insert_states find_insert store_value last
  op_states-second (update p v) s h t =
      let r = save_cl1_2_update-second ge n0 c s p t in
      (IsRecorded-Phase _ r, (IsRecorded-Phase _ (IsRecorded-store _ refl refl r), tt))
  op_states-second (insert i ikey len bag v body) s h t =
      Goes-insert_all i v body h s _ (find_absent-second i v body h ikey len bag s t)
  op_states-second (layer p body) s h t =
      body-Phase body _ h (record_node-in_line ge n0 c s s.node.version s.node.modstate t)
  op_states-second (remove i) s h t =
      remove-Phase i _ (record_node-in_line ge n0 c s s.node.version s.node.modstate t)
