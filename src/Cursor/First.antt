-- ===== src/Cursor/First.antt =====
-- The first change of a leaf in an epoch, under one of the in-cache-line logs.
use incll.Base.{
  ℕ, ◌+◌, ◌-◌, ◌≤◌, ◌<◌, ◌^◌, ◌≡◌, ◌≢◌, refl, true, ◌∙◌, arith, ltb, List, [], get_or, set,
  get_or-set_ne, inl, inr, Bool-cases, ==_ne,
}
use incll.Incll.{get_cl_idx, get_loggedepoch, get_lv, set_lv_idx_ge, set_loggedepoch}
use incll.Incll.Laws.{
  get_loggedepoch-set_loggedepoch, get_cl_idx-set_loggedepoch, get_lv-set_loggedepoch,
  set_lv_idx_ge-lt, get_cl_idx-set_lv_idx_ge, get_lv-set_lv_idx_ge,
}
use incll.Kpermuter
use incll.Leaf.{Leaf, State, width, save_cl0_insert, save_cl1_2_update}
use incll.Leaf.Content.{SameSlot, IsCommitted}
use incll.Leaf.Undoes.{by_cl0, by_cl1, by_cl2}
use incll.Cursor.Stores.{IsClosed}
use incll.Cursor.Phase.{Touched, in_line, restated}

module _ (ge : ℕ) (n0 : Leaf) (c : IsCommitted ge n0) where
  -- The slots in use are none of the free ones.
  back-free :
      (j : ℕ)
      → j < Kpermuter.size n0.permutation
      → Kpermuter.size n0.permutation < width
      → Kpermuter.back width n0.permutation ≢ Kpermuter.elem n0.permutation j
  unfolding Kpermuter.back
  back-free j h room e =
      absurd (omega (arith, c.permuter.distinct 13 j (omega arith) (omega arith) e))

  -- In the epoch only slot `p` has been written, and the permutation, of which line 0 has the old
  -- one.
  pub record IsInserting (p : ℕ) (s : State) : Type 0 where
    pub epoch : s.node.loggedepoch ≡ ge
    pub flag : s.node.not_logged ≡ true
    pub unlogged : s.log ≡ []
    pub idx : s.node.cl0_idx ≡ 0
    pub order : s.node.perm_cl0 ≡ n0.permutation
    pub slots : (q : ℕ) → p ≢ q → SameSlot n0 s.node q

  -- The first insertion of the epoch
  pub save_cl0_insert-IsInserting :
      (v m p : ℕ) → IsInserting p (save_cl0_insert ge (record { node = restated n0 v m; log = [] }))
  unfolding save_cl0_insert
  save_cl0_insert-IsInserting v m p = rw (==_ne n0.loggedepoch ge (omega (arith, c.old))) (record {
    epoch = refl;
    flag = refl;
    unlogged = refl;
    idx = refl;
    order = refl;
    slots = λ q ne. record { key = refl; keylen = refl; value = refl };
  })

  -- The free slot may take any key and value, and the permutation any other one.
  pub IsInserting-Touched :
      (p : ℕ) (s : State)
      → Kpermuter.size n0.permutation < width
      → p ≡ Kpermuter.back width n0.permutation
      → IsInserting p s
      → Touched ge n0 s
  IsInserting-Touched p s room e h =
      in_line h.epoch h.flag h.unlogged
        (by_cl0 h.epoch h.idx h.order (λ j k. h.slots _ (rw e (back-free j k room))))

  IsInserting-store :
      (p : ℕ) (t : State) (n : Leaf)
      → IsInserting p t
      → ((q : ℕ) → p ≢ q → SameSlot t.node n q)
      → n.loggedepoch ≡ t.node.loggedepoch
      → n.not_logged ≡ t.node.not_logged
      → n.cl0_idx ≡ t.node.cl0_idx
      → n.perm_cl0 ≡ t.node.perm_cl0
      → IsInserting p (record t { node = n })
  IsInserting-store p t n h same e f i o = record {
    epoch = e ∙ h.epoch;
    flag = f ∙ h.flag;
    unlogged = h.unlogged;
    idx = i ∙ h.idx;
    order = o ∙ h.order;
    slots = λ q ne.
        let s = h.slots q ne in
        let r = same q ne in
        record { key = r.key ∙ s.key; keylen = r.keylen ∙ s.keylen; value = r.value ∙ s.value };
  }

  pub IsInserting-IsClosed : (p : ℕ) → IsClosed p (IsInserting p)
  IsInserting-IsClosed p = record {
    value = λ a t h.
        IsInserting-store p t _ h
          (λ q ne. record { key = refl; keylen = refl; value = get_or-set_ne t.node.lv p q a 0 ne })
          refl refl refl refl;
    key = λ a t h.
        IsInserting-store p t _ h
          (λ q ne. record {
            key = get_or-set_ne t.node.ikey0 p q a 0 ne;
            keylen = refl;
            value = refl;
          })
          refl refl refl refl;
    keylen = λ a t h.
        IsInserting-store p t _ h
          (λ q ne. record {
            key = refl;
            keylen = get_or-set_ne t.node.keylenx p q a 0 ne;
            value = refl;
          })
          refl refl refl refl;
    bag = λ a t h.
        IsInserting-store p t _ h (λ q ne. record { key = refl; keylen = refl; value = refl }) refl
          refl refl refl;
    permutation = λ a t h.
        IsInserting-store p t _ h (λ q ne. record { key = refl; keylen = refl; value = refl }) refl
          refl refl refl;
  }

  -- The word that has logged value `p` of the leaf under index `i`, with the epoch set once more.
  module _ (d : ℕ) (word : d < 2 ^ 64) (p i : ℕ) (small : ge < 128) (fits : i < 7) where
    abbrev logged : ℕ
    logged = set_lv_idx_ge d (get_or n0.lv p 0) i ge

    logged-lt : logged < 2 ^ 64
    logged-lt =
        set_lv_idx_ge-lt d (get_or n0.lv p 0) i ge word (c.narrow p) (c.aligned p) (omega arith)

    logged_epoch : get_loggedepoch (set_loggedepoch logged ge) ≡ ge
    logged_epoch = get_loggedepoch-set_loggedepoch logged ge logged-lt ∙ omega arith

    logged_idx : get_cl_idx (set_loggedepoch logged ge) ≡ i
    logged_idx =
        get_cl_idx-set_loggedepoch logged ge logged-lt
        ∙ get_cl_idx-set_lv_idx_ge d (get_or n0.lv p 0) i ge word (c.narrow p) (c.aligned p)
            (omega arith)

    logged_value : get_lv (set_loggedepoch logged ge) ≡ get_or n0.lv p 0
    logged_value =
        get_lv-set_loggedepoch logged ge logged-lt
        ∙ get_lv-set_lv_idx_ge d (get_or n0.lv p 0) i ge word (c.narrow p) (c.aligned p)
            (omega arith)

  -- The first update of the epoch: the line of the value keeps the old one, whatever is then
  -- written over it.
  pub save_cl1_2_update-first :
      (v m p : ℕ) (lv : List ℕ)
      → p < width
      → ge < 128
      → set lv p (get_or n0.lv p 0) ≡ n0.lv
      → let s = save_cl1_2_update ge p (record { node = restated n0 v m; log = [] }) in
        Touched ge n0 (record s { node = record (s.node) { lv = lv } })
  unfolding save_cl1_2_update
  save_cl1_2_update-first v m p lv h small back = elim (Bool-cases (ltb p 7)) [
    | inl e ↦
        let fits : p < 7 = ground arith in
        rw (==_ne n0.loggedepoch ge (omega (arith, c.old)), e)
          (in_line refl refl refl (
            by_cl1 refl c.clean.cl0 (logged_epoch n0.lv_cl1 c.word1 p p small fits) p fits
              (logged_idx n0.lv_cl1 c.word1 p p small fits)
              (rw (logged_value n0.lv_cl1 c.word1 p p small fits) back)
              (record { order = refl; keys = refl; keylens = refl })))
    | inr e ↦
        let above : 7 ≤ p = ground arith in
        let fits : p - 7 < 7 = omega arith in
        let same : p - 7 + 7 ≡ p = omega arith in
        rw (==_ne n0.loggedepoch ge (omega (arith, c.old)), e)
          (in_line refl refl refl (
            by_cl2 refl c.clean.cl0 (get_cl_idx-set_loggedepoch n0.lv_cl1 ge c.word1 ∙ c.clean.cl1)
              (logged_epoch n0.lv_cl2 c.word2 p (p - 7) small fits) (p - 7) fits
              (logged_idx n0.lv_cl2 c.word2 p (p - 7) small fits)
              (rw (same, logged_value n0.lv_cl2 c.word2 p (p - 7) small fits) back)
              (record { order = refl; keys = refl; keylens = refl })))
  ]

  pub save_cl1_2_update-lv :
      (v m p : ℕ)
      → (save_cl1_2_update ge p (record { node = restated n0 v m; log = [] })).node.lv ≡ n0.lv
  unfolding save_cl1_2_update
  save_cl1_2_update-lv v m p = ground arith
