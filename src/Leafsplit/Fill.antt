-- ===== src/Leafsplit/Fill.antt =====
-- What the loop puts into the slots of the new leaf.
use native.Mathlib.Nat.{div-div-eq-div-mul, pow-suc}
use mathlib.Core.Path.{subst}
use incll.Base.{
  ℕ, zero, suc, ◌+◌, ◌-◌, ◌*◌, ◌/◌, ◌^◌, ◌≤◌, ◌<◌, ◌≡◌, ◌≢◌, inl, inr, refl, sym, ap, ap₂, ◌∙◌,
  arith, true, false, ltb, ◌==◌, Bool-cases, if_both, if◌then◌else◌, le_or_lt, lt→ltb, le→ltb_false,
  length, get_or, set, length-set, get_or-set_self, get_or-set_ne, bit_and, shr,
}
use incll.Kpermuter
use incll.Kpermuter.Fields.{pow_fields}
use incll.Leaf.{Leaf, ksuf_keylenx}
use incll.Leafsplit.{Key, assign_initialize, assign_initialize_from, fill}

-- What a leaf holds in a slot
pub record Item : Type 0 where
  pub slice : ℕ
  pub keylenx : ℕ
  pub value : ℕ

abbrev pub item_at : Leaf → ℕ → Item
item_at n q = record {
  slice = get_or n.ikey0 q 0;
  keylenx = get_or n.keylenx q 0;
  value = get_or n.lv q 0;
}

abbrev pub own_item : Key → Item
own_item ka = record {
  slice = ka.ikey;
  keylenx = if ltb 8 ka.length then ksuf_keylenx else ka.length;
  value = 0;
}

-- The items of a leaf in the order of its keys, once `ka` is inserted at `p`.
abbrev pub inserted : Leaf → ℕ → ℕ → Key → ℕ → Item
inserted this perm p ka i =
    if ltb i p
    then item_at this (Kpermuter.elem perm i)
    else if i == p
    then own_item ka
    else item_at this (Kpermuter.elem perm (i - 1))

pub record HasSlots (w : ℕ) (n : Leaf) : Type 0 where
  pub slices : length n.ikey0 ≡ w
  pub lengths : length n.keylenx ≡ w
  pub values : length n.lv ≡ w

Item-ext : (a b : Item) → a.slice ≡ b.slice → a.keylenx ≡ b.keylenx → a.value ≡ b.value → a ≡ b
Item-ext a b e f g i = record { slice = e i; keylenx = f i; value = g i }

low-value_from : (perm i : ℕ) → bit_and (Kpermuter.value_from perm i) 15 ≡ Kpermuter.elem perm i
unfolding Kpermuter.value_from Kpermuter.elem
low-value_from perm i =
    let e : 4 * (i + 1) ≡ 4 * i + 4 = omega arith in ap (λ k. bit_and (shr perm k) 15) e

next-value_from :
    (perm i : ℕ) → shr (Kpermuter.value_from perm i) 4 ≡ Kpermuter.value_from perm (i + 1)
unfolding Kpermuter.value_from
next-value_from perm i =
    let power : 2 ^ (4 * (i + 1)) * 2 ^ 4 ≡ 2 ^ (4 * (i + 1 + 1)) =
      let e : i + 1 + 1 ≡ suc (i + 1) = omega arith in
      rw (e, pow_fields (i + 1), pow_fields (suc (i + 1))) (sym (pow-suc 16 (i + 1))) in
    div-div-eq-div-mul perm (2 ^ (4 * (i + 1))) (2 ^ 4) ∙ ap (λ q. perm / q) power

-- Either assignment of a slot
abbrev put : ℕ → Item → Leaf → Leaf
put q v n = record n {
  lv = set n.lv q v.value;
  ikey0 = set n.ikey0 q v.slice;
  keylenx = set n.keylenx q v.keylenx;
}

put-HasSlots : (w q : ℕ) (v : Item) (n : Leaf) → HasSlots w n → HasSlots w (put q v n)
put-HasSlots w q v n s = record {
  slices = length-set n.ikey0 q v.slice ∙ s.slices;
  lengths = length-set n.keylenx q v.keylenx ∙ s.lengths;
  values = length-set n.lv q v.value ∙ s.values;
}

put_self : (w q : ℕ) (v : Item) (n : Leaf) → HasSlots w n → q < w → item_at (put q v n) q ≡ v
put_self w q v n s h =
    Item-ext _ _ (get_or-set_self n.ikey0 q v.slice 0 (omega (arith, s.slices)))
      (get_or-set_self n.keylenx q v.keylenx 0 (omega (arith, s.lengths)))
      (get_or-set_self n.lv q v.value 0 (omega (arith, s.values)))

put_ne : (q j : ℕ) (v : Item) (n : Leaf) → q ≢ j → item_at (put q v n) j ≡ item_at n j
put_ne q j v n ne =
    Item-ext _ _ (get_or-set_ne n.ikey0 q j v.slice 0 ne)
      (get_or-set_ne n.keylenx q j v.keylenx 0 ne) (get_or-set_ne n.lv q j v.value 0 ne)

-- The place among the slots of the one to come before item `x`, where item `p` is the new key
abbrev pub place : ℕ → ℕ → ℕ
place p x = x - (if ltb p x then 1 else 0)

place_own : (p x : ℕ) → (x == p) ≡ true → place p x ≡ place p (x + 1)
place_own p x e = ground (arith, e)

place_moved : (p x : ℕ) → (x == p) ≡ false → place p x + 1 ≡ place p (x + 1)
place_moved p x e = ground (arith, e)

place_before : (p x : ℕ) → x < p → place p x ≡ x
place_before p x h = ground (arith, h)

place_after : (p x : ℕ) → p < x → place p x ≡ x - 1
place_after p x h = ground (arith, h)

module _ (this : Leaf) (perm p : ℕ) (ka : Key) where
  -- The slots to come before item `x`
  abbrev pub slots_from : ℕ → ℕ
  slots_from x = Kpermuter.value_from perm (place p x)

  round_slots :
      (x : ℕ) → (if x == p then slots_from x else shr (slots_from x) 4) ≡ slots_from (x + 1)
  round_slots x = elim (Bool-cases (x == p)) [
    | inl e ↦ rw e (ap (Kpermuter.value_from perm) (place_own p x e))
    | inr e ↦
        rw e (next-value_from perm (place p x) ∙ ap (Kpermuter.value_from perm) (place_moved p x e))
  ]

  moved_item :
      (x : ℕ)
      → (x == p) ≡ false
      → item_at this (bit_and (slots_from x) 15) ≡ inserted this perm p ka x
  moved_item x e = elim (le_or_lt x p) [
    | inl lt ↦ rw (lt→ltb x p lt) (
        ap (item_at this)
          (low-value_from perm (place p x) ∙ ap (Kpermuter.elem perm) (place_before p x lt)))
    | inr ge ↦
        let gt : p < x = ground (arith, ge, e) in
        rw (le→ltb_false x p ge, e)
          (ap (item_at this)
            (low-value_from perm (place p x) ∙ ap (Kpermuter.elem perm) (place_after p x gt)))
  ]

  own_place : (x : ℕ) → (x == p) ≡ true → own_item ka ≡ inserted this perm p ka x
  own_place x e = let before : ltb x p ≡ false = ground (arith, e) in rw (before, e) refl

  round_item :
      (x q : ℕ) (n : Leaf)
      → (if x == p
          then assign_initialize q ka n
          else assign_initialize_from q this (bit_and (slots_from x) 15) n)
        ≡ put q (inserted this perm p ka x) n
  unfolding assign_initialize assign_initialize_from
  round_item x q n =
      if_both (x == p) (put q (own_item ka) n) (put q (item_at this (bit_and (slots_from x) 15)) n)
        (put q (inserted this perm p ka x) n) (λ e. ap (λ v. put q v n) (own_place x e))
        (λ e. ap (λ v. put q v n) (moved_item x e))

-- `count` rounds put the items from `x` on into the slots from `x - mid` on, and leave the others.
pub record Filled (w lo count : ℕ) (item : ℕ → Item) (before after : Leaf) : Type 0 where
  pub slots : HasSlots w after
  pub new : (j : ℕ) → j < count → item_at after (lo + j) ≡ item j
  pub old : (q : ℕ) → q < lo → item_at after q ≡ item_at before q

module _ (this : Leaf) (p : ℕ) (ka : Key) (mid : ℕ) (w : ℕ) where
  abbrev item : ℕ → Item
  item = inserted this this.permutation p ka

  abbrev run : ℕ → ℕ → Leaf → Leaf
  run count x nr = fill this p ka mid count x (slots_from this this.permutation p ka x) nr

  run-suc :
      (count x : ℕ) (nr : Leaf)
      → run (suc count) x nr ≡ run count (x + 1) (put (x - mid) (item x) nr)
  unfolding fill
  run-suc count x nr =
      ap₂ (fill this p ka mid count (x + 1)) (round_slots this this.permutation p ka x)
        (round_item this this.permutation p ka x (x - mid) nr)

  by_first :
      (m : Leaf) (lo x count : ℕ)
      → item_at m lo ≡ item x
      → ((j : ℕ) → j < count → item_at m (lo + suc j) ≡ item (x + suc j))
      → (j : ℕ) → j < suc count
      → item_at m (lo + j) ≡ item (x + j)
  by_first m lo x count h f zero l =
      let here : lo + 0 ≡ lo = omega arith in
      let same : x ≡ x + 0 = omega arith in ap (item_at m) here ∙ h ∙ ap item same
  by_first m lo x count h f (suc j) l = f j (omega arith)

  pub fill-Filled :
      (count x : ℕ) (nr : Leaf)
      → HasSlots w nr
      → mid ≤ x
      → x - mid + count ≤ w
      → Filled w (x - mid) count (λ j. item (x + j)) nr (run count x nr)
  unfolding fill
  fill-Filled zero x nr s h room = record {
    slots = s;
    new = λ j l. absurd (omega (arith, l));
    old = λ q l. refl;
  }
  fill-Filled (suc count) x nr s h room =
      let v : Item = item x in
      let lo : ℕ = x - mid in
      let next : x + 1 - mid ≡ lo + 1 = omega (arith, h) in
      let m : Leaf = run count (x + 1) (put lo v nr) in
      let f =
        fill-Filled count (x + 1) (put lo v nr) (put-HasSlots w lo v nr s) (omega (arith, h))
          (omega (arith, room, next)) in
      let first : item_at m lo ≡ item x =
        f.old lo (omega (arith, next)) ∙ put_self w lo v nr s (omega (arith, room)) in
      let shifted : (j : ℕ) → j < suc count → item_at m (lo + j) ≡ item (x + j) =
        by_first m lo x count first (λ j l.
          let there : x + 1 - mid + j ≡ lo + suc j = omega (arith, next) in
          let same : x + 1 + j ≡ x + suc j = omega arith in
          ap (item_at m) (sym there) ∙ f.new j l ∙ ap item same) in
      subst (λ m. Filled w lo (suc count) (λ j. item (x + j)) nr m) (sym (run-suc count x nr))
        (record {
          slots = f.slots;
          new = λ j l. shifted j l;
          old = λ q l.
              f.old q (omega (arith, next, l))
              ∙ put_ne lo q v nr (λ e. absurd (omega (arith, e, l)));
        })
