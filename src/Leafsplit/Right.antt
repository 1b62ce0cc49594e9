-- ===== src/Leafsplit/Right.antt =====
-- The new leaf of a split.
use incll.Base.{
  ℕ, ◌+◌, ◌-◌, ◌≤◌, ◌<◌, min, ◌≡◌, ◌≢◌, inl, inr, refl, sym, ap, ◌∙◌, arith, Bool, true, false,
  ◌&&◌, ltb, leb, ◌==◌, Bool-cases, if◌then◌else◌, ==_iff, le_of-leb, le_or_lt,
}
use incll.Kpermuter
use incll.Kpermuter.Make.{make_sorted_lem, make_sorted-lt}
use incll.Kpermuter.ToBack.{remove_to_back_lem}
use incll.Leaf.{Leaf}
use incll.Leaflink.{Links}
use incll.Leafsplit.{Key, Split, ikey_after_insert, first_mid, find_mid, fill, split_at, split_into}
use incll.Leafsplit.Middle.{IsBoundary, find_mid-IsBoundary}
use incll.Leafsplit.Fill.{item_at, inserted, HasSlots, fill-Filled, slots_from}

first_mid-range :
    (size p : ℕ) (h : Links) (at : ℕ)
    → 13 ≤ size
    → (0 < first_mid size p h at) × (first_mid size p h at ≤ size)
unfolding first_mid
first_mid-range size p h at r = ground (arith, r)

ikey_after_insert-slice :
    (this : Leaf) (perm i : ℕ) (ka : Key) (p : ℕ)
    → ikey_after_insert this perm i ka p ≡ (inserted this perm p ka i).slice
unfolding ikey_after_insert
ikey_after_insert-slice this perm i ka p = elim (Bool-cases (ltb i p)) [
  | inl e ↦ rw e refl
  | inr e ↦ elim (Bool-cases (i == p)) [ inl f ↦ rw (e, f) refl | inr f ↦ rw (e, f) refl ]
]

-- Of two different numbers one differs from any third.
differs : (f : ℕ → ℕ) (a b m n : ℕ) → f a ≢ f b → a ≤ n → b ≤ n → (j : ℕ) × (j ≤ n) × (f j ≢ f m)
differs f a b m n ne ha hb = elim (Bool-cases (f a == f m)) [
  | inl e ↦ (b, hb, λ q. ne ((==_iff (f a) (f m)).0 e ∙ sym q))
  | inr e ↦ (a, ha, λ q. ground (arith, e, q))
]

-- The permutation of the new leaf: its items but the new key's, whose slot is the next to be taken.
abbrev pub next_slot : ℕ → ℕ → Bool → ℕ
next_slot items q own = if own then q else min items 13

pub record IsOrder (items q : ℕ) (own : Bool) (perm : ℕ) : Type 0 where
  pub count : Kpermuter.size perm ≡ items - (if own then 1 else 0)
  pub order :
      (j : ℕ)
      → j < Kpermuter.size perm
      → Kpermuter.elem perm j ≡ (if own && leb q j then j + 1 else j)
  pub free : Kpermuter.back 14 perm ≡ next_slot items q own

order_lem :
    (items q : ℕ) (own : Bool)
    → 0 < items
    → items ≤ 14
    → (own ≡ true → q < items)
    → IsOrder items q own (
        if own
        then Kpermuter.remove_to_back 14 (Kpermuter.make_sorted 14 items) q
        else Kpermuter.make_sorted 14 items)
unfolding Kpermuter.back
order_lem items q true pos le h =
    let x : ℕ = Kpermuter.make_sorted 14 items in
    let below : q < items = h refl in
    let m = make_sorted_lem items le in
    let r =
      remove_to_back_lem 14 x q (omega arith) (make_sorted-lt items le) (omega (arith, m.1, pos))
        (omega (arith, below, le)) in
    record {
      count = omega (arith, r.0, m.1);
      order = λ j l. elim (le_or_lt j q) [
        | inl lt ↦
            let before : leb q j ≡ false = ground (arith, lt) in
            rw before (r.2 j lt ∙ m.2 j (omega (arith, lt, below)))
        | inr ge ↦
            let past : leb q j ≡ true = ground (arith, ge) in
            rw past
              (r.3 j ge (omega (arith, l, r.0, m.1, le)) ∙ m.2 (j + 1) (omega (arith, l, r.0, m.1)))
      ];
      free = r.1 ∙ m.2 q below;
    }
order_lem items q false pos le h =
    let m = make_sorted_lem items le in
    record { count = omega (arith, m.1); order = λ j l. m.2 j (omega (arith, l, m.1)); free = m.3 }

-- The parts of a split at `mid`
pub record IsSplit (this : Leaf) (p : ℕ) (ka : Key) (s : Split) : Type 0 where
  pub mid : ℕ
  pub some_left : 0 < mid
  pub some_right : mid ≤ Kpermuter.size this.permutation
  pub apart :
      (inserted this this.permutation p ka mid).slice
      ≢ (inserted this this.permutation p ka (mid - 1)).slice
  pub items :
      (j : ℕ)
      → j < Kpermuter.size this.permutation + 1 - mid
      → item_at s.right j ≡ inserted this this.permutation p ka (mid + j)
  pub permutation :
      IsOrder (Kpermuter.size this.permutation + 1 - mid) (p - mid) (leb mid p) s.right.permutation
  pub bound : s.split_ikey ≡ (inserted this this.permutation p ka mid).slice
  pub new_key :
      s.split_type
      ≡ (if leb mid p then (if mid == Kpermuter.size this.permutation then 2 else 1) else 0)

split_type_lem :
    (own last : Bool)
    → (if own then 1 + (if last then 1 else 0) else 0)
      ≡ (if own then (if last then 2 else 1) else 0)
split_type_lem true true = refl
split_type_lem true false = refl
split_type_lem false last = refl

split_at-IsSplit :
    (this_at nr_at : ℕ) (this nr : Leaf) (p : ℕ) (ka : Key) (h : Links) (m : ℕ)
    → Kpermuter.size this.permutation ≤ 14
    → p ≤ Kpermuter.size this.permutation
    → HasSlots 14 nr
    → IsBoundary
        (λ i. (inserted this this.permutation p ka i).slice)
        (Kpermuter.size this.permutation)
        m
    → IsSplit this p ka (split_at this_at nr_at this nr p ka h m)
unfolding split_at
split_at-IsSplit this_at nr_at this nr p ka h m fits in_p slots border =
    let n : ℕ = Kpermuter.size this.permutation in
    let zero_at : m - m ≡ 0 = omega arith in
    let room : m - m + (n + 1 - m) ≤ 14 = omega (arith, border.0, fits) in
    let f = fill-Filled this p ka m 14 (n + 1 - m) m nr slots (omega arith) room in
    let filled : Leaf =
      fill this p ka m (n + 1 - m) m (slots_from this this.permutation p ka m) nr in
    let at : (j : ℕ) → m - m + j ≡ j = λ j. omega (arith, zero_at) in
    let some : 0 < n + 1 - m = omega (arith, border.1) in
    let first : m + 0 ≡ m = omega arith in
    record {
      mid = m;
      some_left = border.0;
      some_right = border.1;
      apart = border.2;
      items = λ j l. ap (item_at filled) (sym (at j)) ∙ f.new j l;
      permutation =
          order_lem (n + 1 - m) (p - m) (leb m p) some (omega (arith, border.0, fits))
            (λ e. omega (arith, le_of-leb m p e, in_p));
      bound =
          ap (λ q. (item_at filled q).slice) (sym (at 0))
          ∙ ap (λ v. v.slice) (f.new 0 some)
          ∙ ap (λ i. (inserted this this.permutation p ka i).slice) first;
      new_key = split_type_lem (leb m p) (m == n);
    }

-- A leaf of 13 or 14 items, not all of one slice, is split into two parts that are not empty and
-- have no slice in common at their border. The new leaf holds the items from the border on, in
-- order, the new key at its place; its permutation passes over the slot of the new key, which is
-- the next one to be taken; its bound is the slice of its first item, and the result tells which
-- part has the new key, and whether it is alone there.
pub split_into-IsSplit :
    (this_at nr_at : ℕ) (this nr : Leaf) (p : ℕ) (ka : Key) (h : Links) (a b : ℕ)
    → 13 ≤ Kpermuter.size this.permutation
    → Kpermuter.size this.permutation ≤ 14
    → p ≤ Kpermuter.size this.permutation
    → HasSlots 14 nr
    → a ≤ Kpermuter.size this.permutation
    → b ≤ Kpermuter.size this.permutation
    → (inserted this this.permutation p ka a).slice ≢ (inserted this this.permutation p ka b).slice
    → IsSplit this p ka (split_into this_at nr_at this nr p ka h)
unfolding split_into
split_into-IsSplit this_at nr_at this nr p ka h a b most fits in_p slots in_a in_b ne =
    let n : ℕ = Kpermuter.size this.permutation in
    let after : ℕ → ℕ = λ i. ikey_after_insert this this.permutation i ka p in
    let slice = λ (i : ℕ). ikey_after_insert-slice this this.permutation i ka p in
    let start = first_mid-range n p h this_at most in
    let d =
      differs after a b (first_mid n p h this_at) n (λ q. ne (sym (slice a) ∙ q ∙ slice b)) in_a
        in_b in
    let border =
      find_mid-IsBoundary after n (first_mid n p h this_at) d.0 start.0 start.1 d.1 d.2 in
    let m : ℕ = find_mid after n (first_mid n p h this_at) in
    split_at-IsSplit this_at nr_at this nr p ka h m fits in_p slots
      (border.0, border.1, λ q. border.2 (slice m ∙ q ∙ sym (slice (m - 1))))
