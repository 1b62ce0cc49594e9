-- ===== src/Stringbag/Assign.antt =====
-- The strings of a bag do not disturb one another.
use native.Mathlib.Nat.{mod-eq_of_lt}
use mathlib.Core.Path.{subst, subst₂}
use mathlib.Core.Bool.{true≢false}
use incll.Base.{
  ℕ, ◌+◌, ◌-◌, ◌%◌, ◌^◌, max, ◌≤◌, ◌<◌, ◌≡◌, ◌≢◌, ◌⊎◌, inl, inr, refl, sym, ap, ◌∙◌, arith, leb,
  ◌||◌, ◌==◌, ==_ne, ==_refl, ==_iff, Bool, false, Bool-cases, le_of-leb, if◌then◌else◌, List,
  length,
}
use incll.Slice.{load}
use incll.Stringbag.{Info, Bag, store, capacity, get, put_at, assign, overhead, stringbag}
use incll.Stringbag.Apart.{load-store, load-outside}

-- No byte belongs to both strings.
abbrev pub Apart : Info → Info → Type 0
Apart x y = (i j : ℕ) → i < x.len → j < y.len → x.pos + i ≢ y.pos + j

-- The strings lie within the part in use, which is smaller than what an offset can tell, and no
-- byte belongs to two of them.
pub record IsBag (bits : ℕ) (b : Bag) : Type 0 where
  pub fits : b.last + 1 < 2 ^ bits
  pub used : b.size ≤ b.last + 1
  pub within : (p : ℕ) → (b.info p).pos + (b.info p).len ≤ b.size
  pub apart : (p q : ℕ) → p ≢ q → Apart (b.info p) (b.info q)

pub same_or_not : (p q : ℕ) → (p ≡ q) ⊎ (p ≢ q)
same_or_not p q = elim (Bool-cases (p == q)) [
  | inl e ↦ inl ((==_iff p q).0 e)
  | inr e ↦ inr (λ h. true≢false (sym ((==_iff p q).1 h) ∙ e))
]

module _ (bits : ℕ) (b : Bag) (p : ℕ) (s : List ℕ) (pos size : ℕ) where
  abbrev result : Bag
  result = put_at bits p pos s size b

  -- A string is put where no other one is.
  record IsRoom : Type 0 where
    valid : IsBag bits b
    grows : b.size ≤ size
    below : size ≤ b.last + 1
    inside : pos + length s ≤ size
    free : (q : ℕ) → p ≢ q → Apart (record { pos = pos; len = length s }) (b.info q)

  module _ (room : IsRoom) where
    own_info : result.info p ≡ record { pos = pos; len = length s }
    unfolding put_at
    own_info =
        let bound : size < 2 ^ bits = omega (arith, room.below, room.valid.fits) in
        let here : pos % 2 ^ bits ≡ pos = mod-eq_of_lt (omega (arith, room.inside, bound)) in
        let whole : length s % 2 ^ bits ≡ length s =
          mod-eq_of_lt (omega (arith, room.inside, bound)) in
        rw (==_refl p, here, whole) refl

    other_info : (q : ℕ) → p ≢ q → result.info q ≡ b.info q
    unfolding put_at
    other_info q ne = rw (==_ne q p (λ e. ne (sym e))) refl

    own_get : get bits result p ≡ s
    unfolding get put_at
    own_get = ap (λ (i : Info). load (store pos s b.s) i.pos i.len) own_info ∙ load-store s pos b.s

    other_get : (q : ℕ) → p ≢ q → get bits result q ≡ get bits b q
    unfolding get put_at
    other_get q ne =
        ap (λ (i : Info). load (store pos s b.s) i.pos i.len) (other_info q ne)
        ∙ load-outside (b.info q).len (b.info q).pos pos s b.s
            (λ i j k l e. room.free q ne j i l k (sym e))

    within_result : (q : ℕ) → (result.info q).pos + (result.info q).len ≤ size
    within_result q = elim (same_or_not p q) [
      | inl e ↦
          subst (λ (x : Info). x.pos + x.len ≤ size) (sym own_info ∙ ap result.info e) room.inside
      | inr ne ↦
          subst (λ (x : Info). x.pos + x.len ≤ size) (sym (other_info q ne))
            (omega (arith, room.valid.within q, room.grows))
    ]

    Apart-result : (q r : ℕ) → q ≢ r → Apart (result.info q) (result.info r)
    Apart-result q r ne = elim (same_or_not p q) [
      | inl e ↦
          let other : p ≢ r = λ h. ne (sym e ∙ h) in
          subst₂ Apart (sym own_info ∙ ap result.info e) (sym (other_info r other))
            (room.free r other)
      | inr nq ↦ elim (same_or_not p r) [
        | inl e ↦
            subst₂ Apart (sym (other_info q nq)) (sym own_info ∙ ap result.info e)
              (λ i j k l h. room.free q nq j i l k (sym h))
        | inr nr ↦
            subst₂ Apart (sym (other_info q nq)) (sym (other_info r nr)) (room.valid.apart q r ne)
      ]
    ]

    result-IsBag : IsBag bits result
    unfolding put_at
    result-IsBag = record {
      fits = room.valid.fits;
      used = room.below;
      within = within_result;
      apart = Apart-result;
    }

-- What an assignment of `s` at `p` does, with its result `ok`
pub record Assigned (bits : ℕ) (b : Bag) (p : ℕ) (s : List ℕ) (r : Bag × Bool) : Type 0 where
  pub bag : IsBag bits r.0
  pub success :
      r.1 ≡ (leb (length s) (b.info p).len || leb (b.size + max (length s) 8) (b.last + 1))
  pub own : get bits r.0 p ≡ (if r.1 then s else get bits b p)
  pub others : (q : ℕ) → p ≢ q → get bits r.0 q ≡ get bits b q
  pub failure : r.1 ≡ false → r.0 ≡ b

-- In a bag whose capacity an offset can tell, `assign` succeeds where the old string was as long or
-- the room, counted as a word at least, is enough. The string is then read back, all other strings
-- are as before, and no two strings share a byte. Where it fails the whole
-- bag is as before.
pub assign-IsBag :
    (bits : ℕ) (b : Bag) (p : ℕ) (s : List ℕ)
    → IsBag bits b
    → Assigned bits b p s (assign bits b p s)
unfolding assign capacity
assign-IsBag bits b p s valid = elim (Bool-cases (leb (length s) (b.info p).len)) [
  | inl e ↦
      let shorter : length s ≤ (b.info p).len = le_of-leb _ _ e in
      let room : IsRoom bits b p s (b.info p).pos b.size = record {
        valid = valid;
        grows = omega arith;
        below = valid.used;
        inside = omega (arith, shorter, valid.within p);
        free = λ q ne i j k l. valid.apart p q ne i j (omega (arith, k, shorter)) l;
      } in
      rw e (record {
        bag = result-IsBag bits b p s (b.info p).pos b.size room;
        success = rw e refl;
        own = own_get bits b p s (b.info p).pos b.size room;
        others = other_get bits b p s (b.info p).pos b.size room;
        failure = λ no_room. absurd (true≢false no_room);
      })
  | inr e ↦ elim (Bool-cases (leb (b.size + max (length s) 8) (b.last + 1))) [
    | inl f ↦
        let enough : b.size + max (length s) 8 ≤ b.last + 1 = le_of-leb _ _ f in
        let size : (b.size + length s) % 2 ^ bits ≡ b.size + length s =
          mod-eq_of_lt (omega (arith, enough, valid.fits)) in
        let room : IsRoom bits b p s b.size (b.size + length s) = record {
          valid = valid;
          grows = omega arith;
          below = omega (arith, enough);
          inside = omega arith;
          free = λ q ne i j k l h. absurd (omega (arith, valid.within q, l, h));
        } in
        rw (e, f, size)
          (record {
            bag = result-IsBag bits b p s b.size (b.size + length s) room;
            success = rw (e, f) refl;
            own = own_get bits b p s b.size (b.size + length s) room;
            others = other_get bits b p s b.size (b.size + length s) room;
            failure = λ no_room. absurd (true≢false no_room);
          })
    | inr f ↦
        rw (e, f)
          (record {
            bag = valid;
            success = rw (e, f) refl;
            own = refl;
            others = λ q ne. refl;
            failure = λ no_room. refl;
          })
  ]
]

-- A new bag is one, with empty strings.
pub stringbag-IsBag :
    (bits width cap : ℕ) (mem : ℕ → ℕ)
    → overhead bits width < cap
    → cap < 2 ^ bits
    → IsBag bits (stringbag bits width cap mem)
unfolding stringbag
stringbag-IsBag bits width cap mem fits h =
    let size : overhead bits width % 2 ^ bits ≡ overhead bits width =
      mod-eq_of_lt (omega (arith, fits, h)) in
    let last : (cap - 1) % 2 ^ bits ≡ cap - 1 = mod-eq_of_lt (omega (arith, h)) in
    record {
      fits = omega (arith, last, h, fits);
      used = omega (arith, size, last, fits);
      within = λ p. omega arith;
      apart = λ p q ne i j k l. absurd (omega (arith, k));
    }
