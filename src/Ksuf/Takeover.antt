-- ===== src/Ksuf/Takeover.antt =====
-- The suffixes of a leaf survive a change of bags.
use mathlib.Core.Path.{subst}
use mathlib.Core.Option.{none-ne-some}
use mathlib.Core.Bool.{true≢false}
use incll.Base.{
  ℕ, ◌+◌, ◌-◌, ◌%◌, ◌^◌, max, ◌≤◌, ◌<◌, ◌≡◌, ◌≢◌, ◌⊎◌, inl, inr, refl, sym, ap, ◌∙◌, arith, Bool,
  true, false, ◌&&◌, ◌==◌, ==_iff, ==_ne, leb, and-right, Bool-cases, Option-cases, if◌then◌else◌,
  Option, none, some, List, [], ◌∷◌, length, All, All-map, All-map2,
}
use incll.Leaf.{width, modstate_remove}
use incll.Stringbag.{
  Bag, assign, get, capacity, overhead, safe_size, max_size, stringbag, construct,
}
use incll.Stringbag.Assign.{IsBag, assign-IsBag, stringbag-IsBag}
use incll.Ksuf.{
  Suffixes, ksuf, sum_lengths, copy_ksufs, iceil_log2, new_ksuf, assign_internal, assign_ksuf,
}
use incll.Ksuf.Rounding.{iceil_log2-le}
use incll.Ksuf.Copy.{included, chosen, copy_ksufs-Copied, assign-room}

abbrev pub IsExternal : Option Bag → Type 0
IsExternal none = Unit
IsExternal (some b) = IsBag 16 b

-- Both bags are sound, and the one inside the leaf is dead once there is one outside.
pub record IsSuffixes (f : Suffixes) : Type 0 where
  pub inner : IsBag 8 f.iksuf
  pub outer : IsExternal f.external
  pub alone : (f.external ≡ none) ⊎ (f.extra ≡ false)

ksuf-inner : (f : Suffixes) (q : ℕ) → f.external ≡ none → ksuf f q ≡ get 8 f.iksuf q
unfolding ksuf
ksuf-inner f q e = ap (λ x. elim x [ none ↦ get 8 f.iksuf q | some b ↦ get 16 b q ]) e

ksuf-outer : (f : Suffixes) (b : Bag) (q : ℕ) → f.external ≡ some b → ksuf f q ≡ get 16 b q
unfolding ksuf
ksuf-outer f b q e = ap (λ x. elim x [ none ↦ get 8 f.iksuf q | some c ↦ get 16 c q ]) e

module _ (has_ksuf : ℕ → Bool) (p : ℕ) where
  included-ne : (q : ℕ) → included has_ksuf p q ≡ true → p ≢ q
  included-ne q e h =
      let same : (q == p) ≡ true = (==_iff q p).1 (sym h) in true≢false (sym e ∙ rw same refl)

  chosen-ne : (slots : List ℕ) → All (λ q. p ≢ q) (chosen has_ksuf p slots)
  chosen-ne [] = tt
  chosen-ne (q ∷ slots) = elim (Bool-cases (included has_ksuf p q)) [
    | inl e ↦ rw e (included-ne q e, chosen-ne slots)
    | inr e ↦ rw e (chosen-ne slots)
  ]

  -- The string is there, and those of the other slots are as before.
  pub record Kept (f : Suffixes) (s : List ℕ) (slots : List ℕ) (g : Suffixes) : Type 0 where
    pub suffixes : IsSuffixes g
    pub own : ksuf g p ≡ s
    pub others : All (λ q. ksuf g q ≡ ksuf f q) (chosen has_ksuf p slots)

  module _ (f : Suffixes) (s slots : List ℕ) (mem : ℕ → ℕ) (sound : IsSuffixes f)
      (pos : 0 < length s) (long : All (λ q. 0 < length (ksuf f q)) (chosen has_ksuf p slots))
      (total : sum_lengths has_ksuf p f slots + length s < 2 ^ 32)
      (room : iceil_log2 (safe_size 16 width (sum_lengths has_ksuf p f slots + length s)) < 2 ^ 16)
      (not_removing : f.modstate ≢ modstate_remove) where
    abbrev needed : ℕ
    needed = iceil_log2 (safe_size 16 width (sum_lengths has_ksuf p f slots + length s))

    abbrev Result : Option Suffixes → Type 0
    Result r = (g : Suffixes) × (r ≡ some g) × Kept f s slots g

    needed-le : 67 + (sum_lengths has_ksuf p f slots + length s) ≤ needed
    unfolding safe_size overhead
    needed-le =
        let x : ℕ = safe_size 16 width (sum_lengths has_ksuf p f slots + length s) in
        omega (arith, iceil_log2-le x (omega arith) (omega (arith, total)))

    dead : (b : Bag) → f.external ≡ some b → f.extra ≡ false
    dead b e = elim sound.alone [
      | inl none_at ↦ absurd (none-ne-some b (sym none_at ∙ e))
      | inr d ↦ d
    ]

    -- A bag outside that holds the suffixes of the other slots, and has room for the string
    outside :
        (m : Bag) (x : Bool)
        → IsBag 16 m
        → (assign 16 m p s).1 ≡ true
        → x ≡ false
        → All (λ q. get 16 m q ≡ ksuf f q) (chosen has_ksuf p slots)
        → Kept f s slots (record {
          external = some (assign 16 m p s).0;
          iksuf = f.iksuf;
          extra = x;
          modstate = f.modstate;
        })
    unfolding ksuf
    outside m x valid ok dead held =
        let a = assign-IsBag 16 m p s valid in
        record {
          suffixes = record { inner = sound.inner; outer = a.bag; alone = inr dead };
          own = a.own ∙ ap (λ b. if b then s else get 16 m p) ok;
          others =
              All-map2 (λ q. p ≢ q) (λ q. get 16 m q ≡ ksuf f q)
                (λ q. get 16 (assign 16 m p s).0 q ≡ ksuf f q) (chosen has_ksuf p slots)
                (λ q ne e. a.others q ne ∙ e) (chosen-ne slots) held;
        }

    -- The new bag of any size between what is needed and what an offset can tell
    new_lem :
        (sz : ℕ)
        → needed ≤ sz
        → sz < 2 ^ 16
        → (m : Bag) × (construct 16 width sz mem ≡ some (stringbag 16 width sz mem))
          × (copy_ksufs has_ksuf p f slots (stringbag 16 width sz mem) ≡ some m)
          × ((assign 16 m p s).1 ≡ true)
          × Kept f s slots (record {
            external = some (assign 16 m p s).0;
            iksuf = f.iksuf;
            extra = false;
            modstate = f.modstate;
          })
    unfolding stringbag overhead construct max_size
    new_lem sz le lt =
        let valid : IsBag 16 (stringbag 16 width sz mem) =
          stringbag-IsBag 16 width sz mem (omega (arith, needed-le, le)) lt in
        let last : (sz - 1) % 2 ^ 16 ≡ sz - 1 = omega (arith, lt) in
        let moved =
          copy_ksufs-Copied has_ksuf p f slots (stringbag 16 width sz mem) valid long
            (omega (arith, needed-le, le, last)) in
        let m : Bag = moved.0 in
        let c = moved.2 in
        let ok : (assign 16 m p s).1 ≡ true =
          assign-room m p s c.bag pos (omega (arith, c.size, c.last, last, needed-le, le)) in
        let a = assign-IsBag 16 m p s c.bag in
        let large : leb (overhead 16 width) sz ≡ true = ground (arith, needed-le, le) in
        let fits : leb sz (max_size 16) ≡ true = ground (arith, lt) in
        (m, rw (large, fits) refl, moved.1, ok, outside m false c.bag ok refl c.copied)

    new_ksuf-Kept : Result (new_ksuf has_ksuf p f s slots mem)
    unfolding new_ksuf capacity
    new_ksuf-Kept =
        let still : (f.modstate == modstate_remove) ≡ false =
          ==_ne f.modstate modstate_remove not_removing in
        elim (Option-cases f.external) [
          | inl e ↦
              let n = new_lem needed (omega arith) room in
              (_, rw (e, n.1, n.2, n.3, still) refl, n.4)
          | inr (b, e) ↦
              let bag : IsBag 16 b = subst IsExternal e sound.outer in
              let n =
                new_lem (max needed (b.last + 1)) (omega arith) (omega (arith, room, bag.fits)) in
              (_, rw (e, n.1, n.2, n.3, still) refl, n.4)
        ]

    not_inside :
        (f.extra && (assign 8 f.iksuf p s).1) ≡ false
        → Result (assign_internal has_ksuf p f s slots mem)
    unfolding assign_internal
    not_inside e = let n = new_ksuf-Kept in (n.0, rw e refl ∙ n.1, n.2)

    inside :
        f.external ≡ none
        → (assign 8 f.iksuf p s).1 ≡ true
        → Kept f s slots (record f { iksuf = (assign 8 f.iksuf p s).0 })
    inside e ok =
        let r : Bag × Bool = assign 8 f.iksuf p s in
        let g : Suffixes = record f { iksuf = r.0 } in
        let a = assign-IsBag 8 f.iksuf p s sound.inner in
        record {
          suffixes = record { inner = a.bag; outer = sound.outer; alone = inl e };
          own = ksuf-inner g p e ∙ a.own ∙ ap (λ b. if b then s else get 8 f.iksuf p) ok;
          others =
              All-map (λ q. p ≢ q) (λ q. ksuf g q ≡ ksuf f q) (chosen has_ksuf p slots)
                (λ q ne. ksuf-inner g q e ∙ a.others q ne ∙ sym (ksuf-inner f q e))
                (chosen-ne slots);
        }

    assign_internal-Kept :
        (f.external ≡ none) ⊎ (f.extra ≡ false) → Result (assign_internal has_ksuf p f s slots mem)
    unfolding assign_internal
    assign_internal-Kept (inl e) = elim (Bool-cases (f.extra && (assign 8 f.iksuf p s).1)) [
      | inl q ↦ (_, rw q refl, inside e (and-right f.extra (assign 8 f.iksuf p s).1 q))
      | inr q ↦ not_inside q
    ]
    assign_internal-Kept (inr e) = not_inside (ap (λ x. x && (assign 8 f.iksuf p s).1) e)

    -- For a leaf with sound bags that is not in the state of a removal, suffixes that are not empty,
    -- and a new bag that an offset can tell: `assign_ksuf` meets its assertions, those of the
    -- constructor of the new bag and on the state of the leaf included, whether the bag at hand has room or another one
    -- must be made, and afterwards the slot has the string, the other slots that the loops go over
    -- have their suffixes, and the bags are sound again.
    pub assign_ksuf-IsSuffixes :
        (g : Suffixes) × (assign_ksuf has_ksuf p f s slots mem ≡ some g) × Kept f s slots g
    unfolding assign_ksuf
    assign_ksuf-IsSuffixes = elim (Option-cases f.external) [
      | inl e ↦ let n = assign_internal-Kept (inl e) in (n.0, rw e refl ∙ n.1, n.2)
      | inr (b, e) ↦ elim (Bool-cases (assign 16 b p s).1) [
        | inl ok ↦ (
          _,
          rw (e, ok) refl,
          outside b f.extra (subst IsExternal e sound.outer) ok (dead b e) (
              All-map (λ q. p ≢ q) (λ q. get 16 b q ≡ ksuf f q) (chosen has_ksuf p slots)
                (λ q ne. sym (ksuf-outer f b q e)) (chosen-ne slots)),
        )
        | inr full ↦
            let n = assign_internal-Kept (inr (dead b e)) in (n.0, rw (e, full) refl ∙ n.1, n.2)
      ]
    ]
