-- ===== src/Lookup/Advance.antt =====
-- The walk along the links of the leaves.
use incll.Base.{
  ℕ, zero, suc, ◌+◌, ◌-◌, ◌≤◌, ◌<◌, ◌≡◌, ◌≢◌, inl, inr, refl, sym, ap, ◌∙◌, arith, true, false,
  ==_ne, Option, none, some, get_or, leb, if◌then◌else◌, le_or_lt,
}
use incll.Nodeversion
use incll.Ksearch.{Sign, negative, null, positive}
use incll.Ksearch.Bounds.{rank, Sign-cases}
use incll.Slice.{compare}
use incll.Leaf.{Leaf}
use incll.Key.{Key, compare_ikey}
use incll.Descent.{Store}
use incll.Descent.Tree.{IsClean}
use incll.Lookup.{
  compare_key, stable_last_key_compare, safe_next, stable_version, goes_on, leaf_walk,
  advance_to_key, last_slot,
}

negative≢positive : negative ≢ positive
negative≢positive e = absurd (omega (arith, ap rank e))

null≢positive : null ≢ positive
null≢positive e = absurd (omega (arith, ap rank e))

module _ (s : Store) (k : Key) where
  abbrev bound : ℕ → ℕ
  bound a = get_or ((s.leaf a).ikey0) 0 0

  -- The leaves `at 0` to `at m` of a layer, as they are linked
  pub record IsLinked (at : ℕ → ℕ) (m : ℕ) : Type 0 where
    pub clean : (i : ℕ) → i ≤ m → IsClean (s.version (at i))
    pub alive : (i : ℕ) → i ≤ m → Nodeversion.deleted (s.version (at i)) ≡ false
    pub next : (i : ℕ) → i < m → safe_next (s.leaf (at i)) ≡ at (i + 1)
    pub there : (i : ℕ) → i < m → at (i + 1) ≢ 0
    pub last : safe_next (s.leaf (at m)) ≡ 0

  at_or_above :
      (a b : ℕ)
      → (elim (compare a b) [ negative ↦ false | null ↦ true | positive ↦ true ]) ≡ leb b a
  unfolding compare
  at_or_above a b = ground arith

  module _ (at : ℕ → ℕ) (m : ℕ) (linked : IsLinked at m) where
    stops : goes_on s k (at m) (s.version (at m)) ≡ false
    unfolding goes_on
    stops = rw (linked.last, linked.alive m (omega arith)) refl

    goes :
        (i : ℕ) → i < m → goes_on s k (at i) (s.version (at i)) ≡ leb (bound (at (i + 1))) k.ikey0
    unfolding goes_on
    goes i h =
        rw
          (
            linked.next i h,
            linked.alive i (omega (arith, h)),
            ==_ne (at (i + 1)) 0 (linked.there i h),
          )
          (at_or_above k.ikey0 (bound (at (i + 1))))

    -- From the leaf `at i` on, a leaf that may hold the key's slice
    abbrev pub Responsible : ℕ → Option (ℕ × ℕ) → Type 0
    Responsible i r =
        (j : ℕ) × (i ≤ j)
        × (j ≤ m)
        × (r ≡ some (at j, s.version (at j)))
        × (bound (at j) ≤ k.ikey0)
        × (j < m → k.ikey0 < bound (at (j + 1)))

    stable_version-at : (i : ℕ) → i ≤ m → stable_version s (at i) ≡ some (s.version (at i))
    unfolding stable_version
    stable_version-at i h = rw (linked.clean i h) refl

    leaf_walk-on :
        (fuel i : ℕ)
        → i < m
        → bound (at (i + 1)) ≤ k.ikey0
        → leaf_walk s k (suc fuel) (at i) (s.version (at i))
          ≡ leaf_walk s k fuel (at (i + 1)) (s.version (at (i + 1)))
    unfolding leaf_walk
    leaf_walk-on fuel i h le =
        let on : leb (bound (at (i + 1))) k.ikey0 ≡ true = ground (arith, le) in
        rw (goes i h ∙ on, linked.next i h, stable_version-at (i + 1) (omega (arith, h)))
          (ap (λ x. leaf_walk s k fuel x (s.version (at (i + 1)))) (linked.next i h))

    leaf_walk-stop :
        (fuel i : ℕ)
        → goes_on s k (at i) (s.version (at i)) ≡ false
        → leaf_walk s k (suc fuel) (at i) (s.version (at i)) ≡ some (at i, s.version (at i))
    unfolding leaf_walk
    leaf_walk-stop fuel i e = rw e refl

    leaf_walk-Responsible :
        (fuel i : ℕ)
        → i ≤ m
        → m - i < fuel
        → bound (at i) ≤ k.ikey0
        → Responsible i (leaf_walk s k fuel (at i) (s.version (at i)))
    leaf_walk-Responsible zero i h f b = absurd (omega (arith, f))
    leaf_walk-Responsible (suc fuel) i h f b = elim (le_or_lt i m) [
      | inr le ↦
          let end : i ≡ m = omega (arith, h, le) in
          (
            i,
            omega arith,
            h,
            leaf_walk-stop fuel i (ap (λ x. goes_on s k (at x) (s.version (at x))) end ∙ stops),
            b,
            λ l. absurd (omega (arith, l, le)),
          )
      | inl lt ↦ elim (le_or_lt k.ikey0 (bound (at (i + 1)))) [
        | inr le ↦
            let r =
              leaf_walk-Responsible fuel (i + 1) (omega (arith, lt)) (omega (arith, f, lt)) le in
            (r.0, omega (arith, r.1), r.2, leaf_walk-on fuel i lt le ∙ r.3, r.4, r.5)
        | inl above ↦
            let off : leb (bound (at (i + 1))) k.ikey0 ≡ false = ground (arith, above) in
            (i, omega arith, h, leaf_walk-stop fuel i (goes i lt ∙ off), b, λ l. above)
      ]
    ]

    not_positive :
        (n : Leaf) (p : ℕ) → (compare_key k n p ≡ positive → ⊥) → k.ikey0 ≤ get_or n.ikey0 p 0
    unfolding compare_key compare_ikey compare
    not_positive n p = ground arith

    -- A key that is not above the last one of the leaf stays there.
    below_next :
        (i : ℕ)
        → (stable_last_key_compare k (s.leaf (at i)) ≡ positive → ⊥)
        → (i < m
            → (p : ℕ) → p ≡ last_slot ((s.leaf (at i)).permutation)
            → get_or ((s.leaf (at i)).ikey0) p 0 < bound (at (i + 1)))
        → i < m
        → k.ikey0 < bound (at (i + 1))
    unfolding stable_last_key_compare
    below_next i other inside l =
        omega (arith, not_positive (s.leaf (at i)) _ other, inside l _ refl)

    on_sign : ℕ → ℕ → Sign → Option (ℕ × ℕ)
    on_sign fuel i negative = some (at i, s.version (at i))
    on_sign fuel i null = some (at i, s.version (at i))
    on_sign fuel i positive = leaf_walk s k fuel (at i) (s.version (at i))

    advance_to_key-on_sign :
        (fuel i oldv : ℕ) (c : Sign)
        → i ≤ m
        → Nodeversion.has_split (s.version (at i)) oldv ≡ true
        → stable_last_key_compare k (s.leaf (at i)) ≡ c
        → advance_to_key fuel s k (at i) oldv ≡ on_sign fuel i c
    unfolding advance_to_key on_sign
    advance_to_key-on_sign fuel i oldv c h split e =
        ap opened (stable_version-at i h)
        ∙ ap
            (λ b.
              if b
              then chosen (s.version (at i)) (stable_last_key_compare k (s.leaf (at i)))
              else some (at i, s.version (at i)))
            split
        ∙ ap (chosen (s.version (at i))) e
        ∙ same c
      where
        chosen : ℕ → Sign → Option (ℕ × ℕ)
        chosen v negative = some (at i, v)
        chosen v null = some (at i, v)
        chosen v positive = leaf_walk s k fuel (at i) v

        same : (c : Sign) → chosen (s.version (at i)) c ≡ on_sign fuel i c
        same negative = refl
        same null = refl
        same positive = refl

        opened : Option ℕ → Option (ℕ × ℕ)
        opened none = none
        opened (some v) =
            if Nodeversion.has_split v oldv
            then chosen v (stable_last_key_compare k (s.leaf (at i)))
            else some (at i, v)

    -- Let `n` be the leaf `at i` of the linked leaves, which was responsible for the key's slice
    -- before it split, so that its first slice is not above the key's, and let its last slice be
    -- below the first one of the next leaf. With fuel for the leaves that follow, `advance_to_key`
    -- returns the version of the one among them, or of `n`, in whose range the slice is: its first
    -- slice is not above the key's, and that of the next leaf is.
    pub advance_to_key_lem :
        (fuel i oldv : ℕ)
        → i ≤ m
        → m - i < fuel
        → Nodeversion.has_split (s.version (at i)) oldv ≡ true
        → bound (at i) ≤ k.ikey0
        → (i < m
            → (p : ℕ) → p ≡ last_slot ((s.leaf (at i)).permutation)
            → get_or ((s.leaf (at i)).ikey0) p 0 < bound (at (i + 1)))
        → (j : ℕ) × (i ≤ j)
          × (j ≤ m)
          × (advance_to_key fuel s k (at i) oldv ≡ some (at j, s.version (at j)))
          × (bound (at j) ≤ k.ikey0)
          × (j < m → k.ikey0 < bound (at (j + 1)))
    unfolding on_sign
    advance_to_key_lem fuel i oldv h f split b inside =
        elim (Sign-cases (stable_last_key_compare k (s.leaf (at i)))) [
          | inl e ↦ (
            i,
            omega arith,
            h,
            advance_to_key-on_sign fuel i oldv negative h split e,
            b,
            below_next i (λ q. negative≢positive (sym e ∙ q)) inside,
          )
          | inr (inl e) ↦ (
            i,
            omega arith,
            h,
            advance_to_key-on_sign fuel i oldv null h split e,
            b,
            below_next i (λ q. null≢positive (sym e ∙ q)) inside,
          )
          | inr (inr e) ↦
              let r = leaf_walk-Responsible fuel i h f b in
              (r.0, r.1, r.2, advance_to_key-on_sign fuel i oldv positive h split e ∙ r.3, r.4, r.5)
        ]
