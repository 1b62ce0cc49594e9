-- ===== src/Lookup/Suffix.antt =====
-- The comparison of a key's suffix with that of a slot, and what the search of a leaf comes to.
use mathlib.Core.Path.{subst}
use mathlib.Core.Bool.{true≢false}
use incll.Base.{
  ℕ, ◌+◌, ◌-◌, ◌≤◌, ◌<◌, ◌≡◌, ◌≢◌, ◌⊎◌, ◌↔◌, inl, inr, refl, sym, ap, ◌∙◌, arith, true, ◌&&◌,
  Bool-cases, ==_iff, and-left, and-right, Option, none, some, List, length, drop, get_or, ltb,
  ◌==◌,
}
use incll.Ksearch.Bounds.{rank}
use incll.Slice.{load, equals_sloppy}
use incll.Slice.Words.{length-load}
use incll.Slice.Equal.{equals_sloppy-load}
use incll.Key.{Key, shift_by}
use incll.Key.Compare.{drop-load}
use incll.Leaf.{Leaf}
use incll.Descent.{Store}
use incll.Lookup.{
  Str, Match, different, same, layer, retry, done, compare_key, lower, ksuf_matches, conclude, look,
}
use incll.Lookup.Layer.{slice, Fits, IsSlot, short, ends, longer, IsContent}
use incll.Lookup.Slots.{compare_ikey-null, null-compare_ikey, lower_cases}

module _ (mem : ℕ → ℕ) (valid : (x : ℕ) → mem x < 256) (ksuf : ℕ → ℕ → Str) where
  module _ (a : ℕ) (n : Leaf) (p : ℕ) (k : Key) where
    abbrev klx : ℕ
    klx = get_or n.keylenx p 0

    abbrev suffix_of_slot : List ℕ
    suffix_of_slot = load mem ((ksuf a p).s) ((ksuf a p).len)

    matches_short : klx ≤ 8 → ksuf_matches mem ksuf a n p k ≡ same
    unfolding ksuf_matches
    matches_short h = let e : ltb klx 64 ≡ true = ground (arith, h) in rw e refl

    matches_layer : klx ≡ 128 → ksuf_matches mem ksuf a n p k ≡ layer 8
    unfolding ksuf_matches
    matches_layer h = rw h refl

    same_suffix :
        (((ksuf a p).len == (k.len - 8))
            && equals_sloppy mem ((ksuf a p).s) (k.s + 8) ((ksuf a p).len)
          ≡ true)
        ↔ (drop 8 (load mem k.s k.len) ≡ suffix_of_slot)
    same_suffix =
        let rest = drop-load mem 8 k.s k.len in
        (
          λ e.
              let l : (ksuf a p).len ≡ k.len - 8 = (==_iff _ _).0 (and-left _ _ e) in
              let q =
                (equals_sloppy-load mem ((ksuf a p).s) (k.s + 8) ((ksuf a p).len) valid).0
                  (and-right ((ksuf a p).len == (k.len - 8)) _ e) in
              rest ∙ ap (load mem (k.s + 8)) (sym l) ∙ sym q,
          λ e.
              let q : load mem (k.s + 8) (k.len - 8) ≡ suffix_of_slot = sym rest ∙ e in
              let l : (ksuf a p).len ≡ k.len - 8 =
                sym (length-load mem _ _) ∙ ap length (sym q) ∙ length-load mem _ _ in
              let r : load mem ((ksuf a p).s) ((ksuf a p).len)
                  ≡ load mem (k.s + 8) ((ksuf a p).len) =
                sym q ∙ ap (load mem (k.s + 8)) (sym l) in
              rw ((==_iff _ _).1 l)
                ((equals_sloppy-load mem ((ksuf a p).s) (k.s + 8) ((ksuf a p).len) valid).1 r),
        )

    matches_suffix :
        klx ≡ 64
        → ((ksuf_matches mem ksuf a n p k ≡ same) × (drop 8 (load mem k.s k.len) ≡ suffix_of_slot))
          ⊎ ((ksuf_matches mem ksuf a n p k ≡ different)
              × (drop 8 (load mem k.s k.len) ≢ suffix_of_slot))
    unfolding ksuf_matches
    matches_suffix h =
        elim (Bool-cases (
          ((ksuf a p).len == (k.len - 8))
          && equals_sloppy mem ((ksuf a p).s) (k.s + 8) ((ksuf a p).len))) [
            | inl e ↦ inl (rw (h, e) refl, same_suffix.0 e)
            | inr e ↦ inr (rw (h, e) refl, λ q. absurd (true≢false (sym (same_suffix.1 q) ∙ e)))
          ]

  looked : ℕ → Leaf → Key → Option ℕ → Match × ℕ
  looked a n k none = (different, 0)
  looked a n k (some p) = (ksuf_matches mem ksuf a n p k, get_or n.lv p 0)

  look-looked : (a : ℕ) (n : Leaf) (k : Key) → look mem ksuf a n k ≡ looked a n k ((lower k n).p)
  unfolding look looked
  look-looked a n k = opened ((lower k n).p)
    where
      opened :
          (x : Option ℕ)
          → elim x [
            | none ↦ (different, 0)
            | some p ↦ (ksuf_matches mem ksuf a n p k, get_or n.lv p 0)
          ]
            ≡ looked a n k x
      opened none = refl
      opened (some p) = refl

  module _ (ge fe count : ℕ) (s : Store) (Below : ℕ → (List ℕ → Option ℕ) → Type 0)
      (content : List ℕ → Option ℕ) (a lo hi : ℕ) (k : Key)
      (leaf : IsContent mem ksuf ge fe count s Below content a lo hi)
      (known : slice (load mem k.s k.len) ≡ k.ikey0) (low : lo ≤ k.ikey0)
      (high : k.ikey0 < hi) where
    abbrev text : List ℕ
    text = load mem k.s k.len

    -- A round ends with what the map has for the key, or leads to a layer that has it for the rest.
    abbrev pub IsRound : Match × ℕ → Type 0
    IsRound r =
        (conclude mem ksuf k (r.0) (r.1) ≡ done (content text))
        ⊎ ((rest : List ℕ → Option ℕ) × Below (r.1) rest
            × (conclude mem ksuf k (r.0) (r.1) ≡ retry (shift_by mem 8 k) (r.1))
            × (content text ≡ rest (drop 8 text))
            × (8 < k.len))

    abbrev ikey_at : ℕ → ℕ
    ikey_at p = get_or ((s.leaf a).ikey0) p 0

    abbrev keylenx_at : ℕ → ℕ
    keylenx_at p = get_or ((s.leaf a).keylenx) p 0

    slot-Fits :
        (p : ℕ) → rank (compare_key k (s.leaf a) p) ≡ 1 → Fits (ikey_at p) (keylenx_at p) text
    unfolding compare_key
    slot-Fits p r =
        let c = compare_ikey-null k (ikey_at p) (keylenx_at p) r in
        let size = length-load mem k.s k.len in
        (
          known ∙ c.0,
          elim (c.1) [
            | inl (x, y) ↦ inl (omega (arith, size, x), y)
            | inr (x, y) ↦ inr (omega (arith, size, x), size ∙ y)
          ],
        )

    Fits-compare_key :
        (p : ℕ) → Fits (ikey_at p) (keylenx_at p) text → rank (compare_key k (s.leaf a) p) ≡ 1
    unfolding compare_key
    Fits-compare_key p f =
        let size = length-load mem k.s k.len in
        null-compare_ikey k (ikey_at p) (keylenx_at p) (sym known ∙ f.0) (elim (f.1) [
          | inl (x, y) ↦ inl (omega (arith, size, x), y)
          | inr (x, y) ↦ inr (omega (arith, size, x), sym size ∙ y)
        ])

    at_slot :
        (p : ℕ)
        → Fits (ikey_at p) (keylenx_at p) text
        → IsSlot Below content
            (ikey_at p)
            (keylenx_at p)
            (get_or ((s.leaf a).lv) p 0)
            (load mem ((ksuf a p).s) ((ksuf a p).len))
        → IsRound (ksuf_matches mem ksuf a (s.leaf a) p k, get_or ((s.leaf a).lv) p 0)
    unfolding conclude
    at_slot p f (short le is) =
        inl (rw (matches_short a (s.leaf a) p k le) (ap done (sym (is text f))))
    at_slot p f (ends e is other) = elim (matches_suffix a (s.leaf a) p k e) [
      | inl (m, q) ↦ inl (rw m (ap done (sym (is text f q))))
      | inr (m, q) ↦ inl (rw m (ap done (sym (other text f q))))
    ]
    at_slot p f (longer e rest below is) =
        let long : 8 < k.len = elim (f.1) [
          | inl (x, y) ↦ omega (arith, x, length-load mem k.s k.len)
          | inr (x, y) ↦ absurd (omega (arith, x, y, e))
        ] in
        inr (rest, below, rw (matches_layer a (s.leaf a) p k e) refl, is text f, long)

    pub look-IsRound : IsRound (look mem ksuf a (s.leaf a) k)
    unfolding looked conclude
    look-IsRound =
        let opened : (x : Option ℕ)
            → (lower k (s.leaf a)).p ≡ x
            → IsRound (looked a (s.leaf a) k x)
            → IsRound (look mem ksuf a (s.leaf a) k) =
          λ x q r.
            subst IsRound (sym (look-looked a (s.leaf a) k ∙ ap (looked a (s.leaf a) k) q)) r in
        elim (lower_cases k (s.leaf a) leaf.increasing) [
          | inl (i, p, h, e, r, q) ↦
              opened (some p) q (at_slot p (slot-Fits p r) (leaf.slots i p h e))
          | inr (never, q) ↦
              let nothing : content text ≡ none =
                leaf.absent text (omega (arith, known, low)) (omega (arith, known, high))
                  (λ i p h e f. never i p h e (Fits-compare_key p f)) in
              opened none q (inl (ap done (sym nothing)))
        ]
