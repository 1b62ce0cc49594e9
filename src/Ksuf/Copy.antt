-- ===== src/Ksuf/Copy.antt =====
-- The loop that moves the suffixes to the new bag.
use native.Mathlib.Nat.{mod-le}
use mathlib.Core.Path.{subst}
use incll.Base.{
  ℕ, ◌+◌, ◌^◌, max, ◌≤◌, ◌<◌, ◌≡◌, inl, inr, refl, sym, ap, ◌∙◌, arith, leb, Bool, true, false, not,
  ◌&&◌, ◌||◌, ◌==◌, Bool-cases, if◌then◌else◌, some, List, [], ◌∷◌, length, All,
}
use incll.Stringbag.{Bag, assign, get, put_at, capacity}
use incll.Stringbag.Assign.{IsBag, assign-IsBag, same_or_not}
use incll.Ksuf.{Suffixes, ksuf, sum_lengths, copy_ksufs}

-- An assignment takes no more than the string's length.
pub assign-size :
    (bits : ℕ) (b : Bag) (p : ℕ) (s : List ℕ)
    → ((assign bits b p s).0.size ≤ b.size + length s) × ((assign bits b p s).0.last ≡ b.last)
unfolding assign put_at
assign-size bits b p s = elim (Bool-cases (leb (length s) (b.info p).len)) [
  | inl e ↦ rw e (omega arith, refl)
  | inr e ↦ elim (Bool-cases (leb (b.size + max (length s) 8) (capacity bits b))) [
    | inl f ↦ rw (e, f) (mod-le (b.size + length s) (2 ^ bits), refl)
    | inr f ↦ rw (e, f) (omega arith, refl)
  ]
]

or_true : (a c : Bool) → c ≡ true → (a || c) ≡ true
or_true true c e = refl
or_true false c e = e

-- An assignment succeeds where there is room.
pub assign-room :
    (b : Bag) (p : ℕ) (s : List ℕ)
    → IsBag 16 b
    → 0 < length s
    → b.size + length s + 7 ≤ b.last + 1
    → (assign 16 b p s).1 ≡ true
assign-room b p s valid pos room =
    let enough : leb (b.size + max (length s) 8) (b.last + 1) ≡ true = ground (arith, pos, room) in
    (assign-IsBag 16 b p s valid).success ∙ or_true _ _ enough

module _ (has_ksuf : ℕ → Bool) (p : ℕ) where
  -- A slot whose suffix is copied
  abbrev pub included : ℕ → Bool
  included q = not (q == p) && has_ksuf q

  abbrev pub chosen : List ℕ → List ℕ
  chosen [] = []
  chosen (q ∷ slots) = let rest : List ℕ = chosen slots in if included q then q ∷ rest else rest

  module _ (f : Suffixes) where
    -- The new bag holds the suffixes that the slots had, and those that it held before.
    pub record Copied (slots : List ℕ) (n m : Bag) : Type 0 where
      pub bag : IsBag 16 m
      pub size : m.size ≤ n.size + sum_lengths has_ksuf p f slots
      pub last : m.last ≡ n.last
      pub kept : (q : ℕ) → get 16 n q ≡ ksuf f q → get 16 m q ≡ ksuf f q
      pub copied : All (λ q. get 16 m q ≡ ksuf f q) (chosen slots)

    taken :
        (q : ℕ) (slots : List ℕ) (n : Bag)
        → included q ≡ true
        → (assign 16 n q (ksuf f q)).1 ≡ true
        → copy_ksufs has_ksuf p f (q ∷ slots) n
          ≡ copy_ksufs has_ksuf p f slots (assign 16 n q (ksuf f q)).0
    unfolding copy_ksufs
    taken q slots n e ok = rw (e, ok) refl

    passed :
        (q : ℕ) (slots : List ℕ) (n : Bag)
        → included q ≡ false
        → copy_ksufs has_ksuf p f (q ∷ slots) n ≡ copy_ksufs has_ksuf p f slots n
    unfolding copy_ksufs
    passed q slots n e = rw e refl

    pub copy_ksufs-Copied :
        (slots : List ℕ) (n : Bag)
        → IsBag 16 n
        → All (λ q. 0 < length (ksuf f q)) (chosen slots)
        → n.size + sum_lengths has_ksuf p f slots + 7 ≤ n.last + 1
        → (m : Bag) × (copy_ksufs has_ksuf p f slots n ≡ some m) × Copied slots n m
    unfolding copy_ksufs sum_lengths
    copy_ksufs-Copied [] n valid h room = (
      n,
      refl,
      record { bag = valid; size = omega arith; last = refl; kept = λ q e. e; copied = tt },
    )
    copy_ksufs-Copied (q ∷ slots) n valid h room = elim (Bool-cases (included q)) [
      | inl e ↦
          let s : List ℕ = ksuf f q in
          let r : Bag × Bool = assign 16 n q s in
          let a = assign-IsBag 16 n q s valid in
          let grown = assign-size 16 n q s in
          let total : sum_lengths has_ksuf p f (q ∷ slots)
              ≡ length s + sum_lengths has_ksuf p f slots =
            rw e refl in
          let picked : chosen (q ∷ slots) ≡ q ∷ chosen slots = rw e refl in
          let some_length : All (λ q. 0 < length (ksuf f q)) (q ∷ chosen slots) =
            subst (All (λ q. 0 < length (ksuf f q))) picked h in
          let ok : r.1 ≡ true =
            assign-room n q s valid some_length.0 (omega (arith, room, total)) in
          let own : get 16 r.0 q ≡ s = a.own ∙ ap (λ b. if b then s else get 16 n q) ok in
          let rest =
            copy_ksufs-Copied slots r.0 a.bag some_length.1
              (omega (arith, room, total, grown.0, grown.1)) in
          let c = rest.2 in
          (
            rest.0,
            taken q slots n e ok ∙ rest.1,
            record {
              bag = c.bag;
              size = omega (arith, c.size, total, grown.0);
              last = c.last ∙ grown.1;
              kept = λ x g. c.kept x (elim (same_or_not q x) [
                | inl same ↦ subst (λ z. get 16 r.0 z ≡ ksuf f z) same own
                | inr ne ↦ a.others x ne ∙ g
              ]);
              copied =
                  subst (All (λ x. get 16 rest.0 x ≡ ksuf f x)) (sym picked)
                    (c.kept q own, c.copied);
            },
          )
      | inr e ↦
          let total : sum_lengths has_ksuf p f (q ∷ slots) ≡ sum_lengths has_ksuf p f slots =
            rw e (omega arith) in
          let picked : chosen (q ∷ slots) ≡ chosen slots = rw e refl in
          let rest =
            copy_ksufs-Copied slots n valid (subst (All (λ q. 0 < length (ksuf f q))) picked h)
              (omega (arith, room, total)) in
          let c = rest.2 in
          (
            rest.0,
            passed q slots n e ∙ rest.1,
            record {
              bag = c.bag;
              size = omega (arith, c.size, total);
              last = c.last;
              kept = c.kept;
              copied = subst (All (λ x. get 16 rest.0 x ≡ ksuf f x)) (sym picked) c.copied;
            },
          )
    ]
