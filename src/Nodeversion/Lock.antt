-- ===== src/Nodeversion/Lock.antt =====
-- Rounds of the lock in the version word.
use mathlib.Core.Option.{some-injective}
use incll.Base.{
  ℕ, bit_or, ◌≡◌, refl, sym, ap, ◌∙◌, arith, true, false, ◌==◌, ==_iff, Bool-cases, none, some, inl,
  inr,
}
use incll.Bits.Flags.{or_bit}
use incll.Nodeversion.{has, locked, lock_bit, lock_round}
use incll.Nodeversion.Fields.{has_bit}

locked-bit_or : (v : ℕ) → locked (bit_or v lock_bit) ≡ true
unfolding locked
locked-bit_or v = ground (arith, has_bit 0 (bit_or v lock_bit), or_bit 0 v)

-- No compare-and-exchange succeeds on a locked word.
lock_round-locked : (x e : ℕ) → locked x ≡ true → lock_round x e ≡ (x, none)
unfolding lock_round locked
lock_round-locked x e h = elim (Bool-cases (has e lock_bit)) [
  | inl t ↦ rw t refl
  | inr f ↦ elim (Bool-cases (x == e)) [
    | inl s ↦ absurd (ground (arith, sym h ∙ ap (λ v. has v lock_bit) ((==_iff x e).0 s) ∙ f))
    | inr n ↦ rw (f, n) refl
  ]
]

unlocked : (w : ℕ) → has w lock_bit ≡ false → locked w ≡ false
unfolding locked
unlocked w h = h

-- A round that takes the lock has found the word unlocked and as expected, and stores the locked
-- version that it returns; while this stands in the word, no other thread's round takes the lock or
-- changes the word, whatever it expects.
pub lock_round_lem :
    (v e x other : ℕ)
    → (lock_round v e).1 ≡ some x
    → (v ≡ e)
      × (locked v ≡ false)
      × ((lock_round v e).0 ≡ x)
      × (locked x ≡ true)
      × (lock_round x other ≡ (x, none))
unfolding lock_round
lock_round_lem v e x other p = elim (Bool-cases (has e lock_bit)) [
  | inl t ↦
      let q : lock_round v e ≡ (v, none) = rw t refl in
      absurd (ground (arith, sym (ap (λ r. r.1) q) ∙ p))
  | inr f ↦ elim (Bool-cases (v == e)) [
    | inr n ↦
        let q : lock_round v e ≡ (v, none) = rw (f, n) refl in
        absurd (ground (arith, sym (ap (λ r. r.1) q) ∙ p))
    | inl s ↦
        let q : lock_round v e ≡ (bit_or e lock_bit, some (bit_or e lock_bit)) = rw (f, s) refl in
        let y : bit_or e lock_bit ≡ x = some-injective _ _ (sym (ap (λ r. r.1) q) ∙ p) in
        let free : locked v ≡ false = ap locked ((==_iff v e).0 s) ∙ unlocked e f in
        let held : locked x ≡ true = ap locked (sym y) ∙ locked-bit_or e in
        ((==_iff v e).0 s, free, ap (λ r. r.0) q ∙ y, held, lock_round-locked x other held)
  ]
]
