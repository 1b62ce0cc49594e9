-- ===== src/Bits/Xor.antt =====
-- What the size of an exclusive or says of the words.
use mathlib.Core.WellFounded
use native.Mathlib.Nat.{one-le-pow, mod-lt, div-add-mod'}
use Prim.Native.Nat.{differ}
use incll.Base.{
  ℕ, zero, suc, ◌+◌, ◌*◌, ◌/◌, ◌%◌, ◌^◌, ◌<◌, ◌≤◌, bit_xor, ◌≡◌, ◌≢◌, refl, sym, ap, ap₂, arith,
  ◌∙◌,
}
use incll.Base.Order.{lt_wf}
use incll.Bits.Step.{bit_xor_step}
use incll.Bits.Split.{bit_xor_split, bit_xor-lt}
use incll.Bits.Zero.{zero-bit_xor, bit_xor_self}

differ_eq : (a b : ℕ) → a < 2 → b < 2 → differ a b ≡ 0 → a ≡ b
differ_eq zero b ha hb e = sym e
differ_eq (suc zero) zero ha hb e = e
differ_eq (suc zero) (suc zero) ha hb e = refl
differ_eq (suc zero) (suc (suc b)) ha hb e = absurd (omega arith)
differ_eq (suc (suc a)) b ha hb e = absurd (omega arith)

pub eq_of-bit_xor : (a b : ℕ) → bit_xor a b ≡ 0 → a ≡ b
eq_of-bit_xor a = WellFounded.induction lt_wf {C = λ n. (b : ℕ) → bit_xor n b ≡ 0 → n ≡ b} a go
  where
    go :
        (n : ℕ)
        → ((m : ℕ) → m < n → (b : ℕ) → bit_xor m b ≡ 0 → m ≡ b)
        → (b : ℕ) → bit_xor n b ≡ 0
        → n ≡ b
    go zero ih b e = sym e ∙ zero-bit_xor b
    go (suc n) ih b e = omega (
      arith,
      bit_xor_step (suc n) b,
      ih (suc n / 2) (omega arith) (b / 2) (omega (arith, bit_xor_step (suc n) b)),
      differ_eq (suc n % 2) (b % 2) (omega arith) (omega arith)
          (omega (arith, bit_xor_step (suc n) b)),
    )

module _ (k a b : ℕ) where
  pos : 0 < 2 ^ k
  pos = one-le-pow k 2 (omega arith)

  fields : bit_xor a b ≡ bit_xor (a / 2 ^ k) (b / 2 ^ k) * 2 ^ k + bit_xor (a % 2 ^ k) (b % 2 ^ k)
  fields =
      ap₂ bit_xor (sym (div-add-mod' a (2 ^ k))) (sym (div-add-mod' b (2 ^ k)))
      ∙ bit_xor_split k (a / 2 ^ k) (a % 2 ^ k) (b / 2 ^ k) (b % 2 ^ k) (mod-lt a pos)
          (mod-lt b pos)

  -- Words that differ from bit `k` on.
  pub le-bit_xor : a / 2 ^ k ≢ b / 2 ^ k → 2 ^ k ≤ bit_xor a b
  le-bit_xor h = go (bit_xor (a / 2 ^ k) (b / 2 ^ k)) refl
    where
      go : (x : ℕ) → bit_xor (a / 2 ^ k) (b / 2 ^ k) ≡ x → 2 ^ k ≤ bit_xor a b
      go zero e = absurd (h (eq_of-bit_xor _ _ e))
      go (suc x) e = ground (arith, fields, ap (λ (t : ℕ). t * 2 ^ k) e)

  -- Words that agree from bit `k` on.
  pub bit_xor-lt_of_eq : a / 2 ^ k ≡ b / 2 ^ k → bit_xor a b < 2 ^ k
  bit_xor-lt_of_eq e = ground (
    arith,
    fields,
    bit_xor_self (a / 2 ^ k),
    bit_xor-lt k (a % 2 ^ k) (b % 2 ^ k) (mod-lt a pos) (mod-lt b pos),
  )
