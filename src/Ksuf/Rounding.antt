-- ===== src/Ksuf/Rounding.antt =====
-- The next power of two is not less.
use native.Mathlib.Nat.{pow-suc, one-le-pow}
use incll.Base.{
  ℕ, zero, suc, ◌-◌, ◌*◌, ◌/◌, ◌%◌, ◌^◌, ◌≤◌, ◌<◌, ◌≡◌, refl, sym, ap, ◌∙◌, arith, inl, inr, false,
  ◌==◌, ==_iff, Bool-cases, bit_and,
}
use incll.Bits.Step.{bit_and_step}
use incll.Ksuf.{bit_length, iceil_log2}

bit_length-lt : (n x : ℕ) → x < 2 ^ n → x < 2 ^ bit_length n x
unfolding bit_length
bit_length-lt zero x h = h
bit_length-lt (suc n) x h = elim (Bool-cases (x == 0)) [
  | inl e ↦ rw e (omega (arith, (==_iff x 0).0 e))
  | inr e ↦
      let half = bit_length-lt n (x / 2) (omega (arith, pow-suc 2 n, h)) in
      rw e (omega (arith, pow-suc 2 (bit_length n (x / 2)), half))
]

bit_and_self : (n y : ℕ) → y < 2 ^ n → bit_and y y ≡ y
bit_and_self zero y h = let none : y ≡ 0 = omega (arith, h) in rw none refl
bit_and_self (suc n) y h =
    omega (arith, bit_and_step y y, bit_and_self n (y / 2) (omega (arith, pow-suc 2 n, h)))

double-pow : (b : ℕ) → 0 < b → 2 ^ b ≡ 2 * 2 ^ (b - 1)
double-pow zero h = absurd (omega (arith, h))
double-pow (suc b) h = let e : suc b - 1 ≡ b = omega arith in rw e (omega (arith, pow-suc 2 b))

-- A word that shares no bit with its predecessor is a power of two.
power_lem : (n x : ℕ) → x < 2 ^ n → 0 < x → bit_and x (x - 1) ≡ 0 → x ≤ 2 ^ (bit_length n x - 1)
unfolding bit_length
power_lem zero x h pos z = omega (arith, h)
power_lem (suc n) x h pos z =
    let nonzero : (x == 0) ≡ false = ground (arith, pos) in
    let y : ℕ = x / 2 in
    let b : ℕ = bit_length n y in
    let same : suc b - 1 ≡ b = omega arith in
    let small : y < 2 ^ n = omega (arith, pow-suc 2 n, h) in
    rw (nonzero, same)
      (elim (Bool-cases (x % 2 == 0)) [
        | inl e ↦
            let even : x % 2 ≡ 0 = (==_iff _ _).0 e in
            let before : (x - 1) / 2 ≡ y - 1 = omega (arith, even, pos) in
            let rest : bit_and y (y - 1) ≡ 0 =
              ap (bit_and y) (sym before) ∙ omega (arith, bit_and_step x (x - 1), z) in
            let some : 0 < y = omega (arith, even, pos) in
            let long : 0 < b = positive n y small some in
            omega (arith, even, power_lem n y small some rest, double-pow b long)
        | inr e ↦
            let odd : x % 2 ≡ 1 = ground (arith, e) in
            let before : (x - 1) / 2 ≡ y = omega (arith, odd) in
            let rest : bit_and y y ≡ 0 =
              ap (bit_and y) (sym before) ∙ omega (arith, bit_and_step x (x - 1), z) in
            omega (arith, odd, rest, bit_and_self n y small, one-le-pow b 2)
      ])
  where
    positive : (m w : ℕ) → w < 2 ^ m → 0 < w → 0 < bit_length m w
    positive zero w h pos = absurd (omega (arith, h, pos))
    positive (suc m) w h pos =
        let nonzero : (w == 0) ≡ false = ground (arith, pos) in rw nonzero (omega arith)

pub iceil_log2-le : (x : ℕ) → 0 < x → x < 2 ^ 64 → x ≤ iceil_log2 x
unfolding iceil_log2
iceil_log2-le x pos h = elim (Bool-cases (bit_and x (x - 1) == 0)) [
  | inl e ↦ rw e (power_lem 64 x h pos ((==_iff _ _).0 e))
  | inr e ↦
      let same : bit_length 64 x - 0 ≡ bit_length 64 x = omega arith in
      rw (e, same) (omega (arith, bit_length-lt 64 x h))
]
