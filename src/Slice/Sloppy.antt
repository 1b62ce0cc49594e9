-- ===== src/Slice/Sloppy.antt =====
-- The reads beyond a string's bounds do not show in the result.
use native.Mathlib.Nat.{div-div-eq-div-mul, pow-suc}
use incll.Base.{
  ℕ, zero, suc, ◌+◌, ◌-◌, ◌*◌, ◌/◌, ◌^◌, ◌≤◌, ◌<◌, min, ◌≡◌, refl, sym, ap, ap₂, ◌∙◌, arith, leb,
  Bool-cases, inl, inr, lt_of-leb, List, [], ◌∷◌, ◌++◌, replicate,
}
use incll.Slice.{
  little_endian, net_to_host_order, load, make, make_comparable, make_sloppy,
  make_comparable_sloppy,
}
use incll.Slice.Words.{suc-leb}

pow-four : (x : ℕ) → 2 ^ suc (suc (suc (suc x))) ≡ 16 * 2 ^ x
pow-four x =
    omega (
      arith,
      pow-suc 2 x,
      pow-suc 2 (suc x),
      pow-suc 2 (suc (suc x)),
      pow-suc 2 (suc (suc (suc x))),
    )

pub pow-byte : (k : ℕ) → 2 ^ (8 * suc k) ≡ 256 * 2 ^ (8 * k)
pow-byte k =
    let e : 8 * suc k ≡ suc (suc (suc (suc (suc (suc (suc (suc (8 * k)))))))) = omega arith in
    rw e (omega (arith, pow-four (8 * k), pow-four (suc (suc (suc (suc (8 * k)))))))

-- Shifting a word right drops its lowest bytes.
shr-load :
    (mem : ℕ → ℕ)
    → ((a : ℕ) → mem a < 256)
    → (a k n m : ℕ) → m ≡ k + n
    → little_endian (load mem a m) / 2 ^ (8 * k) ≡ little_endian (load mem (a + k) n)
unfolding load little_endian
shr-load mem h a zero n m e =
    let same : m ≡ n = omega (arith, e) in
    let here : a ≡ a + 0 = omega arith in
    omega (arith, ap₂ (λ x y. little_endian (load mem x y)) here same)
shr-load mem h a (suc k) n zero e = absurd (omega (arith, e))
shr-load mem h a (suc k) n (suc m) e =
    let rest : ℕ = little_endian (load mem (a + 1) m) in
    let first : (mem a + 256 * rest) / 256 ≡ rest = omega (arith, h a) in
    let there : a + 1 + k ≡ a + suc k = omega arith in
    ap (λ q. (mem a + 256 * rest) / q) (pow-byte k)
    ∙ sym (div-div-eq-div-mul (mem a + 256 * rest) 256 (2 ^ (8 * k)))
    ∙ ap (λ q. q / 2 ^ (8 * k)) first
    ∙ shr-load mem h (a + 1) k n m (omega (arith, e))
    ∙ ap (λ x. little_endian (load mem x n)) there

-- Zeros above a word's bytes do not count.
little_endian-zeros : (xs : List ℕ) (m : ℕ) → little_endian (xs ++ replicate m 0) ≡ little_endian xs
unfolding little_endian
little_endian-zeros [] zero = refl
little_endian-zeros [] (suc m) = omega (arith, little_endian-zeros [] m)
little_endian-zeros (c ∷ cs) m = ap (λ x. c + 256 * x) (little_endian-zeros cs m)

-- Where the memory in front of a string may be read, the slice read in one access is the slice of
-- the string alone, for every length.
pub make_comparable_sloppy-make_comparable :
    (mem : ℕ → ℕ) (s len : ℕ)
    → ((a : ℕ) → mem a < 256)
    → 7 ≤ s
    → make_comparable_sloppy mem s len ≡ make_comparable mem s len
unfolding make_comparable_sloppy make_comparable make_sloppy make
make_comparable_sloppy-make_comparable mem s zero h front = refl
make_comparable_sloppy-make_comparable mem s (suc len) h front =
    elim (Bool-cases (leb 8 (suc len))) [
      | inl e ↦ rw (suc-leb len, e) refl
      | inr e ↦
          let lt : suc len < 8 = lt_of-leb 8 (suc len) e in
          let short : min (suc len) 8 ≡ suc len = omega (arith, lt) in
          let place : s - (8 - suc len) + (8 - suc len) ≡ s = omega (arith, lt, front) in
          rw (suc-leb len, e, short)
            (ap net_to_host_order (
              shr-load mem h (s - (8 - suc len)) (8 - suc len) (suc len) 8 (omega (arith, lt))
              ∙ ap (λ x. little_endian (load mem x (suc len))) place
              ∙ sym (little_endian-zeros (load mem s (suc len)) (8 - suc len))))
    ]
