-- ===== src/Slice/Equal.antt =====
-- The comparison of two strings for equality.
use native.Mathlib.Nat.{mul-le-mul_right, one-le-pow, zero-mul}
use incll.Base.{
  ℕ, zero, suc, ◌+◌, ◌-◌, ◌*◌, ◌%◌, ◌^◌, ◌≤◌, ◌<◌, ◌≡◌, inl, inr, refl, sym, ap, ap₂, ◌∙◌, arith,
  true, leb, ◌==◌, ==_iff, Bool-cases, List, [], ◌∷◌, ◌++◌, length, bit_xor, u64, shl64, le_of-leb,
  and-left, and-right, get_or, drop, ◌↔◌,
}
use incll.Bits.Split.{bit_xor_split, bit_xor-lt}
use incll.Bits.Xor.{eq_of-bit_xor}
use incll.Bits.Zero.{bit_xor_self}
use incll.Slice.{load, little_endian, bytes, memcmp_equal, equals_sloppy}
use incll.Slice.Sloppy.{pow-byte}
use incll.Slice.Words.{
  IsBytes, load-IsBytes, length-load, suc-leb, bytes-little_endian, load-append,
}

little_endian-append :
    (xs ys : List ℕ)
    → little_endian (xs ++ ys) ≡ little_endian xs + little_endian ys * 2 ^ (8 * length xs)
unfolding little_endian
little_endian-append [] ys = omega arith
little_endian-append (c ∷ cs) ys =
    let more : little_endian ys * 2 ^ (8 * suc (length cs))
        ≡ 256 * (little_endian ys * 2 ^ (8 * length cs)) =
      ap (λ p. little_endian ys * p) (pow-byte (length cs)) ∙ omega arith in
    omega (arith, little_endian-append cs ys, more)

-- The word at an address, in the part that belongs to a string and the rest
little_endian-load :
    (mem : ℕ → ℕ) (a n : ℕ)
    → n ≤ 8
    → little_endian (load mem a 8)
      ≡ little_endian (load mem (a + n) (8 - n)) * 2 ^ (8 * n) + little_endian (load mem a n)
little_endian-load mem a n h =
    let whole : 8 ≡ n + (8 - n) = omega (arith, h) in
    ap (λ k. little_endian (load mem a k)) whole
    ∙ ap little_endian (sym (load-append mem a n (8 - n)))
    ∙ little_endian-append (load mem a n) (load mem (a + n) (8 - n))
    ∙ ap
        (λ k. little_endian (load mem a n) + little_endian (load mem (a + n) (8 - n)) * 2 ^ (8 * k))
        (length-load mem a n)
    ∙ omega arith

little_endian-lt : (xs : List ℕ) → IsBytes xs → little_endian xs < 2 ^ (8 * length xs)
unfolding little_endian
little_endian-lt [] h = omega arith
little_endian-lt (c ∷ cs) h = omega (arith, h.0, little_endian-lt cs h.1, pow-byte (length cs))

power : (n m : ℕ) → n + m ≡ 8 → 2 ^ (8 * n) * 2 ^ (8 * m) ≡ 2 ^ 64
power zero m e = let all : m ≡ 8 = omega (arith, e) in ap (λ (k : ℕ). 1 * 2 ^ (8 * k)) all
power (suc n) m e =
    let moved : 2 ^ (8 * suc n) * 2 ^ (8 * m) ≡ 2 ^ (8 * n) * 2 ^ (8 * suc m) =
      ap₂ (λ (x : ℕ) (y : ℕ). x * y) (pow-byte n) refl
      ∙ omega arith
      ∙ ap (λ (y : ℕ). 2 ^ (8 * n) * y) (sym (pow-byte m)) in
    moved ∙ power n (suc m) (omega (arith, e))

-- The shift leaves the low bits only, which are zero exactly if they were.
shl64-zero : (x y p q : ℕ) → p * q ≡ 2 ^ 64 → 0 < q → y < p → (x * p + y) * q % 2 ^ 64 ≡ y * q
shl64-zero x y p q e pos h =
    let split : (x * p + y) * q ≡ y * q + x * 2 ^ 64 = omega (arith, ap (λ (t : ℕ). x * t) e) in
    let small : y * q < 2 ^ 64 =
      (let below : y + 1 ≤ p = omega (arith, h) in
        omega (arith, e, pos, mul-le-mul_right q below)) in
    ap (λ t. t % 2 ^ 64) split ∙ omega (arith, small)

-- Strings of the same bytes, and only these, have equal words.
load_ext :
    (mem : ℕ → ℕ) (a b n : ℕ)
    → ((x : ℕ) → mem x < 256)
    → little_endian (load mem a n) ≡ little_endian (load mem b n)
    → load mem a n ≡ load mem b n
load_ext mem a b n valid e =
    sym (bytes-little_endian (load mem a n) n (load-IsBytes mem valid a n) (length-load mem a n))
    ∙ ap (bytes n) e
    ∙ bytes-little_endian (load mem b n) n (load-IsBytes mem valid b n) (length-load mem b n)

memcmp_equal-load :
    (mem : ℕ → ℕ) (a b n : ℕ) → (memcmp_equal mem a b n ≡ true) ↔ (load mem a n ≡ load mem b n)
unfolding memcmp_equal load
memcmp_equal-load mem a b zero = (λ e. refl, λ e. refl)
memcmp_equal-load mem a b (suc n) =
    let rest = memcmp_equal-load mem (a + 1) (b + 1) n in
    (
      λ e.
          ap₂ (λ x xs. x ∷ xs) ((==_iff (mem a) (mem b)).0 (and-left _ _ e))
            (rest.0 (and-right (mem a == mem b) _ e)),
      λ e.
          let first : (mem a == mem b) ≡ true = (==_iff _ _).1 (ap (λ xs. get_or xs 0 0) e) in
          rw first (rest.1 (ap (drop 1) e)),
    )

-- The part of the words that the comparison of a short string keeps
delta_low :
    (mem : ℕ → ℕ) (a b n : ℕ)
    → ((x : ℕ) → mem x < 256)
    → n ≤ 8
    → shl64 (bit_xor (little_endian (load mem a 8)) (little_endian (load mem b 8))) (8 * (8 - n))
      ≡ bit_xor (little_endian (load mem a n)) (little_endian (load mem b n)) * 2 ^ (8 * (8 - n))
delta_low mem a b n valid h =
    let low : (x : ℕ) → little_endian (load mem x n) < 2 ^ (8 * n) = λ x. omega (
      arith,
      little_endian-lt (load mem x n) (load-IsBytes mem valid x n),
      ap (λ (k : ℕ). 2 ^ (8 * k)) (length-load mem x n),
    ) in
    ap (λ d. u64 (d * 2 ^ (8 * (8 - n))))
      (ap₂ bit_xor (little_endian-load mem a n h) (little_endian-load mem b n h)
        ∙ bit_xor_split (8 * n) _ _ _ _ (low a) (low b))
    ∙ shl64-zero _ _ (2 ^ (8 * n)) (2 ^ (8 * (8 - n))) (power n (8 - n) (omega (arith, h)))
        (one-le-pow (8 * (8 - n)) 2 (omega arith)) (bit_xor-lt (8 * n) _ _ (low a) (low b))

product_zero : (y q : ℕ) → 0 < q → y * q ≡ 0 → y ≡ 0
product_zero zero q h e = refl
product_zero (suc y) q h e = absurd (omega (arith, h, e))

-- With bytes in memory, `equals_sloppy` is the equality of the two strings, whatever stands behind
-- them.
pub equals_sloppy-load :
    (mem : ℕ → ℕ) (a b len : ℕ)
    → ((x : ℕ) → mem x < 256)
    → (equals_sloppy mem a b len ≡ true) ↔ (load mem a len ≡ load mem b len)
unfolding equals_sloppy load
equals_sloppy-load mem a b zero valid = (λ e. refl, λ e. refl)
equals_sloppy-load mem a b (suc len) valid = elim (Bool-cases (leb (suc len) 8)) [
  | inr e ↦ rw e (memcmp_equal-load mem a b (suc len))
  | inl e ↦
      let le : suc len ≤ 8 = le_of-leb _ _ e in
      let d = delta_low mem a b (suc len) valid le in
      let q : ℕ = 2 ^ (8 * (8 - suc len)) in
      let some : 0 < q = one-le-pow (8 * (8 - suc len)) 2 (omega arith) in
      rw (e, suc-leb len)
        (
          λ z.
              load_ext mem a b (suc len) valid
                (eq_of-bit_xor _ _ (product_zero _ q some (sym d ∙ (==_iff _ 0).0 z))),
          λ z. (==_iff _ 0).1 (
              d
              ∙ ap (λ xs. bit_xor (little_endian xs) (little_endian (load mem b (suc len))) * q) z
              ∙ ap (λ t. t * q) (bit_xor_self _)
              ∙ zero-mul q),
        )
]
