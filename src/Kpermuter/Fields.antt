-- ===== src/Kpermuter/Fields.antt =====
-- What the masks and shifts of the permuter keep of a word, field by field.
use native.Mathlib.Nat.{pow-suc, pow-le-pow_right, one-le-pow}
use native.Mathlib.Numerals.{towards_suc}
use incll.Base.{
  ℕ, zero, suc, ◌+◌, ◌-◌, ◌*◌, ◌/◌, ◌^◌, ◌≤◌, ◌<◌, bit_and, ◌≡◌, refl, sym, arith, ltb, ◌==◌, ◌∙◌,
  if◌then◌else◌, Bool, true, false, shr, shl64, not64, u64, sub64, add64,
}
use incll.Bits.Zero.{bit_and-zero, bit_and_mask}
use incll.Bits.Nibble.{
  nibble, nibble-lt, nibble-zero, nibble-bit_and, nibble-low, nibble-shl, nibble-shr, nibble_ones,
  nibble_complement,
}
use incll.Kpermuter.{size, elem, mask16, mask256}

pub pow_fields : (k : ℕ) → 2 ^ (4 * k) ≡ 16 ^ k
pow_fields zero = refl
pow_fields (suc k) =
    let e : 4 * suc k ≡ suc (suc (suc (suc (4 * k)))) = omega arith in
    rw (e, pow-suc 16 k)
      (omega (
        arith,
        pow-suc 2 (suc (suc (suc (4 * k)))),
        pow-suc 2 (suc (suc (4 * k))),
        pow-suc 2 (suc (4 * k)),
        pow-suc 2 (4 * k),
        pow_fields k,
      ))

pow_add_one : (k : ℕ) → 16 ^ (k + 1) ≡ 16 * 16 ^ k
pow_add_one k = simp towards_suc (omega (arith, pow-suc 16 k))

pow_add_two : (k : ℕ) → 16 ^ (k + 2) ≡ 256 * 16 ^ k
pow_add_two k = simp towards_suc (omega (arith, pow-suc 16 k, pow-suc 16 (suc k)))

pub and_15 : (a : ℕ) → a < 16 → bit_and a 15 ≡ a
and_15 a h = omega (arith, bit_and_mask 4 a)

-- The field of index `k` if the mask holds it.
pub and_select :
    (c a : ℕ) (b : Bool) → a < 16 → c ≡ (if b then 15 else 0) → bit_and a c ≡ (if b then a else 0)
and_select c a true h e = rw e (and_15 a h)
and_select c a false h e = rw e (bit_and-zero a)

pub and_drop :
    (c a : ℕ) (b : Bool) → a < 16 → c ≡ (if b then 0 else 15) → bit_and a c ≡ (if b then 0 else a)
and_drop c a true h e = rw e (bit_and-zero a)
and_drop c a false h e = rw e (and_15 a h)

pub nibble-u64 : (k y : ℕ) → k < 16 → nibble (u64 y) k ≡ nibble y k
nibble-u64 k y h = ground (arith, nibble-low 16 k y)

pub nibble-shl64 :
    (k j x : ℕ) → k < 16 → nibble (shl64 x (4 * j)) k ≡ (if ltb k j then 0 else nibble x (k - j))
nibble-shl64 k j x h = rw (nibble-u64 k _ h, pow_fields j) (nibble-shl j k x)

pub nibble-shr_fields : (k j x : ℕ) → nibble (shr x (4 * j)) k ≡ nibble x (j + k)
nibble-shr_fields k j x = rw (pow_fields j) (nibble-shr j k x)

pub nibble_small : (k v : ℕ) → v < 16 → nibble v k ≡ (if k == 0 then v else 0)
unfolding nibble
nibble_small zero v h = ground arith
nibble_small (suc k) v h = ground (arith, nibble-zero k)

pub size-nibble : (x : ℕ) → size x ≡ nibble x 0
unfolding size nibble
size-nibble x = omega (arith, bit_and_mask 4 x)

shr-shr : (x j : ℕ) → shr x (4 * j + 4) ≡ shr x (4 * (j + 1))
shr-shr x j = let e : 4 * (j + 1) ≡ 4 * j + 4 = omega arith in rw e refl

pub elem-nibble : (x i : ℕ) → elem x i ≡ nibble x (i + 1)
unfolding elem
elem-nibble x i =
    rw (shr-shr x i) (size_lem (shr x (4 * (i + 1))) ∙ nibble-shr_fields 0 (i + 1) x ∙ ground arith)
  where
    size_lem : (y : ℕ) → bit_and y 15 ≡ nibble y 0
    size_lem y = unfold nibble in omega (arith, bit_and_mask 4 y)

pow_bound : (i n : ℕ) → i ≤ n → 16 ^ i ≤ 16 ^ n
pow_bound i n h = pow-le-pow_right (omega arith) h

-- `(16 << 4 i) - 1` has `i + 1` fields of ones, also where the shift leaves the word.
pub ones_lem : (a : ℕ) → a ≤ 16 → sub64 (u64 (16 ^ a)) 1 ≡ 16 ^ a - 1
ones_lem a h = omega (arith, pow_bound a 16 h, one-le-pow a 16)

pub mask16-ones : (i : ℕ) → i ≤ 15 → mask16 i ≡ 16 ^ (i + 1) - 1
unfolding mask16
mask16-ones i h =
    let e : 16 * 2 ^ (4 * i) ≡ 16 ^ (i + 1) = rw (pow_fields i) (sym (pow_add_one i)) in
    rw e (ones_lem (i + 1) (omega arith))

pub mask256-ones : (i : ℕ) → i ≤ 14 → mask256 i ≡ 16 ^ (i + 2) - 1
unfolding mask256
mask256-ones i h =
    let e : 256 * 2 ^ (4 * i) ≡ 16 ^ (i + 2) = rw (pow_fields i) (sym (pow_add_two i)) in
    rw e (ones_lem (i + 2) (omega arith))

-- A word and-ed with `m` fields of ones, or with the complement of those.
pub nibble-keep_low :
    (k m x : ℕ) → nibble (bit_and x (16 ^ m - 1)) k ≡ (if ltb k m then nibble x k else 0)
nibble-keep_low k m x =
    rw (nibble-bit_and k x (16 ^ m - 1))
      (and_select _ _ (ltb k m) (nibble-lt k x) (nibble_ones m k))

nibble_not_ones :
    (k m : ℕ) → m ≤ 16 → k < 16 → nibble (not64 (16 ^ m - 1)) k ≡ (if ltb k m then 0 else 15)
nibble_not_ones k m hm hk = ground (
  arith,
  nibble_complement 16 k (16 ^ m - 1),
  pow_bound m 16 hm,
  one-le-pow m 16,
  nibble_ones m k,
)

pub nibble-keep_high :
    (k m x : ℕ)
    → m ≤ 16
    → k < 16
    → nibble (bit_and x (not64 (16 ^ m - 1))) k ≡ (if ltb k m then 0 else nibble x k)
nibble-keep_high k m x hm hk =
    rw (nibble-bit_and k x (not64 (16 ^ m - 1)))
      (and_drop _ _ (ltb k m) (nibble-lt k x) (nibble_not_ones k m hm hk))

pub nibble-mask16 : (k i : ℕ) → i ≤ 15 → nibble (mask16 i) k ≡ (if ltb k (i + 1) then 15 else 0)
nibble-mask16 k i h = rw (mask16-ones i h) (nibble_ones (i + 1) k)

pub nibble-low16 :
    (k i x : ℕ)
    → i ≤ 15
    → nibble (bit_and x (mask16 i)) k ≡ (if ltb k (i + 1) then nibble x k else 0)
nibble-low16 k i x h = rw (mask16-ones i h) (nibble-keep_low k (i + 1) x)

pub nibble-high16 :
    (k i x : ℕ)
    → i ≤ 15
    → k < 16
    → nibble (bit_and x (not64 (mask16 i))) k ≡ (if ltb k (i + 1) then 0 else nibble x k)
nibble-high16 k i x h hk = rw (mask16-ones i h) (nibble-keep_high k (i + 1) x (omega arith) hk)

pub nibble-low256 :
    (k i x : ℕ)
    → i ≤ 14
    → nibble (bit_and x (mask256 i)) k ≡ (if ltb k (i + 2) then nibble x k else 0)
nibble-low256 k i x h = rw (mask256-ones i h) (nibble-keep_low k (i + 2) x)

pub nibble-high256 :
    (k i x : ℕ)
    → i ≤ 14
    → k < 16
    → nibble (bit_and x (not64 (mask256 i))) k ≡ (if ltb k (i + 2) then 0 else nibble x k)
nibble-high256 k i x h hk = rw (mask256-ones i h) (nibble-keep_high k (i + 2) x (omega arith) hk)

-- The size is the lowest field, and adding or taking 1 leaves the others alone.
pub nibble-add_one :
    (k x : ℕ)
    → x < 2 ^ 64
    → nibble x 0 < 15
    → nibble (add64 x 1) k ≡ (if k == 0 then nibble x 0 + 1 else nibble x k)
unfolding nibble
nibble-add_one zero x hx h = ground arith
nibble-add_one (suc k) x hx h = let e : add64 x 1 / 16 ≡ x / 16 = omega arith in rw e (ground arith)

pub nibble-sub_one :
    (k x : ℕ)
    → x < 2 ^ 64
    → 0 < nibble x 0
    → nibble (sub64 x 1) k ≡ (if k == 0 then nibble x 0 - 1 else nibble x k)
unfolding nibble
nibble-sub_one zero x hx h = ground arith
nibble-sub_one (suc k) x hx h = let e : sub64 x 1 / 16 ≡ x / 16 = omega arith in rw e (ground arith)
