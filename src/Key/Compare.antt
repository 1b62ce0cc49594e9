-- ===== src/Key/Compare.antt =====
-- The comparison of keys is the lexicographic order of strings, slice by slice.
use incll.Base.{
  ℕ, zero, suc, ◌+◌, ◌-◌, ◌≤◌, ◌<◌, ◌≡◌, refl, sym, ap, ap₂, ◌∙◌, arith, List, length, drop,
}
use incll.Ksearch.{Sign, negative, null, positive}
use incll.Slice.{compare, big_endian, load, make_comparable}
use incll.Slice.Words.{pad, load-IsBytes, length-load, make_comparable-pad}
use incll.Slice.Order.{
  lex, then_by, by_length, by_slice, by_length_ext, by_slice-lex_upto, lex-drop,
}
use incll.Key.{Key, compare_ikey, suffix}

pub drop-load : (mem : ℕ → ℕ) (n s len : ℕ) → drop n (load mem s len) ≡ load mem (s + n) (len - n)
unfolding load
drop-load mem zero s len =
    let here : s ≡ s + 0 = omega arith in
    let whole : len ≡ len - 0 = omega arith in ap₂ (load mem) here whole
drop-load mem (suc n) s zero =
    let nothing : 0 ≡ 0 - suc n = omega arith in ap (load mem (s + suc n)) nothing
drop-load mem (suc n) s (suc len) =
    let there : s + 1 + n ≡ s + suc n = omega arith in
    let rest : len - n ≡ suc len - suc n = omega arith in
    drop-load mem n (s + 1) len ∙ ap₂ (load mem) there rest

-- The comparison of a key with a slice and a length is `by_slice` of the two strings.
compare_ikey-by_slice :
    (k : Key) (keylenx : ℕ) (xs ys : List ℕ)
    → k.ikey0 ≡ big_endian (pad 8 xs)
    → k.len ≡ length xs
    → (length ys ≤ 8 → keylenx ≡ length ys)
    → (8 < length ys → 8 < keylenx)
    → compare_ikey k (big_endian (pad 8 ys)) keylenx ≡ by_slice 8 xs ys
unfolding compare_ikey
compare_ikey-by_slice k keylenx xs ys slice size exact more =
    opened (compare k.ikey0 (big_endian (pad 8 ys)))
    ∙ ap₂ then_by (ap (λ x. compare x (big_endian (pad 8 ys))) slice) (
        ap (λ n. by_length 8 n keylenx) size
        ∙ by_length_ext 8 (length xs) (length ys) keylenx exact more)
  where
    opened :
        (s : Sign)
        → elim s [ negative ↦ negative | null ↦ by_length 8 k.len keylenx | positive ↦ positive ]
          ≡ then_by s (by_length 8 k.len keylenx)
    opened negative = refl
    opened null = refl
    opened positive = refl

-- For a key that holds the slice of its string, and the slice and the length of another string, of
-- which a length above 8 may be any number above 8: the lexicographic order of the two strings is
-- the sign of `compare`, and where that is null the order of what follows the first 8 characters.
pub compare_ikey_lem :
    (mem : ℕ → ℕ) (k : Key) (t len keylenx : ℕ)
    → ((a : ℕ) → mem a < 256)
    → k.ikey0 ≡ make_comparable mem k.s k.len
    → (len ≤ 8 → keylenx ≡ len)
    → (8 < len → 8 < keylenx)
    → lex (load mem k.s k.len) (load mem t len)
      ≡ then_by
          (compare_ikey k (make_comparable mem t len) keylenx)
          (lex (suffix mem k) (load mem (t + 8) (len - 8)))
unfolding suffix
compare_ikey_lem mem k t len keylenx valid slice exact more =
    let xs = load mem k.s k.len in
    let ys = load mem t len in
    let size = length-load mem t len in
    lex-drop 8 xs ys
    ∙ ap₂ then_by
        (sym (
          ap (λ x. compare_ikey k x keylenx) (make_comparable-pad mem t len valid)
          ∙ compare_ikey-by_slice k keylenx xs ys (slice ∙ make_comparable-pad mem k.s k.len valid)
              (sym (length-load mem k.s k.len)) (λ h. exact (omega (arith, size, h)) ∙ sym size)
              (λ h. more (omega (arith, size, h)))
          ∙ by_slice-lex_upto 8 xs ys (load-IsBytes mem valid k.s k.len)
              (load-IsBytes mem valid t len)))
        (ap₂ lex (drop-load mem 8 k.s k.len) (drop-load mem 8 t len))
