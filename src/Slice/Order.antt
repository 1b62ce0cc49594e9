-- ===== src/Slice/Order.antt =====
-- The order of slices is the order of the strings that they are made of.
use native.Mathlib.Nat.{mul-le-mul_right}
use incll.Base.{
  ℕ, zero, suc, ◌+◌, ◌*◌, ◌^◌, ◌≤◌, ◌<◌, ◌≡◌, ◌⊎◌, inl, inr, refl, sym, ap, ◌∙◌, arith, ltb, leb,
  le_or_lt, if◌then◌else◌, List, [], ◌∷◌, length, drop,
}
use incll.Ksearch.{Sign, negative, null, positive}
use incll.Slice.{compare, big_endian}
use incll.Slice.Words.{IsBytes, pad, pad-IsBytes, length-pad, big_endian-lt}

-- The first sign, and the second one where that is null
abbrev pub then_by : Sign → Sign → Sign
then_by negative t = negative
then_by null t = t
then_by positive t = positive

then_by_assoc : (r s t : Sign) → then_by (then_by r s) t ≡ then_by r (then_by s t)
then_by_assoc negative s t = refl
then_by_assoc null s t = refl
then_by_assoc positive s t = refl

-- The lexicographic order of strings
abbrev pub lex : List ℕ → List ℕ → Sign
lex [] [] = null
lex [] (d ∷ ds) = negative
lex (c ∷ cs) [] = positive
lex (c ∷ cs) (d ∷ ds) = then_by (compare c d) (lex cs ds)

-- The same by the first `n` characters and the end of the strings there: two strings that go on are
-- not told apart.
abbrev pub lex_upto : ℕ → List ℕ → List ℕ → Sign
lex_upto n [] [] = null
lex_upto n [] (d ∷ ds) = negative
lex_upto n (c ∷ cs) [] = positive
lex_upto zero (c ∷ cs) (d ∷ ds) = null
lex_upto (suc n) (c ∷ cs) (d ∷ ds) = then_by (compare c d) (lex_upto n cs ds)

pub compare-lt : (a b : ℕ) → a < b → compare a b ≡ negative
unfolding compare
compare-lt a b h = ground (arith, h)

pub compare-gt : (a b : ℕ) → b < a → compare a b ≡ positive
unfolding compare
compare-gt a b h = ground (arith, h)

pub compare_refl : (a : ℕ) → compare a a ≡ null
unfolding compare
compare_refl a = ground arith

pub compare-cases :
    (a b : ℕ)
    → ((a < b) × (compare a b ≡ negative))
      ⊎ ((a ≡ b) × (compare a b ≡ null))
      ⊎ ((b < a) × (compare a b ≡ positive))
unfolding compare
compare-cases a b = ground arith

-- What decides between two strings whose slices of `n` characters agree: their lengths, of which
-- those above `n` are not told apart.
abbrev pub by_length : ℕ → ℕ → ℕ → Sign
by_length n a b = if ltb n a then if leb b n then positive else null else compare a b

abbrev pub by_slice : ℕ → List ℕ → List ℕ → Sign
by_slice n xs ys =
    then_by (compare (big_endian (pad n xs)) (big_endian (pad n ys)))
      (by_length n (length xs) (length ys))

by_length-suc : (n a b : ℕ) → by_length (suc n) (suc a) (suc b) ≡ by_length n a b
unfolding compare
by_length-suc n a b = ground arith

-- The length of the second string counts as it is where it is at most `n`, else only that it is more.
pub by_length_ext :
    (n a b k : ℕ) → (b ≤ n → k ≡ b) → (n < b → n < k) → by_length n a k ≡ by_length n a b
unfolding compare
by_length_ext n a b k h l = elim (le_or_lt n b) [
  | inl lt ↦ ground (arith, l lt)
  | inr le ↦ ap (by_length n a) (h le)
]

by_length-empty : (n b : ℕ) → by_length n 0 (suc b) ≡ negative
unfolding compare
by_length-empty n b = ground arith

by_length-nonempty : (n a : ℕ) → by_length n (suc a) 0 ≡ positive
unfolding compare
by_length-nonempty n a = ground arith

by_length-none : (n : ℕ) → by_length n 0 0 ≡ null
unfolding compare
by_length-none n = ground arith

by_length-zero : (a b : ℕ) → by_length 0 (suc a) (suc b) ≡ null
unfolding compare
by_length-zero a b = ground arith

empty-pad : (n : ℕ) → big_endian (pad n []) ≡ 0
unfolding big_endian
empty-pad zero = refl
empty-pad (suc n) = omega (arith, empty-pad n)

first_less :
    (n c d : ℕ) (xs ys : List ℕ)
    → c < d
    → IsBytes xs
    → length xs ≡ n
    → length ys ≡ n
    → big_endian (c ∷ xs) < big_endian (d ∷ ys)
unfolding big_endian
first_less n c d xs ys h b ex ey =
    let next : c + 1 ≤ d = omega (arith, h) in
    rw (ex, ey) (omega (arith, big_endian-lt xs n b ex, mul-le-mul_right (256 ^ n) next))

compare_shift : (k a b : ℕ) → compare (k + a) (k + b) ≡ compare a b
unfolding compare
compare_shift k a b = ground arith

first_equal :
    (n c : ℕ) (xs ys : List ℕ)
    → length xs ≡ n
    → length ys ≡ n
    → compare (big_endian (c ∷ xs)) (big_endian (c ∷ ys)) ≡ compare (big_endian xs) (big_endian ys)
unfolding big_endian
first_equal n c xs ys ex ey =
    rw (ex, ey) (compare_shift (c * 256 ^ n) (big_endian xs) (big_endian ys))

-- The comparison of the slices, and of the lengths where these agree, is the order of the strings
-- as far as one slice can tell.
pub by_slice-lex_upto :
    (n : ℕ) (xs ys : List ℕ) → IsBytes xs → IsBytes ys → by_slice n xs ys ≡ lex_upto n xs ys
by_slice-lex_upto n [] [] hx hy =
    rw (by_slice, compare_refl (big_endian (pad n []))) (by_length-none n)
by_slice-lex_upto n [] (d ∷ ds) hx hy = elim (compare-cases 0 (big_endian (pad n (d ∷ ds)))) [
  | inl h ↦ rw (by_slice, empty-pad n, h.1) refl
  | inr (inl h) ↦ rw (by_slice, empty-pad n, h.1) (by_length-empty n (length ds))
  | inr (inr h) ↦ absurd (omega (arith, h.0))
]
by_slice-lex_upto n (c ∷ cs) [] hx hy = elim (compare-cases (big_endian (pad n (c ∷ cs))) 0) [
  | inl h ↦ absurd (omega (arith, h.0))
  | inr (inl h) ↦ rw (by_slice, empty-pad n, h.1) (by_length-nonempty n (length cs))
  | inr (inr h) ↦ rw (by_slice, empty-pad n, h.1) refl
]
by_slice-lex_upto zero (c ∷ cs) (d ∷ ds) hx hy =
    rw (by_slice, compare_refl (big_endian [])) (by_length-zero (length cs) (length ds))
by_slice-lex_upto (suc n) (c ∷ cs) (d ∷ ds) hx hy =
    let ex = length-pad n cs in
    let ey = length-pad n ds in
    let bx = pad-IsBytes n cs hx.1 in
    let by = pad-IsBytes n ds hy.1 in
    elim (compare-cases c d) [
      | inl h ↦
          rw
            (
              by_slice,
              lex_upto,
              h.1,
              compare-lt _ _ (first_less n c d (pad n cs) (pad n ds) h.0 bx ex ey),
            )
            refl
      | inr (inl h) ↦
          rw (by_slice, lex_upto, h.1, sym h.0, first_equal n c (pad n cs) (pad n ds) ex ey)
            (ap (then_by (compare (big_endian (pad n cs)) (big_endian (pad n ds))))
                (by_length-suc n (length cs) (length ds))
              ∙ by_slice-lex_upto n cs ds hx.1 hy.1)
      | inr (inr h) ↦
          rw
            (
              by_slice,
              lex_upto,
              h.1,
              compare-gt _ _ (first_less n d c (pad n ds) (pad n cs) h.0 by ey ex),
            )
            refl
    ]

-- Where one string ends within the slice, the slice tells the whole order.
pub lex_upto-short :
    (n : ℕ) (xs ys : List ℕ) → (length xs ≤ n) ⊎ (length ys ≤ n) → lex_upto n xs ys ≡ lex xs ys
lex_upto-short n [] [] h = refl
lex_upto-short n [] (d ∷ ds) h = refl
lex_upto-short n (c ∷ cs) [] h = refl
lex_upto-short zero (c ∷ cs) (d ∷ ds) (inl h) = absurd (omega (arith, h))
lex_upto-short zero (c ∷ cs) (d ∷ ds) (inr h) = absurd (omega (arith, h))
lex_upto-short (suc n) (c ∷ cs) (d ∷ ds) h =
    ap (then_by (compare c d)) (lex_upto-short n cs ds (shorter h))
  where
    shorter :
        (length (c ∷ cs) ≤ suc n) ⊎ (length (d ∷ ds) ≤ suc n) → (length cs ≤ n) ⊎ (length ds ≤ n)
    shorter (inl e) = inl (omega (arith, e))
    shorter (inr e) = inr (omega (arith, e))

-- Where the slice tells no difference, the rest of the strings decides.
pub lex-drop :
    (n : ℕ) (xs ys : List ℕ) → lex xs ys ≡ then_by (lex_upto n xs ys) (lex (drop n xs) (drop n ys))
lex-drop zero [] [] = refl
lex-drop (suc n) [] [] = refl
lex-drop n [] (d ∷ ds) = refl
lex-drop n (c ∷ cs) [] = refl
lex-drop zero (c ∷ cs) (d ∷ ds) = refl
lex-drop (suc n) (c ∷ cs) (d ∷ ds) =
    ap (then_by (compare c d)) (lex-drop n cs ds)
    ∙ sym (then_by_assoc (compare c d) (lex_upto n cs ds) (lex (drop n cs) (drop n ds)))
