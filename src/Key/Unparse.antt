-- ===== src/Key/Unparse.antt =====
-- A key is printed as the string that it was made from.
use native.Mathlib.Nat.{pow-suc}
use incll.Base.{
  ℕ, zero, suc, ◌+◌, ◌-◌, ◌*◌, ◌/◌, ◌%◌, ◌^◌, ◌≤◌, ◌<◌, min, ◌≡◌, refl, ap, ap₂, ◌∙◌, arith, ltb,
  inl, inr, if◌then◌else◌, List, [], ◌∷◌, ◌++◌, length, take, length-append, le_or_lt, lt→ltb,
  le→ltb_false,
}
use incll.Slice.{
  load, bytes, little_endian, big_endian, net_to_host_order, make_comparable, unparse_comparable,
}
use incll.Slice.Words.{
  load-append, IsBytes, pad, length-pad, pad-IsBytes, load-IsBytes, big_endian-lt,
  bytes-little_endian, make_comparable-pad,
}
use incll.Key.{Key, unparse}

digit-pow : (c n : ℕ) → c * 256 ^ suc n ≡ c * 256 ^ n * 256
digit-pow c n = ap (λ p. c * p) (pow-suc 256 n) ∙ omega arith

-- The last byte of the low-first bytes is the first digit.
bytes-last :
    (n c r : ℕ) → r < 256 ^ n → c < 256 → bytes (suc n) (c * 256 ^ n + r) ≡ bytes n r ++ (c ∷ [])
unfolding bytes
bytes-last zero c r h b =
    let none : r ≡ 0 = omega (arith, h) in
    let digit : (c * 1 + r) % 256 ≡ c = omega (arith, none, b) in ap (λ x. x ∷ []) digit
bytes-last (suc n) c r h b =
    let next = digit-pow c n in
    let low : (c * 256 ^ suc n + r) % 256 ≡ r % 256 = omega (arith, next) in
    let high : (c * 256 ^ suc n + r) / 256 ≡ c * 256 ^ n + r / 256 = omega (arith, next) in
    let small : r / 256 < 256 ^ n = omega (arith, pow-suc 256 n, h) in
    ap₂ (λ x y. x ∷ bytes (suc n) y) low high
    ∙ ap (λ ys. r % 256 ∷ ys) (bytes-last n c (r / 256) small b)

length-bytes : (n x : ℕ) → length (bytes n x) ≡ n
unfolding bytes
length-bytes zero x = refl
length-bytes (suc n) x = ap suc (length-bytes n (x / 256))

big_endian-append : (xs : List ℕ) (c : ℕ) → big_endian (xs ++ (c ∷ [])) ≡ big_endian xs * 256 + c
unfolding big_endian
big_endian-append [] c = omega arith
big_endian-append (x ∷ xs) c =
    let longer : length (xs ++ (c ∷ [])) ≡ suc (length xs) =
      length-append xs (c ∷ []) ∙ omega arith in
    rw longer (omega (arith, big_endian-append xs c, digit-pow x (length xs)))

-- Changing the byte order of a big-endian number gives the little-endian one.
big_endian-bytes :
    (xs : List ℕ) (n : ℕ)
    → IsBytes xs
    → length xs ≡ n
    → big_endian (bytes n (big_endian xs)) ≡ little_endian xs
unfolding little_endian bytes big_endian
big_endian-bytes [] zero h e = refl
big_endian-bytes [] (suc n) h e = absurd (omega (arith, e))
big_endian-bytes (c ∷ cs) zero h e = absurd (omega (arith, e))
big_endian-bytes (c ∷ cs) (suc n) h e =
    let size : length cs ≡ n = omega (arith, e) in
    ap (λ m. big_endian (bytes (suc n) (c * 256 ^ m + big_endian cs))) size
    ∙ ap big_endian (bytes-last n c (big_endian cs) (big_endian-lt cs n h.1 size) h.0)
    ∙ big_endian-append (bytes n (big_endian cs)) c
    ∙ omega (arith, big_endian-bytes cs n h.1 size)

take-pad :
    (mem : ℕ → ℕ) (k n s len : ℕ) → k ≤ n → k ≤ len → take k (pad n (load mem s len)) ≡ load mem s k
unfolding load
take-pad mem zero n s len h g = refl
take-pad mem (suc k) zero s len h g = absurd (omega arith)
take-pad mem (suc k) (suc n) s zero h g = absurd (omega arith)
take-pad mem (suc k) (suc n) s (suc len) h g =
    ap (λ xs. mem s ∷ xs) (take-pad mem k n (s + 1) len (omega arith) (omega arith))

-- The slice of a string prints as the string, as far as the buffer and the slice go.
unparse_comparable_lem :
    (mem : ℕ → ℕ) (s len buflen : ℕ)
    → ((a : ℕ) → mem a < 256)
    → buflen ≤ len
    → unparse_comparable buflen (make_comparable mem s len) 8 ≡ load mem s (min 8 buflen)
unfolding unparse_comparable net_to_host_order
unparse_comparable_lem mem s len buflen valid h =
    let xs : List ℕ = pad 8 (load mem s len) in
    let good : IsBytes xs = pad-IsBytes 8 (load mem s len) (load-IsBytes mem valid s len) in
    let size = length-pad 8 (load mem s len) in
    ap (λ x. take (min 8 buflen) (bytes 8 (net_to_host_order x)))
      (make_comparable-pad mem s len valid)
    ∙ ap (λ x. take (min 8 buflen) (bytes 8 x)) (big_endian-bytes xs 8 good size)
    ∙ ap (take (min 8 buflen)) (bytes-little_endian xs 8 good size)
    ∙ take-pad mem (min 8 buflen) 8 s len (omega arith) (omega (arith, h))

-- A key that holds the slice of its string, of any length, prints as the string, cut at the size of
-- the buffer.
pub unparse_lem :
    (mem : ℕ → ℕ) (k : Key) (datalen : ℕ)
    → ((a : ℕ) → mem a < 256)
    → k.ikey0 ≡ make_comparable mem k.s k.len
    → unparse mem k datalen ≡ load mem k.s (min k.len datalen)
unfolding unparse load
unparse_lem mem k datalen valid slice =
    let cplen : ℕ = min k.len datalen in
    let rest : List ℕ = if ltb 8 cplen then load mem (k.s + 8) (cplen - 8) else [] in
    ap (λ i. unparse_comparable cplen i 8 ++ rest) slice
    ∙ ap (λ xs. xs ++ rest) (unparse_comparable_lem mem k.s k.len cplen valid (omega arith))
    ∙ joined cplen
  where
    joined :
        (n : ℕ)
        → load mem k.s (min 8 n) ++ (if ltb 8 n then load mem (k.s + 8) (n - 8) else [])
          ≡ load mem k.s n
    joined n = elim (le_or_lt 8 n) [
      | inl lt ↦
          let head : min 8 n ≡ 8 = omega (arith, lt) in
          let whole : 8 + (n - 8) ≡ n = omega (arith, lt) in
          rw (lt→ltb 8 n lt, head) (load-append mem k.s 8 (n - 8) ∙ ap (load mem k.s) whole)
      | inr le ↦
          let head : min 8 n ≡ n = omega (arith, le) in
          let same : n + 0 ≡ n = omega arith in
          rw (le→ltb_false 8 n le, head) (load-append mem k.s n 0 ∙ ap (load mem k.s) same)
    ]
