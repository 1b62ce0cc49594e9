-- ===== src/Slice/Words.antt =====
-- The two byte orders of a word.
use native.Mathlib.Nat.{pow-suc, mul-le-mul_right}
use incll.Base.{
  ℕ, zero, suc, ◌+◌, ◌-◌, ◌*◌, ◌/◌, ◌%◌, ◌^◌, ◌≤◌, ◌<◌, min, ◌≡◌, refl, sym, ap, ap₂, ◌∙◌, arith,
  false, leb, Bool-cases, inl, inr, le_of-leb, lt_of-leb, List, [], ◌∷◌, ◌++◌, length, replicate,
  All,
}
use incll.Slice.{little_endian, big_endian, bytes, net_to_host_order, load, make, make_comparable}

abbrev pub IsBytes : List ℕ → Type 0
IsBytes xs = All (λ c. c < 256) xs

-- The first `n` bytes of a string, with null characters behind its end.
abbrev pub pad : ℕ → List ℕ → List ℕ
pad zero xs = []
pad (suc n) [] = 0 ∷ pad n []
pad (suc n) (c ∷ cs) = c ∷ pad n cs

pub length-pad : (n : ℕ) (xs : List ℕ) → length (pad n xs) ≡ n
length-pad zero xs = refl
length-pad (suc n) [] = ap suc (length-pad n [])
length-pad (suc n) (c ∷ cs) = ap suc (length-pad n cs)

pub pad-IsBytes : (n : ℕ) (xs : List ℕ) → IsBytes xs → IsBytes (pad n xs)
pad-IsBytes zero xs h = tt
pad-IsBytes (suc n) [] h = (omega arith, pad-IsBytes n [] tt)
pad-IsBytes (suc n) (c ∷ cs) h = (h.0, pad-IsBytes n cs h.1)

pub load-IsBytes : (mem : ℕ → ℕ) → ((a : ℕ) → mem a < 256) → (a n : ℕ) → IsBytes (load mem a n)
unfolding load
load-IsBytes mem h a zero = tt
load-IsBytes mem h a (suc n) = (h a, load-IsBytes mem h (a + 1) n)

pub length-load : (mem : ℕ → ℕ) (a n : ℕ) → length (load mem a n) ≡ n
unfolding load
length-load mem a zero = refl
length-load mem a (suc n) = ap suc (length-load mem (a + 1) n)

pub bytes-little_endian :
    (xs : List ℕ) (n : ℕ) → IsBytes xs → length xs ≡ n → bytes n (little_endian xs) ≡ xs
unfolding bytes little_endian
bytes-little_endian [] zero h e = refl
bytes-little_endian [] (suc n) h e = absurd (omega (arith, e))
bytes-little_endian (c ∷ cs) zero h e = absurd (omega (arith, e))
bytes-little_endian (c ∷ cs) (suc n) h e =
    let low : (c + 256 * little_endian cs) % 256 ≡ c = omega (arith, h.0) in
    let high : (c + 256 * little_endian cs) / 256 ≡ little_endian cs = omega (arith, h.0) in
    ap₂ (λ x y. x ∷ bytes n y) low high
    ∙ ap (λ y. c ∷ y) (bytes-little_endian cs n h.1 (omega (arith, e)))

replicate-pad : (n : ℕ) → replicate n 0 ≡ pad n []
replicate-pad zero = refl
replicate-pad (suc n) = ap (λ y. 0 ∷ y) (replicate-pad n)

-- A short string and null characters up to the size of a word.
pub load-pad :
    (mem : ℕ → ℕ) (k s m n : ℕ) → n ≡ k + m → load mem s k ++ replicate m 0 ≡ pad n (load mem s k)
unfolding load
load-pad mem zero s m n e =
    let same : m ≡ n = omega (arith, e) in replicate-pad m ∙ ap (λ x. pad x []) same
load-pad mem (suc k) s m zero e = absurd (omega (arith, e))
load-pad mem (suc k) s m (suc n) e =
    ap (λ y. mem s ∷ y) (load-pad mem k (s + 1) m n (omega (arith, e)))

pub pad-load : (mem : ℕ → ℕ) (k s m : ℕ) → k ≤ m → pad k (load mem s m) ≡ load mem s k
unfolding load
pad-load mem zero s m h = refl
pad-load mem (suc k) s zero h = absurd (omega arith)
pad-load mem (suc k) s (suc m) h = ap (λ y. mem s ∷ y) (pad-load mem k (s + 1) m (omega arith))

pub suc-leb : (n : ℕ) → leb (suc n) 0 ≡ false
suc-leb n = ground arith

-- `make` reads the string with null characters behind its end.
pub make-pad : (mem : ℕ → ℕ) (s len : ℕ) → make mem s len ≡ little_endian (pad 8 (load mem s len))
unfolding make load little_endian
make-pad mem s zero = refl
make-pad mem s (suc len) = elim (Bool-cases (leb 8 (suc len))) [
  | inl e ↦
      rw (suc-leb len, e)
        (ap little_endian (sym (pad-load mem 8 s (suc len) (le_of-leb 8 (suc len) e))))
  | inr e ↦
      let lt : suc len < 8 = lt_of-leb 8 (suc len) e in
      let short : min (suc len) 8 ≡ suc len = omega (arith, lt) in
      rw (suc-leb len, e, short)
        (ap little_endian (load-pad mem (suc len) s (8 - suc len) 8 (omega (arith, lt))))
]

-- An `ikey` is the big-endian number of the string's first 8 bytes.
pub make_comparable-pad :
    (mem : ℕ → ℕ) (s len : ℕ)
    → ((a : ℕ) → mem a < 256)
    → make_comparable mem s len ≡ big_endian (pad 8 (load mem s len))
unfolding make_comparable net_to_host_order
make_comparable-pad mem s len h =
    let xs : List ℕ = load mem s len in
    ap net_to_host_order (make-pad mem s len)
    ∙ ap big_endian (
        bytes-little_endian (pad 8 xs) 8 (pad-IsBytes 8 xs (load-IsBytes mem h s len))
          (length-pad 8 xs))

pub big_endian-lt : (xs : List ℕ) (n : ℕ) → IsBytes xs → length xs ≡ n → big_endian xs < 256 ^ n
unfolding big_endian
big_endian-lt [] zero h e = omega arith
big_endian-lt [] (suc n) h e = absurd (omega (arith, e))
big_endian-lt (c ∷ cs) zero h e = absurd (omega (arith, e))
big_endian-lt (c ∷ cs) (suc n) h e =
    let size : length cs ≡ n = omega (arith, e) in
    let rest : big_endian cs < 256 ^ n = big_endian-lt cs n h.1 size in
    let digit : c + 1 ≤ 256 = omega (arith, h.0) in
    rw size (omega (arith, rest, pow-suc 256 n, mul-le-mul_right (256 ^ n) digit))

pub load-append :
    (mem : ℕ → ℕ) (a m n : ℕ) → load mem a m ++ load mem (a + m) n ≡ load mem a (m + n)
unfolding load
load-append mem a zero n =
    let here : a + 0 ≡ a = omega arith in
    let same : n ≡ 0 + n = omega arith in ap₂ (load mem) here same
load-append mem a (suc m) n =
    let there : a + suc m ≡ a + 1 + m = omega arith in
    let longer : suc (m + n) ≡ suc m + n = omega arith in
    ap (λ x. mem a ∷ (load mem (a + 1) m ++ load mem x n)) there
    ∙ ap (λ xs. mem a ∷ xs) (load-append mem (a + 1) m n)
    ∙ ap (load mem a) longer
