-- ===== src/Slice.antt =====
-- string_slice.hh, for the 8 bytes of an `ikey`, and the byte order and comparison of compiler.hh.
-- Memory is a function from addresses to bytes; the machine is little-endian, with unaligned
-- access. A function that fills a buffer returns the bytes that it writes.
pub mod Words
pub mod Sloppy
pub mod Order
pub mod Equal
use incll.Base.{
  ℕ, zero, suc, ◌+◌, ◌-◌, ◌*◌, ◌/◌, ◌%◌, ◌^◌, min, Bool, true, false, ◌&&◌, ltb, leb, ◌==◌,
  if◌then◌else◌, List, [], ◌∷◌, ◌++◌, length, take, replicate, get_or, bit_xor, shl64, shr, u64,
}
use incll.Ksearch.{Sign, negative, null, positive}

-- `compare` of two integers
unfoldable pub compare : ℕ → ℕ → Sign
compare a b = if a == b then null else if ltb a b then negative else positive

-- The number that the bytes of a union make, lowest byte first.
unfoldable pub little_endian : List ℕ → ℕ
little_endian [] = 0
little_endian (c ∷ cs) = c + 256 * little_endian cs

unfoldable pub big_endian : List ℕ → ℕ
big_endian [] = 0
big_endian (c ∷ cs) = c * 256 ^ length cs + big_endian cs

-- The `n` bytes of a union, lowest first.
unfoldable pub bytes : ℕ → ℕ → List ℕ
bytes zero x = []
bytes (suc n) x = x % 256 ∷ bytes n (x / 256)

-- The other byte order; `host_to_net_order` is the same function.
unfoldable pub net_to_host_order : ℕ → ℕ
net_to_host_order x = big_endian (bytes 8 x)

-- `memcpy` of `n` bytes from `a`
unfoldable pub load : (ℕ → ℕ) → ℕ → ℕ → List ℕ
load mem a zero = []
load mem a (suc n) = mem a ∷ load mem (a + 1) n

unfoldable pub make : (ℕ → ℕ) → ℕ → ℕ → ℕ
make mem s len =
    if leb len 0
    then 0
    else if leb 8 len
    then little_endian (load mem s 8)
    else little_endian (load mem s (min len 8) ++ replicate (8 - min len 8) 0)

unfoldable pub make_comparable : (ℕ → ℕ) → ℕ → ℕ → ℕ
make_comparable mem s len = net_to_host_order (make mem s len)

-- Reads up to 7 bytes in front of the string.
unfoldable pub make_sloppy : (ℕ → ℕ) → ℕ → ℕ → ℕ
make_sloppy mem s len =
    if leb len 0
    then 0
    else if leb 8 len
    then little_endian (load mem s 8)
    else shr (little_endian (load mem (s - (8 - len)) 8)) (8 * (8 - len))

unfoldable pub make_comparable_sloppy : (ℕ → ℕ) → ℕ → ℕ → ℕ
make_comparable_sloppy mem s len = net_to_host_order (make_sloppy mem s len)

-- The loop that drops the null characters at the end of the first `l` bytes of the union.
unfoldable pub trim : List ℕ → ℕ → ℕ
trim u zero = 0
trim u (suc l) = let shorter : ℕ = trim u l in if get_or u l 0 == 0 then shorter else suc l

unfoldable pub unparse_trimmed : ℕ → ℕ → List ℕ
unparse_trimmed buflen value =
    let u : List ℕ = bytes 8 (net_to_host_order value) in take (min (trim u 8) buflen) u

unfoldable pub unparse_comparable : ℕ → ℕ → ℕ → List ℕ
unparse_comparable buflen value len =
    take (min (min len 8) buflen) (bytes 8 (net_to_host_order value))

-- `memcmp(a, b, n) == 0`
unfoldable pub memcmp_equal : (ℕ → ℕ) → ℕ → ℕ → ℕ → Bool
memcmp_equal mem a b zero = true
memcmp_equal mem a b (suc n) = (mem a == mem b) && memcmp_equal mem (a + 1) (b + 1) n

unfoldable pub equals_sloppy : (ℕ → ℕ) → ℕ → ℕ → ℕ → Bool
equals_sloppy mem a b len =
    let delta : ℕ = bit_xor (little_endian (load mem a 8)) (little_endian (load mem b 8)) in
    if leb len 8
    then if leb len 0 then true else shl64 delta (8 * (8 - len)) == 0
    else memcmp_equal mem a b len
