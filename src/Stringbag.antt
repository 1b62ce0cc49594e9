-- ===== src/Stringbag.antt =====
-- stringbag.hh: the strings of a bag, in one array of `capacity` bytes behind the table of their
-- places and lengths. The offset type has `bits` bits; a store into it wraps.
pub mod Apart
pub mod Assign
pub mod Examples
use incll.Base.{
  ℕ, zero, suc, ◌+◌, ◌-◌, ◌*◌, ◌/◌, ◌%◌, ◌^◌, max, ltb, leb, ◌==◌, ◌&&◌, if◌then◌else◌, Bool, true,
  false, List, [], ◌∷◌, length, Option, none, some,
}
use incll.Slice.{load}

pub record Info : Type 0 where
  pub pos : ℕ
  pub len : ℕ

-- `s` are the bytes from the object's address on.
pub record Bag : Type 0 where
  pub size : ℕ
  pub last : ℕ
  pub info : ℕ → Info
  pub s : ℕ → ℕ

abbrev pub slice_size : ℕ
slice_size = 8

-- `memcpy` of the bytes of a string to `a`
unfoldable pub store : ℕ → List ℕ → (ℕ → ℕ) → ℕ → ℕ
store a [] mem = mem
store a (c ∷ cs) mem = store (a + 1) cs (λ b. if b == a then c else mem b)

module _ (bits : ℕ) where
  unfoldable pub max_size : ℕ
  max_size = 2 ^ bits

  -- `sizeof(stringbag<T>)` are the two offsets before the table, `sizeof(info_type)` those of one
  -- of its rows.
  unfoldable pub overhead : ℕ → ℕ
  overhead width = 2 * (bits / 8) + width * (2 * (bits / 8))

  unfoldable pub safe_size : ℕ → ℕ → ℕ
  unfolding overhead
  safe_size width len = overhead width + len + slice_size - 1

  unfoldable pub stringbag : ℕ → ℕ → (ℕ → ℕ) → Bag
  unfolding overhead
  stringbag width capacity mem = record {
    size = overhead width % 2 ^ bits;
    last = (capacity - 1) % 2 ^ bits;
    info = λ p. record { pos = 0; len = 0 };
    s = mem;
  }

  -- The constructor with its assertion: `none` where that fails.
  unfoldable pub construct : ℕ → ℕ → (ℕ → ℕ) → Option Bag
  unfolding overhead max_size stringbag
  construct width capacity mem =
      if leb (overhead width) capacity && leb capacity max_size
      then some (stringbag width capacity mem)
      else none

  unfoldable pub capacity : Bag → ℕ
  capacity b = b.last + 1

  unfoldable pub get : Bag → ℕ → List ℕ
  get b p = load b.s (b.info p).pos (b.info p).len

  unfoldable pub put_at : ℕ → ℕ → List ℕ → ℕ → Bag → Bag
  unfolding store
  put_at p pos s size b = record {
    size = size;
    last = b.last;
    info = λ q.
        if q == p then record { pos = pos % 2 ^ bits; len = length s % 2 ^ bits } else b.info q;
    s = store pos s b.s;
  }

  -- The new bag, and whether the string had room
  unfoldable pub assign : Bag → ℕ → List ℕ → Bag × Bool
  unfolding capacity put_at
  assign b p s =
      if leb (length s) (b.info p).len
      then (put_at p (b.info p).pos s b.size b, true)
      else if leb (b.size + max (length s) slice_size) (capacity b)
      then (put_at p b.size s ((b.size + length s) % 2 ^ bits) b, true)
      else (b, false)
