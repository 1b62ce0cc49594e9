-- ===== src/Key.antt =====
-- masstree_key.hh: the strings used as keys, cut into slices of 8 bytes. The string stands in a
-- memory that the operations read; `s` and `first` are addresses.
pub mod Compare
pub mod Shift
pub mod Unparse
pub mod Examples
use incll.Base.{
  ℕ, zero, suc, ◌+◌, ◌-◌, min, Bool, not, ltb, leb, ◌==◌, ◌&&◌, if◌then◌else◌, List, [], ◌++◌,
}
use incll.Ksearch.{Sign, negative, null, positive}
use incll.Slice.{compare, load, make_comparable, make_comparable_sloppy, unparse_comparable}

abbrev pub ikey_size : ℕ
ikey_size = 8

pub record Key : Type 0 where
  pub ikey0 : ℕ
  pub len : ℕ
  pub s : ℕ
  pub first : ℕ

unfoldable pub empty : Key → Bool
empty k = (k.ikey0 == 0) && (k.len == 0)

unfoldable pub has_suffix : Key → Bool
has_suffix k = ltb ikey_size k.len

unfoldable pub is_shifted : Key → Bool
is_shifted k = not (k.first == k.s)

-- Of the result of `compare` only the sign is kept.
unfoldable pub compare_ikey : Key → ℕ → ℕ → Sign
unfolding compare
compare_ikey k ikey keylenx = elim (compare k.ikey0 ikey) [
  | negative ↦ negative
  | null ↦
      if ltb ikey_size k.len
      then if leb keylenx ikey_size then positive else null
      else compare k.len keylenx
  | positive ↦ positive
]

unfoldable pub compare_key : Key → Key → Sign
unfolding compare_ikey
compare_key k x = compare_ikey k x.ikey0 x.len

module _ (mem : ℕ → ℕ) where
  unfoldable pub key : ℕ → ℕ → Key
  key s len = record { ikey0 = make_comparable mem s len; len = len; s = s; first = s }

  unfoldable pub shift_by : ℕ → Key → Key
  shift_by delta k = record k {
    s = k.s + delta;
    len = k.len - delta;
    ikey0 = make_comparable_sloppy mem (k.s + delta) (k.len - delta);
  }

  unfoldable pub shift : Key → Key
  shift k = record k {
    s = k.s + ikey_size;
    len = k.len - ikey_size;
    ikey0 = make_comparable_sloppy mem (k.s + ikey_size) (k.len - ikey_size);
  }

  unfoldable pub unshift_all : Key → Key
  unshift_all k = if k.s == k.first then k else record k {
    len = k.len + (k.s - k.first);
    s = k.first;
    ikey0 = make_comparable mem k.first (k.len + (k.s - k.first));
  }

  unfoldable pub unshift : Key → Key
  unshift k = record k {
    s = k.s - ikey_size;
    ikey0 = make_comparable_sloppy mem (k.s - ikey_size) ikey_size;
    len = ikey_size + 1;
  }

  unfoldable pub suffix : Key → List ℕ
  suffix k = load mem (k.s + ikey_size) (k.len - ikey_size)

  unfoldable pub prefix_string : Key → List ℕ
  prefix_string k = load mem k.first (k.s - k.first)

  unfoldable pub full_string : Key → List ℕ
  full_string k = load mem k.first (k.s + k.len - k.first)

  unfoldable pub unparse : Key → ℕ → List ℕ
  unfolding unparse_comparable
  unparse k datalen =
      let cplen : ℕ = min k.len datalen in
      unparse_comparable cplen k.ikey0 ikey_size
      ++ (if ltb ikey_size cplen then load mem (k.s + ikey_size) (cplen - ikey_size) else [])

unfoldable pub shift_clear : Key → Key
shift_clear k = record k { ikey0 = 0; len = 0; s = k.s + ikey_size }
