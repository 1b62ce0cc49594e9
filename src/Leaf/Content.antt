-- ===== src/Leaf/Content.antt =====
-- What a leaf holds: its permutation, and key and value of each slot that the permutation uses.
use incll.Base.{ℕ, ◌%◌, ◌^◌, ◌<◌, ◌≡◌, get_or}
use incll.Kpermuter
use incll.Kpermuter.Valid.{IsPermuter}
use incll.Incll.{get_cl_idx}
use incll.Leaf.{Leaf, width}

-- Slot `p` of `n` is as it was in `n0`.
pub record SameSlot (n0 n : Leaf) (p : ℕ) : Type 0 where
  pub key : get_or n.ikey0 p 0 ≡ get_or n0.ikey0 p 0
  pub keylen : get_or n.keylenx p 0 ≡ get_or n0.keylenx p 0
  pub value : get_or n.lv p 0 ≡ get_or n0.lv p 0

-- The slots that `n0` uses are in `n` as they were.
abbrev pub SameSlots : Leaf → Leaf → Type 0
SameSlots n0 n =
    (j : ℕ) → j < Kpermuter.size n0.permutation → SameSlot n0 n (Kpermuter.elem n0.permutation j)

pub record SameContent (n0 n : Leaf) : Type 0 where
  pub order : n.permutation ≡ n0.permutation
  pub slots : SameSlots n0 n

-- None of the three in-cache-line logs is in use.
pub record IsClean (n : Leaf) : Type 0 where
  pub cl0 : n.cl0_idx ≡ 7
  pub cl1 : get_cl_idx n.lv_cl1 ≡ 7
  pub cl2 : get_cl_idx n.lv_cl2 ≡ 7

-- A leaf as an epoch finds it. Values are aligned pointers of 56 bits.
pub record IsCommitted (globalepoch : ℕ) (n : Leaf) : Type 0 where
  pub old : n.loggedepoch < globalepoch
  pub clean : IsClean n
  pub permuter : IsPermuter width n.permutation
  pub word1 : n.lv_cl1 < 2 ^ 64
  pub word2 : n.lv_cl2 < 2 ^ 64
  pub aligned : (p : ℕ) → get_or n.lv p 0 % 8 ≡ 0
  pub narrow : (p : ℕ) → get_or n.lv p 0 < 2 ^ 56
