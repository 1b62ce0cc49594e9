-- ===== src/Lookup/Layer.antt =====
-- What it is for a store to hold a map from strings to values, layer by layer.
use incll.Base.{
  ℕ, zero, suc, ◌+◌, ◌*◌, ◌^◌, ◌≤◌, ◌<◌, ◌≡◌, ◌≢◌, ◌⊎◌, false, Option, none, some, List, length,
  drop, get_or,
}
use incll.Kpermuter
use incll.Nodeversion
use incll.Slice.{big_endian, load}
use incll.Slice.Words.{pad}
use incll.Leaf.{Leaf, lazy_recovery}
use incll.Descent.{Store}
use incll.Descent.Tree.{IsTree, IsBelow}
use incll.Lookup.{Str}

-- The slice that a string begins with
abbrev pub slice : List ℕ → ℕ
slice t = big_endian (pad 8 t)

-- A string is found at a slot with that slice and `keylenx`.
abbrev pub Fits : ℕ → ℕ → List ℕ → Type 0
Fits ikey keylenx t =
    (slice t ≡ ikey) × (((8 < length t) × (8 < keylenx)) ⊎ ((length t ≤ 8) × (length t ≡ keylenx)))

-- What a slot with the value word `lv` says of a map: the value of a short string, that of one
-- with the suffix, or the layer of all longer ones, as `Below` tells.
pub data IsSlot (Below : ℕ → (List ℕ → Option ℕ) → Type 0) (content : List ℕ → Option ℕ)
    (ikey keylenx lv : ℕ) (suffix : List ℕ) : Type 0 where
  short :
      keylenx ≤ 8
      → ((t : List ℕ) → Fits ikey keylenx t → content t ≡ some lv)
      → IsSlot Below content ikey keylenx lv suffix
  ends :
      keylenx ≡ 64
      → ((t : List ℕ) → Fits ikey keylenx t → drop 8 t ≡ suffix → content t ≡ some lv)
      → ((t : List ℕ) → Fits ikey keylenx t → drop 8 t ≢ suffix → content t ≡ none)
      → IsSlot Below content ikey keylenx lv suffix
  longer :
      keylenx ≡ 128
      → (rest : List ℕ → Option ℕ) → Below lv rest
      → ((t : List ℕ) → Fits ikey keylenx t → content t ≡ rest (drop 8 t))
      → IsSlot Below content ikey keylenx lv suffix

-- The slots in the order of the permutation have increasing slices, and increasing lengths where
-- the slices are equal.
abbrev pub IsIncreasing : Leaf → Type 0
IsIncreasing n =
    (i j : ℕ)
    → i < j
    → j < Kpermuter.size n.permutation
    → (p q : ℕ) → p ≡ Kpermuter.elem n.permutation i
    → q ≡ Kpermuter.elem n.permutation j
    → (get_or n.ikey0 p 0 < get_or n.ikey0 q 0)
      ⊎ ((get_or n.ikey0 p 0 ≡ get_or n.ikey0 q 0)
          × (get_or n.keylenx p 0 ≤ 8)
          × (get_or n.keylenx p 0 < get_or n.keylenx q 0))

module _ (mem : ℕ → ℕ) (ksuf : ℕ → ℕ → Str) (globalepoch failedepoch count : ℕ) where
  -- The store as it is once each leaf has been visited
  abbrev pub view : Store → Store
  view s = record s { leaf = λ a. lazy_recovery globalepoch failedepoch (s.leaf a) }

  module _ (s : Store) where
    -- The leaf at `a` has the strings of the map whose slices are from `lo` on and below `hi`: the
    -- slots are in order, each says what is true, and a string that none of them has is not there.
    pub record IsContent (Below : ℕ → (List ℕ → Option ℕ) → Type 0) (content : List ℕ → Option ℕ)
        (a lo hi : ℕ) : Type 0 where
      pub alive : Nodeversion.deleted (s.version a) ≡ false
      pub settled : lazy_recovery globalepoch failedepoch (s.leaf a) ≡ s.leaf a
      pub increasing : IsIncreasing (s.leaf a)
      pub slots :
          (i p : ℕ)
          → i < Kpermuter.size ((s.leaf a).permutation)
          → p ≡ Kpermuter.elem ((s.leaf a).permutation) i
          → IsSlot Below content
              (get_or ((s.leaf a).ikey0) p 0)
              (get_or ((s.leaf a).keylenx) p 0)
              (get_or ((s.leaf a).lv) p 0)
              (load mem ((ksuf a p).s) ((ksuf a p).len))
      pub absent :
          (t : List ℕ)
          → lo ≤ slice t
          → slice t < hi
          → ((i p : ℕ)
              → i < Kpermuter.size ((s.leaf a).permutation)
              → p ≡ Kpermuter.elem ((s.leaf a).permutation) i
              → Fits (get_or ((s.leaf a).ikey0) p 0) (get_or ((s.leaf a).keylenx) p 0) t
              → ⊥)
          → content t ≡ none

    -- The layer whose root is `n` parents up from `root` holds the map, in at most `d` layers; no
    -- search in a layer takes more than `count` steps.
    abbrev pub IsLayer : ℕ → ℕ → (List ℕ → Option ℕ) → Type 0
    IsLayer zero root content = ⊥
    IsLayer (suc d) root content =
        (n top h : ℕ) × (2 * n + 4 * h + 2 ≤ count)
        × IsBelow s (IsContent (IsLayer d) content) n root top
        × IsTree s (IsContent (IsLayer d) content) h top 0 (2 ^ 64)
