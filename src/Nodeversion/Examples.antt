-- ===== src/Nodeversion/Examples.antt =====
-- The theorems on the version of a fresh leaf that is a root.
use incll.Base.{ℕ, ◌+◌, ◌/◌, ◌^◌, ◌≡◌, bit_or, refl, arith, true, false}
use incll.Nodeversion.{
  mark_insert, mark_split, unlock, has_changed, has_split, is_root, isleaf, deleted, lock_bit,
}
use incll.Nodeversion.Unlock.{IsStable, mark_insert_seen, mark_split_seen}

abbrev root_leaf : ℕ
root_leaf = 2 ^ 31 + 2 ^ 30 + 504

root_leaf-IsStable : IsStable root_leaf
root_leaf-IsStable = record { word = omega arith; quiet = refl; unused = refl }

mark_insert_seen_example :
    let m = mark_insert (bit_or root_leaf lock_bit) in
    IsStable (unlock m)
    × (has_changed m root_leaf ≡ true)
    × (has_changed (unlock m) root_leaf ≡ true)
    × (unlock m / 2 ^ 29 ≡ root_leaf / 2 ^ 29)
mark_insert_seen_example = mark_insert_seen root_leaf root_leaf-IsStable

mark_split_seen_example :
    let m = mark_split (bit_or root_leaf lock_bit) in
    IsStable (unlock m)
    × (has_split (unlock m) root_leaf ≡ true)
    × (is_root (unlock m) ≡ false)
    × (isleaf (unlock m) ≡ isleaf root_leaf)
    × (deleted (unlock m) ≡ deleted root_leaf)
mark_split_seen_example = mark_split_seen root_leaf root_leaf-IsStable
