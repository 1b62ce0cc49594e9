-- ===== src/Leafsplit/Examples.antt =====
-- A full leaf whose items 6 to 9 have one slice.
use incll.Base.{ℕ, true, ◌≡◌, refl, arith, List, [], ◌∷◌, replicate}
use incll.Kpermuter
use incll.Leaf.{Leaf}
use incll.Leaflink.{Links}
use incll.Leafsplit.{
  Key, split_into, split_at, search_mid, find_mid, first_mid, ikey_after_insert, fill,
  assign_initialize, assign_initialize_from,
}
use incll.Leafsplit.Fill.{inserted}
use incll.Leafsplit.Right.{IsSplit, split_into-IsSplit}

abbrev leaf_of : List ℕ → ℕ → Leaf
leaf_of slices perm = record {
  version = 0;
  not_logged = true;
  cl0_idx = 0;
  loggedepoch = 1;
  modstate = 0;
  keylenx = replicate 14 8;
  permutation = perm;
  perm_cl0 = 0;
  ksuf = 0;
  ikey0 = slices;
  next = 0;
  prev = 0;
  parent = 0;
  lv_cl1 = 0;
  lv = replicate 14 500;
  lv_cl2 = 0;
}

abbrev full : Leaf
full = leaf_of (1 ∷ 2 ∷ 3 ∷ 4 ∷ 5 ∷ 6 ∷ 7 ∷ 7 ∷ 7 ∷ 7 ∷ 11 ∷ 12 ∷ 13 ∷ 14 ∷ []) 0xDCBA9876543210E

abbrev fresh : Leaf
fresh = leaf_of (replicate 14 0) 0

abbrev alone : Links
alone = record { next = λ a. 0; prev = λ a. 0 }

abbrev four : Key
four = record { ikey = 4; length = 9 }

size-full : Kpermuter.size full.permutation ≡ 14
unfolding Kpermuter.size
size-full = refl

first-full : (inserted full full.permutation 3 four 0).slice ≡ 1
unfolding Kpermuter.elem
first-full = refl

second-full : (inserted full full.permutation 3 four 1).slice ≡ 2
unfolding Kpermuter.elem
second-full = refl

split_into-IsSplit_example : IsSplit full 3 four (split_into 16 32 full fresh 3 four alone)
split_into-IsSplit_example =
    split_into-IsSplit 16 32 full fresh 3 four alone 0 1 (omega (arith, size-full))
      (omega (arith, size-full)) (omega (arith, size-full))
      (record { slices = refl; lengths = refl; values = refl }) (omega (arith, size-full))
      (omega (arith, size-full)) (λ e. absurd (omega (arith, e, first-full, second-full)))

-- The new key is item 3, so that the equal slices are items 7 to 10; the border comes to lie
-- before them.
split_test : (split_into 16 32 full fresh 3 four alone).split_ikey ≡ 7
unfolding split_into split_at fill assign_initialize assign_initialize_from find_mid search_mid
    first_mid ikey_after_insert Kpermuter.elem Kpermuter.size Kpermuter.value_from
split_test = refl
