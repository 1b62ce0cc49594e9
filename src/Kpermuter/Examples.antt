-- ===== src/Kpermuter/Examples.antt =====
-- The theorems on concrete words.
use incll.Base.{ℕ, ◌+◌, ◌-◌, ◌≡◌, ◌≤◌, ◌<◌, refl, sym, ◌∙◌, arith, all_below_lem, ◌==◌, ==_iff}
use incll.Kpermuter.{size, elem, insert_from_back, remove}
use incll.Kpermuter.Insert.{insert_from_back_lem}
use incll.Kpermuter.Remove.{remove_lem}
use incll.Kpermuter.Valid.{IsPermuter, insert_from_back-IsPermuter, remove-IsPermuter}

-- Five slots of fourteen in use, in sorted order.
abbrev five : ℕ
five = 0xDCBA98765432105

five-elem : (j : ℕ) → j < 14 → elem five j ≡ j
unfolding elem
five-elem j h = (==_iff _ _).0 (all_below_lem 14 (λ k. elem five k == k) refl j h)

five-IsPermuter : IsPermuter 14 five
unfolding size
five-IsPermuter = record {
  word = omega arith;
  narrow = omega arith;
  sized = omega arith;
  bounded = λ j h. rw (five-elem j h) h;
  distinct = λ i j hi hj e. sym (five-elem i hi) ∙ e ∙ five-elem j hj;
}

insert_from_back_lem_example :
    let (q, v) = insert_from_back 14 five 2 in
    (v ≡ elem five 13)
    × (size q ≡ size five + 1)
    × (elem q 2 ≡ v)
    × ((j : ℕ) → j < 2 → elem q j ≡ elem five j)
    × ((j : ℕ) → 2 < j → j < 14 → elem q j ≡ elem five (j - 1))
unfolding size
insert_from_back_lem_example =
    insert_from_back_lem 14 five 2 (omega arith) (omega arith) (omega arith) (omega arith)

remove_lem_example :
    let q = remove 14 five 2 in
    (size q ≡ size five - 1)
    × (elem q (size q) ≡ elem five 2)
    × ((j : ℕ) → j < 2 → elem q j ≡ elem five j)
    × ((j : ℕ) → 2 ≤ j → j < size q → elem q j ≡ elem five (j + 1))
    × ((j : ℕ) → size five ≤ j → j < 15 → elem q j ≡ elem five j)
unfolding size
remove_lem_example = remove_lem 14 five 2 (omega arith) (omega arith) (omega arith)

insert_from_back-IsPermuter_example : IsPermuter 14 (insert_from_back 14 five 2).0
unfolding size
insert_from_back-IsPermuter_example =
    insert_from_back-IsPermuter 14 five 2 five-IsPermuter (omega arith) (omega arith)

remove-IsPermuter_example : IsPermuter 14 (remove 14 five 2)
unfolding size
remove-IsPermuter_example = remove-IsPermuter 14 five 2 five-IsPermuter (omega arith)
