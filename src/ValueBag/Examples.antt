-- ===== src/ValueBag/Examples.antt =====
-- A row with the columns "ab" and "c".
use incll.Base.{ℕ, zero, suc, ◌+◌, ◌<◌, ◌≤◌, ◌≡◌, refl, arith, [], ◌∷◌, get_or}
use incll.Internode.{copy}
use incll.Internode
use incll.Slice.{load}
use incll.Stringbag
use incll.ValueBag.{
  Row, Changes, col, column_length, update, create1, measure, copy_changes, fill, copy_old,
  mark_empty, move_places, put_change, size,
}
use incll.ValueBag.Layout.{IsRow}
use incll.ValueBag.Update.{IsUpdated}
use incll.ValueBag.Whole.{update_lem}
use incll.ValueBag.Allocated.{update-size}

abbrev fresh : Row
fresh = record { timestamp = 0; ncol = 0; pos = λ i. 0; s = λ a. 255 }

abbrev old : Row
old = record {
  timestamp = 5;
  ncol = 2;
  pos = λ i. get_or (8 ∷ 10 ∷ 11 ∷ []) i 0;
  s = λ a. get_or (0 ∷ 0 ∷ 0 ∷ 0 ∷ 0 ∷ 0 ∷ 0 ∷ 0 ∷ 97 ∷ 98 ∷ 99 ∷ []) a 0;
}

old-IsRow : IsRow old
old-IsRow = record { first = refl; ordered = λ i h. ordered i h; fits = omega arith }
  where
    ordered : (i : ℕ) → i < 2 → get_or (8 ∷ 10 ∷ 11 ∷ []) i 0 ≤ get_or (8 ∷ 10 ∷ 11 ∷ []) (i + 1) 0
    ordered zero h = omega arith
    ordered (suc zero) h = omega arith
    ordered (suc (suc i)) h = absurd (omega (arith, h))

-- Column 1 becomes "xyz", and column 3 is new.
abbrev changes : Changes
changes = (1, 120 ∷ 121 ∷ 122 ∷ []) ∷ (3, 100 ∷ []) ∷ []

update_test : col ((update old changes 6 fresh).1) 0 ≡ 97 ∷ 98 ∷ []
unfolding col column_length update measure copy_changes fill copy_old mark_empty move_places
    put_change size copy load Internode.store Stringbag.store
update_test = refl

update_test2 : (update old changes 6 fresh).0 ≡ 26
unfolding update measure copy_changes column_length fill copy_old mark_empty move_places put_change
    size copy load Internode.store Stringbag.store
update_test2 = refl

-- The short cut, for a value of the same length
update_test3 : col ((update old ((0, 121 ∷ 122 ∷ []) ∷ []) 6 fresh).1) 0 ≡ 121 ∷ 122 ∷ []
unfolding col column_length update measure copy_changes fill copy_old mark_empty move_places
    put_change size copy load Internode.store Stringbag.store
update_test3 = refl

create1_test : col (create1 (104 ∷ 105 ∷ []) 6 fresh) 0 ≡ 104 ∷ 105 ∷ []
unfolding col column_length create1 Internode.store Stringbag.store load
create1_test = refl

update_lem_example : IsUpdated old changes 6 4 ((update old changes 6 fresh).1)
unfolding col column_length load
update_lem_example =
    update_lem old old-IsRow 6 fresh changes (omega arith, (omega arith, tt)) (omega arith)

update-size_example : (update old changes 6 fresh).0 ≡ size ((update old changes 6 fresh).1)
unfolding col column_length load
update-size_example =
    update-size old old-IsRow 6 fresh changes (omega arith, (omega arith, tt)) (omega arith)
