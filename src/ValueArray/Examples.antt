-- ===== src/ValueArray/Examples.antt =====
-- A row with the columns "a" and "b", at the addresses 1 and 2.
use incll.Base.{◌+◌, ◌≡◌, refl, arith, [], ◌∷◌, if◌then◌else◌, ◌==◌}
use incll.Internode.{store}
use incll.ValueBag.{Changes}
use incll.ValueArray.{Heap, Array, make_column, put_columns, update_array, freed_after_update}
use incll.ValueArray.Share.{IsArray}
use incll.ValueArray.Handover.{IsHandover, update_array-IsHandover}

abbrev heap : Heap
heap = record { next = 3; string = λ a. if a == 1 then 97 ∷ [] else 98 ∷ [] }

abbrev old : Array
old = record { timestamp = 5; ncol = 2; cols = λ i. i + 1 }

old-IsArray : IsArray heap old
old-IsArray = record {
  some_address = omega arith;
  allocated = λ i h. omega (arith, h);
  distinct = λ i j h l e f. omega (arith, f);
}

-- Column 1 becomes "c", and column 2 is new and empty.
abbrev changes : Changes
changes = (1, 99 ∷ []) ∷ (2, []) ∷ []

update_array_test : (update_array old changes 6 heap).0.cols 1 ≡ 3
unfolding update_array put_columns make_column store
update_array_test = refl

freed_after_update_test : freed_after_update old changes ≡ 2 ∷ []
unfolding freed_after_update
freed_after_update_test = refl

update_array-IsHandover_example :
    IsHandover heap old changes
      ((update_array old changes 6 heap).1)
      ((update_array old changes 6 heap).0)
update_array-IsHandover_example =
    update_array-IsHandover heap old old-IsArray changes (omega arith, (omega arith, tt)) 6
