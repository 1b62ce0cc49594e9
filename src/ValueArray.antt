-- ===== src/ValueArray.antt =====
-- value_array.hh and value_array.cc: a row as an array of strings that stand in the heap each, and
-- that an old row and the one made from it share. Addresses are numbers, 0 for null; an allocation
-- takes the next one. Columns are below 2 ^ 15, so that a `short` holds their number. The memory of
-- the row itself is left out.
pub mod Share
pub mod Distinct
pub mod Free
pub mod Handover
pub mod Examples
use incll.Base.{ℕ, zero, suc, ◌+◌, max, Bool, not, ◌&&◌, ltb, ◌==◌, if◌then◌else◌, List, [], ◌∷◌}
use incll.Internode.{store}
use incll.ValueBag.{Changes}

pub record Heap : Type 0 where
  pub next : ℕ
  pub string : ℕ → List ℕ

pub record Array : Type 0 where
  pub timestamp : ℕ
  pub ncol : ℕ
  pub cols : ℕ → ℕ

unfoldable pub array_col : Heap → Array → ℕ → List ℕ
array_col h r i = if ltb i r.ncol && not (r.cols i == 0) then h.string (r.cols i) else []

unfoldable pub make_column : List ℕ → Heap → ℕ × Heap
make_column [] h = (0, h)
make_column (c ∷ cs) h =
    (h.next, record { next = suc h.next; string = λ a. if a == h.next then c ∷ cs else h.string a })

-- The loop of `update`
unfoldable pub put_columns : Changes → (ℕ → ℕ) → Heap → (ℕ → ℕ) × Heap
unfolding make_column
put_columns [] cols h = (cols, h)
put_columns (change ∷ changes) cols h =
    let made : ℕ × Heap = make_column (change.1) h in
    put_columns changes (store cols (change.0) (made.0)) (made.1)

-- `last[-2].as_i()`; an update has at least one change.
unfoldable pub last_column : Changes → ℕ → ℕ
last_column [] c = c
last_column (change ∷ changes) c = last_column changes (change.0)

unfoldable pub update_array : Array → Changes → ℕ → Heap → Array × Heap
unfolding put_columns last_column
update_array r changes timestamp h =
    let put : (ℕ → ℕ) × Heap = put_columns changes (λ i. if ltb i r.ncol then r.cols i else 0) h in
    (
      record { timestamp = timestamp; ncol = max r.ncol (last_column changes 0 + 1); cols = put.0 },
      put.1,
    )

-- The columns that `deallocate_rcu_after_update` of the old row frees
unfoldable pub freed_after_update : Array → Changes → List ℕ
freed_after_update r [] = []
freed_after_update r (change ∷ changes) =
    let rest : List ℕ = freed_after_update r changes in
    if ltb (change.0) r.ncol
    then if r.cols (change.0) == 0 then rest else r.cols (change.0) ∷ rest
    else []
