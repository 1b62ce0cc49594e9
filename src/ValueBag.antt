-- ===== src/ValueBag.antt =====
-- value_bag.hh, for the `row_type` of kvrow.hh, `value_bag<uint16_t>`: the columns of a row, one
-- after the other behind a table of their places. A store into the table wraps at 2 ^ 16. The table
-- and the bytes are kept apart; places count from the start of the table's structure, as in the
-- source. The changes of an update are pairs of a column and its new value; `fresh` is what new
-- memory holds.
pub mod Layout
pub mod Progress
pub mod Copying
pub mod Change
pub mod Update
pub mod Replace
pub mod Whole
pub mod Allocated
pub mod Examples
use incll.Base.{
  ℕ, zero, suc, ◌+◌, ◌-◌, ◌*◌, ◌%◌, ◌^◌, min, Bool, not, ◌&&◌, ltb, leb, ◌==◌, if◌then◌else◌, List,
  [], ◌∷◌, length, get_or, u64, sub64,
}
use incll.Internode.{copy}
use incll.Internode
use incll.Slice.{load}
use incll.Stringbag

abbrev pub offset_size : ℕ
offset_size = 2

-- `sizeof(bagdata)`
abbrev pub bagdata_size : ℕ
bagdata_size = 4

abbrev pub timestamp_size : ℕ
timestamp_size = 8

pub record Row : Type 0 where
  pub timestamp : ℕ
  pub ncol : ℕ
  pub pos : ℕ → ℕ
  pub s : ℕ → ℕ

abbrev pub Changes : Type 0
Changes = List (ℕ × List ℕ)

unfoldable pub size : Row → ℕ
size r = timestamp_size + r.pos (r.ncol)

unfoldable pub column_length : Row → ℕ → ℕ
column_length r i = (r.pos (i + 1) + 2 ^ 16 - r.pos i) % 2 ^ 16

unfoldable pub col : Row → ℕ → List ℕ
unfolding column_length
col r i = if ltb i r.ncol then load r.s (r.pos i) (column_length r i) else []

-- `value_bag()`
unfoldable pub value_bag : (ℕ → ℕ) → Row
value_bag fresh = record { timestamp = 0; ncol = 0; pos = λ i. bagdata_size; s = fresh }

-- The first loop of `update`: the number of columns and the size, from those of the old row on
unfoldable pub measure : Row → Changes → ℕ → ℕ → ℕ × ℕ
unfolding column_length
measure r [] ncol sz = (ncol, sz)
measure r (change ∷ changes) ncol sz =
    let longer : ℕ = u64 (sz + length (change.1)) in
    measure r changes (if ltb (change.0) r.ncol then ncol else change.0 + 1)
      (if ltb (change.0) r.ncol then sub64 longer (column_length r (change.0)) else longer)

-- The row that is being made, with the variables of the loop
pub record Making : Type 0 where
  pub column : ℕ
  pub sz : ℕ
  pub pos : ℕ → ℕ
  pub s : ℕ → ℕ

-- `for (i = col; i < end_col; ++i) row->d_.pos_[i] = d_.pos_[i] + delta`
unfoldable pub move_places : (ℕ → ℕ) → (ℕ → ℕ) → ℕ → ℕ → ℕ → ℕ → ℕ
move_places pos old column end delta i =
    if leb column i && ltb i end then (old i + delta) % 2 ^ 16 else pos i

-- Copies the data of the old row up to the column `this_col`.
unfoldable pub copy_old : Row → ℕ → Making → Making
unfolding copy move_places
copy_old r this_col m =
    if not (m.column == this_col) && ltb m.column r.ncol
    then (let end : ℕ = min this_col r.ncol in
        let delta : ℕ = sub64 m.sz (r.pos (m.column)) in
        let amt : ℕ = sub64 (r.pos end) (r.pos (m.column)) in
        record {
          column = end;
          sz = u64 (m.sz + amt);
          pos =
              if delta == 0
              then copy m.pos m.column r.pos m.column (end - m.column)
              else move_places m.pos r.pos m.column end delta;
          s = copy m.s m.sz r.s (r.pos (m.column)) amt;
        })
    else m

-- Marks that many columns as empty.
unfoldable pub mark_empty : ℕ → Making → Making
mark_empty zero m = m
mark_empty (suc n) m =
    mark_empty n
      (record m { column = m.column + 1; pos = Internode.store m.pos m.column (m.sz % 2 ^ 16) })

unfoldable pub fill : Row → ℕ → Making → Making
unfolding copy_old mark_empty
fill r this_col m =
    let copied : Making = copy_old r this_col m in mark_empty (this_col - copied.column) copied

unfoldable pub put_change : List ℕ → Making → Making
put_change value m = record {
  column = m.column + 1;
  sz = u64 (m.sz + length value);
  pos = Internode.store m.pos m.column (m.sz % 2 ^ 16);
  s = Stringbag.store m.sz value m.s;
}

-- The second loop
unfoldable pub copy_changes : Row → ℕ → Changes → Making → Making
unfolding fill put_change
copy_changes r ncol [] m = fill r ncol m
copy_changes r ncol (change ∷ changes) m =
    let filled : Making = fill r (change.0) m in
    let rest : Making = copy_changes r ncol changes (put_change (change.1) filled) in
    if filled.column == ncol then filled else rest

-- The new row, and the size that was allocated for it
unfoldable pub update : Row → Changes → ℕ → Row → ℕ × Row
unfolding size measure copy_changes copy
update r changes timestamp fresh =
    let measured : ℕ × ℕ = measure r changes r.ncol (size r) in
    let ncol : ℕ = measured.0 in
    let sz : ℕ =
      if ltb r.ncol ncol then u64 (measured.1 + (ncol - r.ncol) * offset_size) else measured.1 in
    let first : ℕ × List ℕ = get_or changes 0 (0, []) in
    if (ncol == r.ncol) && (sz == size r) && (length changes == 1) && leb (length (first.1)) 16
    then (
      sz,
      record {
        timestamp = timestamp;
        ncol = r.ncol;
        pos = copy fresh.pos 0 r.pos 0 (r.ncol + 1);
        s =
            Stringbag.store (r.pos (first.0)) (first.1)
              (copy fresh.s 0 r.s 0 (sz - timestamp_size));
      },
    )
    else (let made : Making = copy_changes r ncol changes (record {
      column = 0;
      sz = bagdata_size + ncol * offset_size;
      pos = fresh.pos;
      s = fresh.s;
    }) in
        (
          sz,
          record {
            timestamp = timestamp;
            ncol = ncol;
            pos = Internode.store made.pos ncol (made.sz % 2 ^ 16);
            s = made.s;
          },
        ))

unfoldable pub create : Changes → ℕ → Row → ℕ × Row
unfolding update value_bag
create changes timestamp fresh = update (value_bag fresh.s) changes timestamp fresh

unfoldable pub create1 : List ℕ → ℕ → Row → Row
create1 str timestamp fresh = record {
  timestamp = timestamp;
  ncol = 1;
  pos =
      Internode.store (Internode.store fresh.pos 0 (bagdata_size + offset_size)) 1
        ((bagdata_size + offset_size + length str) % 2 ^ 16);
  s = Stringbag.store (bagdata_size + offset_size) str fresh.s;
}
