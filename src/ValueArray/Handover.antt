-- ===== src/ValueArray/Handover.antt =====
-- From an old row to the one made from it.
use mathlib.Core.Bool.{true≢false}
use incll.Base.{
  ℕ, ◌+◌, ◌≤◌, ◌<◌, ◌≡◌, ◌≢◌, ◌⊎◌, inl, inr, refl, sym, ap, ◌∙◌, arith, max, true, false, ltb, ◌==◌,
  ==_iff, ==_ne, if◌then◌else◌, Bool-cases, le_or_lt, Option, none, some, [],
}
use incll.ValueBag.{Changes}
use incll.ValueBag.Layout.{IsIncreasing}
use incll.ValueArray.{
  Heap, Array, array_col, put_columns, last_column, update_array, freed_after_update,
}
use incll.ValueArray.Share.{changed, IsIn, IsArray, IsPut, none≢some, put_columns-IsPut}
use incll.ValueArray.Distinct.{put_columns_distinct}
use incll.ValueArray.Free.{changed_last, freed-changed, changed-freed}

abbrev pub or_else : {A : Type 0} → Option A → A → A
or_else none a = a
or_else (some b) a = b

-- The new row is well-formed, and has what was changed and else what the old one has; of the columns of the old row
-- those are freed that the new one does not use.
pub record IsHandover (h : Heap) (r : Array) (changes : Changes) (h' : Heap) (new : Array)
    : Type 0 where
  pub valid : IsArray h' new
  pub columns : (i : ℕ) → array_col h' new i ≡ or_else (changed changes i) (array_col h r i)
  pub in_use :
      (i : ℕ) → i < new.ncol → new.cols i ≢ 0 → IsIn (new.cols i) (freed_after_update r changes) → ⊥
  pub no_leak :
      (i : ℕ)
      → i < r.ncol
      → r.cols i ≢ 0
      → IsIn (r.cols i) (freed_after_update r changes) ⊎ (new.cols i ≡ r.cols i)

array_col-null : (h : Heap) (r : Array) (i : ℕ) → r.cols i ≡ 0 → array_col h r i ≡ []
unfolding array_col
array_col-null h r i e = elim (Bool-cases (ltb i r.ncol)) [
  | inl b ↦ let z : (r.cols i == 0) ≡ true = (==_iff _ 0).1 e in rw (b, z) refl
  | inr b ↦ rw b refl
]

array_col-beyond : (h : Heap) (r : Array) (i : ℕ) → r.ncol ≤ i → array_col h r i ≡ []
unfolding array_col
array_col-beyond h r i l = let b : ltb i r.ncol ≡ false = ground (arith, l) in rw b refl

array_col-string :
    (h : Heap) (r : Array) (i : ℕ)
    → i < r.ncol
    → r.cols i ≢ 0
    → array_col h r i ≡ h.string (r.cols i)
unfolding array_col
array_col-string h r i l e =
    let b : ltb i r.ncol ≡ true = ground (arith, l) in rw (b, ==_ne (r.cols i) 0 e) refl

module _ (h : Heap) (r : Array) (row : IsArray h r) (changes : Changes)
    (inc : IsIncreasing 0 changes) (timestamp : ℕ) where
  abbrev start : ℕ → ℕ
  start i = if ltb i r.ncol then r.cols i else 0

  abbrev end : Heap
  end = (put_columns changes start h).1

  abbrev new : Array
  new = record {
    timestamp = timestamp;
    ncol = max r.ncol (last_column changes 0 + 1);
    cols = (put_columns changes start h).0;
  }

  abbrev put : IsPut changes start h new.cols end
  put = put_columns-IsPut changes 0 start h inc

  start_old : (i : ℕ) → i < r.ncol → start i ≡ r.cols i
  start_old i l = let b : ltb i r.ncol ≡ true = ground (arith, l) in rw b refl

  start_beyond : (i : ℕ) → r.ncol ≤ i → start i ≡ 0
  start_beyond i l = let b : ltb i r.ncol ≡ false = ground (arith, l) in rw b refl

  column_of : (i : ℕ) → array_col end new i ≡ or_else (changed changes i) (array_col h r i)
  column_of i = elim (put.column i) [
    | inl (unchanged, same) ↦ rw unchanged (elim (le_or_lt i r.ncol) [
      | inr l ↦ array_col-null end new i (same ∙ start_beyond i l) ∙ sym (array_col-beyond h r i l)
      | inl l ↦
          let at : new.cols i ≡ r.cols i = same ∙ start_old i l in
          elim (Bool-cases (r.cols i == 0)) [
            | inl z ↦
                let null : r.cols i ≡ 0 = (==_iff _ 0).0 z in
                array_col-null end new i (at ∙ null) ∙ sym (array_col-null h r i null)
            | inr z ↦
                let there : r.cols i ≢ 0 = λ e. true≢false (sym ((==_iff _ 0).1 e) ∙ z) in
                array_col-string end new i (omega (arith, l)) (λ e. there (sym at ∙ e))
                ∙ ap end.string at
                ∙ put.keeps (r.cols i) (row.allocated i l)
                ∙ sym (array_col-string h r i l there)
          ]
    ])
    | inr (v, is, inl (null, empty)) ↦ rw is (array_col-null end new i null ∙ sym empty)
    | inr (v, is, inr (fresh, below, string)) ↦
        let inside : i < new.ncol = omega (arith, changed_last changes 0 i v 0 inc is) in
        rw is (
          array_col-string end new i inside
            (λ e. absurd (omega (arith, e, fresh, row.some_address)))
          ∙ string)
  ]

  below_end : (i : ℕ) → new.cols i < end.next
  below_end i = elim (put.column i) [
    | inl (unchanged, same) ↦ elim (le_or_lt i r.ncol) [
      | inl l ↦ omega (arith, same, start_old i l, row.allocated i l, put.grows)
      | inr l ↦ omega (arith, same, start_beyond i l, row.some_address, put.grows)
    ]
    | inr (v, is, inl (null, empty)) ↦ omega (arith, null, row.some_address, put.grows)
    | inr (v, is, inr (fresh, below, string)) ↦ below
  ]

  -- A column that is not changed is an old one, unless it is null.
  old_column :
      (i : ℕ) → new.cols i ≡ start i → new.cols i ≢ 0 → (i < r.ncol) × (new.cols i ≡ r.cols i)
  old_column i same there = elim (le_or_lt i r.ncol) [
    | inl l ↦ (l, same ∙ start_old i l)
    | inr l ↦ absurd (there (same ∙ start_beyond i l))
  ]

  two_strings : (i j : ℕ) → new.cols i ≢ 0 → new.cols i ≡ new.cols j → i ≡ j
  two_strings i j there e =
      let other : new.cols j ≢ 0 = λ z. there (e ∙ z) in
      elim (put.column i) [
        | inl (unchanged, same) ↦
            let a = old_column i same there in
            elim (put.column j) [
              | inl (unchanged2, same2) ↦
                  let b = old_column j same2 other in
                  row.distinct i j a.0 b.0 (λ z. there (a.1 ∙ z)) (sym a.1 ∙ e ∙ b.1)
              | inr (v, is, inl (null, empty)) ↦ absurd (other null)
              | inr (v, is, inr (fresh, below, string)) ↦
                  absurd (omega (arith, fresh, e, a.1, row.allocated i a.0))
            ]
        | inr (v, is, inl (null, empty)) ↦ absurd (there null)
        | inr (v, is, inr (fresh, below, string)) ↦ elim (put.column j) [
          | inl (unchanged, same) ↦
              let b = old_column j same other in
              absurd (omega (arith, fresh, e, b.1, row.allocated j b.0))
          | inr (v2, is2, new2) ↦
              put_columns_distinct changes 0 start h inc i j (λ z. none≢some (sym z ∙ is))
                (λ z. none≢some (sym z ∙ is2)) there e
        ]
      ]

  valid_of : IsArray end new
  valid_of = record {
    some_address = omega (arith, row.some_address, put.grows);
    allocated = λ i l. below_end i;
    distinct = λ i j l m there e. two_strings i j there e;
  }

  not_freed :
      (i : ℕ) → i < new.ncol → new.cols i ≢ 0 → IsIn (new.cols i) (freed_after_update r changes) → ⊥
  not_freed i l there freed =
      let (c, v, is, inside, at) = freed-changed r changes 0 (new.cols i) inc freed in
      elim (put.column i) [
        | inl (unchanged, same) ↦ elim (le_or_lt i r.ncol) [
          | inr b ↦ there (same ∙ start_beyond i b)
          | inl b ↦
              let old : r.cols i ≡ r.cols c = sym (same ∙ start_old i b) ∙ at in
              let e : i ≡ c = row.distinct i c b inside (λ z. there (at ∙ sym old ∙ z)) old in
              none≢some (sym unchanged ∙ ap (changed changes) e ∙ is)
        ]
        | inr (u, new_is, inl (null, empty)) ↦ there null
        | inr (u, new_is, inr (fresh, below, string)) ↦
            absurd (omega (arith, fresh, at, row.allocated c inside))
      ]

  kept_or_freed :
      (i : ℕ)
      → i < r.ncol
      → r.cols i ≢ 0
      → IsIn (r.cols i) (freed_after_update r changes) ⊎ (new.cols i ≡ r.cols i)
  kept_or_freed i l there = elim (put.column i) [
    | inl (unchanged, same) ↦ inr (same ∙ start_old i l)
    | inr (v, is, fresh) ↦ inl (changed-freed r changes 0 i v inc is l there)
  ]

-- For a row whose columns are allocated strings, no two the same, and changes of increasing
-- columns: the row that `update` makes is such a row again. It has the new values and else those of
-- the old row. After it `deallocate_rcu_after_update` of the old row frees none of the strings of
-- the new one, and each string of the old row that it does not free is a column of the new one.
pub update_array-IsHandover :
    (h : Heap) (r : Array)
    → IsArray h r
    → (changes : Changes) → IsIncreasing 0 changes
    → (timestamp : ℕ)
    → IsHandover h r changes
        ((update_array r changes timestamp h).1)
        ((update_array r changes timestamp h).0)
unfolding update_array
update_array-IsHandover h r row changes inc timestamp = record {
  valid = valid_of h r row changes inc timestamp;
  columns = column_of h r row changes inc timestamp;
  in_use = not_freed h r row changes inc timestamp;
  no_leak = kept_or_freed h r row changes inc timestamp;
}
