-- ===== src/ValueBag/Copying.antt =====
-- The columns that `update` copies from the old row.
use incll.Base.{
  ℕ, zero, suc, ◌+◌, ◌-◌, ◌%◌, ◌^◌, ◌≤◌, ◌<◌, ◌≡◌, inl, inr, refl, sym, ap, ◌∙◌, arith, true, false,
  ltb, leb, ◌==◌, ==_iff, if◌then◌else◌, List, length, Bool-cases, le_or_lt, u64, sub64,
}
use incll.Internode.{copy}
use incll.Slice.{load}
use incll.ValueBag.{Row, Making, col, move_places}
use incll.ValueBag.Layout.{IsRow, place, load_ext, pos_le, col-load, length-col}
use incll.ValueBag.Progress.{IsMade, small, kept}

module _ (want : ℕ → List ℕ) (ncol : ℕ) (fits : place want ncol ncol < 2 ^ 16) (r : Row)
    (row : IsRow r) (m : Making) (made : IsMade want ncol fits m) (end : ℕ) (le : end ≤ ncol)
    (old : end ≤ r.ncol) (some : m.column < end)
    (same : (j : ℕ) → m.column ≤ j → j < end → want j ≡ col r j) where
  abbrev from : ℕ
  from = r.pos (m.column)

  -- The copied columns stand as far behind each other as they did.
  place_shift :
      (d : ℕ)
      → m.column + d ≤ end
      → place want ncol (m.column + d) + from ≡ m.sz + r.pos (m.column + d)
  place_shift zero h =
      let e : m.column + 0 ≡ m.column = omega arith in rw e (omega (arith, made.ends))
  place_shift (suc d) h =
      let e : m.column + suc d ≡ suc (m.column + d) = omega arith in
      let e1 : m.column + d + 1 ≡ suc (m.column + d) = omega arith in
      let len : length (want (m.column + d)) ≡ r.pos (suc (m.column + d)) - r.pos (m.column + d) =
        ap length (same (m.column + d) (omega arith) (omega (arith, h)))
        ∙ length-col r row (m.column + d) (omega (arith, h, old))
        ∙ ap (λ x. r.pos x - r.pos (m.column + d)) e1 in
      let up =
        pos_le r row (m.column + d) (suc (m.column + d)) (omega arith) (omega (arith, h, old)) in
      rw e (omega (arith, place_shift d (omega (arith, h)), len, up))

  place_copied : (j : ℕ) → m.column ≤ j → j ≤ end → place want ncol j + from ≡ m.sz + r.pos j
  place_copied j h l =
      let e : m.column + (j - m.column) ≡ j = omega (arith, h) in
      omega (
        arith,
        place_shift (j - m.column) (omega (arith, h, l)),
        ap (place want ncol) e,
        ap r.pos e,
      )

  abbrev delta : ℕ
  delta = sub64 m.sz from

  moved : (j : ℕ) → m.column ≤ j → j < end → (r.pos j + delta) % 2 ^ 16 ≡ place want ncol j
  moved j h l = omega (
    arith,
    place_copied j h (omega (arith, l)),
    small want ncol fits j (omega (arith, l, le)),
    small want ncol fits m.column (made.inside),
    made.ends,
    pos_le r row m.column j h (omega (arith, l, old)),
    pos_le r row j r.ncol (omega (arith, l, old)) (omega arith),
    row.fits,
  )

  in_place : (j : ℕ) → delta ≡ 0 → m.column ≤ j → j < end → r.pos j ≡ place want ncol j
  in_place j z h l = omega (
    arith,
    z,
    place_copied j h (omega (arith, l)),
    small want ncol fits m.column (made.inside),
    made.ends,
    pos_le r row m.column r.ncol (omega (arith, some, old)) (omega arith),
    row.fits,
  )

  abbrev amt : ℕ
  amt = sub64 (r.pos end) from

  amt_lem : amt ≡ r.pos end - from
  amt_lem = omega (
    arith,
    pos_le r row m.column end (omega (arith, some)) old,
    pos_le r row end r.ncol old (omega arith),
    row.fits,
  )

  place_end : m.sz + amt ≡ place want ncol end
  place_end = omega (
    arith,
    amt_lem,
    place_copied end (omega (arith, some)) (omega arith),
    pos_le r row m.column end (omega (arith, some)) old,
  )

  copied_places :
      (j : ℕ)
      → j < end
      → copy m.pos m.column r.pos m.column (end - m.column) j
        ≡ (if leb m.column j then r.pos j else m.pos j)
  unfolding copy
  copied_places j h =
      let last : ltb j (m.column + (end - m.column)) ≡ true = ground (arith, h, some) in
      elim (Bool-cases (leb m.column j)) [
        | inl e ↦
            let at : m.column + (j - m.column) ≡ j = ground (arith, e) in rw (e, last, at) refl
        | inr e ↦ rw e refl
      ]

  places_of :
      (pos : ℕ → ℕ)
      → ((j : ℕ) → m.column ≤ j → j < end → pos j ≡ place want ncol j)
      → ((j : ℕ) → j < m.column → pos j ≡ m.pos j)
      → (j : ℕ) → j < end
      → pos j ≡ place want ncol j
  places_of pos new same j h = elim (le_or_lt j m.column) [
    | inl l ↦ same j l ∙ made.places j l
    | inr l ↦ new j l h
  ]

  pos_copied :
      (j : ℕ)
      → j < end
      → (if delta == 0
            then copy m.pos m.column r.pos m.column (end - m.column)
            else move_places m.pos r.pos m.column end delta)
          j
        ≡ place want ncol j
  unfolding move_places
  pos_copied = elim (Bool-cases (delta == 0)) [
    | inl z ↦
        let nothing : delta ≡ 0 = (==_iff delta 0).0 z in
        rw z (
          places_of _
            (λ j l h.
              let e : leb m.column j ≡ true = ground (arith, l) in
              copied_places j h
              ∙ ap (λ b. if b then r.pos j else m.pos j) e
              ∙ in_place j nothing l h)
            (λ j l.
              let e : leb m.column j ≡ false = ground (arith, l) in
              copied_places j (omega (arith, l, some))
              ∙ ap (λ b. if b then r.pos j else m.pos j) e))
    | inr z ↦ rw z (
        places_of _
          (λ j l h.
            let e : leb m.column j ≡ true = ground (arith, l) in
            let f : ltb j end ≡ true = ground (arith, h) in rw (e, f) (moved j l h))
          (λ j l. let e : leb m.column j ≡ false = ground (arith, l) in rw e refl))
  ]

  abbrev bytes_copied : ℕ → ℕ
  bytes_copied = copy m.s m.sz r.s from amt

  copied_before : (x : ℕ) → x < m.sz → bytes_copied x ≡ m.s x
  unfolding copy
  copied_before x h = let e : leb m.sz x ≡ false = ground (arith, h) in rw e refl

  copied_within : (y : ℕ) → y < amt → bytes_copied (m.sz + y) ≡ r.s (from + y)
  unfolding copy
  copied_within y h =
      let e : leb m.sz (m.sz + y) ≡ true = ground arith in
      let f : ltb (m.sz + y) (m.sz + amt) ≡ true = ground (arith, h) in
      let g : m.sz + y - m.sz ≡ y = omega arith in rw (e, f, g) refl

  copied_column :
      (j : ℕ)
      → m.column ≤ j
      → j < end
      → load bytes_copied (place want ncol j) (length (want j)) ≡ want j
  copied_column j h l =
      let inside : j < r.ncol = omega (arith, l, old) in
      let e : want j ≡ load r.s (r.pos j) (r.pos (j + 1) - r.pos j) =
        same j h l ∙ col-load r row j inside in
      let len : length (want j) ≡ r.pos (j + 1) - r.pos j =
        ap length (same j h l) ∙ length-col r row j inside in
      let low = pos_le r row m.column j h (omega (arith, inside)) in
      let mid = row.ordered j inside in
      let high = pos_le r row (j + 1) end (omega (arith, l)) old in
      let at = place_copied j h (omega (arith, l)) in
      ap (load bytes_copied (place want ncol j)) len
      ∙ load_ext bytes_copied r.s (place want ncol j) (r.pos j) (r.pos (j + 1) - r.pos j) (λ i q.
        let there : place want ncol j + i ≡ m.sz + (r.pos j - from + i) = omega (arith, at, low) in
        let back : from + (r.pos j - from + i) ≡ r.pos j + i = omega (arith, low) in
        ap bytes_copied there
        ∙ copied_within (r.pos j - from + i) (omega (arith, q, low, mid, high, amt_lem))
        ∙ ap r.s back)
      ∙ sym e

  pub IsMade-copied : IsMade want ncol fits (record {
    column = end;
    sz = u64 (m.sz + amt);
    pos =
        if delta == 0
        then copy m.pos m.column r.pos m.column (end - m.column)
        else move_places m.pos r.pos m.column end delta;
    s = bytes_copied;
  })
  IsMade-copied = record {
    inside = le;
    ends = omega (arith, place_end, small want ncol fits end le);
    places = pos_copied;
    bytes = λ j h. elim (le_or_lt j m.column) [
      | inl l ↦ kept want ncol fits m bytes_copied made copied_before j l
      | inr l ↦ copied_column j l h
    ];
  }
