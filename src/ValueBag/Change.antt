-- ===== src/ValueBag/Change.antt =====
-- The loop of `update` over the changes.
use incll.Base.{
  ℕ, ◌+◌, ◌-◌, ◌^◌, ◌≤◌, ◌<◌, ◌≡◌, inl, inr, refl, sym, ap, ◌∙◌, arith, min, not, ◌&&◌, Bool, false,
  ltb, ◌==◌, ==_refl, if◌then◌else◌, List, [], ◌∷◌, length, Bool-cases, u64, sub64,
}
use mathlib.Core.Path.{subst}
use incll.ValueBag.{
  column_length, Row, Changes, Making, col, measure, copy_old, fill, put_change, copy_changes,
}
use incll.ValueBag.Layout.{IsRow, IsIncreasing, wanted, place, col_beyond}
use incll.ValueBag.Progress.{IsMade, mark_empty-IsMade, put_change-IsMade}
use incll.ValueBag.Copying.{IsMade-copied}

-- All the columns to change are below `ncol`.
abbrev pub IsWithin : ℕ → Changes → Type 0
IsWithin ncol [] = Unit
IsWithin ncol (change ∷ changes) = (change.0 < ncol) × IsWithin ncol changes

IsWithin-larger : (changes : Changes) (n m : ℕ) → n ≤ m → IsWithin n changes → IsWithin m changes
IsWithin-larger [] n m h w = tt
IsWithin-larger (change ∷ changes) n m h w =
    (omega (arith, h, w.0), IsWithin-larger changes n m h w.1)

-- The first loop finds a number of columns that has room for all changes.
pub measure-IsWithin :
    (r : Row) (changes : Changes) (lo ncol sz : ℕ)
    → IsIncreasing lo changes
    → r.ncol ≤ ncol
    → (r.ncol < ncol → ncol ≤ lo)
    → (ncol ≤ (measure r changes ncol sz).0) × IsWithin ((measure r changes ncol sz).0) changes
unfolding measure
measure-IsWithin r [] lo ncol sz inc h l = (omega arith, tt)
measure-IsWithin r (change ∷ changes) lo ncol sz inc h l =
    let Both : Bool → Type 0 = λ b.
      let n : ℕ =
        (measure r changes (if b then ncol else change.0 + 1) (
          if b
          then sub64 (u64 (sz + length (change.1))) (column_length r (change.0))
          else u64 (sz + length (change.1)))).0 in
      (ncol ≤ n) × IsWithin n (change ∷ changes) in
    elim (Bool-cases (ltb (change.0) r.ncol)) [
      | inl e ↦
          let lt : change.0 < r.ncol = ground (arith, e) in
          let rest =
            measure-IsWithin r changes (change.0 + 1) ncol _ inc.1 h
              (λ k. omega (arith, l k, inc.0)) in
          subst Both (sym e) (rest.0, (omega (arith, lt, h, rest.0), rest.1))
      | inr e ↦
          let le : r.ncol ≤ change.0 = ground (arith, e) in
          let rest =
            measure-IsWithin r changes (change.0 + 1) (change.0 + 1) _ inc.1 (omega (arith, le))
              (λ k. omega arith) in
          let grown : ncol ≤ change.0 + 1 = ground (arith, l, inc.0, h, le) in
          subst Both (sym e) (omega (arith, grown, rest.0), (omega (arith, rest.0), rest.1))
    ]

-- Columns before those to change stay.
pub wanted_before :
    (r : Row) (changes : Changes) (lo j : ℕ)
    → IsIncreasing lo changes
    → j < lo
    → wanted r changes j ≡ col r j
wanted_before r [] lo j inc h = refl
wanted_before r (change ∷ changes) lo j inc h =
    let e : (change.0 == j) ≡ false = ground (arith, inc.0, h) in
    rw e (wanted_before r changes (change.0 + 1) j inc.1 (omega (arith, inc.0, h)))

module _ (want : ℕ → List ℕ) (ncol : ℕ) (fits : place want ncol ncol < 2 ^ 16) (r : Row)
    (row : IsRow r) where
  copy_old-IsMade :
      (this_col : ℕ) (m : Making)
      → IsMade want ncol fits m
      → m.column ≤ this_col
      → this_col ≤ ncol
      → ((j : ℕ) → m.column ≤ j → j < this_col → want j ≡ col r j)
      → IsMade want ncol fits (copy_old r this_col m)
        × (m.column ≤ (copy_old r this_col m).column)
        × ((copy_old r this_col m).column ≤ this_col)
        × ((copy_old r this_col m).column < this_col → r.ncol ≤ (copy_old r this_col m).column)
  unfolding copy_old
  copy_old-IsMade this_col m made le top same =
      elim (Bool-cases (not (m.column == this_col) && ltb m.column r.ncol)) [
        | inl e ↦
            let end : ℕ = min this_col r.ncol in
            let below : end ≤ ncol = omega (arith, top) in
            let old : end ≤ r.ncol = omega arith in
            let lt : m.column < end = ground (arith, e, le) in
            rw e (
              IsMade-copied want ncol fits r row m made end below old lt
                  (λ j a b. same j a (omega (arith, b))),
              omega (arith, lt),
              omega arith,
              λ l. omega (arith, l),
            )
        | inr e ↦ rw e (made, omega arith, le, λ l. ground (arith, e, l))
      ]

  fill-IsMade :
      (this_col : ℕ) (m : Making)
      → IsMade want ncol fits m
      → m.column ≤ this_col
      → this_col ≤ ncol
      → ((j : ℕ) → m.column ≤ j → j < this_col → want j ≡ col r j)
      → IsMade want ncol fits (fill r this_col m) × ((fill r this_col m).column ≡ this_col)
  unfolding fill
  fill-IsMade this_col m made le top same =
      let c = copy_old-IsMade this_col m made le top same in
      let copied : Making = copy_old r this_col m in
      let e =
        mark_empty-IsMade want ncol fits (this_col - copied.column) copied c.0
          (omega (arith, c.2, top))
          (λ j a b.
            let inside : j < this_col = omega (arith, b, c.2) in
            same j (omega (arith, a, c.1)) inside
            ∙ col_beyond r j (omega (arith, c.3 (omega (arith, a, inside)), a))) in
      (e.0, omega (arith, e.1, c.2))

  pub copy_changes-IsMade :
      (changes : Changes) (m : Making)
      → IsMade want ncol fits m
      → IsIncreasing m.column changes
      → IsWithin ncol changes
      → ((j : ℕ) → m.column ≤ j → j < ncol → want j ≡ wanted r changes j)
      → IsMade want ncol fits (copy_changes r ncol changes m)
        × ((copy_changes r ncol changes m).column ≡ ncol)
  unfolding copy_changes put_change
  copy_changes-IsMade [] m made inc within same =
      fill-IsMade ncol m made made.inside (omega arith) same
  copy_changes-IsMade (change ∷ changes) m made inc within same =
      let c : ℕ = change.0 in
      let f = fill-IsMade c m made inc.0 (omega (arith, within.0)) (λ j a b.
        let e : (c == j) ≡ false = ground (arith, b) in
        same j a (omega (arith, b, within.0))
        ∙ ap (λ x. if x then change.1 else wanted r changes j) e
        ∙ wanted_before r changes (c + 1) j inc.1 (omega (arith, b))) in
      let filled : Making = fill r c m in
      let more : (filled.column == ncol) ≡ false = ground (arith, f.1, within.0) in
      let new : want filled.column ≡ change.1 =
        ap want f.1
        ∙ same c inc.0 within.0
        ∙ ap (λ x. if x then change.1 else wanted r changes c) (==_refl c) in
      let put =
        put_change-IsMade want ncol fits filled (change.1) f.0 (omega (arith, f.1, within.0)) new in
      rw more (
        copy_changes-IsMade changes (put_change (change.1) filled) put
          (subst (λ x. IsIncreasing (x + 1) changes) (sym f.1) inc.1) within.1
          (λ j a b.
            let e : (c == j) ≡ false = ground (arith, a, f.1) in
            same j (omega (arith, a, f.1, inc.0)) b
            ∙ ap (λ x. if x then change.1 else wanted r changes j) e))
