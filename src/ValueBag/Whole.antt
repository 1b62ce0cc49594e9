-- ===== src/ValueBag/Whole.antt =====
-- `update` as a whole.
use incll.Base.{
  ℕ, ◌+◌, ◌-◌, ◌*◌, ◌^◌, ◌≤◌, ◌<◌, ◌≡◌, refl, sym, ap, ◌∙◌, arith, max, Bool, true, false, ltb,
  if◌then◌else◌, List, [], ◌∷◌, length, get_or, u64, sub64,
}
use mathlib.Core.Path.{subst}
use incll.Internode.{copy}
use incll.Stringbag
use incll.ValueBag.{
  Row, Changes, Making, size, column_length, measure, copy_changes, update, bagdata_size,
  offset_size, timestamp_size,
}
use incll.ValueBag.Layout.{IsRow, IsIncreasing, wanted, place}
use incll.ValueBag.Progress.{IsMade}
use incll.ValueBag.Change.{IsWithin, measure-IsWithin, copy_changes-IsMade}
use incll.ValueBag.Update.{IsUpdated, made-IsUpdated}
use incll.ValueBag.Replace.{same_length, replaced-IsUpdated}

-- The number of columns after an update
abbrev pub columns : ℕ → Changes → ℕ
columns n [] = n
columns n (change ∷ changes) = columns (max n (change.0 + 1)) changes

-- The first loop computes it.
pub measure-columns :
    (r : Row) (changes : Changes) (lo ncol sz : ℕ)
    → IsIncreasing lo changes
    → r.ncol ≤ ncol
    → (r.ncol < ncol → ncol ≤ lo)
    → (measure r changes ncol sz).0 ≡ columns ncol changes
unfolding measure
measure-columns r [] lo ncol sz inc h l = refl
measure-columns r (change ∷ changes) lo ncol sz inc h l =
    let next : ℕ = if ltb (change.0) r.ncol then ncol else change.0 + 1 in
    let e : next ≡ max ncol (change.0 + 1) = ground (arith, l, h, inc.0) in
    measure-columns r changes (change.0 + 1) next _ inc.1 (omega (arith, e, h))
      (λ k. ground (arith, l, inc.0, h))
    ∙ ap (λ n. columns n changes) e

pub if_both :
    {A : Type 0} (P : A → Type 0) (b : Bool) (x y : A)
    → (b ≡ true → P x)
    → (b ≡ false → P y)
    → P (if b then x else y)
if_both P true x y f g = f refl
if_both P false x y f g = g refl

module _ (r : Row) (row : IsRow r) (timestamp : ℕ) (fresh : Row) where
  abbrev replaced : ℕ × List ℕ → ℕ → Row
  replaced change sz = record {
    timestamp = timestamp;
    ncol = r.ncol;
    pos = copy fresh.pos 0 r.pos 0 (r.ncol + 1);
    s = Stringbag.store (r.pos (change.0)) (change.1) (copy fresh.s 0 r.s 0 (sz - timestamp_size));
  }

  -- The short cut is taken for a single change that keeps the size.
  short_cut :
      (changes : Changes) (ncol sz : ℕ)
      → IsWithin ncol changes
      → ncol ≡ r.ncol
      → sz ≡ size r
      → sz ≡ (measure r changes r.ncol (size r)).1
      → length changes ≡ 1
      → length ((get_or changes 0 (0, [])).1) ≤ 16
      → IsUpdated r changes timestamp ncol (replaced (get_or changes 0 (0, [])) sz)
  unfolding measure size
  short_cut [] ncol sz within same kept measured one short = absurd (omega (arith, one))
  short_cut ((c, v) ∷ []) ncol sz within same kept measured one short =
      let inside : c < r.ncol = omega (arith, within.0, same) in
      let flag : ltb c r.ncol ≡ true = ground (arith, inside) in
      let exact : sub64 (u64 (size r + length v)) (column_length r c) ≡ size r =
        sym (
          measured
          ∙ ap
              (λ b.
                if b
                then sub64 (u64 (size r + length v)) (column_length r c)
                else u64 (size r + length v))
              flag)
        ∙ kept in
      subst (λ n. IsUpdated r ((c, v) ∷ []) timestamp n (replaced (c, v) sz)) (sym same)
        (replaced-IsUpdated r row c v inside (same_length r row c v inside short exact) timestamp
          (sz - timestamp_size) fresh (omega (arith, kept)))
  short_cut (c ∷ (d ∷ changes)) ncol sz within same kept measured one short =
      absurd (omega (arith, one))

  -- For a row of `value_bag` and changes of increasing columns such that the new row fits in 2 ^ 16
  -- bytes, `update` makes a row again, by the short cut or by copying. It has the new timestamp,
  -- the columns of the old row and all those up to the last change; each column that is changed
  -- has its new value, each other one of the old row is as it was, and the rest are empty.
  pub update_lem :
      (changes : Changes)
      → IsIncreasing 0 changes
      → place (wanted r changes) (columns r.ncol changes) (columns r.ncol changes) < 2 ^ 16
      → IsUpdated r changes timestamp
          (columns r.ncol changes)
          ((update r changes timestamp fresh).1)
  unfolding update
  update_lem changes inc fits =
      let measured : ℕ × ℕ = measure r changes r.ncol (size r) in
      let n : measured.0 ≡ columns r.ncol changes =
        measure-columns r changes 0 r.ncol (size r) inc (omega arith) (λ h. omega (arith, h)) in
      let w =
        measure-IsWithin r changes 0 r.ncol (size r) inc (omega arith) (λ h. omega (arith, h)) in
      let fit : place (wanted r changes) (measured.0) (measured.0) < 2 ^ 16 =
        subst (λ x. place (wanted r changes) x x < 2 ^ 16) (sym n) fits in
      let ncol : ℕ = measured.0 in
      let sz : ℕ =
        if ltb r.ncol ncol then u64 (measured.1 + (ncol - r.ncol) * offset_size) else measured.1 in
      subst (λ k. IsUpdated r changes timestamp k ((update r changes timestamp fresh).1)) n
        (if_both (λ (x : ℕ × Row). IsUpdated r changes timestamp ncol (x.1)) _ _ _
          (λ e.
            let same : ncol ≡ r.ncol = ground (arith, e) in
            let kept : sz ≡ size r = ground (arith, e) in
            let exact : sz ≡ measured.1 = ground (arith, same) in
            let one : length changes ≡ 1 = ground (arith, e) in
            let short : length ((get_or changes 0 (0, [])).1) ≤ 16 = ground (arith, e) in
            short_cut changes ncol sz w.1 same kept exact one short)
          (λ e.
            let start : Making = record {
              column = 0;
              sz = bagdata_size + ncol * offset_size;
              pos = fresh.pos;
              s = fresh.s;
            } in
            let begun : IsMade (wanted r changes) ncol fit start = record {
              inside = omega arith;
              ends = refl;
              places = λ j h. absurd (omega (arith, h));
              bytes = λ j h. absurd (omega (arith, h));
            } in
            let made =
              copy_changes-IsMade (wanted r changes) ncol fit r row changes start begun inc w.1
                (λ j a b. refl) in
            made-IsUpdated r changes timestamp ncol w.1 w.0 fit (copy_changes r ncol changes start)
              made.0 made.1))
