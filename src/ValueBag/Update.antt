-- ===== src/ValueBag/Update.antt =====
-- What an update makes of a row.
use incll.Base.{
  ℕ, suc, ◌+◌, ◌-◌, ◌%◌, ◌^◌, ◌≤◌, ◌<◌, ◌≡◌, inl, inr, refl, sym, ap, ap₂, ◌∙◌, arith, false, ◌==◌,
  ==_iff, List, [], ◌∷◌, length, Bool-cases, le_or_lt,
}
use incll.Internode.{copy}
use incll.Internode
use incll.Slice.{load}
use incll.ValueBag.{Row, Changes, Making, col}
use incll.ValueBag.Layout.{IsRow, header, wanted, place, col-load, col_beyond}
use incll.ValueBag.Progress.{IsMade}
use incll.ValueBag.Change.{IsWithin}

-- What an update of a row should come to
pub record IsUpdated (r : Row) (changes : Changes) (timestamp ncol : ℕ) (new : Row) : Type 0 where
  pub valid : IsRow new
  pub time : new.timestamp ≡ timestamp
  pub count : new.ncol ≡ ncol
  pub columns : (i : ℕ) → col new i ≡ wanted r changes i

wanted_beyond :
    (r : Row) (changes : Changes) (ncol i : ℕ)
    → IsWithin ncol changes
    → r.ncol ≤ ncol
    → ncol ≤ i
    → wanted r changes i ≡ []
wanted_beyond r [] ncol i within h l = col_beyond r i (omega (arith, h, l))
wanted_beyond r (change ∷ changes) ncol i within h l =
    let e : (change.0 == i) ≡ false = ground (arith, within.0, l) in
    rw e (wanted_beyond r changes ncol i within.1 h l)

module _ (r : Row) (changes : Changes) (timestamp ncol : ℕ) (within : IsWithin ncol changes)
    (more : r.ncol ≤ ncol) where
  abbrev want : ℕ → List ℕ
  want = wanted r changes

  -- A row whose places are those wanted, with the bytes there
  pub placed-IsUpdated :
      (new : Row)
      → new.timestamp ≡ timestamp
      → new.ncol ≡ ncol
      → place want ncol ncol < 2 ^ 16
      → ((i : ℕ) → i ≤ ncol → new.pos i ≡ place want ncol i)
      → ((i : ℕ) → i < ncol → load new.s (place want ncol i) (length (want i)) ≡ want i)
      → IsUpdated r changes timestamp ncol new
  placed-IsUpdated new time count fits places bytes =
      let valid : IsRow new = record {
        first = places 0 (omega arith) ∙ ap header (sym count);
        ordered = λ i h.
            let e : i + 1 ≡ suc i = omega arith in
            omega (
              arith,
              places i (omega (arith, h, count)),
              places (i + 1) (omega (arith, h, count)),
              ap (place want ncol) e,
            );
        fits = omega (arith, places ncol (omega arith), ap new.pos count, fits);
      } in
      record {
        valid = valid;
        time = time;
        count = count;
        columns = λ i. elim (le_or_lt i ncol) [
          | inl h ↦
              let e : i + 1 ≡ suc i = omega arith in
              let len : new.pos (i + 1) - new.pos i ≡ length (want i) = omega (
                arith,
                places i (omega (arith, h)),
                places (i + 1) (omega (arith, h)),
                ap (place want ncol) e,
              ) in
              col-load new valid i (omega (arith, h, count))
              ∙ ap₂ (load new.s) (places i (omega (arith, h))) len
              ∙ bytes i h
          | inr h ↦
              col_beyond new i (omega (arith, h, count))
              ∙ sym (wanted_beyond r changes ncol i within more h)
        ];
      }

  -- The row at the end of the loop
  pub made-IsUpdated :
      (fits : place want ncol ncol < 2 ^ 16) (m : Making)
      → IsMade want ncol fits m
      → m.column ≡ ncol
      → IsUpdated r changes timestamp ncol (record {
        timestamp = timestamp;
        ncol = ncol;
        pos = Internode.store m.pos ncol (m.sz % 2 ^ 16);
        s = m.s;
      })
  unfolding Internode.store
  made-IsUpdated fits m made end =
      placed-IsUpdated _ refl refl fits
        (λ i h. elim (Bool-cases (i == ncol)) [
          | inl e ↦
              let at : i ≡ ncol = (==_iff i ncol).0 e in
              rw e
                (omega (arith, made.ends, fits, ap (place want ncol) end, ap (place want ncol) at))
          | inr e ↦ rw e (made.places i (ground (arith, h, e, end)))
        ])
        (λ i h. made.bytes i (omega (arith, h, end)))
