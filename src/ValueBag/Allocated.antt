-- ===== src/ValueBag/Allocated.antt =====
-- The size that `update` allocates is that of the row which it makes.
use mathlib.Core.Path.{subst}
use incll.Base.{
  ℕ, zero, suc, ◌+◌, ◌-◌, ◌*◌, ◌^◌, ◌≤◌, ◌<◌, ◌≡◌, inl, inr, refl, sym, ap, ◌∙◌, arith, false, ltb,
  ◌==◌, ==_refl, if◌then◌else◌, List, [], ◌∷◌, length, Bool-cases, le_or_lt, u64, sub64,
}
use incll.ValueBag.{Row, Changes, size, col, column_length, measure, update, offset_size}
use incll.ValueBag.Layout.{
  IsRow, IsIncreasing, header, wanted, place, pos_le, length-col, column_length_lem, col_beyond,
}
use incll.ValueBag.Change.{IsWithin, measure-IsWithin, wanted_before}
use incll.ValueBag.Update.{IsUpdated}
use incll.ValueBag.Whole.{columns, measure-columns, update_lem, if_both}

place_ext :
    (f g : ℕ → List ℕ) (ncol i : ℕ)
    → ((j : ℕ) → j < i → f j ≡ g j)
    → place f ncol i ≡ place g ncol i
place_ext f g ncol zero h = refl
place_ext f g ncol (suc i) h =
    omega
      (arith, place_ext f g ncol i (λ j l. h j (omega (arith, l))), ap length (h i (omega arith)))

-- The bytes of the new values, and of those that they replace
abbrev grown : Changes → ℕ
grown [] = 0
grown (change ∷ changes) = length (change.1) + grown changes

abbrev lost : Row → Changes → ℕ
lost r [] = 0
lost r (change ∷ changes) = length (col r (change.0)) + lost r changes

module _ (r : Row) (row : IsRow r) where
  place-col : (ncol i : ℕ) → i ≤ r.ncol → place (col r) ncol i + r.pos 0 ≡ header ncol + r.pos i
  place-col ncol zero h = refl
  place-col ncol (suc i) h =
      let e : i + 1 ≡ suc i = omega arith in
      omega (
        arith,
        place-col ncol i (omega (arith, h)),
        length-col r row i (omega (arith, h)),
        row.ordered i (omega (arith, h)),
        ap r.pos e,
      )

  place-col_beyond :
      (ncol d : ℕ) → place (col r) ncol (r.ncol + d) + r.pos 0 ≡ header ncol + r.pos (r.ncol)
  place-col_beyond ncol zero =
      let e : r.ncol + 0 ≡ r.ncol = omega arith in rw e (place-col ncol r.ncol (omega arith))
  place-col_beyond ncol (suc d) =
      let e : r.ncol + suc d ≡ suc (r.ncol + d) = omega arith in
      rw e (
        omega (arith, place-col_beyond ncol d, ap length (col_beyond r (r.ncol + d) (omega arith))))

  -- One change moves what comes behind it.
  place_change :
      (c : ℕ) (v : List ℕ) (changes : Changes) (ncol i : ℕ)
      → IsIncreasing (c + 1) changes
      → (i ≤ c → place (wanted r ((c, v) ∷ changes)) ncol i ≡ place (wanted r changes) ncol i)
        × (c < i
            → place (wanted r ((c, v) ∷ changes)) ncol i + length (col r c)
              ≡ place (wanted r changes) ncol i + length v)
  place_change c v changes ncol zero inc = (λ h. refl, λ h. absurd (omega (arith, h)))
  place_change c v changes ncol (suc i) inc =
      let rest = place_change c v changes ncol i inc in
      let here : c ≡ i → wanted r ((c, v) ∷ changes) i ≡ v =
        λ e. ap (λ b. if b then v else wanted r changes i) (ap (λ x. c == x) (sym e) ∙ ==_refl c) in
      let same : c ≡ i → wanted r changes i ≡ col r c =
        λ e. ap (wanted r changes) (sym e) ∙ wanted_before r changes (c + 1) c inc (omega arith) in
      let other : (c == i) ≡ false → wanted r ((c, v) ∷ changes) i ≡ wanted r changes i =
        λ e. ap (λ b. if b then v else wanted r changes i) e in
      (
        λ h. omega (arith, rest.0 (omega (arith, h)), ap length (other (ground (arith, h)))),
        λ h. elim (le_or_lt c i) [
          | inl l ↦ omega (arith, rest.1 l, ap length (other (ground (arith, l))))
          | inr l ↦
              let e : c ≡ i = omega (arith, h, l) in
              omega (arith, rest.0 l, ap length (here e), ap length (same e))
        ],
      )

  place_changes :
      (changes : Changes) (lo ncol : ℕ)
      → IsIncreasing lo changes
      → IsWithin ncol changes
      → place (wanted r changes) ncol ncol + lost r changes
        ≡ place (col r) ncol ncol + grown changes
  place_changes [] lo ncol inc within =
      omega (arith, place_ext (wanted r []) (col r) ncol ncol (λ j h. refl))
  place_changes (change ∷ changes) lo ncol inc within = omega (
    arith,
    (place_change (change.0) (change.1) changes ncol ncol inc.1).1 within.0,
    place_changes changes (change.0 + 1) ncol inc.1 within.1,
  )

  -- What is lost stands in the old row.
  lost-le :
      (changes : Changes) (lo : ℕ)
      → IsIncreasing lo changes
      → lo ≤ r.ncol
      → lost r changes + r.pos lo ≤ r.pos (r.ncol)
  lost-le [] lo inc h = omega (arith, pos_le r row lo r.ncol h (omega arith))
  lost-le (change ∷ changes) lo inc h = elim (le_or_lt (change.0) r.ncol) [
    | inl l ↦ omega (
      arith,
      lost-le changes (change.0 + 1) inc.1 (omega (arith, l)),
      length-col r row (change.0) l,
      row.ordered (change.0) l,
      pos_le r row lo (change.0) inc.0 (omega (arith, l)),
    )
    | inr l ↦ omega (
      arith,
      ap length (col_beyond r (change.0) l),
      lost_none changes (change.0 + 1) inc.1 (omega (arith, l)),
      pos_le r row lo r.ncol h (omega arith),
    )
  ]
    where
      lost_none :
          (changes : Changes) (lo : ℕ) → IsIncreasing lo changes → r.ncol ≤ lo → lost r changes ≡ 0
      lost_none [] lo inc h = refl
      lost_none (change ∷ changes) lo inc h = omega (
        arith,
        ap length (col_beyond r (change.0) (omega (arith, h, inc.0))),
        lost_none changes (change.0 + 1) inc.1 (omega (arith, h, inc.0)),
      )

  measure-grown :
      (changes : Changes) (ncol sz : ℕ)
      → lost r changes ≤ sz
      → sz + grown changes < 2 ^ 64
      → (measure r changes ncol sz).1 + lost r changes ≡ sz + grown changes
  unfolding measure
  measure-grown [] ncol sz h l = refl
  measure-grown (change ∷ changes) ncol sz h l =
      let next : ℕ =
        if ltb (change.0) r.ncol
        then sub64 (u64 (sz + length (change.1))) (column_length r (change.0))
        else u64 (sz + length (change.1)) in
      let e : next + length (col r (change.0)) ≡ sz + length (change.1) =
        elim (Bool-cases (ltb (change.0) r.ncol)) [
          | inl b ↦
              let inside : change.0 < r.ncol = ground (arith, b) in
              rw b (
                omega (
                  arith,
                  column_length_lem r row (change.0) inside,
                  length-col r row (change.0) inside,
                  h,
                  l,
                ))
          | inr b ↦
              let beyond : r.ncol ≤ change.0 = ground (arith, b) in
              rw b (omega (arith, ap length (col_beyond r (change.0) beyond), l))
        ] in
      let rest =
        measure-grown changes (if ltb (change.0) r.ncol then ncol else change.0 + 1) next
          (omega (arith, e, h)) (omega (arith, e, l)) in
      omega (arith, rest, e)

-- The size of a row is where its columns end.
size-place :
    (r new : Row) (changes : Changes) (timestamp ncol : ℕ)
    → IsUpdated r changes timestamp ncol new
    → size new ≡ 8 + place (wanted r changes) ncol ncol
unfolding size
size-place r new changes timestamp ncol updated = omega (
  arith,
  place-col new updated.valid new.ncol new.ncol (omega arith),
  updated.valid.first,
  place_ext (col new) (wanted r changes) new.ncol new.ncol (λ j h. updated.columns j),
  ap (λ n. place (wanted r changes) n n) updated.count,
)

-- For a row of `value_bag` and changes of increasing columns such that the new row fits in 2 ^ 16
-- bytes, the size that `update` allocates is that of the row which it makes.
pub update-size :
    (r : Row)
    → IsRow r
    → (timestamp : ℕ) (fresh : Row) (changes : Changes) → IsIncreasing 0 changes
    → place (wanted r changes) (columns r.ncol changes) (columns r.ncol changes) < 2 ^ 16
    → (update r changes timestamp fresh).0 ≡ size ((update r changes timestamp fresh).1)
unfolding update size
update-size r row timestamp fresh changes inc fits =
    let measured : ℕ × ℕ = measure r changes r.ncol (size r) in
    let count : ℕ = columns r.ncol changes in
    let n : measured.0 ≡ count =
      measure-columns r changes 0 r.ncol (size r) inc (omega arith) (λ h. omega (arith, h)) in
    let w =
      measure-IsWithin r changes 0 r.ncol (size r) inc (omega arith) (λ h. omega (arith, h)) in
    let sz : ℕ =
      if ltb r.ncol (measured.0)
      then u64 (measured.1 + (measured.0 - r.ncol) * offset_size)
      else measured.1 in
    let moved : place (wanted r changes) count count + lost r changes
        ≡ place (col r) count count + grown changes =
      place_changes r row changes 0 count inc (subst (λ x. IsWithin x changes) n w.1) in
    let more : r.ncol ≤ count = omega (arith, w.0, n) in
    let whole : r.ncol + (count - r.ncol) ≡ count = omega (arith, more) in
    let before : place (col r) count count + r.pos 0 ≡ header count + r.pos (r.ncol) =
      ap (λ x. place (col r) count x + r.pos 0) (sym whole)
      ∙ place-col_beyond r row count (count - r.ncol) in
    let loss = lost-le r row changes 0 inc (omega arith) in
    let sums : measured.1 + lost r changes ≡ size r + grown changes =
      measure-grown r row changes r.ncol (size r) (omega (arith, loss))
        (omega (arith, moved, loss, fits, row.fits)) in
    let exact : sz ≡ 8 + place (wanted r changes) count count =
      elim (Bool-cases (ltb r.ncol (measured.0))) [
        | inl b ↦ rw b (omega (arith, sums, moved, before, row.first, n, more, fits, loss))
        | inr b ↦
            let same : count ≡ r.ncol = ground (arith, b, n, more) in
            rw b (omega (arith, sums, moved, before, row.first, same, loss))
      ] in
    if_both (λ (x : ℕ × Row). x.0 ≡ sz) _ _ _ (λ e. refl) (λ e. refl)
    ∙ exact
    ∙ sym (
        size-place r ((update r changes timestamp fresh).1) changes timestamp count
          (update_lem r row timestamp fresh changes inc fits))
