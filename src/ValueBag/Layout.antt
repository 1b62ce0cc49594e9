-- ===== src/ValueBag/Layout.antt =====
-- Rows that are well-formed, what an update should make of the columns, and where they come to stand.
use incll.Base.{
  ℕ, zero, suc, ◌+◌, ◌-◌, ◌*◌, ◌^◌, ◌≤◌, ◌<◌, ◌≡◌, refl, sym, ap, ap₂, ◌∙◌, arith, true, false, ltb,
  ◌==◌, if◌then◌else◌, List, [], ◌∷◌, length,
}
use incll.Slice.{load}
use incll.Slice.Words.{length-load}
use incll.ValueBag.{Row, Changes, column_length, col, bagdata_size, offset_size}

-- The table of the places, and where the first column stands
abbrev pub header : ℕ → ℕ
header ncol = bagdata_size + ncol * offset_size

-- The columns stand one after the other behind the table.
pub record IsRow (r : Row) : Type 0 where
  pub first : r.pos 0 ≡ header r.ncol
  pub ordered : (i : ℕ) → i < r.ncol → r.pos i ≤ r.pos (i + 1)
  pub fits : r.pos (r.ncol) < 2 ^ 16

-- The columns to change increase, from `lo` on.
abbrev pub IsIncreasing : ℕ → Changes → Type 0
IsIncreasing lo [] = Unit
IsIncreasing lo (change ∷ changes) = (lo ≤ change.0) × IsIncreasing (change.0 + 1) changes

-- What column `i` should be
abbrev pub wanted : Row → Changes → ℕ → List ℕ
wanted r [] i = col r i
wanted r (change ∷ changes) i = if change.0 == i then change.1 else wanted r changes i

-- Where column `i` should begin, for the columns `want` behind a table of `ncol` places
abbrev pub place : (ℕ → List ℕ) → ℕ → ℕ → ℕ
place want ncol zero = header ncol
place want ncol (suc i) = place want ncol i + length (want i)

pub place_mono : (want : ℕ → List ℕ) (ncol i d : ℕ) → place want ncol i ≤ place want ncol (i + d)
place_mono want ncol i zero = let e : i + 0 ≡ i = omega arith in rw e (omega arith)
place_mono want ncol i (suc d) =
    let e : i + suc d ≡ suc (i + d) = omega arith in rw e (omega (arith, place_mono want ncol i d))

pub place_le : (want : ℕ → List ℕ) (ncol i j : ℕ) → i ≤ j → place want ncol i ≤ place want ncol j
place_le want ncol i j h =
    let e : i + (j - i) ≡ j = omega (arith, h) in
    omega (arith, place_mono want ncol i (j - i), ap (place want ncol) e)

pub load_ext :
    (f g : ℕ → ℕ) (a b n : ℕ) → ((i : ℕ) → i < n → f (a + i) ≡ g (b + i)) → load f a n ≡ load g b n
unfolding load
load_ext f g a b zero h = refl
load_ext f g a b (suc n) h =
    let a0 : a + 0 ≡ a = omega arith in
    let b0 : b + 0 ≡ b = omega arith in
    let here : f a ≡ g b = ap f (sym a0) ∙ h 0 (omega arith) ∙ ap g b0 in
    ap₂ (λ x xs. x ∷ xs) here
      (load_ext f g (a + 1) (b + 1) n (λ i l.
        let ea : a + 1 + i ≡ a + (i + 1) = omega arith in
        let eb : b + 1 + i ≡ b + (i + 1) = omega arith in
        ap f ea ∙ h (i + 1) (omega (arith, l)) ∙ ap g (sym eb)))

module _ (r : Row) (row : IsRow r) where
  pub pos_mono : (d i : ℕ) → i + d ≤ r.ncol → r.pos i ≤ r.pos (i + d)
  pos_mono zero i h = let e : i + 0 ≡ i = omega arith in rw e (omega arith)
  pos_mono (suc d) i h =
      let e : i + suc d ≡ i + d + 1 = omega arith in
      rw e (omega (arith, pos_mono d i (omega (arith, h)), row.ordered (i + d) (omega (arith, h))))

  pub pos_le : (i j : ℕ) → i ≤ j → j ≤ r.ncol → r.pos i ≤ r.pos j
  pos_le i j h l =
      let e : i + (j - i) ≡ j = omega (arith, h) in
      omega (arith, pos_mono (j - i) i (omega (arith, e, l)), ap r.pos e)

  pub column_length_lem : (i : ℕ) → i < r.ncol → column_length r i ≡ r.pos (i + 1) - r.pos i
  unfolding column_length
  column_length_lem i h =
      omega
        (arith, row.ordered i h, pos_le (i + 1) r.ncol (omega (arith, h)) (omega arith), row.fits)

  -- A column of the old row, and those that it does not have
  pub col-load : (i : ℕ) → i < r.ncol → col r i ≡ load r.s (r.pos i) (r.pos (i + 1) - r.pos i)
  unfolding col
  col-load i h =
      let e : ltb i r.ncol ≡ true = ground (arith, h) in rw (e, column_length_lem i h) refl

  pub length-col : (i : ℕ) → i < r.ncol → length (col r i) ≡ r.pos (i + 1) - r.pos i
  length-col i h = ap length (col-load i h) ∙ length-load r.s (r.pos i) _

pub col_beyond : (r : Row) (i : ℕ) → r.ncol ≤ i → col r i ≡ []
unfolding col
col_beyond r i h = let e : ltb i r.ncol ≡ false = ground (arith, h) in rw e refl
