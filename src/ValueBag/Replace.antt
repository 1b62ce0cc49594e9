-- ===== src/ValueBag/Replace.antt =====
-- The short cut of `update`, where one column gets a value of the same length.
use incll.Base.{
  ℕ, zero, suc, ◌+◌, ◌-◌, ◌≤◌, ◌<◌, ◌≡◌, ◌≢◌, inl, inr, refl, sym, ap, ap₂, ◌∙◌, arith, true, false,
  ltb, leb, ◌==◌, ==_iff, List, [], ◌∷◌, length, Bool-cases, le_or_lt, u64, sub64,
}
use incll.Internode.{copy}
use incll.Slice.{load}
use incll.Stringbag
use incll.Stringbag.Apart.{load-store, load-outside}
use incll.ValueBag.{Row, size, column_length}
use incll.ValueBag.Layout.{
  IsRow, wanted, place, load_ext, pos_le, col-load, length-col, column_length_lem,
}
use incll.ValueBag.Update.{IsUpdated, placed-IsUpdated}

copy_front : (a x : ℕ → ℕ) (n j : ℕ) → j < n → copy a 0 x 0 n j ≡ x j
unfolding copy
copy_front a x n j h =
    let e : ltb j (0 + n) ≡ true = ground (arith, h) in
    let f : leb 0 j ≡ true = ground arith in
    let g : 0 + (j - 0) ≡ j = omega arith in rw (e, f, g) refl

module _ (r : Row) (row : IsRow r) (c : ℕ) (v : List ℕ) (inside : c < r.ncol) where
  -- The sizes are equal only if the lengths are.
  pub same_length :
      length v ≤ 16
      → sub64 (u64 (size r + length v)) (column_length r c) ≡ size r
      → length v ≡ r.pos (c + 1) - r.pos c
  unfolding size
  same_length short e = omega (
    arith,
    short,
    e,
    column_length_lem r row c inside,
    row.fits,
    pos_le r row (c + 1) r.ncol (omega (arith, inside)) (omega arith),
    row.ordered c inside,
  )

  module _ (len : length v ≡ r.pos (c + 1) - r.pos c) where
    abbrev want : ℕ → List ℕ
    want = wanted r ((c, v) ∷ [])

    length-want : (i : ℕ) → i < r.ncol → length (want i) ≡ r.pos (i + 1) - r.pos i
    length-want i h = elim (Bool-cases (c == i)) [
      | inl e ↦ rw (e, sym ((==_iff c i).0 e)) len
      | inr e ↦ rw e (length-col r row i h)
    ]

    place-pos : (i : ℕ) → i ≤ r.ncol → place want r.ncol i ≡ r.pos i
    place-pos zero h = sym row.first
    place-pos (suc i) h =
        let e : i + 1 ≡ suc i = omega arith in
        omega (
          arith,
          place-pos i (omega (arith, h)),
          length-want i (omega (arith, h)),
          row.ordered i (omega (arith, h)),
          ap r.pos e,
        )

    pub replaced-IsUpdated :
        (timestamp amt : ℕ) (fresh : Row)
        → amt ≡ r.pos (r.ncol)
        → IsUpdated r ((c, v) ∷ []) timestamp r.ncol (record {
          timestamp = timestamp;
          ncol = r.ncol;
          pos = copy fresh.pos 0 r.pos 0 (r.ncol + 1);
          s = Stringbag.store (r.pos c) v (copy fresh.s 0 r.s 0 amt);
        })
    replaced-IsUpdated timestamp amt fresh all =
        let base : ℕ → ℕ = copy fresh.s 0 r.s 0 amt in
        placed-IsUpdated r ((c, v) ∷ []) timestamp r.ncol (inside, tt) (omega arith) _ refl refl
          (omega (arith, place-pos r.ncol (omega arith), row.fits))
          (λ i h.
            copy_front fresh.pos r.pos (r.ncol + 1) i (omega (arith, h)) ∙ sym (place-pos i h))
          (λ i h. elim (Bool-cases (c == i)) [
            | inl e ↦
                let at : i ≡ c = sym ((==_iff c i).0 e) in
                rw e (
                  ap (λ x. load (Stringbag.store (r.pos c) v base) x (length v))
                    (place-pos i (omega (arith, h)) ∙ ap r.pos at)
                  ∙ load-store v (r.pos c) base)
            | inr e ↦
                let top = pos_le r row (i + 1) r.ncol (omega (arith, h)) (omega arith) in
                rw e (
                  ap₂ (load (Stringbag.store (r.pos c) v base)) (place-pos i (omega (arith, h)))
                    (length-col r row i h)
                  ∙ load-outside (r.pos (i + 1) - r.pos i) (r.pos i) (r.pos c) v base (apart i h e)
                  ∙ load_ext base r.s (r.pos i) (r.pos i) (r.pos (i + 1) - r.pos i)
                      (λ j l. copy_front fresh.s r.s amt (r.pos i + j) (omega (arith, l, top, all)))
                  ∙ sym (col-load r row i h))
          ])
      where
        apart :
            (i : ℕ)
            → i < r.ncol
            → (c == i) ≡ false
            → (x y : ℕ) → x < r.pos (i + 1) - r.pos i
            → y < length v
            → r.pos i + x ≢ r.pos c + y
        apart i h e x y l k q = elim (le_or_lt i c) [
          | inl lt ↦
              let up = pos_le r row (i + 1) c (omega (arith, lt)) (omega (arith, inside)) in
              absurd (omega (arith, q, l, up))
          | inr ge ↦
              let next : c + 1 ≤ i = ground (arith, ge, e) in
              let up = pos_le r row (c + 1) i next (omega (arith, h)) in
              absurd (omega (arith, q, k, len, up))
        ]
