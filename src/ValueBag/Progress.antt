-- ===== src/ValueBag/Progress.antt =====
-- What holds of the row that `update` makes, after each step of its loop.
use mathlib.Core.Path.{subst}
use incll.Base.{
  ℕ, zero, suc, ◌+◌, ◌%◌, ◌^◌, ◌≤◌, ◌<◌, ◌≡◌, inl, inr, refl, sym, ap, ◌∙◌, arith, ◌==◌, ==_iff,
  List, [], length, Bool-cases, u64,
}
use incll.Internode.{copy}
use incll.Internode
use incll.Slice.{load}
use incll.Stringbag
use incll.Stringbag.Apart.{store-outside, load-store}
use incll.ValueBag.{Making, mark_empty, put_change}
use incll.ValueBag.Layout.{place, place_le, load_ext}

module _ (want : ℕ → List ℕ) (ncol : ℕ) (fits : place want ncol ncol < 2 ^ 16) where
  -- The columns before `m.column` are made.
  pub record IsMade (m : Making) : Type 0 where
    pub inside : m.column ≤ ncol
    pub ends : m.sz ≡ place want ncol m.column
    pub places : (j : ℕ) → j < m.column → m.pos j ≡ place want ncol j
    pub bytes : (j : ℕ) → j < m.column → load m.s (place want ncol j) (length (want j)) ≡ want j

  pub small : (i : ℕ) → i ≤ ncol → place want ncol i < 2 ^ 16
  small i h = omega (arith, place_le want ncol i ncol h, fits)

  -- The bytes of the columns made before stay where a write comes after them.
  pub kept :
      (m : Making) (s : ℕ → ℕ)
      → IsMade m
      → ((x : ℕ) → x < m.sz → s x ≡ m.s x)
      → (j : ℕ) → j < m.column
      → load s (place want ncol j) (length (want j)) ≡ want j
  kept m s made same j h =
      let end = place_le want ncol (suc j) m.column (omega (arith, h)) in
      load_ext s m.s (place want ncol j) (place want ncol j) (length (want j))
        (λ i l. same (place want ncol j + i) (omega (arith, l, end, made.ends)))
      ∙ made.bytes j h

  -- One more column, with its bytes
  extend :
      (m : Making) (sz : ℕ) (s : ℕ → ℕ)
      → IsMade m
      → m.column < ncol
      → sz ≡ m.sz + length (want m.column)
      → ((x : ℕ) → x < m.sz → s x ≡ m.s x)
      → load s m.sz (length (want m.column)) ≡ want m.column
      → IsMade (record {
        column = m.column + 1;
        sz = sz;
        pos = Internode.store m.pos m.column (m.sz % 2 ^ 16);
        s = s;
      })
  unfolding Internode.store
  extend m sz s made h size same new = record {
    inside = omega (arith, h);
    ends = size ∙ omega (arith, made.ends, next);
    places = λ j l. elim (Bool-cases (j == m.column)) [
      | inl e ↦
          let at : j ≡ m.column = (==_iff j m.column).0 e in
          let fit : m.sz % 2 ^ 16 ≡ place want ncol m.column =
            omega (arith, made.ends, small m.column (omega (arith, h))) in
          rw e (fit ∙ ap (place want ncol) (sym at))
      | inr e ↦ rw e (made.places j (ground (arith, l, e)))
    ];
    bytes = λ j l. elim (Bool-cases (j == m.column)) [
      | inl e ↦
          let at : m.column ≡ j = sym ((==_iff j m.column).0 e) in
          subst (λ i. load s (place want ncol i) (length (want i)) ≡ want i) at
            (ap (λ x. load s x (length (want m.column))) (sym made.ends) ∙ new)
      | inr e ↦ kept m s made same j (ground (arith, l, e))
    ];
  }
    where
      next : place want ncol (m.column + 1) ≡ place want ncol m.column + length (want m.column)
      next = let e : m.column + 1 ≡ suc m.column = omega arith in ap (place want ncol) e

  pub put_change-IsMade :
      (m : Making) (value : List ℕ)
      → IsMade m
      → m.column < ncol
      → want m.column ≡ value
      → IsMade (put_change value m)
  unfolding put_change
  put_change-IsMade m value made h e =
      let end = small (suc m.column) (omega (arith, h)) in
      let len : length (want m.column) ≡ length value = ap length e in
      let room : m.sz + length value < 2 ^ 64 = omega (arith, end, made.ends, len) in
      extend m (u64 (m.sz + length value)) (Stringbag.store m.sz value m.s) made h
        (omega (arith, room, len))
        (λ x l. store-outside value m.sz x m.s (λ j k q. omega (arith, l, q)))
        (ap (load (Stringbag.store m.sz value m.s) m.sz) len ∙ load-store value m.sz m.s ∙ sym e)

  pub mark_empty-IsMade :
      (n : ℕ) (m : Making)
      → IsMade m
      → m.column + n ≤ ncol
      → ((j : ℕ) → m.column ≤ j → j < m.column + n → want j ≡ [])
      → IsMade (mark_empty n m) × ((mark_empty n m).column ≡ m.column + n)
  unfolding mark_empty load
  mark_empty-IsMade zero m made h e = (made, omega arith)
  mark_empty-IsMade (suc n) m made h e =
      let nothing : want m.column ≡ [] = e m.column (omega arith) (omega arith) in
      let len : length (want m.column) ≡ 0 = ap length nothing in
      let one =
        extend m m.sz m.s made (omega (arith, h)) (omega (arith, len)) (λ x l. refl)
          (ap (load m.s m.sz) len ∙ sym nothing) in
      let rest =
        mark_empty-IsMade n _ one (omega (arith, h))
          (λ j a b. e j (omega (arith, a)) (omega (arith, b))) in
      (rest.0, omega (arith, rest.1))
