-- ===== src/Ksearch/Loops.antt =====
-- The loops of the searches, with what holds at each round.
use incll.Base.{ℕ, zero, suc, ◌+◌, ◌/◌, ◌≤◌, ◌<◌, ◌≡◌, inl, inr, arith, ap, ltb, Bool-cases}
use incll.Ksearch.{Sign, upper_loop, lower_loop, find_upper_loop, find_lower_loop}
use incll.Ksearch.Bounds.{rank, IsSorted, IsUpper, IsLower, Sign-cases, absent, found, rank-le}

module _ (perm : ℕ → ℕ) (comparator : ℕ → Sign) (size : ℕ)
    (sorted : IsSorted perm comparator size) where
  abbrev at : ℕ → ℕ
  at j = rank (comparator (perm j))

  pub upper_loop-IsUpper :
      (fuel l r : ℕ)
      → l ≤ r
      → r ≤ size
      → r ≤ fuel + l
      → ((j : ℕ) → j < l → 0 < at j)
      → ((j : ℕ) → r ≤ j → j < size → at j ≡ 0)
      → IsUpper perm comparator size (upper_loop perm comparator fuel l r)
  unfolding upper_loop
  upper_loop-IsUpper zero l r a b c lo hi = record {
    inside = omega arith;
    before = lo;
    after = λ j h k. hi j (omega arith) k;
  }
  upper_loop-IsUpper (suc fuel) l r a b c lo hi = elim (Bool-cases (ltb l r)) [
    | inr e ↦
        rw e (record { inside = omega arith; before = lo; after = λ j h k. hi j (ground arith) k })
    | inl e ↦
        let m : ℕ = (l + r) / 2 in
        let room : l < r = ground arith in
        elim (Sign-cases (comparator (perm m))) [
          | inl s ↦
              rw (e, s)
                (upper_loop-IsUpper fuel l m (omega arith) (omega arith) (omega arith) lo
                  (λ j h k. ground (arith, sorted m j, ap rank s)))
          | inr t ↦ elim t [
            | inl s ↦
                rw (e, s)
                  (record {
                    inside = omega arith;
                    before = λ j h. ground (arith, sorted j m, ap rank s);
                    after = λ j h k. ground (arith, sorted m j, ap rank s);
                  })
            | inr s ↦
                rw (e, s)
                  (upper_loop-IsUpper fuel (m + 1) r (omega arith) b (omega arith)
                    (λ j h. ground (arith, sorted j m, ap rank s)) hi)
          ]
        ]
  ]

  pub lower_loop-IsLower :
      (fuel l r : ℕ)
      → l ≤ r
      → r ≤ size
      → r ≤ fuel + l
      → ((j : ℕ) → j < l → at j ≡ 2)
      → ((j : ℕ) → r ≤ j → j < size → at j ≡ 0)
      → IsLower perm comparator size (lower_loop perm comparator fuel l r)
  unfolding lower_loop
  lower_loop-IsLower zero l r a b c lo hi =
      absent perm comparator size sorted l r a b (omega arith) lo hi
  lower_loop-IsLower (suc fuel) l r a b c lo hi = elim (Bool-cases (ltb l r)) [
    | inr e ↦ rw e (absent perm comparator size sorted l r a b (ground arith) lo hi)
    | inl e ↦
        let m : ℕ = (l + r) / 2 in
        let room : l < r = ground arith in
        elim (Sign-cases (comparator (perm m))) [
          | inl s ↦
              rw (e, s)
                (lower_loop-IsLower fuel l m (omega arith) (omega arith) (omega arith) lo
                  (λ j h k. ground (arith, sorted m j, ap rank s)))
          | inr t ↦ elim t [
            | inl s ↦ rw (e, s) (found perm comparator size sorted m (omega arith) s)
            | inr s ↦
                rw (e, s)
                  (lower_loop-IsLower fuel (m + 1) r (omega arith) b (omega arith)
                    (λ j h. ground (
                      arith,
                      sorted j m,
                      ap rank s,
                      rank-le perm comparator size sorted (comparator (perm j)),
                    ))
                    hi)
          ]
        ]
  ]

  -- The linear searches stop at the first key that is not below the wanted one.
  pub find_upper_loop-IsUpper :
      (fuel l : ℕ)
      → l ≤ size
      → size ≤ fuel + l
      → ((j : ℕ) → j < l → 0 < at j)
      → IsUpper perm comparator size (find_upper_loop perm comparator fuel l size)
  unfolding find_upper_loop
  find_upper_loop-IsUpper zero l a c lo = record {
    inside = a;
    before = lo;
    after = λ j h k. absurd (omega arith);
  }
  find_upper_loop-IsUpper (suc fuel) l a c lo = elim (Bool-cases (ltb l size)) [
    | inr e ↦ rw e (record { inside = a; before = lo; after = λ j h k. absurd (ground arith) })
    | inl e ↦
        let room : l < size = ground arith in
        elim (Sign-cases (comparator (perm l))) [
          | inl s ↦
              rw (e, s)
                (record {
                  inside = a;
                  before = lo;
                  after = λ j h k. ground (arith, sorted l j, ap rank s);
                })
          | inr t ↦ elim t [
            | inl s ↦
                rw (e, s)
                  (find_upper_loop-IsUpper fuel (l + 1) (omega arith) (omega arith)
                    (λ j h. ground (arith, lo j, ap rank s)))
            | inr s ↦
                rw (e, s)
                  (find_upper_loop-IsUpper fuel (l + 1) (omega arith) (omega arith)
                    (λ j h. ground (arith, lo j, ap rank s)))
          ]
        ]
  ]

  pub find_lower_loop-IsLower :
      (fuel l : ℕ)
      → l ≤ size
      → size ≤ fuel + l
      → ((j : ℕ) → j < l → at j ≡ 2)
      → IsLower perm comparator size (find_lower_loop perm comparator fuel l size)
  unfolding find_lower_loop
  find_lower_loop-IsLower zero l a c lo =
      absent perm comparator size sorted l size a (omega arith) (omega arith) lo
        (λ j h k. absurd (omega arith))
  find_lower_loop-IsLower (suc fuel) l a c lo = elim (Bool-cases (ltb l size)) [
    | inr e ↦ rw e (
        absent perm comparator size sorted l size a (omega arith) (ground arith) lo
          (λ j h k. absurd (omega arith)))
    | inl e ↦
        let room : l < size = ground arith in
        elim (Sign-cases (comparator (perm l))) [
          | inl s ↦
              rw (e, s)
                (absent perm comparator size sorted l l (omega arith) a (omega arith) lo
                  (λ j h k. ground (arith, sorted l j, ap rank s)))
          | inr t ↦ elim t [
            | inl s ↦ rw (e, s) (found perm comparator size sorted l room s)
            | inr s ↦
                rw (e, s)
                  (find_lower_loop-IsLower fuel (l + 1) (omega arith) (omega arith)
                    (λ j h. ground (arith, lo j, ap rank s)))
          ]
        ]
  ]
