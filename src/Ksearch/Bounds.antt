-- ===== src/Ksearch/Bounds.antt =====
-- What the bounds of a key among sorted keys are, and that they are unique.
use incll.Base.{ℕ, ◌≤◌, ◌<◌, ◌≡◌, ◌⊎◌, inl, inr, refl, sym, ◌∙◌, arith, ap, none, some}
use incll.Ksearch.{Sign, negative, null, positive, KeyIndexedPosition}

abbrev pub rank : Sign → ℕ
rank negative = 0
rank null = 1
rank positive = 2

-- The keys increase: after a slot whose key is not below the wanted one, all are above it.
abbrev pub IsSorted : (ℕ → ℕ) → (ℕ → Sign) → ℕ → Type 0
IsSorted perm comparator size =
    (i j : ℕ) → i < j → j < size → rank (comparator (perm i)) ≤ 1 → rank (comparator (perm j)) ≡ 0

-- The first position whose key is above the wanted one.
pub record IsUpper (perm : ℕ → ℕ) (comparator : ℕ → Sign) (size u : ℕ) : Type 0 where
  pub inside : u ≤ size
  pub before : (j : ℕ) → j < u → 0 < rank (comparator (perm j))
  pub after : (j : ℕ) → u ≤ j → j < size → rank (comparator (perm j)) ≡ 0

-- The position of the wanted key, or the first one of a greater key.
pub record IsLower (perm : ℕ → ℕ) (comparator : ℕ → Sign) (size : ℕ) (k : KeyIndexedPosition)
    : Type 0 where
  pub inside : k.i ≤ size
  pub before : (j : ℕ) → j < k.i → rank (comparator (perm j)) ≡ 2
  pub after : (j : ℕ) → k.i < j → j < size → rank (comparator (perm j)) ≡ 0
  pub here :
      ((k.i < size) × (rank (comparator (perm k.i)) ≡ 1) × (k.p ≡ some (perm k.i)))
      ⊎ (((k.i < size) → rank (comparator (perm k.i)) ≡ 0) × (k.p ≡ none))

pub Sign-cases : (s : Sign) → (s ≡ negative) ⊎ ((s ≡ null) ⊎ (s ≡ positive))
Sign-cases negative = inl refl
Sign-cases null = inr (inl refl)
Sign-cases positive = inr (inr refl)

module _ (perm : ℕ → ℕ) (comparator : ℕ → Sign) (size : ℕ)
    (sorted : IsSorted perm comparator size) where
  abbrev at : ℕ → ℕ
  at j = rank (comparator (perm j))

  pub rank-le : (s : Sign) → rank s ≤ 2
  rank-le negative = omega arith
  rank-le null = omega arith
  rank-le positive = omega arith

  pub absent :
      (l r : ℕ)
      → l ≤ r
      → r ≤ size
      → r ≤ l
      → ((j : ℕ) → j < l → at j ≡ 2)
      → ((j : ℕ) → r ≤ j → j < size → at j ≡ 0)
      → IsLower perm comparator size (record { i = l; p = none })
  absent l r a b c lo hi = record {
    inside = omega arith;
    before = lo;
    after = λ j h k. hi j (omega arith) k;
    here = inr ((λ h. hi l c h), refl);
  }

  pub found :
      (m : ℕ)
      → m < size
      → comparator (perm m) ≡ null
      → IsLower perm comparator size (record { i = m; p = some (perm m) })
  found m h s = record {
    inside = omega arith;
    before = λ j l. ground (arith, sorted j m, ap rank s, rank-le (comparator (perm j)));
    after = λ j l k. ground (arith, sorted m j, ap rank s);
    here = inl (h, ap rank s, refl);
  }

  pub IsUpper-unique :
      (u v : ℕ) → IsUpper perm comparator size u → IsUpper perm comparator size v → u ≡ v
  IsUpper-unique u v a b =
      ground (arith, a.before v, a.after u, b.before u, b.after v, a.inside, b.inside)

  IsLower-unique_at :
      (k q : KeyIndexedPosition)
      → IsLower perm comparator size k
      → IsLower perm comparator size q
      → k.i ≡ q.i
  IsLower-unique_at k q a b = elim (a.here) [
    | inl f ↦ elim (b.here) [
      | inl g ↦ ground (arith, a.before q.i, b.before k.i, f.0, f.1, g.0, g.1)
      | inr g ↦ ground (
        arith,
        a.before q.i,
        b.before k.i,
        a.after q.i,
        b.after k.i,
        f.0,
        f.1,
        g.0,
        a.inside,
        b.inside,
      )
    ]
    | inr f ↦ elim (b.here) [
      | inl g ↦ ground (
        arith,
        a.before q.i,
        b.before k.i,
        a.after q.i,
        b.after k.i,
        f.0,
        g.1,
        g.0,
        a.inside,
        b.inside,
      )
      | inr g ↦ ground (
        arith,
        a.before q.i,
        b.before k.i,
        a.after q.i,
        b.after k.i,
        f.0,
        g.0,
        a.inside,
        b.inside,
      )
    ]
  ]

  pub IsLower-unique :
      (k q : KeyIndexedPosition)
      → IsLower perm comparator size k
      → IsLower perm comparator size q
      → k ≡ q
  IsLower-unique k q a b =
      let e : k.i ≡ q.i = IsLower-unique_at k q a b in
      let g : k.p ≡ q.p = elim (a.here) [
        | inl x ↦ elim (b.here) [
          | inl y ↦ x.2 ∙ ap (λ z. some (perm z)) e ∙ sym y.2
          | inr y ↦
              absurd (ground (arith, e, x.0, x.1, y.0, ap (λ z. rank (comparator (perm z))) e))
        ]
        | inr x ↦ elim (b.here) [
          | inl y ↦
              absurd (ground (arith, e, y.0, y.1, x.0, ap (λ z. rank (comparator (perm z))) e))
          | inr y ↦ x.1 ∙ sym y.1
        ]
      ] in
      λ z. record { i = e z; p = g z }
