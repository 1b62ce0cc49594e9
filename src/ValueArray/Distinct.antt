-- ===== src/ValueArray/Distinct.antt =====
-- The strings that `update` makes are different ones.
use incll.Base.{
  ℕ, ◌+◌, ◌≤◌, ◌<◌, ◌≡◌, ◌≢◌, inl, inr, refl, sym, ap, ◌∙◌, arith, false, ◌==◌, ==_iff,
  if◌then◌else◌, Bool-cases, none, some, List, [], ◌∷◌,
}
use incll.Internode.{store}
use incll.ValueBag.{Changes}
use incll.ValueBag.Layout.{IsIncreasing}
use incll.ValueArray.{Heap, make_column, put_columns}
use incll.ValueArray.Share.{changed, IsPut, none≢some, changed_before, put_columns-IsPut}

-- Where a new column stands, and the changes that are in front of it
new_from :
    (changes : Changes) (cols : ℕ → ℕ) (h : Heap) (cols' : ℕ → ℕ) (h' : Heap) (i : ℕ)
    → IsPut changes cols h cols' h'
    → changed changes i ≢ none
    → cols' i ≢ 0
    → h.next ≤ cols' i
new_from changes cols h cols' h' i put is there = elim (put.column i) [
  | inl (unchanged, same) ↦ absurd (is unchanged)
  | inr (v, e, inl (null, empty)) ↦ absurd (there null)
  | inr (v, e, inr (fresh, below, string)) ↦ fresh
]

make_column-below :
    (v : List ℕ) (h : Heap)
    → (make_column v h).0 ≢ 0
    → (make_column v h).0 < (make_column v h).1.next
unfolding make_column
make_column-below [] h there = absurd (there refl)
make_column-below (c ∷ cs) h there = omega arith

-- The address made for the first change stays, and is below those of the others.
first_below :
    (change : ℕ × List ℕ) (changes : Changes) (lo : ℕ) (cols : ℕ → ℕ) (h : Heap)
    → IsIncreasing lo (change ∷ changes)
    → (i j : ℕ) → i ≡ change.0
    → changed changes j ≢ none
    → (put_columns (change ∷ changes) cols h).0 i ≢ 0
    → (put_columns (change ∷ changes) cols h).0 j ≢ 0
    → (put_columns (change ∷ changes) cols h).0 i < (put_columns (change ∷ changes) cols h).0 j
unfolding put_columns store
first_below change changes lo cols h inc i j at b there other =
    let made : ℕ × Heap = make_column (change.1) h in
    let next : ℕ → ℕ = λ x. if x == change.0 then made.0 else cols x in
    let rest = put_columns-IsPut changes (change.0 + 1) next (made.1) inc.1 in
    let high =
      new_from changes next (made.1) ((put_columns changes next (made.1)).0)
        ((put_columns changes next (made.1)).1) j rest b other in
    let none_behind : changed changes i ≡ none =
      changed_before changes (change.0 + 1) i inc.1 (omega (arith, at)) in
    let mine : (put_columns changes next (made.1)).0 i ≡ made.0 = elim (rest.column i) [
      | inl (unchanged, same) ↦
          same ∙ ap (λ x. if x then made.0 else cols i) ((==_iff i (change.0)).1 at)
      | inr (v, is, new) ↦ absurd (none≢some (sym none_behind ∙ is))
    ] in
    omega (arith, high, mine, make_column-below (change.1) h (λ z. there (mine ∙ z)))

-- Two new columns are two strings.
pub put_columns_distinct :
    (changes : Changes) (lo : ℕ) (cols : ℕ → ℕ) (h : Heap)
    → IsIncreasing lo changes
    → (i j : ℕ) → changed changes i ≢ none
    → changed changes j ≢ none
    → (put_columns changes cols h).0 i ≢ 0
    → (put_columns changes cols h).0 i ≡ (put_columns changes cols h).0 j
    → i ≡ j
unfolding put_columns store
put_columns_distinct [] lo cols h inc i j a b there e = absurd (a refl)
put_columns_distinct (change ∷ changes) lo cols h inc i j a b there e =
    let made : ℕ × Heap = make_column (change.1) h in
    let cut : (x : ℕ)
        → (change.0 == x) ≡ false
        → changed (change ∷ changes) x ≢ none
        → changed changes x ≢ none =
      λ x f is z. is (ap (λ y. if y then some (change.1) else changed changes x) f ∙ z) in
    elim (Bool-cases (change.0 == i)) [
      | inl f ↦
          let at : i ≡ change.0 = sym ((==_iff (change.0) i).0 f) in
          elim (Bool-cases (change.0 == j)) [
            | inl g ↦ at ∙ (==_iff (change.0) j).0 g
            | inr g ↦ absurd (
                omega (
                  arith,
                  e,
                  first_below change changes lo cols h inc i j at (cut j g b) there
                      (λ z. there (e ∙ z)),
                ))
          ]
      | inr f ↦ elim (Bool-cases (change.0 == j)) [
        | inl g ↦
            let at : j ≡ change.0 = sym ((==_iff (change.0) j).0 g) in
            absurd (
              omega (
                arith,
                e,
                first_below change changes lo cols h inc j i at (cut i f a) (λ z. there (e ∙ z))
                    there,
              ))
        | inr g ↦
            put_columns_distinct changes (change.0 + 1) (store cols (change.0) (made.0)) (made.1)
              inc.1 i j (cut i f a) (cut j g b) there e
      ]
    ]
