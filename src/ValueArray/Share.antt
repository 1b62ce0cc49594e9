-- ===== src/ValueArray/Share.antt =====
-- The columns that an old row and the one made from it share.
use mathlib.Core.Path.{subst}
use incll.Base.{
  ℕ, ◌+◌, ◌≤◌, ◌<◌, ◌≡◌, ◌≢◌, ◌⊎◌, inl, inr, refl, sym, ap, ◌∙◌, arith, true, false, ◌==◌, ==_iff,
  ==_refl, if◌then◌else◌, Bool-cases, Option, none, some, List, [], ◌∷◌,
}
use incll.Internode.{store}
use incll.ValueBag.{Changes}
use incll.ValueBag.Layout.{IsIncreasing}
use incll.ValueArray.{Heap, Array, make_column, put_columns}

-- What a change says of column `i`
abbrev pub changed : Changes → ℕ → Option (List ℕ)
changed [] i = none
changed (change ∷ changes) i = if change.0 == i then some (change.1) else changed changes i

abbrev pub IsIn : ℕ → List ℕ → Type 0
IsIn x [] = ⊥
IsIn x (y ∷ ys) = (x ≡ y) ⊎ IsIn x ys

-- The columns of the row are allocated, and no two are the same string.
pub record IsArray (h : Heap) (r : Array) : Type 0 where
  pub some_address : 0 < h.next
  pub allocated : (i : ℕ) → i < r.ncol → r.cols i < h.next
  pub distinct : (i j : ℕ) → i < r.ncol → j < r.ncol → r.cols i ≢ 0 → r.cols i ≡ r.cols j → i ≡ j

-- The address of a new column: null for the empty string, else a new one that holds it
abbrev pub IsNew : Heap → Heap → ℕ → List ℕ → Type 0
IsNew h h' a v = ((a ≡ 0) × (v ≡ [])) ⊎ ((h.next ≤ a) × (a < h'.next) × (h'.string a ≡ v))

-- The loop keeps what was allocated, and a column is as it was or new.
pub record IsPut (changes : Changes) (cols : ℕ → ℕ) (h : Heap) (cols' : ℕ → ℕ) (h' : Heap)
    : Type 0 where
  pub grows : h.next ≤ h'.next
  pub keeps : (a : ℕ) → a < h.next → h'.string a ≡ h.string a
  pub column :
      (i : ℕ)
      → ((changed changes i ≡ none) × (cols' i ≡ cols i))
        ⊎ ((v : List ℕ) × (changed changes i ≡ some v) × IsNew h h' (cols' i) v)

pub none≢some : {v : List ℕ} → (◌≡◌ {A = Option (List ℕ)} none (some v)) → ⊥
none≢some e = absurd (omega (arith, ap {B = ℕ} (λ o. elim o [ none ↦ 0 | some x ↦ 1 ]) e))

pub changed_before :
    (changes : Changes) (lo i : ℕ) → IsIncreasing lo changes → i < lo → changed changes i ≡ none
changed_before [] lo i inc h = refl
changed_before (change ∷ changes) lo i inc h =
    let e : (change.0 == i) ≡ false = ground (arith, inc.0, h) in
    rw e (changed_before changes (change.0 + 1) i inc.1 (omega (arith, inc.0, h)))

pub make_column_lem :
    (v : List ℕ) (h : Heap)
    → (h.next ≤ (make_column v h).1.next)
      × ((a : ℕ) → a < h.next → (make_column v h).1.string a ≡ h.string a)
      × IsNew h ((make_column v h).1) ((make_column v h).0) v
unfolding make_column
make_column_lem [] h = (omega arith, λ a l. refl, inl (refl, refl))
make_column_lem (c ∷ cs) h = (
  omega arith,
  λ a l. let e : (a == h.next) ≡ false = ground (arith, l) in rw e refl,
  inr (omega arith, omega arith, rw (==_refl h.next) refl),
)

IsNew-later :
    (h h1 h2 : Heap) (a : ℕ) (v : List ℕ)
    → h1.next ≤ h2.next
    → ((x : ℕ) → x < h1.next → h2.string x ≡ h1.string x)
    → IsNew h h1 a v
    → IsNew h h2 a v
IsNew-later h h1 h2 a v le same (inl e) = inl e
IsNew-later h h1 h2 a v le same (inr (x, y, z)) = inr (x, omega (arith, y, le), same a y ∙ z)

IsNew-earlier :
    (h h1 h2 : Heap) (a : ℕ) (v : List ℕ) → h.next ≤ h1.next → IsNew h1 h2 a v → IsNew h h2 a v
IsNew-earlier h h1 h2 a v le (inl e) = inl e
IsNew-earlier h h1 h2 a v le (inr (x, y, z)) = inr (omega (arith, x, le), y, z)

pub put_columns-IsPut :
    (changes : Changes) (lo : ℕ) (cols : ℕ → ℕ) (h : Heap)
    → IsIncreasing lo changes
    → IsPut changes cols h ((put_columns changes cols h).0) ((put_columns changes cols h).1)
unfolding put_columns store
put_columns-IsPut [] lo cols h inc = record {
  grows = omega arith;
  keeps = λ a l. refl;
  column = λ i. inl (refl, refl);
}
put_columns-IsPut (change ∷ changes) lo cols h inc =
    let made : ℕ × Heap = make_column (change.1) h in
    let m = make_column_lem (change.1) h in
    let rest =
      put_columns-IsPut changes (change.0 + 1) (store cols (change.0) (made.0)) (made.1) inc.1 in
    let end : Heap = (put_columns changes (store cols (change.0) (made.0)) (made.1)).1 in
    record {
      grows = omega (arith, m.0, rest.grows);
      keeps = λ a l. rest.keeps a (omega (arith, l, m.0)) ∙ m.1 a l;
      column = λ i. elim (rest.column i) [
        | inl (unchanged, same) ↦ elim (Bool-cases (change.0 == i)) [
          | inl e ↦
              let at : (i == change.0) ≡ true = ground (arith, e) in
              rw e (
                inr (
                  change.1,
                  refl,
                  subst (λ x. IsNew h end x (change.1))
                      (sym (same ∙ ap (λ b. if b then made.0 else cols i) at))
                      (IsNew-later h (made.1) end (made.0) (change.1) rest.grows rest.keeps m.2),
                ))
          | inr e ↦
              let at : (i == change.0) ≡ false = ground (arith, e) in
              rw e (inl (unchanged, same ∙ ap (λ b. if b then made.0 else cols i) at))
        ]
        | inr (v, is, new) ↦
            let behind : (change.0 == i) ≡ false = elim (Bool-cases (change.0 == i)) [
              | inr e ↦ e
              | inl e ↦
                  let at : i ≡ change.0 = sym ((==_iff (change.0) i).0 e) in
                  absurd (
                    none≢some (
                      sym (changed_before changes (change.0 + 1) i inc.1 (omega (arith, at))) ∙ is))
            ] in
            rw behind (inr (v, is, IsNew-earlier h (made.1) end _ v m.0 new))
      ];
    }
