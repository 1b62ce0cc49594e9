-- ===== src/ValueArray/Free.antt =====
-- What an update makes of the columns of the old row, and what it frees.
use mathlib.Core.Path.{subst}
use incll.Base.{
  ℕ, ◌+◌, ◌≤◌, ◌<◌, ◌≡◌, ◌≢◌, ◌⊎◌, inl, inr, refl, sym, ap, ◌∙◌, arith, false, ltb, ◌==◌, ==_iff,
  ==_refl, if◌then◌else◌, Bool-cases, le_or_lt, some, List, [], ◌∷◌,
}
use incll.ValueBag.{Changes}
use incll.ValueBag.Layout.{IsIncreasing}
use incll.ValueArray.{Array, last_column, freed_after_update}
use incll.ValueArray.Share.{changed, IsIn, none≢some, changed_before}

changed_from :
    (changes : Changes) (lo i : ℕ) (v : List ℕ)
    → IsIncreasing lo changes
    → changed changes i ≡ some v
    → lo ≤ i
changed_from changes lo i v inc e = elim (le_or_lt i lo) [
  | inl l ↦ absurd (none≢some (sym (changed_before changes lo i inc l) ∙ e))
  | inr l ↦ l
]

pub changed_last :
    (changes : Changes) (c i : ℕ) (v : List ℕ) (lo : ℕ)
    → IsIncreasing lo changes
    → changed changes i ≡ some v
    → i ≤ last_column changes c
unfolding last_column
changed_last [] c i v lo inc e = absurd (none≢some e)
changed_last (change ∷ changes) c i v lo inc e = elim (Bool-cases (change.0 == i)) [
  | inl b ↦
      let at : i ≡ change.0 = sym ((==_iff (change.0) i).0 b) in
      omega (arith, at, last_from changes (change.0) (change.0 + 1) inc.1 (omega arith))
  | inr b ↦
      changed_last changes (change.0) i v (change.0 + 1) inc.1
        (ap (λ x. if x then some (change.1) else changed changes i) (sym b) ∙ e)
]
  where
    last_from :
        (changes : Changes) (c lo : ℕ)
        → IsIncreasing lo changes
        → c ≤ lo
        → c ≤ last_column changes c
    last_from [] c lo inc h = omega arith
    last_from (change ∷ changes) c lo inc h =
        omega (arith, last_from changes (change.0) (change.0 + 1) inc.1 (omega arith), inc.0, h)

-- The columns freed for the first change and the rest
freed_cases :
    (r : Array) (change : ℕ × List ℕ) (changes : Changes)
    → ((r.ncol ≤ change.0) × (freed_after_update r (change ∷ changes) ≡ []))
      ⊎ ((change.0 < r.ncol)
          × (((r.cols (change.0) ≡ 0)
                × (freed_after_update r (change ∷ changes) ≡ freed_after_update r changes))
              ⊎ (freed_after_update r (change ∷ changes)
                  ≡ r.cols (change.0) ∷ freed_after_update r changes)))
unfolding freed_after_update
freed_cases r change changes = elim (Bool-cases (ltb (change.0) r.ncol)) [
  | inr e ↦ inl (ground (arith, e), rw e refl)
  | inl e ↦ inr (
    ground (arith, e),
    elim (Bool-cases (r.cols (change.0) == 0)) [
      | inl f ↦ inl ((==_iff _ 0).0 f, rw (e, f) refl)
      | inr f ↦ inr (rw (e, f) refl)
    ],
  )
]

-- A change behind the first one
later_change :
    (change : ℕ × List ℕ) (changes : Changes) (lo c : ℕ) (v : List ℕ)
    → IsIncreasing lo (change ∷ changes)
    → changed changes c ≡ some v
    → changed (change ∷ changes) c ≡ some v
later_change change changes lo c v inc e =
    let behind : (change.0 == c) ≡ false =
      ground (arith, changed_from changes (change.0 + 1) c v inc.1 e) in
    rw behind e

-- What is freed is a column of the old row that is changed.
pub freed-changed :
    (r : Array) (changes : Changes) (lo x : ℕ)
    → IsIncreasing lo changes
    → IsIn x (freed_after_update r changes)
    → (c : ℕ) × (v : List ℕ) × (changed changes c ≡ some v) × (c < r.ncol) × (x ≡ r.cols c)
unfolding freed_after_update
freed-changed r [] lo x inc h = absurd h
freed-changed r (change ∷ changes) lo x inc h = elim (freed_cases r change changes) [
  | inl (beyond, e) ↦ absurd (subst (IsIn x) e h)
  | inr (inside, inl (null, e)) ↦
      behind (freed-changed r changes (change.0 + 1) x inc.1 (subst (IsIn x) e h))
  | inr (inside, inr e) ↦ elim (subst (IsIn x) e h) [
    | inl here ↦ (
      change.0,
      change.1,
      ap (λ b. if b then some (change.1) else changed changes (change.0)) (==_refl (change.0)),
      inside,
      here,
    )
    | inr more ↦ behind (freed-changed r changes (change.0 + 1) x inc.1 more)
  ]
]
  where
    behind :
        ((c : ℕ) × (v : List ℕ) × (changed changes c ≡ some v) × (c < r.ncol) × (x ≡ r.cols c))
        → (c : ℕ) × (v : List ℕ) × (changed (change ∷ changes) c ≡ some v)
          × (c < r.ncol)
          × (x ≡ r.cols c)
    behind (c, v, is, inside, at) = (c, v, later_change change changes lo c v inc is, inside, at)

pub changed-freed :
    (r : Array) (changes : Changes) (lo c : ℕ) (v : List ℕ)
    → IsIncreasing lo changes
    → changed changes c ≡ some v
    → c < r.ncol
    → r.cols c ≢ 0
    → IsIn (r.cols c) (freed_after_update r changes)
changed-freed r [] lo c v inc e h some_col = absurd (none≢some e)
changed-freed r (change ∷ changes) lo c v inc e h some_col = elim (Bool-cases (change.0 == c)) [
  | inl b ↦
      let at : change.0 ≡ c = (==_iff (change.0) c).0 b in
      elim (freed_cases r change changes) [
        | inl (beyond, f) ↦ absurd (omega (arith, beyond, at, h))
        | inr (inside, inl (null, f)) ↦ absurd (some_col (ap r.cols (sym at) ∙ null))
        | inr (inside, inr f) ↦ subst (IsIn (r.cols c)) (sym f) (inl (ap r.cols (sym at)))
      ]
  | inr b ↦
      let rest : changed changes c ≡ some v =
        ap (λ x. if x then some (change.1) else changed changes c) (sym b) ∙ e in
      let more = changed-freed r changes (change.0 + 1) c v inc.1 rest h some_col in
      elim (freed_cases r change changes) [
        | inl (beyond, f) ↦
            absurd (omega (arith, beyond, h, changed_from changes (change.0 + 1) c v inc.1 rest))
        | inr (inside, inl (null, f)) ↦ subst (IsIn (r.cols c)) (sym f) more
        | inr (inside, inr f) ↦ subst (IsIn (r.cols c)) (sym f) (inr more)
      ]
]
