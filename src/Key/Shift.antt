-- ===== src/Key/Shift.antt =====
-- Moving a key down the layers and back.
use incll.Base.{
  ℕ, zero, suc, ◌+◌, ◌-◌, ◌*◌, ◌≤◌, ◌<◌, ◌≡◌, refl, sym, ap, ap₂, ◌∙◌, arith, ◌==◌, inl, inr,
  Bool-cases, ==_iff, leb, true, false,
}
use incll.Slice.{load, make, make_sloppy, make_comparable, make_comparable_sloppy}
use incll.Slice.Sloppy.{make_comparable_sloppy-make_comparable}
use incll.Key.{Key, key, shift, unshift, unshift_all, full_string}

-- `n` calls of `shift`
abbrev pub shifts : (ℕ → ℕ) → ℕ → Key → Key
shifts mem zero k = k
shifts mem (suc n) k = shift mem (shifts mem n k)

Key-ext : (a b : Key) → a.ikey0 ≡ b.ikey0 → a.len ≡ b.len → a.s ≡ b.s → a.first ≡ b.first → a ≡ b
Key-ext a b e f g h i = record { ikey0 = e i; len = f i; s = g i; first = h i }

-- A string of at least 8 characters is read in one access.
full_slice :
    (mem : ℕ → ℕ) (s len : ℕ) → 8 ≤ len → make_comparable_sloppy mem s 8 ≡ make_comparable mem s len
unfolding make_comparable_sloppy make_comparable make_sloppy make
full_slice mem s len h =
    let some_left : leb len 0 ≡ false = ground (arith, h) in
    let long : leb 8 len ≡ true = ground (arith, h) in rw (some_left, long) refl

module _ (mem : ℕ → ℕ) (valid : (a : ℕ) → mem a < 256) (s len : ℕ) where
  -- The key at the address `x` of the string, with `y` characters to go.
  abbrev at : ℕ → ℕ → Key
  at x y = record { ikey0 = make_comparable mem x y; len = y; s = x; first = s }

  -- Each shift gives the key of the rest of the string.
  shifts_lem : (n : ℕ) → shifts mem n (key mem s len) ≡ at (s + 8 * n) (len - 8 * n)
  unfolding key shift
  shifts_lem zero =
      let here : s ≡ s + 8 * 0 = omega arith in
      let whole : len ≡ len - 8 * 0 = omega arith in ap₂ at here whole
  shifts_lem (suc n) =
      let x : ℕ = s + 8 * n + 8 in
      let y : ℕ = len - 8 * n - 8 in
      let there : x ≡ s + 8 * suc n = omega arith in
      let rest : y ≡ len - 8 * suc n = omega arith in
      ap (shift mem) (shifts_lem n)
      ∙ ap (λ i. record { ikey0 = i; len = y; s = x; first = s })
          (make_comparable_sloppy-make_comparable mem x y valid (omega arith))
      ∙ ap₂ at there rest

  unshift_all-at : (o : ℕ) → o ≤ len → unshift_all mem (at (s + o) (len - o)) ≡ key mem s len
  unfolding unshift_all key
  unshift_all-at o h = elim (Bool-cases (s + o == s)) [
    | inl e ↦
        let none : o ≡ 0 = omega (arith, (==_iff (s + o) s).0 e) in
        let here : s + o ≡ s = omega (arith, none) in
        let whole : len - o ≡ len = omega (arith, none) in rw e (ap₂ at here whole)
    | inr e ↦ let whole : len - o + (s + o - s) ≡ len = omega (arith, h) in rw (e, whole) refl
  ]

  full_string-at : (o : ℕ) → o ≤ len → full_string mem (at (s + o) (len - o)) ≡ load mem s len
  unfolding full_string
  full_string-at o h =
      let whole : s + o + (len - o) - s ≡ len = omega (arith, h) in ap (load mem s) whole

  -- After any number of shifts of a key that has a suffix each time, `unshift_all` gives the key as
  -- it was made, and `full_string` the whole string.
  pub unshift_all-shifts :
      (n : ℕ)
      → 8 * n ≤ len
      → (unshift_all mem (shifts mem n (key mem s len)) ≡ key mem s len)
        × (full_string mem (shifts mem n (key mem s len)) ≡ load mem s len)
  unshift_all-shifts n h = (
    ap (unshift_all mem) (shifts_lem n) ∙ unshift_all-at (8 * n) h,
    ap (full_string mem) (shifts_lem n) ∙ full_string-at (8 * n) h,
  )

  -- One step back keeps the slice and counts one character behind it.
  pub unshift-shifts :
      (n : ℕ)
      → 8 * suc n ≤ len
      → unshift mem (shifts mem (suc n) (key mem s len))
        ≡ record (shifts mem n (key mem s len)) { len = 9 }
  unfolding unshift
  unshift-shifts n h =
      let there : s + 8 * suc n - 8 ≡ s + 8 * n = omega arith in
      ap (unshift mem) (shifts_lem (suc n))
      ∙ ap₂ (λ i x. record { ikey0 = i; len = 9; s = x; first = s })
          (ap (λ x. make_comparable_sloppy mem x 8) there
            ∙ full_slice mem (s + 8 * n) (len - 8 * n) (omega (arith, h)))
          there
      ∙ ap {A = Key} (λ k. record k { len = 9 }) (sym (shifts_lem n))
