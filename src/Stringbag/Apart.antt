-- ===== src/Stringbag/Apart.antt =====
-- What a store of a string does to the bytes of memory.
use incll.Base.{
  ℕ, zero, suc, ◌+◌, ◌<◌, ◌≡◌, ◌≢◌, refl, ap₂, ◌∙◌, arith, true, false, ◌==◌, ==_ne, ==_refl,
  if◌then◌else◌, List, [], ◌∷◌, length,
}
use incll.Slice.{load}
use incll.Stringbag.{store}

pub store-outside :
    (cs : List ℕ) (a x : ℕ) (mem : ℕ → ℕ)
    → ((j : ℕ) → j < length cs → x ≢ a + j)
    → store a cs mem x ≡ mem x
unfolding store
store-outside [] a x mem h = refl
store-outside (c ∷ cs) a x mem h =
    let here : (x == a) ≡ false = ==_ne x a (λ e. h 0 (omega arith) (omega (arith, e))) in
    store-outside cs (a + 1) x (λ b. if b == a then c else mem b)
      (λ j l e. h (suc j) (omega arith) (omega (arith, e)))
    ∙ rw here refl

pub load-store : (cs : List ℕ) (a : ℕ) (mem : ℕ → ℕ) → load (store a cs mem) a (length cs) ≡ cs
unfolding store load
load-store [] a mem = refl
load-store (c ∷ cs) a mem =
    let next : ℕ → ℕ = λ b. if b == a then c else mem b in
    let here : (a == a) ≡ true = ==_refl a in
    let first : next a ≡ c = rw here refl in
    ap₂ (λ x xs. x ∷ xs)
      (store-outside cs (a + 1) a next (λ j l e. absurd (omega (arith, e))) ∙ first)
      (load-store cs (a + 1) next)

pub load-outside :
    (n b a : ℕ) (cs : List ℕ) (mem : ℕ → ℕ)
    → ((i j : ℕ) → i < n → j < length cs → b + i ≢ a + j)
    → load (store a cs mem) b n ≡ load mem b n
unfolding load
load-outside zero b a cs mem h = refl
load-outside (suc n) b a cs mem h =
    ap₂ (λ x xs. x ∷ xs)
      (store-outside cs a b mem (λ j l e. h 0 j (omega arith) l (omega (arith, e))))
      (load-outside n (b + 1) a cs mem
        (λ i j k l e. h (suc i) j (omega arith) l (omega (arith, e))))
