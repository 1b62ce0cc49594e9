-- ===== src/Lookup/Round.antt =====
-- One round of a search, from the root of a layer to the end of a leaf.
use mathlib.Core.Path.{subst}
use incll.Base.{
  ℕ, zero, suc, ◌+◌, ◌^◌, ◌<◌, ◌≡◌, inl, inr, refl, sym, ap, ◌∙◌, false, ◌==◌, ==_iff, ==_refl,
  Bool-cases, if◌then◌else◌, Option, none, some,
}
use incll.Nodeversion
use incll.Slice.{load}
use incll.Slice.Words.{pad, pad-IsBytes, length-pad, load-IsBytes, big_endian-lt}
use incll.Key.{Key}
use incll.Leaf.{lazy_recovery}
use incll.Descent.{
  Store, Position, climbing, orphan, descending, chosen, reading, checked, changed, comparing,
  recomparing, compared, found, advance, run,
}
use incll.Descent.Quiet.{has_changed_self}
use incll.Lookup.{Str, Label, retry, forward, done, landed, conclude, look, visit, step, steps}
use incll.Lookup.Layer.{slice, view}

module _ (mem : ℕ → ℕ) (valid : (x : ℕ) → mem x < 256) (ksuf : ℕ → ℕ → Str) (ge fe count : ℕ) where
  -- The way to a leaf does not depend on what the leaves hold.
  advance-view :
      (this ikey : ℕ) (s : Store) (p : Position)
      → advance this ikey (view mem ksuf ge fe count s) p ≡ advance this ikey s p
  unfolding advance
  advance-view this ikey s (climbing n) = refl
  advance-view this ikey s (orphan n) = refl
  advance-view this ikey s (descending n v) = refl
  advance-view this ikey s (chosen n v kp) = refl
  advance-view this ikey s (reading n v c) = refl
  advance-view this ikey s (checked n v c w) = refl
  advance-view this ikey s (changed n v) = refl
  advance-view this ikey s (comparing n v u) = refl
  advance-view this ikey s (recomparing n v u) = refl
  advance-view this ikey s (compared n v u cmp) = refl
  advance-view this ikey s (found n v) = refl

  pub run-view :
      (this ikey : ℕ) (s : Store) (c t : ℕ) (p : Position)
      → run this ikey (λ i. view mem ksuf ge fe count s) t c p ≡ run this ikey (λ i. s) t c p
  unfolding run
  run-view this ikey s zero t p = refl
  run-view this ikey s (suc c) t p =
      ap (run this ikey (λ i. view mem ksuf ge fe count s) (t + 1) c) (advance-view this ikey s p)
      ∙ run-view this ikey s c (t + 1) (advance this ikey s p)

  -- A visit of a leaf changes nothing for those that visit all leaves anyway.
  pub view-visit :
      (s : Store) (n : ℕ)
      → lazy_recovery ge fe (lazy_recovery ge fe (s.leaf n)) ≡ lazy_recovery ge fe (s.leaf n)
      → view mem ksuf ge fe count (visit mem ksuf ge fe count n s) ≡ view mem ksuf ge fe count s
  unfolding visit
  view-visit s n again =
      λ i. record { version = s.version; parent = s.parent; inner = s.inner; leaf = λ a. same a i }
    where
      same :
          (a : ℕ)
          → lazy_recovery ge fe (if a == n then lazy_recovery ge fe (s.leaf a) else s.leaf a)
            ≡ lazy_recovery ge fe (s.leaf a)
      same a = elim (Bool-cases (a == n)) [
        | inl e ↦
            let at : a ≡ n = (==_iff a n).0 e in
            rw e (
              subst
                (λ x.
                  lazy_recovery ge fe (lazy_recovery ge fe (s.leaf x))
                  ≡ lazy_recovery ge fe (s.leaf x))
                (sym at) again)
        | inr e ↦ rw e refl
      ]

  visit_leaf :
      (s : Store) (n : ℕ) → (visit mem ksuf ge fe count n s).leaf n ≡ lazy_recovery ge fe (s.leaf n)
  unfolding visit
  visit_leaf s n = rw (==_refl n) refl

  pub steps_done :
      (fuel : ℕ) (s : Store) (r : Option ℕ)
      → steps mem ksuf ge fe count fuel s (done r) ≡ some (s, done r)
  unfolding steps step
  steps_done zero s r = refl
  steps_done (suc fuel) s r = steps_done fuel s r

  retry_step :
      (s : Store) (k : Key) (root n v : ℕ)
      → run root k.ikey0 (λ t. s) 0 count (climbing root) ≡ found n v
      → step mem ksuf ge fe count s (retry k root)
        ≡ some (visit mem ksuf ge fe count n s, forward k root n v)
  unfolding step landed
  retry_step s k root n v e = ap (λ x. next (landed x)) e
    where
      next : Option (ℕ × ℕ) → Option (Store × Label)
      next none = none
      next (some r) = some (visit mem ksuf ge fe count (r.0) s, forward k root (r.0) (r.1))

  forward_step :
      (s : Store) (k : Key) (root n : ℕ)
      → Nodeversion.deleted (s.version n) ≡ false
      → step mem ksuf ge fe count s (forward k root n (s.version n))
        ≡ some (
          s,
          conclude mem ksuf k ((look mem ksuf n (s.leaf n) k).0) ((look mem ksuf n (s.leaf n) k).1),
        )
  unfolding step
  forward_step s k root n alive = rw (alive, has_changed_self (s.version n)) refl

  -- Two steps of a round in which `reach_leaf` comes to a leaf that is not deleted
  pub round :
      (fuel : ℕ) (s : Store) (k : Key) (root n : ℕ)
      → run root k.ikey0 (λ t. s) 0 count (climbing root) ≡ found n (s.version n)
      → Nodeversion.deleted (s.version n) ≡ false
      → steps mem ksuf ge fe count (suc (suc fuel)) s (retry k root) ≡ (
          let r = look mem ksuf n (lazy_recovery ge fe (s.leaf n)) k in
          steps mem ksuf ge fe count fuel
            (visit mem ksuf ge fe count n s)
            (conclude mem ksuf k (r.0) (r.1)))
  unfolding steps
  round fuel s k root n e alive =
      let next : Store = visit mem ksuf ge fe count n s in
      ap and_then (retry_step s k root n (s.version n) e)
      ∙ (ap and_then2 (forward_step next k root n alive)
          ∙ (ap
              (λ x.
                let r = look mem ksuf n x k in
                steps mem ksuf ge fe count fuel next (conclude mem ksuf k (r.0) (r.1)))
              (visit_leaf s n)))
    where
      and_then2 : Option (Store × Label) → Option (Store × Label)
      and_then2 none = none
      and_then2 (some r) = steps mem ksuf ge fe count fuel (r.0) (r.1)

      and_then : Option (Store × Label) → Option (Store × Label)
      and_then none = none
      and_then (some r) = steps mem ksuf ge fe count (suc fuel) (r.0) (r.1)

  pub slice-lt : (a n : ℕ) → slice (load mem a n) < 2 ^ 64
  slice-lt a n =
      big_endian-lt (pad 8 (load mem a n)) 8
        (pad-IsBytes 8 (load mem a n) (load-IsBytes mem valid a n)) (length-pad 8 (load mem a n))
