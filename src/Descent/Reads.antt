-- ===== src/Descent/Reads.antt =====
-- What the search returns while other threads write.
use mathlib.Core.Path.{subst}
use incll.Base.{
  ℕ, zero, suc, ◌+◌, ◌≤◌, ◌<◌, ◌≡◌, inl, inr, refl, ap, arith, Bool, true, false, ◌==◌, Bool-cases,
  if◌then◌else◌,
}
use incll.Nodeversion
use incll.Ksearch.{Sign, negative, null, positive}
use incll.Ksearch.Bounds.{rank}
use incll.Descent.{
  Store, Position, climbing, orphan, descending, chosen, reading, checked, changed, comparing,
  recomparing, compared, found, stable, advance, run,
}
use incll.Descent.Tree.{IsClean}
use incll.Descent.Way

module _ (mem : ℕ → Store) (t0 t1 this ikey : ℕ) where
  abbrev Seen : ℕ → ℕ → Type 0
  Seen n v = Way.Seen mem t0 t1 ikey n v

  abbrev Reread : ℕ → ℕ → Type 0
  Reread n v = Way.Reread mem t0 t1 ikey n v

  abbrev Settled : ℕ → ℕ → ℕ → Type 0
  Settled n v w = Way.Settled mem t0 t1 ikey n v w

  abbrev Weighed : ℕ → ℕ → ℕ → Sign → Type 0
  Weighed n v w cmp = Way.Weighed mem t0 t1 ikey n v w cmp

  -- What has been read before the time `t` by a search that is at a position
  abbrev IsOnWay : ℕ → Position → Type 0
  IsOnWay t (climbing n) = Unit
  IsOnWay t (orphan n) = Unit
  IsOnWay t (descending n v) = (s : Seen n v) × (s.at < t)
  IsOnWay t (chosen n v kp) = (s : Way.Searched mem t0 t1 ikey n v kp) × (s.at < t)
  IsOnWay t (reading n v c) = (s : Way.Fetched mem t0 t1 ikey n v c) × (s.at < t)
  IsOnWay t (checked n v c w) = (s : Way.Entered mem t0 t1 ikey n v c w) × (s.at < t)
  IsOnWay t (changed n v) = (s : Seen n v) × (s.at < t)
  IsOnWay t (comparing n v w) = (s : Settled n v w) × (s.at < t)
  IsOnWay t (recomparing n v w) = (s : Settled n v w) × (s.at < t)
  IsOnWay t (compared n v w cmp) = (s : Weighed n v w cmp) × (s.at < t)
  IsOnWay t (found n v) = (s : Seen n v) × (s.at < t) × (Nodeversion.isleaf v ≡ true)

  now :
      (t n : ℕ)
      → t0 ≤ t
      → IsClean ((mem t).version n)
      → Way.IsRead mem t0 t1 ikey n ((mem t).version n) t
  now t n h c = record { start = h; version = refl; clean = c }

  -- A round of `stable` with what holds if the word is dirty, and if it is clean
  stable_round :
      (P : Position → Type 0) (v : ℕ) (spin next : Position)
      → P spin
      → (IsClean v → P next)
      → P (stable v spin next)
  unfolding stable
  stable_round P v spin next h f = elim (Bool-cases (Nodeversion.has v Nodeversion.dirty_mask)) [
    | inl e ↦ rw e h
    | inr e ↦ rw e (f e)
  ]

  either :
      (P : Position → Type 0) (b : Bool) (p q : Position)
      → (b ≡ true → P p)
      → (b ≡ false → P q)
      → P (if b then p else q)
  either P true p q f g = f refl
  either P false p q f g = g refl

  -- The version that was read again, after the comparison with the last key
  Weighed-Seen :
      (t n v w : ℕ) (cmp : Sign) (s : Weighed n v w cmp)
      → s.at < t
      → t < t1
      → rank cmp ≤ 1
      → Nodeversion.has_changed ((mem t).version n) w ≡ false
      → (r : Seen n v) × (r.at < t + 1)
  Weighed-Seen t n v w cmp s h end low same =
      let old = s.settled.reread in
      let sign : rank (Way.last_compare mem t0 t1 ikey n s.at) ≤ 1 =
        omega (arith, ap rank s.sign, low) in
      (
        record {
          at = old.at;
          read = old.read;
          way =
              Way.within n old.old old.seen.at v old.at w s.settled.at s.at t old.seen.way old.after
                old.read s.settled.after s.settled.read s.after sign h end same;
        },
        omega (arith, h, s.settled.after, s.after),
      )

  IsOnWay-advance :
      (t : ℕ) (p : Position)
      → t0 ≤ t
      → t < t1
      → IsOnWay t p
      → IsOnWay (t + 1) (advance this ikey (mem t) p)
  unfolding advance
  IsOnWay-advance t (climbing n) h end r =
      let v : ℕ = (mem t).version n in
      stable_round (IsOnWay (t + 1)) v _ _ tt (λ c.
        either (IsOnWay (t + 1)) (Nodeversion.is_root v) _ _
          (λ e. (
            record { at = t; read = now t n h c; way = Way.top n v t (now t n h c) e },
            omega arith,
          ))
          (λ e. tt))
  IsOnWay-advance t (orphan n) h end r = tt
  IsOnWay-advance t (descending n v) h end (s, b) =
      either (IsOnWay (t + 1)) (Nodeversion.isleaf v) _ _ (λ e. (s, omega (arith, b), e))
        (λ e. (record { seen = s; inner = e; at = t; after = b; search = refl }, omega arith))
  IsOnWay-advance t (chosen n v kp) h end (s, b) =
      let c : ℕ = ((mem t).inner n).child kp in
      either (IsOnWay (t + 1)) (c == 0) _ _ (λ e. tt)
        (λ e. (
          record {
            kp = kp;
            searched = s;
            at = t;
            after = b;
            child = refl;
            there = λ z. ground (arith, e, z);
          },
          omega arith,
        ))
  IsOnWay-advance t (reading n v c) h end (s, b) =
      stable_round (IsOnWay (t + 1)) ((mem t).version c) _ _ (s, omega (arith, b))
        (λ k. (record { fetched = s; at = t; after = b; read = now t c h k }, omega arith))
  IsOnWay-advance t (checked n v c w) h end (s, b) =
      let f = s.fetched in
      let d = f.searched in
      either (IsOnWay (t + 1)) (Nodeversion.has_changed ((mem t).version n) v) _ _
        (λ e. (d.seen, omega (arith, b, d.after, f.after, s.after)))
        (λ e. (
          record {
            at = s.at;
            read = s.read;
            way =
                Way.down n v d.seen.at f.kp d.at c f.at w s.at t d.seen.way d.inner d.after d.search
                  f.after f.child f.there s.after s.read b end e;
          },
          omega (arith, b),
        ))
  IsOnWay-advance t (changed n v) h end (s, b) =
      let w : ℕ = (mem t).version n in
      stable_round (IsOnWay (t + 1)) w _ _ (s, omega (arith, b))
        (λ k.
          either (IsOnWay (t + 1)) (Nodeversion.has_split v w) _ _
            (λ e. (
              record {
                reread = record { old = v; seen = s; at = t; after = b; read = now t n h k };
                at = t;
                after = omega arith;
                read = now t n h k;
              },
              omega arith,
            ))
            (λ e. (
              record {
                at = t;
                read = now t n h k;
                way = Way.again n v s.at w t s.way b (now t n h k) e;
              },
              omega arith,
            )))
  IsOnWay-advance t (comparing n v w) h end (s, b) =
      (record { settled = s; at = t; after = b; sign = refl }, omega arith)
  IsOnWay-advance t (compared n v w negative) h end (s, b) =
      either (IsOnWay (t + 1)) (Nodeversion.has_changed ((mem t).version n) w) _ _
        (λ e. (s.settled, omega (arith, b, s.after)))
        (Weighed-Seen t n v w negative s b end (omega arith))
  IsOnWay-advance t (compared n v w null) h end (s, b) =
      either (IsOnWay (t + 1)) (Nodeversion.has_changed ((mem t).version n) w) _ _
        (λ e. (s.settled, omega (arith, b, s.after)))
        (Weighed-Seen t n v w null s b end (omega arith))
  IsOnWay-advance t (compared n v w positive) h end (s, b) =
      either (IsOnWay (t + 1)) (Nodeversion.has_changed ((mem t).version n) w) _ _
        (λ e. (s.settled, omega (arith, b, s.after))) (λ e. tt)
  IsOnWay-advance t (recomparing n v w) h end (s, b) =
      stable_round (IsOnWay (t + 1)) ((mem t).version n) _ _ (s, omega (arith, b))
        (λ k. (
          record {
            reread = s.reread;
            at = t;
            after = omega (arith, b, s.after);
            read = now t n h k;
          },
          omega arith,
        ))
  IsOnWay-advance t (found n v) h end (s, b, e) = (s, omega (arith, b), e)

  IsOnWay-run :
      (count t : ℕ) (p : Position)
      → t0 ≤ t
      → t + count ≤ t1
      → IsOnWay t p
      → IsOnWay (t + count) (run this ikey mem t count p)
  unfolding run
  IsOnWay-run zero t p h end r = let e : t ≡ t + 0 = omega arith in subst (λ x. IsOnWay x p) e r
  IsOnWay-run (suc count) t p h end r =
      let e : t + 1 + count ≡ t + suc count = omega arith in
      subst (λ x. IsOnWay x (run this ikey mem (t + 1) count (advance this ikey (mem t) p))) e
        (IsOnWay-run count (t + 1) (advance this ikey (mem t) p) (omega (arith, h))
          (omega (arith, end)) (IsOnWay-advance t p h (omega (arith, end)) r))

-- Whatever other threads write meanwhile, a search that ends has read the version that it returns
-- from the leaf that it returns, and at that time the version was clean and that of a leaf. It has
-- come there on a `Way`: from a root of the layer, each child was read from its parent and its
-- version read, before the parent's version was seen not to have changed since the search in the
-- parent; and where a changed parent was not searched anew from the top, it had not split, or the
-- slice was not above its last key while its version did not change.
pub run-Read :
    (mem : ℕ → Store) (this ikey t count n v : ℕ)
    → run this ikey mem t count (climbing this) ≡ found n v
    → (u : ℕ) × (t ≤ u)
      × (u < t + count)
      × ((mem u).version n ≡ v)
      × IsClean v
      × (Nodeversion.isleaf v ≡ true)
      × Way.Way mem t (t + count) ikey n v u
run-Read mem this ikey t count n v e =
    let r = subst (IsOnWay mem t (t + count) this ikey (t + count)) e (
      IsOnWay-run mem t (t + count) this ikey count t (climbing this) (omega arith) (omega arith)
        tt) in
    let s = r.0 in (s.at, s.read.start, r.1, s.read.version, s.read.clean, r.2, s.way)
