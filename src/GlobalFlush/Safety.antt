-- ===== src/GlobalFlush/Safety.antt =====
-- The flush happens while every worker is stopped, and the wait for that ends.
use incll.Base.{ℕ, ◌-◌, ◌≤◌, ◌≡◌, ◌⊎◌, inl, inr, refl, ap, ◌∙◌, arith, List, [], ◌∷◌, length, All}
use incll.GlobalFlush.{
  Worker, running, finishing, warned, unfinished, acking, parked, resumed, left, waiting, flushed,
  State, Reachable,
}
use incll.GlobalFlush.Invariant.{is_parked, parked_count, owed, Reachable-Inv}

-- The flushing thread is about to flush, or has just done so.
abbrev pub IsFlushing : State → Type 0
IsFlushing s = (s.flusher ≡ waiting 0) ⊎ (s.flusher ≡ flushed)

is_parked-le : (w : Worker) → is_parked w ≤ 1
is_parked-le running = omega arith
is_parked-le finishing = omega arith
is_parked-le warned = omega arith
is_parked-le unfinished = omega arith
is_parked-le acking = omega arith
is_parked-le parked = omega arith
is_parked-le resumed = omega arith
is_parked-le left = omega arith

parked_of : (w : Worker) → is_parked w ≡ 1 → w ≡ parked
parked_of running h = absurd (omega (arith, h))
parked_of finishing h = absurd (omega (arith, h))
parked_of warned h = absurd (omega (arith, h))
parked_of unfinished h = absurd (omega (arith, h))
parked_of acking h = absurd (omega (arith, h))
parked_of parked h = refl
parked_of resumed h = absurd (omega (arith, h))
parked_of left h = absurd (omega (arith, h))

parked_count-le : (ws : List Worker) → parked_count ws ≤ length ws
parked_count-le [] = omega arith
parked_count-le (w ∷ ws) = omega (arith, is_parked-le w, parked_count-le ws)

parked_by_count : (ws : List Worker) → parked_count ws ≡ length ws → All (λ w. w ≡ parked) ws
parked_by_count [] h = tt
parked_by_count (w ∷ ws) h = (
  parked_of w (omega (arith, h, is_parked-le w, parked_count-le ws)),
  parked_by_count ws (omega (arith, h, is_parked-le w, parked_count-le ws)),
)

owed_all : (n : ℕ) (s : State) → IsFlushing s → owed n s.flusher ≡ n - 1
owed_all n s (inl e) = ap (owed n) e ∙ omega arith
owed_all n s (inr e) = ap (owed n) e

-- In every reachable state in which the flushing thread is about to flush, or has just done so, all
-- workers are parked between their two semaphores, and both semaphores are zero, however earlier
-- flushes and releases were interleaved with it.
pub Reachable-IsFlushing :
    (n : ℕ) (s : State)
    → Reachable n s
    → IsFlushing s
    → All (λ w. w ≡ parked) s.workers × (s.shared.ack_sem ≡ 0) × (s.shared.flush_ack_sem ≡ 0)
Reachable-IsFlushing n s r f =
    let i = Reachable-Inv n s r in
    let o = owed_all n s f in
    let le = parked_count-le s.workers in
    (
      parked_by_count s.workers (omega (arith, i.workers, i.balance, o, le)),
      omega (arith, i.workers, i.balance, o, le),
      omega (arith, i.workers, i.balance, o, le),
    )
