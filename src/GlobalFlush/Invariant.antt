-- ===== src/GlobalFlush/Invariant.antt =====
-- How many workers are parked, by what the semaphores hold and what the flushing thread owes.
use incll.Base.{
  ℕ, ◌+◌, ◌-◌, ◌≤◌, ◌≡◌, refl, ap, ◌∙◌, arith, Bool, true, false, List, [], ◌∷◌, ◌++◌, length,
  length-append, All,
}
use incll.GlobalFlush.{
  Worker, running, finishing, warned, unfinished, acking, parked, resumed, left, Flusher, idle,
  alerted, entering, waiting, flushed, releasing, closing, Shared, State, Work, no_warning,
  see_warning, all_done, not_done, no_flush, see_flush, acknowledge, resume, checkpoint, warn_done,
  count_done, Flush, alert, give_up, go_on, enter, take_ack, flush_all, leave, release,
  checkpoint_own, close, Step, work, flush, Reachable, start, step,
}

abbrev pub is_parked : Worker → ℕ
is_parked running = 0
is_parked finishing = 0
is_parked warned = 0
is_parked unfinished = 0
is_parked acking = 0
is_parked parked = 1
is_parked resumed = 0
is_parked left = 0

abbrev pub parked_count : List Worker → ℕ
parked_count [] = 0
parked_count (w ∷ ws) = is_parked w + parked_count ws

-- The acknowledgements that the flushing thread has taken and not yet answered by a release.
abbrev pub owed : ℕ → Flusher → ℕ
owed nthreads idle = 0
owed nthreads alerted = 0
owed nthreads entering = 0
owed nthreads (waiting k) = nthreads - 1 - k
owed nthreads flushed = nthreads - 1
owed nthreads (releasing k) = k
owed nthreads closing = 0

abbrev pub left_over : Flusher → ℕ
left_over idle = 0
left_over alerted = 0
left_over entering = 0
left_over (waiting k) = k
left_over flushed = 0
left_over (releasing k) = k
left_over closing = 0

-- Whether the flush is announced to the workers.
abbrev pub announced : Flusher → Bool
announced idle = false
announced alerted = false
announced entering = false
announced (waiting k) = true
announced flushed = true
announced (releasing k) = false
announced closing = false

pub record Inv (nthreads : ℕ) (s : State) : Type 0 where
  pub workers : length s.workers ≡ nthreads - 1
  pub balance :
      parked_count s.workers ≡ owed nthreads s.flusher + s.shared.ack_sem + s.shared.flush_ack_sem
  pub rounds : left_over s.flusher ≤ nthreads - 1
  pub flag : s.shared.waiting_flush ≡ announced s.flusher

parked_count-append :
    (xs ys : List Worker) → parked_count (xs ++ ys) ≡ parked_count xs + parked_count ys
parked_count-append [] ys = omega arith
parked_count-append (x ∷ xs) ys = omega (arith, parked_count-append xs ys)

Work-balance :
    {n : ℕ} {s : Shared} {w : Worker} {t : Shared} {v : Worker} {k : ℕ}
    → Work n s w t v k
    → (is_parked v + (s.ack_sem + s.flush_ack_sem) ≡ is_parked w + (t.ack_sem + t.flush_ack_sem))
      × (t.waiting_flush ≡ s.waiting_flush)
Work-balance (no_warning s e) = (refl, refl)
Work-balance (see_warning s e) = (refl, refl)
Work-balance (all_done s e) = (refl, refl)
Work-balance (not_done s e) = (refl, refl)
Work-balance (no_flush s e) = (refl, refl)
Work-balance (see_flush s e) = (refl, refl)
Work-balance (acknowledge s) = (omega arith, refl)
Work-balance (resume s k e) = (omega (arith, e), refl)
Work-balance (checkpoint s) = (refl, refl)
Work-balance (warn_done s) = (refl, refl)
Work-balance (count_done s) = (refl, refl)

Flush-balance :
    {n : ℕ} {s : Shared} {f : Flusher} {t : Shared} {g : Flusher} {m k : ℕ}
    → Flush n s f t g m k
    → left_over f ≤ n - 1
    → s.waiting_flush ≡ announced f
    → (owed n f + (s.ack_sem + s.flush_ack_sem) ≡ owed n g + (t.ack_sem + t.flush_ack_sem))
      × (left_over g ≤ n - 1)
      × (t.waiting_flush ≡ announced g)
Flush-balance (alert s) h e = (refl, h, e)
Flush-balance (give_up s d) h e = (refl, h, e)
Flush-balance (go_on s d) h e = (refl, h, e)
Flush-balance (enter s) h e = (omega arith, omega arith, refl)
Flush-balance (take_ack s k a d) h e = (omega (arith, d), omega arith, e)
Flush-balance (flush_all s k d) h e = (omega (arith, d), omega arith, e)
Flush-balance (leave s) h e = (refl, omega arith, refl)
Flush-balance (release s k) h e = (omega arith, omega arith, e)
Flush-balance (checkpoint_own s k d) h e = (omega (arith, d), omega arith, e)
Flush-balance (close s) h e = (refl, h, e)

pub Inv-Step : {n : ℕ} {s t : State} → Inv n s → Step n s t → Inv n t
Inv-Step i (work s before after w v t f n c k m) =
    let b = Work-balance m in
    record {
      workers =
          omega
            (arith, i.workers, length-append before (w ∷ after), length-append before (v ∷ after));
      balance = omega (
        arith,
        i.balance,
        b.0,
        parked_count-append before (w ∷ after),
        parked_count-append before (v ∷ after),
      );
      rounds = i.rounds;
      flag = b.1 ∙ i.flag;
    }
Inv-Step i (flush s t ws f g n c m k move) =
    let b = Flush-balance move i.rounds i.flag in
    record {
      workers = i.workers;
      balance = omega (arith, i.balance, b.0);
      rounds = b.1;
      flag = b.2;
    }

running-parked_count : (ws : List Worker) → All (λ w. w ≡ running) ws → parked_count ws ≡ 0
running-parked_count [] h = refl
running-parked_count (w ∷ ws) h = omega (arith, ap is_parked h.0, running-parked_count ws h.1)

-- In every reachable state the parked workers are those whose acknowledgement is owed a release or
-- still to be taken, and those that a release has not yet reached.
pub Reachable-Inv : (n : ℕ) (s : State) → Reachable n s → Inv n s
Reachable-Inv n s (start ws size quiet) = record {
  workers = size;
  balance = running-parked_count ws quiet;
  rounds = omega arith;
  flag = refl;
}
Reachable-Inv n t (step s t' r move) = Inv-Step (Reachable-Inv n s r) move
