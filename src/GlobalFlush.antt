-- ===== src/GlobalFlush.antt =====
-- incll_gf.hh, `GlobalFlush`: how the thread that flushes stops the other ones. Each access to a
-- shared variable or a semaphore is a step; a thread's position between two of them is a
-- constructor. The workers call `ack_flush` again and again, the flushing thread `flush`; a
-- semaphore is its count, and waiting for one is the lack of a step.
pub mod Invariant
pub mod Safety
pub mod Warned
pub mod Progress
pub mod Examples
use incll.Base.{
  ℕ, zero, suc, ◌+◌, ◌-◌, ◌≡◌, ◌≢◌, Bool, true, false, List, [], ◌∷◌, ◌++◌, length, All,
}

-- Where a worker is: between calls, in `thread_done` after the warning is stored, in `ack_flush`
-- after the warning is seen, after not all threads are done, after the flush is seen, between the
-- two semaphores, after the second one, and after the result `true`.
pub data Worker : Type 0 where
  running finishing warned unfinished acking parked resumed left : Worker

-- Where the flushing thread is: between calls, in `flush` after the warning is stored, after not
-- all threads are done, before `n` more acknowledgements, after the flush, before `n` more
-- releases, and after its checkpoint.
pub data Flusher : Type 0 where
  idle alerted entering : Flusher
  waiting : ℕ → Flusher
  flushed : Flusher
  releasing : ℕ → Flusher
  closing : Flusher

pub record Shared : Type 0 where
  pub flush_ack_sem : ℕ
  pub ack_sem : ℕ
  pub inflush_warning : Bool
  pub waiting_flush : Bool
  pub done_threads : ℕ

-- `flushes` counts the calls of `global_flush`, `checkpoints` those of `checkpoint` by any thread.
pub record State : Type 0 where
  pub shared : Shared
  pub workers : List Worker
  pub flusher : Flusher
  pub flushes : ℕ
  pub checkpoints : ℕ

-- `init(nthreads)`, with one thread to flush
abbrev pub init : ℕ → List Worker → State
init nthreads ws = record {
  shared = record {
    flush_ack_sem = 0;
    ack_sem = 0;
    inflush_warning = false;
    waiting_flush = false;
    done_threads = 0;
  };
  workers = ws;
  flusher = idle;
  flushes = 0;
  checkpoints = 0;
}

-- A step of a worker. The last index is whether it makes a checkpoint.
pub data Work (nthreads : ℕ) : Shared → Worker → Shared → Worker → ℕ → Type 0 where
  no_warning : (s : Shared) → s.inflush_warning ≡ false → Work nthreads s running s running 0
  see_warning : (s : Shared) → s.inflush_warning ≡ true → Work nthreads s running s warned 0
  all_done : (s : Shared) → s.done_threads ≡ nthreads → Work nthreads s warned s left 0
  not_done : (s : Shared) → s.done_threads ≢ nthreads → Work nthreads s warned s unfinished 0
  no_flush : (s : Shared) → s.waiting_flush ≡ false → Work nthreads s unfinished s running 0
  see_flush : (s : Shared) → s.waiting_flush ≡ true → Work nthreads s unfinished s acking 0
  acknowledge :
      (s : Shared) → Work nthreads s acking (record s { ack_sem = suc s.ack_sem }) parked 0
  resume :
      (s : Shared) (k : ℕ)
      → s.flush_ack_sem ≡ suc k
      → Work nthreads s parked (record s { flush_ack_sem = k }) resumed 0
  checkpoint : (s : Shared) → Work nthreads s resumed s running 1
  warn_done :
      (s : Shared) → Work nthreads s running (record s { inflush_warning = true }) finishing 0
  count_done :
      (s : Shared)
      → Work nthreads s finishing (record s { done_threads = suc s.done_threads }) running 0

-- A step of the flushing thread. The last indices are the flushes and checkpoints that it makes.
pub data Flush (nthreads : ℕ) : Shared → Flusher → Shared → Flusher → ℕ → ℕ → Type 0 where
  alert : (s : Shared) → Flush nthreads s idle (record s { inflush_warning = true }) alerted 0 0
  give_up : (s : Shared) → s.done_threads ≡ nthreads → Flush nthreads s alerted s idle 0 0
  go_on : (s : Shared) → s.done_threads ≢ nthreads → Flush nthreads s alerted s entering 0 0
  enter :
      (s : Shared)
      → Flush nthreads s entering (record s { waiting_flush = true }) (waiting (nthreads - 1)) 0 0
  take_ack :
      (s : Shared) (k a : ℕ)
      → s.ack_sem ≡ suc a
      → Flush nthreads s (waiting (suc k)) (record s { ack_sem = a }) (waiting k) 0 0
  flush_all : (s : Shared) (k : ℕ) → k ≡ 0 → Flush nthreads s (waiting k) s flushed 1 0
  leave :
      (s : Shared)
      → Flush nthreads s flushed (record s { waiting_flush = false }) (releasing (nthreads - 1)) 0 0
  release :
      (s : Shared) (k : ℕ)
      → Flush nthreads s
          (releasing (suc k))
          (record s { flush_ack_sem = suc s.flush_ack_sem })
          (releasing k)
          0
          0
  checkpoint_own : (s : Shared) (k : ℕ) → k ≡ 0 → Flush nthreads s (releasing k) s closing 0 1
  close : (s : Shared) → Flush nthreads s closing (record s { inflush_warning = false }) idle 0 0

-- A step of the whole: one worker or the flushing thread moves.
pub data Step (nthreads : ℕ) : State → State → Type 0 where
  work :
      (s : Shared) (before after : List Worker) (w v : Worker) (t : Shared) (f : Flusher)
      (n c k : ℕ)
      → Work nthreads s w t v k
      → Step nthreads
          (record {
            shared = s;
            workers = before ++ w ∷ after;
            flusher = f;
            flushes = n;
            checkpoints = c;
          })
          (record {
            shared = t;
            workers = before ++ v ∷ after;
            flusher = f;
            flushes = n;
            checkpoints = c + k;
          })
  flush :
      (s t : Shared) (ws : List Worker) (f g : Flusher) (n c m k : ℕ)
      → Flush nthreads s f t g m k
      → Step nthreads
          (record { shared = s; workers = ws; flusher = f; flushes = n; checkpoints = c })
          (record { shared = t; workers = ws; flusher = g; flushes = n + m; checkpoints = c + k })

-- The states that `nthreads` threads can come to, all of them between calls at first.
pub data Reachable (nthreads : ℕ) : State → Type 0 where
  start :
      (ws : List Worker)
      → length ws ≡ nthreads - 1
      → All (λ w. w ≡ running) ws
      → Reachable nthreads (init nthreads ws)
  step : (s t : State) → Reachable nthreads s → Step nthreads s t → Reachable nthreads t
