-- ===== src/GlobalFlush/Examples.antt =====
-- Runs of the global flush with two threads.
use incll.Base.{ℕ, ◌≡◌, inl, refl, arith, Bool, true, false, [], ◌∷◌, All}
use incll.GlobalFlush.{
  flushed, Worker, running, unfinished, parked, Flusher, alerted, waiting, Shared, State,
  see_warning, not_done, see_flush, acknowledge, alert, go_on, enter, take_ack, work, flush,
  Reachable, start, step,
}
use incll.GlobalFlush.Progress.{Run, Reachable-Run}
use incll.GlobalFlush.Safety.{Reachable-IsFlushing}

abbrev vars : ℕ → Bool → Bool → Shared
vars acks warning flushing = record {
  flush_ack_sem = 0;
  ack_sem = acks;
  inflush_warning = warning;
  waiting_flush = flushing;
  done_threads = 0;
}

abbrev at : Shared → Worker → Flusher → State
at s w f = record { shared = s; workers = w ∷ []; flusher = f; flushes = 0; checkpoints = 0 }

alerted_run : Reachable 2 (at (vars 0 true false) unfinished alerted)
alerted_run =
    step _ _
      (step _ _
        (step _ _ (start (running ∷ []) refl (refl, tt)) (flush _ _ _ _ _ _ _ _ _ (alert _)))
        (work _ [] [] _ _ _ _ _ _ _ (see_warning (vars 0 true false) refl)))
      (work _ [] [] _ _ _ _ _ _ _ (not_done (vars 0 true false) (λ e. absurd (omega (arith, e)))))

parked_run : Reachable 2 (at (vars 1 true true) parked (waiting 1))
parked_run =
    step _ _
      (step _ _
        (step _ _
          (step _ _ alerted_run
            (flush _ _ _ _ _ _ _ _ _ (go_on (vars 0 true false) (λ e. absurd (omega (arith, e))))))
          (flush _ _ _ _ _ _ _ _ _ (enter (vars 0 true false))))
        (work _ [] [] _ _ _ _ _ _ _ (see_flush (vars 0 true true) refl)))
      (work _ [] [] _ _ _ _ _ _ _ (acknowledge (vars 0 true true)))

acknowledged_run : Reachable 2 (at (vars 0 true true) parked (waiting 0))
acknowledged_run =
    step _ _ parked_run (flush _ _ _ _ _ _ _ _ _ (take_ack (vars 1 true true) 0 0 refl))

Reachable-IsFlushing_example :
    All (λ w. w ≡ parked) (parked ∷ [])
    × ((vars 0 true true).ack_sem ≡ 0)
    × ((vars 0 true true).flush_ack_sem ≡ 0)
Reachable-IsFlushing_example =
    Reachable-IsFlushing 2 (at (vars 0 true true) parked (waiting 0)) acknowledged_run (inl refl)

Reachable-Run_example :
    (u : State) × Run 2 (at (vars 1 true true) parked (waiting 1)) u × (u.flusher ≡ flushed)
Reachable-Run_example =
    Reachable-Run 2 (vars 1 true true) (parked ∷ []) 1 0 0 parked_run
      (λ e. absurd (omega (arith, e))) (refl, tt)
