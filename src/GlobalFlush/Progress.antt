-- ===== src/GlobalFlush/Progress.antt =====
-- The flush comes about: from any state of the wait for it there is a way on.
use mathlib.Core.Bool.{true≢false}
use incll.Base.{
  le_or_lt, ℕ, zero, suc, ◌+◌, ◌*◌, ◌≤◌, ◌<◌, ◌≡◌, ◌≢◌, ◌⊎◌, inl, inr, refl, sym, ap, ◌∙◌, arith,
  Bool, true, false, List, [], ◌∷◌, ◌++◌, length, All,
}
use incll.GlobalFlush.{
  Worker, running, finishing, warned, unfinished, acking, parked, resumed, left, waiting, flushed,
  Shared, State, Work, see_warning, not_done, see_flush, acknowledge, resume, checkpoint, take_ack,
  flush_all, Step, work, flush, Reachable,
}
use mathlib.Core.Path.{subst}
use incll.GlobalFlush.Warned.{Reachable-IsWarned}
use incll.GlobalFlush.Invariant.{is_parked, parked_count, Inv, Inv-Step, Reachable-Inv}

zero_or_suc : (a : ℕ) → (a ≡ 0) ⊎ ((b : ℕ) × (a ≡ suc b))
zero_or_suc zero = inl refl
zero_or_suc (suc b) = inr (b, refl)

pub data Run (nthreads : ℕ) : State → State → Type 0 where
  done : (s : State) → Run nthreads s s
  more : (s t u : State) → Step nthreads s t → Run nthreads t u → Run nthreads s u

-- How many steps a worker is from its acknowledgement
abbrev distance : Worker → ℕ
distance running = 4
distance finishing = 0
distance warned = 3
distance unfinished = 2
distance acking = 1
distance parked = 0
distance resumed = 5
distance left = 0

abbrev total : List Worker → ℕ
total [] = 0
total (w ∷ ws) = distance w + total ws

-- A worker that is not about to end, and has not ended
abbrev pub is_going : Worker → Bool
is_going running = true
is_going finishing = false
is_going warned = true
is_going unfinished = true
is_going acking = true
is_going parked = true
is_going resumed = true
is_going left = false

record Advance (n : ℕ) (s : Shared) (w : Worker) : Type 0 where
  v : Worker
  t : Shared
  c : ℕ
  move : Work n s w t v c
  closer : distance v + 1 ≡ distance w
  goes : is_going v ≡ true
  warning : t.inflush_warning ≡ true
  count : t.done_threads ≡ s.done_threads
  releases : t.flush_ack_sem ≡ s.flush_ack_sem

advance :
    (n : ℕ) (s : Shared) (w : Worker)
    → s.inflush_warning ≡ true
    → s.waiting_flush ≡ true
    → s.done_threads ≢ n
    → 0 < distance w
    → Advance n s w
advance n s running a b d h = record {
  v = warned;
  t = s;
  c = 0;
  move = see_warning s a;
  closer = refl;
  goes = refl;
  warning = a;
  count = refl;
  releases = refl;
}
advance n s finishing a b d h = absurd (omega (arith, h))
advance n s warned a b d h = record {
  v = unfinished;
  t = s;
  c = 0;
  move = not_done s d;
  closer = refl;
  goes = refl;
  warning = a;
  count = refl;
  releases = refl;
}
advance n s unfinished a b d h = record {
  v = acking;
  t = s;
  c = 0;
  move = see_flush s b;
  closer = refl;
  goes = refl;
  warning = a;
  count = refl;
  releases = refl;
}
advance n s acking a b d h = record {
  v = parked;
  t = record s { ack_sem = suc s.ack_sem };
  c = 0;
  move = acknowledge s;
  closer = refl;
  goes = refl;
  warning = a;
  count = refl;
  releases = refl;
}
advance n s parked a b d h = absurd (omega (arith, h))
advance n s resumed a b d h = record {
  v = running;
  t = s;
  c = 1;
  move = checkpoint s;
  closer = refl;
  goes = refl;
  warning = a;
  count = refl;
  releases = refl;
}
advance n s left a b d h = absurd (omega (arith, h))

abbrev IsSplitAt : List Worker → Type 0
IsSplitAt ws =
    (before : List Worker) × (w : Worker) × (after : List Worker) × (before ++ w ∷ after ≡ ws)
    × (0 < distance w)

find_moving : (ws : List Worker) → (total ws ≡ 0) ⊎ IsSplitAt ws
find_moving [] = inl refl
find_moving (w ∷ ws) = elim (le_or_lt 0 (distance w)) [
  | inl lt ↦ inr ([], w, ws, refl, lt)
  | inr le ↦ elim (find_moving ws) [
    | inl e ↦ inl (omega (arith, e, le))
    | inr (before, v, after, e, lt) ↦ inr (w ∷ before, v, after, ap (λ xs. w ∷ xs) e, lt)
  ]
]

total-append : (xs ys : List Worker) → total (xs ++ ys) ≡ total xs + total ys
total-append [] ys = omega arith
total-append (x ∷ xs) ys = omega (arith, total-append xs ys)

All-replace :
    (P : Worker → Type 0) (before : List Worker) (w v : Worker) (after : List Worker)
    → All P (before ++ w ∷ after)
    → P v
    → All P (before ++ v ∷ after)
All-replace P [] w v after h g = (g, h.1)
All-replace P (x ∷ before) w v after h g = (h.0, All-replace P before w v after h.1 g)

parked_at_rest : (w : Worker) → is_going w ≡ true → distance w ≡ 0 → w ≡ parked
parked_at_rest running g h = absurd (omega (arith, h))
parked_at_rest finishing g h = absurd (true≢false (sym g))
parked_at_rest warned g h = absurd (omega (arith, h))
parked_at_rest unfinished g h = absurd (omega (arith, h))
parked_at_rest acking g h = absurd (omega (arith, h))
parked_at_rest parked g h = refl
parked_at_rest resumed g h = absurd (omega (arith, h))
parked_at_rest left g h = absurd (true≢false (sym g))

parked_count-rest :
    (ws : List Worker)
    → All (λ w. is_going w ≡ true) ws
    → total ws ≡ 0
    → parked_count ws ≡ length ws
parked_count-rest [] h e = refl
parked_count-rest (w ∷ ws) h e = omega (
  arith,
  parked_count-rest ws h.1 (omega (arith, e)),
  ap is_parked (parked_at_rest w h.0 (omega (arith, e))),
)

starts_parked :
    (ws : List Worker)
    → All (λ w. is_going w ≡ true) ws
    → total ws ≡ 0
    → 0 < length ws
    → (after : List Worker) × (parked ∷ after ≡ ws)
starts_parked [] g e h = absurd (omega (arith, h))
starts_parked (w ∷ ws) g e h =
    (ws, ap (λ x. x ∷ ws) (sym (parked_at_rest w g.0 (omega (arith, e)))))

module _ (n : ℕ) where
  abbrev at : Shared → List Worker → ℕ → ℕ → ℕ → State
  at s ws k m c = record {
    shared = s;
    workers = ws;
    flusher = waiting k;
    flushes = m;
    checkpoints = c;
  }

  abbrev Goal : State → Type 0
  Goal s = (u : State) × Run n s u × (u.flusher ≡ flushed)

  run_from : (s t : State) → Step n s t → Goal t → Goal s
  run_from s t move g = (g.0, more s t g.0 move g.1, g.2)

  to_flush :
      (fuel : ℕ) (s : Shared) (ws : List Worker) (k m c : ℕ)
      → Inv n (at s ws k m c)
      → s.inflush_warning ≡ true
      → s.done_threads ≢ n
      → All (λ w. is_going w ≡ true) ws
      → 6 * s.flush_ack_sem + total ws + k ≤ fuel
      → Goal (at s ws k m c)
  to_flush fuel s ws zero m c i a d g le =
      run_from _ _ (flush s s ws (waiting 0) flushed m c 1 0 (flush_all s 0 refl)) (_, done _, refl)
  to_flush zero s ws (suc k) m c i a d g le = absurd (omega (arith, le))
  to_flush (suc fuel) s ws (suc k) m c i a d g le = elim (zero_or_suc s.ack_sem) [
    | inr (acks, e) ↦
        let t : Shared = record s { ack_sem = acks } in
        let move = flush s t ws (waiting (suc k)) (waiting k) m c 0 0 (take_ack s k acks e) in
        run_from _ _ move
          (to_flush fuel t ws k (m + 0) (c + 0) (Inv-Step i move) a d g (omega (arith, le)))
    | inl e ↦ elim (find_moving ws) [
      | inr (before, w, after, eq, lt) ↦
          subst
            (λ xs.
              Inv n (at s xs (suc k) m c)
              → All (λ w. is_going w ≡ true) xs
              → 6 * s.flush_ack_sem + total xs + suc k ≤ suc fuel
              → Goal (at s xs (suc k) m c))
            eq
            (λ i g le.
              let x = advance n s w a i.flag d lt in
              let move = work s before after w x.v x.t (waiting (suc k)) m c x.c x.move in
              run_from _ _ move (
                to_flush fuel x.t (before ++ x.v ∷ after) (suc k) m (c + x.c) (Inv-Step i move)
                  x.warning (λ q. d (sym x.count ∙ q))
                  (All-replace (λ w. is_going w ≡ true) before w x.v after g x.goes)
                  (omega (
                    arith,
                    le,
                    x.closer,
                    x.releases,
                    total-append before (w ∷ after),
                    total-append before (x.v ∷ after),
                  ))))
            i g le
      | inl rest ↦
          let all = parked_count-rest ws g rest in
          let owed : s.flush_ack_sem ≡ suc k =
            omega (arith, all, i.balance, i.workers, i.rounds, e) in
          let first = starts_parked ws g rest (omega (arith, i.workers, i.rounds)) in
          let t : Shared = record s { flush_ack_sem = k } in
          subst
            (λ xs.
              Inv n (at s xs (suc k) m c)
              → All (λ w. is_going w ≡ true) xs
              → total xs ≡ 0
              → Goal (at s xs (suc k) m c))
            first.1
            (λ i g none.
              let move =
                work s [] first.0 parked resumed t (waiting (suc k)) m c 0 (resume s k owed) in
              run_from _ _ move (
                to_flush fuel t (resumed ∷ first.0) (suc k) m (c + 0) (Inv-Step i move) a d
                  (refl, g.1) (omega (arith, le, owed, none, rest))))
            i g rest
    ]
  ]

  -- From every reachable state in which the flushing thread waits for acknowledgements, not all
  -- threads are done, and no other thread has left or is about to count itself as done, some run
  -- comes to the flush, whatever earlier flushes have left in the semaphores.
  pub Reachable-Run :
      (s : Shared) (ws : List Worker) (k m c : ℕ)
      → Reachable n
          (record { shared = s; workers = ws; flusher = waiting k; flushes = m; checkpoints = c })
      → s.done_threads ≢ n
      → All (λ w. is_going w ≡ true) ws
      → (u : State) × Run n
          (record { shared = s; workers = ws; flusher = waiting k; flushes = m; checkpoints = c })
          u
        × (u.flusher ≡ flushed)
  Reachable-Run s ws k m c r d g =
      to_flush (6 * s.flush_ack_sem + total ws + k) s ws k m c (Reachable-Inv n _ r)
        (Reachable-IsWarned n _ r) d g (omega arith)
