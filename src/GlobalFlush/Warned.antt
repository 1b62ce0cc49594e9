-- ===== src/GlobalFlush/Warned.antt =====
-- The warning that stands during a flush.
use incll.Base.{ℕ, ◌≡◌, refl, sym, ◌∙◌, true}
use incll.GlobalFlush.{
  Worker, Flusher, idle, alerted, entering, waiting, flushed, releasing, closing, Shared, State,
  Work, no_warning, see_warning, all_done, not_done, no_flush, see_flush, acknowledge, resume,
  checkpoint, warn_done, count_done, Flush, alert, give_up, go_on, enter, take_ack, flush_all,
  leave, release, checkpoint_own, close, Step, work, flush, Reachable, start, step,
}

-- From the start of `flush` to its end the warning stands.
abbrev pub IsWarned : Flusher → Shared → Type 0
IsWarned idle s = Unit
IsWarned alerted s = s.inflush_warning ≡ true
IsWarned entering s = s.inflush_warning ≡ true
IsWarned (waiting k) s = s.inflush_warning ≡ true
IsWarned flushed s = s.inflush_warning ≡ true
IsWarned (releasing k) s = s.inflush_warning ≡ true
IsWarned closing s = s.inflush_warning ≡ true

stands_when_on : (f : Flusher) (s : Shared) → s.inflush_warning ≡ true → IsWarned f s
stands_when_on idle s e = tt
stands_when_on alerted s e = e
stands_when_on entering s e = e
stands_when_on (waiting k) s e = e
stands_when_on flushed s e = e
stands_when_on (releasing k) s e = e
stands_when_on closing s e = e

IsWarned-same :
    (f : Flusher) (s t : Shared)
    → s.inflush_warning ≡ t.inflush_warning
    → IsWarned f s
    → IsWarned f t
IsWarned-same idle s t e h = tt
IsWarned-same alerted s t e h = sym e ∙ h
IsWarned-same entering s t e h = sym e ∙ h
IsWarned-same (waiting k) s t e h = sym e ∙ h
IsWarned-same flushed s t e h = sym e ∙ h
IsWarned-same (releasing k) s t e h = sym e ∙ h
IsWarned-same closing s t e h = sym e ∙ h

IsWarned-Work :
    {n : ℕ} {s : Shared} {w : Worker} {t : Shared} {v : Worker} {k : ℕ} (f : Flusher)
    → Work n s w t v k
    → IsWarned f s
    → IsWarned f t
IsWarned-Work f (no_warning s e) h = h
IsWarned-Work f (see_warning s e) h = h
IsWarned-Work f (all_done s e) h = h
IsWarned-Work f (not_done s e) h = h
IsWarned-Work f (no_flush s e) h = h
IsWarned-Work f (see_flush s e) h = h
IsWarned-Work f (acknowledge s) h = IsWarned-same f s _ refl h
IsWarned-Work f (resume s k e) h = IsWarned-same f s _ refl h
IsWarned-Work f (checkpoint s) h = h
IsWarned-Work f (warn_done s) h = stands_when_on f _ refl
IsWarned-Work f (count_done s) h = IsWarned-same f s _ refl h

IsWarned-Flush :
    {n : ℕ} {s : Shared} {f : Flusher} {t : Shared} {g : Flusher} {m k : ℕ}
    → Flush n s f t g m k
    → IsWarned f s
    → IsWarned g t
IsWarned-Flush (alert s) h = refl
IsWarned-Flush (give_up s d) h = tt
IsWarned-Flush (go_on s d) h = h
IsWarned-Flush (enter s) h = h
IsWarned-Flush (take_ack s k a d) h = h
IsWarned-Flush (flush_all s k d) h = h
IsWarned-Flush (leave s) h = h
IsWarned-Flush (release s k) h = h
IsWarned-Flush (checkpoint_own s k d) h = h
IsWarned-Flush (close s) h = tt

IsWarned-Step :
    {n : ℕ} {s t : State} → Step n s t → IsWarned s.flusher s.shared → IsWarned t.flusher t.shared
IsWarned-Step (work s before after w v t f n c k m) h = IsWarned-Work f m h
IsWarned-Step (flush s t ws f g n c m k move) h = IsWarned-Flush move h

pub Reachable-IsWarned : (n : ℕ) (s : State) → Reachable n s → IsWarned s.flusher s.shared
Reachable-IsWarned n s (start ws size quiet) = tt
Reachable-IsWarned n t (step s t' r move) = IsWarned-Step move (Reachable-IsWarned n s r)
