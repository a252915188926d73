-- ===== src/Thread/Turn.antt =====
-- Every ready thread has its turn.
use mathlib.Core.Path.{subst}
use mathlib.Core.List.{append_assoc}
use leeos.Base.{
  ℕ, zero, suc, ◌≡◌, refl, ap, ◌∙◌, List, [], ◌∷◌, ◌++◌, length, Run, ok, ◌>>=◌, Returns,
  Returns-bind, Returns-and, Returns-mono,
}
use leeos.Interrupt.{intr_off}
use leeos.Kernel.{Kernel, Globals, is_running}
use leeos.Thread.{schedule}
use leeos.Thread.Schedule.{Switched, schedule-Switched, requeued}
use leeos.Thread.Sound.{IsSound, schedule-IsSound}

module _ (fuel : ℕ) (g : Globals) where
  -- As many calls of the scheduler as the clock makes when each thread uses up its time.
  unfoldable pub schedule_times : ℕ → Kernel → Run Kernel
  schedule_times zero k = ok k
  schedule_times (suc n) k = schedule fuel g k >>= schedule_times n

  -- The invariant, with interrupts off.
  pub record IsSettled (k : Kernel) (ready : List ℕ) : Type 0 where
    pub sound : IsSound fuel g k ready
    pub off : k.links.intr ≡ intr_off

  schedule-IsSettled :
      (k : Kernel) (ready : List ℕ) (next : ℕ) (rest : List ℕ)
      → IsSettled k ready
      → ready ++ (k.current ∷ []) ≡ next ∷ rest
      → Returns (schedule fuel g k) (λ k'. IsSettled k' rest × (k'.current ≡ next))
  schedule-IsSettled k ready next rest i e =
      let again : requeued fuel g k ready ≡ next ∷ rest = rw (ap is_running i.sound.running) e in
      Returns-mono (schedule fuel g k) _ _
        (Returns-and (schedule fuel g k) (λ k'. IsSound fuel g k' rest × (k'.current ≡ next))
          (Switched fuel g k next rest)
          (schedule-IsSound fuel g k ready i.sound.queued next rest again i.off)
          (schedule-Switched fuel g k ready next rest i.sound.queued i.off again))
        (λ k' (s, w). (record { sound = s.0; off = w.intr }, s.1))

  -- With interrupts off, from a state in which the scheduler's invariant holds and a thread
  -- runs, a thread of the ready queue with n others before it is the one that runs after n +
  -- 1 calls of schedule, all of which return; the invariant holds then, and behind the
  -- threads that came after it the queue holds the thread that ran first and those n, in that
  -- order.
  pub schedule_times-turn :
      (k : Kernel) (front : List ℕ) (t : ℕ) (back : List ℕ)
      → IsSettled k (front ++ (t ∷ back))
      → Returns
          (schedule_times (suc (length front)) k)
          (λ k'. IsSettled k' (back ++ (k.current ∷ front)) × (k'.current ≡ t))
  unfolding schedule_times
  schedule_times-turn k [] t back i =
      Returns-bind (schedule fuel g k) ok _ _
        (schedule-IsSettled k (t ∷ back) t (back ++ (k.current ∷ [])) i refl) (λ k' d. d)
  schedule_times-turn k (x ∷ front) t back i =
      let rest = front ++ (t ∷ (back ++ (k.current ∷ []))) in
      let e : (x ∷ front) ++ (t ∷ back) ++ (k.current ∷ []) ≡ x ∷ rest =
        ap (λ ys. x ∷ ys) (append_assoc front (t ∷ back) (k.current ∷ [])) in
      Returns-bind (schedule fuel g k) (schedule_times (suc (length front)))
        (λ k'. IsSettled k' rest × (k'.current ≡ x))
        (λ k'. IsSettled k' (back ++ (k.current ∷ (x ∷ front))) × (k'.current ≡ t))
        (schedule-IsSettled k (x ∷ (front ++ (t ∷ back))) x rest i e)
        (λ k' (j, c).
          let later = schedule_times-turn k' front t (back ++ (k.current ∷ [])) j in
          subst
            (λ ys.
              Returns (schedule_times (suc (length front)) k')
                (λ k2. IsSettled k2 ys × (k2.current ≡ t)))
            (append_assoc back (k.current ∷ []) (k'.current ∷ front)
              ∙ ap (λ c2. back ++ (k.current ∷ (c2 ∷ front))) c)
            later)
