-- ===== src/Thread/Sound.antt =====
-- Between two switches one thread runs, and the ready threads are exactly those that wait.
use mathlib.Core.Path.{subst}
use leeos.Base.{
  ℕ, suc, ◌+◌, ◌<◌, ◌≤◌, ◌≡◌, ◌≢◌, sym, ◌∙◌, List, [], ◌∷◌, ◌++◌, arith, ap, length, length-append,
  true, false, ◌==◌, ◌&&◌, if◌then◌else◌, Returns, Returns-mono, inl, inr, Bool-cases,
}
use leeos.Base.Distinct.{All, All-append, Out, append-Out, Distinct}
use leeos.Interrupt.{intr_off}
use leeos.Kernel.{Kernel, Globals, task_running, task_ready, is_running, is_asleep}
use leeos.Thread.{schedule, thread_unlock}
use leeos.Thread.Queue.{IsPcb, tags-Distinct}
use leeos.Thread.Schedule.{IsQueued, Switched, requeued, requeued-IsPcb, schedule-Switched}
use leeos.Thread.Wake.{Woken, thread_unlock-Woken, status_kept}

-- The running thread has status TASK_RUNNING, those in the queue TASK_READY.
pub record IsSound (fuel : ℕ) (g : Globals) (k : Kernel) (ready : List ℕ) : Type 0 where
  pub queued : IsQueued fuel g k ready
  pub running : k.status k.current ≡ task_running

module _ (fuel : ℕ) (g : Globals) (k : Kernel) (ready : List ℕ) (s : IsQueued fuel g k ready) where
  requeued-Distinct : Distinct (requeued fuel g k ready)
  requeued-Distinct =
      let d : Distinct ready = tags-Distinct ready _ s.queue.distinct.1 in
      elim (Bool-cases (is_running (k.status k.current))) [
        | inl run ↦ rw run (snoc ready d s.absent)
        | inr not_run ↦ rw not_run d
      ]
    where
      snoc : (ps : List ℕ) → Distinct ps → Out k.current ps → Distinct (ps ++ (k.current ∷ []))
      snoc [] d o = (tt, tt)
      snoc (p ∷ ps) d o = (append-Out p ps _ d.0 (λ e. o.0 (sym e), tt), snoc ps d.1 o.1)

  -- The statuses of the threads of the queue after `requeue`.
  requeued-ready :
      All
        (λ p.
          (if is_running (k.status k.current) && k.current == p then task_ready else k.status p)
          ≡ task_ready)
        (requeued fuel g k ready)
  requeued-ready = elim (Bool-cases (is_running (k.status k.current))) [
    | inl run ↦ rw run (All-append _ ready _ (kept ready s.waiting) (ground arith, tt))
    | inr not_run ↦ rw not_run s.waiting
  ]
    where
      kept :
          (ps : List ℕ)
          → All (λ p. k.status p ≡ task_ready) ps
          → All (λ p. (if k.current == p then task_ready else k.status p) ≡ task_ready) ps
      kept [] a = tt
      kept (p ∷ ps) a = (ground (arith, a.0), kept ps a.1)

  length-requeued : length (requeued fuel g k ready) ≤ length ready + 1
  length-requeued = elim (Bool-cases (is_running (k.status k.current))) [
    | inl run ↦ rw run (omega (arith, length-append ready (k.current ∷ [])))
    | inr not_run ↦ rw not_run (omega arith)
  ]

  module _ (next : ℕ) (rest : List ℕ) (e : requeued fuel g k ready ≡ next ∷ rest) where
    still_ready :
        (k' : Kernel)
        → Switched fuel g k next rest k'
        → (ps : List ℕ) → Out next ps
        → All
            (λ p.
              (if is_running (k.status k.current) && k.current == p then task_ready else k.status p)
              ≡ task_ready)
            ps
        → All (λ p. k'.status p ≡ task_ready) ps
    still_ready k' w [] o a = tt
    still_ready k' w (p ∷ ps) o a =
        (ground (arith, w.status p, a.0, o.0), still_ready k' w ps o.1 a.1)

    -- schedule, with interrupts off, from a state whose ready queue is in order, whose
    -- queued threads are ready and do not include the running one, and with a first thread
    -- to run, returns in a state in which that thread runs with status TASK_RUNNING, the
    -- queue holds the others in order, all of them with status TASK_READY, and the running
    -- thread is not among them.
    pub schedule-IsSound :
        k.links.intr ≡ intr_off
        → Returns (schedule fuel g k) (λ k'. IsSound fuel g k' rest × (k'.current ≡ next))
    schedule-IsSound off =
        Returns-mono (schedule fuel g k) (Switched fuel g k next rest) _
          (schedule-Switched fuel g k ready next rest s off e)
          λ k' w.
            let d : Distinct (next ∷ rest) = rw e at requeued-Distinct in
            let pcbs : All (IsPcb g.ready_thread_list) (next ∷ rest) =
              rw e at (requeued-IsPcb fuel g k ready s) in
            let short : suc (length rest) ≤ length ready + 1 = rw e at length-requeued in
            let ready_now = rw e at requeued-ready in
            (
              record {
                queued = record {
                  queue = w.queue;
                  pcbs = pcbs.1;
                  waiting = still_ready k' w rest d.0 ready_now.1;
                  absent = rw w.current d.0;
                  self = rw w.current pcbs.0;
                  enough = omega (arith, short, s.enough);
                };
                running = rw w.current (ground (arith, w.status next));
              },
              w.current,
            )

-- Waking a sleeping thread that is not in the ready queue returns with the scheduler's
-- invariant kept: the thread stands at the front of the queue with status TASK_READY, and the
-- same thread runs.
pub thread_unlock-IsSound :
    (fuel : ℕ) (g : Globals) (k : Kernel) (ready : List ℕ) (t : ℕ)
    → IsSound fuel g k ready
    → IsPcb g.ready_thread_list t
    → Out t ready
    → is_asleep (k.status t) ≡ true
    → length ready + 2 < fuel
    → Returns
        (thread_unlock fuel g t k)
        (λ k'. IsSound fuel g k' (t ∷ ready) × (k'.current ≡ k.current))
thread_unlock-IsSound fuel g k ready t s h o asleep enough =
    Returns-mono (thread_unlock fuel g t k) (Woken g k t ready) _
      (thread_unlock-Woken fuel g k ready t s.queued.queue (omega arith) h o asleep)
      λ k' w.
        let not_self : k.current ≢ t = λ e.
          let r : false ≡ true =
            sym (ap is_asleep s.running) ∙ ap (λ p. is_asleep (k.status p)) e ∙ asleep in
          cc in
        (
          record {
            queued = record {
              queue = w.queue;
              pcbs = (h, s.queued.pcbs);
              waiting =
                  (ground (arith, w.status t), status_kept k k' t ready w.status s.queued.waiting);
              absent =
                  subst (λ c. (c ≢ t) × Out c ready) (sym w.current) (not_self, s.queued.absent);
              self = subst (IsPcb g.ready_thread_list) (sym w.current) s.queued.self;
              enough = omega arith;
            };
            running =
                ap k'.status w.current ∙ ground (arith, w.status k.current, s.running, not_self);
          },
          w.current,
        )
