-- ===== src/Sync/Wakeup.antt =====
-- `sem_up` hands the processor's queue the thread that has waited longest.
use leeos.Base.{
  ℕ, ◌<◌, ◌≡◌, ◌∙◌, List, ◌∷◌, ap, length, true, ◌==◌, if◌then◌else◌, Returns, Returns-bind,
  ==_self,
}
use leeos.Base.Distinct.{Out}
use leeos.Interrupt.{intr_disable, intr_restored}
use leeos.Lists.{list_pop}
use leeos.Lists.Refine.{IsList, IsList-intr, list_empty-cons, list_pop-IsList, intr-list_pop}
use leeos.Lists.Frame.{nodes, Apart, list_pop-frame}
use leeos.Kernel.{Kernel, Globals, task_ready, is_asleep, general_tag, waiter_of, set_links}
use leeos.Thread.{thread_unlock}
use leeos.Thread.Queue.{tags, IsPcb, pcb_of_tag_lem}
use leeos.Thread.Schedule.{IsReady}
use leeos.Thread.Wake.{Woken, thread_unlock-Woken}
use leeos.Sync.{sem_up}

-- What `sem_up` makes of a semaphore with waiting threads: it is up, and the first of them is
-- ready and at the front of the ready queue.
pub record Upped (g : Globals) (k : Kernel) (sem t : ℕ) (ready : List ℕ) (k' : Kernel)
    : Type 0 where
  pub value : k'.value sem ≡ 1
  pub queue : IsReady g k' (t ∷ ready)
  pub status : (p : ℕ) → k'.status p ≡ (if t == p then task_ready else k.status p)
  pub current : k'.current ≡ k.current
  pub intr : k'.links.intr ≡ k.links.intr

-- With threads waiting, in a list that shares no element with the ready queue, sem_up of a
-- semaphore that is down returns and wakes the first of them: it is ready and stands at the
-- front of the ready queue, the semaphore is up, and the running thread and the interrupt flag
-- are as before.
pub sem_up-Upped :
    (fuel : ℕ) (g : Globals) (k : Kernel) (sem t : ℕ) (rest ready : List ℕ)
    → k.value sem ≡ 0
    → IsList k.links (waiter_of sem) (tags (t ∷ rest))
    → IsReady g k ready
    → Apart (nodes g.ready_thread_list (tags ready)) (nodes (waiter_of sem) (tags (t ∷ rest)))
    → length ready < fuel
    → IsPcb g.ready_thread_list t
    → Out t ready
    → is_asleep (k.status t) ≡ true
    → Returns (sem_up fuel g sem k) (Upped g k sem t ready)
unfolding sem_up
sem_up-Upped fuel g k sem t rest ready down w q apart enough h o asleep =
    let l0 = record (k.links) { intr = (intr_disable k.links.intr).0 } in
    let w0 =
      IsList-intr k.links (intr_disable k.links.intr).0 (waiter_of sem) (tags (t ∷ rest)) w in
    let q0 = IsList-intr k.links (intr_disable k.links.intr).0 g.ready_thread_list (tags ready) q in
    let some_waits = list_empty-cons l0 (waiter_of sem) (general_tag t) (tags rest) w0 in
    let popped = list_pop-IsList l0 (waiter_of sem) (general_tag t) (tags rest) w0 in
    let k1 = set_links (list_pop (waiter_of sem) l0).1 k in
    let q1 : IsReady g k1 ready =
      list_pop-frame l0 g.ready_thread_list (tags ready) q0 (waiter_of sem) (general_tag t)
        (tags rest) w0 apart in
    rw (down, some_waits, popped.0, pcb_of_tag_lem g.ready_thread_list t h)
      (Returns-bind (thread_unlock fuel g t k1) _ (Woken g k1 t ready) (Upped g k sem t ready)
        (thread_unlock-Woken fuel g k1 ready t q1 enough h o asleep)
        (λ k2 v.
          let same : k2.value sem ≡ 0 = ap (λ f. f sem) v.value ∙ down in
          let intr_kept : k2.links.intr ≡ (intr_disable k.links.intr).0 =
            v.intr ∙ intr-list_pop (waiter_of sem) l0 in
          rw (same, ==_self sem)
            (record {
              value = rw (same, ==_self sem);
              queue = IsList-intr k2.links _ g.ready_thread_list (tags (t ∷ ready)) v.queue;
              status = v.status;
              current = v.current;
              intr = rw intr_kept (intr_restored k.links.intr).0;
            })))
