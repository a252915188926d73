-- ===== src/Ioqueue/Waking.antt =====
-- What `ioq_putchar` does when a consumer is registered.
use leeos.Base.{
  ℕ, suc, ◌<◌, ◌≡◌, ◌≢◌, ◌∙◌, arith, ap, true, false, ◌==◌, List, length, Run, Returns,
  Returns-bind, ==_self, ==_of_ne,
}
use leeos.Base.Memory.{update_self}
use leeos.Base.Distinct.{Out}
use leeos.Kernel.{Kernel, Globals, task_ready, is_off, is_asleep}
use leeos.Thread.{thread_unlock}
use leeos.Thread.Queue.{IsPcb}
use leeos.Thread.Schedule.{IsReady}
use leeos.Thread.Wake.{Woken, thread_unlock-Woken}
use leeos.Ioqueue.{ioq_putchar, ioq_wakeup, await_room}
use leeos.Ioqueue.Fifo.{used, IsRing, is_full_iff}

-- The status of the registered consumer is not touched: the thread that is made ready is the one
-- whose address is the first word of the consumer's pcb. The registration stays in place, and the
-- consumer's saved stack pointer is cleared.
pub record Misdirected (ioq c s : ℕ) (k k' : Kernel) : Type 0 where
  pub asleep : k'.status c ≡ k.status c
  pub woken : k'.status s ≡ task_ready
  pub registered : (k'.ioqueue ioq).consumer ≡ c
  pub stack : k'.self_kernel_stack c ≡ 0

module _ (fuel : ℕ) (g : Globals) (others : Kernel → Run Kernel) (rounds ioq n byte c s : ℕ)
    (k : Kernel) (ready : List ℕ) where
  -- With interrupts off, room in the buffer and a consumer registered, ioq_putchar makes
  -- ready not the consumer but the thread at the address that is saved as the consumer's
  -- kernel stack pointer, if a sleeping thread in no queue is there; it leaves the consumer's
  -- status and registration as they were and clears the saved stack pointer.
  pub ioq_putchar_misdirects :
      is_off k.links.intr ≡ true
      → IsRing (k.ioqueue ioq)
      → used (k.ioqueue ioq) < 63
      → (k.ioqueue ioq).consumer ≡ c
      → c ≢ 0
      → k.self_kernel_stack c ≡ s
      → s ≢ 0
      → s ≢ c
      → IsReady g k ready
      → length ready < fuel
      → IsPcb g.ready_thread_list s
      → Out s ready
      → is_asleep (k.status s) ≡ true
      → Returns (ioq_putchar fuel g others rounds ioq (suc n) byte k) (Misdirected ioq c s k)
  unfolding ioq_putchar await_room ioq_wakeup
  ioq_putchar_misdirects off ring room ec nc es ns ne q enough h o sleeps =
      let not_full : (used (k.ioqueue ioq) == 63) ≡ false = ground arith in
      rw
        (
          off,
          is_full_iff fuel g others rounds ioq k off ring,
          not_full,
          ec,
          ==_of_ne c 0 nc,
          es,
          ==_of_ne s 0 ns,
        )
        (Returns-bind (thread_unlock fuel g s _) _ (Woken g _ s ready) (Misdirected ioq c s k)
          (thread_unlock-Woken fuel g _ ready s q enough h o sleeps)
          (λ k2 w. record {
            asleep = ground (arith, w.status c);
            woken = ground (arith, w.status s);
            registered = ap (λ f. (f ioq).consumer) w.ioqueue ∙ rw (==_self ioq);
            stack = update_self k2.self_kernel_stack c 0;
          }))
