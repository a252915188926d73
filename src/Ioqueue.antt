-- ===== src/Ioqueue.antt =====
-- device/ioqueue.c and ioqueue.h: the character queue between an interrupt handler and a thread.
pub mod Fifo
pub mod Waking
use leeos.Base.{
  ℕ, zero, suc, ◌+◌, ◌%◌, ◌^◌, Bool, true, false, not, u32, ◌==◌, if◌then◌else◌, Run, ok, halted,
  stuck, ◌>>=◌, ◌>>◌, assert,
}
use leeos.Base.Memory.{update}
use leeos.Kernel.{Kernel, Globals, IoQueue, io_lock_of, task_blocked, is_off}
use leeos.Thread.{thread_lock, thread_unlock}
use leeos.Sync.{lock_init, lock_acquire, lock_release}

abbrev pub buf_size : ℕ
buf_size = 64

abbrev pub set_queue : ℕ → IoQueue → Kernel → Kernel
set_queue ioq q k = record k { ioqueue = update k.ioqueue ioq q }

unfoldable pub ioqueue_init : ℕ → Kernel → Kernel
ioqueue_init ioq k =
    let k1 = lock_init (io_lock_of ioq) k in
    let q = k1.ioqueue ioq in
    set_queue ioq (record q { consumer = 0; producer = 0; head = 0; tail = 0 }) k1

unfoldable pub next_pos : ℕ → ℕ
next_pos pos = u32 (pos + 1) % buf_size

unfoldable pub ioqueue_is_full : ℕ → Kernel → Run Bool
ioqueue_is_full ioq k = do
  assert (is_off k.links.intr)
  let q = k.ioqueue ioq
  ok (next_pos q.head == q.tail)

unfoldable pub ioqueue_is_empty : ℕ → Kernel → Bool
ioqueue_is_empty ioq k = let q = k.ioqueue ioq in q.head == q.tail

module _ (fuel : ℕ) (g : Globals) where
  -- The parameter is a `struct pcb_struct **`. Its callers pass the pcb itself, so `*waiter` is the
  -- first word of that pcb, its `self_kernel_stack`.
  unfoldable pub ioq_wakeup : ℕ → Kernel → Run Kernel
  ioq_wakeup waiter k = do
    assert (not (k.self_kernel_stack waiter == 0))
    k1 ← thread_unlock fuel g (k.self_kernel_stack waiter) k
    ok (record k1 { self_kernel_stack = update k1.self_kernel_stack waiter 0 })

  module _ (others : Kernel → Run Kernel) (rounds ioq : ℕ) where
    -- `ioq_wait(&ioq->consumer)` and `ioq_wait(&ioq->producer)`.
    unfoldable pub wait_consumer : Kernel → Run Kernel
    wait_consumer k = do
      let q = k.ioqueue ioq
      assert (q.consumer == 0)
      thread_lock fuel g others task_blocked (set_queue ioq (record q { consumer = k.current }) k)

    unfoldable pub wait_producer : Kernel → Run Kernel
    wait_producer k = do
      let q = k.ioqueue ioq
      assert (q.producer == 0)
      thread_lock fuel g others task_blocked (set_queue ioq (record q { producer = k.current }) k)

    -- The `while` loops, which look again whenever the thread is back.
    pub await_char : ℕ → Kernel → Run Kernel
    await_char zero k = stuck
    await_char (suc n) k =
        if ioqueue_is_empty ioq k
        then (do
          k1 ← lock_acquire fuel g others rounds (io_lock_of ioq) k
          k2 ← wait_consumer k1
          k3 ← lock_release fuel g (io_lock_of ioq) k2
          await_char n k3)
        else ok k

    pub await_room : ℕ → Kernel → Run Kernel
    await_room zero k = stuck
    await_room (suc n) k = do
      full ← ioqueue_is_full ioq k
      if full
          then (do
            k1 ← lock_acquire fuel g others rounds (io_lock_of ioq) k
            k2 ← wait_producer k1
            k3 ← lock_release fuel g (io_lock_of ioq) k2
            await_room n k3)
          else ok k

    unfoldable pub ioq_getchar : ℕ → Kernel → Run (ℕ × Kernel)
    unfolding await_char
    ioq_getchar n k0 = do
      assert (is_off k0.links.intr)
      k ← await_char n k0
      let q = k.ioqueue ioq
      let byte = q.buf q.tail
      let k1 = set_queue ioq (record q { tail = next_pos q.tail }) k
      k2 ← if q.producer == 0 then ok k1 else ioq_wakeup q.producer k1
      ok (byte, k2)

    unfoldable pub ioq_putchar : ℕ → ℕ → Kernel → Run Kernel
    unfolding await_room
    ioq_putchar n byte k0 = do
      assert (is_off k0.links.intr)
      k ← await_room n k0
      let q = k.ioqueue ioq
      let q1 = record q { buf = update q.buf q.head byte; head = next_pos q.head }
      let k1 = set_queue ioq q1 k
      if q.consumer == 0 then ok k1 else ioq_wakeup q.consumer k1
