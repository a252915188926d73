-- ===== src/Sync.antt =====
-- thread/sync.c: binary semaphores and reentrant locks; `allocate_next_pid` of thread/thread.c.
pub mod Locks
pub mod Nesting
pub mod Wakeup
use leeos.Base.{
  ℕ, zero, suc, ◌+◌, ◌-◌, ◌%◌, ◌^◌, Bool, true, false, not, u8, u16, u32, sub32, ltb, ◌==◌,
  if◌then◌else◌, Run, ok, halted, stuck, ◌>>=◌, ◌>>◌, assert,
}
use leeos.Base.Memory.{update}
use leeos.Interrupt.{intr_disable, intr_set_status}
use leeos.Lists.{list_init, list_append, list_pop, list_empty, elem_find}
use leeos.Kernel.{
  Kernel, Globals, task_blocked, general_tag, pcb_of_tag, waiter_of, sem_of, set_links, set_intr,
  set_value,
}
use leeos.Thread.{thread_lock, thread_unlock}

-- `value` is a uint8_t.
unfoldable pub sem_init : (sem value : ℕ) → Kernel → Kernel
sem_init sem value k =
    let k1 = set_value sem (u8 value) k in set_links (list_init (waiter_of sem) k1.links) k1

abbrev pub set_holder : ℕ → ℕ → Kernel → Kernel
set_holder plock pcb k = record k { holder = update k.holder plock pcb }

abbrev pub set_repeat : ℕ → ℕ → Kernel → Kernel
set_repeat plock n k = record k { holder_repeat_num = update k.holder_repeat_num plock n }

unfoldable pub lock_init : ℕ → Kernel → Kernel
unfolding sem_init
lock_init plock k = set_repeat plock 0 (set_holder plock 0 (sem_init (sem_of plock) 1 k))

module _ (fuel : ℕ) (g : Globals) where
  unfoldable pub sem_up : ℕ → Kernel → Run Kernel
  sem_up sem k0 = do
    let old = intr_disable k0.links.intr
    let k = set_intr old.0 k0
    assert (k.value sem == 0)
    k1 ← if list_empty (waiter_of sem) k.links then ok k else (do
      let popped = list_pop (waiter_of sem) k.links
      thread_unlock fuel g (pcb_of_tag popped.0) (set_links popped.1 k))
    let k2 = set_value sem (u8 (k1.value sem + 1)) k1
    assert (k2.value sem == 1)
    ok (set_intr (intr_set_status old.1 k2.links.intr).0 k2)

  unfoldable pub lock_release : ℕ → Kernel → Run Kernel
  lock_release plock k = do
    assert (k.holder plock == k.current)
    if ltb 1 (k.holder_repeat_num plock)
        then ok (set_repeat plock (sub32 (k.holder_repeat_num plock) 1) k)
        else (do
          let k1 = set_repeat plock (sub32 (k.holder_repeat_num plock) 1) k
          let k2 = set_repeat plock 0 (set_holder plock 0 k1)
          sem_up (sem_of plock) k2)

  -- `others` is what runs while the calling thread is blocked.
  module _ (others : Kernel → Run Kernel) where
    -- `while (sem->value == 0)`: the thread queues up, blocks, and looks again when it is back.
    sem_wait : (rounds sem : ℕ) → Kernel → Run Kernel
    sem_wait zero sem k = stuck
    sem_wait (suc rounds) sem k =
        if k.value sem == 0
        then (do
          found ← elem_find fuel (waiter_of sem) (general_tag k.current) k.links
          assert (not found)
          let k1 = set_links (list_append (waiter_of sem) (general_tag k.current) k.links) k
          k2 ← thread_lock fuel g others task_blocked k1
          sem_wait rounds sem k2)
        else ok k

    -- `rounds` bounds how often the thread may find the semaphore taken again.
    unfoldable pub sem_down : (rounds sem : ℕ) → Kernel → Run Kernel
    unfolding sem_wait
    sem_down rounds sem k = do
      let old = intr_disable k.links.intr
      k1 ← sem_wait rounds sem (set_intr old.0 k)
      let k2 = set_value sem (u8 (k1.value sem + 255)) k1
      assert (k2.value sem == 0)
      ok (set_intr (intr_set_status old.1 k2.links.intr).0 k2)

    unfoldable pub lock_acquire : (rounds plock : ℕ) → Kernel → Run Kernel
    lock_acquire rounds plock k =
        if k.holder plock == k.current
        then ok (set_repeat plock (u32 (k.holder_repeat_num plock + 1)) k)
        else (do
          k1 ← sem_down rounds (sem_of plock) k
          let k2 = set_holder plock k1.current k1
          assert (k2.holder_repeat_num plock == 0)
          ok (set_repeat plock 1 k2))

    unfoldable pub allocate_next_pid : (rounds : ℕ) → Kernel → Run (ℕ × Kernel)
    allocate_next_pid rounds k = do
      k1 ← lock_acquire rounds g.pid_lock k
      let k2 = record k1 { next_pid = u16 (k1.next_pid + 1) }
      k3 ← lock_release g.pid_lock k2
      ok (k3.next_pid, k3)
