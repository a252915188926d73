-- ===== src/Thread.antt =====
-- thread/thread.c: scheduling, blocking and waking threads; the activation of an
-- address space in userprog/process.c and userprog/tss.c.
pub mod Queue
pub mod Schedule
pub mod Wake
pub mod Sound
pub mod Turn
use leeos.Base.{
  ℕ, zero, suc, ◌+◌, ◌-◌, ◌%◌, ◌^◌, Bool, true, false, not, u8, u16, u32, sub32, ◌==◌,
  if◌then◌else◌, Run, ok, halted, stuck, ◌>>=◌, ◌>>◌, assert,
}
use leeos.Base.Memory.{update}
use leeos.Interrupt.{IntrStatus, intr_off, intr_on, intr_enable, intr_disable, intr_set_status}
use leeos.Lists.{Links, list_append, list_push, list_pop, list_empty, elem_find}
use leeos.Paging.{addr_virtual_to_phy}
use leeos.Kernel.{
  Kernel, Globals, TaskStatus, task_running, task_ready, task_blocked, task_waiting, task_hanging,
  task_died, general_tag, all_list_tag, pcb_of_tag, set_links, set_intr, set_status, is_running,
  is_ready, is_asleep, is_off,
}

-- The function `update_tss_esp0`.
unfoldable pub update_tss_esp0 : ℕ → Kernel → Kernel
update_tss_esp0 pthread k = record k { esp0 = u32 (pthread + 4096) }

unfoldable pub page_dir_activate : ℕ → Kernel → Kernel
page_dir_activate pthread k =
    if k.pgdir pthread == 0
    then record k { cr3 = 0x00100000 }
    else record k { cr3 = addr_virtual_to_phy k.word (k.pgdir pthread) }

-- For a null pointer the function prints a message and goes on.
unfoldable pub process_activate : ℕ → Kernel → Kernel
unfolding page_dir_activate update_tss_esp0
process_activate pcb k =
    let k1 = page_dir_activate pcb k in if k1.pgdir pcb == 0 then k1 else update_tss_esp0 pcb k1

module _ (fuel : ℕ) (g : Globals) where
  -- The state of the flag is kept, since a status is asserted and not changed by the list calls.
  unfoldable pub thread_unlock : ℕ → Kernel → Run Kernel
  unfolding intr_disable intr_set_status
  thread_unlock unlock_thread k0 = do
    let old = intr_disable k0.links.intr
    let k = set_intr old.0 k0
    let status = k.status unlock_thread
    assert (is_asleep status)
    if is_ready status then ok (set_intr (intr_set_status old.1 k.links.intr).0 k) else do
      found ← elem_find fuel g.ready_thread_list (general_tag unlock_thread) k.links
      assert (not found)
      again ← elem_find fuel g.ready_thread_list (general_tag unlock_thread) k.links
      assert (not again)
      let k1 = set_status unlock_thread task_ready k
      let k2 = set_links (list_push g.ready_thread_list (general_tag unlock_thread) k1.links) k1
      ok (set_intr (intr_set_status old.1 k2.links.intr).0 k2)

  -- The first half of `schedule`: a thread whose time is up goes to the end of the queue.
  unfoldable pub requeue : Kernel → Run Kernel
  requeue k =
      if is_running (k.status k.current)
      then (do
        found ← elem_find fuel g.ready_thread_list (general_tag k.current) k.links
        assert (not found)
        let k1 = record k { ticks = update k.ticks k.current (k.priority k.current) }
        let k2 = set_status k.current task_ready k1
        ok (set_links (list_append g.ready_thread_list (general_tag k.current) k2.links) k2))
      else ok k

  -- The second half: the first ready thread, or the idle thread, is switched to. `switch_to` makes
  -- it the running one; the call returns to its caller when that is switched to again.
  unfoldable pub dispatch : Kernel → Run Kernel
  unfolding thread_unlock process_activate
  dispatch k = do
    k1 ← if list_empty g.ready_thread_list k.links then thread_unlock k.idle_thread k else ok k
    assert (not (list_empty g.ready_thread_list k1.links))
    let (thread_tag, l) = list_pop g.ready_thread_list k1.links
    let next = pcb_of_tag thread_tag
    let k2 = process_activate next (set_status next task_running (set_links l k1))
    ok (record k2 { current = next })

  unfoldable pub schedule : Kernel → Run Kernel
  schedule k = do assert (is_off k.links.intr); k1 ← requeue k; dispatch k1

  -- `others` is what runs from a switch away from the calling thread until it is switched to again.
  module _ (others : Kernel → Run Kernel) where
    unfoldable pub thread_lock : TaskStatus → Kernel → Run Kernel
    unfolding intr_disable intr_set_status schedule
    thread_lock status k = do
      let old = intr_disable k.links.intr
      assert (is_asleep status)
      k1 ← schedule (set_status k.current status (set_intr old.0 k))
      k2 ← others k1
      ok (set_intr (intr_set_status old.1 k2.links.intr).0 k2)

    -- The assertion of `thread_yield` looks for the pcb's own address in the queue.
    unfoldable pub thread_yield : Kernel → Run Kernel
    unfolding intr_disable intr_set_status schedule
    thread_yield k = do
      let old = intr_disable k.links.intr
      let k0 = set_intr old.0 k
      found ← elem_find fuel g.ready_thread_list k.current k0.links
      assert (not found)
      let k1 = set_links (list_append g.ready_thread_list (general_tag k.current) k0.links) k0
      k2 ← schedule (set_status k.current task_ready k1)
      k3 ← others k2
      ok (set_intr (intr_set_status old.1 k3.links.intr).0 k3)

    -- device/timer.c: the handler of the clock interrupt.
    unfoldable pub intr_timer_handler : Kernel → Run Kernel
    unfolding schedule
    intr_timer_handler k = do
      assert (k.stack_magic k.current == 0x00007c00)
      let k1 = record k {
        elapsed_ticks = update k.elapsed_ticks k.current (u32 (k.elapsed_ticks k.current + 1));
        total_ticks = u32 (k.total_ticks + 1);
      }
      if k1.ticks k1.current == 0
          then (do k2 ← schedule k1; others k2)
          else ok (record k1 { ticks = update k1.ticks k1.current (k1.ticks k1.current - 1) })
