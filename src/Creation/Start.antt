-- ===== src/Creation/Start.antt =====
-- thread_start puts a new thread behind the others in both lists.
use leeos.Base.{ℕ, ◌+◌, ◌-◌, ◌≡◌, List, [], ◌∷◌, ◌++◌, u8, u16}
use leeos.Lists.Refine.{IsList}
use leeos.Kernel.{Kernel, Globals, task_ready, general_tag, all_list_tag, set_status}
use leeos.Sync.Locks.{held, released}
use leeos.Creation.{ThreadStack, clear_pcb, fill_pcb}

-- The number that a thread is given, and the state behind the call.
abbrev counted : ℕ → Kernel → Kernel
counted lock k =
    let h = held lock 1 k in released lock (record h { next_pid = u16 (k.next_pid + 1) })

-- The state after thread_init of a thread that is not the main one.
abbrev prepared : Globals → (pcb prio : ℕ) → Kernel → Kernel
prepared g pcb prio k =
    fill_pcb pcb prio (u16 (k.next_pid + 1))
      (counted g.pid_lock (set_status pcb task_ready (clear_pcb pcb k)))

-- What thread_start leaves.
pub record Started (g : Globals) (k : Kernel) (pcb prio : ℕ) (ready every : List ℕ)
    (r : ThreadStack × Kernel) : Type 0 where
  pub queue : IsList r.1.links g.ready_thread_list (ready ++ (general_tag pcb ∷ []))
  pub threads : IsList r.1.links g.all_thread_list (every ++ (all_list_tag pcb ∷ []))
  pub status : r.1.status pcb ≡ task_ready
  pub ticks : r.1.ticks pcb ≡ u8 prio
  pub priority : r.1.priority pcb ≡ u8 prio
  pub pid : r.1.pid pcb ≡ u16 (k.next_pid + 1)
  pub stack : r.0.address ≡ pcb + 4096 - 432
  pub saved : r.1.self_kernel_stack pcb ≡ r.0.address
  pub current : r.1.current ≡ k.current
