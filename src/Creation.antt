-- ===== src/Creation.antt =====
-- thread/thread.c: how a thread comes to be. The page that malloc_kernel_pages returns for its pcb
-- is an argument, and the name is left out.
pub mod Start
use leeos.Base.{
  ℕ, ◌+◌, ◌-◌, ◌*◌, ◌%◌, ◌^◌, Bool, true, false, not, ◌&&◌, ◌==◌, if◌then◌else◌, ltb, leb, u8, u32,
  sub32, Run, ok, ◌>>=◌, ◌>>◌, assert,
}
use leeos.Base.Memory.{update}
use leeos.Lists.{Links, list_append, list_init, elem_find}
use leeos.Lists.Cleared.{clear_links}
use leeos.Kernel.{
  Kernel, Globals, task_running, task_ready, general_tag, all_list_tag, set_links, set_status,
}
use leeos.Sync.{allocate_next_pid, lock_init}

-- `sizeof(struct pcb_struct)`.
abbrev pub pcb_size : ℕ
pcb_size = 272

-- `memset(pcb_ptr, 0, sizeof(*pcb_ptr))`.
unfoldable pub clear_pcb : ℕ → Kernel → Kernel
clear_pcb pcb k = record k {
  links = clear_links pcb pcb_size k.links;
  status = update k.status pcb task_running;
  priority = update k.priority pcb 0;
  ticks = update k.ticks pcb 0;
  elapsed_ticks = update k.elapsed_ticks pcb 0;
  pid = update k.pid pcb 0;
  pgdir = update k.pgdir pcb 0;
  stack_magic = update k.stack_magic pcb 0;
  fd_table = λ p i. if pcb == p then 0 else k.fd_table p i;
  self_kernel_stack = update k.self_kernel_stack pcb 0;
}

-- The table with the three standard files open: slots 0 to 2, and -1 from 3 to 7.
abbrev pub standard_files : ℕ → ℕ
standard_files i = if ltb i 3 then i else 2 ^ 32 - 1

-- The fields that thread_init sets once the thread has its number.
unfoldable pub fill_pcb : (pcb prio pid : ℕ) → Kernel → Kernel
fill_pcb pcb prio pid k = record k {
  pid = update k.pid pcb pid;
  priority = update k.priority pcb (u8 prio);
  elapsed_ticks = update k.elapsed_ticks pcb 0;
  ticks = update k.ticks pcb (u8 prio);
  pgdir = update k.pgdir pcb 0;
  fd_table = λ p i. if (pcb == p) && ltb i 8 then standard_files i else k.fd_table p i;
  stack_magic = update k.stack_magic pcb 0x00007c00;
  self_kernel_stack = update k.self_kernel_stack pcb (u32 (pcb + 4096));
}

-- `struct thread_stack`: where the thread starts, with its four saved registers zero.
pub record ThreadStack : Type 0 where
  pub address : ℕ
  pub function : ℕ
  pub function_args : ℕ

-- `-=` on a pointer to words: each of the two sizes, 76 and 32, is taken four times.
unfoldable pub thread_create : (pcb function func_args : ℕ) → Kernel → ThreadStack × Kernel
thread_create pcb function func_args k =
    let stack = sub32 (sub32 (k.self_kernel_stack pcb) (4 * 76)) (4 * 32) in
    (
      record { address = stack; function = function; function_args = func_args },
      record k { self_kernel_stack = update k.self_kernel_stack pcb stack },
    )

module _ (fuel : ℕ) (g : Globals) (others : Kernel → Run Kernel) (rounds : ℕ) where
  unfoldable pub thread_init : (pcb prio : ℕ) → Kernel → Run Kernel
  unfolding clear_pcb fill_pcb
  thread_init pcb prio k = do
    let k1 = clear_pcb pcb k
    let status = if pcb == k1.main_thread_pcb_ptr then task_running else task_ready
    r ← allocate_next_pid fuel g others rounds (set_status pcb status k1)
    ok (fill_pcb pcb prio r.0 r.1)

  -- The tag is added to the list unless it is there, which the source asserts first.
  unfoldable pub enlist : (plist tag : ℕ) → Kernel → Run Kernel
  enlist plist tag k = do
    found ← elem_find fuel plist tag k.links
    assert (not found)
    ok (set_links (list_append plist tag k.links) k)

  unfoldable pub thread_start : (pcb func func_args prio : ℕ) → Kernel → Run (ThreadStack × Kernel)
  unfolding enlist
  thread_start pcb func func_args prio k = do
    k1 ← thread_init pcb prio k
    let created = thread_create pcb func func_args k1
    k2 ← enlist g.ready_thread_list (general_tag pcb) created.1
    k3 ← enlist g.all_thread_list (all_list_tag pcb) k2
    ok (created.0, k3)

  -- The running thread becomes the main thread.
  unfoldable pub make_main_thread : Kernel → Run Kernel
  unfolding enlist
  make_main_thread k = do
    let k1 = record k { main_thread_pcb_ptr = k.current }
    k2 ← thread_init k1.main_thread_pcb_ptr 31 k1
    enlist g.all_thread_list (all_list_tag k2.main_thread_pcb_ptr) k2

  -- `idle_pcb` is the page for the idle thread, and `idle` the function's address.
  unfoldable pub system_thread_init : (idle_pcb idle : ℕ) → Kernel → Run Kernel
  unfolding make_main_thread thread_start
  system_thread_init idle_pcb idle k = do
    let k1 = set_links (list_init g.all_thread_list k.links) k
    let k2 = set_links (list_init g.ready_thread_list k1.links) k1
    k3 ← make_main_thread (lock_init g.pid_lock k2)
    r ← thread_start idle_pcb idle 0 10 k3
    let k4 = r.1
    ok (record k4 { idle_thread = idle_pcb })
