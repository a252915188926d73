-- ===== src/Kernel.antt =====
-- The kernel's shared state: thread/thread.h, thread/sync.h and the globals of thread/thread.c.
use leeos.Base.{ℕ, ◌+◌, Bool, true, false, sub32}
use leeos.Base.Memory.{update}
use leeos.Interrupt.{IntrStatus}
use leeos.Lists.{Links}

-- `enum task_status`
pub data TaskStatus : Type 0 where
  task_running task_ready task_blocked task_waiting task_hanging task_died : TaskStatus

-- The addresses that the linker gives to the globals.
pub record Globals : Type 0 where
  pub ready_thread_list : ℕ
  pub all_thread_list : ℕ
  pub pid_lock : ℕ

-- `struct ioqueue`, less its lock: the waiting threads are pcb addresses, or 0; `buf` is read below 64.
pub record IoQueue : Type 0 where
  pub producer : ℕ
  pub consumer : ℕ
  pub buf : ℕ → ℕ
  pub head : ℕ
  pub tail : ℕ

-- The fields of `struct pcb_struct`, `struct semaphore` and `struct lock` are functions of the
-- structure's address; `current` is the page of the stack pointer, which `running_thread` returns.
pub record Kernel : Type 0 where
  pub links : Links
  pub current : ℕ
  pub status : ℕ → TaskStatus
  pub priority : ℕ → ℕ
  pub ticks : ℕ → ℕ
  pub elapsed_ticks : ℕ → ℕ
  pub pid : ℕ → ℕ
  pub pgdir : ℕ → ℕ
  pub stack_magic : ℕ → ℕ
  pub fd_table : ℕ → ℕ → ℕ
  pub self_kernel_stack : ℕ → ℕ
  pub main_thread_pcb_ptr : ℕ
  pub idle_thread : ℕ
  pub next_pid : ℕ
  pub total_ticks : ℕ  -- `ticks` of device/timer.c
  pub cr3 : ℕ
  pub esp0 : ℕ  -- `tss.esp0`
  pub value : ℕ → ℕ  -- of a semaphore
  pub holder : ℕ → ℕ  -- of a lock
  pub holder_repeat_num : ℕ → ℕ
  pub ioqueue : ℕ → IoQueue  -- by the queue's address
  pub word : ℕ → ℕ  -- the page tables' entries, by their virtual address

-- The offsets of `general_tag` and `all_list_tag` in a `struct pcb_struct`, and of `waiter` in a
-- `struct semaphore` and `sem` in a `struct lock`, for the i386 layout.
abbrev pub general_tag : ℕ → ℕ
general_tag pcb = pcb + 68

abbrev pub all_list_tag : ℕ → ℕ
all_list_tag pcb = pcb + 76

abbrev pub waiter_of : ℕ → ℕ
waiter_of sem = sem + 4

abbrev pub sem_of : ℕ → ℕ
sem_of plock = plock + 4

-- `io_lock` is the first field of a `struct ioqueue`.
abbrev pub io_lock_of : ℕ → ℕ
io_lock_of ioq = ioq

-- `get_pcb(struct pcb_struct, general_tag, tag)`
abbrev pub pcb_of_tag : ℕ → ℕ
pcb_of_tag tag = sub32 tag 68

-- The writes to one field.
abbrev pub set_links : Links → Kernel → Kernel
set_links l k = record k { links = l }

abbrev pub set_intr : IntrStatus → Kernel → Kernel
set_intr s k = record k { links = (let l = k.links in record l { intr = s }) }

abbrev pub set_status : ℕ → TaskStatus → Kernel → Kernel
set_status pcb s k = record k { status = update k.status pcb s }

abbrev pub set_value : ℕ → ℕ → Kernel → Kernel
set_value sem v k = record k { value = update k.value sem v }

abbrev pub is_running : TaskStatus → Bool
is_running task_running = true
is_running _ = false

abbrev pub is_ready : TaskStatus → Bool
is_ready task_ready = true
is_ready _ = false

-- status == TASK_BLOCKED || status == TASK_WAITING || status == TASK_HANGING
abbrev pub is_asleep : TaskStatus → Bool
is_asleep task_blocked = true
is_asleep task_waiting = true
is_asleep task_hanging = true
is_asleep _ = false

abbrev pub is_off : IntrStatus → Bool
is_off IntrStatus.intr_off = true
is_off IntrStatus.intr_on = false
