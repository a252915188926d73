-- ===== src/Tests/State.antt =====
-- One concrete state of the kernel.
use leeos.Base.{ℕ, ◌+◌, ◌≤◌, ◌<◌, refl, List, [], ◌∷◌, ◌==◌, if◌then◌else◌, arith, Run, ok}
use leeos.Interrupt.{intr_off}
use leeos.Lists.{Links}
use leeos.Lists.Refine.{IsList}
use leeos.Kernel.{Kernel, Globals, IoQueue, TaskStatus, task_running, task_ready, task_blocked}
use leeos.Thread.Queue.{IsPcb}
use leeos.Thread.Schedule.{IsQueued}
use leeos.Sync.Locks.{IsFree}

abbrev pub globals : Globals
globals = record { ready_thread_list = 1000; all_thread_list = 1100; pid_lock = 1200 }

-- The threads at 12288 and 16384 are ready, the one at 20480 waits for the semaphore at 2000, and
-- nobody waits for the lock at 3000.
abbrev pub links : Links
links = record {
  next = λ a.
      if a == 1000
      then 12356
      else if a == 12356
      then 16452
      else if a == 16452
      then 1008
      else if a == 2004
      then 20548
      else if a == 20548
      then 2012
      else if a == 3008
      then 3016
      else if a == 1208
      then 1216
      else if a == 1100
      then 8268
      else if a == 8268
      then 12364
      else if a == 12364
      then 1108
      else 0;
  prev = λ a.
      if a == 1008
      then 16452
      else if a == 16452
      then 12356
      else if a == 12356
      then 1000
      else if a == 2012
      then 20548
      else if a == 20548
      then 2004
      else if a == 3016
      then 3008
      else if a == 1216
      then 1208
      else if a == 1108
      then 12364
      else if a == 12364
      then 8268
      else if a == 8268
      then 1100
      else 0;
  intr = intr_off;
}

-- The queue at 4000 holds one character, and the thread at 24576 is registered at 5000.
abbrev pub queue_at : ℕ → IoQueue
queue_at a = record {
  producer = 0;
  consumer = if a == 5000 then 24576 else 0;
  buf = λ i. i + 10;
  head = 2;
  tail = 1;
}

abbrev pub status_at : ℕ → TaskStatus
status_at p =
    if p == 8192
    then task_running
    else if p == 12288
    then task_ready
    else if p == 16384
    then task_ready
    else task_blocked

abbrev pub kernel : Kernel
kernel = record {
  links = links;
  current = 8192;
  status = status_at;
  priority = λ p. 31;
  ticks = λ p. 0;
  elapsed_ticks = λ p. 0;
  pid = λ p. 0;
  pgdir = λ p. 0;
  stack_magic = λ p. 0x00007c00;
  fd_table = λ p i. 0;
  self_kernel_stack = λ p. if p == 24576 then 20480 else 0;
  main_thread_pcb_ptr = 8192;
  idle_thread = 28672;
  next_pid = 1;
  total_ticks = 0;
  cr3 = 0x00100000;
  esp0 = 0;
  value = λ s. if s == 3004 then 1 else if s == 1204 then 1 else 0;
  holder = λ l. 0;
  holder_repeat_num = λ l. 0;
  ioqueue = queue_at;
  word = λ a. 0;
}

abbrev pub pcbs : List ℕ
pcbs = 12288 ∷ 16384 ∷ []

pub is_pcb : (p : ℕ) → 8192 ≤ p → p < 100000 → IsPcb 1000 p
is_pcb p lo hi = record { address = omega arith; ne_head = omega arith; ne_tail = omega arith }

pub ready-IsList : IsList links 1000 (12356 ∷ 16452 ∷ [])
ready-IsList = record { chain = ground arith; distinct = ground arith }

pub kernel-IsQueued : IsQueued 5 globals kernel pcbs
kernel-IsQueued = record {
  queue = ready-IsList;
  pcbs = (is_pcb 12288 (omega arith) (omega arith), (is_pcb 16384 (omega arith) (omega arith), tt));
  waiting = (refl, (refl, tt));
  absent = (omega arith, (omega arith, tt));
  self = is_pcb 8192 (omega arith) (omega arith);
  enough = omega arith;
}

abbrev pub nobody_runs : Kernel → Run Kernel
nobody_runs k = ok k

pub kernel-IsFree : IsFree kernel 3000
kernel-IsFree = record {
  value = refl;
  holder = refl;
  repeat = refl;
  waiter = record { chain = ground arith; distinct = ground arith };
}
