-- ===== src/Syscalls.antt =====
-- userprog/syscall-init.c and the numbers of lib/user/syscall.h: what system calls do in the kernel.
pub mod Traps
pub mod Dispatch
use leeos.Base.{ℕ, List, Run, ok, ◌>>=◌}
use leeos.Base.Memory.{update}
use leeos.Kernel.{Kernel, Globals}
use leeos.Console.{console_put_str}
use leeos.Strings.{strlen}

-- `enum syscall_number`, and where each is in `syscall_table`.
pub data SyscallNumber : Type 0 where
  sys_getpid_no sys_write_no sys_malloc_no sys_free_no : SyscallNumber

abbrev pub index_of : SyscallNumber → ℕ
index_of sys_getpid_no = 0
index_of sys_write_no = 1
index_of sys_malloc_no = 2
index_of sys_free_no = 3

unfoldable pub sys_get_pid : Kernel → ℕ
sys_get_pid k = k.pid k.current

-- The string is printed, and its length is the result; `string_at` reads the string at an address.
unfoldable pub sys_write :
    (fuel : ℕ) (g : Globals) (others : Kernel → Run Kernel) (rounds console_lock : ℕ)
    (string_at : ℕ → List ℕ) (m : ℕ → ℕ) (str : ℕ)
    → Kernel
    → Run (List ℕ × ℕ × Kernel)
sys_write fuel g others rounds console_lock string_at m str k = do
  r ← console_put_str fuel g others rounds console_lock (string_at str) k
  len ← strlen fuel m str
  ok (r.0, len, r.1)

-- The addresses of the four functions.
unfoldable pub syscall_table_init :
    (sys_get_pid sys_write sys_malloc sys_free : ℕ) → (ℕ → ℕ) → ℕ → ℕ
syscall_table_init get_pid write malloc free table =
    let t1 = update table (index_of sys_getpid_no) get_pid in
    let t2 = update t1 (index_of sys_write_no) write in
    let t3 = update t2 (index_of sys_malloc_no) malloc in update t3 (index_of sys_free_no) free
