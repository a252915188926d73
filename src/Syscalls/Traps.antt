-- ===== src/Syscalls/Traps.antt =====
-- lib/user/syscall.c: what a process calls. Each wrapper loads registers and traps, and the entry
-- system_call_handler calls the function whose address is in the table.
use leeos.Base.{ℕ, Run, ok, ◌>>=◌}
use leeos.Syscalls.{index_of, sys_getpid_no, sys_write_no, sys_malloc_no, sys_free_no}

-- The registers of the process, which the trap saves.
pub record Registers : Type 0 where
  pub ebx : ℕ
  pub ecx : ℕ
  pub edx : ℕ

-- `call` is what the code at an address does with three words of the stack: what it leaves in eax,
-- and the state.
module _ {S : Type 0} (call : (address : ℕ) → Registers → S → Run (ℕ × S)) (table : ℕ → ℕ) where
  unfoldable pub trap : (eax : ℕ) → Registers → S → Run (ℕ × S)
  trap eax regs s = call (table eax) regs s

  unfoldable pub getpid : Registers → S → Run (ℕ × S)
  unfolding trap
  getpid regs s = trap (index_of sys_getpid_no) regs s

  unfoldable pub write : (str : ℕ) → Registers → S → Run (ℕ × S)
  unfolding trap
  write str regs s = trap (index_of sys_write_no) (record regs { ebx = str }) s

  unfoldable pub malloc : (size : ℕ) → Registers → S → Run (ℕ × S)
  unfolding trap
  malloc size regs s = trap (index_of sys_malloc_no) (record regs { ebx = size }) s

  -- What is left in eax is dropped.
  unfoldable pub free : (addr : ℕ) → Registers → S → Run S
  unfolding trap
  free addr regs s = do r ← trap (index_of sys_free_no) (record regs { ebx = addr }) s; ok r.1
