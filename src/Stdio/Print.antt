-- ===== src/Stdio/Print.antt =====
-- printf of lib/stdio.c and printk of lib/kernel/stdio-kernel.c: a text that is put together in a
-- local buffer and then printed.
use leeos.Base.{ℕ, ◌+◌, ◌&&◌, ltb, leb, if◌then◌else◌, List, Run, ok, ◌>>=◌}
use leeos.Kernel.{Kernel, Globals}
use leeos.Console.{console_put_str}
use leeos.Stdio.{vsprintf}
use leeos.Syscalls.Traps.{Registers, write}
use leeos.Syscalls.Dispatch.{System}

-- `char buf[1024] = {0}`, at the address.
abbrev pub zeroed_buf : (buf : ℕ) → (ℕ → ℕ) → ℕ → ℕ
zeroed_buf buf m a = if leb buf a && ltb a (buf + 1024) then 0 else m a

-- The result is that of the system call.
unfoldable pub printf :
    (fuel : ℕ) (call : ℕ → Registers → System → Run (ℕ × System)) (table : ℕ → ℕ)
    → Registers
    → (buf format : ℕ) → List ℕ
    → System
    → Run (ℕ × System)
printf fuel call table regs buf format ap s = do
  r ← vsprintf fuel buf format ap (zeroed_buf buf s.bytes)
  write call table buf regs (record s { bytes = r.0 })

-- The result is 0; what is printed and the memory are with it.
unfoldable pub printk :
    (fuel : ℕ) (g : Globals) (others : Kernel → Run Kernel) (rounds console_lock : ℕ)
    (string_at : (ℕ → ℕ) → ℕ → List ℕ) (buf format : ℕ)
    → List ℕ
    → (ℕ → ℕ)
    → Kernel
    → Run (ℕ × List ℕ × (ℕ → ℕ) × Kernel)
printk fuel g others rounds console_lock string_at buf format ap m k = do
  r ← vsprintf fuel buf format ap (zeroed_buf buf m)
  p ← console_put_str fuel g others rounds console_lock (string_at r.0 buf) k
  ok (0, p.0, r.0, p.1)
