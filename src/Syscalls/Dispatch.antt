-- ===== src/Syscalls/Dispatch.antt =====
-- The wrappers of lib/user/syscall.c reach the functions that userprog/syscall-init.c put in the
-- table.
use leeos.Base.{
  ℕ, ◌≡◌, ◌≢◌, refl, ◌==◌, ==_of_ne, ==_self, if◌then◌else◌, List, halted, stuck, ◌++◌, Run, ok,
  ◌>>=◌,
}
use leeos.Kernel.{Kernel, Globals}
use leeos.Heap.{Heap, HeapGlobals}
use leeos.Heap
use leeos.Syscalls.{sys_get_pid, sys_write, syscall_table_init}
use leeos.Syscalls.Traps.{Registers, getpid, write, malloc, free}

-- The heap with the kernel, the bytes of the memory, and what has been printed.
pub record System : Type 0 where
  pub heap : Heap
  pub bytes : ℕ → ℕ
  pub printed : List ℕ

-- Where the code of the four functions is.
pub record Entries : Type 0 where
  pub get_pid : ℕ
  pub write : ℕ
  pub malloc : ℕ
  pub free : ℕ

-- The addresses are different.
pub record AreDistinct (e : Entries) : Type 0 where
  pub write_get_pid : e.write ≢ e.get_pid
  pub malloc_get_pid : e.malloc ≢ e.get_pid
  pub malloc_write : e.malloc ≢ e.write
  pub free_get_pid : e.free ≢ e.get_pid
  pub free_write : e.free ≢ e.write
  pub free_malloc : e.free ≢ e.malloc

module _ (fuel : ℕ) (g : Globals) (hg : HeapGlobals) (others : Kernel → Run Kernel)
    (rounds console_lock : ℕ) (string_at : (ℕ → ℕ) → ℕ → List ℕ) where
  abbrev pub on_get_pid : System → Run (ℕ × System)
  on_get_pid s = ok (sys_get_pid s.heap.kernel, s)

  abbrev pub on_write : (str : ℕ) → System → Run (ℕ × System)
  on_write str s =
      let h = s.heap in
      sys_write fuel g others rounds console_lock (string_at s.bytes) s.bytes str h.kernel >>= λ r.
      ok (r.1, record s { heap = record h { kernel = r.2 }; printed = s.printed ++ r.0 })

  abbrev pub on_malloc : (size : ℕ) → System → Run (ℕ × System)
  on_malloc size s =
      Heap.sys_malloc fuel g hg others rounds size s.heap >>= λ r. ok (r.0, record s { heap = r.1 })

  abbrev pub on_free : (ptr : ℕ) → System → Run System
  on_free ptr s =
      Heap.sys_free fuel g hg others rounds ptr s.heap >>= λ h. ok (record s { heap = h })

  -- A function without a result leaves some word in eax.
  abbrev leave : (left : ℕ) → Run System → Run (ℕ × System)
  leave left m = m >>= λ s1. ok (left, s1)

  -- The code at an address: one of the four functions, or what stands there otherwise.
  abbrev code_at :
      (e : Entries) (left : ℕ) (elsewhere : ℕ → Registers → System → Run (ℕ × System))
      → (address : ℕ) → Registers
      → System
      → Run (ℕ × System)
  code_at e left elsewhere address regs s =
      if address == e.get_pid
      then on_get_pid s
      else if address == e.write
      then on_write regs.ebx s
      else if address == e.malloc
      then on_malloc regs.ebx s
      else if address == e.free
      then leave left (on_free regs.ebx s)
      else elsewhere address regs s

  module _ (e : Entries) (left : ℕ) (elsewhere : ℕ → Registers → System → Run (ℕ × System))
      (old : ℕ → ℕ) where
    abbrev table : ℕ → ℕ
    table = syscall_table_init e.get_pid e.write e.malloc e.free old

    free_twice : (m : Run System) → (leave left m >>= λ r. ok r.1) ≡ m
    free_twice (ok s) = refl
    free_twice halted = refl
    free_twice stuck = refl

    -- Where the table has been set up with four different addresses, each wrapper does what
    -- its function does with the wrapper's argument, whatever else the registers hold.
    pub wrappers_dispatch :
        (regs : Registers) (s : System)
        → AreDistinct e
        → (getpid (code_at e left elsewhere) table regs s ≡ on_get_pid s)
          × ((str : ℕ) → write (code_at e left elsewhere) table str regs s ≡ on_write str s)
          × ((size : ℕ) → malloc (code_at e left elsewhere) table size regs s ≡ on_malloc size s)
          × ((addr : ℕ) → free (code_at e left elsewhere) table addr regs s ≡ on_free addr s)
    unfolding getpid write malloc free syscall_table_init
    wrappers_dispatch regs s d = (
      rw (==_self e.get_pid) refl,
      λ str. rw (==_of_ne e.write e.get_pid d.write_get_pid, ==_self e.write) refl,
      λ size.
          rw
            (
              ==_of_ne e.malloc e.get_pid d.malloc_get_pid,
              ==_of_ne e.malloc e.write d.malloc_write,
              ==_self e.malloc,
            )
            refl,
      λ addr.
          rw
            (
              ==_of_ne e.free e.get_pid d.free_get_pid,
              ==_of_ne e.free e.write d.free_write,
              ==_of_ne e.free e.malloc d.free_malloc,
              ==_self e.free,
            )
            (free_twice (on_free addr s)),
    )
