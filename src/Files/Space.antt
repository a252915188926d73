-- ===== src/Files/Space.antt =====
-- What the file system's calls share: the heap of kernel/memory.c, the disks of device/ide.c, and
-- the bytes of the memory, in which buffers and inodes stand. The elements of lists are those of
-- the kernel's lists.
pub mod Sectors
use leeos.Base.{ℕ, ◌+◌, ◌-◌, ◌*◌, Bool, ◌&&◌, ◌==◌, if◌then◌else◌, ltb, leb, Run, ok, ◌>>=◌}
use leeos.Base.Memory.{update}
use leeos.Lists.{Links}
use leeos.Kernel.{Kernel, Globals, set_links}
use leeos.Pools.{page_size}
use leeos.Heap.{Heap, HeapGlobals, arena_size, block_to_arena, on_kernel}
use leeos.Heap
use leeos.Ide.{Controller, Disk, Driver}
use leeos.Ide

-- The controllers, the kernel's addresses, what other threads do while a caller waits for a pool's
-- lock, how often it looks again, and the fuel of loops.
pub record Machine : Type 1 where
  pub controller : Controller
  pub globals : Globals
  pub heap_globals : HeapGlobals
  pub others : Kernel → Run Kernel
  pub rounds : ℕ
  pub fuel : ℕ

pub record Space (S : Type 0) : Type 0 where
  pub heap : Heap
  pub driver : Driver S

module _ {S : Type 0} where
  abbrev pub bytes : Space S → ℕ → ℕ
  bytes f = f.driver.memory

  abbrev pub set_bytes : (ℕ → ℕ) → Space S → Space S
  set_bytes m f = let d = f.driver in record f { driver = record d { memory = m } }

  abbrev pub links : Space S → Links
  links f = f.heap.kernel.links

  abbrev pub on_links : (Links → Links) → Space S → Space S
  on_links g f = record f { heap = on_kernel (λ k. set_links (g k.links) k) f.heap }

  -- `running_thread()->pgdir`, and its assignment.
  abbrev pub pgdir_of : Space S → ℕ
  pgdir_of f = f.heap.kernel.pgdir f.heap.kernel.current

  abbrev pub set_pgdir : (thread pgdir : ℕ) → Space S → Space S
  set_pgdir thread pgdir f = record f {
    heap = on_kernel (λ k. record k { pgdir = update k.pgdir thread pgdir }) f.heap;
  }

-- How many bytes from a block on sys_malloc clears: the rest of the pages, or the block.
abbrev pub block_bytes : Heap → ℕ → ℕ
block_bytes h block =
    let arena = block_to_arena block in
    if block == 0
    then 0
    else if h.large arena
    then h.cnt arena * page_size - arena_size
    else h.block_size (h.mem_desc_addr arena)

-- `memset(start, 0, size)`.
abbrev pub clear_bytes : (start size : ℕ) → (ℕ → ℕ) → ℕ → ℕ
clear_bytes start size m a = if leb start a && ltb a (start + size) then 0 else m a

module _ (c : Machine) where
  open c use {controller, globals, heap_globals, others, rounds, fuel}

  abbrev pub State : Type 0
  State = Space controller.State

  unfoldable pub malloc : ℕ → State → Run (ℕ × State)
  malloc size f = do
    r ← Heap.sys_malloc fuel globals heap_globals others rounds size f.heap
    let h = r.1
    let m = clear_bytes r.0 (block_bytes h r.0) f.driver.memory
    ok (r.0, set_bytes m (record f { heap = h }))

  unfoldable pub free : ℕ → State → Run State
  free ptr f = do
    h ← Heap.sys_free fuel globals heap_globals others rounds ptr f.heap
    ok (record f { heap = h })

  unfoldable pub read_sectors : Disk → (lba buf sec_cnt : ℕ) → State → Run State
  read_sectors hd lba buf sec_cnt f = do
    d ← Ide.ide_read controller fuel hd lba buf sec_cnt f.driver
    ok (record f { driver = d })

  unfoldable pub write_sectors : Disk → (lba buf sec_cnt : ℕ) → State → Run State
  write_sectors hd lba buf sec_cnt f = do
    d ← Ide.ide_write controller fuel hd lba buf sec_cnt f.driver
    ok (record f { driver = d })
