-- ===== src/Tests/Heap.antt =====
-- The heap with one arena of blocks of 32 bytes, two of them free.
use leeos.Base.{
  ℕ, ◌+◌, ◌*◌, ◌/◌, ◌^◌, ◌≤◌, ◌<◌, ◌≡◌, ◌≢◌, inl, refl, [], ◌∷◌, ◌==◌, if◌then◌else◌, false, arith,
  Returns, ◌>>=◌, ◌-◌,
}
use leeos.Lists.{Links}
use leeos.Interrupt.{intr_off}
use leeos.Pools.{
  Pool, Memory, pf_kernel, page_size, malloc_pages, vaddr_get_pages, set_run, map_pages, palloc,
  page_table_add,
}
use leeos.Pools.Mapped.{pte_addr-pde_addr}
use leeos.Process.{create_page_dir}
use leeos.Process.Directory.{IsDirectory, create_page_dir-IsDirectory}
use leeos.Bitmap.{bitmap_scan, bitmap_set}
use leeos.Paging.{pte_addr, pde_addr}
use leeos.Heap.{
  Heap, HeapGlobals, arena_size, find_desc, block_to_arena, arena_to_block, malloc_large,
  sys_malloc, sys_free, large_pages,
}
use leeos.Heap.Blocks.{arena_to_block_parts, size_of}
use leeos.Heap.Recycle.{HasFree, IsGiven, IsBack, desc_for, sys_malloc-IsGiven, sys_free-sys_malloc}
use leeos.Heap.Overrun.{malloc_large_overruns}
use leeos.Tests.State.{globals, kernel, nobody_runs}

-- The list at 6032 holds the first two blocks of the arena at 0x100000.
abbrev pub block_links : Links
block_links = record {
  next = λ a.
      if a == 6032
      then 1048588
      else if a == 1048588
      then 1048620
      else if a == 1048620
      then 6040
      else if a == 3008
      then 3016
      else 0;
  prev = λ a.
      if a == 6040
      then 1048620
      else if a == 1048620
      then 1048588
      else if a == 1048588
      then 6032
      else if a == 3016
      then 3008
      else 0;
  intr = intr_off;
}

abbrev pub no_pages : Pool
no_pages = record {
  pool_bitmap = record { bitmap_len = 1; bits = λ i. 0 };
  phy_start_addr = 0x200000;
  mem_size = 0x8000;
}

abbrev pub pages : Memory
pages = record {
  kernel_pool = no_pages;
  user_pool = no_pages;
  kernel_vaddr = record {
    vaddr_bitmap = record { bitmap_len = 1; bits = λ i. 0 };
    vaddr_start = 0xc0100000;
  };
  userprog_vaddr = record {
    vaddr_bitmap = record { bitmap_len = 1; bits = λ i. 0 };
    vaddr_start = 0x8048000;
  };
  word = λ a. if a == 0xfffffc00 then 1 else 0;
}

abbrev pub heap : Heap
heap = record {
  kernel = record kernel { links = block_links };
  memory = pages;
  mem_desc_addr = λ a. 6024;
  cnt = λ a. 2;
  large = λ a. false;
  block_size = λ d. if d == 6000 then 16 else if d == 6024 then 32 else 64;
  blocks_per_arena = λ d. if d == 6024 then 127 else 63;
}

abbrev pub heap_globals : HeapGlobals
heap_globals = record { kernel_pool_lock = 3000; user_pool_lock = 3100; k_mem_block_descs = 6000 }

heap-HasFree : HasFree heap_globals 20 1048588 (1048620 ∷ []) heap
unfolding find_desc block_to_arena
heap-HasFree = record {
  small = omega arith;
  running = omega arith;
  lock = record {
    value = refl;
    holder = refl;
    repeat = refl;
    waiter = record { chain = ground arith; distinct = ground arith };
  };
  free = record { chain = ground arith; distinct = ground arith };
  block = omega arith;
  header = omega arith;
  apart = ground arith;
  others_beyond = ground arith;
  waiters_beyond = ground arith;
}

heap-desc : heap.mem_desc_addr (block_to_arena 1048588) ≡ desc_for heap_globals 20 heap
unfolding find_desc
heap-desc = refl

heap-desc_pos : desc_for heap_globals 20 heap ≢ 0
unfolding find_desc
heap-desc_pos = omega arith

heap-in_use :
    heap.cnt (block_to_arena 1048588) < heap.blocks_per_arena (desc_for heap_globals 20 heap)
unfolding find_desc
heap-in_use = omega arith

sys_malloc-IsGiven_example :
    Returns
      (sys_malloc 5 globals heap_globals nobody_runs 1 20 heap)
      (IsGiven heap_globals 20 1048588 (1048620 ∷ []) heap)
sys_malloc-IsGiven_example =
    sys_malloc-IsGiven heap_globals 20 1048588 (1048620 ∷ []) 5 globals nobody_runs 1 heap
      heap-HasFree (omega arith)

sys_free-sys_malloc_example :
    Returns
      (sys_malloc 5 globals heap_globals nobody_runs 1 20 heap >>= λ r.
        sys_free 5 globals heap_globals nobody_runs 1 r.0 r.1)
      (IsBack heap_globals 20 1048588 (1048620 ∷ []) 5 globals nobody_runs 1 heap)
sys_free-sys_malloc_example =
    sys_free-sys_malloc heap_globals 20 1048588 (1048620 ∷ []) 5 globals nobody_runs 1 heap
      heap-HasFree heap-desc heap-desc_pos (omega arith) heap-in_use (omega arith) (omega arith)

arena_to_block_parts_example :
    (block_to_arena (arena_to_block 0x100000 1 heap) ≡ 0x100000)
    × (0x100000 + arena_size ≤ arena_to_block 0x100000 1 heap)
    × (arena_to_block 0x100000 1 heap + size_of 1 ≤ 0x100000 + page_size)
    × ((later : ℕ)
        → 1 < later
        → later < 127
        → arena_to_block 0x100000 1 heap + size_of 1 ≤ arena_to_block 0x100000 later heap)
arena_to_block_parts_example =
    arena_to_block_parts heap 0x100000 1
      (record {
        page = 0x100;
        address = refl;
        fits = omega arith;
        class = omega arith;
        block_size = refl;
        blocks = refl;
      })
      1 (omega arith)

pages_got :
    Returns
      (malloc_pages pf_kernel (large_pages 4096) pages)
      (λ r. (r.0 ≢ 0) × (r.0 + page_size * large_pages 4096 < 2 ^ 32))
unfolding malloc_pages vaddr_get_pages set_run map_pages palloc page_table_add bitmap_scan
    bitmap_set pte_addr pde_addr
pages_got = omega arith

-- One page for 4096 bytes and the 12 bytes before them.
malloc_large_overruns_example :
    Returns
      (malloc_large pf_kernel 4096 heap)
      (λ r. r.0 - arena_size + page_size * r.1.cnt (r.0 - arena_size) < r.0 + 4096)
malloc_large_overruns_example =
    malloc_large_overruns pf_kernel 4096 heap (omega arith) (omega arith) (inl refl) pages_got

pte_addr-pde_addr_example :
    (pte_addr 0xc0100000 ≡ 0xffc00000 + 4 * (0xc0100000 / page_size))
    × (pde_addr 0xc0100000 ≡ pte_addr (pte_addr 0xc0100000))
pte_addr-pde_addr_example = pte_addr-pde_addr 0xc0100000 (omega arith)

page_got :
    Returns (malloc_pages pf_kernel 1 pages) (λ r. (r.0 ≢ 0) × (r.0 + page_size ≤ 0xffc00000))
unfolding malloc_pages vaddr_get_pages set_run map_pages palloc page_table_add bitmap_scan
    bitmap_set pte_addr pde_addr
page_got = omega arith

create_page_dir-IsDirectory_example : Returns (create_page_dir pages) IsDirectory
create_page_dir-IsDirectory_example = create_page_dir-IsDirectory pages page_got
