-- ===== src/Heap.antt =====
-- kernel/memory.c: the heap. Pages are cut into blocks of one of seven sizes, which lists of free
-- blocks hold; the kernel's state has the lists and the locks, the pools' state the pages.
pub mod Blocks
pub mod Descriptors
pub mod Recycle
pub mod Overrun
pub mod Pages
pub mod Setup
use Prim.Native.Nat.{bit_and}
use leeos.Base.{
  ℕ, zero, suc, ◌+◌, ◌-◌, ◌*◌, ◌/◌, Bool, true, false, not, ◌&&◌, ◌==◌, if◌then◌else◌, ltb, leb,
  u32, sub32, Run, ok, ◌>>=◌, ◌>>◌, assert,
}
use leeos.Base.Memory.{update}
use leeos.Interrupt.{intr_disable, intr_set_status}
use leeos.Lists.{list_init, list_append, list_remove, list_pop, list_empty, elem_find}
use leeos.Lists.Cleared.{is_within, clear_links}
use leeos.Kernel.{Kernel, Globals, set_links, set_intr}
use leeos.Sync.{lock_acquire, lock_release}
use leeos.Bitmap.{bitmap_set}
use leeos.Pools.{
  Memory, PoolFlags, pf_kernel, pf_user, page_size, clear_words, palloc, pool_of, set_pool,
  vaddrs_of, set_vaddrs, page_table_add, malloc_pages, free_pages,
}

-- The addresses of the pools' locks and of `k_mem_block_descs`.
pub record HeapGlobals : Type 0 where
  pub kernel_pool_lock : ℕ
  pub user_pool_lock : ℕ
  pub k_mem_block_descs : ℕ

-- The fields of `struct arena` are functions of the arena's address, those of `struct
-- mem_block_desc` of the descriptor's. The page tables' words are those of `memory`.
pub record Heap : Type 0 where
  pub kernel : Kernel
  pub memory : Memory
  pub mem_desc_addr : ℕ → ℕ
  pub cnt : ℕ → ℕ
  pub large : ℕ → Bool
  pub block_size : ℕ → ℕ
  pub blocks_per_arena : ℕ → ℕ

-- `sizeof(struct arena)`.
abbrev pub arena_size : ℕ
arena_size = 12

-- `sizeof(struct mem_block_desc)`; the list stands behind the two counts.
abbrev pub desc_size : ℕ
desc_size = 24

abbrev pub free_list : ℕ → ℕ
free_list desc = desc + 8

-- `&mem_descs[index]`.
abbrev pub desc_at : ℕ → ℕ → ℕ
desc_at descs index = descs + desc_size * index

abbrev pub on_kernel : (Kernel → Kernel) → Heap → Heap
on_kernel f h = record h { kernel = f h.kernel }

abbrev pub init_desc : (desc capacity : ℕ) → Heap → Heap
init_desc desc capacity h = record h {
  block_size = update h.block_size desc capacity;
  blocks_per_arena = update h.blocks_per_arena desc ((page_size - arena_size) / capacity);
  kernel = set_links (list_init (free_list desc) h.kernel.links) h.kernel;
}

-- The loop of block_des_init.
unfoldable pub init_descs : ℕ → ℕ → ℕ → ℕ → Heap → Heap
init_descs zero descs index capacity h = h
init_descs (suc left) descs index capacity h =
    init_descs left descs (suc index) (u32 (capacity * 2))
      (init_desc (desc_at descs index) capacity h)

unfoldable pub block_des_init : ℕ → Heap → Heap
unfolding init_descs
block_des_init descs h = init_descs 7 descs 0 16 h

unfoldable pub arena_to_block : ℕ → ℕ → Heap → ℕ
arena_to_block arena index h =
    u32 (arena + arena_size + index * h.block_size (h.mem_desc_addr arena))

unfoldable pub block_to_arena : ℕ → ℕ
block_to_arena block = bit_and block 0xfffff000

-- `memset(start, 0, size)` on the elements of lists, the arenas and the words in the range.
abbrev pub clear : ℕ → ℕ → Heap → Heap
clear start size h =
    let m = h.memory in
    record h {
      kernel = set_links (clear_links start size h.kernel.links) h.kernel;
      memory = record m { word = clear_words m.word start size };
      mem_desc_addr = λ a. if is_within start size a then 0 else h.mem_desc_addr a;
      cnt = λ a. if is_within start size (a + 4) then 0 else h.cnt a;
      large = λ a. if is_within start size (a + 8) then false else h.large a;
    }

abbrev pub set_arena : (arena desc : ℕ) → Bool → ℕ → Heap → Heap
set_arena arena desc large cnt h = record h {
  mem_desc_addr = update h.mem_desc_addr arena desc;
  large = update h.large arena large;
  cnt = update h.cnt arena cnt;
}

-- Whose memory it is: the running thread's page directory says it.
abbrev pub flags_of : Kernel → PoolFlags
flags_of k = if k.pgdir k.current == 0 then pf_kernel else pf_user

abbrev pub lock_of : HeapGlobals → PoolFlags → ℕ
lock_of hg pf_kernel = hg.kernel_pool_lock
lock_of hg pf_user = hg.user_pool_lock

-- `u_mem_block_desc` stands 100 bytes into the pcb.
abbrev pub descs_of : HeapGlobals → PoolFlags → Kernel → ℕ
descs_of hg pf_kernel k = hg.k_mem_block_descs
descs_of hg pf_user k = k.current + 100

-- The loop that looks for a size, from the index on; 7 if there is none.
unfoldable pub find_desc : ℕ → ℕ → ℕ → ℕ → (ℕ → ℕ) → ℕ
find_desc zero size descs index block_size = index
find_desc (suc left) size descs index block_size =
    let rest = find_desc left size descs (suc index) block_size in
    if leb size (block_size (desc_at descs index)) then index else rest

-- A process asks for its own addresses, and the kernel for its own.
abbrev pub is_own : PoolFlags → Bool → Bool
is_own pf_kernel is_kernel = is_kernel
is_own pf_user is_kernel = not is_kernel

abbrev pub large_pages : ℕ → ℕ
large_pages size = sub32 (u32 (size + page_size)) 1 / page_size

unfoldable pub malloc_large : PoolFlags → ℕ → Heap → Run (ℕ × Heap)
malloc_large pf size h = do
  let cnt = large_pages size
  r ← malloc_pages pf cnt h.memory
  let h1 = record h { memory = r.1 }
  let h2 = set_arena r.0 0 true cnt (clear r.0 (u32 (cnt * page_size)) h1)
  ok (if r.0 == 0 then (0, h1) else (u32 (r.0 + arena_size), h2))

module _ (fuel : ℕ) where
  -- The blocks of a new arena join the list of free blocks, from the index on.
  unfoldable pub carve : (left arena desc index : ℕ) → Heap → Run Heap
  carve zero arena desc index h = ok h
  carve (suc left) arena desc index h = do
    let block = arena_to_block arena index h
    found ← elem_find fuel (free_list desc) block h.kernel.links
    assert (not found)
    carve left arena desc (suc index)
        (on_kernel (λ k. set_links (list_append (free_list desc) block k.links) k) h)

  -- A new arena for the descriptor; false when there is no page.
  unfoldable pub refill : PoolFlags → ℕ → Heap → Run (Bool × Heap)
  refill pf desc h = do
    r ← malloc_pages pf 1 h.memory
    let h1 = record h { memory = r.1 }
    let blocks = h.blocks_per_arena desc
    let h2 = set_arena r.0 desc false blocks (clear r.0 page_size h1)
    let old = intr_disable h2.kernel.links.intr
    let carved : Run (Bool × Heap) = (do
      h3 ← carve blocks r.0 desc 0 (on_kernel (set_intr old.0) h2)
      let back = (intr_set_status old.1 h3.kernel.links.intr).0
      ok (true, on_kernel (set_intr back) h3))
    if r.0 == 0 then ok (false, h1) else carved

  -- The first free block is taken out and cleared.
  unfoldable pub take_block : ℕ → Heap → Run (ℕ × Heap)
  take_block desc h = do
    let popped = list_pop (free_list desc) h.kernel.links
    assert (not (popped.0 == 0))
    let h1 = on_kernel (set_links popped.1) h
    let arena = block_to_arena popped.0
    let h2 = record h1 { cnt = update h1.cnt arena (sub32 (h1.cnt arena) 1) }
    ok (popped.0, clear popped.0 (h2.block_size desc) h2)

  unfoldable pub malloc_small : PoolFlags → ℕ → ℕ → Heap → Run (ℕ × Heap)
  malloc_small pf descs size h = do
    let desc = desc_at descs (find_desc 7 size descs 0 h.block_size)
    r ← (if list_empty (free_list desc) h.kernel.links then refill pf desc h else ok (true, h))
    (if r.0 then take_block desc r.1 else ok (0, r.1))

  module _ (g : Globals) (hg : HeapGlobals) (others : Kernel → Run Kernel) where
    -- The lock of the pool is held around the rest of the function.
    abbrev pub locked : {A : Type 0} → ℕ → ℕ → (Heap → Run (A × Heap)) → Heap → Run (A × Heap)
    locked rounds plock body h = do
      k ← lock_acquire fuel g others rounds plock h.kernel
      r ← body (record h { kernel = k })
      let h1 = r.1
      k1 ← lock_release fuel g plock h1.kernel
      ok (r.0, record h1 { kernel = k1 })

    unfoldable pub sys_malloc : (rounds size : ℕ) → Heap → Run (ℕ × Heap)
    sys_malloc rounds size h =
        let pf = flags_of h.kernel in
        let descs = descs_of hg pf h.kernel in
        locked rounds (lock_of hg pf)
          (λ h1. if ltb 1024 size then malloc_large pf size h1 else malloc_small pf descs size h1) h

    -- All blocks of an arena leave the list of free blocks.
    unfoldable pub collect : (left arena index : ℕ) → Heap → Run Heap
    collect zero arena index h = ok h
    collect (suc left) arena index h = do
      let block = arena_to_block arena index h
      found ← elem_find fuel (free_list (h.mem_desc_addr arena)) block h.kernel.links
      assert found
      collect left arena (suc index) (on_kernel (λ k. set_links (list_remove block k.links) k) h)

    -- The block joins the list of free blocks; an arena without a block in use is given up.
    unfoldable pub free_small : PoolFlags → (arena ptr : ℕ) → Heap → Run Heap
    free_small pf arena ptr h = do
      let desc = h.mem_desc_addr arena
      let h1 = on_kernel (λ k. set_links (list_append (free_list desc) ptr k.links) k) h
      let h2 = record h1 { cnt = update h1.cnt arena (u32 (h1.cnt arena + 1)) }
      let blocks = h2.blocks_per_arena desc
      let whole : Run Heap = (do
        h3 ← collect blocks arena 0 h2
        m ← free_pages pf 1 arena h3.memory
        ok (record h3 { memory = m }))
      if h2.cnt arena == blocks then whole else ok h2

    unfoldable pub free_large : PoolFlags → ℕ → Heap → Run Heap
    free_large pf arena h = do
      m ← free_pages pf (h.cnt arena) arena h.memory
      ok (record h { memory = m })

    unfoldable pub sys_free : (rounds ptr : ℕ) → Heap → Run Heap
    sys_free rounds ptr h = do
      let pf = flags_of h.kernel
      let arena = block_to_arena ptr
      r ←
          locked rounds (lock_of hg pf)
            (λ h1.
              (if h1.mem_desc_addr arena == 0
                then free_large pf arena h1
                else free_small pf arena ptr h1)
              >>= λ h2. ok (tt, h2))
            h
      ok r.1
