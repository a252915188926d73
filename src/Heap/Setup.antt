-- ===== src/Heap/Setup.antt =====
-- mem_init of kernel/memory.c.
use leeos.Base.{ℕ, ◌<◌, ◌≡◌, refl}
use leeos.Heap.{Heap, HeapGlobals, desc_at, block_des_init, init_descs}
use leeos.Heap.Descriptors.{IsSized, block_des_init-IsSized}
use leeos.Sync.{lock_init}
use leeos.Pools.Setup.{mem_pool_init}

-- The loader leaves the size of the memory at 0xb00; `bytes` is what the memory from
-- KERNEL_BITMAP_START on holds. mem_pool_init sets the locks of the pools up, too.
unfoldable pub mem_init : HeapGlobals → (bytes : ℕ → ℕ) → Heap → Heap
mem_init hg bytes h =
    let memory_size = h.memory.word 0xb00 in
    block_des_init hg.k_mem_block_descs (record h {
      kernel = lock_init hg.user_pool_lock (lock_init hg.kernel_pool_lock h.kernel);
      memory = mem_pool_init memory_size bytes h.memory;
    })

-- After mem_init the descriptor numbered i of the kernel has blocks of 16 * 2^i bytes, for i
-- below 7, and the pools are those that mem_pool_init lays out.
pub mem_init-IsSized :
    (hg : HeapGlobals) (bytes : ℕ → ℕ) (h : Heap) (i : ℕ)
    → i < 7
    → IsSized (mem_init hg bytes h) (desc_at hg.k_mem_block_descs i) i
      × ((mem_init hg bytes h).memory ≡ mem_pool_init (h.memory.word 0xb00) bytes h.memory)
unfolding mem_init block_des_init init_descs
mem_init-IsSized hg bytes h i lt = (
  block_des_init-IsSized hg.k_mem_block_descs
      (record h {
        kernel = lock_init hg.user_pool_lock (lock_init hg.kernel_pool_lock h.kernel);
        memory = mem_pool_init (h.memory.word 0xb00) bytes h.memory;
      })
      i lt,
  refl,
)
