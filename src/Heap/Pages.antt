-- ===== src/Heap/Pages.antt =====
-- kernel/memory.c: malloc_user_pages and get_a_page, which hold a pool's lock.
use leeos.Base.{ℕ, ◌/◌, not, ◌==◌, if◌then◌else◌, ltb, sub32, Run, ok, ◌>>=◌, ◌>>◌, assert}
use leeos.Kernel.{Kernel, Globals}
use leeos.Bitmap.{bitmap_set}
use leeos.Pools.{
  PoolFlags, pf_user, page_size, palloc, pool_of, set_pool, vaddrs_of, set_vaddrs, page_table_add,
  malloc_pages,
}
use leeos.Heap.{Heap, HeapGlobals, clear, is_own, lock_of, locked}

module _ (fuel : ℕ) (g : Globals) (hg : HeapGlobals) (others : Kernel → Run Kernel) where
  -- `memset(vaddr, 0, cnt)` clears as many bytes as there are pages, and asserts an address.
  unfoldable pub malloc_user_pages : (rounds cnt : ℕ) → Heap → Run (ℕ × Heap)
  malloc_user_pages rounds cnt h =
      locked fuel g hg others rounds hg.user_pool_lock
        (λ h1. do
          r ← malloc_pages pf_user cnt h1.memory
          assert (not (r.0 == 0))
          ok (r.0, clear r.0 cnt (record h1 { memory = r.1 })))
        h

  -- The page's bit in the addresses of the process, or of the kernel; no bit for the others.
  unfoldable pub mark_page : PoolFlags → ℕ → Heap → Run Heap
  mark_page pf vaddr h = do
    let v = vaddrs_of pf h.memory
    let bit_index = sub32 vaddr v.vaddr_start / page_size
    let marked : Run Heap = (do
      assert (ltb 0 bit_index)
      b ← bitmap_set v.vaddr_bitmap bit_index 1
      ok (record h { memory = set_vaddrs pf (record v { vaddr_bitmap = b }) h.memory }))
    (if is_own pf (h.kernel.pgdir h.kernel.current == 0) then marked else ok h)

  -- Whether there is a physical page is not asked.
  unfoldable pub get_a_page : (rounds : ℕ) → PoolFlags → ℕ → Heap → Run (ℕ × Heap)
  get_a_page rounds pf vaddr h =
      locked fuel g hg others rounds (lock_of hg pf)
        (λ h1. do
          h2 ← mark_page pf vaddr h1
          r ← palloc (pool_of pf h2.memory)
          m ← page_table_add vaddr r.0 (set_pool pf r.1 h2.memory)
          ok (vaddr, record h2 { memory = m }))
        h
