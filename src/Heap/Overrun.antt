-- ===== src/Heap/Overrun.antt =====
-- Allocations of more than 1024 bytes in sys_malloc of kernel/memory.c.
use leeos.Base.{
  ℕ, ◌+◌, ◌-◌, ◌*◌, ◌%◌, ◌^◌, ◌<◌, ◌≡◌, ◌≢◌, ◌⊎◌, ==_of_ne, arith, Returns, Returns-bind, u32,
  if◌then◌else◌,
}
use leeos.Lists.Cleared.{is_within}
use leeos.Base.Memory.{update_self}
use leeos.Pools.{PoolFlags, page_size, malloc_pages}
use leeos.Heap.{Heap, arena_size, large_pages, malloc_large}

-- For a size that fills its last page to within less than 12 bytes, malloc_large, where
-- malloc_pages gives it pages that end below 2^32, returns an area of which the end, at that
-- size, lies behind the last of the pages that the arena counts.
pub malloc_large_overruns :
    (pf : PoolFlags) (size : ℕ) (h : Heap)
    → 0 < size
    → size + page_size < 2 ^ 32
    → (size % page_size ≡ 0) ⊎ (page_size - arena_size < size % page_size)
    → Returns
        (malloc_pages pf (large_pages size) h.memory)
        (λ r. (r.0 ≢ 0) × (r.0 + page_size * large_pages size < 2 ^ 32))
    → Returns
        (malloc_large pf size h)
        (λ r. r.0 - arena_size + page_size * r.1.cnt (r.0 - arena_size) < r.0 + size)
unfolding malloc_large
malloc_large_overruns pf size h some_ small bad got =
    Returns-bind (malloc_pages pf (large_pages size) h.memory) _ _ _ got (λ r (ne, within).
      let back : u32 (r.0 + arena_size) - arena_size ≡ r.0 = omega arith in
      rw (==_of_ne r.0 0 ne, back)
        (omega (
          arith,
          update_self
              (λ (a : ℕ).
                if is_within r.0 (u32 (large_pages size * page_size)) (a + 4) then 0 else h.cnt a)
              r.0 (large_pages size),
        )))
