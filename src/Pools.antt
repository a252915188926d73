-- ===== src/Pools.antt =====
-- kernel/memory.c: the pools of physical pages, the pools of addresses and the mapping between
-- them. The locks of the pools are those of thread/sync.c and are not part of this state.
pub mod Setup
pub mod Runs
pub mod Pages
pub mod Addresses
pub mod Mapped
use Prim.Native.Nat.{bit_and, bit_or}
use leeos.Base.{
  ℕ, zero, suc, ◌+◌, ◌-◌, ◌*◌, ◌/◌, ◌%◌, ◌^◌, Bool, true, false, not, ◌&&◌, ◌==◌, if◌then◌else◌,
  ltb, leb, u32, sub32, Option, none, some, Run, ok, ◌>>=◌, ◌>>◌, assert,
}
use leeos.Base.Memory.{update}
use leeos.Base.Bits.{not32}
use leeos.Bitmap.{Bitmap, bitmap_scan, bitmap_set}
use leeos.Paging.{pte_addr, pde_addr, addr_virtual_to_phy}

abbrev pub page_size : ℕ
page_size = 4096

-- `struct pool`, less its lock.
pub record Pool : Type 0 where
  pub pool_bitmap : Bitmap
  pub phy_start_addr : ℕ
  pub mem_size : ℕ

-- `struct virtual_addrs`.
pub record VirtualAddrs : Type 0 where
  pub vaddr_bitmap : Bitmap
  pub vaddr_start : ℕ

-- `enum pool_flags`.
pub data PoolFlags : Type 0 where
  pf_kernel : PoolFlags
  pf_user : PoolFlags

-- The variables of the file, the addresses of the running process, and the words of the memory
-- that the addresses reach. Each bitmap has bytes of its own.
pub record Memory : Type 0 where
  pub kernel_pool : Pool
  pub user_pool : Pool
  pub kernel_vaddr : VirtualAddrs
  pub userprog_vaddr : VirtualAddrs
  pub word : ℕ → ℕ

abbrev pub pool_of : PoolFlags → Memory → Pool
pool_of pf_kernel k = k.kernel_pool
pool_of pf_user k = k.user_pool

abbrev pub set_pool : PoolFlags → Pool → Memory → Memory
set_pool pf_kernel p k = record k { kernel_pool = p }
set_pool pf_user p k = record k { user_pool = p }

abbrev pub vaddrs_of : PoolFlags → Memory → VirtualAddrs
vaddrs_of pf_kernel k = k.kernel_vaddr
vaddrs_of pf_user k = k.userprog_vaddr

abbrev pub set_vaddrs : PoolFlags → VirtualAddrs → Memory → Memory
set_vaddrs pf_kernel v k = record k { kernel_vaddr = v }
set_vaddrs pf_user v k = record k { userprog_vaddr = v }

-- `while (counter < cnt) bitmap_set(bitmap, start + counter, value)`.
unfoldable pub set_run : Bitmap → ℕ → ℕ → ℕ → Run Bitmap
set_run b start zero value = ok b
set_run b start (suc cnt) value = do
  b1 ← bitmap_set b start value
  set_run b1 (u32 (start + 1)) cnt value

-- The last page below 0xc0000000 is the stack of a process.
abbrev pub is_below_stack : PoolFlags → ℕ → Bool
is_below_stack pf_kernel addr = true
is_below_stack pf_user addr = ltb addr (0xc0000000 - page_size)

-- The address of the pages, or 0.
unfoldable pub vaddr_get_pages : PoolFlags → ℕ → Memory → Run (ℕ × Memory)
vaddr_get_pages pf page_cnt k =
    let v = vaddrs_of pf k in
    elim (bitmap_scan v.vaddr_bitmap page_cnt) [
      | none ↦ ok (0, k)
      | some bitstart ↦ do
        b ← set_run v.vaddr_bitmap bitstart page_cnt 1
        let addr = u32 (v.vaddr_start + page_size * bitstart)
        assert (is_below_stack pf addr)
        ok (addr, set_vaddrs pf (record v { vaddr_bitmap = b }) k)
    ]

-- The physical address of a page, or 0.
unfoldable pub palloc : Pool → Run (ℕ × Pool)
palloc p = elim (bitmap_scan p.pool_bitmap 1) [
  | none ↦ ok (0, p)
  | some bit_index ↦ do
    b ← bitmap_set p.pool_bitmap bit_index 1
    ok (u32 (p.phy_start_addr + page_size * bit_index), record p { pool_bitmap = b })
]

-- `phy_addr | PG_P_1 | PG_RW_W | PG_US_U`.
abbrev pub entry : ℕ → ℕ
entry phy_addr = bit_or (bit_or (bit_or phy_addr 1) 2) 4

abbrev pub is_present : ℕ → Bool
is_present w = not (bit_and w 1 == 0)

-- `memset(p, 0, n)` on the words of the memory.
abbrev pub clear_words : (ℕ → ℕ) → ℕ → ℕ → ℕ → ℕ
clear_words word p n a = if leb p a && ltb a (p + n) then 0 else word a

-- A directory entry that is not present gets a page for its table, whether or not there is one.
unfoldable pub page_table_add : ℕ → ℕ → Memory → Run Memory
page_table_add vir_addr phy_addr k =
    let pte_ptr = pte_addr vir_addr in
    let pde_ptr = pde_addr vir_addr in
    if is_present (k.word pde_ptr)
    then (do
      assert (not (is_present (k.word pte_ptr)))
      ok (record k { word = update k.word pte_ptr (entry phy_addr) }))
    else (do
      alloc_pde ← palloc k.kernel_pool
      let w1 = update k.word pde_ptr (entry alloc_pde.0)
      let w2 = clear_words w1 (bit_and pte_ptr 0xfffff000) page_size
      assert (not (is_present (w2 pte_ptr)))
      ok (record k { kernel_pool = alloc_pde.1; word = update w2 pte_ptr (entry phy_addr) }))

-- The loop of malloc_pages: false when the pool runs out of pages.
unfoldable pub map_pages : PoolFlags → ℕ → ℕ → Memory → Run (Bool × Memory)
map_pages pf zero vaddr k = ok (true, k)
map_pages pf (suc cnt) vaddr k = do
  page ← palloc (pool_of pf k)
  let k1 = set_pool pf page.1 k
  let rest = page_table_add vaddr page.0 k1 >>= map_pages pf cnt (u32 (vaddr + page_size))
  if page.0 == 0 then ok (false, k1) else rest

unfoldable pub malloc_pages : PoolFlags → ℕ → Memory → Run (ℕ × Memory)
malloc_pages pf cnt_pages k = do
  assert (ltb 0 cnt_pages && ltb cnt_pages 3840)
  addr ← vaddr_get_pages pf cnt_pages k
  let mapped : Run (ℕ × Memory) = (do
    done ← map_pages pf cnt_pages addr.0 addr.1
    ok ((if done.0 then addr.0 else 0), done.1))
  if addr.0 == 0 then ok (0, addr.1) else mapped

unfoldable pub malloc_kernel_pages : ℕ → Memory → Run (ℕ × Memory)
malloc_kernel_pages cnt k = do
  r ← malloc_pages pf_kernel cnt k
  let k1 = r.1
  if r.0 == 0
      then ok r
      else ok (r.0, record k1 { word = clear_words k1.word r.0 (u32 (page_size * cnt)) })

unfoldable pub pfree : ℕ → Memory → Run Memory
pfree phy_addr k =
    let u = k.user_pool in
    let p = k.kernel_pool in
    if ltb u.phy_start_addr phy_addr
    then (do
      b ← bitmap_set u.pool_bitmap (sub32 phy_addr u.phy_start_addr / page_size) 0
      ok (record k { user_pool = record u { pool_bitmap = b } }))
    else (do
      b ← bitmap_set p.pool_bitmap (sub32 phy_addr p.phy_start_addr / page_size) 0
      ok (record k { kernel_pool = record p { pool_bitmap = b } }))

unfoldable pub vaddr_remove_pages : PoolFlags → ℕ → ℕ → Memory → Run Memory
vaddr_remove_pages pf cnt_pages vaddr k = do
  let v = vaddrs_of pf k
  b ← set_run v.vaddr_bitmap (sub32 vaddr v.vaddr_start / page_size) cnt_pages 0
  ok (set_vaddrs pf (record v { vaddr_bitmap = b }) k)

-- The entry's present bit is cleared; `invlpg` drops what the processor has cached.
unfoldable pub page_table_pte_remove : ℕ → Memory → Memory
page_table_pte_remove vir_addr k =
    let pte = pte_addr vir_addr in
    record k { word = update k.word pte (bit_and (k.word pte) (not32 1)) }

-- What the loops of free_pages ask of each page.
abbrev pub is_user_page : Memory → ℕ → Bool
is_user_page k phy_addr = phy_addr % page_size == 0 && leb k.user_pool.phy_start_addr phy_addr

abbrev pub is_kernel_page : Memory → ℕ → Bool
is_kernel_page k phy_addr =
    phy_addr % page_size == 0
    && ltb phy_addr k.user_pool.phy_start_addr
    && leb k.kernel_pool.phy_start_addr phy_addr

unfoldable pub unmap_pages : (Memory → ℕ → Bool) → ℕ → ℕ → Memory → Run Memory
unmap_pages is_right zero vaddr k = ok k
unmap_pages is_right (suc cnt) vaddr k = do
  let phy_addr = addr_virtual_to_phy k.word vaddr
  assert (is_right k phy_addr)
  k1 ← pfree phy_addr k
  unmap_pages is_right cnt (u32 (vaddr + page_size)) (page_table_pte_remove vaddr k1)

unfoldable pub free_pages : PoolFlags → ℕ → ℕ → Memory → Run Memory
free_pages pf cnt_pages vaddr k = do
  assert (leb 1 cnt_pages && vaddr % page_size == 0)
  let phy_addr = addr_virtual_to_phy k.word vaddr
  assert (phy_addr % page_size == 0 && leb 0x102000 phy_addr)
  k1 ←
      (if ltb k.user_pool.phy_start_addr phy_addr
        then unmap_pages is_user_page cnt_pages vaddr k
        else unmap_pages is_kernel_page cnt_pages vaddr k)
  vaddr_remove_pages pf cnt_pages vaddr k1
