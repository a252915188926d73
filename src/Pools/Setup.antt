-- ===== src/Pools/Setup.antt =====
-- kernel/memory.c: the start of the pools.
use leeos.Base.{ℕ, ◌+◌, ◌*◌, ◌/◌, u16, u32, sub32}
use leeos.Bitmap.{Bitmap, bitmap_init}
use leeos.Pools.{Memory, page_size}

abbrev pub kernel_heap_start : ℕ
kernel_heap_start = 0xc0100000

abbrev pub kernel_pool_start_addr : ℕ
kernel_pool_start_addr = page_size * 256 + 0x00100000

-- The pages of the two pools; `uint16_t` holds each number.
abbrev pub kernel_mem_page : ℕ → ℕ
kernel_mem_page all_mem = u16 (sub32 all_mem kernel_pool_start_addr / page_size / 2)

abbrev pub user_mem_page : ℕ → ℕ
user_mem_page all_mem =
    u16 (sub32 (sub32 all_mem kernel_pool_start_addr / page_size) (kernel_mem_page all_mem))

-- A bitmap whose bytes are those that are in the memory, cleared.
abbrev pub cleared : ℕ → (ℕ → ℕ) → Bitmap
cleared len bytes = bitmap_init (record { bitmap_len = len; bits = bytes })

-- `bytes` is what the memory from KERNEL_BITMAP_START on holds; the three bitmaps lie there one
-- behind the other.
unfoldable pub mem_pool_init : ℕ → (ℕ → ℕ) → Memory → Memory
mem_pool_init all_mem bytes k =
    let kernel_pages = kernel_mem_page all_mem in
    let user_pages = user_mem_page all_mem in
    let kernel_len = kernel_pages / 8 in
    let user_len = user_pages / 8 in
    record k {
      kernel_pool = record {
        pool_bitmap = cleared kernel_len bytes;
        phy_start_addr = kernel_pool_start_addr;
        mem_size = kernel_pages * page_size;
      };
      user_pool = record {
        pool_bitmap = cleared user_len (λ i. bytes (kernel_len + i));
        phy_start_addr = u32 (kernel_pool_start_addr + kernel_pages * page_size);
        mem_size = user_pages * page_size;
      };
      kernel_vaddr = record {
        vaddr_bitmap = cleared kernel_len (λ i. bytes (kernel_len + user_len + i));
        vaddr_start = kernel_heap_start;
      };
    }
