-- ===== src/Paging.antt =====
-- kernel/memory.c: where the page tables stand in the address space, and what they map.
use Prim.Native.Nat.{bit_and, bit_or}
use leeos.Base.{ℕ, ◌+◌, ◌*◌, ◌/◌, ◌^◌, u32}

-- The address of the page table entry of an address, through the directory's last entry.
unfoldable pub pte_addr : ℕ → ℕ
pte_addr ptr =
    bit_or (bit_or 0xffc00000 (bit_and ptr 0xffc00000 / 2 ^ 10))
      (u32 (4 * (bit_and ptr 0x003ff000 / 2 ^ 12)))

-- The address of the page directory entry.
unfoldable pub pde_addr : ℕ → ℕ
pde_addr ptr = bit_or 0xfffff000 (u32 (bit_and ptr 0xffc00000 / 2 ^ 22 * 4))

-- The physical address behind a virtual one; `word` reads the entries.
unfoldable pub addr_virtual_to_phy : (ℕ → ℕ) → ℕ → ℕ
unfolding pte_addr
addr_virtual_to_phy word vaddr =
    u32 (bit_and (word (pte_addr vaddr)) 0xfffff000 + bit_and vaddr 0x00000fff)
