-- ===== src/Pools/Mapped.antt =====
-- page_table_add and addr_virtual_to_phy of kernel/memory.c: a page that is mapped is found.
use Prim.Native.Nat.{bit_and, bit_or}
use leeos.Base.{ℕ, ◌+◌, ◌*◌, ◌/◌, ◌%◌, ◌^◌, ◌<◌, ◌≡◌, ap, ◌∙◌, u32, arith}
use leeos.Base.Masks.{and_field, or_low, nothing_or}
use leeos.Paging.{pte_addr, pde_addr, addr_virtual_to_phy}
use leeos.Pools.{Memory, page_size}

-- The entries of all page tables stand in one row, in the last 4 megabytes.
pte_addr_lem : (v : ℕ) → v < 2 ^ 32 → pte_addr v ≡ 0xffc00000 + 4 * (v / page_size)
unfolding pte_addr
pte_addr_lem v h =
    let directory : bit_and v 0xffc00000 / 2 ^ 10 ≡ v / 2 ^ 22 * 2 ^ 12 =
      omega (arith, and_field 22 10 v) in
    let index : u32 (4 * (bit_and v 0x003ff000 / 2 ^ 12)) ≡ 4 * (v / 2 ^ 12 % 2 ^ 10) =
      omega (arith, and_field 12 10 v) in
    rw (directory, index)
      (ap (λ (b : ℕ). bit_or b (4 * (v / 2 ^ 12 % 2 ^ 10)))
          (or_low 22 0x3ff 0 (v / 2 ^ 22 * 2 ^ 12) (omega arith) (omega arith)
            ∙ ap (λ (r : ℕ). 0xffc00000 + r) (nothing_or (v / 2 ^ 22 * 2 ^ 12))
            ∙ omega arith)
        ∙ or_low 12 (0xffc00 + v / 2 ^ 22) 0 (4 * (v / 2 ^ 12 % 2 ^ 10)) (omega arith) (omega arith)
        ∙ omega (arith, nothing_or (4 * (v / 2 ^ 12 % 2 ^ 10))))

pde_addr_lem : (v : ℕ) → v < 2 ^ 32 → pde_addr v ≡ 0xfffff000 + 4 * (v / 2 ^ 22)
unfolding pde_addr
pde_addr_lem v h =
    let index : u32 (bit_and v 0xffc00000 / 2 ^ 22 * 4) ≡ 4 * (v / 2 ^ 22) =
      omega (arith, and_field 22 10 v) in
    rw index (
      or_low 12 0xfffff 0 (4 * (v / 2 ^ 22)) (omega arith) (omega arith)
      ∙ omega (arith, nothing_or (4 * (v / 2 ^ 22))))

-- For every address of 32 bits, pte_addr is 0xffc00000 plus four bytes for each page before it,
-- and pde_addr is pte_addr of that.
pub pte_addr-pde_addr :
    (v : ℕ)
    → v < 2 ^ 32
    → (pte_addr v ≡ 0xffc00000 + 4 * (v / page_size)) × (pde_addr v ≡ pte_addr (pte_addr v))
pte_addr-pde_addr v h =
    let at = pte_addr_lem v h in
    (at, omega (arith, at, pde_addr_lem v h, pte_addr_lem (pte_addr v) (omega (arith, at))))

-- A physical address is the page of the entry and the place in the page.
pub translate :
    (word : ℕ → ℕ) (v : ℕ)
    → addr_virtual_to_phy word v ≡ u32 (bit_and (word (pte_addr v)) 0xfffff000 + v % page_size)
unfolding addr_virtual_to_phy pte_addr
translate word v =
    ap (λ (o : ℕ). u32 (bit_and (word (pte_addr v)) 0xfffff000 + o))
      (omega (arith, and_field 0 12 v))
