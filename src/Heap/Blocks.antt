-- ===== src/Heap/Blocks.antt =====
-- arena_to_block and block_to_arena of kernel/memory.c: the blocks of an arena.
use Prim.Native.Nat.{bit_and}
use leeos.Base.{ℕ, zero, suc, ◌+◌, ◌-◌, ◌*◌, ◌/◌, ◌^◌, ◌≤◌, ◌<◌, ◌≡◌, ap, ◌∙◌, arith}
use leeos.Base.Masks.{and_high, and_mask}
use leeos.Pools.{page_size}
use leeos.Heap.{Heap, arena_size, arena_to_block, block_to_arena}

-- The sizes of the descriptors: 16 bytes and its doubles, up to 1024.
abbrev pub size_of : ℕ → ℕ
size_of i = 16 * 2 ^ i

-- An arena: a page that is cut into blocks of the size numbered `i`.
pub record IsArena (h : Heap) (arena i : ℕ) : Type 0 where
  pub page : ℕ
  pub address : arena ≡ page_size * page
  pub fits : page < 2 ^ 20
  pub class : i < 7
  pub block_size : h.block_size (h.mem_desc_addr arena) ≡ size_of i
  pub blocks : h.blocks_per_arena (h.mem_desc_addr arena) ≡ (page_size - arena_size) / size_of i

-- Blocks stay within the page.
blocks_fit :
    (i index : ℕ)
    → i < 7
    → index < (page_size - arena_size) / size_of i
    → arena_size + index * size_of i + size_of i ≤ page_size
blocks_fit zero index h lt = omega arith
blocks_fit (suc zero) index h lt = omega arith
blocks_fit (suc (suc zero)) index h lt = omega arith
blocks_fit (suc (suc (suc zero))) index h lt = omega arith
blocks_fit (suc (suc (suc (suc zero)))) index h lt = omega arith
blocks_fit (suc (suc (suc (suc (suc zero))))) index h lt = omega arith
blocks_fit (suc (suc (suc (suc (suc (suc zero)))))) index h lt = omega arith
blocks_fit (suc (suc (suc (suc (suc (suc (suc i))))))) index h lt = absurd (omega arith)

-- The pages' digits are those of the mask.
mask_page : (page : ℕ) → page < 2 ^ 20 → bit_and page 0xfffff ≡ page
mask_page page h = and_mask 20 page h

pub block_to_arena_in :
    (page offset : ℕ)
    → page < 2 ^ 20
    → offset < page_size
    → block_to_arena (page_size * page + offset) ≡ page_size * page
unfolding block_to_arena
block_to_arena_in page offset h lt =
    ap (λ (p : ℕ). bit_and p 0xfffff000)
      (let e : page_size * page + offset ≡ page * 2 ^ 12 + offset = omega arith in e)
    ∙ and_high 12 page offset 0xfffff lt
    ∙ omega (arith, mask_page page h)

rows : (a b s : ℕ) → a < b → a * s + s ≤ b * s
rows a b s h = grind arith

module _ (h : Heap) (arena i : ℕ) (a : IsArena h arena i) where
  pub arena_to_block_lem :
      (index : ℕ)
      → index < h.blocks_per_arena (h.mem_desc_addr arena)
      → (arena_to_block arena index h ≡ arena + arena_size + index * size_of i)
        × (arena_to_block arena index h + size_of i ≤ arena + page_size)
  unfolding arena_to_block
  arena_to_block_lem index lt =
      let lt' : index < (page_size - arena_size) / size_of i = rw (← a.blocks) lt in
      let fit = blocks_fit i index a.class lt' in
      let place = ap (λ (s : ℕ). index * s) a.block_size in
      omega (arith, fit, place, a.address, a.fits)

  -- Each block of an arena, which is a page below 2^32 with the descriptor of one of the
  -- seven sizes, lies in the page behind the arena's header and ends before any later block
  -- begins, and block_to_arena leads from the block to the arena.
  pub arena_to_block_parts :
      (index : ℕ)
      → index < h.blocks_per_arena (h.mem_desc_addr arena)
      → (block_to_arena (arena_to_block arena index h) ≡ arena)
        × (arena + arena_size ≤ arena_to_block arena index h)
        × (arena_to_block arena index h + size_of i ≤ arena + page_size)
        × ((later : ℕ)
            → index < later
            → later < h.blocks_per_arena (h.mem_desc_addr arena)
            → arena_to_block arena index h + size_of i ≤ arena_to_block arena later h)
  arena_to_block_parts index lt =
      let at = arena_to_block_lem index lt in
      let offset = arena_size + index * size_of i in
      (
        rw at.0 (
            ap block_to_arena (
              let e : arena + arena_size + index * size_of i ≡ page_size * a.page + offset =
                omega (arith, a.address) in
              e)
            ∙ block_to_arena_in a.page offset a.fits (omega (arith, at.0, at.1, a.address))
            ∙ omega (arith, a.address)),
        omega (arith, at.0),
        at.1,
        λ later more lt'.
            omega
              (arith, at.0, (arena_to_block_lem later lt').0, rows index later (size_of i) more),
      )
