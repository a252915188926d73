-- ===== src/Heap/Descriptors.antt =====
-- block_des_init of kernel/memory.c, and the choice of a descriptor in sys_malloc.
use leeos.Base.{
  ℕ, zero, suc, ◌+◌, ◌-◌, ◌*◌, ◌/◌, ◌≤◌, ◌<◌, ◌≡◌, ◌==◌, Bool-cases, inl, inr, ==_iff, refl, ap,
  u32, [], leb, arith,
}
use mathlib.Core.Path.{subst}
use leeos.Lists.{list_init, head_of, tail_of}
use leeos.Lists.Refine.{IsList}
use leeos.Pools.{page_size}
use leeos.Heap.{
  Heap, arena_size, desc_at, init_desc, free_list, init_descs, block_des_init, find_desc,
}
use leeos.Heap.Blocks.{size_of}

-- A descriptor for the blocks of one size, with none free.
pub record IsDesc (h : Heap) (desc i : ℕ) : Type 0 where
  pub block_size : h.block_size desc ≡ size_of i
  pub blocks : h.blocks_per_arena desc ≡ (page_size - arena_size) / size_of i
  pub next : h.kernel.links.next (head_of (free_list desc)) ≡ tail_of (free_list desc)
  pub prev : h.kernel.links.prev (tail_of (free_list desc)) ≡ head_of (free_list desc)

init_descs_keeps :
    (left descs index capacity j : ℕ) (h : Heap)
    → j < index
    → IsDesc h (desc_at descs j) j
    → IsDesc (init_descs left descs index capacity h) (desc_at descs j) j
unfolding init_descs list_init
init_descs_keeps zero descs index capacity j h lt d = d
init_descs_keeps (suc left) descs index capacity j h lt d =
    init_descs_keeps left descs (suc index) _ j _ (omega arith) (record {
      block_size = ground (arith, d.block_size);
      blocks = ground (arith, d.blocks);
      next = ground (arith, d.next);
      prev = ground (arith, d.prev);
    })

size_of-suc : (i : ℕ) → i < 7 → u32 (size_of i * 2) ≡ size_of (suc i)
size_of-suc zero h = refl
size_of-suc (suc zero) h = refl
size_of-suc (suc (suc zero)) h = refl
size_of-suc (suc (suc (suc zero))) h = refl
size_of-suc (suc (suc (suc (suc zero)))) h = refl
size_of-suc (suc (suc (suc (suc (suc zero))))) h = refl
size_of-suc (suc (suc (suc (suc (suc (suc zero)))))) h = refl
size_of-suc (suc (suc (suc (suc (suc (suc (suc i))))))) h = absurd (omega arith)

init_descs-IsDesc :
    (left descs index : ℕ) (h : Heap)
    → left + index ≡ 7
    → (i : ℕ) → index ≤ i
    → i < 7
    → IsDesc (init_descs left descs index (size_of index) h) (desc_at descs i) i
unfolding init_descs list_init
init_descs-IsDesc zero descs index h e i lo hi = absurd (omega arith)
init_descs-IsDesc (suc left) descs index h e i lo hi =
    rw (size_of-suc index (omega arith)) (elim (Bool-cases (index == i)) [
      | inl here ↦
          subst
            (λ j.
              IsDesc
                (init_descs left descs (suc index) (size_of (suc index))
                  (init_desc (desc_at descs index) (size_of index) h))
                (desc_at descs j) j)
            ((==_iff index i).0 here)
            (init_descs_keeps left descs (suc index) (size_of (suc index)) index
              (init_desc (desc_at descs index) (size_of index) h) (omega arith)
              (record {
                block_size = ground arith;
                blocks = ground arith;
                next = ground arith;
                prev = ground arith;
              }))
      | inr later ↦ init_descs-IsDesc left descs (suc index) _ (omega arith) i (ground arith) hi
    ])

-- What a descriptor needs for its blocks to lie in one page.
pub record IsSized (h : Heap) (desc i : ℕ) : Type 0 where
  pub block_size : h.block_size desc ≡ size_of i
  pub blocks : h.blocks_per_arena desc ≡ (page_size - arena_size) / size_of i
  pub free : IsList h.kernel.links (free_list desc) []

-- After block_des_init the descriptor numbered i, for i below 7, has blocks of 16 * 2^i bytes,
-- as many for an arena as a page holds behind the header, and an empty list of free blocks.
pub block_des_init-IsSized :
    (descs : ℕ) (h : Heap) (i : ℕ) → i < 7 → IsSized (block_des_init descs h) (desc_at descs i) i
unfolding block_des_init
block_des_init-IsSized descs h i lt =
    let d = init_descs-IsDesc 7 descs 0 h refl i (omega arith) lt in
    record {
      block_size = d.block_size;
      blocks = d.blocks;
      free = record { chain = ground (arith, d.next, d.prev); distinct = ground arith };
    }

-- The smallest size that is enough.
pub record IsBest (size i : ℕ) : Type 0 where
  pub class : i < 7
  pub enough : size ≤ size_of i
  pub best : (j : ℕ) → j < i → size_of j < size

find_desc-IsBest :
    (left size descs index : ℕ) (block_size : ℕ → ℕ)
    → left + index ≡ 7
    → size ≤ 1024
    → ((i : ℕ) → i < 7 → block_size (desc_at descs i) ≡ size_of i)
    → ((j : ℕ) → j < index → size_of j < size)
    → IsBest size (find_desc left size descs index block_size)
unfolding find_desc
find_desc-IsBest zero size descs index block_size e small sized below =
    absurd (omega (arith, below 6 (omega arith)))
find_desc-IsBest (suc left) size descs index block_size e small sized below =
    rw (sized index (omega arith)) (elim (Bool-cases (leb size (size_of index))) [
      | inl fits ↦ rw fits (record { class = omega arith; enough = ground arith; best = below })
      | inr small_desc ↦ rw small_desc (
          find_desc-IsBest left size descs (suc index) block_size (omega arith) small sized (λ j lt.
            elim (Bool-cases (index == j)) [
              | inl here ↦ ground (arith, ap size_of ((==_iff index j).0 here))
              | inr other ↦ below j (ground arith)
            ]))
    ])

-- For at most 1024 bytes the loop of sys_malloc finds, among the descriptors of block_des_init, the
-- smallest size that is enough.
pub find_desc-block_des_init :
    (descs size : ℕ) (h : Heap)
    → size ≤ 1024
    → IsBest size (find_desc 7 size descs 0 (block_des_init descs h).block_size)
find_desc-block_des_init descs size h small =
    find_desc-IsBest 7 size descs 0 (block_des_init descs h).block_size refl small
      (λ i lt. (block_des_init-IsSized descs h i lt).block_size) (λ j lt. absurd (omega arith))
