-- ===== src/Heap/Recycle.antt =====
-- sys_malloc and sys_free of kernel/memory.c for a block that is free in an arena.
use leeos.Base.{
  ℕ, ◌+◌, ◌^◌, ◌≤◌, ◌<◌, ◌≡◌, ◌≢◌, refl, ap, sym, ◌∙◌, u32, sub32, List, [], ◌∷◌, ◌++◌, false, ltb,
  ==_of_ne, ==_self, arith, Run, ◌>>=◌, Returns, Returns-bind, Returns-mono,
}
use leeos.Base.Memory.{update_self}
use leeos.Base.Distinct.{Out}
use leeos.Lists.{list_append, list_pop}
use leeos.Lists.Refine.{IsList, list_empty-cons, list_pop-IsList, list_append-IsList}
use leeos.Lists.Frame.{nodes, Apart, Apart-sym, list_pop-frame, list_append-frame}
use leeos.Lists.Cleared.{Beyond, clear_links, clear_links-IsList}
use leeos.Kernel.{Kernel, Globals, sem_of, waiter_of, set_links}
use leeos.Sync.Locks.{IsFree, held, released-IsFree, lock_acquire_free, lock_release_last}
use leeos.Heap.{
  Heap, HeapGlobals, arena_size, free_list, desc_at, find_desc, flags_of, lock_of, descs_of,
  block_to_arena, take_block, malloc_small, sys_malloc, sys_free, free_small,
}

module _ (hg : HeapGlobals) where
  abbrev pub lock_for : Heap → ℕ
  lock_for h = lock_of hg (flags_of h.kernel)

  abbrev waiters : Heap → List ℕ
  waiters h = nodes (waiter_of (sem_of (lock_for h))) []

  -- The descriptor that serves the size.
  abbrev pub desc_for : ℕ → Heap → ℕ
  desc_for size h =
      let descs = descs_of hg (flags_of h.kernel) h.kernel in
      desc_at descs (find_desc 7 size descs 0 h.block_size)

module _ (hg : HeapGlobals) (size b : ℕ) (rest : List ℕ) where
  -- Of the size's free blocks `b` is the first; nobody holds the lock; the elements of the lists
  -- lie outside the block.
  pub record HasFree (h : Heap) : Type 0 where
    pub small : size ≤ 1024
    pub running : h.kernel.current ≢ 0
    pub lock : IsFree h.kernel (lock_for hg h)
    pub free : IsList h.kernel.links (free_list (desc_for hg size h)) (b ∷ rest)
    pub block : b ≢ 0
    pub header : block_to_arena b + arena_size ≤ b
    pub apart : Apart (waiters hg h) (nodes (free_list (desc_for hg size h)) (b ∷ rest))
    pub others_beyond :
        Beyond b (h.block_size (desc_for hg size h)) (nodes (free_list (desc_for hg size h)) rest)
    pub waiters_beyond : Beyond b (h.block_size (desc_for hg size h)) (waiters hg h)

  -- What sys_malloc leaves: the block is out of the list and counted.
  pub record IsGiven (h : Heap) (r : ℕ × Heap) : Type 0 where
    pub block : r.0 ≡ b
    pub free : IsList r.1.kernel.links (free_list (desc_for hg size h)) rest
    pub lock : IsFree r.1.kernel (lock_for hg h)
    pub count : r.1.cnt (block_to_arena b) ≡ sub32 (h.cnt (block_to_arena b)) 1
    pub desc : r.1.mem_desc_addr (block_to_arena b) ≡ h.mem_desc_addr (block_to_arena b)
    pub sizes : r.1.block_size ≡ h.block_size
    pub blocks : r.1.blocks_per_arena ≡ h.blocks_per_arena
    pub current : r.1.kernel.current ≡ h.kernel.current
    pub pgdir : r.1.kernel.pgdir ≡ h.kernel.pgdir
    pub zeros : (a : ℕ) → b ≤ a → a < b + h.block_size (desc_for hg size h) → r.1.memory.word a ≡ 0

  module _ (fuel : ℕ) (g : Globals) (others : Kernel → Run Kernel) (rounds : ℕ) where
    -- sys_malloc of at most 1024 bytes, where nobody holds the pool's lock, the list of the
    -- size's descriptor has a free block, and neither that list's other elements nor the
    -- lock's list of waiters lie in the block, returns that block: it is out of the list,
    -- its bytes are zero, its arena counts one less, the lock is free, and the sizes and
    -- the arena's descriptor are as before.
    pub sys_malloc-IsGiven :
        (h : Heap)
        → HasFree h
        → 0 < rounds
        → Returns (sys_malloc fuel g hg others rounds size h) (IsGiven h)
    unfolding sys_malloc malloc_small take_block
    sys_malloc-IsGiven h f pos =
        let plock = lock_for hg h in
        let desc = desc_for hg size h in
        let k1 = held plock 1 h.kernel in
        let popped = list_pop-IsList h.kernel.links (free_list desc) b rest f.free in
        let waiting : IsList (list_pop (free_list desc) h.kernel.links).1 (waiter_of (sem_of plock))
            [] =
          list_pop-frame h.kernel.links (waiter_of (sem_of plock)) [] f.lock.waiter (free_list desc)
            b rest f.free f.apart in
        let size_b = h.block_size desc in
        let links = (list_pop (free_list desc) h.kernel.links).1 in
        let k2 = set_links (clear_links b size_b links) k1 in
        let waiting2 =
          clear_links-IsList b size_b links (waiter_of (sem_of plock)) [] f.waiters_beyond
            waiting in
        let few : ltb 1024 size ≡ false = ground (arith, f.small) in
        rw
          (
            lock_acquire_free fuel g others rounds plock h.kernel f.lock f.running pos,
            few,
            list_empty-cons h.kernel.links (free_list desc) b rest f.free,
            popped.0,
            ==_of_ne b 0 f.block,
            lock_release_last fuel g plock k2 (update_self h.kernel.holder plock h.kernel.current)
                (update_self h.kernel.holder_repeat_num plock 1)
                (update_self h.kernel.value (sem_of plock) 0) waiting2,
          )
          (record {
            block = refl;
            free = clear_links-IsList b size_b links (free_list desc) rest f.others_beyond popped.1;
            lock = released-IsFree plock k2 waiting2;
            count = ground (arith, f.header);
            desc = ground (arith, f.header);
            sizes = refl;
            blocks = refl;
            current = refl;
            pgdir = refl;
            zeros = λ a lo hi. ground arith;
          })

    -- The block goes to the end of the list, and the arena counts it again.
    pub record IsBack (h h' : Heap) : Type 0 where
      pub free : IsList h'.kernel.links (free_list (desc_for hg size h)) (rest ++ (b ∷ []))
      pub lock : IsFree h'.kernel (lock_for hg h)
      pub count : h'.cnt (block_to_arena b) ≡ h.cnt (block_to_arena b)

    IsFree-given :
        (h h1 : Heap) (plock desc : ℕ)
        → lock_of hg (flags_of h1.kernel) ≡ plock
        → h1.mem_desc_addr (block_to_arena b) ≡ desc
        → desc ≢ 0
        → h1.kernel.current ≢ 0
        → 0 < h.cnt (block_to_arena b)
        → h.cnt (block_to_arena b) < 2 ^ 32
        → h1.cnt (block_to_arena b) ≡ sub32 (h.cnt (block_to_arena b)) 1
        → h.cnt (block_to_arena b) ≢ h1.blocks_per_arena desc
        → 0 < rounds
        → IsFree h1.kernel plock
        → IsList h1.kernel.links (free_list desc) rest
        → Out b (nodes (free_list desc) rest)
        → Apart (nodes (waiter_of (sem_of plock)) []) (nodes (free_list desc) rest)
        → Out b (nodes (waiter_of (sem_of plock)) [])
        → Returns (sys_free fuel g hg others rounds b h1) (λ h'.
          IsList h'.kernel.links (free_list desc) (rest ++ (b ∷ []))
          × IsFree h'.kernel plock
          × (h'.cnt (block_to_arena b) ≡ h.cnt (block_to_arena b)))
    unfolding sys_free free_small
    IsFree-given h h1 plock desc e d ne runs some_ word count others_ pos lock free own apart out =
        let arena = block_to_arena b in
        let links = list_append (free_list desc) b h1.kernel.links in
        let k2 = set_links links (held plock 1 h1.kernel) in
        let waiting : IsList links (waiter_of (sem_of plock)) [] =
          list_append-frame h1.kernel.links (waiter_of (sem_of plock)) [] lock.waiter
            (free_list desc) rest apart b free out in
        let up : u32 (sub32 (h.cnt arena) 1 + 1) ≡ h.cnt arena = omega arith in
        rw
          (
            e,
            lock_acquire_free fuel g others rounds plock h1.kernel lock runs pos,
            d,
            ==_of_ne desc 0 ne,
            count,
            ==_self arena,
            up,
            ==_of_ne (h.cnt arena) (h1.blocks_per_arena desc) others_,
            lock_release_last fuel g plock k2 (update_self h1.kernel.holder plock h1.kernel.current)
                (update_self h1.kernel.holder_repeat_num plock 1)
                (update_self h1.kernel.value (sem_of plock) 0) waiting,
          )
          (
            list_append-IsList h1.kernel.links (free_list desc) rest b free own,
            released-IsFree plock k2 waiting,
            update_self h1.cnt arena (h.cnt arena),
          )

    -- After the same sys_malloc, where the arena of the block belongs to the descriptor and
    -- has another block in use, sys_free of the block returns with the block at the end of
    -- the list of free blocks, the lock free, and the arena's count as before the two
    -- calls.
    pub sys_free-sys_malloc :
        (h : Heap)
        → HasFree h
        → h.mem_desc_addr (block_to_arena b) ≡ desc_for hg size h
        → desc_for hg size h ≢ 0
        → 0 < h.cnt (block_to_arena b)
        → h.cnt (block_to_arena b) < h.blocks_per_arena (desc_for hg size h)
        → h.cnt (block_to_arena b) < 2 ^ 32
        → 0 < rounds
        → Returns
            (sys_malloc fuel g hg others rounds size h >>= λ r.
              sys_free fuel g hg others rounds r.0 r.1)
            (IsBack h)
    sys_free-sys_malloc h f desc ne some_ many word pos =
        Returns-bind (sys_malloc fuel g hg others rounds size h) _ (IsGiven h) (IsBack h)
          (sys_malloc-IsGiven h f pos)
          (λ r given.
            let plock = lock_for hg h in
            let d = desc_for hg size h in
            let same : lock_for hg r.1 ≡ plock = rw (given.current, given.pgdir) refl in
            let s = Apart-sym (nodes (free_list d) (b ∷ rest)) (waiters hg h) f.apart in
            let apart : Apart (waiters hg h) (nodes (free_list d) rest) =
              Apart-sym (waiters hg h) (nodes (free_list d) rest) (s.0, s.1.1) in
            let own : Out b (nodes (free_list d) rest) =
              ((λ e. f.free.distinct.0.0 (sym e)), f.free.distinct.1.0) in
            rw given.block (
              Returns-mono (sys_free fuel g hg others rounds b r.1) _ _
                (IsFree-given h r.1 plock d same (given.desc ∙ desc) ne
                  (λ e. f.running (sym given.current ∙ e)) some_ word given.count
                  (λ e. omega (arith, e, ap (λ t. t d) given.blocks)) pos given.lock given.free own
                  apart s.1.0)
                (λ h' t. record { free = t.0; lock = t.1; count = t.2 })))
