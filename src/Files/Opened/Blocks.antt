-- ===== src/Files/Opened/Blocks.antt =====
-- The blocks of the heap that inode_open of fs/inode.c asks for.
use leeos.Base.{
  ℕ, ◌+◌, ◌*◌, ◌^◌, ◌≤◌, ◌≡◌, ◌≢◌, ap, ◌∙◌, ◌⊎◌, refl, if◌then◌else◌, Run, Returns, Returns-bind,
}
use leeos.Base.Memory.{update}
use leeos.Kernel.{set_links}
use leeos.Lists.{list_append}
use leeos.Heap.{Heap, on_kernel}
use leeos.Heap
use leeos.Ide.{Disk}
use leeos.Ide.Ports.{IsQuiet}
use leeos.Files.{inode_locate, inode_size, sector_size}
use leeos.Files.Space.{Machine, State, pgdir_of, set_pgdir, malloc, free}
use leeos.Files.Opened.{inode_tag_of, in_kernel}

module _ (c : Machine) where
  open c use {controller, globals, heap_globals, others, rounds, fuel}

  -- The disks are as before.
  abbrev pub SameDisks : State c → State c → Type 0
  SameDisks f f' =
      (f'.driver.device ≡ f.driver.device) × (f'.driver.ide_channels ≡ f.driver.ide_channels)

  abbrev pub heap_malloc : ℕ → Heap → Run (ℕ × Heap)
  heap_malloc = Heap.sys_malloc fuel globals heap_globals others rounds

  abbrev pub heap_free : ℕ → Heap → Run Heap
  heap_free = Heap.sys_free fuel globals heap_globals others rounds

  -- `cur->pgdir = pgdir`.
  abbrev with_pgdir : (thread pgdir : ℕ) → Heap → Heap
  with_pgdir thread pgdir h = on_kernel (λ k. record k { pgdir = update k.pgdir thread pgdir }) h

  -- sys_malloc uses no disk.
  pub malloc_disks :
      (size : ℕ) (f : State c) (P : ℕ × Heap → Type 0)
      → Returns (heap_malloc size f.heap) P
      → Returns (malloc c size f) (λ r. P (r.0, r.1.heap) × SameDisks f r.1)
  unfolding malloc
  malloc_disks size f P h =
      Returns-bind (heap_malloc size f.heap) _ P (λ r. P (r.0, r.1.heap) × SameDisks f r.1) h
        (λ r p. (p, (refl, refl)))

  pub in_kernel_disks :
      (size : ℕ) (f : State c) (P : ℕ × Heap → Type 0)
      → Returns (heap_malloc size (with_pgdir f.heap.kernel.current 0 f.heap)) P
      → Returns (in_kernel c (malloc c size) f) (λ r.
        ((h : Heap) × (P (r.0, h) × (r.1.heap ≡ with_pgdir f.heap.kernel.current (pgdir_of f) h)))
        × SameDisks f r.1)
  unfolding in_kernel
  in_kernel_disks size f P h =
      let f1 = set_pgdir f.heap.kernel.current 0 f in
      Returns-bind (malloc c size f1) _ _ _ (malloc_disks size f1 P h)
        (λ r (p, same). ((r.1.heap, (p, refl)), same))

  -- sys_malloc gave the buffer, which can be given back once the inode is in the list.
  abbrev pub IsBuffer : (open_inodes inode buf : ℕ) → ℕ × Heap → Type 0
  IsBuffer open_inodes inode buf b =
      let linked = list_append open_inodes (inode_tag_of inode) in
      (b.0 ≡ buf)
      × Returns (heap_free buf (on_kernel (λ k. set_links (linked k.links) k) b.1)) (λ h'. Unit {0})

  -- For the inode and then for the sectors of the disk, sys_malloc has a block, the first from
  -- the kernel's heap; the second can be given back once the inode is in the list.
  pub record HasBlocks (inode_table_lba open_inodes inode_no inode buf : ℕ) (h : Heap)
      : Type 0 where
    pub blocks : Returns (heap_malloc inode_size (with_pgdir h.kernel.current 0 h)) (λ i.
        (i.0 ≡ inode)
        × Returns (inode_locate inode_table_lba inode_no) (λ pos.
          Returns
            (heap_malloc
              (sector_size * (if pos.two_sec then 2 else 1))
              (with_pgdir h.kernel.current (h.kernel.pgdir h.kernel.current) i.1))
            (IsBuffer open_inodes inode buf)))
    pub inode_null : inode ≢ 0
    pub buf_null : buf ≢ 0
    pub below : buf + 512 ≤ 2 ^ 32
    pub apart : (inode + 76 ≤ buf) ⊎ (buf + 512 ≤ inode)

  -- With the same disks and channels, nothing is under way.
  pub IsQuiet-same :
      (base : ℕ → ℕ) (hd : Disk) (f f' : State c)
      → SameDisks f f'
      → IsQuiet controller base hd f.driver
      → IsQuiet controller base hd f'.driver
  IsQuiet-same base hd f f' same q = record {
    channel = q.channel;
    drive = q.drive;
    port = ap (λ t. (t hd.my_channel).port_base) same.1 ∙ q.port;
    line = ap (λ t. (t hd.my_channel).interrupt_number) same.1 ∙ q.line;
    idle = ap (λ t. (t hd.my_channel).disk_done_sem) same.1 ∙ q.idle;
  }

  -- sys_free uses no disk.
  pub free_driver :
      (ptr : ℕ) (g : State c)
      → Returns (heap_free ptr g.heap) (λ h. Unit {0})
      → Returns (free c ptr g) (λ g'. g'.driver ≡ g.driver)
  unfolding free
  free_driver ptr g freed =
      Returns-bind (heap_free ptr g.heap) _ _ (λ g'. g'.driver ≡ g.driver) freed (λ h u. refl)
