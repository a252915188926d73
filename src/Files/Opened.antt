-- ===== src/Files/Opened.antt =====
-- fs/inode.c: opening and closing an inode. An open inode is a block of the kernel's heap, in the
-- list of its partition's open inodes.
pub mod Again
pub mod Blocks
pub mod Loaded
pub mod Reopen
use leeos.Base.{
  ℕ, ◌+◌, ◌-◌, ◌*◌, Bool, true, false, ◌==◌, if◌then◌else◌, sub32, u32, Run, ok, ◌>>=◌,
}
use leeos.Base.Bytes.{word_at, store_word}
use leeos.Interrupt.{intr_disable, intr_set_status}
use leeos.Lists.{Links, head_of, tail_of, traversal_loop, list_append, list_remove}
use leeos.Kernel.{Kernel, set_intr}
use leeos.Heap.{on_kernel}
use leeos.Strings.{memcpy}
use leeos.Ide.{Disk}
use leeos.Files.{inode_locate, inode_size, sector_size}
use leeos.Files.Space.{
  Machine, Space, State, bytes, set_bytes, links, on_links, pgdir_of, set_pgdir, malloc, free,
  read_sectors,
}

-- The fields of `struct inode` behind its address.
abbrev pub i_size_of : ℕ → ℕ
i_size_of inode = inode + 4

abbrev pub i_open_cnts_of : ℕ → ℕ
i_open_cnts_of inode = inode + 8

abbrev pub i_sector_of : ℕ → ℕ → ℕ
i_sector_of inode i = inode + 16 + 4 * i

abbrev pub inode_tag_of : ℕ → ℕ
inode_tag_of inode = inode + 68

-- `get_pcb(struct inode, inode_tag, elem)`.
abbrev pub inode_of_tag : ℕ → ℕ
inode_of_tag elem = elem - 68

-- The loop over the open inodes: the tag of the inode with the number, or 0.
unfoldable pub find_open : (fuel open_inodes inode_no : ℕ) → (ℕ → ℕ) → Links → Run ℕ
find_open fuel open_inodes inode_no m k =
    traversal_loop fuel (tail_of open_inodes) (λ elem. word_at m (inode_of_tag elem) == inode_no)
      (k.next (head_of open_inodes)) k

module _ (c : Machine) where
  open c use {fuel}

  -- `cur->pgdir` is 0 during the call, so that it uses the kernel's heap.
  unfoldable pub in_kernel :
      {A : Type 0} → (State c → Run (A × State c)) → State c → Run (A × State c)
  in_kernel call f = do
    let curr_prog = f.heap.kernel.current
    let keep_pgdir = pgdir_of f
    r ← call (set_pgdir curr_prog 0 f)
    ok (r.0, set_pgdir curr_prog keep_pgdir r.1)

  -- The part of inode_open for an inode that is not open yet.
  unfoldable pub load_inode :
      Disk → (inode_table_lba open_inodes inode_no : ℕ) → State c → Run (ℕ × State c)
  load_inode my_disk inode_table_lba open_inodes inode_no f = do
    i ← in_kernel (malloc c inode_size) f
    let curr_inode = i.0
    pos ← inode_locate inode_table_lba inode_no
    let sectors = if pos.two_sec then 2 else 1
    b ← malloc c (sector_size * sectors) i.1
    f1 ← read_sectors c my_disk pos.sec_lba b.0 sectors b.1
    m ← memcpy curr_inode (b.0 + pos.off_size) inode_size (bytes f1)
    let f2 = on_links (list_append open_inodes (inode_tag_of curr_inode)) (set_bytes m f1)
    let f3 = set_bytes (store_word (bytes f2) (i_open_cnts_of curr_inode) 1) f2
    f4 ← free c b.0 f3
    ok (curr_inode, f4)

  unfoldable pub inode_open :
      Disk → (inode_table_lba open_inodes inode_no : ℕ) → State c → Run (ℕ × State c)
  inode_open my_disk inode_table_lba open_inodes inode_no f = do
    elem ← find_open fuel open_inodes inode_no (bytes f) (links f)
    let inode = inode_of_tag elem
    let cnts = u32 (word_at (bytes f) (i_open_cnts_of inode) + 1)
    (if elem == 0
        then load_inode my_disk inode_table_lba open_inodes inode_no f
        else ok (inode, set_bytes (store_word (bytes f) (i_open_cnts_of inode) cnts) f))

  unfoldable pub inode_close : ℕ → State c → Run (State c)
  inode_close inode f = do
    let old = intr_disable (links f).intr
    let f1 = record f { heap = on_kernel (set_intr old.0) f.heap }
    let cnts = sub32 (word_at (bytes f1) (i_open_cnts_of inode)) 1
    let f2 = set_bytes (store_word (bytes f1) (i_open_cnts_of inode) cnts) f1
    let last : Run (State c) = (do
      r ←
          in_kernel (λ f3. free c inode f3 >>= λ f4. ok (tt, f4))
            (on_links (list_remove (inode_tag_of inode)) f2)
      ok r.1)
    f5 ← (if cnts == 0 then last else ok f2)
    let back = (intr_set_status old.1 (links f5).intr).0
    ok (record f5 { heap = on_kernel (set_intr back) f5.heap })
