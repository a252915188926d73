-- ===== src/Files/Opened/Again.antt =====
-- inode_open and inode_close of fs/inode.c for an inode that is open.
use leeos.Base.{
  ℕ, ◌+◌, ◌^◌, ◌<◌, ◌≡◌, ◌≢◌, refl, ap, ◌∙◌, List, length, ◌==◌, ==_of_ne, u32, sub32, arith, ok,
  ◌>>=◌, Returns,
}
use leeos.Base.Bytes.{word_at, store_word, store_word-word_at, store_word_back}
use leeos.Interrupt.{IntrStatus, intr_off, intr_on, intr_disable, intr_set_status}
use leeos.Lists.{tail_of, head_of}
use leeos.Lists.Refine.{IsList}
use leeos.Lists.Walks.{find, traversal_loop_lem}
use leeos.Ide.{Disk}
use leeos.Files.Space.{Machine, State, bytes, set_bytes, links}
use leeos.Files.Opened.{i_open_cnts_of, inode_of_tag, find_open, inode_open, inode_close}

module _ (c : Machine) (open_inodes inode_no tag : ℕ) (tags : List ℕ) where
  open c use {fuel}

  -- In the list of open inodes the element is the first whose inode has the number, and the
  -- count of that inode is a word of four bytes, neither 0 nor the largest.
  pub record IsOpen (f : State c) : Type 0 where
    pub list : IsList (links f) open_inodes tags
    pub short : length tags < fuel
    pub found : find (λ elem. word_at (bytes f) (inode_of_tag elem) == inode_no) tags ≡ tag
    pub element : tag ≢ 0
    pub used : 0 < word_at (bytes f) (i_open_cnts_of (inode_of_tag tag))
    pub room : word_at (bytes f) (i_open_cnts_of (inode_of_tag tag)) + 1 < 2 ^ 32
    pub byte0 : bytes f (i_open_cnts_of (inode_of_tag tag)) < 256
    pub byte1 : bytes f (i_open_cnts_of (inode_of_tag tag) + 1) < 256
    pub byte2 : bytes f (i_open_cnts_of (inode_of_tag tag) + 2) < 256
    pub byte3 : bytes f (i_open_cnts_of (inode_of_tag tag) + 3) < 256

  abbrev counted : State c → State c
  counted f =
      let at = i_open_cnts_of (inode_of_tag tag) in
      set_bytes (store_word (bytes f) at (word_at (bytes f) at + 1)) f

  pub inode_open_again :
      (my_disk : Disk) (inode_table_lba : ℕ) (f : State c)
      → IsOpen f
      → inode_open c my_disk inode_table_lba open_inodes inode_no f
        ≡ ok (inode_of_tag tag, counted f)
  unfolding inode_open find_open
  inode_open_again my_disk inode_table_lba f o =
      let at = i_open_cnts_of (inode_of_tag tag) in
      let walk =
        traversal_loop_lem (links f) (tail_of open_inodes)
          (λ elem. word_at (bytes f) (inode_of_tag elem) == inode_no) fuel (head_of open_inodes)
          tags o.list.chain o.list.distinct.1 o.short
        ∙ ap ok o.found in
      let fit : u32 (word_at (bytes f) at + 1) ≡ word_at (bytes f) at + 1 = omega arith in
      rw (walk, ==_of_ne tag 0 o.element, fit) refl

  intr_back : (s : IntrStatus) → (intr_set_status (intr_disable s).1 (intr_disable s).0).0 ≡ s
  unfolding intr_disable intr_set_status
  intr_back intr_on = refl
  intr_back intr_off = refl

  -- Where an inode with the number is in the list of open inodes, and its count is neither 0
  -- nor the largest word, inode_open followed by inode_close of its result returns, with fuel
  -- for more rounds than the list has elements, and leaves the heap, the lists, the disks and
  -- every byte of the memory as they were.
  pub inode_close-inode_open :
      (my_disk : Disk) (inode_table_lba : ℕ) (f : State c)
      → IsOpen f
      → Returns
          (inode_open c my_disk inode_table_lba open_inodes inode_no f >>= λ r.
            inode_close c r.0 r.1)
          (λ f'.
            (f'.heap ≡ f.heap)
            × (f'.driver.device ≡ f.driver.device)
            × ((a : ℕ) → bytes f' a ≡ bytes f a))
  unfolding inode_close
  inode_close-inode_open my_disk inode_table_lba f o =
      let at = i_open_cnts_of (inode_of_tag tag) in
      let n = word_at (bytes f) at in
      let stored = store_word-word_at (bytes f) at (n + 1) o.room in
      let less : sub32 (n + 1) 1 ≡ n = omega arith in
      rw
        (
          inode_open_again my_disk inode_table_lba f o,
          stored,
          less,
          ==_of_ne n 0 (omega arith),
          intr_back (links f).intr,
        )
        (refl, refl, λ a. store_word_back (bytes f) at (n + 1) a o.byte0 o.byte1 o.byte2 o.byte3)
