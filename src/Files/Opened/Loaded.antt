-- ===== src/Files/Opened/Loaded.antt =====
-- inode_open of fs/inode.c for an inode that is not open: what it loads from the disk.
use leeos.Base.{
  ℕ, ◌+◌, ◌-◌, ◌*◌, ◌≤◌, ◌<◌, ◌≡◌, ◌⊎◌, refl, ap, ◌∙◌, arith, Run, ok, ◌>>=◌, Returns, Returns-bind,
  Returns-and,
}
use leeos.Base.Bytes.{word_at, store_word, store_word-word_at, store_word_outside}
use leeos.Lists.{list_append}
use leeos.Strings.{memcpy}
use leeos.Strings.Copies.{memcpy_copies}
use leeos.Ide.{Disk, max_lba}
use leeos.Ide.Ports.{IsAta, IsQuiet}
use leeos.Ide.Chunks.{IsRead}
use leeos.Files.{inode_locate, inode_size, sector_size}
use leeos.Files.Layout.{InOneSector, inode_locate_one}
use leeos.Files.Space.{Machine, State, bytes, set_bytes, on_links, malloc, free, read_sectors}
use leeos.Files.Space.Sectors.{read_sectors-IsRead}
use leeos.Files.Opened.Blocks.{
  IsQuiet-same, free_driver, SameDisks, heap_free, IsBuffer, HasBlocks, malloc_disks,
  in_kernel_disks,
}
use leeos.Files.Opened.{i_open_cnts_of, inode_tag_of, in_kernel, load_inode}

module _ (c : Machine) where
  open c use {controller, globals, heap_globals, others, rounds, fuel}

  -- The inode's bytes on the disk, but for those of its count and its list element.
  pub record IsLoaded (content : controller.State → ℕ → ℕ → ℕ → ℕ) (my_disk : Disk)
      (inode_table_lba inode_no inode : ℕ) (f : State c) (r : ℕ × State c) : Type 0 where
    pub place : r.0 ≡ inode
    pub fields :
        (j : ℕ)
        → (j < 8) ⊎ ((12 ≤ j) × (j < 68))
        → bytes r.1 (inode + j)
          ≡ content f.driver.device my_disk.my_channel my_disk.dev_no
              (512 * inode_table_lba + inode_size * inode_no + j)
    pub count : word_at (bytes r.1) (i_open_cnts_of inode) ≡ 1
    pub disks : content r.1.driver.device ≡ content f.driver.device

  module _ (base : ℕ → ℕ) (content : controller.State → ℕ → ℕ → ℕ → ℕ) (my_disk : Disk)
      (inode_table_lba open_inodes inode_no inode buf : ℕ) (f : State c) where
    -- The part of load_inode behind the two blocks.
    abbrev read_and_copy : (lba off : ℕ) → State c → Run (ℕ × State c)
    read_and_copy lba off g = read_sectors c my_disk lba buf 1 g >>= λ f1.
        memcpy inode (buf + off) inode_size (bytes f1) >>= λ m.
        let f2 = on_links (list_append open_inodes (inode_tag_of inode)) (set_bytes m f1) in
        let f3 = set_bytes (store_word (bytes f2) (i_open_cnts_of inode) 1) f2 in
        free c buf f3 >>= λ f4. ok (inode, f4)

    -- What is in the buffer is what was on the disk.
    inode_on_disk :
        (lba off j : ℕ) (g f1 : State c)
        → IsRead controller base content my_disk lba buf 1 g.driver f1.driver
        → SameDisks c f g
        → 512 * lba + off ≡ 512 * inode_table_lba + inode_size * inode_no
        → off + j < 512
        → bytes f1 (buf + off + j)
          ≡ content f.driver.device my_disk.my_channel my_disk.dev_no
              (512 * inode_table_lba + inode_size * inode_no + j)
    inode_on_disk lba off j g f1 r same at h =
        let sector = content f.driver.device my_disk.my_channel my_disk.dev_no in
        let a = buf + off + j in
        let place : 512 * lba + (a - buf) ≡ 512 * inode_table_lba + inode_size * inode_no + j =
          omega (arith, at) in
        ground (arith, r.memory a, ap content same.0, ap sector place)

    read_and_copy-IsLoaded :
        (lba off : ℕ) (g : State c)
        → IsAta controller base content
        → IsQuiet controller base my_disk g.driver
        → SameDisks c f g
        → HasBlocks c inode_table_lba open_inodes inode_no inode buf f.heap
        → Returns
            (heap_free c buf (on_links (list_append open_inodes (inode_tag_of inode)) g).heap)
            (λ h. Unit {0})
        → lba ≤ max_lba
        → off + inode_size ≤ 512
        → 512 * lba + off ≡ 512 * inode_table_lba + inode_size * inode_no
        → 1 < fuel
        → Returns
            (read_and_copy lba off g)
            (IsLoaded content my_disk inode_table_lba inode_no inode f)
    read_and_copy-IsLoaded lba off g ata q same blocks freed disk within at rounds_ =
        Returns-bind (read_sectors c my_disk lba buf 1 g) _ _ _
          (read_sectors-IsRead c base content my_disk lba buf g ata q disk blocks.below rounds_)
          (λ f1 (heap, r).
            Returns-bind (memcpy inode (buf + off) inode_size (bytes f1)) _ _ _
              (memcpy_copies inode (buf + off) inode_size (bytes f1) blocks.inode_null
                (omega (arith, blocks.buf_null)) (omega (arith, blocks.apart)))
              (λ m copy.
                let cnt = i_open_cnts_of inode in
                let sector = content f.driver.device my_disk.my_channel my_disk.dev_no in
                let loaded : (j : ℕ)
                    → (j < 8) ⊎ ((12 ≤ j) × (j < 68))
                    → store_word m cnt 1 (inode + j)
                      ≡ sector (512 * inode_table_lba + inode_size * inode_no + j) =
                  λ j o.
                    store_word_outside m cnt 1 (inode + j) (omega (arith, o))
                    ∙ copy.inside j (omega (arith, o))
                    ∙ inode_on_disk lba off j g f1 r same at (omega (arith, o, within)) in
                let f2 = on_links (list_append open_inodes (inode_tag_of inode)) (set_bytes m f1) in
                let f3 = set_bytes (store_word (bytes f2) cnt 1) f2 in
                Returns-bind (free c buf f3) _ (λ f4. f4.driver ≡ f3.driver) _
                  (free_driver c buf f3 (rw heap freed))
                  (λ f4 e. record {
                    place = refl;
                    fields = λ j o. ap (λ d. d.memory (inode + j)) e ∙ loaded j o;
                    count =
                        ap (λ d. word_at d.memory cnt) e ∙ store_word-word_at m cnt 1 (omega arith);
                    disks = ap (λ d. content d.device) e ∙ (r.keeps ∙ ap content same.0);
                  })))

    -- For an inode of the table in one sector, with nothing under way on the channel, blocks for the inode and
    -- its sector, and fuel for two rounds, the part of inode_open behind the search returns the
    -- first block with the inode's bytes of the disk and a count of one.
    pub load_inode-IsLoaded :
        IsAta controller base content
        → IsQuiet controller base my_disk f.driver
        → HasBlocks c inode_table_lba open_inodes inode_no inode buf f.heap
        → inode_no < 4096
        → InOneSector inode_no
        → inode_table_lba + 608 ≤ max_lba
        → 1 < fuel
        → Returns
            (load_inode c my_disk inode_table_lba open_inodes inode_no f)
            (IsLoaded content my_disk inode_table_lba inode_no inode f)
    unfolding load_inode
    load_inode-IsLoaded ata q blocks small one disk rounds_ =
        Returns-bind (in_kernel c (malloc c inode_size) f) _ _ _
          (in_kernel_disks c inode_size f _ blocks.blocks)
          (λ i ((h, ((e, next), back)), same).
            Returns-bind (inode_locate inode_table_lba inode_no) _ _ _
              (Returns-and (inode_locate inode_table_lba inode_no) _ _ next
                (inode_locate_one inode_table_lba inode_no small (omega arith) one))
              (λ pos (next', (at, whole)). rw whole (
                Returns-bind (malloc c sector_size i.1) _ _ _
                  (malloc_disks c sector_size i.1 (IsBuffer c open_inodes inode buf)
                    (rw back (rw whole at next')))
                  (λ b ((eb, freed), same').
                    rw (e, eb)
                      (read_and_copy-IsLoaded pos.sec_lba pos.off_size b.1 ata
                        (IsQuiet-same c base my_disk i.1 b.1 same'
                          (IsQuiet-same c base my_disk f i.1 same q))
                        (same'.0 ∙ same.0, same'.1 ∙ same.1) blocks freed
                        (omega (arith, at.place, small)) (ground (arith, at.held, whole))
                        (omega (arith, at.place)) rounds_)))))
