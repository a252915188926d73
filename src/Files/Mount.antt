-- ===== src/Files/Mount.antt =====
-- mount_partition and filesys_init of fs/fs.c. What they print is left out.
use leeos.Base.{
  ℕ, ◌+◌, ◌*◌, ◌==◌, if◌then◌else◌, u32, List, [], ◌∷◌, Option, none, some, Run, ok, halted, ◌>>=◌,
}
use leeos.Base.Bytes.{word_at}
use leeos.Lists.{list_init}
use leeos.Strings.{memset, strcmp}
use leeos.Ide.{Disk}
use leeos.Ide.Partitions.{Partition}
use leeos.Files.{SuperBlock, sector_size}
use leeos.Files.Space.{Machine, State, bytes, set_bytes, on_links, malloc, free, read_sectors}
use leeos.Files.Mounted.{Mounted}
use leeos.Files.Format.{partition_format}

-- A partition in `partition_list`: the fields that the scan sets, and the addresses of its name
-- and of the list of its open inodes.
pub record Listed : Type 0 where
  pub partition : Partition
  pub name : ℕ
  pub open_inodes : ℕ

-- `struct super_block` at an address.
abbrev pub super_block_at : (ℕ → ℕ) → ℕ → SuperBlock
super_block_at m sb = record {
  magic = word_at m sb;
  sec_cnt = word_at m (sb + 4);
  inode_cnt = word_at m (sb + 8);
  part_lba_base = word_at m (sb + 12);
  block_bitmap_lba = word_at m (sb + 16);
  block_bitmap_sects = word_at m (sb + 20);
  inode_bitmap_lba = word_at m (sb + 24);
  inode_bitmap_sects = word_at m (sb + 28);
  inode_table_lba = word_at m (sb + 32);
  inode_table_sects = word_at m (sb + 36);
  data_start_lba = word_at m (sb + 40);
  root_inode_no = word_at m (sb + 44);
  dir_entry_size = word_at m (sb + 48);
}

module _ (c : Machine) where
  open c use {fuel}

  -- sys_malloc, with EXCEPTION_REPORT, which does not return, where there is no block.
  abbrev pub malloc_or_report : ℕ → State c → Run (ℕ × State c)
  malloc_or_report size f = do r ← malloc c size f; (if r.0 == 0 then halted else ok r)

  -- The partition with the name; both bitmaps get the length of the block bitmap.
  unfoldable pub mount : Listed → State c → Run (Mounted × State c)
  mount part f = do
    let hd = part.partition.my_disk
    s ← malloc_or_report sector_size f
    f1 ← read_sectors c hd (u32 (part.partition.start_lba + 1)) s.0 1 s.1
    let sb = super_block_at (bytes f1) s.0
    let bitmap_len = u32 (sb.block_bitmap_sects * sector_size)
    b ← malloc_or_report bitmap_len f1
    f2 ← read_sectors c hd sb.block_bitmap_lba b.0 sb.block_bitmap_sects b.1
    i ← malloc_or_report (u32 (sb.inode_bitmap_sects * sector_size)) f2
    f3 ← read_sectors c hd sb.inode_bitmap_lba i.0 sb.inode_bitmap_sects i.1
    ok (
      record {
        my_disk = hd;
        start_lba = part.partition.start_lba;
        sector_counter = part.partition.sector_counter;
        sb = sb;
        block_bits = b.0;
        block_bitmap_len = bitmap_len;
        inode_bits = i.0;
        inode_bitmap_len = bitmap_len;
        open_inodes = part.open_inodes;
      },
      on_links (list_init part.open_inodes) f3,
    )

  unfoldable pub mount_partition : Listed → (name : ℕ) → State c → Run (Option Mounted × State c)
  mount_partition part name f = do
    order ← strcmp fuel (bytes f) part.name name
    (if order == 0 then (mount part f >>= λ r. ok (some r.0, r.1)) else ok (none, f))

  -- list_traveral with mount_partition: the first partition with the name is `curr_part`.
  unfoldable pub mount_listed : List Listed → (name : ℕ) → State c → Run (Option Mounted × State c)
  mount_listed [] name f = ok (none, f)
  mount_listed (part ∷ parts) name f = do
    r ← mount_partition part name f
    elim r.0 [ none ↦ mount_listed parts name r.1 | some m ↦ ok (some m, r.1) ]

  module _ (sb sb_at : ℕ) where
    -- A partition with sectors is formatted, if it has no file system; `sb` is the block for a
    -- sector.
    unfoldable pub prepare : Disk → Partition → State c → Run (State c)
    prepare hd part f = do
      m ← memset sb 0 sector_size (bytes f)
      f1 ← read_sectors c hd (u32 (part.start_lba + 1)) sb 1 (set_bytes m f)
      (if word_at (bytes f1) sb == 0x19990814
          then ok f1
          else partition_format c part.my_disk part.start_lba part.sector_counter sb_at f1)

    unfoldable pub prepare_all : Disk → List Partition → State c → Run (State c)
    prepare_all hd [] f = ok f
    prepare_all hd (part ∷ parts) f = do
      f1 ← (if part.sector_counter == 0 then ok f else prepare hd part f)
      prepare_all hd parts f1

    -- The second disk of each channel, with its twelve partitions.
    unfoldable pub prepare_disks : List (Disk × List Partition) → State c → Run (State c)
    prepare_disks [] f = ok f
    prepare_disks ((hd, parts) ∷ disks) f = do f1 ← prepare_all hd parts f; prepare_disks disks f1

  -- `slaves` are the second disks of the channels, `default_part` is the address of "sdb1"; the
  -- block for a sector is given back before the partition is mounted.
  unfoldable pub filesys_init :
      List (Disk × List Partition)
      → List Listed
      → (sb_at default_part : ℕ) → State c
      → Run (Option Mounted × State c)
  filesys_init slaves partition_list sb_at default_part f = do
    b ← malloc_or_report sector_size f
    f1 ← prepare_disks b.0 sb_at slaves b.1
    f2 ← free c b.0 f1
    mount_listed partition_list default_part f2
