-- ===== src/Files/Layout.antt =====
-- The sectors of a formatted partition, and those of an inode, in fs/fs.c and fs/inode.c.
use leeos.Base.{ℕ, ◌+◌, ◌*◌, ◌%◌, false, ◌^◌, ◌≤◌, ◌<◌, ◌≡◌, if◌then◌else◌, lt→ltb, arith, Returns}
use leeos.Files.{
  SuperBlock, super_block_of, block_bitmap_bit_len, div_round_up, InodePosition, inode_locate,
  inode_size,
}

-- The regions of the super block come one behind the other, and the bitmap has a bit for each block.
pub record LaidOut (start_lba sector_counter : ℕ) (sb : SuperBlock) : Type 0 where
  pub first : sb.block_bitmap_lba ≡ start_lba + 2
  pub second : sb.inode_bitmap_lba ≡ sb.block_bitmap_lba + sb.block_bitmap_sects
  pub third : sb.inode_table_lba ≡ sb.inode_bitmap_lba + sb.inode_bitmap_sects
  pub inside : sb.inode_table_lba + sb.inode_table_sects ≤ start_lba + sector_counter
  pub covered : block_bitmap_bit_len sector_counter ≤ 4096 * sb.block_bitmap_sects

-- In a partition of at least 612 sectors that ends 4096 sectors or more below 2^32, the bitmaps
-- and the table of inodes that partition_format lays out follow each other without a gap, end
-- in the partition, and the block bitmap has a bit for each block.
pub super_block_of-LaidOut :
    (start_lba sector_counter : ℕ)
    → 612 ≤ sector_counter
    → start_lba + sector_counter + 4096 < 2 ^ 32
    → LaidOut start_lba sector_counter (super_block_of start_lba sector_counter)
unfolding super_block_of div_round_up block_bitmap_bit_len
super_block_of-LaidOut start_lba sector_counter h small = record {
  first = omega arith;
  second = omega arith;
  third = omega arith;
  inside = omega arith;
  covered = omega arith;
}

-- The start of the data that the super block names does not come behind the partition's first
-- sector in a partition that starts at the sector 1216 or later.
pub data_start_outside :
    (start_lba sector_counter : ℕ)
    → 1216 ≤ start_lba
    → (super_block_of start_lba sector_counter).data_start_lba ≤ start_lba
unfolding super_block_of div_round_up
data_start_outside start_lba sector_counter h = omega arith

-- Where an inode stands, in bytes from the start of the table, and how many sectors hold it.
pub record Located (inode_table_lba inode_no : ℕ) (p : InodePosition) : Type 0 where
  pub place : p.sec_lba * 512 + p.off_size ≡ inode_table_lba * 512 + inode_no * inode_size
  pub held : p.off_size + inode_size ≤ (if p.two_sec then 1024 else 512)

-- inode_locate, for an inode of the table, returns the sector and the offset of the inode's
-- first byte in an array of inodes, and the one or two sectors that it asks for hold the whole
-- inode.
pub inode_locate-Located :
    (inode_table_lba inode_no : ℕ)
    → inode_no < 4096
    → inode_table_lba + 608 < 2 ^ 32
    → Returns (inode_locate inode_table_lba inode_no) (Located inode_table_lba inode_no)
unfolding inode_locate
inode_locate-Located inode_table_lba inode_no h small =
    rw (lt→ltb inode_no 4096 h) (record { place = omega arith; held = ground arith })

-- An inode that ends before the end of its sector, where inode_locate asks for one sector.
abbrev pub InOneSector : ℕ → Type 0
InOneSector inode_no = inode_no * inode_size % 512 + inode_size < 512

pub inode_locate_one :
    (inode_table_lba inode_no : ℕ)
    → inode_no < 4096
    → inode_table_lba + 608 < 2 ^ 32
    → InOneSector inode_no
    → Returns
        (inode_locate inode_table_lba inode_no)
        (λ p. Located inode_table_lba inode_no p × (p.two_sec ≡ false))
unfolding inode_locate
inode_locate_one inode_table_lba inode_no h small one =
    rw (lt→ltb inode_no 4096 h) (record { place = omega arith; held = ground arith }, ground arith)
