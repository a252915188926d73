-- ===== src/Files/Format.antt =====
-- partition_format of fs/fs.c: a file system is written to a partition. What it prints is left out.
use Prim.Native.Nat.{bit_and, bit_or}
use leeos.Base.{
  ℕ, zero, suc, ◌+◌, ◌-◌, ◌*◌, ◌/◌, ◌%◌, ◌^◌, if◌then◌else◌, leb, u8, u32, List, [], ◌∷◌, Run,
  ◌>>=◌,
}
use leeos.Base.Memory.{update}
use leeos.Base.Bytes.{store_word}
use leeos.Strings.{memset}
use leeos.Ide.{Disk}
use leeos.Files.{SuperBlock, super_block_of, block_bitmap_bit_len, sector_size}
use leeos.Files.Space.{Machine, State, bytes, set_bytes, malloc, free, write_sectors}
use leeos.Files.Opened.{i_size_of, i_sector_of}
use leeos.Files.Directories.{i_no_of, f_type_of}

-- The fields of a super block in their order, each a word; the padding is not set.
abbrev pub super_block_words : SuperBlock → List ℕ
super_block_words sb =
    sb.magic ∷ sb.sec_cnt ∷ sb.inode_cnt ∷ sb.part_lba_base ∷ sb.block_bitmap_lba
    ∷ sb.block_bitmap_sects ∷ sb.inode_bitmap_lba ∷ sb.inode_bitmap_sects ∷ sb.inode_table_lba
    ∷ sb.inode_table_sects ∷ sb.data_start_lba ∷ sb.root_inode_no ∷ sb.dir_entry_size ∷ []

unfoldable pub store_words : (a : ℕ) → List ℕ → (ℕ → ℕ) → ℕ → ℕ
store_words a [] m = m
store_words a (v ∷ vs) m = store_words (a + 4) vs (store_word m a v)

abbrev pub larger : ℕ → ℕ → ℕ
larger a b = if leb b a then a else b

abbrev pub buf_size : SuperBlock → ℕ
buf_size sb =
    u32 (
      larger (larger sb.block_bitmap_sects sb.inode_bitmap_sects) sb.inode_table_sects
      * sector_size)

-- `buf[block_bitmap_odd_idx] &= ~(1 << i)`, for `left` bits from `i` on.
unfoldable pub clear_bits : (left i a : ℕ) → (ℕ → ℕ) → ℕ → ℕ
clear_bits zero i a m = m
clear_bits (suc left) i a m = clear_bits left (suc i) a (update m a (bit_and (m a) (255 - 2 ^ i)))

-- The fields of the root directory's inode, at `buf`.
abbrev pub root_inode : SuperBlock → ℕ → (ℕ → ℕ) → ℕ → ℕ
root_inode sb buf m =
    let m1 = store_word m buf 0 in
    let m2 = store_word m1 (i_size_of buf) (u32 (sb.dir_entry_size * 2)) in
    store_word m2 (i_sector_of buf 0) sb.data_start_lba

-- The entries `.` and `..`, at `buf`; 2 is FT_DIRECTORY.
abbrev pub root_entries : ℕ → (ℕ → ℕ) → ℕ → ℕ
root_entries buf m =
    let m1 = store_word m (f_type_of buf) 2 in
    let m2 = update (store_word m1 (i_no_of buf) 0) buf b'.' in
    let next = buf + 24 in
    let m3 = store_word m2 (f_type_of next) 2 in
    let m4 = store_word m3 (i_no_of next) 0 in update (update m4 next b'.') (next + 1) b'.'

module _ (c : Machine) (hd : Disk) where
  -- The writes behind the super block, with the buffer in its block. The bit of the first block is
  -- set, the bits behind the last one are, and the lowest ones of another byte are cleared; the
  -- comparison `buf[0] != 0x01` changes nothing.
  unfoldable pub write_parts : SuperBlock → (bit_len buf : ℕ) → State c → Run (State c)
  write_parts sb bit_len buf f = do
    let m0 = update (bytes f) buf (u8 (bit_or (bytes f buf) 1))
    let bytes_len = bit_len / 8
    m1 ← memset (buf + bytes_len) 0xff (512 - bytes_len % 512) m0
    let odd_idx = bit_len % 8
    let m2 = clear_bits (suc odd_idx) 0 (buf + odd_idx) m1
    f1 ← write_sectors c hd sb.block_bitmap_lba buf sb.block_bitmap_sects (set_bytes m2 f)
    m3 ← memset buf 0 (buf_size sb) (bytes f1)
    f2 ← write_sectors c hd sb.inode_bitmap_lba buf sb.inode_bitmap_sects (set_bytes m3 f1)
    m4 ← memset buf 0 (buf_size sb) (bytes f2)
    let m5 = root_inode sb buf m4
    f3 ← write_sectors c hd sb.inode_table_lba buf sb.inode_table_sects (set_bytes m5 f2)
    m6 ← memset buf 0 (buf_size sb) (bytes f3)
    write_sectors c hd sb.data_start_lba buf 1 (set_bytes (root_entries buf m6) f3)

  -- `sb_at` is the address of the local super block.
  unfoldable pub partition_format : (start_lba sector_counter sb_at : ℕ) → State c → Run (State c)
  partition_format start_lba sector_counter sb_at f = do
    let sb = super_block_of start_lba sector_counter
    let m = store_words sb_at (super_block_words sb) (bytes f)
    f1 ← write_sectors c hd (u32 (start_lba + 1)) sb_at 1 (set_bytes m f)
    b ← malloc c (u32 (buf_size sb * 2)) f1
    f2 ← write_parts sb (block_bitmap_bit_len sector_counter) b.0 b.1
    free c b.0 f2
