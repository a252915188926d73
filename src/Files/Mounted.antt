-- ===== src/Files/Mounted.antt =====
-- A partition with a file system: `struct partition` of device/ide.h once mount_partition of fs/fs.c
-- has filled it, and the allocation of blocks by fs/file.c in its bitmaps in memory.
use leeos.Base.{ℕ, ◌+◌, ◌-◌, if◌then◌else◌, leb, Option, Run, ok, ◌>>=◌}
use leeos.Bitmap.{Bitmap, bitmap_set}
use leeos.Ide.{Disk}
use leeos.Files.{SuperBlock}
use leeos.Files
use leeos.Files.Inodes.{Volume}
use leeos.Files.Inodes.Bitmaps.{BitmapType}
use leeos.Files.Inodes.Bitmaps
use leeos.Files.Space.{Machine, State, bytes, set_bytes}

-- The super block by its contents, the bitmaps by the addresses of their bytes.
pub record Mounted : Type 0 where
  pub my_disk : Disk
  pub start_lba : ℕ
  pub sector_counter : ℕ
  pub sb : SuperBlock
  pub block_bits : ℕ
  pub block_bitmap_len : ℕ
  pub inode_bits : ℕ
  pub inode_bitmap_len : ℕ
  pub open_inodes : ℕ

abbrev pub volume_of : Mounted → Volume
volume_of part = record {
  my_disk = part.my_disk;
  start_lba = part.start_lba;
  sector_counter = part.sector_counter;
  inode_table_lba = part.sb.inode_table_lba;
}

-- The bitmap whose bytes stand from an address on, and the memory with its bytes.
abbrev pub bitmap_at : (bits bitmap_len : ℕ) → (ℕ → ℕ) → Bitmap
bitmap_at bits bitmap_len m = record { bitmap_len = bitmap_len; bits = λ i. m (bits + i) }

abbrev pub store_bitmap : (bits : ℕ) → Bitmap → (ℕ → ℕ) → ℕ → ℕ
store_bitmap bits b m a = if leb bits a then b.bits (a - bits) else m a

module _ (c : Machine) (part : Mounted) where
  unfoldable pub alloc_block : State c → Run (Option ℕ × State c)
  alloc_block f = do
    r ← Files.block_bitmap_alloc part.sb (bitmap_at part.block_bits part.block_bitmap_len (bytes f))
    ok (r.0, set_bytes (store_bitmap part.block_bits r.1 (bytes f)) f)

  unfoldable pub block_bitmap_set : (bit_idx value : ℕ) → State c → Run (State c)
  block_bitmap_set bit_idx value f = do
    b ← bitmap_set (bitmap_at part.block_bits part.block_bitmap_len (bytes f)) bit_idx value
    ok (set_bytes (store_bitmap part.block_bits b (bytes f)) f)

  unfoldable pub sync_bitmap : (bit_idx : ℕ) → BitmapType → State c → Run (State c)
  sync_bitmap bit_idx btmp f = do
    d ←
        Bitmaps.bitmap_sync c.controller c.fuel (volume_of part) part.sb.block_bitmap_lba
          part.inode_bits bit_idx btmp f.driver
    ok (record f { driver = d })
