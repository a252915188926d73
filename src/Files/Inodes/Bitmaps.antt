-- ===== src/Files/Inodes/Bitmaps.antt =====
-- bitmap_sync of fs/file.c over the disk driver.
use leeos.Base.{ℕ, ◌+◌, ◌*◌, ◌/◌, ◌^◌, ◌≤◌, ◌<◌, ◌≡◌, refl, arith, u32, Run, Returns}
use leeos.Ide.{Controller, Driver, max_lba, ide_write}
use leeos.Ide.Ports.{IsAta, IsQuiet}
use leeos.Ide.Chunks.{IsWritten}
use leeos.Ide.Transfer.{ide_write-IsWritten}
use leeos.Files.{sector_size}
use leeos.Files.Inodes.{Volume}

-- `INODE_BITMAP` and `BLOCK_BITMAP`.
pub data BitmapType : Type 0 where
  inode_bitmap block_bitmap : BitmapType

abbrev pub synced_lba : BitmapType → (inode_table_lba block_bitmap_lba : ℕ) → ℕ
synced_lba inode_bitmap inode_table_lba block_bitmap_lba = inode_table_lba
synced_lba block_bitmap inode_table_lba block_bitmap_lba = block_bitmap_lba

-- `inode_bits` is `part->inode_bitmap.bits`, which both branches take the bytes from.
unfoldable pub bitmap_sync :
    (c : Controller)
    → (fuel : ℕ) → Volume
    → (block_bitmap_lba inode_bits bit_idx : ℕ) → BitmapType
    → Driver c.State
    → Run (Driver c.State)
bitmap_sync c fuel part block_bitmap_lba inode_bits bit_idx btmp d =
    let off_sec = bit_idx / (sector_size * 8) in
    let off_size = u32 (sector_size * off_sec) in
    let lba = synced_lba btmp part.inode_table_lba block_bitmap_lba in
    ide_write c fuel part.my_disk (u32 (lba + off_sec)) (u32 (inode_bits + off_size)) 1 d

module _ (c : Controller) (base : ℕ → ℕ) (content : c.State → ℕ → ℕ → ℕ → ℕ) where
  -- Either branch writes one sector of the inode bitmap's bytes to the address that it takes.
  synced :
      (part : Volume) (fuel block_bitmap_lba inode_bits bit_idx lba : ℕ) (btmp : BitmapType)
      (d : Driver c.State)
      → IsAta c base content
      → IsQuiet c base part.my_disk d
      → bit_idx < 4096
      → synced_lba btmp part.inode_table_lba block_bitmap_lba ≡ lba
      → lba ≤ max_lba
      → inode_bits + 512 ≤ 2 ^ 32
      → 1 < fuel
      → Returns
          (bitmap_sync c fuel part block_bitmap_lba inode_bits bit_idx btmp d)
          (IsWritten c base content part.my_disk lba inode_bits 1 d)
  unfolding bitmap_sync
  synced part fuel block_bitmap_lba inode_bits bit_idx lba btmp d ata q few e low end f =
      let first : bit_idx / 4096 ≡ 0 = omega arith in
      let at : u32 (lba + 0) ≡ lba = omega arith in
      let from : u32 (inode_bits + 0) ≡ inode_bits = omega arith in
      rw (first, e, at, from)
        (ide_write-IsWritten c base content part.my_disk fuel lba inode_bits d ata q low end f)

  -- With a controller that keeps to the ATA standard on commands of one sector and nothing
  -- under way on the channel, for a bit below 4096, with the first sector of the table of
  -- inodes and that of the block bitmap not behind max_lba, the inode bitmap's first 512
  -- bytes ending at or below 2^32 and fuel for two rounds: called for the inode bitmap,
  -- bitmap_sync returns with these bytes in the first sector of the table of inodes; called
  -- for the block bitmap, it returns with the same bytes, those of the inode bitmap, in the
  -- first sector of the block bitmap; every other byte of every disk and the memory are as
  -- before.
  pub bitmap_sync_misplaced :
      (part : Volume) (fuel block_bitmap_lba inode_bits bit_idx : ℕ) (d : Driver c.State)
      → IsAta c base content
      → IsQuiet c base part.my_disk d
      → bit_idx < 4096
      → part.inode_table_lba ≤ max_lba
      → block_bitmap_lba ≤ max_lba
      → inode_bits + 512 ≤ 2 ^ 32
      → 1 < fuel
      → Returns
          (bitmap_sync c fuel part block_bitmap_lba inode_bits bit_idx inode_bitmap d)
          (IsWritten c base content part.my_disk part.inode_table_lba inode_bits 1 d)
        × Returns
            (bitmap_sync c fuel part block_bitmap_lba inode_bits bit_idx block_bitmap d)
            (IsWritten c base content part.my_disk block_bitmap_lba inode_bits 1 d)
  bitmap_sync_misplaced part fuel block_bitmap_lba inode_bits bit_idx d ata q few low low' end f = (
    synced part fuel block_bitmap_lba inode_bits bit_idx part.inode_table_lba inode_bitmap d ata q
        few refl low end f,
    synced part fuel block_bitmap_lba inode_bits bit_idx block_bitmap_lba block_bitmap d ata q few
        refl low' end f,
  )
