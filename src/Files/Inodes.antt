-- ===== src/Files/Inodes.antt =====
-- fs/inode.c: writing an inode to the disk. The partition is given by its disk, its sectors and the
-- start of its table of inodes.
pub mod Sync
pub mod Bitmaps
use leeos.Base.{
  ℕ, ◌+◌, ◌-◌, ◌*◌, ◌^◌, Bool, true, false, ◌&&◌, ◌||◌, if◌then◌else◌, ltb, leb, u32, Run, ok,
  ◌>>=◌, ◌>>◌, assert,
}
use leeos.Base.Memory.{update}
use leeos.Ide.{Controller, Disk, Driver, ide_read, ide_write}
use leeos.Files.{inode_locate, inode_size, InodePosition}

-- `struct partition`, as far as inodes need it.
pub record Volume : Type 0 where
  pub my_disk : Disk
  pub start_lba : ℕ
  pub sector_counter : ℕ
  pub inode_table_lba : ℕ

-- `inode->i_no`: four bytes, the lowest first.
abbrev pub i_no_at : (ℕ → ℕ) → ℕ → ℕ
i_no_at memory inode =
    memory inode
    + 2 ^ 8 * memory (inode + 1)
    + 2 ^ 16 * memory (inode + 2)
    + 2 ^ 24 * memory (inode + 3)

-- The bytes of `i_open_cnts`, `write_deny` and `inode_tag`.
abbrev pub is_volatile : ℕ → Bool
is_volatile j = (leb 8 j && ltb j 16) || leb 68 j

-- The copy of an inode that goes to the disk.
abbrev pub pure_inode : (ℕ → ℕ) → ℕ → ℕ → ℕ
pure_inode memory inode j = if is_volatile j then 0 else memory (inode + j)

-- `memcpy(dst, &pure_inode, sizeof(struct inode))`.
abbrev pub store_bytes : (ℕ → ℕ) → (dst size : ℕ) → (ℕ → ℕ) → ℕ → ℕ
store_bytes memory dst size bytes a =
    if leb dst a && ltb a (dst + size) then bytes (a - dst) else memory a

-- `fuel` is that of the transfers.
unfoldable pub inode_sync :
    (c : Controller)
    → (fuel : ℕ) → Volume
    → (inode io_buff : ℕ) → Driver c.State
    → Run (Driver c.State)
inode_sync c fuel part inode io_buff d = do
  pos ← inode_locate part.inode_table_lba (i_no_at d.memory inode)
  assert (leb pos.sec_lba (u32 (part.start_lba + part.sector_counter)))
  let sectors = if pos.two_sec then 2 else 1
  d1 ← ide_read c fuel part.my_disk pos.sec_lba io_buff sectors d
  let memory = store_bytes d1.memory (io_buff + pos.off_size) inode_size (pure_inode d.memory inode)
  ide_write c fuel part.my_disk pos.sec_lba io_buff sectors (record d1 { memory = memory })

-- `struct inode` in memory, less the list element.
pub record Inode : Type 0 where
  pub i_no : ℕ
  pub i_size : ℕ
  pub i_open_cnts : ℕ
  pub write_deny : Bool
  pub i_sectors : ℕ → ℕ

unfoldable pub inode_init : (inode_no : ℕ) → Inode → Inode
inode_init inode_no new_inode = record {
  i_no = inode_no;
  i_open_cnts = 0;
  i_size = 0;
  write_deny = false;
  i_sectors = λ sec_idx. if ltb sec_idx 13 then 0 else new_inode.i_sectors sec_idx;
}
