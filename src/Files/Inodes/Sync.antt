-- ===== src/Files/Inodes/Sync.antt =====
-- inode_sync of fs/inode.c over the disk driver.
use leeos.Base.{ℕ, ◌+◌, ◌-◌, ◌*◌, ◌≡◌, ◌&&◌, ◌==◌, if◌then◌else◌, ltb, leb, Run, ◌>>=◌}
use leeos.Ide.{Controller, Disk, Driver, ide_read, ide_write}
use leeos.Ide.Ports.{IsQuiet}
use leeos.Files.{inode_size}
use leeos.Files.Inodes.{Volume, i_no_at, pure_inode, store_bytes}

module _ (c : Controller) (base : ℕ → ℕ) (content : c.State → ℕ → ℕ → ℕ → ℕ) where
  open c use {State}

  -- The inode's bytes are those of its copy, and every other byte of the disks is as before.
  pub record IsSynced (part : Volume) (inode : ℕ) (d d' : Driver State) : Type 0 where
    pub quiet : IsQuiet c base part.my_disk d'
    pub disks :
        (ch drive b : ℕ)
        → content d'.device ch drive b ≡ (
            let start = 512 * part.inode_table_lba + inode_size * i_no_at d.memory inode in
            let hd = part.my_disk in
            if (ch == hd.my_channel && drive == hd.dev_no)
              && (leb start b && ltb b (start + inode_size))
            then pure_inode d.memory inode (b - start)
            else content d.device ch drive b)

  abbrev rewrite : Disk → (fuel lba io_buff off : ℕ) → (ℕ → ℕ) → Driver State → Run (Driver State)
  rewrite hd fuel lba io_buff off bytes d = ide_read c fuel hd lba io_buff 1 d >>= λ d1.
      ide_write c fuel hd lba io_buff 1
        (record d1 { memory = store_bytes d1.memory (io_buff + off) inode_size bytes })
