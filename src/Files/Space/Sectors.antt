-- ===== src/Files/Space/Sectors.antt =====
-- ide_read and ide_write as the file system calls them.
use leeos.Base.{ℕ, ◌+◌, ◌^◌, ◌≤◌, ◌<◌, ◌≡◌, refl, Returns, Returns-bind}
use leeos.Ide.{Disk, Driver, max_lba}
use leeos.Ide
use leeos.Ide.Ports.{IsAta, IsQuiet}
use leeos.Ide.Chunks.{IsRead, IsWritten}
use leeos.Ide.Transfer.{ide_read-IsRead, ide_write-IsWritten}
use leeos.Files.Space.{Machine, State, set_bytes, read_sectors, write_sectors}

module _ (c : Machine) (base : ℕ → ℕ) (hd : Disk) where
  open c use {controller}

  pub set_bytes-IsQuiet :
      (m : ℕ → ℕ) (f : State c)
      → IsQuiet controller base hd f.driver
      → IsQuiet controller base hd (set_bytes m f).driver
  set_bytes-IsQuiet m f q = record {
    channel = q.channel;
    drive = q.drive;
    port = q.port;
    line = q.line;
    idle = q.idle;
  }

module _ (c : Machine) (base : ℕ → ℕ) (content : c.controller.State → ℕ → ℕ → ℕ → ℕ)
    (hd : Disk) where
  open c use {controller, fuel}

  module _ (lba buf : ℕ) (f : State c) (ata : IsAta controller base content)
      (q : IsQuiet controller base hd f.driver) (within : lba ≤ max_lba)
      (below : buf + 512 ≤ 2 ^ 32) (enough : 1 < fuel) where
    pub read_sectors-IsRead :
        Returns (read_sectors c hd lba buf 1 f) (λ f1.
          (f1.heap ≡ f.heap) × IsRead controller base content hd lba buf 1 f.driver f1.driver)
    unfolding read_sectors
    read_sectors-IsRead =
        Returns-bind (Ide.ide_read controller fuel hd lba buf 1 f.driver) _ _ _
          (ide_read-IsRead controller base content hd fuel lba buf f.driver ata q within below
            enough)
          (λ d r. (refl, r))

    pub write_sectors-IsWritten : Returns (write_sectors c hd lba buf 1 f) (λ f1.
        (f1.heap ≡ f.heap) × IsWritten controller base content hd lba buf 1 f.driver f1.driver)
    unfolding write_sectors
    write_sectors-IsWritten =
        Returns-bind (Ide.ide_write controller fuel hd lba buf 1 f.driver) _ _ _
          (ide_write-IsWritten controller base content hd fuel lba buf f.driver ata q within below
            enough)
          (λ d r. (refl, r))
