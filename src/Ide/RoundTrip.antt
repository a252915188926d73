-- ===== src/Ide/RoundTrip.antt =====
-- Sectors that ide_write of device/ide.c has written are read again by ide_read.
use leeos.Base.{
  ℕ, ◌+◌, ◌*◌, ◌-◌, ◌^◌, ◌≤◌, ◌<◌, ◌≡◌, arith, ◌>>=◌, Returns, Returns-bind, Returns-mono,
}
use leeos.Ide.{Controller, Disk, Driver, max_lba, ide_read, ide_write}
use leeos.Ide.Ports.{IsAta, IsQuiet}
use leeos.Ide.Transfer.{ide_read-IsRead, ide_write-IsWritten}

module _ (c : Controller) (base : ℕ → ℕ) (content : c.State → ℕ → ℕ → ℕ → ℕ) (hd : Disk) where
  open c use {State}

  -- With a controller that keeps to the ATA standard on commands of one sector and nothing
  -- under way on the channel, ide_write of one sector, not behind max_lba, and then ide_read
  -- of it into another buffer, where both buffers end at or below 2^32, with fuel for two
  -- rounds, return with the bytes of the first buffer, as they were before, in the second.
  pub ide_read-ide_write :
      (fuel lba buf buf' : ℕ) (d : Driver State)
      → IsAta c base content
      → IsQuiet c base hd d
      → lba ≤ max_lba
      → buf + 512 ≤ 2 ^ 32
      → buf' + 512 ≤ 2 ^ 32
      → 1 < fuel
      → Returns
          (ide_write c fuel hd lba buf 1 d >>= ide_read c fuel hd lba buf' 1)
          (λ d'. (i : ℕ) → i < 512 → d'.memory (buf' + i) ≡ d.memory (buf + i))
  ide_read-ide_write fuel lba buf buf' d ata q h to from f =
      Returns-bind (ide_write c fuel hd lba buf 1 d) _ _ _
        (ide_write-IsWritten c base content hd fuel lba buf d ata q h to f)
        (λ d1 w.
          Returns-mono (ide_read c fuel hd lba buf' 1 d1) _ _
            (ide_read-IsRead c base content hd fuel lba buf' d1 ata w.quiet h from f)
            (λ d' r i within. ground (
              arith,
              r.memory (buf' + i),
              w.disks hd.my_channel hd.dev_no (512 * lba + (buf' + i - buf')),
              let e : buf' + i - buf' ≡ i = omega arith in e,
              let e' : 512 * lba + i - 512 * lba ≡ i = omega arith in e',
            )))
