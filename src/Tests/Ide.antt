-- ===== src/Tests/Ide.antt =====
-- The disk driver, inodes and bitmaps with the simulated controller.
use leeos.Base.{ℕ, ◌+◌, ◌<◌, ◌≡◌, refl, ◌==◌, if◌then◌else◌, arith, halted, ◌>>=◌, Returns}
use leeos.Ide.{Controller, Driver, ide_read, ide_write}
use leeos.Ide.Chunks.{IsRead, IsWritten}
use leeos.Ide.Transfer.{ide_read-IsRead, ide_write-IsWritten}
use leeos.Ide.RoundTrip.{ide_read-ide_write}
use leeos.Tests.Simulator.{
  Simulated, port_base, simulator, simulator-IsAta, slave, driver, slave-IsQuiet,
}
use leeos.Files.Inodes.{Volume}
use leeos.Files.Inodes.Bitmaps.{inode_bitmap, block_bitmap, bitmap_sync, bitmap_sync_misplaced}
use leeos.Ide.Timeout.{NoData, asked, ide_read_refused}
use leeos.Ide.Identify.{swap_pairs_bytes, across, swap_pairs_bytes_swaps}

ide_read-IsRead_example :
    Returns
      (ide_read simulator 2 slave 1000 65536 1 driver)
      (IsRead simulator port_base Simulated.disks slave 1000 65536 1 driver)
ide_read-IsRead_example =
    ide_read-IsRead simulator port_base Simulated.disks slave 2 1000 65536 driver simulator-IsAta
      slave-IsQuiet (omega arith) (omega arith) (omega arith)

ide_write-IsWritten_example :
    Returns
      (ide_write simulator 2 slave 1000 65536 1 driver)
      (IsWritten simulator port_base Simulated.disks slave 1000 65536 1 driver)
ide_write-IsWritten_example =
    ide_write-IsWritten simulator port_base Simulated.disks slave 2 1000 65536 driver
      simulator-IsAta slave-IsQuiet (omega arith) (omega arith) (omega arith)

ide_read-ide_write_example :
    Returns
      (ide_write simulator 2 slave 1000 65536 1 driver >>= ide_read simulator 2 slave 1000 524288 1)
      (λ d'. (i : ℕ) → i < 512 → d'.memory (524288 + i) ≡ driver.memory (65536 + i))
ide_read-ide_write_example =
    ide_read-ide_write simulator port_base Simulated.disks slave 2 1000 65536 524288 driver
      simulator-IsAta slave-IsQuiet (omega arith) (omega arith) (omega arith) (omega arith)

-- A disk that ends every command with an error: ERR and DRDY, without DRQ.
abbrev failing : Controller
failing = record simulator { in_byte = λ port s. (0x41, s) }

ide_read_refused_example : ide_read failing 2 slave 1000 65536 300 driver ≡ halted
ide_read_refused_example =
    ide_read_refused failing port_base slave 1 1000 65536 300
      (asked failing port_base slave 1000 300 driver) driver
      (record { channel = omega arith; drive = omega arith; port = refl; line = refl; idle = refl })
      (omega arith) (omega arith) (omega arith) refl (NoData.refused refl refl)

swap_pairs_bytes_swaps_example : Returns (swap_pairs_bytes 11 (λ i. 65 + i) (λ i. 0) 20) (λ out.
    ((i : ℕ) → i < 20 → out i ≡ 65 + across i) × (out 20 ≡ 0) × ((i : ℕ) → 20 < i → out i ≡ 0))
swap_pairs_bytes_swaps_example =
    swap_pairs_bytes_swaps (λ i. 65 + i) 10 (omega arith) 11 (λ i. 0) (omega arith)

-- An inode with the number 7 at 5000.
abbrev with_inode : Driver Simulated
with_inode = record driver { memory = λ a. if a == 5000 then 7 else 0 }

abbrev volume : Volume
volume = record { my_disk = slave; start_lba = 63; sector_counter = 20000; inode_table_lba = 100 }

bitmap_sync_misplaced_example :
    Returns
      (bitmap_sync simulator 2 volume 80 65536 9 inode_bitmap driver)
      (IsWritten simulator port_base Simulated.disks slave 100 65536 1 driver)
    × Returns
        (bitmap_sync simulator 2 volume 80 65536 9 block_bitmap driver)
        (IsWritten simulator port_base Simulated.disks slave 80 65536 1 driver)
bitmap_sync_misplaced_example =
    bitmap_sync_misplaced simulator port_base Simulated.disks volume 2 80 65536 9 driver
      simulator-IsAta slave-IsQuiet (omega arith) (omega arith) (omega arith) (omega arith)
      (omega arith)
