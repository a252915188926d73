-- ===== src/Ide/Transfer.antt =====
-- ide_read and ide_write of device/ide.c: transfers of one sector.
use leeos.Base.{
  ℕ, zero, suc, ◌+◌, ◌-◌, ◌*◌, ◌^◌, ◌≤◌, ◌<◌, ◌≡◌, refl, ap, ◌∙◌, true, leb, u32, arith, Run,
  Returns, Returns-bind, Returns-mono,
}
use leeos.Ide.{
  Controller, Disk, Driver, max_lba, select_disk, read_chunk, write_chunk, transfer, ide_read,
  ide_write,
}
use leeos.Ide.Ports.{IsAta, IsQuiet, select_disk-IsQuiet}
use leeos.Ide.Chunks.{IsRead, IsWritten, read_chunk-IsRead, write_chunk-IsWritten}

module _ (c : Controller) (base : ℕ → ℕ) (content : c.State → ℕ → ℕ → ℕ → ℕ) (hd : Disk) where
  open c use {State}

  -- The loop of one round.
  transfer_one :
      (chunk : ℕ → ℕ → ℕ → Driver State → Run (Driver State)) (fuel lba buf : ℕ) (d : Driver State)
      (P : Driver State → Type 0)
      → 1 < fuel
      → lba < 2 ^ 32
      → buf < 2 ^ 32
      → Returns (chunk lba buf 1 d) P
      → Returns (transfer c chunk lba buf 1 fuel 0 d) P
  unfolding transfer
  transfer_one chunk zero lba buf d P f h h' r = absurd (omega arith)
  transfer_one chunk (suc zero) lba buf d P f h h' r = absurd (omega arith)
  transfer_one chunk (suc (suc fuel)) lba buf d P f h h' r =
      let at : u32 (lba + 0) ≡ lba = omega arith in
      let to : u32 (buf + 0) ≡ buf = omega arith in
      rw (at, to) (Returns-bind (chunk lba buf 1 d) _ P P r (λ d1 p. p))

  select_disk_keeps :
      (d : Driver State)
      → IsAta c base content
      → IsQuiet c base hd d
      → IsQuiet c base hd (select_disk c hd d)
        × (content (select_disk c hd d).device ≡ content d.device)
        × ((select_disk c hd d).memory ≡ d.memory)
  unfolding select_disk
  select_disk_keeps d ata q = (
    select_disk-IsQuiet c base hd d q,
    rw q.port (ata.select_keeps d.device hd.my_channel _ q.channel),
    refl,
  )

  -- With a controller that keeps to the ATA standard on commands of one sector and nothing
  -- under way on the channel, ide_read of one sector, not behind max_lba, into a buffer that
  -- ends at or below 2^32, with fuel for two rounds, returns with the bytes of just this
  -- sector in the buffer, the rest of the memory and the disks as before, and nothing under
  -- way.
  pub ide_read-IsRead :
      (fuel lba buf : ℕ) (d : Driver State)
      → IsAta c base content
      → IsQuiet c base hd d
      → lba ≤ max_lba
      → buf + 512 ≤ 2 ^ 32
      → 1 < fuel
      → Returns (ide_read c fuel hd lba buf 1 d) (IsRead c base content hd lba buf 1 d)
  unfolding ide_read
  ide_read-IsRead fuel lba buf d ata q h h' f =
      let (quiet, keeps, memory) = select_disk_keeps d ata q in
      let start = select_disk c hd d in
      rw (let a : leb lba max_lba ≡ true = ground arith in a) (
        transfer_one (read_chunk c hd) fuel lba buf start _ f (omega arith) (omega arith) (
          Returns-mono (read_chunk c hd lba buf 1 start) _ _
            (read_chunk-IsRead c base content hd lba buf start ata quiet h)
            (λ d1 r. record {
              quiet = r.quiet;
              keeps = r.keeps ∙ keeps;
              memory = λ a. ground (
                arith,
                r.memory a,
                ap (λ m. m a) memory,
                ap (λ t. t hd.my_channel hd.dev_no (512 * lba + (a - buf))) keeps,
              );
            })))

  -- With a controller that keeps to the ATA standard on commands of one sector and nothing
  -- under way on the channel, ide_write of one sector, not behind max_lba, from a buffer that
  -- ends at or below 2^32, with fuel for two rounds, returns with the bytes of the buffer in
  -- just this sector of the disk, every other byte of every disk and the memory as before,
  -- and nothing under way.
  pub ide_write-IsWritten :
      (fuel lba buf : ℕ) (d : Driver State)
      → IsAta c base content
      → IsQuiet c base hd d
      → lba ≤ max_lba
      → buf + 512 ≤ 2 ^ 32
      → 1 < fuel
      → Returns (ide_write c fuel hd lba buf 1 d) (IsWritten c base content hd lba buf 1 d)
  unfolding ide_write
  ide_write-IsWritten fuel lba buf d ata q h h' f =
      let (quiet, keeps, memory) = select_disk_keeps d ata q in
      let start = select_disk c hd d in
      rw (let a : leb lba max_lba ≡ true = ground arith in a) (
        transfer_one (write_chunk c hd) fuel lba buf start _ f (omega arith) (omega arith) (
          Returns-mono (write_chunk c hd lba buf 1 start) _ _
            (write_chunk-IsWritten c base content hd lba buf start ata quiet h)
            (λ d1 w. record {
              quiet = w.quiet;
              memory = w.memory ∙ memory;
              disks = λ ch drive b. ground (
                arith,
                w.disks ch drive b,
                ap (λ m. m (buf + (b - 512 * lba))) memory,
                ap (λ t. t ch drive b) keeps,
              );
            })))
