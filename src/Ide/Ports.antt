-- ===== src/Ide/Ports.antt =====
-- What the driver of device/ide.c relies on of an ATA controller, and that its port accesses
-- are those of the controller's command block.
use Prim.Native.Nat.{bit_and, bit_or}
use leeos.Base.{
  ℕ, zero, suc, ◌+◌, ◌-◌, ◌*◌, ◌/◌, ◌%◌, ◌^◌, ◌≤◌, ◌<◌, ◌≡◌, ◌≢◌, refl, true, ◌&&◌, ◌==◌,
  if◌then◌else◌, ltb, leb, u8, arith, Returns, none, some, stuck,
}
use leeos.Ide.{
  Controller, Disk, Driver, max_lba, select_disk, select_sector, cmd_out, wait_ready, busy_wait,
  intr_hd_handler, await_disk,
}

abbrev pub max_polls : ℕ
max_polls = 29998

module _ (c : Controller) where
  open c use {State, out_byte, in_byte, in_multibyte, out_multibyte, interrupt, sleep}

  abbrev status : ℕ → State → ℕ × State
  status port s = in_byte (port + 7) s

  -- The registers of a command, in the order of their ports; the device register holds the mode,
  -- the drive and the highest digits of the address.
  abbrev pub commanded : ℕ → ℕ → ℕ → ℕ → ℕ → State → State
  commanded port drive address count cmd s =
      let s1 = out_byte (port + 2) count s in
      let s2 = out_byte (port + 3) (address % 256) s1 in
      let s3 = out_byte (port + 4) (address / 2 ^ 8 % 256) s2 in
      let s4 = out_byte (port + 5) (address / 2 ^ 16 % 256) s3 in
      let s5 = out_byte (port + 6) (0xe0 + 16 * drive + address / 2 ^ 24) s4 in
      out_byte (port + 7) cmd s5

  -- The controller has data within a number of polls: BSY is read as set that often at most,
  -- with a pause after each, then as clear, and DRQ is read as set.
  pub data Polls (port : ℕ) : ℕ → State → State → Type 0 where
    ready :
        {n : ℕ} {s s' : State}
        → bit_and (status port s).0 0x80 ≡ 0
        → bit_and (status port (status port s).1).0 0x8 ≢ 0
        → s' ≡ (status port (status port s).1).1
        → Polls port n s s'
    busy :
        {n : ℕ} {s s' : State}
        → bit_and (status port s).0 0x80 ≢ 0
        → Polls port n (sleep 10 (status port s).1) s'
        → Polls port (suc n) s s'

  -- The ATA standard on the commands READ SECTORS and WRITE SECTORS with 28 bits of address and a
  -- count of one sector. To read, the device raises its interrupt when the sector is ready, with
  -- BSY clear and DRQ set from then on, and hands over the 256 words of the sector; to write, it
  -- sets DRQ without an interrupt, takes the 256 words, and raises its interrupt when it is done.
  -- `content` is what the disks hold, by channel, drive and byte. Of more than one sector in a
  -- command, for which the standard has a handshake before each, nothing is said.
  pub record IsAta (base : ℕ → ℕ) (content : State → ℕ → ℕ → ℕ → ℕ) : Type 0 where
    pub select_keeps :
        (s : State) (ch value : ℕ) → ch < 2 → content (out_byte (base ch + 6) value s) ≡ content s
    pub reads :
        (s : State) (ch drive address : ℕ)
        → ch < 2
        → drive < 2
        → address < 2 ^ 28
        → (s0 : State) × (s' : State) × (interrupt ch (commanded (base ch) drive address 1 0x20 s)
            ≡ some s0)
          × Polls (base ch) max_polls (status (base ch) s0).1 s'
          × ((i : ℕ)
              → i < 512
              → (in_multibyte (base ch + 0) 256 s').0 i ≡ content s ch drive (512 * address + i))
          × (content (in_multibyte (base ch + 0) 256 s').1 ≡ content s)
    pub writes :
        (s : State) (ch drive address : ℕ)
        → ch < 2
        → drive < 2
        → address < 2 ^ 28
        → (s' : State) × Polls (base ch) max_polls (commanded (base ch) drive address 1 0x30 s) s'
          × ((bytes : ℕ → ℕ)
              → (s0 : State) × (interrupt ch (out_multibyte (base ch + 0) bytes 256 s') ≡ some s0)
                × ((ch' drive' b : ℕ)
                    → content (status (base ch) s0).1 ch' drive' b ≡ (
                        if (ch' == ch && drive' == drive)
                          && (leb (512 * address) b && ltb b (512 * (address + 1)))
                        then bytes (b - 512 * address)
                        else content s ch' drive' b)))

  -- Nothing is under way on the channel of the disk.
  pub record IsQuiet (base : ℕ → ℕ) (hd : Disk) (d : Driver State) : Type 0 where
    pub channel : hd.my_channel < 2
    pub drive : hd.dev_no < 2
    pub port : (d.ide_channels hd.my_channel).port_base ≡ base hd.my_channel
    pub line : (d.ide_channels hd.my_channel).interrupt_number ≡ 0x2e + hd.my_channel
    pub idle : (d.ide_channels hd.my_channel).disk_done_sem ≡ 0

  device_byte :
      (dev_no lba : ℕ)
      → dev_no < 2
      → lba ≤ max_lba
      → u8 (bit_or (bit_or (bit_or 0xa0 0x40) (if dev_no == 1 then 0x10 else 0)) (lba / 2 ^ 24))
        ≡ 0xe0 + 16 * dev_no + lba / 2 ^ 24
  device_byte zero lba h small = let top : lba / 16777216 ≡ 0 = omega arith in rw top refl
  device_byte (suc zero) lba h small = let top : lba / 16777216 ≡ 0 = omega arith in rw top refl
  device_byte (suc (suc n)) lba h small = absurd (omega arith)

  module _ (base : ℕ → ℕ) (hd : Disk) where
    pub select_disk-IsQuiet :
        (d : Driver State) → IsQuiet base hd d → IsQuiet base hd (select_disk c hd d)
    unfolding select_disk
    select_disk-IsQuiet d q = record {
      channel = q.channel;
      drive = q.drive;
      port = q.port;
      line = q.line;
      idle = q.idle;
    }

    -- select_sector and cmd_out write the command block.
    pub select_sector-cmd_out :
        (lba sec_cnt cmd : ℕ) (d : Driver State)
        → IsQuiet base hd d
        → lba ≤ max_lba
        → Returns (select_sector c hd lba sec_cnt d) (λ d1.
          ((cmd_out c hd cmd d1).device
            ≡ commanded (base hd.my_channel) hd.dev_no lba sec_cnt cmd d.device)
          × ((cmd_out c hd cmd d1).memory ≡ d.memory)
          × IsQuiet base hd (cmd_out c hd cmd d1)
          × (((cmd_out c hd cmd d1).ide_channels hd.my_channel).expection_interrupt ≡ true))
    unfolding select_sector cmd_out
    select_sector-cmd_out lba sec_cnt cmd d q small =
        let inside : leb lba max_lba ≡ true = ground arith in
        rw (inside, q.port, device_byte hd.dev_no lba q.drive small)
          (
            refl,
            refl,
            record {
              channel = q.channel;
              drive = q.drive;
              port = ground (arith, q.port);
              line = ground (arith, q.line);
              idle = ground (arith, q.idle);
            },
            ground arith,
          )

    -- The thread that waits gets on by the interrupt that it expects.
    pub await_disk-IsQuiet :
        (s0 : State) (d : Driver State)
        → IsQuiet base hd d
        → (d.ide_channels hd.my_channel).expection_interrupt ≡ true
        → interrupt hd.my_channel d.device ≡ some s0
        → Returns (await_disk c hd d) (λ d1.
          (d1.device ≡ (status (base hd.my_channel) s0).1)
          × (d1.memory ≡ d.memory)
          × IsQuiet base hd d1)
    unfolding await_disk intr_hd_handler
    await_disk-IsQuiet s0 d q e raised =
        rw (q.idle, raised) (ground (arith, q.port, q.line, q.idle, q.channel))

    -- The other channels are as they were.
    pub await_disk_others :
        (s0 : State) (d : Driver State)
        → IsQuiet base hd d
        → (d.ide_channels hd.my_channel).expection_interrupt ≡ true
        → interrupt hd.my_channel d.device ≡ some s0
        → Returns
            (await_disk c hd d)
            (λ d1. (ch : ℕ) → ch ≢ hd.my_channel → d1.ide_channels ch ≡ d.ide_channels ch)
    unfolding await_disk intr_hd_handler
    await_disk_others s0 d q e raised =
        rw (q.idle, raised) (ground (arith, q.port, q.line, q.idle, q.channel))

    -- Without an interrupt the thread waits for ever.
    pub await_disk_stuck :
        (d : Driver State)
        → IsQuiet base hd d
        → interrupt hd.my_channel d.device ≡ none
        → await_disk c hd d ≡ stuck
    unfolding await_disk
    await_disk_stuck d q silent = rw (q.idle, silent) refl

    wait_ready-Polls :
        (n rounds : ℕ) (s s' : State) (d : Driver State)
        → (d.ide_channels hd.my_channel).port_base ≡ base hd.my_channel
        → n < rounds
        → Polls (base hd.my_channel) n s s'
        → wait_ready c rounds hd (record d { device = s }) ≡ (true, record d { device = s' })
    unfolding wait_ready
    wait_ready-Polls n zero s s' d p h polls = absurd (omega arith)
    wait_ready-Polls n (suc rounds) s s' d p h (Polls.ready clear has e) = ground arith
    wait_ready-Polls (suc n) (suc rounds) s s' d p h (Polls.busy set later) = ground (
      arith,
      wait_ready-Polls n rounds (sleep 10 (status (base hd.my_channel) s).1) s' d p (omega arith)
          later,
    )

    pub busy_wait-Polls :
        (s' : State) (d : Driver State)
        → IsQuiet base hd d
        → Polls (base hd.my_channel) max_polls d.device s'
        → busy_wait c hd d ≡ (true, record d { device = s' })
    unfolding busy_wait
    busy_wait-Polls s' d q polls =
        wait_ready-Polls max_polls (max_polls + 1) d.device s' d q.port (omega arith) polls
