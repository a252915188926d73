-- ===== src/Ide.antt =====
-- device/ide.c and device/ide.h: the driver of the disks on the two ATA channels, with the port
-- accesses of kernel/io.h. The controllers are hardware, a parameter. The lock of a channel, which
-- ide_read and ide_write hold from end to end, is that of thread/sync.c and not part of this state.
pub mod Ports
pub mod Chunks
pub mod Transfer
pub mod RoundTrip
pub mod Timeout
pub mod Identify
pub mod Partitions
pub mod Setup
use Prim.Native.Nat.{bit_and, bit_or}
use leeos.Base.{
  ℕ, zero, suc, ◌+◌, ◌-◌, ◌*◌, ◌/◌, ◌^◌, Bool, true, false, not, ◌&&◌, ◌||◌, ◌==◌, if◌then◌else◌,
  ltb, leb, u8, u32, sub32, Run, ok, halted, stuck, ◌>>=◌, ◌>>◌, assert, Option, none, some,
}
use leeos.Base.Memory.{update}

-- What the processor does with the controllers: `outb`, `inb`, `rep insw` and `rep outsw` with the
-- count of words, whose bytes are numbered; `interrupt` is what happens until the controller of a
-- channel raises its interrupt, `none` if it raises none, and `sleep` while the driver sleeps.
pub record Controller : Type 1 where
  pub State : Type 0
  pub out_byte : ℕ → ℕ → State → State
  pub in_byte : ℕ → State → ℕ × State
  pub in_multibyte : ℕ → ℕ → State → (ℕ → ℕ) × State
  pub out_multibyte : ℕ → (ℕ → ℕ) → ℕ → State → State
  pub interrupt : ℕ → State → Option State
  pub sleep : ℕ → State → State

-- `struct ide_channel`, less its name, its lock and its disks; the semaphore by its value.
pub record IdeChannel : Type 0 where
  pub port_base : ℕ
  pub interrupt_number : ℕ
  pub expection_interrupt : Bool
  pub disk_done_sem : ℕ

-- `struct disk`, less its name and its partitions; the channel by its index in `ide_channels`.
pub record Disk : Type 0 where
  pub my_channel : ℕ
  pub dev_no : ℕ

-- The driver's channels, the bytes of the memory, and the controllers.
pub record Driver (S : Type 0) : Type 0 where
  pub ide_channels : ℕ → IdeChannel
  pub memory : ℕ → ℕ
  pub device : S

abbrev pub max_lba : ℕ
max_lba = 80 * 1024 * 1024 / 512 - 1

abbrev pub cmd_identify : ℕ
cmd_identify = 0xec

abbrev pub cmd_read_sector : ℕ
cmd_read_sector = 0x20

abbrev pub cmd_write_sector : ℕ
cmd_write_sector = 0x30

-- 256 sectors are passed as 0.
abbrev pub bytes_cnt : ℕ → ℕ
bytes_cnt sec_cnt = if sec_cnt == 0 then 256 * 512 else sec_cnt * 512

module _ (c : Controller) where
  open c use {State, out_byte, in_byte, in_multibyte, out_multibyte, interrupt, sleep}

  -- `reg_status(channel)` and the registers before it, by their offset.
  abbrev pub reg : ℕ → Disk → Driver State → ℕ
  reg offset hd d = (d.ide_channels hd.my_channel).port_base + offset

  unfoldable pub select_disk : Disk → Driver State → Driver State
  select_disk hd d =
      let reg_device = bit_or 0x40 0xa0 in
      let value = if hd.dev_no == 1 then bit_or reg_device 0x10 else reg_device in
      record d { device = out_byte (reg 6 hd d) value d.device }

  unfoldable pub select_sector : Disk → ℕ → ℕ → Driver State → Run (Driver State)
  select_sector hd lba sec_cnt d = do
    assert (leb lba max_lba)
    let s1 = out_byte (reg 2 hd d) sec_cnt d.device
    let s2 = out_byte (reg 3 hd d) (u8 lba) s1
    let s3 = out_byte (reg 4 hd d) (u8 (lba / 2 ^ 8)) s2
    let s4 = out_byte (reg 5 hd d) (u8 (lba / 2 ^ 16)) s3
    let drive = if hd.dev_no == 1 then 0x10 else 0
    let last_8_bits = u8 (bit_or (bit_or (bit_or 0xa0 0x40) drive) (lba / 2 ^ 24))
    ok (record d { device = out_byte (reg 6 hd d) last_8_bits s4 })

  unfoldable pub cmd_out : Disk → ℕ → Driver State → Driver State
  cmd_out hd cmd d =
      let channel = d.ide_channels hd.my_channel in
      let expecting = record channel { expection_interrupt = true } in
      record d {
        ide_channels = update d.ide_channels hd.my_channel expecting;
        device = out_byte (reg 7 hd d) cmd d.device;
      }

  -- `insw` stores the bytes from the buffer's address on.
  unfoldable pub read_from_sector : Disk → ℕ → ℕ → Driver State → Driver State
  read_from_sector hd buf sec_cnt d =
      let words = bytes_cnt sec_cnt / 2 in
      let (bytes, s) = in_multibyte (reg 0 hd d) words d.device in
      record d {
        memory = λ a. if leb buf a && ltb a (buf + 2 * words) then bytes (a - buf) else d.memory a;
        device = s;
      }

  unfoldable pub write_to_sector : Disk → ℕ → ℕ → Driver State → Driver State
  write_to_sector hd buf sec_cnt d =
      let words = bytes_cnt sec_cnt / 2 in
      record d { device = out_multibyte (reg 0 hd d) (λ i. d.memory (buf + i)) words d.device }

  -- The rounds that are left.
  unfoldable pub wait_ready : ℕ → Disk → Driver State → Bool × Driver State
  wait_ready zero hd d = (false, d)
  wait_ready (suc rounds) hd d =
      let (status, s) = in_byte (reg 7 hd d) d.device in
      let (again, s') = in_byte (reg 7 hd d) s in
      let later = wait_ready rounds hd (record d { device = sleep 10 s }) in
      if bit_and status 0x80 == 0
      then (not (bit_and again 0x8 == 0), record d { device = s' })
      else later

  -- `time_limit -= 10 >= 0` takes the value of the comparison, 1, from time_limit, and the loop
  -- goes on while what is left is not 0.
  unfoldable pub busy_wait : Disk → Driver State → Bool × Driver State
  busy_wait hd d = wait_ready (30 * 1000 - 1) hd d

  -- sem_up asserts that the semaphore's value is 0 and leaves 1.
  unfoldable pub intr_hd_handler : ℕ → Driver State → Run (Driver State)
  intr_hd_handler irq_no d = do
    assert (irq_no == 0x2e || irq_no == 0x2f)
    let index = irq_no - 0x2e
    let channel = d.ide_channels index
    let up = record channel { expection_interrupt = false; disk_done_sem = 1 }
    let expected : Run (Driver State) = (do
      assert (channel.disk_done_sem == 0)
      ok (record d {
        ide_channels = update d.ide_channels index up;
        device = (in_byte (channel.port_base + 7) d.device).1;
      }))
    if channel.expection_interrupt then expected else ok d

  -- `sem_down(&channel->disk_done_sem)`: the value is taken, if there is one; else the thread is
  -- blocked until the handler of the channel's interrupt puts one. `stuck`: it does not. Where one
  -- is left, an ASSERT fails.
  unfoldable pub await_disk : Disk → Driver State → Run (Driver State)
  await_disk hd d = do
    let channel = d.ide_channels hd.my_channel
    let woken : Run (Driver State) = elim (interrupt hd.my_channel d.device) [
      | none ↦ stuck
      | some s ↦ intr_hd_handler channel.interrupt_number (record d { device = s })
    ]
    d1 ← (if channel.disk_done_sem == 0 then woken else ok d)
    let channel1 = d1.ide_channels hd.my_channel
    let down = record channel1 { disk_done_sem = channel1.disk_done_sem - 1 }
    let taken : Run (Driver State) = (do
      assert (channel1.disk_done_sem - 1 == 0)
      ok (record d1 { ide_channels = update d1.ide_channels hd.my_channel down }))
    if channel1.disk_done_sem == 0 then stuck else taken

  -- EXCEPTION_REPORT does not return.
  abbrev pub report_unless : Bool × Driver State → Run (Driver State)
  report_unless (true, d) = ok d
  report_unless (false, d) = halted

  -- One round of the loop of ide_read, and of ide_write; `sec_op` is passed on as a byte.
  unfoldable pub read_chunk : Disk → ℕ → ℕ → ℕ → Driver State → Run (Driver State)
  read_chunk hd lba buf sec_op d = do
    d1 ← select_sector hd lba (u8 sec_op) d
    d2 ← await_disk hd (cmd_out hd cmd_read_sector d1)
    d3 ← report_unless (busy_wait hd d2)
    ok (read_from_sector hd buf (u8 sec_op) d3)

  unfoldable pub write_chunk : Disk → ℕ → ℕ → ℕ → Driver State → Run (Driver State)
  write_chunk hd lba buf sec_op d = do
    d1 ← select_sector hd lba (u8 sec_op) d
    d2 ← report_unless (busy_wait hd (cmd_out hd cmd_write_sector d1))
    await_disk hd (write_to_sector hd buf (u8 sec_op) d2)

  -- The loop of both, on fuel: every round moves a sector or more.
  module _ (chunk : ℕ → ℕ → ℕ → Driver State → Run (Driver State)) (lba buf sec_cnt : ℕ) where
    unfoldable pub transfer : ℕ → ℕ → Driver State → Run (Driver State)
    transfer zero sec_done d = stuck
    transfer (suc fuel) sec_done d =
        let left = sub32 sec_cnt sec_done in
        let sec_op = if leb 256 left then 256 else left in
        let round = chunk (u32 (lba + sec_done)) (u32 (buf + 512 * sec_done)) sec_op d in
        let rest = round >>= transfer fuel (u32 (sec_done + sec_op)) in
        if ltb sec_done sec_cnt then rest else ok d

  unfoldable pub ide_read : ℕ → Disk → ℕ → ℕ → ℕ → Driver State → Run (Driver State)
  ide_read fuel hd lba buf sec_cnt d = do
    assert (leb lba max_lba)
    assert (ltb 0 sec_cnt)
    transfer (read_chunk hd) lba buf sec_cnt fuel 0 (select_disk hd d)

  unfoldable pub ide_write : ℕ → Disk → ℕ → ℕ → ℕ → Driver State → Run (Driver State)
  ide_write fuel hd lba buf sec_cnt d = do
    assert (leb lba max_lba)
    assert (ltb 0 sec_cnt)
    transfer (write_chunk hd) lba buf sec_cnt fuel 0 (select_disk hd d)
