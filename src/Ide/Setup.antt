-- ===== src/Ide/Setup.antt =====
-- ide_init of device/ide.c: the channels, and what each disk says of itself. The names of channels
-- and disks are left out, and the locks of the channels, which lock_init makes free.
pub mod Ready
pub mod Identified
use leeos.Base.{
  ℕ, zero, suc, ◌+◌, ◌-◌, ◌*◌, ◌/◌, false, ◌==◌, if◌then◌else◌, ltb, u8, u32, List, [], ◌∷◌, ◌++◌,
  Run, ok, ◌>>=◌, ◌>>◌, assert,
}
use leeos.Base.Memory.{update}
use leeos.Segments.{Interrupts, register_handler}
use leeos.Ide.{Disk, IdeChannel}
use leeos.Files.Space.{Machine, Space}
use leeos.Ide.Identify.{Identity, identify_disk}
use leeos.Ide.Partitions.{Partition, Scan, partition_scan}

-- The heap with the driver, the handlers, the partitions of each disk and the variables of the scan,
-- and what is printed of the disks. In `scan` stand the partitions of the disk that was scanned last.
pub record Setup (S : Type 0) : Type 0 where
  pub space : Space S
  pub interrupts : Interrupts
  pub scan : Scan
  pub prim_parts : Disk → ℕ → Partition
  pub logic_parts : Disk → ℕ → Partition
  pub printed : List Identity

-- `channel_cnt`: the macro DIV_ROUND_UP, in a byte.
abbrev pub channel_cnt_of : (hd_cnt : ℕ) → ℕ
channel_cnt_of hd_cnt = u8 ((hd_cnt + 2 - 1) / 2)

-- The channel with its fields set; there is no case for a third channel.
abbrev pub ready_channel : ℕ → IdeChannel → IdeChannel
ready_channel idx channel = record {
  port_base = if idx == 0 then 0x1f0 else if idx == 1 then 0x170 else channel.port_base;
  interrupt_number =
      if idx == 0 then 0x20 + 14 else if idx == 1 then 0x20 + 15 else channel.interrupt_number;
  expection_interrupt = false;
  disk_done_sem = 0;
}

-- `hd_info` and `buf` are local arrays of identify_disk; `handler` is the address of
-- intr_hd_handler.
module _ (c : Machine) (hd_info buf handler : ℕ) where
  open c use {controller, fuel}

  abbrev pub SetupState : Type 0
  SetupState = Setup controller.State

  -- The first disk of a channel is not scanned. `extra_lba_base` is not reset.
  unfoldable pub scan_disk : Disk → SetupState → Run SetupState
  scan_disk hd s = do
    let before = s.scan
    let own = record before { prim_parts = s.prim_parts hd; logic_parts = s.logic_parts hd }
    r ← (if hd.dev_no == 0 then ok (own, s.space) else partition_scan c hd fuel 0 (own, s.space))
    let after = r.0
    let is_it = λ (d : Disk). if d.my_channel == hd.my_channel then d.dev_no == hd.dev_no else false
    ok (record s {
      space = r.1;
      scan = record after { primary_idx = 0; logic_idx = 0 };
      prim_parts = λ d. if is_it d then after.prim_parts else s.prim_parts d;
      logic_parts = λ d. if is_it d then after.logic_parts else s.logic_parts d;
    })

  unfoldable pub init_disk : Disk → SetupState → Run SetupState
  init_disk hd s = do
    let f = s.space
    r ← identify_disk controller fuel hd_info hd buf f.driver
    scan_disk hd (record s { space = record f { driver = r.1 }; printed = s.printed ++ (r.0 ∷ []) })

  unfoldable pub init_channel : ℕ → SetupState → Run SetupState
  init_channel idx s = do
    let f = s.space
    let d = f.driver
    let channel = ready_channel idx (d.ide_channels idx)
    let d1 = record d { ide_channels = update d.ide_channels idx channel }
    let s1 = record s {
      space = record f { driver = d1 };
      interrupts = register_handler channel.interrupt_number handler s.interrupts;
    }
    s2 ← init_disk (record { my_channel = idx; dev_no = 0 }) s1
    init_disk (record { my_channel = idx; dev_no = 1 }) s2

  -- The channels that are left, from the index on.
  unfoldable pub init_channels : (left idx : ℕ) → SetupState → Run SetupState
  init_channels zero idx s = ok s
  init_channels (suc left) idx s = do s1 ← init_channel idx s; init_channels left (u8 (idx + 1)) s1

  -- The BIOS leaves the number of disks at 0x475.
  unfoldable pub ide_init : SetupState → Run SetupState
  ide_init s = do
    let f = s.space
    let hd_cnt = f.driver.memory 0x475
    assert (ltb 0 hd_cnt)
    let scan = s.scan
    init_channels (channel_cnt_of hd_cnt) 0
        (record s { scan = record scan { partition_list = [] } })
