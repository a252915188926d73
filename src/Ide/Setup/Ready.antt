-- ===== src/Ide/Setup/Ready.antt =====
-- What ide_init of device/ide.c leaves for the disks of one channel: nothing under way, which
-- ide_read and ide_write rely on, and the list of the partitions.
use leeos.Base.{
  ℕ, zero, suc, ◌+◌, ◌≤◌, ◌<◌, ◌≡◌, refl, sym, ap, ◌∙◌, true, ltb, arith, [], ◌++◌, length, Returns,
  Returns-bind, Returns-mono,
}
use leeos.Base.Memory.{update}
use mathlib.Core.Path.{subst}
use leeos.Heap.{Heap}
use leeos.Segments.{register_handler}
use leeos.Ide.{Driver}
use leeos.Ide.Ports.{IsAta, IsQuiet}
use leeos.Ide.Identify.{identify_disk}
use leeos.Ide.Partitions.{Scan, partition_scan, partition_table}
use leeos.Ide.Partitions.Primary.{HasNoExtended, HasBlock, prim_tags, used, partition_scan-IsListed}
use leeos.Files.Space.{Machine, State}
use leeos.Ide.Setup.Identified.{disk_of, base_of, Identifies, identify_disk-IsQuiet}
use leeos.Ide.Setup.{
  SetupState, ready_channel, channel_cnt_of, scan_disk, init_disk, init_channel, init_channels,
  ide_init,
}

module _ (c : Machine) (content : c.controller.State → ℕ → ℕ → ℕ → ℕ) where
  open c use {controller, fuel}

  abbrev pub Quiet : (dev_no : ℕ) → State c → Type 0
  Quiet dev_no f = IsQuiet controller base_of (disk_of 0 dev_no) f.driver

  -- The table in the first sector of the second disk.
  abbrev pub table_of : controller.State → ℕ → ℕ
  table_of device i = content device 0 1 i

  sibling : (dev_no other : ℕ) (f : State c) → other < 2 → Quiet dev_no f → Quiet other f
  sibling dev_no other f small q = record {
    channel = q.channel;
    drive = small;
    port = q.port;
    line = q.line;
    idle = q.idle;
  }

  -- What the hardware and the heap offer: both disks answer to IDENTIFY DEVICE, sys_malloc has a
  -- block for a sector, and the second disk has at most three partitions, none of them extended.
  pub record HasDisks (bs : ℕ) (given : Heap) (f : State c) : Type 0 where
    pub ata : IsAta controller base_of content
    pub first : Identifies controller content (disk_of 0 0)
    pub second : Identifies controller content (disk_of 0 1)
    pub block : HasBlock c (disk_of 0 1) bs given f.heap
    pub plain : HasNoExtended (partition_table (table_of f.driver.device))
    pub few : length (used (partition_table (table_of f.driver.device))) < 4
    pub rounds : 20 < fuel

  module _ (hd_info buf handler bs : ℕ) (given : Heap) where
    init_disk_first :
        (s : SetupState c hd_info buf handler)
        → HasDisks bs given s.space
        → Quiet 0 s.space
        → Returns (init_disk c hd_info buf handler (disk_of 0 0) s) (λ s'.
          Quiet 0 s'.space
          × (content s'.space.driver.device ≡ content s.space.driver.device)
          × (s'.space.heap ≡ s.space.heap)
          × (s'.scan.primary_idx ≡ 0)
          × (s'.scan.partition_list ≡ s.scan.partition_list))
    unfolding init_disk scan_disk
    init_disk_first s h q =
        Returns-bind (identify_disk controller fuel hd_info (disk_of 0 0) buf s.space.driver) _ _ _
          (identify_disk-IsQuiet controller content fuel hd_info buf (disk_of 0 0) s.space.driver q
            h.first h.rounds)
          (λ r (quiet, keeps). (quiet, keeps, refl, refl, refl))

    -- The scan in any state with the disks' content and the heap of `f`.
    scan_second :
        (rounds : ℕ) (s : Scan) (f g : State c)
        → 0 < rounds
        → HasDisks bs given f
        → content g.driver.device ≡ content f.driver.device
        → g.heap ≡ f.heap
        → Quiet 1 g
        → s.primary_idx ≡ 0
        → Returns (partition_scan c (disk_of 0 1) rounds 0 (s, g)) (λ r.
          Quiet 1 r.1
          × (r.1.heap ≡ given)
          × (r.0.partition_list
              ≡ s.partition_list
                ++ prim_tags (disk_of 0 1) 0 (used (partition_table (table_of f.driver.device)))))
    scan_second zero s f g some_ h same heap q none = absurd (omega arith)
    scan_second (suc rounds) s f g some_ h same heap q none =
        let hd = disk_of 0 1 in
        let table : table_of g.driver.device ≡ table_of f.driver.device = ap (λ t. t 0 1) same in
        let entries = λ (t : ℕ → ℕ). used (partition_table t) in
        Returns-mono (partition_scan c hd (suc rounds) 0 (s, g)) _ _
          (partition_scan-IsListed c hd base_of content bs given g rounds s h.ata q
            (subst (HasBlock c hd bs given) (sym heap) h.block)
            (subst (λ t. HasNoExtended (partition_table t)) (sym table) h.plain)
            (subst (λ t. s.primary_idx + length (entries t) < 4) (sym table)
              (omega (arith, none, h.few)))
            (omega (arith, h.rounds)))
          (λ r scanned. (
            scanned.quiet,
            scanned.heap,
            scanned.listed.listed
                ∙ ap (λ n. s.partition_list ++ prim_tags hd n (entries (table_of g.driver.device)))
                    none
                ∙ ap (λ t. s.partition_list ++ prim_tags hd 0 (entries t)) table,
          ))

    init_disk_second :
        (s : SetupState c hd_info buf handler) (f : State c)
        → HasDisks bs given f
        → content s.space.driver.device ≡ content f.driver.device
        → s.space.heap ≡ f.heap
        → Quiet 1 s.space
        → s.scan.primary_idx ≡ 0
        → Returns (init_disk c hd_info buf handler (disk_of 0 1) s) (λ s'.
          Quiet 1 s'.space
          × (s'.space.heap ≡ given)
          × (s'.scan.partition_list
              ≡ s.scan.partition_list
                ++ prim_tags (disk_of 0 1) 0 (used (partition_table (table_of f.driver.device)))))
    unfolding init_disk scan_disk
    init_disk_second s f h same heap q none =
        let hd = disk_of 0 1 in
        Returns-bind (identify_disk controller fuel hd_info hd buf s.space.driver) _ _ _
          (identify_disk-IsQuiet controller content fuel hd_info buf hd s.space.driver q h.second
            h.rounds)
          (λ r (quiet, keeps).
            let before = s.scan in
            let own : Scan = record before {
              prim_parts = s.prim_parts hd;
              logic_parts = s.logic_parts hd;
            } in
            let at = s.space in
            let g : State c = record at { driver = r.1 } in
            Returns-bind (partition_scan c hd fuel 0 (own, g)) _ _ _
              (scan_second fuel own f g (omega (arith, h.rounds)) h (keeps ∙ same) heap quiet none)
              (λ after p. p))

    first_channel-Idle :
        (s : SetupState c hd_info buf handler)
        → HasDisks bs given s.space
        → Returns (init_channel c hd_info buf handler 0 s) (λ s'.
          Quiet 0 s'.space
          × Quiet 1 s'.space
          × (s'.space.heap ≡ given)
          × (s'.scan.partition_list
              ≡ s.scan.partition_list
                ++ prim_tags
                    (disk_of 0 1)
                    0
                    (used (partition_table (table_of s.space.driver.device)))))
    unfolding init_channel
    first_channel-Idle s h =
        let f = s.space in
        let d = f.driver in
        let channel = ready_channel 0 (d.ide_channels 0) in
        let d1 : Driver controller.State = record d {
          ide_channels = update d.ide_channels 0 channel;
        } in
        let f1 : State c = record f { driver = d1 } in
        let s1 : SetupState c hd_info buf handler = record s {
          space = f1;
          interrupts = register_handler channel.interrupt_number handler s.interrupts;
        } in
        let h1 : HasDisks bs given f1 = record {
          ata = h.ata;
          first = h.first;
          second = h.second;
          block = h.block;
          plain = h.plain;
          few = h.few;
          rounds = h.rounds;
        } in
        let q1 : Quiet 0 f1 = record {
          channel = omega arith;
          drive = omega arith;
          port = refl;
          line = refl;
          idle = refl;
        } in
        Returns-bind (init_disk c hd_info buf handler (disk_of 0 0) s1) _ _ _
          (init_disk_first s1 h1 q1)
          (λ s2 (q2, keeps, heap, none, listed).
            Returns-mono (init_disk c hd_info buf handler (disk_of 0 1) s2) _ _
              (init_disk_second s2 f1 h1 keeps heap (sibling 0 1 s2.space (omega arith) q2) none)
              (λ s3 (q3, given_, listed').
                (sibling 1 0 s3.space (omega arith) q3, q3, given_, rw (← listed) listed')))

    -- With one or two disks by the number of the BIOS, a controller that keeps to the ATA
    -- standard on commands of one sector, both disks of the first channel answering to
    -- IDENTIFY DEVICE, in the first sector of the second disk no extended partition and at
    -- most three partitions, where sys_malloc has a block for a sector, which ends at or
    -- below 2^32 and which sys_free takes back, and with fuel for 21 rounds, ide_init,
    -- which reads that sector by ide_read, returns with nothing under way on either disk of
    -- the channel, as ide_read and ide_write require, with the heap as that sys_free leaves
    -- it, and with the partitions of the second disk, in their order, as the list of
    -- partitions.
    pub ide_init-Idle :
        (s : SetupState c hd_info buf handler)
        → HasDisks bs given s.space
        → 0 < s.space.driver.memory 0x475
        → s.space.driver.memory 0x475 ≤ 2
        → Returns (ide_init c hd_info buf handler s) (λ s'.
          Quiet 0 s'.space
          × Quiet 1 s'.space
          × (s'.space.heap ≡ given)
          × (s'.scan.partition_list
              ≡ prim_tags
                  (disk_of 0 1)
                  0
                  (used (partition_table (table_of s.space.driver.device)))))
    unfolding ide_init init_channels
    ide_init-Idle s h some_ two =
        let scan = s.scan in
        let start : SetupState c hd_info buf handler = record s {
          scan = record scan { partition_list = [] };
        } in
        let one : channel_cnt_of (s.space.driver.memory 0x475) ≡ 1 = omega arith in
        let yes_ : ltb 0 (s.space.driver.memory 0x475) ≡ true = ground arith in
        rw (yes_, one)
          (Returns-bind (init_channel c hd_info buf handler 0 start) _ _ _
            (first_channel-Idle start h) (λ s1 p. p))
