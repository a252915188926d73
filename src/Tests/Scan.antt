-- ===== src/Tests/Scan.antt =====
-- The second disk of the first channel with two partitions, in the heap with a free block of 512.
use leeos.Base.{
  ℕ, ◌+◌, ◌*◌, ◌≡◌, refl, [], ◌==◌, if◌then◌else◌, arith, Run, ok, halted, stuck, ◌>>=◌, Returns,
}
use leeos.Heap.{
  Heap, find_desc, block_to_arena, take_block, malloc_small, sys_malloc, sys_free, free_small,
}
use leeos.Sync.{lock_acquire, sem_down, lock_release, sem_up}
use leeos.Interrupt.{intr_disable, intr_set_status}
use leeos.Lists.{list_append, list_insert_before, list_empty, list_pop, list_remove}
use leeos.Ide.Partitions.{Scan, partition_scan, partition_table}
use leeos.Ide.Partitions.Primary.{HasBlock, IsScanned, prim_tags, used, partition_scan-IsListed}
use leeos.Ide.Setup.{Setup, ide_init}
use leeos.Ide.Setup.Identified.{base_of, disk_of}
use leeos.Ide.Setup.Ready.{HasDisks, Quiet, table_of, ide_init-Idle}
use leeos.Files.Space.{Machine, State}
use leeos.Files.Opened.Blocks.{heap_malloc, heap_free}
use leeos.Tests.Reopened.{machine, two_blocks}
use leeos.Tests.Simulator.{Simulated, simulator, simulator-IsAta, simulator-Polls, slave, driver}

abbrev patient : Machine
patient = record machine { fuel = 21 }

-- Two entries of the table are in use.
abbrev space : State patient
space = record {
  heap = two_blocks;
  driver = record driver {
    memory = λ a. if a == 0x475 then 2 else 0;
    device = record {
      regs = λ port. 0;
      disks = λ ch drive b.
          if b == 450 then 0x83 else if b == 482 then 0x83 else if b == 454 then 63 else 0;
    };
  };
}

abbrev no_parts : Scan
no_parts = record {
  prim_parts = λ i. record { start_lba = 0; sector_counter = 0; my_disk = slave };
  logic_parts = λ i. record { start_lba = 0; sector_counter = 0; my_disk = slave };
  primary_idx = 0;
  logic_idx = 0;
  extra_lba_base = 0;
  partition_list = [];
}

abbrev heap_of : Run Heap → Heap
heap_of (ok h) = h
heap_of halted = two_blocks
heap_of stuck = two_blocks

-- The heap when the block has been given back.
abbrev given : Heap
given = heap_of (heap_malloc patient 512 two_blocks >>= λ b. heap_free patient b.0 b.1)

space-HasBlock : HasBlock patient (disk_of 0 1) 0x30000c given two_blocks
unfolding sys_malloc malloc_small take_block find_desc block_to_arena sys_free free_small
    lock_acquire sem_down list_empty list_pop lock_release sem_up list_remove intr_disable
    intr_set_status list_append list_insert_before
space-HasBlock = record { block = (refl, refl); below = omega arith }

partition_scan-IsListed_example :
    Returns
      (partition_scan patient (disk_of 0 1) 1 0 (no_parts, space))
      (IsScanned patient (disk_of 0 1) base_of Simulated.disks 0x30000c given space no_parts)
partition_scan-IsListed_example =
    partition_scan-IsListed patient (disk_of 0 1) base_of Simulated.disks 0x30000c given space 0
      no_parts simulator-IsAta
      (record { channel = omega arith; drive = omega arith; port = refl; line = refl; idle = refl })
      space-HasBlock (ground arith) (omega arith) (omega arith)

abbrev two_disks : Setup Simulated
two_disks = record {
  space = space;
  interrupts = record {
    idt = λ i. record {
      code_offset_low_word = 0;
      selector = 0;
      n_count = 0;
      attribute = 0;
      code_offset_high_word = 0;
    };
    exception_funcptr_table = λ i. 0;
  };
  scan = no_parts;
  prim_parts = λ hd i. record { start_lba = 0; sector_counter = 0; my_disk = slave };
  logic_parts = λ hd i. record { start_lba = 0; sector_counter = 0; my_disk = slave };
  printed = [];
}

abbrev identified : (dev_no : ℕ) → Simulated → Simulated
identified dev_no s =
    simulator.out_byte (0x1f0 + 7) 0xec (simulator.out_byte (0x1f0 + 6) (0xe0 + 16 * dev_no) s)

space-HasDisks : HasDisks patient Simulated.disks 0x30000c given space
space-HasDisks = record {
  ata = simulator-IsAta;
  first = λ s. (identified 0 s, identified 0 s, refl, simulator-Polls 0x1f0 (identified 0 s), refl);
  second =
      λ s. (identified 1 s, identified 1 s, refl, simulator-Polls 0x1f0 (identified 1 s), refl);
  block = space-HasBlock;
  plain = ground arith;
  few = omega arith;
  rounds = omega arith;
}

ide_init-Idle_example : Returns (ide_init patient 40000 41000 9999 two_disks) (λ s'.
    Quiet patient Simulated.disks 0 s'.space
    × Quiet patient Simulated.disks 1 s'.space
    × (s'.space.heap ≡ given)
    × (s'.scan.partition_list
        ≡ prim_tags
            (disk_of 0 1)
            0
            (used (partition_table (table_of patient Simulated.disks space.driver.device)))))
ide_init-Idle_example =
    ide_init-Idle patient Simulated.disks 40000 41000 9999 0x30000c given two_disks space-HasDisks
      (omega arith) (omega arith)
