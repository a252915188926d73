-- ===== src/Tests/Reopened.antt =====
-- An inode that is written to the disk and opened again, with the simulated disk controller. The
-- inode 7 stands at 5000; the heap has one free block of 128 bytes and one of 512.
use leeos.Base.{◌==◌, if◌then◌else◌}
use leeos.Interrupt.{intr_off}
use leeos.Lists.{Links}
use leeos.Heap.{Heap}
use leeos.Files.Space.{Machine, State, links}
use leeos.Files.Inodes.{Volume}
use leeos.Tests.State.{kernel, globals, nobody_runs}
use leeos.Tests.Heap.{heap, heap_globals}
use leeos.Tests.Simulator.{simulator, slave, driver}

abbrev pub machine : Machine
machine = record {
  controller = simulator;
  globals = globals;
  heap_globals = heap_globals;
  others = nobody_runs;
  rounds = 1;
  fuel = 5;
}

-- The lists of free blocks at 6080 and 6128, of open inodes at 9000, of waiters at 3008.
abbrev free_blocks : Links
free_blocks = record {
  next = λ a.
      if a == 6080
      then 0x20000c
      else if a == 0x20000c
      then 6088
      else if a == 6128
      then 0x30000c
      else if a == 0x30000c
      then 6136
      else if a == 3008
      then 3016
      else if a == 9000
      then 9008
      else 0;
  prev = λ a.
      if a == 6088
      then 0x20000c
      else if a == 0x20000c
      then 6080
      else if a == 6136
      then 0x30000c
      else if a == 0x30000c
      then 6128
      else if a == 3016
      then 3008
      else if a == 9008
      then 9000
      else 0;
  intr = intr_off;
}

abbrev pub two_blocks : Heap
two_blocks = record heap {
  kernel = record kernel { links = free_blocks };
  mem_desc_addr = λ a. if a == 0x200000 then 6072 else 6120;
  cnt = λ a. 2;
  block_size = λ d.
      if d == 6000
      then 16
      else if d == 6024
      then 32
      else if d == 6048
      then 64
      else if d == 6072
      then 128
      else if d == 6096
      then 256
      else if d == 6120
      then 512
      else 1024;
  blocks_per_arena = λ d. if d == 6072 then 31 else 7;
}

abbrev space : State machine
space = record {
  heap = two_blocks;
  driver = record driver { memory = λ a. if a == 5000 then 7 else if a == 5004 then 99 else 0 };
}

abbrev volume : Volume
volume = record { my_disk = slave; start_lba = 63; sector_counter = 20000; inode_table_lba = 100 }
