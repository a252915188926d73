-- ===== src/Tests/Directories.antt =====
-- Inodes and directories with the simulated disk controller. The inode 7 stands at 20000 and is
-- open; its first sector is 500, where one entry is in use.
use leeos.Base.{ℕ, ◌≡◌, refl, inl, [], ◌∷◌, some, true, ◌==◌, if◌then◌else◌, arith, ◌>>=◌, Returns}
use leeos.Interrupt.{intr_on}
use leeos.Lists.{Links}
use leeos.Lists.Walks.{find}
use leeos.Files.Space.{Machine, State, bytes}
use leeos.Files.Mounted.{Mounted}
use leeos.Files.{super_block_of}
use leeos.Files.Opened.{inode_open, inode_close}
use leeos.Files.Opened.Again.{IsOpen, inode_close-inode_open}
use leeos.Files.Directories.Insert.{sync_dir_entry}
use leeos.Files.Directories.Insert.Slot.{IsInserted, HasSector, sync_dir_entry-IsInserted}
use leeos.Tests.State.{globals, kernel, nobody_runs}
use leeos.Tests.Heap.{heap, heap_globals}
use leeos.Tests.Simulator.{Simulated, port_base, simulator, simulator-IsAta, slave, driver}

abbrev machine : Machine
machine = record {
  controller = simulator;
  globals = globals;
  heap_globals = heap_globals;
  others = nobody_runs;
  rounds = 1;
  fuel = 2;
}

-- The list at 9000.
abbrev one_open : Links
one_open = record {
  next = λ a. if a == 9000 then 20068 else if a == 20068 then 9008 else 0;
  prev = λ a. if a == 9008 then 20068 else if a == 20068 then 9000 else 0;
  intr = intr_on;
}

abbrev memory : ℕ → ℕ
memory a =
    if a == 20000
    then 7
    else if a == 20008
    then 1
    else if a == 20016
    then 0xf4
    else if a == 20017
    then 1
    else if a == 30000
    then 0x20
    else if a == 30001
    then 0x4e
    else 0

abbrev space : State machine
space = record {
  heap = record heap { kernel = record kernel { links = one_open } };
  driver = record driver {
    memory = memory;
    device = record { regs = λ port. 0; disks = λ ch drive b. if b == 256020 then 1 else 0 };
  };
}

abbrev part : Mounted
part = record {
  my_disk = slave;
  start_lba = 63;
  sector_counter = 20000;
  sb = super_block_of 63 20000;
  block_bits = 70000;
  block_bitmap_len = 512;
  inode_bits = 80000;
  inode_bitmap_len = 512;
  open_inodes = 9000;
}

space-IsOpen : IsOpen machine 9000 7 20068 (20068 ∷ []) space
unfolding find
space-IsOpen = record {
  list = record { chain = ground arith; distinct = ground arith };
  short = omega arith;
  found = refl;
  element = omega arith;
  used = omega arith;
  room = omega arith;
  byte0 = omega arith;
  byte1 = omega arith;
  byte2 = omega arith;
  byte3 = omega arith;
}

inode_close-inode_open_example :
    Returns (inode_open machine slave 100 9000 7 space >>= λ r. inode_close machine r.0 r.1) (λ f'.
      (f'.heap ≡ space.heap)
      × (f'.driver.device ≡ space.driver.device)
      × ((a : ℕ) → bytes f' a ≡ bytes space a))
inode_close-inode_open_example =
    inode_close-inode_open machine 9000 7 20068 (20068 ∷ []) slave 100 space space-IsOpen

space-HasSector :
    HasSector machine port_base Simulated.disks part 40000 30000 20000 31000 65536 500 1 space
space-HasSector = record {
  slot = record {
    ata = simulator-IsAta;
    quiet = record {
      channel = omega arith;
      drive = omega arith;
      port = refl;
      line = refl;
      idle = refl;
    };
    disk = omega arith;
    rounds = omega arith;
    buffer = omega arith;
    below = omega arith;
    source = omega arith;
    entries = omega arith;
    used = λ i lt. ground arith;
    free = refl;
    entry_apart = inl (omega arith);
    inode_apart = inl (omega arith);
  };
  dir = refl;
  size = refl;
  first = refl;
  some_ = omega arith;
  direct = refl;
  inode_apart = inl (omega arith);
  entry_apart = inl (omega arith);
}

sync_dir_entry-IsInserted_example :
    Returns (sync_dir_entry machine part 40000 30000 31000 65536 space) (λ r.
      (r.0 ≡ some true)
      × IsInserted machine port_base Simulated.disks part 40000 20000 31000 65536 500 1 space r.1)
sync_dir_entry-IsInserted_example =
    sync_dir_entry-IsInserted machine port_base Simulated.disks part 40000 30000 20000 31000 65536
      500 1 space space-HasSector
