-- ===== src/Tests/Simulator.antt =====
-- A simulated disk controller, which meets what the driver relies on.
use leeos.Base.{
  ℕ, zero, suc, ◌+◌, ◌-◌, ◌*◌, ◌/◌, ◌%◌, ◌^◌, ◌<◌, ◌≡◌, refl, false, ◌&&◌, ◌==◌, if◌then◌else◌, ltb,
  leb, arith, some,
}
use leeos.Base.Memory.{update}
use leeos.Ide.{Controller, Disk, Driver, IdeChannel}
use leeos.Ide.Ports.{IsAta, IsQuiet, Polls, max_polls, commanded}

-- What is written to the ports, and the disks.
pub record Simulated : Type 0 where
  pub regs : ℕ → ℕ
  pub disks : ℕ → ℕ → ℕ → ℕ

abbrev pub port_base : ℕ → ℕ
port_base ch = if ch == 0 then 0x1f0 else 0x170

abbrev channel_of : ℕ → ℕ
channel_of port = if port == 0x1f0 then 0 else 1

abbrev address_of : ℕ → Simulated → ℕ
address_of port s =
    s.regs (port + 3)
    + 2 ^ 8 * s.regs (port + 4)
    + 2 ^ 16 * s.regs (port + 5)
    + 2 ^ 24 * (s.regs (port + 6) % 16)

abbrev drive_of : ℕ → Simulated → ℕ
drive_of port s = s.regs (port + 6) / 16 % 2

abbrev pub simulator : Controller
simulator = record {
  State = Simulated;
  out_byte = λ port value s. record s { regs = update s.regs port value };
  in_byte = λ port s. (0x48, s);
  in_multibyte = λ port words s.
      (λ i. s.disks (channel_of port) (drive_of port s) (512 * address_of port s + i), s);
  out_multibyte = λ port bytes words s. record s {
    disks = λ ch drive b.
        if (ch == channel_of port && drive == drive_of port s)
          && (leb (512 * address_of port s) b && ltb b (512 * address_of port s + 2 * words))
        then bytes (b - 512 * address_of port s)
        else s.disks ch drive b;
  };
  interrupt = λ ch s. some s;
  sleep = λ m_seconds s. s;
}

address_back :
    (address drive : ℕ)
    → address < 2 ^ 28
    → drive < 2
    → address % 256
        + 2 ^ 8 * (address / 2 ^ 8 % 256)
        + 2 ^ 16 * (address / 2 ^ 16 % 256)
        + 2 ^ 24 * ((0xe0 + 16 * drive + address / 2 ^ 24) % 16)
      ≡ address
address_back address drive h h' = omega arith

drive_back :
    (address drive : ℕ)
    → address < 2 ^ 28
    → drive < 2
    → (0xe0 + 16 * drive + address / 2 ^ 24) / 16 % 2 ≡ drive
drive_back address drive h h' = omega arith

-- The state after a command of the driver.
abbrev asked : ℕ → ℕ → ℕ → ℕ → Simulated → Simulated
asked ch drive address cmd s = commanded simulator (port_base ch) drive address 1 cmd s

simulator_reads :
    (s : Simulated) (ch drive address : ℕ)
    → ch < 2
    → drive < 2
    → address < 2 ^ 28
    → (i : ℕ)
    → (simulator.in_multibyte (port_base ch + 0) 256 (asked ch drive address 0x20 s)).0 i
      ≡ s.disks ch drive (512 * address + i)
simulator_reads s zero drive address h h' small i =
    rw (address_back address drive small h', drive_back address drive small h') refl
simulator_reads s (suc zero) drive address h h' small i =
    rw (address_back address drive small h', drive_back address drive small h') refl
simulator_reads s (suc (suc n)) drive address h h' small i = absurd (omega arith)

simulator_writes :
    (s : Simulated) (ch drive address : ℕ)
    → ch < 2
    → drive < 2
    → address < 2 ^ 28
    → (bytes : ℕ → ℕ) (ch' drive' b : ℕ)
    → (simulator.out_multibyte (port_base ch + 0) bytes 256 (asked ch drive address 0x30 s)).disks
        ch' drive' b
      ≡ (if (ch' == ch && drive' == drive) && (leb (512 * address) b && ltb b (512 * (address + 1)))
          then bytes (b - 512 * address)
          else s.disks ch' drive' b)
simulator_writes s zero drive address h h' small bytes ch' drive' b =
    rw (address_back address drive small h', drive_back address drive small h') (ground arith)
simulator_writes s (suc zero) drive address h h' small bytes ch' drive' b =
    rw (address_back address drive small h', drive_back address drive small h') (ground arith)
simulator_writes s (suc (suc n)) drive address h h' small bytes ch' drive' b = absurd (omega arith)

pub simulator-Polls : (port : ℕ) (s : Simulated) → Polls simulator port max_polls s s
simulator-Polls port s = Polls.ready refl (omega arith) refl

pub simulator-IsAta : IsAta simulator port_base Simulated.disks
simulator-IsAta = record {
  select_keeps = λ s ch value h. refl;
  reads = λ s ch drive address h h' small. (
    asked ch drive address 0x20 s,
    asked ch drive address 0x20 s,
    refl,
    simulator-Polls (port_base ch) (asked ch drive address 0x20 s),
    λ i within. simulator_reads s ch drive address h h' small i,
    refl,
  );
  writes = λ s ch drive address h h' small. (
    asked ch drive address 0x30 s,
    simulator-Polls (port_base ch) (asked ch drive address 0x30 s),
    λ bytes. (
      simulator.out_multibyte (port_base ch + 0) bytes 256 (asked ch drive address 0x30 s),
      refl,
      simulator_writes s ch drive address h h' small bytes,
    ),
  );
}

abbrev pub slave : Disk
slave = record { my_channel = 0; dev_no = 1 }

abbrev pub channels : ℕ → IdeChannel
channels ch = record {
  port_base = port_base ch;
  interrupt_number = 0x2e + ch;
  expection_interrupt = false;
  disk_done_sem = 0;
}

abbrev pub driver : Driver Simulated
driver = record {
  ide_channels = channels;
  memory = λ a. a % 251;
  device = record { regs = λ port. 0; disks = λ ch drive b. b % 7 };
}

pub slave-IsQuiet : IsQuiet simulator port_base slave driver
slave-IsQuiet = record {
  channel = omega arith;
  drive = omega arith;
  port = refl;
  line = refl;
  idle = refl;
}
