-- ===== src/Ide/Setup/Identified.antt =====
-- What identify_disk of device/ide.c leaves on the channel of a disk that answers.
use Prim.Native.Nat.{bit_or}
use leeos.Base.{
  ℕ, zero, suc, ◌+◌, ◌*◌, ◌≤◌, ◌<◌, ◌≡◌, refl, sym, ap, ◌∙◌, true, ◌==◌, if◌then◌else◌, ltb, arith,
  Returns, Returns-bind, Returns-mono, some, ◌∙◌, ap,
}
use mathlib.Core.Path.{subst}
use leeos.Ide.{
  Controller, Disk, Driver, select_disk, cmd_out, await_disk, busy_wait, read_from_sector,
}
use leeos.Ide.Ports.{IsQuiet, Polls, max_polls, await_disk-IsQuiet, busy_wait-Polls}
use leeos.Ide.Identify.{identify_disk, swap_pairs_bytes, swap_pairs_bytes_swaps}

abbrev pub disk_of : (ch dev_no : ℕ) → Disk
disk_of ch dev_no = record { my_channel = ch; dev_no = dev_no }

-- The ports of the two channels.
abbrev pub base_of : ℕ → ℕ
base_of ch = if ch == 0 then 0x1f0 else 0x170

swap_pairs_bytes_returns :
    (n fuel : ℕ) (src buf : ℕ → ℕ)
    → n ≤ 127
    → n < fuel
    → Returns (swap_pairs_bytes fuel src buf (2 * n)) (λ out. Unit {0})
swap_pairs_bytes_returns n fuel src buf small f =
    Returns-mono (swap_pairs_bytes fuel src buf (2 * n)) _ (λ out. Unit {0})
      (swap_pairs_bytes_swaps src n small fuel buf f) (λ out h. tt)

module _ (c : Controller) (content : c.State → ℕ → ℕ → ℕ → ℕ) where
  open c use {State, out_byte, in_byte, in_multibyte, interrupt}

  -- The ATA standard on the command IDENTIFY DEVICE, for a disk that is there: it raises its
  -- interrupt, has data within a number of polls behind it, and changes nothing of what the disks
  -- hold.
  abbrev pub Identifies : Disk → Type 0
  Identifies hd =
      let port = base_of hd.my_channel in
      (s : State)
      → (s0 : State) × (s' : State) × (interrupt hd.my_channel
            (out_byte (port + 7) 0xec (out_byte (port + 6) (0xe0 + 16 * hd.dev_no) s))
          ≡ some s0)
        × Polls c port max_polls (in_byte (port + 7) s0).1 s'
        × (content (in_multibyte (port + 0) 256 s').1 ≡ content s)

  device_of :
      (dev_no : ℕ)
      → dev_no < 2
      → (if dev_no == 1 then bit_or (bit_or 0x40 0xa0) 0x10 else bit_or 0x40 0xa0)
        ≡ 0xe0 + 16 * dev_no
  device_of zero h = refl
  device_of (suc zero) h = refl
  device_of (suc (suc n)) h = absurd (omega arith)

  module _ (fuel hd_info buf : ℕ) (hd : Disk) where
    read_from_sector-IsQuiet :
        (d : Driver State)
        → IsQuiet c base_of hd d
        → IsQuiet c base_of hd (read_from_sector c hd hd_info 1 d)
    unfolding read_from_sector
    read_from_sector-IsQuiet d q = record {
      channel = q.channel;
      drive = q.drive;
      port = q.port;
      line = q.line;
      idle = q.idle;
    }

    pub identify_disk-IsQuiet :
        (d : Driver State)
        → IsQuiet c base_of hd d
        → Identifies hd
        → 20 < fuel
        → Returns
            (identify_disk c fuel hd_info hd buf d)
            (λ r. IsQuiet c base_of hd r.1 × (content r.1.device ≡ content d.device))
    unfolding identify_disk select_disk cmd_out read_from_sector
    identify_disk-IsQuiet d q law f =
        let d0 = cmd_out c hd 0xec (select_disk c hd d) in
        let q0 : IsQuiet c base_of hd d0 = record {
          channel = q.channel;
          drive = q.drive;
          port = ground (arith, q.port);
          line = ground (arith, q.line);
          idle = ground (arith, q.idle);
        } in
        let expecting : (d0.ide_channels hd.my_channel).expection_interrupt ≡ true = ground arith in
        let asked : d0.device
            ≡ out_byte (base_of hd.my_channel + 7) 0xec
                (out_byte (base_of hd.my_channel + 6) (0xe0 + 16 * hd.dev_no) d.device) =
          rw (q.port, device_of hd.dev_no q.drive) refl in
        let (s0, s', raised, polls, keeps) = law d.device in
        Returns-bind (await_disk c hd d0) _ _ _
          (await_disk-IsQuiet c base_of hd s0 d0 q0 expecting
            (ap (interrupt hd.my_channel) asked ∙ raised))
          (λ d1 (e1, m1, q1).
            let polled : busy_wait c hd d1 ≡ (true, record d1 { device = s' }) =
              busy_wait-Polls c base_of hd s' d1 q1
                (subst (λ s. Polls c (base_of hd.my_channel) max_polls s s') (sym e1) polls) in
            let d2 : Driver State = record d1 { device = s' } in
            let q2 : IsQuiet c base_of hd d2 = record {
              channel = q1.channel;
              drive = q1.drive;
              port = q1.port;
              line = q1.line;
              idle = q1.idle;
            } in
            let d3 = read_from_sector c hd hd_info 1 d2 in
            let src1 = λ (i : ℕ). d3.memory (hd_info + (20 + i)) in
            let src2 = λ (i : ℕ). d3.memory (hd_info + (54 + i)) in
            let dst1 = λ (i : ℕ). d3.memory (buf + i) in
            let ten : (◌≤◌ 10 127) × (10 < fuel) = omega arith in
            let twenty : ◌≤◌ 20 127 = omega arith in
            rw polled (
              Returns-bind (swap_pairs_bytes fuel src1 dst1 20) _ (λ sn. Unit {0}) _
                (swap_pairs_bytes_returns 10 fuel src1 dst1 ten.0 ten.1)
                (λ sn h.
                  let dst2 = λ (i : ℕ). if ltb i 64 then 0 else sn i in
                  Returns-bind (swap_pairs_bytes fuel src2 dst2 40) _ (λ model. Unit {0}) _
                    (swap_pairs_bytes_returns 20 fuel src2 dst2 twenty f)
                    (λ model h'. (
                      read_from_sector-IsQuiet d2 q2,
                      ap (λ p. content (in_multibyte (p + 0) 256 s').1) q1.port ∙ keeps,
                    )))))
