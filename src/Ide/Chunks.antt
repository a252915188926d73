-- ===== src/Ide/Chunks.antt =====
-- One round of the loops of ide_read and ide_write in device/ide.c.
use leeos.Base.{
  ℕ, ◌+◌, ◌-◌, ◌*◌, ◌≤◌, ◌<◌, ◌≡◌, ap, sym, ◌∙◌, true, ◌&&◌, ◌==◌, if◌then◌else◌, ltb, leb, arith,
  some, Returns, Returns-bind, Returns-mono,
}
use mathlib.Core.Path.{subst}
use leeos.Ide.{
  Controller, Disk, Driver, max_lba, cmd_out, busy_wait, select_sector, await_disk,
  read_from_sector, write_to_sector, read_chunk, write_chunk,
}
use leeos.Ide.Ports.{
  IsAta, IsQuiet, max_polls, Polls, select_sector-cmd_out, await_disk-IsQuiet, busy_wait-Polls,
}

module _ (c : Controller) (base : ℕ → ℕ) (content : c.State → ℕ → ℕ → ℕ → ℕ) (hd : Disk) where
  open c use {State}

  -- `n` sectors from the address on are in the memory from `buf` on; the rest is as before.
  pub record IsRead (lba buf n : ℕ) (d d1 : Driver State) : Type 0 where
    pub quiet : IsQuiet c base hd d1
    pub keeps : content d1.device ≡ content d.device
    pub memory :
        (a : ℕ)
        → d1.memory a ≡ (
            if leb buf a && ltb a (buf + 512 * n)
            then content d.device hd.my_channel hd.dev_no (512 * lba + (a - buf))
            else d.memory a)

  pub record IsWritten (lba buf n : ℕ) (d d1 : Driver State) : Type 0 where
    pub quiet : IsQuiet c base hd d1
    pub memory : d1.memory ≡ d.memory
    pub disks :
        (ch drive b : ℕ)
        → content d1.device ch drive b ≡ (
            if (ch == hd.my_channel && drive == hd.dev_no)
              && (leb (512 * lba) b && ltb b (512 * (lba + n)))
            then d.memory (buf + (b - 512 * lba))
            else content d.device ch drive b)

  read_from_sector-IsRead :
      (lba buf : ℕ) (d d2 : Driver State) (s : State)
      → IsQuiet c base hd d2
      → d2.memory ≡ d.memory
      → ((i : ℕ)
          → i < 512
          → (c.in_multibyte (base hd.my_channel + 0) 256 s).0 i
            ≡ content d.device hd.my_channel hd.dev_no (512 * lba + i))
      → content (c.in_multibyte (base hd.my_channel + 0) 256 s).1 ≡ content d.device
      → IsRead lba buf 1 d (read_from_sector c hd buf 1 (record d2 { device = s }))
  unfolding read_from_sector
  read_from_sector-IsRead lba buf d d2 s q m bytes keeps =
      let port = ap (λ p. c.in_multibyte (p + 0) 256 s) q.port in
      record {
        quiet = record {
          channel = q.channel;
          drive = q.drive;
          port = q.port;
          line = q.line;
          idle = q.idle;
        };
        keeps = ap (λ r. content r.1) port ∙ keeps;
        memory =
            λ a. ground (arith, ap (λ r. r.0 (a - buf)) port, bytes (a - buf), ap (λ f. f a) m);
      }

  pub read_chunk-IsRead :
      (lba buf : ℕ) (d : Driver State)
      → IsAta c base content
      → IsQuiet c base hd d
      → lba ≤ max_lba
      → Returns (read_chunk c hd lba buf 1 d) (IsRead lba buf 1 d)
  unfolding read_chunk
  read_chunk-IsRead lba buf d ata q small =
      let ch = hd.my_channel in
      let (s0, s', raised, polls, bytes, keeps) =
        ata.reads d.device ch hd.dev_no lba q.channel q.drive (omega arith) in
      Returns-bind (select_sector c hd lba 1 d) _ _ _
        (select_sector-cmd_out c base hd lba 1 0x20 d q small)
        (λ d1 (e1, m1, q1, x1).
          Returns-bind (await_disk c hd (cmd_out c hd 0x20 d1)) _ _ _
            (await_disk-IsQuiet c base hd s0 (cmd_out c hd 0x20 d1) q1 x1
              (ap (c.interrupt ch) e1 ∙ raised))
            (λ d2 (e2, m2, q2).
              let polled : busy_wait c hd d2 ≡ (true, record d2 { device = s' }) =
                busy_wait-Polls c base hd s' d2 q2
                  (subst (λ s. Polls c (base ch) max_polls s s') (sym e2) polls) in
              rw polled (read_from_sector-IsRead lba buf d d2 s' q2 (m2 ∙ m1) bytes keeps)))

  -- What write_to_sector and the interrupt after it do.
  write_to_sector-IsWritten :
      (lba buf : ℕ) (d d1 : Driver State) (s : State)
      → IsQuiet c base hd d1
      → (d1.ide_channels hd.my_channel).expection_interrupt ≡ true
      → d1.memory ≡ d.memory
      → ((bytes : ℕ → ℕ)
          → (s0 : State) × (c.interrupt hd.my_channel
                (c.out_multibyte (base hd.my_channel + 0) bytes 256 s)
              ≡ some s0)
            × ((ch drive b : ℕ)
                → content (c.in_byte (base hd.my_channel + 7) s0).1 ch drive b ≡ (
                    if (ch == hd.my_channel && drive == hd.dev_no)
                      && (leb (512 * lba) b && ltb b (512 * (lba + 1)))
                    then bytes (b - 512 * lba)
                    else content d.device ch drive b)))
      → Returns
          (await_disk c hd (write_to_sector c hd buf 1 (record d1 { device = s })))
          (IsWritten lba buf 1 d)
  unfolding write_to_sector
  write_to_sector-IsWritten lba buf d d1 s q x m stored =
      let bytes = λ (i : ℕ). d1.memory (buf + i) in
      let (s0, raised, disks) = stored bytes in
      let port = ap (λ p. c.out_multibyte (p + 0) bytes 256 s) q.port in
      let d2 = write_to_sector c hd buf 1 (record d1 { device = s }) in
      Returns-mono (await_disk c hd d2) _ _
        (await_disk-IsQuiet c base hd s0 d2
          (record {
            channel = q.channel;
            drive = q.drive;
            port = q.port;
            line = q.line;
            idle = q.idle;
          })
          x (ap (c.interrupt hd.my_channel) port ∙ raised))
        (λ d3 (e, m3, q3). record {
          quiet = q3;
          memory = m3 ∙ m;
          disks = λ ch drive b. ground (
            arith,
            ap (λ t. content t ch drive b) e,
            disks ch drive b,
            ap (λ f. f (buf + (b - 512 * lba))) m,
          );
        })

  pub write_chunk-IsWritten :
      (lba buf : ℕ) (d : Driver State)
      → IsAta c base content
      → IsQuiet c base hd d
      → lba ≤ max_lba
      → Returns (write_chunk c hd lba buf 1 d) (IsWritten lba buf 1 d)
  unfolding write_chunk
  write_chunk-IsWritten lba buf d ata q small =
      let ch = hd.my_channel in
      let (s', polls, stored) =
        ata.writes d.device ch hd.dev_no lba q.channel q.drive (omega arith) in
      Returns-bind (select_sector c hd lba 1 d) _ _ _
        (select_sector-cmd_out c base hd lba 1 0x30 d q small)
        (λ d1 (e1, m1, q1, x1).
          let d2 = cmd_out c hd 0x30 d1 in
          let polled : busy_wait c hd d2 ≡ (true, record d2 { device = s' }) =
            busy_wait-Polls c base hd s' d2 q1
              (subst (λ s. Polls c (base ch) max_polls s s') (sym e1) polls) in
          rw polled (write_to_sector-IsWritten lba buf d d2 s' q1 x1 m1 stored))
