-- ===== src/Ide/Timeout.antt =====
-- A disk that has no data for ide_read of device/ide.c, and one that never interrupts.
use Prim.Native.Nat.{bit_and}
use leeos.Base.{
  ℕ, zero, suc, ◌+◌, ◌^◌, ◌≤◌, ◌<◌, ◌≡◌, ◌≢◌, refl, sym, ap, ◌∙◌, true, false, ==_of_ne,
  if◌then◌else◌, ltb, leb, u8, u32, sub32, arith, halted, stuck, Bool, bind-halted, ok, Run, ◌>>=◌,
  Returns, none, some,
}
use mathlib.Core.Path.{subst}
use leeos.Ide.{
  Controller, Disk, Driver, max_lba, report_unless, cmd_out, await_disk, select_sector, wait_ready,
  busy_wait, select_disk, read_chunk, transfer, ide_read,
}
use leeos.Ide.Ports.{
  IsQuiet, commanded, select_sector-cmd_out, await_disk-IsQuiet, await_disk_stuck,
  select_disk-IsQuiet,
}

bind-stuck :
    {A : Type 0} {B : Type 0} (m : Run A) (f : A → Run B) (P : A → Type 0)
    → Returns m P
    → ((a : A) → P a → f a ≡ stuck)
    → (m >>= f) ≡ stuck
bind-stuck (ok a) f P h g = g a h
bind-stuck halted f P h g = elim h [ ]
bind-stuck stuck f P h g = refl

module _ (c : Controller) where
  open c use {State, in_byte, interrupt, sleep}

  abbrev status : ℕ → State → ℕ × State
  status port s = in_byte (port + 7) s

  -- In the polls that are left the device never has data: BSY reads as set each time, or as clear
  -- with DRQ clear.
  pub data NoData (port : ℕ) : ℕ → State → Type 0 where
    over : {s : State} → NoData port 0 s
    refused :
        {n : ℕ} {s : State}
        → bit_and (status port s).0 0x80 ≡ 0
        → bit_and (status port (status port s).1).0 0x8 ≡ 0
        → NoData port (suc n) s
    busy :
        {n : ℕ} {s : State}
        → bit_and (status port s).0 0x80 ≢ 0
        → NoData port n (sleep 10 (status port s).1)
        → NoData port (suc n) s

  module _ (base : ℕ → ℕ) (hd : Disk) where
    wait_ready-NoData :
        (rounds : ℕ) (s : State) (d : Driver State)
        → (d.ide_channels hd.my_channel).port_base ≡ base hd.my_channel
        → NoData (base hd.my_channel) rounds s
        → (wait_ready c rounds hd (record d { device = s })).0 ≡ false
    unfolding wait_ready
    wait_ready-NoData zero s d p none_ = refl
    wait_ready-NoData (suc rounds) s d p (NoData.refused clear without) =
        rw (p, clear, without) refl
    wait_ready-NoData (suc rounds) s d p (NoData.busy set later) =
        rw (p, ==_of_ne (bit_and (status (base hd.my_channel) s).0 0x80) 0 set)
          (wait_ready-NoData rounds (sleep 10 (status (base hd.my_channel) s).1) d p later)

    report_unless-false : (r : Bool × Driver State) → r.0 ≡ false → report_unless c r ≡ halted
    report_unless-false (true, d) h = cc
    report_unless-false (false, d) h = refl

    -- The count that select_sector gets in the first round.
    abbrev pub first_count : ℕ → ℕ
    first_count sec_cnt = u8 (if leb 256 sec_cnt then 256 else sec_cnt)

    -- The device when the first command of ide_read has been written.
    abbrev pub asked : (lba sec_cnt : ℕ) → Driver State → State
    asked lba sec_cnt d =
        commanded c (base hd.my_channel) hd.dev_no lba (first_count sec_cnt) 0x20
          (select_disk c hd d).device

    read_chunk_refused :
        (lba buf n : ℕ) (s0 : State) (d : Driver State)
        → IsQuiet c base hd d
        → lba ≤ max_lba
        → interrupt hd.my_channel
            (commanded c (base hd.my_channel) hd.dev_no lba (u8 n) 0x20 d.device)
          ≡ some s0
        → NoData (base hd.my_channel) 29999 (status (base hd.my_channel) s0).1
        → read_chunk c hd lba buf n d ≡ halted
    unfolding read_chunk busy_wait
    read_chunk_refused lba buf n s0 d q small raised none_ =
        bind-halted (select_sector c hd lba (u8 n) d) _ _
          (select_sector-cmd_out c base hd lba (u8 n) 0x20 d q small)
          (λ d1 (e1, m1, q1, x1).
            bind-halted (await_disk c hd (cmd_out c hd 0x20 d1)) _ _
              (await_disk-IsQuiet c base hd s0 (cmd_out c hd 0x20 d1) q1 x1
                (ap (interrupt hd.my_channel) e1 ∙ raised))
              (λ d2 (e2, m2, q2).
                rw
                  (report_unless-false (wait_ready c 29999 hd d2) (
                    wait_ready-NoData 29999 d2.device d2 q2.port
                      (subst (NoData (base hd.my_channel) 29999) (sym e2) none_)))
                  refl))

    read_chunk_silent :
        (lba buf n : ℕ) (d : Driver State)
        → IsQuiet c base hd d
        → lba ≤ max_lba
        → interrupt hd.my_channel
            (commanded c (base hd.my_channel) hd.dev_no lba (u8 n) 0x20 d.device)
          ≡ none
        → read_chunk c hd lba buf n d ≡ stuck
    unfolding read_chunk
    read_chunk_silent lba buf n d q small silent =
        bind-stuck (select_sector c hd lba (u8 n) d) _ _
          (select_sector-cmd_out c base hd lba (u8 n) 0x20 d q small)
          (λ d1 (e1, m1, q1, x1).
            rw
              (await_disk_stuck c base hd (cmd_out c hd 0x20 d1) q1
                (ap (interrupt hd.my_channel) e1 ∙ silent))
              refl)

    -- With nothing under way on the channel, ide_read of at least one sector and fewer than
    -- 2^32, from an address not behind max_lba, with fuel for a round, ends in
    -- EXCEPTION_REPORT, and not in a loop, if the disk raises its interrupt for the command
    -- and then in 29999 polls never has data, BSY being set in each poll, or clear in one
    -- with DRQ clear.
    pub ide_read_refused :
        (fuel lba buf sec_cnt : ℕ) (s0 : State) (d : Driver State)
        → IsQuiet c base hd d
        → lba ≤ max_lba
        → 0 < sec_cnt
        → sec_cnt < 2 ^ 32
        → interrupt hd.my_channel (asked lba sec_cnt d) ≡ some s0
        → NoData (base hd.my_channel) 29999 (status (base hd.my_channel) s0).1
        → ide_read c (suc fuel) hd lba buf sec_cnt d ≡ halted
    unfolding ide_read transfer
    ide_read_refused fuel lba buf sec_cnt s0 d q small some_ w raised none_ =
        rw
          (
            let a : leb lba max_lba ≡ true = ground arith in a,
            let b : ltb 0 sec_cnt ≡ true = ground arith in b,
            let e : u32 (lba + 0) ≡ lba = ground arith in e,
            let l : sub32 sec_cnt 0 ≡ sec_cnt = omega arith in l,
          )
          (rw
            (read_chunk_refused lba _ _ s0 (select_disk c hd d) (select_disk-IsQuiet c base hd d q)
              small raised none_)
            refl)

    -- A disk that raises no interrupt for the command keeps ide_read waiting for ever: busy_wait,
    -- which has a limit of time, comes only behind it.
    ide_read_silent :
        (fuel lba buf sec_cnt : ℕ) (d : Driver State)
        → IsQuiet c base hd d
        → lba ≤ max_lba
        → 0 < sec_cnt
        → sec_cnt < 2 ^ 32
        → interrupt hd.my_channel (asked lba sec_cnt d) ≡ none
        → ide_read c (suc fuel) hd lba buf sec_cnt d ≡ stuck
    unfolding ide_read transfer
    ide_read_silent fuel lba buf sec_cnt d q small some_ w silent =
        rw
          (
            let a : leb lba max_lba ≡ true = ground arith in a,
            let b : ltb 0 sec_cnt ≡ true = ground arith in b,
            let e : u32 (lba + 0) ≡ lba = ground arith in e,
            let l : sub32 sec_cnt 0 ≡ sec_cnt = omega arith in l,
          )
          (rw
            (read_chunk_silent lba _ _ (select_disk c hd d) (select_disk-IsQuiet c base hd d q)
              small silent)
            refl)
