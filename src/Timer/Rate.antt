-- ===== src/Timer/Rate.antt =====
-- The rate that timer_init of device/timer.c sets, with the timer chip that it writes to.
use leeos.Base.{
  ℕ, ◌+◌, ◌-◌, ◌*◌, ◌/◌, ◌%◌, ◌^◌, ◌<◌, ◌≡◌, ◌≢◌, refl, ap, ap₂, List, [], ◌∷◌, arith, true, false,
  sym, ◌∙◌, ◌==◌, ==_iff, if◌then◌else◌, ltb, leb, ◌&&◌, Option, none, some, u8,
}
use Prim.Native.Nat.{bit_or}
use leeos.Base.Memory.{update, update_self, update_ne}
use leeos.Base.Bits.{check_below, check_below_sound}
use leeos.Timer.{frequency_set}

-- The 8253: how each of its counters takes its count (1 the low byte, 2 the high byte, 3 the low one
-- and then the high one), its mode, the low byte that waits for the high one, and the count it runs
-- with, if it runs.
pub record Pit : Type 0 where
  pub access : ℕ → ℕ
  pub mode : ℕ → ℕ
  pub low : ℕ → Option ℕ
  pub count : ℕ → Option ℕ

-- A control word selects a counter, which stops until it gets a count.
unfoldable pub control_word : ℕ → Pit → Pit
control_word value p =
    let n = value / 2 ^ 6 in
    record p {
      access = update p.access n (value / 2 ^ 4 % 4);
      mode = update p.mode n (value / 2 % 8);
      low = update p.low n none;
      count = update p.count n none;
    }

-- The low byte waits for the high one.
abbrev pub low_then_high : (n value : ℕ) → Pit → Option ℕ → Pit
low_then_high n value p none = record p { low = update p.low n (some value) }
low_then_high n value p (some low) = record p {
  low = update p.low n none;
  count = update p.count n (some (low + 2 ^ 8 * value));
}

-- A byte for a counter.
unfoldable pub count_byte : (n value : ℕ) → Pit → Pit
count_byte n value p =
    if p.access n == 1
    then record p { count = update p.count n (some value) }
    else if p.access n == 2
    then record p { count = update p.count n (some (2 ^ 8 * value)) }
    else if p.access n == 3
    then low_then_high n value p (p.low n)
    else p

unfoldable pub write_port : ℕ × ℕ → Pit → Pit
write_port (port, value) p =
    if port == 0x43
    then control_word value p
    else if leb 0x40 port && ltb port 0x43
    then count_byte (port - 0x40) value p
    else p

unfoldable pub run_writes : List (ℕ × ℕ) → Pit → Pit
run_writes [] p = p
run_writes (w ∷ writes) p = run_writes writes (write_port w p)

-- The control word of each counter and mode, for a count of two bytes.
control_table :
    check_below 3 (λ n. check_below 8 (λ mode.
      u8 (bit_or (bit_or (u8 n * 2 ^ 6) (u8 3 * 2 ^ 4)) (u8 mode * 2 ^ 1))
      == 64 * n + 48 + 2 * mode))
    ≡ true
unfolding check_below
control_table = refl

control_of :
    (n mode : ℕ)
    → n < 3
    → mode < 8
    → u8 (bit_or (bit_or (u8 n * 2 ^ 6) (u8 3 * 2 ^ 4)) (u8 mode * 2 ^ 1)) ≡ 64 * n + 48 + 2 * mode
control_of n mode h h' =
    (==_iff _ _).0 (check_below_sound 8 _ mode (check_below_sound 3 _ n control_table h) h')

write_counter :
    (n value : ℕ) (p : Pit) → n < 3 → write_port (0x40 + n, value) p ≡ count_byte n value p
unfolding write_port
write_counter n value p small =
    let other : (0x40 + n == 0x43) ≡ false = ground arith in
    let inside : (leb 0x40 (0x40 + n) && ltb (0x40 + n) 0x43) ≡ true = ground arith in
    let index : 0x40 + n - 0x40 ≡ n = omega arith in
    rw (other, inside) (ap (λ k. count_byte k value p) index)

write_control : (value : ℕ) (p : Pit) → write_port (0x43, value) p ≡ control_word value p
unfolding write_port
write_control value p = refl

-- The counter takes two bytes and then runs with their number.
two_bytes :
    (n low high : ℕ) (p : Pit)
    → p.access n ≡ 3
    → p.low n ≡ none
    → count_byte n high (count_byte n low p) ≡ record p {
      low = update (update p.low n (some low)) n none;
      count = update p.count n (some (low + 2 ^ 8 * high));
    }
unfolding count_byte
two_bytes n low high p access free =
    let q : Pit = record p { low = update p.low n (some low) } in
    let first : count_byte n low p ≡ q = rw (access, free) refl in
    let second : count_byte n high q ≡ low_then_high n high q (some low) =
      rw access (ap (low_then_high n high q) (update_self p.low n (some low))) in
    ap (count_byte n high) first ∙ second

-- The chip behind the three writes, which for a mode below 8 are a control word and two bytes.
abbrev set_up : (n mode low : ℕ) → Pit → Pit
set_up n mode low p =
    let q = control_word (64 * n + 48 + 2 * mode) p in
    record q {
      low = update (update q.low n (some low)) n none;
      count = update q.count n (some low);
    }

frequency_set_lem :
    (n mode counter_value : ℕ) (p : Pit)
    → n < 3
    → mode < 8
    → run_writes (frequency_set (0x40 + n) n 3 mode counter_value) p
      ≡ set_up n mode (counter_value % 2 ^ 8) p
unfolding frequency_set run_writes control_word
frequency_set_lem n mode counter_value p small small' =
    let v = u8 counter_value in
    let word = 64 * n + 48 + 2 * mode in
    let q = control_word word p in
    let index : word / 64 ≡ n = omega arith in
    let three : word / 16 % 4 ≡ 3 = omega arith in
    let access : q.access n ≡ 3 = rw (index, three) (update_self p.access n 3) in
    let free : q.low n ≡ none = rw index (update_self p.low n none) in
    let port : u8 (0x40 + n) ≡ 0x40 + n = omega arith in
    let high : v / 2 ^ 8 ≡ 0 = omega arith in
    let control : write_port (0x43, _) p ≡ q =
      write_control _ p ∙ ap (λ w. control_word w p) (control_of n mode small small') in
    let low_byte : write_port (u8 (0x40 + n), v) q ≡ count_byte n v q =
      ap (λ a. write_port (a, v) q) port ∙ write_counter n v q small in
    let high_byte : write_port (u8 (0x40 + n), v / 2 ^ 8) (count_byte n v q)
        ≡ count_byte n 0 (count_byte n v q) =
      ap₂ (λ a b. write_port (a, b) (count_byte n v q)) port high
      ∙ write_counter n 0 (count_byte n v q) small in
    ap (λ t. write_port (u8 (0x40 + n), v / 2 ^ 8) (write_port (u8 (0x40 + n), v) t)) control
    ∙ ap (write_port (u8 (0x40 + n), v / 2 ^ 8)) low_byte
    ∙ high_byte
    ∙ two_bytes n v 0 q access free
    ∙ ap
        (λ t. record q {
          low = update (update q.low n (some v)) n none;
          count = update q.count n (some t);
        })
        (let sum : v + 2 ^ 8 * 0 ≡ v = omega arith in sum)

-- For a counter below 3, with its port, the low-then-high access and a mode below 8, whatever
-- counter value is asked for, the writes of frequency_set leave the 8253 with the counter in
-- that mode and running with the value modulo 256, and with the counts of the other counters as
-- before.
pub frequency_set-loaded :
    (counter_no mode counter_value : ℕ) (p : Pit)
    → counter_no < 3
    → mode < 8
    → ((run_writes (frequency_set (0x40 + counter_no) counter_no 3 mode counter_value) p).count
          counter_no
        ≡ some (counter_value % 2 ^ 8))
      × ((run_writes (frequency_set (0x40 + counter_no) counter_no 3 mode counter_value) p).mode
            counter_no
          ≡ mode)
      × ((n : ℕ)
          → n ≢ counter_no
          → (run_writes (frequency_set (0x40 + counter_no) counter_no 3 mode counter_value) p).count
              n
            ≡ p.count n)
unfolding control_word
frequency_set-loaded counter_no mode counter_value p small small' =
    let index : (64 * counter_no + 48 + 2 * mode) / 64 ≡ counter_no = omega arith in
    let mode' : (64 * counter_no + 48 + 2 * mode) / 2 % 8 ≡ mode = omega arith in
    let stopped = update p.count counter_no none in
    let loaded = some (counter_value % 2 ^ 8) in
    rw (frequency_set_lem counter_no mode counter_value p small small', index, mode')
      (
        update_self stopped counter_no loaded,
        update_self p.mode counter_no mode,
        λ n ne.
            update_ne stopped counter_no n loaded (λ e. ne (sym e))
            ∙ update_ne p.count counter_no n none (λ e. ne (sym e)),
      )
