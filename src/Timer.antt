-- ===== src/Timer.antt =====
-- device/timer.c: sleeping for a number of clock ticks, with no clock interrupt between two reads
-- of the clock. The interrupt handler is with the threads.
pub mod Sleep
pub mod Rate
use Prim.Native.Nat.{bit_or}
use leeos.Base.{
  ◌*◌, u8, List, [], ◌∷◌, ℕ, zero, suc, ◌+◌, ◌-◌, ◌/◌, ◌%◌, ◌^◌, if◌then◌else◌, ltb, u32, sub32,
  Run, ok, stuck, ◌>>=◌,
}
use leeos.Kernel.{Kernel, Globals}
use leeos.Thread.{thread_yield}
use leeos.Segments.{Interrupts, register_handler}

abbrev pub irq0_frequency : ℕ
irq0_frequency = 100

abbrev pub input_frequency : ℕ
input_frequency = 1193180

abbrev pub counter_r0_value : ℕ
counter_r0_value = input_frequency / irq0_frequency

-- The writes to the ports, in their order; every parameter is a byte.
unfoldable pub frequency_set :
    (counter_port counter_no rwl counter_mode counter_value : ℕ) → List (ℕ × ℕ)
frequency_set counter_port counter_no rwl counter_mode counter_value =
    let value = u8 counter_value in
    let control =
      bit_or (bit_or (u8 counter_no * 2 ^ 6) (u8 rwl * 2 ^ 4)) (u8 counter_mode * 2 ^ 1) in
    (0x43, u8 control) ∷ (u8 counter_port, value) ∷ (u8 counter_port, value / 2 ^ 8) ∷ []

-- What is written to the ports, with the handler registered and the clock at 0.
unfoldable pub timer_init :
    (intr_timer_handler : ℕ) → Interrupts → Kernel → List (ℕ × ℕ) × Interrupts × Kernel
timer_init intr_timer_handler t k = (
  frequency_set 0x40 0 3 2 counter_r0_value,
  register_handler 0x20 intr_timer_handler t,
  record k { total_ticks = 0 },
)

module _ (fuel : ℕ) (g : Globals) (others : Kernel → Run Kernel) where
  -- The loop, for at most `rounds` yields.
  unfoldable pub sleep_loop : (rounds start_ticks sleep_ticks : ℕ) → Kernel → Run Kernel
  sleep_loop zero start_ticks sleep_ticks k = stuck
  sleep_loop (suc rounds) start_ticks sleep_ticks k =
      if ltb sleep_ticks (sub32 k.total_ticks start_ticks)
      then (do k1 ← thread_yield fuel g others k; sleep_loop rounds start_ticks sleep_ticks k1)
      else ok k

  unfoldable pub ticks_to_sleep : (rounds sleep_ticks : ℕ) → Kernel → Run Kernel
  ticks_to_sleep rounds sleep_ticks k = sleep_loop rounds k.total_ticks sleep_ticks k

  unfoldable pub mtime_sleep : (rounds m_seconds : ℕ) → Kernel → Run Kernel
  mtime_sleep rounds m_seconds k =
      let frequency = 1000 / irq0_frequency in
      ticks_to_sleep rounds (sub32 (u32 (m_seconds + frequency)) 1 / frequency) k
