-- ===== src/Timer/Sleep.antt =====
-- What mtime_sleep of device/timer.c does.
use leeos.Base.{ℕ, suc, ◌+◌, ◌/◌, ◌^◌, ◌<◌, ◌≡◌, refl, false, ltb, u32, sub32, Run, ok, arith}
use leeos.Kernel.{Kernel, Globals}
use leeos.Timer.{mtime_sleep, ticks_to_sleep, sleep_loop}

-- mtime_sleep returns at once, whatever the time that it is called for: no other thread runs,
-- and the state is as before.
pub mtime_sleep_returns :
    (fuel : ℕ) (g : Globals) (others : Kernel → Run Kernel) (rounds m_seconds : ℕ) (k : Kernel)
    → k.total_ticks < 2 ^ 32
    → mtime_sleep fuel g others (suc rounds) m_seconds k ≡ ok k
unfolding mtime_sleep ticks_to_sleep sleep_loop
mtime_sleep_returns fuel g others rounds m_seconds k small =
    rw
      (
        let none : sub32 k.total_ticks k.total_ticks ≡ 0 = omega arith in none,
        let no : ltb (sub32 (u32 (m_seconds + 10)) 1 / 10) 0 ≡ false = ground arith in no,
      )
      refl
