-- ===== src/Tests/Waiting.antt =====
-- Locks, the character queue, the clock and the console from one concrete state.
use leeos.Base.{◌≡◌, refl, [], ◌∷◌, ◌++◌, arith, ok, Returns}
use leeos.Sync.Nesting.{Holds, GivenBack, acquire_times, release_times, lock_nested_round_trip}
use leeos.Timer.{mtime_sleep}
use leeos.Timer.Sleep.{mtime_sleep_returns}
use leeos.Ioqueue.{ioq_getchar, ioq_putchar}
use leeos.Ioqueue.Fifo.{IsRing, contents, SameElse, window, ioq_putchar_appends, ioq_getchar_pops}
use leeos.Ioqueue.Waking.{Misdirected, ioq_putchar_misdirects}
use leeos.Tests.State.{globals, kernel, pcbs, is_pcb, ready-IsList, nobody_runs, kernel-IsFree}

lock_nested_round_trip_example :
    Returns (acquire_times 5 globals nobody_runs 1 3000 3 kernel) (λ k'.
      Holds 3000 kernel 3 k'
      × Returns (release_times 5 globals nobody_runs 1 3000 3 k') (GivenBack 3000 kernel))
lock_nested_round_trip_example =
    lock_nested_round_trip 5 globals nobody_runs 1 3000 2 kernel kernel-IsFree (omega arith)
      (omega arith) (omega arith)

ioq_putchar_appends_example : Returns (ioq_putchar 5 globals nobody_runs 1 4000 1 97 kernel) (λ k'.
    IsRing (k'.ioqueue 4000)
    × (contents (k'.ioqueue 4000) ≡ contents (kernel.ioqueue 4000) ++ (97 ∷ []))
    × SameElse 4000 kernel k')
ioq_putchar_appends_example =
    ioq_putchar_appends 5 globals nobody_runs 1 4000 kernel refl
      (record { head_in = omega arith; tail_in = omega arith }) 0 97 (omega arith) refl

one_char : contents (kernel.ioqueue 4000) ≡ 11 ∷ []
unfolding window
one_char = refl

ioq_getchar_pops_example :
    Returns (ioq_getchar 5 globals nobody_runs 1 4000 1 kernel) (λ (byte, k').
      (byte ≡ 11)
      × IsRing (k'.ioqueue 4000)
      × (contents (k'.ioqueue 4000) ≡ [])
      × SameElse 4000 kernel k')
ioq_getchar_pops_example =
    ioq_getchar_pops 5 globals nobody_runs 1 4000 kernel refl
      (record { head_in = omega arith; tail_in = omega arith }) 0 11 [] one_char refl

ioq_putchar_misdirects_example :
    Returns
      (ioq_putchar 5 globals nobody_runs 1 5000 1 97 kernel)
      (Misdirected 5000 24576 20480 kernel)
ioq_putchar_misdirects_example =
    ioq_putchar_misdirects 5 globals nobody_runs 1 5000 0 97 24576 20480 kernel pcbs refl
      (record { head_in = omega arith; tail_in = omega arith }) (omega arith) refl (omega arith)
      refl (omega arith) (omega arith) ready-IsList (omega arith)
      (is_pcb 20480 (omega arith) (omega arith)) (omega arith, (omega arith, tt)) refl

mtime_sleep_returns_example : mtime_sleep 5 globals nobody_runs 1 500 kernel ≡ ok kernel
mtime_sleep_returns_example = mtime_sleep_returns 5 globals nobody_runs 0 500 kernel (omega arith)
