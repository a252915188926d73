-- ===== src/Console/Guarded.antt =====
-- Printing leaves the console's lock free.
use leeos.Base.{ℕ, ◌<◌, ◌≡◌, ◌≢◌, List, Run, refl, Returns}
use leeos.Kernel.{Kernel, Globals}
use leeos.Sync.Locks.{IsFree, held, released-IsFree, lock_acquire_free, lock_release_last}
use leeos.Base.Memory.{update_self}
use leeos.Kernel.{sem_of}
use leeos.Console.{console_put_str, console_acquire, console_release}

-- What console_put_str promises.
pub record Printed (console_lock : ℕ) (str : List ℕ) (k : Kernel) (r : List ℕ × Kernel)
    : Type 0 where
  pub printed : r.0 ≡ str
  pub free : IsFree r.1 console_lock
  pub links : r.1.links ≡ k.links
  pub current : r.1.current ≡ k.current

-- console_put_str, with the console's lock free and a thread running, prints the string and
-- returns with the lock free, the lists as they were and the same thread running.
pub console_put_str-Printed :
    (fuel : ℕ) (g : Globals) (others : Kernel → Run Kernel) (rounds console_lock : ℕ) (str : List ℕ)
    (k : Kernel)
    → IsFree k console_lock
    → k.current ≢ 0
    → 0 < rounds
    → Returns (console_put_str fuel g others rounds console_lock str k) (Printed console_lock str k)
unfolding console_put_str console_acquire console_release
console_put_str-Printed fuel g others rounds console_lock str k f ne pos =
    let k1 = held console_lock 1 k in
    rw
      (
        lock_acquire_free fuel g others rounds console_lock k f ne pos,
        lock_release_last fuel g console_lock k1 (update_self k.holder console_lock k.current)
            (update_self k.holder_repeat_num console_lock 1)
            (update_self k.value (sem_of console_lock) 0) f.waiter,
      )
      (record {
        printed = refl;
        free = released-IsFree console_lock k1 f.waiter;
        links = refl;
        current = refl;
      })
