-- ===== src/Sync/Locks.antt =====
-- A lock that nobody else holds: acquiring, nesting and releasing it.
use leeos.Base.{
  ℕ, zero, suc, ◌+◌, ◌-◌, ◌^◌, ◌<◌, ◌≡◌, ◌≢◌, refl, sym, [], arith, true, ltb, Run, ok, halted,
  ◌>>=◌, Returns, u32, sub32, ==_self, ==_of_ne,
}
use leeos.Base.Memory.{update_self}
use leeos.Interrupt.{intr_disable, intr_restored}
use leeos.Lists.Refine.{IsList, IsList-intr, list_empty-nil}
use leeos.Kernel.{Kernel, Globals, waiter_of, sem_of, set_intr, set_value}
use leeos.Sync.{sem_up, sem_down, sem_wait, lock_acquire, lock_release, set_holder, set_repeat}

-- Nobody holds the lock, and nobody waits for it.
pub record IsFree (k : Kernel) (plock : ℕ) : Type 0 where
  pub value : k.value (sem_of plock) ≡ 1
  pub holder : k.holder plock ≡ 0
  pub repeat : k.holder_repeat_num plock ≡ 0
  pub waiter : IsList k.links (waiter_of (sem_of plock)) []

-- The state with the lock in the hands of the running thread.
abbrev pub held : ℕ → ℕ → Kernel → Kernel
held plock n k = set_repeat plock n (set_holder plock k.current (set_value (sem_of plock) 0 k))

module _ (fuel : ℕ) (g : Globals) (others : Kernel → Run Kernel) where
  sem_wait_up :
      (rounds sem : ℕ) (k : Kernel)
      → 0 < rounds
      → k.value sem ≡ 1
      → sem_wait fuel g others rounds sem k ≡ ok k
  unfolding sem_wait
  sem_wait_up zero sem k pos up = absurd (omega arith)
  sem_wait_up (suc rounds) sem k pos up = rw up

  -- A semaphore that is up is taken at once, and the interrupt flag is as before.
  pub sem_down_up :
      (rounds sem : ℕ) (k : Kernel)
      → 0 < rounds
      → k.value sem ≡ 1
      → sem_down fuel g others rounds sem k ≡ ok (set_value sem 0 k)
  unfolding sem_down
  sem_down_up rounds sem k pos up = rw (
    sem_wait_up rounds sem (set_intr (intr_disable k.links.intr).0 k) pos up,
    up,
    ==_self sem,
    (intr_restored k.links.intr).0,
  )

module _ (fuel : ℕ) (g : Globals) (others : Kernel → Run Kernel) (rounds plock : ℕ)
    (k : Kernel) where
  -- A free lock is taken at once.
  pub lock_acquire_free :
      IsFree k plock
      → k.current ≢ 0
      → 0 < rounds
      → lock_acquire fuel g others rounds plock k ≡ ok (held plock 1 k)
  unfolding lock_acquire
  lock_acquire_free f ne pos = rw (
    f.holder,
    ==_of_ne 0 k.current (λ e. ne (sym e)),
    sem_down_up fuel g others rounds (sem_of plock) k pos f.value,
    f.repeat,
  )

  -- The holder of a lock takes it once more by counting, and nothing else changes, as long as
  -- a word holds the count.
  pub lock_acquire_again :
      k.holder plock ≡ k.current
      → k.holder_repeat_num plock + 1 < 2 ^ 32
      → lock_acquire fuel g others rounds plock k
        ≡ ok (set_repeat plock (k.holder_repeat_num plock + 1) k)
  unfolding lock_acquire
  lock_acquire_again mine small =
      let wrap : u32 (k.holder_repeat_num plock + 1) ≡ k.holder_repeat_num plock + 1 =
        omega arith in
      rw (mine, ==_self k.current, wrap)

module _ (fuel : ℕ) (g : Globals) (plock : ℕ) (k : Kernel) where
  -- lock_release by a thread that does not hold the lock stops the kernel.
  pub lock_release_foreign : k.holder plock ≢ k.current → lock_release fuel g plock k ≡ halted
  unfolding lock_release
  lock_release_foreign ne = rw (==_of_ne (k.holder plock) k.current ne)

  -- The holder of a lock that it has taken more than once gives it back once by counting, and
  -- nothing else changes.
  pub lock_release_nested :
      (n : ℕ)
      → k.holder plock ≡ k.current
      → k.holder_repeat_num plock ≡ n
      → 1 < n
      → n < 2 ^ 32
      → lock_release fuel g plock k ≡ ok (set_repeat plock (n - 1) k)
  unfolding lock_release
  lock_release_nested n mine e many small =
      let test : ltb 1 n ≡ true = ground arith in
      let down : sub32 n 1 ≡ n - 1 = omega arith in rw (mine, ==_self k.current, e, test, down)

  -- With no waiter `sem_up` only counts.
  pub sem_up_empty :
      (sem : ℕ)
      → k.value sem ≡ 0
      → IsList k.links (waiter_of sem) []
      → sem_up fuel g sem k ≡ ok (set_value sem 1 k)
  unfolding sem_up
  sem_up_empty sem down empty =
      let none_waits =
        list_empty-nil _ (waiter_of sem)
          (IsList-intr k.links (intr_disable k.links.intr).0 (waiter_of sem) [] empty) in
      rw (down, none_waits, ==_self sem, down, (intr_restored k.links.intr).0)

-- The state in which the holder's last release leaves the lock.
abbrev pub released : ℕ → Kernel → Kernel
released plock k =
    set_value (sem_of plock) 1 (set_repeat plock 0 (set_holder plock 0 (set_repeat plock 0 k)))

pub lock_release_last :
    (fuel : ℕ) (g : Globals) (plock : ℕ) (k : Kernel)
    → k.holder plock ≡ k.current
    → k.holder_repeat_num plock ≡ 1
    → k.value (sem_of plock) ≡ 0
    → IsList k.links (waiter_of (sem_of plock)) []
    → lock_release fuel g plock k ≡ ok (released plock k)
unfolding lock_release
lock_release_last fuel g plock k mine once down empty = rw (
  mine,
  ==_self k.current,
  once,
  sem_up_empty fuel g plock (set_repeat plock 0 (set_holder plock 0 (set_repeat plock 0 k)))
      (sem_of plock) down empty,
)

pub released-IsFree :
    (plock : ℕ) (k : Kernel)
    → IsList k.links (waiter_of (sem_of plock)) []
    → IsFree (released plock k) plock
released-IsFree plock k empty = record {
  value = ground arith;
  holder = ground arith;
  repeat = ground arith;
  waiter = empty;
}

-- A thread that takes a free lock and releases it returns with the lock free, the lists, the
-- statuses and the running thread as they were, and every lock's holder and count and every
-- semaphore's value too.
pub lock_round_trip :
    (fuel : ℕ) (g : Globals) (others : Kernel → Run Kernel) (rounds plock : ℕ) (k : Kernel)
    → IsFree k plock
    → k.current ≢ 0
    → 0 < rounds
    → Returns (lock_acquire fuel g others rounds plock k >>= lock_release fuel g plock) (λ k'.
      IsFree k' plock
      × (k'.links ≡ k.links)
      × (k'.current ≡ k.current)
      × (k'.status ≡ k.status)
      × ((p : ℕ) → k'.holder p ≡ k.holder p)
      × ((p : ℕ) → k'.holder_repeat_num p ≡ k.holder_repeat_num p)
      × ((p : ℕ) → k'.value p ≡ k.value p))
lock_round_trip fuel g others rounds plock k f ne pos =
    let k1 = held plock 1 k in
    rw
      (
        lock_acquire_free fuel g others rounds plock k f ne pos,
        lock_release_last fuel g plock k1 (update_self k.holder plock k.current)
            (update_self k.holder_repeat_num plock 1) (update_self k.value (sem_of plock) 0)
            f.waiter,
      )
      (
        released-IsFree plock k1 f.waiter,
        refl,
        refl,
        refl,
        (λ p. ground (arith, f.holder)),
        (λ p. ground (arith, f.repeat)),
        (λ p. ground (arith, f.value)),
      )
