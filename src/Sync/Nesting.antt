-- ===== src/Sync/Nesting.antt =====
-- A lock that its holder takes and gives back any number of times.
use mathlib.Core.Path.{subst}
use leeos.Base.{
  ℕ, zero, suc, ◌+◌, ◌-◌, ◌^◌, ◌<◌, ◌≡◌, ◌≢◌, refl, sym, ◌∙◌, [], arith, ap, Run, ok, ◌>>=◌,
  Returns, Returns-mono,
}
use leeos.Base.Memory.{update_self}
use leeos.Lists.Refine.{IsList}
use leeos.Kernel.{Kernel, Globals, waiter_of, sem_of}
use leeos.Sync.{lock_acquire, lock_release, set_repeat}
use leeos.Sync.Locks.{
  IsFree, held, released-IsFree, lock_acquire_free, lock_acquire_again, lock_release_nested,
  lock_release_last,
}

-- The running thread holds the lock `n` times, and the lists and threads are those of `k`.
pub record Holds (plock : ℕ) (k : Kernel) (n : ℕ) (k' : Kernel) : Type 0 where
  pub mine : k'.holder plock ≡ k'.current
  pub count : k'.holder_repeat_num plock ≡ n
  pub down : k'.value (sem_of plock) ≡ 0
  pub links : k'.links ≡ k.links
  pub current : k'.current ≡ k.current
  pub status : k'.status ≡ k.status

-- The lock is free, and the lists and threads are those of `k`.
pub record GivenBack (plock : ℕ) (k k' : Kernel) : Type 0 where
  pub free : IsFree k' plock
  pub links : k'.links ≡ k.links
  pub current : k'.current ≡ k.current
  pub status : k'.status ≡ k.status

module _ (fuel : ℕ) (g : Globals) (others : Kernel → Run Kernel) (rounds plock : ℕ) where
  unfoldable pub acquire_times : ℕ → Kernel → Run Kernel
  acquire_times zero k = ok k
  acquire_times (suc n) k = lock_acquire fuel g others rounds plock k >>= acquire_times n

  unfoldable pub release_times : ℕ → Kernel → Run Kernel
  release_times zero k = ok k
  release_times (suc n) k = lock_release fuel g plock k >>= release_times n

  module _ (k : Kernel) where
    counted :
        (k' : Kernel) (c m n : ℕ)
        → Holds plock k c k'
        → m ≡ n
        → Holds plock k n (set_repeat plock m k')
    counted k' c m n h e = record {
      mine = h.mine;
      count = update_self k'.holder_repeat_num plock m ∙ e;
      down = h.down;
      links = h.links;
      current = h.current;
      status = h.status;
    }

    acquire_times-Holds :
        (n c : ℕ) (k' : Kernel)
        → Holds plock k c k'
        → c + n < 2 ^ 32
        → Returns (acquire_times n k') (Holds plock k (c + n))
    unfolding acquire_times
    acquire_times-Holds zero c k' h small = subst (λ m. Holds plock k m k') (omega arith) h
    acquire_times-Holds (suc n) c k' h small =
        rw (lock_acquire_again fuel g others rounds plock k' h.mine (omega (arith, h.count))) (
          subst
            (λ m.
              Returns (acquire_times n (set_repeat plock (k'.holder_repeat_num plock + 1) k'))
                (Holds plock k m))
            (let e : c + 1 + n ≡ c + suc n = omega arith in e)
            (acquire_times-Holds n (c + 1) (set_repeat plock (k'.holder_repeat_num plock + 1) k')
              (counted k' c (k'.holder_repeat_num plock + 1) (c + 1) h (ap (λ m. m + 1) h.count))
              (omega arith)))

    release_times-GivenBack :
        (n : ℕ) (k' : Kernel)
        → Holds plock k (suc n) k'
        → suc n < 2 ^ 32
        → IsList k.links (waiter_of (sem_of plock)) []
        → Returns (release_times (suc n) k') (GivenBack plock k)
    unfolding release_times
    release_times-GivenBack zero k' h small empty =
        let empty' = subst (λ l. IsList l (waiter_of (sem_of plock)) []) (sym h.links) empty in
        rw (lock_release_last fuel g plock k' h.mine h.count h.down empty') (record {
          free = released-IsFree plock k' empty';
          links = h.links;
          current = h.current;
          status = h.status;
        })
    release_times-GivenBack (suc n) k' h small empty =
        rw (lock_release_nested fuel g plock k' (suc (suc n)) h.mine h.count (omega arith) small) (
          release_times-GivenBack n (set_repeat plock (suc (suc n) - 1) k')
            (counted k' (suc (suc n)) (suc (suc n) - 1) (suc n) h (omega arith)) (omega arith)
            empty)

-- A thread that takes a free lock any number of times, at least once and as often as a word
-- counts, returns as its holder with that count; giving it back as often returns with the lock
-- free; the lists, the statuses and the running thread are as before, in between and at the
-- end.
pub lock_nested_round_trip :
    (fuel : ℕ) (g : Globals) (others : Kernel → Run Kernel) (rounds plock n : ℕ) (k : Kernel)
    → IsFree k plock
    → k.current ≢ 0
    → 0 < rounds
    → suc n < 2 ^ 32
    → Returns (acquire_times fuel g others rounds plock (suc n) k) (λ k'.
      Holds plock k (suc n) k'
      × Returns (release_times fuel g others rounds plock (suc n) k') (GivenBack plock k))
unfolding acquire_times
lock_nested_round_trip fuel g others rounds plock n k f ne pos small =
    rw (lock_acquire_free fuel g others rounds plock k f ne pos) (
      Returns-mono (acquire_times fuel g others rounds plock n (held plock 1 k))
        (Holds plock k (1 + n)) _
        (acquire_times-Holds fuel g others rounds plock k n 1 (held plock 1 k)
          (record {
            mine = update_self k.holder plock k.current;
            count = update_self k.holder_repeat_num plock 1;
            down = update_self k.value (sem_of plock) 0;
            links = refl;
            current = refl;
            status = refl;
          })
          (omega arith))
        (λ k' h.
          let h' : Holds plock k (suc n) k' = subst (λ m. Holds plock k m k') (omega arith) h in
          (h', release_times-GivenBack fuel g others rounds plock k n k' h' small f.waiter)))
