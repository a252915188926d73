-- ===== src/Console.antt =====
-- device/console.c: printing under the console's lock. What is printed is the function's result.
pub mod Guarded
use leeos.Base.{ℕ, List, [], ◌∷◌, u8, Run, ok, ◌>>=◌}
use leeos.Kernel.{Kernel, Globals}
use leeos.Sync.{lock_init, lock_acquire, lock_release}

unfoldable pub console_init : (console_lock : ℕ) → Kernel → Kernel
console_init console_lock k = lock_init console_lock k

module _ (fuel : ℕ) (g : Globals) (others : Kernel → Run Kernel) (rounds console_lock : ℕ) where
  unfoldable pub console_acquire : Kernel → Run Kernel
  console_acquire k = lock_acquire fuel g others rounds console_lock k

  unfoldable pub console_release : Kernel → Run Kernel
  console_release k = lock_release fuel g console_lock k

  unfoldable pub console_put_str : List ℕ → Kernel → Run (List ℕ × Kernel)
  unfolding console_acquire console_release
  console_put_str str k = do
    k1 ← console_acquire k
    let printed = str
    k2 ← console_release k1
    ok (printed, k2)

  -- The number that is printed.
  unfoldable pub console_put_int : ℕ → Kernel → Run (ℕ × Kernel)
  unfolding console_acquire console_release
  console_put_int num k = do k1 ← console_acquire k; k2 ← console_release k1; ok (num, k2)

  -- The character is passed on as the address of a string, which `string_at` reads.
  unfoldable pub console_put_char :
      (string_at : ℕ → List ℕ) (ch : ℕ) → Kernel → Run (List ℕ × Kernel)
  unfolding console_acquire console_release
  console_put_char string_at ch k = do
    k1 ← console_acquire k
    let printed = string_at (u8 ch)
    k2 ← console_release k1
    ok (printed, k2)
