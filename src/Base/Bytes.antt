-- ===== src/Base/Bytes.antt =====
-- Words of four bytes in a memory of bytes, the lowest byte first.
use Prim.Native.Nat.{ℕ, ◌+◌, ◌*◌, ◌/◌, ◌%◌, ◌^◌, ◌≤◌, ◌<◌}
use mathlib.Core.Path.{◌≡◌, ap, ◌∙◌}
use mathlib.Core.Logic.{◌⊎◌}
use native.Mathlib.Omega.{arith}
use leeos.Base.Memory.{update}

abbrev pub word_at : (ℕ → ℕ) → ℕ → ℕ
word_at bytes i = bytes i + 2 ^ 8 * bytes (i + 1) + 2 ^ 16 * bytes (i + 2) + 2 ^ 24 * bytes (i + 3)

unfoldable pub store_word : (ℕ → ℕ) → ℕ → ℕ → ℕ → ℕ
store_word m a v =
    update
      (update (update (update m a (v % 2 ^ 8)) (a + 1) (v / 2 ^ 8 % 2 ^ 8)) (a + 2)
        (v / 2 ^ 16 % 2 ^ 8))
      (a + 3) (v / 2 ^ 24 % 2 ^ 8)

pub store_word-word_at : (m : ℕ → ℕ) (a v : ℕ) → v < 2 ^ 32 → word_at (store_word m a v) a ≡ v
unfolding store_word
store_word-word_at m a v small = ground arith

pub store_word_outside : (m : ℕ → ℕ) (a v b : ℕ) → (b < a) ⊎ (a + 4 ≤ b) → store_word m a v b ≡ m b
unfolding store_word
store_word_outside m a v b o = ground (arith, o)

-- Four bytes that are the same, at another address.
pub word_at_shift :
    (m m' : ℕ → ℕ) (a b : ℕ)
    → ((i : ℕ) → i < 4 → m' (b + i) ≡ m (a + i))
    → word_at m' b ≡ word_at m a
word_at_shift m m' a b same =
    let first : m' b ≡ m a = ap m' (omega arith) ∙ same 0 (omega arith) ∙ ap m (omega arith) in
    omega (arith, first, same 1 (omega arith), same 2 (omega arith), same 3 (omega arith))

pub word_at-frame :
    (m m' : ℕ → ℕ) (a : ℕ) → ((i : ℕ) → i < 4 → m' (a + i) ≡ m (a + i)) → word_at m' a ≡ word_at m a
word_at-frame m m' a same = word_at_shift m m' a a same

-- The value before a write, written back.
pub store_word_back :
    (m : ℕ → ℕ) (a v b : ℕ)
    → m a < 256
    → m (a + 1) < 256
    → m (a + 2) < 256
    → m (a + 3) < 256
    → store_word (store_word m a v) a (word_at m a) b ≡ m b
unfolding store_word
store_word_back m a v b h0 h1 h2 h3 = ground arith

-- Words beside a write.
pub word_at-store_word_ne :
    (m : ℕ → ℕ) (a v b : ℕ) → (b + 4 ≤ a) ⊎ (a + 4 ≤ b) → word_at (store_word m a v) b ≡ word_at m b
word_at-store_word_ne m a v b o =
    word_at-frame m (store_word m a v) b
      (λ i lt. store_word_outside m a v (b + i) (omega (arith, o)))

pub word_at-update_ne :
    (m : ℕ → ℕ) (a v b : ℕ) → (b + 4 ≤ a) ⊎ (a < b) → word_at (update m a v) b ≡ word_at m b
word_at-update_ne m a v b o = word_at-frame m (update m a v) b (λ i lt. ground (arith, o))
