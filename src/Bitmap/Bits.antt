-- ===== src/Bitmap/Bits.antt =====
-- A bitmap as the set of its bits.
use leeos.Base.{ℕ, ◌/◌, ◌%◌, ◌<◌, ◌≤◌, ◌≡◌, ◌==◌, ◌||◌, true, refl, ok, if◌then◌else◌, arith}
use leeos.Base.Bits.{bit, byte_test, byte_or, byte_clear}
use leeos.Bitmap.{Bitmap, bitmap_scan_test, set_bit, bitmap_set}

-- Every byte of the memory is a byte.
abbrev pub IsBytes : (ℕ → ℕ) → Type 0
IsBytes bits = (i : ℕ) → bits i < 256

-- The bit `i` of the memory from `bits` on: 1 if it is in use.
abbrev pub bit_at : Bitmap → ℕ → ℕ
bit_at b i = bit (b.bits (i / 8)) (i % 8)

pub bitmap_scan_test_lem :
    (b : Bitmap) (i : ℕ) → IsBytes b.bits → (bitmap_scan_test b i == 0) ≡ (bit_at b i == 0)
unfolding bitmap_scan_test
bitmap_scan_test_lem b i h = ground (arith, byte_test (b.bits (i / 8)) (i % 8) (h (i / 8)))

-- Setting a bit to 0 or 1, in a bitmap of bytes, gives that bit the value and leaves every
-- other bit as it was.
pub bit_at-set_bit :
    (b : Bitmap) (i v j : ℕ)
    → IsBytes b.bits
    → v ≤ 1
    → bit_at (set_bit b i v) j ≡ (if i == j then v else bit_at b j)
unfolding set_bit
bit_at-set_bit b i v j h hv = ground (
  arith,
  byte_or (b.bits (i / 8)) (i % 8) (j % 8) (h (i / 8)),
  byte_clear (b.bits (i / 8)) (i % 8) (j % 8) (h (i / 8)),
)

pub set_bit-IsBytes : (b : Bitmap) (i v : ℕ) → IsBytes b.bits → IsBytes (set_bit b i v).bits
unfolding set_bit
set_bit-IsBytes b i v h j = ground (arith, h j)

pub set_bit-len : (b : Bitmap) (i v : ℕ) → (set_bit b i v).bitmap_len ≡ b.bitmap_len
unfolding set_bit
set_bit-len b i v = ground arith

pub bitmap_set_lem : (b : Bitmap) (i v : ℕ) → v ≤ 1 → bitmap_set b i v ≡ ok (set_bit b i v)
unfolding bitmap_set
bitmap_set_lem b i v h = rw (let e : (v == 1 || v == 0) ≡ true = ground arith in e) refl
