-- ===== src/Bitmap.antt =====
-- lib/bitmap.c: the bitmaps that the page pools and the file system allocate from.
pub mod Bits
pub mod Scan
use Prim.Native.Nat.{bit_and, bit_or}
use leeos.Base.{
  ℕ, zero, suc, ◌+◌, ◌-◌, ◌*◌, ◌/◌, ◌%◌, ◌^◌, ◌<◌, ◌≡◌, Bool, true, false, Option, none, some, ltb,
  ◌==◌, if◌then◌else◌, u8, u32, sub32, rounds_of, ◌||◌, Run, ok, ◌>>=◌, ◌>>◌, assert,
}
use leeos.Base.Memory.{update}
use leeos.Base.Bits.{not32}

-- `struct bitmap`. `bits` is the memory from the pointer on; the bitmap is its first
-- `bitmap_len` bytes, and what lies behind them belongs to something else.
pub record Bitmap : Type 0 where
  pub bitmap_len : ℕ
  pub bits : ℕ → ℕ

abbrev pub bit_mask : ℕ
bit_mask = 1

-- `memset(bits, 0, bitmap_len)`, one byte for each round.
pub clear_bytes : ℕ → (ℕ → ℕ) → ℕ → ℕ
clear_bytes zero bits = bits
clear_bytes (suc n) bits = update (clear_bytes n bits) n 0

pub bitmap_init : Bitmap → Bitmap
unfolding clear_bytes
bitmap_init btmp = record btmp { bits = clear_bytes btmp.bitmap_len btmp.bits }

-- The byte that holds the bit, masked: zero if the bit is clear.
pub bitmap_scan_test : Bitmap → ℕ → ℕ
bitmap_scan_test btmp index = u8 (bit_and (btmp.bits (index / 8)) (bit_mask * 2 ^ (index % 8)))

-- `while (index < len && 0xff == bits[index]) ++index`, with `len - index` rounds left.
pub scan_bytes : (ℕ → ℕ) → ℕ → ℕ → ℕ
scan_bytes bits zero index = index
scan_bytes bits (suc left) index = elim (bits index == 0xff) [
  | true ↦ scan_bytes bits left (index + 1)
  | false ↦ index
]

-- `while ((BIT_MASK << offset) & byte) ++offset`. A byte has no bit 8, so no further round is made.
pub scan_bits : ℕ → ℕ → ℕ → ℕ
scan_bits byte zero offset = offset
scan_bits byte (suc left) offset = elim (bit_and (bit_mask * 2 ^ offset) byte == 0) [
  | true ↦ offset
  | false ↦ scan_bits byte left (offset + 1)
]

-- The loop that looks for `cnt` free bits in a row: `bit_left` rounds. `none` is -1.
pub scan_run : Bitmap → (cnt bit_left counter bit_index : ℕ) → Option ℕ
scan_run btmp cnt zero counter bit_index = none
scan_run btmp cnt (suc left) counter bit_index =
    let found = scan_run btmp cnt left (counter + 1) (u32 (bit_index + 1)) in
    let used = scan_run btmp cnt left 0 (u32 (bit_index + 1)) in
    if bitmap_scan_test btmp bit_index == 0
    then (if counter + 1 == cnt then some (sub32 (u32 (bit_index + 1)) cnt) else found)
    else used

pub scan_from : Bitmap → ℕ → ℕ → Option ℕ
unfolding scan_run
scan_from btmp cnt bit_index =
    if cnt == 1
    then some bit_index
    else scan_run btmp cnt (rounds_of (sub32 (u32 (btmp.bitmap_len * 8)) bit_index)) 1
        (u32 (bit_index + 1))

-- The first bit of `cnt` free bits in a row, or `none` for -1.
unfoldable pub bitmap_scan : Bitmap → ℕ → Option ℕ
unfolding scan_bytes scan_bits scan_from bitmap_scan_test
bitmap_scan btmp cnt =
    let index = scan_bytes btmp.bits btmp.bitmap_len 0 in
    if index == btmp.bitmap_len
    then none
    else scan_from btmp cnt (u32 (index * 8 + scan_bits (btmp.bits index) 8 0))

-- The read, change and write of one byte.
pub set_bit : Bitmap → ℕ → ℕ → Bitmap
set_bit btmp index value =
    let base = index / 8 in
    let mask = bit_mask * 2 ^ (index % 8) in
    let old = btmp.bits base in
    if value == 0
    then record btmp { bits = update btmp.bits base (u8 (bit_and old (not32 mask))) }
    else record btmp { bits = update btmp.bits base (u8 (bit_or old mask)) }

unfoldable pub bitmap_set : Bitmap → ℕ → ℕ → Run Bitmap
bitmap_set btmp index value = do assert (value == 1 || value == 0); ok (set_bit btmp index value)
