-- ===== src/Tests/Frames.antt =====
-- Bitmaps of two bytes, and the pools that they stand for.
use leeos.Base.{ℕ, ◌≤◌, ◌<◌, ◌≡◌, refl, arith, Returns, ◌==◌, if◌then◌else◌, true, ==_iff}
use leeos.Base.Bits.{bit, check_below, check_below_sound}
use leeos.Bitmap.{Bitmap, bitmap_scan}
use leeos.Bitmap.Bits.{bit_at}
use leeos.Bitmap.Scan.{ScanFound, bitmap_scan-ScanFound}
use leeos.Pools.{Pool, palloc}
use leeos.Pools.Pages.{IsPool, Palloced, palloc-Palloced}

-- The first three bits in use.
abbrev some_used : Bitmap
some_used = record { bitmap_len = 2; bits = λ i. if i == 0 then 7 else 0 }

-- All bits but the last in use, with a clear byte behind the bitmap.
abbrev last_free : Bitmap
last_free = record { bitmap_len = 2; bits = λ i. if i == 0 then 255 else if i == 1 then 127 else 0 }

bitmap_scan-ScanFound_example : ScanFound some_used 4 (bitmap_scan some_used 4)
bitmap_scan-ScanFound_example =
    bitmap_scan-ScanFound some_used 4 (λ i. ground arith) (omega arith) (omega arith)

last_free_table : check_below 15 (λ j. bit_at last_free j == 1) ≡ true
unfolding check_below bit
last_free_table = refl

last_free-Used : (j : ℕ) → 0 ≤ j → j < 15 → bit_at last_free j ≡ 1
last_free-Used j lo hi =
    (==_iff (bit_at last_free j) 1).0
      (check_below_sound 15 (λ i. bit_at last_free i == 1) j last_free_table hi)

last_free-Free : (j : ℕ) → 15 ≤ j → j < 17 → bit_at last_free j ≡ 0
unfolding bit
last_free-Free j lo hi = ground arith

abbrev kernel_frames : Pool
kernel_frames = record { pool_bitmap = some_used; phy_start_addr = 0x200000; mem_size = 0x10000 }

kernel_frames-IsPool : IsPool kernel_frames
kernel_frames-IsPool = record {
  bytes = λ i. ground arith;
  start = omega arith;
  end = omega arith;
  small = omega arith;
}

palloc-Palloced_example : Returns (palloc kernel_frames) (Palloced kernel_frames)
palloc-Palloced_example = palloc-Palloced kernel_frames kernel_frames-IsPool
