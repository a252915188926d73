-- ===== src/Bitmap/Scan.antt =====
-- `bitmap_scan`: which bit it returns, and when it finds none.
mod First
mod Runs
pub use First.{Used, Free, IsSmall}
pub use Runs.{NoRun}
use First.{BytesScanned, scan_bytes_lem, FirstFree, full_bytes-Used, first_free}
use Runs.{RunState, RunFound, scan_run-RunFound}
use leeos.Base.{
  ℕ, zero, suc, ◌+◌, ◌-◌, ◌*◌, ◌/◌, ◌%◌, ◌^◌, ◌<◌, ◌≤◌, ◌≡◌, ◌≢◌, refl, ◌∙◌, sym, Bool, true, false,
  ltb, ltb→lt, ◌==◌, if◌then◌else◌, arith, inl, inr, Bool-cases, Option, none, some, sub32, u32,
  rounds_of, ==_iff, ap, ap₂, dec_lt,
}
use Prim.Native.Nat.{bit_and}
use leeos.Base.Bits.{bit, byte_full, byte_not_full, byte_test_flip, bit-le}
use leeos.Bitmap.{Bitmap, bitmap_scan, bitmap_scan_test, scan_bytes, scan_bits, scan_run, scan_from}
use leeos.Bitmap.Bits.{IsBytes, bit_at, bitmap_scan_test_lem}

-- What `bitmap_scan` says of the bitmap. A row begins in it, and ends in it or one bit behind it.
abbrev pub ScanFound : Bitmap → ℕ → Option ℕ → Type 0
ScanFound b cnt none =
    (s : ℕ) → s < b.bitmap_len * 8 → s + cnt ≤ b.bitmap_len * 8 + 1 → Free b s (s + cnt) → ⊥
ScanFound b cnt (some r) =
    (r < b.bitmap_len * 8)
    × (r + cnt ≤ b.bitmap_len * 8 + 1)
    × Free b r (r + cnt)
    × NoRun b cnt (r + cnt - 1)

RunFound-ScanFound :
    (b : Bitmap) (cnt : ℕ)
    → 1 < cnt
    → (o : Option ℕ) → RunFound b cnt (b.bitmap_len * 8 + 1) o
    → ScanFound b cnt o
RunFound-ScanFound b cnt h none f = λ s i e all. f s e all
RunFound-ScanFound b cnt h (some r) f = (omega arith, f.0, f.1, f.2)

-- The scan from the first free bit on.
scan_from-ScanFound :
    (b : Bitmap) (cnt start : ℕ)
    → IsBytes b.bits
    → IsSmall b
    → 0 < cnt
    → start < b.bitmap_len * 8
    → bit_at b start ≡ 0
    → Used b 0 start
    → ScanFound b cnt (scan_from b cnt start)
unfolding scan_from
scan_from-ScanFound b cnt start h small pos lt free used =
    let none_before : (s : ℕ) → s < start → (e : ℕ) → s < e → Free b s e → ⊥ =
      λ s a e c all. omega (arith, all s (omega arith) c, used s (omega arith) a) in
    elim (Bool-cases (cnt == 1)) [
      | inl one ↦ rw one (
        lt,
        omega (arith, (==_iff cnt 1).0 one),
        λ j a c. rw (let e : j ≡ start = omega (arith, (==_iff cnt 1).0 one) in e) free,
        λ s e all. none_before s (omega (arith, (==_iff cnt 1).0 one)) (s + cnt) (omega arith) all,
      )
      | inr many ↦
          let left : rounds_of (sub32 (u32 (b.bitmap_len * 8)) start) ≡ b.bitmap_len * 8 - start =
            ground arith in
          let next : u32 (start + 1) ≡ start + 1 = omega arith in
          let end : start + 1 + (b.bitmap_len * 8 - start) ≡ b.bitmap_len * 8 + 1 = omega arith in
          rw (many, left, next)
            (RunFound-ScanFound b cnt (ground arith) _ (
              rw (← end) (
                scan_run-RunFound b cnt _ 1 (start + 1) h (omega arith) (record {
                  short = ground arith;
                  inside = omega arith;
                  run = λ j a c. rw (let e : j ≡ start = omega arith in e) free;
                  maximal = λ s a all. none_before s (omega arith) (start + 1) (omega arith) all;
                  missed = λ s e all. none_before s (ground arith) (s + cnt) (omega arith) all;
                }))))
    ]

-- bitmap_scan for at least one bit, in a bitmap of bytes whose bits an int counts, returns the
-- start of the first row of that many free bits that begins in the bitmap and ends in it or one
-- bit behind its end, or -1 if there is no such row.
pub bitmap_scan-ScanFound :
    (b : Bitmap) (cnt : ℕ)
    → IsBytes b.bits
    → IsSmall b
    → 0 < cnt
    → ScanFound b cnt (bitmap_scan b cnt)
unfolding bitmap_scan
bitmap_scan-ScanFound b cnt h small pos =
    let sc = scan_bytes_lem b.bits b.bitmap_len 0 in
    elim (Bool-cases (scan_bytes b.bits b.bitmap_len 0 == b.bitmap_len)) [
      | inl full ↦ rw full (λ s i e all. omega (
        arith,
        all s (omega arith) (omega arith),
        full_bytes-Used b b.bitmap_len (rw ((==_iff _ _).0 full) at sc.full) s (omega arith)
            (omega arith),
      ))
      | inr part ↦
          let ff : FirstFree b (scan_bytes b.bits b.bitmap_len 0) =
            first_free b h _ sc (ground arith) in
          let wrap : u32 (
                scan_bytes b.bits b.bitmap_len 0 * 8
                + scan_bits (b.bits (scan_bytes b.bits b.bitmap_len 0)) 8 0)
              ≡ scan_bytes b.bits b.bitmap_len 0 * 8
                + scan_bits (b.bits (scan_bytes b.bits b.bitmap_len 0)) 8 0 =
            omega (arith, ff.bounds) in
          rw (part, wrap) (scan_from-ScanFound b cnt _ h small pos ff.bounds ff.free ff.used)
    ]

-- Where the last bit of a bitmap is its only free bit, and the bit of memory behind it is
-- clear, bitmap_scan for two bits returns that last bit, so that the row ends behind the
-- bitmap.
pub bitmap_scan_overrun :
    (b : Bitmap)
    → IsBytes b.bits
    → IsSmall b
    → 0 < b.bitmap_len
    → Used b 0 (b.bitmap_len * 8 - 1)
    → Free b (b.bitmap_len * 8 - 1) (b.bitmap_len * 8 + 1)
    → bitmap_scan b 2 ≡ some (b.bitmap_len * 8 - 1)
bitmap_scan_overrun b h small pos used free =
    go (bitmap_scan b 2) (bitmap_scan-ScanFound b 2 h small (omega arith))
  where
    go : (o : Option ℕ) → ScanFound b 2 o → o ≡ some (b.bitmap_len * 8 - 1)
    go none f =
        absurd
          (f (b.bitmap_len * 8 - 1) (omega arith) (omega arith) (λ j a c. free j a (omega arith)))
    go (some r) f = elim (dec_lt r (b.bitmap_len * 8 - 1)) [
      | yes before ↦
          absurd (omega (arith, used r (omega arith) before, f.2 r (omega arith) (omega arith)))
      | no last ↦ ap some (omega (arith, f.0))
    ]
