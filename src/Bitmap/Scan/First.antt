-- ===== src/Bitmap/Scan/First.antt =====
-- The first two loops of `bitmap_scan`: the first byte that is not full, and its first free bit.
use leeos.Base.{
  ℕ, zero, suc, ◌+◌, ◌-◌, ◌*◌, ◌/◌, ◌%◌, ◌^◌, ◌<◌, ◌≤◌, ◌≡◌, ◌≢◌, refl, ◌∙◌, ltb, ltb→lt, ◌==◌,
  arith, inl, inr, Bool-cases, ==_iff, ap₂,
}
use Prim.Native.Nat.{bit_and}
use leeos.Base.Bits.{bit, byte_full, byte_not_full, byte_test_flip}
use leeos.Bitmap.{Bitmap, scan_bytes, scan_bits}
use leeos.Bitmap.Bits.{IsBytes, bit_at}

-- The bits from `lo` up to `hi` are all in use; are all free.
abbrev pub Used : Bitmap → ℕ → ℕ → Type 0
Used b lo hi = (j : ℕ) → lo ≤ j → j < hi → bit_at b j ≡ 1

abbrev pub Free : Bitmap → ℕ → ℕ → Type 0
Free b lo hi = (j : ℕ) → lo ≤ j → j < hi → bit_at b j ≡ 0

-- The bitmap's bits can be counted by an `int`.
abbrev pub IsSmall : Bitmap → Type 0
IsSmall b = b.bitmap_len * 8 + 2 ≤ 2 ^ 31

pub record BytesScanned (bits : ℕ → ℕ) (left index r : ℕ) : Type 0 where
  pub from : index ≤ r
  pub upto : r ≤ index + left
  pub full : (j : ℕ) → index ≤ j → j < r → bits j ≡ 0xff
  pub stop : r < index + left → bits r ≢ 0xff

pub scan_bytes_lem :
    (bits : ℕ → ℕ) (left index : ℕ) → BytesScanned bits left index (scan_bytes bits left index)
unfolding scan_bytes
scan_bytes_lem bits zero index = record {
  from = omega arith;
  upto = omega arith;
  full = λ j a b. absurd (omega arith);
  stop = λ h. absurd (omega arith);
}
scan_bytes_lem bits (suc left) index = elim (Bool-cases (bits index == 0xff)) [
  | inl e ↦
      rw (e, scan_bytes)
        (let ih = scan_bytes_lem bits left (index + 1) in
          record {
            from = omega (arith, ih.from);
            upto = omega (arith, ih.upto);
            full = λ j a c. ground (arith, ih.full j, (==_iff (bits index) 0xff).0 e);
            stop = λ h. ih.stop (omega arith);
          })
  | inr e ↦
      rw (e, scan_bytes)
        (record {
          from = omega arith;
          upto = omega arith;
          full = λ j a c. absurd (omega arith);
          stop = λ h. ground arith;
        })
]

record BitsScanned (byte offset r : ℕ) : Type 0 where
  from : offset ≤ r
  below : r < 8
  set : (k : ℕ) → offset ≤ k → k < r → bit byte k ≡ 1
  clear : bit byte r ≡ 0

scan_bits_lem :
    (byte left offset : ℕ)
    → byte < 256
    → offset + left ≡ 8
    → (((k : ℕ) → offset ≤ k → k < 8 → bit byte k ≡ 1) → ⊥)
    → BitsScanned byte offset (scan_bits byte left offset)
unfolding scan_bits
scan_bits_lem byte zero offset hb e some_clear = absurd (some_clear (λ k a c. absurd (omega arith)))
scan_bits_lem byte (suc left) offset hb e some_clear =
    elim (Bool-cases (bit_and (1 * 2 ^ offset) byte == 0)) [
      | inl t ↦
          rw (t, scan_bits)
            (record {
              from = omega arith;
              below = omega arith;
              set = λ k a c. absurd (omega arith);
              clear = ground (arith, byte_test_flip byte offset);
            })
      | inr t ↦
          let here : bit byte offset ≡ 1 = ground (arith, byte_test_flip byte offset) in
          let ih : BitsScanned byte (offset + 1) (scan_bits byte left (offset + 1)) =
            scan_bits_lem byte left (offset + 1) hb (omega arith)
              (λ all. some_clear (λ k a c. ground (arith, all k, here))) in
          rw (t, scan_bits)
            (record {
              from = omega (arith, ih.from);
              below = ih.below;
              set = λ k a c. ground (arith, ih.set k, here);
              clear = ih.clear;
            })
    ]

-- Whether `bitmap_scan` finds a byte that is not full, and the first free bit in it.
pub record FirstFree (b : Bitmap) (index : ℕ) : Type 0 where
  pub bounds : index * 8 + scan_bits (b.bits index) 8 0 < b.bitmap_len * 8
  pub free : bit_at b (index * 8 + scan_bits (b.bits index) 8 0) ≡ 0
  pub used : Used b 0 (index * 8 + scan_bits (b.bits index) 8 0)

-- The bits of full bytes are used.
pub full_bytes-Used :
    (b : Bitmap) (n : ℕ) → ((j : ℕ) → 0 ≤ j → j < n → b.bits j ≡ 0xff) → Used b 0 (n * 8)
full_bytes-Used b n full j a c =
    rw (full (j / 8) (omega arith) (omega arith)) (byte_full (j % 8) (omega arith))

bit_at-byte :
    (b : Bitmap) (index k j : ℕ) → k < 8 → j ≡ index * 8 + k → bit_at b j ≡ bit (b.bits index) k
bit_at-byte b index k j h e = ap₂ (λ x y. bit (b.bits x) y) (omega arith) (omega arith)

pub first_free :
    (b : Bitmap)
    → IsBytes b.bits
    → (index : ℕ) → BytesScanned b.bits b.bitmap_len 0 index
    → index ≢ b.bitmap_len
    → FirstFree b index
first_free b h index sc ne =
    let inside : index < b.bitmap_len = omega (arith, sc.upto) in
    let sb : BitsScanned (b.bits index) 0 (scan_bits (b.bits index) 8 0) =
      scan_bits_lem (b.bits index) 8 0 (h index) refl (λ all.
        byte_not_full (b.bits index) (h index) (sc.stop (omega arith))
          (λ k lt. all k (omega arith) lt)) in
    record {
      bounds = omega (arith, sb.below);
      free = bit_at-byte b index _ _ sb.below refl ∙ sb.clear;
      used = λ j a c. elim (Bool-cases (ltb j (index * 8))) [
        | inl before ↦ full_bytes-Used b index sc.full j a (ltb→lt _ _ before)
        | inr after ↦
            bit_at-byte b index (j - index * 8) j (omega (arith, sb.below)) (ground arith)
            ∙ sb.set (j - index * 8) (omega arith) (ground arith)
      ];
    }
