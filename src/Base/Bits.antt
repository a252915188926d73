-- ===== src/Base/Bits.antt =====
-- Bit operations on bytes and words, at variables.
use Prim.Native.Nat.{ℕ, zero, suc, ◌-◌, ◌*◌, ◌/◌, ◌%◌, ◌^◌, ◌≤◌, ◌<◌, bit_and, bit_or}
use mathlib.Core.Path.{◌≡◌, refl}
use mathlib.Core.Logic.{◌≢◌, inl, inr}
use mathlib.Core.Bool.{Bool, true, false}
use native.Mathlib.Omega.{arith}
use leeos.Base.Tests.{◌==◌, ==_iff, Bool-cases, if◌then◌else◌, u8}

-- A test of every number below a bound, which decides a claim on a small range by evaluation.
unfoldable pub check_below : ℕ → (ℕ → Bool) → Bool
check_below zero test = true
check_below (suc bound) test = if test bound then check_below bound test else false

pub check_below_sound :
    (bound : ℕ) (test : ℕ → Bool) (i : ℕ)
    → check_below bound test ≡ true
    → i < bound
    → test i ≡ true
unfolding check_below
check_below_sound zero test i all below = absurd (omega arith)
check_below_sound (suc bound) test i all below = elim (Bool-cases (test bound)) [
  | inl here ↦ elim (Bool-cases (i == bound)) [
    | inl same ↦ rw ((==_iff i bound).0 same) here
    | inr other ↦ check_below_sound bound test i (rw here at all) (ground arith)
  ]
  | inr fails ↦ absurd (ground arith)
]

-- `~ x` on a 32-bit operand.
abbrev pub not32 : ℕ → ℕ
not32 x = 2 ^ 32 - 1 - x

-- Bit `k` of `b`, by arithmetic.
unfoldable pub bit : ℕ → ℕ → ℕ
bit b k = b / 2 ^ k % 2

-- 1 if the bits below `n` are all set.
bits_of : ℕ → ℕ → ℕ
bits_of zero b = 1
bits_of (suc n) b = if bit b n == 1 then bits_of n b else 0

test_table :
    check_below 256
      (λ b. check_below 8 (λ k. (if u8 (bit_and b (1 * 2 ^ k)) == 0 then 0 else 1) == bit b k))
    ≡ true
unfolding check_below bit
test_table = refl

pub byte_test :
    (b k : ℕ) → b < 256 → k < 8 → (if u8 (bit_and b (1 * 2 ^ k)) == 0 then 0 else 1) ≡ bit b k
byte_test b k hb hk =
    (==_iff _ _).0 (check_below_sound 8 _ k (check_below_sound 256 _ b test_table hb) hk)

flip_table :
    check_below 256
      (λ b. check_below 9 (λ k. (if bit_and (1 * 2 ^ k) b == 0 then 0 else 1) == bit b k))
    ≡ true
unfolding check_below bit
flip_table = refl

pub byte_test_flip :
    (b k : ℕ) → b < 256 → k < 9 → (if bit_and (1 * 2 ^ k) b == 0 then 0 else 1) ≡ bit b k
byte_test_flip b k hb hk =
    (==_iff _ _).0 (check_below_sound 9 _ k (check_below_sound 256 _ b flip_table hb) hk)

or_table :
    check_below 256 (λ b. check_below 8 (λ k.
      check_below 8 (λ j. bit (u8 (bit_or b (1 * 2 ^ k))) j == (if k == j then 1 else bit b j))))
    ≡ true
unfolding check_below bit
or_table = refl

pub byte_or :
    (b k j : ℕ)
    → b < 256
    → k < 8
    → j < 8
    → bit (u8 (bit_or b (1 * 2 ^ k))) j ≡ (if k == j then 1 else bit b j)
byte_or b k j hb hk hj = (==_iff _ _).0 (
    check_below_sound 8 _ j (check_below_sound 8 _ k (check_below_sound 256 _ b or_table hb) hk) hj)

clear_table :
    check_below 256 (λ b. check_below 8 (λ k.
      check_below 8
        (λ j. bit (u8 (bit_and b (not32 (1 * 2 ^ k)))) j == (if k == j then 0 else bit b j))))
    ≡ true
unfolding check_below bit
clear_table = refl

pub byte_clear :
    (b k j : ℕ)
    → b < 256
    → k < 8
    → j < 8
    → bit (u8 (bit_and b (not32 (1 * 2 ^ k)))) j ≡ (if k == j then 0 else bit b j)
byte_clear b k j hb hk hj = (==_iff _ _).0 (
    check_below_sound 8 _ j (check_below_sound 8 _ k (check_below_sound 256 _ b clear_table hb) hk)
      hj)

-- The bits of a byte: all set in 0xff, and one is clear in any other.
full_table : check_below 256 (λ b. (if b == 0xff then 1 else 0) == bits_of 8 b) ≡ true
unfolding check_below bits_of bit
full_table = refl

bits_all : (n b k : ℕ) → bits_of n b ≡ 1 → k < n → bit b k ≡ 1
unfolding bits_of
bits_all zero b k h lt = absurd (omega arith)
bits_all (suc n) b k h lt = ground (arith, bits_all n b k)

pub byte_full : (k : ℕ) → k < 8 → bit 0xff k ≡ 1
unfolding bits_of bit
byte_full k h = bits_all 8 0xff k refl h

bits_some : (n b : ℕ) → ((k : ℕ) → k < n → bit b k ≡ 1) → bits_of n b ≡ 1
unfolding bits_of
bits_some zero b h = refl
bits_some (suc n) b h = ground (arith, bits_some n b (λ k lt. h k (omega arith)), h n (omega arith))

pub byte_not_full : (b : ℕ) → b < 256 → b ≢ 0xff → ((k : ℕ) → k < 8 → bit b k ≡ 1) → ⊥
byte_not_full b hb ne all = ground (
  arith,
  (==_iff (if b == 0xff then 1 else 0) (bits_of 8 b)).0 (check_below_sound 256 _ b full_table hb),
  bits_some 8 b all,
)

pub bit-le : (b k : ℕ) → bit b k ≤ 1
unfolding bit
bit-le b k = omega arith
