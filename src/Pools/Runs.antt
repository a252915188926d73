-- ===== src/Pools/Runs.antt =====
-- Runs of bits that the address pools set and clear.
use leeos.Base.{
  ℕ, zero, suc, ◌+◌, ◌^◌, ◌≤◌, ◌<◌, ◌≡◌, ◌⊎◌, inl, inr, refl, ◌∙◌, u32, arith, Returns,
  Returns-mono,
}
use leeos.Bitmap.{Bitmap, set_bit}
use leeos.Bitmap.Bits.{
  IsBytes, bit_at, bit_at-set_bit, set_bit-IsBytes, set_bit-len, bitmap_set_lem,
}
use leeos.Pools.{set_run}

-- What setting the bits from `start` on leaves.
pub record RunSet (b : Bitmap) (start cnt value : ℕ) (b' : Bitmap) : Type 0 where
  pub bytes : IsBytes b'.bits
  pub len : b'.bitmap_len ≡ b.bitmap_len
  pub inside : (j : ℕ) → start ≤ j → j < start + cnt → bit_at b' j ≡ value
  pub outside : (j : ℕ) → (j < start) ⊎ (start + cnt ≤ j) → bit_at b' j ≡ bit_at b j

pub set_bit-RunSet :
    (b : Bitmap) (i v : ℕ) → IsBytes b.bits → v ≤ 1 → RunSet b i 1 v (set_bit b i v)
set_bit-RunSet b i v h hv = record {
  bytes = set_bit-IsBytes b i v h;
  len = set_bit-len b i v;
  inside = λ j lo hi. bit_at-set_bit b i v j h hv ∙ ground arith;
  outside = λ j o. bit_at-set_bit b i v j h hv ∙ ground (arith, o);
}

RunSet-step :
    (b b1 b2 : Bitmap) (start cnt value : ℕ)
    → RunSet b start 1 value b1
    → RunSet b1 (suc start) cnt value b2
    → RunSet b start (suc cnt) value b2
RunSet-step b b1 b2 start cnt value r s = record {
  bytes = s.bytes;
  len = s.len ∙ r.len;
  inside = λ j lo hi. elim (ℕ_cases start j lo) [
    | inl e ↦ s.outside j (inl (omega arith)) ∙ r.inside j lo (omega arith)
    | inr l ↦ s.inside j l (omega arith)
  ];
  outside = λ j o. s.outside j (omega (arith, o)) ∙ r.outside j (omega (arith, o));
}
  where
    ℕ_cases : (a c : ℕ) → a ≤ c → (c ≡ a) ⊎ (suc a ≤ c)
    ℕ_cases a c h = omega arith

pub set_run-RunSet :
    (b : Bitmap) (start cnt value : ℕ)
    → IsBytes b.bits
    → value ≤ 1
    → start + cnt < 2 ^ 32
    → Returns (set_run b start cnt value) (RunSet b start cnt value)
unfolding set_run
set_run-RunSet b start zero value h hv small = record {
  bytes = h;
  len = refl;
  inside = λ j lo hi. absurd (omega arith);
  outside = λ j o. refl;
}
set_run-RunSet b start (suc cnt) value h hv small =
    rw (bitmap_set_lem b start value hv, let e : u32 (start + 1) ≡ suc start = omega arith in e)
      (Returns-mono (set_run (set_bit b start value) (suc start) cnt value)
        (RunSet (set_bit b start value) (suc start) cnt value) (RunSet b start (suc cnt) value)
        (set_run-RunSet (set_bit b start value) (suc start) cnt value
          (set_bit-IsBytes b start value h) hv (omega arith))
        (λ b2 s.
          RunSet-step b (set_bit b start value) b2 start cnt value
            (set_bit-RunSet b start value h hv) s))
