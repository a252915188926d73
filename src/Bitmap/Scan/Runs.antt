-- ===== src/Bitmap/Scan/Runs.antt =====
-- The third loop of `bitmap_scan`, over single bits.
use leeos.Base.{
  ℕ, zero, suc, ◌+◌, ◌-◌, ◌/◌, ◌%◌, ◌^◌, ◌<◌, ◌≤◌, ◌≡◌, ◌≢◌, ◌∙◌, sym, ◌==◌, arith, inl, inr,
  Bool-cases, Option, none, some, sub32, u32, ==_iff, dec_lt,
}
use leeos.Base.Bits.{bit-le}
use leeos.Bitmap.{Bitmap, bitmap_scan_test, scan_run}
use leeos.Bitmap.Bits.{IsBytes, bit_at, bitmap_scan_test_lem}
use leeos.Bitmap.Scan.First.{Free}

-- No `cnt` free bits in a row end at `hi` or before.
abbrev pub NoRun : Bitmap → ℕ → ℕ → Type 0
NoRun b cnt hi = (s : ℕ) → s + cnt ≤ hi → Free b s (s + cnt) → ⊥

-- What the loop over the bits knows at `bit_index`: the last `counter` bits are free, and no
-- longer run ends there.
pub record RunState (b : Bitmap) (cnt counter bit_index : ℕ) : Type 0 where
  pub short : counter < cnt
  pub inside : counter ≤ bit_index
  pub run : Free b (bit_index - counter) bit_index
  pub maximal : (s : ℕ) → s + counter < bit_index → Free b s bit_index → ⊥
  pub missed : NoRun b cnt bit_index

-- What a result says, for bits below `hi`: the first `cnt` free bits in a row, or that none are.
abbrev pub RunFound : Bitmap → ℕ → ℕ → Option ℕ → Type 0
RunFound b cnt hi none = NoRun b cnt hi
RunFound b cnt hi (some r) = (r + cnt ≤ hi) × Free b r (r + cnt) × NoRun b cnt (r + cnt - 1)

module _ (b : Bitmap) (cnt : ℕ) where
  RunState-free :
      (counter i : ℕ)
      → RunState b cnt counter i
      → bit_at b i ≡ 0
      → counter + 1 ≢ cnt
      → RunState b cnt (counter + 1) (i + 1)
  RunState-free counter i st free more = record {
    short = omega (arith, st.short);
    inside = omega (arith, st.inside);
    run = λ j a c. ground (arith, st.run j, st.inside);
    maximal = λ s h all. st.maximal s (omega arith) (λ j a c. all j a (omega arith));
    missed = λ s h all. elim (dec_lt (s + cnt) (i + 1)) [
      | yes before ↦ st.missed s (omega arith) all
      | no last ↦
          st.maximal s (omega (arith, st.short)) (λ j a c. all j a (omega (arith, st.short)))
    ];
  }

  RunState-used :
      (counter i : ℕ) → RunState b cnt counter i → bit_at b i ≡ 1 → RunState b cnt 0 (i + 1)
  RunState-used counter i st used = record {
    short = omega (arith, st.short);
    inside = omega arith;
    run = λ j a c. absurd (omega arith);
    maximal = λ s h all. absurd (omega (arith, all i (omega arith) (omega arith)));
    missed = λ s h all. elim (dec_lt (s + cnt) (i + 1)) [
      | yes before ↦ st.missed s (omega arith) all
      | no last ↦ absurd (omega (arith, all i (omega (arith, st.short)) (omega (arith, st.short))))
    ];
  }

  pub scan_run-RunFound :
      (left counter i : ℕ)
      → IsBytes b.bits
      → i + left < 2 ^ 31
      → RunState b cnt counter i
      → RunFound b cnt (i + left) (scan_run b cnt left counter i)
  unfolding scan_run
  scan_run-RunFound zero counter i h small st = λ s e all. st.missed s (omega arith) all
  scan_run-RunFound (suc left) counter i h small st =
      let wrap : u32 (i + 1) ≡ i + 1 = omega arith in
      let end : i + 1 + left ≡ i + suc left = omega arith in
      elim (Bool-cases (bitmap_scan_test b i == 0)) [
        | inl t ↦
            let free : bit_at b i ≡ 0 = (==_iff _ _).0 (sym (bitmap_scan_test_lem b i h) ∙ t) in
            elim (Bool-cases (counter + 1 == cnt)) [
              | inl last ↦
                  let start : sub32 (u32 (i + 1)) cnt ≡ i - counter = ground (arith, st.inside) in
                  let upto : i - counter + cnt ≡ i + 1 = ground (arith, st.inside) in
                  rw (t, last, start)
                    (
                      omega (arith, upto),
                      λ j a c. elim (dec_lt j i) [
                        | yes old ↦ st.run j a old
                        | no new ↦ rw (let e : j ≡ i = omega (arith, upto) in e) free
                      ],
                      λ s' e all. st.missed s' (omega (arith, upto)) all,
                    )
              | inr more ↦
                  rw (t, more, wrap, ← end)
                    (scan_run-RunFound left (counter + 1) (i + 1) h (omega arith)
                      (RunState-free counter i st free (ground arith)))
            ]
        | inr t ↦
            let used : bit_at b i ≡ 1 =
              ground (arith, bitmap_scan_test_lem b i h, bit-le (b.bits (i / 8)) (i % 8)) in
            rw (t, wrap, ← end)
              (scan_run-RunFound left 0 (i + 1) h (omega arith) (RunState-used counter i st used))
      ]
