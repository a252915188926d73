-- ===== src/Pools/Addresses.antt =====
-- The kernel's addresses: vaddr_get_pages and vaddr_remove_pages of kernel/memory.c.
use leeos.Base.{
  ℕ, ◌+◌, ◌*◌, ◌/◌, ◌^◌, ◌≤◌, ◌<◌, ◌≡◌, ◌≢◌, inl, inr, refl, ◌∙◌, sym, u32, sub32, some,
  Option-cases, arith, Returns, Returns-bind, ok, dec_lt,
}
use leeos.Bitmap.{Bitmap, bitmap_scan}
use leeos.Bitmap.Bits.{IsBytes, bit_at}
use leeos.Bitmap.Scan.{ScanFound, bitmap_scan-ScanFound, IsSmall, Free}
use leeos.Pools.{
  Memory, VirtualAddrs, vaddr_get_pages, vaddr_remove_pages, set_run, page_size, pf_kernel,
  set_vaddrs,
}
use leeos.Pools.Runs.{RunSet, set_run-RunSet}

-- A pool of addresses whose bitmap is small and whose pages, and one more, have addresses.
pub record IsVaddrs (v : VirtualAddrs) : Type 0 where
  pub bytes : IsBytes v.vaddr_bitmap.bits
  pub start : 0 < v.vaddr_start
  pub end : v.vaddr_start + page_size * (v.vaddr_bitmap.bitmap_len * 8 + 1) ≤ 2 ^ 32
  pub small : IsSmall v.vaddr_bitmap

-- The memory has the same kernel addresses in use.
abbrev pub SameAddrs : Memory → Memory → Type 0
SameAddrs k k' =
    (j : ℕ) → bit_at k'.kernel_vaddr.vaddr_bitmap j ≡ bit_at k.kernel_vaddr.vaddr_bitmap j

-- Setting a run of free bits and clearing it again leaves every bit as it was.
run_round_trip :
    (b b1 b2 : Bitmap) (s cnt : ℕ)
    → Free b s (s + cnt)
    → RunSet b s cnt 1 b1
    → RunSet b1 s cnt 0 b2
    → (j : ℕ) → bit_at b2 j ≡ bit_at b j
run_round_trip b b1 b2 s cnt free r1 r2 j = elim (dec_lt j s) [
  | no hi ↦ elim (dec_lt j (s + cnt)) [
    | yes lt ↦ r2.inside j (omega (arith, hi)) lt ∙ sym (free j (omega (arith, hi)) lt)
    | no ge ↦ r2.outside j (inr (omega (arith, ge))) ∙ r1.outside j (inr (omega (arith, ge)))
  ]
  | yes lt ↦ r2.outside j (inl lt) ∙ r1.outside j (inl lt)
]

-- What the two calls leave, one after the other, for a run that starts at the bit `s`.
removed :
    (k : Memory) (cnt s : ℕ) (b1 : Bitmap)
    → IsVaddrs k.kernel_vaddr
    → ScanFound k.kernel_vaddr.vaddr_bitmap cnt (some s)
    → RunSet k.kernel_vaddr.vaddr_bitmap s cnt 1 b1
    → Returns
        (vaddr_remove_pages pf_kernel cnt
          (k.kernel_vaddr.vaddr_start + page_size * s)
          (set_vaddrs pf_kernel (record k.kernel_vaddr { vaddr_bitmap = b1 }) k))
        (SameAddrs k)
unfolding vaddr_remove_pages
removed k cnt s b1 v at r1 =
    let v0 = k.kernel_vaddr in
    let i : sub32 (v0.vaddr_start + page_size * s) v0.vaddr_start / page_size ≡ s =
      omega (arith, at.0, v.end) in
    rw i (
      Returns-bind (set_run b1 s cnt 0)
        (λ b2. ok (record k { kernel_vaddr = record v0 { vaddr_bitmap = b2 } })) (RunSet b1 s cnt 0)
        (SameAddrs k)
        (set_run-RunSet b1 s cnt 0 r1.bytes (omega arith) (omega (arith, at.1, v.small)))
        (λ b2 r2. run_round_trip v0.vaddr_bitmap b1 b2 s cnt at.2 r1 r2))

-- What vaddr_get_pages promises of the kernel's addresses.
pub record GotAddrs (k : Memory) (cnt : ℕ) (r : ℕ × Memory) : Type 0 where
  pub fails : r.0 ≡ 0 → r.1 ≡ k
  pub restored : r.0 ≢ 0 → Returns (vaddr_remove_pages pf_kernel cnt r.0 r.1) (SameAddrs k)

-- vaddr_get_pages for the kernel, with at least one page and with a pool of addresses whose
-- bitmap is small and whose pages have addresses, returns; if it returns 0 it changes nothing,
-- and if it returns an address, vaddr_remove_pages for that address and as many pages returns
-- with the same kernel addresses in use as before the two calls.
vaddr_round_trip :
    (k : Memory) (cnt : ℕ)
    → IsVaddrs k.kernel_vaddr
    → 0 < cnt
    → Returns (vaddr_get_pages pf_kernel cnt k) (GotAddrs k cnt)
unfolding vaddr_get_pages
vaddr_round_trip k cnt v pos =
    let v0 = k.kernel_vaddr in
    let found = bitmap_scan-ScanFound v0.vaddr_bitmap cnt v.bytes v.small pos in
    elim (Option-cases (bitmap_scan v0.vaddr_bitmap cnt)) [
      | inl e ↦
          rw (e, vaddr_get_pages) (record { fails = λ z. refl; restored = λ ne. absurd (ne refl) })
      | inr (s, e) ↦
          let at : ScanFound v0.vaddr_bitmap cnt (some s) = rw e at found in
          let addr : u32 (v0.vaddr_start + page_size * s) ≡ v0.vaddr_start + page_size * s =
            omega (arith, at.0, v.end) in
          rw (e, vaddr_get_pages, addr)
            (Returns-bind (set_run v0.vaddr_bitmap s cnt 1)
              (λ b1. ok (
                v0.vaddr_start + page_size * s,
                record k { kernel_vaddr = record v0 { vaddr_bitmap = b1 } },
              ))
              (RunSet v0.vaddr_bitmap s cnt 1) (GotAddrs k cnt)
              (set_run-RunSet v0.vaddr_bitmap s cnt 1 v.bytes (omega arith)
                (omega (arith, at.1, v.small)))
              (λ b1 r1. record {
                fails = λ z. absurd (omega (arith, v.start));
                restored = λ ne. removed k cnt s b1 v at r1;
              }))
    ]
