-- ===== src/Ide/Identify.antt =====
-- swap_pairs_bytes and identify_disk of device/ide.c: the words of an IDENTIFY sector hold text
-- with the first character of each pair in the high byte.
use leeos.Base.{
  ℕ, zero, suc, ◌+◌, ◌-◌, ◌*◌, ◌%◌, ◌^◌, ◌≤◌, ◌<◌, ◌≡◌, true, false, ◌==◌, if◌then◌else◌, ltb, u8,
  arith, Run, ok, stuck, ◌>>=◌, Returns, Returns-mono,
}
use leeos.Base.Memory.{update}
use leeos.Ide.{
  Controller, Disk, Driver, cmd_identify, select_disk, cmd_out, await_disk, busy_wait,
  report_unless, read_from_sector,
}

-- `idx` is a byte; `dst` counts what is read. On fuel, since `idx` wraps.
unfoldable pub swap_pairs : ℕ → (ℕ → ℕ) → ℕ → ℕ → ℕ → (ℕ → ℕ) → Run (ℕ → ℕ)
swap_pairs zero src len idx dst buf = stuck
swap_pairs (suc fuel) src len idx dst buf =
    let pair = update (update buf (idx + 1) (src dst)) idx (src (dst + 1)) in
    let rest = swap_pairs fuel src len (u8 (idx + 2)) (dst + 2) pair in
    if ltb idx len then rest else ok (update buf idx 0)

unfoldable pub swap_pairs_bytes : ℕ → (ℕ → ℕ) → (ℕ → ℕ) → ℕ → Run (ℕ → ℕ)
swap_pairs_bytes fuel src buf len = swap_pairs fuel src len 0 0 buf

-- The place of a character in the other order.
abbrev pub across : ℕ → ℕ
across i = if i % 2 == 0 then i + 1 else i - 1

module _ (src : ℕ → ℕ) (n : ℕ) (small : n ≤ 127) where
  swap_pairs_from :
      (fuel k left : ℕ) (buf : ℕ → ℕ)
      → left < fuel
      → k + left ≡ n
      → Returns (swap_pairs fuel src (2 * n) (2 * k) (2 * k) buf) (λ out.
        (i : ℕ)
        → out i ≡ (
            if ltb i (2 * k)
            then buf i
            else if ltb i (2 * n)
            then src (across i)
            else if i == 2 * n
            then 0
            else buf i))
  unfolding swap_pairs
  swap_pairs_from zero k left buf f e = absurd (omega arith)
  swap_pairs_from (suc fuel) k zero buf f e =
      rw (let done : ltb (2 * k) (2 * n) ≡ false = ground arith in done) (λ i. ground arith)
  swap_pairs_from (suc fuel) k (suc left) buf f e =
      let pair = update (update buf (2 * k + 1) (src (2 * k))) (2 * k) (src (2 * k + 1)) in
      rw
        (
          let more : ltb (2 * k) (2 * n) ≡ true = ground arith in more,
          let on : u8 (2 * k + 2) ≡ 2 * suc k = omega arith in on,
          let along : 2 * k + 2 ≡ 2 * suc k = omega arith in along,
        )
        (Returns-mono (swap_pairs fuel src (2 * n) (2 * suc k) (2 * suc k) pair) _ _
          (swap_pairs_from fuel (suc k) left pair (omega arith) (omega arith))
          (λ out h i. ground (
            arith,
            h i,
            let even : across (2 * k) ≡ 2 * k + 1 = ground arith in even,
            let odd : across (2 * k + 1) ≡ 2 * k = ground arith in odd,
          )))

  -- swap_pairs_bytes for an even length of at most 254, with fuel for more rounds than there
  -- are pairs, returns although its index is a byte, with the two characters of each pair in
  -- the other order, a zero behind the last, and every byte after that as before.
  pub swap_pairs_bytes_swaps :
      (fuel : ℕ) (buf : ℕ → ℕ)
      → n < fuel
      → Returns (swap_pairs_bytes fuel src buf (2 * n)) (λ out.
        ((i : ℕ) → i < 2 * n → out i ≡ src (across i))
        × (out (2 * n) ≡ 0)
        × ((i : ℕ) → 2 * n < i → out i ≡ buf i))
  unfolding swap_pairs_bytes
  swap_pairs_bytes_swaps fuel buf f =
      Returns-mono (swap_pairs fuel src (2 * n) 0 0 buf) _ _
        (swap_pairs_from fuel 0 n buf f (omega arith))
        (λ out h.
          (λ i lt. ground (arith, h i), ground (arith, h (2 * n)), λ i lt. ground (arith, h i)))

-- What identify_disk prints: the serial number, the model, and the sectors of the disk.
pub record Identity : Type 0 where
  pub sn : ℕ → ℕ
  pub model : ℕ → ℕ
  pub sectors : ℕ

-- The addresses of the arrays `hd_info` and `buf` are the stack's.
unfoldable pub identify_disk :
    (c : Controller) → ℕ → ℕ → Disk → ℕ → Driver c.State → Run (Identity × Driver c.State)
identify_disk c fuel hd_info hd buf d = do
  d1 ← await_disk c hd (cmd_out c hd cmd_identify (select_disk c hd d))
  d2 ← report_unless c (busy_wait c hd d1)
  let d3 = read_from_sector c hd hd_info 1 d2
  let info = λ (i : ℕ). d3.memory (hd_info + i)
  sn ← swap_pairs_bytes fuel (λ i. info (20 + i)) (λ i. d3.memory (buf + i)) 20
  model ← swap_pairs_bytes fuel (λ i. info (54 + i)) (λ i. if ltb i 64 then 0 else sn i) 40
  let sectors = info 120 + 2 ^ 8 * info 121 + 2 ^ 16 * info 122 + 2 ^ 24 * info 123
  ok (record { sn = sn; model = model; sectors = sectors }, d3)
