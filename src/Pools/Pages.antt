-- ===== src/Pools/Pages.antt =====
-- Pages of the physical pools: palloc and pfree.
use leeos.Base.{
  ℕ, ◌+◌, ◌-◌, ◌*◌, ◌/◌, ◌%◌, ◌^◌, ◌≤◌, ◌<◌, ◌≡◌, inl, inr, refl, false, ◌==◌, ==_iff, ltb, u32,
  sub32, none, some, Option-cases, Bool-cases, lt→ltb, arith, Returns,
}
use leeos.Base.Bits.{bit-le}
use leeos.Bitmap.{Bitmap, bitmap_scan, set_bit}
use leeos.Bitmap.Bits.{IsBytes, bit_at, bitmap_set_lem}
use leeos.Bitmap.Scan.{ScanFound, bitmap_scan-ScanFound, IsSmall, Free, Used}
use leeos.Pools.{Pool, Memory, palloc, pfree, page_size}
use leeos.Pools.Runs.{RunSet, set_bit-RunSet}

-- A pool whose bitmap is small and whose pages have addresses.
pub record IsPool (p : Pool) : Type 0 where
  pub bytes : IsBytes p.pool_bitmap.bits
  pub start : 0 < p.phy_start_addr
  pub end : p.phy_start_addr + page_size * (p.pool_bitmap.bitmap_len * 8) ≤ 2 ^ 32
  pub small : IsSmall p.pool_bitmap

-- What palloc returns for a pool: the first free page, which is then in use, or 0 if all are.
pub data Palloced (p : Pool) : ℕ × Pool → Type 0 where
  full : Used p.pool_bitmap 0 (p.pool_bitmap.bitmap_len * 8) → Palloced p (0, p)
  page :
      (i : ℕ) (p' : Pool)
      → i < p.pool_bitmap.bitmap_len * 8
      → bit_at p.pool_bitmap i ≡ 0
      → Used p.pool_bitmap 0 i
      → RunSet p.pool_bitmap i 1 1 p'.pool_bitmap
      → p'.phy_start_addr ≡ p.phy_start_addr
      → Palloced p (p.phy_start_addr + page_size * i, p')

not_free-Used : (b : Bitmap) (n : ℕ) → ((s : ℕ) → s < n → Free b s (s + 1) → ⊥) → Used b 0 n
not_free-Used b n h j lo hi = elim (Bool-cases (bit_at b j == 0)) [
  | inl e ↦ absurd (
      h j hi (λ j' l u. rw (let same : j' ≡ j = omega arith in same) ((==_iff (bit_at b j) 0).0 e)))
  | inr e ↦ ground (arith, bit-le (b.bits (j / 8)) (j % 8))
]

-- palloc, for a pool whose bitmap is small and whose pages have addresses, returns 0 and
-- changes nothing if every page of the pool is in use; otherwise it returns the address of the
-- first page that is free, marks that page and no other as in use, and leaves the start of the
-- pool.
pub palloc-Palloced : (p : Pool) → IsPool p → Returns (palloc p) (Palloced p)
unfolding palloc
palloc-Palloced p v =
    let found = bitmap_scan-ScanFound p.pool_bitmap 1 v.bytes v.small (omega arith) in
    elim (Option-cases (bitmap_scan p.pool_bitmap 1)) [
      | inl e ↦
          let none_free : ScanFound p.pool_bitmap 1 none = rw e at found in
          rw (e, palloc)
            (Palloced.full (
              not_free-Used p.pool_bitmap (p.pool_bitmap.bitmap_len * 8)
                (λ s h. none_free s h (omega arith))))
      | inr (i, e) ↦
          let at : ScanFound p.pool_bitmap 1 (some i) = rw e at found in
          let addr : u32 (p.phy_start_addr + page_size * i) ≡ p.phy_start_addr + page_size * i =
            omega (arith, at.0, v.end) in
          rw (e, palloc, bitmap_set_lem p.pool_bitmap i 1 (omega arith), addr)
            (Palloced.page i (record p { pool_bitmap = set_bit p.pool_bitmap i 1 }) at.0
              (at.2 i (omega arith) (omega arith))
              (not_free-Used p.pool_bitmap i (λ s h. at.3 s (omega arith)))
              (set_bit-RunSet p.pool_bitmap i 1 v.bytes (omega arith)) refl)
    ]

-- The pools as mem_pool_init lays them out, the user's behind the kernel's.
pub record ArePools (k : Memory) : Type 0 where
  pub kernel : IsPool k.kernel_pool
  pub user : IsPool k.user_pool
  pub order :
      k.kernel_pool.phy_start_addr + page_size * (k.kernel_pool.pool_bitmap.bitmap_len * 8)
      ≤ k.user_pool.phy_start_addr

-- What pfree leaves when it clears a bit of the pool of user pages, or of the kernel's.
pub record FreedUser (k : Memory) (i : ℕ) (k' : Memory) : Type 0 where
  pub user : RunSet k.user_pool.pool_bitmap i 1 0 k'.user_pool.pool_bitmap
  pub kernel : k'.kernel_pool ≡ k.kernel_pool

pub record FreedKernel (k : Memory) (i : ℕ) (k' : Memory) : Type 0 where
  pub kernel : RunSet k.kernel_pool.pool_bitmap i 1 0 k'.kernel_pool.pool_bitmap
  pub user : k'.user_pool ≡ k.user_pool

page_index :
    (start i : ℕ)
    → start + page_size * i < 2 ^ 32
    → sub32 (start + page_size * i) start / page_size ≡ i
page_index start i h = omega arith

-- With the user's pool behind the kernel's, pfree of a page of the user's pool, other than its
-- first, clears the bit of that page and no other bit of either pool.
pub pfree_user :
    (k : Memory) (i : ℕ)
    → ArePools k
    → 0 < i
    → i < k.user_pool.pool_bitmap.bitmap_len * 8
    → Returns (pfree (k.user_pool.phy_start_addr + page_size * i) k) (FreedUser k i)
unfolding pfree
pfree_user k i v pos small =
    let u = k.user_pool in
    rw
      (
        lt→ltb u.phy_start_addr (u.phy_start_addr + page_size * i) (omega arith),
        page_index u.phy_start_addr i (omega (arith, v.user.end)),
        bitmap_set_lem u.pool_bitmap i 0 (omega arith),
      )
      (record { user = set_bit-RunSet u.pool_bitmap i 0 v.user.bytes (omega arith); kernel = refl })

-- With the user's pool behind the kernel's, pfree of a page of the kernel's pool clears the bit
-- of that page and no other bit of either pool.
pub pfree_kernel :
    (k : Memory) (i : ℕ)
    → ArePools k
    → i < k.kernel_pool.pool_bitmap.bitmap_len * 8
    → Returns (pfree (k.kernel_pool.phy_start_addr + page_size * i) k) (FreedKernel k i)
unfolding pfree
pfree_kernel k i v small =
    let p = k.kernel_pool in
    rw
      (
        let no : ltb k.user_pool.phy_start_addr (p.phy_start_addr + page_size * i) ≡ false =
              ground (arith, v.order) in
            no,
        page_index p.phy_start_addr i (omega (arith, v.kernel.end)),
        bitmap_set_lem p.pool_bitmap i 0 (omega arith),
      )
      (record {
        kernel = set_bit-RunSet p.pool_bitmap i 0 v.kernel.bytes (omega arith);
        user = refl;
      })

-- With the user's pool behind the kernel's, pfree of the first page of the user's pool leaves
-- that pool as it was, and clears the bit of the kernel's pool that stands for the distance
-- between the pools.
pub pfree_first_user_page :
    (k : Memory)
    → ArePools k
    → Returns
        (pfree k.user_pool.phy_start_addr k)
        (FreedKernel k ((k.user_pool.phy_start_addr - k.kernel_pool.phy_start_addr) / page_size))
unfolding pfree
pfree_first_user_page k v =
    let p = k.kernel_pool in
    let u = k.user_pool.phy_start_addr in
    rw
      (
        let no : ltb u u ≡ false = ground arith in no,
        let e : sub32 u p.phy_start_addr / page_size ≡ (u - p.phy_start_addr) / page_size =
              omega (arith, v.order, v.user.end) in
            e,
        bitmap_set_lem p.pool_bitmap ((u - p.phy_start_addr) / page_size) 0 (omega arith),
      )
      (record {
        kernel =
            set_bit-RunSet p.pool_bitmap ((u - p.phy_start_addr) / page_size) 0 v.kernel.bytes
              (omega arith);
        user = refl;
      })
