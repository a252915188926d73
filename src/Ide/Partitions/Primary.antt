-- ===== src/Ide/Partitions/Primary.antt =====
-- The primary partitions that partition_scan of device/ide.c finds.
use mathlib.Core.List.{append-nil, append_assoc}
use leeos.Base.{
  ℕ, zero, suc, ◌+◌, ◌-◌, ◌*◌, ◌^◌, bind-halted, ◌≤◌, ◌<◌, ◌≡◌, ◌≢◌, refl, sym, ap, ◌∙◌, true,
  false, ◌==◌, if◌then◌else◌, ltb, u8, arith, List, [], ◌∷◌, ◌++◌, length, get_or, Run, halted,
  Returns, Returns-bind, Returns-mono, Bool-cases, inl, inr,
}
use leeos.Base.Memory.{update, update_self, update_ne}
use mathlib.Core.Path.{subst}
use leeos.Base.Bytes.{word_at-frame}
use leeos.Ide.{Disk}
use leeos.Ide.Ports.{IsAta, IsQuiet}
use leeos.Heap.{Heap}
use leeos.Files.{sector_size}
use leeos.Files.Space.{Machine, State, bytes, malloc, free, read_sectors}
use leeos.Files.Space.Sectors.{read_sectors-IsRead}
use leeos.Files.Opened.Blocks.{SameDisks, heap_malloc, heap_free, malloc_disks, IsQuiet-same}
use leeos.Ide.Partitions.{
  PartitionTableEntry, PartTag, prim_part, Scan, table_entry, partition_table, partition_of,
  Scanning, add_primary, scan_entry, scan_entries, partition_scan,
}

-- The entries that are in use.
abbrev pub used : List PartitionTableEntry → List PartitionTableEntry
used [] = []
used (p ∷ table) = if p.fs_type == 0 then used table else p ∷ used table

abbrev pub HasNoExtended : List PartitionTableEntry → Type 0
HasNoExtended [] = Unit
HasNoExtended (p ∷ table) = (p.fs_type ≢ 5) × HasNoExtended table

abbrev pub prim_tags : Disk → ℕ → List PartitionTableEntry → List PartTag
prim_tags hd idx [] = []
prim_tags hd idx (p ∷ table) = prim_part hd idx ∷ prim_tags hd (idx + 1) table

module _ (hd : Disk) where
  -- The entries are the partitions of the disk from the index on, in their order.
  pub record IsListed (idx : ℕ) (entries : List PartitionTableEntry) (s s' : Scan) : Type 0 where
    pub listed : s'.partition_list ≡ s.partition_list ++ prim_tags hd idx entries
    pub count : s'.primary_idx ≡ idx + length entries
    pub parts :
        (i : ℕ) (p : PartitionTableEntry)
        → i < length entries
        → s'.prim_parts (idx + i) ≡ partition_of hd 0 (get_or entries i p)
    pub before : (i : ℕ) → i < idx → s'.prim_parts i ≡ s.prim_parts i
    pub logic : s'.logic_idx ≡ s.logic_idx
    pub base : s'.extra_lba_base ≡ s.extra_lba_base

  -- What add_primary leaves, below four partitions.
  abbrev added : PartitionTableEntry → Scan → Scan
  added p s = record s {
    prim_parts = update s.prim_parts s.primary_idx (partition_of hd 0 p);
    primary_idx = s.primary_idx + 1;
    partition_list = s.partition_list ++ (prim_part hd s.primary_idx ∷ []);
  }

  parts_from :
      (p : PartitionTableEntry) (entries : List PartitionTableEntry) (s s' : Scan)
      → IsListed (s.primary_idx + 1) entries (added p s) s'
      → (i : ℕ) (q : PartitionTableEntry) → i < suc (length entries)
      → s'.prim_parts (s.primary_idx + i) ≡ partition_of hd 0 (get_or (p ∷ entries) i q)
  parts_from p entries s s' l zero q h =
      ap s'.prim_parts (let e : s.primary_idx + 0 ≡ s.primary_idx = omega arith in e)
      ∙ l.before s.primary_idx (omega arith)
      ∙ update_self s.prim_parts s.primary_idx (partition_of hd 0 p)
  parts_from p entries s s' l (suc i) q h =
      ap s'.prim_parts (let e : s.primary_idx + suc i ≡ s.primary_idx + 1 + i = omega arith in e)
      ∙ l.parts i q (omega arith)

  IsListed-cons :
      (p : PartitionTableEntry) (entries : List PartitionTableEntry) (s s' : Scan)
      → IsListed (s.primary_idx + 1) entries (added p s) s'
      → IsListed s.primary_idx (p ∷ entries) s s'
  IsListed-cons p entries s s' l =
      let idx = s.primary_idx in
      record {
        listed =
            l.listed
            ∙ append_assoc s.partition_list (prim_part hd idx ∷ [])
                (prim_tags hd (idx + 1) entries);
        count = omega (arith, l.count);
        parts = parts_from p entries s s' l;
        before = λ i h. l.before i (omega arith) ∙ update_ne s.prim_parts idx i _ (omega arith);
        logic = l.logic;
        base = l.base;
      }

-- The table of a sector is that of its bytes.
partition_table-frame :
    (bs bs' : ℕ → ℕ) → ((i : ℕ) → i < 512 → bs' i ≡ bs i) → partition_table bs' ≡ partition_table bs
partition_table-frame bs bs' same =
    let byte = λ (i : ℕ). λ (lt : i < 4). same (450 + 16 * i) (omega arith) in
    let start = λ (i : ℕ). λ (lt : i < 4).
      word_at-frame bs bs' (446 + 16 * i + 8) (λ j h. same (446 + 16 * i + 8 + j) (omega arith)) in
    let count = λ (i : ℕ). λ (lt : i < 4).
      word_at-frame bs bs' (446 + 16 * i + 12)
        (λ j h. same (446 + 16 * i + 12 + j) (omega arith)) in
    let entry : (i : ℕ) → i < 4 → table_entry bs' i ≡ table_entry bs i = λ i lt.
      rw
        (
          start i lt,
          count i lt,
          let t : bs' (446 + 16 * i + 4) ≡ bs (446 + 16 * i + 4) =
                same (446 + 16 * i + 4) (omega arith) in
              t,
        )
        refl in
    rw (entry 0 (omega arith), entry 1 (omega arith), entry 2 (omega arith), entry 3 (omega arith))
      refl

module _ (c : Machine) (hd : Disk) where
  open c use {controller, fuel}

  scan_entries-IsListed :
      (scan : ℕ → Scanning c → Run (Scanning c)) (table : List PartitionTableEntry) (s : Scan)
      (f : State c)
      → HasNoExtended table
      → s.primary_idx + length (used table) < 4
      → Returns
          (scan_entries c hd scan 0 table (s, f))
          (λ r. (r.0 ≡ false) × IsListed hd s.primary_idx (used table) s r.1.0 × (r.1.1 ≡ f))
  unfolding scan_entries scan_entry add_primary
  scan_entries-IsListed scan [] s f none few = (
    refl,
    record {
      listed = sym (append-nil s.partition_list);
      count = omega arith;
      parts = λ i p h. absurd (omega arith);
      before = λ i h. refl;
      logic = refl;
      base = refl;
    },
    refl,
  )
  scan_entries-IsListed scan (p ∷ table) s f (here, none) few =
      let five : (p.fs_type == 5) ≡ false = ground arith in
      elim (Bool-cases (p.fs_type == 0)) [
        | inl free ↦
            rw (five, free, scan_entry) (scan_entries-IsListed scan table s f none (ground arith))
        | inr in_use ↦
            rw
              (
                five,
                in_use,
                scan_entry,
                let next : u8 (s.primary_idx + 1) ≡ s.primary_idx + 1 = ground arith in next,
                let room : ltb (s.primary_idx + 1) 4 ≡ true = ground arith in room,
              )
              (Returns-mono (scan_entries c hd scan 0 table (added hd p s, f)) _ _
                (scan_entries-IsListed scan table (added hd p s) f none (ground arith))
                (λ r (go, l, same). (go, IsListed-cons hd p (used table) s r.1.0 l, same)))
      ]

  scan_entries_full :
      (scan : ℕ → Scanning c → Run (Scanning c)) (table : List PartitionTableEntry) (s : Scan)
      (f : State c)
      → HasNoExtended table
      → s.primary_idx < 4
      → 4 ≤ s.primary_idx + length (used table)
      → scan_entries c hd scan 0 table (s, f) ≡ halted
  unfolding scan_entries scan_entry add_primary
  scan_entries_full scan [] s f none some_ many = absurd (omega arith)
  scan_entries_full scan (p ∷ table) s f (here, none) some_ many =
      let five : (p.fs_type == 5) ≡ false = ground arith in
      elim (Bool-cases (p.fs_type == 0)) [
        | inl free ↦
            rw (five, free, scan_entry) (scan_entries_full scan table s f none some_ (ground arith))
        | inr in_use ↦
            let next : u8 (s.primary_idx + 1) ≡ s.primary_idx + 1 = ground arith in
            elim (Bool-cases (ltb (s.primary_idx + 1) 4)) [
              | inl room ↦
                  rw (five, in_use, scan_entry, next, room)
                    (scan_entries_full scan table (added hd p s) f none (ground arith)
                      (ground arith))
              | inr full ↦ rw (five, in_use, scan_entry, next, full) refl
            ]
      ]

  -- sys_malloc has a block for a sector, `bs`, and sys_free of it leaves the heap `given`.
  pub record HasBlock (bs : ℕ) (given h : Heap) : Type 0 where
    pub block :
        Returns
          (heap_malloc c sector_size h)
          (λ b. (b.0 ≡ bs) × Returns (heap_free c bs b.1) (λ h'. h' ≡ given))
    pub below : bs + 512 ≤ 2 ^ 32

  module _ (base : ℕ → ℕ) (content : controller.State → ℕ → ℕ → ℕ → ℕ) (bs : ℕ) (given : Heap)
      (f : State c) where
    -- The first sector of the disk.
    abbrev pub first_sector : ℕ → ℕ
    first_sector i = content f.driver.device hd.my_channel hd.dev_no i

    -- What the read of the first sector leaves in the block.
    record HasTable (f1 : State c) : Type 0 where
      quiet : IsQuiet controller base hd f1.driver
      keeps : content f1.driver.device ≡ content f.driver.device
      table : partition_table (λ i. bytes f1 (bs + i)) ≡ partition_table first_sector
      freed : Returns (heap_free c bs f1.heap) (λ h'. h' ≡ given)

    read_table :
        (b : ℕ × State c)
        → IsAta controller base content
        → IsQuiet controller base hd f.driver
        → bs + 512 ≤ 2 ^ 32
        → 1 < fuel
        → Returns (heap_free c bs b.1.heap) (λ h'. h' ≡ given)
        → SameDisks c f b.1
        → Returns (read_sectors c hd 0 bs 1 b.1) HasTable
    read_table b ata q below rounds freed same =
        Returns-mono (read_sectors c hd 0 bs 1 b.1) _ HasTable
          (read_sectors-IsRead c base content hd 0 bs b.1 ata (IsQuiet-same c base hd f b.1 same q)
            (omega arith) below rounds)
          (λ f1 (heap, r). record {
            quiet = r.quiet;
            keeps = r.keeps ∙ ap content same.0;
            table =
                partition_table-frame first_sector (λ i. bytes f1 (bs + i))
                  (λ i lt. ground (
                    arith,
                    r.memory (bs + i),
                    ap content same.0,
                    let e : 512 * 0 + (bs + i - bs) ≡ i = omega arith in e,
                  ));
            freed = rw heap freed;
          })

    free_given :
        (g : State c)
        → Returns (heap_free c bs g.heap) (λ h'. h' ≡ given)
        → Returns (free c bs g) (λ g'. (g'.driver ≡ g.driver) × (g'.heap ≡ given))
    unfolding free
    free_given g freed =
        Returns-bind (heap_free c bs g.heap) _ _ (λ g'. (g'.driver ≡ g.driver) × (g'.heap ≡ given))
          freed (λ h e. (refl, e))

    -- The partitions are listed; the disks are as before with nothing under way, and the block is
    -- given back.
    pub record IsScanned (s : Scan) (r : Scanning c) : Type 0 where
      pub listed : IsListed hd s.primary_idx (used (partition_table first_sector)) s r.0
      pub quiet : IsQuiet controller base hd r.1.driver
      pub keeps : content r.1.driver.device ≡ content f.driver.device
      pub heap : r.1.heap ≡ given

    -- With a controller that keeps to the ATA standard on commands of one sector and
    -- nothing under way on the channel, where sys_malloc has a block for a sector, which
    -- ends at or below 2^32 and which sys_free takes back, with fuel for two rounds,
    -- partition_scan of the first sector of a disk, whose table there has no extended
    -- partition, with room below four primary partitions for its entries in use, returns
    -- with these entries, in their order, as the next primary partitions of the disk and at
    -- the end of partition_list, the earlier partitions and the other variables of the scan
    -- as before, the disks as before, nothing under way, and the heap as that sys_free
    -- leaves it.
    pub partition_scan-IsListed :
        (rounds : ℕ) (s : Scan)
        → IsAta controller base content
        → IsQuiet controller base hd f.driver
        → HasBlock bs given f.heap
        → HasNoExtended (partition_table first_sector)
        → s.primary_idx + length (used (partition_table first_sector)) < 4
        → 1 < fuel
        → Returns (partition_scan c hd (suc rounds) 0 (s, f)) (IsScanned s)
    unfolding partition_scan
    partition_scan-IsListed rounds s ata q has none few more =
        Returns-bind (malloc c sector_size f) _ _ _ (malloc_disks c sector_size f _ has.block)
          (λ b ((at, freed), same). rw at (
            Returns-bind (read_sectors c hd 0 bs 1 b.1) _ HasTable _
              (read_table b ata q has.below more freed same)
              (λ f1 t. rw t.table (
                Returns-bind
                  (scan_entries c hd (partition_scan c hd rounds) 0 (partition_table first_sector)
                    (s, f1))
                  _ _ _
                  (scan_entries-IsListed (partition_scan c hd rounds) (partition_table first_sector)
                    s f1 none few)
                  (λ r (go, l, kept).
                    rw (go, kept)
                      (Returns-bind (free c bs f1) _ _ _ (free_given f1 t.freed)
                        (λ f2 (driver, heap). record {
                          listed = l;
                          quiet = subst (IsQuiet controller base hd) (sym driver) t.quiet;
                          keeps = ap (λ d. content d.device) driver ∙ t.keeps;
                          heap = heap;
                        })))))))

    -- partition_scan of such a sector stops the kernel if the entries in use make four primary
    -- partitions or more.
    pub partition_scan_full :
        (rounds : ℕ) (s : Scan)
        → IsAta controller base content
        → IsQuiet controller base hd f.driver
        → HasBlock bs given f.heap
        → HasNoExtended (partition_table first_sector)
        → s.primary_idx < 4
        → 4 ≤ s.primary_idx + length (used (partition_table first_sector))
        → 1 < fuel
        → partition_scan c hd (suc rounds) 0 (s, f) ≡ halted
    unfolding partition_scan
    partition_scan_full rounds s ata q has none some_ many more =
        bind-halted (malloc c sector_size f) _ _ (malloc_disks c sector_size f _ has.block)
          (λ b ((at, freed), same). rw at (
            bind-halted (read_sectors c hd 0 bs 1 b.1) _ HasTable
              (read_table b ata q has.below more freed same)
              (λ f1 t.
                rw
                  (
                    t.table,
                    scan_entries_full (partition_scan c hd rounds) (partition_table first_sector) s
                        f1 none some_ many,
                  )
                  refl)))
