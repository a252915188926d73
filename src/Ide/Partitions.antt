-- ===== src/Ide/Partitions.antt =====
-- partition_scan of device/ide.c: the partition table of a disk's first sector, and the chain of
-- tables of its extended partition.
pub mod Primary
use leeos.Base.{
  ℕ, zero, suc, ◌+◌, ◌-◌, ◌*◌, ◌^◌, ◌≤◌, ◌<◌, ◌≡◌, ◌≢◌, refl, Bool, true, false, not, ◌==◌,
  if◌then◌else◌, ltb, leb, u8, u32, arith, List, [], ◌∷◌, ◌++◌, length, get_or, Run, ok, halted,
  stuck, ◌>>=◌, ◌>>◌, assert, Returns, Returns-bind, Returns-mono, Bool-cases, inl, inr,
}
use leeos.Base.Memory.{update}
use leeos.Base.Bytes.{word_at}
use leeos.Ide.{Disk}
use leeos.Files.{sector_size}
use leeos.Files.Space.{Machine, State, bytes, malloc, free, read_sectors}

-- `struct partition_table_entry`, as far as it is read.
pub record PartitionTableEntry : Type 0 where
  pub fs_type : ℕ
  pub start_lba : ℕ
  pub sec_cnt : ℕ

-- The fields of `struct partition` that the scan sets, less the name and the tag.
pub record Partition : Type 0 where
  pub start_lba : ℕ
  pub sector_counter : ℕ
  pub my_disk : Disk

-- A tag in `partition_list`, by the partition that it is in.
pub data PartTag : Type 0 where
  prim_part : Disk → ℕ → PartTag
  logic_part : Disk → ℕ → PartTag

-- The partitions of the disk under the scan and the variables of the file.
pub record Scan : Type 0 where
  pub prim_parts : ℕ → Partition
  pub logic_parts : ℕ → Partition
  pub primary_idx : ℕ
  pub logic_idx : ℕ
  pub extra_lba_base : ℕ
  pub partition_list : List PartTag

-- `bs->partition_table[i]`: the table stands behind 446 bytes of code, in entries of 16 bytes.
abbrev pub table_entry : (ℕ → ℕ) → ℕ → PartitionTableEntry
table_entry bs i = record {
  fs_type = bs (446 + 16 * i + 4);
  start_lba = word_at bs (446 + 16 * i + 8);
  sec_cnt = word_at bs (446 + 16 * i + 12);
}

abbrev pub partition_table : (ℕ → ℕ) → List PartitionTableEntry
partition_table bs = table_entry bs 0 ∷ table_entry bs 1 ∷ table_entry bs 2 ∷ table_entry bs 3 ∷ []

abbrev pub partition_of : Disk → ℕ → PartitionTableEntry → Partition
partition_of hd ext_lba p = record {
  start_lba = u32 (ext_lba + p.start_lba);
  sector_counter = p.sec_cnt;
  my_disk = hd;
}

module _ (hd : Disk) where
  unfoldable pub add_primary : ℕ → PartitionTableEntry → Scan → Run Scan
  add_primary ext_lba p s = do
    let idx = s.primary_idx
    assert (ltb (u8 (idx + 1)) 4)
    ok (record s {
      prim_parts = update s.prim_parts idx (partition_of hd ext_lba p);
      primary_idx = u8 (idx + 1);
      partition_list = s.partition_list ++ (prim_part hd idx ∷ []);
    })

  unfoldable pub add_logic : ℕ → PartitionTableEntry → Scan → Scan
  add_logic ext_lba p s =
      let idx = s.logic_idx in
      record s {
        logic_parts = update s.logic_parts idx (partition_of hd ext_lba p);
        logic_idx = u8 (idx + 1);
        partition_list = s.partition_list ++ (logic_part hd idx ∷ []);
      }

-- The variables of the scan, with the heap, the disks and the memory.
abbrev pub Scanning : Machine → Type 0
Scanning c = Scan × State c

module _ (c : Machine) (hd : Disk) where
  -- One entry of a table; true when the scan of the table returns at it.
  unfoldable pub scan_entry :
      (ℕ → Scanning c → Run (Scanning c))
      → ℕ
      → PartitionTableEntry
      → Scanning c
      → Run (Bool × Scanning c)
  scan_entry scan ext_lba p (s, f) =
      let base = s.extra_lba_base in
      let extended : Run (Scanning c) =
        if not (base == 0)
        then scan (u32 (p.start_lba + base)) (s, f)
        else scan p.start_lba (record s { extra_lba_base = p.start_lba }, f) in
      let logic = add_logic hd ext_lba p s in
      if p.fs_type == 0x5
      then (do r ← extended; ok (false, r))
      else if not (p.fs_type == 0)
      then (if ext_lba == 0
          then (do s1 ← add_primary hd ext_lba p s; ok (false, (s1, f)))
          else ok (leb 8 logic.logic_idx, (logic, f)))
      else ok (false, (s, f))

  unfoldable pub scan_entries :
      (ℕ → Scanning c → Run (Scanning c))
      → ℕ
      → List PartitionTableEntry
      → Scanning c
      → Run (Bool × Scanning c)
  scan_entries scan ext_lba [] s = ok (false, s)
  scan_entries scan ext_lba (p ∷ table) s = do
    r ← scan_entry scan ext_lba p s
    let rest = scan_entries scan ext_lba table r.1
    (if r.0 then ok r else rest)

  -- The sector is read into a block of the heap, which a return from inside the loop does not give
  -- back; a nested scan has a block of its own, so the table stays as it was read. On fuel, since
  -- tables may refer to one another.
  unfoldable pub partition_scan : (rounds ext_lba : ℕ) → Scanning c → Run (Scanning c)
  partition_scan zero ext_lba s = stuck
  partition_scan (suc rounds) ext_lba (s, f) = do
    b ← malloc c sector_size f
    f1 ← read_sectors c hd ext_lba b.0 1 b.1
    r ←
        scan_entries (partition_scan rounds) ext_lba (partition_table (λ i. bytes f1 (b.0 + i)))
          (s, f1)
    let given : Run (Scanning c) = (do f2 ← free c b.0 r.1.1; ok (r.1.0, f2))
    (if r.0 then ok r.1 else given)
