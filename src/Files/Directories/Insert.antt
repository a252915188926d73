-- ===== src/Files/Directories/Insert.antt =====
-- sync_dir_entry of fs/dir.c: an entry is written to the directory's sectors on the disk.
pub mod Slot
use leeos.Base.{
  ℕ, zero, suc, ◌+◌, ◌-◌, ◌*◌, ◌%◌, ◌^◌, Bool, true, false, ◌==◌, if◌then◌else◌, ltb, u32, sub32,
  Option, none, some, Run, ok, ◌>>=◌, ◌>>◌, assert,
}
use leeos.Base.Bytes.{word_at, store_word}
use leeos.Strings.{memcpy, memset}
use leeos.Files.{sector_size, sizeof_dir_entry}
use leeos.Files.Inodes.Bitmaps.{block_bitmap}
use leeos.Files.Space.{Machine, State, bytes, set_bytes, clear_bytes, read_sectors, write_sectors}
use leeos.Files.Mounted.{Mounted, alloc_block, block_bitmap_set, sync_bitmap}
use leeos.Files.Opened.{i_size_of, i_open_cnts_of, i_sector_of}
use leeos.Files.Directories.{f_type_of}
use leeos.Files.Directories.Search.{sizeof_dir, dir_entry_cnts}

-- `all_blocks[i]`.
abbrev pub block_at : ℕ → ℕ → ℕ
block_at all_blocks i = all_blocks + 4 * i

-- The loop that copies the direct sectors, for `left` of them from `i` on.
unfoldable pub copy_sectors : (left i all_blocks inode : ℕ) → (ℕ → ℕ) → ℕ → ℕ
copy_sectors zero i all_blocks inode m = m
copy_sectors (suc left) i all_blocks inode m =
    copy_sectors left (suc i) all_blocks inode
      (store_word m (block_at all_blocks i) (word_at m (i_sector_of inode i)))

-- Of the `left` entries from `entry` on, the address of the first whose type is FT_UNKNOWN.
unfoldable pub free_entry : (left entry : ℕ) → (ℕ → ℕ) → Option ℕ
free_entry zero entry m = none
free_entry (suc left) entry m =
    let rest = free_entry left (entry + sizeof_dir_entry) m in
    if word_at m (f_type_of entry) == 0 then some entry else rest

-- `part` is `curr_part`; `all_blocks` is the address of the local array. The result is `none`
-- where the function ends without a `return`.
module _ (c : Machine) (part : Mounted) (all_blocks inode p_de io_buf : ℕ) where
  -- `block_lba - curr_part->sb->data_start_lba`.
  abbrev pub bit_of : ℕ → ℕ
  bit_of block_lba = sub32 block_lba part.sb.data_start_lba

  abbrev pub store_at : (a v : ℕ) → State c → State c
  store_at a v f = set_bytes (store_word (bytes f) a v) f

  -- The sector at the index is in use: its first free entry is taken.
  unfoldable pub reuse_sector : (lba : ℕ) → State c → Run (Bool × State c)
  reuse_sector lba f = do
    f1 ← read_sectors c part.my_disk lba io_buf 1 f
    elim (free_entry dir_entry_cnts io_buf (bytes f1)) [
      | none ↦ ok (false, f1)
      | some entry ↦ do
        m ← memcpy entry p_de sizeof_dir_entry (bytes f1)
        f2 ← write_sectors c part.my_disk lba io_buf 1 (set_bytes m f1)
        let at = i_open_cnts_of inode
        ok (true, store_at at (u32 (word_at (bytes f2) at + sizeof_dir_entry)) f2)
    ]

  -- The sector is new: the entry is its first, behind it are zeros.
  unfoldable pub fill_sector : (block_idx : ℕ) → State c → Run (Bool × State c)
  fill_sector block_idx f = do
    m ← memset io_buf 0 512 (bytes f)
    m1 ← memcpy io_buf p_de sizeof_dir_entry m
    let lba = word_at m1 (block_at all_blocks block_idx)
    f1 ← write_sectors c part.my_disk lba io_buf 1 (set_bytes m1 f)
    let at = i_size_of inode
    ok (true, store_at at (u32 (word_at (bytes f1) at + sizeof_dir_entry)) f1)

  -- The indirect sector is new too: it is `block_lba`, and another is allocated for the entry.
  unfoldable pub add_indirect : (block_lba : ℕ) → State c → Run (Bool × State c)
  add_indirect block_lba f = do
    let f1 = store_at (i_sector_of inode 12) block_lba f
    r ← alloc_block c part f1
    elim r.0 [
      | none ↦ do
        f2 ← block_bitmap_set c part (bit_of block_lba) 0 r.1
        ok (false, store_at (i_sector_of inode 12) 0 f2)
      | some lba ↦ do
        f2 ←
            sync_bitmap c part (bit_of lba) block_bitmap (store_at (block_at all_blocks 12) lba r.1)
        let indirect = word_at (bytes f2) (i_sector_of inode 12)
        f3 ← write_sectors c part.my_disk indirect (block_at all_blocks 12) 1 f2
        fill_sector 12 f3
    ]

  -- The sector is in the indirect sector's list. A second one is allocated, also where there is
  -- none, and the first is lost; -1 is then written as its address.
  unfoldable pub add_listed : (block_idx : ℕ) → State c → Run (Bool × State c)
  add_listed block_idx f = do
    r ← alloc_block c part f
    let lba : ℕ = elim r.0 [ none ↦ 2 ^ 32 - 1 | some b ↦ b ]
    f1 ← sync_bitmap c part (bit_of lba) block_bitmap r.1
    let f2 = store_at (block_at all_blocks block_idx) lba f1
    let indirect = word_at (bytes f2) (i_sector_of inode 12)
    f3 ← write_sectors c part.my_disk indirect (block_at all_blocks 12) 1 f2
    fill_sector block_idx f3

  unfoldable pub add_sector : (block_idx : ℕ) → State c → Run (Bool × State c)
  add_sector block_idx f = do
    r ← alloc_block c part f
    elim r.0 [
      | none ↦ ok (false, r.1)
      | some block_lba ↦ do
        f1 ← sync_bitmap c part (bit_of block_lba) block_bitmap r.1
        let direct =
            store_at (i_sector_of inode block_idx) block_lba
              (store_at (block_at all_blocks block_idx) block_lba f1)
        (if ltb block_idx 12
            then fill_sector block_idx direct
            else if block_idx == 12
            then add_indirect block_lba f1
            else add_listed block_idx f1)
    ]

  -- The sectors that are left, from the index on.
  unfoldable pub sync_sectors : (left block_idx : ℕ) → State c → Run (Option Bool × State c)
  sync_sectors zero block_idx f = ok (none, f)
  sync_sectors (suc left) block_idx f =
      let lba = word_at (bytes f) (block_at all_blocks block_idx) in
      let added : Run (Option Bool × State c) = (do
        r ← add_sector block_idx f
        ok (some r.0, r.1)) in
      let looked : Run (Option Bool × State c) = (do
        r ← reuse_sector lba f
        elim r.0 [ true ↦ ok (some true, r.1) | false ↦ sync_sectors left (suc block_idx) r.1 ]) in
      if lba == 0 then added else looked

unfoldable pub sync_dir_entry :
    (c : Machine)
    → Mounted
    → (all_blocks parent_dir p_de io_buf : ℕ) → State c
    → Run (Option Bool × State c)
sync_dir_entry c part all_blocks parent_dir p_de io_buf f = do
  let inode = word_at (bytes f) parent_dir
  assert (word_at (bytes f) (i_size_of inode) % sizeof_dir == 0)
  let cleared = clear_bytes all_blocks (4 * (12 + 128)) (bytes f)
  let f1 = set_bytes (copy_sectors 12 0 all_blocks inode cleared) f
  let indirect = word_at (bytes f1) (i_sector_of inode 12)
  f2 ←
      (if indirect == 0
        then ok f1
        else read_sectors c part.my_disk indirect (block_at all_blocks 12) 1 f1)
  sync_sectors c part all_blocks inode p_de io_buf (12 + 128) 0 f2
