-- ===== src/Files/Directories/Search.antt =====
-- fs/dir.c: opening and closing a directory, and looking an entry up.
use leeos.Base.{
  ℕ, zero, suc, ◌+◌, ◌*◌, ◌/◌, Bool, true, false, ◌==◌, if◌then◌else◌, u8, Option, none, some, Run,
  ok, ◌>>=◌,
}
use leeos.Base.Memory.{update}
use leeos.Base.Bytes.{word_at, store_word}
use leeos.Strings.{memcpy, memset, strcmp}
use leeos.Ide.{Disk}
use leeos.Files.{sector_size, sizeof_dir_entry}
use leeos.Files.Space.{Machine, State, bytes, set_bytes, malloc, free, read_sectors}
use leeos.Files.Mounted.{Mounted}
use leeos.Files.Opened.{i_sector_of, inode_open, inode_close}

-- `sizeof(struct dir)`: the inode's address, the position and a sector.
abbrev pub sizeof_dir : ℕ
sizeof_dir = 4 + 4 + 512

abbrev pub dir_pos_of : ℕ → ℕ
dir_pos_of dir = dir + 4

abbrev pub dir_entry_cnts : ℕ
dir_entry_cnts = sector_size / sizeof_dir_entry

-- `each_sect_addr_array[i] = pdir->inode->i_sectors[i]`, for `left` elements from `i` on; an
-- element is a byte.
unfoldable pub copy_low_bytes : (left i array pdir : ℕ) → (ℕ → ℕ) → ℕ → ℕ
copy_low_bytes zero i array pdir m = m
copy_low_bytes (suc left) i array pdir m =
    copy_low_bytes left (suc i) array pdir
      (update m (array + i) (u8 (word_at m (i_sector_of (word_at m pdir) i))))

module _ (c : Machine) where
  open c use {fuel}

  unfoldable pub dir_open : Mounted → (inode_no : ℕ) → State c → Run (ℕ × State c)
  dir_open part inode_no f = do
    p ← malloc c sizeof_dir f
    i ← inode_open c part.my_disk part.sb.inode_table_lba part.open_inodes inode_no p.1
    let m = store_word (bytes i.1) p.0 i.0
    ok (p.0, set_bytes (store_word m (dir_pos_of p.0) 0) i.1)

  -- `root_dir` is the address of the variable.
  unfoldable pub open_root_dir : (root_dir : ℕ) → Mounted → State c → Run (State c)
  open_root_dir root_dir part f = do
    i ← inode_open c part.my_disk part.sb.inode_table_lba part.open_inodes part.sb.root_inode_no f
    let m = store_word (bytes i.1) root_dir i.0
    ok (set_bytes (store_word m (dir_pos_of root_dir) 0) i.1)

  -- The directory itself is passed on as if it were its inode.
  unfoldable pub dir_close : (root_dir dir : ℕ) → State c → Run (State c)
  dir_close root_dir dir f =
      if dir == root_dir then ok f else (inode_close c dir f >>= λ f1. free c dir f1)

  -- The entries of the sector at `entry` that are left: the address of the first with the name.
  unfoldable pub match_entries : (left entry name : ℕ) → (ℕ → ℕ) → Run (Option ℕ)
  match_entries zero entry name m = ok none
  match_entries (suc left) entry name m = do
    order ← strcmp fuel m entry name
    let rest = match_entries left (entry + sizeof_dir_entry) name m
    (if order == 0 then ok (some entry) else rest)

  module _ (my_disk : Disk) (array buf name : ℕ) where
    -- The sectors that are left, from the index on.
    unfoldable pub match_sectors : (left i : ℕ) → State c → Run (Option ℕ × State c)
    match_sectors zero i f = ok (none, f)
    match_sectors (suc left) i f =
        let sector = bytes f (array + i) in
        let skipped = match_sectors left (suc i) f in
        let looked : Run (Option ℕ × State c) = (do
          f1 ← read_sectors c my_disk sector buf 1 f
          found ← match_entries dir_entry_cnts buf name (bytes f1)
          elim found [
            | some entry ↦ ok (some entry, f1)
            | none ↦ do
              m ← memset buf 0 sector_size (bytes f1)
              match_sectors left (suc i) (set_bytes m f1)
          ]) in
        if sector == 0 then skipped else looked

  -- With the array of sectors in its block.
  unfoldable pub search_from :
      Mounted → (array pdir name dir_e : ℕ) → State c → Run (Bool × State c)
  search_from part array pdir name dir_e f = do
    let f1 = set_bytes (copy_low_bytes 12 0 array pdir (bytes f)) f
    let indirect = word_at (bytes f1) (i_sector_of (word_at (bytes f1) pdir) 12)
    f2 ← (if indirect == 0 then ok f1 else read_sectors c part.my_disk indirect (array + 12) 1 f1)
    b ← malloc c sector_size f2
    r ← match_sectors part.my_disk array b.0 name (12 + 128) 0 b.1
    m ← elim r.0 [ none ↦ ok (bytes r.1) | some e ↦ memcpy dir_e e sizeof_dir_entry (bytes r.1) ]
    f3 ← free c b.0 (set_bytes m r.1)
    f4 ← free c array f3
    ok (elim r.0 [ none ↦ false | some e ↦ true ], f4)

  unfoldable pub search_dir_entry : Mounted → (pdir name dir_e : ℕ) → State c → Run (Bool × State c)
  search_dir_entry part pdir name dir_e f = do
    a ← malloc c (12 * 4 + 512) f
    (if a.0 == 0 then ok (false, a.1) else search_from part a.0 pdir name dir_e a.1)
