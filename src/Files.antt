-- ===== src/Files.antt =====
-- fs/: where the file system lays out a partition, where an inode stands, the tables of open
-- files, the bitmaps that inodes and blocks are allocated from, and the parts of a path.
pub mod Layout
pub mod Slots
pub mod Path
pub mod Depth
pub mod Inodes
pub mod Space
pub mod Mounted
pub mod Opened
pub mod Directories
pub mod Format
pub mod Mount
pub mod Lookup
use leeos.Base.{
  ℕ, zero, suc, ◌+◌, ◌-◌, ◌*◌, ◌/◌, ◌%◌, ◌^◌, Bool, true, false, not, ◌&&◌, ◌||◌, ◌==◌,
  if◌then◌else◌, ltb, u32, sub32, List, [], ◌∷◌, Option, none, some, Run, ok, stuck, ◌>>=◌, ◌>>◌,
  assert,
}
use leeos.Base.Memory.{update}
use leeos.Strings.{memset}
use leeos.Bitmap.{Bitmap, bitmap_scan, bitmap_set}

abbrev pub sector_size : ℕ
sector_size = 512

abbrev pub bits_per_sector : ℕ
bits_per_sector = 4096

abbrev pub max_files_per_part : ℕ
max_files_per_part = 4096

-- `sizeof(struct inode)`: three words, a `bool` in a word of its own, 13 sectors, and a list element.
abbrev pub inode_size : ℕ
inode_size = 4 * 3 + 4 + 4 * 13 + 8

-- `sizeof(struct dir_entry)`.
abbrev pub sizeof_dir_entry : ℕ
sizeof_dir_entry = 16 + 4 + 4

-- The macro DIV_ROUND_UP on words.
unfoldable pub div_round_up : ℕ → ℕ → ℕ
div_round_up x step = sub32 (u32 (x + step)) 1 / step

-- `struct super_block`, less its padding.
pub record SuperBlock : Type 0 where
  pub magic : ℕ
  pub sec_cnt : ℕ
  pub inode_cnt : ℕ
  pub part_lba_base : ℕ
  pub block_bitmap_lba : ℕ
  pub block_bitmap_sects : ℕ
  pub inode_bitmap_lba : ℕ
  pub inode_bitmap_sects : ℕ
  pub inode_table_lba : ℕ
  pub inode_table_sects : ℕ
  pub data_start_lba : ℕ
  pub root_inode_no : ℕ
  pub dir_entry_size : ℕ

-- What partition_format computes first: the number of blocks, and of the sectors of their bitmap.
unfoldable pub block_bitmap_bit_len : ℕ → ℕ
unfolding div_round_up
block_bitmap_bit_len sector_counter =
    let inode_bitmap_sects = div_round_up max_files_per_part bits_per_sector in
    let inode_table_sects = div_round_up (inode_size * max_files_per_part) sector_size in
    let free_sects = sub32 sector_counter (2 + inode_bitmap_sects + inode_table_sects) in
    sub32 free_sects (div_round_up free_sects bits_per_sector)

-- The super block that partition_format writes.
unfoldable pub super_block_of : (start_lba sector_counter : ℕ) → SuperBlock
unfolding div_round_up block_bitmap_bit_len
super_block_of start_lba sector_counter =
    let inode_bitmap_sects = div_round_up max_files_per_part bits_per_sector in
    let inode_table_sects = div_round_up (inode_size * max_files_per_part) sector_size in
    let block_bitmap_sects = div_round_up (block_bitmap_bit_len sector_counter) bits_per_sector in
    let block_bitmap_lba = u32 (start_lba + 2) in
    let inode_bitmap_lba = u32 (block_bitmap_lba + block_bitmap_sects) in
    record {
      magic = 0x19990814;
      sec_cnt = sector_counter;
      inode_cnt = max_files_per_part;
      part_lba_base = start_lba;
      block_bitmap_lba = block_bitmap_lba;
      block_bitmap_sects = block_bitmap_sects;
      inode_bitmap_lba = inode_bitmap_lba;
      inode_bitmap_sects = inode_bitmap_sects;
      inode_table_lba = u32 (inode_bitmap_lba + inode_bitmap_sects);
      inode_table_sects = inode_table_sects;
      data_start_lba = u32 (inode_table_sects + inode_table_sects);
      root_inode_no = 0;
      dir_entry_size = sizeof_dir_entry;
    }

-- `struct inode_position`.
pub record InodePosition : Type 0 where
  pub two_sec : Bool
  pub sec_lba : ℕ
  pub off_size : ℕ

unfoldable pub inode_locate : (inode_table_lba inode_no : ℕ) → Run InodePosition
inode_locate inode_table_lba inode_no = do
  assert (ltb inode_no 4096)
  let inode_sum_size = u32 (inode_no * inode_size)
  let left_inode_size = inode_sum_size % 512
  ok (record {
    two_sec = not (ltb inode_size (512 - left_inode_size));
    sec_lba = u32 (inode_table_lba + inode_sum_size / 512);
    off_size = left_inode_size;
  })

-- The first index from `idx` on, within `left` entries, that a test accepts.
unfoldable pub find_slot : (ℕ → Bool) → ℕ → ℕ → Option ℕ
find_slot is_free zero idx = none
find_slot is_free (suc left) idx =
    let rest = find_slot is_free left (suc idx) in if is_free idx then some idx else rest

abbrev pub max_file_open : ℕ
max_file_open = 32

-- `fd_inode` of each entry of the table of open files. `none` is -1.
unfoldable pub get_free_slot_in_global : (ℕ → ℕ) → Option ℕ
get_free_slot_in_global fd_inode = find_slot (λ idx. fd_inode idx == 0) (max_file_open - 3) 3

abbrev pub max_files_open_per_proc : ℕ
max_files_open_per_proc = 8

abbrev pub no_file : ℕ
no_file = 2 ^ 32 - 1

-- The table of the process, with the global index in its first free slot.
unfoldable pub pcb_fd_install : (ℕ → ℕ) → ℕ → Option ℕ × (ℕ → ℕ)
pcb_fd_install fd_table global_fd_idx =
    let slot = find_slot (λ idx. fd_table idx == no_file) (max_files_open_per_proc - 3) 3 in
    elim slot [ none ↦ (none, fd_table) | some idx ↦ (some idx, update fd_table idx global_fd_idx) ]

unfoldable pub inode_bitmap_alloc : Bitmap → Run (Option ℕ × Bitmap)
inode_bitmap_alloc inode_bitmap = elim (bitmap_scan inode_bitmap 1) [
  | none ↦ ok (none, inode_bitmap)
  | some idx ↦ do b ← bitmap_set inode_bitmap idx 1; ok (some idx, b)
]

-- The sector of the block.
unfoldable pub block_bitmap_alloc : SuperBlock → Bitmap → Run (Option ℕ × Bitmap)
block_bitmap_alloc sb block_bitmap = elim (bitmap_scan block_bitmap 1) [
  | none ↦ ok (none, block_bitmap)
  | some idx ↦ do b ← bitmap_set block_bitmap idx 1; ok (some (u32 (sb.data_start_lba + idx)), b)
]

-- `while (*(++pathname) == '/');`
unfoldable pub skip_slashes : ℕ → (ℕ → ℕ) → ℕ → Run ℕ
skip_slashes zero m pathname = stuck
skip_slashes (suc fuel) m pathname =
    let rest = skip_slashes fuel m (suc pathname) in
    if m (suc pathname) == b'/' then rest else ok (suc pathname)

-- The loop that copies one name: where it ends, and the memory.
unfoldable pub copy_name : ℕ → ℕ → ℕ → (ℕ → ℕ) → Run (ℕ × (ℕ → ℕ))
copy_name zero pathname name_store m = stuck
copy_name (suc fuel) pathname name_store m =
    let rest = copy_name fuel (suc pathname) (suc name_store) (update m name_store (m pathname)) in
    if not (m pathname == b'/') && not (m pathname == 0) then rest else ok (pathname, m)

-- What is left of the path, or 0.
unfoldable pub path_parse : ℕ → ℕ → ℕ → (ℕ → ℕ) → Run (ℕ × (ℕ → ℕ))
path_parse fuel pathname name_store m = do
  start ← (if m pathname == b'/' then skip_slashes fuel m pathname else ok pathname)
  r ← copy_name fuel start name_store m
  ok ((if r.1 r.0 == 0 then 0 else r.0), r.1)

abbrev pub max_file_name_len : ℕ
max_file_name_len = 16

-- Whether the name at `p` has that many bytes at most.
unfoldable pub name_fits : ℕ → ℕ → (ℕ → ℕ) → Bool
name_fits zero p m = (m p == b'/') || (m p == 0)
name_fits (suc left) p m =
    let rest = name_fits left (suc p) m in if (m p == b'/') || (m p == 0) then true else rest

-- The calls of path_parse with the local array `name` of 16 bytes. A part of more bytes runs over
-- the array's end, into what the compiler keeps there: the model then has no result.
unfoldable pub parse_name : ℕ → (p name : ℕ) → (ℕ → ℕ) → Run (ℕ × (ℕ → ℕ))
parse_name fuel p name m = do
  start ← (if m p == b'/' then skip_slashes fuel m p else ok p)
  if name_fits max_file_name_len start m then path_parse fuel p name m else stuck

-- `while (name[0])` in path_deepth_cnt; `fuel` is that of path_parse.
unfoldable pub depth_loop : ℕ → ℕ → (name p depth : ℕ) → (ℕ → ℕ) → Run ℕ
depth_loop zero fuel name p depth m = stuck
depth_loop (suc rounds) fuel name p depth m = elim (m name == 0) [
  | true ↦ ok depth
  | false ↦ do
    m1 ← memset name 0 max_file_name_len m
    r ← (if p == 0 then ok (0, m1) else parse_name fuel p name m1)
    depth_loop rounds fuel name r.0 (u32 (suc depth)) r.1
]

-- `name` is the address of the local array of 16 bytes, which holds what the stack held before.
unfoldable pub path_deepth_cnt : ℕ → (name pathname : ℕ) → (ℕ → ℕ) → Run ℕ
path_deepth_cnt fuel name pathname m = do
  assert (not (pathname == 0))
  r ← parse_name fuel pathname name m
  depth_loop fuel fuel name r.0 0 r.1
