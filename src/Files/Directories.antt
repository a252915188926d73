-- ===== src/Files/Directories.antt =====
-- fs/dir.c: the entries of a directory, in memory.
pub mod Entries
pub mod Search
pub mod Insert
use leeos.Base.{ℕ, ◌+◌, ◌/◌, ◌%◌, ◌^◌, leb, u8, Run, ok, ◌>>=◌, ◌>>◌, assert}
use leeos.Base.Bytes.{store_word}
use leeos.Strings.{strlen, memcpy}
use leeos.Files.{max_file_name_len}

-- The offsets of `i_no` and `f_type` in `struct dir_entry`.
abbrev pub i_no_of : ℕ → ℕ
i_no_of p_de = p_de + 16

abbrev pub f_type_of : ℕ → ℕ
f_type_of p_de = p_de + 20

-- `fuel` is that of strlen.
unfoldable pub create_dir_entry : ℕ → (filename inode_no file_type p_de : ℕ) → (ℕ → ℕ) → Run (ℕ → ℕ)
create_dir_entry fuel filename inode_no file_type p_de m = do
  len ← strlen fuel m filename
  assert (leb len max_file_name_len)
  let m1 = store_word m (i_no_of p_de) inode_no
  size ← strlen fuel m1 filename
  m2 ← memcpy p_de filename size m1
  ok (store_word m2 (f_type_of p_de) (u8 file_type))
