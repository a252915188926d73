-- ===== src/Files/Lookup.antt =====
-- search_file of fs/fs.c: the inode of a path.
use leeos.Base.{ℕ, zero, suc, ◌+◌, ◌-◌, ◌^◌, ◌||◌, ◌==◌, if◌then◌else◌, Run, ok, stuck, ◌>>=◌}
use leeos.Base.Memory.{update}
use leeos.Base.Bytes.{word_at, store_word}
use leeos.Strings.{memset, strcmp, strcat}
use leeos.Files.{path_parse}
use leeos.Files.Space.{Machine, State, bytes, set_bytes, clear_bytes}
use leeos.Files.Mounted.{Mounted}
use leeos.Files.Directories.{i_no_of, f_type_of}
use leeos.Files.Directories.Search.{dir_open, dir_close, search_dir_entry}

-- MAX_PATH_LEN.
abbrev pub max_path_len : ℕ
max_path_len = 512

-- The fields of `struct path_search_record` behind the path.
abbrev pub parent_dir_of : ℕ → ℕ
parent_dir_of searched_record = searched_record + 512

abbrev pub file_type_of : ℕ → ℕ
file_type_of searched_record = searched_record + 516

-- The addresses of root_dir, of the local variables `name` and `p_de`, and of the literals "/",
-- "/.." and "/.".
pub record Places : Type 0 where
  pub root_dir : ℕ
  pub name : ℕ
  pub p_de : ℕ
  pub slash : ℕ
  pub slash_dots : ℕ
  pub slash_dot : ℕ

module _ (c : Machine) (part : Mounted) (at : Places) (searched_record : ℕ) where
  open c use {fuel}

  abbrev pub set_word : (a v : ℕ) → State c → State c
  set_word a v f = set_bytes (store_word (bytes f) a v) f

  -- Behind the last part: the path is that of a directory.
  unfoldable pub search_end : (parent_dir parent_inode_no : ℕ) → State c → Run (ℕ × State c)
  search_end parent_dir parent_inode_no f = do
    f1 ← dir_close c at.root_dir parent_dir f
    d ← dir_open c part parent_inode_no f1
    let f2 =
        set_word (file_type_of searched_record) 2 (set_word (parent_dir_of searched_record) d.0 d.1)
    ok (word_at (bytes f2) (i_no_of at.p_de), f2)

  -- The directory that was found becomes the parent.
  unfoldable pub descend : (parent_dir : ℕ) → State c → Run (ℕ × ℕ × State c)
  descend parent_dir f = do
    let parent_inode_no = word_at (bytes f) (word_at (bytes f) parent_dir)
    f1 ← dir_close c at.root_dir parent_dir f
    d ← dir_open c part (word_at (bytes f1) (i_no_of at.p_de)) f1
    ok (d.0, parent_inode_no, set_word (parent_dir_of searched_record) d.0 d.1)

  -- `while (name[0])`, on fuel. -1 is 2^32 - 1.
  unfoldable pub search_loop :
      (rounds path_ptr parent_dir parent_inode_no : ℕ) → State c → Run (ℕ × State c)
  search_loop zero path_ptr parent_dir parent_inode_no f = stuck
  search_loop (suc rounds) path_ptr parent_dir parent_inode_no f =
      let step : Run (ℕ × State c) = (do
        m ← strcat fuel searched_record at.slash (bytes f)
        m1 ← strcat fuel searched_record at.name m
        r ← search_dir_entry c part parent_dir at.name at.p_de (set_bytes m1 f)
        let next : Run (ℕ × State c) = (do
          m2 ← memset at.name 0 max_path_len (bytes r.1)
          p ← (if m2 path_ptr == 0 then ok (path_ptr, m2) else path_parse fuel path_ptr at.name m2)
          let f1 = set_bytes p.1 r.1
          let f_type = word_at (bytes f1) (f_type_of at.p_de)
          let into : Run (ℕ × State c) = (do
            d ← descend parent_dir f1
            search_loop rounds p.0 d.0 d.1 d.2)
          let other = search_loop rounds p.0 parent_dir parent_inode_no f1
          let file = set_word (file_type_of searched_record) 1 f1
          (if f_type == 2
              then into
              else if f_type == 1
              then ok (word_at (bytes file) (i_no_of at.p_de), file)
              else other))
        (if r.0 then next else ok (2 ^ 32 - 1, r.1))) in
      if bytes f at.name == 0 then search_end parent_dir parent_inode_no f else step

  -- The first part of the path is read twice: what the first path_parse leaves, the second one
  -- writes over.
  unfoldable pub search_file : (filename : ℕ) → State c → Run (ℕ × State c)
  search_file filename f = do
    a ← strcmp fuel (bytes f) filename at.slash
    b ← strcmp fuel (bytes f) filename at.slash_dots
    d ← strcmp fuel (bytes f) filename at.slash_dot
    let root =
        set_bytes
          (update
            (store_word (store_word (bytes f) (parent_dir_of searched_record) at.root_dir)
              (file_type_of searched_record) 2)
            searched_record 0)
          f
    let parts : Run (ℕ × State c) = (do
      p ← path_parse fuel filename at.name (clear_bytes at.name max_path_len (bytes f))
      let m =
          store_word (store_word p.1 (file_type_of searched_record) 0)
            (parent_dir_of searched_record) at.root_dir
      q ← path_parse fuel p.0 at.name m
      search_loop fuel q.0 at.root_dir 0 (set_bytes q.1 f))
    (if a == 0 || b == 0 || d == 0 then ok (0, root) else parts)
