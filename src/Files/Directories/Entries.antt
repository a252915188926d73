-- ===== src/Files/Directories/Entries.antt =====
-- create_dir_entry of fs/dir.c: the fields of the entry.
use leeos.Base.{
  ℕ, ◌+◌, ◌^◌, ◌≤◌, ◌<◌, ◌≡◌, ◌≢◌, ◌⊎◌, inl, inr, ◌∙◌, arith, List, length, Returns, Returns-bind,
  u8, leb, true,
}
use leeos.Strings.{memcpy}
use leeos.Strings.Copies.{Outside, memcpy_copies}
use leeos.Strings.Text.{IsString, IsString-frame, strlen_lem}
use leeos.Base.Bytes.{word_at, store_word, store_word-word_at, store_word_outside, word_at-frame}
use leeos.Files.Directories.{i_no_of, f_type_of, create_dir_entry}

-- The entry at `p_de`; the bytes of its name behind the `size` that are given are as before.
pub record IsEntry (m : ℕ → ℕ) (filename size inode_no file_type p_de : ℕ) (m' : ℕ → ℕ)
    : Type 0 where
  pub name : (i : ℕ) → i < size → m' (p_de + i) ≡ m (filename + i)
  pub old : (i : ℕ) → size ≤ i → i < 16 → m' (p_de + i) ≡ m (p_de + i)
  pub i_no : word_at m' (i_no_of p_de) ≡ inode_no
  pub f_type : word_at m' (f_type_of p_de) ≡ file_type
  pub outside : (a : ℕ) → Outside p_de 24 a → m' a ≡ m a

-- create_dir_entry, for a name of at most 16 bytes that with its terminator is apart from the
-- entry, neither of them at 0, a number of 32 bits, a type of 8 bits, and fuel for more bytes
-- than the name has, returns; the name's bytes, the number and the type stand in the entry, the
-- bytes of its name field behind the new name are as before the call, and so is every byte
-- outside the entry.
pub create_dir_entry-IsEntry :
    (fuel filename inode_no file_type p_de : ℕ) (m : ℕ → ℕ) (xs : List ℕ)
    → filename ≢ 0
    → p_de ≢ 0
    → IsString m filename xs
    → length xs ≤ 16
    → length xs < fuel
    → (p_de + 24 ≤ filename) ⊎ (filename + length xs < p_de)
    → inode_no < 2 ^ 32
    → file_type < 256
    → Returns
        (create_dir_entry fuel filename inode_no file_type p_de m)
        (IsEntry m filename (length xs) inode_no file_type p_de)
unfolding create_dir_entry
create_dir_entry-IsEntry fuel filename inode_no file_type p_de m xs nf np s few f o small byte =
    let m1 = store_word m (i_no_of p_de) inode_no in
    let kept : (a : ℕ) → Outside (i_no_of p_de) 4 a → m1 a ≡ m a =
      store_word_outside m (i_no_of p_de) inode_no in
    let again =
      strlen_lem fuel m1 filename xs nf
        (IsString-frame m m1 filename xs (λ a lo hi. kept a (omega (arith, o))) s) f in
    let leb_few : leb (length xs) 16 ≡ true = ground arith in
    let cut : u8 file_type ≡ file_type = omega arith in
    rw (strlen_lem fuel m filename xs nf s f, leb_few, again, cut)
      (Returns-bind (memcpy p_de filename (length xs) m1) _ _ _
        (memcpy_copies p_de filename (length xs) m1 np nf (omega (arith, o)))
        (λ m2 c.
          let last : (a : ℕ)
              → Outside (f_type_of p_de) 4 a
              → store_word m2 (f_type_of p_de) file_type a ≡ m2 a =
            store_word_outside m2 (f_type_of p_de) file_type in
          record {
            name = λ i lt.
                last (p_de + i) (inl (omega arith))
                ∙ c.inside i lt
                ∙ kept (filename + i) (omega (arith, o));
            old = λ i ge lt.
                last (p_de + i) (inl (omega arith))
                ∙ c.outside (p_de + i) (inr (omega arith))
                ∙ kept (p_de + i) (inl (omega arith));
            i_no =
                word_at-frame m1 (store_word m2 (f_type_of p_de) file_type) (i_no_of p_de) (λ i lt.
                  last (i_no_of p_de + i) (inl (omega arith))
                  ∙ c.outside (i_no_of p_de + i) (inr (omega arith)))
                ∙ store_word-word_at m (i_no_of p_de) inode_no small;
            f_type = store_word-word_at m2 (f_type_of p_de) file_type (omega arith);
            outside = λ a out.
                last a (omega (arith, out))
                ∙ c.outside a (omega (arith, out))
                ∙ kept a (omega (arith, out));
          }))
