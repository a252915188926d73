-- ===== src/Files/Directories/Insert/Slot.antt =====
-- sync_dir_entry of fs/dir.c where a sector of the directory has a free entry.
use leeos.Base.{
  ℕ, zero, suc, ◌+◌, ◌-◌, ◌*◌, ◌%◌, ◌^◌, ◌≤◌, ◌<◌, ◌≡◌, ◌≢◌, ◌⊎◌, inl, refl, sym, ap, ◌∙◌, true,
  ◌&&◌, ◌==◌, ==_of_ne, if◌then◌else◌, ltb, leb, u32, some, arith, Returns, Returns-bind,
}
use leeos.Base.Bytes.{word_at, store_word, store_word-word_at, store_word_outside, word_at-frame}
use leeos.Strings.{memcpy}
use leeos.Strings.Copies.{Outside, Filled, memcpy_copies}
use leeos.Ide.{max_lba}
use leeos.Ide.Ports.{IsAta, IsQuiet}
use leeos.Ide.Chunks.{IsRead, IsWritten}
use leeos.Files.{sizeof_dir_entry}
use leeos.Files.Space.{Machine, State, bytes, set_bytes, clear_bytes, read_sectors, write_sectors}
use leeos.Files.Space.Sectors.{set_bytes-IsQuiet, read_sectors-IsRead, write_sectors-IsWritten}
use leeos.Files.Mounted.{Mounted}
use leeos.Files.Opened.{i_size_of, i_open_cnts_of, i_sector_of}
use leeos.Files.Directories.{f_type_of}
use leeos.Files.Directories.Search.{dir_entry_cnts}
use leeos.Files.Directories.Insert.{
  block_at, copy_sectors, free_entry, reuse_sector, sync_sectors, sync_dir_entry,
}

free_entry_first :
    (left k entry : ℕ) (m : ℕ → ℕ)
    → k < left
    → ((i : ℕ) → i < k → word_at m (f_type_of (entry + 24 * i)) ≢ 0)
    → word_at m (f_type_of (entry + 24 * k)) ≡ 0
    → free_entry left entry m ≡ some (entry + 24 * k)
unfolding free_entry
free_entry_first zero k entry m h used free = absurd (omega arith)
free_entry_first (suc left) zero entry m h used free =
    let here : word_at m (f_type_of entry) ≡ 0 =
      ap (λ a. word_at m (f_type_of a)) (omega arith) ∙ free in
    rw here (ap some (omega arith))
free_entry_first (suc left) (suc k) entry m h used free =
    let along : (i : ℕ) → entry + 24 * suc i ≡ entry + 24 + 24 * i = λ i. omega arith in
    let first : word_at m (f_type_of entry) ≢ 0 =
      λ e. used 0 (omega arith) (ap (λ a. word_at m (f_type_of a)) (omega arith) ∙ e) in
    rw (==_of_ne (word_at m (f_type_of entry)) 0 first) (
      free_entry_first left k (entry + 24) m (omega arith)
        (λ i lt e. used (suc i) (omega arith) (ap (λ a. word_at m (f_type_of a)) (along i) ∙ e))
        (ap (λ a. word_at m (f_type_of a)) (sym (along k)) ∙ free)
      ∙ ap some (sym (along k)))

module _ (c : Machine) (base : ℕ → ℕ) (content : c.controller.State → ℕ → ℕ → ℕ → ℕ)
    (part : Mounted) (all_blocks inode p_de io_buf lba k : ℕ) where
  open c use {controller, fuel}

  abbrev sector : State c → ℕ → ℕ
  sector f j = content f.driver.device part.my_disk.my_channel part.my_disk.dev_no (512 * lba + j)

  abbrev start : ℕ
  start = 512 * lba + 24 * k

  -- In the sector, `k` entries are in use and the next is free. The buffer, the entry and the
  -- inode are apart.
  pub record HasSlot (f : State c) : Type 0 where
    pub ata : IsAta controller base content
    pub quiet : IsQuiet controller base part.my_disk f.driver
    pub disk : lba ≤ max_lba
    pub rounds : 1 < fuel
    pub buffer : io_buf ≢ 0
    pub below : io_buf + 512 ≤ 2 ^ 32
    pub source : p_de ≢ 0
    pub entries : k < 21
    pub used : (i : ℕ) → i < k → word_at (sector f) (24 * i + 20) ≢ 0
    pub free : word_at (sector f) (24 * k + 20) ≡ 0
    pub entry_apart : (p_de + 24 ≤ io_buf) ⊎ (io_buf + 512 ≤ p_de)
    pub inode_apart : (inode + 76 ≤ io_buf) ⊎ (io_buf + 512 ≤ inode)

  -- The entry is in its place, and the disks are otherwise as before; the inode counts one more
  -- opening for each byte of it.
  pub record IsInserted (f f' : State c) : Type 0 where
    pub disks :
        (ch drive b : ℕ)
        → content f'.driver.device ch drive b ≡ (
            if (ch == part.my_disk.my_channel && drive == part.my_disk.dev_no)
              && (leb start b && ltb b (start + 24))
            then bytes f (p_de + (b - start))
            else content f.driver.device ch drive b)
    pub count :
        word_at (bytes f') (i_open_cnts_of inode)
        ≡ u32 (word_at (bytes f) (i_open_cnts_of inode) + 24)
    pub memory :
        (a : ℕ)
        → Outside io_buf 512 a
        → Outside (i_open_cnts_of inode) 4 a
        → Outside all_blocks 560 a
        → bytes f' a ≡ bytes f a

  byte_on_disk :
      (f f1 : State c) (a j : ℕ)
      → IsRead controller base content part.my_disk lba io_buf 1 f.driver f1.driver
      → a ≡ io_buf + j
      → j < 512
      → bytes f1 a ≡ sector f j
  byte_on_disk f f1 a j r e h =
      let off : a - io_buf ≡ j = omega arith in ground (arith, r.memory a, ap (sector f) off)

  type_on_disk :
      (f f1 : State c) (i : ℕ)
      → IsRead controller base content part.my_disk lba io_buf 1 f.driver f1.driver
      → i < 21
      → word_at (bytes f1) (f_type_of (io_buf + 24 * i)) ≡ word_at (sector f) (24 * i + 20)
  type_on_disk f f1 i r h =
      let at = f_type_of (io_buf + 24 * i) in
      let byte = λ (j : ℕ). λ (lt : j < 4).
        byte_on_disk f f1 (at + j) (24 * i + 20 + j) r (omega arith) (omega arith) in
      let first : bytes f1 at ≡ sector f (24 * i + 20) =
        byte_on_disk f f1 at (24 * i + 20) r (omega arith) (omega arith) in
      omega (arith, first, byte 1 (omega arith), byte 2 (omega arith), byte 3 (omega arith))

  -- What is written to the sector, byte by byte.
  written :
      (f f1 f2 : State c) (m : ℕ → ℕ) (ch drive b : ℕ)
      → HasSlot f
      → IsRead controller base content part.my_disk lba io_buf 1 f.driver f1.driver
      → Filled (bytes f1) (io_buf + 24 * k) 24 (λ i. bytes f1 (p_de + i)) m
      → IsWritten controller base content part.my_disk lba io_buf 1
          (set_bytes m f1).driver
          f2.driver
      → content f2.driver.device ch drive b ≡ (
          if (ch == part.my_disk.my_channel && drive == part.my_disk.dev_no)
            && (leb start b && ltb b (start + 24))
          then bytes f (p_de + (b - start))
          else content f.driver.device ch drive b)
  written f f1 f2 m ch drive b s r c1 w =
      let x = b - 512 * lba in
      let y = b - start in
      ground (
        arith,
        w.disks ch drive b,
        ap (λ t. t ch drive b) r.keeps,
        s.entry_apart,
        (λ (le : start ≤ b) (lt : b < start + 24).
            let at : io_buf + x ≡ io_buf + 24 * k + y = omega arith in
            ap m at ∙ c1.inside y (omega arith)),
        r.memory (p_de + y),
        c1.outside (io_buf + x),
        r.memory (io_buf + x),
        (λ (le : 512 * lba ≤ b).
            let back : 512 * lba + (io_buf + x - io_buf) ≡ b = omega arith in
            ap (content f.driver.device ch drive) back),
      )

  reuse_sector-IsInserted :
      (f : State c)
      → HasSlot f
      → Returns
          (reuse_sector c part all_blocks inode p_de io_buf lba f)
          (λ r. (r.0 ≡ true) × IsInserted f r.1)
  unfolding reuse_sector
  reuse_sector-IsInserted f s =
      Returns-bind (read_sectors c part.my_disk lba io_buf 1 f) _ _ _
        (read_sectors-IsRead c base content part.my_disk lba io_buf f s.ata s.quiet s.disk s.below
          s.rounds)
        (λ f1 read.
          let r = read.1 in
          let entry = io_buf + 24 * k in
          let in_use : (i : ℕ) → i < k → word_at (bytes f1) (f_type_of (io_buf + 24 * i)) ≢ 0 =
            λ i lt e. s.used i lt (sym (type_on_disk f f1 i r (omega (arith, s.entries))) ∙ e) in
          let free = type_on_disk f f1 k r s.entries ∙ s.free in
          rw (free_entry_first dir_entry_cnts k io_buf (bytes f1) s.entries in_use free) (
            Returns-bind (memcpy entry p_de sizeof_dir_entry (bytes f1)) _ _ _
              (memcpy_copies entry p_de sizeof_dir_entry (bytes f1) (omega (arith, s.buffer))
                s.source (omega (arith, s.entry_apart, s.entries)))
              (λ m copy.
                Returns-bind (write_sectors c part.my_disk lba io_buf 1 (set_bytes m f1)) _ _ _
                  (write_sectors-IsWritten c base content part.my_disk lba io_buf (set_bytes m f1)
                    s.ata (set_bytes-IsQuiet c base part.my_disk m f1 r.quiet) s.disk s.below
                    s.rounds)
                  (λ f2 wrote.
                    let at = i_open_cnts_of inode in
                    let kept : (a : ℕ) → Outside io_buf 512 a → bytes f2 a ≡ bytes f a = λ a o.
                      ap (λ t. t a) wrote.1.memory
                      ∙ copy.outside a (omega (arith, o, s.entries))
                      ∙ ground (arith, r.memory a, o) in
                    let n = word_at (bytes f2) at in
                    let same : n ≡ word_at (bytes f) at =
                      word_at-frame (bytes f) (bytes f2) at
                        (λ i lt. kept (at + i) (omega (arith, s.inode_apart))) in
                    (
                      refl,
                      record {
                        disks = λ ch drive b. written f f1 f2 m ch drive b s r copy wrote.1;
                        count =
                            store_word-word_at (bytes f2) at (u32 (n + 24)) (omega arith)
                            ∙ ap (λ t. u32 (t + 24)) same;
                        memory = λ a o o' o''.
                            store_word_outside (bytes f2) at (u32 (n + 24)) a o' ∙ kept a o;
                      },
                    )))))

copy_sectors-Outside :
    (left i all_blocks inode : ℕ) (m : ℕ → ℕ) (a : ℕ)
    → Outside (block_at all_blocks i) (4 * left) a
    → copy_sectors left i all_blocks inode m a ≡ m a
unfolding copy_sectors
copy_sectors-Outside zero i all_blocks inode m a o = refl
copy_sectors-Outside (suc left) i all_blocks inode m a o =
    copy_sectors-Outside left (suc i) all_blocks inode
      (store_word m (block_at all_blocks i) (word_at m (i_sector_of inode i))) a (omega (arith, o))
    ∙ store_word_outside m (block_at all_blocks i) (word_at m (i_sector_of inode i)) a
        (omega (arith, o))

copy_sectors_first :
    (left all_blocks inode : ℕ) (m : ℕ → ℕ)
    → word_at m (i_sector_of inode 0) < 2 ^ 32
    → word_at (copy_sectors (suc left) 0 all_blocks inode m) (block_at all_blocks 0)
      ≡ word_at m (i_sector_of inode 0)
unfolding copy_sectors
copy_sectors_first left all_blocks inode m h =
    let at = block_at all_blocks 0 in
    let v = word_at m (i_sector_of inode 0) in
    word_at-frame (store_word m at v) (copy_sectors left 1 all_blocks inode (store_word m at v)) at
      (λ i lt.
        copy_sectors-Outside left 1 all_blocks inode (store_word m at v) (at + i)
          (inl (omega arith)))
    ∙ store_word-word_at m at v h

module _ (c : Machine) (base : ℕ → ℕ) (content : c.controller.State → ℕ → ℕ → ℕ → ℕ)
    (part : Mounted) (all_blocks parent_dir inode p_de io_buf lba k : ℕ) where
  -- The directory's first sector, and no indirect one; the array of sectors is apart.
  pub record HasSector (f : State c) : Type 0 where
    pub slot : HasSlot c base content part all_blocks inode p_de io_buf lba k f
    pub dir : word_at (bytes f) parent_dir ≡ inode
    pub size : word_at (bytes f) (i_size_of inode) % 520 ≡ 0
    pub first : word_at (bytes f) (i_sector_of inode 0) ≡ lba
    pub some_ : lba ≢ 0
    pub direct : word_at (bytes f) (i_sector_of inode 12) ≡ 0
    pub inode_apart : (inode + 76 ≤ all_blocks) ⊎ (all_blocks + 560 ≤ inode)
    pub entry_apart : (p_de + 24 ≤ all_blocks) ⊎ (all_blocks + 560 ≤ p_de)

  -- With a controller that keeps to the ATA standard on commands of one sector and nothing
  -- under way on the channel, for a directory whose i_size is a multiple of sizeof(struct
  -- dir), 520, as the ASSERT demands and the 24-byte entries of a freshly formatted root do
  -- not give, and which has no indirect sector; whose first sector is not 0, not behind
  -- max_lba, and has a free entry behind some in use or none; with the inode and the entry
  -- apart from the buffer and from the array of sectors, the entry and the buffer not at 0,
  -- the buffer ending at or below 2^32, and fuel for two rounds, sync_dir_entry returns true
  -- with the bytes of the entry in the place of the first free one and every other byte of
  -- every disk as before; the inode's i_open_cnts, and not its i_size, is larger by the 24
  -- bytes of the entry, modulo 2^32, and the rest of the memory, but for the buffer and the
  -- array, is as before.
  pub sync_dir_entry-IsInserted :
      (f : State c)
      → HasSector f
      → Returns (sync_dir_entry c part all_blocks parent_dir p_de io_buf f) (λ r.
        (r.0 ≡ some true) × IsInserted c base content part all_blocks inode p_de io_buf lba k f r.1)
  unfolding sync_dir_entry sync_sectors
  sync_dir_entry-IsInserted f s =
      let cleared = clear_bytes all_blocks 560 (bytes f) in
      let m = copy_sectors 12 0 all_blocks inode cleared in
      let f1 = set_bytes m f in
      let kept : (a : ℕ) → Outside all_blocks 560 a → m a ≡ bytes f a = λ a o.
        copy_sectors-Outside 12 0 all_blocks inode cleared a (omega (arith, o))
        ∙ ground (arith, o) in
      let clear_word : (a : ℕ)
          → (a + 4 ≤ all_blocks) ⊎ (all_blocks + 560 ≤ a)
          → word_at cleared a ≡ word_at (bytes f) a =
        λ a o. word_at-frame (bytes f) cleared a (λ i lt. ground (arith, o)) in
      let word : (a : ℕ)
          → (a + 4 ≤ all_blocks) ⊎ (all_blocks + 560 ≤ a)
          → word_at m a ≡ word_at (bytes f) a =
        λ a o. word_at-frame (bytes f) m a (λ i lt. kept (a + i) (omega (arith, o))) in
      let sector0 = clear_word (i_sector_of inode 0) (omega (arith, s.inode_apart)) ∙ s.first in
      let first : word_at m (block_at all_blocks 0) ≡ lba =
        copy_sectors_first 11 all_blocks inode cleared (omega (arith, sector0, s.slot.disk))
        ∙ sector0 in
      let direct = word (i_sector_of inode 12) (omega (arith, s.inode_apart)) ∙ s.direct in
      let slot : HasSlot c base content part all_blocks inode p_de io_buf lba k f1 = record {
        ata = s.slot.ata;
        quiet = set_bytes-IsQuiet c base part.my_disk m f s.slot.quiet;
        disk = s.slot.disk;
        rounds = s.slot.rounds;
        buffer = s.slot.buffer;
        below = s.slot.below;
        source = s.slot.source;
        entries = s.slot.entries;
        used = s.slot.used;
        free = s.slot.free;
        entry_apart = s.slot.entry_apart;
        inode_apart = s.slot.inode_apart;
      } in
      rw (s.dir, s.size, direct, first, ==_of_ne lba 0 s.some_)
        (Returns-bind (reuse_sector c part all_blocks inode p_de io_buf lba f1) _ _ _
          (reuse_sector-IsInserted c base content part all_blocks inode p_de io_buf lba k f1 slot)
          (λ r done.
            let at = i_open_cnts_of inode in
            let source : (i : ℕ) → i < 24 → m (p_de + i) ≡ bytes f (p_de + i) =
              λ i lt. kept (p_de + i) (omega (arith, s.entry_apart)) in
            rw (done.0) (
              refl,
              record {
                disks = λ ch drive b.
                    ground (arith, done.1.disks ch drive b, source (b - (512 * lba + 24 * k)));
                count =
                    done.1.count ∙ ap (λ t. u32 (t + 24)) (word at (omega (arith, s.inode_apart)));
                memory = λ a o o' o''. done.1.memory a o o' o'' ∙ kept a o'';
              },
            )))
