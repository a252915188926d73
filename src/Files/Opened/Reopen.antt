-- ===== src/Files/Opened/Reopen.antt =====
-- fs/inode.c: an inode that inode_sync wrote to the disk, opened again by inode_open.
use leeos.Base.{ℕ, ◌+◌, ◌≤◌, ◌<◌, ◌≡◌, ◌⊎◌}
use leeos.Base.Bytes.{word_at}
use leeos.Files.Inodes.{pure_inode}
use leeos.Files.Space.{Machine, State, bytes}
use leeos.Files.Opened.{i_open_cnts_of}

module _ (c : Machine) where
  open c use {controller, fuel}

  -- The inode is in memory at the new place as it was at the old one, opened once and with
  -- write_deny cleared.
  pub record IsReopened (inode new : ℕ) (f : State c) (r : ℕ × State c) : Type 0 where
    pub place : r.0 ≡ new
    pub fields :
        (j : ℕ)
        → (j < 8) ⊎ ((12 ≤ j) × (j < 68))
        → bytes r.1 (new + j) ≡ pure_inode (bytes f) inode j
    pub count : word_at (bytes r.1) (i_open_cnts_of new) ≡ 1
