-- ===== src/Tests/Disk.antt =====
-- A partition's layout, an inode's place and a process's open files.
use leeos.Base.{ℕ, arith, ◌==◌, if◌then◌else◌}
use leeos.Files.{super_block_of, no_file}
use leeos.Files.Layout.{LaidOut, super_block_of-LaidOut}

super_block_of-LaidOut_example : LaidOut 2048 20000 (super_block_of 2048 20000)
super_block_of-LaidOut_example = super_block_of-LaidOut 2048 20000 (omega arith) (omega arith)

-- The slots 3 and 4 are taken.
abbrev some_files : ℕ → ℕ
some_files idx = if idx == 3 then 10 else if idx == 4 then 11 else no_file
