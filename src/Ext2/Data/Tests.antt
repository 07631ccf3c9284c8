-- ===== src/Ext2/Data/Tests.antt =====
-- A file of 20 bytes in one block, block 6 of a device.
use muse.Base.{
  ℕ, ◌+◌, ◌-◌, ◌*◌, ◌^◌, ◌≤◌, ◌<◌, ◌≡◌, refl, subst, none, some, arith, ◌==◌, if◌then◌else◌,
}
use muse.Base.Memory.{blit}
use muse.Malloc.{load32}
use muse.Disk.{DataDir.{dir_read, dir_write}, fresh}
use muse.Ext2.{Superblock, block_size, size_lo}
use muse.Ext2.Data.{Open, Progress, ext2_transfer}
use muse.Ext2.Data.Read.{Readable, file_byte, ext2_transfer-read}
use muse.Ext2.Data.Size.{file_size, ext2_transfer-file_size}

abbrev volume : Superblock
volume = record {
  total_blocks = 8192;
  block_size_log = 0;
  blocks_per_group = 8192;
  inodes_per_group = 8;
  signature = 0xef53;
  version_maj = 0;
  inode_size = 128;
}

abbrev twenty_bytes : Open
twenty_bytes = record {
  disk = record { bytes = λ a. a; fault = λ _ _ _. none };
  inode = λ a. if a == 4 then 20 else if a == 40 then 6 else 0;
}

first_block : Readable volume twenty_bytes 0
unfolding load32
first_block = record { mapped = λ e. absurd (omega (arith, e)); works = refl }

few_bytes : 3 + 4 ≤ size_lo twenty_bytes.inode
unfolding load32
few_bytes = omega arith

in_direct : 3 + 4 ≤ 12 * block_size volume
unfolding block_size
in_direct = omega arith

small_volume : block_size volume ≤ 2 ^ 28
unfolding block_size
small_volume = omega arith

only_block : (idx : ℕ) → idx * block_size volume < 3 + 4 → Readable volume twenty_bytes idx
unfolding block_size
only_block idx lt =
    let first : 0 ≡ idx = omega (arith, lt) in
    subst (Readable volume twenty_bytes) first first_block

ext2_transfer-read_example :
    ext2_transfer 12 volume 2 3 4 fresh dir_read twenty_bytes
    ≡ some record {
      open_file = twenty_bytes;
      buffer = blit fresh 0 4 (λ j. file_byte volume twenty_bytes (3 + j));
      written = 4;
    }
ext2_transfer-read_example =
    ext2_transfer-read 12 volume 2 3 4 fresh twenty_bytes (omega arith) (omega arith) few_bytes
      in_direct small_volume only_block

-- what a read of 4 bytes leaves
abbrev after_read_of_four : Progress
after_read_of_four = record {
  open_file = twenty_bytes;
  buffer = blit fresh 0 4 (λ j. file_byte volume twenty_bytes (3 + j));
  written = 4;
}

inside_file : 3 ≤ file_size twenty_bytes
unfolding load32
inside_file = omega arith

small_file : file_size twenty_bytes < 2 ^ 32
unfolding load32
small_file = omega arith

four_read : ext2_transfer 12 volume 2 3 4 fresh dir_read twenty_bytes ≡ some after_read_of_four
four_read =
    ext2_transfer-read 12 volume 2 3 4 fresh twenty_bytes (omega arith) (omega arith) few_bytes
      in_direct small_volume only_block

some_block : 0 < block_size volume
unfolding block_size
some_block = omega arith

below_top : file_size twenty_bytes + block_size volume < 2 ^ 32
unfolding load32 block_size
below_top = omega arith

twelve_blocks : 3 + 40 < 12 * block_size volume
unfolding block_size
twelve_blocks = omega arith

-- a write of 40 bytes at 3
ext2_transfer-file_size_example :
    (q : Progress) × (ext2_transfer 12 volume 2 3 40 fresh dir_write twenty_bytes ≡ some q)
    × (q.written ≤ file_size twenty_bytes - 3)
    × (file_size q.open_file ≡ file_size twenty_bytes)
ext2_transfer-file_size_example =
    ext2_transfer-file_size 12 volume 2 3 40 fresh dir_write twenty_bytes some_block inside_file
      below_top (omega arith) twelve_blocks
