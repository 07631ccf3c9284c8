-- ===== src/Ext2/Directory/Tests.antt =====
-- A directory of two entries, and a file system of one group.
use muse.Base.{
  ℕ, ◌+◌, ◌<◌, ◌≡◌, refl, some, none, List, [], arith, sub32, ◌==◌, ◌||◌, if◌then◌else◌,
}
use muse.Base.Memory.{Bytes}
use muse.Elf.{load16}
use muse.Disk.{Disk}
use muse.Ext2.{Superblock}
use muse.Ext2.Directory.{Child, entries, group_count}
use muse.Ext2.Directory.Entries.{IsEntry, first, next, entries-total}

-- the entries ".", of 12 bytes with inode 2, and "..", for the other 52 bytes
abbrev listing : Bytes
listing a =
    if a == 0 || a == 12
    then 2
    else if a == 4
    then 12
    else if a == 16
    then 52
    else if a == 6
    then 1
    else if a == 18
    then 2
    else if a == 8 || a == 20 || a == 21
    then b'.'
    else 0

-- the second entry ends the buffer
lengths_behind : (b : ℕ) → IsEntry listing 64 b 64 → b < sub32 64 1 → 0 < load16 listing (b + 4)
lengths_behind b first lt = absurd (omega arith)
lengths_behind b (next a below ne rest) lt = absurd (omega arith)

lengths_second : (b : ℕ) → IsEntry listing 64 b 12 → b < sub32 64 1 → 0 < load16 listing (b + 4)
lengths_second b first lt = omega arith
lengths_second b (next a below ne rest) lt = lengths_behind b rest lt

lengths_first : (b : ℕ) → IsEntry listing 64 b 0 → b < sub32 64 1 → 0 < load16 listing (b + 4)
lengths_first b first lt = omega arith
lengths_first b (next a below ne rest) lt = lengths_second b rest lt

entries-total_example : (found : List Child) × (entries 64 listing 64 0 [] ≡ some found)
entries-total_example =
    entries-total 64 listing 64 0 [] (λ b reached lt ne. lengths_first b reached lt) (omega arith)
      (omega arith)

abbrev one_group : Superblock
one_group = record {
  total_blocks = 8192;
  block_size_log = 0;
  blocks_per_group = 8192;
  inodes_per_group = 8;
  signature = 0xef53;
  version_maj = 0;
  inode_size = 128;
}

abbrev blank : Disk
blank = record { bytes = λ _. 0; fault = λ _ _ _. none }

single : group_count one_group ≡ 1
unfolding group_count
single = refl
