-- ===== src/Ext2.antt =====
-- The Ext2 file system, src/common/ext2.c with include/muse/ext2.h, over a block device of `Disk`.
-- The on-disk structures are their bytes, read by field: an inode is its 128 bytes, a block group
-- descriptor its 32.
mod Tests
pub mod Data
pub mod Directory
pub mod Scan
pub mod Alloc
pub mod Twice
pub mod Inodes
use muse.Base.{
  ℕ, zero, suc, ◌+◌, ◌-◌, ◌*◌, ◌/◌, ◌%◌, ◌^◌, max, bit_and, bit_or, Bool, true, false, ◌&&◌, Option,
  none, some, List, [], ◌∷◌, ltb, leb, ◌==◌, if◌then◌else◌, u8, u16, u32, sub32, shr, one_shl,
  update,
}
use muse.Base.Memory.{Bytes, blit, slice}
use muse.Malloc.{load32, store32}
use muse.Elf.{load16}
use muse.Disk.{
  DataDir,
  DataDir.{dir_read, dir_write},
  DriveErr,
  Result,
  ok,
  err,
  Action,
  pure,
  gets,
  or_return,
  ◌>>=◌,
  ◌>>◌,
  Disk,
  sector_size,
  fresh,
  view,
  transfer,
}

-- the fields of `struct ext2_superblock` that the code reads
pub record Superblock : Type 0 where
  pub total_blocks : ℕ
  pub block_size_log : ℕ
  pub blocks_per_group : ℕ
  pub inodes_per_group : ℕ
  pub signature : ℕ
  pub version_maj : ℕ
  pub inode_size : ℕ

pub superblock : Bytes → Superblock
superblock m = record {
  total_blocks = load32 m 4;
  block_size_log = load32 m 24;
  blocks_per_group = load32 m 32;
  inodes_per_group = load32 m 40;
  signature = load16 m 56;
  version_maj = load32 m 76;
  inode_size = load16 m 88;
}

pub block_size : Superblock → ℕ
block_size sb = u32 (1024 * 2 ^ sb.block_size_log)

-- the sectors of a block
abbrev pub block_sectors : Superblock → ℕ
block_sectors sb = block_size sb / sector_size

-- `block * block_size / SECTOR_SIZE`
abbrev pub block_lba : Superblock → ℕ → ℕ
block_lba sb block = u32 (block * block_size sb) / sector_size

-- `struct ext2_block_group_descriptor`
abbrev pub descriptor_size : ℕ
descriptor_size = 32

abbrev pub block_bitmap_addr : Bytes → ℕ
block_bitmap_addr m = load32 m 0

abbrev pub inode_bitmap_addr : Bytes → ℕ
inode_bitmap_addr m = load32 m 4

abbrev pub inode_table : Bytes → ℕ
inode_table m = load32 m 8

abbrev pub unallocated_blocks : Bytes → ℕ
unallocated_blocks m = load16 m 12

abbrev pub unallocated_inodes : Bytes → ℕ
unallocated_inodes m = load16 m 14

-- `struct ext2_inode`
abbrev pub inode_mode : Bytes → ℕ
inode_mode m = load16 m 0

abbrev pub size_lo : Bytes → ℕ
size_lo m = load32 m 4

abbrev pub group_id : Bytes → ℕ
group_id m = load16 m 24

abbrev pub sector_count : Bytes → ℕ
sector_count m = load32 m 28

abbrev pub direct_block_at : ℕ → ℕ
direct_block_at idx = 40 + 4 * idx

abbrev pub indirect_block_single : Bytes → ℕ
indirect_block_single m = load32 m 88

-- where the table of block group descriptors has entry `idx`: its sector
pub descriptor_lba : Superblock → ℕ → ℕ
descriptor_lba sb idx =
    u32 (u32 (idx * descriptor_size) / sector_size + max (block_size sb) 2048 / sector_size)

-- and the offset in that sector
pub descriptor_offset : ℕ → ℕ
descriptor_offset idx = idx % (sector_size / descriptor_size) * descriptor_size

-- The descriptor after the call.
pub group_descriptor_transfer : Superblock → ℕ → Bytes → DataDir → Action Disk Bytes
group_descriptor_transfer sb idx descriptor dir = do
  descriptors ← transfer (descriptor_lba sb idx) 1 fresh dir_read
  elim dir [
    | dir_write ↦ do
      transfer (descriptor_lba sb idx) 1
          (blit descriptors (descriptor_offset idx) descriptor_size descriptor) dir_read
      pure descriptor
    | dir_read ↦ pure (view descriptors (descriptor_offset idx))
  ]

-- Where `inode_transfer` looks for an inode: its group, its index there and its size. For no inodes per
-- group the processor faults instead.
pub inode_group : Superblock → ℕ → ℕ
inode_group sb inode_i = sub32 inode_i 1 / sb.inodes_per_group

pub inode_index : Superblock → ℕ → ℕ
inode_index sb inode_i = sub32 inode_i 1 % sb.inodes_per_group

pub disk_inode_size : Superblock → ℕ
disk_inode_size sb = if leb 1 sb.version_maj then sb.inode_size else 128

-- its sector, in a table that begins at block `table`
pub inode_lba : Superblock → ℕ → ℕ → ℕ
inode_lba sb inode_i table =
    u32 (u32 (inode_index sb inode_i * disk_inode_size sb) / sector_size + block_lba sb table)

-- and the offset in that sector
pub inode_offset : Superblock → ℕ → ℕ
inode_offset sb inode_i =
    inode_index sb inode_i % (sector_size / disk_inode_size sb) * disk_inode_size sb

-- The inode after the call.
pub inode_transfer : Superblock → ℕ → Bytes → DataDir → Action Disk Bytes
inode_transfer sb inode_i inode dir = do
  descriptor ← group_descriptor_transfer sb (inode_group sb inode_i) fresh dir_read
  let lba = inode_lba sb inode_i (inode_table descriptor)
  inodes ← transfer lba 1 fresh dir_read
  elim dir [
    | dir_read ↦ pure (view inodes (inode_offset sb inode_i))
    | dir_write ↦ do
      transfer lba 1 (blit inodes (inode_offset sb inode_i) 128 inode) dir_write
      pure inode
  ]

-- The loop over the bits of a byte, with `left` bits left from bit `j` on.
pub find_bit : ℕ → ℕ → ℕ → Option ℕ
find_bit zero byte j = none
find_bit (suc left) byte j =
    let rest = find_bit left byte (j + 1) in if bit_and (shr byte j) 1 == 0 then some j else rest

-- The loop over the bitmap, with `left` bytes left from byte `i` on: the byte and its clear bit.
pub find_clear : ℕ → Bytes → ℕ → Option (ℕ × ℕ)
find_clear zero bitmap i = none
find_clear (suc left) bitmap i =
    let rest = find_clear left bitmap (i + 1) in
    if bitmap i == 255
    then rest
    else elim (find_bit 8 (bitmap i) 0) [ none ↦ rest | some j ↦ some (i, j) ]

-- `bitmap[i] |= 1 << j`
pub mark_bit : Bytes → ℕ → ℕ → Bytes
mark_bit bitmap i j = update bitmap i (u8 (bit_or (bitmap i) (one_shl j)))

-- what `alloc_ext2_obj` returns for bit `j` of byte `i`
pub obj_id : Superblock → ℕ → Bool → ℕ → ℕ → ℕ
obj_id sb group inode i j =
    if inode
    then u32 (group * sb.inodes_per_group + i * 8 + j + 1)
    else u32 (group * sb.blocks_per_group + i * 8 + j)

-- the rest of `alloc_ext2_obj`, once the bitmap is read and scanned
pub take_obj : Superblock → ℕ → Bool → ℕ → Bytes → Option (ℕ × ℕ) → Action Disk ℕ
take_obj sb group inode lba bitmap none = pure 0
take_obj sb group inode lba bitmap (some (i, j)) = do
  transfer lba (block_sectors sb) (mark_bit bitmap i j) dir_write
  pure (obj_id sb group inode i j)

-- `alloc_ext2_obj` from its second read of the descriptor on
pub search_bitmap : Superblock → ℕ → Bool → Action Disk ℕ
search_bitmap sb group inode = do
  descriptor ← group_descriptor_transfer sb group fresh dir_read
  let lba =
      block_lba sb (if inode then inode_bitmap_addr descriptor else block_bitmap_addr descriptor)
  bitmap ← transfer lba (block_sectors sb) fresh dir_read
  take_obj sb group inode lba bitmap (find_clear (block_size sb) bitmap 0)

-- `alloc_ext2_obj` without `return 0` on an error
pub search_group : Superblock → ℕ → Bool → Action Disk ℕ
search_group sb group inode = do
  descriptor ← group_descriptor_transfer sb group fresh dir_read
  let left = if inode then unallocated_inodes descriptor else unallocated_blocks descriptor
  if left == 0 then pure 0 else search_bitmap sb group inode

pub alloc_ext2_obj : Superblock → ℕ → Bool → Action Disk ℕ
alloc_ext2_obj sb group inode = or_return 0 (search_group sb group inode)
