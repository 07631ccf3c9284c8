-- ===== src/Ext2/Tests.antt =====
-- A device with one block group: its descriptor in sector 4, its bitmaps in blocks 3 and 4, its
-- inode table in block 5.
use muse.Base.{ℕ, ◌^◌, ◌≤◌, ◌<◌, ◌≡◌, ◌≢◌, inl, refl, true, none, arith, ◌==◌, ◌||◌, if◌then◌else◌}
use muse.Base.Memory.{Bytes, blit}
use muse.Malloc.{load32}
use muse.Disk.{DataDir.{dir_read, dir_write}, ok, Disk, fresh, accepted, transfer}
use muse.Ext2.{
  Superblock, block_size, descriptor_lba, descriptor_offset, inode_lba, inode_group, inode_index,
  disk_inode_size, group_descriptor_transfer, inode_transfer, find_bit, find_clear, mark_bit,
  obj_id, take_obj, search_bitmap, search_group, alloc_ext2_obj,
}
use muse.Ext2.Alloc.{Valid, Allocated, descriptor_of, bitmap_lba, alloc_ext2_obj-Allocated}
use muse.Ext2.Twice.{Apart, alloc_ext2_obj-fresh}
use muse.Ext2.Inodes.{inode_sector, inode_address, inode_transfer-round_trip}

abbrev sb : Superblock
sb = record {
  total_blocks = 8192;
  block_size_log = 0;
  blocks_per_group = 8192;
  inodes_per_group = 8;
  signature = 0xef53;
  version_maj = 0;
  inode_size = 128;
}

abbrev device : Disk
device = record {
  bytes = λ a.
      if a == 2048
      then 3
      else if a == 2052
      then 4
      else if a == 2056
      then 5
      else if a == 2060 || a == 2062
      then 10
      else if a == 4096
      then 3
      else 0;
  fault = λ _ _ _. none;
}

device-Valid : Valid device
device-Valid a = ground arith

abbrev third : ℕ
third = 3

abbrev fourth : ℕ
fourth = 4

-- the device after one call
abbrev once : Disk
once = (alloc_ext2_obj sb 0 true device).1

-- and after two
abbrev twice : Disk
twice = (alloc_ext2_obj sb 0 true once).1

first_call : alloc_ext2_obj sb 0 true device ≡ (ok third, once)
unfolding alloc_ext2_obj search_group search_bitmap take_obj obj_id find_clear find_bit mark_bit
    group_descriptor_transfer descriptor_lba descriptor_offset block_size transfer accepted load32
first_call = refl

second_call : alloc_ext2_obj sb 0 true once ≡ (ok fourth, twice)
unfolding alloc_ext2_obj search_group search_bitmap take_obj obj_id find_clear find_bit mark_bit
    group_descriptor_transfer descriptor_lba descriptor_offset block_size transfer accepted load32
second_call = refl

bitmap_apart : Apart sb 0 true device
unfolding descriptor_lba descriptor_offset block_size bitmap_lba descriptor_of accepted load32
bitmap_apart = inl (omega arith)

small_blocks : block_size sb ≤ 2 ^ 28
unfolding block_size
small_blocks = omega arith

alloc_ext2_obj-Allocated_example : Allocated sb 0 true device third once
alloc_ext2_obj-Allocated_example =
    alloc_ext2_obj-Allocated sb 0 true device third once device-Valid first_call
      (λ e. absurd (omega (arith, e)))

alloc_ext2_obj-fresh_example : third ≢ fourth
alloc_ext2_obj-fresh_example =
    alloc_ext2_obj-fresh sb 0 true device third once fourth twice device-Valid small_blocks
      bitmap_apart first_call (λ e. absurd (omega (arith, e))) second_call
      (λ e. absurd (omega (arith, e)))

-- an inode with two bytes that are not 0
abbrev inode : Bytes
inode a = if a == 0 then 0xA4 else if a == 1 then 0x81 else 0

sector_apart : inode_sector sb 2 device ≢ descriptor_lba sb (inode_group sb 2)
unfolding inode_sector inode_lba inode_index inode_group disk_inode_size descriptor_lba
    descriptor_offset descriptor_of block_size accepted load32
sector_apart e = absurd (omega (arith, e))

whole_inode : 128 ≤ disk_inode_size sb
unfolding disk_inode_size
whole_inode = omega arith

in_sector : disk_inode_size sb ≤ 512
unfolding disk_inode_size
in_sector = omega arith

inode_transfer-round_trip_example :
    (z : Bytes) × (e : Disk) × (inode_transfer sb 2 inode dir_write device ≡ (ok inode, e))
    × (inode_transfer sb 2 fresh dir_read e ≡ (ok z, e))
    × ((k : ℕ) → k < 128 → z k ≡ inode k)
    × ((a : ℕ) → e.bytes a ≡ blit device.bytes (inode_address sb 2 device) 128 inode a)
inode_transfer-round_trip_example =
    inode_transfer-round_trip sb 2 inode fresh device (λ _ _ _. refl) sector_apart whole_inode
      in_sector
