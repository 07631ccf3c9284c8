-- ===== src/Ext2/Data.antt =====
-- The contents of files in src/common/ext2.c: `inode_data_transfer` and `ext2_transfer`. The state
-- is the device and the inode that the caller holds, which both functions change.
mod Tests
pub mod Read
pub mod Ends
pub mod Size
pub mod Limits
use muse.Base.{
  ℕ, zero, suc, ◌+◌, ◌-◌, ◌*◌, ◌/◌, ◌%◌, Bool, true, false, ◌&&◌, Option, none, some, ltb, leb,
  ◌==◌, if◌then◌else◌, u32, sub32,
}
use muse.Base.Memory.{Bytes, blit}
use muse.Malloc.{load32, store32}
use muse.Disk.{
  DataDir,
  DataDir.{dir_read, dir_write},
  DriveErr,
  DriveErr.{bad_args},
  Result,
  ok,
  err,
  Action,
  pure,
  gets,
  ◌>>=◌,
  ◌>>◌,
  Disk,
  sector_size,
  fresh,
  view,
  transfer,
}
use muse.Ext2.{
  Superblock, block_size, block_sectors, block_lba, group_id, size_lo, direct_block_at,
  indirect_block_single, inode_transfer, alloc_ext2_obj,
}

pub record Open : Type 0 where
  pub disk : Disk
  pub inode : Bytes

-- a call that only uses the device
abbrev pub on_disk : {A : Type 0} → Action Disk A → Action Open A
on_disk m o = let (r, d) = m o.disk in (r, record o { disk = d })

-- a call whose error is not looked at
abbrev pub attempt : {A : Type 0} → Action Open A → Action Open (Unit {0})
attempt m o = let (_, p) = m o in (ok tt, p)

-- a store to a word of the inode
abbrev pub store_inode : ℕ → ℕ → Action Open (Unit {0})
store_inode a v o = (ok tt, record o { inode = store32 o.inode a v })

-- a block from the group of the inode's `group_id`
pub alloc_block : Superblock → Action Open ℕ
alloc_block sb o = on_disk (alloc_ext2_obj sb (group_id o.inode) false) o

-- The block number in word `a` of the inode, with a new block where it is 0, and whether there was
-- a new one.
pub block_at : Superblock → ℕ → Action Open Bool
block_at sb a o =
    let new = (do block ← alloc_block sb; store_inode a block; pure true) in
    if load32 o.inode a == 0 then new o else (ok false, o)

-- the case `idx < 12`: the LBA and `write_inode`
pub direct : Superblock → ℕ → Action Open (ℕ × Bool)
direct sb idx = do
  is_new ← block_at sb (direct_block_at idx)
  block ← gets (λ o. load32 o.inode (direct_block_at idx))
  pure (block_lba sb block, is_new)

-- entry `entry` of the indirect block that has been read, with a new block where its LBA is 0
pub indirect_entry : Superblock → ℕ → Bytes → Action Open ℕ
indirect_entry sb entry table =
    let lba = block_lba sb (load32 table (4 * entry)) in
    let new = (do
      block ← alloc_block sb
      single ← gets (λ o. indirect_block_single o.inode)
      let changed = store32 table (4 * entry) block
      attempt (on_disk (transfer (block_lba sb single) (block_sectors sb) changed dir_write))
      pure (block_lba sb block)) in
    if lba == 0 then new else pure lba

-- the singly indirect case
pub indirect : Superblock → ℕ → Action Open (ℕ × Bool)
indirect sb entry = do
  is_new ← block_at sb 88
  single ← gets (λ o. indirect_block_single o.inode)
  table ← on_disk (transfer (block_lba sb single) (block_sectors sb) fresh dir_read)
  lba ← indirect_entry sb entry table
  pure (lba, is_new)

-- `if (dir == DIR_READ) return DRV_ERR_BAD_ARGS;`, where there is no indirect block
pub is_hole : DataDir → Bytes → Bool
is_hole dir_read inode = indirect_block_single inode == 0
is_hole dir_write inode = false

-- the first half of `inode_data_transfer`; DRV_ERR_BAD_ARGS, which is 4, is its `lba` at first
pub locate : Superblock → ℕ → DataDir → Action Open (ℕ × Bool)
locate sb idx dir o =
    if ltb idx 12
    then direct sb idx o
    else if ltb idx (12 + block_size sb / 4)
    then if is_hole dir o.inode then (err bad_args, o) else indirect sb (idx - 12) o
    else (ok (4, false), o)

-- the inode is written back
pub write_inode : Superblock → ℕ → Action Open Bytes
write_inode sb inode_i o = on_disk (inode_transfer sb inode_i o.inode dir_write) o

-- `inode_data_transfer`: the buffer after it
pub inode_data_transfer : Superblock → ℕ → ℕ → Bytes → DataDir → Action Open Bytes
inode_data_transfer sb inode_i idx buf dir = do
  found ← locate sb idx dir
  after ← on_disk (transfer found.0 (block_sectors sb) buf dir)
  if found.1 then (do write_inode sb inode_i; pure after) else pure after

-- A read or a write of a file: the state, the caller's buffer and `bytes_written`.
pub record Progress : Type 0 where
  pub open_file : Open
  pub buffer : Bytes
  pub written : ℕ

-- What one round of the loop copies, once it has block `block` in `bfr`: the caller's buffer after
-- it, or an error of the write back.
pub copy_block : Superblock → ℕ → ℕ → Bytes → ℕ → ℕ → DataDir → Progress → Result Bytes × Open
copy_block sb inode_i block bfr skip cnt dir_read p =
    (ok (blit p.buffer p.written cnt (view bfr skip)), p.open_file)
copy_block sb inode_i block bfr skip cnt dir_write p =
    let changed = blit bfr skip cnt (view p.buffer p.written) in
    let (r, o) = inode_data_transfer sb inode_i block changed dir_write p.open_file in
    (elim r [ ok _ ↦ ok p.buffer | err e ↦ err e ], o)

-- `cnt` of the round for the block that ends at `block_end`; `end` is `offset + len`.
pub chunk : Superblock → ℕ → ℕ → ℕ → ℕ
chunk sb end block_end skip =
    let cnt = sub32 (block_size sb) skip in
    if ltb end block_end then u32 (cnt + sub32 end block_end) else cnt

-- a round once it has copied `cnt` bytes: whether the loop goes on
pub after_copy : ℕ → ℕ → Progress → Result Bytes × Open → Bool × Progress
after_copy len cnt p (err _, o) = (false, record p { open_file = o })
after_copy len cnt p (ok buffer, o) =
    let written = u32 (p.written + cnt) in
    (
      if written == len then false else true,
      record { open_file = o; buffer = buffer; written = written },
    )

-- a round once it has read the block
pub after_read :
    Superblock → ℕ → ℕ → ℕ → DataDir → ℕ → ℕ → ℕ → Progress → Result Bytes × Open → Bool × Progress
after_read sb inode_i end len dir block block_end skip p (err _, o) =
    (false, record p { open_file = o })
after_read sb inode_i end len dir block block_end skip p (ok bfr, o) =
    let cnt = chunk sb end block_end skip in
    after_copy len cnt p (copy_block sb inode_i block bfr skip cnt dir (record p { open_file = o }))

-- one round
pub round : Superblock → ℕ → ℕ → ℕ → DataDir → ℕ → ℕ → ℕ → Progress → Bool × Progress
round sb inode_i end len dir block block_end skip p =
    after_read sb inode_i end len dir block block_end skip p
      (inode_data_transfer sb inode_i block fresh dir_read p.open_file)

-- the loop, on fuel; `none` is a loop that the fuel does not suffice for
pub rounds : ℕ → Superblock → ℕ → ℕ → ℕ → DataDir → ℕ → ℕ → ℕ → Progress → Option Progress
rounds zero sb inode_i end len dir block block_end skip p = none
rounds (suc fuel) sb inode_i end len dir block block_end skip p =
    let (goes_on, q) = round sb inode_i end len dir block block_end skip p in
    let rest =
      rounds fuel sb inode_i end len dir (u32 (block + 1)) (u32 (block_end + block_size sb)) 0 q in
    if goes_on then rest else some q

-- `len`, cut at the end of the file
pub clamp : Bytes → ℕ → ℕ → ℕ
clamp inode offset len =
    if ltb (size_lo inode) (u32 (offset + len)) then sub32 (size_lo inode) offset else len

-- the new size and sector count, after a write up to the end of the file or past it
pub update_size : Superblock → ℕ → ℕ → DataDir → Open → Open
update_size sb inode_i end dir_read o = o
update_size sb inode_i end dir_write o =
    let sized = store32 o.inode 4 end in
    let counted = store32 sized 28 (u32 (end + 511) / sector_size) in
    let (_, p) = write_inode sb inode_i (record o { inode = counted }) in
    if leb (size_lo o.inode) end then p else o

-- what `ext2_transfer` does after the loop
pub finish : Superblock → ℕ → ℕ → DataDir → Option Progress → Option Progress
finish sb inode_i end dir none = none
finish sb inode_i end dir (some p) =
    some (record p { open_file = update_size sb inode_i end dir p.open_file })

-- the loop from block `block` on, for `len` bytes
pub transfer_blocks : ℕ → Superblock → ℕ → ℕ → ℕ → ℕ → DataDir → Progress → Option Progress
transfer_blocks fuel sb inode_i offset len block dir start =
    rounds fuel sb inode_i (u32 (offset + len)) len dir block
      (u32 (u32 (block + 1) * block_size sb)) (sub32 offset (u32 (block * block_size sb))) start

-- `ext2_transfer`
pub ext2_transfer : ℕ → Superblock → ℕ → ℕ → ℕ → Bytes → DataDir → Open → Option Progress
ext2_transfer fuel sb inode_i offset len buffer dir o =
    let len' = clamp o.inode offset len in
    finish sb inode_i (u32 (offset + len')) dir (
      transfer_blocks fuel sb inode_i offset len' (offset / block_size sb) dir
        (record { open_file = o; buffer = buffer; written = 0 }))
