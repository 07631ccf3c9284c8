-- ===== src/Ext2/Directory.antt =====
-- Directories in src/common/ext2.c: `enumerate_children`, the search for a child's inode, and what
-- is registered with the virtual file system.
mod Tests
pub mod Entries
use muse.Base.{
  ℕ, zero, suc, ◌+◌, ◌-◌, ◌*◌, ◌/◌, ◌%◌, Bool, true, false, Option, none, some, List, [], ◌∷◌, ltb,
  leb, ◌==◌, if◌then◌else◌, bit_and, max, u32, sub32,
}
use muse.Base.Memory.{Bytes, blit, slice}
use muse.Malloc.{load32}
use muse.Elf.{load16}
use muse.Disk.{
  DataDir,
  DataDir.{dir_read, dir_write},
  DriveErr,
  DriveErr.{no_drive},
  Result,
  ok,
  err,
  Action,
  pure,
  ◌>>=◌,
  ◌>>◌,
  Disk,
  sector_size,
  fresh,
  view,
  transfer,
}
use muse.Ext2.{
  Superblock, superblock, block_size, inode_mode, size_lo, sector_count, inode_group,
  inode_transfer, alloc_ext2_obj,
}
use muse.Ext2.Data.{Open, inode_data_transfer}

-- what `enumerate_children` adds for a directory entry: `struct vfs_tnode`
pub record Child : Type 0 where
  pub name : List ℕ
  pub inode_id : ℕ

-- the entry at `a`: `inode` at 0, `len` at 4, `name_len` at 6, `name` at 8
pub child_at : Bytes → ℕ → Child
child_at buf a = record { name = slice buf (a + 8) (buf (a + 6)); inode_id = load32 buf a }

-- The loop over the entries, on fuel, for a buffer of `size` bytes: the list of children, the last
-- entry first. `none` is a loop that the fuel does not suffice for.
pub entries : ℕ → Bytes → ℕ → ℕ → List Child → Option (List Child)
entries zero buf size a children = none
entries (suc fuel) buf size a children =
    let rest = entries fuel buf size (a + load16 buf (a + 4)) (child_at buf a ∷ children) in
    if ltb a (sub32 size 1)
    then (if load32 buf a == 0 then some children else rest)
    else some children

-- the loop that reads the directory's blocks, with `left` blocks left from block `i` on
pub read_blocks : ℕ → Superblock → ℕ → ℕ → Bytes → Action Open Bytes
read_blocks zero sb inode_i i buf = pure buf
read_blocks (suc left) sb inode_i i buf = do
  block ← inode_data_transfer sb inode_i i (view buf (block_size sb * i)) dir_read
  read_blocks left sb inode_i (i + 1) (blit buf (block_size sb * i) (block_size sb) block)

-- the blocks of a file, from its sector count
pub block_count : Superblock → Bytes → ℕ
block_count sb inode = u32 (sector_count inode * sector_size) / block_size sb

-- `enumerate_children`, for an inode with the children `known`
pub enumerate_children : ℕ → Superblock → ℕ → Bytes → List Child → Action Disk (Option (List Child))
enumerate_children fuel sb inode_i inode known d =
    let blocks = block_count sb inode in
    let (r, o) = read_blocks blocks sb inode_i 0 fresh (record { disk = d; inode = inode }) in
    let listed : Result (Option (List Child)) = elim r [
      | ok buf ↦ ok (entries fuel buf (u32 (block_size sb * blocks)) 0 known)
      | err e ↦ err e
    ] in
    if bit_and (inode_mode inode) 0x4000 == 0 then (ok (some []), d) else (listed, o.disk)

-- The body of the loop of `alloc_child_inode` at distance `distance`.
pub alloc_near : Superblock → ℕ → ℕ → ℕ → Action Disk ℕ
alloc_near sb parent_group group_cnt distance = do
  earlier ←
      (if leb distance parent_group
        then alloc_ext2_obj sb (parent_group - distance) true
        else pure 0)
  later ←
      (if earlier == 0
        then if ltb (u32 (parent_group + distance)) group_cnt
          then alloc_ext2_obj sb (u32 (parent_group + distance)) true
          else pure 0
        else pure earlier)
  pure later

-- the loop, with `left` distances left
pub alloc_outward : ℕ → Superblock → ℕ → ℕ → ℕ → Action Disk ℕ
alloc_outward zero sb parent_group group_cnt distance = pure 0
alloc_outward (suc left) sb parent_group group_cnt distance = do
  inode ← alloc_near sb parent_group group_cnt distance
  if inode == 0 then alloc_outward left sb parent_group group_cnt (distance + 1) else pure inode

-- `total_blocks / blocks_per_group`
pub group_count : Superblock → ℕ
group_count sb = sb.total_blocks / sb.blocks_per_group

-- `alloc_child_inode`, for a parent in group `parent_group`
pub alloc_child_inode : Superblock → ℕ → Action Disk ℕ
alloc_child_inode sb parent_group =
    let bound = max parent_group (sub32 (sub32 (group_count sb) parent_group) 1) in
    alloc_outward bound sb parent_group (group_count sb) 0

-- `struct vfs_inode` with its `struct ext2_vfs_payload`; `data` of the inode is the state's.
pub record Registered : Type 0 where
  pub id : ℕ
  pub group : ℕ
  pub contents : Bytes
  pub size : ℕ
  pub children : Option (List Child)
  pub present : Bool

-- what an out parameter holds after a call: what was there before it, if the call fails
abbrev pub or_garbage {ℓ} : {A : Type ℓ} → A → Result A → A
or_garbage garbage (ok a) = a
or_garbage garbage (err e) = garbage

-- `ext2_register_inode`, which does not look at the errors of its calls; `garbage` is the memory
-- that a failed read leaves, `known` the uninitialised list of children.
pub ext2_register_inode : ℕ → Superblock → ℕ → Bytes → List Child → Disk → Registered × Disk
ext2_register_inode fuel sb inode_i garbage known d =
    let (r, d1) = inode_transfer sb inode_i garbage dir_read d in
    let inode = or_garbage garbage r in
    let (listed, d2) = enumerate_children fuel sb inode_i inode known d1 in
    let registered : Registered = record {
      id = inode_i;
      group = inode_group sb inode_i;
      contents = inode;
      size = size_lo inode;
      children = or_garbage (some known) listed;
      present = true;
    } in
    (registered, d2)

-- `detect_ext2` once it has read the superblock: the root directory it mounts, with its children,
-- and what it returns, `true`, which is DRV_ERR_NO_DRIVE; `id` is the root's inode_id, which is not set
pub mount_root :
    ℕ
    → Superblock
    → ℕ
    → Bytes
    → Disk
    → Option (Bytes × Option (List Child)) × Result (Unit {0}) × Disk
mount_root fuel sb id garbage d =
    let (r, d1) = inode_transfer sb 2 garbage dir_read d in
    let root = or_garbage garbage r in
    let (listed, d2) = enumerate_children fuel sb id root [] d1 in
    (some (root, or_garbage (some []) listed), err no_drive, d2)

-- `detect_ext2`
pub detect_ext2 :
    ℕ → ℕ → Bytes → Disk → Option (Bytes × Option (List Child)) × Result (Unit {0}) × Disk
detect_ext2 fuel id garbage d =
    let (r, d1) = transfer 2 2 fresh dir_read d in
    elim r [
      | err e ↦ (none, err e, d1)
      | ok buf ↦
          let sb = superblock buf in
          if sb.signature == 0xef53 then mount_root fuel sb id garbage d1 else (none, ok tt, d1)
    ]
