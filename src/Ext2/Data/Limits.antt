-- ===== src/Ext2/Data/Limits.antt =====
-- Blocks past the singly indirect ones.
use muse.Base.{ℕ, ◌+◌, ◌/◌, ◌≤◌, ◌≡◌, refl, arith, ltb-ff}
use muse.Base.Memory.{Bytes}
use muse.Disk.{DataDir, Result, ok, err, continue, pure, transfer}
use muse.Ext2.{Superblock, block_size, block_sectors}
use muse.Ext2.Data.{Open, on_disk, locate, inode_data_transfer}

continue-pure : (r : Result Bytes × Open) → continue (λ after. pure after) r ≡ r
continue-pure (ok after, o) = refl
continue-pure (err e, o) = refl

-- A block past the 12 direct ones and those of the singly indirect block is not refused: whatever
-- the inode, reading or writing it is a transfer at sector 4 of the device.
pub inode_data_transfer-beyond :
    (sb : Superblock) (inode_i idx : ℕ) (buf : Bytes) (dir : DataDir) (o : Open)
    → 12 + block_size sb / 4 ≤ idx
    → inode_data_transfer sb inode_i idx buf dir o
      ≡ on_disk (transfer 4 (block_sectors sb) buf dir) o
unfolding inode_data_transfer locate
inode_data_transfer-beyond sb inode_i idx buf dir o past =
    rw (ltb-ff idx 12 (omega arith), ltb-ff idx (12 + block_size sb / 4) past)
      (continue-pure (on_disk (transfer 4 (block_sectors sb) buf dir) o))
