-- ===== src/Ext2/Inodes.antt =====
-- Writing inodes and block group descriptors back to the device.
use muse.Base.{
  ℕ, suc, ◌+◌, ◌-◌, ◌*◌, ◌/◌, ◌%◌, ◌≤◌, ◌<◌, ◌≡◌, ◌≢◌, ◌⊎◌, inl, inr, ap, none, some, arith, dec_lt,
  Option-cases,
}
use native.Mathlib.Nat.{le-div_iff_mul-le, mod-lt}
use muse.Base.Memory.{Bytes, blit}
use muse.Disk.{
  DataDir,
  DataDir.{dir_read, dir_write},
  DriveErr,
  ok,
  err,
  Disk,
  sector_size,
  fresh,
  view,
  accepted,
  transfer-ok,
  transfer-err,
}
use muse.Ext2.{
  Superblock, inode_table, descriptor_lba, descriptor_offset, descriptor_size,
  group_descriptor_transfer, inode_group, disk_inode_size, inode_lba, inode_offset, inode_transfer,
  inode_index,
}
use muse.Ext2.Alloc.{descriptor_of, descriptor_of-agree, group_descriptor_transfer-ok}

-- The device accepts every transfer.
abbrev pub Sound : Disk → Type 0
Sound d = (dir : DataDir) (lba count : ℕ) → d.fault dir lba count ≡ none

-- A descriptor that is to be written is not: whatever the descriptor and the device are, the call
-- with DIR_WRITE leaves the device as it was, and returns success unless one of two reads of the
-- descriptor's sector is refused.
pub group_descriptor_transfer-write :
    (sb : Superblock) (group : ℕ) (descriptor : Bytes) (d : Disk)
    → (group_descriptor_transfer sb group descriptor dir_write d ≡ (ok descriptor, d))
      ⊎ ((e : DriveErr) × (d.fault dir_read (descriptor_lba sb group) 1 ≡ some e)
          × (group_descriptor_transfer sb group descriptor dir_write d ≡ (err e, d)))
unfolding group_descriptor_transfer accepted
group_descriptor_transfer-write sb group descriptor d =
    let lba = descriptor_lba sb group in
    elim (Option-cases (d.fault dir_read lba 1)) [
      | inl works ↦ inl (
          rw (transfer-ok d lba 1 fresh dir_read works) (
            rw (
              transfer-ok d lba 1
                (blit (accepted d lba 1 fresh dir_read).0 (descriptor_offset group) descriptor_size
                  descriptor)
                dir_read works)))
      | inr (e, fails) ↦ inr (e, fails, rw (transfer-err d lba 1 fresh dir_read fails))
    ]

module _ (sb : Superblock) (inode_i : ℕ) where
  -- the sector of an inode, on a device
  unfoldable pub inode_sector : Disk → ℕ
  inode_sector d = inode_lba sb inode_i (inode_table (descriptor_of sb (inode_group sb inode_i) d))

  -- where the inode's bytes lie
  pub inode_address : Disk → ℕ
  inode_address d = inode_sector d * sector_size + inode_offset sb inode_i

  -- An inode lies in its sector.
  inode_offset_fits :
      128 ≤ disk_inode_size sb
      → disk_inode_size sb ≤ sector_size
      → inode_offset sb inode_i + 128 ≤ sector_size
  unfolding inode_offset
  inode_offset_fits large small =
      let size = disk_inode_size sb in
      let per_sector = sector_size / size in
      let some_fit : 1 ≤ per_sector = (le-div_iff_mul-le (omega arith)).1 (omega arith) in
      let below : suc (inode_index sb inode_i % per_sector) ≤ per_sector =
        mod-lt (inode_index sb inode_i) some_fit in
      let fits : suc (inode_index sb inode_i % per_sector) * size ≤ sector_size =
        (le-div_iff_mul-le (omega arith)).0 below in
      omega (arith, fits)

  module _ (d : Disk) (sound : Sound d) where
    pub inode_transfer-read :
        (x : Bytes)
        → inode_transfer sb inode_i x dir_read d ≡ (
          ok (view (accepted d (inode_sector d) 1 fresh dir_read).0 (inode_offset sb inode_i)),
          d,
        )
    unfolding inode_transfer inode_sector accepted
    inode_transfer-read x = rw (
      group_descriptor_transfer-ok sb (inode_group sb inode_i) fresh d (sound _ _ _),
      transfer-ok d (inode_sector d) 1 fresh dir_read (sound _ _ _),
    )

    -- the device after a write
    pub written : Bytes → Disk
    written x =
        (accepted d (inode_sector d) 1
          (blit (accepted d (inode_sector d) 1 fresh dir_read).0 (inode_offset sb inode_i) 128 x)
          dir_write).1

    pub inode_transfer-write :
        (x : Bytes) → inode_transfer sb inode_i x dir_write d ≡ (ok x, written x)
    unfolding inode_transfer inode_sector accepted written
    inode_transfer-write x =
        rw
          (
            group_descriptor_transfer-ok sb (inode_group sb inode_i) fresh d (sound _ _ _),
            transfer-ok d (inode_sector d) 1 fresh dir_read (sound _ _ _),
          )
          (rw (
            transfer-ok d (inode_sector d) 1
              (blit (accepted d (inode_sector d) 1 fresh dir_read).0 (inode_offset sb inode_i) 128
                x)
              dir_write (sound _ _ _)))

    module _ (x : Bytes) (apart : inode_sector d ≢ descriptor_lba sb (inode_group sb inode_i))
        (large : 128 ≤ disk_inode_size sb) (small : disk_inode_size sb ≤ sector_size) where
      -- A byte of the device after a write: the inode's, or what was there.
      written-byte : (a : ℕ) → (written x).bytes a ≡ blit d.bytes (inode_address d) 128 x a
      unfolding written accepted inode_address
      written-byte a =
          let fits = inode_offset_fits large small in
          let start = inode_sector d * sector_size in
          let offset = inode_offset sb inode_i in
          elim (dec_lt a start) [
            | yes before ↦ ground (arith, fits)
            | no after ↦
                let place : start + (a - start) ≡ a = omega arith in
                let here = ap d.bytes place in
                let there : x (a - start - offset) ≡ x (a - (start + offset)) =
                  ap x (omega arith) in
                ground (arith, fits)
          ]

      elsewhere :
          (k : ℕ)
          → k < sector_size
          → (written x).bytes (descriptor_lba sb (inode_group sb inode_i) * sector_size + k)
            ≡ d.bytes (descriptor_lba sb (inode_group sb inode_i) * sector_size + k)
      unfolding inode_address
      elsewhere k lt =
          let fits = inode_offset_fits large small in
          let lba = descriptor_lba sb (inode_group sb inode_i) in
          let same = written-byte (lba * sector_size + k) in ground (arith, same, fits, apart)

      sector_stays : inode_sector (written x) ≡ inode_sector d
      unfolding inode_sector
      sector_stays =
          ap (λ t. inode_lba sb inode_i (inode_table t))
            (descriptor_of-agree sb (inode_group sb inode_i) d (written x) (λ k lt. elsewhere k lt))

      read_back :
          (k : ℕ)
          → k < 128
          → view
              (accepted (written x) (inode_sector (written x)) 1 fresh dir_read).0
              (inode_offset sb inode_i)
              k
            ≡ x k
      unfolding accepted inode_address
      read_back k lt = rw sector_stays (
          let fits = inode_offset_fits large small in
          let same = written-byte (inode_sector d * sector_size + (inode_offset sb inode_i + k)) in
          ground (arith, same, fits))

-- An inode that is written is the one that is read: on a device that accepts every transfer, for
-- inodes of 128 to 512 bytes whose sector is not that of the group's descriptor, a write succeeds;
-- a read after it succeeds, changes nothing, and returns the 128 bytes that were written; and no
-- other byte of the device has changed.
pub inode_transfer-round_trip :
    (sb : Superblock) (inode_i : ℕ) (x y : Bytes) (d : Disk) (sound : Sound d)
    → inode_sector sb inode_i d ≢ descriptor_lba sb (inode_group sb inode_i)
    → 128 ≤ disk_inode_size sb
    → disk_inode_size sb ≤ sector_size
    → (z : Bytes) × (e : Disk) × (inode_transfer sb inode_i x dir_write d ≡ (ok x, e))
      × (inode_transfer sb inode_i y dir_read e ≡ (ok z, e))
      × ((k : ℕ) → k < 128 → z k ≡ x k)
      × ((a : ℕ) → e.bytes a ≡ blit d.bytes (inode_address sb inode_i d) 128 x a)
unfolding written accepted
inode_transfer-round_trip sb inode_i x y d sound apart large small =
    let e = written sb inode_i d sound x in
    (
      view (accepted e (inode_sector sb inode_i e) 1 fresh dir_read).0 (inode_offset sb inode_i),
      e,
      inode_transfer-write sb inode_i d sound x,
      inode_transfer-read sb inode_i e sound y,
      read_back sb inode_i d sound x apart large small,
      written-byte sb inode_i d sound x apart large small,
    )
