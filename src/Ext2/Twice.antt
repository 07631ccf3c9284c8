-- ===== src/Ext2/Twice.antt =====
-- Two calls of `alloc_ext2_obj` in one group.
use muse.Base.{
  ℕ, ◌+◌, ◌*◌, ◌^◌, ◌≤◌, ◌<◌, ◌≡◌, ◌≢◌, ◌⊎◌, inl, inr, ap, ap₂, sym, ◌∙◌, Bool, true, false, arith,
  u32, ==_refl,
}
use muse.Base.Bits.{bit-bit_or_pow, bit, bit_or_lt, pow_lt}
use muse.Disk.{ok, Disk, sector_size, DataDir.{}}
use muse.Ext2.{Superblock, block_size, block_sectors, descriptor_lba, obj_id, alloc_ext2_obj}
use muse.Ext2.Alloc.{
  Valid, Allocated, descriptor_of, descriptor_of-agree, bitmap_lba, bitmap_of, with_bit,
  block_size-sectors, alloc_ext2_obj-Allocated,
}

-- numbers that differ by less than 2 ^ 32 do not meet modulo 2 ^ 32
same_place :
    (x i j k l : ℕ)
    → i < 2 ^ 28
    → k < 2 ^ 28
    → j < 8
    → l < 8
    → u32 (x + i * 8 + j) ≡ u32 (x + k * 8 + l)
    → (i ≡ k) × (j ≡ l)
same_place x i j k l hi hk hj hl h = (omega arith, omega arith)

same_inode :
    (x i j k l : ℕ)
    → i < 2 ^ 28
    → k < 2 ^ 28
    → j < 8
    → l < 8
    → u32 (x + i * 8 + j + 1) ≡ u32 (x + k * 8 + l + 1)
    → (i ≡ k) × (j ≡ l)
same_inode x i j k l hi hk hj hl h = (omega arith, omega arith)

obj_id-injective :
    (sb : Superblock) (group : ℕ) (inode : Bool) (i j k l : ℕ)
    → i < 2 ^ 28
    → k < 2 ^ 28
    → j < 8
    → l < 8
    → obj_id sb group inode i j ≡ obj_id sb group inode k l
    → (i ≡ k) × (j ≡ l)
unfolding obj_id
obj_id-injective sb group true i j k l hi hk hj hl h =
    same_inode (group * sb.inodes_per_group) i j k l hi hk hj hl h
obj_id-injective sb group false i j k l hi hk hj hl h =
    same_place (group * sb.blocks_per_group) i j k l hi hk hj hl h

module _ (sb : Superblock) (group : ℕ) (inode : Bool) (d : Disk) where
  -- the sector of the group's descriptor is not one of its bitmap's
  abbrev pub Apart : Type 0
  Apart =
      (descriptor_lba sb group < bitmap_lba sb group inode d)
      ⊎ (bitmap_lba sb group inode d + block_sectors sb ≤ descriptor_lba sb group)

  module _ {n : ℕ} {e : Disk} (done : Allocated sb group inode d n e) where
    open done use {byte, place, byte_lt, place_lt, was_clear, after}

    written-Valid : Valid d → Valid e
    unfolding with_bit bitmap_of
    written-Valid valid a = ground (
      arith,
      after a,
      valid a,
      bit_or_lt 8 (bitmap_of sb group inode d byte) (2 ^ place)
          (valid (bitmap_lba sb group inode d * sector_size + byte)) (pow_lt place 8 place_lt),
    )

    -- A sector that is not one of the bitmap's stays as it was.
    stays :
        (a : ℕ)
        → (a < bitmap_lba sb group inode d * sector_size)
          ⊎ (bitmap_lba sb group inode d * sector_size + block_size sb ≤ a)
        → e.bytes a ≡ d.bytes a
    unfolding with_bit
    stays a apart = ground (arith, after a, byte_lt)

    away :
        Apart
        → (k : ℕ) → k < sector_size
        → (descriptor_lba sb group * sector_size + k < bitmap_lba sb group inode d * sector_size)
          ⊎ (bitmap_lba sb group inode d * sector_size + block_size sb
              ≤ descriptor_lba sb group * sector_size + k)
    away (inl before) k lt = inl (omega arith)
    away (inr behind) k lt = inr (omega (arith, block_size-sectors sb))

    -- The descriptor stays, so that the bitmap stays where it was.
    descriptor_stays : Apart → descriptor_of sb group e ≡ descriptor_of sb group d
    descriptor_stays apart =
        descriptor_of-agree sb group d e
          (λ k lt. stays (descriptor_lba sb group * sector_size + k) (away apart k lt))

    bitmap_lba_stays : Apart → bitmap_lba sb group inode e ≡ bitmap_lba sb group inode d
    unfolding bitmap_lba
    bitmap_lba_stays apart = rw (descriptor_stays apart)

    now_set : Apart → bit (bitmap_of sb group inode e byte) place ≡ 1
    unfolding bitmap_of with_bit
    now_set apart = rw (bitmap_lba_stays apart) (
        ap (λ t. bit t place)
          (after (bitmap_lba sb group inode d * sector_size + byte)
            ∙ rw (==_refl (bitmap_lba sb group inode d * sector_size + byte)))
        ∙ bit-bit_or_pow (bitmap_of sb group inode d byte) place)

-- Two calls in one group return two ids: if both return one other than 0, and the sector of the
-- group's descriptor is not one of its bitmap's, then the ids are not the same. Bytes of the device
-- are below 256, and a block has 2 ^ 28 bytes at most.
pub alloc_ext2_obj-fresh :
    (sb : Superblock) (group : ℕ) (inode : Bool) (d : Disk) (n : ℕ) (e : Disk) (m : ℕ) (f : Disk)
    → Valid d
    → block_size sb ≤ 2 ^ 28
    → Apart sb group inode d
    → alloc_ext2_obj sb group inode d ≡ (ok n, e)
    → n ≢ 0
    → alloc_ext2_obj sb group inode e ≡ (ok m, f)
    → m ≢ 0
    → n ≢ m
alloc_ext2_obj-fresh sb group inode d n e m f valid small apart h n_ne h' m_ne same =
    let first = alloc_ext2_obj-Allocated sb group inode d n e valid h n_ne in
    let second =
      alloc_ext2_obj-Allocated sb group inode e m f (written-Valid sb group inode d first valid) h'
        m_ne in
    let (bytes_same, places_same) =
      obj_id-injective sb group inode first.byte first.place second.byte second.place
        (omega (arith, first.byte_lt)) (omega (arith, second.byte_lt)) first.place_lt
        second.place_lt (sym first.id ∙ same ∙ second.id) in
    let set = now_set sb group inode d first apart in
    let moved : bit (bitmap_of sb group inode e first.byte) first.place ≡ 0 =
      ap₂ (λ i j. bit (bitmap_of sb group inode e i) j) bytes_same places_same ∙ second.was_clear in
    absurd (omega (arith, set, moved))
