-- ===== src/Ext2/Alloc.antt =====
-- What `alloc_ext2_obj` allocates.
use muse.Base.{
  ℕ, ◌+◌, ◌-◌, ◌*◌, ◌^◌, ◌<◌, ◌≡◌, ◌≢◌, inl, inr, refl, ap, sym, subst, fun_ext, ◌∙◌, Bool, Option,
  none, some, Option-cases, arith, dec_lt, ◌==◌, bit_or, if◌then◌else◌, ℕ_discrete, ==_ne, update,
}
use muse.Base.Bits.{bit, pow_lt, bit_or_lt}
use muse.Base.Memory.{Bytes, blit}
use muse.Disk.{
  DataDir.{dir_read, dir_write},
  Result,
  ok,
  err,
  Disk,
  sector_size,
  fresh,
  view,
  accepted,
  DriveErr,
  transfer-ok,
  transfer-err,
  pure,
  returned,
}
use muse.Ext2.{
  Superblock, block_size, block_sectors, block_lba, descriptor_lba, descriptor_offset,
  inode_bitmap_addr, block_bitmap_addr, unallocated_inodes, unallocated_blocks,
  group_descriptor_transfer, find_clear, mark_bit, obj_id, take_obj, search_bitmap, search_group,
  alloc_ext2_obj,
}
use muse.Ext2.Scan.{bit_at, find_clear-some}

-- every byte of the device is one
abbrev pub Valid : Disk → Type 0
Valid d = (a : ℕ) → d.bytes a < 256

pub block_size-sectors : (sb : Superblock) → block_sectors sb * sector_size ≡ block_size sb
unfolding block_size
block_size-sectors sb = omega arith

-- the descriptor of a group, as a read returns it
unfoldable pub descriptor_of : Superblock → ℕ → Disk → Bytes
descriptor_of sb group d =
    view (accepted d (descriptor_lba sb group) 1 fresh dir_read).0 (descriptor_offset group)

module _ (sb : Superblock) (group : ℕ) (x : Bytes) (d : Disk) where
  pub group_descriptor_transfer-ok :
      d.fault dir_read (descriptor_lba sb group) 1 ≡ none
      → group_descriptor_transfer sb group x dir_read d ≡ (ok (descriptor_of sb group d), d)
  unfolding group_descriptor_transfer descriptor_of accepted
  group_descriptor_transfer-ok h = rw (transfer-ok d (descriptor_lba sb group) 1 fresh dir_read h)

  pub group_descriptor_transfer-err :
      {e : DriveErr}
      → d.fault dir_read (descriptor_lba sb group) 1 ≡ some e
      → group_descriptor_transfer sb group x dir_read d ≡ (err e, d)
  unfolding group_descriptor_transfer
  group_descriptor_transfer-err h = rw (transfer-err d (descriptor_lba sb group) 1 fresh dir_read h)

-- A descriptor is what its sector holds.
pub descriptor_of-agree :
    (sb : Superblock) (group : ℕ) (d e : Disk)
    → ((k : ℕ)
        → k < sector_size
        → e.bytes (descriptor_lba sb group * sector_size + k)
          ≡ d.bytes (descriptor_lba sb group * sector_size + k))
    → descriptor_of sb group e ≡ descriptor_of sb group d
unfolding descriptor_of accepted
descriptor_of-agree sb group d e same = fun_ext λ a.
    let k = descriptor_offset group + a in
    elim (dec_lt k sector_size) [
      | yes inside ↦ ground (arith, same k inside)
      | no outside ↦ ground arith
    ]

-- the sector where the bitmap of a group begins
unfoldable pub bitmap_lba : Superblock → ℕ → Bool → Disk → ℕ
bitmap_lba sb group inode d =
    let descriptor = descriptor_of sb group d in
    block_lba sb (if inode then inode_bitmap_addr descriptor else block_bitmap_addr descriptor)

-- the bitmap of a group
unfoldable pub bitmap_of : Superblock → ℕ → Bool → Disk → Bytes
bitmap_of sb group inode d = view d.bytes (bitmap_lba sb group inode d * sector_size)

-- the device, with one bit of a group's bitmap set
unfoldable pub with_bit : Superblock → ℕ → Bool → Disk → ℕ → ℕ → Bytes
with_bit sb group inode d i j =
    update d.bytes (bitmap_lba sb group inode d * sector_size + i)
      (bit_or (bitmap_of sb group inode d i) (2 ^ j))

pub record Allocated (sb : Superblock) (group : ℕ) (inode : Bool) (d : Disk) (n : ℕ) (e : Disk)
    : Type 0 where
  pub byte : ℕ
  pub place : ℕ
  pub byte_lt : byte < block_size sb
  pub place_lt : place < 8
  pub id : n ≡ obj_id sb group inode byte place
  pub was_clear : bit_at (bitmap_of sb group inode d) byte place ≡ 0
  pub faults : e.fault ≡ d.fault
  pub after : (a : ℕ) → e.bytes a ≡ with_bit sb group inode d byte place a

module _ (sb : Superblock) (group : ℕ) (inode : Bool) (d : Disk) (valid : Valid d) where
  lba : ℕ
  lba = bitmap_lba sb group inode d

  -- the buffer that the bitmap is read to
  buffer : Bytes
  unfolding lba
  buffer = (accepted d lba (block_sectors sb) fresh dir_read).0

  buffer-valid : (a : ℕ) → buffer a < 256
  unfolding buffer accepted
  buffer-valid a = ground (arith, valid (lba * sector_size + a))

  buffer-in : (i : ℕ) → i < block_size sb → buffer i ≡ bitmap_of sb group inode d i
  unfolding buffer lba accepted bitmap_of
  buffer-in i lt = ground (arith, block_size-sectors sb)

  stored :
      (i j : ℕ)
      → i < block_size sb
      → j < 8
      → (a : ℕ)
      → blit d.bytes (lba * sector_size) (block_sectors sb * sector_size) (mark_bit buffer i j) a
        ≡ with_bit sb group inode d i j a
  unfolding with_bit lba mark_bit bitmap_of
  stored i j lt j_lt a =
      let fits : bit_or (buffer i) (2 ^ j) < 2 ^ 8 =
        bit_or_lt 8 (buffer i) (2 ^ j) (buffer-valid i) (pow_lt j 8 j_lt) in
      let here : buffer i ≡ bitmap_of sb group inode d i = buffer-in i lt in
      let start = bitmap_lba sb group inode d * sector_size in
      elim (dec_lt a start) [
        | yes before ↦ ground (arith)
        | no after ↦ elim (dec_lt (a - start) (block_size sb)) [
          | yes inside ↦
              let there : buffer (a - start) ≡ d.bytes a =
                buffer-in (a - start) inside ∙ ap d.bytes (omega arith) in
              ground (arith, fits, here, there, block_size-sectors sb)
          | no outside ↦ ground (arith, block_size-sectors sb)
        ]
      ]

  -- the scan of that buffer
  found : Option (ℕ × ℕ)
  found = find_clear (block_size sb) buffer 0

  module _ (i j : ℕ) where
    write_fails :
        {f : DriveErr}
        → d.fault dir_write lba (block_sectors sb) ≡ some f
        → take_obj sb group inode lba buffer (some (i, j)) d ≡ (err f, d)
    unfolding take_obj
    write_fails h = rw (transfer-err d lba (block_sectors sb) (mark_bit buffer i j) dir_write h)

    write_works :
        d.fault dir_write lba (block_sectors sb) ≡ none
        → take_obj sb group inode lba buffer (some (i, j)) d ≡ (
          ok (obj_id sb group inode i j),
          (accepted d lba (block_sectors sb) (mark_bit buffer i j) dir_write).1,
        )
    unfolding take_obj accepted
    write_works h = rw (transfer-ok d lba (block_sectors sb) (mark_bit buffer i j) dir_write h)

    allocated :
        found ≡ some (i, j)
        → Allocated sb group inode d
            (obj_id sb group inode i j)
            (accepted d lba (block_sectors sb) (mark_bit buffer i j) dir_write).1
    unfolding accepted found
    allocated e =
        let (_, i_lt, j_lt, clear) = find_clear-some buffer buffer-valid (block_size sb) 0 i j e in
        let i_lt_size : i < block_size sb = omega (arith, i_lt) in
        record {
          byte = i;
          place = j;
          byte_lt = i_lt_size;
          place_lt = j_lt;
          id = refl;
          was_clear = ap (λ t. bit t j) (sym (buffer-in i i_lt_size)) ∙ clear;
          faults = refl;
          after = stored i j i_lt_size j_lt;
        }

  take_obj-Allocated :
      {n : ℕ} {e : Disk} (r : Option (ℕ × ℕ))
      → found ≡ r
      → take_obj sb group inode lba buffer r d ≡ (ok n, e)
      → n ≢ 0
      → Allocated sb group inode d n e
  take_obj-Allocated none same h nonzero = absurd (nonzero (unfold take_obj in cc))
  take_obj-Allocated {n} {e} (some (i, j)) scan h nonzero =
      elim (Option-cases (d.fault dir_write lba (block_sectors sb))) [
        | inl works ↦
            let same = sym (write_works i j works) ∙ h in
            let same_id : obj_id sb group inode i j ≡ n = cc same in
            subst (λ m. Allocated sb group inode d m e) same_id
              (subst (Allocated sb group inode d _) (ap (λ p. p.1) same) (allocated i j scan))
        | inr (f, fails) ↦ absurd (cc (write_fails i j fails))
      ]

  module _ (readable : d.fault dir_read (descriptor_lba sb group) 1 ≡ none) where
    -- The bitmap is read from where the descriptor says.
    search_bitmap-ok :
        d.fault dir_read lba (block_sectors sb) ≡ none
        → search_bitmap sb group inode d ≡ take_obj sb group inode lba buffer found d
    unfolding search_bitmap found buffer lba bitmap_lba accepted
    search_bitmap-ok works =
        rw (group_descriptor_transfer-ok sb group fresh d readable)
          (rw (transfer-ok d lba (block_sectors sb) fresh dir_read works))

    search_bitmap-err :
        {f : DriveErr}
        → d.fault dir_read lba (block_sectors sb) ≡ some f
        → search_bitmap sb group inode d ≡ (err f, d)
    unfolding search_bitmap lba bitmap_lba
    search_bitmap-err fails =
        rw (group_descriptor_transfer-ok sb group fresh d readable)
          (rw (transfer-err d lba (block_sectors sb) fresh dir_read fails))

    search_bitmap-Allocated :
        {n : ℕ} {e : Disk}
        → search_bitmap sb group inode d ≡ (ok n, e)
        → n ≢ 0
        → Allocated sb group inode d n e
    search_bitmap-Allocated h nonzero =
        elim (Option-cases (d.fault dir_read lba (block_sectors sb))) [
          | inl works ↦ take_obj-Allocated found refl (sym (search_bitmap-ok works) ∙ h) nonzero
          | inr (f, fails) ↦ absurd (cc (search_bitmap-err fails))
        ]

    -- how many objects the descriptor says are free
    left : ℕ
    left =
        if inode
        then unallocated_inodes (descriptor_of sb group d)
        else unallocated_blocks (descriptor_of sb group d)

    search_group-step :
        search_group sb group inode d
        ≡ (if left == 0 then pure 0 else search_bitmap sb group inode) d
    unfolding search_group left
    search_group-step = rw (group_descriptor_transfer-ok sb group fresh d readable)

    search_group-empty : left ≡ 0 → search_group sb group inode d ≡ (ok 0, d)
    search_group-empty h = search_group-step ∙ rw h

    search_group-search : left ≢ 0 → search_group sb group inode d ≡ search_bitmap sb group inode d
    search_group-search h = search_group-step ∙ rw (==_ne _ _ h)

  search_group-err :
      {f : DriveErr}
      → d.fault dir_read (descriptor_lba sb group) 1 ≡ some f
      → search_group sb group inode d ≡ (err f, d)
  unfolding search_group
  search_group-err h = rw (group_descriptor_transfer-err sb group fresh d h)

  search_group-Allocated :
      {n : ℕ} {e : Disk}
      → search_group sb group inode d ≡ (ok n, e)
      → n ≢ 0
      → Allocated sb group inode d n e
  search_group-Allocated {n} {e} h nonzero =
      elim (Option-cases (d.fault dir_read (descriptor_lba sb group) 1)) [
        | inl works ↦ elim (ℕ_discrete (left works) 0) [
          | yes empty ↦ absurd (nonzero (cc (search_group-empty works empty)))
          | no some_left ↦
              search_bitmap-Allocated works (sym (search_group-search works some_left) ∙ h) nonzero
        ]
        | inr (f, fails) ↦ absurd (cc (search_group-err fails))
      ]

returned-nonzero :
    (r : Result ℕ × Disk) {n : ℕ} {e : Disk} → returned 0 r ≡ (ok n, e) → n ≢ 0 → r ≡ (ok n, e)
returned-nonzero (ok m, d) h nonzero = h
returned-nonzero (err f, d) h nonzero = absurd (nonzero (cc h))

-- An object that is allocated, on any device: if `alloc_ext2_obj` returns an id other than 0, then
-- the bit of that id was clear in the bitmap of the group that the descriptor points to, and the
-- device is the same but for that bit, which is set. Bytes of the device are below 256.
pub alloc_ext2_obj-Allocated :
    (sb : Superblock) (group : ℕ) (inode : Bool) (d : Disk) (n : ℕ) (e : Disk)
    → Valid d
    → alloc_ext2_obj sb group inode d ≡ (ok n, e)
    → n ≢ 0
    → Allocated sb group inode d n e
unfolding alloc_ext2_obj
alloc_ext2_obj-Allocated sb group inode d n e valid h nonzero =
    search_group-Allocated sb group inode d valid (returned-nonzero _ h nonzero) nonzero
