-- ===== src/Ext2/Data/Size.antt =====
-- The size of a file under `ext2_transfer`.
use muse.Base.{
  ℕ, zero, suc, ◌+◌, ◌-◌, ◌*◌, ◌/◌, Bool-cases, leb→le, ◌^◌, ◌≤◌, ◌<◌, ◌≡◌, inl, inr, refl, ap, sym,
  ◌∙◌, Bool, true, false, Option, none, some, arith, ltb, leb, ◌==◌, if◌then◌else◌, u32, sub32, ◌%◌,
}
use native.Mathlib.Nat.{div-add-mod', mod-lt, div-le_self}
use muse.Base.Memory.{Bytes}
use muse.Malloc.{load32, store32}
use muse.Malloc.Word32.{load32-store32, load32-store32_out}
use muse.Disk.{
  DataDir,
  DataDir.{dir_read, dir_write},
  DriveErr,
  Result,
  ok,
  err,
  Action,
  continue,
  pure,
  ◌>>=◌,
  Disk,
  transfer,
  fresh,
}
use muse.Ext2.{
  Superblock, block_size, block_sectors, block_lba, size_lo, direct_block_at, indirect_block_single,
}
use muse.Ext2.Data.{
  Open, on_disk, store_inode, alloc_block, block_at, direct, indirect_entry, indirect, is_hole,
  locate, write_inode, inode_data_transfer, Progress, copy_block, after_copy, after_read, chunk,
  round, rounds, clamp, update_size, finish, transfer_blocks, ext2_transfer,
}
use muse.Ext2.Data.Ends.{EndsWithin, rounds-EndsWithin}

-- the size of the file in a state
abbrev pub file_size : Open → ℕ
file_size o = size_lo o.inode

-- A call that leaves the size as it is.
abbrev Keeps : {A : Type 0} → Action Open A → Type 0
Keeps m = (o : Open) → file_size (m o).1 ≡ file_size o

module _ {A B : Type 0} where
  continue-Keeps :
      (f : A → Action Open B) (s : ℕ)
      → ((a : A) → Keeps (f a))
      → (r : Result A × Open) → file_size r.1 ≡ s
      → file_size (continue f r).1 ≡ s
  continue-Keeps f s keeps (ok a, o) h = keeps a o ∙ h
  continue-Keeps f s keeps (err e, o) h = h

  >>=-Keeps :
      (m : Action Open A) (f : A → Action Open B)
      → Keeps m
      → ((a : A) → Keeps (f a))
      → Keeps (m >>= f)
  >>=-Keeps m f first next o = continue-Keeps f (file_size o) next (m o) (first o)

if_size :
    {A : Type 0} (c : Bool) (p q : Result A × Open) {s : ℕ}
    → file_size p.1 ≡ s
    → file_size q.1 ≡ s
    → file_size (if c then p else q).1 ≡ s
if_size true p q first second = first
if_size false p q first second = second

if-Keeps :
    {A : Type 0} (c : Bool) (m k : Action Open A) → Keeps m → Keeps k → Keeps (if c then m else k)
if-Keeps true m k first second = first
if-Keeps false m k first second = second

on_disk-Keeps : {A : Type 0} (m : Action Disk A) → Keeps (on_disk m)
on_disk-Keeps m o = refl

-- A store to the inode past its first 8 bytes.
store_inode-Keeps : (a v : ℕ) → 8 ≤ a → Keeps (store_inode a v)
store_inode-Keeps a v le o = load32-store32_out o.inode a v 4 (inl le)

alloc_block-Keeps : (sb : Superblock) → Keeps (alloc_block sb)
unfolding alloc_block
alloc_block-Keeps sb o = refl

block_at-Keeps : (sb : Superblock) (a : ℕ) → 8 ≤ a → Keeps (block_at sb a)
unfolding block_at
block_at-Keeps sb a le o =
    if_size (load32 o.inode a == 0) _ (ok false, o)
      (>>=-Keeps (alloc_block sb) _ (alloc_block-Keeps sb) (λ block. store_inode-Keeps a block le)
        o)
      refl

direct-Keeps : (sb : Superblock) (idx : ℕ) → Keeps (direct sb idx)
unfolding direct
direct-Keeps sb idx =
    >>=-Keeps (block_at sb (direct_block_at idx)) _
      (block_at-Keeps sb (direct_block_at idx) (omega arith)) (λ _ _. refl)

indirect_entry-Keeps :
    (sb : Superblock) (entry : ℕ) (table : Bytes) → Keeps (indirect_entry sb entry table)
unfolding indirect_entry
indirect_entry-Keeps sb entry table =
    let lba = block_lba sb (load32 table (4 * entry)) in
    if-Keeps (lba == 0) _ (pure lba)
      (>>=-Keeps (alloc_block sb) _ (alloc_block-Keeps sb) (λ _ _. refl)) (λ _. refl)

indirect-Keeps : (sb : Superblock) (entry : ℕ) → Keeps (indirect sb entry)
unfolding indirect
indirect-Keeps sb entry =
    >>=-Keeps (block_at sb 88) _ (block_at-Keeps sb 88 (omega arith)) (λ is_new o.
      >>=-Keeps
        (on_disk (
          transfer (block_lba sb (indirect_block_single o.inode)) (block_sectors sb) fresh
            dir_read))
        _ (λ _. refl)
        (λ table.
          >>=-Keeps (indirect_entry sb entry table) _ (indirect_entry-Keeps sb entry table)
            (λ _ _. refl))
        o)

locate-Keeps : (sb : Superblock) (idx : ℕ) (dir : DataDir) → Keeps (locate sb idx dir)
unfolding locate
locate-Keeps sb idx dir o = if_size (ltb idx 12) (direct sb idx o) _ (direct-Keeps sb idx o) (
    if_size (ltb idx (12 + block_size sb / 4)) _ (ok (4, false), o)
      (if_size (is_hole dir o.inode) (err DriveErr.bad_args, o) (indirect sb (idx - 12) o) refl
        (indirect-Keeps sb (idx - 12) o))
      refl)

write_inode-Keeps : (sb : Superblock) (inode_i : ℕ) → Keeps (write_inode sb inode_i)
unfolding write_inode
write_inode-Keeps sb inode_i o = refl

inode_data_transfer-Keeps :
    (sb : Superblock) (inode_i idx : ℕ) (buf : Bytes) (dir : DataDir)
    → Keeps (inode_data_transfer sb inode_i idx buf dir)
unfolding inode_data_transfer
inode_data_transfer-Keeps sb inode_i idx buf dir =
    >>=-Keeps (locate sb idx dir) _ (locate-Keeps sb idx dir) (λ found.
      >>=-Keeps (on_disk (transfer found.0 (block_sectors sb) buf dir)) _ (λ _. refl)
        (λ after.
          if-Keeps found.1 _ (pure after)
            (>>=-Keeps (write_inode sb inode_i) _ (write_inode-Keeps sb inode_i) (λ _ _. refl))
            (λ _. refl)))

copy_block-size :
    (sb : Superblock) (inode_i block : ℕ) (bfr : Bytes) (skip cnt : ℕ) (dir : DataDir)
    (p : Progress)
    → file_size (copy_block sb inode_i block bfr skip cnt dir p).1 ≡ file_size p.open_file
unfolding copy_block
copy_block-size sb inode_i block bfr skip cnt dir_read p = refl
copy_block-size sb inode_i block bfr skip cnt dir_write p =
    inode_data_transfer-Keeps sb inode_i block _ dir_write p.open_file

after_copy-size :
    (len cnt : ℕ) (p : Progress) (r : Result Bytes × Open)
    → file_size (after_copy len cnt p r).1.open_file ≡ file_size r.1
unfolding after_copy
after_copy-size len cnt p (ok buffer, o) = refl
after_copy-size len cnt p (err e, o) = refl

choose :
    (c : Bool) (rest : Option Progress) (x q : Progress) {s : ℕ}
    → (if c then rest else some x) ≡ some q
    → (rest ≡ some q → file_size q.open_file ≡ s)
    → file_size x.open_file ≡ s
    → file_size q.open_file ≡ s
choose true rest x q h going_on stopped = going_on h
choose false rest x q h going_on stopped =
    let same : x ≡ q = cc h in ap (λ p. file_size p.open_file) (sym same) ∙ stopped

module _ (sb : Superblock) (inode_i end len : ℕ) (dir : DataDir) where
  after_read-size :
      (block block_end skip : ℕ) (p : Progress) (r : Result Bytes × Open)
      → file_size (after_read sb inode_i end len dir block block_end skip p r).1.open_file
        ≡ file_size r.1
  unfolding after_read
  after_read-size block block_end skip p (err e, o) = refl
  after_read-size block block_end skip p (ok bfr, o) =
      let cnt = chunk sb end block_end skip in
      after_copy-size len cnt p _
      ∙ copy_block-size sb inode_i block bfr skip cnt dir (record p { open_file = o })

  round-size :
      (block block_end skip : ℕ) (p : Progress)
      → file_size (round sb inode_i end len dir block block_end skip p).1.open_file
        ≡ file_size p.open_file
  unfolding round
  round-size block block_end skip p =
      after_read-size block block_end skip p _
      ∙ inode_data_transfer-Keeps sb inode_i block fresh dir_read p.open_file

  rounds-size :
      (fuel block block_end skip : ℕ) (p q : Progress)
      → rounds fuel sb inode_i end len dir block block_end skip p ≡ some q
      → file_size q.open_file ≡ file_size p.open_file
  unfolding rounds
  rounds-size zero block block_end skip p q h = absurd (cc)
  rounds-size (suc fuel) block block_end skip p q h =
      let r = round sb inode_i end len dir block block_end skip p in
      choose r.0 _ r.1 q h
        (λ on. rounds-size fuel _ _ 0 r.1 q on ∙ round-size block block_end skip p)
        (round-size block block_end skip p)

-- `clamp` keeps a transfer inside the file.
clamp-le :
    (inode : Bytes) (offset len : ℕ)
    → offset ≤ size_lo inode
    → size_lo inode < 2 ^ 32
    → offset + len < 2 ^ 32
    → offset + clamp inode offset len ≤ size_lo inode
unfolding clamp
clamp-le inode offset len le small fits = ground arith

clamp-less :
    (inode : Bytes) (offset len : ℕ)
    → offset ≤ size_lo inode
    → size_lo inode < 2 ^ 32
    → offset + len < 2 ^ 32
    → clamp inode offset len ≤ len
unfolding clamp
clamp-less inode offset len le small fits = ground arith

-- A size that is stored after a transfer inside the file is the one that was there.
update_size-same :
    (sb : Superblock) (inode_i end : ℕ) (dir : DataDir) (o : Open)
    → end ≤ file_size o
    → end < 2 ^ 32
    → file_size (update_size sb inode_i end dir o) ≡ file_size o
unfolding update_size
update_size-same sb inode_i end dir_read o inside fits = refl
update_size-same sb inode_i end dir_write o inside fits =
    let sized = store32 o.inode 4 end in
    let counted = store32 sized 28 (u32 (end + 511) / 512) in
    let kept : file_size (write_inode sb inode_i (record o { inode = counted })).1 ≡ end =
      write_inode-Keeps sb inode_i _
      ∙ load32-store32_out sized 28 _ 4 (inl (omega arith))
      ∙ load32-store32 o.inode 4 end fits in
    elim (Bool-cases (leb (file_size o) end)) [
      | inl reached ↦ rw reached (kept ∙ omega (arith, leb→le (file_size o) end reached, inside))
      | inr before ↦ rw before refl
    ]

finish-size :
    (sb : Superblock) (inode_i end : ℕ) (dir : DataDir) (o : Open) (r : Option Progress)
    (q : Progress)
    → end ≤ file_size o
    → end < 2 ^ 32
    → finish sb inode_i end dir r ≡ some q
    → ((p : Progress) → r ≡ some p → file_size p.open_file ≡ file_size o)
    → file_size q.open_file ≡ file_size o
unfolding finish
finish-size sb inode_i end dir o none q inside fits h same = absurd (cc)
finish-size sb inode_i end dir o (some p) q inside fits h same =
    let there = same p refl in
    let stored : record p { open_file = update_size sb inode_i end dir p.open_file } ≡ q = cc h in
    ap (λ t. file_size t.open_file) (sym stored)
    ∙ update_size-same sb inode_i end dir p.open_file (omega (arith, inside, there)) fits
    ∙ there

transfer_blocks-size :
    (fuel : ℕ) (sb : Superblock) (inode_i offset len block : ℕ) (dir : DataDir) (p q : Progress)
    → transfer_blocks fuel sb inode_i offset len block dir p ≡ some q
    → file_size q.open_file ≡ file_size p.open_file
unfolding transfer_blocks
transfer_blocks-size fuel sb inode_i offset len block dir p q h =
    rounds-size sb inode_i (u32 (offset + len)) len dir fuel block _ _ p q h

-- the loop from the block of `offset` on ends, with a round for each block from the first one on
transfer_blocks-EndsWithin :
    (fuel : ℕ) (sb : Superblock) (inode_i offset len : ℕ) (dir : DataDir) (buffer : Bytes)
    (o : Open)
    → 0 < block_size sb
    → offset + len + block_size sb < 2 ^ 32
    → offset + len < fuel * block_size sb
    → EndsWithin len (
        transfer_blocks fuel sb inode_i offset len
          (offset / block_size sb)
          dir
          (record { open_file = o; buffer = buffer; written = 0 }))
unfolding transfer_blocks
transfer_blocks-EndsWithin fuel sb inode_i offset len dir buffer o positive fits enough =
    let bs = block_size sb in
    let b = offset / bs in
    let split : b * bs + offset % bs ≡ offset = div-add-mod' offset bs in
    let rest_lt : offset % bs < bs = mod-lt offset positive in
    let product : (b + 1) * bs ≡ b * bs + bs = grind arith in
    let sum : u32 (offset + len) ≡ offset + len = omega (arith, fits) in
    let start : u32 (b * bs) ≡ b * bs = omega (arith, split, fits) in
    let b_small : u32 (b + 1) ≡ b + 1 = omega (arith, div-le_self offset bs, fits, positive) in
    let end : u32 ((b + 1) * bs) ≡ b * bs + bs = omega (arith, split, fits, product) in
    let skip : sub32 offset (b * bs) ≡ offset % bs = omega (arith, split, fits) in
    rw (sum, start, b_small, end, skip)
      (rounds-EndsWithin fuel sb inode_i offset len dir b (b * bs + bs) (offset % bs)
        (record { open_file = o; buffer = buffer; written = 0 }) (omega (arith, split)) rest_lt
        (omega arith) fits (omega (arith, enough)))

finish-EndsWithin :
    (sb : Superblock) (inode_i end len : ℕ) (dir : DataDir) (r : Option Progress)
    → EndsWithin len r
    → EndsWithin len (finish sb inode_i end dir r)
unfolding finish
finish-EndsWithin sb inode_i end len dir none (q, e, le) = absurd (cc e)
finish-EndsWithin sb inode_i end len dir (some p) (q, e, le) =
    let same : p ≡ q = cc e in (_, refl, omega (arith, ap Progress.written same, le))

-- A file never grows: a call of `ext2_transfer` that reads or writes at an offset inside the file
-- returns, whatever the device refuses, with a round for each block from the first of the file to
-- the last asked for. Its count of bytes is no more than the file has from the offset on, for a write
-- too, and the size of the file is as it was. The end asked for, and a block
-- behind the end of the file, lie below 2 ^ 32.
pub ext2_transfer-file_size :
    (fuel : ℕ) (sb : Superblock) (inode_i offset len : ℕ) (buffer : Bytes) (dir : DataDir)
    (o : Open)
    → 0 < block_size sb
    → offset ≤ file_size o
    → file_size o + block_size sb < 2 ^ 32
    → offset + len < 2 ^ 32
    → offset + len < fuel * block_size sb
    → (q : Progress) × (ext2_transfer fuel sb inode_i offset len buffer dir o ≡ some q)
      × (q.written ≤ file_size o - offset)
      × (file_size q.open_file ≡ file_size o)
unfolding ext2_transfer
ext2_transfer-file_size fuel sb inode_i offset len buffer dir o positive le small fits enough =
    let len' = clamp o.inode offset len in
    let end = u32 (offset + len') in
    let inside = clamp-le o.inode offset len le (omega (arith, small)) fits in
    let less = clamp-less o.inode offset len le (omega (arith, small)) fits in
    let (q, returned, few) = finish-EndsWithin sb inode_i end len' dir _ (
      transfer_blocks-EndsWithin fuel sb inode_i offset len' dir buffer o positive
        (omega (arith, inside, small)) (omega (arith, less, enough))) in
    (
      q,
      returned,
      omega (arith, few, inside),
      finish-size sb inode_i end dir o _ q (omega (arith, inside)) (omega arith) returned
          (λ p ended. transfer_blocks-size fuel sb inode_i offset _ _ dir _ p ended),
    )
