-- ===== src/Ext2/Data/Read.antt =====
-- Reading a file through `ext2_transfer`.
use muse.Base.{
  ℕ, zero, suc, ◌+◌, ◌-◌, ◌*◌, ◌/◌, ◌%◌, ◌^◌, ◌≤◌, ◌<◌, ◌≡◌, ◌≢◌, ap, ap₂, ◌∙◌, fun_ext, true,
  false, none, some, arith, ◌==◌, min, if◌then◌else◌, u32, sub32, ==_ne, ==_refl, ℕ_discrete,
  lt→ltb, ltb-ff,
}
use muse.Base.Memory.{Bytes, blit, blit_same, blit_append}
use native.Mathlib.Nat.{
  mul-add-div_right, mul-le-mul_right, mod-lt, div-le_self, div-eq_of_lt, div-add-mod',
  lt_of_mul-lt-mul_right,
}
use muse.Malloc.{load32}
use muse.Disk.{DataDir.{dir_read}, ok, sector_size, fresh, view, accepted, transfer-ok}
use muse.Ext2.{Superblock, block_size, block_sectors, block_lba, direct_block_at, size_lo}
use muse.Ext2.Alloc.{block_size-sectors}
use muse.Ext2.Data.{
  Open, block_at, direct, locate, inode_data_transfer, Progress, copy_block, after_copy, after_read,
  chunk, round, rounds, clamp, finish, transfer_blocks, update_size, ext2_transfer,
}

-- the number of block `idx` of a file, of the first 12
abbrev pub direct_block : Open → ℕ → ℕ
direct_block o idx = load32 o.inode (direct_block_at idx)

-- Block `idx` of a file, of the first 12, is there, and the device lets it be read.
pub record Readable (sb : Superblock) (o : Open) (idx : ℕ) : Type 0 where
  pub mapped : direct_block o idx ≢ 0
  pub works : o.disk.fault dir_read (block_lba sb (direct_block o idx)) (block_sectors sb) ≡ none

-- byte `k` of a file of at most 12 blocks
pub file_byte : Superblock → Open → ℕ → ℕ
file_byte sb o k =
    o.disk.bytes
      (block_lba sb (direct_block o (k / block_size sb)) * sector_size + k % block_size sb)

module _ (sb : Superblock) (inode_i : ℕ) (o : Open) (idx : ℕ) (lt : idx < 12)
    (readable : Readable sb o idx) where
  -- the buffer that the block is read to
  pub block_buffer : Bytes
  block_buffer =
      (accepted o.disk (block_lba sb (direct_block o idx)) (block_sectors sb) fresh dir_read).0

  locate-direct : locate sb idx dir_read o ≡ (ok (block_lba sb (direct_block o idx), false), o)
  unfolding locate direct block_at
  locate-direct = rw (lt→ltb _ _ lt) (rw (==_ne _ _ readable.mapped))

  pub inode_data_transfer-direct :
      inode_data_transfer sb inode_i idx fresh dir_read o ≡ (ok block_buffer, o)
  unfolding inode_data_transfer block_buffer accepted
  inode_data_transfer-direct = rw locate-direct (
      rw (
        transfer-ok o.disk (block_lba sb (direct_block o idx)) (block_sectors sb) fresh dir_read
          readable.works))

-- quotient and remainder of a place in a block
place : (k b r : ℕ) → r < k → ((b * k + r) / k ≡ b) × ((b * k + r) % k ≡ r)
place k b r lt =
    let quotient : (b * k + r) / k ≡ b =
      mul-add-div_right (omega arith) b r ∙ omega (arith, div-eq_of_lt lt) in
    (quotient, omega (arith, div-add-mod' (b * k + r) k, ap (λ q. q * k) quotient))

-- byte `r` of block `b`
file_byte-block :
    (sb : Superblock) (o : Open) (b r : ℕ)
    → r < block_size sb
    → file_byte sb o (b * block_size sb + r)
      ≡ o.disk.bytes (block_lba sb (direct_block o b) * sector_size + r)
unfolding file_byte
file_byte-block sb o b r lt =
    let (quotient, remainder) = place (block_size sb) b r lt in
    ap₂ (λ q k. o.disk.bytes (block_lba sb (direct_block o q) * sector_size + k)) quotient remainder

abbrev progress : Open → Bytes → ℕ → Progress
progress o buffer w = record { open_file = o; buffer = buffer; written = w }

module _ (sb : Superblock) (inode_i : ℕ) (o : Open) (offset len : ℕ)
    (fits : offset + len ≤ 12 * block_size sb) (small : block_size sb ≤ 2 ^ 28)
    (readable : (idx : ℕ) → idx * block_size sb < offset + len → Readable sb o idx) where
  -- what a round copies
  abbrev count : ℕ → ℕ → ℕ
  count skip w = min (block_size sb - skip) (len - w)

  chunk-count :
      (start skip w : ℕ)
      → offset + w ≡ start + skip
      → skip < block_size sb
      → w < len
      → chunk sb (offset + len) (start + block_size sb) skip ≡ count skip w
  unfolding chunk
  chunk-count start skip w at skip_lt lt = ground arith

  -- the block of a byte that is yet to be copied
  block_lt : (b skip w : ℕ) → offset + w ≡ b * block_size sb + skip → w < len → b < 12
  block_lt b skip w at lt =
      lt_of_mul-lt-mul_right (block_size sb) {m = b} {n = 12} (omega (arith, at, fits, lt))

  round-read :
      (b skip w : ℕ) (buffer : Bytes) (lt : b < 12) (near : b * block_size sb < offset + len)
      → offset + w ≡ b * block_size sb + skip
      → skip < block_size sb
      → w < len
      → round sb inode_i
          (offset + len)
          len
          dir_read
          b
          (b * block_size sb + block_size sb)
          skip
          (progress o buffer w)
        ≡ (
          if w + count skip w == len then false else true,
          progress o
              (blit buffer w
                (count skip w)
                (view (block_buffer sb inode_i o b lt (readable b near)) skip))
              (w + count skip w),
        )
  unfolding round after_read after_copy copy_block
  round-read b skip w buffer lt near at skip_lt w_lt =
      let cnt = chunk-count (b * block_size sb) skip w at skip_lt w_lt in
      let sum : u32 (w + count skip w) ≡ w + count skip w = omega arith in
      ap
        (after_read sb inode_i (offset + len) len dir_read b (b * block_size sb + block_size sb)
          skip (progress o buffer w))
        (inode_data_transfer-direct sb inode_i o b lt (readable b near))
      ∙ rw (cnt, sum)

  -- the bytes that a round copies are the file's
  copied :
      (b skip w : ℕ) (lt : b < 12) (near : b * block_size sb < offset + len)
      → offset + w ≡ b * block_size sb + skip
      → (j : ℕ) → j < count skip w
      → view (block_buffer sb inode_i o b lt (readable b near)) skip j
        ≡ file_byte sb o (offset + w + j)
  unfolding block_buffer accepted
  copied b skip w lt near at j j_lt =
      let there : offset + w + j ≡ b * block_size sb + (skip + j) = omega (arith, at) in
      rw there (
        rw (file_byte-block sb o b (skip + j) (omega arith))
          (ground (arith, block_size-sectors sb)))

  -- where the next round goes on
  next_bytes :
      (w cnt : ℕ) (j : ℕ)
      → file_byte sb o (offset + (w + cnt) + j) ≡ file_byte sb o (offset + w + (cnt + j))
  next_bytes w cnt j = ap (file_byte sb o) (omega arith)

  block_end_fits : (b : ℕ) → b < 12 → b * block_size sb ≤ 11 * block_size sb
  block_end_fits b lt = mul-le-mul_right (block_size sb) (omega arith)

  rounds-read :
      (fuel b skip w : ℕ) (buffer : Bytes)
      → 12 ≤ b + fuel
      → offset + w ≡ b * block_size sb + skip
      → skip < block_size sb
      → w < len
      → rounds fuel sb inode_i
          (offset + len)
          len
          dir_read
          b
          (b * block_size sb + block_size sb)
          skip
          (progress o buffer w)
        ≡ some (progress o (blit buffer w (len - w) (λ j. file_byte sb o (offset + w + j))) len)
  unfolding rounds
  rounds-read zero b skip w buffer enough at skip_lt w_lt =
      absurd (omega (arith, block_lt b skip w at w_lt))
  rounds-read (suc fuel) b skip w buffer enough at skip_lt w_lt =
      let lt = block_lt b skip w at w_lt in
      let near : b * block_size sb < offset + len = omega (arith, at) in
      let here = round-read b skip w buffer lt near at skip_lt w_lt in
      elim (ℕ_discrete (w + count skip w) len) [
        | yes last ↦
            let all : count skip w ≡ len - w = omega (arith, last) in
            rw (here, last, ==_refl len)
              (ap (λ m. some (progress o m len))
                (rw all (
                  blit_same buffer w (len - w) _ _
                    (λ j j_lt. copied b skip w lt near at j (omega (arith, all))))))
        | no more ↦
            let w' = w + count skip w in
            let total : count skip w + (len - w') ≡ len - w = omega arith in
            let next : u32 (b + 1) ≡ b + 1 = omega arith in
            let end : u32 (b * block_size sb + block_size sb + block_size sb)
                ≡ (b + 1) * block_size sb + block_size sb =
              omega (arith, block_end_fits b lt) in
            let at' : offset + w' ≡ (b + 1) * block_size sb + 0 = omega (arith, at) in
            rw (here, ==_ne _ _ more)
              (rw (next, end)
                (rounds-read fuel (b + 1) 0 w' _ (omega arith) at' (omega arith) (omega arith)
                  ∙ ap (λ m. some (progress o m len))
                      (blit_append buffer w (count skip w) (len - w') _ _ _
                          (copied b skip w lt near at) (next_bytes w (count skip w))
                        ∙ ap (λ n. blit buffer w n (λ j. file_byte sb o (offset + w + j))) total)))
      ]

clamp-inside :
    (inode : Bytes) (offset len : ℕ)
    → u32 (offset + len) ≡ offset + len
    → offset + len ≤ size_lo inode
    → clamp inode offset len ≡ len
unfolding clamp
clamp-inside inode offset len sum inside = rw (sum, ltb-ff _ _ inside)

-- the loop, from its start
transfer_blocks-read :
    (fuel : ℕ) (sb : Superblock) (inode_i offset len : ℕ) (buffer : Bytes) (o : Open)
    → 12 ≤ fuel
    → 0 < len
    → offset + len ≤ 12 * block_size sb
    → block_size sb ≤ 2 ^ 28
    → ((idx : ℕ) → idx * block_size sb < offset + len → Readable sb o idx)
    → transfer_blocks fuel sb inode_i offset len
        (offset / block_size sb)
        dir_read
        (progress o buffer 0)
      ≡ some (progress o (blit buffer 0 len (λ j. file_byte sb o (offset + j))) len)
unfolding transfer_blocks
transfer_blocks-read fuel sb inode_i offset len buffer o enough some_len fits small readable =
    let bs = block_size sb in
    let b = offset / bs in
    let split : b * bs + offset % bs ≡ offset = div-add-mod' offset bs in
    let rest_lt : offset % bs < bs = mod-lt offset (omega arith) in
    let sum : u32 (offset + len) ≡ offset + len = omega arith in
    let start : u32 (b * bs) ≡ b * bs = omega (arith, split) in
    let b_small : u32 (b + 1) ≡ b + 1 = omega (arith, div-le_self offset bs) in
    let end : u32 ((b + 1) * bs) ≡ b * bs + bs = omega (arith, split) in
    let skip : sub32 offset (b * bs) ≡ offset % bs = omega (arith, split) in
    let no_bytes_yet : (j : ℕ) → offset + 0 + j ≡ offset + j = λ j. omega arith in
    rw (sum, start, b_small, end, skip)
      (rounds-read sb inode_i o offset len fits small readable fuel b (offset % bs) 0 buffer
          (omega arith) (omega (arith, split)) rest_lt some_len
        ∙ ap₂ (λ n f. some (progress o (blit buffer 0 n f) len)) (omega arith)
            (fun_ext λ j. ap (file_byte sb o) (no_bytes_yet j)))

-- Reading from a file's first 12 blocks, of 2 ^ 28 bytes at most each, where every block up to the
-- end of the read is there and can be read: a read of one byte or more, inside the file, ends after
-- 12 rounds at most. It returns the number of
-- bytes asked for, the caller's buffer has the file's bytes from `offset` on and is otherwise as it
-- was, and the file and the device are not changed.
pub ext2_transfer-read :
    (fuel : ℕ) (sb : Superblock) (inode_i offset len : ℕ) (buffer : Bytes) (o : Open)
    → 12 ≤ fuel
    → 0 < len
    → offset + len ≤ size_lo o.inode
    → offset + len ≤ 12 * block_size sb
    → block_size sb ≤ 2 ^ 28
    → ((idx : ℕ) → idx * block_size sb < offset + len → Readable sb o idx)
    → ext2_transfer fuel sb inode_i offset len buffer dir_read o
      ≡ some record {
        open_file = o;
        buffer = blit buffer 0 len (λ j. file_byte sb o (offset + j));
        written = len;
      }
unfolding ext2_transfer finish update_size
ext2_transfer-read fuel sb inode_i offset len buffer o enough some_len inside fits small readable =
    let sum : u32 (offset + len) ≡ offset + len = omega arith in
    rw (clamp-inside o.inode offset len sum inside) (
      ap (finish sb inode_i (u32 (offset + len)) dir_read) (
        transfer_blocks-read fuel sb inode_i offset len buffer o enough some_len fits small
          readable))
