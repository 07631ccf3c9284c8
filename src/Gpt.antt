-- ===== src/Gpt.antt =====
-- GUID partition tables, src/common/gpt.c, over a device of `Disk`: the raw drive, whose sectors the
-- table's reads address. `detect_ext2` of each partition is left out: what is modelled of a
-- partition is the `struct partition` it is called with.
mod Tests
pub mod Table
use muse.Base.{
  ℕ, zero, suc, ◌+◌, ◌*◌, ◌/◌, bit_or, Bool, true, false, List, [], ◌∷◌, ◌++◌, ◌==◌, if◌then◌else◌,
  u8, u32, sub32, not,
}
use muse.Base.Memory.{Bytes, slice}
use muse.Malloc.{load32}
use muse.Disk.{
  DataDir,
  DataDir.{dir_read},
  Result,
  ok,
  err,
  Action,
  pure,
  ◌>>=◌,
  Disk,
  fresh,
  transfer,
}

-- `struct partition`, without its device
pub record Partition : Type 0 where
  pub start : ℕ
  pub limit : ℕ

-- `gpt_transfer`, for a drive whose transfer takes its number of sectors as a uint8_t
pub gpt_transfer :
    {S : Type 0}
    → (Partition → ℕ → ℕ → Bytes → DataDir → Action S Bytes)
    → Partition
    → ℕ
    → ℕ
    → Bytes
    → DataDir
    → Action S Bytes
gpt_transfer drive part offset size buf dir = drive part offset (u8 size) buf dir

-- "EFI PART"
abbrev pub signature : List ℕ
signature = b'E' ∷ b'F' ∷ b'I' ∷ b' ' ∷ b'P' ∷ b'A' ∷ b'R' ∷ b'T' ∷ []

-- `memcmp(m, s, n) == 0`, for the bytes `s` from `a` on
pub begins : Bytes → ℕ → List ℕ → Bool
begins m a [] = true
begins m a (x ∷ xs) = let rest = begins m (a + 1) xs in if m a == x then rest else false

-- the loop that ORs the bytes of a GUID, with `left` bytes left from `a` on
pub guid_bits : ℕ → Bytes → ℕ → ℕ → ℕ
guid_bits zero m a acc = acc
guid_bits (suc left) m a acc = guid_bits left m (a + 1) (u8 (bit_or acc (m a)))

-- the partition of the `struct gpt_partition` at `a`: `partition_guid` at 16, `start_lba` at 32,
-- `end_lba` at 40, of which the lower halves are kept
pub partition_at : Bytes → ℕ → Partition
partition_at m a = record { start = load32 m (a + 32); limit = load32 m (a + 40) }

-- the loop over the entries of a sector, with `left` entries left from `a` on
pub sector_partitions : ℕ → Bytes → ℕ → List Partition
sector_partitions zero m a = []
sector_partitions (suc left) m a =
    let rest = sector_partitions left m (a + 128) in
    if guid_bits 16 m (a + 16) 0 == 0 then rest else partition_at m a ∷ rest

-- what is found in a sector that has been read, before what is found in the `rest`
pub after_sector : Bool × List Partition → Result Bytes × Disk → Bool × List Partition
after_sector rest (ok buf, d) = (rest.0, sector_partitions 4 buf 0 ++ rest.1)
after_sector rest (err e, d) = (false, [])

-- the loop over the sectors of the table, with `left` sectors left from sector `2 + i` on: whether
-- every read succeeded, and the partitions found
pub scan_sectors : ℕ → ℕ → Disk → Bool × List Partition
scan_sectors zero i d = (true, [])
scan_sectors (suc left) i d =
    let rest = scan_sectors left (i + 1) d in
    after_sector rest (transfer (u32 (2 + i)) 1 fresh dir_read d)

-- `num_sectors`, of a header
pub sector_number : Bytes → ℕ
sector_number header = u32 (load32 header 80 + 3) / 4

-- what `init_gpt` does once it has read the header
pub after_header : Result Bytes × Disk → Bool × List Partition
after_header (ok header, d) =
    if begins header 0 signature then scan_sectors (sector_number header) 0 d else (false, [])
after_header (err e, d) = (false, [])

-- `init_gpt`
pub init_gpt : Disk → Bool × List Partition
init_gpt d = after_header (transfer 1 1 fresh dir_read d)
