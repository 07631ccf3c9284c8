-- ===== src/Gpt/Table.antt =====
-- What `init_gpt` finds.
use muse.Base.{
  ℕ, zero, suc, ◌+◌, ◌*◌, ◌/◌, ◌^◌, ◌≤◌, ◌<◌, ◌≡◌, refl, ap, ap₂, sym, ◌∙◌, bit_or, Bool, true,
  false, List, [], ◌∷◌, ◌++◌, arith, ◌&&◌, ◌==◌, if◌then◌else◌, u8, u32, ℕ_discrete, none, pow-suc,
  length,
}
use muse.Base.Bits.{bit_or_low, bit_or_lt, bit_or_nothing}
use muse.Base.Memory.{Bytes}
use muse.Malloc.{load32}
use muse.Malloc.Word32.{load32-agree}
use muse.Disk.{DataDir, DataDir.{dir_read}, Disk, fresh, accepted, transfer-ok}
use muse.Gpt.{
  Partition, signature, begins, guid_bits, partition_at, sector_partitions, after_sector,
  scan_sectors, sector_number, after_header, init_gpt,
}

-- the `n` bytes from `a` on are 0
pub all_zero : ℕ → Bytes → ℕ → Bool
all_zero zero m a = true
all_zero (suc n) m a = (m a == 0) && all_zero n m (a + 1)

-- The entries of a table that are in use, from address `a` of the drive on: those whose partition
-- GUID is not 0.
pub used_entries : ℕ → Bytes → ℕ → List Partition
used_entries zero m a = []
used_entries (suc n) m a =
    let rest = used_entries n m (a + 128) in
    if all_zero 16 m (a + 16) then rest else partition_at m a ∷ rest

bit_or-zero : (w a b : ℕ) → a < 2 ^ w → b < 2 ^ w → bit_or a b ≡ 0 → (a ≡ 0) × (b ≡ 0)
bit_or-zero zero a b ha hb h = (omega arith, omega arith)
bit_or-zero (suc w) a b ha hb h =
    let low = bit_or_low a b in
    let half : bit_or (a / 2) (b / 2) ≡ 0 = omega (arith, low) in
    let double = pow-suc 2 w in
    let (a_half, b_half) =
      bit_or-zero w (a / 2) (b / 2) (omega (arith, double)) (omega (arith, double)) half in
    (omega (arith, low, a_half), omega (arith, low, b_half))

-- a byte ORed to the bits so far
or_zero : (a b : ℕ) → a < 256 → b < 256 → (u8 (bit_or a b) == 0) ≡ ((a == 0) && (b == 0))
or_zero a b ha hb =
    let small : bit_or a b < 256 = bit_or_lt 8 a b ha hb in
    elim (ℕ_discrete (bit_or a b) 0) [
      | yes clear ↦ let (a_zero, b_zero) = bit_or-zero 8 a b ha hb clear in rw (a_zero, b_zero)
      | no set ↦
          let not_both : ¬ ((a ≡ 0) × (b ≡ 0)) =
            λ (ea, eb). set (ap₂ bit_or ea eb ∙ bit_or_nothing 0) in
          ground arith
    ]

and_assoc : (a b c : Bool) → ((a && b) && c) ≡ (a && (b && c))
and_assoc true b c = refl
and_assoc false b c = refl

and_true : (b : Bool) → (b && true) ≡ b
and_true true = refl
and_true false = refl

guid_bits-zero :
    (n : ℕ) (m : Bytes) (a acc : ℕ)
    → ((k : ℕ) → m k < 256)
    → acc < 256
    → (guid_bits n m a acc == 0) ≡ ((acc == 0) && all_zero n m a)
unfolding guid_bits all_zero
guid_bits-zero zero m a acc valid lt = sym (and_true (acc == 0))
guid_bits-zero (suc n) m a acc valid lt =
    guid_bits-zero n m (a + 1) (u8 (bit_or acc (m a))) valid (omega arith)
    ∙ ap (λ t. t && all_zero n m (a + 1)) (or_zero acc (m a) lt (valid a))
    ∙ and_assoc (acc == 0) (m a == 0) (all_zero n m (a + 1))

at_zero : (m m' : Bytes) (a b : ℕ) → m (a + 0) ≡ m' (b + 0) → m a ≡ m' b
at_zero m m' a b h =
    let here : a + 0 ≡ a = omega arith in
    let here' : b + 0 ≡ b = omega arith in ap m (sym here) ∙ h ∙ ap m' here'

-- the loop over a sector finds the entries in use
sector_partitions-used :
    (n : ℕ) (m : Bytes) (a : ℕ)
    → ((k : ℕ) → m k < 256)
    → sector_partitions n m a ≡ used_entries n m a
unfolding sector_partitions used_entries
sector_partitions-used zero m a valid = refl
sector_partitions-used (suc n) m a valid =
    rw (guid_bits-zero 16 m (a + 16) 0 valid (omega arith))
      (rw (sector_partitions-used n m (a + 128) valid) refl)

-- Bytes that agree on `n` places from `a` and `b` on agree from `o` places further on.
shift :
    (m m' : Bytes) (a b o n l : ℕ)
    → ((k : ℕ) → k < n → m (a + k) ≡ m' (b + k))
    → o + l ≤ n
    → (k : ℕ) → k < l
    → m (a + o + k) ≡ m' (b + o + k)
shift m m' a b o n l same fits k lt =
    let there : a + (o + k) ≡ a + o + k = omega arith in
    let there' : b + (o + k) ≡ b + o + k = omega arith in
    ap m (sym there) ∙ same (o + k) (omega arith) ∙ ap m' there'

all_zero-agree :
    (n : ℕ) (m m' : Bytes) (a b : ℕ)
    → ((k : ℕ) → k < n → m (a + k) ≡ m' (b + k))
    → all_zero n m a ≡ all_zero n m' b
unfolding all_zero
all_zero-agree zero m m' a b same = refl
all_zero-agree (suc n) m m' a b same =
    let first = at_zero m m' a b (same 0 (omega arith)) in
    rw
      (first, all_zero-agree n m m' (a + 1) (b + 1) (shift m m' a b 1 (suc n) n same (omega arith)))

partition_at-agree :
    (m m' : Bytes) (a b : ℕ)
    → ((k : ℕ) → k < 128 → m (a + k) ≡ m' (b + k))
    → partition_at m a ≡ partition_at m' b
unfolding partition_at
partition_at-agree m m' a b same =
    let word : (o : ℕ) → o + 4 ≤ 128 → load32 m (a + o) ≡ load32 m' (b + o) = λ o fits.
      let at = shift m m' a b o 128 4 same fits in
      load32-agree m m' (a + o) (b + o) (at_zero m m' (a + o) (b + o) (at 0 (omega arith)))
        (at 1 (omega arith)) (at 2 (omega arith)) (at 3 (omega arith)) in
    rw (word 32 (omega arith), word 40 (omega arith))

-- Entries at the same bytes are the same.
used_entries-agree :
    (n : ℕ) (m m' : Bytes) (a b : ℕ)
    → ((k : ℕ) → k < n * 128 → m (a + k) ≡ m' (b + k))
    → used_entries n m a ≡ used_entries n m' b
unfolding used_entries
used_entries-agree zero m m' a b same = refl
used_entries-agree (suc n) m m' a b same = rw (
  all_zero-agree 16 m m' (a + 16) (b + 16) (shift m m' a b 16 (suc n * 128) 16 same (omega arith)),
  used_entries-agree n m m' (a + 128) (b + 128)
      (shift m m' a b 128 (suc n * 128) (n * 128) same (omega arith)),
  partition_at-agree m m' a b (λ k lt. same k (omega arith)),
)

if_append :
    (c : Bool) (x : Partition) (xs ys : List Partition)
    → (if c then xs ++ ys else x ∷ (xs ++ ys)) ≡ (if c then xs else x ∷ xs) ++ ys
if_append true x xs ys = refl
if_append false x xs ys = refl

used_entries-append :
    (n k : ℕ) (m : Bytes) (a : ℕ)
    → used_entries (n + k) m a ≡ used_entries n m a ++ used_entries k m (a + n * 128)
unfolding used_entries
used_entries-append zero k m a = ap₂ (λ i b. used_entries i m b) (omega arith) (omega arith)
used_entries-append (suc n) k m a =
    let next : suc n + k ≡ suc (n + k) = omega arith in
    let there : a + 128 + n * 128 ≡ a + suc n * 128 = omega arith in
    rw next (
      rw (used_entries-append n k m (a + 128))
        (rw there (if_append (all_zero 16 m (a + 16)) _ _ _)))

-- a sector of the table, as it is read
sector_buffer : Disk → ℕ → Bytes
sector_buffer d lba = (accepted d lba 1 fresh dir_read).0

sector_buffer-agree :
    (d : Disk) (lba k : ℕ) → k < 512 → sector_buffer d lba (0 + k) ≡ d.bytes (lba * 512 + k)
unfolding sector_buffer accepted
sector_buffer-agree d lba k lt = ground arith

begins-agree :
    (s : List ℕ) (m m' : Bytes) (a b : ℕ)
    → ((k : ℕ) → k < length s → m (a + k) ≡ m' (b + k))
    → begins m a s ≡ begins m' b s
unfolding begins
begins-agree [] m m' a b same = refl
begins-agree (x ∷ xs) m m' a b same = rw (
  at_zero m m' a b (same 0 (omega arith)),
  begins-agree xs m m' (a + 1) (b + 1)
      (shift m m' a b 1 (suc (length xs)) (length xs) same (omega arith)),
)

module _ (d : Disk) (valid : (k : ℕ) → d.bytes k < 256) where
  sector_buffer-valid : (lba k : ℕ) → sector_buffer d lba k < 256
  unfolding sector_buffer accepted
  sector_buffer-valid lba k = ground (arith, valid (lba * 512 + k))

  sector-used :
      (lba : ℕ) → sector_partitions 4 (sector_buffer d lba) 0 ≡ used_entries 4 d.bytes (lba * 512)
  sector-used lba =
      sector_partitions-used 4 (sector_buffer d lba) 0 (sector_buffer-valid lba)
      ∙ used_entries-agree 4 (sector_buffer d lba) d.bytes 0 (lba * 512)
          (λ k lt. sector_buffer-agree d lba k (omega arith))

  module _ (sound : (dir : DataDir) (lba count : ℕ) → d.fault dir lba count ≡ none) where
    -- the sectors that are read give the entries of the table in use
    scan_sectors-used :
        (n i : ℕ)
        → n + i < 2 ^ 31
        → scan_sectors n i d ≡ (true, used_entries (n * 4) d.bytes ((2 + i) * 512))
    unfolding scan_sectors after_sector sector_buffer
    scan_sectors-used zero i small = unfold used_entries in refl
    scan_sectors-used (suc n) i small =
        let here : u32 (2 + i) ≡ 2 + i = omega arith in
        let four : suc n * 4 ≡ 4 + n * 4 = omega arith in
        let there : (2 + (i + 1)) * 512 ≡ (2 + i) * 512 + 4 * 128 = omega arith in
        rw (here, four)
          (rw
            (
              transfer-ok d (2 + i) 1 fresh dir_read (sound _ _ _),
              scan_sectors-used n (i + 1) (omega arith),
              there,
            )
            (ap (λ l. (true, l))
              (ap (λ l. l ++ used_entries (n * 4) d.bytes ((2 + i) * 512 + 4 * 128))
                  (sector-used (2 + i))
                ∙ sym (used_entries-append 4 (n * 4) d.bytes ((2 + i) * 512)))))

-- The partitions that `init_gpt` finds, on a drive that lets every sector be read and whose bytes
-- are below 256: if sector 1 begins with "EFI PART", then they are the entries in use, in their
-- order, of the table that begins in sector 2, for the number of entries in that header, rounded up
-- to a whole sector and modulo 2 ^ 32; otherwise there are none and the result is false.
pub init_gpt_lem :
    (d : Disk)
    → ((k : ℕ) → d.bytes k < 256)
    → ((dir : DataDir) (lba count : ℕ) → d.fault dir lba count ≡ none)
    → init_gpt d ≡ (
        if begins d.bytes 512 signature
        then (true, used_entries (u32 (load32 d.bytes (512 + 80) + 3) / 4 * 4) d.bytes 1024)
        else (false, []))
unfolding init_gpt after_header sector_number sector_buffer accepted
init_gpt_lem d valid sound =
    let header = sector_buffer d 1 in
    let word : load32 header 80 ≡ load32 d.bytes (512 + 80) =
      load32-agree header d.bytes 80 (512 + 80) (sector_buffer-agree d 1 80 (omega arith))
        (sector_buffer-agree d 1 81 (omega arith)) (sector_buffer-agree d 1 82 (omega arith))
        (sector_buffer-agree d 1 83 (omega arith)) in
    let signed : begins header 0 signature ≡ begins d.bytes 512 signature =
      begins-agree signature header d.bytes 0 512
        (λ k lt. sector_buffer-agree d 1 k (omega arith)) in
    let few : u32 (load32 d.bytes (512 + 80) + 3) / 4 + 0 < 2 ^ 31 = omega arith in
    rw (
      transfer-ok d 1 1 fresh dir_read (sound _ _ _),
      signed,
      word,
      scan_sectors-used d valid sound _ 0 few,
    )
