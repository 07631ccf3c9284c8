-- ===== src/Acpi/Sums.antt =====
-- What the checksums of src/common/acpi.c add up.
use muse.Base.{ℕ, zero, suc, ◌+◌, ◌%◌, ◌<◌, ◌≡◌, ◌≢◌, ap, ◌∙◌, arith, ◌==◌, ==_ne, u8, shr, bit_and}
use muse.Base.Memory.{Bytes}
use muse.Base.Bits.{bit_and_low_mask}
use muse.Malloc.{load32}
use muse.Acpi.{sum_bytes, shifted, sum_shifts, old_sum, verify_rsdp}

-- the sum of the `n` bytes from `p` on
pub total : ℕ → Bytes → ℕ → ℕ
total zero m p = 0
total (suc n) m p = m p + total n m (p + 1)

sum_bytes-total :
    (n : ℕ) (m : Bytes) (p sum : ℕ) → sum < 256 → sum_bytes n m p sum ≡ (sum + total n m p) % 256
unfolding sum_bytes total
sum_bytes-total zero m p sum lt = omega arith
sum_bytes-total (suc n) m p sum lt =
    sum_bytes-total n m (p + 1) (u8 (sum + m p)) (omega arith) ∙ omega arith

total-add : (n k : ℕ) (m : Bytes) (p : ℕ) → total (n + k) m p ≡ total n m p + total k m (p + n)
unfolding total
total-add zero k m p =
    let place : total k m (p + 0) ≡ total k m p = ap (total k m) (omega arith) in
    let same : total (0 + k) m p ≡ total k m p = ap (λ t. total t m p) (omega arith) in
    omega (arith, place, same)
total-add (suc n) k m p =
    let rest : total k m (p + 1 + n) ≡ total k m (p + suc n) = ap (total k m) (omega arith) in
    let number : suc n + k ≡ suc (n + k) = omega arith in
    let shape : total (suc n + k) m p ≡ total (suc (n + k)) m p = ap (λ t. total t m p) number in
    omega (arith, shape, total-add n k m (p + 1), rest)

total-one : (m : Bytes) (p : ℕ) → total 1 m p ≡ m p
unfolding total
total-one m p = omega arith

-- the bytes of a word, each out of it by a shift
word_byte : (x b : ℕ) → x % 256 ≡ b → bit_and x 0xFF ≡ b
word_byte x b e = bit_and_low_mask 8 x ∙ e

four_bytes : (m : Bytes) (p : ℕ) → total 4 m p ≡ m p + m (p + 1) + m (p + 2) + m (p + 3)
unfolding total
four_bytes m p =
    let second : m (p + 1 + 1) ≡ m (p + 2) = ap m (omega arith) in
    let third : m (p + 1 + 1 + 1) ≡ m (p + 3) = ap m (omega arith) in omega (arith, second, third)

load32-bytes :
    (m : Bytes) (p : ℕ)
    → ((k : ℕ) → m k < 256)
    → (bit_and (shr (load32 m p) 0) 0xFF ≡ m p)
      × (bit_and (shr (load32 m p) 8) 0xFF ≡ m (p + 1))
      × (bit_and (shr (load32 m p) 16) 0xFF ≡ m (p + 2))
      × (bit_and (shr (load32 m p) 24) 0xFF ≡ m (p + 3))
unfolding load32
load32-bytes m p bytes =
    let b0 = bytes p in
    let b1 = bytes (p + 1) in
    let b2 = bytes (p + 2) in
    let b3 = bytes (p + 3) in
    (
      word_byte _ _ (omega (arith, b0)),
      word_byte _ _ (omega (arith, b0, b1)),
      word_byte _ _ (omega (arith, b0, b1, b2)),
      word_byte _ _ (omega (arith, b0, b1, b2, b3)),
    )

sum_shifts-total :
    (past : ℕ → ℕ → ℕ) (m : Bytes) (p sum : ℕ)
    → ((k : ℕ) → m k < 256)
    → sum_shifts past 4 (load32 m p) 0 sum ≡ (sum + total 4 m p) % 256
unfolding sum_shifts shifted
sum_shifts-total past m p sum bytes =
    let (b0, b1, b2, b3) = load32-bytes m p bytes in omega (arith, b0, b1, b2, b3, four_bytes m p)

-- the sum that `verify_rsdp` forms first is that of the bytes in order
old_sum-total :
    (past : ℕ → ℕ → ℕ) (m : Bytes) (p : ℕ)
    → ((k : ℕ) → m k < 256)
    → old_sum past m p ≡ total 20 m p % 256
unfolding old_sum
old_sum-total past m p bytes =
    let named = u8 (sum_bytes 8 m p 0 + m (p + 8)) in
    let oem = u8 (sum_bytes 6 m (p + 9) named + m (p + 15)) in
    omega (
      arith,
      sum_bytes-total 8 m p 0 (omega arith),
      sum_bytes-total 6 m (p + 9) named (omega arith),
      sum_shifts-total past m (p + 16) oem bytes,
      total-add 16 4 m p,
      total-add 15 1 m p,
      total-add 9 6 m p,
      total-add 8 1 m p,
      total-one m (p + 8),
      total-one m (p + 15),
    )

-- `verify_rsdp` accepts a structure whose revision is not 2 exactly if its first 20 bytes add up to 0
-- modulo 256. A byte is less than 256.
pub verify_rsdp_lem :
    (past : ℕ → ℕ → ℕ) (m : Bytes) (p : ℕ)
    → ((k : ℕ) → m k < 256)
    → m (p + 15) ≢ 2
    → verify_rsdp past m p ≡ (total 20 m p % 256 == 0)
unfolding verify_rsdp
verify_rsdp_lem past m p bytes first =
    rw (==_ne _ _ first, old_sum-total past m p bytes) (ground arith)
