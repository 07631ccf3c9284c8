-- ===== src/Acpi.antt =====
-- The tables of src/common/acpi.c in byte memory: their checksums, and the search for one. A signed
-- byte adds the same to a sum of 8 bits as its unsigned value. The message, and `reinit_acpi`, which
-- maps the tables anew, are left out.
pub mod Sums
mod Tests
use muse.Base.{
  ℕ, zero, suc, ◌+◌, ◌*◌, ◌/◌, ◌%◌, Bool, true, false, Option, none, some, ◌==◌, ◌&&◌,
  if◌then◌else◌, ltb, bit_and, shr, u8, u32, sub32,
}
use muse.Base.Memory.{Bytes}
use muse.Malloc.{load32}

-- `sum += p[i]` for the `n` bytes from `p` on
pub sum_bytes : ℕ → Bytes → ℕ → ℕ → ℕ
sum_bytes zero m p sum = sum
sum_bytes (suc n) m p sum = sum_bytes n m (p + 1) (u8 (sum + m p))

module _ (past : ℕ → ℕ → ℕ) where
  -- `v >> i`, which C leaves undefined from 32 bits on: `past` is what the machine does
  pub shifted : ℕ → ℕ → ℕ
  shifted v i = if ltb i 32 then shr v i else past v i

  -- `sum += (v >> i) & 0xff`, `n` rounds from `i` on, in steps of 8
  pub sum_shifts : ℕ → ℕ → ℕ → ℕ → ℕ
  sum_shifts zero v i sum = sum
  sum_shifts (suc n) v i sum = sum_shifts n v (i + 8) (u8 (sum + bit_and (shifted v i) 0xFF))

  -- the sum of the first version of the structure
  pub old_sum : Bytes → ℕ → ℕ
  old_sum m p =
      let named = u8 (sum_bytes 8 m p 0 + m (p + 8)) in
      let oem = u8 (sum_bytes 6 m (p + 9) named + m (p + 15)) in
      sum_shifts 4 (load32 m (p + 16)) 0 oem

  -- that of the fields which the second version adds
  pub new_sum : Bytes → ℕ → ℕ
  new_sum m p =
      let long = sum_shifts 8 (load32 m (p + 16)) 0 (sum_shifts 4 (load32 m (p + 20)) 0 0) in
      sum_bytes 3 m (p + 33) (u8 (long + m (p + 32)))

  pub verify_rsdp : Bytes → ℕ → Bool
  verify_rsdp m p =
      if old_sum m p == 0 then (if m (p + 15) == 2 then new_sum m p == 0 else true) else false

-- `find_rsdt`; the address of the second version is cut to 32 bits
pub find_rsdt : Bytes → ℕ → ℕ
find_rsdt m p = if m (p + 15) == 0 then load32 m (p + 16) else load32 m (p + 24)

-- the loop over the characters of a signature
pub same_signature : Bytes → ℕ → Bytes → Bool
same_signature m header signature =
    m header == signature 0
    && m (header + 1) == signature 1
    && m (header + 2) == signature 2
    && m (header + 3) == signature 3

-- the loop of `find_sdt`, with `left` entries left from `i` on; 0 is the null pointer
pub find_entry : ℕ → Bytes → ℕ → Bytes → ℕ → ℕ
find_entry zero m rsdt signature i = 0
find_entry (suc left) m rsdt signature i =
    let header = load32 m (rsdt + 36 + i * 4) in
    let rest = find_entry left m rsdt signature (i + 1) in
    if same_signature m header signature then header else rest

pub find_sdt : Bytes → ℕ → Bytes → ℕ
find_sdt m rsdt signature = find_entry (sub32 (load32 m (rsdt + 4)) 36 / 4) m rsdt signature 0

pub verify_sdt : Bytes → ℕ → Bool
verify_sdt m sdt = sum_bytes (load32 m (sdt + 4)) m sdt 0 == 0
