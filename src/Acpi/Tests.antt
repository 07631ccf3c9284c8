-- ===== src/Acpi/Tests.antt =====
-- A root structure of the first version at 0, with a checksum that fits, and a table.
use muse.Base.{◌+◌, ◌-◌, ◌%◌, ◌≡◌, refl, true, arith, ◌==◌, if◌then◌else◌}
use muse.Base.Memory.{Bytes}
use muse.Acpi.{
  verify_rsdp, old_sum, sum_bytes, sum_shifts, shifted, find_sdt, find_entry, same_signature,
}
use muse.Malloc.{load32}
use muse.Acpi.Sums.{total, verify_rsdp_lem}

abbrev pointer : Bytes
pointer k = if k == 0 then b'R' else if k == 8 then 256 - b'R' - 7 else if k == 17 then 7 else 0

verify_rsdp_lem_example : verify_rsdp (λ v i. v) pointer 0 ≡ (total 20 pointer 0 % 256 == 0)
verify_rsdp_lem_example = verify_rsdp_lem (λ v i. v) pointer 0 (λ k. ground arith) (omega arith)

accepted : verify_rsdp (λ v i. v) pointer 0 ≡ true
unfolding verify_rsdp old_sum sum_bytes sum_shifts shifted load32
accepted = refl

-- a root table at 0 with one entry, for the table "FACP" at 0x100
abbrev tables : Bytes
tables k =
    if k == 4
    then 40
    else if k == 37
    then 1
    else if k == 0x100
    then b'F'
    else if k == 0x101
    then b'A'
    else if k == 0x102
    then b'C'
    else if k == 0x103
    then b'P'
    else 0

abbrev signature : Bytes
signature k = tables (0x100 + k)

found : find_sdt tables 0 signature ≡ 0x100
unfolding find_sdt find_entry same_signature load32
found = refl
