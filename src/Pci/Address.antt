-- ===== src/Pci/Address.antt =====
-- The address that `pci_config_read` of src/common/pci.c writes.
use muse.Base.{ℕ, ◌+◌, ◌*◌, ◌^◌, ◌<◌, ◌≡◌, ap, arith, bit_or}
use muse.Base.Bits.{bit_or_disjoint}
use muse.Pci.{pci_config_read}

-- The fields of the address do not overlap.
pub pci_config_read-sum :
    (config : ℕ → ℕ) (bus slot func offset : ℕ)
    → bus < 256
    → slot < 32
    → func < 8
    → offset < 256
    → pci_config_read config bus slot func offset
      ≡ config (2 ^ 31 + bus * 2 ^ 16 + slot * 2 ^ 11 + func * 2 ^ 8 + offset)
unfolding pci_config_read
pci_config_read-sum config bus slot func offset in_bus in_slot in_func small =
    let a : bit_or 0x8000_0000 (bus * 2 ^ 16) ≡ (2 ^ 15 + bus) * 2 ^ 16 =
      omega (arith, bit_or_disjoint 31 1 (bus * 2 ^ 16) (omega arith)) in
    let b : bit_or ((2 ^ 15 + bus) * 2 ^ 16) (slot * 2 ^ 11)
        ≡ ((2 ^ 15 + bus) * 2 ^ 5 + slot) * 2 ^ 11 =
      omega (arith, bit_or_disjoint 16 (2 ^ 15 + bus) (slot * 2 ^ 11) (omega arith)) in
    let c : bit_or (((2 ^ 15 + bus) * 2 ^ 5 + slot) * 2 ^ 11) (func * 2 ^ 8)
        ≡ (((2 ^ 15 + bus) * 2 ^ 5 + slot) * 2 ^ 3 + func) * 2 ^ 8 =
      omega
        (arith, bit_or_disjoint 11 ((2 ^ 15 + bus) * 2 ^ 5 + slot) (func * 2 ^ 8) (omega arith)) in
    let d : bit_or ((((2 ^ 15 + bus) * 2 ^ 5 + slot) * 2 ^ 3 + func) * 2 ^ 8) offset
        ≡ 2 ^ 31 + bus * 2 ^ 16 + slot * 2 ^ 11 + func * 2 ^ 8 + offset =
      omega
        (arith, bit_or_disjoint 8 (((2 ^ 15 + bus) * 2 ^ 5 + slot) * 2 ^ 3 + func) offset small) in
    ap config (rw (a, b, c) d)
