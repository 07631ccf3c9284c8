-- ===== src/Pci/Tests.antt =====
-- A machine in which each function of bus 0 is a bridge to bus 1, and bus 1 is empty.
use muse.Base.{
  ℕ, ◌+◌, ◌*◌, ◌/◌, ◌%◌, ◌^◌, ◌<◌, ◌≡◌, ◌∙◌, refl, arith, [], ◌∷◌, ◌==◌, if◌then◌else◌, ℕ_discrete,
  ==_ne,
}
use muse.Pci.{Handler, pci_config_read, vendor_id, read_func, secondary_bus, scan_pci_bus}
use muse.Pci.Address.{pci_config_read-sum}
use muse.Pci.Scan.{Ascending, Ends, scan_pci_bus-Ends}

abbrev bridge : ℕ → ℕ
bridge offset =
    if offset == 0
    then 0x8086
    else if offset == 0xC
    then 0x10000
    else if offset == 0x18
    then 2 ^ 18
    else 0

abbrev config : ℕ → ℕ
config a = if a / 2 ^ 16 % 256 == 0 then bridge (a % 256) else 0xFFFF_FFFF

-- counts the bridges that are found
abbrev counter : Handler ℕ
counter = record { class_code = 0; subclass_code = 0; init = λ fn n. n + 1 }

reads :
    (bus slot func offset : ℕ)
    → bus < 256
    → slot < 32
    → func < 8
    → offset < 256
    → pci_config_read config bus slot func offset
      ≡ (if bus == 0 then bridge offset else 0xFFFF_FFFF)
reads bus slot func offset in_bus in_slot in_func small =
    pci_config_read-sum config bus slot func offset in_bus in_slot in_func small
    ∙ (let a = 2 ^ 31 + bus * 2 ^ 16 + slot * 2 ^ 11 + func * 2 ^ 8 + offset in
        let high : a / 2 ^ 16 % 256 ≡ bus = omega arith in
        let low : a % 256 ≡ offset = omega arith in rw (high, low) refl)

config-Ascending : Ascending config
unfolding read_func vendor_id secondary_bus
config-Ascending bus slot func in_bus in_slot in_func present is_bridge = elim (ℕ_discrete bus 0) [
  | yes zero_bus ↦
      let register : pci_config_read config bus slot func 0x18 ≡ 2 ^ 18 =
        reads bus slot func 0x18 in_bus in_slot in_func (omega arith) ∙ rw zero_bus refl in
      omega (arith, zero_bus, register)
  | no behind ↦
      let register : pci_config_read config bus slot func 0 ≡ 0xFFFF_FFFF =
        reads bus slot func 0 in_bus in_slot in_func (omega arith) ∙ rw (==_ne _ _ behind) refl in
      absurd (present (omega (arith, register)))
]

scan_pci_bus-Ends_example : Ends (scan_pci_bus config (counter ∷ []) 256 0 0)
scan_pci_bus-Ends_example =
    scan_pci_bus-Ends config (counter ∷ []) 256 0 0 config-Ascending (omega arith) (omega arith)
