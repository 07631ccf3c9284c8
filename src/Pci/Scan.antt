-- ===== src/Pci/Scan.antt =====
-- When the scan of src/common/pci.c ends, by the numbers that it takes for the buses behind bridges.
use muse.Base.{
  ap, ◌∙◌, refl, Bool, true, false, ==_ne, ℕ, zero, suc, ◌+◌, ◌≤◌, ◌<◌, ◌≡◌, ◌≢◌, Option, some,
  List, arith, if◌then◌else◌, ℕ_discrete,
}
use muse.Pci.{
  Handler, read_func, behind, init_function, ◌>>=◌, secondary_bus, scan_pci_func, scan_funcs,
  scan_pci_dev, scan_slots, scan_pci_bus,
}

-- The number that the scan takes for the bus behind a bridge, bits 18 to 25 of the register at 0x18,
-- is larger than that of the bridge's bus. (The number of the secondary bus is in bits 8 to 15.)
abbrev pub Ascending : (ℕ → ℕ) → Type 0
Ascending config =
    (bus slot func : ℕ)
    → bus < 256
    → slot < 32
    → func < 8
    → (read_func config bus slot func).vendor ≢ 0xFFFF
    → (read_func config bus slot func).type ≡ 1
    → bus < secondary_bus config bus slot func

-- a call that ends
abbrev pub Ends : {A : Type 0} → Option A → Type 0
Ends {A} call = (a : A) × (call ≡ some a)

bind-Ends :
    {A B : Type 0} (m : Option A) (f : A → Option B)
    → Ends m
    → ((a : A) → Ends (f a))
    → Ends (m >>= f)
bind-Ends m f (a, e) rest = let (b, done) = rest a in (b, ap (λ t. t >>= f) e ∙ done)

if-Ends : {A : Type 0} (b : Bool) (x y : Option A) → Ends x → Ends y → Ends (if b then x else y)
if-Ends true x y ends other = ends
if-Ends false x y other ends = ends

secondary_bus_lt : (config : ℕ → ℕ) (bus slot func : ℕ) → secondary_bus config bus slot func < 256
unfolding secondary_bus
secondary_bus_lt config bus slot func = omega arith

module _ {S : Type 0} (config : ℕ → ℕ) (handlers : List (Handler S)) where
  -- a scan that ends on each bus above `bus`
  abbrev EndsAbove : (ℕ → S → Option S) → ℕ → Type 0
  EndsAbove scan bus = (next : ℕ) → bus < next → next < 256 → (s : S) → Ends (scan next s)

  behind-Ends :
      (scan : ℕ → S → Option S) (bus slot func : ℕ) (s : S)
      → Ascending config
      → EndsAbove scan bus
      → bus < 256
      → slot < 32
      → func < 8
      → (read_func config bus slot func).vendor ≢ 0xFFFF
      → Ends (behind config handlers scan bus slot func (read_func config bus slot func) s)
  unfolding behind
  behind-Ends scan bus slot func s up ends in_bus in_slot in_func present =
      elim (ℕ_discrete (read_func config bus slot func).type 1) [
        | yes bridge ↦
            let (t, e) =
              ends (secondary_bus config bus slot func)
                (up bus slot func in_bus in_slot in_func present bridge)
                (secondary_bus_lt config bus slot func) s in
            (t, rw bridge e)
        | no other ↦ (s, rw (==_ne _ _ other) refl)
      ]

  scan_pci_func-Ends :
      (scan : ℕ → S → Option S) (bus slot func : ℕ) (s : S)
      → Ascending config
      → EndsAbove scan bus
      → bus < 256
      → slot < 32
      → func < 8
      → Ends (scan_pci_func config handlers scan bus slot func s)
  unfolding scan_pci_func
  scan_pci_func-Ends scan bus slot func s up ends in_bus in_slot in_func =
      let fn = read_func config bus slot func in
      elim (ℕ_discrete fn.vendor 0xFFFF) [
        | yes e ↦ ((fn, s), rw e refl)
        | no present ↦
            let (r, found) =
              bind-Ends _ (λ t. some (fn, init_function handlers fn t))
                (behind-Ends scan bus slot func s up ends in_bus in_slot in_func present)
                (λ t. (_, refl)) in
            (r, rw (==_ne _ _ present) found)
      ]

  scan_funcs-Ends :
      (scan : ℕ → S → Option S) (left bus slot i : ℕ) (s : S)
      → Ascending config
      → EndsAbove scan bus
      → bus < 256
      → slot < 32
      → i + left ≤ 8
      → Ends (scan_funcs config handlers scan left bus slot i s)
  unfolding scan_funcs
  scan_funcs-Ends scan zero bus slot i s up ends in_bus in_slot fit = (_, refl)
  scan_funcs-Ends scan (suc left) bus slot i s up ends in_bus in_slot fit =
      bind-Ends _ _ (scan_pci_func-Ends scan bus slot i s up ends in_bus in_slot (omega arith))
        λ found.
          if-Ends _ _ _ (_, refl)
            (bind-Ends _ _
              (scan_funcs-Ends scan left bus slot (i + 1) found.1 up ends in_bus in_slot
                (omega arith))
              λ more. (_, refl))

  scan_pci_dev-Ends :
      (scan : ℕ → S → Option S) (bus slot : ℕ) (s : S)
      → Ascending config
      → EndsAbove scan bus
      → bus < 256
      → slot < 32
      → Ends (scan_pci_dev config handlers scan bus slot s)
  unfolding scan_pci_dev
  scan_pci_dev-Ends scan bus slot s up ends in_bus in_slot =
      bind-Ends _ _ (scan_pci_func-Ends scan bus slot 0 s up ends in_bus in_slot (omega arith))
        λ found.
          if-Ends _ _ _ (_, refl)
            (bind-Ends _ _
              (if-Ends found.0.multi_function _ _
                (scan_funcs-Ends scan 7 bus slot 1 found.1 up ends in_bus in_slot (omega arith))
                (_, refl))
              λ more. (_, refl))

  scan_slots-Ends :
      (scan : ℕ → S → Option S) (left bus i : ℕ) (s : S)
      → Ascending config
      → EndsAbove scan bus
      → bus < 256
      → i + left ≤ 32
      → Ends (scan_slots config handlers scan left bus i s)
  unfolding scan_slots
  scan_slots-Ends scan zero bus i s up ends in_bus fit = (_, refl)
  scan_slots-Ends scan (suc left) bus i s up ends in_bus fit =
      bind-Ends _ _ (scan_pci_dev-Ends scan bus i s up ends in_bus (omega arith))
        λ found. scan_slots-Ends scan left bus (i + 1) found.1 up ends in_bus (omega arith)

  -- `scan_pci_bus` ends if at each bridge bits 18 to 25 of the register at 0x18, which the code takes
  -- for the number of the bus behind it, are a larger number than that of the bridge's own bus: it
  -- then needs no more rounds than there are buses from `bus` on, of 256. The secondary bus of a
  -- bridge is in bits 8 to 15 of that register, so this is no statement about how buses are numbered.
  pub scan_pci_bus-Ends :
      (fuel bus : ℕ) (s : S)
      → Ascending config
      → bus < 256
      → 256 ≤ bus + fuel
      → Ends (scan_pci_bus config handlers fuel bus s)
  unfolding scan_pci_bus
  scan_pci_bus-Ends zero bus s up lt enough = absurd (omega arith)
  scan_pci_bus-Ends (suc fuel) bus s up lt enough =
      scan_slots-Ends (scan_pci_bus config handlers fuel) 32 bus 0 s up
        (λ next above small t. scan_pci_bus-Ends fuel next t up small (omega arith)) lt
        (omega arith)
