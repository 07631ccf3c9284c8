-- ===== src/Pci.antt =====
-- The scan of the PCI buses, src/common/pci.c. The configuration space is a parameter: `config a` is
-- what a read of the data port gives after `a` is written to the address port. What the handlers of
-- drivers do is a parameter too, on a state of their own. Messages are left out.
pub mod Address
pub mod Scan
mod Tests
use muse.Base.{
  length, ℕ, zero, suc, ◌+◌, ◌-◌, ◌*◌, ◌^◌, Bool, true, false, Option, none, some, List, [], ◌∷◌,
  ◌++◌, ◌==◌, not, ◌&&◌, if◌then◌else◌, bit_and, bit_or, shr, u8, u16,
}

-- `enum pci_bar_type`, `struct pci_bar`, `struct pci_func` and `struct pci_dev`, with lists for the
-- parts of the arrays that are set
pub data BarType : Type 0 where
  bar_mem bar_io : BarType

pub record Bar : Type 0 where
  pub type : BarType
  pub addr : ℕ

pub record Func : Type 0 where
  pub vendor : ℕ
  pub class_code : ℕ
  pub subclass_code : ℕ
  pub prog_if : ℕ
  pub type : ℕ
  pub multi_function : Bool
  pub bars : List Bar

pub record Dev : Type 0 where
  pub bus : ℕ
  pub slot : ℕ
  pub funcs : List Func

-- `struct pci_handler`; the list of them is a list
pub record Handler (S : Type 0) : Type 0 where
  pub class_code : ℕ
  pub subclass_code : ℕ
  pub init : Func → S → S

-- one call after another
infixl 5 ◌>>=◌
abbrev pub ◌>>=◌ : {A B : Type 0} → Option A → (A → Option B) → Option B
none >>= f = none
some a >>= f = f a

module _ {S : Type 0} where
  pub pci_register_handler : List (Handler S) → Handler S → List (Handler S)
  pci_register_handler handlers handler = handlers ++ handler ∷ []

  pub init_function : List (Handler S) → Func → S → S
  init_function [] fn s = s
  init_function (h ∷ hs) fn s = init_function hs fn (
      if h.class_code == fn.class_code && h.subclass_code == fn.subclass_code
      then h.init fn s
      else s)

module _ (config : ℕ → ℕ) where
  pub pci_config_read : ℕ → ℕ → ℕ → ℕ → ℕ
  pci_config_read bus slot func offset = config (
      bit_or (bit_or (bit_or (bit_or 0x8000_0000 (bus * 2 ^ 16)) (slot * 2 ^ 11)) (func * 2 ^ 8))
        offset)

  pub get_bar : ℕ → ℕ → ℕ → ℕ → Bar
  get_bar bus slot func idx =
      let reg = pci_config_read bus slot func (u8 (0x10 + idx * 4)) in
      if bit_and reg 1 == 0
      then record { type = bar_mem; addr = bit_and reg 0xFFFF_FFF0 }
      else record { type = bar_io; addr = bit_and reg 0xFFFF_FFFC }

  -- the first `n` bars from `i` on
  pub get_bars : ℕ → ℕ → ℕ → ℕ → ℕ → List Bar
  get_bars zero bus slot func i = []
  get_bars (suc n) bus slot func i = get_bar bus slot func i ∷ get_bars n bus slot func (i + 1)

  pub vendor_id : ℕ → ℕ → ℕ → ℕ
  vendor_id bus slot func = u16 (pci_config_read bus slot func 0)

  pub header_type : ℕ → ℕ → ℕ → ℕ
  header_type bus slot func = u8 (shr (pci_config_read bus slot func 0xC) 16)

  pub secondary_bus : ℕ → ℕ → ℕ → ℕ
  secondary_bus bus slot func = u8 (shr (pci_config_read bus slot func 0x18) 18)

  -- The function as `scan_pci_func` returns it. Without a vendor the rest is not set, nor read.
  pub read_func : ℕ → ℕ → ℕ → Func
  read_func bus slot func =
      let class = pci_config_read bus slot func 8 in
      let header = header_type bus slot func in
      let type = bit_and header 0x7F in
      let count = if type == 0 then 6 else if type == 1 then 2 else 0 in
      record {
        vendor = vendor_id bus slot func;
        class_code = u8 (shr class 24);
        subclass_code = u8 (shr class 16);
        prog_if = u8 (shr class 8);
        type = type;
        multi_function = not (bit_and header 0x80 == 0);
        bars = get_bars count bus slot func 0;
      }

  module _ {S : Type 0} (handlers : List (Handler S)) where
    -- the scan of the bus behind a bridge by `scan`, and the handlers of the function
    pub behind : (ℕ → S → Option S) → ℕ → ℕ → ℕ → Func → S → Option S
    behind scan bus slot func fn s =
        if fn.type == 1 then scan (secondary_bus bus slot func) s else some s

    pub scan_pci_func : (ℕ → S → Option S) → ℕ → ℕ → ℕ → S → Option (Func × S)
    scan_pci_func scan bus slot func s =
        let fn = read_func bus slot func in
        let found : Option (Func × S) =
          behind scan bus slot func fn s >>= λ t. some (fn, init_function handlers fn t) in
        if fn.vendor == 0xFFFF then some (fn, s) else found

    -- the loop of `scan_pci_dev`, with `left` functions left from `i` on
    pub scan_funcs : (ℕ → S → Option S) → ℕ → ℕ → ℕ → ℕ → S → Option (List Func × S)
    scan_funcs scan zero bus slot i s = some ([], s)
    scan_funcs scan (suc left) bus slot i s = scan_pci_func scan bus slot i s >>= λ found.
        let rest : Option (List Func × S) =
          scan_funcs scan left bus slot (i + 1) found.1 >>= λ more.
          some (found.0 ∷ more.0, more.1) in
        if found.0.vendor == 0xFFFF then some ([], found.1) else rest

    -- `scan_pci_dev`; the null pointer is `none` in the pair
    pub scan_pci_dev : (ℕ → S → Option S) → ℕ → ℕ → S → Option (Option Dev × S)
    scan_pci_dev scan bus slot s = scan_pci_func scan bus slot 0 s >>= λ found.
        let more : Option (List Func × S) =
          if found.0.multi_function
          then scan_funcs scan 7 bus slot 1 found.1
          else some ([], found.1) in
        let dev : Option (Option Dev × S) = more >>= λ rest.
        some (some (record { bus = bus; slot = slot; funcs = found.0 ∷ rest.0 }), rest.1) in
        if found.0.vendor == 0xFFFF then some (none, found.1) else dev

    -- the loop of `scan_pci_bus`, with `left` slots left from `i` on; its result is not used
    pub scan_slots : (ℕ → S → Option S) → ℕ → ℕ → ℕ → S → Option S
    scan_slots scan zero bus i s = some s
    scan_slots scan (suc left) bus i s =
        scan_pci_dev scan bus i s >>= λ found. scan_slots scan left bus (i + 1) found.1

    -- `scan_pci_bus`, on fuel for the depth of the bridges
    pub scan_pci_bus : ℕ → ℕ → S → Option S
    scan_pci_bus zero bus s = none
    scan_pci_bus (suc fuel) bus s = scan_slots (scan_pci_bus fuel) 32 bus 0 s

    -- the loop of `init_pci`
    pub scan_buses : ℕ → ℕ → ℕ → S → Option S
    scan_buses fuel zero i s = some s
    scan_buses fuel (suc left) i s = scan_pci_bus fuel i s >>= scan_buses fuel left (i + 1)

    -- what `init_pci` does with the host bridge; without one it reads through a null pointer
    pub scan_all : ℕ → Option Dev × S → Option S
    scan_all fuel (none, s) = none
    scan_all fuel (some dev, s) = scan_buses fuel (length dev.funcs) 0 s

    pub init_pci : ℕ → S → Option S
    init_pci fuel s = scan_pci_dev (scan_pci_bus fuel) 0 0 s >>= scan_all fuel
