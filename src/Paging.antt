-- ===== src/Paging.antt =====
-- The page tables of src/common/paging.c, with the recursive ("loopback") mapping of the directory.
-- A load or store goes through the translation of the processor; the TLB is not modelled.
pub mod Entry
pub mod Fields
pub mod Walk
pub mod Map
pub mod Fresh
pub mod Address
mod Tests
use muse.Base.{
  ℕ, zero, suc, ◌+◌, ◌-◌, ◌*◌, ◌/◌, ◌%◌, ◌^◌, bit_and, Bool, true, false, ◌&&◌, Option, none, some,
  List, if◌then◌else◌, shr, update, u32,
}
use muse.Base.Memory.{Bytes}
use muse.Frames.{Region, kpage_alloc}
use Entry.{addr_mask, is_present, is_user, set_addr, create_paging_entry}

-- The memory words at their physical addresses, the control registers, and the page allocator.
pub record Machine : Type 0 where
  pub phys : ℕ → ℕ
  pub cr3 : ℕ
  pub enabled : Bool
  pub regions : List Region
  pub bitmaps : Bytes

-- PG_DIR_IDX and PG_TBL_IDX
abbrev pub pg_dir_idx : ℕ → ℕ
pg_dir_idx x = shr x 22

abbrev pub pg_tbl_idx : ℕ → ℕ
pg_tbl_idx x = bit_and (shr x 12) 0x3FF

-- LOOPBACK_DIR, LOOPBACK_TBL(I) and the address of an array's word `i`
abbrev pub loopback_dir : ℕ
loopback_dir = 0xFFFF_F000

abbrev pub loopback_tbl : ℕ → ℕ
loopback_tbl i = 0xFFC0_0000 + i * 2 ^ 12

abbrev pub word : ℕ → ℕ → ℕ
word base i = base + 4 * i

-- The physical address of `v`: itself until paging is enabled, then two levels of tables.
unfoldable pub translate : Machine → ℕ → ℕ
translate s v =
    if s.enabled
    then bit_and
        (s.phys (word (bit_and (s.phys (word s.cr3 (pg_dir_idx v))) addr_mask) (pg_tbl_idx v)))
        addr_mask
      + v % 2 ^ 12
    else v

unfoldable pub load : Machine → ℕ → ℕ
load s v = s.phys (translate s v)

pub store : Machine → ℕ → ℕ → Machine
store s v x = record s { phys = update s.phys (translate s v) x }

-- `for (i = ...; i < 1024; i++) table[i] = 0`, `n` rounds from `i`
pub clear : ℕ → Machine → ℕ → ℕ → Machine
clear zero s table i = s
clear (suc n) s table i = clear n (store s (word table i) 0) table (i + 1)

-- `none` is the halt of `kpage_alloc`.
pub check_or_insert_table_structure : Machine → ℕ → ℕ → Bool → Option (ℕ × Machine)
check_or_insert_table_structure s directory addr user =
    if is_present (load s (word directory (pg_dir_idx addr)))
    then some (pg_dir_idx addr, s)
    else elim (kpage_alloc s.regions s.bitmaps) [
      | none ↦ none
      | some (table, bitmaps) ↦
          let cleared = clear 1024 (record s { bitmaps = bitmaps }) table 0 in
          some (
            pg_dir_idx addr,
            store cleared (word directory (pg_dir_idx addr))
                (create_paging_entry table true true user),
          )
    ]

pub modify_or_insert_page_structure : Machine → ℕ → ℕ → ℕ → Bool → Machine × Bool
modify_or_insert_page_structure s table vaddr paddr user =
    let at = word table (pg_tbl_idx vaddr) in
    if is_present (load s at)
    then (store s at (set_addr (load s at) paddr), true)
    else (store s at (create_paging_entry paddr true true user), false)

pub map_page : Machine → ℕ → ℕ → Option Machine
map_page s vaddr paddr = elim (check_or_insert_table_structure s loopback_dir vaddr true) [
  | none ↦ none
  | some (index, t) ↦
      some (modify_or_insert_page_structure t (loopback_tbl index) vaddr paddr true).0
]

pub map_page_inactive : Machine → ℕ → ℕ → ℕ → Option Machine
map_page_inactive s directory vaddr paddr =
    elim (check_or_insert_table_structure s directory vaddr true) [
      | none ↦ none
      | some (index, t) ↦
          some
            (modify_or_insert_page_structure t (bit_and (load t (word directory index)) addr_mask)
              vaddr paddr false).0
    ]

-- `pages` rounds from page `i`
pub map_page_range_inactive : ℕ → Machine → ℕ → ℕ → ℕ → ℕ → Option Machine
map_page_range_inactive zero s directory vaddr paddr i = some s
map_page_range_inactive (suc pages) s directory vaddr paddr i =
    elim (map_page_inactive s directory (u32 (vaddr + i * 4096)) (u32 (paddr + i * 4096))) [
      | none ↦ none
      | some t ↦ map_page_range_inactive pages t directory vaddr paddr (i + 1)
    ]

pub unmap_page : Machine → ℕ → Machine
unmap_page s vaddr =
    if is_present (load s (word loopback_dir (pg_dir_idx vaddr)))
    then store s (word (loopback_tbl (pg_dir_idx vaddr)) (pg_tbl_idx vaddr)) 0
    else s

unfoldable pub get_page_entry : Machine → ℕ → ℕ
get_page_entry s vaddr = load s (word (loopback_tbl (pg_dir_idx vaddr)) (pg_tbl_idx vaddr))

pub get_page_mapping : Machine → ℕ → ℕ
get_page_mapping s vaddr =
    if is_present (load s (word loopback_dir (pg_dir_idx vaddr)))
    then (let entry = get_page_entry s vaddr in
        if is_present entry then bit_and entry addr_mask else 0)
    else 0

-- whether the processor can read at `v`: both entries of the walk are present
unfoldable pub is_mapped : Machine → ℕ → Bool
is_mapped s v =
    let table = s.phys (word s.cr3 (pg_dir_idx v)) in
    let entry = s.phys (word (bit_and table addr_mask) (pg_tbl_idx v)) in
    if s.enabled then is_present table && is_present entry else true

-- `none` is the page fault, at which the kernel halts, where the address has no page table.
unfoldable pub check_user : Machine → ℕ → Option Bool
check_user s vaddr =
    let entry = get_page_entry s vaddr in
    if is_mapped s (word (loopback_tbl (pg_dir_idx vaddr)) (pg_tbl_idx vaddr))
    then some (is_present entry && is_user entry)
    else none
