-- ===== src/Directories.antt =====
-- Page directories, the end of src/common/paging.c: the first directory, those of tasks and of
-- kernel contexts, and what becomes of a program's half. Pages come from `Kheap`, and what is
-- written to them goes through the translation of `Paging`.
use muse.Base.{
  ℕ, zero, suc, ◌+◌, ◌-◌, ◌/◌, ◌%◌, Bool, true, false, Option, none, some, List, [], ◌∷◌, ltb, ◌==◌,
  if◌then◌else◌, bit_and, bit_or, u32, sub32, not32,
}
use muse.Frames.{kpage_alloc, kpage_set_status}
use muse.Paging.Entry.{addr_mask, is_present, create_paging_entry}
use muse.Paging.{
  Machine, pg_dir_idx, pg_tbl_idx, loopback_dir, loopback_tbl, word, load, store, clear, map_page,
  map_page_range_inactive, unmap_page, get_page_mapping,
}
use muse.User.{align_pg_down, align_pg_up}
use muse.Kheap.{Kheap, kfree, kmalloc_aligned_multi, kmalloc_page}

-- `struct scroll` of the type SCROLL_ALIGNED; a list of them is a list
pub record Range : Type 0 where
  pub vaddr : ℕ
  pub size : ℕ
  pub page : ℕ

-- TASK_STACK_BASE, USER_STACK_BASE and MANUSCRIPT_BIND
abbrev pub task_stack_base : ℕ
task_stack_base = 0xFF8F_FFFF

abbrev pub user_stack_base : ℕ
user_stack_base = 0x1F_FFFF

abbrev pub manuscript_bind : ℕ
manuscript_bind = 0x400

-- the loop of `init_paging` over the scrolls
pub map_ranges : Machine → ℕ → List Range → Option Machine
map_ranges s directory [] = some s
map_ranges s directory (r ∷ rs) =
    elim (map_page_range_inactive (r.size / 4096) s directory r.vaddr r.page 0) [
      | none ↦ none
      | some t ↦ map_ranges t directory rs
    ]

-- `init_paging` up to `enable_paging`, which sets the control registers
pub init_paging : Machine → List Range → Option (Machine × ℕ)
init_paging s scrolls = elim (kpage_alloc s.regions s.bitmaps) [
  | none ↦ none
  | some (directory, bitmaps) ↦
      elim (map_ranges (clear 1024 (record s { bitmaps = bitmaps }) directory 0) directory
        scrolls) [
          | none ↦ none
          | some t ↦
              let u =
                store t (word directory 1023) (create_paging_entry directory true true true) in
              some (record u { cr3 = directory; enabled = true }, directory)
        ]
]

-- a load and a store through the kernel's address space
abbrev pub get : Kheap → ℕ → ℕ
get k v = load k.machine v

abbrev pub put : Kheap → ℕ → ℕ → Kheap
put k v x = record k { machine = store k.machine v x }

-- `kfree` and `unmap_page` of a page, in the order of `scroll_unmap`
pub scroll_unmap : Kheap → ℕ → ℕ → Kheap
scroll_unmap k vaddr page =
    let freed = kfree k vaddr in record freed { machine = unmap_page freed.machine page }

-- `for (i = ...; i < ...; i++) directory_virt[i] = LOOPBACK_DIR[i]`, `n` rounds from `i`
pub copy_directory : ℕ → Kheap → ℕ → ℕ → Kheap
copy_directory zero k directory i = k
copy_directory (suc n) k directory i =
    copy_directory n (put k (word directory i) (get k (word loopback_dir i))) directory (i + 1)

-- `directory_virt[i] = 0`, `n` rounds from `i`
pub clear_entries : ℕ → Kheap → ℕ → ℕ → Kheap
clear_entries n k directory i = record k { machine = clear n k.machine directory i }

-- The new stack: its page frame.
pub push_frame : Kheap → ℕ → Option (Kheap × ℕ)
push_frame k func_ptr = elim (kmalloc_page k) [
  | none ↦ none
  | some (g, virt, phys) ↦
      let stack = virt + task_stack_base % 4096 in
      let k1 = put g (stack - 4) func_ptr in
      let k2 = put (put (put k1 (stack - 8) 0) (stack - 12) 0) (stack - 16) 0 in
      let k3 = put k2 (stack - 20) task_stack_base in
      some (kfree (record k3 { machine = unmap_page k3.machine virt }) virt, phys)
]

-- The page table for a scroll's address, which is made if there is none: where it is mapped.
pub task_table : Kheap → ℕ → ℕ → Option (Kheap × ℕ)
task_table k directory index =
    let entry = get k (word directory index) in
    if bit_and entry manuscript_bind == 0
    then elim (kmalloc_page k) [
      | none ↦ none
      | some (g, virt, phys) ↦
          let bound = bit_or (create_paging_entry virt true true true) manuscript_bind in
          some (clear_entries 1024 (put g (word directory index) bound) virt 0, virt)
    ]
    else some (k, bit_and entry addr_mask)

-- the loop over the scrolls
pub add_scrolls : Kheap → ℕ → List Range → Option Kheap
add_scrolls k directory [] = some k
add_scrolls k directory (r ∷ rs) = elim (task_table k directory (pg_dir_idx r.vaddr)) [
  | none ↦ none
  | some (g, table) ↦
      add_scrolls
        (put g (word table (pg_tbl_idx r.vaddr)) (create_paging_entry r.page true true true))
        directory rs
]

-- The body of the loop of `bind_manuscript`: the address of a page table becomes its frame's.
pub bind_entry : Kheap → ℕ → Kheap
bind_entry k at =
    let entry = get k at in
    let table = bit_and entry addr_mask in
    let frame = get_page_mapping k.machine table in
    let bound = bit_or (bit_and entry (not32 addr_mask)) frame in
    let freed = kfree (put k at bound) table in
    let unmapped = record freed { machine = unmap_page freed.machine table } in
    put unmapped at (bit_and (get unmapped at) (not32 manuscript_bind))

-- its loop, `n` rounds from entry `i`
pub bind_entries : ℕ → Kheap → ℕ → ℕ → Kheap
bind_entries zero k manuscript i = k
bind_entries (suc n) k manuscript i =
    let at = word manuscript i in
    bind_entries n (if bit_and (get k at) manuscript_bind == 0 then k else bind_entry k at)
      manuscript (i + 1)

pub bind_manuscript : Kheap → ℕ → Kheap
bind_manuscript k manuscript =
    let bound = bind_entries 1024 k manuscript 0 in
    kfree (record bound { machine = unmap_page bound.machine manuscript }) manuscript

-- what both directories do once their entries are set, with the scrolls of their stacks
pub finish_directory : Kheap → ℕ → ℕ → List Range → Option (Kheap × ℕ)
finish_directory k virt phys scrolls = elim (add_scrolls k virt scrolls) [
  | none ↦ none
  | some g ↦ some (scroll_unmap (bind_manuscript g virt) virt phys, phys)
]

-- the scroll of the new stack
abbrev pub stack_scroll : ℕ → Range
stack_scroll phys = record { vaddr = align_pg_down task_stack_base; size = 4096; page = phys }

-- the user's stack, in front of the other scrolls
pub with_user_stack : Kheap → Bool → List Range → Option (Kheap × List Range)
with_user_stack k false scrolls = some (k, scrolls)
with_user_stack k true scrolls = elim (kpage_alloc k.machine.regions k.machine.bitmaps) [
  | none ↦ none
  | some (frame, bitmaps) ↦ some (
    record k { machine = record k.machine { bitmaps = bitmaps } },
    record { vaddr = align_pg_down user_stack_base; size = 4096; page = frame } ∷ scrolls,
  )
]

-- `create_task_directory`
pub create_task_directory : Kheap → ℕ → Bool → List Range → Option (Kheap × ℕ)
create_task_directory k func_ptr user scrolls = elim (kmalloc_page k) [
  | none ↦ none
  | some (g, virt, phys) ↦
      let halves = copy_directory 512 (clear_entries 512 g virt 0) virt 512 in
      let looped = put halves (word virt 1023) (create_paging_entry phys true true false) in
      elim (push_frame looped func_ptr) [
        | none ↦ none
        | some (h, stack) ↦ elim (with_user_stack h user (stack_scroll stack ∷ scrolls)) [
          | none ↦ none
          | some (i, all) ↦ finish_directory i virt phys all
        ]
      ]
]

-- `create_kernel_directory`
pub create_kernel_directory : Kheap → ℕ → List Range → Option (Kheap × ℕ)
create_kernel_directory k func_ptr scrolls = elim (kmalloc_page k) [
  | none ↦ none
  | some (g, virt, phys) ↦
      let halves = clear_entries 511 (copy_directory 512 g virt 0) virt 512 in
      let looped = put halves (word virt 1023) (create_paging_entry phys true true false) in
      elim (push_frame looped func_ptr) [
        | none ↦ none
        | some (h, stack) ↦ finish_directory h virt phys (stack_scroll stack ∷ scrolls)
      ]
]

-- the inner loop of `free_lower_half`, `n` rounds from entry `j` of a table
pub free_table : ℕ → Machine → ℕ → ℕ → Machine
free_table zero s table j = s
free_table (suc n) s table j =
    let entry = load s (word table j) in
    let freed =
      if is_present entry
      then record s {
        bitmaps = kpage_set_status s.regions s.bitmaps (bit_and entry addr_mask) true;
      }
      else s in
    free_table n (store freed (word table j) 0) table (j + 1)

-- the outer loop, `n` rounds from entry `i` of the directory
pub free_tables : ℕ → Machine → ℕ → Machine
free_tables zero s i = s
free_tables (suc n) s i =
    let emptied = free_table 512 s (loopback_tbl i) 0 in
    let released = record emptied {
      bitmaps = kpage_set_status emptied.regions emptied.bitmaps (loopback_tbl i) true;
    } in
    free_tables n
      (if is_present (load s (word loopback_dir i))
        then store released (word loopback_dir i) 0
        else s)
      (i + 1)

pub free_lower_half : Machine → Machine
free_lower_half s = free_tables 512 s 0

-- the loop of `map_phys_obj`, on fuel
pub map_region : ℕ → Machine → ℕ → ℕ → ℕ → ℕ → Option Machine
map_region zero s region first v limit = none
map_region (suc fuel) s region first v limit =
    let rest : Option Machine = elim (map_page s (sub32 (u32 (region + v)) first) v) [
      | none ↦ none
      | some t ↦ map_region fuel t region first (u32 (v + 4096)) limit
    ] in
    if ltb v limit then rest else some s

-- `map_phys_obj`: the address of the mapped object
pub map_phys_obj : ℕ → Kheap → ℕ → ℕ → Option (Kheap × ℕ)
map_phys_obj fuel k obj size =
    let first = align_pg_down obj in
    let limit = align_pg_up (u32 (obj + size)) in
    elim (kmalloc_aligned_multi k (sub32 limit first / 4096)) [
      | none ↦ none
      | some (g, region) ↦ elim (map_region fuel g.machine region first first limit) [
        | none ↦ none
        | some s ↦ some (record g { machine = s }, u32 (region + obj % 4096))
      ]
    ]
