-- ===== src/User.antt =====
-- What the kernel does for a program: the checks of user pointers in src/kernel/userspace.c and the
-- file calls and `sbrk` of src/kernel/syscall.c, on the active context. `vfs_open` and the inode's
-- backend functions are arguments of the calls that use them. Pages are those of `Paging`.
pub mod Pointers
pub mod Descriptors
mod Tests
use muse.Base.{
  ℕ, zero, suc, ◌+◌, ◌-◌, ◌*◌, ◌%◌, ◌^◌, bit_and, Bool, true, false, ◌&&◌, Option, none, some, List,
  ltb, leb, ◌==◌, if◌then◌else◌, u8, u32, sub32, get_or, set, update, not,
}
use muse.Base.Memory.{Bytes}
use muse.Frames.{kpage_alloc, kpage_set_status}
use muse.Paging.{Machine, check_user, map_page, get_page_mapping}

-- ALIGN_PG_DOWN and ALIGN_PG_UP
abbrev pub align_pg_down : ℕ → ℕ
align_pg_down x = x - x % 4096

abbrev pub align_pg_up : ℕ → ℕ
align_pg_up x = if ltb 0 (x % 4096) then u32 (align_pg_down x + 4096) else x

-- what a caller of `check_user` does: after a page fault nothing
abbrev pub after_check {ℓ} : {A : Type ℓ} → Option Bool → Option A → Option A → Option A
after_check none passed refused = none
after_check (some true) passed refused = passed
after_check (some false) passed refused = refused

-- The loops of `clean_string`, on fuel; 0 is the null pointer.
pub scan_string : ℕ → Machine → Bytes → ℕ → ℕ → ℕ → Option ℕ
scan_string zero s m str_a str page = none
scan_string (suc fuel) s m str_a str page =
    let next = u32 (page + 4096) in
    let further = scan_string fuel s m str_a (u32 (str + 1)) page in
    let turned = scan_string fuel s m str_a str next in
    if ltb str next
    then (if m str == 0 then some str_a else further)
    else after_check (check_user s next) turned (some 0)

pub clean_string : ℕ → Machine → Bytes → ℕ → Option ℕ
clean_string fuel s m str_a =
    let page = align_pg_down str_a in
    after_check (check_user s page) (scan_string fuel s m str_a str_a page) (some 0)

-- The loop of `clean_data`, on fuel: whether every page passed.
pub check_pages : ℕ → Machine → ℕ → ℕ → Option Bool
check_pages zero s pg end = none
check_pages (suc fuel) s pg end =
    let rest = check_pages fuel s (u32 (pg + 4096)) end in
    if ltb pg end then after_check (check_user s pg) rest (some false) else some true

pub clean_data : ℕ → Machine → ℕ → ℕ → Option ℕ
clean_data fuel s ptr size =
    elim (check_pages fuel s (align_pg_down ptr) (align_pg_up (u32 (ptr + size)))) [
      | none ↦ none
      | some passed ↦ some (if passed then ptr else 0)
    ]

-- `struct vfs_inode`, its fields that the calls use
pub record Inode : Type 0 where
  pub present : Bool
  pub refs : ℕ
  pub size : ℕ
  pub backend_data : ℕ

-- `struct file`
pub record File : Type 0 where
  pub inode : ℕ
  pub pos : ℕ
  pub mode : ℕ

-- The active context's files and limit, the inodes at their addresses, and the address space.
pub record Process : Type 0 where
  pub files : List File
  pub limit : ℕ
  pub inodes : ℕ → Inode
  pub machine : Machine

-- FOPEN_MAX and the modes
abbrev pub fopen_max : ℕ
fopen_max = 16

abbrev pub mode_append : ℕ
mode_append = 4

abbrev pub mode_truncate : ℕ
mode_truncate = 8

abbrev pub no_file : File
no_file = record { inode = 0; pos = 0; mode = 0 }

-- `active_ctx->files[i]`
abbrev pub file : Process → ℕ → File
file p i = get_or p.files i no_file

abbrev pub set_file : Process → ℕ → File → Process
set_file p i f = record p { files = set p.files i f }

-- -1 as the uint32_t that a call returns
abbrev pub minus_one : ℕ
minus_one = 2 ^ 32 - 1

-- The search of `syscall_open` for a free descriptor, with `left` of them left from `i` on.
pub free_descriptor : ℕ → List File → ℕ → Option ℕ
free_descriptor zero files i = none
free_descriptor (suc left) files i =
    let rest = free_descriptor left files (i + 1) in
    if (get_or files i no_file).mode == 0 then some i else rest

-- `syscall_open` on the results of `clean_string` and `vfs_open`
pub syscall_open : (Process → ℕ → Process) → (ℕ → ℕ) → Process → ℕ → ℕ → Process × ℕ
syscall_open truncate vfs_open p path mode_arg =
    let mode = u8 mode_arg in
    let inode = vfs_open path in
    let node = p.inodes inode in
    let counted = record p {
      inodes = update p.inodes inode (record node { refs = u32 (node.refs + 1) });
    } in
    let opened : Process × ℕ = elim (free_descriptor fopen_max p.files 0) [
      | none ↦ (counted, minus_one)
      | some i ↦
          let q = set_file counted i (record {
            inode = inode;
            pos = if bit_and mode mode_append == 0 then 0 else node.size;
            mode = mode;
          }) in
          (if bit_and mode mode_truncate == 0 then q else truncate q inode, i)
    ] in
    if path == 0 then (p, minus_one) else if inode == 0 then (p, minus_one) else opened

-- `syscall_transfer` on the result of `clean_data`; `write` is its direction.
pub syscall_transfer :
    (Process → ℕ → ℕ → ℕ → ℕ → Bool → Process × ℕ) → Process → ℕ → ℕ → ℕ → Process × ℕ
syscall_transfer transfer p fd_arg size ptr =
    let write = leb (2 ^ 31) fd_arg in
    let fd = if write then sub32 0 fd_arg else fd_arg in
    let f = file p fd in
    let (q, n) = transfer p f.inode f.pos size ptr write in
    if leb fopen_max fd && ltb fd (2 ^ 31)
    then (p, minus_one)
    else if ptr == 0
    then (p, minus_one)
    else (set_file q fd (record (file q fd) { pos = u32 ((file q fd).pos + n) }), n)

-- `syscall_seek`; the whence values are SEEK_SET, SEEK_CUR and SEEK_END.
pub syscall_seek : Process → ℕ → ℕ → ℕ → Process × ℕ
syscall_seek p fd offset whence =
    let f = file p fd in
    let pos =
      if whence == 0
      then offset
      else if whence == 1
      then u32 (f.pos + offset)
      else if whence == 2
      then u32 (sub32 (p.inodes f.inode).size 1 + offset)
      else f.pos in
    let q = set_file p fd (record f { pos = pos }) in (q, (file q fd).pos)

-- `syscall_close`; `kfree` is what freeing the backend data does.
pub syscall_close : (Process → ℕ → Process) → Process → ℕ → Process × ℕ
syscall_close kfree p fd =
    let inode = (file p fd).inode in
    let node = p.inodes inode in
    let refs = sub32 node.refs 1 in
    let closed = set_file p fd (record { inode = inode; pos = 0; mode = 0 }) in
    let dropped = record closed { inodes = update p.inodes inode (record node { refs = refs }) } in
    let freed = kfree dropped node.backend_data in
    let gone = record freed {
      inodes = update freed.inodes inode (record (freed.inodes inode) { present = false });
    } in
    let last = if refs == 0 then gone else dropped in
    (set_file last fd (record (file last fd) { inode = 0 }), 0)

-- The first loop of `syscall_sbrk`, on fuel: pages are mapped up to `goal`.
pub grow : ℕ → Process → ℕ → Option Process
grow zero p goal = none
grow (suc fuel) p goal =
    let limit = u32 (p.limit + 4096) in
    let rest : Option Process = elim (kpage_alloc p.machine.regions p.machine.bitmaps) [
      | none ↦ none
      | some (frame, bitmaps) ↦
          elim (map_page (record p.machine { bitmaps = bitmaps }) (align_pg_down (sub32 limit 1))
            frame) [
              | none ↦ none
              | some t ↦ grow fuel (record p { limit = limit; machine = t }) goal
            ]
    ] in
    if ltb (align_pg_down (sub32 p.limit 1)) goal then rest else some p

-- The second loop: the status of pages down to `goal` is set.
pub shrink : ℕ → Process → ℕ → Option Process
shrink zero p goal = none
shrink (suc fuel) p goal =
    let limit = sub32 p.limit 4096 in
    let bitmaps =
      kpage_set_status p.machine.regions p.machine.bitmaps (get_page_mapping p.machine limit)
        false in
    let rest =
      shrink fuel (record p { limit = limit; machine = record p.machine { bitmaps = bitmaps } })
        goal in
    if ltb goal (align_pg_down (sub32 p.limit 1)) then rest else some p

-- `syscall_sbrk`; `inc` is a 32-bit pattern.
pub syscall_sbrk : ℕ → Process → ℕ → Option (Process × ℕ)
syscall_sbrk fuel p inc =
    let end = u32 (p.limit + inc) in
    let goal = align_pg_down (sub32 end 1) in
    elim (grow fuel p goal) [
      | none ↦ none
      | some q ↦ elim (shrink fuel q goal) [
        | none ↦ none
        | some r ↦ some (record r { limit = end }, p.limit)
      ]
    ]
