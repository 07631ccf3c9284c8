-- ===== src/Elf.antt =====
-- Loading of ELF programs, src/common/elf.c: `parse_elf` after it has read the file, and
-- `load_elf_data`. The file's contents are bytes from 0 on. Page frames come from `Frames`; a write
-- through the page that `load_elf_data` maps goes to the frame it is mapped to.
pub mod Pages
mod Tests
use muse.Base.{
  ℕ, zero, suc, ◌+◌, ◌-◌, ◌*◌, ◌/◌, ◌%◌, Bool, true, false, ◌&&◌, Option, none, some, List, [], ◌∷◌,
  ◌++◌, ltb, ◌==◌, not, if◌then◌else◌, u32, sub32, update, max,
}
use muse.Base.Memory.{Bytes}
use muse.Frames.{Region, kpage_alloc}
use muse.User.{align_pg_down, align_pg_up}
use muse.Malloc.{load32}

-- `struct elf_program_header`, its fields that loading reads, at an offset of the file
pub record Segment : Type 0 where
  pub type : ℕ
  pub p_offset : ℕ
  pub p_vaddr : ℕ
  pub p_filesz : ℕ
  pub p_memsz : ℕ

pub program_header : Bytes → ℕ → Segment
program_header contents a = record {
  type = load32 contents a;
  p_offset = load32 contents (a + 4);
  p_vaddr = load32 contents (a + 8);
  p_filesz = load32 contents (a + 16);
  p_memsz = load32 contents (a + 20);
}

-- fields of `struct elf_header`
abbrev pub load16 : Bytes → ℕ → ℕ
load16 m a = m a + 256 * m (a + 1)

abbrev pub program_table_offset : Bytes → ℕ
program_table_offset contents = load32 contents 28

abbrev pub program_table_entry_size : Bytes → ℕ
program_table_entry_size contents = load16 contents 42

abbrev pub program_table_length : Bytes → ℕ
program_table_length contents = load16 contents 44

-- A `struct scroll` of one page: its address and its frame.
pub record Scroll : Type 0 where
  pub vaddr : ℕ
  pub page : ℕ

-- What `parse_elf` builds: the scrolls in order, the limit, and the allocator's bitmaps.
pub record Image : Type 0 where
  pub scrolls : List Scroll
  pub limit : ℕ
  pub bitmaps : Bytes

-- The pages of a segment, as `parse_elf` computes them.
pub first_page : Segment → ℕ
first_page s = s.p_vaddr - s.p_vaddr % 4096

pub limit_page : Segment → ℕ
limit_page s =
    let vaddr_end = u32 (s.p_vaddr + s.p_memsz) in u32 (vaddr_end + 4096 - vaddr_end % 4096)

-- `for (p = first_page; p < limit_page; p += PAGE_SIZE)`, on fuel
pub reserve_pages : ℕ → List Region → Image → ℕ → ℕ → Option Image
reserve_pages zero regions image p end = none
reserve_pages (suc fuel) regions image p end =
    let rest : Option Image = elim (kpage_alloc regions image.bitmaps) [
      | none ↦ none
      | some (frame, bitmaps) ↦
          reserve_pages fuel regions
            (record image {
              scrolls = image.scrolls ++ record { vaddr = p; page = frame } ∷ [];
              bitmaps = bitmaps;
            })
            (u32 (p + 4096)) end
    ] in
    if ltb p end then rest else some image

-- one round of the loop over the program table
pub parse_segment : ℕ → List Region → Image → Segment → Option Image
parse_segment fuel regions image s =
    if s.type == 1
    then elim (reserve_pages fuel regions image (first_page s) (limit_page s)) [
      | none ↦ none
      | some next ↦ some (record next {
        limit = if ltb next.limit (limit_page s) then limit_page s else next.limit;
      })
    ]
    else some image

-- The loop over the program table, on fuel, with `inner` for each segment.
pub parse_table : ℕ → ℕ → List Region → Bytes → Image → ℕ → ℕ → Option Image
parse_table zero inner regions contents image offset end = none
parse_table (suc fuel) inner regions contents image offset end =
    let rest : Option Image =
      elim (parse_segment inner regions image (program_header contents offset)) [
        | none ↦ none
        | some next ↦
            parse_table fuel inner regions contents next
              (u32 (offset + program_table_entry_size contents)) end
      ] in
    if ltb offset end then rest else some image

-- `parse_elf`, once the file is in memory
pub parse_elf : ℕ → List Region → Bytes → Bytes → Option Image
parse_elf fuel regions contents bitmaps =
    parse_table fuel fuel regions contents (record { scrolls = []; limit = 0; bitmaps = bitmaps })
      (program_table_offset contents)
      (u32 (
        program_table_offset contents
        + program_table_length contents * program_table_entry_size contents))

-- The number of pages of a segment that `load_elf_data` fills.
pub page_count : Segment → ℕ
page_count s = sub32 (align_pg_up (u32 (s.p_vaddr + s.p_memsz))) (first_page s) / 4096

-- The loop that copies the file's bytes to one page: physical memory, `data_offset`, `file_offset`.
pub copy_page : ℕ → Bytes → Segment → ℕ → Bytes × ℕ × ℕ → Bytes × ℕ × ℕ
copy_page zero contents s frame st = st
copy_page (suc fuel) contents s frame (phys, data_offset, file_offset) =
    let rest = copy_page fuel contents s frame (
      update phys (frame + data_offset) (contents file_offset),
      data_offset + 1,
      u32 (file_offset + 1),
    ) in
    if ltb (sub32 file_offset s.p_offset) s.p_filesz && ltb data_offset 4096
    then rest
    else (phys, data_offset, file_offset)

-- The loop that clears the rest of the page.
pub zero_page : ℕ → Segment → ℕ → Bytes × ℕ → Bytes × ℕ
zero_page zero s frame st = st
zero_page (suc fuel) s frame (phys, data_offset) =
    let rest = zero_page fuel s frame (update phys (frame + data_offset) 0, data_offset + 1) in
    if ltb (sub32 data_offset s.p_offset) s.p_memsz && ltb data_offset 4096
    then rest
    else (phys, data_offset)

-- The loop over the pages of a segment, which moves along the scrolls; `none` is the use of the null
-- pointer behind the last one.
pub load_pages : ℕ → Bytes → Segment → Bytes × ℕ × ℕ → List Scroll → Option (Bytes × List Scroll)
load_pages zero contents s (phys, data_offset, file_offset) scrolls = some (phys, scrolls)
load_pages (suc left) contents s st [] = none
load_pages (suc left) contents s st (scroll ∷ scrolls) =
    let (phys, data_offset, file_offset) = copy_page 4097 contents s scroll.page st in
    let (cleared, end) = zero_page 4097 s scroll.page (phys, data_offset) in
    load_pages left contents s (cleared, 0, file_offset) scrolls

-- One round of the loop of `load_elf_data` over the program table.
pub load_segment : Bytes → Segment → Bytes → List Scroll → Option (Bytes × List Scroll)
load_segment contents s phys scrolls =
    if s.type == 1
    then load_pages (page_count s) contents s (phys, sub32 s.p_vaddr (first_page s), s.p_offset)
        scrolls
    else some (phys, scrolls)

-- The loop, on fuel.
pub load_table : ℕ → Bytes → Bytes → List Scroll → ℕ → ℕ → Option Bytes
load_table zero contents phys scrolls offset end = none
load_table (suc fuel) contents phys scrolls offset end =
    let rest : Option Bytes =
      elim (load_segment contents (program_header contents offset) phys scrolls) [
        | none ↦ none
        | some (next, left) ↦
            load_table fuel contents next left (u32 (offset + program_table_entry_size contents))
              end
      ] in
    if ltb offset end then rest else some phys

-- `load_elf_data`
pub load_elf_data : ℕ → Bytes → Bytes → List Scroll → Option Bytes
load_elf_data fuel contents phys scrolls =
    load_table fuel contents phys scrolls (program_table_offset contents) (
      u32 (
        program_table_offset contents
        + program_table_length contents * program_table_entry_size contents))
