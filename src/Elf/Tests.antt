-- ===== src/Elf/Tests.antt =====
-- A segment of one whole page.
use muse.Base.{◌+◌, ◌%◌, ◌≡◌, refl, some, [], ◌∷◌, arith, ◌==◌, if◌then◌else◌, length}
use muse.Base.Memory.{Bytes}
use muse.Frames.{Region, mark, kpage_alloc, find_free}
use muse.Elf.{Segment, Image, reserve_pages, first_page, limit_page, page_count}
use muse.Elf.Pages.{reserve_pages-page_count}

abbrev region : Region
region = record { addr = 0x10000; pg_cnt = 4; bitmap = 100 }

abbrev no_pages : Bytes
no_pages a = 0

abbrev image : Image
image = record { scrolls = []; limit = 0; bitmaps = no_pages }

abbrev next : Image
next = record {
  scrolls =
      record { vaddr = 0x8000; page = 0x10000 } ∷ record { vaddr = 0x9000; page = 0x11000 } ∷ [];
  limit = 0;
  bitmaps = mark (mark no_pages region 0) region 1;
}

abbrev segment : Segment
segment = record {
  type = 1;
  p_offset = 0x1000;
  p_vaddr = 0x8000;
  p_filesz = 0x800;
  p_memsz = 0x1000;
}

reserved : reserve_pages 3 (region ∷ []) image (first_page segment) (limit_page segment) ≡ some next
unfolding reserve_pages first_page limit_page kpage_alloc find_free
reserved = refl

reserve_pages-page_count_example :
    length next.scrolls ≡ 0 + page_count segment + (if (0x8000 + 0x1000) % 4096 == 0 then 1 else 0)
reserve_pages-page_count_example =
    reserve_pages-page_count 3 (region ∷ []) image next segment (omega arith) reserved
