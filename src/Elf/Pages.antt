-- ===== src/Elf/Pages.antt =====
-- How many pages `parse_elf` of src/common/elf.c reserves for a segment, and how many scrolls
-- `load_elf_data` moves along for it.
use muse.Base.{
  ℕ, zero, suc, ◌+◌, ◌-◌, ◌*◌, ◌/◌, ◌%◌, ◌^◌, ◌≤◌, ◌≡◌, sym, ap, ◌∙◌, some, List, [], ◌∷◌, ◌++◌,
  arith, ◌==◌, if◌then◌else◌, u32, length, length-append, Option-cases, inl, inr, dec_lt, drop,
}
use muse.Base.Memory.{Bytes}
use muse.Frames.{Region, kpage_alloc}
use muse.Elf.{
  Segment, Scroll, Image, first_page, limit_page, page_count, reserve_pages, load_pages, copy_page,
  zero_page,
}

reserve_pages-length :
    (fuel : ℕ) (regions : List Region) (image next : Image) (p end : ℕ)
    → end + 4096 ≤ 2 ^ 32
    → p % 4096 ≡ 0
    → end % 4096 ≡ 0
    → reserve_pages fuel regions image p end ≡ some next
    → length next.scrolls ≡ length image.scrolls + (end - p) / 4096
unfolding reserve_pages
reserve_pages-length zero regions image next p end small al al' h = absurd (cc)
reserve_pages-length (suc fuel) regions image next p end small al al' h = elim (dec_lt p end) [
  | no ge ↦
      let e : image ≡ next = ground arith in
      ap (λ i. length (Image.scrolls i)) (sym e) ∙ omega arith
  | yes lt ↦ elim (Option-cases (kpage_alloc regions image.bitmaps)) [
    | inl out ↦ absurd (ground arith)
    | inr ((frame, bitmaps), got) ↦
        let more : Image = record image {
          scrolls = image.scrolls ++ record { vaddr = p; page = frame } ∷ [];
          bitmaps = bitmaps;
        } in
        let one : u32 (p + 4096) ≡ p + 4096 = omega arith in
        let ih =
          reserve_pages-length fuel regions more next (p + 4096) end small (omega arith) al'
            (ground (arith, one)) in
        ih ∙ omega (arith, length-append image.scrolls (record { vaddr = p; page = frame } ∷ []))
  ]
]

-- For a segment that ends below the last page of the address space, `parse_elf` reserves as many
-- pages as `load_elf_data` counts, and one more if the segment ends at a page's start.
pub reserve_pages-page_count :
    (fuel : ℕ) (regions : List Region) (image next : Image) (s : Segment)
    → s.p_vaddr + s.p_memsz + 2 * 4096 ≤ 2 ^ 32
    → reserve_pages fuel regions image (first_page s) (limit_page s) ≡ some next
    → length next.scrolls
      ≡ length image.scrolls + page_count s + (if (s.p_vaddr + s.p_memsz) % 4096 == 0 then 1 else 0)
unfolding first_page limit_page page_count
reserve_pages-page_count fuel regions image next s small h =
    let whole : u32 (s.p_vaddr + s.p_memsz) ≡ s.p_vaddr + s.p_memsz = omega arith in
    let n =
      reserve_pages-length fuel regions image next (first_page s) (limit_page s) (omega arith)
        (omega arith) (omega arith) h in
    ground (arith, n)

load_pages-length :
    (left : ℕ) (contents : Bytes) (s : Segment) (st : Bytes × ℕ × ℕ) (scrolls : List Scroll)
    (phys : Bytes) (rest : List Scroll)
    → load_pages left contents s st scrolls ≡ some (phys, rest)
    → rest ≡ drop left scrolls
unfolding load_pages
load_pages-length zero contents s st scrolls phys rest h = ground arith
load_pages-length (suc left) contents s st [] phys rest h = absurd (cc)
load_pages-length (suc left) contents s st (scroll ∷ scrolls) phys rest h =
    let copied = copy_page 4097 contents s scroll.page st in
    let cleared = zero_page 4097 s scroll.page (copied.0, copied.1) in
    load_pages-length left contents s (cleared.0, 0, copied.2) scrolls phys rest h
