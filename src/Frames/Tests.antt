-- ===== src/Frames/Tests.antt =====
-- Two regions, the first with page 1 taken.
use muse.Base.{
  ℕ, ◌≡◌, ◌≢◌, ◌↔◌, refl, inl, some, none, true, List, [], ◌∷◌, arith, ◌==◌, if◌then◌else◌,
}
use muse.Base.Bits.{bit}
use muse.Base.Memory.{Bytes}
use muse.Frames.{Region, find_free, mark, kpage_alloc, kpage_set_status}
use muse.Frames.Scan.{Fits}
use muse.Frames.Alloc.{AllRegions, AllApart, Refused, kpage_alloc-none_iff, kpage_alloc_twice}
use muse.Frames.Status.{AllGaps, kpage_set_status-kpage_alloc}

abbrev low : Region
low = record { addr = 0x10000; pg_cnt = 4; bitmap = 100 }

abbrev high : Region
high = record { addr = 0x40000; pg_cnt = 2; bitmap = 200 }

abbrev rs : List Region
rs = low ∷ high ∷ []

abbrev before : Bytes
before a = if a == 100 then 2 else 0

abbrev first : Bytes
first = mark before low 2

abbrev second : Bytes
second = mark first low 3

fits : AllRegions Fits rs
fits = (omega arith, (omega arith, tt))

apart : AllApart rs
apart = ((inl (omega arith), tt), (tt, tt))

gaps : AllGaps rs
gaps = ((inl (omega arith), tt), (tt, tt))

alloc_first : kpage_alloc rs before ≡ some (0x12000, first)
unfolding kpage_alloc find_free
alloc_first = refl

alloc_second : kpage_alloc rs first ≡ some (0x13000, second)
unfolding kpage_alloc find_free
alloc_second = refl

abbrev page_a : ℕ
page_a = 0x12000

abbrev page_b : ℕ
page_b = 0x13000

kpage_alloc_twice_example : page_a ≢ page_b
kpage_alloc_twice_example =
    kpage_alloc_twice rs before first second page_a page_b fits apart alloc_first alloc_second

kpage_alloc-none_iff_example : (kpage_alloc rs before ≡ none) ↔ AllRegions (Refused before) rs
kpage_alloc-none_iff_example = kpage_alloc-none_iff rs before fits

kpage_set_status-kpage_alloc_example :
    bit (kpage_set_status rs first 0x12000 true 100) 2 ≡ bit (before 100) 2
kpage_set_status-kpage_alloc_example =
    kpage_set_status-kpage_alloc rs before first 0x12000 100 2 fits gaps alloc_first (omega arith)
