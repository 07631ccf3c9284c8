-- ===== src/Kheap/Tests.antt =====
-- A kernel heap of 64 pages at 0x10000 whose first page is taken.
use muse.Base.{ℕ, ◌≡◌, ◌⊎◌, ◌≢◌, refl, subst, true, some, [], arith, ◌==◌, if◌then◌else◌}
use muse.Paging.{Machine}
use muse.Malloc.{Heap}
use muse.Kheap.{
  set_run, kmalloc_aligned_multi, grant_run, find_run, Kheap, set_page, find_page, grant_page,
  kmalloc_aligned, kfree,
}
use muse.Kheap.Runs.{IsRun, IsLate, kmalloc_aligned_multi-IsRun}
use muse.Kheap.Pages.{Calls, here, after, release, kmalloc_aligned-fresh}

abbrev machine : Machine
machine = record { phys = λ _. 0; cr3 = 0x1000; enabled = true; regions = []; bitmaps = λ _. 0 }

abbrev chunks : Heap
chunks = record {
  mem = λ _. 0;
  size = 0;
  free_size = 0;
  tiers = λ _. 0;
  tier_cnt = 21;
  limit = 0x50000;
  brk = 0x50000;
}

abbrev heap_with : (ℕ → ℕ) → Kheap
heap_with bitmap = record {
  chunks = chunks;
  max_limit = 0x100000;
  page_bitmap = bitmap;
  bitmap_cnt = 2;
  aligned_start = 0x10000;
  machine = machine;
}

abbrev heap : Kheap
heap = heap_with λ i. if i == 0 then 1 else 0

abbrev granted : Kheap
granted = set_page heap 1

abbrev twice : Kheap
twice = set_page granted 1

first : kmalloc_aligned heap ≡ some (granted, 0x11000)
unfolding kmalloc_aligned grant_page find_page
first = refl

freed : kfree granted 0x11000 ≡ twice
unfolding kfree
freed = refl

second : kmalloc_aligned twice ≡ some (set_page twice 2, 0x12000)
unfolding kmalloc_aligned grant_page find_page
second = refl

released : Calls granted twice
released = subst (Calls granted) freed (after granted _ here (release 0x11000))

kmalloc_aligned-fresh_example : ◌≢◌ {A = ℕ} 0x11000 0x12000
kmalloc_aligned-fresh_example =
    kmalloc_aligned-fresh heap granted (set_page twice 2) twice 0x11000 0x12000 (omega arith) first
      released second

pair : kmalloc_aligned_multi heap 2 ≡ some (set_run 2 heap 1, 0x11000)
unfolding kmalloc_aligned_multi grant_run find_run
pair = refl

kmalloc_aligned_multi-IsRun_example :
    IsRun heap 2 (set_run 2 heap 1) 0x11000 ⊎ IsLate heap 2 (set_run 2 heap 1) 0x11000
kmalloc_aligned_multi-IsRun_example =
    kmalloc_aligned_multi-IsRun heap (set_run 2 heap 1) 2 0x11000 (omega arith) pair
