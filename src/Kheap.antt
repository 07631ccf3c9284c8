-- ===== src/Kheap.antt =====
-- The kernel's heap, src/common/alloc.c. Its chunks are those of `Malloc`, whose code is the same;
-- the pages of the aligned part are kept in the words of a bitmap. New pages are mapped by `Paging`.
pub mod Pages
pub mod Runs
mod Tests
use muse.Base.{
  ℕ, zero, suc, ◌+◌, ◌-◌, ◌*◌, ◌/◌, ◌%◌, bit_and, bit_or, Option, none, some, ltb, leb, ◌==◌,
  if◌then◌else◌, shr, one_shl, u32, sub32, update, ◌&&◌,
}
use muse.Frames.{kpage_alloc}
use muse.Paging.{Machine, map_page, get_page_mapping}
use muse.User.{align_pg_down}
use muse.Malloc.{Heap, find_chunk, take_chunk, chunk_size, tier, tier_idx, store32, free}

-- `struct heap` of the kernel, with the address space
pub record Kheap : Type 0 where
  pub chunks : Heap
  pub max_limit : ℕ
  pub page_bitmap : ℕ → ℕ
  pub bitmap_cnt : ℕ
  pub aligned_start : ℕ
  pub machine : Machine

-- The loop of `heap_sbrk`, on fuel; `none` is the allocator's halt.
pub map_missing : ℕ → Machine → ℕ → ℕ → Option Machine
map_missing zero s v last = none
map_missing (suc fuel) s v last =
    let on = map_missing fuel s (u32 (v + 4096)) last in
    let mapped : Option Machine = elim (kpage_alloc s.regions s.bitmaps) [
      | none ↦ none
      | some (frame, bitmaps) ↦ elim (map_page (record s { bitmaps = bitmaps }) v frame) [
        | none ↦ none
        | some t ↦ map_missing fuel t (u32 (v + 4096)) last
      ]
    ] in
    if leb v last then (if get_page_mapping s v == 0 then mapped else on) else some s

-- `heap_sbrk`; `none` is also its own halt.
pub heap_sbrk : ℕ → Kheap → ℕ → Option (Kheap × ℕ)
heap_sbrk fuel k inc =
    let prev_lim = k.chunks.limit in
    let grown : Option (Kheap × ℕ) =
      elim (map_missing fuel k.machine (align_pg_down prev_lim)
        (align_pg_down (u32 (prev_lim + inc)))) [
          | none ↦ none
          | some s ↦ some (
            record k { machine = s; chunks = record k.chunks { limit = u32 (prev_lim + inc) } },
            prev_lim,
          )
        ] in
    if ltb k.max_limit (u32 (prev_lim + inc)) then none else grown

-- `kmalloc`, with `inner` for the walk of a tier
pub kmalloc : ℕ → ℕ → Kheap → ℕ → Option (Kheap × ℕ)
kmalloc fuel inner k size =
    let ch_size = chunk_size size in
    let h = k.chunks in
    let i = tier_idx ch_size in
    let new_ch = sub32 h.limit 4 in
    let extended : Option (Kheap × ℕ) = elim (heap_sbrk fuel k ch_size) [
      | none ↦ none
      | some grown ↦
          let g = grown.0.chunks in
          some (
            record grown.0 {
              chunks = record g {
                mem = store32 g.mem (new_ch + 4) ch_size;
                size = u32 (g.size + size);
              };
            },
            u32 (new_ch + 8),
          )
    ] in
    elim (find_chunk inner h.mem ch_size (tier h i) 0) [
      | none ↦ none
      | some found ↦
          let taken = take_chunk h size ch_size i found.0 found.1 in
          if found.1 == 0 then extended else some (record k { chunks = taken.0 }, taken.1)
    ]

-- `page_bitmap[n / 32] |= 1 << (n % 32)`
abbrev pub set_page : Kheap → ℕ → Kheap
set_page k n = record k {
  page_bitmap = update k.page_bitmap (n / 32) (bit_or (k.page_bitmap (n / 32)) (one_shl (n % 32)));
}

-- `kfree`
pub kfree : Kheap → ℕ → Kheap
kfree k ptr =
    let offset = ptr - k.aligned_start in
    if leb k.aligned_start ptr && ltb offset (u32 (k.bitmap_cnt * 32 * 4096))
    then set_page k (offset / 4096)
    else record k { chunks = free k.chunks ptr }

-- The loops of `kmalloc_aligned`, with `left` pages left from page `n` on.
pub find_page : ℕ → (ℕ → ℕ) → ℕ → Option ℕ
find_page zero bitmap n = none
find_page (suc left) bitmap n =
    let rest = find_page left bitmap (n + 1) in
    if shr (bitmap (n / 32)) (n % 32) == 0 then some n else rest

-- what `kmalloc_aligned` does with the page that is found; `none` is its halt
pub grant_page : Kheap → Option ℕ → Option (Kheap × ℕ)
grant_page k none = none
grant_page k (some n) = some (set_page k n, u32 (k.aligned_start + n * 4096))

pub kmalloc_aligned : Kheap → Option (Kheap × ℕ)
kmalloc_aligned k = grant_page k (find_page (k.bitmap_cnt * 32) k.page_bitmap 0)

-- The loops of `kmalloc_aligned_multi`: the page `i * 32 + j` at which they stop. After the last
-- page `i` is `bitmap_cnt` and `j` is 32.
pub find_run : ℕ → (ℕ → ℕ) → ℕ → ℕ → ℕ → Option ℕ
find_run zero bitmap cnt contig n = if contig == cnt then some (n + 32) else none
find_run (suc left) bitmap cnt contig n =
    let taken = bit_and (shr (bitmap (n / 32)) (n % 32)) 1 in
    let rest = find_run left bitmap cnt (if taken == 0 then contig + 1 else 0) (n + 1) in
    if contig == cnt then some n else rest

-- the loop over `offset`, with `left` pages left
pub set_run : ℕ → Kheap → ℕ → Kheap
set_run zero k n = k
set_run (suc left) k n = set_run left (set_page k n) (n + 1)

-- what `kmalloc_aligned_multi` does where the loops stop
pub grant_run : Kheap → ℕ → Option ℕ → Option (Kheap × ℕ)
grant_run k cnt none = none
grant_run k cnt (some end) =
    let first = end - cnt in
    some
      (set_run cnt k first, u32 (k.aligned_start + (first / 32 * 32 + sub32 end cnt % 32) * 4096))

-- `kmalloc_aligned_multi`, for a heap with a bitmap and `cnt` pages at most where it stops
pub kmalloc_aligned_multi : Kheap → ℕ → Option (Kheap × ℕ)
kmalloc_aligned_multi k cnt = grant_run k cnt (find_run (k.bitmap_cnt * 32) k.page_bitmap cnt 0 0)

-- `kmalloc_page`: the page's address and its frame
pub kmalloc_page : Kheap → Option (Kheap × ℕ × ℕ)
kmalloc_page k = elim (kmalloc_aligned k) [
  | none ↦ none
  | some (g, virt) ↦ elim (kpage_alloc g.machine.regions g.machine.bitmaps) [
    | none ↦ none
    | some (phys, bitmaps) ↦ elim (map_page (record g.machine { bitmaps = bitmaps }) virt phys) [
      | none ↦ none
      | some s ↦ some (record g { machine = s }, virt, phys)
    ]
  ]
]
