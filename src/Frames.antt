-- ===== src/Frames.antt =====
-- The physical page allocator of src/common/memory.c: `kpage_alloc` and `kpage_set_status` over
-- the regions of `struct trampoline_info`. The bitmaps lie in byte memory, where the code has
-- them. The bodies run under `bitmap_lock`, whose mutual exclusion is in `Sync`.
pub mod Scan
pub mod Alloc
pub mod Status
mod Tests
use muse.Base.{
  ℕ, zero, suc, ◌+◌, ◌*◌, ◌/◌, ◌%◌, ◌^◌, ◌-◌, bit_and, bit_or, Bool, ◌&&◌, Option, none, some, List,
  [], ◌∷◌, ltb, leb, ◌==◌, if◌then◌else◌, u8, u32, shr, one_shl, not32, sub32, update,
}
use muse.Base.Memory.{Bytes}

abbrev pub page_size : ℕ
page_size = 4096

-- `struct trampoline_region`
pub record Region : Type 0 where
  pub addr : ℕ
  pub pg_cnt : ℕ
  pub bitmap : ℕ

-- `regions[i].addr + regions[i].pg_cnt * PAGE_SIZE`
abbrev pub limit : Region → ℕ
limit r = u32 (r.addr + u32 (r.pg_cnt * page_size))

-- the address of page `i`
abbrev pub page_addr : Region → ℕ → ℕ
page_addr r i = r.addr + i * page_size

-- The inner loop of `kpage_alloc`, on fuel: the first address and index that pass the test.
unfoldable pub find_free : ℕ → Bytes → Region → ℕ → ℕ → Option (ℕ × ℕ)
find_free zero m r addr idx = none
find_free (suc fuel) m r addr idx =
    let rest = find_free fuel m r (u32 (addr + page_size)) (u32 (idx + 1)) in
    if ltb addr (limit r)
    then (if shr (m (r.bitmap + idx / 8)) (idx % 8) == 0 then some (addr, idx) else rest)
    else none

-- `bitmap[idx / 8] |= 1 << (idx % 8)`
abbrev pub mark : Bytes → Region → ℕ → Bytes
mark m r idx =
    update m (r.bitmap + idx / 8) (u8 (bit_or (m (r.bitmap + idx / 8)) (one_shl (idx % 8))))

-- `bitmap[idx / 8] &= ~(1 << (idx % 8))`
abbrev pub unmark : Bytes → Region → ℕ → Bytes
unmark m r idx =
    update m (r.bitmap + idx / 8)
      (u8 (bit_and (m (r.bitmap + idx / 8)) (not32 (one_shl (idx % 8)))))

-- `kpage_alloc`; `none` is its "Out of memory!" and halt.
unfoldable pub kpage_alloc : List Region → Bytes → Option (ℕ × Bytes)
unfolding find_free
kpage_alloc [] m = none
kpage_alloc (r ∷ rs) m = elim (find_free (r.pg_cnt + 1) m r r.addr 0) [
  | some (addr, idx) ↦ some (addr, mark m r idx)
  | none ↦ kpage_alloc rs m
]

-- `kpage_set_status`
pub kpage_set_status : List Region → Bytes → ℕ → Bool → Bytes
kpage_set_status [] m addr free = m
kpage_set_status (r ∷ rs) m addr free =
    if leb r.addr addr && leb addr (limit r)
    then (let idx = sub32 addr r.addr / page_size in if free then unmark m r idx else mark m r idx)
    else kpage_set_status rs m addr free
