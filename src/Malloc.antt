-- ===== src/Malloc.antt =====
-- The C library's heap, libc/lib/heap.c: chunks in byte memory, lists of free chunks by tier. A
-- chunk's fields are 32-bit words at its address: prev_size at 0, size at 4, next at 8.
pub mod Word32
pub mod Fresh
mod Tests
use muse.Base.{
  ℕ, zero, suc, ◌+◌, ◌-◌, ◌*◌, ◌/◌, ◌%◌, ◌^◌, bit_and, bit_or, Bool, true, false, Option, none,
  some, ltb, leb, ◌==◌, if◌then◌else◌, u8, u32, sub32, update,
}
use muse.Base.Memory.{Bytes}

-- a little-endian 32-bit load and store
unfoldable pub load32 : Bytes → ℕ → ℕ
load32 m a = m a + 2 ^ 8 * m (a + 1) + 2 ^ 16 * m (a + 2) + 2 ^ 24 * m (a + 3)

unfoldable pub store32 : Bytes → ℕ → ℕ → Bytes
store32 m a v =
    update
      (update (update (update m a (v % 2 ^ 8)) (a + 1) (v / 2 ^ 8 % 2 ^ 8)) (a + 2)
        (v / 2 ^ 16 % 2 ^ 8))
      (a + 3) (v / 2 ^ 24 % 2 ^ 8)

-- `struct heap`, with memory, the program's break, and TIER_CNT, which is 11 here and 21 in the kernel
pub record Heap : Type 0 where
  pub mem : Bytes
  pub size : ℕ
  pub free_size : ℕ
  pub tiers : ℕ → ℕ
  pub tier_cnt : ℕ
  pub limit : ℕ
  pub brk : ℕ

-- `tiers[i]`. The array has `tier_cnt` elements, and `limit` is behind it; further on `tiers` is the memory
-- behind the structure.
abbrev pub tier : Heap → ℕ → ℕ
tier h i = if i == h.tier_cnt then h.limit else h.tiers i

-- `tiers[i] = x`
abbrev pub set_tier : Heap → ℕ → ℕ → Heap
set_tier h i x =
    if i == h.tier_cnt then record h { limit = x } else record h { tiers = update h.tiers i x }

-- MIN_CHUNK_SIZE, CHUNK_OVERHEAD, BIT_FREE and SIZE_MASK
abbrev pub min_chunk_size : ℕ
min_chunk_size = 16

abbrev pub chunk_overhead : ℕ
chunk_overhead = 8

abbrev pub bit_free : ℕ
bit_free = 1

abbrev pub size_mask : ℕ
size_mask = 0xFFFF_FFFE

-- `31 - __builtin_clz(x)`, for x below 2 ^ fuel
pub top_bit : ℕ → ℕ → ℕ
top_bit zero x = 0
top_bit (suc fuel) x = let rest = top_bit fuel (x / 2) in if ltb x 2 then 0 else suc rest

-- TIER_IDX
pub tier_idx : ℕ → ℕ
tier_idx x = sub32 (top_bit 32 x) 4

-- `sbrk`: the break before it is moved up
pub sbrk : Heap → ℕ → Heap × ℕ
sbrk h inc = (record h { brk = u32 (h.brk + inc) }, h.brk)

pub init_heap : Heap → Heap
init_heap h =
    let (g, root_prev_size) = sbrk h 4 in
    record g {
      size = 0;
      free_size = 0;
      tiers = λ i. if ltb i h.tier_cnt then 0 else h.tiers i;
      limit = u32 (root_prev_size + 4);
      mem = store32 g.mem root_prev_size 0;
    }

pub split_chunk : Heap → ℕ → ℕ → Heap
split_chunk h ch size =
    let whole = bit_and (load32 h.mem (ch + 4)) size_mask in
    let next_ch = u32 (ch + whole) in
    let new_ch = u32 (ch + size + chunk_overhead) in
    let m1 =
      store32 h.mem (new_ch + 4) (bit_or (sub32 (sub32 whole size) chunk_overhead) bit_free) in
    let m2 = store32 m1 (ch + 4) (u32 (size + chunk_overhead)) in
    let m3 = store32 m2 new_ch (load32 m2 (ch + 4)) in
    let m4 = store32 m3 next_ch (load32 m3 (new_ch + 4)) in
    let idx = tier_idx new_ch in
    set_tier (record h { mem = store32 m4 (new_ch + 8) (tier h idx) }) idx new_ch

-- The loop of `malloc` over tier `i`, on fuel: the first chunk that is large enough and the chunk
-- before it; 0 is the null pointer.
pub find_chunk : ℕ → Bytes → ℕ → ℕ → ℕ → Option (ℕ × ℕ)
find_chunk zero m ch_size ch prev = none
find_chunk (suc fuel) m ch_size ch prev =
    let rest = find_chunk fuel m ch_size (load32 m (ch + 8)) ch in
    if ch == 0
    then some (prev, 0)
    else if ltb (bit_and (load32 m (ch + 4)) size_mask) ch_size
    then rest
    else some (prev, ch)

-- what `malloc` does with a chunk that is large enough
pub take_chunk : Heap → ℕ → ℕ → ℕ → ℕ → ℕ → Heap × ℕ
take_chunk h size ch_size i prev ch =
    let next = load32 h.mem (ch + 8) in
    let unlinked =
      if prev == 0 then set_tier h i next else record h { mem = store32 h.mem (prev + 8) next } in
    let large =
      leb (u32 (ch_size + min_chunk_size + chunk_overhead))
        (bit_and (load32 unlinked.mem (ch + 4)) size_mask) in
    (if large then split_chunk unlinked ch size else unlinked, u32 (ch + chunk_overhead))

-- what it does when no chunk is
pub extend : Heap → ℕ → Heap × ℕ
extend h ch_size =
    let new_ch = sub32 h.limit 4 in
    let g = (sbrk h ch_size).0 in
    (
      record g {
        mem = store32 g.mem (new_ch + 4) ch_size;
        limit = u32 (h.limit + ch_size);
        size = u32 (h.size + ch_size);
      },
      u32 (new_ch + chunk_overhead),
    )

-- `size + CHUNK_OVERHEAD`, MIN_CHUNK_SIZE at least
pub chunk_size : ℕ → ℕ
chunk_size size =
    let whole = u32 (size + chunk_overhead) in
    if leb min_chunk_size whole then whole else min_chunk_size

pub malloc : ℕ → Heap → ℕ → Option (Heap × ℕ)
malloc fuel h size =
    let ch_size = chunk_size size in
    let i = tier_idx ch_size in
    elim (find_chunk fuel h.mem ch_size (tier h i) 0) [
      | none ↦ none
      | some found ↦
          some
            (if found.1 == 0 then extend h ch_size else take_chunk h size ch_size i found.0 found.1)
    ]

-- `free`
pub free : Heap → ℕ → Heap
free h ptr =
    let ch0 = sub32 ptr chunk_overhead in
    let prev_size = load32 h.mem ch0 in
    let merge = bit_and prev_size bit_free == 1 in
    let ch = if merge then sub32 ch0 (bit_and prev_size size_mask) else ch0 in
    let merged =
      if merge
      then store32 h.mem (ch + 4) (u32 (load32 h.mem (ch + 4) + load32 h.mem (ch0 + 4)))
      else h.mem in
    let marked = store32 merged (ch + 4) (bit_or (load32 merged (ch + 4)) bit_free) in
    let whole = bit_and (load32 marked (ch + 4)) size_mask in
    let i = tier_idx whole in
    let linked = store32 marked (ch + 8) (tier h i) in
    let grown = u32 (h.free_size + bit_and (load32 linked (ch + 4)) size_mask) in
    set_tier (record h { mem = linked; free_size = grown }) i ch
