-- ===== src/Malloc/Fresh.antt =====
-- What `malloc` hands out when no free chunk is large enough.
use muse.Base.{ℕ, suc, ◌+◌, ◌^◌, ◌≤◌, ◌<◌, ◌≡◌, ◌⊎◌, refl, some, arith, u32, sub32}
use muse.Base.Memory.{Bytes}
use muse.Malloc.{Heap, load32, find_chunk, malloc, extend, sbrk, chunk_size, tier, tier_idx}
use muse.Malloc.Word32.{load32-store32, store32-out}

-- Room for one more chunk of this size below the end of the address space.
abbrev pub Room : Heap → ℕ → Type 0
Room h size = h.limit + size + 32 < 2 ^ 32

chunk_size-le :
    (size : ℕ) → size + 32 < 2 ^ 32 → (size + 8 ≤ chunk_size size) × (chunk_size size ≤ size + 16)
unfolding chunk_size
chunk_size-le size h = ground arith

find_chunk-nil :
    (fuel : ℕ) (m : Bytes) (ch_size ch : ℕ)
    → ch ≡ 0
    → find_chunk (suc fuel) m ch_size ch 0 ≡ some (0, 0)
unfolding find_chunk
find_chunk-nil fuel m ch_size ch e = rw (e) (refl)

-- `malloc` of a size whose tier is in the array and has no free chunk extends the heap: the block
-- starts 4 bytes past the old end of the heap, ends at least 4 bytes before the first byte that the
-- next such block can start at, and the bytes outside of its chunk's size word are as they were.
pub malloc_fresh :
    (fuel : ℕ) (h : Heap) (size : ℕ)
    → 4 ≤ h.limit
    → Room h size
    → tier_idx (chunk_size size) < h.tier_cnt
    → tier h (tier_idx (chunk_size size)) ≡ 0
    → (g : Heap) × (malloc (suc fuel) h size ≡ some (g, h.limit + 4))
      × (h.limit + 4 + size + 4 ≤ g.limit)
      × (load32 g.mem h.limit ≡ chunk_size size)
      × ((b : ℕ) → (b < h.limit) ⊎ (h.limit + 4 ≤ b) → g.mem b ≡ h.mem b)
unfolding malloc extend sbrk
malloc_fresh fuel h size low room in_array empty =
    let c = chunk_size-le size (omega arith) in
    let at : sub32 h.limit 4 + 4 ≡ h.limit = omega arith in
    let block : u32 (sub32 h.limit 4 + 8) ≡ h.limit + 4 = omega arith in
    (
      (extend h (chunk_size size)).0,
      rw
          (
            find_chunk-nil fuel h.mem (chunk_size size) (tier h (tier_idx (chunk_size size))) empty,
            block,
            malloc,
          )
          (refl),
      omega (arith, c.0, c.1),
      rw (at) (load32-store32 h.mem h.limit (chunk_size size) (omega (arith, c.1))),
      λ b out. rw (at) (store32-out h.mem h.limit (chunk_size size) b out),
    )
