-- ===== src/Malloc/Tests.antt =====
-- The first block of an empty heap that starts at 0x1000.
use muse.Base.{ℕ, ◌+◌, ◌≤◌, ◌<◌, ◌≡◌, ◌⊎◌, refl, some, arith}
use muse.Malloc.{Heap, load32, malloc, chunk_size, tier, tier_idx, top_bit}
use muse.Malloc.Fresh.{malloc_fresh}

abbrev heap : Heap
heap = record {
  mem = λ _. 0;
  size = 0;
  free_size = 0;
  tiers = λ _. 0;
  tier_cnt = 11;
  limit = 0x1004;
  brk = 0x1004;
}

in_array : tier_idx (chunk_size 10) < 11
unfolding tier_idx chunk_size top_bit
in_array = omega arith

empty : tier heap (tier_idx (chunk_size 10)) ≡ 0
unfolding tier_idx chunk_size top_bit
empty = refl

malloc_fresh_example :
    (g : Heap) × (malloc 1 heap 10 ≡ some (g, 0x1004 + 4))
    × (0x1004 + 4 + 10 + 4 ≤ g.limit)
    × (load32 g.mem 0x1004 ≡ chunk_size 10)
    × ((b : ℕ) → (b < 0x1004) ⊎ (0x1004 + 4 ≤ b) → g.mem b ≡ 0)
malloc_fresh_example = malloc_fresh 0 heap 10 (omega arith) (omega arith) in_array empty
