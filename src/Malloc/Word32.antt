-- ===== src/Malloc/Word32.antt =====
-- Loads and stores of 32-bit words.
use muse.Base.{ℕ, ◌+◌, ◌^◌, ◌≤◌, ◌<◌, ◌≡◌, ◌⊎◌, arith}
use muse.Base.Memory.{Bytes}
use muse.Malloc.{load32, store32}

pub load32-store32 : (m : Bytes) (a v : ℕ) → v < 2 ^ 32 → load32 (store32 m a v) a ≡ v
unfolding load32 store32
load32-store32 m a v h = ground arith

-- A store leaves the bytes outside of its word.
pub store32-out : (m : Bytes) (a v b : ℕ) → (b < a) ⊎ (a + 4 ≤ b) → store32 m a v b ≡ m b
unfolding store32
store32-out m a v b h = ground arith

-- and the words that do not overlap it
pub load32-store32_out :
    (m : Bytes) (a v b : ℕ) → (b + 4 ≤ a) ⊎ (a + 4 ≤ b) → load32 (store32 m a v) b ≡ load32 m b
unfolding load32 store32
load32-store32_out m a v b h = ground arith

-- A load reads four bytes.
pub load32-agree :
    (m m' : Bytes) (a b : ℕ)
    → m a ≡ m' b
    → m (a + 1) ≡ m' (b + 1)
    → m (a + 2) ≡ m' (b + 2)
    → m (a + 3) ≡ m' (b + 3)
    → load32 m a ≡ load32 m' b
unfolding load32
load32-agree m m' a b h0 h1 h2 h3 = rw (h0, h1, h2, h3)
