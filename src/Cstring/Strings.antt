-- ===== src/Cstring/Strings.antt =====
-- NUL-terminated strings in memory, and `strlen` of libc/lib/string.c.
use muse.Base.Memory.{Bytes}
use muse.Base.{ℕ, zero, suc, ◌+◌, ◌≤◌, ◌<◌, ◌≡◌, ◌≢◌, ◌↔◌, some, arith, ◌==◌, Bool-cases, inl, inr}
use muse.Cstring.{find_nul, strlen}

-- The `n` bytes from `p` on are not NUL, and a NUL follows them.
pub record IsString (m : Bytes) (p n : ℕ) : Type 0 where
  pub full : (i : ℕ) → i < n → m (p + i) ≢ 0
  pub nul : m (p + n) ≡ 0

pub find_nul-some :
    (fuel : ℕ) (m : Bytes) (p i n : ℕ)
    → IsString m p n
    → i ≤ n
    → n < i + fuel
    → find_nul fuel m p i ≡ some n
unfolding find_nul
find_nul-some zero m p i n str le lt = absurd (omega arith)
find_nul-some (suc fuel) m p i n str le lt =
    ground (arith, str.full i, str.nul, find_nul-some fuel m p (i + 1) n str)

find_nul-IsString :
    (fuel : ℕ) (m : Bytes) (p i n : ℕ)
    → find_nul fuel m p i ≡ some n
    → (m (p + n) ≡ 0) × (i ≤ n) × ((j : ℕ) → i ≤ j → j < n → m (p + j) ≢ 0)
unfolding find_nul
find_nul-IsString zero m p i n h = absurd (cc)
find_nul-IsString (suc fuel) m p i n h = elim (Bool-cases (m (p + i) == 0)) [
  | inl z ↦ (ground arith, ground arith, λ j a b. ground arith)
  | inr z ↦
      let ih = find_nul-IsString fuel m p (i + 1) n (ground arith) in
      (ih.0, ground (arith, ih.1), λ j a b. ground (arith, ih.2 j))
]

-- With fuel above `n`, `strlen` returns `n` exactly for a string of length `n`.
pub strlen_iff :
    (fuel : ℕ) (m : Bytes) (s n : ℕ) → n < fuel → (strlen fuel m s ≡ some n) ↔ IsString m s n
unfolding strlen
strlen_iff fuel m s n lt = (
  λ h.
      let r = find_nul-IsString fuel m s 0 n h in
      record { full = λ i lt. r.2 i (omega arith) lt; nul = r.0 },
  λ str. find_nul-some fuel m s 0 n str (omega arith) (omega arith),
)

module _ {m : Bytes} {p n : ℕ} (str : IsString m p (suc n)) where
  pub tail : IsString m (p + 1) n
  tail = record { full = λ k h. ground (arith, str.full (suc k)); nul = ground (arith, str.nul) }
