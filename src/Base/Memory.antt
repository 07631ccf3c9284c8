-- ===== src/Base/Memory.antt =====
-- Byte memory, as a function from addresses.
use muse.Base.{
  fun_ext, refl, ap₂, sym, ◌∙◌, ◌++◌, dec_lt, ap, ◌<◌, ℕ, zero, suc, ◌+◌, ◌-◌, ◌≡◌, List, [], ◌∷◌,
  arith,
}
use muse.Base.{if◌then◌else◌, ltb, leb, update, ◌&&◌}

abbrev pub Bytes : Type 0
Bytes = ℕ → ℕ

-- `m` with the `n` bytes from `d` on replaced by the values of `f` at 0, 1, ..., n - 1
abbrev pub blit : Bytes → ℕ → ℕ → (ℕ → ℕ) → Bytes
blit m d n f a = if leb d a && ltb a (d + n) then f (a - d) else m a

-- the `n` bytes from `p` on
abbrev pub slice : Bytes → ℕ → ℕ → List ℕ
slice m p zero = []
slice m p (suc n) = m p ∷ slice m (p + 1) n

-- writing the next byte extends a blit by one
pub update-blit :
    (m : Bytes) (d i : ℕ) (f : ℕ → ℕ) (a : ℕ)
    → update (blit m d i f) (d + i) (f i) a ≡ blit m d (i + 1) f a
update-blit m d i f a = ground arith

-- Two blits side by side are one.
pub blit_append :
    (m : Bytes) (d n k : ℕ) (f g h : Bytes)
    → ((j : ℕ) → j < n → f j ≡ h j)
    → ((j : ℕ) → g j ≡ h (n + j))
    → blit (blit m d n f) (d + n) k g ≡ blit m d (n + k) h
blit_append m d n k f g h first second = fun_ext λ a. elim (dec_lt a (d + n)) [
  | yes below ↦ elim (dec_lt a d) [
    | yes before ↦ ground arith
    | no after ↦ ground (arith, first (a - d) (omega arith))
  ]
  | no above ↦
      let same : h (n + (a - (d + n))) ≡ h (a - d) = ap h (omega arith) in
      ground (arith, second (a - (d + n)))
]

-- Blits of the same bytes are the same.
pub blit_same :
    (m : Bytes) (d n : ℕ) (f h : Bytes)
    → ((j : ℕ) → j < n → f j ≡ h j)
    → blit m d n f ≡ blit m d n h
blit_same m d n f h same = fun_ext λ a. elim (dec_lt a d) [
  | yes before ↦ ground arith
  | no after ↦ elim (dec_lt a (d + n)) [
    | yes inside ↦ ground (arith, same (a - d) (omega arith))
    | no outside ↦ ground arith
  ]
]

-- a byte's place written in another way
pub byte_here : (m : Bytes) (a : ℕ) → m (a + 0) ≡ m a
byte_here m a = ap m (omega arith)

pub byte_next : (m : Bytes) (a k : ℕ) → m (a + 1 + k) ≡ m (a + suc k)
byte_next m a k = ap m (omega arith)

-- Slices of bytes that agree are the same.
pub slice-agree :
    (m m' : Bytes) (a n : ℕ)
    → ((k : ℕ) → k < n → m (a + k) ≡ m' (a + k))
    → slice m a n ≡ slice m' a n
slice-agree m m' a zero same = refl
slice-agree m m' a (suc n) same =
    ap₂ ◌∷◌ (sym (byte_here m a) ∙ same 0 (omega arith) ∙ byte_here m' a) (
      slice-agree m m' (a + 1) n
        (λ k lt. byte_next m a k ∙ same (suc k) (omega arith) ∙ sym (byte_next m' a k)))

-- a slice with one more byte
pub slice-last : (m : Bytes) (a n : ℕ) → slice m a (suc n) ≡ slice m a n ++ m (a + n) ∷ []
slice-last m a zero = ap (λ v. v ∷ []) (sym (byte_here m a))
slice-last m a (suc n) =
    ap (λ l. m a ∷ l)
      (slice-last m (a + 1) n ∙ ap (λ v. slice m (a + 1) n ++ v ∷ []) (byte_next m a n))
