-- ===== src/Cstring/Copy.antt =====
-- `memcpy`, `memmove`, `strcpy` and `strncpy` of libc/lib/string.c.
use muse.Base.Memory.{Bytes, blit}
use muse.Base.{
  ℕ, zero, suc, ◌+◌, ◌≤◌, ◌<◌, ◌≡◌, ◌⊎◌, inl, inr, refl, ◌∙◌, some, arith, if◌then◌else◌, update,
  ltb, leb, Bool-cases,
}
use muse.Cstring.{
  copy_bytes, memcpy, copy_down, memmove, copy_string, strcpy, fill_zero, copy_padded, strncpy,
}
use muse.Cstring.Strings.{IsString}

-- What the copying loop has left of the memory.
pub copy_bytes-blit :
    (left : ℕ) (m : Bytes) (s1 s2 i : ℕ)
    → (s1 ≤ s2) ⊎ (s2 + i + left ≤ s1)
    → (a : ℕ) → copy_bytes left m s1 s2 i a ≡ blit m (s1 + i) left (λ k. m (s2 + i + k)) a
unfolding copy_bytes
copy_bytes-blit zero m s1 s2 i apart a = ground arith
copy_bytes-blit (suc left) m s1 s2 i apart a =
    copy_bytes-blit left (update m (s1 + i) (m (s2 + i))) s1 s2 (i + 1) (ground arith) a
    ∙ ground arith

-- `memcpy` writes the `n` source bytes to the destination and nothing else, if the source does not
-- start inside of the destination's part before it: the destination is at or below the source, or
-- past its end.
pub memcpy-blit :
    (m : Bytes) (s1 s2 n : ℕ)
    → (s1 ≤ s2) ⊎ (s2 + n ≤ s1)
    → ((a : ℕ) → (memcpy m s1 s2 n).0 a ≡ blit m s1 n (λ k. m (s2 + k)) a)
      × ((memcpy m s1 s2 n).1 ≡ s1)
unfolding memcpy
memcpy-blit m s1 s2 n apart =
    (λ a. copy_bytes-blit n m s1 s2 0 (ground arith) a ∙ ground arith, refl)

copy_down-blit :
    (left : ℕ) (m : Bytes) (s1 s2 : ℕ)
    → s2 < s1
    → (a : ℕ) → copy_down left m s1 s2 a ≡ blit m (s1 + 1) left (λ k. m (s2 + 1 + k)) a
unfolding copy_down
copy_down-blit zero m s1 s2 h a = ground arith
copy_down-blit (suc left) m s1 s2 h a =
    copy_down-blit left (update m (s1 + suc left) (m (s2 + suc left))) s1 s2 h a ∙ ground arith

-- With the destination at or below the source, `memmove` writes the `n` bytes that stood at the
-- source to the destination, overlapping or not, and nothing else.
pub memmove_forward :
    (m : Bytes) (s1 s2 n a : ℕ)
    → s1 ≤ s2
    → (memmove m s1 s2 n).0 a ≡ blit m s1 n (λ k. m (s2 + k)) a
unfolding memmove
memmove_forward m s1 s2 n a le = elim (Bool-cases (leb s1 s2)) [
  | inl t ↦ ground (arith, (memcpy-blit m s1 s2 n (inl le)).0 a)
  | inr f ↦ absurd (ground arith)
]

-- With the destination above the source, `memmove` writes the `n` bytes from one past the source
-- on to one past the destination, and nothing else: the byte at the destination stays, and the
-- byte after its `n` bytes is overwritten.
pub memmove_backward :
    (m : Bytes) (s1 s2 n a : ℕ)
    → s2 < s1
    → (memmove m s1 s2 n).0 a ≡ blit m (s1 + 1) n (λ k. m (s2 + 1 + k)) a
unfolding memmove
memmove_backward m s1 s2 n a lt = elim (Bool-cases (leb s1 s2)) [
  | inl t ↦ absurd (ground arith)
  | inr f ↦ ground (arith, copy_down-blit n m s1 s2 lt a)
]

copy_string-blit :
    (fuel : ℕ) (m : Bytes) (s1 s2 i left : ℕ)
    → IsString m (s2 + i) left
    → left < fuel
    → (s1 + i + left < s2 + i) ⊎ (s2 + i + left < s1)
    → (m' : Bytes) × (copy_string fuel m s1 s2 i ≡ some m')
      × ((a : ℕ) → m' a ≡ blit m (s1 + i) (left + 1) (λ k. m (s2 + i + k)) a)
unfolding copy_string
copy_string-blit zero m s1 s2 i left str lt apart = absurd (omega arith)
copy_string-blit (suc fuel) m s1 s2 i zero str lt apart =
    (update m (s1 + i) (m (s2 + i)), ground (arith, str.nul), λ a. ground arith)
copy_string-blit (suc fuel) m s1 s2 i (suc left) str lt apart =
    let w = update m (s1 + i) (m (s2 + i)) in
    let ih =
      copy_string-blit fuel w s1 s2 (i + 1) left
        (record { full = λ k h. ground (arith, str.full (suc k)); nul = ground (arith, str.nul) })
        (omega arith) (ground arith) in
    (ih.0, ground (arith, str.full 0, ih.1), λ a. ih.2 a ∙ ground arith)

-- `strcpy` of a string of length `n` that the destination does not overlap returns, with the
-- string and its NUL at the destination and every other byte as it was; so a string of
-- length `n` stands there.
pub strcpy-IsString :
    (fuel : ℕ) (m : Bytes) (s1 s2 n : ℕ)
    → IsString m s2 n
    → n < fuel
    → (s1 + n < s2) ⊎ (s2 + n < s1)
    → (m' : Bytes) × (strcpy fuel m s1 s2 ≡ some (m', s1))
      × ((a : ℕ) → m' a ≡ blit m s1 (n + 1) (λ k. m (s2 + k)) a)
      × IsString m' s1 n
unfolding strcpy
strcpy-IsString fuel m s1 s2 n str lt apart =
    let r =
      copy_string-blit fuel m s1 s2 0 n
        (record { full = λ k h. ground (arith, str.full k); nul = ground (arith, str.nul) }) lt
        (ground arith) in
    (
      r.0,
      rw (r.1, strcpy) (refl),
      λ a. r.2 a ∙ ground arith,
      record {
        full = λ i h. ground (arith, r.2 (s1 + i), str.full i);
        nul = ground (arith, r.2 (s1 + n), str.nul);
      },
    )

fill_zero-blit :
    (left : ℕ) (m : Bytes) (s1 i a : ℕ) → fill_zero left m s1 i a ≡ blit m (s1 + i) left (λ _. 0) a
unfolding fill_zero
fill_zero-blit zero m s1 i a = ground arith
fill_zero-blit (suc left) m s1 i a =
    fill_zero-blit left (update m (s1 + i) 0) s1 (i + 1) a ∙ ground arith

-- The byte that `strncpy` puts in place `k` for a source string of length `len`.
abbrev pub padded : Bytes → ℕ → ℕ → ℕ → ℕ
padded m s2 len k = if ltb k len then m (s2 + k) else 0

copy_padded-blit :
    (left : ℕ) (m : Bytes) (s1 s2 i len : ℕ)
    → IsString m (s2 + i) len
    → (s1 + i + left ≤ s2 + i) ⊎ (s2 + i + len < s1)
    → (a : ℕ) → copy_padded left m s1 s2 i a ≡ blit m (s1 + i) left (padded m (s2 + i) len) a
unfolding copy_padded
copy_padded-blit zero m s1 s2 i len str apart a = ground arith
copy_padded-blit (suc left) m s1 s2 i zero str apart a =
    ground (arith, str.nul, fill_zero-blit (suc left) m s1 i a)
copy_padded-blit (suc left) m s1 s2 i (suc len) str apart a =
    let w = update m (s1 + i) (m (s2 + i)) in
    let ih =
      copy_padded-blit left w s1 s2 (i + 1) len
        (record { full = λ k h. ground (arith, str.full (suc k)); nul = ground (arith, str.nul) })
        (ground arith) a in
    ground (arith, str.full 0, ih)

-- `strncpy` of a string of length `len` that the `n` destination bytes do not overlap writes
-- exactly these: the string's first bytes, then zeros. For `n` at most `len` there is no NUL among them.
pub strncpy-padded :
    (m : Bytes) (s1 s2 n len : ℕ)
    → IsString m s2 len
    → (s1 + n ≤ s2) ⊎ (s2 + len < s1)
    → (a : ℕ) → (strncpy m s1 s2 n).0 a ≡ blit m s1 n (padded m s2 len) a
unfolding strncpy
strncpy-padded m s1 s2 n len str apart a =
    copy_padded-blit n m s1 s2 0 len
      (record { full = λ k h. ground (arith, str.full k); nul = ground (arith, str.nul) })
      (ground arith) a
    ∙ ground arith
