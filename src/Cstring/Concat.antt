-- ===== src/Cstring/Concat.antt =====
-- `strcat` and `strncat` of libc/lib/string.c.
use muse.Base.Memory.{Bytes, blit}
use muse.Base.{
  ℕ, zero, suc, ◌+◌, ◌-◌, ◌≤◌, ◌<◌, ◌≡◌, ◌⊎◌, refl, ◌∙◌, some, arith, ◌==◌, if◌then◌else◌, update,
  ==_ne,
}
use muse.Cstring.{append_string, strcat, append_counted, strncat}
use muse.Cstring.Strings.{IsString, find_nul-some}

append_string-blit :
    (fuel : ℕ) (m : Bytes) (d s2 i left : ℕ)
    → IsString m (s2 + i) left
    → left < fuel
    → (d + i + left < s2 + i) ⊎ (s2 + i + left < d)
    → (m' : Bytes) × (append_string fuel m d s2 i ≡ some m')
      × ((a : ℕ) → m' a ≡ blit m (d + i) (left + 1) (λ k. m (s2 + i + k)) a)
unfolding append_string
append_string-blit zero m d s2 i left str lt apart = absurd (omega arith)
append_string-blit (suc fuel) m d s2 i zero str lt apart =
    (update m (d + i) 0, ground (arith, str.nul), λ a. ground (arith, str.nul))
append_string-blit (suc fuel) m d s2 i (suc left) str lt apart =
    let w = update m (d + i) (m (s2 + i)) in
    let ih =
      append_string-blit fuel w d s2 (i + 1) left
        (record { full = λ k h. ground (arith, str.full (suc k)); nul = ground (arith, str.nul) })
        (omega arith) (ground arith) in
    (ih.0, ground (arith, str.full 0, ih.1), λ a. ih.2 a ∙ ground arith)

-- `strcat` of strings of lengths `n1` and `n2`, where the second lies apart from the bytes written,
-- returns and leaves a string of length `n1 + n2`: the first string's bytes are as they were, the
-- second's follow, and no byte past the new NUL changes.
pub strcat-IsString :
    (fuel : ℕ) (m : Bytes) (s1 s2 n1 n2 : ℕ)
    → IsString m s1 n1
    → IsString m s2 n2
    → n1 < fuel
    → n2 < fuel
    → (s1 + n1 + n2 < s2) ⊎ (s2 + n2 < s1 + n1)
    → (m' : Bytes) × (strcat fuel m s1 s2 ≡ some (m', s1))
      × ((a : ℕ) → m' a ≡ blit m (s1 + n1) (n2 + 1) (λ k. m (s2 + k)) a)
      × IsString m' s1 (n1 + n2)
unfolding strcat
strcat-IsString fuel m s1 s2 n1 n2 str1 str2 lt1 lt2 apart =
    let r =
      append_string-blit fuel m (s1 + n1) s2 0 n2
        (record { full = λ k h. ground (arith, str2.full k); nul = ground (arith, str2.nul) }) lt2
        (ground arith) in
    (
      r.0,
      rw (find_nul-some fuel m s1 0 n1 str1 (omega arith) (omega arith), r.1, strcat) (refl),
      λ a. r.2 a ∙ ground arith,
      record {
        full = λ i h. ground (arith, r.2 (s1 + i), str1.full i, str2.full (i - n1));
        nul = ground (arith, r.2 (s1 + (n1 + n2)), str2.nul);
      },
    )

module _ (m : Bytes) (d s2 i len : ℕ) (str : IsString m (s2 + i) (suc len)) where
  rest_string :
      d + i < s2 + i ⊎ s2 + i + suc len < d
      → IsString (update m (d + i) (m (s2 + i))) (s2 + (i + 1)) len
  rest_string apart = record {
    full = λ k h. ground (arith, str.full (suc k));
    nul = ground (arith, str.nul);
  }

append_counted-all :
    (left : ℕ) (m : Bytes) (d s2 i len : ℕ)
    → IsString m (s2 + i) len
    → (d + i + len < s2 + i) ⊎ (s2 + i + len < d)
    → left ≤ len
    → (a : ℕ)
    → append_counted left m d s2 i a
      ≡ (if a == d + i + left then 0 else blit m (d + i) left (λ k. m (s2 + i + k)) a)
unfolding append_counted
append_counted-all zero m d s2 i len str apart le a = ground arith
append_counted-all (suc left) m d s2 i zero str apart le a = absurd (omega arith)
append_counted-all (suc left) m d s2 i (suc len) str apart le a =
    let w = update m (d + i) (m (s2 + i)) in
    let ih =
      append_counted-all left w d s2 (i + 1) len (rest_string m d s2 i len str (ground arith))
        (ground arith) (omega arith) a in
    rw (==_ne (m (s2 + i)) 0 (ground (arith, str.full 0))) (ih ∙ ground arith)

append_counted-short :
    (left : ℕ) (m : Bytes) (d s2 i len : ℕ)
    → IsString m (s2 + i) len
    → (d + i + len < s2 + i) ⊎ (s2 + i + len < d)
    → len < left
    → (a : ℕ)
    → append_counted left m d s2 i a
      ≡ (if a == d + i + len + 1 then 0 else blit m (d + i) len (λ k. m (s2 + i + k)) a)
unfolding append_counted
append_counted-short zero m d s2 i len str apart lt a = absurd (omega arith)
append_counted-short (suc left) m d s2 i zero str apart lt a = ground (arith, str.nul)
append_counted-short (suc left) m d s2 i (suc len) str apart lt a =
    let w = update m (d + i) (m (s2 + i)) in
    let ih =
      append_counted-short left w d s2 (i + 1) len (rest_string m d s2 i len str (ground arith))
        (ground arith) (omega arith) a in
    rw (==_ne (m (s2 + i)) 0 (ground (arith, str.full 0))) (ih ∙ ground arith)

-- `strncat` of `n` bytes of a string no shorter appends them, with the NUL right after them.
pub strncat_counted :
    (fuel : ℕ) (m : Bytes) (s1 s2 n n1 len : ℕ)
    → IsString m s1 n1
    → IsString m s2 len
    → n1 < fuel
    → (s1 + n1 + len < s2) ⊎ (s2 + len < s1 + n1)
    → n ≤ len
    → (m' : Bytes) × (strncat fuel m s1 s2 n ≡ some (m', s1))
      × ((a : ℕ) → m' a ≡ (if a == s1 + n1 + n then 0 else blit m (s1 + n1) n (λ k. m (s2 + k)) a))
unfolding strncat
strncat_counted fuel m s1 s2 n n1 len str1 str2 lt1 apart le =
    let str : IsString m (s2 + 0) len = record {
      full = λ k h. ground (arith, str2.full k);
      nul = ground (arith, str2.nul);
    } in
    (
      append_counted n m (s1 + n1) s2 0,
      rw (find_nul-some fuel m s1 0 n1 str1 (omega arith) (omega arith), strncat) (refl),
      λ a. append_counted-all n m (s1 + n1) s2 0 len str (ground arith) le a ∙ ground arith,
    )

-- `strncat` of a string shorter than `n` appends its bytes, leaves the byte after them as it was,
-- and writes the NUL one place further.
pub strncat_short :
    (fuel : ℕ) (m : Bytes) (s1 s2 n n1 len : ℕ)
    → IsString m s1 n1
    → IsString m s2 len
    → n1 < fuel
    → (s1 + n1 + len < s2) ⊎ (s2 + len < s1 + n1)
    → len < n
    → (m' : Bytes) × (strncat fuel m s1 s2 n ≡ some (m', s1))
      × ((a : ℕ)
          → m' a ≡ (if a == s1 + n1 + len + 1 then 0 else blit m (s1 + n1) len (λ k. m (s2 + k)) a))
unfolding strncat
strncat_short fuel m s1 s2 n n1 len str1 str2 lt1 apart lt =
    let str : IsString m (s2 + 0) len = record {
      full = λ k h. ground (arith, str2.full k);
      nul = ground (arith, str2.nul);
    } in
    (
      append_counted n m (s1 + n1) s2 0,
      rw (find_nul-some fuel m s1 0 n1 str1 (omega arith) (omega arith), strncat) (refl),
      λ a. append_counted-short n m (s1 + n1) s2 0 len str (ground arith) lt a ∙ ground arith,
    )
