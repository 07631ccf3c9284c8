-- ===== src/Cstring/Compare.antt =====
-- `memcmp`, `strcmp` and `strncmp` of libc/lib/string.c.
use muse.Base.Memory.{Bytes}
use muse.Base.{
  ℕ, zero, suc, ◌+◌, ◌≤◌, ◌<◌, ◌≡◌, ◌≢◌, ◌↔◌, ◌⊎◌, inl, inr, refl, none, some, arith, sub32,
  ℕ_discrete,
}
use muse.Cstring.{compare_bytes, memcmp, strcmp, compare_strings, strncmp}

-- `i` is the first place, of those from `k` on, where the two differ.
pub record Differ (m : Bytes) (s1 s2 k i : ℕ) : Type 0 where
  pub least : k ≤ i
  pub before : (j : ℕ) → k ≤ j → j < i → m (s1 + j) ≡ m (s2 + j)
  pub at : m (s1 + i) ≢ m (s2 + i)

compare_bytes_lem :
    (left : ℕ) (m : Bytes) (s1 s2 k : ℕ)
    → (((j : ℕ) → k ≤ j → j < k + left → m (s1 + j) ≡ m (s2 + j))
        → compare_bytes left m s1 s2 k ≡ 0)
      × ((i : ℕ)
          → i < k + left
          → Differ m s1 s2 k i
          → compare_bytes left m s1 s2 k ≡ sub32 (m (s1 + i)) (m (s2 + i)))
unfolding compare_bytes
compare_bytes_lem zero m s1 s2 k = (λ h. refl, λ i lt d. absurd (omega (arith, d.least)))
compare_bytes_lem (suc left) m s1 s2 k =
    let ih = compare_bytes_lem left m s1 s2 (k + 1) in
    (
      λ h.
          ground (
            arith,
            h k (omega arith) (omega arith),
            ih.0 (λ j a b. h j (omega arith) (omega arith)),
          ),
      λ i lt d. elim (ℕ_discrete k i) [
        | yes e ↦ ground (arith, d.at)
        | no ne ↦ ground (
          arith,
          d.least,
          d.before k,
          ih.1 i (omega arith) (record {
            least = omega (arith, d.least);
            before = λ j a b. d.before j (omega arith) b;
            at = d.at;
          }),
        )
      ],
    )

-- `memcmp` returns the difference, as an int, of the two bytes at the first place where they differ.
pub memcmp-Differ :
    (m : Bytes) (s1 s2 n i : ℕ)
    → i < n
    → Differ m s1 s2 0 i
    → memcmp m s1 s2 n ≡ sub32 (m (s1 + i)) (m (s2 + i))
unfolding memcmp
memcmp-Differ m s1 s2 n i lt d = (compare_bytes_lem n m s1 s2 0).1 i (omega arith) d

-- the first difference of those from `k` on, if there is one
first-Differ :
    (left : ℕ) (m : Bytes) (s1 s2 k : ℕ)
    → ((i : ℕ) × (i < k + left) × Differ m s1 s2 k i)
      ⊎ ((j : ℕ) → k ≤ j → j < k + left → m (s1 + j) ≡ m (s2 + j))
first-Differ zero m s1 s2 k = inr (λ j a b. absurd (omega arith))
first-Differ (suc left) m s1 s2 k = elim (ℕ_discrete (m (s1 + k)) (m (s2 + k))) [
  | no ne ↦ inl (
    k,
    omega arith,
    record { least = omega arith; before = λ j a b. absurd (omega arith); at = ne },
  )
  | yes e ↦ elim (first-Differ left m s1 s2 (k + 1)) [
    | inl h ↦ inl (
      h.0,
      omega (arith, h.1),
      record {
        least = omega (arith, h.2.least);
        before = λ j a b. ground (arith, h.2.before j);
        at = h.2.at;
      },
    )
    | inr h ↦ inr (λ j a b. ground (arith, h j))
  ]
]

-- On bytes, `memcmp` returns 0 exactly when all of the `n` bytes agree.
pub memcmp-zero_iff :
    (m : Bytes) (s1 s2 n : ℕ)
    → ((a : ℕ) → m a < 256)
    → (memcmp m s1 s2 n ≡ 0) ↔ ((j : ℕ) → j < n → m (s1 + j) ≡ m (s2 + j))
unfolding memcmp
memcmp-zero_iff m s1 s2 n byte =
    let r = compare_bytes_lem n m s1 s2 0 in
    (
      λ z. elim (first-Differ n m s1 s2 0) [
        | inl h ↦ absurd (ground (arith, r.1 h.0 h.1 h.2, h.2.at, byte (s1 + h.0), byte (s2 + h.0)))
        | inr h ↦ λ j lt. h j (omega arith) (omega arith)
      ],
      λ h. r.0 (λ j a b. h j (omega arith)),
    )

compare_strings_lem :
    (left : ℕ) (m : Bytes) (s1 s2 k : ℕ)
    → ((i : ℕ)
        → k ≤ i
        → i ≤ k + left
        → ((j : ℕ) → k ≤ j → j < i → m (s1 + j) ≡ m (s2 + j))
        → (i ≡ k + left) ⊎ ((m (s1 + i) ≡ 0) × (m (s2 + i) ≡ 0))
        → compare_strings left m s1 s2 k ≡ 0)
      × ((i : ℕ)
          → i < k + left
          → Differ m s1 s2 k i
          → ((j : ℕ) → k ≤ j → j < i → m (s1 + j) ≢ 0)
          → compare_strings left m s1 s2 k ≡ sub32 (m (s1 + i)) (m (s2 + i)))
unfolding compare_strings
compare_strings_lem zero m s1 s2 k =
    (λ i a b h e. refl, λ i lt d h. absurd (omega (arith, d.least)))
compare_strings_lem (suc left) m s1 s2 k =
    let ih = compare_strings_lem left m s1 s2 (k + 1) in
    (
      λ i a b h e. elim (ℕ_discrete k i) [
        | yes q ↦ ground (arith)
        | no ne ↦ ground (
          arith,
          h k,
          ih.0 i (omega arith) (omega arith) (λ j c d. h j (omega arith) d) (ground arith),
        )
      ],
      λ i lt d h. elim (ℕ_discrete k i) [
        | yes e ↦ ground (arith, d.at)
        | no ne ↦ ground (
          arith,
          d.least,
          d.before k,
          h k,
          ih.1 i (omega arith)
              (record {
                least = omega (arith, d.least);
                before = λ j a b. d.before j (omega arith) b;
                at = d.at;
              })
              (λ j a b. h j (omega arith) b),
        )
      ],
    )

-- `strncmp` returns 0 when the strings agree up to a common NUL, or for `n` bytes.
pub strncmp_equal :
    (m : Bytes) (s1 s2 n i : ℕ)
    → i ≤ n
    → ((j : ℕ) → j < i → m (s1 + j) ≡ m (s2 + j))
    → (i ≡ n) ⊎ ((m (s1 + i) ≡ 0) × (m (s2 + i) ≡ 0))
    → strncmp m s1 s2 n ≡ 0
unfolding strncmp
strncmp_equal m s1 s2 n i le h e =
    (compare_strings_lem n m s1 s2 0).0 i (omega arith) (omega arith) (λ j a b. h j b)
      (ground arith)

-- When two strings first differ at a place below `n`, with no NUL before it, `strncmp` returns the
-- difference, as an int, of the two bytes there.
pub strncmp-Differ :
    (m : Bytes) (s1 s2 n i : ℕ)
    → i < n
    → Differ m s1 s2 0 i
    → ((j : ℕ) → j < i → m (s1 + j) ≢ 0)
    → strncmp m s1 s2 n ≡ sub32 (m (s1 + i)) (m (s2 + i))
unfolding strncmp
strncmp-Differ m s1 s2 n i lt d h =
    (compare_strings_lem n m s1 s2 0).1 i (omega arith) d (λ j a b. h j b)

-- When the first bytes of two strings are equal and not NUL, no number of rounds ends the loop of
-- `strcmp`.
pub strcmp-none :
    (m : Bytes) (s1 s2 : ℕ) → m s1 ≡ m s2 → m s1 ≢ 0 → (fuel : ℕ) → strcmp fuel m s1 s2 ≡ none
unfolding strcmp
strcmp-none m s1 s2 e ne zero = refl
strcmp-none m s1 s2 e ne (suc fuel) = ground (arith, strcmp-none m s1 s2 e ne fuel)

-- When the first bytes differ or are both NUL, `strcmp` returns after one round, with their
-- difference as an int.
pub strcmp_first :
    (m : Bytes) (s1 s2 fuel : ℕ)
    → (m s1 ≢ m s2) ⊎ (m s1 ≡ 0) × (m s2 ≡ 0)
    → strcmp (suc fuel) m s1 s2 ≡ some (sub32 (m s1) (m s2))
unfolding strcmp
strcmp_first m s1 s2 fuel h = ground arith
