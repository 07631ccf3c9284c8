-- ===== src/Cstring/Find.antt =====
-- `memchr`, `strchr` and `strrchr` of libc/lib/string.c.
use muse.Base.Memory.{Bytes}
use muse.Base.{
  ℕ, zero, suc, ◌+◌, ◌-◌, ◌≤◌, ◌<◌, ◌≡◌, ◌≢◌, refl, some, arith, ◌==◌, if◌then◌else◌, char_to_int,
  subst, ℕ_discrete,
}
use muse.Cstring.{memchr, strchr, last_match, strrchr}
use muse.Cstring.Strings.{IsString, tail}

-- The int that `strchr` and `strrchr` compare byte `i` of the string by.
abbrev pub at_int : Bytes → ℕ → ℕ → ℕ
at_int m s i = char_to_int (m (s + i))

last_match_lem :
    (fuel : ℕ) (m : Bytes) (s c res n : ℕ)
    → IsString m s n
    → n < fuel
    → ((i : ℕ)
        → i < n
        → at_int m s i ≡ c
        → ((j : ℕ) → i < j → j < n → at_int m s j ≢ c)
        → last_match fuel m s c res ≡ some (s + i))
      × (((j : ℕ) → j < n → at_int m s j ≢ c) → last_match fuel m s c res ≡ some res)
unfolding last_match
last_match_lem zero m s c res n str lt = absurd (omega arith)
last_match_lem (suc fuel) m s c res zero str lt =
    (λ i lt'. absurd (omega arith), λ h. ground (arith, str.nul))
last_match_lem (suc fuel) m s c res (suc n) str lt =
    let ih =
      last_match_lem fuel m (s + 1) c (if char_to_int (m s) == c then s else res) n (tail str)
        (omega arith) in
    (
      λ i lt' e h. elim (ℕ_discrete i 0) [
        | yes z ↦ ground (
          arith,
          str.full 0,
          ih.1 (λ j q.
              subst (λ a. char_to_int (m a) ≢ c) (omega arith)
                (h (suc j) (omega arith) (omega arith))),
        )
        | no z ↦ ground (
          arith,
          str.full 0,
          ih.0 (i - 1) (omega arith) (subst (λ a. char_to_int (m a) ≡ c) (omega arith) e) (λ j p q.
              subst (λ a. char_to_int (m a) ≢ c) (omega arith)
                (h (suc j) (omega arith) (omega arith))),
        )
      ],
      λ h. ground (
        arith,
        str.full 0,
        h 0 (omega arith),
        ih.1 (λ j q. subst (λ a. char_to_int (m a) ≢ c) (omega arith) (h (suc j) (omega arith))),
      ),
    )

-- On a string of length `n`, with more fuel, `strrchr` returns the address of the last byte before
-- the NUL that is `c` as an int.
pub strrchr_found :
    (fuel : ℕ) (m : Bytes) (s c n i : ℕ)
    → IsString m s n
    → n < fuel
    → i < n
    → at_int m s i ≡ c
    → ((j : ℕ) → i < j → j < n → at_int m s j ≢ c)
    → strrchr fuel m s c ≡ some (s + i)
unfolding strrchr
strrchr_found fuel m s c n i str lt inside at last =
    (last_match_lem fuel m s c 0 n str lt).0 i inside at last

-- On a string of length `n`, with more fuel, `strrchr` returns the null pointer if no byte before
-- the NUL is `c` as an int, also for the NUL itself.
pub strrchr_null :
    (fuel : ℕ) (m : Bytes) (s c n : ℕ)
    → IsString m s n
    → n < fuel
    → ((j : ℕ) → j < n → at_int m s j ≢ c)
    → strrchr fuel m s c ≡ some 0
unfolding strrchr
strrchr_null fuel m s c n str lt none_is = (last_match_lem fuel m s c 0 n str lt).1 none_is

strchr_lem :
    (fuel : ℕ) (m : Bytes) (s c n : ℕ)
    → IsString m s n
    → n < fuel
    → ((i : ℕ)
        → i ≤ n
        → at_int m s i ≡ c
        → ((j : ℕ) → j < i → at_int m s j ≢ c)
        → strchr fuel m s c ≡ some (s + i))
      × (((j : ℕ) → j ≤ n → at_int m s j ≢ c) → strchr fuel m s c ≡ some 0)
unfolding strchr
strchr_lem zero m s c n str lt = absurd (omega arith)
strchr_lem (suc fuel) m s c zero str lt =
    (λ i le e h. ground (arith, str.nul), λ h. ground (arith, str.nul, h 0 (omega arith)))
strchr_lem (suc fuel) m s c (suc n) str lt =
    let ih = strchr_lem fuel m (s + 1) c n (tail str) (omega arith) in
    (
      λ i le e h. elim (ℕ_discrete i 0) [
        | yes z ↦ ground (arith, str.full 0)
        | no z ↦ ground (
          arith,
          str.full 0,
          h 0 (omega arith),
          ih.0 (i - 1) (omega arith) (subst (λ a. char_to_int (m a) ≡ c) (omega arith) e)
              (λ j q. subst (λ a. char_to_int (m a) ≢ c) (omega arith) (h (suc j) (omega arith))),
        )
      ],
      λ h. ground (
        arith,
        str.full 0,
        h 0 (omega arith),
        ih.1 (λ j q. subst (λ a. char_to_int (m a) ≢ c) (omega arith) (h (suc j) (omega arith))),
      ),
    )

-- On a string of length `n`, with more fuel, `strchr` returns the address of the first byte, the
-- NUL included, that is `c` as an int.
pub strchr_found :
    (fuel : ℕ) (m : Bytes) (s c n i : ℕ)
    → IsString m s n
    → n < fuel
    → i ≤ n
    → at_int m s i ≡ c
    → ((j : ℕ) → j < i → at_int m s j ≢ c)
    → strchr fuel m s c ≡ some (s + i)
strchr_found fuel m s c n i str lt inside at first =
    (strchr_lem fuel m s c n str lt).0 i inside at first

-- `memchr` returns the address of the first of the `n` bytes that is `c`, and the null pointer if
-- none is.
pub memchr_lem :
    (m : Bytes) (s c n : ℕ)
    → ((i : ℕ) → i < n → m (s + i) ≡ c → ((j : ℕ) → j < i → m (s + j) ≢ c) → memchr m s c n ≡ s + i)
      × (((j : ℕ) → j < n → m (s + j) ≢ c) → memchr m s c n ≡ 0)
unfolding memchr
memchr_lem m s c zero = (λ i lt. absurd (omega arith), λ h. refl)
memchr_lem m s c (suc n) =
    let ih = memchr_lem m (s + 1) c n in
    (
      λ i lt e h. elim (ℕ_discrete i 0) [
        | yes z ↦ ground arith
        | no z ↦ ground (
          arith,
          h 0 (omega arith),
          ih.0 (i - 1) (omega arith) (subst (λ a. m a ≡ c) (omega arith) e)
              (λ j q. subst (λ a. m a ≢ c) (omega arith) (h (suc j) (omega arith))),
        )
      ],
      λ h. ground (
        arith,
        h 0 (omega arith),
        ih.1 (λ j q. subst (λ a. m a ≢ c) (omega arith) (h (suc j) (omega arith))),
      ),
    )
