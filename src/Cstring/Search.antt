-- ===== src/Cstring/Search.antt =====
-- `strcspn`, `strpbrk` and `strspn` of libc/lib/string.c.
use muse.Base.Memory.{Bytes}
use muse.Base.{
  ℕ, zero, suc, ◌+◌, ◌-◌, ◌≤◌, ◌<◌, ◌≡◌, ◌≢◌, true, false, some, arith, if◌then◌else◌, ltb, subst,
  ℕ_discrete, ◌⊎◌, inl, inr,
}
use muse.Cstring.{matches, span_until, strcspn, first_of, strpbrk, span_while, strspn}
use muse.Cstring.Strings.{IsString, tail}

-- `c` is one of the `n` bytes from `p` on.
pub record Among (m : Bytes) (p n c : ℕ) : Type 0 where
  pub at : ℕ
  pub inside : at < n
  pub same : m (p + at) ≡ c

matches_lem :
    (fuel : ℕ) (m : Bytes) (p n c : ℕ)
    → IsString m p n
    → n < fuel
    → (matches fuel m p c ≡ some true) × Among m p n c
      ⊎ (matches fuel m p c ≡ some false) × ((j : ℕ) → j < n → m (p + j) ≢ c)
unfolding matches
matches_lem zero m p n c str lt = absurd (omega arith)
matches_lem (suc fuel) m p zero c str lt =
    inr (ground (arith, str.nul), λ j h. absurd (omega arith))
matches_lem (suc fuel) m p (suc n) c str lt = elim (ℕ_discrete c (m p)) [
  | yes e ↦
      inl (ground (arith, str.full 0), record { at = 0; inside = omega arith; same = ground arith })
  | no ne ↦ elim (matches_lem fuel m (p + 1) n c (tail str) (omega arith)) [
    | inl h ↦ inl (
      ground (arith, str.full 0, h.0),
      record {
        at = suc h.1.at;
        inside = omega (arith, h.1.inside);
        same = ground (arith, h.1.same);
      },
    )
    | inr h ↦ inr (ground (arith, str.full 0, h.0), λ j lt'. ground (arith, h.1 (j - 1)))
  ]
]

abbrev pub NotAmong : Bytes → ℕ → ℕ → ℕ → Type 0
NotAmong m p n c = (j : ℕ) → j < n → m (p + j) ≢ c

-- A scan of a string of length `n` from `i` on stops at `r`: each byte before passes, and at `r` is
-- the NUL or a byte that does not pass.
pub record Stops (n i r : ℕ) (Pass Stop : ℕ → Type 0) : Type 0 where
  pub least : i ≤ r
  pub most : r ≤ n
  pub pass : (j : ℕ) → i ≤ j → j < r → Pass j
  pub stop : r < n → Stop r

module _ {n i : ℕ} {Pass Stop : ℕ → Type 0} (lt : i < n) where
  here : Stop i → Stops n i i Pass Stop
  here s = record {
    least = omega arith;
    most = omega arith;
    pass = λ j a b. absurd (omega arith);
    stop = λ _. s;
  }

  step : {r : ℕ} → Pass i → Stops n (i + 1) r Pass Stop → Stops n i r Pass Stop
  step {r} p v = record {
    least = omega (arith, v.least);
    most = v.most;
    pass = λ j a b. elim (ℕ_discrete i j) [
      | yes e ↦ subst Pass e p
      | no ne ↦ v.pass j (omega arith) b
    ];
    stop = v.stop;
  }

finished : {n : ℕ} {Pass Stop : ℕ → Type 0} → Stops n n n Pass Stop
finished {n} = record {
  least = omega arith;
  most = omega arith;
  pass = λ j a b. absurd (omega arith);
  stop = λ h. absurd (omega arith);
}

module _ (fuel : ℕ) (m : Bytes) (s1 s2 n1 n2 : ℕ) (str1 : IsString m s1 n1)
    (str2 : IsString m s2 n2) (lt2 : n2 < fuel) where
  span_until_lem :
      (left i : ℕ)
      → i ≤ n1
      → n1 < i + left
      → (r : ℕ) × (span_until left fuel m s1 s2 i ≡ some r)
        × Stops n1 i r (λ j. NotAmong m s2 n2 (m (s1 + j))) (λ j. Among m s2 n2 (m (s1 + j)))
  unfolding span_until
  span_until_lem zero i le lt = absurd (omega arith)
  span_until_lem (suc left) i le lt = elim (ℕ_discrete i n1) [
    | yes e ↦ (
      i,
      ground (arith, str1.nul),
      subst
          (λ n. Stops n i i (λ j. NotAmong m s2 n2 (m (s1 + j))) (λ j. Among m s2 n2 (m (s1 + j))))
          e finished,
    )
    | no ne ↦ elim (matches_lem fuel m s2 n2 (m (s1 + i)) str2 lt2) [
      | inl h ↦ (i, ground (arith, str1.full i, h.0), here (omega arith) h.1)
      | inr h ↦
          let ih = span_until_lem left (i + 1) (omega arith) (omega arith) in
          (ih.0, ground (arith, str1.full i, h.0, ih.1), step (omega arith) h.1 ih.2)
    ]
  ]

  first_of_lem :
      (left i : ℕ)
      → i ≤ n1
      → n1 < i + left
      → (r : ℕ) × (first_of left fuel m (s1 + i) s2 ≡ some (if ltb r n1 then s1 + r else 0))
        × (span_until left fuel m s1 s2 i ≡ some r)
  unfolding first_of span_until
  first_of_lem zero i le lt = absurd (omega arith)
  first_of_lem (suc left) i le lt = elim (ℕ_discrete i n1) [
    | yes e ↦ (i, ground (arith, str1.nul), ground (arith, str1.nul))
    | no ne ↦ elim (matches_lem fuel m s2 n2 (m (s1 + i)) str2 lt2) [
      | inl h ↦ (i, ground (arith, str1.full i, h.0), ground (arith, str1.full i, h.0))
      | inr h ↦
          let ih = first_of_lem left (i + 1) (omega arith) (omega arith) in
          (ih.0, ground (arith, str1.full i, h.0, ih.1), ground (arith, str1.full i, h.0, ih.2))
    ]
  ]

  span_while_lem :
      (left i : ℕ)
      → i ≤ n1
      → n1 < i + left
      → (r : ℕ) × (span_while left fuel m s1 s2 i ≡ some r)
        × Stops n1 i r (λ j. Among m s2 n2 (m (s1 + j))) (λ j. NotAmong m s2 n2 (m (s1 + j)))
  unfolding span_while
  span_while_lem zero i le lt = absurd (omega arith)
  span_while_lem (suc left) i le lt = elim (ℕ_discrete i n1) [
    | yes e ↦ (
      i,
      elim (matches_lem fuel m s2 n2 (m (s1 + i)) str2 lt2) [
        | inl h ↦ absurd (str2.full h.1.at h.1.inside (ground (arith, h.1.same, str1.nul)))
        | inr h ↦ ground (arith, h.0)
      ],
      subst
          (λ n. Stops n i i (λ j. Among m s2 n2 (m (s1 + j))) (λ j. NotAmong m s2 n2 (m (s1 + j))))
          e finished,
    )
    | no ne ↦ elim (matches_lem fuel m s2 n2 (m (s1 + i)) str2 lt2) [
      | inl h ↦
          let ih = span_while_lem left (i + 1) (omega arith) (omega arith) in
          (ih.0, ground (arith, str1.full 0, h.0, ih.1), step (omega arith) h.1 ih.2)
      | inr h ↦ (i, ground (arith, h.0), here (omega arith) h.1)
    ]
  ]

-- On strings of lengths `n1` and `n2`, with more fuel than both, `strcspn` returns the number of
-- bytes before the first one of the second string, and `strpbrk` the address of that one, or the
-- null pointer if there is none.
pub strcspn-strpbrk :
    (fuel : ℕ) (m : Bytes) (s1 s2 n1 n2 : ℕ)
    → IsString m s1 n1
    → IsString m s2 n2
    → n1 < fuel
    → n2 < fuel
    → (r : ℕ) × (strcspn fuel m s1 s2 ≡ some r)
      × (strpbrk fuel m s1 s2 ≡ some (if ltb r n1 then s1 + r else 0))
      × Stops n1 0 r (λ j. NotAmong m s2 n2 (m (s1 + j))) (λ j. Among m s2 n2 (m (s1 + j)))
unfolding strcspn strpbrk
strcspn-strpbrk fuel m s1 s2 n1 n2 str1 str2 lt1 lt2 =
    let a = span_until_lem fuel m s1 s2 n1 n2 str1 str2 lt2 fuel 0 (omega arith) (omega arith) in
    let b = first_of_lem fuel m s1 s2 n1 n2 str1 str2 lt2 fuel 0 (omega arith) (omega arith) in
    (a.0, a.1, ground (arith, a.1, b.1, b.2), a.2)

-- On strings of lengths `n1` and `n2`, with more fuel than both, `strspn` returns the number of
-- bytes before the first one that is not of the second string.
pub strspn_lem :
    (fuel : ℕ) (m : Bytes) (s1 s2 n1 n2 : ℕ)
    → IsString m s1 n1
    → IsString m s2 n2
    → n1 < fuel
    → n2 < fuel
    → (r : ℕ) × (strspn fuel m s1 s2 ≡ some r)
      × Stops n1 0 r (λ j. Among m s2 n2 (m (s1 + j))) (λ j. NotAmong m s2 n2 (m (s1 + j)))
unfolding strspn
strspn_lem fuel m s1 s2 n1 n2 str1 str2 lt1 lt2 =
    span_while_lem fuel m s1 s2 n1 n2 str1 str2 lt2 fuel 0 (omega arith) (omega arith)
