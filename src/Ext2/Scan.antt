-- ===== src/Ext2/Scan.antt =====
-- What the scan of a bitmap in `alloc_ext2_obj` finds.
use muse.Base.{
  ℕ, zero, suc, ◌+◌, ◌≤◌, ◌<◌, ◌≡◌, ◌≢◌, refl, ap, ap₂, ◌↔◌, sym, ◌∙◌, none, some, arith, ◌==◌,
  if◌then◌else◌, shr, bit_and, ℕ_discrete, inl, inr, Option, Option-cases, ==_ne,
}
use muse.Base.Bits.{bit, shr-bit, bit_and-one, bit_le_one}
use muse.Base.Memory.{Bytes}
use muse.Ext2.{find_bit, find_clear}

-- bit `j` of byte `i`
abbrev pub bit_at : Bytes → ℕ → ℕ → ℕ
bit_at bitmap i j = bit (bitmap i) j

-- the code's test of a bit
tested : (byte j : ℕ) → bit_and (shr byte j) 1 ≡ bit byte j
tested byte j = bit_and-one (shr byte j) ∙ shr-bit byte j

-- one round of the scan of a byte
round :
    (left byte j : ℕ)
    → find_bit (suc left) byte j ≡ (if bit byte j == 0 then some j else find_bit left byte (j + 1))
unfolding find_bit
round left byte j = rw (tested byte j)

pub find_bit-some :
    (left byte j k : ℕ)
    → find_bit left byte j ≡ some k
    → (j ≤ k) × (k < j + left) × (bit byte k ≡ 0)
find_bit-some zero byte j k h = absurd (unfold find_bit in cc)
find_bit-some (suc left) byte j k h = elim (ℕ_discrete (bit byte j) 0) [
  | yes clear ↦
      let e : some j ≡ some k = sym (round left byte j ∙ rw clear) ∙ h in
      let same : j ≡ k = cc in (omega arith, omega arith, ap (bit byte) (sym same) ∙ clear)
  | no ne ↦
      let e : find_bit left byte (j + 1) ≡ some k =
        sym (round left byte j ∙ rw (==_ne _ _ ne)) ∙ h in
      let (le, lt, clear) = find_bit-some left byte (j + 1) k e in (omega arith, omega arith, clear)
]

pub find_bit-none :
    (left byte j : ℕ)
    → find_bit left byte j ≡ none
    → (k : ℕ) → j ≤ k
    → k < j + left
    → bit byte k ≡ 1
find_bit-none zero byte j h k le lt = absurd (omega arith)
find_bit-none (suc left) byte j h k le lt = elim (ℕ_discrete (bit byte j) 0) [
  | yes clear ↦ let e : some j ≡ none = sym (round left byte j ∙ rw clear) ∙ h in absurd (cc)
  | no ne ↦
      let e : find_bit left byte (j + 1) ≡ none = sym (round left byte j ∙ rw (==_ne _ _ ne)) ∙ h in
      elim (ℕ_discrete j k) [
        | yes same ↦ ap (bit byte) (sym same) ∙ omega (arith, bit_le_one byte j)
        | no later ↦ find_bit-none left byte (j + 1) e k (omega arith) (omega arith)
      ]
]

-- a byte whose bits are all set is 0xFF
all_set : (byte : ℕ) → byte < 256 → ((k : ℕ) → k < 8 → bit byte k ≡ 1) → byte ≡ 255
all_set byte lt ones = omega (
  arith,
  ones 0 (omega arith),
  ones 1 (omega arith),
  ones 2 (omega arith),
  ones 3 (omega arith),
  ones 4 (omega arith),
  ones 5 (omega arith),
  ones 6 (omega arith),
  ones 7 (omega arith),
)

set_255 : (k : ℕ) → k < 8 → bit 255 k ≡ 1
set_255 zero lt = refl
set_255 (suc zero) lt = refl
set_255 (suc (suc zero)) lt = refl
set_255 (suc (suc (suc zero))) lt = refl
set_255 (suc (suc (suc (suc zero)))) lt = refl
set_255 (suc (suc (suc (suc (suc zero))))) lt = refl
set_255 (suc (suc (suc (suc (suc (suc zero)))))) lt = refl
set_255 (suc (suc (suc (suc (suc (suc (suc zero))))))) lt = refl
set_255 (suc (suc (suc (suc (suc (suc (suc (suc k)))))))) lt = absurd (omega arith)

-- a scan that finds no bit of a byte says that it is 0xFF, and conversely
full_iff : (byte : ℕ) → byte < 256 → (find_bit 8 byte 0 ≡ none) ↔ (byte ≡ 255)
full_iff byte lt = (
  λ h. all_set byte lt (λ k k_lt. find_bit-none 8 byte 0 h k (omega arith) k_lt),
  λ e. elim (Option-cases (find_bit 8 byte 0)) [
    | inl h ↦ h
    | inr (b, h) ↦
        let (_, b_lt, clear) = find_bit-some 8 byte 0 b h in
        absurd (omega (arith, set_255 b b_lt, ap (λ t. bit t b) e))
  ],
)

module _ (left : ℕ) (bitmap : Bytes) (i : ℕ) where
  go_on : bitmap i ≡ 255 → find_clear (suc left) bitmap i ≡ find_clear left bitmap (i + 1)
  unfolding find_clear
  go_on e = rw e

  stop :
      (b : ℕ)
      → bitmap i ≢ 255
      → find_bit 8 (bitmap i) 0 ≡ some b
      → find_clear (suc left) bitmap i ≡ some (i, b)
  unfolding find_clear
  stop b ne e = rw (==_ne _ _ ne, e)

-- the first bit that is clear in a byte other than 0xFF
first_clear : (byte : ℕ) → byte < 256 → byte ≢ 255 → (b : ℕ) × (find_bit 8 byte 0 ≡ some b)
first_clear byte lt ne = elim (Option-cases (find_bit 8 byte 0)) [
  | inl h ↦ absurd (ne ((full_iff byte lt).0 h))
  | inr found ↦ found
]

module _ (bitmap : Bytes) (valid : (a : ℕ) → bitmap a < 256) where
  -- The byte and the bit that the scan returns: a clear bit of the bitmap.
  pub find_clear-some :
      (left i k j : ℕ)
      → find_clear left bitmap i ≡ some (k, j)
      → (i ≤ k) × (k < i + left) × (j < 8) × (bit_at bitmap k j ≡ 0)
  find_clear-some zero i k j h = absurd (unfold find_clear in cc)
  find_clear-some (suc left) i k j h = elim (ℕ_discrete (bitmap i) 255) [
    | yes full ↦
        let (le, lt, j_lt, clear) =
          find_clear-some left (i + 1) k j (sym (go_on left bitmap i full) ∙ h) in
        (omega arith, omega arith, j_lt, clear)
    | no ne ↦
        let (b, e) = first_clear (bitmap i) (valid i) ne in
        let (_, lt, clear) = find_bit-some 8 (bitmap i) 0 b e in
        let same : Path (Option (ℕ × ℕ)) (some (i, b)) (some (k, j)) =
          sym (stop left bitmap i b ne e) ∙ h in
        let at : i ≡ k = cc in
        let bit_same : b ≡ j = cc in
        (omega arith, omega arith, omega arith, ap₂ (bit_at bitmap) (sym at) (sym bit_same) ∙ clear)
  ]

  -- A scan that fails has seen only set bits.
  pub find_clear-none :
      (left i : ℕ)
      → find_clear left bitmap i ≡ none
      → (k j : ℕ) → i ≤ k
      → k < i + left
      → j < 8
      → bit_at bitmap k j ≡ 1
  find_clear-none zero i h k j le lt j_lt = absurd (omega arith)
  find_clear-none (suc left) i h k j le lt j_lt = elim (ℕ_discrete (bitmap i) 255) [
    | yes full ↦ elim (ℕ_discrete i k) [
      | yes same ↦ ap (λ t. bit t j) (ap bitmap (sym same) ∙ full) ∙ set_255 j j_lt
      | no later ↦
          find_clear-none left (i + 1) (sym (go_on left bitmap i full) ∙ h) k j (omega arith)
            (omega arith) j_lt
    ]
    | no ne ↦
        let (b, e) = first_clear (bitmap i) (valid i) ne in absurd (cc (stop left bitmap i b ne e))
  ]
