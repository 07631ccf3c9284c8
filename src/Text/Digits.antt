-- ===== src/Text/Digits.antt =====
-- The digits that `kprint_int_fancy` prints.
use muse.Base.{
  ℕ, zero, suc, ◌+◌, ◌*◌, ◌/◌, ◌%◌, ◌^◌, ◌<◌, ◌≡◌, ◌≢◌, refl, ap, ◌∙◌, true, false, List, [], ◌∷◌,
  ◌++◌, map, arith, ◌==◌, if◌then◌else◌, ==_ne, ℕ_discrete,
}
use native.Mathlib.Nat.{pow-suc, pow-zero, div-lt_iff_lt-mul, mod-lt, div-add-mod'}
use muse.Text.{Console, nth_digit, digit_char, int_digits, kprint_int_fancy}
use muse.Text.Cursor.{put_all}

-- the value of a list of digits, the first one most significant
abbrev pub value : ℕ → ℕ → List ℕ → ℕ
value base acc [] = acc
value base acc (d ∷ ds) = value base (acc * base + d) ds

-- the `k` lowest digits, most significant first, as the code computes them
fixed : ℕ → ℕ → ℕ → List ℕ
fixed base zero x = []
fixed base (suc k) x = nth_digit x k base ∷ fixed base k x

fixed-last : (base k x : ℕ) → fixed base (suc k) x ≡ fixed base k (x / base) ++ (x % base) ∷ []
unfolding fixed nth_digit
fixed-last base zero x = refl
fixed-last base (suc k) x = ap (λ l. nth_digit (x / base) k base ∷ l) (fixed-last base k x)

value-last :
    (base acc : ℕ) (ds : List ℕ) (d : ℕ)
    → value base acc (ds ++ d ∷ []) ≡ value base acc ds * base + d
value-last base acc [] d = refl
value-last base acc (e ∷ ds) d = value-last base (acc * base + e) ds d

pow_suc : (b k : ℕ) → b ^ suc k ≡ b ^ k * b
pow_suc b k = pow-suc b k

fixed-value : (base k x : ℕ) → 0 < base → x < base ^ k → value base 0 (fixed base k x) ≡ x
unfolding fixed
fixed-value base zero x pos lt = omega (arith, pow-zero base)
fixed-value base (suc k) x pos lt =
    let whole : base ^ suc k ≡ base ^ k * base = pow_suc base k in
    let high : x / base < base ^ k = (div-lt_iff_lt-mul pos).1 (omega (arith, whole)) in
    ap (value base 0) (fixed-last base k x)
    ∙ value-last base 0 (fixed base k (x / base)) (x % base)
    ∙ ap (λ v. v * base + x % base) (fixed-value base k (x / base) pos high)
    ∙ div-add-mod' x base

nth_digit-lt : (base k x : ℕ) → 0 < base → nth_digit x k base < base
unfolding nth_digit
nth_digit-lt base zero x pos = mod-lt x pos
nth_digit-lt base (suc k) x pos = nth_digit-lt base k (x / base) pos

-- without the zeros in front
strip : List ℕ → List ℕ
strip [] = []
strip (d ∷ ds) = let rest = strip ds in if d == 0 then rest else d ∷ ds

no_more : (base : ℕ) → 0 ≡ 0 * base + 0
no_more base = omega arith

strip-value : (base : ℕ) (ds : List ℕ) → value base 0 (strip ds) ≡ value base 0 ds
unfolding strip
strip-value base [] = refl
strip-value base (d ∷ ds) = elim (ℕ_discrete d 0) [
  | yes empty ↦ rw empty (strip-value base ds ∙ ap (λ a. value base a ds) (no_more base))
  | no ne ↦ rw (==_ne _ _ ne) refl
]

-- What the loop prints: once a digit has been found, all of them; before that, those from the first
-- one that is not 0.
module _ (base color : ℕ) where
  int_digits-fixed :
      (k x : ℕ) (c : Console)
      → int_digits k x base color true c ≡ put_all (map digit_char (fixed base k x)) color c
  unfolding int_digits fixed
  int_digits-fixed zero x c = refl
  int_digits-fixed (suc k) x c = elim (ℕ_discrete (nth_digit x k base) 0) [
    | yes empty ↦ rw empty (int_digits-fixed k x _)
    | no ne ↦ rw (==_ne _ _ ne) (int_digits-fixed k x _)
  ]

  int_digits-strip :
      (k x : ℕ) (c : Console)
      → int_digits k x base color false c
        ≡ put_all (map digit_char (strip (fixed base k x))) color c
  unfolding int_digits fixed strip
  int_digits-strip zero x c = refl
  int_digits-strip (suc k) x c = elim (ℕ_discrete (nth_digit x k base) 0) [
    | yes empty ↦ rw empty (int_digits-strip k x c)
    | no ne ↦ rw (==_ne _ _ ne) (int_digits-fixed k x _)
  ]

-- the digits of a number: all below the base, the first one not 0
abbrev pub Below : ℕ → List ℕ → Type 0
Below base [] = Unit
Below base (d ∷ ds) = (d < base) × Below base ds

-- and the first one of a number other than 0 is not 0
abbrev pub NoZeroFirst : List ℕ → Type 0
NoZeroFirst [] = Unit
NoZeroFirst (d ∷ ds) = d ≢ 0

fixed-Below : (base k x : ℕ) → 0 < base → Below base (fixed base k x)
unfolding fixed
fixed-Below base zero x pos = tt
fixed-Below base (suc k) x pos = (nth_digit-lt base k x pos, fixed-Below base k x pos)

strip-Below : (base : ℕ) (ds : List ℕ) → Below base ds → Below base (strip ds)
unfolding strip
strip-Below base [] below = tt
strip-Below base (d ∷ ds) (lt, below) = elim (ℕ_discrete d 0) [
  | yes empty ↦ rw empty (strip-Below base ds below)
  | no ne ↦ rw (==_ne _ _ ne) (lt, below)
]

strip-NoZeroFirst : (ds : List ℕ) → NoZeroFirst (strip ds)
unfolding strip
strip-NoZeroFirst [] = tt
strip-NoZeroFirst (d ∷ ds) = elim (ℕ_discrete d 0) [
  | yes empty ↦ rw empty (strip-NoZeroFirst ds)
  | no ne ↦ rw (==_ne _ _ ne) ne
]

-- What is printed for a number other than 0, in a base of at least 1 in which it has `base` digits
-- at most: the characters of a list of digits, all below the base, the first one not 0, whose
-- value in that base is the number.
pub kprint_int_fancy_lem :
    (x base color : ℕ) (c : Console)
    → 0 < base
    → x < base ^ base
    → x ≢ 0
    → (ds : List ℕ) × (kprint_int_fancy x base color c ≡ put_all (map digit_char ds) color c)
      × (value base 0 ds ≡ x)
      × Below base ds
      × NoZeroFirst ds
unfolding kprint_int_fancy
kprint_int_fancy_lem x base color c pos small nonzero =
    let ds = fixed base base x in
    (
      strip ds,
      rw (==_ne _ _ nonzero) (int_digits-strip base color base x c),
      strip-value base ds ∙ fixed-value base base x pos small,
      strip-Below base ds (fixed-Below base base x pos),
      strip-NoZeroFirst ds,
    )
