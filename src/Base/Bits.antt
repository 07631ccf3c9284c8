-- ===== src/Base/Bits.antt =====
-- The binary digits of a number, and what `|`, `&` and masks do to them, at every width.
use Prim.Native.Nat.{digits, bitwise, bit_and-bitwise, bit_or-bitwise}
use native.Mathlib.Nat.{mod-eq_of_lt, mul_comm, div-div-eq-div-mul, mod_def, mul-div-le}
use muse.Base.{
  ℕ, zero, suc, ◌+◌, ◌-◌, ◌*◌, ◌/◌, ◌%◌, ◌^◌, ◌≤◌, ◌<◌, min, max, bit_and, bit_or, ◌≡◌, refl, ap,
  ◌∙◌, sym, arith, pow-suc, one-le-pow, ◌==◌, ==_refl, if◌then◌else◌,
}

-- Digit `k` of `a`, least significant first.
abbrev pub bit : ℕ → ℕ → ℕ
bit a zero = a % 2
bit a (suc k) = bit (a / 2) k

-- The recursion that the native operations stand for, with any fuel that is enough.
digits_enough :
    (z : ℕ → ℕ) (op : ℕ → ℕ → ℕ) (fuel a b : ℕ) → a ≤ fuel → digits z op fuel a b ≡ bitwise z op a b
digits_enough z op fuel a b h = same fuel a a b h (omega arith)
  where
    same : (n m x y : ℕ) → x ≤ n → x ≤ m → digits z op n x y ≡ digits z op m x y
    same zero zero x y hn hm = refl
    same zero (suc m) zero y hn hm = refl
    same zero (suc m) (suc x) y hn hm = absurd (omega arith)
    same (suc n) zero zero y hn hm = refl
    same (suc n) zero (suc x) y hn hm = absurd (omega arith)
    same (suc n) (suc m) zero y hn hm = refl
    same (suc n) (suc m) (suc x) y hn hm =
        rw (same n m (suc x / 2) (y / 2) (omega arith) (omega arith))

low_digit :
    (z : ℕ → ℕ) (op : ℕ → ℕ → ℕ) (a b : ℕ)
    → bitwise z op (suc a) b ≡ bitwise z op (suc a / 2) (b / 2) * 2 + op (suc a % 2) (b % 2)
low_digit z op a b =
    ap (λ t. t * 2 + op (suc a % 2) (b % 2))
      (digits_enough z op a (suc a / 2) (b / 2) (omega arith))

pub bit_or_low : (a b : ℕ) → bit_or a b ≡ bit_or (a / 2) (b / 2) * 2 + max (a % 2) (b % 2)
bit_or_low zero b = simp bit_or-bitwise (omega arith)
bit_or_low (suc a) b = simp bit_or-bitwise (low_digit (λ y. y) max a b)

pub bit_and_low : (a b : ℕ) → bit_and a b ≡ bit_and (a / 2) (b / 2) * 2 + min (a % 2) (b % 2)
bit_and_low zero b = simp bit_and-bitwise (omega arith)
bit_and_low (suc a) b = simp bit_and-bitwise (low_digit (λ _. 0) min a b)

pub bit_le_one : (a k : ℕ) → bit a k ≤ 1
bit_le_one a zero = omega arith
bit_le_one a (suc k) = bit_le_one (a / 2) k

-- `|` and `&` act digit by digit.
pub bit-bit_or : (a b k : ℕ) → bit (bit_or a b) k ≡ max (bit a k) (bit b k)
bit-bit_or a b zero = omega (arith, bit_or_low a b)
bit-bit_or a b (suc k) =
    let half : bit_or a b / 2 ≡ bit_or (a / 2) (b / 2) = omega (arith, bit_or_low a b) in
    ap (λ t. bit t k) half ∙ bit-bit_or (a / 2) (b / 2) k

pub bit-bit_and : (a b k : ℕ) → bit (bit_and a b) k ≡ min (bit a k) (bit b k)
bit-bit_and a b zero = omega (arith, bit_and_low a b)
bit-bit_and a b (suc k) =
    let half : bit_and a b / 2 ≡ bit_and (a / 2) (b / 2) = omega (arith, bit_and_low a b) in
    ap (λ t. bit t k) half ∙ bit-bit_and (a / 2) (b / 2) k

bit-zero : (k : ℕ) → bit 0 k ≡ 0
bit-zero zero = refl
bit-zero (suc k) = bit-zero k

-- The digits of `1 << i`.
pub bit-pow : (i k : ℕ) → bit (2 ^ i) k ≡ (if i == k then 1 else 0)
bit-pow zero zero = refl
bit-pow zero (suc k) = bit-zero k ∙ ground arith
bit-pow (suc i) zero = ground (arith, pow-suc 2 i)
bit-pow (suc i) (suc k) =
    let half : 2 ^ suc i / 2 ≡ 2 ^ i = omega (arith, pow-suc 2 i) in
    ap (λ t. bit t k) half ∙ bit-pow i k ∙ ground arith

-- The digits of `~m` at width `w`.
pub bit-complement : (w m k : ℕ) → m < 2 ^ w → k < w → bit (2 ^ w - 1 - m) k ≡ 1 - bit m k
bit-complement zero m k hm hk = absurd (omega arith)
bit-complement (suc w) m zero hm hk = omega (arith, pow-suc 2 w)
bit-complement (suc w) m (suc k) hm hk =
    let half : (2 ^ suc w - 1 - m) / 2 ≡ 2 ^ w - 1 - m / 2 = omega (arith, pow-suc 2 w) in
    ap (λ t. bit t k) half ∙ bit-complement w (m / 2) k (omega (arith, pow-suc 2 w)) (omega arith)

pub div-two-pow : (x k : ℕ) → x / 2 ^ suc k ≡ x / 2 / 2 ^ k
div-two-pow x k =
    ap (λ t. x / t) (pow-suc 2 k ∙ mul_comm (2 ^ k) 2) ∙ sym (div-div-eq-div-mul x 2 (2 ^ k))

-- `(x >> k) & 1` is digit `k`.
pub shr-bit : (x k : ℕ) → (x / 2 ^ k) % 2 ≡ bit x k
shr-bit x zero = omega arith
shr-bit x (suc k) = ap (λ t. t % 2) (div-two-pow x k) ∙ shr-bit (x / 2) k

-- Reading the lowest digit first from a remainder by a power of two.
mod-two-pow : (x k : ℕ) → (x / 2) % 2 ^ k * 2 + x % 2 ≡ x % 2 ^ suc k
mod-two-pow x k = omega (
  arith,
  pow-suc 2 k,
  div-two-pow x k,
  mod_def (x / 2) (2 ^ k),
  mod_def x (2 ^ suc k),
  mul-div-le (x / 2) (2 ^ k),
  ap (λ t. t * (x / 2 / 2 ^ k)) (pow-suc 2 k),
  ap (λ t. 2 ^ suc k * t) (div-two-pow x k),
)

-- Numbers with the same digits are equal.
pub bit_ext : (n a b : ℕ) → a < 2 ^ n → b < 2 ^ n → ((k : ℕ) → bit a k ≡ bit b k) → a ≡ b
bit_ext zero a b ha hb h = omega arith
bit_ext (suc n) a b ha hb h = omega (
  arith,
  h 0,
  bit_ext n (a / 2) (b / 2) (omega (arith, pow-suc 2 n)) (omega (arith, pow-suc 2 n))
      (λ k. h (suc k)),
)

bit_and-zero : (n a : ℕ) → a ≤ n → bit_and a 0 ≡ 0
bit_and-zero n zero h = refl
bit_and-zero zero (suc a) h = absurd (omega arith)
bit_and-zero (suc n) (suc a) h =
    omega (arith, bit_and_low (suc a) 0, bit_and-zero n (suc a / 2) (omega arith))

bit_or-zero : (n a : ℕ) → a ≤ n → bit_or a 0 ≡ a
bit_or-zero n zero h = refl
bit_or-zero zero (suc a) h = absurd (omega arith)
bit_or-zero (suc n) (suc a) h =
    omega (arith, bit_or_low (suc a) 0, bit_or-zero n (suc a / 2) (omega arith))

-- `&` with a mask of the low `k` digits.
pub bit_and_low_mask : (k a : ℕ) → bit_and a (2 ^ k - 1) ≡ a % 2 ^ k
bit_and_low_mask zero a = bit_and-zero a a (omega arith) ∙ omega arith
bit_and_low_mask (suc k) a =
    let half : (2 ^ suc k - 1) / 2 ≡ 2 ^ k - 1 = omega (arith, pow-suc 2 k) in
    let odd : (2 ^ suc k - 1) % 2 ≡ 1 = omega (arith, pow-suc 2 k, one-le-pow k 2) in
    let rest : bit_and (a / 2) ((2 ^ suc k - 1) / 2) ≡ (a / 2) % 2 ^ k =
      ap (bit_and (a / 2)) half ∙ bit_and_low_mask k (a / 2) in
    omega (arith, bit_and_low a (2 ^ suc k - 1), mod-two-pow a k)

-- `&` with a mask of `w` digits above the low `k`.
pub bit_and_high_mask :
    (k w a : ℕ) → a / 2 ^ k < 2 ^ w → bit_and a (2 ^ k * (2 ^ w - 1)) ≡ a / 2 ^ k * 2 ^ k
bit_and_high_mask zero w a h =
    let all : 1 * (2 ^ w - 1) ≡ 2 ^ w - 1 = omega arith in
    rw (all, bit_and_low_mask w a) (omega (arith, mod-eq_of_lt {n = a} {m = 2 ^ w} (omega arith)))
bit_and_high_mask (suc k) w a h =
    let m : ℕ = 2 ^ k * (2 ^ w - 1) in
    let twice : 2 ^ suc k * (2 ^ w - 1) ≡ m * 2 =
      omega (arith, ap (λ t. t * (2 ^ w - 1)) (pow-suc 2 k)) in
    let rest : bit_and (a / 2) (m * 2 / 2) ≡ a / 2 / 2 ^ k * 2 ^ k =
      ap (bit_and (a / 2)) (omega arith)
      ∙ bit_and_high_mask k w (a / 2) (omega (arith, div-two-pow a k)) in
    let whole : a / 2 ^ suc k * 2 ^ suc k ≡ a / 2 / 2 ^ k * 2 ^ k * 2 = omega (
      arith,
      ap (λ t. t * 2 ^ suc k) (div-two-pow a k),
      ap (λ t. a / 2 / 2 ^ k * t) (pow-suc 2 k),
    ) in
    rw twice (omega (arith, bit_and_low a (m * 2)))

-- `(q << k) | r` is a sum where `r` fits `k` digits.
pub bit_or_disjoint : (k q r : ℕ) → r < 2 ^ k → bit_or (q * 2 ^ k) r ≡ q * 2 ^ k + r
bit_or_disjoint zero q r h =
    let none_low : r ≡ 0 = omega arith in
    rw none_low (bit_or-zero (q * 1) (q * 1) (omega arith) ∙ omega arith)
bit_or_disjoint (suc k) q r h =
    let twice : q * 2 ^ suc k ≡ q * 2 ^ k * 2 = omega (arith, ap (λ t. q * t) (pow-suc 2 k)) in
    let half : q * 2 ^ suc k / 2 ≡ q * 2 ^ k = omega arith in
    let rest : bit_or (q * 2 ^ suc k / 2) (r / 2) ≡ q * 2 ^ k + r / 2 =
      rw half (bit_or_disjoint k q (r / 2) (omega (arith, pow-suc 2 k))) in
    omega (arith, bit_or_low (q * 2 ^ suc k) r)

-- `r | (q << k)` likewise.
pub bit_or_disjoint_right : (k q r : ℕ) → r < 2 ^ k → bit_or r (q * 2 ^ k) ≡ q * 2 ^ k + r
bit_or_disjoint_right zero q r h =
    let none_low : r ≡ 0 = omega arith in rw none_low (simp bit_or-bitwise (omega arith))
bit_or_disjoint_right (suc k) q r h =
    let twice : q * 2 ^ suc k ≡ q * 2 ^ k * 2 = omega (arith, ap (λ t. q * t) (pow-suc 2 k)) in
    let half : q * 2 ^ suc k / 2 ≡ q * 2 ^ k = omega arith in
    let rest : bit_or (r / 2) (q * 2 ^ suc k / 2) ≡ q * 2 ^ k + r / 2 =
      rw half (bit_or_disjoint_right k q (r / 2) (omega (arith, pow-suc 2 k))) in
    omega (arith, bit_or_low r (q * 2 ^ suc k))

-- `x | 0`
pub bit_or_nothing : (a : ℕ) → bit_or a 0 ≡ a
bit_or_nothing a = bit_or-zero a a (omega arith)

-- `x & 0`
pub bit_and_nothing : (a : ℕ) → bit_and a 0 ≡ 0
bit_and_nothing a = bit_and-zero a a (omega arith)

-- A single low digit, as a flag test `x & 1` reads it.
pub bit_and-one : (a : ℕ) → bit_and a 1 ≡ a % 2
bit_and-one a = bit_and_low_mask 1 a

pub pow_lt : (i n : ℕ) → i < n → 2 ^ i < 2 ^ n
pow_lt i zero h = absurd (omega arith)
pow_lt zero (suc n) h = omega (arith, pow-suc 2 n, one-le-pow n 2)
pow_lt (suc i) (suc n) h = omega (arith, pow-suc 2 i, pow-suc 2 n, pow_lt i n (omega arith))

-- A cast to `w` digits keeps the lower ones.
pub bit-mod : (w x k : ℕ) → k < w → bit (x % 2 ^ w) k ≡ bit x k
bit-mod zero x k h = absurd (omega arith)
bit-mod (suc w) x zero h = omega (arith, mod-two-pow x w)
bit-mod (suc w) x (suc k) h =
    let half : x % 2 ^ suc w / 2 ≡ (x / 2) % 2 ^ w = omega (arith, mod-two-pow x w) in
    ap (λ t. bit t k) half ∙ bit-mod w (x / 2) k (omega arith)

-- Setting and clearing one digit of a byte.
pub bit-set8 :
    (x i k : ℕ) → k < 8 → bit (bit_or x (2 ^ i) % 2 ^ 8) k ≡ (if i == k then 1 else bit x k)
bit-set8 x i k h =
    ground
      (arith, bit-mod 8 (bit_or x (2 ^ i)) k h, bit-bit_or x (2 ^ i) k, bit-pow i k, bit_le_one x k)

pub bit-clear8 :
    (x i k : ℕ)
    → i < 8
    → k < 8
    → bit (bit_and x (2 ^ 32 - 1 - 2 ^ i) % 2 ^ 8) k ≡ (if i == k then 0 else bit x k)
bit-clear8 x i k hi h = ground (
  arith,
  bit-mod 8 (bit_and x (2 ^ 32 - 1 - 2 ^ i)) k h,
  bit-bit_and x (2 ^ 32 - 1 - 2 ^ i) k,
  bit-complement 32 (2 ^ i) k (pow_lt i 32 (omega arith)) (omega arith),
  bit-pow i k,
  bit_le_one x k,
)

pub bit_or_lt : (w a b : ℕ) → a < 2 ^ w → b < 2 ^ w → bit_or a b < 2 ^ w
bit_or_lt zero a b ha hb =
    let a_zero : a ≡ 0 = omega arith in
    let b_zero : b ≡ 0 = omega arith in rw (a_zero, b_zero) (omega (arith, bit_or_nothing 0))
bit_or_lt (suc w) a b ha hb = omega (
  arith,
  bit_or_low a b,
  pow-suc 2 w,
  bit_or_lt w (a / 2) (b / 2) (omega (arith, pow-suc 2 w)) (omega (arith, pow-suc 2 w)),
)

-- a bit that has just been set
pub bit-bit_or_pow : (x k : ℕ) → bit (bit_or x (2 ^ k)) k ≡ 1
bit-bit_or_pow x k =
    let one : bit (2 ^ k) k ≡ 1 = bit-pow k k ∙ rw (==_refl k) in
    omega (arith, bit-bit_or x (2 ^ k) k, one, bit_le_one x k)
