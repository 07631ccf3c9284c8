-- ===== src/Sync/Threads.antt =====
-- Families indexed by thread, and the sum of a weight over the first `n` threads.
use muse.Base.{ℕ, zero, suc, ◌+◌, ◌≤◌, ◌<◌, ◌≡◌, refl, arith, update, dec_lt, ℕ_discrete}

module _ {ℓ} {A : Type ℓ} (weight : A → ℕ) where
  pub sum_of : ℕ → (ℕ → A) → ℕ
  sum_of zero f = 0
  sum_of (suc n) f = sum_of n f + weight (f n)

  sum_of-update_above : (n i : ℕ) (f : ℕ → A) (a : A) → n ≤ i → sum_of n (update f i a) ≡ sum_of n f
  unfolding sum_of
  sum_of-update_above zero i f a h = refl
  sum_of-update_above (suc n) i f a h = ground (arith, sum_of-update_above n i f a)

  -- Giving thread `i` the value `a` exchanges its weight.
  pub sum_of-update :
      (n i : ℕ) (f : ℕ → A) (a : A)
      → i < n
      → sum_of n (update f i a) + weight (f i) ≡ sum_of n f + weight a
  unfolding sum_of
  sum_of-update zero i f a h = absurd (omega arith)
  sum_of-update (suc n) i f a h = elim (dec_lt i n) [
    | yes before ↦ ground (arith, sum_of-update n i f a before)
    | no last ↦ ground (arith, sum_of-update_above n i f a)
  ]

  pub sum_of-ge : (n i : ℕ) (f : ℕ → A) → i < n → weight (f i) ≤ sum_of n f
  unfolding sum_of
  sum_of-ge zero i f h = absurd (omega arith)
  sum_of-ge (suc n) i f h = elim (ℕ_discrete i n) [
    | yes e ↦ ground arith
    | no ne ↦ omega (arith, sum_of-ge n i f (omega arith))
  ]

  pub sum_of-zero : (n : ℕ) (f : ℕ → A) → ((i : ℕ) → weight (f i) ≡ 0) → sum_of n f ≡ 0
  unfolding sum_of
  sum_of-zero zero f h = refl
  sum_of-zero (suc n) f h = omega (arith, h n, sum_of-zero n f h)

  pub sum_of-le : ((a : A) → weight a ≤ 1) → (n : ℕ) (f : ℕ → A) → sum_of n f ≤ n
  unfolding sum_of
  sum_of-le small zero f = omega arith
  sum_of-le small (suc n) f = omega (arith, small (f n), sum_of-le small n f)
