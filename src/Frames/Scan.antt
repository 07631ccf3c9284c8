-- ===== src/Frames/Scan.antt =====
-- What the bitmap scan of `kpage_alloc` finds.
use muse.Base.{
  ℕ, zero, suc, ◌+◌, ◌*◌, ◌/◌, ◌%◌, ◌^◌, ◌≤◌, ◌<◌, ◌≡◌, ap, sym, subst, ◌∙◌, none, some, arith, ltb,
  ◌==◌, if◌then◌else◌, shr, u32, dec_lt, ℕ_discrete, true, false,
}
use muse.Base.Bits.{bit, shr-bit}
use muse.Base.Memory.{Bytes}
use muse.Frames.{Region, page_size, page_addr, limit, find_free}

-- A region that does not run over the end of the address space.
abbrev pub Fits : Region → Type 0
Fits r = r.addr + r.pg_cnt * page_size < 2 ^ 32

-- The test of the scan at page `i`: no page from `i` to the end of its byte is taken.
abbrev pub FreeToEnd : Bytes → Region → ℕ → Type 0
FreeToEnd m r i = shr (m (r.bitmap + i / 8)) (i % 8) ≡ 0

-- the allocation bit of page `i`
abbrev pub page_bit : Bytes → Region → ℕ → ℕ
page_bit m r i = bit (m (r.bitmap + i / 8)) (i % 8)

pub FreeToEnd-bit : (m : Bytes) (r : Region) (i : ℕ) → FreeToEnd m r i → page_bit m r i ≡ 0
FreeToEnd-bit m r i h = sym (shr-bit (m (r.bitmap + i / 8)) (i % 8)) ∙ ap (λ t. t % 2) h

module _ (m : Bytes) (r : Region) (fits : Fits r) where
  next_page :
      (fuel idx : ℕ)
      → idx < r.pg_cnt
      → find_free (suc fuel) m r (page_addr r idx) idx ≡ (
          if shr (m (r.bitmap + idx / 8)) (idx % 8) == 0
          then some (page_addr r idx, idx)
          else find_free fuel m r (page_addr r (idx + 1)) (idx + 1))
  unfolding find_free
  next_page fuel idx lt =
      let below : ltb (r.addr + idx * page_size) (limit r) ≡ true = ground arith in
      let addr_next : u32 (r.addr + idx * page_size + page_size) ≡ r.addr + (idx + 1) * page_size =
        omega arith in
      let idx_next : u32 (idx + 1) ≡ idx + 1 = omega arith in rw (below, addr_next, idx_next)

  last_page :
      (fuel idx : ℕ) → idx ≡ r.pg_cnt → find_free (suc fuel) m r (page_addr r idx) idx ≡ none
  unfolding find_free
  last_page fuel idx e =
      let above : ltb (r.addr + idx * page_size) (limit r) ≡ false = ground arith in rw above

  find_free-some :
      (fuel idx a i : ℕ)
      → idx ≤ r.pg_cnt
      → find_free fuel m r (page_addr r idx) idx ≡ some (a, i)
      → (a ≡ page_addr r i) × (i < r.pg_cnt) × FreeToEnd m r i
  find_free-some zero idx a i le h = absurd (unfold find_free in cc)
  find_free-some (suc fuel) idx a i le h = elim (dec_lt idx r.pg_cnt) [
    | yes lt ↦
        ground (arith, next_page fuel idx lt, find_free-some fuel (idx + 1) a i (omega arith))
    | no stop ↦ absurd (cc (last_page fuel idx (omega arith)))
  ]

  -- With fuel for every page, a failed scan has refused every page.
  find_free-none :
      (fuel idx : ℕ)
      → idx ≤ r.pg_cnt
      → r.pg_cnt < idx + fuel
      → find_free fuel m r (page_addr r idx) idx ≡ none
      → (i : ℕ) → idx ≤ i
      → i < r.pg_cnt
      → ¬ FreeToEnd m r i
  find_free-none zero idx top enough h i le lt free = absurd (omega arith)
  find_free-none (suc fuel) idx top enough h i le lt free = elim (ℕ_discrete idx i) [
    | yes e ↦
        let here : FreeToEnd m r idx = subst (FreeToEnd m r) (sym e) free in
        ground (arith, next_page fuel idx (omega arith))
    | no ne ↦
        find_free-none fuel (idx + 1) (omega arith) (omega arith)
          (ground (arith, next_page fuel idx (omega arith))) i (omega arith) lt free
  ]

  at_start : page_addr r 0 ≡ r.addr
  at_start = omega arith

  -- The scan of a whole region.
  pub scan-some :
      (a i : ℕ)
      → find_free (r.pg_cnt + 1) m r r.addr 0 ≡ some (a, i)
      → (a ≡ page_addr r i) × (i < r.pg_cnt) × FreeToEnd m r i
  scan-some a i h = find_free-some (r.pg_cnt + 1) 0 a i (omega arith) (rw at_start h)

  pub scan-none :
      find_free (r.pg_cnt + 1) m r r.addr 0 ≡ none → (i : ℕ) → i < r.pg_cnt → ¬ FreeToEnd m r i
  scan-none h i lt =
      find_free-none (r.pg_cnt + 1) 0 (omega arith) (omega arith) (rw at_start h) i (omega arith) lt
