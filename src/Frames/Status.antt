-- ===== src/Frames/Status.antt =====
-- `kpage_set_status` reaches the page it is asked for, and undoes an allocation.
use muse.Base.{
  ℕ, ◌+◌, ◌*◌, ◌/◌, ◌%◌, ◌≤◌, ◌<◌, ◌≡◌, sym, ◌⊎◌, inl, inr, some, true, false, Bool, List, [], ◌∷◌,
  arith, ◌==◌, ◌&&◌, leb, if◌then◌else◌, sub32, subst,
}
use muse.Base.Bits.{bit, bit-clear8}
use muse.Base.Memory.{Bytes}
use muse.Frames.{Region, page_size, page_addr, limit, mark, unmark, kpage_alloc, kpage_set_status}
use muse.Frames.Scan.{Fits}
use muse.Frames.Alloc.{AllRegions, In, all_in, kpage_alloc-Granted, bit-mark}

-- `r` ends below `s` or the other way round, with a gap: `kpage_set_status` also takes the address
-- at the end of a region for one of its pages.
abbrev pub Gap : Region → Region → Type 0
Gap r s = (r.addr + r.pg_cnt * page_size < s.addr) ⊎ (s.addr + s.pg_cnt * page_size ≤ r.addr)

abbrev pub AllGaps : List Region → Type 0
AllGaps [] = Unit
AllGaps (r ∷ rs) = AllRegions (Gap r) rs × AllGaps rs

-- In regions with gaps, the status of page `i` of `r` is set at bit `i` of the bitmap of `r`.
pub kpage_set_status_lem :
    (rs : List Region) (m : Bytes) (r : Region) (i : ℕ) (free : Bool)
    → AllRegions Fits rs
    → AllGaps rs
    → In r rs
    → i < r.pg_cnt
    → kpage_set_status rs m (page_addr r i) free ≡ (if free then unmark m r i else mark m r i)
unfolding kpage_set_status
kpage_set_status_lem [] m r i free fits gaps h lt = absurd h
kpage_set_status_lem (s ∷ rs) m r i free fits gaps (inl e) lt =
    subst
      (λ t.
        i < t.pg_cnt
        → kpage_set_status (s ∷ rs) m (page_addr t i) free
          ≡ (if free then unmark m t i else mark m t i))
      (sym e) here lt
  where
    here :
        i < s.pg_cnt
        → kpage_set_status (s ∷ rs) m (page_addr s i) free
          ≡ (if free then unmark m s i else mark m s i)
    here l =
        let low : leb s.addr (page_addr s i) ≡ true = ground arith in
        let high : leb (page_addr s i) (limit s) ≡ true = ground arith in
        let index : sub32 (page_addr s i) s.addr / page_size ≡ i = omega arith in
        rw (low, high, index)
kpage_set_status_lem (s ∷ rs) m r i free fits gaps (inr h) lt =
    let apart : Gap s r = all_in (Gap s) rs r gaps.0 h in
    let test : (leb s.addr (page_addr r i) && leb (page_addr r i) (limit s)) ≡ false =
      ground arith in
    rw test (kpage_set_status_lem rs m r i free fits.1 gaps.1 h lt)

bit-unmark :
    (m : Bytes) (r : Region) (i b k : ℕ)
    → k < 8
    → bit (unmark m r i b) k ≡ (if (r.bitmap + i / 8 == b) && (i % 8 == k) then 0 else bit (m b) k)
bit-unmark m r i b k h = ground (arith, bit-clear8 (m (r.bitmap + i / 8)) (i % 8) k (omega arith) h)

-- In regions with gaps between them, giving an allocated page back restores every bit of the
-- bitmaps.
pub kpage_set_status-kpage_alloc :
    (rs : List Region) (m m' : Bytes) (p b k : ℕ)
    → AllRegions Fits rs
    → AllGaps rs
    → kpage_alloc rs m ≡ some (p, m')
    → k < 8
    → bit (kpage_set_status rs m' p true b) k ≡ bit (m b) k
kpage_set_status-kpage_alloc rs m m' p b k fits gaps h hk =
    let g = kpage_alloc-Granted rs m p m' fits h in
    let r = g.page.region in
    let i = g.page.index in
    let done : kpage_set_status rs m' p true ≡ unmark m' r i =
      subst (λ t. kpage_set_status rs m' t true ≡ unmark m' r i) (sym g.page.address)
        (kpage_set_status_lem rs m' r i true fits gaps g.page.member g.page.within) in
    rw (done, g.marked)
      (ground (arith, bit-unmark (mark m r i) r i b k hk, bit-mark m r i b k hk, g.was_free))
