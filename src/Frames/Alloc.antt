-- ===== src/Frames/Alloc.antt =====
-- What `kpage_alloc` hands out, and when it gives up.
use muse.Base.{
  ℕ, ◌+◌, ◌*◌, ◌/◌, ◌%◌, ◌≤◌, ◌<◌, ◌≡◌, refl, sym, ap, ◌∙◌, ◌≢◌, ◌↔◌, ◌⊎◌, inl, inr, none, some,
  List, [], ◌∷◌, arith, ◌==◌, ◌&&◌, if◌then◌else◌, Option-cases, subst,
}
use muse.Base.Bits.{bit, bit-set8}
use muse.Base.Memory.{Bytes}
use muse.Frames.{Region, page_size, mark, find_free, kpage_alloc}
use muse.Frames.Scan.{Fits, FreeToEnd, page_bit, FreeToEnd-bit, scan-some, scan-none}

abbrev pub AllRegions : (Region → Type 0) → List Region → Type 0
AllRegions P [] = Unit
AllRegions P (r ∷ rs) = P r × AllRegions P rs

abbrev pub In : Region → List Region → Type 0
In r [] = ⊥
In r (s ∷ rs) = (r ≡ s) ⊎ In r rs

-- Two regions with no page in common.
abbrev pub Apart : Region → Region → Type 0
Apart r s = (r.addr + r.pg_cnt * page_size ≤ s.addr) ⊎ (s.addr + s.pg_cnt * page_size ≤ r.addr)

abbrev pub AllApart : List Region → Type 0
AllApart [] = Unit
AllApart (r ∷ rs) = AllRegions (Apart r) rs × AllApart rs

-- The record of a page: region `r`, index `i`, address `p`.
pub record Page (rs : List Region) (p : ℕ) : Type 0 where
  pub region : Region
  pub index : ℕ
  pub member : In region rs
  pub address : p ≡ region.addr + index * page_size
  pub within : index < region.pg_cnt

page_weaken : {rs : List Region} {p : ℕ} (r : Region) → Page rs p → Page (r ∷ rs) p
page_weaken r pg = record {
  region = pg.region;
  index = pg.index;
  member = inr pg.member;
  address = pg.address;
  within = pg.within;
}

-- What a successful allocation does: the page was free and is now marked.
pub record Granted (rs : List Region) (m : Bytes) (p : ℕ) (m' : Bytes) : Type 0 where
  pub page : Page rs p
  pub was_free : page_bit m page.region page.index ≡ 0
  pub marked : m' ≡ mark m page.region page.index

Granted-weaken :
    {rs : List Region} {m m' : Bytes} {p : ℕ} (r : Region)
    → Granted rs m p m'
    → Granted (r ∷ rs) m p m'
unfolding page_weaken
Granted-weaken r g = record {
  page = page_weaken r g.page;
  was_free = g.was_free;
  marked = g.marked;
}

-- `kpage_alloc` hands out a page of one of the regions that was free, and marks just that page.
pub kpage_alloc-Granted :
    (rs : List Region) (m : Bytes) (p : ℕ) (m' : Bytes)
    → AllRegions Fits rs
    → kpage_alloc rs m ≡ some (p, m')
    → Granted rs m p m'
unfolding kpage_alloc
kpage_alloc-Granted [] m p m' fits h = absurd (cc)
kpage_alloc-Granted (r ∷ rs) m p m' fits h =
    elim (Option-cases (find_free (r.pg_cnt + 1) m r r.addr 0)) [
      | inl e ↦ Granted-weaken r (kpage_alloc-Granted rs m p m' fits.1 (ground arith))
      | inr ((a, i), e) ↦
          let (at, lt, free) = scan-some m r fits.0 a i e in
          record {
            page = record {
              region = r;
              index = i;
              member = inl refl;
              address = ground arith;
              within = lt;
            };
            was_free = FreeToEnd-bit m r i free;
            marked = ground arith;
          }
    ]

-- The scan's test refuses every page of the region.
abbrev pub Refused : Bytes → Region → Type 0
Refused m r = (i : ℕ) → i < r.pg_cnt → ¬ FreeToEnd m r i

Refused-all :
    (rs : List Region) (m : Bytes)
    → AllRegions Fits rs
    → kpage_alloc rs m ≡ none
    → AllRegions (Refused m) rs
unfolding kpage_alloc
Refused-all [] m fits h = tt
Refused-all (r ∷ rs) m fits h = elim (Option-cases (find_free (r.pg_cnt + 1) m r r.addr 0)) [
  | inl e ↦ (scan-none m r fits.0 e, Refused-all rs m fits.1 (ground arith))
  | inr ((a, i), e) ↦ absurd (ground arith)
]

gives_up :
    (rs : List Region) (m : Bytes)
    → AllRegions Fits rs
    → AllRegions (Refused m) rs
    → kpage_alloc rs m ≡ none
unfolding kpage_alloc
gives_up [] m fits h = refl
gives_up (r ∷ rs) m fits h = elim (Option-cases (find_free (r.pg_cnt + 1) m r r.addr 0)) [
  | inl e ↦ ground (arith, gives_up rs m fits.1 h.1)
  | inr ((a, i), e) ↦ let (at, lt, free) = scan-some m r fits.0 a i e in absurd (h.0 i lt free)
]

-- The allocator reports that memory is exhausted exactly when in every region each page has a
-- taken page between itself and the end of its bitmap byte, itself included: a free page below
-- a taken one of the same byte is not found.
pub kpage_alloc-none_iff :
    (rs : List Region) (m : Bytes)
    → AllRegions Fits rs
    → (kpage_alloc rs m ≡ none) ↔ AllRegions (Refused m) rs
kpage_alloc-none_iff rs m fits = (Refused-all rs m fits, gives_up rs m fits)

-- After marking page `i`, its bit is set, and no other bit of memory has changed.
pub bit-mark :
    (m : Bytes) (r : Region) (i b k : ℕ)
    → k < 8
    → bit (mark m r i b) k ≡ (if (r.bitmap + i / 8 == b) && (i % 8 == k) then 1 else bit (m b) k)
bit-mark m r i b k h = ground (arith, bit-set8 (m (r.bitmap + i / 8)) (i % 8) k h)

page_bit-mark : (m : Bytes) (r : Region) (i : ℕ) → page_bit (mark m r i) r i ≡ 1
page_bit-mark m r i = ground (arith, bit-mark m r i (r.bitmap + i / 8) (i % 8) (omega arith))

pub all_in : (P : Region → Type 0) (rs : List Region) (s : Region) → AllRegions P rs → In s rs → P s
all_in P [] s all h = absurd h
all_in P (r ∷ rs) s all (inl e) = subst P (sym e) all.0
all_in P (r ∷ rs) s all (inr h) = all_in P rs s all.1 h

-- Two regions of an apart list that share a page are the same.
pub same_region :
    (rs : List Region) (r s : Region) (i j : ℕ)
    → AllApart rs
    → In r rs
    → In s rs
    → i < r.pg_cnt
    → j < s.pg_cnt
    → r.addr + i * page_size ≡ s.addr + j * page_size
    → r ≡ s
same_region (t ∷ rs) r s i j apart (inl er) (inl es) hi hj e = er ∙ sym es
same_region (t ∷ rs) r s i j apart (inl er) (inr hs) hi hj e =
    absurd
      (ground (arith, all_in (Apart t) rs s apart.0 hs, ap Region.addr er, ap Region.pg_cnt er))
same_region (t ∷ rs) r s i j apart (inr hr) (inl es) hi hj e =
    absurd
      (ground (arith, all_in (Apart t) rs r apart.0 hr, ap Region.addr es, ap Region.pg_cnt es))
same_region (t ∷ rs) r s i j apart (inr hr) (inr hs) hi hj e =
    same_region rs r s i j apart.1 hr hs hi hj e
same_region [] r s i j apart hr hs hi hj e = absurd hr

-- Two allocations in a row never hand out the same page.
pub kpage_alloc_twice :
    (rs : List Region) (m m' m'' : Bytes) (p q : ℕ)
    → AllRegions Fits rs
    → AllApart rs
    → kpage_alloc rs m ≡ some (p, m')
    → kpage_alloc rs m' ≡ some (q, m'')
    → p ≢ q
kpage_alloc_twice rs m m' m'' p q fits apart h h' e =
    let g = kpage_alloc-Granted rs m p m' fits h in
    let g' = kpage_alloc-Granted rs m' q m'' fits h' in
    let r = g.page.region in
    let i = g.page.index in
    let one : r ≡ g'.page.region =
      same_region rs r g'.page.region i g'.page.index apart g.page.member g'.page.member
        g.page.within g'.page.within (sym g.page.address ∙ e ∙ g'.page.address) in
    let again : page_bit m' r g'.page.index ≡ 0 =
      subst (λ t. page_bit m' t g'.page.index ≡ 0) (sym one) g'.was_free in
    let same : g'.page.index ≡ i =
      omega (arith, ap Region.addr one, g.page.address, g'.page.address) in
    let taken : page_bit m' r i ≡ 1 =
      subst (λ t. page_bit t r i ≡ 1) (sym g.marked) (page_bit-mark m r i) in
    omega (arith, taken, subst (λ t. page_bit m' r t ≡ 0) same again)
