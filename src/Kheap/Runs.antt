-- ===== src/Kheap/Runs.antt =====
-- Runs of pages of the kernel's heap, and when `kmalloc_aligned_multi` finds one.
use muse.Base.{
  ℕ, zero, suc, ◌+◌, ◌-◌, ◌*◌, ◌/◌, ◌%◌, ◌^◌, ◌≤◌, ◌<◌, ◌≡◌, ◌≢◌, ◌⊎◌, inl, inr, refl, ap, sym,
  subst, ◌∙◌, none, some, Option-cases, arith, shr, bit_and, u32, sub32, ==_refl, ==_ne, ℕ_discrete,
}
use muse.Base.Bits.{shr-bit, bit_and-one}
use muse.Kheap.{Kheap, set_page, find_run, set_run, grant_run, kmalloc_aligned_multi}
use muse.Kheap.Pages.{page_bit, set_page-bit, set_page-keeps}

-- the pages from `a` to `b`, without `b`, are free
abbrev pub AllFree : (ℕ → ℕ) → ℕ → ℕ → Type 0
AllFree bitmap a b = (j : ℕ) → a ≤ j → j < b → page_bit bitmap j ≡ 0

-- one more free page
AllFree-suc :
    (bitmap : ℕ → ℕ) (a n : ℕ)
    → AllFree bitmap a n
    → page_bit bitmap n ≡ 0
    → AllFree bitmap a (n + 1)
AllFree-suc bitmap a n free here j le lt = elim (ℕ_discrete j n) [
  | yes e ↦ ap (page_bit bitmap) e ∙ here
  | no ne ↦ free j le (omega arith)
]

-- no run of `cnt` free pages ends before page `n`: each stretch of as many has a page that is taken
abbrev pub NoneBefore : (ℕ → ℕ) → ℕ → ℕ → Type 0
NoneBefore bitmap cnt n =
    (end : ℕ)
    → cnt ≤ end
    → end < n
    → (j : ℕ) × (end - cnt ≤ j) × (j < end) × (page_bit bitmap j ≢ 0)

-- the loops at page `n`, behind `contig` free pages
record IsScan (bitmap : ℕ → ℕ) (cnt contig n : ℕ) : Type 0 where
  pub le : contig ≤ n
  pub short : contig ≤ cnt
  pub free : AllFree bitmap (n - contig) n
  pub taken : contig < n → page_bit bitmap (n - contig - 1) ≢ 0
  pub earlier : NoneBefore bitmap cnt n

IsScan-start : (bitmap : ℕ → ℕ) (cnt : ℕ) → IsScan bitmap cnt 0 0
IsScan-start bitmap cnt = record {
  le = omega arith;
  short = omega arith;
  free = λ j above below. absurd (omega (arith, below));
  taken = λ lt. absurd (omega (arith, lt));
  earlier = λ end fits lt. absurd (omega (arith, lt));
}

module _ (bitmap : ℕ → ℕ) (cnt contig n : ℕ) (v : IsScan bitmap cnt contig n)
    (ne : contig ≢ cnt) where
  none_here : NoneBefore bitmap cnt (n + 1)
  none_here end fits lt = elim (ℕ_discrete end n) [
    | yes e ↦ (
      n - contig - 1,
      omega (arith, v.le, v.short, e, fits),
      omega (arith, v.le, v.short, e, fits),
      v.taken (omega (arith, v.le, v.short, e, fits)),
    )
    | no other ↦ v.earlier end fits (omega arith)
  ]

  IsScan-free : page_bit bitmap n ≡ 0 → IsScan bitmap cnt (contig + 1) (n + 1)
  IsScan-free here = record {
    le = omega (arith, v.le);
    short = omega (arith, v.short);
    free = λ j above below.
        AllFree-suc bitmap (n - contig) n v.free here j (omega (arith, above, v.le)) below;
    taken = λ lt.
        let same : n - contig - 1 ≡ n + 1 - (contig + 1) - 1 = omega arith in
        subst (λ t. page_bit bitmap t ≢ 0) same (v.taken (omega (arith, lt)));
    earlier = none_here;
  }

  IsScan-taken : page_bit bitmap n ≢ 0 → IsScan bitmap cnt 0 (n + 1)
  IsScan-taken here = record {
    le = omega arith;
    short = omega arith;
    free = λ j above below. absurd (omega (arith, above, below));
    taken = λ lt.
        let same : n ≡ n + 1 - 0 - 1 = omega arith in subst (λ t. page_bit bitmap t ≢ 0) same here;
    earlier = none_here;
  }

-- What the loops stop at, of `total` pages: the first run of `cnt` free pages, or 32 pages behind the
-- last page, where the first such run ends.
abbrev RunEnd : (ℕ → ℕ) → ℕ → ℕ → ℕ → Type 0
RunEnd bitmap cnt total end =
    ((end ≡ total + 32)
      × (cnt ≤ total)
      × AllFree bitmap (total - cnt) total
      × NoneBefore bitmap cnt total)
    ⊎ ((end < total) × (cnt ≤ end) × AllFree bitmap (end - cnt) end × NoneBefore bitmap cnt end)

find_run-RunEnd :
    (left : ℕ) (bitmap : ℕ → ℕ) (cnt contig n total end : ℕ)
    → n + left ≡ total
    → IsScan bitmap cnt contig n
    → find_run left bitmap cnt contig n ≡ some end
    → RunEnd bitmap cnt total end
unfolding find_run
find_run-RunEnd zero bitmap cnt contig n total end size v h = elim (ℕ_discrete contig cnt) [
  | yes e ↦
      let stop : some (n + 32) ≡ some end = sym (rw (e, ==_refl cnt) refl) ∙ h in
      let same : n + 32 ≡ end = cc stop in
      let last : n ≡ total = omega (arith, size) in
      inl (
        omega (arith, same, last),
        omega (arith, e, last, v.le),
        λ j above below. v.free j (omega (arith, above, e, last)) (omega (arith, below, last)),
        λ stop fits lt. v.earlier stop fits (omega (arith, lt, last)),
      )
  | no ne ↦ let nothing : none ≡ some end = sym (rw (==_ne _ _ ne) refl) ∙ h in absurd (cc nothing)
]
find_run-RunEnd (suc left) bitmap cnt contig n total end size v h = elim (ℕ_discrete contig cnt) [
  | yes e ↦
      let stop : some n ≡ some end = sym (rw (e, ==_refl cnt) refl) ∙ h in
      let same : n ≡ end = cc stop in
      inr (
        omega (arith, same, size),
        omega (arith, same, e, v.le),
        λ j above below. v.free j (omega (arith, above, same, e)) (omega (arith, below, same)),
        λ stop fits lt. v.earlier stop fits (omega (arith, lt, same)),
      )
  | no ne ↦
      let shown : bit_and (shr (bitmap (n / 32)) (n % 32)) 1 ≡ page_bit bitmap n =
        bit_and-one (shr (bitmap (n / 32)) (n % 32)) ∙ shr-bit (bitmap (n / 32)) (n % 32) in
      elim (ℕ_discrete (bit_and (shr (bitmap (n / 32)) (n % 32)) 1) 0) [
        | yes zero_bit ↦
            let next : find_run left bitmap cnt (contig + 1) (n + 1) ≡ some end =
              sym (rw (==_ne _ _ ne, zero_bit) refl) ∙ h in
            find_run-RunEnd left bitmap cnt (contig + 1) (n + 1) total end (omega (arith, size))
              (IsScan-free bitmap cnt contig n v ne (sym shown ∙ zero_bit)) next
        | no taken ↦
            let next : find_run left bitmap cnt 0 (n + 1) ≡ some end =
              sym (rw (==_ne _ _ ne, ==_ne _ _ taken) refl) ∙ h in
            find_run-RunEnd left bitmap cnt 0 (n + 1) total end (omega (arith, size))
              (IsScan-taken bitmap cnt contig n v ne (λ e. taken (shown ∙ e))) next
      ]
]

-- the pages that are marked
set_run-keeps :
    (left : ℕ) (k : Kheap) (n m : ℕ)
    → page_bit k.page_bitmap m ≡ 1
    → page_bit (set_run left k n).page_bitmap m ≡ 1
unfolding set_run
set_run-keeps zero k n m h = h
set_run-keeps (suc left) k n m h =
    set_run-keeps left (set_page k n) (n + 1) m (set_page-keeps k n m h)

set_run-page_bit :
    (left : ℕ) (k : Kheap) (n m : ℕ)
    → n ≤ m
    → m < n + left
    → page_bit (set_run left k n).page_bitmap m ≡ 1
unfolding set_run
set_run-page_bit zero k n m le lt = absurd (omega arith)
set_run-page_bit (suc left) k n m le lt = elim (ℕ_discrete n m) [
  | yes e ↦
      set_run-keeps left (set_page k n) (n + 1) m
        (ap (page_bit (set_page k n).page_bitmap) (sym e) ∙ set_page-bit k n)
  | no ne ↦ set_run-page_bit left (set_page k n) (n + 1) m (omega arith) (omega arith)
]

-- what `kmalloc_aligned_multi` returns: the first page `first` of `cnt` pages that were free and are
-- taken
pub record IsRun (k : Kheap) (cnt : ℕ) (g : Kheap) (a : ℕ) : Type 0 where
  pub first : ℕ
  pub fits : first + cnt < k.bitmap_cnt * 32
  pub address : a ≡ u32 (k.aligned_start + first * 4096)
  pub was_free : AllFree k.page_bitmap first (first + cnt)
  pub first_one : NoneBefore k.page_bitmap cnt (first + cnt)
  pub taken : (j : ℕ) → first ≤ j → j < first + cnt → page_bit g.page_bitmap j ≡ 1

-- or, if the first run of `cnt` free pages ends with the last page, pages that start 32 pages too late
pub record IsLate (k : Kheap) (cnt : ℕ) (g : Kheap) (a : ℕ) : Type 0 where
  pub fits : cnt ≤ k.bitmap_cnt * 32
  pub run : AllFree k.page_bitmap (k.bitmap_cnt * 32 - cnt) (k.bitmap_cnt * 32)
  pub only : NoneBefore k.page_bitmap cnt (k.bitmap_cnt * 32)
  pub address : a ≡ u32 (k.aligned_start + (k.bitmap_cnt * 32 + 32 - cnt) * 4096)
  pub heap : g ≡ set_run cnt k (k.bitmap_cnt * 32 + 32 - cnt)

granted_run :
    (k g : Kheap) (cnt end a : ℕ)
    → cnt ≤ end
    → end < 2 ^ 32
    → grant_run k cnt (some end) ≡ some (g, a)
    → (g ≡ set_run cnt k (end - cnt)) × (a ≡ u32 (k.aligned_start + (end - cnt) * 4096))
unfolding grant_run
granted_run k g cnt end a le small h =
    let first = end - cnt in
    let place : ℕ = u32 (k.aligned_start + (first / 32 * 32 + sub32 end cnt % 32) * 4096) in
    let pair : Path (Kheap × ℕ) (set_run cnt k first, place) (g, a) = cc h in
    let wrap : sub32 end cnt ≡ first = omega (arith, le, small) in
    let split : first / 32 * 32 + first % 32 ≡ first = omega arith in
    let number : first / 32 * 32 + sub32 end cnt % 32 ≡ first = rw wrap split in
    (
      sym (ap (λ p. p.0) pair),
      sym (ap (λ p. p.1) pair) ∙ ap (λ t. u32 (k.aligned_start + t * 4096)) number,
    )

run_end :
    (k g : Kheap) (cnt end a : ℕ)
    → k.bitmap_cnt * 32 + 32 < 2 ^ 32
    → grant_run k cnt (some end) ≡ some (g, a)
    → RunEnd k.page_bitmap cnt (k.bitmap_cnt * 32) end
    → IsRun k cnt g a ⊎ IsLate k cnt g a
run_end k g cnt end a small h (inl (e, le, free, only)) =
    let (heap, address) =
      granted_run k g cnt end a (omega (arith, e, le)) (omega (arith, e, small)) h in
    let last : end - cnt ≡ k.bitmap_cnt * 32 + 32 - cnt = omega (arith, e) in
    inr (record {
      fits = le;
      run = free;
      only = only;
      address = address ∙ ap (λ t. u32 (k.aligned_start + t * 4096)) last;
      heap = heap ∙ ap (set_run cnt k) last;
    })
run_end k g cnt end a small h (inr (lt, le, free, only)) =
    let (heap, address) = granted_run k g cnt end a le (omega (arith, lt, small)) h in
    inl (record {
      first = end - cnt;
      fits = omega (arith, lt, le);
      address = address;
      was_free = λ j above below. free j above (omega (arith, below, le));
      first_one = λ stop fit below. only stop fit (omega (arith, below, le));
      taken = λ j above below.
          subst (λ t. page_bit t.page_bitmap j ≡ 1) (sym heap)
            (set_run-page_bit cnt k (end - cnt) j above below);
    })

-- `kmalloc_aligned_multi` returns the first run of `cnt` free pages, which then are taken, if that run
-- ends before the last page. If the first such run ends with the last page, the pages that it takes
-- and returns start 32 pages behind it. The bitmap has less than 2 ^ 32 - 32 bits.
pub kmalloc_aligned_multi-IsRun :
    (k g : Kheap) (cnt a : ℕ)
    → k.bitmap_cnt * 32 + 32 < 2 ^ 32
    → kmalloc_aligned_multi k cnt ≡ some (g, a)
    → IsRun k cnt g a ⊎ IsLate k cnt g a
unfolding kmalloc_aligned_multi grant_run
kmalloc_aligned_multi-IsRun k g cnt a small h =
    let search = find_run (k.bitmap_cnt * 32) k.page_bitmap cnt 0 0 in
    elim (Option-cases search) [
      | inl nothing ↦
          let failed : kmalloc_aligned_multi k cnt ≡ none = ap (grant_run k cnt) nothing in
          absurd (cc failed)
      | inr (end, found) ↦
          let granted : grant_run k cnt (some end) ≡ some (g, a) =
            sym (ap (grant_run k cnt) found) ∙ h in
          run_end k g cnt end a small granted (
            find_run-RunEnd (k.bitmap_cnt * 32) k.page_bitmap cnt 0 0 (k.bitmap_cnt * 32) end
              (omega arith) (IsScan-start k.page_bitmap cnt) found)
    ]
