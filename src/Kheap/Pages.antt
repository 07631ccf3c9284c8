-- ===== src/Kheap/Pages.antt =====
-- The pages that the kernel's heap hands out.
use muse.Base.{
  ℕ, zero, suc, ◌+◌, ◌-◌, ◌*◌, ◌/◌, ◌%◌, ◌^◌, ◌≤◌, ◌<◌, true, ◌≡◌, ◌≢◌, subst, refl, ap, sym, ◌∙◌,
  Bool, false, Option, sub32, if◌then◌else◌, none, some, Option-cases, arith, shr, one_shl, bit_or,
  u32, ==_refl, ==_ne, ℕ_discrete, inl, inr,
}
use muse.Base.Bits.{bit-bit_or, bit_le_one, bit, shr-bit, bit-bit_or_pow}
use muse.Kheap.{
  Kheap, grant_page, find_page, set_page, kmalloc_aligned, kfree, kmalloc_aligned_multi, set_run,
  grant_run,
}

-- the allocation bit of page `n`
abbrev pub page_bit : (ℕ → ℕ) → ℕ → ℕ
page_bit bitmap n = bit (bitmap (n / 32)) (n % 32)

-- What the scan finds is in range and free.
find_page-free :
    (left : ℕ) (bitmap : ℕ → ℕ) (n k : ℕ)
    → find_page left bitmap n ≡ some k
    → (n ≤ k) × (k < n + left) × (page_bit bitmap k ≡ 0)
unfolding find_page
find_page-free zero bitmap n k h = absurd (cc)
find_page-free (suc left) bitmap n k h = elim (ℕ_discrete (shr (bitmap (n / 32)) (n % 32)) 0) [
  | yes free ↦
      let e : some n ≡ some k = sym (rw free refl) ∙ h in
      let same : n ≡ k = cc e in
      (
        omega (arith, same),
        omega (arith, same),
        ap (page_bit bitmap) (sym same)
            ∙ sym (shr-bit (bitmap (n / 32)) (n % 32))
            ∙ ap (λ t. t % 2) free,
      )
  | no taken ↦
      let e : find_page left bitmap (n + 1) ≡ some k = sym (rw (==_ne _ _ taken) refl) ∙ h in
      let (le, lt, free) = find_page-free left bitmap (n + 1) k e in
      (omega arith, omega arith, free)
]

-- the words of the bitmap after a page is taken
same_word :
    (k : Kheap) (n w : ℕ)
    → n / 32 ≡ w
    → (set_page k n).page_bitmap w ≡ bit_or (k.page_bitmap w) (one_shl (n % 32))
same_word k n w e = rw (e, ==_refl w) refl

other_word : (k : Kheap) (n w : ℕ) → n / 32 ≢ w → (set_page k n).page_bitmap w ≡ k.page_bitmap w
other_word k n w ne = rw (==_ne _ _ ne) refl

-- The page that is taken has its bit set, and no bit is cleared.
pub set_page-bit : (k : Kheap) (n : ℕ) → page_bit (set_page k n).page_bitmap n ≡ 1
set_page-bit k n =
    ap (λ t. bit t (n % 32)) (same_word k n (n / 32) refl)
    ∙ bit-bit_or_pow (k.page_bitmap (n / 32)) (n % 32)

pub set_page-keeps :
    (k : Kheap) (n m : ℕ) → page_bit k.page_bitmap m ≡ 1 → page_bit (set_page k n).page_bitmap m ≡ 1
set_page-keeps k n m h = elim (ℕ_discrete (n / 32) (m / 32)) [
  | yes same ↦
      ap (λ t. bit t (m % 32)) (same_word k n (m / 32) same)
      ∙ omega (
        arith,
        bit-bit_or (k.page_bitmap (m / 32)) (one_shl (n % 32)) (m % 32),
        h,
        bit_le_one (one_shl (n % 32)) (m % 32),
      )
  | no apart ↦ ap (λ t. bit t (m % 32)) (other_word k n (m / 32) apart) ∙ h
]

-- what `kmalloc_aligned` returns
pub record IsGranted (k : Kheap) (g : Kheap) (a : ℕ) : Type 0 where
  pub page : ℕ
  pub page_lt : page < k.bitmap_cnt * 32
  pub address : a ≡ u32 (k.aligned_start + page * 4096)
  pub was_free : page_bit k.page_bitmap page ≡ 0
  pub heap : g ≡ set_page k page

granted :
    (k g : Kheap) (a n : ℕ)
    → find_page (k.bitmap_cnt * 32) k.page_bitmap 0 ≡ some n
    → grant_page k (some n) ≡ some (g, a)
    → IsGranted k g a
unfolding grant_page
granted k g a n found h =
    let pair : Path (Kheap × ℕ) (set_page k n, u32 (k.aligned_start + n * 4096)) (g, a) = cc h in
    let (_, lt, free) = find_page-free (k.bitmap_cnt * 32) k.page_bitmap 0 n found in
    record {
      page = n;
      page_lt = omega (arith, lt);
      address = sym (ap (λ p. p.1) pair);
      was_free = free;
      heap = sym (ap (λ p. p.0) pair);
    }

pub kmalloc_aligned-IsGranted :
    (k g : Kheap) (a : ℕ) → kmalloc_aligned k ≡ some (g, a) → IsGranted k g a
unfolding kmalloc_aligned grant_page
kmalloc_aligned-IsGranted k g a h =
    elim (Option-cases (find_page (k.bitmap_cnt * 32) k.page_bitmap 0)) [
      | inl nothing ↦
          let halted : kmalloc_aligned k ≡ none = ap (grant_page k) nothing in absurd (cc halted)
      | inr (n, found) ↦ granted k g a n found (sym (ap (grant_page k) found) ∙ h)
    ]

-- the aligned part lies below the top of the address space
abbrev pub FitsPages : Kheap → Type 0
FitsPages k = k.aligned_start + k.bitmap_cnt * 32 * 4096 < 2 ^ 32

-- no two pages have one address
granted-ne :
    (k k' g h : Kheap) (a b : ℕ)
    → FitsPages k
    → k'.aligned_start ≡ k.aligned_start
    → k'.bitmap_cnt ≡ k.bitmap_cnt
    → (one : IsGranted k g a) → page_bit k'.page_bitmap one.page ≡ 1
    → IsGranted k' h b
    → a ≢ b
granted-ne k k' g h a b fits start count one taken two e =
    let same : one.page ≡ two.page =
      omega (arith, fits, start, count, one.page_lt, two.page_lt, one.address, two.address, e) in
    absurd (omega (arith, taken, two.was_free, ap (page_bit k'.page_bitmap) same))

-- a heap that has the geometry of `k` and in which the page is taken
abbrev pub IsTaken : Kheap → ℕ → Kheap → Type 0
IsTaken k page g =
    (page_bit g.page_bitmap page ≡ 1)
    × (g.aligned_start ≡ k.aligned_start)
    × (g.bitmap_cnt ≡ k.bitmap_cnt)

granted-IsTaken : (k g : Kheap) (a : ℕ) (one : IsGranted k g a) → IsTaken k one.page g
granted-IsTaken k g a one =
    subst (IsTaken k one.page) (sym one.heap) (set_page-bit k one.page, refl, refl)

-- one call of the allocator of pages: `kmalloc_aligned`, `kmalloc_aligned_multi`, or `kfree` of any
-- pointer, of a page or of a chunk
pub data Call (k : Kheap) : Kheap → Type 0 where
  one_page : (g : Kheap) (a : ℕ) → kmalloc_aligned k ≡ some (g, a) → Call k g
  many_pages : (g : Kheap) (cnt a : ℕ) → kmalloc_aligned_multi k cnt ≡ some (g, a) → Call k g
  release : (ptr : ℕ) → Call k (kfree k ptr)

pub data Calls (k : Kheap) : Kheap → Type 0 where
  here : Calls k k
  after : (g h : Kheap) → Calls k g → Call g h → Calls k h

-- no call clears a bit or moves the pages
set_page-IsTaken : (k g : Kheap) (page n : ℕ) → IsTaken k page g → IsTaken k page (set_page g n)
set_page-IsTaken k g page n (bit, start, count) = (set_page-keeps g n page bit, start, count)

set_run-IsTaken :
    (left : ℕ) (k g : Kheap) (page n : ℕ) → IsTaken k page g → IsTaken k page (set_run left g n)
unfolding set_run
set_run-IsTaken zero k g page n taken = taken
set_run-IsTaken (suc left) k g page n taken =
    set_run-IsTaken left k (set_page g n) page (n + 1) (set_page-IsTaken k g page n taken)

grant_run-IsTaken :
    (k g h : Kheap) (page cnt a : ℕ) (end : Option ℕ)
    → grant_run g cnt end ≡ some (h, a)
    → IsTaken k page g
    → IsTaken k page h
unfolding grant_run
grant_run-IsTaken k g h page cnt a none e taken = absurd (cc e)
grant_run-IsTaken k g h page cnt a (some end) e taken =
    let first = end - cnt in
    let place : ℕ = u32 (g.aligned_start + (first / 32 * 32 + sub32 end cnt % 32) * 4096) in
    let pair : Path (Kheap × ℕ) (set_run cnt g first, place) (h, a) = cc e in
    subst (IsTaken k page) (ap (λ p. p.0) pair) (set_run-IsTaken cnt k g page first taken)

either-IsTaken :
    (k : Kheap) (page : ℕ) (b : Bool) (x y : Kheap)
    → IsTaken k page x
    → IsTaken k page y
    → IsTaken k page (if b then x else y)
either-IsTaken k page true x y h h' = h
either-IsTaken k page false x y h h' = h'

kfree-IsTaken : (k g : Kheap) (page ptr : ℕ) → IsTaken k page g → IsTaken k page (kfree g ptr)
unfolding kfree
kfree-IsTaken k g page ptr taken =
    either-IsTaken k page _ _ _ (set_page-IsTaken k g page _ taken) taken

Call-IsTaken : (k g h : Kheap) (page : ℕ) → Call g h → IsTaken k page g → IsTaken k page h
unfolding kmalloc_aligned_multi
Call-IsTaken k g h page (one_page _ a e) taken =
    let one = kmalloc_aligned-IsGranted g h a e in
    subst (IsTaken k page) (sym one.heap) (set_page-IsTaken k g page one.page taken)
Call-IsTaken k g h page (many_pages _ cnt a e) taken = grant_run-IsTaken k g h page cnt a _ e taken
Call-IsTaken k g h page (release ptr) taken = kfree-IsTaken k g page ptr taken

Calls-IsTaken : (k g h : Kheap) (page : ℕ) → Calls g h → IsTaken k page g → IsTaken k page h
Calls-IsTaken k g h page here taken = taken
Calls-IsTaken k g h page (after m _ calls call) taken =
    Call-IsTaken k m h page call (Calls-IsTaken k g m page calls taken)

-- A page that `kmalloc_aligned` has handed out is not handed out by it again: after any sequence of
-- calls of `kmalloc_aligned`, `kmalloc_aligned_multi` and `kfree`, of that page or of others, it
-- returns another page. The aligned part ends below 2 ^ 32.
pub kmalloc_aligned-fresh :
    (k g h k' : Kheap) (a b : ℕ)
    → FitsPages k
    → kmalloc_aligned k ≡ some (g, a)
    → Calls g k'
    → kmalloc_aligned k' ≡ some (h, b)
    → a ≢ b
kmalloc_aligned-fresh k g h k' a b fits first calls second =
    let one = kmalloc_aligned-IsGranted k g a first in
    let two = kmalloc_aligned-IsGranted k' h b second in
    let (taken, start, count) : IsTaken k one.page k' =
      Calls-IsTaken k g k' one.page calls (granted-IsTaken k g a one) in
    granted-ne k k' g h a b fits start count one taken two
