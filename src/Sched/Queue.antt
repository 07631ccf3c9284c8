-- ===== src/Sched/Queue.antt =====
-- Lists of contexts through the shared `next` field.
use muse.Base.{
  ℕ, zero, suc, ◌<◌, ◌≡◌, ◌≢◌, refl, sym, List, [], ◌∷◌, ◌++◌, arith, length, get_or, update,
}
use muse.Sched.{Context, set_next}

abbrev pub NotIn : ℕ → List ℕ → Type 0
NotIn x [] = x ≡ x
NotIn x (c ∷ q) = (c ≢ x) × NotIn x q

-- Following `next` from `p` visits the distinct non-null contexts of `q` and arrives at `e`.
abbrev pub Seg : (ℕ → Context) → ℕ → List ℕ → ℕ → Type 0
Seg ctx p [] e = p ≡ e
Seg ctx p (c ∷ q) e = (p ≡ c) × (c ≢ 0) × NotIn c q × Seg ctx (ctx c).next q e

-- Writing a context that is not visited leaves the list.
pub Seg-update :
    (ctx : ℕ → Context) (x : ℕ) (v : Context) (p : ℕ) (q : List ℕ) (e : ℕ)
    → NotIn x q
    → Seg ctx p q e
    → Seg (update ctx x v) p q e
Seg-update ctx x v p [] e out h = h
Seg-update ctx x v p (c ∷ q) e out h =
    let same : (update ctx x v c).next ≡ (ctx c).next = ground (arith, out.0) in
    (h.0, h.1, h.2, rw (same) (Seg-update ctx x v (ctx c).next q e out.1 h.3))

pub NotIn-snoc : (x : ℕ) (q : List ℕ) (l : ℕ) → NotIn x q → l ≢ x → NotIn x (q ++ l ∷ [])
NotIn-snoc x [] l h ne = (ne, refl)
NotIn-snoc x (c ∷ q) l h ne = (h.0, NotIn-snoc x q l h.1 ne)

-- The end `l` of the list, linked to `c`, is one more place of it.
pub Seg-snoc :
    (ctx : ℕ → Context) (p : ℕ) (q : List ℕ) (l c : ℕ)
    → NotIn l q
    → l ≢ 0
    → Seg ctx p q l
    → Seg (set_next ctx l c) p (q ++ l ∷ []) c
Seg-snoc ctx p [] l c out nz h = (h, nz, refl, ground arith)
Seg-snoc ctx p (b ∷ q) l c out nz h =
    let same : (set_next ctx l c b).next ≡ (ctx b).next = ground (arith, out.0) in
    (
      h.0,
      h.1,
      NotIn-snoc b q l h.2 (λ e. out.0 (sym e)),
      rw (same) (Seg-snoc ctx (ctx b).next q l c out.1 nz h.3),
    )

pub NotIn-head : (x : ℕ) (q : List ℕ) (l : ℕ) → NotIn x (q ++ l ∷ []) → NotIn x q × (l ≢ x)
NotIn-head x [] l h = (refl, h.0)
NotIn-head x (c ∷ q) l h = let r = NotIn-head x q l h.1 in ((h.0, r.0), r.1)

pub get_or-snoc : (q : List ℕ) (l i : ℕ) → i < length q → get_or (q ++ l ∷ []) i 0 ≡ get_or q i 0
get_or-snoc [] l i h = absurd (omega arith)
get_or-snoc (c ∷ q) l zero h = refl
get_or-snoc (c ∷ q) l (suc i) h = get_or-snoc q l i (omega arith)
