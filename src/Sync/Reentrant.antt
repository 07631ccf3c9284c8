-- ===== src/Sync/Reentrant.antt =====
-- Contexts that share one `struct lock_reentrant`, interleaved in any order. The owner 0 stands for
-- a free lock; `id_zero` is about the first context, whose id is 0.
use muse.Base.{
  ℕ, ◌+◌, ◌-◌, ◌^◌, ◌<◌, ◌≡◌, ◌≢◌, refl, true, arith, update, ℕ_discrete, ◌⊎◌, inl, inr,
}
use muse.Sync.{LockReentrant, lock_reentrant_try, lock_reentrant_release}

-- The lock, and how often each context has acquired it and not yet released it.
pub record System : Type 0 where
  pub lock : LockReentrant
  pub depth : ℕ → ℕ

-- one call that returns; a context releases a lock that it holds
pub data Step (s : System) : System → Type 0 where
  acquire :
      (id : ℕ) (lock : LockReentrant)
      → lock_reentrant_try id s.lock ≡ (true, lock)
      → Step s (record { lock = lock; depth = update s.depth id (s.depth id + 1) })
  release :
      (id : ℕ)
      → 0 < s.depth id
      → Step s (record {
        lock = lock_reentrant_release s.lock;
        depth = update s.depth id (s.depth id - 1);
      })

-- The context that acquires the lock has a nonzero id, and the count does not wrap around.
abbrev pub Guarded : {s t : System} → Step s t → Type 0
Guarded {s} (acquire id lock got) = (id ≢ 0) × (s.depth id + 1 < 2 ^ 32)
Guarded (release id pos) = Unit {0}

pub data Reach (s : System) : System → Type 0 where
  here : Reach s s
  next : {t u : System} → Reach s t → Step t u → Reach s u

-- so does each on the way
abbrev pub AllGuarded : {s t : System} → Reach s t → Type 0
AllGuarded here = Unit {0}
AllGuarded (next r step) = AllGuarded r × Guarded step

abbrev pub init : System
init = record { lock = record { cnt = 0; owner = 0 }; depth = λ _. 0 }

-- The owner's depth is the lock's count, and every other depth is 0.
pub record Inv (s : System) : Type 0 where
  pub zero_out : s.depth 0 ≡ 0
  pub counted : s.lock.owner ≢ 0 → (s.depth s.lock.owner ≡ s.lock.cnt) × (0 < s.lock.cnt)
  pub small : s.lock.owner ≢ 0 → s.lock.cnt < 2 ^ 32
  pub others : (id : ℕ) → id ≢ s.lock.owner → s.depth id ≡ 0

Step-Inv : {s t : System} (step : Step s t) → Guarded step → Inv s → Inv t
unfolding lock_reentrant_try lock_reentrant_release
Step-Inv {s} (acquire id lock got) (nz, deep) v = record {
  zero_out = ground (arith, v.zero_out);
  counted = λ ne. ground (arith, v.counted, v.small, v.others id);
  small = λ ne. ground (arith, v.counted, v.small, v.others id);
  others = λ k ne. ground (arith, v.others k, v.zero_out);
}
Step-Inv {s} (release id pos) g v = record {
  zero_out = ground (arith, v.zero_out);
  counted = λ ne. ground (arith, v.counted, v.small, v.others id);
  small = λ ne. ground (arith, v.counted, v.small, v.others id);
  others = λ k ne. ground (arith, v.others k, v.others id, v.counted, v.small);
}

pub Reach-Inv : {s : System} (r : Reach init s) → AllGuarded r → Inv s
Reach-Inv here g = record {
  zero_out = refl;
  counted = λ ne. absurd (ne refl);
  small = λ ne. omega arith;
  others = λ id ne. refl;
}
Reach-Inv (next r st) (before, g) = Step-Inv st g (Reach-Inv r before)

-- If only contexts with nonzero ids have acquired the lock, none 2 ^ 32 times at once, and each has
-- released it only while it held it, then a context that holds it is the lock's owner and no other
-- context holds it.
pub lock_reentrant_exclusion :
    {s : System} (i j : ℕ) (r : Reach init s)
    → AllGuarded r
    → 0 < s.depth i
    → (s.lock.owner ≡ i) × ((j ≡ i) ⊎ (s.depth j ≡ 0))
lock_reentrant_exclusion {s} i j r g hi =
    let v = Reach-Inv r g in
    (
      ground (arith, v.others i),
      elim (ℕ_discrete j i) [
        | yes e ↦ inl e
        | no ne ↦ inr (ground (arith, v.others i, v.others j))
      ],
    )

-- For a context with id 0, as the first one has, acquiring the free lock leaves it free for
-- every other context: id 0 is not told from "no owner".
pub id_zero :
    (lock : LockReentrant) (id : ℕ)
    → lock.owner ≡ 0
    → id ≢ 0
    → let (first, lock') = lock_reentrant_try 0 lock in
      (first ≡ true) × ((lock_reentrant_try id lock').0 ≡ true)
unfolding lock_reentrant_try
id_zero lock id free nz = ground arith
