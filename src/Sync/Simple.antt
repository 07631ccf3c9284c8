-- ===== src/Sync/Simple.antt =====
-- Threads that share one `struct lock_simple`, interleaved in any order.
use muse.Base.{ℕ, ◌≡◌, refl, Bool, true, false, arith, update}
use muse.Sync.{lock_simple_try, lock_simple_release}

-- The lock's status, and which threads are between acquire and release.
pub record System : Type 0 where
  pub stat : ℕ
  pub inside : ℕ → Bool

-- A failed attempt changes nothing, so only the successful one is a step.
pub data Step (s : System) : System → Type 0 where
  acquire :
      (i stat : ℕ)
      → s.inside i ≡ false
      → lock_simple_try s.stat ≡ (true, stat)
      → Step s (record { stat = stat; inside = update s.inside i true })
  release :
      (i : ℕ)
      → s.inside i ≡ true
      → Step s (record { stat = lock_simple_release s.stat; inside = update s.inside i false })

pub data Reach (s : System) : System → Type 0 where
  here : Reach s s
  next : {t u : System} → Reach s t → Step t u → Reach s u

abbrev pub init : System
init = record { stat = 0; inside = λ _. false }

record Inv (s : System) : Type 0 where
  free : s.stat ≡ 0 → (i : ℕ) → s.inside i ≡ false
  one : (i j : ℕ) → s.inside i ≡ true → s.inside j ≡ true → i ≡ j

Step-Inv : {s t : System} → Step s t → Inv s → Inv t
unfolding lock_simple_try lock_simple_release
Step-Inv {s} (acquire i stat out got) v =
    let was_free : s.stat ≡ 0 = ground arith in
    record {
      free = λ e. absurd (ground arith);
      one = λ a b ha hb. ground (arith, v.free was_free a, v.free was_free b);
    }
Step-Inv (release i held) v = record {
  free = λ e j. ground (arith, v.one i j);
  one = λ a b ha hb. ground (arith, v.one a b);
}

Reach-Inv : {s t : System} → Inv s → Reach s t → Inv t
Reach-Inv v here = v
Reach-Inv v (next r st) = Step-Inv st (Reach-Inv v r)

-- Two threads are never inside a simple lock together.
pub lock_simple_exclusion :
    {s : System} (i j : ℕ) → Reach init s → s.inside i ≡ true → s.inside j ≡ true → i ≡ j
lock_simple_exclusion i j r hi hj =
    Inv.one (Reach-Inv (record { free = λ e k. refl; one = λ a b ha hb. cc }) r) i j hi hj
