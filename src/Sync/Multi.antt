-- ===== src/Sync/Multi.antt =====
-- Threads that share one `struct lock_multi`, interleaved at the code's atomic steps.
use muse.Base.{
  ℕ, ◌+◌, ◌^◌, ◌≤◌, ◌<◌, ◌≡◌, ◌≢◌, ◌⊎◌, inl, inr, refl, ap, Bool, true, false, arith, update,
  ℕ_discrete, sym, dec_lt,
}
use muse.Sync.{
  LockMulti, lock_multi_count, lock_multi_try_read, lock_multi_uncount, lock_multi_clear,
  lock_multi_try_write, lock_multi_release_write, lock_multi_signal, lstat_read,
}
use muse.Sync.Threads.{sum_of, sum_of-update, sum_of-ge, sum_of-zero, sum_of-le}

-- Where a thread is: announced as a reader, waiting for a signal, reading, between the last
-- decrement and the write of `lock_multi_release_read`, or writing.
pub data Pc : Type 0 where
  out counted parked reading leaving writing : Pc

pub record System : Type 0 where
  pub lock : LockMulti
  pub pc : ℕ → Pc

abbrev pub moved : System → ℕ → Pc → LockMulti → System
moved s i p lock = record { lock = lock; pc = update s.pc i p }

-- One step of thread `i` of `n`. With `split`, the last reader's decrement and write are two steps,
-- as in the code; without it other threads never run between them.
pub data Step (split : Bool) (n : ℕ) (s : System) : System → Type 0 where
  count :
      (i : ℕ) → i < n → s.pc i ≡ out → Step split n s (moved s i counted (lock_multi_count s.lock))
  join :
      (i : ℕ) (l : LockMulti)
      → i < n
      → s.pc i ≡ counted
      → lock_multi_try_read s.lock ≡ (true, l)
      → Step split n s (moved s i reading l)
  park :
      (i : ℕ)
      → i < n
      → s.pc i ≡ out
      → s.lock.stat ≢ lstat_read
      → Step split n s (moved s i parked (lock_multi_count s.lock))
  wake :
      (i : ℕ)
      → i < n
      → s.pc i ≡ parked
      → s.lock.stat ≡ lstat_read
      → Step split n s (moved s i reading s.lock)
  leave :
      (i : ℕ) (l : LockMulti)
      → i < n
      → s.pc i ≡ reading
      → lock_multi_uncount s.lock ≡ (false, l)
      → Step split n s (moved s i out l)
  last :
      (i : ℕ) (l : LockMulti)
      → i < n
      → s.pc i ≡ reading
      → lock_multi_uncount s.lock ≡ (true, l)
      → split ≡ true
      → Step split n s (moved s i leaving l)
  clear :
      (i : ℕ) → i < n → s.pc i ≡ leaving → Step split n s (moved s i out (lock_multi_clear s.lock))
  finish :
      (i : ℕ) (l : LockMulti)
      → i < n
      → s.pc i ≡ reading
      → lock_multi_uncount s.lock ≡ (true, l)
      → split ≡ false
      → Step split n s (moved s i out (lock_multi_clear l))
  lock :
      (i : ℕ) (l : LockMulti)
      → i < n
      → s.pc i ≡ out
      → lock_multi_try_write s.lock ≡ (true, l)
      → Step split n s (moved s i writing l)
  unlock :
      (i : ℕ)
      → i < n
      → s.pc i ≡ writing
      → Step split n s (moved s i out (lock_multi_release_write s.lock))
  signal :
      (i : ℕ) → i < n → s.pc i ≡ writing → Step split n s (moved s i out (lock_multi_signal s.lock))

pub data Reach (split : Bool) (n : ℕ) (s : System) : System → Type 0 where
  here : Reach split n s s
  next : {t u : System} → Reach split n s t → Step split n t u → Reach split n s u

abbrev pub init : System
init = record { lock = record { waiting_readers = 0; stat = 0 }; pc = λ _. out }

-- a thread that `waiting_readers` counts
abbrev pub weight : Pc → ℕ
weight counted = 1
weight parked = 1
weight reading = 1
weight _ = 0

pub record Inv (n : ℕ) (s : System) : Type 0 where
  pub beyond : (i : ℕ) → n ≤ i → s.pc i ≡ out
  pub whole : (i : ℕ) → s.pc i ≢ leaving
  pub readers : s.lock.waiting_readers ≡ sum_of weight n s.pc
  pub few : sum_of weight n s.pc ≤ n
  pub shared : (i : ℕ) → s.pc i ≡ reading → s.lock.stat ≡ 2
  pub owned : (i : ℕ) → s.pc i ≡ writing → s.lock.stat ≡ 1
  pub one : (i j : ℕ) → s.pc i ≡ writing → s.pc j ≡ writing → i ≡ j

weight-le : (p : Pc) → weight p ≤ 1
weight-le out = omega arith
weight-le p = omega arith

fewer : (n : ℕ) (f : ℕ → Pc) → sum_of weight n f ≤ n
fewer = sum_of-le weight weight-le

-- Moving thread `i` from `p` to `p'` keeps the invariant where the lock's new state fits.
moved-Inv :
    {n : ℕ} {s : System} (v : Inv n s) (i : ℕ) (p p' : Pc) (l : LockMulti)
    → i < n
    → s.pc i ≡ p
    → p' ≢ leaving
    → l.waiting_readers + weight p ≡ s.lock.waiting_readers + weight p'
    → ((j : ℕ) → j ≢ i → s.pc j ≡ reading → l.stat ≡ 2)
    → (p' ≡ reading → l.stat ≡ 2)
    → ((j : ℕ) → j ≢ i → s.pc j ≡ writing → l.stat ≡ 1)
    → (p' ≡ writing → (l.stat ≡ 1) × ((j : ℕ) → s.pc j ≢ writing))
    → Inv n (moved s i p' l)
moved-Inv {n} {s} v i p p' l h at whole wait sh sh' ow ow' = record {
  beyond = λ j le. ground (arith, v.beyond j);
  whole = λ j. ground (arith, v.whole j);
  readers = ground (arith, v.readers, sum_of-update weight n i s.pc p' h);
  few = fewer n (update s.pc i p');
  shared = λ j e. ground (arith, sh j);
  owned = λ j e. ground (arith, ow j);
  one = λ a b ha hb.
      ground
        (arith, v.one a b, λ (e : p' ≡ writing). (ow' e).1 a, λ (e : p' ≡ writing). (ow' e).1 b);
}

module _ {n : ℕ} {s : System} (small : n < 2 ^ 32) (v : Inv n s) where
  -- A thread with a weight is counted, and the count does not wrap.
  counted_one : (i : ℕ) → i < n → weight (s.pc i) ≤ s.lock.waiting_readers
  counted_one i h = omega (arith, v.readers, sum_of-ge weight n i s.pc h)

  room : (i : ℕ) → i < n → s.pc i ≡ out → s.lock.waiting_readers + 1 < 2 ^ 32
  room i h e = ground (
    arith,
    v.readers,
    ap weight e,
    sum_of-update weight n i s.pc counted h,
    fewer n (update s.pc i counted),
  )

  below : s.lock.waiting_readers < 2 ^ 32
  below = omega (arith, v.readers, v.few)

  -- The last counted thread is alone.
  alone :
      (i j : ℕ) → i < n → s.lock.waiting_readers ≡ 1 → s.pc i ≡ reading → j ≢ i → s.pc j ≢ reading
  alone i j h only e ne e' = elim (dec_lt j n) [
    | yes lt ↦ absurd (
        ground (
          arith,
          v.readers,
          sum_of-update weight n i s.pc out h,
          sum_of-ge weight n j (update s.pc i out) lt,
        ))
    | no ge ↦ absurd (ground (arith, v.beyond j))
  ]

Step-Inv : {n : ℕ} {s t : System} → n < 2 ^ 32 → Step false n s t → Inv n s → Inv n t
unfolding lock_multi_count lock_multi_try_read lock_multi_uncount lock_multi_clear
    lock_multi_try_write lock_multi_release_write lock_multi_signal
Step-Inv {n} {s} small (count i h at) v =
    moved-Inv v i out counted (lock_multi_count s.lock) h at (λ e. cc)
      (ground (arith, room small v i h at)) (λ j ne e. v.shared j e) (λ e. cc)
      (λ j ne e. v.owned j e) (λ e. cc)
Step-Inv {n} {s} small (join i l h at got) v =
    moved-Inv v i counted reading l h at (λ e. cc) (ground arith)
      (λ j ne e. ground (arith, v.shared j)) (λ e. ground arith)
      (λ j ne e. ground (arith, v.owned j)) (λ e. cc)
Step-Inv {n} {s} small (park i h at idle) v =
    moved-Inv v i out parked (lock_multi_count s.lock) h at (λ e. cc)
      (ground (arith, room small v i h at)) (λ j ne e. v.shared j e) (λ e. cc)
      (λ j ne e. v.owned j e) (λ e. cc)
Step-Inv {n} {s} small (wake i h at go) v =
    moved-Inv v i parked reading s.lock h at (λ e. cc) (omega arith) (λ j ne e. v.shared j e)
      (λ e. go) (λ j ne e. v.owned j e) (λ e. cc)
Step-Inv {n} {s} small (leave i l h at got) v =
    moved-Inv v i reading out l h at (λ e. cc)
      (ground (arith, below small v, counted_one small v i h))
      (λ j ne e. ground (arith, v.shared j)) (λ e. cc) (λ j ne e. ground (arith, v.owned j))
      (λ e. cc)
Step-Inv small (last i l h at got split) v = absurd (cc)
Step-Inv small (clear i h at) v = absurd (v.whole i at)
Step-Inv {n} {s} small (finish i l h at got whole) v =
    moved-Inv v i reading out (lock_multi_clear l) h at (λ e. cc)
      (ground (arith, below small v, counted_one small v i h))
      (λ j ne e.
        absurd
          (alone small v i j h (ground (arith, below small v, counted_one small v i h)) at ne e))
      (λ e. cc) (λ j ne e. absurd (ground (arith, v.owned j, v.shared i))) (λ e. cc)
Step-Inv {n} {s} small (lock i l h at got) v =
    moved-Inv v i out writing l h at (λ e. cc) (ground arith)
      (λ j ne e. absurd (ground (arith, v.shared j))) (λ e. cc)
      (λ j ne e. ground (arith, v.owned j)) (λ e. (ground arith, λ j q. ground (arith, v.owned j)))
Step-Inv {n} {s} small (unlock i h at) v =
    moved-Inv v i writing out (lock_multi_release_write s.lock) h at (λ e. cc) (omega arith)
      (λ j ne e. absurd (ground (arith, v.shared j, v.owned i))) (λ e. cc)
      (λ j ne e. absurd (ne (v.one j i e at))) (λ e. cc)
Step-Inv {n} {s} small (signal i h at) v =
    moved-Inv v i writing out (lock_multi_signal s.lock) h at (λ e. cc) (ground arith)
      (λ j ne e. absurd (ground (arith, v.shared j, v.owned i))) (λ e. cc)
      (λ j ne e. absurd (ne (v.one j i e at))) (λ e. cc)

init-Inv : (n : ℕ) → Inv n init
init-Inv n = record {
  beyond = λ i le. refl;
  whole = λ i e. cc;
  readers = sym (sum_of-zero weight n (λ _. out) (λ i. refl));
  few = fewer n (λ _. out);
  shared = λ i e. cc;
  owned = λ i e. cc;
  one = λ i j e e'. cc;
}

Reach-Inv : {n : ℕ} {s t : System} → n < 2 ^ 32 → Inv n s → Reach false n s t → Inv n t
Reach-Inv small v here = v
Reach-Inv small v (next r st) = Step-Inv small st (Reach-Inv small v r)

-- If no other thread runs between the last reader's decrement and its write of the status, then
-- while a thread writes no thread reads and no other one writes, and `waiting_readers` is the
-- number of threads that wait to read.
pub lock_multi_exclusion :
    {n : ℕ} {s : System} (i j : ℕ)
    → n < 2 ^ 32
    → Reach false n init s
    → s.pc i ≡ writing
    → (s.pc j ≢ reading)
      × ((s.pc j ≢ writing) ⊎ (i ≡ j))
      × (s.lock.waiting_readers ≡ sum_of weight n s.pc)
lock_multi_exclusion {n} {s} i j small r w =
    let v = Reach-Inv small (init-Inv n) r in
    (
      λ rd. ground (arith, v.owned i, v.shared j),
      elim (ℕ_discrete i j) [ yes e ↦ inr e | no ne ↦ inl (λ q. ne (v.one i j w q)) ],
      v.readers,
    )

-- With the two steps apart, as in the code, exclusion fails: from every state in which a last
-- reader is about to write the status and two other threads are outside, a run of the lock's
-- operations leads to a state in which one of them reads and the other writes.
pub lock_multi_race :
    {n : ℕ} {s : System} (i j k : ℕ)
    → i < n
    → j < n
    → k < n
    → s.pc i ≡ leaving
    → s.pc j ≡ out
    → s.pc k ≡ out
    → j ≢ k
    → s.lock.stat ≡ lstat_read
    → (t : System) × Reach true n s t × (t.pc j ≡ reading) × (t.pc k ≡ writing)
unfolding lock_multi_count lock_multi_try_read lock_multi_clear lock_multi_try_write
lock_multi_race {n} {s} i j k hi hj hk ei ej ek ne st =
    let a = moved s j counted (lock_multi_count s.lock) in
    let b = moved a j reading a.lock in
    let c = moved b i out (lock_multi_clear b.lock) in
    let l : LockMulti = record c.lock { stat = 1 } in
    let d = moved c k writing l in
    (
      d,
      next
          (next (next (next here (count j hj ej)) (join j a.lock hj (ground arith) (ground arith)))
            (clear i hi (ground arith)))
          (lock k l hk (ground arith) (ground arith)),
      ground arith,
      ground arith,
    )
