-- ===== src/Sync/Tests.antt =====
-- Short runs of the locks.
use muse.Base.{ℕ, ◌≡◌, ◌≢◌, ◌⊎◌, refl, true, false, arith, update}
use muse.Sync.{LockReentrant, lock_simple_try, lock_reentrant_try, lock_multi_try_write, lstat_read}
use muse.Sync.Simple
use muse.Sync.Reentrant
use muse.Sync.Multi
use muse.Sync.Threads.{sum_of}
use muse.Sync.Simple.{lock_simple_exclusion}
use muse.Sync.Reentrant.{lock_reentrant_exclusion, id_zero}
use muse.Sync.Multi.{
  lock_multi_exclusion, lock_multi_race, Pc, out, writing, reading, leaving, weight,
}

abbrev simple : Simple.System
simple = record { stat = 1; inside = update (λ _. false) 3 true }

acquired : Simple.Reach Simple.init simple
unfolding lock_simple_try
acquired = Simple.next Simple.here (Simple.acquire 3 1 refl refl)

abbrev holder : ℕ
holder = 3

lock_simple_exclusion_example : holder ≡ holder
lock_simple_exclusion_example = lock_simple_exclusion 3 3 acquired refl refl

abbrev held : Reentrant.System
held = record { lock = record { cnt = 1; owner = 2 }; depth = update (λ _. 0) 2 1 }

taken : lock_reentrant_try 2 (record { cnt = 0; owner = 0 }) ≡ (true, record { cnt = 1; owner = 2 })
unfolding lock_reentrant_try
taken = refl

abbrev entered : Reentrant.Reach Reentrant.init held
entered = Reentrant.next Reentrant.here (Reentrant.acquire 2 (record { cnt = 1; owner = 2 }) taken)

abbrev other : ℕ
other = 5

lock_reentrant_exclusion_example : (held.lock.owner ≡ 2) × ((other ≡ 2) ⊎ (held.depth other ≡ 0))
lock_reentrant_exclusion_example =
    lock_reentrant_exclusion 2 other entered (tt, (λ e. ground arith, omega arith)) (omega arith)

abbrev free_lock : LockReentrant
free_lock = record { cnt = 0; owner = 0 }

abbrev written : Multi.System
written = record {
  lock = record { waiting_readers = 0; stat = 1 };
  pc = update (λ _. out) 0 writing;
}

wrote : Multi.Reach false 2 Multi.init written
unfolding lock_multi_try_write
wrote =
    Multi.next Multi.here
      (Multi.lock 0 (record { waiting_readers = 0; stat = 1 }) (omega arith) refl refl)

abbrev none_in : ℕ
none_in = 0

lock_multi_exclusion_example :
    (out ≢ reading) × ((out ≢ writing) ⊎ (none_in ≡ 1)) × (none_in ≡ sum_of weight 2 written.pc)
lock_multi_exclusion_example =
    lock_multi_exclusion {n = 2} {s = written} 0 1 (omega arith) wrote refl

abbrev closing : Multi.System
closing = record {
  lock = record { waiting_readers = 0; stat = lstat_read };
  pc = update (λ _. out) 0 leaving;
}
