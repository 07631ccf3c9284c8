-- ===== src/Sync.antt =====
-- The locks of src/common/sync.c, one definition for each atomic step of an operation. A loop that
-- spins is a step that may be tried again; `preempt` inside it only lets other threads step.
pub mod Threads
pub mod Simple
pub mod Reentrant
pub mod Multi
mod Tests
use muse.Base.{ℕ, ◌+◌, ◌-◌, ◌%◌, ◌^◌, Bool, true, false, ◌==◌, if◌then◌else◌, u32, sub32}

-- LSTAT_WRITE and LSTAT_READ; 0 is a free lock.
abbrev pub lstat_write : ℕ
lstat_write = 1

abbrev pub lstat_read : ℕ
lstat_read = 2

-- `__atomic_compare_exchange_n`: whether it succeeded, and the new value
pub compare_exchange : ℕ → ℕ → ℕ → Bool × ℕ
compare_exchange stat expected desired = if stat == expected then (true, desired) else (false, stat)

-- One round of the loop of `lock_simple_acquire`, and `lock_simple_release`.
unfoldable pub lock_simple_try : ℕ → Bool × ℕ
unfolding compare_exchange
lock_simple_try stat = compare_exchange stat 0 lstat_write

unfoldable pub lock_simple_release : ℕ → ℕ
lock_simple_release stat = 0

-- `struct lock_reentrant`
pub record LockReentrant : Type 0 where
  pub cnt : ℕ
  pub owner : ℕ

-- `lock_reentrant_acquire` by context `id`, up to its first success: the test for the owner, then
-- one round of the loop.
unfoldable pub lock_reentrant_try : ℕ → LockReentrant → Bool × LockReentrant
unfolding compare_exchange
lock_reentrant_try id lock =
    if lock.owner == id
    then (true, record lock { cnt = u32 (lock.cnt + 1) })
    else (let (done, owner) = compare_exchange lock.owner 0 id in
        if done then (true, record { cnt = 1; owner = owner }) else (false, lock))

unfoldable pub lock_reentrant_release : LockReentrant → LockReentrant
lock_reentrant_release lock =
    let cnt = sub32 lock.cnt 1 in record { cnt = cnt; owner = if cnt == 0 then 0 else lock.owner }

-- `struct lock_multi`
pub record LockMulti : Type 0 where
  pub waiting_readers : ℕ
  pub stat : ℕ

-- The increment with which `lock_multi_acquire_read` and `lock_multi_wait` announce a reader.
unfoldable pub lock_multi_count : LockMulti → LockMulti
lock_multi_count lock = record lock { waiting_readers = u32 (lock.waiting_readers + 1) }

-- One round of the loop of `lock_multi_acquire_read`.
unfoldable pub lock_multi_try_read : LockMulti → Bool × LockMulti
unfolding compare_exchange
lock_multi_try_read lock =
    if lock.stat == lstat_read
    then (true, lock)
    else (let (done, stat) = compare_exchange lock.stat 0 lstat_read in
        (done, record lock { stat = stat }))

-- `lock_multi_release_read`: the decrement with the test that follows it, and the write that a
-- successful test leads to.
unfoldable pub lock_multi_uncount : LockMulti → Bool × LockMulti
lock_multi_uncount lock =
    let left = sub32 lock.waiting_readers 1 in (left == 0, record lock { waiting_readers = left })

unfoldable pub lock_multi_clear : LockMulti → LockMulti
lock_multi_clear lock = record lock { stat = 0 }

-- One round of the loop of `lock_multi_acquire_write`, and `lock_multi_release_write`.
unfoldable pub lock_multi_try_write : LockMulti → Bool × LockMulti
unfolding compare_exchange
lock_multi_try_write lock =
    let (done, stat) = compare_exchange lock.stat 0 lstat_write in
    (done, record lock { stat = stat })

unfoldable pub lock_multi_release_write : LockMulti → LockMulti
lock_multi_release_write lock = record lock { stat = 0 }

-- `lock_multi_signal`, by the writer that holds the lock; it runs with interrupts off.
unfoldable pub lock_multi_signal : LockMulti → LockMulti
lock_multi_signal lock =
    if lock.waiting_readers == 0
    then record lock { stat = 0 }
    else record lock { stat = lstat_read }
