-- ===== src/Sched/Tests.antt =====
-- Contexts 1 to 5: 1 runs, 2 and 3 are ready, 4 and 5 sleep.
use muse.Base.{
  ℕ, suc, ◌≡◌, refl, some, [], ◌∷◌, ◌++◌, arith, true, ◌==◌, if◌then◌else◌, get_or, ltb, inr,
}
use muse.Sched.{Context, Scheduler, sleep_tick}
use muse.Sched.Queue.{Seg}
use muse.Sched.Ready.{Ready, New, preempts, preempt-round_robin}
use muse.Sched.Timer.{timer_ticks, ticks_lem}
use muse.Sched.Wake.{Woken, sleep_tick-Woken}

abbrev context : ℕ → ℕ → Context
context next alarm = record {
  present = true;
  id = 0;
  next = next;
  limit = 0;
  priority = 3;
  alarm = alarm;
  slices_remaining = 0;
}

abbrev store : ℕ → Context
store a = if a == 2 then context 3 0 else if a == 4 then context 5 1 else context 0 7

abbrev sched : Scheduler
sched = record {
  ctx = store;
  active_ctx = 1;
  next_ctx = 2;
  last_ctx = 3;
  first_sleeping_ctx = 4;
  ctx_id = 6;
  irq_disable_counter = 0;
  interrupts = true;
  tick_period = 10000000;
  delay = 0;
}

ready : Ready sched (2 ∷ [])
ready = record {
  seg = (refl, λ e. ground arith, refl, refl);
  end = refl;
  last = λ e. ground arith;
  once = (λ e. ground arith, refl);
  active = λ e. ground arith;
  apart = (λ e. ground arith, refl);
  apart_last = λ e. ground arith;
}

preempt-round_robin_example :
    (preempts (suc 2) sched).active_ctx ≡ get_or ((2 ∷ []) ++ 3 ∷ 1 ∷ []) 2 0
preempt-round_robin_example = preempt-round_robin 2 (2 ∷ []) ready (omega arith)

new : New sched (2 ∷ []) 9
new = record {
  nonnull = λ e. ground arith;
  out = (λ e. ground arith, refl);
  not_last = λ e. ground arith;
  not_active = λ e. ground arith;
}

-- the same contexts with nobody asleep
abbrev awake : Scheduler
awake = record sched { first_sleeping_ctx = 0 }

ticks_lem_example :
    (t : Scheduler) × (timer_ticks 1 2 awake ≡ some t) × (t.active_ctx ≡ (if ltb 2 3 then 1 else 2))
ticks_lem_example =
    ticks_lem 0 3 awake 2 refl (omega arith) (omega arith) (inr (refl, refl)) (λ e. ground arith)
      (omega arith)

abbrev kernel : Scheduler
kernel = record sched { ctx = λ a. record (store a) { priority = 0 } }

sleepers : Seg store 4 (4 ∷ 5 ∷ []) 0
sleepers =
    (refl, λ e. ground arith, (λ e. ground arith, refl), (refl, λ e. ground arith, refl, refl))

sleep_tick-Woken_example :
    (t : Scheduler) × (sleep_tick 2 sched ≡ some t) × Woken sched t [] 4 (5 ∷ [])
sleep_tick-Woken_example =
    sleep_tick-Woken 2 sched [] 4 (5 ∷ []) sleepers (λ e. ground arith, (λ e. ground arith, refl))
      (omega arith) refl (omega arith)

abbrev quiet : Scheduler
quiet = record sched { first_sleeping_ctx = 5 }

abbrev idle : Scheduler
idle = record sched { next_ctx = 0 }

woken : (t : Scheduler) × (sleep_tick 2 idle ≡ some t) × Woken idle t [] 4 (5 ∷ [])
woken =
    sleep_tick-Woken 2 idle [] 4 (5 ∷ []) sleepers (λ e. ground arith, (λ e. ground arith, refl))
      (omega arith) refl (omega arith)
