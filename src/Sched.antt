-- ===== src/Sched.antt =====
-- The scheduler: src/common/scheduler.c, the queue of src/common/context.c, src/kernel/sleep.c and
-- `handle_timer_inner` of src/kernel/hpet.c. Contexts are records in a store indexed by address, 0 the
-- null pointer, with the shared `next` field that both lists run through. `context_switch` is
-- its effect on `active_ctx`; stacks, page directories and `eoi` are outside.
pub mod Queue
pub mod Ready
pub mod Sleep
pub mod Wake
pub mod Timer
mod Tests
use muse.Base.{
  ℕ, zero, suc, ◌+◌, ◌-◌, ◌*◌, ◌/◌, ◌%◌, ◌^◌, Bool, true, false, ◌==◌, ltb, if◌then◌else◌, Option,
  none, some, u32, sub32, update,
}

-- `struct context`, its fields that scheduling reads
pub record Context : Type 0 where
  pub present : Bool
  pub id : ℕ
  pub next : ℕ
  pub limit : ℕ
  pub priority : ℕ
  pub alarm : ℕ
  pub slices_remaining : ℕ

-- The globals, with the processor's interrupt flag and what `set_time` and `set_delay` last wrote.
pub record Scheduler : Type 0 where
  pub ctx : ℕ → Context
  pub active_ctx : ℕ
  pub next_ctx : ℕ
  pub last_ctx : ℕ
  pub first_sleeping_ctx : ℕ
  pub ctx_id : ℕ
  pub irq_disable_counter : ℕ
  pub interrupts : Bool
  pub tick_period : ℕ
  pub delay : ℕ

-- `c->next = p`
abbrev pub set_next : (ℕ → Context) → ℕ → ℕ → ℕ → Context
set_next ctx c p = update ctx c (record (ctx c) { next = p })

abbrev pub set_alarm : (ℕ → Context) → ℕ → ℕ → ℕ → Context
set_alarm ctx c a = update ctx c (record (ctx c) { alarm = a })

abbrev pub set_slices : (ℕ → Context) → ℕ → ℕ → ℕ → Context
set_slices ctx c n = update ctx c (record (ctx c) { slices_remaining = n })

pub context_switch : Scheduler → ℕ → Scheduler
context_switch s c = record s { active_ctx = c }

pub lock_scheduler : Scheduler → Scheduler
lock_scheduler s = record s {
  irq_disable_counter = u32 (s.irq_disable_counter + 1);
  interrupts = false;
}

pub unlock_scheduler : Scheduler → Scheduler
unlock_scheduler s =
    let n = sub32 s.irq_disable_counter 1 in
    record s { irq_disable_counter = n; interrupts = if n == 0 then true else s.interrupts }

pub schedule : Scheduler → Scheduler
schedule s =
    if s.next_ctx == 0
    then s
    else context_switch (record s { next_ctx = (s.ctx s.next_ctx).next }) s.next_ctx

pub preempt : Scheduler → Scheduler
preempt s =
    if s.next_ctx == 0
    then s
    else (let cleared = set_next s.ctx s.active_ctx 0 in
        let linked = set_next cleared s.last_ctx s.active_ctx in
        context_switch
          (record s {
            ctx = linked;
            last_ctx = (linked s.last_ctx).next;
            next_ctx = (linked s.next_ctx).next;
          })
          s.next_ctx)

pub terminate : Scheduler → Scheduler
terminate s = schedule s

-- The end of `create_context`, on the context it has filled in at `c`.
pub enqueue : Scheduler → ℕ → Scheduler
enqueue s c =
    if s.next_ctx == 0
    then record s { ctx = set_next s.ctx s.active_ctx c; next_ctx = c; last_ctx = c }
    else record s { ctx = set_next s.ctx s.last_ctx c; last_ctx = c }

-- `create_context`, at the address `c` that `kmalloc` returned
pub create_context : Scheduler → ℕ → ℕ → ℕ → Scheduler
create_context s c priority limit =
    let locked = lock_scheduler s in
    unlock_scheduler (
      enqueue
        (record locked {
          ctx = update locked.ctx c (record {
            present = true;
            id = locked.ctx_id;
            next = 0;
            limit = limit;
            priority = priority;
            alarm = (locked.ctx c).alarm;
            slices_remaining = 0;
          });
          ctx_id = u32 (locked.ctx_id + 1);
        })
        c)

-- `create_kernel_context`: no lock, and `priority` is not set.
pub create_kernel_context : Scheduler → ℕ → Scheduler
create_kernel_context s c =
    enqueue
      (record s {
        ctx =
            update s.ctx c
              (record (s.ctx c) { present = true; id = s.ctx_id; next = 0; slices_remaining = 0 });
        ctx_id = u32 (s.ctx_id + 1);
      })
      c

-- The block of `sleep_tick` for a context whose alarm goes off: it goes to the ready queue's end
-- and out of the sleepers' list.
pub wake : Scheduler → ℕ → ℕ → Scheduler
wake s previous_ctx c =
    let linked = set_next s.ctx s.last_ctx c in
    let rest = (linked c).next in
    if previous_ctx == 0
    then record s { ctx = set_next linked c 0; last_ctx = c; first_sleeping_ctx = rest }
    else record s { ctx = set_next (set_next linked previous_ctx rest) c 0; last_ctx = c }

-- The body of the loop of `sleep_tick`, up to its two assignments at the end.
pub tick_one : Scheduler → ℕ → ℕ → Scheduler
tick_one s previous_ctx c =
    let left = sub32 (s.ctx c).alarm 1 in
    let t = record s { ctx = set_alarm s.ctx c left } in
    if left == 0 then wake t previous_ctx c else t

-- The loop of `sleep_tick`, on fuel.
pub tick_from : ℕ → Scheduler → ℕ → ℕ → Option Scheduler
tick_from zero s previous_ctx sleeping_ctx = none
tick_from (suc fuel) s previous_ctx sleeping_ctx =
    let t = tick_one s previous_ctx sleeping_ctx in
    let rest = tick_from fuel t sleeping_ctx (t.ctx sleeping_ctx).next in
    if sleeping_ctx == 0 then some s else rest

pub sleep_tick : ℕ → Scheduler → Option Scheduler
sleep_tick fuel s = tick_from fuel s 0 s.first_sleeping_ctx

pub sleep_millis : Scheduler → ℕ → Scheduler
sleep_millis s millis =
    let l = lock_scheduler s in
    let ctx = set_next l.ctx l.active_ctx l.first_sleeping_ctx in
    schedule
      (record l { ctx = set_alarm ctx l.active_ctx millis; first_sleeping_ctx = l.active_ctx })

pub sleep_secs : Scheduler → ℕ → Scheduler
sleep_secs s seconds = sleep_millis s (u32 (seconds * 1000))

-- The part of `handle_timer_inner` after `sleep_tick`.
pub end_slice : Scheduler → Scheduler
end_slice s =
    let a = s.active_ctx in
    let slices = (s.ctx a).slices_remaining in
    let left = sub32 (if slices == 0 then (s.ctx a).priority else slices) 1 in
    let t = record s { ctx = set_slices s.ctx a left } in
    if ltb 0 left
    then unlock_scheduler t
    else record (unlock_scheduler (preempt t)) { delay = 1000000 / (s.tick_period / 1000000) }

pub handle_timer : ℕ → Scheduler → Option Scheduler
handle_timer fuel s = elim (sleep_tick fuel (lock_scheduler s)) [
  | none ↦ none
  | some t ↦ some (end_slice t)
]
