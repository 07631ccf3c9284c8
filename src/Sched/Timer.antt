-- ===== src/Sched/Timer.antt =====
-- Time slices and the interrupt count: `handle_timer_inner` of src/kernel/hpet.c and
-- `lock_scheduler` of src/common/scheduler.c.
use muse.Base.{
  ℕ, zero, suc, ◌-◌, ◌^◌, ◌≤◌, ◌<◌, ◌≡◌, ◌≢◌, refl, sym, ap, ◌∙◌, arith, ltb, if◌then◌else◌, sub32,
  ◌==◌, Option, some, none, Bool, true, false, Bool-cases, inr, ℕ_discrete, ◌⊎◌, inl, lt→ltb, ==_ne,
}
use muse.Sched.{
  Scheduler, set_slices, end_slice, preempt, unlock_scheduler, lock_scheduler, context_switch,
  handle_timer, sleep_tick, tick_from,
}

-- The interrupt handler's end, `n` times, each after `lock_scheduler`.
pub ticks : ℕ → Scheduler → Scheduler
ticks zero s = s
ticks (suc n) s = ticks n (end_slice (lock_scheduler s))

-- the state after a tick that leaves `left` slices to the active context
kept : Scheduler → ℕ → Scheduler
kept s left =
    unlock_scheduler (record (lock_scheduler s) { ctx = set_slices s.ctx s.active_ctx left })

end_slice-kept :
    (s : Scheduler) (slices : ℕ)
    → slices < 2 ^ 32
    → 1 < slices
    → ((s.ctx s.active_ctx).slices_remaining ≡ slices)
      ⊎ ((s.ctx s.active_ctx).slices_remaining ≡ 0) × ((s.ctx s.active_ctx).priority ≡ slices)
    → end_slice (lock_scheduler s) ≡ kept s (slices - 1)
unfolding end_slice kept lock_scheduler
end_slice-kept s slices lt gt h = elim (ℕ_discrete (s.ctx s.active_ctx).slices_remaining 0) [
  | yes z ↦
      let e : (s.ctx s.active_ctx).priority ≡ slices = ground arith in
      rw (z, e, less slices lt gt, lt→ltb 0 (slices - 1) (omega arith)) (refl)
  | no nz ↦
      let e : (s.ctx s.active_ctx).slices_remaining ≡ slices = ground arith in
      rw (e, ==_ne slices 0 (omega arith), less slices lt gt, lt→ltb 0 (slices - 1) (omega arith))
        (refl)
]
  where
    less : (n : ℕ) → n < 2 ^ 32 → 1 < n → sub32 n 1 ≡ n - 1
    less n lt gt = omega arith

-- The active context has `r` ticks before it is preempted: left over, or by its priority.
abbrev pub Budget : Scheduler → ℕ → Type 0
Budget s r =
    ((s.ctx s.active_ctx).slices_remaining ≡ r)
    ⊎ ((s.ctx s.active_ctx).slices_remaining ≡ 0) × ((s.ctx s.active_ctx).priority ≡ r)

kept-fields :
    (s : Scheduler) (left : ℕ)
    → ((kept s left).active_ctx ≡ s.active_ctx)
      × ((kept s left).next_ctx ≡ s.next_ctx)
      × (((kept s left).ctx s.active_ctx).slices_remaining ≡ left)
unfolding kept unlock_scheduler lock_scheduler
kept-fields s left = (refl, refl, ground arith)

end_slice-last :
    (s : Scheduler)
    → Budget s 1
    → s.next_ctx ≢ 0
    → (end_slice (lock_scheduler s)).active_ctx ≡ s.next_ctx
unfolding end_slice lock_scheduler unlock_scheduler preempt context_switch
end_slice-last s b nz = elim (ℕ_discrete (s.ctx s.active_ctx).slices_remaining 0) [
  | yes z ↦
      let e : (s.ctx s.active_ctx).priority ≡ 1 = ground arith in
      rw (z, e, ==_ne s.next_ctx 0 nz) (refl)
  | no ne ↦
      let e : (s.ctx s.active_ctx).slices_remaining ≡ 1 = ground arith in
      rw (e, ==_ne s.next_ctx 0 nz) (refl)
]

below_one : (k : ℕ) → k < 1 → k ≡ 0
below_one k h = omega arith

ticks-Budget :
    (r : ℕ) (s : Scheduler)
    → 0 < r
    → r < 2 ^ 32
    → Budget s r
    → s.next_ctx ≢ 0
    → ((k : ℕ) → k < r → (ticks k s).active_ctx ≡ s.active_ctx)
      × ((ticks r s).active_ctx ≡ s.next_ctx)
unfolding ticks
ticks-Budget zero s pos lt b nz = absurd (omega arith)
ticks-Budget (suc zero) s pos lt b nz =
    (λ k h. ap (λ n. (ticks n s).active_ctx) (below_one k h), end_slice-last s b nz)
ticks-Budget (suc (suc r)) s pos lt b nz =
    let e : end_slice (lock_scheduler s) ≡ kept s (suc r) =
      end_slice-kept s (suc (suc r)) lt (omega arith) b ∙ ap (kept s) (omega arith) in
    let f = kept-fields s (suc r) in
    let ih =
      ticks-Budget (suc r) (kept s (suc r)) (omega arith) (omega arith)
        (inl (ap (λ a. ((kept s (suc r)).ctx a).slices_remaining) f.0 ∙ f.2))
        (λ z. nz (sym f.1 ∙ z)) in
    (λ k h. early k h e f.0 ih.0, ap (λ t. (ticks (suc r) t).active_ctx) e ∙ ih.1 ∙ f.1)
  where
    early :
        (k : ℕ)
        → k < suc (suc r)
        → end_slice (lock_scheduler s) ≡ kept s (suc r)
        → (kept s (suc r)).active_ctx ≡ s.active_ctx
        → ((k : ℕ)
            → k < suc r
            → (ticks k (kept s (suc r))).active_ctx ≡ (kept s (suc r)).active_ctx)
        → (ticks k s).active_ctx ≡ s.active_ctx
    early zero h e f ih = refl
    early (suc k) h e f ih = ap (λ t. (ticks k t).active_ctx) e ∙ ih k (omega arith) ∙ f

ticks-Slices :
    (r : ℕ) (s : Scheduler) (k : ℕ)
    → 0 < r
    → r < 2 ^ 32
    → Budget s r
    → s.next_ctx ≢ 0
    → k ≤ r
    → (ticks k s).active_ctx ≡ (if ltb k r then s.active_ctx else s.next_ctx)
ticks-Slices r s k pos lt b nz le =
    let h = ticks-Budget r s pos lt b nz in
    elim (ℕ_discrete k r) [
      | yes e ↦ ap (λ n. (ticks n s).active_ctx) e ∙ h.1 ∙ ground arith
      | no ne ↦ h.0 k (omega arith) ∙ ground arith
    ]

-- what follows a tick that returns
after_tick : (Scheduler → Option Scheduler) → Option Scheduler → Option Scheduler
after_tick f none = none
after_tick f (some t) = f t

-- `handle_timer_inner`, `n` times: `lock_scheduler`, `sleep_tick` and the rest
pub timer_ticks : ℕ → ℕ → Scheduler → Option Scheduler
timer_ticks fuel zero s = some s
timer_ticks fuel (suc n) s = after_tick (timer_ticks fuel n) (handle_timer fuel s)

-- nothing on the way changes the list of sleepers
preempt-sleepers : (s : Scheduler) → (preempt s).first_sleeping_ctx ≡ s.first_sleeping_ctx
unfolding preempt context_switch
preempt-sleepers s = elim (Bool-cases (s.next_ctx == 0)) [ inl z ↦ rw z refl | inr z ↦ rw z refl ]

either-sleepers :
    (b : Bool) (x y : Scheduler) (v : ℕ)
    → x.first_sleeping_ctx ≡ v
    → y.first_sleeping_ctx ≡ v
    → (if b then x else y).first_sleeping_ctx ≡ v
either-sleepers true x y v h h' = h
either-sleepers false x y v h h' = h'

end_slice-sleepers :
    (s : Scheduler) → (end_slice (lock_scheduler s)).first_sleeping_ctx ≡ s.first_sleeping_ctx
unfolding end_slice lock_scheduler unlock_scheduler
end_slice-sleepers s = either-sleepers _ _ _ _ refl (preempt-sleepers _)

handle_timer-awake :
    (fuel : ℕ) (s : Scheduler)
    → s.first_sleeping_ctx ≡ 0
    → handle_timer (suc fuel) s ≡ some (end_slice (lock_scheduler s))
unfolding handle_timer sleep_tick tick_from lock_scheduler
handle_timer-awake fuel s none_asleep = rw none_asleep refl

timer_ticks-ticks :
    (fuel n : ℕ) (s : Scheduler)
    → s.first_sleeping_ctx ≡ 0
    → timer_ticks (suc fuel) n s ≡ some (ticks n s)
unfolding timer_ticks ticks after_tick
timer_ticks-ticks fuel zero s none_asleep = refl
timer_ticks-ticks fuel (suc n) s none_asleep =
    ap (after_tick (timer_ticks (suc fuel) n)) (handle_timer-awake fuel s none_asleep)
    ∙ timer_ticks-ticks fuel n (end_slice (lock_scheduler s)) (end_slice-sleepers s ∙ none_asleep)

-- While no context sleeps, a context with `r` timer ticks left, its priority's number if its slice
-- starts, stays active for the ticks before the last of them, and at the last the first context of
-- the queue runs. The handler returns at each tick.
pub ticks_lem :
    (fuel r : ℕ) (s : Scheduler) (k : ℕ)
    → s.first_sleeping_ctx ≡ 0
    → 0 < r
    → r < 2 ^ 32
    → Budget s r
    → s.next_ctx ≢ 0
    → k ≤ r
    → (t : Scheduler) × (timer_ticks (suc fuel) k s ≡ some t)
      × (t.active_ctx ≡ (if ltb k r then s.active_ctx else s.next_ctx))
ticks_lem fuel r s k none_asleep pos lt b nz le =
    (ticks k s, timer_ticks-ticks fuel k s none_asleep, ticks-Slices r s k pos lt b nz le)

end_slice-zero :
    (s : Scheduler)
    → (s.ctx s.active_ctx).slices_remaining ≡ 0
    → (s.ctx s.active_ctx).priority ≡ 0
    → end_slice (lock_scheduler s) ≡ kept s (2 ^ 32 - 1)
unfolding end_slice kept lock_scheduler
end_slice-zero s a z = rw (a, z) (refl)

-- A context of priority 0 whose slice starts stays active for all of the next 2 ^ 32 - 1 ticks,
-- whatever waits in the queue.
pub ticks-priority_zero :
    (s : Scheduler) (k : ℕ)
    → (s.ctx s.active_ctx).slices_remaining ≡ 0
    → (s.ctx s.active_ctx).priority ≡ 0
    → s.next_ctx ≢ 0
    → k < 2 ^ 32
    → (ticks k s).active_ctx ≡ s.active_ctx
unfolding ticks
ticks-priority_zero s zero a z nz h = refl
ticks-priority_zero s (suc k) a z nz h =
    let e = end_slice-zero s a z in
    let f = kept-fields s (2 ^ 32 - 1) in
    let later =
      ticks-Budget (2 ^ 32 - 1) (kept s (2 ^ 32 - 1)) (omega arith) (omega arith)
        (inl (ap (λ a. ((kept s (2 ^ 32 - 1)).ctx a).slices_remaining) f.0 ∙ f.2))
        (λ z. nz (sym f.1 ∙ z)) in
    ap (λ t. (ticks k t).active_ctx) e ∙ later.0 k (omega arith) ∙ f.0
