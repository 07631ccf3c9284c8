-- ===== src/Sched/Wake.antt =====
-- A tick of src/kernel/sleep.c at which a sleeper's alarm goes off.
use muse.Base.{
  ℕ, zero, suc, ◌+◌, ◌-◌, ◌≤◌, ◌≡◌, ◌≢◌, refl, sym, ap, ◌∙◌, List, [], ◌∷◌, ◌++◌, arith, length,
  ◌==◌, ==_ne, some, ℕ_discrete, Bool-cases, inl, inr,
}
use muse.Sched.{
  Context, Scheduler, set_alarm, wake, tick_one, tick_from, sleep_tick, preempt, schedule,
}
use muse.Sched.Queue.{NotIn, Seg}
use muse.Sched.Sleep.{
  ticked, dec_all, dec_all-next, dec_all-out, dec_all-Ticked, NotDue, Ticked, Untouched, Seg-mid,
  Seg-last, Seg-unlink, Seg-Agree, Seg-same, NotIn-mid, NotIn-last, NotIn-after, last_or,
  tick_from-skip, tick_from-due, wake-first, wake-later,
}

Untouched-set :
    (ctx ctx' : ℕ → Context) (c a : ℕ) (q : List ℕ)
    → NotIn c q
    → Untouched (set_alarm ctx c a) ctx' q
    → Untouched ctx ctx' q
Untouched-set ctx ctx' c a [] out h = h
Untouched-set ctx ctx' c a (b ∷ q) out h =
    let same : set_alarm ctx c a b ≡ ctx b = rw (==_ne c b (λ e. out.0 (sym e))) (refl) in
    (h.0 ∙ ap Context.alarm same, Untouched-set ctx ctx' c a q out.1 h.1)

Untouched-refl : (ctx : ℕ → Context) (q : List ℕ) → Untouched ctx ctx q
Untouched-refl ctx [] = omega arith
Untouched-refl ctx (c ∷ q) = (refl, Untouched-refl ctx q)

dec_all-Untouched :
    (ctx : ℕ → Context) (p : ℕ) (before : List ℕ) (c : ℕ) (after : List ℕ)
    → Seg ctx p (before ++ c ∷ after) 0
    → Untouched ctx (dec_all ctx before) after
unfolding dec_all
dec_all-Untouched ctx p [] c after h = Untouched-refl ctx after
dec_all-Untouched ctx p (b ∷ before) c after h =
    let ctx' = set_alarm ctx b (ticked (ctx b)) in
    Untouched-set ctx (dec_all ctx' before) b (ticked (ctx b)) after
      (NotIn-after b before c after h.2)
      (dec_all-Untouched ctx' (ctx b).next before c after
        (Seg-same ctx ctx' (ctx b).next (before ++ c ∷ after) 0 (λ x. ground arith) h.3))

-- Alarms that agree but for `c`'s keep both relations of a list without `c`.
Untouched-to :
    (ctx d d' : ℕ → Context) (c : ℕ) (q : List ℕ)
    → ((x : ℕ) → x ≢ c → (d' x).alarm ≡ (d x).alarm)
    → NotIn c q
    → Untouched ctx d q
    → Untouched ctx d' q
Untouched-to ctx d d' c [] same out h = h
Untouched-to ctx d d' c (b ∷ q) same out h =
    (same b out.0 ∙ h.0, Untouched-to ctx d d' c q same out.1 h.1)

Ticked-to :
    (ctx d d' : ℕ → Context) (c : ℕ) (q : List ℕ)
    → ((x : ℕ) → x ≢ c → (d' x).alarm ≡ (d x).alarm)
    → NotIn c q
    → Ticked ctx d q
    → Ticked ctx d' q
Ticked-to ctx d d' c [] same out h = h
Ticked-to ctx d d' c (b ∷ q) same out h =
    (same b out.0 ∙ h.0, Ticked-to ctx d d' c q same out.1 h.1)

-- The state after the alarm of `c` went off.
pub record Woken (s t : Scheduler) (before : List ℕ) (c : ℕ) (after : List ℕ) : Type 0 where
  pub last : t.last_ctx ≡ c
  pub linked : (t.ctx s.last_ctx).next ≡ c
  pub queue : t.next_ctx ≡ s.next_ctx
  pub nil : (t.ctx c).next ≡ 0
  pub counted : Ticked s.ctx t.ctx before
  pub missed : Untouched s.ctx t.ctx after
  pub sleepers : Seg t.ctx t.first_sleeping_ctx (before ++ after) 0

module _ (s : Scheduler) (before : List ℕ) (c : ℕ) (after : List ℕ)
    (h : Seg s.ctx s.first_sleeping_ctx (before ++ c ∷ after) 0)
    (out : NotIn s.last_ctx (before ++ c ∷ after)) where
  -- the state that the loop is in when it reaches `c`, with the alarm counted down
  reached : Scheduler
  reached = record s { ctx = set_alarm (dec_all s.ctx before) c 0 }

  reached-next : (x : ℕ) → (reached.ctx x).next ≡ (s.ctx x).next
  unfolding reached
  reached-next x = the_same x ∙ dec_all-next s.ctx before x
    where
      the_same :
          (x : ℕ) → (set_alarm (dec_all s.ctx before) c 0 x).next ≡ (dec_all s.ctx before x).next
      the_same x = ground arith

  reached-alarm : (x : ℕ) → x ≢ c → (reached.ctx x).alarm ≡ (dec_all s.ctx before x).alarm
  unfolding reached
  reached-alarm x ne = ground arith

  not_last : s.last_ctx ≢ c
  not_last e = NotIn-mid s.last_ctx before c after out (sym e)

  -- Whatever store follows with the same alarms, those of the sleepers before and after `c` are right.
  alarms :
      (t : ℕ → Context)
      → ((x : ℕ) → (t x).alarm ≡ (reached.ctx x).alarm)
      → Ticked s.ctx t before × Untouched s.ctx t after
  alarms t same =
      let m = Seg-mid s.ctx s.first_sleeping_ctx before c after h in
      let both = λ (x : ℕ) (ne : x ≢ c). same x ∙ reached-alarm x ne in
      (
        Ticked-to s.ctx (dec_all s.ctx before) t c before both m.1
            (dec_all-Ticked s.ctx s.first_sleeping_ctx before c m.3),
        Untouched-to s.ctx (dec_all s.ctx before) t c after both m.2
            (dec_all-Untouched s.ctx s.first_sleeping_ctx before c after h),
      )

  reaches :
      (fuel : ℕ)
      → length before + 2 ≤ fuel
      → ticked (s.ctx c) ≡ 0
      → NotDue s.ctx before
      → ((wake reached (last_or 0 before) c).ctx c).next ≡ 0
      → sleep_tick fuel s ≡ some (wake reached (last_or 0 before) c)
  unfolding sleep_tick reached
  reaches fuel le due quiet stop =
      let m = Seg-mid s.ctx s.first_sleeping_ctx before c after h in
      let e = dec_all-out s.ctx before c m.1 in
      tick_from-skip before (suc (suc (fuel - length before - 2))) fuel s 0 s.first_sleeping_ctx c
        (omega arith) m.3 quiet
      ∙ tick_from-due (fuel - length before - 2) (record s { ctx = dec_all s.ctx before })
          (last_or 0 before) c m.0 (ap ticked e ∙ due) stop

wake-next_ctx : (s : Scheduler) (prev c : ℕ) → (wake s prev c).next_ctx ≡ s.next_ctx
unfolding wake
wake-next_ctx s prev c = elim (Bool-cases (prev == 0)) [ inl b ↦ rw b refl | inr b ↦ rw b refl ]

-- When the first alarm of the list to go off is that of `c`, and `last_ctx` is not itself among the
-- sleepers, `sleep_tick` returns with `c` behind the old `last_ctx`, as the new `last_ctx`, and out
-- of the sleepers' list. The alarms of the sleepers before `c` are counted down; those of the
-- sleepers after it are not. Whether `c` can be scheduled then depends on `next_ctx`, which stays.
pub sleep_tick-Woken :
    (fuel : ℕ) (s : Scheduler) (before : List ℕ) (c : ℕ) (after : List ℕ)
    → Seg s.ctx s.first_sleeping_ctx (before ++ c ∷ after) 0
    → NotIn s.last_ctx (before ++ c ∷ after)
    → NotDue s.ctx before
    → ticked (s.ctx c) ≡ 0
    → length before + 2 ≤ fuel
    → (t : Scheduler) × (sleep_tick fuel s ≡ some t) × Woken s t before c after
unfolding reached last_or
sleep_tick-Woken fuel s [] c after h out quiet due le =
    let r = reached s [] c after h out in
    let w = wake-first r c (not_last s [] c after h out) in
    let a = alarms s [] c after h out (wake r 0 c).ctx w.5 in
    let next = reached-next s [] c after h out in
    (
      wake r 0 c,
      reaches s [] c after h out fuel le due quiet w.2,
      record {
        last = w.0;
        linked = w.1;
        queue = wake-next_ctx r 0 c;
        nil = w.2;
        counted = a.0;
        missed = a.1;
        sleepers =
            rw (w.3, next c)
              (Seg-Agree s.ctx (wake r 0 c).ctx c c s.last_ctx (s.ctx c).next after 0
                (λ x p q n. w.4 x q n ∙ next x) h.2 h.2 out.1 h.3);
      },
    )
sleep_tick-Woken fuel s (b ∷ before) c after h out quiet due le =
    let r = reached s (b ∷ before) c after h out in
    let prev = last_or b before in
    let l = Seg-last s.ctx s.first_sleeping_ctx b before c after h in
    let w =
      wake-later r prev c (not_last s (b ∷ before) c after h out) l.0 l.1
        (NotIn-last s.last_ctx b before (c ∷ after) out) in
    let t = wake r prev c in
    let a = alarms s (b ∷ before) c after h out t.ctx w.6 in
    let next = reached-next s (b ∷ before) c after h out in
    (
      t,
      reaches s (b ∷ before) c after h out fuel le due quiet w.2,
      record {
        last = w.0;
        linked = w.1;
        queue = wake-next_ctx r prev c;
        nil = w.2;
        counted = a.0;
        missed = a.1;
        sleepers = rw (w.3) (
            Seg-unlink s.ctx t.ctx s.last_ctx s.first_sleeping_ctx b before c after
              (λ x p q n. w.5 x p q n ∙ next x) (w.4 ∙ next c) out h);
      },
    )

tick_one-next : (s : Scheduler) (prev c : ℕ) → (tick_one s prev c).next_ctx ≡ s.next_ctx
unfolding tick_one wake
tick_one-next s prev c = elim (Bool-cases (ticked (s.ctx c) == 0)) [
  | inl a ↦ elim (Bool-cases (prev == 0)) [ inl b ↦ rw (a, b) (refl) | inr b ↦ rw (a, b) (refl) ]
  | inr a ↦ rw (a) (refl)
]

tick_from-idle :
    (fuel : ℕ) (s : Scheduler) (prev cur : ℕ) (t : Scheduler)
    → tick_from fuel s prev cur ≡ some t
    → t.next_ctx ≡ s.next_ctx
unfolding tick_from
tick_from-idle zero s prev cur t h = absurd (cc)
tick_from-idle (suc fuel) s prev cur t h = elim (ℕ_discrete cur 0) [
  | yes z ↦ ground arith
  | no nz ↦
      let u = tick_one s prev cur in
      tick_from-idle fuel u cur (u.ctx cur).next t (rw (==_ne cur 0 nz) at h)
      ∙ tick_one-next s prev cur
]

-- A tick does not change `next_ctx`. So if nothing was ready before it, then whichever alarms go off,
-- `preempt` and `schedule` still do nothing after it.
pub sleep_tick-idle :
    (fuel : ℕ) (s t : Scheduler)
    → sleep_tick fuel s ≡ some t
    → s.next_ctx ≡ 0
    → (t.next_ctx ≡ 0) × (preempt t ≡ t) × (schedule t ≡ t)
unfolding sleep_tick preempt schedule
sleep_tick-idle fuel s t h z =
    let e = tick_from-idle fuel s 0 s.first_sleeping_ctx t h ∙ z in
    (e, rw (e) (refl), rw (e) (refl))
